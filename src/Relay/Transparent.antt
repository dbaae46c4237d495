-- ===== src/Relay/Transparent.antt =====
-- src/tcp.rs: what a connection's relay passes on, and what it counts.
use sspanel_ssr_rust_backend.Base.{
  ℕ, ◌≡◌, ◌≢◌, refl, sym, ap, ◌∙◌, List, [], ◌∷◌, ◌++◌, length, length-append, append-nil,
  append_assoc, arith, Result, Error, ok, err, ◌>>=◌, Result-cases, inl, inr,
}
use mathlib.Core.Path.{subst}
use sspanel_ssr_rust_backend.Text.{is_empty}
use sspanel_ssr_rust_backend.Traffic.{record_upload, record_download}
use sspanel_ssr_rust_backend.Traffic.Ledger.{
  up, down, Traffic, uploaded, downloaded, count_one, count_all, counted, counted_one,
}
use sspanel_ssr_rust_backend.Ssr.Crypto.{Crypto}
use sspanel_ssr_rust_backend.Ssr.Session.{ServerSession, decrypt}
use sspanel_ssr_rust_backend.Ssr.Session.Chunks.{decrypt-append}
use sspanel_ssr_rust_backend.Ssr.Session.Duplex.{
  IsOpen, plain_of, encrypt_all, encrypt_open, sent, wire_of, sent-IsOpen, plain_of-nil,
  plain_of-sent, encrypt_all_step, decrypt-IsOpen, encrypt_all-decrypt,
}
use sspanel_ssr_rust_backend.Relay.Tcp.{chunk, fails}
use sspanel_ssr_rust_backend.Relay.Pump.{
  Input, idle_expires, from_client, from_remote, Pump, Next, continues, finishes, aborts, round,
  rounds, write_remote, write_client,
}

-- The bytes that the client sent, in the order of their arrival.
unfoldable pub client_bytes : List Input → List ℕ
client_bytes [] = []
client_bytes (from_client (chunk bytes) written ∷ is) = bytes ++ client_bytes is
client_bytes (from_client (fails e) written ∷ is) = client_bytes is
client_bytes (from_remote read written ∷ is) = client_bytes is
client_bytes (idle_expires ∷ is) = client_bytes is

-- The chunks that the target sent.
unfoldable pub remote_chunks : List Input → List (List ℕ)
remote_chunks [] = []
remote_chunks (from_remote (chunk bytes) written ∷ is) = bytes ∷ remote_chunks is
remote_chunks (from_remote (fails e) written ∷ is) = remote_chunks is
remote_chunks (from_client read written ∷ is) = remote_chunks is
remote_chunks (idle_expires ∷ is) = remote_chunks is

module _ ⦃c : Crypto⦄ where
  -- What a pump passed on from `p` to `p'`, with the traffic that it counted.
  pub record Passed (counter : ℕ) (p p' : Pump) (is : List Input) : Type 0 where
    pub plain : List ℕ
    pub wire : List ℕ
    pub traffic : List Traffic
    pub reads : plain_of p.session (client_bytes is) ≡ ok plain
    pub writes : encrypt_all p.session (remote_chunks is) ≡ ok wire
    pub to_remote : p'.to_remote ≡ p.to_remote ++ plain
    pub to_client : p'.to_client ≡ p.to_client ++ wire
    pub ledger : p'.traffic ≡ count_all p.traffic traffic
    pub uploads : counted up counter traffic ≡ length (client_bytes is)
    pub downloads : counted down counter traffic ≡ length wire

  rounds_cons :
      (counter : ℕ) (p : Pump) (i : Input) (is : List Input)
      → (rounds counter p (i ∷ is)).1 ≡ continues
      → ((round counter p i).1 ≡ continues)
        × (rounds counter p (i ∷ is) ≡ rounds counter (round counter p i).0 is)
  unfolding rounds
  rounds_cons counter p i is e = ground arith

  plain_of-append :
      (s s' : ServerSession) (raw more out : List ℕ)
      → decrypt s raw ≡ ok (s', out)
      → plain_of s (raw ++ more) ≡ (plain_of s' more >>= λ rest. ok (out ++ rest))
  plain_of-append s s' raw more out e =
      unfold plain_of in
      rw (decrypt-append s raw more, e)
        (elim (Result-cases (decrypt s' more)) [ inl (f, q) ↦ rw q | inr (a, q) ↦ rw q ])

  round_client :
      (counter : ℕ) (p : Pump) (x : ℕ) (xs : List ℕ) (written : Result (Unit {0}))
      (s' : ServerSession) (out : List ℕ)
      → decrypt p.session (x ∷ xs) ≡ ok (s', out)
      → (round counter p (from_client (chunk (x ∷ xs)) written)).1 ≡ continues
      → (round counter p (from_client (chunk (x ∷ xs)) written)).0 ≡ record p {
        session = s';
        traffic = record_upload p.traffic counter (length (x ∷ xs));
        to_remote = p.to_remote ++ out;
      }
  unfolding round write_remote is_empty
  round_client counter p x xs written s' [] e goes = rw (append-nil p.to_remote) (rw (e, round))
  round_client counter p x xs (ok _) s' (y ∷ ys) e goes = rw (e, round)
  round_client counter p x xs (err f) s' (y ∷ ys) e goes = ground (arith, e)

  -- A round that passes a chunk of the client on, before the others.
  passes_client :
      (counter : ℕ) (p p' : Pump) (x : ℕ) (xs : List ℕ) (written : Result (Unit {0}))
      (is : List Input) (s' : ServerSession) (out : List ℕ)
      → IsOpen p.session
      → decrypt p.session (x ∷ xs) ≡ ok (s', out)
      → Passed counter
          (record p {
            session = s';
            traffic = record_upload p.traffic counter (length (x ∷ xs));
            to_remote = p.to_remote ++ out;
          })
          p'
          is
      → Passed counter p p' (from_client (chunk (x ∷ xs)) written ∷ is)
  unfolding client_bytes remote_chunks count_all counted counted_one count_one
  passes_client counter p p' x xs written is s' out h e t = record {
    plain = out ++ t.plain;
    wire = t.wire;
    traffic = uploaded counter (length (x ∷ xs)) ∷ t.traffic;
    reads = plain_of-append p.session s' (x ∷ xs) (client_bytes is) out e ∙ (rw t.reads);
    writes = sym (encrypt_all-decrypt p.session s' h (x ∷ xs) out (remote_chunks is) e) ∙ t.writes;
    to_remote = t.to_remote ∙ append_assoc p.to_remote out t.plain;
    to_client = t.to_client;
    ledger = t.ledger;
    uploads = ground (arith, t.uploads, length-append (x ∷ xs) (client_bytes is));
    downloads = ground (arith, t.downloads);
  }

  passes_remote :
      (counter : ℕ) (p p' : Pump) (x : ℕ) (xs : List ℕ) (written : Result (Unit {0}))
      (is : List Input) (h : IsOpen p.session)
      → Passed counter
          (record p {
            session = sent p.session h (x ∷ xs);
            traffic = record_download p.traffic counter (length (wire_of p.session h (x ∷ xs)));
            to_client = p.to_client ++ wire_of p.session h (x ∷ xs);
          })
          p'
          is
      → Passed counter p p' (from_remote (chunk (x ∷ xs)) written ∷ is)
  unfolding client_bytes remote_chunks count_all counted counted_one count_one
  passes_remote counter p p' x xs written is h t =
      let out = wire_of p.session h (x ∷ xs) in
      record {
        plain = t.plain;
        wire = out ++ t.wire;
        traffic = downloaded counter (length out) ∷ t.traffic;
        reads = sym (plain_of-sent p.session h (x ∷ xs) (client_bytes is)) ∙ t.reads;
        writes = encrypt_all_step p.session h (x ∷ xs) (remote_chunks is) ∙ (rw t.writes);
        to_remote = t.to_remote;
        to_client = t.to_client ∙ append_assoc p.to_client out t.wire;
        ledger = t.ledger;
        uploads = ground (arith, t.uploads);
        downloads = ground (arith, t.downloads, length-append out t.wire);
      }

  round_remote :
      (counter : ℕ) (p : Pump) (h : IsOpen p.session) (x : ℕ) (xs : List ℕ)
      (written : Result (Unit {0}))
      → (round counter p (from_remote (chunk (x ∷ xs)) written)).1 ≡ continues
      → (round counter p (from_remote (chunk (x ∷ xs)) written)).0 ≡ record p {
        session = sent p.session h (x ∷ xs);
        traffic = record_download p.traffic counter (length (wire_of p.session h (x ∷ xs)));
        to_client = p.to_client ++ wire_of p.session h (x ∷ xs);
      }
  unfolding round write_client
  round_remote counter p h x xs (ok _) goes = rw (encrypt_open p.session h (x ∷ xs), round)
  round_remote counter p h x xs (err f) goes = ground (arith, encrypt_open p.session h (x ∷ xs))

  round_client_fails :
      (counter : ℕ) (p : Pump) (x : ℕ) (xs : List ℕ) (written : Result (Unit {0})) (e : Error)
      → decrypt p.session (x ∷ xs) ≡ err e
      → (round counter p (from_client (chunk (x ∷ xs)) written)).1 ≡ aborts e
  unfolding round
  round_client_fails counter p x xs written e q = rw (q, round)

  not_continuing :
      (counter : ℕ) (p : Pump) (i : Input) (is : List Input) (n : Next)
      → (round counter p i).1 ≡ n
      → n ≢ continues
      → (rounds counter p (i ∷ is)).1 ≢ continues
  not_continuing counter p i is n e stop goes = stop (sym e ∙ (rounds_cons counter p i is goes).0)

  -- A connection that has gone through its handshake, over any inputs in any order, as long as it
  -- goes on: the target has got exactly the payload that decryption of the whole upload stream
  -- gives, the client exactly the encryption of what the target sent, chunk by chunk, and the
  -- counter of the connection was told of every byte that came from the client and of every byte
  -- that went to it, and of no other.
  pub rounds-Passed :
      (counter : ℕ) (p : Pump) (is : List Input)
      → IsOpen p.session
      → (rounds counter p is).1 ≡ continues
      → Passed counter p (rounds counter p is).0 is
  rounds-Passed counter p [] h goes =
      unfold rounds client_bytes remote_chunks encrypt_all count_all counted in
      record {
        plain = [];
        wire = [];
        traffic = [];
        reads = plain_of-nil p.session h;
        writes = refl;
        to_remote = sym (append-nil p.to_remote);
        to_client = sym (append-nil p.to_client);
        ledger = refl;
        uploads = refl;
        downloads = refl;
      }
  rounds-Passed counter p (idle_expires ∷ is) h goes = absurd (
      not_continuing counter p idle_expires is (aborts Error.idle_timeout) (unfold round in refl)
        (λ e. cc) goes)
  rounds-Passed counter p (from_client (fails f) written ∷ is) h goes = absurd (
      not_continuing counter p (from_client (fails f) written) is (aborts f) (unfold round in refl)
        (λ e. cc) goes)
  rounds-Passed counter p (from_client (chunk []) written ∷ is) h goes = absurd (
      not_continuing counter p (from_client (chunk []) written) is finishes (unfold round in refl)
        (λ e. cc) goes)
  rounds-Passed counter p (from_client (chunk (x ∷ xs)) written ∷ is) h goes =
      let i = from_client (chunk (x ∷ xs)) written in
      let (goes_on, step) = rounds_cons counter p i is goes in
      elim (Result-cases (decrypt p.session (x ∷ xs))) [
        | inl (f, q) ↦ absurd (
            not_continuing counter p i is (aborts f) (round_client_fails counter p x xs written f q)
              (λ e. cc) goes)
        | inr ((s', out), q) ↦
            let to = round_client counter p x xs written s' out q goes_on in
            let p1 : Pump = record p {
              session = s';
              traffic = record_upload p.traffic counter (length (x ∷ xs));
              to_remote = p.to_remote ++ out;
            } in
            let all : rounds counter p (i ∷ is) ≡ rounds counter p1 is =
              step ∙ ap (λ q. rounds counter q is) to in
            subst (λ r. Passed counter p r.0 (i ∷ is)) (sym all)
              (passes_client counter p (rounds counter p1 is).0 x xs written is s' out h q (
                rounds-Passed counter p1 is (decrypt-IsOpen p.session s' h (x ∷ xs) out q).0
                  (sym (ap (λ r. r.1) all) ∙ goes)))
      ]
  rounds-Passed counter p (from_remote (fails f) written ∷ is) h goes = absurd (
      not_continuing counter p (from_remote (fails f) written) is (aborts f) (unfold round in refl)
        (λ e. cc) goes)
  rounds-Passed counter p (from_remote (chunk []) written ∷ is) h goes = absurd (
      not_continuing counter p (from_remote (chunk []) written) is finishes (unfold round in refl)
        (λ e. cc) goes)
  rounds-Passed counter p (from_remote (chunk (x ∷ xs)) written ∷ is) h goes =
      let i = from_remote (chunk (x ∷ xs)) written in
      let (goes_on, step) = rounds_cons counter p i is goes in
      let p1 : Pump = record p {
        session = sent p.session h (x ∷ xs);
        traffic = record_download p.traffic counter (length (wire_of p.session h (x ∷ xs)));
        to_client = p.to_client ++ wire_of p.session h (x ∷ xs);
      } in
      let all : rounds counter p (i ∷ is) ≡ rounds counter p1 is =
        step ∙ ap (λ q. rounds counter q is) (round_remote counter p h x xs written goes_on) in
      subst (λ r. Passed counter p r.0 (i ∷ is)) (sym all)
        (passes_remote counter p (rounds counter p1 is).0 x xs written is h (
          rounds-Passed counter p1 is (sent-IsOpen p.session h (x ∷ xs))
            (sym (ap (λ r. r.1) all) ∙ goes)))
