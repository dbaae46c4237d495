-- ===== src/Ssr/Session/Duplex.antt =====
-- src/ssr/mod.rs: the two directions of a session past its handshake.
use sspanel_ssr_rust_backend.Base.{
  ℕ, zero, suc, ◌≡◌, refl, sym, ap, ◌∙◌, true, some, List, [], ◌∷◌, ◌++◌, length, take, drop, ltb,
  if◌then◌else◌, arith, Result, Error, ok, err, ◌>>=◌, Result-cases, Bool-cases, inl, inr,
}
use mathlib.Core.Path.{subst}
use sspanel_ssr_rust_backend.Ssr.Crypto.{Crypto}
use sspanel_ssr_rust_backend.Ssr.Cipher.{StreamCipher, process}
use sspanel_ssr_rust_backend.Ssr.Protocol.{
  AuthAes128Md5, feed, packets, read_packets, server_post_decrypt, server_pre_encrypt,
  pre_encrypt_loop, pack_data, unit_len,
}
use sspanel_ssr_rust_backend.Ssr.Protocol.Chunks.{process_opened}
use sspanel_ssr_rust_backend.Ssr.Session.{ServerSession, decode, decrypt, encrypt}

-- Past the auth header, with both layers set.
pub record IsOpen (s : ServerSession) : Type 0 where
  pub stream : StreamCipher
  pub layer : AuthAes128Md5
  pub has_stream : s.decryptor ≡ some stream
  pub has_layer : s.protocol ≡ some layer
  pub opened : layer.has_recv_header ≡ true

-- The fields that sending reads and writes.
pub record SameSender (s t : ServerSession) (p q : AuthAes128Md5) : Type 0 where
  pub key : p.user_key ≡ q.user_key
  pub id : p.pack_id ≡ q.pack_id
  pub iv : s.send_iv ≡ t.send_iv
  pub stream : s.encryptor ≡ t.encryptor
  pub emitted : s.send_iv_emitted ≡ t.send_iv_emitted

module _ ⦃c : Crypto⦄ where
  -- The payload alone.
  unfoldable pub plain_of : ServerSession → List ℕ → Result (List ℕ)
  plain_of s raw = decrypt s raw >>= λ (_, out). ok out

  -- What is sent for a sequence of chunks.
  unfoldable pub encrypt_all : ServerSession → List (List ℕ) → Result (List ℕ)
  encrypt_all s [] = ok []
  encrypt_all s (x ∷ xs) =
      encrypt s x >>= λ (s', wire). encrypt_all s' xs >>= λ wires. ok (wire ++ wires)

  -- What an open session reads depends on these alone.
  receive : StreamCipher → List ℕ → ℕ → List ℕ → List ℕ → Result (List ℕ)
  receive d key id buf [] = ok []
  receive d key id buf (x ∷ xs) =
      let all = buf ++ (process d (x ∷ xs)).1 in
      packets (suc (length all)) key id all [] >>= λ (_, _, out). ok out

  post_opened :
      (p : AuthAes128Md5) (plain : List ℕ)
      → p.has_recv_header ≡ true
      → server_post_decrypt p plain ≡ (
          packets (suc (length (p.recv_buf ++ plain))) p.user_key p.recv_id (p.recv_buf ++ plain) []
          >>= λ (id, rest, out). ok (record p { recv_id = id; recv_buf = rest }, out))
  post_opened p plain h =
      unfold server_post_decrypt in process_opened (feed p plain) h ∙ (unfold read_packets in refl)

  decrypt_open :
      (s : ServerSession) (h : IsOpen s) (x : ℕ) (xs : List ℕ)
      → decrypt s (x ∷ xs) ≡ (
          server_post_decrypt h.layer (process h.stream (x ∷ xs)).1 >>= λ (p, out).
          ok (record s { decryptor = some (process h.stream (x ∷ xs)).0; protocol = some p }, out))
  decrypt_open s h x xs = unfold decrypt decode in rw (h.has_stream, h.has_layer)

  read : {s : ServerSession} → IsOpen s → List ℕ → Result (ℕ × List ℕ × List ℕ)
  read h raw =
      let all = h.layer.recv_buf ++ (process h.stream raw).1 in
      packets (suc (length all)) h.layer.user_key h.layer.recv_id all []

  plain_of-receive :
      (s : ServerSession) (h : IsOpen s) (raw : List ℕ)
      → plain_of s raw ≡ receive h.stream h.layer.user_key h.layer.recv_id h.layer.recv_buf raw
  plain_of-receive s h [] = unfold plain_of decrypt decode receive in rw h.has_stream
  plain_of-receive s h (x ∷ xs) =
      unfold plain_of receive read in
      rw (decrypt_open s h x xs, post_opened h.layer (process h.stream (x ∷ xs)).1 h.opened)
        (elim (Result-cases (read h (x ∷ xs))) [ inl (e, q) ↦ rw q | inr (a, q) ↦ rw q ])

  -- The session after a read.
  abbrev after : (s : ServerSession) → IsOpen s → List ℕ → ℕ × List ℕ × List ℕ → ServerSession
  after s h raw (id, rest, out) = record s {
    decryptor = some (process h.stream raw).0;
    protocol = some (record h.layer { recv_id = id; recv_buf = rest });
  }

  decrypt-read :
      (s : ServerSession) (h : IsOpen s) (x : ℕ) (xs : List ℕ) (r : ℕ × List ℕ × List ℕ)
      → read h (x ∷ xs) ≡ ok r
      → decrypt s (x ∷ xs) ≡ ok (after s h (x ∷ xs) r, r.2)
  unfolding read
  decrypt-read s h x xs r q =
      rw (decrypt_open s h x xs, post_opened h.layer (process h.stream (x ∷ xs)).1 h.opened) (rw q)

  decrypt-read_err :
      (s : ServerSession) (h : IsOpen s) (x : ℕ) (xs : List ℕ) (f : Error)
      → read h (x ∷ xs) ≡ err f
      → decrypt s (x ∷ xs) ≡ err f
  unfolding read
  decrypt-read_err s h x xs f q =
      rw (decrypt_open s h x xs, post_opened h.layer (process h.stream (x ∷ xs)).1 h.opened) (rw q)

  decrypt_nil : (s : ServerSession) (h : IsOpen s) → decrypt s [] ≡ ok (s, [])
  decrypt_nil s h = unfold decrypt decode in rw h.has_stream

  pub plain_of-nil : (s : ServerSession) → IsOpen s → plain_of s [] ≡ ok []
  plain_of-nil s h = unfold plain_of in rw (decrypt_nil s h)

  state_of :
      (s t : ServerSession) (a b : List ℕ)
      → ◌≡◌ {A = Result (ServerSession × List ℕ)} (ok (s, a)) (ok (t, b))
      → s ≡ t
  state_of s t a b e = cc

  no_error : {A : Type 0} {a : A} (f : Error) → err f ≡ ok a → ⊥
  no_error f e = cc

  -- What a successful `decrypt` leaves: an open session whose sender is the same.
  pub decrypt-IsOpen :
      (s s' : ServerSession) (h : IsOpen s) (raw out : List ℕ)
      → decrypt s raw ≡ ok (s', out)
      → (h' : IsOpen s') × SameSender s s' h.layer h'.layer
  decrypt-IsOpen s s' h [] out e =
      let same : s ≡ s' = state_of s s' [] out (sym (decrypt_nil s h) ∙ e) in
      subst (λ t. (h' : IsOpen t) × SameSender s t h.layer h'.layer) same
        (h, record { key = refl; id = refl; iv = refl; stream = refl; emitted = refl })
  decrypt-IsOpen s s' h (x ∷ xs) out e = elim (Result-cases (read h (x ∷ xs))) [
    | inl (f, q) ↦ absurd (no_error f (sym (decrypt-read_err s h x xs f q) ∙ e))
    | inr (r, q) ↦
        let same : after s h (x ∷ xs) r ≡ s' =
          state_of (after s h (x ∷ xs) r) s' r.2 out (sym (decrypt-read s h x xs r q) ∙ e) in
        subst (λ t. (h' : IsOpen t) × SameSender s t h.layer h'.layer) same
          (
            record {
              stream = (process h.stream (x ∷ xs)).0;
              layer = record h.layer { recv_id = r.0; recv_buf = r.1 };
              has_stream = refl;
              has_layer = refl;
              opened = h.opened;
            },
            record { key = refl; id = refl; iv = refl; stream = refl; emitted = refl },
          )
  ]

  -- `server_pre_encrypt` changes the packet id alone.
  pre_encrypt_keeps :
      (fuel : ℕ) (p : AuthAes128Md5) (rest out : List ℕ)
      → (pre_encrypt_loop fuel p rest out).0
        ≡ record p { pack_id = (pre_encrypt_loop fuel p rest out).0.pack_id }
  unfolding pre_encrypt_loop pack_data
  pre_encrypt_keeps zero p rest out = refl
  pre_encrypt_keeps (suc fuel) p rest out = elim (Bool-cases (ltb unit_len (length rest))) [
    | inl more ↦ rw more (
        pre_encrypt_keeps fuel (pack_data p (take unit_len rest)).0 (drop unit_len rest)
          (out ++ (pack_data p (take unit_len rest)).1))
    | inr last ↦ rw last
  ]

  pack_data_same :
      (p q : AuthAes128Md5) (buf : List ℕ)
      → p.user_key ≡ q.user_key
      → p.pack_id ≡ q.pack_id
      → ((pack_data p buf).1 ≡ (pack_data q buf).1)
        × ((pack_data p buf).0.pack_id ≡ (pack_data q buf).0.pack_id)
        × ((pack_data p buf).0.user_key ≡ (pack_data q buf).0.user_key)
  unfolding pack_data
  pack_data_same p q buf k i = (cc, cc, k)

  -- What is sent depends on the key and the packet id alone.
  pre_encrypt_same :
      (fuel : ℕ) (p q : AuthAes128Md5) (rest out : List ℕ)
      → p.user_key ≡ q.user_key
      → p.pack_id ≡ q.pack_id
      → ((pre_encrypt_loop fuel p rest out).1 ≡ (pre_encrypt_loop fuel q rest out).1)
        × ((pre_encrypt_loop fuel p rest out).0.pack_id
            ≡ (pre_encrypt_loop fuel q rest out).0.pack_id)
  unfolding pre_encrypt_loop
  pre_encrypt_same zero p q rest out k i = (refl, i)
  pre_encrypt_same (suc fuel) p q rest out k i =
      let unit = take unit_len rest in
      let head = pack_data_same p q unit k i in
      let tail = pack_data_same p q rest k i in
      let more =
        pre_encrypt_same fuel (pack_data p unit).0 (pack_data q unit).0 (drop unit_len rest)
          (out ++ (pack_data p unit).1) head.2 head.1 in
      elim (Bool-cases (ltb unit_len (length rest))) [
        | inl long ↦ rw (long, ← head.0) more
        | inr last ↦ rw (last, tail.0) (refl, tail.1)
      ]

  -- The session after a write.
  abbrev pub sent : (s : ServerSession) → IsOpen s → List ℕ → ServerSession
  sent s h plaintext = record s {
    protocol = some (server_pre_encrypt h.layer plaintext).0;
    encryptor = (process s.encryptor (server_pre_encrypt h.layer plaintext).1).0;
    send_iv_emitted = true;
  }

  abbrev pub wire_of : (s : ServerSession) → IsOpen s → List ℕ → List ℕ
  wire_of s h plaintext =
      let body = (process s.encryptor (server_pre_encrypt h.layer plaintext).1).1 in
      if s.send_iv_emitted then body else s.send_iv ++ body

  -- An open session always encrypts.
  pub encrypt_open :
      (s : ServerSession) (h : IsOpen s) (plaintext : List ℕ)
      → encrypt s plaintext ≡ ok (sent s h plaintext, wire_of s h plaintext)
  unfolding encrypt
  encrypt_open s h plaintext = rw h.has_layer

  -- A write leaves the session open, and changes nothing that reading depends on.
  pub sent-IsOpen :
      (s : ServerSession) (h : IsOpen s) (plaintext : List ℕ) → IsOpen (sent s h plaintext)
  unfolding server_pre_encrypt
  sent-IsOpen s h plaintext =
      let kept = pre_encrypt_keeps (suc (length plaintext)) h.layer plaintext [] in
      record {
        stream = h.stream;
        layer = (server_pre_encrypt h.layer plaintext).0;
        has_stream = h.has_stream;
        has_layer = refl;
        opened = ap (λ p. p.has_recv_header) kept ∙ h.opened;
      }

  pub plain_of-sent :
      (s : ServerSession) (h : IsOpen s) (plaintext raw : List ℕ)
      → plain_of (sent s h plaintext) raw ≡ plain_of s raw
  unfolding server_pre_encrypt sent-IsOpen
  plain_of-sent s h plaintext raw =
      let kept = pre_encrypt_keeps (suc (length plaintext)) h.layer plaintext [] in
      plain_of-receive (sent s h plaintext) (sent-IsOpen s h plaintext) raw
      ∙ ap (λ p. receive h.stream p.user_key p.recv_id p.recv_buf raw) kept
      ∙ sym (plain_of-receive s h raw)

  sent-SameSender :
      (s t : ServerSession) (h : IsOpen s) (k : IsOpen t) (plaintext : List ℕ)
      → SameSender s t h.layer k.layer
      → (wire_of s h plaintext ≡ wire_of t k plaintext)
        × SameSender
            (sent s h plaintext)
            (sent t k plaintext)
            (sent-IsOpen s h plaintext).layer
            (sent-IsOpen t k plaintext).layer
  unfolding server_pre_encrypt sent-IsOpen
  sent-SameSender s t h k plaintext same =
      let fuel = suc (length plaintext) in
      let (out, id) = pre_encrypt_same fuel h.layer k.layer plaintext [] same.key same.id in
      (
        ground (arith, out, same.stream, same.emitted, same.iv),
        record {
          key =
              ap (λ p. p.user_key) (pre_encrypt_keeps fuel h.layer plaintext [])
              ∙ same.key
              ∙ sym (ap (λ p. p.user_key) (pre_encrypt_keeps fuel k.layer plaintext []));
          id = id;
          iv = same.iv;
          stream = cc (out, same.stream);
          emitted = refl;
        },
      )

  pub encrypt_all_step :
      (s : ServerSession) (h : IsOpen s) (x : List ℕ) (xs : List (List ℕ))
      → encrypt_all s (x ∷ xs)
        ≡ (encrypt_all (sent s h x) xs >>= λ wires. ok (wire_of s h x ++ wires))
  encrypt_all_step s h x xs = unfold encrypt_all in rw (encrypt_open s h x)

  encrypt_all-SameSender :
      (s t : ServerSession) (h : IsOpen s) (k : IsOpen t) (chunks : List (List ℕ))
      → SameSender s t h.layer k.layer
      → encrypt_all s chunks ≡ encrypt_all t chunks
  encrypt_all-SameSender s t h k [] same = unfold encrypt_all in refl
  encrypt_all-SameSender s t h k (x ∷ xs) same =
      let (wire, later) = sent-SameSender s t h k x same in
      let rest =
        encrypt_all-SameSender (sent s h x) (sent t k x) (sent-IsOpen s h x) (sent-IsOpen t k x) xs
          later in
      encrypt_all_step s h x xs ∙ (rw (wire, rest) refl) ∙ sym (encrypt_all_step t k x xs)

  -- Reading changes nothing that writing depends on.
  pub encrypt_all-decrypt :
      (s s' : ServerSession) (h : IsOpen s) (raw out : List ℕ) (chunks : List (List ℕ))
      → decrypt s raw ≡ ok (s', out)
      → encrypt_all s' chunks ≡ encrypt_all s chunks
  encrypt_all-decrypt s s' h raw out chunks e =
      let (h', same) = decrypt-IsOpen s s' h raw out e in
      sym (encrypt_all-SameSender s s' h h' chunks same)
