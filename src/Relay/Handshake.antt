-- ===== src/Relay/Handshake.antt =====
-- src/tcp.rs: what the handshake loop finds in the bytes of a connection.
use sspanel_ssr_rust_backend.Base.{
  ℕ, suc, ◌-◌, ◌^◌, ◌≤◌, ◌≡◌, refl, sym, ◌∙◌, Option, none, some, List, [], ◌∷◌, ◌++◌, length,
  length-append, append-nil, append_assoc, take, drop, min, ltb, arith, if◌then◌else◌, Result,
  Error, ok, err, Result-cases, Bool-cases, inl, inr,
}
use mathlib.Core.Path.{subst}
use sspanel_ssr_rust_backend.Base.Int.{ℤ}
use sspanel_ssr_rust_backend.Base.Table.{Table}
use sspanel_ssr_rust_backend.Text.{is_empty}
use sspanel_ssr_rust_backend.Ssr.Crypto.{Crypto}
use sspanel_ssr_rust_backend.Ssr.Cipher.{CipherKind}
use sspanel_ssr_rust_backend.Ssr.Session
use sspanel_ssr_rust_backend.Ssr.Session.{ServerSession, decrypt, start}
use sspanel_ssr_rust_backend.Ssr.Session.Chunks.{decrypt-append}
use sspanel_ssr_rust_backend.Ssr.Session.Fresh.{new_reads_nothing}
use sspanel_ssr_rust_backend.Ssr.Address.{Address, parse}
use sspanel_ssr_rust_backend.Relay.Tcp.{
  max_handshake_bytes, saturating_add, Read, chunk, fails, Handshake, closed, pending, complete,
  handshake_parse, handshake_read, handshake,
}

-- The bytes of the reads, in a row.
unfoldable pub bytes_of : List Read → List ℕ
bytes_of [] = []
bytes_of (chunk bytes ∷ rs) = bytes ++ bytes_of rs
bytes_of (fails e ∷ rs) = bytes_of rs

module _ ⦃c : Crypto⦄ where
  -- After `raw`, which a fresh session decrypts at once to `app`, and whose bytes are counted.
  pub record Arrived (fresh : ServerSession) (raw : List ℕ) (s : ServerSession) (app : List ℕ)
      (n : ℕ) : Type 0 where
    pub decrypts : decrypt fresh raw ≡ ok (s, app)
    pub counts : n ≡ min (length raw) (2 ^ 64 - 1)

  -- No address yet, and a buffer within its bound.
  pub record Waits (app : List ℕ) : Type 0 where
    pub unparsed : parse app ≡ ok none
    pub bounded : length app ≤ max_handshake_bytes

  -- What an outcome of the loop tells of the bytes that have arrived.
  unfoldable pub Explains : ServerSession → List ℕ → List Read → Handshake → Type 0
  Explains fresh raw rs closed =
      (k : ℕ) × (s : ServerSession) × (app : List ℕ) × (n : ℕ) × Arrived fresh
        (raw ++ bytes_of (take k rs)) s app n
      × Waits app
  Explains fresh raw rs (pending s app n) = Arrived fresh (raw ++ bytes_of rs) s app n × Waits app
  Explains fresh raw rs (complete target initial s n) =
      (k : ℕ) × (app : List ℕ) × (consumed : ℕ) × Arrived fresh (raw ++ bytes_of (take k rs)) s app
        n
      × (parse app ≡ ok (some (target, consumed)))
      × (initial ≡ drop consumed app)

  Arrived-more :
      (fresh s s' : ServerSession) (raw more app out : List ℕ) (n : ℕ)
      → Arrived fresh raw s app n
      → decrypt s more ≡ ok (s', out)
      → Arrived fresh (raw ++ more) s' (app ++ out) (saturating_add n (length more))
  Arrived-more fresh s s' raw more app out n h e = record {
    decrypts = decrypt-append fresh raw more ∙ (rw (h.decrypts, e));
    counts = ground (arith, h.counts, length-append raw more);
  }

  handshake_parse_found :
      (s : ServerSession) (app : List ℕ) (n consumed : ℕ) (target : Address)
      → parse app ≡ ok (some (target, consumed))
      → handshake_parse s app n ≡ ok (complete target (drop consumed app) s n)
  unfolding handshake_parse
  handshake_parse_found s app n consumed target q = rw q

  handshake_parse_err :
      (s : ServerSession) (app : List ℕ) (n : ℕ) (e : Error)
      → parse app ≡ err e
      → handshake_parse s app n ≡ err e
  unfolding handshake_parse
  handshake_parse_err s app n e q = rw q

  handshake_parse-none :
      (s : ServerSession) (app : List ℕ) (n : ℕ)
      → parse app ≡ ok none
      → handshake_parse s app n ≡ (
          if ltb max_handshake_bytes (length app)
          then err Error.handshake_too_long
          else ok (pending s app n))
  unfolding handshake_parse
  handshake_parse-none s app n q = rw q

  -- The same of one read.
  unfoldable Step : ServerSession → List ℕ → Handshake → Type 0
  Step fresh raw closed = ⊥
  Step fresh raw (pending s app n) = Arrived fresh raw s app n × Waits app
  Step fresh raw (complete target initial s n) =
      (app : List ℕ) × (consumed : ℕ) × Arrived fresh raw s app n
      × (parse app ≡ ok (some (target, consumed)))
      × (initial ≡ drop consumed app)

  step_at :
      (fresh : ServerSession) (raw : List ℕ) (r : Result Handshake) (h h' : Handshake)
      → r ≡ ok h
      → r ≡ ok h'
      → Step fresh raw h
      → Step fresh raw h'
  step_at fresh raw r h h' e e' t = let same : h ≡ h' = cc in subst (Step fresh raw) same t

  no_step : (r : Result Handshake) (e : Error) (h : Handshake) → r ≡ err e → r ≡ ok h → ⊥
  no_step r e h failed done = cc

  parse_step :
      (fresh s : ServerSession) (raw app : List ℕ) (n : ℕ) (h : Handshake)
      → Arrived fresh raw s app n
      → handshake_parse s app n ≡ ok h
      → Step fresh raw h
  unfolding Step
  parse_step fresh s raw app n h arrived done = elim (Result-cases (parse app)) [
    | inl (e, q) ↦ absurd (no_step _ e h (handshake_parse_err s app n e q) done)
    | inr (some (target, consumed), q) ↦
        step_at fresh raw _ (complete target (drop consumed app) s n) h
          (handshake_parse_found s app n consumed target q) done (app, consumed, arrived, q, refl)
    | inr (none, q) ↦ elim (Bool-cases (ltb max_handshake_bytes (length app))) [
      | inl long ↦
          absurd
            (no_step _ Error.handshake_too_long h (handshake_parse-none s app n q ∙ (rw long)) done)
      | inr short ↦
          step_at fresh raw _ (pending s app n) h (handshake_parse-none s app n q ∙ (rw short)) done
            (arrived, record { unparsed = q; bounded = ground arith })
    ]
  ]

  read_err :
      (s : ServerSession) (app : List ℕ) (n byte : ℕ) (bytes : List ℕ) (e : Error)
      → decrypt s (byte ∷ bytes) ≡ err e
      → handshake_read s app n (chunk (byte ∷ bytes)) ≡ err e
  unfolding handshake_read
  read_err s app n byte bytes e q = rw (q, handshake_read)

  read_empty :
      (s s' : ServerSession) (app : List ℕ) (n byte : ℕ) (bytes : List ℕ)
      → decrypt s (byte ∷ bytes) ≡ ok (s', [])
      → handshake_read s app n (chunk (byte ∷ bytes))
        ≡ ok (pending s' app (saturating_add n (length (byte ∷ bytes))))
  unfolding handshake_read is_empty
  read_empty s s' app n byte bytes q = rw (q, handshake_read)

  read_some :
      (s s' : ServerSession) (app : List ℕ) (n byte x : ℕ) (bytes xs : List ℕ)
      → decrypt s (byte ∷ bytes) ≡ ok (s', x ∷ xs)
      → handshake_read s app n (chunk (byte ∷ bytes))
        ≡ handshake_parse s' (app ++ (x ∷ xs)) (saturating_add n (length (byte ∷ bytes)))
  unfolding handshake_read is_empty
  read_some s s' app n byte x bytes xs q = rw (q, handshake_read)

  read_step :
      (fresh s : ServerSession) (raw app : List ℕ) (n byte : ℕ) (bytes : List ℕ) (h : Handshake)
      → Arrived fresh raw s app n
      → Waits app
      → handshake_read s app n (chunk (byte ∷ bytes)) ≡ ok h
      → Step fresh (raw ++ (byte ∷ bytes)) h
  unfolding Step
  read_step fresh s raw app n byte bytes h arrived waits done =
      elim (Result-cases (decrypt s (byte ∷ bytes))) [
        | inl (e, q) ↦ absurd (no_step _ e h (read_err s app n byte bytes e q) done)
        | inr ((s', []), q) ↦
            let now = Arrived-more fresh s s' raw (byte ∷ bytes) app [] n arrived q in
            step_at fresh (raw ++ (byte ∷ bytes)) _
              (pending s' app (saturating_add n (length (byte ∷ bytes)))) h
              (read_empty s s' app n byte bytes q) done
              (
                subst
                    (λ a.
                      Arrived fresh (raw ++ (byte ∷ bytes)) s' a
                        (saturating_add n (length (byte ∷ bytes))))
                    (append-nil app) now,
                waits,
              )
        | inr ((s', x ∷ xs), q) ↦
            parse_step fresh s' (raw ++ (byte ∷ bytes)) (app ++ (x ∷ xs))
              (saturating_add n (length (byte ∷ bytes))) h
              (Arrived-more fresh s s' raw (byte ∷ bytes) app (x ∷ xs) n arrived q)
              (sym (read_some s s' app n byte x bytes xs q) ∙ done)
      ]

  -- One read earlier.
  earlier :
      (fresh : ServerSession) (raw : List ℕ) (bytes : List ℕ) (rs : List Read) (h : Handshake)
      → Explains fresh (raw ++ bytes) rs h
      → Explains fresh raw (chunk bytes ∷ rs) h
  unfolding Explains bytes_of take
  earlier fresh raw bytes rs closed (k, s, app, n, arrived, waits) =
      (suc k, s, app, n, rw (← append_assoc raw bytes (bytes_of (take k rs))) arrived, waits)
  earlier fresh raw bytes rs (pending s app n) (arrived, waits) =
      (rw (← append_assoc raw bytes (bytes_of rs)) arrived, waits)
  earlier fresh raw bytes rs (complete target initial s n)
        (k, app, consumed, arrived, parsed, left) =
      (
        suc k,
        app,
        consumed,
        rw (← append_assoc raw bytes (bytes_of (take k rs))) arrived,
        parsed,
        left,
      )

  -- An outcome of the first read.
  at_once :
      (fresh : ServerSession) (raw : List ℕ) (rs : List Read) (target : Address) (initial : List ℕ)
      (s : ServerSession) (n : ℕ)
      → Step fresh raw (complete target initial s n)
      → Explains fresh raw rs (complete target initial s n)
  unfolding Explains Step bytes_of take
  at_once fresh raw rs target initial s n (app, consumed, arrived, parsed, left) =
      (0, app, consumed, rw (append-nil raw) arrived, parsed, left)

  loop_step :
      (s : ServerSession) (app : List ℕ) (n : ℕ) (r : Read) (rs : List Read)
      (out : Result Handshake)
      → handshake_read s app n r ≡ out
      → handshake s app n (r ∷ rs) ≡ elim out [
        | err e ↦ err e
        | ok closed ↦ ok closed
        | ok (pending s' app' n') ↦ handshake s' app' n' rs
        | ok (complete target initial s' n') ↦ ok (complete target initial s' n')
      ]
  unfolding handshake
  loop_step s app n r rs out q = rw (q, handshake)

  outcome_of : (r : Result Handshake) (h h' : Handshake) → r ≡ ok h → r ≡ ok h' → h ≡ h'
  outcome_of r h h' e e' = cc

  not_closed : (fresh : ServerSession) (raw : List ℕ) → Step fresh raw closed → ⊥
  unfolding Step
  not_closed fresh raw t = t

  waiting :
      (raw : List ℕ) (fresh s : ServerSession) (app : List ℕ) (n : ℕ)
      → Step fresh raw (pending s app n)
      → Arrived fresh raw s app n × Waits app
  unfolding Step
  waiting raw fresh s app n t = t

  loop-Explains :
      (fresh s : ServerSession) (raw app : List ℕ) (n : ℕ) (rs : List Read) (h : Handshake)
      → Arrived fresh raw s app n
      → Waits app
      → handshake s app n rs ≡ ok h
      → Explains fresh raw rs h
  loop-Explains fresh s raw app n [] h arrived waits done =
      let now : handshake s app n [] ≡ ok (pending s app n) = unfold handshake in refl in
      let same : pending s app n ≡ h =
        outcome_of (handshake s app n []) (pending s app n) h now done in
      subst (Explains fresh raw []) same
        (unfold Explains bytes_of in (rw (append-nil raw) arrived, waits))
  loop-Explains fresh s raw app n (fails e ∷ rs) h arrived waits done =
      absurd (
        no_step _ e h (loop_step s app n (fails e) rs (err e) (unfold handshake_read in refl)) done)
  loop-Explains fresh s raw app n (chunk [] ∷ rs) h arrived waits done =
      let now = loop_step s app n (chunk []) rs (ok closed) (unfold handshake_read in refl) in
      let same : closed ≡ h = outcome_of _ closed h now done in
      subst (Explains fresh raw (chunk [] ∷ rs)) same
        (unfold Explains bytes_of take in (0, s, app, n, rw (append-nil raw) arrived, waits))
  loop-Explains fresh s raw app n (chunk (byte ∷ bytes) ∷ rs) h arrived waits done =
      let r = chunk (byte ∷ bytes) in
      elim (Result-cases (handshake_read s app n r)) [
        | inl (e, q) ↦ absurd (no_step _ e h (loop_step s app n r rs (err e) q) done)
        | inr (closed, q) ↦ absurd (
            not_closed fresh (raw ++ (byte ∷ bytes))
              (read_step fresh s raw app n byte bytes closed arrived waits q))
        | inr (pending s' app' n', q) ↦
            let now =
              waiting (raw ++ (byte ∷ bytes)) fresh s' app' n'
                (read_step fresh s raw app n byte bytes (pending s' app' n') arrived waits q) in
            earlier fresh raw (byte ∷ bytes) rs h (
              loop-Explains fresh s' (raw ++ (byte ∷ bytes)) app' n' rs h now.0 now.1
                (sym (loop_step s app n r rs (ok (pending s' app' n')) q) ∙ done))
        | inr (complete target initial s' n', q) ↦
            let same : complete target initial s' n' ≡ h =
              outcome_of _ (complete target initial s' n') h
                (loop_step s app n r rs (ok (complete target initial s' n')) q) done in
            subst (Explains fresh raw (r ∷ rs)) same (
              earlier fresh raw (byte ∷ bytes) rs (complete target initial s' n') (
                at_once fresh (raw ++ (byte ∷ bytes)) rs target initial s' n' (
                  read_step fresh s raw app n byte bytes (complete target initial s' n') arrived
                    waits q)))
      ]

  -- What the handshake of a new session tells of the connection's bytes, however they are cut into
  -- reads. When it completes, some of the first reads, joined and decrypted at once, give a text
  -- whose address header is the target and whose rest is the initial payload, with that session, and
  -- their bytes are counted, up to 2^64 - 1. When it still waits, all of the bytes are decrypted and
  -- counted so, no address header is complete, and the text has at most 64 KiB.
  pub handshake-Explains :
      (password : List ℕ) (users : Table ℕ (List ℕ)) (is_multi_user : ℤ) (cipher : CipherKind)
      (getrandom : ℕ → Option (List ℕ)) (s : ServerSession) (rs : List Read) (h : Handshake)
      → Session.new password users is_multi_user cipher getrandom ≡ ok s
      → handshake s [] 0 rs ≡ ok h
      → Explains s [] rs h
  handshake-Explains password users is_multi_user cipher getrandom s rs h made done =
      loop-Explains s s [] [] 0 rs h
        (record {
          decrypts = new_reads_nothing password users is_multi_user cipher getrandom s made;
          counts = refl;
        })
        (record { unparsed = unfold parse in refl; bounded = omega arith }) done
