-- ===== src/Ssr/Session/Chunks.antt =====
-- `ServerSession::decrypt` of src/ssr/mod.rs on a connection that arrives in pieces.
use sspanel_ssr_rust_backend.Base.{
  ℕ, ◌≤◌, ◌<◌, ◌≡◌, refl, sym, ◌∙◌, none, some, List, [], ◌∷◌, ◌++◌, arith, length, length-append,
  take, take-append, drop, drop-append, Result, Error, ok, err, ◌>>=◌, append_assoc, append-nil,
  Result-cases, inl, inr, Option-cases, dec_lt,
}
use sspanel_ssr_rust_backend.Ssr.Crypto.{Crypto}
use sspanel_ssr_rust_backend.Ssr.Cipher.{StreamCipher, iv_len, new_stream, process}
use sspanel_ssr_rust_backend.Ssr.Cipher.Laws.{process-append}
use sspanel_ssr_rust_backend.Ssr.Protocol
use sspanel_ssr_rust_backend.Ssr.Protocol.{AuthAes128Md5, server_post_decrypt}
use sspanel_ssr_rust_backend.Ssr.Protocol.Chunks.{and_then, server_post_decrypt-append}
use sspanel_ssr_rust_backend.Ssr.Session.{ServerSession, decode, start, decrypt}

module _ ⦃c : Crypto⦄ where
  and_then_nil : (r : Result (ServerSession × List ℕ)) → (r >>= λ (s, out). ok (s, [] ++ out)) ≡ r
  and_then_nil (ok a) = refl
  and_then_nil (err e) = refl

  -- Past the IV, with both layers set.
  module _ (s : ServerSession) (stream : StreamCipher) (protocol : AuthAes128Md5)
      (d : s.decryptor ≡ some stream) (p : s.protocol ≡ some protocol) where
    pub decode_cons :
        (x : ℕ) (xs : List ℕ)
        → decode s (x ∷ xs) ≡ (
            server_post_decrypt protocol (process stream (x ∷ xs)).1 >>= λ (protocol', out). ok (
              record s { decryptor = some (process stream (x ∷ xs)).0; protocol = some protocol' },
              out,
            ))
    decode_cons x xs = unfold decode in rw (d, p)

  and_then_end : (r : Result (ServerSession × List ℕ)) → (r >>= λ (s, out). ok (s, out ++ [])) ≡ r
  and_then_end (ok (s, out)) = rw append-nil
  and_then_end (err e) = refl

  decode-append_set :
      (s : ServerSession) (stream : StreamCipher) (protocol : AuthAes128Md5) (first second : List ℕ)
      → s.decryptor ≡ some stream
      → s.protocol ≡ some protocol
      → decode s (first ++ second) ≡ and_then (decode s first) (λ s'. decode s' second)
  decode-append_set s stream protocol [] second d p =
      unfold decode in sym (and_then_nil (decode s second))
  decode-append_set s stream protocol (x ∷ xs) [] d p =
      rw (append-nil xs) (unfold decode in sym (and_then_end (decode s (x ∷ xs))))
  decode-append_set s stream protocol (x ∷ xs) (y ∷ ys) d p =
      let split = process-append stream (x ∷ xs) (y ∷ ys) in
      let stream' = (process stream (x ∷ xs)).0 in
      let joined =
        server_post_decrypt-append protocol (process stream (x ∷ xs)).1
          (process stream' (y ∷ ys)).1 in
      elim (Result-cases (server_post_decrypt protocol (process stream (x ∷ xs)).1)) [
        | inl (e, q) ↦ rw (
          decode_cons s stream protocol d p x (xs ++ (y ∷ ys)),
          decode_cons s stream protocol d p x xs,
          split,
          joined,
          q,
        )
        | inr ((protocol', out), q) ↦
            let s' = record s { decryptor = some stream'; protocol = some protocol' } in
            rw
              (
                decode_cons s stream protocol d p x (xs ++ (y ∷ ys)),
                decode_cons s stream protocol d p x xs,
                split,
                joined,
                q,
                decode_cons s' stream' protocol' refl refl y ys,
              )
              (elim (Result-cases (server_post_decrypt protocol' (process stream' (y ∷ ys)).1)) [
                | inl (e, r) ↦ rw r
                | inr (a, r) ↦ rw r
              ])
      ]

  pub decode_unset :
      (s : ServerSession) (x : ℕ) (xs : List ℕ)
      → s.protocol ≡ none
      → decode s (x ∷ xs) ≡ err Error.panicked
  unfolding decode
  decode_unset s x xs p = ground arith

  decode-append :
      (s : ServerSession) (stream : StreamCipher) (first second : List ℕ)
      → s.decryptor ≡ some stream
      → decode s (first ++ second) ≡ and_then (decode s first) (λ s'. decode s' second)
  decode-append s stream [] second d = unfold decode in sym (and_then_nil (decode s second))
  decode-append s stream (x ∷ xs) second d = elim (Option-cases s.protocol) [
    | inl p ↦ rw (decode_unset s x (xs ++ second) p, decode_unset s x xs p)
    | inr (protocol, p) ↦ decode-append_set s stream protocol (x ∷ xs) second d p
  ]

  -- `decode` leaves the decryptor set.
  decode_sets :
      (s s' : ServerSession) (bytes out : List ℕ) (stream : StreamCipher)
      → s.decryptor ≡ some stream
      → decode s bytes ≡ ok (s', out)
      → (stream' : StreamCipher) × (s'.decryptor ≡ some stream')
  decode_sets s s' [] out stream d e = unfold decode in (stream, ground arith)
  decode_sets s s' (x ∷ xs) out stream d e =
      unfold decode in ((process stream (x ∷ xs)).0, ground arith)

  pub decrypt_started :
      (s : ServerSession) (stream : StreamCipher) (raw : List ℕ)
      → s.decryptor ≡ some stream
      → decrypt s raw ≡ decode s raw
  decrypt_started s stream raw d = unfold decrypt in rw d

  pub decrypt_fresh :
      (s : ServerSession) (raw : List ℕ)
      → s.decryptor ≡ none
      → decrypt s raw ≡ start (record s { recv_iv_buf = s.recv_iv_buf ++ raw })
  decrypt_fresh s raw d = unfold decrypt in rw d

  -- The session that `start` builds once the IV is complete.
  abbrev pub started : ServerSession → StreamCipher → ServerSession
  started s stream = record s {
    recv_iv_buf = [];
    decryptor = some stream;
    protocol =
        some (
          Protocol.new s.master_key (take (iv_len s.cipher) s.recv_iv_buf) s.users s.is_multi_user);
  }

  pub start_waits :
      (s : ServerSession) → length s.recv_iv_buf < iv_len s.cipher → start s ≡ ok (s, [])
  unfolding start
  start_waits s h = ground arith

  pub start_goes :
      (s : ServerSession)
      → iv_len s.cipher ≤ length s.recv_iv_buf
      → start s ≡ (
          new_stream s.cipher s.master_key (take (iv_len s.cipher) s.recv_iv_buf) >>= λ stream.
          decode (started s stream) (drop (iv_len s.cipher) s.recv_iv_buf))
  start_goes s h = unfold start in ground arith

  decode_then :
      (s : ServerSession) (stream : StreamCipher) (first second : List ℕ)
      → s.decryptor ≡ some stream
      → and_then (decode s first) (λ s'. decode s' second)
        ≡ and_then (decode s first) (λ s'. decrypt s' second)
  decode_then s stream first second d = elim (Result-cases (decode s first)) [
    | inl (e, p) ↦ rw p
    | inr ((s', out), p) ↦
        let (stream', d') = decode_sets s s' first out stream d p in
        rw (p, decrypt_started s' stream' second d')
  ]

  start-append :
      (s : ServerSession) (more : List ℕ)
      → s.decryptor ≡ none
      → start (record s { recv_iv_buf = s.recv_iv_buf ++ more })
        ≡ and_then (start s) (λ s'. decrypt s' more)
  start-append s more d = elim (dec_lt (length s.recv_iv_buf) (iv_len s.cipher)) [
    | yes short ↦
        rw (start_waits s short, decrypt_fresh s more d)
          (sym (and_then_nil (start (record s { recv_iv_buf = s.recv_iv_buf ++ more }))))
    | no full ↦
        let iv = take (iv_len s.cipher) s.recv_iv_buf in
        let rest = drop (iv_len s.cipher) s.recv_iv_buf in
        let same_iv = take-append (iv_len s.cipher) s.recv_iv_buf more (omega arith) in
        let same_rest = drop-append (iv_len s.cipher) s.recv_iv_buf more (omega arith) in
        rw
          (
            start_goes (record s { recv_iv_buf = s.recv_iv_buf ++ more })
                (omega (arith, length-append s.recv_iv_buf more)),
            start_goes s (omega arith),
            same_iv,
            same_rest,
          )
          (elim (Result-cases (new_stream s.cipher s.master_key iv)) [
            | inl (e, p) ↦ rw p
            | inr (stream, p) ↦ rw p (
                decode-append (started s stream) stream rest more refl
                ∙ decode_then (started s stream) stream rest more refl)
          ])
  ]

  -- `ServerSession::decrypt` on two reads, one after the other, is `decrypt` on both at once: the
  -- same error, or the same session and the payload joined. It holds in every session state and
  -- wherever the connection is cut, inside the IV too, for both ciphers.
  pub decrypt-append :
      (s : ServerSession) (first second : List ℕ)
      → decrypt s (first ++ second) ≡ and_then (decrypt s first) (λ s'. decrypt s' second)
  decrypt-append s first second = elim (Option-cases s.decryptor) [
    | inr (stream, d) ↦
        rw (decrypt_started s stream (first ++ second) d, decrypt_started s stream first d)
          (decode-append s stream first second d ∙ decode_then s stream first second d)
    | inl d ↦
        rw
          (
            decrypt_fresh s (first ++ second) d,
            decrypt_fresh s first d,
            ← append_assoc s.recv_iv_buf first second,
          )
          (start-append (record s { recv_iv_buf = s.recv_iv_buf ++ first }) second d)
  ]
