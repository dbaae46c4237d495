-- ===== src/Ssr/Protocol/Chunks.antt =====
-- `server_post_decrypt` of src/ssr/protocol.rs on a stream that arrives in pieces.
use sspanel_ssr_rust_backend.Base.{
  ℕ, suc, ◌≡◌, refl, sym, ◌∙◌, true, false, Option, none, some, List, [], ◌++◌, arith, length,
  Result, Error, ok, err, ◌>>=◌, append_assoc, Bool-cases, Result-cases, append-nil, length-append,
  inl, inr, ◌⊎◌,
}
use sspanel_ssr_rust_backend.Ssr.Crypto.{Crypto}
use sspanel_ssr_rust_backend.Ssr.Protocol.{
  AuthAes128Md5, feed, packets, read_packets, read_header, process_buffer, server_post_decrypt,
}
use sspanel_ssr_rust_backend.Ssr.Protocol.Header.{
  read_header-feed-some, read_header-feed_err, read_header-feed-none, read_header_wait,
  read_header_opens,
}
use sspanel_ssr_rust_backend.Ssr.Protocol.Packets.{
  packets-append, packets_out, packets_shrinks, packets_fuel,
}

pub Header-cases :
    (r : Result (AuthAes128Md5 × Option (List ℕ)))
    → ((e : Error) × (r ≡ err e))
      ⊎ (((t : AuthAes128Md5) × (r ≡ ok (t, none)))
          ⊎ ((t : AuthAes128Md5) × (out : List ℕ) × (r ≡ ok (t, some out))))
Header-cases (err e) = inl (e, refl)
Header-cases (ok (t, none)) = inr (inl (t, refl))
Header-cases (ok (t, some out)) = inr (inr (t, out, refl))

-- One delivery after another: the payloads are joined.
abbrev pub and_then :
    {S : Type 0} → Result (S × List ℕ) → (S → Result (S × List ℕ)) → Result (S × List ℕ)
and_then first second = first >>= λ (s, out). second s >>= λ (s', out'). ok (s', out ++ out')

module _ ⦃c : Crypto⦄ where
  read_packets-append :
      (s : AuthAes128Md5) (more out : List ℕ)
      → read_packets (feed s more) out
        ≡ (read_packets s out >>= λ (s', out'). read_packets (feed s' more) out')
  unfolding read_packets
  read_packets-append s more out =
      let fuel = suc (length (s.recv_buf ++ more)) in
      let split =
        packets-append s.user_key (suc (length s.recv_buf)) fuel fuel s.recv_id s.recv_buf more out
          (omega arith) (omega arith) (omega arith) in
      elim (Result-cases (packets (suc (length s.recv_buf)) s.user_key s.recv_id s.recv_buf out)) [
        | inl (e, p) ↦ rw (split, p)
        | inr ((id, rest, out'), p) ↦
            let shrunk =
              packets_shrinks s.user_key (suc (length s.recv_buf)) s.recv_id s.recv_buf out id rest
                out' p in
            rw (
              split,
              p,
              packets_fuel s.user_key fuel (suc (length (rest ++ more))) id (rest ++ more) out'
                  (omega (arith, length-append s.recv_buf more, length-append rest more))
                  (omega arith),
            )
      ]

  read_packets_out :
      (s : AuthAes128Md5) (out : List ℕ)
      → read_packets s out ≡ (read_packets s [] >>= λ (s', out'). ok (s', out ++ out'))
  unfolding read_packets
  read_packets_out s out =
      let joined =
        rw append-nil at
          (packets_out s.user_key (suc (length s.recv_buf)) s.recv_id s.recv_buf out []) in
      elim (Result-cases (packets (suc (length s.recv_buf)) s.user_key s.recv_id s.recv_buf [])) [
        | inl (e, p) ↦ rw (joined, p)
        | inr (r, p) ↦ rw (joined, p)
      ]

  read_packets_keeps :
      (s s' : AuthAes128Md5) (out out' : List ℕ)
      → read_packets s out ≡ ok (s', out')
      → s'.has_recv_header ≡ s.has_recv_header
  unfolding read_packets
  read_packets_keeps s s' out out' e = ground arith

  pub process_opened :
      (s : AuthAes128Md5) → s.has_recv_header ≡ true → process_buffer s ≡ read_packets s []
  unfolding process_buffer
  process_opened s h = ground arith

  pub process_header :
      (s : AuthAes128Md5)
      → s.has_recv_header ≡ false
      → process_buffer s ≡ (
          read_header s >>= λ r. elim r.1 [ none ↦ ok (r.0, []) | some out ↦ read_packets r.0 out ])
  unfolding process_buffer
  process_header s h = ground arith

  -- A run that collects behind `out`, then a run on what follows.
  read_packets_then :
      (s : AuthAes128Md5) (more out : List ℕ)
      → s.has_recv_header ≡ true
      → read_packets (feed s more) out
        ≡ and_then (read_packets s out) (λ s'. process_buffer (feed s' more))
  read_packets_then s more out h = elim (Result-cases (read_packets s out)) [
    | inl (e, p) ↦ rw (read_packets-append s more out, p)
    | inr ((s', out'), p) ↦
        let opened : s'.has_recv_header ≡ true = read_packets_keeps s s' out out' p ∙ h in
        rw (read_packets-append s more out, p, process_opened (feed s' more) opened)
          (read_packets_out (feed s' more) out')
  ]

  and_then_nil : (r : Result (AuthAes128Md5 × List ℕ)) → (r >>= λ (s, out). ok (s, [] ++ out)) ≡ r
  and_then_nil (ok a) = refl
  and_then_nil (err e) = refl

  process_buffer-feed :
      (s : AuthAes128Md5) (more : List ℕ)
      → process_buffer (feed s more)
        ≡ and_then (process_buffer s) (λ s'. process_buffer (feed s' more))
  process_buffer-feed s more = elim (Bool-cases s.has_recv_header) [
    | inl h ↦
        rw (process_opened s h, process_opened (feed s more) h) (read_packets_then s more [] h)
    | inr h ↦ elim (Header-cases (read_header s)) [
      | inl (e, p) ↦
          rw
            (process_header s h, process_header (feed s more) h, p, read_header-feed_err s more e p)
      | inr (inl (t, p)) ↦
          let closed : t.has_recv_header ≡ false = read_header_wait s t p ∙ h in
          rw (process_header s h, p)
            (process_header (feed s more) h
              ∙ rw (← read_header-feed-none s more t p) (sym (process_header (feed t more) closed))
              ∙ sym (and_then_nil (process_buffer (feed t more))))
      | inr (inr (t, out, p)) ↦
          rw
            (
              process_header s h,
              process_header (feed s more) h,
              p,
              read_header-feed-some s more t out p,
            )
            (read_packets_then t more out (read_header_opens s t out p))
    ]
  ]

  -- `server_post_decrypt` on two deliveries, one after the other, is `server_post_decrypt` on both
  -- at once: the same error, or the same state and the payload joined. It holds in every state,
  -- before, in and after the auth header, and wherever the stream is cut.
  pub server_post_decrypt-append :
      (s : AuthAes128Md5) (first second : List ℕ)
      → server_post_decrypt s (first ++ second)
        ≡ and_then (server_post_decrypt s first) (λ s'. server_post_decrypt s' second)
  unfolding server_post_decrypt
  server_post_decrypt-append s first second =
      rw (← append_assoc s.recv_buf first second) (process_buffer-feed (feed s first) second)
