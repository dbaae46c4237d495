-- ===== src/Ssr/Session/Buffers.antt =====
-- src/ssr/mod.rs and src/ssr/protocol.rs: how much a connection buffers.
use sspanel_ssr_rust_backend.Base.{
  ℕ, zero, suc, ◌<◌, ◌≡◌, refl, ◌∙◌, sym, Option, none, some, List, [], ◌∷◌, ◌++◌, length, take,
  drop, slice, arith, Result, Error, ok, err, >>=-eq-ok, Result-cases, Option-cases, Bool-cases,
  inl, inr, dec_lt,
}
use mathlib.Core.Path.{subst}
use sspanel_ssr_rust_backend.Base.Bytes.{from_u32_le}
use sspanel_ssr_rust_backend.Ssr.Crypto.{Crypto}
use sspanel_ssr_rust_backend.Ssr.Cipher.{
  CipherKind, rc4_md5, chacha20_ietf, iv_len, new_stream, process,
}
use sspanel_ssr_rust_backend.Ssr.Protocol.{
  AuthAes128Md5, Step, wait, fail, packet, max_packet, u16_le, read_packet, packets, read_packets,
  read_header, open_auth, close_auth, select_user, process_buffer, server_post_decrypt, feed,
  next_id, aes_decrypt_block,
}
use sspanel_ssr_rust_backend.Ssr.Protocol.Packets.{
  Step-cases, packets_wait, packets_fail, packets_packet,
}
use sspanel_ssr_rust_backend.Ssr.Protocol.Header.{close_auth_some}
use sspanel_ssr_rust_backend.Ssr.Protocol.Chunks.{Header-cases, process_opened, process_header}
use sspanel_ssr_rust_backend.Ssr.Session.{ServerSession, decode, start, decrypt}
use sspanel_ssr_rust_backend.Ssr.Protocol
use sspanel_ssr_rust_backend.Ssr.Session.Chunks.{
  decode_cons, decode_unset, decrypt_started, decrypt_fresh, started, start_waits, start_goes,
}

module _ ⦃c : Crypto⦄ where
  read_packet_waits :
      (key : List ℕ) (id : ℕ) (buf : List ℕ)
      → read_packet key id buf ≡ wait
      → length buf < max_packet
  unfolding read_packet
  read_packet_waits key id buf q = ground arith

  packets_small :
      (fuel : ℕ) (key : List ℕ) (id : ℕ) (buf out : List ℕ) (id' : ℕ) (rest out' : List ℕ)
      → packets fuel key id buf out ≡ ok (id', rest, out')
      → length rest < max_packet
  packets_small zero key id buf out id' rest out' e = unfold packets in cc
  packets_small (suc fuel) key id buf out id' rest out' e =
      elim (Step-cases (read_packet key id buf)) [
        | inl (inl w) ↦
            ground (arith, packets_wait key fuel id buf out w, read_packet_waits key id buf w)
        | inl (inr (x, w)) ↦ cc (packets_fail key fuel id buf out x w)
        | inr (payload, next, w) ↦
            packets_small fuel key (next_id id) next (out ++ payload) id' rest out'
              (sym (packets_packet key fuel id buf out payload next w) ∙ e)
      ]

  read_packets_small :
      (s s' : AuthAes128Md5) (out out' : List ℕ)
      → read_packets s out ≡ ok (s', out')
      → length s'.recv_buf < max_packet
  unfolding read_packets
  read_packets_small s s' out out' e =
      let ((id, rest, o), q, r) =
        >>=-eq-ok (packets (suc (length s.recv_buf)) s.user_key s.recv_id s.recv_buf out)
          (λ (recv_id, rest, out'). ok (record s { recv_id = recv_id; recv_buf = rest }, out')) e in
      ground (
        arith,
        packets_small (suc (length s.recv_buf)) s.user_key s.recv_id s.recv_buf out id rest o q,
      )

  open_auth_small :
      (s t : AuthAes128Md5) → open_auth s ≡ ok (t, none) → length t.recv_buf < max_packet
  unfolding open_auth
  open_auth_small s t e =
      let head = aes_decrypt_block s (slice s.recv_buf 11 27) in
      ground (arith, close_auth_some s t (u16_le (slice head 12 14)) (u16_le (slice head 14 16)))

  read_header_small :
      (s t : AuthAes128Md5) → read_header s ≡ ok (t, none) → length t.recv_buf < max_packet
  unfolding read_header
  read_header_small s t e =
      ground (arith, open_auth_small (select_user s (from_u32_le (slice s.recv_buf 7 11))) t)

  process_buffer_small :
      (s s' : AuthAes128Md5) (out : List ℕ)
      → process_buffer s ≡ ok (s', out)
      → length s'.recv_buf < max_packet
  process_buffer_small s s' out e = elim (Bool-cases s.has_recv_header) [
    | inl h ↦ read_packets_small s s' [] out (sym (process_opened s h) ∙ e)
    | inr h ↦ elim (Header-cases (read_header s)) [
      | inl (f, p) ↦ ground (arith, process_header s h)
      | inr (inl (t, p)) ↦ ground (arith, process_header s h, read_header_small s t p)
      | inr (inr (t, o, p)) ↦ read_packets_small t s' o out (sym (process_header s h ∙ (rw p)) ∙ e)
    ]
  ]

  post_small :
      (s s' : AuthAes128Md5) (incoming out : List ℕ)
      → server_post_decrypt s incoming ≡ ok (s', out)
      → length s'.recv_buf < max_packet
  unfolding server_post_decrypt
  post_small s s' incoming out e = process_buffer_small (feed s incoming) s' out e

-- The bytes that the protocol layer holds back.
unfoldable pub buffered : Option AuthAes128Md5 → ℕ
buffered none = 0
buffered (some p) = length p.recv_buf

-- Less than an IV, and less than a packet.
pub record IsSmall (s : ServerSession) : Type 0 where
  pub iv : length s.recv_iv_buf < iv_len s.cipher
  pub held : buffered s.protocol < max_packet

module _ ⦃c : Crypto⦄ where
  same_session :
      (s s' : ServerSession) (a b : List ℕ)
      → ◌≡◌ {A = Result (ServerSession × List ℕ)} (ok (s, a)) (ok (s', b))
      → s ≡ s'
  same_session s s' a b e = cc

  failed : {A : Type 0} {a : A} (f : Error) → err f ≡ ok a → ⊥
  failed f e = cc

  decode-none :
      (s : ServerSession) (x : ℕ) (xs : List ℕ)
      → s.decryptor ≡ none
      → decode s (x ∷ xs) ≡ err Error.panicked
  decode-none s x xs d = unfold decode in rw d

  decode-IsSmall :
      (s s' : ServerSession) (bytes out : List ℕ)
      → IsSmall s
      → decode s bytes ≡ ok (s', out)
      → IsSmall s'
  decode-IsSmall s s' [] out h e =
      let nothing : decode s [] ≡ ok (s, []) = unfold decode in refl in
      subst IsSmall (same_session s s' [] out (sym nothing ∙ e)) h
  decode-IsSmall s s' (x ∷ xs) out h e = elim (Option-cases s.decryptor) [
    | inl d ↦ absurd (failed Error.panicked (sym (decode-none s x xs d) ∙ e))
    | inr (stream, d) ↦ elim (Option-cases s.protocol) [
      | inl p ↦ absurd (failed Error.panicked (sym (decode_unset s x xs p) ∙ e))
      | inr (protocol, p) ↦
          elim (Result-cases (server_post_decrypt protocol (process stream (x ∷ xs)).1)) [
            | inl (f, q) ↦
                absurd (failed f (sym (decode_cons s stream protocol d p x xs ∙ (rw q)) ∙ e))
            | inr ((protocol', o), q) ↦
                let now : ServerSession = record s {
                  decryptor = some (process stream (x ∷ xs)).0;
                  protocol = some protocol';
                } in
                subst IsSmall
                  (same_session now s' o out
                    (sym (decode_cons s stream protocol d p x xs ∙ (rw q)) ∙ e))
                  (record {
                    iv = h.iv;
                    held = unfold buffered in post_small protocol protocol' _ o q;
                  })
          ]
    ]
  ]

  iv_positive : (cipher : CipherKind) → 0 < iv_len cipher
  unfolding iv_len
  iv_positive rc4_md5 = omega arith
  iv_positive chacha20_ietf = omega arith

  start-IsSmall :
      (s s' : ServerSession) (out : List ℕ)
      → buffered s.protocol < max_packet
      → start s ≡ ok (s', out)
      → IsSmall s'
  start-IsSmall s s' out h e = elim (dec_lt (length s.recv_iv_buf) (iv_len s.cipher)) [
    | yes short ↦
        subst IsSmall (same_session s s' [] out (sym (start_waits s short) ∙ e))
          (record { iv = short; held = h })
    | no full ↦
        let (stream, q, r) =
          >>=-eq-ok (new_stream s.cipher s.master_key (take (iv_len s.cipher) s.recv_iv_buf))
            (λ stream. decode (started s stream) (drop (iv_len s.cipher) s.recv_iv_buf))
            (sym (start_goes s (omega arith)) ∙ e) in
        decode-IsSmall (started s stream) s' (drop (iv_len s.cipher) s.recv_iv_buf) out
          (record { iv = iv_positive s.cipher; held = unfold buffered Protocol.new in omega arith })
          r
  ]

  -- A connection holds back less than an IV and less than 8192 bytes of packets, whatever it
  -- receives and in whatever pieces: each `decrypt` that succeeds leaves it so, before the IV, in
  -- the auth header and between packets.
  pub decrypt-IsSmall :
      (s s' : ServerSession) (raw out : List ℕ)
      → IsSmall s
      → decrypt s raw ≡ ok (s', out)
      → IsSmall s'
  decrypt-IsSmall s s' raw out h e = elim (Option-cases s.decryptor) [
    | inr (stream, d) ↦ decode-IsSmall s s' raw out h (sym (decrypt_started s stream raw d) ∙ e)
    | inl d ↦
        start-IsSmall (record s { recv_iv_buf = s.recv_iv_buf ++ raw }) s' out h.held
          (sym (decrypt_fresh s raw d) ∙ e)
  ]
