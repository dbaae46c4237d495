-- ===== src/Ssr/Protocol/Total.antt =====
-- src/ssr/protocol.rs: the loop over the packets of a buffer ends.
use sspanel_ssr_rust_backend.Base.{
  ℕ, zero, suc, ◌<◌, ◌≢◌, sym, ◌∙◌, List, [], ◌++◌, length, slice, arith, Error, err, Bool-cases,
  inl, inr,
}
use sspanel_ssr_rust_backend.Base.Bytes.{from_u32_le}
use sspanel_ssr_rust_backend.Ssr.Crypto.{Crypto}
use sspanel_ssr_rust_backend.Ssr.Protocol.{
  AuthAes128Md5, fail, read_packet, packets, read_packets, read_header, open_auth, close_auth,
  select_user, process_buffer, server_post_decrypt, feed, next_id, u16_le, aes_decrypt_block,
}
use sspanel_ssr_rust_backend.Ssr.Protocol.Packets.{
  Step-cases, packets_wait, packets_fail, packets_packet, read_packet_takes,
}
use sspanel_ssr_rust_backend.Ssr.Protocol.Chunks.{Header-cases, process_opened, process_header}

module _ ⦃c : Crypto⦄ where
  read_packet_fails :
      (key : List ℕ) (id : ℕ) (buf : List ℕ) → read_packet key id buf ≢ fail Error.stuck
  unfolding read_packet
  read_packet_fails key id buf = λ e. ground arith

  packets_end :
      (fuel : ℕ) (key : List ℕ) (id : ℕ) (buf out : List ℕ)
      → length buf < fuel
      → packets fuel key id buf out ≢ err Error.stuck
  packets_end zero key id buf out h = absurd (omega arith)
  packets_end (suc fuel) key id buf out h = λ e. elim (Step-cases (read_packet key id buf)) [
    | inl (inl w) ↦ cc (packets_wait key fuel id buf out w)
    | inl (inr (x, w)) ↦
        read_packet_fails key id buf (ground (arith, packets_fail key fuel id buf out x w))
    | inr (payload, next, w) ↦
        packets_end fuel key (next_id id) next (out ++ payload)
          (omega (arith, read_packet_takes key id buf payload next w, h))
          (sym (packets_packet key fuel id buf out payload next w) ∙ e)
  ]

  read_packets_end : (s : AuthAes128Md5) (out : List ℕ) → read_packets s out ≢ err Error.stuck
  unfolding read_packets
  read_packets_end s out = λ e.
      let h =
        packets_end (suc (length s.recv_buf)) s.user_key s.recv_id s.recv_buf out (omega arith) in
      ground (arith, h)

  close_auth_end :
      (s : AuthAes128Md5) (len rnd_len : ℕ) → close_auth s len rnd_len ≢ err Error.stuck
  unfolding close_auth
  close_auth_end s len rnd_len = λ e. ground arith

  open_auth_end : (s : AuthAes128Md5) → open_auth s ≢ err Error.stuck
  unfolding open_auth
  open_auth_end s = λ e.
      let head = aes_decrypt_block s (slice s.recv_buf 11 27) in
      ground (arith, close_auth_end s (u16_le (slice head 12 14)) (u16_le (slice head 14 16)))

  read_header_end : (s : AuthAes128Md5) → read_header s ≢ err Error.stuck
  unfolding read_header
  read_header_end s =
      λ e. ground (arith, open_auth_end (select_user s (from_u32_le (slice s.recv_buf 7 11))))

  process_buffer_end : (s : AuthAes128Md5) → process_buffer s ≢ err Error.stuck
  process_buffer_end s = λ e. elim (Bool-cases s.has_recv_header) [
    | inl h ↦ read_packets_end s [] (sym (process_opened s h) ∙ e)
    | inr h ↦ elim (Header-cases (read_header s)) [
      | inl (x, p) ↦ read_header_end s (ground (arith, process_header s h, p))
      | inr (inl (t, p)) ↦ ground (arith, process_header s h, p)
      | inr (inr (t, out, p)) ↦ read_packets_end t out (sym (process_header s h ∙ (rw p)) ∙ e)
    ]
  ]

  -- The loop over packets always ends by itself, in every state and on every input: the bound on its
  -- rounds, one more than the buffer has bytes, is never what stops it.
  pub server_post_decrypt_ends :
      (s : AuthAes128Md5) (incoming : List ℕ) → server_post_decrypt s incoming ≢ err Error.stuck
  unfolding server_post_decrypt
  server_post_decrypt_ends s incoming = process_buffer_end (feed s incoming)
