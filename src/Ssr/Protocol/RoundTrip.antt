-- ===== src/Ssr/Protocol/RoundTrip.antt =====
-- src/ssr/protocol.rs: `server_pre_encrypt` against the `server_post_decrypt` of a peer.
use sspanel_ssr_rust_backend.Base.{
  ℕ, zero, suc, ◌+◌, ◌%◌, ◌^◌, ◌≤◌, ◌<◌, ◌≡◌, refl, ◌∙◌, true, List, [], ◌∷◌, ◌++◌, arith, length,
  length-append, length-drop, length-take, ap, take, drop, take-append-drop, bytes_eq_self, ok,
  append_assoc, append-nil, dec_le,
}
use sspanel_ssr_rust_backend.Base.Bytes.{u16_le_bytes, u32_le_bytes}
use sspanel_ssr_rust_backend.Ssr.Crypto.{Crypto, CryptoSizes}
use sspanel_ssr_rust_backend.Ssr.Kdf.{hmac_md5_prefix}
use sspanel_ssr_rust_backend.Ssr.Kdf.Sizes.{length-hmac_md5_prefix}
use sspanel_ssr_rust_backend.Ssr.Protocol.{
  AuthAes128Md5, packet, next_id, data_pos, read_packet, packets, read_packets, pack_data,
  pre_encrypt_loop, server_pre_encrypt, server_post_decrypt, unit_len, feed,
}
use sspanel_ssr_rust_backend.Ssr.Protocol.Frame
use sspanel_ssr_rust_backend.Ssr.Protocol.Frame.{frame, frame_body, u16_le-u16_le_bytes}
use sspanel_ssr_rust_backend.Ssr.Protocol.Packets.{packets_packet, packets_fuel}
use sspanel_ssr_rust_backend.Ssr.Protocol.Chunks.{process_opened}

length-u16_le_bytes : (n : ℕ) → length (u16_le_bytes n) ≡ 2
unfolding u16_le_bytes
length-u16_le_bytes n = refl

module _ ⦃c : Crypto⦄ (sizes : CryptoSizes) where
  module _ (s : AuthAes128Md5) (buf rest : List ℕ) (h : length buf ≤ unit_len) where
    -- A reader that holds the key and the id of the writer finds the packet, whatever follows it.
    pub read_packet-pack_data :
        read_packet s.user_key s.pack_id ((pack_data s buf).1 ++ rest) ≡ packet buf rest
    unfolding read_packet pack_data data_pos
    read_packet-pack_data =
        let mac_key = s.user_key ++ u32_le_bytes s.pack_id in
        let head = u16_le_bytes ((length (0x01 ∷ buf) + 8) % 2 ^ 16) in
        let mac = hmac_md5_prefix mac_key head 2 in
        let body = frame_body head mac 0x01 buf [] [] in
        let tail = hmac_md5_prefix mac_key body 4 in
        let l = length-u16_le_bytes ((length (0x01 ∷ buf) + 8) % 2 ^ 16) in
        let m = length-hmac_md5_prefix sizes mac_key head 2 (omega arith) in
        let t = length-hmac_md5_prefix sizes mac_key body 4 (omega arith) in
        ground (
          arith,
          l,
          m,
          t,
          u16_le-u16_le_bytes ((length (0x01 ∷ buf) + 8) % 2 ^ 16),
          Frame.length-frame head mac 0x01 buf tail rest l m t,
          Frame.frame_head head mac 0x01 buf tail rest l m t,
          Frame.frame_mac head mac 0x01 buf tail rest l m t,
          Frame.frame_checked head mac 0x01 buf tail rest l m t,
          Frame.frame_tail head mac 0x01 buf tail rest l m t,
          Frame.frame_payload head mac 0x01 buf tail rest l m t,
          Frame.frame_rest head mac 0x01 buf tail rest l m t,
          Frame.frame_marker head mac 0x01 buf tail rest l m t,
          bytes_eq_self mac,
          bytes_eq_self tail,
        )

  length-pack_data :
      (s : AuthAes128Md5) (buf : List ℕ) → length (pack_data s buf).1 ≡ length buf + 9
  unfolding pack_data
  length-pack_data s buf =
      let mac_key = s.user_key ++ u32_le_bytes s.pack_id in
      let n = (length (0x01 ∷ buf) + 8) % 2 ^ 16 in
      let head = u16_le_bytes n in
      let mac = hmac_md5_prefix mac_key head 2 in
      let body = frame_body head mac 0x01 buf [] [] in
      omega (
        arith,
        length-append body (hmac_md5_prefix mac_key body 4),
        length-append (head ++ mac) (0x01 ∷ buf),
        length-append head mac,
        length-u16_le_bytes n,
        length-hmac_md5_prefix sizes mac_key head 2 (omega arith),
        length-hmac_md5_prefix sizes mac_key body 4 (omega arith),
      )

  pack_data_keeps :
      (s : AuthAes128Md5) (buf : List ℕ)
      → ((pack_data s buf).0.user_key ≡ s.user_key)
        × ((pack_data s buf).0.pack_id ≡ next_id s.pack_id)
  unfolding pack_data
  pack_data_keeps s buf = (refl, refl)

  -- The two exits of a round of the loop.
  pre_encrypt_loop_last :
      (fuel : ℕ) (s : AuthAes128Md5) (rest out : List ℕ)
      → length rest ≤ unit_len
      → pre_encrypt_loop (suc fuel) s rest out ≡ ((pack_data s rest).0, out ++ (pack_data s rest).1)
  unfolding pre_encrypt_loop
  pre_encrypt_loop_last fuel s rest out h = ground arith

  pre_encrypt_loop_more :
      (fuel : ℕ) (s : AuthAes128Md5) (rest out : List ℕ)
      → unit_len < length rest
      → pre_encrypt_loop (suc fuel) s rest out
        ≡ pre_encrypt_loop fuel
            (pack_data s (take unit_len rest)).0
            (drop unit_len rest)
            (out ++ (pack_data s (take unit_len rest)).1)
  unfolding pre_encrypt_loop
  pre_encrypt_loop_more fuel s rest out h = ground arith

  pre_encrypt_loop_out :
      (fuel : ℕ) (s : AuthAes128Md5) (rest out : List ℕ)
      → pre_encrypt_loop fuel s rest out
        ≡ ((pre_encrypt_loop fuel s rest []).0, out ++ (pre_encrypt_loop fuel s rest []).1)
  pre_encrypt_loop_out zero s rest out = unfold pre_encrypt_loop in rw append-nil
  pre_encrypt_loop_out (suc fuel) s rest out = elim (dec_le (length rest) unit_len) [
    | yes h ↦ rw (pre_encrypt_loop_last fuel s rest out h, pre_encrypt_loop_last fuel s rest [] h)
    | no h ↦
        let s' = (pack_data s (take unit_len rest)).0 in
        let unit = (pack_data s (take unit_len rest)).1 in
        let long : unit_len < length rest = omega arith in
        rw (
          pre_encrypt_loop_more fuel s rest out long,
          pre_encrypt_loop_more fuel s rest [] long,
          pre_encrypt_loop_out fuel s' (drop unit_len rest) (out ++ unit),
          pre_encrypt_loop_out fuel s' (drop unit_len rest) unit,
          append_assoc,
        )
  ]

  packets_nil :
      (g : ℕ) (key : List ℕ) (id : ℕ) (acc : List ℕ)
      → packets (suc g) key id [] acc ≡ ok (id, [], acc)
  unfolding packets read_packet
  packets_nil g key id acc = refl

  -- The reader's loop takes the writer's packets one by one, and ends with an empty buffer.
  packets-pre_encrypt_loop :
      (fuel g : ℕ) (s : AuthAes128Md5) (rest acc : List ℕ)
      → length rest < fuel
      → length (pre_encrypt_loop fuel s rest []).1 < g
      → packets g s.user_key s.pack_id (pre_encrypt_loop fuel s rest []).1 acc
        ≡ ok ((pre_encrypt_loop fuel s rest []).0.pack_id, [], acc ++ rest)
  packets-pre_encrypt_loop zero g s rest acc h k = absurd (omega arith)
  packets-pre_encrypt_loop (suc fuel) zero s rest acc h k = absurd (omega arith)
  packets-pre_encrypt_loop (suc fuel) (suc g) s rest acc h k =
      elim (dec_le (length rest) unit_len) [
        | yes short ↦
            let pkt = (pack_data s rest).1 in
            let found : read_packet s.user_key s.pack_id pkt ≡ packet rest [] =
              rw append-nil at (read_packet-pack_data s rest [] short) in
            rw (pre_encrypt_loop_last fuel s rest [] short, (pack_data_keeps s rest).1)
              (packets_packet s.user_key g s.pack_id pkt acc rest [] found
                ∙ packets_fuel s.user_key g 1 (next_id s.pack_id) [] (acc ++ rest)
                    (omega (
                      arith,
                      ap length (ap (λ r. r.1) (pre_encrypt_loop_last fuel s rest [] short)),
                      length-pack_data s rest,
                    ))
                    (omega arith)
                ∙ packets_nil 0 s.user_key (next_id s.pack_id) (acc ++ rest))
        | no long ↦
            let part = take unit_len rest in
            let s' = (pack_data s part).0 in
            let unit = (pack_data s part).1 in
            let wire = (pre_encrypt_loop fuel s' (drop unit_len rest) []).1 in
            let whole : pre_encrypt_loop (suc fuel) s rest []
                ≡ ((pre_encrypt_loop fuel s' (drop unit_len rest) []).0, unit ++ wire) =
              pre_encrypt_loop_more fuel s rest [] (omega arith)
              ∙ pre_encrypt_loop_out fuel s' (drop unit_len rest) unit in
            let ih =
              packets-pre_encrypt_loop fuel g s' (drop unit_len rest) (acc ++ part)
                (omega (arith, length-drop unit_len rest))
                (omega (
                  arith,
                  ap (λ r. length r.1) whole,
                  length-append unit wire,
                  length-pack_data s part,
                )) in
            rw whole (
              packets_packet s.user_key g s.pack_id (unit ++ wire) acc part wire
                (read_packet-pack_data s part wire (omega (arith, length-take unit_len rest)))
              ∙ rw ((pack_data_keeps s part).0, (pack_data_keeps s part).1) at ih
              ∙ ap
                  (λ out.
                    ok ((pre_encrypt_loop fuel s' (drop unit_len rest) []).0.pack_id, [], out))
                  (append_assoc acc part (drop unit_len rest)
                    ∙ ap (◌++◌ acc) (take-append-drop unit_len rest)))
      ]

  -- A peer past the auth header, with an empty buffer, the same user key and the packet id of the
  -- writer, reads back the whole plaintext that `server_pre_encrypt` cuts into packets, of any
  -- length, leaves nothing in its buffer, and is then at the packet id of the writer again.
  pub server_post_decrypt-server_pre_encrypt :
      (s peer : AuthAes128Md5) (plaintext : List ℕ)
      → peer.has_recv_header ≡ true
      → peer.recv_buf ≡ []
      → peer.user_key ≡ s.user_key
      → peer.recv_id ≡ s.pack_id
      → server_post_decrypt peer (server_pre_encrypt s plaintext).1
        ≡ ok (
          record peer { recv_id = (server_pre_encrypt s plaintext).0.pack_id; recv_buf = [] },
          plaintext,
        )
  unfolding server_post_decrypt server_pre_encrypt
  server_post_decrypt-server_pre_encrypt s peer plaintext opened empty key id =
      let fuel = suc (length plaintext) in
      let wire = (pre_encrypt_loop fuel s plaintext []).1 in
      let run =
        packets-pre_encrypt_loop fuel (suc (length wire)) s plaintext [] (omega arith)
          (omega arith) in
      process_opened (feed peer wire) opened ∙ (unfold read_packets in rw (empty, key, id, run))
