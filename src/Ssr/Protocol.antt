-- ===== src/Ssr/Protocol.antt =====
-- src/ssr/protocol.rs: the `auth_aes128_md5` layer of the server.
pub mod Header
pub mod Packets
pub mod Chunks
pub mod Total
pub mod Frame
pub mod RoundTrip
use sspanel_ssr_rust_backend.Base.{
  ℕ, zero, suc, ◌+◌, ◌-◌, ◌*◌, ◌%◌, ◌^◌, Bool, true, false, ◌&&◌, ◌||◌, not, Option, none, some,
  List, [], ◌∷◌, ◌++◌, length, take, drop, slice, get_or, ltb, leb, ◌==◌, if◌then◌else◌, bytes_eq,
  Result, Error, ok, err, guard, ◌>>=◌, ◌>>◌, nat_eq,
}
use sspanel_ssr_rust_backend.Base.Bytes.{u16_le_bytes, u32_le_bytes, from_u32_le}
use sspanel_ssr_rust_backend.Base.Int.{ℤ, pos, ℤ_beq}
use sspanel_ssr_rust_backend.Base.Table
use sspanel_ssr_rust_backend.Base.Table.{Table}
use sspanel_ssr_rust_backend.Ssr.Crypto.{Crypto}
use sspanel_ssr_rust_backend.Ssr.Kdf.{evp_bytes_to_key, hmac_md5_prefix, md5}

-- b"auth_aes128_md5"
abbrev pub salt : List ℕ
salt =
    b'a' ∷ b'u' ∷ b't' ∷ b'h' ∷ b'_' ∷ b'a' ∷ b'e' ∷ b's' ∷ b'1' ∷ b'2' ∷ b'8' ∷ b'_' ∷ b'm' ∷ b'd'
    ∷ b'5' ∷ []

abbrev pub unit_len : ℕ
unit_len = 8100

abbrev pub max_packet : ℕ
max_packet = 8192

pub record AuthAes128Md5 : Type 0 where
  pub master_key : List ℕ
  pub user_key : List ℕ
  pub users : Table ℕ (List ℕ)
  pub is_multi_user : ℤ
  pub user_id : Option ℕ
  pub aes_key : List ℕ
  pub recv_iv : List ℕ
  pub recv_buf : List ℕ
  pub has_recv_header : Bool
  pub recv_id : ℕ
  pub pack_id : ℕ

-- The first two bytes of a slice, little end first.
unfoldable pub u16_le : List ℕ → ℕ
u16_le b = get_or b 0 0 + get_or b 1 0 * 256

-- `u32::wrapping_add(1)`
abbrev pub next_id : ℕ → ℕ
next_id n = (n + 1) % 2 ^ 32

-- What one look at the receive buffer finds.
pub data Step : Type 0 where
  wait : Step
  fail : Error → Step
  packet : List ℕ → List ℕ → Step

-- The offset of the payload behind the random padding.
unfoldable pub data_pos : List ℕ → ℕ
data_pos buf =
    let pos_marker = get_or buf 4 0 in
    if ltb pos_marker 255 then pos_marker + 4 else u16_le (slice buf 5 7) + 4

module _ ⦃c : Crypto⦄ where
  unfoldable pub aes_seed_key : List ℕ → List ℕ
  aes_seed_key user_key = evp_bytes_to_key (c.base64 user_key ++ salt) 16

  unfoldable pub new : List ℕ → List ℕ → Table ℕ (List ℕ) → ℤ → AuthAes128Md5
  new master_key recv_iv users is_multi_user = record {
    master_key = master_key;
    user_key = master_key;
    users = users;
    is_multi_user = is_multi_user;
    user_id = none;
    aes_key = aes_seed_key master_key;
    recv_iv = recv_iv;
    recv_buf = [];
    has_recv_header = false;
    recv_id = 1;
    pack_id = 1;
  }

  unfoldable pub rebuild_aes_key : AuthAes128Md5 → AuthAes128Md5
  rebuild_aes_key s = record s { aes_key = aes_seed_key s.user_key }

  unfoldable pub aes_decrypt_block : AuthAes128Md5 → List ℕ → List ℕ
  aes_decrypt_block s block = c.aes128_decrypt s.aes_key block

  -- The key and the user id that the uid of the auth header selects.
  unfoldable pub select_user : AuthAes128Md5 → ℕ → AuthAes128Md5
  unfolding rebuild_aes_key
  select_user s uid = elim (Table.get uid s.users) [
    | some key ↦ rebuild_aes_key (record s { user_id = some uid; user_key = key })
    | none ↦
        if ℤ_beq s.is_multi_user (pos 2)
        then rebuild_aes_key (record s { user_id = none; user_key = s.recv_iv })
        else s
  ]

  abbrev pub header_mac_key : AuthAes128Md5 → List ℕ
  header_mac_key s = s.recv_iv ++ s.master_key

  -- From the checksum of the auth packet on: its whole length is in the buffer.
  unfoldable pub close_auth : AuthAes128Md5 → ℕ → ℕ → Result (AuthAes128Md5 × Option (List ℕ))
  close_auth s len rnd_len = do
    guard
        (bytes_eq (hmac_md5_prefix s.user_key (slice s.recv_buf 0 (len - 4)) 4)
          (slice s.recv_buf (len - 4) len))
        Error.auth_checksum_mismatch
    guard (leb (31 + rnd_len) (len - 4)) Error.rnd_len_overrun
    ok (
      record s { recv_buf = drop len s.recv_buf; has_recv_header = true },
      some (slice s.recv_buf (31 + rnd_len) (len - 4)),
    )

  -- From the decryption of the header block on.
  unfoldable pub open_auth : AuthAes128Md5 → Result (AuthAes128Md5 × Option (List ℕ))
  open_auth s =
      let head = aes_decrypt_block s (slice s.recv_buf 11 27) in
      let len = u16_le (slice head 12 14) in
      let closed = close_auth s len (u16_le (slice head 14 16)) in
      if leb 31 len && ltb len max_packet
      then (if ltb (length s.recv_buf) len then ok (s, none) else closed)
      else err Error.bad_auth_length

  -- The block under `if !self.has_recv_header`; no payload means that more bytes are needed.
  unfoldable pub read_header : AuthAes128Md5 → Result (AuthAes128Md5 × Option (List ℕ))
  read_header s = do
    guard
        (ltb (length s.recv_buf) 7
          || bytes_eq (hmac_md5_prefix (header_mac_key s) (slice s.recv_buf 0 1) 6)
              (slice s.recv_buf 1 7))
        Error.check_head_mismatch
    let opened = open_auth (select_user s (from_u32_le (slice s.recv_buf 7 11)))
    if ltb (length s.recv_buf) 31
        then ok (s, none)
        else (guard
              (bytes_eq (hmac_md5_prefix (header_mac_key s) (slice s.recv_buf 7 27) 4)
                (slice s.recv_buf 27 31))
              Error.auth_hmac_mismatch
            >> opened)

  -- One round of the `while self.recv_buf.len() > 4` loop.
  unfoldable pub read_packet : List ℕ → ℕ → List ℕ → Step
  read_packet user_key recv_id buf =
      let mac_key = user_key ++ u32_le_bytes recv_id in
      let len = u16_le (slice buf 0 2) in
      if leb (length buf) 4
      then wait
      else if not (bytes_eq (hmac_md5_prefix mac_key (slice buf 0 2) 2) (slice buf 2 4))
      then fail Error.data_length_mismatch
      else if not (leb 7 len && ltb len max_packet)
      then fail Error.bad_data_length
      else if ltb (length buf) len
      then wait
      else if not
          (bytes_eq (hmac_md5_prefix mac_key (slice buf 0 (len - 4)) 4) (slice buf (len - 4) len))
      then fail Error.data_checksum_mismatch
      else if ltb (len - 4) (data_pos buf)
      then fail Error.data_padding_overrun
      else packet (slice buf (data_pos buf) (len - 4)) (drop len buf)

  -- The loop, on fuel: the packet id, the bytes that stay, and the payload so far.
  unfoldable pub packets : ℕ → List ℕ → ℕ → List ℕ → List ℕ → Result (ℕ × List ℕ × List ℕ)
  packets zero user_key recv_id buf out = err Error.stuck
  packets (suc fuel) user_key recv_id buf out = elim (read_packet user_key recv_id buf) [
    | wait ↦ ok (recv_id, buf, out)
    | fail e ↦ err e
    | packet payload rest ↦ packets fuel user_key (next_id recv_id) rest (out ++ payload)
  ]

  -- Each packet takes 7 bytes at least, so the length of the buffer bounds the rounds.
  unfoldable pub read_packets : AuthAes128Md5 → List ℕ → Result (AuthAes128Md5 × List ℕ)
  read_packets s out = do
    (recv_id, rest, out') ← packets (suc (length s.recv_buf)) s.user_key s.recv_id s.recv_buf out
    ok (record s { recv_id = recv_id; recv_buf = rest }, out')

  -- `self.recv_buf.extend_from_slice(incoming)`
  abbrev pub feed : AuthAes128Md5 → List ℕ → AuthAes128Md5
  feed s incoming = record s { recv_buf = s.recv_buf ++ incoming }

  -- The two parts of `server_post_decrypt`, once the bytes are buffered.
  unfoldable pub process_buffer : AuthAes128Md5 → Result (AuthAes128Md5 × List ℕ)
  process_buffer s =
      if s.has_recv_header
      then read_packets s []
      else (read_header s >>= λ r. elim r.1 [
        | none ↦ ok (r.0, [])
        | some out ↦ read_packets r.0 out
      ])

  unfoldable pub server_post_decrypt : AuthAes128Md5 → List ℕ → Result (AuthAes128Md5 × List ℕ)
  server_post_decrypt s incoming = process_buffer (feed s incoming)

  unfoldable pub pack_data : AuthAes128Md5 → List ℕ → AuthAes128Md5 × List ℕ
  pack_data s buf =
      let payload = 0x01 ∷ buf in
      let data_len = (length payload + 8) % 2 ^ 16 in
      let mac_key = s.user_key ++ u32_le_bytes s.pack_id in
      let len_bytes = u16_le_bytes data_len in
      let body = len_bytes ++ hmac_md5_prefix mac_key len_bytes 2 ++ payload in
      (record s { pack_id = next_id s.pack_id }, body ++ hmac_md5_prefix mac_key body 4)

  -- The `while rest.len() > UNIT_LEN` loop and the last packet, on fuel.
  unfoldable pub pre_encrypt_loop : ℕ → AuthAes128Md5 → List ℕ → List ℕ → AuthAes128Md5 × List ℕ
  unfolding pack_data
  pre_encrypt_loop zero s rest out = (s, out)
  pre_encrypt_loop (suc fuel) s rest out =
      let (s', unit) = pack_data s (take unit_len rest) in
      let more = pre_encrypt_loop fuel s' (drop unit_len rest) (out ++ unit) in
      let (s'', last) = pack_data s rest in
      if ltb unit_len (length rest) then more else (s'', out ++ last)

  unfoldable pub server_pre_encrypt : AuthAes128Md5 → List ℕ → AuthAes128Md5 × List ℕ
  server_pre_encrypt s plaintext = pre_encrypt_loop (suc (length plaintext)) s plaintext []

  unfoldable pub user_auth_key : List ℕ → List ℕ
  user_auth_key password = md5 password

  -- The key and the id for the uid in the trailer of a datagram.
  unfoldable pub udp_select_user : List ℕ → Table ℕ (List ℕ) → ℤ → List ℕ → ℕ → List ℕ × Option ℕ
  udp_select_user master_key users is_multi_user recv_iv uid = elim (Table.get uid users) [
    | some key ↦ (key, some uid)
    | none ↦ if ℤ_beq is_multi_user (pos 0) then (master_key, none) else (recv_iv, none)
  ]

  unfoldable pub udp_server_post_decrypt :
      List ℕ → Table ℕ (List ℕ) → ℤ → List ℕ → List ℕ → Result (List ℕ × Option ℕ)
  udp_server_post_decrypt master_key users is_multi_user recv_iv buf =
      let n = length buf in
      let uid = from_u32_le (slice buf (n - 8) (n - 4)) in
      let (user_key, user_id) = udp_select_user master_key users is_multi_user recv_iv uid in
      if ltb n 8
      then err Error.udp_too_short
      else (guard
            (bytes_eq (hmac_md5_prefix user_key (slice buf 0 (n - 4)) 4) (slice buf (n - 4) n))
            Error.udp_hmac_mismatch
          >> ok (slice buf 0 (n - 8), user_id))

  unfoldable pub udp_server_pre_encrypt : List ℕ → List ℕ → List ℕ
  udp_server_pre_encrypt proto_key buf = buf ++ hmac_md5_prefix proto_key buf 4
