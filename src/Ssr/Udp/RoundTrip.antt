-- ===== src/Ssr/Udp/RoundTrip.antt =====
-- src/ssr: which datagrams the server accepts, and what it reads from them.
use sspanel_ssr_rust_backend.Base.{
  ℕ, ◌+◌, ◌-◌, ◌^◌, ◌≤◌, ◌<◌, ◌≡◌, refl, sym, ◌∙◌, Option, List, [], ◌++◌, dec_lt, arith, length,
  length-append, slice, slice_middle, length-slice, slice_join, slice_all, take-append_exact,
  drop-append_exact, ltb, if◌then◌else◌, All, bytes_eq_self, bytes_eq_iff, ok, append_assoc,
  append-nil,
}
use sspanel_ssr_rust_backend.Base.Bytes.{
  IsByte, u32_le_bytes, from_u32_le, from_u32_le-u32_le_bytes,
}
use sspanel_ssr_rust_backend.Base.Int.{ℤ}
use sspanel_ssr_rust_backend.Base.Table.{Table}
use sspanel_ssr_rust_backend.Ssr.Crypto.{Crypto, CryptoSizes}
use sspanel_ssr_rust_backend.Ssr.Kdf.{hmac_md5_prefix}
use sspanel_ssr_rust_backend.Ssr.Kdf.Sizes.{length-hmac_md5_prefix}
use sspanel_ssr_rust_backend.Ssr.Cipher.{CipherKind, StreamCipher, iv_len, new_stream, process}
use sspanel_ssr_rust_backend.Ssr.Cipher.Laws.{new_stream-IsStream, process_twice}
use sspanel_ssr_rust_backend.Ssr.Protocol.{udp_select_user, udp_server_post_decrypt}
use sspanel_ssr_rust_backend.Ssr.Udp.{udp_decrypt_packet}

if_long {ℓ} : {A : Type ℓ} (n m : ℕ) (x y : A) → ¬ (n < m) → (if ltb n m then x else y) ≡ y
if_long n m x y h = ground arith

length-u32_le_bytes : (n : ℕ) → length (u32_le_bytes n) ≡ 4
unfolding u32_le_bytes
length-u32_le_bytes n = refl

-- The client's body of a datagram, before encryption: `plain || uid || HMAC(key, plain || uid)[..4]`.
unfoldable pub udp_body : ⦃c : Crypto⦄ → List ℕ → ℕ → List ℕ → List ℕ
udp_body key uid plain =
    let signed = plain ++ u32_le_bytes uid in signed ++ hmac_md5_prefix key signed 4

module _ ⦃c : Crypto⦄ (sizes : CryptoSizes) where
  -- A body signed with the key that the uid selects is accepted, with the plaintext and the user.
  pub udp_server_post_decrypt-udp_body :
      (master_key : List ℕ) (users : Table ℕ (List ℕ)) (is_multi_user : ℤ) (recv_iv : List ℕ)
      (uid : ℕ) (plain key : List ℕ) (user_id : Option ℕ)
      → uid < 2 ^ 32
      → udp_select_user master_key users is_multi_user recv_iv uid ≡ (key, user_id)
      → udp_server_post_decrypt master_key users is_multi_user recv_iv (udp_body key uid plain)
        ≡ ok (plain, user_id)
  unfolding udp_server_post_decrypt udp_body
  udp_server_post_decrypt-udp_body master_key users is_multi_user recv_iv uid plain key user_id h
        sel =
      let signed = plain ++ u32_le_bytes uid in
      let tag = hmac_md5_prefix key signed 4 in
      let n = length plain in
      let l4 = length-u32_le_bytes uid in
      let lt = length-hmac_md5_prefix sizes key signed 4 (omega arith) in
      let ls = length-append plain (u32_le_bytes uid) in
      let total = length-append signed tag in
      let uid_at : slice (signed ++ tag) n (n + 4) ≡ u32_le_bytes uid =
        rw (append_assoc plain (u32_le_bytes uid) tag)
          (slice_middle plain (u32_le_bytes uid) tag n (n + 4) refl (omega arith)) in
      let front : slice (signed ++ tag) 0 n ≡ plain =
        rw (append_assoc plain (u32_le_bytes uid) tag)
          (slice_middle [] plain (u32_le_bytes uid ++ tag) 0 n refl (omega arith)) in
      let body : slice (signed ++ tag) 0 (n + 4) ≡ signed =
        slice_middle [] signed tag 0 (n + 4) refl (omega arith) in
      let tail : slice (signed ++ tag) (n + 4) (n + 8) ≡ tag =
        rw append-nil at (slice_middle signed tag [] (n + 4) (n + 8) (omega arith) (omega arith)) in
      ground (
        arith,
        total,
        ls,
        lt,
        l4,
        uid_at,
        front,
        body,
        tail,
        bytes_eq_self tag,
        from_u32_le-u32_le_bytes uid h,
      )

  -- Whatever body is accepted ends in a uid and a tag, the tag is the MAC of all before it under the
  -- key that this uid selects, and the user reported is the one that the uid selects.
  pub udp_server_post_decrypt_sound :
      (master_key : List ℕ) (users : Table ℕ (List ℕ)) (is_multi_user : ℤ)
      (recv_iv buf plain : List ℕ) (user_id : Option ℕ)
      → udp_server_post_decrypt master_key users is_multi_user recv_iv buf ≡ ok (plain, user_id)
      → (uid : List ℕ) × (length uid ≡ 4)
        × (user_id ≡ (udp_select_user master_key users is_multi_user recv_iv (from_u32_le uid)).1)
        × (buf
            ≡ (plain ++ uid)
              ++ hmac_md5_prefix
                  (udp_select_user master_key users is_multi_user recv_iv (from_u32_le uid)).0
                  (plain ++ uid)
                  4)
  unfolding udp_server_post_decrypt
  udp_server_post_decrypt_sound master_key users is_multi_user recv_iv buf plain user_id e =
      let n = length buf in
      let uid = slice buf (n - 8) (n - 4) in
      let key = (udp_select_user master_key users is_multi_user recv_iv (from_u32_le uid)).0 in
      let long : 8 ≤ n = ground arith in
      let signed = slice_join (n - 8) (n - 4) buf (omega arith) in
      let whole = slice_join (n - 4) n buf (omega arith) ∙ slice_all buf in
      let tagged : hmac_md5_prefix key (slice buf 0 (n - 4)) 4 ≡ slice buf (n - 4) n =
        (bytes_eq_iff _ _).0 (ground arith) in
      let front : plain ≡ slice buf 0 (n - 8) = ground arith in
      (
        uid,
        length-slice buf (n - 8) (n - 4) (omega arith) (omega arith) ∙ omega arith,
        ground arith,
        rw (front, signed, tagged) (sym whole),
      )

  -- A whole datagram, as a client sends it: a fresh IV, and the signed body encrypted under the
  -- carrier's key. The server reads the plaintext and finds the user, with either cipher.
  pub udp_decrypt_packet_accepts :
      (cipher : CipherKind) (master_key : List ℕ) (users : Table ℕ (List ℕ)) (is_multi_user : ℤ)
      (iv : List ℕ) (uid : ℕ) (plain key : List ℕ) (user_id : Option ℕ) (stream : StreamCipher)
      → uid < 2 ^ 32
      → length iv ≡ iv_len cipher
      → new_stream cipher master_key iv ≡ ok stream
      → udp_select_user master_key users is_multi_user iv uid ≡ (key, user_id)
      → All IsByte (udp_body key uid plain)
      → udp_decrypt_packet master_key users is_multi_user
          (iv ++ (process stream (udp_body key uid plain)).1)
          cipher
        ≡ ok (plain, user_id)
  unfolding udp_decrypt_packet
  udp_decrypt_packet_accepts cipher master_key users is_multi_user iv uid plain key user_id stream h
        l made sel bytes =
      let body = udp_body key uid plain in
      let sent = (process stream body).1 in
      let back =
        process_twice sizes stream body (new_stream-IsStream cipher master_key iv stream made)
          bytes in
      let read =
        udp_server_post_decrypt-udp_body master_key users is_multi_user iv uid plain key user_id h
          sel in
      let iv_at = take-append_exact (iv_len cipher) iv sent l in
      let rest_at = drop-append_exact (iv_len cipher) iv sent l in
      elim (dec_lt (length (iv ++ sent)) (iv_len cipher)) [
        | yes short ↦ absurd (omega (arith, length-append iv sent))
        | no long ↦ rw (if_long _ _ _ _ long, iv_at, rest_at, made, back) read
      ]
