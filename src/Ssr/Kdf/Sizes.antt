-- ===== src/Ssr/Kdf/Sizes.antt =====
-- src/ssr/kdf.rs: the sizes of keys and tags.
use sspanel_ssr_rust_backend.Base.{
  ℕ, zero, suc, ◌+◌, ◌*◌, ◌≤◌, ◌≡◌, List, [], ◌++◌, length, length-append, length-take, arith,
}
use sspanel_ssr_rust_backend.Ssr.Crypto.{Crypto, CryptoSizes}
use sspanel_ssr_rust_backend.Ssr.Kdf.{evp_loop, evp_bytes_to_key, hmac_md5_prefix}

module _ ⦃c : Crypto⦄ (sizes : CryptoSizes) where
  pub length-hmac_md5_prefix :
      (key bytes : List ℕ) (n : ℕ) → n ≤ 16 → length (hmac_md5_prefix key bytes n) ≡ n
  unfolding hmac_md5_prefix
  length-hmac_md5_prefix key bytes n h =
      omega (arith, length-take n (c.hmac_md5 key bytes), sizes.length-hmac key bytes)

  -- With a round for every 16 bytes that are missing, the loop fills the key.
  length-evp_loop :
      (fuel : ℕ) (password : List ℕ) (key_len : ℕ) (prev key : List ℕ)
      → key_len ≤ length key + 16 * fuel
      → key_len ≤ length (evp_loop fuel password key_len prev key)
  unfolding evp_loop
  length-evp_loop zero password key_len prev key h = omega arith
  length-evp_loop (suc fuel) password key_len prev key h =
      let prev' = c.md5_digest (prev ++ password) in
      ground (
        arith,
        length-append key prev',
        sizes.length-md5 (prev ++ password),
        length-evp_loop fuel password key_len prev' (key ++ prev'),
      )

  -- `evp_bytes_to_key` returns exactly the length that it is asked for.
  pub length-evp_bytes_to_key :
      (password : List ℕ) (key_len : ℕ) → length (evp_bytes_to_key password key_len) ≡ key_len
  unfolding evp_bytes_to_key
  length-evp_bytes_to_key password key_len =
      let filled = length-evp_loop key_len password key_len [] [] (omega arith) in
      omega (arith, length-take key_len (evp_loop key_len password key_len [] []), filled)
