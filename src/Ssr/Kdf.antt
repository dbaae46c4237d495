-- ===== src/Ssr/Kdf.antt =====
-- src/ssr/kdf.rs: key derivation and truncated MACs.
pub mod Sizes
use sspanel_ssr_rust_backend.Base.{ℕ, zero, suc, List, [], ◌++◌, length, take, ltb, if◌then◌else◌}
use sspanel_ssr_rust_backend.Ssr.Crypto.{Crypto}

module _ ⦃c : Crypto⦄ where
  -- The `while key.len() < key_len` loop, on fuel.
  unfoldable pub evp_loop : ℕ → List ℕ → ℕ → List ℕ → List ℕ → List ℕ
  evp_loop zero password key_len prev key = key
  evp_loop (suc fuel) password key_len prev key =
      let prev' = c.md5_digest (prev ++ password) in
      let longer = evp_loop fuel password key_len prev' (key ++ prev') in
      if ltb (length key) key_len then longer else key

  -- Each round adds a digest, so `key_len` rounds are enough.
  unfoldable pub evp_bytes_to_key : List ℕ → ℕ → List ℕ
  evp_bytes_to_key password key_len = take key_len (evp_loop key_len password key_len [] [])

  unfoldable pub md5 : List ℕ → List ℕ
  md5 bytes = c.md5_digest bytes

  unfoldable pub hmac_md5_prefix : List ℕ → List ℕ → ℕ → List ℕ
  hmac_md5_prefix key bytes n = take n (c.hmac_md5 key bytes)
