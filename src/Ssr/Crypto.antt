-- ===== src/Ssr/Crypto.antt =====
-- The third-party primitives that src/ssr calls (md-5, hmac, aes, base64, chacha20), as an interface.
use sspanel_ssr_rust_backend.Base.{ℕ, ◌≡◌, List, length, All}
use sspanel_ssr_rust_backend.Base.Bytes.{IsByte}

-- Byte strings are lists of numbers. `chacha20 key nonce n` is byte n of the key stream.
pub record Crypto : Type 0 where
  pub md5_digest : List ℕ → List ℕ
  pub hmac_md5 : List ℕ → List ℕ → List ℕ
  pub aes128_decrypt : List ℕ → List ℕ → List ℕ
  pub base64 : List ℕ → List ℕ
  pub chacha20 : List ℕ → List ℕ → ℕ → ℕ

-- The documented sizes: an MD5 digest and an HMAC-MD5 tag have 16 bytes, a key stream has bytes.
pub record CryptoSizes ⦃c : Crypto⦄ : Type 0 where
  pub length-md5 : (d : List ℕ) → length (c.md5_digest d) ≡ 16
  pub length-hmac : (k d : List ℕ) → length (c.hmac_md5 k d) ≡ 16
  pub md5-bytes : (d : List ℕ) → All IsByte (c.md5_digest d)
  pub chacha20-byte : (k n : List ℕ) (i : ℕ) → IsByte (c.chacha20 k n i)
