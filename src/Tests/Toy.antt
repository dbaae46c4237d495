-- ===== src/Tests/Toy.antt =====
-- Stand-ins for the third-party primitives: functions with the documented sizes.
use sspanel_ssr_rust_backend.Base.{ℕ, zero, suc, ◌+◌, ◌%◌, ◌<◌, refl, length, replicate, All, arith}
use sspanel_ssr_rust_backend.Base.Bytes.{IsByte}
use sspanel_ssr_rust_backend.Ssr.Crypto.{Crypto, CryptoSizes}

instance abbrev pub toy : Crypto
toy = record {
  md5_digest = λ d. replicate 16 (length d % 256);
  hmac_md5 = λ k d. replicate 16 ((length k + length d) % 256);
  aes128_decrypt = λ k d. d;
  base64 = λ d. d;
  chacha20 = λ k n i. i % 256;
}

All-replicate : (n b : ℕ) → b < 256 → All IsByte (replicate n b)
All-replicate zero b h = tt
All-replicate (suc n) b h = (h, All-replicate n b h)

pub toy_sizes : CryptoSizes
toy_sizes = record {
  length-md5 = λ d. refl;
  length-hmac = λ k d. refl;
  md5-bytes = λ d. All-replicate 16 (length d % 256) (omega arith);
  chacha20-byte = λ k n i. omega arith;
}
