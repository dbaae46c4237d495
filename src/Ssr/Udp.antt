-- ===== src/Ssr/Udp.antt =====
-- src/ssr/mod.rs: the codec of one datagram.
pub mod RoundTrip
use sspanel_ssr_rust_backend.Base.{
  ℕ, Option, none, some, List, ◌++◌, length, take, drop, ltb, if◌then◌else◌, Result, Error, ok, err,
  ◌>>=◌,
}
use sspanel_ssr_rust_backend.Base.Int.{ℤ}
use sspanel_ssr_rust_backend.Base.Table.{Table}
use sspanel_ssr_rust_backend.Ssr.Crypto.{Crypto}
use sspanel_ssr_rust_backend.Ssr.Kdf.{evp_bytes_to_key}
use sspanel_ssr_rust_backend.Ssr.Cipher.{CipherKind, key_len, iv_len, new_stream, process}
use sspanel_ssr_rust_backend.Ssr.Protocol.{
  udp_server_post_decrypt, udp_server_pre_encrypt, user_auth_key,
}

module _ ⦃c : Crypto⦄ where
  unfoldable pub derive_master_key : List ℕ → CipherKind → List ℕ
  derive_master_key password cipher = evp_bytes_to_key password (key_len cipher)

  unfoldable pub derive_user_auth_key : List ℕ → List ℕ
  derive_user_auth_key password = user_auth_key password

  unfoldable pub udp_decrypt_packet :
      List ℕ → Table ℕ (List ℕ) → ℤ → List ℕ → CipherKind → Result (List ℕ × Option ℕ)
  udp_decrypt_packet master_key users is_multi_user packet cipher =
      let iv = take (iv_len cipher) packet in
      if ltb (length packet) (iv_len cipher)
      then err Error.short_datagram
      else (new_stream cipher master_key iv >>= λ stream.
          udp_server_post_decrypt master_key users is_multi_user iv
            (process stream (drop (iv_len cipher) packet)).1)

  -- `getrandom` fills a buffer of the given size, or fails.
  unfoldable pub udp_encrypt_packet :
      List ℕ → List ℕ → List ℕ → CipherKind → (ℕ → Option (List ℕ)) → Result (List ℕ)
  udp_encrypt_packet master_key proto_key header_and_payload cipher getrandom =
      elim (getrandom (iv_len cipher)) [
        | none ↦ err Error.external
        | some iv ↦ do
          stream ← new_stream cipher master_key iv
          ok (iv ++ (process stream (udp_server_pre_encrypt proto_key header_and_payload)).1)
      ]
