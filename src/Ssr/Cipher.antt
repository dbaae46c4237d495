-- ===== src/Ssr/Cipher.antt =====
-- src/ssr/cipher.rs: the choice of the stream cipher.
pub mod Laws
use sspanel_ssr_rust_backend.Base.{
  ℕ, suc, ◌+◌, ◌-◌, Bool, ◌&&◌, List, [], ◌∷◌, length, ltb, leb, ◌==◌, bytes_eq, if◌then◌else◌, map,
  bit_xor, Result, Error, ok, err,
}
use sspanel_ssr_rust_backend.Ssr.Crypto.{Crypto}
use sspanel_ssr_rust_backend.Ssr.Rc4
use sspanel_ssr_rust_backend.Ssr.Rc4.{Rc4}

pub data CipherKind : Type 0 where
  rc4_md5 chacha20_ietf : CipherKind

-- `u8::to_ascii_lowercase`
unfoldable pub lower_byte : ℕ → ℕ
lower_byte b = if leb b'A' b && leb b b'Z' then b + 32 else b

unfoldable pub to_ascii_lowercase : List ℕ → List ℕ
unfolding lower_byte
to_ascii_lowercase = map lower_byte

abbrev pub rc4_md5_name : List ℕ
rc4_md5_name = b'r' ∷ b'c' ∷ b'4' ∷ b'-' ∷ b'm' ∷ b'd' ∷ b'5' ∷ []

abbrev pub chacha20_ietf_name : List ℕ
chacha20_ietf_name =
    b'c' ∷ b'h' ∷ b'a' ∷ b'c' ∷ b'h' ∷ b'a' ∷ b'2' ∷ b'0' ∷ b'-' ∷ b'i' ∷ b'e' ∷ b't' ∷ b'f' ∷ []

unfoldable pub from_method : List ℕ → Result CipherKind
from_method method =
    let lower = to_ascii_lowercase method in
    if bytes_eq lower rc4_md5_name
    then ok rc4_md5
    else if bytes_eq lower chacha20_ietf_name
    then ok chacha20_ietf
    else err Error.unsupported_cipher

unfoldable pub key_len : CipherKind → ℕ
key_len rc4_md5 = 16
key_len chacha20_ietf = 32

unfoldable pub iv_len : CipherKind → ℕ
iv_len rc4_md5 = 16
iv_len chacha20_ietf = 12

-- `Chacha20` keeps the key, the nonce and the position in the key stream.
pub data StreamCipher : Type 0 where
  rc4 : Rc4 → StreamCipher
  chacha20 : List ℕ → List ℕ → ℕ → StreamCipher

module _ ⦃c : Crypto⦄ where
  -- `new_from_slices` refuses other lengths than 32 and 12, and the `expect` would panic.
  unfoldable pub new_stream : CipherKind → List ℕ → List ℕ → Result StreamCipher
  new_stream rc4_md5 master_key iv = ok (rc4 (Rc4.rc4_md5 master_key iv))
  new_stream chacha20_ietf master_key iv =
      if length master_key == 32 && length iv == 12
      then ok (chacha20 master_key iv 0)
      else err Error.panicked

  -- `apply_keystream` from byte `n` of the stream on. The stream has no end here; the crate panics
  -- where its block counter does, after 2 ^ 38 bytes.
  unfoldable pub apply_keystream : List ℕ → List ℕ → ℕ → List ℕ → List ℕ
  apply_keystream key nonce n [] = []
  apply_keystream key nonce n (byte ∷ bytes) =
      bit_xor byte (c.chacha20 key nonce n) ∷ apply_keystream key nonce (n + 1) bytes

  unfoldable pub process : StreamCipher → List ℕ → StreamCipher × List ℕ
  process (rc4 r) bytes = let (r', out) = Rc4.apply r bytes in (rc4 r', out)
  process (chacha20 key nonce n) bytes =
      (chacha20 key nonce (n + length bytes), apply_keystream key nonce n bytes)
