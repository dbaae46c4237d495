-- ===== src/Ssr/Session.antt =====
-- src/ssr/mod.rs: one TCP connection's codec state on the server.
pub mod Chunks
pub mod Duplex
pub mod Fresh
pub mod Buffers
use sspanel_ssr_rust_backend.Base.{
  ℕ, Bool, true, false, Option, none, some, List, [], ◌∷◌, ◌++◌, length, take, drop, ltb,
  if◌then◌else◌, Result, Error, ok, err, ◌>>=◌, ◌>>◌,
}
use sspanel_ssr_rust_backend.Base.Int.{ℤ}
use sspanel_ssr_rust_backend.Base.Table.{Table}
use sspanel_ssr_rust_backend.Ssr.Crypto.{Crypto}
use sspanel_ssr_rust_backend.Ssr.Kdf.{evp_bytes_to_key}
use sspanel_ssr_rust_backend.Ssr.Cipher.{
  CipherKind, StreamCipher, key_len, iv_len, new_stream, process,
}
use sspanel_ssr_rust_backend.Ssr.Protocol
use sspanel_ssr_rust_backend.Ssr.Protocol.{AuthAes128Md5, server_post_decrypt, server_pre_encrypt}

pub record ServerSession : Type 0 where
  pub cipher : CipherKind
  pub master_key : List ℕ
  pub recv_iv_buf : List ℕ
  pub decryptor : Option StreamCipher
  pub protocol : Option AuthAes128Md5
  pub users : Table ℕ (List ℕ)
  pub is_multi_user : ℤ
  pub send_iv : List ℕ
  pub encryptor : StreamCipher
  pub send_iv_emitted : Bool

module _ ⦃c : Crypto⦄ where
  -- `getrandom` fills a buffer of the given size, or fails.
  unfoldable pub new :
      List ℕ → Table ℕ (List ℕ) → ℤ → CipherKind → (ℕ → Option (List ℕ)) → Result ServerSession
  new password users is_multi_user cipher getrandom =
      let master_key = evp_bytes_to_key password (key_len cipher) in
      elim (getrandom (iv_len cipher)) [
        | none ↦ err Error.external
        | some send_iv ↦ do
          encryptor ← new_stream cipher master_key send_iv
          ok (record {
            cipher = cipher;
            master_key = master_key;
            recv_iv_buf = [];
            decryptor = none;
            protocol = none;
            users = users;
            is_multi_user = is_multi_user;
            send_iv = send_iv;
            encryptor = encryptor;
            send_iv_emitted = false;
          })
      ]

  -- From `if cipher_bytes.is_empty()` on.
  unfoldable pub decode : ServerSession → List ℕ → Result (ServerSession × List ℕ)
  decode s [] = ok (s, [])
  decode s (byte ∷ bytes) = elim s.decryptor [
    | none ↦ err Error.panicked
    | some stream ↦ elim s.protocol [
      | none ↦ err Error.panicked
      | some protocol ↦ do
        let (stream', plain) = process stream (byte ∷ bytes)
        (protocol', out) ← server_post_decrypt protocol plain
        ok (record s { decryptor = some stream'; protocol = some protocol' }, out)
    ]
  ]

  -- The block under `if self.decryptor.is_none()`, with the IV buffer filled.
  unfoldable pub start : ServerSession → Result (ServerSession × List ℕ)
  unfolding decode
  start s =
      let iv = take (iv_len s.cipher) s.recv_iv_buf in
      let rest = drop (iv_len s.cipher) s.recv_iv_buf in
      if ltb (length s.recv_iv_buf) (iv_len s.cipher)
      then ok (s, [])
      else (new_stream s.cipher s.master_key iv >>= λ stream.
          decode
            (record s {
              recv_iv_buf = [];
              decryptor = some stream;
              protocol = some (Protocol.new s.master_key iv s.users s.is_multi_user);
            })
            rest)

  unfoldable pub decrypt : ServerSession → List ℕ → Result (ServerSession × List ℕ)
  decrypt s raw = elim s.decryptor [
    | none ↦ start (record s { recv_iv_buf = s.recv_iv_buf ++ raw })
    | some _ ↦ decode s raw
  ]

  unfoldable pub encrypt : ServerSession → List ℕ → Result (ServerSession × List ℕ)
  encrypt s plaintext = elim s.protocol [
    | none ↦ err Error.no_handshake
    | some protocol ↦
        let (protocol', packed) = server_pre_encrypt protocol plaintext in
        let (encryptor', body) = process s.encryptor packed in
        let s' = record s {
          protocol = some protocol';
          encryptor = encryptor';
          send_iv_emitted = true;
        } in
        ok (s', if s.send_iv_emitted then body else s.send_iv ++ body)
  ]

-- `self.protocol.as_ref().and_then(AuthAes128Md5::user_id)`
unfoldable pub user_id : ServerSession → Option ℕ
user_id s = elim s.protocol [ none ↦ none | some protocol ↦ protocol.user_id ]
