-- ===== src/Ssr/Session/Fresh.antt =====
-- src/ssr/mod.rs: a session as it is made.
use sspanel_ssr_rust_backend.Base.{
  ℕ, ◌≡◌, refl, false, Option, none, some, List, [], Result, Error, ok, err, Result-cases,
  Option-cases, inl, inr,
}
use mathlib.Core.Path.{subst}
use sspanel_ssr_rust_backend.Base.Int.{ℤ}
use sspanel_ssr_rust_backend.Base.Table.{Table}
use sspanel_ssr_rust_backend.Ssr.Crypto.{Crypto}
use sspanel_ssr_rust_backend.Ssr.Cipher.{
  CipherKind, rc4_md5, chacha20_ietf, StreamCipher, key_len, iv_len, new_stream,
}
use sspanel_ssr_rust_backend.Ssr.Kdf.{evp_bytes_to_key}
use sspanel_ssr_rust_backend.Ssr.Session
use sspanel_ssr_rust_backend.Ssr.Session.{ServerSession, decrypt, start}

module _ ⦃c : Crypto⦄ where
  -- The session that `new` makes.
  abbrev pub made :
      List ℕ → Table ℕ (List ℕ) → ℤ → CipherKind → List ℕ → StreamCipher → ServerSession
  made password users is_multi_user cipher send_iv encryptor = record {
    cipher = cipher;
    master_key = evp_bytes_to_key password (key_len cipher);
    recv_iv_buf = [];
    decryptor = none;
    protocol = none;
    users = users;
    is_multi_user = is_multi_user;
    send_iv = send_iv;
    encryptor = encryptor;
    send_iv_emitted = false;
  }

  made_reads_nothing :
      (password : List ℕ) (users : Table ℕ (List ℕ)) (is_multi_user : ℤ) (cipher : CipherKind)
      (send_iv : List ℕ) (encryptor : StreamCipher)
      → let s = made password users is_multi_user cipher send_iv encryptor in
        decrypt s [] ≡ ok (s, [])
  unfolding decrypt start iv_len
  made_reads_nothing password users is_multi_user rc4_md5 send_iv encryptor = refl
  made_reads_nothing password users is_multi_user chacha20_ietf send_iv encryptor = refl

  session_of : (r : Result ServerSession) (s t : ServerSession) → r ≡ ok s → r ≡ ok t → s ≡ t
  session_of r s t e e' = cc

  no_session : (r : Result ServerSession) (e : Error) (t : ServerSession) → r ≡ err e → r ≡ ok t → ⊥
  no_session r e t failed done = cc

  module _ (password : List ℕ) (users : Table ℕ (List ℕ)) (is_multi_user : ℤ) (cipher : CipherKind)
      (getrandom : ℕ → Option (List ℕ)) where
    abbrev pub built : Result ServerSession
    built = Session.new password users is_multi_user cipher getrandom

    new_random_fails : getrandom (iv_len cipher) ≡ none → built ≡ err Error.external
    unfolding Session.new
    new_random_fails q = rw (q, Session.new)

    new_stream_fails :
        (iv : List ℕ) (e : Error)
        → getrandom (iv_len cipher) ≡ some iv
        → new_stream cipher (evp_bytes_to_key password (key_len cipher)) iv ≡ err e
        → built ≡ err e
    unfolding Session.new
    new_stream_fails iv e q r = rw (q, Session.new) (rw r)

    new_works :
        (iv : List ℕ) (stream : StreamCipher)
        → getrandom (iv_len cipher) ≡ some iv
        → new_stream cipher (evp_bytes_to_key password (key_len cipher)) iv ≡ ok stream
        → built ≡ ok (made password users is_multi_user cipher iv stream)
    unfolding Session.new
    new_works iv stream q r = rw (q, Session.new) (rw r)

    -- A new session gets nothing from no bytes.
    pub new_reads_nothing : (s : ServerSession) → built ≡ ok s → decrypt s [] ≡ ok (s, [])
    new_reads_nothing s done = elim (Option-cases (getrandom (iv_len cipher))) [
      | inl q ↦ absurd (no_session built Error.external s (new_random_fails q) done)
      | inr (iv, q) ↦
          elim (Result-cases (new_stream cipher (evp_bytes_to_key password (key_len cipher)) iv)) [
            | inl (e, r) ↦ absurd (no_session built e s (new_stream_fails iv e q r) done)
            | inr (stream, r) ↦
                subst (λ t. decrypt t [] ≡ ok (t, []))
                  (session_of built (made password users is_multi_user cipher iv stream) s
                    (new_works iv stream q r) done)
                  (made_reads_nothing password users is_multi_user cipher iv stream)
          ]
    ]
