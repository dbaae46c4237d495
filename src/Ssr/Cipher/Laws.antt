-- ===== src/Ssr/Cipher/Laws.antt =====
-- src/ssr/cipher.rs: the key stream over several calls and in both directions.
use sspanel_ssr_rust_backend.Base.{
  ℕ, suc, ◌+◌, ◌≡◌, refl, ap, List, [], ◌∷◌, ◌++◌, length, length-append, All, arith, bit_xor,
  Result, ok, err,
}
use sspanel_ssr_rust_backend.Base.Bytes.{IsByte}
use sspanel_ssr_rust_backend.Ssr.Crypto.{Crypto, CryptoSizes}
use sspanel_ssr_rust_backend.Ssr.Rc4
use sspanel_ssr_rust_backend.Ssr.Rc4.{Rc4}
use sspanel_ssr_rust_backend.Ssr.Cipher.{
  StreamCipher, CipherKind, key_len, iv_len, new_stream, rc4, chacha20, apply_keystream, process,
}
use sspanel_ssr_rust_backend.Base.Bits.{bit_xor_twice}
use sspanel_ssr_rust_backend.Ssr.Kdf.{md5}
use sspanel_ssr_rust_backend.Ssr.Rc4.State.{IsState, new-IsState, next-IsState, next-IsByte}
use mathlib.Core.Path.{subst}

rc4-append :
    (r : Rc4) (xs ys : List ℕ)
    → Rc4.apply r (xs ++ ys) ≡ (
      (Rc4.apply (Rc4.apply r xs).0 ys).0,
      (Rc4.apply r xs).1 ++ (Rc4.apply (Rc4.apply r xs).0 ys).1,
    )
unfolding Rc4.apply
rc4-append r [] ys = refl
rc4-append r (x ∷ xs) ys = rw (rc4-append (Rc4.next r).0 xs ys)

module _ ⦃c : Crypto⦄ where
  apply_keystream-append :
      (key nonce : List ℕ) (n : ℕ) (xs ys : List ℕ)
      → apply_keystream key nonce n (xs ++ ys)
        ≡ apply_keystream key nonce n xs ++ apply_keystream key nonce (n + length xs) ys
  unfolding apply_keystream
  apply_keystream-append key nonce n [] ys = ap (λ m. apply_keystream key nonce m ys) (omega arith)
  apply_keystream-append key nonce n (x ∷ xs) ys =
      rw (apply_keystream-append key nonce (n + 1) xs ys) (
        ap
          (λ m.
            bit_xor x (c.chacha20 key nonce n)
            ∷ (apply_keystream key nonce (n + 1) xs ++ apply_keystream key nonce m ys))
          (omega arith))

  -- `process` on two chunks is `process` on both at once.
  pub process-append :
      (s : StreamCipher) (xs ys : List ℕ)
      → process s (xs ++ ys)
        ≡ ((process (process s xs).0 ys).0, (process s xs).1 ++ (process (process s xs).0 ys).1)
  unfolding process
  process-append (rc4 r) xs ys = rw (rc4-append r xs ys)
  process-append (chacha20 key nonce n) xs ys = rw (apply_keystream-append key nonce n xs ys) (
      ap
        (λ m. (
          chacha20 key nonce m,
          apply_keystream key nonce n xs ++ apply_keystream key nonce (n + length xs) ys,
        ))
        (omega (arith, length-append xs ys)))

  -- A state of either cipher: an RC4 state in its ranges; a ChaCha20 state is any position.
  abbrev pub IsStream : StreamCipher → Type 0
  IsStream (rc4 r) = IsState r
  IsStream (chacha20 key nonce n) = Unit {0}

  IsStreamIf : Result StreamCipher → Type 0
  IsStreamIf (ok s) = IsStream s
  IsStreamIf (err e) = Unit {0}

  pub new_stream-IsStream :
      (kind : CipherKind) (key iv : List ℕ) (s : StreamCipher)
      → new_stream kind key iv ≡ ok s
      → IsStream s
  unfolding new_stream Rc4.rc4_md5 IsStreamIf
  new_stream-IsStream CipherKind.rc4_md5 key iv (rc4 r) e =
      subst IsStreamIf e (new-IsState (md5 (key ++ iv)))
  new_stream-IsStream CipherKind.rc4_md5 key iv (chacha20 k n m) e = tt
  new_stream-IsStream CipherKind.chacha20_ietf key iv (rc4 r) e = absurd (ground arith)
  new_stream-IsStream CipherKind.chacha20_ietf key iv (chacha20 k n m) e = tt

  -- With the lengths that `CipherKind` asks for, `new_stream` does not panic.
  pub new_stream_total :
      (kind : CipherKind) (key iv : List ℕ)
      → length key ≡ key_len kind
      → length iv ≡ iv_len kind
      → (s : StreamCipher) × (new_stream kind key iv ≡ ok s)
  unfolding new_stream key_len iv_len
  new_stream_total CipherKind.rc4_md5 key iv h k = (rc4 (Rc4.rc4_md5 key iv), refl)
  new_stream_total CipherKind.chacha20_ietf key iv h k = (chacha20 key iv 0, ground arith)

  rc4_twice :
      (r : Rc4) (xs : List ℕ)
      → IsState r
      → All IsByte xs
      → Rc4.apply r (Rc4.apply r xs).1 ≡ ((Rc4.apply r xs).0, xs)
  unfolding Rc4.apply
  rc4_twice r [] h k = refl
  rc4_twice r (x ∷ xs) h k = rw (
    bit_xor_twice x (Rc4.next r).1 k.0 (next-IsByte r h),
    rc4_twice (Rc4.next r).0 xs (next-IsState r h) k.1,
  )

  apply_keystream_twice :
      (sizes : CryptoSizes) (key nonce : List ℕ) (n : ℕ) (xs : List ℕ)
      → All IsByte xs
      → apply_keystream key nonce n (apply_keystream key nonce n xs) ≡ xs
  unfolding apply_keystream
  apply_keystream_twice sizes key nonce n [] k = refl
  apply_keystream_twice sizes key nonce n (x ∷ xs) k = rw (
    bit_xor_twice x (c.chacha20 key nonce n) k.0 (sizes.chacha20-byte key nonce n),
    apply_keystream_twice sizes key nonce (n + 1) xs k.1,
  )

  length-apply_keystream :
      (key nonce : List ℕ) (n : ℕ) (xs : List ℕ)
      → length (apply_keystream key nonce n xs) ≡ length xs
  unfolding apply_keystream
  length-apply_keystream key nonce n [] = refl
  length-apply_keystream key nonce n (x ∷ xs) = ap suc (length-apply_keystream key nonce (n + 1) xs)

  -- The two directions of a stream that start in the same state, of either cipher: `process` of what
  -- `process` wrote gives the bytes back, and leaves both directions in the same state.
  pub process_twice :
      (sizes : CryptoSizes) (s : StreamCipher) (xs : List ℕ)
      → IsStream s
      → All IsByte xs
      → process s (process s xs).1 ≡ ((process s xs).0, xs)
  unfolding process
  process_twice sizes (rc4 r) xs h k = rw (rc4_twice r xs h k)
  process_twice sizes (chacha20 key nonce n) xs h k =
      rw (apply_keystream_twice sizes key nonce n xs k, length-apply_keystream key nonce n xs)

  apply-IsState : (r : Rc4) (xs : List ℕ) → IsState r → IsState (Rc4.apply r xs).0
  unfolding Rc4.apply
  apply-IsState r [] h = h
  apply-IsState r (x ∷ xs) h = apply-IsState (Rc4.next r).0 xs (next-IsState r h)

  pub process-IsStream : (s : StreamCipher) (xs : List ℕ) → IsStream s → IsStream (process s xs).0
  unfolding process
  process-IsStream (rc4 r) xs h = apply-IsState r xs h
  process-IsStream (chacha20 key nonce n) xs h = tt

  length-apply : (r : Rc4) (xs : List ℕ) → length (Rc4.apply r xs).1 ≡ length xs
  unfolding Rc4.apply
  length-apply r [] = refl
  length-apply r (x ∷ xs) = ap suc (length-apply (Rc4.next r).0 xs)

  pub length-process : (s : StreamCipher) (xs : List ℕ) → length (process s xs).1 ≡ length xs
  unfolding process
  length-process (rc4 r) xs = length-apply r xs
  length-process (chacha20 key nonce n) xs = length-apply_keystream key nonce n xs
