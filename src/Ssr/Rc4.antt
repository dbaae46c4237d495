-- ===== src/Ssr/Rc4.antt =====
-- src/ssr/rc4.rs: the RC4 key stream and `rc4-md5`.
pub mod State
pub mod Permutation
use sspanel_ssr_rust_backend.Base.{
  ℕ, zero, suc, ◌+◌, ◌%◌, List, [], ◌∷◌, ◌++◌, get_or, set, length, bit_xor,
}
use sspanel_ssr_rust_backend.Ssr.Crypto.{Crypto}
use sspanel_ssr_rust_backend.Ssr.Kdf.{md5}

-- `s` has 256 bytes; `i` and `j` are bytes.
pub record Rc4 : Type 0 where
  pub s : List ℕ
  pub i : ℕ
  pub j : ℕ

-- `s.swap(a, b)`
unfoldable pub swap : List ℕ → ℕ → ℕ → List ℕ
swap s a b = set (set s a (get_or s b 0)) b (get_or s a 0)

unfoldable pub identity : ℕ → ℕ → List ℕ
identity zero idx = []
identity (suc n) idx = idx ∷ identity n (idx + 1)

-- The rounds of `for i in 0..256` that are left. The keys are digests: on an empty one the source
-- would panic, where this adds 0.
unfoldable pub schedule : ℕ → ℕ → ℕ → List ℕ → List ℕ → List ℕ
schedule zero i j key s = s
schedule (suc n) i j key s =
    let j' = (j + get_or s i 0 + get_or key (i % length key) 0) % 256 in
    schedule n (i + 1) j' key (swap s i j')

unfoldable pub new : List ℕ → Rc4
unfolding schedule identity
new key = record { s = schedule 256 0 0 key (identity 256 0); i = 0; j = 0 }

-- The state after one byte, and the key byte for it.
unfoldable pub next : Rc4 → Rc4 × ℕ
next r =
    let i' = (r.i + 1) % 256 in
    let j' = (r.j + get_or r.s i' 0) % 256 in
    let s' = swap r.s i' j' in
    (record { s = s'; i = i'; j = j' }, get_or s' ((get_or s' i' 0 + get_or s' j' 0) % 256) 0)

unfoldable pub apply : Rc4 → List ℕ → Rc4 × List ℕ
apply r [] = (r, [])
apply r (byte ∷ bytes) =
    let (r', k) = next r in let (r'', rest) = apply r' bytes in (r'', bit_xor byte k ∷ rest)

-- `Rc4Md5::new`: the RC4 key is `MD5(master_key || iv)`.
unfoldable pub rc4_md5 : ⦃c : Crypto⦄ → List ℕ → List ℕ → Rc4
rc4_md5 master_key iv = new (md5 (master_key ++ iv))
