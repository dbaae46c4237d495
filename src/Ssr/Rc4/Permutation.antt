-- ===== src/Ssr/Rc4/Permutation.antt =====
-- src/ssr/rc4.rs: how often each byte stands in the state.
use sspanel_ssr_rust_backend.Base.{
  ℕ, zero, suc, ◌+◌, ◌%◌, ◌≤◌, ◌<◌, ◌≡◌, refl, ◌∙◌, List, [], ◌∷◌, get_or, set, length, length-set,
  arith, ◌==◌, if◌then◌else◌, Bool-cases, false, inl, inr,
}
use sspanel_ssr_rust_backend.Ssr.Rc4.{Rc4, swap, identity, schedule, new, next, apply}
use sspanel_ssr_rust_backend.Ssr.Rc4.State.{IsState, next-IsState, new-IsState, length-swap}

abbrev pub one_if : ℕ → ℕ → ℕ
one_if v x = if v == x then 1 else 0

-- How often a value stands in a list.
unfoldable pub count : ℕ → List ℕ → ℕ
count v [] = 0
count v (x ∷ xs) = one_if v x + count v xs

count-set :
    (v : ℕ) (s : List ℕ) (i x : ℕ)
    → i < length s
    → count v (set s i x) + one_if v (get_or s i 0) ≡ count v s + one_if v x
unfolding count
count-set v [] i x h = absurd (omega arith)
count-set v (y ∷ s) zero x h = omega arith
count-set v (y ∷ s) (suc i) x h = omega (arith, count-set v s i x (omega arith))

get_or-set_self : (s : List ℕ) (i x : ℕ) → i < length s → get_or (set s i x) i 0 ≡ x
get_or-set_self [] i x h = absurd (omega arith)
get_or-set_self (y ∷ s) zero x h = refl
get_or-set_self (y ∷ s) (suc i) x h = get_or-set_self s i x (omega arith)

get_or-set_ne : (s : List ℕ) (i j x : ℕ) → (i == j) ≡ false → get_or (set s i x) j 0 ≡ get_or s j 0
get_or-set_ne [] i j x h = refl
get_or-set_ne (y ∷ s) zero zero x h = cc
get_or-set_ne (y ∷ s) zero (suc j) x h = refl
get_or-set_ne (y ∷ s) (suc i) zero x h = refl
get_or-set_ne (y ∷ s) (suc i) (suc j) x h = get_or-set_ne s i j x (ground arith)

pub count-swap :
    (v : ℕ) (s : List ℕ) (a b : ℕ) → a < length s → b < length s → count v (swap s a b) ≡ count v s
unfolding swap
count-swap v s a b ha hb =
    let first = set s a (get_or s b 0) in
    elim (Bool-cases (a == b)) [
      | inl e ↦ ground (
        arith,
        count-set v first b (get_or s a 0),
        count-set v s a (get_or s b 0),
        length-set s a (get_or s b 0),
        get_or-set_self s a (get_or s b 0),
      )
      | inr n ↦ ground (
        arith,
        count-set v first b (get_or s a 0),
        count-set v s a (get_or s b 0),
        length-set s a (get_or s b 0),
        get_or-set_ne s a b (get_or s b 0) n,
      )
    ]

count-schedule :
    (v n i j : ℕ) (key s : List ℕ)
    → length s ≡ 256
    → n + i ≤ 256
    → count v (schedule n i j key s) ≡ count v s
unfolding schedule
count-schedule v zero i j key s h k = refl
count-schedule v (suc n) i j key s h k =
    let j' = (j + get_or s i 0 + get_or key (i % length key) 0) % 256 in
    count-schedule v n (i + 1) j' key (swap s i j') (length-swap s i j' ∙ h) (omega arith)
    ∙ count-swap v s i j' (omega arith) (omega arith)

-- The 256 bytes, each as often as in the identity permutation.
abbrev pub IsPermutation : List ℕ → Type 0
IsPermutation s = (v : ℕ) → count v s ≡ count v (identity 256 0)

new-permutes : (key : List ℕ) → IsPermutation (new key).s
unfolding new
new-permutes key v =
    count-schedule v 256 0 0 key (identity 256 0) (unfold identity in refl) (omega arith)

next-permutes : (r : Rc4) → IsState r → IsPermutation r.s → IsPermutation (next r).0.s
unfolding next
next-permutes r h p v =
    let i' = (r.i + 1) % 256 in
    let j' = (r.j + get_or r.s i' 0) % 256 in
    count-swap v r.s i' j' (omega (arith, h.size)) (omega (arith, h.size)) ∙ p v

apply-permutes :
    (r : Rc4) (bytes : List ℕ) → IsState r → IsPermutation r.s → IsPermutation (apply r bytes).0.s
unfolding apply
apply-permutes r [] h p = p
apply-permutes r (byte ∷ bytes) h p =
    apply-permutes (next r).0 bytes (next-IsState r h) (next-permutes r h p)

-- For every key, and after every sequence of bytes processed, the 256 entries of the RC4 state are
-- a permutation of the identity: each value stands in it as often as in 0, 1, ..., 255.
pub apply-new-IsPermutation : (key bytes : List ℕ) → IsPermutation (apply (new key) bytes).0.s
apply-new-IsPermutation key bytes =
    apply-permutes (new key) bytes (new-IsState key) (new-permutes key)
