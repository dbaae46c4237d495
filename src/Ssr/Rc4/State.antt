-- ===== src/Ssr/Rc4/State.antt =====
-- src/ssr/rc4.rs: the ranges of the state.
use sspanel_ssr_rust_backend.Base.{
  ℕ, zero, suc, ◌+◌, ◌%◌, ◌≤◌, ◌≡◌, refl, List, [], ◌∷◌, get_or, set, length, length-set, All,
  arith,
}
use sspanel_ssr_rust_backend.Base.Bytes.{IsByte}
use sspanel_ssr_rust_backend.Ssr.Rc4.{Rc4, swap, identity, schedule, new, next}

pub record IsState (r : Rc4) : Type 0 where
  pub size : length r.s ≡ 256
  pub bytes : All IsByte r.s
  pub i_byte : IsByte r.i
  pub j_byte : IsByte r.j

pub get_or-IsByte : (s : List ℕ) (i : ℕ) → All IsByte s → IsByte (get_or s i 0)
get_or-IsByte [] i h = omega arith
get_or-IsByte (x ∷ s) zero h = h.0
get_or-IsByte (x ∷ s) (suc i) h = get_or-IsByte s i h.1

set-IsByte : (s : List ℕ) (i v : ℕ) → All IsByte s → IsByte v → All IsByte (set s i v)
set-IsByte [] i v h k = tt
set-IsByte (x ∷ s) zero v h k = (k, h.1)
set-IsByte (x ∷ s) (suc i) v h k = (h.0, set-IsByte s i v h.1 k)

pub swap-IsByte : (s : List ℕ) (a b : ℕ) → All IsByte s → All IsByte (swap s a b)
unfolding swap
swap-IsByte s a b h =
    set-IsByte (set s a (get_or s b 0)) b (get_or s a 0)
      (set-IsByte s a (get_or s b 0) h (get_or-IsByte s b h)) (get_or-IsByte s a h)

pub length-swap : (s : List ℕ) (a b : ℕ) → length (swap s a b) ≡ length s
unfolding swap
length-swap s a b =
    omega
      (arith, length-set (set s a (get_or s b 0)) b (get_or s a 0), length-set s a (get_or s b 0))

schedule-IsByte : (n i j : ℕ) (key s : List ℕ) → All IsByte s → All IsByte (schedule n i j key s)
unfolding schedule
schedule-IsByte zero i j key s h = h
schedule-IsByte (suc n) i j key s h =
    schedule-IsByte n (i + 1) _ key (swap s i _) (swap-IsByte s i _ h)

length-schedule : (n i j : ℕ) (key s : List ℕ) → length (schedule n i j key s) ≡ length s
unfolding schedule
length-schedule zero i j key s = refl
length-schedule (suc n) i j key s =
    let j' = (j + get_or s i 0 + get_or key (i % length key) 0) % 256 in
    omega (arith, length-schedule n (i + 1) j' key (swap s i j'), length-swap s i j')

pub identity-IsByte : (n idx : ℕ) → n + idx ≤ 256 → All IsByte (identity n idx)
unfolding identity
identity-IsByte zero idx h = tt
identity-IsByte (suc n) idx h = (omega arith, identity-IsByte n (idx + 1) (omega arith))

length-identity : (n idx : ℕ) → length (identity n idx) ≡ n
unfolding identity
length-identity zero idx = refl
length-identity (suc n) idx = omega (arith, length-identity n (idx + 1))

-- A fresh state is in range, whatever the key.
pub new-IsState : (key : List ℕ) → IsState (new key)
unfolding new
new-IsState key = record {
  size = omega (arith, length-schedule 256 0 0 key (identity 256 0), length-identity 256 0);
  bytes = schedule-IsByte 256 0 0 key (identity 256 0) (identity-IsByte 256 0 (omega arith));
  i_byte = omega arith;
  j_byte = omega arith;
}

pub next-IsState : (r : Rc4) → IsState r → IsState (next r).0
unfolding next
next-IsState r h =
    let i' = (r.i + 1) % 256 in
    let j' = (r.j + get_or r.s i' 0) % 256 in
    record {
      size = omega (arith, length-swap r.s i' j', h.size);
      bytes = swap-IsByte r.s i' j' h.bytes;
      i_byte = omega arith;
      j_byte = omega arith;
    }

pub next-IsByte : (r : Rc4) → IsState r → IsByte (next r).1
unfolding next
next-IsByte r h = get_or-IsByte _ _ (swap-IsByte r.s _ _ h.bytes)
