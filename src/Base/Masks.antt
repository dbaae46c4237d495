-- ===== src/Base/Masks.antt =====
-- Masks of leading ones, as `MAX << k` makes them, on words of any width.
use Prim.Native.Nat.{
  ℕ, zero, suc, ◌+◌, ◌*◌, ◌/◌, ◌%◌, ◌^◌, ◌≤◌, ◌<◌, min, bit_and, digits, bit_and-bitwise,
}
use mathlib.Core.Path.{◌≡◌, refl, ap, ◌∙◌}
use mathlib.Core.Logic.{◌↔◌}
use native.Mathlib.Nat.{div-div-eq-div-mul}
use native.Mathlib.Omega.{arith}

by_digits : ℕ → ℕ → ℕ → ℕ
by_digits fuel a b = digits (λ b. zero) min fuel a b

by_digits_any_fuel : (m n a b : ℕ) → a ≤ m → a ≤ n → by_digits m a b ≡ by_digits n a b
unfolding by_digits
by_digits_any_fuel zero zero a b h k = refl
by_digits_any_fuel (suc m) zero zero b h k = refl
by_digits_any_fuel zero (suc n) zero b h k = refl
by_digits_any_fuel (suc m) (suc n) zero b h k = refl
by_digits_any_fuel zero n (suc a) b h k = absurd (omega arith)
by_digits_any_fuel (suc m) zero (suc a) b h k = absurd (omega arith)
by_digits_any_fuel (suc m) (suc n) (suc a) b h k =
    omega (arith, by_digits_any_fuel m n (suc a / 2) (b / 2) (omega arith) (omega arith))

bit_and_zero : (b : ℕ) → bit_and 0 b ≡ 0
bit_and_zero b = bit_and-bitwise 0 b

-- The lowest digit of a conjunction, and the others.
bit_and_halves : (a b : ℕ) → bit_and a b ≡ bit_and (a / 2) (b / 2) * 2 + min (a % 2) (b % 2)
unfolding by_digits
bit_and_halves zero b = omega (arith, bit_and_zero b, bit_and_zero (b / 2))
bit_and_halves (suc a) b = omega (
  arith,
  by_digits_any_fuel a (suc a / 2) (suc a / 2) (b / 2) (omega arith) (omega arith),
  bit_and-bitwise (suc a / 2) (b / 2),
  bit_and-bitwise (suc a) b,
)

half_even : (m : ℕ) → (m * 2) / 2 ≡ m
half_even m = omega arith

half_odd : (m : ℕ) → (m * 2 + 1) / 2 ≡ m
half_odd m = omega arith

bit_and_even : (x m : ℕ) → bit_and x (m * 2) ≡ bit_and (x / 2) m * 2
bit_and_even x m = omega (arith, bit_and_halves x (m * 2), ap (bit_and (x / 2)) (half_even m))

bit_and_odd : (x m : ℕ) → bit_and x (m * 2 + 1) ≡ bit_and (x / 2) m * 2 + x % 2
bit_and_odd x m = omega (arith, bit_and_halves x (m * 2 + 1), ap (bit_and (x / 2)) (half_odd m))

unfoldable pub pow2 : ℕ → ℕ
pow2 zero = 1
pow2 (suc w) = pow2 w * 2

unfoldable pub ones : ℕ → ℕ
ones zero = 0
ones (suc w) = ones w * 2 + 1

-- A word of `w` bits whose last `k` bits are 0 and whose other bits are 1.
unfoldable pub mask : ℕ → ℕ → ℕ
unfolding ones
mask w zero = ones w
mask zero (suc k) = 0
mask (suc w) (suc k) = mask w k * 2

-- A shift to the right by `k` bits.
unfoldable pub shift_right : ℕ → ℕ → ℕ
shift_right x zero = x
shift_right x (suc k) = shift_right (x / 2) k

bit_and-ones : (w x : ℕ) → x < pow2 w → bit_and x (ones w) ≡ x
unfolding pow2 ones
bit_and-ones zero zero h = bit_and_zero 0
bit_and-ones zero (suc x) h = absurd (omega arith)
bit_and-ones (suc w) x h =
    omega (arith, bit_and_odd x (ones w), bit_and-ones w (x / 2) (omega arith))

-- Two words agree under a mask exactly when they agree after the shift.
pub bit_and-mask :
    (w k x y : ℕ)
    → k ≤ w
    → x < pow2 w
    → y < pow2 w
    → (bit_and x (mask w k) ≡ bit_and y (mask w k)) ↔ (shift_right x k ≡ shift_right y k)
unfolding mask shift_right pow2
bit_and-mask w zero x y h hx hy = (
  λ e. omega (arith, bit_and-ones w x hx, bit_and-ones w y hy, e),
  λ e. omega (arith, bit_and-ones w x hx, bit_and-ones w y hy, e),
)
bit_and-mask zero (suc k) x y h hx hy = absurd (omega arith)
bit_and-mask (suc w) (suc k) x y h hx hy =
    let rest = bit_and-mask w k (x / 2) (y / 2) (omega arith) (omega arith) (omega arith) in
    let at_x = bit_and_even x (mask w k) in
    let at_y = bit_and_even y (mask w k) in
    (λ e. rest.0 (omega (arith, at_x, at_y, e)), λ e. omega (arith, at_x, at_y, rest.1 e))

-- The shift is the division by a power of two.
pub shift_right_lem : (x k : ℕ) → shift_right x k ≡ x / 2 ^ k
unfolding shift_right
shift_right_lem x zero = omega arith
shift_right_lem x (suc k) =
    shift_right_lem (x / 2) k ∙ div-div-eq-div-mul x 2 (2 ^ k) ∙ ap (λ d. x / d) (omega arith)
