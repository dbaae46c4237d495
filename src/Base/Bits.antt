-- ===== src/Base/Bits.antt =====
-- Facts about `bit_xor` and `bit_and` at variables.
use Prim.Native.Nat.{ℕ, zero, suc, ◌<◌, bit_xor}
use mathlib.Core.Path.{◌≡◌, refl}
use mathlib.Core.Bool.{Bool, true, ◌&&◌}
use native.Mathlib.Omega.{arith}
use sspanel_ssr_rust_backend.Base.Tests.{◌==◌, ==_iff}

-- A test that every value below a bound passes.
unfoldable pub passes_below : (ℕ → Bool) → ℕ → Bool
passes_below test (suc bound) = passes_below test bound && test bound
passes_below test zero = true

pub passes_below_sound :
    (test : ℕ → Bool) (bound value : ℕ)
    → passes_below test bound ≡ true
    → value < bound
    → test value ≡ true
unfolding passes_below
passes_below_sound test (suc bound) value passed small =
    ground (arith, passes_below_sound test bound value)
passes_below_sound test zero value passed small = absurd (omega arith)

xor_row : ℕ → Bool
unfolding passes_below
xor_row x = passes_below (λ k. bit_xor (bit_xor x k) k == x) 256

xor_table : passes_below xor_row 256 ≡ true
unfolding passes_below xor_row
xor_table = refl

-- Xor with the same byte twice gives the byte back.
pub bit_xor_twice : (x k : ℕ) → x < 256 → k < 256 → bit_xor (bit_xor x k) k ≡ x
unfolding xor_row
bit_xor_twice x k h h' = (==_iff (bit_xor (bit_xor x k) k) x).0 (
    passes_below_sound (λ k. bit_xor (bit_xor x k) k == x) 256 k
      (passes_below_sound xor_row 256 x xor_table h) h')
