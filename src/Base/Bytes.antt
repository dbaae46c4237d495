-- ===== src/Base/Bytes.antt =====
-- Bytes and the byte orders of machine words.
use Prim.Native.Nat.{ℕ, ◌+◌, ◌*◌, ◌/◌, ◌%◌, ◌^◌, ◌<◌}
use mathlib.Core.Path.{◌≡◌}
use mathlib.Core.List.{List, [], ◌∷◌}
use native.Mathlib.Omega.{arith}
use sspanel_ssr_rust_backend.Base.Lists.{get_or}

abbrev pub IsByte : ℕ → Type 0
IsByte b = b < 256

-- `u16::to_le_bytes`, `u16::to_be_bytes` and `u32::to_le_bytes`.
unfoldable pub u16_le_bytes : ℕ → List ℕ
u16_le_bytes n = n % 256 ∷ n / 256 % 256 ∷ []

unfoldable pub u16_be_bytes : ℕ → List ℕ
u16_be_bytes n = n / 256 % 256 ∷ n % 256 ∷ []

unfoldable pub u32_le_bytes : ℕ → List ℕ
u32_le_bytes n = n % 256 ∷ n / 256 % 256 ∷ n / 65536 % 256 ∷ n / 16777216 % 256 ∷ []

-- `u16::from_be_bytes` and `u32::from_le_bytes` of the first bytes of a slice.
unfoldable pub from_u16_be : List ℕ → ℕ
from_u16_be b = get_or b 0 0 * 256 + get_or b 1 0

unfoldable pub from_u32_le : List ℕ → ℕ
from_u32_le b = get_or b 0 0 + get_or b 1 0 * 256 + get_or b 2 0 * 65536 + get_or b 3 0 * 16777216

pub from_u16_be-u16_be_bytes : (n : ℕ) → n < 65536 → from_u16_be (u16_be_bytes n) ≡ n
unfolding from_u16_be u16_be_bytes
from_u16_be-u16_be_bytes n h = omega arith

pub from_u32_le-u32_le_bytes : (n : ℕ) → n < 2 ^ 32 → from_u32_le (u32_le_bytes n) ≡ n
unfolding from_u32_le u32_le_bytes
from_u32_le-u32_le_bytes n h = omega arith
