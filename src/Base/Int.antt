-- ===== src/Base/Int.antt =====
-- `i64` values that the code only compares: `negsuc n` is -(n + 1).
use Prim.Native.Nat.{ℕ}
use mathlib.Core.Path.{◌≡◌}
use mathlib.Core.Bool.{Bool, true, false}
use native.Mathlib.Omega.{arith}
use sspanel_ssr_rust_backend.Base.Tests.{◌==◌}
use sspanel_ssr_rust_backend.Base.Equality.{Eq}
use mathlib.Core.Logic.{◌↔◌}

pub data ℤ : Type 0 where
  pos : ℕ → ℤ
  negsuc : ℕ → ℤ

abbrev pub ℤ_beq : ℤ → ℤ → Bool
ℤ_beq (pos a) (pos b) = a == b
ℤ_beq (negsuc a) (negsuc b) = a == b
ℤ_beq _ _ = false

pub ℤ_beq_iff : (a b : ℤ) → (ℤ_beq a b ≡ true) ↔ (a ≡ b)
ℤ_beq_iff a b = ground arith

instance abbrev pub ℤ_eq : Eq ℤ
ℤ_eq = record { beq = ℤ_beq; beq_iff = ℤ_beq_iff }
