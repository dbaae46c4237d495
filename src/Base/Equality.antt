-- ===== src/Base/Equality.antt =====
-- Rust's `Eq` as an interface, and byte strings as keys.
use Prim.Native.Nat.{ℕ}
use mathlib.Core.Path.{◌≡◌, refl}
use mathlib.Core.Logic.{◌↔◌}
use mathlib.Core.Bool.{Bool, true, false, ◌&&◌}
use mathlib.Core.List.{List, [], ◌∷◌}
use native.Mathlib.Omega.{arith}
use sspanel_ssr_rust_backend.Base.Tests.{◌==◌, ==_iff}

pub record Eq {ℓ} (A : Type ℓ) : Type ℓ where
  pub beq : A → A → Bool
  pub beq_iff : (x y : A) → (beq x y ≡ true) ↔ (x ≡ y)

instance abbrev pub nat_eq : Eq ℕ
nat_eq = record { beq_iff = ==_iff; beq = ◌==◌ }

-- `==` of two byte slices.
unfoldable pub bytes_eq : List ℕ → List ℕ → Bool
bytes_eq [] [] = true
bytes_eq (x ∷ xs) (y ∷ ys) = x == y && bytes_eq xs ys
bytes_eq _ _ = false

pub bytes_eq_iff : (xs ys : List ℕ) → (bytes_eq xs ys ≡ true) ↔ (xs ≡ ys)
unfolding bytes_eq
bytes_eq_iff [] [] = (λ _. refl, λ _. refl)
bytes_eq_iff [] (y ∷ ys) = (λ h. cc, λ h. cc)
bytes_eq_iff (x ∷ xs) [] = (λ h. cc, λ h. cc)
bytes_eq_iff (x ∷ xs) (y ∷ ys) =
    (λ h. ground (arith, bytes_eq_iff xs ys), λ h. ground (arith, bytes_eq_iff xs ys))

pub bytes_eq_self : (xs : List ℕ) → bytes_eq xs xs ≡ true
bytes_eq_self xs = (bytes_eq_iff xs xs).1 refl

instance abbrev pub bytes_key : Eq (List ℕ)
bytes_key = record { beq = bytes_eq; beq_iff = bytes_eq_iff }

pub beq_self {ℓ} : {A : Type ℓ} ⦃e : Eq A⦄ (a : A) → e.beq a a ≡ true
beq_self ⦃e⦄ a = (e.beq_iff a a).1 refl

module _ {ℓ κ} {A : Type ℓ} {B : Type κ} ⦃e : Eq A⦄ ⦃f : Eq B⦄ where
  abbrev pub pair_beq : A × B → A × B → Bool
  pair_beq (a, b) (c, d) = e.beq a c && f.beq b d

  pub pair_beq_iff : (p q : A × B) → (pair_beq p q ≡ true) ↔ (p ≡ q)
  pair_beq_iff (a, b) (c, d) = (
    λ h. ground (arith, e.beq_iff a c, f.beq_iff b d),
    λ h. ground (arith, e.beq_iff a c, f.beq_iff b d),
  )

  instance abbrev pub pair_eq : Eq (A × B)
  pair_eq = record { beq = pair_beq; beq_iff = pair_beq_iff }
