-- ===== src/Base/Table.antt =====
-- `HashMap` as a list of entries with distinct keys. The order of iteration is that of the list;
-- the program may rely on none, so the theorems hold for every list.
use Prim.Native.Nat.{suc, ◌+◌, ◌≤◌}
use mathlib.Core.Path.{◌≡◌, refl}
use mathlib.Core.Bool.{Bool, true, false, ◌||◌}
use mathlib.Core.List.{List, [], ◌∷◌}
use mathlib.Core.Option.{Option, none, some}
use native.Mathlib.Omega.{arith}
use sspanel_ssr_rust_backend.Base.Tests.{if◌then◌else◌}
use sspanel_ssr_rust_backend.Base.Lists.{length}
use sspanel_ssr_rust_backend.Base.Equality.{Eq}

abbrev pub Table {ℓ κ} : Type ℓ → Type κ → Type (ℓ ⊔ κ)
Table K V = List (K × V)

module _ {ℓ κ} {K : Type ℓ} {V : Type κ} ⦃e : Eq K⦄ where
  unfoldable pub get : K → Table K V → Option V
  get k [] = none
  get k ((j, v) ∷ m) = if e.beq j k then some v else get k m

  unfoldable pub contains : K → Table K V → Bool
  contains k [] = false
  contains k ((j, v) ∷ m) = e.beq j k || contains k m

  unfoldable pub insert : K → V → Table K V → Table K V
  insert k v [] = (k, v) ∷ []
  insert k v ((j, w) ∷ m) = if e.beq j k then (j, v) ∷ m else (j, w) ∷ insert k v m

  unfoldable pub remove : K → Table K V → Table K V
  remove k [] = []
  remove k ((j, v) ∷ m) = if e.beq j k then m else (j, v) ∷ remove k m

  -- The keys are distinct.
  abbrev pub IsMap : Table K V → Type 0
  IsMap [] = Unit {0}
  IsMap ((j, v) ∷ m) = (contains j m ≡ false) × IsMap m

module _ {ℓ κ} {K : Type ℓ} {V : Type κ} where
  unfoldable pub retain : (K → V → Bool) → Table K V → Table K V
  retain keep [] = []
  retain keep ((j, v) ∷ m) = if keep j v then (j, v) ∷ retain keep m else retain keep m

  pub length-retain : (keep : K → V → Bool) (m : Table K V) → length (retain keep m) ≤ length m
  unfolding retain
  length-retain keep [] = omega arith
  length-retain keep ((j, v) ∷ m) = ground (arith, length-retain keep m)

module _ {ℓ κ} {K : Type ℓ} {V : Type κ} ⦃e : Eq K⦄ where
  pub get-insert :
      (k j : K) (v : V) (m : Table K V)
      → get j (insert k v m) ≡ (if e.beq k j then some v else get j m)
  unfolding get insert
  get-insert k j v [] = refl
  get-insert k j v ((i, w) ∷ m) =
      ground (arith, e.beq_iff k j, e.beq_iff i k, e.beq_iff i j, get-insert k j v m)

  pub contains-insert :
      (k j : K) (v : V) (m : Table K V) → contains j (insert k v m) ≡ (e.beq k j || contains j m)
  unfolding contains insert
  contains-insert k j v [] = refl
  contains-insert k j v ((i, w) ∷ m) =
      ground (arith, e.beq_iff k j, e.beq_iff i k, e.beq_iff i j, contains-insert k j v m)

  pub insert-IsMap : (k : K) (v : V) (m : Table K V) → IsMap m → IsMap (insert k v m)
  unfolding insert contains
  insert-IsMap k v [] h = (refl, tt)
  insert-IsMap k v ((i, w) ∷ m) h =
      ground (arith, e.beq_iff i k, e.beq_iff k i, contains-insert k i v m, insert-IsMap k v m h.1)

  pub length-insert :
      (k : K) (v : V) (m : Table K V)
      → length (insert k v m) ≡ (if contains k m then length m else suc (length m))
  unfolding insert contains
  length-insert k v [] = refl
  length-insert k v ((i, w) ∷ m) = ground (arith, length-insert k v m)

  pub contains-get : (k : K) (m : Table K V) → get k m ≡ none → contains k m ≡ false
  unfolding get contains
  contains-get k [] h = refl
  contains-get k ((i, w) ∷ m) h = ground (arith, contains-get k m)

  pub get_absent : (k : K) (m : Table K V) → contains k m ≡ false → get k m ≡ none
  unfolding get contains
  get_absent k [] h = refl
  get_absent k ((i, w) ∷ m) h = ground (arith, get_absent k m)

  pub contains-some : (k : K) (v : V) (m : Table K V) → get k m ≡ some v → contains k m ≡ true
  unfolding get contains
  contains-some k v [] h = cc
  contains-some k v ((i, w) ∷ m) h = ground (arith, contains-some k v m)

  pub contains-remove_ne :
      (k j : K) (m : Table K V) → e.beq k j ≡ false → contains j (remove k m) ≡ contains j m
  unfolding contains remove
  contains-remove_ne k j [] h = refl
  contains-remove_ne k j ((i, w) ∷ m) h =
      ground (arith, e.beq_iff k j, e.beq_iff i k, e.beq_iff i j, contains-remove_ne k j m)

  pub contains-remove_absent :
      (k j : K) (m : Table K V) → contains j m ≡ false → contains j (remove k m) ≡ false
  unfolding contains remove
  contains-remove_absent k j [] h = refl
  contains-remove_absent k j ((i, w) ∷ m) h = ground (arith, contains-remove_absent k j m)

  pub get-remove :
      (k j : K) (m : Table K V)
      → IsMap m
      → get j (remove k m) ≡ (if e.beq k j then none else get j m)
  unfolding get remove contains
  get-remove k j [] h = ground arith
  get-remove k j ((i, w) ∷ m) h =
      ground
        (arith, e.beq_iff k j, e.beq_iff i k, e.beq_iff i j, get_absent k m, get-remove k j m h.1)

  pub remove-IsMap : (k : K) (m : Table K V) → IsMap m → IsMap (remove k m)
  unfolding remove
  remove-IsMap k [] h = tt
  remove-IsMap k ((i, w) ∷ m) h = ground (arith, contains-remove_absent k i m, remove-IsMap k m h.1)

  pub length-remove :
      (k : K) (m : Table K V) → contains k m ≡ true → length (remove k m) + 1 ≡ length m
  unfolding contains remove
  length-remove k [] h = cc
  length-remove k ((i, w) ∷ m) h = ground (arith, length-remove k m)

  pub contains-retain_absent :
      (keep : K → V → Bool) (j : K) (m : Table K V)
      → contains j m ≡ false
      → contains j (retain keep m) ≡ false
  unfolding contains retain
  contains-retain_absent keep j [] h = refl
  contains-retain_absent keep j ((i, w) ∷ m) h = ground (arith, contains-retain_absent keep j m)

  pub retain-IsMap : (keep : K → V → Bool) (m : Table K V) → IsMap m → IsMap (retain keep m)
  unfolding retain
  retain-IsMap keep [] h = tt
  retain-IsMap keep ((i, w) ∷ m) h =
      ground (arith, contains-retain_absent keep i m, retain-IsMap keep m h.1)
