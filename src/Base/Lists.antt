-- ===== src/Base/Lists.antt =====
-- Lists measured, indexed and sliced by native numbers, under the library's names.
use Prim.Native.Nat.{ℕ, zero, suc, ◌+◌, ◌-◌, ◌≤◌, ◌<◌, min}
use mathlib.Core.Path.{◌≡◌, refl, ap, ◌∙◌}
use mathlib.Core.List.{List, [], ◌∷◌, ◌++◌}
use native.Mathlib.Omega.{arith}

module _ {ℓ} {A : Type ℓ} where
  abbrev pub length : List A → ℕ
  length [] = 0
  length (x ∷ xs) = suc (length xs)

  abbrev pub get_or : List A → ℕ → A → A
  get_or [] i d = d
  get_or (x ∷ xs) zero d = x
  get_or (x ∷ xs) (suc i) d = get_or xs i d

  -- A write out of bounds changes nothing.
  abbrev pub set : List A → ℕ → A → List A
  set [] i v = []
  set (x ∷ xs) zero v = v ∷ xs
  set (x ∷ xs) (suc i) v = x ∷ set xs i v

  unfoldable pub take : ℕ → List A → List A
  take zero xs = []
  take (suc n) [] = []
  take (suc n) (x ∷ xs) = x ∷ take n xs

  unfoldable pub drop : ℕ → List A → List A
  drop zero xs = xs
  drop (suc n) [] = []
  drop (suc n) (x ∷ xs) = drop n xs

  abbrev pub replicate : ℕ → A → List A
  replicate zero a = []
  replicate (suc n) a = a ∷ replicate n a

  -- `xs[lo..hi]`, for `lo ≤ hi ≤ length xs`.
  unfoldable pub slice : List A → ℕ → ℕ → List A
  slice xs lo hi = take (hi - lo) (drop lo xs)

  -- A statement of every element.
  abbrev pub All {κ} : (A → Type κ) → List A → Type κ
  All P [] = Unit {κ}
  All P (x ∷ xs) = P x × All P xs

  pub length-append : (xs ys : List A) → length (xs ++ ys) ≡ length xs + length ys
  length-append [] ys = omega arith
  length-append (x ∷ xs) ys = omega (arith, length-append xs ys)

module _ {ℓ} {A : Type ℓ} where
  pub length-take : (n : ℕ) (xs : List A) → length (take n xs) ≡ min n (length xs)
  unfolding take
  length-take zero xs = omega arith
  length-take (suc n) [] = omega arith
  length-take (suc n) (x ∷ xs) = omega (arith, length-take n xs)

  pub length-drop : (n : ℕ) (xs : List A) → length (drop n xs) ≡ length xs - n
  unfolding drop
  length-drop zero xs = omega arith
  length-drop (suc n) [] = omega arith
  length-drop (suc n) (x ∷ xs) = omega (arith, length-drop n xs)

  pub take-append : (n : ℕ) (xs ys : List A) → n ≤ length xs → take n (xs ++ ys) ≡ take n xs
  unfolding take
  take-append zero xs ys h = refl
  take-append (suc n) [] ys h = absurd (omega arith)
  take-append (suc n) (x ∷ xs) ys h = ap (◌∷◌ x) (take-append n xs ys (omega arith))

  pub drop-append : (n : ℕ) (xs ys : List A) → n ≤ length xs → drop n (xs ++ ys) ≡ drop n xs ++ ys
  unfolding drop
  drop-append zero xs ys h = refl
  drop-append (suc n) [] ys h = absurd (omega arith)
  drop-append (suc n) (x ∷ xs) ys h = drop-append n xs ys (omega arith)

  pub take-append_exact : (n : ℕ) (xs ys : List A) → length xs ≡ n → take n (xs ++ ys) ≡ xs
  unfolding take
  take-append_exact zero [] ys h = refl
  take-append_exact zero (x ∷ xs) ys h = absurd (omega arith)
  take-append_exact (suc n) [] ys h = absurd (omega arith)
  take-append_exact (suc n) (x ∷ xs) ys h = ap (◌∷◌ x) (take-append_exact n xs ys (omega arith))

  pub drop-append_exact : (n : ℕ) (xs ys : List A) → length xs ≡ n → drop n (xs ++ ys) ≡ ys
  unfolding drop
  drop-append_exact zero [] ys h = refl
  drop-append_exact zero (x ∷ xs) ys h = absurd (omega arith)
  drop-append_exact (suc n) [] ys h = absurd (omega arith)
  drop-append_exact (suc n) (x ∷ xs) ys h = drop-append_exact n xs ys (omega arith)

  -- More elements behind do not change a slice in range.
  pub slice-append :
      (xs ys : List A) (lo hi : ℕ)
      → lo ≤ hi
      → hi ≤ length xs
      → slice (xs ++ ys) lo hi ≡ slice xs lo hi
  unfolding slice
  slice-append xs ys lo hi h k =
      rw (drop-append lo xs ys (omega arith))
        (take-append (hi - lo) (drop lo xs) ys (omega (arith, length-drop lo xs)))

  -- The slice that a middle part fills.
  pub slice_middle :
      (xs ys zs : List A) (lo hi : ℕ)
      → length xs ≡ lo
      → lo + length ys ≡ hi
      → slice (xs ++ (ys ++ zs)) lo hi ≡ ys
  unfolding slice
  slice_middle xs ys zs lo hi h k =
      rw (drop-append_exact lo xs (ys ++ zs) h) (take-append_exact (hi - lo) ys zs (omega arith))

  pub length-slice :
      (xs : List A) (lo hi : ℕ) → lo ≤ hi → hi ≤ length xs → length (slice xs lo hi) ≡ hi - lo
  unfolding slice
  length-slice xs lo hi h k = omega (arith, length-take (hi - lo) (drop lo xs), length-drop lo xs)

  pub length-set : (xs : List A) (i : ℕ) (v : A) → length (set xs i v) ≡ length xs
  length-set [] i v = refl
  length-set (x ∷ xs) zero v = refl
  length-set (x ∷ xs) (suc i) v = ap suc (length-set xs i v)

  pub length-replicate : (n : ℕ) (a : A) → length (replicate n a) ≡ n
  length-replicate zero a = refl
  length-replicate (suc n) a = ap suc (length-replicate n a)

  pub get_or-append :
      (xs ys : List A) (i : ℕ) (d : A) → i < length xs → get_or (xs ++ ys) i d ≡ get_or xs i d
  get_or-append [] ys i d h = absurd (omega arith)
  get_or-append (x ∷ xs) ys zero d h = refl
  get_or-append (x ∷ xs) ys (suc i) d h = get_or-append xs ys i d (omega arith)

  pub get_or_middle :
      (xs : List A) (y : A) (ys : List A) (n : ℕ) (d : A)
      → length xs ≡ n
      → get_or (xs ++ (y ∷ ys)) n d ≡ y
  get_or_middle [] y ys zero d h = refl
  get_or_middle [] y ys (suc n) d h = absurd (omega arith)
  get_or_middle (x ∷ xs) y ys zero d h = absurd (omega arith)
  get_or_middle (x ∷ xs) y ys (suc n) d h = get_or_middle xs y ys n d (omega arith)

  pub take-append-drop : (n : ℕ) (xs : List A) → take n xs ++ drop n xs ≡ xs
  unfolding take drop
  take-append-drop zero xs = refl
  take-append-drop (suc n) [] = refl
  take-append-drop (suc n) (x ∷ xs) = rw (take-append-drop n xs)

  take-nil : (n : ℕ) → take {A = A} n [] ≡ []
  unfolding take
  take-nil zero = refl
  take-nil (suc n) = refl

  take_split : (n m k : ℕ) (xs : List A) → k ≡ n + m → take n xs ++ take m (drop n xs) ≡ take k xs
  unfolding take drop
  take_split zero m k xs h = ap (λ j. take j xs) (omega arith)
  take_split (suc n) m zero xs h = absurd (omega arith)
  take_split (suc n) m (suc k) [] h = take-nil m
  take_split (suc n) m (suc k) (x ∷ xs) h = ap (◌∷◌ x) (take_split n m k xs (omega arith))

  slice_zero : (n : ℕ) (xs : List A) → slice xs 0 n ≡ take n xs
  unfolding slice drop
  slice_zero n xs = ap (λ k. take k xs) (omega arith)

  pub take_all : (xs : List A) → take (length xs) xs ≡ xs
  unfolding take
  take_all [] = refl
  take_all (x ∷ xs) = ap (◌∷◌ x) (take_all xs)

  -- Two neighbouring slices are one.
  pub slice_join : (n m : ℕ) (xs : List A) → n ≤ m → slice xs 0 n ++ slice xs n m ≡ slice xs 0 m
  slice_join n m xs h =
      rw (slice_zero n xs, slice_zero m xs)
        (unfold slice in take_split n (m - n) m xs (omega arith))

  pub slice_all : (xs : List A) → slice xs 0 (length xs) ≡ xs
  slice_all xs = slice_zero (length xs) xs ∙ take_all xs
