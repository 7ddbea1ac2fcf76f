-- ===== src/Prelude/Lists.antt =====
-- Lists measured and indexed by native numbers, under the library's names.
use Prim.Native.Nat.{ℕ, zero, suc, ◌+◌}
use mathlib.Core.Path.{◌≡◌, refl, ap}
use mathlib.Core.Logic.{◌≢◌}
use mathlib.Core.Option.{Option, none, some}
use mathlib.Core.List.{List, [], ◌∷◌, ◌++◌}
use native.Mathlib.Omega.{arith}

module _ {ℓ} {A : Type ℓ} where
  abbrev pub length : List A → ℕ
  length [] = 0
  length (x ∷ xs) = suc (length xs)

  abbrev pub take : ℕ → List A → List A
  take zero xs = []
  take (suc n) [] = []
  take (suc n) (x ∷ xs) = x ∷ take n xs

  abbrev pub drop : ℕ → List A → List A
  drop zero xs = xs
  drop (suc n) [] = []
  drop (suc n) (x ∷ xs) = drop n xs

  abbrev pub get_or : List A → ℕ → A → A
  get_or [] i d = d
  get_or (x ∷ xs) zero d = x
  get_or (x ∷ xs) (suc i) d = get_or xs i d

  pub length-append : (xs ys : List A) → length (xs ++ ys) ≡ length xs + length ys
  length-append [] ys = omega arith
  length-append (x ∷ xs) ys = omega (arith, length-append xs ys)

  -- A predicate on every entry, which computes to tuples.
  abbrev pub All {κ} : (A → Type κ) → List A → Type κ
  All P [] = Unit
  All P (x ∷ xs) = P x × All P xs

  pub All-append {κ} : (P : A → Type κ) (xs ys : List A) → All P xs → All P ys → All P (xs ++ ys)
  All-append P [] ys hx hy = hy
  All-append P (x ∷ xs) ys hx hy = (hx.0, All-append P xs ys hx.1 hy)

  pub take-append : (xs ys : List A) → take (length xs) (xs ++ ys) ≡ xs
  take-append [] ys = refl
  take-append (x ∷ xs) ys = ap (◌∷◌ x) (take-append xs ys)

  abbrev pub entry : List A → ℕ → Option A
  entry [] i = none
  entry (x ∷ xs) zero = some x
  entry (x ∷ xs) (suc i) = entry xs i

  abbrev pub change : ℕ → A → List A → List A
  change i y [] = []
  change zero y (x ∷ xs) = y ∷ xs
  change (suc i) y (x ∷ xs) = x ∷ change i y xs

  pub entry-change_same :
      (xs : List A) (i : ℕ) (x y : A) → entry xs i ≡ some x → entry (change i y xs) i ≡ some y
  entry-change_same [] i x y e = ground arith
  entry-change_same (z ∷ xs) zero x y e = refl
  entry-change_same (z ∷ xs) (suc i) x y e = entry-change_same xs i x y e

  pub entry-change_other :
      (xs : List A) (i j : ℕ) (y : A) → i ≢ j → entry (change i y xs) j ≡ entry xs j
  entry-change_other [] i j y d = refl
  entry-change_other (z ∷ xs) zero zero y d = absurd (d refl)
  entry-change_other (z ∷ xs) zero (suc j) y d = refl
  entry-change_other (z ∷ xs) (suc i) zero y d = refl
  entry-change_other (z ∷ xs) (suc i) (suc j) y d = entry-change_other xs i j y (λ e. d (ap suc e))
