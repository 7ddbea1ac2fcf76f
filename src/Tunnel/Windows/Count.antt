-- ===== src/Tunnel/Windows/Count.antt =====
-- Sums over a list of what a weight gives to each entry, and how a change of one entry changes them.
use zeronet.Prelude.{entry, change, ℕ, zero, suc, ◌+◌, ◌≤◌, ◌≡◌, List, [], ◌∷◌, some, arith}

module _ {ℓ} {A : Type ℓ} where
  module _ (w : A → ℕ) where
    unfoldable pub sum_of : List A → ℕ
    sum_of [] = 0
    sum_of (x ∷ xs) = w x + sum_of xs

    pub sum_of-change :
        (xs : List A) (i : ℕ) (x y : A)
        → entry xs i ≡ some x
        → sum_of (change i y xs) + w x ≡ sum_of xs + w y
    unfolding sum_of
    sum_of-change [] i x y e = ground arith
    sum_of-change (z ∷ xs) zero x y e = ground arith
    sum_of-change (z ∷ xs) (suc i) x y e = omega (arith, sum_of-change xs i x y e)

    pub le-sum_of : (xs : List A) (i : ℕ) (x : A) → entry xs i ≡ some x → w x ≤ sum_of xs
    unfolding sum_of
    le-sum_of [] i x e = ground arith
    le-sum_of (z ∷ xs) zero x e = ground arith
    le-sum_of (z ∷ xs) (suc i) x e = omega (arith, le-sum_of xs i x e)

  pub sum_of-le : (w v : A → ℕ) → ((x : A) → w x ≤ v x) → (xs : List A) → sum_of w xs ≤ sum_of v xs
  unfolding sum_of
  sum_of-le w v h [] = omega arith
  sum_of-le w v h (x ∷ xs) = omega (arith, h x, sum_of-le w v h xs)
