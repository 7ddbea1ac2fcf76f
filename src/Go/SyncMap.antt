-- ===== src/Go/SyncMap.antt =====
-- `sync.Map`, as a list of its entries, each key at most once. Keys are compared by `==`.
use zeronet.Prelude.{
  ℕ, ◌≡◌, String, Bool, true, Option, some, none, List, [], ◌∷◌, ◌↔◌, ◌==◌, str_eq, eq_iff, arith,
  if◌then◌else◌, ◌≢◌, Bool-cases, refl, false, inl, inr, sym, ◌∙◌,
}

pub record Key {ℓ} (K : Type ℓ) : Type ℓ where
  pub same : K → K → Bool
  pub same_iff : (k l : K) → (same k l ≡ true) ↔ (k ≡ l)

pub same_number : (m n : ℕ) → (m == n ≡ true) ↔ (m ≡ n)
same_number m n = ground arith

instance abbrev pub nat_key : Key ℕ
nat_key = record { same = λ m n. m == n; same_iff = same_number }

instance abbrev pub string_key : Key String
string_key = record { same = str_eq; same_iff = eq_iff }

module _ {ℓ} {K : Type ℓ} ⦃e : Key K⦄ where
  same-differ : {k l : K} → k ≢ l → e.same k l ≡ false
  same-differ {k} {l} d = elim (Bool-cases (e.same k l)) [
    | inl h ↦ absurd (d ((e.same_iff k l).0 h))
    | inr h ↦ h
  ]

module _ {ℓ κ} {K : Type ℓ} {V : Type κ} ⦃e : Key K⦄ where
  unfoldable pub load : K → List (K × V) → Option V
  load k [] = none
  load k ((l, v) ∷ m) = let rest = load k m in if e.same l k then some v else rest

  unfoldable pub delete : K → List (K × V) → List (K × V)
  delete k [] = []
  delete k ((l, v) ∷ m) = let rest = delete k m in if e.same l k then rest else (l, v) ∷ rest

  unfoldable pub store : K → V → List (K × V) → List (K × V)
  store k v m = (k, v) ∷ delete k m

  pub load-delete : (k : K) (m : List (K × V)) → load k (delete k m) ≡ none
  unfolding delete load
  load-delete k [] = refl
  load-delete k ((l, v) ∷ m) = elim (Bool-cases (e.same l k)) [
    | inl h ↦ rw h (load-delete k m)
    | inr h ↦ rw h (rw h (load-delete k m))
  ]

  pub load-delete_other : {k l : K} (m : List (K × V)) → k ≢ l → load l (delete k m) ≡ load l m
  unfolding delete load
  load-delete_other [] d = refl
  load-delete_other {k} {l} ((n, v) ∷ m) d = elim (Bool-cases (e.same n k)) [
    | inl h ↦
        let shut : e.same n l ≡ false = same-differ λ s. d (sym ((e.same_iff n k).0 h) ∙ s) in
        rw (h, shut) (load-delete_other m d)
    | inr h ↦ rw (h, load-delete_other m d) refl
  ]

  pub load-store : (k : K) (v : V) (m : List (K × V)) → load k (store k v m) ≡ some v
  unfolding store load
  load-store k v m = rw ((e.same_iff k k).1 refl) refl

  pub load-store_other :
      {k l : K} (v : V) (m : List (K × V)) → k ≢ l → load l (store k v m) ≡ load l m
  unfolding store load
  load-store_other v m d = rw (same-differ d) (load-delete_other m d)
