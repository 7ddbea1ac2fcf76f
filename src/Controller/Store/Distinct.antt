-- ===== src/Controller/Store/Distinct.antt =====
-- Tables whose rows differ in their ids and in their addresses.
use mathlib.Core.Path.{subst}
use zeronet.Prelude.{
  ℕ, ◌≡◌, ◌≢◌, refl, sym, ap, ◌∙◌, String, List, [], ◌∷◌, ◌++◌, map, ◌==◌, arith, All, Bool-cases,
  inl, inr, All-append,
}
use zeronet.Controller.Types.{Peer}
use zeronet.Controller.Store.{Has, at_id, merge, text_or-same}

abbrev pub Distinct {ℓ} : {K : Type ℓ} → List K → Type ℓ
Distinct [] = Unit
Distinct (x ∷ xs) = All (λ y. y ≢ x) xs × Distinct xs

Distinct-append {ℓ} :
    {K : Type ℓ} (xs : List K) (x : K) → Distinct xs → All (λ y. x ≢ y) xs → Distinct (xs ++ x ∷ [])
Distinct-append [] x d a = (tt, tt)
Distinct-append (y ∷ xs) x (n, d) (a, rest) =
    (All-append _ xs (x ∷ []) n (a, tt), Distinct-append xs x d rest)

abbrev pub ids : List Peer → List ℕ
ids ps = map (λ (p : Peer). p.id) ps

abbrev pub addresses : List Peer → List String
addresses ps = map (λ (p : Peer). p.ip) ps

unfoldable pub DistinctRows : List Peer → Type 0
DistinctRows ps = Distinct (ids ps) × Distinct (addresses ps)

Has-All {κ} : (P : ℕ → Type κ) (p : Peer) (ps : List Peer) → All P (ids ps) → Has p ps → P p.id
Has-All P p [] n h = elim h [ ]
Has-All P p (q ∷ ps) (a, rest) (inl e) = subst P (ap (λ (r : Peer). r.id) (sym e)) a
Has-All P p (q ∷ ps) (a, rest) (inr h) = Has-All P p ps rest h

pub one_row :
    (p q : Peer) (ps : List Peer) → Distinct (ids ps) → Has p ps → Has q ps → p.id ≡ q.id → p ≡ q
one_row p q [] d g h same = elim g [ ]
one_row p q (r ∷ ps) (n, d) (inl e) (inl f) same = e ∙ sym f
one_row p q (r ∷ ps) (n, d) (inl e) (inr g) same =
    absurd (Has-All (λ i. i ≢ r.id) q ps n g (sym same ∙ ap (λ (s : Peer). s.id) e))
one_row p q (r ∷ ps) (n, d) (inr h) (inl f) same =
    absurd (Has-All (λ i. i ≢ r.id) p ps n h (same ∙ ap (λ (s : Peer). s.id) f))
one_row p q (r ∷ ps) (n, d) (inr h) (inr g) same = one_row p q ps d h g same

ids-at_id :
    (i : ℕ) (f : Peer → Peer) (ps : List Peer)
    → ((p : Peer) → (f p).id ≡ p.id)
    → ids (at_id i f ps) ≡ ids ps
ids-at_id i f [] h = refl
ids-at_id i f (p ∷ ps) h = elim (Bool-cases (p.id == i)) [
  | inl e ↦ rw e (λ k. h p k ∷ ids-at_id i f ps h k)
  | inr e ↦ rw e (λ k. p.id ∷ ids-at_id i f ps h k)
]

addresses-at_id :
    (i : ℕ) (f : Peer → Peer) (ps : List Peer)
    → ((p : Peer) → Has p ps → p.id ≡ i → (f p).ip ≡ p.ip)
    → addresses (at_id i f ps) ≡ addresses ps
addresses-at_id i f [] h = refl
addresses-at_id i f (p ∷ ps) h =
    let rest = addresses-at_id i f ps (λ q g. h q (inr g)) in
    elim (Bool-cases (p.id == i)) [
      | inl e ↦ rw e (λ k. h p (inl refl) (ground arith) k ∷ rest k)
      | inr e ↦ rw e (λ k. p.ip ∷ rest k)
    ]

pub DistinctRows-at_id :
    (i : ℕ) (f : Peer → Peer) (ps : List Peer)
    → ((p : Peer) → (f p).id ≡ p.id)
    → ((p : Peer) → Has p ps → p.id ≡ i → (f p).ip ≡ p.ip)
    → DistinctRows ps
    → DistinctRows (at_id i f ps)
unfolding DistinctRows
DistinctRows-at_id i f ps g h (a, b) =
    (subst Distinct (sym (ids-at_id i f ps g)) a, subst Distinct (sym (addresses-at_id i f ps h)) b)

-- A login writes the address that the row has.
pub DistinctRows-merge :
    (now : ℕ) (new old : Peer) (ps : List Peer)
    → Has old ps
    → old.id ≡ new.id
    → old.ip ≡ new.ip
    → DistinctRows ps
    → DistinctRows (at_id new.id (merge now new) ps)
unfolding DistinctRows
DistinctRows-merge now new old ps has id ip d =
    DistinctRows-at_id new.id (merge now new) ps (λ p. refl)
      (λ p h e.
        let is : p ≡ old = one_row p old ps d.0 h has (e ∙ sym id) in
        let at : p.ip ≡ new.ip = ap (λ (r : Peer). r.ip) is ∙ ip in
        text_or-same new.ip p.ip at ∙ sym at)
      d

pub DistinctRows-append :
    (ps : List Peer) (p : Peer)
    → All (λ (r : Peer). p.id ≢ r.id) ps
    → All (λ (r : Peer). r.ip ≢ p.ip) ps
    → DistinctRows ps
    → DistinctRows (ps ++ p ∷ [])
unfolding DistinctRows
DistinctRows-append ps p i a (b, c) = (
  subst Distinct (sym (map-append (λ (r : Peer). r.id) ps p))
      (Distinct-append (ids ps) p.id b (in_ids ps i)),
  subst Distinct (sym (map-append (λ (r : Peer). r.ip) ps p))
      (Distinct-append (addresses ps) p.ip c (in_addresses ps a)),
)
  where
    map-append :
        {K : Type 0} (f : Peer → K) (ps : List Peer) (p : Peer)
        → map f (ps ++ p ∷ []) ≡ map f ps ++ f p ∷ []
    map-append f [] p = refl
    map-append f (q ∷ ps) p = ap (λ xs. f q ∷ xs) (map-append f ps p)

    in_ids : (ps : List Peer) → All (λ (r : Peer). p.id ≢ r.id) ps → All (λ i. p.id ≢ i) (ids ps)
    in_ids [] h = tt
    in_ids (q ∷ ps) (h, hs) = (h, in_ids ps hs)

    in_addresses :
        (ps : List Peer) → All (λ (r : Peer). r.ip ≢ p.ip) ps → All (λ i. p.ip ≢ i) (addresses ps)
    in_addresses [] h = tt
    in_addresses (q ∷ ps) (h, hs) = (λ e. h (sym e), in_addresses ps hs)
