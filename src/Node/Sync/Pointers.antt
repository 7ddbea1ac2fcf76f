-- ===== src/Node/Sync/Pointers.antt =====
-- The maps of a node where peers are added to its store.
use mathlib.Core.Path.{subst}
use zeronet.Prelude.{
  ℕ, ◌≤◌, ◌≡◌, refl, ◌∙◌, true, some, List, [], ◌∷◌, ◌++◌, length, false, Bool, Bool-cases, inl,
  inr,
}
use zeronet.Go.SyncMap.{Key, load, store, load-store, load-store_other}
use zeronet.Node.Noise.{Noise}
use zeronet.Node.Peer.State.{Peer}
use zeronet.Node.State.{peer_at}
use zeronet.Node.Contacts.Peers.{peer_at-last, peer_at-append}

module _ {N : Noise} {K : Type 0} ⦃e : Key K⦄ (f : Peer N → K) (base : ℕ) where
  -- The map leads from the key to a peer with it, at a place that is not before `base`.
  abbrev pub Points : List (K × ℕ) → List (Peer N) → K → Type 0
  Points mp ps k =
      (i : ℕ) × (q : Peer N) × (load k mp ≡ some i)
      × (peer_at ps i ≡ some q)
      × (f q ≡ k)
      × (base ≤ i)

  pub Points-new :
      (mp : List (K × ℕ)) (ps : List (Peer N)) (q : Peer N)
      → base ≤ length ps
      → Points (store (f q) (length ps) mp) (ps ++ q ∷ []) (f q)
  Points-new mp ps q h = (length ps, q, load-store (f q) (length ps) mp, peer_at-last ps q, refl, h)

  pub Points-store :
      (mp : List (K × ℕ)) (ps : List (Peer N)) (q : Peer N) (k : K)
      → base ≤ length ps
      → Points mp ps k
      → Points (store (f q) (length ps) mp) (ps ++ q ∷ []) k
  Points-store mp ps q k h (i, r, at, there, same, le) = elim (Bool-cases (e.same (f q) k)) [
    | inl s ↦
        subst (Points (store (f q) (length ps) mp) (ps ++ q ∷ [])) ((e.same_iff (f q) k).0 s)
          (Points-new mp ps q h)
    | inr s ↦ (
      i,
      r,
      load-store_other (length ps) mp (λ u. differ s ((e.same_iff (f q) k).1 u)) ∙ at,
      peer_at-append ps (q ∷ []) i r there,
      same,
      le,
    )
  ]
    where
      differ : {b : Bool} → b ≡ false → b ≡ true → ⊥
      differ s u = cc
