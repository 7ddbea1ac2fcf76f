-- ===== src/Controller/Server/Delete.antt =====
-- What deleting a peer leaves in the table.
use mathlib.Core.Path.{subst}
use zeronet.Prelude.{
  ℕ, ◌≡◌, ◌≢◌, refl, sym, Bool, true, false, Option, some, none, List, [], ◌∷◌, arith, All,
  Bool-cases, inl, inr, ◌==◌, if◌then◌else◌, ◌⊎◌,
}
use zeronet.Go.{done, ◌>>=◌, >>=-eq-done}
use zeronet.Controller.Types.{Peer}
use zeronet.Controller.Store.{Gorm, without_id}
use zeronet.Controller.Channels.{Controller}
use zeronet.Controller.Server.{Failure, remove, logout_peer, delete_peer, remove_logged_out}

without_id-All : (i : ℕ) (ps : List Peer) → All (λ (r : Peer). r.id ≢ i) (without_id i ps)
without_id-All i [] = tt
without_id-All i (p ∷ ps) = elim (Bool-cases (p.id == i)) [
  | inl e ↦ rw e (without_id-All i ps)
  | inr e ↦ rw e ((ground arith), without_id-All i ps)
]

module _ (G : Gorm) where
  Gone : ℕ → Controller G → Type 0
  Gone i c = All (λ (r : Peer). r.id ≢ i) (G.rows c.db)

  remove-Gone : (peer : Peer) (c c' : Controller G) → remove G peer c ≡ (c', none) → Gone peer.id c'
  unfolding Gone
  remove-Gone peer c c' h = go (G.delete c.db peer) refl
    where
      go : (x : G.Db × Bool) → G.delete c.db peer ≡ x → Gone peer.id c'
      go (d, false) u = ground arith
      go (d, true) u =
          let at : d ≡ c'.db = ground arith in
          let rows : G.rows d ≡ without_id peer.id (G.rows c.db) =
            subst
              (λ (y : G.Db × Bool).
                G.rows y.0 ≡ (if y.1 then without_id peer.id (G.rows c.db) else G.rows c.db))
              u (G.delete-rows c.db peer) in
          subst (λ z. All (λ (r : Peer). r.id ≢ peer.id) (G.rows z)) at
            (subst (All (λ (r : Peer). r.id ≢ peer.id)) (sym rows)
              (without_id-All peer.id (G.rows c.db)))

  -- After a deletion that reports no error, no row of the table has the id.
  pub delete_peer-rows :
      (now id : ℕ) (c c' : Controller G)
      → delete_peer G now id c ≡ done (c', none)
      → All (λ (r : Peer). r.id ≢ id) (G.rows c'.db)
  unfolding delete_peer Gone
  delete_peer-rows now id c c' h = go (G.first_id c.db id) refl
    where
      after :
          (peer : Peer) (x : Controller G × Option Failure)
          → remove_logged_out G peer x ≡ done (c', none)
          → Gone peer.id c'
      after peer (a, none) g = remove-Gone peer a c' (ground arith)
      after peer (a, some f) g = ground arith

      found :
          (peer : Peer)
          → G.first_id c.db id ≡ some peer
          → (peer.connected ≡ true) ⊎ (peer.connected ≡ false)
          → Gone peer.id c'
      found peer u (inr off) = remove-Gone peer c c' (ground arith)
      found peer u (inl on) =
          let called : (logout_peer G now peer c >>= remove_logged_out G peer) ≡ done (c', none) =
            ground arith in
          let (x, f, g) =
            >>=-eq-done (logout_peer G now peer c) (remove_logged_out G peer) called in
          after peer x g

      go : (o : Option Peer) → G.first_id c.db id ≡ o → All (λ (r : Peer). r.id ≢ id) (G.rows c'.db)
      go none u = ground arith
      go (some peer) u =
          let (_, same) = G.first_id-some c.db id peer u in
          subst (λ i. All (λ (r : Peer). r.id ≢ i) (G.rows c'.db)) same
            (found peer u (Bool-cases peer.connected))
