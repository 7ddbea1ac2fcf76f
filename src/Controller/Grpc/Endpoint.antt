-- ===== src/Controller/Grpc/Endpoint.antt =====
-- Who may announce an endpoint, and what that writes.
use mathlib.Core.Path.{subst}
use zeronet.Prelude.{
  ℕ, ◌≡◌, ◌≢◌, refl, String, Bool, true, false, Option, some, none, List, arith, inl, inr, ◌⊎◌, ◌∙◌,
  ap, eq_iff, if◌then◌else◌,
}
use zeronet.Go.{Result, ok, err}
use zeronet.Controller.Types.{Peer, is_auth_expired}
use zeronet.Controller.Store.{Gorm, Has, at_id}
use zeronet.Controller.Channels.{Controller}
use zeronet.Controller.Grpc.{
  Status, caller, update_endpoint, validate_machine_id, internal, text, refuse,
}

-- The rows with the endpoint written to those with the id.
abbrev pub announced : ℕ → String → ℕ → List Peer → List Peer
announced now endpoint id ps =
    at_id id (λ (p : Peer). record p { endpoint = endpoint; updated_at = now }) ps

module _ (G : Gorm) where
  -- The row of the machine lets it announce an endpoint, which is not empty.
  pub MayAnnounce : ℕ → String → String → G.Db → Peer → Type 0
  MayAnnounce now machine endpoint d peer =
      Has peer (G.rows d)
      × (peer.machine_id ≡ machine)
      × (validate_machine_id machine ≡ true)
      × (peer.disabled ≡ false)
      × (peer.logged_in ≡ true)
      × (is_auth_expired now peer ≡ false)
      × (endpoint ≢ "")

  pub caller-MayAnnounce :
      (now : ℕ) (machine endpoint : String) (d : G.Db) (peer : Peer)
      → caller G now machine endpoint d ≡ ok peer
      → MayAnnounce now machine endpoint d peer
  unfolding caller MayAnnounce
  caller-MayAnnounce now machine endpoint d peer h = go (G.first_machine d machine) refl
    where
      go :
          (o : Option Peer)
          → G.first_machine d machine ≡ o
          → MayAnnounce now machine endpoint d peer
      go none u = ground arith
      go (some p) u =
          let same : p ≡ peer = ground arith in
          let (has, is) = G.first_machine-some d machine peer (u ∙ ap some same) in
          (
            has,
            is,
            ground arith,
            ground arith,
            ground arith,
            ground arith,
            λ e. ground (arith, (eq_iff endpoint "").1 e),
          )

  -- `UpdateEndpoint` either succeeds, and then the machine has a row that may announce an endpoint and
  -- the endpoint, with the time of the update, is all that changes in the rows of its id; or it
  -- refuses and no row changes.
  pub update_endpoint_lem :
      (now : ℕ) (machine endpoint : String) (c c' : Controller G) (r : Result Status (Unit {0}))
      → update_endpoint G now machine endpoint c ≡ (c', r)
      → ((peer : Peer) × (r ≡ ok tt)
          × MayAnnounce now machine endpoint c.db peer
          × (G.rows c'.db ≡ announced now endpoint peer.id (G.rows c.db)))
        ⊎ ((s : Status) × (r ≡ err s) × (G.rows c'.db ≡ G.rows c.db))
  unfolding update_endpoint
  update_endpoint_lem now machine endpoint c c' r h = go (caller G now machine endpoint c.db) refl
    where
      Result_of : Type 0
      Result_of =
          ((peer : Peer) × (r ≡ ok tt)
            × MayAnnounce now machine endpoint c.db peer
            × (G.rows c'.db ≡ announced now endpoint peer.id (G.rows c.db)))
          ⊎ ((s : Status) × (r ≡ err s) × (G.rows c'.db ≡ G.rows c.db))

      write :
          (peer : Peer)
          → caller G now machine endpoint c.db ≡ ok peer
          → (x : G.Db × Bool) → G.set_endpoint c.db now peer.id endpoint ≡ x
          → Result_of
      write peer u (d, w) v = rows w (v ∙ ap (λ z. (z, w)) (ground arith)) (ground arith)
        where
          written :
              (w : Bool)
              → r ≡ (if w then ok tt else refuse internal "failed to update endpoint")
              → G.rows c'.db
                ≡ (if w then announced now endpoint peer.id (G.rows c.db) else G.rows c.db)
              → Result_of
          written true e rows =
              inl (peer, e, caller-MayAnnounce now machine endpoint c.db peer u, rows)
          written false e rows =
              inr (record { code = internal; message = text "failed to update endpoint" }, e, rows)

          rows :
              (w : Bool)
              → G.set_endpoint c.db now peer.id endpoint ≡ (c'.db, w)
              → r ≡ (if w then ok tt else refuse internal "failed to update endpoint")
              → Result_of
          rows w v e = written w e (
              subst
                (λ (y : G.Db × Bool).
                  G.rows y.0
                  ≡ (if y.1 then announced now endpoint peer.id (G.rows c.db) else G.rows c.db))
                v (G.set_endpoint-rows c.db now peer.id endpoint))

      go : (x : Result Status Peer) → caller G now machine endpoint c.db ≡ x → Result_of
      go (err s) u = inr (s, ground arith, ground arith)
      go (ok peer) u = write peer u (G.set_endpoint c.db now peer.id endpoint) refl
