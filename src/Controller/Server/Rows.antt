-- ===== src/Controller/Server/Rows.antt =====
-- What logging in, logging out and registering do to the table of peers.
use mathlib.Core.Path.{subst}
use zeronet.Prelude.{
  ℕ, ◌≡◌, refl, sym, ap, Bool, true, false, Option, some, none, List, [], ◌∷◌, ◌++◌, ◌==◌,
  if◌then◌else◌, arith, inl, inr, ◌⊎◌, Bool-cases,
}
use zeronet.Go.{done, >>=-eq-done}
use zeronet.Controller.Types.{Peer}
use zeronet.Controller.Store.{Gorm, Has, merge, at_id}
use zeronet.Controller.Channels.{Controller, peer_forced_logout_event}
use zeronet.Controller.Server.{
  LoginPeerRequest, Failure, database, empty_peer, logged_in_as, process_peer_login, logout_peer,
  write_logout,
}

Has-at_id :
    (p : Peer) (i : ℕ) (f : Peer → Peer) (ps : List Peer)
    → p.id ≡ i
    → Has p ps
    → Has (f p) (at_id i f ps)
Has-at_id p i f [] same h = h
Has-at_id p i f (q ∷ ps) same (inl e) = elim (Bool-cases (q.id == i)) [
  | inl t ↦ rw t (inl (ap f e))
  | inr differ ↦ ground (arith, ap (λ (r : Peer). r.id) e)
]
Has-at_id p i f (q ∷ ps) same (inr h) = inr (Has-at_id p i f ps same h)

pub Has-append : (p : Peer) (ps : List Peer) → Has p (ps ++ p ∷ [])
Has-append p [] = inl refl
Has-append p (q ∷ ps) = inr (Has-append p ps)

module _ (G : Gorm) where
  pub updates-written :
      (d d' : G.Db) (now : ℕ) (p : Peer)
      → G.updates d now p ≡ (d', true)
      → G.rows d' ≡ at_id p.id (merge now p) (G.rows d)
  updates-written d d' now p e =
      subst
        (λ (x : G.Db × Bool).
          G.rows x.0 ≡ (if x.1 then at_id p.id (merge now p) (G.rows d) else G.rows d))
        e (G.updates-rows d now p)

  pub updates-failed :
      (d d' : G.Db) (now : ℕ) (p : Peer) → G.updates d now p ≡ (d', false) → G.rows d' ≡ G.rows d
  updates-failed d d' now p e =
      subst
        (λ (x : G.Db × Bool).
          G.rows x.0 ≡ (if x.1 then at_id p.id (merge now p) (G.rows d) else G.rows d))
        e (G.updates-rows d now p)

  pub process_peer_login-Has :
      (now : ℕ) (old peer p : Peer) (req : LoginPeerRequest) (c c' : Controller G)
      → process_peer_login G now peer req c ≡ (c', p, none)
      → old.id ≡ peer.id
      → Has old (G.rows c.db)
      → (peer.disabled ≡ false)
        × (p ≡ logged_in_as now req peer)
        × Has (merge now p old) (G.rows c'.db)
  unfolding process_peer_login
  process_peer_login-Has now old peer p req c c' h id has =
      let off : peer.disabled ≡ false = ground arith in
      (off, ground arith, go off (G.updates c.db now (logged_in_as now req peer)) refl)
    where
      go :
          peer.disabled ≡ false
          → (x : G.Db × Bool) → G.updates c.db now (logged_in_as now req peer) ≡ x
          → Has (merge now p old) (G.rows c'.db)
      go off (d, false) u = ground arith
      go off (d, true) u =
          let same : logged_in_as now req peer ≡ p = ground arith in
          let at : d ≡ c'.db = ground arith in
          subst (λ q. Has (merge now q old) (G.rows c'.db)) same
            (subst (λ x. Has (merge now (logged_in_as now req peer) old) (G.rows x)) at
              (subst (Has (merge now (logged_in_as now req peer) old))
                (sym (updates-written c.db d now (logged_in_as now req peer) u))
                (Has-at_id old peer.id (merge now (logged_in_as now req peer)) (G.rows c.db) id
                  has)))

  peer_forced_logout_event-db :
      (c c' : Controller G) (id : ℕ) → peer_forced_logout_event G id c ≡ done c' → c'.db ≡ c.db
  unfolding peer_forced_logout_event
  peer_forced_logout_event-db c c' id h = ground arith

  -- What an update with nothing but the id writes.
  abbrev touched : ℕ → ℕ → List Peer → List Peer
  touched now id ps = at_id id (λ p. record p { updated_at = now }) ps

  abbrev logged_out : ℕ → Peer
  logged_out id = record empty_peer { id = id; logged_in = false; connected = false }

  -- A logout whose update succeeds leaves the peer's row logged in and connected if it was: the row
  -- changes in nothing but the time of its update. When the update fails, no row changes.
  pub logout_peer-rows :
      (now : ℕ) (peer : Peer) (c c' : Controller G) (e : Option Failure)
      → logout_peer G now peer c ≡ done (c', e)
      → ((e ≡ none)
          × (G.rows c'.db
              ≡ at_id peer.id (λ (p : Peer). record p { updated_at = now }) (G.rows c.db)))
        ⊎ ((e ≡ some database) × (G.rows c'.db ≡ G.rows c.db))
  unfolding logout_peer
  logout_peer-rows now peer c c' e h =
      let (a, f, g) = >>=-eq-done (peer_forced_logout_event G peer.id c) _ h in
      subst
        (λ (d : G.Db).
          ((e ≡ none) × (G.rows c'.db ≡ touched now peer.id (G.rows d)))
          ⊎ ((e ≡ some database) × (G.rows c'.db ≡ G.rows d)))
        (peer_forced_logout_event-db c a peer.id f)
        (go a (G.updates a.db now (logged_out peer.id)) refl g)
    where
      go :
          (a : Controller G) (x : G.Db × Bool)
          → G.updates a.db now (logged_out peer.id) ≡ x
          → done (write_logout G now peer.id a) ≡ done (c', e)
          → ((e ≡ none) × (G.rows c'.db ≡ touched now peer.id (G.rows a.db)))
            ⊎ ((e ≡ some database) × (G.rows c'.db ≡ G.rows a.db))
      go a (d, false) u g =
          let at : d ≡ c'.db = ground arith in
          inr (
            ground arith,
            subst (λ z. G.rows z ≡ G.rows a.db) at
                (updates-failed a.db d now (logged_out peer.id) u),
          )
      go a (d, true) u g =
          let at : d ≡ c'.db = ground arith in
          inl (
            ground arith,
            subst (λ z. G.rows z ≡ touched now peer.id (G.rows a.db)) at
                (updates-written a.db d now (logged_out peer.id) u),
          )
