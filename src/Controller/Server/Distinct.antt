-- ===== src/Controller/Server/Distinct.antt =====
-- What logging in, logging out and registering do to the distinct rows of the table.

use zeronet.Controller.Ipam.Free.{allocate_peer_ip-fresh}
use zeronet.Controller.Server.Register.{register_peer-Registered, registered, register_peer-refused}
use zeronet.Controller.Ipam.{Netip, Prefix, allocate_peer_ip, invalid}
use mathlib.Core.Path.{subst}
use zeronet.Prelude.{
  ℕ, ◌≡◌, refl, sym, Bool, true, false, Option, arith, Bool-cases, inl, inr, ◌⊎◌, String, ◌≢◌, some,
  All, ◌∙◌, ap,
}
use zeronet.Go.{done, Result, ok, err}
use zeronet.Controller.Types.{Peer}
use zeronet.Controller.Store.{Gorm, Has}
use zeronet.Controller.Store.Distinct.{
  DistinctRows, DistinctRows-at_id, DistinctRows-merge, DistinctRows-append,
}
use zeronet.Controller.Channels.{Controller}
use zeronet.Controller.Server.{
  LoginPeerRequest, Failure, process_peer_login, logout_peer, logged_in_as, register_peer,
}
use zeronet.Controller.Server.Rows.{updates-written, updates-failed, logout_peer-rows}

module _ (G : Gorm) where
  pub process_peer_login-Distinct :
      (now : ℕ) (old peer : Peer) (req : LoginPeerRequest) (c c' : Controller G) (p : Peer)
      (e : Option Failure)
      → process_peer_login G now peer req c ≡ (c', p, e)
      → Has old (G.rows c.db)
      → old.id ≡ peer.id
      → old.ip ≡ peer.ip
      → DistinctRows (G.rows c.db)
      → DistinctRows (G.rows c'.db)
  unfolding process_peer_login
  process_peer_login-Distinct now old peer req c c' p e h has id ip d =
      go (Bool-cases peer.disabled) (G.updates c.db now (logged_in_as now req peer)) refl
    where
      go :
          (peer.disabled ≡ true) ⊎ (peer.disabled ≡ false)
          → (x : G.Db × Bool) → G.updates c.db now (logged_in_as now req peer) ≡ x
          → DistinctRows (G.rows c'.db)
      go (inl t) x u = subst (λ z. DistinctRows (G.rows z)) (ground arith) d
      go (inr f) (a, false) u =
          let at : a ≡ c'.db = ground arith in
          subst (λ z. DistinctRows (G.rows z)) at
            (subst DistinctRows (sym (updates-failed G c.db a now (logged_in_as now req peer) u)) d)
      go (inr f) (a, true) u =
          let at : a ≡ c'.db = ground arith in
          subst (λ z. DistinctRows (G.rows z)) at
            (subst DistinctRows (sym (updates-written G c.db a now (logged_in_as now req peer) u))
              (DistinctRows-merge now (logged_in_as now req peer) old (G.rows c.db) has id ip d))

  pub logout_peer-Distinct :
      (now : ℕ) (peer : Peer) (c c' : Controller G) (e : Option Failure)
      → logout_peer G now peer c ≡ done (c', e)
      → DistinctRows (G.rows c.db)
      → DistinctRows (G.rows c'.db)
  logout_peer-Distinct now peer c c' e h d = elim (logout_peer-rows G now peer c c' e h) [
    | inl (_, rows) ↦ subst DistinctRows (sym rows) (
        DistinctRows-at_id peer.id (λ (p : Peer). record p { updated_at = now }) (G.rows c.db)
          (λ p. refl) (λ p h e. refl) d)
    | inr (_, rows) ↦ subst DistinctRows (sym rows) d
  ]

  module _ (I : Netip) (prefix_string : Prefix → String) where
    pub register_peer-Distinct :
        (now : ℕ) (prefix : Prefix) (req : LoginPeerRequest) (user : String) (c c' : Controller G)
        (r : Result Failure Peer)
        → register_peer G I prefix_string now prefix req user c ≡ (c', r)
        → allocate_peer_ip I G c.db prefix ≢ some (I.addr_string invalid)
        → DistinctRows (G.rows c.db)
        → DistinctRows (G.rows c'.db)
    register_peer-Distinct now prefix req user c c' (ok p) h v d =
        let (ip, reg) = register_peer-Registered G I prefix_string now prefix req user c c' p h in
        let (a, is, rows, fresh) = registered G I prefix_string now prefix req user p ip c c' reg in
        subst DistinctRows (sym rows) (
          DistinctRows-append (G.rows c.db) p fresh
            (subst (λ t. All (λ (q : Peer). q.ip ≢ t) (G.rows c.db)) (sym is)
              (allocate_peer_ip-fresh I G c.db prefix ip a (λ e. v (a ∙ ap some e))))
            d)
    register_peer-Distinct now prefix req user c c' (err f) h v d =
        subst DistinctRows
          (sym (register_peer-refused G I prefix_string now prefix req user c c' f h)) d
