-- ===== src/Controller/Grpc/Distinct.antt =====
-- No two rows of the table get one id or one address by logins.
use zeronet.Controller.Auth.{Idp, Cache, validate_access_token}
use zeronet.Controller.Ipam.{Netip, Prefix, allocate_peer_ip, invalid}
use mathlib.Core.Path.{subst}
use zeronet.Prelude.{
  ℕ, ◌≡◌, refl, true, false, Option, arith, Bool-cases, inl, inr, ◌⊎◌, String, ◌≢◌, some, none,
  str_eq,
}
use zeronet.Go.{done, Result, ok, err, Outcome, panics, blocks}
use zeronet.Controller.Types.{Peer, update_auth, PeerConfig, is_auth_expired}
use zeronet.Controller.Store.{Gorm, Has}
use zeronet.Controller.Store.Distinct.{DistinctRows}
use zeronet.Controller.Channels.{Controller}
use zeronet.Controller.Server.{
  LoginPeerRequest, Failure, process_peer_login, logout_peer, register_peer,
}
use zeronet.Controller.Grpc.{
  login_known, login_expired, login_new, login_peer, GrpcServer, update_auth, Status, PeerConfig,
  validate_machine_id, is_auth_expired, Outcome,
}
use zeronet.Controller.Server.Distinct.{
  process_peer_login-Distinct, logout_peer-Distinct, register_peer-Distinct,
}

module _ (G : Gorm) (P : Idp) (I : Netip) (prefix_string : Prefix → String) where
  login_known-Distinct :
      (now : ℕ) (old peer : Peer) (req : LoginPeerRequest) (s s' : GrpcServer G P I prefix_string)
      (r : Result Status PeerConfig)
      → login_known G P I prefix_string now req peer s ≡ (s', r)
      → Has old (G.rows s.controller.db)
      → old.id ≡ peer.id
      → old.ip ≡ peer.ip
      → DistinctRows (G.rows s.controller.db)
      → DistinctRows (G.rows s'.controller.db)
  unfolding login_known
  login_known-Distinct now old peer req s s' r h has id ip d =
      go (process_peer_login G now peer req s.controller) refl
    where
      go :
          (x : Controller G × Peer × Option Failure)
          → process_peer_login G now peer req s.controller ≡ x
          → DistinctRows (G.rows s'.controller.db)
      go (c, p, e) u =
          let at : c ≡ s'.controller = ground arith in
          subst (λ (z : Controller G). DistinctRows (G.rows z.db)) at
            (process_peer_login-Distinct G now old peer req s.controller c p e u has id ip d)

  login_new-Distinct :
      (now : ℕ) (req : LoginPeerRequest) (s s' : GrpcServer G P I prefix_string)
      (r : Result Status PeerConfig)
      → login_new G P I prefix_string now req s ≡ (s', r)
      → allocate_peer_ip I G s.controller.db s.prefix ≢ some (I.addr_string invalid)
      → DistinctRows (G.rows s.controller.db)
      → DistinctRows (G.rows s'.controller.db)
  unfolding login_new
  login_new-Distinct now req s s' r h v d =
      go (validate_access_token P s.audience s.cache req.access_token) refl
    where
      go :
          (x : Cache × Result String String)
          → validate_access_token P s.audience s.cache req.access_token ≡ x
          → DistinctRows (G.rows s'.controller.db)
      go (k, err e) u =
          let at : s.controller ≡ s'.controller = ground arith in
          subst (λ (z : Controller G). DistinctRows (G.rows z.db)) at d
      go (k, ok user) u =
          added (register_peer G I prefix_string now s.prefix req user s.controller) refl
        where
          added :
              (x : Controller G × Result Failure Peer)
              → register_peer G I prefix_string now s.prefix req user s.controller ≡ x
              → DistinctRows (G.rows s'.controller.db)
          added (c, q) w =
              let at : c ≡ s'.controller = ground arith in
              subst (λ (z : Controller G). DistinctRows (G.rows z.db)) at
                (register_peer-Distinct G I prefix_string now s.prefix req user s.controller c q w v
                  d)

  login_expired-Distinct :
      (now : ℕ) (req : LoginPeerRequest) (peer : Peer) (s s' : GrpcServer G P I prefix_string)
      (r : Result Status PeerConfig)
      → login_expired G P I prefix_string now req peer s ≡ done (s', r)
      → Has peer (G.rows s.controller.db)
      → DistinctRows (G.rows s.controller.db)
      → DistinctRows (G.rows s'.controller.db)
  unfolding login_expired update_auth
  login_expired-Distinct now req peer s s' r h has d =
      go (validate_access_token P s.audience s.cache req.access_token) refl
    where
      go :
          (x : Cache × Result String String)
          → validate_access_token P s.audience s.cache req.access_token ≡ x
          → DistinctRows (G.rows s'.controller.db)
      go (k, err e) u = out (logout_peer G now peer s.controller) refl
        where
          out :
              (o : Outcome (Controller G × Option Failure))
              → logout_peer G now peer s.controller ≡ o
              → DistinctRows (G.rows s'.controller.db)
          out (done (c, f)) w = elim (Bool-cases peer.logged_in) [
            | inl on ↦
                let at : c ≡ s'.controller = ground arith in
                subst (λ (z : Controller G). DistinctRows (G.rows z.db)) at
                  (logout_peer-Distinct G now peer s.controller c f w d)
            | inr off ↦
                let at : s.controller ≡ s'.controller = ground arith in
                subst (λ (z : Controller G). DistinctRows (G.rows z.db)) at d
          ]
          out (panics x) w =
              let at : s.controller ≡ s'.controller = ground arith in
              subst (λ (z : Controller G). DistinctRows (G.rows z.db)) at d
          out blocks w =
              let at : s.controller ≡ s'.controller = ground arith in
              subst (λ (z : Controller G). DistinctRows (G.rows z.db)) at d
      go (k, ok user) u = elim (Bool-cases (str_eq peer.user user)) [
        | inl same ↦
            login_known-Distinct now peer (update_auth now peer) req (record s { cache = k }) s' r
              (ground arith) has refl refl d
        | inr differ ↦
            let at : s.controller ≡ s'.controller = ground arith in
            subst (λ (z : Controller G). DistinctRows (G.rows z.db)) at d
      ]

  -- Whatever a login comes to, no two rows of the table have one id or one address afterwards if
  -- none had before, if the allocator would not give the zero address to a new peer.
  pub login_peer-DistinctRows :
      (now : ℕ) (req : LoginPeerRequest) (s s' : GrpcServer G P I prefix_string)
      (r : Result Status PeerConfig)
      → login_peer G P I prefix_string now req s ≡ done (s', r)
      → allocate_peer_ip I G s.controller.db s.prefix ≢ some (I.addr_string invalid)
      → DistinctRows (G.rows s.controller.db)
      → DistinctRows (G.rows s'.controller.db)
  unfolding login_peer
  login_peer-DistinctRows now req s s' r h v d =
      elim (Bool-cases (validate_machine_id req.machine_id)) [
        | inr bad ↦
            let at : s.controller ≡ s'.controller = ground arith in
            subst (λ (z : Controller G). DistinctRows (G.rows z.db)) at d
        | inl good ↦ go good (G.first_machine s.controller.db req.machine_id) refl
      ]
    where
      known :
          (peer : Peer)
          → validate_machine_id req.machine_id ≡ true
          → G.first_machine s.controller.db req.machine_id ≡ some peer
          → (peer.disabled ≡ true) ⊎ (peer.disabled ≡ false)
          → (is_auth_expired now peer ≡ true) ⊎ (is_auth_expired now peer ≡ false)
          → DistinctRows (G.rows s'.controller.db)
      known peer good u (inl off) x =
          let at : s.controller ≡ s'.controller = ground arith in
          subst (λ (z : Controller G). DistinctRows (G.rows z.db)) at d
      known peer good u (inr on) (inl old) =
          let (has, _) = G.first_machine-some s.controller.db req.machine_id peer u in
          login_expired-Distinct now req peer s s' r (ground arith) has d
      known peer good u (inr on) (inr live) =
          let (has, _) = G.first_machine-some s.controller.db req.machine_id peer u in
          login_known-Distinct now peer peer req s s' r (ground arith) has refl refl d

      go :
          validate_machine_id req.machine_id ≡ true
          → (o : Option Peer) → G.first_machine s.controller.db req.machine_id ≡ o
          → DistinctRows (G.rows s'.controller.db)
      go good none u = login_new-Distinct now req s s' r (ground arith) v d
      go good (some peer) u =
          known peer good u (Bool-cases peer.disabled) (Bool-cases (is_auth_expired now peer))
