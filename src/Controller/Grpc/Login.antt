-- ===== src/Controller/Grpc/Login.antt =====
-- Who is logged in by `LoginPeer`.
use mathlib.Core.Path.{subst}
use zeronet.Prelude.{
  ℕ, ◌≡◌, refl, sym, ap, ◌∙◌, String, true, false, Option, some, none, arith, inl, inr, ◌⊎◌,
  Bool-cases,
}
use zeronet.Go.{done, Result, ok, err}
use zeronet.Controller.Types.{Peer, PeerConfig, proto_config, is_auth_expired, update_auth}
use zeronet.Controller.Store.{Gorm, Has, merge, text_or-same}
use zeronet.Controller.Ipam.{Netip, Prefix}
use zeronet.Controller.Auth.{Idp, Cache, validate_access_token}
use zeronet.Controller.Channels.{Controller}
use zeronet.Controller.Server.{
  LoginPeerRequest, Failure, process_peer_login, register_peer, logged_in_as,
}
use zeronet.Controller.Server.Rows.{process_peer_login-Has}
use zeronet.Controller.Server.Register.{register_peer-Has}
use zeronet.Controller.Grpc.{GrpcServer, login_known, login_expired, login_new, login_peer}

module _ (G : Gorm) where
  -- The table has a row for the machine, logged in, not disabled and with an authentication that is in
  -- force, and the configuration is that row's.
  pub Admitted : ℕ → String → PeerConfig → G.Db → Type 0
  Admitted now machine cfg d =
      (p : Peer) × Has p (G.rows d)
      × (p.machine_id ≡ machine)
      × (p.disabled ≡ false)
      × (p.logged_in ≡ true)
      × (is_auth_expired now p ≡ false)
      × (proto_config p ≡ cfg)

  -- What the row of a peer becomes when it is logged in.
  merged-Admitted :
      (now : ℕ) (old peer : Peer) (req : LoginPeerRequest) (d : G.Db)
      → old.id ≡ peer.id
      → old.machine_id ≡ peer.machine_id
      → old.ip ≡ peer.ip
      → old.prefix ≡ peer.prefix
      → old.disabled ≡ false
      → peer.disabled ≡ false
      → (peer.last_auth ≡ old.last_auth) ⊎ (peer.last_auth ≡ now)
      → (is_auth_expired now peer ≡ false)
      → Has (merge now (logged_in_as now req peer) old) (G.rows d)
      → Admitted now old.machine_id (proto_config peer) d
  unfolding Admitted proto_config is_auth_expired
  merged-Admitted now old peer req d id machine ip prefix off on auth live has = (
    merge now (logged_in_as now req peer) old,
    has,
    text_or-same peer.machine_id old.machine_id machine ∙ sym machine,
    ground arith,
    refl,
    elim auth [ inl e ↦ ground arith | inr e ↦ ground arith ],
    config,
  )
    where
      config : proto_config (merge now (logged_in_as now req peer) old) ≡ proto_config peer
      config = λ i. record {
        peer_id = id i;
        tunnel_ip = text_or-same peer.ip old.ip ip i;
        prefix = text_or-same peer.prefix old.prefix prefix i;
      }

  proto_config-logged_in_as :
      (now : ℕ) (req : LoginPeerRequest) (peer : Peer)
      → proto_config (logged_in_as now req peer) ≡ proto_config peer
  unfolding proto_config
  proto_config-logged_in_as now req peer = refl

  live : {now : ℕ} (p : Peer) → p.last_auth ≡ now → is_auth_expired now p ≡ false
  unfolding is_auth_expired
  live p e = ground arith

  module _ (P : Idp) (I : Netip) (prefix_string : Prefix → String) where
    -- `old` is the row, and `peer` what is left of it to log in.
    login_known-Admitted :
        (now : ℕ) (old peer : Peer) (req : LoginPeerRequest) (s s' : GrpcServer G P I prefix_string)
        (cfg : PeerConfig)
        → login_known G P I prefix_string now req peer s ≡ (s', ok cfg)
        → Has old (G.rows s.controller.db)
        → (old.id ≡ peer.id)
          × (old.machine_id ≡ peer.machine_id)
          × (old.ip ≡ peer.ip)
          × (old.prefix ≡ peer.prefix)
        → old.disabled ≡ false
        → (peer.last_auth ≡ old.last_auth) ⊎ (peer.last_auth ≡ now)
        → is_auth_expired now peer ≡ false
        → Admitted now old.machine_id cfg s'.controller.db
    unfolding login_known
    login_known-Admitted now old peer req s s' cfg h has (id, machine, ip, prefix) off auth live =
        go (process_peer_login G now peer req s.controller) refl
      where
        go :
            (x : Controller G × Peer × Option Failure)
            → process_peer_login G now peer req s.controller ≡ x
            → Admitted now old.machine_id cfg s'.controller.db
        go (c, p, some f) u = ground arith
        go (c, p, none) u =
            let (on, is, row) =
              process_peer_login-Has G now old peer p req s.controller c u id has in
            let at : c ≡ s'.controller = ground arith in
            let given : proto_config p ≡ cfg = ground arith in
            let config : proto_config peer ≡ cfg =
              sym (ap proto_config is ∙ proto_config-logged_in_as now req peer) ∙ given in
            subst (λ (z : Controller G). Admitted now old.machine_id cfg z.db) at
              (subst (λ k. Admitted now old.machine_id k c.db) config
                (merged-Admitted now old peer req c.db id machine ip prefix off on auth live
                  (subst (λ q. Has (merge now q old) (G.rows c.db)) is row)))

    login_expired-Admitted :
        (now : ℕ) (req : LoginPeerRequest) (peer : Peer) (s s' : GrpcServer G P I prefix_string)
        (cfg : PeerConfig)
        → login_expired G P I prefix_string now req peer s ≡ done (s', ok cfg)
        → Has peer (G.rows s.controller.db)
        → peer.disabled ≡ false
        → Admitted now peer.machine_id cfg s'.controller.db
    unfolding login_expired update_auth is_auth_expired
    login_expired-Admitted now req peer s s' cfg h has off =
        go (validate_access_token P s.audience s.cache req.access_token) refl
      where
        go :
            (x : Cache × Result String String)
            → validate_access_token P s.audience s.cache req.access_token ≡ x
            → Admitted now peer.machine_id cfg s'.controller.db
        go (c, err e) u = ground arith
        go (c, ok user) u =
            let known : login_known G P I prefix_string now req (update_auth now peer)
                  (record s { cache = c })
                ≡ (s', ok cfg) =
              ground arith in
            login_known-Admitted now peer (update_auth now peer) req (record s { cache = c }) s' cfg
              known has (refl, refl, refl, refl) off (inr refl) (ground arith)

    login_new-Admitted :
        (now : ℕ) (req : LoginPeerRequest) (s s' : GrpcServer G P I prefix_string)
        (cfg : PeerConfig)
        → login_new G P I prefix_string now req s ≡ (s', ok cfg)
        → Admitted now req.machine_id cfg s'.controller.db
    unfolding login_new Admitted
    login_new-Admitted now req s s' cfg h =
        go (validate_access_token P s.audience s.cache req.access_token) refl
      where
        go :
            (x : Cache × Result String String)
            → validate_access_token P s.audience s.cache req.access_token ≡ x
            → Admitted now req.machine_id cfg s'.controller.db
        go (c, err e) u = ground arith
        go (c, ok user) u =
            registered (register_peer G I prefix_string now s.prefix req user s.controller) refl
          where
            registered :
                (r : Controller G × Result Failure Peer)
                → register_peer G I prefix_string now s.prefix req user s.controller ≡ r
                → Admitted now req.machine_id cfg s'.controller.db
            registered (d, err f) v = ground arith
            registered (d, ok p) v =
                let (has, machine, off, in_, auth) =
                  register_peer-Has G I prefix_string now s.prefix req user s.controller d p v in
                let at : d ≡ s'.controller = ground arith in
                let config : proto_config p ≡ cfg = ground arith in
                subst (λ (z : Controller G). Admitted now req.machine_id cfg z.db) at
                  (p, has, machine, off, in_, live p auth, config)

    -- Whoever `LoginPeer` answers with a configuration has a row in the table afterwards, with the
    -- machine id of the request, that is logged in, is not disabled, has an authentication in force and
    -- has that configuration.
    pub login_peer-Admitted :
        (now : ℕ) (req : LoginPeerRequest) (s s' : GrpcServer G P I prefix_string)
        (cfg : PeerConfig)
        → login_peer G P I prefix_string now req s ≡ done (s', ok cfg)
        → Admitted now req.machine_id cfg s'.controller.db
    unfolding login_peer
    login_peer-Admitted now req s s' cfg h =
        go (G.first_machine s.controller.db req.machine_id) refl
      where
        go :
            (o : Option Peer)
            → G.first_machine s.controller.db req.machine_id ≡ o
            → Admitted now req.machine_id cfg s'.controller.db
        go none u =
            let fresh : login_new G P I prefix_string now req s ≡ (s', ok cfg) = ground arith in
            login_new-Admitted now req s s' cfg fresh
        go (some peer) u =
            let (has, machine) = G.first_machine-some s.controller.db req.machine_id peer u in
            let off : peer.disabled ≡ false = ground arith in
            subst (λ m. Admitted now m cfg s'.controller.db) machine
              (elim (Bool-cases (is_auth_expired now peer)) [
                | inl e ↦ login_expired-Admitted now req peer s s' cfg (ground arith) has off
                | inr e ↦
                    login_known-Admitted now peer peer req s s' cfg (ground arith) has
                      (refl, refl, refl, refl) off (inl refl) e
              ])
