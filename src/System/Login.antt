-- ===== src/System/Login.antt =====
-- A login, from the node's call to what both sides hold after it.
use mathlib.Core.Option.{some-injective}
use zeronet.Prelude.{ℕ, ◌≡◌, ◌≢◌, refl, true, Bool, String, arith, ap, sym, ◌∙◌}
use zeronet.Go.{Outcome, done, panics, blocks, nil_pointer, ◌>>=◌, >>=-eq-done, Result, ok, err}
use zeronet.Node.Noise.{Noise}
use zeronet.Node.Net.{Net}
use zeronet.Node.State.{Node}
use zeronet.Node.Service
use zeronet.Node.Service.{Reply, login, login_request, configure, login_successful, refused}
use zeronet.Controller.Types.{PeerConfig}
use zeronet.Controller.Store.{Gorm}
use zeronet.Controller.Ipam.{Netip, Prefix}
use zeronet.Controller.Auth.{Idp}
use zeronet.Controller.Grpc.{GrpcServer, Status, Code, unauthenticated, login_peer}
use zeronet.Controller.Grpc.Rejections.{Rejects, Refuses}
use zeronet.Controller.Grpc.Rejections.Complete.{login_peer-Rejects}
use zeronet.Controller.Grpc.Login.{Admitted, login_peer-Admitted}
use zeronet.System.{log_in, reply_of}

module _ {N : Noise} (W : Net) (G : Gorm) (P : Idp) (I : Netip)
    (prefix_string : Prefix → String) where
  configured_with :
      (r : Result Status PeerConfig) (pkce : Bool) (n m : Node N)
      → login W (reply_of r) pkce n ≡ done (m, login_successful)
      → (cfg : PeerConfig) × (r ≡ ok cfg)
        × (m.id ≡ cfg.peer_id)
        × (m.logged_in ≡ true)
        × (m.machine_id ≡ n.machine_id)
  unfolding login configure
  configured_with (ok cfg) pkce n m e = (cfg, refl, ground arith, ground arith, ground arith)
  configured_with (err s) pkce n m e = ground arith

  -- A node that is told that its login was successful is logged in, and the controller has a row for its
  -- machine that is logged in, enabled and with an authentication in force, whose id the node has taken.
  pub log_in-Admitted :
      (now : ℕ) (token : String) (pkce : Bool) (n m : Node N)
      (s s' : GrpcServer G P I prefix_string)
      → log_in W G P I prefix_string now token pkce n s ≡ done (m, s', login_successful)
      → (m.logged_in ≡ true)
        × ((cfg : PeerConfig) × Admitted G now n.machine_id cfg s'.controller.db
            × (m.id ≡ cfg.peer_id))
  unfolding log_in login_request
  log_in-Admitted now token pkce n m s s' e =
      let calls : GrpcServer G P I prefix_string × Result Status PeerConfig
          → Outcome (Node N × GrpcServer G P I prefix_string × Service.Login) =
        λ x. login W (reply_of x.1) pkce n >>= λ y. done (y.0, x.0, y.1) in
      let (x, f, g) =
        >>=-eq-done (login_peer G P I prefix_string now (login_request W token n) s) calls e in
      let ends : Node N × Service.Login
          → Outcome (Node N × GrpcServer G P I prefix_string × Service.Login) =
        λ y. done (y.0, x.0, y.1) in
      let (y, h, k) = >>=-eq-done (login W (reply_of x.1) pkce n) ends g in
      let same : (y ≡ (m, login_successful)) × (x.0 ≡ s') = ground arith in
      let (cfg, is, id, on, machine) = configured_with x.1 pkce n m (h ∙ ap done same.0) in
      let given : login_peer G P I prefix_string now (login_request W token n) s
          ≡ done (s', ok cfg) =
        f ∙ ap done (λ i. (same.1 i, is i)) in
      (
        on,
        (
          cfg,
          login_peer-Admitted G P I prefix_string now (login_request W token n) s s' cfg given,
          id,
        ),
      )

  login-refused :
      (c : Code) (pkce : Bool) (n : Node N)
      → c ≢ unauthenticated
      → login W (refused c) pkce n ≡ panics nil_pointer
  unfolding login
  login-refused c pkce n other = ground arith

  -- A node that the controller refuses with any other status than `Unauthenticated` goes down when its user logs
  -- in: it reads a response that it does not have. What the controller knows of it is then one of the cases of
  -- `Rejects`: a machine id that is not valid, a row that is disabled, that belongs to another user, or that
  -- cannot be written, or a peer that cannot be registered.
  pub log_in-panics :
      (now : ℕ) (token : String) (pkce : Bool) (n : Node N) (s : GrpcServer G P I prefix_string)
      → Refuses G P I prefix_string (login_peer G P I prefix_string now (login_request W token n) s)
      → Rejects G P I prefix_string now (login_request W token n) s
        × (log_in W G P I prefix_string now token pkce n s ≡ panics nil_pointer)
  unfolding log_in
  log_in-panics now token pkce n s h = (
    (login_peer-Rejects G P I prefix_string now (login_request W token n) s).1 h,
    go (login_peer G P I prefix_string now (login_request W token n) s) refl h,
  )
    where
      go :
          (r : Outcome (GrpcServer G P I prefix_string × Result Status PeerConfig))
          → login_peer G P I prefix_string now (login_request W token n) s ≡ r
          → Refuses G P I prefix_string r
          → log_in W G P I prefix_string now token pkce n s ≡ panics nil_pointer
      go (done (t, ok cfg)) e (c, is, other) = absurd (ground arith)
      go (done (t, err st)) e (c, is, other) =
          rw (e, log_in)
            (ap (λ z. z >>= λ y. done (y.0, t, y.1))
              (login-refused st.code pkce n (λ u. other (some-injective _ _ (sym is) ∙ u))))
      go (panics x) e (c, is, other) = absurd (ground arith)
      go blocks e (c, is, other) = absurd (ground arith)
