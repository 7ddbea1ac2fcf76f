-- ===== src/System/Commands.antt =====
-- The command `login`, with the node that it calls, the controller that the node calls, and the provider
-- that both of them and the browser of the user trust.
use zeronet.Prelude.{
  ℕ, String, List, [], ◌∷◌, none, ◌≡◌, refl, true, false, Bool, arith, ◌⊎◌, inl, inr, str_eq,
  eq_iff, ap, ◌∙◌, sym,
}
use zeronet.Go.{◌>>=◌, >>=-eq-done, Outcome, done, panics, blocks, Result, ok, err}
use zeronet.Node.Noise.{Noise}
use zeronet.Node.Net.{Net}
use zeronet.Node.State.{Node}
use zeronet.Node.Service
use zeronet.Node.Service.{
  Answer, node_is_running, node_is_stopped, refuses, login_successful, need_access_token, error,
}
use zeronet.Node.AuthFlow.{
  LoginResponse, Oauth, Arrival, Flow, config_of, auth_flow, response_of, OauthConfig,
}
use zeronet.Node.AuthFlow.Granted.{Granted, auth_flow-Granted}
use zeronet.Node.Start.{World}
use zeronet.Node.Stop.{NodeError}
use zeronet.Node.Command.{returns}
use zeronet.Node.Command.Client.{
  Rpc, answers, no_answer, NodeService, fresh_flow, login_command, login_again, with_token,
  after_login,
}
use zeronet.Controller.Types.{PeerConfig}
use zeronet.Controller.Store.{Gorm}
use zeronet.Controller.Ipam.{Netip, Prefix}
use zeronet.Controller.Auth.{Idp}
use zeronet.Controller.Auth.Config.{PkceAuthInfo}
use zeronet.Controller.Grpc.{GrpcServer, Status, login_peer}
use zeronet.Controller.Grpc.Login.{Admitted}
use zeronet.System.{log_in, reply_of}
use mathlib.Core.Path.{subst}
use zeronet.System.Login.{log_in-Admitted}

-- The process of a node, until it goes down.
pub data NodeProcess (N : Noise) : Type 0 where
  running : Node N → NodeProcess N
  gone : NodeProcess N

module _ (N : Noise) (W : Net) (G : Gorm) (P : Idp) (I : Netip) (prefix_string : Prefix → String)
    (now : ℕ) (info : PkceAuthInfo) (w : World) (error_text : NodeError → String) where
  abbrev pub Both : Type 0
  Both = NodeProcess N × GrpcServer G P I prefix_string

  -- A panic, of the node or of the controller whose response it then does not have, takes the node down.
  abbrev pub logged :
      GrpcServer G P I prefix_string
      → Outcome (Node N × GrpcServer G P I prefix_string × Service.Login)
      → Both × Rpc LoginResponse
  logged g (done (m, h, r)) = ((running m, h), answers (response_of info r))
  logged g (panics e) = ((gone, g), answers (err "the connection is closing"))
  logged g blocks = ((gone, g), no_answer)

  abbrev pub call_login : String → Both → Both × Rpc LoginResponse
  call_login token (gone, g) = ((gone, g), answers (err "connection refused"))
  call_login token (running n, g) = logged g (log_in W G P I prefix_string now token true n g)

  abbrev answer_of : Answer → Rpc String
  answer_of node_is_running = answers (ok "node is running")
  answer_of node_is_stopped = answers (ok "node is stopped")
  answer_of (refuses e) = answers (err (error_text e))

  abbrev upped : GrpcServer G P I prefix_string → Outcome (Node N × Answer) → Both × Rpc String
  upped g (done (m, a)) = ((running m, g), answer_of a)
  upped g (panics e) = ((gone, g), answers (err "the connection is closing"))
  upped g blocks = ((gone, g), no_answer)

  abbrev call_up : Both → Both × Rpc String
  call_up (gone, g) = ((gone, g), answers (err "connection refused"))
  call_up (running n, g) = upped g (Service.up W w n)

  abbrev call_down : Both → Both × Rpc String
  call_down (gone, g) = ((gone, g), answers (err "connection refused"))
  call_down (running n, g) = let (m, a) = Service.down W n in ((running m, g), answer_of a)

  -- The service of a node and its controller.
  abbrev pub node_service : NodeService
  node_service = record {
    State = Both;
    dial = λ s. none;
    up = call_up;
    down = call_down;
    login = call_login;
  }

  -- The node is logged in, and the controller has admitted its machine, as the peer that it takes itself for.
  pub LoggedIn : Both → Type 0
  LoggedIn (gone, g) = ⊥
  LoggedIn (running m, g) =
      (m.logged_in ≡ true)
      × ((cfg : PeerConfig) × Admitted G now m.machine_id cfg g.controller.db
          × (m.id ≡ cfg.peer_id))

  login-machine :
      (r : Service.Reply) (pkce : Bool) (n m : Node N) (x : Service.Login)
      → Service.login W r pkce n ≡ done (m, x)
      → m.machine_id ≡ n.machine_id
  unfolding Service.login Service.configure
  login-machine r pkce n m x e = ground arith

  log_in-machine :
      (token : String) (n m : Node N) (g h : GrpcServer G P I prefix_string) (x : Service.Login)
      → log_in W G P I prefix_string now token true n g ≡ done (m, h, x)
      → m.machine_id ≡ n.machine_id
  unfolding log_in
  log_in-machine token n m g h x e =
      let first : Outcome (GrpcServer G P I prefix_string × Result Status PeerConfig) =
        login_peer G P I prefix_string now (Service.login_request W token n) g in
      let calls : GrpcServer G P I prefix_string × Result Status PeerConfig
          → Outcome (Node N × GrpcServer G P I prefix_string × Service.Login) =
        λ y. Service.login W (reply_of y.1) true n >>= λ z. done (z.0, y.0, z.1) in
      let (y, f, k) = >>=-eq-done first calls e in
      let ends : Node N × Service.Login
          → Outcome (Node N × GrpcServer G P I prefix_string × Service.Login) =
        λ z. done (z.0, y.0, z.1) in
      let (z, a, b) = >>=-eq-done (Service.login W (reply_of y.1) true n) ends k in
      let same : m ≡ z.0 = ground arith in
      ap (λ q. q.machine_id) same ∙ login-machine (reply_of y.1) true n z.0 z.1 a

  -- A login call that is answered: with success, and then both sides agree, or with what the provider is.
  call_login-cases :
      (token : String) (s s' : Both) (r : LoginResponse)
      → call_login token s ≡ (s', answers (ok r))
      → ((r.status ≡ "login successful") × LoggedIn s')
        ⊎ ((r.status ≡ "need access token") × (response_of info need_access_token ≡ ok r))
  unfolding response_of LoggedIn
  call_login-cases token (gone, g) s' r e = ground arith
  call_login-cases token (running n, g) s' r e =
      go (log_in W G P I prefix_string now token true n g) refl
    where
      go :
          (o : Outcome (Node N × GrpcServer G P I prefix_string × Service.Login))
          → log_in W G P I prefix_string now token true n g ≡ o
          → ((r.status ≡ "login successful") × LoggedIn s')
            ⊎ ((r.status ≡ "need access token") × (response_of info need_access_token ≡ ok r))
      go (panics x) f = ground arith
      go blocks f = ground arith
      go (done (m, h, login_successful)) f =
          let found : (m.logged_in ≡ true)
              × ((cfg : PeerConfig) × Admitted G now n.machine_id cfg h.controller.db
                  × (m.id ≡ cfg.peer_id)) =
            log_in-Admitted W G P I prefix_string now token true n m g h f in
          let same : s' ≡ (running m, h) = ground arith in
          inl (
            ground arith,
            subst LoggedIn (sym same) (
                subst
                  (λ x.
                    (m.logged_in ≡ true)
                    × ((cfg : PeerConfig) × Admitted G now x cfg h.controller.db
                        × (m.id ≡ cfg.peer_id)))
                  (sym (log_in-machine token n m g h login_successful f)) found),
          )
      go (done (m, h, need_access_token)) f = inr (ground arith, ground arith)
      go (done (m, h, error)) f = ground arith

  -- The client that the controller says a node is to log in as.
  abbrev pub client_config : OauthConfig
  client_config = record {
    client_id = info.client_id;
    auth_url = info.auth_endpoint;
    token_url = info.token_endpoint;
    redirect_url = info.redirect_uri;
    scopes = "openid profile email offline_access" ∷ [];
  }

  -- What the command has come to when it returns: it has said so and both sides agree, or it has had a token
  -- from the provider, with which the node has been let in or told once more that it needs one.
  pub Ended : Oauth → List String → Both → Type 0
  Ended O lines s =
      ((lines ≡ "node login successful" ∷ []) × LoggedIn s)
      ⊎ ((lines ≡ [])
          × ((token : String) × Granted O client_config token
              × (LoggedIn s
                  ⊎ ((before : Both) × (r : LoginResponse) × (call_login token before
                        ≡ (s, answers (ok r)))
                      × (r.status ≡ "need access token")))))

  config_of-response :
      (r : LoginResponse) → response_of info need_access_token ≡ ok r → config_of r ≡ client_config
  unfolding config_of response_of
  config_of-response r e = ground arith

  login_again-Ended :
      (O : Oauth) (token : String) (s s' : Both) (lines : List String)
      → Granted O client_config token
      → login_again node_service token s ≡ (s', returns lines)
      → Ended O lines s'
  unfolding login_again Ended
  login_again-Ended O token s s' lines granted e =
      go (call_login token s).0 (call_login token s).1 refl
    where
      go : (t : Both) (r : Rpc LoginResponse) → call_login token s ≡ (t, r) → Ended O lines s'
      go t no_answer f = ground arith
      go t (answers (err x)) f = ground arith
      go t (answers (ok r)) f =
          let same : t ≡ s' = ground arith in
          let answered : call_login token s ≡ (s', answers (ok r)) =
            f ∙ (λ i. (same i, answers (ok r))) in
          let quiet : lines ≡ [] = ground arith in
          elim (call_login-cases token s s' r answered) [
            | inl (a, both) ↦ inr (quiet, (token, granted, inl both))
            | inr (again, b) ↦ inr (quiet, (token, granted, inr (s, r, answered, again)))
          ]

  after_flow :
      (O : Oauth) (r : LoginResponse) (x : Outcome (Flow × Result String String))
      (arrivals : List Arrival) (s s' : Both) (lines : List String)
      → response_of info need_access_token ≡ ok r
      → auth_flow O r arrivals fresh_flow ≡ x
      → with_token node_service x s ≡ (s', returns lines)
      → Ended O lines s'
  unfolding with_token
  after_flow O r (panics y) arrivals s s' lines named f e = ground arith
  after_flow O r blocks arrivals s s' lines named f e = ground arith
  after_flow O r (done (g, err y)) arrivals s s' lines named f e = ground arith
  after_flow O r (done (g, ok token)) arrivals s s' lines named f e =
      login_again-Ended O token s s' lines
        (subst (λ c. Granted O c token) (config_of-response r named)
          (auth_flow-Granted O r arrivals fresh_flow g token refl f))
        e

  -- If the command `login` returns, then either it has printed that the login was successful, or it has had a token
  -- which the token endpoint of the provider that the controller names has given to the client that the controller
  -- names. In the first case the node is logged in, and the controller has admitted its machine as the peer that
  -- the node takes itself for. In the second case the same holds, or the node has answered the login with the
  -- token that it needs one, and the command has returned without a word of it.
  pub login_command-Ended :
      (O : Oauth) (arrivals : List Arrival) (s s' : Both) (lines : List String)
      → login_command node_service O arrivals s ≡ (s', returns lines)
      → Ended O lines s'
  unfolding login_command after_login Ended
  login_command-Ended O arrivals s s' lines e = go (call_login "" s).0 (call_login "" s).1 refl
    where
      go : (t : Both) (r : Rpc LoginResponse) → call_login "" s ≡ (t, r) → Ended O lines s'
      go t no_answer f = ground arith
      go t (answers (err x)) f = ground arith
      go t (answers (ok r)) f =
          let after : after_login node_service O arrivals r t ≡ (s', returns lines) =
            ground arith in
          elim (call_login-cases "" s t r f) [
            | inl (a, both) ↦
                let same : (t ≡ s') × (lines ≡ "node login successful" ∷ []) =
                  ground (arith, eq_iff r.status "login successful") in
                inl (same.1, subst LoggedIn same.0 both)
            | inr (a, named) ↦
                let not_yet : str_eq r.status "login successful" ≡ false =
                  ap (λ t. str_eq t "login successful") a in
                let asked : str_eq r.status "need access token" ≡ true =
                  ap (λ t. str_eq t "need access token") a in
                let goes_on : after_login node_service O arrivals r t
                    ≡ with_token node_service (auth_flow O r arrivals fresh_flow) t =
                  rw (after_login, not_yet) (rw asked refl) in
                after_flow O r (auth_flow O r arrivals fresh_flow) arrivals t s' lines named refl
                  (sym goes_on ∙ after)
          ]
