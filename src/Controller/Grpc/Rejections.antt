-- ===== src/Controller/Grpc/Rejections.antt =====
-- controller/grpc_v1.go: the refusals of `LoginPeer` for another reason than the token.
pub mod Complete
use zeronet.Prelude.{
  inl, inr, ℕ, ◌≡◌, ◌≢◌, refl, true, false, Bool-cases, String, Option, some, none, arith, ◌↔◌,
  str_eq, eq_iff, ap, sym, ◌∙◌,
}
use zeronet.Go.{Outcome, done, panics, blocks, Result, ok, err}
use zeronet.Controller.Types.{Peer, PeerConfig, is_auth_expired, update_auth}
use zeronet.Controller.Store.{Gorm}
use zeronet.Controller.Ipam.{Netip, Prefix}
use zeronet.Controller.Auth.{Idp}
use zeronet.Controller.Server.{
  Failure, LoginPeerRequest, process_peer_login, register_peer, logout_peer,
}
use zeronet.Controller.Grpc.{
  GrpcServer, Status, Code, unauthenticated, invalid_argument, permission_denied, internal,
  login_peer, login_known, login_expired, login_new, validate, validate_machine_id,
}

pub eq_same : (s : String) → str_eq s s ≡ true
eq_same s = (eq_iff s s).1 refl

module _ (G : Gorm) (P : Idp) (I : Netip) (prefix_string : Prefix → String) where
  -- The row that a machine has is not written.
  abbrev pub NotWritten : ℕ → Peer → LoginPeerRequest → GrpcServer G P I prefix_string → Type 0
  NotWritten now peer req s =
      (f : Failure) × ((process_peer_login G now peer req s.controller).2 ≡ some f)

  -- What the controller knows of the machine and the token of a request that it refuses for another reason
  -- than the token.
  pub data Rejects (now : ℕ) (req : LoginPeerRequest) (s : GrpcServer G P I prefix_string)
      : Type 0 where
    invalid_machine : validate_machine_id req.machine_id ≡ false → Rejects now req s
    is_disabled :
        validate_machine_id req.machine_id ≡ true
        → (peer : Peer) → G.first_machine s.controller.db req.machine_id ≡ some peer
        → peer.disabled ≡ true
        → Rejects now req s
    not_updated :
        validate_machine_id req.machine_id ≡ true
        → (peer : Peer) → G.first_machine s.controller.db req.machine_id ≡ some peer
        → peer.disabled ≡ false
        → is_auth_expired now peer ≡ false
        → NotWritten now peer req s
        → Rejects now req s
    of_another_user :
        validate_machine_id req.machine_id ≡ true
        → (peer : Peer) → G.first_machine s.controller.db req.machine_id ≡ some peer
        → peer.disabled ≡ false
        → is_auth_expired now peer ≡ true
        → (user : String) → (validate G P I prefix_string req.access_token s).1 ≡ ok user
        → str_eq peer.user user ≡ false
        → Rejects now req s
    not_renewed :
        validate_machine_id req.machine_id ≡ true
        → (peer : Peer) → G.first_machine s.controller.db req.machine_id ≡ some peer
        → peer.disabled ≡ false
        → is_auth_expired now peer ≡ true
        → (validate G P I prefix_string req.access_token s).1 ≡ ok peer.user
        → NotWritten now (update_auth now peer) req s
        → Rejects now req s
    not_registered :
        validate_machine_id req.machine_id ≡ true
        → G.first_machine s.controller.db req.machine_id ≡ none
        → (user : String) → (validate G P I prefix_string req.access_token s).1 ≡ ok user
        → (f : Failure)
        → (register_peer G I prefix_string now s.prefix req user s.controller).1 ≡ err f
        → Rejects now req s

  -- The status that a call ends with, if it ends with an error.
  abbrev pub code_of :
      Outcome (GrpcServer G P I prefix_string × Result Status PeerConfig) → Option Code
  code_of (done (s, ok cfg)) = none
  code_of (done (s, err st)) = some st.code
  code_of (panics e) = none
  code_of blocks = none

  -- A refusal with another status than `Unauthenticated`.
  abbrev pub Refuses : Outcome (GrpcServer G P I prefix_string × Result Status PeerConfig) → Type 0
  Refuses r = (c : Code) × (code_of r ≡ some c) × (c ≢ unauthenticated)

  module _ (now : ℕ) (req : LoginPeerRequest) (s : GrpcServer G P I prefix_string) where
    login_known-code :
        (peer : Peer) (f : Failure)
        → (process_peer_login G now peer req s.controller).2 ≡ some f
        → code_of (done (login_known G P I prefix_string now req peer s)) ≡ some internal
    unfolding login_known
    login_known-code peer f e = rw e refl

    renewed-code :
        (peer : Peer) (f : Failure)
        → (validate G P I prefix_string req.access_token s).1 ≡ ok peer.user
        → (process_peer_login G now (update_auth now peer) req s.controller).2 ≡ some f
        → code_of (login_expired G P I prefix_string now req peer s) ≡ some internal
    unfolding login_expired login_known
    renewed-code peer f e g = rw (e, login_expired) (rw (eq_same peer.user) (rw g refl))

    module _ (a : validate_machine_id req.machine_id ≡ true) where
      pub login_peer-new :
          G.first_machine s.controller.db req.machine_id ≡ none
          → login_peer G P I prefix_string now req s
            ≡ done (login_new G P I prefix_string now req s)
      unfolding login_peer
      login_peer-new b = rw (a, b) refl

      module _ (peer : Peer) (b : G.first_machine s.controller.db req.machine_id ≡ some peer)
          (c : peer.disabled ≡ false) where
        pub login_peer-known :
            is_auth_expired now peer ≡ false
            → login_peer G P I prefix_string now req s
              ≡ done (login_known G P I prefix_string now req peer s)
        unfolding login_peer
        login_peer-known d = rw (a, b) (simp (c, d) refl)

        pub login_peer-expired :
            is_auth_expired now peer ≡ true
            → login_peer G P I prefix_string now req s
              ≡ login_expired G P I prefix_string now req peer s
        unfolding login_peer
        login_peer-expired d = rw (a, b) (simp (c, d) refl)

    pub Rejects-Refuses : Rejects now req s → Refuses (login_peer G P I prefix_string now req s)
    unfolding login_peer login_expired login_new
    Rejects-Refuses (invalid_machine a) = (invalid_argument, rw a refl, λ e. ground arith)
    Rejects-Refuses (is_disabled a peer b c) =
        (permission_denied, rw (a, b, c) refl, λ e. ground arith)
    Rejects-Refuses (not_updated a peer b c d (f, e)) = (
      internal,
      ap code_of (login_peer-known a peer b c d) ∙ login_known-code peer f e,
      λ e. ground arith,
    )
    Rejects-Refuses (of_another_user a peer b c d user e g) = (
      permission_denied,
      ap code_of (login_peer-expired a peer b c d) ∙ rw (e, login_expired) (rw g refl),
      λ e. ground arith,
    )
    Rejects-Refuses (not_renewed a peer b c d e (f, g)) = (
      internal,
      ap code_of (login_peer-expired a peer b c d) ∙ renewed-code peer f e g,
      λ e. ground arith,
    )
    Rejects-Refuses (not_registered a b user c f d) = (
      internal,
      ap code_of (login_peer-new a b) ∙ rw (c, login_new) (rw d refl),
      λ e. ground arith,
    )
