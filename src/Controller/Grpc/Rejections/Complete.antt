-- ===== src/Controller/Grpc/Rejections/Complete.antt =====
-- Every refusal of `LoginPeer` for another reason than the token is one of those of `Rejects`.
use zeronet.Prelude.{
  inl, inr, ℕ, ◌≡◌, ◌≢◌, refl, true, false, Bool-cases, String, Option, some, none, arith, ◌↔◌,
  str_eq, eq_iff, ap, sym, ◌∙◌,
}
use zeronet.Go.{done, Result, ok, err}
use zeronet.Controller.Types.{Peer, is_auth_expired, update_auth}
use zeronet.Controller.Store.{Gorm}
use zeronet.Controller.Ipam.{Netip, Prefix}
use zeronet.Controller.Auth.{Idp}
use zeronet.Controller.Server.{
  Failure, LoginPeerRequest, process_peer_login, register_peer, logout_peer,
}
use zeronet.Controller.Grpc.{
  GrpcServer, Code, unauthenticated, login_peer, login_known, login_expired, login_new, validate,
  validate_machine_id,
}
use zeronet.Controller.Grpc.Rejections.{
  eq_same, NotWritten, Rejects, invalid_machine, is_disabled, not_updated, of_another_user,
  not_renewed, not_registered, code_of, Refuses, login_peer-new, login_peer-known,
  login_peer-expired, Rejects-Refuses,
}

module _ (G : Gorm) (P : Idp) (I : Netip) (prefix_string : Prefix → String) where
  module _ (now : ℕ) (req : LoginPeerRequest) (s : GrpcServer G P I prefix_string) where
    module _ (k : Code) (other : k ≢ unauthenticated) where
      known_lem :
          (peer : Peer)
          → code_of G P I prefix_string (done (login_known G P I prefix_string now req peer s))
            ≡ some k
          → NotWritten G P I prefix_string now peer req s
      unfolding login_known
      known_lem peer e = go (process_peer_login G now peer req s.controller).2 refl
        where
          go :
              (o : Option Failure)
              → (process_peer_login G now peer req s.controller).2 ≡ o
              → NotWritten G P I prefix_string now peer req s
          go none f = absurd (ground arith)
          go (some f) g = (f, g)

      new_lem :
          validate_machine_id req.machine_id ≡ true
          → G.first_machine s.controller.db req.machine_id ≡ none
          → code_of G P I prefix_string (done (login_new G P I prefix_string now req s)) ≡ some k
          → Rejects G P I prefix_string now req s
      unfolding login_new
      new_lem a b e = go (validate G P I prefix_string req.access_token s).1 refl
        where
          registered :
              (user : String)
              → (validate G P I prefix_string req.access_token s).1 ≡ ok user
              → (r : Result Failure Peer)
              → (register_peer G I prefix_string now s.prefix req user s.controller).1 ≡ r
              → Rejects G P I prefix_string now req s
          registered user c (err f) d = not_registered a b user c f d
          registered user c (ok p) d = absurd (ground arith)

          go :
              (r : Result String String)
              → (validate G P I prefix_string req.access_token s).1 ≡ r
              → Rejects G P I prefix_string now req s
          go (err x) c = absurd (ground arith)
          go (ok user) c =
              registered user c
                (register_peer G I prefix_string now s.prefix req user s.controller).1 refl

      expired_lem :
          (peer : Peer)
          → validate_machine_id req.machine_id ≡ true
          → G.first_machine s.controller.db req.machine_id ≡ some peer
          → peer.disabled ≡ false
          → is_auth_expired now peer ≡ true
          → code_of G P I prefix_string (login_expired G P I prefix_string now req peer s) ≡ some k
          → Rejects G P I prefix_string now req s
      unfolding login_expired login_known
      expired_lem peer a b c d e = go (validate G P I prefix_string req.access_token s).1 refl
        where
          written :
              (validate G P I prefix_string req.access_token s).1 ≡ ok peer.user
              → (o : Option Failure)
              → (process_peer_login G now (update_auth now peer) req s.controller).2 ≡ o
              → Rejects G P I prefix_string now req s
          written v none f = absurd (ground (arith, eq_same peer.user))
          written v (some f) g = not_renewed a peer b c d v (f, g)

          go :
              (r : Result String String)
              → (validate G P I prefix_string req.access_token s).1 ≡ r
              → Rejects G P I prefix_string now req s
          go (err x) v = absurd (ground (arith, logout_peer G now peer s.controller))
          go (ok user) v = elim (Bool-cases (str_eq peer.user user)) [
            | inl u ↦
                written (v ∙ ap ok (sym ((eq_iff peer.user user).0 u)))
                  (process_peer_login G now (update_auth now peer) req s.controller).2 refl
            | inr u ↦ of_another_user a peer b c d user v u
          ]

    Refuses-Rejects :
        Refuses G P I prefix_string (login_peer G P I prefix_string now req s)
        → Rejects G P I prefix_string now req s
    unfolding login_peer
    Refuses-Rejects (k, e, other) = elim (Bool-cases (validate_machine_id req.machine_id)) [
      | inl a ↦ valid a (G.first_machine s.controller.db req.machine_id) refl
      | inr a ↦ invalid_machine a
    ]
      where
        enabled :
            validate_machine_id req.machine_id ≡ true
            → (peer : Peer) → G.first_machine s.controller.db req.machine_id ≡ some peer
            → peer.disabled ≡ false
            → Rejects G P I prefix_string now req s
        enabled a peer b c = elim (Bool-cases (is_auth_expired now peer)) [
          | inl d ↦ expired_lem k other peer a b c d (
              ap (code_of G P I prefix_string)
                (sym (login_peer-expired G P I prefix_string now req s a peer b c d))
              ∙ e)
          | inr d ↦ not_updated a peer b c d (
              known_lem k other peer (
                ap (code_of G P I prefix_string)
                  (sym (login_peer-known G P I prefix_string now req s a peer b c d))
                ∙ e))
        ]

        valid :
            validate_machine_id req.machine_id ≡ true
            → (o : Option Peer) → G.first_machine s.controller.db req.machine_id ≡ o
            → Rejects G P I prefix_string now req s
        valid a none b = new_lem k other a b (
            ap (code_of G P I prefix_string)
              (sym (login_peer-new G P I prefix_string now req s a b))
            ∙ e)
        valid a (some peer) b = elim (Bool-cases peer.disabled) [
          | inl c ↦ is_disabled a peer b c
          | inr c ↦ enabled a peer b c
        ]

    -- `LoginPeer` ends with a status other than `Unauthenticated` if and only if the machine id is not valid; or
    -- the machine has a row that is disabled; or its row is enabled and in force and cannot be written; or the row is
    -- enabled and has expired, and the token is valid and of another user, or of its user and the row cannot be
    -- written; or the machine has no row, the token is valid and no peer can be registered.
    pub login_peer-Rejects :
        Rejects G P I prefix_string now req s
        ↔ Refuses G P I prefix_string (login_peer G P I prefix_string now req s)
    login_peer-Rejects = (Rejects-Refuses G P I prefix_string now req s, Refuses-Rejects)
