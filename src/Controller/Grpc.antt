-- ===== src/Controller/Grpc.antt =====
-- controller/grpc_v1.go and controller/util.go: the calls that the nodes make.
pub mod Login
pub mod Endpoint
pub mod Punch
pub mod Distinct
pub mod Rejections
pub mod Tests
pub mod Stream
pub mod Streams
use Prim.Native.Char.{code}
use Prim.Native.String.{len}
use zeronet.Prelude.{
  ℕ, String, Bool, true, false, some, none, if◌then◌else◌, not, leb, ltb, ◌&&◌, ◌||◌, ◌==◌, str_eq,
}
use zeronet.Go.{Outcome, done, ◌>>=◌, Result, ok, err}
use zeronet.Controller.Types.{Peer, PeerConfig, proto_config, is_auth_expired, update_auth}
use zeronet.Controller.Store.{Gorm}
use zeronet.Controller.Ipam.{Netip, Prefix}
use zeronet.Controller.Auth.{Idp, Cache, validate_access_token}
use zeronet.Controller.Channels.{Controller, peer_punch_request}
use zeronet.Controller.Server.{
  Failure, LoginPeerRequest, process_peer_login, logout_peer, register_peer,
}

pub data Code : Type 0 where
  invalid_argument not_found internal permission_denied unauthenticated aborted : Code

-- `status.Error`; the message is a text of the source, or that of an error.
pub data Message : Type 0 where
  text : String → Message
  of_error : Failure → Message

pub record Status : Type 0 where
  pub code : Code
  pub message : Message

abbrev pub refuse {ℓ} : {A : Type ℓ} → Code → String → Result Status A
refuse c m = err (record { code = c; message = text m })

abbrev pub machine_id_len : ℕ
machine_id_len = 64

-- `[a-zA-Z0-9_]`
abbrev pub word_char : ℕ → Bool
word_char n = (leb 97 n && leb n 122) || (leb 65 n && leb n 90) || (leb 48 n && leb n 57) || n == 95

abbrev pub alphanumeric : String → Bool
alphanumeric String.[] = true
alphanumeric (String.◌∷◌ c s) = let rest = alphanumeric s in word_char (code c) && rest

unfoldable pub validate_machine_id : String → Bool
validate_machine_id id =
    if not (alphanumeric id) then false else (if ltb (len id) machine_id_len then false else true)

module _ (G : Gorm) where
  -- How `UpdateEndpoint` and `Punch` begin: the peer that calls, if it may, and has an endpoint.
  unfoldable pub caller : ℕ → String → String → G.Db → Result Status Peer
  caller now machine endpoint d =
      if not (validate_machine_id machine)
      then refuse invalid_argument "invalid machine ID"
      else elim (G.first_machine d machine) [
        | none ↦ refuse not_found "peer not found"
        | some peer ↦
            if peer.disabled
            then refuse internal "peer is currently disabled"
            else (if not peer.logged_in
                then refuse internal "peer requires login first"
                else (if is_auth_expired now peer
                    then refuse permission_denied "peer auth expired, login again"
                    else (if str_eq endpoint ""
                        then refuse invalid_argument "empty endpoint"
                        else ok peer)))
      ]

  unfoldable pub update_endpoint :
      ℕ → String → String → Controller G → Controller G × Result Status (Unit {0})
  update_endpoint now machine endpoint c = elim (caller now machine endpoint c.db) [
    | err s ↦ (c, err s)
    | ok peer ↦
        let (d, written) = G.set_endpoint c.db now peer.id endpoint in
        (
          record c { db = d },
          if written then ok tt else refuse internal "failed to update endpoint",
        )
  ]

  unfoldable pub punch :
      ℕ → String → ℕ → String → Controller G → Outcome (Controller G × Result Status (Unit {0}))
  punch now machine target endpoint c = elim (caller now machine endpoint c.db) [
    | err s ↦ done (c, err s)
    | ok peer ↦ peer_punch_request G target endpoint c >>= λ c. done (c, ok tt)
  ]

  module _ (P : Idp) (I : Netip) (prefix_string : Prefix → String) where
    -- The server, with the controller's prefix, and the audience and the cache of the token validator.
    pub record GrpcServer : Type 0 where
      pub controller : Controller G
      pub cache : Cache
      pub audience : String
      pub prefix : Prefix

    abbrev unauthorized : String → Status
    unauthorized e = record { code = unauthenticated; message = text e }

    abbrev pub validate : String → GrpcServer → GrpcServer × Result String String
    validate token s =
        let (cache, r) = validate_access_token P s.audience s.cache token in
        (record s { cache = cache }, r)

    -- A peer that is known and whose authentication is in force.
    unfoldable pub login_known :
        ℕ → LoginPeerRequest → Peer → GrpcServer → GrpcServer × Result Status PeerConfig
    login_known now req peer s =
        let (c, p, e) = process_peer_login G now peer req s.controller in
        (
          record s { controller = c },
          elim e [
            | some f ↦ err (record { code = internal; message = of_error f })
            | none ↦ ok (proto_config p)
          ],
        )

    -- A peer whose authentication has expired.
    unfoldable pub login_expired :
        ℕ → LoginPeerRequest → Peer → GrpcServer → Outcome (GrpcServer × Result Status PeerConfig)
    login_expired now req peer s =
        let (s, user) = validate req.access_token s in
        elim user [
          | err e ↦
              if peer.logged_in
              then (logout_peer G now peer s.controller >>= λ (c, f).
                  done (record s { controller = c }, err (unauthorized e)))
              else done (s, err (unauthorized e))
          | ok user ↦
              if not (str_eq peer.user user)
              then done (
                s,
                refuse permission_denied
                    "cannot login a peer that belongs to another user - delete the peer and re-register",
              )
              else done (login_known now req (update_auth now peer) s)
        ]

    unfoldable pub login_new :
        ℕ → LoginPeerRequest → GrpcServer → GrpcServer × Result Status PeerConfig
    login_new now req s =
        let (s, user) = validate req.access_token s in
        elim user [
          | err e ↦ (s, err (unauthorized e))
          | ok user ↦
              let (c, r) = register_peer G I prefix_string now s.prefix req user s.controller in
              (
                record s { controller = c },
                elim r [
                  | err f ↦ refuse internal "error registering peer"
                  | ok p ↦ ok (proto_config p)
                ],
              )
        ]

    unfoldable pub login_peer :
        ℕ → LoginPeerRequest → GrpcServer → Outcome (GrpcServer × Result Status PeerConfig)
    login_peer now req s =
        if not (validate_machine_id req.machine_id)
        then done (s, refuse invalid_argument "invalid machine ID")
        else elim (G.first_machine s.controller.db req.machine_id) [
          | none ↦ done (login_new now req s)
          | some peer ↦
              if peer.disabled
              then done (s, refuse permission_denied "peer is disabled")
              else (if is_auth_expired now peer
                  then login_expired now req peer s
                  else done (login_known now req peer s))
        ]
