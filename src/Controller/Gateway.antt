-- ===== src/Controller/Gateway.antt =====
-- controller/grpc_v1.go and controller/util.go: the calls of the web API, which carry an access token.
pub mod Authorization
use zeronet.Prelude.{ℕ, String, List, [], ◌∷◌, Bool, Option, none, some, map}
use zeronet.Go.{Outcome, done, ◌>>=◌, Result, ok, err}
use zeronet.Go.Strings.{second_piece}
use zeronet.Controller.Types.{Peer}
use zeronet.Controller.Store.{Gorm}
use zeronet.Controller.Ipam.{Netip, Prefix}
use zeronet.Controller.Auth.{Idp}
use zeronet.Controller.Server.{Failure, peer_does_not_exist}
use zeronet.Controller.Server
use zeronet.Controller.Grpc.{
  GrpcServer, Status, refuse, unauthenticated, not_found, internal, validate, text, Message,
}

-- The values of `authorization`, or a context without metadata.
abbrev pub Metadata : Type 0
Metadata = Option (List String)

unfoldable pub extract_token_metadata : Metadata → Result Status String
extract_token_metadata none = refuse unauthenticated "metadata missing from request context"
extract_token_metadata (some []) = refuse unauthenticated "invalid or missing access token"
extract_token_metadata (some (value ∷ values)) = elim (second_piece "Bearer " value) [
  | none ↦ refuse unauthenticated "invalid or missing access token"
  | some token ↦ ok token
]

-- `ctrlv1.PeerDetails`
pub record PeerDetails : Type 0 where
  pub machine_id : String
  pub id : ℕ
  pub public_key : String
  pub hostname : String
  pub ip : String
  pub endpoint : String
  pub prefix : String
  pub user : String
  pub connected : Bool
  pub disabled : Bool
  pub last_login : String
  pub last_auth : String
  pub created_at : String
  pub updated_at : String

-- `format` is `time.Time.Format` at the layout of the source.
unfoldable pub proto_details : (format : ℕ → String) → Peer → PeerDetails
proto_details format p = record {
  machine_id = p.machine_id;
  id = p.id;
  public_key = p.noise_public_key;
  hostname = p.hostname;
  ip = p.ip;
  endpoint = p.endpoint;
  prefix = p.prefix;
  user = p.user;
  connected = p.connected;
  disabled = p.disabled;
  last_login = format p.last_login;
  last_auth = format p.last_auth;
  created_at = format p.created_at;
  updated_at = format p.updated_at;
}

abbrev pub deleted_or : Option Failure → Result Status (Unit {0})
deleted_or none = ok tt
deleted_or (some peer_does_not_exist) = refuse not_found "peer not found"
deleted_or (some _) = refuse internal "error deleting peer"

module _ (G : Gorm) (P : Idp) (I : Netip) (prefix_string : Prefix → String) where
  -- The server with its cache, and the token's user, or the status of the refusal.
  unfoldable pub authorize :
      Metadata
      → GrpcServer G P I prefix_string
      → GrpcServer G P I prefix_string × Result Status String
  authorize md s = elim (extract_token_metadata md) [
    | err e ↦ (s, err e)
    | ok token ↦
        let (s', user) = validate G P I prefix_string token s in
        (s', elim user [ err e ↦ refuse unauthenticated e | ok user ↦ ok user ])
  ]

  unfoldable pub get_peers :
      (format : ℕ → String)
      → Metadata
      → GrpcServer G P I prefix_string
      → GrpcServer G P I prefix_string × Result Status (List PeerDetails)
  get_peers format md s =
      let (s', user) = authorize md s in
      (
        s',
        elim user [
          | err e ↦ err e
          | ok _ ↦ elim (G.find_all s'.controller.db) [
            | none ↦ refuse internal "error getting peers from database"
            | some peers ↦ ok (map (proto_details format) peers)
          ]
        ],
      )

  unfoldable pub delete_peer :
      ℕ
      → ℕ
      → Metadata
      → GrpcServer G P I prefix_string
      → Outcome (GrpcServer G P I prefix_string × Result Status (Unit {0}))
  delete_peer now id md s =
      let (s', user) = authorize md s in
      elim user [
        | err e ↦ done (s', err e)
        | ok _ ↦ Server.delete_peer G now id s'.controller >>= λ x.
            done (record s' { controller = x.0 }, deleted_or x.1)
      ]
