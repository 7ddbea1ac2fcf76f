-- ===== src/Node/Service.antt =====
-- node/service.go: the calls of the local service, with which a user drives the node.
use Prim.Native.String.{◌++◌}
use zeronet.Prelude.{Bool, true, false, none, some, String, if◌then◌else◌}
use zeronet.Go.{Outcome, done, panics, nil_pointer, slice_bounds, failed, ◌>>=◌}
use zeronet.Go.Strings.{second_part}
use zeronet.Node.Noise.{Noise}
use zeronet.Node.Net.{Net}
use zeronet.Node.State.{Node}
use zeronet.Node.Stop.{NodeError, stop}
use zeronet.Node.Start.{World, start}
use zeronet.Controller.Types.{PeerConfig}
use zeronet.Controller.Server.{LoginPeerRequest}
use zeronet.Controller.Grpc.{Code, unauthenticated}

-- What `LoginPeer` of the controller came to: a status, another error, or a configuration.
pub data Reply : Type 0 where
  refused : Code → Reply
  broken : Reply
  configured : PeerConfig → Reply

-- The response, or the error, of `Login`.
pub data Login : Type 0 where
  login_successful need_access_token error : Login

-- The answers of `Up` and `Down`.
pub data Answer : Type 0 where
  node_is_running node_is_stopped : Answer
  refuses : NodeError → Answer

abbrev is_unauthenticated : Code → Bool
is_unauthenticated unauthenticated = true
is_unauthenticated _ = false

module _ {N : Noise} (W : Net) where
  unfoldable pub up : World → Node N → Outcome (Node N × Answer)
  up w n = start W w n >>= λ r. done (r.0, elim r.1 [ none ↦ node_is_running | some e ↦ refuses e ])

  unfoldable pub down : Node N → Node N × Answer
  down n = let (m, e) = stop n in (m, elim e [ none ↦ node_is_stopped | some e ↦ refuses e ])

  unfoldable pub login_request : String → Node N → LoginPeerRequest
  login_request token n = record {
    machine_id = n.machine_id;
    public_key = W.encode_key n.key_pair.public;
    hostname = n.hostname;
    endpoint = n.discovered_endpoint;
    access_token = token;
  }

  -- 47 is the code of `/`.
  unfoldable pub configure : PeerConfig → Node N → Outcome (Node N × Login)
  configure cfg n = elim (second_part 47 cfg.prefix) [
    | none ↦ panics slice_bounds
    | some bits ↦ elim (W.parse_prefix (cfg.tunnel_ip ++ "/" ++ bits)) [
      | none ↦ panics failed
      | some p ↦ done (record n { id = cfg.peer_id; ip = p; logged_in = true }, login_successful)
    ]
  ]

  -- After a status other than `Unauthenticated` the call goes on with a response that is nil. `pkce`
  -- says whether the controller gives what a user needs to get a token.
  unfoldable pub login : Reply → Bool → Node N → Outcome (Node N × Login)
  login broken pkce n = done (n, error)
  login (refused c) pkce n =
      if is_unauthenticated c
      then done (n, if pkce then need_access_token else error)
      else panics nil_pointer
  login (configured cfg) pkce n = configure cfg n
