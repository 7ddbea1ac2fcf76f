-- ===== src/System.antt =====
-- A node and the controller together: what crosses the network between them, with the calls of both sides
-- one after the other.
pub mod Login
pub mod Announcement
pub mod Commands
pub mod Tests
use zeronet.Prelude.{ℕ, Bool, String}
use zeronet.Go.{Outcome, done, ◌>>=◌, Result, ok, err}
use zeronet.Node.Noise.{Noise}
use zeronet.Node.Net.{Net}
use zeronet.Node.State.{Node}
use zeronet.Node.Service.{Reply, refused, configured, login, login_request}
use zeronet.Node.Service
use zeronet.Controller.Types.{PeerConfig}
use zeronet.Controller.Store.{Gorm}
use zeronet.Controller.Ipam.{Netip, Prefix}
use zeronet.Controller.Auth.{Idp}
use zeronet.Controller.Grpc.{GrpcServer, Status, login_peer}

-- An error of a handler reaches the node as its status.
abbrev pub reply_of : Result Status PeerConfig → Reply
reply_of (ok cfg) = configured cfg
reply_of (err s) = refused s.code

module _ {N : Noise} (W : Net) (G : Gorm) (P : Idp) (I : Netip)
    (prefix_string : Prefix → String) where
  -- `Login` of node/service.go, with `LoginPeer` of controller/grpc_v1.go in its middle.
  unfoldable pub log_in :
      ℕ
      → String
      → Bool
      → Node N
      → GrpcServer G P I prefix_string
      → Outcome (Node N × GrpcServer G P I prefix_string × Service.Login)
  log_in now token pkce n s =
      login_peer G P I prefix_string now (login_request W token n) s >>= λ x.
      login W (reply_of x.1) pkce n >>= λ y. done (y.0, x.0, y.1)
