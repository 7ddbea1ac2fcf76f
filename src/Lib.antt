-- ===== src/Lib.antt =====
-- A model of zeronet, a mesh of tunnels between nodes that a controller brings together: the header of
-- the packets, the peer that carries a tunnel to another node, the node with its peers, and the
-- controller.
--
-- Parts. A node has a peer for every other node (node/peer.go, node/peer_transport.go): a handshake of
-- the Noise protocol sets up two ciphers, and packets of the tunnel device go out sealed under the
-- header of pkg/header. The node finds its peers by id for what comes from the network and by address
-- for what goes out (node/node.go), and changes them as the controller tells it (node/grpcclient.go).
-- The controller (controller/) hands out addresses (controller/db/ipam.go), keeps the nodes in a table
-- (controller/db/peer.go), lets them in by access tokens (controller/auth/oauth.go), and tells them of one
-- another over a stream for each (controller/peer_updates.go, controller/grpc_v1.go).
--
-- Files.
--   Prelude: the names that the modules share, Boolean tests, lists over the native numbers.
--   Go: the outcomes of a call (a value, a panic, waiting for ever), results with an error; Go/SyncMap:
--     `sync.Map`; Go/Strings: `strings.Split`.
--   Addr: the addresses of net/netip.
--   Header: pkg/header/header.go. `encode` is Encode on a slice, with what it has of capacity, and
--     `parse` is Parse on a receiver that may be nil.
--   Node/Noise: the library flynn/noise, a parameter; Node/Buffer, Node/Pools: node/queue.go.
--   Node/Peer: node/peer.go and node/peer_transport.go. `Peer` is the struct with its queues, timers and
--     the lock `pendingLock`; every method is a function of the same name in the spelling of the model,
--     into the outcome of the call. A step of `Runs` is one event: a method that another goroutine calls,
--     a timer that fires, or a packet that a routine takes from its queue.
--   Node/State, New, Start, Stop, Packets, Client, Service, Loops, Events: node/node.go,
--     node/grpcclient.go, node/stun.go, node/service.go, node/packets.go, and AddPeer of node/peer.go. The
--     two maps hold pointers, so the node has a store of peers, and a pointer is a place in it; a method
--     called through a pointer changes its place. An event of Events is an update, a datagram, a packet of
--     the tunnel, a call of the user, or an event of one peer; `StopAllPeers` leaves a goroutine for each
--     peer, which runs at an event of its own. A node is consistent if it satisfies `NodeInv` of
--     Node/Invariant.
--   Node/Keys, AuthFlow, Command: the key file of node/helpers.go, node/authflow.go, and node/cmd: the commands
--     that call the service of a running node, over the interface `NodeService`, the program that the service
--     manager runs, and the commands that manage it. A command ends with an `Exit`.
--   Node/Contacts: the abstract view of a node, a contact at each id, and what an update means for it.
--   Logger: pkg/logger/logger.go.
--   Tunnel/Unix: node/tun/tun_nix.go; Tunnel/Windows: node/tun/tun_win.go, as goroutines of which each goes
--     from one use of the shared tunnel to the next in a step, in any order (Threads). A reader without a packet
--     waits until the event is set, by `Close` or by wintun. A use of what is not there any more is an outcome
--     of its own; Windows/Signalled says when the event is there for the reader. Windows/Sound says when counters, locks and stages agree.
--   System: a call of the node with the handler of the controller in its middle, and what a node
--     makes of an announcement of the controller. System/Commands puts them behind the
--     interface of the command `login`.
--   Controller/Types, Store, Ipam, Auth, Channels, Server, Grpc: controller/types/peer.go,
--     controller/db/peer.go, controller/db/ipam.go, controller/auth/oauth.go,
--     controller/peer_updates.go, controller/controller.go, controller/grpc_v1.go with
--     controller/util.go. `Controller` is the struct: the database, the map of channels and the channels.
--     Auth/Config, Startup, Services: the configuration of the provider, and controller/cmd/root.go with
--     controller/db/db.go: the start of the controller, and the group of goroutines that serve, with a failure
--     of a server, a signal and the clean-up as events.
--     Gateway, Jwt, Interceptors: the calls of the web API, with controller/auth/jwt.go and
--     controller/middleware/interceptors.go.
--     Grpc/Streams: UpdateStream once more, with several streams at once, each of which goes from one use of the
--     shared channels to the next in a step; a walk over the map sees the entries that it has when it begins.
--     A handler is a function from the state before to the outcome of the call, with the state after.
--
-- A loop over a socket is a recursion on the list of what its reads give; an empty list keeps it waiting.
--
-- Code of other packages is a parameter: `Noise` for flynn/noise, whose run of the protocol between two
-- sides is a hypothesis (`Exchanged`), `Net` for the parsers of net, net/netip, encoding/base64,
-- golang.org/x/net and pion/stun, `Gorm` for the database, `Netip` for net/netip and go4.org/netipx,
-- `Idp` for the libraries for tokens and the identity provider, `JwtLibrary` for golang-jwt, `Formats` for
-- fmt and fatih/color, `Shell` for the commands of the system, `Windows` for wintun, `KeyFormats` for
-- encoding/base64 and gopkg.in/yaml.v3, `Oauth` for golang.org/x/oauth2, `Manager` for kardianos/service,
-- `Provider`, `Driver` and `Boot` for what a controller starts with. Their fields that are equations are the documented behaviour that the theorems use;
-- Node/Peer/Tests, Node/Tests, Controller/Store/Table and Controller/Ipam/Unary have instances.
--
-- Bounds and fuel. Counters and ids of packets wrap at their width; numbers that a type bounds are
-- written with that bound. The loop of AllocatePeerIP runs on one more than the number of addresses
-- from its start to the last of the family, which is always enough: the loop moves one address at a
-- time, and the zero address, which is never in the set, comes after the last.
--
-- Not modelled: sockets, the reads and writes of a tunnel on Linux and macOS, timers as such, flags and
-- texts of the commands, and the gateway from HTTP to the calls of the web API. A server of the controller is
-- taken to serve before the clean-up stops it. But for the streams of Grpc/Streams, handlers of
-- the controller are run one after the other. A goroutine of a node runs between two others'
-- events, so the lock `mu` of a peer is never found taken: `Stop`, which waits for the routines while it
-- holds that lock, is not modelled against a routine that is between its cipher and the lock.
pub mod Prelude
pub mod Go
pub mod Addr
pub mod Header
pub mod Node
pub mod Controller
pub mod Tunnel
pub mod System
pub mod Logger
