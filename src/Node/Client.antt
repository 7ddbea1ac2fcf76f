-- ===== src/Node/Client.antt =====
-- node/grpcclient.go, and `AddPeer` of node/peer.go: what a node makes of the updates that the
-- controller sends, and what it tells its peers.
use Channels.{punch}
use Prim.Native.Nat.{Ordering, compare, eq}
use zeronet.Prelude.{
  ℕ, List, [], ◌∷◌, Bool, true, false, Option, none, some, String, if◌then◌else◌, ltb, not, ◌&&◌,
  ◌==◌, str_eq, length,
}
use zeronet.Go.{Outcome, done, panics, failed, slice_bounds, nil_pointer, deref, or_panic, ◌>>=◌}
use zeronet.Go.SyncMap.{load, nat_key}
use zeronet.Addr.{Addr, invalid, addr_eq}
use zeronet.Header.{encode, new_header, punch_type, Slice}
use zeronet.Node.Noise.{Noise}
use zeronet.Node.Net.{Net}
use zeronet.Node.Buffer.{UdpAddr, zeros}
use zeronet.Node.Peer.State.{Peer}
use zeronet.Node.Peer.Handshake.{slice_of}
use zeronet.Node.Peer.Lifecycle.{new_peer, start}
use zeronet.Node.Peer.Lifecycle
use mathlib.Core.Option
use zeronet.Node.State.{NodeEffect, Node, call, insert_peer, does}
use zeronet.Node.Stop.{stop}
use zeronet.Controller.Types.{ProtoPeer}
use zeronet.Controller.Channels.{Update, init, connect, disconnect, logout}
use zeronet.Controller.Channels

-- node/helpers.go
unfoldable pub compare_addr_port : UdpAddr → UdpAddr → Ordering
compare_addr_port a b = elim (compare a.ip b.ip) [ eq ↦ compare a.port b.port | c ↦ c ]

abbrev pub is_equal : Ordering → Bool
is_equal eq = true
is_equal _ = false

-- `subtle.ConstantTimeCompare`
abbrev pub bytes_eq : List ℕ → List ℕ → Bool
bytes_eq [] [] = true
bytes_eq [] (b ∷ bs) = false
bytes_eq (a ∷ xs) [] = false
bytes_eq (a ∷ xs) (b ∷ ys) = a == b && bytes_eq xs ys

abbrev pub or_invalid : Option Addr → Addr
or_invalid none = invalid
or_invalid (some a) = a

module _ {N : Noise} (W : Net) where
  -- `AddPeer` up to the maps; an error leaves them alone.
  unfoldable pub peer_of : ProtoPeer → Option (Peer N)
  peer_of info = Option.bind (W.parse_addr info.ip) λ ip.
      Option.bind (W.decode_key info.public_key) λ key.
        Option.bind (W.resolve_udp_addr info.endpoint)
          λ raddr. some (new_peer info.id ip info.hostname key raddr)

  unfoldable pub add_peer : ProtoPeer → Node N → Node N × Option ℕ
  add_peer info n = elim (peer_of info) [
    | none ↦ (n, none)
    | some p ↦ (insert_peer p n, some (length n.peers))
  ]

  -- `Start`, whose error is a panic in all that call it.
  abbrev pub start_peer : Peer N → Outcome (Peer N)
  start_peer p = start p >>= λ r. or_panic failed r

  unfoldable pub set_endpoint : UdpAddr → Peer N → Peer N
  set_endpoint new p =
      if is_equal (compare_addr_port p.raddr new)
      then p
      else elim (W.resolve_udp_addr (W.addr_port_string new)) [
        | none ↦ p
        | some a ↦ record p { raddr = a }
      ]

  unfoldable pub set_hostname : String → Peer N → Peer N
  set_hostname h p = if str_eq p.hostname h then p else record p { hostname = h }

  -- A peer with a new key is stopped and started again.
  unfoldable pub set_key : Option (List ℕ) → Peer N → Outcome (Peer N)
  set_key none p = done p
  set_key (some key) p =
      if bytes_eq p.pubkey key
      then done p
      else (Lifecycle.stop p >>= λ q. start_peer (record q { pubkey = key }))

  unfoldable pub set_ip : Addr → Peer N → Peer N
  set_ip a p = if addr_eq p.ip a then p else record p { ip = a }

  -- `none` is the error that the endpoint does not parse. An address that does not parse is the zero
  -- `Addr`.
  unfoldable pub update_peer : ProtoPeer → Peer N → Outcome (Option (Peer N))
  update_peer info p = elim (W.parse_addr_port info.endpoint) [
    | none ↦ done none
    | some new ↦
        set_key (W.decode_key info.public_key) (set_hostname info.hostname (set_endpoint new p))
        >>= λ q. done (some (set_ip (or_invalid (W.parse_addr info.ip)) q))
  ]

  unfoldable pub handle_punch_request : Update → Node N → Outcome (Node N)
  handle_punch_request u n = elim (W.resolve_udp_addr u.punch_endpoint) [
    | none ↦ done n
    | some a ↦
        if not n.has_conn
        then panics nil_pointer
        else (let room : Slice = record { backing = zeros 16; len = 16 } in
            done (
              does
                (NodeEffect.write_to_udp
                  (slice_of (encode (some new_header) room punch_type n.id 0).1) a)
                n))
  ]

  unfoldable pub sync_peers : List ProtoPeer → Node N → Outcome (Node N)
  sync_peers [] n = done n
  sync_peers (info ∷ rest) n =
      let (m, k) = add_peer info n in
      or_panic failed k >>= λ k. call k start_peer m >>= λ m. sync_peers rest m

  unfoldable pub handle_initial_sync : Update → Node N → Outcome (Node N)
  handle_initial_sync u n = deref u.peer_list >>= λ list. sync_peers list.peers n

  unfoldable pub connect_peer : ProtoPeer → Node N → Outcome (Node N)
  connect_peer info n = elim (load info.id n.by_id) [
    | none ↦ let (m, k) = add_peer info n in elim k [ none ↦ done m | some k ↦ call k start_peer m ]
    | some k ↦ call k (λ p. update_peer info p >>= λ r. or_panic failed r) n
  ]

  unfoldable pub handle_peer_connect : Update → Node N → Outcome (Node N)
  handle_peer_connect u n = deref u.peer_list >>= λ list.
      if ltb list.count 1
      then done n
      else elim list.peers [ [] ↦ panics slice_bounds | info ∷ rest ↦ connect_peer info n ]

  unfoldable pub handle_logout : Node N → Node N
  handle_logout n = record (stop n).0 { logged_in = false }

  unfoldable pub handle_update : Update → Node N → Outcome (Node N)
  handle_update u n = elim u.update_type [
    | init ↦ handle_initial_sync u n
    | connect ↦ handle_peer_connect u n
    | disconnect ↦ done n
    | punch ↦ handle_punch_request u n
    | logout ↦ done (handle_logout n)
  ]

  -- What the stream yields, until it ends or fails.
  unfoldable pub receive_updates : List Update → Node N → Outcome (Node N)
  receive_updates [] n = done n
  receive_updates (u ∷ us) n = handle_update u n >>= receive_updates us

  -- `RequestPunch`, which a peer calls by the effect `request_punch`.
  unfoldable pub request_punch : ℕ → Node N → Node N
  request_punch id n = does (NodeEffect.punch n.machine_id id n.discovered_endpoint) n
