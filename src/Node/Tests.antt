-- ===== src/Node/Tests.antt =====
-- A node with one peer, with which it has a session, over parsers that tell texts apart by their length.
use zeronet.Node.Peer.Handshake.{lock_pending}
use Prim.Native.String.{len}
use mathlib.Core.Option
use zeronet.Prelude.{
  ℕ, ◌≡◌, refl, true, false, String, Option, some, none, List, [], ◌∷◌, ◌++◌, str_eq, if◌then◌else◌,
  All,
}
use zeronet.Go.{done}
use zeronet.Go.SyncMap.{load, store, delete, nat_key}
use zeronet.Addr.{v4, invalid}
use zeronet.Header.{parse, be_value, stamped, data_type, handshake_type}
use zeronet.Node.Net.{Net}
use zeronet.Node.Buffer.{InboundBuffer, OutboundBuffer}
use zeronet.Node.Peer.State.{Peer}
use zeronet.Node.Peer.Lifecycle.{start, inbound_packet, handshake_packet, new_peer}
use zeronet.Node.Peer.Tests.{toy, toy_pattern, message, connected, connected-Inv}
use zeronet.Node.State.{Node, call, peer_at, addr_key, insert_peer}
use zeronet.Node.New.{Machine, new_node}
use zeronet.Node.Client.{
  receive_updates, handle_update, handle_initial_sync, add_peer, peer_of, connect_peer, update_peer,
  set_endpoint, set_hostname, set_key, set_ip, compare_addr_port, handle_peer_connect,
}
use zeronet.Node.Packets.{on_udp_packet, on_tunnel_packet, put_outbound_back, dispatch}
use zeronet.Node.Events.{node_step, node_run, datagram_arrives, update_arrives}
use zeronet.Node.Invariant.{NodeInv}
use zeronet.Node.Invariant.Steps.{node_step-NodeInv}
use zeronet.Node.Routing.{on_udp_packet_lem, handed, with_peer}
use zeronet.Node.Sync.{handle_initial_sync_lem, AllStarted, IsFound, Parses}
use zeronet.Node.Contacts.{directory, learn_all, Contact}
use zeronet.Node.Contacts.Updates.{receive_updates-directory}
use zeronet.Node.Moves.{connect_peer-moves}
use zeronet.Controller.Types.{ProtoPeer}
use zeronet.Controller.Channels.{Update, connect}

abbrev pub if_any {ℓ} : {A : Type ℓ} → String → A → Option A
if_any s a = if str_eq s "" then none else some a

abbrev pub first : List ℕ → Option ℕ
first [] = none
first (x ∷ xs) = some x

abbrev pub net : Net
net = record {
  parse_addr = λ s. if_any s (v4 (len s));
  parse_prefix = λ s. some (record { addr = v4 (len s); bits = 24 });
  decode_key = λ s. if_any s (len s ∷ []);
  encode_key = λ k. "new key";
  resolve_udp_addr = λ s. some (record { ip = len s; port = 1 });
  parse_addr_port = λ s. if_any s (record { ip = len s; port = 1 });
  addr_port_string = λ a. "address";
  ip_destination = first;
  is_stun_message = λ m. false;
  decode_stun_message = λ m. none;
}

abbrev pub home : Node toy
home = record {
  id = 7;
  ip = record { addr = v4 99; bits = 24 };
  key_pair = record { public = 1 ∷ []; private = 2 ∷ [] };
  machine_id = "machine";
  hostname = "home";
  discovered_endpoint = "";
  peers = connected ∷ [];
  by_id = (3, 0) ∷ [];
  by_ip = (v4 100, 0) ∷ [];
  has_conn = true;
  has_tun = true;
  run_cancelled = false;
  running = true;
  logged_in = true;
  stopping = [];
  trace = [];
}

pub home-NodeInv : NodeInv toy_pattern home
home-NodeInv = record {
  ids = ((connected, refl, refl), tt);
  ips = ((3, (connected, refl, refl)), tt);
  stops = tt;
  peers = (connected-Inv, tt);
}

-- The peer of `home`, as the controller describes it when it has no endpoint yet.
abbrev desk : ProtoPeer
desk = record {
  id = 3;
  hostname = "desk";
  public_key = "keys";
  endpoint = "";
  ip = "10.0.0.0";
  prefix = "";
  user = "";
  connected = true;
}

abbrev moved_desk : ProtoPeer
moved_desk = record desk { endpoint = "1"; ip = "10.0.0.1" }

abbrev connects : Update
connects = record {
  update_type = connect;
  peer_list = some (record { peers = moved_desk ∷ []; count = 1 });
  punch_endpoint = "";
}

-- A data packet of peer 3, as it is read.
abbrev pub datagram : InboundBuffer
datagram = record (message 0) {
  raw = 1 ∷ 2 ∷ 0 ∷ 0 ∷ 0 ∷ 3 ∷ 0 ∷ 0 ∷ 0 ∷ 0 ∷ 0 ∷ 0 ∷ 0 ∷ 0 ∷ 0xfe ∷ 0xed ∷ 9 ∷ [];
  size = 17;
  header = stamped 0 0 0;
  peer = none;
}

datagram_parsed : parse (some (stamped 0 0 0)) datagram.raw ≡ (some (stamped data_type 3 0), none)
unfolding parse be_value
datagram_parsed = refl

abbrev busy : Node toy
busy = record home {
  peers = record connected { inbound = some (handed datagram (stamped data_type 3 0)) ∷ [] } ∷ [];
}

node_step-NodeInv_example : NodeInv toy_pattern busy
unfolding node_step on_udp_packet parse be_value dispatch load call inbound_packet
node_step-NodeInv_example =
    node_step-NodeInv toy_pattern net (datagram_arrives datagram) home busy home-NodeInv refl

on_udp_packet_lem_example :
    (p : Peer toy) × (peer_at home.peers 0 ≡ some p)
    × (p.id ≡ 3)
    × (data_type ≡ handshake_type
        → on_udp_packet net datagram home
          ≡ with_peer 0 home (handshake_packet (handed datagram (stamped data_type 3 0)) p))
    × (data_type ≡ data_type
        → on_udp_packet net datagram home
          ≡ with_peer 0 home (done (inbound_packet (handed datagram (stamped data_type 3 0)) p)))
unfolding load
on_udp_packet_lem_example =
    (on_udp_packet_lem toy_pattern net datagram (stamped data_type 3 0) home home-NodeInv
        datagram_parsed).0
      0 refl

-- A new node, and what it is after the peer has been connected.
abbrev machine : Machine
machine = record {
  key_pair = some (record { public = 1 ∷ []; private = 2 ∷ [] });
  machine_id = some "machine";
  host = some "home.example";
  dials = true;
}

abbrev blank : Node toy
blank = record home {
  id = 0;
  ip = record { addr = invalid; bits = 0 };
  peers = [];
  by_id = [];
  by_ip = [];
  has_conn = false;
  has_tun = false;
  running = false;
  logged_in = false;
}

blank_new : new_node machine ≡ some blank
unfolding new_node Option.bind
blank_new = refl

abbrev met : Node toy
met = record blank {
  peers =
      record (new_peer 3 (v4 8) "desk" (4 ∷ []) (record { ip = 1; port = 1 })) {
        routines = true;
        running = true;
        pending_locked = true;
      }
      ∷ [];
  by_id = (3, 0) ∷ [];
  by_ip = (v4 8, 0) ∷ [];
}

met_done : node_run net (update_arrives connects ∷ []) blank ≡ done met
unfolding node_run node_step handle_update handle_peer_connect connect_peer add_peer peer_of
    insert_peer load store delete call start lock_pending Option.bind
met_done = refl

moved-Parses : Parses toy net moved_desk
unfolding peer_of Option.bind
moved-Parses = (_, refl)

handle_initial_sync_lem_example :
    (m : Node toy) × (qs : List (Peer toy)) × (handle_initial_sync net connects blank ≡ done m)
    × (m.peers ≡ blank.peers ++ qs)
    × AllStarted net (moved_desk ∷ []) qs
    × All (IsFound 0 m) qs
handle_initial_sync_lem_example =
    (handle_initial_sync_lem net connects (record { peers = moved_desk ∷ []; count = 1 }) blank
        refl).0
      (moved-Parses, tt)

-- The peer is connected again, at another address.
abbrev moved : Node toy
moved = record home {
  peers = record connected { ip = v4 8; raddr = record { ip = 7; port = 1 } } ∷ [];
}

moves : connect_peer net moved_desk home ≡ done moved
unfolding connect_peer load call update_peer set_endpoint compare_addr_port set_hostname set_key
    set_ip
moves = refl

receives : receive_updates net (connects ∷ []) home ≡ done moved
unfolding receive_updates handle_update handle_peer_connect
receives = rw moves refl

receive_updates-directory_example : directory moved ≡ learn_all net (connects ∷ []) (directory home)
receive_updates-directory_example =
    receive_updates-directory toy_pattern net (connects ∷ []) home moved home-NodeInv receives

connect_peer-moves_example :
    ((c : Contact) × (directory moved 3 ≡ some c) × (c.ip ≡ v4 8))
    × ((seed : ℕ) (b : OutboundBuffer)
        → net.ip_destination b.packet ≡ some 8
        → on_tunnel_packet net seed b moved ≡ done (put_outbound_back moved))
unfolding load
connect_peer-moves_example =
    connect_peer-moves toy_pattern net moved_desk home moved 0 8 home-NodeInv refl refl refl moves
