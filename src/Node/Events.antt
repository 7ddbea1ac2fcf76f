-- ===== src/Node/Events.antt =====
-- What can happen to a node and to its peers, one event at a time.
use zeronet.Prelude.{ℕ, Bool, List, [], ◌∷◌}
use zeronet.Go.{Outcome, done, ◌>>=◌}
use zeronet.Node.Noise.{Noise}
use zeronet.Node.Net.{Net}
use zeronet.Node.Buffer.{InboundBuffer, OutboundBuffer}
use zeronet.Node.State.{Node, call, env_of}
use zeronet.Node.Stop.{stop, finish_stop}
use zeronet.Node.Start.{World, start}
use zeronet.Node.Client.{handle_update, request_punch}
use zeronet.Node.Packets.{on_udp_packet, on_tunnel_packet, put_inbound_back, put_outbound_back}
use zeronet.Node.Service.{Reply, login}
use zeronet.Node.Peer.Lifecycle.{Event, step}
use zeronet.Controller.Channels.{Update}

-- A number is a goroutine, a pointer to a peer, or what the random source yields.
pub data NodeEvent : Type 0 where
  starts : World → NodeEvent
  stops : NodeEvent
  finishes_stop : ℕ → NodeEvent
  logs_in : Reply → Bool → NodeEvent
  update_arrives : Update → NodeEvent
  datagram_arrives : InboundBuffer → NodeEvent
  packet_leaves : ℕ → OutboundBuffer → NodeEvent
  punches : ℕ → NodeEvent
  peer_event : ℕ → Event → NodeEvent
  read_fails tunnel_fails : NodeEvent

module _ {N : Noise} (W : Net) where
  unfoldable pub node_step : NodeEvent → Node N → Outcome (Node N)
  node_step (starts w) n = start W w n >>= λ r. done r.0
  node_step stops n = done (stop n).0
  node_step (finishes_stop j) n = finish_stop j n
  node_step (logs_in reply pkce) n = login W reply pkce n >>= λ r. done r.0
  node_step (update_arrives u) n = handle_update W u n
  node_step (datagram_arrives b) n = on_udp_packet W b n
  node_step (packet_leaves seed b) n = on_tunnel_packet W seed b n
  node_step (punches id) n = done (request_punch W id n)
  node_step (peer_event k e) n = call k (step (env_of n) e) n
  node_step read_fails n = done (put_inbound_back n)
  node_step tunnel_fails n = done (put_outbound_back n)

  unfoldable pub node_run : List NodeEvent → Node N → Outcome (Node N)
  node_run [] n = done n
  node_run (e ∷ es) n = node_step e n >>= node_run es
