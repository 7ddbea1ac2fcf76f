-- ===== src/Node/Loops/Ends.antt =====
-- The loops end when what they read is closed, and until then are runs of the node's events.
use zeronet.Prelude.{List, [], ◌∷◌, ◌++◌, ◌≡◌, refl, ap, map}
use mathlib.Core.Path.{fun_ext}
use zeronet.Go.{◌>>=◌}
use zeronet.Node.Noise.{Noise}
use zeronet.Node.Net.{Net}
use zeronet.Node.Buffer.{InboundBuffer, OutboundBuffer}
use zeronet.Node.State.{Node}
use zeronet.Node.Packets.{on_udp_packet, on_tunnel_packet, put_inbound_back, put_outbound_back}
use zeronet.Node.Events
use zeronet.Node.Events.{NodeEvent, node_step, node_run}
use zeronet.Node.Loops.{
  Read, TunnelRead, datagram, closed, fails, packet, tunnel_closed, tunnel_fails, received,
  taken_in, read_udp_packets, read_tun_packets,
}

-- No read of the list finds the socket closed.
abbrev pub StaysOpen : List (InboundBuffer × Read) → Type 0
StaysOpen [] = Unit
StaysOpen ((b, closed) ∷ rs) = ⊥
StaysOpen ((b, r) ∷ rs) = StaysOpen rs

abbrev pub TunnelStaysOpen : List (OutboundBuffer × TunnelRead) → Type 0
TunnelStaysOpen [] = Unit
TunnelStaysOpen ((b, tunnel_closed) ∷ rs) = ⊥
TunnelStaysOpen ((b, r) ∷ rs) = TunnelStaysOpen rs

abbrev pub event_of : InboundBuffer × Read → NodeEvent
event_of (b, datagram bytes a) = Events.datagram_arrives (received b bytes a)
event_of (b, closed) = Events.read_fails
event_of (b, fails) = Events.read_fails

abbrev pub tunnel_event_of : OutboundBuffer × TunnelRead → NodeEvent
tunnel_event_of (b, packet seed bytes) = Events.packet_leaves seed (taken_in b bytes)
tunnel_event_of (b, tunnel_closed) = Events.tunnel_fails
tunnel_event_of (b, tunnel_fails) = Events.tunnel_fails

module _ {N : Noise} (W : Net) where
  read_udp_packets_lem :
      (rs : List (InboundBuffer × Read)) (b : InboundBuffer) (later : List (InboundBuffer × Read))
      (n : Node N)
      → StaysOpen rs
      → read_udp_packets W (rs ++ (b, closed) ∷ later) n
        ≡ node_run W (map event_of (rs ++ (b, closed) ∷ [])) n
  unfolding read_udp_packets node_run node_step
  read_udp_packets_lem [] b later n h = refl
  read_udp_packets_lem ((c, closed) ∷ rs) b later n h = absurd h
  read_udp_packets_lem ((c, fails) ∷ rs) b later n h =
      read_udp_packets_lem rs b later (put_inbound_back n) h
  read_udp_packets_lem ((c, datagram bytes a) ∷ rs) b later n h =
      ap (λ k. on_udp_packet W (received c bytes a) n >>= k)
        (fun_ext λ m. read_udp_packets_lem rs b later m h)

  read_tun_packets_lem :
      (rs : List (OutboundBuffer × TunnelRead)) (b : OutboundBuffer)
      (later : List (OutboundBuffer × TunnelRead)) (n : Node N)
      → TunnelStaysOpen rs
      → read_tun_packets W (rs ++ (b, tunnel_closed) ∷ later) n
        ≡ node_run W (map tunnel_event_of (rs ++ (b, tunnel_closed) ∷ [])) n
  unfolding read_tun_packets node_run node_step
  read_tun_packets_lem [] b later n h = refl
  read_tun_packets_lem ((c, tunnel_closed) ∷ rs) b later n h = absurd h
  read_tun_packets_lem ((c, tunnel_fails) ∷ rs) b later n h =
      read_tun_packets_lem rs b later (put_outbound_back n) h
  read_tun_packets_lem ((c, packet seed bytes) ∷ rs) b later n h =
      ap (λ k. on_tunnel_packet W seed (taken_in c bytes) n >>= k)
        (fun_ext λ m. read_tun_packets_lem rs b later m h)

  -- Each of the two loops ends at the first read that finds its socket, or the tunnel, closed, whatever would be
  -- read after it, unless handling a packet panics or waits for ever before that; and what it does is the run of
  -- the events of its reads.
  pub loops_end :
      (rs : List (InboundBuffer × Read)) (b : InboundBuffer) (later : List (InboundBuffer × Read))
      (ts : List (OutboundBuffer × TunnelRead)) (c : OutboundBuffer)
      (later' : List (OutboundBuffer × TunnelRead)) (n : Node N)
      → StaysOpen rs
      → TunnelStaysOpen ts
      → (read_udp_packets W (rs ++ (b, closed) ∷ later) n
          ≡ node_run W (map event_of (rs ++ (b, closed) ∷ [])) n)
        × (read_tun_packets W (ts ++ (c, tunnel_closed) ∷ later') n
            ≡ node_run W (map tunnel_event_of (ts ++ (c, tunnel_closed) ∷ [])) n)
  loops_end rs b later ts c later' n open_ open' =
      (read_udp_packets_lem rs b later n open_, read_tun_packets_lem ts c later' n open')
