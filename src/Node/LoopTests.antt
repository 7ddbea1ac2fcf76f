-- ===== src/Node/LoopTests.antt =====
-- The loops of a node, and the pools of buffers, on a few packets.
use zeronet.Prelude.{some, false, List, [], ◌∷◌, ◌++◌, ◌≡◌, true, map, refl}
use zeronet.Node.Buffer.{InboundBuffer, OutboundBuffer}
use zeronet.Node.Peer.Tests.{here, outgoing}
use zeronet.Node.Tests.{home, net, datagram}
use zeronet.Node.Events.{node_run}
use zeronet.Node.Loops
use zeronet.Node.Loops.{
  Read, TunnelRead, fails, closed, tunnel_closed, read_udp_packets, read_tun_packets,
}
use zeronet.Node.Loops.Ends.{event_of, tunnel_event_of, loops_end}
use zeronet.Go.{done}
use zeronet.Node.State.{NodeEffect}
use zeronet.Node.Packets.{send_stun_request}
use zeronet.Node.Loops.{stun_routine, ticks, cancelled}
use zeronet.Node.Pools.Cleared.{PoolCall, gets, puts}

-- A datagram, an error, and the end; a packet for a peer that is not known, and the end.
abbrev reads : List (InboundBuffer × Read)
reads = (datagram, Loops.datagram (1 ∷ 2 ∷ []) here) ∷ (datagram, fails) ∷ []

abbrev tunnel_reads : List (OutboundBuffer × TunnelRead)
tunnel_reads = (outgoing, Loops.packet 5 (101 ∷ [])) ∷ []

loops_end_example :
    (read_udp_packets net (reads ++ (datagram, closed) ∷ reads) home
      ≡ node_run net (map event_of (reads ++ (datagram, closed) ∷ [])) home)
    × (read_tun_packets net (tunnel_reads ++ (outgoing, tunnel_closed) ∷ tunnel_reads) home
        ≡ node_run net (map tunnel_event_of (tunnel_reads ++ (outgoing, tunnel_closed) ∷ [])) home)
loops_end_example = loops_end net reads datagram reads tunnel_reads outgoing tunnel_reads home tt tt

-- A buffer is got and put back with a datagram in it, and got again.
abbrev in_calls : List (PoolCall InboundBuffer)
in_calls = gets (some 0) ∷ puts datagram ∷ gets (some 0) ∷ []

abbrev out_calls : List (PoolCall OutboundBuffer)
out_calls = puts outgoing ∷ []

-- The name of the server is found at the first of two ticks.
asks_once :
    stun_routine (ticks true ∷ ticks false ∷ cancelled ∷ []) home
    ≡ done (record home { trace = NodeEffect.stun_request ∷ home.trace })
unfolding stun_routine send_stun_request
asks_once = refl
