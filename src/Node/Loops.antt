-- ===== src/Node/Loops.antt =====
-- node/packets.go: the loops that read the socket and the tunnel; node/stun.go: the loop that asks for the
-- address of the node from outside.
pub mod Ends
use zeronet.Prelude.{ℕ, zero, suc, List, [], ◌∷◌, some, none, Bool}
use zeronet.Go.{Outcome, done, blocks, ◌>>=◌}
use zeronet.Node.Noise.{Noise}
use zeronet.Node.Net.{Net}
use zeronet.Node.Buffer.{UdpAddr, InboundBuffer, OutboundBuffer}
use zeronet.Node.State.{Node}
use zeronet.Node.Packets.{
  send_stun_request, on_udp_packet, on_tunnel_packet, put_inbound_back, put_outbound_back,
}

-- Bytes that are copied into a buffer, and how many of them there is room for.
abbrev pub fill : List ℕ → List ℕ → List ℕ
fill [] old = old
fill (x ∷ xs) [] = []
fill (x ∷ xs) (y ∷ ys) = x ∷ fill xs ys

abbrev pub filled : List ℕ → List ℕ → ℕ
filled [] old = 0
filled (x ∷ xs) [] = 0
filled (x ∷ xs) (y ∷ ys) = suc (filled xs ys)

-- What a call of `ReadFromUDP` comes to: a datagram with its source, the error of a closed socket, another.
pub data Read : Type 0 where
  datagram : List ℕ → UdpAddr → Read
  closed fails : Read

-- What a call of `Read` of the tunnel comes to. The number is what the random source yields, should the packet
-- start a handshake.
pub data TunnelRead : Type 0 where
  packet : ℕ → List ℕ → TunnelRead
  tunnel_closed tunnel_fails : TunnelRead

abbrev pub received : InboundBuffer → List ℕ → UdpAddr → InboundBuffer
received b bytes a = record b { raw = fill bytes b.raw; size = filled bytes b.raw; raddr = some a }

abbrev pub taken_in : OutboundBuffer → List ℕ → OutboundBuffer
taken_in b bytes = record b { packet = fill bytes b.packet; size = filled bytes b.packet }

module _ {N : Noise} (W : Net) where
  -- Each read has the buffer that the pool gave for it. A socket that gives nothing more keeps the loop waiting.
  unfoldable pub read_udp_packets : List (InboundBuffer × Read) → Node N → Outcome (Node N)
  read_udp_packets [] n = blocks
  read_udp_packets ((b, closed) ∷ rs) n = done (put_inbound_back n)
  read_udp_packets ((b, fails) ∷ rs) n = read_udp_packets rs (put_inbound_back n)
  read_udp_packets ((b, datagram bytes a) ∷ rs) n =
      on_udp_packet W (received b bytes a) n >>= read_udp_packets rs

  unfoldable pub read_tun_packets : List (OutboundBuffer × TunnelRead) → Node N → Outcome (Node N)
  read_tun_packets [] n = blocks
  read_tun_packets ((b, tunnel_closed) ∷ rs) n = done (put_outbound_back n)
  read_tun_packets ((b, tunnel_fails) ∷ rs) n = read_tun_packets rs (put_outbound_back n)
  read_tun_packets ((b, packet seed bytes) ∷ rs) n =
      on_tunnel_packet W seed (taken_in b bytes) n >>= read_tun_packets rs

-- What the loop that asks the server of STUN waits for: a tick of its timer, with whether the name of the server
-- is found then, or the end of the node's context.
pub data Tick : Type 0 where
  ticks : Bool → Tick
  cancelled : Tick

module _ {N : Noise} where
  -- A request that fails is only reported.
  unfoldable pub stun_routine : List Tick → Node N → Outcome (Node N)
  stun_routine [] n = blocks
  stun_routine (cancelled ∷ ts) n = done n
  stun_routine (ticks resolves ∷ ts) n =
      stun_routine ts (elim (send_stun_request resolves n) [ none ↦ n | some m ↦ m ])
