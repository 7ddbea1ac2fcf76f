-- ===== src/Node/Invariant/Packets.antt =====
-- The invariant of a node through the packets that it reads, and the events of its peers.

use zeronet.Prelude.{
  ℕ, ◌≡◌, refl, false, Option, some, none, List, arith, Bool-cases, inl, inr, ◌==◌, not, ◌||◌,
  Option-cases,
}
use zeronet.Go.{Outcome, done}
use zeronet.Go.SyncMap.{load, nat_key}
use zeronet.Addr.{v4, addr_eq}
use zeronet.Header.{parse, handshake_type, data_type}
use zeronet.Node.Noise.{Noise, IkPattern}
use zeronet.Node.Net.{Net}
use zeronet.Node.Buffer.{InboundBuffer, OutboundBuffer}
use zeronet.Node.Peer.State.{Peer}
use zeronet.Node.Peer.Lifecycle.{
  step, Event, data_arrives, handshake_arrives, packet_leaves, handshake_packet, inbound_packet,
}
use zeronet.Node.Peer.Invariant.Events.{step-Inv}
use zeronet.Node.Peer.Identity.Steps.{step-Same}
use zeronet.Node.State.{Node, call, env_of, addr_key}
use zeronet.Node.Packets.{
  hand_over, dispatch, handle_stun_message, on_udp_packet, on_tunnel_packet, in_network, header_of,
}
use zeronet.Node.Invariant.{NodeInv}
use zeronet.Node.Invariant.Store.{call-NodeInv, NodeInv-same}

module _ {N : Noise} (L : IkPattern N) where
  pub step-NodeInv :
      (k : ℕ) (e : Event) (n m : Node N)
      → NodeInv L n
      → call k (step (env_of n) e) n ≡ done m
      → NodeInv L m
  step-NodeInv k e n m h f =
      call-NodeInv L k (step (env_of n) e) n m
        (λ p q v g. ((step-Same (env_of n) e p q g).0, step-Inv L (env_of n) e p q v g)) h f

  hand_over-NodeInv :
      (sender : ℕ) (f : InboundBuffer → Peer N → Outcome (Peer N)) (b : InboundBuffer)
      (n m : Node N)
      → ((k : ℕ) (c : InboundBuffer) → call k (f c) n ≡ done m → NodeInv L m)
      → NodeInv L n
      → hand_over sender f b n ≡ done m
      → NodeInv L m
  hand_over-NodeInv sender f b n m keeps h e = go (load sender n.by_id) refl
    where
      go : (o : Option ℕ) → load sender n.by_id ≡ o → NodeInv L m
      go none a = NodeInv-same L n m (ground arith, ground arith, ground arith, ground arith) h
      go (some k) a = keeps k (record b { peer = some sender }) (ground arith)

  dispatch-NodeInv :
      (b : InboundBuffer) (n m : Node N) → NodeInv L n → dispatch b n ≡ done m → NodeInv L m
  unfolding dispatch
  dispatch-NodeInv b n m h e = elim (Bool-cases (b.header.type == handshake_type)) [
    | inl t ↦
        hand_over-NodeInv b.header.sender_index handshake_packet b n m
          (λ k c g. step-NodeInv k (handshake_arrives c) n m h (unfold step in g)) h (rw t at e)
    | inr t ↦ elim (Bool-cases (b.header.type == data_type)) [
      | inl d ↦
          hand_over-NodeInv b.header.sender_index (λ c p. done (inbound_packet c p)) b n m
            (λ k c g. step-NodeInv k (data_arrives c) n m h (unfold step in g)) h (rw (t, d) at e)
      | inr d ↦ NodeInv-same L n m (ground arith, ground arith, ground arith, ground arith) h
    ]
  ]

  module _ (W : Net) where
    handle_stun_message-NodeInv :
        (b : List ℕ) (n : Node N) → NodeInv L n → NodeInv L (handle_stun_message W b n)
    unfolding handle_stun_message
    handle_stun_message-NodeInv b n h =
        NodeInv-same L n (handle_stun_message W b n)
          (ground arith, ground arith, ground arith, ground arith) h

    pub on_udp_packet-NodeInv :
        (b : InboundBuffer) (n m : Node N)
        → NodeInv L n
        → on_udp_packet W b n ≡ done m
        → NodeInv L m
    unfolding on_udp_packet
    on_udp_packet-NodeInv b n m h e =
        let r : InboundBuffer = record b {
          header = header_of (parse (some b.header) b.raw).0 b.header;
        } in
        elim (Option-cases (parse (some b.header) b.raw).1) [
          | inl ok ↦ dispatch-NodeInv r n m h (ground arith)
          | inr (x, fails) ↦ elim (Bool-cases (W.is_stun_message b.raw)) [
            | inl s ↦
                NodeInv-same L (handle_stun_message W b.raw n) m
                  (ground arith, ground arith, ground arith, ground arith)
                  (handle_stun_message-NodeInv b.raw n h)
            | inr s ↦ NodeInv-same L n m (ground arith, ground arith, ground arith, ground arith) h
          ]
        ]

    pub on_tunnel_packet-NodeInv :
        (seed : ℕ) (b : OutboundBuffer) (n m : Node N)
        → NodeInv L n
        → on_tunnel_packet W seed b n ≡ done m
        → NodeInv L m
    unfolding on_tunnel_packet
    on_tunnel_packet-NodeInv seed b n m h e = go (W.ip_destination b.packet) refl
      where
        same :
            m.peers ≡ n.peers
            → m.by_id ≡ n.by_id
            → m.by_ip ≡ n.by_ip
            → m.stopping ≡ n.stopping
            → NodeInv L m
        same a b c d = NodeInv-same L n m (a, b, c, d) h

        found :
            (dst : ℕ) (o : Option ℕ)
            → W.ip_destination b.packet ≡ some dst
            → (addr_eq n.ip.addr (v4 dst) || not (in_network n.ip dst)) ≡ false
            → load (v4 dst) n.by_ip ≡ o
            → NodeInv L m
        found dst none i w a = same (ground arith) (ground arith) (ground arith) (ground arith)
        found dst (some k) i w a =
            step-NodeInv k (packet_leaves seed b) n m h (unfold step in ground arith)

        go : (o : Option ℕ) → W.ip_destination b.packet ≡ o → NodeInv L m
        go none i = same (ground arith) (ground arith) (ground arith) (ground arith)
        go (some dst) i =
            elim (Bool-cases (addr_eq n.ip.addr (v4 dst) || not (in_network n.ip dst))) [
              | inl w ↦ same (ground arith) (ground arith) (ground arith) (ground arith)
              | inr w ↦ found dst (load (v4 dst) n.by_ip) i w refl
            ]
