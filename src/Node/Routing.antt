-- ===== src/Node/Routing.antt =====
-- Which peer the packets of a node reach.

use zeronet.Prelude.{ℕ, ◌≡◌, refl, true, false, some, none, arith, ◌≢◌, ◌∙◌}
use zeronet.Go.{Outcome, done, ◌>>=◌}
use zeronet.Go.SyncMap.{load, nat_key}
use zeronet.Addr.{v4, addr_eq}
use zeronet.Header.{Header, parse, handshake_type, data_type}
use zeronet.Node.Noise.{Noise, IkPattern}
use zeronet.Node.Net.{Net}
use zeronet.Node.Buffer.{InboundBuffer, OutboundBuffer}
use zeronet.Node.Peer.State.{Peer}
use zeronet.Node.Peer.Lifecycle.{handshake_packet, inbound_packet, outbound_packet}
use zeronet.Node.State.{Node, call, env_of, peer_at, set_peer, addr_key}
use zeronet.Node.Packets.{
  dispatch, on_udp_packet, on_tunnel_packet, in_network, put_inbound_back, put_outbound_back,
}
use zeronet.Node.Invariant.{NodeInv}
use zeronet.Node.Invariant.Store.{All-load}

-- The buffer as a peer has it.
abbrev pub handed : InboundBuffer → Header → InboundBuffer
handed b h = record b { header = h; peer = some h.sender_index }

module _ {N : Noise} where
  -- The node with a peer in its place, once what changes the peer returns.
  abbrev pub with_peer : ℕ → Node N → Outcome (Peer N) → Outcome (Node N)
  with_peer k n r = r >>= λ q. done (record n { peers = set_peer k q n.peers })

  pub call-eq :
      (k : ℕ) (f : Peer N → Outcome (Peer N)) (n : Node N) (p : Peer N)
      → peer_at n.peers k ≡ some p
      → call k f n ≡ with_peer k n (f p)
  unfolding call
  call-eq k f n p e = rw (e, call) refl

  pub on_udp_packet-parsed :
      (W : Net) (b : InboundBuffer) (h : Header) (n : Node N)
      → parse (some b.header) b.raw ≡ (some h, none)
      → on_udp_packet W b n ≡ dispatch (record b { header = h }) n
  unfolding on_udp_packet
  on_udp_packet-parsed W b h n e = ground arith

  pub dispatch-found :
      (b : InboundBuffer) (h : Header) (n : Node N) (k : ℕ) (p : Peer N)
      → load h.sender_index n.by_id ≡ some k
      → peer_at n.peers k ≡ some p
      → (h.type ≡ handshake_type
          → dispatch (record b { header = h }) n ≡ with_peer k n (handshake_packet (handed b h) p))
        × (h.type ≡ data_type
            → dispatch (record b { header = h }) n
              ≡ with_peer k n (done (inbound_packet (handed b h) p)))
  unfolding dispatch call
  dispatch-found b h n k p e f = (λ t. ground arith, λ t. ground arith)

module _ {N : Noise} (L : IkPattern N) (W : Net) where
  -- In a consistent node, a datagram with a header reaches the peer whose id is the index of its
  -- sender, if it is a handshake packet or a data packet and the node knows the peer, and no other;
  -- the buffer of any other datagram with a header is put back, and nothing else changes.
  pub on_udp_packet_lem :
      (b : InboundBuffer) (h : Header) (n : Node N)
      → NodeInv L n
      → parse (some b.header) b.raw ≡ (some h, none)
      → ((k : ℕ)
          → load h.sender_index n.by_id ≡ some k
          → (p : Peer N) × (peer_at n.peers k ≡ some p)
            × (p.id ≡ h.sender_index)
            × (h.type ≡ handshake_type
                → on_udp_packet W b n ≡ with_peer k n (handshake_packet (handed b h) p))
            × (h.type ≡ data_type
                → on_udp_packet W b n ≡ with_peer k n (done (inbound_packet (handed b h) p))))
        × (load h.sender_index n.by_id ≡ none → on_udp_packet W b n ≡ done (put_inbound_back n))
        × (h.type ≢ handshake_type
            → h.type ≢ data_type
            → on_udp_packet W b n ≡ done (put_inbound_back n))
  on_udp_packet_lem b h n v e =
      let to = on_udp_packet-parsed W b h n e in
      (
        λ k f.
            let (p, at, id) = All-load _ h.sender_index k n.by_id v.ids f in
            let (shakes, carries) = dispatch-found b h n k p f at in
            (p, at, id, λ t. to ∙ shakes t, λ t. to ∙ carries t),
        λ f. to ∙ unfold dispatch in ground arith,
        λ f g. to ∙ unfold dispatch in ground arith,
      )

  -- In a consistent node, a packet of the tunnel with an IPv4 destination is dropped if that is the
  -- node's own address, lies outside of the network, or belongs to no peer that the node knows; any
  -- other reaches a peer of the store, and no other.
  pub on_tunnel_packet_lem :
      (seed dst : ℕ) (b : OutboundBuffer) (n : Node N)
      → NodeInv L n
      → W.ip_destination b.packet ≡ some dst
      → (addr_eq n.ip.addr (v4 dst) ≡ true
          → on_tunnel_packet W seed b n ≡ done (put_outbound_back n))
        × (in_network n.ip dst ≡ false → on_tunnel_packet W seed b n ≡ done (put_outbound_back n))
        × (load (v4 dst) n.by_ip ≡ none → on_tunnel_packet W seed b n ≡ done (put_outbound_back n))
        × ((k : ℕ)
            → load (v4 dst) n.by_ip ≡ some k
            → (p : Peer N) × (peer_at n.peers k ≡ some p)
              × (addr_eq n.ip.addr (v4 dst) ≡ false
                  → in_network n.ip dst ≡ true
                  → on_tunnel_packet W seed b n
                    ≡ with_peer k n (outbound_packet (env_of n) seed b p)))
  unfolding on_tunnel_packet
  on_tunnel_packet_lem seed dst b n v e = (
    λ f. ground arith,
    λ f. ground arith,
    λ f. ground arith,
    λ k f.
        let (id, (p, at, same)) = All-load _ (v4 dst) k n.by_ip v.ips f in
        (p, at, λ g i. ground (arith, call-eq k (outbound_packet (env_of n) seed b) n p at)),
  )
