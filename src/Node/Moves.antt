-- ===== src/Node/Moves.antt =====
-- A peer whose address in the network changes.
use zeronet.Prelude.{ℕ, ◌≡◌, refl, ap, ◌∙◌, some, none, arith}
use zeronet.Go.{Outcome, done, ◌>>=◌, or_panic, failed, Outcome}
use zeronet.Go.SyncMap.{load, nat_key}
use zeronet.Addr.{v4}
use zeronet.Node.Noise.{Noise, IkPattern}
use zeronet.Node.Net.{Net}
use zeronet.Node.Buffer.{OutboundBuffer}
use zeronet.Node.Peer.State.{Peer}
use zeronet.Node.State.{Node, call, addr_key}
use zeronet.Node.Client.{connect_peer, update_peer}
use zeronet.Node.Packets.{on_tunnel_packet, put_outbound_back}
use zeronet.Node.Invariant.{NodeInv}
use zeronet.Node.Contacts.{Contact, contact_of, directory, meet, revise, set_contact, contact_of}
use zeronet.Node.Contacts.Peers.{directory-at, peer_of-id}
use zeronet.Node.Contacts.Refinement.{connect_peer-directory}
use zeronet.Controller.Types.{ProtoPeer}

module _ {N : Noise} (L : IkPattern N) (W : Net) where
  call-by_ip :
      (k : ℕ) (f : Peer N → Outcome (Peer N)) (n m : Node N)
      → call k f n ≡ done m
      → m.by_ip ≡ n.by_ip
  unfolding call
  call-by_ip k f n m e = ground arith

  on_tunnel_packet-unknown :
      (seed dst : ℕ) (b : OutboundBuffer) (n : Node N)
      → W.ip_destination b.packet ≡ some dst
      → load (v4 dst) n.by_ip ≡ none
      → on_tunnel_packet W seed b n ≡ done (put_outbound_back n)
  unfolding on_tunnel_packet
  on_tunnel_packet-unknown seed dst b n e f = ground arith

  -- The controller tells a consistent node that a peer that it knows has a new address, which no
  -- other peer has. The node, if it survives, has the new address in its directory, and yet drops
  -- every packet to it: the map by which packets find their peers is not changed.
  pub connect_peer-moves :
      (info : ProtoPeer) (n m : Node N) (k dst : ℕ)
      → NodeInv L n
      → load info.id n.by_id ≡ some k
      → W.parse_addr info.ip ≡ some (v4 dst)
      → load (v4 dst) n.by_ip ≡ none
      → connect_peer W info n ≡ done m
      → ((c : Contact) × (directory m info.id ≡ some c) × (c.ip ≡ v4 dst))
        × ((seed : ℕ) (b : OutboundBuffer)
            → W.ip_destination b.packet ≡ some dst
            → on_tunnel_packet W seed b m ≡ done (put_outbound_back m))
  unfolding connect_peer
  connect_peer-moves info n m k dst v known at unused e =
      let (p, here, id) = peer_of-id L n info.id k v known in
      let c : Contact = revise W info (contact_of p) in
      let ip : c.ip ≡ v4 dst = unfold revise in rw at refl in
      let old : directory n info.id ≡ some (contact_of p) = directory-at n info.id k p known here in
      let new : directory m info.id ≡ some c =
        ap (λ d. d info.id) (connect_peer-directory L W info n m v e)
        ∙ unfold meet set_contact in ground arith in
      let same : m.by_ip ≡ n.by_ip =
        call-by_ip k (λ p. update_peer W info p >>= λ r. or_panic failed r) n m
          (rw (known, connect_peer) at e) in
      (
        (c, new, ip),
        λ seed b f. on_tunnel_packet-unknown seed dst b m f (ap (load (v4 dst)) same ∙ unused),
      )
