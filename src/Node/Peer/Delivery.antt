-- ===== src/Node/Peer/Delivery.antt =====
-- The packet that began a handshake, once there is a session: it reaches the tunnel of the other side.
use zeronet.Prelude.{
  ℕ, ◌≡◌, true, false, some, none, List, [], ◌∷◌, arith, ◌≤◌, ◌<◌, ◌^◌, length, take, ltb,
  if◌then◌else◌,
}
use zeronet.Go.{done}
use zeronet.Header.{header_len, data_type}
use zeronet.Node.Noise.{Noise, Agreement}
use zeronet.Node.Buffer.{InboundBuffer, OutboundBuffer, UdpAddr}
use zeronet.Node.Peer.State.{Peer, Env, put_outbound, put_inbound, write_to_udp, tun_write}
use zeronet.Node.Peer.Data.{seal_outbound, open_inbound}
use zeronet.Node.Peer.Handshake.{packet_header}
use zeronet.Node.Peer.Lifecycle.{
  run, step, takes_outbound, transmits, data_arrives, takes_inbound, delivers, take_outbound,
  take_inbound, process_outbound, process_inbound, inbound_packet,
}
use zeronet.Node.Peer.Session.{open_inbound-seal_outbound}
use zeronet.Node.Peer.Agreement.{Session, Carries}

module _ {N : Noise} where
  -- The routine of the tunnel takes the one packet that waits, and seals it.
  transmits-waiting :
      (env : Env) (b : OutboundBuffer) (p q : Peer N)
      → p.routines ≡ true
      → p.outbound_held ≡ none
      → p.pending_locked ≡ false
      → p.outbound ≡ some b ∷ []
      → seal_outbound env b (record p { outbound = []; outbound_held = none }) ≡ done q
      → run env (takes_outbound ∷ transmits ∷ []) p ≡ done q
  unfolding run step take_outbound process_outbound
  transmits-waiting env b p q a₁ a₂ a₃ a₄ e = ground arith

  -- A datagram reaches a queue that is empty, and is opened.
  delivers-arriving :
      (env : Env) (r : InboundBuffer) (p q : Peer N)
      → p.running ≡ true
      → p.routines ≡ true
      → p.inbound_held ≡ none
      → p.pending_locked ≡ false
      → p.inbound ≡ []
      → open_inbound r (record p { inbound = []; inbound_held = none }) ≡ done q
      → run env (data_arrives r ∷ takes_inbound ∷ delivers ∷ []) p ≡ done q
  unfolding run step inbound_packet take_inbound process_inbound
  delivers-arriving env r p q a₁ a₂ a₃ a₄ a₅ e = ground arith

  seal_outbound-outbound :
      (env : Env) (b : OutboundBuffer) (p q : Peer N)
      → seal_outbound env b p ≡ done q
      → q.outbound ≡ p.outbound
  unfolding seal_outbound
  seal_outbound-outbound env b p q e = ground arith

module _ {N : Noise} (A : Agreement N) where
  -- Two peers with the session that a handshake leaves, which hold no packet in hand: the packet
  -- that waits on the first, with room for its header, goes out sealed, if the library seals it, and
  -- the datagram, once the second has read it, whatever its buffer holds behind it, puts the clear
  -- text into the second's tunnel, unless it is empty.
  pub delivers-transmits :
      (env env' : Env) (b : OutboundBuffer) (p q : Peer N) (tx' : N.CipherState) (packet : List ℕ)
      (r : InboundBuffer) (a : UdpAddr)
      → (s : Session A p q b) → p.routines ≡ true
      → p.outbound_held ≡ none
      → q.routines ≡ true
      → q.inbound_held ≡ none
      → q.inbound ≡ []
      → header_len ≤ length b.out.backing
      → b.size ≤ length b.packet
      → env.node_id < 2 ^ 32
      → N.encrypt s.ciphers_up.0
          (packet_header env b data_type (N.nonce s.ciphers_up.0))
          []
          (take b.size b.packet)
        ≡ (some packet, tx')
      → Carries r packet a
      → (p' q' : Peer N) × (run env (takes_outbound ∷ transmits ∷ []) p ≡ done p')
        × (p'.outbound ≡ [])
        × (p'.trace ≡ put_outbound ∷ write_to_udp packet p.raddr ∷ p.trace)
        × (run env' (data_arrives r ∷ takes_inbound ∷ delivers ∷ []) q ≡ done q')
        × (q'.trace ≡ (
            if ltb 0 (length (take b.size b.packet))
            then put_inbound ∷ tun_write (take b.size b.packet) ∷ q.trace
            else put_inbound ∷ q.trace))
  delivers-transmits env env' b p q tx' packet r a s on held on' held' idle room fits id seals c =
      let p₁ : Peer N = record p { outbound = []; outbound_held = none } in
      let q₁ : Peer N = record q { inbound = []; inbound_held = none } in
      let (p', q', sealed, sent, opened, head, at, written, rx, left, right, pair) =
        open_inbound-seal_outbound A env b p₁ q₁ s.ciphers_up.0 tx' s.ciphers_up.1 packet c.rest r
          c.was a room fits id s.initiator.tx s.responder.rx s.up_paired seals c.raw c.size c.parsed
          c.raddr in
      (
        p',
        q',
        transmits-waiting env b p p' on held s.initiator.unlocked s.waits sealed,
        seal_outbound-outbound env b p₁ p' sealed,
        sent,
        delivers-arriving env' r q q' s.responder.running on' held' s.responder.unlocked idle
            opened,
        written,
      )
