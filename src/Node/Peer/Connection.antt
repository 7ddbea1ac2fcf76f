-- ===== src/Node/Peer/Connection.antt =====
-- A handshake of two peers, from the packet that starts it to a session on both sides.
use mathlib.Core.Option
use zeronet.Prelude.{ℕ, ◌≡◌, refl, true, false, some, none, List, [], ◌∷◌, arith, ◌^◌, ◌+◌, ◌%◌}
use zeronet.Go.{done}
use zeronet.Header.{handshake_type}
use zeronet.Node.Noise.{Noise, Turn, create_handshake}
use zeronet.Node.Buffer.{InboundBuffer, OutboundBuffer, UdpAddr, new_outbound_buffer}
use zeronet.Node.Peer.State.{
  Peer, Env, init_handshake, update_endpoint, put_outbound, put_inbound, write_to_udp, get_outbound,
  timer_keepalive,
}
use zeronet.Node.Peer.Handshake.{
  packet_header, message_of, handshake_p1, handshake_p2, finish_initiator, finish_responder,
  respond, complete, handshake, handshake_first, handshake_answer, send_handshake,
  try_send_handshake, unlock_pending,
}
use zeronet.Node.Peer.Lifecycle.{
  step, run, outbound_packet, handshake_packet, take_handshake, packet_leaves, handshake_arrives,
  takes_handshake,
}

module _ {N : Noise} where
  -- A peer that runs and has no session.
  pub record IsIdle (p : Peer N) : Type 0 where
    pub running : p.running ≡ true
    pub routines : p.routines ≡ true
    pub state : p.state ≡ 0
    pub initiator : p.initiator ≡ false
    pub transport : p.in_transport ≡ false
    pub locked : p.pending_locked ≡ true
    pub handshakes : p.handshakes ≡ []
    pub outbound : p.outbound ≡ []

  -- A peer with a session.
  pub record IsConnected (p : Peer N) (sends receives : N.CipherState) : Type 0 where
    pub running : p.running ≡ true
    pub state : p.state ≡ 2
    pub transport : p.in_transport ≡ true
    pub unlocked : p.pending_locked ≡ false
    pub retries : p.handshake_retries ≡ 0
    pub timer : p.handshake_sent ≡ none
    pub tx : p.tx ≡ some sends
    pub rx : p.rx ≡ some receives

  -- The first packet for the peer sends the first message, and waits.
  pub leaves :
      (env : Env) (seed : ℕ) (b : OutboundBuffer) (p : Peer N) (hs : N.HandshakeState) (w : Turn N)
      → IsIdle p
      → N.new_handshake_state true env.key_pair (some p.pubkey) seed ≡ some hs
      → N.write_message hs (packet_header env new_outbound_buffer handshake_type 0) [] ≡ some w
      → run env (packet_leaves seed b ∷ []) p
        ≡ done (record p {
          outbound = some b ∷ [];
          handshake_retries = (p.handshake_retries + 1) % 2 ^ 64;
          initiator = true;
          hs = some w.3;
          state = 1;
          handshake_sent = some 3;
          trace = put_outbound ∷ write_to_udp w.0 p.raddr ∷ get_outbound ∷ p.trace;
        })
  unfolding run step outbound_packet try_send_handshake send_handshake init_handshake
      create_handshake handshake_p1
  leaves env seed b p hs w v e f =
      let a₁ = v.running in
      let a₂ = v.state in let a₃ = v.transport in let a₄ = v.outbound in ground arith

  -- The answer of a responder, to the endpoint that the first message came from.
  responds :
      (env : Env) (seed : ℕ) (r : InboundBuffer) (p : Peer N) (a : UdpAddr) (hs : N.HandshakeState)
      (m : List ℕ) (w z : Turn N)
      → r.raddr ≡ some a
      → message_of r ≡ done m
      → N.new_handshake_state false env.key_pair none seed ≡ some hs
      → N.read_message hs m ≡ some w
      → N.write_message w.3 (packet_header env new_outbound_buffer handshake_type 1) [] ≡ some z
      → finish_responder env seed r p
        ≡ done (
            some (record p {
              raddr = (update_endpoint a p).raddr;
              initiator = false;
              hs = some z.3;
              rx = z.1;
              tx = z.2;
              trace =
                  put_outbound
                  ∷ write_to_udp z.0 (update_endpoint a p).raddr
                  ∷ get_outbound
                  ∷ p.trace;
            }))
  unfolding finish_responder init_handshake create_handshake
  responds env seed r p a hs m w z e₁ e₂ e₃ e₄ e₅ =
      let p' : Peer N = record p { initiator = false; hs = some hs } in
      let at : update_endpoint a p' ≡ record p' { raddr = (update_endpoint a p).raddr } =
        unfold update_endpoint in ground arith in
      let sent : respond env a m p'
          ≡ some (record p' {
            raddr = (update_endpoint a p).raddr;
            hs = some z.3;
            rx = z.1;
            tx = z.2;
            trace =
                put_outbound
                ∷ write_to_udp z.0 (update_endpoint a p).raddr
                ∷ get_outbound
                ∷ p.trace;
          }) =
        unfold respond Option.bind in ground arith in
      ground arith

  pub answers :
      (env : Env) (seed : ℕ) (r : InboundBuffer) (p : Peer N) (a : UdpAddr) (hs : N.HandshakeState)
      (m : List ℕ) (w z : Turn N)
      → IsIdle p
      → r.header.counter ≡ 0
      → r.raddr ≡ some a
      → message_of r ≡ done m
      → N.new_handshake_state false env.key_pair none seed ≡ some hs
      → N.read_message hs m ≡ some w
      → N.write_message w.3 (packet_header env new_outbound_buffer handshake_type 1) [] ≡ some z
      → (q : Peer N) × (run env (handshake_arrives r ∷ takes_handshake seed ∷ []) p ≡ done q)
        × (q.raddr ≡ (update_endpoint a p).raddr)
        × (q.trace
            ≡ put_inbound
              ∷ put_outbound
              ∷ write_to_udp z.0 (update_endpoint a p).raddr
              ∷ get_outbound
              ∷ p.trace)
        × (q.running ≡ true)
        × (q.state ≡ 2)
        × (q.in_transport ≡ true)
        × (q.pending_locked ≡ false)
        × (q.handshake_retries ≡ 0)
        × (q.handshake_sent ≡ none)
        × (q.tx ≡ z.2)
        × (q.rx ≡ z.1)
        × (q.outbound ≡ p.outbound)
  unfolding run step handshake_packet take_handshake handshake handshake_first complete handshake_p2
      unlock_pending
  answers env seed r p a hs m w z v c e₁ e₂ e₃ e₄ e₅ =
      let a₁ = v.running in
      let a₂ = v.state in
      let a₃ = v.routines in
      let a₄ = v.handshakes in
      let a₅ = v.locked in
      let a₆ = v.initiator in
      let to : UdpAddr = (update_endpoint a p).raddr in
      let p' : Peer N = record p { handshakes = [] } in
      let same : (update_endpoint a p').raddr ≡ to = unfold update_endpoint in ground arith in
      let sent = responds env seed r p' a hs m w z e₁ e₂ e₃ e₄ e₅ in
      (
        record p {
          raddr = to;
          hs = some z.3;
          rx = z.1;
          tx = z.2;
          state = 2;
          initiator = false;
          handshake_sent = none;
          keepalive = some (timer_keepalive + 5);
          handshake_retries = 0;
          handshakes = [];
          in_transport = true;
          pending_locked = false;
          trace = put_inbound ∷ put_outbound ∷ write_to_udp z.0 to ∷ get_outbound ∷ p.trace;
        },
        ground (arith, sent),
        refl,
        refl,
        v.running,
        refl,
        refl,
        refl,
        refl,
        refl,
        refl,
        refl,
        refl,
      )

  pub learns :
      (env : Env) (seed : ℕ) (r : InboundBuffer) (p : Peer N) (a : UdpAddr) (hs : N.HandshakeState)
      (m : List ℕ) (w : Turn N)
      → p.running ≡ true
      → p.routines ≡ true
      → p.state ≡ 1
      → p.initiator ≡ true
      → p.pending_locked ≡ true
      → p.handshakes ≡ []
      → p.hs ≡ some hs
      → r.header.counter ≡ 1
      → r.raddr ≡ some a
      → message_of r ≡ done m
      → N.read_message hs m ≡ some w
      → (q : Peer N) × (run env (handshake_arrives r ∷ takes_handshake seed ∷ []) p ≡ done q)
        × (q.raddr ≡ a)
        × (q.running ≡ true)
        × (q.state ≡ 2)
        × (q.in_transport ≡ true)
        × (q.pending_locked ≡ false)
        × (q.handshake_retries ≡ 0)
        × (q.handshake_sent ≡ none)
        × (q.tx ≡ w.1)
        × (q.rx ≡ w.2)
        × (q.outbound ≡ p.outbound)
  unfolding run step handshake_packet take_handshake handshake handshake_answer complete
      handshake_p2 finish_initiator unlock_pending
  learns env seed r p a hs m w a₁ a₂ a₃ a₄ a₅ a₆ a₇ c e₁ e₂ e₃ = (
    record p {
      raddr = a;
      hs = none;
      rx = w.2;
      tx = w.1;
      state = 2;
      handshake_sent = none;
      keepalive = some timer_keepalive;
      handshake_retries = 0;
      handshakes = [];
      in_transport = true;
      pending_locked = false;
      trace = put_inbound ∷ p.trace;
    },
    ground arith,
    refl,
    a₁,
    refl,
    refl,
    refl,
    refl,
    refl,
    refl,
    refl,
    refl,
  )
