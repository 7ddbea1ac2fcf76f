-- ===== src/Node/Peer/Invariant.antt =====
-- What holds of a peer between two events, and that every event keeps it.
pub mod Sending
pub mod Completion
pub mod Events
use zeronet.Header.{handshake_type}
use mathlib.Core.Option
use zeronet.Prelude.{
  ℕ, Option, ◌≤◌, ◌≡◌, some, false, arith, true, is_some, none, ◌&&◌, not, ◌==◌, Bool, ◌+◌, ◌%◌,
  ◌^◌, Bool-cases, ltb, inl, ◌∙◌, sym, inr, List, Option-cases, refl, [],
}
use zeronet.Go.{done, Outcome, panics, blocks}
use zeronet.Node.Buffer.{InboundBuffer, UdpAddr, new_outbound_buffer}
use zeronet.Node.Noise.{Noise, IkPattern, create_handshake, Turn}
use zeronet.Node.Peer.State.{
  Peer, reset_state, Env, count_handshake_retries, init_handshake, emit, request_punch,
  update_endpoint,
}
use zeronet.Node.Peer.Handshake.{
  send_handshake, try_send_handshake, finish_initiator, finish_responder, handshake_p1, respond,
  message_of, packet_header,
}

module _ {N : Noise} where
  -- What a completed handshake leaves: both ciphers, and the rest of the peer as it was.
  abbrev pub Established : Peer N → Peer N → Type 0
  Established p q =
      (is_some q.rx ≡ true)
      × (is_some q.tx ≡ true)
      × (q ≡ record p {
        rx = q.rx;
        tx = q.tx;
        hs = q.hs;
        raddr = q.raddr;
        initiator = q.initiator;
        trace = q.trace;
      })

  -- What is needed to start a handshake anew: a running peer that holds its lock.
  pub record IsGated (p : Peer N) : Type 0 where
    pub locked : p.pending_locked ≡ true
    pub runs : p.running ≡ true
    pub routine : p.routines ≡ true

module _ {N : Noise} (L : IkPattern N) where
  -- The lock is held exactly while a running peer has no session.
  pub record Inv (p : Peer N) : Type 0 where
    pub state_bound : p.state ≤ 2
    pub idle : p.state ≡ 0 → (p.initiator ≡ false) × (p.in_transport ≡ false)
    pub waiting : p.state ≡ 1 → (p.initiator ≡ true) × (is_some p.hs ≡ true)
    pub sent : p.initiator ≡ true → (hs : N.HandshakeState) → p.hs ≡ some hs → L.Sent hs
    pub connected :
        p.state ≡ 2
        → (p.in_transport ≡ true)
          × (is_some p.rx ≡ true)
          × (is_some p.tx ≡ true)
          × (p.handshake_sent ≡ none)
    pub spent : p.state ≡ 2 → p.initiator ≡ true → p.hs ≡ none
    pub gate : p.pending_locked ≡ (p.running && not (p.state == 2))
    pub stopped : p.running ≡ false → p.state ≡ 0
    pub alive : p.routines ≡ p.running
