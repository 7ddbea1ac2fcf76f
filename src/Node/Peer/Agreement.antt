-- ===== src/Node/Peer/Agreement.antt =====
-- A handshake between two peers, over the network, leaves a session on both sides.

use mathlib.Core.List.{append_assoc}
use zeronet.Prelude.{
  ℕ, zero, suc, ◌≡◌, refl, ap, ◌∙◌, true, some, none, List, [], ◌∷◌, ◌++◌, arith, ◌≤◌, ◌<◌, ◌^◌,
  ◌+◌, ◌%◌, length, false,
}
use zeronet.Go.{done}
use zeronet.Header.{
  Header, parse, stamped, handshake_type, header_len, header_version, header_padding,
}
use zeronet.Header.Encoding.{wire}
use zeronet.Header.RoundTrip.{parse-wire}
use zeronet.Node.Noise.{Noise, Agreement, Exchanged}
use zeronet.Node.Buffer.{
  InboundBuffer, OutboundBuffer, UdpAddr, new_outbound_buffer, zeros, buffer_size,
}
use zeronet.Node.Peer.State.{
  Peer, Env, update_endpoint, put_outbound, put_inbound, write_to_udp, get_outbound,
}
use zeronet.Node.Peer.Handshake.{packet_header, message_of}
use zeronet.Node.Peer.Lifecycle.{run, packet_leaves, handshake_arrives, takes_handshake}
use zeronet.Node.Peer.Session.{packet_header_lem, message_of-wire}
use zeronet.Node.Peer.Connection.{IsIdle, IsConnected, leaves, answers, learns}

length-zeros : (n : ℕ) → length (zeros n) ≡ n
length-zeros zero = refl
length-zeros (suc n) = ap suc (length-zeros n)

handshake_header :
    (env : Env) (counter : ℕ)
    → packet_header env new_outbound_buffer handshake_type counter
      ≡ wire header_version handshake_type env.node_id counter header_padding
handshake_header env counter = packet_header_lem env new_outbound_buffer handshake_type counter room
  where
    room : header_len ≤ length new_outbound_buffer.out.backing
    room = unfold new_outbound_buffer in rw (length-zeros buffer_size) (omega arith)

-- A datagram that was read into a buffer, from an address, and has a header.
pub record Carries (r : InboundBuffer) (datagram : List ℕ) (a : UdpAddr) : Type 0 where
  pub rest : List ℕ
  pub was : Header
  pub raw : r.raw ≡ datagram ++ rest
  pub size : r.size ≡ length datagram
  pub parsed : parse (some was) r.raw ≡ (some r.header, none)
  pub raddr : r.raddr ≡ some a

-- A handshake packet is read as it was written.
received :
    (env : Env) (counter : ℕ) (r : InboundBuffer) (body datagram : List ℕ) (a : UdpAddr)
    → env.node_id < 2 ^ 32
    → counter < 2 ^ 64
    → datagram ≡ packet_header env new_outbound_buffer handshake_type counter ++ body
    → Carries r datagram a
    → (r.header ≡ stamped handshake_type env.node_id counter) × (message_of r ≡ done body)
received env counter r body datagram a id small e c =
    let whole : datagram
        ≡ wire header_version handshake_type env.node_id counter header_padding ++ body =
      e ∙ ap (λ (x : List ℕ). x ++ body) (handshake_header env counter) in
    let raw : r.raw
        ≡ (wire header_version handshake_type env.node_id counter header_padding ++ body)
          ++ c.rest =
      c.raw ∙ ap (λ (x : List ℕ). x ++ c.rest) whole in
    (
      ground (
        arith,
        c.parsed,
        parse-wire c.was handshake_type env.node_id counter (body ++ c.rest) id small,
        append_assoc (wire header_version handshake_type env.node_id counter header_padding) body
            c.rest,
      ),
      message_of-wire r handshake_type env.node_id counter body c.rest raw
          (c.size ∙ ap length whole),
    )

module _ {N : Noise} (A : Agreement N) where
  -- What the handshake leaves: a session on both sides, whose ciphers fit, with the packet that began it
  -- still waiting to be sent.
  pub record Session (p q : Peer N) (b : OutboundBuffer) : Type 0 where
    pub ciphers_up : N.CipherState × N.CipherState
    pub ciphers_down : N.CipherState × N.CipherState
    pub initiator : IsConnected p ciphers_up.0 ciphers_down.1
    pub responder : IsConnected q ciphers_down.0 ciphers_up.1
    pub up_paired : A.Paired ciphers_up.0 ciphers_up.1
    pub down_paired : A.Paired ciphers_down.0 ciphers_down.1
    pub waits : p.outbound ≡ some b ∷ []

  -- Two peers without a session, of which the first has a packet for the second, with node ids of 32
  -- bits: if the library's run of the protocol between them succeeds, and each reads the datagram
  -- that the other has sent, whatever their buffers hold behind it, then neither crashes or waits,
  -- each sends one message of the handshake, and both have a session, with ciphers that fit, and the
  -- packet still waits.
  pub establishes :
      (env env' : Env) (seed seed' seed'' : ℕ) (b : OutboundBuffer) (p p' : Peer N)
      (hs hs' : N.HandshakeState) (r s : InboundBuffer) (a a' : UdpAddr)
      → IsIdle p
      → IsIdle p'
      → env.node_id < 2 ^ 32
      → env'.node_id < 2 ^ 32
      → N.new_handshake_state true env.key_pair (some p.pubkey) seed ≡ some hs
      → N.new_handshake_state false env'.key_pair none seed' ≡ some hs'
      → (x : Exchanged A hs hs'
          (packet_header env new_outbound_buffer handshake_type 0)
          (packet_header env' new_outbound_buffer handshake_type 1))
      → Carries r x.asked.0 a
      → Carries s x.replied.0 a'
      → (q q' q'' : Peer N) × (run env (packet_leaves seed b ∷ []) p ≡ done q)
        × (q.trace ≡ put_outbound ∷ write_to_udp x.asked.0 p.raddr ∷ get_outbound ∷ p.trace)
        × (run env' (handshake_arrives r ∷ takes_handshake seed' ∷ []) p' ≡ done q')
        × (q'.trace
            ≡ put_inbound
              ∷ put_outbound
              ∷ write_to_udp x.replied.0 (update_endpoint a p').raddr
              ∷ get_outbound
              ∷ p'.trace)
        × (run env (handshake_arrives s ∷ takes_handshake seed'' ∷ []) q ≡ done q'')
        × Session q'' q' b
  establishes env env' seed seed' seed'' b p p' hs hs' r s a a' idle idle' id id' new new' x c d =
      let (head, body) = received env 0 r x.asks x.asked.0 a id (omega arith) x.ask_bytes c in
      let (head', body') =
        received env' 1 s x.answers x.replied.0 a' id' (omega arith) x.answer_bytes d in
      let q : Peer N = record p {
        outbound = some b ∷ [];
        handshake_retries = (p.handshake_retries + 1) % 2 ^ 64;
        initiator = true;
        hs = some x.asked.3;
        state = 1;
        handshake_sent = some 3;
        trace = put_outbound ∷ write_to_udp x.asked.0 p.raddr ∷ get_outbound ∷ p.trace;
      } in
      let (q', f, f₁, f₂, g₁, g₂, g₃, g₄, g₅, g₆, g₇, g₈, g₉) =
        answers env' seed' r p' a hs' x.asks x.heard x.replied idle'
          (ap (λ (h : Header). h.counter) head) c.raddr body new' x.hearing x.replying in
      let (q'', k, k₁, h₁, h₂, h₃, h₄, h₅, h₆, h₇, h₈, h₉) =
        learns env seed'' s q a' x.asked.3 x.answers x.learnt idle.running idle.routines refl refl
          idle.locked idle.handshakes refl (ap (λ (h : Header). h.counter) head') d.raddr body'
          x.learning in
      (
        q,
        q',
        q'',
        leaves env seed b p hs x.asked idle new x.asking,
        refl,
        f,
        f₂,
        k,
        record {
          ciphers_up = x.first;
          ciphers_down = x.second;
          initiator = record {
            running = h₁;
            state = h₂;
            transport = h₃;
            unlocked = h₄;
            retries = h₅;
            timer = h₆;
            tx = h₇ ∙ x.initiator_sends;
            rx = h₈ ∙ x.initiator_receives;
          };
          responder = record {
            running = g₁;
            state = g₂;
            transport = g₃;
            unlocked = g₄;
            retries = g₅;
            timer = g₆;
            tx = g₇ ∙ x.responder_sends;
            rx = g₈ ∙ x.responder_receives;
          };
          up_paired = x.first_paired;
          down_paired = x.second_paired;
          waits = h₉;
        },
      )
