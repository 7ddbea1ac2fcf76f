-- ===== src/Node/Peer/Lifecycle.antt =====
-- node/peer.go: a peer is made, started and stopped, and takes packets in; and the events that can
-- happen to it, one at a time.
use zeronet.Addr.{Addr}
use zeronet.Prelude.{
  ℕ, List, Option, if◌then◌else◌, none, not, false, ltb, [], some, ◌∷◌, length, true, ◌&&◌, ◌++◌,
  ◌==◌, ◌||◌, is_some, String,
}
use zeronet.Go.{Outcome, ◌>>=◌, done, blocks, panics, nil_pointer}
use zeronet.Node.Noise.{Noise}
use zeronet.Node.Buffer.{UdpAddr, InboundBuffer, OutboundBuffer}
use zeronet.Node.Peer.State.{
  Peer, reset_state, Env, emit, put_inbound, outbound_channel_size, handshake_channel_size,
  inbound_channel_size, inbound_full, outbound_full, put_outbound,
}
use zeronet.Node.Peer.Handshake.{
  unlock_pending, lock_pending, try_send_handshake, handshake, handshake_timeout,
}
use zeronet.Node.Peer.Data.{open_inbound, seal_outbound, tx_timeout, rx_timeout}

module _ {N : Noise} where
  -- `NewPeer`, with the fields that `AddPeer` fills in from what the controller sent.
  abbrev pub new_peer :
      (id : ℕ) (ip : Addr) (hostname : String) (pubkey : List ℕ) (raddr : UdpAddr) → Peer N
  new_peer id ip hostname pubkey raddr = record {
    id = id;
    ip = ip;
    hostname = hostname;
    pubkey = pubkey;
    raddr = raddr;
    hs = none;
    rx = none;
    tx = none;
    state = 0;
    initiator = false;
    handshake_sent = none;
    received_packet = none;
    keepalive = none;
    handshake_retries = 0;
    inbound = [];
    outbound = [];
    handshakes = [];
    inbound_held = none;
    outbound_held = none;
    routines = false;
    running = false;
    in_transport = false;
    pending_locked = false;
    trace = [];
  }

  -- `none` is the error that the peer runs already.
  unfoldable pub start : Peer N → Outcome (Option (Peer N))
  start p =
      if p.running
      then done none
      else (lock_pending p >>= λ q.
          done (some (record q { routines = true; running = true; in_transport = false })))

  -- `wg.Wait`: each routine reads its nil and returns, once it is done with the packet that it
  -- holds, which it cannot be while the lock is held, nor without a cipher. A routine handles a packet in
  -- one step, so none is between the cipher and `mu`, which `Stop` holds here.
  unfoldable pub await_routines : Peer N → Outcome (Peer N)
  await_routines p =
      if not p.routines
      then done (record p { handshakes = none ∷ []; inbound = none ∷ []; outbound = none ∷ [] })
      else if is_some p.inbound_held || is_some p.outbound_held
      then (if p.pending_locked then blocks else panics nil_pointer)
      else done (record p { routines = false })

  unfoldable pub stop : Peer N → Outcome (Peer N)
  stop p = do q ← reset_state (record p { running = false }); r ← await_routines q; unlock_pending r

  -- A buffer that finds the channel full is not put back.
  unfoldable pub inbound_packet : InboundBuffer → Peer N → Peer N
  inbound_packet b p =
      if not p.running
      then emit put_inbound p
      else if ltb (length p.inbound) inbound_channel_size
      then record p { inbound = p.inbound ++ some b ∷ [] }
      else emit inbound_full p

  unfoldable pub outbound_packet : Env → ℕ → OutboundBuffer → Peer N → Outcome (Peer N)
  outbound_packet env seed b p =
      let q =
        if ltb (length p.outbound) outbound_channel_size
        then record p { outbound = p.outbound ++ some b ∷ [] }
        else emit outbound_full p in
      if not p.running
      then done (emit put_outbound p)
      else if not p.in_transport && p.state == 0
      then try_send_handshake env seed false q
      else done q

  -- node/node.go, `OnUDPPacket`, the handshake case: the send waits while the channel is full, and a
  -- buffer for a peer that does not run is dropped and not put back.
  unfoldable pub handshake_packet : InboundBuffer → Peer N → Outcome (Peer N)
  handshake_packet b p =
      if not p.running
      then done p
      else if ltb (length p.handshakes) handshake_channel_size
      then done (record p { handshakes = p.handshakes ++ some b ∷ [] })
      else blocks

  -- A routine takes the next packet from its queue, and waits for the lock with it in hand.
  unfoldable pub take_inbound : List (Option InboundBuffer) → Peer N → Outcome (Peer N)
  take_inbound [] p = blocks
  take_inbound (none ∷ q) p = blocks
  take_inbound (some b ∷ q) p =
      if p.routines && not (is_some p.inbound_held)
      then done (record p { inbound = q; inbound_held = some b })
      else blocks

  unfoldable pub take_outbound : List (Option OutboundBuffer) → Peer N → Outcome (Peer N)
  take_outbound [] p = blocks
  take_outbound (none ∷ q) p = blocks
  take_outbound (some b ∷ q) p =
      if p.routines && not (is_some p.outbound_held)
      then done (record p { outbound = q; outbound_held = some b })
      else blocks

  unfoldable pub take_handshake : Env → ℕ → List (Option InboundBuffer) → Peer N → Outcome (Peer N)
  take_handshake env seed [] p = blocks
  take_handshake env seed (none ∷ q) p = blocks
  take_handshake env seed (some b ∷ q) p =
      if p.routines then handshake env seed b (record p { handshakes = q }) else blocks

  unfoldable pub process_inbound : Option InboundBuffer → Peer N → Outcome (Peer N)
  process_inbound none p = blocks
  process_inbound (some b) p =
      if p.pending_locked then blocks else open_inbound b (record p { inbound_held = none })

  unfoldable pub process_outbound : Env → Option OutboundBuffer → Peer N → Outcome (Peer N)
  process_outbound env none p = blocks
  process_outbound env (some b) p =
      if p.pending_locked then blocks else seal_outbound env b (record p { outbound_held = none })

  abbrev pub fired : Option ℕ → Outcome (Peer N) → Outcome (Peer N)
  fired none m = blocks
  fired (some t) m = m

-- What can happen to a peer. A number is what the random source yields.
pub data Event : Type 0 where
  starts stops takes_inbound takes_outbound delivers keepalive_fires : Event
  data_arrives handshake_arrives : InboundBuffer → Event
  packet_leaves : ℕ → OutboundBuffer → Event
  transmits : Event
  takes_handshake handshake_fires rx_fires : ℕ → Event

module _ {N : Noise} where
  abbrev unless_refused : Peer N → Option (Peer N) → Peer N
  unless_refused p none = p
  unless_refused p (some q) = q

  -- An event that cannot happen now blocks; `Start` on a running peer changes nothing.
  unfoldable pub step : Env → Event → Peer N → Outcome (Peer N)
  step env starts p = start p >>= λ r. done (unless_refused p r)
  step env stops p = stop p
  step env (data_arrives b) p = done (inbound_packet b p)
  step env (handshake_arrives b) p = handshake_packet b p
  step env (packet_leaves seed b) p = outbound_packet env seed b p
  step env takes_inbound p = take_inbound p.inbound p
  step env takes_outbound p = take_outbound p.outbound p
  step env (takes_handshake seed) p = take_handshake env seed p.handshakes p
  step env delivers p = process_inbound p.inbound_held p
  step env transmits p = process_outbound env p.outbound_held p
  step env (handshake_fires seed) p = fired p.handshake_sent (handshake_timeout env seed p)
  step env keepalive_fires p = fired p.keepalive (done (tx_timeout p))
  step env (rx_fires seed) p = fired p.received_packet (rx_timeout env seed p)

  -- Events one after another; the first that panics or cannot happen ends the run.
  unfoldable pub run : Env → List Event → Peer N → Outcome (Peer N)
  run env [] p = done p
  run env (e ∷ es) p = step env e p >>= run env es
