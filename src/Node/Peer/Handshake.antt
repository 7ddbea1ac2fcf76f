-- ===== src/Node/Peer/Handshake.antt =====
-- node/peer_transport.go: the handshake, as its initiator, as its responder, and its timer.
use mathlib.Core.Option.{none}
use zeronet.Prelude.{
  ℕ, List, if◌then◌else◌, some, Option, [], ltb, ◌||◌, length, false, ◌==◌, true, Bool, ◌+◌, ◌∷◌,
  ◌%◌, ◌^◌,
}
use mathlib.Core.Option
use zeronet.Go.{
  ◌>>=◌, Outcome, panics, slice_bounds, done, deref, blocks, or_panic, failed, unlock_of_unlocked,
  out_of_sequence, wrong_counter,
}
use zeronet.Header.{encode, Encoded, encoded, refused, elems, header_len, slice, handshake_type}
use zeronet.Node.Noise.{Noise}
use zeronet.Node.Buffer.{UdpAddr, InboundBuffer, OutboundBuffer, new_outbound_buffer}
use zeronet.Node.Peer.State.{
  Peer, Env, update_endpoint, init_handshake, emit, reset_state, put_inbound, timer_keepalive,
  put_outbound, timer_rx_timeout, get_outbound, write_to_udp, count_handshake_retries,
  request_punch,
}

-- The slice that `Encode` returns; nil with an error, which the callers ignore.
abbrev pub slice_of : Encoded → List ℕ
slice_of (encoded s) = elems s
slice_of (refused e) = []

-- `buffer.in[header.HeaderLen:buffer.size]`
unfoldable pub message_of : InboundBuffer → Outcome (List ℕ)
message_of b =
    if ltb b.size header_len || ltb (length b.raw) b.size
    then panics slice_bounds
    else done (slice b.raw header_len b.size)

-- The header of a packet, encoded into a buffer fresh from the pool.
unfoldable pub packet_header : Env → OutboundBuffer → ℕ → ℕ → List ℕ
unfolding encode
packet_header env b t counter = slice_of (encode (some b.header) b.out t env.node_id counter).1

module _ {N : Noise} where
  unfoldable pub handshake_p1 : Env → OutboundBuffer → Peer N → Outcome (Peer N)
  handshake_p1 env b p = do
    hs ← deref p.hs
    (final, _, _, hs') ←
        or_panic failed (N.write_message hs (packet_header env b handshake_type 0) [])
    done (record p {
      hs = some hs';
      state = 1;
      trace = put_outbound ∷ write_to_udp final p.raddr ∷ p.trace;
    })

  -- The two halves of `handshakeP2`, without its deferred calls; `none` is the error that it returns.
  -- A received buffer always has its address, set by `ReadUDPPackets`.
  unfoldable pub finish_initiator : InboundBuffer → Peer N → Outcome (Option (Peer N))
  finish_initiator b p = do
    hs ← deref p.hs
    message ← message_of b
    raddr ← deref b.raddr
    done (elim (N.read_message hs message) [
      | none ↦ none
      | some (_, tx, rx, _) ↦ some (record p { tx = tx; rx = rx; raddr = raddr; hs = none })
    ])

  unfoldable pub respond : Env → UdpAddr → List ℕ → Peer N → Option (Peer N)
  respond env raddr message p =
      let q = update_endpoint raddr p in
      Option.bind p.hs λ hs. Option.bind (N.read_message hs message) λ (_, _, _, hs').
        Option.bind
          (N.write_message hs' (packet_header env new_outbound_buffer handshake_type 1) [])
          λ (final, rx, tx, hs''). some (record q {
            hs = some hs'';
            rx = rx;
            tx = tx;
            trace = put_outbound ∷ write_to_udp final q.raddr ∷ get_outbound ∷ q.trace;
          })

  unfoldable pub finish_responder : Env → ℕ → InboundBuffer → Peer N → Outcome (Option (Peer N))
  finish_responder env seed b p = elim (init_handshake env false seed p) [
    | none ↦ done none
    | some q ↦ do message ← message_of b; raddr ← deref b.raddr; done (respond env raddr message q)
  ]

  unfoldable pub handshake_p2 : Env → ℕ → InboundBuffer → Peer N → Outcome (Option (Peer N))
  handshake_p2 env seed b p = do
    r ← (if p.initiator then finish_initiator b p else finish_responder env seed b p)
    done (Option.map (emit put_inbound) r)

  -- `pendingLock.Lock` and `Unlock`; to unlock what is not locked is fatal.
  unfoldable pub lock_pending : Peer N → Outcome (Peer N)
  lock_pending p = if p.pending_locked then blocks else done (record p { pending_locked = true })

  unfoldable pub unlock_pending : Peer N → Outcome (Peer N)
  unlock_pending p =
      if p.pending_locked
      then done (record p { pending_locked = false })
      else panics unlock_of_unlocked

  -- What the three cases of `Handshake` have in common: state 2 is reached and packets may flow.
  unfoldable pub complete : Env → ℕ → InboundBuffer → Peer N → Outcome (Peer N)
  complete env seed b p = do
    q ← or_panic failed (← handshake_p2 env seed b p)
    r ← unlock_pending (record q { state = 2; in_transport = true })
    done (record r { handshake_retries = 0; handshake_sent = none })

  -- State 0: the first message, which makes this side the responder.
  unfoldable pub handshake_first : Env → ℕ → InboundBuffer → Peer N → Outcome (Peer N)
  handshake_first env seed b p =
      if b.header.counter == 0
      then (complete env seed b p >>= λ q.
          done (record q { keepalive = some (timer_keepalive + 5) }))
      else panics wrong_counter

  -- State 1: the answer to the message that this side sent.
  unfoldable pub handshake_answer : Env → ℕ → InboundBuffer → Peer N → Outcome (Peer N)
  handshake_answer env seed b p =
      if b.header.counter == 1
      then (complete env seed b p >>= λ q. done (record q { keepalive = some timer_keepalive }))
      else panics wrong_counter

  -- State 2: a new handshake of a peer that is already connected.
  unfoldable pub handshake_again : Env → ℕ → InboundBuffer → Peer N → Outcome (Peer N)
  handshake_again env seed b p = do
    q ← lock_pending p
    raddr ← deref b.raddr
    r ← complete env seed b (update_endpoint raddr q)
    done (record r { keepalive = some timer_keepalive; received_packet = some timer_rx_timeout })

  -- One round of the loop of `Handshake`, with the buffer that it received.
  unfoldable pub handshake : Env → ℕ → InboundBuffer → Peer N → Outcome (Peer N)
  handshake env seed b p =
      if p.state == 0
      then handshake_first env seed b p
      else if p.state == 1
      then handshake_answer env seed b p
      else if p.state == 2
      then handshake_again env seed b p
      else panics out_of_sequence

  -- The retries are counted in a uint64.
  unfoldable pub send_handshake : Env → ℕ → Peer N → Outcome (Peer N)
  send_handshake env seed p = do
    q ← or_panic failed (init_handshake env true seed p)
    r ← handshake_p1 env new_outbound_buffer (emit get_outbound q)
    done (record r { handshake_sent = some 3 })

  unfoldable pub try_send_handshake : Env → ℕ → Bool → Peer N → Outcome (Peer N)
  try_send_handshake env seed retry p =
      let q = record p { handshake_retries = (p.handshake_retries + 1) % 2 ^ 64 } in
      if retry
      then if ltb count_handshake_retries q.handshake_retries
        then reset_state (record q { handshake_sent = none })
        else send_handshake env seed (emit (request_punch p.id) q)
      else send_handshake env seed q

  -- The timer has fired, so it is no longer armed.
  unfoldable pub handshake_timeout : Env → ℕ → Peer N → Outcome (Peer N)
  handshake_timeout env seed p =
      let q = record p { handshake_sent = none } in
      if ltb 0 p.state
      then (let r = record q { in_transport = false } in
          if p.initiator then try_send_handshake env seed true r else done r)
      else done q
