-- ===== src/Node/Peer/Data.antt =====
-- node/peer_transport.go: data packets in both directions, and the timers that watch over them.
use zeronet.Prelude.{ℕ, none, List, [], some, if◌then◌else◌, ◌∷◌, not, ltb, true, length, take}
use zeronet.Go.{Outcome, ◌>>=◌, deref, done, panics, slice_bounds}
use zeronet.Header.{data_type}
use zeronet.Node.Noise.{Noise}
use zeronet.Node.Buffer.{InboundBuffer, OutboundBuffer, new_outbound_buffer}
use zeronet.Node.Peer.State.{
  Peer, update_endpoint, Env, reset_state, timer_rx_timeout, emit, get_outbound, put_inbound,
  tun_write, put_outbound, timer_keepalive, write_to_udp,
}
use zeronet.Node.Peer.Handshake.{message_of, packet_header, try_send_handshake, lock_pending}

module _ {N : Noise} where
  -- The body of the loop of `Inbound` once it has the lock, with the packet that it holds. `write`
  -- is `tun.Write`, which is not called on an empty packet.
  unfoldable pub deliver : InboundBuffer → List ℕ → Peer N → Outcome (Peer N)
  deliver b packet p = do
    let q = record p { received_packet = some timer_rx_timeout }
    let r = if ltb 0 (length packet) then emit (tun_write packet) q else q
    raddr ← deref b.raddr
    done (emit put_inbound (update_endpoint raddr r))

  unfoldable pub open_inbound : InboundBuffer → Peer N → Outcome (Peer N)
  open_inbound b p = do
    rx ← deref p.rx
    message ← message_of b
    let (packet, rx') = N.decrypt (N.set_nonce rx b.header.counter) [] [] message
    let q = record p { rx = some rx' }
    elim packet [ none ↦ done (emit put_inbound q) | some clear_text ↦ deliver b clear_text q ]

  -- The body of the loop of `Outbound` once it has the lock.
  unfoldable pub seal_outbound : Env → OutboundBuffer → Peer N → Outcome (Peer N)
  seal_outbound env b p = deref p.tx >>= λ tx.
      let out = packet_header env b data_type (N.nonce tx) in
      let (sealed, tx') = N.encrypt tx out [] (take b.size b.packet) in
      let q = record p { tx = some tx' } in
      if ltb (length b.packet) b.size
      then panics slice_bounds
      else done (elim sealed [
        | none ↦ emit put_outbound q
        | some packet ↦ record q {
          keepalive = some timer_keepalive;
          trace = put_outbound ∷ write_to_udp packet p.raddr ∷ p.trace;
        }
      ])

  -- The keepalive timer has fired: an empty packet is queued if nothing else is.
  unfoldable pub tx_timeout : Peer N → Peer N
  tx_timeout p =
      let q = record p { keepalive = none } in
      elim p.outbound [
        | [] ↦ record q {
          outbound = some (record new_outbound_buffer { peer = some p.id }) ∷ [];
          trace = get_outbound ∷ p.trace;
        }
        | _ ↦ q
      ]

  -- Nothing was received for too long: a responder goes back to idle, an initiator starts again.
  unfoldable pub rx_timeout : Env → ℕ → Peer N → Outcome (Peer N)
  rx_timeout env seed p =
      let q = record p { received_packet = none } in
      if not p.in_transport
      then done q
      else (lock_pending (record q { keepalive = none }) >>= λ r.
          if r.initiator
          then try_send_handshake env seed true (record r { state = 0 })
          else reset_state (record r { state = 0; handshake_sent = none }))
