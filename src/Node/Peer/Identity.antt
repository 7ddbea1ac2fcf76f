-- ===== src/Node/Peer/Identity.antt =====
-- What a peer keeps through every event: its id and its address in the network.
pub mod Steps
use mathlib.Core.Option
use zeronet.Prelude.{
  ℕ, ◌≡◌, Bool-cases, true, false, arith, some, none, ◌++◌, ◌∷◌, [], List, Option, refl, inl, inr,
  Bool, ltb, ◌+◌, ◌%◌, ◌^◌, ◌==◌, Option-cases,
}
use zeronet.Go.{Outcome, done, panics, blocks, ◌>>=◌, >>=-eq-done, deref}
use zeronet.Node.Buffer.{InboundBuffer, OutboundBuffer}
use zeronet.Node.Noise.{Noise, create_handshake}
use zeronet.Node.Peer.State.{
  Peer, Env, update_endpoint, reset_state, init_handshake, emit, outbound_full,
  count_handshake_retries, timer_keepalive, timer_rx_timeout,
}
use zeronet.Node.Peer.Handshake.{
  complete, handshake, handshake_first, handshake_answer, handshake_again, lock_pending,
  unlock_pending, handshake_timeout, handshake_p1, handshake_p2, finish_initiator, finish_responder,
  respond, send_handshake, try_send_handshake,
}
use zeronet.Node.Peer.Data.{open_inbound, seal_outbound, rx_timeout, deliver, tx_timeout}
use zeronet.Node.Peer.Lifecycle.{
  stop, start, await_routines, outbound_packet, inbound_packet, handshake_packet, take_handshake,
  take_inbound, take_outbound, process_inbound, process_outbound, step, Event, starts, stops,
  takes_inbound, takes_outbound, delivers, keepalive_fires, transmits, data_arrives,
  handshake_arrives, packet_leaves, takes_handshake, handshake_fires, rx_fires,
}

module _ {N : Noise} where
  abbrev pub Same : Peer N → Peer N → Type 0
  Same p q = (q.id ≡ p.id) × (q.ip ≡ p.ip)

  pub reset_state-Same : (p q : Peer N) → reset_state p ≡ done q → Same p q
  unfolding reset_state
  reset_state-Same p q e = ground arith

  pub send_handshake-Same :
      (env : Env) (seed : ℕ) (p q : Peer N) → send_handshake env seed p ≡ done q → Same p q
  unfolding send_handshake init_handshake handshake_p1 create_handshake
  send_handshake-Same env seed p q e = ground arith

  pub try_send_handshake-Same :
      (env : Env) (seed : ℕ) (retry : Bool) (p q : Peer N)
      → try_send_handshake env seed retry p ≡ done q
      → Same p q
  unfolding try_send_handshake
  try_send_handshake-Same env seed false p q e = send_handshake-Same env seed _ q e
  try_send_handshake-Same env seed true p q e =
      elim (Bool-cases (ltb count_handshake_retries ((p.handshake_retries + 1) % 2 ^ 64))) [
        | inl over ↦ reset_state-Same _ q (rw over at e)
        | inr again ↦ send_handshake-Same env seed _ q (rw again at e)
      ]

  pub stop-Same : (p q : Peer N) → stop p ≡ done q → Same p q
  unfolding stop reset_state await_routines unlock_pending
  stop-Same p q e = ground arith

  pub start-Same : (p q : Peer N) → start p ≡ done (some q) → Same p q
  unfolding start lock_pending
  start-Same p q e = ground arith

  pub inbound_packet-Same : (b : InboundBuffer) (p : Peer N) → Same p (inbound_packet b p)
  unfolding inbound_packet
  inbound_packet-Same b p = ground arith

  pub handshake_packet-Same :
      (b : InboundBuffer) (p q : Peer N) → handshake_packet b p ≡ done q → Same p q
  unfolding handshake_packet
  handshake_packet-Same b p q e = ground arith

  pub outbound_packet-Same :
      (env : Env) (seed : ℕ) (b : OutboundBuffer) (p q : Peer N)
      → outbound_packet env seed b p ≡ done q
      → Same p q
  unfolding outbound_packet
  outbound_packet-Same env seed b p q e = ground (
    arith,
    try_send_handshake-Same env seed false (record p { outbound = p.outbound ++ some b ∷ [] }) q,
    try_send_handshake-Same env seed false (emit outbound_full p) q,
  )
