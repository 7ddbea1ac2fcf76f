-- ===== src/Node/Peer/Identity/Steps.antt =====
-- No event changes the id or the address of a peer.
use mathlib.Core.Option
use zeronet.Prelude.{
  ℕ, ◌≡◌, Bool-cases, true, false, arith, some, none, ◌∷◌, [], List, Option, refl, inl, inr, ◌+◌,
  ◌==◌, Option-cases,
}
use zeronet.Go.{Outcome, done, panics, blocks, ◌>>=◌, >>=-eq-done, deref}
use zeronet.Node.Buffer.{InboundBuffer, OutboundBuffer}
use zeronet.Node.Noise.{Noise, create_handshake}
use zeronet.Node.Peer.State.{
  Peer, Env, update_endpoint, init_handshake, timer_keepalive, timer_rx_timeout,
}
use zeronet.Node.Peer.Handshake.{
  complete, handshake, handshake_first, handshake_answer, handshake_again, lock_pending,
  unlock_pending, handshake_timeout, handshake_p2, finish_initiator, finish_responder, respond,
}
use zeronet.Node.Peer.Data.{open_inbound, seal_outbound, rx_timeout, deliver, tx_timeout}
use zeronet.Node.Peer.Lifecycle.{
  start, take_handshake, take_inbound, take_outbound, process_inbound, process_outbound, step,
  Event, starts, stops, takes_inbound, takes_outbound, delivers, keepalive_fires, transmits,
  data_arrives, handshake_arrives, packet_leaves, takes_handshake, handshake_fires, rx_fires,
}
use zeronet.Node.Peer.Identity.{
  Same, reset_state-Same, try_send_handshake-Same, stop-Same, start-Same, inbound_packet-Same,
  handshake_packet-Same, outbound_packet-Same,
}

module _ {N : Noise} where
  handshake_p2-Same :
      (env : Env) (seed : ℕ) (b : InboundBuffer) (p q : Peer N)
      → handshake_p2 env seed b p ≡ done (some q)
      → Same p q
  unfolding handshake_p2 finish_initiator finish_responder respond init_handshake create_handshake
      update_endpoint Option.bind
  handshake_p2-Same env seed b p q e = ground arith

  complete-Same :
      (env : Env) (seed : ℕ) (b : InboundBuffer) (p q : Peer N)
      → complete env seed b p ≡ done q
      → Same p q
  unfolding complete unlock_pending
  complete-Same env seed b p q e = go (handshake_p2 env seed b p) refl
    where
      go : (r : Outcome (Option (Peer N))) → handshake_p2 env seed b p ≡ r → Same p q
      go (done (some q')) f = ground (arith, handshake_p2-Same env seed b p q' f)
      go _ f = ground arith

  after-Same :
      (env : Env) (seed : ℕ) (b : InboundBuffer) (p q : Peer N) (f : Peer N → Peer N)
      → ((r : Peer N) → Same r (f r))
      → (complete env seed b p >>= λ r. done (f r)) ≡ done q
      → Same p q
  after-Same env seed b p q f keeps e =
      let (r, e₁, e₂) = >>=-eq-done (complete env seed b p) (λ r. done (f r)) e in
      ground (arith, complete-Same env seed b p r e₁, keeps r)

  handshake_first-Same :
      (env : Env) (seed : ℕ) (b : InboundBuffer) (p q : Peer N)
      → handshake_first env seed b p ≡ done q
      → Same p q
  unfolding handshake_first
  handshake_first-Same env seed b p q e = elim (Bool-cases (b.header.counter == 0)) [
    | inl c ↦
        after-Same env seed b p q (λ r. record r { keepalive = some (timer_keepalive + 5) })
          (λ r. (refl, refl)) (rw c at e)
    | inr c ↦ ground arith
  ]

  handshake_answer-Same :
      (env : Env) (seed : ℕ) (b : InboundBuffer) (p q : Peer N)
      → handshake_answer env seed b p ≡ done q
      → Same p q
  unfolding handshake_answer
  handshake_answer-Same env seed b p q e = elim (Bool-cases (b.header.counter == 1)) [
    | inl c ↦
        after-Same env seed b p q (λ r. record r { keepalive = some timer_keepalive })
          (λ r. (refl, refl)) (rw c at e)
    | inr c ↦ ground arith
  ]

  handshake_again-Same :
      (env : Env) (seed : ℕ) (b : InboundBuffer) (p q : Peer N)
      → handshake_again env seed b p ≡ done q
      → Same p q
  unfolding handshake_again lock_pending update_endpoint
  handshake_again-Same env seed b p q e =
      let (p₁, e₁, f₁) = >>=-eq-done (lock_pending p) _ e in
      let (a, e₂, f₂) = >>=-eq-done (deref b.raddr) _ f₁ in
      let same =
        after-Same env seed b (update_endpoint a p₁) q
          (λ r. record r {
            keepalive = some timer_keepalive;
            received_packet = some timer_rx_timeout;
          })
          (λ r. (refl, refl)) f₂ in
      ground (arith, same)

  handshake-Same :
      (env : Env) (seed : ℕ) (b : InboundBuffer) (p q : Peer N)
      → handshake env seed b p ≡ done q
      → Same p q
  unfolding handshake
  handshake-Same env seed b p q e = ground (
    arith,
    handshake_first-Same env seed b p q,
    handshake_answer-Same env seed b p q,
    handshake_again-Same env seed b p q,
  )

  take_handshake-Same :
      (env : Env) (seed : ℕ) (bs : List (Option InboundBuffer)) (p q : Peer N)
      → take_handshake env seed bs p ≡ done q
      → Same p q
  unfolding take_handshake
  take_handshake-Same env seed [] p q e = ground arith
  take_handshake-Same env seed (none ∷ bs) p q e = ground arith
  take_handshake-Same env seed (some b ∷ bs) p q e =
      ground (arith, handshake-Same env seed b (record p { handshakes = bs }) q)

  take_inbound-Same :
      (bs : List (Option InboundBuffer)) (p q : Peer N) → take_inbound bs p ≡ done q → Same p q
  unfolding take_inbound
  take_inbound-Same bs p q e = ground arith

  take_outbound-Same :
      (bs : List (Option OutboundBuffer)) (p q : Peer N) → take_outbound bs p ≡ done q → Same p q
  unfolding take_outbound
  take_outbound-Same bs p q e = ground arith

  open_inbound-Same : (b : InboundBuffer) (p q : Peer N) → open_inbound b p ≡ done q → Same p q
  unfolding open_inbound deliver update_endpoint
  open_inbound-Same b p q e = ground arith

  seal_outbound-Same :
      (env : Env) (b : OutboundBuffer) (p q : Peer N) → seal_outbound env b p ≡ done q → Same p q
  unfolding seal_outbound
  seal_outbound-Same env b p q e = ground arith

  rx_timeout-Same :
      (env : Env) (seed : ℕ) (p q : Peer N) → rx_timeout env seed p ≡ done q → Same p q
  unfolding rx_timeout lock_pending
  rx_timeout-Same env seed p q e =
      let r : Peer N = record p {
        received_packet = none;
        keepalive = none;
        pending_locked = true;
      } in
      ground (
        arith,
        try_send_handshake-Same env seed true (record r { state = 0 }) q,
        reset_state-Same (record r { state = 0; handshake_sent = none }) q,
      )

  handshake_timeout-Same :
      (env : Env) (seed : ℕ) (p q : Peer N) → handshake_timeout env seed p ≡ done q → Same p q
  unfolding handshake_timeout
  handshake_timeout-Same env seed p q e = ground (
    arith,
    try_send_handshake-Same env seed true (record p { handshake_sent = none; in_transport = false })
        q,
  )

  -- No event that returns changes the id or the address of the peer.
  pub step-Same : (env : Env) (e : Event) (p q : Peer N) → step env e p ≡ done q → Same p q
  unfolding step
  step-Same env starts p q e = go (start p) refl
    where
      go : (r : Outcome (Option (Peer N))) → start p ≡ r → Same p q
      go (done (some q')) f = ground (arith, start-Same p q' f)
      go (done none) f = ground arith
      go (panics x) f = ground arith
      go blocks f = ground arith
  step-Same env stops p q e = stop-Same p q e
  step-Same env (data_arrives b) p q e = ground (arith, inbound_packet-Same b p)
  step-Same env (handshake_arrives b) p q e = handshake_packet-Same b p q e
  step-Same env (packet_leaves seed b) p q e = outbound_packet-Same env seed b p q e
  step-Same env takes_inbound p q e = take_inbound-Same p.inbound p q e
  step-Same env takes_outbound p q e = take_outbound-Same p.outbound p q e
  step-Same env (takes_handshake seed) p q e = take_handshake-Same env seed p.handshakes p q e
  step-Same env delivers p q e = elim (Option-cases p.inbound_held) [
    | inl n ↦ unfold process_inbound in ground arith
    | inr (b, f) ↦
        unfold process_inbound in
        ground (arith, open_inbound-Same b (record p { inbound_held = none }) q)
  ]
  step-Same env transmits p q e = elim (Option-cases p.outbound_held) [
    | inl n ↦ unfold process_outbound in ground arith
    | inr (b, f) ↦
        unfold process_outbound in
        ground (arith, seal_outbound-Same env b (record p { outbound_held = none }) q)
  ]
  step-Same env (handshake_fires seed) p q e = ground (arith, handshake_timeout-Same env seed p q)
  step-Same env keepalive_fires p q e = unfold tx_timeout in ground arith
  step-Same env (rx_fires seed) p q e = ground (arith, rx_timeout-Same env seed p q)
