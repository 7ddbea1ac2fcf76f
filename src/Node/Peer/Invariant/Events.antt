-- ===== src/Node/Peer/Invariant/Events.antt =====
-- The invariant through every event.
use zeronet.Node.Peer.Invariant.Sending.{try_send_handshake-Inv, reset_state-Inv}
use zeronet.Node.Peer.Lifecycle.{
  starts, stops, takes_inbound, takes_outbound, delivers, keepalive_fires, transmits, stop, start,
  outbound_packet, await_routines, take_handshake, take_inbound, take_outbound, step, Event,
  data_arrives, inbound_packet, handshake_arrives, handshake_packet, packet_leaves, takes_handshake,
  process_inbound, process_outbound, handshake_fires, rx_fires,
}
use zeronet.Node.Peer.Data.{open_inbound, seal_outbound, rx_timeout, deliver, tx_timeout}
use zeronet.Prelude.{
  ℕ, ◌≡◌, Bool-cases, true, ◌==◌, arith, some, ◌+◌, Option-cases, sym, ◌∙◌, ap, none, is_some,
  false, ◌++◌, ◌∷◌, [], List, Option, refl,
}
use zeronet.Go.{Outcome, done, ◌>>=◌, >>=-eq-done}
use zeronet.Node.Buffer.{InboundBuffer, OutboundBuffer}
use zeronet.Node.Noise.{Noise, IkPattern}
use zeronet.Node.Peer.State.{
  Peer, Env, update_endpoint, timer_keepalive, update_endpoint_lem, timer_rx_timeout, reset_state,
  emit, outbound_full,
}
use zeronet.Node.Peer.Handshake.{
  complete, handshake, handshake_first, handshake_answer, handshake_again, lock_pending,
  handshake_timeout, unlock_pending,
}
use zeronet.Node.Peer.Invariant.{
  Inv, IsGated, Bool-cases, true, update_endpoint, arith, inl, some, inr, Option-cases, sym, none,
  is_some, reset_state, false, [], emit, List, Option,
}
use zeronet.Node.Peer.Invariant.Completion.{complete-Inv}

module _ {N : Noise} (L : IkPattern N) where
  handshake_first-Inv :
      (env : Env) (seed : ℕ) (b : InboundBuffer) (p q : Peer N)
      → Inv L p
      → IsGated p
      → handshake_first env seed b p ≡ done q
      → Inv L q
  unfolding handshake_first
  handshake_first-Inv env seed b p q v g e = elim (Bool-cases (b.header.counter == 0)) [
    | inl c ↦
        let (r, e₁, e₂) =
          >>=-eq-done (complete env seed b p)
            (λ q. done (record q { keepalive = some (timer_keepalive + 5) })) (rw c at e) in
        ground (arith, complete-Inv L env seed b p r v.sent g e₁)
    | inr c ↦ ground arith
  ]

  handshake_answer-Inv :
      (env : Env) (seed : ℕ) (b : InboundBuffer) (p q : Peer N)
      → Inv L p
      → IsGated p
      → handshake_answer env seed b p ≡ done q
      → Inv L q
  unfolding handshake_answer
  handshake_answer-Inv env seed b p q v g e = elim (Bool-cases (b.header.counter == 1)) [
    | inl c ↦
        let (r, e₁, e₂) =
          >>=-eq-done (complete env seed b p)
            (λ q. done (record q { keepalive = some timer_keepalive })) (rw c at e) in
        ground (arith, complete-Inv L env seed b p r v.sent g e₁)
    | inr c ↦ ground arith
  ]

  handshake_again-Inv :
      (env : Env) (seed : ℕ) (b : InboundBuffer) (p q : Peer N)
      → Inv L p
      → p.running ≡ true
      → handshake_again env seed b p ≡ done q
      → Inv L q
  unfolding handshake_again lock_pending
  handshake_again-Inv env seed b p q v g e = elim (Option-cases b.raddr) [
    | inl n ↦ ground arith
    | inr (a, f) ↦
        let p' : Peer N = update_endpoint a (record p { pending_locked = true }) in
        let u : p' ≡ record p { pending_locked = true; raddr = p'.raddr } =
          update_endpoint_lem a (record p { pending_locked = true }) in
        let resume : Peer N → Outcome (Peer N) = λ r. done (record r {
          keepalive = some timer_keepalive;
          received_packet = some timer_rx_timeout;
        }) in
        let e' : (complete env seed b p' >>= resume) ≡ done q = ground arith in
        let (r, e₁, e₂) = >>=-eq-done (complete env seed b p') resume e' in
        ground (
          arith,
          complete-Inv L env seed b p' r
              (λ i h k.
                v.sent (sym (ap (λ (x : Peer N). x.initiator) u) ∙ i) h
                  (sym (ap (λ (x : Peer N). x.hs) u) ∙ k))
              (ground arith) e₁,
        )
  ]

  handshake-Inv :
      (env : Env) (seed : ℕ) (b : InboundBuffer) (p q : Peer N)
      → Inv L p
      → p.running ≡ true
      → handshake env seed b p ≡ done q
      → Inv L q
  unfolding handshake
  handshake-Inv env seed b p q v r e = ground (
    arith,
    handshake_first-Inv env seed b p q v,
    handshake_answer-Inv env seed b p q v,
    handshake_again-Inv env seed b p q v r,
  )

  open_inbound-Inv :
      (b : InboundBuffer) (p q : Peer N) → Inv L p → open_inbound b p ≡ done q → Inv L q
  unfolding open_inbound deliver update_endpoint
  open_inbound-Inv b p q v e = ground arith

  seal_outbound-Inv :
      (env : Env) (b : OutboundBuffer) (p q : Peer N)
      → Inv L p
      → seal_outbound env b p ≡ done q
      → Inv L q
  unfolding seal_outbound
  seal_outbound-Inv env b p q v e = ground arith

  rx_timeout-Inv :
      (env : Env) (seed : ℕ) (p q : Peer N) → Inv L p → rx_timeout env seed p ≡ done q → Inv L q
  unfolding rx_timeout lock_pending
  rx_timeout-Inv env seed p q v e =
      let r : Peer N = record p {
        received_packet = none;
        keepalive = none;
        pending_locked = true;
      } in
      ground (
        arith,
        try_send_handshake-Inv L env seed true (record r { state = 0 }) q,
        reset_state-Inv L (record r { state = 0; handshake_sent = none }) q,
      )

  handshake_timeout-Inv :
      (env : Env) (seed : ℕ) (p q : Peer N)
      → Inv L p
      → is_some p.handshake_sent ≡ true
      → handshake_timeout env seed p ≡ done q
      → Inv L q
  unfolding handshake_timeout
  handshake_timeout-Inv env seed p q v armed e = ground (
    arith,
    try_send_handshake-Inv L env seed true
        (record p { handshake_sent = none; in_transport = false }) q,
  )

  pub stop-Inv : (p q : Peer N) → Inv L p → stop p ≡ done q → Inv L q
  unfolding stop reset_state await_routines unlock_pending
  stop-Inv p q v e = ground arith

  pub start-Inv : (p q : Peer N) → Inv L p → start p ≡ done (some q) → Inv L q
  unfolding start lock_pending
  start-Inv p q v e = ground arith

  pub outbound_packet-Inv :
      (env : Env) (seed : ℕ) (b : OutboundBuffer) (p q : Peer N)
      → Inv L p
      → outbound_packet env seed b p ≡ done q
      → Inv L q
  unfolding outbound_packet
  outbound_packet-Inv env seed b p q v e = ground (
    arith,
    try_send_handshake-Inv L env seed false (record p { outbound = p.outbound ++ some b ∷ [] }) q,
    try_send_handshake-Inv L env seed false (emit outbound_full p) q,
  )

  take_handshake-Inv :
      (env : Env) (seed : ℕ) (bs : List (Option InboundBuffer)) (p q : Peer N)
      → Inv L p
      → take_handshake env seed bs p ≡ done q
      → Inv L q
  unfolding take_handshake
  take_handshake-Inv env seed [] p q v e = ground arith
  take_handshake-Inv env seed (none ∷ bs) p q v e = ground arith
  take_handshake-Inv env seed (some b ∷ bs) p q v e =
      ground (arith, handshake-Inv env seed b (record p { handshakes = bs }) q)

  take_inbound-Inv :
      (bs : List (Option InboundBuffer)) (p q : Peer N)
      → Inv L p
      → take_inbound bs p ≡ done q
      → Inv L q
  unfolding take_inbound
  take_inbound-Inv bs p q v e = ground arith

  take_outbound-Inv :
      (bs : List (Option OutboundBuffer)) (p q : Peer N)
      → Inv L p
      → take_outbound bs p ≡ done q
      → Inv L q
  unfolding take_outbound
  take_outbound-Inv bs p q v e = ground arith

  -- Whatever happens to a peer, short of a panic, its state, its lock, its ciphers and its timers
  -- stay consistent.
  pub step-Inv : (env : Env) (e : Event) (p q : Peer N) → Inv L p → step env e p ≡ done q → Inv L q
  unfolding step
  step-Inv env starts p q v e = go (start p) refl
    where
      go : (r : Outcome (Option (Peer N))) → start p ≡ r → Inv L q
      go (done (some q')) f = ground (arith, start-Inv p q' v f)
      go _ f = ground arith
  step-Inv env stops p q v e = stop-Inv p q v e
  step-Inv env (data_arrives b) p q v e = unfold inbound_packet in ground arith
  step-Inv env (handshake_arrives b) p q v e = unfold handshake_packet in ground arith
  step-Inv env (packet_leaves seed b) p q v e = outbound_packet-Inv env seed b p q v e
  step-Inv env takes_inbound p q v e = take_inbound-Inv p.inbound p q v e
  step-Inv env takes_outbound p q v e = take_outbound-Inv p.outbound p q v e
  step-Inv env (takes_handshake seed) p q v e = take_handshake-Inv env seed p.handshakes p q v e
  step-Inv env delivers p q v e = elim (Option-cases p.inbound_held) [
    | inl n ↦ unfold process_inbound in ground arith
    | inr (b, f) ↦
        unfold process_inbound in
        ground (arith, open_inbound-Inv b (record p { inbound_held = none }) q)
  ]
  step-Inv env transmits p q v e = elim (Option-cases p.outbound_held) [
    | inl n ↦ unfold process_outbound in ground arith
    | inr (b, f) ↦
        unfold process_outbound in
        ground (arith, seal_outbound-Inv env b (record p { outbound_held = none }) q)
  ]
  step-Inv env (handshake_fires seed) p q v e = ground (arith, handshake_timeout-Inv env seed p q v)
  step-Inv env keepalive_fires p q v e = unfold tx_timeout in ground arith
  step-Inv env (rx_fires seed) p q v e = ground (arith, rx_timeout-Inv env seed p q v)
