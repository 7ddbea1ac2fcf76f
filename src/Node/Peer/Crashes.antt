-- ===== src/Node/Peer/Crashes.antt =====
-- When a peer cannot be stopped, and which handshake packets bring its node down.
use zeronet.Node.Buffer.{InboundBuffer, OutboundBuffer}
use zeronet.Node.Peer.Handshake.{
  unlock_pending, handshake, handshake_first, handshake_answer, handshake_again, complete,
  handshake_p2, finish_initiator, lock_pending,
}
use zeronet.Prelude.{
  [], ◌∷◌, some, none, List, Option, ◌≡◌, false, true, refl, ◌≢◌, is_some, arith, ◌||◌, ℕ,
}
use zeronet.Go.{done, panics, blocks, unlock_of_unlocked, wrong_counter, nil_pointer}
use zeronet.Node.Noise.{Noise, IkPattern}
use zeronet.Node.Peer.State.{
  Peer, Effect, put_inbound, put_outbound, flush_inbound, flush_outbound, reset_state, flush_queues,
  update_endpoint, Env,
}
use zeronet.Node.Peer.Lifecycle.{stop, await_routines, step, take_handshake, takes_handshake}
use zeronet.Node.Peer.Invariant.{Inv}

-- No nil waits in a queue.
abbrev pub NoNil {ℓ} : {A : Type ℓ} → List (Option A) → Type 0
NoNil [] = Unit
NoNil (none ∷ q) = ⊥
NoNil (some b ∷ q) = NoNil q

flush_inbound-done :
    (q : List (Option InboundBuffer)) (t : List Effect)
    → NoNil q
    → (t' : List Effect) × (flush_inbound q t ≡ done t')
unfolding flush_inbound
flush_inbound-done [] t h = (t, refl)
flush_inbound-done (none ∷ q) t h = absurd h
flush_inbound-done (some b ∷ q) t h = flush_inbound-done q (put_inbound ∷ t) h

flush_outbound-done :
    (q : List (Option OutboundBuffer)) (t : List Effect)
    → NoNil q
    → (t' : List Effect) × (flush_outbound q t ≡ done t')
unfolding flush_outbound
flush_outbound-done [] t h = (t, refl)
flush_outbound-done (none ∷ q) t h = absurd h
flush_outbound-done (some b ∷ q) t h = flush_outbound-done q (put_outbound ∷ t) h

module _ {N : Noise} where
  -- The queues hold buffers alone.
  pub record QueuesNoNil (p : Peer N) : Type 0 where
    pub handshakes : NoNil p.handshakes
    pub outbound : NoNil p.outbound
    pub inbound : NoNil p.inbound

  abbrev pub idle : Peer N → List Effect → Peer N
  idle p t = record p {
    hs = none;
    rx = none;
    tx = none;
    state = 0;
    initiator = false;
    received_packet = none;
    keepalive = none;
    handshake_retries = 0;
    inbound = [];
    outbound = [];
    handshakes = [];
    in_transport = false;
    trace = t;
  }

  -- A reset succeeds where no nil is queued, and leaves a peer that is idle, with empty queues.
  pub reset_state_lem :
      (p : Peer N) → QueuesNoNil p → (t : List Effect) × (reset_state p ≡ done (idle p t))
  unfolding reset_state flush_queues
  reset_state_lem p n =
      let (t₁, e₁) = flush_inbound-done p.handshakes p.trace n.handshakes in
      let (t₂, e₂) = flush_outbound-done p.outbound t₁ n.outbound in
      let (t₃, e₃) = flush_inbound-done p.inbound t₂ n.inbound in (t₃, rw e₁ (rw e₂ (rw e₃ refl)))

module _ {N : Noise} (L : IkPattern N) where
  -- `Stop` of a running peer whose queues hold buffers alone, where a routine handles each packet in one
  -- step and may have taken one that it has not handled yet. With a session it crashes the process in
  -- either case: it unlocks a lock that is free, or the routine that has taken a packet finds no cipher.
  -- Without a session it waits for ever if a routine has taken a packet, and otherwise it returns an idle
  -- peer that does not run and whose lock is free.
  pub stop_lem :
      (p : Peer N)
      → Inv L p
      → QueuesNoNil p
      → p.running ≡ true
      → (p.state ≡ 2
          → p.inbound_held ≡ none
          → p.outbound_held ≡ none
          → stop p ≡ panics unlock_of_unlocked)
        × (p.state ≡ 2
            → (is_some p.inbound_held || is_some p.outbound_held) ≡ true
            → stop p ≡ panics nil_pointer)
        × (p.state ≢ 2
            → (is_some p.inbound_held || is_some p.outbound_held) ≡ true
            → stop p ≡ blocks)
        × (p.state ≢ 2
            → p.inbound_held ≡ none
            → p.outbound_held ≡ none
            → (q : Peer N) × (stop p ≡ done q)
              × (q.state ≡ 0)
              × (q.running ≡ false)
              × (q.pending_locked ≡ false))
  unfolding stop await_routines unlock_pending
  stop_lem p v n r =
      let (t, e) =
        reset_state_lem (record p { running = false })
          (record { handshakes = n.handshakes; outbound = n.outbound; inbound = n.inbound }) in
      (
        λ s i o. ground arith,
        λ s h. ground arith,
        λ s h. ground arith,
        λ s i o. (
          record (idle p t) { running = false; routines = false; pending_locked = false },
          ground arith,
          refl,
          refl,
          refl,
        ),
      )

  -- A session that is up cannot be stopped, whatever else the peer is doing.
  pub stop-established : (p q : Peer N) → Inv L p → p.running ≡ true → p.state ≡ 2 → stop p ≢ done q
  unfolding stop reset_state await_routines unlock_pending
  stop-established p q v r s e = ground arith

module _ {N : Noise} (L : IkPattern N) where
  -- A handshake packet brings the node down if its counter is not the one that the state expects,
  -- as when both sides have sent the first message, and whenever it reaches a peer with a session
  -- that this side initiated, whose handshake state is gone.
  pub takes_handshake_panics :
      (env : Env) (seed : ℕ) (b : InboundBuffer) (q : List (Option InboundBuffer)) (p : Peer N)
      → Inv L p
      → p.running ≡ true
      → p.handshakes ≡ some b ∷ q
      → is_some b.raddr ≡ true
      → (p.state ≡ 0
          → b.header.counter ≢ 0
          → step env (takes_handshake seed) p ≡ panics wrong_counter)
        × (p.state ≡ 1
            → b.header.counter ≢ 1
            → step env (takes_handshake seed) p ≡ panics wrong_counter)
        × (p.state ≡ 2
            → p.initiator ≡ true
            → step env (takes_handshake seed) p ≡ panics nil_pointer)
  unfolding step take_handshake handshake handshake_first handshake_answer handshake_again complete
      handshake_p2 finish_initiator lock_pending update_endpoint
  takes_handshake_panics env seed b q p v r e a = ground arith
