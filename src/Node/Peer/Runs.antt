-- ===== src/Node/Peer/Runs.antt =====
-- What holds of a peer after any events, from the moment that it is made.
use zeronet.Addr.{Addr}
use zeronet.Node.Peer.Data.{open_inbound, seal_outbound, deliver}
use zeronet.Node.Peer.Handshake.{message_of}
use zeronet.Header.{header_len, slice}
use zeronet.Node.Buffer.{InboundBuffer, UdpAddr, OutboundBuffer}
use zeronet.Prelude.{
  ℕ, List, ◌≡◌, arith, ◌≤◌, true, ◌∷◌, length, some, is_some, ◌≢◌, [], Option, none, refl, String,
}
use zeronet.Go.{done, Panic, >>=-eq-done, panics}
use zeronet.Node.Noise.{Noise, IkPattern}
use zeronet.Node.Peer.State.{Peer, Env}
use zeronet.Node.Peer.Lifecycle.{
  Event, run, new_peer, step, delivers, transmits, process_inbound, process_outbound,
}
use zeronet.Node.Peer.Invariant.{Inv}
use zeronet.Node.Peer.Invariant.Events.{step-Inv}

module _ {N : Noise} (L : IkPattern N) where
  run-Inv : (env : Env) (es : List Event) (p q : Peer N) → Inv L p → run env es p ≡ done q → Inv L q
  unfolding run
  run-Inv env [] p q v e = ground arith
  run-Inv env (x ∷ es) p q v e =
      let (r, e₁, e₂) = >>=-eq-done (step env x p) (run env es) e in
      run-Inv env es r q (step-Inv L env x p r v e₁) e₂

  pub new_peer-Inv :
      (id : ℕ) (ip : Addr) (hostname : String) (pubkey : List ℕ) (raddr : UdpAddr)
      → Inv L (new_peer id ip hostname pubkey raddr)
  new_peer-Inv id ip hostname pubkey raddr = ground arith

  -- After any events that do not crash it, a peer made by `NewPeer` satisfies the invariant: the lock
  -- is held exactly while it runs without a session, a peer with a session has both ciphers, and a
  -- peer that waits for an answer has a handshake that expects one.
  pub run-new_peer-Inv :
      (env : Env) (es : List Event) (id : ℕ) (ip : Addr) (hostname : String) (pubkey : List ℕ)
      (raddr : UdpAddr) (q : Peer N)
      → run env es (new_peer id ip hostname pubkey raddr) ≡ done q
      → Inv L q
  run-new_peer-Inv env es id ip hostname pubkey raddr q e =
      run-Inv env es _ q (new_peer-Inv id ip hostname pubkey raddr) e

-- A buffer that `ReadUDPPackets` filled with a datagram that has a header.
pub record IsReceived (b : InboundBuffer) : Type 0 where
  pub has_header : header_len ≤ b.size
  pub fits : b.size ≤ length b.raw
  pub addressed : is_some b.raddr ≡ true

message_of-IsReceived :
    (b : InboundBuffer) → IsReceived b → message_of b ≡ done (slice b.raw header_len b.size)
unfolding message_of
message_of-IsReceived b r = ground arith

module _ {N : Noise} where
  open_inbound_safe :
      (b : InboundBuffer) (p : Peer N) (x : Panic)
      → is_some p.rx ≡ true
      → IsReceived b
      → open_inbound b p ≢ panics x
  unfolding open_inbound deliver
  open_inbound_safe b p x s r e = ground (arith, message_of-IsReceived b r)

  seal_outbound_safe :
      (env : Env) (b : OutboundBuffer) (p : Peer N) (x : Panic)
      → is_some p.tx ≡ true
      → b.size ≤ length b.packet
      → seal_outbound env b p ≢ panics x
  unfolding seal_outbound
  seal_outbound_safe env b p x s r e = ground arith

module _ {N : Noise} (L : IkPattern N) where
  -- A packet in hand is processed without a panic, in both directions, whenever the lock is free:
  -- the ciphers are there, and the slices are in bounds.
  pub delivers-transmits_safe :
      (env : Env) (p : Peer N) (x : Panic)
      → Inv L p
      → p.running ≡ true
      → ((b : InboundBuffer) → p.inbound_held ≡ some b → IsReceived b)
      → ((b : OutboundBuffer) → p.outbound_held ≡ some b → b.size ≤ length b.packet)
      → (step env delivers p ≢ panics x) × (step env transmits p ≢ panics x)
  unfolding step process_inbound process_outbound
  delivers-transmits_safe env p x v r hin hout =
      (λ e. inbound p.inbound_held refl e, λ e. outbound p.outbound_held refl e)
    where
      inbound : (h : Option InboundBuffer) → p.inbound_held ≡ h → process_inbound h p ≢ panics x
      inbound none f e = ground arith
      inbound (some b) f e =
          ground (arith, open_inbound_safe b (record p { inbound_held = none }) x, hin b f)

      outbound :
          (h : Option OutboundBuffer) → p.outbound_held ≡ h → process_outbound env h p ≢ panics x
      outbound none f e = ground arith
      outbound (some b) f e =
          ground (arith, seal_outbound_safe env b (record p { outbound_held = none }) x, hout b f)
