-- ===== src/Node/Peer/Invariant/Completion.antt =====
-- The invariant where a handshake is completed.
use zeronet.Header.{handshake_type}
use mathlib.Core.Option
use zeronet.Prelude.{
  ℕ, Option, ◌≡◌, some, false, arith, true, none, Bool-cases, inl, inr, List, Option-cases, refl,
  [],
}
use zeronet.Go.{done, Outcome, panics, blocks}
use zeronet.Node.Buffer.{InboundBuffer, UdpAddr, new_outbound_buffer}
use zeronet.Node.Noise.{Noise, IkPattern, create_handshake, Turn}
use zeronet.Node.Peer.State.{Peer, Env, init_handshake, update_endpoint}
use zeronet.Node.Peer.Handshake.{
  finish_initiator, finish_responder, respond, message_of, packet_header, handshake_p2, complete,
  unlock_pending,
}
use zeronet.Node.Peer.Invariant.{Inv, IsGated, Established}

module _ {N : Noise} (L : IkPattern N) where
  finish_initiator-Inv :
      (b : InboundBuffer) (p q : Peer N)
      → ((hs : N.HandshakeState) → p.hs ≡ some hs → L.Sent hs)
      → finish_initiator b p ≡ done (some q)
      → Established p q × (q.hs ≡ none) × (q.initiator ≡ p.initiator)
  unfolding finish_initiator
  finish_initiator-Inv b p q sent e = go p.hs refl (message_of b) refl
    where
      go :
          (hs : Option N.HandshakeState)
          → p.hs ≡ hs
          → (m : Outcome (List ℕ)) → message_of b ≡ m
          → Established p q × (q.hs ≡ none) × (q.initiator ≡ p.initiator)
      go (some hs) e₁ (done m) e₂ = elim (Option-cases (N.read_message hs m)) [
        | inl r ↦ ground arith
        | inr (w, r) ↦ ground (arith, L.sent-read hs m w (sent hs e₁) r)
      ]
      go none e₁ m e₂ = ground arith
      go (some hs) e₁ (panics x) e₂ = ground arith
      go (some hs) e₁ blocks e₂ = ground arith

  respond-Established :
      (env : Env) (raddr : UdpAddr) (message : List ℕ) (p q : Peer N)
      → ((hs : N.HandshakeState) (m : List ℕ) (w : Turn N)
          → p.hs ≡ some hs
          → N.read_message hs m ≡ some w
          → L.Ready w.3)
      → respond env raddr message p ≡ some q
      → Established p q × (q.initiator ≡ p.initiator)
  unfolding respond update_endpoint Option.bind
  respond-Established env raddr message p q ready e = go p.hs refl
    where
      out : List ℕ
      out = packet_header env new_outbound_buffer handshake_type 1

      go :
          (hs : Option N.HandshakeState) → p.hs ≡ hs → Established p q × (q.initiator ≡ p.initiator)
      go none e₁ = ground arith
      go (some hs) e₁ = elim (Option-cases (N.read_message hs message)) [
        | inl r ↦ ground arith
        | inr (w, r) ↦ elim (Option-cases (N.write_message w.3 out [])) [
          | inl s ↦ ground arith
          | inr (v, s) ↦ ground (arith, L.ready-write w.3 out v (ready hs message w e₁ r) s)
        ]
      ]

  finish_responder-Inv :
      (env : Env) (seed : ℕ) (b : InboundBuffer) (p q : Peer N)
      → finish_responder env seed b p ≡ done (some q)
      → Established p q × (q.initiator ≡ false)
  unfolding finish_responder init_handshake create_handshake
  finish_responder-Inv env seed b p q e =
      go (N.new_handshake_state false env.key_pair none seed) refl (message_of b) refl b.raddr refl
    where
      go :
          (hs : Option N.HandshakeState)
          → N.new_handshake_state false env.key_pair none seed ≡ hs
          → (m : Outcome (List ℕ)) → message_of b ≡ m
          → (a : Option UdpAddr) → b.raddr ≡ a
          → Established p q × (q.initiator ≡ false)
      go (some hs) e₁ (done m) e₂ (some a) e₃ =
          let p' : Peer N = record p { initiator = false; hs = some hs } in
          ground (
            arith,
            respond-Established env a m p' q
                (λ hs' m' w f r. L.new-read env.key_pair seed hs' m' w (cc) r),
          )
      go _ e₁ m e₂ a e₃ = ground arith

  handshake_p2-Inv :
      (env : Env) (seed : ℕ) (b : InboundBuffer) (p q : Peer N)
      → (p.initiator ≡ true → (hs : N.HandshakeState) → p.hs ≡ some hs → L.Sent hs)
      → handshake_p2 env seed b p ≡ done (some q)
      → Established p q × (q.initiator ≡ true → q.hs ≡ none)
  unfolding handshake_p2
  handshake_p2-Inv env seed b p q sent e = elim (Bool-cases p.initiator) [
    | inl i ↦ first i (finish_initiator b p) refl
    | inr i ↦ second i (finish_responder env seed b p) refl
  ]
    where
      first :
          p.initiator ≡ true
          → (r : Outcome (Option (Peer N))) → finish_initiator b p ≡ r
          → Established p q × (q.initiator ≡ true → q.hs ≡ none)
      first i (done (some q')) f = ground (arith, finish_initiator-Inv b p q' (sent i) f)
      first i _ f = ground arith

      second :
          p.initiator ≡ false
          → (r : Outcome (Option (Peer N))) → finish_responder env seed b p ≡ r
          → Established p q × (q.initiator ≡ true → q.hs ≡ none)
      second i (done (some q')) f = ground (arith, finish_responder-Inv env seed b p q' f)
      second i _ f = ground arith

  pub complete-Inv :
      (env : Env) (seed : ℕ) (b : InboundBuffer) (p q : Peer N)
      → (p.initiator ≡ true → (hs : N.HandshakeState) → p.hs ≡ some hs → L.Sent hs)
      → IsGated p
      → complete env seed b p ≡ done q
      → Inv L q
  unfolding complete unlock_pending
  complete-Inv env seed b p q sent g e = go (handshake_p2 env seed b p) refl
    where
      go : (r : Outcome (Option (Peer N))) → handshake_p2 env seed b p ≡ r → Inv L q
      go (done (some q')) f = ground (arith, handshake_p2-Inv env seed b p q' sent f)
      go _ f = ground arith
