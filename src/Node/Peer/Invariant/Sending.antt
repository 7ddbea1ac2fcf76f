-- ===== src/Node/Peer/Invariant/Sending.antt =====
-- The invariant where a peer is reset, or writes to the other side.

use zeronet.Prelude.{
  ℕ, ◌≡◌, false, arith, true, none, Bool, ◌+◌, ◌%◌, ◌^◌, Bool-cases, ltb, inl, ◌∙◌, sym, inr,
}
use zeronet.Go.{done}
use zeronet.Node.Noise.{Noise, IkPattern, create_handshake}
use zeronet.Node.Peer.State.{
  Peer, reset_state, Env, count_handshake_retries, init_handshake, emit, request_punch,
}
use zeronet.Node.Peer.Handshake.{send_handshake, try_send_handshake, handshake_p1}
use zeronet.Node.Peer.Invariant.{Inv, IsGated}

module _ {N : Noise} (L : IkPattern N) where
  pub reset_state-Inv :
      (p q : Peer N)
      → p.pending_locked ≡ p.running
      → p.routines ≡ p.running
      → reset_state p ≡ done q
      → Inv L q
  unfolding reset_state
  reset_state-Inv p q g a e = ground arith

  pub send_handshake-Inv :
      (env : Env) (seed : ℕ) (p q : Peer N)
      → IsGated p
      → send_handshake env seed p ≡ done q
      → Inv L q
  unfolding send_handshake init_handshake handshake_p1 create_handshake
  send_handshake-Inv env seed p q g e = grind (arith, L.new-write)

module _ {N : Noise} (L : IkPattern N) where
  pub try_send_handshake-Inv :
      (env : Env) (seed : ℕ) (retry : Bool) (p q : Peer N)
      → IsGated p
      → try_send_handshake env seed retry p ≡ done q
      → Inv L q
  unfolding try_send_handshake
  try_send_handshake-Inv env seed false p q g e =
      send_handshake-Inv L env seed
        (record p { handshake_retries = (p.handshake_retries + 1) % 2 ^ 64 }) q
        (record { locked = g.locked; runs = g.runs; routine = g.routine }) e
  try_send_handshake-Inv env seed true p q g e =
      elim (Bool-cases (ltb count_handshake_retries ((p.handshake_retries + 1) % 2 ^ 64))) [
        | inl over ↦
            reset_state-Inv L
              (record p {
                handshake_retries = (p.handshake_retries + 1) % 2 ^ 64;
                handshake_sent = none;
              })
              q (g.locked ∙ sym g.runs) (g.routine ∙ sym g.runs) (rw over at e)
        | inr again ↦
            send_handshake-Inv L env seed
              (emit (request_punch p.id)
                (record p { handshake_retries = (p.handshake_retries + 1) % 2 ^ 64 }))
              q (record { locked = g.locked; runs = g.runs; routine = g.routine }) (rw again at e)
      ]
