-- ===== src/Node/Peer/Retries.antt =====
-- A handshake that nobody answers is given up.
use zeronet.Header.{handshake_type}
use zeronet.Node.Buffer.{new_outbound_buffer}
use zeronet.Node.Peer.Crashes.{QueuesNoNil}
use zeronet.Node.Peer.Handshake.{packet_header}
use zeronet.Prelude.{ℕ, [], ◌∷◌, some, List, ◌≡◌, true, Bool}
use zeronet.Node.Noise.{Noise, Turn}
use zeronet.Node.Peer.State.{Peer, Env}
use zeronet.Node.Peer.Lifecycle.{Event, handshake_fires}

-- The timer fires again and again, and nothing else happens.
abbrev pub timeouts : List ℕ → List Event
timeouts [] = []
timeouts (seed ∷ seeds) = handshake_fires seed ∷ timeouts seeds

module _ (N : Noise) (env : Env) (rs : List ℕ) where
  -- The library can always make the first message to the peer with the static key `rs`.
  abbrev pub CanWrite : Type 0
  CanWrite =
      (seed : ℕ)
      → (hs : N.HandshakeState) × (w : Turn N) × (N.new_handshake_state true env.key_pair (some rs)
            seed
          ≡ some hs)
        × (N.write_message hs (packet_header env new_outbound_buffer handshake_type 0) [] ≡ some w)

  -- A peer whose first message is on its way, for the time counted, with what it keeps queued.
  abbrev Waits : Peer N → Bool → ℕ → Type 0
  Waits p running tries =
      (p.state ≡ 1)
      × (p.initiator ≡ true)
      × (p.handshake_sent ≡ some 3)
      × (p.handshake_retries ≡ tries)
      × (p.pubkey ≡ rs)
      × (p.running ≡ running)
      × QueuesNoNil p
