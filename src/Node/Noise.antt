-- ===== src/Node/Noise.antt =====
-- github.com/flynn/noise, a parameter of the model, and node/noise.go, which configures it.
use zeronet.Prelude.{
  is_some, ℕ, Bool, true, false, Option, none, some, List, ◌≡◌, [], ◌++◌, ◌<◌, ◌^◌,
}

pub record DhKey : Type 0 where
  pub public : List ℕ
  pub private : List ℕ

-- The library's types and functions. A call that mutates its receiver returns it as it is left; an
-- error is `none`. `seed` is what the random source yields for the ephemeral key.
pub record Noise : Type 1 where
  pub HandshakeState : Type 0
  pub CipherState : Type 0
  pub new_handshake_state :
      (initiator : Bool) (static : DhKey) (peer_static : Option (List ℕ)) (seed : ℕ)
      → Option HandshakeState
  pub write_message :
      HandshakeState
      → (out payload : List ℕ)
      → Option (List ℕ × Option CipherState × Option CipherState × HandshakeState)
  pub read_message :
      HandshakeState
      → (message : List ℕ)
      → Option (List ℕ × Option CipherState × Option CipherState × HandshakeState)
  pub encrypt : CipherState → (out ad plaintext : List ℕ) → Option (List ℕ) × CipherState
  pub decrypt : CipherState → (out ad ciphertext : List ℕ) → Option (List ℕ) × CipherState
  pub nonce : CipherState → ℕ
  pub set_nonce : CipherState → ℕ → CipherState

-- `CreateHandshake`: the initiator knows the static key of the other side (pattern IK).
unfoldable pub create_handshake : (N : Noise) → Bool → DhKey → List ℕ → ℕ → Option N.HandshakeState
create_handshake N true keypair rs seed = N.new_handshake_state true keypair (some rs) seed
create_handshake N false keypair rs seed = N.new_handshake_state false keypair none seed

-- What a call of `WriteMessage` or `ReadMessage` returns: bytes, two ciphers, the state after it.
abbrev pub Turn : Noise → Type 0
Turn N = List ℕ × Option N.CipherState × Option N.CipherState × N.HandshakeState

-- What the node relies on of pattern IK, with two messages. `Sent` is an initiator that has written
-- the first one, `Ready` a responder that has read it; the second message completes the handshake,
-- and a complete handshake returns both ciphers.
pub record IkPattern (N : Noise) : Type 1 where
  pub Sent : N.HandshakeState → Type 0
  pub Ready : N.HandshakeState → Type 0
  pub new-write :
      (k : DhKey) (rs : List ℕ) (seed : ℕ) (out : List ℕ) (hs : N.HandshakeState) (w : Turn N)
      → N.new_handshake_state true k (some rs) seed ≡ some hs
      → N.write_message hs out [] ≡ some w
      → Sent w.3
  pub sent-read :
      (hs : N.HandshakeState) (m : List ℕ) (w : Turn N)
      → Sent hs
      → N.read_message hs m ≡ some w
      → (is_some w.1 ≡ true) × (is_some w.2 ≡ true)
  pub new-read :
      (k : DhKey) (seed : ℕ) (hs : N.HandshakeState) (m : List ℕ) (w : Turn N)
      → N.new_handshake_state false k none seed ≡ some hs
      → N.read_message hs m ≡ some w
      → Ready w.3
  pub ready-write :
      (hs : N.HandshakeState) (out : List ℕ) (w : Turn N)
      → Ready hs
      → N.write_message hs out [] ≡ some w
      → (is_some w.1 ≡ true) × (is_some w.2 ≡ true)

-- Ciphers that share a key, a sender's and a receiver's.
pub record Agreement (N : Noise) : Type 1 where
  -- A sender's cipher, and the cipher that opens what it seals.
  pub Paired : N.CipherState → N.CipherState → Type 0
  -- What is sealed is appended to what is there, and opens under the nonce that it was sealed with.
  pub seal-open :
      (tx rx tx' : N.CipherState) (out plain sealed : List ℕ)
      → Paired tx rx
      → N.encrypt tx out [] plain ≡ (some sealed, tx')
      → (body : List ℕ) × (sealed ≡ out ++ body)
        × ((N.decrypt (N.set_nonce rx (N.nonce tx)) [] [] body).0 ≡ some plain)
  pub seal-Paired :
      (tx rx : N.CipherState) (out plain : List ℕ)
      → Paired tx rx
      → Paired (N.encrypt tx out [] plain).1 rx
  pub open-Paired :
      (tx rx : N.CipherState) (n : ℕ) (body : List ℕ)
      → Paired tx rx
      → Paired tx (N.decrypt (N.set_nonce rx n) [] [] body).1
  pub nonce-lt : (tx : N.CipherState) → N.nonce tx < 2 ^ 64

-- A run of pattern IK that succeeds, between an initiator that knows the static key of the responder, and
-- that responder, whose messages are written behind `out` and `out'`: each reads what the other has written,
-- and both end with two ciphers, of which the first carries what the initiator sends.
pub record Exchanged {N : Noise} (A : Agreement N) (hs hs' : N.HandshakeState) (out out' : List ℕ)
    : Type 0 where
  pub asks : List ℕ
  pub answers : List ℕ
  pub asked : Turn N
  pub heard : Turn N
  pub replied : Turn N
  pub learnt : Turn N
  pub first : N.CipherState × N.CipherState
  pub second : N.CipherState × N.CipherState
  pub asking : N.write_message hs out [] ≡ some asked
  pub hearing : N.read_message hs' asks ≡ some heard
  pub replying : N.write_message heard.3 out' [] ≡ some replied
  pub learning : N.read_message asked.3 answers ≡ some learnt
  pub ask_bytes : asked.0 ≡ out ++ asks
  pub answer_bytes : replied.0 ≡ out' ++ answers
  pub initiator_sends : learnt.1 ≡ some first.0
  pub responder_receives : replied.1 ≡ some first.1
  pub responder_sends : replied.2 ≡ some second.0
  pub initiator_receives : learnt.2 ≡ some second.1
  pub first_paired : A.Paired first.0 first.1
  pub second_paired : A.Paired second.0 second.1
