-- ===== src/Node/Invariant.antt =====
-- What holds of a node between two events: the maps lead to peers in its store, by their ids, and
-- every peer is consistent.
pub mod Store
pub mod Kept
pub mod Updates
pub mod Packets
pub mod Steps
use zeronet.Prelude.{ℕ, ◌≡◌, some, All, List}
use zeronet.Addr.{Addr}
use zeronet.Node.Noise.{Noise, IkPattern}
use zeronet.Node.Peer.State.{Peer}
use zeronet.Node.Peer.Invariant.{Inv}
use zeronet.Node.State.{Node, peer_at}

module _ {N : Noise} where
  -- The place in the store has a peer with the id.
  abbrev pub HasId : List (Peer N) → ℕ → ℕ → Type 0
  HasId ps k i = (p : Peer N) × (peer_at ps k ≡ some p) × (p.id ≡ i)

  abbrev pub Points : List (Peer N) → ℕ → Type 0
  Points ps k = (i : ℕ) × HasId ps k i

module _ {N : Noise} (L : IkPattern N) where
  pub record NodeInv (n : Node N) : Type 0 where
    pub ids : All (λ (e : ℕ × ℕ). HasId n.peers e.1 e.0) n.by_id
    pub ips : All (λ (e : Addr × ℕ). Points n.peers e.1) n.by_ip
    pub stops : All (λ k. Points n.peers k) n.stopping
    pub peers : All (Inv L) n.peers
