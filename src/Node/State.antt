-- ===== src/Node/State.antt =====
-- node/node.go: the state of a node. Its peers are shared by pointer between the two maps and the
-- routines that use them, so the node keeps them in a store, and a pointer is a place in it.
use zeronet.Prelude.{ℕ, zero, suc, List, [], ◌∷◌, ◌++◌, Bool, Option, none, some, String, length}
use zeronet.Go.{Outcome, done, panics, nil_pointer, ◌>>=◌}
use zeronet.Go.SyncMap.{store, nat_key, Key}
use zeronet.Addr.{Addr, Prefix, addr_eq, addr_eq_iff}
use zeronet.Node.Noise.{Noise, DhKey}
use zeronet.Node.Buffer.{UdpAddr}
use zeronet.Node.Peer.State.{Peer, Env}

-- What a node does to the world around it, apart from what its peers do.
pub data NodeEffect : Type 0 where
  put_inbound put_outbound : NodeEffect
  write_to_udp : List ℕ → UdpAddr → NodeEffect
  update_endpoint : (machine endpoint : String) → NodeEffect
  punch : (machine : String) → (peer : ℕ) → (endpoint : String) → NodeEffect
  stun_request : NodeEffect

-- `by_id` and `by_ip` are the maps `maps.id` and `maps.ip`, from a key to a pointer. `has_conn` and
-- `has_tun` say that `conn` and `tun` are not nil. The peers in `stopping` have a goroutine that is
-- about to stop them.
pub record Node (N : Noise) : Type 0 where
  pub id : ℕ
  pub ip : Prefix
  pub key_pair : DhKey
  pub machine_id : String
  pub hostname : String
  pub discovered_endpoint : String
  pub peers : List (Peer N)
  pub by_id : List (ℕ × ℕ)
  pub by_ip : List (Addr × ℕ)
  pub has_conn : Bool
  pub has_tun : Bool
  pub run_cancelled : Bool
  pub running : Bool
  pub logged_in : Bool
  pub stopping : List ℕ
  pub trace : List NodeEffect

instance abbrev pub addr_key : Key Addr
addr_key = record { same = addr_eq; same_iff = addr_eq_iff }

module _ {N : Noise} where
  abbrev pub env_of : Node N → Env
  env_of n = record { node_id = n.id; key_pair = n.key_pair }

  abbrev pub peer_at : List (Peer N) → ℕ → Option (Peer N)
  peer_at [] k = none
  peer_at (p ∷ ps) zero = some p
  peer_at (p ∷ ps) (suc k) = peer_at ps k

  abbrev pub set_peer : ℕ → Peer N → List (Peer N) → List (Peer N)
  set_peer k q [] = []
  set_peer zero q (p ∷ ps) = q ∷ ps
  set_peer (suc k) q (p ∷ ps) = p ∷ set_peer k q ps

  abbrev pub does : NodeEffect → Node N → Node N
  does e n = record n { trace = e ∷ n.trace }

  -- A method called through a pointer.
  unfoldable pub call : ℕ → (Peer N → Outcome (Peer N)) → Node N → Outcome (Node N)
  call k f n = elim (peer_at n.peers k) [
    | none ↦ panics nil_pointer
    | some p ↦ f p >>= λ q. done (record n { peers = set_peer k q n.peers })
  ]

  -- A new peer in the store, and the pointer to it in both maps.
  unfoldable pub insert_peer : Peer N → Node N → Node N
  insert_peer p n =
      let k = length n.peers in
      record n {
        peers = n.peers ++ p ∷ [];
        by_id = store p.id k n.by_id;
        by_ip = store p.ip k n.by_ip;
      }
