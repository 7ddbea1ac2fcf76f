-- ===== src/Node/Stop.antt =====
-- node/node.go: how a node is stopped, and with it its peers.
use zeronet.Prelude.{
  zero, suc, ℕ, List, [], ◌∷◌, ◌++◌, true, false, if◌then◌else◌, not, ◌||◌, Option, some, none,
}
use zeronet.Go.{Outcome, blocks}
use zeronet.Node.Noise.{Noise}
use zeronet.Node.Peer.Lifecycle
use zeronet.Node.State.{Node, call}

pub data NodeError : Type 0 where
  not_logged_in already_running not_initialized already_stopped : NodeError
  no_socket no_tunnel no_address no_stun : NodeError

abbrev pub pointers : List (ℕ × ℕ) → List ℕ
pointers [] = []
pointers ((id, k) ∷ m) = k ∷ pointers m

-- The element with a number, and the others.
abbrev pub pick : ℕ → List ℕ → Option (ℕ × List ℕ)
pick j [] = none
pick zero (k ∷ ks) = some (k, ks)
pick (suc j) (k ∷ ks) =
    let rest = pick j ks in elim rest [ none ↦ none | some (l, ls) ↦ some (l, k ∷ ls) ]

module _ {N : Noise} where
  -- `go peer.Stop()` for each peer of the map.
  unfoldable pub stop_all_peers : Node N → Node N
  stop_all_peers n = record n { stopping = n.stopping ++ pointers n.by_id }

  unfoldable pub stop : Node N → Node N × Option NodeError
  stop n =
      if not n.has_conn || not n.has_tun
      then (n, some not_initialized)
      else if not n.running
      then (n, some already_stopped)
      else (record (stop_all_peers n) { run_cancelled = true; running = false }, none)

  -- The goroutine with the number, of those that `StopAllPeers` started, runs.
  unfoldable pub finish_stop : ℕ → Node N → Outcome (Node N)
  finish_stop j n = elim (pick j n.stopping) [
    | none ↦ blocks
    | some (k, ks) ↦ call k Lifecycle.stop (record n { stopping = ks })
  ]
