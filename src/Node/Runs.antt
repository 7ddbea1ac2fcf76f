-- ===== src/Node/Runs.antt =====
-- What holds of a node after any events, from the moment that it is made.
use zeronet.Prelude.{◌≡◌, List, some, arith}
use zeronet.Go.{done}
use zeronet.Node.Noise.{Noise, IkPattern}
use zeronet.Node.Net.{Net}
use zeronet.Node.State.{Node}
use zeronet.Node.New.{Machine, new_node}
use zeronet.Node.Events.{NodeEvent, node_run}
use zeronet.Node.Invariant.{NodeInv}
use zeronet.Node.Invariant.Steps.{node_run-NodeInv}
use mathlib.Core.Option

module _ {N : Noise} (L : IkPattern N) (W : Net) where
  new_node-NodeInv : (w : Machine) (n : Node N) → new_node w ≡ some n → NodeInv L n
  unfolding new_node Option.bind
  new_node-NodeInv w n e = record {
    ids = ground arith;
    ips = ground arith;
    stops = ground arith;
    peers = ground arith;
  }

  -- After any events that do not bring it down, a node that `NewNode` made has maps that lead to peers
  -- of its store, by id to the peer with that id, and every peer satisfies its invariant.
  pub node_run-new_node :
      (w : Machine) (es : List NodeEvent) (n m : Node N)
      → new_node w ≡ some n
      → node_run W es n ≡ done m
      → NodeInv L m
  node_run-new_node w es n m made e = node_run-NodeInv L W es n m (new_node-NodeInv w n made) e
