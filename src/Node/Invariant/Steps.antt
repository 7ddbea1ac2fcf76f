-- ===== src/Node/Invariant/Steps.antt =====
-- The invariant of a node through every event.
use mathlib.Core.Path.{subst}
use zeronet.Prelude.{
  zero, suc, ℕ, ◌≡◌, refl, true, false, Option, some, none, List, [], ◌∷◌, arith, Bool, Bool-cases,
  inl, inr, not, ◌||◌, ◌&&◌, All,
}
use zeronet.Go.{Outcome, done, ◌>>=◌, >>=-eq-done}
use zeronet.Go.SyncMap.{nat_key}
use zeronet.Node.Noise.{Noise, IkPattern}
use zeronet.Node.Net.{Net}
use zeronet.Node.Peer.Lifecycle
use zeronet.Node.Peer.Lifecycle.{
  step, Event, data_arrives, handshake_arrives, packet_leaves, handshake_packet, inbound_packet,
}
use zeronet.Node.Peer.Invariant.Events.{stop-Inv}
use zeronet.Node.Peer.Identity.{stop-Same}
use zeronet.Node.State.{NodeEffect, Node, does, addr_key}
use zeronet.Node.Stop.{pick, NodeError, finish_stop}
use zeronet.Node.Start
use zeronet.Node.Start.{World, run, start_update_stream, cancel}
use zeronet.Node.Packets.{send_stun_request}
use zeronet.Node.Client.{handle_update, request_punch}
use zeronet.Node.Service.{Reply, Login, login, configure}
use zeronet.Node.Events
use zeronet.Node.Events.{NodeEvent, node_step, node_run}
use zeronet.Node.Invariant.{NodeInv, Points}
use zeronet.Node.Invariant.Store.{call-NodeInv, NodeInv-same}
use zeronet.Node.Invariant.Updates.{stop-NodeInv, handle_update-NodeInv}
use zeronet.Controller.Channels.{Update}
use zeronet.Node.Invariant.Packets.{step-NodeInv, on_udp_packet-NodeInv, on_tunnel_packet-NodeInv}

module _ {N : Noise} (L : IkPattern N) (W : Net) where
  run-NodeInv :
      (w : World) (n m : Node N) (x : Option NodeError)
      → NodeInv L n
      → run W w n ≡ done (m, x)
      → NodeInv L m
  unfolding run send_stun_request start_update_stream
  run-NodeInv w n m x h e = elim (Bool-cases (not n.has_conn || not n.has_tun)) [
    | inl a ↦ NodeInv-same L n m (ground arith, ground arith, ground arith, ground arith) h
    | inr a ↦ elim (Bool-cases w.address) [
      | inr b ↦ NodeInv-same L n m (ground arith, ground arith, ground arith, ground arith) h
      | inl b ↦ elim (Bool-cases w.stun) [
        | inr c ↦ NodeInv-same L n m (ground arith, ground arith, ground arith, ground arith) h
        | inl c ↦ streams w.first_update refl a b c
      ]
    ]
  ]
    where
      asked : Node N
      asked = does NodeEffect.stun_request n

      streams :
          (o : Option Update)
          → w.first_update ≡ o
          → (not n.has_conn || not n.has_tun) ≡ false
          → w.address ≡ true
          → w.stun ≡ true
          → NodeInv L m
      streams none u a b c = ground arith
      streams (some u) f a b c =
          let runs : Node N → Outcome (Node N × Option NodeError) =
            λ r. done (record r { running = true }, none) in
          let all : (handle_update W u asked >>= runs) ≡ done (m, x) = ground arith in
          let (r, g, i) = >>=-eq-done (handle_update W u asked) runs all in
          NodeInv-same L r m (ground arith, ground arith, ground arith, ground arith)
            (handle_update-NodeInv L W u asked r (NodeInv-same L n asked (refl, refl, refl, refl) h)
              g)

  start-NodeInv :
      (w : World) (n m : Node N) (x : Option NodeError)
      → NodeInv L n
      → Start.start W w n ≡ done (m, x)
      → NodeInv L m
  unfolding Start.start
  start-NodeInv w n m x h e =
      elim (Bool-cases (n.logged_in && not n.running && w.socket && w.tunnel)) [
        | inr a ↦ NodeInv-same L n m (ground arith, ground arith, ground arith, ground arith) h
        | inl a ↦
            let opened : Node N = record n {
              has_conn = true;
              has_tun = true;
              run_cancelled = false;
            } in
            let all : (run W w opened >>= λ r. done (cancel W r)) ≡ done (m, x) = ground arith in
            let (r, f, g) = >>=-eq-done (run W w opened) (λ r. done (cancel W r)) all in
            let keeps : NodeInv L r.0 =
              run-NodeInv w opened r.0 r.1 (NodeInv-same L n opened (refl, refl, refl, refl) h) f in
            NodeInv-same L r.0 m (ground arith, ground arith, ground arith, ground arith) keeps
      ]

  login-NodeInv :
      (reply : Reply) (pkce : Bool) (n : Node N) (r : Node N × Login)
      → NodeInv L n
      → login W reply pkce n ≡ done r
      → NodeInv L r.0
  unfolding login configure
  login-NodeInv reply pkce n r h e =
      NodeInv-same L n r.0 (ground arith, ground arith, ground arith, ground arith) h

  pick-All :
      (P : ℕ → Type 0) (j : ℕ) (ks : List ℕ) (k : ℕ) (rest : List ℕ)
      → All P ks
      → pick j ks ≡ some (k, rest)
      → All P rest
  pick-All P j [] k rest h e = ground arith
  pick-All P zero (l ∷ ks) k rest h e = let is : ks ≡ rest = ground arith in subst (All P) is h.1
  pick-All P (suc j) (l ∷ ks) k rest h e = go (pick j ks) refl (λ m ms. pick-All P j ks m ms h.1)
    where
      go :
          (o : Option (ℕ × List ℕ))
          → pick j ks ≡ o
          → ((m : ℕ) (ms : List ℕ) → pick j ks ≡ some (m, ms) → All P ms)
          → All P rest
      go none a rec = ground arith
      go (some (m, ms)) a rec =
          let is : l ∷ ms ≡ rest = ground arith in subst (All P) is (h.0, rec m ms a)

  finish_stop-NodeInv :
      (j : ℕ) (n m : Node N) → NodeInv L n → finish_stop j n ≡ done m → NodeInv L m
  unfolding finish_stop
  finish_stop-NodeInv j n m h e = go (pick j n.stopping) refl
    where
      go : (o : Option (ℕ × List ℕ)) → pick j n.stopping ≡ o → NodeInv L m
      go none f = ground arith
      go (some (k, ks)) f =
          call-NodeInv L k Lifecycle.stop (record n { stopping = ks }) m
            (λ p q v g. ((stop-Same p q g).0, stop-Inv L p q v g))
            (record {
              ids = h.ids;
              ips = h.ips;
              stops = pick-All (Points n.peers) j n.stopping k ks h.stops f;
              peers = h.peers;
            })
            (ground arith)

  -- If a node is consistent and an event returns, it is consistent after it: its maps lead to peers
  -- of its store, by id to the peer with that id, as do the goroutines that are to stop a peer, and
  -- every peer satisfies its own invariant.
  pub node_step-NodeInv :
      (e : NodeEvent) (n m : Node N) → NodeInv L n → node_step W e n ≡ done m → NodeInv L m
  unfolding node_step
  node_step-NodeInv (Events.starts w) n m h e =
      let (r, f, g) = >>=-eq-done (Start.start W w n) (λ r. done r.0) e in
      subst (NodeInv L) (ground arith) (start-NodeInv w n r.0 r.1 h f)
  node_step-NodeInv Events.stops n m h e = subst (NodeInv L) (ground arith) (stop-NodeInv L W n h)
  node_step-NodeInv (Events.finishes_stop j) n m h e = finish_stop-NodeInv j n m h e
  node_step-NodeInv (Events.logs_in reply pkce) n m h e =
      let (r, f, g) = >>=-eq-done (login W reply pkce n) (λ r. done r.0) e in
      subst (NodeInv L) (ground arith) (login-NodeInv reply pkce n r h f)
  node_step-NodeInv (Events.update_arrives u) n m h e = handle_update-NodeInv L W u n m h e
  node_step-NodeInv (Events.datagram_arrives b) n m h e = on_udp_packet-NodeInv L W b n m h e
  node_step-NodeInv (Events.packet_leaves seed b) n m h e =
      on_tunnel_packet-NodeInv L W seed b n m h e
  node_step-NodeInv (Events.punches id) n m h e =
      unfold request_punch in
      NodeInv-same L n m (ground arith, ground arith, ground arith, ground arith) h
  node_step-NodeInv (Events.peer_event k x) n m h e = step-NodeInv L k x n m h e
  node_step-NodeInv Events.read_fails n m h e =
      NodeInv-same L n m (ground arith, ground arith, ground arith, ground arith) h
  node_step-NodeInv Events.tunnel_fails n m h e =
      NodeInv-same L n m (ground arith, ground arith, ground arith, ground arith) h

  pub node_run-NodeInv :
      (es : List NodeEvent) (n m : Node N) → NodeInv L n → node_run W es n ≡ done m → NodeInv L m
  unfolding node_run
  node_run-NodeInv [] n m h e = subst (NodeInv L) (ground arith) h
  node_run-NodeInv (e ∷ es) n m h f =
      let (r, g, i) = >>=-eq-done (node_step W e n) (node_run W es) f in
      node_run-NodeInv es r m (node_step-NodeInv e n r h g) i
