-- ===== src/Node/Invariant/Updates.antt =====
-- The invariant of a node through the updates that the controller sends.
use mathlib.Core.Path.{subst}
use zeronet.Prelude.{
  ℕ, ◌≡◌, refl, true, false, Option, some, none, List, [], ◌∷◌, arith, All, All-append, Bool-cases,
  inl, inr, not, ◌||◌, ltb, ◌⊎◌, if◌then◌else◌,
}
use zeronet.Go.{done, panics, ◌>>=◌, >>=-eq-done, deref, or_panic, failed, slice_bounds}
use zeronet.Go.SyncMap.{load, nat_key}
use zeronet.Node.Noise.{Noise, IkPattern}
use zeronet.Node.Net.{Net}
use zeronet.Node.Peer.State.{Peer}
use zeronet.Node.Peer.Invariant.{Inv}
use zeronet.Node.State.{Node, call}
use zeronet.Node.Stop.{stop, stop_all_peers, pointers}
use zeronet.Node.Client.{
  peer_of, add_peer, start_peer, update_peer, handle_punch_request, sync_peers, handle_initial_sync,
  connect_peer, handle_peer_connect, handle_logout, handle_update,
}
use zeronet.Node.Invariant.{NodeInv, HasId, Points}
use zeronet.Node.Invariant.Store.{insert_peer-NodeInv, call-NodeInv, NodeInv-same}
use zeronet.Controller.Types.{ProtoPeer}
use zeronet.Controller.Channels.{
  Update, init, connect, disconnect, punch, logout, PeerList, UpdateType,
}
use zeronet.Node.Invariant.Kept.{Kept, start_peer-Kept, update_peer-Kept, peer_of-Inv}

module _ {N : Noise} (L : IkPattern N) (W : Net) where
  add_peer-NodeInv : (info : ProtoPeer) (n : Node N) → NodeInv L n → NodeInv L (add_peer W info n).0
  unfolding add_peer
  add_peer-NodeInv info n h = go (peer_of W info) refl
    where
      go : (o : Option (Peer N)) → peer_of W info ≡ o → NodeInv L (add_peer W info n).0
      go none e = rw (e, add_peer) h
      go (some p) e = rw (e, add_peer) (insert_peer-NodeInv L p n (peer_of-Inv L W info p e) h)

  sync_peers-NodeInv :
      (infos : List ProtoPeer) (n m : Node N)
      → NodeInv L n
      → sync_peers W infos n ≡ done m
      → NodeInv L m
  unfolding sync_peers
  sync_peers-NodeInv [] n m h e = ground arith
  sync_peers-NodeInv (info ∷ rest) n m h e =
      let (k, f, g) = >>=-eq-done (or_panic failed (add_peer W info n).1) _ e in
      let (a, f₁, g₁) = >>=-eq-done (call k (start_peer W) (add_peer W info n).0) _ g in
      sync_peers-NodeInv rest a m
        (call-NodeInv L k (start_peer W) (add_peer W info n).0 a (start_peer-Kept L W)
          (add_peer-NodeInv info n h) f₁)
        g₁

  connect_peer-NodeInv :
      (info : ProtoPeer) (n m : Node N) → NodeInv L n → connect_peer W info n ≡ done m → NodeInv L m
  unfolding connect_peer
  connect_peer-NodeInv info n m h e = go (load info.id n.by_id) refl
    where
      added : (o : Option ℕ) → (add_peer W info n).1 ≡ o → load info.id n.by_id ≡ none → NodeInv L m
      added none f a =
          let is : (add_peer W info n).0 ≡ m = ground arith in
          subst (NodeInv L) is (add_peer-NodeInv info n h)
      added (some k) f a =
          call-NodeInv L k (start_peer W) (add_peer W info n).0 m (start_peer-Kept L W)
            (add_peer-NodeInv info n h) (ground arith)

      updated :
          (p q : Peer N)
          → Inv L p
          → (update_peer W info p >>= λ r. or_panic failed r) ≡ done q
          → Kept L W p q
      updated p q v f =
          let (r, f₁, g₁) = >>=-eq-done (update_peer W info p) (or_panic failed) f in
          right p q v r f₁ g₁
        where
          right :
              (p q : Peer N)
              → Inv L p
              → (r : Option (Peer N)) → update_peer W info p ≡ done r
              → or_panic failed r ≡ done q
              → Kept L W p q
          right p q v none f g = cc
          right p q v (some x) f g =
              let is : x ≡ q = ground arith in
              subst (Kept L W p) is (update_peer-Kept L W info p x v f)

      go : (o : Option ℕ) → load info.id n.by_id ≡ o → NodeInv L m
      go none a = added (add_peer W info n).1 refl a
      go (some k) a =
          call-NodeInv L k (λ p. update_peer W info p >>= λ r. or_panic failed r) n m updated h
            (ground arith)

  all_pointers :
      (ps : List (Peer N)) (m : List (ℕ × ℕ))
      → All (λ (e : ℕ × ℕ). HasId ps e.1 e.0) m
      → All (λ k. Points ps k) (pointers m)
  all_pointers ps [] h = tt
  all_pointers ps ((i, k) ∷ m) (h, hs) = ((i, h), all_pointers ps m hs)

  pub stop-NodeInv : (n : Node N) → NodeInv L n → NodeInv L (stop n).0
  unfolding stop stop_all_peers
  stop-NodeInv n h = elim (Bool-cases (not n.has_conn || not n.has_tun)) [
    | inl e ↦ rw e h
    | inr e ↦ elim (Bool-cases (not n.running)) [
      | inl f ↦ rw (e, f) h
      | inr f ↦
          rw (e, f)
            (record {
              ids = h.ids;
              ips = h.ips;
              stops =
                  All-append _ n.stopping (pointers n.by_id) h.stops
                    (all_pointers n.peers n.by_id h.ids);
              peers = h.peers;
            })
    ]
  ]

  handle_logout-NodeInv : (n : Node N) → NodeInv L n → NodeInv L (handle_logout W n)
  unfolding handle_logout
  handle_logout-NodeInv n h =
      NodeInv-same L (stop n).0 (handle_logout W n) (refl, refl, refl, refl) (stop-NodeInv n h)

  handle_punch_request-NodeInv :
      (u : Update) (n m : Node N) → NodeInv L n → handle_punch_request W u n ≡ done m → NodeInv L m
  unfolding handle_punch_request
  handle_punch_request-NodeInv u n m h e =
      NodeInv-same L n m (ground arith, ground arith, ground arith, ground arith) h

  handle_initial_sync-NodeInv :
      (u : Update) (n m : Node N) → NodeInv L n → handle_initial_sync W u n ≡ done m → NodeInv L m
  unfolding handle_initial_sync
  handle_initial_sync-NodeInv u n m h e =
      let (list, f, g) = >>=-eq-done (deref u.peer_list) (λ l. sync_peers W l.peers n) e in
      sync_peers-NodeInv list.peers n m h g

  handle_peer_connect-NodeInv :
      (u : Update) (n m : Node N) → NodeInv L n → handle_peer_connect W u n ≡ done m → NodeInv L m
  unfolding handle_peer_connect
  handle_peer_connect-NodeInv u n m h e =
      let (list, f, g) = >>=-eq-done (deref u.peer_list) _ e in
      go list (Bool-cases (ltb list.count 1)) g list.peers refl
    where
      go :
          (list : PeerList)
          → (ltb list.count 1 ≡ true) ⊎ (ltb list.count 1 ≡ false)
          → (if ltb list.count 1 then done n else elim list.peers [
            | [] ↦ panics slice_bounds
            | info ∷ rest ↦ connect_peer W info n
          ])
            ≡ done m
          → (ps : List ProtoPeer) → list.peers ≡ ps
          → NodeInv L m
      go list (inl c) g ps p = subst (NodeInv L) (ground arith) h
      go list (inr c) g [] p = ground arith
      go list (inr c) g (info ∷ rest) p = connect_peer-NodeInv info n m h (ground arith)

  pub handle_update-NodeInv :
      (u : Update) (n m : Node N) → NodeInv L n → handle_update W u n ≡ done m → NodeInv L m
  unfolding handle_update
  handle_update-NodeInv u n m h e = go u.update_type refl
    where
      go : (t : UpdateType) → u.update_type ≡ t → NodeInv L m
      go init a = handle_initial_sync-NodeInv u n m h (ground arith)
      go connect a = handle_peer_connect-NodeInv u n m h (ground arith)
      go disconnect a = subst (NodeInv L) (ground arith) h
      go punch a = handle_punch_request-NodeInv u n m h (ground arith)
      go logout a =
          let is : handle_logout W n ≡ m = ground arith in
          subst (NodeInv L) is (handle_logout-NodeInv n h)
