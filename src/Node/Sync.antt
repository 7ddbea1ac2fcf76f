-- ===== src/Node/Sync.antt =====
-- The first update that a node has of the controller, with all the peers that are connected.
pub mod Pointers
use mathlib.Core.Option
use zeronet.Prelude.{
  ℕ, suc, ◌≤◌, ◌≡◌, refl, sym, ap, ◌∙◌, true, false, some, none, List, [], ◌∷◌, ◌++◌, arith, length,
  All,
}
use zeronet.Go.{done, panics, failed}
use zeronet.Node.Noise.{Noise}
use zeronet.Node.Net.{Net}
use zeronet.Node.Peer.State.{Peer}
use zeronet.Node.Peer.Handshake.{lock_pending}
use zeronet.Node.Peer.Lifecycle.{start}
use zeronet.Node.State.{Node, set_peer, call, insert_peer, addr_key}
use zeronet.Node.Client.{peer_of, add_peer, start_peer, sync_peers, handle_initial_sync}
use zeronet.Node.Contacts.Peers.{peer_at-last}
use zeronet.Node.Sync.Pointers.{Points, Points-new, Points-store}
use zeronet.Addr.{Addr}
use zeronet.Go.SyncMap.{store, nat_key}
use zeronet.Controller.Types.{ProtoPeer}
use zeronet.Controller.Channels.{Update, PeerList}

append-one {ℓ} :
    {A : Type ℓ} (xs : List A) (y : A) (zs : List A) → (xs ++ y ∷ []) ++ zs ≡ xs ++ y ∷ zs
append-one [] y zs = refl
append-one (x ∷ xs) y zs = ap (λ l. x ∷ l) (append-one xs y zs)

length-snoc {ℓ} : {A : Type ℓ} (xs : List A) (y : A) → length (xs ++ y ∷ []) ≡ suc (length xs)
length-snoc [] y = refl
length-snoc (x ∷ xs) y = ap suc (length-snoc xs y)

append-nil {ℓ} : {A : Type ℓ} (xs : List A) → xs ++ [] ≡ xs
append-nil [] = refl
append-nil (x ∷ xs) = ap (λ l. x ∷ l) (append-nil xs)

-- The peer that a message describes can be made.
abbrev pub Parses : (N : Noise) → Net → ProtoPeer → Type 0
Parses N W info = (p : Peer N) × (peer_of W info ≡ some p)

module _ {N : Noise} where
  set_peer-last :
      (ps : List (Peer N)) (p q : Peer N) → set_peer (length ps) q (ps ++ p ∷ []) ≡ ps ++ q ∷ []
  set_peer-last [] p q = refl
  set_peer-last (x ∷ ps) p q = ap (λ l. x ∷ l) (set_peer-last ps p q)

  abbrev pub id_of : Peer N → ℕ
  id_of p = p.id

  abbrev pub ip_of : Peer N → Addr
  ip_of p = p.ip

  -- Both maps lead from what is the peer's to a peer that has it, from `base` on in the store.
  abbrev pub IsFound : ℕ → Node N → Peer N → Type 0
  IsFound base m q = Points id_of base m.by_id m.peers q.id × Points ip_of base m.by_ip m.peers q.ip

module _ {N : Noise} (W : Net) where
  -- A peer that has been started with what a message says.
  pub record IsStarted (info : ProtoPeer) (q : Peer N) : Type 0 where
    pub id : q.id ≡ info.id
    pub hostname : q.hostname ≡ info.hostname
    pub ip : W.parse_addr info.ip ≡ some q.ip
    pub key : W.decode_key info.public_key ≡ some q.pubkey
    pub endpoint : W.resolve_udp_addr info.endpoint ≡ some q.raddr
    pub running : q.running ≡ true
    pub waits : q.pending_locked ≡ true
    pub state : q.state ≡ 0

  -- A peer for each message, in their order.
  abbrev pub AllStarted : List ProtoPeer → List (Peer N) → Type 0
  AllStarted [] [] = Unit
  AllStarted [] (q ∷ qs) = ⊥
  AllStarted (info ∷ infos) [] = ⊥
  AllStarted (info ∷ infos) (q ∷ qs) = IsStarted info q × AllStarted infos qs

  -- `q` stands where `p` is to be, and has its id and address.
  record Starts (info : ProtoPeer) (p : Peer N) : Type 0 where
    result : Peer N
    starts : start_peer W p ≡ done result
    is_started : IsStarted info result
    same_id : result.id ≡ p.id
    same_ip : result.ip ≡ p.ip

  peer_of-Starts : (info : ProtoPeer) (p : Peer N) → peer_of W info ≡ some p → Starts info p
  unfolding peer_of start lock_pending Option.bind
  peer_of-Starts info p e = record {
    result = record p {
      pending_locked = true;
      routines = true;
      running = true;
      in_transport = false;
    };
    starts = ground arith;
    is_started = record {
      id = ground arith;
      hostname = ground arith;
      ip = ground arith;
      key = ground arith;
      endpoint = ground arith;
      running = refl;
      waits = refl;
      state = ground arith;
    };
    same_id = refl;
    same_ip = refl;
  }

  -- The node after a peer has been added and started.
  abbrev with_peer : Peer N → Node N → Node N
  with_peer q n = record n {
    peers = n.peers ++ q ∷ [];
    by_id = store q.id (length n.peers) n.by_id;
    by_ip = store q.ip (length n.peers) n.by_ip;
  }

  added :
      (info : ProtoPeer) (p : Peer N) (n : Node N)
      → peer_of W info ≡ some p
      → (q : Peer N) × IsStarted info q
        × (call (length n.peers) (start_peer W) (insert_peer p n) ≡ done (with_peer q n))
  unfolding call insert_peer
  added info p n e =
      let s = peer_of-Starts info p e in
      (
        s.result,
        s.is_started,
        rw (peer_at-last n.peers p, call)
            (rw (s.starts) (
              rw (set_peer-last n.peers p s.result) (
                ap done (λ i. record n {
                  peers = n.peers ++ s.result ∷ [];
                  by_id = store (sym s.same_id i) (length n.peers) n.by_id;
                  by_ip = store (sym s.same_ip i) (length n.peers) n.by_ip;
                })))),
      )

  record Synced (base : ℕ) (infos : List ProtoPeer) (n : Node N) : Type 0 where
    after : Node N
    new_peers : List (Peer N)
    succeeds : sync_peers W infos n ≡ done after
    peers_are : after.peers ≡ n.peers ++ new_peers
    all_started : AllStarted infos new_peers
    all_found : All (IsFound base after) new_peers
    keeps : (q : Peer N) → IsFound base n q → IsFound base after q

  sync_peers-Synced :
      (base : ℕ) (infos : List ProtoPeer) (n : Node N)
      → base ≤ length n.peers
      → All (Parses N W) infos
      → Synced base infos n
  unfolding sync_peers add_peer
  sync_peers-Synced base [] n h all = record {
    after = n;
    new_peers = [];
    succeeds = refl;
    peers_are = sym (append-nil n.peers);
    all_started = tt;
    all_found = tt;
    keeps = λ q f. f;
  }
  sync_peers-Synced base (info ∷ rest) n h ((p, e), all) =
      let (q, is, f) = added info p n e in
      let s =
        sync_peers-Synced base rest (with_peer q n) (omega (arith, length-snoc n.peers q, h)) all in
      record {
        after = s.after;
        new_peers = q ∷ s.new_peers;
        succeeds = rw (e, add_peer) (rw f s.succeeds);
        peers_are = s.peers_are ∙ append-one n.peers q s.new_peers;
        all_started = (is, s.all_started);
        all_found = (
          s.keeps q (
            Points-new id_of base n.by_id n.peers q h,
            Points-new ip_of base n.by_ip n.peers q h,
          ),
          s.all_found,
        );
        keeps = λ r (a, b). s.keeps r (
          Points-store id_of base n.by_id n.peers q r.id h a,
          Points-store ip_of base n.by_ip n.peers q r.ip h b,
        );
      }

  sync_peers-panics :
      (before : List ProtoPeer) (info : ProtoPeer) (rest : List ProtoPeer) (n : Node N)
      → All (Parses N W) before
      → peer_of {N = N} W info ≡ none
      → sync_peers W (before ++ info ∷ rest) n ≡ panics failed
  unfolding sync_peers add_peer
  sync_peers-panics [] info rest n h e = rw (e, add_peer) refl
  sync_peers-panics (x ∷ before) info rest n ((p, g), h) e =
      let (q, is, f) = added x p n g in
      rw (g, add_peer) (rw f (sync_peers-panics before info rest (with_peer q n) h e))

  -- The node survives its first update if each peer in it can be made: then a new peer runs for each of
  -- them, in their order, with the id, the host name, the address, the key and the endpoint of the message;
  -- the peers that were there are as they were; and from each such id and address the maps lead to
  -- a new peer that has it. The first that cannot be made brings the node down, whatever the others are.
  pub handle_initial_sync_lem :
      (u : Update) (l : PeerList) (n : Node N)
      → u.peer_list ≡ some l
      → (All (Parses N W) l.peers
          → (m : Node N) × (qs : List (Peer N)) × (handle_initial_sync W u n ≡ done m)
            × (m.peers ≡ n.peers ++ qs)
            × AllStarted l.peers qs
            × All (IsFound (length n.peers) m) qs)
        × ((before : List ProtoPeer) (info : ProtoPeer) (rest : List ProtoPeer)
            → l.peers ≡ before ++ info ∷ rest
            → All (Parses N W) before
            → peer_of {N = N} W info ≡ none
            → handle_initial_sync W u n ≡ panics failed)
  unfolding handle_initial_sync
  handle_initial_sync_lem u l n e = (
    λ h.
        let s = sync_peers-Synced (length n.peers) l.peers n (omega arith) h in
        (s.after, s.new_peers, rw e s.succeeds, s.peers_are, s.all_started, s.all_found),
    λ before info rest is h f. rw e (rw is (sync_peers-panics before info rest n h f)),
  )
