-- ===== src/Node/Crashes.antt =====
-- The updates of the controller that bring a node down.
use zeronet.Prelude.{◌++◌, ℕ, ◌≡◌, ◌≢◌, ◌∙◌, true, false, Option, some, none, List, arith, refl}
use zeronet.Go.{Outcome, done, panics, failed, ◌>>=◌, >>=-eq-done, or_panic}
use zeronet.Go.SyncMap.{load, nat_key}
use zeronet.Node.Noise.{Noise, IkPattern}
use zeronet.Node.Net.{Net}
use zeronet.Node.Buffer.{UdpAddr}
use zeronet.Node.Peer.State.{Peer}
use zeronet.Node.Peer.Lifecycle
use zeronet.Node.Peer.Invariant.{Inv}
use zeronet.Node.Peer.Crashes.{stop-established}
use zeronet.Node.State.{Node, call, peer_at, set_peer}
use zeronet.Node.Stop.{pick, stop, finish_stop, stop_all_peers, pointers}
use zeronet.Node.Client.{
  update_peer, set_endpoint, set_hostname, set_key, set_ip, bytes_eq, connect_peer, handle_logout,
  start_peer, or_invalid,
}
use zeronet.Node.Invariant.{NodeInv}
use zeronet.Node.Invariant.Store.{All-peer_at}
use zeronet.Node.Contacts.Peers.{peer_of-id}
use zeronet.Controller.Types.{ProtoPeer}

module _ {N : Noise} (L : IkPattern N) (W : Net) where
  -- A call that panics.
  call-panics :
      (k : ℕ) (f : Peer N → Outcome (Peer N)) (n : Node N) (p : Peer N)
      → peer_at n.peers k ≡ some p
      → f p ≡ panics failed
      → call k f n ≡ panics failed
  unfolding call
  call-panics k f n p at e = rw (at, call) (rw e refl)

  call-done :
      (k : ℕ) (f : Peer N → Outcome (Peer N)) (n m : Node N) (p : Peer N)
      → peer_at n.peers k ≡ some p
      → call k f n ≡ done m
      → (q : Peer N) × (f p ≡ done q)
  unfolding call
  call-done k f n m p at e =
      let (q, g, h) =
        >>=-eq-done (f p) (λ q. done (record n { peers = set_peer k q n.peers }))
          (rw (at, call) at e) in
      (q, g)

  -- The peer as it is when its key is compared.
  abbrev renamed : ProtoPeer → UdpAddr → Peer N → Peer N
  renamed info new p = set_hostname W info.hostname (set_endpoint W new p)

  renamed-same :
      (info : ProtoPeer) (new : UdpAddr) (p : Peer N)
      → Inv L p
      → Inv L (renamed info new p)
        × ((renamed info new p).running ≡ p.running)
        × ((renamed info new p).state ≡ p.state)
        × ((renamed info new p).pubkey ≡ p.pubkey)
  unfolding set_hostname set_endpoint
  renamed-same info new p v = (ground arith, ground arith, ground arith, ground arith)

  set_key-established :
      (key : List ℕ) (p q : Peer N)
      → Inv L p
      → p.running ≡ true
      → p.state ≡ 2
      → bytes_eq p.pubkey key ≡ false
      → set_key W (some key) p ≢ done q
  unfolding set_key
  set_key-established key p q v on up differ e =
      let (r, f, g) =
        >>=-eq-done (Lifecycle.stop p) (λ r. start_peer W (record r { pubkey = key }))
          (rw differ at e) in
      stop-established L p r v on up f

  rekeys :
      (info : ProtoPeer) (key : List ℕ) (p q : Peer N)
      → Inv L p
      → p.running ≡ true
      → p.state ≡ 2
      → W.decode_key info.public_key ≡ some key
      → bytes_eq p.pubkey key ≡ false
      → (update_peer W info p >>= λ r. or_panic failed r) ≢ done q
  unfolding update_peer
  rekeys info key p q v on up e new f = go (W.parse_addr_port info.endpoint) refl
    where
      go : (o : Option UdpAddr) → W.parse_addr_port info.endpoint ≡ o → ⊥
      go none a = ground arith
      go (some at) a =
          let r : Peer N = renamed info at p in
          let (u, runs, state, key_is) = renamed-same info at p v in
          let differ : bytes_eq r.pubkey key ≡ false = rw key_is new in
          let ends : Peer N → Outcome (Peer N) = λ x.
            done (some (set_ip W (or_invalid (W.parse_addr info.ip)) x)) >>= λ y.
            or_panic failed y in
          let all : (set_key W (some key) r >>= ends) ≡ done q = ground arith in
          let (x, g, h) = >>=-eq-done (set_key W (some key) r) ends all in
          set_key-established key r x u (runs ∙ on) (state ∙ up) differ g

  -- A consistent node that is told of a peer that it knows goes down if the endpoint that it is told
  -- does not parse; and it never gets past a new key for a peer with which it has a session.
  pub connect_peer-crashes :
      (info : ProtoPeer) (n : Node N) (k : ℕ)
      → NodeInv L n
      → load info.id n.by_id ≡ some k
      → (W.parse_addr_port info.endpoint ≡ none → connect_peer W info n ≡ panics failed)
        × ((p : Peer N) (key : List ℕ) (m : Node N)
            → peer_at n.peers k ≡ some p
            → p.running ≡ true
            → p.state ≡ 2
            → W.decode_key info.public_key ≡ some key
            → bytes_eq p.pubkey key ≡ false
            → connect_peer W info n ≢ done m)
  unfolding connect_peer
  connect_peer-crashes info n k v known =
      let updates : Peer N → Outcome (Peer N) =
        λ p. update_peer W info p >>= λ r. or_panic failed r in
      (
        λ e.
            let (p, at, id) = peer_of-id L n info.id k v known in
            let panics_it : updates p ≡ panics failed = unfold update_peer in ground arith in
            rw (known, connect_peer) (call-panics k updates n p at panics_it),
        λ p key m at on up e new f.
            let (q, g) = call-done k updates n m p at (rw (known, connect_peer) at f) in
            rekeys info key p q (All-peer_at (Inv L) n.peers k p v.peers at) on up e new g,
      )

  -- A consistent node that runs, and is logged out by the controller, does not survive the goroutine
  -- that stops a peer with which it has a session, whichever of those that it starts is the next to
  -- run.
  pub handle_logout-established :
      (n m : Node N) (j k : ℕ) (rest : List ℕ) (p : Peer N)
      → NodeInv L n
      → n.has_conn ≡ true
      → n.has_tun ≡ true
      → n.running ≡ true
      → pick j (n.stopping ++ pointers n.by_id) ≡ some (k, rest)
      → peer_at n.peers k ≡ some p
      → p.running ≡ true
      → p.state ≡ 2
      → finish_stop j (handle_logout W n) ≢ done m
  unfolding handle_logout stop stop_all_peers
  handle_logout-established n m j k rest p v conn tun runs next at on up e =
      let logged_out : Node N = record n {
        logged_in = false;
        stopping = rest;
        run_cancelled = true;
        running = false;
      } in
      let all : call k Lifecycle.stop logged_out ≡ done m = unfold finish_stop in ground arith in
      let (q, f) = call-done k Lifecycle.stop logged_out m p at all in
      stop-established L p q (All-peer_at (Inv L) n.peers k p v.peers at) on up f
