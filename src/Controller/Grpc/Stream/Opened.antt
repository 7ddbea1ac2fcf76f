-- ===== src/Controller/Grpc/Stream/Opened.antt =====
-- What an update stream that opens has checked, and what it leaves behind.
use mathlib.Core.Path.{subst}
use zeronet.Prelude.{
  ℕ, ◌≡◌, ◌≢◌, refl, sym, ap, ◌∙◌, String, Bool, Bool-cases, true, false, Option, some, none, List,
  [], ◌∷◌, arith, inl, inr, length, All, ◌==◌, ◌⊎◌,
}
use zeronet.Go.{Outcome, done, ◌>>=◌, >>=-eq-done, Result, ok, err}
use zeronet.Go.SyncMap.{load, nat_key, load-store}
use zeronet.Controller.Types.{Peer, ProtoPeer, proto, is_auth_expired}
use zeronet.Controller.Store.{Gorm}
use zeronet.Controller.Channels.{
  Controller, Update, PeerList, init, other_peers, announce, broadcast, announcement, connect,
  peer_connected_event, get_peer_update_channel, get_connected_peers,
}
use zeronet.Controller.Grpc.{Status}
use zeronet.Controller.Grpc.Stream.{Stream, leave, greet, join, admit, update_stream, set_connected}

-- A list of peers for the peer with an id: those of the rows but itself.
pub record Lists (id : ℕ) (rows : List Peer) (u : Update) : Type 0 where
  pub list : PeerList
  pub is_first : u.update_type ≡ init
  pub has_list : u.peer_list ≡ some list
  pub others : list.peers ≡ other_peers id rows
  pub counted : list.count ≡ length list.peers
  pub not_itself : All (λ (p : ProtoPeer). p.id ≢ id) list.peers

other_peers-differ :
    (id : ℕ) (ps : List Peer) → All (λ (p : ProtoPeer). p.id ≢ id) (other_peers id ps)
unfolding proto
other_peers-differ id [] = tt
other_peers-differ id (p ∷ ps) = go (Bool-cases (p.id == id)) (other_peers-differ id ps)
  where
    go :
        ((p.id == id ≡ true) ⊎ (p.id == id ≡ false))
        → All (λ (q : ProtoPeer). q.id ≢ id) (other_peers id ps)
        → All (λ (q : ProtoPeer). q.id ≢ id) (other_peers id (p ∷ ps))
    go (inl e) h = rw e h
    go (inr e) h = rw e (λ f. ground arith, h)

module _ (G : Gorm) (now : ℕ) where
  pub record Opened (machine : String) (c d : Controller G) (stream : Stream) (u : Update)
      : Type 0 where
    pub peer : Peer
    pub found : G.first_machine c.db machine ≡ some peer
    pub in_force : is_auth_expired now peer ≡ false
    pub enabled : peer.disabled ≡ false
    pub logged_in : peer.logged_in ≡ true
    pub is_its_stream : stream.peer ≡ peer.id
    pub marked_connected : G.update_connected c.db now peer.id true ≡ (d.db, true)
    pub new_channel : stream.channel ≡ length c.channels
    pub registered : load peer.id d.peer_channels ≡ some stream.channel
    pub rows : List Peer
    pub connected_rows : G.find_connected d.db ≡ some rows
    pub lists : Lists peer.id rows u

  -- The peer of a call that has been let in.
  record Let (machine : String) (db : G.Db) (peer : Peer) : Type 0 where
    found : G.first_machine db machine ≡ some peer
    in_force : is_auth_expired now peer ≡ false
    enabled : peer.disabled ≡ false
    logged_in : peer.logged_in ≡ true

  admit-Let :
      (machine : String) (db : G.Db) (peer : Peer)
      → admit G now machine db ≡ ok peer
      → Let machine db peer
  unfolding admit
  admit-Let machine db peer e = go (G.first_machine db machine) refl
    where
      go : (o : Option Peer) → G.first_machine db machine ≡ o → Let machine db peer
      go none f = absurd (ground arith)
      go (some p) f =
          let same : p ≡ peer = ground arith in
          record {
            found = f ∙ ap some same;
            in_force = ground arith;
            enabled = ground arith;
            logged_in = ground arith;
          }

  -- An announcement changes the channels alone.
  announce-same :
      (id : ℕ) (c d : Controller G)
      → peer_connected_event G id c ≡ done d
      → (d.db ≡ c.db) × (d.peer_channels ≡ c.peer_channels)
  unfolding peer_connected_event announce
  announce-same id c d e = go (G.first_id c.db id) refl
    where
      go :
          (o : Option Peer)
          → G.first_id c.db id ≡ o
          → (d.db ≡ c.db) × (d.peer_channels ≡ c.peer_channels)
      go none f = (ground arith, ground arith)
      go (some p) f =
          let given : (broadcast id (announcement connect p) c.peer_channels c.channels >>= λ xs.
          done (record c { channels = xs }))
              ≡ done d =
            ground arith in
          let (xs, g, h) =
            >>=-eq-done (broadcast id (announcement connect p) c.peer_channels c.channels)
              (λ xs. done (record c { channels = xs })) given in
          (ground arith, ground arith)

  greet-Opened :
      (machine : String) (peer : Peer) (sent : Bool) (c b d : Controller G) (s stream : Stream)
      (u : Update)
      → Let machine c.db peer
      → s.peer ≡ peer.id
      → s.channel ≡ length c.channels
      → G.update_connected c.db now peer.id true ≡ (b.db, true)
      → load peer.id b.peer_channels ≡ some s.channel
      → greet G now sent s b ≡ done (d, ok (stream, u))
      → Opened machine c d stream u
  unfolding greet get_connected_peers
  greet-Opened machine peer sent c b d s stream u l own new marked at e =
      go (G.find_connected b.db) refl sent refl
    where
      ends : Status → Controller G → Outcome (Controller G × Result Status (Stream × Update))
      ends st c = done (c, err st)

      refused :
          (m : Outcome (Controller G)) (st : Status) → (m >>= ends st) ≢ done (d, ok (stream, u))
      refused m st f = let (x, g, h) = >>=-eq-done m (ends st) f in absurd (ground arith)

      go :
          (o : Option (List Peer))
          → G.find_connected b.db ≡ o
          → (q : Bool) → sent ≡ q
          → Opened machine c d stream u
      go none f q g = absurd (refused (leave G now s b) _ (rw (f, greet) at e))
      go (some ps) f false g = absurd (refused (leave G now s b) _ (rw (f, g, greet) at e))
      go (some ps) f true g =
          let same : s ≡ stream = ground arith in
          let list : PeerList = record {
            peers = other_peers s.peer ps;
            count = length (other_peers s.peer ps);
          } in
          record {
            peer = peer;
            found = l.found;
            in_force = l.in_force;
            enabled = l.enabled;
            logged_in = l.logged_in;
            is_its_stream = ground arith;
            marked_connected = ground arith;
            new_channel = ground arith;
            registered = ground arith;
            rows = ps;
            connected_rows = ground arith;
            lists = record {
              list = list;
              is_first = ground arith;
              has_list = ground arith;
              others = rw own refl;
              counted = refl;
              not_itself =
                  subst (λ i. All (λ (p : ProtoPeer). p.id ≢ i) (other_peers s.peer ps)) own
                    (other_peers-differ s.peer ps);
            };
          }

  join-Opened :
      (machine : String) (peer : Peer) (sent : Bool) (c b d : Controller G) (stream : Stream)
      (u : Update)
      → Let machine c.db peer
      → b.channels ≡ c.channels
      → G.update_connected c.db now peer.id true ≡ (b.db, true)
      → join G now sent peer.id b ≡ done (d, ok (stream, u))
      → Opened machine c d stream u
  unfolding join get_peer_update_channel
  join-Opened machine peer sent c b d stream u l channels marked e =
      let b' : Controller G = (get_peer_update_channel G peer.id b).0 in
      let s : Stream = record { peer = peer.id; channel = length b.channels } in
      let (x, f, g) =
        >>=-eq-done (peer_connected_event G peer.id b') (λ c. greet G now sent s c) e in
      let (same, maps) = announce-same peer.id b' x f in
      greet-Opened machine peer sent c x d s stream u l refl (ap length channels)
        (marked ∙ ap (λ (z : G.Db). (z, true)) (sym same))
        (ap (load peer.id) maps ∙ load-store peer.id (length b.channels) b.peer_channels) g

  pub update_stream-Opened :
      (machine : String) (sent : Bool) (c d : Controller G) (stream : Stream) (u : Update)
      → update_stream G now machine sent c ≡ done (d, ok (stream, u))
      → Opened machine c d stream u
  unfolding update_stream
  update_stream-Opened machine sent c d stream u e = go (admit G now machine c.db) refl
    where
      marked :
          (peer : Peer)
          → admit G now machine c.db ≡ ok peer
          → (w : Bool) → (G.update_connected c.db now peer.id true).1 ≡ w
          → Opened machine c d stream u
      marked peer f true g =
          join-Opened machine peer sent c (set_connected G now peer.id true c).0 d stream u
            (admit-Let machine c.db peer f) refl
            (λ i. ((G.update_connected c.db now peer.id true).0, g i)) (ground arith)
      marked peer f false g = absurd (ground arith)

      go : (r : Result Status Peer) → admit G now machine c.db ≡ r → Opened machine c d stream u
      go (err st) f = absurd (ground arith)
      go (ok peer) f = marked peer f (G.update_connected c.db now peer.id true).1 refl
