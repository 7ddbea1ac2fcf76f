-- ===== src/Controller/Grpc/Streams/Alone.antt =====
-- A call of `UpdateStream` that no other call interrupts comes to what `update_stream` says.
use zeronet.Controller.Grpc.{Status}
use mathlib.Core.Path.{subst}
use zeronet.Prelude.{
  ℕ, zero, suc, ◌≡◌, refl, List, [], ◌∷◌, ◌++◌, Bool, Option, none, some, arith, ap, entry, change,
  length, String, sym, ◌∙◌, false, true,
}
use zeronet.Go.{Outcome, done, ◌>>=◌, >>=-eq-done, ok, err, Result}
use zeronet.Controller.Types.{Peer}
use zeronet.Controller.Store.{Gorm}
use zeronet.Controller.Channels.{
  Controller, Channel, Update, connect, announcement, broadcast, announce, peer_connected_event,
  PeerList, get_connected_peers, change_at, get_peer_update_channel,
}
use zeronet.Controller.Grpc.Stream.{
  Stream, update_stream, greet, leave, join, receiving, admit, set_connected,
}
use zeronet.Controller.Grpc.Streams.{
  begins, Place, announces, Call, Server, StreamEvent, goes_on, visit, walk, go_on, stream_step,
  stream_run, calls_in, receives, begin_loop, call_in,
}

module _ {ℓ} {A : Type ℓ} where
  entry-last : (xs : List A) (x : A) → entry (xs ++ x ∷ []) (length xs) ≡ some x
  entry-last [] x = refl
  entry-last (y ∷ xs) x = entry-last xs x

  change-last : (xs : List A) (x y : A) → change (length xs) y (xs ++ x ∷ []) ≡ xs ++ y ∷ []
  change-last [] x y = refl
  change-last (z ∷ xs) x y = ap (◌∷◌ z) (change-last xs x y)

module _ (G : Gorm) (now : ℕ) (sent : Bool) (cs : List Call) (stream : Stream) where
  -- The server while the last call is at a place.
  abbrev pub serving : Controller G → Place → Server G
  serving c p = record { controller = c; calls = cs ++ record { stream = stream; place = p } ∷ [] }

  -- The call goes on so many times.
  abbrev pub goes : ℕ → List StreamEvent
  goes zero = []
  goes (suc n) = goes_on now (length cs) sent ∷ goes n

  abbrev pub Leads : Controller G → Place → Controller G → Place → Type 0
  Leads c p d q = (n : ℕ) × (stream_run G (goes n) (serving c p) ≡ done (serving d q))

  one_step :
      (c d : Controller G) (p q : Place)
      → go_on G now sent stream p c ≡ done (d, q)
      → stream_step G (goes_on now (length cs) sent) (serving c p) ≡ done (serving d q)
  unfolding stream_step
  one_step c d p q e =
      let k : Call = record { stream = stream; place = p } in
      rw (stream_step, entry-last cs k)
        (rw e (
          ap (λ l. done (record { controller = d; calls = l }))
            (change-last cs k (record { stream = stream; place = q }))))

  then_Leads :
      (c d e : Controller G) (p q r : Place)
      → go_on G now sent stream p c ≡ done (d, q)
      → Leads d q e r
      → Leads c p e r
  unfolding stream_run
  then_Leads c d e p q r h (n, f) = (suc n, rw (one_step c d p q h, stream_run) f)

  stays : (c d : Controller G) (p : Place) → c ≡ d → Leads c p d p
  unfolding stream_run
  stays c d p same = (0, ap (λ x. done (serving x p)) same)

  -- The walk is over, and the call goes on to where it is to be.
  walks :
      (u : Update) (m : List (ℕ × ℕ)) (c d e : Controller G) (r : Place) (ys : List Channel)
      → broadcast stream.peer u m c.channels ≡ done ys
      → record c { channels = ys } ≡ d
      → Leads d (announces [] u) e r
      → Leads c (announces m u) e r
  unfolding broadcast go_on
  walks u [] c d e r ys f is after =
      let same : d ≡ c = sym is ∙ ground arith in
      subst (λ x. Leads x (announces [] u) e r) same after
  walks u (x ∷ m) c d e r ys f is after =
      let rest : List Channel → Outcome (List Channel) = λ xs. broadcast stream.peer u m xs in
      let (xs, g, h) = >>=-eq-done (visit stream.peer x u c.channels) rest f in
      then_Leads c (record c { channels = xs }) e (announces (x ∷ m) u) (announces m u) r
        (ap (λ o. o >>= λ xs. done (record c { channels = xs }, announces m u)) g)
        (walks u m (record c { channels = xs }) d e r ys h is after)

  announced :
      (c d e : Controller G) (r : Place)
      → peer_connected_event G stream.peer c ≡ done d
      → ((u : Update) → Leads d (announces [] u) e r)
      → Leads c begins e r
  unfolding peer_connected_event announce go_on
  announced c d e r f after = go (G.first_id c.db stream.peer) refl
    where
      start :
          (p : Place)
          → walk G announces connect stream.peer c ≡ p
          → Leads c p e r
          → Leads c begins e r
      start p g path = then_Leads c c e begins p r (ap (λ q. done (c, q)) g) path

      go : (o : Option Peer) → G.first_id c.db stream.peer ≡ o → Leads c begins e r
      go none g =
          let u : Update = record {
            update_type = connect;
            peer_list = none;
            punch_endpoint = "";
          } in
          let same : d ≡ c = ground arith in
          start (announces [] u) (rw (g, walk) refl)
            (subst (λ x. Leads x (announces [] u) e r) same (after u))
      go (some p) g =
          let u : Update = announcement connect p in
          let rest : List Channel → Outcome (Controller G) =
            λ xs. done (record c { channels = xs }) in
          let all : (broadcast stream.peer u c.peer_channels c.channels >>= rest) ≡ done d =
            ground arith in
          let (ys, h, k) =
            >>=-eq-done (broadcast stream.peer u c.peer_channels c.channels) rest all in
          start (announces c.peer_channels u) (rw (g, walk) refl)
            (walks u c.peer_channels c d e r ys h (ground arith) (after u))

  -- The list of peers is sent, and the call receives.
  greeted :
      (c d : Controller G) (u v : Update) (t : Stream)
      → greet G now sent stream c ≡ done (d, ok (t, u))
      → (t ≡ stream) × Leads c (announces [] v) d receives
  unfolding greet go_on begin_loop
  greeted c d u v t e =
      go (get_connected_peers G stream.peer c) refl sent refl (leave G now stream c) refl
    where
      go :
          (o : Option PeerList)
          → get_connected_peers G stream.peer c ≡ o
          → (b : Bool) → sent ≡ b
          → (l : Outcome (Controller G)) → leave G now stream c ≡ l
          → (t ≡ stream) × Leads c (announces [] v) d receives
      go none f b g l h = absurd (ground arith)
      go (some list) f false g l h = absurd (ground arith)
      go (some list) f true g l h =
          let is : record c { channels = change_at stream.channel (receiving true) c.channels }
              ≡ d =
            ground arith in
          (
            ground arith,
            then_Leads c d d (announces [] v) receives receives
                (rw (begin_loop, f) (rw g (ap (λ x. done (x, receives)) is)))
                (stays d d receives refl),
          )

module _ (G : Gorm) (now : ℕ) (cs : List Call) where
  enters_first :
      (e : StreamEvent) (es : List StreamEvent) (s t v : Server G)
      → stream_step G e s ≡ done t
      → stream_run G es t ≡ done v
      → stream_run G (e ∷ es) s ≡ done v
  unfolding stream_run
  enters_first e es s t v f g = rw (f, stream_run) g

  -- A call of `UpdateStream` that opens its stream without an interruption does so in steps: if `update_stream`
  -- gives the stream and its first list, then the step that lets the call in and some steps of the call alone lead
  -- to the same controller, whatever other calls stand still, with the call in its loop.
  pub update_stream-stream_run :
      (machine : String) (sent : Bool) (stream : Stream) (u : Update) (c d : Controller G)
      → update_stream G now machine sent c ≡ done (d, ok (stream, u))
      → (n : ℕ) × (stream_run G
            (calls_in now machine ∷ goes G now sent cs stream n)
            (record { controller = c; calls = cs })
          ≡ done (serving G now sent cs stream d receives))
  unfolding stream_step call_in update_stream join
  update_stream-stream_run machine sent stream u c d e = go (admit G now machine c.db) refl
    where
      opened :
          (peer : Peer)
          → admit G now machine c.db ≡ ok peer
          → (b : Bool) → (set_connected G now peer.id true c).1 ≡ b
          → (n : ℕ) × (stream_run G
                (calls_in now machine ∷ goes G now sent cs stream n)
                (record { controller = c; calls = cs })
              ≡ done (serving G now sent cs stream d receives))
      opened peer f false g = absurd (ground arith)
      opened peer f true g =
          let c₀ : Controller G = (set_connected G now peer.id true c).0 in
          let c₁ : Controller G = (get_peer_update_channel G peer.id c₀).0 in
          let st : Stream = record {
            peer = peer.id;
            channel = (get_peer_update_channel G peer.id c₀).1;
          } in
          let greets : Controller G → Outcome (Controller G × Result Status (Stream × Update)) =
            λ x. greet G now sent st x in
          let joins : (peer_connected_event G peer.id c₁ >>= greets) ≡ done (d, ok (stream, u)) =
            sym (rw (f, update_stream) (rw g refl)) ∙ e in
          let (c₂, h, k) = >>=-eq-done (peer_connected_event G peer.id c₁) greets joins in
          let path : Leads G now sent cs st c₁ begins d receives =
            announced G now sent cs st c₁ c₂ d receives h
              (λ v. (greeted G now sent cs st c₂ d u v stream k).1) in
          let same : st ≡ stream = sym (greeted G now sent cs st c₂ d u u stream k).0 in
          let enters : call_in G now machine (record { controller = c; calls = cs })
              ≡ done (serving G now sent cs st c₁ begins) =
            rw (f, call_in) (rw g refl) in
          let (n, r) = path in
          (
            n,
            subst
                (λ z.
                  stream_run G (calls_in now machine ∷ goes G now sent cs z n)
                    (record { controller = c; calls = cs })
                  ≡ done (serving G now sent cs z d receives))
                same
                (enters_first (calls_in now machine) (goes G now sent cs st n)
                  (record { controller = c; calls = cs }) (serving G now sent cs st c₁ begins)
                  (serving G now sent cs st d receives) enters r),
          )

      go :
          (r : Result Status Peer)
          → admit G now machine c.db ≡ r
          → (n : ℕ) × (stream_run G
                (calls_in now machine ∷ goes G now sent cs stream n)
                (record { controller = c; calls = cs })
              ≡ done (serving G now sent cs stream d receives))
      go (err x) f = absurd (ground arith)
      go (ok peer) f = opened peer f (set_connected G now peer.id true c).1 refl
