-- ===== src/Controller/Grpc/Stream/Reconnect.antt =====
-- What becomes of the stream of a peer that has opened another one since.
use zeronet.Controller.Types.{Peer}
use mathlib.Core.Path.{subst}
use zeronet.Prelude.{
  ℕ, zero, suc, ◌≡◌, refl, sym, ap, ◌∙◌, String, Bool, true, false, Option, some, none, List, [],
  ◌∷◌, arith, inl, inr, Bool-cases, if◌then◌else◌, ◌==◌, length,
}
use zeronet.Go.{Outcome, done, >>=-eq-done, Result, ok, err, panics, blocks}
use zeronet.Go.SyncMap.{load, delete, nat_key, load-store, load-delete}
use zeronet.Controller.Store.{Gorm}
use zeronet.Controller.Channels.{
  Controller, Channel, Update, channel_at, change_at, receive, shut, send, close, broadcast,
  announce, peer_connected_event, peer_disconnected_event, delete_peer_update_channel,
  get_peer_update_channel, get_connected_peers, UpdateType, disconnect, announcement, PeerList,
  connect,
}
use zeronet.Controller.Grpc.{Status, Peer}
use zeronet.Controller.Grpc.Stream.{
  Stream, leave, greet, join, admit, update_stream, end_stream, receiving, set_connected,
}

abbrev pub closed_at : List Channel → ℕ → Bool
closed_at xs n = elim (channel_at xs n) [ none ↦ false | some x ↦ x.closed ]

closed_at-shut :
    (n : ℕ) (xs : List Channel) (x : Channel)
    → channel_at xs n ≡ some x
    → closed_at (change_at n shut xs) n ≡ true
closed_at-shut n [] x h = ground arith
closed_at-shut zero (y ∷ xs) x h = refl
closed_at-shut (suc n) (y ∷ xs) x h = closed_at-shut n xs x h

closed_at-receive :
    (n m : ℕ) (u : Update) (xs : List Channel)
    → closed_at (change_at n (receive u) xs) m ≡ closed_at xs m
closed_at-receive n m u [] = refl
closed_at-receive zero zero u (x ∷ xs) = refl
closed_at-receive zero (suc m) u (x ∷ xs) = refl
closed_at-receive (suc n) zero u (x ∷ xs) = refl
closed_at-receive (suc n) (suc m) u (x ∷ xs) = closed_at-receive n m u xs

close-closed_at : (n : ℕ) (xs ys : List Channel) → close n xs ≡ done ys → closed_at ys n ≡ true
unfolding close
close-closed_at n xs ys h = go (channel_at xs n) refl
  where
    go : (o : Option Channel) → channel_at xs n ≡ o → closed_at ys n ≡ true
    go none u = ground arith
    go (some x) u =
        let same : change_at n shut xs ≡ ys = ground arith in
        subst (λ zs. closed_at zs n ≡ true) same (closed_at-shut n xs x u)

send-closed_at :
    (n m : ℕ) (u : Update) (xs ys : List Channel)
    → send n u xs ≡ done ys
    → closed_at ys m ≡ closed_at xs m
unfolding send
send-closed_at n m u xs ys h = go (channel_at xs n) refl
  where
    go : (o : Option Channel) → channel_at xs n ≡ o → closed_at ys m ≡ closed_at xs m
    go none u' = ground arith
    go (some x) u' =
        let same : change_at n (receive u) xs ≡ ys = ground arith in
        subst (λ zs. closed_at zs m ≡ closed_at xs m) same (closed_at-receive n m u xs)

broadcast-closed_at :
    (id m : ℕ) (u : Update) (es : List (ℕ × ℕ)) (xs ys : List Channel)
    → broadcast id u es xs ≡ done ys
    → closed_at ys m ≡ closed_at xs m
unfolding broadcast
broadcast-closed_at id m u [] xs ys h = ground arith
broadcast-closed_at id m u ((k, n) ∷ es) xs ys h =
    let (zs, f, g) = >>=-eq-done (if k == id then done xs else send n u xs) _ h in
    broadcast-closed_at id m u es zs ys g ∙ elim (Bool-cases (k == id)) [
      | inl e ↦ ap (λ vs. closed_at vs m) (ground arith)
      | inr e ↦ send-closed_at n m u xs zs (ground arith)
    ]

module _ (G : Gorm) where
  announce-keeps :
      (t : UpdateType) (id : ℕ) (c c' : Controller G)
      → announce G t id c ≡ done c'
      → (c'.peer_channels ≡ c.peer_channels)
        × ((m : ℕ) → closed_at c'.channels m ≡ closed_at c.channels m)
  unfolding announce
  announce-keeps t id c c' h = go (G.first_id c.db id) refl
    where
      go :
          (o : Option Peer)
          → G.first_id c.db id ≡ o
          → (c'.peer_channels ≡ c.peer_channels)
            × ((m : ℕ) → closed_at c'.channels m ≡ closed_at c.channels m)
      go none e = (ground arith, λ m. ground arith)
      go (some p) e = sent p (broadcast id (announcement t p) c.peer_channels c.channels) refl e
        where
          sent :
              (p : Peer) (o : Outcome (List Channel))
              → broadcast id (announcement t p) c.peer_channels c.channels ≡ o
              → G.first_id c.db id ≡ some p
              → (c'.peer_channels ≡ c.peer_channels)
                × ((m : ℕ) → closed_at c'.channels m ≡ closed_at c.channels m)
          sent p (done xs) b e =
              let same : record c { channels = xs } ≡ c' = ground arith in
              (
                sym (ap (λ (z : Controller G). z.peer_channels) same),
                λ m.
                    sym (ap (λ (z : Controller G). closed_at z.channels m) same)
                    ∙ broadcast-closed_at id m (announcement t p) c.peer_channels c.channels xs b,
              )
          sent p (panics x) b e = ground arith
          sent p blocks b e = ground arith

  delete_peer_update_channel-closed :
      (id m : ℕ) (c c' : Controller G)
      → load id c.peer_channels ≡ some m
      → delete_peer_update_channel G id c ≡ done c'
      → (closed_at c'.channels m ≡ true) × (load id c'.peer_channels ≡ none)
  unfolding delete_peer_update_channel
  delete_peer_update_channel-closed id m c c' l h = closing (close m c.channels) refl
    where
      closing :
          (o : Outcome (List Channel))
          → close m c.channels ≡ o
          → (closed_at c'.channels m ≡ true) × (load id c'.peer_channels ≡ none)
      closing (panics x) u = ground arith
      closing blocks u = ground arith
      closing (done xs) u =
          let same : record c { peer_channels = delete id c.peer_channels; channels = xs } ≡ c' =
            ground arith in
          (
            subst (λ (z : Controller G). closed_at z.channels m ≡ true) same
                (close-closed_at m c.channels xs u),
            subst (λ (z : Controller G). load id z.peer_channels ≡ none) same
                (load-delete id c.peer_channels),
          )

  leave-closed :
      (now m : ℕ) (s : Stream) (c c' : Controller G)
      → load s.peer c.peer_channels ≡ some m
      → leave G now s c ≡ done c'
      → (closed_at c'.channels m ≡ true) × (load s.peer c'.peer_channels ≡ none)
  unfolding leave peer_disconnected_event
  leave-closed now m s c c' l h =
      let (a, f, g) = >>=-eq-done (delete_peer_update_channel G s.peer c) _ h in
      let (shut, gone) = delete_peer_update_channel-closed s.peer m c a l f in
      let (map, same) =
        announce-keeps disconnect s.peer (set_connected G now s.peer false a).0 c' g in
      (same m ∙ shut, ap (load s.peer) map ∙ gone)

  greet-keeps :
      (now : ℕ) (sent : Bool) (s t : Stream) (u : Update) (c c' : Controller G)
      → greet G now sent s c ≡ done (c', ok (t, u))
      → (t ≡ s) × (c'.peer_channels ≡ c.peer_channels)
  unfolding greet
  greet-keeps now sent s t u c c' h =
      go sent h (leave G now s c) refl (get_connected_peers G s.peer c) refl
    where
      go :
          (sent : Bool)
          → greet G now sent s c ≡ done (c', ok (t, u))
          → (l : Outcome (Controller G)) → leave G now s c ≡ l
          → (o : Option PeerList) → get_connected_peers G s.peer c ≡ o
          → (t ≡ s) × (c'.peer_channels ≡ c.peer_channels)
      go true h l v none w = ground arith
      go true h l v (some list) w = (ground arith, ground arith)
      go false h l v none w = ground arith
      go false h l v (some list) w = ground arith

  join-load :
      (now id : ℕ) (sent : Bool) (t : Stream) (u : Update) (c c' : Controller G)
      → join G now sent id c ≡ done (c', ok (t, u))
      → load t.peer c'.peer_channels ≡ some t.channel
  unfolding join get_peer_update_channel peer_connected_event
  join-load now id sent t u c c' h =
      let n = length c.channels in
      let d : Controller G = (get_peer_update_channel G id c).0 in
      let (a, f, g) = >>=-eq-done (announce G connect id d) _ h in
      let (map, rest) = announce-keeps connect id d a f in
      let (is, kept) = greet-keeps now sent (record { peer = id; channel = n }) t u a c' g in
      subst (λ (r : Stream). load r.peer c'.peer_channels ≡ some r.channel) (sym is)
        (ap (load id) (kept ∙ map) ∙ load-store id n c.peer_channels)

  update_stream-load :
      (now : ℕ) (machine : String) (sent : Bool) (t : Stream) (u : Update) (c c' : Controller G)
      → update_stream G now machine sent c ≡ done (c', ok (t, u))
      → load t.peer c'.peer_channels ≡ some t.channel
  unfolding update_stream
  update_stream-load now machine sent t u c c' h = go (admit G now machine c.db) refl
    where
      go :
          (r : Result Status Peer)
          → admit G now machine c.db ≡ r
          → load t.peer c'.peer_channels ≡ some t.channel
      go (err e) a = ground arith
      go (ok peer) a =
          join-load now peer.id sent t u (set_connected G now peer.id true c).0 c' (ground arith)

  -- A peer whose stream ends after it has opened another one loses the new one: the end of the old
  -- stream, if it returns, closes the channel of the new stream and takes it from the map.
  pub end_stream-update_stream :
      (now later : ℕ) (machine : String) (old new : Stream) (u : Update) (c c' c'' : Controller G)
      → update_stream G now machine true c ≡ done (c', ok (new, u))
      → old.peer ≡ new.peer
      → end_stream G later old c' ≡ done c''
      → (closed_at c''.channels new.channel ≡ true) × (load new.peer c''.peer_channels ≡ none)
  unfolding end_stream
  end_stream-update_stream now later machine old new u c c' c'' h same e =
      let there = update_stream-load now machine true new u c c' h in
      subst
        (λ (i : ℕ). (closed_at c''.channels new.channel ≡ true) × (load i c''.peer_channels ≡ none))
        same
        (leave-closed later new.channel old
          (record c' { channels = change_at old.channel (receiving false) c'.channels }) c''
          (ap (λ i. load i c'.peer_channels) same ∙ there) e)
