-- ===== src/Controller/Grpc/Streams/Stuck.antt =====
-- Two streams that are opened at the same time wait for each other.
use mathlib.Core.Path.{subst}
use zeronet.Prelude.{
  ℕ, zero, suc, ◌≡◌, ◌≢◌, refl, List, [], ◌∷◌, ◌++◌, Bool, true, false, Option, none, some, arith,
  ap, ◌∙◌, sym, Bool-cases, inl, inr, entry, change, entry-change_other, ==_iff, String, ◌==◌,
}
use zeronet.Go.{Outcome, done, >>=-eq-done, Result, ok, err, blocks}
use zeronet.Controller.Types.{Peer}
use zeronet.Controller.Store.{Gorm}
use zeronet.Controller.Channels.{
  Controller, Channel, Update, send, channel_at, get_peer_update_channel,
}
use zeronet.Controller.Grpc.{Status}
use zeronet.Controller.Grpc.Stream.{set_connected, admit}
use zeronet.Controller.Grpc.Streams.{
  begins, leaves, Place, announces, departs, receives, returned, Call, Server, StreamEvent,
  calls_in, goes_on, hangs_up, visit, depart, go_on, call_in, place_call, hang_up, stream_step,
  stream_run, panics,
}
use zeronet.Controller.Grpc.Streams.Flags.{flag}
use zeronet.Controller.Grpc.Streams.Owned.{entry-append, Owned, stream_step-Owned}

-- The next channel in the walk of the first call is that of the second.
pub record Awaits (k l : Call) : Type 0 where
  pub update : Update
  pub peer : ℕ
  pub later : List (ℕ × ℕ)
  pub walks : k.place ≡ announces ((peer, l.stream.channel) ∷ later) update
  pub other : peer ≢ k.stream.peer

flag-channel_at :
    (n : ℕ) (xs : List Channel) (x : Channel) → channel_at xs n ≡ some x → flag n xs ≡ x.receiving
flag-channel_at n [] x e = absurd (ground arith)
flag-channel_at zero (y ∷ xs) x e = ground arith
flag-channel_at (suc n) (y ∷ xs) x e = flag-channel_at n xs x e

unheard_send :
    (n : ℕ) (u : Update) (xs ys : List Channel) → flag n xs ≡ false → send n u xs ≢ done ys
unfolding send
unheard_send n u xs ys h e = go (channel_at xs n) refl
  where
    go : (o : Option Channel) → channel_at xs n ≡ o → ⊥
    go none f = ground arith
    go (some x) f =
        let shut : x.receiving ≡ false = sym (flag-channel_at n xs x f) ∙ h in ground arith

away-Awaits : (k l : Call) → Awaits k l → k.place ≢ receives
away-Awaits k l w r =
    let same : announces ((w.peer, l.stream.channel) ∷ w.later) w.update ≡ receives =
      sym w.walks ∙ r in
    cc

module _ {G : Gorm} where
  -- Each of two calls awaits the other.
  pub record Stuck (i j : ℕ) (k l : Call) (s : Server G) : Type 0 where
    pub apart : i ≢ j
    pub first : entry s.calls i ≡ some k
    pub second : entry s.calls j ≡ some l
    pub ahead : Awaits k l
    pub back : Awaits l k

  waits_on :
      (now : ℕ) (sent : Bool) (k l : Call) (c d : Controller G) (q : Place)
      → Awaits k l
      → flag l.stream.channel c.channels ≡ false
      → go_on G now sent k.stream k.place c ≢ done (d, q)
  unfolding go_on
  waits_on now sent k l c d q w h e =
      let u : Update = w.update in
      let walks : go_on G now sent k.stream (announces ((w.peer, l.stream.channel) ∷ w.later) u) c
          ≡ done (d, q) =
        ap (λ p. go_on G now sent k.stream p c) (sym w.walks) ∙ e in
      let rest : List Channel → Outcome (Controller G × Place) =
        λ xs. done (record c { channels = xs }, announces w.later u) in
      let (xs, f, g) =
        >>=-eq-done (visit k.stream.peer (w.peer, l.stream.channel) u c.channels) rest walks in
      let differs : (w.peer == k.stream.peer) ≡ false = ground (arith, w.other) in
      let sends : send l.stream.channel u c.channels ≡ done xs = ground arith in
      unheard_send l.stream.channel u c.channels xs h sends

  -- A call that cannot go on, and is not in its loop, stays where it is.
  module _ (s t : Server G) (i : ℕ) (k : Call) (at : entry s.calls i ≡ some k)
      (away : k.place ≢ receives)
      (waits : (now : ℕ) (sent : Bool) (d : Controller G) (q : Place)
        → go_on G now sent k.stream k.place s.controller ≢ done (d, q)) where
    placed-keeps :
        (a : ℕ) (l : Call) (m : Outcome (Controller G × Place))
        → a ≢ i
        → place_call G a l s m ≡ done t
        → entry t.calls i ≡ some k
    placed-keeps a l m other e =
        let rest : Controller G × Place → Outcome (Server G) = λ r.
          done (record { controller = r.0; calls = change a (record l { place = r.1 }) s.calls }) in
        let (r, f, g) = >>=-eq-done m rest e in
        let is : change a (record l { place = r.1 }) s.calls ≡ t.calls = ground arith in
        ap (λ x. entry x i) (sym is)
        ∙ entry-change_other s.calls a i (record l { place = r.1 }) other
        ∙ at

    call_in-keeps :
        (now : ℕ) (machine : String) → call_in G now machine s ≡ done t → entry t.calls i ≡ some k
    unfolding call_in
    call_in-keeps now machine e = go (admit G now machine s.controller.db) refl
      where
        let_in :
            (peer : Peer)
            → admit G now machine s.controller.db ≡ ok peer
            → (b : Bool) → (set_connected G now peer.id true s.controller).1 ≡ b
            → entry t.calls i ≡ some k
        let_in peer f false g =
            let is : s.calls ≡ t.calls = ground arith in ap (λ x. entry x i) (sym is) ∙ at
        let_in peer f true g =
            let c : Controller G = (set_connected G now peer.id true s.controller).0 in
            let (d, n) = get_peer_update_channel G peer.id c in
            let l : Call = record {
              stream = record { peer = peer.id; channel = n };
              place = begins;
            } in
            let is : s.calls ++ l ∷ [] ≡ t.calls = ground arith in
            ap (λ x. entry x i) (sym is) ∙ entry-append s.calls (l ∷ []) i k at

        go :
            (r : Result Status Peer)
            → admit G now machine s.controller.db ≡ r
            → entry t.calls i ≡ some k
        go (err x) f =
            let is : s.calls ≡ t.calls = ground arith in ap (λ x. entry x i) (sym is) ∙ at
        go (ok peer) f = let_in peer f (set_connected G now peer.id true s.controller).1 refl

    itself : (a : ℕ) (l : Call) → entry s.calls a ≡ some l → (a == i) ≡ true → k ≡ l
    itself a l f b =
        let same : a ≡ i = (==_iff a i).0 b in
        let both : some k ≡ some l = sym at ∙ ap (entry s.calls) (sym same) ∙ f in ground arith

    step-keeps : (e : StreamEvent) → stream_step G e s ≡ done t → entry t.calls i ≡ some k
    unfolding stream_step
    step-keeps (calls_in now machine) h = call_in-keeps now machine h
    step-keeps (goes_on now a sent) h = go (entry s.calls a) refl
      where
        moved :
            (l : Call)
            → entry s.calls a ≡ some l
            → place_call G a l s (go_on G now sent l.stream l.place s.controller) ≡ done t
            → entry t.calls i ≡ some k
        moved l f x = elim (Bool-cases (a == i)) [
          | inl b ↦
              let same : k ≡ l = itself a l f b in
              let (r, g, y) =
                >>=-eq-done (go_on G now sent l.stream l.place s.controller)
                  (λ r. done (record {
                    controller = r.0;
                    calls = change a (record l { place = r.1 }) s.calls;
                  }))
                  x in
              absurd (
                waits now sent r.0 r.1
                  (ap (λ z. go_on G now sent z.stream z.place s.controller) same ∙ g))
          | inr b ↦
              placed-keeps a l (go_on G now sent l.stream l.place s.controller) (λ z. ground arith)
                x
        ]

        go : (x : Option Call) → entry s.calls a ≡ x → entry t.calls i ≡ some k
        go none f = absurd (ground arith)
        go (some l) f = moved l f (ground arith)
    step-keeps (hangs_up now a) h = go (entry s.calls a) refl
      where
        hung :
            (l : Call)
            → entry s.calls a ≡ some l
            → (p : Place) → l.place ≡ p
            → hang_up G now a l p s ≡ done t
            → entry t.calls i ≡ some k
        hung l f receives g x = elim (Bool-cases (a == i)) [
          | inl b ↦ absurd (away (ap (λ z. z.place) (itself a l f b) ∙ g))
          | inr b ↦ placed-keeps a l (depart G now l.stream s.controller) (λ z. ground arith) x
        ]
        hung l f (announces m u) g x = absurd (ground arith)
        hung l f (departs m u) g x = absurd (ground arith)
        hung l f begins g x = absurd (ground arith)
        hung l f leaves g x = absurd (ground arith)
        hung l f returned g x = absurd (ground arith)

        go : (x : Option Call) → entry s.calls a ≡ x → entry t.calls i ≡ some k
        go none f = absurd (ground arith)
        go (some l) f = hung l f l.place refl (ground arith)

  stream_step-Stuck :
      (i j : ℕ) (k l : Call) (s t : Server G) (e : StreamEvent)
      → Owned s
      → Stuck i j k l s
      → stream_step G e s ≡ done t
      → Stuck i j k l t
  stream_step-Stuck i j k l s t e o w h = record {
    apart = w.apart;
    first =
        step-keeps s t i k w.first (away-Awaits k l w.ahead)
          (λ now sent d q.
            waits_on now sent k l s.controller d q w.ahead
              (o.quiet j l w.second (away-Awaits l k w.back)))
          e h;
    second =
        step-keeps s t j l w.second (away-Awaits l k w.back)
          (λ now sent d q.
            waits_on now sent l k s.controller d q w.back
              (o.quiet i k w.first (away-Awaits k l w.ahead)))
          e h;
    ahead = w.ahead;
    back = w.back;
  }

  -- What every step keeps, a run keeps.
  stream_run-keeps :
      (P : Server G → Type 0)
      → ((e : StreamEvent) (s t : Server G) → P s → stream_step G e s ≡ done t → P t)
      → (es : List StreamEvent) (s t : Server G) → P s
      → stream_run G es s ≡ done t
      → P t
  unfolding stream_run
  stream_run-keeps P kept [] s t p h = let same : s ≡ t = ground arith in subst P same p
  stream_run-keeps P kept (e ∷ es) s t p h =
      go (stream_step G e s) refl (λ u q. stream_run-keeps P kept es u t q)
    where
      go :
          (m : Outcome (Server G))
          → stream_step G e s ≡ m
          → ((u : Server G) → P u → stream_run G es u ≡ done t → P t)
          → P t
      go (done u) f rest = rest u (kept e s u p f) (ground arith)
      go blocks f rest = rest s p (ground arith)
      go (panics x) f rest = absurd (ground arith)

  Owned-empty : (s : Server G) → s.calls ≡ [] → Owned s
  Owned-empty s none_ = record {
    bound = λ a k e. absurd (ground arith);
    unique = λ a b k l e f same. absurd (ground arith);
    quiet = λ a k e away. absurd (ground arith);
  }

  -- If two streams announce their peers to each other at the same time, neither ever comes to receive: from any
  -- state that calls of `UpdateStream` can reach, in which each of two calls is about to send to the channel of the
  -- other, they are still there after any further events that do not crash the controller, whoever calls, goes on
  -- or hangs up.
  pub stream_run-Stuck :
      (i j : ℕ) (k l : Call) (earlier later : List StreamEvent) (start s t : Server G)
      → start.calls ≡ []
      → stream_run G earlier start ≡ done s
      → Stuck i j k l s
      → stream_run G later s ≡ done t
      → Stuck i j k l t
  stream_run-Stuck i j k l earlier later start s t none_ reached stuck h =
      let owned : Owned s =
        stream_run-keeps Owned stream_step-Owned earlier start s (Owned-empty start none_)
          reached in
      let (o, w) =
        stream_run-keeps (λ s. Owned s × Stuck i j k l s)
          (λ e s t (o, w) x. (stream_step-Owned e s t o x, stream_step-Stuck i j k l s t e o w x))
          later s t (owned, stuck) h in
      w
