-- ===== src/Controller/Grpc/Streams/Owned.antt =====
-- Every call of `UpdateStream` has a channel of its own, which is received from at most in its loop.

use zeronet.Controller.Grpc.{Status, err}
use zeronet.Controller.Grpc.Stream.{admit, set_connected}
use zeronet.Controller.Types.{Peer}
use zeronet.Go.{Outcome, done, >>=-eq-done, ok, Result}
use mathlib.Core.Path.{subst}
use zeronet.Prelude.{
  ℕ, zero, suc, ◌≤◌, ◌<◌, ◌≡◌, ◌≢◌, ◌⊎◌, refl, List, [], ◌∷◌, ◌++◌, false, some, length, arith, ap,
  ◌∙◌, sym, Bool-cases, inl, inr, entry, change, entry-change_same, entry-change_other, ==_iff,
  ◌==◌, ◌+◌, length-append, String, Option, Bool, true, none,
}
use zeronet.Controller.Store.{Gorm}
use zeronet.Controller.Channels.{Controller, Channel, open_channel, get_peer_update_channel}
use zeronet.Controller.Grpc.Streams.{
  begins, leaves, Place, receives, Call, Server, call_in, Outcome, stream_step, done, StreamEvent,
  place_call, calls_in, goes_on, admit, ok, go_on, hangs_up, hang_up, depart, announces, departs,
  returned, Result,
}
use zeronet.Controller.Grpc.Streams.Flags.{flag, flag-open}
use zeronet.Controller.Grpc.Streams.Effects.{Effect, go_on-Effect, depart-Effect}

module _ {ℓ} {A : Type ℓ} where
  changed_entry :
      (xs : List A) (i a : ℕ) (x y l : A)
      → entry xs i ≡ some x
      → entry (change i y xs) a ≡ some l
      → ((a ≡ i) × (l ≡ y)) ⊎ ((a ≢ i) × (entry xs a ≡ some l))
  changed_entry xs i a x y l at e = elim (Bool-cases (a == i)) [
    | inl b ↦
        let same : a ≡ i = (==_iff a i).0 b in
        let there : entry (change i y xs) a ≡ some y =
          ap (entry (change i y xs)) same ∙ entry-change_same xs i x y at in
        inl (same, ground arith)
    | inr b ↦
        let other : i ≢ a = λ f. ground arith in
        inr (λ f. other (sym f), sym (entry-change_other xs i a y other) ∙ e)
  ]

  appended_entry :
      (xs : List A) (a : ℕ) (x l : A)
      → entry (xs ++ x ∷ []) a ≡ some l
      → (entry xs a ≡ some l) ⊎ ((a ≡ length xs) × (l ≡ x))
  appended_entry [] zero x l e = inr (refl, ground arith)
  appended_entry [] (suc a) x l e = absurd (ground arith)
  appended_entry (z ∷ xs) zero x l e = inl e
  appended_entry (z ∷ xs) (suc a) x l e = elim (appended_entry xs a x l e) [
    | inl f ↦ inl f
    | inr (f, g) ↦ inr (ap suc f, g)
  ]

  pub entry-append :
      (xs ys : List A) (a : ℕ) (l : A) → entry xs a ≡ some l → entry (xs ++ ys) a ≡ some l
  entry-append [] ys a l e = absurd (ground arith)
  entry-append (z ∷ xs) ys zero l e = e
  entry-append (z ∷ xs) ys (suc a) l e = entry-append xs ys a l e

flag-beyond : (n : ℕ) (xs : List Channel) → length xs ≤ n → flag n xs ≡ false
flag-beyond n [] h = refl
flag-beyond zero (x ∷ xs) h = absurd (omega arith)
flag-beyond (suc n) (x ∷ xs) h = flag-beyond n xs (omega arith)

module _ {G : Gorm} where
  pub record Owned (s : Server G) : Type 0 where
    pub bound :
        (a : ℕ) (k : Call)
        → entry s.calls a ≡ some k
        → k.stream.channel < length s.controller.channels
    pub unique :
        (a b : ℕ) (k l : Call)
        → entry s.calls a ≡ some k
        → entry s.calls b ≡ some l
        → k.stream.channel ≡ l.stream.channel
        → a ≡ b
    pub quiet :
        (a : ℕ) (k : Call)
        → entry s.calls a ≡ some k
        → k.place ≢ receives
        → flag k.stream.channel s.controller.channels ≡ false

  module _ (s : Server G) (o : Owned s) (i : ℕ) (k : Call) (at : entry s.calls i ≡ some k)
      (d : Controller G) (q : Place)
      (effect : Effect k.stream.channel s.controller.channels d.channels k.place q) where
    next : Server G
    next = record { controller = d; calls = change i (record k { place = q }) s.calls }

    -- The call with a number had the same stream before.
    before :
        (a : ℕ) (l : Call)
        → entry next.calls a ≡ some l
        → (j : Call) × (entry s.calls a ≡ some j) × (l.stream ≡ j.stream)
    unfolding next
    before a l e = elim (changed_entry s.calls i a k (record k { place = q }) l at e) [
      | inl (same, is) ↦ (k, ap (entry s.calls) same ∙ at, ap (λ x. x.stream) is)
      | inr (other, f) ↦ (l, f, refl)
    ]

    Effect-Owned : Owned next
    unfolding next
    Effect-Owned = record {
      bound = λ a l e.
          let (j, f, same) = before a l e in
          omega (arith, o.bound a j f, ap (λ x. x.channel) same, effect.number);
      unique = λ a b l m e f is.
          let (x, g, same) = before a l e in
          let (y, h, same') = before b m f in
          o.unique a b x y g h (sym (ap (λ x. x.channel) same) ∙ is ∙ ap (λ x. x.channel) same');
      quiet = λ a l e away. elim (changed_entry s.calls i a k (record k { place = q }) l at e) [
        | inl (same, is) ↦
            let gone : q ≢ receives = λ r. away (ap (λ x. x.place) is ∙ r) in
            ap (λ x. flag x.stream.channel d.channels) is ∙ effect.own (o.quiet i k at) gone
        | inr (other, f) ↦
            let apart : l.stream.channel ≢ k.stream.channel =
              λ c. other (o.unique a i l k f at c) in
            effect.others l.stream.channel apart ∙ o.quiet a l f away
      ];
    }

  -- A call that is let in has a new channel.
  Owned-new :
      (s : Server G) (d : Controller G) (k : Call)
      → Owned s
      → d.channels ≡ s.controller.channels ++ open_channel ∷ []
      → k.stream.channel ≡ length s.controller.channels
      → Owned (record { controller = d; calls = s.calls ++ k ∷ [] })
  Owned-new s d k o more is = record {
    bound = λ a l e. elim (appended_entry s.calls a k l e) [
      | inl f ↦ omega (arith, o.bound a l f, longer)
      | inr (f, g) ↦ omega (arith, is, longer, ap (λ x. x.stream.channel) g)
    ];
    unique = λ a b l m e f same. elim (appended_entry s.calls a k l e) [
      | inl g ↦ elim (appended_entry s.calls b k m f) [
        | inl h ↦ o.unique a b l m g h same
        | inr (h, new) ↦
            absurd (omega (arith, o.bound a l g, is, same, ap (λ x. x.stream.channel) new))
      ]
      | inr (g, new) ↦ elim (appended_entry s.calls b k m f) [
        | inl h ↦ absurd (omega (arith, o.bound b m h, is, same, ap (λ x. x.stream.channel) new))
        | inr (h, new') ↦ g ∙ sym h
      ]
    ];
    quiet = λ a l e away.
        ap (flag l.stream.channel) more
        ∙ flag-open l.stream.channel s.controller.channels
        ∙ (elim (appended_entry s.calls a k l e) [
          | inl f ↦ o.quiet a l f away
          | inr (f, new) ↦
              flag-beyond l.stream.channel s.controller.channels
                (omega (arith, is, ap (λ x. x.stream.channel) new))
        ]);
  }
    where
      longer : length d.channels ≡ length s.controller.channels + 1
      longer = ap length more ∙ length-append s.controller.channels (open_channel ∷ [])

  call_in-Owned :
      (now : ℕ) (machine : String) (s t : Server G)
      → Owned s
      → call_in G now machine s ≡ done t
      → Owned t
  unfolding call_in get_peer_update_channel
  call_in-Owned now machine s t o e = go (admit G now machine s.controller.db) refl
    where
      let_in :
          (peer : Peer)
          → admit G now machine s.controller.db ≡ ok peer
          → (b : Bool) → (set_connected G now peer.id true s.controller).1 ≡ b
          → Owned t
      let_in peer f false g =
          let same : record s { controller = (set_connected G now peer.id true s.controller).0 }
              ≡ t =
            ground arith in
          subst Owned same (record { bound = o.bound; unique = o.unique; quiet = o.quiet })
      let_in peer f true g =
          let c : Controller G = (set_connected G now peer.id true s.controller).0 in
          let d : Controller G = (get_peer_update_channel G peer.id c).0 in
          let k : Call = record {
            stream = record { peer = peer.id; channel = length s.controller.channels };
            place = begins;
          } in
          let same : record { controller = d; calls = s.calls ++ k ∷ [] } ≡ t = ground arith in
          subst Owned same (Owned-new s d k o refl refl)

      go : (r : Result Status Peer) → admit G now machine s.controller.db ≡ r → Owned t
      go (err x) f = let same : s ≡ t = ground arith in subst Owned same o
      go (ok peer) f = let_in peer f (set_connected G now peer.id true s.controller).1 refl

  placed-Owned :
      (s t : Server G) (i : ℕ) (k : Call) (m : Outcome (Controller G × Place))
      → Owned s
      → entry s.calls i ≡ some k
      → ((d : Controller G) (q : Place)
          → m ≡ done (d, q)
          → Effect k.stream.channel s.controller.channels d.channels k.place q)
      → place_call G i k s m ≡ done t
      → Owned t
  unfolding next
  placed-Owned s t i k m o at effect e =
      let rest : Controller G × Place → Outcome (Server G) = λ r.
        done (record { controller = r.0; calls = change i (record k { place = r.1 }) s.calls }) in
      let (r, f, g) = >>=-eq-done m rest e in
      let same : record { controller = r.0; calls = change i (record k { place = r.1 }) s.calls }
          ≡ t =
        ground arith in
      subst Owned same (Effect-Owned s o i k at r.0 r.1 (effect r.0 r.1 f))

  pub stream_step-Owned :
      (e : StreamEvent) (s t : Server G) → Owned s → stream_step G e s ≡ done t → Owned t
  unfolding stream_step
  stream_step-Owned (calls_in now machine) s t o h = call_in-Owned now machine s t o h
  stream_step-Owned (goes_on now i sent) s t o h = go (entry s.calls i) refl
    where
      go : (x : Option Call) → entry s.calls i ≡ x → Owned t
      go none f = absurd (ground arith)
      go (some k) f =
          placed-Owned s t i k (go_on G now sent k.stream k.place s.controller) o f
            (λ d q g. go_on-Effect G now k.stream sent k.place q s.controller d g) (ground arith)
  stream_step-Owned (hangs_up now i) s t o h = go (entry s.calls i) refl
    where
      hung :
          (k : Call)
          → entry s.calls i ≡ some k
          → (p : Place) → k.place ≡ p
          → hang_up G now i k p s ≡ done t
          → Owned t
      hung k f receives g x =
          placed-Owned s t i k (depart G now k.stream s.controller) o f
            (λ d q y. depart-Effect G now k.stream s.controller d k.place q y) x
      hung k f (announces m u) g x = absurd (ground arith)
      hung k f (departs m u) g x = absurd (ground arith)
      hung k f begins g x = absurd (ground arith)
      hung k f leaves g x = absurd (ground arith)
      hung k f returned g x = absurd (ground arith)

      go : (x : Option Call) → entry s.calls i ≡ x → Owned t
      go none f = absurd (ground arith)
      go (some k) f = hung k f k.place refl (ground arith)
