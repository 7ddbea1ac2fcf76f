-- ===== src/Controller/Grpc/Streams/Effects.antt =====
-- What one step of a call of `UpdateStream` does: only its own channel changes whether it is received from, and
-- that channel is received from at most in the loop.
use mathlib.Core.Path.{subst}
use zeronet.Prelude.{
  ℕ, ◌≡◌, ◌≢◌, refl, List, [], ◌∷◌, Bool, true, false, Option, none, some, length, arith, ◌∙◌, sym,
}
use zeronet.Go.{Outcome, done, ◌>>=◌, >>=-eq-done}
use zeronet.Go.SyncMap.{load, delete, nat_key}
use zeronet.Controller.Store.{Gorm}
use zeronet.Controller.Channels.{
  connect, Controller, Channel, Update, PeerList, close, change_at, channel_at,
  delete_peer_update_channel, get_connected_peers, disconnect,
}
use zeronet.Controller.Grpc.Stream.{Stream, set_connected, receiving}
use zeronet.Controller.Grpc.Streams.{
  begins, leaves, Place, announces, departs, receives, returned, visit, walk, depart, begin_loop,
  go_on, visiting,
}
use zeronet.Controller.Grpc.Streams.Flags.{
  flag, Same, visit-Same, close-Same, Same-refl, flag-receiving_other, flag-receiving_false,
  length-change_at,
}

-- The call has a channel, goes from a place to another, and the channels go with it.
pub record Effect (channel : ℕ) (xs ys : List Channel) (p q : Place) : Type 0 where
  pub number : length ys ≡ length xs
  pub others : (m : ℕ) → m ≢ channel → flag m ys ≡ flag m xs
  pub own : (p ≢ receives → flag channel xs ≡ false) → q ≢ receives → flag channel ys ≡ false

module _ (G : Gorm) (now : ℕ) (s : Stream) where
  Effect-Same :
      (xs ys : List Channel) (p q : Place) → p ≢ receives → Same xs ys → Effect s.channel xs ys p q
  Effect-Same xs ys p q away same = record {
    number = same.number;
    others = λ m d. same.flags m;
    own = λ quiet r. same.flags s.channel ∙ quiet away;
  }

  deleted-Same :
      (id : ℕ) (c d : Controller G)
      → delete_peer_update_channel G id c ≡ done d
      → Same c.channels d.channels
  unfolding delete_peer_update_channel
  deleted-Same id c d e = go (load id c.peer_channels) refl
    where
      go : (o : Option ℕ) → load id c.peer_channels ≡ o → Same c.channels d.channels
      go none f =
          let same : c.channels ≡ d.channels = ground arith in
          subst (Same c.channels) same (Same-refl c.channels)
      go (some n) f =
          let rest : List Channel → Outcome (Controller G) =
            λ xs. done (record c { peer_channels = delete id c.peer_channels; channels = xs }) in
          let all : (close n c.channels >>= rest) ≡ done d = ground arith in
          let (xs, g, h) = >>=-eq-done (close n c.channels) rest all in
          let same : xs ≡ d.channels = ground arith in
          subst (Same c.channels) same (close-Same n c.channels xs g)

  pub depart-Effect :
      (c d : Controller G) (p q : Place)
      → depart G now s c ≡ done (d, q)
      → Effect s.channel c.channels d.channels p q
  unfolding depart
  depart-Effect c d p q e =
      let xs : List Channel = change_at s.channel (receiving false) c.channels in
      let quiet : Controller G = record c { channels = xs } in
      let rest : Controller G → Outcome (Controller G × Place) =
        λ c. let (d, written) = set_connected G now s.peer false c in done (d, leaves) in
      let (b, f, g) = >>=-eq-done (delete_peer_update_channel G s.peer quiet) rest e in
      let same : Same xs b.channels = deleted-Same s.peer quiet b f in
      let is : b.channels ≡ d.channels = ground arith in
      subst (λ ys. Effect s.channel c.channels ys p q) is
        (record {
          number = same.number ∙ length-change_at (receiving false) s.channel c.channels;
          others = λ m away. same.flags m ∙ flag-receiving_other false s.channel m c.channels away;
          own = λ h r. same.flags s.channel ∙ flag-receiving_false s.channel c.channels;
        })

  begin_loop-Effect :
      (sent : Bool) (c d : Controller G) (p q : Place)
      → begin_loop G now sent s c ≡ done (d, q)
      → Effect s.channel c.channels d.channels p q
  unfolding begin_loop
  begin_loop-Effect sent c d p q e = go (get_connected_peers G s.peer c) refl sent refl
    where
      go :
          (o : Option PeerList)
          → get_connected_peers G s.peer c ≡ o
          → (b : Bool) → sent ≡ b
          → Effect s.channel c.channels d.channels p q
      go none f b g = depart-Effect c d p q (ground arith)
      go (some list) f false g = depart-Effect c d p q (ground arith)
      go (some list) f true g =
          let is : change_at s.channel (receiving true) c.channels ≡ d.channels = ground arith in
          let there : receives ≡ q = ground arith in
          subst (λ ys. Effect s.channel c.channels ys p q) is
            (record {
              number = length-change_at (receiving true) s.channel c.channels;
              others = λ m away. flag-receiving_other true s.channel m c.channels away;
              own = λ h r. absurd (r (sym there));
            })

  visiting-Effect :
      (place : List (ℕ × ℕ) → Update → Place) (e : ℕ × ℕ) (m : List (ℕ × ℕ)) (u : Update)
      (c d : Controller G) (q : Place)
      → place (e ∷ m) u ≢ receives
      → visiting G place s e m u c ≡ done (d, q)
      → Effect s.channel c.channels d.channels (place (e ∷ m) u) q
  visiting-Effect place e m u c d q away h =
      let rest : List Channel → Outcome (Controller G × Place) =
        λ xs. done (record c { channels = xs }, place m u) in
      let (xs, f, g) = >>=-eq-done (visit s.peer e u c.channels) rest h in
      let is : xs ≡ d.channels = ground arith in
      Effect-Same c.channels d.channels (place (e ∷ m) u) q away
        (subst (Same c.channels) is (visit-Same s.peer e u c.channels xs f))

  stays-Effect :
      (c d : Controller G) (p q r : Place)
      → p ≢ receives
      → ◌≡◌ {A = Outcome (Controller G × Place)} (done (c, r)) (done (d, q))
      → Effect s.channel c.channels d.channels p q
  stays-Effect c d p q r away h =
      let is : c.channels ≡ d.channels = ground arith in
      Effect-Same c.channels d.channels p q away (subst (Same c.channels) is (Same-refl c.channels))

  pub go_on-Effect :
      (sent : Bool) (p q : Place) (c d : Controller G)
      → go_on G now sent s p c ≡ done (d, q)
      → Effect s.channel c.channels d.channels p q
  unfolding go_on
  go_on-Effect sent begins q c d h =
      stays-Effect c d begins q (walk G announces connect s.peer c) (λ x. cc) h
  go_on-Effect sent (announces (e ∷ m) u) q c d h =
      visiting-Effect announces e m u c d q (λ x. cc) h
  go_on-Effect sent (announces [] u) q c d h = begin_loop-Effect sent c d (announces [] u) q h
  go_on-Effect sent receives q c d h = go (channel_at c.channels s.channel) refl
    where
      go :
          (o : Option Channel)
          → channel_at c.channels s.channel ≡ o
          → Effect s.channel c.channels d.channels receives q
      go none f = absurd (ground arith)
      go (some x) f = depart-Effect c d receives q (ground arith)
  go_on-Effect sent leaves q c d h =
      stays-Effect c d leaves q (walk G departs disconnect s.peer c) (λ x. cc) h
  go_on-Effect sent (departs (e ∷ m) u) q c d h = visiting-Effect departs e m u c d q (λ x. cc) h
  go_on-Effect sent (departs [] u) q c d h = stays-Effect c d (departs [] u) q returned (λ x. cc) h
  go_on-Effect sent returned q c d h = absurd (ground arith)
