-- ===== src/Controller/Services/Ends.antt =====
-- When the controller ends, and how.
use zeronet.Prelude.{
  String, Bool, true, false, Option, none, some, List, [], ◌∷◌, ◌≡◌, arith, is_some, ◌||◌, ◌∙◌, All,
  refl, ◌++◌, ap,
}
use zeronet.Controller.Services.{
  Event, signalled, grpc_fails, http_fails, cleans, Group, group_step, group_run, ending,
  stop_grpc_server, returns, stop_http_server, fatal, new_group, Ending,
}

-- The first error among events.
abbrev pub first_failure : List Event → Option String
first_failure [] = none
first_failure (grpc_fails e ∷ es) = some e
first_failure (http_fails e ∷ es) = some e
first_failure (signalled ∷ es) = first_failure es
first_failure (cleans a b ∷ es) = first_failure es

-- Some event is a reason to end.
abbrev pub is_over : List Event → Bool
is_over [] = false
is_over (cleans a b ∷ es) = is_over es
is_over (_ ∷ es) = true

abbrev pub IsBefore : Event → Type 0
IsBefore (cleans a b) = ⊥
IsBefore _ = Unit

abbrev pub or_first : Option String → Option String → Option String
or_first none later = later
or_first (some e) later = some e

-- The third goroutine has not begun to stop the servers, and a server that is down has returned an error.
record Open (g : Group) : Type 0 where
  waits : g.cleanup_waiting ≡ true
  grpc_error : g.grpc_serving ≡ false → is_some g.first_error ≡ true
  http_error : g.http_serving ≡ false → is_some g.first_error ≡ true
  error_cancels : is_some g.first_error ≡ true → g.cancelled ≡ true

group_step-Open : (e : Event) (g : Group) → IsBefore e → Open g → Open (group_step e g)
unfolding group_step
group_step-Open e g b o = record {
  waits = ground (arith, o.waits);
  grpc_error = ground (arith, o.grpc_error, o.http_error);
  http_error = ground (arith, o.grpc_error, o.http_error);
  error_cancels = ground (arith, o.error_cancels);
}

group_step-first :
    (e : Event) (g : Group)
    → IsBefore e
    → Open g
    → ((group_step e g).cancelled ≡ g.cancelled || is_over (e ∷ []))
      × ((group_step e g).first_error ≡ or_first g.first_error (first_failure (e ∷ [])))
unfolding group_step
group_step-first e g b o = (
  ground (arith, o.grpc_error, o.http_error, o.error_cancels),
  ground (arith, o.grpc_error, o.http_error),
)

module _ (a b : Bool) where
  -- After the servers are stopped nothing changes how the process ends.
  Stopped : Group → Type 0
  Stopped g = (g.grpc_serving ≡ false) × (g.http_serving ≡ false) × (g.cleanup_waiting ≡ false)

  stays-Stopped :
      (es : List Event) (g : Group)
      → Stopped g
      → Stopped (group_run es g) × ((group_run es g).first_error ≡ g.first_error)
  unfolding group_run group_step Stopped
  stays-Stopped [] g h = (h, refl)
  stays-Stopped (e ∷ es) g h =
      let (i, f) = stays-Stopped es (group_step e g) (ground arith, ground arith, ground arith) in
      let same : (group_step e g).first_error ≡ g.first_error = ground arith in (i, f ∙ same)

  Stopped-ending :
      (g : Group)
      → Stopped g
      → ending g ≡ some (elim g.first_error [ none ↦ returns | some e ↦ fatal e ])
  unfolding ending Stopped
  Stopped-ending g h = ground arith

  cleans-Stopped :
      (g : Group)
      → Open g
      → g.cancelled ≡ true
      → Stopped (group_step (cleans a b) g)
        × ((group_step (cleans a b) g).first_error ≡ g.first_error)
  unfolding group_step Stopped stop_grpc_server stop_http_server
  cleans-Stopped g o c = (
    (ground (arith, o.waits), ground (arith, o.waits), ground (arith, o.waits)),
    ground (arith, o.waits),
  )

Open-ending : (g : Group) → Open g → ending g ≡ none
unfolding ending
Open-ending g o = ground (arith, o.waits)

is_over-cons :
    (e : Event) (es : List Event) (v : Bool)
    → (v || is_over (e ∷ [])) || is_over es ≡ v || is_over (e ∷ es)
is_over-cons e es v = ground arith

first_failure-cons :
    (e : Event) (es : List Event) (v : Option String)
    → or_first (or_first v (first_failure (e ∷ []))) (first_failure es)
      ≡ or_first v (first_failure (e ∷ es))
first_failure-cons e es v = ground arith

new_group-Open : Open new_group
unfolding new_group
new_group-Open = record {
  waits = refl;
  grpc_error = λ h. ground arith;
  http_error = λ h. ground arith;
  error_cancels = λ h. ground arith;
}

group_run-append :
    (es fs : List Event) (g : Group) → group_run (es ++ fs) g ≡ group_run fs (group_run es g)
unfolding group_run
group_run-append [] fs g = refl
group_run-append (e ∷ es) fs g = group_run-append es fs (group_step e g)

-- A run before the servers are stopped.
run-Open :
    (es : List Event) (g : Group)
    → All IsBefore es
    → Open g
    → Open (group_run es g)
      × ((group_run es g).cancelled ≡ g.cancelled || is_over es)
      × ((group_run es g).first_error ≡ or_first g.first_error (first_failure es))
unfolding group_run
run-Open [] g h o = (o, ground arith, ground arith)
run-Open (e ∷ es) g (b, bs) o =
    let (u, c, f) = run-Open es (group_step e g) bs (group_step-Open e g b o) in
    let (x, y) = group_step-first e g b o in
    (
      u,
      c ∙ ap (λ v. v || is_over es) x ∙ is_over-cons e es g.cancelled,
      f ∙ ap (λ v. or_first v (first_failure es)) y ∙ first_failure-cons e es g.first_error,
    )

-- Once a signal has arrived or a server has failed, the third goroutine ends the controller, and not before it stops
-- the servers: however long they take to stop and whatever else happens then, with the first error that a server
-- returned before, or normally if there was none.
pub ending_lem :
    (before after : List Event) (a b : Bool)
    → All IsBefore before
    → is_over before ≡ true
    → (ending (group_run before new_group) ≡ none)
      × (ending (group_run (before ++ cleans a b ∷ after) new_group)
          ≡ some (elim (first_failure before) [ none ↦ returns | some e ↦ fatal e ]))
unfolding group_run new_group
ending_lem before after a b h over =
    let (o, c, f) = run-Open before new_group h new_group-Open in
    (
      Open-ending (group_run before new_group) o,
      let g : Group = group_run before new_group in
          let (st, same) = cleans-Stopped a b g o (c ∙ over) in
          let (fin, kept) = stays-Stopped a b after (group_step (cleans a b) g) st in
          let whole : group_run (before ++ cleans a b ∷ after) new_group
              ≡ group_run after (group_step (cleans a b) g) =
            group_run-append before (cleans a b ∷ after) new_group in
          ap ending whole
          ∙ Stopped-ending a b (group_run after (group_step (cleans a b) g)) fin
          ∙ ap how (kept ∙ same ∙ f),
    )
  where
    how : Option String → Option Ending
    how o = some (elim o [ none ↦ returns | some e ↦ fatal e ])
