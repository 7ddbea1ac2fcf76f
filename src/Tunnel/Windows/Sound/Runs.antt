-- ===== src/Tunnel/Windows/Sound/Runs.antt =====
-- Any schedule of the goroutines of a tunnel on Windows.
use zeronet.Prelude.{
  entry, change, ℕ, ◌≡◌, ◌≢◌, List, [], ◌∷◌, Option, none, some, true, arith, refl, All, ◌≤◌,
}
use zeronet.Go.{ok}
use zeronet.Tunnel.Windows.{
  WinTun, Pc, rests, idle, Move, moves, waits, misuses, step, begin, new_tun,
}
use zeronet.Tunnel.Windows.Count.{sum_of, sum_of-change, le-sum_of, sum_of-le}
use zeronet.Tunnel.Windows.Threads.{
  System, Event, begins, goes, signals, Happening, becomes, blocked, misused, outcome, begin_at,
  act, schedule,
}
use zeronet.Tunnel.Windows.Sound.{inside, checked, holder, closer, Sound}
use zeronet.Tunnel.Windows.Sound.Steps.{
  Here, Balanced, step-misuses, step-Balanced, begin-misuses, begin-Balanced,
}

checked-le : (p : Pc) → checked p ≤ inside p
checked-le p = ground arith

module _ (s : System) (sound : Sound s) (i : ℕ) (p : Pc) (at : entry s.threads i ≡ some p) where
  pub here : Here s.tun (sum_of checked s.threads) p
  here = record {
    is_counted = omega (arith, sound.counted, le-sum_of inside s.threads i p at);
    users_counted = omega (arith, sound.counted, sum_of-le checked inside checked-le s.threads);
    is_closer = omega (arith, sound.one_closer, le-sum_of closer s.threads i p at);
    is_holder = omega (arith, sound.one_holder, le-sum_of holder s.threads i p at);
    is_user = le-sum_of checked s.threads i p at;
    staged = sound.staged;
  }

  pub Balanced-Sound :
      (t : WinTun) (q : Pc)
      → Balanced s.tun t p q (sum_of checked s.threads)
      → Sound (record { tun = t; threads = change i q s.threads })
  Balanced-Sound t q b = record {
    counted = omega (arith, sound.counted, b.counts, sum_of-change inside s.threads i p q at);
    one_closer = omega (arith, sound.one_closer, b.closes, sum_of-change closer s.threads i p q at);
    one_holder = omega (arith, sound.one_holder, b.holds, sum_of-change holder s.threads i p q at);
    staged =
        b.stays (sum_of checked (change i q s.threads)) (sum_of-change checked s.threads i p q at);
  }

-- What an event comes to, if it keeps the tunnel sound.
abbrev pub Kept : Happening → Type 0
Kept (becomes s) = Sound s
Kept blocked = Unit
Kept misused = ⊥

module _ (s : System) (sound : Sound s) where
  outcome-Kept :
      (i : ℕ) (p : Pc)
      → entry s.threads i ≡ some p
      → (m : Move) → m ≢ misuses
      → ((t : WinTun) (q : Pc) → m ≡ moves t q → Balanced s.tun t p q (sum_of checked s.threads))
      → Kept (outcome i s m)
  outcome-Kept i p at (moves t q) safe b = Balanced-Sound s sound i p at t q (b t q refl)
  outcome-Kept i p at waits safe b = tt
  outcome-Kept i p at misuses safe b = safe refl

  pub act-Kept : (e : Event) → Kept (act e s)
  unfolding act
  act-Kept (begins i c) = go (entry s.threads i) refl
    where
      go :
          (o : Option Pc)
          → entry s.threads i ≡ o
          → Kept (elim o [ none ↦ blocked | some p ↦ begin_at i c s p ])
      go none e = tt
      go (some (rests r)) e =
          outcome-Kept i (rests r) e (begin c s.tun)
            (begin-misuses c s.tun (sum_of checked s.threads))
            (begin-Balanced c s.tun (sum_of checked s.threads) r (here s sound i (rests r) e))
      go (some _) e = tt
  act-Kept (goes i w) = go (entry s.threads i) refl
    where
      go :
          (o : Option Pc)
          → entry s.threads i ≡ o
          → Kept (elim o [ none ↦ blocked | some p ↦ outcome i s (step w s.tun p) ])
      go none e = tt
      go (some p) e =
          outcome-Kept i p e (step w s.tun p)
            (step-misuses w s.tun (sum_of checked s.threads) p (here s sound i p e))
            (step-Balanced w s.tun (sum_of checked s.threads) p (here s sound i p e))
  act-Kept signals = record {
    counted = sound.counted;
    one_closer = sound.one_closer;
    one_holder = sound.one_holder;
    staged = record {
      stored = sound.staged.stored;
      ended = sound.staged.ended;
      freed = sound.staged.freed;
      unused_by = sound.staged.unused_by;
    };
  }

pub schedule-Sound :
    (es : List Event) (s : System) → Sound s → (t : System) × (schedule es s ≡ becomes t) × Sound t
unfolding schedule
schedule-Sound [] s sound = (s, refl, sound)
schedule-Sound (e ∷ es) s sound = go (act e s) refl (act-Kept s sound e) (λ t. schedule-Sound es t)
  where
    go :
        (h : Happening)
        → act e s ≡ h
        → Kept h
        → ((t : System) → Sound t → (u : System) × (schedule es t ≡ becomes u) × Sound u)
        → (t : System) × (schedule (e ∷ es) s ≡ becomes t) × Sound t
    go (becomes t) f k rest = let (u, g, h) = rest t k in (u, rw (f, schedule) g, h)
    go blocked f k rest = let (u, g, h) = rest s sound in (u, rw (f, schedule) g, h)
    go misused f k rest = absurd k

abbrev pub IsIdle : Pc → Type 0
IsIdle p = p ≡ rests idle

idle-sums :
    (ps : List Pc)
    → All IsIdle ps
    → (sum_of inside ps ≡ 0)
      × (sum_of checked ps ≡ 0)
      × (sum_of holder ps ≡ 0)
      × (sum_of closer ps ≡ 0)
unfolding sum_of
idle-sums [] h = (refl, refl, refl, refl)
idle-sums (p ∷ ps) (h, hs) =
    let (a, b, c, d) = idle-sums ps hs in (ground arith, ground arith, ground arith, ground arith)

pub Sound-new_tun :
    (t : WinTun) (threads : List Pc)
    → new_tun none true ≡ ok t
    → All IsIdle threads
    → Sound (record { tun = t; threads = threads })
unfolding new_tun
Sound-new_tun t threads made idle_ =
    let (a, b, c, d) = idle-sums threads idle_ in
    record {
      counted = ground arith;
      one_closer = ground arith;
      one_holder = ground arith;
      staged = record {
        stored = ground arith;
        ended = ground arith;
        freed = ground arith;
        unused_by = ground arith;
      };
    }

-- However many goroutines read, write, ask for the identifier and close, and in whatever order they take their
-- steps, none uses the session after its end or the adapter after it is closed, none ends or closes them twice,
-- none unlocks a lock that is not locked, and the counter of the wait group never goes below zero; and the
-- state after the schedule is sound: the counter is the number of goroutines inside of the counted methods,
-- at most one goroutine sends and at most one closes, and once the wait of `Close` is over no goroutine is left
-- that uses the session.
pub schedule-new_tun :
    (t : WinTun) (threads : List Pc) (es : List Event)
    → new_tun none true ≡ ok t
    → All IsIdle threads
    → (s : System) × (schedule es (record { tun = t; threads = threads }) ≡ becomes s) × Sound s
schedule-new_tun t threads es made idle_ =
    schedule-Sound es (record { tun = t; threads = threads }) (Sound-new_tun t threads made idle_)
