-- ===== src/Tunnel/Windows/Signalled/Runs.antt =====
-- The event along a schedule in which one goroutine alone reads.
use zeronet.Prelude.{
  entry, change, ℕ, ◌≤◌, ◌<◌, ◌≡◌, ◌≢◌, List, [], ◌∷◌, Option, none, some, arith, refl, ◌⊎◌, inl,
  inr, All, ◌∙◌,
}
use zeronet.Tunnel.Windows.{WinTun, Pc, rests, Reply, Move, moves, waits, misuses, begin, step}
use zeronet.Tunnel.Windows.Count.{sum_of, sum_of-change, le-sum_of, sum_of-le}
use zeronet.Tunnel.Windows.Threads.{
  System, Event, begins, goes, signals, Happening, becomes, blocked, misused, outcome, begin_at,
  act, schedule,
}
use zeronet.Tunnel.Windows.Sound.{Sound, checked, rank, bit}
use zeronet.Tunnel.Windows.Sound.Runs.{Kept, act-Kept}
use zeronet.Tunnel.Windows.Signalled.{
  is_reading, may_wait, may_wait-le, is_reading-one, ReadsAt, Signalled, entry-change, at_most_one,
  step-is_reading, step-is_set, begin-is_reading, begin-is_set,
}

-- What an event comes to, if the event is there for the reader.
abbrev pub Ready : ℕ → Happening → Type 0
Ready r (becomes s) = Signalled r s
Ready r _ = Unit

module _ (r : ℕ) (s : System) (sig : Signalled r s) where
  waiting-one : sum_of may_wait s.threads ≤ 1
  waiting-one = omega (
    arith,
    sum_of-le may_wait is_reading may_wait-le s.threads,
    at_most_one is_reading s.threads r is_reading-one sig.alone,
  )

  Signalled-change :
      (i : ℕ) (t : WinTun) (q : Pc)
      → (i ≢ r → is_reading q ≡ 0)
      → ((rank t.close_once < 3) ⊎ (sum_of may_wait (change i q s.threads) ≤ bit t.event_set))
      → Signalled r (record { tun = t; threads = change i q s.threads })
  Signalled-change i t q h set = record {
    alone = λ j p e d. elim (entry-change s.threads i j p q e) [
      | inl (f, g) ↦ rw g (h (λ k. d (f ∙ k)))
      | inr f ↦ sig.alone j p f d
    ];
    is_set = set;
  }

  pub act-Ready : Sound s → (e : Event) → ReadsAt r e → Ready r (act e s)
  unfolding act
  act-Ready sound (begins i c) h = go (entry s.threads i) refl
    where
      made :
          (u : Reply)
          → entry s.threads i ≡ some (rests u)
          → (m : Move) → begin c s.tun ≡ m
          → Ready r (outcome i s m)
      made u e (moves t q) f =
          Signalled-change i t q (λ d. begin-is_reading c s.tun i r h d t q f)
            (begin-is_set c s.tun (sum_of may_wait s.threads)
              (sum_of may_wait (change i q s.threads)) u sig.is_set t q f
              (sum_of-change may_wait s.threads i (rests u) q e))
      made u e waits f = tt
      made u e misuses f = tt

      go :
          (o : Option Pc)
          → entry s.threads i ≡ o
          → Ready r (elim o [ none ↦ blocked | some p ↦ begin_at i c s p ])
      go none e = tt
      go (some (rests u)) e = made u e (begin c s.tun) refl
      go (some _) e = tt
  act-Ready sound (goes i w) h = go (entry s.threads i) refl
    where
      made :
          (p : Pc)
          → entry s.threads i ≡ some p
          → (m : Move) → step w s.tun p ≡ m
          → Ready r (outcome i s m)
      made p e (moves t q) f =
          Signalled-change i t q
            (λ d. omega (arith, sig.alone i p e d, step-is_reading w s.tun p t q f))
            (step-is_set w s.tun p (sum_of checked s.threads) (sum_of may_wait s.threads)
              (sum_of may_wait (change i q s.threads)) sound.staged waiting-one
              (le-sum_of may_wait s.threads i p e) sig.is_set t q f
              (sum_of-change may_wait s.threads i p q e))
      made p e waits f = tt
      made p e misuses f = tt

      go :
          (o : Option Pc)
          → entry s.threads i ≡ o
          → Ready r (elim o [ none ↦ blocked | some p ↦ outcome i s (step w s.tun p) ])
      go none e = tt
      go (some p) e = made p e (step w s.tun p) refl
  act-Ready sound signals h = record { alone = sig.alone; is_set = inr waiting-one }

pub schedule-Signalled :
    (r : ℕ) (es : List Event) (s : System)
    → Sound s
    → Signalled r s
    → All (ReadsAt r) es
    → (t : System) × (schedule es s ≡ becomes t) × Sound t × Signalled r t
unfolding schedule
schedule-Signalled r [] s sound sig h = (s, refl, sound, sig)
schedule-Signalled r (e ∷ es) s sound sig (h, hs) =
    go (act e s) refl (act-Kept s sound e) (act-Ready r s sig sound e h)
      (λ t k l. schedule-Signalled r es t k l hs)
  where
    go :
        (a : Happening)
        → act e s ≡ a
        → Kept a
        → Ready r a
        → ((t : System)
            → Sound t
            → Signalled r t
            → (u : System) × (schedule es t ≡ becomes u) × Sound u × Signalled r u)
        → (t : System) × (schedule (e ∷ es) s ≡ becomes t) × Sound t × Signalled r t
    go (becomes t) f k l rest = let (u, g, m, n) = rest t k l in (u, rw (f, schedule) g, m, n)
    go blocked f k l rest = let (u, g, m, n) = rest s sound sig in (u, rw (f, schedule) g, m, n)
    go misused f k l rest = absurd k
