-- ===== src/Tunnel/Windows/Draining.antt =====
-- `Close` waits until every goroutine has left the counted methods; they all do, since it has set the
-- event.
use mathlib.Core.Path.{subst}
use zeronet.Go.{ok}
use zeronet.Prelude.{
  entry, change, ℕ, zero, suc, ◌≤◌, ◌<◌, ◌≡◌, ◌≢◌, List, [], ◌∷◌, none, some, true, false, arith,
  refl, length, All, ◌⊎◌, inl, inr, Bool-cases, ◌∙◌, ap, leb,
}
use zeronet.Tunnel.Windows.{
  Windows, WinTun, Pc, rests, reading, writing, asking, closing, Reading, Writing, Asking, receives,
  waits_for_packet, locks, allocates, sends, Move, moves, waits, misuses, step, read_step,
  write_step, luid_step, new_tun, doing, waiting,
}
use zeronet.Tunnel.Windows.Count.{sum_of, sum_of-change, le-sum_of}
use zeronet.Tunnel.Windows.Threads.{System, Event, goes, becomes, act, schedule}
use zeronet.Tunnel.Windows.Sound.{inside, checked, holder, bit, rank, Sound}
use zeronet.Tunnel.Windows.Sound.Steps.{step-misuses, step-Balanced}
use zeronet.Tunnel.Windows.Sound.Runs.{here, Balanced-Sound, IsIdle, Sound-new_tun}
use zeronet.Tunnel.Windows.Signalled.{is_reading, may_wait, ReadsAt, Signalled}
use zeronet.Tunnel.Windows.Signalled.Runs.{Ready, act-Ready, schedule-Signalled}

-- How many steps a goroutine has left at most, once the tunnel is marked as closed.
abbrev pub work : Pc → ℕ
work (rests r) = 0
work closing = 0
work (reading (receives len)) = 4
work (reading (waits_for_packet len)) = 3
work (reading (Reading.leaves r)) = 1
work (reading _) = 2
work (writing (locks b)) = 5
work (writing (allocates b)) = 4
work (writing (sends b)) = 3
work (writing (Writing.leaves r)) = 1
work (writing _) = 2
work (asking (Asking.leaves id)) = 1
work (asking _) = 2

module _ {ℓ} {A : Type ℓ} (w : A → ℕ) where
  counted_entry :
      (xs : List A) → 0 < sum_of w xs → (i : ℕ) × (x : A) × (entry xs i ≡ some x) × (0 < w x)
  unfolding sum_of
  counted_entry [] h = absurd (omega arith)
  counted_entry (x ∷ xs) h = go (w x) refl (counted_entry xs)
    where
      go :
          (n : ℕ)
          → w x ≡ n
          → (0 < sum_of w xs → (i : ℕ) × (y : A) × (entry xs i ≡ some y) × (0 < w y))
          → (i : ℕ) × (y : A) × (entry (x ∷ xs) i ≡ some y) × (0 < w y)
      go zero e rest = let (i, y, f, g) = rest (omega arith) in (suc i, y, f, g)
      go (suc n) e rest = (0, x, refl, omega arith)

module _ (w : Windows) (t : WinTun) where
  step-work :
      (p : Pc)
      → t.close ≡ true
      → 0 < inside p
      → (t' : WinTun) (q : Pc) → step w t p ≡ moves t' q
      → (work q < work p) × (t'.close_once ≡ t.close_once)
  unfolding step read_step write_step luid_step
  step-work p c h t' q e = (ground arith, ground arith)

  step-waits :
      (p : Pc)
      → 0 < inside p
      → (t.write_lock ≡ false) ⊎ (0 < holder p)
      → may_wait p ≤ bit t.event_set
      → step w t p ≢ waits
  unfolding step read_step write_step luid_step
  step-waits p h l set e = ground arith

abbrev pub IsGoing : Event → Type 0
IsGoing (goes i w) = Unit
IsGoing _ = ⊥

module _ (s : System) (sound : Sound s) where
  -- Someone inside of a counted method can go on.
  mover :
      0 < s.tun.running
      → (i : ℕ) × (p : Pc) × (entry s.threads i ≡ some p)
        × (0 < inside p)
        × ((s.tun.write_lock ≡ false) ⊎ (0 < holder p))
  mover h = elim (Bool-cases s.tun.write_lock) [
    | inl b ↦
        let (i, p, f, g) = counted_entry holder s.threads (ground (arith, sound.one_holder)) in
        (i, p, f, ground arith, inr g)
    | inr b ↦
        let (i, p, f, g) = counted_entry inside s.threads (omega (arith, sound.counted)) in
        (i, p, f, g, inl b)
  ]

-- The state in the wait of `Close`, with the goroutine at `r` as the reader.
record Waiting (r : ℕ) (s : System) : Type 0 where
  is_sound : Sound s
  is_signalled : Signalled r s
  in_wait : s.tun.close_once ≡ doing waiting

module _ (r : ℕ) (s : System) (v : Waiting r s) where
  event_covers : sum_of may_wait s.threads ≤ bit s.tun.event_set
  event_covers = elim v.is_signalled.is_set [
    | inl h ↦
        absurd (let e : rank s.tun.close_once ≡ 3 = rw (v.in_wait) refl in omega (arith, e, h))
    | inr h ↦ h
  ]

  marked : s.tun.close ≡ true
  marked = v.is_sound.staged.stored ∙ ap (λ o. leb 2 (rank o)) v.in_wait

  record Moved (i : ℕ) (w : Windows) : Type 0 where
    next : System
    happens : act (goes i w) s ≡ becomes next
    next_waiting : Waiting r next
    less : sum_of work next.threads < sum_of work s.threads

  move : 0 < s.tun.running → (w : Windows) → (i : ℕ) × Moved i w
  unfolding act
  move h w =
      let (i, p, at, ins, free) = mover s v.is_sound h in
      (i, go i p at ins free (step w s.tun p) refl)
    where
      go :
          (i : ℕ) (p : Pc)
          → entry s.threads i ≡ some p
          → 0 < inside p
          → (s.tun.write_lock ≡ false) ⊎ (0 < holder p)
          → (m : Move) → step w s.tun p ≡ m
          → Moved i w
      go i p at ins free waits e = absurd (
          step-waits w s.tun p ins free
            (omega (arith, le-sum_of may_wait s.threads i p at, event_covers)) e)
      go i p at ins free misuses e =
          absurd (step-misuses w s.tun (sum_of checked s.threads) p (here s v.is_sound i p at) e)
      go i p at ins free (moves t q) e =
          let (less, stage) = step-work w s.tun p marked ins t q e in
          let same : act (goes i w) s
              ≡ becomes (record { tun = t; threads = change i q s.threads }) =
            rw (at, act) (rw e refl) in
          record {
            next = record { tun = t; threads = change i q s.threads };
            happens = same;
            next_waiting = record {
              is_sound = Balanced-Sound s v.is_sound i p at t q (
                  step-Balanced w s.tun (sum_of checked s.threads) p (here s v.is_sound i p at) t q
                    e);
              is_signalled =
                  subst (Ready r) same (act-Ready r s v.is_signalled v.is_sound (goes i w) tt);
              in_wait = stage ∙ v.in_wait;
            };
            less = omega (arith, less, sum_of-change work s.threads i p q at);
          }

-- A schedule of the goroutines that are in a method, after which none is in a counted one.
pub record Drained (s : System) : Type 0 where
  pub events : List Event
  pub no_calls : All IsGoing events
  pub end : System
  pub reaches : schedule events s ≡ becomes end
  pub sound_end : Sound end
  pub few : length events ≤ sum_of work s.threads
  pub nobody : end.tun.running ≡ 0
  pub still_waits : end.tun.close_once ≡ doing waiting

module _ (r : ℕ) (s : System) (v : Waiting r s) where
  Drained-zero : s.tun.running ≡ 0 → Drained s
  unfolding schedule
  Drained-zero e = record {
    events = [];
    no_calls = tt;
    end = s;
    reaches = refl;
    sound_end = v.is_sound;
    few = omega arith;
    nobody = e;
    still_waits = v.in_wait;
  }

  Drained-Moved : (i : ℕ) (w : Windows) (m : Moved r s v i w) → Drained m.next → Drained s
  unfolding schedule
  Drained-Moved i w m d = record {
    events = goes i w ∷ d.events;
    no_calls = (tt, d.no_calls);
    end = d.end;
    reaches = rw (m.happens, schedule) d.reaches;
    sound_end = d.sound_end;
    few = omega (arith, d.few, m.less);
    nobody = d.nobody;
    still_waits = d.still_waits;
  }

Drained-fuel :
    (fuel r : ℕ) (w : ℕ → Windows) (s : System)
    → Waiting r s
    → sum_of work s.threads ≤ fuel
    → Drained s
Drained-fuel zero r w s v h = go s.tun.running refl
  where
    go : (n : ℕ) → s.tun.running ≡ n → Drained s
    go zero e = Drained-zero r s v e
    go (suc n) e = let (i, m) = move r s v (omega arith) (w 0) in absurd (omega (arith, m.less))
Drained-fuel (suc fuel) r w s v h = go s.tun.running refl (λ t. Drained-fuel fuel r w t)
  where
    go :
        (n : ℕ)
        → s.tun.running ≡ n
        → ((t : System) → Waiting r t → sum_of work t.threads ≤ fuel → Drained t)
        → Drained s
    go zero e rest = Drained-zero r s v e
    go (suc n) e rest =
        let (i, m) = move r s v (omega arith) (w fuel) in
        Drained-Moved r s v i (w fuel) m (rest m.next m.next_waiting (omega (arith, m.less)))

idle-is_reading :
    (ps : List Pc) → All IsIdle ps → (i : ℕ) (p : Pc) → entry ps i ≡ some p → is_reading p ≡ 0
idle-is_reading [] h i p e = absurd (ground arith)
idle-is_reading (x ∷ ps) (h, hs) zero p e = ground arith
idle-is_reading (x ∷ ps) (h, hs) (suc i) p e = idle-is_reading ps hs i p e

-- Once `Close` waits for the goroutines that are still in `Read`, `Write` or `LUID`, its wait can always come to
-- its end, whatever wintun answers them and without another packet: from every state that the goroutines of a new
-- tunnel can reach, of which one alone calls `Read`, and in which `Close` is in its wait, there is a schedule of
-- steps of theirs, with no new call, no event set by wintun and of no more steps than they have left by `work` (at most
-- five each), after which the counter of the wait group is zero, the state is sound and `Close` is still
-- in its wait.
pub schedule-drains :
    (t : WinTun) (threads : List Pc) (es : List Event) (s : System) (w : ℕ → Windows) (r : ℕ)
    → new_tun none true ≡ ok t
    → All IsIdle threads
    → All (ReadsAt r) es
    → schedule es (record { tun = t; threads = threads }) ≡ becomes s
    → s.tun.close_once ≡ doing waiting
    → Drained s
unfolding new_tun
schedule-drains t threads es s w r made idle_ reads reached in_wait =
    let start : System = record { tun = t; threads = threads } in
    let (u, f, sound, sig) =
      schedule-Signalled r es start (Sound-new_tun t threads made idle_)
        (record { alone = λ i p e d. idle-is_reading threads idle_ i p e; is_set = ground arith })
        reads in
    let same : u ≡ s = ground arith in
    Drained-fuel (sum_of work s.threads) r w s
      (record {
        is_sound = subst Sound same sound;
        is_signalled = subst (Signalled r) same sig;
        in_wait = in_wait;
      })
      (omega arith)
