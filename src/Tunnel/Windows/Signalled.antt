-- ===== src/Tunnel/Windows/Signalled.antt =====
-- While one goroutine alone reads, as `ReadTunPackets` does, the event that `Close` sets is there for the
-- reader that waits.
pub mod Runs
use zeronet.Prelude.{
  entry, change, ℕ, zero, suc, ◌≤◌, ◌<◌, ◌+◌, ◌≡◌, ◌≢◌, List, [], ◌∷◌, some, arith, refl, ◌⊎◌, inl,
  inr, ap,
}
use zeronet.Tunnel.Windows.{
  Windows, WinTun, Pc, rests, Reply, reading, receives, waits_for_packet, Call, read, moves, begin,
  step, read_step, write_step, luid_step, close_step, close_stage,
}
use zeronet.Tunnel.Windows.Count.{sum_of}
use zeronet.Tunnel.Windows.Threads.{System, Event, begins}
use zeronet.Tunnel.Windows.Sound.{Staged, rank, bit}

abbrev pub is_reading : Pc → ℕ
is_reading (reading p) = 1
is_reading _ = 0

-- A goroutine that waits, or may still come to wait although the tunnel is marked as closed.
abbrev pub may_wait : Pc → ℕ
may_wait (reading (receives len)) = 1
may_wait (reading (waits_for_packet len)) = 1
may_wait _ = 0

-- The goroutine at `r` is the one that calls `Read`.
abbrev pub ReadsAt : ℕ → Event → Type 0
ReadsAt r (begins i (read len)) = i ≡ r
ReadsAt r _ = Unit

pub record Signalled (r : ℕ) (s : System) : Type 0 where
  pub alone : (i : ℕ) (p : Pc) → entry s.threads i ≡ some p → i ≢ r → is_reading p ≡ 0
  pub is_set : (rank s.tun.close_once < 3) ⊎ (sum_of may_wait s.threads ≤ bit s.tun.event_set)

module _ {ℓ} {A : Type ℓ} where
  pub entry-change :
      (xs : List A) (i j : ℕ) (x y : A)
      → entry (change i y xs) j ≡ some x
      → ((j ≡ i) × (x ≡ y)) ⊎ (entry xs j ≡ some x)
  entry-change [] i j x y e = inr e
  entry-change (z ∷ xs) zero zero x y e = inl (refl, ground arith)
  entry-change (z ∷ xs) zero (suc j) x y e = inr e
  entry-change (z ∷ xs) (suc i) zero x y e = inr e
  entry-change (z ∷ xs) (suc i) (suc j) x y e = elim (entry-change xs i j x y e) [
    | inl (a, b) ↦ inl (ap suc a, b)
    | inr f ↦ inr f
  ]

  module _ (w : A → ℕ) where
    none_counted :
        (xs : List A) → ((i : ℕ) (x : A) → entry xs i ≡ some x → w x ≡ 0) → sum_of w xs ≡ 0
    unfolding sum_of
    none_counted [] h = refl
    none_counted (x ∷ xs) h = omega (arith, h 0 x refl, none_counted xs (λ i y e. h (suc i) y e))

    pub at_most_one :
        (xs : List A) (r : ℕ)
        → ((x : A) → w x ≤ 1)
        → ((i : ℕ) (x : A) → entry xs i ≡ some x → i ≢ r → w x ≡ 0)
        → sum_of w xs ≤ 1
    unfolding sum_of
    at_most_one [] r b h = omega arith
    at_most_one (x ∷ xs) zero b h =
        omega (arith, b x, none_counted xs (λ i y e. h (suc i) y e (λ f. omega arith)))
    at_most_one (x ∷ xs) (suc r) b h = omega (
      arith,
      h 0 x refl (λ f. omega arith),
      at_most_one xs r b (λ i y e d. h (suc i) y e (λ f. d (omega arith))),
    )

pub may_wait-le : (p : Pc) → may_wait p ≤ is_reading p
may_wait-le p = ground arith

pub is_reading-one : (p : Pc) → is_reading p ≤ 1
is_reading-one p = ground arith

module _ (w : Windows) (t : WinTun) where
  pub step-is_reading :
      (p : Pc) (t' : WinTun) (q : Pc) → step w t p ≡ moves t' q → is_reading q ≤ is_reading p
  unfolding step read_step write_step luid_step close_step close_stage
  step-is_reading p t' q e = ground arith

  -- The number of those that may wait is `n` before the step, and `m` after it.
  pub step-is_set :
      (p : Pc) (users n m : ℕ)
      → Staged t users
      → n ≤ 1
      → may_wait p ≤ n
      → (rank t.close_once < 3) ⊎ (n ≤ bit t.event_set)
      → (t' : WinTun) (q : Pc) → step w t p ≡ moves t' q
      → m + may_wait p ≡ n + may_wait q
      → (rank t'.close_once < 3) ⊎ (m ≤ bit t'.event_set)
  unfolding step read_step write_step luid_step close_step close_stage
  step-is_set p users n m v one some_ set t' q e c = ground (arith, v.stored)

module _ (c : Call) (t : WinTun) where
  pub begin-is_reading :
      (i r : ℕ)
      → ReadsAt r (begins i c)
      → i ≢ r
      → (t' : WinTun) (q : Pc) → begin c t ≡ moves t' q
      → is_reading q ≡ 0
  unfolding begin
  begin-is_reading i r h d t' q e = ground arith

  pub begin-is_set :
      (n m : ℕ) (r : Reply)
      → (rank t.close_once < 3) ⊎ (n ≤ bit t.event_set)
      → (t' : WinTun) (q : Pc) → begin c t ≡ moves t' q
      → m + may_wait (rests r) ≡ n + may_wait q
      → (rank t'.close_once < 3) ⊎ (m ≤ bit t'.event_set)
  unfolding begin
  begin-is_set n m r set t' q e c' = ground arith
