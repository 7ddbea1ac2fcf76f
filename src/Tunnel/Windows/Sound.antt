-- ===== src/Tunnel/Windows/Sound.antt =====
-- The counters, the lock and the stage of a tunnel on Windows agree with where its goroutines are.
pub mod Steps
pub mod Runs
use zeronet.Prelude.{ℕ, suc, ◌≤◌, ◌<◌, ◌+◌, ◌≡◌, Bool, true, false, leb, ◌⊎◌}
use zeronet.Tunnel.Windows.{
  WinTun, Once, unused, finished, doing, Stage, storing, signalling, waiting, ending, freeing,
  leaving, Pc, rests, reading, writing, asking, closing, receives, releases, locks, allocates,
  sends, unlocks, asks,
}
use zeronet.Tunnel.Windows.Count.{sum_of}
use zeronet.Tunnel.Windows.Threads.{System}

-- The goroutine is in a method that the wait group counts.
abbrev pub inside : Pc → ℕ
inside (rests r) = 0
inside closing = 0
inside _ = 1

-- It has found the tunnel open, and uses the session or the adapter for it.
abbrev pub checked : Pc → ℕ
checked (reading (receives len)) = 1
checked (reading (releases b)) = 1
checked (writing (locks b)) = 1
checked (writing (allocates b)) = 1
checked (writing (sends b)) = 1
checked (asking asks) = 1
checked _ = 0

abbrev pub holder : Pc → ℕ
holder (writing (allocates b)) = 1
holder (writing (sends b)) = 1
holder (writing (unlocks r)) = 1
holder _ = 0

abbrev pub closer : Pc → ℕ
closer closing = 1
closer _ = 0

abbrev pub rank_of_stage : Stage → ℕ
rank_of_stage storing = 1
rank_of_stage signalling = 2
rank_of_stage waiting = 3
rank_of_stage ending = 4
rank_of_stage freeing = 5
rank_of_stage (leaving e) = 6

abbrev pub rank : Once → ℕ
rank unused = 0
rank (doing s) = rank_of_stage s
rank finished = 7

abbrev pub closers : Once → ℕ
closers (doing s) = 1
closers _ = 0

abbrev pub bit : Bool → ℕ
bit true = 1
bit false = 0

-- What has been done by the time of a stage. From the end of the wait on, nobody uses the session.
pub record Staged (t : WinTun) (users : ℕ) : Type 0 where
  pub stored : t.close ≡ leb 2 (rank t.close_once)
  pub ended : t.session_ended ≡ leb 5 (rank t.close_once)
  pub freed : t.adapter_closed ≡ leb 6 (rank t.close_once)
  pub unused_by : (rank t.close_once < 4) ⊎ (users ≡ 0)

pub record Sound (s : System) : Type 0 where
  pub counted : s.tun.running ≡ sum_of inside s.threads
  pub one_closer : closers s.tun.close_once ≡ sum_of closer s.threads
  pub one_holder : bit s.tun.write_lock ≡ sum_of holder s.threads
  pub staged : Staged s.tun (sum_of checked s.threads)
