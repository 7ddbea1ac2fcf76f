-- ===== src/Tunnel/Windows/Sound/Steps.antt =====
-- No step of a goroutine misuses the tunnel, and every step keeps its state sound.
use zeronet.Prelude.{ℕ, ◌≤◌, ◌+◌, ◌≡◌, ◌≢◌, arith}
use zeronet.Tunnel.Windows.{
  Windows, WinTun, Pc, moves, misuses, step, read_step, write_step, luid_step, close_step,
  close_stage, Call, begin, Reply, rests,
}
use zeronet.Tunnel.Windows.Sound.{inside, checked, holder, closer, closers, bit, Staged}

-- What holds of a goroutine at `p` in a sound state, with the number of those that use the session.
pub record Here (t : WinTun) (users : ℕ) (p : Pc) : Type 0 where
  pub is_counted : inside p ≤ t.running
  pub users_counted : users ≤ t.running
  pub is_closer : closer p ≤ closers t.close_once
  pub is_holder : holder p ≤ bit t.write_lock
  pub is_user : checked p ≤ users
  pub staged : Staged t users

-- A goroutine goes from `p` to `q`, and the tunnel from `t` to `t'`.
pub record Balanced (t t' : WinTun) (p q : Pc) (users : ℕ) : Type 0 where
  pub counts : t'.running + inside p ≡ t.running + inside q
  pub closes : closers t'.close_once + closer p ≡ closers t.close_once + closer q
  pub holds : bit t'.write_lock + holder p ≡ bit t.write_lock + holder q
  pub stays : (users' : ℕ) → users' + checked p ≡ users + checked q → Staged t' users'

module _ (w : Windows) (t : WinTun) (users : ℕ) where
  pub step-misuses : (p : Pc) → Here t users p → step w t p ≢ misuses
  unfolding step read_step write_step luid_step close_step close_stage
  step-misuses p h e =
      ground (arith, h.staged.stored, h.staged.ended, h.staged.freed, h.staged.unused_by)

  step-Staged :
      (p : Pc)
      → Here t users p
      → (t' : WinTun) (q : Pc) → step w t p ≡ moves t' q
      → (n : ℕ) → n + checked p ≡ users + checked q
      → Staged t' n
  unfolding step read_step write_step luid_step close_step close_stage
  step-Staged p h t' q e n f = record {
    stored = ground (arith, h.staged.stored);
    ended = ground (arith, h.staged.ended);
    freed = ground (arith, h.staged.freed);
    unused_by = ground (arith, h.staged.stored, h.staged.unused_by);
  }

  pub step-Balanced :
      (p : Pc)
      → Here t users p
      → (t' : WinTun) (q : Pc) → step w t p ≡ moves t' q
      → Balanced t t' p q users
  unfolding step read_step write_step luid_step close_step close_stage
  step-Balanced p h t' q e = record {
    counts = ground arith;
    closes = ground arith;
    holds = ground arith;
    stays = step-Staged p h t' q e;
  }

module _ (c : Call) (t : WinTun) (users : ℕ) where
  pub begin-misuses : begin c t ≢ misuses
  unfolding begin
  begin-misuses e = ground arith

  pub begin-Balanced :
      (r : Reply)
      → Here t users (rests r)
      → (t' : WinTun) (q : Pc) → begin c t ≡ moves t' q
      → Balanced t t' (rests r) q users
  unfolding begin
  begin-Balanced r h t' q e = record {
    counts = ground arith;
    closes = ground arith;
    holds = ground arith;
    stays = λ n f. record {
      stored = ground (arith, h.staged.stored);
      ended = ground (arith, h.staged.ended);
      freed = ground (arith, h.staged.freed);
      unused_by = ground (arith, h.staged.stored, h.staged.unused_by);
    };
  }
