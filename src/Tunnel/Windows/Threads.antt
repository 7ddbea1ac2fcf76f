-- ===== src/Tunnel/Windows/Threads.antt =====
-- The goroutines that use a tunnel on Windows, in any order of their steps.
use zeronet.Prelude.{entry, change, ℕ, List, [], ◌∷◌, none, some, true}
use zeronet.Tunnel.Windows.{
  Windows, WinTun, Pc, rests, Call, Move, moves, waits, misuses, begin, step,
}

pub record System : Type 0 where
  pub tun : WinTun
  pub threads : List Pc

-- A goroutine calls a method, or goes on with the one it is in; and wintun sets the event, as it does
-- when a packet arrives.
pub data Event : Type 0 where
  begins : ℕ → Call → Event
  goes : ℕ → Windows → Event
  signals : Event

pub data Happening : Type 0 where
  becomes : System → Happening
  blocked misused : Happening

abbrev pub outcome : ℕ → System → Move → Happening
outcome i s (moves t p) = becomes (record { tun = t; threads = change i p s.threads })
outcome i s waits = blocked
outcome i s misuses = misused

-- A goroutine that is in a method does not call another.
abbrev pub begin_at : ℕ → Call → System → Pc → Happening
begin_at i c s (rests r) = outcome i s (begin c s.tun)
begin_at i c s _ = blocked

unfoldable pub act : Event → System → Happening
act (begins i c) s = elim (entry s.threads i) [ none ↦ blocked | some p ↦ begin_at i c s p ]
act (goes i w) s = elim (entry s.threads i) [
  | none ↦ blocked
  | some p ↦ outcome i s (step w s.tun p)
]
act signals s = becomes (record s { tun = record s.tun { event_set = true } })

-- What a schedule comes to. An event that cannot happen yet is passed over.
unfoldable pub schedule : List Event → System → Happening
schedule [] s = becomes s
schedule (e ∷ es) s =
    let rest = schedule es in
    elim (act e s) [ becomes t ↦ rest t | blocked ↦ rest s | misused ↦ misused ]
