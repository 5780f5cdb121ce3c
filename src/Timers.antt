-- ===== src/Timers.antt =====
-- src/event_loop.rs: the timing wheel. `BinaryHeap` is library code: a list that is kept in the order
-- in which the heap gives its elements out, the earliest time first and, at one time, the kind that is
-- declared last first. `schedule` and `pop_due` see no more of a heap than that. `drain_cmds` takes
-- what a ring holds, a list.
pub mod Due
use molia.Prelude.{
  ℕ, zero, suc, ◌+◌, ◌-◌, ◌≡◌, Bool, true, false, ◌&&◌, ◌||◌, Option, none, some, List, [], ◌∷◌,
  length, take, drop, if◌then◌else◌, ltb, leb, ◌==◌, nat_eq,
}
use molia.Prelude.Sort.{insert_sorted}

pub data TimerKind : Type 0 where
  keepalive : TimerKind
  peerstore_flush : TimerKind
  collect : TimerKind
  lookup_tick : TimerKind
  punch : TimerKind

-- The order of the variants, which is derived.
unfoldable pub rank : TimerKind → ℕ
rank keepalive = 0
rank peerstore_flush = 1
rank collect = 2
rank lookup_tick = 3
rank punch = 4

abbrev pub Timer : Type 0
Timer = ℕ × TimerKind

-- `Ord for Timer`, the greater one first: times reversed, then the kinds.
unfoldable pub precedes : Timer → Timer → Bool
unfolding rank
precedes a b = if a.0 == b.0 then leb (rank b.1) (rank a.1) else ltb a.0 b.0

abbrev pub TimingWheel : Type 0
TimingWheel = List Timer

abbrev pub new : TimingWheel
new = []

unfoldable pub schedule : ℕ → TimerKind → TimingWheel → TimingWheel
unfolding precedes
schedule at kind heap = insert_sorted precedes (at, kind) heap

unfoldable pub pop_due : ℕ → TimingWheel → TimingWheel × List TimerKind
pop_due now [] = ([], [])
pop_due now (t ∷ heap) =
    let (rest, out) = pop_due now heap in if leb t.0 now then (rest, t.1 ∷ out) else (t ∷ heap, [])

-- `saturating_duration_since`.
unfoldable pub next_timeout : ℕ → TimingWheel → Option ℕ
next_timeout now [] = none
next_timeout now (t ∷ heap) = some (t.0 - now)

unfoldable pub drain_cmds {ℓ} : {T : Type ℓ} → List T → ℕ → List T × List T
drain_cmds rx max = (drop max rx, take max rx)
