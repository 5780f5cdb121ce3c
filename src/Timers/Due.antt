-- ===== src/Timers/Due.antt =====
-- Which timers fire.
use molia.Prelude.{
  ℕ, ◌≤◌, ◌<◌, ◌≡◌, refl, ap, inl, inr, true, false, some, [], ◌∷◌, map, retain, leb, nat_eq, not,
  All, Bool-cases, arith,
}
use molia.Prelude.Sort.{insert_sorted-IsSorted, IsSorted}
use molia.Timers.{Timer, TimerKind, TimingWheel, precedes, schedule, pop_due, next_timeout}

abbrev pub IsWheel : TimingWheel → Type 0
IsWheel = IsSorted precedes

precedes_total : (a b : Timer) → precedes a b ≡ false → precedes b a ≡ true
unfolding precedes
precedes_total a b h = ground arith

precedes_trans : (a b c : Timer) → precedes a b ≡ true → precedes b c ≡ true → precedes a c ≡ true
unfolding precedes
precedes_trans a b c h k = ground arith

precedes-le : (a b : Timer) → precedes a b ≡ true → a.0 ≤ b.0
unfolding precedes
precedes-le a b h = ground arith

-- Nothing later than a timer that is not due is due.
none_due :
    (now : ℕ) (t : Timer) (heap : TimingWheel)
    → now < t.0
    → All (λ u. precedes t u ≡ true) heap
    → (retain (λ u. leb u.0 now) heap ≡ []) × (retain (λ u. not (leb u.0 now)) heap ≡ heap)
unfolding retain
none_due now t [] h q = (refl, refl)
none_due now t (u ∷ heap) h q = ground (arith, none_due now t heap h q.1, precedes-le t u q.0)

popped :
    (now : ℕ) (h : TimingWheel)
    → IsWheel h
    → ((pop_due now h).1 ≡ map (λ t. t.1) (retain (λ t. leb t.0 now) h))
      × ((pop_due now h).0 ≡ retain (λ t. not (leb t.0 now)) h)
unfolding pop_due retain
popped now [] w = (refl, refl)
popped now (t ∷ h) w = elim (Bool-cases (leb t.0 now)) [
  | inl due ↦ rw due (ap (◌∷◌ t.1) (popped now h w.1).0, (popped now h w.1).1)
  | inr later ↦ rw later (
      let (none_there, all_there) = none_due now t h (ground arith) w.0 in
      (rw none_there refl, rw all_there refl))
]

waits :
    (now : ℕ) (h : TimingWheel) (wait : ℕ)
    → next_timeout now (pop_due now h).0 ≡ some wait
    → 0 < wait
unfolding pop_due next_timeout
waits now [] wait e = cc
waits now (t ∷ h) wait e = ground (arith, waits now h wait)

-- The timers that are due are given out, all of them and no other, in the order of the heap; the rest
-- stay and are later than now, so that the next wait is not empty. Scheduling keeps the order.
pub pop_due_lem :
    (now at : ℕ) (kind : TimerKind) (heap : TimingWheel)
    → IsWheel heap
    → IsWheel (schedule at kind heap)
      × ((pop_due now heap).1 ≡ map (λ t. t.1) (retain (λ t. leb t.0 now) heap))
      × ((pop_due now heap).0 ≡ retain (λ t. not (leb t.0 now)) heap)
      × ((wait : ℕ) → next_timeout now (pop_due now heap).0 ≡ some wait → 0 < wait)
unfolding schedule
pop_due_lem now at kind heap v = (
  insert_sorted-IsSorted precedes precedes_total precedes_trans (at, kind) heap v,
  (popped now heap v).0,
  (popped now heap v).1,
  waits now heap,
)
