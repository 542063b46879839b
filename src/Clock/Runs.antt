-- ===== src/Clock/Runs.antt =====
-- Sequences of calls of the scheduler of src/side_effects_lab/clock.py and of the clock that it shares.
use side_effects_lab.Prelude.{
  ◌≤◌, ◌≡◌, inl, inr, refl, Option, List, [], ◌∷◌, ltb, arith, Bool-cases,
}
use side_effects_lab.Prelude.Int.{pos, negsuc}
use side_effects_lab.Prelude.Result.{Error}
use side_effects_lab.Prelude.Exec.{Outcome}
use side_effects_lab.Clock.Time.{
  Argument, int, other_object, strict_non_negative_int, LogicalClock, advance, advance_to,
}
use side_effects_lab.Clock.Scheduler.{
  ScheduledItem, DeterministicScheduler, on_clock, schedule_at, schedule_after, pop_next,
  new_scheduler,
}
use side_effects_lab.Clock.Order.{Ordered, Below, IsValid}
use side_effects_lab.Clock.Calls.{Pops, schedule_at-IsValid, schedule_after-IsValid, pop_next-Pops}

-- A call of the scheduler, or of the shared clock by its owner.
pub data Command (T : Type 0) : Type 0 where
  schedule_at_call : Argument → T → Command T
  schedule_after_call : Argument → T → Command T
  pop_call : Command T
  advance_call : Argument → Command T
  advance_to_call : Argument → Command T

-- The clock after a call of `advance` or `advance_to` is not behind the clock before it.
advance_grows : (a : Argument) (c : LogicalClock) → c.tick ≤ (advance a c).1.tick
unfolding advance
advance_grows a c = ground arith

advance_to_grows : (a : Argument) (c : LogicalClock) → c.tick ≤ (advance_to a c).1.tick
unfolding advance_to strict_non_negative_int
advance_to_grows a c = ground arith

module _ {T : Type 0} where
  -- The scheduler after a call, which may have raised.
  unfoldable pub execute : Command T → DeterministicScheduler T → DeterministicScheduler T
  unfolding on_clock
  execute (schedule_at_call t p) s = (schedule_at t p s).1
  execute (schedule_after_call t p) s = (schedule_after t p s).1
  execute pop_call s = (pop_next s).1
  execute (advance_call a) s = (on_clock (advance a) s).1
  execute (advance_to_call a) s = (on_clock (advance_to a) s).1

  unfoldable pub execute_all :
      List (Command T) → DeterministicScheduler T → DeterministicScheduler T
  execute_all [] s = s
  execute_all (c ∷ cs) s = execute_all cs (execute c s)

  popped-IsValid :
      (q : List (ScheduledItem T)) (s : DeterministicScheduler T)
      (out : Outcome Error (Option (ScheduledItem T)) × DeterministicScheduler T)
      → Pops s q out
      → Ordered q
      → Below s.next_ordinal q
      → IsValid s
      → IsValid out.1
  popped-IsValid [] s out is o b v = rw is v
  popped-IsValid (x ∷ xs) s out (inl (past, is)) o b v = rw is v
  popped-IsValid (x ∷ xs) s out (inr (ahead, is)) o b v =
      rw is (record { ordered = o.1; below = b.1 })

  pub execute-IsValid :
      (c : Command T) (s : DeterministicScheduler T) → IsValid s → IsValid (execute c s)
  unfolding execute
  execute-IsValid (schedule_at_call t p) s v = schedule_at-IsValid t p s v
  execute-IsValid (schedule_after_call t p) s v = schedule_after-IsValid t p s v
  execute-IsValid pop_call s v = popped-IsValid s.queue s _ (pop_next-Pops s) v.ordered v.below v
  execute-IsValid (advance_call a) s v = record { ordered = v.ordered; below = v.below }
  execute-IsValid (advance_to_call a) s v = record { ordered = v.ordered; below = v.below }

  execute_all-IsValid :
      (cs : List (Command T)) (s : DeterministicScheduler T)
      → IsValid s
      → IsValid (execute_all cs s)
  unfolding execute_all
  execute_all-IsValid [] s v = v
  execute_all-IsValid (c ∷ cs) s v = execute_all-IsValid cs (execute c s) (execute-IsValid c s v)

  schedule_at_clock :
      (t : Argument) (p : T) (s : DeterministicScheduler T) → (schedule_at t p s).1.clock ≡ s.clock
  unfolding schedule_at
  schedule_at_clock other_object p s = refl
  schedule_at_clock (int (negsuc n)) p s = refl
  schedule_at_clock (int (pos t)) p s = elim (Bool-cases (ltb t s.clock.tick)) [
    | inl past ↦ rw past
    | inr ahead ↦ rw ahead
  ]

  schedule_after_clock :
      (t : Argument) (p : T) (s : DeterministicScheduler T)
      → (schedule_after t p s).1.clock ≡ s.clock
  unfolding schedule_after
  schedule_after_clock other_object p s = refl
  schedule_after_clock (int (negsuc n)) p s = refl
  schedule_after_clock (int (pos t)) p s = schedule_at_clock _ p s

  popped_clock :
      (q : List (ScheduledItem T)) (s : DeterministicScheduler T)
      (out : Outcome Error (Option (ScheduledItem T)) × DeterministicScheduler T)
      → Pops s q out
      → s.clock.tick ≤ out.1.clock.tick
  popped_clock [] s out is = rw is (omega arith)
  popped_clock (x ∷ xs) s out (inl (past, is)) = rw is (omega arith)
  popped_clock (x ∷ xs) s out (inr (ahead, is)) = rw is ahead

  execute_clock :
      (c : Command T) (s : DeterministicScheduler T) → s.clock.tick ≤ (execute c s).clock.tick
  unfolding execute
  execute_clock (schedule_at_call t p) s = rw (schedule_at_clock t p s) (omega arith)
  execute_clock (schedule_after_call t p) s = rw (schedule_after_clock t p s) (omega arith)
  execute_clock pop_call s = popped_clock s.queue s _ (pop_next-Pops s)
  execute_clock (advance_call a) s = advance_grows a s.clock
  execute_clock (advance_to_call a) s = advance_to_grows a s.clock

  -- Logical time never goes back: whatever calls are made of the scheduler and of its clock, and
  -- whether they return or raise, the clock is not behind where it was.
  pub execute_all_clock :
      (cs : List (Command T)) (s : DeterministicScheduler T)
      → s.clock.tick ≤ (execute_all cs s).clock.tick
  unfolding execute_all
  execute_all_clock [] s = omega arith
  execute_all_clock (c ∷ cs) s =
      omega (arith, execute_clock c s, execute_all_clock cs (execute c s))

  -- After any calls on a new scheduler and its clock, the queue is in order of tick and ordinal, with
  -- every ordinal in it handed out before.
  pub scheduler-IsValid :
      (cs : List (Command T)) (clock : LogicalClock)
      → IsValid (execute_all cs (new_scheduler clock))
  unfolding new_scheduler
  scheduler-IsValid cs clock =
      execute_all-IsValid cs (new_scheduler clock) (record { ordered = tt; below = tt })
