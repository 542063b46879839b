-- ===== src/Clock/Calls.antt =====
-- What a call of the scheduler of src/side_effects_lab/clock.py does, and what calls keep.
use side_effects_lab.Prelude.{
  ℕ, ◌+◌, ◌≤◌, ◌<◌, ◌≡◌, ◌⊎◌, inl, inr, refl, Option, none, some, List, [], ◌∷◌, ◌++◌, ltb, arith,
  Bool-cases,
}
use side_effects_lab.Prelude.Int.{pos, negsuc}
use side_effects_lab.Prelude.Result.{Error, type_error, value_error, runtime_error}
use side_effects_lab.Prelude.Exec.{Outcome, returned, raised}
use side_effects_lab.Clock.Time.{Argument, int, other_object, strict_non_negative_int, advance_to}
use side_effects_lab.Clock.Scheduler.{
  ScheduledItem, DeterministicScheduler, on_clock, schedule_at, schedule_after, pop_from, pop_next,
}
use side_effects_lab.Clock.Order.{
  IsValid, due_by, due_after, heappush_stable, heappush-Ordered, All-heappush, Below-suc,
}

module _ {T : Type 0} where
  -- The item that a call of `schedule_at` makes.
  abbrev pub item_at : ℕ → T → DeterministicScheduler T → ScheduledItem T
  item_at t p s = record { tick = t; ordinal = s.next_ordinal; payload = p }

  -- Every way in which `schedule_at` ends.
  abbrev pub Schedules :
      Argument
      → T
      → DeterministicScheduler T
      → Outcome Error (ScheduledItem T) × DeterministicScheduler T
      → Type 0
  Schedules other_object p s out = out ≡ (raised type_error, s)
  Schedules (int (negsuc n)) p s out = out ≡ (raised value_error, s)
  Schedules (int (pos t)) p s out =
      ((t < s.clock.tick) × (out ≡ (raised value_error, s)))
      ⊎ ((s.clock.tick ≤ t)
          × (out ≡ (
            returned (item_at t p s),
            record s {
              next_ordinal = s.next_ordinal + 1;
              queue = due_by t s.queue ++ item_at t p s ∷ due_after t s.queue;
            },
          )))

  -- `schedule_at`, on every branch: a tick that is no integer or is negative, or one in the past, is
  -- refused and changes nothing. Any other is given the next ordinal and put behind all items that
  -- are due by that tick, in front of all that are due later.
  pub schedule_at-Schedules :
      (t : Argument) (p : T) (s : DeterministicScheduler T)
      → IsValid s
      → Schedules t p s (schedule_at t p s)
  unfolding schedule_at
  schedule_at-Schedules other_object p s v = refl
  schedule_at-Schedules (int (negsuc n)) p s v = refl
  schedule_at-Schedules (int (pos t)) p s v = elim (Bool-cases (ltb t s.clock.tick)) [
    | inl past ↦ inl (ground arith, rw past)
    | inr ahead ↦
        inr (ground arith, rw (ahead, heappush_stable (item_at t p s) s.queue v.ordered v.below))
  ]

  pub schedule_at-IsValid :
      (t : Argument) (p : T) (s : DeterministicScheduler T)
      → IsValid s
      → IsValid (schedule_at t p s).1
  unfolding schedule_at
  schedule_at-IsValid other_object p s v = v
  schedule_at-IsValid (int (negsuc n)) p s v = v
  schedule_at-IsValid (int (pos t)) p s v = elim (Bool-cases (ltb t s.clock.tick)) [
    | inl past ↦ rw past v
    | inr ahead ↦ rw ahead (record {
      ordered = heappush-Ordered _ s.queue v.ordered v.below;
      below = All-heappush _ _ s.queue (omega arith) (Below-suc s.next_ordinal s.queue v.below);
    })
  ]

  pub schedule_after-IsValid :
      (t : Argument) (p : T) (s : DeterministicScheduler T)
      → IsValid s
      → IsValid (schedule_after t p s).1
  unfolding schedule_after
  schedule_after-IsValid other_object p s v = v
  schedule_after-IsValid (int (negsuc n)) p s v = v
  schedule_after-IsValid (int (pos n)) p s v = schedule_at-IsValid _ p s v

  -- Every way in which `pop_next` ends.
  abbrev pub Pops :
      DeterministicScheduler T
      → List (ScheduledItem T)
      → Outcome Error (Option (ScheduledItem T)) × DeterministicScheduler T
      → Type 0
  Pops s [] out = out ≡ (returned none, s)
  Pops s (x ∷ xs) out =
      ((x.tick < s.clock.tick) × (out ≡ (raised runtime_error, s)))
      ⊎ ((s.clock.tick ≤ x.tick)
          × (out ≡ (returned (some x), record s { clock = record { tick = x.tick }; queue = xs })))

  pop_from-Pops :
      (q : List (ScheduledItem T)) (s : DeterministicScheduler T) → Pops s q (pop_from q s)
  unfolding pop_from advance_to on_clock strict_non_negative_int
  pop_from-Pops [] s = refl
  pop_from-Pops (x ∷ xs) s = elim (Bool-cases (ltb x.tick s.clock.tick)) [
    | inl past ↦ inl (ground arith, rw past)
    | inr ahead ↦ inr (ground arith, rw (ahead, ahead))
  ]

  pub pop_next-Pops : (s : DeterministicScheduler T) → Pops s s.queue (pop_next s)
  unfolding pop_next
  pop_next-Pops s = pop_from-Pops s.queue s
