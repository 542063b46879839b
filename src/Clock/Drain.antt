-- ===== src/Clock/Drain.antt =====
-- When the scheduler of src/side_effects_lab/clock.py raises, and what a caller gets who pops it empty.
use side_effects_lab.Prelude.{
  ℕ, zero, suc, ◌≤◌, ◌<◌, ◌≡◌, ◌↔◌, map, inl, inr, refl, ap, Option, some, List, [], ◌∷◌, ltb,
  length, All, arith, Bool-cases,
}
use side_effects_lab.Prelude.Int.{pos, negsuc}
use side_effects_lab.Prelude.Result.{Error, runtime_error}
use side_effects_lab.Prelude.Exec.{Outcome, returned, raised, pure, ◌>>=◌}
use side_effects_lab.Clock.Time.{
  Argument, int, other_object, strict_non_negative_int, LogicalClock, advance_to,
}
use side_effects_lab.Clock.Scheduler.{
  ScheduledItem, DeterministicScheduler, on_clock, schedule_at, schedule_after, pop_from, pop_next,
  new_scheduler, SchedulerAction,
}
use side_effects_lab.Clock.Order.{Precedes, Ordered, IsValid, IsCurrent, All-heappush}
use side_effects_lab.Clock.Calls.{Pops, pop_next-Pops}
use side_effects_lab.Clock.Runs.{
  Command, schedule_at_call, schedule_after_call, pop_call, advance_call, advance_to_call, execute,
  execute_all, execute-IsValid,
}
use mathlib.Core.List.{Memᴰ}

module _ {T : Type 0} where
  abbrev Raises : Outcome Error (Option (ScheduledItem T)) × DeterministicScheduler T → Type 0
  Raises out = (e : Error) × (out.0 ≡ raised e)

  abbrev Overdue : DeterministicScheduler T → List (ScheduledItem T) → Type 0
  Overdue s q = (x : ScheduledItem T) × Memᴰ x q × (x.tick < s.clock.tick)

  least_tick :
      (x y : ScheduledItem T) (xs : List (ScheduledItem T))
      → All (Precedes x) xs
      → Memᴰ y xs
      → x.tick ≤ y.tick
  least_tick x y [] h m = elim m [ ]
  least_tick x y (z ∷ zs) h (Memᴰ.head e) = rw e (ground (arith, h.0))
  least_tick x y (z ∷ zs) h (Memᴰ.tail m) = least_tick x y zs h.1 m

  head_least :
      (x y : ScheduledItem T) (xs : List (ScheduledItem T))
      → Ordered (x ∷ xs)
      → Memᴰ y (x ∷ xs)
      → x.tick ≤ y.tick
  head_least x y xs o (Memᴰ.head e) = rw e (omega arith)
  head_least x y xs o (Memᴰ.tail m) = least_tick x y xs o.0 m

  Raises-of :
      (q : List (ScheduledItem T)) (s : DeterministicScheduler T)
      (out : Outcome Error (Option (ScheduledItem T)) × DeterministicScheduler T)
      → Pops s q out
      → Ordered q
      → Raises out ↔ Overdue s q
  Raises-of [] s out is o = ((λ h. cc), (λ h. elim h.1 [ ]))
  Raises-of (x ∷ xs) s out (inl (past, is)) o =
      ((λ h. (x, Memᴰ.head refl, past)), (λ h. (runtime_error, ap (λ r. r.0) is)))
  Raises-of (x ∷ xs) s out (inr (ahead, is)) o =
      ((λ h. cc), (λ h. absurd (omega (arith, head_least x h.0 xs o h.1, h.2))))

  -- `pop_next` raises exactly when some item in the queue is due before the clock's time, wherever in
  -- the queue it stands.
  pub pop_next-raises_iff :
      (s : DeterministicScheduler T)
      → IsValid s
      → ((e : Error) × ((pop_next s).0 ≡ raised e))
        ↔ ((x : ScheduledItem T) × Memᴰ x s.queue × (x.tick < s.clock.tick))
  pop_next-raises_iff s v = Raises-of s.queue s _ (pop_next-Pops s) v.ordered

  -- Pop `n` items.
  unfoldable pub pop_times : ℕ → SchedulerAction T (List (Option (ScheduledItem T)))
  pop_times zero = pure []
  pop_times (suc n) = do item ← pop_next; items ← pop_times n; pure (item ∷ items)

  -- The time of the last item, or the time before.
  abbrev pub last_tick : ℕ → List (ScheduledItem T) → ℕ
  last_tick now [] = now
  last_tick now (x ∷ xs) = last_tick x.tick xs

  weaken :
      (x : ScheduledItem T) (xs : List (ScheduledItem T))
      → All (Precedes x) xs
      → All (λ y. x.tick ≤ y.tick) xs
  weaken x [] h = tt
  weaken x (y ∷ ys) h = (ground (arith, h.0), weaken x ys h.1)

  pop_next_head :
      (x : ScheduledItem T) (xs : List (ScheduledItem T)) (s : DeterministicScheduler T)
      → s.queue ≡ x ∷ xs
      → s.clock.tick ≤ x.tick
      → pop_next s ≡ (returned (some x), record s { clock = record { tick = x.tick }; queue = xs })
  unfolding pop_next pop_from advance_to on_clock strict_non_negative_int
  pop_next_head x xs s e h = rw e (ground arith)

  pop_times-All :
      (q : List (ScheduledItem T)) (s : DeterministicScheduler T)
      → s.queue ≡ q
      → Ordered q
      → All (λ x. s.clock.tick ≤ x.tick) q
      → pop_times (length q) s ≡ (
        returned (map some q),
        record s { clock = record { tick = last_tick s.clock.tick q }; queue = [] },
      )
  unfolding pop_times
  pop_times-All [] s e o h = ground arith
  pop_times-All (x ∷ xs) s e o h = rw (pop_next_head x xs s e h.0) (
      rw
        (pop_times-All xs (record s { clock = record { tick = x.tick }; queue = xs }) refl o.1
          (weaken x xs o.0))
        refl)

  -- The calls of the scheduler itself, and not of the clock behind its back.
  abbrev pub IsOwn : Command T → Type 0
  IsOwn (schedule_at_call t p) = Unit
  IsOwn (schedule_after_call t p) = Unit
  IsOwn pop_call = Unit
  IsOwn (advance_call a) = ⊥
  IsOwn (advance_to_call a) = ⊥

  schedule_at-IsCurrent :
      (t : Argument) (p : T) (s : DeterministicScheduler T)
      → IsCurrent s
      → IsCurrent (schedule_at t p s).1
  unfolding schedule_at
  schedule_at-IsCurrent other_object p s h = h
  schedule_at-IsCurrent (int (negsuc n)) p s h = h
  schedule_at-IsCurrent (int (pos t)) p s h = elim (Bool-cases (ltb t s.clock.tick)) [
    | inl past ↦ rw past h
    | inr ahead ↦ rw ahead (All-heappush _ _ s.queue (ground arith) h)
  ]

  schedule_after-IsCurrent :
      (t : Argument) (p : T) (s : DeterministicScheduler T)
      → IsCurrent s
      → IsCurrent (schedule_after t p s).1
  unfolding schedule_after
  schedule_after-IsCurrent other_object p s h = h
  schedule_after-IsCurrent (int (negsuc n)) p s h = h
  schedule_after-IsCurrent (int (pos n)) p s h = schedule_at-IsCurrent _ p s h

  popped-IsCurrent :
      (q : List (ScheduledItem T)) (s : DeterministicScheduler T)
      (out : Outcome Error (Option (ScheduledItem T)) × DeterministicScheduler T)
      → Pops s q out
      → Ordered q
      → IsCurrent s
      → IsCurrent out.1
  popped-IsCurrent [] s out is o h = rw is h
  popped-IsCurrent (x ∷ xs) s out (inl (past, is)) o h = rw is h
  popped-IsCurrent (x ∷ xs) s out (inr (ahead, is)) o h = rw is (weaken x xs o.0)

  execute-IsCurrent :
      (c : Command T) (s : DeterministicScheduler T)
      → IsOwn c
      → IsValid s
      → IsCurrent s
      → IsCurrent (execute c s)
  unfolding execute
  execute-IsCurrent (schedule_at_call t p) s own v h = schedule_at-IsCurrent t p s h
  execute-IsCurrent (schedule_after_call t p) s own v h = schedule_after-IsCurrent t p s h
  execute-IsCurrent pop_call s own v h = popped-IsCurrent s.queue s _ (pop_next-Pops s) v.ordered h
  execute-IsCurrent (advance_call a) s own v h = absurd own
  execute-IsCurrent (advance_to_call a) s own v h = absurd own

  execute_all-IsCurrent :
      (cs : List (Command T)) (s : DeterministicScheduler T)
      → All IsOwn cs
      → IsValid s
      → IsCurrent s
      → IsValid (execute_all cs s) × IsCurrent (execute_all cs s)
  unfolding execute_all
  execute_all-IsCurrent [] s own v h = (v, h)
  execute_all-IsCurrent (c ∷ cs) s own v h =
      execute_all-IsCurrent cs (execute c s) own.1 (execute-IsValid c s v)
        (execute-IsCurrent c s own.0 v h)

  own_run :
      (cs : List (Command T)) (clock : LogicalClock)
      → All IsOwn cs
      → IsValid (execute_all cs (new_scheduler clock))
        × IsCurrent (execute_all cs (new_scheduler clock))
  unfolding new_scheduler
  own_run cs clock own =
      execute_all-IsCurrent cs (new_scheduler clock) own (record { ordered = tt; below = tt }) tt

  -- If after the scheduler was made only its own methods moved its clock, popping it as often as it
  -- holds items never raises, returns them all in the order of the queue, empties it and leaves the
  -- clock at the time of the last one.
  pub drain_in_order :
      (cs : List (Command T)) (clock : LogicalClock)
      → All IsOwn cs
      → let s = execute_all cs (new_scheduler clock) in
        pop_times (length s.queue) s ≡ (
          returned (map some s.queue),
          record s { clock = record { tick = last_tick s.clock.tick s.queue }; queue = [] },
        )
  drain_in_order cs clock own =
      let (v, h) = own_run cs clock own in pop_times-All _ _ refl v.ordered h
