-- ===== src/Clock/Tests.antt =====
-- Runs of src/side_effects_lab/clock.py, and the theorems at them.
use mathlib.Core.List.{Memᴰ}
use side_effects_lab.Prelude.{
  ◌+◌, ◌≤◌, ◌<◌, ◌≡◌, ◌⊎◌, ◌↔◌, refl, String, none, some, true, List, [], ◌∷◌, ◌++◌, map, length,
  NoRepeat,
}
use side_effects_lab.Prelude.Int.{pos}
use side_effects_lab.Prelude.Result.{Error, overflow_error, runtime_error}
use side_effects_lab.Prelude.Exec.{returned, raised}
use side_effects_lab.Text.{codes}
use side_effects_lab.Text.Decimal.{decimal}
use side_effects_lab.Text.Equality.{text_eq}
use side_effects_lab.Models.Identifiers.{is_attempt_id, is_effect_id}
use side_effects_lab.Clock.Time.{int, LogicalClock, advance_to}
use side_effects_lab.Clock.Scheduler.{
  ScheduledItem, new_scheduler, schedule_at, schedule_after, pop_next, heappush,
}
use side_effects_lab.Clock.Calls.{Schedules, schedule_at-Schedules}
use side_effects_lab.Clock.Runs.{
  Command, schedule_at_call, schedule_after_call, advance_to_call, execute_all, execute,
  execute_all_clock, scheduler-IsValid,
}
use side_effects_lab.Clock.Drain.{pop_next-raises_iff, pop_times, last_tick, drain_in_order}
use side_effects_lab.Clock.Allocator.{
  max_counter, RunScopedIdAllocator, next_attempt_id, next_effect_id, attempt_text, counter_of,
  set_counter,
}
use side_effects_lab.Clock.Unique.{next_attempt_id_total}
use side_effects_lab.Clock.Distinct.{
  Request, attempt_request, effect_request, attempt_ids_of, effect_ids_of, allocator_distinct,
}

abbrev start : LogicalClock
start = record { tick = 3 }

-- Two items at one time, one before them, and one in the past, which is refused.
abbrev plan : List (Command String)
plan =
    schedule_at_call (int (pos 9)) "first"
    ∷ schedule_at_call (int (pos 9)) "second"
    ∷ schedule_after_call (int (pos 2)) "soon"
    ∷ schedule_at_call (int (pos 1)) "past"
    ∷ []

plan_queue :
    map (λ x. x.payload) (execute_all plan (new_scheduler start)).queue
    ≡ "soon" ∷ "first" ∷ "second" ∷ []
unfolding execute_all execute new_scheduler schedule_at schedule_after advance_to heappush
plan_queue = refl

plan_pops :
    (pop_next (execute_all plan (new_scheduler start))).0
    ≡ returned (some (record { tick = 5; ordinal = 2; payload = "soon" }))
unfolding execute_all execute new_scheduler schedule_at schedule_after advance_to heappush pop_next
plan_pops = refl

schedule_at-Schedules_example :
    let s = execute_all plan (new_scheduler start) in
    Schedules (int (pos 9)) "third" s (schedule_at (int (pos 9)) "third" s)
schedule_at-Schedules_example =
    schedule_at-Schedules (int (pos 9)) "third" (execute_all plan (new_scheduler start))
      (scheduler-IsValid plan start)

execute_all_clock_example :
    (new_scheduler {T = String} start).clock.tick
    ≤ (execute_all plan (new_scheduler start)).clock.tick
execute_all_clock_example = execute_all_clock plan (new_scheduler start)

-- The owner of the clock moves it past an item.
abbrev overtaken : List (Command String)
overtaken = schedule_at_call (int (pos 4)) "late" ∷ advance_to_call (int (pos 8)) ∷ []

overtaken_raises : (pop_next (execute_all overtaken (new_scheduler start))).0 ≡ raised runtime_error
unfolding execute_all execute new_scheduler schedule_at schedule_after advance_to heappush pop_next
overtaken_raises = refl

pop_next-raises_iff_example :
    let s = execute_all overtaken (new_scheduler start) in
    ((e : Error) × ((pop_next s).0 ≡ raised e))
    ↔ ((x : ScheduledItem String) × Memᴰ x s.queue × (x.tick < s.clock.tick))
pop_next-raises_iff_example =
    pop_next-raises_iff (execute_all overtaken (new_scheduler start))
      (scheduler-IsValid overtaken start)

drain_in_order_example :
    let s = execute_all plan (new_scheduler start) in
    pop_times (length s.queue) s ≡ (
      returned (map some s.queue),
      record s { clock = record { tick = last_tick s.clock.tick s.queue }; queue = [] },
    )
drain_in_order_example = drain_in_order plan start (tt, (tt, (tt, (tt, tt))))

abbrev allocator : RunScopedIdAllocator
allocator = record {
  run_id = codes "run-1";
  attempt_counter = 41;
  effect_counters = (codes "mail", 2) ∷ [];
}

abbrev requests : List Request
requests =
    attempt_request
    ∷ effect_request (some (codes "mail"))
    ∷ effect_request (some (codes "mail-3"))
    ∷ effect_request none
    ∷ attempt_request
    ∷ []

requests_served :
    attempt_ids_of requests allocator ++ effect_ids_of requests allocator
    ≡ codes "attempt-42" ∷ codes "attempt-43" ∷ codes "mail-3" ∷ codes "mail-3-1" ∷ []
unfolding attempt_ids_of effect_ids_of next_attempt_id next_effect_id decimal is_attempt_id
    is_effect_id counter_of set_counter text_eq
requests_served = refl

next_attempt_id_total_example :
    let a = allocator in
    ((max_counter ≤ a.attempt_counter) × (next_attempt_id a ≡ (raised overflow_error, a)))
    ⊎ ((a.attempt_counter < max_counter)
        × (next_attempt_id a ≡ (
          returned (attempt_text (a.attempt_counter + 1)),
          record a { attempt_counter = a.attempt_counter + 1 },
        ))
        × (is_attempt_id (attempt_text (a.attempt_counter + 1)) ≡ true))
next_attempt_id_total_example = next_attempt_id_total allocator

allocator_distinct_example :
    NoRepeat (attempt_ids_of requests allocator) × NoRepeat (effect_ids_of requests allocator)
allocator_distinct_example = allocator_distinct requests allocator
