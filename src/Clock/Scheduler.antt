-- ===== src/Clock/Scheduler.antt =====
-- `DeterministicScheduler` of src/side_effects_lab/clock.py. The clock is an object that the caller
-- shares, so it is a part of the state that the caller's own calls of the clock change too.
-- The standard library's heap is the list of its entries in order: `heappush` puts an entry into its
-- place, the entry at index 0 is the least, and `heappop` takes that. Entries are compared by tick and
-- ordinal; the payload would be compared only at equal ordinals, which never occur.
use side_effects_lab.Prelude.{
  ℕ, ◌+◌, Bool, ◌&&◌, ◌||◌, Option, none, some, List, [], ◌∷◌, ltb, ◌==◌, if◌then◌else◌,
}
use side_effects_lab.Prelude.Int.{pos}
use side_effects_lab.Prelude.Result.{Error, value_error, runtime_error}
use side_effects_lab.Prelude.Exec.{Exec, raise, pure, gets, modify, lift, ◌>>=◌, ◌>>◌}
use side_effects_lab.Clock.Time.{
  Argument, int, strict_non_negative_int, LogicalClock, ClockAction, advance_to,
}

pub record ScheduledItem (T : Type 0) : Type 0 where
  pub tick : ℕ
  pub ordinal : ℕ
  pub payload : T

pub record DeterministicScheduler (T : Type 0) : Type 0 where
  pub clock : LogicalClock
  pub next_ordinal : ℕ
  pub queue : List (ScheduledItem T)

abbrev pub SchedulerAction : Type 0 → Type 0 → Type 0
SchedulerAction T = Exec (DeterministicScheduler T) Error

module _ {T : Type 0} where
  -- `DeterministicScheduler.__init__` on a shared clock.
  unfoldable pub new_scheduler : LogicalClock → DeterministicScheduler T
  new_scheduler clock = record { clock = clock; next_ordinal = 0; queue = [] }

  -- `(a.tick, a.ordinal) < (b.tick, b.ordinal)`
  abbrev pub before : ScheduledItem T → ScheduledItem T → Bool
  before a b = ltb a.tick b.tick || (a.tick == b.tick && ltb a.ordinal b.ordinal)

  unfoldable pub heappush : ScheduledItem T → List (ScheduledItem T) → List (ScheduledItem T)
  heappush item [] = item ∷ []
  heappush item (x ∷ xs) = if before item x then item ∷ x ∷ xs else x ∷ heappush item xs

  -- A call on the shared clock, by the scheduler or by anyone else.
  unfoldable pub on_clock : {A : Type 0} → ClockAction A → SchedulerAction T A
  on_clock action s = let (r, c) = action s.clock in (r, record s { clock = c })

  -- `DeterministicScheduler.schedule_at`
  unfoldable pub schedule_at : Argument → T → SchedulerAction T (ScheduledItem T)
  unfolding strict_non_negative_int
  schedule_at tick payload = do
    scheduled_tick ← lift (strict_non_negative_int tick)
    now ← gets (λ s. s.clock.tick)
    if ltb scheduled_tick now then raise value_error else do
      ordinal ← gets (λ s. s.next_ordinal)
      let item : ScheduledItem T = record {
        tick = scheduled_tick;
        ordinal = ordinal;
        payload = payload;
      }
      modify (λ s. record s { next_ordinal = s.next_ordinal + 1; queue = heappush item s.queue })
      pure item

  -- `DeterministicScheduler.schedule_after`
  unfoldable pub schedule_after : Argument → T → SchedulerAction T (ScheduledItem T)
  unfolding strict_non_negative_int
  schedule_after delay payload = do
    offset ← lift (strict_non_negative_int delay)
    now ← gets (λ s. s.clock.tick)
    schedule_at (int (pos (now + offset))) payload

  unfoldable pub pop_from : List (ScheduledItem T) → SchedulerAction T (Option (ScheduledItem T))
  unfolding on_clock
  pop_from [] = pure none
  pop_from (item ∷ rest) = do
    now ← gets (λ s. s.clock.tick)
    if ltb item.tick now then raise runtime_error else do
      modify (λ s. record s { queue = rest })
      on_clock (advance_to (int (pos item.tick)))
      pure (some item)

  -- `DeterministicScheduler.pop_next`
  unfoldable pub pop_next : SchedulerAction T (Option (ScheduledItem T))
  unfolding pop_from
  pop_next = do queue ← gets (λ s. s.queue); pop_from queue
