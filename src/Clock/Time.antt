-- ===== src/Clock/Time.antt =====
-- The strict integers and `LogicalClock` of src/side_effects_lab/clock.py.
use side_effects_lab.Prelude.{ℕ, ◌+◌, ltb, ◌==◌, if◌then◌else◌}
use side_effects_lab.Prelude.Int.{ℤ, pos, negsuc}
use side_effects_lab.Prelude.Result.{Error, Result, ok, err, type_error, value_error}
use side_effects_lab.Prelude.Exec.{Exec, raise, gets, modify, lift, ◌>>=◌, ◌>>◌}

-- An argument of declared type `int`: Python lets a caller pass anything. A Boolean is an object of
-- another type, since `type(True) is bool`.
pub data Argument : Type 0 where
  int : ℤ → Argument
  other_object : Argument

-- `_strict_non_negative_int`
unfoldable pub strict_non_negative_int : Argument → Result ℕ
strict_non_negative_int other_object = err type_error
strict_non_negative_int (int (negsuc n)) = err value_error
strict_non_negative_int (int (pos n)) = ok n

-- `_strict_positive_int`
unfoldable pub strict_positive_int : Argument → Result ℕ
unfolding strict_non_negative_int
strict_positive_int value = positive (strict_non_negative_int value)
  where
    positive : Result ℕ → Result ℕ
    positive (err e) = err e
    positive (ok n) = if n == 0 then err value_error else ok n

pub record LogicalClock : Type 0 where
  pub tick : ℕ

unfoldable pub new_clock : LogicalClock
new_clock = record { tick = 0 }

abbrev pub ClockAction : Type 0 → Type 0
ClockAction = Exec LogicalClock Error

-- `LogicalClock.advance`
unfoldable pub advance : Argument → ClockAction ℕ
unfolding strict_positive_int
advance steps = do
  increment ← lift (strict_positive_int steps)
  modify (λ c. record c { tick = c.tick + increment })
  gets (λ c. c.tick)

-- `LogicalClock.advance_to`
unfoldable pub advance_to : Argument → ClockAction ℕ
unfolding strict_non_negative_int
advance_to tick = do
  target ← lift (strict_non_negative_int tick)
  now ← gets (λ c. c.tick)
  if ltb target now
      then raise value_error
      else do modify (λ c. record c { tick = target }); gets (λ c. c.tick)
