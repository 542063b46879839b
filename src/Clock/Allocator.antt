-- ===== src/Clock/Allocator.antt =====
-- `RunScopedIdAllocator` of src/side_effects_lab/clock.py. The texts that it makes are lists of code
-- points.
use side_effects_lab.Prelude.{
  ℕ, ◌+◌, ◌-◌, ◌^◌, Bool, ◌&&◌, Option, none, some, List, [], ◌∷◌, ◌++◌, leb, if◌then◌else◌,
}
use side_effects_lab.Prelude.Result.{
  Error, Result, ok, err, value_error, type_error, validation_error, overflow_error,
}
use side_effects_lab.Prelude.Exec.{Exec, gets, modify, lift, ◌>>=◌, ◌>>◌}
use side_effects_lab.Text.{Text, codes, is_lower, is_token_char, token, within}
use side_effects_lab.Text.Equality.{text_eq}
use side_effects_lab.Text.Decimal.{decimal}
use side_effects_lab.Models.Identifiers.{is_run_id, is_attempt_id, is_effect_id}

-- `_MAX_COUNTER`
abbrev pub max_counter : ℕ
max_counter = 2 ^ 64 - 1

pub record RunScopedIdAllocator : Type 0 where
  pub run_id : Text
  pub attempt_counter : ℕ
  pub effect_counters : List (Text × ℕ)

-- `validate_python` of an adapter.
unfoldable pub validated : (Text → Bool) → Text → Result Text
validated valid s = if valid s then ok s else err validation_error

-- `RunScopedIdAllocator.__init__`
unfoldable pub new_allocator : Text → Result RunScopedIdAllocator
new_allocator run_id =
    if is_run_id run_id
    then ok (record { run_id = run_id; attempt_counter = 0; effect_counters = [] })
    else err validation_error

-- `dict.get(kind, 0)`
unfoldable pub counter_of : Text → List (Text × ℕ) → ℕ
counter_of kind [] = 0
counter_of kind ((k, n) ∷ rest) = if text_eq k kind then n else counter_of kind rest

-- `dict[kind] = n`
unfoldable pub set_counter : Text → ℕ → List (Text × ℕ) → List (Text × ℕ)
set_counter kind n [] = (kind, n) ∷ []
set_counter kind n ((k, m) ∷ rest) =
    if text_eq k kind then (k, n) ∷ rest else (k, m) ∷ set_counter kind n rest

-- `_next_counter`
unfoldable pub next_counter : ℕ → Result ℕ
next_counter current = if leb max_counter current then err overflow_error else ok (current + 1)

-- `_validate_effect_kind`: `none` is an argument that is no text.
unfoldable pub validate_effect_kind : Option Text → Result Text
validate_effect_kind none = err type_error
validate_effect_kind (some s) =
    if within 64 s && token is_lower is_token_char s then ok s else err value_error

abbrev pub attempt_text : ℕ → Text
attempt_text n = codes "attempt-" ++ decimal n

abbrev pub effect_text : Text → ℕ → Text
effect_text kind n = kind ++ b'-' ∷ decimal n

abbrev pub AllocatorAction : Type 0 → Type 0
AllocatorAction = Exec RunScopedIdAllocator Error

-- `RunScopedIdAllocator.next_attempt_id`
unfoldable pub next_attempt_id : AllocatorAction Text
unfolding next_counter validated
next_attempt_id = do
  current ← gets (λ a. a.attempt_counter)
  counter ← lift (next_counter current)
  modify (λ a. record a { attempt_counter = counter })
  lift (validated is_attempt_id (attempt_text counter))

-- `RunScopedIdAllocator.next_effect_id`
unfoldable pub next_effect_id : Option Text → AllocatorAction Text
unfolding validate_effect_kind next_counter validated
next_effect_id effect_kind = do
  kind ← lift (validate_effect_kind effect_kind)
  current ← gets (λ a. counter_of kind a.effect_counters)
  counter ← lift (next_counter current)
  modify (λ a. record a { effect_counters = set_counter kind counter a.effect_counters })
  lift (validated is_effect_id (effect_text kind counter))
