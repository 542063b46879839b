-- ===== src/Clock/Unique.antt =====
-- The identifiers that `RunScopedIdAllocator` of src/side_effects_lab/clock.py hands out: they are valid, and
-- no two are the same.
use side_effects_lab.Prelude.{
  ℕ, ◌+◌, ◌≤◌, ◌<◌, ◌≡◌, ◌⊎◌, inl, inr, refl, true, false, ◌&&◌, Option, none, some, [], ◌∷◌, leb,
  length, length-append, arith, Bool-cases,
}
use side_effects_lab.Prelude.Result.{Error, value_error, type_error, overflow_error}
use side_effects_lab.Prelude.Exec.{Outcome, returned, raised}
use side_effects_lab.Text.{Text, is_lower, is_token_char, token, within}
use side_effects_lab.Text.Equality.{all-append}
use side_effects_lab.Text.Decimal.{decimal, decimal-length, decimal-token, decimal-token_chars}
use side_effects_lab.Models.Identifiers.{is_attempt_id, is_effect_id}
use side_effects_lab.Clock.Allocator.{
  max_counter, RunScopedIdAllocator, counter_of, set_counter, attempt_text, effect_text,
  next_attempt_id, next_effect_id,
}

short : (n : ℕ) → n ≤ max_counter → length (decimal n) ≤ 20
short n h = decimal-length 19 n (omega arith)

attempt_text_valid : (n : ℕ) → n ≤ max_counter → is_attempt_id (attempt_text n) ≡ true
unfolding is_attempt_id
attempt_text_valid n h = ground (arith, short n h, decimal-token n)

abbrev pub IsKind : Text → Type 0
IsKind s = (within 64 s ≡ true) × (token is_lower is_token_char s ≡ true)

effect_token :
    (kind : Text) (n : ℕ)
    → token is_lower is_token_char kind ≡ true
    → token is_lower is_token_char (effect_text kind n) ≡ true
unfolding token
effect_token [] n h = cc
effect_token (c ∷ kind) n h =
    ground (arith, all-append is_token_char kind (b'-' ∷ decimal n), decimal-token_chars n)

effect_text_valid :
    (kind : Text) (n : ℕ) → IsKind kind → n ≤ max_counter → is_effect_id (effect_text kind n) ≡ true
unfolding is_effect_id within
effect_text_valid kind n k h =
    ground (arith, length-append kind (b'-' ∷ decimal n), short n h, effect_token kind n k.1)

-- `next_attempt_id` fails only when its counter is exhausted, and then changes nothing. Otherwise it
-- counts on by one and returns the valid identifier of the new count.
pub next_attempt_id_total :
    (a : RunScopedIdAllocator)
    → ((max_counter ≤ a.attempt_counter) × (next_attempt_id a ≡ (raised overflow_error, a)))
      ⊎ ((a.attempt_counter < max_counter)
          × (next_attempt_id a ≡ (
            returned (attempt_text (a.attempt_counter + 1)),
            record a { attempt_counter = a.attempt_counter + 1 },
          ))
          × (is_attempt_id (attempt_text (a.attempt_counter + 1)) ≡ true))
unfolding next_attempt_id
next_attempt_id_total a = elim (Bool-cases (leb max_counter a.attempt_counter)) [
  | inl full ↦ inl (ground arith, rw full)
  | inr room ↦
      let good : is_attempt_id (attempt_text (a.attempt_counter + 1)) ≡ true =
        attempt_text_valid (a.attempt_counter + 1) (ground arith) in
      inr (ground arith, rw (room, good), good)
]

-- Every way in which `next_effect_id` ends.
abbrev pub Allocates :
    Option Text → RunScopedIdAllocator → Outcome Error Text × RunScopedIdAllocator → Type 0
Allocates none a out = out ≡ (raised type_error, a)
Allocates (some kind) a out =
    ((¬ IsKind kind) × (out ≡ (raised value_error, a)))
    ⊎ (IsKind kind
        × (max_counter ≤ counter_of kind a.effect_counters)
        × (out ≡ (raised overflow_error, a)))
    ⊎ (IsKind kind
        × (counter_of kind a.effect_counters < max_counter)
        × (let n = counter_of kind a.effect_counters + 1 in
            (is_effect_id (effect_text kind n) ≡ true)
            × (out ≡ (
              returned (effect_text kind n),
              record a { effect_counters = set_counter kind n a.effect_counters },
            ))))

Kind-cases :
    (s : Text)
    → (((within 64 s && token is_lower is_token_char s) ≡ true) × IsKind s)
      ⊎ (((within 64 s && token is_lower is_token_char s) ≡ false) × (¬ IsKind s))
Kind-cases s = ground arith

-- `next_effect_id`, on every branch: an argument that is no text, or is no effect kind, is refused, as
-- is a kind whose counter is exhausted, and then nothing changes. Otherwise the counter of this kind
-- goes up by one, and the valid identifier of the kind and the new count is returned.
pub next_effect_id-Allocates :
    (k : Option Text) (a : RunScopedIdAllocator) → Allocates k a (next_effect_id k a)
unfolding next_effect_id
next_effect_id-Allocates none a = refl
next_effect_id-Allocates (some kind) a = elim (Kind-cases kind) [
  | inr (bad, not_kind) ↦ inl (not_kind, rw bad)
  | inl (good, is_kind) ↦
      inr (elim (Bool-cases (leb max_counter (counter_of kind a.effect_counters))) [
        | inl full ↦ inl (is_kind, ground arith, rw (good, full))
        | inr room ↦
            let valid : is_effect_id (effect_text kind (counter_of kind a.effect_counters + 1))
                ≡ true =
              effect_text_valid kind (counter_of kind a.effect_counters + 1) is_kind
                (ground arith) in
            inr (is_kind, ground arith, (valid, rw (good, room, valid)))
      ])
]
