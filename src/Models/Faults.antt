-- ===== src/Models/Faults.antt =====
-- Faults of src/side_effects_lab/models.py: their triggers, their schedules of visibility, and the
-- validation of each from a dict of its fields, so that a trigger and a step are validated as well.
use side_effects_lab.Prelude.{
  String, Bool, true, false, ◌&&◌, Option, none, some, List, [], ◌∷◌, map, all, if◌then◌else◌,
}
use side_effects_lab.Prelude.Int.{ℤ, eq_ℤ, ltb_ℤ}
use side_effects_lab.Prelude.Result.{Result, ok, require, validation_error, ◌>>=◌, ◌>>◌}
use side_effects_lab.Text.{codes}
use side_effects_lab.Models.Bounds.{is_non_negative, is_positive}
use side_effects_lab.Models.Identifiers.{is_fault_id, is_service_name, is_operation_name}
use side_effects_lab.Models.Events.{EventKind}

pub data CommitPosition : Type 0 where
  before_commit after_commit_before_response on_read : CommitPosition

pub data StateEffect : Type 0 where
  commit reject delay duplicate_delivery concurrent_change : StateEffect

pub data ResponseEffect : Type 0 where
  return drop timeout error mutate : ResponseEffect

pub record FaultTrigger : Type 0 where
  pub service : String
  pub operation : String
  pub call_ordinal : Option ℤ
  pub event_kind : Option EventKind

-- `require_one_selector`: `(call_ordinal is None) == (event_kind is None)` raises.
unfoldable pub one_selector : Option ℤ → Option EventKind → Bool
one_selector none none = false
one_selector none (some k) = true
one_selector (some n) none = true
one_selector (some n) (some k) = false

abbrev pub ordinal_fits : Option ℤ → Bool
ordinal_fits none = true
ordinal_fits (some n) = is_positive n

-- `FaultTrigger.model_validate`
unfoldable pub fault_trigger : FaultTrigger → Result FaultTrigger
unfolding one_selector
fault_trigger t = do
  require (is_service_name (codes t.service)) validation_error
  require (is_operation_name (codes t.operation)) validation_error
  require (ordinal_fits t.call_ordinal) validation_error
  require (one_selector t.call_ordinal t.event_kind) validation_error
  ok t

pub record VisibilityStep : Type 0 where
  pub tick : ℤ
  pub visible_revision : ℤ

-- The fields of a `VisibilityStep` in their bounds.
unfoldable pub visibility_step : VisibilityStep → Bool
visibility_step s = is_non_negative s.tick && is_non_negative s.visible_revision

pub record FaultSpec : Type 0 where
  pub fault_id : String
  pub trigger : FaultTrigger
  pub commit_position : CommitPosition
  pub state_effect : StateEffect
  pub response_effect : ResponseEffect
  pub visibility_schedule : List VisibilityStep
  pub required : Bool
  pub seed : ℤ

-- One more element of a sorted set.
unfoldable pub insert_tick : ℤ → List ℤ → List ℤ
insert_tick x [] = x ∷ []
insert_tick x (y ∷ ys) =
    let rest = insert_tick x ys in
    if ltb_ℤ x y then x ∷ y ∷ ys else if eq_ℤ x y then y ∷ ys else y ∷ rest

-- `sorted(set(ticks))`
unfoldable pub sorted_set : List ℤ → List ℤ
unfolding insert_tick
sorted_set [] = []
sorted_set (x ∷ xs) = insert_tick x (sorted_set xs)

-- Equality of two lists of integers.
unfoldable pub same_ticks : List ℤ → List ℤ → Bool
same_ticks [] [] = true
same_ticks (x ∷ xs) (y ∷ ys) = eq_ℤ x y && same_ticks xs ys
same_ticks _ _ = false

-- `require_increasing_visibility_ticks`, of the ticks.
unfoldable pub increasing_ticks : List ℤ → Bool
unfolding sorted_set same_ticks
increasing_ticks ticks = same_ticks ticks (sorted_set ticks)

-- `FaultSpec.model_validate`
unfoldable pub fault_spec : FaultSpec → Result FaultSpec
unfolding fault_trigger visibility_step increasing_ticks
fault_spec f = do
  require (is_fault_id (codes f.fault_id)) validation_error
  trigger ← fault_trigger f.trigger
  require (all visibility_step f.visibility_schedule) validation_error
  require (increasing_ticks (map (λ s. s.tick) f.visibility_schedule)) validation_error
  require (is_non_negative f.seed) validation_error
  ok (record f { trigger = trigger })
