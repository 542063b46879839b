-- ===== src/Models/Revalidation.antt =====
-- Validating an event of src/side_effects_lab/models.py a second time, as the ledger does.
use side_effects_lab.Prelude.{true, ◌≡◌, refl, subst}
use side_effects_lab.Prelude.Result.{ok, validation_error, bind_ok, require_then, ok_injective}
use side_effects_lab.Models.Bounds.{is_non_negative, is_positive, is_optional}
use side_effects_lab.Models.Identifiers.{
  is_action_id, is_attempt_id, is_operation_key, is_effect_id, is_digest, is_authority_id,
  is_workflow_id, is_fault_id,
}
use side_effects_lab.Models.Values.{Fields, frozen_map, parameter_map}
use side_effects_lab.Models.Freezing.{parameter_map-frozen_map}
use side_effects_lab.Models.Events.{LabEvent, lab_event}

again :
    (e : LabEvent) (evidence : Fields)
    → is_positive e.seq ≡ true
    → is_non_negative e.tick ≡ true
    → is_optional is_action_id e.action_id ≡ true
    → is_optional is_attempt_id e.attempt_id ≡ true
    → is_optional is_operation_key e.operation_key ≡ true
    → is_optional is_effect_id e.effect_id ≡ true
    → is_optional is_digest e.intent_digest ≡ true
    → is_optional is_authority_id e.authority_id ≡ true
    → is_optional is_workflow_id e.workflow_id ≡ true
    → is_optional is_fault_id e.fault_id ≡ true
    → parameter_map (frozen_map evidence) ≡ ok evidence
    → lab_event (record e { evidence = evidence }) ≡ ok (record e { evidence = evidence })
unfolding lab_event
again e evidence b1 b2 b3 b4 b5 b6 b7 b8 b9 b10 accepted =
    rw (b1, b2, b3, b4, b5, b6, b7, b8, b9, b10, accepted) refl

pub lab_event_stable : (e v : LabEvent) → lab_event e ≡ ok v → lab_event v ≡ ok v
unfolding lab_event
lab_event_stable e v h =
    let (b1, h1) = require_then (is_positive e.seq) validation_error _ v h in
    let (b2, h2) = require_then (is_non_negative e.tick) validation_error _ v h1 in
    let (b3, h3) = require_then (is_optional is_action_id e.action_id) validation_error _ v h2 in
    let (b4, h4) = require_then (is_optional is_attempt_id e.attempt_id) validation_error _ v h3 in
    let (b5, h5) =
      require_then (is_optional is_operation_key e.operation_key) validation_error _ v h4 in
    let (b6, h6) = require_then (is_optional is_effect_id e.effect_id) validation_error _ v h5 in
    let (b7, h7) = require_then (is_optional is_digest e.intent_digest) validation_error _ v h6 in
    let (b8, h8) =
      require_then (is_optional is_authority_id e.authority_id) validation_error _ v h7 in
    let (b9, h9) =
      require_then (is_optional is_workflow_id e.workflow_id) validation_error _ v h8 in
    let (b10, h10) = require_then (is_optional is_fault_id e.fault_id) validation_error _ v h9 in
    let (evidence, accepted, h11) = bind_ok (parameter_map (frozen_map e.evidence)) _ v h10 in
    subst (λ x. lab_event x ≡ ok x) (ok_injective (record e { evidence = evidence }) v h11)
      (again e evidence b1 b2 b3 b4 b5 b6 b7 b8 b9 b10
        (parameter_map-frozen_map (frozen_map e.evidence) evidence accepted))
