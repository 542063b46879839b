-- ===== src/Models/Events.antt =====
-- Events and claims of src/side_effects_lab/models.py: the kinds, and the validation of a record whose
-- fields have their types.
use side_effects_lab.Prelude.{String, Option}
use side_effects_lab.Prelude.Int.{ℤ}
use side_effects_lab.Prelude.Result.{Result, ok, require, validation_error, ◌>>=◌, ◌>>◌}
use side_effects_lab.Text.{codes}
use side_effects_lab.Models.Bounds.{is_non_negative, is_positive, is_optional}
use side_effects_lab.Models.Identifiers.{
  is_action_id, is_attempt_id, is_operation_key, is_effect_id, is_digest, is_authority_id,
  is_workflow_id, is_fault_id,
}
use side_effects_lab.Models.Values.{frozen_map, Fields, parameter_map}

pub data EventKind : Type 0 where
  action_proposed authority_checked operation_prepared attempt_dispatched attempt_delivered
        effect_committed effect_rejected response_returned response_dropped response_timed_out
        response_errored response_mutated read_observed tool_schema_observed visibility_changed
        concurrent_change_applied fault_fired state_transition claim_recorded containment_blocked :
      EventKind

pub data ClaimStatus : Type 0 where
  complete blocked partial : ClaimStatus

-- `evidence` holds the fields of a `FrozenMap`.
pub record LabEvent : Type 0 where
  pub seq : ℤ
  pub tick : ℤ
  pub kind : EventKind
  pub action_id : Option String
  pub attempt_id : Option String
  pub operation_key : Option String
  pub effect_id : Option String
  pub intent_digest : Option String
  pub authority_id : Option String
  pub workflow_id : Option String
  pub fault_id : Option String
  pub evidence : Fields

-- `LabEvent.model_validate`
unfoldable pub lab_event : LabEvent → Result LabEvent
lab_event e = do
  require (is_positive e.seq) validation_error
  require (is_non_negative e.tick) validation_error
  require (is_optional is_action_id e.action_id) validation_error
  require (is_optional is_attempt_id e.attempt_id) validation_error
  require (is_optional is_operation_key e.operation_key) validation_error
  require (is_optional is_effect_id e.effect_id) validation_error
  require (is_optional is_digest e.intent_digest) validation_error
  require (is_optional is_authority_id e.authority_id) validation_error
  require (is_optional is_workflow_id e.workflow_id) validation_error
  require (is_optional is_fault_id e.fault_id) validation_error
  evidence ← parameter_map (frozen_map e.evidence)
  ok (record e { evidence = evidence })

pub record ActionClaim : Type 0 where
  pub action_id : String
  pub status : ClaimStatus
  pub effect_id : Option String

-- `ActionClaim.model_validate`
unfoldable pub action_claim : ActionClaim → Result ActionClaim
action_claim c = do
  require (is_action_id (codes c.action_id)) validation_error
  require (is_optional is_effect_id c.effect_id) validation_error
  ok c
