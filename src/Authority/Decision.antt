-- ===== src/Authority/Decision.antt =====
-- `AuthorityDecision` of src/side_effects_lab/authority.py and the checks of its constructor.
use mathlib.Core.Bool.{decide}
use side_effects_lab.Prelude.{Bool, true, false, ◌&&◌, Option, none, some, all, if◌then◌else◌}
use side_effects_lab.Prelude.Result.{Result, ok, err, require, value_error, ◌>>=◌, ◌>>◌}
use side_effects_lab.Text.{codes}
use side_effects_lab.Models.Values.{dict, Fields, parameter_map}
use side_effects_lab.StateMachine.Types.{
  OperationState, TransitionCause, authority_confirmed, safe_stop_selected, invariant_violation,
  OperationState-discrete, TransitionCause-discrete,
}
use side_effects_lab.StateMachine.Machine.{is_state, is_cause}
use side_effects_lab.Authority.Types.{
  AuthorityDisposition, disposition_value, AuthorityReason, reason_value, reason_precedence,
  reason_mem, AuthorityReason-discrete,
}
use side_effects_lab.Authority.Evidence.{
  evidence_keys, field_of, keys_known, has_field, rebuilt, is_text,
}

-- The transition that a decision names: both parts or none.
pub data Move : Type 0 where
  no_move : Move
  half_move : Move
  move : OperationState → TransitionCause → Move

pub record AuthorityDecision : Type 0 where
  pub disposition : AuthorityDisposition
  pub reason : AuthorityReason
  pub evidence : Fields
  pub target : Option OperationState
  pub cause : Option TransitionCause

-- The first tests of `__post_init__`: the pair of target and cause.
unfoldable pub move_of : Option OperationState → Option TransitionCause → Move
move_of none none = no_move
move_of (some s) (some c) = move s c
move_of _ _ = half_move

-- _PERMITTED_TRANSITIONS
unfoldable pub is_permitted : Move → Bool
is_permitted no_move = true
is_permitted (move OperationState.authorized authority_confirmed) = true
is_permitted (move OperationState.safe_stop safe_stop_selected) = true
is_permitted (move OperationState.violation invariant_violation) = true
is_permitted _ = false

-- _ALLOW_REASONS
unfoldable pub is_allow_reason : AuthorityReason → Bool
is_allow_reason AuthorityReason.authorized = true
is_allow_reason AuthorityReason.revalidated = true
is_allow_reason AuthorityReason.read_only_allowed = true
is_allow_reason _ = false

-- `reason in REASON_PRECEDENCE`
unfoldable pub is_defect_reason : AuthorityReason → Bool
unfolding reason_mem reason_precedence AuthorityReason-discrete decide
is_defect_reason r = reason_mem r reason_precedence

-- The comparison of two pairs; no expected pair is half of one.
unfoldable pub same_move : Move → Move → Bool
unfolding OperationState-discrete TransitionCause-discrete decide
same_move no_move no_move = true
same_move (move s c) (move t k) = is_state s t && is_cause c k
same_move _ _ = false

-- The part of `_require_matrix_row` that computes `expected`: the pair that a disposition goes with,
-- once its reason is one that it may have.
unfoldable pub expected_move : AuthorityDisposition → AuthorityReason → Result Move
unfolding AuthorityReason-discrete decide
expected_move AuthorityDisposition.allow r = do
  require (is_allow_reason r) value_error
  ok (
      if decide (AuthorityReason-discrete r AuthorityReason.authorized)
      then move OperationState.authorized authority_confirmed
      else no_move)
expected_move AuthorityDisposition.safe_stop r = do
  require (decide (AuthorityReason-discrete r AuthorityReason.auth_expired)) value_error
  ok (move OperationState.safe_stop safe_stop_selected)
expected_move AuthorityDisposition.violation r = do
  require (is_defect_reason r) value_error
  ok (move OperationState.violation invariant_violation)

-- `_require_matrix_row`: true where it raises nothing.
unfoldable pub is_matrix_row : AuthorityDisposition → AuthorityReason → Move → Bool
unfolding expected_move same_move
is_matrix_row d r pair = elim (expected_move d r) [
  | ok expected ↦ same_move pair expected
  | err e ↦ false
]

-- `_validated_evidence`
unfoldable pub validated_evidence : AuthorityDisposition → AuthorityReason → Fields → Result Fields
unfolding field_of keys_known has_field rebuilt is_text
validated_evidence disposition reason evidence = do
  require (keys_known evidence && all (λ k. has_field k evidence) evidence_keys) value_error
  payload ← rebuilt evidence_keys evidence
  require (is_text (field_of (codes "disposition") payload) (codes (disposition_value disposition)))
      value_error
  require (is_text (field_of (codes "reason") payload) (codes (reason_value reason))) value_error
  parameter_map (dict payload)

-- `AuthorityDecision.__post_init__`
unfoldable pub authority_decision : AuthorityDecision → Result AuthorityDecision
unfolding move_of is_permitted is_matrix_row is_allow_reason is_defect_reason validated_evidence
authority_decision d = do
  require (is_permitted (move_of d.target d.cause)) value_error
  require (is_matrix_row d.disposition d.reason (move_of d.target d.cause)) value_error
  evidence ← validated_evidence d.disposition d.reason d.evidence
  ok (record d { evidence = evidence })
