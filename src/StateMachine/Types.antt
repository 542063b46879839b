-- ===== src/StateMachine/Types.antt =====
-- The enumerations and the frozen records of src/side_effects_lab/state_machine.py. A field's type
-- takes the place of the `isinstance` tests, which raise `TypeError` in Python.
use Prim.Native.String.{◌++◌ as append}
use side_effects_lab.Prelude.{
  String, Bool, ◌&&◌, Option, none, some, List, [], ◌∷◌, str_eq, if◌then◌else◌,
}
use side_effects_lab.Prelude.Result.{Result, ok, require, value_error, validation_error, ◌>>◌}
use side_effects_lab.Text.{codes, is_lower, is_token_char, token, within}
use side_effects_lab.Models.Identifiers.{
  is_action_id, is_operation_key, is_digest, is_authority_id, is_attempt_id,
}

pub data OperationState : Type 0 where
  proposed authorized prepared in_flight indeterminate reconciling retryable verifying complete
        safe_stop violation :
      OperationState

pub data TransitionCause : Type 0 where
  authority_confirmed invariant_violation preparation_durable safe_stop_selected attempt_delivered
        success_receipt precommit_rejection ambiguous_outcome reconciliation_started
        exact_effect_found conclusive_absence reconciliation_inconclusive redispatch_authorized
        fresh_postcondition verification_incomplete postcondition_failed :
      TransitionCause

unfoldable pub OperationState-discrete : Discrete OperationState
OperationState-discrete = hlevel

unfoldable pub TransitionCause-discrete : Discrete TransitionCause
TransitionCause-discrete = hlevel

-- `.value` of the two `StrEnum`s.
unfoldable pub state_value : OperationState → String
state_value proposed = "PROPOSED"
state_value authorized = "AUTHORIZED"
state_value prepared = "PREPARED"
state_value in_flight = "IN_FLIGHT"
state_value indeterminate = "INDETERMINATE"
state_value reconciling = "RECONCILING"
state_value retryable = "RETRYABLE"
state_value verifying = "VERIFYING"
state_value complete = "COMPLETE"
state_value safe_stop = "SAFE_STOP"
state_value violation = "VIOLATION"

unfoldable pub cause_value : TransitionCause → String
cause_value authority_confirmed = "authority_confirmed"
cause_value invariant_violation = "invariant_violation"
cause_value preparation_durable = "preparation_durable"
cause_value safe_stop_selected = "safe_stop_selected"
cause_value attempt_delivered = "attempt_delivered"
cause_value success_receipt = "success_receipt"
cause_value precommit_rejection = "precommit_rejection"
cause_value ambiguous_outcome = "ambiguous_outcome"
cause_value reconciliation_started = "reconciliation_started"
cause_value exact_effect_found = "exact_effect_found"
cause_value conclusive_absence = "conclusive_absence"
cause_value reconciliation_inconclusive = "reconciliation_inconclusive"
cause_value redispatch_authorized = "redispatch_authorized"
cause_value fresh_postcondition = "fresh_postcondition"
cause_value verification_incomplete = "verification_incomplete"
cause_value postcondition_failed = "postcondition_failed"

-- `NORMATIVE_TRANSITIONS.get((source, target))`
unfoldable pub normative_cause : OperationState → OperationState → Option TransitionCause
normative_cause proposed authorized = some authority_confirmed
normative_cause proposed violation = some invariant_violation
normative_cause authorized prepared = some preparation_durable
normative_cause authorized safe_stop = some safe_stop_selected
normative_cause prepared in_flight = some attempt_delivered
normative_cause in_flight verifying = some success_receipt
normative_cause in_flight retryable = some precommit_rejection
normative_cause in_flight indeterminate = some ambiguous_outcome
normative_cause indeterminate reconciling = some reconciliation_started
normative_cause reconciling verifying = some exact_effect_found
normative_cause reconciling retryable = some conclusive_absence
normative_cause reconciling safe_stop = some reconciliation_inconclusive
normative_cause retryable in_flight = some redispatch_authorized
normative_cause retryable safe_stop = some safe_stop_selected
normative_cause verifying complete = some fresh_postcondition
normative_cause verifying reconciling = some verification_incomplete
normative_cause verifying safe_stop = some postcondition_failed
normative_cause _ _ = none

pub record OperationIdentity : Type 0 where
  pub action_id : String
  pub operation_key : String
  pub intent_digest : String
  pub authority_id : String

-- `OperationIdentity.__post_init__`: the constructor validates each field in turn.
unfoldable pub operation_identity : String → String → String → String → Result OperationIdentity
operation_identity action key digest authority = do
  require (is_action_id (codes action)) validation_error
  require (is_operation_key (codes key)) validation_error
  require (is_digest (codes digest)) validation_error
  require (is_authority_id (codes authority)) validation_error
  ok (record {
    action_id = action;
    operation_key = key;
    intent_digest = digest;
    authority_id = authority;
  })

pub record TransitionEvidence : Type 0 where
  pub evidence_id : String
  pub cause : TransitionCause
  pub fresh : Bool
  pub authoritative : Bool
  pub exact_identity : Bool
  pub postcondition_verified : Bool
  pub cardinality_valid : Bool

-- `^[a-z][a-z0-9-]{0,127}$`
unfoldable pub is_evidence_id : String → Bool
unfolding within token
is_evidence_id s = within 128 (codes s) && token is_lower is_token_char (codes s)

-- `TransitionEvidence.__post_init__`
unfoldable pub transition_evidence : TransitionEvidence → Result TransitionEvidence
transition_evidence e = do require (is_evidence_id e.evidence_id) value_error; ok e

pub record TransitionRecord : Type 0 where
  pub source_state : OperationState
  pub attempted_state : OperationState
  pub resulting_state : OperationState
  pub evidence_id : String
  pub cause : TransitionCause
  pub attempt_id : Option String
  pub violation_reason : Option String

-- `TransitionRecord.canonical_value`, in the order of its dict literal.
unfoldable pub canonical_value : TransitionRecord → List (String × Option String)
unfolding state_value cause_value
canonical_value r =
    ("attempt_id", r.attempt_id)
    ∷ ("attempted_state", some (state_value r.attempted_state))
    ∷ ("cause", some (cause_value r.cause))
    ∷ ("evidence_id", some r.evidence_id)
    ∷ ("resulting_state", some (state_value r.resulting_state))
    ∷ ("source_state", some (state_value r.source_state))
    ∷ ("violation_reason", r.violation_reason)
    ∷ []

-- `", ".join`
unfoldable pub join : List String → String
join [] = ""
join (x ∷ []) = x
join (x ∷ y ∷ ys) = append x (append ", " (join (y ∷ ys)))

-- The names of the entries whose flag is not set.
unfoldable pub missing : List (String × Bool) → List String
missing [] = []
missing ((name, present) ∷ required) =
    let rest = missing required in if present then rest else name ∷ rest

unfoldable pub lacks : String → List String → Option String
unfolding join
lacks prefix [] = none
lacks prefix (x ∷ xs) = some (append prefix (join (x ∷ xs)))

reconciliation_flags : TransitionEvidence → List (String × Bool)
reconciliation_flags e =
    ("fresh", e.fresh)
    ∷ ("authoritative", e.authoritative)
    ∷ ("exact_identity", e.exact_identity)
    ∷ []

completion_flags : TransitionEvidence → List (String × Bool)
completion_flags e =
    ("fresh", e.fresh)
    ∷ ("authoritative", e.authoritative)
    ∷ ("postcondition_verified", e.postcondition_verified)
    ∷ ("cardinality_valid", e.cardinality_valid)
    ∷ []

-- `_guard_failure`: the tests on source and target are the patterns.
unfoldable pub guard_failure : OperationState → OperationState → TransitionEvidence → Option String
unfolding missing lacks reconciliation_flags completion_flags
guard_failure reconciling verifying e =
    lacks "reconciliation evidence lacks " (missing (reconciliation_flags e))
guard_failure reconciling retryable e =
    lacks "reconciliation evidence lacks " (missing (reconciliation_flags e))
guard_failure reconciling safe_stop e =
    if e.exact_identity then none else some "safe stop requires an attempted exact-identity lookup"
guard_failure verifying complete e =
    lacks "completion evidence lacks " (missing (completion_flags e))
guard_failure _ _ _ = none

-- `getattr(candidate, f) != getattr(self._identity, f)` for each field, in order.
unfoldable pub changed_identity_fields : OperationIdentity → OperationIdentity → List String
unfolding missing
changed_identity_fields current candidate = missing (
    ("action_id", str_eq candidate.action_id current.action_id)
    ∷ ("operation_key", str_eq candidate.operation_key current.operation_key)
    ∷ ("intent_digest", str_eq candidate.intent_digest current.intent_digest)
    ∷ ("authority_id", str_eq candidate.authority_id current.authority_id)
    ∷ [])

-- `_attempt_for_record`
unfoldable pub attempt_for_record : Option String → Option String
attempt_for_record none = none
attempt_for_record (some a) = if is_attempt_id (codes a) then some a else none
