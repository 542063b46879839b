-- ===== src/StateMachine/Machine.antt =====
-- `OperationStateMachine` of src/side_effects_lab/state_machine.py. A method is an action on the
-- machine; the exception `InvalidTransitionError` is the record that it carries.
use Prim.Native.String.{◌++◌ as append}
use mathlib.Core.Bool.{decide}
use side_effects_lab.Prelude.{
  String, Bool, not, ◌&&◌, Option, none, some, List, [], ◌∷◌, ◌++◌, if◌then◌else◌, str_mem,
}
use side_effects_lab.Prelude.Exec.{Exec, returned, raised, pure, raise, gets, ◌>>=◌, ◌>>◌}
use side_effects_lab.Text.{codes}
use side_effects_lab.Models.Identifiers.{is_attempt_id}
use side_effects_lab.StateMachine.Types.{
  OperationState, proposed, in_flight, violation, OperationState-discrete, TransitionCause,
  invariant_violation, TransitionCause-discrete, cause_value, normative_cause, OperationIdentity,
  TransitionEvidence, TransitionRecord, join, guard_failure, changed_identity_fields,
  attempt_for_record,
}

pub record OperationStateMachine : Type 0 where
  pub identity : OperationIdentity
  pub state : OperationState
  pub attempt_ids : List String
  pub history : List TransitionRecord

-- `OperationStateMachine.__init__`
unfoldable pub new_machine : OperationIdentity → OperationStateMachine
new_machine identity = record {
  identity = identity;
  state = proposed;
  attempt_ids = [];
  history = [];
}

abbrev pub Action : Type 0 → Type 0
Action = Exec OperationStateMachine TransitionRecord

-- `a is b`
abbrev pub is_state : OperationState → OperationState → Bool
is_state a b = decide (OperationState-discrete a b)

abbrev pub is_cause : TransitionCause → TransitionCause → Bool
is_cause a b = decide (TransitionCause-discrete a b)

-- A record of a move to `resulting`.
abbrev pub new_record :
    OperationState
    → OperationState
    → OperationState
    → TransitionEvidence
    → Option String
    → Option String
    → TransitionRecord
new_record source target resulting evidence attempt reason = record {
  source_state = source;
  attempted_state = target;
  resulting_state = resulting;
  evidence_id = evidence.evidence_id;
  cause = evidence.cause;
  attempt_id = attempt;
  violation_reason = reason;
}

abbrev pub log : TransitionRecord → OperationStateMachine → OperationStateMachine
log r m = record m { state = r.resulting_state; history = m.history ++ r ∷ [] }

-- `_record_transition`
unfoldable pub record_transition :
    OperationState → TransitionEvidence → Option String → Option String → Action TransitionRecord
record_transition target evidence attempt reason m =
    let r = new_record m.state target target evidence attempt reason in (returned r, log r m)

-- `_fail`, which never returns.
unfoldable pub fail :
    {A : Type 0} → OperationState → TransitionEvidence → Option String → String → Action A
fail target evidence attempt reason m =
    let r =
      new_record m.state target violation evidence (attempt_for_record attempt) (some reason) in
    (raised r, log r m)

-- `_validate_attempt_for_target`
unfoldable pub validate_attempt_for_target :
    OperationState → TransitionEvidence → Option String → Action (Option String)
unfolding fail
validate_attempt_for_target target evidence attempt =
    if not (is_state target in_flight)
    then elim attempt [
      | some a ↦ fail target evidence (some a) "attempt_id is only valid when entering IN_FLIGHT"
      | none ↦ pure none
    ]
    else elim attempt [
      | none ↦ fail target evidence none "entering IN_FLIGHT requires a new attempt_id"
      | some a ↦
          if not (is_attempt_id (codes a))
          then fail target evidence (some a) "attempt_id is invalid"
          else do
            used ← gets (λ m. m.attempt_ids)
            if str_mem a used
                then fail target evidence (some a) "attempt_id was already used"
                else pure (some a)
    ]

-- `self._attempt_ids.append(validated_attempt_id)`, unless that is `None`
unfoldable pub append_attempt : Option String → Action (Unit {0})
append_attempt none m = (returned tt, m)
append_attempt (some a) m = (returned tt, record m { attempt_ids = m.attempt_ids ++ a ∷ [] })

unfoldable pub cause_mismatch : TransitionCause → TransitionCause → String
cause_mismatch given expected =
    append "evidence cause "
      (append (cause_value given) (append " does not match required " (cause_value expected)))

-- The part of `transition` below the look-up in NORMATIVE_TRANSITIONS.
unfoldable pub follow_edge :
    OperationState
    → OperationState
    → TransitionEvidence
    → Option String
    → Option TransitionCause
    → Action TransitionRecord
unfolding fail record_transition append_attempt
follow_edge source target evidence attempt none =
    fail target evidence attempt "transition is not allowed"
follow_edge source target evidence attempt (some expected) =
    if not (is_cause evidence.cause expected)
    then fail target evidence attempt (cause_mismatch evidence.cause expected)
    else elim (guard_failure source target evidence) [
      | some reason ↦ fail target evidence attempt reason
      | none ↦ do r ← record_transition target evidence attempt none; append_attempt attempt; pure r
    ]

-- The identity is the machine's own.
unfoldable pub require_identity :
    OperationState → TransitionEvidence → Option String → List String → Action (Unit {0})
unfolding fail
require_identity target evidence attempt [] = pure tt
require_identity target evidence attempt (f ∷ fs) =
    fail target evidence attempt (append "immutable identity changed: " (join (f ∷ fs)))

-- `OperationStateMachine.transition`
unfoldable pub transition :
    OperationState
    → TransitionEvidence
    → OperationIdentity
    → Option String
    → Action TransitionRecord
unfolding require_identity validate_attempt_for_target record_transition follow_edge
transition target evidence identity attempt = do
  source ← gets (λ m. m.state)
  current ← gets (λ m. m.identity)
  if is_state source violation
      then raise (
          new_record source target source evidence (attempt_for_record attempt)
            (some "VIOLATION is terminal"))
      else do
        require_identity target evidence attempt (changed_identity_fields current identity)
        validated ← validate_attempt_for_target target evidence attempt
        if is_state target violation && is_cause evidence.cause invariant_violation
            then record_transition target evidence validated (some "invariant violation reported")
            else follow_edge source target evidence validated (normative_cause source target)
