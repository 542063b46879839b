-- ===== src/StateMachine/Branches.antt =====
-- The steps of `OperationStateMachine.transition` (src/side_effects_lab/state_machine.py), each with
-- the condition under which it goes on and the record with which it fails.
use mathlib.Core.Bool.{decide_iff}
use side_effects_lab.Prelude.{
  String, true, false, ◌&&◌, Option, none, some, List, [], ◌∷◌, ◌≡◌, ◌≢◌, ◌↔◌, ◌⊎◌, inl, inr, refl,
  sym, ap, arith, Option-cases, Bool-cases, str_mem, eq_iff,
}
use side_effects_lab.Prelude.Exec.{Outcome, returned, raised, ◌>>◌, pure}
use side_effects_lab.Text.{codes}
use side_effects_lab.Models.Identifiers.{is_attempt_id}
use side_effects_lab.StateMachine.Types.{
  OperationState, in_flight, violation, OperationState-discrete, TransitionCause-discrete,
  TransitionCause, invariant_violation, TransitionEvidence, guard_failure, OperationIdentity,
  TransitionRecord, changed_identity_fields, attempt_for_record,
}
use side_effects_lab.StateMachine.Machine.{
  OperationStateMachine, is_state, is_cause, new_record, log, validate_attempt_for_target,
  append_attempt, cause_mismatch, follow_edge, require_identity,
}
use side_effects_lab.StateMachine.Graph.{Edge}

-- The attempt that a call has to bring: a new one to enter IN_FLIGHT, else none.
abbrev pub AttemptFits : List String → OperationState → Option String → Type 0
AttemptFits used t none = t ≢ in_flight
AttemptFits used t (some a) =
    (t ≡ in_flight) × (is_attempt_id (codes a) ≡ true) × (str_mem a used ≡ false)

abbrev pub Report : OperationState → TransitionEvidence → Type 0
Report t e = (t ≡ violation) × (e.cause ≡ invariant_violation)

-- The calls that the machine accepts.
pub record Accepts (m : OperationStateMachine) (t : OperationState) (e : TransitionEvidence)
    (id : OperationIdentity) (a : Option String) : Type 0 where
  pub live : m.state ≢ violation
  pub same : id ≡ m.identity
  pub fits : AttemptFits m.attempt_ids t a
  pub allowed : Report t e ⊎ Edge e m.state t

pub missing-identity :
    (current candidate : OperationIdentity)
    → changed_identity_fields current candidate ≡ []
    → candidate ≡ current
unfolding changed_identity_fields
missing-identity current candidate h = ground (
  arith,
  eq_iff candidate.action_id current.action_id,
  eq_iff candidate.operation_key current.operation_key,
  eq_iff candidate.intent_digest current.intent_digest,
  eq_iff candidate.authority_id current.authority_id,
)

pub same_identity :
    (current candidate : OperationIdentity)
    → candidate ≡ current
    → changed_identity_fields current candidate ≡ []
unfolding changed_identity_fields
same_identity current candidate h = ground (
  arith,
  eq_iff candidate.action_id current.action_id,
  eq_iff candidate.operation_key current.operation_key,
  eq_iff candidate.intent_digest current.intent_digest,
  eq_iff candidate.authority_id current.authority_id,
)

pub is_state_iff : (a b : OperationState) → (is_state a b ≡ true) ↔ (a ≡ b)
is_state_iff a b = decide_iff (OperationState-discrete a b)

pub is_cause_iff : (a b : TransitionCause) → (is_cause a b ≡ true) ↔ (a ≡ b)
is_cause_iff a b = decide_iff (TransitionCause-discrete a b)

-- The record and the machine that a failed call leaves.
abbrev pub failure :
    OperationStateMachine
    → OperationState
    → TransitionEvidence
    → Option String
    → String
    → TransitionRecord
failure m t e a reason = new_record m.state t violation e (attempt_for_record a) (some reason)

abbrev pub Failed :
    {A : Type 0}
    → OperationStateMachine
    → OperationState
    → TransitionEvidence
    → Option String
    → Outcome TransitionRecord A × OperationStateMachine
    → Type 0
Failed m t e a out =
    (reason : String) × (out ≡ (raised (failure m t e a reason), log (failure m t e a reason) m))

-- The record of an accepted move, and the machine after it.
abbrev pub success :
    OperationStateMachine → OperationState → TransitionEvidence → Option String → TransitionRecord
success m t e a = new_record m.state t t e a none

abbrev pub moved_to :
    OperationStateMachine
    → OperationState
    → TransitionEvidence
    → Option String
    → OperationStateMachine
moved_to m t e a = (append_attempt a (log (success m t e a) m)).1

pub validate_attempt_cases :
    (m : OperationStateMachine) (t : OperationState) (e : TransitionEvidence) (a : Option String)
    → (AttemptFits m.attempt_ids t a × (validate_attempt_for_target t e a m ≡ (returned a, m)))
      ⊎ ((¬ AttemptFits m.attempt_ids t a) × Failed m t e a (validate_attempt_for_target t e a m))
unfolding validate_attempt_for_target
validate_attempt_cases m t e none = elim (Bool-cases (is_state t in_flight)) [
  | inl y ↦ inr (
    (λ h. h ((is_state_iff t in_flight).0 y)),
    ("entering IN_FLIGHT requires a new attempt_id", rw y),
  )
  | inr n ↦ inl ((λ h. ground (arith, is_state_iff t in_flight)), rw n)
]
validate_attempt_cases m t e (some a) = elim (Bool-cases (is_state t in_flight)) [
  | inr n ↦ inr (
    (λ h. ground (arith, is_state_iff t in_flight)),
    ("attempt_id is only valid when entering IN_FLIGHT", rw n),
  )
  | inl y ↦ elim (Bool-cases (is_attempt_id (codes a))) [
    | inr bad ↦ inr ((λ h. cc), ("attempt_id is invalid", rw (y, bad)))
    | inl good ↦ elim (Bool-cases (str_mem a m.attempt_ids)) [
      | inl used ↦ inr ((λ h. cc), ("attempt_id was already used", rw (y, good, used)))
      | inr new ↦ inl (((is_state_iff t in_flight).0 y, good, new), rw (y, good, new))
    ]
  ]
]

then_append :
    (a : Option String) (r : TransitionRecord) (m : OperationStateMachine)
    → (append_attempt a >> pure r) m ≡ (returned r, (append_attempt a m).1)
unfolding append_attempt
then_append none r m = refl
then_append (some a) r m = refl

pub follow_edge_cases :
    (m : OperationStateMachine) (t : OperationState) (e : TransitionEvidence) (a : Option String)
    (found : Option TransitionCause)
    → ((found ≡ some e.cause)
        × (guard_failure m.state t e ≡ none)
        × (follow_edge m.state t e a found m ≡ (returned (success m t e a), moved_to m t e a)))
      ⊎ ((¬ ((found ≡ some e.cause) × (guard_failure m.state t e ≡ none)))
          × Failed m t e a (follow_edge m.state t e a found m))
unfolding follow_edge
follow_edge_cases m t e a none = inr ((λ h. cc), (_, refl))
follow_edge_cases m t e a (some c) = elim (Bool-cases (is_cause e.cause c)) [
  | inr n ↦ inr ((λ h. ground (arith, is_cause_iff e.cause c)), (cause_mismatch e.cause c, rw n))
  | inl y ↦ elim (Option-cases (guard_failure m.state t e)) [
    | inr (reason, g) ↦ inr ((λ h. cc), (reason, rw (y, g)))
    | inl g ↦ inl (ap some (sym ((is_cause_iff e.cause c).0 y)), g, rw (y, g) (then_append a _ _))
  ]
]

pub Report-cases :
    (t : OperationState) (e : TransitionEvidence)
    → (((is_state t violation && is_cause e.cause invariant_violation) ≡ true) × Report t e)
      ⊎ (((is_state t violation && is_cause e.cause invariant_violation) ≡ false) × (¬ Report t e))
Report-cases t e = elim (Bool-cases (is_state t violation)) [
  | inr n ↦ inr (rw n, λ h. ground (arith, is_state_iff t violation))
  | inl y ↦ elim (Bool-cases (is_cause e.cause invariant_violation)) [
    | inr n ↦ inr (rw (y, n), λ h. ground (arith, is_cause_iff e.cause invariant_violation))
    | inl z ↦ inl (
      rw (y, z),
      ((is_state_iff t violation).0 y, (is_cause_iff e.cause invariant_violation).0 z),
    )
  ]
]

pub require_identity_cases :
    (m : OperationStateMachine) (t : OperationState) (e : TransitionEvidence) (a : Option String)
    (fs : List String)
    → ((fs ≡ []) × (require_identity t e a fs m ≡ (returned tt, m)))
      ⊎ ((fs ≢ []) × Failed m t e a (require_identity t e a fs m))
unfolding require_identity
require_identity_cases m t e a [] = inl (refl, refl)
require_identity_cases m t e a (f ∷ fs) = inr ((λ h. cc), (_, refl))
