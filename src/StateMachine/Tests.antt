-- ===== src/StateMachine/Tests.antt =====
-- Runs of the state machine of src/side_effects_lab/state_machine.py, and the theorems at them.
use mathlib.Core.List.{Memᴰ}
use side_effects_lab.Prelude.{
  String, str_mem, Option, none, some, List, [], ◌∷◌, ◌≡◌, ◌≢◌, ◌↔◌, refl, true,
}
use side_effects_lab.Prelude.Exec.{returned}
use side_effects_lab.Prelude.Result.{ok}
use side_effects_lab.StateMachine.Types.{
  OperationState, proposed, authorized, prepared, in_flight, indeterminate, reconciling, verifying,
  violation, complete, TransitionCause, authority_confirmed, preparation_durable, attempt_delivered,
  ambiguous_outcome, reconciliation_started, exact_effect_found, fresh_postcondition,
  OperationState-discrete, TransitionCause-discrete, TransitionEvidence, OperationIdentity,
  TransitionRecord, operation_identity, changed_identity_fields, normative_cause, guard_failure,
}
use mathlib.Core.Bool.{decide}
use side_effects_lab.Models.Identifiers.{
  is_action_id, is_operation_key, is_digest, is_authority_id, is_attempt_id,
}
use side_effects_lab.StateMachine.Machine.{new_machine, transition}
use side_effects_lab.StateMachine.Graph.{Edge, Edge-iff, IsVerified}
use side_effects_lab.StateMachine.Branches.{Accepts}
use side_effects_lab.StateMachine.Acceptance.{Effect, transition-returns_iff, transition-Effect}
use side_effects_lab.StateMachine.Runs.{Call, run}
use side_effects_lab.StateMachine.Coherence.{IsCoherent, run-IsCoherent}
use side_effects_lab.StateMachine.Safety.{complete_needs-IsVerified}
use side_effects_lab.StateMachine.Opening.{Opens, dispatch_needs_authority, complete_needs_dispatch}

-- What the machine computes with, on one line.
machine_runs : Unit {0}
unfolding run new_machine transition decide OperationState-discrete TransitionCause-discrete
    changed_identity_fields normative_cause guard_failure is_attempt_id str_mem
machine_runs = tt

abbrev digest_text : String
digest_text = "sha256:00112233445566778899aabbccddeeff00112233445566778899aabbccddeeff"

abbrev sample_identity : OperationIdentity
sample_identity = record {
  action_id = "action-refund-1";
  operation_key = "op-refund-1";
  intent_digest = digest_text;
  authority_id = "auth-refund-1";
}

sample_identity-valid :
    operation_identity "action-refund-1" "op-refund-1" digest_text "auth-refund-1"
    ≡ ok sample_identity
unfolding operation_identity is_action_id is_operation_key is_digest is_authority_id
sample_identity-valid = refl

-- Evidence with every flag set.
abbrev proof_of : TransitionCause → TransitionEvidence
proof_of c = record {
  evidence_id = "evidence-1";
  cause = c;
  fresh = true;
  authoritative = true;
  exact_identity = true;
  postcondition_verified = true;
  cardinality_valid = true;
}

abbrev ask : OperationState → TransitionCause → Option String → Call
ask t c a = record { target = t; evidence = proof_of c; identity = sample_identity; attempt_id = a }

-- A response is lost, and reconciliation finds the effect.
abbrev ambiguous_run : List Call
ambiguous_run =
    ask authorized authority_confirmed none
    ∷ ask prepared preparation_durable none
    ∷ ask in_flight attempt_delivered (some "attempt-1")
    ∷ ask indeterminate ambiguous_outcome none
    ∷ ask reconciling reconciliation_started none
    ∷ ask verifying exact_effect_found none
    ∷ ask complete fresh_postcondition none
    ∷ []

ambiguous_run_completes : (run ambiguous_run (new_machine sample_identity)).state ≡ complete
unfolding machine_runs
ambiguous_run_completes = refl

ambiguous_run_dispatches :
    (run ambiguous_run (new_machine sample_identity)).attempt_ids ≡ "attempt-1" ∷ []
unfolding machine_runs
ambiguous_run_dispatches = refl

ambiguous_run_attempts : (run ambiguous_run (new_machine sample_identity)).attempt_ids ≢ []
ambiguous_run_attempts h = cc (ambiguous_run_dispatches)

-- A second use of an attempt identifier is a violation.
abbrev reuse_run : List Call
reuse_run =
    ask authorized authority_confirmed none
    ∷ ask prepared preparation_durable none
    ∷ ask in_flight attempt_delivered (some "attempt-1")
    ∷ ask in_flight attempt_delivered (some "attempt-1")
    ∷ []

reuse_run_violates : (run reuse_run (new_machine sample_identity)).state ≡ violation
unfolding machine_runs
reuse_run_violates = refl

Edge-iff_example : Edge (proof_of authority_confirmed) proposed authorized ↔ (
    (normative_cause proposed authorized ≡ some authority_confirmed)
    × (guard_failure proposed authorized (proof_of authority_confirmed) ≡ none))
Edge-iff_example = Edge-iff (proof_of authority_confirmed) proposed authorized

transition-returns_iff_example :
    let m = run reuse_run (new_machine sample_identity) in
    ((r : TransitionRecord) × ((transition complete
          (proof_of fresh_postcondition)
          sample_identity
          none
          m).0
        ≡ returned r))
    ↔ Accepts m complete (proof_of fresh_postcondition) sample_identity none
transition-returns_iff_example =
    transition-returns_iff (run reuse_run (new_machine sample_identity)) complete
      (proof_of fresh_postcondition) sample_identity none

transition-Effect_example :
    Effect (new_machine sample_identity) authorized (proof_of authority_confirmed) none (
      transition authorized
        (proof_of authority_confirmed)
        sample_identity
        none
        (new_machine sample_identity))
transition-Effect_example =
    transition-Effect (new_machine sample_identity) authorized (proof_of authority_confirmed)
      sample_identity none

run-IsCoherent_example : IsCoherent (run ambiguous_run (new_machine sample_identity))
run-IsCoherent_example = run-IsCoherent ambiguous_run sample_identity

complete_needs-IsVerified_example :
    (c : Call) × Memᴰ c ambiguous_run
    × (c.target ≡ complete)
    × (c.identity ≡ sample_identity)
    × (c.attempt_id ≡ none)
    × (c.evidence.cause ≡ fresh_postcondition)
    × IsVerified c.evidence
complete_needs-IsVerified_example =
    complete_needs-IsVerified ambiguous_run sample_identity ambiguous_run_completes

dispatch_needs_authority_example : Opens (run ambiguous_run (new_machine sample_identity)).history
dispatch_needs_authority_example =
    dispatch_needs_authority ambiguous_run sample_identity ambiguous_run_attempts

complete_needs_dispatch_example :
    Opens (run ambiguous_run (new_machine sample_identity)).history
    × ((run ambiguous_run (new_machine sample_identity)).attempt_ids ≢ [])
complete_needs_dispatch_example =
    complete_needs_dispatch ambiguous_run sample_identity ambiguous_run_completes
