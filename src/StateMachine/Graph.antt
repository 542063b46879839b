-- ===== src/StateMachine/Graph.antt =====
-- The state graph of src/side_effects_lab/state_machine.py as a relation: an edge carries the cause
-- and the flags of the evidence that its transition needs.
use side_effects_lab.Prelude.{true, none, some, ◌≡◌, ◌↔◌, arith}
use side_effects_lab.StateMachine.Types.{
  OperationState, proposed, authorized, prepared, in_flight, indeterminate, reconciling, retryable,
  verifying, complete, safe_stop, violation, authority_confirmed, invariant_violation,
  preparation_durable, safe_stop_selected, attempt_delivered, success_receipt, precommit_rejection,
  ambiguous_outcome, reconciliation_started, exact_effect_found, conclusive_absence,
  reconciliation_inconclusive, redispatch_authorized, fresh_postcondition, verification_incomplete,
  postcondition_failed, normative_cause, TransitionEvidence, guard_failure,
}

-- What a reconciliation that found something conclusive rests on.
pub record IsConclusive (e : TransitionEvidence) : Type 0 where
  pub is_fresh : e.fresh ≡ true
  pub is_authoritative : e.authoritative ≡ true
  pub is_exact : e.exact_identity ≡ true

-- What a completion rests on.
pub record IsVerified (e : TransitionEvidence) : Type 0 where
  pub is_fresh : e.fresh ≡ true
  pub is_authoritative : e.authoritative ≡ true
  pub is_verified : e.postcondition_verified ≡ true
  pub is_cardinal : e.cardinality_valid ≡ true

pub data Edge (e : TransitionEvidence) : OperationState → OperationState → Type 0 where
  authorize : e.cause ≡ authority_confirmed → Edge e proposed authorized
  denounce : e.cause ≡ invariant_violation → Edge e proposed violation
  prepare : e.cause ≡ preparation_durable → Edge e authorized prepared
  decline : e.cause ≡ safe_stop_selected → Edge e authorized safe_stop
  dispatch : e.cause ≡ attempt_delivered → Edge e prepared in_flight
  receive : e.cause ≡ success_receipt → Edge e in_flight verifying
  refuse : e.cause ≡ precommit_rejection → Edge e in_flight retryable
  lose_track : e.cause ≡ ambiguous_outcome → Edge e in_flight indeterminate
  reconcile : e.cause ≡ reconciliation_started → Edge e indeterminate reconciling
  find_effect : e.cause ≡ exact_effect_found → IsConclusive e → Edge e reconciling verifying
  find_absence : e.cause ≡ conclusive_absence → IsConclusive e → Edge e reconciling retryable
  give_up :
      e.cause ≡ reconciliation_inconclusive → e.exact_identity ≡ true → Edge e reconciling safe_stop
  redispatch : e.cause ≡ redispatch_authorized → Edge e retryable in_flight
  abandon : e.cause ≡ safe_stop_selected → Edge e retryable safe_stop
  finish : e.cause ≡ fresh_postcondition → IsVerified e → Edge e verifying complete
  recheck : e.cause ≡ verification_incomplete → Edge e verifying reconciling
  mismatch : e.cause ≡ postcondition_failed → Edge e verifying safe_stop

ruleset edges = (
  authorize, denounce, prepare, decline, dispatch, receive, refuse, lose_track, reconcile,
  find_effect, find_absence, give_up, redispatch, abandon, finish, recheck, mismatch,
)

Edge-normative :
    {e : TransitionEvidence} {s t : OperationState}
    → Edge e s t
    → (normative_cause s t ≡ some e.cause) × (guard_failure s t e ≡ none)
unfolding normative_cause guard_failure
Edge-normative (authorize c) = ground arith
Edge-normative (denounce c) = ground arith
Edge-normative (prepare c) = ground arith
Edge-normative (decline c) = ground arith
Edge-normative (dispatch c) = ground arith
Edge-normative (receive c) = ground arith
Edge-normative (refuse c) = ground arith
Edge-normative (lose_track c) = ground arith
Edge-normative (reconcile c) = ground arith
Edge-normative (find_effect c k) = ground arith
Edge-normative (find_absence c k) = ground arith
Edge-normative (give_up c k) = ground arith
Edge-normative (redispatch c) = ground arith
Edge-normative (abandon c) = ground arith
Edge-normative (finish c k) = ground arith
Edge-normative (recheck c) = ground arith
Edge-normative (mismatch c) = ground arith

guard-IsConclusive :
    (e : TransitionEvidence) → guard_failure reconciling verifying e ≡ none → IsConclusive e
unfolding guard_failure
guard-IsConclusive e h = ground arith

guard_absent :
    (e : TransitionEvidence) → guard_failure reconciling retryable e ≡ none → IsConclusive e
unfolding guard_failure
guard_absent e h = ground arith

guard_exact :
    (e : TransitionEvidence)
    → guard_failure reconciling safe_stop e ≡ none
    → e.exact_identity ≡ true
unfolding guard_failure
guard_exact e h = ground arith

guard-IsVerified :
    (e : TransitionEvidence) → guard_failure verifying complete e ≡ none → IsVerified e
unfolding guard_failure
guard-IsVerified e h = ground arith

normative-Edge :
    (e : TransitionEvidence) (s t : OperationState)
    → normative_cause s t ≡ some e.cause
    → guard_failure s t e ≡ none
    → Edge e s t
unfolding normative_cause
normative-Edge e proposed authorized c g = authorize (cc)
normative-Edge e proposed violation c g = denounce (cc)
normative-Edge e authorized prepared c g = prepare (cc)
normative-Edge e authorized safe_stop c g = decline (cc)
normative-Edge e prepared in_flight c g = dispatch (cc)
normative-Edge e in_flight verifying c g = receive (cc)
normative-Edge e in_flight retryable c g = refuse (cc)
normative-Edge e in_flight indeterminate c g = lose_track (cc)
normative-Edge e indeterminate reconciling c g = reconcile (cc)
normative-Edge e reconciling verifying c g = find_effect (cc) (guard-IsConclusive e g)
normative-Edge e reconciling retryable c g = find_absence (cc) (guard_absent e g)
normative-Edge e reconciling safe_stop c g = give_up (cc) (guard_exact e g)
normative-Edge e retryable in_flight c g = redispatch (cc)
normative-Edge e retryable safe_stop c g = abandon (cc)
normative-Edge e verifying complete c g = finish (cc) (guard-IsVerified e g)
normative-Edge e verifying reconciling c g = recheck (cc)
normative-Edge e verifying safe_stop c g = mismatch (cc)
normative-Edge e _ _ c g = cc

-- The table and the guards of the code describe exactly the graph: evidence with the table's cause
-- passes the guard just where the relation has an edge.
pub Edge-iff :
    (e : TransitionEvidence) (s t : OperationState)
    → Edge e s t ↔ ((normative_cause s t ≡ some e.cause) × (guard_failure s t e ≡ none))
Edge-iff e s t = (Edge-normative, λ h. normative-Edge e s t h.0 h.1)
