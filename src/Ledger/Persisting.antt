-- ===== src/Ledger/Persisting.antt =====
-- `_persist_transition` of src/side_effects_lab/ledger.py: the events and the row of a transition.
use side_effects_lab.Prelude.{String, Option, none, some, List, [], ◌∷◌, str_eq, if◌then◌else◌}
use side_effects_lab.Prelude.Int.{ℤ}
use side_effects_lab.Prelude.Result.{require, integrity_error}
use side_effects_lab.Prelude.Exec.{pure, gets, modify, ◌>>=◌, ◌>>◌}
use side_effects_lab.Text.{codes}
use side_effects_lab.Models.Values.{Value, null, bool, str, Fields, end, field}
use side_effects_lab.Models.Events.{operation_prepared, state_transition, LabEvent}
use side_effects_lab.StateMachine.Types.{
  prepared, state_value, cause_value, OperationIdentity, TransitionEvidence, TransitionRecord,
  canonical_value,
}
use side_effects_lab.StateMachine.Machine.{is_state}
use side_effects_lab.Ledger.Tables.{
  OperationRow, TransitionRow, LedgerAction, transitions_of, next_ordinal, has_event,
  transition_allowed,
}
use side_effects_lab.Ledger.Decoding.{flag_column}
use side_effects_lab.Ledger.Replay.{PersistedTransition, kept_as}
use side_effects_lab.Ledger.Operations.{reads, lifecycle_event, insert_next}

-- A text or None.
abbrev pub optional_text : Option String → Value
optional_text none = null
optional_text (some s) = str (codes s)

-- `{**canonical_value, ...}`
unfoldable pub with_fields : List (String × Option String) → Fields → Fields
with_fields [] rest = rest
with_fields ((k, v) ∷ kvs) rest = field (codes k) (optional_text v) (with_fields kvs rest)

-- `_transition_event_evidence`
unfoldable pub transition_event_evidence : TransitionRecord → TransitionEvidence → Fields
unfolding with_fields canonical_value
transition_event_evidence r e = with_fields (canonical_value r) (
    field (codes "fresh") (bool e.fresh) (
      field (codes "authoritative") (bool e.authoritative) (
        field (codes "exact_identity") (bool e.exact_identity) (
          field (codes "postcondition_verified") (bool e.postcondition_verified)
            (field (codes "cardinality_valid") (bool e.cardinality_valid) end)))))

-- The state-transition event.
abbrev pub transition_event :
    OperationIdentity → TransitionRecord → TransitionEvidence → ℤ → ℤ → LabEvent
transition_event identity r e tick seq =
    record (lifecycle_event seq tick state_transition identity) {
      attempt_id = r.attempt_id;
      evidence = transition_event_evidence r e;
    }

-- The row of a transition.
abbrev pub new_transition :
    String → OperationIdentity → TransitionRecord → TransitionEvidence → ℤ → ℤ → TransitionRow
new_transition action candidate r e ordinal seq = record {
  action_id = action;
  ordinal = ordinal;
  event_seq = seq;
  source_state = state_value r.source_state;
  attempted_state = state_value r.attempted_state;
  resulting_state = state_value r.resulting_state;
  candidate_action_id = candidate.action_id;
  candidate_operation_key = candidate.operation_key;
  candidate_intent_digest = candidate.intent_digest;
  candidate_authority_id = candidate.authority_id;
  evidence_id = r.evidence_id;
  cause = cause_value r.cause;
  fresh = flag_column e.fresh;
  authoritative = flag_column e.authoritative;
  exact_identity = flag_column e.exact_identity;
  postcondition_verified = flag_column e.postcondition_verified;
  cardinality_valid = flag_column e.cardinality_valid;
  attempt_id = r.attempt_id;
  violation_reason = r.violation_reason;
}

-- `INSERT INTO transitions`
unfoldable pub insert_transition : TransitionRow → LedgerAction (Unit {0})
unfolding transition_allowed
insert_transition row = do
  reads (λ s. require (transition_allowed row s) integrity_error)
  modify (λ s. record s { transitions = row ∷ s.transitions })

-- `UPDATE operations SET state = ?, updated_event_seq = ? WHERE action_id = ?`
unfoldable pub updated : String → String → ℤ → List OperationRow → List OperationRow
updated action state seq [] = []
updated action state seq (r ∷ rs) =
    (if str_eq r.action_id action then record r { state = state; updated_event_seq = seq } else r)
    ∷ updated action state seq rs

unfoldable pub update_operation : String → String → ℤ → LedgerAction (Unit {0})
unfolding updated
update_operation action state seq = do
  reads (λ s. require (has_event seq s.events) integrity_error)
  modify (λ s. record s { operations = updated action state seq s.operations })

-- The preparation is an event of its own.
unfoldable pub insert_prepared : OperationIdentity → TransitionRecord → ℤ → LedgerAction (Unit {0})
unfolding insert_next
insert_prepared identity r tick = elim r.violation_reason [
  | some reason ↦ pure tt
  | none ↦
      if is_state r.resulting_state prepared
      then (do insert_next (λ n. lifecycle_event n tick operation_prepared identity); pure tt)
      else pure tt
]

-- `_persist_transition`
unfoldable pub persist_transition :
    OperationIdentity
    → OperationIdentity
    → TransitionRecord
    → TransitionEvidence
    → ℤ
    → LedgerAction PersistedTransition
unfolding insert_prepared insert_next transitions_of next_ordinal insert_transition update_operation
persist_transition identity candidate r evidence tick = do
  insert_prepared identity r tick
  seq ← insert_next (transition_event identity r evidence tick)
  ordinal ← gets (λ s. next_ordinal (transitions_of identity.action_id s.transitions))
  insert_transition (new_transition identity.action_id candidate r evidence ordinal seq)
  update_operation identity.action_id (state_value r.resulting_state) seq
  pure (kept_as r evidence seq)
