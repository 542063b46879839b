-- ===== src/Ledger/Replay.antt =====
-- `_load_machine_unlocked` of src/side_effects_lab/ledger.py: the rows of an operation, decoded and
-- replayed through the state machine. It only reads, so it is a function of the tables.
use side_effects_lab.Prelude.{
  ℕ, ◌+◌, String, Bool, true, false, ◌&&◌, none, some, List, [], ◌∷◌, length, map, all, str_eq,
  ◌==◌,
}
use side_effects_lab.Prelude.Int.{ℤ, pos, eq_ℤ}
use side_effects_lab.Prelude.Result.{
  Result, ok, err, require, operation_not_found_error, ledger_integrity_error, ◌>>=◌, ◌>>◌,
}
use side_effects_lab.Prelude.Exec.{Outcome, returned, raised}
use side_effects_lab.Text.{codes}
use side_effects_lab.Models.Identifiers.{is_attempt_id}
use side_effects_lab.StateMachine.Types.{
  OperationState, OperationIdentity, operation_identity, TransitionEvidence, transition_evidence,
  TransitionRecord,
}
use side_effects_lab.StateMachine.Machine.{OperationStateMachine, new_machine, transition, is_state}
use side_effects_lab.Ledger.Tables.{
  OperationRow, TransitionRow, AttemptRow, SqLiteLedger, find_operation, transitions_of,
  attempts_of,
}
use side_effects_lab.Ledger.Decoding.{as_integrity, state_of, cause_of, strict_db_bool, eq_record}

pub record PersistedTransition : Type 0 where
  pub record_of : TransitionRecord
  pub evidence : TransitionEvidence
  pub event_seq : ℤ

-- `PersistedTransition(record, evidence, event_seq)`
abbrev pub kept_as : TransitionRecord → TransitionEvidence → ℤ → PersistedTransition
kept_as r e seq = record { record_of = r; evidence = e; event_seq = seq }

-- `_operation_row`
unfoldable pub operation_row : String → SqLiteLedger → Result OperationRow
unfolding find_operation
operation_row action s = elim (find_operation action s.operations) [
  | none ↦ err operation_not_found_error
  | some row ↦ ok row
]

unfoldable pub decode_evidence : TransitionRow → Result TransitionEvidence
unfolding cause_of strict_db_bool
decode_evidence row = do
  cause ← cause_of row.cause
  fresh ← strict_db_bool row.fresh
  authoritative ← strict_db_bool row.authoritative
  exact_identity ← strict_db_bool row.exact_identity
  postcondition_verified ← strict_db_bool row.postcondition_verified
  cardinality_valid ← strict_db_bool row.cardinality_valid
  transition_evidence (record {
    evidence_id = row.evidence_id;
    cause = cause;
    fresh = fresh;
    authoritative = authoritative;
    exact_identity = exact_identity;
    postcondition_verified = postcondition_verified;
    cardinality_valid = cardinality_valid;
  })

unfoldable pub decode_record : TransitionRow → Result TransitionRecord
unfolding state_of cause_of
decode_record row = do
  source ← state_of row.source_state
  attempted ← state_of row.attempted_state
  resulting ← state_of row.resulting_state
  cause ← cause_of row.cause
  ok (record {
    source_state = source;
    attempted_state = attempted;
    resulting_state = resulting;
    evidence_id = row.evidence_id;
    cause = cause;
    attempt_id = row.attempt_id;
    violation_reason = row.violation_reason;
  })

-- What a transition's row holds: the evidence, the record and the identity of the call.
pub record Stored : Type 0 where
  pub evidence : TransitionEvidence
  pub expected : TransitionRecord
  pub candidate : OperationIdentity

-- The `try` block around the columns of a row.
unfoldable pub decode_row : TransitionRow → Result Stored
unfolding decode_evidence decode_record operation_identity
decode_row row = do
  evidence ← decode_evidence row
  expected ← decode_record row
  candidate ←
      operation_identity row.candidate_action_id row.candidate_operation_key
        row.candidate_intent_digest row.candidate_authority_id
  ok (record { evidence = evidence; expected = expected; candidate = candidate })

-- The record of a call of `transition`, returned or carried by the exception.
abbrev pub outcome_record : Outcome TransitionRecord TransitionRecord → TransitionRecord
outcome_record (returned r) = r
outcome_record (raised r) = r

-- What is kept of one stored transition, called on the machine again.
unfoldable pub replay_stored :
    Stored → ℤ → OperationStateMachine → Result (OperationStateMachine × PersistedTransition)
replay_stored d event_seq machine =
    let (outcome, after) =
      transition d.expected.attempted_state d.evidence d.candidate d.expected.attempt_id machine in
    do
      require (length after.history == length machine.history + 1) ledger_integrity_error
      require (eq_record (outcome_record outcome) d.expected) ledger_integrity_error
      ok (after, record { record_of = d.expected; evidence = d.evidence; event_seq = event_seq })

-- The body of the loop over the rows.
unfoldable pub replay_row :
    ℕ → TransitionRow → OperationStateMachine → Result (OperationStateMachine × PersistedTransition)
replay_row expected_ordinal row machine = do
  require (eq_ℤ row.ordinal (pos expected_ordinal)) ledger_integrity_error
  stored ← as_integrity (decode_row row)
  replay_stored stored row.event_seq machine

-- The loop: the machine after the rows, and what is kept of each.
unfoldable pub replay_rows :
    ℕ
    → List TransitionRow
    → OperationStateMachine
    → Result (OperationStateMachine × List PersistedTransition)
replay_rows expected_ordinal [] machine = ok (machine, [])
replay_rows expected_ordinal (row ∷ rows) machine = do
  step ← replay_row expected_ordinal row machine
  rest ← replay_rows (expected_ordinal + 1) rows step.0
  ok (rest.0, step.1 ∷ rest.1)

-- `[row["ordinal"] for row in rows] == list(range(k, k + len(rows)))`
unfoldable pub ordinals_from : ℕ → List AttemptRow → Bool
ordinals_from k [] = true
ordinals_from k (r ∷ rs) = eq_ℤ r.ordinal (pos k) && ordinals_from (k + 1) rs

-- `==` of two tuples of texts
unfoldable pub eq_texts : List String → List String → Bool
eq_texts [] [] = true
eq_texts (x ∷ xs) (y ∷ ys) = str_eq x y && eq_texts xs ys
eq_texts _ _ = false

-- The stored attempts against the machine's.
unfoldable pub check_attempts : List AttemptRow → List String → Result (Unit {0})
check_attempts rows attempt_ids = do
  require (all (λ (r : AttemptRow). is_attempt_id (codes r.attempt_id)) rows) ledger_integrity_error
  require (ordinals_from 1 rows) ledger_integrity_error
  require (eq_texts (map (λ (r : AttemptRow). r.attempt_id) rows) attempt_ids)
      ledger_integrity_error

-- The identity and the cached state of an operation's row.
unfoldable pub decode_operation : OperationRow → Result (OperationIdentity × OperationState)
unfolding operation_identity state_of
decode_operation row = do
  identity ← operation_identity row.action_id row.operation_key row.intent_digest row.authority_id
  state ← state_of row.state
  ok (identity, state)

-- `_load_machine_unlocked`
unfoldable pub load_machine :
    String → SqLiteLedger → Result (OperationStateMachine × List PersistedTransition)
load_machine action s = do
  row ← operation_row action s
  cached ← as_integrity (decode_operation row)
  loaded ← replay_rows 1 (transitions_of action s.transitions) (new_machine cached.0)
  require (is_state loaded.0.state cached.1) ledger_integrity_error
  check_attempts (attempts_of action s.attempts) loaded.0.attempt_ids
  ok loaded
