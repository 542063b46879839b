-- ===== src/Ledger/Operations.antt =====
-- Registering an operation and reading operations: src/side_effects_lab/ledger.py. An argument's type
-- takes the place of the `isinstance` tests; an `OperationIdentity` was validated when it was made.
use side_effects_lab.Prelude.{String, none, some, List, [], ◌∷◌, not}
use side_effects_lab.Prelude.Int.{ℤ}
use side_effects_lab.Prelude.Sorting.{order_by}
use side_effects_lab.Prelude.Result.{
  Result, ok, require, value_error, validation_error, duplicate_operation_error, integrity_error,
}
use side_effects_lab.Prelude.Result.{◌>>=◌ as then_do}
use side_effects_lab.Prelude.Exec.{pure, gets, modify, lift, ◌>>=◌, ◌>>◌}
use side_effects_lab.Text.{codes}
use side_effects_lab.Models.Bounds.{is_non_negative}
use side_effects_lab.Models.Identifiers.{is_action_id}
use side_effects_lab.Models.Values.{end}
use side_effects_lab.Models.Events.{EventKind, action_proposed, LabEvent, lab_event}
use side_effects_lab.StateMachine.Types.{OperationState, proposed, state_value, OperationIdentity}
use side_effects_lab.Ledger.Tables.{
  OperationRow, SqLiteLedger, LedgerAction, operation_before, operation_allowed, has_operation,
}
use side_effects_lab.Ledger.Events.{require_open, transaction, next_event_seq_of, insert_event}
use side_effects_lab.Ledger.Replay.{PersistedTransition, operation_row, load_machine}

pub record OperationSnapshot : Type 0 where
  pub identity : OperationIdentity
  pub state : OperationState
  pub created_event_seq : ℤ
  pub updated_event_seq : ℤ
  pub attempt_ids : List String
  pub history : List PersistedTransition

-- A call that only reads the tables.
abbrev pub reads : {A : Type 0} → (SqLiteLedger → Result A) → LedgerAction A
reads f s = lift (f s) s

-- `_strict_non_negative_int` of an integer
unfoldable pub strict_tick : ℤ → Result ℤ
strict_tick n = then_do (require (is_non_negative n) value_error) (λ _. ok n)

-- `_operation_unlocked`
unfoldable pub operation_unlocked : String → SqLiteLedger → Result OperationSnapshot
unfolding load_machine operation_row
operation_unlocked action s = then_do (load_machine action s) (λ loaded.
    then_do (operation_row action s) (λ row. ok (record {
      identity = loaded.0.identity;
      state = loaded.0.state;
      created_event_seq = row.created_event_seq;
      updated_event_seq = row.updated_event_seq;
      attempt_ids = loaded.0.attempt_ids;
      history = loaded.1;
    })))

-- `operation`
unfoldable pub operation : String → LedgerAction OperationSnapshot
unfolding require_open operation_unlocked
operation action = do
  require_open
  lift (require (is_action_id (codes action)) validation_error)
  reads (operation_unlocked action)

unfoldable pub snapshots : List OperationRow → SqLiteLedger → Result (List OperationSnapshot)
unfolding operation_unlocked
snapshots [] s = ok []
snapshots (r ∷ rs) s =
    then_do (operation_unlocked r.action_id s)
      (λ snapshot. then_do (snapshots rs s) (λ rest. ok (snapshot ∷ rest)))

-- `operations`
unfoldable pub operations : LedgerAction (List OperationSnapshot)
unfolding require_open order_by snapshots
operations = do require_open; reads (λ s. snapshots (order_by operation_before s.operations) s)

-- `LabEvent(...)` with no evidence, of an operation.
abbrev pub lifecycle_event : ℤ → ℤ → EventKind → OperationIdentity → LabEvent
lifecycle_event seq tick kind identity = record {
  seq = seq;
  tick = tick;
  kind = kind;
  action_id = some identity.action_id;
  attempt_id = none;
  operation_key = some identity.operation_key;
  effect_id = none;
  intent_digest = some identity.intent_digest;
  authority_id = some identity.authority_id;
  workflow_id = none;
  fault_id = none;
  evidence = end;
}

-- The event of a call, made, which validates it, and inserted: its sequence number.
unfoldable pub insert_next : (ℤ → LabEvent) → LedgerAction ℤ
unfolding next_event_seq_of insert_event
insert_next make = do
  seq ← gets (λ s. next_event_seq_of s.events)
  event ← lift (lab_event (make seq))
  insert_event event
  pure seq

-- The row of a new operation.
abbrev pub new_operation : OperationIdentity → ℤ → OperationRow
new_operation identity seq = record {
  action_id = identity.action_id;
  operation_key = identity.operation_key;
  intent_digest = identity.intent_digest;
  authority_id = identity.authority_id;
  state = state_value proposed;
  created_event_seq = seq;
  updated_event_seq = seq;
}

-- `INSERT INTO operations`
unfoldable pub insert_operation : OperationRow → LedgerAction (Unit {0})
unfolding operation_allowed
insert_operation row = do
  reads (λ s. require (operation_allowed row s) integrity_error)
  modify (λ s. record s { operations = row ∷ s.operations })

-- The body of the transaction in `register_operation`.
unfoldable pub register_body : OperationIdentity → ℤ → LedgerAction OperationSnapshot
unfolding insert_next insert_operation operation_unlocked
register_body identity tick = do
  reads
      (λ s. require (not (has_operation identity.action_id s.operations)) duplicate_operation_error)
  seq ← insert_next (λ n. lifecycle_event n tick action_proposed identity)
  insert_operation (new_operation identity seq)
  reads (operation_unlocked identity.action_id)

-- `register_operation`
unfoldable pub register_operation : OperationIdentity → ℤ → LedgerAction OperationSnapshot
unfolding require_open strict_tick transaction register_body
register_operation identity tick = do
  require_open
  validated_tick ← lift (strict_tick tick)
  transaction (register_body identity validated_tick)
