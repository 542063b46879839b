-- ===== src/Ledger/Transitions.antt =====
-- `transition` and `record_dispatch` of src/side_effects_lab/ledger.py. InvalidTransitionError is caught
-- inside the transaction and raised again after the commit; of the exception its class is kept here, and
-- its record is the one that was persisted.
use side_effects_lab.Prelude.{
  String, Bool, true, false, not, Option, none, some, length, ◌==◌, if◌then◌else◌, ◌∷◌,
}
use side_effects_lab.Prelude.Int.{ℤ, pos}
use side_effects_lab.Prelude.Result.{
  Result, ok, err, require, validation_error, dispatch_required_error, ledger_integrity_error,
  invalid_transition_error,
}
use side_effects_lab.Prelude.Exec.{returned, raised, pure, modify, lift, ◌>>=◌, ◌>>◌}
use side_effects_lab.Text.{codes}
use side_effects_lab.Models.Identifiers.{is_action_id, is_attempt_id}
use side_effects_lab.Models.Events.{attempt_dispatched}
use side_effects_lab.StateMachine.Types.{
  OperationState, in_flight, OperationIdentity, TransitionEvidence, TransitionRecord,
}
use side_effects_lab.StateMachine.Machine.{OperationStateMachine, transition, is_state}
use side_effects_lab.Ledger.Tables.{AttemptRow, LedgerAction, attempt_allowed}
use side_effects_lab.Ledger.Events.{require_open, transaction}
use side_effects_lab.Ledger.Replay.{PersistedTransition, load_machine}
use side_effects_lab.Ledger.Operations.{reads, strict_tick, lifecycle_event, insert_next}
use side_effects_lab.Ledger.Persisting.{persist_transition}

pub record DispatchPermit : Type 0 where
  pub run_id : String
  pub action_id : String
  pub attempt_id : String
  pub dispatch_event_seq : ℤ
  pub transition_event_seq : ℤ

-- The call of the machine in its `try` block: the machine after it, whether the exception was caught,
-- and the record to persist.
pub record Tried : Type 0 where
  pub machine : OperationStateMachine
  pub caught : Bool
  pub to_persist : Option TransitionRecord

unfoldable pub try_transition :
    OperationState
    → TransitionEvidence
    → OperationIdentity
    → Option String
    → OperationStateMachine
    → Tried
try_transition target evidence identity attempt machine =
    let (outcome, after) = transition target evidence identity attempt machine in
    elim outcome [
      | returned r ↦ record { machine = after; caught = false; to_persist = some r }
      | raised r ↦ record {
        machine = after;
        caught = true;
        to_persist = if length after.history == length machine.history then none else some r;
      }
    ]

-- The persisted transition, if there is a record.
unfoldable pub persist_tried :
    Tried
    → OperationIdentity
    → TransitionEvidence
    → ℤ
    → Option TransitionRecord
    → LedgerAction (Bool × Option PersistedTransition)
unfolding persist_transition
persist_tried tried candidate evidence tick none = pure (tried.caught, none)
persist_tried tried candidate evidence tick (some r) = do
  p ← persist_transition tried.machine.identity candidate r evidence tick
  pure (tried.caught, some p)

-- The body of the transaction in `transition`.
unfoldable pub transition_body :
    String
    → OperationState
    → TransitionEvidence
    → OperationIdentity
    → ℤ
    → LedgerAction (Bool × Option PersistedTransition)
unfolding load_machine try_transition persist_tried
transition_body action target evidence identity tick = do
  loaded ← reads (load_machine action)
  let tried = try_transition target evidence identity none loaded.0
  persist_tried tried identity evidence tick tried.to_persist

-- What the caller gets after the commit.
unfoldable pub settle : {A : Type 0} → Bool × Option A → Result A
settle (true, result) = err invalid_transition_error
settle (false, none) = err ledger_integrity_error
settle (false, some a) = ok a

-- `transition`
unfoldable pub transition_operation :
    String
    → OperationState
    → TransitionEvidence
    → OperationIdentity
    → ℤ
    → LedgerAction PersistedTransition
unfolding require_open strict_tick transaction transition_body settle
transition_operation action target evidence identity tick = do
  require_open
  lift (require (is_action_id (codes action)) validation_error)
  validated_tick ← lift (strict_tick tick)
  lift (require (not (is_state target in_flight)) dispatch_required_error)
  out ← transaction (transition_body action target evidence identity validated_tick)
  lift (settle out)

-- `INSERT INTO attempts`, where a broken constraint is a collision.
unfoldable pub insert_attempt : AttemptRow → LedgerAction (Unit {0})
unfolding attempt_allowed
insert_attempt row = do
  reads (λ s. require (attempt_allowed row s) ledger_integrity_error)
  modify (λ s. record s { attempts = row ∷ s.attempts })

-- The row of a dispatched attempt.
abbrev pub new_attempt : String → OperationStateMachine → ℤ → ℤ → AttemptRow
new_attempt attempt machine dispatch_seq transition_seq = record {
  attempt_id = attempt;
  action_id = machine.identity.action_id;
  ordinal = pos (length machine.attempt_ids);
  dispatch_event_seq = dispatch_seq;
  transition_event_seq = transition_seq;
}

-- A dispatch that the machine accepted.
unfoldable pub persist_dispatch :
    Tried
    → OperationIdentity
    → String
    → TransitionEvidence
    → ℤ
    → TransitionRecord
    → LedgerAction DispatchPermit
unfolding insert_next persist_transition insert_attempt
persist_dispatch tried candidate attempt evidence tick r = do
  dispatch_seq ← insert_next (λ n.
      record (lifecycle_event n tick attempt_dispatched tried.machine.identity) {
        attempt_id = some attempt;
      })
  p ← persist_transition tried.machine.identity candidate r evidence tick
  insert_attempt (new_attempt attempt tried.machine dispatch_seq p.event_seq)
  λ s. (
    returned (record {
      run_id = s.run_id;
      action_id = tried.machine.identity.action_id;
      attempt_id = attempt;
      dispatch_event_seq = dispatch_seq;
      transition_event_seq = p.event_seq;
    }),
    s,
  )

-- The three ways on from the machine's answer.
unfoldable pub dispatch_tried :
    Tried
    → OperationIdentity
    → String
    → TransitionEvidence
    → ℤ
    → Bool
    → Option TransitionRecord
    → LedgerAction (Bool × Option DispatchPermit)
unfolding persist_transition persist_dispatch
dispatch_tried tried candidate attempt evidence tick caught none = pure (caught, none)
dispatch_tried tried candidate attempt evidence tick true (some r) = do
  persist_transition tried.machine.identity candidate r evidence tick
  pure (true, none)
dispatch_tried tried candidate attempt evidence tick false (some r) = do
  permit ← persist_dispatch tried candidate attempt evidence tick r
  pure (false, some permit)

-- The body of the transaction in `record_dispatch`.
unfoldable pub dispatch_body :
    String
    → String
    → TransitionEvidence
    → OperationIdentity
    → ℤ
    → LedgerAction (Bool × Option DispatchPermit)
unfolding load_machine try_transition dispatch_tried
dispatch_body action attempt evidence identity tick = do
  loaded ← reads (load_machine action)
  let tried = try_transition in_flight evidence identity (some attempt) loaded.0
  dispatch_tried tried identity attempt evidence tick tried.caught tried.to_persist

-- `record_dispatch`
unfoldable pub record_dispatch :
    String → String → TransitionEvidence → OperationIdentity → ℤ → LedgerAction DispatchPermit
unfolding require_open strict_tick transaction dispatch_body settle
record_dispatch action attempt evidence identity tick = do
  require_open
  lift (require (is_action_id (codes action)) validation_error)
  lift (require (is_attempt_id (codes attempt)) validation_error)
  validated_tick ← lift (strict_tick tick)
  out ← transaction (dispatch_body action attempt evidence identity validated_tick)
  lift (settle out)
