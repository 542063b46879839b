-- ===== src/Ledger/Runs.antt =====
-- Calls run on a ledger of src/side_effects_lab/ledger.py.
use mathlib.Core.Bool.{decide}
use side_effects_lab.Ledger.Permitting.{record_dispatch-returns_iff}
use side_effects_lab.Ledger.Transitions.{DispatchPermit}
use side_effects_lab.Ledger.Tables.{AttemptRow, any}
use side_effects_lab.Prelude.{str_eq}
use side_effects_lab.Prelude.Result.{Result}
use side_effects_lab.Prelude.{
  String, false, none, some, List, [], ◌∷◌, ◌≡◌, refl, map, ◌++◌, str_mem,
}
use side_effects_lab.Prelude.Int.{pos}
use side_effects_lab.Prelude.Result.{ok, err}
use side_effects_lab.Prelude.Exec.{returned}
use side_effects_lab.Prelude.Sorting.{order_by}
use side_effects_lab.Models.Identifiers.{
  is_action_id, is_operation_key, is_digest, is_authority_id, is_attempt_id, is_parameter_name,
}
use side_effects_lab.Models.Events.{lab_event}
use side_effects_lab.Models.Values.{
  parameter_map, keys_are_names, fields_canonical, fields_free_of_urls, freeze_fields, thaw_fields,
  is_url_value, lstrip, has_url_scheme,
}
use side_effects_lab.Canonical.Json.{
  canonical_json_bytes, normalize, sort_keys, insert_member, text_lt, print, quoted, encode,
}
use side_effects_lab.StateMachine.Types.{
  OperationState-discrete, TransitionCause-discrete, authorized, prepared, in_flight, complete,
  authority_confirmed, preparation_durable, attempt_delivered, fresh_postcondition,
  operation_identity, transition_evidence, is_evidence_id, state_value, attempt_for_record,
  changed_identity_fields, normative_cause, guard_failure,
}
use side_effects_lab.StateMachine.Machine.{new_machine, transition}
use side_effects_lab.Ledger.Tables.{EventRow, SqLiteLedger, attempts_of}
use side_effects_lab.Models.Events.{LabEvent}
use side_effects_lab.Ledger.Operations.{snapshots, operation_unlocked}
use side_effects_lab.Ledger.Events.{is_managed}
use side_effects_lab.Ledger.Owning.{HasOwner, validate_lifecycle-owners}
use side_effects_lab.Ledger.Validating.{
  validate_lifecycle, same_set, validate_snapshots, seqs_from, ticks_sorted, managed_seqs, mem_seq,
}
use side_effects_lab.Prelude.{true, All}
use side_effects_lab.Text.Equality.{text_eq}
use side_effects_lab.Ledger.Decoding.{state_of, cause_of, strict_db_bool, eq_record, as_integrity}
use side_effects_lab.Ledger.Replay.{
  operation_row, load_machine, replay_rows, replay_row, replay_stored, decode_row, decode_evidence,
  decode_record, decode_operation, check_attempts, ordinals_from, eq_texts,
}
use side_effects_lab.Ledger.Operations.{register_operation}
use side_effects_lab.Ledger.Persisting.{transition_event_evidence}
use side_effects_lab.Ledger.Transitions.{transition_operation, record_dispatch}
use side_effects_lab.Ledger.Soundness.{LedgerCall, register, move, dispatch, execute}
use side_effects_lab.Ledger.Refinement.{new_ledger, execute_all}
use side_effects_lab.Ledger.Samples.{refund, proof_of, opening}
use side_effects_lab.Ledger.Samples.{refund-IsIdentity, proof-IsEvidence}
use side_effects_lab.Ledger.Refinement.{
  execute_all-IsSound, new_ledger-IsSound, execute_refines, execute_all-new_ledger,
}
use side_effects_lab.Ledger.Soundness.{IsSound, machine_of, SpecStep}
use side_effects_lab.Ledger.Contract.{Executed}
use side_effects_lab.Ledger.Moving.{Itself, transition_operation-Executed}
use side_effects_lab.Ledger.Dispatching.{Permits, record_dispatch-Executed}
use side_effects_lab.Ledger.Registering.{HasNoRows, Registered, register_operation-Registered}
use side_effects_lab.Ledger.Reachable.{records_of, load-reachable}
use side_effects_lab.Ledger.Replaying.{IsIdentity}
use side_effects_lab.Ledger.Appending.{IsLog}
use side_effects_lab.Ledger.Steps.{Settles}
use side_effects_lab.Ledger.Replay.{PersistedTransition}
use side_effects_lab.Ledger.Operations.{OperationSnapshot, operations}
use side_effects_lab.Ledger.Tables.{find_operation, operation_before}
use side_effects_lab.Ledger.Listing.{Listed, operations-Listed}
use side_effects_lab.StateMachine.Runs.{Call, run}
use side_effects_lab.StateMachine.Machine.{OperationStateMachine}
use side_effects_lab.Prelude.{◌⊎◌, ◌↔◌}
use side_effects_lab.StateMachine.Branches.{Accepts}
use side_effects_lab.Ledger.Continuing.{HasRoom}
use side_effects_lab.Ledger.Granting.{transition_operation-returns_iff}

-- What a ledger computes with, on one line.
ledger_runs : Unit {0}
unfolding execute_all execute register_operation transition_operation lab_event is_action_id
    is_operation_key is_digest is_authority_id is_attempt_id is_parameter_name parameter_map
    keys_are_names fields_canonical fields_free_of_urls freeze_fields thaw_fields is_url_value
    lstrip has_url_scheme canonical_json_bytes normalize sort_keys insert_member text_lt print
    quoted encode decide OperationState-discrete TransitionCause-discrete operation_identity
    transition_evidence is_evidence_id state_value changed_identity_fields normative_cause
    guard_failure new_machine transition state_of cause_of strict_db_bool eq_record as_integrity
    operation_row load_machine replay_rows replay_row replay_stored decode_row decode_evidence
    decode_record decode_operation check_attempts record_dispatch attempt_for_record ordinals_from
    eq_texts transition_event_evidence str_mem attempts_of
ledger_runs = tt

states_after : List LedgerCall → List String
states_after cs = map (λ r. r.state) (execute_all cs (new_ledger "run-1")).operations

opening_runs : states_after opening ≡ "AUTHORIZED" ∷ []
unfolding states_after ledger_runs
opening_runs = refl

abbrev dispatching : List LedgerCall
dispatching =
    opening
    ++ move "action-refund-1" prepared (proof_of preparation_durable) refund (pos 2)
      ∷ dispatch "action-refund-1" "attempt-1" (proof_of attempt_delivered) refund (pos 3)
      ∷ []

abbrev dispatched : SqLiteLedger
dispatched = execute_all dispatching (new_ledger "run-1")

-- The events in the order of their numbers, and the operations, of a ledger.
abbrev events_of : List EventRow → List LabEvent
events_of [] = []
events_of (r ∷ rs) = events_of rs ++ r.event ∷ []

abbrev snapshots_in : SqLiteLedger → List OperationSnapshot
snapshots_in s = elim (snapshots s.operations s) [ err e ↦ [] | ok xs ↦ xs ]

dispatched_validates :
    validate_lifecycle dispatched (events_of dispatched.events) (snapshots_in dispatched) ≡ ok tt
unfolding ledger_runs validate_lifecycle snapshots operation_unlocked same_set validate_snapshots
    seqs_from ticks_sorted managed_seqs mem_seq text_eq
dispatched_validates = refl

validate_lifecycle-owners_example :
    All
      (λ e. is_managed e.kind ≡ true → HasOwner e (snapshots_in dispatched))
      (events_of dispatched.events)
validate_lifecycle-owners_example =
    validate_lifecycle-owners dispatched (events_of dispatched.events) (snapshots_in dispatched)
      dispatched_validates

dispatching_runs :
    ((execute_all dispatching (new_ledger "run-1")).attempts
      ≡ record {
        attempt_id = "attempt-1";
        action_id = "action-refund-1";
        ordinal = pos 1;
        dispatch_event_seq = pos 5;
        transition_event_seq = pos 6;
      }
        ∷ [])
    × (states_after dispatching ≡ "IN_FLIGHT" ∷ [])
unfolding states_after ledger_runs
dispatching_runs = (refl, refl)

-- A call that the machine refuses is persisted as a violation, and raises.
violating :
    states_after (
      opening ++ move "action-refund-1" complete (proof_of fresh_postcondition) refund (pos 2) ∷ [])
    ≡ "VIOLATION" ∷ []
unfolding states_after ledger_runs
violating = refl

-- A ledger with the operation registered, and one with it prepared.
abbrev started : SqLiteLedger
started = execute_all (register refund (pos 1) ∷ []) (new_ledger "run-1")

abbrev preparing : List LedgerCall
preparing =
    opening ++ move "action-refund-1" prepared (proof_of preparation_durable) refund (pos 2) ∷ []

abbrev ready : SqLiteLedger
ready = execute_all preparing (new_ledger "run-1")

started-IsSound : IsSound started
started-IsSound =
    execute_all-IsSound (register refund (pos 1) ∷ []) (new_ledger "run-1") (refund-IsIdentity, tt)
      (new_ledger-IsSound "run-1")

ready-IsSound : IsSound ready
ready-IsSound =
    execute_all-IsSound preparing (new_ledger "run-1")
      (
        refund-IsIdentity,
        (
          (proof-IsEvidence authority_confirmed, refund-IsIdentity),
          ((proof-IsEvidence preparation_durable, refund-IsIdentity), tt),
        ),
      )
      (new_ledger-IsSound "run-1")

started_open : started.closed ≡ false
unfolding ledger_runs
started_open = refl

started_loads : load_machine "action-refund-1" started ≡ ok (new_machine refund, [])
unfolding ledger_runs
started_loads = refl

transition_operation-Executed_example :
    Executed Itself "action-refund-1" authorized
      (proof_of authority_confirmed)
      refund
      none
      started
      (transition_operation "action-refund-1" authorized
        (proof_of authority_confirmed)
        refund
        (pos 2)
        started)
transition_operation-Executed_example =
    transition_operation-Executed "action-refund-1" authorized (proof_of authority_confirmed) refund
      (pos 2) started (proof-IsEvidence authority_confirmed) refund-IsIdentity started-IsSound.log

started_room : HasRoom 2 2 started.events
unfolding ledger_runs
started_room = record { log = started-IsSound.log; ahead = refl; seq_fits = refl; tick_fits = refl }

transition_operation-returns_iff_example :
    ((p : PersistedTransition) × (s' : SqLiteLedger) × (transition_operation "action-refund-1"
          authorized
          (proof_of authority_confirmed)
          refund
          (pos 2)
          started
        ≡ (returned p, s')))
    ↔ Accepts (new_machine refund) authorized (proof_of authority_confirmed) refund none
transition_operation-returns_iff_example =
    transition_operation-returns_iff "action-refund-1" 2 started (new_machine refund) [] authorized
      (proof_of authority_confirmed) refund
      (record {
        is_open = started_open;
        room = started_room;
        sound = started-IsSound;
        loaded = started_loads;
      })
      (proof-IsEvidence authority_confirmed) refund-IsIdentity

abbrev loaded_or :
    Result (OperationStateMachine × List PersistedTransition)
    → OperationStateMachine × List PersistedTransition
loaded_or (ok out) = out
loaded_or (err e) = (new_machine refund, [])

abbrev prepared_machine : OperationStateMachine × List PersistedTransition
prepared_machine = loaded_or (load_machine "action-refund-1" ready)

ready_loads : load_machine "action-refund-1" ready ≡ ok (prepared_machine.0, prepared_machine.1)
unfolding ledger_runs
ready_loads = refl

ready_open : ready.closed ≡ false
unfolding ledger_runs
ready_open = refl

ready_room : HasRoom 3 3 ready.events
unfolding ledger_runs
ready_room = record { log = ready-IsSound.log; ahead = refl; seq_fits = refl; tick_fits = refl }

ready_unused : any (λ (r : AttemptRow). str_eq r.attempt_id "attempt-1") ready.attempts ≡ false
unfolding ledger_runs
ready_unused = refl

record_dispatch-returns_iff_example :
    ((x : DispatchPermit) × (s' : SqLiteLedger) × (record_dispatch "action-refund-1" "attempt-1"
          (proof_of attempt_delivered)
          refund
          (pos 3)
          ready
        ≡ (returned x, s')))
    ↔ Accepts prepared_machine.0 in_flight (proof_of attempt_delivered) refund (some "attempt-1")
record_dispatch-returns_iff_example =
    record_dispatch-returns_iff "action-refund-1" "attempt-1" 3 ready prepared_machine.0
      prepared_machine.1 (proof_of attempt_delivered) refund
      (record {
        is_open = ready_open;
        room = ready_room;
        sound = ready-IsSound;
        loaded = ready_loads;
        unused = ready_unused;
      })
      (proof-IsEvidence attempt_delivered) refund-IsIdentity

record_dispatch-Executed_example :
    Executed
      (Permits "action-refund-1" "attempt-1")
      "action-refund-1"
      in_flight
      (proof_of attempt_delivered)
      refund
      (some "attempt-1")
      ready
      (record_dispatch "action-refund-1" "attempt-1"
        (proof_of attempt_delivered)
        refund
        (pos 3)
        ready)
record_dispatch-Executed_example =
    record_dispatch-Executed "action-refund-1" "attempt-1" (proof_of attempt_delivered) refund
      (pos 3) ready (proof-IsEvidence attempt_delivered) refund-IsIdentity ready-IsSound.log

register_operation-Registered_example :
    Settles
      (λ snapshot t. Registered refund snapshot (new_ledger "run-1") t)
      (new_ledger "run-1")
      (register_operation refund (pos 1) (new_ledger "run-1"))
register_operation-Registered_example =
    register_operation-Registered (new_ledger "run-1") refund (pos 1) refund-IsIdentity tt
      ((new_ledger-IsSound "run-1").fresh "action-refund-1")

load-reachable_example :
    ((new_machine refund).identity.action_id ≡ "action-refund-1")
    × IsIdentity (new_machine refund).identity
    × ((cs : List Call) × (new_machine refund ≡ run cs (new_machine (new_machine refund).identity)))
    × ((new_machine refund).history ≡ records_of [])
load-reachable_example =
    load-reachable "action-refund-1" started (new_machine refund) [] started_loads

execute_refines_example :
    (let s = execute (register refund (pos 1)) (new_ledger "run-1") in
      IsSound s × SpecStep (machine_of (new_ledger "run-1")) (machine_of s))
execute_refines_example =
    execute_refines (register refund (pos 1)) (new_ledger "run-1") refund-IsIdentity
      (new_ledger-IsSound "run-1")

execute_all-new_ledger_example :
    (let s = execute_all (register refund (pos 1) ∷ []) (new_ledger "run-1") in
      IsLog s.events
      × ((b : String)
          → ((find_operation b s.operations ≡ none) × HasNoRows b s)
            ⊎ ((m : OperationStateMachine) × (ps : List PersistedTransition) × (calls : List Call)
                × (load_machine b s ≡ ok (m, ps))
                × (m ≡ run calls (new_machine m.identity)))))
execute_all-new_ledger_example =
    execute_all-new_ledger (register refund (pos 1) ∷ []) "run-1" (refund-IsIdentity, tt)

operations-Listed_example :
    (xs : List OperationSnapshot) × (operations started ≡ (returned xs, started))
    × Listed started (order_by operation_before started.operations) xs
operations-Listed_example = operations-Listed started started-IsSound started_open
