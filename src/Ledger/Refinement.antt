-- ===== src/Ledger/Refinement.antt =====
-- Runs of calls on a ledger of src/side_effects_lab/ledger.py.
use side_effects_lab.Prelude.{
  All, String, false, true, none, some, List, [], ◌∷◌, ◌≡◌, ◌⊎◌, inl, inr, refl, sym, ap, ◌∙◌,
  subst,
}
use side_effects_lab.Prelude.Result.{ok}
use side_effects_lab.Prelude.Exec.{returned, raised}
use side_effects_lab.Models.Events.{LabEvent}
use side_effects_lab.StateMachine.Types.{OperationIdentity}
use side_effects_lab.StateMachine.Machine.{OperationStateMachine, new_machine}
use side_effects_lab.StateMachine.Runs.{Call, run}
use side_effects_lab.Ledger.Tables.{
  EventRow, SqLiteLedger, find_operation, transitions_of, attempts_of,
}
use side_effects_lab.Ledger.Events.{close, append_event}
use side_effects_lab.Ledger.Appending.{IsLog, Appended, append_event-Appended}
use side_effects_lab.Ledger.Dating.{IsDated, IsDated-more, Extends-next}
use side_effects_lab.Ledger.Steps.{Ending, Settles}
use side_effects_lab.Ledger.Replay.{PersistedTransition, load_machine}
use side_effects_lab.Ledger.Operations.{OperationSnapshot, register_operation}
use side_effects_lab.Ledger.Loading.{SameRows, load-SameRows, load-absent}
use side_effects_lab.Ledger.Reachable.{load-reachable}
use side_effects_lab.Ledger.Moving.{Itself, transition_operation-Executed}
use side_effects_lab.Ledger.Dispatching.{Permits, record_dispatch-Executed}
use side_effects_lab.StateMachine.Types.{in_flight}
use side_effects_lab.Ledger.Registering.{Registered, register_operation-Registered, HasNoRows}
use side_effects_lab.Ledger.Soundness.{
  IsSound, machine_in, machine_of, SpecStep, stays, registers, LedgerCall, register, move, dispatch,
  append, shut, IsMade, execute, Refines, unmoved, changed-IsSound, others_seen, Executed-Refines,
}

Registered-Refines :
    (id : OperationIdentity) (s : SqLiteLedger) (out : Ending OperationSnapshot)
    → IsSound s
    → Settles (λ snapshot t. Registered id snapshot s t) s out
    → Refines s out.1
Registered-Refines id s (raised e, s') h same = unmoved s s' h same
Registered-Refines id s (returned snapshot, s') h reg = (
  changed-IsSound s s' id.action_id h reg.others ((new_machine id, []), reg.stored) reg.log
      (reg.dated h.dated),
  registers id (ap machine_in (load-absent id.action_id s reg.was_absent))
      (ap machine_in reg.stored) (others_seen s s' id.action_id h reg.others),
)

-- The tables of the operations are as they were.
untouched :
    (s s' : SqLiteLedger)
    → ((b : String) → SameRows b s s')
    → IsSound s
    → IsLog s'.events
    → IsDated s'
    → Refines s s'
untouched s s' same h log dated = (
  record {
    log = log;
    dated = dated;
    loads = λ b. elim (h.loads b) [
      | inl free ↦ inl ((same b).operation ∙ free)
      | inr (out, is) ↦ inr (out, load-SameRows b s s' (same b) ∙ is)
    ];
    fresh = λ b free.
        let empty = h.fresh b (sym (same b).operation ∙ free) in
        ((same b).transitions ∙ empty.0, (same b).attempts ∙ empty.1);
  },
  stays (λ b. ap machine_in (load-SameRows b s s' (same b))),
)

Appended-Refines :
    (s : SqLiteLedger) (out : Ending LabEvent) → IsSound s → Appended s out → Refines s out.1
Appended-Refines s (raised e, s') h same = unmoved s s' h same
Appended-Refines s (returned v, s') h (bytes, is, canonical, log) =
    let row : EventRow = record { event = v; evidence_json = bytes } in
    let log' = subst (λ x. IsLog x.events) is log in
    subst (Refines s) (sym is) (
      untouched s (record s { events = row ∷ s.events })
        (λ b. record { operation = refl; transitions = refl; attempts = refl }) h log'
        (IsDated-more s (row ∷ s.events) (Extends-next row s.events log').grown h.dated))

closed-Refines : (s : SqLiteLedger) → IsSound s → Refines s (close s).1
unfolding close
closed-Refines s h =
    untouched s (record s { closed = true })
      (λ b. record { operation = refl; transitions = refl; attempts = refl }) h h.log h.dated

-- Every call on a sound ledger, whatever its outcome, leaves it sound, and looks as one step of the
-- specification: it changes no machine, adds a new one, or calls `transition` on one.
pub execute_refines :
    (c : LedgerCall) (s : SqLiteLedger)
    → IsMade c
    → IsSound s
    → IsSound (execute c s) × SpecStep (machine_of s) (machine_of (execute c s))
unfolding execute
execute_refines (register id tick) s made h =
    Registered-Refines id s (register_operation id tick s) h
      (register_operation-Registered s id tick made h.log (h.fresh id.action_id))
execute_refines (move action t e id tick) s (valid, made) h =
    Executed-Refines Itself action t e id none s _ h
      (transition_operation-Executed action t e id tick s valid made h.log)
execute_refines (dispatch action attempt e id tick) s (valid, made) h =
    Executed-Refines (Permits action attempt) action in_flight e id (some attempt) s _ h
      (record_dispatch-Executed action attempt e id tick s valid made h.log)
execute_refines (append event) s made h =
    Appended-Refines s (append_event event s) h (append_event-Appended event s h.log)
execute_refines shut s made h = closed-Refines s h

-- The database of a new run.
abbrev pub new_ledger : String → SqLiteLedger
new_ledger run_id = record {
  closed = false;
  run_id = run_id;
  events = [];
  operations = [];
  transitions = [];
  attempts = [];
}

pub new_ledger-IsSound : (run_id : String) → IsSound (new_ledger run_id)
unfolding find_operation transitions_of attempts_of
new_ledger-IsSound run_id = record {
  log = tt;
  dated = (tt, tt);
  loads = λ b. inl refl;
  fresh = λ b free. (refl, refl);
}

-- The ledger after some calls.
unfoldable pub execute_all : List LedgerCall → SqLiteLedger → SqLiteLedger
execute_all [] s = s
execute_all (c ∷ cs) s = execute_all cs (execute c s)

pub execute_all-IsSound :
    (cs : List LedgerCall) (s : SqLiteLedger)
    → All IsMade cs
    → IsSound s
    → IsSound (execute_all cs s)
unfolding execute_all
execute_all-IsSound [] s made h = h
execute_all-IsSound (c ∷ cs) s made h =
    execute_all-IsSound cs (execute c s) made.1 (execute_refines c s made.0 h).0

-- After any calls on the ledger of a new run, the events are a log, every registered operation loads,
-- as a machine that calls of `transition` on a new one lead to, and no row is left of an operation that
-- is not registered.
pub execute_all-new_ledger :
    (cs : List LedgerCall) (run_id : String)
    → All IsMade cs
    → (let s = execute_all cs (new_ledger run_id) in
        IsLog s.events
        × ((b : String)
            → ((find_operation b s.operations ≡ none) × HasNoRows b s)
              ⊎ ((m : OperationStateMachine) × (ps : List PersistedTransition) × (calls : List Call)
                  × (load_machine b s ≡ ok (m, ps))
                  × (m ≡ run calls (new_machine m.identity)))))
execute_all-new_ledger cs run_id made =
    let s = execute_all cs (new_ledger run_id) in
    let h = execute_all-IsSound cs (new_ledger run_id) made (new_ledger-IsSound run_id) in
    (
      h.log,
      λ b. elim (h.loads b) [
        | inl free ↦ inl (free, h.fresh b free)
        | inr (out, is) ↦
            let (own, valid, (calls, ran), kept) = load-reachable b s out.0 out.1 is in
            inr (out.0, out.1, calls, is, ran)
      ],
    )
