-- ===== src/Ledger/Advance.antt =====
-- What a persisted transition of src/side_effects_lab/ledger.py does to the loads of the operations.
use side_effects_lab.Prelude.{
  ◌+◌, String, Option, List, [], ◌∷◌, ◌++◌, ◌≡◌, ◌≢◌, sym, ap, ◌∙◌, subst, length,
}
use side_effects_lab.Prelude.Int.{ℤ, pos}
use side_effects_lab.Prelude.Result.{ok}
use side_effects_lab.Prelude.Exec.{Outcome}
use side_effects_lab.StateMachine.Types.{
  OperationState, TransitionEvidence, OperationIdentity, TransitionRecord, state_value,
}
use side_effects_lab.StateMachine.Machine.{OperationStateMachine, new_machine}
use side_effects_lab.Ledger.Tables.{
  EventRow, AttemptRow, SqLiteLedger, transitions_of, attempts_of, next_ordinal,
}
use side_effects_lab.Ledger.Replay.{PersistedTransition, kept_as, outcome_record, replay_rows}
use side_effects_lab.Ledger.Persisting.{new_transition, updated}
use side_effects_lab.Ledger.Trying.{Moved}
use side_effects_lab.Ledger.Rows.{
  transitions_of-other, transitions_of-next, next_ordinal-Numbered, find-updated,
  find-updated_other,
}
use side_effects_lab.Ledger.Replaying.{
  IsIdentity, IsEvidence, row_again, replay_rows-snoc, replay_rows-Numbered,
}
use side_effects_lab.Ledger.Loading.{Loaded, AttemptsFit, SameRows, with_state_read}

-- The ledger after `_persist_transition`.
abbrev pub persisted_in :
    SqLiteLedger
    → String
    → OperationIdentity
    → TransitionRecord
    → TransitionEvidence
    → ℤ
    → List EventRow
    → SqLiteLedger
persisted_in s action candidate r e seq rows = record s {
  events = rows;
  transitions =
      new_transition action candidate r e (next_ordinal (transitions_of action s.transitions)) seq
      ∷ s.transitions;
  operations = updated action (state_value r.resulting_state) seq s.operations;
}

module _ (s : SqLiteLedger) (action : String) (m m' : OperationStateMachine) (t : OperationState)
    (e : TransitionEvidence) (id : OperationIdentity) (a : Option String)
    (o : Outcome TransitionRecord TransitionRecord) (ps : List PersistedTransition) (seq : ℤ)
    (rows : List EventRow) where
  -- The operation's machine is the one that the call left, with one transition more.
  pub load_advances :
      (attempts : List AttemptRow)
      → Loaded action s m ps
      → Moved m t e id a o m'
      → IsEvidence e
      → IsIdentity id
      → AttemptsFit (attempts_of action attempts) m'.attempt_ids
      → Loaded action
          (record (persisted_in s action id (outcome_record o) e seq rows) { attempts = attempts })
          m'
          (ps ++ kept_as (outcome_record o) e seq ∷ [])
  load_advances attempts before moves valid made fit =
      let own = transitions_of action s.transitions in
      let numbered =
        replay_rows-Numbered 1 own (new_machine before.identity) m ps before.replayed in
      let ordinal = next_ordinal own in
      let next : ordinal ≡ pos (1 + length own) = next_ordinal-Numbered own numbered in
      let row = new_transition action id (outcome_record o) e ordinal seq in
      record {
        row = record before.row {
          state = state_value (outcome_record o).resulting_state;
          updated_event_seq = seq;
        };
        identity = before.identity;
        found = find-updated action _ seq s.operations before.row before.found;
        decoded =
            with_state_read before.row before.identity m.state _ seq before.decoded
            ∙ ap (λ x. ok (before.identity, x)) (sym moves.state_is);
        replayed =
            subst
              (λ x.
                replay_rows 1 x (new_machine before.identity)
                ≡ ok (m', ps ++ kept_as (outcome_record o) e seq ∷ []))
              (sym (transitions_of-next row s.transitions numbered next))
              (replay_rows-snoc 1 own row (new_machine before.identity) m m' ps
                (kept_as (outcome_record o) e seq) before.replayed
                (row_again action m t e id a o m' (1 + length own) ordinal seq valid made moves
                  next));
        attempts_fit = fit;
      }

  -- No other operation's rows change.
  pub others_stay :
      (attempts : List AttemptRow) (b : String)
      → b ≢ action
      → attempts_of b attempts ≡ attempts_of b s.attempts
      → SameRows b s
          (record (persisted_in s action id (outcome_record o) e seq rows) { attempts = attempts })
  others_stay attempts b other same = record {
    operation = find-updated_other action b _ seq s.operations (λ h. other (sym h));
    transitions = transitions_of-other b _ s.transitions (λ h. other (sym h));
    attempts = same;
  }
