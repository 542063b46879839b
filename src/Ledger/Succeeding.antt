-- ===== src/Ledger/Succeeding.antt =====
-- `_persist_transition` of src/side_effects_lab/ledger.py returns, where the log has room.
use side_effects_lab.Prelude.{
  ℕ, ◌+◌, String, true, List, ◌∷◌, ◌≡◌, refl, ap, ◌∙◌, length, arith, leb, ltb,
}
use side_effects_lab.Prelude.Int.{ℤ, pos, eq_ℤ_iff}
use side_effects_lab.Prelude.Exec.{returned, pure, ◌>>◌}
use side_effects_lab.StateMachine.Types.{
  prepared, OperationIdentity, TransitionEvidence, TransitionRecord, state_value,
}
use side_effects_lab.StateMachine.Machine.{is_state}
use side_effects_lab.Models.Events.{state_transition}
use side_effects_lab.Ledger.Tables.{
  EventRow, TransitionRow, SqLiteLedger, transitions_of, next_ordinal, has_event, has_operation,
  transition_allowed,
}
use side_effects_lab.Ledger.Operations.{insert_next}
use side_effects_lab.Ledger.Replay.{PersistedTransition, kept_as}
use side_effects_lab.Ledger.Persisting.{
  new_transition, transition_event, transition_event_evidence, insert_transition, updated,
  update_operation, insert_prepared, persist_transition,
}
use side_effects_lab.Ledger.Allowing.{unused_seq, unused_ordinal, transition_allowed_lem}
use side_effects_lab.Ledger.Dating.{IsDated, Below}
use side_effects_lab.Ledger.Continuing.{HasRoom, IsRecordable, event_goes, prepared_goes}
use side_effects_lab.Ledger.Replaying.{IsIdentity}
use side_effects_lab.Ledger.Rows.{Numbered, next_ordinal-Numbered}
use side_effects_lab.Ledger.Steps.{Ending, bind_goes}

-- The call returns.
abbrev pub Succeeds : {A : Type 0} → Ending A → Type 0
Succeeds {A} out = (a : A) × (s : SqLiteLedger) × (out ≡ (returned a, s))

-- And its transition has the sequence number.
abbrev pub Persisted : ℕ → Ending PersistedTransition → Type 0
Persisted n out =
    (p : PersistedTransition) × (s : SqLiteLedger) × (out ≡ (returned p, s)) × (p.event_seq ≡ pos n)

transition_inserted :
    (row : TransitionRow) (s : SqLiteLedger)
    → transition_allowed row s ≡ true
    → insert_transition row s ≡ (returned tt, record s { transitions = row ∷ s.transitions })
unfolding insert_transition
transition_inserted row s h = rw h refl

operation_updated :
    (action state : String) (seq : ℤ) (s : SqLiteLedger)
    → has_event seq s.events ≡ true
    → update_operation action state seq s
      ≡ (returned tt, record s { operations = updated action state seq s.operations })
unfolding update_operation
operation_updated action state seq s h = rw h refl

newest_event :
    (row : EventRow) (rows : List EventRow) (seq : ℤ)
    → row.event.seq ≡ seq
    → has_event seq (row ∷ rows) ≡ true
newest_event row rows seq h = rw ((eq_ℤ_iff row.event.seq seq).1 h) refl

-- The constraints hold of the row of a transition with the next ordinal and a new event.
row_allowed :
    (action : String) (candidate : OperationIdentity) (r : TransitionRecord)
    (e : TransitionEvidence) (row : EventRow) (rows : List EventRow) (s : SqLiteLedger)
    → has_operation action s.operations ≡ true
    → Numbered (λ x. x.ordinal) 1 (transitions_of action s.transitions)
    → Below (length s.events) s.transitions
    → leb (length s.events) (length rows) ≡ true
    → row.event.seq ≡ pos (length rows + 1)
    → transition_allowed
        (new_transition action candidate r e
          (next_ordinal (transitions_of action s.transitions))
          (pos (length rows + 1)))
        (record s { events = row ∷ rows })
      ≡ true
row_allowed action candidate r e row rows s known n below grown seq =
    let k = length (transitions_of action s.transitions) in
    let s' = record s { events = row ∷ rows } in
    ap (λ x. transition_allowed (new_transition action candidate r e x (pos (length rows + 1))) s')
      (next_ordinal-Numbered (transitions_of action s.transitions) n)
    ∙ transition_allowed_lem action candidate r e k (pos (length rows + 1)) s' known
        (unused_ordinal action s.transitions n)
        (unused_seq (length s.events) (length rows + 1) s.transitions below (ground arith))
        (newest_event row rows (pos (length rows + 1)) seq)

rest_goes :
    (action : String) (candidate : OperationIdentity) (r : TransitionRecord)
    (e : TransitionEvidence) (n : ℕ) (s : SqLiteLedger)
    → transition_allowed
        (new_transition action candidate r e
          (next_ordinal (transitions_of action s.transitions))
          (pos n))
        s
      ≡ true
    → has_event (pos n) s.events ≡ true
    → Persisted n (
        (insert_transition (
              new_transition action candidate r e
                (next_ordinal (transitions_of action s.transitions))
                (pos n))
            >> (update_operation action (state_value r.resulting_state) (pos n)
                >> pure (kept_as r e (pos n))))
          s)
rest_goes action candidate r e n s allowed dated =
    let row =
      new_transition action candidate r e (next_ordinal (transitions_of action s.transitions))
        (pos n) in
    let s' = record s { transitions = row ∷ s.transitions } in
    let state = state_value r.resulting_state in
    bind_goes (Persisted n) (insert_transition row) _ s tt s' (transition_inserted row s allowed) (
      bind_goes (Persisted n) (update_operation action state (pos n)) _ s' tt
        (record s' { operations = updated action state (pos n) s.operations })
        (operation_updated action state (pos n) s' dated) (kept_as r e (pos n), _, refl, refl))

next_later : (j k : ℕ) → leb j k ≡ true → ltb j (k + 1) ≡ true
next_later j k h = ground arith

-- What a transition needs of the ledger.
pub record CanPersist (tick : ℕ) (id : OperationIdentity) (s : SqLiteLedger) : Type 0 where
  pub room : HasRoom 2 tick s.events
  pub made : IsIdentity id
  pub known : has_operation id.action_id s.operations ≡ true
  pub numbered : Numbered (λ x. x.ordinal) 1 (transitions_of id.action_id s.transitions)
  pub dated : IsDated s

pub persist_transition_goes :
    (tick : ℕ) (id candidate : OperationIdentity) (r : TransitionRecord) (e : TransitionEvidence)
    (s : SqLiteLedger)
    → CanPersist tick id s
    → IsRecordable id r.attempt_id (transition_event_evidence r e)
    → (n : ℕ) × (ltb (length s.events) n ≡ true)
      × Persisted n (persist_transition id candidate r e (pos tick) s)
unfolding persist_transition
persist_transition_goes tick id candidate r e s can h =
    let action = id.action_id in
    let (rows, prepares, (room, grown)) =
      prepared_goes tick id r r.violation_reason (is_state r.resulting_state prepared) s refl refl
        can.room can.made in
    let s1 = record s { events = rows } in
    let (row, inserts, seq, room') =
      event_goes 0 tick state_transition id r.attempt_id (transition_event_evidence r e) s1 room
        h in
    let allowed =
      row_allowed action candidate r e row rows s can.known can.numbered can.dated.0 grown seq in
    (
      length rows + 1,
      next_later (length s.events) (length rows) grown,
      bind_goes (Persisted (length rows + 1)) (insert_prepared id r (pos tick)) _ s tt s1 prepares (
          bind_goes (Persisted (length rows + 1)) (insert_next (transition_event id r e (pos tick)))
            _ s1 (pos (length rows + 1)) (record s { events = row ∷ rows }) inserts
            (rest_goes action candidate r e (length rows + 1) (record s { events = row ∷ rows })
              allowed (newest_event row rows (pos (length rows + 1)) seq))),
    )
