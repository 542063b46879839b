-- ===== src/Ledger/Effects.antt =====
-- What the statements of src/side_effects_lab/ledger.py leave in the tables, where they do not raise.
use side_effects_lab.Prelude.{
  String, Bool, true, false, Option, none, some, List, ◌∷◌, ◌≡◌, refl, sym, subst,
}
use side_effects_lab.Prelude.Int.{ℤ}
use side_effects_lab.Prelude.Result.{
  Error, require, require_ok, integrity_error, ledger_integrity_error,
}
use side_effects_lab.Prelude.Exec.{returned, raised, pure, lift, ◌>>=◌, ◌>>◌}
use side_effects_lab.Models.Events.{operation_prepared, LabEvent, lab_event}
use side_effects_lab.StateMachine.Types.{
  prepared, OperationIdentity, TransitionEvidence, TransitionRecord, state_value,
}
use side_effects_lab.StateMachine.Machine.{is_state}
use side_effects_lab.Ledger.Tables.{
  EventRow, OperationRow, TransitionRow, AttemptRow, SqLiteLedger, LedgerAction, transitions_of,
  next_ordinal, has_event, operation_allowed, transition_allowed, attempt_allowed,
}
use side_effects_lab.Ledger.Events.{next_event_seq_of, insert_event}
use side_effects_lab.Ledger.Appending.{IsLog, Appended, insert_event-Appended}
use side_effects_lab.Ledger.Dating.{
  Extends, Extends-itself, Extends-next, Extends-then, Reaches, event_below,
}
use side_effects_lab.Ledger.Steps.{Ending, Ensures, ensures_bind, ensures_lift}
use side_effects_lab.Ledger.Replay.{PersistedTransition, kept_as}
use side_effects_lab.Ledger.Operations.{lifecycle_event, insert_next, insert_operation}
use side_effects_lab.Ledger.Persisting.{
  new_transition, transition_event, insert_transition, updated, update_operation, insert_prepared,
  persist_transition,
}
use side_effects_lab.Ledger.Transitions.{insert_attempt}
use side_effects_lab.Ledger.Advance.{persisted_in}

-- The table of events is a log again, with more rows, and nothing else changed.
abbrev pub Logs : {A : Type 0} → SqLiteLedger → A → SqLiteLedger → Type 0
Logs s a t = (rows : List EventRow) × Extends s.events rows × (t ≡ record s { events = rows })

module _ {A B : Type 0} (R : B → SqLiteLedger → Type 0) (m : LedgerAction A)
    (k : A → LedgerAction B) (s : SqLiteLedger) where
  pub ensures_equal :
      (f : A → SqLiteLedger)
      → Ensures (λ a t. t ≡ f a) (m s)
      → ((a : A) → Ensures R (k a (f a)))
      → Ensures R ((m >>= k) s)
  ensures_equal f h next =
      ensures_bind (λ a t. t ≡ f a) R m k s h
        (λ a t is. subst (λ x. Ensures R (k a x)) (sym is) (next a))

  pub ensures_logs :
      Ensures (Logs s) (m s)
      → ((a : A) (rows : List EventRow)
          → Extends s.events rows
          → Ensures R (k a (record s { events = rows })))
      → Ensures R ((m >>= k) s)
  ensures_logs h next =
      ensures_bind (Logs s) R m k s h
        (λ a t (rows, log, is). subst (λ x. Ensures R (k a x)) (sym is) (next a rows log))

Appended-Logs : (s : SqLiteLedger) (out : Ending LabEvent) → Appended s out → Ensures (Logs s) out
Appended-Logs s (raised e, t) h = tt
Appended-Logs s (returned v, t) (bytes, is, canonical, log) = (
  record { event = v; evidence_json = bytes } ∷ s.events,
  Extends-next (record { event = v; evidence_json = bytes }) s.events
      (subst (λ x. IsLog x.events) is log),
  is,
)

pub insert_next-Logs :
    (make : ℤ → LabEvent) (s : SqLiteLedger)
    → IsLog s.events
    → Ensures (Logs s) (insert_next make s)
unfolding insert_next
insert_next-Logs make s log =
    ensures_lift (Logs s) (lab_event (make (next_event_seq_of s.events))) _ s (λ event made.
      ensures_bind (Logs s) (Logs s) (insert_event event) _ s
        (Appended-Logs s (insert_event event s) (insert_event-Appended event s log))
        (λ v t done. done))

-- A step that puts a row into a table, if the constraints let it.
insert_ensures :
    (test : SqLiteLedger → Bool) (e : Error) (f : SqLiteLedger → SqLiteLedger) (s : SqLiteLedger)
    → Ensures
        (λ (u : Unit {0}) t. t ≡ f s)
        ((lift (require (test s) e) >>= λ u. λ x. (returned tt, f x)) s)
insert_ensures test e f s =
    ensures_lift (λ (u : Unit {0}) t. t ≡ f s) (require (test s) e) _ s (λ u allowed. refl)

pub insert_operation_ensures :
    (row : OperationRow) (s : SqLiteLedger)
    → Ensures
        (λ (u : Unit {0}) t. t ≡ record s { operations = row ∷ s.operations })
        (insert_operation row s)
unfolding insert_operation
insert_operation_ensures row s = insert_ensures (operation_allowed row) integrity_error _ s

insert_transition_ensures :
    (row : TransitionRow) (s : SqLiteLedger)
    → Ensures
        (λ (u : Unit {0}) t. t ≡ record s { transitions = row ∷ s.transitions })
        (insert_transition row s)
unfolding insert_transition
insert_transition_ensures row s = insert_ensures (transition_allowed row) integrity_error _ s

pub insert_attempt_ensures :
    (row : AttemptRow) (s : SqLiteLedger)
    → Ensures
        (λ (u : Unit {0}) t.
          (t ≡ record s { attempts = row ∷ s.attempts }) × (attempt_allowed row s ≡ true))
        (insert_attempt row s)
unfolding insert_attempt
insert_attempt_ensures row s =
    ensures_lift
      (λ (u : Unit {0}) t.
        (t ≡ record s { attempts = row ∷ s.attempts }) × (attempt_allowed row s ≡ true))
      (require (attempt_allowed row s) ledger_integrity_error) _ s
      (λ u allowed. (refl, require_ok _ ledger_integrity_error u allowed))

-- The state of an operation is cached, and the event is there.
abbrev Updated : String → String → ℤ → SqLiteLedger → Unit {0} → SqLiteLedger → Type 0
Updated action state seq s u t =
    (t ≡ record s { operations = updated action state seq s.operations })
    × (has_event seq s.events ≡ true)

update_operation_ensures :
    (action state : String) (seq : ℤ) (s : SqLiteLedger)
    → Ensures (Updated action state seq s) (update_operation action state seq s)
unfolding update_operation
update_operation_ensures action state seq s =
    ensures_lift (Updated action state seq s) (require (has_event seq s.events) integrity_error) _ s
      (λ u there. (refl, require_ok _ integrity_error u there))

insert_prepared-Logs :
    (identity : OperationIdentity) (r : TransitionRecord) (tick : ℤ) (reason : Option String)
    (into_prepared : Bool) (s : SqLiteLedger)
    → r.violation_reason ≡ reason
    → is_state r.resulting_state prepared ≡ into_prepared
    → IsLog s.events
    → Ensures (Logs s) (insert_prepared identity r tick s)
unfolding insert_prepared
insert_prepared-Logs identity r tick (some reason) b s h g log =
    rw h (s.events, Extends-itself s.events log, refl)
insert_prepared-Logs identity r tick none false s h g log =
    rw (h, g) (s.events, Extends-itself s.events log, refl)
insert_prepared-Logs identity r tick none true s h g log =
    rw (h, g)
      (ensures_bind (Logs s) (Logs s)
        (insert_next (λ n. lifecycle_event n tick operation_prepared identity)) (λ seq. pure tt) s
        (insert_next-Logs (λ n. lifecycle_event n tick operation_prepared identity) s log)
        (λ seq t done. done))

-- The ledger after `_persist_transition`, and what it returned.
abbrev pub Persists :
    String
    → OperationIdentity
    → TransitionRecord
    → TransitionEvidence
    → SqLiteLedger
    → PersistedTransition
    → SqLiteLedger
    → Type 0
Persists action candidate r e s p t =
    (seq : ℤ) × (rows : List EventRow) × Reaches s.events seq rows
    × (p ≡ kept_as r e seq)
    × (t ≡ persisted_in s action candidate r e seq rows)

persisted_rest :
    (action : String) (candidate : OperationIdentity) (r : TransitionRecord)
    (e : TransitionEvidence) (seq : ℤ) (rows : List EventRow) (s : SqLiteLedger)
    → Extends s.events rows
    → Ensures (Persists action candidate r e s) (
        (insert_transition (
              new_transition action candidate r e
                (next_ordinal (transitions_of action s.transitions))
                seq)
            >> (update_operation action (state_value r.resulting_state) seq
                >> pure (kept_as r e seq)))
          (record s { events = rows }))
persisted_rest action candidate r e seq rows s extends =
    let R = Persists action candidate r e s in
    let row =
      new_transition action candidate r e (next_ordinal (transitions_of action s.transitions))
        seq in
    let s' = record s { events = rows; transitions = row ∷ s.transitions } in
    let state = state_value r.resulting_state in
    ensures_equal R (insert_transition row) _ (record s { events = rows }) (λ u. s')
      (insert_transition_ensures row (record s { events = rows }))
      (λ u.
        ensures_bind (Updated action state seq s') R (update_operation action state seq) _ s'
          (update_operation_ensures action state seq s')
          (λ v t (is, there). (
            seq,
            rows,
            record { extends = extends; reached = event_below seq rows extends.log there },
            refl,
            is,
          )))

pub persist_transition-Persists :
    (identity candidate : OperationIdentity) (r : TransitionRecord) (e : TransitionEvidence)
    (tick : ℤ) (s : SqLiteLedger)
    → IsLog s.events
    → Ensures
        (Persists identity.action_id candidate r e s)
        (persist_transition identity candidate r e tick s)
unfolding persist_transition
persist_transition-Persists identity candidate r e tick s log =
    let action = identity.action_id in
    let R = Persists action candidate r e s in
    ensures_logs R (insert_prepared identity r tick) _ s
      (insert_prepared-Logs identity r tick r.violation_reason (is_state r.resulting_state prepared)
        s refl refl log)
      (λ u rows first.
        ensures_logs R (insert_next (transition_event identity r e tick)) _
          (record s { events = rows })
          (insert_next-Logs (transition_event identity r e tick) (record s { events = rows })
            first.log)
          (λ seq rows' more.
            persisted_rest action candidate r e seq rows' s
              (Extends-then s.events rows rows' first more)))
