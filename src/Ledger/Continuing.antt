-- ===== src/Ledger/Continuing.antt =====
-- The events that `_persist_transition` of src/side_effects_lab/ledger.py adds to a log with room.
use side_effects_lab.Prelude.{
  ℕ, ◌+◌, String, Bool, true, false, Option, none, some, List, ◌∷◌, ◌≡◌, refl, ap, ◌∙◌, length,
  subst, sym, arith, leb,
}
use side_effects_lab.Prelude.Int.{pos, leb_ℤ}
use side_effects_lab.Prelude.Exec.{returned, pure, ◌>>=◌}
use side_effects_lab.Text.{Text}
use side_effects_lab.Models.Bounds.{is_optional, is_positive}
use side_effects_lab.Models.Identifiers.{is_attempt_id}
use side_effects_lab.Models.Values.{Fields, end, dict, keys_are_names}
use side_effects_lab.Models.Events.{EventKind, LabEvent, operation_prepared}
use side_effects_lab.Models.Flat.{FieldsFlat, canonical-FieldsFlat, thaw-FieldsFlat}
use side_effects_lab.Canonical.Json.{canonical_json_bytes}
use side_effects_lab.StateMachine.Types.{prepared, OperationIdentity, TransitionRecord}
use side_effects_lab.StateMachine.Machine.{is_state}
use side_effects_lab.Ledger.Tables.{EventRow, SqLiteLedger}
use side_effects_lab.Ledger.Events.{max_integer}
use side_effects_lab.Ledger.Operations.{lifecycle_event, insert_next}
use side_effects_lab.Ledger.Persisting.{insert_prepared}
use side_effects_lab.Ledger.Appending.{IsLog, Follows}
use side_effects_lab.Ledger.Inserting.{Insertable, row_of_event, insert_next_goes}
use side_effects_lab.Ledger.Recording.{event_with, event_valid}
use side_effects_lab.Ledger.Replaying.{IsIdentity}
use side_effects_lab.Ledger.Steps.{bind_goes}

-- A log that takes `k` events more at a tick.
pub record HasRoom (k tick : ℕ) (rows : List EventRow) : Type 0 where
  pub log : IsLog rows
  pub ahead : Follows (pos tick) rows
  pub seq_fits : leb_ℤ (pos (length rows + k)) max_integer ≡ true
  pub tick_fits : leb_ℤ (pos tick) max_integer ≡ true

HasRoom-fewer :
    (j k tick : ℕ) (rows : List EventRow) → HasRoom (j + k) tick rows → HasRoom k tick rows
HasRoom-fewer j k tick rows h = record {
  log = h.log;
  ahead = h.ahead;
  seq_fits = ground (arith, h.seq_fits);
  tick_fits = h.tick_fits;
}

-- An event of an operation, as far as its table is not concerned.
pub record IsRecordable (id : OperationIdentity) (attempt : Option String) (evidence : Fields)
    : Type 0 where
  pub made : IsIdentity id
  pub attempt_valid : is_optional is_attempt_id attempt ≡ true
  pub flat : FieldsFlat evidence
  pub named : keys_are_names evidence ≡ true

seq_positive : (n : ℕ) → is_positive (pos (n + 1)) ≡ true
seq_positive n = ground arith

seq_in_range :
    (n k : ℕ)
    → leb_ℤ (pos (n + (1 + k))) max_integer ≡ true
    → leb_ℤ (pos (n + 1)) max_integer ≡ true
seq_in_range n k h = ground arith

Insertable-of :
    (k tick : ℕ) (kind : EventKind) (id : OperationIdentity) (attempt : Option String)
    (evidence : Fields) (rows : List EventRow)
    → HasRoom (1 + k) tick rows
    → IsRecordable id attempt evidence
    → (bytes : Text) × Insertable rows
        (event_with (pos (length rows + 1)) (pos tick) kind id attempt evidence)
        bytes
Insertable-of k tick kind id attempt evidence rows room h =
    let (bytes, is) = canonical-FieldsFlat evidence h.flat in
    (
      bytes,
      record {
        is_valid =
            event_valid (pos (length rows + 1)) (pos tick) kind id attempt evidence
              (seq_positive (length rows)) refl h.made h.attempt_valid h.flat h.named;
        is_next = refl;
        is_ahead = room.ahead;
        is_canonical =
            ap (λ x. canonical_json_bytes (dict x)) (thaw-FieldsFlat evidence h.flat) ∙ is;
        seq_fits = seq_in_range (length rows) k room.seq_fits;
        tick_fits = room.tick_fits;
      },
    )

HasRoom-after :
    (k tick : ℕ) (v : LabEvent) (bytes : Text) (rows : List EventRow)
    → HasRoom (1 + k) tick rows
    → v.seq ≡ pos (length rows + 1)
    → v.tick ≡ pos tick
    → HasRoom k tick (row_of_event v bytes ∷ rows)
HasRoom-after k tick v bytes rows h seq at = record {
  log = (seq, (subst (λ x. Follows x rows) (sym at) h.ahead, h.log));
  ahead = ground (arith, at);
  seq_fits = ground (arith, h.seq_fits);
  tick_fits = h.tick_fits;
}

-- An event of an operation is put into a log with room.
pub event_goes :
    (k tick : ℕ) (kind : EventKind) (id : OperationIdentity) (attempt : Option String)
    (evidence : Fields) (s : SqLiteLedger)
    → HasRoom (1 + k) tick s.events
    → IsRecordable id attempt evidence
    → (row : EventRow) × (insert_next (λ n. event_with n (pos tick) kind id attempt evidence) s
        ≡ (returned (pos (length s.events + 1)), record s { events = row ∷ s.events }))
      × (row.event.seq ≡ pos (length s.events + 1))
      × HasRoom k tick (row ∷ s.events)
event_goes k tick kind id attempt evidence s room h =
    let (bytes, fits) = Insertable-of k tick kind id attempt evidence s.events room h in
    let v = event_with (pos (length s.events + 1)) (pos tick) kind id attempt evidence in
    (
      row_of_event v bytes,
      insert_next_goes (λ n. event_with n (pos tick) kind id attempt evidence) bytes s room.log
          fits,
      refl,
      HasRoom-after k tick v bytes s.events room refl refl,
    )

-- The events after some more.
abbrev pub Grew : ℕ → ℕ → List EventRow → List EventRow → Type 0
Grew k tick rows rows' = HasRoom k tick rows' × (leb (length rows) (length rows') ≡ true)

prepared_event_goes :
    (tick : ℕ) (id : OperationIdentity) (s : SqLiteLedger)
    → HasRoom 2 tick s.events
    → IsIdentity id
    → (rows : List EventRow) × ((insert_next
              (λ n. lifecycle_event n (pos tick) operation_prepared id)
            >>= (λ seq. pure tt))
          s
        ≡ (returned tt, record s { events = rows }))
      × Grew 1 tick s.events rows
unfolding keys_are_names
prepared_event_goes tick id s room made =
    let (row, is, seq, room') =
      event_goes 1 tick operation_prepared id none end s room
        (record { made = made; attempt_valid = refl; flat = tt; named = refl }) in
    (
      row ∷ s.events,
      bind_goes (λ out. out ≡ (returned tt, record s { events = row ∷ s.events }))
          (insert_next (λ n. lifecycle_event n (pos tick) operation_prepared id)) (λ q. pure tt) s
          (pos (length s.events + 1)) (record s { events = row ∷ s.events }) is refl,
      (room', ground arith),
    )

-- The event of a preparation, where there is one.
pub prepared_goes :
    (tick : ℕ) (id : OperationIdentity) (r : TransitionRecord) (reason : Option String)
    (into_prepared : Bool) (s : SqLiteLedger)
    → r.violation_reason ≡ reason
    → is_state r.resulting_state prepared ≡ into_prepared
    → HasRoom 2 tick s.events
    → IsIdentity id
    → (rows : List EventRow) × (insert_prepared id r (pos tick) s
        ≡ (returned tt, record s { events = rows }))
      × Grew 1 tick s.events rows
unfolding insert_prepared
prepared_goes tick id r (some why) b s h g room made =
    (s.events, rw h refl, (HasRoom-fewer 1 1 tick s.events room, ground arith))
prepared_goes tick id r none false s h g room made =
    (s.events, rw (h, g) refl, (HasRoom-fewer 1 1 tick s.events room, ground arith))
prepared_goes tick id r none true s h g room made =
    rw (h, g) (prepared_event_goes tick id s room made)
