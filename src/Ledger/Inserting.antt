-- ===== src/Ledger/Inserting.antt =====
-- When `_insert_event` of src/side_effects_lab/ledger.py goes through, and when a transaction does.
use side_effects_lab.Prelude.{
  ◌+◌, length, true, false, not, ◌&&◌, List, [], ◌∷◌, ◌≡◌, refl, sym, ◌∙◌, arith, ap,
}
use side_effects_lab.Prelude.Int.{ℤ, pos, eq_ℤ, eq_ℤ_iff, leb_ℤ}
use side_effects_lab.Prelude.Result.{
  ok, require, overflow_error, event_sequence_error, ledger_closed_error,
}
use side_effects_lab.Prelude.Exec.{returned, raised}
use side_effects_lab.Text.{Text}
use side_effects_lab.Models.Values.{dict, thaw_fields}
use side_effects_lab.Models.Events.{LabEvent, lab_event}
use side_effects_lab.Canonical.Json.{canonical_json_bytes}
use side_effects_lab.Ledger.Tables.{EventRow, SqLiteLedger, LedgerAction}
use side_effects_lab.Ledger.Events.{
  insert_row, insert_event, transaction, next_event_seq_of, moves_backward, max_integer,
  fits_integer,
}
use side_effects_lab.Ledger.Appending.{IsLog, Follows, next_seq-IsLog, latest-IsLog}
use side_effects_lab.Ledger.Operations.{insert_next}
use side_effects_lab.Ledger.Steps.{Ending, lift_goes, bind_goes, require_goes, flag_on, both}

-- What a valid event has to be for a table of events.
pub record Insertable (rows : List EventRow) (v : LabEvent) (bytes : Text) : Type 0 where
  pub is_valid : lab_event v ≡ ok v
  pub is_next : v.seq ≡ pos (length rows + 1)
  pub is_ahead : Follows v.tick rows
  pub is_canonical : canonical_json_bytes (dict (thaw_fields v.evidence)) ≡ ok bytes
  pub seq_fits : leb_ℤ v.seq max_integer ≡ true
  pub tick_fits : leb_ℤ v.tick max_integer ≡ true

Follows-ahead :
    (tick : ℤ) (rows : List EventRow)
    → IsLog rows
    → Follows tick rows
    → moves_backward tick rows ≡ false
unfolding moves_backward
Follows-ahead tick [] log h = refl
Follows-ahead tick (r ∷ rows) log h = let before = latest-IsLog r rows log in ground arith

-- The table and the ledger after the event has been put into the table.
abbrev pub row_of_event : LabEvent → Text → EventRow
row_of_event v bytes = record { event = v; evidence_json = bytes }

abbrev pub with_row : SqLiteLedger → LabEvent → Text → SqLiteLedger
with_row s v bytes = record s { events = row_of_event v bytes ∷ s.events }

row_inserted :
    (v : LabEvent) (bytes : Text) (s : SqLiteLedger)
    → canonical_json_bytes (dict (thaw_fields v.evidence)) ≡ ok bytes
    → leb_ℤ v.seq max_integer ≡ true
    → leb_ℤ v.tick max_integer ≡ true
    → insert_row v s ≡ (returned v, with_row s v bytes)
unfolding insert_row
row_inserted v bytes s canonical seq tick =
    lift_goes (λ out. out ≡ (returned v, with_row s v bytes))
      (canonical_json_bytes (dict (thaw_fields v.evidence))) _ s bytes canonical
      (lift_goes (λ out. out ≡ (returned v, with_row s v bytes))
        (require (fits_integer v.seq && fits_integer v.tick) overflow_error) _ s tt
        (require_goes _ overflow_error (both (fits_integer v.seq) (fits_integer v.tick) seq tick))
        refl)

pub event_inserted :
    (v : LabEvent) (bytes : Text) (s : SqLiteLedger)
    → IsLog s.events
    → Insertable s.events v bytes
    → insert_event v s ≡ (returned v, with_row s v bytes)
unfolding insert_event
event_inserted v bytes s log fits =
    lift_goes (λ out. out ≡ (returned v, with_row s v bytes)) (lab_event v) _ s v fits.is_valid
      (lift_goes (λ out. out ≡ (returned v, with_row s v bytes))
        (require (eq_ℤ v.seq (next_event_seq_of s.events)) event_sequence_error) _ s tt
        (require_goes _ event_sequence_error (
          (eq_ℤ_iff v.seq (next_event_seq_of s.events)).1
            (fits.is_next ∙ sym (next_seq-IsLog s.events log))))
        (lift_goes (λ out. out ≡ (returned v, with_row s v bytes))
          (require (not (moves_backward v.tick s.events)) event_sequence_error) _ s tt
          (require_goes _ event_sequence_error
            (flag_on _ (Follows-ahead v.tick s.events log fits.is_ahead)))
          (row_inserted v bytes s fits.is_canonical fits.seq_fits fits.tick_fits)))

-- The event of a call, made with the next sequence number.
pub insert_next_goes :
    (make : ℤ → LabEvent) (bytes : Text) (s : SqLiteLedger)
    → IsLog s.events
    → Insertable s.events (make (pos (length s.events + 1))) bytes
    → insert_next make s
      ≡ (returned (pos (length s.events + 1)), with_row s (make (pos (length s.events + 1))) bytes)
unfolding insert_next
insert_next_goes make bytes s log fits =
    let seq = pos (length s.events + 1) in
    let v = make seq in
    let P : Ending ℤ → Type 0 = λ out. out ≡ (returned seq, with_row s v bytes) in
    let is = next_seq-IsLog s.events log in
    lift_goes P (lab_event (make (next_event_seq_of s.events))) _ s v
      (ap (λ n. lab_event (make n)) is ∙ fits.is_valid)
      (bind_goes P (insert_event v) _ s v (with_row s v bytes) (event_inserted v bytes s log fits)
        (ap (λ n. (returned n, with_row s v bytes)) is))

-- A transaction on an open ledger whose body returns.
pub transaction_goes :
    {A : Type 0} (body : LedgerAction A) (a : A) (s s' : SqLiteLedger)
    → s.closed ≡ false
    → body s ≡ (returned a, s')
    → transaction body s ≡ (returned a, s')
unfolding transaction
transaction_goes body a s s' ready is =
    lift_goes (λ out. out ≡ (returned a, s')) (require (not s.closed) ledger_closed_error) _ s tt
      (require_goes _ ledger_closed_error (flag_on s.closed ready))
      (ap (λ o. elim o.0 [ returned x ↦ (returned x, o.1) | raised e ↦ (raised e, s) ]) is)
