-- ===== src/Ledger/Appending.antt =====
-- What appending an event to the table of src/side_effects_lab/ledger.py does, and what it keeps.
use side_effects_lab.Prelude.{
  length, ◌+◌, true, false, not, ◌&&◌, some, List, [], ◌∷◌, ◌≡◌, refl, ◌∙◌, arith,
}
use side_effects_lab.Prelude.Int.{ℤ, pos, eq_ℤ, eq_ℤ_iff, leb_ℤ}
use side_effects_lab.Prelude.Result.{
  require_ok, Error, ok, require, overflow_error, ledger_closed_error, managed_event_error,
  event_sequence_error,
}
use side_effects_lab.Prelude.Exec.{Outcome, returned, raised}
use side_effects_lab.Text.{Text}
use side_effects_lab.Models.Values.{dict, thaw_fields}
use side_effects_lab.Models.Events.{LabEvent, lab_event}
use side_effects_lab.Canonical.Json.{canonical_json_bytes}
use side_effects_lab.Ledger.Tables.{EventRow, SqLiteLedger, LedgerAction}
use side_effects_lab.Ledger.Events.{
  is_managed, transaction, latest, next_event_seq_of, moves_backward, insert_row, insert_event,
  append_event, fits_integer,
}
use side_effects_lab.Ledger.Steps.{lift_step, flag_off}

-- The tick of a new row against the row before it.
abbrev pub Follows : ℤ → List EventRow → Type 0
Follows tick [] = Unit
Follows tick (q ∷ rows) = leb_ℤ q.event.tick tick ≡ true

-- The rows, the newest first, are numbered from 1 without a gap, and no tick is less than the one
-- before it.
abbrev pub IsLog : List EventRow → Type 0
IsLog [] = Unit
IsLog (r ∷ rows) = (r.event.seq ≡ pos (length rows + 1)) × (Follows r.event.tick rows × IsLog rows)

pub latest-IsLog :
    (r : EventRow) (rows : List EventRow) → IsLog (r ∷ rows) → latest (r ∷ rows) ≡ some r
unfolding latest
latest-IsLog r [] log = refl
latest-IsLog r (q ∷ rows) (seq, (follows, log)) =
    let before = latest-IsLog q rows log in ground (arith, log.0)

pub next_seq-IsLog :
    (rows : List EventRow) → IsLog rows → next_event_seq_of rows ≡ pos (length rows + 1)
unfolding next_event_seq_of
next_seq-IsLog [] log = refl
next_seq-IsLog (r ∷ rows) log = let before = latest-IsLog r rows log in ground (arith, log.0)

backward-Follows :
    (tick : ℤ) (rows : List EventRow)
    → IsLog rows
    → moves_backward tick rows ≡ false
    → Follows tick rows
unfolding moves_backward
backward-Follows tick [] log h = tt
backward-Follows tick (r ∷ rows) log h = let before = latest-IsLog r rows log in ground arith

-- What an appending call does: it raises and leaves the ledger as it was, or it returns the event that
-- it has put into the table, which has the next sequence number and canonical evidence.
abbrev pub Appended : SqLiteLedger → Outcome Error LabEvent × SqLiteLedger → Type 0
Appended s (raised e, s') = s' ≡ s
Appended s (returned v, s') =
    (bytes : Text) × (s'
      ≡ record s { events = record { event = v; evidence_json = bytes } ∷ s.events })
    × (canonical_json_bytes (dict (thaw_fields v.evidence)) ≡ ok bytes)
    × IsLog s'.events

insert_row-Appended :
    (v : LabEvent) (s : SqLiteLedger)
    → v.seq ≡ pos (length s.events + 1)
    → Follows v.tick s.events
    → IsLog s.events
    → Appended s (insert_row v s)
unfolding insert_row
insert_row-Appended v s seq follows log =
    lift_step (Appended s) (canonical_json_bytes (dict (thaw_fields v.evidence))) _ s (λ e. refl)
      (λ bytes is.
        lift_step (Appended s) (require (fits_integer v.seq && fits_integer v.tick) overflow_error)
          _ s (λ e. refl) (λ u fits. (bytes, refl, is, (seq, (follows, log)))))

pub insert_event-Appended :
    (event : LabEvent) (s : SqLiteLedger) → IsLog s.events → Appended s (insert_event event s)
unfolding insert_event
insert_event-Appended event s log =
    lift_step (Appended s) (lab_event event) _ s (λ e. refl)
      (λ v valid.
        lift_step (Appended s)
          (require (eq_ℤ v.seq (next_event_seq_of s.events)) event_sequence_error) _ s (λ e. refl)
          (λ u seq.
            lift_step (Appended s)
              (require (not (moves_backward v.tick s.events)) event_sequence_error) _ s (λ e. refl)
              (λ w ahead.
                insert_row-Appended v s
                  ((eq_ℤ_iff v.seq (next_event_seq_of s.events)).0 (require_ok _ _ u seq)
                    ∙ next_seq-IsLog s.events log)
                  (backward-Follows v.tick s.events log
                    (flag_off (moves_backward v.tick s.events) (require_ok _ _ w ahead)))
                  log)))

committed :
    (s : SqLiteLedger) (out : Outcome Error LabEvent × SqLiteLedger)
    → Appended s out
    → Appended s (elim out.0 [ returned a ↦ (returned a, out.1) | raised e ↦ (raised e, s) ])
committed s (returned v, s') h = h
committed s (raised e, s') h = refl

transaction-Appended :
    (body : LedgerAction LabEvent) (s : SqLiteLedger)
    → Appended s (body s)
    → Appended s (transaction body s)
unfolding transaction
transaction-Appended body s h =
    lift_step (Appended s) (require (not s.closed) ledger_closed_error) _ s (λ e. refl)
      (λ u ready. committed s (body s) h)

-- `append_event` on a log: it raises and leaves the ledger as it was, or it returns the event that it
-- has put into the table, with the next sequence number, a tick that does not go back and the
-- canonical bytes of its evidence, so that the table is a log again.
pub append_event-Appended :
    (event : LabEvent) (s : SqLiteLedger) → IsLog s.events → Appended s (append_event event s)
unfolding append_event
append_event-Appended event s log =
    lift_step (Appended s) (require (not s.closed) ledger_closed_error) _ s (λ e. refl)
      (λ u ready.
        lift_step (Appended s) (lab_event event) _ s (λ e. refl)
          (λ v valid.
            lift_step (Appended s) (require (not (is_managed v.kind)) managed_event_error) _ s
              (λ e. refl)
              (λ w free. transaction-Appended (insert_event v) s (insert_event-Appended v s log))))
