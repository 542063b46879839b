-- ===== src/Ledger/Events.antt =====
-- The table of events in src/side_effects_lab/ledger.py, and the calls that append to it. The database is
-- the list of its rows, the newest first; SQLite's INTEGER holds 64 bits with a sign, and a larger
-- Python integer raises OverflowError. What the code reads back of a row is left out.
use side_effects_lab.Prelude.{
  ◌-◌, ◌^◌, Bool, true, false, not, ◌&&◌, Option, none, some, List, [], ◌∷◌, if◌then◌else◌,
}
use side_effects_lab.Prelude.Int.{ℤ, pos, eq_ℤ, leb_ℤ, ltb_ℤ}
use side_effects_lab.Prelude.Result.{
  require, overflow_error, ledger_closed_error, managed_event_error, event_sequence_error,
}
use side_effects_lab.Prelude.Exec.{returned, raised, pure, gets, modify, lift, ◌>>=◌, ◌>>◌}
use side_effects_lab.Models.Values.{dict, thaw_fields}
use side_effects_lab.Models.Events.{
  EventKind, action_proposed, operation_prepared, attempt_dispatched, state_transition, LabEvent,
  lab_event,
}
use side_effects_lab.Canonical.Json.{canonical_json_bytes}
use side_effects_lab.Ledger.Tables.{EventRow, LedgerAction, successor}

-- _MANAGED_EVENT_KINDS
unfoldable pub is_managed : EventKind → Bool
is_managed action_proposed = true
is_managed operation_prepared = true
is_managed attempt_dispatched = true
is_managed state_transition = true
is_managed _ = false

-- `_require_open`
unfoldable pub require_open : LedgerAction (Unit {0})
require_open s = lift (require (not s.closed) ledger_closed_error) s

-- `close`
unfoldable pub close : LedgerAction (Unit {0})
close s = (returned tt, record s { closed = true })

-- The database comes back as it was if the body raises.
unfoldable pub or_rollback : {A : Type 0} → LedgerAction A → LedgerAction A
or_rollback body s =
    let (outcome, s') = body s in
    elim outcome [ returned a ↦ (returned a, s') | raised e ↦ (raised e, s) ]

-- `_transaction`
unfoldable pub transaction : {A : Type 0} → LedgerAction A → LedgerAction A
unfolding require_open or_rollback
transaction body = require_open >> or_rollback body

-- `ORDER BY seq DESC LIMIT 1`
unfoldable pub latest : List EventRow → Option EventRow
latest [] = none
latest (r ∷ rs) = elim (latest rs) [
  | none ↦ some r
  | some q ↦ some (if ltb_ℤ r.event.seq q.event.seq then q else r)
]

-- `_next_event_seq_unlocked`
unfoldable pub next_event_seq_of : List EventRow → ℤ
unfolding latest
next_event_seq_of rows = elim (latest rows) [ none ↦ pos 1 | some r ↦ successor r.event.seq ]

-- `next_event_seq`
unfoldable pub next_event_seq : LedgerAction ℤ
unfolding require_open next_event_seq_of
next_event_seq = do require_open; gets (λ s. next_event_seq_of s.events)

-- `latest is not None and validated.tick < latest["tick"]`
unfoldable pub moves_backward : ℤ → List EventRow → Bool
unfolding latest
moves_backward tick rows = elim (latest rows) [ none ↦ false | some r ↦ ltb_ℤ tick r.event.tick ]

abbrev pub max_integer : ℤ
max_integer = pos (2 ^ 63 - 1)

abbrev pub fits_integer : ℤ → Bool
fits_integer n = leb_ℤ n max_integer

-- The `INSERT` of `_insert_event`, whose arguments are evaluated first.
unfoldable pub insert_row : LabEvent → LedgerAction LabEvent
insert_row event = do
  bytes ← lift (canonical_json_bytes (dict (thaw_fields event.evidence)))
  lift (require (fits_integer event.seq && fits_integer event.tick) overflow_error)
  modify (λ s. record s { events = record { event = event; evidence_json = bytes } ∷ s.events })
  pure event

-- `_insert_event`
unfoldable pub insert_event : LabEvent → LedgerAction LabEvent
unfolding next_event_seq_of moves_backward insert_row
insert_event event = do
  validated ← lift (lab_event event)
  rows ← gets (λ s. s.events)
  lift (require (eq_ℤ validated.seq (next_event_seq_of rows)) event_sequence_error)
  lift (require (not (moves_backward validated.tick rows)) event_sequence_error)
  insert_row validated

-- `append_event`
unfoldable pub append_event : LabEvent → LedgerAction LabEvent
unfolding require_open is_managed transaction insert_event
append_event event = do
  require_open
  validated ← lift (lab_event event)
  lift (require (not (is_managed validated.kind)) managed_event_error)
  transaction (insert_event validated)
