-- ===== src/Ledger/Accepting.antt =====
-- When an event is put into the table of src/side_effects_lab/ledger.py, and what a run of such calls
-- leaves.
use side_effects_lab.Prelude.{◌+◌, length, true, false, not, ◌∷◌, ◌≡◌}
use side_effects_lab.Prelude.Int.{pos, leb_ℤ}
use side_effects_lab.Prelude.Result.{ok, require, managed_event_error, ledger_closed_error}
use side_effects_lab.Prelude.Exec.{returned}
use side_effects_lab.Text.{Text}
use side_effects_lab.Models.Values.{dict, thaw_fields}
use side_effects_lab.Models.Events.{LabEvent, lab_event}
use side_effects_lab.Models.Revalidation.{lab_event_stable}
use side_effects_lab.Canonical.Json.{canonical_json_bytes}
use side_effects_lab.Ledger.Tables.{SqLiteLedger}
use side_effects_lab.Ledger.Events.{insert_event, is_managed, max_integer, append_event}
use side_effects_lab.Ledger.Appending.{IsLog, Follows}
use side_effects_lab.Ledger.Inserting.{Insertable, with_row, event_inserted, transaction_goes}
use side_effects_lab.Ledger.Steps.{lift_goes, require_goes, flag_on}

-- What an event has to be for the log of an open ledger.
pub record Fits (s : SqLiteLedger) (event validated : LabEvent) (bytes : Text) : Type 0 where
  pub is_open : s.closed ≡ false
  pub is_valid : lab_event event ≡ ok validated
  pub is_free : is_managed validated.kind ≡ false
  pub is_next : validated.seq ≡ pos (length s.events + 1)
  pub is_ahead : Follows validated.tick s.events
  pub is_canonical : canonical_json_bytes (dict (thaw_fields validated.evidence)) ≡ ok bytes
  pub seq_fits : leb_ℤ validated.seq max_integer ≡ true
  pub tick_fits : leb_ℤ validated.tick max_integer ≡ true

-- The same demands on the event that validation gives back.
refit :
    (event v : LabEvent) (bytes : Text) (s : SqLiteLedger)
    → Fits s event v bytes
    → Insertable s.events v bytes
refit event v bytes s fits = record {
  is_valid = lab_event_stable event v fits.is_valid;
  is_next = fits.is_next;
  is_ahead = fits.is_ahead;
  is_canonical = fits.is_canonical;
  seq_fits = fits.seq_fits;
  tick_fits = fits.tick_fits;
}

-- An open ledger appends every valid event that is not one of its own lifecycle's, has the next
-- sequence number and a tick that does not go back, fits in 64 bits and has canonical evidence.
pub append_event_accepts :
    (event validated : LabEvent) (bytes : Text) (s : SqLiteLedger)
    → IsLog s.events
    → Fits s event validated bytes
    → append_event event s ≡ (
      returned validated,
      record s { events = record { event = validated; evidence_json = bytes } ∷ s.events },
    )
unfolding append_event
append_event_accepts event validated bytes s log fits =
    lift_goes (λ out. out ≡ (returned validated, with_row s validated bytes))
      (require (not s.closed) ledger_closed_error) _ s tt
      (require_goes _ ledger_closed_error (flag_on s.closed fits.is_open))
      (lift_goes (λ out. out ≡ (returned validated, with_row s validated bytes)) (lab_event event) _
        s validated fits.is_valid
        (lift_goes (λ out. out ≡ (returned validated, with_row s validated bytes))
          (require (not (is_managed validated.kind)) managed_event_error) _ s tt
          (require_goes _ managed_event_error (flag_on _ fits.is_free))
          (transaction_goes (insert_event validated) validated s (with_row s validated bytes)
            fits.is_open
            (event_inserted validated bytes s log (refit event validated bytes s fits)))))
