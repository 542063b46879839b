-- ===== src/Ledger/Tests.antt =====
-- Events appended to a ledger of src/side_effects_lab/ledger.py, and the theorems at them.
use side_effects_lab.Prelude.{true, ◌↔◌}
use side_effects_lab.Text.Equality.{text_eq}
use side_effects_lab.Ledger.Paths.{RootPath, directory, Stat, validated_run_root}
use side_effects_lab.Ledger.Rooted.{IsRoot, validated_run_root-returns_iff}
use side_effects_lab.Prelude.{false, none, some, [], ◌∷◌, ◌≡◌, refl}
use side_effects_lab.Prelude.Int.{ℤ, pos}
use side_effects_lab.Prelude.Result.{ok, event_sequence_error}
use side_effects_lab.Prelude.Exec.{returned, raised}
use side_effects_lab.Text.{codes}
use side_effects_lab.Models.Values.{end}
use side_effects_lab.Models.Events.{LabEvent, fault_fired, lab_event}
use side_effects_lab.Canonical.Json.{canonical_json_bytes, normalize, sort_keys, print, encode}
use side_effects_lab.Models.Identifiers.{is_fault_id}
use side_effects_lab.Models.Values.{
  parameter_map, keys_are_names, fields_canonical, fields_free_of_urls, freeze_fields, thaw_fields,
}
use side_effects_lab.Ledger.Tables.{SqLiteLedger}
use side_effects_lab.Ledger.Events.{is_managed, append_event}
use side_effects_lab.Ledger.Appending.{IsLog, Appended, append_event-Appended}
use side_effects_lab.Ledger.Accepting.{Fits, append_event_accepts}

abbrev fault_at : ℤ → ℤ → LabEvent
fault_at seq tick = record {
  seq = seq;
  tick = tick;
  kind = fault_fired;
  action_id = none;
  attempt_id = none;
  operation_key = none;
  effect_id = none;
  intent_digest = none;
  authority_id = none;
  workflow_id = none;
  fault_id = some "fault-1";
  evidence = end;
}

abbrev one_event : SqLiteLedger
one_event = record {
  closed = false;
  run_id = "run-0";
  events = record { event = fault_at (pos 1) (pos 5); evidence_json = codes "{}" } ∷ [];
  operations = [];
  transitions = [];
  attempts = [];
}

one_event-IsLog : IsLog one_event.events
one_event-IsLog = (refl, (tt, tt))

second-valid : lab_event (fault_at (pos 2) (pos 5)) ≡ ok (fault_at (pos 2) (pos 5))
unfolding lab_event is_fault_id parameter_map keys_are_names fields_canonical fields_free_of_urls
    freeze_fields
second-valid = refl

second-Fits : Fits one_event (fault_at (pos 2) (pos 5)) (fault_at (pos 2) (pos 5)) (codes "{}")
unfolding canonical_json_bytes normalize sort_keys print encode thaw_fields is_managed
second-Fits = record {
  is_open = refl;
  is_valid = second-valid;
  is_free = refl;
  is_next = refl;
  is_ahead = refl;
  is_canonical = refl;
  seq_fits = refl;
  tick_fits = refl;
}

append_event_accepts_example : append_event (fault_at (pos 2) (pos 5)) one_event ≡ (
  returned (fault_at (pos 2) (pos 5)),
  record one_event {
    events =
        record { event = fault_at (pos 2) (pos 5); evidence_json = codes "{}" } ∷ one_event.events;
  },
)
append_event_accepts_example =
    append_event_accepts (fault_at (pos 2) (pos 5)) (fault_at (pos 2) (pos 5)) (codes "{}")
      one_event one_event-IsLog second-Fits

-- A tick that goes back is refused.
backward :
    append_event (fault_at (pos 2) (pos 4)) one_event ≡ (raised event_sequence_error, one_event)
unfolding append_event lab_event is_fault_id parameter_map keys_are_names fields_canonical
    fields_free_of_urls freeze_fields
backward = refl

append_event-Appended_example :
    Appended one_event (append_event (fault_at (pos 2) (pos 4)) one_event)
append_event-Appended_example =
    append_event-Appended (fault_at (pos 2) (pos 4)) one_event one_event-IsLog

abbrev run_root : RootPath
run_root = record {
  path = codes "/var/run-1";
  is_absolute = true;
  lstat = some (record { kind = directory; uid = 1000; nlink = 2; mode = 0o700 });
  resolved = some (codes "/var/run-1");
}

run_root_accepted : validated_run_root 1000 run_root ≡ ok (codes "/var/run-1")
unfolding validated_run_root text_eq
run_root_accepted = refl

validated_run_root-returns_iff_example :
    (validated_run_root 1000 run_root ≡ ok (codes "/var/run-1"))
    ↔ ((s : Stat) × IsRoot 1000 run_root s × (codes "/var/run-1" ≡ run_root.path))
validated_run_root-returns_iff_example =
    validated_run_root-returns_iff 1000 run_root (codes "/var/run-1")
