-- ===== src/Models/Tests.antt =====
-- Parameter maps of src/side_effects_lab/models.py, and the theorems at them.
use side_effects_lab.Prelude.{some, none, [], ◌∷◌, true, false, ◌≡◌, ◌↔◌, refl}
use side_effects_lab.Prelude.Int.{pos}
use side_effects_lab.Prelude.Result.{ok, err, validation_error}
use side_effects_lab.Text.{codes}
use side_effects_lab.Models.Identifiers.{
  is_fault_id, is_service_name, is_operation_name, is_parameter_name, is_digest,
}
use side_effects_lab.Models.Values.{
  int, str, list, tuple, dict, frozen_map, Fields, nil, cons, end, field, parameter_map,
  freeze_fields, thaw_fields, fields_canonical, keys_are_names, fields_free_of_urls, is_url_value,
  lstrip, has_url_scheme,
}
use side_effects_lab.Models.Faults.{
  FaultTrigger, FaultSpec, before_commit, reject, timeout, fault_spec, increasing_ticks,
}
use side_effects_lab.Models.Schedules.{Increasing, increasing_ticks-Increasing}
use side_effects_lab.Models.Freezing.{thaw_fields-freeze_fields, parameter_map-frozen_map}
use side_effects_lab.Models.Accepting.{FreezesMap, parameter_map-returns_iff}

abbrev sample : Fields
sample = field (codes "amount") (int (pos 5)) (
    field (codes "tags")
      (list
        (cons (str (codes "new")) (cons (dict (field (codes "k:") (str (codes "1:")) end)) nil)))
      end)

abbrev frozen : Fields
frozen = field (codes "amount") (int (pos 5)) (
    field (codes "tags")
      (tuple (
        cons (str (codes "new"))
          (cons (frozen_map (field (codes "k:") (str (codes "1:")) end)) nil)))
      end)

sample_map : parameter_map (dict sample) ≡ ok frozen
unfolding parameter_map keys_are_names is_parameter_name fields_canonical fields_free_of_urls
    is_url_value is_digest lstrip has_url_scheme freeze_fields
sample_map = refl

-- A URL in a nested list is refused, leading spaces and all.
url_map :
    parameter_map (dict (field (codes "tags") (list (cons (str (codes " HTTP://x")) nil)) end))
    ≡ err validation_error
unfolding parameter_map keys_are_names is_parameter_name fields_canonical fields_free_of_urls
    is_url_value is_digest lstrip has_url_scheme freeze_fields
url_map = refl

sample_canonical : fields_canonical sample ≡ true
unfolding fields_canonical
sample_canonical = refl

thaw_fields-freeze_fields_example : thaw_fields frozen ≡ sample
unfolding freeze_fields
thaw_fields-freeze_fields_example = thaw_fields-freeze_fields sample sample_canonical

parameter_map-returns_iff_example :
    (parameter_map (dict sample) ≡ ok frozen) ↔ FreezesMap sample frozen
parameter_map-returns_iff_example = parameter_map-returns_iff sample frozen

parameter_map-frozen_map_example : parameter_map (frozen_map frozen) ≡ ok frozen
parameter_map-frozen_map_example = parameter_map-frozen_map (dict sample) frozen sample_map

-- Two equal ticks are refused.
increasing_ticks-Increasing_example :
    (increasing_ticks (pos 1 ∷ pos 3 ∷ pos 3 ∷ []) ≡ true) ↔ Increasing (pos 1 ∷ pos 3 ∷ pos 3 ∷ [])
increasing_ticks-Increasing_example = increasing_ticks-Increasing (pos 1 ∷ pos 3 ∷ pos 3 ∷ [])

repeated : increasing_ticks (pos 1 ∷ pos 3 ∷ pos 3 ∷ []) ≡ false
unfolding increasing_ticks
repeated = refl

abbrev sample_trigger : FaultTrigger
sample_trigger = record {
  service = "github";
  operation = "create_issue";
  call_ordinal = some (pos 1);
  event_kind = none;
}

abbrev sample_spec : FaultSpec
sample_spec = record {
  fault_id = "fault-1";
  trigger = sample_trigger;
  commit_position = before_commit;
  state_effect = reject;
  response_effect = timeout;
  visibility_schedule =
      record { tick = pos 1; visible_revision = pos 0 }
      ∷ record { tick = pos 4; visible_revision = pos 1 }
      ∷ [];
  required = true;
  seed = pos 7;
}

sample_spec-valid : fault_spec sample_spec ≡ ok sample_spec
unfolding fault_spec is_fault_id is_service_name is_operation_name
sample_spec-valid = refl
