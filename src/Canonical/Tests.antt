-- ===== src/Canonical/Tests.antt =====
-- Canonical bytes by src/side_effects_lab/canonical.py, and the theorems at them.
use side_effects_lab.Prelude.{true, ◌≡◌, ◌≢◌}
use side_effects_lab.Prelude.Int.{negsuc}
use side_effects_lab.Text.{codes}
use side_effects_lab.Text.Equality.{text_eq, text_eq_iff}
use side_effects_lab.Models.Values.{Value, bool, int, list, dict, model, nil, cons, end, field}
use side_effects_lab.Canonical.Json.{canonical_json_bytes}
use side_effects_lab.Canonical.Reordering.{
  models, same_field, same_end, dicts, swapped, canonical_json_bytes-SameValue,
}

-- A model that holds a dict, as an intent holds its parameters.
abbrev sample : Value
sample = model (
    field (codes "parameters")
      (dict
        (field (codes "b") (int (negsuc 4)) (field (codes "a") (list (cons (bool true) nil)) end)))
      end)

abbrev reordered : Value
reordered = model (
    field (codes "parameters")
      (dict
        (field (codes "a") (list (cons (bool true) nil)) (field (codes "b") (int (negsuc 4)) end)))
      end)

other_key : codes "b" ≢ codes "a"
unfolding text_eq
other_key e = cc ((text_eq_iff (codes "b") (codes "a")).1 e)

canonical_json_bytes-SameValue_example :
    canonical_json_bytes sample ≡ canonical_json_bytes reordered
canonical_json_bytes-SameValue_example =
    canonical_json_bytes-SameValue sample reordered
      (models (same_field _ (dicts (swapped _ _ _ _ end other_key)) same_end))
