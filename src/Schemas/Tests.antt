-- ===== src/Schemas/Tests.antt =====
-- Schemas written and compared at concrete files, for src/side_effects_lab/schema_generation.py.
use side_effects_lab.Prelude.{String, List, [], ◌∷◌, ◌≡◌, ◌↔◌, refl, str_mem}
use side_effects_lab.Prelude.Result.{ok}
use side_effects_lab.Prelude.Sorting.{order_by}
use side_effects_lab.Prelude.Exec.{returned}
use side_effects_lab.Text.{Text, codes}
use side_effects_lab.Text.Equality.{text_eq}
use side_effects_lab.Models.Values.{Fields, end, field, str}
use side_effects_lab.Canonical.Json.{
  canonical_json_bytes, normalize, sort_keys, insert_member, text_lt, print, quoted, encode,
}
use side_effects_lab.Schemas.Rendering.{
  Model, set_item, render_schema, render_all, expected_schemas, join, manifest_lines,
  expected_schema_digest_manifest,
}
use side_effects_lab.Schemas.Files.{
  Directory, is_json_name, foreign_names, unexpected, write_schemas, schema_drift,
}
use side_effects_lab.Schemas.Current.{
  IsCurrent, schema_names, schema_drift-IsCurrent, schema_drift-write_schemas,
}

-- A model's schema and a hash, for the tests.
abbrev sample_schema : Model → Fields
sample_schema model = field (codes "type") (str (codes "object")) end

abbrev sample_digest : Text → Text
sample_digest content = codes "00"

abbrev sample_bytes : Text
sample_bytes =
    codes
      "{\"$schema\":\"https://json-schema.org/draft/2020-12/schema\",\"type\":\"object\",\"x-side-effects-lab-schema-version\":\"0.1\"}\n"

abbrev sample_files : List (String × Text)
sample_files =
    ("action-claim.schema.json", sample_bytes)
    ∷ ("authority-grant.schema.json", sample_bytes)
    ∷ ("event.schema.json", sample_bytes)
    ∷ ("fault-spec.schema.json", sample_bytes)
    ∷ ("semantic-intent.schema.json", sample_bytes)
    ∷ []

abbrev sample_manifest : Text
sample_manifest =
    codes
      "00  action-claim.schema.json\n00  authority-grant.schema.json\n00  event.schema.json\n00  fault-spec.schema.json\n00  semantic-intent.schema.json\n"

sample_rendered : expected_schemas sample_schema ≡ ok sample_files
unfolding expected_schemas render_all render_schema set_item canonical_json_bytes normalize
    sort_keys insert_member text_lt text_eq print quoted encode
sample_rendered = refl

sample_summed : expected_schema_digest_manifest sample_schema sample_digest ≡ ok sample_manifest
unfolding expected_schema_digest_manifest expected_schemas render_all render_schema set_item
    canonical_json_bytes normalize sort_keys insert_member text_lt text_eq print quoted encode join
    manifest_lines
sample_summed = refl

-- A directory with one old schema and one of another program.
abbrev old_files : Directory
old_files =
    ("event.schema.json", codes "{}") ∷ ("other.json", codes "{}") ∷ ("notes.txt", codes "") ∷ []

old_unexpected : unexpected schema_names old_files ≡ codes "unexpected schema: other.json" ∷ []
unfolding unexpected foreign_names is_json_name str_mem text_eq order_by
old_unexpected = refl

schema_drift-write_schemas_example :
    (dir' : Directory) × (write_schemas sample_schema sample_digest old_files ≡ (returned tt, dir'))
    × (schema_drift sample_schema sample_digest dir' ≡ ok (unexpected schema_names old_files))
schema_drift-write_schemas_example =
    schema_drift-write_schemas sample_schema sample_digest sample_files sample_manifest
      sample_rendered sample_summed old_files

schema_drift-IsCurrent_example :
    (schema_drift sample_schema sample_digest old_files ≡ ok [])
    ↔ IsCurrent sample_files sample_manifest old_files
schema_drift-IsCurrent_example =
    schema_drift-IsCurrent sample_schema sample_digest sample_files sample_manifest sample_rendered
      sample_summed old_files
