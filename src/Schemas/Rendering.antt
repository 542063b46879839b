-- ===== src/Schemas/Rendering.antt =====
-- Rendering in src/side_effects_lab/schema_generation.py. The JSON schema of a model, which pydantic
-- makes, and SHA-256 are parameters.
use side_effects_lab.Prelude.{String, Bool, List, [], ◌∷◌, ◌++◌, all, if◌then◌else◌}
use side_effects_lab.Prelude.Sorting.{order_by}
use side_effects_lab.Prelude.Result.{Result, ok, require, value_error, ◌>>=◌, ◌>>◌}
use side_effects_lab.Text.{Text, codes}
use side_effects_lab.Text.Equality.{text_eq}
use side_effects_lab.Models.Values.{Value, str, dict, Fields, end, field, odd_field}
use side_effects_lab.Canonical.Ascii.{is_ascii}
use side_effects_lab.Canonical.Json.{canonical_json_bytes, text_lt}

-- The classes of SCHEMA_MODELS.
pub data Model : Type 0 where
  action_claim_model authority_grant_model lab_event_model fault_spec_model semantic_intent_model :
      Model

-- SCHEMA_MODELS
abbrev pub schema_models : List (String × Model)
schema_models =
    ("action-claim.schema.json", action_claim_model)
    ∷ ("authority-grant.schema.json", authority_grant_model)
    ∷ ("event.schema.json", lab_event_model)
    ∷ ("fault-spec.schema.json", fault_spec_model)
    ∷ ("semantic-intent.schema.json", semantic_intent_model)
    ∷ []

abbrev pub schema_digest_manifest : String
schema_digest_manifest = "SHA256SUMS"

-- `document[key] = value`
unfoldable pub set_item : Text → Value → Fields → Fields
set_item key value end = field key value end
set_item key value (odd_field v fs) = odd_field v (set_item key value fs)
set_item key value (field k v fs) =
    let rest = set_item key value fs in if text_eq k key then field k value fs else field k v rest

-- `sorted(..., key=lambda item: item[0])`
abbrev pub by_name : {A : Type 0} → String × A → String × A → Bool
by_name x y = text_lt (codes x.0) (codes y.0)

-- `"".join(...)`
unfoldable pub join : List Text → Text
join [] = []
join (s ∷ ss) = s ++ join ss

module _ (model_json_schema : Model → Fields) where
  unfoldable pub render_schema : Model → Result Text
  unfolding set_item
  render_schema model = do
    let document =
        set_item (codes "$schema") (str (codes "https://json-schema.org/draft/2020-12/schema"))
          (model_json_schema model)
    let stamped = set_item (codes "x-side-effects-lab-schema-version") (str (codes "0.1")) document
    bytes ← canonical_json_bytes (dict stamped)
    ok (bytes ++ b'\n' ∷ [])

  unfoldable pub render_all : List (String × Model) → Result (List (String × Text))
  unfolding render_schema
  render_all [] = ok []
  render_all (item ∷ items) = do
    content ← render_schema item.1
    rest ← render_all items
    ok ((item.0, content) ∷ rest)

  unfoldable pub expected_schemas : Result (List (String × Text))
  unfolding order_by render_all
  expected_schemas = render_all (order_by by_name schema_models)

  module _ (hexdigest : Text → Text) where
    -- A line of the manifest.
    abbrev pub manifest_line : String × Text → Text
    manifest_line item = hexdigest item.1 ++ codes "  " ++ codes item.0 ++ b'\n' ∷ []

    unfoldable pub manifest_lines : List (String × Text) → List Text
    manifest_lines [] = []
    manifest_lines (item ∷ items) = manifest_line item ∷ manifest_lines items

    unfoldable pub expected_schema_digest_manifest : Result Text
    unfolding expected_schemas manifest_lines join
    expected_schema_digest_manifest = do
      items ← expected_schemas
      let text = join (manifest_lines items)
      require (all is_ascii text) value_error
      ok text
