-- ===== src/Authority/Payload.antt =====
-- Evidence whose fields are kept as they are by src/side_effects_lab/authority.py.
use side_effects_lab.Prelude.{true, some, List, [], ◌∷◌, ◌≡◌, refl, All}
use side_effects_lab.Prelude.Result.{ok}
use side_effects_lab.Text.{Text}
use side_effects_lab.Models.Identifiers.{is_parameter_name}
use side_effects_lab.Models.Values.{
  Value, Fields, end, field, is_canonical, fields_canonical, free_of_urls, fields_free_of_urls,
  keys_are_names,
}
use side_effects_lab.Authority.Evidence.{field_of, validated_evidence_field, rebuilt}

-- A value of the evidence that is kept as it is.
pub record IsPlain (v : Value) : Type 0 where
  pub canonical : is_canonical v ≡ true
  pub free : free_of_urls v ≡ true

-- The evidence has a value under the key that its contract accepts unchanged.
pub record Holds (evidence : Fields) (key : Text) : Type 0 where
  pub value : Value
  pub is_held : field_of key evidence ≡ some value
  pub is_accepted : validated_evidence_field key value ≡ ok value
  pub is_plain : IsPlain value
  pub is_name : is_parameter_name key ≡ true

-- The evidence in the order of the keys.
abbrev pub kept : (evidence : Fields) (keys : List Text) → All (Holds evidence) keys → Fields
kept evidence [] hs = end
kept evidence (k ∷ ks) (h, hs) = field k h.value (kept evidence ks hs)

pub rebuilt-kept :
    (evidence : Fields) (keys : List Text) (hs : All (Holds evidence) keys)
    → rebuilt keys evidence ≡ ok (kept evidence keys hs)
unfolding rebuilt
rebuilt-kept evidence [] hs = refl
rebuilt-kept evidence (k ∷ ks) (h, hs) =
    rw (rebuilt, h.is_held, h.is_accepted, rebuilt-kept evidence ks hs)

pub kept-accepted :
    (evidence : Fields) (keys : List Text) (hs : All (Holds evidence) keys)
    → (keys_are_names (kept evidence keys hs) ≡ true)
      × (fields_canonical (kept evidence keys hs) ≡ true)
      × (fields_free_of_urls (kept evidence keys hs) ≡ true)
unfolding keys_are_names fields_canonical fields_free_of_urls
kept-accepted evidence [] hs = (refl, refl, refl)
kept-accepted evidence (k ∷ ks) (h, hs) =
    let (names, canonical, free) = kept-accepted evidence ks hs in
    (rw (h.is_name, names), rw (h.is_plain.canonical, canonical), rw (h.is_plain.free, free))
