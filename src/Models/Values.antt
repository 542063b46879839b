-- ===== src/Models/Values.antt =====
-- The Python values that contracts hold, and what src/side_effects_lab/models.py does with the
-- canonical ones: the screen for URLs, freezing and thawing, and the validation of a parameter map.
use side_effects_lab.Prelude.{
  ℕ, Bool, true, false, not, ◌&&◌, ◌||◌, [], ◌∷◌, leb, ◌==◌, if◌then◌else◌,
}
use side_effects_lab.Prelude.Int.{ℤ}
use side_effects_lab.Prelude.Result.{Result, ok, err, validation_error, ◌>>=◌}
use side_effects_lab.Text.{Text, is_lower, is_digit}
use side_effects_lab.Models.Identifiers.{is_digest, is_parameter_name}

-- A value by its Python type. An enumeration's member holds its `.value`, a pydantic model the fields
-- of its JSON dump; `other` is an object of any other type. A field with no text for a key is
-- `odd_field`.
mutual
  pub data Value : Type 0 where
    null float other : Value
    bool : Bool → Value
    int : ℤ → Value
    str : Text → Value
    list tuple : Items → Value
    dict frozen_map model : Fields → Value
    enum : Value → Value

  pub data Items : Type 0 where
    nil : Items
    cons : Value → Items → Items

  pub data Fields : Type 0 where
    end : Fields
    field : Text → Value → Fields → Fields
    odd_field : Value → Fields → Fields

-- [A-Za-z]
abbrev pub is_letter : ℕ → Bool
is_letter c = is_lower c || (leb b'A' c && leb c b'Z')

-- [A-Za-z0-9+.-]
abbrev pub is_scheme_char : ℕ → Bool
is_scheme_char c = is_letter c || is_digit c || c == b'+' || c == b'.' || c == b'-'

-- `[A-Za-z0-9+.-]*:`, as a prefix
unfoldable pub scheme_rest : Text → Bool
scheme_rest [] = false
scheme_rest (c ∷ s) = c == b':' || (is_scheme_char c && scheme_rest s)

-- `_URL_SCHEME_PREFIX.match`
unfoldable pub has_url_scheme : Text → Bool
unfolding scheme_rest
has_url_scheme [] = false
has_url_scheme (c ∷ s) = is_letter c && scheme_rest s

-- `str.isspace` of one character.
abbrev pub is_space : ℕ → Bool
is_space c =
    (leb 9 c && leb c 13)
    || (leb 28 c && leb c 32)
    || c == 0x85
    || c == 0xa0
    || c == 0x1680
    || (leb 0x2000 c && leb c 0x200a)
    || c == 0x2028
    || c == 0x2029
    || c == 0x202f
    || c == 0x205f
    || c == 0x3000

-- `str.lstrip`
unfoldable pub lstrip : Text → Text
lstrip [] = []
lstrip (c ∷ s) = let rest = lstrip s in if is_space c then rest else c ∷ s

-- The test of `_reject_url_values` on a text.
unfoldable pub is_url_value : Text → Bool
is_url_value s = not (is_digest s) && has_url_scheme (lstrip s)

-- `_reject_url_values`: true where it raises nothing. Only lists and dicts are searched.
unfoldable mutual
  pub free_of_urls : Value → Bool
  free_of_urls (str s) = not (is_url_value s)
  free_of_urls (list xs) = items_free_of_urls xs
  free_of_urls (dict fs) = fields_free_of_urls fs
  free_of_urls _ = true

  pub items_free_of_urls : Items → Bool
  items_free_of_urls nil = true
  items_free_of_urls (cons x xs) = free_of_urls x && items_free_of_urls xs

  pub fields_free_of_urls : Fields → Bool
  fields_free_of_urls end = true
  fields_free_of_urls (field k x fs) = free_of_urls x && fields_free_of_urls fs
  fields_free_of_urls (odd_field x fs) = free_of_urls x && fields_free_of_urls fs

-- `_freeze_value`
unfoldable mutual
  pub freeze : Value → Value
  freeze (list xs) = tuple (freeze_items xs)
  freeze (dict fs) = frozen_map (freeze_fields fs)
  freeze v = v

  pub freeze_items : Items → Items
  freeze_items nil = nil
  freeze_items (cons x xs) = cons (freeze x) (freeze_items xs)

  pub freeze_fields : Fields → Fields
  freeze_fields end = end
  freeze_fields (field k x fs) = field k (freeze x) (freeze_fields fs)
  freeze_fields (odd_field x fs) = odd_field (freeze x) (freeze_fields fs)

-- `_thaw_value`
unfoldable mutual
  pub thaw : Value → Value
  thaw (tuple xs) = list (thaw_items xs)
  thaw (frozen_map fs) = dict (thaw_fields fs)
  thaw v = v

  pub thaw_items : Items → Items
  thaw_items nil = nil
  thaw_items (cons x xs) = cons (thaw x) (thaw_items xs)

  pub thaw_fields : Fields → Fields
  thaw_fields end = end
  thaw_fields (field k x fs) = field k (thaw x) (thaw_fields fs)
  thaw_fields (odd_field x fs) = odd_field (thaw x) (thaw_fields fs)

-- The type `CanonicalValue`, as strict validation accepts it.
unfoldable mutual
  pub is_canonical : Value → Bool
  is_canonical null = true
  is_canonical (bool b) = true
  is_canonical (int n) = true
  is_canonical (str s) = true
  is_canonical (list xs) = items_canonical xs
  is_canonical (dict fs) = fields_canonical fs
  is_canonical _ = false

  pub items_canonical : Items → Bool
  items_canonical nil = true
  items_canonical (cons x xs) = is_canonical x && items_canonical xs

  pub fields_canonical : Fields → Bool
  fields_canonical end = true
  fields_canonical (field k x fs) = is_canonical x && fields_canonical fs
  fields_canonical (odd_field x fs) = false

-- The keys of a parameter map are parameter names.
unfoldable pub keys_are_names : Fields → Bool
keys_are_names end = true
keys_are_names (field k x fs) = is_parameter_name k && keys_are_names fs
keys_are_names (odd_field x fs) = false

-- `_prepare_map_input`
unfoldable pub prepare_map_input : Value → Value
unfolding thaw_fields
prepare_map_input (frozen_map fs) = dict (thaw_fields fs)
prepare_map_input v = v

-- The fields of a validated map; `Mapping` is met by a dict here.
unfoldable pub validated_fields : Value → Result Fields
validated_fields (dict fs) =
    if keys_are_names fs && fields_canonical fs then ok fs else err validation_error
validated_fields _ = err validation_error

-- `_validate_and_freeze_map`; its `ValueError` comes out as a `ValidationError`.
unfoldable pub freeze_map : Fields → Result Fields
freeze_map fs = if fields_free_of_urls fs then ok (freeze_fields fs) else err validation_error

-- A `ParameterMap` or `EvidenceMap` from its input: the fields of the `FrozenMap`.
unfoldable pub parameter_map : Value → Result Fields
unfolding prepare_map_input validated_fields freeze_map
parameter_map v = do fs ← validated_fields (prepare_map_input v); freeze_map fs
