-- ===== src/Models/Flat.antt =====
-- Maps of src/side_effects_lab/models.py whose values are texts, flags and None: their validation and
-- their canonical bytes.
use side_effects_lab.Prelude.{true, false, ◌≡◌, refl, ap, ◌∙◌, all}
use mathlib.Core.Path.{ap₂}
use side_effects_lab.Prelude.Result.{ok}
use side_effects_lab.Text.{Text}
use side_effects_lab.Models.Values.{
  Value, null, bool, str, dict, frozen_map, Fields, end, field, odd_field, is_url_value,
  free_of_urls, fields_free_of_urls, freeze, freeze_fields, thaw, thaw_fields, is_canonical,
  fields_canonical, keys_are_names, parameter_map,
}
use side_effects_lab.Models.Freezing.{parameter_map_iff}
use side_effects_lab.Canonical.Ascii.{is_ascii, IsAscii, MembersAscii, encode-print}
use side_effects_lab.Canonical.Json.{
  Json, null_json, boolean, string, object, Members, no_member, member, normalize, normalize_fields,
  print, sort_keys, canonical_json_bytes,
}

-- An ASCII text that is no URL, a flag or None.
abbrev pub IsFlat : Value → Type 0
IsFlat null = Unit
IsFlat (bool b) = Unit
IsFlat (str s) = (all is_ascii s ≡ true) × (is_url_value s ≡ false)
IsFlat _ = ⊥

abbrev pub FieldsFlat : Fields → Type 0
FieldsFlat end = Unit
FieldsFlat (field k v fs) = (all is_ascii k ≡ true) × IsFlat v × FieldsFlat fs
FieldsFlat (odd_field v fs) = ⊥

thaw-IsFlat : (v : Value) → IsFlat v → thaw v ≡ v
unfolding thaw
thaw-IsFlat null h = refl
thaw-IsFlat (bool b) h = refl
thaw-IsFlat (str s) h = refl
thaw-IsFlat _ h = absurd h

freeze-IsFlat : (v : Value) → IsFlat v → freeze v ≡ v
unfolding freeze
freeze-IsFlat null h = refl
freeze-IsFlat (bool b) h = refl
freeze-IsFlat (str s) h = refl
freeze-IsFlat _ h = absurd h

canonical-IsFlat : (v : Value) → IsFlat v → is_canonical v ≡ true
unfolding is_canonical
canonical-IsFlat null h = refl
canonical-IsFlat (bool b) h = refl
canonical-IsFlat (str s) h = refl
canonical-IsFlat _ h = absurd h

free-IsFlat : (v : Value) → IsFlat v → free_of_urls v ≡ true
unfolding free_of_urls
free-IsFlat null h = refl
free-IsFlat (bool b) h = refl
free-IsFlat (str s) h = rw (h.1) refl
free-IsFlat _ h = absurd h

normal-IsFlat : (v : Value) → IsFlat v → (j : Json) × (normalize v ≡ ok j) × IsAscii j
unfolding normalize
normal-IsFlat null h = (null_json, refl, tt)
normal-IsFlat (bool b) h = (boolean b, refl, tt)
normal-IsFlat (str s) h = (string s, refl, h.0)
normal-IsFlat _ h = absurd h

pub thaw-FieldsFlat : (fs : Fields) → FieldsFlat fs → thaw_fields fs ≡ fs
unfolding thaw_fields
thaw-FieldsFlat end h = refl
thaw-FieldsFlat (field k v fs) h = ap₂ (field k) (thaw-IsFlat v h.1) (thaw-FieldsFlat fs h.2)
thaw-FieldsFlat (odd_field v fs) h = absurd h

freeze-FieldsFlat : (fs : Fields) → FieldsFlat fs → freeze_fields fs ≡ fs
unfolding freeze_fields
freeze-FieldsFlat end h = refl
freeze-FieldsFlat (field k v fs) h = ap₂ (field k) (freeze-IsFlat v h.1) (freeze-FieldsFlat fs h.2)
freeze-FieldsFlat (odd_field v fs) h = absurd h

accepted-FieldsFlat :
    (fs : Fields) → FieldsFlat fs → (fields_canonical fs ≡ true) × (fields_free_of_urls fs ≡ true)
unfolding fields_canonical fields_free_of_urls
accepted-FieldsFlat end h = (refl, refl)
accepted-FieldsFlat (field k v fs) h =
    let (canonical, free) = accepted-FieldsFlat fs h.2 in
    (rw (canonical-IsFlat v h.1, canonical) refl, rw (free-IsFlat v h.1, free) refl)
accepted-FieldsFlat (odd_field v fs) h = absurd h

normal-FieldsFlat :
    (fs : Fields) → FieldsFlat fs → (ms : Members) × (normalize_fields fs ≡ ok ms) × MembersAscii ms
unfolding normalize_fields
normal-FieldsFlat end h = (no_member, refl, tt)
normal-FieldsFlat (field k v fs) h =
    let (j, is, plain) = normal-IsFlat v h.1 in
    let (ms, are, rest) = normal-FieldsFlat fs h.2 in
    (member k j ms, rw (is, are) refl, (h.0, plain, rest))
normal-FieldsFlat (odd_field v fs) h = absurd h

as_dict : (fs : Fields) → parameter_map (frozen_map fs) ≡ parameter_map (dict (thaw_fields fs))
unfolding parameter_map
as_dict fs = refl

-- A flat map with the names of parameters is accepted as it is.
pub parameter_map-FieldsFlat :
    (fs : Fields) → FieldsFlat fs → keys_are_names fs ≡ true → parameter_map (frozen_map fs) ≡ ok fs
parameter_map-FieldsFlat fs h names =
    let (canonical, free) = accepted-FieldsFlat fs h in
    as_dict fs
    ∙ ap (λ x. parameter_map (dict x)) (thaw-FieldsFlat fs h)
    ∙ (parameter_map_iff fs (freeze_fields fs)).1 (names, canonical, free, refl)
    ∙ ap ok (freeze-FieldsFlat fs h)

-- A flat map has canonical bytes.
pub canonical-FieldsFlat :
    (fs : Fields) → FieldsFlat fs → (bytes : Text) × (canonical_json_bytes (dict fs) ≡ ok bytes)
unfolding canonical_json_bytes normalize
canonical-FieldsFlat fs h =
    let (ms, are, plain) = normal-FieldsFlat fs h in
    (print (sort_keys (object ms)), rw are (encode-print (object ms) plain))
