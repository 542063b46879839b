-- ===== src/Models/Freezing.antt =====
-- Freezing, thawing and validating a map of src/side_effects_lab/models.py.
use mathlib.Core.Path.{ap₂}
use side_effects_lab.Prelude.{and_parts, true, ◌≡◌, refl, ap, ◌∙◌, ◌↔◌, arith}
use side_effects_lab.Prelude.Result.{ok}
use side_effects_lab.Models.Values.{
  Value, null, bool, int, str, list, dict, frozen_map, Items, nil, cons, Fields, end, field,
  odd_field, fields_free_of_urls, freeze, freeze_items, freeze_fields, thaw, thaw_items,
  thaw_fields, is_canonical, items_canonical, fields_canonical, keys_are_names, prepare_map_input,
  parameter_map,
}

mutual
  unfolding freeze thaw is_canonical

  thaw-freeze : (v : Value) → is_canonical v ≡ true → thaw (freeze v) ≡ v
  thaw-freeze null h = refl
  thaw-freeze (bool b) h = refl
  thaw-freeze (int n) h = refl
  thaw-freeze (str s) h = refl
  thaw-freeze (list xs) h = ap list (thaw_freeze_items xs h)
  thaw-freeze (dict fs) h = ap dict (thaw_freeze_fields fs h)
  thaw-freeze _ h = cc

  thaw_freeze_items : (xs : Items) → items_canonical xs ≡ true → thaw_items (freeze_items xs) ≡ xs
  thaw_freeze_items nil h = refl
  thaw_freeze_items (cons x xs) h =
      let (hx, hs) = and_parts (is_canonical x) (items_canonical xs) h in
      ap₂ cons (thaw-freeze x hx) (thaw_freeze_items xs hs)

  thaw_freeze_fields :
      (fs : Fields) → fields_canonical fs ≡ true → thaw_fields (freeze_fields fs) ≡ fs
  thaw_freeze_fields end h = refl
  thaw_freeze_fields (field k x fs) h =
      let (hx, hs) = and_parts (is_canonical x) (fields_canonical fs) h in
      ap₂ (field k) (thaw-freeze x hx) (thaw_freeze_fields fs hs)
  thaw_freeze_fields (odd_field x fs) h = cc

-- Thawing a frozen map gives back the map that was frozen.
pub thaw_fields-freeze_fields :
    (fs : Fields) → fields_canonical fs ≡ true → thaw_fields (freeze_fields fs) ≡ fs
thaw_fields-freeze_fields fs h = thaw_freeze_fields fs h

-- The tests of a dict, one by one.
pub parameter_map_iff :
    (fs gs : Fields)
    → (parameter_map (dict fs) ≡ ok gs) ↔ (
        (keys_are_names fs ≡ true)
        × (fields_canonical fs ≡ true)
        × (fields_free_of_urls fs ≡ true)
        × (gs ≡ freeze_fields fs))
unfolding parameter_map
parameter_map_iff fs gs = ground arith

accepted :
    (v : Value) (gs : Fields)
    → parameter_map v ≡ ok gs
    → (fs : Fields) × (prepare_map_input v ≡ dict fs)
      × (fields_canonical fs ≡ true)
      × (parameter_map (dict fs) ≡ ok gs)
      × (gs ≡ freeze_fields fs)
unfolding parameter_map
accepted (dict fs) gs h =
    let (keys, canonical, free, is) = (parameter_map_iff fs gs).0 h in (fs, refl, canonical, h, is)
accepted (frozen_map fs) gs h =
    let (keys, canonical, free, is) = (parameter_map_iff (thaw_fields fs) gs).0 h in
    (thaw_fields fs, refl, canonical, h, is)
accepted _ gs h = cc

frozen_as_dict :
    (fs : Fields) → parameter_map (frozen_map fs) ≡ parameter_map (dict (thaw_fields fs))
unfolding parameter_map
frozen_as_dict fs = refl

-- Validation is idempotent: the frozen map that it returned is accepted again, unchanged.
pub parameter_map-frozen_map :
    (v : Value) (gs : Fields) → parameter_map v ≡ ok gs → parameter_map (frozen_map gs) ≡ ok gs
parameter_map-frozen_map v gs h =
    let (fs, prepared, canonical, fits, frozen) = accepted v gs h in
    frozen_as_dict gs
    ∙ ap (λ x. parameter_map (dict x)) (ap thaw_fields frozen ∙ thaw_freeze_fields fs canonical)
    ∙ fits
