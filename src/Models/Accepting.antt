-- ===== src/Models/Accepting.antt =====
-- The maps that `ParameterMap` and `EvidenceMap` of src/side_effects_lab/models.py accept, as a
-- relation between a dict and its frozen copy.
use mathlib.Core.Path.{ap₂}
use side_effects_lab.Prelude.{
  Bool, true, not, ap, ◌≡◌, ◌↔◌, refl, and_parts, inl, inr, Bool-cases, arith,
}
use side_effects_lab.Prelude.Int.{ℤ}
use side_effects_lab.Prelude.Result.{ok}
use side_effects_lab.Text.{Text}
use side_effects_lab.Models.Identifiers.{is_parameter_name}
use side_effects_lab.Models.Values.{
  Value, null, bool, int, str, list, tuple, dict, frozen_map, Items, nil, cons, Fields, end, field,
  odd_field, is_url_value, free_of_urls, items_free_of_urls, fields_free_of_urls, freeze,
  freeze_items, freeze_fields, is_canonical, items_canonical, fields_canonical, keys_are_names,
  parameter_map,
}
use side_effects_lab.Models.Freezing.{parameter_map_iff}
use side_effects_lab.Models.Screening.{DigestText, SchemeText, is_url_value_iff}

-- A value of the JSON types and its frozen copy. A text may begin with a URL scheme, behind spaces,
-- only where it is a digest.
mutual
  pub data Freezes : Value → Value → Type 0 where
    nulls : Freezes null null
    bools : (b : Bool) → Freezes (bool b) (bool b)
    ints : (n : ℤ) → Freezes (int n) (int n)
    texts : (s : Text) → ¬ ((¬ DigestText s) × SchemeText s) → Freezes (str s) (str s)
    lists : {xs ys : Items} → FreezesItems xs ys → Freezes (list xs) (tuple ys)
    dicts : {fs gs : Fields} → FreezesFields fs gs → Freezes (dict fs) (frozen_map gs)

  pub data FreezesItems : Items → Items → Type 0 where
    no_items : FreezesItems nil nil
    more_items :
        {x y : Value} {xs ys : Items}
        → Freezes x y
        → FreezesItems xs ys
        → FreezesItems (cons x xs) (cons y ys)

  pub data FreezesFields : Fields → Fields → Type 0 where
    no_fields : FreezesFields end end
    more_fields :
        {x y : Value} {fs gs : Fields} (k : Text)
        → Freezes x y
        → FreezesFields fs gs
        → FreezesFields (field k x fs) (field k y gs)

-- A map of parameters: every key of the outer dict is a parameter name.
pub data FreezesMap : Fields → Fields → Type 0 where
  no_parameters : FreezesMap end end
  more_parameters :
      {x y : Value} {fs gs : Fields} (k : Text)
      → is_parameter_name k ≡ true
      → Freezes x y
      → FreezesMap fs gs
      → FreezesMap (field k x fs) (field k y gs)

screened : (s : Text) → not (is_url_value s) ≡ true → ¬ ((¬ DigestText s) × SchemeText s)
screened s h found = ground (arith, (is_url_value_iff s).1 found)

passes_screen : (s : Text) → ¬ ((¬ DigestText s) × SchemeText s) → not (is_url_value s) ≡ true
passes_screen s h = elim (Bool-cases (is_url_value s)) [
  | inl url ↦ absurd (h ((is_url_value_iff s).0 url))
  | inr other ↦ rw other refl
]

mutual
  unfolding is_canonical free_of_urls freeze

  freeze-Freezes :
      (v : Value) → is_canonical v ≡ true → free_of_urls v ≡ true → Freezes v (freeze v)
  freeze-Freezes null h k = nulls
  freeze-Freezes (bool b) h k = bools b
  freeze-Freezes (int n) h k = ints n
  freeze-Freezes (str s) h k = texts s (screened s k)
  freeze-Freezes (list xs) h k = lists (freeze_items-Freezes xs h k)
  freeze-Freezes (dict fs) h k = dicts (freeze_fields-Freezes fs h k)
  freeze-Freezes _ h k = cc

  freeze_items-Freezes :
      (xs : Items)
      → items_canonical xs ≡ true
      → items_free_of_urls xs ≡ true
      → FreezesItems xs (freeze_items xs)
  freeze_items-Freezes nil h k = no_items
  freeze_items-Freezes (cons x xs) h k =
      let (hx, hs) = and_parts (is_canonical x) (items_canonical xs) h in
      let (kx, ks) = and_parts (free_of_urls x) (items_free_of_urls xs) k in
      more_items (freeze-Freezes x hx kx) (freeze_items-Freezes xs hs ks)

  freeze_fields-Freezes :
      (fs : Fields)
      → fields_canonical fs ≡ true
      → fields_free_of_urls fs ≡ true
      → FreezesFields fs (freeze_fields fs)
  freeze_fields-Freezes end h k = no_fields
  freeze_fields-Freezes (field i x fs) h k =
      let (hx, hs) = and_parts (is_canonical x) (fields_canonical fs) h in
      let (kx, ks) = and_parts (free_of_urls x) (fields_free_of_urls fs) k in
      more_fields i (freeze-Freezes x hx kx) (freeze_fields-Freezes fs hs ks)
  freeze_fields-Freezes (odd_field x fs) h k = cc

freeze_fields-FreezesMap :
    (fs : Fields)
    → keys_are_names fs ≡ true
    → fields_canonical fs ≡ true
    → fields_free_of_urls fs ≡ true
    → FreezesMap fs (freeze_fields fs)
unfolding keys_are_names fields_canonical fields_free_of_urls freeze_fields
freeze_fields-FreezesMap end n h k = no_parameters
freeze_fields-FreezesMap (field i x fs) n h k =
    let (name, names) = and_parts (is_parameter_name i) (keys_are_names fs) n in
    let (hx, hs) = and_parts (is_canonical x) (fields_canonical fs) h in
    let (kx, ks) = and_parts (free_of_urls x) (fields_free_of_urls fs) k in
    more_parameters i name (freeze-Freezes x hx kx) (freeze_fields-FreezesMap fs names hs ks)
freeze_fields-FreezesMap (odd_field x fs) n h k = cc

mutual
  unfolding is_canonical free_of_urls freeze

  Freezes-freeze :
      {v w : Value}
      → Freezes v w
      → (is_canonical v ≡ true) × (free_of_urls v ≡ true) × (w ≡ freeze v)
  Freezes-freeze nulls = (refl, refl, refl)
  Freezes-freeze (bools b) = (refl, refl, refl)
  Freezes-freeze (ints n) = (refl, refl, refl)
  Freezes-freeze (texts s h) = (refl, passes_screen s h, refl)
  Freezes-freeze (lists h) = let (c, f, e) = FreezesItems-freeze h in (c, f, ap tuple e)
  Freezes-freeze (dicts h) = let (c, f, e) = FreezesFields-freeze h in (c, f, ap frozen_map e)

  FreezesItems-freeze :
      {xs ys : Items}
      → FreezesItems xs ys
      → (items_canonical xs ≡ true) × (items_free_of_urls xs ≡ true) × (ys ≡ freeze_items xs)
  FreezesItems-freeze no_items = (refl, refl, refl)
  FreezesItems-freeze (more_items h hs) =
      let (c, f, e) = Freezes-freeze h in
      let (cs, fs, es) = FreezesItems-freeze hs in (rw c cs, rw f fs, ap₂ cons e es)

  FreezesFields-freeze :
      {fs gs : Fields}
      → FreezesFields fs gs
      → (fields_canonical fs ≡ true) × (fields_free_of_urls fs ≡ true) × (gs ≡ freeze_fields fs)
  FreezesFields-freeze no_fields = (refl, refl, refl)
  FreezesFields-freeze (more_fields k h hs) =
      let (c, f, e) = Freezes-freeze h in
      let (cs, fs, es) = FreezesFields-freeze hs in (rw c cs, rw f fs, ap₂ (field k) e es)

FreezesMap-parts :
    {fs gs : Fields} → FreezesMap fs gs → (keys_are_names fs ≡ true) × FreezesFields fs gs
unfolding keys_are_names
FreezesMap-parts no_parameters = (refl, no_fields)
FreezesMap-parts (more_parameters k name h hs) =
    let (names, rest) = FreezesMap-parts hs in (rw name names, more_fields k h rest)

-- A dict is accepted with a frozen map as the result exactly when its keys are parameter names, each
-- value at every depth is null, a Boolean, an integer, a text, a list or a dict with texts for keys,
-- each text that is a value is a digest or does not begin, after white space, with a URL scheme, and
-- the result is the dict with its lists as tuples and its dicts as frozen maps. A scheme is a letter,
-- any number of letters, digits and the characters "+", "." and "-", and a colon.
pub parameter_map-returns_iff :
    (fs gs : Fields) → (parameter_map (dict fs) ≡ ok gs) ↔ FreezesMap fs gs
parameter_map-returns_iff fs gs = (
  λ h.
      (let (names, canonical, free, frozen) = (parameter_map_iff fs gs).0 h in
        rw frozen (freeze_fields-FreezesMap fs names canonical free)),
  λ h.
      (let (names, fields) = FreezesMap-parts h in
        let (canonical, free, frozen) = FreezesFields-freeze fields in
        (parameter_map_iff fs gs).1 (names, canonical, free, frozen)),
)
