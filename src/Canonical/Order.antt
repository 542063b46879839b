-- ===== src/Canonical/Order.antt =====
-- The canonical bytes of src/side_effects_lab/canonical.py forget the order of keys and whether a value was frozen.
use side_effects_lab.Prelude.{◌≡◌, ◌≢◌, refl, true, false, [], ◌∷◌, arith}
use side_effects_lab.Text.{Text}
use side_effects_lab.Models.Values.{
  Value, list, dict, Items, nil, cons, Fields, end, field, odd_field, freeze, freeze_items,
  freeze_fields,
}
use side_effects_lab.Canonical.Json.{
  Json, Members, no_member, member, normalize, normalize_items, normalize_fields, text_lt,
  insert_member, canonical_json_bytes,
}

mutual
  unfolding normalize freeze

  normalize_frozen : (v : Value) → normalize (freeze v) ≡ normalize v
  normalize_frozen (list xs) = rw (normalize_frozen_items xs)
  normalize_frozen (dict fs) = rw (normalize_frozen_fields fs)
  normalize_frozen _ = refl

  normalize_frozen_items : (xs : Items) → normalize_items (freeze_items xs) ≡ normalize_items xs
  normalize_frozen_items nil = refl
  normalize_frozen_items (cons x xs) = rw (normalize_frozen x, normalize_frozen_items xs)

  normalize_frozen_fields :
      (fs : Fields) → normalize_fields (freeze_fields fs) ≡ normalize_fields fs
  normalize_frozen_fields end = refl
  normalize_frozen_fields (field k x fs) = rw (normalize_frozen x, normalize_frozen_fields fs)
  normalize_frozen_fields (odd_field x fs) = refl

-- Freezing a value does not change its canonical bytes.
pub canonical_json_bytes-freeze :
    (v : Value) → canonical_json_bytes (freeze v) ≡ canonical_json_bytes v
unfolding canonical_json_bytes
canonical_json_bytes-freeze v = rw (normalize_frozen v)

text_lt_irrefl : (s : Text) → text_lt s s ≡ false
unfolding text_lt
text_lt_irrefl [] = refl
text_lt_irrefl (a ∷ s) = ground (arith, text_lt_irrefl s)

text_lt-asym : (s t : Text) → text_lt s t ≡ true → text_lt t s ≡ false
unfolding text_lt
text_lt-asym [] [] h = refl
text_lt-asym [] (b ∷ t) h = refl
text_lt-asym (a ∷ s) [] h = cc
text_lt-asym (a ∷ s) (b ∷ t) h = ground (arith, text_lt-asym s t)

text_lt-total : (s t : Text) → text_lt s t ≡ false → text_lt t s ≡ false → s ≡ t
unfolding text_lt
text_lt-total [] [] h k = refl
text_lt-total [] (b ∷ t) h k = cc
text_lt-total (a ∷ s) [] h k = cc
text_lt-total (a ∷ s) (b ∷ t) h k = ground (arith, text_lt-total s t)

text_lt_trans : (s t u : Text) → text_lt s t ≡ true → text_lt t u ≡ true → text_lt s u ≡ true
unfolding text_lt
text_lt_trans [] [] u h k = cc
text_lt_trans [] (b ∷ t) [] h k = cc
text_lt_trans [] (b ∷ t) (c ∷ u) h k = refl
text_lt_trans (a ∷ s) [] u h k = cc
text_lt_trans (a ∷ s) (b ∷ t) [] h k = cc
text_lt_trans (a ∷ s) (b ∷ t) (c ∷ u) h k = ground (arith, text_lt_trans s t u)

-- Two members of different keys may be inserted in either order.
pub insert_comm :
    (k i : Text) (j x : Json) (ms : Members)
    → k ≢ i
    → insert_member k j (insert_member i x ms) ≡ insert_member i x (insert_member k j ms)
unfolding insert_member
insert_comm k i j x no_member h =
    ground (arith, text_lt-asym k i, text_lt-asym i k, text_lt-total k i)
insert_comm k i j x (member m y ms) h = ground (
  arith,
  text_lt-asym k i,
  text_lt-asym i k,
  text_lt-total k i,
  text_lt_trans k i m,
  text_lt_trans i k m,
  insert_comm k i j x ms h,
)
