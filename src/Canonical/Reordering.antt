-- ===== src/Canonical/Reordering.antt =====
-- Values that are the same but for the order of keys and for freezing have the same canonical bytes in
-- src/side_effects_lab/canonical.py, at every depth.
use mathlib.Core.Path.{ap₂}
use side_effects_lab.Prelude.{◌≡◌, ◌≢◌, refl, sym, ap, ◌∙◌}
use side_effects_lab.Prelude.Result.{Result, ok, err, canonical_json_error, ◌>>=◌}
use side_effects_lab.Text.{Text}
use side_effects_lab.Models.Values.{
  Value, null, float, other, bool, int, str, list, tuple, dict, frozen_map, model, enum, Items, nil,
  cons, Fields, end, field, odd_field,
}
use side_effects_lab.Canonical.Json.{
  Json, array, object, Elements, element, Members, member, normalize, normalize_items,
  normalize_fields, insert_member, sort_keys, sort_elements, sort_members, print, encode,
  canonical_json_bytes,
}
use side_effects_lab.Canonical.Order.{insert_comm}

-- The same value, but that a dict may have its keys in another order, a model its fields, and that
-- lists may be tuples and dicts frozen. It passes through lists, maps, models and enumerations.
mutual
  pub data SameValue : Value → Value → Type 0 where
    same : {v : Value} → SameValue v v
    lists : {xs ys : Items} → SameItems xs ys → SameValue (list xs) (list ys)
    list_tuple : {xs ys : Items} → SameItems xs ys → SameValue (list xs) (tuple ys)
    tuple_list : {xs ys : Items} → SameItems xs ys → SameValue (tuple xs) (list ys)
    tuples : {xs ys : Items} → SameItems xs ys → SameValue (tuple xs) (tuple ys)
    dicts : {fs gs : Fields} → SameFields fs gs → SameValue (dict fs) (dict gs)
    dict_map : {fs gs : Fields} → SameFields fs gs → SameValue (dict fs) (frozen_map gs)
    map_dict : {fs gs : Fields} → SameFields fs gs → SameValue (frozen_map fs) (dict gs)
    maps : {fs gs : Fields} → SameFields fs gs → SameValue (frozen_map fs) (frozen_map gs)
    models : {fs gs : Fields} → SameFields fs gs → SameValue (model fs) (model gs)
    enums : {v w : Value} → SameValue v w → SameValue (enum v) (enum w)
    joined : {v w x : Value} → SameValue v w → SameValue w x → SameValue v x

  pub data SameItems : Items → Items → Type 0 where
    same_nil : SameItems nil nil
    same_cons :
        {x y : Value} {xs ys : Items}
        → SameValue x y
        → SameItems xs ys
        → SameItems (cons x xs) (cons y ys)

  pub data SameFields : Fields → Fields → Type 0 where
    same_end : SameFields end end
    same_field :
        {x y : Value} {fs gs : Fields} (k : Text)
        → SameValue x y
        → SameFields fs gs
        → SameFields (field k x fs) (field k y gs)
    swapped :
        (k i : Text) (x y : Value) (fs : Fields)
        → k ≢ i
        → SameFields (field k x (field i y fs)) (field i y (field k x fs))
    both : {fs gs hs : Fields} → SameFields fs gs → SameFields gs hs → SameFields fs hs

-- Normalization fails in one way only.
abbrev FailsAlike : {A : Type 0} → Result A → Type 0
FailsAlike (ok a) = Unit
FailsAlike (err e) = e ≡ canonical_json_error

module _ {A B : Type 0} where
  bind-FailsAlike :
      (m : Result A) (f : A → Result B)
      → FailsAlike m
      → ((a : A) → FailsAlike (f a))
      → FailsAlike (m >>= f)
  bind-FailsAlike (ok a) f h k = k a
  bind-FailsAlike (err e) f h k = h

mutual
  unfolding normalize

  normalize-FailsAlike : (v : Value) → FailsAlike (normalize v)
  normalize-FailsAlike null = tt
  normalize-FailsAlike float = refl
  normalize-FailsAlike other = refl
  normalize-FailsAlike (bool b) = tt
  normalize-FailsAlike (int n) = tt
  normalize-FailsAlike (str s) = tt
  normalize-FailsAlike (list xs) = bind-FailsAlike _ _ (items-FailsAlike xs) (λ a. tt)
  normalize-FailsAlike (tuple xs) = bind-FailsAlike _ _ (items-FailsAlike xs) (λ a. tt)
  normalize-FailsAlike (dict fs) = bind-FailsAlike _ _ (fields-FailsAlike fs) (λ a. tt)
  normalize-FailsAlike (frozen_map fs) = bind-FailsAlike _ _ (fields-FailsAlike fs) (λ a. tt)
  normalize-FailsAlike (model fs) = bind-FailsAlike _ _ (fields-FailsAlike fs) (λ a. tt)
  normalize-FailsAlike (enum v) = normalize-FailsAlike v

  items-FailsAlike : (xs : Items) → FailsAlike (normalize_items xs)
  items-FailsAlike nil = tt
  items-FailsAlike (cons x xs) =
      bind-FailsAlike _ _ (normalize-FailsAlike x)
        (λ j. bind-FailsAlike _ _ (items-FailsAlike xs) (λ es. tt))

  fields-FailsAlike : (fs : Fields) → FailsAlike (normalize_fields fs)
  fields-FailsAlike end = tt
  fields-FailsAlike (field k x fs) =
      bind-FailsAlike _ _ (normalize-FailsAlike x)
        (λ j. bind-FailsAlike _ _ (fields-FailsAlike fs) (λ ms. tt))
  fields-FailsAlike (odd_field x fs) = refl

-- The normal form with its keys in order.
abbrev sorted : Result Json → Result Json
sorted r = r >>= λ j. ok (sort_keys j)

abbrev sorted_items : Result Elements → Result Elements
sorted_items r = r >>= λ es. ok (sort_elements es)

abbrev sorted_fields : Result Members → Result Members
sorted_fields r = r >>= λ ms. ok (sort_members ms)

abbrev add_element : Result Json → Result Elements → Result Elements
add_element r rs = r >>= λ j. rs >>= λ es. ok (element j es)

abbrev add_member : Text → Result Json → Result Members → Result Members
add_member k r rs = r >>= λ j. rs >>= λ ms. ok (insert_member k j ms)

sorted_cons :
    (r : Result Json) (rs : Result Elements)
    → sorted_items (r >>= λ j. rs >>= λ es. ok (element j es))
      ≡ add_element (sorted r) (sorted_items rs)
unfolding sort_keys
sorted_cons (ok j) (ok es) = refl
sorted_cons (ok j) (err e) = refl
sorted_cons (err e) rs = refl

sorted_field :
    (k : Text) (r : Result Json) (rs : Result Members)
    → sorted_fields (r >>= λ j. rs >>= λ ms. ok (member k j ms))
      ≡ add_member k (sorted r) (sorted_fields rs)
unfolding sort_keys
sorted_field k (ok j) (ok ms) = refl
sorted_field k (ok j) (err e) = refl
sorted_field k (err e) rs = refl

add_member_comm :
    (k i : Text) (r q : Result Json) (rs : Result Members)
    → k ≢ i
    → FailsAlike r
    → FailsAlike q
    → FailsAlike rs
    → add_member k (sorted r) (add_member i (sorted q) (sorted_fields rs))
      ≡ add_member i (sorted q) (add_member k (sorted r) (sorted_fields rs))
add_member_comm k i (ok j) (ok x) (ok ms) h a b c =
    ap ok (insert_comm k i (sort_keys j) (sort_keys x) (sort_members ms) h)
add_member_comm k i (ok j) (ok x) (err e) h a b c = refl
add_member_comm k i (ok j) (err e) rs h a b c = refl
add_member_comm k i (err e) (ok x) (ok ms) h a b c = refl
add_member_comm k i (err e) (ok x) (err d) h a b c = refl
add_member_comm k i (err e) (err d) rs h a b c = ap err (a ∙ sym b)

sorted_list :
    (rs : Result Elements)
    → sorted (rs >>= λ es. ok (array es)) ≡ (sorted_items rs >>= λ es. ok (array es))
unfolding sort_keys
sorted_list (ok es) = refl
sorted_list (err e) = refl

sorted_dict :
    (rs : Result Members)
    → sorted (rs >>= λ ms. ok (object ms)) ≡ (sorted_fields rs >>= λ ms. ok (object ms))
unfolding sort_keys
sorted_dict (ok ms) = refl
sorted_dict (err e) = refl

same_list :
    (rs qs : Result Elements)
    → sorted_items rs ≡ sorted_items qs
    → sorted (rs >>= λ es. ok (array es)) ≡ sorted (qs >>= λ es. ok (array es))
same_list rs qs h = sorted_list rs ∙ ap (λ r. r >>= λ es. ok (array es)) h ∙ sym (sorted_list qs)

same_dict :
    (rs qs : Result Members)
    → sorted_fields rs ≡ sorted_fields qs
    → sorted (rs >>= λ ms. ok (object ms)) ≡ sorted (qs >>= λ ms. ok (object ms))
same_dict rs qs h = sorted_dict rs ∙ ap (λ r. r >>= λ ms. ok (object ms)) h ∙ sym (sorted_dict qs)

mutual
  unfolding normalize

  value_alike : {v w : Value} → SameValue v w → sorted (normalize v) ≡ sorted (normalize w)
  value_alike same = refl
  value_alike (lists h) = same_list _ _ (items_alike h)
  value_alike (list_tuple h) = same_list _ _ (items_alike h)
  value_alike (tuple_list h) = same_list _ _ (items_alike h)
  value_alike (tuples h) = same_list _ _ (items_alike h)
  value_alike (dicts h) = same_dict _ _ (fields_alike h)
  value_alike (dict_map h) = same_dict _ _ (fields_alike h)
  value_alike (map_dict h) = same_dict _ _ (fields_alike h)
  value_alike (maps h) = same_dict _ _ (fields_alike h)
  value_alike (models h) = same_dict _ _ (fields_alike h)
  value_alike (enums h) = value_alike h
  value_alike (joined h k) = value_alike h ∙ value_alike k

  items_alike :
      {xs ys : Items}
      → SameItems xs ys
      → sorted_items (normalize_items xs) ≡ sorted_items (normalize_items ys)
  items_alike same_nil = refl
  items_alike (same_cons {x = x} {y = y} {xs = xs} {ys = ys} h hs) =
      sorted_cons (normalize x) (normalize_items xs)
      ∙ ap₂ add_element (value_alike h) (items_alike hs)
      ∙ sym (sorted_cons (normalize y) (normalize_items ys))

  fields_alike :
      {fs gs : Fields}
      → SameFields fs gs
      → sorted_fields (normalize_fields fs) ≡ sorted_fields (normalize_fields gs)
  fields_alike same_end = refl
  fields_alike (same_field {x = x} {y = y} {fs = fs} {gs = gs} k h hs) =
      sorted_field k (normalize x) (normalize_fields fs)
      ∙ ap₂ (add_member k) (value_alike h) (fields_alike hs)
      ∙ sym (sorted_field k (normalize y) (normalize_fields gs))
  fields_alike (swapped k i x y fs h) =
      sorted_field k (normalize x) _
      ∙ ap (add_member k (sorted (normalize x)))
          (sorted_field i (normalize y) (normalize_fields fs))
      ∙ add_member_comm k i (normalize x) (normalize y) (normalize_fields fs) h
          (normalize-FailsAlike x) (normalize-FailsAlike y) (fields-FailsAlike fs)
      ∙ sym (
          ap (add_member i (sorted (normalize y)))
            (sorted_field k (normalize x) (normalize_fields fs)))
      ∙ sym (sorted_field i (normalize y) _)
  fields_alike (both h k) = fields_alike h ∙ fields_alike k

bytes_of : Result Json → Result Text
bytes_of r = r >>= λ j. encode (print j)

bytes_of-sorted : (v : Value) → canonical_json_bytes v ≡ bytes_of (sorted (normalize v))
unfolding canonical_json_bytes bytes_of
bytes_of-sorted v = step (normalize v)
  where
    step : (r : Result Json) → (r >>= λ j. encode (print (sort_keys j))) ≡ bytes_of (sorted r)
    step (ok j) = refl
    step (err e) = refl

-- Two values that differ only in the order of the keys of their dicts and of the fields of their
-- models, at any depth (in lists, maps, models and enumerations), and in whether their lists and
-- dicts are frozen have the same canonical bytes, or fail alike.
pub canonical_json_bytes-SameValue :
    (v w : Value) → SameValue v w → canonical_json_bytes v ≡ canonical_json_bytes w
canonical_json_bytes-SameValue v w h =
    bytes_of-sorted v ∙ ap bytes_of (value_alike h) ∙ sym (bytes_of-sorted w)
