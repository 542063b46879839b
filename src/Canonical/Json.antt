-- ===== src/Canonical/Json.antt =====
-- `_normalize`, `canonical_json_bytes` and `canonical_digest` of src/side_effects_lab/canonical.py, with
-- what they use of the standard library: `json.dumps` of a normalized value with sorted keys and no
-- spaces, and the UTF-8 encoder. The paths in error messages are left out.
use Prim.Native.String.{◌++◌ as append}
use side_effects_lab.Prelude.{
  ℕ, suc, ◌+◌, ◌-◌, ◌/◌, ◌%◌, String, Bool, true, false, ◌&&◌, ◌||◌, [], ◌∷◌, ◌++◌, ◌≡◌, refl, ltb,
  leb, ◌==◌, if◌then◌else◌,
}
use side_effects_lab.Prelude.Int.{ℤ, pos, negsuc}
use side_effects_lab.Prelude.Result.{
  Result, ok, err, require, canonical_json_error, validation_error, ◌>>=◌, ◌>>◌,
}
use side_effects_lab.Text.{Text, codes}
use side_effects_lab.Text.Decimal.{decimal}
use side_effects_lab.Models.Identifiers.{is_digest}
use side_effects_lab.Models.Values.{
  Value, null, float, other, bool, int, str, list, tuple, dict, frozen_map, model, enum, Items, nil,
  cons, Fields, end, field, odd_field,
}

-- A normalized value.
mutual
  pub data Json : Type 0 where
    null_json : Json
    boolean : Bool → Json
    number : ℤ → Json
    string : Text → Json
    array : Elements → Json
    object : Members → Json

  pub data Elements : Type 0 where
    none_left : Elements
    element : Json → Elements → Elements

  pub data Members : Type 0 where
    no_member : Members
    member : Text → Json → Members → Members

-- `_normalize`
unfoldable mutual
  pub normalize : Value → Result Json
  normalize null = ok null_json
  normalize float = err canonical_json_error
  normalize other = err canonical_json_error
  normalize (bool b) = ok (boolean b)
  normalize (int n) = ok (number n)
  normalize (str s) = ok (string s)
  normalize (list xs) = normalize_items xs >>= λ es. ok (array es)
  normalize (tuple xs) = normalize_items xs >>= λ es. ok (array es)
  normalize (dict fs) = normalize_fields fs >>= λ ms. ok (object ms)
  normalize (frozen_map fs) = normalize_fields fs >>= λ ms. ok (object ms)
  normalize (model fs) = normalize_fields fs >>= λ ms. ok (object ms)
  normalize (enum v) = normalize v

  pub normalize_items : Items → Result Elements
  normalize_items nil = ok none_left
  normalize_items (cons x xs) = normalize x >>= λ j. normalize_items xs >>= λ es. ok (element j es)

  pub normalize_fields : Fields → Result Members
  normalize_fields end = ok no_member
  normalize_fields (field k x fs) =
      normalize x >>= λ j. normalize_fields fs >>= λ ms. ok (member k j ms)
  normalize_fields (odd_field x fs) = err canonical_json_error

-- `a < b` of two texts: by code points.
unfoldable pub text_lt : Text → Text → Bool
text_lt [] [] = false
text_lt [] (b ∷ t) = true
text_lt (a ∷ s) [] = false
text_lt (a ∷ s) (b ∷ t) = ltb a b || (a == b && text_lt s t)

-- `sorted`, by key; the keys of an object are distinct.
unfoldable pub insert_member : Text → Json → Members → Members
insert_member k j no_member = member k j no_member
insert_member k j (member i x ms) =
    if text_lt k i then member k j (member i x ms) else member i x (insert_member k j ms)

hex_digit : ℕ → ℕ
hex_digit n = if ltb n 10 then b'0' + n else b'a' + n - 10

-- One character of a JSON string: what `ensure_ascii=False` escapes.
unfoldable pub escape : ℕ → Text
unfolding hex_digit
escape c =
    if c == 0x22
    then 0x5c ∷ 0x22 ∷ []
    else if c == 0x5c
    then 0x5c ∷ 0x5c ∷ []
    else if c == 0x0a
    then 0x5c ∷ b'n' ∷ []
    else if c == 0x0d
    then 0x5c ∷ b'r' ∷ []
    else if c == 0x09
    then 0x5c ∷ b't' ∷ []
    else if c == 0x0c
    then 0x5c ∷ b'f' ∷ []
    else if c == 0x08
    then 0x5c ∷ b'b' ∷ []
    else if ltb c 0x20
    then 0x5c ∷ b'u' ∷ b'0' ∷ b'0' ∷ hex_digit (c / 16) ∷ hex_digit (c % 16) ∷ []
    else c ∷ []

unfoldable pub escaped : Text → Text
escaped [] = []
escaped (c ∷ s) = escape c ++ escaped s

unfoldable pub quoted : Text → Text
unfolding escape escaped
quoted s = 0x22 ∷ (escaped s ++ 0x22 ∷ [])

unfoldable pub print_integer : ℤ → Text
print_integer (pos n) = decimal n
print_integer (negsuc n) = b'-' ∷ decimal (suc n)

-- The members in order of their keys, at every depth.
unfoldable mutual
  pub sort_keys : Json → Json
  sort_keys null_json = null_json
  sort_keys (boolean b) = boolean b
  sort_keys (number n) = number n
  sort_keys (string s) = string s
  sort_keys (array es) = array (sort_elements es)
  sort_keys (object ms) = object (sort_members ms)

  pub sort_elements : Elements → Elements
  sort_elements none_left = none_left
  sort_elements (element j es) = element (sort_keys j) (sort_elements es)

  pub sort_members : Members → Members
  sort_members no_member = no_member
  sort_members (member k j ms) = insert_member k (sort_keys j) (sort_members ms)

-- `json.dumps` with the separators "," and ":", of a value whose keys are in order.
unfoldable mutual
  pub print : Json → Text
  print null_json = codes "null"
  print (boolean true) = codes "true"
  print (boolean false) = codes "false"
  print (number n) = print_integer n
  print (string s) = quoted s
  print (array es) = b'[' ∷ (print_elements es ++ b']' ∷ [])
  print (object ms) = b'{' ∷ (print_members ms ++ b'}' ∷ [])

  pub print_elements : Elements → Text
  print_elements none_left = []
  print_elements (element j none_left) = print j
  print_elements (element j es) = print j ++ b',' ∷ print_elements es

  pub print_members : Members → Text
  print_members no_member = []
  print_members (member k j no_member) = quoted k ++ b':' ∷ print j
  print_members (member k j ms) = (quoted k ++ b':' ∷ print j) ++ b',' ∷ print_members ms

-- UTF-8; a surrogate has no encoding.
unfoldable pub encode_char : ℕ → Result Text
encode_char c =
    if ltb c 0x80
    then ok (c ∷ [])
    else if ltb c 0x800
    then ok ((0xc0 + c / 64) ∷ (0x80 + c % 64) ∷ [])
    else if leb 0xd800 c && leb c 0xdfff
    then err canonical_json_error
    else if ltb c 0x10000
    then ok ((0xe0 + c / 4096) ∷ (0x80 + c / 64 % 64) ∷ (0x80 + c % 64) ∷ [])
    else ok
        ((0xf0 + c / 262144) ∷ (0x80 + c / 4096 % 64) ∷ (0x80 + c / 64 % 64) ∷ (0x80 + c % 64) ∷ [])

unfoldable pub encode : Text → Result Text
unfolding encode_char
encode [] = ok []
encode (c ∷ s) = encode_char c >>= λ b. encode s >>= λ bs. ok (b ++ bs)

-- `canonical_json_bytes`
unfoldable pub canonical_json_bytes : Value → Result Text
canonical_json_bytes v = do j ← normalize v; encode (print (sort_keys j))

-- `canonical_digest`: `hexdigest` stands for `sha256(…).hexdigest()`.
unfoldable pub canonical_digest : (Text → String) → Value → Result String
canonical_digest hexdigest v = do
  bytes ← canonical_json_bytes v
  require (is_digest (codes (append "sha256:" (hexdigest bytes)))) validation_error
  ok (append "sha256:" (hexdigest bytes))

abbrev sample : Value
sample = dict (
    field (codes "b") (int (negsuc 4))
      (field (codes "a") (list (cons (bool true) (cons (str (codes "é\"")) nil))) end))

-- {"a":[true,"é\""],"b":-5}
sample_bytes :
    canonical_json_bytes sample
    ≡ ok (codes "{\"a\":[true,\"" ++ 0xc3 ∷ 0xa9 ∷ codes "\\\"\"],\"b\":-5}")
unfolding canonical_json_bytes normalize sort_keys insert_member text_lt print print_integer quoted
    decimal encode
sample_bytes = refl
