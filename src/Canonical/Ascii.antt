-- ===== src/Canonical/Ascii.antt =====
-- The canonical bytes of src/side_effects_lab/canonical.py where all texts are ASCII.
use side_effects_lab.Prelude.{
  ℕ, Bool, true, false, [], ◌∷◌, ◌++◌, ◌≡◌, refl, arith, all, ltb, and_parts, Bool-cases, inl, inr,
}
use side_effects_lab.Prelude.Int.{ℤ, pos, negsuc}
use side_effects_lab.Prelude.Result.{ok}
use side_effects_lab.Text.{Text, is_digit}
use side_effects_lab.Text.Equality.{all-append}
use side_effects_lab.Text.Decimal.{decimal, decimal-all}
use side_effects_lab.Canonical.Json.{
  Json, null_json, boolean, number, string, array, object, Elements, none_left, element, Members,
  no_member, member, text_lt, insert_member, escape, escaped, quoted, print_integer, sort_keys,
  sort_elements, sort_members, print, print_elements, print_members, encode_char, encode,
}

abbrev pub is_ascii : ℕ → Bool
is_ascii c = ltb c 0x80

encode_char_ascii : (c : ℕ) → is_ascii c ≡ true → encode_char c ≡ ok (c ∷ [])
unfolding encode_char
encode_char_ascii c h = ground arith

pub encode_ascii : (s : Text) → all is_ascii s ≡ true → encode s ≡ ok s
unfolding encode
encode_ascii [] h = refl
encode_ascii (c ∷ s) h =
    let (here, there) = and_parts (is_ascii c) (all is_ascii s) h in
    rw (encode_char_ascii c here, encode_ascii s there)

-- All texts of a value are ASCII.
abbrev mutual
  pub IsAscii : Json → Type 0
  IsAscii (string s) = all is_ascii s ≡ true
  IsAscii (array es) = ElementsAscii es
  IsAscii (object ms) = MembersAscii ms
  IsAscii null_json = Unit
  IsAscii (boolean b) = Unit
  IsAscii (number n) = Unit

  pub ElementsAscii : Elements → Type 0
  ElementsAscii none_left = Unit
  ElementsAscii (element j es) = IsAscii j × ElementsAscii es

  pub MembersAscii : Members → Type 0
  MembersAscii no_member = Unit
  MembersAscii (member k j ms) = (all is_ascii k ≡ true) × IsAscii j × MembersAscii ms

escape_ascii : (c : ℕ) → is_ascii c ≡ true → all is_ascii (escape c) ≡ true
unfolding escape
escape_ascii c h = ground arith

escaped_ascii : (s : Text) → all is_ascii s ≡ true → all is_ascii (escaped s) ≡ true
unfolding escaped
escaped_ascii [] h = refl
escaped_ascii (c ∷ s) h =
    let (here, there) = and_parts (is_ascii c) (all is_ascii s) h in
    all-append is_ascii (escape c) (escaped s) (escape_ascii c here) (escaped_ascii s there)

quoted_ascii : (s : Text) → all is_ascii s ≡ true → all is_ascii (quoted s) ≡ true
unfolding quoted
quoted_ascii s h = all-append is_ascii (escaped s) (0x22 ∷ []) (escaped_ascii s h) refl

digits_ascii : (s : Text) → all is_digit s ≡ true → all is_ascii s ≡ true
digits_ascii [] h = refl
digits_ascii (c ∷ s) h = ground (arith, digits_ascii s)

integer_ascii : (n : ℤ) → all is_ascii (print_integer n) ≡ true
unfolding print_integer
integer_ascii (pos n) = digits_ascii (decimal n) (decimal-all n)
integer_ascii (negsuc n) = digits_ascii (decimal (ℕ.suc n)) (decimal-all (ℕ.suc n))

insert-MembersAscii :
    (k : Text) (j : Json) (ms : Members)
    → all is_ascii k ≡ true
    → IsAscii j
    → MembersAscii ms
    → MembersAscii (insert_member k j ms)
unfolding insert_member
insert-MembersAscii k j no_member hk hj h = (hk, hj, tt)
insert-MembersAscii k j (member i x ms) hk hj h =
    let rest = insert-MembersAscii k j ms hk hj h.2 in
    elim (Bool-cases (text_lt k i)) [
      | inl first ↦ rw first (hk, hj, h)
      | inr later ↦ rw later (h.0, h.1, rest)
    ]

mutual
  unfolding sort_keys

  sort-IsAscii : (j : Json) → IsAscii j → IsAscii (sort_keys j)
  sort-IsAscii null_json h = tt
  sort-IsAscii (boolean b) h = tt
  sort-IsAscii (number n) h = tt
  sort-IsAscii (string s) h = h
  sort-IsAscii (array es) h = sort-ElementsAscii es h
  sort-IsAscii (object ms) h = sort-MembersAscii ms h

  sort-ElementsAscii : (es : Elements) → ElementsAscii es → ElementsAscii (sort_elements es)
  sort-ElementsAscii none_left h = tt
  sort-ElementsAscii (element j es) h = (sort-IsAscii j h.0, sort-ElementsAscii es h.1)

  sort-MembersAscii : (ms : Members) → MembersAscii ms → MembersAscii (sort_members ms)
  sort-MembersAscii no_member h = tt
  sort-MembersAscii (member k j ms) h =
      insert-MembersAscii k (sort_keys j) (sort_members ms) h.0 (sort-IsAscii j h.1)
        (sort-MembersAscii ms h.2)

before_comma :
    (s t : Text)
    → all is_ascii s ≡ true
    → all is_ascii t ≡ true
    → all is_ascii (s ++ b',' ∷ t) ≡ true
before_comma s t h k = all-append is_ascii s (b',' ∷ t) h (ground (arith, k))

entry_ascii :
    (k s : Text)
    → all is_ascii k ≡ true
    → all is_ascii s ≡ true
    → all is_ascii (quoted k ++ b':' ∷ s) ≡ true
entry_ascii k s hk h =
    all-append is_ascii (quoted k) (b':' ∷ s) (quoted_ascii k hk) (ground (arith, h))

mutual
  unfolding print

  print_ascii : (j : Json) → IsAscii j → all is_ascii (print j) ≡ true
  print_ascii null_json h = refl
  print_ascii (boolean true) h = refl
  print_ascii (boolean false) h = refl
  print_ascii (number n) h = integer_ascii n
  print_ascii (string s) h = quoted_ascii s h
  print_ascii (array es) h =
      all-append is_ascii (print_elements es) (b']' ∷ []) (print_elements_ascii es h) refl
  print_ascii (object ms) h =
      all-append is_ascii (print_members ms) (b'}' ∷ []) (print_members_ascii ms h) refl

  print_elements_ascii :
      (es : Elements) → ElementsAscii es → all is_ascii (print_elements es) ≡ true
  print_elements_ascii none_left h = refl
  print_elements_ascii (element j none_left) h = print_ascii j h.0
  print_elements_ascii (element j (element i es)) h =
      before_comma (print j) (print_elements (element i es)) (print_ascii j h.0)
        (print_elements_ascii (element i es) h.1)

  print_members_ascii : (ms : Members) → MembersAscii ms → all is_ascii (print_members ms) ≡ true
  print_members_ascii no_member h = refl
  print_members_ascii (member k j no_member) h = entry_ascii k (print j) h.0 (print_ascii j h.1)
  print_members_ascii (member k j (member i x ms)) h =
      before_comma (quoted k ++ b':' ∷ print j) (print_members (member i x ms))
        (entry_ascii k (print j) h.0 (print_ascii j h.1)) (print_members_ascii (member i x ms) h.2)

-- An ASCII value is printed and encoded.
pub encode-print : (j : Json) → IsAscii j → encode (print (sort_keys j)) ≡ ok (print (sort_keys j))
encode-print j h = encode_ascii (print (sort_keys j)) (print_ascii (sort_keys j) (sort-IsAscii j h))
