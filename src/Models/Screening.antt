-- ===== src/Models/Screening.antt =====
-- What a parameter map of src/side_effects_lab/models.py may hold, as relations: the texts that the
-- screen for URLs refuses, and the values with their frozen copies.
use side_effects_lab.Prelude.{
  ℕ, true, false, not, ◌==◌, ap, [], ◌∷◌, ◌++◌, ◌≡◌, ◌↔◌, refl, ◌∙◌, arith, all, length, and_parts,
  inl, inr, Bool-cases, Option-cases,
}
use side_effects_lab.Text.{Text, codes, is_hex, after}
use side_effects_lab.Models.Identifiers.{is_digest}
use side_effects_lab.Models.Schemes.{after_split}
use side_effects_lab.Models.Values.{
  is_letter, is_scheme_char, scheme_rest, has_url_scheme, is_space, lstrip, is_url_value,
}

-- "sha256:" and 64 hexadecimal digits.
pub record DigestText (s : Text) : Type 0 where
  pub digits : Text
  pub all_hex : all is_hex digits ≡ true
  pub count : length digits ≡ 64
  pub whole : s ≡ codes "sha256:" ++ digits

-- Spaces, a letter, characters of a scheme, and a colon.
pub record SchemeText (s : Text) : Type 0 where
  pub spaces : Text
  pub first : ℕ
  pub scheme : Text
  pub rest : Text
  pub blank : all is_space spaces ≡ true
  pub letter : is_letter first ≡ true
  pub chars : all is_scheme_char scheme ≡ true
  pub whole : s ≡ spaces ++ (first ∷ (scheme ++ (b':' ∷ rest)))

scheme_rest_split :
    (s : Text)
    → scheme_rest s ≡ true
    → (p : Text) × (r : Text) × (all is_scheme_char p ≡ true) × (s ≡ p ++ b':' ∷ r)
unfolding scheme_rest
scheme_rest_split [] h = cc
scheme_rest_split (c ∷ s) h = elim (Bool-cases (c == b':')) [
  | inl colon ↦ ([], s, refl, ap (λ x. x ∷ s) (ground arith))
  | inr other ↦
      let (char, more) = and_parts (is_scheme_char c) (scheme_rest s) (ground arith) in
      let (p, r, chars, whole) = scheme_rest_split s more in
      (c ∷ p, r, rw char chars, ap (λ x. c ∷ x) whole)
]

scheme_rest_holds : (p r : Text) → all is_scheme_char p ≡ true → scheme_rest (p ++ b':' ∷ r) ≡ true
unfolding scheme_rest
scheme_rest_holds [] r h = refl
scheme_rest_holds (c ∷ p) r h = ground (arith, scheme_rest_holds p r)

lstrip_split : (s : Text) → (p : Text) × (all is_space p ≡ true) × (s ≡ p ++ lstrip s)
unfolding lstrip
lstrip_split [] = ([], refl, refl)
lstrip_split (c ∷ s) = elim (Bool-cases (is_space c)) [
  | inl blank ↦
      let (p, all_blank, whole) = lstrip_split s in
      (c ∷ p, rw blank all_blank, rw blank (ap (λ x. c ∷ x) whole))
  | inr solid ↦ ([], refl, rw solid refl)
]

letter_no_space : (c : ℕ) → is_letter c ≡ true → is_space c ≡ false
letter_no_space c h = ground arith

lstrip_spaces :
    (p : Text) (c : ℕ) (t : Text)
    → all is_space p ≡ true
    → is_letter c ≡ true
    → lstrip (p ++ c ∷ t) ≡ c ∷ t
unfolding lstrip
lstrip_spaces [] c t h k = rw (letter_no_space c k) refl
lstrip_spaces (d ∷ p) c t h k =
    let (blank, more) = and_parts (is_space d) (all is_space p) h in
    rw blank (lstrip_spaces p c t more k)

is_digest-DigestText : (s : Text) → is_digest s ≡ true → DigestText s
unfolding is_digest
is_digest-DigestText s h = elim (Option-cases (after (codes "sha256:") s)) [
  | inl e ↦ ground arith
  | inr (r, e) ↦
      let (count, hex) = and_parts (length r == 64) (all is_hex r) (ground arith) in
      record {
        digits = r;
        all_hex = hex;
        count = ground arith;
        whole = after_split (codes "sha256:") s r e;
      }
]

DigestText-is_digest : {s : Text} → DigestText s → is_digest s ≡ true
unfolding is_digest after
DigestText-is_digest d = rw d.whole (ground (arith, d.count, d.all_hex))

has_url_scheme_split :
    (s : Text)
    → has_url_scheme s ≡ true
    → (c : ℕ) × (p : Text) × (r : Text) × (is_letter c ≡ true)
      × (all is_scheme_char p ≡ true)
      × (s ≡ c ∷ (p ++ (b':' ∷ r)))
unfolding has_url_scheme
has_url_scheme_split [] h = cc
has_url_scheme_split (c ∷ s) h =
    let (letter, more) = and_parts (is_letter c) (scheme_rest s) h in
    let (p, r, chars, whole) = scheme_rest_split s more in
    (c, p, r, letter, chars, ap (λ x. c ∷ x) whole)

SchemeText-has_url_scheme : {s : Text} → SchemeText s → has_url_scheme (lstrip s) ≡ true
unfolding has_url_scheme
SchemeText-has_url_scheme t = rw t.whole (
    rw (lstrip_spaces t.spaces t.first (t.scheme ++ (b':' ∷ t.rest)) t.blank t.letter)
      (rw t.letter (scheme_rest_holds t.scheme t.rest t.chars)))

-- The screen finds a text that begins with a scheme, after spaces, where it is no digest.
pub is_url_value_iff : (s : Text) → (is_url_value s ≡ true) ↔ ((¬ DigestText s) × SchemeText s)
unfolding is_url_value
is_url_value_iff s = (
  λ h.
      (let (other, scheme) = and_parts (not (is_digest s)) (has_url_scheme (lstrip s)) h in
        let (p, blank, whole) = lstrip_split s in
        let (c, q, r, letter, chars, rest) = has_url_scheme_split (lstrip s) scheme in
        (
          λ d. ground (arith, DigestText-is_digest d),
          record {
            spaces = p;
            first = c;
            scheme = q;
            rest = r;
            blank = blank;
            letter = letter;
            chars = chars;
            whole = whole ∙ ap (λ x. p ++ x) rest;
          },
        )),
  λ (other, t). elim (Bool-cases (is_digest s)) [
    | inl digest ↦ absurd (other (is_digest-DigestText s digest))
    | inr none_such ↦ rw none_such (SchemeText-has_url_scheme t)
  ],
)
