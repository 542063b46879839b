-- ===== src/Text/Decimal.antt =====
-- `str(n)` for a native number: its decimal digits.
use native.Mathlib.Nat.{pow-suc}
use side_effects_lab.Prelude.{
  ℕ, zero, suc, ◌+◌, ◌-◌, ◌*◌, ◌/◌, ◌%◌, ◌^◌, ◌≤◌, ◌<◌, true, [], ◌∷◌, ◌++◌, ◌≡◌, refl, ap, sym,
  ◌∙◌, arith, ltb, length, length-append, all, if◌then◌else◌, ◌≢◌, lt→ltb, Bool-cases, inl, inr,
}
use side_effects_lab.Text.{Text, codes, is_digit, is_lower_alnum, is_token_char, token}
use side_effects_lab.Text.Equality.{all-append}

-- One digit in each round; a number is its own fuel.
digits : ℕ → ℕ → Text
digits zero n = []
digits (suc f) n =
    let rest = digits f (n / 10) in if ltb n 10 then (48 + n) ∷ [] else rest ++ (48 + n % 10) ∷ []

unfoldable pub decimal : ℕ → Text
unfolding digits
decimal n = digits (suc n) n

value_from : ℕ → Text → ℕ
value_from acc [] = acc
value_from acc (c ∷ s) = value_from (acc * 10 + (c - 48)) s

value_from-snoc :
    (acc : ℕ) (s : Text) (c : ℕ) → value_from acc (s ++ c ∷ []) ≡ value_from acc s * 10 + (c - 48)
unfolding value_from
value_from-snoc acc [] c = refl
value_from-snoc acc (d ∷ s) c = value_from-snoc (acc * 10 + (d - 48)) s c

value_from-digits : (f n : ℕ) → n < f → value_from 0 (digits f n) ≡ n
unfolding digits value_from
value_from-digits zero n h = absurd (omega arith)
value_from-digits (suc f) n h = elim (Bool-cases (ltb n 10)) [
  | inl small ↦ rw small (omega arith)
  | inr large ↦
      rw
        (
          large,
          value_from-snoc 0 (digits f (n / 10)) (48 + n % 10),
          value_from-digits f (n / 10) (ground arith),
        )
        (omega arith)
]

-- Different numbers have different digits.
pub decimal-injective : (m n : ℕ) → decimal m ≡ decimal n → m ≡ n
unfolding decimal
decimal-injective m n e =
    sym (value_from-digits (suc m) m (omega arith))
    ∙ ap (value_from 0) e
    ∙ value_from-digits (suc n) n (omega arith)

digits-all : (f n : ℕ) → all is_digit (digits f n) ≡ true
unfolding digits
digits-all zero n = refl
digits-all (suc f) n = elim (Bool-cases (ltb n 10)) [
  | inl small ↦ rw small (ground arith)
  | inr large ↦
      rw large (all-append is_digit (digits f (n / 10)) _ (digits-all f (n / 10)) (ground arith))
]

pub decimal-all : (n : ℕ) → all is_digit (decimal n) ≡ true
unfolding decimal
decimal-all n = digits-all (suc n) n

-- A number below 10 ^ (k + 1) has at most k + 1 digits, whatever the fuel.
digits-length : (f k n : ℕ) → n < 10 ^ suc k → length (digits f n) ≤ suc k
unfolding digits
digits-length zero k n h = omega arith
digits-length (suc f) zero n h = rw (lt→ltb n 10 (omega arith)) (omega arith)
digits-length (suc f) (suc k) n h = elim (Bool-cases (ltb n 10)) [
  | inl small ↦ rw small (omega arith)
  | inr large ↦
      rw (large, length-append (digits f (n / 10)) _)
        (omega (arith, digits-length f k (n / 10) (omega (arith, pow-suc 10 (suc k)))))
]

pub decimal-length : (k n : ℕ) → n < 10 ^ suc k → length (decimal n) ≤ suc k
unfolding decimal
decimal-length k n = digits-length (suc n) k n

snoc-ne-nil : (s : Text) (c : ℕ) → s ++ c ∷ [] ≢ []
snoc-ne-nil [] c e = cc
snoc-ne-nil (d ∷ s) c e = cc

digits-ne-nil : (f n : ℕ) → digits (suc f) n ≢ []
unfolding digits
digits-ne-nil f n e = elim (Bool-cases (ltb n 10)) [
  | inl small ↦ absurd (cc (rw small at e))
  | inr large ↦ snoc-ne-nil _ _ (rw large at e)
]

all_digits-all_token : (s : Text) → all is_digit s ≡ true → all is_token_char s ≡ true
all_digits-all_token [] h = refl
all_digits-all_token (c ∷ s) h = ground (arith, all_digits-all_token s)

digits-token :
    (s : Text) → s ≢ [] → all is_digit s ≡ true → token is_lower_alnum is_token_char s ≡ true
unfolding token
digits-token [] n h = absurd (n refl)
digits-token (c ∷ s) n h = ground (arith, all_digits-all_token s)

-- A decimal number is a token, as the identifiers have it after their prefix.
pub decimal-token : (n : ℕ) → token is_lower_alnum is_token_char (decimal n) ≡ true
unfolding decimal
decimal-token n = digits-token (digits (suc n) n) (digits-ne-nil n n) (digits-all (suc n) n)

pub decimal-token_chars : (n : ℕ) → all is_token_char (decimal n) ≡ true
decimal-token_chars n = all_digits-all_token (decimal n) (decimal-all n)

decimal-example : decimal 18446744073709551615 ≡ codes "18446744073709551615"
unfolding decimal
decimal-example = refl
