-- ===== src/Clock/RunId.antt =====
-- `make_run_id` of src/side_effects_lab/clock.py. The hash is a parameter, as for the canonical digest.
use Prim.Native.String.{String, ◌++◌ as append}
use Prim.Native.Char.{code}
use text.Mathlib.TextLemmas.{nil-append, cons-append}
use mathlib.Core.List.{append_assoc}
use side_effects_lab.Prelude.{
  ℕ, Bool, true, ◌&&◌, ◌||◌, none, some, [], ◌∷◌, ◌++◌, ◌≡◌, refl, ap, ◌∙◌, arith, all, length, leb,
  ltb, and_parts, Option-cases, inl, inr,
}
use side_effects_lab.Prelude.Int.{pos}
use side_effects_lab.Prelude.Result.{Result, ok, require, validation_error, ◌>>=◌, ◌>>◌}
use side_effects_lab.Text.{
  Text, codes, after, is_hex, is_digit, is_token_char, is_lower_alnum, token, within,
}
use side_effects_lab.Text.Equality.{all-append}
use side_effects_lab.Text.Decimal.{decimal, decimal-token_chars}
use side_effects_lab.Models.Identifiers.{is_scenario_id, is_subject_id, is_run_id, is_digest}
use side_effects_lab.Models.Schemes.{after_split, token-all}
use side_effects_lab.Models.Values.{Value, int, str, dict, field, end}
use side_effects_lab.Canonical.Json.{
  canonical_json_bytes, canonical_digest, normalize, sort_keys, insert_member, text_lt, print,
  print_integer, quoted, escape, escaped, encode,
}
use side_effects_lab.Canonical.Ascii.{is_ascii, encode_ascii}
use side_effects_lab.Clock.Time.{Argument, int as integer, strict_non_negative_int}
use side_effects_lab.Clock.Allocator.{validated, new_allocator}

-- The dict that is digested.
abbrev run_value : String → ℕ → String → Value
run_value scenario seed subject = dict (
    field (codes "scenario_id") (str (codes scenario)) (
      field (codes "seed") (int (pos seed)) (field (codes "subject_id") (str (codes subject)) end)))

-- `str.removeprefix`
unfoldable pub removeprefix : Text → Text → Text
removeprefix prefix s = elim (after prefix s) [ none ↦ s | some r ↦ r ]

unfoldable pub make_run_id : (Text → String) → String → Argument → String → Result Text
unfolding strict_non_negative_int removeprefix validated
make_run_id hexdigest scenario seed subject = do
  require (is_scenario_id (codes scenario)) validation_error
  n ← strict_non_negative_int seed
  require (is_subject_id (codes subject)) validation_error
  digest ← canonical_digest hexdigest (run_value scenario n subject)
  validated is_run_id (codes "run-" ++ removeprefix (codes "sha256:") (codes digest))

-- A character that JSON writes as it is and UTF-8 as one byte.
abbrev pub is_plain : ℕ → Bool
is_plain c = (leb 0x23 c && ltb c 0x5c) || (leb 0x5d c && ltb c 0x80)

plain-ascii : (s : Text) → all is_plain s ≡ true → all is_ascii s ≡ true
plain-ascii [] h = refl
plain-ascii (c ∷ s) h = ground (arith, plain-ascii s)

escaped_plain : (s : Text) → all is_plain s ≡ true → escaped s ≡ s
unfolding escaped escape
escaped_plain [] h = refl
escaped_plain (c ∷ s) h = ground (arith, escaped_plain s)

token_plain : (s : Text) → all is_token_char s ≡ true → all is_plain s ≡ true
token_plain [] h = refl
token_plain (c ∷ s) h = ground (arith, token_plain s)

digit_plain : (s : Text) → all is_digit s ≡ true → all is_plain s ≡ true
digit_plain [] h = refl
digit_plain (c ∷ s) h = ground (arith, digit_plain s)

codes-append : (s t : String) → codes (append s t) ≡ codes s ++ codes t
codes-append String.[] t = ap codes (nil-append t)
codes-append (String.◌∷◌ c s) t =
    ap codes (cons-append c s t) ∙ ap (◌∷◌ (code c)) (codes-append s t)

pub scenario_plain : (s : Text) → is_scenario_id s ≡ true → all is_plain s ≡ true
unfolding is_scenario_id
scenario_plain s h = elim (Option-cases (after (codes "SEL-") s)) [
  | inl e ↦ ground arith
  | inr (r, e) ↦ rw (after_split (codes "SEL-") s r e) (digit_plain r (ground arith))
]

pub subject_plain : (s : Text) → is_subject_id s ≡ true → all is_plain s ≡ true
unfolding is_subject_id
subject_plain s h = token_plain s (token-all s (and_parts (within 128 s) _ h).1)

-- The text that is digested.
abbrev pub run_text : Text → ℕ → Text → Text
run_text scenario seed subject =
    codes "{\"scenario_id\":\""
    ++ (scenario
        ++ (codes "\",\"seed\":"
            ++ (decimal seed ++ (codes ",\"subject_id\":\"" ++ (subject ++ codes "\"}")))))

run_text-ascii :
    (scenario : Text) (seed : ℕ) (subject : Text)
    → all is_plain scenario ≡ true
    → all is_plain subject ≡ true
    → all is_ascii (run_text scenario seed subject) ≡ true
run_text-ascii scenario seed subject h k = all-append is_ascii scenario _ (plain-ascii scenario h) (
    all-append is_ascii (decimal seed) _
      (plain-ascii (decimal seed) (token_plain (decimal seed) (decimal-token_chars seed)))
      (all-append is_ascii subject _ (plain-ascii subject k) refl))

run_bytes :
    (scenario : String) (seed : ℕ) (subject : String)
    → is_scenario_id (codes scenario) ≡ true
    → is_subject_id (codes subject) ≡ true
    → canonical_json_bytes (run_value scenario seed subject)
      ≡ ok (run_text (codes scenario) seed (codes subject))
unfolding canonical_json_bytes normalize sort_keys insert_member text_lt print print_integer quoted
    escape escaped
run_bytes scenario seed subject h k =
    ap encode (
      simp (
        escaped_plain (codes scenario) (scenario_plain (codes scenario) h),
        escaped_plain (codes subject) (subject_plain (codes subject) k),
        append_assoc,
      ))
    ∙ encode_ascii (run_text (codes scenario) seed (codes subject)) (
        run_text-ascii (codes scenario) seed (codes subject) (scenario_plain (codes scenario) h)
          (subject_plain (codes subject) k))

-- What `hexdigest` returns: 64 lower-case hexadecimal digits.
abbrev pub IsHexdigest : (Text → String) → Type 0
IsHexdigest hexdigest =
    (bytes : Text)
    → (length (codes (hexdigest bytes)) ≡ 64) × (all is_hex (codes (hexdigest bytes)) ≡ true)

hex_chars : (s : Text) → all is_hex s ≡ true → all is_token_char s ≡ true
hex_chars [] h = refl
hex_chars (c ∷ s) h = ground (arith, hex_chars s)

hex-token :
    (s : Text) → length s ≡ 64 → all is_hex s ≡ true → token is_lower_alnum is_token_char s ≡ true
unfolding token
hex-token [] n h = ground arith
hex-token (c ∷ s) n h = ground (arith, hex_chars s)

hex-is_digest :
    (s : Text) → length s ≡ 64 → all is_hex s ≡ true → is_digest (codes "sha256:" ++ s) ≡ true
unfolding is_digest
hex-is_digest s n h = rw (n, h) refl

hex-is_run_id :
    (s : Text) → length s ≡ 64 → all is_hex s ≡ true → is_run_id (codes "run-" ++ s) ≡ true
unfolding is_run_id
hex-is_run_id s n h = rw (n, hex-token s n h) refl

run_digest :
    (hexdigest : Text → String) (scenario : String) (seed : ℕ) (subject : String)
    → IsHexdigest hexdigest
    → is_scenario_id (codes scenario) ≡ true
    → is_subject_id (codes subject) ≡ true
    → canonical_digest hexdigest (run_value scenario seed subject)
      ≡ ok (append "sha256:" (hexdigest (run_text (codes scenario) seed (codes subject))))
unfolding canonical_digest
run_digest hexdigest scenario seed subject hex h k =
    let (n, digits) = hex (run_text (codes scenario) seed (codes subject)) in
    rw
      (
        run_bytes scenario seed subject h k,
        codes-append "sha256:" (hexdigest (run_text (codes scenario) seed (codes subject))),
        hex-is_digest (codes (hexdigest (run_text (codes scenario) seed (codes subject)))) n digits,
      )
      refl

removed_prefix :
    (digits : String)
    → removeprefix (codes "sha256:") (codes (append "sha256:" digits)) ≡ codes digits
unfolding removeprefix after
removed_prefix digits = rw (codes-append "sha256:" digits) refl

-- A valid scenario and subject and a seed that is not negative always have a run identifier: "run-"
-- and the digits of the digest of one fixed JSON text of the three, whatever the hash. The
-- allocator of identifiers accepts it.
pub make_run_id_total :
    (hexdigest : Text → String) (scenario : String) (seed : ℕ) (subject : String)
    → IsHexdigest hexdigest
    → is_scenario_id (codes scenario) ≡ true
    → is_subject_id (codes subject) ≡ true
    → (let run_id =
          codes "run-" ++ codes (hexdigest (run_text (codes scenario) seed (codes subject))) in
        (make_run_id hexdigest scenario (integer (pos seed)) subject ≡ ok run_id)
        × (new_allocator run_id
            ≡ ok (record { run_id = run_id; attempt_counter = 0; effect_counters = [] })))
unfolding make_run_id canonical_digest new_allocator
make_run_id_total hexdigest scenario seed subject hex h k =
    let (n, digits) = hex (run_text (codes scenario) seed (codes subject)) in
    (
      rw
          (
            h,
            k,
            run_digest hexdigest scenario seed subject hex h k,
            removed_prefix (hexdigest (run_text (codes scenario) seed (codes subject))),
            hex-is_run_id (codes (hexdigest (run_text (codes scenario) seed (codes subject)))) n
                digits,
          )
          refl,
      rw
          (hex-is_run_id (codes (hexdigest (run_text (codes scenario) seed (codes subject)))) n
            digits)
          refl,
    )
