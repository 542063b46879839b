-- ===== src/Text.antt =====
-- Python texts as lists of code points, and the character classes and shapes of the regular
-- expressions in src/side_effects_lab/models.py, clock.py and state_machine.py. A shape is matched
-- against the whole text, as `re.fullmatch` and a pattern between `^` and `$` do.
pub mod Decimal
pub mod Equality
use Prim.Native.Char.{code}
use side_effects_lab.Prelude.{
  ℕ, String, Bool, false, ◌&&◌, ◌||◌, Option, none, some, List, [], ◌∷◌, leb, ◌==◌, all, length,
  if◌then◌else◌,
}

abbrev pub Text : Type 0
Text = List ℕ

abbrev pub codes : String → Text
codes String.[] = []
codes (String.◌∷◌ c s) = code c ∷ codes s

-- [a-z]
abbrev pub is_lower : ℕ → Bool
is_lower c = leb b'a' c && leb c b'z'

-- [0-9]
abbrev pub is_digit : ℕ → Bool
is_digit c = leb b'0' c && leb c b'9'

-- [a-z0-9]
abbrev pub is_lower_alnum : ℕ → Bool
is_lower_alnum c = is_lower c || is_digit c

-- [a-z0-9-]
abbrev pub is_token_char : ℕ → Bool
is_token_char c = is_lower_alnum c || c == b'-'

-- [a-z0-9_]
abbrev pub is_name_char : ℕ → Bool
is_name_char c = is_lower_alnum c || c == b'_'

-- [0-9a-f]
abbrev pub is_hex : ℕ → Bool
is_hex c = is_digit c || (leb b'a' c && leb c b'f')

-- One character of the first class, then any number of the second.
unfoldable pub token : (ℕ → Bool) → (ℕ → Bool) → Text → Bool
token first rest [] = false
token first rest (c ∷ s) = first c && all rest s

-- What follows a prefix.
unfoldable pub after : Text → Text → Option Text
after [] s = some s
after (p ∷ ps) [] = none
after (p ∷ ps) (c ∷ s) = if p == c then after ps s else none

unfoldable pub token_after : Text → (ℕ → Bool) → (ℕ → Bool) → Text → Bool
unfolding token after
token_after prefix first rest s = elim (after prefix s) [
  | none ↦ false
  | some r ↦ token first rest r
]

-- `max_length` counts code points.
unfoldable pub within : ℕ → Text → Bool
within bound s = leb (length s) bound
