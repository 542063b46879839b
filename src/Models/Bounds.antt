-- ===== src/Models/Bounds.antt =====
-- The constrained integers and the optional fields of src/side_effects_lab/models.py.
use side_effects_lab.Prelude.{ℕ, String, Bool, true, false, Option, none, some}
use side_effects_lab.Prelude.Int.{ℤ, pos, negsuc}
use side_effects_lab.Text.{Text, codes}

-- `NonNegativeInt`
abbrev pub is_non_negative : ℤ → Bool
is_non_negative (pos n) = true
is_non_negative (negsuc n) = false

-- `PositiveInt`
abbrev pub is_positive : ℤ → Bool
is_positive (pos ℕ.zero) = false
is_positive (pos (ℕ.suc n)) = true
is_positive (negsuc n) = false

-- `T | None`
abbrev pub is_optional : (Text → Bool) → Option String → Bool
is_optional valid none = true
is_optional valid (some s) = valid (codes s)
