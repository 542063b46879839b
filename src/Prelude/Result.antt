-- ===== src/Prelude/Result.antt =====
-- A function that may raise: its value, or the class of the exception. Messages are left out.
use mathlib.Core.Path.{◌≡◌, refl}
use mathlib.Core.Bool.{Bool, true, false}

-- The exception classes that the source raises or lets through.
pub data Error : Type 0 where
  type_error value_error validation_error overflow_error runtime_error canonical_json_error
        ledger_closed_error managed_event_error event_sequence_error duplicate_operation_error
        operation_not_found_error dispatch_required_error ledger_integrity_error integrity_error
        invalid_transition_error ledger_path_error :
      Error

pub data Result (A : Type 0) : Type 0 where
  err : Error → Result A
  ok : A → Result A

module _ {A B : Type 0} where
  infixl 5 ◌>>=◌ ◌>>◌
  abbrev pub ◌>>=◌ : Result A → (A → Result B) → Result B
  ◌>>=◌ m f = elim m [ err e ↦ err e | ok a ↦ f a ]

  abbrev pub ◌>>◌ : Result A → Result B → Result B
  first >> second = first >>= λ _. second

-- `if not valid: raise e`
abbrev pub require : Bool → Error → Result (Unit {0})
require valid e = elim valid [ false ↦ err e | true ↦ ok tt ]

-- How a call that returned got there.
pub bind_ok :
    {A B : Type 0} (m : Result A) (f : A → Result B) (b : B)
    → (m >>= f) ≡ ok b
    → (a : A) × (m ≡ ok a) × (f a ≡ ok b)
bind_ok (err e) f b h = absurd (cc)
bind_ok (ok a) f b h = (a, refl, h)

pub require_ok : (b : Bool) (e : Error) (u : Unit {0}) → require b e ≡ ok u → b ≡ true
require_ok true e u h = refl
require_ok false e u h = cc

pub require_then :
    {A : Type 0} (b : Bool) (e : Error) (rest : Result A) (a : A)
    → (require b e >> rest) ≡ ok a
    → (b ≡ true) × (rest ≡ ok a)
require_then true e rest a h = (refl, h)
require_then false e rest a h = cc

pub ok_injective : {A : Type 0} (a b : A) → ok a ≡ ok b → a ≡ b
ok_injective a b h = cc
