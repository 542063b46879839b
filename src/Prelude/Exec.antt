-- ===== src/Prelude/Exec.antt =====
-- Methods that mutate an object and may raise. What was written before a raise stays written, so
-- the state comes back beside the exception too.

use side_effects_lab.Prelude.Result.{Error, Result, ok, err}

pub data Outcome (E A : Type 0) : Type 0 where
  returned : A → Outcome E A
  raised : E → Outcome E A

abbrev pub Exec : Type 0 → Type 0 → Type 0 → Type 0
Exec S E A = S → Outcome E A × S

module _ {S E A : Type 0} where
  abbrev pub pure : A → Exec S E A
  pure a s = (returned a, s)

  abbrev pub raise : E → Exec S E A
  raise e s = (raised e, s)

  abbrev pub gets : (S → A) → Exec S E A
  gets f s = (returned (f s), s)

module _ {S E A B : Type 0} where
  abbrev pub continue : Outcome E A → (A → Exec S E B) → Exec S E B
  continue (returned a) f = f a
  continue (raised e) f = raise e

  infixl 5 ◌>>=◌ ◌>>◌
  abbrev pub ◌>>=◌ : Exec S E A → (A → Exec S E B) → Exec S E B
  ◌>>=◌ m f s = let (r, s') = m s in continue r f s'

  abbrev pub ◌>>◌ : Exec S E A → Exec S E B → Exec S E B
  m >> k = m >>= λ _. k

abbrev pub modify : {S E : Type 0} → (S → S) → Exec S E (Unit {0})
modify f s = (returned tt, f s)

-- A function that may raise, called by a method.
abbrev pub lift : {S : Type 0} {A : Type 0} → Result A → Exec S Error A
lift (ok a) s = (returned a, s)
lift (err e) s = (raised e, s)
