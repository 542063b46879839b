-- ===== src/Prelude/Lists.antt =====
-- Lists measured by native numbers, predicates on lists by recursion, and membership tests.
use Prim.Native.Nat.{ℕ, suc, ◌+◌}
use Prim.Native.String.{String}
use mathlib.Core.Path.{◌≡◌, sym}
use mathlib.Core.Logic.{◌≢◌}
use mathlib.Core.Bool.{Bool, true, false, ◌||◌, ◌&&◌}
use mathlib.Core.List.{List, [], ◌∷◌, ◌++◌}
use native.Mathlib.Omega.{arith}
use text.Mathlib.Text.{◌==◌}
use text.Mathlib.TextEquality.{eq_iff}

module _ {ℓ} {A : Type ℓ} where
  abbrev pub length : List A → ℕ
  length [] = 0
  length (x ∷ xs) = suc (length xs)

  pub length-append : (xs ys : List A) → length (xs ++ ys) ≡ length xs + length ys
  length-append [] ys = omega arith
  length-append (x ∷ xs) ys = omega (arith, length-append xs ys)

  abbrev pub all : (A → Bool) → List A → Bool
  all p [] = true
  all p (x ∷ xs) = p x && all p xs

-- A predicate by recursion computes to tuples, which the tactics read and build.
abbrev pub All {ℓ κ} : {A : Type ℓ} → (A → Type κ) → List A → Type κ
All P [] = Unit
All P (x ∷ xs) = P x × All P xs

pub All-append {ℓ κ} :
    {A : Type ℓ} (P : A → Type κ) (xs ys : List A) → All P xs → All P ys → All P (xs ++ ys)
All-append P [] ys h k = k
All-append P (x ∷ xs) ys h k = (h.0, All-append P xs ys h.1 k)

-- `x in xs`, for texts.
unfoldable pub str_mem : String → List String → Bool
str_mem x [] = false
str_mem x (y ∷ ys) = x == y || str_mem x ys

module _ {ℓ} {A : Type ℓ} where
  -- Every entry differs from `x`.
  abbrev pub Fresh : A → List A → Type ℓ
  Fresh x ys = All (λ y. y ≢ x) ys

  -- No entry stands twice.
  abbrev pub NoRepeat : List A → Type ℓ
  NoRepeat [] = Unit
  NoRepeat (x ∷ xs) = Fresh x xs × NoRepeat xs

  -- Appending an entry that is not there repeats none.
  pub NoRepeat-snoc : (xs : List A) (x : A) → NoRepeat xs → Fresh x xs → NoRepeat (xs ++ x ∷ [])
  NoRepeat-snoc [] x n f = (tt, tt)
  NoRepeat-snoc (y ∷ ys) x n f =
      (All-append (λ z. z ≢ y) ys (x ∷ []) n.0 ((λ e. f.0 (sym e)), tt), NoRepeat-snoc ys x n.1 f.1)

pub Fresh-str_mem : (x : String) (ys : List String) → str_mem x ys ≡ false → Fresh x ys
unfolding str_mem
Fresh-str_mem x [] h = tt
Fresh-str_mem x (y ∷ ys) h = ground (arith, eq_iff x y, Fresh-str_mem x ys)
