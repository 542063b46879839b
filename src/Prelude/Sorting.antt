-- ===== src/Prelude/Sorting.antt =====
-- `ORDER BY`: insertion sort by a Boolean order.
use mathlib.Core.Path.{◌≡◌, refl, subst}
use mathlib.Core.Bool.{Bool, false}
use mathlib.Core.List.{List, [], ◌∷◌, ◌++◌}
use native.Mathlib.Omega.{arith}
use mathlib.Core.Logic.{inl, inr}
use side_effects_lab.Prelude.Tests.{Bool-cases, if◌then◌else◌}
use side_effects_lab.Prelude.Lists.{All}

module _ {ℓ} {A : Type ℓ} (before : A → A → Bool) where
  unfoldable pub insert_by : A → List A → List A
  insert_by x [] = x ∷ []
  insert_by x (y ∷ ys) = let rest = insert_by x ys in if before x y then x ∷ y ∷ ys else y ∷ rest

  unfoldable pub order_by : List A → List A
  unfolding insert_by
  order_by [] = []
  order_by (x ∷ xs) = insert_by x (order_by xs)

  insert_by-last :
      (x : A) (ys : List A) → All (λ y. before x y ≡ false) ys → insert_by x ys ≡ ys ++ x ∷ []
  unfolding insert_by
  insert_by-last x [] h = refl
  insert_by-last x (y ∷ ys) h = let rest = insert_by-last x ys h.1 in ground (arith, h.0)

  -- What comes before nothing is sorted to the end.
  pub order_by-last :
      (x : A) (xs : List A)
      → All (λ y. before x y ≡ false) (order_by xs)
      → order_by (x ∷ xs) ≡ order_by xs ++ x ∷ []
  unfolding order_by
  order_by-last x xs h = insert_by-last x (order_by xs) h

  insert_by-All : (P : A → Type 0) (x : A) (ys : List A) → P x → All P ys → All P (insert_by x ys)
  unfolding insert_by
  insert_by-All P x [] h k = (h, tt)
  insert_by-All P x (y ∷ ys) h k =
      let rest = insert_by-All P x ys h k.1 in
      elim (Bool-cases (before x y)) [
        | inl first ↦ rw first (h, k)
        | inr later ↦ rw later (k.0, rest)
      ]

  -- Sorting keeps what holds of every entry.
  pub order_by-All : (P : A → Type 0) (xs : List A) → All P xs → All P (order_by xs)
  unfolding order_by
  order_by-All P [] h = tt
  order_by-All P (x ∷ xs) h = insert_by-All P x (order_by xs) h.0 (order_by-All P xs h.1)

  insert_by-All_back :
      (P : A → Type 0) (x : A) (ys : List A) → All P (insert_by x ys) → P x × All P ys
  unfolding insert_by
  insert_by-All_back P x [] h = h
  insert_by-All_back P x (y ∷ ys) h = elim (Bool-cases (before x y)) [
    | inl first ↦
        let k : All P (x ∷ y ∷ ys) =
          subst (λ b. All P (if b then x ∷ y ∷ ys else y ∷ insert_by x ys)) first h in
        k
    | inr later ↦
        let k : All P (y ∷ insert_by x ys) =
          subst (λ b. All P (if b then x ∷ y ∷ ys else y ∷ insert_by x ys)) later h in
        let rest = insert_by-All_back P x ys k.1 in (rest.0, (k.0, rest.1))
  ]

  -- What holds of every entry of the sorted list holds of every entry.
  pub order_by-All_back : (P : A → Type 0) (xs : List A) → All P (order_by xs) → All P xs
  unfolding order_by
  order_by-All_back P [] h = tt
  order_by-All_back P (x ∷ xs) h =
      let (own, rest) = insert_by-All_back P x (order_by xs) h in (own, order_by-All_back P xs rest)
