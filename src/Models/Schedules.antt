-- ===== src/Models/Schedules.antt =====
-- The schedules of visibility that src/side_effects_lab/models.py accepts.
use side_effects_lab.Prelude.{
  true, false, List, [], ◌∷◌, ◌≡◌, ◌↔◌, refl, sym, ap, ◌∙◌, arith, Bool-cases, inl, inr,
}
use side_effects_lab.Prelude.Int.{ℤ, eq_ℤ, eq_ℤ_iff, ltb_ℤ}
use side_effects_lab.Models.Faults.{insert_tick, sorted_set, same_ticks, increasing_ticks}

-- Each integer is less than the next.
pub data Increasing : List ℤ → Type 0 where
  none_left : Increasing []
  one_left : {x : ℤ} → Increasing (x ∷ [])
  step : {x y : ℤ} {ys : List ℤ} → ltb_ℤ x y ≡ true → Increasing (y ∷ ys) → Increasing (x ∷ y ∷ ys)

ltb_ℤ-total : (x y : ℤ) → ltb_ℤ x y ≡ false → eq_ℤ x y ≡ false → ltb_ℤ y x ≡ true
ltb_ℤ-total x y h k = ground arith

same_ticks_iff : (xs ys : List ℤ) → (same_ticks xs ys ≡ true) ↔ (xs ≡ ys)
unfolding same_ticks
same_ticks_iff [] [] = ground arith
same_ticks_iff [] (y ∷ ys) = ((λ h. cc), (λ e. cc))
same_ticks_iff (x ∷ xs) [] = ((λ h. cc), (λ e. cc))
same_ticks_iff (x ∷ xs) (y ∷ ys) = ground (arith, eq_ℤ_iff x y, same_ticks_iff xs ys)

insert_above :
    (x y : ℤ) (ys : List ℤ)
    → ltb_ℤ y x ≡ true
    → Increasing (y ∷ ys)
    → Increasing (y ∷ insert_tick x ys)
unfolding insert_tick
insert_above x y [] h k = step h one_left
insert_above x y (z ∷ zs) h (step lower rest) = elim (Bool-cases (ltb_ℤ x z)) [
  | inl less ↦ rw less (step h (step less rest))
  | inr more ↦ elim (Bool-cases (eq_ℤ x z)) [
    | inl equal ↦ rw (more, equal) (step lower rest)
    | inr differ ↦
        rw (more, differ) (step lower (insert_above x z zs (ltb_ℤ-total x z more differ) rest))
  ]
]

insert-Increasing : (x : ℤ) (ys : List ℤ) → Increasing ys → Increasing (insert_tick x ys)
unfolding insert_tick
insert-Increasing x [] k = one_left
insert-Increasing x (y ∷ ys) k = elim (Bool-cases (ltb_ℤ x y)) [
  | inl less ↦ rw less (step less k)
  | inr more ↦ elim (Bool-cases (eq_ℤ x y)) [
    | inl equal ↦ rw (more, equal) k
    | inr differ ↦ rw (more, differ) (insert_above x y ys (ltb_ℤ-total x y more differ) k)
  ]
]

sorted_set-Increasing : (xs : List ℤ) → Increasing (sorted_set xs)
unfolding sorted_set
sorted_set-Increasing [] = none_left
sorted_set-Increasing (x ∷ xs) = insert-Increasing x (sorted_set xs) (sorted_set-Increasing xs)

insert_below : (x y : ℤ) (ys : List ℤ) → ltb_ℤ x y ≡ true → insert_tick x (y ∷ ys) ≡ x ∷ y ∷ ys
unfolding insert_tick
insert_below x y ys h = ground arith

sorted_set_same : (xs : List ℤ) → Increasing xs → sorted_set xs ≡ xs
unfolding sorted_set insert_tick
sorted_set_same [] k = refl
sorted_set_same (x ∷ []) k = refl
sorted_set_same (x ∷ y ∷ ys) (step h k) =
    ap (insert_tick x) (sorted_set_same (y ∷ ys) k) ∙ insert_below x y ys h

-- A schedule's ticks are accepted exactly when each is less than the next: the comparison with the
-- sorted set of the ticks finds repetitions as well as disorder.
pub increasing_ticks-Increasing :
    (ticks : List ℤ) → (increasing_ticks ticks ≡ true) ↔ Increasing ticks
unfolding increasing_ticks
increasing_ticks-Increasing ticks = (
  (λ h. rw ((same_ticks_iff ticks (sorted_set ticks)).0 h) (sorted_set-Increasing ticks)),
  λ k. (same_ticks_iff ticks (sorted_set ticks)).1 (sym (sorted_set_same ticks k)),
)
