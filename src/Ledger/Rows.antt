-- ===== src/Ledger/Rows.antt =====
-- The rows that a statement of src/side_effects_lab/ledger.py selects, before and after a row is added.
use mathlib.Core.Path.{ap}
use side_effects_lab.Prelude.{
  ℕ, ◌+◌, String, true, false, some, List, [], ◌∷◌, ◌++◌, ◌≡◌, ◌≢◌, refl, ◌∙◌, length, All, str_eq,
  eq_iff, arith, Bool-cases, inl, inr,
}
use side_effects_lab.Prelude.Int.{ℤ, pos}
use side_effects_lab.Prelude.Sorting.{order_by, order_by-last}
use side_effects_lab.Ledger.Tables.{
  OperationRow, TransitionRow, AttemptRow, find_operation, where_action, transition_before,
  attempt_before, transitions_of, attempts_of, next_ordinal,
}
use side_effects_lab.Ledger.Persisting.{updated}

str_eq_refl : (a : String) → str_eq a a ≡ true
str_eq_refl a = (eq_iff a a).1 refl

str_eq_ne : (a b : String) → a ≢ b → str_eq a b ≡ false
str_eq_ne a b h = ground (arith, eq_iff a b)

where_action-other :
    {R : Type 0} (column : R → String) (b : String) (r : R) (rs : List R)
    → column r ≢ b
    → where_action column b (r ∷ rs) ≡ where_action column b rs
unfolding where_action
where_action-other column b r rs h = rw (str_eq_ne (column r) b h)

where_action-own :
    {R : Type 0} (column : R → String) (r : R) (rs : List R)
    → where_action column (column r) (r ∷ rs) ≡ r ∷ where_action column (column r) rs
unfolding where_action
where_action-own column r rs = rw (str_eq_refl (column r))

-- A row of another operation is not selected.
pub transitions_of-other :
    (b : String) (r : TransitionRow) (rs : List TransitionRow)
    → r.action_id ≢ b
    → transitions_of b (r ∷ rs) ≡ transitions_of b rs
unfolding transitions_of
transitions_of-other b r rs h =
    ap (order_by transition_before) (where_action-other (λ x. x.action_id) b r rs h)

pub attempts_of-other :
    (b : String) (r : AttemptRow) (rs : List AttemptRow)
    → r.action_id ≢ b
    → attempts_of b (r ∷ rs) ≡ attempts_of b rs
unfolding attempts_of
attempts_of-other b r rs h =
    ap (order_by attempt_before) (where_action-other (λ x. x.action_id) b r rs h)

-- The rows are numbered from `k` without a gap.
abbrev pub Numbered : {R : Type 0} → (R → ℤ) → ℕ → List R → Type 0
Numbered ordinal k [] = Unit
Numbered ordinal k (r ∷ rs) = (ordinal r ≡ pos k) × Numbered ordinal (k + 1) rs

before_next :
    (r : TransitionRow) (k : ℕ) (rs : List TransitionRow)
    → Numbered (λ x. x.ordinal) k rs
    → r.ordinal ≡ pos (k + length rs)
    → All (λ y. transition_before r y ≡ false) rs
before_next r k [] n h = tt
before_next r k (y ∷ ys) n h =
    (ground (arith, n.0, h), before_next r (k + 1) ys n.1 (h ∙ ap pos (omega arith)))

attempt_before_next :
    (r : AttemptRow) (k : ℕ) (rs : List AttemptRow)
    → Numbered (λ x. x.ordinal) k rs
    → r.ordinal ≡ pos (k + length rs)
    → All (λ y. attempt_before r y ≡ false) rs
attempt_before_next r k [] n h = tt
attempt_before_next r k (y ∷ ys) n h =
    (ground (arith, n.0, h), attempt_before_next r (k + 1) ys n.1 (h ∙ ap pos (omega arith)))

-- A row with the next ordinal comes last.
pub transitions_of-next :
    (r : TransitionRow) (rs : List TransitionRow)
    → Numbered (λ x. x.ordinal) 1 (transitions_of r.action_id rs)
    → r.ordinal ≡ pos (1 + length (transitions_of r.action_id rs))
    → transitions_of r.action_id (r ∷ rs) ≡ transitions_of r.action_id rs ++ r ∷ []
unfolding transitions_of
transitions_of-next r rs n h =
    ap (order_by transition_before) (where_action-own (λ x. x.action_id) r rs)
    ∙ order_by-last transition_before r (where_action (λ x. x.action_id) r.action_id rs)
        (before_next r 1 _ n h)

pub attempts_of-next :
    (r : AttemptRow) (rs : List AttemptRow)
    → Numbered (λ x. x.ordinal) 1 (attempts_of r.action_id rs)
    → r.ordinal ≡ pos (1 + length (attempts_of r.action_id rs))
    → attempts_of r.action_id (r ∷ rs) ≡ attempts_of r.action_id rs ++ r ∷ []
unfolding attempts_of
attempts_of-next r rs n h =
    ap (order_by attempt_before) (where_action-own (λ x. x.action_id) r rs)
    ∙ order_by-last attempt_before r (where_action (λ x. x.action_id) r.action_id rs)
        (attempt_before_next r 1 _ n h)

next-Numbered :
    (k : ℕ) (r : TransitionRow) (rs : List TransitionRow)
    → Numbered (λ x. x.ordinal) k (r ∷ rs)
    → next_ordinal (r ∷ rs) ≡ pos (k + length (r ∷ rs))
unfolding next_ordinal
next-Numbered k r [] n = ground (arith, n.0)
next-Numbered k r (q ∷ rs) n = next-Numbered (k + 1) q rs n.1 ∙ ap pos (omega arith)

pub next_ordinal-Numbered :
    (rs : List TransitionRow)
    → Numbered (λ x. x.ordinal) 1 rs
    → next_ordinal rs ≡ pos (1 + length rs)
unfolding next_ordinal
next_ordinal-Numbered [] n = refl
next_ordinal-Numbered (r ∷ rs) n = next-Numbered 1 r rs n

-- `UPDATE` and the operations' rows.
pub find-updated :
    (a state : String) (seq : ℤ) (rs : List OperationRow) (row : OperationRow)
    → find_operation a rs ≡ some row
    → find_operation a (updated a state seq rs)
      ≡ some (record row { state = state; updated_event_seq = seq })
unfolding find_operation updated
find-updated a state seq [] row h = cc
find-updated a state seq (r ∷ rs) row h = elim (Bool-cases (str_eq r.action_id a)) [
  | inl y ↦ rw (y, y) (let same : r ≡ row = ground (arith, y) in rw same)
  | inr n ↦ rw (n, n) (find-updated a state seq rs row (ground (arith, n)))
]

pub find-updated_other :
    (a b state : String) (seq : ℤ) (rs : List OperationRow)
    → a ≢ b
    → find_operation b (updated a state seq rs) ≡ find_operation b rs
unfolding find_operation updated
find-updated_other a b state seq [] h = refl
find-updated_other a b state seq (r ∷ rs) h =
    ground
      (arith, eq_iff r.action_id a, eq_iff r.action_id b, find-updated_other a b state seq rs h)

pub find_action :
    (a : String) (rs : List OperationRow) (row : OperationRow)
    → find_operation a rs ≡ some row
    → row.action_id ≡ a
unfolding find_operation
find_action a [] row h = cc
find_action a (r ∷ rs) row h = ground (arith, eq_iff r.action_id a, find_action a rs row)
