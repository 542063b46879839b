-- ===== src/Ledger/Allowing.antt =====
-- When the constraints on the tables of src/side_effects_lab/ledger.py let the row of a transition in.
use side_effects_lab.Prelude.{
  ℕ, ◌+◌, String, Bool, true, false, ◌&&◌, some, List, [], ◌∷◌, ◌≡◌, refl, length, All, subst,
  str_eq, arith, ltb, leb, Bool-cases, inl, inr,
}
use side_effects_lab.Prelude.Int.{ℤ, pos, eq_ℤ, eq_ℤ_iff, leb_ℤ}
use side_effects_lab.Prelude.Sorting.{order_by-All_back}
use side_effects_lab.Models.Bounds.{is_positive}
use side_effects_lab.StateMachine.Types.{OperationIdentity, TransitionEvidence, TransitionRecord}
use side_effects_lab.Ledger.Tables.{
  OperationRow, TransitionRow, SqLiteLedger, find_operation, where_action, transition_before,
  transitions_of, any, has_event, has_operation, is_flag, transition_allowed,
}
use side_effects_lab.Ledger.Decoding.{flag_column}
use side_effects_lab.Ledger.Persisting.{new_transition}
use side_effects_lab.Ledger.Tables.{
  EventRow, AttemptRow, attempt_before, attempts_of, attempt_allowed,
}
use side_effects_lab.Ledger.Dating.{Below, AttemptsBelow}
use side_effects_lab.Ledger.Appending.{IsLog}
use side_effects_lab.Ledger.Rows.{Numbered}

pub unused_seq :
    (k j : ℕ) (rows : List TransitionRow)
    → Below k rows
    → ltb k j ≡ true
    → any (λ r. eq_ℤ r.event_seq (pos j)) rows ≡ false
unused_seq k j [] h g = refl
unused_seq k j (r ∷ rows) h g = ground (arith, unused_seq k j rows h.1, h.0)

Numbered-unused :
    {R : Type 0} (ordinal : R → ℤ) (k j : ℕ) (rows : List R)
    → Numbered ordinal k rows
    → leb_ℤ (pos (k + length rows)) (pos j) ≡ true
    → All (λ r. eq_ℤ (ordinal r) (pos j) ≡ false) rows
Numbered-unused ordinal k j [] n h = tt
Numbered-unused ordinal k j (r ∷ rows) n h =
    (ground (arith, n.0), Numbered-unused ordinal (k + 1) j rows n.1 (ground arith))

selected :
    {R : Type 0} (column : R → String) (action : String) (r : R) (rows : List R)
    → str_eq (column r) action ≡ true
    → where_action column action (r ∷ rows) ≡ r ∷ where_action column action rows
unfolding where_action
selected column action r rows h = rw h refl

passed :
    {R : Type 0} (column : R → String) (action : String) (r : R) (rows : List R)
    → str_eq (column r) action ≡ false
    → where_action column action (r ∷ rows) ≡ where_action column action rows
unfolding where_action
passed column action r rows h = rw h refl

own_rows :
    {R : Type 0} (column : R → String) (action : String) (p : R → Bool) (rows : List R)
    → All (λ r. p r ≡ false) (where_action column action rows)
    → any (λ r. str_eq (column r) action && p r) rows ≡ false
own_rows column action p [] h = refl
own_rows column action p (r ∷ rows) h =
    let No : List _ → Type 0 = All (λ q. p q ≡ false) in
    elim (Bool-cases (str_eq (column r) action)) [
      | inl y ↦
          let k = subst No (selected column action r rows y) h in
          rw (y, k.0) (own_rows column action p rows k.1)
      | inr n ↦ rw n (own_rows column action p rows (subst No (passed column action r rows n) h))
    ]

pub unused_ordinal :
    (action : String) (rows : List TransitionRow)
    → Numbered (λ x. x.ordinal) 1 (transitions_of action rows)
    → any
        (λ r.
          str_eq r.action_id action
          && eq_ℤ r.ordinal (pos (1 + length (transitions_of action rows))))
        rows
      ≡ false
unfolding transitions_of
unused_ordinal action rows n =
    let j = 1 + length (transitions_of action rows) in
    own_rows (λ x. x.action_id) action (λ r. eq_ℤ r.ordinal (pos j)) rows
      (order_by-All_back transition_before (λ r. eq_ℤ r.ordinal (pos j) ≡ false)
        (where_action (λ x. x.action_id) action rows)
        (Numbered-unused (λ x. x.ordinal) 1 j (transitions_of action rows) n (ground arith)))

pub find-has_operation :
    (action : String) (rows : List OperationRow) (row : OperationRow)
    → find_operation action rows ≡ some row
    → has_operation action rows ≡ true
unfolding find_operation
find-has_operation action [] row h = cc
find-has_operation action (r ∷ rows) row h = ground (arith, find-has_operation action rows row)

flag_fits : (b : Bool) → is_flag (flag_column b) ≡ true
unfolding flag_column
flag_fits true = refl
flag_fits false = refl

positive_next : (k : ℕ) → is_positive (pos (1 + k)) ≡ true
positive_next k = ground arith

pub transition_allowed_lem :
    (action : String) (candidate : OperationIdentity) (r : TransitionRecord)
    (e : TransitionEvidence) (k : ℕ) (seq : ℤ) (s : SqLiteLedger)
    → has_operation action s.operations ≡ true
    → any (λ x. str_eq x.action_id action && eq_ℤ x.ordinal (pos (1 + k))) s.transitions ≡ false
    → any (λ x. eq_ℤ x.event_seq seq) s.transitions ≡ false
    → has_event seq s.events ≡ true
    → transition_allowed (new_transition action candidate r e (pos (1 + k)) seq) s ≡ true
unfolding transition_allowed
transition_allowed_lem action candidate r e k seq s known ordinal fresh dated =
    rw
      (
        known,
        positive_next k,
        ordinal,
        fresh,
        dated,
        flag_fits e.fresh,
        flag_fits e.authoritative,
        flag_fits e.exact_identity,
        flag_fits e.postcondition_verified,
        flag_fits e.cardinality_valid,
      )
      refl

-- The same of an attempt.
pub unused_attempt_ordinal :
    (action : String) (rows : List AttemptRow)
    → Numbered (λ (x : AttemptRow). x.ordinal) 1 (attempts_of action rows)
    → any
        (λ (r : AttemptRow).
          str_eq r.action_id action && eq_ℤ r.ordinal (pos (1 + length (attempts_of action rows))))
        rows
      ≡ false
unfolding attempts_of
unused_attempt_ordinal action rows n =
    let j = 1 + length (attempts_of action rows) in
    own_rows (λ (x : AttemptRow). x.action_id) action (λ r. eq_ℤ r.ordinal (pos j)) rows
      (order_by-All_back attempt_before (λ (r : AttemptRow). eq_ℤ r.ordinal (pos j) ≡ false)
        (where_action (λ (x : AttemptRow). x.action_id) action rows)
        (Numbered-unused (λ (x : AttemptRow). x.ordinal) 1 j (attempts_of action rows) n
          (ground arith)))

pub unused_dispatch_seq :
    (k j : ℕ) (rows : List AttemptRow)
    → AttemptsBelow k rows
    → ltb k j ≡ true
    → any (λ (r : AttemptRow). eq_ℤ r.dispatch_event_seq (pos j)) rows ≡ false
unused_dispatch_seq k j [] h g = refl
unused_dispatch_seq k j (r ∷ rows) h g = ground (arith, unused_dispatch_seq k j rows h.1, h.0.0)

pub unused_transition_seq :
    (k j : ℕ) (rows : List AttemptRow)
    → AttemptsBelow k rows
    → ltb k j ≡ true
    → any (λ (r : AttemptRow). eq_ℤ r.transition_event_seq (pos j)) rows ≡ false
unused_transition_seq k j [] h g = refl
unused_transition_seq k j (r ∷ rows) h g = ground (arith, unused_transition_seq k j rows h.1, h.0.1)

pub attempt_allowed_lem :
    (row : AttemptRow) (s : SqLiteLedger)
    → any (λ (r : AttemptRow). str_eq r.attempt_id row.attempt_id) s.attempts ≡ false
    → has_operation row.action_id s.operations ≡ true
    → is_positive row.ordinal ≡ true
    → any
        (λ (r : AttemptRow). str_eq r.action_id row.action_id && eq_ℤ r.ordinal row.ordinal)
        s.attempts
      ≡ false
    → any (λ (r : AttemptRow). eq_ℤ r.dispatch_event_seq row.dispatch_event_seq) s.attempts ≡ false
    → any (λ (r : AttemptRow). eq_ℤ r.transition_event_seq row.transition_event_seq) s.attempts
      ≡ false
    → has_event row.dispatch_event_seq s.events ≡ true
    → has_event row.transition_event_seq s.events ≡ true
    → attempt_allowed row s ≡ true
unfolding attempt_allowed
attempt_allowed_lem row s a b c d e f g h = rw (a, b, c, d, e, f, g, h) refl

-- A log has every event up to its length.
pub log-has_event :
    (n : ℕ) (rows : List EventRow)
    → IsLog rows
    → ltb 0 n ≡ true
    → leb n (length rows) ≡ true
    → has_event (pos n) rows ≡ true
log-has_event n [] log h g = ground arith
log-has_event n (r ∷ rows) log h g = elim (Bool-cases (eq_ℤ r.event.seq (pos n))) [
  | inl y ↦ rw y refl
  | inr other ↦
      rw other
        (log-has_event n rows log.1.1 h (ground (arith, log.0, eq_ℤ_iff r.event.seq (pos n))))
]
