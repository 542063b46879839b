-- ===== src/Ledger/Tables.antt =====
-- The database of src/side_effects_lab/ledger.py: its tables as lists of rows, the newest first, the
-- rows that the statements select, and the constraints of the schema. The metadata row is made once
-- and is left out.
use side_effects_lab.Prelude.{
  ℕ, String, Bool, false, not, ◌&&◌, ◌||◌, Option, none, some, List, [], ◌∷◌, str_eq, if◌then◌else◌,
  ◌+◌,
}
use side_effects_lab.Prelude.Int.{ℤ, pos, negsuc, eq_ℤ, ltb_ℤ}
use side_effects_lab.Prelude.Sorting.{order_by}
use side_effects_lab.Prelude.Result.{Error}
use side_effects_lab.Prelude.Exec.{Exec}
use side_effects_lab.Text.{Text, codes}
use side_effects_lab.Models.Bounds.{is_positive}
use side_effects_lab.Models.Events.{LabEvent}
use side_effects_lab.Canonical.Json.{text_lt}

-- A row of `events`; the event's own evidence is kept as the bytes of `evidence_json` as well.
pub record EventRow : Type 0 where
  pub event : LabEvent
  pub evidence_json : Text

-- A row of `operations`.
pub record OperationRow : Type 0 where
  pub action_id : String
  pub operation_key : String
  pub intent_digest : String
  pub authority_id : String
  pub state : String
  pub created_event_seq : ℤ
  pub updated_event_seq : ℤ

-- A row of `transitions`.
pub record TransitionRow : Type 0 where
  pub action_id : String
  pub ordinal : ℤ
  pub event_seq : ℤ
  pub source_state : String
  pub attempted_state : String
  pub resulting_state : String
  pub candidate_action_id : String
  pub candidate_operation_key : String
  pub candidate_intent_digest : String
  pub candidate_authority_id : String
  pub evidence_id : String
  pub cause : String
  pub fresh : ℤ
  pub authoritative : ℤ
  pub exact_identity : ℤ
  pub postcondition_verified : ℤ
  pub cardinality_valid : ℤ
  pub attempt_id : Option String
  pub violation_reason : Option String

-- A row of `attempts`.
pub record AttemptRow : Type 0 where
  pub attempt_id : String
  pub action_id : String
  pub ordinal : ℤ
  pub dispatch_event_seq : ℤ
  pub transition_event_seq : ℤ

pub record SqLiteLedger : Type 0 where
  pub closed : Bool
  pub run_id : String
  pub events : List EventRow
  pub operations : List OperationRow
  pub transitions : List TransitionRow
  pub attempts : List AttemptRow

abbrev pub LedgerAction : Type 0 → Type 0
LedgerAction = Exec SqLiteLedger Error

-- `WHERE action_id = ?` on `operations`, whose key that is.
unfoldable pub find_operation : String → List OperationRow → Option OperationRow
find_operation action [] = none
find_operation action (r ∷ rs) =
    let rest = find_operation action rs in if str_eq r.action_id action then some r else rest

-- `WHERE action_id = ?`
unfoldable pub where_action : {R : Type 0} → (R → String) → String → List R → List R
where_action column action [] = []
where_action column action (r ∷ rs) =
    let rest = where_action column action rs in if str_eq (column r) action then r ∷ rest else rest

-- `ORDER BY ordinal, event_seq`
abbrev pub transition_before : TransitionRow → TransitionRow → Bool
transition_before a b =
    ltb_ℤ a.ordinal b.ordinal || (eq_ℤ a.ordinal b.ordinal && ltb_ℤ a.event_seq b.event_seq)

-- `ORDER BY ordinal, attempt_id`
abbrev pub attempt_before : AttemptRow → AttemptRow → Bool
attempt_before a b =
    ltb_ℤ a.ordinal b.ordinal
    || (eq_ℤ a.ordinal b.ordinal && text_lt (codes a.attempt_id) (codes b.attempt_id))

-- `ORDER BY created_event_seq, action_id`
abbrev pub operation_before : OperationRow → OperationRow → Bool
operation_before a b =
    ltb_ℤ a.created_event_seq b.created_event_seq
    || (eq_ℤ a.created_event_seq b.created_event_seq
        && text_lt (codes a.action_id) (codes b.action_id))

-- The rows of one operation, in their order.
unfoldable pub transitions_of : String → List TransitionRow → List TransitionRow
unfolding where_action order_by
transitions_of action rows =
    order_by transition_before (where_action (λ r. r.action_id) action rows)

unfoldable pub attempts_of : String → List AttemptRow → List AttemptRow
unfolding where_action order_by
attempts_of action rows = order_by attempt_before (where_action (λ r. r.action_id) action rows)

abbrev pub successor : ℤ → ℤ
successor (pos n) = pos (n + 1)
successor (negsuc ℕ.zero) = pos 0
successor (negsuc (ℕ.suc n)) = negsuc n

-- One more than the ordinal of the last row, or 1: the last in the ascending order is the first in the
-- descending one that the statement asks for, since no two rows of an operation share an ordinal.
unfoldable pub next_ordinal : List TransitionRow → ℤ
next_ordinal [] = pos 1
next_ordinal (r ∷ []) = successor r.ordinal
next_ordinal (r ∷ q ∷ rs) = next_ordinal (q ∷ rs)

abbrev pub any : {R : Type 0} → (R → Bool) → List R → Bool
any p [] = false
any p (r ∷ rs) = p r || any p rs

-- `REFERENCES events(seq)`, `REFERENCES operations(action_id)`
abbrev pub has_event : ℤ → List EventRow → Bool
has_event seq = any (λ r. eq_ℤ r.event.seq seq)

abbrev pub has_operation : String → List OperationRow → Bool
has_operation action = any (λ r. str_eq r.action_id action)

abbrev pub is_flag : ℤ → Bool
is_flag n = eq_ℤ n (pos 0) || eq_ℤ n (pos 1)

-- The constraints on a new row of each table.
unfoldable pub operation_allowed : OperationRow → SqLiteLedger → Bool
operation_allowed row s =
    not (has_operation row.action_id s.operations)
    && has_event row.created_event_seq s.events
    && has_event row.updated_event_seq s.events

unfoldable pub transition_allowed : TransitionRow → SqLiteLedger → Bool
transition_allowed row s =
    has_operation row.action_id s.operations
    && is_positive row.ordinal
    && not (any (λ r. str_eq r.action_id row.action_id && eq_ℤ r.ordinal row.ordinal) s.transitions)
    && not (any (λ r. eq_ℤ r.event_seq row.event_seq) s.transitions)
    && has_event row.event_seq s.events
    && is_flag row.fresh
    && is_flag row.authoritative
    && is_flag row.exact_identity
    && is_flag row.postcondition_verified
    && is_flag row.cardinality_valid

unfoldable pub attempt_allowed : AttemptRow → SqLiteLedger → Bool
attempt_allowed row s =
    not (any (λ r. str_eq r.attempt_id row.attempt_id) s.attempts)
    && has_operation row.action_id s.operations
    && is_positive row.ordinal
    && not (any (λ r. str_eq r.action_id row.action_id && eq_ℤ r.ordinal row.ordinal) s.attempts)
    && not (any (λ r. eq_ℤ r.dispatch_event_seq row.dispatch_event_seq) s.attempts)
    && not (any (λ r. eq_ℤ r.transition_event_seq row.transition_event_seq) s.attempts)
    && has_event row.dispatch_event_seq s.events
    && has_event row.transition_event_seq s.events
