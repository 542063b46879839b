-- ===== src/Ledger/Decoding.antt =====
-- How src/side_effects_lab/ledger.py reads the columns of a row: enumerations by their values, flags,
-- and the exceptions that become LedgerIntegrityError.
use side_effects_lab.Prelude.{
  String, Bool, true, false, ◌&&◌, Option, none, some, List, [], ◌∷◌, ◌≡◌, ◌↔◌, refl, subst, str_eq,
  eq_iff, arith, if◌then◌else◌, and_parts,
}
use side_effects_lab.Prelude.Int.{ℤ, pos, eq_ℤ}
use side_effects_lab.Prelude.Result.{Result, ok, err, value_error, ledger_integrity_error}
use side_effects_lab.StateMachine.Types.{
  OperationState, proposed, authorized, prepared, in_flight, indeterminate, reconciling, retryable,
  verifying, complete, safe_stop, violation, TransitionCause, authority_confirmed,
  invariant_violation, preparation_durable, safe_stop_selected, attempt_delivered, success_receipt,
  precommit_rejection, ambiguous_outcome, reconciliation_started, exact_effect_found,
  conclusive_absence, reconciliation_inconclusive, redispatch_authorized, fresh_postcondition,
  verification_incomplete, postcondition_failed, state_value, cause_value, TransitionRecord,
}
use side_effects_lab.StateMachine.Machine.{is_state, is_cause}
use side_effects_lab.StateMachine.Branches.{is_state_iff, is_cause_iff}

-- `except (TypeError, ValueError, ValidationError): raise LedgerIntegrityError`
unfoldable pub as_integrity : {A : Type 0} → Result A → Result A
as_integrity (ok a) = ok a
as_integrity (err e) = err ledger_integrity_error

-- The member of an enumeration with a value, as the class called with that value.
unfoldable pub member_of : {A : Type 0} → (A → String) → List A → String → Result A
member_of value [] text = err value_error
member_of value (m ∷ ms) text =
    let rest = member_of value ms text in if str_eq (value m) text then ok m else rest

abbrev states : List OperationState
states =
    proposed ∷ authorized ∷ prepared ∷ in_flight ∷ indeterminate ∷ reconciling ∷ retryable
    ∷ verifying ∷ complete ∷ safe_stop ∷ violation ∷ []

abbrev causes : List TransitionCause
causes =
    authority_confirmed ∷ invariant_violation ∷ preparation_durable ∷ safe_stop_selected
    ∷ attempt_delivered ∷ success_receipt ∷ precommit_rejection ∷ ambiguous_outcome
    ∷ reconciliation_started ∷ exact_effect_found ∷ conclusive_absence ∷ reconciliation_inconclusive
    ∷ redispatch_authorized ∷ fresh_postcondition ∷ verification_incomplete ∷ postcondition_failed
    ∷ []

-- `OperationState(value)`
unfoldable pub state_of : String → Result OperationState
unfolding member_of state_value
state_of = member_of state_value states

-- `TransitionCause(value)`
unfoldable pub cause_of : String → Result TransitionCause
unfolding member_of cause_value
cause_of = member_of cause_value causes

-- `_strict_db_bool`
unfoldable pub strict_db_bool : ℤ → Result Bool
strict_db_bool n =
    if eq_ℤ n (pos 0)
    then ok false
    else if eq_ℤ n (pos 1)
    then ok true
    else err ledger_integrity_error

-- `int(flag)`
abbrev pub flag_column : Bool → ℤ
flag_column true = pos 1
flag_column false = pos 0

pub flag_read : (b : Bool) → strict_db_bool (flag_column b) ≡ ok b
unfolding strict_db_bool
flag_read true = refl
flag_read false = refl

pub state_read : (s : OperationState) → state_of (state_value s) ≡ ok s
unfolding state_of
state_read proposed = refl
state_read authorized = refl
state_read prepared = refl
state_read in_flight = refl
state_read indeterminate = refl
state_read reconciling = refl
state_read retryable = refl
state_read verifying = refl
state_read complete = refl
state_read safe_stop = refl
state_read violation = refl

pub cause_read : (c : TransitionCause) → cause_of (cause_value c) ≡ ok c
unfolding cause_of
cause_read authority_confirmed = refl
cause_read invariant_violation = refl
cause_read preparation_durable = refl
cause_read safe_stop_selected = refl
cause_read attempt_delivered = refl
cause_read success_receipt = refl
cause_read precommit_rejection = refl
cause_read ambiguous_outcome = refl
cause_read reconciliation_started = refl
cause_read exact_effect_found = refl
cause_read conclusive_absence = refl
cause_read reconciliation_inconclusive = refl
cause_read redispatch_authorized = refl
cause_read fresh_postcondition = refl
cause_read verification_incomplete = refl
cause_read postcondition_failed = refl

value_found :
    {A : Type 0} (value : A → String) (ms : List A) (text : String) (a : A)
    → member_of value ms text ≡ ok a
    → text ≡ value a
unfolding member_of
value_found value [] text a h = cc
value_found value (m ∷ ms) text a h =
    ground (arith, eq_iff (value m) text, value_found value ms text a)

-- A text is read as a state, or a cause, exactly when it is the value that is written for it.
pub columns_read :
    (text : String) (s : OperationState) (c : TransitionCause)
    → ((state_of text ≡ ok s) ↔ (text ≡ state_value s))
      × ((cause_of text ≡ ok c) ↔ (text ≡ cause_value c))
unfolding state_of cause_of
columns_read text s c = (
  (value_found state_value states text s, λ h. rw h (state_read s)),
  (value_found cause_value causes text c, λ h. rw h (cause_read c)),
)

abbrev eq_optional : Option String → Option String → Bool
eq_optional none none = true
eq_optional (some a) (some b) = str_eq a b
eq_optional _ _ = false

eq_optional_iff : (a b : Option String) → (eq_optional a b ≡ true) ↔ (a ≡ b)
eq_optional_iff none none = ground arith
eq_optional_iff none (some b) = ground arith
eq_optional_iff (some a) none = ground arith
eq_optional_iff (some a) (some b) = ground (arith, eq_iff a b)

-- `==` of the dataclass
unfoldable pub eq_record : TransitionRecord → TransitionRecord → Bool
eq_record a b =
    is_state a.source_state b.source_state
    && is_state a.attempted_state b.attempted_state
    && is_state a.resulting_state b.resulting_state
    && str_eq a.evidence_id b.evidence_id
    && is_cause a.cause b.cause
    && eq_optional a.attempt_id b.attempt_id
    && eq_optional a.violation_reason b.violation_reason

eq_record_refl : (a : TransitionRecord) → eq_record a a ≡ true
unfolding eq_record
eq_record_refl a =
    rw
      (
        (is_state_iff a.source_state a.source_state).1 refl,
        (is_state_iff a.attempted_state a.attempted_state).1 refl,
        (is_state_iff a.resulting_state a.resulting_state).1 refl,
        (eq_iff a.evidence_id a.evidence_id).1 refl,
        (is_cause_iff a.cause a.cause).1 refl,
        (eq_optional_iff a.attempt_id a.attempt_id).1 refl,
        (eq_optional_iff a.violation_reason a.violation_reason).1 refl,
      )
      refl

same_fields :
    (a b : TransitionRecord)
    → a.source_state ≡ b.source_state
    → a.attempted_state ≡ b.attempted_state
    → a.resulting_state ≡ b.resulting_state
    → a.evidence_id ≡ b.evidence_id
    → a.cause ≡ b.cause
    → a.attempt_id ≡ b.attempt_id
    → a.violation_reason ≡ b.violation_reason
    → a ≡ b
same_fields a b h1 h2 h3 h4 h5 h6 h7 i = record {
  source_state = h1 i;
  attempted_state = h2 i;
  resulting_state = h3 i;
  evidence_id = h4 i;
  cause = h5 i;
  attempt_id = h6 i;
  violation_reason = h7 i;
}

equal_fields : (a b : TransitionRecord) → eq_record a b ≡ true → a ≡ b
unfolding eq_record
equal_fields a b h =
    let (r6, h7) = and_parts _ (eq_optional a.violation_reason b.violation_reason) h in
    let (r5, h6) = and_parts _ (eq_optional a.attempt_id b.attempt_id) r6 in
    let (r4, h5) = and_parts _ (is_cause a.cause b.cause) r5 in
    let (r3, h4) = and_parts _ (str_eq a.evidence_id b.evidence_id) r4 in
    let (r2, h3) = and_parts _ (is_state a.resulting_state b.resulting_state) r3 in
    let (h1, h2) = and_parts _ (is_state a.attempted_state b.attempted_state) r2 in
    same_fields a b ((is_state_iff _ _).0 h1) ((is_state_iff _ _).0 h2) ((is_state_iff _ _).0 h3)
      ((eq_iff _ _).0 h4) ((is_cause_iff _ _).0 h5) ((eq_optional_iff _ _).0 h6)
      ((eq_optional_iff _ _).0 h7)

pub eq_record_iff : (a b : TransitionRecord) → (eq_record a b ≡ true) ↔ (a ≡ b)
eq_record_iff a b = (equal_fields a b, λ h. subst (λ x. eq_record a x ≡ true) h (eq_record_refl a))
