-- ===== src/Authority/Rows.antt =====
-- The decision matrix of src/side_effects_lab/authority.py as a relation.
use side_effects_lab.Prelude.{true, and_parts, arith, Option, none, some, ◌≡◌, ◌↔◌, refl}
use side_effects_lab.StateMachine.Types.{
  OperationState, TransitionCause, authority_confirmed, safe_stop_selected, invariant_violation,
}
use side_effects_lab.StateMachine.Machine.{is_state, is_cause}
use side_effects_lab.StateMachine.Branches.{is_state_iff, is_cause_iff}
use side_effects_lab.Authority.Types.{
  AuthorityDisposition, allow, safe_stop, violation, AuthorityReason, identity_mismatch,
  authority_id_mismatch, subject_mismatch, service_mismatch, operation_mismatch,
  intent_digest_mismatch, parameters_mismatch, compensation_not_authorized, cardinality_exceeded,
  auth_expired, authorized, revalidated, read_only_allowed,
}
use side_effects_lab.Authority.Decision.{
  Move, move, no_move, move_of, is_allow_reason, same_move, expected_move, is_permitted,
  is_defect_reason, is_matrix_row,
}

-- The reasons that a violation may have.
pub data Defect : AuthorityReason → Type 0 where
  identity : Defect identity_mismatch
  authority : Defect authority_id_mismatch
  subject : Defect subject_mismatch
  service : Defect service_mismatch
  operation : Defect operation_mismatch
  intent : Defect intent_digest_mismatch
  parameters : Defect parameters_mismatch
  compensation : Defect compensation_not_authorized
  cardinality : Defect cardinality_exceeded
  expiry : Defect auth_expired

pub data Row
    : AuthorityDisposition
      → AuthorityReason
      → Option OperationState
      → Option TransitionCause
      → Type 0 where
  authorizes : Row allow authorized (some OperationState.authorized) (some authority_confirmed)
  revalidates : Row allow revalidated none none
  reads : Row allow read_only_allowed none none
  stops : Row safe_stop auth_expired (some OperationState.safe_stop) (some safe_stop_selected)
  denounces :
      {r : AuthorityReason}
      → Defect r
      → Row violation r (some OperationState.violation) (some invariant_violation)

Defect-is : (r : AuthorityReason) → is_defect_reason r ≡ true → Defect r
unfolding is_defect_reason
Defect-is identity_mismatch h = identity
Defect-is authority_id_mismatch h = authority
Defect-is subject_mismatch h = subject
Defect-is service_mismatch h = service
Defect-is operation_mismatch h = operation
Defect-is intent_digest_mismatch h = intent
Defect-is parameters_mismatch h = parameters
Defect-is compensation_not_authorized h = compensation
Defect-is cardinality_exceeded h = cardinality
Defect-is auth_expired h = expiry
Defect-is authorized h = cc
Defect-is revalidated h = cc
Defect-is read_only_allowed h = cc

is-Defect : {r : AuthorityReason} → Defect r → is_defect_reason r ≡ true
unfolding is_defect_reason
is-Defect identity = refl
is-Defect authority = refl
is-Defect subject = refl
is-Defect service = refl
is-Defect operation = refl
is-Defect intent = refl
is-Defect parameters = refl
is-Defect compensation = refl
is-Defect cardinality = refl
is-Defect expiry = refl

abbrev Accepted :
    AuthorityDisposition → AuthorityReason → Option OperationState → Option TransitionCause → Type 0
Accepted d r t c = (is_permitted (move_of t c) ≡ true) × (is_matrix_row d r (move_of t c) ≡ true)

Row-Accepted :
    {d : AuthorityDisposition} {r : AuthorityReason} {t : Option OperationState}
    {c : Option TransitionCause}
    → Row d r t c
    → Accepted d r t c
unfolding move_of is_permitted is_matrix_row is_allow_reason
Row-Accepted authorizes = (refl, refl)
Row-Accepted revalidates = (refl, refl)
Row-Accepted reads = (refl, refl)
Row-Accepted stops = (refl, refl)
Row-Accepted (denounces k) = (refl, rw (is_matrix_row, expected_move, is-Defect k) refl)

same_pair :
    (s t : OperationState) (c k : TransitionCause)
    → same_move (move s c) (move t k) ≡ true
    → (s ≡ t) × (c ≡ k)
unfolding same_move
same_pair s t c k h =
    let (state, cause) = and_parts (is_state s t) (is_cause c k) h in
    ((is_state_iff s t).0 state, (is_cause_iff c k).0 cause)

-- What a violation's row asks of the reason and of the pair.
violation_row :
    (r : AuthorityReason) (pair : Move)
    → is_matrix_row violation r pair ≡ true
    → (is_defect_reason r ≡ true)
      × (same_move pair (move OperationState.violation invariant_violation) ≡ true)
unfolding is_matrix_row
violation_row r pair h = ground arith

stay_row :
    (d : AuthorityDisposition) (r : AuthorityReason)
    → is_matrix_row d r no_move ≡ true
    → Row d r none none
unfolding is_matrix_row is_allow_reason
stay_row allow revalidated h = revalidates
stay_row allow read_only_allowed h = reads
stay_row safe_stop auth_expired h = cc
stay_row violation r h = cc ((violation_row r no_move h).1)
stay_row _ _ h = cc

move_row :
    (d : AuthorityDisposition) (r : AuthorityReason) (s : OperationState) (c : TransitionCause)
    → is_matrix_row d r (move s c) ≡ true
    → Row d r (some s) (some c)
unfolding is_matrix_row is_allow_reason
move_row violation r s c h =
    let (defect, same) = violation_row r (move s c) h in
    let (state, cause) = same_pair s OperationState.violation c invariant_violation same in
    rw (state, cause) (denounces (Defect-is r defect))
move_row allow authorized s c h =
    let (state, cause) = same_pair s OperationState.authorized c authority_confirmed h in
    rw (state, cause) authorizes
move_row safe_stop auth_expired s c h =
    let (state, cause) = same_pair s OperationState.safe_stop c safe_stop_selected h in
    rw (state, cause) stops
move_row _ _ _ _ h = cc

Accepted-Row :
    (d : AuthorityDisposition) (r : AuthorityReason) (t : Option OperationState)
    (c : Option TransitionCause)
    → Accepted d r t c
    → Row d r t c
unfolding move_of is_permitted
Accepted-Row d r none none h = stay_row d r h.1
Accepted-Row d r (some s) (some c) h = move_row d r s c h.1
Accepted-Row d r none (some c) h = cc (h.0)
Accepted-Row d r (some s) none h = cc (h.0)

-- The tests on a decision's target and cause, and on its row of the matrix, accept exactly the rows:
-- ALLOW moves to AUTHORIZED with AUTHORIZED as its reason and does not move with the two other allow
-- reasons, SAFE_STOP is for expiry alone, and VIOLATION has a defect as its reason.
pub Row-iff :
    (d : AuthorityDisposition) (r : AuthorityReason) (t : Option OperationState)
    (c : Option TransitionCause)
    → ((is_permitted (move_of t c) ≡ true) × (is_matrix_row d r (move_of t c) ≡ true)) ↔ Row d r t c
Row-iff d r t c = (Accepted-Row d r t c, Row-Accepted)
