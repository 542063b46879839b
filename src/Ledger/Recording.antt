-- ===== src/Ledger/Recording.antt =====
-- The events that src/side_effects_lab/ledger.py makes for an operation are valid, and their evidence
-- has canonical bytes.
use side_effects_lab.Prelude.{
  String, true, Option, none, some, [], ◌∷◌, ◌≡◌, refl, sym, ap, ◌∙◌, subst, all, and_parts, arith,
}
use side_effects_lab.Prelude.Int.{ℤ}
use side_effects_lab.Prelude.Result.{ok, require_then, validation_error, value_error}
use side_effects_lab.Prelude.Exec.{Outcome, returned}
use side_effects_lab.Text.{Text, codes, is_lower, is_token_char, token, within}
use side_effects_lab.Models.Bounds.{is_positive, is_non_negative, is_optional}
use side_effects_lab.Models.Identifiers.{
  is_action_id, is_operation_key, is_digest, is_authority_id, is_attempt_id, is_parameter_name,
}
use side_effects_lab.Models.Schemes.{token_no_url, token_after-all}
use side_effects_lab.Models.Values.{
  str, Fields, is_url_value, has_url_scheme, lstrip, keys_are_names,
}
use side_effects_lab.Models.Flat.{IsFlat, FieldsFlat, parameter_map-FieldsFlat}
use side_effects_lab.Models.Events.{EventKind, LabEvent, lab_event}
use side_effects_lab.Canonical.Ascii.{is_ascii}
use side_effects_lab.StateMachine.Types.{
  OperationState, proposed, authorized, prepared, in_flight, indeterminate, reconciling, retryable,
  verifying, complete, safe_stop, violation, TransitionCause, authority_confirmed,
  invariant_violation, preparation_durable, safe_stop_selected, attempt_delivered, success_receipt,
  precommit_rejection, ambiguous_outcome, reconciliation_started, exact_effect_found,
  conclusive_absence, reconciliation_inconclusive, redispatch_authorized, fresh_postcondition,
  verification_incomplete, postcondition_failed, state_value, cause_value, OperationIdentity,
  operation_identity, TransitionEvidence, transition_evidence, is_evidence_id, TransitionRecord,
  canonical_value,
}
use side_effects_lab.StateMachine.Machine.{OperationStateMachine, transition}
use side_effects_lab.StateMachine.Outcome.{
  Transitioned, terminal, failed, reported, moved, transition-Transitioned,
}
use side_effects_lab.Ledger.Operations.{lifecycle_event}
use side_effects_lab.Ledger.Persisting.{optional_text, transition_event_evidence, with_fields}
use side_effects_lab.Ledger.Replaying.{IsIdentity, IsEvidence}

state-IsFlat : (s : OperationState) → IsFlat (str (codes (state_value s)))
unfolding state_value is_url_value is_digest has_url_scheme lstrip
state-IsFlat proposed = (refl, refl)
state-IsFlat authorized = (refl, refl)
state-IsFlat prepared = (refl, refl)
state-IsFlat in_flight = (refl, refl)
state-IsFlat indeterminate = (refl, refl)
state-IsFlat reconciling = (refl, refl)
state-IsFlat retryable = (refl, refl)
state-IsFlat verifying = (refl, refl)
state-IsFlat complete = (refl, refl)
state-IsFlat safe_stop = (refl, refl)
state-IsFlat violation = (refl, refl)

cause-IsFlat : (c : TransitionCause) → IsFlat (str (codes (cause_value c)))
unfolding cause_value is_url_value is_digest has_url_scheme lstrip
cause-IsFlat authority_confirmed = (refl, refl)
cause-IsFlat invariant_violation = (refl, refl)
cause-IsFlat preparation_durable = (refl, refl)
cause-IsFlat safe_stop_selected = (refl, refl)
cause-IsFlat attempt_delivered = (refl, refl)
cause-IsFlat success_receipt = (refl, refl)
cause-IsFlat precommit_rejection = (refl, refl)
cause-IsFlat ambiguous_outcome = (refl, refl)
cause-IsFlat reconciliation_started = (refl, refl)
cause-IsFlat exact_effect_found = (refl, refl)
cause-IsFlat conclusive_absence = (refl, refl)
cause-IsFlat reconciliation_inconclusive = (refl, refl)
cause-IsFlat redispatch_authorized = (refl, refl)
cause-IsFlat fresh_postcondition = (refl, refl)
cause-IsFlat verification_incomplete = (refl, refl)
cause-IsFlat postcondition_failed = (refl, refl)

token_ascii : (s : Text) → all is_token_char s ≡ true → all is_ascii s ≡ true
token_ascii [] h = refl
token_ascii (c ∷ s) h = ground (arith, token_ascii s)

token-IsFlat : (s : Text) → all is_token_char s ≡ true → IsFlat (str s)
token-IsFlat s h = (token_ascii s h, token_no_url s h)

lower_token : (s : Text) → token is_lower is_token_char s ≡ true → all is_token_char s ≡ true
unfolding token
lower_token [] h = cc
lower_token (c ∷ s) h = ground arith

evidence_id-IsFlat : (e : TransitionEvidence) → IsEvidence e → IsFlat (str (codes e.evidence_id))
unfolding transition_evidence is_evidence_id
evidence_id-IsFlat e h =
    let valid = (require_then (is_evidence_id e.evidence_id) value_error _ e h).0 in
    token-IsFlat (codes e.evidence_id)
      (lower_token (codes e.evidence_id) (and_parts (within 128 (codes e.evidence_id)) _ valid).1)

attempt-IsFlat : (a : Option String) → is_optional is_attempt_id a ≡ true → IsFlat (optional_text a)
unfolding is_attempt_id
attempt-IsFlat none h = tt
attempt-IsFlat (some a) h =
    token-IsFlat (codes a)
      (token_after-all (codes "attempt-") (codes a) refl (and_parts (within 128 (codes a)) _ h).1)

-- The evidence of a transition's event.
pub evidence-FieldsFlat :
    (r : TransitionRecord) (e : TransitionEvidence)
    → IsEvidence e
    → r.evidence_id ≡ e.evidence_id
    → is_optional is_attempt_id r.attempt_id ≡ true
    → IsFlat (optional_text r.violation_reason)
    → FieldsFlat (transition_event_evidence r e)
unfolding transition_event_evidence with_fields canonical_value
evidence-FieldsFlat r e valid same attempt reason =
    let id = subst (λ x. IsFlat (str (codes x))) (sym same) (evidence_id-IsFlat e valid) in
    (
      refl,
      attempt-IsFlat r.attempt_id attempt,
      (
        refl,
        state-IsFlat r.attempted_state,
        (
          refl,
          cause-IsFlat r.cause,
          (
            refl,
            id,
            (
              refl,
              state-IsFlat r.resulting_state,
              (
                refl,
                state-IsFlat r.source_state,
                (refl, reason, (refl, tt, (refl, tt, (refl, tt, (refl, tt, (refl, tt, tt)))))),
              ),
            ),
          ),
        ),
      ),
    )

-- The fields of a valid identity.
pub made_parts :
    (id : OperationIdentity)
    → IsIdentity id
    → (is_action_id (codes id.action_id) ≡ true)
      × (is_operation_key (codes id.operation_key) ≡ true)
      × (is_digest (codes id.intent_digest) ≡ true)
      × (is_authority_id (codes id.authority_id) ≡ true)
unfolding operation_identity
made_parts id h =
    let (h1, r1) = require_then (is_action_id (codes id.action_id)) validation_error _ id h in
    let (h2, r2) =
      require_then (is_operation_key (codes id.operation_key)) validation_error _ id r1 in
    let (h3, r3) = require_then (is_digest (codes id.intent_digest)) validation_error _ id r2 in
    let (h4, r4) =
      require_then (is_authority_id (codes id.authority_id)) validation_error _ id r3 in
    (h1, h2, h3, h4)

-- An event of an operation with an attempt and flat evidence.
abbrev pub event_with : ℤ → ℤ → EventKind → OperationIdentity → Option String → Fields → LabEvent
event_with seq tick kind id attempt evidence = record (lifecycle_event seq tick kind id) {
  attempt_id = attempt;
  evidence = evidence;
}

pub event_valid :
    (seq tick : ℤ) (kind : EventKind) (id : OperationIdentity) (attempt : Option String)
    (evidence : Fields)
    → is_positive seq ≡ true
    → is_non_negative tick ≡ true
    → IsIdentity id
    → is_optional is_attempt_id attempt ≡ true
    → FieldsFlat evidence
    → keys_are_names evidence ≡ true
    → lab_event (event_with seq tick kind id attempt evidence)
      ≡ ok (event_with seq tick kind id attempt evidence)
unfolding lab_event
event_valid seq tick kind id attempt evidence s t made a flat names =
    let (h1, h2, h3, h4) = made_parts id made in
    rw (s, t, h1, a, h2, h3, h4, parameter_map-FieldsFlat evidence flat names) refl

pub keys_named :
    (r : TransitionRecord) (e : TransitionEvidence)
    → keys_are_names (transition_event_evidence r e) ≡ true
unfolding keys_are_names transition_event_evidence with_fields canonical_value is_parameter_name
keys_named r e = refl

same_record :
    (r q : TransitionRecord)
    → ◌≡◌ {A = Outcome TransitionRecord TransitionRecord} (returned r) (returned q)
    → r ≡ q
same_record r q h = cc

mild_of :
    (m : OperationStateMachine) (t : OperationState) (e : TransitionEvidence)
    (id : OperationIdentity) (a : Option String)
    (out : Outcome TransitionRecord TransitionRecord × OperationStateMachine) (r : TransitionRecord)
    → Transitioned m t e id a out
    → out.0 ≡ returned r
    → IsFlat (optional_text r.violation_reason)
unfolding is_url_value is_digest has_url_scheme lstrip
mild_of m t e id a out r (terminal dead is) h = cc (is, h)
mild_of m t e id a out r (failed live refused (reason, is)) h = cc (is, h)
mild_of m t e id a out r (reported ready report is) h =
    subst (λ (x : TransitionRecord). IsFlat (optional_text x.violation_reason))
      (same_record _ r (sym (ap (λ o. o.0) is) ∙ h)) (refl, refl)
mild_of m t e id a out r (moved ready other edge is) h =
    subst (λ (x : TransitionRecord). IsFlat (optional_text x.violation_reason))
      (same_record _ r (sym (ap (λ o. o.0) is) ∙ h)) tt

pub returned-IsFlat :
    (m : OperationStateMachine) (t : OperationState) (e : TransitionEvidence)
    (id : OperationIdentity) (a : Option String) (r : TransitionRecord) (m' : OperationStateMachine)
    → transition t e id a m ≡ (returned r, m')
    → IsFlat (optional_text r.violation_reason)
returned-IsFlat m t e id a r m' is =
    mild_of m t e id a (transition t e id a m) r (transition-Transitioned m t e id a)
      (ap (λ o. o.0) is)
