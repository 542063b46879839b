-- ===== src/Authority/Check.antt =====
-- `check_authority` of src/side_effects_lab/authority.py. The hash is a parameter, as in canonical.py.
use side_effects_lab.Prelude.{
  String, Bool, false, not, ◌&&◌, Option, none, some, List, [], ◌∷◌, if◌then◌else◌, str_eq,
}
use side_effects_lab.Prelude.Int.{leb_ℤ, ltb_ℤ}
use side_effects_lab.Prelude.Result.{Result, ◌>>=◌}
use side_effects_lab.Text.{Text, codes}
use side_effects_lab.Text.Equality.{text_eq}
use side_effects_lab.Models.Values.{
  Value, null, bool, int, str, dict, frozen_map, Fields, end, field, parameter_map,
}
use side_effects_lab.Canonical.Json.{canonical_json_bytes, canonical_digest}
use side_effects_lab.StateMachine.Types.{
  OperationState, TransitionCause, authority_confirmed, safe_stop_selected, invariant_violation,
  OperationIdentity,
}
use side_effects_lab.Authority.Types.{
  CheckKind, authorize, passive_pre_dispatch, read_only, kind_value, is_read_only,
  AuthorityDisposition, disposition_value, AuthorityReason, identity_mismatch,
  authority_id_mismatch, subject_mismatch, service_mismatch, operation_mismatch,
  intent_digest_mismatch, parameters_mismatch, compensation_not_authorized, cardinality_exceeded,
  auth_expired, authorized, revalidated, read_only_allowed, reason_value, reason_precedence,
  intent_value, AuthorityGrant, AuthorityCheck, revalidated_grant, revalidated_request,
}
use side_effects_lab.Authority.Decision.{AuthorityDecision, authority_decision}

-- What the body of `check_authority` establishes before it decides.
pub record Facts : Type 0 where
  pub identity_confirmed : Bool
  pub authority_id_match : Bool
  pub subject_match : Bool
  pub service_match : Bool
  pub operation_match : Bool
  pub intent_digest_match : Bool
  pub parameters_match : Bool
  pub tick_valid : Bool
  pub cardinality_valid : Bool
  pub compensation_claimed : Bool
  pub compensation_authorized : Option Bool

-- `original.allowed_compensation == action_id`
unfoldable pub names_action : Option String → String → Bool
names_action none action = false
names_action (some a) action = str_eq a action

-- The original grant names the candidate's action, and is not the current grant.
unfoldable pub authorizes : Option AuthorityGrant → String → String → Bool
unfolding names_action
authorizes none action authority = false
authorizes (some g) action authority =
    names_action g.allowed_compensation action && not (str_eq g.authority_id authority)

-- `None` where no compensation is claimed.
unfoldable pub compensation_of : AuthorityCheck → AuthorityGrant → Option Bool
unfolding authorizes
compensation_of c g =
    if c.is_compensation
    then some (authorizes c.original_grant c.candidate.action_id g.authority_id)
    else none

unfoldable pub confirms : OperationIdentity → OperationIdentity → Bool
confirms candidate confirmed =
    str_eq candidate.action_id confirmed.action_id
    && str_eq candidate.operation_key confirmed.operation_key
    && str_eq candidate.intent_digest confirmed.intent_digest
    && str_eq candidate.authority_id confirmed.authority_id

-- `recomputed` is the digest of the intent; `given` and `permitted` are the canonical bytes of the
-- intent's parameters and of the grant's.
unfoldable pub facts : AuthorityGrant → AuthorityCheck → String → Text → Text → Facts
unfolding confirms compensation_of
facts g c recomputed given permitted = record {
  identity_confirmed = confirms c.candidate c.confirmed;
  authority_id_match = str_eq c.candidate.authority_id g.authority_id;
  subject_match = str_eq c.subject_id g.subject_id;
  service_match = str_eq c.intent.service g.service;
  operation_match = str_eq c.intent.operation g.operation;
  intent_digest_match =
      str_eq recomputed c.candidate.intent_digest && str_eq recomputed g.semantic_intent_digest;
  parameters_match = text_eq given permitted;
  tick_valid = leb_ℤ c.current_tick g.expires_at_tick;
  cardinality_valid = ltb_ℤ c.committed_effect_count g.max_effects;
  compensation_claimed = c.is_compensation;
  compensation_authorized = compensation_of c g;
}

-- `bool(value)` of an optional Boolean.
abbrev pub truthy : Option Bool → Bool
truthy none = false
truthy (some b) = b

-- The dict `defects`; the reasons that it has no key for are never looked up.
unfoldable pub is_defect : CheckKind → Facts → AuthorityReason → Bool
is_defect kind f identity_mismatch = not f.identity_confirmed
is_defect kind f authority_id_mismatch = not f.authority_id_match
is_defect kind f subject_mismatch = not f.subject_match
is_defect kind f service_mismatch = not f.service_match
is_defect kind f operation_mismatch = not f.operation_match
is_defect kind f intent_digest_mismatch = not f.intent_digest_match
is_defect kind f parameters_mismatch = not f.parameters_match
is_defect kind f compensation_not_authorized =
    f.compensation_claimed && not (truthy f.compensation_authorized)
is_defect kind f cardinality_exceeded = not (is_read_only kind) && not f.cardinality_valid
is_defect kind f auth_expired = not (is_read_only kind) && not f.tick_valid
is_defect kind f _ = false

-- `next((reason for reason in reasons if defects[reason]), None)`
unfoldable pub first_defect : CheckKind → Facts → List AuthorityReason → Option AuthorityReason
first_defect kind f [] = none
first_defect kind f (r ∷ rs) =
    let rest = first_defect kind f rs in if is_defect kind f r then some r else rest

pub record Verdict : Type 0 where
  pub disposition : AuthorityDisposition
  pub reason : AuthorityReason
  pub target : Option OperationState
  pub cause : Option TransitionCause

abbrev pub allows : AuthorityReason → Verdict
allows r = record {
  disposition = AuthorityDisposition.allow;
  reason = r;
  target = none;
  cause = none;
}

abbrev pub violates : AuthorityReason → Verdict
violates r = record {
  disposition = AuthorityDisposition.violation;
  reason = r;
  target = some OperationState.violation;
  cause = some invariant_violation;
}

-- The verdict from the kind of check and the winning defect.
unfoldable pub verdict : CheckKind → Option AuthorityReason → Verdict
verdict authorize none = record {
  disposition = AuthorityDisposition.allow;
  reason = authorized;
  target = some OperationState.authorized;
  cause = some authority_confirmed;
}
verdict read_only none = allows read_only_allowed
verdict _ none = allows revalidated
verdict passive_pre_dispatch (some auth_expired) = record {
  disposition = AuthorityDisposition.safe_stop;
  reason = auth_expired;
  target = some OperationState.safe_stop;
  cause = some safe_stop_selected;
}
verdict _ (some r) = violates r

abbrev pub optional_bool_value : Option Bool → Value
optional_bool_value none = null
optional_bool_value (some b) = bool b

-- The dict `payload`, in the order of its literal.
unfoldable pub payload : AuthorityGrant → AuthorityCheck → String → Facts → Verdict → Fields
payload g c recomputed f v = field (codes "action_id") (str (codes c.candidate.action_id)) (
    field (codes "operation_key") (str (codes c.candidate.operation_key)) (
      field (codes "authority_id") (str (codes c.candidate.authority_id)) (
        field (codes "grant_authority_id") (str (codes g.authority_id)) (
          field (codes "check_kind") (str (codes (kind_value c.kind))) (
            field (codes "disposition") (str (codes (disposition_value v.disposition))) (
              field (codes "reason") (str (codes (reason_value v.reason))) (
                field (codes "checked_tick") (int c.current_tick) (
                  field (codes "expires_at_tick") (int g.expires_at_tick) (
                    field (codes "tick_valid") (bool f.tick_valid) (
                      field (codes "candidate_intent_digest")
                        (str (codes c.candidate.intent_digest))
                        (field (codes "grant_intent_digest") (str (codes g.semantic_intent_digest))
                          (field (codes "recomputed_intent_digest") (str (codes recomputed)) (
                            field (codes "committed_effect_count") (int c.committed_effect_count) (
                              field (codes "max_effects") (int g.max_effects) (
                                field (codes "cardinality_valid") (bool f.cardinality_valid) (
                                  field (codes "identity_confirmed") (bool f.identity_confirmed) (
                                    field (codes "authority_id_match") (bool f.authority_id_match) (
                                      field (codes "subject_match") (bool f.subject_match) (
                                        field (codes "service_match") (bool f.service_match) (
                                          field (codes "operation_match") (bool f.operation_match) (
                                            field (codes "intent_digest_match")
                                              (bool f.intent_digest_match)
                                              (field (codes "parameters_match")
                                                (bool f.parameters_match)
                                                (field (codes "compensation_claimed")
                                                  (bool f.compensation_claimed)
                                                  (field (codes "compensation_authorized")
                                                    (optional_bool_value f.compensation_authorized)
                                                    end))))))))))))))))))))))))

-- The last part of `check_authority`: the evidence and the decision.
unfoldable pub decide_with :
    AuthorityGrant → AuthorityCheck → String → Facts → Verdict → Result AuthorityDecision
unfolding payload
decide_with g c recomputed f v = do
  evidence ← parameter_map (dict (payload g c recomputed f v))
  authority_decision (record {
    disposition = v.disposition;
    reason = v.reason;
    evidence = evidence;
    target = v.target;
    cause = v.cause;
  })

unfoldable pub check_authority :
    (Text → String) → AuthorityGrant → AuthorityCheck → Result AuthorityDecision
unfolding first_defect facts verdict decide_with reason_precedence
check_authority hexdigest grant request = do
  g ← revalidated_grant grant
  c ← revalidated_request request
  recomputed ← canonical_digest hexdigest (intent_value c.intent)
  given ← canonical_json_bytes (frozen_map c.intent.parameters)
  permitted ← canonical_json_bytes (frozen_map g.allowed_parameters)
  let f = facts g c recomputed given permitted
  decide_with g c recomputed f (verdict c.kind (first_defect c.kind f reason_precedence))
