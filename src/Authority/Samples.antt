-- ===== src/Authority/Samples.antt =====
-- A grant, requests for it, and what src/side_effects_lab/authority.py makes of them.
use side_effects_lab.Prelude.{String, false, none, some, ◌≡◌, refl}
use side_effects_lab.Prelude.Int.{ℤ, pos}
use side_effects_lab.Prelude.Result.{Result, ok, err}
use side_effects_lab.Text.{Text, codes}
use side_effects_lab.Models.Values.{
  int, Fields, end, field, parameter_map, keys_are_names, fields_canonical, fields_free_of_urls,
  freeze_fields, thaw_fields, is_url_value, lstrip, has_url_scheme,
}
use side_effects_lab.StateMachine.Types.{OperationIdentity}
use side_effects_lab.Authority.Types.{
  CheckKind, authorize, passive_pre_dispatch, AuthorityGrant, AuthorityCheck, reason_precedence,
  intent_value, revalidated_grant, revalidated_request, revalidated_identity, revalidated_original,
  authority_check, semantic_intent, identity_mismatch, violation,
}
use side_effects_lab.Authority.Decision.{AuthorityDecision, authority_decision, validated_evidence}
use side_effects_lab.Authority.Evidence.{rebuilt, keys_known, has_field, field_of, is_text}
use side_effects_lab.Models.Identifiers.{
  is_digest, is_action_id, is_operation_key, is_authority_id, is_subject_id, is_service_name,
  is_operation_name, is_parameter_name,
}
use side_effects_lab.Authority.Decides.{Checked}
use side_effects_lab.Canonical.Json.{
  canonical_json_bytes, normalize, sort_keys, insert_member, text_lt, print, print_integer, quoted,
  encode, canonical_digest,
}
use side_effects_lab.StateMachine.Types.{OperationState, authority_confirmed}
use side_effects_lab.Text.Decimal.{decimal}
use side_effects_lab.Text.Equality.{text_eq}
use side_effects_lab.StateMachine.Types.{operation_identity}
use side_effects_lab.Authority.Check.{
  facts, is_defect, first_defect, verdict, decide_with, authorizes, check_authority,
}

-- A digest that does not read its input.
abbrev pub sample_hash : Text → String
sample_hash bytes = "00112233445566778899aabbccddeeff00112233445566778899aabbccddeeff"

abbrev pub sample_digest : String
sample_digest = "sha256:00112233445566778899aabbccddeeff00112233445566778899aabbccddeeff"

abbrev pub amount : Fields
amount = field (codes "amount") (int (pos 5)) end

abbrev pub sample_grant : AuthorityGrant
sample_grant = record {
  authority_id = "auth-refund-1";
  subject_id = "subject-1";
  service = "payments";
  operation = "refund";
  semantic_intent_digest = sample_digest;
  allowed_parameters = amount;
  expires_at_tick = pos 10;
  max_effects = pos 1;
  allowed_compensation = none;
}

abbrev pub sample_candidate : OperationIdentity
sample_candidate = record {
  action_id = "action-refund-1";
  operation_key = "op-refund-1";
  intent_digest = sample_digest;
  authority_id = "auth-refund-1";
}

abbrev pub request_at : CheckKind → ℤ → AuthorityCheck
request_at kind tick = record {
  kind = kind;
  candidate = sample_candidate;
  confirmed = sample_candidate;
  subject_id = "subject-1";
  intent = record { service = "payments"; operation = "refund"; parameters = amount };
  current_tick = tick;
  committed_effect_count = pos 0;
  is_compensation = false;
  original_grant = none;
}

-- What a check computes with, on one line.
check_runs : Unit {0}
unfolding check_authority canonical_json_bytes normalize sort_keys insert_member text_lt print
    print_integer quoted decimal encode canonical_digest intent_value revalidated_grant
    revalidated_request revalidated_identity revalidated_original authority_check semantic_intent
    operation_identity is_digest is_action_id is_operation_key is_authority_id is_subject_id
    is_service_name is_operation_name is_parameter_name parameter_map keys_are_names
    fields_canonical fields_free_of_urls freeze_fields thaw_fields is_url_value lstrip
    has_url_scheme text_eq reason_precedence facts is_defect verdict first_defect decide_with
    authority_decision authorizes validated_evidence rebuilt keys_known has_field field_of is_text
check_runs = tt

-- The decision of a check that succeeds.
abbrev pub decided : Result AuthorityDecision → AuthorityDecision
decided (ok d) = d
decided (err e) = record {
  disposition = violation;
  reason = identity_mismatch;
  evidence = end;
  target = none;
  cause = none;
}

abbrev pub decision_at : CheckKind → ℤ → AuthorityDecision
decision_at kind tick = decided (check_authority sample_hash sample_grant (request_at kind tick))

pub granted :
    check_authority sample_hash sample_grant (request_at authorize (pos 10))
    ≡ ok (decision_at authorize (pos 10))
unfolding check_runs
granted = refl

pub stopped :
    check_authority sample_hash sample_grant (request_at passive_pre_dispatch (pos 11))
    ≡ ok (decision_at passive_pre_dispatch (pos 11))
unfolding check_runs
stopped = refl

pub denied :
    check_authority sample_hash sample_grant (request_at authorize (pos 11))
    ≡ ok (decision_at authorize (pos 11))
unfolding check_runs
denied = refl

-- What the two checks work with.
unfoldable pub checked :
    (kind : CheckKind) (tick : ℤ)
    (is : revalidated_request (request_at kind tick) ≡ ok (request_at kind tick))
    → Checked sample_hash sample_grant (request_at kind tick)
unfolding check_runs
checked kind tick is = record {
  g = sample_grant;
  c = request_at kind tick;
  recomputed = sample_digest;
  given = codes "{\"amount\":5}";
  permitted = codes "{\"amount\":5}";
  is_grant = refl;
  is_request = is;
  is_digest = refl;
  is_given = refl;
  is_permitted = refl;
}

pub early : revalidated_request (request_at authorize (pos 10)) ≡ ok (request_at authorize (pos 10))
unfolding check_runs
early = refl

pub late :
    revalidated_request (request_at passive_pre_dispatch (pos 11))
    ≡ ok (request_at passive_pre_dispatch (pos 11))
unfolding check_runs
late = refl

pub later : revalidated_request (request_at authorize (pos 11)) ≡ ok (request_at authorize (pos 11))
unfolding check_runs
later = refl

pub violation_at : (decision_at authorize (pos 11)).disposition ≡ violation
unfolding check_runs
violation_at = refl

pub target_at : (decision_at authorize (pos 10)).target ≡ some OperationState.authorized
unfolding check_runs
target_at = refl

pub cause_at : (decision_at authorize (pos 10)).cause ≡ some authority_confirmed
unfolding check_runs
cause_at = refl
