-- ===== src/Authority/Validity.antt =====
-- What the validators that `check_authority` (src/side_effects_lab/authority.py) runs first establish of the
-- grant, the request and the digest.
use side_effects_lab.Prelude.{String, true, ◌≡◌, inl, inr, subst, arith, Bool-cases}
use side_effects_lab.Prelude.Int.{ℤ}
use side_effects_lab.Prelude.Result.{
  bind_ok, ok_injective, require_then, Result, ok, validation_error, value_error, ◌>>◌,
}
use side_effects_lab.Text.{Text, codes}
use side_effects_lab.Models.Identifiers.{
  is_action_id, is_operation_key, is_authority_id, is_subject_id, is_service_name,
  is_operation_name, is_digest,
}
use side_effects_lab.Models.Values.{Value, frozen_map, parameter_map}
use side_effects_lab.Canonical.Json.{canonical_json_bytes, canonical_digest}
use side_effects_lab.StateMachine.Types.{OperationIdentity, operation_identity}
use side_effects_lab.Authority.Types.{
  AuthorityGrant, AuthorityCheck, is_non_negative, is_positive, is_optional, validated_count,
  authority_check, revalidated_grant, revalidated_identity, revalidated_original,
  revalidated_request, semantic_intent,
}
use side_effects_lab.Authority.Decides.{Checked}
use side_effects_lab.Authority.Delivery.{Validated}

-- What validation establishes of a grant and of a request.
record ValidGrant (g : AuthorityGrant) : Type 0 where
  authority : is_authority_id (codes g.authority_id) ≡ true
  digest : is_digest (codes g.semantic_intent_digest) ≡ true
  expiry : is_non_negative g.expires_at_tick ≡ true
  maximum : is_positive g.max_effects ≡ true

grant-ValidGrant : (grant g : AuthorityGrant) → revalidated_grant grant ≡ ok g → ValidGrant g
unfolding revalidated_grant
grant-ValidGrant grant g h =
    let (authority, h1) =
      require_then (is_authority_id (codes grant.authority_id)) validation_error _ g h in
    let (subject, h2) =
      require_then (is_subject_id (codes grant.subject_id)) validation_error _ g h1 in
    let (service, h3) =
      require_then (is_service_name (codes grant.service)) validation_error _ g h2 in
    let (operation, h4) =
      require_then (is_operation_name (codes grant.operation)) validation_error _ g h3 in
    let (digest, h5) =
      require_then (is_digest (codes grant.semantic_intent_digest)) validation_error _ g h4 in
    let (parameters, accepted, h6) =
      bind_ok (parameter_map (frozen_map grant.allowed_parameters)) _ g h5 in
    let (expiry, h7) =
      require_then (is_non_negative grant.expires_at_tick) validation_error _ g h6 in
    let (maximum, h8) = require_then (is_positive grant.max_effects) validation_error _ g h7 in
    let (compensation, h9) =
      require_then (is_optional is_action_id grant.allowed_compensation) validation_error _ g h8 in
    subst ValidGrant (ok_injective (record grant { allowed_parameters = parameters }) g h9)
      (record { authority = authority; digest = digest; expiry = expiry; maximum = maximum })

record ValidIdentity (i : OperationIdentity) : Type 0 where
  action : is_action_id (codes i.action_id) ≡ true
  key : is_operation_key (codes i.operation_key) ≡ true
  digest : is_digest (codes i.intent_digest) ≡ true
  authority : is_authority_id (codes i.authority_id) ≡ true

identity-ValidIdentity : (i j : OperationIdentity) → revalidated_identity i ≡ ok j → ValidIdentity j
unfolding revalidated_identity operation_identity
identity-ValidIdentity i j h =
    let (action, h1) = require_then _ validation_error _ j h in
    let (key, h2) = require_then _ validation_error _ j h1 in
    let (digest, h3) = require_then _ validation_error _ j h2 in
    let (authority, h4) = require_then _ validation_error _ j h3 in
    subst ValidIdentity (ok_injective _ j h4)
      (record { action = action; key = key; digest = digest; authority = authority })

record ValidRequest (c : AuthorityCheck) : Type 0 where
  candidate : ValidIdentity c.candidate
  tick : is_non_negative c.current_tick ≡ true
  count : is_non_negative c.committed_effect_count ≡ true

count_ok :
    (n : ℤ) {A : Type 0} (rest : Result A) (a : A)
    → (validated_count n >> rest) ≡ ok a
    → (is_non_negative n ≡ true) × (rest ≡ ok a)
unfolding validated_count
count_ok n rest a h = elim (Bool-cases (is_non_negative n)) [
  | inl valid ↦ (valid, ground arith)
  | inr invalid ↦ ground arith
]

check-ValidRequest :
    (a c : AuthorityCheck) → ValidIdentity a.candidate → authority_check a ≡ ok c → ValidRequest c
unfolding authority_check
check-ValidRequest a c valid h =
    let (subject, h1) = require_then _ validation_error _ c h in
    let (tick, h2) = count_ok a.current_tick _ c h1 in
    let (count, h3) = count_ok a.committed_effect_count _ c h2 in
    let (original, h4) = require_then _ value_error _ c h3 in
    let (reads, h5) = require_then _ value_error _ c h4 in
    subst ValidRequest (ok_injective a c h5)
      (record { candidate = valid; tick = tick; count = count })

request-ValidRequest :
    (request c : AuthorityCheck) → revalidated_request request ≡ ok c → ValidRequest c
unfolding revalidated_request
request-ValidRequest request c h =
    let (candidate, is, h1) = bind_ok (revalidated_identity request.candidate) _ c h in
    let (confirmed, is2, h2) = bind_ok (revalidated_identity request.confirmed) _ c h1 in
    let (intent, is3, h3) = bind_ok (semantic_intent request.intent) _ c h2 in
    let (original, is4, h4) = bind_ok (revalidated_original request.original_grant) _ c h3 in
    check-ValidRequest _ c (identity-ValidIdentity request.candidate candidate is) h4

digest_ok :
    (hexdigest : Text → String) (v : Value) (s : String)
    → canonical_digest hexdigest v ≡ ok s
    → is_digest (codes s) ≡ true
unfolding canonical_digest
digest_ok hexdigest v s h =
    let (bytes, is, h1) = bind_ok (canonical_json_bytes v) _ s h in
    let (valid, h2) = require_then _ validation_error _ s h1 in
    subst (λ x. is_digest (codes x) ≡ true) (ok_injective _ s h2) valid

pub Checked-Validated :
    {hexdigest : Text → String} {grant : AuthorityGrant} {request : AuthorityCheck}
    (k : Checked hexdigest grant request)
    → Validated k.g k.c k.recomputed
Checked-Validated {hexdigest = hexdigest} {grant = grant} {request = request} k =
    let g = grant-ValidGrant grant k.g k.is_grant in
    let c = request-ValidRequest request k.c k.is_request in
    record {
      action = c.candidate.action;
      key = c.candidate.key;
      digest = c.candidate.digest;
      authority = c.candidate.authority;
      grant_authority = g.authority;
      grant_digest = g.digest;
      recomputed_digest = digest_ok hexdigest _ k.recomputed k.is_digest;
      tick = c.tick;
      expiry = g.expiry;
      count = c.count;
      maximum = g.maximum;
    }
