-- ===== src/Authority/Decides.antt =====
-- What a decision of `check_authority` (src/side_effects_lab/authority.py) says about the grant and the
-- request that it was made from.
use side_effects_lab.Prelude.{String, Option, ◌≡◌, refl, sym, ◌∙◌, ap}
use side_effects_lab.Prelude.Result.{bind_ok, require_ok, ok_injective, ok, require, value_error}
use side_effects_lab.Text.{Text}
use side_effects_lab.Models.Values.{frozen_map, dict, parameter_map}
use side_effects_lab.Canonical.Json.{canonical_json_bytes, canonical_digest}
use side_effects_lab.Authority.Types.{
  AuthorityReason, AuthorityGrant, AuthorityCheck, intent_value, reason_precedence,
  revalidated_grant, revalidated_request,
}
use side_effects_lab.Authority.Decision.{
  AuthorityDecision, authority_decision, move_of, is_permitted, is_matrix_row, validated_evidence,
}
use side_effects_lab.Authority.Rows.{Row, Row-iff}
use side_effects_lab.Authority.Check.{
  Facts, facts, first_defect, Verdict, verdict, payload, decide_with, check_authority,
}

-- What `check_authority` works with once everything is revalidated: the copies of the grant and of the
-- request, the digest of the intent, and the canonical bytes of the two parameter maps.
pub record Checked (hexdigest : Text → String) (grant : AuthorityGrant) (request : AuthorityCheck)
    : Type 0 where
  pub g : AuthorityGrant
  pub c : AuthorityCheck
  pub recomputed : String
  pub given : Text
  pub permitted : Text
  pub is_grant : revalidated_grant grant ≡ ok g
  pub is_request : revalidated_request request ≡ ok c
  pub is_digest : canonical_digest hexdigest (intent_value c.intent) ≡ ok recomputed
  pub is_given : canonical_json_bytes (frozen_map c.intent.parameters) ≡ ok given
  pub is_permitted : canonical_json_bytes (frozen_map g.allowed_parameters) ≡ ok permitted

abbrev pub winning :
    {h : Text → String} {grant : AuthorityGrant} {request : AuthorityCheck}
    → Checked h grant request
    → Option AuthorityReason
winning k = first_defect k.c.kind (facts k.g k.c k.recomputed k.given k.permitted) reason_precedence

pub check_authority-Checked :
    (hexdigest : Text → String) (grant : AuthorityGrant) (request : AuthorityCheck)
    (d : AuthorityDecision)
    → check_authority hexdigest grant request ≡ ok d
    → Checked hexdigest grant request
unfolding check_authority
check_authority-Checked hexdigest grant request d h =
    let (g, is_g, h1) = bind_ok (revalidated_grant grant) _ d h in
    let (c, is_c, h2) = bind_ok (revalidated_request request) _ d h1 in
    let (r, is_r, h3) = bind_ok (canonical_digest hexdigest (intent_value c.intent)) _ d h2 in
    let (x, is_x, h4) = bind_ok (canonical_json_bytes (frozen_map c.intent.parameters)) _ d h3 in
    let (y, is_y, h5) = bind_ok (canonical_json_bytes (frozen_map g.allowed_parameters)) _ d h4 in
    record {
      g = g;
      c = c;
      recomputed = r;
      given = x;
      permitted = y;
      is_grant = is_g;
      is_request = is_c;
      is_digest = is_r;
      is_given = is_x;
      is_permitted = is_y;
    }

pub check_authority_made :
    (hexdigest : Text → String) (grant : AuthorityGrant) (request : AuthorityCheck)
    (k : Checked hexdigest grant request)
    → check_authority hexdigest grant request
      ≡ decide_with k.g k.c k.recomputed
          (facts k.g k.c k.recomputed k.given k.permitted)
          (verdict k.c.kind (winning k))
unfolding check_authority
check_authority_made hexdigest grant request k =
    rw k.is_grant (rw k.is_request (rw k.is_digest (rw k.is_given (rw k.is_permitted refl))))

-- The parts of the decision that its constructor keeps.
abbrev pub Keeps : Verdict → AuthorityDecision → Type 0
Keeps v d =
    (d.disposition ≡ v.disposition)
    × (d.reason ≡ v.reason)
    × (d.target ≡ v.target)
    × (d.cause ≡ v.cause)

abbrev verdict_of : AuthorityDecision → Verdict
verdict_of a = record {
  disposition = a.disposition;
  reason = a.reason;
  target = a.target;
  cause = a.cause;
}

authority_decision-Keeps :
    (a d : AuthorityDecision)
    → authority_decision a ≡ ok d
    → Keeps (verdict_of a) d × Row a.disposition a.reason a.target a.cause
unfolding authority_decision
authority_decision-Keeps a d h =
    let (u, permitted, h1) =
      bind_ok (require (is_permitted (move_of a.target a.cause)) value_error) _ d h in
    let (w, row, h2) =
      bind_ok
        (require (is_matrix_row a.disposition a.reason (move_of a.target a.cause)) value_error) _ d
        h1 in
    let (f, evidence, h3) = bind_ok (validated_evidence a.disposition a.reason a.evidence) _ d h2 in
    let same = sym (ok_injective _ d h3) in
    (
      (
        ap (λ x. x.disposition) same,
        ap (λ x. x.reason) same,
        ap (λ x. x.target) same,
        ap (λ x. x.cause) same,
      ),
      (Row-iff a.disposition a.reason a.target a.cause).0
          (require_ok _ _ u permitted, require_ok _ _ w row),
    )

pub decide_with-Keeps :
    (g : AuthorityGrant) (c : AuthorityCheck) (r : String) (f : Facts) (v : Verdict)
    (d : AuthorityDecision)
    → decide_with g c r f v ≡ ok d
    → Keeps v d × Row v.disposition v.reason v.target v.cause
unfolding decide_with
decide_with-Keeps g c r f v d h =
    let (evidence, is, made) = bind_ok (parameter_map (dict (payload g c r f v))) _ d h in
    authority_decision-Keeps _ d made

module _ (hexdigest : Text → String) (grant : AuthorityGrant) (request : AuthorityCheck)
    (d : AuthorityDecision) where
  pub decision-Keeps :
      (k : Checked hexdigest grant request)
      → check_authority hexdigest grant request ≡ ok d
      → Keeps (verdict k.c.kind (winning k)) d
  decision-Keeps k h =
      (decide_with-Keeps k.g k.c k.recomputed _ _ d
        (sym (check_authority_made hexdigest grant request k) ∙ h)).0
