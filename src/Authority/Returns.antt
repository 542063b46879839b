-- ===== src/Authority/Returns.antt =====
-- When `check_authority` of src/side_effects_lab/authority.py gives a decision.
use side_effects_lab.Prelude.{String, true, none, some, ◌≡◌, ◌↔◌, inl, inr, refl, ◌∙◌, Option-cases}
use side_effects_lab.Prelude.Result.{ok}
use side_effects_lab.Text.{Text}
use side_effects_lab.Authority.Types.{
  CheckKind, authorize, passive_pre_dispatch, pre_dispatch_write, redispatch, read_only,
  AuthorityReason, identity_mismatch, authority_id_mismatch, subject_mismatch, service_mismatch,
  operation_mismatch, intent_digest_mismatch, parameters_mismatch, compensation_not_authorized,
  cardinality_exceeded, auth_expired, authorized, revalidated, read_only_allowed, AuthorityGrant,
  AuthorityCheck, reason_precedence,
}
use side_effects_lab.Authority.Decision.{AuthorityDecision, authority_decision}
use side_effects_lab.Authority.Rows.{
  Defect, Row, Row-iff, authorizes, revalidates, reads, stops, denounces, identity, authority,
  subject, service, operation, intent, parameters, compensation, cardinality, expiry,
}
use side_effects_lab.Authority.Check.{
  Facts, is_defect, first_defect, Verdict, verdict, decide_with, check_authority,
}
use side_effects_lab.Authority.Precedence.{first_defect-First}
use side_effects_lab.Authority.Decides.{Checked, check_authority_made, check_authority-Checked}
use side_effects_lab.Authority.Validity.{Checked-Validated}
use side_effects_lab.Authority.Delivery.{Validated, payload_accepted, evidence_accepted}

is_defect-Defect :
    (k : CheckKind) (f : Facts) (r : AuthorityReason) → is_defect k f r ≡ true → Defect r
unfolding is_defect
is_defect-Defect k f identity_mismatch h = identity
is_defect-Defect k f authority_id_mismatch h = authority
is_defect-Defect k f subject_mismatch h = subject
is_defect-Defect k f service_mismatch h = service
is_defect-Defect k f operation_mismatch h = operation
is_defect-Defect k f intent_digest_mismatch h = intent
is_defect-Defect k f parameters_mismatch h = parameters
is_defect-Defect k f compensation_not_authorized h = compensation
is_defect-Defect k f cardinality_exceeded h = cardinality
is_defect-Defect k f auth_expired h = expiry
is_defect-Defect k f authorized h = cc
is_defect-Defect k f revalidated h = cc
is_defect-Defect k f read_only_allowed h = cc

abbrev RowOf : Verdict → Type 0
RowOf v = Row v.disposition v.reason v.target v.cause

allowed-Row : (k : CheckKind) → RowOf (verdict k none)
unfolding verdict
allowed-Row authorize = authorizes
allowed-Row passive_pre_dispatch = revalidates
allowed-Row pre_dispatch_write = revalidates
allowed-Row redispatch = revalidates
allowed-Row read_only = reads

passive-Row : (r : AuthorityReason) → Defect r → RowOf (verdict passive_pre_dispatch (some r))
unfolding verdict
passive-Row r identity = denounces identity
passive-Row r authority = denounces authority
passive-Row r subject = denounces subject
passive-Row r service = denounces service
passive-Row r operation = denounces operation
passive-Row r intent = denounces intent
passive-Row r parameters = denounces parameters
passive-Row r compensation = denounces compensation
passive-Row r cardinality = denounces cardinality
passive-Row r expiry = stops

Defect-Row : (k : CheckKind) (r : AuthorityReason) → Defect r → RowOf (verdict k (some r))
unfolding verdict
Defect-Row authorize r d = denounces d
Defect-Row passive_pre_dispatch r d = passive-Row r d
Defect-Row pre_dispatch_write r d = denounces d
Defect-Row redispatch r d = denounces d
Defect-Row read_only r d = denounces d

verdict-Row : (k : CheckKind) (f : Facts) → RowOf (verdict k (first_defect k f reason_precedence))
verdict-Row k f = elim (Option-cases (first_defect k f reason_precedence)) [
  | inl clear ↦ rw clear (allowed-Row k)
  | inr (r, found) ↦ rw found (
      Defect-Row k r
        (is_defect-Defect k f r ((first_defect-First k f r reason_precedence).0 found).is_found))
]

decide_with_made :
    (g : AuthorityGrant) (c : AuthorityCheck) (recomputed : String) (f : Facts) (v : Verdict)
    → Validated g c recomputed
    → RowOf v
    → (d : AuthorityDecision) × (decide_with g c recomputed f v ≡ ok d)
unfolding decide_with authority_decision
decide_with_made g c recomputed f v h row =
    let (evidence, is) = evidence_accepted g c recomputed f v h in
    let (permitted, fits) = (Row-iff v.disposition v.reason v.target v.cause).1 row in
    (
      record {
        disposition = v.disposition;
        reason = v.reason;
        evidence = evidence;
        target = v.target;
        cause = v.cause;
      },
      rw (payload_accepted g c recomputed f v h, permitted, fits, is) refl,
    )

-- `check_authority` gives a decision, and raises nothing, exactly when the grant and the request pass
-- their validators and the intent and the two parameter maps have canonical bytes, with a digest
-- that has the form of one: the evidence that it writes is always accepted, and so is the row.
pub check_authority-returns_iff :
    (hexdigest : Text → String) (grant : AuthorityGrant) (request : AuthorityCheck)
    → ((d : AuthorityDecision) × (check_authority hexdigest grant request ≡ ok d))
      ↔ Checked hexdigest grant request
check_authority-returns_iff hexdigest grant request = (
  (λ (d, h). check_authority-Checked hexdigest grant request d h),
  λ k.
      (let (d, h) =
          decide_with_made k.g k.c k.recomputed _ _ (Checked-Validated k)
            (verdict-Row k.c.kind _) in
        (d, check_authority_made hexdigest grant request k ∙ h)),
)
