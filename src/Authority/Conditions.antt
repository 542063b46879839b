-- ===== src/Authority/Conditions.antt =====
-- Which conditions hold when `check_authority` (src/side_effects_lab/authority.py) finds no defect, and
-- when it finds expiry only.
use side_effects_lab.Prelude.{
  String, true, false, none, some, List, [], ◌∷◌, ◌++◌, ◌≡◌, ◌≢◌, ◌↔◌, inl, inr, arith, Bool-cases,
  All, All-append, str_eq, eq_iff, and_parts,
}
use side_effects_lab.Text.{Text}
use side_effects_lab.Text.Equality.{text_eq_iff}
use side_effects_lab.Authority.Types.{
  AuthorityReason, identity_mismatch, authority_id_mismatch, subject_mismatch, service_mismatch,
  operation_mismatch, intent_digest_mismatch, parameters_mismatch, compensation_not_authorized,
  cardinality_exceeded, auth_expired, AuthorityGrant, AuthorityCheck, reason_precedence,
}
use side_effects_lab.Authority.Check.{Facts, facts, is_defect, first_defect}
use side_effects_lab.Authority.Precedence.{
  Clear, Clear-parts, first_defect_last, first_defect-Clear, first_defect-split,
}
use side_effects_lab.Authority.Grants.{
  Matches, WithinEffects, InTime, confirms_iff, claim_iff, limit_iff,
}

-- The reasons that come before the two limits.
abbrev matching_reasons : List AuthorityReason
matching_reasons =
    identity_mismatch ∷ authority_id_mismatch ∷ subject_mismatch ∷ service_mismatch
    ∷ operation_mismatch ∷ intent_digest_mismatch ∷ parameters_mismatch
    ∷ compensation_not_authorized ∷ []

abbrev limited_reasons : List AuthorityReason
limited_reasons = matching_reasons ++ cardinality_exceeded ∷ []

differ : All (λ q. q ≢ auth_expired) limited_reasons
differ = (
  (λ e. cc),
  (
    (λ e. cc),
    ((λ e. cc), ((λ e. cc), ((λ e. cc), ((λ e. cc), ((λ e. cc), ((λ e. cc), ((λ e. cc), tt))))))),
  ),
)

module _ (g : AuthorityGrant) (c : AuthorityCheck) (recomputed : String)
    (given permitted : Text) where
  abbrev found : Facts
  found = facts g c recomputed given permitted

  Clear-Matches : Clear c.kind found matching_reasons → Matches g c recomputed given permitted
  unfolding facts is_defect
  Clear-Matches (i, (a, (s, (v, (o, (d, (p, (k, _)))))))) =
      let (candidate, grant) =
        and_parts (str_eq recomputed c.candidate.intent_digest)
          (str_eq recomputed g.semantic_intent_digest) (ground arith) in
      record {
        same_identity = (confirms_iff c.candidate c.confirmed).0 (ground arith);
        same_authority = (eq_iff c.candidate.authority_id g.authority_id).0 (ground arith);
        same_subject = (eq_iff c.subject_id g.subject_id).0 (ground arith);
        same_service = (eq_iff c.intent.service g.service).0 (ground arith);
        same_operation = (eq_iff c.intent.operation g.operation).0 (ground arith);
        candidate_digest = (eq_iff recomputed c.candidate.intent_digest).0 candidate;
        grant_digest = (eq_iff recomputed g.semantic_intent_digest).0 grant;
        same_parameters = (text_eq_iff given permitted).0 (ground arith);
        compensates = (claim_iff g c).0 k;
      }

  Matches-Clear : Matches g c recomputed given permitted → Clear c.kind found matching_reasons
  unfolding facts is_defect
  Matches-Clear m = (
    ground (arith, (confirms_iff c.candidate c.confirmed).1 m.same_identity),
    (
      ground (arith, (eq_iff c.candidate.authority_id g.authority_id).1 m.same_authority),
      (
        ground (arith, (eq_iff c.subject_id g.subject_id).1 m.same_subject),
        (
          ground (arith, (eq_iff c.intent.service g.service).1 m.same_service),
          (
            ground (arith, (eq_iff c.intent.operation g.operation).1 m.same_operation),
            (
              ground (
                arith,
                (eq_iff recomputed c.candidate.intent_digest).1 m.candidate_digest,
                (eq_iff recomputed g.semantic_intent_digest).1 m.grant_digest,
              ),
              (
                ground (arith, (text_eq_iff given permitted).1 m.same_parameters),
                ((claim_iff g c).1 m.compensates, tt),
              ),
            ),
          ),
        ),
      ),
    ),
  )

  effects_iff : (is_defect c.kind found cardinality_exceeded ≡ false) ↔ WithinEffects g c
  unfolding facts is_defect
  effects_iff = limit_iff c.kind _

  time_iff : (is_defect c.kind found auth_expired ≡ false) ↔ InTime g c
  unfolding facts is_defect
  time_iff = limit_iff c.kind _

  limits_iff :
      Clear c.kind found (matching_reasons ++ cardinality_exceeded ∷ [])
      ↔ (Matches g c recomputed given permitted × WithinEffects g c)
  limits_iff = (
    λ h.
        (let (m, (e, _)) =
            Clear-parts c.kind found matching_reasons (cardinality_exceeded ∷ []) h in
          (Clear-Matches m, effects_iff.0 e)),
    λ (m, e).
        All-append (λ r. is_defect c.kind found r ≡ false) matching_reasons
          (cardinality_exceeded ∷ []) (Matches-Clear m) (effects_iff.1 e, tt),
  )

  -- No defect is found exactly when the grant matches the request and both limits are kept.
  pub none_iff :
      (first_defect c.kind found reason_precedence ≡ none)
      ↔ ((Matches g c recomputed given permitted × WithinEffects g c) × InTime g c)
  unfolding reason_precedence
  none_iff =
      let all = first_defect-Clear c.kind found (limited_reasons ++ auth_expired ∷ []) in
      (
        λ h.
            (let (ms, (t, _)) =
                Clear-parts c.kind found limited_reasons (auth_expired ∷ []) (all.0 h) in
              (limits_iff.0 ms, time_iff.0 t)),
        λ (ms, t). all.1 (
            All-append (λ r. is_defect c.kind found r ≡ false) limited_reasons (auth_expired ∷ [])
              (limits_iff.1 ms) (time_iff.1 t, tt)),
      )

  late_iff : (is_defect c.kind found auth_expired ≡ true) ↔ (¬ InTime g c)
  late_iff = (
    λ late t. cc (time_iff.1 t, late),
    λ late. elim (Bool-cases (is_defect c.kind found auth_expired)) [
      | inl expired ↦ expired
      | inr timely ↦ absurd (late (time_iff.0 timely))
    ],
  )

  -- Expiry wins exactly when the grant matches, the number of effects is kept and the time is not.
  pub expiry_iff :
      (first_defect c.kind found reason_precedence ≡ some auth_expired)
      ↔ ((Matches g c recomputed given permitted × WithinEffects g c) × (¬ InTime g c))
  unfolding reason_precedence
  expiry_iff = (
    λ h.
        (let (ms, late) = first_defect_last c.kind found auth_expired limited_reasons differ h in
          (limits_iff.0 ms, late_iff.0 late)),
    λ (ms, late).
        first_defect-split c.kind found auth_expired limited_reasons [] (limits_iff.1 ms)
          (late_iff.1 late),
  )
