-- ===== src/Authority/Delivery.antt =====
-- The evidence of `check_authority` (src/side_effects_lab/authority.py) as a whole, against the validation
-- of maps and against the constructor of the decision.
use side_effects_lab.Prelude.{String, true, ◌&&◌, some, ◌≡◌, refl, ap, All, all}
use side_effects_lab.Prelude.Result.{ok}
use side_effects_lab.Text.{codes}
use side_effects_lab.Text.Equality.{text_eq, text_eq_iff}
use side_effects_lab.Models.Identifiers.{
  is_action_id, is_operation_key, is_authority_id, is_digest, is_parameter_name,
}
use side_effects_lab.Models.Schemes.{
  action_id_no_url, operation_key_no_url, authority_id_no_url, digest_no_url,
}
use side_effects_lab.Models.Values.{
  dict, Fields, freeze_fields, fields_canonical, fields_free_of_urls, keys_are_names, parameter_map,
}
use side_effects_lab.Models.Freezing.{parameter_map_iff}
use side_effects_lab.Authority.Types.{
  AuthorityGrant, AuthorityCheck, is_non_negative, is_positive, kind_value, disposition_value,
  reason_value,
}
use side_effects_lab.Authority.Evidence.{
  is_text, evidence_keys, field_of, validated_evidence_field, has_field, keys_known,
}
use side_effects_lab.Authority.Decision.{validated_evidence}
use side_effects_lab.Authority.Check.{Facts, Verdict, payload, optional_bool_value}
use side_effects_lab.Authority.Payload.{Holds, kept, rebuilt-kept, kept-accepted}
use side_effects_lab.Authority.Entries.{
  text_entry, word_entry, flag_entry, count_entry, kind_accepted, disposition_accepted,
  reason_accepted, kind_no_url, disposition_no_url, reason_no_url, count_accepted, maximum_accepted,
  optional_accepted, optional-IsPlain, optional_frozen,
}

-- What the validators have established of the values that go into the evidence.
pub record Validated (g : AuthorityGrant) (c : AuthorityCheck) (recomputed : String) : Type 0 where
  pub action : is_action_id (codes c.candidate.action_id) ≡ true
  pub key : is_operation_key (codes c.candidate.operation_key) ≡ true
  pub digest : is_digest (codes c.candidate.intent_digest) ≡ true
  pub authority : is_authority_id (codes c.candidate.authority_id) ≡ true
  pub grant_authority : is_authority_id (codes g.authority_id) ≡ true
  pub grant_digest : is_digest (codes g.semantic_intent_digest) ≡ true
  pub recomputed_digest : is_digest (codes recomputed) ≡ true
  pub tick : is_non_negative c.current_tick ≡ true
  pub expiry : is_non_negative g.expires_at_tick ≡ true
  pub count : is_non_negative c.committed_effect_count ≡ true
  pub maximum : is_positive g.max_effects ≡ true

module _ (g : AuthorityGrant) (c : AuthorityCheck) (recomputed : String) (f : Facts) (v : Verdict)
    (h : Validated g c recomputed) where
  abbrev evidence : Fields
  evidence = freeze_fields (payload g c recomputed f v)

  optional_entry : Holds evidence (codes "compensation_authorized")
  unfolding freeze_fields payload field_of is_parameter_name text_eq
  optional_entry = record {
    value = optional_bool_value f.compensation_authorized;
    is_held = ap some (optional_frozen f.compensation_authorized);
    is_accepted = optional_accepted f.compensation_authorized;
    is_plain = optional-IsPlain f.compensation_authorized;
    is_name = refl;
  }

  -- One more entry before the others.
  infixr 5 ◌▹◌
  abbrev ◌▹◌ : {A B : Type 0} → A → B → A × B
  first ▹ others = (first, others)

  evidence-Holds : All (Holds evidence) evidence_keys
  unfolding freeze_fields payload field_of validated_evidence_field is_parameter_name word_entry
  evidence-Holds =
      text_entry evidence is_action_id action_id_no_url (codes "action_id")
        (codes c.candidate.action_id) h.action refl refl refl
      ▹ text_entry evidence is_authority_id authority_id_no_url (codes "authority_id")
          (codes c.candidate.authority_id) h.authority refl refl refl
      ▹ flag_entry evidence (codes "authority_id_match") f.authority_id_match refl refl refl
      ▹ text_entry evidence is_digest digest_no_url (codes "candidate_intent_digest")
          (codes c.candidate.intent_digest) h.digest refl refl refl
      ▹ flag_entry evidence (codes "cardinality_valid") f.cardinality_valid refl refl refl
      ▹ word_entry evidence (codes "check_kind") (codes (kind_value c.kind)) (kind_accepted c.kind)
          (kind_no_url c.kind) refl refl
      ▹ count_entry evidence (codes "checked_tick") c.current_tick
          (count_accepted c.current_tick h.tick) refl refl
      ▹ count_entry evidence (codes "committed_effect_count") c.committed_effect_count
          (count_accepted c.committed_effect_count h.count) refl refl
      ▹ optional_entry
      ▹ flag_entry evidence (codes "compensation_claimed") f.compensation_claimed refl refl refl
      ▹ word_entry evidence (codes "disposition") (codes (disposition_value v.disposition))
          (disposition_accepted v.disposition) (disposition_no_url v.disposition) refl refl
      ▹ count_entry evidence (codes "expires_at_tick") g.expires_at_tick
          (count_accepted g.expires_at_tick h.expiry) refl refl
      ▹ text_entry evidence is_authority_id authority_id_no_url (codes "grant_authority_id")
          (codes g.authority_id) h.grant_authority refl refl refl
      ▹ text_entry evidence is_digest digest_no_url (codes "grant_intent_digest")
          (codes g.semantic_intent_digest) h.grant_digest refl refl refl
      ▹ flag_entry evidence (codes "identity_confirmed") f.identity_confirmed refl refl refl
      ▹ flag_entry evidence (codes "intent_digest_match") f.intent_digest_match refl refl refl
      ▹ count_entry evidence (codes "max_effects") g.max_effects
          (maximum_accepted g.max_effects h.maximum) refl refl
      ▹ text_entry evidence is_operation_key operation_key_no_url (codes "operation_key")
          (codes c.candidate.operation_key) h.key refl refl refl
      ▹ flag_entry evidence (codes "operation_match") f.operation_match refl refl refl
      ▹ flag_entry evidence (codes "parameters_match") f.parameters_match refl refl refl
      ▹ word_entry evidence (codes "reason") (codes (reason_value v.reason))
          (reason_accepted v.reason) (reason_no_url v.reason) refl refl
      ▹ text_entry evidence is_digest digest_no_url (codes "recomputed_intent_digest")
          (codes recomputed) h.recomputed_digest refl refl refl
      ▹ flag_entry evidence (codes "service_match") f.service_match refl refl refl
      ▹ flag_entry evidence (codes "subject_match") f.subject_match refl refl refl
      ▹ flag_entry evidence (codes "tick_valid") f.tick_valid refl refl refl
      ▹ tt

  payload_fits :
      (keys_are_names (payload g c recomputed f v) ≡ true)
      × (fields_canonical (payload g c recomputed f v) ≡ true)
      × (fields_free_of_urls (payload g c recomputed f v) ≡ true)
  unfolding payload keys_are_names fields_canonical fields_free_of_urls is_parameter_name
  payload_fits = (
    refl,
    rw ((optional-IsPlain f.compensation_authorized).canonical),
    rw
        (
          action_id_no_url (codes c.candidate.action_id) h.action,
          operation_key_no_url (codes c.candidate.operation_key) h.key,
          authority_id_no_url (codes c.candidate.authority_id) h.authority,
          authority_id_no_url (codes g.authority_id) h.grant_authority,
          kind_no_url c.kind,
          disposition_no_url v.disposition,
          reason_no_url v.reason,
          digest_no_url (codes c.candidate.intent_digest) h.digest,
          digest_no_url (codes g.semantic_intent_digest) h.grant_digest,
          digest_no_url (codes recomputed) h.recomputed_digest,
          (optional-IsPlain f.compensation_authorized).free,
        )
        refl,
  )

  pub payload_accepted : parameter_map (dict (payload g c recomputed f v)) ≡ ok evidence
  payload_accepted =
      let (names, canonical, free) = payload_fits in
      (parameter_map_iff (payload g c recomputed f v) evidence).1 (names, canonical, free, refl)

  abbrev checked_evidence : Fields
  checked_evidence = kept evidence evidence_keys evidence-Holds

  names_disposition :
      is_text
        (field_of (codes "disposition") checked_evidence)
        (codes (disposition_value v.disposition))
      ≡ true
  unfolding evidence-Holds field_of is_text word_entry text_entry flag_entry count_entry
      optional_entry
  names_disposition =
      (text_eq_iff (codes (disposition_value v.disposition))
          (codes (disposition_value v.disposition))).1
        refl

  names_reason :
      is_text (field_of (codes "reason") checked_evidence) (codes (reason_value v.reason)) ≡ true
  unfolding evidence-Holds field_of is_text word_entry text_entry flag_entry count_entry
      optional_entry
  names_reason =
      (text_eq_iff (codes (reason_value v.reason)) (codes (reason_value v.reason))).1 refl

  keys_exact : (keys_known evidence && all (λ k. has_field k evidence) evidence_keys) ≡ true
  unfolding keys_known has_field freeze_fields payload text_eq
  keys_exact = refl

  checked_accepted : parameter_map (dict checked_evidence) ≡ ok (freeze_fields checked_evidence)
  checked_accepted =
      let (names, canonical, free) = kept-accepted evidence evidence_keys evidence-Holds in
      (parameter_map_iff checked_evidence (freeze_fields checked_evidence)).1
        (names, canonical, free, refl)

  -- The evidence is accepted by the constructor of the decision.
  pub evidence_accepted :
      (fs : Fields) × (validated_evidence v.disposition v.reason evidence ≡ ok fs)
  unfolding validated_evidence
  evidence_accepted = (
    freeze_fields checked_evidence,
    rw
        (
          keys_exact,
          rebuilt-kept evidence evidence_keys evidence-Holds,
          names_disposition,
          names_reason,
          checked_accepted,
        )
        refl,
  )
