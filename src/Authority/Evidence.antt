-- ===== src/Authority/Evidence.antt =====
-- The evidence contract of src/side_effects_lab/authority.py: its keys, and the check of one field.
use side_effects_lab.Prelude.{
  zero, Bool, true, false, ◌&&◌, ◌||◌, Option, none, some, List, [], ◌∷◌, map, if◌then◌else◌,
}
use side_effects_lab.Prelude.Int.{ℤ, pos}
use side_effects_lab.Prelude.Result.{
  Result, ok, err, validation_error, value_error, type_error, ◌>>=◌,
}
use side_effects_lab.Text.{Text, codes}
use side_effects_lab.Text.Equality.{text_eq}
use side_effects_lab.Models.Identifiers.{is_action_id, is_operation_key, is_authority_id, is_digest}
use side_effects_lab.Models.Values.{Value, null, bool, int, str, Fields, end, field, odd_field}
use side_effects_lab.Authority.Types.{
  authorize, passive_pre_dispatch, pre_dispatch_write, redispatch, read_only, kind_value, allow,
  safe_stop, violation, disposition_value, identity_mismatch, authority_id_mismatch,
  subject_mismatch, service_mismatch, operation_mismatch, intent_digest_mismatch,
  parameters_mismatch, compensation_not_authorized, cardinality_exceeded, auth_expired, authorized,
  revalidated, read_only_allowed, reason_value, is_non_negative,
}

-- _EVIDENCE_KEYS
abbrev pub evidence_keys : List Text
evidence_keys =
    codes "action_id"
    ∷ codes "authority_id"
    ∷ codes "authority_id_match"
    ∷ codes "candidate_intent_digest"
    ∷ codes "cardinality_valid"
    ∷ codes "check_kind"
    ∷ codes "checked_tick"
    ∷ codes "committed_effect_count"
    ∷ codes "compensation_authorized"
    ∷ codes "compensation_claimed"
    ∷ codes "disposition"
    ∷ codes "expires_at_tick"
    ∷ codes "grant_authority_id"
    ∷ codes "grant_intent_digest"
    ∷ codes "identity_confirmed"
    ∷ codes "intent_digest_match"
    ∷ codes "max_effects"
    ∷ codes "operation_key"
    ∷ codes "operation_match"
    ∷ codes "parameters_match"
    ∷ codes "reason"
    ∷ codes "recomputed_intent_digest"
    ∷ codes "service_match"
    ∷ codes "subject_match"
    ∷ codes "tick_valid"
    ∷ []

-- `dict.get`
unfoldable pub assoc : {A : Type 0} → Text → List (Text × A) → Option A
assoc k [] = none
assoc k ((j, a) ∷ rest) = if text_eq j k then some a else assoc k rest

-- `in`
unfoldable pub text_mem : Text → List Text → Bool
text_mem k [] = false
text_mem k (j ∷ js) = text_eq j k || text_mem k js

-- _EVIDENCE_STRING_ADAPTERS
unfoldable pub evidence_string_adapters : List (Text × (Text → Bool))
evidence_string_adapters =
    (codes "action_id", is_action_id)
    ∷ (codes "operation_key", is_operation_key)
    ∷ (codes "authority_id", is_authority_id)
    ∷ (codes "grant_authority_id", is_authority_id)
    ∷ (codes "candidate_intent_digest", is_digest)
    ∷ (codes "grant_intent_digest", is_digest)
    ∷ (codes "recomputed_intent_digest", is_digest)
    ∷ []

-- _EVIDENCE_VOCABULARIES
unfoldable pub evidence_vocabularies : List (Text × List Text)
unfolding kind_value disposition_value reason_value
evidence_vocabularies =
    (
      codes "check_kind",
      map (λ k. codes (kind_value k))
          (authorize ∷ passive_pre_dispatch ∷ pre_dispatch_write ∷ redispatch ∷ read_only ∷ []),
    )
    ∷ (
      codes "disposition",
      map (λ d. codes (disposition_value d)) (allow ∷ safe_stop ∷ violation ∷ []),
    )
    ∷ (
      codes "reason",
      map (λ r. codes (reason_value r))
          (identity_mismatch ∷ authority_id_mismatch ∷ subject_mismatch ∷ service_mismatch
            ∷ operation_mismatch ∷ intent_digest_mismatch ∷ parameters_mismatch
            ∷ compensation_not_authorized ∷ cardinality_exceeded ∷ auth_expired ∷ authorized
            ∷ revalidated ∷ read_only_allowed ∷ []),
    )
    ∷ []

-- _EVIDENCE_COUNT_KEYS
unfoldable pub evidence_count_keys : List Text
evidence_count_keys =
    codes "checked_tick"
    ∷ codes "committed_effect_count"
    ∷ codes "expires_at_tick"
    ∷ codes "max_effects"
    ∷ []

-- _EVIDENCE_BOOL_KEYS
unfoldable pub evidence_bool_keys : List Text
evidence_bool_keys =
    codes "authority_id_match"
    ∷ codes "cardinality_valid"
    ∷ codes "compensation_claimed"
    ∷ codes "identity_confirmed"
    ∷ codes "intent_digest_match"
    ∷ codes "operation_match"
    ∷ codes "parameters_match"
    ∷ codes "service_match"
    ∷ codes "subject_match"
    ∷ codes "tick_valid"
    ∷ []

unfoldable pub adapted : (Text → Bool) → Value → Result Value
adapted valid (str s) = if valid s then ok (str s) else err validation_error
adapted valid _ = err type_error

unfoldable pub from_vocabulary : List Text → Value → Result Value
unfolding text_mem
from_vocabulary words (str s) = if text_mem s words then ok (str s) else err value_error
from_vocabulary words _ = err value_error

-- `_validated_count` of an evidence value.
unfoldable pub evidence_count : Value → Result ℤ
evidence_count (int n) = if is_non_negative n then ok n else err value_error
evidence_count _ = err type_error

-- `max_effects` has to be positive.
unfoldable pub counted : Bool → ℤ → Result Value
counted true (pos zero) = err value_error
counted _ n = ok (int n)

unfoldable pub strict_bool : Value → Result Value
strict_bool (bool b) = ok (bool b)
strict_bool _ = err type_error

unfoldable pub optional_bool : Value → Result Value
unfolding strict_bool
optional_bool null = ok null
optional_bool v = strict_bool v

-- `_validated_evidence_field`
unfoldable pub validated_evidence_field : Text → Value → Result Value
unfolding assoc text_mem text_eq evidence_string_adapters evidence_vocabularies evidence_count_keys
    evidence_bool_keys adapted from_vocabulary evidence_count counted strict_bool optional_bool
validated_evidence_field key value = elim (assoc key evidence_string_adapters) [
  | some valid ↦ adapted valid value
  | none ↦ elim (assoc key evidence_vocabularies) [
    | some words ↦ from_vocabulary words value
    | none ↦
        if text_mem key evidence_count_keys
        then evidence_count value >>= counted (text_eq key (codes "max_effects"))
        else if text_mem key evidence_bool_keys
        then strict_bool value
        else optional_bool value
  ]
]

-- `evidence[key]`
unfoldable pub field_of : Text → Fields → Option Value
field_of k end = none
field_of k (field j v fs) = if text_eq j k then some v else field_of k fs
field_of k (odd_field v fs) = field_of k fs

-- Each key of the evidence is one of the contract.
unfoldable pub keys_known : Fields → Bool
unfolding text_mem
keys_known end = true
keys_known (field k v fs) = text_mem k evidence_keys && keys_known fs
keys_known (odd_field v fs) = false

unfoldable pub has_field : Text → Fields → Bool
has_field k end = false
has_field k (field j v fs) = text_eq j k || has_field k fs
has_field k (odd_field v fs) = has_field k fs

-- The dict comprehension over the keys; each is there, so the look-up does not fail.
unfoldable pub rebuilt : List Text → Fields → Result Fields
unfolding field_of validated_evidence_field
rebuilt [] evidence = ok end
rebuilt (k ∷ ks) evidence = elim (field_of k evidence) [
  | none ↦ err value_error
  | some v ↦ validated_evidence_field k v >>= λ w. rebuilt ks evidence >>= λ fs. ok (field k w fs)
]

unfoldable pub is_text : Option Value → Text → Bool
is_text (some (str s)) t = text_eq s t
is_text _ t = false
