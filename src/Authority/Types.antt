-- ===== src/Authority/Types.antt =====
-- The enumerations of src/side_effects_lab/authority.py, and the contracts that an authority check
-- reads: `SemanticIntent` and `AuthorityGrant` of models.py, and `AuthorityCheck`. A contract may have
-- been made without its validators, so that a field may hold any value of its type.
use mathlib.Core.Bool.{decide}
use side_effects_lab.Prelude.{
  String, Bool, true, false, not, ◌&&◌, ◌||◌, Option, none, some, List, [], ◌∷◌, if◌then◌else◌,
}
use side_effects_lab.Prelude.Int.{ℤ}
use side_effects_lab.Prelude.Result.{
  Result, ok, err, require, validation_error, value_error, ◌>>=◌, ◌>>◌,
}
use side_effects_lab.Text.{codes}
pub use side_effects_lab.Models.Bounds.{is_non_negative, is_positive, is_optional}
use side_effects_lab.Models.Identifiers.{
  is_action_id, is_authority_id, is_subject_id, is_service_name, is_operation_name, is_digest,
}
use side_effects_lab.Models.Values.{
  Value, str, dict, frozen_map, model, Fields, end, field, thaw_fields, parameter_map,
}
use side_effects_lab.StateMachine.Types.{OperationIdentity, operation_identity}

pub data CheckKind : Type 0 where
  authorize passive_pre_dispatch pre_dispatch_write redispatch read_only : CheckKind

pub data AuthorityDisposition : Type 0 where
  allow safe_stop violation : AuthorityDisposition

pub data AuthorityReason : Type 0 where
  identity_mismatch authority_id_mismatch subject_mismatch service_mismatch operation_mismatch
        intent_digest_mismatch parameters_mismatch compensation_not_authorized cardinality_exceeded
        auth_expired authorized revalidated read_only_allowed :
      AuthorityReason

unfoldable pub AuthorityReason-discrete : Discrete AuthorityReason
AuthorityReason-discrete = hlevel

unfoldable pub kind_value : CheckKind → String
kind_value authorize = "authorize"
kind_value passive_pre_dispatch = "passive_pre_dispatch"
kind_value pre_dispatch_write = "pre_dispatch_write"
kind_value redispatch = "redispatch"
kind_value read_only = "read_only"

unfoldable pub disposition_value : AuthorityDisposition → String
disposition_value allow = "ALLOW"
disposition_value safe_stop = "SAFE_STOP"
disposition_value violation = "VIOLATION"

unfoldable pub reason_value : AuthorityReason → String
reason_value identity_mismatch = "IDENTITY_MISMATCH"
reason_value authority_id_mismatch = "AUTHORITY_ID_MISMATCH"
reason_value subject_mismatch = "SUBJECT_MISMATCH"
reason_value service_mismatch = "SERVICE_MISMATCH"
reason_value operation_mismatch = "OPERATION_MISMATCH"
reason_value intent_digest_mismatch = "INTENT_DIGEST_MISMATCH"
reason_value parameters_mismatch = "PARAMETERS_MISMATCH"
reason_value compensation_not_authorized = "COMPENSATION_NOT_AUTHORIZED"
reason_value cardinality_exceeded = "CARDINALITY_EXCEEDED"
reason_value auth_expired = "AUTH_EXPIRED"
reason_value authorized = "AUTHORIZED"
reason_value revalidated = "REVALIDATED"
reason_value read_only_allowed = "READ_ONLY_ALLOWED"

-- REASON_PRECEDENCE
unfoldable pub reason_precedence : List AuthorityReason
reason_precedence =
    identity_mismatch ∷ authority_id_mismatch ∷ subject_mismatch ∷ service_mismatch
    ∷ operation_mismatch ∷ intent_digest_mismatch ∷ parameters_mismatch
    ∷ compensation_not_authorized ∷ cardinality_exceeded ∷ auth_expired ∷ []

-- `parameters` holds the fields of a `FrozenMap`.
pub record SemanticIntent : Type 0 where
  pub service : String
  pub operation : String
  pub parameters : Fields

-- The JSON dump of an intent, by the serializer of its parameter map.
unfoldable pub intent_value : SemanticIntent → Value
intent_value i = model (
    field (codes "service") (str (codes i.service)) (
      field (codes "operation") (str (codes i.operation))
        (field (codes "parameters") (dict (thaw_fields i.parameters)) end)))

-- `SemanticIntent.model_validate`
unfoldable pub semantic_intent : SemanticIntent → Result SemanticIntent
semantic_intent i = do
  require (is_service_name (codes i.service)) validation_error
  require (is_operation_name (codes i.operation)) validation_error
  parameters ← parameter_map (frozen_map i.parameters)
  ok (record i { parameters = parameters })

pub record AuthorityGrant : Type 0 where
  pub authority_id : String
  pub subject_id : String
  pub service : String
  pub operation : String
  pub semantic_intent_digest : String
  pub allowed_parameters : Fields
  pub expires_at_tick : ℤ
  pub max_effects : ℤ
  pub allowed_compensation : Option String

-- `_revalidated_grant`: `AuthorityGrant.model_validate` of the grant's fields.
unfoldable pub revalidated_grant : AuthorityGrant → Result AuthorityGrant
revalidated_grant g = do
  require (is_authority_id (codes g.authority_id)) validation_error
  require (is_subject_id (codes g.subject_id)) validation_error
  require (is_service_name (codes g.service)) validation_error
  require (is_operation_name (codes g.operation)) validation_error
  require (is_digest (codes g.semantic_intent_digest)) validation_error
  parameters ← parameter_map (frozen_map g.allowed_parameters)
  require (is_non_negative g.expires_at_tick) validation_error
  require (is_positive g.max_effects) validation_error
  require (is_optional is_action_id g.allowed_compensation) validation_error
  ok (record g { allowed_parameters = parameters })

pub record AuthorityCheck : Type 0 where
  pub kind : CheckKind
  pub candidate : OperationIdentity
  pub confirmed : OperationIdentity
  pub subject_id : String
  pub intent : SemanticIntent
  pub current_tick : ℤ
  pub committed_effect_count : ℤ
  pub is_compensation : Bool
  pub original_grant : Option AuthorityGrant

-- `_validated_count`
unfoldable pub validated_count : ℤ → Result ℤ
validated_count n = if is_non_negative n then ok n else err value_error

abbrev pub is_some : {A : Type 0} → Option A → Bool
is_some none = false
is_some (some a) = true

abbrev pub is_read_only : CheckKind → Bool
is_read_only read_only = true
is_read_only _ = false

-- `AuthorityCheck.__post_init__`
unfoldable pub authority_check : AuthorityCheck → Result AuthorityCheck
unfolding validated_count
authority_check c = do
  require (is_subject_id (codes c.subject_id)) validation_error
  validated_count c.current_tick
  validated_count c.committed_effect_count
  require (not (is_some c.original_grant) || c.is_compensation) value_error
  require (not (is_read_only c.kind && (c.is_compensation || is_some c.original_grant))) value_error
  ok c

-- `_revalidated_identity`
unfoldable pub revalidated_identity : OperationIdentity → Result OperationIdentity
revalidated_identity i =
    operation_identity i.action_id i.operation_key i.intent_digest i.authority_id

unfoldable pub revalidated_original : Option AuthorityGrant → Result (Option AuthorityGrant)
revalidated_original none = ok none
revalidated_original (some g) = do grant ← revalidated_grant g; ok (some grant)

-- `_revalidated_request`, in the order in which its arguments are evaluated.
unfoldable pub revalidated_request : AuthorityCheck → Result AuthorityCheck
revalidated_request c = do
  candidate ← revalidated_identity c.candidate
  confirmed ← revalidated_identity c.confirmed
  intent ← semantic_intent c.intent
  original ← revalidated_original c.original_grant
  authority_check (record c {
    candidate = candidate;
    confirmed = confirmed;
    intent = intent;
    original_grant = original;
  })

-- `reason in reasons`
unfoldable pub reason_mem : AuthorityReason → List AuthorityReason → Bool
reason_mem r [] = false
reason_mem r (q ∷ qs) = decide (AuthorityReason-discrete r q) || reason_mem r qs
