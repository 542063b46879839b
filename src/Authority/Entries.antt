-- ===== src/Authority/Entries.antt =====
-- The single fields of the evidence that `check_authority` (src/side_effects_lab/authority.py) writes,
-- against `_validated_evidence_field`.
use side_effects_lab.Prelude.{◌∙◌, zero, suc, Bool, true, false, Option, none, some, ◌≡◌, refl}
use side_effects_lab.Prelude.Int.{ℤ, pos, negsuc}
use side_effects_lab.Prelude.Result.{ok, ◌>>=◌}
use side_effects_lab.Text.{Text, codes}
use side_effects_lab.Models.Values.{
  bool, int, str, freeze, is_canonical, free_of_urls, is_url_value, has_url_scheme, lstrip,
}
use side_effects_lab.Models.Identifiers.{is_digest}
use side_effects_lab.Authority.Types.{
  CheckKind, kind_value, AuthorityDisposition, disposition_value, AuthorityReason, reason_value,
  is_non_negative, is_positive, authorize, passive_pre_dispatch, pre_dispatch_write, redispatch,
  read_only, allow, safe_stop, violation, identity_mismatch, authority_id_mismatch,
  subject_mismatch, service_mismatch, operation_mismatch, intent_digest_mismatch,
  parameters_mismatch, compensation_not_authorized, cardinality_exceeded, auth_expired, authorized,
  revalidated, read_only_allowed,
}
use side_effects_lab.Models.Identifiers.{is_parameter_name}
use side_effects_lab.Models.Values.{Fields}
use side_effects_lab.Authority.Evidence.{
  field_of, adapted, evidence_count, counted, validated_evidence_field,
}
use side_effects_lab.Authority.Check.{optional_bool_value}
use side_effects_lab.Authority.Payload.{IsPlain, Holds}

pub adapted_accepts :
    (valid : Text → Bool) (s : Text) → valid s ≡ true → adapted valid (str s) ≡ ok (str s)
unfolding adapted
adapted_accepts valid s h = rw h refl

pub str-IsPlain : (s : Text) → is_url_value s ≡ false → IsPlain (str s)
unfolding is_canonical free_of_urls
str-IsPlain s h = record { canonical = refl; free = rw h refl }

pub kind_accepted :
    (k : CheckKind)
    → validated_evidence_field (codes "check_kind") (str (codes (kind_value k)))
      ≡ ok (str (codes (kind_value k)))
unfolding validated_evidence_field kind_value
kind_accepted authorize = refl
kind_accepted passive_pre_dispatch = refl
kind_accepted pre_dispatch_write = refl
kind_accepted redispatch = refl
kind_accepted read_only = refl

pub disposition_accepted :
    (d : AuthorityDisposition)
    → validated_evidence_field (codes "disposition") (str (codes (disposition_value d)))
      ≡ ok (str (codes (disposition_value d)))
unfolding validated_evidence_field disposition_value
disposition_accepted allow = refl
disposition_accepted safe_stop = refl
disposition_accepted violation = refl

pub reason_accepted :
    (r : AuthorityReason)
    → validated_evidence_field (codes "reason") (str (codes (reason_value r)))
      ≡ ok (str (codes (reason_value r)))
unfolding validated_evidence_field reason_value
reason_accepted identity_mismatch = refl
reason_accepted authority_id_mismatch = refl
reason_accepted subject_mismatch = refl
reason_accepted service_mismatch = refl
reason_accepted operation_mismatch = refl
reason_accepted intent_digest_mismatch = refl
reason_accepted parameters_mismatch = refl
reason_accepted compensation_not_authorized = refl
reason_accepted cardinality_exceeded = refl
reason_accepted auth_expired = refl
reason_accepted authorized = refl
reason_accepted revalidated = refl
reason_accepted read_only_allowed = refl

pub kind_no_url : (k : CheckKind) → is_url_value (codes (kind_value k)) ≡ false
unfolding kind_value is_url_value is_digest has_url_scheme lstrip
kind_no_url authorize = refl
kind_no_url passive_pre_dispatch = refl
kind_no_url pre_dispatch_write = refl
kind_no_url redispatch = refl
kind_no_url read_only = refl

pub disposition_no_url :
    (d : AuthorityDisposition) → is_url_value (codes (disposition_value d)) ≡ false
unfolding disposition_value is_url_value is_digest has_url_scheme lstrip
disposition_no_url allow = refl
disposition_no_url safe_stop = refl
disposition_no_url violation = refl

pub reason_no_url : (r : AuthorityReason) → is_url_value (codes (reason_value r)) ≡ false
unfolding reason_value is_url_value is_digest has_url_scheme lstrip
reason_no_url identity_mismatch = refl
reason_no_url authority_id_mismatch = refl
reason_no_url subject_mismatch = refl
reason_no_url service_mismatch = refl
reason_no_url operation_mismatch = refl
reason_no_url intent_digest_mismatch = refl
reason_no_url parameters_mismatch = refl
reason_no_url compensation_not_authorized = refl
reason_no_url cardinality_exceeded = refl
reason_no_url auth_expired = refl
reason_no_url authorized = refl
reason_no_url revalidated = refl
reason_no_url read_only_allowed = refl

pub count_accepted :
    (n : ℤ) → is_non_negative n ≡ true → (evidence_count (int n) >>= counted false) ≡ ok (int n)
unfolding evidence_count counted
count_accepted (pos n) h = refl
count_accepted (negsuc n) h = cc

pub maximum_accepted :
    (n : ℤ) → is_positive n ≡ true → (evidence_count (int n) >>= counted true) ≡ ok (int n)
unfolding evidence_count counted
maximum_accepted (pos zero) h = cc
maximum_accepted (pos (suc n)) h = refl
maximum_accepted (negsuc n) h = cc

pub int-IsPlain : (n : ℤ) → IsPlain (int n)
unfolding is_canonical free_of_urls
int-IsPlain n = record { canonical = refl; free = refl }

pub bool-IsPlain : (b : Bool) → IsPlain (bool b)
unfolding is_canonical free_of_urls
bool-IsPlain b = record { canonical = refl; free = refl }

pub optional_accepted :
    (o : Option Bool)
    → validated_evidence_field (codes "compensation_authorized") (optional_bool_value o)
      ≡ ok (optional_bool_value o)
unfolding validated_evidence_field
optional_accepted none = refl
optional_accepted (some b) = refl

pub optional-IsPlain : (o : Option Bool) → IsPlain (optional_bool_value o)
unfolding is_canonical free_of_urls
optional-IsPlain none = record { canonical = refl; free = refl }
optional-IsPlain (some b) = record { canonical = refl; free = refl }

pub optional_frozen : (o : Option Bool) → freeze (optional_bool_value o) ≡ optional_bool_value o
unfolding freeze
optional_frozen none = refl
optional_frozen (some b) = refl

module _ (evidence : Fields) where
  -- An identifier, accepted by its adapter.
  unfoldable pub text_entry :
      (valid : Text → Bool) (no_url : (s : Text) → valid s ≡ true → is_url_value s ≡ false)
      (k s : Text)
      → valid s ≡ true
      → validated_evidence_field k (str s) ≡ adapted valid (str s)
      → field_of k evidence ≡ some (str s)
      → is_parameter_name k ≡ true
      → Holds evidence k
  text_entry valid no_url k s ok_s is held name = record {
    value = str s;
    is_held = held;
    is_accepted = is ∙ adapted_accepts valid s ok_s;
    is_plain = str-IsPlain s (no_url s ok_s);
    is_name = name;
  }

  -- A word of a vocabulary.
  unfoldable pub word_entry :
      (k s : Text)
      → validated_evidence_field k (str s) ≡ ok (str s)
      → is_url_value s ≡ false
      → field_of k evidence ≡ some (str s)
      → is_parameter_name k ≡ true
      → Holds evidence k
  word_entry k s accepted no_url held name = record {
    value = str s;
    is_held = held;
    is_accepted = accepted;
    is_plain = str-IsPlain s no_url;
    is_name = name;
  }

  unfoldable pub flag_entry :
      (k : Text) (b : Bool)
      → validated_evidence_field k (bool b) ≡ ok (bool b)
      → field_of k evidence ≡ some (bool b)
      → is_parameter_name k ≡ true
      → Holds evidence k
  flag_entry k b accepted held name = record {
    value = bool b;
    is_held = held;
    is_accepted = accepted;
    is_plain = bool-IsPlain b;
    is_name = name;
  }

  unfoldable pub count_entry :
      (k : Text) (n : ℤ)
      → validated_evidence_field k (int n) ≡ ok (int n)
      → field_of k evidence ≡ some (int n)
      → is_parameter_name k ≡ true
      → Holds evidence k
  count_entry k n accepted held name = record {
    value = int n;
    is_held = held;
    is_accepted = accepted;
    is_plain = int-IsPlain n;
    is_name = name;
  }
