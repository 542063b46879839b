-- ===== src/Models/Schemes.antt =====
-- The identifiers of src/side_effects_lab/models.py and the test for URLs of `_reject_url_values`.
use side_effects_lab.Prelude.{
  true, false, ◌&&◌, some, [], ◌∷◌, ◌++◌, ◌≡◌, refl, arith, all, and_parts, inl, inr, Option-cases,
}
use side_effects_lab.Text.{
  Text, codes, is_lower_alnum, is_token_char, token, after, token_after, within,
}
use side_effects_lab.Text.Equality.{all-append}
use side_effects_lab.Models.Identifiers.{is_action_id, is_operation_key, is_authority_id, is_digest}
use side_effects_lab.Models.Values.{scheme_rest, has_url_scheme, lstrip, is_url_value}

pub after_split : (p s r : Text) → after p s ≡ some r → s ≡ p ++ r
unfolding after
after_split [] s r h = ground arith
after_split (a ∷ p) [] r h = cc
after_split (a ∷ p) (c ∷ s) r h = ground (arith, after_split p s r)

scheme_rest_none : (s : Text) → all is_token_char s ≡ true → scheme_rest s ≡ false
unfolding scheme_rest
scheme_rest_none [] h = refl
scheme_rest_none (c ∷ s) h = ground (arith, scheme_rest_none s)

lstrip_token : (s : Text) → all is_token_char s ≡ true → all is_token_char (lstrip s) ≡ true
unfolding lstrip
lstrip_token [] h = refl
lstrip_token (c ∷ s) h = ground (arith, lstrip_token s)

has_url_scheme_none : (s : Text) → all is_token_char s ≡ true → has_url_scheme s ≡ false
unfolding has_url_scheme
has_url_scheme_none [] h = refl
has_url_scheme_none (c ∷ s) h = ground (arith, scheme_rest_none s)

pub token_no_url : (s : Text) → all is_token_char s ≡ true → is_url_value s ≡ false
unfolding is_url_value
token_no_url s h = ground (arith, has_url_scheme_none (lstrip s) (lstrip_token s h))

pub token-all :
    (s : Text) → token is_lower_alnum is_token_char s ≡ true → all is_token_char s ≡ true
unfolding token
token-all [] h = cc
token-all (c ∷ s) h = ground arith

pub token_after-all :
    (p s : Text)
    → all is_token_char p ≡ true
    → token_after p is_lower_alnum is_token_char s ≡ true
    → all is_token_char s ≡ true
unfolding token_after
token_after-all p s hp h = elim (Option-cases (after p s)) [
  | inl e ↦ ground arith
  | inr (r, e) ↦
      rw (after_split p s r e) (all-append is_token_char p r hp (token-all r (ground arith)))
]

prefixed_no_url :
    (p s : Text)
    → all is_token_char p ≡ true
    → (within 128 s && token_after p is_lower_alnum is_token_char s) ≡ true
    → is_url_value s ≡ false
prefixed_no_url p s hp h = token_no_url s (token_after-all p s hp (and_parts (within 128 s) _ h).1)

pub action_id_no_url : (s : Text) → is_action_id s ≡ true → is_url_value s ≡ false
unfolding is_action_id
action_id_no_url s h = prefixed_no_url (codes "action-") s refl h

pub operation_key_no_url : (s : Text) → is_operation_key s ≡ true → is_url_value s ≡ false
unfolding is_operation_key
operation_key_no_url s h = prefixed_no_url (codes "op-") s refl h

pub authority_id_no_url : (s : Text) → is_authority_id s ≡ true → is_url_value s ≡ false
unfolding is_authority_id
authority_id_no_url s h = prefixed_no_url (codes "auth-") s refl h

pub digest_no_url : (s : Text) → is_digest s ≡ true → is_url_value s ≡ false
unfolding is_url_value
digest_no_url s h = rw h refl
