-- ===== src/Authority/Grants.antt =====
-- When a grant covers a checked request: the conditions of `check_authority`
-- (src/side_effects_lab/authority.py) as equations between the two contracts, and the defects as their
-- failures.
use side_effects_lab.Prelude.{
  String, Bool, true, false, not, ◌&&◌, Option, none, some, ◌≡◌, ◌≢◌, ◌↔◌, inl, inr, refl,
  and_parts, arith, Bool-cases, eq_iff,
}
use side_effects_lab.Prelude.Int.{leb_ℤ, ltb_ℤ}
use side_effects_lab.Text.{Text}
use side_effects_lab.StateMachine.Types.{OperationIdentity}
use side_effects_lab.Authority.Types.{
  CheckKind, read_only, authorize, passive_pre_dispatch, pre_dispatch_write, redispatch,
  is_read_only, AuthorityGrant, AuthorityCheck,
}
use side_effects_lab.Authority.Check.{confirms, compensation_of, authorizes, names_action, truthy}

-- A compensating action is named by an original grant that is not the grant in use.
pub record Compensates (g : AuthorityGrant) (c : AuthorityCheck) : Type 0 where
  pub original : AuthorityGrant
  pub is_original : c.original_grant ≡ some original
  pub names_action : original.allowed_compensation ≡ some c.candidate.action_id
  pub is_separate : original.authority_id ≢ g.authority_id

-- The grant is for this very action: all that is asked but the limits.
pub record Matches (g : AuthorityGrant) (c : AuthorityCheck) (recomputed : String)
    (given permitted : Text) : Type 0 where
  pub same_identity : c.candidate ≡ c.confirmed
  pub same_authority : c.candidate.authority_id ≡ g.authority_id
  pub same_subject : c.subject_id ≡ g.subject_id
  pub same_service : c.intent.service ≡ g.service
  pub same_operation : c.intent.operation ≡ g.operation
  pub candidate_digest : recomputed ≡ c.candidate.intent_digest
  pub grant_digest : recomputed ≡ g.semantic_intent_digest
  pub same_parameters : given ≡ permitted
  pub compensates : c.is_compensation ≡ true → Compensates g c

-- What does not read bounds by its number of effects: only a check that is not read-only does.
abbrev pub WithinEffects : AuthorityGrant → AuthorityCheck → Type 0
WithinEffects g c = c.kind ≢ read_only → ltb_ℤ c.committed_effect_count g.max_effects ≡ true

abbrev pub InTime : AuthorityGrant → AuthorityCheck → Type 0
InTime g c = c.kind ≢ read_only → leb_ℤ c.current_tick g.expires_at_tick ≡ true

pub confirms_iff : (i j : OperationIdentity) → (confirms i j ≡ true) ↔ (i ≡ j)
unfolding confirms
confirms_iff i j = ground (
  arith,
  eq_iff i.action_id j.action_id,
  eq_iff i.operation_key j.operation_key,
  eq_iff i.intent_digest j.intent_digest,
  eq_iff i.authority_id j.authority_id,
)

is_read_only_iff : (k : CheckKind) → (is_read_only k ≡ true) ↔ (k ≡ read_only)
is_read_only_iff read_only = ((λ h. refl), (λ h. refl))
is_read_only_iff authorize = ((λ h. cc), (λ h. cc))
is_read_only_iff passive_pre_dispatch = ((λ h. cc), (λ h. cc))
is_read_only_iff pre_dispatch_write = ((λ h. cc), (λ h. cc))
is_read_only_iff redispatch = ((λ h. cc), (λ h. cc))

-- A limit that binds a writing check only.
pub limit_iff :
    (k : CheckKind) (b : Bool)
    → ((not (is_read_only k) && not b) ≡ false) ↔ (k ≢ read_only → b ≡ true)
limit_iff k true = ((λ h _. refl), (λ h. ground arith))
limit_iff k false = elim (Bool-cases (is_read_only k)) [
  | inl reads ↦ ((λ h write. absurd (write ((is_read_only_iff k).0 reads))), (λ h. ground arith))
  | inr writes ↦
      ((λ h _. ground arith), (λ h. absurd (cc (h (λ e. cc ((is_read_only_iff k).1 e))))))
]

names_action_iff :
    (o : Option String) (action : String) → (names_action o action ≡ true) ↔ (o ≡ some action)
unfolding names_action
names_action_iff none action = ground arith
names_action_iff (some a) action = ground (arith, eq_iff a action)

authorized_by :
    (o : Option AuthorityGrant) (action authority : String)
    → authorizes o action authority ≡ true
    → (a : AuthorityGrant) × (o ≡ some a)
      × (a.allowed_compensation ≡ some action)
      × (a.authority_id ≢ authority)
unfolding authorizes
authorized_by none action authority h = cc
authorized_by (some a) action authority h =
    let (named, other) = and_parts _ _ h in
    (
      a,
      refl,
      (names_action_iff a.allowed_compensation action).0 named,
      λ e. cc ((eq_iff a.authority_id authority).1 e, other),
    )

authorizes-some :
    (a : AuthorityGrant) (action authority : String)
    → a.allowed_compensation ≡ some action
    → a.authority_id ≢ authority
    → authorizes (some a) action authority ≡ true
unfolding authorizes
authorizes-some a action authority named other =
    ground (arith, names_action_iff a.allowed_compensation action, eq_iff a.authority_id authority)

Compensates-iff :
    (g : AuthorityGrant) (c : AuthorityCheck)
    → (authorizes c.original_grant c.candidate.action_id g.authority_id ≡ true) ↔ Compensates g c
Compensates-iff g c = (
  λ h.
      (let (a, is, named, other) = authorized_by c.original_grant _ _ h in
        record { original = a; is_original = is; names_action = named; is_separate = other }),
  λ k. rw k.is_original (authorizes-some k.original _ _ k.names_action k.is_separate),
)

pub claim_iff :
    (g : AuthorityGrant) (c : AuthorityCheck)
    → ((c.is_compensation && not (truthy (compensation_of c g))) ≡ false)
      ↔ (c.is_compensation ≡ true → Compensates g c)
unfolding compensation_of
claim_iff g c = elim (Bool-cases c.is_compensation) [
  | inl claims ↦ (
    (λ h _. (Compensates-iff g c).0 (ground arith)),
    (λ k. ground (arith, (Compensates-iff g c).1 (k claims))),
  )
  | inr plain ↦ ((λ h claims. cc), (λ k. ground arith))
]
