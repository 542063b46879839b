-- ===== src/Authority/Verdicts.antt =====
-- What a decision of `check_authority` (src/side_effects_lab/authority.py) tells its caller, and what
-- the state machine of state_machine.py does with the transition that it names.
use side_effects_lab.Prelude.{
  String, Option, none, some, [], ◌∷◌, ◌≡◌, ◌≢◌, ◌↔◌, ◌⊎◌, inl, inr, refl, sym, ◌∙◌, arith,
}
use side_effects_lab.Prelude.Result.{ok}
use side_effects_lab.Prelude.Exec.{returned}
use side_effects_lab.Text.{Text}
use side_effects_lab.StateMachine.Types.{
  OperationState, proposed, authorized, retryable, in_flight, TransitionCause, TransitionEvidence,
  TransitionRecord,
}
use side_effects_lab.StateMachine.Machine.{OperationStateMachine, transition}
use side_effects_lab.StateMachine.Graph.{Edge, authorize, decline, abandon}
use side_effects_lab.StateMachine.Branches.{Report}
use side_effects_lab.StateMachine.Acceptance.{transition-returns_iff}
use side_effects_lab.Authority.Types.{
  CheckKind, passive_pre_dispatch, AuthorityDisposition, allow, safe_stop, violation,
  AuthorityReason, identity_mismatch, authority_id_mismatch, subject_mismatch, service_mismatch,
  operation_mismatch, intent_digest_mismatch, parameters_mismatch, compensation_not_authorized,
  cardinality_exceeded, auth_expired, AuthorityGrant, AuthorityCheck, reason_precedence,
}
use side_effects_lab.Authority.Decision.{AuthorityDecision}
use side_effects_lab.Authority.Check.{Verdict, facts, verdict, check_authority}
use side_effects_lab.Authority.Rows.{Row, authorizes, stops, denounces}
use side_effects_lab.Authority.Precedence.{First, first_defect-First}
use side_effects_lab.Authority.Grants.{Matches, WithinEffects, InTime}
use side_effects_lab.Authority.Conditions.{none_iff, expiry_iff}
use side_effects_lab.Authority.Decides.{
  Checked, winning, Keeps, decision-Keeps, decide_with-Keeps, check_authority_made,
  check_authority-Checked,
}

verdict-allow :
    (k : CheckKind) (w : Option AuthorityReason) → ((verdict k w).disposition ≡ allow) ↔ (w ≡ none)
unfolding verdict
verdict-allow k w = ground arith

verdict-stop :
    (k : CheckKind) (w : Option AuthorityReason)
    → ((verdict k w).disposition ≡ safe_stop)
      ↔ ((k ≡ passive_pre_dispatch) × (w ≡ some auth_expired))
unfolding verdict
verdict-stop k w = ground arith

verdict-violation :
    (k : CheckKind) (w : Option AuthorityReason)
    → (verdict k w).disposition ≡ violation
    → w ≡ some (verdict k w).reason
unfolding verdict
verdict-violation k w h = ground arith

Row-Keeps :
    (v : Verdict) (d : AuthorityDecision)
    → Keeps v d × Row v.disposition v.reason v.target v.cause
    → Row d.disposition d.reason d.target d.cause
Row-Keeps v d ((a, b, c, e), row) = rw a (rw b (rw c (rw e row)))

-- The states in which the caller asks for a decision that names a target.
abbrev pub Asked : OperationState → OperationState → Type 0
Asked s t =
    (t ≡ authorized → s ≡ proposed)
    × (t ≡ OperationState.safe_stop → (s ≡ authorized) ⊎ (s ≡ retryable))

Row-allowed :
    {x : AuthorityDisposition} {r : AuthorityReason} {t : OperationState} {c : TransitionCause}
    (s : OperationState) (e : TransitionEvidence)
    → Row x r (some t) (some c)
    → e.cause ≡ c
    → Asked s t
    → Report t e ⊎ Edge e s t
Row-allowed s e authorizes is (a, b) = inr (rw (a refl) (authorize is))
Row-allowed s e stops is (a, b) = elim (b refl) [
  | inl ready ↦ inr (rw ready (decline is))
  | inr again ↦ inr (rw again (abandon is))
]
Row-allowed s e (denounces k) is (a, b) = inl (refl, is)

Row-in_flight :
    {x : AuthorityDisposition} {r : AuthorityReason} {t : OperationState} {c : TransitionCause}
    → Row x r (some t) (some c)
    → t ≢ in_flight
Row-in_flight authorizes h = cc
Row-in_flight stops h = cc
Row-in_flight (denounces k) h = cc

module _ (hexdigest : Text → String) (grant : AuthorityGrant) (request : AuthorityCheck)
    (d : AuthorityDecision) where
  -- A decision allows the action exactly when the grant matches the request in every respect (identity,
  -- authority, subject, service, operation, intent digest, parameters, and an original grant where
  -- compensation is claimed) and, for a check that is not read-only, when the effects committed so
  -- far are fewer than the grant's and its tick of expiry is not past.
  pub allows_iff :
      (k : Checked hexdigest grant request)
      → check_authority hexdigest grant request ≡ ok d
      → (d.disposition ≡ allow) ↔ (
          (Matches k.g k.c k.recomputed k.given k.permitted × WithinEffects k.g k.c)
          × InTime k.g k.c)
  allows_iff k h =
      let kept = (decision-Keeps hexdigest grant request d k h).0 in
      let found = none_iff k.g k.c k.recomputed k.given k.permitted in
      let allowed = verdict-allow k.c.kind (winning k) in
      ((λ e. found.0 (allowed.0 (sym kept ∙ e))), (λ m. kept ∙ allowed.1 (found.1 m)))

  -- A decision is a safe stop exactly when the check is the passive one before dispatch, the grant
  -- matches the request and admits one more effect, and only its tick of expiry is past.
  pub stops_iff :
      (k : Checked hexdigest grant request)
      → check_authority hexdigest grant request ≡ ok d
      → (d.disposition ≡ safe_stop) ↔ (
          (k.c.kind ≡ passive_pre_dispatch)
          × ((Matches k.g k.c k.recomputed k.given k.permitted × WithinEffects k.g k.c)
              × (¬ InTime k.g k.c)))
  stops_iff k h =
      let kept = (decision-Keeps hexdigest grant request d k h).0 in
      let found = expiry_iff k.g k.c k.recomputed k.given k.permitted in
      let stopped = verdict-stop k.c.kind (winning k) in
      (
        (λ e. (let (kind, late) = stopped.0 (sym kept ∙ e) in (kind, found.0 late))),
        (λ m. kept ∙ stopped.1 (m.0, found.1 m.1)),
      )

  -- The reason of a violation is the first defect of the request in this order: identity, authority,
  -- subject, service, operation, intent digest, parameters, compensation, cardinality, expiry. It
  -- holds of the request, and none that stands before it does.
  pub violation-First :
      (k : Checked hexdigest grant request)
      → check_authority hexdigest grant request ≡ ok d
      → d.disposition ≡ violation
      → First k.c.kind (facts k.g k.c k.recomputed k.given k.permitted) d.reason (
          identity_mismatch ∷ authority_id_mismatch ∷ subject_mismatch ∷ service_mismatch
          ∷ operation_mismatch ∷ intent_digest_mismatch ∷ parameters_mismatch
          ∷ compensation_not_authorized ∷ cardinality_exceeded ∷ auth_expired ∷ [])
  unfolding reason_precedence
  violation-First k h e =
      let (same, reason, _, _) = decision-Keeps hexdigest grant request d k h in
      rw reason (
        (first_defect-First k.c.kind _ _ reason_precedence).0
          (verdict-violation k.c.kind (winning k) (sym same ∙ e)))

  -- Every decision stands in the matrix, so that it names a transition just where its row has one.
  pub decision-Row :
      check_authority hexdigest grant request ≡ ok d → Row d.disposition d.reason d.target d.cause
  decision-Row h =
      let k = check_authority-Checked hexdigest grant request d h in
      Row-Keeps _ d (
        decide_with-Keeps k.g k.c k.recomputed _ _ d
          (sym (check_authority_made hexdigest grant request k) ∙ h))

  -- A machine that is not in VIOLATION takes the transition that a decision names, with evidence of
  -- the decision's cause and without an attempt: to AUTHORIZED from PROPOSED, to SAFE_STOP from
  -- AUTHORIZED or RETRYABLE, and to VIOLATION from any state.
  pub decision_transition :
      (m : OperationStateMachine) (t : OperationState) (e : TransitionEvidence)
      → check_authority hexdigest grant request ≡ ok d
      → d.target ≡ some t
      → d.cause ≡ some e.cause
      → m.state ≢ OperationState.violation
      → Asked m.state t
      → (r : TransitionRecord) × ((transition t e m.identity none m).0 ≡ returned r)
  decision_transition m t e h target cause live asked =
      let row : Row d.disposition d.reason (some t) (some e.cause) =
        rw (← target) (rw (← cause) (decision-Row h)) in
      (transition-returns_iff m t e m.identity none).1 (record {
        live = live;
        same = refl;
        fits = Row-in_flight row;
        allowed = Row-allowed m.state e row refl asked;
      })
