-- ===== src/StateMachine/Outcome.antt =====
-- What one call of `OperationStateMachine.transition` (src/side_effects_lab/state_machine.py) does:
-- an inversion lemma for the whole method, and what follows from it.
use side_effects_lab.Prelude.{
  String, ◌&&◌, Option, some, ◌≡◌, ◌≢◌, inl, inr, refl, arith, Bool-cases, if◌then◌else◌,
}
use side_effects_lab.Prelude.Exec.{Outcome, returned, raised}
use side_effects_lab.StateMachine.Types.{
  OperationState, violation, invariant_violation, normative_cause, TransitionEvidence,
  OperationIdentity, TransitionRecord, changed_identity_fields, attempt_for_record,
}
use side_effects_lab.StateMachine.Machine.{
  OperationStateMachine, is_state, is_cause, new_record, log, record_transition, follow_edge,
  transition,
}
use side_effects_lab.StateMachine.Graph.{Edge, Edge-iff}
use side_effects_lab.StateMachine.Branches.{
  AttemptFits, Report, Accepts, missing-identity, same_identity, is_state_iff, failure, Failed,
  success, moved_to, validate_attempt_cases, follow_edge_cases, Report-cases,
  require_identity_cases,
}

-- Every way in which a call of `transition` ends.
pub data Transitioned (m : OperationStateMachine) (t : OperationState) (e : TransitionEvidence)
    (id : OperationIdentity) (a : Option String)
    (out : Outcome TransitionRecord TransitionRecord × OperationStateMachine) : Type 0 where
  terminal :
      m.state ≡ violation
      → out ≡ (
        raised
            (new_record m.state t m.state e (attempt_for_record a) (some "VIOLATION is terminal")),
        m,
      )
      → Transitioned m t e id a out
  failed :
      m.state ≢ violation → ¬ Accepts m t e id a → Failed m t e a out → Transitioned m t e id a out
  reported :
      Accepts m t e id a
      → Report t e
      → (let r = new_record m.state t t e a (some "invariant violation reported") in
          out ≡ (returned r, log r m))
      → Transitioned m t e id a out
  moved :
      Accepts m t e id a
      → ¬ Report t e
      → Edge e m.state t
      → out ≡ (returned (success m t e a), moved_to m t e a)
      → Transitioned m t e id a out

-- The part of the call after the identity and the attempt have been checked.
after_checks :
    (m : OperationStateMachine) (t : OperationState) (e : TransitionEvidence)
    (id : OperationIdentity) (a : Option String)
    → m.state ≢ violation
    → id ≡ m.identity
    → AttemptFits m.attempt_ids t a
    → Transitioned m t e id a (
        (if is_state t violation && is_cause e.cause invariant_violation
            then record_transition t e a (some "invariant violation reported")
            else follow_edge m.state t e a (normative_cause m.state t))
          m)
unfolding record_transition
after_checks m t e id a live same fits = elim (Report-cases t e) [
  | inl (y, report) ↦ rw y (
      reported (record { live = live; same = same; fits = fits; allowed = inl report }) report refl)
  | inr (n, other) ↦ rw n (elim (follow_edge_cases m t e a (normative_cause m.state t)) [
    | inl (c, g, done) ↦
        let edge : Edge e m.state t = (Edge-iff e m.state t).1 (c, g) in
        moved (record { live = live; same = same; fits = fits; allowed = inr edge }) other edge done
    | inr (no_edge, failure) ↦
        failed live
          (λ h. elim h.allowed [
            | inl report ↦ other report
            | inr edge ↦ no_edge ((Edge-iff e m.state t).0 edge)
          ])
          failure
  ])
]

pub transition-Transitioned :
    (m : OperationStateMachine) (t : OperationState) (e : TransitionEvidence)
    (id : OperationIdentity) (a : Option String)
    → Transitioned m t e id a (transition t e id a m)
unfolding transition
transition-Transitioned m t e id a = elim (Bool-cases (is_state m.state violation)) [
  | inl y ↦ rw y (terminal ((is_state_iff m.state violation).0 y) refl)
  | inr n ↦ rw n (
      let live : m.state ≢ violation = (λ h. ground (arith, is_state_iff m.state violation)) in
      elim (require_identity_cases m t e a (changed_identity_fields m.identity id)) [
        | inr (changed, (reason, failure)) ↦
            rw failure
              (failed live (λ h. changed (same_identity m.identity id h.same)) (reason, refl))
        | inl (same, done) ↦ rw done (elim (validate_attempt_cases m t e a) [
          | inr (misfit, (reason, failure)) ↦
              rw failure (failed live (λ h. misfit h.fits) (reason, refl))
          | inl (fits, done') ↦
              rw done' (after_checks m t e id a live (missing-identity m.identity id same) fits)
        ])
      ])
]
