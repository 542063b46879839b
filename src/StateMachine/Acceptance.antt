-- ===== src/StateMachine/Acceptance.antt =====
-- The contract of one call of `transition` (src/side_effects_lab/state_machine.py).
use side_effects_lab.Prelude.{
  String, Option, none, some, [], ◌∷◌, ◌++◌, ◌≡◌, ◌≢◌, ◌↔◌, ◌⊎◌, inl, inr, refl, sym, ap, ◌∙◌,
  arith,
}
use side_effects_lab.Prelude.Exec.{Outcome, returned, raised}
use side_effects_lab.StateMachine.Types.{
  OperationState, violation, TransitionEvidence, OperationIdentity, TransitionRecord,
  attempt_for_record,
}
use side_effects_lab.StateMachine.Machine.{
  OperationStateMachine, new_record, log, append_attempt, transition,
}
use side_effects_lab.StateMachine.Branches.{Accepts, AttemptFits, Report, success, moved_to}
use side_effects_lab.StateMachine.Outcome.{
  Transitioned, terminal, failed, reported, moved, transition-Transitioned,
}

abbrev Returns : Outcome TransitionRecord TransitionRecord × OperationStateMachine → Type 0
Returns out = (r : TransitionRecord) × (out.0 ≡ returned r)

accepted_of :
    (m : OperationStateMachine) (t : OperationState) (e : TransitionEvidence)
    (id : OperationIdentity) (a : Option String)
    (out : Outcome TransitionRecord TransitionRecord × OperationStateMachine)
    → Transitioned m t e id a out
    → Returns out ↔ Accepts m t e id a
accepted_of m t e id a out (terminal dead is) = ((λ h. cc), (λ h. absurd (h.live dead)))
accepted_of m t e id a out (failed live refused (reason, is)) =
    ((λ h. cc), (λ h. absurd (refused h)))
accepted_of m t e id a out (reported ready report is) = ((λ h. ready), (λ h. (_, ap (λ o. o.0) is)))
accepted_of m t e id a out (moved ready other edge is) =
    ((λ h. ready), (λ h. (_, ap (λ o. o.0) is)))

-- A call returns, and does not raise, exactly when the machine is not in VIOLATION, the identity is
-- the machine's own, the attempt identifier is a valid and unused one on entry to IN_FLIGHT and
-- absent otherwise, and the call either reports a violation or follows an edge of the state graph
-- with the cause and the flags that the edge demands.
pub transition-returns_iff :
    (m : OperationStateMachine) (t : OperationState) (e : TransitionEvidence)
    (id : OperationIdentity) (a : Option String)
    → ((r : TransitionRecord) × ((transition t e id a m).0 ≡ returned r)) ↔ Accepts m t e id a
transition-returns_iff m t e id a = accepted_of m t e id a _ (transition-Transitioned m t e id a)

-- How the machine after a call relates to the machine before it.
abbrev pub Effect :
    OperationStateMachine
    → OperationState
    → TransitionEvidence
    → Option String
    → Outcome TransitionRecord TransitionRecord × OperationStateMachine
    → Type 0
Effect m t e a (returned r, m') =
    (m'.identity ≡ m.identity)
    × (m'.state ≡ t)
    × (m'.history ≡ m.history ++ r ∷ [])
    × (m'.attempt_ids ≡ elim a [ none ↦ m.attempt_ids | some i ↦ m.attempt_ids ++ i ∷ [] ])
    × (r.source_state ≡ m.state)
    × (r.attempted_state ≡ t)
    × (r.resulting_state ≡ t)
    × (r.attempt_id ≡ a)
Effect m t e a (raised r, m') =
    (m'.identity ≡ m.identity)
    × (m'.state ≡ violation)
    × (m'.attempt_ids ≡ m.attempt_ids)
    × (((m.state ≡ violation) × (m' ≡ m))
        ⊎ ((m.state ≢ violation) × (m'.history ≡ m.history ++ r ∷ [])))
    × (r.source_state ≡ m.state)
    × (r.attempted_state ≡ t)
    × (r.resulting_state ≡ violation)
    × (r.attempt_id ≡ attempt_for_record a)
    × (r.violation_reason ≢ none)

moved_Effect :
    (m : OperationStateMachine) (t : OperationState) (e : TransitionEvidence) (a : Option String)
    → Effect m t e a (returned (success m t e a), moved_to m t e a)
unfolding append_attempt
moved_Effect m t e none = ground arith
moved_Effect m t e (some a) = ground arith

reported_Effect :
    (m : OperationStateMachine) (t : OperationState) (e : TransitionEvidence) (a : Option String)
    → AttemptFits m.attempt_ids t a
    → Report t e
    → (let r = new_record m.state t t e a (some "invariant violation reported") in
        Effect m t e a (returned r, log r m))
reported_Effect m t e none fits report = (refl, refl, refl, refl, refl, refl, refl, refl)
reported_Effect m t e (some a) fits report = cc (sym report.0 ∙ fits.0)

Effect-of :
    (m : OperationStateMachine) (t : OperationState) (e : TransitionEvidence)
    (id : OperationIdentity) (a : Option String)
    (out : Outcome TransitionRecord TransitionRecord × OperationStateMachine)
    → Transitioned m t e id a out
    → Effect m t e a out
Effect-of m t e id a out (terminal dead is) =
    rw is (refl, dead, refl, inl (dead, refl), refl, refl, dead, refl, (λ h. cc))
Effect-of m t e id a out (failed live refused (reason, is)) =
    rw is (refl, refl, refl, inr (live, refl), refl, refl, refl, refl, (λ h. cc))
Effect-of m t e id a out (reported ready report is) =
    rw is (reported_Effect m t e a ready.fits report)
Effect-of m t e id a out (moved ready other edge is) = rw is (moved_Effect m t e a)

-- What a call does to the machine, on every branch. If it returns, the machine is in the target
-- state, the record is appended to the history and a given attempt identifier to the attempts. If it
-- raises, the machine is in VIOLATION and no attempt is added: a machine that was in VIOLATION is
-- left as it was, any other has the exception's record appended. The identity never changes.
pub transition-Effect :
    (m : OperationStateMachine) (t : OperationState) (e : TransitionEvidence)
    (id : OperationIdentity) (a : Option String)
    → Effect m t e a (transition t e id a m)
transition-Effect m t e id a = Effect-of m t e id a _ (transition-Transitioned m t e id a)

pub Effect-identity :
    (m : OperationStateMachine) (t : OperationState) (e : TransitionEvidence) (a : Option String)
    (out : Outcome TransitionRecord TransitionRecord × OperationStateMachine)
    → Effect m t e a out
    → out.1.identity ≡ m.identity
Effect-identity m t e a (returned r, m') h = h.0
Effect-identity m t e a (raised r, m') h = h.0
