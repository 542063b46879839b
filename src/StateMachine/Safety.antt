-- ===== src/StateMachine/Safety.antt =====
-- The safety of the state machine of src/side_effects_lab/state_machine.py: where it stops, and what a
-- completion rests on.
use mathlib.Core.List.{Memᴰ}
use side_effects_lab.Prelude.{
  String, Option, none, some, List, [], ◌∷◌, ◌≡◌, ◌≢◌, ◌⊎◌, inl, inr, refl, sym, ap, ◌∙◌, arith,
}
use side_effects_lab.Prelude.Exec.{Outcome}
use side_effects_lab.StateMachine.Types.{
  OperationState, verifying, violation, complete, safe_stop, fresh_postcondition,
  TransitionEvidence, OperationIdentity, TransitionRecord,
}
use side_effects_lab.StateMachine.Machine.{OperationStateMachine, new_machine, append_attempt}
use side_effects_lab.StateMachine.Graph.{
  Edge, IsVerified, authorize, denounce, prepare, decline, dispatch, receive, refuse, lose_track,
  reconcile, find_effect, find_absence, give_up, redispatch, abandon, finish, recheck, mismatch,
}
use side_effects_lab.StateMachine.Branches.{AttemptFits, failure, moved_to}
use side_effects_lab.StateMachine.Outcome.{
  Transitioned, terminal, failed, reported, moved, transition-Transitioned,
}
use side_effects_lab.StateMachine.Acceptance.{transition-Effect, Effect-identity}
use side_effects_lab.StateMachine.Runs.{Call, call, run}

terminal_of :
    (m : OperationStateMachine) (t : OperationState) (e : TransitionEvidence)
    (id : OperationIdentity) (a : Option String)
    (out : Outcome TransitionRecord TransitionRecord × OperationStateMachine)
    → Transitioned m t e id a out
    → m.state ≡ violation
    → out.1 ≡ m
terminal_of m t e id a out (terminal dead is) h = rw is refl
terminal_of m t e id a out (failed live refused failure) h = absurd (live h)
terminal_of m t e id a out (reported ready report is) h = absurd (ready.live h)
terminal_of m t e id a out (moved ready other edge is) h = absurd (ready.live h)

terminal_same : (m : OperationStateMachine) (c : Call) → m.state ≡ violation → call m c ≡ m
terminal_same m c =
    terminal_of m _ _ _ _ _ (transition-Transitioned m c.target c.evidence c.identity c.attempt_id)

-- A machine in VIOLATION stays as it is, whatever is called on it: state, history, attempts and
-- identity.
pub violation_absorbs :
    (cs : List Call) (m : OperationStateMachine) → m.state ≡ violation → run cs m ≡ m
unfolding run
violation_absorbs [] m dead = refl
violation_absorbs (c ∷ cs) m dead =
    let same : call m c ≡ m = terminal_same m c dead in rw same (violation_absorbs cs m dead)

abbrev IsEnded : OperationState → Type 0
IsEnded s = (s ≡ complete) ⊎ (s ≡ safe_stop)

no_way_on : {e : TransitionEvidence} {s t : OperationState} → Edge e s t → ¬ IsEnded s
no_way_on (authorize c) = ground arith
no_way_on (denounce c) = ground arith
no_way_on (prepare c) = ground arith
no_way_on (decline c) = ground arith
no_way_on (dispatch c) = ground arith
no_way_on (receive c) = ground arith
no_way_on (refuse c) = ground arith
no_way_on (lose_track c) = ground arith
no_way_on (reconcile c) = ground arith
no_way_on (find_effect c k) = ground arith
no_way_on (find_absence c k) = ground arith
no_way_on (give_up c k) = ground arith
no_way_on (redispatch c) = ground arith
no_way_on (abandon c) = ground arith
no_way_on (finish c k) = ground arith
no_way_on (recheck c) = ground arith
no_way_on (mismatch c) = ground arith

ended_of :
    (m : OperationStateMachine) (t : OperationState) (e : TransitionEvidence)
    (id : OperationIdentity) (a : Option String)
    (out : Outcome TransitionRecord TransitionRecord × OperationStateMachine)
    → Transitioned m t e id a out
    → IsEnded m.state
    → out.1.state ≡ violation
ended_of m t e id a out (terminal dead is) h = rw is dead
ended_of m t e id a out (failed live refused (reason, is)) h = rw is refl
ended_of m t e id a out (reported ready report is) h = rw is report.0
ended_of m t e id a out (moved ready other edge is) h = absurd (no_way_on edge h)

-- COMPLETE and SAFE_STOP have no way on: any call at all, well formed or not, puts the machine into
-- VIOLATION.
pub ended_violates :
    (m : OperationStateMachine) (c : Call)
    → (m.state ≡ complete) ⊎ (m.state ≡ safe_stop)
    → (call m c).state ≡ violation
ended_violates m c =
    ended_of m _ _ _ _ _ (transition-Transitioned m c.target c.evidence c.identity c.attempt_id)

-- The call that completes: it names COMPLETE under the machine's identity, with verified evidence.
abbrev Completes : OperationIdentity → Call → Type 0
Completes id c =
    (c.target ≡ complete)
    × (c.identity ≡ id)
    × (c.attempt_id ≡ none)
    × (c.evidence.cause ≡ fresh_postcondition)
    × IsVerified c.evidence

finish_only :
    {e : TransitionEvidence} {s t : OperationState}
    → Edge e s t
    → t ≡ complete
    → (s ≡ verifying) × (e.cause ≡ fresh_postcondition) × IsVerified e
finish_only (authorize c) h = cc
finish_only (denounce c) h = cc
finish_only (prepare c) h = cc
finish_only (decline c) h = cc
finish_only (dispatch c) h = cc
finish_only (receive c) h = cc
finish_only (refuse c) h = cc
finish_only (lose_track c) h = cc
finish_only (reconcile c) h = cc
finish_only (find_effect c k) h = cc
finish_only (find_absence c k) h = cc
finish_only (give_up c k) h = cc
finish_only (redispatch c) h = cc
finish_only (abandon c) h = cc
finish_only (finish c k) h = (refl, c, k)
finish_only (recheck c) h = cc
finish_only (mismatch c) h = cc

moved_state :
    (m : OperationStateMachine) (t : OperationState) (e : TransitionEvidence) (a : Option String)
    → (moved_to m t e a).state ≡ t
unfolding append_attempt
moved_state m t e none = refl
moved_state m t e (some a) = refl

not_both : (s : OperationState) → s ≡ violation → s ≢ complete
not_both s h k = cc

fits_none : (used : List String) (a : Option String) → AttemptFits used complete a → a ≡ none
fits_none used none h = refl
fits_none used (some a) h = cc (h.0)

-- A completed machine was completed by the last call that did not leave it alone.
Completes-of :
    (m : OperationStateMachine) (c : Call)
    (out : Outcome TransitionRecord TransitionRecord × OperationStateMachine)
    → Transitioned m c.target c.evidence c.identity c.attempt_id out
    → out.1.state ≡ complete
    → Completes m.identity c
Completes-of m c out (terminal dead is) h =
    absurd (not_both m.state dead (ap (λ o. o.1.state) (sym is) ∙ h))
Completes-of m c out (failed live refused (reason, is)) h =
    absurd (not_both violation refl (ap (λ o. o.1.state) (sym is) ∙ h))
Completes-of m c out (reported ready report is) h =
    absurd (not_both c.target report.0 (ap (λ o. o.1.state) (sym is) ∙ h))
Completes-of m c out (moved ready other edge is) h =
    let done : c.target ≡ complete =
      sym (moved_state m c.target c.evidence c.attempt_id) ∙ ap (λ o. o.1.state) (sym is) ∙ h in
    let only = finish_only edge done in
    (done, ready.same, fits_none m.attempt_ids c.attempt_id (rw done at ready.fits), only.1, only.2)

call-Completes :
    (m : OperationStateMachine) (c : Call) → (call m c).state ≡ complete → Completes m.identity c
call-Completes m c =
    Completes-of m c _ (transition-Transitioned m c.target c.evidence c.identity c.attempt_id)

pub call_identity : (m : OperationStateMachine) (c : Call) → (call m c).identity ≡ m.identity
call_identity m c =
    Effect-identity m c.target c.evidence c.attempt_id _
      (transition-Effect m c.target c.evidence c.identity c.attempt_id)

run-Completes :
    (cs : List Call) (m : OperationStateMachine)
    → (run cs m).state ≡ complete
    → (m.state ≡ complete) ⊎ ((c : Call) × Memᴰ c cs × Completes m.identity c)
unfolding run
run-Completes [] m h = inl h
run-Completes (c ∷ cs) m h = elim (run-Completes cs (call m c) h) [
  | inl done ↦ inr (c, Memᴰ.head refl, call-Completes m c done)
  | inr (d, there, completes) ↦ inr (d, Memᴰ.tail there, rw (call_identity m c) at completes)
]

-- A machine is COMPLETE only if one of the calls on it was a completion: it named COMPLETE under the
-- machine's own identity, with no attempt, with the cause `fresh_postcondition`, and with evidence
-- that is fresh, authoritative, and has the postcondition and the cardinality verified.
pub complete_needs-IsVerified :
    (cs : List Call) (id : OperationIdentity)
    → (run cs (new_machine id)).state ≡ complete
    → (c : Call) × Memᴰ c cs
      × (c.target ≡ complete)
      × (c.identity ≡ id)
      × (c.attempt_id ≡ none)
      × (c.evidence.cause ≡ fresh_postcondition)
      × IsVerified c.evidence
unfolding new_machine
complete_needs-IsVerified cs id h = elim (run-Completes cs (new_machine id) h) [
  | inl now ↦ absurd (cc now)
  | inr (c, there, (t, i, a, k, v)) ↦ (c, there, t, i, a, k, v)
]
