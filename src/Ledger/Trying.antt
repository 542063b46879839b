-- ===== src/Ledger/Trying.antt =====
-- What one call of the machine gives src/side_effects_lab/ledger.py to persist.
use side_effects_lab.Prelude.{
  String, Bool, true, false, Option, none, some, List, [], ◌∷◌, ◌++◌, ◌≡◌, ◌⊎◌, inl, inr, refl, sym,
  ap, ◌∙◌, length, length-append, ◌==◌, ==_iff, arith, if◌then◌else◌,
}
use side_effects_lab.Prelude.Exec.{Outcome, returned, raised}
use side_effects_lab.Text.{codes}
use side_effects_lab.Models.Identifiers.{is_attempt_id}
use side_effects_lab.StateMachine.Types.{
  OperationState, violation, TransitionEvidence, OperationIdentity, TransitionRecord,
  attempt_for_record,
}
use side_effects_lab.StateMachine.Machine.{OperationStateMachine, transition}
use side_effects_lab.StateMachine.Outcome.{
  Transitioned, terminal, failed, reported, moved, transition-Transitioned,
}
use side_effects_lab.StateMachine.Acceptance.{Effect, transition-Effect}
use side_effects_lab.Ledger.Replay.{outcome_record}
use side_effects_lab.Ledger.Transitions.{Tried, try_transition}

-- The attempts after a call.
abbrev pub attempts_after :
    Outcome TransitionRecord TransitionRecord → Option String → List String → List String
attempts_after (raised r) a ids = ids
attempts_after (returned r) none ids = ids
attempts_after (returned r) (some i) ids = ids ++ i ∷ []

-- A call that put a record on the machine's history.
pub record Moved (m : OperationStateMachine) (t : OperationState) (e : TransitionEvidence)
    (id : OperationIdentity) (a : Option String) (o : Outcome TransitionRecord TransitionRecord)
    (m' : OperationStateMachine) : Type 0 where
  pub answered : transition t e id a m ≡ (o, m')
  pub identity_same : m'.identity ≡ m.identity
  pub recorded : m'.history ≡ m.history ++ outcome_record o ∷ []
  pub state_is : m'.state ≡ (outcome_record o).resulting_state
  pub target_is : (outcome_record o).attempted_state ≡ t
  pub attempt_is : (outcome_record o).attempt_id ≡ a
  pub evidence_is : (outcome_record o).evidence_id ≡ e.evidence_id
  pub cause_is : (outcome_record o).cause ≡ e.cause
  pub attempts_are : m'.attempt_ids ≡ attempts_after o a m.attempt_ids

-- The attempt identifier of a call is absent or valid.
abbrev pub IsPresentable : Option String → Type 0
IsPresentable none = Unit
IsPresentable (some a) = is_attempt_id (codes a) ≡ true

attempt_kept : (a : Option String) → IsPresentable a → attempt_for_record a ≡ a
unfolding attempt_for_record
attempt_kept none h = refl
attempt_kept (some a) h = rw h refl

abbrev Cites : TransitionEvidence → TransitionRecord → Type 0
Cites e r = (r.evidence_id ≡ e.evidence_id) × (r.cause ≡ e.cause)

Cites-of :
    (m : OperationStateMachine) (t : OperationState) (e : TransitionEvidence)
    (id : OperationIdentity) (a : Option String)
    (out : Outcome TransitionRecord TransitionRecord × OperationStateMachine)
    → Transitioned m t e id a out
    → Cites e (outcome_record out.0)
Cites-of m t e id a out (terminal dead is) = rw is (refl, refl)
Cites-of m t e id a out (failed live refused (reason, is)) = rw is (refl, refl)
Cites-of m t e id a out (reported ready report is) = rw is (refl, refl)
Cites-of m t e id a out (moved ready other edge is) = rw is (refl, refl)

abbrev pub was_raised : Outcome TransitionRecord TransitionRecord → Bool
was_raised (returned r) = false
was_raised (raised r) = true

-- The machine answered, and there is a record to persist.
pub record Recorded (m : OperationStateMachine) (t : OperationState) (e : TransitionEvidence)
    (id : OperationIdentity) (a : Option String) (tried : Tried) : Type 0 where
  pub outcome : Outcome TransitionRecord TransitionRecord
  pub moves : Moved m t e id a outcome tried.machine
  pub persists : tried.to_persist ≡ some (outcome_record outcome)
  pub catches : tried.caught ≡ was_raised outcome

-- The machine was in VIOLATION already.
pub record Unrecorded (m : OperationStateMachine) (t : OperationState) (e : TransitionEvidence)
    (id : OperationIdentity) (a : Option String) (tried : Tried) : Type 0 where
  pub outcome : TransitionRecord
  pub answered : transition t e id a m ≡ (raised outcome, m)
  pub dead : m.state ≡ violation
  pub persists_none : tried.to_persist ≡ none
  pub catches : tried.caught ≡ true

abbrev tried_of :
    OperationStateMachine
    → Outcome TransitionRecord TransitionRecord
    → OperationStateMachine
    → Tried
tried_of machine outcome after = elim outcome [
  | returned r ↦ record { machine = after; caught = false; to_persist = some r }
  | raised r ↦ record {
    machine = after;
    caught = true;
    to_persist = if length after.history == length machine.history then none else some r;
  }
]

grown :
    (before after : List TransitionRecord) (r : TransitionRecord)
    → after ≡ before ++ r ∷ []
    → (length after == length before) ≡ false
grown before after r h = rw h (ground (arith, length-append before (r ∷ [])))

unchanged : (rs qs : List TransitionRecord) → qs ≡ rs → (length qs == length rs) ≡ true
unchanged rs qs h = rw h ((==_iff (length rs) (length rs)).1 refl)

attempts_grown :
    (r : TransitionRecord) (a : Option String) (ids after : List String)
    → after ≡ elim a [ none ↦ ids | some i ↦ ids ++ i ∷ [] ]
    → after ≡ attempts_after (returned r) a ids
attempts_grown r none ids after h = h
attempts_grown r (some i) ids after h = h

tried_cases :
    (m : OperationStateMachine) (t : OperationState) (e : TransitionEvidence)
    (id : OperationIdentity) (a : Option String) (o : Outcome TransitionRecord TransitionRecord)
    (m' : OperationStateMachine)
    → IsPresentable a
    → transition t e id a m ≡ (o, m')
    → Effect m t e a (o, m')
    → Cites e (outcome_record o)
    → Recorded m t e id a (tried_of m o m') ⊎ Unrecorded m t e id a (tried_of m o m')
tried_cases m t e id a (returned r) m' ok is
      (same, state, history, attempts, source, attempted, resulting, attempt) (cites, cause) =
    inl (record {
      outcome = returned r;
      moves = record {
        answered = is;
        identity_same = same;
        recorded = history;
        state_is = state ∙ sym resulting;
        target_is = attempted;
        attempt_is = attempt;
        evidence_is = cites;
        cause_is = cause;
        attempts_are = attempts_grown r a m.attempt_ids m'.attempt_ids attempts;
      };
      persists = refl;
      catches = refl;
    })
tried_cases m t e id a (raised r) m' ok is
      (same, state, attempts, inl (dead, unmoved), source, attempted, resulting, attempt, blamed)
      (cites, cause) =
    inr (record {
      outcome = r;
      answered = is ∙ ap (λ x. (raised r, x)) unmoved;
      dead = dead;
      persists_none = rw (unchanged m.history m'.history (ap (λ x. x.history) unmoved));
      catches = refl;
    })
tried_cases m t e id a (raised r) m' ok is
      (same, state, attempts, inr (live, history), source, attempted, resulting, attempt, blamed)
      (cites, cause) =
    inl (record {
      outcome = raised r;
      moves = record {
        answered = is;
        identity_same = same;
        recorded = history;
        state_is = state ∙ sym resulting;
        target_is = attempted;
        attempt_is = attempt ∙ attempt_kept a ok;
        evidence_is = cites;
        cause_is = cause;
        attempts_are = attempts;
      };
      persists = rw (grown m.history m'.history r history);
      catches = refl;
    })

-- Each call leaves a record to persist, or meets a machine in VIOLATION.
pub try_transition-cases :
    (m : OperationStateMachine) (t : OperationState) (e : TransitionEvidence)
    (id : OperationIdentity) (a : Option String)
    → IsPresentable a
    → Recorded m t e id a (try_transition t e id a m)
      ⊎ Unrecorded m t e id a (try_transition t e id a m)
unfolding try_transition
try_transition-cases m t e id a ok =
    let out = transition t e id a m in
    tried_cases m t e id a out.0 out.1 ok refl (transition-Effect m t e id a)
      (Cites-of m t e id a out (transition-Transitioned m t e id a))
