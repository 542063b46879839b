-- ===== src/StateMachine/Coherence.antt =====
-- The history and the attempts of a machine of src/side_effects_lab/state_machine.py agree with its state, after any
-- calls.
use mathlib.Core.List.{append-nil}
use side_effects_lab.Prelude.{
  String, Option, none, some, List, [], ◌∷◌, ◌++◌, ◌≡◌, ◌≢◌, refl, sym, ◌∙◌, true, All, All-append,
  NoRepeat, NoRepeat-snoc, Fresh-str_mem,
}
use side_effects_lab.Prelude.Exec.{Outcome}
use side_effects_lab.Text.{codes}
use side_effects_lab.Models.Identifiers.{is_attempt_id}
use side_effects_lab.StateMachine.Types.{
  OperationState, proposed, in_flight, TransitionEvidence, OperationIdentity, TransitionRecord,
}
use side_effects_lab.StateMachine.Machine.{OperationStateMachine, new_machine, log, append_attempt}
use side_effects_lab.StateMachine.Branches.{AttemptFits, failure, success, moved_to}
use side_effects_lab.StateMachine.Outcome.{
  Transitioned, terminal, failed, reported, moved, transition-Transitioned,
}
use side_effects_lab.StateMachine.Runs.{Call, call, run, run_keeps}

-- The records lead from `s` to `t`, each from where the one before it ended.
abbrev pub Leads : OperationState → List TransitionRecord → OperationState → Type 0
Leads s [] t = s ≡ t
Leads s (r ∷ rs) t = (r.source_state ≡ s) × Leads r.resulting_state rs t

Leads-snoc :
    (s t : OperationState) (rs : List TransitionRecord) (r : TransitionRecord)
    → Leads s rs t
    → r.source_state ≡ t
    → Leads s (rs ++ r ∷ []) r.resulting_state
Leads-snoc s t [] r h e = (e ∙ sym h, refl)
Leads-snoc s t (x ∷ rs) r h e = (h.0, Leads-snoc x.resulting_state t rs r h.1 e)

-- The attempts of the records that entered IN_FLIGHT.
abbrev entered : OperationState → Option String → List String → List String
entered in_flight (some a) rest = a ∷ rest
entered _ _ rest = rest

unfoldable pub dispatched : List TransitionRecord → List String
dispatched [] = []
dispatched (r ∷ rs) = entered r.resulting_state r.attempt_id (dispatched rs)

entered_append :
    (s : OperationState) (o : Option String) (xs ys : List String)
    → entered s o (xs ++ ys) ≡ entered s o xs ++ ys
entered_append in_flight (some a) xs ys = refl
entered_append in_flight none xs ys = refl
entered_append _ o xs ys = refl

dispatched-snoc :
    (rs : List TransitionRecord) (r : TransitionRecord)
    → dispatched (rs ++ r ∷ []) ≡ dispatched rs ++ entered r.resulting_state r.attempt_id []
unfolding dispatched
dispatched-snoc [] r = refl
dispatched-snoc (x ∷ rs) r =
    rw (dispatched-snoc rs r) (entered_append x.resulting_state x.attempt_id _ _)

-- The invariant of a machine.
pub record IsCoherent (m : OperationStateMachine) : Type 0 where
  pub leads : Leads proposed m.history m.state
  pub attempts : m.attempt_ids ≡ dispatched m.history
  pub distinct : NoRepeat m.attempt_ids
  pub valid : All (λ a. is_attempt_id (codes a) ≡ true) m.attempt_ids

entered_ne : (s : OperationState) (o : Option String) → s ≢ in_flight → entered s o [] ≡ []
entered_ne in_flight o h = absurd (h refl)
entered_ne _ o h = refl

-- A record that enters no attempt keeps the invariant.
log-IsCoherent :
    (m : OperationStateMachine) (r : TransitionRecord)
    → IsCoherent m
    → r.source_state ≡ m.state
    → r.resulting_state ≢ in_flight
    → IsCoherent (log r m)
log-IsCoherent m r h source other = record {
  leads = Leads-snoc proposed m.state m.history r h.leads source;
  attempts =
      rw (dispatched-snoc m.history r, entered_ne r.resulting_state r.attempt_id other, append-nil)
        h.attempts;
  distinct = h.distinct;
  valid = h.valid;
}

moved_to-IsCoherent :
    (m : OperationStateMachine) (t : OperationState) (e : TransitionEvidence) (a : Option String)
    → IsCoherent m
    → AttemptFits m.attempt_ids t a
    → IsCoherent (moved_to m t e a)
unfolding append_attempt
moved_to-IsCoherent m t e none h fits = log-IsCoherent m (success m t e none) h refl fits
moved_to-IsCoherent m t e (some a) h (enters, good, new) = record {
  leads = Leads-snoc proposed m.state m.history (success m t e (some a)) h.leads refl;
  attempts = rw (dispatched-snoc m.history (success m t e (some a)), enters, h.attempts);
  distinct = NoRepeat-snoc m.attempt_ids a h.distinct (Fresh-str_mem a m.attempt_ids new);
  valid = All-append _ m.attempt_ids (a ∷ []) h.valid (good, tt);
}

IsCoherent-of :
    (m : OperationStateMachine) (t : OperationState) (e : TransitionEvidence)
    (id : OperationIdentity) (a : Option String)
    (out : Outcome TransitionRecord TransitionRecord × OperationStateMachine)
    → Transitioned m t e id a out
    → IsCoherent m
    → IsCoherent out.1
IsCoherent-of m t e id a out (terminal dead is) h = rw is h
IsCoherent-of m t e id a out (failed live refused (reason, is)) h =
    rw is (log-IsCoherent m (failure m t e a reason) h refl (λ x. cc))
IsCoherent-of m t e id a out (reported ready report is) h =
    rw is (log-IsCoherent m _ h refl (λ x. cc (sym report.0 ∙ x)))
IsCoherent-of m t e id a out (moved ready other edge is) h =
    rw is (moved_to-IsCoherent m t e a h ready.fits)

pub call-IsCoherent : (m : OperationStateMachine) (c : Call) → IsCoherent m → IsCoherent (call m c)
call-IsCoherent m c =
    IsCoherent-of m _ _ _ _ _
      (transition-Transitioned m c.target c.evidence c.identity c.attempt_id)

-- After any calls on a new machine, the history is a chain of records from PROPOSED to the machine's
-- state, the attempts are those of the records that entered IN_FLIGHT, in their order, no attempt
-- identifier stands twice, and each is valid.
pub run-IsCoherent :
    (cs : List Call) (id : OperationIdentity) → IsCoherent (run cs (new_machine id))
unfolding new_machine dispatched
run-IsCoherent cs id =
    run_keeps IsCoherent call-IsCoherent cs (new_machine id)
      (record { leads = refl; attempts = refl; distinct = tt; valid = tt })
