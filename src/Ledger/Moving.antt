-- ===== src/Ledger/Moving.antt =====
-- What `transition` does to a ledger of src/side_effects_lab/ledger.py.
use side_effects_lab.Prelude.{
  String, not, Option, none, some, List, ◌≡◌, ◌⊎◌, inl, inr, refl, sym, ap, ◌∙◌, subst, length,
}
use side_effects_lab.Prelude.Int.{ℤ}
use side_effects_lab.Prelude.Result.{
  ok, require, ledger_closed_error, validation_error, dispatch_required_error,
}
use side_effects_lab.Prelude.Exec.{Outcome, returned, raised, pure}
use side_effects_lab.Text.{codes}
use side_effects_lab.Models.Identifiers.{is_action_id}
use side_effects_lab.StateMachine.Types.{
  OperationState, in_flight, TransitionEvidence, OperationIdentity, TransitionRecord,
}
use side_effects_lab.StateMachine.Machine.{OperationStateMachine, is_state}
use side_effects_lab.Ledger.Tables.{SqLiteLedger, attempts_of}
use side_effects_lab.Ledger.Appending.{IsLog}
use side_effects_lab.Ledger.Dating.{AttemptsBelow-more}
use side_effects_lab.Ledger.Steps.{Ensures, ensures_bind, ensures_lift, lift_step, transaction_step}
use side_effects_lab.Ledger.Replay.{PersistedTransition, outcome_record, load_machine}
use side_effects_lab.Ledger.Operations.{strict_tick}
use side_effects_lab.Ledger.Persisting.{persist_transition}
use side_effects_lab.Ledger.Transitions.{
  Tried, try_transition, persist_tried, transition_body, transition_operation,
}
use side_effects_lab.Ledger.Trying.{
  Moved, Recorded, Unrecorded, attempts_after, was_raised, try_transition-cases,
}
use side_effects_lab.Ledger.Replaying.{IsIdentity, IsEvidence}
use side_effects_lab.Ledger.Loading.{AttemptsFit, load_parts}
use side_effects_lab.Ledger.Reachable.{load-reachable}
use side_effects_lab.Ledger.Effects.{Persists, persist_transition-Persists}
use side_effects_lab.Ledger.Advance.{persisted_in}
use side_effects_lab.Ledger.Contract.{Advanced, Advanced-by, Executed, Tries, settled}

-- The identity of a tried machine is the operation's.
pub tried_action :
    (action : String) (s : SqLiteLedger) (m m' : OperationStateMachine)
    (ps : List PersistedTransition)
    → load_machine action s ≡ ok (m, ps)
    → m'.identity ≡ m.identity
    → m'.identity.action_id ≡ action
tried_action action s m m' ps h same =
    ap (λ x. x.action_id) same ∙ (load-reachable action s m ps h).0

attempts_without :
    (o : Outcome TransitionRecord TransitionRecord) (ids : List String)
    → attempts_after o none ids ≡ ids
attempts_without (returned r) ids = refl
attempts_without (raised r) ids = refl

module _ (action : String) (t : OperationState) (e : TransitionEvidence) (id : OperationIdentity)
    (a : Option String) (s : SqLiteLedger) (m : OperationStateMachine)
    (ps : List PersistedTransition) (valid : IsEvidence e) (made : IsIdentity id)
    (loaded : load_machine action s ≡ ok (m, ps)) where
  -- A record that enters no attempt.
  pub Persists-Advanced :
      (o : Outcome TransitionRecord TransitionRecord) (m' : OperationStateMachine)
      (p : PersistedTransition) (s' : SqLiteLedger)
      → Moved m t e id a o m'
      → attempts_after o a m.attempt_ids ≡ m.attempt_ids
      → Persists m'.identity.action_id id (outcome_record o) e s p s'
      → Advanced action t e id a o p s s'
  Persists-Advanced o m' p s' moves same h =
      let own = tried_action action s m m' ps loaded moves.identity_same in
      let (seq, rows, reaches, is, after) =
        subst (λ x. Persists x id (outcome_record o) e s p s') own h in
      subst (λ x. Advanced action t e id a o p s x) (sym after)
        (subst
          (λ x.
            Advanced action t e id a o x s (persisted_in s action id (outcome_record o) e seq rows))
          (sym is)
          (Advanced-by action t e id a o m m' ps seq rows s.attempts s loaded moves valid made
            reaches
            (subst (AttemptsFit (attempts_of action s.attempts)) (sym (moves.attempts_are ∙ same))
              (load_parts action s m ps loaded).attempts_fit)
            (λ b other. refl)
            (AttemptsBelow-more (length s.events) (length rows) s.attempts reaches.extends.grown)))

-- The snapshot that `transition` returns is the persisted transition itself.
abbrev pub Itself : PersistedTransition → PersistedTransition → Type 0
Itself x p = x ≡ p

Tries-of :
    (action : String) (t : OperationState) (e : TransitionEvidence) (id : OperationIdentity)
    (a : Option String) (s s' : SqLiteLedger) (o : Outcome TransitionRecord TransitionRecord)
    (p : PersistedTransition)
    → Advanced action t e id a o p s s'
    → Tries Itself action t e id a s (was_raised o, some p) s'
Tries-of action t e id a s s' (returned r) p h = (r, p, h, refl)
Tries-of action t e id a s s' (raised r) p h = inr (r, p, h)

tried-Tries :
    (action : String) (t : OperationState) (e : TransitionEvidence) (id : OperationIdentity)
    (tick : ℤ) (s : SqLiteLedger) (m : OperationStateMachine) (ps : List PersistedTransition)
    (tried : Tried)
    → IsEvidence e
    → IsIdentity id
    → IsLog s.events
    → load_machine action s ≡ ok (m, ps)
    → Recorded m t e id none tried ⊎ Unrecorded m t e id none tried
    → Ensures (Tries Itself action t e id none s) (persist_tried tried id e tick tried.to_persist s)
unfolding persist_tried
tried-Tries action t e id tick s m ps tried valid made log loaded (inr quiet) =
    subst (λ x. Ensures (Tries Itself action t e id none s) (persist_tried tried id e tick x s))
      (sym quiet.persists_none)
      (subst (λ x. Tries Itself action t e id none s (x, none) s) (sym quiet.catches) (inl refl))
tried-Tries action t e id tick s m ps tried valid made log loaded (inl done) =
    let o = done.outcome in
    let r = outcome_record o in
    subst (λ x. Ensures (Tries Itself action t e id none s) (persist_tried tried id e tick x s))
      (sym done.persists)
      (ensures_bind (Persists tried.machine.identity.action_id id r e s)
        (Tries Itself action t e id none s) (persist_transition tried.machine.identity id r e tick)
        (λ p. pure (tried.caught, some p)) s
        (persist_transition-Persists tried.machine.identity id r e tick s log)
        (λ p s' h.
          subst (λ x. Tries Itself action t e id none s (x, some p) s') (sym done.catches)
            (Tries-of action t e id none s s' o p (
              Persists-Advanced action t e id none s m ps valid made loaded o tried.machine p s'
                done.moves (attempts_without o m.attempt_ids) h))))

transition_body-Tries :
    (action : String) (t : OperationState) (e : TransitionEvidence) (id : OperationIdentity)
    (tick : ℤ) (s : SqLiteLedger)
    → IsEvidence e
    → IsIdentity id
    → IsLog s.events
    → Ensures (Tries Itself action t e id none s) (transition_body action t e id tick s)
unfolding transition_body
transition_body-Tries action t e id tick s valid made log =
    ensures_lift (Tries Itself action t e id none s) (load_machine action s) _ s (λ loaded is.
      tried-Tries action t e id tick s loaded.0 loaded.1 (try_transition t e id none loaded.0) valid
        made log is (try_transition-cases loaded.0 t e id none tt))

-- `transition` on a ledger whose events are a log: if it returns, the stored machine of the operation
-- accepted the call and the ledger holds the machine after it with the returned transition; if it
-- raises, the ledger is as it was, or the machine raised, its violation is persisted and the call
-- raises InvalidTransitionError. No other operation changes, and the events are a log again.
pub transition_operation-Executed :
    (action : String) (t : OperationState) (e : TransitionEvidence) (id : OperationIdentity)
    (tick : ℤ) (s : SqLiteLedger)
    → IsEvidence e
    → IsIdentity id
    → IsLog s.events
    → Executed Itself action t e id none s (transition_operation action t e id tick s)
unfolding transition_operation
transition_operation-Executed action t e id tick s valid made log =
    let P = Executed Itself action t e id none s in
    lift_step P (require (not s.closed) ledger_closed_error) _ s (λ error. inl refl)
      (λ u ready.
        lift_step P (require (is_action_id (codes action)) validation_error) _ s (λ error. inl refl)
          (λ u2 named.
            lift_step P (strict_tick tick) _ s (λ error. inl refl)
              (λ tick' ticks.
                lift_step P (require (not (is_state t in_flight)) dispatch_required_error) _ s
                  (λ error. inl refl)
                  (λ u3 free.
                    transaction_step (Tries Itself action t e id none s) P
                      (transition_body action t e id tick') _ s
                      (transition_body-Tries action t e id tick' s valid made log)
                      (λ error. inl refl) (settled Itself action t e id none s)))))
