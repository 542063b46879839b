-- ===== src/Ledger/Dispatching.antt =====
-- What `record_dispatch` does to a ledger of src/side_effects_lab/ledger.py.
use side_effects_lab.Prelude.{
  String, Bool, true, not, Option, none, some, List, ◌∷◌, ◌≡◌, ◌⊎◌, inl, inr, refl, sym, ap, ◌∙◌,
  subst, length,
}
use side_effects_lab.Prelude.Int.{ℤ, pos, leb_ℤ}
use side_effects_lab.Prelude.Result.{ok, require, require_ok, ledger_closed_error, validation_error}
use side_effects_lab.Prelude.Exec.{Outcome, returned, raised, ◌>>◌}
use side_effects_lab.Text.{codes}
use side_effects_lab.Models.Identifiers.{is_action_id, is_attempt_id}
use side_effects_lab.Models.Events.{attempt_dispatched}
use side_effects_lab.StateMachine.Types.{
  in_flight, TransitionEvidence, OperationIdentity, TransitionRecord,
}
use side_effects_lab.StateMachine.Machine.{OperationStateMachine}
use side_effects_lab.Ledger.Tables.{EventRow, SqLiteLedger, has_event, attempt_allowed}
use side_effects_lab.Ledger.Appending.{IsLog}
use side_effects_lab.Ledger.Dating.{Extends, Extends-then, Reaches, event_below}
use side_effects_lab.Ledger.Steps.{Ensures, ensures_bind, ensures_lift, lift_step, transaction_step}
use side_effects_lab.Ledger.Replay.{PersistedTransition, kept_as, outcome_record, load_machine}
use side_effects_lab.Ledger.Operations.{strict_tick, lifecycle_event, insert_next}
use side_effects_lab.Ledger.Persisting.{persist_transition}
use side_effects_lab.Ledger.Transitions.{
  DispatchPermit, Tried, try_transition, insert_attempt, new_attempt, persist_dispatch,
  dispatch_tried, dispatch_body, record_dispatch,
}
use side_effects_lab.Ledger.Trying.{Moved, Recorded, Unrecorded, was_raised, try_transition-cases}
use side_effects_lab.Ledger.Replaying.{IsIdentity, IsEvidence}
use side_effects_lab.Ledger.Effects.{
  Persists, ensures_logs, insert_next-Logs, persist_transition-Persists, insert_attempt_ensures,
}
use side_effects_lab.Ledger.Advance.{persisted_in}
use side_effects_lab.Ledger.Contract.{Advanced, Executed, Granted, Tries, settled}
use side_effects_lab.Ledger.Moving.{tried_action, Persists-Advanced}
use side_effects_lab.Ledger.Attempting.{allowed-dispatch, dispatch_advances}

-- The permit names the operation, the attempt and the event of the persisted transition.
abbrev pub Permits : String → String → DispatchPermit → PersistedTransition → Type 0
Permits action attempt permit p =
    (permit.action_id ≡ action)
    × (permit.attempt_id ≡ attempt)
    × (permit.transition_event_seq ≡ p.event_seq)

module _ (action attempt : String) (e : TransitionEvidence) (id : OperationIdentity) (tick : ℤ)
    (s : SqLiteLedger) (m : OperationStateMachine) (ps : List PersistedTransition) (tried : Tried)
    (valid : IsEvidence e) (made : IsIdentity id) (named : is_attempt_id (codes attempt) ≡ true)
    (log : IsLog s.events) (loaded : load_machine action s ≡ ok (m, ps)) where
  abbrev Answered : Bool × Option DispatchPermit → SqLiteLedger → Type 0
  Answered = Tries (Permits action attempt) action in_flight e id (some attempt) s

  abbrev Issued : DispatchPermit → SqLiteLedger → Type 0
  Issued = Granted (Permits action attempt) action in_flight e id (some attempt) s

  Advanced-with :
      (r : TransitionRecord) (dispatch_seq seq : ℤ) (rows : List EventRow) (p : PersistedTransition)
      (s' : SqLiteLedger)
      → Moved m in_flight e id (some attempt) (returned r) tried.machine
      → Reaches s.events seq rows
      → leb_ℤ dispatch_seq (pos (length rows)) ≡ true
      → p ≡ kept_as r e seq
      → s' ≡ persisted_in s action id r e seq rows
      → Advanced action in_flight e id (some attempt) (returned r) p s (record s' {
        attempts = new_attempt attempt tried.machine dispatch_seq p.event_seq ∷ s'.attempts;
      })
  Advanced-with r dispatch_seq seq rows p s' moves reaches dispatched is ends =
      subst
        (λ x. Advanced action in_flight e id (some attempt) (returned r) p s (record x {
          attempts = new_attempt attempt tried.machine dispatch_seq p.event_seq ∷ x.attempts;
        }))
        (sym ends)
        (subst
          (λ q.
            Advanced action in_flight e id (some attempt) (returned r) q s
              (record (persisted_in s action id r e seq rows) {
                attempts = new_attempt attempt tried.machine dispatch_seq q.event_seq ∷ s.attempts;
              }))
          (sym is)
          (dispatch_advances action attempt e id s m tried.machine ps r loaded moves dispatch_seq
            seq rows valid made named reaches dispatched))

  attempt_recorded :
      (r : TransitionRecord) (dispatch_seq : ℤ) (s1 s' : SqLiteLedger) (p : PersistedTransition)
      → Moved m in_flight e id (some attempt) (returned r) tried.machine
      → (rows : List EventRow) → Extends s.events rows
      → s1 ≡ record s { events = rows }
      → Persists tried.machine.identity.action_id id r e s1 p s'
      → Ensures Issued (
          (insert_attempt (new_attempt attempt tried.machine dispatch_seq p.event_seq) >> λ x. (
            returned (record {
              run_id = x.run_id;
              action_id = tried.machine.identity.action_id;
              attempt_id = attempt;
              dispatch_event_seq = dispatch_seq;
              transition_event_seq = p.event_seq;
            }),
            x,
          ))
            s')
  attempt_recorded r dispatch_seq s1 s' p moves rows first at h =
      let own = tried_action action s m tried.machine ps loaded moves.identity_same in
      let row = new_attempt attempt tried.machine dispatch_seq p.event_seq in
      let (seq, rows', more, is, after) = subst (λ x. Persists x id r e s1 p s') own h in
      let reaches : Reaches s.events seq rows' = record {
        extends =
            Extends-then s.events s1.events rows'
              (subst (Extends s.events) (sym (ap (λ x. x.events) at)) first) more.extends;
        reached = more.reached;
      } in
      let ends : s' ≡ persisted_in s action id r e seq rows' =
        after ∙ ap (λ x. persisted_in x action id r e seq rows') at in
      ensures_bind
        (λ u t. (t ≡ record s' { attempts = row ∷ s'.attempts }) × (attempt_allowed row s' ≡ true))
        Issued (insert_attempt row) _ s' (insert_attempt_ensures row s')
        (λ u t (put, allowed).
          let there =
            subst (λ x. has_event dispatch_seq x.events ≡ true) ends
              (allowed-dispatch row s' allowed) in
          subst
            (λ (x : SqLiteLedger).
              Issued
                (record {
                  run_id = x.run_id;
                  action_id = tried.machine.identity.action_id;
                  attempt_id = attempt;
                  dispatch_event_seq = dispatch_seq;
                  transition_event_seq = p.event_seq;
                })
                x)
            (sym put)
            (
              r,
              p,
              Advanced-with r dispatch_seq seq rows' p s' moves reaches
                  (event_below dispatch_seq rows' more.extends.log there) is ends,
              (own, refl, refl),
            ))

  persist_dispatch-Issued :
      (r : TransitionRecord)
      → Moved m in_flight e id (some attempt) (returned r) tried.machine
      → Ensures Issued (persist_dispatch tried id attempt e tick r s)
  unfolding persist_dispatch
  persist_dispatch-Issued r moves =
      let make = λ (n : ℤ).
        record (lifecycle_event n tick attempt_dispatched tried.machine.identity) {
          attempt_id = some attempt;
        } in
      ensures_logs Issued (insert_next make) _ s (insert_next-Logs make s log)
        (λ dispatch_seq rows first.
          ensures_bind
            (Persists tried.machine.identity.action_id id r e (record s { events = rows })) Issued
            (persist_transition tried.machine.identity id r e tick) _ (record s { events = rows })
            (persist_transition-Persists tried.machine.identity id r e tick
              (record s { events = rows }) first.log)
            (λ p s' h.
              attempt_recorded r dispatch_seq (record s { events = rows }) s' p moves rows first
                refl h))

  recorded_dispatch :
      (o : Outcome TransitionRecord TransitionRecord)
      → Moved m in_flight e id (some attempt) o tried.machine
      → Ensures Answered
          (dispatch_tried tried id attempt e tick (was_raised o) (some (outcome_record o)) s)
  unfolding dispatch_tried
  recorded_dispatch (returned r) moves =
      ensures_bind Issued Answered (persist_dispatch tried id attempt e tick r) _ s
        (persist_dispatch-Issued r moves) (λ permit s' h. h)
  recorded_dispatch (raised r) moves =
      ensures_bind (Persists tried.machine.identity.action_id id r e s) Answered
        (persist_transition tried.machine.identity id r e tick) _ s
        (persist_transition-Persists tried.machine.identity id r e tick s log)
        (λ p s' h. inr (
          r,
          p,
          Persists-Advanced action in_flight e id (some attempt) s m ps valid made loaded (raised r)
              tried.machine p s' moves refl h,
        ))

  tried-Answered :
      Recorded m in_flight e id (some attempt) tried
        ⊎ Unrecorded m in_flight e id (some attempt) tried
      → Ensures Answered (dispatch_tried tried id attempt e tick tried.caught tried.to_persist s)
  unfolding dispatch_tried
  tried-Answered (inr quiet) =
      subst (λ x. Ensures Answered (dispatch_tried tried id attempt e tick tried.caught x s))
        (sym quiet.persists_none)
        (subst (λ x. Ensures Answered (dispatch_tried tried id attempt e tick x none s))
          (sym quiet.catches) (inl refl))
  tried-Answered (inl done) =
      subst (λ x. Ensures Answered (dispatch_tried tried id attempt e tick tried.caught x s))
        (sym done.persists)
        (subst
          (λ x.
            Ensures Answered
              (dispatch_tried tried id attempt e tick x (some (outcome_record done.outcome)) s))
          (sym done.catches) (recorded_dispatch done.outcome done.moves))

dispatch_body-Tries :
    (action attempt : String) (e : TransitionEvidence) (id : OperationIdentity) (tick : ℤ)
    (s : SqLiteLedger)
    → IsEvidence e
    → IsIdentity id
    → is_attempt_id (codes attempt) ≡ true
    → IsLog s.events
    → Ensures
        (Tries (Permits action attempt) action in_flight e id (some attempt) s)
        (dispatch_body action attempt e id tick s)
unfolding dispatch_body
dispatch_body-Tries action attempt e id tick s valid made named log =
    ensures_lift (Tries (Permits action attempt) action in_flight e id (some attempt) s)
      (load_machine action s) _ s
      (λ loaded is.
        tried-Answered action attempt e id tick s loaded.0 loaded.1
          (try_transition in_flight e id (some attempt) loaded.0) valid made named log is
          (try_transition-cases loaded.0 in_flight e id (some attempt) named))

-- `record_dispatch` on a ledger whose events are a log: if it returns, the stored machine of the
-- operation accepted the entry to IN_FLIGHT, the ledger holds the machine after it with one transition
-- and the attempt more, and the permit names the operation, the attempt and the transition's event; if
-- it raises, the ledger is as it was, or the machine raised, its violation is persisted and the call
-- raises InvalidTransitionError. No other operation changes, and the events are a log again.
pub record_dispatch-Executed :
    (action attempt : String) (e : TransitionEvidence) (id : OperationIdentity) (tick : ℤ)
    (s : SqLiteLedger)
    → IsEvidence e
    → IsIdentity id
    → IsLog s.events
    → Executed
        (Permits action attempt)
        action
        in_flight
        e
        id
        (some attempt)
        s
        (record_dispatch action attempt e id tick s)
unfolding record_dispatch
record_dispatch-Executed action attempt e id tick s valid made log =
    let Fits = Permits action attempt in
    let P = Executed Fits action in_flight e id (some attempt) s in
    lift_step P (require (not s.closed) ledger_closed_error) _ s (λ error. inl refl)
      (λ u ready.
        lift_step P (require (is_action_id (codes action)) validation_error) _ s (λ error. inl refl)
          (λ u2 named.
            lift_step P (require (is_attempt_id (codes attempt)) validation_error) _ s
              (λ error. inl refl)
              (λ u3 presentable.
                lift_step P (strict_tick tick) _ s (λ error. inl refl)
                  (λ tick' ticks.
                    transaction_step (Tries Fits action in_flight e id (some attempt) s) P
                      (dispatch_body action attempt e id tick') _ s
                      (dispatch_body-Tries action attempt e id tick' s valid made
                        (require_ok _ validation_error u3 presentable) log)
                      (λ error. inl refl) (settled Fits action in_flight e id (some attempt) s)))))
