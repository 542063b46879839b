-- ===== src/Ledger/Permitting.antt =====
-- When `record_dispatch` of src/side_effects_lab/ledger.py returns.
use side_effects_lab.Prelude.{
  ℕ, String, Bool, true, false, not, Option, some, List, ◌≡◌, ◌↔◌, ◌⊎◌, inl, inr, refl, sym, ap,
  ◌∙◌, subst,
}
use side_effects_lab.Prelude.Int.{ℤ, pos}
use side_effects_lab.Prelude.Result.{
  ok, ok_injective, require, ledger_closed_error, validation_error,
}
use side_effects_lab.Prelude.Exec.{Outcome, returned, raised, lift, ◌>>=◌}
use side_effects_lab.Text.{codes}
use side_effects_lab.Models.Identifiers.{is_action_id, is_attempt_id}
use side_effects_lab.StateMachine.Types.{
  in_flight, OperationIdentity, TransitionEvidence, TransitionRecord,
}
use side_effects_lab.StateMachine.Machine.{OperationStateMachine}
use side_effects_lab.StateMachine.Branches.{Accepts}
use side_effects_lab.StateMachine.Acceptance.{transition-returns_iff}
use side_effects_lab.Ledger.Tables.{SqLiteLedger, LedgerAction}
use side_effects_lab.Ledger.Operations.{strict_tick}
use side_effects_lab.Ledger.Replay.{PersistedTransition, outcome_record, load_machine}
use side_effects_lab.Ledger.Transitions.{
  DispatchPermit, Tried, try_transition, persist_dispatch, dispatch_tried, dispatch_body, settle,
  record_dispatch,
}
use side_effects_lab.Ledger.Events.{transaction}
use side_effects_lab.Ledger.Contract.{Executed}
use side_effects_lab.Ledger.Dispatching.{Permits, record_dispatch-Executed}
use side_effects_lab.Ledger.Granting.{returned_self}
use side_effects_lab.Ledger.Inserting.{transaction_goes}
use side_effects_lab.Ledger.Reachable.{load-reachable}
use side_effects_lab.Ledger.Recording.{made_parts}
use side_effects_lab.Ledger.Replaying.{IsIdentity, IsEvidence}
use side_effects_lab.Ledger.Steps.{Ending, lift_goes, bind_goes, require_goes, flag_on}
use side_effects_lab.Ledger.Succeeding.{Succeeds}
use side_effects_lab.Ledger.Trying.{Moved, Recorded, Unrecorded, try_transition-cases}
use side_effects_lab.Ledger.Issuing.{CanDispatch, dispatch_goes}

-- The transaction's body returns a permit.
abbrev Issues : Ending (Bool × Option DispatchPermit) → Type 0
Issues out = (x : DispatchPermit) × (s' : SqLiteLedger) × (out ≡ (returned (false, some x), s'))

module _ (action attempt : String) (tick : ℕ) (s : SqLiteLedger) (m : OperationStateMachine)
    (ps : List PersistedTransition) (can : CanDispatch action attempt tick s m ps)
    (e : TransitionEvidence) (id : OperationIdentity) (valid : IsEvidence e)
    (presentable : is_attempt_id (codes attempt) ≡ true) where
  permit-Issues :
      (tried : Tried) (o : Outcome TransitionRecord TransitionRecord)
      → Moved m in_flight e id (some attempt) o tried.machine
      → o ≡ returned (outcome_record o)
      → Issues (dispatch_tried tried id attempt e (pos tick) false (some (outcome_record o)) s)
  unfolding dispatch_tried
  permit-Issues tried o moves is =
      let (x, s', goes) =
        dispatch_goes action attempt tick s m ps can e id valid presentable tried (outcome_record o)
          (subst (λ y. Moved m in_flight e id (some attempt) y tried.machine) is moves) in
      bind_goes Issues (persist_dispatch tried id attempt e (pos tick) (outcome_record o)) _ s x s'
        goes (x, s', refl)

  tried-Issues :
      (tried : Tried)
      → Recorded m in_flight e id (some attempt) tried
        ⊎ Unrecorded m in_flight e id (some attempt) tried
      → Accepts m in_flight e id (some attempt)
      → Issues (dispatch_tried tried id attempt e (pos tick) tried.caught tried.to_persist s)
  tried-Issues tried (inr quiet) accepts = absurd (accepts.live quiet.dead)
  tried-Issues tried (inl done) accepts =
      let (r, is) = (transition-returns_iff m in_flight e id (some attempt)).1 accepts in
      let (self, calm) =
        returned_self done.outcome r (sym (ap (λ x. x.0) done.moves.answered) ∙ is) in
      subst (λ x. Issues (dispatch_tried tried id attempt e (pos tick) tried.caught x s))
        (sym done.persists)
        (subst
          (λ b.
            Issues (
              dispatch_tried tried id attempt e (pos tick) b (some (outcome_record done.outcome))
                s))
          (sym (done.catches ∙ calm)) (permit-Issues tried done.outcome done.moves self))

  body-Issues :
      Accepts m in_flight e id (some attempt)
      → Issues (dispatch_body action attempt e id (pos tick) s)
  unfolding dispatch_body
  body-Issues accepts =
      lift_goes Issues (load_machine action s) _ s (m, ps) can.loaded
        (tried-Issues (try_transition in_flight e id (some attempt) m)
          (try_transition-cases m in_flight e id (some attempt) presentable) accepts)

  after_issue :
      Accepts m in_flight e id (some attempt)
      → Succeeds (
          (transaction (dispatch_body action attempt e id (pos tick))
              >>= (λ out. lift (settle out)))
            s)
  unfolding settle
  after_issue accepts =
      let body = dispatch_body action attempt e id (pos tick) in
      let (x, s', is) = body-Issues accepts in
      bind_goes Succeeds (transaction body) (λ out. lift (settle out)) s (false, some x) s'
        (transaction_goes body (false, some x) s s' can.is_open is) (x, s', refl)

  named_action : is_action_id (codes action) ≡ true
  named_action =
      let (same, made, reach, kept) = load-reachable action s m ps can.loaded in
      subst (λ x. is_action_id (codes x) ≡ true) same (made_parts m.identity made).0

  record_dispatch_goes :
      Accepts m in_flight e id (some attempt)
      → Succeeds (record_dispatch action attempt e id (pos tick) s)
  unfolding record_dispatch
  record_dispatch_goes accepts =
      let commit : ℤ → LedgerAction DispatchPermit =
        λ n. transaction (dispatch_body action attempt e id n) >>= (λ out. lift (settle out)) in
      let named = require (is_attempt_id (codes attempt)) validation_error in
      lift_goes Succeeds (require (not s.closed) ledger_closed_error) _ s tt
        (require_goes _ ledger_closed_error (flag_on s.closed can.is_open))
        (lift_goes Succeeds (require (is_action_id (codes action)) validation_error) _ s tt
          (require_goes _ validation_error named_action)
          (lift_goes Succeeds named (λ u. lift (strict_tick (pos tick)) >>= commit) s tt
            (require_goes _ validation_error presentable)
            (lift_goes Succeeds (strict_tick (pos tick)) commit s (pos tick) refl
              (after_issue accepts))))

dispatch_accepted :
    (action attempt : String) (s : SqLiteLedger) (m : OperationStateMachine)
    (ps : List PersistedTransition) (e : TransitionEvidence) (id : OperationIdentity)
    (out : Ending DispatchPermit)
    → load_machine action s ≡ ok (m, ps)
    → Executed (Permits action attempt) action in_flight e id (some attempt) s out
    → Succeeds out
    → Accepts m in_flight e id (some attempt)
dispatch_accepted action attempt s m ps e id (raised error, s') loaded h (p, s2, is) = cc
dispatch_accepted action attempt s m ps e id (returned x, s') loaded (r, q, adv, fits) succeeds =
    let machines : ◌≡◌ {A = OperationStateMachine × List PersistedTransition} (adv.before, adv.kept)
        (m, ps) =
      ok_injective _ _ (sym adv.loaded ∙ loaded) in
    subst (λ y. Accepts y in_flight e id (some attempt)) (ap (λ y. y.0) machines)
      ((transition-returns_iff adv.before in_flight e id (some attempt)).0
        (r, ap (λ y. y.0) adv.answered))

-- On an open sound ledger whose log has room for three events more at a tick, for an operation that
-- loads and an identifier that no attempt has: `record_dispatch` with valid evidence and a valid
-- identity returns a permit exactly when the loaded machine accepts the entry to IN_FLIGHT with the
-- identifier.
pub record_dispatch-returns_iff :
    (action attempt : String) (tick : ℕ) (s : SqLiteLedger) (m : OperationStateMachine)
    (ps : List PersistedTransition) (e : TransitionEvidence) (id : OperationIdentity)
    → CanDispatch action attempt tick s m ps
    → IsEvidence e
    → IsIdentity id
    → ((x : DispatchPermit) × (s' : SqLiteLedger) × (record_dispatch action attempt e id
            (pos tick)
            s
          ≡ (returned x, s')))
      ↔ Accepts m in_flight e id (some attempt)
record_dispatch-returns_iff action attempt tick s m ps e id can valid made = (
  dispatch_accepted action attempt s m ps e id _ can.loaded
      (record_dispatch-Executed action attempt e id (pos tick) s valid made can.room.log),
  (λ accepts.
      record_dispatch_goes action attempt tick s m ps can e id valid (accepts.fits.1) accepts),
)
