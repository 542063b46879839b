-- ===== src/Ledger/Granting.antt =====
-- When `transition` of src/side_effects_lab/ledger.py returns.
use side_effects_lab.Prelude.{
  ℕ, String, Bool, true, false, not, Option, none, some, List, ◌≡◌, ◌↔◌, ◌⊎◌, inl, inr, refl, sym,
  ap, ◌∙◌, subst, arith,
}
use side_effects_lab.Prelude.Int.{ℤ, pos}
use side_effects_lab.Prelude.Result.{
  ok, ok_injective, require, ledger_closed_error, validation_error, dispatch_required_error,
}
use side_effects_lab.Prelude.Exec.{Outcome, returned, raised, pure, lift, ◌>>=◌, ◌>>◌}
use side_effects_lab.Text.{codes}
use side_effects_lab.Models.Bounds.{is_optional}
use side_effects_lab.Models.Identifiers.{is_action_id, is_attempt_id}
use side_effects_lab.StateMachine.Types.{
  OperationState, in_flight, OperationIdentity, TransitionEvidence, TransitionRecord,
}
use side_effects_lab.StateMachine.Machine.{OperationStateMachine, is_state}
use side_effects_lab.StateMachine.Branches.{Accepts, is_state_iff}
use side_effects_lab.StateMachine.Acceptance.{transition-returns_iff}
use side_effects_lab.Ledger.Tables.{SqLiteLedger, LedgerAction, has_operation, transitions_of}
use side_effects_lab.Ledger.Operations.{strict_tick}
use side_effects_lab.Ledger.Persisting.{transition_event_evidence, persist_transition}
use side_effects_lab.Ledger.Replay.{PersistedTransition, outcome_record, load_machine}
use side_effects_lab.Ledger.Transitions.{
  Tried, try_transition, persist_tried, transition_body, settle, transition_operation,
}
use side_effects_lab.Ledger.Events.{transaction}
use side_effects_lab.Ledger.Allowing.{find-has_operation}
use side_effects_lab.Ledger.Continuing.{HasRoom, IsRecordable}
use side_effects_lab.Ledger.Contract.{Executed}
use side_effects_lab.Ledger.Inserting.{transaction_goes}
use side_effects_lab.Ledger.Loading.{load_parts}
use side_effects_lab.Ledger.Moving.{Itself, tried_action, transition_operation-Executed}
use side_effects_lab.Ledger.Reachable.{load-reachable}
use side_effects_lab.Ledger.Recording.{evidence-FieldsFlat, keys_named, made_parts, returned-IsFlat}
use side_effects_lab.Ledger.Replaying.{IsIdentity, IsEvidence, replay_rows-Numbered}
use side_effects_lab.Ledger.Rows.{Numbered}
use side_effects_lab.Ledger.Soundness.{IsSound}
use side_effects_lab.Ledger.Steps.{Ending, lift_goes, bind_goes, require_goes, flag_on}
use side_effects_lab.Ledger.Succeeding.{Succeeds, CanPersist, persist_transition_goes}
use side_effects_lab.Ledger.Trying.{Moved, Recorded, Unrecorded, was_raised, try_transition-cases}

-- An open sound ledger with room for the events of a transition at a tick, and an operation that loads.
pub record IsReady (action : String) (tick : ℕ) (s : SqLiteLedger) (m : OperationStateMachine)
    (ps : List PersistedTransition) : Type 0 where
  pub is_open : s.closed ≡ false
  pub room : HasRoom 2 tick s.events
  pub sound : IsSound s
  pub loaded : load_machine action s ≡ ok (m, ps)

pub returned_self :
    (o : Outcome TransitionRecord TransitionRecord) (r : TransitionRecord)
    → o ≡ returned r
    → (o ≡ returned (outcome_record o)) × (was_raised o ≡ false)
returned_self (returned q) r h = (refl, refl)
returned_self (raised q) r h = cc

absent_valid : (a : Option String) → a ≡ none → is_optional is_attempt_id a ≡ true
absent_valid a h = subst (λ x. is_optional is_attempt_id x ≡ true) (sym h) refl

-- The transaction's body returns a transition.
abbrev Grants : Ending (Bool × Option PersistedTransition) → Type 0
Grants out =
    (p : PersistedTransition) × (s' : SqLiteLedger) × (out ≡ (returned (false, some p), s'))

module _ (action : String) (tick : ℕ) (s : SqLiteLedger) (m : OperationStateMachine)
    (ps : List PersistedTransition) (ready : IsReady action tick s m ps) (t : OperationState)
    (e : TransitionEvidence) (id : OperationIdentity) (valid : IsEvidence e) where
  own_identity : (id' : OperationIdentity) → id' ≡ m.identity → IsIdentity id'
  own_identity id' same = subst IsIdentity (sym same) (load-reachable action s m ps ready.loaded).1

  CanPersist-ready :
      (m' : OperationStateMachine) → m'.identity ≡ m.identity → CanPersist tick m'.identity s
  CanPersist-ready m' same =
      let own = tried_action action s m m' ps ready.loaded same in
      let parts = load_parts action s m ps ready.loaded in
      record {
        room = ready.room;
        made = own_identity m'.identity same;
        known =
            subst (λ x. has_operation x s.operations ≡ true) (sym own)
              (find-has_operation action s.operations parts.row parts.found);
        numbered =
            subst (λ x. Numbered (λ y. y.ordinal) 1 (transitions_of x s.transitions)) (sym own)
              (replay_rows-Numbered 1 _ _ m ps parts.replayed);
        dated = ready.sound.dated;
      }

  IsRecordable-of :
      (o : Outcome TransitionRecord TransitionRecord) (m' : OperationStateMachine)
      → o ≡ returned (outcome_record o)
      → Moved m t e id none o m'
      → IsRecordable m'.identity
          (outcome_record o).attempt_id
          (transition_event_evidence (outcome_record o) e)
  IsRecordable-of o m' is moves =
      let r = outcome_record o in
      let attempt = absent_valid r.attempt_id moves.attempt_is in
      record {
        made = own_identity m'.identity moves.identity_same;
        attempt_valid = attempt;
        flat =
            evidence-FieldsFlat r e valid moves.evidence_is attempt
              (returned-IsFlat m t e id none r m' (moves.answered ∙ ap (λ x. (x, m')) is));
        named = keys_named r e;
      }

  persisted :
      (tried : Tried) (o : Outcome TransitionRecord TransitionRecord)
      → Moved m t e id none o tried.machine
      → tried.to_persist ≡ some (outcome_record o)
      → tried.caught ≡ was_raised o
      → o ≡ returned (outcome_record o)
      → was_raised o ≡ false
      → Grants (persist_tried tried id e (pos tick) tried.to_persist s)
  unfolding persist_tried
  persisted tried o moves persists catches is calm =
      let (n, later, (p, s', goes, at)) =
        persist_transition_goes tick tried.machine.identity id (outcome_record o) e s
          (CanPersist-ready tried.machine moves.identity_same)
          (IsRecordable-of o tried.machine is moves) in
      subst (λ x. Grants (persist_tried tried id e (pos tick) x s)) (sym persists)
        (bind_goes Grants
          (persist_transition tried.machine.identity id (outcome_record o) e (pos tick))
          (λ q. pure (tried.caught, some q)) s p s' goes
          (p, s', ap (λ b. (returned (b, some p), s')) (catches ∙ calm)))

  tried_goes :
      (tried : Tried)
      → Recorded m t e id none tried ⊎ Unrecorded m t e id none tried
      → Accepts m t e id none
      → Grants (persist_tried tried id e (pos tick) tried.to_persist s)
  tried_goes tried (inl done) accepts =
      let (r, is) = (transition-returns_iff m t e id none).1 accepts in
      let (self, calm) =
        returned_self done.outcome r (sym (ap (λ x. x.0) done.moves.answered) ∙ is) in
      persisted tried done.outcome done.moves done.persists done.catches self calm
  tried_goes tried (inr quiet) accepts = absurd (accepts.live quiet.dead)

  body_goes : Accepts m t e id none → Grants (transition_body action t e id (pos tick) s)
  unfolding transition_body
  body_goes accepts =
      lift_goes Grants (load_machine action s) _ s (m, ps) ready.loaded
        (tried_goes (try_transition t e id none m) (try_transition-cases m t e id none tt) accepts)

  named : is_action_id (codes action) ≡ true
  named =
      let (own, made, reach, kept) = load-reachable action s m ps ready.loaded in
      subst (λ x. is_action_id (codes x) ≡ true) own (made_parts m.identity made).0

  after_commit :
      Accepts m t e id none
      → Succeeds (
          (transaction (transition_body action t e id (pos tick)) >>= (λ out. lift (settle out))) s)
  unfolding settle
  after_commit accepts =
      let body = transition_body action t e id (pos tick) in
      let (p, s', is) = body_goes accepts in
      bind_goes Succeeds (transaction body) (λ out. lift (settle out)) s (false, some p) s'
        (transaction_goes body (false, some p) s s' ready.is_open is) (p, s', refl)

  transition_goes :
      Accepts m t e id none → Succeeds (transition_operation action t e id (pos tick) s)
  unfolding transition_operation
  transition_goes accepts =
      let commit : ℤ → LedgerAction PersistedTransition =
        λ n. transaction (transition_body action t e id n) >>= (λ out. lift (settle out)) in
      let not_dispatch = require (not (is_state t in_flight)) dispatch_required_error in
      lift_goes Succeeds (require (not s.closed) ledger_closed_error) _ s tt
        (require_goes _ ledger_closed_error (flag_on s.closed ready.is_open))
        (lift_goes Succeeds (require (is_action_id (codes action)) validation_error) _ s tt
          (require_goes _ validation_error named)
          (lift_goes Succeeds (strict_tick (pos tick)) (λ n. lift not_dispatch >> commit n) s
            (pos tick) refl
            (lift_goes Succeeds not_dispatch (λ u. commit (pos tick)) s tt
              (require_goes _ dispatch_required_error
                (flag_on _ (ground (arith, accepts.fits, is_state_iff t in_flight))))
              (after_commit accepts))))

accepted :
    (action : String) (s : SqLiteLedger) (m : OperationStateMachine) (ps : List PersistedTransition)
    (t : OperationState) (e : TransitionEvidence) (id : OperationIdentity)
    (out : Ending PersistedTransition)
    → load_machine action s ≡ ok (m, ps)
    → Executed Itself action t e id none s out
    → Succeeds out
    → Accepts m t e id none
accepted action s m ps t e id (raised error, s') loaded h (p, s2, is) = cc
accepted action s m ps t e id (returned p, s') loaded (r, q, adv, same) succeeds =
    let machines : ◌≡◌ {A = OperationStateMachine × List PersistedTransition} (adv.before, adv.kept)
        (m, ps) =
      ok_injective _ _ (sym adv.loaded ∙ loaded) in
    subst (λ x. Accepts x t e id none) (ap (λ x. x.0) machines)
      ((transition-returns_iff adv.before t e id none).0 (r, ap (λ x. x.0) adv.answered))

-- On an open sound ledger whose log has room for two events more at a tick, and for an operation that
-- loads: `transition` with valid evidence and a valid identity returns exactly when the loaded machine
-- accepts the call.
pub transition_operation-returns_iff :
    (action : String) (tick : ℕ) (s : SqLiteLedger) (m : OperationStateMachine)
    (ps : List PersistedTransition) (t : OperationState) (e : TransitionEvidence)
    (id : OperationIdentity)
    → IsReady action tick s m ps
    → IsEvidence e
    → IsIdentity id
    → ((p : PersistedTransition) × (s' : SqLiteLedger) × (transition_operation action t e id
            (pos tick)
            s
          ≡ (returned p, s')))
      ↔ Accepts m t e id none
transition_operation-returns_iff action tick s m ps t e id ready valid made = (
  accepted action s m ps t e id _ ready.loaded
      (transition_operation-Executed action t e id (pos tick) s valid made ready.room.log),
  transition_goes action tick s m ps ready t e id valid,
)
