-- ===== src/Ledger/Attempting.antt =====
-- The row of a dispatched attempt in a ledger of src/side_effects_lab/ledger.py.
use side_effects_lab.Prelude.{
  ◌+◌, String, true, some, List, [], ◌∷◌, ◌++◌, ◌≡◌, sym, ap, ◌∙◌, subst, length, length-append,
  arith, and_parts,
}
use side_effects_lab.Prelude.Int.{ℤ, pos, leb_ℤ}
use side_effects_lab.Prelude.Result.{ok}
use side_effects_lab.Prelude.Exec.{returned}
use side_effects_lab.Text.{codes}
use side_effects_lab.Models.Identifiers.{is_attempt_id}
use side_effects_lab.StateMachine.Types.{
  in_flight, TransitionEvidence, OperationIdentity, TransitionRecord,
}
use side_effects_lab.StateMachine.Machine.{OperationStateMachine}
use side_effects_lab.Ledger.Tables.{
  EventRow, AttemptRow, SqLiteLedger, attempts_of, has_event, attempt_allowed,
}
use side_effects_lab.Ledger.Dating.{Reaches, AttemptsBelow-more}
use side_effects_lab.Ledger.Replay.{PersistedTransition, kept_as, load_machine}
use side_effects_lab.Ledger.Transitions.{new_attempt}
use side_effects_lab.Ledger.Trying.{Moved}
use side_effects_lab.Ledger.Rows.{Numbered, attempts_of-other, attempts_of-next}
use side_effects_lab.Ledger.Replaying.{IsIdentity, IsEvidence}
use side_effects_lab.Ledger.Loading.{AttemptsFit, AttemptsFit-snoc, attempt_count, load_parts}
use side_effects_lab.Ledger.Advance.{persisted_in}
use side_effects_lab.Ledger.Contract.{Advanced, Advanced-by}
use side_effects_lab.Ledger.Moving.{tried_action}

-- The event of a dispatch is there where the attempt's row is let in.
pub allowed-dispatch :
    (row : AttemptRow) (s : SqLiteLedger)
    → attempt_allowed row s ≡ true
    → has_event row.dispatch_event_seq s.events ≡ true
unfolding attempt_allowed
allowed-dispatch row s h =
    let (before, last) = and_parts _ (has_event row.transition_event_seq s.events) h in
    (and_parts _ (has_event row.dispatch_event_seq s.events) before).1

module _ (action attempt : String) (e : TransitionEvidence) (id : OperationIdentity)
    (s : SqLiteLedger) (m m' : OperationStateMachine) (ps : List PersistedTransition)
    (r : TransitionRecord) (loaded : load_machine action s ≡ ok (m, ps))
    (moves : Moved m in_flight e id (some attempt) (returned r) m') where
  -- The attempts' rows with the new one.
  dispatched_fit :
      (dispatch_seq seq : ℤ)
      → is_attempt_id (codes attempt) ≡ true
      → AttemptsFit
          (attempts_of action (new_attempt attempt m' dispatch_seq seq ∷ s.attempts))
          m'.attempt_ids
  dispatched_fit dispatch_seq seq named =
      let row = new_attempt attempt m' dispatch_seq seq in
      let before = (load_parts action s m ps loaded).attempts_fit in
      let own : row.action_id ≡ action = tried_action action s m m' ps loaded moves.identity_same in
      let next : row.ordinal ≡ pos (1 + length (attempts_of action s.attempts)) = ap pos (
        omega (
          arith,
          ap length moves.attempts_are,
          length-append m.attempt_ids (attempt ∷ []),
          attempt_count (attempts_of action s.attempts) m.attempt_ids before,
        )) in
      let placed : attempts_of action (row ∷ s.attempts)
          ≡ attempts_of action s.attempts ++ row ∷ [] =
        subst (λ x. attempts_of x (row ∷ s.attempts) ≡ attempts_of x s.attempts ++ row ∷ []) own
          (attempts_of-next row s.attempts
            (subst (λ x. Numbered (λ (q : AttemptRow). q.ordinal) 1 (attempts_of x s.attempts))
              (sym own) before.numbered)
            (subst (λ x. row.ordinal ≡ pos (1 + length (attempts_of x s.attempts))) (sym own)
              next)) in
      subst (λ x. AttemptsFit x m'.attempt_ids) (sym placed)
        (subst (AttemptsFit (attempts_of action s.attempts ++ row ∷ [])) (sym moves.attempts_are)
          (AttemptsFit-snoc (attempts_of action s.attempts) m.attempt_ids row before named next))

  -- The ledger after an accepted dispatch.
  pub dispatch_advances :
      (dispatch_seq seq : ℤ) (rows : List EventRow)
      → IsEvidence e
      → IsIdentity id
      → is_attempt_id (codes attempt) ≡ true
      → Reaches s.events seq rows
      → leb_ℤ dispatch_seq (pos (length rows)) ≡ true
      → Advanced action in_flight e id
          (some attempt)
          (returned r)
          (kept_as r e seq)
          s
          (record (persisted_in s action id r e seq rows) {
            attempts = new_attempt attempt m' dispatch_seq seq ∷ s.attempts;
          })
  dispatch_advances dispatch_seq seq rows valid made named reaches dispatched =
      let own = tried_action action s m m' ps loaded moves.identity_same in
      Advanced-by action in_flight e id (some attempt) (returned r) m m' ps seq rows
        (new_attempt attempt m' dispatch_seq seq ∷ s.attempts) s loaded moves valid made reaches
        (dispatched_fit dispatch_seq seq named)
        (λ b other. attempts_of-other b _ s.attempts (λ h. other (sym h ∙ own)))
        (λ below. (
          (dispatched, reaches.reached),
          AttemptsBelow-more (length s.events) (length rows) s.attempts reaches.extends.grown below,
        ))
