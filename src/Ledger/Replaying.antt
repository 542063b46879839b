-- ===== src/Ledger/Replaying.antt =====
-- Replaying the rows of src/side_effects_lab/ledger.py once more, after a row has been added.
use side_effects_lab.Prelude.{
  ℕ, ◌+◌, String, Option, List, [], ◌∷◌, ◌++◌, ◌≡◌, refl, sym, ap, subst, length, length-append,
  ==_iff, arith,
}
use side_effects_lab.Prelude.Int.{ℤ, pos, eq_ℤ, eq_ℤ_iff}
use side_effects_lab.Prelude.Result.{
  ok, require_then, bind_ok, ok_injective, ledger_integrity_error,
}
use side_effects_lab.Prelude.Exec.{Outcome}
use side_effects_lab.StateMachine.Types.{
  OperationState, OperationIdentity, operation_identity, TransitionEvidence, transition_evidence,
  TransitionRecord,
}
use side_effects_lab.StateMachine.Machine.{OperationStateMachine}
use side_effects_lab.Ledger.Tables.{TransitionRow}
use side_effects_lab.Ledger.Decoding.{
  as_integrity, state_read, cause_read, flag_read, eq_record_iff,
}
use side_effects_lab.Ledger.Replay.{
  PersistedTransition, kept_as, outcome_record, decode_evidence, decode_record, decode_row,
  replay_stored, replay_row, replay_rows,
}
use side_effects_lab.Ledger.Persisting.{new_transition}
use side_effects_lab.Ledger.Trying.{Moved}
use side_effects_lab.Ledger.Rows.{Numbered}

-- Validated when it was made.
abbrev pub IsIdentity : OperationIdentity → Type 0
IsIdentity id =
    operation_identity id.action_id id.operation_key id.intent_digest id.authority_id ≡ ok id

abbrev pub IsEvidence : TransitionEvidence → Type 0
IsEvidence e = transition_evidence e ≡ ok e

module _ (action : String) (id : OperationIdentity) (r : TransitionRecord) (e : TransitionEvidence)
    (ordinal seq : ℤ) where
  evidence_read :
      IsEvidence e
      → r.evidence_id ≡ e.evidence_id
      → r.cause ≡ e.cause
      → decode_evidence (new_transition action id r e ordinal seq) ≡ ok e
  unfolding decode_evidence
  evidence_read valid same cause =
      rw
        (
          cause_read r.cause,
          flag_read e.fresh,
          flag_read e.authoritative,
          flag_read e.exact_identity,
          flag_read e.postcondition_verified,
          flag_read e.cardinality_valid,
          same,
          cause,
        )
        valid

  record_read : decode_record (new_transition action id r e ordinal seq) ≡ ok r
  unfolding decode_record
  record_read =
      rw
        (
          state_read r.source_state,
          state_read r.attempted_state,
          state_read r.resulting_state,
          cause_read r.cause,
        )
        refl

  -- The row of a transition is read as what was written.
  row_read :
      IsEvidence e
      → IsIdentity id
      → r.evidence_id ≡ e.evidence_id
      → r.cause ≡ e.cause
      → decode_row (new_transition action id r e ordinal seq)
        ≡ ok (record { evidence = e; expected = r; candidate = id })
  unfolding decode_row
  row_read valid made same cause = rw (evidence_read valid same cause, record_read, made) refl

stored_again :
    (m : OperationStateMachine) (t : OperationState) (e : TransitionEvidence)
    (id : OperationIdentity) (a : Option String) (o : Outcome TransitionRecord TransitionRecord)
    (m' : OperationStateMachine) (seq : ℤ)
    → Moved m t e id a o m'
    → replay_stored (record { evidence = e; expected = outcome_record o; candidate = id }) seq m
      ≡ ok (m', kept_as (outcome_record o) e seq)
unfolding replay_stored
stored_again m t e id a o m' seq h =
    rw
      (
        h.target_is,
        h.attempt_is,
        h.answered,
        h.recorded,
        (==_iff (length (m.history ++ outcome_record o ∷ [])) (length m.history + 1)).1
            (length-append m.history (outcome_record o ∷ [])),
        (eq_record_iff (outcome_record o) (outcome_record o)).1 refl,
      )
      refl

row_ordinal :
    (k : ℕ) (q : TransitionRow) (m : OperationStateMachine)
    (out : OperationStateMachine × PersistedTransition)
    → replay_row k q m ≡ ok out
    → q.ordinal ≡ pos k
unfolding replay_row
row_ordinal k q m out h =
    (eq_ℤ_iff q.ordinal (pos k)).0
      (require_then (eq_ℤ q.ordinal (pos k)) ledger_integrity_error _ out h).0

-- The row of a call is replayed as the call.
pub row_again :
    (action : String) (m : OperationStateMachine) (t : OperationState) (e : TransitionEvidence)
    (id : OperationIdentity) (a : Option String) (o : Outcome TransitionRecord TransitionRecord)
    (m' : OperationStateMachine) (k : ℕ) (ordinal seq : ℤ)
    → IsEvidence e
    → IsIdentity id
    → Moved m t e id a o m'
    → ordinal ≡ pos k
    → replay_row k (new_transition action id (outcome_record o) e ordinal seq) m
      ≡ ok (m', kept_as (outcome_record o) e seq)
unfolding replay_row as_integrity
row_again action m t e id a o m' k ordinal seq valid made h n =
    rw
      (
        (eq_ℤ_iff ordinal (pos k)).1 n,
        row_read action id (outcome_record o) e ordinal seq valid made h.evidence_is h.cause_is,
      )
      (stored_again m t e id a o m' seq h)

pub replay_rows-cons :
    (k : ℕ) (q : TransitionRow) (rows : List TransitionRow) (m m1 m2 : OperationStateMachine)
    (p : PersistedTransition) (ps : List PersistedTransition)
    → replay_row k q m ≡ ok (m1, p)
    → replay_rows (k + 1) rows m1 ≡ ok (m2, ps)
    → replay_rows k (q ∷ rows) m ≡ ok (m2, p ∷ ps)
unfolding replay_rows
replay_rows-cons k q rows m m1 m2 p ps h g = rw (h, g) refl

-- How a replay of some rows went.
pub replay_rows_parts :
    (k : ℕ) (q : TransitionRow) (rows : List TransitionRow) (m m2 : OperationStateMachine)
    (all : List PersistedTransition)
    → replay_rows k (q ∷ rows) m ≡ ok (m2, all)
    → (m1 : OperationStateMachine) × (p : PersistedTransition) × (ps : List PersistedTransition)
      × (replay_row k q m ≡ ok (m1, p))
      × (replay_rows (k + 1) rows m1 ≡ ok (m2, ps))
      × (all ≡ p ∷ ps)
unfolding replay_rows
replay_rows_parts k q rows m m2 all h =
    let (step, is, more) = bind_ok (replay_row k q m) _ (m2, all) h in
    let (rest, is', same) = bind_ok (replay_rows (k + 1) rows step.0) _ (m2, all) more in
    let e : (rest.0, step.1 ∷ rest.1) ≡ (m2, all) =
      ok_injective (rest.0, step.1 ∷ rest.1) (m2, all) same in
    (
      step.0,
      step.1,
      rest.1,
      is,
      subst (λ x. replay_rows (k + 1) rows step.0 ≡ ok (x, rest.1)) (ap (λ x. x.0) e) is',
      sym (ap (λ x. x.1) e),
    )

-- Replaying one row more.
pub replay_rows-snoc :
    (k : ℕ) (rows : List TransitionRow) (row : TransitionRow) (m m1 m2 : OperationStateMachine)
    (ps : List PersistedTransition) (p : PersistedTransition)
    → replay_rows k rows m ≡ ok (m1, ps)
    → replay_row (k + length rows) row m1 ≡ ok (m2, p)
    → replay_rows k (rows ++ row ∷ []) m ≡ ok (m2, ps ++ p ∷ [])
unfolding replay_rows
replay_rows-snoc k [] row m m1 m2 ps p h g =
    let same : ◌≡◌ {A = OperationStateMachine × List PersistedTransition} (m, []) (m1, ps) =
      ok_injective (m, []) (m1, ps) h in
    let last : replay_row k row m ≡ ok (m2, p) =
      subst (λ x. replay_row k row x ≡ ok (m2, p)) (sym (ap (λ x. x.0) same))
        (subst (λ j. replay_row j row m1 ≡ ok (m2, p)) (omega arith) g) in
    subst (λ x. replay_rows k (row ∷ []) m ≡ ok (m2, x ++ p ∷ [])) (ap (λ x. x.1) same)
      (replay_rows-cons k row [] m m2 m2 p [] last refl)
replay_rows-snoc k (q ∷ rows) row m m1 m2 ps p h g =
    let (mid, first, rest, is, is', same) = replay_rows_parts k q rows m m1 ps h in
    let tail =
      replay_rows-snoc (k + 1) rows row mid m1 m2 rest p is'
        (subst (λ j. replay_row j row m1 ≡ ok (m2, p)) (omega arith) g) in
    subst (λ x. replay_rows k (q ∷ (rows ++ row ∷ [])) m ≡ ok (m2, x ++ p ∷ [])) (sym same)
      (replay_rows-cons k q (rows ++ row ∷ []) m mid m2 first (rest ++ p ∷ []) is tail)

-- Rows that were replayed are numbered.
pub replay_rows-Numbered :
    (k : ℕ) (rows : List TransitionRow) (m m' : OperationStateMachine)
    (ps : List PersistedTransition)
    → replay_rows k rows m ≡ ok (m', ps)
    → Numbered (λ x. x.ordinal) k rows
replay_rows-Numbered k [] m m' ps h = tt
replay_rows-Numbered k (q ∷ rows) m m' ps h =
    let (mid, first, rest, is, is', same) = replay_rows_parts k q rows m m' ps h in
    (row_ordinal k q m (mid, first) is, replay_rows-Numbered (k + 1) rows mid m' rest is')
