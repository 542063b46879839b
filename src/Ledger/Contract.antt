-- ===== src/Ledger/Contract.antt =====
-- What a call that moves an operation does to a ledger of src/side_effects_lab/ledger.py: the
-- statement, and how it follows from what was persisted.
use side_effects_lab.Prelude.{
  String, Bool, true, false, Option, none, some, List, [], ◌∷◌, ◌++◌, ◌≡◌, ◌≢◌, ◌⊎◌, inl, inr, refl,
  length,
}
use side_effects_lab.Prelude.Int.{ℤ}
use side_effects_lab.Prelude.Result.{ok, invalid_transition_error}
use side_effects_lab.Prelude.Exec.{Outcome, returned, raised, lift}
use side_effects_lab.StateMachine.Types.{
  OperationState, TransitionEvidence, OperationIdentity, TransitionRecord,
}
use side_effects_lab.StateMachine.Machine.{OperationStateMachine, transition}
use side_effects_lab.Ledger.Tables.{EventRow, AttemptRow, SqLiteLedger, attempts_of}
use side_effects_lab.Ledger.Appending.{IsLog}
use side_effects_lab.Ledger.Dating.{IsDated, AttemptsBelow, Reaches, Below-more}
use side_effects_lab.Ledger.Steps.{Ending}
use side_effects_lab.Ledger.Replay.{PersistedTransition, kept_as, outcome_record, load_machine}
use side_effects_lab.Ledger.Transitions.{settle}
use side_effects_lab.Ledger.Trying.{Moved}
use side_effects_lab.Ledger.Replaying.{IsIdentity, IsEvidence}
use side_effects_lab.Ledger.Loading.{AttemptsFit, SameRows, load_parts, load_whole}
use side_effects_lab.Ledger.Advance.{persisted_in, load_advances, others_stay}

-- The operation's machine answered a call of `transition`; the ledger holds the machine after it, with
-- one persisted transition more, and every other operation as before.
pub record Advanced (action : String) (t : OperationState) (e : TransitionEvidence)
    (id : OperationIdentity) (a : Option String) (o : Outcome TransitionRecord TransitionRecord)
    (p : PersistedTransition) (s s' : SqLiteLedger) : Type 0 where
  pub before : OperationStateMachine
  pub after : OperationStateMachine
  pub kept : List PersistedTransition
  pub loaded : load_machine action s ≡ ok (before, kept)
  pub answered : transition t e id a before ≡ (o, after)
  pub persisted : p ≡ kept_as (outcome_record o) e p.event_seq
  pub stored : load_machine action s' ≡ ok (after, kept ++ p ∷ [])
  pub others : (b : String) → b ≢ action → SameRows b s s'
  pub log : IsLog s'.events
  pub dated : IsDated s → IsDated s'
  pub open_as : s'.closed ≡ s.closed

pub Advanced-by :
    (action : String) (t : OperationState) (e : TransitionEvidence) (id : OperationIdentity)
    (a : Option String) (o : Outcome TransitionRecord TransitionRecord)
    (m m' : OperationStateMachine) (ps : List PersistedTransition) (seq : ℤ) (rows : List EventRow)
    (attempts : List AttemptRow) (s : SqLiteLedger)
    → load_machine action s ≡ ok (m, ps)
    → Moved m t e id a o m'
    → IsEvidence e
    → IsIdentity id
    → Reaches s.events seq rows
    → AttemptsFit (attempts_of action attempts) m'.attempt_ids
    → ((b : String) → b ≢ action → attempts_of b attempts ≡ attempts_of b s.attempts)
    → (AttemptsBelow (length s.events) s.attempts → AttemptsBelow (length rows) attempts)
    → Advanced action t e id a o
        (kept_as (outcome_record o) e seq)
        s
        (record (persisted_in s action id (outcome_record o) e seq rows) { attempts = attempts })
Advanced-by action t e id a o m m' ps seq rows attempts s h moves valid made reaches fit same
      dates =
    record {
      before = m;
      after = m';
      kept = ps;
      loaded = h;
      answered = moves.answered;
      persisted = refl;
      stored = load_whole action _ m' (ps ++ kept_as (outcome_record o) e seq ∷ []) (
          load_advances s action m m' t e id a o ps seq rows attempts (load_parts action s m ps h)
            moves valid made fit);
      others = λ b other.
          others_stay s action m m' t e id a o ps seq rows attempts b other (same b other);
      log = reaches.extends.log;
      dated = λ below. (
        (
          reaches.reached,
          Below-more (length s.events) (length rows) s.transitions reaches.extends.grown below.0,
        ),
        dates below.1,
      );
      open_as = refl;
    }

module _ {X : Type 0} (Grants : X → PersistedTransition → Type 0) (action : String)
    (t : OperationState) (e : TransitionEvidence) (id : OperationIdentity) (a : Option String)
    (s : SqLiteLedger) where
  abbrev pub Denied : SqLiteLedger → Type 0
  Denied s' =
      (r : TransitionRecord) × (p : PersistedTransition) × Advanced action t e id a (raised r) p s
        s'

  abbrev pub Granted : X → SqLiteLedger → Type 0
  Granted x s' =
      (r : TransitionRecord) × (p : PersistedTransition) × Advanced action t e id a (returned r) p s
        s'
      × Grants x p

  -- A call that returns has moved the operation's machine. A call that raises left the ledger as it
  -- was, or raised the machine's exception after it had persisted the violation.
  abbrev pub Executed : Ending X → Type 0
  Executed (returned x, s') = Granted x s'
  Executed (raised error, s') = (s' ≡ s) ⊎ ((error ≡ invalid_transition_error) × Denied s')

  -- The same of the transaction, before the exception is raised again.
  abbrev pub Tries : Bool × Option X → SqLiteLedger → Type 0
  Tries (true, result) s' = (s' ≡ s) ⊎ Denied s'
  Tries (false, none) s' = ⊥
  Tries (false, some x) s' = Granted x s'

  pub settled :
      (out : Bool × Option X) (s' : SqLiteLedger) → Tries out s' → Executed (lift (settle out) s')
  unfolding settle
  settled (true, result) s' (inl same) = inl same
  settled (true, result) s' (inr denied) = inr (refl, denied)
  settled (false, none) s' h = absurd h
  settled (false, some x) s' h = h
