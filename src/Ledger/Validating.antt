-- ===== src/Ledger/Validating.antt =====
-- The part of `_validate_contents` in src/side_effects_lab/ledger.py that compares the events with the
-- operations, with `_validate_attempt_rows` and `_validate_transition_events`. A set is a list of its
-- entries.
use side_effects_lab.Prelude.{
  ℕ, ◌+◌, Bool, true, false, ◌&&◌, ◌||◌, none, some, List, [], ◌∷◌, ◌++◌, if◌then◌else◌, all,
}
use side_effects_lab.Prelude.Int.{ℤ, pos, eq_ℤ, leb_ℤ}
use side_effects_lab.Prelude.Result.{Result, ok, require, ledger_integrity_error, ◌>>=◌, ◌>>◌}
use side_effects_lab.Models.Events.{LabEvent}
use side_effects_lab.StateMachine.Types.{OperationIdentity}
use side_effects_lab.Ledger.Tables.{AttemptRow, SqLiteLedger, attempts_of}
use side_effects_lab.Ledger.Events.{is_managed}
use side_effects_lab.Ledger.Replay.{PersistedTransition}
use side_effects_lab.Ledger.Operations.{OperationSnapshot}
use side_effects_lab.Ledger.Matching.{
  is_proposal, is_preparation, is_dispatch, find_event, require_event, predecessor, prepares,
  transition_fits, bare_event, attempt_fits,
}

-- The preparation before a transition's event.
unfoldable pub validate_preparation :
    OperationIdentity → List LabEvent → PersistedTransition → LabEvent → Result (List ℤ)
unfolding find_event require_event bare_event
validate_preparation identity events p event =
    if prepares p
    then (require_event (find_event (predecessor p.event_seq) events)
          (λ e. bare_event is_preparation identity none e && eq_ℤ e.tick event.tick)
        >>= λ e. ok (predecessor p.event_seq ∷ []))
    else ok []

-- `_validate_transition_events`
unfoldable pub validate_transition_events :
    OperationIdentity → List LabEvent → List PersistedTransition → Result (List ℤ)
unfolding find_event require_event transition_fits validate_preparation
validate_transition_events identity events [] = ok []
validate_transition_events identity events (p ∷ ps) = do
  event ← require_event (find_event p.event_seq events) (transition_fits identity p)
  preparation ← validate_preparation identity events p event
  rest ← validate_transition_events identity events ps
  ok (p.event_seq ∷ preparation ++ rest)

-- `_validate_attempt_rows`, over the rows from an ordinal on.
unfoldable pub validate_attempt_rows :
    OperationIdentity
    → List PersistedTransition
    → List LabEvent
    → ℕ
    → List AttemptRow
    → Result (List ℤ)
unfolding find_event require_event bare_event attempt_fits
validate_attempt_rows identity history events k [] = ok []
validate_attempt_rows identity history events k (row ∷ rows) = do
  require (eq_ℤ row.ordinal (pos k)) ledger_integrity_error
  dispatch ←
      require_event (find_event row.dispatch_event_seq events)
        (bare_event is_dispatch identity (some row.attempt_id))
  event ←
      require_event (find_event row.transition_event_seq events)
        (attempt_fits identity history row dispatch)
  rest ← validate_attempt_rows identity history events (k + 1) rows
  ok (row.dispatch_event_seq ∷ row.transition_event_seq ∷ rest)

-- `snapshot.history[-1].event_seq if snapshot.history else snapshot.created_event_seq`
unfoldable pub expected_updated_seq : ℤ → List PersistedTransition → ℤ
expected_updated_seq seq [] = seq
expected_updated_seq seq (p ∷ ps) = expected_updated_seq p.event_seq ps

-- The body of the loop over the snapshots.
unfoldable pub validate_snapshot :
    SqLiteLedger → List LabEvent → OperationSnapshot → Result (List ℤ)
unfolding find_event require_event bare_event expected_updated_seq attempts_of validate_attempt_rows
    validate_transition_events
validate_snapshot s events snapshot = do
  proposal ←
      require_event (find_event snapshot.created_event_seq events)
        (bare_event is_proposal snapshot.identity none)
  require
      (eq_ℤ snapshot.updated_event_seq
        (expected_updated_seq snapshot.created_event_seq snapshot.history))
      ledger_integrity_error
  attempts ←
      validate_attempt_rows snapshot.identity snapshot.history events 1
        (attempts_of snapshot.identity.action_id s.attempts)
  transitions ← validate_transition_events snapshot.identity events snapshot.history
  ok (snapshot.created_event_seq ∷ attempts ++ transitions)

unfoldable pub validate_snapshots :
    SqLiteLedger → List LabEvent → List OperationSnapshot → Result (List ℤ)
unfolding validate_snapshot
validate_snapshots s events [] = ok []
validate_snapshots s events (x ∷ xs) = do
  own ← validate_snapshot s events x
  rest ← validate_snapshots s events xs
  ok (own ++ rest)

-- `[event.seq for event in events] == list(range(k, k + len(events)))`
unfoldable pub seqs_from : ℕ → List LabEvent → Bool
seqs_from k [] = true
seqs_from k (e ∷ es) = eq_ℤ e.seq (pos k) && seqs_from (k + 1) es

-- `ticks == sorted(ticks)`
unfoldable pub ticks_sorted : List LabEvent → Bool
ticks_sorted [] = true
ticks_sorted (e ∷ []) = true
ticks_sorted (e ∷ f ∷ es) = leb_ℤ e.tick f.tick && ticks_sorted (f ∷ es)

unfoldable pub managed_seqs : List LabEvent → List ℤ
unfolding is_managed
managed_seqs [] = []
managed_seqs (e ∷ es) =
    let rest = managed_seqs es in if is_managed e.kind then e.seq ∷ rest else rest

unfoldable pub mem_seq : ℤ → List ℤ → Bool
mem_seq n [] = false
mem_seq n (m ∷ ms) = eq_ℤ m n || mem_seq n ms

-- `==` of two sets.
unfoldable pub same_set : List ℤ → List ℤ → Bool
unfolding mem_seq
same_set xs ys = all (λ n. mem_seq n ys) xs && all (λ n. mem_seq n xs) ys

-- The end of `_validate_contents`, on what `events` and `operations` returned.
unfoldable pub validate_lifecycle :
    SqLiteLedger → List LabEvent → List OperationSnapshot → Result (Unit {0})
unfolding seqs_from ticks_sorted validate_snapshots managed_seqs same_set
validate_lifecycle s events snapshots = do
  require (seqs_from 1 events) ledger_integrity_error
  require (ticks_sorted events) ledger_integrity_error
  expected ← validate_snapshots s events snapshots
  require (same_set (managed_seqs events) expected) ledger_integrity_error
