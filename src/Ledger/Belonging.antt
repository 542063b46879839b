-- ===== src/Ledger/Belonging.antt =====
-- The events that a validation of src/side_effects_lab/ledger.py refers to belong to the operation.
use side_effects_lab.Prelude.{
  ℕ, ◌+◌, String, Bool, true, false, ◌&&◌, Option, none, some, List, [], ◌∷◌, ◌++◌, ◌≡◌, refl, sym,
  ap, ◌∙◌, subst, All, All-append, and_parts, arith,
}
use side_effects_lab.Prelude.Int.{ℤ, pos, eq_ℤ}
use side_effects_lab.Prelude.Result.{
  ok, require_then, bind_ok, ok_injective, ledger_integrity_error, ◌>>=◌,
}
use side_effects_lab.Models.Events.{LabEvent}
use side_effects_lab.StateMachine.Types.{OperationIdentity}
use side_effects_lab.Ledger.Tables.{AttemptRow, SqLiteLedger, attempts_of}
use side_effects_lab.Ledger.Replay.{PersistedTransition}
use side_effects_lab.Ledger.Operations.{OperationSnapshot}
use side_effects_lab.Ledger.Validating.{
  validate_preparation, validate_transition_events, validate_attempt_rows, validate_snapshot,
  expected_updated_seq,
}
use side_effects_lab.Ledger.Matching.{
  event_matches_identity, find_event, require_event, transition_fits, bare_event, is_preparation,
  is_dispatch, is_proposal, prepares, predecessor, attempt_fits,
}

found_passes :
    (o : Option LabEvent) (test : LabEvent → Bool) (e : LabEvent)
    → require_event o test ≡ ok e
    → (o ≡ some e) × (test e ≡ true)
unfolding require_event
found_passes none test e h = cc
found_passes (some f) test e h =
    let (passes, same) = require_then (test f) ledger_integrity_error (ok f) e h in
    let is = ok_injective f e same in (ap some is, subst (λ x. test x ≡ true) is passes)

-- The event of a sequence number is of the operation.
abbrev pub Owns : List LabEvent → OperationIdentity → ℤ → Type 0
Owns events identity n =
    (e : LabEvent) × (find_event n events ≡ some e) × (event_matches_identity e identity ≡ true)

module _ (identity : OperationIdentity) (events : List LabEvent) where
  bare_owned :
      (is_kind : _) (attempt : Option String) (e : LabEvent)
      → bare_event is_kind identity attempt e ≡ true
      → event_matches_identity e identity ≡ true
  unfolding bare_event
  bare_owned is_kind attempt e h = ground arith

  transition_owned :
      (p : PersistedTransition) (e : LabEvent)
      → transition_fits identity p e ≡ true
      → event_matches_identity e identity ≡ true
  unfolding transition_fits
  transition_owned p e h = ground arith

  attempt_owned :
      (history : List PersistedTransition) (row : AttemptRow) (d e : LabEvent)
      → attempt_fits identity history row d e ≡ true
      → event_matches_identity e identity ≡ true
  unfolding attempt_fits
  attempt_owned history row d e h = ground arith

  preparation_owned :
      (p : PersistedTransition) (event : LabEvent) (b : Bool) (ns : List ℤ)
      → prepares p ≡ b
      → validate_preparation identity events p event ≡ ok ns
      → All (Owns events identity) ns
  unfolding validate_preparation
  preparation_owned p event false ns is h =
      subst (All (Owns events identity)) (ok_injective [] ns (sym (rw is refl) ∙ h)) tt
  preparation_owned p event true ns is h =
      let found =
        require_event (find_event (predecessor p.event_seq) events)
          (λ e. bare_event is_preparation identity none e && eq_ℤ e.tick event.tick) in
      let h' : (found >>= λ e. ok (predecessor p.event_seq ∷ [])) ≡ ok ns = sym (rw is refl) ∙ h in
      let (e, there, same) = bind_ok found (λ e. ok (predecessor p.event_seq ∷ [])) ns h' in
      let (at, fits) = found_passes _ _ e there in
      let (bare, ticks) = and_parts (bare_event is_preparation identity none e) _ fits in
      subst (All (Owns events identity)) (ok_injective (predecessor p.event_seq ∷ []) ns same)
        ((e, at, bare_owned is_preparation none e bare), tt)

  transitions_owned :
      (ps : List PersistedTransition) (ns : List ℤ)
      → validate_transition_events identity events ps ≡ ok ns
      → All (Owns events identity) ns
  unfolding validate_transition_events
  transitions_owned [] ns h = subst (All (Owns events identity)) (ok_injective [] ns h) tt
  transitions_owned (p ∷ ps) ns h =
      let (e, there, h1) =
        bind_ok (require_event (find_event p.event_seq events) (transition_fits identity p)) _ ns
          h in
      let (before, is, h2) = bind_ok (validate_preparation identity events p e) _ ns h1 in
      let (rest, are, same) = bind_ok (validate_transition_events identity events ps) _ ns h2 in
      let (at, fits) = found_passes _ _ e there in
      subst (All (Owns events identity)) (ok_injective (p.event_seq ∷ before ++ rest) ns same) (
        (e, at, transition_owned p e fits),
        All-append (Owns events identity) before rest
            (preparation_owned p e (prepares p) before refl is) (transitions_owned ps rest are),
      )

  attempts_owned :
      (history : List PersistedTransition) (k : ℕ) (rows : List AttemptRow) (ns : List ℤ)
      → validate_attempt_rows identity history events k rows ≡ ok ns
      → All (Owns events identity) ns
  unfolding validate_attempt_rows
  attempts_owned history k [] ns h = subst (All (Owns events identity)) (ok_injective [] ns h) tt
  attempts_owned history k (row ∷ rows) ns h =
      let (numbered, h1) = require_then (eq_ℤ row.ordinal (pos k)) ledger_integrity_error _ ns h in
      let (d, first, h2) =
        bind_ok
          (require_event (find_event row.dispatch_event_seq events)
            (bare_event is_dispatch identity (some row.attempt_id)))
          _ ns h1 in
      let (e, second, h3) =
        bind_ok
          (require_event (find_event row.transition_event_seq events)
            (attempt_fits identity history row d))
          _ ns h2 in
      let (rest, are, same) =
        bind_ok (validate_attempt_rows identity history events (k + 1) rows) _ ns h3 in
      let (at, bare) = found_passes _ _ d first in
      let (there, fits) = found_passes _ _ e second in
      subst (All (Owns events identity))
        (ok_injective (row.dispatch_event_seq ∷ row.transition_event_seq ∷ rest) ns same)
        (
          (d, at, bare_owned is_dispatch (some row.attempt_id) d bare),
          (
            (e, there, attempt_owned history row d e fits),
            attempts_owned history (k + 1) rows rest are,
          ),
        )

pub snapshot_owned :
    (s : SqLiteLedger) (events : List LabEvent) (x : OperationSnapshot) (ns : List ℤ)
    → validate_snapshot s events x ≡ ok ns
    → All (Owns events x.identity) ns
unfolding validate_snapshot
snapshot_owned s events x ns h =
    let (e, there, h1) =
      bind_ok
        (require_event (find_event x.created_event_seq events)
          (bare_event is_proposal x.identity none))
        _ ns h in
    let (updated, h2) =
      require_then (eq_ℤ x.updated_event_seq (expected_updated_seq x.created_event_seq x.history))
        ledger_integrity_error _ ns h1 in
    let (attempts, is, h3) =
      bind_ok
        (validate_attempt_rows x.identity x.history events 1
          (attempts_of x.identity.action_id s.attempts))
        _ ns h2 in
    let (transitions, are, same) =
      bind_ok (validate_transition_events x.identity events x.history) _ ns h3 in
    let (at, bare) = found_passes _ _ e there in
    subst (All (Owns events x.identity))
      (ok_injective (x.created_event_seq ∷ attempts ++ transitions) ns same)
      (
        (e, at, bare_owned x.identity events is_proposal none e bare),
        All-append (Owns events x.identity) attempts transitions
            (attempts_owned x.identity events x.history 1
              (attempts_of x.identity.action_id s.attempts) attempts is)
            (transitions_owned x.identity events x.history transitions are),
      )
