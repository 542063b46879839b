-- ===== src/Ledger/Matching.antt =====
-- The tests of events in `_validate_contents` of src/side_effects_lab/ledger.py:
-- `_event_matches_identity`, `FrozenMap.__eq__` against the evidence of a transition, and the conditions
-- on an event.
use side_effects_lab.Prelude.{
  ℕ, ◌+◌, String, Bool, true, false, not, ◌&&◌, Option, none, some, List, [], ◌∷◌, str_eq,
  if◌then◌else◌, ◌==◌,
}
use side_effects_lab.Prelude.Int.{ℤ, pos, negsuc, eq_ℤ}
use side_effects_lab.Prelude.Result.{Result, ok, err, require, ledger_integrity_error, ◌>>=◌}
use side_effects_lab.Text.{Text}
use side_effects_lab.Text.Equality.{text_eq}
use side_effects_lab.Models.Values.{Value, null, bool, int, str, Fields, end, field, odd_field}
use side_effects_lab.Models.Events.{
  EventKind, action_proposed, operation_prepared, attempt_dispatched, state_transition, LabEvent,
}
use side_effects_lab.StateMachine.Types.{OperationIdentity, in_flight, prepared}
use side_effects_lab.StateMachine.Machine.{is_state}
use side_effects_lab.Ledger.Tables.{AttemptRow, successor}
use side_effects_lab.Ledger.Replay.{PersistedTransition}
use side_effects_lab.Ledger.Persisting.{transition_event_evidence}

abbrev pub is_proposal : EventKind → Bool
is_proposal action_proposed = true
is_proposal _ = false

abbrev pub is_preparation : EventKind → Bool
is_preparation operation_prepared = true
is_preparation _ = false

abbrev pub is_dispatch : EventKind → Bool
is_dispatch attempt_dispatched = true
is_dispatch _ = false

abbrev pub is_transition : EventKind → Bool
is_transition state_transition = true
is_transition _ = false

-- `==` of two texts or None.
abbrev pub same_text : Option String → Option String → Bool
same_text none none = true
same_text (some a) (some b) = str_eq a b
same_text _ _ = false

-- `_event_matches_identity`
unfoldable pub event_matches_identity : LabEvent → OperationIdentity → Bool
event_matches_identity event identity =
    same_text event.action_id (some identity.action_id)
    && same_text event.operation_key (some identity.operation_key)
    && same_text event.intent_digest (some identity.intent_digest)
    && same_text event.authority_id (some identity.authority_id)

-- `==` of a canonical value and a text, a flag or None; a flag is an integer in Python.
abbrev pub equals : Value → Value → Bool
equals null null = true
equals (bool true) (bool b) = b
equals (bool false) (bool b) = not b
equals (int n) (bool true) = eq_ℤ n (pos 1)
equals (int n) (bool false) = eq_ℤ n (pos 0)
equals (str s) (str t) = text_eq s t
equals _ _ = false

unfoldable pub get_item : Text → Fields → Option Value
get_item key end = none
get_item key (odd_field v fs) = get_item key fs
get_item key (field k v fs) = let rest = get_item key fs in if text_eq k key then some v else rest

unfoldable pub count_fields : Fields → ℕ
count_fields end = 0
count_fields (field k v fs) = 1 + count_fields fs
count_fields (odd_field v fs) = 1 + count_fields fs

abbrev pub found_equal : Option Value → Value → Bool
found_equal none v = false
found_equal (some u) v = equals u v

-- Every entry of the second map is in the first.
unfoldable pub has_fields : Fields → Fields → Bool
unfolding get_item
has_fields evidence end = true
has_fields evidence (field k v fs) = found_equal (get_item k evidence) v && has_fields evidence fs
has_fields evidence (odd_field v fs) = false

-- `FrozenMap.__eq__`, against a dict of texts, flags and None.
unfoldable pub same_fields : Fields → Fields → Bool
unfolding has_fields count_fields
same_fields evidence expected =
    count_fields evidence == count_fields expected && has_fields evidence expected

-- `not evidence`
abbrev pub is_empty : Fields → Bool
is_empty end = true
is_empty _ = false

-- `{event.seq: event for event in events}.get(seq)`
unfoldable pub find_event : ℤ → List LabEvent → Option LabEvent
find_event seq [] = none
find_event seq (e ∷ es) = elim (find_event seq es) [
  | none ↦ if eq_ℤ e.seq seq then some e else none
  | some f ↦ some f
]

-- An event that is there and passes a test.
unfoldable pub require_event : Option LabEvent → (LabEvent → Bool) → Result LabEvent
require_event none test = err ledger_integrity_error
require_event (some e) test = require (test e) ledger_integrity_error >>= λ u. ok e

abbrev pub predecessor : ℤ → ℤ
predecessor (pos ℕ.zero) = negsuc 0
predecessor (pos (ℕ.suc n)) = pos n
predecessor (negsuc n) = negsuc (ℕ.suc n)

-- A transition into PREPARED that is no violation.
abbrev pub prepares : PersistedTransition → Bool
prepares p = elim p.record_of.violation_reason [
  | none ↦ is_state p.record_of.resulting_state prepared
  | some reason ↦ false
]

unfoldable pub transition_fits : OperationIdentity → PersistedTransition → LabEvent → Bool
unfolding event_matches_identity same_fields
transition_fits identity p event =
    is_transition event.kind
    && event_matches_identity event identity
    && same_text event.attempt_id p.record_of.attempt_id
    && same_fields event.evidence (transition_event_evidence p.record_of p.evidence)

-- An event of an operation without evidence.
unfoldable pub bare_event : (EventKind → Bool) → OperationIdentity → Option String → LabEvent → Bool
unfolding event_matches_identity
bare_event is_kind identity attempt event =
    is_kind event.kind
    && event_matches_identity event identity
    && same_text event.attempt_id attempt
    && is_empty event.evidence

-- `history_by_attempt.get(attempt)`: the last accepted entry to IN_FLIGHT with the attempt.
abbrev pub enters : String → PersistedTransition → Bool
enters attempt p = elim p.record_of.violation_reason [
  | none ↦
      same_text p.record_of.attempt_id (some attempt)
      && is_state p.record_of.resulting_state in_flight
  | some reason ↦ false
]

unfoldable pub entry_of : String → List PersistedTransition → Option PersistedTransition
entry_of attempt [] = none
entry_of attempt (p ∷ ps) = elim (entry_of attempt ps) [
  | none ↦ if enters attempt p then some p else none
  | some q ↦ some q
]

abbrev pub entry_fits : AttemptRow → Option PersistedTransition → Bool
entry_fits row none = false
entry_fits row (some p) =
    eq_ℤ p.event_seq row.transition_event_seq && is_state p.record_of.resulting_state in_flight

unfoldable pub attempt_fits :
    OperationIdentity → List PersistedTransition → AttemptRow → LabEvent → LabEvent → Bool
unfolding event_matches_identity entry_of
attempt_fits identity history row dispatch event =
    is_transition event.kind
    && event_matches_identity event identity
    && same_text event.attempt_id (some row.attempt_id)
    && eq_ℤ row.transition_event_seq (successor row.dispatch_event_seq)
    && eq_ℤ event.tick dispatch.tick
    && entry_fits row (entry_of row.attempt_id history)
