-- ===== src/Ledger/Listing.antt =====
-- Reading the operations of a sound ledger of src/side_effects_lab/ledger.py.
use side_effects_lab.Prelude.{
  All, String, false, not, none, List, [], ◌∷◌, ◌≡◌, ◌≢◌, inl, inr, refl, sym, ap, subst, map,
  eq_iff, arith,
}
use side_effects_lab.Prelude.Result.{ok, require, ledger_closed_error}
use side_effects_lab.Prelude.Exec.{returned, lift}
use side_effects_lab.Prelude.Sorting.{order_by, order_by-All}
use side_effects_lab.StateMachine.Machine.{OperationStateMachine}
use side_effects_lab.Ledger.Tables.{OperationRow, SqLiteLedger, find_operation, operation_before}
use side_effects_lab.Ledger.Steps.{lift_goes, require_goes, flag_on}
use side_effects_lab.Ledger.Replay.{load_machine}
use side_effects_lab.Ledger.Operations.{
  OperationSnapshot, operation_unlocked, snapshots, operations,
}
use side_effects_lab.Ledger.Loading.{load_parts, row_selected}
use side_effects_lab.Ledger.Reachable.{load-reachable}
use side_effects_lab.Ledger.Soundness.{IsSound, Loads}

-- A snapshot shows the machine that the ledger holds.
pub record Shows (s : SqLiteLedger) (x : OperationSnapshot) : Type 0 where
  pub machine : OperationStateMachine
  pub loaded : load_machine x.identity.action_id s ≡ ok (machine, x.history)
  pub identity_is : x.identity ≡ machine.identity
  pub state_is : x.state ≡ machine.state
  pub attempts_are : x.attempt_ids ≡ machine.attempt_ids

abbrev IsRegistered : SqLiteLedger → OperationRow → Type 0
IsRegistered s r = find_operation r.action_id s.operations ≢ none

first_found :
    (r : OperationRow) (rs : List OperationRow) → find_operation r.action_id (r ∷ rs) ≢ none
unfolding find_operation
first_found r rs h = ground (arith, eq_iff r.action_id r.action_id)

later_found :
    (a : String) (q : OperationRow) (rs : List OperationRow)
    → find_operation a rs ≢ none
    → find_operation a (q ∷ rs) ≢ none
unfolding find_operation
later_found a q rs h k = ground (arith, h)

all_registered :
    (before rs : List OperationRow)
    → All (λ (r : OperationRow). find_operation r.action_id rs ≢ none) before
    → (q : OperationRow)
    → All (λ (r : OperationRow). find_operation r.action_id (q ∷ rs) ≢ none) before
all_registered [] rs h q = tt
all_registered (r ∷ before) rs h q =
    (later_found r.action_id q rs h.0, all_registered before rs h.1 q)

each_found :
    (rs : List OperationRow) → All (λ (r : OperationRow). find_operation r.action_id rs ≢ none) rs
each_found [] = tt
each_found (r ∷ rs) = (first_found r rs, all_registered rs rs (each_found rs) r)

-- An operation that loads has a snapshot.
pub snapshot_of :
    (action : String) (s : SqLiteLedger)
    → Loads action s
    → (x : OperationSnapshot) × (operation_unlocked action s ≡ ok x)
      × (x.identity.action_id ≡ action)
      × Shows s x
unfolding operation_unlocked
snapshot_of action s (out, is) =
    let parts = load_parts action s out.0 out.1 is in
    let own = (load-reachable action s out.0 out.1 is).0 in
    (
      record {
        identity = out.0.identity;
        state = out.0.state;
        created_event_seq = parts.row.created_event_seq;
        updated_event_seq = parts.row.updated_event_seq;
        attempt_ids = out.0.attempt_ids;
        history = out.1;
      },
      rw (is, row_selected action s parts.row parts.found) refl,
      own,
      record {
        machine = out.0;
        loaded = subst (λ a. load_machine a s ≡ ok out) (sym own) is;
        identity_is = refl;
        state_is = refl;
        attempts_are = refl;
      },
    )

-- The snapshots of some rows.
abbrev pub Listed : SqLiteLedger → List OperationRow → List OperationSnapshot → Type 0
Listed s rs xs =
    (map (λ (x : OperationSnapshot). x.identity.action_id) xs
      ≡ map (λ (r : OperationRow). r.action_id) rs)
    × All (Shows s) xs

snapshots-Listed :
    (s : SqLiteLedger) (rs : List OperationRow)
    → IsSound s
    → All (IsRegistered s) rs
    → (xs : List OperationSnapshot) × (snapshots rs s ≡ ok xs) × Listed s rs xs
unfolding snapshots
snapshots-Listed s [] h found = ([], refl, (refl, tt))
snapshots-Listed s (r ∷ rs) h found = elim (h.loads r.action_id) [
  | inl free ↦ absurd (found.0 free)
  | inr loads ↦
      let (x, is, own, shows) = snapshot_of r.action_id s loads in
      let (xs, are, (names, rest)) = snapshots-Listed s rs h found.1 in
      (x ∷ xs, rw (is, are) refl, ((λ i. own i ∷ names i), (shows, rest)))
]

-- An open and sound ledger lists its operations: `operations` returns a snapshot for each registered
-- operation, in the order of their creation events, that shows the machine which the operation loads as.
pub operations-Listed :
    (s : SqLiteLedger)
    → IsSound s
    → s.closed ≡ false
    → (xs : List OperationSnapshot) × (operations s ≡ (returned xs, s))
      × Listed s (order_by operation_before s.operations) xs
unfolding operations
operations-Listed s h ready =
    let rows = order_by operation_before s.operations in
    let (xs, are, listed) =
      snapshots-Listed s rows h
        (order_by-All operation_before (IsRegistered s) s.operations (each_found s.operations)) in
    (
      xs,
      lift_goes (λ out. out ≡ (returned xs, s)) (require (not s.closed) ledger_closed_error) _ s tt
          (require_goes _ ledger_closed_error (flag_on s.closed ready)) (ap (λ r. lift r s) are),
      listed,
    )
