-- ===== src/Ledger/Registering.antt =====
-- What `register_operation` does to a ledger of src/side_effects_lab/ledger.py.
use side_effects_lab.Prelude.{
  String, false, not, none, some, List, [], ◌∷◌, ◌≡◌, ◌≢◌, refl, sym, subst, eq_iff, arith,
}
use side_effects_lab.Prelude.Int.{ℤ}
use side_effects_lab.Prelude.Result.{
  Result, ok, err, require, require_ok, ledger_closed_error, duplicate_operation_error,
}
use side_effects_lab.Prelude.Exec.{lift}
use side_effects_lab.Models.Events.{action_proposed}
use side_effects_lab.StateMachine.Types.{proposed, OperationIdentity}
use side_effects_lab.StateMachine.Machine.{new_machine}
use side_effects_lab.Ledger.Tables.{
  EventRow, OperationRow, SqLiteLedger, find_operation, has_operation, transitions_of, attempts_of,
}
use side_effects_lab.Ledger.Appending.{IsLog}
use side_effects_lab.Ledger.Dating.{IsDated, IsDated-more, Extends}
use side_effects_lab.Ledger.Steps.{
  Ensures, Settles, ensures_lift, transaction-Settles, lift_step, flag_off,
}
use side_effects_lab.Ledger.Replay.{decode_operation, replay_rows, load_machine}
use side_effects_lab.Ledger.Operations.{
  OperationSnapshot, strict_tick, operation_unlocked, lifecycle_event, insert_next, new_operation,
  insert_operation, register_body, register_operation,
}
use side_effects_lab.Ledger.Replaying.{IsIdentity}
use side_effects_lab.Ledger.Loading.{Loaded, AttemptsFit, SameRows, load_whole}
use side_effects_lab.Ledger.Effects.{
  ensures_logs, ensures_equal, insert_next-Logs, insert_operation_ensures,
}

pub absent :
    (a : String) (rs : List OperationRow) → has_operation a rs ≡ false → find_operation a rs ≡ none
unfolding find_operation
absent a [] h = refl
absent a (r ∷ rs) h = ground (arith, absent a rs)

-- No rows belong to an operation that is not registered.
abbrev pub HasNoRows : String → SqLiteLedger → Type 0
HasNoRows b s = (transitions_of b s.transitions ≡ []) × (attempts_of b s.attempts ≡ [])

-- The ledger with a new operation.
abbrev pub with_operation : SqLiteLedger → OperationIdentity → ℤ → List EventRow → SqLiteLedger
with_operation s identity seq rows = record s {
  events = rows;
  operations = new_operation identity seq ∷ s.operations;
}

pub new_found :
    (identity : OperationIdentity) (seq : ℤ) (rs : List OperationRow)
    → find_operation identity.action_id (new_operation identity seq ∷ rs)
      ≡ some (new_operation identity seq)
unfolding find_operation
new_found identity seq rs = rw ((eq_iff identity.action_id identity.action_id).1 refl)

new_decoded :
    (identity : OperationIdentity) (seq : ℤ)
    → IsIdentity identity
    → decode_operation (new_operation identity seq) ≡ ok (identity, proposed)
unfolding decode_operation
new_decoded identity seq made = rw made refl

-- The new operation is loaded as a new machine.
pub new-Loaded :
    (s : SqLiteLedger) (identity : OperationIdentity) (seq : ℤ) (rows : List EventRow)
    → IsIdentity identity
    → HasNoRows identity.action_id s
    → Loaded identity.action_id (with_operation s identity seq rows) (new_machine identity) []
unfolding new_machine replay_rows
new-Loaded s identity seq rows made empty = record {
  row = new_operation identity seq;
  identity = identity;
  found = new_found identity seq s.operations;
  decoded = new_decoded identity seq made;
  replayed = rw (empty.0) refl;
  attempts_fit =
      subst (λ x. AttemptsFit x []) (sym empty.1)
        (record { valid = refl; numbered = tt; same = refl });
}

other_found :
    (b : String) (identity : OperationIdentity) (seq : ℤ) (rs : List OperationRow)
    → b ≢ identity.action_id
    → find_operation b (new_operation identity seq ∷ rs) ≡ find_operation b rs
unfolding find_operation
other_found b identity seq rs other = ground (arith, eq_iff identity.action_id b)

-- A new operation, not there before, and nothing else but its event.
pub record Registered (identity : OperationIdentity) (snapshot : OperationSnapshot)
    (s s' : SqLiteLedger) : Type 0 where
  pub was_absent : find_operation identity.action_id s.operations ≡ none
  pub stored : load_machine identity.action_id s' ≡ ok (new_machine identity, [])
  pub read : operation_unlocked identity.action_id s' ≡ ok snapshot
  pub others : (b : String) → b ≢ identity.action_id → SameRows b s s'
  pub log : IsLog s'.events
  pub dated : IsDated s → IsDated s'
  pub open_as : s'.closed ≡ s.closed

Registered-by :
    (s : SqLiteLedger) (identity : OperationIdentity) (seq : ℤ) (rows : List EventRow)
    (snapshot : OperationSnapshot)
    → IsIdentity identity
    → find_operation identity.action_id s.operations ≡ none
    → HasNoRows identity.action_id s
    → Extends s.events rows
    → operation_unlocked identity.action_id (with_operation s identity seq rows) ≡ ok snapshot
    → Registered identity snapshot s (with_operation s identity seq rows)
Registered-by s identity seq rows snapshot made free empty extends is = record {
  was_absent = free;
  stored = load_whole identity.action_id _ _ _ (new-Loaded s identity seq rows made empty);
  read = is;
  others = λ b other. record {
    operation = other_found b identity seq s.operations other;
    transitions = refl;
    attempts = refl;
  };
  log = extends.log;
  dated = IsDated-more s rows extends.grown;
  open_as = refl;
}

module _ (s : SqLiteLedger) (identity : OperationIdentity) (tick : ℤ) (made : IsIdentity identity)
    (log : IsLog s.events)
    (fresh : find_operation identity.action_id s.operations ≡ none
      → HasNoRows identity.action_id s) where
  abbrev Outcomes : OperationSnapshot → SqLiteLedger → Type 0
  Outcomes snapshot t = Registered identity snapshot s t

  read_back :
      (seq : ℤ) (rows : List EventRow) (r : Result OperationSnapshot)
      → operation_unlocked identity.action_id (with_operation s identity seq rows) ≡ r
      → find_operation identity.action_id s.operations ≡ none
      → Extends s.events rows
      → Ensures Outcomes (lift r (with_operation s identity seq rows))
  read_back seq rows (err e) is free log' = tt
  read_back seq rows (ok snapshot) is free log' =
      Registered-by s identity seq rows snapshot made free (fresh free) log' is

  snapshot_returned :
      (seq : ℤ) (rows : List EventRow)
      → find_operation identity.action_id s.operations ≡ none
      → Extends s.events rows
      → Ensures Outcomes (
          lift
            (operation_unlocked identity.action_id (with_operation s identity seq rows))
            (with_operation s identity seq rows))
  snapshot_returned seq rows free log' =
      read_back seq rows
        (operation_unlocked identity.action_id (with_operation s identity seq rows)) refl free log'

  register_body-Registered : Ensures Outcomes (register_body identity tick s)
  unfolding register_body
  register_body-Registered =
      let action = identity.action_id in
      ensures_lift Outcomes
        (require (not (has_operation action s.operations)) duplicate_operation_error) _ s
        (λ u free.
          let none_there =
            absent action s.operations
              (flag_off _ (require_ok _ duplicate_operation_error u free)) in
          ensures_logs Outcomes (insert_next (λ n. lifecycle_event n tick action_proposed identity))
            _ s (insert_next-Logs (λ n. lifecycle_event n tick action_proposed identity) s log)
            (λ seq rows log'.
              ensures_equal Outcomes (insert_operation (new_operation identity seq)) _
                (record s { events = rows }) (λ v. with_operation s identity seq rows)
                (insert_operation_ensures (new_operation identity seq) (record s { events = rows }))
                (λ v. snapshot_returned seq rows none_there log')))

-- `register_operation`: if it returns, the operation was not registered before, it is loaded as a new
-- machine in PROPOSED, and no other operation changed; if it raises, the ledger is as it was.
pub register_operation-Registered :
    (s : SqLiteLedger) (identity : OperationIdentity) (tick : ℤ)
    → IsIdentity identity
    → IsLog s.events
    → (find_operation identity.action_id s.operations ≡ none → HasNoRows identity.action_id s)
    → Settles
        (λ snapshot t. Registered identity snapshot s t)
        s
        (register_operation identity tick s)
unfolding register_operation
register_operation-Registered s identity tick made log fresh =
    let P = Settles (λ snapshot t. Registered identity snapshot s t) s in
    lift_step P (require (not s.closed) ledger_closed_error) _ s (λ error. refl)
      (λ u ready.
        lift_step P (strict_tick tick) _ s (λ error. refl)
          (λ tick' ticks.
            transaction-Settles (λ snapshot t. Registered identity snapshot s t)
              (register_body identity tick') s
              (register_body-Registered s identity tick' made log fresh)))
