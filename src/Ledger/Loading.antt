-- ===== src/Ledger/Loading.antt =====
-- How a load of src/side_effects_lab/ledger.py goes, part by part.
use side_effects_lab.Prelude.{
  ℕ, ◌+◌, String, Bool, true, and_parts, Option, none, some, List, [], ◌∷◌, ◌++◌, ◌≡◌, ◌↔◌, refl,
  sym, ap, ◌∙◌, subst, length, map, all, eq_iff, arith,
}
use side_effects_lab.Prelude.Int.{ℤ, pos, eq_ℤ, eq_ℤ_iff}
use side_effects_lab.Prelude.Result.{
  Result, ok, err, require_then, require_ok, bind_ok, ok_injective, ledger_integrity_error,
  operation_not_found_error,
}
use side_effects_lab.Text.{codes}
use side_effects_lab.Models.Identifiers.{is_attempt_id}
use side_effects_lab.StateMachine.Types.{
  OperationState, OperationIdentity, operation_identity, state_value,
}
use side_effects_lab.StateMachine.Machine.{OperationStateMachine, new_machine, is_state}
use side_effects_lab.StateMachine.Branches.{is_state_iff}
use side_effects_lab.Ledger.Tables.{
  OperationRow, AttemptRow, SqLiteLedger, find_operation, transitions_of, attempts_of,
}
use side_effects_lab.Ledger.Decoding.{as_integrity, state_of, state_read}
use side_effects_lab.Ledger.Replay.{
  PersistedTransition, operation_row, decode_operation, replay_rows, ordinals_from, eq_texts,
  check_attempts, load_machine,
}
use side_effects_lab.Ledger.Rows.{Numbered}

-- The stored attempts agree with the machine's.
pub record AttemptsFit (rows : List AttemptRow) (ids : List String) : Type 0 where
  pub valid : all (λ (r : AttemptRow). is_attempt_id (codes r.attempt_id)) rows ≡ true
  pub numbered : Numbered (λ (r : AttemptRow). r.ordinal) 1 rows
  pub same : map (λ (r : AttemptRow). r.attempt_id) rows ≡ ids

ordinals_from_iff :
    (k : ℕ) (rows : List AttemptRow)
    → (ordinals_from k rows ≡ true) ↔ Numbered (λ (r : AttemptRow). r.ordinal) k rows
unfolding ordinals_from
ordinals_from_iff k [] = ((λ h. tt), (λ h. refl))
ordinals_from_iff k (r ∷ rs) = (
  (λ h.
      let (own, rest) = and_parts (eq_ℤ r.ordinal (pos k)) (ordinals_from (k + 1) rs) h in
      ((eq_ℤ_iff r.ordinal (pos k)).0 own, (ordinals_from_iff (k + 1) rs).0 rest)),
  (λ h. rw ((eq_ℤ_iff r.ordinal (pos k)).1 h.0, (ordinals_from_iff (k + 1) rs).1 h.1) refl),
)

eq_texts_iff : (xs ys : List String) → (eq_texts xs ys ≡ true) ↔ (xs ≡ ys)
unfolding eq_texts
eq_texts_iff [] [] = ground arith
eq_texts_iff [] (y ∷ ys) = ground arith
eq_texts_iff (x ∷ xs) [] = ground arith
eq_texts_iff (x ∷ xs) (y ∷ ys) = ground (arith, eq_iff x y, eq_texts_iff xs ys)

pub attempts_checked :
    (rows : List AttemptRow) (ids : List String)
    → (check_attempts rows ids ≡ ok tt) ↔ AttemptsFit rows ids
unfolding check_attempts
attempts_checked rows ids = (
  (λ h.
      let (v, h1) =
        require_then (all (λ (r : AttemptRow). is_attempt_id (codes r.attempt_id)) rows)
          ledger_integrity_error _ tt h in
      let (n, h2) = require_then (ordinals_from 1 rows) ledger_integrity_error _ tt h1 in
      record {
        valid = v;
        numbered = (ordinals_from_iff 1 rows).0 n;
        same = (eq_texts_iff _ ids).0 (require_ok _ ledger_integrity_error tt h2);
      }),
  (λ h. rw (h.valid, (ordinals_from_iff 1 rows).1 h.numbered, (eq_texts_iff _ ids).1 h.same) refl),
)

-- The parts of a load that went through.
pub record Loaded (action : String) (s : SqLiteLedger) (m : OperationStateMachine)
    (ps : List PersistedTransition) : Type 0 where
  pub row : OperationRow
  pub identity : OperationIdentity
  pub found : find_operation action s.operations ≡ some row
  pub decoded : decode_operation row ≡ ok (identity, m.state)
  pub replayed :
      replay_rows 1 (transitions_of action s.transitions) (new_machine identity) ≡ ok (m, ps)
  pub attempts_fit : AttemptsFit (attempts_of action s.attempts) m.attempt_ids

row_of : (o : Option OperationRow) → Result OperationRow
row_of o = elim o [ none ↦ err operation_not_found_error | some row ↦ ok row ]

row_of-some : (o : Option OperationRow) (row : OperationRow) → row_of o ≡ ok row → o ≡ some row
unfolding row_of
row_of-some none row h = cc
row_of-some (some r) row h = ap some (ok_injective r row h)

row_found :
    (action : String) (s : SqLiteLedger) (row : OperationRow)
    → operation_row action s ≡ ok row
    → find_operation action s.operations ≡ some row
unfolding operation_row row_of
row_found action s row h = row_of-some (find_operation action s.operations) row h

pub row_selected :
    (action : String) (s : SqLiteLedger) (row : OperationRow)
    → find_operation action s.operations ≡ some row
    → operation_row action s ≡ ok row
unfolding operation_row row_of
row_selected action s row h = ap row_of h

row_same :
    (action : String) (s s' : SqLiteLedger)
    → find_operation action s'.operations ≡ find_operation action s.operations
    → operation_row action s' ≡ operation_row action s
unfolding operation_row row_of
row_same action s s' h = ap row_of h

integrity_ok : {A : Type 0} (r : Result A) (a : A) → as_integrity r ≡ ok a → r ≡ ok a
unfolding as_integrity
integrity_ok (ok b) a h = h
integrity_ok (err e) a h = cc

Loaded-of :
    (action : String) (s : SqLiteLedger) (row : OperationRow)
    (cached : OperationIdentity × OperationState)
    (loaded : OperationStateMachine × List PersistedTransition)
    → operation_row action s ≡ ok row
    → as_integrity (decode_operation row) ≡ ok cached
    → replay_rows 1 (transitions_of action s.transitions) (new_machine cached.0) ≡ ok loaded
    → is_state loaded.0.state cached.1 ≡ true
    → check_attempts (attempts_of action s.attempts) loaded.0.attempt_ids ≡ ok tt
    → Loaded action s loaded.0 loaded.1
Loaded-of action s row cached loaded found decoded replayed same fit = record {
  row = row;
  identity = cached.0;
  found = row_found action s row found;
  decoded =
      integrity_ok (decode_operation row) cached decoded
      ∙ ap (λ x. ok (cached.0, x)) (sym ((is_state_iff loaded.0.state cached.1).0 same));
  replayed = replayed;
  attempts_fit = (attempts_checked _ loaded.0.attempt_ids).0 fit;
}

pub load_parts :
    (action : String) (s : SqLiteLedger) (m : OperationStateMachine) (ps : List PersistedTransition)
    → load_machine action s ≡ ok (m, ps)
    → Loaded action s m ps
unfolding load_machine
load_parts action s m ps h =
    let (row, found, h1) = bind_ok (operation_row action s) _ (m, ps) h in
    let (cached, decoded, h2) = bind_ok (as_integrity (decode_operation row)) _ (m, ps) h1 in
    let (loaded, replayed, h3) =
      bind_ok (replay_rows 1 (transitions_of action s.transitions) (new_machine cached.0)) _ (m, ps)
        h2 in
    let (cached_is, h4) =
      require_then (is_state loaded.0.state cached.1) ledger_integrity_error _ (m, ps) h3 in
    let (u, fit, same) =
      bind_ok (check_attempts (attempts_of action s.attempts) loaded.0.attempt_ids) _ (m, ps) h4 in
    subst (λ x. Loaded action s x.0 x.1) (ok_injective loaded (m, ps) same)
      (Loaded-of action s row cached loaded found decoded replayed cached_is fit)

-- A load goes through where its parts do.
pub load_whole :
    (action : String) (s : SqLiteLedger) (m : OperationStateMachine) (ps : List PersistedTransition)
    → Loaded action s m ps
    → load_machine action s ≡ ok (m, ps)
unfolding load_machine as_integrity
load_whole action s m ps h =
    rw
      (
        row_selected action s h.row h.found,
        h.decoded,
        h.replayed,
        (is_state_iff m.state m.state).1 refl,
        (attempts_checked (attempts_of action s.attempts) m.attempt_ids).1 h.attempts_fit,
      )
      refl

-- A load reads the rows of its operation only.
pub record SameRows (action : String) (s s' : SqLiteLedger) : Type 0 where
  pub operation : find_operation action s'.operations ≡ find_operation action s.operations
  pub transitions : transitions_of action s'.transitions ≡ transitions_of action s.transitions
  pub attempts : attempts_of action s'.attempts ≡ attempts_of action s.attempts

pub load-SameRows :
    (action : String) (s s' : SqLiteLedger)
    → SameRows action s s'
    → load_machine action s' ≡ load_machine action s
unfolding load_machine
load-SameRows action s s' h = rw (row_same action s s' h.operation, h.transitions, h.attempts) refl

pub with_state_read :
    (row : OperationRow) (identity : OperationIdentity) (state state' : OperationState) (seq : ℤ)
    → decode_operation row ≡ ok (identity, state)
    → decode_operation (record row { state = state_value state'; updated_event_seq = seq })
      ≡ ok (identity, state')
unfolding decode_operation
with_state_read row identity state state' seq h =
    let (made, is, h1) =
      bind_ok
        (operation_identity row.action_id row.operation_key row.intent_digest row.authority_id) _
        (identity, state) h in
    let (old, was, same) = bind_ok (state_of row.state) _ (identity, state) h1 in
    rw (is, state_read state')
      (ap (λ x. ok (x.0, state')) (ok_injective (made, old) (identity, state) same))

map_snoc :
    {A B : Type 0} (f : A → B) (xs : List A) (x : A) → map f (xs ++ x ∷ []) ≡ map f xs ++ f x ∷ []
map_snoc f [] x = refl
map_snoc f (y ∷ ys) x = ap (λ zs. f y ∷ zs) (map_snoc f ys x)

all_snoc :
    {A : Type 0} (p : A → Bool) (xs : List A) (x : A)
    → all p xs ≡ true
    → p x ≡ true
    → all p (xs ++ x ∷ []) ≡ true
all_snoc p [] x h g = rw g refl
all_snoc p (y ∷ ys) x h g =
    let (own, rest) = and_parts (p y) (all p ys) h in rw (own, all_snoc p ys x rest g) refl

Numbered-snoc :
    (k : ℕ) (xs : List AttemptRow) (x : AttemptRow)
    → Numbered (λ (r : AttemptRow). r.ordinal) k xs
    → x.ordinal ≡ pos (k + length xs)
    → Numbered (λ (r : AttemptRow). r.ordinal) k (xs ++ x ∷ [])
Numbered-snoc k [] x n h = (h ∙ ap pos (omega arith), tt)
Numbered-snoc k (y ∷ ys) x n h = (n.0, Numbered-snoc (k + 1) ys x n.1 (h ∙ ap pos (omega arith)))

length-map : {A B : Type 0} (f : A → B) (xs : List A) → length (map f xs) ≡ length xs
length-map f [] = refl
length-map f (x ∷ xs) = omega (arith, length-map f xs)

pub attempt_count :
    (rows : List AttemptRow) (ids : List String) → AttemptsFit rows ids → length rows ≡ length ids
attempt_count rows ids h =
    sym (length-map (λ (r : AttemptRow). r.attempt_id) rows) ∙ ap length h.same

-- One attempt more.
pub AttemptsFit-snoc :
    (rows : List AttemptRow) (ids : List String) (row : AttemptRow)
    → AttemptsFit rows ids
    → is_attempt_id (codes row.attempt_id) ≡ true
    → row.ordinal ≡ pos (1 + length rows)
    → AttemptsFit (rows ++ row ∷ []) (ids ++ row.attempt_id ∷ [])
AttemptsFit-snoc rows ids row h valid n = record {
  valid = all_snoc (λ (r : AttemptRow). is_attempt_id (codes r.attempt_id)) rows row h.valid valid;
  numbered = Numbered-snoc 1 rows row h.numbered n;
  same =
      map_snoc (λ (r : AttemptRow). r.attempt_id) rows row
      ∙ ap (λ xs. xs ++ row.attempt_id ∷ []) h.same;
}

row_absent :
    (action : String) (s : SqLiteLedger)
    → find_operation action s.operations ≡ none
    → operation_row action s ≡ err operation_not_found_error
unfolding operation_row row_of
row_absent action s h = ap row_of h

-- A load of an operation that is not registered.
pub load-absent :
    (action : String) (s : SqLiteLedger)
    → find_operation action s.operations ≡ none
    → load_machine action s ≡ err operation_not_found_error
unfolding load_machine
load-absent action s h = rw (row_absent action s h) refl
