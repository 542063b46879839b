-- ===== src/Ledger/Reachable.antt =====
-- The machines that src/side_effects_lab/ledger.py loads are those that calls lead to.
use side_effects_lab.Prelude.{
  ℕ, ◌+◌, String, List, [], ◌∷◌, ◌≡◌, refl, sym, ap, ◌∙◌, subst, length, ◌==◌, ==_iff, ◌++◌, Option,
  inl, inr, arith,
}
use mathlib.Core.List.{append-nil}
use side_effects_lab.Prelude.Exec.{Outcome, returned, raised}
use side_effects_lab.Prelude.Int.{ℤ, pos, eq_ℤ}
use side_effects_lab.Prelude.Result.{
  ok, require_then, bind_ok, ok_injective, ledger_integrity_error, validation_error,
}
use side_effects_lab.Text.{codes}
use side_effects_lab.Models.Identifiers.{is_action_id, is_operation_key, is_digest, is_authority_id}
use side_effects_lab.StateMachine.Types.{
  OperationState, OperationIdentity, operation_identity, TransitionEvidence, TransitionRecord,
}
use side_effects_lab.StateMachine.Machine.{OperationStateMachine, new_machine, transition}
use side_effects_lab.StateMachine.Acceptance.{Effect, transition-Effect, Effect-identity}
use side_effects_lab.StateMachine.Runs.{Call, call, run, run_keeps}
use side_effects_lab.Ledger.Tables.{OperationRow, TransitionRow, SqLiteLedger}
use side_effects_lab.Ledger.Decoding.{as_integrity, eq_record, eq_record_iff, state_of}
use side_effects_lab.Ledger.Replay.{
  PersistedTransition, kept_as, Stored, decode_row, decode_operation, replay_stored, replay_row,
  replay_rows, outcome_record, load_machine,
}
use side_effects_lab.Ledger.Replaying.{replay_rows_parts, IsIdentity}
use side_effects_lab.Ledger.Rows.{find_action}
use side_effects_lab.Ledger.Loading.{load_parts}

abbrev call_of : Stored → Call
call_of d = record {
  target = d.expected.attempted_state;
  evidence = d.evidence;
  identity = d.candidate;
  attempt_id = d.expected.attempt_id;
}

stored_reaches :
    (d : Stored) (seq : ℤ) (m m' : OperationStateMachine) (p : PersistedTransition)
    → replay_stored d seq m ≡ ok (m', p)
    → m' ≡ call m (call_of d)
unfolding replay_stored
stored_reaches d seq m m' p h =
    let out =
      transition d.expected.attempted_state d.evidence d.candidate d.expected.attempt_id m in
    let (grown, h1) =
      require_then (length out.1.history == length m.history + 1) ledger_integrity_error _ (m', p)
        h in
    let (same, h2) =
      require_then (eq_record (outcome_record out.0) d.expected) ledger_integrity_error _ (m', p)
        h1 in
    sym (ap (λ x. x.0) (ok_injective (out.1, _) (m', p) h2))

row_reaches :
    (k : ℕ) (q : TransitionRow) (m m' : OperationStateMachine) (p : PersistedTransition)
    → replay_row k q m ≡ ok (m', p)
    → (c : Call) × (m' ≡ call m c)
unfolding replay_row
row_reaches k q m m' p h =
    let (own, h1) = require_then (eq_ℤ q.ordinal (pos k)) ledger_integrity_error _ (m', p) h in
    let (d, decoded, h2) = bind_ok (as_integrity (decode_row q)) _ (m', p) h1 in
    (call_of d, stored_reaches d q.event_seq m m' p h2)

pub rows_reach :
    (k : ℕ) (rows : List TransitionRow) (m m' : OperationStateMachine)
    (ps : List PersistedTransition)
    → replay_rows k rows m ≡ ok (m', ps)
    → (cs : List Call) × (m' ≡ run cs m)
unfolding replay_rows run
rows_reach k [] m m' ps h = ([], sym (ap (λ x. x.0) (ok_injective (m, []) (m', ps) h)))
rows_reach k (q ∷ rows) m m' ps h =
    let (mid, first, rest, is, is', same) = replay_rows_parts k q rows m m' ps h in
    let (c, called) = row_reaches k q m mid first is in
    let (cs, ran) = rows_reach (k + 1) rows mid m' rest is' in (c ∷ cs, ran ∙ ap (run cs) called)

history_grows :
    (m : OperationStateMachine) (t : OperationState) (e : TransitionEvidence) (a : Option String)
    (out : Outcome TransitionRecord TransitionRecord × OperationStateMachine)
    → Effect m t e a out
    → length out.1.history ≡ length m.history + 1
    → out.1.history ≡ m.history ++ outcome_record out.0 ∷ []
history_grows m t e a (returned r, m')
      (same, state, history, attempts, source, attempted, resulting, attempt) grown =
    history
history_grows m t e a (raised r, m')
      (same, state, attempts, inl (dead, unmoved), source, attempted, resulting, attempt, blamed)
      grown =
    let stays : length m'.history ≡ length m.history = ap (λ x. length x.history) unmoved in
    absurd (omega (arith, stays, grown))
history_grows m t e a (raised r, m')
      (same, state, attempts, inr (live, history), source, attempted, resulting, attempt, blamed)
      grown =
    history

stored_history :
    (d : Stored) (seq : ℤ) (m m' : OperationStateMachine) (p : PersistedTransition)
    → replay_stored d seq m ≡ ok (m', p)
    → m'.history ≡ m.history ++ p.record_of ∷ []
unfolding replay_stored
stored_history d seq m m' p h =
    let t = d.expected.attempted_state in
    let a = d.expected.attempt_id in
    let out = transition t d.evidence d.candidate a m in
    let (grown, h1) =
      require_then (length out.1.history == length m.history + 1) ledger_integrity_error _ (m', p)
        h in
    let (same, h2) =
      require_then (eq_record (outcome_record out.0) d.expected) ledger_integrity_error _ (m', p)
        h1 in
    subst
      (λ (x : OperationStateMachine × PersistedTransition).
        x.0.history ≡ m.history ++ x.1.record_of ∷ [])
      (ok_injective (out.1, kept_as d.expected d.evidence seq) (m', p) h2)
      (history_grows m t d.evidence a out (transition-Effect m t d.evidence d.candidate a)
          ((==_iff (length out.1.history) (length m.history + 1)).0 grown)
        ∙ ap (λ r. m.history ++ r ∷ []) ((eq_record_iff (outcome_record out.0) d.expected).0 same))

row_history :
    (k : ℕ) (q : TransitionRow) (m m' : OperationStateMachine) (p : PersistedTransition)
    → replay_row k q m ≡ ok (m', p)
    → m'.history ≡ m.history ++ p.record_of ∷ []
unfolding replay_row
row_history k q m m' p h =
    let (own, h1) = require_then (eq_ℤ q.ordinal (pos k)) ledger_integrity_error _ (m', p) h in
    let (d, decoded, h2) = bind_ok (as_integrity (decode_row q)) _ (m', p) h1 in
    stored_history d q.event_seq m m' p h2

snoc_append :
    {A : Type 0} (xs : List A) (x : A) (ys : List A) → (xs ++ x ∷ []) ++ ys ≡ xs ++ (x ∷ ys)
snoc_append [] x ys = refl
snoc_append (z ∷ zs) x ys = ap (λ l. z ∷ l) (snoc_append zs x ys)

abbrev pub records_of : List PersistedTransition → List TransitionRecord
records_of [] = []
records_of (p ∷ ps) = p.record_of ∷ records_of ps

rows_history :
    (k : ℕ) (rows : List TransitionRow) (m m' : OperationStateMachine)
    (ps : List PersistedTransition)
    → replay_rows k rows m ≡ ok (m', ps)
    → m'.history ≡ m.history ++ records_of ps
unfolding replay_rows
rows_history k [] m m' ps h =
    subst
      (λ (x : OperationStateMachine × List PersistedTransition).
        x.0.history ≡ m.history ++ records_of x.1)
      (ok_injective (m, []) (m', ps) h) (sym (append-nil m.history))
rows_history k (q ∷ rows) m m' ps h =
    let (mid, first, rest, is, is', same) = replay_rows_parts k q rows m m' ps h in
    rows_history (k + 1) rows mid m' rest is'
    ∙ ap (λ l. l ++ records_of rest) (row_history k q m mid first is)
    ∙ snoc_append m.history first.record_of (records_of rest)
    ∙ ap (λ l. m.history ++ records_of l) (sym same)

run-identity : (cs : List Call) (m : OperationStateMachine) → (run cs m).identity ≡ m.identity
run-identity cs m =
    run_keeps (λ x. x.identity ≡ m.identity)
      (λ x c same.
        Effect-identity x c.target c.evidence c.attempt_id _
          (transition-Effect x c.target c.evidence c.identity c.attempt_id)
        ∙ same)
      cs m refl

made_valid :
    (a k d u : String) (id : OperationIdentity)
    → operation_identity a k d u ≡ ok id
    → (id.action_id ≡ a) × IsIdentity id
unfolding operation_identity
made_valid a k d u id h =
    let (h1, r1) = require_then (is_action_id (codes a)) validation_error _ id h in
    let (h2, r2) = require_then (is_operation_key (codes k)) validation_error _ id r1 in
    let (h3, r3) = require_then (is_digest (codes d)) validation_error _ id r2 in
    let (h4, r4) = require_then (is_authority_id (codes u)) validation_error _ id r3 in
    let made : OperationIdentity = record {
      action_id = a;
      operation_key = k;
      intent_digest = d;
      authority_id = u;
    } in
    subst (λ x. (x.action_id ≡ a) × IsIdentity x) (ok_injective made id r4)
      (refl, rw (h1, h2, h3, h4) refl)

decoded-IsIdentity :
    (row : OperationRow) (id : OperationIdentity) (state : OperationState)
    → decode_operation row ≡ ok (id, state)
    → (id.action_id ≡ row.action_id) × IsIdentity id
unfolding decode_operation
decoded-IsIdentity row id state h =
    let (made, is, h1) =
      bind_ok
        (operation_identity row.action_id row.operation_key row.intent_digest row.authority_id) _
        (id, state) h in
    let (old, was, same) = bind_ok (state_of row.state) _ (id, state) h1 in
    subst (λ x. (x.action_id ≡ row.action_id) × IsIdentity x)
      (ap (λ x. x.0) (ok_injective (made, old) (id, state) same))
      (made_valid row.action_id row.operation_key row.intent_digest row.authority_id made is)

-- Whatever the tables hold, a load that returns gives the machine of the operation asked for, with a
-- valid identity, one that some calls of `transition` on a new machine lead to, and whose history is
-- that of the persisted transitions.
pub load-reachable :
    (action : String) (s : SqLiteLedger) (m : OperationStateMachine) (ps : List PersistedTransition)
    → load_machine action s ≡ ok (m, ps)
    → (m.identity.action_id ≡ action)
      × IsIdentity m.identity
      × ((cs : List Call) × (m ≡ run cs (new_machine m.identity)))
      × (m.history ≡ records_of ps)
unfolding new_machine
load-reachable action s m ps h =
    let parts = load_parts action s m ps h in
    let (cs, ran) = rows_reach 1 _ (new_machine parts.identity) m ps parts.replayed in
    let same : m.identity ≡ parts.identity =
      ap (λ x. x.identity) ran ∙ run-identity cs (new_machine parts.identity) in
    let (own, made) = decoded-IsIdentity parts.row parts.identity m.state parts.decoded in
    (
      ap (λ x. x.action_id) same ∙ own ∙ find_action action s.operations parts.row parts.found,
      subst IsIdentity (sym same) made,
      (cs, ran ∙ ap (λ x. run cs (new_machine x)) (sym same)),
      rows_history 1 _ (new_machine parts.identity) m ps parts.replayed,
    )
