-- ===== src/Ledger/Issuing.antt =====
-- A dispatch that the machine accepted is persisted by src/side_effects_lab/ledger.py.
use side_effects_lab.Prelude.{
  ℕ, ◌+◌, String, Bool, true, false, ◌&&◌, some, List, [], ◌∷◌, ◌≡◌, refl, sym, ap, ◌∙◌, subst,
  arith, length, length-append, ltb, leb, str_eq,
}
use side_effects_lab.Prelude.Int.{ℤ, pos, eq_ℤ, leb_ℤ}
use side_effects_lab.Prelude.Result.{ok}
use side_effects_lab.Prelude.Exec.{returned}
use side_effects_lab.Text.{codes}
use side_effects_lab.Models.Bounds.{is_optional, is_positive}
use side_effects_lab.Models.Identifiers.{is_attempt_id}
use side_effects_lab.Models.Values.{end, keys_are_names}
use side_effects_lab.Models.Events.{attempt_dispatched}
use side_effects_lab.StateMachine.Types.{
  in_flight, OperationIdentity, TransitionEvidence, TransitionRecord,
}
use side_effects_lab.StateMachine.Machine.{OperationStateMachine}
use side_effects_lab.Ledger.Tables.{
  AttemptRow, SqLiteLedger, has_operation, has_event, transitions_of, attempts_of, any,
  attempt_allowed,
}
use side_effects_lab.Ledger.Operations.{lifecycle_event, insert_next}
use side_effects_lab.Ledger.Persisting.{transition_event_evidence, persist_transition, updated}
use side_effects_lab.Ledger.Replay.{PersistedTransition, load_machine}
use side_effects_lab.Ledger.Transitions.{Tried, insert_attempt, new_attempt, persist_dispatch}
use side_effects_lab.Ledger.Allowing.{
  find-has_operation, unused_attempt_ordinal, unused_dispatch_seq, unused_transition_seq,
  attempt_allowed_lem, log-has_event,
}
use side_effects_lab.Ledger.Continuing.{HasRoom, IsRecordable, event_goes}
use side_effects_lab.Ledger.Dating.{AttemptsBelow, IsDated-more}
use side_effects_lab.Ledger.Effects.{Persists, persist_transition-Persists}
use side_effects_lab.Ledger.Loading.{load_parts, attempt_count}
use side_effects_lab.Ledger.Moving.{tried_action}
use side_effects_lab.Ledger.Reachable.{load-reachable}
use side_effects_lab.Ledger.Recording.{evidence-FieldsFlat, keys_named, returned-IsFlat}
use side_effects_lab.Ledger.Replaying.{IsIdentity, IsEvidence, replay_rows-Numbered}
use side_effects_lab.Ledger.Rows.{Numbered, find-updated}
use side_effects_lab.Ledger.Soundness.{IsSound}
use side_effects_lab.Ledger.Steps.{Ending, Ensures, bind_goes}
use side_effects_lab.Ledger.Succeeding.{Succeeds, persist_transition_goes}
use side_effects_lab.Ledger.Trying.{Moved}

attempt_inserted :
    (row : AttemptRow) (s : SqLiteLedger)
    → attempt_allowed row s ≡ true
    → insert_attempt row s ≡ (returned tt, record s { attempts = row ∷ s.attempts })
unfolding insert_attempt
attempt_inserted row s h = rw h refl

Persists-of :
    (action : String) (id : OperationIdentity) (r : TransitionRecord) (e : TransitionEvidence)
    (s s' : SqLiteLedger) (p : PersistedTransition) (out : Ending PersistedTransition)
    → Ensures (Persists action id r e s) out
    → out ≡ (returned p, s')
    → Persists action id r e s p s'
Persists-of action id r e s s' p out h is = subst (Ensures (Persists action id r e s)) is h

ordinal_positive : (n : ℕ) → is_positive (pos (1 + n)) ≡ true
ordinal_positive n = ground arith

-- The row of a dispatched attempt is let in after its transition has been persisted.
attempt_row_allowed :
    (attempt : String) (m : OperationStateMachine) (k d n : ℕ) (s t : SqLiteLedger)
    → any (λ (r : AttemptRow). str_eq r.attempt_id attempt) s.attempts ≡ false
    → t.attempts ≡ s.attempts
    → has_operation m.identity.action_id t.operations ≡ true
    → length m.attempt_ids ≡ 1 + length (attempts_of m.identity.action_id s.attempts)
    → Numbered (λ (x : AttemptRow). x.ordinal) 1 (attempts_of m.identity.action_id s.attempts)
    → AttemptsBelow k s.attempts
    → ltb k d ≡ true
    → ltb k n ≡ true
    → has_event (pos d) t.events ≡ true
    → has_event (pos n) t.events ≡ true
    → attempt_allowed (new_attempt attempt m (pos d) (pos n)) t ≡ true
attempt_row_allowed attempt m k d n s t unused same known count numbered below before later there
      here =
    let action = m.identity.action_id in
    let rows = attempts_of action s.attempts in
    let ordinal : pos (length m.attempt_ids) ≡ pos (1 + length rows) = ap pos count in
    let No : (AttemptRow → Bool) → Type 0 = λ p. any p t.attempts ≡ false in
    let moved : (p : AttemptRow → Bool) → any p s.attempts ≡ false → No p =
      λ p h. subst (λ x. any p x ≡ false) (sym same) h in
    attempt_allowed_lem (new_attempt attempt m (pos d) (pos n)) t (moved _ unused) known
      (ap is_positive ordinal ∙ ordinal_positive (length rows))
      (moved (λ r. str_eq r.action_id action && eq_ℤ r.ordinal (pos (length m.attempt_ids)))
        (subst (λ x. any (λ r. str_eq r.action_id action && eq_ℤ r.ordinal x) s.attempts ≡ false)
          (sym ordinal) (unused_attempt_ordinal action s.attempts numbered)))
      (moved (λ r. eq_ℤ r.dispatch_event_seq (pos d))
        (unused_dispatch_seq k d s.attempts below before))
      (moved (λ r. eq_ℤ r.transition_event_seq (pos n))
        (unused_transition_seq k n s.attempts below later))
      there here

-- An open sound ledger with room for the events of a dispatch at a tick, an operation that loads, and an
-- identifier that no attempt has.
pub record CanDispatch (action attempt : String) (tick : ℕ) (s : SqLiteLedger)
    (m : OperationStateMachine) (ps : List PersistedTransition) : Type 0 where
  pub is_open : s.closed ≡ false
  pub room : HasRoom 3 tick s.events
  pub sound : IsSound s
  pub loaded : load_machine action s ≡ ok (m, ps)
  pub unused : any (λ (r : AttemptRow). str_eq r.attempt_id attempt) s.attempts ≡ false

seq_there : (n : ℕ) (q : ℤ) (k : ℕ) → q ≡ pos n → leb_ℤ q (pos k) ≡ true → leb n k ≡ true
seq_there n q k same h = subst (λ x. leb_ℤ x (pos k) ≡ true) same h

positive_of : (j n : ℕ) → ltb j n ≡ true → ltb 0 n ≡ true
positive_of j n h = ground arith

earlier : (j n : ℕ) → ltb (j + 1) n ≡ true → ltb j n ≡ true
earlier j n h = ground arith

module _ (action attempt : String) (tick : ℕ) (s : SqLiteLedger) (m : OperationStateMachine)
    (ps : List PersistedTransition) (can : CanDispatch action attempt tick s m ps)
    (e : TransitionEvidence) (id : OperationIdentity) (valid : IsEvidence e)
    (presentable : is_attempt_id (codes attempt) ≡ true) (tried : Tried) (r : TransitionRecord)
    (moves : Moved m in_flight e id (some attempt) (returned r) tried.machine) where
  own : tried.machine.identity.action_id ≡ action
  own = tried_action action s m tried.machine ps can.loaded moves.identity_same

  made : IsIdentity tried.machine.identity
  made = subst IsIdentity (sym moves.identity_same) (load-reachable action s m ps can.loaded).1

  attempt_valid : is_optional is_attempt_id r.attempt_id ≡ true
  attempt_valid = subst (λ x. is_optional is_attempt_id x ≡ true) (sym moves.attempt_is) presentable

  recorded : IsRecordable tried.machine.identity r.attempt_id (transition_event_evidence r e)
  recorded = record {
    made = made;
    attempt_valid = attempt_valid;
    flat =
        evidence-FieldsFlat r e valid moves.evidence_is attempt_valid
          (returned-IsFlat m in_flight e id (some attempt) r tried.machine moves.answered);
    named = keys_named r e;
  }

  numbered :
      Numbered (λ x. x.ordinal) 1 (transitions_of tried.machine.identity.action_id s.transitions)
  numbered =
      subst (λ x. Numbered (λ y. y.ordinal) 1 (transitions_of x s.transitions)) (sym own)
        (replay_rows-Numbered 1 _ _ m ps (load_parts action s m ps can.loaded).replayed)

  known : has_operation tried.machine.identity.action_id s.operations ≡ true
  known =
      let parts = load_parts action s m ps can.loaded in
      subst (λ x. has_operation x s.operations ≡ true) (sym own)
        (find-has_operation action s.operations parts.row parts.found)

  still_known :
      (state : String) (q : ℤ)
      → has_operation tried.machine.identity.action_id
          (updated tried.machine.identity.action_id state q s.operations)
        ≡ true
  still_known state q =
      let parts = load_parts action s m ps can.loaded in
      subst (λ x. has_operation x (updated x state q s.operations) ≡ true) (sym own)
        (find-has_operation action _ _
          (find-updated action state q s.operations parts.row parts.found))

  attempts-Numbered :
      Numbered
        (λ (x : AttemptRow). x.ordinal)
        1
        (attempts_of tried.machine.identity.action_id s.attempts)
  attempts-Numbered =
      subst (λ x. Numbered (λ (y : AttemptRow). y.ordinal) 1 (attempts_of x s.attempts)) (sym own)
        (load_parts action s m ps can.loaded).attempts_fit.numbered

  attempts_counted :
      length tried.machine.attempt_ids
      ≡ 1 + length (attempts_of tried.machine.identity.action_id s.attempts)
  attempts_counted =
      subst (λ x. length tried.machine.attempt_ids ≡ 1 + length (attempts_of x s.attempts))
        (sym own)
        (omega (
          arith,
          ap length moves.attempts_are,
          length-append m.attempt_ids (attempt ∷ []),
          attempt_count (attempts_of action s.attempts) m.attempt_ids
              (load_parts action s m ps can.loaded).attempts_fit,
        ))

  pub dispatch_goes : Succeeds (persist_dispatch tried id attempt e (pos tick) r s)
  unfolding persist_dispatch keys_are_names
  dispatch_goes =
      let identity = tried.machine.identity in
      let d = length s.events + 1 in
      let (first, inserts, seq, room) =
        event_goes 2 tick attempt_dispatched identity (some attempt) end s can.room
          (record { made = made; attempt_valid = presentable; flat = tt; named = refl }) in
      let s1 = record s { events = first ∷ s.events } in
      let (n, later, (p, s2, persists, at)) =
        persist_transition_goes tick identity id r e s1
          (record {
            room = room;
            made = made;
            known = known;
            numbered = numbered;
            dated = IsDated-more s (first ∷ s.events) (ground arith) can.sound.dated;
          })
          recorded in
      let (q, rows, reaches, is, after) =
        Persists-of identity.action_id id r e s1 s2 p
          (persist_transition identity id r e (pos tick) s1)
          (persist_transition-Persists identity id r e (pos tick) s1 room.log) persists in
      let log = reaches.extends.log in
      let q_is : q ≡ pos n = sym (ap (λ x. x.event_seq) is) ∙ at in
      let here =
        log-has_event n rows log (positive_of (length (first ∷ s.events)) n later)
          (seq_there n q (length rows) q_is reaches.reached) in
      let there = log-has_event d rows log (ground arith) (ground (arith, reaches.extends.grown)) in
      let allowed =
        attempt_row_allowed attempt tried.machine (length s.events) d n s s2 can.unused
          (ap (λ x. x.attempts) after)
          (subst (λ x. has_operation identity.action_id x.operations ≡ true) (sym after)
            (still_known _ q))
          attempts_counted attempts-Numbered can.sound.dated.1 (ground arith)
          (earlier (length s.events) n (ground (arith, later)))
          (subst (λ x. has_event (pos d) x.events ≡ true) (sym after) there)
          (subst (λ x. has_event (pos n) x.events ≡ true) (sym after) here) in
      let row = new_attempt attempt tried.machine (pos d) p.event_seq in
      let allowed' =
        subst (λ x. attempt_allowed (new_attempt attempt tried.machine (pos d) x) s2 ≡ true)
          (sym at) allowed in
      bind_goes Succeeds
        (insert_next (λ k. record (lifecycle_event k (pos tick) attempt_dispatched identity) {
          attempt_id = some attempt;
        }))
        _ s (pos d) s1 inserts
        (bind_goes Succeeds (persist_transition identity id r e (pos tick)) _ s1 p s2 persists (
          bind_goes Succeeds (insert_attempt row) _ s2 tt
            (record s2 { attempts = row ∷ s2.attempts }) (attempt_inserted row s2 allowed')
            (_, _, refl)))
