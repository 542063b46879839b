-- ===== src/StateMachine/Opening.antt =====
-- No dispatch without authority: how every history of the state machine of src/side_effects_lab/state_machine.py
-- begins, once an attempt was dispatched.
use side_effects_lab.Prelude.{
  String, Option, none, some, List, [], ◌∷◌, ◌++◌, ◌≡◌, ◌≢◌, ◌⊎◌, inl, inr, refl,
}
use side_effects_lab.Prelude.Exec.{Outcome}
use side_effects_lab.StateMachine.Types.{
  OperationState, proposed, authorized, prepared, in_flight, TransitionCause, authority_confirmed,
  preparation_durable, attempt_delivered, violation, complete, safe_stop, TransitionEvidence,
  OperationIdentity, TransitionRecord,
}
use side_effects_lab.StateMachine.Machine.{
  OperationStateMachine, new_machine, new_record, append_attempt,
}
use side_effects_lab.StateMachine.Graph.{
  Edge, authorize, denounce, prepare, decline, dispatch, receive, refuse, lose_track, reconcile,
  find_effect, find_absence, give_up, redispatch, abandon, finish, recheck, mismatch,
}
use side_effects_lab.StateMachine.Branches.{AttemptFits, failure, success, moved_to}
use side_effects_lab.StateMachine.Outcome.{
  Transitioned, terminal, failed, reported, moved, transition-Transitioned,
}
use side_effects_lab.StateMachine.Runs.{Call, call, run, run_keeps}

-- A recorded move, with its cause.
pub record Moves (r : TransitionRecord) (s t : OperationState) (c : TransitionCause) : Type 0 where
  pub source_is : r.source_state ≡ s
  pub result_is : r.resulting_state ≡ t
  pub cause_is : r.cause ≡ c
  pub unblamed : r.violation_reason ≡ none

abbrev pub IsAuthorized : List TransitionRecord → Type 0
IsAuthorized [] = ⊥
IsAuthorized (r ∷ rs) = Moves r proposed authorized authority_confirmed × (rs ≡ [])

abbrev pub IsPrepared : List TransitionRecord → Type 0
IsPrepared [] = ⊥
IsPrepared (r ∷ []) = ⊥
IsPrepared (r ∷ q ∷ rs) =
    Moves r proposed authorized authority_confirmed
    × Moves q authorized prepared preparation_durable
    × (rs ≡ [])

-- The history begins with the authorization, the durable preparation and a dispatch.
abbrev pub Opens : List TransitionRecord → Type 0
Opens [] = ⊥
Opens (r ∷ []) = ⊥
Opens (r ∷ q ∷ []) = ⊥
Opens (r ∷ q ∷ p ∷ rs) =
    Moves r proposed authorized authority_confirmed
    × Moves q authorized prepared preparation_durable
    × Moves p prepared in_flight attempt_delivered

Opens-snoc : (h : List TransitionRecord) (r : TransitionRecord) → Opens h → Opens (h ++ r ∷ [])
Opens-snoc [] r o = absurd o
Opens-snoc (a ∷ []) r o = absurd o
Opens-snoc (a ∷ b ∷ []) r o = absurd o
Opens-snoc (a ∷ b ∷ c ∷ h) r o = o

authorized-snoc :
    (h : List TransitionRecord) (r : TransitionRecord)
    → h ≡ []
    → Moves r proposed authorized authority_confirmed
    → IsAuthorized (h ++ r ∷ [])
authorized-snoc [] r e m = (m, refl)
authorized-snoc (a ∷ h) r e m = absurd (cc)

IsAuthorized-snoc :
    (h : List TransitionRecord) (r : TransitionRecord)
    → IsAuthorized h
    → Moves r authorized prepared preparation_durable
    → IsPrepared (h ++ r ∷ [])
IsAuthorized-snoc [] r a m = absurd a
IsAuthorized-snoc (x ∷ []) r a m = (a.0, m, refl)
IsAuthorized-snoc (x ∷ y ∷ h) r a m = absurd (cc (a.1))

IsPrepared-snoc :
    (h : List TransitionRecord) (r : TransitionRecord)
    → IsPrepared h
    → Moves r prepared in_flight attempt_delivered
    → Opens (h ++ r ∷ [])
IsPrepared-snoc [] r p m = absurd p
IsPrepared-snoc (x ∷ []) r p m = absurd p
IsPrepared-snoc (x ∷ y ∷ []) r p m = (p.0, p.1, m)
IsPrepared-snoc (x ∷ y ∷ z ∷ h) r p m = absurd (cc (p.2))

-- What the history and the attempts are like in each state.
abbrev Stage : OperationState → List TransitionRecord → List String → Type 0
Stage proposed h used = (h ≡ []) × (used ≡ [])
Stage authorized h used = IsAuthorized h × (used ≡ [])
Stage prepared h used = IsPrepared h × (used ≡ [])
Stage safe_stop h used = (used ≡ []) ⊎ Opens h
Stage violation h used = (used ≡ []) ⊎ Opens h
Stage _ h used = Opens h × (used ≢ [])

-- The attempts after an accepted move.
abbrev with_attempt : List String → Option String → List String
with_attempt used none = used
with_attempt used (some a) = used ++ a ∷ []

snoc-ne-nil : (used : List String) (a : String) → used ++ a ∷ [] ≢ []
snoc-ne-nil [] a h = cc
snoc-ne-nil (x ∷ used) a h = cc

in_flight_ne :
    (used : List String) (a : Option String)
    → AttemptFits used in_flight a
    → with_attempt used a ≢ []
in_flight_ne used none fits = absurd (fits refl)
in_flight_ne used (some a) fits = snoc-ne-nil used a

same_attempts :
    (used : List String) (t : OperationState) (a : Option String)
    → AttemptFits used t a
    → t ≢ in_flight
    → with_attempt used a ≡ used
same_attempts used t none fits h = refl
same_attempts used t (some a) fits h = absurd (h fits.0)

-- A dispatched attempt is never forgotten.
stays_open :
    (h : List TransitionRecord) (r : TransitionRecord) (used : List String) (t : OperationState)
    (a : Option String)
    → Opens h × (used ≢ [])
    → AttemptFits used t a
    → t ≢ in_flight
    → Opens (h ++ r ∷ []) × (with_attempt used a ≢ [])
stays_open h r used t a g fits other =
    (Opens-snoc h r g.0, rw (same_attempts used t a fits other) g.1)

as_moved :
    {s t : OperationState} (e : TransitionEvidence) {a : Option String} {c : TransitionCause}
    → e.cause ≡ c
    → Moves (new_record s t t e a none) s t c
as_moved e k = record { source_is = refl; result_is = refl; cause_is = k; unblamed = refl }

-- In every state a machine may be blamed.
Stage-blamed :
    (s : OperationState) (h : List TransitionRecord) (used : List String) (r : TransitionRecord)
    → Stage s h used
    → (used ≡ []) ⊎ Opens (h ++ r ∷ [])
Stage-blamed proposed h used r g = inl g.1
Stage-blamed authorized h used r g = inl g.1
Stage-blamed prepared h used r g = inl g.1
Stage-blamed safe_stop h used r (inl g) = inl g
Stage-blamed safe_stop h used r (inr g) = inr (Opens-snoc h r g)
Stage-blamed violation h used r (inl g) = inl g
Stage-blamed violation h used r (inr g) = inr (Opens-snoc h r g)
Stage-blamed _ h used r g = inr (Opens-snoc h r g.0)

-- An edge leads from stage to stage.
Edge-Stage :
    (e : TransitionEvidence) {s t : OperationState} (h : List TransitionRecord) (used : List String)
    (a : Option String)
    → Edge e s t
    → Stage s h used
    → AttemptFits used t a
    → Stage t (h ++ new_record s t t e a none ∷ []) (with_attempt used a)
Edge-Stage e h used a (authorize c) g fits =
    (authorized-snoc h _ g.0 (as_moved e c), rw (same_attempts used _ a fits (λ x. cc)) g.1)
Edge-Stage e h used a (denounce c) g fits = inl (rw (same_attempts used _ a fits (λ x. cc)) g.1)
Edge-Stage e h used a (prepare c) g fits =
    (IsAuthorized-snoc h _ g.0 (as_moved e c), rw (same_attempts used _ a fits (λ x. cc)) g.1)
Edge-Stage e h used a (decline c) g fits = inl (rw (same_attempts used _ a fits (λ x. cc)) g.1)
Edge-Stage e h used a (dispatch c) g fits =
    (IsPrepared-snoc h _ g.0 (as_moved e c), in_flight_ne used a fits)
Edge-Stage e h used a (receive c) g fits = stays_open h _ used _ a g fits (λ x. cc)
Edge-Stage e h used a (refuse c) g fits = stays_open h _ used _ a g fits (λ x. cc)
Edge-Stage e h used a (lose_track c) g fits = stays_open h _ used _ a g fits (λ x. cc)
Edge-Stage e h used a (reconcile c) g fits = stays_open h _ used _ a g fits (λ x. cc)
Edge-Stage e h used a (find_effect c k) g fits = stays_open h _ used _ a g fits (λ x. cc)
Edge-Stage e h used a (find_absence c k) g fits = stays_open h _ used _ a g fits (λ x. cc)
Edge-Stage e h used a (give_up c k) g fits = inr (Opens-snoc h _ g.0)
Edge-Stage e h used a (redispatch c) g fits = (Opens-snoc h _ g.0, in_flight_ne used a fits)
Edge-Stage e h used a (abandon c) g fits = inr (Opens-snoc h _ g.0)
Edge-Stage e h used a (finish c k) g fits = stays_open h _ used _ a g fits (λ x. cc)
Edge-Stage e h used a (recheck c) g fits = stays_open h _ used _ a g fits (λ x. cc)
Edge-Stage e h used a (mismatch c) g fits = inr (Opens-snoc h _ g.0)

abbrev IsStaged : OperationStateMachine → Type 0
IsStaged m = Stage m.state m.history m.attempt_ids

moved_to-IsStaged :
    (m : OperationStateMachine) (t : OperationState) (e : TransitionEvidence) (a : Option String)
    → Stage t (m.history ++ success m t e a ∷ []) (with_attempt m.attempt_ids a)
    → IsStaged (moved_to m t e a)
unfolding append_attempt
moved_to-IsStaged m t e none h = h
moved_to-IsStaged m t e (some a) h = h

IsStaged-of :
    (m : OperationStateMachine) (t : OperationState) (e : TransitionEvidence)
    (id : OperationIdentity) (a : Option String)
    (out : Outcome TransitionRecord TransitionRecord × OperationStateMachine)
    → Transitioned m t e id a out
    → IsStaged m
    → IsStaged out.1
IsStaged-of m t e id a out (terminal dead is) h = rw is h
IsStaged-of m t e id a out (failed live refused (reason, is)) h =
    rw is (Stage-blamed m.state m.history m.attempt_ids (failure m t e a reason) h)
IsStaged-of m t e id a out (reported ready report is) h =
    rw (is, report.0) (Stage-blamed m.state m.history m.attempt_ids _ h)
IsStaged-of m t e id a out (moved ready other edge is) h =
    rw is (moved_to-IsStaged m t e a (Edge-Stage e m.history m.attempt_ids a edge h ready.fits))

call-IsStaged : (m : OperationStateMachine) (c : Call) → IsStaged m → IsStaged (call m c)
call-IsStaged m c =
    IsStaged-of m _ _ _ _ _ (transition-Transitioned m c.target c.evidence c.identity c.attempt_id)

run-IsStaged : (cs : List Call) (id : OperationIdentity) → IsStaged (run cs (new_machine id))
unfolding new_machine
run-IsStaged cs id = run_keeps IsStaged call-IsStaged cs (new_machine id) (refl, refl)

Stage-Opens :
    (s : OperationState) (h : List TransitionRecord) (used : List String)
    → Stage s h used
    → used ≢ []
    → Opens h
Stage-Opens proposed h used g n = absurd (n g.1)
Stage-Opens authorized h used g n = absurd (n g.1)
Stage-Opens prepared h used g n = absurd (n g.1)
Stage-Opens safe_stop h used (inl g) n = absurd (n g)
Stage-Opens safe_stop h used (inr g) n = g
Stage-Opens violation h used (inl g) n = absurd (n g)
Stage-Opens violation h used (inr g) n = g
Stage-Opens _ h used g n = g.0

-- No attempt is dispatched without authority: whenever a machine has an attempt, its history begins
-- with an accepted move from PROPOSED to AUTHORIZED on confirmed authority, then one to PREPARED on a
-- durable preparation, then one to IN_FLIGHT on a delivered attempt.
pub dispatch_needs_authority :
    (cs : List Call) (id : OperationIdentity)
    → (run cs (new_machine id)).attempt_ids ≢ []
    → Opens (run cs (new_machine id)).history
dispatch_needs_authority cs id = Stage-Opens _ _ _ (run-IsStaged cs id)

Stage-complete :
    (s : OperationState) (h : List TransitionRecord) (used : List String)
    → Stage s h used
    → s ≡ complete
    → Opens h × (used ≢ [])
Stage-complete complete h used g e = g
Stage-complete _ h used g e = absurd (cc e)

-- A COMPLETE machine has dispatched an attempt, and did so with authority and preparation.
pub complete_needs_dispatch :
    (cs : List Call) (id : OperationIdentity)
    → (run cs (new_machine id)).state ≡ complete
    → Opens (run cs (new_machine id)).history × ((run cs (new_machine id)).attempt_ids ≢ [])
complete_needs_dispatch cs id = Stage-complete _ _ _ (run-IsStaged cs id)
