-- ===== src/Ledger/Soundness.antt =====
-- Any calls on a ledger of src/side_effects_lab/ledger.py, against a map from action identifiers to
-- state machines.
use side_effects_lab.Prelude.{
  String, Option, none, some, List, [], ◌∷◌, ◌++◌, ◌≡◌, ◌≢◌, ◌⊎◌, inl, inr, refl, sym, ap, ◌∙◌,
  subst, str_eq, eq_iff, arith, Bool-cases,
}
use side_effects_lab.Prelude.Int.{ℤ}
use side_effects_lab.Prelude.Result.{Result, ok, err}
use side_effects_lab.Prelude.Exec.{Outcome, returned, raised}
use side_effects_lab.Models.Events.{LabEvent}
use side_effects_lab.StateMachine.Types.{
  OperationState, TransitionEvidence, OperationIdentity, TransitionRecord,
}
use side_effects_lab.StateMachine.Machine.{OperationStateMachine, new_machine}
use side_effects_lab.StateMachine.Runs.{Call, call}
use side_effects_lab.Ledger.Tables.{SqLiteLedger, find_operation}
use side_effects_lab.Ledger.Events.{close, append_event}
use side_effects_lab.Ledger.Appending.{IsLog}
use side_effects_lab.Ledger.Dating.{IsDated}
use side_effects_lab.Ledger.Steps.{Ending}
use side_effects_lab.Ledger.Replay.{PersistedTransition, load_machine}
use side_effects_lab.Ledger.Operations.{register_operation}
use side_effects_lab.Ledger.Transitions.{transition_operation, record_dispatch}
use side_effects_lab.Ledger.Replaying.{IsIdentity, IsEvidence}
use side_effects_lab.Ledger.Loading.{SameRows, load-SameRows, load_parts}
use side_effects_lab.Ledger.Contract.{Advanced, Executed}
use side_effects_lab.Ledger.Registering.{HasNoRows}

abbrev pub Loads : String → SqLiteLedger → Type 0
Loads b s = (out : OperationStateMachine × List PersistedTransition) × (load_machine b s ≡ ok out)

-- The invariant of a ledger: the events are a log, no transition has a later event than the last, every
-- registered operation loads, and rows belong to registered operations.
pub record IsSound (s : SqLiteLedger) : Type 0 where
  pub log : IsLog s.events
  pub dated : IsDated s
  pub loads : (b : String) → (find_operation b s.operations ≡ none) ⊎ Loads b s
  pub fresh : (b : String) → find_operation b s.operations ≡ none → HasNoRows b s

-- The machine that the ledger holds for an action identifier.
abbrev pub machine_in :
    Result (OperationStateMachine × List PersistedTransition) → Option OperationStateMachine
machine_in (ok out) = some out.0
machine_in (err e) = none

abbrev pub machine_of : SqLiteLedger → String → Option OperationStateMachine
machine_of s b = machine_in (load_machine b s)

-- The specification: a step on a map of machines leaves it as it is, adds a new machine, or calls
-- `transition` on one machine. No other entry changes.
pub data SpecStep (f g : String → Option OperationStateMachine) : Type 0 where
  stays : ((b : String) → g b ≡ f b) → SpecStep f g
  registers :
      (id : OperationIdentity)
      → f id.action_id ≡ none
      → g id.action_id ≡ some (new_machine id)
      → ((b : String) → b ≢ id.action_id → g b ≡ f b)
      → SpecStep f g
  calls :
      (a : String) (m : OperationStateMachine) (c : Call)
      → f a ≡ some m
      → g a ≡ some (call m c)
      → ((b : String) → b ≢ a → g b ≡ f b)
      → SpecStep f g

-- The calls that change a ledger.
pub data LedgerCall : Type 0 where
  register : OperationIdentity → ℤ → LedgerCall
  move : String → OperationState → TransitionEvidence → OperationIdentity → ℤ → LedgerCall
  dispatch : String → String → TransitionEvidence → OperationIdentity → ℤ → LedgerCall
  append : LabEvent → LedgerCall
  shut : LedgerCall

-- Identities and evidence are objects that were validated when they were made.
abbrev pub IsMade : LedgerCall → Type 0
IsMade (register id tick) = IsIdentity id
IsMade (move action t e id tick) = IsEvidence e × IsIdentity id
IsMade (dispatch action attempt e id tick) = IsEvidence e × IsIdentity id
IsMade (append event) = Unit
IsMade shut = Unit

-- The ledger after a call, whose exception the caller catches.
unfoldable pub execute : LedgerCall → SqLiteLedger → SqLiteLedger
execute (register id tick) s = (register_operation id tick s).1
execute (move action t e id tick) s = (transition_operation action t e id tick s).1
execute (dispatch action attempt e id tick) s = (record_dispatch action attempt e id tick s).1
execute (append event) s = (append_event event s).1
execute shut s = (close s).1

-- What a call keeps and how it looks to the specification.
abbrev pub Refines : SqLiteLedger → SqLiteLedger → Type 0
Refines s s' = IsSound s' × SpecStep (machine_of s) (machine_of s')

pub unmoved : (s s' : SqLiteLedger) → IsSound s → s' ≡ s → Refines s s'
unmoved s s' h same = subst (Refines s) (sym same) (h, stays (λ b. refl))

-- A ledger in which one operation changed.
module _ (s s' : SqLiteLedger) (a : String) (h : IsSound s)
    (others : (b : String) → b ≢ a → SameRows b s s') where
  others_load : Loads a s' → (b : String) → (find_operation b s'.operations ≡ none) ⊎ Loads b s'
  others_load own b = elim (Bool-cases (str_eq b a)) [
    | inl y ↦ inr (subst (λ x. Loads x s') (sym ((eq_iff b a).0 y)) own)
    | inr n ↦
        let same = others b (λ e. ground (arith, eq_iff b a)) in
        elim (h.loads b) [
          | inl free ↦ inl (same.operation ∙ free)
          | inr (out, is) ↦ inr (out, load-SameRows b s s' same ∙ is)
        ]
  ]

  others_fresh : Loads a s' → (b : String) → find_operation b s'.operations ≡ none → HasNoRows b s'
  others_fresh own b free = elim (Bool-cases (str_eq b a)) [
    | inl y ↦
        let parts = load_parts a s' own.0.0 own.0.1 own.1 in
        cc (parts.found, ap (λ x. find_operation x s'.operations) ((eq_iff b a).0 y), free)
    | inr n ↦
        let same = others b (λ e. ground (arith, eq_iff b a)) in
        let empty = h.fresh b (sym same.operation ∙ free) in
        (same.transitions ∙ empty.0, same.attempts ∙ empty.1)
  ]

  pub changed-IsSound : Loads a s' → IsLog s'.events → IsDated s' → IsSound s'
  changed-IsSound own log dated = record {
    log = log;
    dated = dated;
    loads = others_load own;
    fresh = others_fresh own;
  }

  pub others_seen : (b : String) → b ≢ a → machine_of s' b ≡ machine_of s b
  others_seen b other = ap machine_in (load-SameRows b s s' (others b other))

Advanced-Refines :
    (action : String) (t : OperationState) (e : TransitionEvidence) (id : OperationIdentity)
    (a : Option String) (o : Outcome TransitionRecord TransitionRecord) (p : PersistedTransition)
    (s s' : SqLiteLedger)
    → IsSound s
    → Advanced action t e id a o p s s'
    → Refines s s'
Advanced-Refines action t e id a o p s s' h adv = (
  changed-IsSound s s' action h adv.others ((adv.after, adv.kept ++ p ∷ []), adv.stored) adv.log
      (adv.dated h.dated),
  calls action adv.before (record { target = t; evidence = e; identity = id; attempt_id = a })
      (ap machine_in adv.loaded) (ap machine_in adv.stored ∙ ap (λ x. some x.1) (sym adv.answered))
      (others_seen s s' action h adv.others),
)

pub Executed-Refines :
    {X : Type 0} (Grants : X → PersistedTransition → Type 0) (action : String) (t : OperationState)
    (e : TransitionEvidence) (id : OperationIdentity) (a : Option String) (s : SqLiteLedger)
    (out : Ending X)
    → IsSound s
    → Executed Grants action t e id a s out
    → Refines s out.1
Executed-Refines Grants action t e id a s (returned x, s') h (r, p, adv, grants) =
    Advanced-Refines action t e id a (returned r) p s s' h adv
Executed-Refines Grants action t e id a s (raised error, s') h (inl same) = unmoved s s' h same
Executed-Refines Grants action t e id a s (raised error, s') h (inr (is, (r, p, adv))) =
    Advanced-Refines action t e id a (raised r) p s s' h adv
