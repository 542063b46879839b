-- ===== src/Ledger/Owning.antt =====
-- What a validation of src/side_effects_lab/ledger.py says of the managed events.
use side_effects_lab.Prelude.{
  ℕ, ◌+◌, String, Option, eq_iff, true, false, none, some, List, [], ◌∷◌, ◌++◌, ◌≡◌, ◌⊎◌, inl, inr,
  refl, sym, ap, ◌∙◌, subst, All, All-append, all, and_parts, arith, ltb, Bool-cases,
}
use side_effects_lab.Prelude.Int.{ℤ, pos, eq_ℤ, eq_ℤ_iff}
use side_effects_lab.Prelude.Result.{
  ok, require_ok, require_then, bind_ok, ok_injective, ledger_integrity_error,
}
use side_effects_lab.Models.Events.{LabEvent}
use side_effects_lab.Ledger.Tables.{SqLiteLedger}
use side_effects_lab.Ledger.Events.{is_managed}
use side_effects_lab.Ledger.Operations.{OperationSnapshot}
use side_effects_lab.Ledger.Validating.{
  validate_snapshot, validate_snapshots, seqs_from, ticks_sorted, managed_seqs, mem_seq, same_set,
  validate_lifecycle,
}
use side_effects_lab.Ledger.Matching.{same_text, event_matches_identity, find_event}
use side_effects_lab.StateMachine.Types.{OperationIdentity}
use side_effects_lab.Ledger.Belonging.{Owns, snapshot_owned}

-- The event carries the four parts of an operation's identity.
abbrev pub Carries : LabEvent → OperationIdentity → Type 0
Carries e i =
    (e.action_id ≡ some i.action_id)
    × (e.operation_key ≡ some i.operation_key)
    × (e.intent_digest ≡ some i.intent_digest)
    × (e.authority_id ≡ some i.authority_id)

same_text-some : (a : Option String) (b : String) → same_text a (some b) ≡ true → a ≡ some b
same_text-some none b h = cc
same_text-some (some a) b h = ap some ((eq_iff a b).0 h)

event_matches_identity-Carries :
    (e : LabEvent) (i : OperationIdentity) → event_matches_identity e i ≡ true → Carries e i
unfolding event_matches_identity
event_matches_identity-Carries e i h = (
  same_text-some e.action_id i.action_id (ground arith),
  same_text-some e.operation_key i.operation_key (ground arith),
  same_text-some e.intent_digest i.intent_digest (ground arith),
  same_text-some e.authority_id i.authority_id (ground arith),
)

-- The event carries the identity of one of the operations.
abbrev pub HasOwner : LabEvent → List OperationSnapshot → Type 0
HasOwner e [] = ⊥
HasOwner e (x ∷ xs) = Carries e x.identity ⊎ HasOwner e xs

abbrev IsOwned : List LabEvent → List OperationSnapshot → ℤ → Type 0
IsOwned events xs n = (e : LabEvent) × (find_event n events ≡ some e) × HasOwner e xs

All-weaker :
    {A : Type 0} (P Q : A → Type 0) (xs : List A) → ((x : A) → P x → Q x) → All P xs → All Q xs
All-weaker P Q [] f h = tt
All-weaker P Q (x ∷ xs) f h = (f x h.0, All-weaker P Q xs f h.1)

snapshots-IsOwned :
    (s : SqLiteLedger) (events : List LabEvent) (xs : List OperationSnapshot) (ns : List ℤ)
    → validate_snapshots s events xs ≡ ok ns
    → All (IsOwned events xs) ns
unfolding validate_snapshots
snapshots-IsOwned s events [] ns h = subst (All (IsOwned events [])) (ok_injective [] ns h) tt
snapshots-IsOwned s events (x ∷ xs) ns h =
    let (own, is, h1) = bind_ok (validate_snapshot s events x) _ ns h in
    let (rest, are, same) = bind_ok (validate_snapshots s events xs) _ ns h1 in
    subst (All (IsOwned events (x ∷ xs))) (ok_injective (own ++ rest) ns same) (
      All-append (IsOwned events (x ∷ xs)) own rest
        (All-weaker (Owns events x.identity) (IsOwned events (x ∷ xs)) own
          (λ n (e, at, fits). (e, at, inl (event_matches_identity-Carries e x.identity fits)))
          (snapshot_owned s events x own is))
        (All-weaker (IsOwned events xs) (IsOwned events (x ∷ xs)) rest
          (λ n (e, at, owner). (e, at, inr owner)) (snapshots-IsOwned s events xs rest are)))

none_before :
    (n k : ℕ) (es : List LabEvent)
    → seqs_from k es ≡ true
    → ltb n k ≡ true
    → find_event (pos n) es ≡ none
unfolding seqs_from find_event
none_before n k [] h g = refl
none_before n k (e ∷ es) h g =
    let (own, rest) = and_parts (eq_ℤ e.seq (pos k)) (seqs_from (k + 1) es) h in
    let there = none_before n (k + 1) es rest (ground arith) in
    let other : eq_ℤ e.seq (pos n) ≡ false = ground (arith, eq_ℤ_iff e.seq (pos k)) in
    rw (there, other) refl

found_later :
    (n : ℤ) (e f : LabEvent) (es : List LabEvent)
    → find_event n es ≡ some f
    → find_event n (e ∷ es) ≡ some f
unfolding find_event
found_later n e f es h = rw h refl

found_first :
    (k : ℕ) (e : LabEvent) (es : List LabEvent)
    → e.seq ≡ pos k
    → find_event (pos k) es ≡ none
    → find_event e.seq (e ∷ es) ≡ some e
unfolding find_event
found_first k e es own free =
    let same : find_event e.seq es ≡ none = ap (λ n. find_event n es) own ∙ free in
    rw (same, (eq_ℤ_iff e.seq e.seq).1 refl) refl

-- The events are found under their numbers.
found_itself :
    (k : ℕ) (es : List LabEvent)
    → seqs_from k es ≡ true
    → All (λ e. find_event e.seq es ≡ some e) es
unfolding seqs_from
found_itself k [] h = tt
found_itself k (e ∷ es) h =
    let (own, rest) = and_parts (eq_ℤ e.seq (pos k)) (seqs_from (k + 1) es) h in
    (
      found_first k e es ((eq_ℤ_iff e.seq (pos k)).0 own)
          (none_before k (k + 1) es rest (ground arith)),
      All-weaker (λ f. find_event f.seq es ≡ some f) (λ f. find_event f.seq (e ∷ es) ≡ some f) es
          (λ f is. found_later f.seq e f es is) (found_itself (k + 1) es rest),
    )

All-mem_seq : (P : ℤ → Type 0) (n : ℤ) (ns : List ℤ) → mem_seq n ns ≡ true → All P ns → P n
unfolding mem_seq
All-mem_seq P n [] h all_are = cc
All-mem_seq P n (m ∷ ms) h all_are = elim (Bool-cases (eq_ℤ m n)) [
  | inl y ↦ subst P ((eq_ℤ_iff m n).0 y) all_are.0
  | inr other ↦ All-mem_seq P n ms (ground arith) all_are.1
]

-- A managed event is one of the expected.
managed_member :
    (expected : List ℤ) (es : List LabEvent)
    → all (λ n. mem_seq n expected) (managed_seqs es) ≡ true
    → All (λ e. is_managed e.kind ≡ true → mem_seq e.seq expected ≡ true) es
unfolding managed_seqs
managed_member expected [] h = tt
managed_member expected (e ∷ es) h = elim (Bool-cases (is_managed e.kind)) [
  | inl y ↦
      let h' : all (λ n. mem_seq n expected) (e.seq ∷ managed_seqs es) ≡ true =
        sym (rw y refl) ∙ h in
      let (own, rest) = and_parts (mem_seq e.seq expected) _ h' in
      ((λ managed. own), managed_member expected es rest)
  | inr n ↦
      let h' : all (λ n. mem_seq n expected) (managed_seqs es) ≡ true = sym (rw n refl) ∙ h in
      ((λ managed. cc (n, managed)), managed_member expected es h')
]

All-both :
    {A : Type 0} (P Q R : A → Type 0) (xs : List A)
    → ((x : A) → P x → Q x → R x)
    → All P xs
    → All Q xs
    → All R xs
All-both P Q R [] f h k = tt
All-both P Q R (x ∷ xs) f h k = (f x h.0 k.0, All-both P Q R xs f h.1 k.1)

some_injective : (e f : LabEvent) → some e ≡ some f → e ≡ f
some_injective e f h = cc

owner_of :
    (events : List LabEvent) (xs : List OperationSnapshot) (e : LabEvent)
    → find_event e.seq events ≡ some e
    → IsOwned events xs e.seq
    → HasOwner e xs
owner_of events xs e is (f, at, owner) =
    let same : f ≡ e = some_injective f e (sym at ∙ is) in subst (λ x. HasOwner x xs) same owner

-- If the validation of the events against the operations returns, then every managed event, of a
-- proposal, a preparation, a dispatch or a transition, carries the action, the operation key, the
-- intent digest and the authority of one of the operations.
pub validate_lifecycle-owners :
    (s : SqLiteLedger) (events : List LabEvent) (snapshots : List OperationSnapshot)
    → validate_lifecycle s events snapshots ≡ ok tt
    → All (λ e. is_managed e.kind ≡ true → HasOwner e snapshots) events
unfolding validate_lifecycle same_set
validate_lifecycle-owners s events snapshots h =
    let (contiguous, h1) = require_then (seqs_from 1 events) ledger_integrity_error _ tt h in
    let (sorted, h2) = require_then (ticks_sorted events) ledger_integrity_error _ tt h1 in
    let (expected, are, h3) = bind_ok (validate_snapshots s events snapshots) _ tt h2 in
    let (here, there) =
      and_parts (all (λ n. mem_seq n expected) (managed_seqs events)) _
        (require_ok (same_set (managed_seqs events) expected) ledger_integrity_error tt h3) in
    let owned = snapshots-IsOwned s events snapshots expected are in
    All-both (λ e. find_event e.seq events ≡ some e)
      (λ e. is_managed e.kind ≡ true → mem_seq e.seq expected ≡ true)
      (λ e. is_managed e.kind ≡ true → HasOwner e snapshots) events
      (λ e is member managed.
        owner_of events snapshots e is
          (All-mem_seq (IsOwned events snapshots) e.seq expected (member managed) owned))
      (found_itself 1 events contiguous) (managed_member expected events here)
