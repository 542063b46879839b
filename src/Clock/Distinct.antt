-- ===== src/Clock/Distinct.antt =====
-- No identifier of `RunScopedIdAllocator` of src/side_effects_lab/clock.py is handed out twice.
use side_effects_lab.Prelude.{
  ℕ, ◌+◌, ◌≤◌, ◌<◌, ◌≡◌, inl, inr, refl, sym, ◌∙◌, Option, none, some, List, [], ◌∷◌, if◌then◌else◌,
  All, Fresh, NoRepeat, arith,
}
use side_effects_lab.Prelude.Result.{Error}
use side_effects_lab.Prelude.Exec.{Outcome, returned, raised}
use side_effects_lab.Text.{Text, is_digit}
use side_effects_lab.Text.Equality.{text_eq, text_eq_iff, split_unique}
use side_effects_lab.Text.Decimal.{decimal, decimal-injective, decimal-all}
use side_effects_lab.Clock.Allocator.{
  RunScopedIdAllocator, counter_of, set_counter, attempt_text, effect_text, next_attempt_id,
  next_effect_id,
}
use side_effects_lab.Clock.Unique.{Allocates, next_attempt_id_total, next_effect_id-Allocates}

-- A call of the allocator.
pub data Request : Type 0 where
  attempt_request : Request
  effect_request : Option Text → Request

abbrev serve : Request → RunScopedIdAllocator → Outcome Error Text × RunScopedIdAllocator
serve attempt_request = next_attempt_id
serve (effect_request kind) = next_effect_id kind

abbrev collect : Outcome Error Text → List Text → List Text
collect (returned t) ts = t ∷ ts
collect (raised e) ts = ts

-- The attempt identifiers, and the effect identifiers, that a sequence of calls returns.
unfoldable pub attempt_ids_of : List Request → RunScopedIdAllocator → List Text
attempt_ids_of [] a = []
attempt_ids_of (attempt_request ∷ rs) a =
    let (out, a') = next_attempt_id a in collect out (attempt_ids_of rs a')
attempt_ids_of (effect_request kind ∷ rs) a = attempt_ids_of rs (next_effect_id kind a).1

unfoldable pub effect_ids_of : List Request → RunScopedIdAllocator → List Text
effect_ids_of [] a = []
effect_ids_of (attempt_request ∷ rs) a = effect_ids_of rs (next_attempt_id a).1
effect_ids_of (effect_request kind ∷ rs) a =
    let (out, a') = next_effect_id kind a in collect out (effect_ids_of rs a')

attempt_text-injective : (m n : ℕ) → attempt_text m ≡ attempt_text n → m ≡ n
attempt_text-injective m n e = decimal-injective m n (cc)

effect_text-injective :
    (k j : Text) (m n : ℕ) → effect_text k m ≡ effect_text j n → (k ≡ j) × (m ≡ n)
effect_text-injective k j m n e =
    let (same, digits) =
      split_unique is_digit b'-' k j (decimal m) (decimal n) refl (decimal-all m) (decimal-all n)
        e in
    (same, decimal-injective m n digits)

counter_of-set :
    (j k : Text) (n : ℕ) (d : List (Text × ℕ))
    → counter_of j (set_counter k n d) ≡ (if text_eq k j then n else counter_of j d)
unfolding counter_of set_counter
counter_of-set j k n [] = refl
counter_of-set j k n ((i, m) ∷ d) =
    ground (arith, text_eq_iff k j, text_eq_iff i k, text_eq_iff i j, counter_of-set j k n d)

effect_keeps_attempts :
    (k : Option Text) (a : RunScopedIdAllocator) (out : Outcome Error Text × RunScopedIdAllocator)
    → Allocates k a out
    → out.1.attempt_counter ≡ a.attempt_counter
effect_keeps_attempts none a out is = rw is
effect_keeps_attempts (some k) a out (inl (bad, is)) = rw is
effect_keeps_attempts (some k) a out (inr (inl (good, full, is))) = rw is
effect_keeps_attempts (some k) a out (inr (inr (good, room, (valid, is)))) = rw is

attempt_keeps_effects :
    (a : RunScopedIdAllocator) → (next_attempt_id a).1.effect_counters ≡ a.effect_counters
attempt_keeps_effects a = elim (next_attempt_id_total a) [
  | inl (full, is) ↦ rw is
  | inr (room, is, valid) ↦ rw is
]

-- A later attempt identifier has a greater count.
abbrev Later : ℕ → Text → Type 0
Later n t = (m : ℕ) × (n < m) × (t ≡ attempt_text m)

Later-weaken : (m n : ℕ) (ts : List Text) → m ≤ n → All (Later n) ts → All (Later m) ts
Later-weaken m n [] h a = tt
Later-weaken m n (t ∷ ts) h a = ((a.0.0, omega arith, a.0.2), Later-weaken m n ts h a.1)

Later-Fresh : (n : ℕ) (ts : List Text) → All (Later n) ts → Fresh (attempt_text n) ts
Later-Fresh n [] a = tt
Later-Fresh n (t ∷ ts) a = (
  (λ e. absurd (omega (arith, attempt_text-injective _ _ (sym a.0.2 ∙ e)))),
  Later-Fresh n ts a.1,
)

attempts-Later :
    (rs : List Request) (a : RunScopedIdAllocator)
    → All (Later a.attempt_counter) (attempt_ids_of rs a) × NoRepeat (attempt_ids_of rs a)
unfolding attempt_ids_of
attempts-Later [] a = (tt, tt)
attempts-Later (effect_request k ∷ rs) a =
    rw (effect_keeps_attempts k a _ (next_effect_id-Allocates k a)) at
      (attempts-Later rs (next_effect_id k a).1)
attempts-Later (attempt_request ∷ rs) a = elim (next_attempt_id_total a) [
  | inl (full, is) ↦ rw is (attempts-Later rs a)
  | inr (room, is, valid) ↦ rw is (
      let c = a.attempt_counter in
      let (later, distinct) = attempts-Later rs (record a { attempt_counter = c + 1 }) in
      (
        ((c + 1, omega arith, refl), Later-weaken c (c + 1) _ (omega arith) later),
        (Later-Fresh (c + 1) _ later, distinct),
      ))
]

-- A later effect identifier has a greater count for its kind.
abbrev Beyond : List (Text × ℕ) → Text → Type 0
Beyond d t = (k : Text) × (n : ℕ) × (counter_of k d < n) × (t ≡ effect_text k n)

Beyond-weaken :
    (d d' : List (Text × ℕ)) (ts : List Text)
    → ((k : Text) → counter_of k d ≤ counter_of k d')
    → All (Beyond d') ts
    → All (Beyond d) ts
Beyond-weaken d d' [] h a = tt
Beyond-weaken d d' (t ∷ ts) h a =
    let ((k, n, lt, e), rest) = a in ((k, n, omega (arith, h k), e), Beyond-weaken d d' ts h rest)

Beyond-Fresh :
    (k : Text) (n : ℕ) (d : List (Text × ℕ)) (ts : List Text)
    → counter_of k d ≡ n
    → All (Beyond d) ts
    → Fresh (effect_text k n) ts
Beyond-Fresh k n d [] h a = tt
Beyond-Fresh k n d (t ∷ ts) h a =
    let ((j, m, lt, e), rest) = a in
    (
      (λ same. clash j m lt (effect_text-injective j k m n (sym e ∙ same))),
      Beyond-Fresh k n d ts h rest,
    )
  where
    clash : (j : Text) (m : ℕ) → counter_of j d < m → (j ≡ k) × (m ≡ n) → ⊥
    clash j m lt both = ground arith

set_counter-grows :
    (k : Text) (d : List (Text × ℕ)) (j : Text)
    → counter_of j d ≤ counter_of j (set_counter k (counter_of k d + 1) d)
set_counter-grows k d j = ground (arith, counter_of-set j k (counter_of k d + 1) d, text_eq_iff k j)

set_counter_self : (k : Text) (n : ℕ) (d : List (Text × ℕ)) → counter_of k (set_counter k n d) ≡ n
set_counter_self k n d = ground (arith, counter_of-set k k n d, text_eq_iff k k)

-- What the calls after one of `next_effect_id` give, put behind what that one gave.
effects_after :
    (k : Option Text) (a : RunScopedIdAllocator) (out : Outcome Error Text × RunScopedIdAllocator)
    (ts : List Text)
    → Allocates k a out
    → All (Beyond out.1.effect_counters) ts × NoRepeat ts
    → All (Beyond a.effect_counters) (collect out.0 ts) × NoRepeat (collect out.0 ts)
effects_after none a out ts is h = rw is (rw is at h)
effects_after (some k) a out ts (inl (bad, is)) h = rw is (rw is at h)
effects_after (some k) a out ts (inr (inl (good, full, is))) h = rw is (rw is at h)
effects_after (some k) a out ts (inr (inr (good, room, (valid, is)))) h =
    let n = counter_of k a.effect_counters + 1 in
    let d' = set_counter k n a.effect_counters in
    let (beyond, distinct) : All (Beyond d') ts × NoRepeat ts = rw is at h in
    rw is (
      (
        (k, n, omega arith, refl),
        Beyond-weaken a.effect_counters d' ts (set_counter-grows k a.effect_counters) beyond,
      ),
      (Beyond-Fresh k n d' ts (set_counter_self k n a.effect_counters) beyond, distinct),
    )

effects-Beyond :
    (rs : List Request) (a : RunScopedIdAllocator)
    → All (Beyond a.effect_counters) (effect_ids_of rs a) × NoRepeat (effect_ids_of rs a)
unfolding effect_ids_of
effects-Beyond [] a = (tt, tt)
effects-Beyond (attempt_request ∷ rs) a =
    rw (attempt_keeps_effects a) at (effects-Beyond rs (next_attempt_id a).1)
effects-Beyond (effect_request k ∷ rs) a =
    effects_after k a _ _ (next_effect_id-Allocates k a) (effects-Beyond rs (next_effect_id k a).1)

-- Whatever is asked of an allocator, in whatever order, it returns no attempt identifier twice, and
-- no effect identifier twice, those of different kinds included.
pub allocator_distinct :
    (rs : List Request) (a : RunScopedIdAllocator)
    → NoRepeat (attempt_ids_of rs a) × NoRepeat (effect_ids_of rs a)
allocator_distinct rs a = ((attempts-Later rs a).1, (effects-Beyond rs a).1)
