-- ===== src/Clock/Order.antt =====
-- The order in which the scheduler of src/side_effects_lab/clock.py hands out its items.
use side_effects_lab.Prelude.{
  ℕ, ◌+◌, ◌≤◌, ◌<◌, ◌≡◌, ◌⊎◌, inl, inr, refl, true, false, List, [], ◌∷◌, ◌++◌, leb, if◌then◌else◌,
  All, arith, Bool-cases,
}
use side_effects_lab.Clock.Scheduler.{ScheduledItem, DeterministicScheduler, before, heappush}

module _ {T : Type 0} where
  -- `a` is handed out before `b`.
  abbrev pub Precedes : ScheduledItem T → ScheduledItem T → Type 0
  Precedes a b = (a.tick < b.tick) ⊎ ((a.tick ≡ b.tick) × (a.ordinal < b.ordinal))

  abbrev pub Ordered : List (ScheduledItem T) → Type 0
  Ordered [] = Unit
  Ordered (x ∷ xs) = All (Precedes x) xs × Ordered xs

  abbrev pub Below : ℕ → List (ScheduledItem T) → Type 0
  Below n = All (λ x. x.ordinal < n)

  -- The queue is in order, and its ordinals have been handed out.
  pub record IsValid (s : DeterministicScheduler T) : Type 0 where
    pub ordered : Ordered s.queue
    pub below : Below s.next_ordinal s.queue

  -- No item is due in the past.
  abbrev pub IsCurrent : DeterministicScheduler T → Type 0
  IsCurrent s = All (λ x. s.clock.tick ≤ x.tick) s.queue

  -- The items that are due by `t`, and those that are due later.
  unfoldable pub due_by : ℕ → List (ScheduledItem T) → List (ScheduledItem T)
  due_by t [] = []
  due_by t (x ∷ xs) = let rest = due_by t xs in if leb x.tick t then x ∷ rest else rest

  unfoldable pub due_after : ℕ → List (ScheduledItem T) → List (ScheduledItem T)
  due_after t [] = []
  due_after t (x ∷ xs) = let rest = due_after t xs in if leb x.tick t then rest else x ∷ rest

  due_after_later :
      (t : ℕ) (x : ScheduledItem T) (xs : List (ScheduledItem T))
      → t < x.tick
      → All (Precedes x) xs
      → (due_by t xs ≡ []) × (due_after t xs ≡ xs)
  unfolding due_by due_after
  due_after_later t x [] h p = (refl, refl)
  due_after_later t x (y ∷ ys) h p = let ih = due_after_later t x ys h p.1 in ground arith

  -- The new item has the greatest ordinal, so it goes behind all items that are due by its tick.
  pub heappush_stable :
      (item : ScheduledItem T) (xs : List (ScheduledItem T))
      → Ordered xs
      → Below item.ordinal xs
      → heappush item xs ≡ due_by item.tick xs ++ item ∷ due_after item.tick xs
  unfolding heappush due_by due_after
  heappush_stable item [] o b = refl
  heappush_stable item (x ∷ xs) o b = elim (Bool-cases (leb x.tick item.tick)) [
    | inl early ↦ ground (arith, heappush_stable item xs o.1 b.1)
    | inr late ↦ ground (arith, due_after_later item.tick x xs (ground arith) o.0)
  ]

  pub All-heappush :
      (P : ScheduledItem T → Type 0) (item : ScheduledItem T) (xs : List (ScheduledItem T))
      → P item
      → All P xs
      → All P (heappush item xs)
  unfolding heappush
  All-heappush P item [] p h = (p, tt)
  All-heappush P item (x ∷ xs) p h = elim (Bool-cases (before item x)) [
    | inl y ↦ rw y (p, h)
    | inr n ↦ rw n (h.0, All-heappush P item xs p h.1)
  ]

  Precedes-trans : (a b c : ScheduledItem T) → Precedes a b → Precedes b c → Precedes a c
  Precedes-trans a b c p q = grind arith

  All-Precedes :
      (a b : ScheduledItem T) (xs : List (ScheduledItem T))
      → Precedes a b
      → All (Precedes b) xs
      → All (Precedes a) xs
  All-Precedes a b [] p h = tt
  All-Precedes a b (x ∷ xs) p h = (Precedes-trans a b x p h.0, All-Precedes a b xs p h.1)

  before-Precedes : (a b : ScheduledItem T) → before a b ≡ true → Precedes a b
  before-Precedes a b h = ground arith

  not_before : (a b : ScheduledItem T) → before a b ≡ false → b.ordinal < a.ordinal → Precedes b a
  not_before a b h k = ground arith

  pub heappush-Ordered :
      (item : ScheduledItem T) (xs : List (ScheduledItem T))
      → Ordered xs
      → Below item.ordinal xs
      → Ordered (heappush item xs)
  unfolding heappush
  heappush-Ordered item [] o b = (tt, tt)
  heappush-Ordered item (x ∷ xs) o b = elim (Bool-cases (before item x)) [
    | inl y ↦
        rw y ((before-Precedes item x y, All-Precedes item x xs (before-Precedes item x y) o.0), o)
    | inr n ↦ rw n (
      All-heappush (Precedes x) item xs (not_before item x n b.0) o.0,
      heappush-Ordered item xs o.1 b.1,
    )
  ]

  pub Below-suc : (n : ℕ) (xs : List (ScheduledItem T)) → Below n xs → Below (n + 1) xs
  Below-suc n [] h = tt
  Below-suc n (x ∷ xs) h = (omega arith, Below-suc n xs h.1)
