-- ===== src/Ledger/Dating.antt =====
-- How the rows of src/side_effects_lab/ledger.py refer to the table of events.
use side_effects_lab.Prelude.{ℕ, true, List, [], ◌∷◌, ◌≡◌, length, All, arith, leb}
use side_effects_lab.Prelude.Int.{ℤ, pos, leb_ℤ}
use side_effects_lab.Ledger.Tables.{EventRow, TransitionRow, AttemptRow, SqLiteLedger, has_event}
use side_effects_lab.Ledger.Appending.{IsLog}

-- No transition has a later event than the last.
abbrev pub Below : ℕ → List TransitionRow → Type 0
Below k = All (λ r. leb_ℤ r.event_seq (pos k) ≡ true)

-- Nor has an attempt.
abbrev pub AttemptsBelow : ℕ → List AttemptRow → Type 0
AttemptsBelow k = All (λ r.
    (leb_ℤ r.dispatch_event_seq (pos k) ≡ true) × (leb_ℤ r.transition_event_seq (pos k) ≡ true))

abbrev pub IsDated : SqLiteLedger → Type 0
IsDated s = Below (length s.events) s.transitions × AttemptsBelow (length s.events) s.attempts

pub event_below :
    (n : ℤ) (rows : List EventRow)
    → IsLog rows
    → has_event n rows ≡ true
    → leb_ℤ n (pos (length rows)) ≡ true
event_below n [] log h = cc
event_below n (r ∷ rows) log h = ground (arith, event_below n rows log.1.1, log.0)

-- A log with the rows of another and some more.
pub record Extends (old rows : List EventRow) : Type 0 where
  pub log : IsLog rows
  pub grown : leb (length old) (length rows) ≡ true

pub Extends-itself : (rows : List EventRow) → IsLog rows → Extends rows rows
Extends-itself rows log = record { log = log; grown = ground arith }

pub Extends-next :
    (r : EventRow) (rows : List EventRow) → IsLog (r ∷ rows) → Extends rows (r ∷ rows)
Extends-next r rows log = record { log = log; grown = ground arith }

pub Extends-then :
    (old mid rows : List EventRow) → Extends old mid → Extends mid rows → Extends old rows
Extends-then old mid rows h k = record { log = k.log; grown = ground (arith, h.grown, k.grown) }

-- And with the event of a sequence number.
pub record Reaches (old : List EventRow) (seq : ℤ) (rows : List EventRow) : Type 0 where
  pub extends : Extends old rows
  pub reached : leb_ℤ seq (pos (length rows)) ≡ true

pub Below-more :
    (j k : ℕ) (rows : List TransitionRow) → leb j k ≡ true → Below j rows → Below k rows
Below-more j k [] h below = tt
Below-more j k (r ∷ rows) h below = (ground (arith, below.0), Below-more j k rows h below.1)

pub AttemptsBelow-more :
    (j k : ℕ) (rows : List AttemptRow)
    → leb j k ≡ true
    → AttemptsBelow j rows
    → AttemptsBelow k rows
AttemptsBelow-more j k [] h below = tt
AttemptsBelow-more j k (r ∷ rows) h below =
    ((ground (arith, below.0.0), ground (arith, below.0.1)), AttemptsBelow-more j k rows h below.1)

-- More events, and the same rows.
pub IsDated-more :
    (s : SqLiteLedger) (rows : List EventRow)
    → leb (length s.events) (length rows) ≡ true
    → IsDated s
    → IsDated (record s { events = rows })
IsDated-more s rows h below = (
  Below-more (length s.events) (length rows) s.transitions h below.0,
  AttemptsBelow-more (length s.events) (length rows) s.attempts h below.1,
)
