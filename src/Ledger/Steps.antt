-- ===== src/Ledger/Steps.antt =====
-- Rules for the steps of a method of src/side_effects_lab/ledger.py, one for each way to build it.
use side_effects_lab.Prelude.{Bool, true, false, not, ◌&&◌, ◌≡◌, refl, sym, subst, arith}
use side_effects_lab.Prelude.Result.{
  Error, Result, ok, err, require, ok_injective, ledger_closed_error,
}
use side_effects_lab.Prelude.Exec.{Outcome, returned, raised, lift, ◌>>=◌}
use side_effects_lab.Ledger.Tables.{SqLiteLedger, LedgerAction}
use side_effects_lab.Ledger.Events.{transaction}

abbrev pub Ending : Type 0 → Type 0
Ending A = Outcome Error A × SqLiteLedger

module _ {A B : Type 0} where
  -- A step of a call that a function of its arguments decides.
  pub lift_step :
      (P : Ending B → Type 0) (r : Result A) (k : A → LedgerAction B) (s : SqLiteLedger)
      → ((e : Error) → P (raised e, s))
      → ((a : A) → r ≡ ok a → P (k a s))
      → P ((lift r >>= k) s)
  lift_step P (err e) k s fails works = fails e
  lift_step P (ok a) k s fails works = works a refl

  -- A step of a call that a function of its arguments lets through.
  pub lift_goes :
      (P : Ending B → Type 0) (r : Result A) (k : A → LedgerAction B) (s : SqLiteLedger) (a : A)
      → r ≡ ok a
      → P (k a s)
      → P ((lift r >>= k) s)
  lift_goes P (ok b) k s a is h = subst (λ x. P (k x s)) (sym (ok_injective b a is)) h
  lift_goes P (err e) k s a is h = cc

  went :
      (P : Ending B → Type 0) (out : Ending A) (k : A → LedgerAction B) (s t : SqLiteLedger) (a : A)
      → out ≡ (returned a, t)
      → P (k a t)
      → P (((λ _. out) >>= k) s)
  went P out k s t a is h = subst (λ x. P (((λ _. x) >>= k) s)) (sym is) h

  -- A step of a call that returns.
  pub bind_goes :
      (P : Ending B → Type 0) (m : LedgerAction A) (k : A → LedgerAction B) (s : SqLiteLedger)
      (a : A) (t : SqLiteLedger)
      → m s ≡ (returned a, t)
      → P (k a t)
      → P ((m >>= k) s)
  bind_goes P m k s a t is h = went P (m s) k s t a is h

pub flag_off : (b : Bool) → not b ≡ true → b ≡ false
flag_off b h = ground arith

pub require_goes : (b : Bool) (e : Error) → b ≡ true → require b e ≡ ok tt
require_goes b e h = rw h refl

pub flag_on : (b : Bool) → b ≡ false → not b ≡ true
flag_on b h = ground arith

pub both : (a b : Bool) → a ≡ true → b ≡ true → (a && b) ≡ true
both a b h k = ground arith

-- What holds where a call returns.
abbrev pub Ensures : {A : Type 0} → (A → SqLiteLedger → Type 0) → Ending A → Type 0
Ensures Q (returned a, s) = Q a s
Ensures Q (raised e, s) = Unit {0}

module _ {A B : Type 0} where
  after :
      (Q : A → SqLiteLedger → Type 0) (R : B → SqLiteLedger → Type 0) (out : Ending A)
      (k : A → LedgerAction B)
      → Ensures Q out
      → ((a : A) (t : SqLiteLedger) → Q a t → Ensures R (k a t))
      → Ensures R (((λ _. out) >>= k) out.1)
  after Q R (returned a, t) k h next = next a t h
  after Q R (raised e, t) k h next = tt

  pub ensures_bind :
      (Q : A → SqLiteLedger → Type 0) (R : B → SqLiteLedger → Type 0) (m : LedgerAction A)
      (k : A → LedgerAction B) (s : SqLiteLedger)
      → Ensures Q (m s)
      → ((a : A) (t : SqLiteLedger) → Q a t → Ensures R (k a t))
      → Ensures R ((m >>= k) s)
  ensures_bind Q R m k s h next = after Q R (m s) k h next

  pub ensures_lift :
      (R : B → SqLiteLedger → Type 0) (r : Result A) (k : A → LedgerAction B) (s : SqLiteLedger)
      → ((a : A) → r ≡ ok a → Ensures R (k a s))
      → Ensures R ((lift r >>= k) s)
  ensures_lift R r k s next = lift_step (Ensures R) r k s (λ e. tt) next

-- A transaction: what its body ensures, or the ledger as it was.
abbrev pub Settles : {A : Type 0} → (A → SqLiteLedger → Type 0) → SqLiteLedger → Ending A → Type 0
Settles Q s (returned a, t) = Q a t
Settles Q s (raised e, t) = t ≡ s

module _ {A : Type 0} where
  committed :
      (Q : A → SqLiteLedger → Type 0) (s : SqLiteLedger) (out : Ending A)
      → Ensures Q out
      → Settles Q s (elim out.0 [ returned a ↦ (returned a, out.1) | raised e ↦ (raised e, s) ])
  committed Q s (returned a, t) h = h
  committed Q s (raised e, t) h = refl

  pub transaction-Settles :
      (Q : A → SqLiteLedger → Type 0) (body : LedgerAction A) (s : SqLiteLedger)
      → Ensures Q (body s)
      → Settles Q s (transaction body s)
  unfolding transaction
  transaction-Settles Q body s h =
      lift_step (Settles Q s) (require (not s.closed) ledger_closed_error) _ s (λ e. refl)
        (λ u ready. committed Q s (body s) h)

  finished :
      {B : Type 0} (Q : A → SqLiteLedger → Type 0) (P : Ending B → Type 0) (s : SqLiteLedger)
      (out : Ending A) (k : A → LedgerAction B)
      → Settles Q s out
      → ((e : Error) → P (raised e, s))
      → ((a : A) (t : SqLiteLedger) → Q a t → P (k a t))
      → P (((λ _. out) >>= k) s)
  finished Q P s (returned a, t) k h fails works = works a t h
  finished Q P s (raised e, t) k h fails works = subst (λ x. P (raised e, x)) (sym h) (fails e)

  -- A step of a call that is a transaction.
  pub transaction_step :
      {B : Type 0} (Q : A → SqLiteLedger → Type 0) (P : Ending B → Type 0) (body : LedgerAction A)
      (k : A → LedgerAction B) (s : SqLiteLedger)
      → Ensures Q (body s)
      → ((e : Error) → P (raised e, s))
      → ((a : A) (t : SqLiteLedger) → Q a t → P (k a t))
      → P ((transaction body >>= k) s)
  transaction_step Q P body k s h fails works =
      finished Q P s (transaction body s) k (transaction-Settles Q body s h) fails works
