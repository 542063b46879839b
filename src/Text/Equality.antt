-- ===== src/Text/Equality.antt =====
-- Equality of texts, and how prefixes and classes of characters behave under concatenation.
use side_effects_lab.Prelude.{
  ℕ, Bool, true, false, ◌&&◌, some, List, [], ◌∷◌, ◌++◌, ◌≡◌, ◌↔◌, refl, arith, ◌==◌, all,
}
use side_effects_lab.Text.{Text, after}

unfoldable pub text_eq : Text → Text → Bool
text_eq [] [] = true
text_eq (a ∷ s) (b ∷ t) = a == b && text_eq s t
text_eq _ _ = false

text_eq_sound : (s t : Text) → text_eq s t ≡ true → s ≡ t
unfolding text_eq
text_eq_sound [] [] h = refl
text_eq_sound [] (b ∷ t) h = cc
text_eq_sound (a ∷ s) [] h = cc
text_eq_sound (a ∷ s) (b ∷ t) h = ground (arith, text_eq_sound s t)

text_eq_refl : (s : Text) → text_eq s s ≡ true
unfolding text_eq
text_eq_refl [] = refl
text_eq_refl (a ∷ s) = ground (arith, text_eq_refl s)

pub text_eq_iff : (s t : Text) → (text_eq s t ≡ true) ↔ (s ≡ t)
text_eq_iff s t = (text_eq_sound s t, λ e. rw e (text_eq_refl t))

pub after-append : (p s : Text) → after p (p ++ s) ≡ some s
unfolding after
after-append [] s = refl
after-append (c ∷ p) s = ground (arith, after-append p s)

pub all-append {ℓ} :
    {A : Type ℓ} (p : A → Bool) (xs ys : List A)
    → all p xs ≡ true
    → all p ys ≡ true
    → all p (xs ++ ys) ≡ true
all-append p [] ys h k = k
all-append p (x ∷ xs) ys h k = ground (arith, all-append p xs ys)

all-middle {ℓ} :
    {A : Type ℓ} (p : A → Bool) (xs : List A) (c : A) (ys : List A)
    → all p (xs ++ c ∷ ys) ≡ true
    → p c ≡ true
all-middle p [] c ys h = ground arith
all-middle p (x ∷ xs) c ys h = all-middle p xs c ys (ground arith)

-- Two texts that end in a separator and characters of a class without it are split alike by it.
pub split_unique :
    (p : ℕ → Bool) (c : ℕ) (s s' t t' : Text)
    → p c ≡ false
    → all p t ≡ true
    → all p t' ≡ true
    → s ++ c ∷ t ≡ s' ++ c ∷ t'
    → (s ≡ s') × (t ≡ t')
split_unique p c [] [] t t' out h k e = (refl, cc)
split_unique p c [] (x ∷ s') t t' out h k e =
    let e' : t ≡ s' ++ c ∷ t' = cc in absurd (cc (all-middle p s' c t' (rw e' at h)))
split_unique p c (x ∷ s) [] t t' out h k e =
    let e' : t' ≡ s ++ c ∷ t = cc in absurd (cc (all-middle p s c t (rw e' at k)))
split_unique p c (x ∷ s) (y ∷ s') t t' out h k e =
    let (same, rest) = split_unique p c s s' t t' out h k (cc) in (cc, rest)
