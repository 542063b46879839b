-- ===== src/Authority/Precedence.antt =====
-- The choice of the reported reason in `check_authority` (src/side_effects_lab/authority.py).
use side_effects_lab.Prelude.{
  true, false, none, some, List, [], ◌∷◌, ◌++◌, ◌≡◌, ◌≢◌, ◌↔◌, inl, inr, refl, arith, All,
  Bool-cases,
}
use side_effects_lab.Authority.Types.{CheckKind, AuthorityReason}
use side_effects_lab.Authority.Check.{Facts, is_defect, first_defect}

-- No reason of the list is a defect.
abbrev pub Clear : CheckKind → Facts → List AuthorityReason → Type 0
Clear kind f = All (λ r. is_defect kind f r ≡ false)

-- The list is split at its first defect.
pub record First (kind : CheckKind) (f : Facts) (r : AuthorityReason) (rs : List AuthorityReason)
    : Type 0 where
  pub before : List AuthorityReason
  pub after : List AuthorityReason
  pub is_split : rs ≡ before ++ r ∷ after
  pub is_clear : Clear kind f before
  pub is_found : is_defect kind f r ≡ true

First-cons :
    (kind : CheckKind) (f : Facts) (q r : AuthorityReason) (rs : List AuthorityReason)
    → is_defect kind f q ≡ false
    → First kind f r rs
    → First kind f r (q ∷ rs)
First-cons kind f q r rs h first = record {
  before = q ∷ first.before;
  after = first.after;
  is_split = cc (first.is_split);
  is_clear = (h, first.is_clear);
  is_found = first.is_found;
}

first_defect_found :
    (kind : CheckKind) (f : Facts) (r : AuthorityReason) (rs : List AuthorityReason)
    → first_defect kind f rs ≡ some r
    → First kind f r rs
unfolding first_defect
first_defect_found kind f r [] h = cc
first_defect_found kind f r (q ∷ rs) h = elim (Bool-cases (is_defect kind f q)) [
  | inl holds ↦ record {
    before = [];
    after = rs;
    is_split = ground arith;
    is_clear = tt;
    is_found = ground arith;
  }
  | inr clear ↦ First-cons kind f q r rs clear (first_defect_found kind f r rs (ground arith))
]

pub first_defect-split :
    (kind : CheckKind) (f : Facts) (r : AuthorityReason) (xs ys : List AuthorityReason)
    → Clear kind f xs
    → is_defect kind f r ≡ true
    → first_defect kind f (xs ++ r ∷ ys) ≡ some r
unfolding first_defect
first_defect-split kind f r [] ys clear found = ground arith
first_defect-split kind f r (x ∷ xs) ys (c, cs) found =
    ground (arith, first_defect-split kind f r xs ys cs found)

-- The reason that is chosen from a list is one of its defects, and no reason that stands before it is
-- a defect; each such reason is chosen.
pub first_defect-First :
    (kind : CheckKind) (f : Facts) (r : AuthorityReason) (rs : List AuthorityReason)
    → (first_defect kind f rs ≡ some r) ↔ First kind f r rs
first_defect-First kind f r rs = (
  first_defect_found kind f r rs,
  λ first.
      rw first.is_split
        (first_defect-split kind f r first.before first.after first.is_clear first.is_found),
)

-- No reason is chosen exactly when none of the list is a defect.
pub first_defect-Clear :
    (kind : CheckKind) (f : Facts) (rs : List AuthorityReason)
    → (first_defect kind f rs ≡ none) ↔ Clear kind f rs
unfolding first_defect
first_defect-Clear kind f [] = ((λ h. tt), (λ h. refl))
first_defect-Clear kind f (q ∷ rs) =
    let (to, from) = first_defect-Clear kind f rs in
    elim (Bool-cases (is_defect kind f q)) [
      | inl holds ↦ ((λ h. absurd (ground arith)), (λ h. absurd (cc (h.0))))
      | inr clear ↦ ((λ h. (clear, to (ground arith))), (λ h. ground (arith, from (h.1))))
    ]

pub Clear-parts :
    (kind : CheckKind) (f : Facts) (xs ys : List AuthorityReason)
    → Clear kind f (xs ++ ys)
    → Clear kind f xs × Clear kind f ys
Clear-parts kind f [] ys h = (tt, h)
Clear-parts kind f (x ∷ xs) ys (c, cs) = let (hx, hy) = Clear-parts kind f xs ys cs in ((c, hx), hy)

-- The last reason is chosen only if it is the one defect.
pub first_defect_last :
    (kind : CheckKind) (f : Facts) (r : AuthorityReason) (xs : List AuthorityReason)
    → All (λ q. q ≢ r) xs
    → first_defect kind f (xs ++ r ∷ []) ≡ some r
    → Clear kind f xs × (is_defect kind f r ≡ true)
unfolding first_defect
first_defect_last kind f r [] other h = (tt, ground arith)
first_defect_last kind f r (x ∷ xs) (o, os) h = elim (Bool-cases (is_defect kind f x)) [
  | inl holds ↦ absurd (o (ground arith))
  | inr clear ↦
      let (cs, found) = first_defect_last kind f r xs os (ground arith) in ((clear, cs), found)
]
