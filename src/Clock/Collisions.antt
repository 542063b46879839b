-- ===== src/Clock/Collisions.antt =====
-- Two runs with one identifier: `make_run_id` of src/side_effects_lab/clock.py.
use side_effects_lab.Prelude.{
  ℕ, String, Bool, true, false, [], ◌∷◌, ◌++◌, ◌≡◌, ◌≢◌, ◌↔◌, ◌⊎◌, inl, inr, refl, sym, ap, ◌∙◌,
  arith, all, Bool-cases,
}
use side_effects_lab.Prelude.Int.{pos}
use side_effects_lab.Prelude.Result.{ok}
use side_effects_lab.Text.{Text, codes, is_token_char}
use side_effects_lab.Text.Equality.{text_eq, text_eq_iff}
use side_effects_lab.Text.Decimal.{decimal, decimal-injective, decimal-token_chars}
use side_effects_lab.Models.Identifiers.{is_scenario_id, is_subject_id}
use side_effects_lab.Clock.Time.{int}
use side_effects_lab.Clock.RunId.{
  make_run_id, make_run_id_total, run_text, IsHexdigest, is_plain, scenario_plain, subject_plain,
}

cancel_prefix : (p s t : Text) → p ++ s ≡ p ++ t → s ≡ t
cancel_prefix [] s t e = e
cancel_prefix (c ∷ p) s t e = cancel_prefix p s t (cc)

-- Two texts that begin with characters of a class, up to a separator outside it, are split alike.
split_first :
    (p : ℕ → Bool) (c : ℕ) (s s' t t' : Text)
    → p c ≡ false
    → all p s ≡ true
    → all p s' ≡ true
    → s ++ c ∷ t ≡ s' ++ c ∷ t'
    → (s ≡ s') × (t ≡ t')
split_first p c [] [] t t' out h k e = (refl, cc)
split_first p c [] (x ∷ s') t t' out h k e = let same : c ≡ x = cc in ground (arith, same)
split_first p c (x ∷ s) [] t t' out h k e = let same : x ≡ c = cc in ground (arith, same)
split_first p c (x ∷ s) (y ∷ s') t t' out h k e =
    let (same, rest) = split_first p c s s' t t' out (ground arith) (ground arith) (cc) in
    (cc, rest)

run_text-injective :
    (s s' : Text) (n n' : ℕ) (t t' : Text)
    → all is_plain s ≡ true
    → all is_plain s' ≡ true
    → all is_plain t ≡ true
    → all is_plain t' ≡ true
    → run_text s n t ≡ run_text s' n' t'
    → (s ≡ s') × (n ≡ n') × (t ≡ t')
run_text-injective s s' n n' t t' hs hs' ht ht' e =
    let opened = cancel_prefix (codes "{\"scenario_id\":\"") _ _ e in
    let (same_s, e1) = split_first is_plain b'"' s s' _ _ refl hs hs' opened in
    let numbers = cancel_prefix (codes ",\"seed\":") _ _ e1 in
    let (same_n, e2) =
      split_first is_token_char b',' (decimal n) (decimal n') _ _ refl (decimal-token_chars n)
        (decimal-token_chars n') numbers in
    let subjects = cancel_prefix (codes "\"subject_id\":\"") _ _ e2 in
    let (same_t, e3) = split_first is_plain b'"' t t' _ _ refl ht ht' subjects in
    (same_s, decimal-injective n n' same_n, same_t)

-- Two given texts that are different and have one hash.
abbrev pub Collide : (Text → String) → Text → Text → Type 0
Collide hexdigest s t = (s ≢ t) × (codes (hexdigest s) ≡ codes (hexdigest t))

Collide-cases :
    (hexdigest : Text → String) (x y : Text)
    → codes (hexdigest x) ≡ codes (hexdigest y)
    → (x ≡ y) ⊎ Collide hexdigest x y
Collide-cases hexdigest x y e = elim (Bool-cases (text_eq x y)) [
  | inl same ↦ inl ((text_eq_iff x y).0 same)
  | inr other ↦ inr ((λ same. cc ((text_eq_iff x y).1 same, other)), e)
]

same_run_text :
    {s s' t t' : Text} {n n' : ℕ} → s ≡ s' → n ≡ n' → t ≡ t' → run_text s n t ≡ run_text s' n' t'
same_run_text p q r = rw (p, q, r) refl

run_id-injective : (s t : Text) → ok (codes "run-" ++ s) ≡ ok (codes "run-" ++ t) → s ≡ t
run_id-injective s t e = cancel_prefix (codes "run-") s t (cc)

module _ (hexdigest : Text → String) (hex : IsHexdigest hexdigest)
    (scenario scenario' subject subject' : String) (valid : is_scenario_id (codes scenario) ≡ true)
    (valid' : is_scenario_id (codes scenario') ≡ true)
    (named : is_subject_id (codes subject) ≡ true)
    (named' : is_subject_id (codes subject') ≡ true) where
  -- With a hash that gives 64 hexadecimal digits, two valid runs have one identifier exactly when
  -- they have the same scenario, seed and subject, or else the hash gives one result for the
  -- canonical texts of just these two runs, which differ. A run's canonical text is the JSON of its
  -- scenario, its seed in decimal and its subject.
  pub make_run_id_same :
      (seed seed' : ℕ)
      → (make_run_id hexdigest scenario (int (pos seed)) subject
          ≡ make_run_id hexdigest scenario' (int (pos seed')) subject')
        ↔ (((codes scenario ≡ codes scenario') × (seed ≡ seed') × (codes subject ≡ codes subject'))
            ⊎ Collide hexdigest
                (run_text (codes scenario) seed (codes subject))
                (run_text (codes scenario') seed' (codes subject')))
  make_run_id_same seed seed' =
      let made = (make_run_id_total hexdigest scenario seed subject hex valid named).0 in
      let made' = (make_run_id_total hexdigest scenario' seed' subject' hex valid' named').0 in
      (
        λ e. elim (Collide-cases hexdigest _ _ (run_id-injective _ _ (sym made ∙ e ∙ made'))) [
          | inl same ↦ inl (
              run_text-injective (codes scenario) (codes scenario') seed seed' (codes subject)
                (codes subject') (scenario_plain _ valid) (scenario_plain _ valid')
                (subject_plain _ named) (subject_plain _ named') same)
          | inr found ↦ inr found
        ],
        elim [
          | inl (p, q, r) ↦
              made
              ∙ ap (λ t. ok (codes "run-" ++ codes (hexdigest t))) (same_run_text p q r)
              ∙ sym made'
          | inr found ↦ made ∙ ap (λ t. ok (codes "run-" ++ t)) found.1 ∙ sym made'
        ],
      )
