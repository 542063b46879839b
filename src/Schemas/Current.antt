-- ===== src/Schemas/Current.antt =====
-- What src/side_effects_lab/schema_generation.py writes, and when it finds no drift.
use side_effects_lab.Prelude.{
  String, Bool, true, false, not, ◌&&◌, Option, none, some, List, [], ◌∷◌, ◌++◌, map, ◌≡◌, ◌↔◌, inl,
  inr, refl, sym, ap, ◌∙◌, subst, str_mem, All, Fresh, Fresh-str_mem, NoRepeat, arith, Bool-cases,
}
use mathlib.Core.List.{append-nil}
use side_effects_lab.Prelude.Sorting.{order_by, order_by-All_back}
use side_effects_lab.Prelude.Result.{ok, bind_ok, ok_injective}
use side_effects_lab.Prelude.Exec.{returned}
use side_effects_lab.Text.{Text, codes}
use side_effects_lab.Text.Equality.{text_eq, text_eq_iff}
use side_effects_lab.Models.Values.{Fields}
use side_effects_lab.Canonical.Json.{text_lt}
use side_effects_lab.Schemas.Rendering.{
  Model, schema_models, by_name, render_schema, render_all, expected_schemas,
  schema_digest_manifest, expected_schema_digest_manifest,
}
use side_effects_lab.Schemas.Files.{
  Directory, read_bytes, write_bytes, write_all, is_json_name, is_foreign, foreign_names,
  name_before, file_problems, schema_problems, manifest_problems, unexpected, write_schemas,
  schema_drift,
}
use side_effects_lab.Schemas.Writing.{
  names, Holds, read-written, Holds-written, Holds-other, foreign-written, foreign-written_all,
}

some_injective : (s t : Text) → some s ≡ some t → s ≡ t
some_injective s t h = cc

file_fine :
    (missing changed : Text) (name : String) (found : Option Text) (content : Text)
    → (file_problems missing changed name found content ≡ []) ↔ (found ≡ some content)
file_fine missing changed name none content = ((λ h. cc), (λ h. cc))
file_fine missing changed name (some bytes) content = elim (Bool-cases (text_eq bytes content)) [
  | inl y ↦ rw y ((λ h. ap some ((text_eq_iff bytes content).0 y)), (λ h. refl))
  | inr n ↦
      rw n
        ((λ h. cc), (λ h. cc (n, (text_eq_iff bytes content).1 (some_injective bytes content h))))
]

both_empty : (xs ys : List Text) → (xs ++ ys ≡ []) ↔ ((xs ≡ []) × (ys ≡ []))
both_empty [] ys = ((λ h. (refl, h)), (λ h. h.1))
both_empty (x ∷ xs) ys = ((λ h. cc), (λ h. cc (h.0)))

schemas_fine :
    (fs : List (String × Text)) (dir : Directory) → (schema_problems fs dir ≡ []) ↔ Holds dir fs
unfolding schema_problems
schemas_fine [] dir = ((λ h. tt), (λ h. refl))
schemas_fine (f ∷ fs) dir =
    let here =
      file_fine (codes "missing schema: ") (codes "changed schema: ") f.0 (read_bytes f.0 dir)
        f.1 in
    let rest = schemas_fine fs dir in
    let split =
      both_empty
        (file_problems (codes "missing schema: ") (codes "changed schema: ") f.0
          (read_bytes f.0 dir) f.1)
        (schema_problems fs dir) in
    ((λ h. let (a, b) = split.0 h in (here.0 a, rest.0 b)), (λ h. split.1 (here.1 h.0, rest.1 h.1)))

-- No JSON file but the expected ones.
abbrev pub HasNone : List String → Directory → Type 0
HasNone expected dir = All (λ n. is_foreign expected n ≡ false) (names dir)

no_foreign :
    (expected : List String) (dir : Directory)
    → (foreign_names expected dir ≡ []) ↔ HasNone expected dir
unfolding foreign_names
no_foreign expected [] = ((λ h. tt), (λ h. refl))
no_foreign expected (f ∷ fs) = elim (Bool-cases (is_foreign expected f.0)) [
  | inl y ↦ rw y ((λ h. cc), (λ h. cc (h.0)))
  | inr n ↦
      rw n ((λ h. (refl, (no_foreign expected fs).0 h)), (λ h. (no_foreign expected fs).1 h.1))
]

map_empty : {A B : Type 0} (f : A → B) (xs : List A) → map f xs ≡ [] → xs ≡ []
map_empty f [] h = refl
map_empty f (x ∷ xs) h = cc

all_absurd : (xs : List String) → All (λ x. ⊥) xs → xs ≡ []
all_absurd [] h = refl
all_absurd (x ∷ xs) h = absurd h.0

sorted_empty : (xs : List String) → order_by name_before xs ≡ [] → xs ≡ []
sorted_empty xs h =
    all_absurd xs (order_by-All_back name_before (λ x. ⊥) xs (subst (All (λ x. ⊥)) (sym h) tt))

none_unexpected :
    (expected : List String) (dir : Directory)
    → (unexpected expected dir ≡ []) ↔ HasNone expected dir
unfolding unexpected order_by
none_unexpected expected dir = (
  (λ h. (no_foreign expected dir).0 (
      sorted_empty (foreign_names expected dir) (
        map_empty (λ name. codes "unexpected schema: " ++ codes name)
          (order_by name_before (foreign_names expected dir)) h))),
  (λ h. rw ((no_foreign expected dir).1 h) refl),
)

-- The names of the rendered schemas.
abbrev pub schema_names : List String
schema_names = names schema_models

module _ (model_json_schema : Model → Fields) where
  rendered_names :
      (items : List (String × Model)) (es : List (String × Text))
      → render_all model_json_schema items ≡ ok es
      → names es ≡ names items
  unfolding render_all
  rendered_names [] es h = ap names (sym (ok_injective [] es h))
  rendered_names (item ∷ items) es h =
      let (content, is, more) = bind_ok (render_schema model_json_schema item.1) _ es h in
      let (rest, are, same) = bind_ok (render_all model_json_schema items) _ es more in
      ap names (sym (ok_injective ((item.0, content) ∷ rest) es same))
      ∙ ap (λ ns. item.0 ∷ ns) (rendered_names items rest are)

  expected_names :
      (es : List (String × Text))
      → expected_schemas model_json_schema ≡ ok es
      → names es ≡ schema_names
  unfolding expected_schemas order_by text_lt
  expected_names es h = rendered_names (order_by by_name schema_models) es h

abbrev is_apart : List String → Bool
is_apart [] = true
is_apart (x ∷ xs) = not (str_mem x xs) && is_apart xs

apart-NoRepeat : (xs : List String) → is_apart xs ≡ true → NoRepeat xs
apart-NoRepeat [] h = tt
apart-NoRepeat (x ∷ xs) h = (Fresh-str_mem x xs (ground arith), apart-NoRepeat xs (ground arith))

names-NoRepeat : NoRepeat schema_names
unfolding str_mem
names-NoRepeat = apart-NoRepeat schema_names refl

manifest-Fresh : Fresh schema_digest_manifest schema_names
unfolding str_mem
manifest-Fresh = Fresh-str_mem schema_digest_manifest schema_names refl

abbrev AreExpected : List String → Type 0
AreExpected = All (λ n. is_foreign schema_names n ≡ false)

manifest_expected : is_foreign schema_names schema_digest_manifest ≡ false
unfolding is_json_name text_eq str_mem
manifest_expected = refl

names-AreExpected : AreExpected schema_names
unfolding is_json_name text_eq str_mem
names-AreExpected = (refl, (refl, (refl, (refl, (refl, tt)))))

-- The directory has the rendered schemas and the manifest, and no other JSON file.
pub record IsCurrent (es : List (String × Text)) (manifest : Text) (dir : Directory) : Type 0 where
  pub schemas : Holds dir es
  pub digests : read_bytes schema_digest_manifest dir ≡ some manifest
  pub none_else : HasNone schema_names dir

problems_fine :
    (es : List (String × Text)) (manifest : Text) (dir : Directory)
    → (unexpected schema_names dir ++ schema_problems es dir ++ manifest_problems manifest dir ≡ [])
      ↔ IsCurrent es manifest dir
problems_fine es manifest dir =
    let first =
      both_empty (unexpected schema_names dir ++ schema_problems es dir)
        (manifest_problems manifest dir) in
    let second = both_empty (unexpected schema_names dir) (schema_problems es dir) in
    let file =
      file_fine (codes "missing schema digest manifest: ")
        (codes "changed schema digest manifest: ") schema_digest_manifest
        (read_bytes schema_digest_manifest dir) manifest in
    (
      (λ h.
          let (b, d) = first.0 h in
          let (a, c) = second.0 b in
          record {
            schemas = (schemas_fine es dir).0 c;
            digests = file.0 d;
            none_else = (none_unexpected schema_names dir).0 a;
          }),
      (λ h. first.1 (
        second.1
            ((none_unexpected schema_names dir).1 h.none_else, (schemas_fine es dir).1 h.schemas),
        file.1 h.digests,
      )),
    )

twice : (xs : List Text) → xs ++ [] ++ [] ≡ xs
twice xs = append-nil (xs ++ []) ∙ append-nil xs

-- The files after a write of rendered schemas.
written-IsCurrent :
    (es : List (String × Text)) (manifest : Text) (dir : Directory)
    → names es ≡ schema_names
    → Holds (write_bytes schema_digest_manifest manifest (write_all es dir)) es
      × (read_bytes schema_digest_manifest
            (write_bytes schema_digest_manifest manifest (write_all es dir))
          ≡ some manifest)
      × (foreign_names schema_names (write_bytes schema_digest_manifest manifest (write_all es dir))
          ≡ foreign_names schema_names dir)
written-IsCurrent es manifest dir same = (
  Holds-other es schema_digest_manifest manifest (write_all es dir)
      (subst (Fresh schema_digest_manifest) (sym same) manifest-Fresh)
      (Holds-written es dir (subst NoRepeat (sym same) names-NoRepeat)),
  read-written schema_digest_manifest manifest (write_all es dir),
  foreign-written schema_names schema_digest_manifest manifest (write_all es dir) manifest_expected
      ∙ foreign-written_all schema_names es dir (subst AreExpected (sym same) names-AreExpected),
)

module _ (model_json_schema : Model → Fields) (hexdigest : Text → Text) (es : List (String × Text))
    (manifest : Text) (rendered : expected_schemas model_json_schema ≡ ok es)
    (summed : expected_schema_digest_manifest model_json_schema hexdigest ≡ ok manifest) where
  drift_is :
      (dir : Directory)
      → schema_drift model_json_schema hexdigest dir
        ≡ ok (
            unexpected schema_names dir ++ schema_problems es dir ++ manifest_problems manifest dir)
  unfolding schema_drift
  drift_is dir = rw (rendered, summed, expected_names model_json_schema es rendered) refl

  -- Where the schemas can be rendered, no drift is found exactly in a directory that has each
  -- rendered schema and the manifest with their bytes, and no other JSON file.
  pub schema_drift-IsCurrent :
      (dir : Directory)
      → (schema_drift model_json_schema hexdigest dir ≡ ok []) ↔ IsCurrent es manifest dir
  schema_drift-IsCurrent dir = (
    (λ h. (problems_fine es manifest dir).0 (ok_injective _ [] (sym (drift_is dir) ∙ h))),
    (λ h. drift_is dir ∙ ap ok ((problems_fine es manifest dir).1 h)),
  )

  written_is :
      (dir : Directory)
      → write_schemas model_json_schema hexdigest dir
        ≡ (returned tt, write_bytes schema_digest_manifest manifest (write_all es dir))
  unfolding write_schemas
  written_is dir = rw (rendered, summed) refl

  -- Where the schemas can be rendered, a write returns and leaves a directory in which the only
  -- drift is the JSON files that were there before and are not expected.
  pub schema_drift-write_schemas :
      (dir : Directory)
      → (dir' : Directory) × (write_schemas model_json_schema hexdigest dir ≡ (returned tt, dir'))
        × (schema_drift model_json_schema hexdigest dir' ≡ ok (unexpected schema_names dir))
  unfolding unexpected
  schema_drift-write_schemas dir =
      let dir' = write_bytes schema_digest_manifest manifest (write_all es dir) in
      let (holds, digests, foreign) =
        written-IsCurrent es manifest dir (expected_names model_json_schema es rendered) in
      let others = (schemas_fine es dir').1 holds in
      let sums =
        (file_fine (codes "missing schema digest manifest: ")
            (codes "changed schema digest manifest: ") schema_digest_manifest
            (read_bytes schema_digest_manifest dir') manifest).1
          digests in
      (dir', written_is dir, drift_is dir' ∙ rw (others, sums, foreign) (ap ok (twice _)))
