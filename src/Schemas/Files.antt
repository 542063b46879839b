-- ===== src/Schemas/Files.antt =====
-- `write_schemas`, `schema_drift` and `main` of src/side_effects_lab/schema_generation.py, on a directory
-- as the list of its files, whose names are distinct; a directory that does not exist has none.
use side_effects_lab.Prelude.{
  String, Bool, false, not, ◌&&◌, ◌||◌, Option, none, some, List, [], ◌∷◌, ◌++◌, map, str_eq,
  str_mem, if◌then◌else◌,
}
use side_effects_lab.Prelude.Sorting.{order_by}
use side_effects_lab.Prelude.Result.{Result, ok, ◌>>=◌, Error}
use side_effects_lab.Prelude.Exec.{Exec, pure, modify, lift}
use side_effects_lab.Prelude.Exec.{◌>>=◌ as and_then, ◌>>◌ as and_do}
use side_effects_lab.Text.{Text, codes}
use side_effects_lab.Text.Equality.{text_eq}
use side_effects_lab.Models.Values.{Fields}
use side_effects_lab.Canonical.Json.{text_lt}
use side_effects_lab.Schemas.Rendering.{
  Model, schema_digest_manifest, expected_schemas, expected_schema_digest_manifest,
}

abbrev pub Directory : Type 0
Directory = List (String × Text)

-- `path.exists()` and `path.read_bytes()`
unfoldable pub read_bytes : String → Directory → Option Text
read_bytes name [] = none
read_bytes name (f ∷ fs) =
    let rest = read_bytes name fs in if str_eq f.0 name then some f.1 else rest

unfoldable pub write_bytes : String → Text → Directory → Directory
write_bytes name content [] = (name, content) ∷ []
write_bytes name content (f ∷ fs) =
    let rest = write_bytes name content fs in
    if str_eq f.0 name then (name, content) ∷ fs else f ∷ rest

unfoldable pub write_all : List (String × Text) → Directory → Directory
unfolding write_bytes
write_all [] dir = dir
write_all (f ∷ fs) dir = write_all fs (write_bytes f.0 f.1 dir)

-- `glob("*.json")`
unfoldable pub is_json_name : Text → Bool
is_json_name [] = false
is_json_name (c ∷ s) = text_eq (c ∷ s) (codes ".json") || is_json_name s

abbrev pub is_foreign : List String → String → Bool
is_foreign expected name = is_json_name (codes name) && not (str_mem name expected)

-- `actual_names - set(expected)`
unfoldable pub foreign_names : List String → Directory → List String
foreign_names expected [] = []
foreign_names expected (f ∷ fs) =
    let rest = foreign_names expected fs in if is_foreign expected f.0 then f.0 ∷ rest else rest

abbrev pub name_before : String → String → Bool
name_before a b = text_lt (codes a) (codes b)

-- What is wrong with a file, if anything.
abbrev pub file_problems : Text → Text → String → Option Text → Text → List Text
file_problems missing changed name none content = (missing ++ codes name) ∷ []
file_problems missing changed name (some bytes) content =
    if text_eq bytes content then [] else (changed ++ codes name) ∷ []

unfoldable pub schema_problems : List (String × Text) → Directory → List Text
schema_problems [] dir = []
schema_problems (f ∷ fs) dir =
    file_problems (codes "missing schema: ") (codes "changed schema: ") f.0 (read_bytes f.0 dir) f.1
    ++ schema_problems fs dir

abbrev pub manifest_problems : Text → Directory → List Text
manifest_problems manifest dir =
    file_problems (codes "missing schema digest manifest: ")
      (codes "changed schema digest manifest: ") schema_digest_manifest
      (read_bytes schema_digest_manifest dir) manifest

unfoldable pub unexpected : List String → Directory → List Text
unexpected expected dir =
    map (λ name. codes "unexpected schema: " ++ codes name)
      (order_by name_before (foreign_names expected dir))

-- The arguments of `main`.
pub data Action : Type 0 where
  check write : Action

module _ (model_json_schema : Model → Fields) (hexdigest : Text → Text) where
  unfoldable pub write_schemas : Exec Directory Error (Unit {0})
  unfolding write_all
  write_schemas = and_then (lift (expected_schemas model_json_schema)) (λ items.
      and_do (modify (write_all items)) (
        and_then (lift (expected_schema_digest_manifest model_json_schema hexdigest))
          (λ manifest. modify (write_bytes schema_digest_manifest manifest))))

  unfoldable pub schema_drift : Directory → Result (List Text)
  unfolding unexpected schema_problems
  schema_drift dir = do
    expected ← expected_schemas model_json_schema
    manifest ← expected_schema_digest_manifest model_json_schema hexdigest
    ok (
        unexpected (map (λ f. f.0) expected) dir
        ++ schema_problems expected dir
        ++ manifest_problems manifest dir)

  -- `"\n".join(problems) + "\n"`
  unfoldable pub report : List Text → Text
  report [] = []
  report (p ∷ ps) = p ++ b'\n' ∷ report ps

  -- `main`: nothing, or the message of an exit with status 1.
  unfoldable pub main : Action → Exec Directory Error (Option Text)
  unfolding write_schemas schema_drift report
  main write dir = and_do write_schemas (pure none) dir
  main check dir =
      and_then (lift (schema_drift dir))
        (λ problems. pure (elim problems [ [] ↦ none | p ∷ ps ↦ some (report (p ∷ ps)) ])) dir
