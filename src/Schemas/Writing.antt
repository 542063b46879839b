-- ===== src/Schemas/Writing.antt =====
-- What the writes of src/side_effects_lab/schema_generation.py leave in a directory.
use side_effects_lab.Prelude.{
  String, false, some, List, [], ◌∷◌, map, ◌≡◌, ◌≢◌, inl, inr, refl, sym, ap, ◌∙◌, str_eq, eq_iff,
  All, Fresh, NoRepeat, arith, Bool-cases,
}
use side_effects_lab.Text.{Text}
use side_effects_lab.Schemas.Files.{
  Directory, read_bytes, write_bytes, write_all, is_foreign, foreign_names,
}

pub read-written :
    (name : String) (content : Text) (dir : Directory)
    → read_bytes name (write_bytes name content dir) ≡ some content
unfolding read_bytes write_bytes
read-written name content [] = ground (arith, eq_iff name name)
read-written name content (f ∷ fs) =
    ground (arith, eq_iff name name, eq_iff f.0 name, read-written name content fs)

pub read_other :
    (name other : String) (content : Text) (dir : Directory)
    → name ≢ other
    → read_bytes name (write_bytes other content dir) ≡ read_bytes name dir
unfolding read_bytes write_bytes
read_other name other content [] h = ground (arith, eq_iff other name)
read_other name other content (f ∷ fs) h = ground (
  arith,
  eq_iff other name,
  eq_iff f.0 name,
  eq_iff f.0 other,
  read_other name other content fs h,
)

abbrev pub names : {A : Type 0} → List (String × A) → List String
names = map (λ f. f.0)

pub read_unwritten :
    (name : String) (fs : List (String × Text)) (dir : Directory)
    → Fresh name (names fs)
    → read_bytes name (write_all fs dir) ≡ read_bytes name dir
unfolding write_all
read_unwritten name [] dir h = refl
read_unwritten name (f ∷ fs) dir h =
    read_unwritten name fs (write_bytes f.0 f.1 dir) h.1
    ∙ read_other name f.0 f.1 dir (λ e. h.0 (sym e))

-- Files with their contents.
abbrev pub Holds : Directory → List (String × Text) → Type 0
Holds dir = All (λ f. read_bytes f.0 dir ≡ some f.1)

pub Holds-written :
    (fs : List (String × Text)) (dir : Directory)
    → NoRepeat (names fs)
    → Holds (write_all fs dir) fs
unfolding write_all
Holds-written [] dir apart = tt
Holds-written (f ∷ fs) dir apart = (
  read_unwritten f.0 fs (write_bytes f.0 f.1 dir) apart.0 ∙ read-written f.0 f.1 dir,
  Holds-written fs (write_bytes f.0 f.1 dir) apart.1,
)

pub Holds-other :
    (fs : List (String × Text)) (name : String) (content : Text) (dir : Directory)
    → Fresh name (names fs)
    → Holds dir fs
    → Holds (write_bytes name content dir) fs
Holds-other [] name content dir h holds = tt
Holds-other (f ∷ fs) name content dir h holds =
    (read_other f.0 name content dir h.0 ∙ holds.0, Holds-other fs name content dir h.1 holds.1)

pub foreign-written :
    (expected : List String) (name : String) (content : Text) (dir : Directory)
    → is_foreign expected name ≡ false
    → foreign_names expected (write_bytes name content dir) ≡ foreign_names expected dir
unfolding foreign_names write_bytes
foreign-written expected name content [] h = rw h refl
foreign-written expected name content (f ∷ fs) h = elim (Bool-cases (str_eq f.0 name)) [
  | inl y ↦ let same = (eq_iff f.0 name).0 y in rw (y, h, ap (is_foreign expected) same ∙ h) refl
  | inr n ↦ rw (n, foreign-written expected name content fs h) refl
]

pub foreign-written_all :
    (expected : List String) (fs : List (String × Text)) (dir : Directory)
    → All (λ n. is_foreign expected n ≡ false) (names fs)
    → foreign_names expected (write_all fs dir) ≡ foreign_names expected dir
unfolding write_all
foreign-written_all expected [] dir h = refl
foreign-written_all expected (f ∷ fs) dir h =
    foreign-written_all expected fs (write_bytes f.0 f.1 dir) h.1
    ∙ foreign-written expected f.0 f.1 dir h.0
