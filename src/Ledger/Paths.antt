-- ===== src/Ledger/Paths.antt =====
-- The checks of paths in src/side_effects_lab/ledger.py. What the operating system answers about a path
-- is an argument; paths are texts.
use side_effects_lab.Prelude.{
  ℕ, ◌*◌, ◌/◌, ◌%◌, Bool, true, false, not, ◌&&◌, ◌||◌, Option, none, some, ◌==◌,
}
use side_effects_lab.Prelude.Result.{Result, ok, err, require, ledger_path_error, ◌>>=◌, ◌>>◌}
use side_effects_lab.Text.{Text, codes}
use side_effects_lab.Text.Equality.{text_eq}

-- `stat.S_ISLNK`, `stat.S_ISDIR`, `stat.S_ISREG`
pub data FileKind : Type 0 where
  symlink directory regular special : FileKind

abbrev pub is_link : FileKind → Bool
is_link symlink = true
is_link _ = false

abbrev pub is_directory : FileKind → Bool
is_directory directory = true
is_directory _ = false

abbrev pub is_regular : FileKind → Bool
is_regular regular = true
is_regular _ = false

-- The result of `lstat`, with `stat.S_IMODE(st_mode)` as `mode`.
pub record Stat : Type 0 where
  pub kind : FileKind
  pub uid : ℕ
  pub nlink : ℕ
  pub mode : ℕ

-- `mode & 0o077`, the lower six bits.
abbrev pub others_bits : ℕ → ℕ
others_bits mode = mode % 64

-- `mode & 0o700`, the three bits above them.
abbrev pub owner_bits : ℕ → ℕ
owner_bits mode = mode / 64 % 8 * 64

-- A `pathlib.Path` and what is asked of it; none is an OSError.
pub record RootPath : Type 0 where
  pub path : Text
  pub is_absolute : Bool
  pub lstat : Option Stat
  pub resolved : Option Text

-- An answer of the operating system, or LedgerPathError.
abbrev pub answered : {A : Type 0} → Option A → Result A
answered none = err ledger_path_error
answered (some a) = ok a

-- `_validated_run_root`, run by the user `uid`.
unfoldable pub validated_run_root : ℕ → RootPath → Result Text
validated_run_root uid root = do
  require root.is_absolute ledger_path_error
  path_stat ← answered root.lstat
  resolved ← answered root.resolved
  require (not (is_link path_stat.kind)) ledger_path_error
  require (is_directory path_stat.kind) ledger_path_error
  require (text_eq resolved root.path) ledger_path_error
  require (path_stat.uid == uid) ledger_path_error
  require (not (not (others_bits path_stat.mode == 0) || not (owner_bits path_stat.mode == 0o700)))
      ledger_path_error
  ok resolved

-- `lstat` of the database's path: the file, FileNotFoundError, or another OSError.
pub data Lookup : Type 0 where
  found : Stat → Lookup
  not_found failed : Lookup

-- `_require_absent_database`
unfoldable pub require_absent_database : Lookup → Result (Unit {0})
require_absent_database (found s) = err ledger_path_error
require_absent_database not_found = ok tt
require_absent_database failed = err ledger_path_error

-- The resolved path of the database: its parent and its name.
pub record Resolved : Type 0 where
  pub parent : Text
  pub name : Text

-- `_validate_database_file`, run by the user `uid`.
unfoldable pub validate_database_file : ℕ → Text → Lookup → Option Resolved → Result (Unit {0})
validate_database_file uid run_root (found path_stat) resolution = do
  require (not (is_link path_stat.kind || not (is_regular path_stat.kind))) ledger_path_error
  require (path_stat.nlink == 1) ledger_path_error
  require (path_stat.uid == uid) ledger_path_error
  require (others_bits path_stat.mode == 0) ledger_path_error
  resolved ← answered resolution
  require (text_eq resolved.parent run_root && text_eq resolved.name (codes "ledger.sqlite3"))
      ledger_path_error
validate_database_file uid run_root _ resolution = err ledger_path_error
