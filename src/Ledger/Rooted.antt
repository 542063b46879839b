-- ===== src/Ledger/Rooted.antt =====
-- Which paths src/side_effects_lab/ledger.py accepts.
use side_effects_lab.Prelude.{
  ℕ, ◌%◌, true, not, ◌||◌, Option, none, some, ◌==◌, ==_iff, ◌≡◌, ◌↔◌, refl, sym, ap, ◌∙◌, arith,
}
use side_effects_lab.Prelude.Result.{ok, require_then, bind_ok, ok_injective, ledger_path_error}
use side_effects_lab.Text.{Text}
use side_effects_lab.Text.Equality.{text_eq, text_eq_iff}
use side_effects_lab.Ledger.Paths.{
  FileKind, symlink, directory, regular, special, is_link, is_directory, Stat, others_bits,
  owner_bits, RootPath, answered, validated_run_root,
}

-- A directory of the user, as it is, with all rights of its owner and none of others.
pub record IsRoot (uid : ℕ) (root : RootPath) (s : Stat) : Type 0 where
  pub absolute : root.is_absolute ≡ true
  pub there : root.lstat ≡ some s
  pub resolves : root.resolved ≡ some root.path
  pub kind_is : s.kind ≡ directory
  pub owned : s.uid ≡ uid
  pub private : s.mode % 512 ≡ 0o700

answered_some : {A : Type 0} (o : Option A) (a : A) → answered o ≡ ok a → o ≡ some a
answered_some none a h = cc
answered_some (some b) a h = ap some (ok_injective b a h)

private_iff :
    (mode : ℕ)
    → (not (not (others_bits mode == 0) || not (owner_bits mode == 0o700)) ≡ true)
      ↔ (mode % 512 ≡ 0o700)
private_iff mode = ground arith

directory_is : (k : FileKind) → is_directory k ≡ true → k ≡ directory
directory_is directory h = refl
directory_is symlink h = cc
directory_is regular h = cc
directory_is special h = cc

IsRoot-parts :
    (uid : ℕ) (root : RootPath) (path : Text)
    → validated_run_root uid root ≡ ok path
    → (s : Stat) × IsRoot uid root s × (path ≡ root.path)
unfolding validated_run_root
IsRoot-parts uid root path h =
    let (absolute, h1) = require_then root.is_absolute ledger_path_error _ path h in
    let (s, there, h2) = bind_ok (answered root.lstat) _ path h1 in
    let (resolved, is, h3) = bind_ok (answered root.resolved) _ path h2 in
    let (unlinked, h4) = require_then (not (is_link s.kind)) ledger_path_error _ path h3 in
    let (kind, h5) = require_then (is_directory s.kind) ledger_path_error _ path h4 in
    let (same, h6) = require_then (text_eq resolved root.path) ledger_path_error _ path h5 in
    let (owned, h7) = require_then (s.uid == uid) ledger_path_error _ path h6 in
    let (private, h8) =
      require_then (not (not (others_bits s.mode == 0) || not (owner_bits s.mode == 0o700)))
        ledger_path_error _ path h7 in
    let at = (text_eq_iff resolved root.path).0 same in
    (
      s,
      record {
        absolute = absolute;
        there = answered_some root.lstat s there;
        resolves = answered_some root.resolved resolved is ∙ ap some at;
        kind_is = directory_is s.kind kind;
        owned = (==_iff s.uid uid).0 owned;
        private = (private_iff s.mode).0 private;
      },
      sym (ok_injective resolved path h8) ∙ at,
    )

IsRoot-goes :
    (uid : ℕ) (root : RootPath) (s : Stat)
    → IsRoot uid root s
    → validated_run_root uid root ≡ ok root.path
unfolding validated_run_root
IsRoot-goes uid root s h =
    rw
      (
        h.absolute,
        h.there,
        h.resolves,
        h.kind_is,
        (text_eq_iff root.path root.path).1 refl,
        (==_iff s.uid uid).1 h.owned,
        (private_iff s.mode).1 h.private,
      )
      refl

-- `_validated_run_root` returns exactly for an absolute path, given as it resolves, of a directory of
-- the current user whose permission bits are rwx for the owner and nothing for the others; what it
-- returns is the path.
pub validated_run_root-returns_iff :
    (uid : ℕ) (root : RootPath) (path : Text)
    → (validated_run_root uid root ≡ ok path)
      ↔ ((s : Stat) × IsRoot uid root s × (path ≡ root.path))
validated_run_root-returns_iff uid root path =
    (IsRoot-parts uid root path, (λ (s, h, same). IsRoot-goes uid root s h ∙ ap ok (sym same)))
