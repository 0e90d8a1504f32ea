-- ===== src/Sharing/LockFile.antt =====
-- Lock files: pkg/sharing/lockfile/lockfile.go. The YAML coding and the files are left out.
use zhi.Common.{
  ℕ, ◌+◌, Text, Bool, false, List, [], ◌∷◌, ◌++◌, Option, none, some, Result, ok, err, Map, nat_eq,
  if◌then◌else◌, ◌==◌,
}
use zhi.Numeric.Convert.{ℤ, pos, negsuc}

pub record LockedPlugin : Type 0 where
  pub name : Text
  pub plugin_type : Text
  pub ref : Text
  pub digest : Text
  pub platforms : Map Text
  pub signed : Bool
  pub signing_identity : Text

pub record LockFile : Type 0 where
  pub version : ℤ
  pub generated_at : Text
  pub zhi_version : Text
  pub plugins : List LockedPlugin

pub data LockError : Type 0 where
  version_required : LockError
  unsupported_version : ℤ → LockError
  name_required : ℕ → LockError
  ref_required : ℕ → LockError
  digest_required : ℕ → LockError

-- The locked digest, and the actual one.
pub data DigestError : Type 0 where
  digest_mismatch : (name locked actual : Text) → DigestError

abbrev pub lock_version : ℤ
lock_version = pos 1

-- z == w for two ints.
abbrev pub int_eq : ℤ → ℤ → Bool
int_eq (pos m) (pos n) = nat_eq m n
int_eq (negsuc m) (negsuc n) = nat_eq m n
int_eq _ _ = false

-- if s == "" { errs = append(errs, e) }
abbrev pub required : Text → LockError → List LockError
required s e = if s == [] then e ∷ [] else []

unfoldable pub version_errors : LockFile → List LockError
version_errors lf =
    if int_eq lf.version (pos 0)
    then version_required ∷ []
    else if int_eq lf.version lock_version
    then []
    else unsupported_version lf.version ∷ []

-- The loop over the plugins, from index i.
unfoldable pub plugin_errors : ℕ → List LockedPlugin → List LockError
plugin_errors i [] = []
plugin_errors i (p ∷ ps) =
    required p.name (name_required i)
    ++ (required p.ref (ref_required i)
        ++ (required p.digest (digest_required i) ++ plugin_errors (i + 1) ps))

abbrev pub unless_errors : List LockError → Result (List LockError) (Unit {0})
unless_errors [] = ok tt
unless_errors (e ∷ es) = err (e ∷ es)

unfoldable pub validate_lock : LockFile → Result (List LockError) (Unit {0})
unfolding version_errors plugin_errors
validate_lock lf = unless_errors (version_errors lf ++ plugin_errors 0 lf.plugins)

unfoldable pub find_plugin : Text → List LockedPlugin → Option LockedPlugin
find_plugin name [] = none
find_plugin name (p ∷ ps) = if p.name == name then some p else find_plugin name ps

unfoldable pub verify_digest : LockedPlugin → Text → Result DigestError (Unit {0})
verify_digest lp actual =
    if lp.digest == actual then ok tt else err (digest_mismatch lp.name lp.digest actual)
