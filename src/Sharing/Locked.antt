-- ===== src/Sharing/Locked.antt =====
-- Which lock files are valid.
use zhi.Common.{
  ℕ, ◌+◌, Text, true, List, [], ◌∷◌, ◌++◌, ok, ◌≡◌, ◌≢◌, ◌↔◌, refl, ap, if◌then◌else◌, arith, All,
  ◌==◌, eq_iff, Bool-cases, inl, inr,
}
use zhi.Numeric.Convert.{ℤ, pos, negsuc}
use zhi.Sharing.LockFile.{
  LockedPlugin, LockFile, LockError, name_required, ref_required, digest_required, lock_version,
  int_eq, version_required, unsupported_version, required, version_errors, plugin_errors,
  unless_errors, validate_lock,
}

-- A plugin with a name, a reference and a digest.
pub record IsPinned (p : LockedPlugin) : Type 0 where
  pub named : p.name ≢ []
  pub referenced : p.ref ≢ []
  pub digested : p.digest ≢ []

-- Both of two lists of errors are empty.
append_empty : (xs ys : List LockError) → (xs ++ ys ≡ []) ↔ ((xs ≡ []) × (ys ≡ []))
append_empty [] ys = (λ h. (refl, h), λ h. h.1)
append_empty (x ∷ xs) ys = (λ h. absurd (cc), λ h. let bad : x ∷ xs ≡ [] = h.0 in absurd (cc))

required_iff : (s : Text) (e : LockError) → (required s e ≡ []) ↔ (s ≢ [])
required_iff s e = elim (Bool-cases (s == [])) [
  | inl missing ↦
      let gone : s ≡ [] = (eq_iff s []).0 missing in
      rw missing (λ h. absurd (cc), λ h. absurd (h gone))
  | inr given ↦
      rw given (λ h same. let t : (s == []) ≡ true = (eq_iff s []).1 same in absurd (cc), λ h. refl)
]

plugin_errors_iff : (i : ℕ) (ps : List LockedPlugin) → (plugin_errors i ps ≡ []) ↔ All IsPinned ps
unfolding plugin_errors
plugin_errors_iff i [] = (λ h. tt, λ h. refl)
plugin_errors_iff i (p ∷ ps) = (
  λ h.
      let (n, rest1) = (append_empty _ _).0 h in
      let (r, rest2) = (append_empty _ _).0 rest1 in
      let (d, rest3) = (append_empty _ _).0 rest2 in
      (
        record {
          named = (required_iff p.name (name_required i)).0 n;
          referenced = (required_iff p.ref (ref_required i)).0 r;
          digested = (required_iff p.digest (digest_required i)).0 d;
        },
        (plugin_errors_iff (i + 1) ps).0 rest3,
      ),
  λ (pinned, rest). (append_empty _ _).1 (
    (required_iff p.name (name_required i)).1 pinned.named,
    (append_empty _ _).1 (
      (required_iff p.ref (ref_required i)).1 pinned.referenced,
      (append_empty _ _).1 (
        (required_iff p.digest (digest_required i)).1 pinned.digested,
        (plugin_errors_iff (i + 1) ps).1 rest,
      ),
    ),
  ),
)

version_errors_iff : (lf : LockFile) → (version_errors lf ≡ []) ↔ (lf.version ≡ lock_version)
unfolding version_errors
version_errors_iff lf = (by_version lf.version, λ h. rw (h, version_errors) refl)
  where
    by_version :
        (z : ℤ)
        → (if int_eq z (pos 0)
            then version_required ∷ []
            else if int_eq z lock_version
            then []
            else unsupported_version z ∷ [])
          ≡ []
        → z ≡ lock_version
    by_version (negsuc n) h = absurd (cc)
    by_version (pos n) h = let one : n ≡ 1 = ground arith in ap pos one

unless_errors_iff : (es : List LockError) → (unless_errors es ≡ ok tt) ↔ (es ≡ [])
unless_errors_iff [] = (λ h. refl, λ h. refl)
unless_errors_iff (e ∷ es) = (λ h. absurd (cc), λ h. absurd (cc))

-- A lock file is valid exactly if it has the supported version and each of its plugins has a name,
-- a reference and a digest.
pub validate_lock_iff :
    (lf : LockFile)
    → (validate_lock lf ≡ ok tt) ↔ ((lf.version ≡ lock_version) × All IsPinned lf.plugins)
unfolding validate_lock
validate_lock_iff lf = (
  λ h.
      let (v, ps) = (append_empty _ _).0 ((unless_errors_iff _).0 h) in
      ((version_errors_iff lf).0 v, (plugin_errors_iff 0 lf.plugins).0 ps),
  λ (v, ps).
      (unless_errors_iff _).1
        ((append_empty _ _).1 ((version_errors_iff lf).1 v, (plugin_errors_iff 0 lf.plugins).1 ps)),
)
