-- ===== src/Common/Maps.antt =====
-- Go maps with string keys: association lists. An assignment replaces an entry in place.
use mathlib.Core.Path.{◌≡◌, refl}
use mathlib.Core.List.{List, [], ◌∷◌}
use mathlib.Core.Option.{Option, none, some}
use native.Mathlib.Omega.{arith}
use zhi.Common.Tests.{if◌then◌else◌}
use zhi.Common.Texts.{Text, ◌==◌, eq_iff}

abbrev pub Map {ℓ} : Type ℓ → Type ℓ
Map V = List (Text × V)

module _ {ℓ} {V : Type ℓ} where
  -- v, ok := m[key]
  unfoldable pub lookup : Text → Map V → Option V
  lookup key [] = none
  lookup key ((name, value) ∷ rest) = if name == key then some value else lookup key rest

  -- delete(m, key)
  unfoldable pub delete : Text → Map V → Map V
  delete key [] = []
  delete key ((name, value) ∷ entries) =
      let rest = delete key entries in if name == key then rest else (name, value) ∷ rest

  -- m[key] = new
  unfoldable pub insert : Text → V → Map V → Map V
  insert key new [] = (key, new) ∷ []
  insert key new ((name, old) ∷ rest) =
      if name == key then (name, new) ∷ rest else (name, old) ∷ insert key new rest

  -- the keys, in the order of iteration
  unfoldable pub keys : Map V → List Text
  keys [] = []
  keys ((name, value) ∷ rest) = name ∷ keys rest

  pub lookup-delete :
      (key other : Text) (m : Map V)
      → lookup other (delete key m) ≡ (if key == other then none else lookup other m)
  unfolding lookup delete
  lookup-delete key other [] = ground arith
  lookup-delete key other ((name, value) ∷ m) =
      ground
        (arith, lookup-delete key other m, eq_iff key other, eq_iff name key, eq_iff name other)

  pub lookup-insert :
      (key other : Text) (new : V) (m : Map V)
      → lookup other (insert key new m) ≡ (if key == other then some new else lookup other m)
  unfolding lookup insert
  lookup-insert key other new [] = refl
  lookup-insert key other new ((name, old) ∷ m) =
      ground
        (arith, lookup-insert key other new m, eq_iff key other, eq_iff name key, eq_iff name other)

  -- maps.Copy(target, entries)
  unfoldable pub copy : Map V → Map V → Map V
  unfolding insert
  copy target [] = target
  copy target ((name, value) ∷ entries) = copy (insert name value target) entries

  -- The last value that the entries give a key, or else the one before.
  abbrev pub latest : Text → Map V → Option V → Option V
  latest key [] before = before
  latest key ((name, value) ∷ entries) before =
      latest key entries (if name == key then some value else before)

  pub lookup-copy :
      (key : Text) (target entries : Map V)
      → lookup key (copy target entries) ≡ latest key entries (lookup key target)
  unfolding copy
  lookup-copy key target [] = refl
  lookup-copy key target ((name, value) ∷ entries) =
      rw (lookup-copy key (insert name value target) entries, lookup-insert name key value target)
        refl
