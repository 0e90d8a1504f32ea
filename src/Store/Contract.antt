-- ===== src/Store/Contract.antt =====
-- What a store promises of its current values, whatever it keeps behind them: the specification
-- that the stores implement and that the engine uses.
use zhi.Common.{
  Text, Bool, true, false, List, [], ◌∷◌, Option, none, some, Result, ok, err, ◌≡◌, refl, Map,
  lookup, keys, Distinct, contains, if◌then◌else◌, ◌==◌,
}
use zhi.Store.Types.{StoreError}
use zhi.Store.Plugin.{
  Plugin, Call, capabilities, auth_methods, login, login_interactive, login_interactive_callback,
  list_trees, delete_tree, get_values, put_values, delete_values, list_tree_versions,
  get_tree_version, rollback_tree, delete_tree_version, list_value_versions, get_value_version,
  rollback_value, delete_value_version, init_encryption, rotate_encryption, grant_access,
  revoke_access, list_access, call,
}

-- The value of each tree at each path.
abbrev pub View : Type 0 → Type 0
View V = Text → Text → Option V

-- What a store makes of what it is given: trees with the same key are one tree, and a value is kept
-- as `norm` of it.
pub record Keeping (V : Type 0) : Type 0 where
  pub key : Text → Text
  pub norm : V → V

-- The last value that the entries give a path, as it is kept, or else the one before.
abbrev pub put_latest : {V : Type 0} → (V → V) → Text → Map V → Option V → Option V
put_latest norm path [] before = before
put_latest norm path ((name, value) ∷ entries) before =
    put_latest norm path entries (if name == path then some (norm value) else before)

module _ {V : Type 0} where
  -- All calls but RollbackTree, RollbackValue, DeleteTreeVersion and DeleteValueVersion, of which
  -- `IsStore` promises nothing: what they do to the values depends on the history of the store.
  abbrev pub is_plain : Call V → Bool
  is_plain (rollback_tree id ver) = false
  is_plain (rollback_value id path ver) = false
  is_plain (delete_tree_version id ver) = false
  is_plain (delete_value_version id path ver) = false
  is_plain _ = true

module _ {V : Type 0} (k : Keeping V) where
  -- What a successful call does to the values, if it is one that `is_plain` lets through, or one of
  -- a store without versions.
  abbrev pub effect : Call V → View V → View V
  effect (put_values id vs opts) w = λ tree path.
      if k.key id == k.key tree then put_latest k.norm path vs (w tree path) else w tree path
  effect (delete_values id paths) w = λ tree path.
      if k.key id == k.key tree
      then (if contains paths path then none else w tree path)
      else w tree path
  effect (delete_tree id) w = λ tree path. if k.key id == k.key tree then none else w tree path
  effect _ w = w

  -- The effect reads its argument only at the tree and the path asked for.
  pub effect-same :
      (c : Call V) (w w' : View V)
      → ((id path : Text) → w id path ≡ w' id path)
      → (id path : Text) → effect c w id path ≡ effect c w' id path
  effect-same (put_values id vs opts) w w' e tree path = rw (e tree path) refl
  effect-same (delete_values id paths) w w' e tree path = rw (e tree path) refl
  effect-same (delete_tree id) w w' e tree path = rw (e tree path) refl
  effect-same capabilities w w' e tree path = e tree path
  effect-same auth_methods w w' e tree path = e tree path
  effect-same list_trees w w' e tree path = e tree path
  effect-same (login x y) w w' e tree path = e tree path
  effect-same (login_interactive x y) w w' e tree path = e tree path
  effect-same (login_interactive_callback x y) w w' e tree path = e tree path
  effect-same (list_tree_versions id) w w' e tree path = e tree path
  effect-same (list_access id) w w' e tree path = e tree path
  effect-same (init_encryption id) w w' e tree path = e tree path
  effect-same (get_values id paths) w w' e tree path = e tree path
  effect-same (get_tree_version id ver paths) w w' e tree path = e tree path
  effect-same (rollback_tree id ver) w w' e tree path = e tree path
  effect-same (delete_tree_version id ver) w w' e tree path = e tree path
  effect-same (list_value_versions id ver) w w' e tree path = e tree path
  effect-same (rotate_encryption id ver) w w' e tree path = e tree path
  effect-same (get_value_version id p ver) w w' e tree path = e tree path
  effect-same (rollback_value id p ver) w w' e tree path = e tree path
  effect-same (delete_value_version id p ver) w w' e tree path = e tree path
  effect-same (grant_access id user perms) w w' e tree path = e tree path
  effect-same (revoke_access id user paths) w w' e tree path = e tree path

abbrev pub on_ok : {X A : Type 0} → Result StoreError X → A → A → A
on_ok (ok x) new old = new
on_ok (err e) new old = old

pub on_ok-same : {X A : Type 0} (r : Result StoreError X) (a : A) → on_ok r a a ≡ a
on_ok-same (ok x) a = refl
on_ok-same (err e) a = refl

-- Of the calls that `is_plain` lets through, one that fails keeps all values and one that succeeds
-- has its effect; GetValues returns the values at the paths that it is asked for and that have one,
-- each path once.
pub record IsStore {S V : Type 0} (p : Plugin S V) (k : Keeping V) (view : S → View V)
    : Type 0 where
  pub writes :
      (c : Call V) (s : S) (id path : Text)
      → is_plain c ≡ true
      → view (call p c s).1 id path
        ≡ on_ok (call p c s).0 (effect k c (view s) id path) (view s id path)
  pub reads :
      (id : Text) (paths : List Text) (s : S) (m : Map V) (path : Text)
      → (p.get_values id paths s).0 ≡ ok m
      → (lookup path m ≡ (if contains paths path then view s id path else none)) × Distinct (keys m)

-- The call returned an error.
abbrev pub IsRefused : {X S : Type 0} → Result StoreError X × S → Type 0
IsRefused r = (e : StoreError) × (r.0 ≡ err e)

-- A store without versions, for the calls that are `covered`: any of the 23 calls that fails keeps
-- all values and any that succeeds has its effect, the four calls that change versions always fail,
-- and GetValues is as in `IsStore`.
pub record IsUnversioned {S V : Type 0} (p : Plugin S V) (k : Keeping V) (view : S → View V)
    (covered : Call V → Type 0) : Type 0 where
  pub writes :
      (c : Call V) (s : S) (id path : Text)
      → covered c
      → view (call p c s).1 id path
        ≡ on_ok (call p c s).0 (effect k c (view s) id path) (view s id path)
  pub reads :
      (id : Text) (paths : List Text) (s : S) (m : Map V) (path : Text)
      → (p.get_values id paths s).0 ≡ ok m
      → (lookup path m ≡ (if contains paths path then view s id path else none)) × Distinct (keys m)
  pub rollback_tree_refused : (id ver : Text) (s : S) → IsRefused (call p (rollback_tree id ver) s)
  pub rollback_value_refused :
      (id path ver : Text) (s : S) → IsRefused (call p (rollback_value id path ver) s)
  pub delete_tree_version_refused :
      (id ver : Text) (s : S) → IsRefused (call p (delete_tree_version id ver) s)
  pub delete_value_version_refused :
      (id path ver : Text) (s : S) → IsRefused (call p (delete_value_version id path ver) s)
