-- ===== src/Engine/Load.antt =====
-- LoadTree, LoadStoredTree, GetTreeVersion, FilteredTree and Validate of internal/core/engine.go.
-- The loop over a Go map is taken in the order of the entries.
use zhi.Common.{Text, List, [], ◌∷◌, Option, none, some, Result, ok, err, ◌>>=◌, Map, insert}
use zhi.Config.Tree.{Tree, new_tree, set, get, list}
use zhi.Component.Filter.{filter_tree}
use zhi.Store.Types.{StoreError}
use zhi.Engine.State.{
  Entry, Host, Engine, EngineError, Method, no_store, listing, getting, setting, store_error,
  loading_stored, with_store, tree_id, stored_value, matching_val,
}

module _ {E V : Type 0} where
  -- The loop over the values of a stored tree, which puts `f v` for v.
  unfoldable pub fill : (V → V) → Map V → Tree V → Result (EngineError E) (Tree V)
  fill f [] tree = ok tree
  fill f ((path, v) ∷ values) tree = elim (set path (f v) tree) [
    | err x ↦ err (setting path x)
    | ok tree' ↦ fill f values tree'
  ]

  -- What is made of the values that the store returns: none for no values.
  unfoldable pub stored_tree :
      (V → V) → Result StoreError (Map V) → Result (EngineError E) (Option (Tree V))
  unfolding fill
  stored_tree f (err x) = err (store_error x)
  stored_tree f (ok []) = ok none
  stored_tree f (ok (v ∷ values)) = do tree ← fill f (v ∷ values) new_tree; ok (some tree)

module _ {C S R E V : Type 0} where
  -- The first loop of LoadTree, from the tree so far.
  unfoldable pub load_paths :
      Engine C S V R E → List Text → Tree V → Result (EngineError E) (Tree V)
  load_paths e [] tree = ok tree
  load_paths e (path ∷ paths) tree = elim (e.config_plugin.get e.config_state path) [
    | err x ↦ err (getting path x)
    | ok found ↦ elim found [
      | none ↦ load_paths e paths tree
      | some v ↦ elim (set path v tree) [
        | err x ↦ err (setting path x)
        | ok tree' ↦ load_paths e paths tree'
      ]
    ]
  ]

  unfoldable pub get_tree_version : Text → Text → Method C S V R E (Option (Tree V))
  unfolding stored_tree with_store
  get_tree_version id version e = elim e.store [
    | none ↦ (err no_store, e)
    | some r ↦ elim (e.config_plugin.list e.config_state) [
      | err x ↦ (err (listing x), e)
      | ok paths ↦
          let (values, s) = r.impl.get_tree_version id version paths r.state in
          (stored_tree (λ v. v) values, with_store e r s)
    ]
  ]

module _ {F O Fn : Type 0} (host : Host F O) where
  -- One round of the merging loop of LoadTree: currentVal.Val = storedVal.Val
  unfoldable pub merge_path : Tree (Entry F O Fn) → Text → Tree (Entry F O Fn) → Tree (Entry F O Fn)
  unfolding matching_val
  merge_path stored path tree = elim (get stored path) [
    | none ↦ tree
    | some s ↦ elim (get tree path) [
      | none ↦ tree
      | some v ↦ elim (matching_val host s.val v.val) [
        | none ↦ tree
        | some x ↦ record { values = insert path (record v { val = x }) tree.values }
      ]
    ]
  ]

  unfoldable pub merge_paths :
      Tree (Entry F O Fn) → List Text → Tree (Entry F O Fn) → Tree (Entry F O Fn)
  unfolding merge_path
  merge_paths stored [] tree = tree
  merge_paths stored (path ∷ paths) tree = merge_paths stored paths (merge_path stored path tree)

  unfoldable pub merge_stored :
      {E : Type 0}
      → Tree (Entry F O Fn)
      → Result (EngineError E) (Option (Tree (Entry F O Fn)))
      → Result (EngineError E) (Tree (Entry F O Fn))
  unfolding merge_paths
  merge_stored tree (err x) = err (loading_stored x)
  merge_stored tree (ok none) = ok tree
  merge_stored tree (ok (some stored)) = ok (merge_paths stored (list tree) tree)

module _ {C S R E F O Fn : Type 0} (host : Host F O) where
  unfoldable pub load_stored_tree : Method C S (Entry F O Fn) R E (Option (Tree (Entry F O Fn)))
  unfolding stored_tree with_store tree_id stored_value
  load_stored_tree e = elim e.store [
    | none ↦ (err no_store, e)
    | some r ↦ elim (e.config_plugin.list e.config_state) [
      | err x ↦ (err (listing x), e)
      | ok paths ↦
          let (values, s) = r.impl.get_values (tree_id host e) paths r.state in
          (stored_tree (stored_value host) values, with_store e r s)
    ]
  ]

  -- The part of LoadTree behind the defaults.
  unfoldable pub load_stored :
      Tree (Entry F O Fn) → Method C S (Entry F O Fn) R E (Tree (Entry F O Fn))
  unfolding merge_stored load_stored_tree
  load_stored tree e = elim e.store [
    | none ↦ (ok tree, e)
    | some r ↦ let (stored, e') = load_stored_tree e in (merge_stored host tree stored, e')
  ]

  unfoldable pub load_tree : Method C S (Entry F O Fn) R E (Tree (Entry F O Fn))
  unfolding load_paths load_stored
  load_tree e = elim (e.config_plugin.list e.config_state) [
    | err x ↦ (err (listing x), e)
    | ok paths ↦ elim (load_paths e paths new_tree) [
      | err x ↦ (err x, e)
      | ok tree ↦ load_stored tree e
    ]
  ]

  unfoldable pub filtered_tree : Method C S (Entry F O Fn) R E (Tree (Entry F O Fn))
  unfolding load_tree
  filtered_tree e =
      let (r, e') = load_tree e in
      (elim r [ err x ↦ err x | ok tree ↦ ok (filter_tree e'.components tree) ], e')
