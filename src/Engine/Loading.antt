-- ===== src/Engine/Loading.antt =====
-- LoadTree as a whole: the defaults, with the stored values.
use zhi.Common.{
  subst, Text, true, List, [], ◌∷◌, Option, none, ok, err, ◌≡◌, ◌∙◌, refl, inl, inr, arith, Map,
  lookup, keys, contains, Distinct, All, if◌then◌else◌, Option-cases, Bool-cases, contains-keys,
  sym, Result-cases, over, if_same, over_id,
}
use zhi.Config.Path.{validate_path}
use zhi.Config.Tree.{Tree, get, list, new_tree}
use zhi.Config.Trees.{IsTree, new_tree-IsTree}
use zhi.Store.Mirrored.{Replica}
use zhi.Engine.State.{
  Entry, Host, Engine, tree_id, stored_value, get_workspace_dir, listing, with_replica, store_error,
  loading_stored,
}
use zhi.Engine.Load.{
  load_paths, stored_tree, load_stored_tree, merge_paths, merge_stored, load_stored, load_tree,
}
use zhi.Engine.Taken.{IsLoaded}
use zhi.Engine.Merging.{merged-IsLoaded}
use zhi.Engine.Steps.{merged, fill_lem, load_paths_lem, merge_paths_lem, unmerged}

module _ {F O Fn : Type 0} (host : Host F O) where
  at_path :
      (t stored : Tree (Entry F O Fn)) (path : Text) (o : Option (Entry F O Fn))
      → get stored path ≡ o
      → (if contains (list t) path then merged host (get t path) (get stored path) else get t path)
        ≡ merged host (get t path) o
  unfolding get list
  at_path t stored path o h = elim (Option-cases (lookup path t.values)) [
    | inl missing ↦ rw (missing) (if_same (contains (keys t.values) path) none)
    | inr (v, present) ↦
        let listed : contains (keys t.values) path ≡ true =
          ground (arith, contains-keys path t.values) in
        rw (listed, h) refl
  ]

module _ {E F O Fn : Type 0} (host : Host F O) where
  -- What LoadTree makes of its defaults and of the values that the store returned.
  merge_stored_lem :
      (t : Tree (Entry F O Fn)) (m : Map (Entry F O Fn))
      → IsTree t
      → All (λ path. validate_path path ≡ ok tt) (keys m)
      → Distinct (keys m)
      → (t' : Tree (Entry F O Fn)) × (merge_stored host {E = E} t
            (stored_tree (stored_value host) (ok m))
          ≡ ok t')
        × ((path : Text)
            → get t' path
              ≡ merged host (get t path) (over (stored_value host) (lookup path m) none))
  unfolding merge_stored stored_tree lookup list keys get
  merge_stored_lem t [] it valid once = (t, refl, λ path. sym (unmerged host new_tree (get t path)))
  merge_stored_lem t ((name, v) ∷ m) it valid once =
      let m' : Map (Entry F O Fn) = (name, v) ∷ m in
      let (stored, filled, got) = fill_lem {E = E} (stored_value host) m' new_tree valid once in
      (
        merge_paths host stored (list t) t,
        rw (filled, merge_stored) refl,
        λ path.
            merge_paths_lem host stored (list t) t path it.once
            ∙ at_path host t stored path _ (got path),
      )

module _ {C S R E F O Fn : Type 0} (host : Host F O) where
  -- The config plugin lists these paths, and has `d` at them, all of them valid.
  abbrev pub HasDefaults :
      Engine C S (Entry F O Fn) R E → List Text → (Text → Option (Entry F O Fn)) → Type 0
  HasDefaults e ps d =
      (e.config_plugin.list e.config_state ≡ ok ps)
      × All
          (λ path.
            (e.config_plugin.get e.config_state path ≡ ok (d path)) × (validate_path path ≡ ok tt))
          ps

  -- LoadTree merges the defaults and the values of the store.
  pub load_tree-merged :
      (e : Engine C S (Entry F O Fn) R E) (r : Replica S (Entry F O Fn)) (ps : List Text)
      (d : Text → Option (Entry F O Fn)) (m : Map (Entry F O Fn))
      → HasDefaults e ps d
      → (r.impl.get_values (tree_id host e) ps r.state).0 ≡ ok m
      → All (λ path. validate_path path ≡ ok tt) (keys m)
      → Distinct (keys m)
      → (t : Tree (Entry F O Fn)) × ((load_tree host (with_replica e r)).0 ≡ ok t)
        × ((path : Text)
            → get t path ≡ (
                if contains ps path
                then merged host (d path) (over (stored_value host) (lookup path m) none)
                else none))
  unfolding load_tree load_stored load_stored_tree get lookup
  load_tree-merged e r ps d m (listed, found) read valid once =
      let (t0, loaded, it, got0) =
        load_paths_lem (with_replica e r) d ps new_tree found new_tree-IsTree in
      let (t, merged', got) = merge_stored_lem {E = E} host t0 m it valid once in
      (
        t,
        rw (listed, loaded, listed, read, load_tree, load_stored, load_stored_tree) merged',
        λ path. got path ∙ elim (Bool-cases (contains ps path)) [
          | inl asked ↦ rw (asked, got0 path, asked, over_id (d path)) refl
          | inr not_asked ↦ rw (not_asked, got0 path, not_asked) refl
        ],
      )

  -- Where the config plugin lists valid paths and has `d` at them, and the store returns its values
  -- for them, at valid paths and each once, LoadTree succeeds. A path that is not listed or has no
  -- default has nothing, and one with nothing stored has its default. Otherwise it has the default
  -- with another value in it. A stored value whose metadata name one of the semantic types string,
  -- int, uint, float and bool is converted to that type, and stays as it is if that fails; a stored
  -- value without a semantic type, or with another one, stays as it is. If it then is of the type of
  -- the default, it is taken; if not, the result of the numeric conversion to the kind of that type
  -- is taken; and if that fails, the default keeps its value.
  pub load_tree_lem :
      (e : Engine C S (Entry F O Fn) R E) (r : Replica S (Entry F O Fn)) (ps : List Text)
      (d : Text → Option (Entry F O Fn)) (m : Map (Entry F O Fn))
      → HasDefaults e ps d
      → (r.impl.get_values (tree_id host e) ps r.state).0 ≡ ok m
      → All (λ path. validate_path path ≡ ok tt) (keys m)
      → Distinct (keys m)
      → (t : Tree (Entry F O Fn)) × ((load_tree host (with_replica e r)).0 ≡ ok t)
        × ((path : Text) → IsLoaded host (contains ps path) (d path) (lookup path m) (get t path))
  load_tree_lem e r ps d m has read valid once =
      let (t, loaded, got) = load_tree-merged e r ps d m has read valid once in
      (
        t,
        loaded,
        λ path. elim (Bool-cases (contains ps path)) [
          | inl asked ↦
              let found : get t path
                  ≡ merged host (d path) (over (stored_value host) (lookup path m) none) =
                got path ∙ rw asked refl in
              rw (asked) (
                subst (IsLoaded host true (d path) (lookup path m)) (sym found)
                  (merged-IsLoaded host Fn (d path) (lookup path m)))
          | inr not_asked ↦
              let found : get t path ≡ none = got path ∙ rw not_asked refl in rw (not_asked) found
        ],
      )

  -- LoadTree never falls back to the defaults: with a store configured it returns a tree only if
  -- the config plugin listed its paths and the store returned its values for them.
  pub load_tree_ok :
      (e : Engine C S (Entry F O Fn) R E) (r : Replica S (Entry F O Fn)) (t : Tree (Entry F O Fn))
      → (load_tree host (with_replica e r)).0 ≡ ok t
      → (ps : List Text) × (e.config_plugin.list e.config_state ≡ ok ps)
        × (m : Map (Entry F O Fn)) × ((r.impl.get_values (tree_id host e) ps r.state).0 ≡ ok m)
  unfolding load_tree load_stored load_stored_tree tree_id get_workspace_dir
  load_tree_ok e r t h = elim (Result-cases (e.config_plugin.list e.config_state)) [
    | inr (x, failed) ↦
        let bad : (load_tree host (with_replica e r)).0 ≡ err (listing x) =
          rw (failed, load_tree) refl in
        absurd (cc)
    | inl (ps, listed) ↦ elim (Result-cases (load_paths (with_replica e r) ps new_tree)) [
      | inr (x, failed) ↦
          let bad : (load_tree host (with_replica e r)).0 ≡ err x =
            rw (listed, failed, load_tree) refl in
          absurd (cc)
      | inl (t0, loaded) ↦ elim (Result-cases (r.impl.get_values (tree_id host e) ps r.state).0) [
        | inr (x, failed) ↦
            let bad : (load_tree host (with_replica e r)).0 ≡ err (loading_stored (store_error x)) =
              rw (listed, loaded, listed, failed, load_tree, load_stored, load_stored_tree) refl in
            absurd (cc)
        | inl (m, read) ↦ (ps, listed, m, read)
      ]
    ]
  ]
