-- ===== src/Store/Storing.antt =====
-- The memory store keeps the contract.
use zhi.Common.{
  Text, List, [], ◌∷◌, Option, none, some, ok, ◌≡◌, refl, ◌∙◌, arith, Map, lookup, insert, keys,
  Distinct, Distinct-keys-insert, latest, contains, if◌then◌else◌, ◌==◌, Option-cases, inl, inr,
  subst,
}
use zhi.Store.Plugin.{
  Call, capabilities, auth_methods, login, login_interactive, login_interactive_callback,
  list_trees, delete_tree, get_values, put_values, delete_values, list_tree_versions,
  get_tree_version, rollback_tree, delete_tree_version, list_value_versions, get_value_version,
  rollback_value, delete_value_version, init_encryption, rotate_encryption, grant_access,
  revoke_access, list_access, call,
}
use zhi.Store.Contract.{Keeping, put_latest, IsStore, IsUnversioned, effect, on_ok}
use zhi.Store.Values.{
  memory_view, in_tree, picked-none, lookup-pick_values, put_memory_lem, delete_memory_lem,
  drop_memory_lem,
}
use zhi.Store.Memory.{
  Trees, pick_values, pick_tree, get_memory, put_memory, delete_memory, drop_memory, memory_plugin,
}

module _ {V : Type 0} where
  -- The memory store keeps each tree under its name, and each value as it is.
  abbrev pub as_given : Keeping V
  as_given = record { key = λ id. id; norm = λ v. v }

  latest-put_latest :
      (path : Text) (vs : Map V) (before : Option V)
      → latest path vs before ≡ put_latest (λ v. v) path vs before
  latest-put_latest path [] before = refl
  latest-put_latest path ((name, v) ∷ vs) before =
      latest-put_latest path vs (if name == path then some v else before)

  -- No method but a write has an effect, and no method is refused by a write.
  writes_memory :
      (c : Call V) (s : Trees V) (id path : Text)
      → memory_view (call memory_plugin c s).1 id path
        ≡ on_ok
            (call memory_plugin c s).0
            (effect as_given c (memory_view s) id path)
            (memory_view s id path)
  unfolding call memory_plugin drop_memory put_memory get_memory delete_memory
  writes_memory capabilities s tree path = refl
  writes_memory auth_methods s tree path = refl
  writes_memory list_trees s tree path = refl
  writes_memory (login x y) s tree path = refl
  writes_memory (login_interactive x y) s tree path = refl
  writes_memory (login_interactive_callback x y) s tree path = refl
  writes_memory (delete_tree id) s tree path = drop_memory_lem id s tree path
  writes_memory (list_tree_versions id) s tree path = refl
  writes_memory (list_access id) s tree path = refl
  writes_memory (init_encryption id) s tree path = refl
  writes_memory (get_values id paths) s tree path = refl
  writes_memory (delete_values id paths) s tree path = delete_memory_lem id paths s tree path
  writes_memory (put_values id vs opts) s tree path =
      put_memory_lem id vs s tree path
      ∙ rw (latest-put_latest path vs (memory_view s tree path)) refl
  writes_memory (get_tree_version id ver paths) s tree path = refl
  writes_memory (rollback_tree id ver) s tree path = refl
  writes_memory (delete_tree_version id ver) s tree path = refl
  writes_memory (list_value_versions id ver) s tree path = refl
  writes_memory (rotate_encryption id ver) s tree path = refl
  writes_memory (get_value_version id p ver) s tree path = refl
  writes_memory (rollback_value id p ver) s tree path = refl
  writes_memory (delete_value_version id p ver) s tree path = refl
  writes_memory (grant_access id user perms) s tree path = refl
  writes_memory (revoke_access id user paths) s tree path = refl

  lookup-pick_tree :
      (paths : List Text) (o : Option (Map V)) (path : Text)
      → lookup path (pick_tree paths o) ≡ (if contains paths path then in_tree path o else none)
  unfolding pick_tree lookup
  lookup-pick_tree paths none path = ground arith
  lookup-pick_tree paths (some tree) path =
      lookup-pick_values tree paths [] path ∙ picked-none (contains paths path) (lookup path tree)

  Distinct-pick_values :
      (tree : Map V) (ps : List Text) (result : Map V)
      → Distinct (keys result)
      → Distinct (keys (pick_values tree ps result))
  unfolding pick_values
  Distinct-pick_values tree [] result once = once
  Distinct-pick_values tree (p ∷ ps) result once = elim (Option-cases (lookup p tree)) [
    | inl missing ↦ rw missing (Distinct-pick_values tree ps result once)
    | inr (v, found) ↦
        rw found
          (Distinct-pick_values tree ps (insert p v result) (Distinct-keys-insert p v result once))
  ]

  Distinct-pick_tree :
      (paths : List Text) (o : Option (Map V)) → Distinct (keys (pick_tree paths o))
  unfolding pick_tree keys
  Distinct-pick_tree paths none = tt
  Distinct-pick_tree paths (some tree) = Distinct-pick_values tree paths [] tt

  reads_memory :
      (id : Text) (paths : List Text) (s : Trees V) (m : Map V) (path : Text)
      → (get_memory id paths s).0 ≡ ok m
      → (lookup path m ≡ (if contains paths path then memory_view s id path else none))
        × Distinct (keys m)
  unfolding get_memory memory_view
  reads_memory id paths s m path h =
      let same : pick_tree paths (lookup id s) ≡ m = cc in
      subst
        (λ n.
          (lookup path n ≡ (if contains paths path then memory_view s id path else none))
          × Distinct (keys n))
        same (lookup-pick_tree paths (lookup id s) path, Distinct-pick_tree paths (lookup id s))

  -- The memory store keeps the contract.
  pub memory_plugin-IsStore : IsStore (memory_plugin {V = V}) as_given memory_view
  unfolding memory_plugin get_memory
  memory_plugin-IsStore = record {
    writes = λ c s id path plain. writes_memory c s id path;
    reads = reads_memory;
  }

  -- Of all 23 calls of the memory store, those on versions included: a call that fails keeps all
  -- values, PutValues, DeleteValues and DeleteTree change exactly the values that they name, in the
  -- tree that they name, and no other call changes a value. RollbackTree, RollbackValue,
  -- DeleteTreeVersion and DeleteValueVersion always fail. GetValues returns the values of a tree at
  -- those of the paths asked for that have one, each path once.
  pub memory_plugin-IsUnversioned :
      IsUnversioned (memory_plugin {V = V}) as_given memory_view (λ c. Unit {0})
  unfolding memory_plugin get_memory call
  memory_plugin-IsUnversioned = record {
    writes = λ c s id path covered. writes_memory c s id path;
    reads = reads_memory;
    rollback_tree_refused = λ id ver s. (_, refl);
    rollback_value_refused = λ id path ver s. (_, refl);
    delete_tree_version_refused = λ id ver s. (_, refl);
    delete_value_version_refused = λ id path ver s. (_, refl);
  }
