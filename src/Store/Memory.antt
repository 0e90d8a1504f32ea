-- ===== src/Store/Memory.antt =====
-- examples/zhi-store-memory/main.go: the store that keeps its trees in a map.
use zhi.Common.{
  Text, bytes, false, List, [], ◌∷◌, Option, none, some, ok, err, Map, lookup, insert, delete, keys,
  copy,
}
use zhi.Store.Types.{Capabilities, versioning_none, encryption_none, not_supported}
use zhi.Store.Plugin.{Act, Plugin}

abbrev pub Trees : Type 0 → Type 0
Trees V = Map (Map V)

module _ {V : Type 0} where
  unfoldable pub memory_capabilities : Act (Trees V) Capabilities
  memory_capabilities trees = (
    ok (record {
      versioning = versioning_none;
      encryption = encryption_none;
      auth = false;
      access_control = false;
    }),
    trees,
  )

  -- return &store.ErrNotSupported{Feature: feature}
  abbrev pub unsupported : {X : Type 0} → Text → Act (Trees V) X
  unsupported feature trees = (err (not_supported feature), trees)

  unfoldable pub list_memory : Act (Trees V) (List Text)
  list_memory trees = (ok (keys trees), trees)

  unfoldable pub drop_memory : Text → Act (Trees V) (Unit {0})
  drop_memory id trees = (ok tt, delete id trees)

  -- The loop of GetValues, with its result so far.
  unfoldable pub pick_values : Map V → List Text → Map V → Map V
  pick_values tree [] result = result
  pick_values tree (p ∷ ps) result =
      pick_values tree ps (elim (lookup p tree) [ none ↦ result | some v ↦ insert p v result ])

  -- tree, ok := m.trees[id]; if !ok { return nil, nil }
  unfoldable pub pick_tree : List Text → Option (Map V) → Map V
  unfolding pick_values
  pick_tree paths none = []
  pick_tree paths (some tree) = pick_values tree paths []

  unfoldable pub get_memory : Text → List Text → Act (Trees V) (Map V)
  unfolding pick_tree
  get_memory id paths trees = (ok (pick_tree paths (lookup id trees)), trees)

  -- tree, ok := m.trees[id]; if !ok { tree = make(map) }
  unfoldable pub tree_or_new : Option (Map V) → Map V
  tree_or_new none = []
  tree_or_new (some tree) = tree

  unfoldable pub put_memory : Text → Map V → Act (Trees V) (Unit {0})
  unfolding tree_or_new
  put_memory id values trees =
      (ok tt, insert id (copy (tree_or_new (lookup id trees)) values) trees)

  -- for _, p := range paths { delete(tree, p) }
  unfoldable pub delete_paths : List Text → Map V → Map V
  delete_paths [] tree = tree
  delete_paths (p ∷ ps) tree = delete_paths ps (delete p tree)

  unfoldable pub delete_memory : Text → List Text → Act (Trees V) (Unit {0})
  unfolding delete_paths
  delete_memory id paths trees = (
    ok tt,
    elim (lookup id trees) [ none ↦ trees | some tree ↦ insert id (delete_paths paths tree) trees ],
  )

  unfoldable pub memory_plugin : Plugin (Trees V) V
  unfolding memory_capabilities list_memory drop_memory get_memory put_memory delete_memory
  memory_plugin = record {
    capabilities = memory_capabilities;
    auth_methods = λ trees. (ok [], trees);
    login = λ method creds. unsupported (bytes "authentication");
    login_interactive = λ method params. unsupported (bytes "interactive login");
    login_interactive_callback = λ challenge params. unsupported (bytes "interactive login");
    list_trees = list_memory;
    delete_tree = drop_memory;
    get_values = get_memory;
    put_values = λ id values opts. put_memory id values;
    delete_values = delete_memory;
    list_tree_versions = λ id. unsupported (bytes "versioning");
    get_tree_version = λ id version paths. unsupported (bytes "versioning");
    rollback_tree = λ id version. unsupported (bytes "versioning");
    delete_tree_version = λ id version. unsupported (bytes "versioning");
    list_value_versions = λ id path. unsupported (bytes "versioning");
    get_value_version = λ id path version. unsupported (bytes "versioning");
    rollback_value = λ id path version. unsupported (bytes "versioning");
    delete_value_version = λ id path version. unsupported (bytes "versioning");
    init_encryption = λ pass. unsupported (bytes "encryption");
    rotate_encryption = λ old new. unsupported (bytes "encryption");
    grant_access = λ id user perms. unsupported (bytes "access control");
    revoke_access = λ id user paths. unsupported (bytes "access control");
    list_access = λ id. unsupported (bytes "access control");
  }
