-- ===== src/Store/Mirrored.antt =====
-- `MirroredPlugin` of pkg/zhiplugin/store/compose.go. A store is a plugin with its state. Each
-- mirror has a state of its own, so the writes that the source makes in parallel are taken in order;
-- the log messages are left out.
use zhi.Common.{Text, bytes, List, [], ◌∷◌, none, Result, ok, err}
use zhi.Store.Types.{StoreError, wrapped}
use zhi.Store.Plugin.{Act, Plugin}

pub record Replica (S V : Type 0) : Type 0 where
  pub impl : Plugin S V
  pub state : S

pub record Mirrored (S V : Type 0) : Type 0 where
  pub primary : Replica S V
  pub mirrors : List (Replica S V)

module _ {S V : Type 0} where
  unfoldable pub mirror_action :
      {Y : Type 0} → (Plugin S V → Act S Y) → List (Replica S V) → List (Replica S V)
  mirror_action fn [] = []
  mirror_action fn (r ∷ rs) = record r { state = (fn r.impl r.state).1 } ∷ mirror_action fn rs

  abbrev pub with_primary : Mirrored S V → S → Mirrored S V
  with_primary m s = record m { primary = record { impl = m.primary.impl; state = s } }

  -- return m.primary.Method(...)
  unfoldable pub delegate : {X : Type 0} → (Plugin S V → Act S X) → Act (Mirrored S V) X
  delegate op m = let (r, s) = op m.primary.impl m.primary.state in (r, with_primary m s)

  -- The primary has returned: an error is wrapped, or the mirrors follow.
  unfoldable pub follow :
      {X Y : Type 0}
      → Text
      → (Plugin S V → Act S Y)
      → Mirrored S V
      → Result StoreError X
      → S
      → Result StoreError X × Mirrored S V
  unfolding mirror_action
  follow message fn m (ok x) s =
      (ok x, record (with_primary m s) { mirrors = mirror_action fn m.mirrors })
  follow message fn m (err e) s = (err (wrapped message e), with_primary m s)

  -- A method of the primary, and what the mirrors do behind it.
  unfoldable pub forward :
      {X Y : Type 0} → Text → (Plugin S V → Act S X) → (Plugin S V → Act S Y) → Act (Mirrored S V) X
  unfolding follow
  forward message op fn m =
      let (r, s) = op m.primary.impl m.primary.state in follow message fn m r s

  unfoldable pub mirrored_plugin : Plugin (Mirrored S V) V
  unfolding delegate forward
  mirrored_plugin = record {
    capabilities =
        forward (bytes "mirrored primary capabilities") (λ p. p.capabilities) (λ p. p.capabilities);
    auth_methods = delegate (λ p. p.auth_methods);
    login = λ method creds. delegate (λ p. p.login method creds);
    login_interactive = λ method params. delegate (λ p. p.login_interactive method params);
    login_interactive_callback =
        λ challenge params. delegate (λ p. p.login_interactive_callback challenge params);
    list_trees = delegate (λ p. p.list_trees);
    delete_tree = λ id.
        forward (bytes "mirrored primary delete tree") (λ p. p.delete_tree id)
          (λ p. p.delete_tree id);
    get_values = λ id paths. delegate (λ p. p.get_values id paths);
    put_values = λ id values opts.
        forward (bytes "mirrored primary put values") (λ p. p.put_values id values opts)
          (λ p. p.put_values id values none);
    delete_values = λ id paths.
        forward (bytes "mirrored primary delete values") (λ p. p.delete_values id paths)
          (λ p. p.delete_values id paths);
    list_tree_versions = λ id. delegate (λ p. p.list_tree_versions id);
    get_tree_version = λ id version paths. delegate (λ p. p.get_tree_version id version paths);
    rollback_tree = λ id version.
        forward (bytes "mirrored primary rollback tree") (λ p. p.rollback_tree id version)
          (λ p. p.rollback_tree id version);
    delete_tree_version = λ id version. delegate (λ p. p.delete_tree_version id version);
    list_value_versions = λ id path. delegate (λ p. p.list_value_versions id path);
    get_value_version = λ id path version. delegate (λ p. p.get_value_version id path version);
    rollback_value = λ id path version.
        forward (bytes "mirrored primary rollback value") (λ p. p.rollback_value id path version)
          (λ p. p.rollback_value id path version);
    delete_value_version =
        λ id path version. delegate (λ p. p.delete_value_version id path version);
    init_encryption = λ pass. delegate (λ p. p.init_encryption pass);
    rotate_encryption = λ old new. delegate (λ p. p.rotate_encryption old new);
    grant_access = λ id user perms. delegate (λ p. p.grant_access id user perms);
    revoke_access = λ id user paths. delegate (λ p. p.revoke_access id user paths);
    list_access = λ id. delegate (λ p. p.list_access id);
  }
