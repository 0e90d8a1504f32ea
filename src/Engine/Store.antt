-- ===== src/Engine/Store.antt =====
-- The other methods of the engine of internal/core/engine.go: Validate, ValidatePath, SetValue,
-- SaveTree, and those that only pass a call on to the store.
use zhi.Common.{
  Text, List, [], ◌∷◌, ◌++◌, map, Option, none, some, Result, ok, err, ◌>>=◌, Map, insert,
}
use zhi.Config.Tree.{Tree, get, list, reader}
use zhi.Config.Path.{validate_path}
use zhi.Component.Manager.{ComponentError, validate_dependencies}
use zhi.Store.Types.{Capabilities, StoreError}
use zhi.Store.Plugin.{Act, Plugin}
use zhi.Engine.State.{
  Host, Engine, EngineError, Method, no_store, validating, invalid_path, config_error, store_error,
  with_store, tree_id,
}

-- Config results, and the dependency errors of the components.
pub data Finding (R : Type 0) : Type 0 where
  config_finding : R → Finding R
  component_finding : ComponentError → Finding R

abbrev pub from_store : {E X : Type 0} → Result StoreError X → Result (EngineError E) X
from_store (ok x) = ok x
from_store (err x) = err (store_error x)

module _ {V : Type 0} where
  -- The values of SaveTree, from those so far.
  unfoldable pub extract : Tree V → List Text → Map V → Map V
  extract tree [] values = values
  extract tree (path ∷ paths) values =
      extract tree paths (elim (get tree path) [ none ↦ values | some v ↦ insert path v values ])

module _ {C S V R E : Type 0} where
  unfoldable pub validate_paths :
      Engine C S V R E → Tree V → List Text → Result (EngineError E) (List R)
  validate_paths e tree [] = ok []
  validate_paths e tree (path ∷ paths) =
      elim (e.config_plugin.validate e.config_state path (reader tree)) [
        | err x ↦ err (validating path x)
        | ok results ↦ do rest ← validate_paths e tree paths; ok (results ++ rest)
      ]

  unfoldable pub validate : Engine C S V R E → Tree V → Result (EngineError E) (List (Finding R))
  unfolding validate_paths
  validate e tree = do
    results ← validate_paths e tree (list tree)
    ok (map config_finding results ++ map component_finding (validate_dependencies e.components))

  unfoldable pub validate_at : Engine C S V R E → Text → Tree V → Result (EngineError E) (List R)
  validate_at e path tree = elim (get tree path) [
    | none ↦ ok []
    | some v ↦ elim (e.config_plugin.validate e.config_state path (reader tree)) [
      | err x ↦ err (config_error x)
      | ok results ↦ ok results
    ]
  ]

  unfoldable pub set_value : Text → V → Method C S V R E (Unit {0})
  set_value path v e = elim (validate_path path) [
    | err x ↦ (err (invalid_path x), e)
    | ok _ ↦ elim (e.config_plugin.set e.config_state path v) [
      | err x ↦ (err (config_error x), e)
      | ok st ↦ (ok tt, record e { config_state = st })
    ]
  ]

  -- A call of the store, or the error of an engine without one.
  unfoldable pub with_store_plugin : {X : Type 0} → (Plugin S V → Act S X) → Method C S V R E X
  unfolding with_store
  with_store_plugin op e = elim e.store [
    | none ↦ (err no_store, e)
    | some r ↦ let (x, s) = op r.impl r.state in (from_store x, with_store e r s)
  ]

  unfoldable pub save_tree : {F O : Type 0} → Host F O → Tree V → Method C S V R E (Unit {0})
  unfolding extract with_store_plugin tree_id
  save_tree host tree e =
      with_store_plugin (λ p. p.put_values (tree_id host e) (extract tree (list tree) []) none) e

  -- The methods that only pass a call on.
  unfoldable pub list_trees : Method C S V R E (List Text)
  unfolding with_store_plugin
  list_trees = with_store_plugin (λ p. p.list_trees)

  unfoldable pub store_capabilities : Method C S V R E Capabilities
  unfolding with_store_plugin
  store_capabilities = with_store_plugin (λ p. p.capabilities)

  unfoldable pub delete_tree : Text → Method C S V R E (Unit {0})
  unfolding with_store_plugin
  delete_tree id = with_store_plugin (λ p. p.delete_tree id)

  unfoldable pub delete_values : Text → List Text → Method C S V R E (Unit {0})
  unfolding with_store_plugin
  delete_values id paths = with_store_plugin (λ p. p.delete_values id paths)

  unfoldable pub list_tree_versions : Text → Method C S V R E (List Text)
  unfolding with_store_plugin
  list_tree_versions id = with_store_plugin (λ p. p.list_tree_versions id)

  unfoldable pub rollback_tree : Text → Text → Method C S V R E (Unit {0})
  unfolding with_store_plugin
  rollback_tree id version = with_store_plugin (λ p. p.rollback_tree id version)

  unfoldable pub delete_tree_version : Text → Text → Method C S V R E (Unit {0})
  unfolding with_store_plugin
  delete_tree_version id version = with_store_plugin (λ p. p.delete_tree_version id version)

  unfoldable pub list_value_versions : Text → Text → Method C S V R E (List Text)
  unfolding with_store_plugin
  list_value_versions id path = with_store_plugin (λ p. p.list_value_versions id path)

  unfoldable pub get_value_version : Text → Text → Text → Method C S V R E (Option V)
  unfolding with_store_plugin
  get_value_version id path version = with_store_plugin (λ p. p.get_value_version id path version)

  unfoldable pub rollback_value : Text → Text → Text → Method C S V R E (Unit {0})
  unfolding with_store_plugin
  rollback_value id path version = with_store_plugin (λ p. p.rollback_value id path version)

  unfoldable pub delete_value_version : Text → Text → Text → Method C S V R E (Unit {0})
  unfolding with_store_plugin
  delete_value_version id path version =
      with_store_plugin (λ p. p.delete_value_version id path version)
