-- ===== src/Store/Plugin.antt =====
-- The interface `Plugin` of pkg/zhiplugin/store/plugin.go: each method on the state of the plugin,
-- which comes back on an error too. Contexts are left out.
use zhi.Common.{Text, List, [], ◌∷◌, Option, Result, ok, err, Map}
use zhi.Session.Manager.{Credentials}
use zhi.Store.Types.{
  StoreError, Capabilities, AuthMethod, InteractiveChallenge, PutOptions, Permission,
}

-- A method call: its result, and the state behind it.
abbrev pub Act : Type 0 → Type 0 → Type 0
Act S X = S → Result StoreError X × S

pub record Plugin (S V : Type 0) : Type 0 where
  pub capabilities : Act S Capabilities
  pub auth_methods : Act S (List AuthMethod)
  pub login : Text → Map Text → Act S Credentials
  pub login_interactive : Text → Map Text → Act S InteractiveChallenge
  pub login_interactive_callback : Text → Map Text → Act S Credentials
  pub list_trees : Act S (List Text)
  pub delete_tree : Text → Act S (Unit {0})
  pub get_values : Text → List Text → Act S (Map V)
  pub put_values : Text → Map V → Option PutOptions → Act S (Unit {0})
  pub delete_values : Text → List Text → Act S (Unit {0})
  pub list_tree_versions : Text → Act S (List Text)
  pub get_tree_version : Text → Text → List Text → Act S (Map V)
  pub rollback_tree : Text → Text → Act S (Unit {0})
  pub delete_tree_version : Text → Text → Act S (Unit {0})
  pub list_value_versions : Text → Text → Act S (List Text)
  pub get_value_version : Text → Text → Text → Act S (Option V)
  pub rollback_value : Text → Text → Text → Act S (Unit {0})
  pub delete_value_version : Text → Text → Text → Act S (Unit {0})
  pub init_encryption : Text → Act S (Unit {0})
  pub rotate_encryption : Text → Text → Act S (Unit {0})
  pub grant_access : Text → Text → List Permission → Act S (Unit {0})
  pub revoke_access : Text → Text → List Text → Act S (Unit {0})
  pub list_access : Text → Act S (Map (List Permission))

-- A method with its arguments.
pub data Call (V : Type 0) : Type 0 where
  capabilities auth_methods list_trees : Call V
  login login_interactive login_interactive_callback : Text → Map Text → Call V
  delete_tree list_tree_versions list_access init_encryption : Text → Call V
  get_values delete_values : Text → List Text → Call V
  put_values : Text → Map V → Option PutOptions → Call V
  get_tree_version : Text → Text → List Text → Call V
  rollback_tree delete_tree_version list_value_versions rotate_encryption : Text → Text → Call V
  get_value_version rollback_value delete_value_version : Text → Text → Text → Call V
  grant_access : Text → Text → List Permission → Call V
  revoke_access : Text → Text → List Text → Call V

-- What a method returns.
pub data Answer (V : Type 0) : Type 0 where
  done : Answer V
  caps : Capabilities → Answer V
  methods : List AuthMethod → Answer V
  credentials : Credentials → Answer V
  challenge : InteractiveChallenge → Answer V
  names : List Text → Answer V
  values : Map V → Answer V
  value : Option V → Answer V
  access : Map (List Permission) → Answer V

-- The answer that a result stands for.
abbrev pub answer :
    {X V : Type 0} → (X → Answer V) → Result StoreError X → Result StoreError (Answer V)
answer f (ok x) = ok (f x)
answer f (err e) = err e

abbrev pub answered : {X V S : Type 0} → (X → Answer V) → Act S X → Act S (Answer V)
answered f m s = (answer f (m s).0, (m s).1)

module _ {S V : Type 0} (p : Plugin S V) where
  unfoldable pub call : Call V → Act S (Answer V)
  call capabilities = answered caps p.capabilities
  call auth_methods = answered methods p.auth_methods
  call list_trees = answered names p.list_trees
  call (login m c) = answered credentials (p.login m c)
  call (login_interactive m c) = answered challenge (p.login_interactive m c)
  call (login_interactive_callback i c) = answered credentials (p.login_interactive_callback i c)
  call (delete_tree id) = answered (λ u. done) (p.delete_tree id)
  call (list_tree_versions id) = answered names (p.list_tree_versions id)
  call (list_access id) = answered access (p.list_access id)
  call (init_encryption pass) = answered (λ u. done) (p.init_encryption pass)
  call (get_values id paths) = answered values (p.get_values id paths)
  call (delete_values id paths) = answered (λ u. done) (p.delete_values id paths)
  call (put_values id vs opts) = answered (λ u. done) (p.put_values id vs opts)
  call (get_tree_version id ver paths) = answered values (p.get_tree_version id ver paths)
  call (rollback_tree id ver) = answered (λ u. done) (p.rollback_tree id ver)
  call (delete_tree_version id ver) = answered (λ u. done) (p.delete_tree_version id ver)
  call (list_value_versions id path) = answered names (p.list_value_versions id path)
  call (rotate_encryption old new) = answered (λ u. done) (p.rotate_encryption old new)
  call (get_value_version id path ver) = answered value (p.get_value_version id path ver)
  call (rollback_value id path ver) = answered (λ u. done) (p.rollback_value id path ver)
  call (delete_value_version id path ver) =
      answered (λ u. done) (p.delete_value_version id path ver)
  call (grant_access id user perms) = answered (λ u. done) (p.grant_access id user perms)
  call (revoke_access id user paths) = answered (λ u. done) (p.revoke_access id user paths)

  -- The answers to a sequence of calls, and the state behind it.
  unfoldable pub run : List (Call V) → S → List (Result StoreError (Answer V)) × S
  run [] s = ([], s)
  run (c ∷ cs) s = let (r, s') = call c s in let (rs, s'') = run cs s' in (r ∷ rs, s'')
