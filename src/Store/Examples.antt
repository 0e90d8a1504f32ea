-- ===== src/Store/Examples.antt =====
-- Two memory stores, one the mirror of the other.
use zhi.Common.{
  ℕ, Text, bytes, List, [], ◌∷◌, none, some, ok, ◌≡◌, refl, subst, lookup, insert, ◌==◌, delete,
  copy,
}
use zhi.Store.Plugin.{
  Call, Answer, capabilities, auth_methods, login, login_interactive, login_interactive_callback,
  list_trees, delete_tree, get_values, put_values, delete_values, list_tree_versions,
  get_tree_version, rollback_tree, delete_tree_version, list_value_versions, get_value_version,
  rollback_value, delete_value_version, init_encryption, rotate_encryption, grant_access,
  revoke_access, list_access, done, values, call, run,
}
use zhi.Store.Mirrored.{Replica, Mirrored, mirrored_plugin}
use zhi.Store.Memory.{Trees, memory_plugin, put_memory, delete_memory, drop_memory}
use zhi.Store.Refines.{relabel_all, run-mirrored_plugin}
use zhi.Store.Contract.{IsUnversioned}
use zhi.Store.Values.{memory_view}
use zhi.Store.Storing.{as_given, memory_plugin-IsStore, memory_plugin-IsUnversioned}
use zhi.Store.InSync.{InSync, sent, run-InSync}

some_injective : {A : Type 0} {a b : A} → some a ≡ some b → a ≡ b
some_injective h = cc

module _ {V : Type 0} where
  -- The memory store refuses no write.
  takes_writes :
      (c d : Call V) (s : Trees V)
      → sent c ≡ some d
      → (a : Answer V) × ((call memory_plugin d s).0 ≡ ok a)
  unfolding call memory_plugin put_memory delete_memory drop_memory
  takes_writes (put_values id vs opts) d s h =
      subst (λ x. (a : Answer V) × ((call memory_plugin x s).0 ≡ ok a)) (some_injective h)
        (done, refl)
  takes_writes (delete_values id paths) d s h =
      subst (λ x. (a : Answer V) × ((call memory_plugin x s).0 ≡ ok a)) (some_injective h)
        (done, refl)
  takes_writes (delete_tree id) d s h =
      subst (λ x. (a : Answer V) × ((call memory_plugin x s).0 ≡ ok a)) (some_injective h)
        (done, refl)
  takes_writes capabilities d s h = absurd (cc)
  takes_writes auth_methods d s h = absurd (cc)
  takes_writes list_trees d s h = absurd (cc)
  takes_writes (login x y) d s h = absurd (cc)
  takes_writes (login_interactive x y) d s h = absurd (cc)
  takes_writes (login_interactive_callback x y) d s h = absurd (cc)
  takes_writes (list_tree_versions id) d s h = absurd (cc)
  takes_writes (list_access id) d s h = absurd (cc)
  takes_writes (init_encryption id) d s h = absurd (cc)
  takes_writes (get_values id paths) d s h = absurd (cc)
  takes_writes (get_tree_version id ver paths) d s h = absurd (cc)
  takes_writes (list_value_versions id p) d s h = absurd (cc)
  takes_writes (rotate_encryption old new) d s h = absurd (cc)
  takes_writes (get_value_version id p ver) d s h = absurd (cc)
  takes_writes (grant_access id user perms) d s h = absurd (cc)
  takes_writes (revoke_access id user paths) d s h = absurd (cc)
  takes_writes (rollback_tree id ver) d s h = absurd (cc)
  takes_writes (rollback_value id p ver) d s h = absurd (cc)
  takes_writes (delete_tree_version id ver) d s h = absurd (cc)
  takes_writes (delete_value_version id p ver) d s h = absurd (cc)

abbrev home : Text
home = bytes "home"

abbrev host : Text
host = bytes "db/host"

abbrev port : Text
port = bytes "db/port"

abbrev replica : Replica (Trees ℕ) ℕ
replica = record { impl = memory_plugin; state = [] }

abbrev pair : Mirrored (Trees ℕ) ℕ
pair = record { primary = replica; mirrors = replica ∷ [] }

abbrev calls : List (Call ℕ)
calls =
    put_values home ((host, 1) ∷ (port, 2) ∷ []) none
    ∷ delete_values home (port ∷ [])
    ∷ get_values home (host ∷ port ∷ [])
    ∷ []

-- The last call returns the value that is left.
run_test :
    (run mirrored_plugin calls pair).0 ≡ ok done ∷ ok done ∷ ok (values ((host, 1) ∷ [])) ∷ []
unfolding run call mirrored_plugin memory_plugin lookup insert ◌==◌ delete copy
run_test = refl

run-mirrored_plugin_example :
    ((run mirrored_plugin calls pair).0 ≡ relabel_all calls (run memory_plugin calls []).0)
    × (Mirrored.primary (run mirrored_plugin calls pair).1
        ≡ record { impl = memory_plugin; state = (run memory_plugin calls []).1 })
run-mirrored_plugin_example = run-mirrored_plugin calls pair

pair-InSync : InSync as_given memory_view pair
pair-InSync = (
  memory_plugin-IsStore,
  (
    record {
      view = memory_view;
      law = memory_plugin-IsStore;
      accepts = takes_writes;
      same = λ id path. refl;
    },
    tt,
  ),
)

run-InSync_example : InSync as_given memory_view (run mirrored_plugin calls pair).1
run-InSync_example =
    run-InSync as_given memory_view calls pair (refl, (refl, (refl, tt))) pair-InSync

memory_plugin-IsUnversioned_example :
    IsUnversioned (memory_plugin {V = ℕ}) as_given memory_view (λ c. Unit {0})
memory_plugin-IsUnversioned_example = memory_plugin-IsUnversioned
