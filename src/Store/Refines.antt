-- ===== src/Store/Refines.antt =====
-- The mirrored plugin answers as its primary alone.
use zhi.Common.{Text, bytes, List, [], ◌∷◌, Option, none, some, Result, ok, err, ◌≡◌, refl, subst}
use zhi.Store.Types.{StoreError, wrapped}
use zhi.Store.Plugin.{
  Act, Plugin, Call, Answer, capabilities, auth_methods, login, login_interactive,
  login_interactive_callback, list_trees, delete_tree, get_values, put_values, delete_values,
  list_tree_versions, get_tree_version, rollback_tree, delete_tree_version, list_value_versions,
  get_value_version, rollback_value, delete_value_version, init_encryption, rotate_encryption,
  grant_access, revoke_access, list_access, answer, call, run,
}
use zhi.Store.Mirrored.{Replica, Mirrored, follow, mirrored_plugin}

-- The message that the mirrored plugin puts before an error of its primary, if it does.
abbrev pub message : {V : Type 0} → Call V → Option Text
message capabilities = some (bytes "mirrored primary capabilities")
message (delete_tree id) = some (bytes "mirrored primary delete tree")
message (put_values id vs opts) = some (bytes "mirrored primary put values")
message (delete_values id paths) = some (bytes "mirrored primary delete values")
message (rollback_tree id ver) = some (bytes "mirrored primary rollback tree")
message (rollback_value id path ver) = some (bytes "mirrored primary rollback value")
message _ = none

abbrev pub relabel : {X : Type 0} → Option Text → Result StoreError X → Result StoreError X
relabel none r = r
relabel (some text) (ok x) = ok x
relabel (some text) (err e) = err (wrapped text e)

-- The primary's answers, with the messages.
abbrev pub relabel_all :
    {V : Type 0}
    → List (Call V)
    → List (Result StoreError (Answer V))
    → List (Result StoreError (Answer V))
relabel_all [] rs = []
relabel_all (c ∷ cs) [] = []
relabel_all (c ∷ cs) (r ∷ rs) = relabel (message c) r ∷ relabel_all cs rs

module _ {S V : Type 0} where
  follow_lem :
      {X Y : Type 0} (f : X → Answer V) (text : Text) (fn : Plugin S V → Act S Y) (m : Mirrored S V)
      (r : Result StoreError X) (s : S)
      → (answer f (follow text fn m r s).0 ≡ relabel (some text) (answer f r))
        × (Mirrored.primary (follow text fn m r s).1 ≡ record { impl = m.primary.impl; state = s })
  unfolding follow
  follow_lem f text fn m (ok x) s = (refl, refl)
  follow_lem f text fn m (err e) s = (refl, refl)

  -- One call: the answer, and the primary behind it.
  abbrev Agrees : Call V → Mirrored S V → Type 0
  Agrees c m =
      ((call mirrored_plugin c m).0 ≡ relabel (message c) (call m.primary.impl c m.primary.state).0)
      × (Mirrored.primary (call mirrored_plugin c m).1
          ≡ record { impl = m.primary.impl; state = (call m.primary.impl c m.primary.state).1 })

  call-Agrees : (c : Call V) (m : Mirrored S V) → Agrees c m
  unfolding call mirrored_plugin
  call-Agrees capabilities m = follow_lem _ _ (λ (p : Plugin S V). p.capabilities) m _ _
  call-Agrees auth_methods m = (refl, refl)
  call-Agrees list_trees m = (refl, refl)
  call-Agrees (login x y) m = (refl, refl)
  call-Agrees (login_interactive x y) m = (refl, refl)
  call-Agrees (login_interactive_callback x y) m = (refl, refl)
  call-Agrees (delete_tree id) m = follow_lem _ _ (λ (p : Plugin S V). p.delete_tree id) m _ _
  call-Agrees (list_tree_versions id) m = (refl, refl)
  call-Agrees (list_access id) m = (refl, refl)
  call-Agrees (init_encryption id) m = (refl, refl)
  call-Agrees (get_values id paths) m = (refl, refl)
  call-Agrees (delete_values id paths) m =
      follow_lem _ _ (λ (p : Plugin S V). p.delete_values id paths) m _ _
  call-Agrees (put_values id vs opts) m =
      follow_lem _ _ (λ (p : Plugin S V). p.put_values id vs none) m _ _
  call-Agrees (get_tree_version id ver paths) m = (refl, refl)
  call-Agrees (rollback_tree id ver) m =
      follow_lem _ _ (λ (p : Plugin S V). p.rollback_tree id ver) m _ _
  call-Agrees (delete_tree_version id ver) m = (refl, refl)
  call-Agrees (list_value_versions id ver) m = (refl, refl)
  call-Agrees (rotate_encryption id ver) m = (refl, refl)
  call-Agrees (get_value_version id path ver) m = (refl, refl)
  call-Agrees (rollback_value id path ver) m =
      follow_lem _ _ (λ (p : Plugin S V). p.rollback_value id path ver) m _ _
  call-Agrees (delete_value_version id path ver) m = (refl, refl)
  call-Agrees (grant_access id user perms) m = (refl, refl)
  call-Agrees (revoke_access id user paths) m = (refl, refl)

  -- Over any sequence of calls, and whatever its mirrors do, the mirrored plugin gives the answers
  -- that its primary alone gives, an error of Capabilities or of a write with a message before it,
  -- and leaves the primary in the state in which the calls alone leave it.
  pub run-mirrored_plugin :
      (cs : List (Call V)) (m : Mirrored S V)
      → ((run mirrored_plugin cs m).0 ≡ relabel_all cs (run m.primary.impl cs m.primary.state).0)
        × (Mirrored.primary (run mirrored_plugin cs m).1
            ≡ record { impl = m.primary.impl; state = (run m.primary.impl cs m.primary.state).1 })
  unfolding run
  run-mirrored_plugin [] m = (refl, refl)
  run-mirrored_plugin (c ∷ cs) m =
      let (same, behind) = call-Agrees c m in
      let (rest, last) = run-mirrored_plugin cs (call mirrored_plugin c m).1 in
      (
        cc (
          same,
          subst
              (λ (r : Replica S V).
                (run mirrored_plugin cs (call mirrored_plugin c m).1).0
                ≡ relabel_all cs (run r.impl cs r.state).0)
              behind rest,
        ),
        subst
            (λ (r : Replica S V).
              Mirrored.primary (run mirrored_plugin cs (call mirrored_plugin c m).1).1
              ≡ record { impl = r.impl; state = (run r.impl cs r.state).1 })
            behind last,
      )
