-- ===== src/Store/InSync.antt =====
-- Mirrors that take every write hold the values of their primary.
use zhi.Common.{
  Text, true, List, [], ◌∷◌, Option, none, some, Result, ok, err, ◌≡◌, refl, subst, ap, All, ◌∙◌,
  sym,
}
use zhi.Store.Types.{StoreError}
use zhi.Store.Plugin.{
  Act, Plugin, Call, Answer, capabilities, auth_methods, login, login_interactive,
  login_interactive_callback, list_trees, delete_tree, get_values, put_values, delete_values,
  list_tree_versions, get_tree_version, rollback_tree, delete_tree_version, list_value_versions,
  get_value_version, rollback_value, delete_value_version, init_encryption, rotate_encryption,
  grant_access, revoke_access, list_access, answer, call, run, done, caps,
}
use zhi.Store.Mirrored.{
  Replica, Mirrored, mirror_action, delegate, follow, forward, with_primary, mirrored_plugin,
}
use zhi.Store.Contract.{Keeping, View, IsStore, effect, is_plain, on_ok, on_ok-same, effect-same}

-- What a mirror is sent when its primary has taken the call.
abbrev pub sent : {V : Type 0} → Call V → Option (Call V)
sent (put_values id vs opts) = some (put_values id vs none)
sent (delete_values id paths) = some (delete_values id paths)
sent (delete_tree id) = some (delete_tree id)
sent _ = none

module _ {S V : Type 0} (k : Keeping V) where
  -- A replica that keeps the contract, refuses no write that a mirror is sent, and has these
  -- values.
  pub record Holds (w : View V) (r : Replica S V) : Type 0 where
    pub view : S → View V
    pub law : IsStore r.impl k view
    pub accepts :
        (c d : Call V) (s : S) → sent c ≡ some d → (a : Answer V) × ((call r.impl d s).0 ≡ ok a)
    pub same : (id path : Text) → view r.state id path ≡ w id path

  -- The primary keeps the contract, and every mirror has its values.
  abbrev pub InSync : (S → View V) → Mirrored S V → Type 0
  InSync view m = IsStore m.primary.impl k view × All (Holds (view m.primary.state)) m.mirrors

  Holds-same :
      {w w' : View V}
      → ((id path : Text) → w id path ≡ w' id path)
      → (rs : List (Replica S V)) → All (Holds w) rs
      → All (Holds w') rs
  Holds-same e [] h = tt
  Holds-same e (r ∷ rs) (h, hs) = (
    record {
      view = h.view;
      law = h.law;
      accepts = h.accepts;
      same = λ id path. h.same id path ∙ e id path;
    },
    Holds-same e rs hs,
  )

  -- A mirror that is sent a write takes it.
  takes :
      {w : View V} (c d : Call V) (r : Replica S V)
      → sent c ≡ some d
      → is_plain d ≡ true
      → ((u : View V) (id path : Text) → effect k d u id path ≡ effect k c u id path)
      → Holds w r
      → Holds (effect k c w) (record { impl = r.impl; state = (call r.impl d r.state).1 })
  takes {w} c d r e plain like h = record {
    view = h.view;
    law = h.law;
    accepts = h.accepts;
    same = λ id path.
        let (a, ok') = h.accepts c d r.state e in
        let after : h.view (call r.impl d r.state).1 id path ≡ effect k d (h.view r.state) id path =
          subst
            (λ (x : Result StoreError (Answer V)).
              h.view (call r.impl d r.state).1 id path
              ≡ on_ok x (effect k d (h.view r.state) id path) (h.view r.state id path))
            ok' (h.law.writes d r.state id path plain) in
        after ∙ effect-same k d (h.view r.state) w h.same id path ∙ like w id path;
  }

  -- A replica whose values stay.
  same_values :
      {w : View V} (r : Replica S V) (s : S) (h : Holds w r)
      → ((id path : Text) → h.view s id path ≡ h.view r.state id path)
      → Holds w (record { impl = r.impl; state = s })
  same_values r s h stay = record {
    view = h.view;
    law = h.law;
    accepts = h.accepts;
    same = λ id path. stay id path ∙ h.same id path;
  }

  mirror_action-Holds :
      {Y : Type 0} {w w' : View V} (fn : Plugin S V → Act S Y)
      → ((r : Replica S V)
          → Holds w r
          → Holds w' (record { impl = r.impl; state = (fn r.impl r.state).1 }))
      → (rs : List (Replica S V)) → All (Holds w) rs
      → All (Holds w') (mirror_action fn rs)
  unfolding mirror_action
  mirror_action-Holds fn step [] h = tt
  mirror_action-Holds fn step (r ∷ rs) (h, hs) = (step r h, mirror_action-Holds fn step rs hs)

  -- The primary has returned, and the mirrors follow.
  follow-InSync :
      {X Y : Type 0} (f : X → Answer V) (view : S → View V) (text : Text)
      (fn : Plugin S V → Act S Y) (c : Call V) (m : Mirrored S V) (r : Result StoreError X) (s : S)
      → ((id path : Text)
          → view s id path
            ≡ on_ok
                (answer f r)
                (effect k c (view m.primary.state) id path)
                (view m.primary.state id path))
      → ((w : View V) (r' : Replica S V)
          → Holds w r'
          → Holds (effect k c w) (record { impl = r'.impl; state = (fn r'.impl r'.state).1 }))
      → InSync view m
      → InSync view (follow text fn m r s).1
  unfolding follow
  follow-InSync f view text fn c m (ok x) s after step (law, hs) = (
    law,
    Holds-same (λ id path. sym (after id path)) (mirror_action fn m.mirrors)
        (mirror_action-Holds fn (step (view m.primary.state)) m.mirrors hs),
  )
  follow-InSync f view text fn c m (err e) s after step (law, hs) =
      (law, Holds-same (λ id path. sym (after id path)) m.mirrors hs)

  -- A call that has no effect and reaches the primary alone.
  delegate-InSync :
      (view : S → View V) (m : Mirrored S V) (s : S)
      → ((id path : Text) → view s id path ≡ view m.primary.state id path)
      → InSync view m
      → InSync view (with_primary m s)
  delegate-InSync view m s after (law, hs) =
      (law, Holds-same (λ id path. sym (after id path)) m.mirrors hs)

  -- A read reaches the primary alone, and no replica's values change under it.
  quiet :
      (view : S → View V) (c : Call V) (m : Mirrored S V)
      → is_plain c ≡ true
      → ((id path : Text)
          → effect k c (view m.primary.state) id path ≡ view m.primary.state id path)
      → InSync view m
      → InSync view (with_primary m (call m.primary.impl c m.primary.state).1)
  quiet view c m plain none' h =
      delegate-InSync view m _
        (λ id path.
          h.0.writes c m.primary.state id path plain
          ∙ ap
              (λ x.
                on_ok (call m.primary.impl c m.primary.state).0 x (view m.primary.state id path))
              (none' id path)
          ∙ on_ok-same _ _)
        h

  call-InSync :
      (view : S → View V) (c : Call V) (m : Mirrored S V)
      → is_plain c ≡ true
      → InSync view m
      → InSync view (call mirrored_plugin c m).1
  unfolding call mirrored_plugin forward delegate
  call-InSync view capabilities m plain h =
      follow-InSync caps view _ (λ (p : Plugin S V). p.capabilities) capabilities m _ _
        (λ t path. h.0.writes capabilities m.primary.state t path refl)
        (λ w r k.
          same_values r (call r.impl capabilities r.state).1 k
            (λ t path. k.law.writes capabilities r.state t path refl ∙ on_ok-same _ _))
        h
  call-InSync view (delete_tree id) m plain h =
      follow-InSync (λ u. done) view _ (λ (p : Plugin S V). p.delete_tree id) (delete_tree id) m _ _
        (λ t path. h.0.writes (delete_tree id) m.primary.state t path refl)
        (λ w r k. takes (delete_tree id) (delete_tree id) r refl refl (λ u t path. refl) k) h
  call-InSync view (delete_values id paths) m plain h =
      follow-InSync (λ u. done) view _ (λ (p : Plugin S V). p.delete_values id paths)
        (delete_values id paths) m _ _
        (λ t path. h.0.writes (delete_values id paths) m.primary.state t path refl)
        (λ w r k.
          takes (delete_values id paths) (delete_values id paths) r refl refl (λ u t path. refl) k)
        h
  call-InSync view (put_values id vs opts) m plain h =
      follow-InSync (λ u. done) view _ (λ (p : Plugin S V). p.put_values id vs none)
        (put_values id vs opts) m _ _
        (λ t path. h.0.writes (put_values id vs opts) m.primary.state t path refl)
        (λ w r k.
          takes (put_values id vs opts) (put_values id vs none) r refl refl (λ u t path. refl) k)
        h
  call-InSync view (rollback_tree id ver) m plain h = absurd (cc)
  call-InSync view (rollback_value id p ver) m plain h = absurd (cc)
  call-InSync view (delete_tree_version id ver) m plain h = absurd (cc)
  call-InSync view (delete_value_version id p ver) m plain h = absurd (cc)
  call-InSync view auth_methods m plain h = quiet view auth_methods m refl (λ id path. refl) h
  call-InSync view list_trees m plain h = quiet view list_trees m refl (λ id path. refl) h
  call-InSync view (login x y) m plain h = quiet view (login x y) m refl (λ id path. refl) h
  call-InSync view (login_interactive x y) m plain h =
      quiet view (login_interactive x y) m refl (λ id path. refl) h
  call-InSync view (login_interactive_callback x y) m plain h =
      quiet view (login_interactive_callback x y) m refl (λ id path. refl) h
  call-InSync view (list_tree_versions id) m plain h =
      quiet view (list_tree_versions id) m refl (λ id path. refl) h
  call-InSync view (list_access id) m plain h =
      quiet view (list_access id) m refl (λ id path. refl) h
  call-InSync view (init_encryption id) m plain h =
      quiet view (init_encryption id) m refl (λ id path. refl) h
  call-InSync view (get_values id paths) m plain h =
      quiet view (get_values id paths) m refl (λ id path. refl) h
  call-InSync view (get_tree_version id ver paths) m plain h =
      quiet view (get_tree_version id ver paths) m refl (λ id path. refl) h
  call-InSync view (list_value_versions id p) m plain h =
      quiet view (list_value_versions id p) m refl (λ id path. refl) h
  call-InSync view (rotate_encryption old new) m plain h =
      quiet view (rotate_encryption old new) m refl (λ id path. refl) h
  call-InSync view (get_value_version id p ver) m plain h =
      quiet view (get_value_version id p ver) m refl (λ id path. refl) h
  call-InSync view (grant_access id user perms) m plain h =
      quiet view (grant_access id user perms) m refl (λ id path. refl) h
  call-InSync view (revoke_access id user paths) m plain h =
      quiet view (revoke_access id user paths) m refl (λ id path. refl) h

  -- Every mirror of a mirrored plugin that has the values of the primary has them again behind any
  -- sequence of calls that leave versions alone, where the primary and the mirrors keep the
  -- contract of a store, and no mirror refuses a write that it is sent; the primary may refuse any.
  pub run-InSync :
      (view : S → View V) (cs : List (Call V)) (m : Mirrored S V)
      → All (λ c. is_plain c ≡ true) cs
      → InSync view m
      → InSync view (run mirrored_plugin cs m).1
  unfolding run
  run-InSync view [] m plain h = h
  run-InSync view (c ∷ cs) m (p, ps) h =
      run-InSync view cs (call mirrored_plugin c m).1 ps (call-InSync view c m p h)
