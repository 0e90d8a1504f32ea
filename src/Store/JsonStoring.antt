-- ===== src/Store/JsonStoring.antt =====
-- The file store keeps the contract of a store without versions, whichever calls of the disk fail.
use zhi.Common.{Text, bytes, List, Option, Result, ok, err, ◌≡◌, refl, ap, inl, inr, Result-cases}
use zhi.Store.Types.{StoreError}
use zhi.Store.Plugin.{
  Call, Answer, capabilities, auth_methods, login, login_interactive, login_interactive_callback,
  list_trees, delete_tree, get_values, put_values, delete_values, list_tree_versions,
  get_tree_version, rollback_tree, delete_tree_version, list_value_versions, get_value_version,
  rollback_value, delete_value_version, init_encryption, rotate_encryption, grant_access,
  revoke_access, list_access, call, answer, done, names, values,
}
use zhi.Store.Contract.{View, IsUnversioned, effect, on_ok}
use zhi.Store.Disk.{Os, Codec, IsOs, IsCodec, HasValidKeys}
use zhi.Store.Json.{
  read_entries, json_delete_tree, json_get_values, json_put_values, json_delete_values,
  json_list_trees, json_capabilities, json_plugin,
}
use zhi.Store.JsonView.{json_view, by_file}
use zhi.Store.JsonMethods.{put_json, delete_json, drop_json, reads_json}

module _ {D N V : Type 0} (os : Os D N) (codec : Codec N V) (dir : Text)
    (content : D → Text → Option N) where
  abbrev view : D → View V
  view = json_view os codec dir content

  -- A call that puts no value at a path that is not valid UTF-8.
  abbrev pub HasValidPaths : Call V → Type 0
  HasValidPaths (put_values id vs opts) = HasValidKeys codec vs
  HasValidPaths _ = Unit

  module _ (norm : V → V) (disk : IsOs os content) (coding : IsCodec codec norm) where
    lifted :
        (f : Unit {0} → Answer V) (p : Result StoreError (Unit {0}) × D) (tree path : Text)
        (new old : Option V)
        → view p.1 tree path ≡ on_ok p.0 new old
        → view p.1 tree path ≡ on_ok (answer f p.0) new old
    lifted f (ok u, d) tree path new old h = h
    lifted f (err e, d) tree path new old h = h

    -- A read leaves the disk as it is.
    json_get_values-disk :
        (id : Text) (ps : List Text) (d : D) → (json_get_values os codec dir id ps d).1 ≡ d
    unfolding json_get_values
    json_get_values-disk id ps d = elim (Result-cases (read_entries os codec dir id d)) [
      | inr (e, failed) ↦ rw (failed, json_get_values) refl
      | inl (o, read) ↦ rw (read, json_get_values) refl
    ]

    json_list_trees-disk : (d : D) → (json_list_trees os codec dir d).1 ≡ d
    unfolding json_list_trees
    json_list_trees-disk d = elim (Result-cases (os.glob (os.join dir (bytes "*.json")) d)) [
      | inr (e, failed) ↦ rw (failed, json_list_trees) refl
      | inl (matches, found) ↦ rw (found, json_list_trees) refl
    ]

    quiet_view :
        {X : Type 0} (r : Result StoreError X) (d d' : D) (tree path : Text)
        → d' ≡ d
        → view d' tree path ≡ on_ok r (view d tree path) (view d tree path)
    quiet_view (ok x) d d' tree path same = ap (λ x. view x tree path) same
    quiet_view (err e) d d' tree path same = ap (λ x. view x tree path) same

    writes_json :
        (c : Call V) (d : D) (tree path : Text)
        → HasValidPaths c
        → view (call (json_plugin os codec dir) c d).1 tree path
          ≡ on_ok
              (call (json_plugin os codec dir) c d).0
              (effect (by_file os codec dir content norm) c (view d) tree path)
              (view d tree path)
    unfolding call json_plugin json_capabilities
    writes_json (delete_tree id) d tree path fit =
        lifted (λ u. done) (json_delete_tree os codec dir id d) tree path _ _
          (drop_json os codec dir content norm disk coding id d tree path)
    writes_json (delete_values id paths) d tree path fit =
        lifted (λ u. done) (json_delete_values os codec dir id paths d) tree path _ _
          (delete_json os codec dir content norm disk coding id paths d tree path)
    writes_json (put_values id vs opts) d tree path fit =
        lifted (λ u. done) (json_put_values os codec dir id vs d) tree path _ _
          (put_json os codec dir content norm disk coding id vs d tree path fit)
    writes_json list_trees d tree path fit =
        quiet_view (answer {V = V} names (json_list_trees os codec dir d).0) d _ tree path
          (json_list_trees-disk d)
    writes_json (get_values id paths) d tree path fit =
        quiet_view (answer {V = V} values (json_get_values os codec dir id paths d).0) d _ tree path
          (json_get_values-disk id paths d)
    writes_json capabilities d tree path fit = refl
    writes_json auth_methods d tree path fit = refl
    writes_json (login x y) d tree path fit = refl
    writes_json (login_interactive x y) d tree path fit = refl
    writes_json (login_interactive_callback x y) d tree path fit = refl
    writes_json (list_tree_versions id) d tree path fit = refl
    writes_json (list_access id) d tree path fit = refl
    writes_json (init_encryption id) d tree path fit = refl
    writes_json (get_tree_version id ver paths) d tree path fit = refl
    writes_json (rollback_tree id ver) d tree path fit = refl
    writes_json (delete_tree_version id ver) d tree path fit = refl
    writes_json (list_value_versions id ver) d tree path fit = refl
    writes_json (rotate_encryption id ver) d tree path fit = refl
    writes_json (get_value_version id p ver) d tree path fit = refl
    writes_json (rollback_value id p ver) d tree path fit = refl
    writes_json (delete_value_version id p ver) d tree path fit = refl
    writes_json (grant_access id user perms) d tree path fit = refl
    writes_json (revoke_access id user paths) d tree path fit = refl

    -- Over a disk whose calls keep to the documentation of their packages, and any of which may
    -- fail, and a coding that behind valid keys gives back a value as `norm` of it; trees with the
    -- same file are one tree. Of all 23 calls of the file store, except a PutValues at a path that
    -- is not valid UTF-8: a call that fails, at whatever step, keeps all values; PutValues,
    -- DeleteValues and DeleteTree change exactly the values that they name; no other call changes a
    -- value. RollbackTree, RollbackValue, DeleteTreeVersion and DeleteValueVersion always fail.
    -- GetValues returns the values of a tree at those of the paths asked for that have one, each
    -- path once.
    pub json_plugin-IsUnversioned :
        IsUnversioned
          (json_plugin os codec dir)
          (by_file os codec dir content norm)
          (json_view os codec dir content)
          HasValidPaths
    unfolding json_plugin json_get_values call
    json_plugin-IsUnversioned = record {
      writes = writes_json;
      reads = reads_json os codec dir content norm disk coding;
      rollback_tree_refused = λ id ver d. (_, refl);
      rollback_value_refused = λ id path ver d. (_, refl);
      delete_tree_version_refused = λ id ver d. (_, refl);
      delete_value_version_refused = λ id path ver d. (_, refl);
    }
