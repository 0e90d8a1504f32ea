-- ===== src/Store/Json.antt =====
-- pkg/providers/store/jsonfile/jsonfile.go: the store that keeps each tree in a file.
use zhi.Common.{
  Text, bytes, false, List, [], ◌∷◌, map, Option, none, some, Result, ok, err, Map, insert, delete,
  lookup, if◌then◌else◌, ◌==◌,
}
use zhi.Store.Types.{
  Capabilities, StoreError, versioning_none, encryption_none, not_supported, failure,
}
use zhi.Store.Plugin.{Act, Plugin}
use zhi.Store.Disk.{OsError, not_exist, os_error, Io, Os, Codec, json_name, temp_pattern}

-- errors of the packages, as they are returned
abbrev pub from_os : OsError → StoreError
from_os not_exist = failure (bytes "file does not exist")
from_os (os_error text) = failure text

abbrev pub returned : {X D : Type 0} → Result OsError X × D → Result StoreError X × D
returned (ok x, d) = (ok x, d)
returned (err e, d) = (err (from_os e), d)

-- if err != nil { return err }
abbrev pub next : {X Y D : Type 0} → Result OsError X × D → (X → Io D Y) → Result OsError Y × D
next (ok x, d) k = k x d
next (err e, d) k = (err e, d)

-- strings.TrimSuffix(name, ".json")
unfoldable pub trim_suffix : Text → Text → Text
trim_suffix suffix [] = []
trim_suffix suffix (c ∷ cs) =
    let rest = trim_suffix suffix cs in if (c ∷ cs) == suffix then [] else c ∷ rest

-- for p, v := range values { entries[p] = &v }
unfoldable pub put_entries : {V : Type 0} → Map V → Map (Option V) → Map (Option V)
put_entries [] entries = entries
put_entries ((p, v) ∷ values) entries = put_entries values (insert p (some v) entries)

unfoldable pub delete_entries : {V : Type 0} → List Text → Map (Option V) → Map (Option V)
delete_entries [] entries = entries
delete_entries (p ∷ ps) entries = delete_entries ps (delete p entries)

-- v, ok := entries[p]; ok && v != nil
abbrev pub flat : {V : Type 0} → Option (Option V) → Option V
flat none = none
flat (some o) = o

-- The loop of GetValues, with its result so far.
unfoldable pub pick_entries : {V : Type 0} → Map (Option V) → List Text → Map V → Map V
pick_entries entries [] result = result
pick_entries entries (p ∷ ps) result =
    pick_entries entries ps
      (elim (flat (lookup p entries)) [ none ↦ result | some v ↦ insert p v result ])

-- return &store.ErrNotSupported{Feature: feature}
abbrev pub lacks : {D X : Type 0} → Text → Act D X
lacks feature d = (err (not_supported feature), d)

unfoldable pub picked_of : {V : Type 0} → List Text → Option (Map (Option V)) → Map V
unfolding pick_entries
picked_of paths none = []
picked_of paths (some entries) = pick_entries entries paths []

unfoldable pub entries_or_new : {V : Type 0} → Option (Map (Option V)) → Map (Option V)
entries_or_new none = []
entries_or_new (some entries) = entries

-- errors.Is(err, os.ErrNotExist)
unfoldable pub unless_missing :
    {D : Type 0} → Result OsError (Unit {0}) × D → Result StoreError (Unit {0}) × D
unless_missing (ok u, d) = (ok tt, d)
unless_missing (err not_exist, d) = (ok tt, d)
unless_missing (err (os_error text), d) = (err (failure text), d)

module _ {D N V : Type 0} (os : Os D N) (codec : Codec N V) (dir : Text) where
  unfoldable pub file_path : Text → Text
  file_path id = os.join dir (json_name id)

  -- An error of a missing file is a nil map.
  unfoldable pub decoded : Result OsError N → Result OsError (Option (Map (Option V)))
  decoded (ok content) = codec.unmarshal content
  decoded (err not_exist) = ok none
  decoded (err (os_error text)) = err (os_error text)

  unfoldable pub read_entries : Text → D → Result OsError (Option (Map (Option V)))
  unfolding decoded
  read_entries id d = decoded (os.read_file (file_path id) d)

  -- if err != nil { tmp.Close(); return err }
  unfoldable pub or_close : Text → Result OsError (Unit {0}) × D → Result OsError (Unit {0}) × D
  or_close tmp (ok u, d) = (ok u, d)
  or_close tmp (err e, d) = (err e, (os.close tmp d).1)

  -- From the write of the temporary file to the rename.
  unfoldable pub fill_temp : Text → Text → N → Io D (Unit {0})
  unfolding or_close
  fill_temp id tmp content d = next (or_close tmp (os.write tmp content d)) (λ u1 d1.
      next (or_close tmp (os.sync tmp d1)) (λ u2 d2.
        next (os.close tmp d2)
          (λ u3 d3. next (os.chmod tmp d3) (λ u4 d4. os.rename tmp (file_path id) d4))))

  -- The deferred removal, which the successful rename disarms.
  unfoldable pub or_remove : Text → Result OsError (Unit {0}) × D → Result OsError (Unit {0}) × D
  or_remove tmp (ok u, d) = (ok u, d)
  or_remove tmp (err e, d) = (err e, (os.remove tmp d).1)

  unfoldable pub write_file : Text → Map (Option V) → Io D (Unit {0})
  unfolding fill_temp or_remove
  write_file id entries d =
      next (codec.marshal entries, d)
        (λ content d0. next (os.mkdir_all dir d0) (λ u d1.
          next (os.create_temp dir (temp_pattern id) d1)
            (λ tmp d2. or_remove tmp (fill_temp id tmp content d2))))

  unfoldable pub json_capabilities : Act D Capabilities
  json_capabilities d = (
    ok (record {
      versioning = versioning_none;
      encryption = encryption_none;
      auth = false;
      access_control = false;
    }),
    d,
  )

  unfoldable pub json_list_trees : Act D (List Text)
  unfolding trim_suffix
  json_list_trees d = returned (
      next (os.glob (os.join dir (bytes "*.json")) d, d)
        (λ matches d1. (ok (map (λ m. trim_suffix (bytes ".json") (os.base m)) matches), d1)))

  unfoldable pub json_delete_tree : Text → Act D (Unit {0})
  unfolding unless_missing
  json_delete_tree id d = unless_missing (os.remove (file_path id) d)

  unfoldable pub json_get_values : Text → List Text → Act D (Map V)
  unfolding read_entries picked_of
  json_get_values id paths d =
      returned (next (read_entries id d, d) (λ entries d1. (ok (picked_of paths entries), d1)))

  unfoldable pub json_put_values : Text → Map V → Act D (Unit {0})
  unfolding read_entries write_file entries_or_new put_entries
  json_put_values id values d = returned (
      next (read_entries id d, d)
        (λ entries d1. write_file id (put_entries values (entries_or_new entries)) d1))

  unfoldable pub delete_from : Text → List Text → Option (Map (Option V)) → Io D (Unit {0})
  unfolding write_file delete_entries
  delete_from id paths none d = (ok tt, d)
  delete_from id paths (some entries) d = write_file id (delete_entries paths entries) d

  unfoldable pub json_delete_values : Text → List Text → Act D (Unit {0})
  unfolding read_entries delete_from
  json_delete_values id paths d =
      returned (next (read_entries id d, d) (λ entries d1. delete_from id paths entries d1))

  unfoldable pub json_plugin : Plugin D V
  unfolding json_capabilities json_list_trees json_delete_tree json_get_values json_put_values
      json_delete_values
  json_plugin = record {
    capabilities = json_capabilities;
    auth_methods = λ d. (ok [], d);
    login = λ method creds. lacks (bytes "authentication");
    login_interactive = λ method params. lacks (bytes "interactive login");
    login_interactive_callback = λ challenge params. lacks (bytes "interactive login");
    list_trees = json_list_trees;
    delete_tree = json_delete_tree;
    get_values = json_get_values;
    put_values = λ id values opts. json_put_values id values;
    delete_values = json_delete_values;
    list_tree_versions = λ id. lacks (bytes "versioning");
    get_tree_version = λ id version paths. lacks (bytes "versioning");
    rollback_tree = λ id version. lacks (bytes "versioning");
    delete_tree_version = λ id version. lacks (bytes "versioning");
    list_value_versions = λ id path. lacks (bytes "versioning");
    get_value_version = λ id path version. lacks (bytes "versioning");
    rollback_value = λ id path version. lacks (bytes "versioning");
    delete_value_version = λ id path version. lacks (bytes "versioning");
    init_encryption = λ pass. lacks (bytes "encryption");
    rotate_encryption = λ old new. lacks (bytes "encryption");
    grant_access = λ id user perms. lacks (bytes "access control");
    revoke_access = λ id user paths. lacks (bytes "access control");
    list_access = λ id. lacks (bytes "access control");
  }
