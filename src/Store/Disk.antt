-- ===== src/Store/Disk.antt =====
-- What pkg/providers/store/jsonfile asks of the packages os, path/filepath and encoding/json, and
-- what it relies on. A disk has a state; a call may fail, and the state comes back all the same.
use zhi.Common.{
  Text, bytes, List, ◌++◌, Option, none, some, Result, ok, err, ◌≡◌, ◌≢◌, Map, lookup, Bool, true,
  All, keys,
}

pub data OsError : Type 0 where
  not_exist : OsError
  os_error : Text → OsError

-- A call on the disk.
abbrev pub Io : Type 0 → Type 0 → Type 0
Io D X = D → Result OsError X × D

-- A file is known by its name, an open one too; `N` is the content of a file.
pub record Os (D N : Type 0) : Type 0 where
  pub join : Text → Text → Text
  pub base : Text → Text
  pub glob : Text → D → Result OsError (List Text)
  pub read_file : Text → D → Result OsError N
  pub mkdir_all : Text → Io D (Unit {0})
  pub create_temp : Text → Text → Io D Text
  pub write : Text → N → Io D (Unit {0})
  pub sync : Text → Io D (Unit {0})
  pub close : Text → Io D (Unit {0})
  pub chmod : Text → Io D (Unit {0})
  pub rename : Text → Text → Io D (Unit {0})
  pub remove : Text → Io D (Unit {0})

-- json.MarshalIndent and json.Unmarshal of a map[string]*config.Value: a nil pointer is none, and
-- so is a nil map. `valid` is utf8.ValidString.
pub record Codec (N V : Type 0) : Type 0 where
  pub marshal : Map (Option V) → Result OsError N
  pub unmarshal : N → Result OsError (Option (Map (Option V)))
  pub valid : Text → Bool

-- Every key is valid UTF-8.
abbrev pub HasValidKeys : {N V X : Type 0} → Codec N V → Map X → Type 0
HasValidKeys codec m = All (λ path. codec.valid path ≡ true) (keys m)

-- id + ".json", and the pattern of its temporary files.
abbrev pub json_name : Text → Text
json_name id = id ++ bytes ".json"

abbrev pub temp_pattern : Text → Text
temp_pattern id = bytes "." ++ (id ++ bytes ".json.tmp-*")

-- The content of the files under an operation: a call changes only the file that it names, and a
-- failed rename or removal changes none. The name of a temporary file ends in the random digits
-- that replace the star of the pattern, so it is the name of no tree.
pub record IsOs {D N : Type 0} (os : Os D N) (content : D → Text → Option N) : Type 0 where
  pub empty : N
  pub reads : (name : Text) (d : D) (n : N) → os.read_file name d ≡ ok n → content d name ≡ some n
  pub missing : (name : Text) (d : D) → os.read_file name d ≡ err not_exist → content d name ≡ none
  pub mkdir_keeps :
      (dir : Text) (d : D) (name : Text) → content (os.mkdir_all dir d).1 name ≡ content d name
  pub temp_keeps :
      (dir id : Text) (d : D) (name tree : Text)
      → name ≡ os.join dir (json_name tree)
      → content (os.create_temp dir (temp_pattern id) d).1 name ≡ content d name
  pub temp_name :
      (dir id : Text) (d : D) (tmp tree : Text)
      → (os.create_temp dir (temp_pattern id) d).0 ≡ ok tmp
      → tmp ≢ os.join dir (json_name tree)
  pub temp_empty :
      (dir id : Text) (d : D) (tmp : Text)
      → (os.create_temp dir (temp_pattern id) d).0 ≡ ok tmp
      → content (os.create_temp dir (temp_pattern id) d).1 tmp ≡ some empty
  pub write_keeps :
      (tmp name : Text) (n : N) (d : D)
      → tmp ≢ name
      → content (os.write tmp n d).1 name ≡ content d name
  pub write_fills :
      (tmp : Text) (n : N) (d : D)
      → content d tmp ≡ some empty
      → (os.write tmp n d).0 ≡ ok tt
      → content (os.write tmp n d).1 tmp ≡ some n
  pub sync_keeps :
      (tmp : Text) (d : D) (name : Text) → content (os.sync tmp d).1 name ≡ content d name
  pub close_keeps :
      (tmp : Text) (d : D) (name : Text) → content (os.close tmp d).1 name ≡ content d name
  pub chmod_keeps :
      (tmp : Text) (d : D) (name : Text) → content (os.chmod tmp d).1 name ≡ content d name
  pub rename_moves :
      (from to : Text) (d : D)
      → (os.rename from to d).0 ≡ ok tt
      → content (os.rename from to d).1 to ≡ content d from
  pub rename_keeps :
      (from to name : Text) (d : D)
      → from ≢ name
      → to ≢ name
      → content (os.rename from to d).1 name ≡ content d name
  pub rename_fails :
      (from to name : Text) (d : D) (e : OsError)
      → (os.rename from to d).0 ≡ err e
      → content (os.rename from to d).1 name ≡ content d name
  pub remove_keeps :
      (tmp name : Text) (d : D) → tmp ≢ name → content (os.remove tmp d).1 name ≡ content d name
  pub removes :
      (name : Text) (d : D)
      → (os.remove name d).0 ≡ ok tt
      → content (os.remove name d).1 name ≡ none
  pub remove_missing :
      (name : Text) (d : D)
      → (os.remove name d).0 ≡ err not_exist
      → content (os.remove name d).1 name ≡ none
  pub remove_fails :
      (name : Text) (d : D) (e : Text)
      → (os.remove name d).0 ≡ err (os_error e)
      → content (os.remove name d).1 name ≡ content d name

-- What a coding with `norm` makes of an entry.
abbrev pub coded : {V : Type 0} → (V → V) → Option (Option V) → Option (Option V)
coded norm none = none
coded norm (some none) = some none
coded norm (some (some v)) = some (some (norm v))

-- Behind keys that are valid UTF-8, a value comes back from its coding as `norm` of it. Any other
-- key would come back with replacement characters. What comes back from a file has valid keys, and
-- is left as it is by `norm`.
pub record IsCodec {N V : Type 0} (codec : Codec N V) (norm : V → V) : Type 0 where
  pub round :
      (m : Map (Option V)) (n : N)
      → HasValidKeys codec m
      → codec.marshal m ≡ ok n
      → (m' : Map (Option V)) × (codec.unmarshal n ≡ ok (some m'))
        × ((path : Text) → lookup path m' ≡ coded norm (lookup path m))
  pub keys_valid :
      (n : N) (m : Map (Option V)) → codec.unmarshal n ≡ ok (some m) → HasValidKeys codec m
  pub settled :
      (n : N) (m : Map (Option V)) (path : Text) (v : V)
      → codec.unmarshal n ≡ ok (some m)
      → lookup path m ≡ some (some v)
      → norm v ≡ v
