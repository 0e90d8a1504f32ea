-- ===== src/Engine/Examples.antt =====
-- An engine with the memory store, and one path with a default of type int. Whole numbers stand for
-- float64.
use zhi.Common.{
  ℕ, Text, bytes, false, List, [], ◌∷◌, Option, none, some, ok, ◌≡◌, refl, ltb, Map, lookup, keys,
  contains, ◌==◌, if◌then◌else◌, insert,
}
use zhi.Numeric.Convert.{pos, negsuc, max_int, Any, int, float64, FloatOps, other_kind}
use zhi.Numeric.TryConvert.{ConvertOps, type_of}
use zhi.Config.Path.{validate_path}
use zhi.Config.Tree.{Tree, get}
use zhi.Config.Merged.{Plugin}
use zhi.Store.Mirrored.{Replica}
use zhi.Store.Memory.{Trees, memory_plugin, get_memory, put_memory, pick_tree}
use zhi.Store.Values.{memory_view}
use zhi.Store.Storing.{as_given, memory_plugin-IsStore}
use zhi.Engine.State.{
  Entry, Host, Engine, tree_id, get_workspace_dir, stored_value, matching_val, with_replica,
  with_store,
}
use zhi.Engine.Load.{load_tree}
use zhi.Engine.Store.{save_tree, with_store_plugin}
use zhi.Engine.Taken.{IsLoaded}
use zhi.Engine.Loading.{HasDefaults, load_tree_lem, load_tree_ok}
use zhi.Engine.Saved.{load_tree-save_tree}

abbrev ops : FloatOps ℕ
ops = record {
  is_fractional = λ v. false;
  beyond_int = λ v. ltb max_int v;
  beyond_exact = λ v. ltb 9007199254740992 v;
  beyond_uint = λ v. false;
  int_of = λ v. pos v;
  uint_of = λ v. v;
  of_int = λ z. elim z [ pos n ↦ n | negsuc n ↦ 0 ];
  of_uint = λ n. n;
}

abbrev conversions : ConvertOps ℕ Text
conversions = record {
  is_not_whole = λ v. false;
  is_negative = λ v. false;
  is_nonzero = λ v. ltb 0 v;
  int_of = λ v. pos v;
  uint_of = λ v. v;
  of_int = λ z. elim z [ pos n ↦ n | negsuc n ↦ 0 ];
  of_uint = λ n. n;
  atoi = λ s. none;
  parse_uint = λ s. none;
  parse_float = λ s. none;
  parse_bool = λ s. none;
  sprint = λ v. [];
}

abbrev plain_host : Host ℕ Text
plain_host = record {
  num = ops;
  conv = conversions;
  type_kind = λ name. other_kind;
  tree_hash = λ dir. dir;
}

abbrev port : Text
port = bytes "port"

abbrev Item : Type 0
Item = Entry ℕ Text (Unit {0})

abbrev item : Any ℕ Text → Item
item x = record { val = x; metadata = []; version = []; validators = [] }

abbrev default_port : Item
default_port = item (int (pos 80))

abbrev default_at : Text → Option Item
default_at path = if path == port then some default_port else none

abbrev defaults : Plugin (Unit {0}) Item (Unit {0}) (Unit {0})
defaults = record {
  list = λ s. ok (port ∷ []);
  get = λ s path. ok (default_at path);
  set = λ s path v. ok tt;
  validate = λ s path tree. ok [];
}

abbrev replica : Replica (Trees Item) Item
replica = record { impl = memory_plugin; state = [] }

abbrev engine : Engine (Unit {0}) (Trees Item) Item (Unit {0}) (Unit {0})
engine = record {
  config_plugin = defaults;
  config_state = tt;
  store = none;
  components = record { definitions = []; state = []; defs_by_name = [] };
  workspace_dir = some (bytes "/srv");
}

-- A stored float64, as a JSON file gives it back for an int.
abbrev stored : Map Item
stored = (port, item (float64 8080)) ∷ []

abbrev full : Replica (Trees Item) Item
full = record { impl = memory_plugin; state = (bytes "/srv", stored) ∷ [] }

engine-HasDefaults : HasDefaults plain_host engine (port ∷ []) default_at
unfolding validate_path ◌==◌
engine-HasDefaults = (refl, ((refl, refl), tt))

load_tree_lem_example :
    (t : Tree Item) × ((load_tree plain_host (with_replica engine full)).0 ≡ ok t)
    × ((path : Text)
        → IsLoaded plain_host
            (contains (port ∷ []) path)
            (default_at path)
            (lookup path stored)
            (get t path))
unfolding memory_plugin get_memory pick_tree tree_id get_workspace_dir lookup ◌==◌ insert keys
    validate_path contains
load_tree_lem_example =
    load_tree_lem plain_host engine full (port ∷ []) default_at stored engine-HasDefaults refl
      (refl, tt) (refl, tt)

load_tree_ok_example :
    (ps : List Text) × (defaults.list tt ≡ ok ps)
    × (m : Map Item) × ((get_memory (tree_id plain_host engine) ps ((bytes "/srv", stored) ∷ [])).0
        ≡ ok m)
unfolding memory_plugin
load_tree_ok_example =
    load_tree_ok plain_host engine full load_tree_lem_example.0 load_tree_lem_example.1

-- A tree with another port.
abbrev edited : Tree Item
edited = record { values = (port, item (int (pos 443))) ∷ [] }

load_tree-save_tree_example :
    (t' : Tree Item) × ((load_tree plain_host
        (save_tree plain_host edited (with_replica engine replica)).1).0
      ≡ ok t')
    × (get t' port ≡ some (item (int (pos 443))))
unfolding memory_plugin save_tree with_store_plugin with_store put_memory get_memory lookup get ◌==◌
    stored_value contains type_of matching_val
load_tree-save_tree_example =
    load_tree-save_tree plain_host engine replica as_given memory_view (port ∷ []) default_at edited
      _ port (item (int (pos 443))) default_port memory_plugin-IsStore engine-HasDefaults refl refl
      refl refl refl refl
