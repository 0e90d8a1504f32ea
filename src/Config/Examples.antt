-- ===== src/Config/Examples.antt =====
-- Runs of the path check, the tree and the merged plugin, and the theorems at these inputs.
use zhi.Common.{
  ℕ, Text, bytes, true, List, [], ◌∷◌, ◌++◌, none, some, ok, ◌≡◌, ◌↔◌, refl, ap, Map, lookup,
  insert, keys, In, here, there, ltb, has_prefix, if◌then◌else◌, ◌==◌,
}
use zhi.Config.Path.{validate_path}
use zhi.Config.Pattern.{Segments, validate_path_iff}
use zhi.Config.Tree.{
  Tree, TreeReader, Value, ValidationResult, warning, new_tree, get, validate_tree,
}
use zhi.Config.Trees.{IsTree, new_tree-IsTree, set-IsTree, said, validate_tree_lem}
use zhi.Config.Merged.{
  Plugin, MountedPlugin, merged_plugin, merged_set, merged_get, route, ends_slash,
}
use zhi.Config.Routing.{route_iff, merged_get-merged_set}

abbrev port : Text
port = bytes "app/port"

validate_path_iff_example : (validate_path port ≡ ok tt) ↔ Segments port
validate_path_iff_example = validate_path_iff port

port_valid : validate_path port ≡ ok tt
unfolding validate_path ◌==◌
port_valid = refl

abbrev one_port : Tree ℕ
one_port = record { values = insert port 80 [] }

-- A validator is a bound: it warns of greater values.
abbrev warn_above : ℕ → ℕ → TreeReader (Value ℕ (Unit {0}) ℕ) → List (ValidationResult (Unit {0}))
warn_above bound n tree =
    if ltb bound n
    then record { severity = warning; message = bytes "high"; metadata = tt } ∷ []
    else []

abbrev checked_port : Value ℕ (Unit {0}) ℕ
checked_port = record { val = 8080; metadata = tt; version = []; validators = 1024 ∷ [] }

abbrev checked : Tree (Value ℕ (Unit {0}) ℕ)
checked = record { values = insert port checked_port [] }

checked-IsTree : IsTree checked
checked-IsTree = set-IsTree port checked_port new_tree new_tree-IsTree port_valid

validate_tree_lem_example :
    lookup port (validate_tree warn_above checked)
    ≡ said warn_above
        (record { get = λ other. lookup other checked.values; list = keys checked.values })
        (lookup port checked.values)
        none
validate_tree_lem_example = validate_tree_lem warn_above checked port checked-IsTree

-- A plugin that keeps a map.
abbrev map_plugin : Plugin (Map ℕ) ℕ (Unit {0}) (Unit {0})
map_plugin = record {
  list = λ st. ok (keys st);
  get = λ st path. ok (lookup path st);
  set = λ st path v. ok (insert path v st);
  validate = λ st path tree. ok [];
}

abbrev child : Text → MountedPlugin (Map ℕ) ℕ (Unit {0}) (Unit {0})
child prefix = record { impl = some map_plugin; prefix = prefix; state = [] }

abbrev two : List (MountedPlugin (Map ℕ) ℕ (Unit {0}) (Unit {0}))
two = child (bytes "a/") ∷ child (bytes "b/") ∷ []

two-merged : merged_plugin two ≡ ok two
unfolding merged_plugin has_prefix ◌==◌ ends_slash
two-merged = refl

route_iff_example :
    (route (bytes "b/x") two ≡ some (child (bytes "b/")))
    ↔ (In (child (bytes "b/")) two × (has_prefix (bytes "b/x") (bytes "b/") ≡ true))
route_iff_example = route_iff two two (bytes "b/x") (child (bytes "b/")) two-merged

read_back : lookup {V = ℕ} (bytes "x") (insert (bytes "x") 7 []) ≡ some 7
unfolding lookup insert ◌==◌
read_back = refl

merged_get-merged_set_example :
    (cs : List (MountedPlugin (Map ℕ) ℕ (Unit {0}) (Unit {0}))) × (merged_set two
        (bytes "b/" ++ bytes "x")
        7
      ≡ ok cs)
    × (merged_get cs (bytes "b/" ++ bytes "x") ≡ ok (some 7))
merged_get-merged_set_example =
    merged_get-merged_set two two (child (bytes "b/")) map_plugin (bytes "x") 7
      (insert (bytes "x") 7 []) two-merged (there (here refl)) refl refl (ap ok read_back)
