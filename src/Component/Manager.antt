-- ===== src/Component/Manager.antt =====
-- The state of `ComponentManager` (internal/core/component.go), and its methods that only read it.
use zhi.Common.{
  Text, Bool, true, false, ◌||◌, List, [], ◌∷◌, ◌++◌, Option, none, some, if◌then◌else◌, Map,
  lookup, insert, contains,
}
use zhi.Component.Paths.{path_has_prefix}

pub record ComponentDef : Type 0 where
  pub name : Text
  pub description : Text
  pub paths : List Text
  pub mandatory : Bool
  pub dependencies : List Text

-- One row of `ListComponents`.
pub record ComponentState : Type 0 where
  pub name : Text
  pub enabled : Bool
  pub mandatory : Bool
  pub dependencies : List Text

pub record ComponentManager : Type 0 where
  pub definitions : List ComponentDef
  pub state : Map Bool
  pub defs_by_name : Map ComponentDef

-- The local type `ownership` of `checkOverlappingPaths`.
pub record Ownership : Type 0 where
  pub prefix : Text
  pub component : Text

-- The errors of this file, with the values that their messages print.
pub data ComponentError : Type 0 where
  duplicate_name : Text → ComponentError
  unknown_dependency : (name dep : Text) → ComponentError
  circular_dependency : ComponentError
  overlapping_paths : (a b : Ownership) → ComponentError
  unknown_component : Text → ComponentError
  is_mandatory : Text → ComponentError
  required_by_enabled : (name by : Text) → ComponentError
  required_by_mandatory : (name by : Text) → ComponentError
  dependency_disabled : (name dep : Text) → ComponentError

-- cm.state[name]: a missing key reads as false.
unfoldable pub flag : Map Bool → Text → Bool
flag st name = elim (lookup name st) [ none ↦ false | some b ↦ b ]

unfoldable pub is_enabled : ComponentManager → Text → Bool
unfolding flag
is_enabled cm name = flag cm.state name

unfoldable pub list_states : Map Bool → List ComponentDef → List ComponentState
unfolding flag
list_states st [] = []
list_states st (d ∷ ds) =
    record {
      name = d.name;
      enabled = flag st d.name;
      mandatory = d.mandatory;
      dependencies = d.dependencies;
    }
    ∷ list_states st ds

unfoldable pub list_components : ComponentManager → List ComponentState
unfolding list_states
list_components cm = list_states cm.state cm.definitions

unfoldable pub paths_of_enabled : Map Bool → List ComponentDef → List Text
unfolding flag
paths_of_enabled st [] = []
paths_of_enabled st (d ∷ ds) = (if flag st d.name then d.paths else []) ++ paths_of_enabled st ds

unfoldable pub enabled_paths : ComponentManager → List Text
unfolding paths_of_enabled
enabled_paths cm = paths_of_enabled cm.state cm.definitions

-- The inner loop of `PathBelongsToComponent`.
unfoldable pub matches_any : Text → List Text → Bool
matches_any path [] = false
matches_any path (prefix ∷ ps) = path_has_prefix path prefix || matches_any path ps

unfoldable pub owner : Text → List ComponentDef → Option Text
unfolding matches_any
owner path [] = none
owner path (d ∷ ds) = if matches_any path d.paths then some d.name else owner path ds

unfoldable pub path_belongs_to_component : ComponentManager → Text → Option Text
unfolding owner
path_belongs_to_component cm path = owner path cm.definitions

-- The dependencies of one enabled component that are disabled.
unfoldable pub broken_dependencies : Map Bool → Text → List Text → List ComponentError
unfolding flag
broken_dependencies st name [] = []
broken_dependencies st name (dep ∷ deps) =
    (if flag st dep then [] else dependency_disabled name dep ∷ [])
    ++ broken_dependencies st name deps

unfoldable pub all_broken : Map Bool → List ComponentDef → List ComponentError
unfolding broken_dependencies
all_broken st [] = []
all_broken st (d ∷ ds) =
    (if flag st d.name then broken_dependencies st d.name d.dependencies else [])
    ++ all_broken st ds

unfoldable pub validate_dependencies : ComponentManager → List ComponentError
unfolding all_broken
validate_dependencies cm = all_broken cm.state cm.definitions

unfoldable pub definition : ComponentManager → Text → Option ComponentDef
definition cm name = lookup name cm.defs_by_name

unfoldable pub direct_dependents : List ComponentDef → Text → List Text
unfolding contains
direct_dependents [] name = []
direct_dependents (d ∷ ds) name =
    (if contains d.dependencies name then d.name ∷ [] else []) ++ direct_dependents ds name

unfoldable pub dependents : ComponentManager → Text → List Text
unfolding direct_dependents
dependents cm name = direct_dependents cm.definitions name

-- One entry of the saved map.
unfoldable pub load_entry : Map ComponentDef → Text → Bool → Map Bool → Map Bool
load_entry defs name enabled st = elim (lookup name defs) [
  | none ↦ st
  | some def ↦ insert name (if def.mandatory then true else enabled) st
]

-- `LoadState`, over the entries of the saved map in the order of iteration.
unfoldable pub load_entries : Map ComponentDef → Map Bool → Map Bool → Map Bool
unfolding load_entry
load_entries defs [] st = st
load_entries defs ((name, enabled) ∷ saved) st =
    load_entries defs saved (load_entry defs name enabled st)

unfoldable pub load_state : ComponentManager → Map Bool → ComponentManager
unfolding load_entries
load_state cm saved = record cm { state = load_entries cm.defs_by_name saved cm.state }

-- maps.Copy into an empty map, key by key.
unfoldable pub copy_into : Map Bool → Map Bool → Map Bool
copy_into out [] = out
copy_into out ((name, b) ∷ st) = copy_into (insert name b out) st

unfoldable pub save_state : ComponentManager → Map Bool
unfolding copy_into
save_state cm = copy_into [] cm.state
