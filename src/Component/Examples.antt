-- ===== src/Component/Examples.antt =====
-- Runs of the component manager on three components, and the theorems at these inputs.
use zhi.Common.{
  Text, bytes, true, false, List, [], ◌∷◌, some, Result, ok, err, ◌≡◌, ◌↔◌, ◌⊎◌, refl, lookup,
  insert, keys, if◌then◌else◌, ◌==◌, has_prefix,
}
use zhi.Component.Paths.{path_has_prefix, trim_slash, prefix_overlaps}
use zhi.Component.Manager.{
  ComponentDef, ComponentManager, ComponentError, circular_dependency, flag,
}
use zhi.Component.Enable.{enable}
use zhi.Component.Disable.{disable}
use zhi.Component.Setup.{new_component_manager, check_overlapping_paths}
use zhi.Component.Valid.{IsValid, Closed, Reach}
use zhi.Component.Enabling.{enable_lem}
use zhi.Component.Disabling.{MayDisable, disable-ok_iff, disable-Closed}
use zhi.Component.Startup.{MandatoryOn, new-IsValid, new-total}

abbrev pub db_def : ComponentDef
db_def = record {
  name = bytes "db";
  description = [];
  paths = bytes "db/" ∷ [];
  mandatory = true;
  dependencies = [];
}

abbrev pub app_def : ComponentDef
app_def = record {
  name = bytes "app";
  description = [];
  paths = bytes "app" ∷ [];
  mandatory = false;
  dependencies = bytes "db" ∷ [];
}

abbrev pub web_def : ComponentDef
web_def = record {
  name = bytes "web";
  description = [];
  paths = bytes "app-web" ∷ [];
  mandatory = false;
  dependencies = bytes "app" ∷ [];
}

abbrev pub three : List ComponentDef
three = web_def ∷ app_def ∷ db_def ∷ []

abbrev pub in_order : List Text → List Text
in_order l = l

abbrev pub made : ComponentManager
made = record {
  definitions = three;
  state = (bytes "web", false) ∷ (bytes "app", false) ∷ (bytes "db", true) ∷ [];
  defs_by_name = (bytes "web", web_def) ∷ (bytes "app", app_def) ∷ (bytes "db", db_def) ∷ [];
}

unfoldable pub runs : Unit {0}
unfolding new_component_manager enable disable lookup insert keys ◌==◌ has_prefix path_has_prefix
    prefix_overlaps trim_slash
runs = tt

pub new-three : new_component_manager in_order three ≡ some (ok made)
unfolding runs
new-three = refl

new_cycle :
    new_component_manager in_order (record app_def { dependencies = bytes "app" ∷ [] } ∷ [])
    ≡ some (err circular_dependency)
unfolding runs
new_cycle = refl

pub made_lem :
    (made.definitions ≡ three)
    × IsValid made
    × (check_overlapping_paths made.definitions ≡ ok tt)
    × MandatoryOn made.definitions made.state
    × Closed made.defs_by_name made.state
made_lem = new-IsValid in_order three made new-three

new-IsValid_example :
    (made.definitions ≡ three)
    × IsValid made
    × (check_overlapping_paths made.definitions ≡ ok tt)
    × MandatoryOn made.definitions made.state
    × Closed made.defs_by_name made.state
new-IsValid_example = new-IsValid in_order three made new-three

new-total_example :
    (r : Result ComponentError ComponentManager) × (new_component_manager in_order three ≡ some r)
new-total_example = new-total in_order three

pub found_app : lookup (bytes "app") made.defs_by_name ≡ some app_def
unfolding runs
found_app = refl

enable_lem_example :
    (cm' : ComponentManager) × (enable made (bytes "app") ≡ some (ok cm'))
    × (cm'.definitions ≡ made.definitions)
    × (cm'.defs_by_name ≡ made.defs_by_name)
    × Closed made.defs_by_name cm'.state
    × ((n : Text)
        → (flag cm'.state n ≡ true)
          ↔ ((flag made.state n ≡ true) ⊎ Reach made.defs_by_name (bytes "app") n))
enable_lem_example = enable_lem made made_lem.1 (bytes "app") app_def found_app made_lem.4

disable-ok_iff_example :
    ((cm' : ComponentManager) × (disable made (bytes "app") ≡ ok cm'))
    ↔ MayDisable made (bytes "app")
disable-ok_iff_example = disable-ok_iff made (bytes "app")

abbrev after_disable : ComponentManager
after_disable = record made { state = insert (bytes "app") false made.state }

disable-made : disable made (bytes "app") ≡ ok after_disable
unfolding runs
disable-made = refl

disable-Closed_example :
    Closed made.defs_by_name after_disable.state
    × ((n : Text)
        → flag after_disable.state n ≡ (if bytes "app" == n then false else flag made.state n))
    × (after_disable.definitions ≡ made.definitions)
    × (after_disable.defs_by_name ≡ made.defs_by_name)
disable-Closed_example =
    disable-Closed made (bytes "app") after_disable made_lem.1 made_lem.4 disable-made
