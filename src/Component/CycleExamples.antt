-- ===== src/Component/CycleExamples.antt =====
-- The theorems on cycles and on `DisableCascade`, at the three components of Examples.antt.
use zhi.Common.{
  Bool, Map, ℕ, ◌≤◌, Text, bytes, true, false, not, ◌&&◌, List, [], ◌∷◌, none, some, ok, err, ◌≡◌,
  ◌↔◌, refl, lookup, insert, keys, In, here, All, All-In, subst, contains, Distinct, length, ◌==◌,
}
use zhi.Component.Manager.{
  save_state, validate_dependencies, load_state, dependency_disabled, ComponentDef,
  ComponentManager, required_by_mandatory, flag,
}
use zhi.Component.Cycles.{detect_cycles}
use zhi.Component.Disable.{disable_cascade, transitive_dependents, first_mandatory}
use zhi.Component.Valid.{Closed, Reach, stop, Needs}
use zhi.Component.Graph.{names}
use zhi.Component.KahnStart.{Walks}
use zhi.Component.Acyclic.{IsRanked, IsAcyclic, detect_cycles-ok_iff}
use zhi.Component.Dependents.{transitive_dependents_lem, first_mandatory-none}
use zhi.Component.Cascading.{Optional, disable_cascade-ok, disable_cascade-refused}
use zhi.Component.Saving.{
  restored, load_state-save_state, validate_dependencies_iff, load_state_lem,
}
use zhi.Component.Startup.{new-IsValid, new-IsRanked}
use zhi.Component.Setup.{new_component_manager}
use zhi.Component.Examples.{app_def, three, in_order, made, runs, new-three, made_lem, found_app}

in_order-Walks : Walks in_order
in_order-Walks = record { once = λ l h. h; same = λ l x. refl }

new-IsRanked_example :
    (rank : Text → ℕ) × IsRanked made.definitions rank
    × ((n : Text) → rank n ≤ length made.definitions)
new-IsRanked_example = new-IsRanked in_order three made in_order-Walks new-three

new-IsRanked_rank :
    (rank : Text → ℕ) × IsRanked made.definitions rank
    × ((n : Text) → rank n ≤ length made.definitions)
new-IsRanked_rank = new-IsRanked in_order three made in_order-Walks new-three

three-Distinct : Distinct (names three)
unfolding names contains ◌==◌
three-Distinct = (refl, (refl, (refl, tt)))

three_refs :
    All (λ (d : ComponentDef). All (λ dep. contains (names three) dep ≡ true) d.dependencies) three
unfolding names contains ◌==◌
three_refs = ((refl, tt), ((refl, tt), (tt, tt)))

three-known :
    (d : ComponentDef) → In d three → All (λ dep. contains (names three) dep ≡ true) d.dependencies
three-known d m =
    All-In (λ (e : ComponentDef). All (λ dep. contains (names three) dep ≡ true) e.dependencies)
      three_refs m

detect_cycles-ok_iff_example : (detect_cycles in_order three ≡ some (ok tt)) ↔ IsAcyclic three
detect_cycles-ok_iff_example =
    detect_cycles-ok_iff three in_order in_order-Walks three-Distinct three-known

transitive_dependents_lem_example :
    (deps : List Text) × (transitive_dependents made (bytes "db") ≡ some deps)
    × ((x : Text) → (contains deps x ≡ true) ↔ Needs made.defs_by_name x (bytes "db"))
transitive_dependents_lem_example = transitive_dependents_lem made made_lem.1 (bytes "db")

dependents-app : transitive_dependents made (bytes "app") ≡ some (bytes "web" ∷ [])
unfolding transitive_dependents insert lookup keys ◌==◌
dependents-app = refl

web_optional : first_mandatory made.defs_by_name (bytes "web" ∷ []) ≡ none
unfolding first_mandatory lookup ◌==◌
web_optional = refl

app-Optional : Optional made (bytes "app")
app-Optional x d found needs =
    let (deps, listed, exact) = transitive_dependents_lem made made_lem.1 (bytes "app") in
    let only_web : deps ≡ bytes "web" ∷ [] = cc (listed, dependents-app) in
    first_mandatory-none made.defs_by_name (bytes "web" ∷ []) web_optional x d
      (subst (λ l. contains l x ≡ true) only_web ((exact x).1 needs)) found

disable_cascade-ok_example :
    (cm' : ComponentManager) × (disabled : List Text) × (disable_cascade made (bytes "app")
      ≡ some (ok (cm', disabled)))
    × Closed made.defs_by_name cm'.state
    × ((n : Text)
        → (flag cm'.state n ≡ true)
          ↔ ((flag made.state n ≡ true) × ¬ Reach made.defs_by_name n (bytes "app")))
    × ((n : Text) → contains disabled n ≡ (flag made.state n && not (flag cm'.state n)))
    × (cm'.definitions ≡ made.definitions)
disable_cascade-ok_example =
    disable_cascade-ok made made_lem.1 new-IsRanked_rank.0 new-IsRanked_rank.1 new-IsRanked_rank.2
      (bytes "app") app_def found_app refl app-Optional made_lem.4

-- A mandatory component that needs an optional one.
abbrev base_def : ComponentDef
base_def = record {
  name = bytes "base";
  description = [];
  paths = [];
  mandatory = false;
  dependencies = [];
}

abbrev svc_def : ComponentDef
svc_def = record {
  name = bytes "svc";
  description = [];
  paths = [];
  mandatory = true;
  dependencies = bytes "base" ∷ [];
}

abbrev pair : ComponentManager
pair = record {
  definitions = svc_def ∷ base_def ∷ [];
  state = (bytes "svc", true) ∷ (bytes "base", true) ∷ [];
  defs_by_name = (bytes "svc", svc_def) ∷ (bytes "base", base_def) ∷ [];
}

new-pair : new_component_manager in_order (svc_def ∷ base_def ∷ []) ≡ some (ok pair)
unfolding runs
new-pair = refl

found_base : lookup (bytes "base") pair.defs_by_name ≡ some base_def
unfolding runs
found_base = refl

found_svc : lookup (bytes "svc") pair.defs_by_name ≡ some svc_def
unfolding runs
found_svc = refl

disable_cascade-refused_example :
    (by : Text) × (disable_cascade pair (bytes "base")
      ≡ some (err (required_by_mandatory (bytes "base") by)))
    × Needs pair.defs_by_name by (bytes "base")
    × (e : ComponentDef) × (lookup by pair.defs_by_name ≡ some e)
    × (e.mandatory ≡ true)
disable_cascade-refused_example =
    disable_cascade-refused pair (new-IsValid in_order (svc_def ∷ base_def ∷ []) pair new-pair).1
      (bytes "base") (bytes "svc") base_def svc_def found_base refl found_svc refl
      (svc_def, bytes "base", found_svc, here refl, stop (bytes "base"))

validate_dependencies_iff_example :
    (validate_dependencies made ≡ []) ↔ Closed made.defs_by_name made.state
validate_dependencies_iff_example = validate_dependencies_iff made made_lem.1

-- A saved state that turns off what a mandatory component needs.
abbrev saved : Map Bool
saved = (bytes "base", false) ∷ []

saved-Distinct : Distinct (keys saved)
unfolding keys contains
saved-Distinct = (refl, tt)

load_state_lem_example :
    ((n : Text)
      → flag (ComponentManager.state (load_state pair saved)) n
        ≡ restored (lookup n pair.defs_by_name) (lookup n saved) (flag pair.state n))
    × (ComponentManager.definitions (load_state pair saved) ≡ pair.definitions)
load_state_lem_example = load_state_lem pair saved saved-Distinct

loaded_broken :
    validate_dependencies (load_state pair saved)
    ≡ dependency_disabled (bytes "svc") (bytes "base") ∷ []
unfolding runs validate_dependencies load_state
loaded_broken = refl

pair-Distinct : Distinct (keys pair.state)
unfolding keys contains ◌==◌
pair-Distinct = (refl, (refl, tt))

stored_base : lookup (bytes "base") pair.state ≡ some true
unfolding runs
stored_base = refl

load_state-save_state_example :
    flag (ComponentManager.state (load_state pair (save_state pair))) (bytes "base") ≡ true
load_state-save_state_example =
    load_state-save_state pair pair (bytes "base") base_def true pair-Distinct found_base
      stored_base (λ must. refl)
