-- ===== src/Component/Setup.antt =====
-- `NewComponentManager` and `checkOverlappingPaths` of internal/core/component.go.
use zhi.Common.{
  ℕ, ◌+◌, Text, Bool, false, List, [], ◌∷◌, ◌++◌, Option, none, some, Result, ok, err, ◌>>◌,
  if◌then◌else◌, ◌==◌, Map, lookup, insert, for_each, length,
}
use zhi.Component.Paths.{prefix_overlaps}
use zhi.Component.Manager.{
  ComponentDef, ComponentManager, Ownership, ComponentError, duplicate_name, unknown_dependency,
  overlapping_paths,
}
use zhi.Component.Cycles.{detect_cycles}
use zhi.Component.Enable.{enable_transitive}

unfoldable pub index_definitions :
    List ComponentDef → Map ComponentDef → Result ComponentError (Map ComponentDef)
index_definitions [] m = ok m
index_definitions (d ∷ ds) m = elim (lookup d.name m) [
  | some _ ↦ err (duplicate_name d.name)
  | none ↦ index_definitions ds (insert d.name d m)
]

unfoldable pub check_dependencies :
    Map ComponentDef → Text → List Text → Result ComponentError (Unit {0})
check_dependencies m name [] = ok tt
check_dependencies m name (dep ∷ deps) = elim (lookup dep m) [
  | none ↦ err (unknown_dependency name dep)
  | some _ ↦ check_dependencies m name deps
]

unfoldable pub check_references :
    Map ComponentDef → List ComponentDef → Result ComponentError (Unit {0})
unfolding check_dependencies
check_references m [] = ok tt
check_references m (d ∷ ds) = do check_dependencies m d.name d.dependencies; check_references m ds

unfoldable pub owned_by : Text → List Text → List Ownership
owned_by name [] = []
owned_by name (p ∷ ps) = record { prefix = p; component = name } ∷ owned_by name ps

unfoldable pub ownerships : List ComponentDef → List Ownership
unfolding owned_by
ownerships [] = []
ownerships (d ∷ ds) = owned_by d.name d.paths ++ ownerships ds

-- The inner loop, over the entries behind `a`.
unfoldable pub check_against : Ownership → List Ownership → Result ComponentError (Unit {0})
check_against a [] = ok tt
check_against a (b ∷ bs) =
    if a.component == b.component
    then check_against a bs
    else if prefix_overlaps a.prefix b.prefix
    then err (overlapping_paths a b)
    else check_against a bs

unfoldable pub check_pairs : List Ownership → Result ComponentError (Unit {0})
unfolding check_against
check_pairs [] = ok tt
check_pairs (a ∷ rest) = do check_against a rest; check_pairs rest

unfoldable pub check_overlapping_paths : List ComponentDef → Result ComponentError (Unit {0})
unfolding ownerships check_pairs
check_overlapping_paths defs = check_pairs (ownerships defs)

unfoldable pub all_disabled : List ComponentDef → Map Bool → Map Bool
all_disabled [] st = st
all_disabled (d ∷ ds) st = all_disabled ds (insert d.name false st)

unfoldable pub enable_mandatory :
    Map ComponentDef → ℕ → List ComponentDef → Map Bool → Option (Map Bool)
unfolding enable_transitive
enable_mandatory m fuel defs st =
    for_each
      (λ (d : ComponentDef) s. if d.mandatory then enable_transitive m fuel d.name s else some s)
      defs st

abbrev pub Made : Type 0
Made = Option (Result ComponentError ComponentManager)

-- The part of `NewComponentManager` behind the checks of the names and the references.
unfoldable pub finish_setup : (List Text → List Text) → List ComponentDef → Map ComponentDef → Made
unfolding detect_cycles check_overlapping_paths all_disabled enable_mandatory
finish_setup iterate defs m = elim (detect_cycles iterate defs) [
  | none ↦ none
  | some (err e) ↦ some (err e)
  | some (ok _) ↦ elim (check_overlapping_paths defs) [
    | err e ↦ some (err e)
    | ok _ ↦ elim (enable_mandatory m (length defs + 1) defs (all_disabled defs [])) [
      | none ↦ none
      | some st ↦ some (ok (record { definitions = defs; state = st; defs_by_name = m }))
    ]
  ]
]

unfoldable pub new_component_manager : (List Text → List Text) → List ComponentDef → Made
unfolding index_definitions check_references finish_setup
new_component_manager iterate defs = elim (index_definitions defs []) [
  | err e ↦ some (err e)
  | ok m ↦ elim (check_references m defs) [
    | err e ↦ some (err e)
    | ok _ ↦ finish_setup iterate defs m
  ]
]
