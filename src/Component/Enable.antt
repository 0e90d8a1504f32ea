-- ===== src/Component/Enable.antt =====
-- `Enable`, `enableTransitive`, `EnableWithReport` and `enableWithReport` of
-- internal/core/component.go. `none` is a run with no result: out of fuel, or a nil definition.
use zhi.Common.{
  ℕ, zero, suc, ◌+◌, Text, Bool, true, List, [], ◌∷◌, ◌++◌, Option, none, some, Result, ok, err,
  if◌then◌else◌, Map, lookup, insert, for_each, length,
}
use zhi.Component.Manager.{ComponentDef, ComponentManager, ComponentError, unknown_component, flag}

unfoldable pub enable_transitive : Map ComponentDef → ℕ → Text → Map Bool → Option (Map Bool)
unfolding flag
enable_transitive defs zero name st = none
enable_transitive defs (suc fuel) name st =
    if flag st name then some st else elim (lookup name defs) [
      | none ↦ none
      | some def ↦ for_each (enable_transitive defs fuel) def.dependencies (insert name true st)
    ]

-- The recursion turns on a component at each level.
abbrev pub fuel_for : ComponentManager → ℕ
fuel_for cm = length cm.definitions + 1

unfoldable pub enable : ComponentManager → Text → Option (Result ComponentError ComponentManager)
unfolding enable_transitive
enable cm name = elim (lookup name cm.defs_by_name) [
  | none ↦ some (err (unknown_component name))
  | some def ↦ elim (enable_transitive cm.defs_by_name (fuel_for cm) name cm.state) [
    | none ↦ none
    | some st ↦ some (ok (record cm { state = st }))
  ]
]

-- The state and the list that `enabled` points to.
abbrev pub Report : Type 0
Report = Map Bool × List Text

unfoldable pub enable_with_report_rec : Map ComponentDef → ℕ → Text → Report → Option Report
unfolding flag
enable_with_report_rec defs zero name r = none
enable_with_report_rec defs (suc fuel) name r =
    if flag r.0 name then some r else elim (lookup name defs) [
      | none ↦ none
      | some def ↦ elim (for_each (enable_with_report_rec defs fuel) def.dependencies r) [
        | none ↦ none
        | some r' ↦ some (insert name true r'.0, r'.1 ++ name ∷ [])
      ]
    ]

unfoldable pub enable_with_report :
    ComponentManager → Text → Option (Result ComponentError (ComponentManager × List Text))
unfolding enable_with_report_rec
enable_with_report cm name = elim (lookup name cm.defs_by_name) [
  | none ↦ some (err (unknown_component name))
  | some def ↦ elim (enable_with_report_rec cm.defs_by_name (fuel_for cm) name (cm.state, [])) [
    | none ↦ none
    | some r ↦ some (ok (record cm { state = r.0 }, r.1))
  ]
]
