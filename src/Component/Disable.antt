-- ===== src/Component/Disable.antt =====
-- `Disable`, `DisableCascade`, `transitiveDependents` and `disableCascadeRecursive` of
-- internal/core/component.go. `none` is a run with no result: out of fuel.
use zhi.Common.{
  ℕ, zero, suc, Text, Bool, true, false, not, ◌&&◌, ◌||◌, List, [], ◌∷◌, ◌++◌, Option, none, some,
  Result, ok, err, if◌then◌else◌, ◌==◌, contains, Map, lookup, insert, keys, for_each, ltb, nat_eq,
}
use zhi.Component.Manager.{
  ComponentDef, ComponentManager, ComponentError, unknown_component, is_mandatory,
  required_by_enabled, required_by_mandatory, flag,
}
use zhi.Component.Enable.{fuel_for, Report}

-- The first enabled component that depends on `name`.
unfoldable pub enabled_dependent : Map Bool → List ComponentDef → Text → Option Text
unfolding flag contains
enabled_dependent st [] name = none
enabled_dependent st (d ∷ ds) name =
    if not (flag st d.name)
    then enabled_dependent st ds name
    else if contains d.dependencies name
    then some d.name
    else enabled_dependent st ds name

unfoldable pub disable : ComponentManager → Text → Result ComponentError ComponentManager
unfolding enabled_dependent
disable cm name = elim (lookup name cm.defs_by_name) [
  | none ↦ err (unknown_component name)
  | some def ↦
      if def.mandatory
      then err (is_mandatory name)
      else elim (enabled_dependent cm.state cm.definitions name) [
        | some by ↦ err (required_by_enabled name by)
        | none ↦ ok (record cm { state = insert name false cm.state })
      ]
]

-- The body of the loop in the closure `walk`, with the recursive call as `rec`.
unfoldable pub walk_into :
    (Text → Map Bool → Option (Map Bool)) → Text → ComponentDef → Map Bool → Option (Map Bool)
walk_into rec n d visited = elim (flag visited d.name) [
  | true ↦ some visited
  | false ↦ elim (contains d.dependencies n) [
    | true ↦ rec d.name (insert d.name true visited)
    | false ↦ some visited
  ]
]

-- The closure `walk` of `transitiveDependents`, over the map `visited`.
unfoldable pub walk : List ComponentDef → ℕ → Text → Map Bool → Option (Map Bool)
walk defs zero n visited = none
walk defs (suc fuel) n visited = for_each (walk_into (walk defs fuel) n) defs visited

-- slices.Sorted on strings: by bytes.
unfoldable pub text_le : Text → Text → Bool
text_le [] t = true
text_le (a ∷ s) [] = false
text_le (a ∷ s) (b ∷ t) = ltb a b || (nat_eq a b && text_le s t)

unfoldable pub insert_sorted : Text → List Text → List Text
unfolding text_le
insert_sorted x [] = x ∷ []
insert_sorted x (y ∷ ys) = if text_le x y then x ∷ y ∷ ys else y ∷ insert_sorted x ys

unfoldable pub sorted : List Text → List Text
unfolding insert_sorted
sorted [] = []
sorted (x ∷ xs) = insert_sorted x (sorted xs)

unfoldable pub transitive_dependents : ComponentManager → Text → Option (List Text)
unfolding walk walk_into flag contains sorted
transitive_dependents cm name = elim (walk cm.definitions (fuel_for cm) name []) [
  | none ↦ none
  | some visited ↦ some (sorted (keys visited))
]

-- The first mandatory component of a list.
unfoldable pub first_mandatory : Map ComponentDef → List Text → Option Text
first_mandatory defs [] = none
first_mandatory defs (dep ∷ deps) = elim (lookup dep defs) [
  | none ↦ first_mandatory defs deps
  | some d ↦ if d.mandatory then some dep else first_mandatory defs deps
]

-- The loop over the dependencies of one definition `d`, with the recursive call as `rec`.
unfoldable pub cascade_into :
    (Text → Report → Option Report) → Text → ComponentDef → Report → Option Report
cascade_into rec name d r =
    for_each
      (λ dep (s : Report). elim (dep == name && flag s.0 d.name && not d.mandatory) [
        | true ↦ rec d.name s
        | false ↦ some s
      ])
      d.dependencies r

unfoldable pub disable_cascade_rec : List ComponentDef → ℕ → Text → Report → Option Report
disable_cascade_rec defs zero name r = none
disable_cascade_rec defs (suc fuel) name r =
    if not (flag r.0 name)
    then some r
    else elim (for_each (cascade_into (disable_cascade_rec defs fuel) name) defs r) [
      | none ↦ none
      | some r' ↦ some (insert name false r'.0, r'.1 ++ name ∷ [])
    ]

unfoldable pub disable_cascade :
    ComponentManager → Text → Option (Result ComponentError (ComponentManager × List Text))
unfolding transitive_dependents first_mandatory disable_cascade_rec cascade_into flag
disable_cascade cm name = elim (lookup name cm.defs_by_name) [
  | none ↦ some (err (unknown_component name))
  | some def ↦
      if def.mandatory
      then some (err (is_mandatory name))
      else elim (transitive_dependents cm name) [
        | none ↦ none
        | some deps ↦ elim (first_mandatory cm.defs_by_name deps) [
          | some by ↦ some (err (required_by_mandatory name by))
          | none ↦ elim (disable_cascade_rec cm.definitions (fuel_for cm) name (cm.state, [])) [
            | none ↦ none
            | some r ↦ some (ok (record cm { state = r.0 }, r.1))
          ]
        ]
      ]
]
