-- ===== src/Component/Filter.antt =====
-- `FilterTree` of internal/core/component.go.
use zhi.Common.{
  Text, Bool, true, List, [], ◌∷◌, Option, none, some, ok, err, ◌≡◌, if◌then◌else◌, ◌==◌,
}
use zhi.Config.Tree.{Tree, new_tree, set, get, list}
use zhi.Config.Trees.{IsTree}
use zhi.Component.Manager.{ComponentManager, flag, path_belongs_to_component}

-- !owned || cm.state[comp]
unfoldable pub is_kept : ComponentManager → Text → Bool
unfolding path_belongs_to_component
is_kept cm path = elim (path_belongs_to_component cm path) [
  | none ↦ true
  | some comp ↦ flag cm.state comp
]

module _ {V : Type 0} where
  -- One round of the loop. The error of Set is dropped.
  unfoldable pub filter_path : ComponentManager → Tree V → Text → Tree V → Tree V
  unfolding is_kept
  filter_path cm tree path filtered =
      if is_kept cm path
      then elim (get tree path) [
        | none ↦ filtered
        | some v ↦ elim (set path v filtered) [ ok t ↦ t | err e ↦ filtered ]
      ]
      else filtered

  unfoldable pub filter_paths : ComponentManager → Tree V → List Text → Tree V → Tree V
  unfolding filter_path
  filter_paths cm tree [] filtered = filtered
  filter_paths cm tree (path ∷ paths) filtered =
      filter_paths cm tree paths (filter_path cm tree path filtered)

  unfoldable pub filter_tree : ComponentManager → Tree V → Tree V
  unfolding filter_paths list
  filter_tree cm tree = filter_paths cm tree (list tree) new_tree

  -- What the loop leaves at a path that it meets, from what stood there before.
  abbrev taken : ComponentManager → Tree V → Text → Option V → Option V
  taken cm tree q before =
      if is_kept cm q then elim (get tree q) [ none ↦ before | some v ↦ some v ] else before

  -- A tree after a path was met.
  abbrev Takes : ComponentManager → Tree V → Text → Tree V → Tree V → Type 0
  Takes cm tree path t t' =
      IsTree t'
      × ((q : Text) → get t' q ≡ (if path == q then taken cm tree q (get t q) else get t q))
