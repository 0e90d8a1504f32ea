-- ===== src/Component/Cycles.antt =====
-- `detectCycles` of internal/core/component.go: Kahn's algorithm.
-- An in-degree is never decremented at 0 here: the test for reaching 0 is made as a test for 1
-- before the decrement, which is the same on the integers of the source.
use zhi.Common.{
  ℕ, zero, suc, ◌+◌, ◌-◌, Text, List, [], ◌∷◌, ◌++◌, Option, none, some, Result, ok, err, nat_eq,
  if◌then◌else◌, Map, lookup, insert, keys, length,
}
use zhi.Component.Manager.{ComponentDef, ComponentError, circular_dependency}

-- inDegree[name] and dependents[name], with the zero value for a missing key.
unfoldable pub degree : Map ℕ → Text → ℕ
degree m name = elim (lookup name m) [ none ↦ 0 | some n ↦ n ]

unfoldable pub adjacent : Map (List Text) → Text → List Text
adjacent m name = elim (lookup name m) [ none ↦ [] | some l ↦ l ]

pub record Graph : Type 0 where
  pub in_degree : Map ℕ
  pub dependents : Map (List Text)

-- The body of the loop over the dependencies.
abbrev pub add_edge : Text → Text → Graph → Graph
add_edge name dep g = record {
  in_degree = insert name (degree g.in_degree name + 1) g.in_degree;
  dependents = insert dep (adjacent g.dependents dep ++ name ∷ []) g.dependents;
}

unfoldable pub add_edges : Text → List Text → Graph → Graph
add_edges name [] g = g
add_edges name (dep ∷ deps) g = add_edges name deps (add_edge name dep g)

-- if _, exists := inDegree[name]; !exists { inDegree[name] = 0 }
unfoldable pub add_node : Text → Graph → Graph
add_node name g = elim (lookup name g.in_degree) [
  | none ↦ record g { in_degree = insert name 0 g.in_degree }
  | some n ↦ g
]

unfoldable pub build_graph : List ComponentDef → Graph → Graph
build_graph [] g = g
build_graph (d ∷ ds) g = build_graph ds (add_edges d.name d.dependencies (add_node d.name g))

unfoldable pub seed : Map ℕ → List Text → List Text
seed m [] = []
seed m (name ∷ names) = (if nat_eq (degree m name) 0 then name ∷ [] else []) ++ seed m names

-- The inner loop: the degrees and the queue after a node's dependents were released.
unfoldable pub release : List Text → Map ℕ → List Text → Map ℕ × List Text
release [] m queue = (m, queue)
release (name ∷ names) m queue =
    release names (insert name (degree m name - 1) m)
      (if nat_eq (degree m name) 1 then queue ++ name ∷ [] else queue)

-- The loop over the queue counts the visited nodes; `none` means that the fuel ran out.
unfoldable pub visit : ℕ → Map (List Text) → Map ℕ → List Text → ℕ → Option ℕ
visit zero dependents m queue visited = none
visit (suc fuel) dependents m [] visited = some visited
visit (suc fuel) dependents m (node ∷ queue) visited =
    let (m', queue') = release (adjacent dependents node) m queue in
    visit fuel dependents m' queue' (visited + 1)

unfoldable pub total : Map ℕ → ℕ
total [] = 0
total ((name, n) ∷ m) = n + total m

abbrev pub empty_graph : Graph
empty_graph = record { in_degree = []; dependents = [] }

-- The count of visited nodes. `iterate` is the order in which Go walks over the keys of a map.
unfoldable pub count_visited : (List Text → List Text) → List ComponentDef → Option ℕ
unfolding build_graph seed visit total degree adjacent add_edges add_node release
count_visited iterate defs =
    let g = build_graph defs empty_graph in
    let queue = seed g.in_degree (iterate (keys g.in_degree)) in
    visit (length queue + total g.in_degree + 1) g.dependents g.in_degree queue 0

unfoldable pub detect_cycles :
    (List Text → List Text) → List ComponentDef → Option (Result ComponentError (Unit {0}))
unfolding count_visited
detect_cycles iterate defs = elim (count_visited iterate defs) [
  | none ↦ none
  | some visited ↦ some (if nat_eq visited (length defs) then ok tt else err circular_dependency)
]
