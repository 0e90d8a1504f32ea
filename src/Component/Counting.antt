-- ===== src/Component/Counting.antt =====
-- The loop of `detectCycles` (internal/core/component.go) ends: a round takes a node off the queue,
-- and each node that it adds has used up one of the counted edges.
use zhi.Common.{
  ℕ, zero, suc, ◌+◌, ◌-◌, ◌≤◌, ◌<◌, Text, List, [], ◌∷◌, ◌++◌, some, Result, ok, err, ◌≡◌, refl,
  arith, Map, lookup, insert, keys, length, length-append, nat_eq, if◌then◌else◌,
}
use zhi.Component.Manager.{ComponentDef, ComponentError, circular_dependency}
use zhi.Component.Cycles.{
  degree, adjacent, seed, build_graph, release, visit, total, empty_graph, count_visited,
  detect_cycles,
}

total-insert : (k : Text) (v : ℕ) (m : Map ℕ) → total (insert k v m) + degree m k ≡ total m + v
unfolding total insert degree lookup
total-insert k v [] = omega arith
total-insert k v ((j, w) ∷ m) = ground (arith, total-insert k v m)

-- The queue after one edge to `name` was used up.
abbrev pub released : Text → Map ℕ → List Text → List Text
released name m queue = if nat_eq (degree m name) 1 then queue ++ name ∷ [] else queue

length-released :
    (name : Text) (m : Map ℕ) (queue : List Text)
    → length (released name m queue) + total (insert name (degree m name - 1) m)
      ≤ length queue + total m
length-released name m queue =
    ground (arith, total-insert name (degree m name - 1) m, length-append queue (name ∷ []))

release-le :
    (names : List Text) (m : Map ℕ) (queue : List Text)
    → length (release names m queue).1 + total (release names m queue).0 ≤ length queue + total m
unfolding release
release-le [] m queue = omega arith
release-le (name ∷ names) m queue = omega (
  arith,
  release-le names (insert name (degree m name - 1) m) (released name m queue),
  length-released name m queue,
)

visit-total :
    (fuel : ℕ) (next : Map (List Text)) (m : Map ℕ) (queue : List Text) (visited : ℕ)
    → length queue + total m < fuel
    → (n : ℕ) × (visit fuel next m queue visited ≡ some n)
unfolding visit
visit-total zero next m queue visited enough = absurd (omega arith)
visit-total (suc fuel) next m [] visited enough = (visited, refl)
visit-total (suc fuel) next m (node ∷ queue) visited enough =
    visit-total fuel next (release (adjacent next node) m queue).0
      (release (adjacent next node) m queue).1 (visited + 1)
      (omega (arith, release-le (adjacent next node) m queue))

-- The count of visited nodes has a result, in whatever order the map's keys are walked over.
pub count_visited-total :
    (iterate : List Text → List Text) (defs : List ComponentDef)
    → (n : ℕ) × (count_visited iterate defs ≡ some n)
unfolding count_visited
count_visited-total iterate defs =
    let g = build_graph defs empty_graph in
    let queue = seed g.in_degree (iterate (keys g.in_degree)) in
    visit-total (length queue + total g.in_degree + 1) g.dependents g.in_degree queue 0
      (omega arith)

pub detect_cycles-total :
    (iterate : List Text → List Text) (defs : List ComponentDef)
    → (r : Result ComponentError (Unit {0})) × (detect_cycles iterate defs ≡ some r)
unfolding detect_cycles
detect_cycles-total iterate defs =
    let (n, counted) = count_visited-total iterate defs in
    (if nat_eq n (length defs) then ok tt else err circular_dependency, rw (counted, detect_cycles))
