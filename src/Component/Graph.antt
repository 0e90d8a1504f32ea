-- ===== src/Component/Graph.antt =====
-- What the maps that `detectCycles` (internal/core/component.go) builds say of the definitions.
use zhi.Common.{
  ℕ, ◌+◌, Text, Bool, true, ◌||◌, List, [], ◌∷◌, ◌++◌, ◌≡◌, refl, arith, Map, lookup, insert,
  lookup-insert, keys, length, length-append, if◌then◌else◌, ◌==◌, eq_iff, Option-cases, inl, inr,
  contains, contains-keys-insert, Distinct, Distinct-keys-insert, contains-keys,
}
use zhi.Component.Manager.{ComponentDef}
use zhi.Component.Cycles.{degree, adjacent, Graph, add_edge, add_edges, add_node, build_graph}

-- How often a name stands in a list.
unfoldable pub count : Text → List Text → ℕ
count x [] = 0
count x (y ∷ ys) = (if y == x then 1 else 0) + count x ys

pub count-append : (x : Text) (ys zs : List Text) → count x (ys ++ zs) ≡ count x ys + count x zs
unfolding count
count-append x [] zs = omega arith
count-append x (y ∷ ys) zs = omega (arith, count-append x ys zs)

-- The dependencies of the definitions with a name.
unfoldable pub deps_of : List ComponentDef → Text → List Text
deps_of [] n = []
deps_of (d ∷ ds) n = (if d.name == n then d.dependencies else []) ++ deps_of ds n

unfoldable pub names : List ComponentDef → List Text
names [] = []
names (d ∷ ds) = d.name ∷ names ds

pub degree-insert :
    (k j : Text) (v : ℕ) (m : Map ℕ) → degree (insert k v m) j ≡ (if k == j then v else degree m j)
unfolding degree
degree-insert k j v m = ground (arith, lookup-insert k j v m)

adjacent-insert :
    (k j : Text) (v : List Text) (m : Map (List Text))
    → adjacent (insert k v m) j ≡ (if k == j then v else adjacent m j)
unfolding adjacent
adjacent-insert k j v m = ground (arith, lookup-insert k j v m)

degree-add_edges :
    (name n : Text) (deps : List Text) (g : Graph)
    → degree (add_edges name deps g).in_degree n
      ≡ degree g.in_degree n + (if name == n then length deps else 0)
unfolding add_edges
degree-add_edges name n [] g = ground arith
degree-add_edges name n (dep ∷ deps) g = ground (
  arith,
  degree-add_edges name n deps (add_edge name dep g),
  degree-insert name n (degree g.in_degree name + 1) g.in_degree,
  eq_iff name n,
)

count-snoc :
    (n name : Text) (l : List Text)
    → count n (l ++ name ∷ []) ≡ count n l + (if name == n then 1 else 0)
unfolding count
count-snoc n name [] = omega arith
count-snoc n name (y ∷ l) = omega (arith, count-snoc n name l)

count-add_edges :
    (name n x : Text) (deps : List Text) (g : Graph)
    → count n (adjacent (add_edges name deps g).dependents x)
      ≡ count n (adjacent g.dependents x) + (if name == n then count x deps else 0)
unfolding add_edges count
count-add_edges name n x [] g = ground arith
count-add_edges name n x (dep ∷ deps) g = ground (
  arith,
  count-add_edges name n x deps (add_edge name dep g),
  adjacent-insert dep x (adjacent g.dependents dep ++ name ∷ []) g.dependents,
  count-snoc n name (adjacent g.dependents dep),
  eq_iff dep x,
)

degree-add_node :
    (name n : Text) (g : Graph) → degree (add_node name g).in_degree n ≡ degree g.in_degree n
unfolding add_node degree
degree-add_node name n g = ground (arith, lookup-insert name n 0 g.in_degree, eq_iff name n)

dependents-add_node : (name : Text) (g : Graph) → (add_node name g).dependents ≡ g.dependents
unfolding add_node
dependents-add_node name g = ground arith

-- The in-degree of a name is the number of its dependencies.
pub degree-build_graph :
    (ds : List ComponentDef) (n : Text) (g : Graph)
    → degree (build_graph ds g).in_degree n ≡ degree g.in_degree n + length (deps_of ds n)
unfolding build_graph deps_of
degree-build_graph [] n g = omega arith
degree-build_graph (d ∷ ds) n g = ground (
  arith,
  degree-build_graph ds n (add_edges d.name d.dependencies (add_node d.name g)),
  degree-add_edges d.name n d.dependencies (add_node d.name g),
  degree-add_node d.name n g,
  length-append d.dependencies (deps_of ds n),
)

-- A name stands among the dependents of `x` as often as `x` among its dependencies.
pub count-build_graph :
    (ds : List ComponentDef) (n x : Text) (g : Graph)
    → count n (adjacent (build_graph ds g).dependents x)
      ≡ count n (adjacent g.dependents x) + count x (deps_of ds n)
unfolding build_graph deps_of
count-build_graph [] n x g = unfold count in omega arith
count-build_graph (d ∷ ds) n x g = ground (
  arith,
  count-build_graph ds n x (add_edges d.name d.dependencies (add_node d.name g)),
  count-add_edges d.name n x d.dependencies (add_node d.name g),
  dependents-add_node d.name g,
  count-append x d.dependencies (deps_of ds n),
)

-- The keys of the in-degrees.
abbrev pub has_key : Map ℕ → Text → Bool
has_key m x = contains (keys m) x

has_key-add_edges :
    (name x : Text) (deps : List Text) (g : Graph)
    → has_key g.in_degree name ≡ true
    → has_key (add_edges name deps g).in_degree x ≡ has_key g.in_degree x
unfolding add_edges
has_key-add_edges name x [] g h = refl
has_key-add_edges name x (dep ∷ deps) g h = ground (
  arith,
  has_key-add_edges name x deps (add_edge name dep g),
  contains-keys-insert name x (degree g.in_degree name + 1) g.in_degree,
  contains-keys-insert name name (degree g.in_degree name + 1) g.in_degree,
  eq_iff name x,
  eq_iff name name,
)

has_key-add_node :
    (name x : Text) (g : Graph)
    → has_key (add_node name g).in_degree x ≡ (name == x || has_key g.in_degree x)
unfolding add_node
has_key-add_node name x g = ground (
  arith,
  contains-keys-insert name x 0 g.in_degree,
  contains-keys name g.in_degree,
  eq_iff name x,
)

-- The names of the definitions are the keys of the in-degrees.
pub has_key-build_graph :
    (ds : List ComponentDef) (x : Text) (g : Graph)
    → has_key (build_graph ds g).in_degree x ≡ (contains (names ds) x || has_key g.in_degree x)
unfolding build_graph names contains
has_key-build_graph [] x g = refl
has_key-build_graph (d ∷ ds) x g = ground (
  arith,
  has_key-build_graph ds x (add_edges d.name d.dependencies (add_node d.name g)),
  has_key-add_edges d.name x d.dependencies (add_node d.name g),
  has_key-add_node d.name x g,
  has_key-add_node d.name d.name g,
  eq_iff d.name d.name,
)

Distinct-add_edges :
    (name : Text) (deps : List Text) (g : Graph)
    → Distinct (keys g.in_degree)
    → Distinct (keys (add_edges name deps g).in_degree)
unfolding add_edges
Distinct-add_edges name [] g h = h
Distinct-add_edges name (dep ∷ deps) g h =
    Distinct-add_edges name deps (add_edge name dep g)
      (Distinct-keys-insert name (degree g.in_degree name + 1) g.in_degree h)

Distinct-add_node :
    (name : Text) (g : Graph)
    → Distinct (keys g.in_degree)
    → Distinct (keys (add_node name g).in_degree)
unfolding add_node
Distinct-add_node name g h = elim (Option-cases (lookup name g.in_degree)) [
  | inl fresh ↦ rw (fresh, add_node) (Distinct-keys-insert name 0 g.in_degree h)
  | inr (n, old) ↦ rw (old, add_node) h
]

pub Distinct-build_graph :
    (ds : List ComponentDef) (g : Graph)
    → Distinct (keys g.in_degree)
    → Distinct (keys (build_graph ds g).in_degree)
unfolding build_graph
Distinct-build_graph [] g h = h
Distinct-build_graph (d ∷ ds) g h =
    Distinct-build_graph ds (add_edges d.name d.dependencies (add_node d.name g))
      (Distinct-add_edges d.name d.dependencies (add_node d.name g) (Distinct-add_node d.name g h))
