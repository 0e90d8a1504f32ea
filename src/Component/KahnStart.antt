-- ===== src/Component/KahnStart.antt =====
-- How the loop of `detectCycles` (internal/core/component.go) starts, and how it ends.
use zhi.Common.{
  ℕ, ◌<◌, Text, true, false, ◌&&◌, List, [], ◌∷◌, some, lookup, ◌≡◌, refl, sym, arith, Map, keys,
  length, eq_iff, contains, contains-append, Distinct, Within, nat_eq, ◌∙◌,
}
use zhi.Component.Manager.{ComponentDef}
use zhi.Component.Cycles.{Graph, degree, adjacent, seed, build_graph, empty_graph, count_visited}
use zhi.Component.Graph.{
  count, deps_of, names, degree-build_graph, count-build_graph, has_key, has_key-build_graph,
  Distinct-build_graph,
}
use zhi.Component.Kahn.{pending-nil}
use zhi.Component.KahnLoop.{Inv, Lists, visit-Inv}

-- Go walks over the keys of a map in any order, and meets each once.
pub record Walks (iterate : List Text → List Text) : Type 0 where
  pub once : (l : List Text) → Distinct l → Distinct (iterate l)
  pub same : (l : List Text) (x : Text) → contains (iterate l) x ≡ contains l x

contains-seed :
    (m : Map ℕ) (l : List Text) (n : Text)
    → contains (seed m l) n ≡ (contains l n && nat_eq (degree m n) 0)
unfolding seed contains
contains-seed m [] n = refl
contains-seed m (x ∷ l) n = ground (arith, contains-seed m l n, eq_iff x n)

Distinct-seed : (m : Map ℕ) (l : List Text) → Distinct l → Distinct (seed m l)
unfolding seed contains
Distinct-seed m [] h = tt
Distinct-seed m (x ∷ l) h = ground (arith, Distinct-seed m l h.1, contains-seed m l x)

contains-deps_of :
    (ds : List ComponentDef) (n x : Text)
    → contains (deps_of ds n) x ≡ true
    → contains (names ds) n ≡ true
unfolding deps_of names contains
contains-deps_of [] n x h = absurd (cc)
contains-deps_of (d ∷ ds) n x h =
    ground (arith, contains-append d.dependencies (deps_of ds n) x, contains-deps_of ds n x)

contains-count : (x : Text) (l : List Text) → contains l x ≡ true → 0 < count x l
unfolding count contains
contains-count x [] h = absurd (cc)
contains-count x (y ∷ l) h = ground (arith, contains-count x l)

count-contains : (x : Text) (l : List Text) → 0 < count x l → contains l x ≡ true
unfolding count contains
count-contains x [] h = absurd (omega arith)
count-contains x (y ∷ l) h = ground (arith, count-contains x l)

no_edge : (n x : Text) → count n (adjacent empty_graph.dependents x) ≡ 0
unfolding adjacent lookup count
no_edge n x = refl

no_degree : (n : Text) → degree empty_graph.in_degree n ≡ 0
unfolding degree lookup
no_degree n = refl

no_key : (x : Text) → has_key empty_graph.in_degree x ≡ false
unfolding keys contains
no_key x = refl

module _ (ds : List ComponentDef) where
  abbrev graph : Graph
  graph = build_graph ds empty_graph

  lists : Lists ds graph.dependents
  lists = record { edges = edges; known = known }
    where
      edges : (n x : Text) → count n (adjacent graph.dependents x) ≡ count x (deps_of ds n)
      edges n x = omega (arith, count-build_graph ds n x empty_graph, no_edge n x)

      known : (x : Text) → Within (adjacent graph.dependents x) (names ds)
      known x n h = contains-deps_of ds n x (
          count-contains x (deps_of ds n)
            (omega (arith, edges n x, contains-count n (adjacent graph.dependents x) h)))

  degree-graph : (n : Text) → degree graph.in_degree n ≡ length (deps_of ds n)
  degree-graph n = omega (arith, degree-build_graph ds n empty_graph, no_degree n)

  has_key-graph : (x : Text) → has_key graph.in_degree x ≡ contains (names ds) x
  has_key-graph x = ground (arith, has_key-build_graph ds x empty_graph, no_key x)

  module _ (iterate : List Text → List Text) (w : Walks iterate) where
    abbrev first_queue : List Text
    first_queue = seed graph.in_degree (iterate (keys graph.in_degree))

    start : Inv ds [] first_queue graph.in_degree
    start = record {
      settled = record {
        distinct = Distinct-seed graph.in_degree (iterate (keys graph.in_degree)) (
            w.once (keys graph.in_degree)
              (Distinct-build_graph ds empty_graph (unfold keys in tt)));
        named = λ x h. ground (
          arith,
          contains-seed graph.in_degree (iterate (keys graph.in_degree)) x,
          w.same (keys graph.in_degree) x,
          has_key-graph x,
        );
        zeros = λ n h. ground (
          arith,
          contains-seed graph.in_degree (iterate (keys graph.in_degree)) n,
          w.same (keys graph.in_degree) n,
          has_key-graph n,
        );
      };
      degrees = λ n. degree-graph n ∙ sym (pending-nil (deps_of ds n));
      ordered = λ n h. absurd (unfold contains in cc h);
    }

    pub run :
        (r : ℕ)
        → count_visited iterate ds ≡ some r
        → (final : List Text) × (m : Map ℕ) × Inv ds final [] m × (length final ≡ r)
    unfolding count_visited
    run r h = visit-Inv ds graph.dependents lists _ [] first_queue graph.in_degree r start h
