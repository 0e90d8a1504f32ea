-- ===== src/Component/KahnLoop.antt =====
-- The loop of `detectCycles` (internal/core/component.go) visits a node after its dependencies.
use zhi.Common.{
  ℕ, zero, suc, ◌+◌, ◌<◌, Text, true, false, List, [], ◌∷◌, ◌++◌, some, ◌≡◌, arith, Map, length,
  length-append, eq_iff, Bool-cases, inl, inr, contains, contains-append, Distinct-middle, Within,
  position, position-append, position-lt, position-snoc, All, All-map, append_assoc, subst,
}
use zhi.Component.Manager.{ComponentDef}
use zhi.Component.Cycles.{degree, adjacent, release, visit}
use zhi.Component.Graph.{count, deps_of, names}
use zhi.Component.Kahn.{
  pending, pending-snoc, pending-zero, degree-release, Settled, Settled-release,
}

-- The dependencies of the visited nodes were visited before them.
abbrev pub Before : List Text → Text → Text → Type 0
Before done n d = (contains done d ≡ true) × (position done d < position done n)

abbrev pub IsOrdered : List ComponentDef → List Text → Type 0
IsOrdered ds done = (n : Text) → contains done n ≡ true → All (Before done n) (deps_of ds n)

IsOrdered-snoc :
    (ds : List ComponentDef) (done : List Text) (x : Text)
    → IsOrdered ds done
    → contains done x ≡ false
    → All (λ d. contains done d ≡ true) (deps_of ds x)
    → IsOrdered ds (done ++ x ∷ [])
IsOrdered-snoc ds done x ordered fresh ready n h = elim (Bool-cases (contains done n)) [
  | inl old ↦
      All-map (deps_of ds n)
        (λ d b. ground (
          arith,
          contains-append done (x ∷ []) d,
          position-append done (x ∷ []) d b.0,
          position-append done (x ∷ []) n old,
        ))
        (ordered n old)
  | inr new ↦
      let last : x ≡ n =
        unfold contains in ground (arith, contains-append done (x ∷ []) n, eq_iff x n) in
      subst (λ z. All (Before (done ++ x ∷ []) z) (deps_of ds z)) last
        (All-map (deps_of ds x)
          (λ d b. ground (
            arith,
            contains-append done (x ∷ []) d,
            position-append done (x ∷ []) d b,
            position-snoc done x fresh,
            position-lt done d b,
          ))
          ready)
]

longer : (done : List Text) (node : Text) → length (done ++ node ∷ []) ≡ length done + 1
longer done node = omega (arith, length-append done (node ∷ []))

module _ (ds : List ComponentDef) where
  pub record Inv (done queue : List Text) (m : Map ℕ) : Type 0 where
    pub settled : Settled ds (done ++ queue) m
    pub degrees : (n : Text) → degree m n ≡ pending done (deps_of ds n)
    pub ordered : IsOrdered ds done

  -- The dependents map lists the edges of the definitions.
  pub record Lists (next : Map (List Text)) : Type 0 where
    pub edges : (n x : Text) → count n (adjacent next x) ≡ count x (deps_of ds n)
    pub known : (x : Text) → Within (adjacent next x) (names ds)

  module _ (next : Map (List Text)) (lists : Lists next) where
    Inv-visit :
        (done queue : List Text) (node : Text) (m : Map ℕ)
        → Inv done (node ∷ queue) m
        → Inv
            (done ++ node ∷ [])
            (release (adjacent next node) m queue).1
            (release (adjacent next node) m queue).0
    Inv-visit done queue node m i =
        let fresh = Distinct-middle done node queue i.settled.distinct in
        let listed : contains (done ++ node ∷ queue) node ≡ true =
          unfold contains in
          ground (arith, contains-append done (node ∷ queue) node, eq_iff node node) in
        let zero_degree : degree m node ≡ 0 =
          ground (arith, i.settled.zeros node (i.settled.named node listed)) in
        let ready = pending-zero done (deps_of ds node) (ground (arith, i.degrees node)) in
        record {
          settled =
              Settled-release ds (adjacent next node) (done ++ node ∷ []) queue m (lists.known node)
                (rw append_assoc i.settled);
          degrees = λ n. omega (
            arith,
            degree-release (adjacent next node) m queue n,
            i.degrees n,
            lists.edges n node,
            pending-snoc done (deps_of ds n) node fresh,
          );
          ordered = IsOrdered-snoc ds done node i.ordered fresh ready;
        }

    -- When the loop ends, its count is that of a list of visited nodes, and none is left.
    pub visit-Inv :
        (fuel : ℕ) (done queue : List Text) (m : Map ℕ) (r : ℕ)
        → Inv done queue m
        → visit fuel next m queue (length done) ≡ some r
        → (final : List Text) × (m' : Map ℕ) × Inv final [] m' × (length final ≡ r)
    unfolding visit
    visit-Inv zero done queue m r i h = absurd (cc)
    visit-Inv (suc fuel) done [] m r i h = (done, m, i, ground arith)
    visit-Inv (suc fuel) done (node ∷ queue) m r i h =
        visit-Inv fuel (done ++ node ∷ []) (release (adjacent next node) m queue).1
          (release (adjacent next node) m queue).0 r (Inv-visit done queue node m i)
          (rw (longer done node) h)
