-- ===== src/Component/Acyclic.antt =====
-- `detectCycles` (internal/core/component.go) accepts exactly the definitions without a cycle.
use zhi.Common.{
  ℕ, zero, suc, ◌≤◌, ◌<◌, Text, true, List, [], ◌∷◌, ◌++◌, some, ok, ◌≡◌, ◌↔◌, refl, arith, Map,
  length, if◌then◌else◌, ◌==◌, eq_iff, Bool-cases, inl, inr, contains, contains-append, Distinct,
  Distinct-length-le, Within, position, position-le, All, All-map, All-In, All-of_In, In, here,
  there, append-nil, subst, ◌∙◌, ap,
}
use zhi.Component.Manager.{ComponentDef}
use zhi.Component.Cycles.{count_visited, detect_cycles}
use zhi.Component.Counting.{count_visited-total}
use zhi.Component.Graph.{deps_of, names}
use zhi.Component.Kahn.{pending, All→pending-zero}
use zhi.Component.KahnLoop.{Before, Inv}
use zhi.Component.KahnStart.{Walks, run}

-- A rank that every dependency lowers: the definitions have no cycle.
abbrev pub IsRanked : List ComponentDef → (Text → ℕ) → Type 0
IsRanked ds rank = (d : ComponentDef) → In d ds → All (λ dep. rank dep < rank d.name) d.dependencies

abbrev pub IsAcyclic : List ComponentDef → Type 0
IsAcyclic ds = (rank : Text → ℕ) × IsRanked ds rank

module _ (P : Text → Type 0) where
  All-left : (xs ys : List Text) → All P (xs ++ ys) → All P xs
  All-left [] ys h = tt
  All-left (x ∷ xs) ys h = (h.0, All-left xs ys h.1)

  All-right : (xs ys : List Text) → All P (xs ++ ys) → All P ys
  All-right [] ys h = h
  All-right (x ∷ xs) ys h = All-right xs ys h.1

  All-append : (xs ys : List Text) → All P xs → All P ys → All P (xs ++ ys)
  All-append [] ys h k = k
  All-append (x ∷ xs) ys h k = (h.0, All-append xs ys h.1 k)

  -- The dependencies of one definition are among those of its name.
  deps_of-All :
      (ds : List ComponentDef) (d : ComponentDef)
      → In d ds
      → All P (deps_of ds d.name)
      → All P d.dependencies
  unfolding deps_of
  deps_of-All [] d m h = elim m [ ]
  deps_of-All (e ∷ ds) d (here same) h =
      let test : (e.name == d.name) ≡ true =
        ground (arith, eq_iff e.name d.name, ap (λ (x : ComponentDef). x.name) same) in
      subst (λ (x : ComponentDef). All P x.dependencies) same
        (All-left e.dependencies (deps_of ds d.name) (rw test at h))
  deps_of-All (e ∷ ds) d (there m) h =
      deps_of-All ds d m
        (All-right (if e.name == d.name then e.dependencies else []) (deps_of ds d.name) h)

  All-deps_of :
      (ds : List ComponentDef) (n : Text)
      → ((d : ComponentDef) → In d ds → d.name ≡ n → All P d.dependencies)
      → All P (deps_of ds n)
  unfolding deps_of
  All-deps_of [] n f = tt
  All-deps_of (e ∷ ds) n f =
      All-append (if e.name == n then e.dependencies else []) (deps_of ds n)
        (elim (Bool-cases (e.name == n)) [
          | inl same ↦ rw same (f e (here refl) ((eq_iff e.name n).0 same))
          | inr other ↦ rw other tt
        ])
        (All-deps_of ds n (λ d m named. f d (there m) named))

length-names : (ds : List ComponentDef) → length (names ds) ≡ length ds
unfolding names
length-names [] = refl
length-names (d ∷ ds) = omega (arith, length-names ds)

In-names : (ds : List ComponentDef) (d : ComponentDef) → In d ds → contains (names ds) d.name ≡ true
unfolding names contains
In-names [] d m = elim m [ ]
In-names (e ∷ ds) d (here same) =
    ground (arith, eq_iff e.name d.name, ap (λ (x : ComponentDef). x.name) same)
In-names (e ∷ ds) d (there m) = ground (arith, In-names ds d m)

-- When no node is left on the queue: what the list of the visited nodes holds.
module _ (ds : List ComponentDef) (final : List Text) (m : Map ℕ) (i : Inv ds final [] m) where
  Within-final : Within final (names ds)
  Within-final x h = i.settled.named x (ground (arith, contains-append final [] x))

  Distinct-final : Distinct final
  Distinct-final = subst Distinct (append-nil final) i.settled.distinct

  visited_of_zero :
      (x : Text)
      → contains (names ds) x ≡ true
      → pending final (deps_of ds x) ≡ 0
      → contains final x ≡ true
  unfolding contains
  visited_of_zero x h none_left =
      ground (arith, i.settled.zeros x h, i.degrees x, contains-append final [] x)

  -- As many visited nodes as definitions: then all of them were visited.
  names-Within : length final ≡ length ds → Within (names ds) final
  names-Within counted x h = elim (Bool-cases (contains final x)) [
    | inl seen ↦ seen
    | inr missed ↦ absurd (
        omega (
          arith,
          Distinct-length-le (x ∷ final) (names ds) (missed, Distinct-final) with_x,
          length-names ds,
          counted,
        ))
  ]
    where
      with_x : Within (x ∷ final) (names ds)
      with_x y k = unfold contains in ground (arith, Within-final y, eq_iff x y)

  module _ (rank : Text → ℕ) (ranked : IsRanked ds rank)
      (known : (d : ComponentDef)
        → In d ds
        → All (λ dep. contains (names ds) dep ≡ true) d.dependencies) where
    -- A name whose dependencies have smaller ranks is visited, by induction on the rank.
    visited_below :
        (k : ℕ) (x : Text) → contains (names ds) x ≡ true → rank x < k → contains final x ≡ true
    visited_below zero x h below = absurd (omega arith)
    visited_below (suc k) x h below =
        let smaller =
          All-deps_of (λ dep. rank dep < rank x) ds x
            (λ d member named.
              subst (λ z. All (λ dep. rank dep < rank z) d.dependencies) named (ranked d member)) in
        let defined =
          All-deps_of (λ dep. contains (names ds) dep ≡ true) ds x (λ d member _. known d member) in
        let visited =
          All-of_In (λ dep. contains final dep ≡ true) (deps_of ds x)
            (λ dep member.
              visited_below k dep (All-In (λ y. contains (names ds) y ≡ true) defined member)
                (omega (arith, All-In (λ y. rank y < rank x) smaller member))) in
        visited_of_zero x h (All→pending-zero final (deps_of ds x) visited)

module _ (ds : List ComponentDef) (iterate : List Text → List Text) (w : Walks iterate) where
  -- If every node was visited, the order of the visits is a rank.
  pub counted-IsRanked :
      count_visited iterate ds ≡ some (length ds)
      → (rank : Text → ℕ) × IsRanked ds rank × ((n : Text) → rank n ≤ length ds)
  counted-IsRanked h =
      let (final, m, i, counted) = run ds iterate w (length ds) h in
      let visited = names-Within ds final m i counted in
      (
        position final,
        λ d member.
            All-map d.dependencies (λ dep b. b.1)
              (deps_of-All (Before final d.name) ds d member
                (i.ordered d.name (visited d.name (In-names ds d member)))),
        λ n. omega (arith, position-le final n, counted),
      )

  -- Without a cycle every node is visited.
  IsRanked-counted :
      (rank : Text → ℕ)
      → IsRanked ds rank
      → Distinct (names ds)
      → ((d : ComponentDef) → In d ds → All (λ dep. contains (names ds) dep ≡ true) d.dependencies)
      → count_visited iterate ds ≡ some (length ds)
  IsRanked-counted rank ranked distinct known =
      let (n, counted) = count_visited-total iterate ds in
      let (final, m, i, len) = run ds iterate w n counted in
      let all : Within (names ds) final =
        λ x h. visited_below ds final m i rank ranked known (suc (rank x)) x h (omega arith) in
      let same : n ≡ length ds = omega (
        arith,
        Distinct-length-le (names ds) final distinct all,
        Distinct-length-le final (names ds) (Distinct-final ds final m i)
            (Within-final ds final m i),
        length-names ds,
        len,
      ) in
      counted ∙ ap some same

  pub detect_cycles-counted :
      (detect_cycles iterate ds ≡ some (ok tt)) ↔ (count_visited iterate ds ≡ some (length ds))
  unfolding detect_cycles
  detect_cycles-counted =
      let (n, counted) = count_visited-total iterate ds in
      (λ h. ground (arith, counted), λ e. ground (arith, e))

  -- For definitions with unique names and no unknown dependency, `detectCycles` reports no error
  -- exactly when some rank is lowered by every dependency: when there is no cycle.
  pub detect_cycles-ok_iff :
      Distinct (names ds)
      → ((d : ComponentDef) → In d ds → All (λ dep. contains (names ds) dep ≡ true) d.dependencies)
      → (detect_cycles iterate ds ≡ some (ok tt)) ↔ IsAcyclic ds
  detect_cycles-ok_iff distinct known = (
    λ h. let (rank, ranked, _) = counted-IsRanked (detect_cycles-counted.0 h) in (rank, ranked),
    λ (rank, ranked). detect_cycles-counted.1 (IsRanked-counted rank ranked distinct known),
  )
