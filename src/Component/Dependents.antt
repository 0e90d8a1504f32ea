-- ===== src/Component/Dependents.antt =====
-- `transitiveDependents` of internal/core/component.go lists exactly the components that depend on
-- one, directly or transitively.
use zhi.Common.{
  Text, Bool, true, false, ◌||◌, List, [], ◌∷◌, none, some, ◌≡◌, ◌↔◌, ◌⊎◌, inl, inr, refl, sym,
  subst, ◌∙◌, arith, In, Map, lookup, keys, contains, contains-keys, ◌==◌, eq_iff, Bool-cases,
  Option-cases,
}
use zhi.Component.Manager.{ComponentDef, ComponentManager, flag}
use zhi.Component.Enable.{fuel_for}
use zhi.Component.Disable.{walk, insert_sorted, sorted, transitive_dependents, first_mandatory}
use zhi.Component.Valid.{IsValid, Reach, stop, via, Needs, off_count-le-length}
use zhi.Component.Walk.{Visits, walk-Visits}

contains-insert_sorted :
    (x y : Text) (ys : List Text) → contains (insert_sorted y ys) x ≡ (y == x || contains ys x)
unfolding insert_sorted contains
contains-insert_sorted x y [] = refl
contains-insert_sorted x y (z ∷ zs) = ground (arith, contains-insert_sorted x y zs)

pub contains-sorted : (x : Text) (ys : List Text) → contains (sorted ys) x ≡ contains ys x
unfolding sorted contains
contains-sorted x [] = refl
contains-sorted x (y ∷ ys) =
    ground (arith, contains-sorted x ys, contains-insert_sorted x y (sorted ys))

no_flag : (x : Text) → flag [] x ≡ false
unfolding flag lookup
no_flag x = refl

flag-key : (st : Map Bool) (x : Text) → flag st x ≡ true → contains (keys st) x ≡ true
unfolding flag
flag-key st x h = ground (arith, contains-keys x st)

module _ (cm : ComponentManager) (v : IsValid cm) where
  -- One edge more: what depends on a marked component, or on the root, is marked.
  marked_edge :
      (name : Text) (st : Map Bool)
      → Visits cm v name cm.definitions [] st
      → (x b : Text) (d : ComponentDef) → lookup x cm.defs_by_name ≡ some d
      → In b d.dependencies
      → (b ≡ name) ⊎ (flag st b ≡ true)
      → flag st x ≡ true
  marked_edge name st f x b d found dep (inl same) =
      let (listed, named) = v.indexed x d found in
      subst (λ y. flag st y ≡ true) named
        (f.direct d listed (subst (λ y. In y d.dependencies) same dep))
  marked_edge name st f x b d found dep (inr on) =
      let (listed, named) = v.indexed x d found in
      subst (λ y. flag st y ≡ true) named (f.closes b d (no_flag b) on listed dep)

  marked :
      {x name : Text} (st : Map Bool)
      → Reach cm.defs_by_name x name
      → Visits cm v name cm.definitions [] st
      → (x ≡ name) ⊎ (flag st x ≡ true)
  marked st (stop a) f = inl refl
  marked {x} {name} st (via {b} {d} found dep rest) f =
      inr (marked_edge name st f x b d found dep (marked st rest f))

  transitive_dependents_of_walk :
      (name : Text) (st : Map Bool)
      → walk cm.definitions (fuel_for cm) name [] ≡ some st
      → transitive_dependents cm name ≡ some (sorted (keys st))
  unfolding transitive_dependents
  transitive_dependents_of_walk name st e = rw (e, transitive_dependents)

  -- The result is some list, and it holds exactly the names of the components that depend on
  -- `name`, directly or transitively.
  pub transitive_dependents_lem :
      (name : Text)
      → (deps : List Text) × (transitive_dependents cm name ≡ some deps)
        × ((x : Text) → (contains deps x ≡ true) ↔ Needs cm.defs_by_name x name)
  transitive_dependents_lem name =
      let (st, e, f) =
        walk-Visits cm v (fuel_for cm) name []
          (omega (arith, off_count-le-length [] cm.definitions)) in
      (
        sorted (keys st),
        transitive_dependents_of_walk name st e,
        λ x. (
          λ h.
              let key : contains (keys st) x ≡ true = sym (contains-sorted x (keys st)) ∙ h in
              f.caused x (no_flag x) (f.trues no_keys x key),
          λ (d, b, found, dep, reach).
              contains-sorted x (keys st)
              ∙ flag-key st x (marked_edge name st f x b d found dep (marked st reach f)),
        ),
      )
    where
      no_keys : (x : Text) → contains (keys {V = Bool} []) x ≡ true → flag [] x ≡ true
      no_keys x h = absurd (unfold contains keys in cc h)

-- The first mandatory component of a list, if there is one.
pub first_mandatory-none :
    (defs : Map ComponentDef) (deps : List Text)
    → first_mandatory defs deps ≡ none
    → (x : Text) (d : ComponentDef) → contains deps x ≡ true
    → lookup x defs ≡ some d
    → d.mandatory ≡ false
unfolding first_mandatory contains
first_mandatory-none defs [] h x d m found = absurd (cc)
first_mandatory-none defs (y ∷ ys) h x d m found = elim (Bool-cases (y == x)) [
  | inl same ↦ let y_found : lookup y defs ≡ some d = rw ((eq_iff y x).0 same) found in ground arith
  | inr other ↦ first_mandatory-none defs ys (ground arith) x d (ground arith) found
]

pub none-first_mandatory :
    (defs : Map ComponentDef) (deps : List Text)
    → ((x : Text) (d : ComponentDef)
        → contains deps x ≡ true
        → lookup x defs ≡ some d
        → d.mandatory ≡ false)
    → first_mandatory defs deps ≡ none
unfolding first_mandatory contains
none-first_mandatory defs [] f = refl
none-first_mandatory defs (y ∷ ys) f =
    let rest = none-first_mandatory defs ys (λ x d m found. f x d (ground arith) found) in
    elim (Option-cases (lookup y defs)) [
      | inl missing ↦ rw (missing, first_mandatory) rest
      | inr (d, found) ↦
          let optional = f y d (ground (arith, eq_iff y y)) found in
          rw (found, optional, first_mandatory) rest
    ]

pub first_mandatory-some :
    (defs : Map ComponentDef) (deps : List Text) (by : Text)
    → first_mandatory defs deps ≡ some by
    → (contains deps by ≡ true)
      × (d : ComponentDef) × (lookup by defs ≡ some d)
      × (d.mandatory ≡ true)
unfolding first_mandatory contains
first_mandatory-some defs [] by h = absurd (cc)
first_mandatory-some defs (y ∷ ys) by h = elim (Option-cases (lookup y defs)) [
  | inl missing ↦
      let (m, d, found, must) = first_mandatory-some defs ys by (ground arith) in
      (ground arith, d, found, must)
  | inr (e, y_found) ↦ elim (Bool-cases e.mandatory) [
    | inl must ↦
        let same : y ≡ by = ground arith in
        (ground (arith, eq_iff y by), e, rw (← same) y_found, must)
    | inr optional ↦
        let (m, d, found, must) = first_mandatory-some defs ys by (ground arith) in
        (ground arith, d, found, must)
  ]
]
