-- ===== src/Component/Startup.antt =====
-- What `NewComponentManager` (internal/core/component.go) hands out.
use zhi.Common.{
  ℕ, ◌≤◌, ◌+◌, ◌<◌, Text, Bool, true, false, List, [], ◌∷◌, some, Result, ok, err, ◌≡◌, inl, inr,
  refl, arith, In, here, there, Map, lookup, for_each-cons, Bool-cases, Result-cases, length, ap,
  subst, ◌∙◌,
}
use zhi.Component.Manager.{ComponentDef, ComponentError, ComponentManager, flag}
use zhi.Component.Cycles.{detect_cycles}
use zhi.Component.Counting.{detect_cycles-total}
use zhi.Component.Setup.{
  index_definitions, check_references, check_overlapping_paths, all_disabled, enable_mandatory,
  finish_setup, new_component_manager,
}
use zhi.Component.Valid.{IsValid, Closed, Grows, flag-insert, off_count-le-length}
use zhi.Component.Effect.{Effect-Closed}
use zhi.Component.Enabling.{enable_transitive-Effect}
use zhi.Component.KahnStart.{Walks}
use zhi.Component.Acyclic.{IsRanked, counted-IsRanked, detect_cycles-counted}
use zhi.Component.Indexing.{checks-IsValid}

all_disabled-off :
    (ds : List ComponentDef) (st : Map Bool) (n : Text)
    → flag st n ≡ false
    → flag (all_disabled ds st) n ≡ false
unfolding all_disabled
all_disabled-off [] st n h = h
all_disabled-off (d ∷ ds) st n h =
    all_disabled-off ds _ n (ground (arith, flag-insert d.name n false st))

-- The definitions of the list that are mandatory are enabled.
abbrev pub MandatoryOn : List ComponentDef → Map Bool → Type 0
MandatoryOn ds st = (d : ComponentDef) → In d ds → d.mandatory ≡ true → flag st d.name ≡ true

MandatoryOn-cons :
    (st : Map Bool) (d : ComponentDef) (ds : List ComponentDef)
    → (d.mandatory ≡ true → flag st d.name ≡ true)
    → MandatoryOn ds st
    → MandatoryOn (d ∷ ds) st
MandatoryOn-cons st d ds first rest e (here same) must =
    subst (λ (x : ComponentDef). flag st x.name ≡ true) same
      (first (ap (λ (x : ComponentDef). x.mandatory) same ∙ must))
MandatoryOn-cons st d ds first rest e (there m) must = rest e m must

module _ (cm : ComponentManager) (v : IsValid cm) where
  -- The loop over the definitions `ds`, a part of those of `cm`.
  enable_mandatory-total :
      (fuel : ℕ) (ds : List ComponentDef) (st : Map Bool)
      → ((d : ComponentDef) → In d ds → In d cm.definitions)
      → length cm.definitions < fuel
      → Closed cm.defs_by_name st
      → (st' : Map Bool) × (enable_mandatory cm.defs_by_name fuel ds st ≡ some st')
        × Closed cm.defs_by_name st'
        × Grows st st'
        × MandatoryOn ds st'
  unfolding enable_mandatory
  enable_mandatory-total fuel [] st part enough closed =
      (st, refl, closed, λ n on. on, λ d m. elim m [ ])
  enable_mandatory-total fuel (d ∷ ds) st part enough closed = elim (Bool-cases d.mandatory) [
    | inl must ↦
        let (st₁, e₁, f) =
          enable_transitive-Effect cm v fuel d.name st (d, v.found d (part d (here refl)))
            (omega (arith, off_count-le-length st cm.definitions)) in
        let (st₂, e₂, closed₂, grows, on) =
          enable_mandatory-total fuel ds st₁ (λ x m. part x (there m)) enough
            (Effect-Closed closed f) in
        (
          st₂,
          for_each-cons _ d ds st (rw must e₁) e₂,
          closed₂,
          λ n was. grows n (f.grows n was),
          MandatoryOn-cons st₂ d ds (λ _. grows d.name f.on.0) on,
        )
    | inr may ↦
        let (st₂, e₂, closed₂, grows, on) =
          enable_mandatory-total fuel ds st (λ x m. part x (there m)) enough closed in
        (
          st₂,
          for_each-cons _ d ds st (rw may) e₂,
          closed₂,
          grows,
          MandatoryOn-cons st₂ d ds (λ must. absurd (cc)) on,
        )
  ]

-- The checks that a successful construction has passed, and the state that it starts from.
record Passed (iterate : List Text → List Text) (defs : List ComponentDef) (cm : ComponentManager)
    : Type 0 where
  definitions : cm.definitions ≡ defs
  indexed : index_definitions defs [] ≡ ok cm.defs_by_name
  references : check_references cm.defs_by_name defs ≡ ok tt
  acyclic : detect_cycles iterate defs ≡ some (ok tt)
  apart : check_overlapping_paths defs ≡ ok tt
  started :
      enable_mandatory cm.defs_by_name (length defs + 1) defs (all_disabled defs []) ≡ some cm.state

new-Passed :
    (iterate : List Text → List Text) (defs : List ComponentDef) (cm : ComponentManager)
    → new_component_manager iterate defs ≡ some (ok cm)
    → Passed iterate defs cm
unfolding new_component_manager finish_setup
new-Passed iterate defs cm h = record {
  definitions = ground arith;
  indexed = ground arith;
  references = ground arith;
  acyclic = ground arith;
  apart = ground arith;
  started = ground arith;
}

Closed-off : (m : Map ComponentDef) (ds : List ComponentDef) → Closed m (all_disabled ds [])
Closed-off m ds n d found on =
    let off = all_disabled-off ds [] n (unfold flag lookup in refl) in absurd (cc)

-- A manager that `NewComponentManager` returns has the given definitions, indexed by unique names
-- and with defined dependencies only, has passed the overlap check, has each mandatory component
-- enabled, and has every dependency of an enabled component enabled.
pub new-IsValid :
    (iterate : List Text → List Text) (defs : List ComponentDef) (cm : ComponentManager)
    → new_component_manager iterate defs ≡ some (ok cm)
    → (cm.definitions ≡ defs)
      × IsValid cm
      × (check_overlapping_paths cm.definitions ≡ ok tt)
      × MandatoryOn cm.definitions cm.state
      × Closed cm.defs_by_name cm.state
new-IsValid iterate defs cm h =
    let p = new-Passed iterate defs cm h in
    let valid : IsValid cm =
      checks-IsValid cm.definitions cm.defs_by_name cm.state (rw p.definitions p.indexed)
        (rw p.definitions p.references) in
    let (st, e, closed, _, on) =
      enable_mandatory-total cm valid (length cm.definitions + 1) cm.definitions
        (all_disabled cm.definitions []) (λ d m. m) (omega arith)
        (Closed-off cm.defs_by_name cm.definitions) in
    let started : enable_mandatory cm.defs_by_name (length cm.definitions + 1) cm.definitions
          (all_disabled cm.definitions [])
        ≡ some cm.state =
      rw p.definitions p.started in
    let same : st ≡ cm.state = cc in
    (
      p.definitions,
      valid,
      rw p.definitions p.apart,
      subst (MandatoryOn cm.definitions) same on,
      subst (Closed cm.defs_by_name) same closed,
    )

finish_setup-total :
    (iterate : List Text → List Text) (defs : List ComponentDef) (m : Map ComponentDef)
    → index_definitions defs [] ≡ ok m
    → check_references m defs ≡ ok tt
    → (r : Result ComponentError ComponentManager) × (finish_setup iterate defs m ≡ some r)
unfolding finish_setup
finish_setup-total iterate defs m indexed referenced =
    let cm : ComponentManager = record { definitions = defs; state = []; defs_by_name = m } in
    let (r, checked) = detect_cycles-total iterate defs in
    let (st, e, _, _, _) =
      enable_mandatory-total cm (checks-IsValid defs m [] indexed referenced) (length defs + 1) defs
        (all_disabled defs []) (λ d member. member) (omega arith) (Closed-off m defs) in
    elim (Result-cases r) [
      | inr (x, cyclic) ↦ (err x, rw (checked, cyclic, finish_setup))
      | inl (_, acyclic) ↦ elim (Result-cases (check_overlapping_paths defs)) [
        | inl (u, apart) ↦
            (ok (record cm { state = st }), rw (checked, acyclic, apart, e, finish_setup))
        | inr (x, overlap) ↦ (err x, rw (checked, acyclic, overlap, finish_setup))
      ]
    ]

-- `NewComponentManager` has a result for every input: its loop and its recursion end, and no
-- definition that they look up is missing.
pub new-total :
    (iterate : List Text → List Text) (defs : List ComponentDef)
    → (r : Result ComponentError ComponentManager) × (new_component_manager iterate defs ≡ some r)
unfolding new_component_manager
new-total iterate defs = elim (Result-cases (index_definitions defs [])) [
  | inr (x, bad) ↦ (err x, rw (bad, new_component_manager))
  | inl (m, indexed) ↦ elim (Result-cases (check_references m defs)) [
    | inr (x, bad) ↦ (err x, rw (indexed, bad, new_component_manager))
    | inl (_, referenced) ↦
        let (r, e) = finish_setup-total iterate defs m indexed referenced in
        (r, rw (indexed, referenced, new_component_manager) e)
  ]
]

-- The definitions of a new manager have no cycle: a rank, no greater than their number, is lowered
-- by every dependency. Go may walk over the keys of its maps in any order.
pub new-IsRanked :
    (iterate : List Text → List Text) (defs : List ComponentDef) (cm : ComponentManager)
    → Walks iterate
    → new_component_manager iterate defs ≡ some (ok cm)
    → (rank : Text → ℕ) × IsRanked cm.definitions rank
      × ((n : Text) → rank n ≤ length cm.definitions)
new-IsRanked iterate defs cm w h =
    let p = new-Passed iterate defs cm h in
    counted-IsRanked cm.definitions iterate w
      ((detect_cycles-counted cm.definitions iterate w).0 (rw p.definitions p.acyclic))
