-- ===== src/Component/Saving.antt =====
-- `LoadState`, `SaveState` and `ValidateDependencies` of internal/core/component.go.
use zhi.Common.{
  insert, lookup-insert, Distinct-keys-insert, Text, Bool, true, false, ◌||◌, List, [], ◌∷◌, ◌++◌,
  Option, none, some, ◌≡◌, ◌↔◌, refl, inl, inr, arith, subst, ap, sym, ◌∙◌, All, In, here, there,
  Map, lookup, keys, contains, contains-keys, Distinct, if◌then◌else◌, ◌==◌, eq_iff, Bool-cases,
  Option-cases,
}
use zhi.Component.Manager.{
  ComponentDef, ComponentManager, ComponentError, flag, broken_dependencies, all_broken,
  validate_dependencies, load_entry, load_entries, load_state, copy_into, save_state,
}
use zhi.Component.Valid.{IsValid, Closed, flag-insert}

broken_dependencies_iff :
    (st : Map Bool) (name : Text) (deps : List Text)
    → (broken_dependencies st name deps ≡ []) ↔ All (λ dep. flag st dep ≡ true) deps
unfolding broken_dependencies
broken_dependencies_iff st name [] = ground arith
broken_dependencies_iff st name (dep ∷ deps) = ground (arith, broken_dependencies_iff st name deps)

-- Every dependency of every enabled definition is enabled.
abbrev AllOn : Map Bool → List ComponentDef → Type 0
AllOn st [] = Unit
AllOn st (d ∷ ds) =
    (flag st d.name ≡ true → All (λ dep. flag st dep ≡ true) d.dependencies) × AllOn st ds

abbrev FineAt : Map Bool → ComponentDef → Type 0
FineAt st d = flag st d.name ≡ true → All (λ dep. flag st dep ≡ true) d.dependencies

AllOn-In :
    (st : Map Bool) {d : ComponentDef} {ds : List ComponentDef}
    → AllOn st ds
    → In d ds
    → FineAt st d
AllOn-In st all (here e) = subst (FineAt st) e all.0
AllOn-In st all (there m) = AllOn-In st all.1 m

AllOn-of_In :
    (st : Map Bool) (ds : List ComponentDef)
    → ((d : ComponentDef) → In d ds → FineAt st d)
    → AllOn st ds
AllOn-of_In st [] f = tt
AllOn-of_In st (d ∷ ds) f = (f d (here refl), AllOn-of_In st ds (λ e m. f e (there m)))

append-empty : {A : Type 0} (xs ys : List A) → xs ++ ys ≡ [] → (xs ≡ []) × (ys ≡ [])
append-empty [] ys h = (refl, h)
append-empty (x ∷ xs) ys h = absurd (cc)

-- What is wrong with one definition.
abbrev broken_of : Map Bool → ComponentDef → List ComponentError
broken_of st d = if flag st d.name then broken_dependencies st d.name d.dependencies else []

all_broken→AllOn : (st : Map Bool) (ds : List ComponentDef) → all_broken st ds ≡ [] → AllOn st ds
unfolding all_broken
all_broken→AllOn st [] h = tt
all_broken→AllOn st (d ∷ ds) h =
    let (none_here, none_behind) = append-empty (broken_of st d) (all_broken st ds) h in
    (
      λ on. (broken_dependencies_iff st d.name d.dependencies).0 (ground (arith, on, none_here)),
      all_broken→AllOn st ds none_behind,
    )

AllOn→all_broken : (st : Map Bool) (ds : List ComponentDef) → AllOn st ds → all_broken st ds ≡ []
unfolding all_broken
AllOn→all_broken st [] h = refl
AllOn→all_broken st (d ∷ ds) (h, hs) = elim (Bool-cases (flag st d.name)) [
  | inl on ↦
      let none_here = (broken_dependencies_iff st d.name d.dependencies).1 (h on) in
      rw (on, none_here) (AllOn→all_broken st ds hs)
  | inr off ↦ rw off (AllOn→all_broken st ds hs)
]

-- A saved value for a component: a mandatory one is on.
abbrev pub restored : Option ComponentDef → Option Bool → Bool → Bool
restored none saved before = before
restored (some d) none before = before
restored (some d) (some b) before = d.mandatory || b

restored-none : (o : Option ComponentDef) (before : Bool) → restored o none before ≡ before
restored-none none before = refl
restored-none (some d) before = refl

flag-load_entry :
    (defs : Map ComponentDef) (name : Text) (b : Bool) (st : Map Bool) (n : Text)
    → flag (load_entry defs name b st) n
      ≡ (if name == n then restored (lookup name defs) (some b) (flag st n) else flag st n)
unfolding load_entry
flag-load_entry defs name b st n = elim (Option-cases (lookup name defs)) [
  | inl missing ↦ rw missing (ground arith)
  | inr (d, found) ↦
      rw found (ground (arith, flag-insert name n (if d.mandatory then true else b) st))
]

load_entries_lem :
    (defs : Map ComponentDef) (saved st : Map Bool) (n : Text)
    → Distinct (keys saved)
    → flag (load_entries defs saved st) n ≡ restored (lookup n defs) (lookup n saved) (flag st n)
unfolding load_entries lookup keys
load_entries_lem defs [] st n h = sym (restored-none (lookup n defs) (flag st n))
load_entries_lem defs ((name, b) ∷ saved) st n h =
    let st' = load_entry defs name b st in
    let rest = load_entries_lem defs saved st' n h.1 in
    let entry = flag-load_entry defs name b st n in
    elim (Bool-cases (name == n)) [
      | inl same ↦
          let equal = (eq_iff name n).0 same in
          let gone : lookup n saved ≡ none = ground (
            arith,
            contains-keys n saved,
            subst (λ x. contains (keys saved) x ≡ false) equal h.0,
          ) in
          let now : flag st' n ≡ restored (lookup n defs) (some b) (flag st n) =
            subst
              (λ t.
                flag st' n
                ≡ (if t then restored (lookup name defs) (some b) (flag st n) else flag st n))
              same entry
            ∙ ap (λ x. restored (lookup x defs) (some b) (flag st n)) equal in
          rw same (
            rest
            ∙ ap (λ o. restored (lookup n defs) o (flag st' n)) gone
            ∙ restored-none (lookup n defs) (flag st' n)
            ∙ now)
      | inr other ↦
          let kept : flag st' n ≡ flag st n = ground (arith, entry) in
          rw other (rest ∙ ap (restored (lookup n defs) (lookup n saved)) kept)
    ]

-- `ValidateDependencies` reports nothing exactly when every dependency of an enabled component is
-- enabled.
pub validate_dependencies_iff :
    (cm : ComponentManager)
    → IsValid cm
    → (validate_dependencies cm ≡ []) ↔ Closed cm.defs_by_name cm.state
unfolding validate_dependencies
validate_dependencies_iff cm v = (
  λ h n d found on.
      let (m, named) = v.indexed n d found in
      AllOn-In cm.state (all_broken→AllOn cm.state cm.definitions h) m
        (subst (λ x. flag cm.state x ≡ true) (sym named) on),
  λ closed.
      AllOn→all_broken cm.state cm.definitions
        (AllOn-of_In cm.state cm.definitions (λ d m on. closed d.name d (v.found d m) on)),
)

-- `LoadState` of a map with each name once, in any order: a defined component that the map names
-- gets its value, or is on if it is mandatory; every other flag stays; and the definitions stay.
pub load_state_lem :
    (cm : ComponentManager) (saved : Map Bool)
    → Distinct (keys saved)
    → (((n : Text)
        → flag (ComponentManager.state (load_state cm saved)) n
          ≡ restored (lookup n cm.defs_by_name) (lookup n saved) (flag cm.state n)))
      × (ComponentManager.definitions (load_state cm saved) ≡ cm.definitions)
unfolding load_state
load_state_lem cm saved h = (λ n. load_entries_lem cm.defs_by_name saved cm.state n h, refl)

-- What a key has behind the copy, from what it had in the source and before.
abbrev copied : Option Bool → Option Bool → Option Bool
copied none before = before
copied (some b) before = some b

copy_into_lem :
    (out st : Map Bool) (n : Text)
    → Distinct (keys st)
    → lookup n (copy_into out st) ≡ copied (lookup n st) (lookup n out)
unfolding copy_into lookup keys
copy_into_lem out [] n h = refl
copy_into_lem out ((name, b) ∷ st) n h =
    let rest = copy_into_lem (insert name b out) st n h.1 in
    let first = lookup-insert name n b out in
    elim (Bool-cases (name == n)) [
      | inl same ↦
          let equal = (eq_iff name n).0 same in
          let gone : lookup n st ≡ none =
            ground
              (arith, contains-keys n st, subst (λ x. contains (keys st) x ≡ false) equal h.0) in
          let now : lookup n (insert name b out) ≡ some b = ground (arith, first) in
          rw same (rest ∙ ap (λ o. copied o (lookup n (insert name b out))) gone ∙ now)
      | inr other ↦
          let kept : lookup n (insert name b out) ≡ lookup n out = ground (arith, first) in
          rw other (rest ∙ ap (copied (lookup n st)) kept)
    ]

copy_into-Distinct : (out st : Map Bool) → Distinct (keys out) → Distinct (keys (copy_into out st))
unfolding copy_into
copy_into-Distinct out [] h = h
copy_into-Distinct out ((name, b) ∷ st) h =
    copy_into-Distinct (insert name b out) st (Distinct-keys-insert name b out h)

-- What `SaveState` exports of a manager, `LoadState` restores in a manager of the same definitions:
-- a defined component whose flag was stored, and is on if it is mandatory, gets that flag back.
pub load_state-save_state :
    (cm cm' : ComponentManager) (n : Text) (d : ComponentDef) (b : Bool)
    → Distinct (keys cm.state)
    → lookup n cm'.defs_by_name ≡ some d
    → lookup n cm.state ≡ some b
    → (d.mandatory ≡ true → b ≡ true)
    → flag (ComponentManager.state (load_state cm' (save_state cm))) n ≡ b
unfolding save_state lookup keys
load_state-save_state cm cm' n d b once found stored must =
    let saved : lookup n (copy_into [] cm.state) ≡ some b =
      copy_into_lem [] cm.state n once ∙ ap (λ o. copied o none) stored in
    let loaded =
      (load_state_lem cm' (copy_into [] cm.state) (copy_into-Distinct [] cm.state tt)).0 n in
    let result : restored (lookup n cm'.defs_by_name) (lookup n (copy_into [] cm.state))
          (flag cm'.state n)
        ≡ (d.mandatory || b) =
      rw (found, saved) refl in
    loaded ∙ result ∙ ground (arith, must)
