-- ===== src/Component/Cascading.antt =====
-- `DisableCascade` of internal/core/component.go turns off the component and what needs it.
use zhi.Common.{
  ℕ, ◌≤◌, Text, true, false, not, ◌&&◌, List, [], none, some, ok, err, ◌≡◌, ◌↔◌, inl, inr, refl,
  subst, arith, All-In, All-of_In, lookup, contains, length, Bool-cases, Option-cases,
}
use zhi.Component.Manager.{ComponentDef, ComponentManager, required_by_mandatory, flag}
use zhi.Component.Enable.{fuel_for, Report}
use zhi.Component.Disable.{
  transitive_dependents, first_mandatory, disable_cascade_rec, disable_cascade,
}
use zhi.Component.Valid.{IsValid, Closed, Reach, Needs, Reach-flag}
use zhi.Component.Dependents.{
  transitive_dependents_lem, first_mandatory-none, none-first_mandatory, first_mandatory-some,
}
use zhi.Component.Acyclic.{IsRanked}
use zhi.Component.Cascade.{Drops}
use zhi.Component.CascadeLoop.{disable_cascade_rec-Drops}

module _ (cm : ComponentManager) where
  -- No mandatory component depends on `name`.
  abbrev pub Optional : Text → Type 0
  Optional name =
      (x : Text) (d : ComponentDef)
      → lookup x cm.defs_by_name ≡ some d
      → Needs cm.defs_by_name x name
      → d.mandatory ≡ false

  disable_cascade_of_parts :
      (name : Text) (def : ComponentDef) (deps : List Text) (r : Report)
      → lookup name cm.defs_by_name ≡ some def
      → def.mandatory ≡ false
      → transitive_dependents cm name ≡ some deps
      → first_mandatory cm.defs_by_name deps ≡ none
      → disable_cascade_rec cm.definitions (fuel_for cm) name (cm.state, []) ≡ some r
      → disable_cascade cm name ≡ some (ok (record cm { state = r.0 }, r.1))
  unfolding disable_cascade
  disable_cascade_of_parts name def deps r found optional listed free ran =
      rw (found, optional, listed, free, ran, disable_cascade)

  module _ (v : IsValid cm) (name : Text) (r : Report) (f : Drops cm v name (cm.state, []) r)
      (gone : flag r.0 name ≡ false) (free : Optional name)
      (closed : Closed cm.defs_by_name cm.state) where
    Drops-Closed : Closed cm.defs_by_name r.0
    Drops-Closed n d found on =
        let (listed, named) = v.indexed n d found in
        All-of_In (λ dep. flag r.0 dep ≡ true) d.dependencies
          λ dep needs.
            let was_on : flag cm.state dep ≡ true =
              All-In (λ x. flag cm.state x ≡ true) (closed n d found (f.shrinks n on)) needs in
            elim (Bool-cases (flag r.0 dep)) [
              | inl still ↦ still
              | inr off ↦
                  let reach = f.caused dep was_on off in
                  let optional = free n d found (d, dep, found, needs, reach) in
                  let n_off = f.closes dep d was_on off listed needs optional in
                  let n_off' = subst (λ x. flag r.0 x ≡ false) named n_off in absurd (cc)
            ]

    Drops_iff :
        (n : Text)
        → (flag r.0 n ≡ true) ↔ ((flag cm.state n ≡ true) × ¬ Reach cm.defs_by_name n name)
    Drops_iff n = (
      λ on. (
        f.shrinks n on,
        λ reach. let name_on = Reach-flag r.0 reach Drops-Closed on in absurd (cc),
      ),
      λ (was_on, apart). elim (Bool-cases (flag r.0 n)) [
        | inl on ↦ on
        | inr off ↦ absurd (apart (f.caused n was_on off))
      ],
    )

  module _ (v : IsValid cm) (rank : Text → ℕ) (ranked : IsRanked cm.definitions rank)
      (bounded : (n : Text) → rank n ≤ length cm.definitions) where
    -- For definitions without a cycle and a state that is closed under dependencies:
    -- `DisableCascade` of a defined component that is not mandatory, and that no mandatory
    -- component depends on, has a result and it is no error. The state stays closed; exactly those
    -- components stay enabled that do not depend on it, directly or transitively; and the list
    -- holds exactly those that were turned off.
    pub disable_cascade-ok :
        (name : Text) (def : ComponentDef)
        → lookup name cm.defs_by_name ≡ some def
        → def.mandatory ≡ false
        → Optional name
        → Closed cm.defs_by_name cm.state
        → (cm' : ComponentManager) × (disabled : List Text) × (disable_cascade cm name
            ≡ some (ok (cm', disabled)))
          × Closed cm.defs_by_name cm'.state
          × ((n : Text)
              → (flag cm'.state n ≡ true)
                ↔ ((flag cm.state n ≡ true) × ¬ Reach cm.defs_by_name n name))
          × ((n : Text) → contains disabled n ≡ (flag cm.state n && not (flag cm'.state n)))
          × (cm'.definitions ≡ cm.definitions)
    disable_cascade-ok name def found optional free closed =
        let (deps, listed, exact) = transitive_dependents_lem cm v name in
        let none_mandatory =
          none-first_mandatory cm.defs_by_name deps
            (λ x d member x_found. free x d x_found ((exact x).0 member)) in
        let (r, ran, f, gone) =
          disable_cascade_rec-Drops cm v rank ranked bounded (fuel_for cm) name (cm.state, [])
            (omega arith) in
        (
          record cm { state = r.0 },
          r.1,
          disable_cascade_of_parts name def deps r found optional listed none_mandatory ran,
          Drops-Closed v name r f gone free closed,
          Drops_iff v name r f gone free closed,
          λ n. unfold contains in f.reported n,
          refl,
        )

  disable_cascade_of_mandatory :
      (name by : Text) (def : ComponentDef) (deps : List Text)
      → lookup name cm.defs_by_name ≡ some def
      → def.mandatory ≡ false
      → transitive_dependents cm name ≡ some deps
      → first_mandatory cm.defs_by_name deps ≡ some by
      → disable_cascade cm name ≡ some (err (required_by_mandatory name by))
  unfolding disable_cascade
  disable_cascade_of_mandatory name by def deps found optional listed first =
      rw (found, optional, listed, first, disable_cascade)

  -- For a defined component that is not mandatory: if a mandatory component depends on it,
  -- directly or transitively, `DisableCascade` refuses, and the component that the error names is
  -- mandatory and depends on it.
  pub disable_cascade-refused :
      (v : IsValid cm) (name x : Text) (def d : ComponentDef)
      → lookup name cm.defs_by_name ≡ some def
      → def.mandatory ≡ false
      → lookup x cm.defs_by_name ≡ some d
      → d.mandatory ≡ true
      → Needs cm.defs_by_name x name
      → (by : Text) × (disable_cascade cm name ≡ some (err (required_by_mandatory name by)))
        × Needs cm.defs_by_name by name
        × (e : ComponentDef) × (lookup by cm.defs_by_name ≡ some e)
        × (e.mandatory ≡ true)
  disable_cascade-refused v name x def d found optional x_found must needs =
      let (deps, listed, exact) = transitive_dependents_lem cm v name in
      elim (Option-cases (first_mandatory cm.defs_by_name deps)) [
        | inl clear ↦
            let d_optional =
              first_mandatory-none cm.defs_by_name deps clear x d ((exact x).1 needs) x_found in
            absurd (cc)
        | inr (by, first) ↦
            let (member, e, e_found, e_must) = first_mandatory-some cm.defs_by_name deps by first in
            (
              by,
              disable_cascade_of_mandatory name by def deps found optional listed first,
              (exact by).0 member,
              e,
              e_found,
              e_must,
            )
      ]
