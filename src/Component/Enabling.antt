-- ===== src/Component/Enabling.antt =====
-- `Enable` turns on the component and what it needs, and nothing else.
use zhi.Common.{
  ℕ, zero, suc, ◌<◌, Text, Bool, true, List, [], ◌∷◌, none, some, ok, err, ◌≡◌, ◌↔◌, ◌⊎◌, inl, inr,
  refl, subst, arith, All, Map, lookup, insert, for_each, for_each-cons, Bool-cases,
}
use zhi.Component.Manager.{ComponentDef, ComponentManager, unknown_component, flag}
use zhi.Component.Enable.{fuel_for, enable_transitive, enable}
use zhi.Component.Effect.{
  Effect, Effect-nil, Effect-old, Effect-cons, Effect-mark, Effect-Closed, Effect-cause,
  Effect-enabled,
}
use zhi.Component.Valid.{
  IsValid, Closed, Reach, off_count, off_count-le-length, off_count-Grows, off_count-insert,
}

module _ (cm : ComponentManager) where
  enable_of_run :
      (name : Text) (def : ComponentDef) (st' : Map Bool)
      → lookup name cm.defs_by_name ≡ some def
      → enable_transitive cm.defs_by_name (fuel_for cm) name cm.state ≡ some st'
      → enable cm name ≡ some (ok (record cm { state = st' }))
  unfolding enable
  enable_of_run name def st' found e = rw (found, e, enable)

  -- An unknown name is refused, and a known one is not.
  pub enable-unknown :
      (name : Text)
      → lookup name cm.defs_by_name ≡ none
      → enable cm name ≡ some (err (unknown_component name))
  unfolding enable
  enable-unknown name h = rw (h, enable)

module _ (cm : ComponentManager) (v : IsValid cm) where
  abbrev pub Known : Text → Type 0
  Known name = (d : ComponentDef) × (lookup name cm.defs_by_name ≡ some d)

  abbrev pub Works : ℕ → Type 0
  Works fuel =
      (name : Text) (st : Map Bool)
      → Known name
      → off_count st cm.definitions < fuel
      → (st' : Map Bool) × (enable_transitive cm.defs_by_name fuel name st ≡ some st')
        × Effect cm.defs_by_name (name ∷ []) st st'

  each-Effect :
      (fuel : ℕ) (deps : List Text) (st : Map Bool)
      → Works fuel
      → All Known deps
      → off_count st cm.definitions < fuel
      → (st' : Map Bool) × (for_each (enable_transitive cm.defs_by_name fuel) deps st ≡ some st')
        × Effect cm.defs_by_name deps st st'
  each-Effect fuel [] st works known enough = (st, refl, Effect-nil cm.defs_by_name st)
  each-Effect fuel (dep ∷ deps) st works known enough =
      let (st₁, e₁, f₁) = works dep st known.0 enough in
      let (st₂, e₂, f₂) =
        each-Effect fuel deps st₁ works known.1
          (omega (arith, off_count-Grows st st₁ cm.definitions f₁.grows)) in
      (
        st₂,
        for_each-cons (enable_transitive cm.defs_by_name fuel) dep deps st e₁ e₂,
        Effect-cons dep deps st st₁ st₂ f₁ f₂,
      )

  pub enable_transitive-Effect : (fuel : ℕ) → Works fuel
  unfolding enable_transitive
  enable_transitive-Effect zero name st known enough = absurd (omega arith)
  enable_transitive-Effect (suc fuel) name st (def, found) enough =
      elim (Bool-cases (flag st name)) [
        | inl old ↦ (st, rw old, Effect-old cm.defs_by_name name st old)
        | inr off ↦
            let (m, named) = v.indexed name def found in
            let fewer =
              subst (λ x. off_count (insert x true st) cm.definitions < off_count st cm.definitions)
                named (off_count-insert st def cm.definitions m (rw named off)) in
            let (st', e, f) =
              each-Effect fuel def.dependencies (insert name true st)
                (enable_transitive-Effect fuel) (v.known def m) (omega arith) in
            (st', rw (off, found) e, Effect-mark name def st st' found off f)
      ]

  -- From a state that is closed under dependencies, `Enable` of a defined component has a result,
  -- it is no error, the state stays closed, and exactly those components are enabled afterwards
  -- that were enabled before or that the component is or needs, directly or transitively.
  pub enable_lem :
      (name : Text) (def : ComponentDef)
      → lookup name cm.defs_by_name ≡ some def
      → Closed cm.defs_by_name cm.state
      → (cm' : ComponentManager) × (enable cm name ≡ some (ok cm'))
        × (cm'.definitions ≡ cm.definitions)
        × (cm'.defs_by_name ≡ cm.defs_by_name)
        × Closed cm.defs_by_name cm'.state
        × ((n : Text)
            → (flag cm'.state n ≡ true) ↔ ((flag cm.state n ≡ true) ⊎ Reach cm.defs_by_name name n))
  enable_lem name def found closed =
      let (st', e, f) =
        enable_transitive-Effect (fuel_for cm) name cm.state (def, found)
          (omega (arith, off_count-le-length cm.state cm.definitions)) in
      let closed' = Effect-Closed closed f in
      (
        record cm { state = st' },
        enable_of_run cm name def st' found e,
        refl,
        refl,
        closed',
        λ n. (Effect-cause f n, Effect-enabled f closed' n),
      )
