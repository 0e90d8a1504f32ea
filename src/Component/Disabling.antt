-- ===== src/Component/Disabling.antt =====
-- `Disable` of internal/core/component.go refuses exactly what would break a dependency.
use zhi.Common.{
  Text, Bool, true, false, List, [], ◌∷◌, none, some, ok, ◌≡◌, ◌↔◌, inl, inr, refl, arith, All-In,
  All-of_In, In, here, there, contains, contains-In, In-contains, Map, lookup, insert,
  if◌then◌else◌, ◌==◌, eq_iff, Bool-cases, Option-cases, ap, subst, sym,
}
use zhi.Component.Manager.{ComponentDef, ComponentManager, flag}
use zhi.Component.Disable.{enabled_dependent, disable}
use zhi.Component.Valid.{IsValid, Closed, flag-insert}

-- No enabled definition of the list depends on `name`.
abbrev pub NotNeeded : Map Bool → List ComponentDef → Text → Type 0
NotNeeded st ds name =
    (d : ComponentDef) → In d ds → flag st d.name ≡ true → ¬ In name d.dependencies

enabled_dependent-none :
    (st : Map Bool) (ds : List ComponentDef) (name : Text)
    → enabled_dependent st ds name ≡ none
    → NotNeeded st ds name
unfolding enabled_dependent
enabled_dependent-none st [] name h d m on needs = elim m [ ]
enabled_dependent-none st (e ∷ ds) name h d (here same) on needs =
    let on' = subst (λ (x : ComponentDef). flag st x.name ≡ true) (sym same) on in
    let needs' = subst (λ (x : ComponentDef). In name x.dependencies) (sym same) needs in
    ground (arith, In-contains e.dependencies name needs')
enabled_dependent-none st (e ∷ ds) name h d (there m) on needs =
    enabled_dependent-none st ds name (ground arith) d m on needs

NotNeeded-none :
    (st : Map Bool) (ds : List ComponentDef) (name : Text)
    → NotNeeded st ds name
    → enabled_dependent st ds name ≡ none
unfolding enabled_dependent
NotNeeded-none st [] name free = refl
NotNeeded-none st (e ∷ ds) name free =
    let rest = NotNeeded-none st ds name (λ d m. free d (there m)) in
    elim (Bool-cases (flag st e.name)) [
      | inr off ↦ rw off rest
      | inl on ↦ elim (Bool-cases (contains e.dependencies name)) [
        | inl needs ↦ absurd (free e (here refl) on (contains-In e.dependencies name needs))
        | inr other ↦ rw (on, other) rest
      ]
    ]

module _ (cm : ComponentManager) where
  -- The state after a successful `Disable`.
  abbrev pub Disabled : Text → ComponentManager → Type 0
  Disabled name cm' = cm' ≡ record cm { state = insert name false cm.state }

  abbrev pub MayDisable : Text → Type 0
  MayDisable name =
      (def : ComponentDef) × (lookup name cm.defs_by_name ≡ some def)
      × (def.mandatory ≡ false)
      × NotNeeded cm.state cm.definitions name

  disable-tests :
      (name : Text) (cm' : ComponentManager)
      → disable cm name ≡ ok cm'
      → (def : ComponentDef) × (lookup name cm.defs_by_name ≡ some def)
        × (def.mandatory ≡ false)
        × (enabled_dependent cm.state cm.definitions name ≡ none)
  unfolding disable
  disable-tests name cm' e = elim (Option-cases (lookup name cm.defs_by_name)) [
    | inl missing ↦ absurd (ground arith)
    | inr (def, found) ↦ (def, found, ground arith, ground arith)
  ]

  disable_free :
      (name : Text) (def : ComponentDef)
      → lookup name cm.defs_by_name ≡ some def
      → def.mandatory ≡ false
      → enabled_dependent cm.state cm.definitions name ≡ none
      → disable cm name ≡ ok (record cm { state = insert name false cm.state })
  unfolding disable
  disable_free name def found optional clear = rw (found, optional, clear, disable)

  -- `Disable` succeeds exactly for a defined component that is not mandatory and that no enabled
  -- component depends on.
  pub disable-ok_iff :
      (name : Text) → ((cm' : ComponentManager) × (disable cm name ≡ ok cm')) ↔ MayDisable name
  disable-ok_iff name = (
    λ (cm', e).
        let (def, found, optional, clear) = disable-tests name cm' e in
        (def, found, optional, enabled_dependent-none cm.state cm.definitions name clear),
    λ (def, found, optional, free). (
      record cm { state = insert name false cm.state },
      disable_free name def found optional (NotNeeded-none cm.state cm.definitions name free),
    ),
  )

  disable-ok : (name : Text) (cm' : ComponentManager) → disable cm name ≡ ok cm' → Disabled name cm'
  disable-ok name cm' e =
      let (def, found, optional, clear) = disable-tests name cm' e in
      cc (disable_free name def found optional clear)

  -- A successful `Disable` turns off that component and no other, keeps the definitions, and
  -- leaves a state that was closed under dependencies closed.
  pub disable-Closed :
      (name : Text) (cm' : ComponentManager)
      → IsValid cm
      → Closed cm.defs_by_name cm.state
      → disable cm name ≡ ok cm'
      → Closed cm.defs_by_name cm'.state
        × ((n : Text) → flag cm'.state n ≡ (if name == n then false else flag cm.state n))
        × (cm'.definitions ≡ cm.definitions)
        × (cm'.defs_by_name ≡ cm.defs_by_name)
  disable-Closed name cm' v closed e =
      let after = disable-ok name cm' e in
      let (def, found, optional, clear) = disable-tests name cm' e in
      let free = enabled_dependent-none cm.state cm.definitions name clear in
      let states : cm'.state ≡ insert name false cm.state =
        ap (λ (x : ComponentManager). x.state) after in
      let flags : (n : Text) → flag cm'.state n ≡ (if name == n then false else flag cm.state n) =
        λ n. rw states (flag-insert name n false cm.state) in
      (
        λ n d l on.
            let (m, named) = v.indexed n d l in
            let was_on : flag cm.state n ≡ true = ground (arith, flags n) in
            All-of_In (λ x. flag cm'.state x ≡ true) d.dependencies
              λ dep needs.
                let dep_on = All-In (λ x. flag cm.state x ≡ true) (closed n d l was_on) needs in
                elim (Bool-cases (name == dep)) [
                  | inl same ↦
                      let e = (eq_iff name dep).0 same in
                      absurd (
                        free d m (rw named was_on) (subst (λ x. In x d.dependencies) (sym e) needs))
                  | inr other ↦ ground (arith, flags dep)
                ],
        flags,
        ap (λ (x : ComponentManager). x.definitions) after,
        ap (λ (x : ComponentManager). x.defs_by_name) after,
      )
