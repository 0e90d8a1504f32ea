-- ===== src/Component/Effect.antt =====
-- What `enableTransitive` of internal/core/component.go does to the state, as a predicate that
-- composes.
use zhi.Common.{
  Text, Bool, true, false, List, [], ◌∷◌, some, ◌≡◌, ◌⊎◌, inl, inr, refl, sym, subst, arith, All,
  All-map, In, here, there, Map, lookup, insert, In-singleton, ◌==◌, eq_iff, Bool-cases,
}
use zhi.Component.Manager.{ComponentDef, flag}
use zhi.Component.Valid.{
  Closed, Reach, stop, via, Reach-flag, flag-insert, flag-insert_self, Grows, Grows-insert,
}

-- What turning on `roots` does to the state.
pub record Effect (defs : Map ComponentDef) (roots : List Text) (st st' : Map Bool) : Type 0 where
  pub grows : Grows st st'
  pub on : All (λ root. flag st' root ≡ true) roots
  pub closes :
      (n : Text) (d : ComponentDef)
      → lookup n defs ≡ some d
      → flag st n ≡ false
      → flag st' n ≡ true
      → All (λ dep. flag st' dep ≡ true) d.dependencies
  pub caused :
      (n : Text)
      → flag st n ≡ false
      → flag st' n ≡ true
      → (root : Text) × In root roots × Reach defs root n

pub Effect-nil : (defs : Map ComponentDef) (st : Map Bool) → Effect defs [] st st
Effect-nil defs st = record {
  grows = λ n on. on;
  on = tt;
  closes = λ n d l off on. absurd (cc);
  caused = λ n off on. absurd (cc);
}

pub Effect-old :
    (defs : Map ComponentDef) (name : Text) (st : Map Bool)
    → flag st name ≡ true
    → Effect defs (name ∷ []) st st
Effect-old defs name st old = record {
  grows = λ n on. on;
  on = (old, tt);
  closes = λ n d l off on. absurd (cc);
  caused = λ n off on. absurd (cc);
}

pub Effect-cons :
    {defs : Map ComponentDef} (x : Text) (xs : List Text) (st₀ st₁ st₂ : Map Bool)
    → Effect defs (x ∷ []) st₀ st₁
    → Effect defs xs st₁ st₂
    → Effect defs (x ∷ xs) st₀ st₂
Effect-cons {defs} x xs st₀ st₁ st₂ f g = record {
  grows = λ n on. g.grows n (f.grows n on);
  on = (g.grows x f.on.0, g.on);
  closes = λ n d l off on. elim (Bool-cases (flag st₁ n)) [
    | inl early ↦ All-map d.dependencies (λ dep. g.grows dep) (f.closes n d l off early)
    | inr late ↦ g.closes n d l late on
  ];
  caused = λ n off on. elim (Bool-cases (flag st₁ n)) [
    | inl early ↦
        let (r, m, reach) = f.caused n off early in
        (x, here refl, subst (λ z. Reach defs z n) (sym (In-singleton m)) reach)
    | inr late ↦ let (r, m, reach) = g.caused n late on in (r, there m, reach)
  ];
}

-- Marking a component, and then turning on its dependencies.
pub Effect-mark :
    {defs : Map ComponentDef} (name : Text) (def : ComponentDef) (st st' : Map Bool)
    → lookup name defs ≡ some def
    → flag st name ≡ false
    → Effect defs def.dependencies (insert name true st) st'
    → Effect defs (name ∷ []) st st'
Effect-mark {defs} name def st st' found off f = record {
  grows = λ n on. f.grows n (Grows-insert st name n on);
  on = (f.grows name (flag-insert_self name true st), tt);
  closes = λ n d l old new. elim (Bool-cases (name == n)) [
    | inl same ↦
        let e = (eq_iff name n).0 same in
        let same_def : def ≡ d = cc in
        subst (λ (x : ComponentDef). All (λ dep. flag st' dep ≡ true) x.dependencies) same_def f.on
    | inr other ↦ f.closes n d l (ground (arith, flag-insert name n true st)) new
  ];
  caused = λ n old new. elim (Bool-cases (name == n)) [
    | inl same ↦ (name, here refl, subst (Reach defs name) ((eq_iff name n).0 same) (stop name))
    | inr other ↦
        let (dep, m, reach) = f.caused n (ground (arith, flag-insert name n true st)) new in
        (name, here refl, via found m reach)
  ];
}

module _ {defs : Map ComponentDef} {st st' : Map Bool} where
  pub Effect-Closed : {xs : List Text} → Closed defs st → Effect defs xs st st' → Closed defs st'
  Effect-Closed closed f n d l on = elim (Bool-cases (flag st n)) [
    | inl old ↦ All-map d.dependencies (λ dep. f.grows dep) (closed n d l old)
    | inr fresh ↦ f.closes n d l fresh on
  ]

  pub Effect-cause :
      {name : Text}
      → Effect defs (name ∷ []) st st'
      → (n : Text) → flag st' n ≡ true
      → (flag st n ≡ true) ⊎ Reach defs name n
  Effect-cause f n on = elim (Bool-cases (flag st n)) [
    | inl old ↦ inl old
    | inr fresh ↦
        let (r, m, reach) = f.caused n fresh on in
        inr (subst (λ z. Reach defs z n) (sym (In-singleton m)) reach)
  ]

  pub Effect-enabled :
      {name : Text}
      → Effect defs (name ∷ []) st st'
      → Closed defs st'
      → (n : Text) → (flag st n ≡ true) ⊎ Reach defs name n
      → flag st' n ≡ true
  Effect-enabled f closed n (inl old) = f.grows n old
  Effect-enabled f closed n (inr reach) = Reach-flag st' reach closed f.on.0
