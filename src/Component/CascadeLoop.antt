-- ===== src/Component/CascadeLoop.antt =====
-- The loops and the recursion of `disableCascadeRecursive` (internal/core/component.go).
use zhi.Common.{
  ℕ, zero, suc, ◌+◌, ◌≤◌, ◌<◌, Text, true, false, not, ◌&&◌, List, [], ◌∷◌, Option, some, ◌≡◌, inl,
  inr, refl, sym, subst, ap, ◌∙◌, arith, All-In, In, here, there, for_each, for_each-cons, ◌==◌,
  eq_iff, Bool-cases, length,
}
use zhi.Component.Manager.{ComponentDef, ComponentManager, flag}
use zhi.Component.Enable.{Report}
use zhi.Component.Disable.{cascade_into, disable_cascade_rec}
use zhi.Component.Valid.{IsValid, flag-insert_self}
use zhi.Component.Cascade.{Drops, Drops-nil, Drops-trans, Drops-lift, Drops-last, marked_off}
use zhi.Component.Acyclic.{IsRanked}

module _ (cm : ComponentManager) (v : IsValid cm) where
  module _ (rank : Text → ℕ) (ranked : IsRanked cm.definitions rank) where
    abbrev pub CascadeWorks : (Text → Report → Option Report) → ℕ → Type 0
    CascadeWorks rec fuel =
        (n : Text) (r : Report)
        → length cm.definitions < rank n + fuel
        → (r' : Report) × (rec n r ≡ some r') × Drops cm v n r r' × (flag r'.0 n ≡ false)

    abbrev body :
        (Text → Report → Option Report) → Text → ComponentDef → Text → Report → Option Report
    body rec name d dep s = elim (dep == name && flag s.0 d.name && not d.mandatory) [
      | true ↦ rec d.name s
      | false ↦ some s
    ]

    -- After the loop over the dependencies of `d`, or a part `deps` of them.
    record Inner (name : Text) (d : ComponentDef) (deps : List Text) (r r' : Report) : Type 0 where
      drops : Drops cm v name r r'
      off : In name deps → d.mandatory ≡ false → flag r'.0 d.name ≡ false

    Inner-cons :
        (name : Text) (d : ComponentDef) (dep : Text) (deps : List Text) (r₀ r₁ r₂ : Report)
        → Drops cm v name r₀ r₁
        → (dep ≡ name → d.mandatory ≡ false → flag r₁.0 d.name ≡ false)
        → Inner name d deps r₁ r₂
        → Inner name d (dep ∷ deps) r₀ r₂
    Inner-cons name d dep deps r₀ r₁ r₂ f first i = record {
      drops = Drops-trans cm v name r₀ r₁ r₂ f i.drops;
      off = off;
    }
      where
        off : In name (dep ∷ deps) → d.mandatory ≡ false → flag r₂.0 d.name ≡ false
        off (here same) optional =
            let gone = first same optional in ground (arith, i.drops.shrinks d.name)
        off (there m) optional = i.off m optional

    Drops_within :
        (rec : Text → Report → Option Report) (fuel : ℕ) (name : Text) (d : ComponentDef)
        (deps : List Text) (r : Report)
        → CascadeWorks rec fuel
        → In d cm.definitions
        → ((x : Text) → In x deps → In x d.dependencies)
        → length cm.definitions < rank name + suc fuel
        → (r' : Report) × (for_each (body rec name d) deps r ≡ some r') × Inner name d deps r r'
    Drops_within rec fuel name d [] r works listed part enough =
        (r, refl, record { drops = Drops-nil cm v name r; off = λ m. elim m [ ] })
    Drops_within rec fuel name d (dep ∷ deps) r works listed part enough =
        elim (Bool-cases (dep == name && flag r.0 d.name && not d.mandatory)) [
          | inl enter ↦
              let same : dep ≡ name = (eq_iff dep name).0 (ground arith) in
              let needs = subst (λ x. In x d.dependencies) same (part dep (here refl)) in
              let higher = All-In (λ x. rank x < rank d.name) (ranked d listed) needs in
              let (r₁, e₁, f, gone) = works d.name r (omega arith) in
              let (r₂, e₂, i) =
                Drops_within rec fuel name d deps r₁ works listed (λ x m. part x (there m))
                  enough in
              (
                r₂,
                for_each-cons (body rec name d) dep deps r (rw (enter, body) e₁) e₂,
                Inner-cons name d dep deps r r₁ r₂ (Drops-lift cm v name d r r₁ listed needs f)
                    (λ _ _. gone) i,
              )
          | inr skip ↦
              let (r₂, e₂, i) =
                Drops_within rec fuel name d deps r works listed (λ x m. part x (there m)) enough in
              (
                r₂,
                for_each-cons (body rec name d) dep deps r (rw (skip, body)) e₂,
                Inner-cons name d dep deps r r r₂ (Drops-nil cm v name r)
                    (λ same optional. ground (arith, eq_iff dep name)) i,
              )
        ]

    -- After the loop over the definitions, or a part `ds` of them.
    record Outer (name : Text) (ds : List ComponentDef) (r r' : Report) : Type 0 where
      drops : Drops cm v name r r'
      off :
          (d : ComponentDef)
          → In d ds
          → In name d.dependencies
          → d.mandatory ≡ false
          → flag r'.0 d.name ≡ false

    Outer-cons :
        (name : Text) (d : ComponentDef) (ds : List ComponentDef) (r₀ r₁ r₂ : Report)
        → Inner name d d.dependencies r₀ r₁
        → Outer name ds r₁ r₂
        → Outer name (d ∷ ds) r₀ r₂
    Outer-cons name d ds r₀ r₁ r₂ i o = record {
      drops = Drops-trans cm v name r₀ r₁ r₂ i.drops o.drops;
      off = off;
    }
      where
        off :
            (e : ComponentDef)
            → In e (d ∷ ds)
            → In name e.dependencies
            → e.mandatory ≡ false
            → flag r₂.0 e.name ≡ false
        off e (here same) needs optional =
            subst (λ (x : ComponentDef). flag r₂.0 x.name ≡ false) same
              (still_off (
                i.off (subst (λ (x : ComponentDef). In name x.dependencies) (sym same) needs)
                  (ap (λ (x : ComponentDef). x.mandatory) same ∙ optional)))
          where
            still_off : flag r₁.0 d.name ≡ false → flag r₂.0 d.name ≡ false
            still_off gone = ground (arith, o.drops.shrinks d.name)
        off e (there m) needs optional = o.off e m needs optional

    Drops_between :
        (rec : Text → Report → Option Report) (fuel : ℕ) (name : Text) (ds : List ComponentDef)
        (r : Report)
        → CascadeWorks rec fuel
        → ((d : ComponentDef) → In d ds → In d cm.definitions)
        → length cm.definitions < rank name + suc fuel
        → (r' : Report) × (for_each (cascade_into rec name) ds r ≡ some r') × Outer name ds r r'
    unfolding cascade_into
    Drops_between rec fuel name [] r works part enough =
        (r, refl, record { drops = Drops-nil cm v name r; off = λ d m. elim m [ ] })
    Drops_between rec fuel name (d ∷ ds) r works part enough =
        let (r₁, e₁, i) =
          Drops_within rec fuel name d d.dependencies r works (part d (here refl)) (λ x m. m)
            enough in
        let (r₂, e₂, o) =
          Drops_between rec fuel name ds r₁ works (λ x m. part x (there m)) enough in
        (r₂, for_each-cons (cascade_into rec name) d ds r e₁ e₂, Outer-cons name d ds r r₁ r₂ i o)

    -- With fuel for the ranks from `name` on, the cascade has a result, and `name` is off in it.
    pub disable_cascade_rec-Drops :
        ((n : Text) → rank n ≤ length cm.definitions)
        → (fuel : ℕ) → CascadeWorks (disable_cascade_rec cm.definitions fuel) fuel
    unfolding disable_cascade_rec
    disable_cascade_rec-Drops bounded zero name r enough = absurd (omega (arith, bounded name))
    disable_cascade_rec-Drops bounded (suc fuel) name r enough = elim (Bool-cases (flag r.0 name)) [
      | inr old ↦ (r, rw (old, disable_cascade_rec), Drops-nil cm v name r, old)
      | inl on ↦
          let (r', e, o) =
            Drops_between (disable_cascade_rec cm.definitions fuel) fuel name cm.definitions r
              (disable_cascade_rec-Drops bounded fuel) (λ d m. m) enough in
          (
            marked_off cm v name r',
            rw (on, e, disable_cascade_rec),
            Drops-last cm v name r r' on o.off o.drops,
            flag-insert_self name false r'.0,
          )
    ]
