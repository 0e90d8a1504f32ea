-- ===== src/Component/Cascade.antt =====
-- What `disableCascadeRecursive` of internal/core/component.go does to the state and the report.
use zhi.Common.{
  Text, true, false, not, ◌&&◌, ◌||◌, [], ◌∷◌, ◌++◌, ◌≡◌, inl, inr, sym, subst, arith, In, insert,
  contains, contains-append, ◌==◌, eq_iff, Bool-cases,
}
use zhi.Component.Manager.{ComponentDef, ComponentManager, flag}
use zhi.Component.Enable.{Report}
use zhi.Component.Valid.{IsValid, Reach, stop, Reach-snoc, flag-insert}

module _ (cm : ComponentManager) (v : IsValid cm) where
  -- What a part of the cascade from `name` turns off.
  pub record Drops (name : Text) (r r' : Report) : Type 0 where
    pub shrinks : (n : Text) → flag r'.0 n ≡ true → flag r.0 n ≡ true
    pub closes :
        (n : Text) (d : ComponentDef)
        → flag r.0 n ≡ true
        → flag r'.0 n ≡ false
        → In d cm.definitions
        → In n d.dependencies
        → d.mandatory ≡ false
        → flag r'.0 d.name ≡ false
    pub caused : (n : Text) → flag r.0 n ≡ true → flag r'.0 n ≡ false → Reach cm.defs_by_name n name
    pub reported :
        (n : Text) → contains r'.1 n ≡ (contains r.1 n || (flag r.0 n && not (flag r'.0 n)))

  pub Drops-nil : (name : Text) (r : Report) → Drops name r r
  Drops-nil name r = record {
    shrinks = λ n on. on;
    closes = λ n d on off. absurd (cc);
    caused = λ n on off. absurd (cc);
    reported = λ n. ground arith;
  }

  -- What is on before and off after was turned off by one of two parts.
  pub Drops-trans :
      (name : Text) (r₀ r₁ r₂ : Report) → Drops name r₀ r₁ → Drops name r₁ r₂ → Drops name r₀ r₂
  Drops-trans name r₀ r₁ r₂ f g = record {
    shrinks = λ n on. f.shrinks n (g.shrinks n on);
    closes = λ n d on off listed needs optional. elim (Bool-cases (flag r₁.0 n)) [
      | inl late ↦ g.closes n d late off listed needs optional
      | inr early ↦
          let gone = f.closes n d on early listed needs optional in ground (arith, g.shrinks d.name)
    ];
    caused = λ n on off. elim (Bool-cases (flag r₁.0 n)) [
      | inl late ↦ g.caused n late off
      | inr early ↦ f.caused n on early
    ];
    reported = λ n. ground (arith, f.reported n, g.reported n, f.shrinks n, g.shrinks n);
  }

  -- The cascade from a dependent is a part of the cascade from `name`.
  pub Drops-lift :
      (name : Text) (d : ComponentDef) (r r' : Report)
      → In d cm.definitions
      → In name d.dependencies
      → Drops d.name r r'
      → Drops name r r'
  Drops-lift name d r r' listed needs f = record {
    shrinks = f.shrinks;
    closes = f.closes;
    caused = λ n on off. Reach-snoc (f.caused n on off) (v.found d listed) needs;
    reported = f.reported;
  }

  abbrev pub marked_off : Text → Report → Report
  marked_off name r = (insert name false r.0, r.1 ++ name ∷ [])

  -- The dependents are off: now the component itself.
  pub Drops-last :
      (name : Text) (r r' : Report)
      → flag r.0 name ≡ true
      → ((d : ComponentDef)
          → In d cm.definitions
          → In name d.dependencies
          → d.mandatory ≡ false
          → flag r'.0 d.name ≡ false)
      → Drops name r r'
      → Drops name r (marked_off name r')
  Drops-last name r r' on dependents f = record {
    shrinks = λ n h. f.shrinks n (ground (arith, flag-insert name n false r'.0));
    closes = λ n d was off listed needs optional. elim (Bool-cases (name == n)) [
      | inl same ↦
          let gone =
            dependents d listed
              (subst (λ x. In x d.dependencies) (sym ((eq_iff name n).0 same)) needs) optional in
          ground (arith, flag-insert name d.name false r'.0)
      | inr other ↦
          let gone =
            f.closes n d was (ground (arith, flag-insert name n false r'.0)) listed needs
              optional in
          ground (arith, flag-insert name d.name false r'.0)
    ];
    caused = λ n was off. elim (Bool-cases (name == n)) [
      | inl same ↦ subst (λ x. Reach cm.defs_by_name x name) ((eq_iff name n).0 same) (stop name)
      | inr other ↦ f.caused n was (ground (arith, flag-insert name n false r'.0))
    ];
    reported = λ n.
        unfold contains in
        ground (
          arith,
          f.reported n,
          f.shrinks n,
          flag-insert name n false r'.0,
          contains-append r'.1 (name ∷ []) n,
          eq_iff name n,
        );
  }
