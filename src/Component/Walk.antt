-- ===== src/Component/Walk.antt =====
-- `transitiveDependents` of internal/core/component.go finds every component that depends on one.
use zhi.Common.{
  ℕ, zero, suc, ◌<◌, Text, Bool, true, false, List, [], ◌∷◌, Option, some, ◌≡◌, inl, inr, refl, sym,
  subst, arith, In, here, there, Map, insert, keys, contains, contains-keys-insert, contains-In,
  In-contains, for_each, for_each-cons, ◌==◌, eq_iff, Bool-cases,
}
use zhi.Component.Manager.{ComponentDef, ComponentManager, flag}
use zhi.Component.Disable.{walk_into, walk}
use zhi.Component.Valid.{
  IsValid, stop, Reach-snoc, Needs, flag-insert, flag-insert_self, Grows, Grows-insert, off_count,
  off_count-Grows, off_count-insert,
}

module _ (cm : ComponentManager) (v : IsValid cm) where
  -- No key of the map has the value false.
  abbrev pub AllTrue : Map Bool → Type 0
  AllTrue st = (x : Text) → contains (keys st) x ≡ true → flag st x ≡ true

  -- What the walk from `n` adds to `visited`, once the definitions `ds` were looked at.
  pub record Visits (n : Text) (ds : List ComponentDef) (st st' : Map Bool) : Type 0 where
    pub grows : Grows st st'
    pub direct : (d : ComponentDef) → In d ds → In n d.dependencies → flag st' d.name ≡ true
    pub closes :
        (m : Text) (d : ComponentDef)
        → flag st m ≡ false
        → flag st' m ≡ true
        → In d cm.definitions
        → In m d.dependencies
        → flag st' d.name ≡ true
    pub caused : (m : Text) → flag st m ≡ false → flag st' m ≡ true → Needs cm.defs_by_name m n
    pub trues : AllTrue st → AllTrue st'

  Visits-nil : (n : Text) (st : Map Bool) → Visits n [] st st
  Visits-nil n st = record {
    grows = λ m on. on;
    direct = λ d m. elim m [ ];
    closes = λ m d off on. absurd (cc);
    caused = λ m off on. absurd (cc);
    trues = λ h. h;
  }

  Visits-cons :
      (n : Text) (d : ComponentDef) (ds : List ComponentDef) (st₀ st₁ st₂ : Map Bool)
      → Visits n (d ∷ []) st₀ st₁
      → Visits n ds st₁ st₂
      → Visits n (d ∷ ds) st₀ st₂
  Visits-cons n d ds st₀ st₁ st₂ f g = record {
    grows = λ m on. g.grows m (f.grows m on);
    direct = direct;
    closes = λ m e off on listed needs. elim (Bool-cases (flag st₁ m)) [
      | inl early ↦ g.grows e.name (f.closes m e off early listed needs)
      | inr late ↦ g.closes m e late on listed needs
    ];
    caused = λ m off on. elim (Bool-cases (flag st₁ m)) [
      | inl early ↦ f.caused m off early
      | inr late ↦ g.caused m late on
    ];
    trues = λ h. g.trues (f.trues h);
  }
    where
      direct : (e : ComponentDef) → In e (d ∷ ds) → In n e.dependencies → flag st₂ e.name ≡ true
      direct e (here same) needs = g.grows e.name (f.direct e (here same) needs)
      direct e (there member) needs = g.direct e member needs

  Visits-skip :
      (n : Text) (d : ComponentDef) (st : Map Bool)
      → (In n d.dependencies → flag st d.name ≡ true)
      → Visits n (d ∷ []) st st
  Visits-skip n d st found = record {
    grows = λ m on. on;
    direct = direct;
    closes = λ m e off on. absurd (cc);
    caused = λ m off on. absurd (cc);
    trues = λ h. h;
  }
    where
      direct : (e : ComponentDef) → In e (d ∷ []) → In n e.dependencies → flag st e.name ≡ true
      direct e (here same) needs =
          subst (λ (x : ComponentDef). flag st x.name ≡ true) same
            (found (subst (λ (x : ComponentDef). In n x.dependencies) (sym same) needs))
      direct e (there member) needs = elim member [ ]

  -- A new dependent is marked, and then its own dependents are.
  Visits-enter :
      (n : Text) (d : ComponentDef) (st st' : Map Bool)
      → In d cm.definitions
      → In n d.dependencies
      → flag st d.name ≡ false
      → Visits d.name cm.definitions (insert d.name true st) st'
      → Visits n (d ∷ []) st st'
  Visits-enter n d st st' listed needs off f = record {
    grows = λ m on. f.grows m (Grows-insert st d.name m on);
    direct = direct;
    closes = λ m e old new e_listed e_needs. elim (Bool-cases (d.name == m)) [
      | inl same ↦
          f.direct e e_listed
            (subst (λ x. In x e.dependencies) (sym ((eq_iff d.name m).0 same)) e_needs)
      | inr other ↦ f.closes m e (ground (arith, flag-insert d.name m true st)) new e_listed e_needs
    ];
    caused = λ m old new. elim (Bool-cases (d.name == m)) [
      | inl same ↦
          subst (λ x. Needs cm.defs_by_name x n) ((eq_iff d.name m).0 same)
            (d, n, v.found d listed, needs, stop n)
      | inr other ↦
          let (e, b, found, dep, reach) =
            f.caused m (ground (arith, flag-insert d.name m true st)) new in
          (e, b, found, dep, Reach-snoc reach (v.found d listed) needs)
    ];
    trues = λ h. f.trues λ x k. ground (
      arith,
      h x,
      contains-keys-insert d.name x true st,
      flag-insert d.name x true st,
      eq_iff d.name x,
    );
  }
    where
      direct : (e : ComponentDef) → In e (d ∷ []) → In n e.dependencies → flag st' e.name ≡ true
      direct e (here same) _ =
          subst (λ (x : ComponentDef). flag st' x.name ≡ true) same
            (f.grows d.name (flag-insert_self d.name true st))
      direct e (there member) _ = elim member [ ]

  abbrev pub Works : ℕ → Type 0
  Works fuel =
      (n : Text) (st : Map Bool)
      → off_count st cm.definitions < fuel
      → (st' : Map Bool) × (walk cm.definitions fuel n st ≡ some st')
        × Visits n cm.definitions st st'

  abbrev step : ℕ → Text → ComponentDef → Map Bool → Option (Map Bool)
  step fuel n = walk_into (walk cm.definitions fuel) n

  step-Visits :
      (fuel : ℕ) (n : Text) (d : ComponentDef) (st : Map Bool)
      → Works fuel
      → In d cm.definitions
      → off_count st cm.definitions < suc fuel
      → (st' : Map Bool) × (step fuel n d st ≡ some st') × Visits n (d ∷ []) st st'
  unfolding walk_into
  step-Visits fuel n d st works listed enough = elim (Bool-cases (flag st d.name)) [
    | inl old ↦ (st, rw (old, walk_into), Visits-skip n d st (λ _. old))
    | inr off ↦ elim (Bool-cases (contains d.dependencies n)) [
      | inl needs ↦
          let (st', e, f) =
            works d.name (insert d.name true st)
              (omega (arith, off_count-insert st d cm.definitions listed off)) in
          (
            st',
            rw (off, needs, walk_into) e,
            Visits-enter n d st st' listed (contains-In d.dependencies n needs) off f,
          )
      | inr free ↦ (
        st,
        rw (off, free, walk_into),
        Visits-skip n d st (λ m. absurd (cc (In-contains d.dependencies n m, free))),
      )
    ]
  ]

  each-Visits :
      (fuel : ℕ) (n : Text) (ds : List ComponentDef) (st : Map Bool)
      → Works fuel
      → ((d : ComponentDef) → In d ds → In d cm.definitions)
      → off_count st cm.definitions < suc fuel
      → (st' : Map Bool) × (for_each (step fuel n) ds st ≡ some st') × Visits n ds st st'
  each-Visits fuel n [] st works part enough = (st, refl, Visits-nil n st)
  each-Visits fuel n (d ∷ ds) st works part enough =
      let (st₁, e₁, f) = step-Visits fuel n d st works (part d (here refl)) enough in
      let (st₂, e₂, g) =
        each-Visits fuel n ds st₁ works (λ x m. part x (there m))
          (omega (arith, off_count-Grows st st₁ cm.definitions f.grows)) in
      (st₂, for_each-cons (step fuel n) d ds st e₁ e₂, Visits-cons n d ds st st₁ st₂ f g)

  pub walk-Visits : (fuel : ℕ) → Works fuel
  unfolding walk
  walk-Visits zero n st enough = absurd (omega arith)
  walk-Visits (suc fuel) n st enough =
      each-Visits fuel n cm.definitions st (walk-Visits fuel) (λ d m. m) enough
