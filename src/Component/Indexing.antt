-- ===== src/Component/Indexing.antt =====
-- The checks of names and references in `NewComponentManager` (internal/core/component.go).
use zhi.Common.{
  Text, Bool, List, [], ◌∷◌, none, some, ok, ◌≡◌, ◌⊎◌, inl, inr, arith, All, In, here, there, Map,
  lookup, insert, lookup-insert, ◌==◌, eq_iff, Bool-cases, Option-cases, subst, eq_refl,
}
use zhi.Component.Manager.{ComponentDef}
use zhi.Component.Setup.{index_definitions, check_dependencies, check_references}
use zhi.Component.Valid.{IsValid}

-- What the index `m'` says, after the definitions `ds` were added to `m`.
record Indexes (ds : List ComponentDef) (m m' : Map ComponentDef) : Type 0 where
  kept : (n : Text) (d : ComponentDef) → lookup n m ≡ some d → lookup n m' ≡ some d
  added : (d : ComponentDef) → In d ds → lookup d.name m' ≡ some d
  only :
      (n : Text) (d : ComponentDef)
      → lookup n m' ≡ some d
      → (In d ds × (d.name ≡ n)) ⊎ (lookup n m ≡ some d)

Indexes-cons :
    (d : ComponentDef) (ds : List ComponentDef) (m m' : Map ComponentDef)
    → lookup d.name m ≡ none
    → Indexes ds (insert d.name d m) m'
    → Indexes (d ∷ ds) m m'
Indexes-cons d ds m m' fresh i = record {
  kept = λ n e found. i.kept n e (ground (arith, lookup-insert d.name n d m, eq_iff d.name n));
  added = λ e member. first e member;
  only = λ n e found. elim (i.only n e found) [
    | inl (member, named) ↦ inl (there member, named)
    | inr before ↦ last n e before
  ];
}
  where
    first : (e : ComponentDef) → In e (d ∷ ds) → lookup e.name m' ≡ some e
    first e (here same) =
        subst (λ (x : ComponentDef). lookup x.name m' ≡ some x) same
          (i.kept d.name d (ground (arith, lookup-insert d.name d.name d m, eq_refl d.name)))
    first e (there member) = i.added e member

    last :
        (n : Text) (e : ComponentDef)
        → lookup n (insert d.name d m) ≡ some e
        → (In e (d ∷ ds) × (e.name ≡ n)) ⊎ (lookup n m ≡ some e)
    last n e before = elim (Bool-cases (d.name == n)) [
      | inl same ↦
          let is_d : d ≡ e = ground (arith, lookup-insert d.name n d m) in
          inl (here is_d, subst (λ (x : ComponentDef). x.name ≡ n) is_d ((eq_iff d.name n).0 same))
      | inr other ↦ inr (ground (arith, lookup-insert d.name n d m))
    ]

index_definitions-Indexes :
    (ds : List ComponentDef) (m m' : Map ComponentDef)
    → index_definitions ds m ≡ ok m'
    → Indexes ds m m'
unfolding index_definitions
index_definitions-Indexes [] m m' e =
    let same : m ≡ m' = ground arith in
    record {
      kept = λ n d found. rw (← same) found;
      added = λ d member. elim member [ ];
      only = λ n d found. inr (rw same found);
    }
index_definitions-Indexes (d ∷ ds) m m' e = elim (Option-cases (lookup d.name m)) [
  | inl fresh ↦
      Indexes-cons d ds m m' fresh
        (index_definitions-Indexes ds (insert d.name d m) m' (ground arith))
  | inr (other, taken) ↦ absurd (ground arith)
]

abbrev pub IsDefined : Map ComponentDef → Text → Type 0
IsDefined m dep = (e : ComponentDef) × (lookup dep m ≡ some e)

check_dependencies-All :
    (m : Map ComponentDef) (name : Text) (deps : List Text)
    → check_dependencies m name deps ≡ ok tt
    → All (IsDefined m) deps
unfolding check_dependencies
check_dependencies-All m name [] h = tt
check_dependencies-All m name (dep ∷ deps) h = elim (Option-cases (lookup dep m)) [
  | inl missing ↦ absurd (ground arith)
  | inr (d, found) ↦ ((d, found), check_dependencies-All m name deps (ground arith))
]

check_references-All :
    (m : Map ComponentDef) (ds : List ComponentDef)
    → check_references m ds ≡ ok tt
    → (d : ComponentDef) → In d ds
    → All (IsDefined m) d.dependencies
unfolding check_references
check_references-All m [] h d member = elim member [ ]
check_references-All m (e ∷ ds) h d (here same) =
    subst (λ (x : ComponentDef). All (IsDefined m) x.dependencies) same
      (check_dependencies-All m e.name e.dependencies (ground arith))
check_references-All m (e ∷ ds) h d (there member) =
    check_references-All m ds (ground arith) d member

-- The two checks make a manager valid, whatever its state.
pub checks-IsValid :
    (ds : List ComponentDef) (m : Map ComponentDef) (st : Map Bool)
    → index_definitions ds [] ≡ ok m
    → check_references m ds ≡ ok tt
    → IsValid (record { definitions = ds; state = st; defs_by_name = m })
checks-IsValid ds m st indexed checked =
    let i = index_definitions-Indexes ds [] m indexed in
    record {
      indexed = λ n d found. elim (i.only n d found) [
        | inl listed ↦ listed
        | inr before ↦ absurd (unfold lookup in cc before)
      ];
      found = i.added;
      known = check_references-All m ds checked;
    }
