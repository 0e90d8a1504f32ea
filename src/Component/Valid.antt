-- ===== src/Component/Valid.antt =====
-- What `NewComponentManager` establishes of the definitions, and the words of the theorems: a
-- state that is closed under dependencies, and a component that another one reaches.
use zhi.Common.{
  ℕ, ◌+◌, ◌≤◌, ◌<◌, Text, Bool, true, false, List, [], ◌∷◌, some, ◌≡◌, arith, All, In, here, there,
  Map, lookup, insert, lookup-insert, if◌then◌else◌, length, ap, ◌==◌, eq_refl, All-In,
}
use zhi.Component.Manager.{ComponentDef, ComponentManager, flag}

-- The definitions and their index agree, and every dependency is defined.
pub record IsValid (cm : ComponentManager) : Type 0 where
  pub indexed :
      (n : Text) (d : ComponentDef)
      → lookup n cm.defs_by_name ≡ some d
      → In d cm.definitions × (d.name ≡ n)
  pub found : (d : ComponentDef) → In d cm.definitions → lookup d.name cm.defs_by_name ≡ some d
  pub known :
      (d : ComponentDef)
      → In d cm.definitions
      → All (λ dep. (e : ComponentDef) × (lookup dep cm.defs_by_name ≡ some e)) d.dependencies

-- Every dependency of an enabled component is enabled.
abbrev pub Closed : Map ComponentDef → Map Bool → Type 0
Closed defs st =
    (n : Text) (d : ComponentDef)
    → lookup n defs ≡ some d
    → flag st n ≡ true
    → All (λ dep. flag st dep ≡ true) d.dependencies

-- `Reach defs a c`: `c` is `a`, or a dependency of it, direct or transitive.
pub data Reach (defs : Map ComponentDef) : Text → Text → Type 0 where
  stop : (a : Text) → Reach defs a a
  via :
      {a b c : Text} {d : ComponentDef}
      → lookup a defs ≡ some d
      → In b d.dependencies
      → Reach defs b c
      → Reach defs a c

pub Reach-flag :
    {defs : Map ComponentDef} {a c : Text} (st : Map Bool)
    → Reach defs a c
    → Closed defs st
    → flag st a ≡ true
    → flag st c ≡ true
Reach-flag st (stop a) closed on = on
Reach-flag st (via {a} {b} {d} found dep rest) closed on =
    Reach-flag st rest closed (All-In (λ x. flag st x ≡ true) (closed a d found on) dep)

pub flag-insert :
    (k j : Text) (b : Bool) (st : Map Bool)
    → flag (insert k b st) j ≡ (if k == j then b else flag st j)
unfolding flag
flag-insert k j b st = ground (arith, lookup-insert k j b st)

pub flag-insert_self : (k : Text) (b : Bool) (st : Map Bool) → flag (insert k b st) k ≡ b
flag-insert_self k b st = ground (arith, flag-insert k k b st, eq_refl k)

-- How many of the definitions are disabled.
pub off_count : Map Bool → List ComponentDef → ℕ
off_count st [] = 0
off_count st (d ∷ ds) = (if flag st d.name then 0 else 1) + off_count st ds

pub off_count-le-length : (st : Map Bool) (ds : List ComponentDef) → off_count st ds ≤ length ds
unfolding off_count
off_count-le-length st [] = omega arith
off_count-le-length st (d ∷ ds) = ground (arith, off_count-le-length st ds)

abbrev pub Grows : Map Bool → Map Bool → Type 0
Grows st st' = (n : Text) → flag st n ≡ true → flag st' n ≡ true

pub off_count-Grows :
    (st st' : Map Bool) (ds : List ComponentDef) → Grows st st' → off_count st' ds ≤ off_count st ds
unfolding off_count
off_count-Grows st st' [] g = omega arith
off_count-Grows st st' (d ∷ ds) g = ground (arith, g d.name, off_count-Grows st st' ds g)

pub Grows-insert : (st : Map Bool) (name : Text) → Grows st (insert name true st)
Grows-insert st name n on = ground (arith, flag-insert name n true st)

pub off_count-insert :
    (st : Map Bool) (d : ComponentDef) (ds : List ComponentDef)
    → In d ds
    → flag st d.name ≡ false
    → off_count (insert d.name true st) ds < off_count st ds
unfolding off_count
off_count-insert st d [] m off = elim m [ ]
off_count-insert st d (e ∷ ds) (here same) off =
    let named = ap (λ (x : ComponentDef). x.name) same in
    ground (
      arith,
      flag-insert_self d.name true st,
      off_count-Grows st (insert d.name true st) ds (Grows-insert st d.name),
    )
off_count-insert st d (e ∷ ds) (there m) off =
    ground (arith, off_count-insert st d ds m off, flag-insert d.name e.name true st)

pub Reach-snoc :
    {defs : Map ComponentDef} {a b c : Text} {d : ComponentDef}
    → Reach defs a b
    → lookup b defs ≡ some d
    → In c d.dependencies
    → Reach defs a c
Reach-snoc (stop b) found dep = via found dep (stop _)
Reach-snoc (via e m rest) found dep = via e m (Reach-snoc rest found dep)

-- `m` depends on `n`, directly or transitively.
abbrev pub Needs : Map ComponentDef → Text → Text → Type 0
Needs defs m n =
    (d : ComponentDef) × (b : Text) × (lookup m defs ≡ some d)
    × In b d.dependencies
    × Reach defs b n
