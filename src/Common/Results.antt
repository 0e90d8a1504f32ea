-- ===== src/Common/Results.antt =====
-- Go's `(value, error)` results, and loops that may fail.
use mathlib.Core.Path.{◌≡◌, refl}
use mathlib.Core.Logic.{◌⊎◌, inl, inr}
use mathlib.Core.List.{List, [], ◌∷◌}
use mathlib.Core.Option.{Option, none, some}

-- `ok a` is `a, nil`; `err e` is a non-nil error.
pub data Result {ℓ κ} (E : Type ℓ) (A : Type κ) : Type (ℓ ⊔ κ) where
  ok : A → Result E A
  err : E → Result E A

infixl 5 ◌>>=◌ ◌>>◌
abbrev pub ◌>>=◌ {ℓ κ μ} :
    {E : Type ℓ} {A : Type κ} {B : Type μ} → Result E A → (A → Result E B) → Result E B
ok a >>= f = f a
err e >>= f = err e

abbrev pub ◌>>◌ {ℓ μ} : {E : Type ℓ} {B : Type μ} → Result E (Unit {0}) → Result E B → Result E B
m >> k = m >>= λ _. k

pub Result-cases {ℓ κ} :
    {E : Type ℓ} {A : Type κ} (r : Result E A) → ((a : A) × (r ≡ ok a)) ⊎ ((e : E) × (r ≡ err e))
Result-cases (ok a) = inl (a, refl)
Result-cases (err e) = inr (e, refl)

-- `for _, x := range xs { s = body(x, s) }`, where the body may have no result.
abbrev pub for_each {ℓ κ} : {X : Type ℓ} {S : Type κ} → (X → S → Option S) → List X → S → Option S
for_each body [] s = some s
for_each body (x ∷ xs) s = elim (body x s) [ none ↦ none | some s' ↦ for_each body xs s' ]

-- One round of the loop, and the rest.
pub for_each-cons {ℓ κ} :
    {X : Type ℓ} {S : Type κ} (body : X → S → Option S) (x : X) (xs : List X) (s : S) {s' t : S}
    → body x s ≡ some s'
    → for_each body xs s' ≡ some t
    → for_each body (x ∷ xs) s ≡ some t
for_each-cons body x xs s first rest = rw (first, for_each) rest

-- Both steps of a chain that succeeds have succeeded.
pub both_ok {ℓ μ} :
    {E : Type ℓ} {B : Type μ} (m : Result E (Unit {0})) (k : Result E B) (b : B)
    → m >> k ≡ ok b
    → (m ≡ ok tt) × (k ≡ ok b)
both_ok (ok u) k b h = (refl, h)
both_ok (err e) k b h = absurd (cc)
