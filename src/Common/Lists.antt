-- ===== src/Common/Lists.antt =====
-- Lists measured and indexed by native numbers, and the predicates on their elements.
use Prim.Native.Nat.{ℕ, zero, suc, ◌+◌, ◌<◌}
use mathlib.Core.Path.{◌≡◌, refl, subst, ap}
use mathlib.Core.List.{List, [], ◌∷◌, ◌++◌}
use mathlib.Core.Option.{Option, none, some}
use mathlib.Core.Logic.{◌⊎◌, inl, inr}
use native.Mathlib.Omega.{arith}

module _ {ℓ} {A : Type ℓ} where
  abbrev pub length : List A → ℕ
  length [] = 0
  length (x ∷ xs) = suc (length xs)

  abbrev pub get_or : List A → ℕ → A → A
  get_or [] i d = d
  get_or (x ∷ xs) zero d = x
  get_or (x ∷ xs) (suc i) d = get_or xs i d

  -- xs[i], or none where the index is out of range
  abbrev pub get_elem? : List A → ℕ → Option A
  get_elem? [] i = none
  get_elem? (x ∷ xs) zero = some x
  get_elem? (x ∷ xs) (suc i) = get_elem? xs i

  pub length-append : (xs ys : List A) → length (xs ++ ys) ≡ length xs + length ys
  length-append [] ys = omega arith
  length-append (x ∷ xs) ys = omega (arith, length-append xs ys)

-- Membership with the position kept.
pub data In {ℓ} {A : Type ℓ} (a : A) : List A → Type ℓ where
  here : {b : A} {xs : List A} → b ≡ a → In a (b ∷ xs)
  there : {b : A} {xs : List A} → In a xs → In a (b ∷ xs)

-- A statement about every element.
abbrev pub All {ℓ κ} : {A : Type ℓ} → (A → Type κ) → List A → Type κ
All P [] = Unit
All P (x ∷ xs) = P x × All P xs

module _ {ℓ} {A : Type ℓ} where
  pub In-append : {a : A} (xs ys : List A) → In a (xs ++ ys) → In a xs ⊎ In a ys
  In-append [] ys m = inr m
  In-append (x ∷ xs) ys (here e) = inl (here e)
  In-append (x ∷ xs) ys (there m) = elim (In-append xs ys m) [
    | inl l ↦ inl (there l)
    | inr r ↦ inr r
  ]

  pub In-singleton : {a b : A} → In a (b ∷ []) → b ≡ a
  In-singleton (here e) = e
  In-singleton (there m) = elim m [ ]

  pub In-append_left : {a : A} {xs : List A} (ys : List A) → In a xs → In a (xs ++ ys)
  In-append_left ys (here e) = here e
  In-append_left ys (there m) = there (In-append_left ys m)

  pub In-append_right : {a : A} (xs : List A) {ys : List A} → In a ys → In a (xs ++ ys)
  In-append_right [] m = m
  In-append_right (x ∷ xs) m = there (In-append_right xs m)

module _ {ℓ κ} {A : Type ℓ} (P : A → Type κ) where
  pub All-In : {a : A} {xs : List A} → All P xs → In a xs → P a
  All-In h (here e) = subst P e h.0
  All-In h (there m) = All-In h.1 m

  -- An index in range finds an element, of which what holds of all is true.
  pub get_elem?-All :
      (xs : List A) (i : ℕ) → i < length xs → All P xs → (x : A) × (get_elem? xs i ≡ some x) × P x
  get_elem?-All [] i h all' = absurd (omega arith)
  get_elem?-All (x ∷ xs) zero h all' = (x, refl, all'.0)
  get_elem?-All (x ∷ xs) (suc i) h all' = get_elem?-All xs i (omega arith) all'.1

  pub All-of_In : (xs : List A) → ((a : A) → In a xs → P a) → All P xs
  All-of_In [] f = tt
  All-of_In (x ∷ xs) f = (f x (here refl), All-of_In xs (λ a m. f a (there m)))

module _ {ℓ κ μ} {A : Type ℓ} {P : A → Type κ} {Q : A → Type μ} where
  pub All-map : (xs : List A) → ((a : A) → P a → Q a) → All P xs → All Q xs
  All-map [] f h = tt
  All-map (x ∷ xs) f h = (f x h.0, All-map xs f h.1)

module _ {ℓ} {A : Type ℓ} where
  -- xs[:n], and xs[n:]
  unfoldable pub take : ℕ → List A → List A
  take zero xs = []
  take (suc n) [] = []
  take (suc n) (x ∷ xs) = x ∷ take n xs

  unfoldable pub drop : ℕ → List A → List A
  drop zero xs = xs
  drop (suc n) [] = []
  drop (suc n) (x ∷ xs) = drop n xs

  pub take-length : (xs : List A) → take (length xs) xs ≡ xs
  unfolding take
  take-length [] = refl
  take-length (x ∷ xs) = ap (λ r. x ∷ r) (take-length xs)

  -- One element more.
  pub take-suc :
      (n : ℕ) (xs : List A) (d : A)
      → n < length xs
      → take (suc n) xs ≡ take n xs ++ get_or xs n d ∷ []
  unfolding take
  take-suc n [] d h = absurd (omega arith)
  take-suc zero (x ∷ xs) d h = refl
  take-suc (suc n) (x ∷ xs) d h = ap (λ r. x ∷ r) (take-suc n xs d (omega arith))
