-- ===== src/Common/Sets.antt =====
-- Lists of names read as sets: membership by a test, lists without repetition, positions.
use Prim.Native.Nat.{ℕ, suc, ◌≤◌, ◌<◌}
use mathlib.Core.Path.{◌≡◌, refl}
use mathlib.Core.Logic.{inl, inr}
use mathlib.Core.Bool.{Bool, true, false, ◌||◌}
use mathlib.Core.List.{List, [], ◌∷◌, ◌++◌}
use mathlib.Core.Option.{none, some}
use native.Mathlib.Omega.{arith}
use zhi.Common.Tests.{if◌then◌else◌, Bool-cases}
use zhi.Common.Lists.{length, In, here, there}
use zhi.Common.Texts.{Text, ◌==◌, eq_iff}
use zhi.Common.Maps.{Map, lookup, insert, keys}

-- slices.Contains
unfoldable pub contains : List Text → Text → Bool
contains [] x = false
contains (y ∷ ys) x = y == x || contains ys x

pub contains-In : (xs : List Text) (x : Text) → contains xs x ≡ true → In x xs
unfolding contains
contains-In [] x h = absurd (cc)
contains-In (y ∷ ys) x h = elim (Bool-cases (y == x)) [
  | inl same ↦ here ((eq_iff y x).0 same)
  | inr other ↦ there (contains-In ys x (ground arith))
]

pub In-contains : (xs : List Text) (x : Text) → In x xs → contains xs x ≡ true
unfolding contains
In-contains [] x m = elim m [ ]
In-contains (y ∷ ys) x (here e) = ground (arith, eq_iff y x)
In-contains (y ∷ ys) x (there m) = ground (arith, In-contains ys x m)

pub contains-append :
    (xs ys : List Text) (x : Text) → contains (xs ++ ys) x ≡ (contains xs x || contains ys x)
unfolding contains
contains-append [] ys x = refl
contains-append (z ∷ zs) ys x = ground (arith, contains-append zs ys x)

-- No name stands in the list twice.
abbrev pub Distinct : List Text → Type 0
Distinct [] = Unit
Distinct (x ∷ xs) = (contains xs x ≡ false) × Distinct xs

pub Distinct-snoc :
    (xs : List Text) (y : Text) → Distinct xs → contains xs y ≡ false → Distinct (xs ++ y ∷ [])
unfolding contains
Distinct-snoc [] y h fresh = (refl, tt)
Distinct-snoc (x ∷ xs) y h fresh = (
  ground (arith, contains-append xs (y ∷ []) x, eq_iff x y, eq_iff y x),
  Distinct-snoc xs y h.1 (ground arith),
)

pub Distinct-middle :
    (xs : List Text) (y : Text) (ys : List Text) → Distinct (xs ++ y ∷ ys) → contains xs y ≡ false
unfolding contains
Distinct-middle [] y ys h = refl
Distinct-middle (x ∷ xs) y ys h = ground (
  arith,
  contains-append xs (y ∷ ys) x,
  Distinct-middle xs y ys h.1,
  eq_iff x y,
  eq_iff y x,
  eq_iff y y,
)

-- Every name of the first list stands in the second.
abbrev pub Within : List Text → List Text → Type 0
Within xs ys = (x : Text) → contains xs x ≡ true → contains ys x ≡ true

unfoldable pub without : Text → List Text → List Text
without x [] = []
without x (y ∷ ys) = let rest = without x ys in if y == x then rest else y ∷ rest

length-without-le : (x : Text) (ys : List Text) → length (without x ys) ≤ length ys
unfolding without
length-without-le x [] = omega arith
length-without-le x (y ∷ ys) = ground (arith, length-without-le x ys)

length-without-lt :
    (x : Text) (ys : List Text) → contains ys x ≡ true → length (without x ys) < length ys
unfolding without contains
length-without-lt x [] h = absurd (cc)
length-without-lt x (y ∷ ys) h = ground (arith, length-without-le x ys, length-without-lt x ys)

contains-without :
    (x z : Text) (ys : List Text)
    → contains ys z ≡ true
    → (x == z) ≡ false
    → contains (without x ys) z ≡ true
unfolding without contains
contains-without x z [] h ne = absurd (cc)
contains-without x z (y ∷ ys) h ne =
    ground (arith, contains-without x z ys, eq_iff y x, eq_iff y z, eq_iff x z)

-- A list without repetition is no longer than a list that holds its names.
pub Distinct-length-le : (xs ys : List Text) → Distinct xs → Within xs ys → length xs ≤ length ys
unfolding contains
Distinct-length-le [] ys h w = omega arith
Distinct-length-le (x ∷ xs) ys h w =
    let ih = Distinct-length-le xs (without x ys) h.1 inner in
    omega (arith, ih, length-without-lt x ys (w x (ground (arith, eq_iff x x))))
  where
    inner : Within xs (without x ys)
    inner z m = contains-without x z ys (w z (ground arith)) (ground (arith, eq_iff x z))

-- The position of the first occurrence; the length where there is none.
unfoldable pub position : List Text → Text → ℕ
position [] x = 0
position (y ∷ ys) x = let rest = position ys x in if y == x then 0 else suc rest

pub position-append :
    (xs ys : List Text) (x : Text) → contains xs x ≡ true → position (xs ++ ys) x ≡ position xs x
unfolding position contains
position-append [] ys x h = absurd (cc)
position-append (z ∷ zs) ys x h = ground (arith, position-append zs ys x)

pub position-lt : (xs : List Text) (x : Text) → contains xs x ≡ true → position xs x < length xs
unfolding position contains
position-lt [] x h = absurd (cc)
position-lt (z ∷ zs) x h = ground (arith, position-lt zs x)

pub position-le : (xs : List Text) (x : Text) → position xs x ≤ length xs
unfolding position
position-le [] x = omega arith
position-le (z ∷ zs) x = ground (arith, position-le zs x)

pub position-snoc :
    (xs : List Text) (x : Text) → contains xs x ≡ false → position (xs ++ x ∷ []) x ≡ length xs
unfolding position contains
position-snoc [] x h = ground (arith, eq_iff x x)
position-snoc (z ∷ zs) x h = ground (arith, position-snoc zs x)

module _ {ℓ} {V : Type ℓ} where
  pub contains-keys-insert :
      (k x : Text) (v : V) (m : Map V)
      → contains (keys (insert k v m)) x ≡ (k == x || contains (keys m) x)
  unfolding contains keys insert
  contains-keys-insert k x v [] = refl
  contains-keys-insert k x v ((j, w) ∷ m) =
      ground (arith, contains-keys-insert k x v m, eq_iff j k, eq_iff k x, eq_iff j x)

  -- A map has each key once.
  pub Distinct-keys-insert :
      (k : Text) (v : V) (m : Map V) → Distinct (keys m) → Distinct (keys (insert k v m))
  unfolding contains keys insert
  Distinct-keys-insert k v [] h = (refl, tt)
  Distinct-keys-insert k v ((j, w) ∷ m) h = elim (Bool-cases (j == k)) [
    | inl same ↦ rw same h
    | inr other ↦ rw other (
      ground (arith, contains-keys-insert k j v m, eq_iff k j, eq_iff j k),
      Distinct-keys-insert k v m h.1,
    )
  ]

  pub contains-keys :
      (k : Text) (m : Map V)
      → contains (keys m) k ≡ elim (lookup k m) [ none ↦ false | some _ ↦ true ]
  unfolding contains keys lookup
  contains-keys k [] = refl
  contains-keys k ((j, w) ∷ m) = ground (arith, contains-keys k m)
