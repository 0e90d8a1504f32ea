-- ===== src/Common/Splits.antt =====
-- strings.Split and strings.Join at a separator of one byte.
use Prim.Native.Nat.{ℕ}
use mathlib.Core.Path.{◌≡◌, refl}
use mathlib.Core.Logic.{◌≢◌}
use mathlib.Core.Bool.{Bool, false, ◌||◌}
use mathlib.Core.List.{List, [], ◌∷◌, ◌++◌}
use native.Mathlib.Omega.{arith}
use zhi.Common.Tests.{nat_eq, if◌then◌else◌}
use zhi.Common.Lists.{All}
use zhi.Common.Texts.{Text}

-- A byte in front of the first part.
unfoldable pub cons_head : ℕ → List Text → List Text
cons_head c [] = (c ∷ []) ∷ []
cons_head c (part ∷ parts) = (c ∷ part) ∷ parts

unfoldable pub split : ℕ → Text → List Text
unfolding cons_head
split sep [] = [] ∷ []
split sep (c ∷ s) =
    let parts = split sep s in if nat_eq c sep then [] ∷ parts else cons_head c parts

unfoldable pub join : ℕ → List Text → Text
join sep [] = []
join sep (part ∷ []) = part
join sep (part ∷ next ∷ parts) = part ++ sep ∷ join sep (next ∷ parts)

-- Whether a byte occurs in a text.
unfoldable pub has_byte : ℕ → Text → Bool
has_byte sep [] = false
has_byte sep (c ∷ s) = nat_eq c sep || has_byte sep s

cons_head-append :
    (c : ℕ) (xs ys : List Text) → xs ≢ [] → cons_head c xs ++ ys ≡ cons_head c (xs ++ ys)
unfolding cons_head
cons_head-append c [] ys ne = ground (arith, ne)
cons_head-append c (x ∷ xs) ys ne = refl

cons_head-nonempty : (c : ℕ) (xs : List Text) → cons_head c xs ≢ []
unfolding cons_head
cons_head-nonempty c [] = ground arith
cons_head-nonempty c (x ∷ xs) = ground arith

pub split-nonempty : (sep : ℕ) (s : Text) → split sep s ≢ []
unfolding split
split-nonempty sep [] = ground arith
split-nonempty sep (c ∷ s) = ground (arith, cons_head-nonempty c (split sep s))

-- A separator between two texts separates their parts.
pub split-append : (sep : ℕ) (s t : Text) → split sep (s ++ sep ∷ t) ≡ split sep s ++ split sep t
unfolding split
split-append sep [] t = ground arith
split-append sep (c ∷ s) t = ground (
  arith,
  split-append sep s t,
  cons_head-append c (split sep s) (split sep t) (split-nonempty sep s),
)

join-cons_head : (sep c : ℕ) (parts : List Text) → join sep (cons_head c parts) ≡ c ∷ join sep parts
unfolding cons_head join
join-cons_head sep c [] = refl
join-cons_head sep c (part ∷ []) = refl
join-cons_head sep c (part ∷ next ∷ parts) = refl

join-empty :
    (sep : ℕ) (parts : List Text) → parts ≢ [] → join sep ([] ∷ parts) ≡ sep ∷ join sep parts
unfolding join
join-empty sep [] ne = ground (arith, ne)
join-empty sep (part ∷ parts) ne = refl

pub join-split : (sep : ℕ) (s : Text) → join sep (split sep s) ≡ s
unfolding split join
join-split sep [] = refl
join-split sep (c ∷ s) = ground (
  arith,
  join-split sep s,
  join-empty sep (split sep s) (split-nonempty sep s),
  join-cons_head sep c (split sep s),
)

pub split-part : (sep : ℕ) (s : Text) → has_byte sep s ≡ false → split sep s ≡ s ∷ []
unfolding split has_byte
split-part sep [] h = refl
split-part sep (c ∷ s) h = let part = split-part sep s (ground arith) in ground arith

pub split-join :
    (sep : ℕ) (part : Text) (parts : List Text)
    → All (λ p. has_byte sep p ≡ false) (part ∷ parts)
    → split sep (join sep (part ∷ parts)) ≡ part ∷ parts
unfolding join
split-join sep part [] (h, _) = split-part sep part h
split-join sep part (next ∷ parts) (h, hs) = ground (
  arith,
  split-append sep part (join sep (next ∷ parts)),
  split-part sep part h,
  split-join sep next parts hs,
)
