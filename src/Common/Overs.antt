-- ===== src/Common/Overs.antt =====
-- Loops that put a value at each path of a list that has one.
use mathlib.Core.Path.{◌≡◌, refl, subst}
use mathlib.Core.Logic.{inl, inr}
use mathlib.Core.Bool.{Bool, true, false}
use mathlib.Core.List.{List, ◌∷◌}
use mathlib.Core.Option.{Option, none, some}
use zhi.Common.Tests.{if◌then◌else◌, Bool-cases}
use zhi.Common.Texts.{Text, ◌==◌, eq_iff}
use zhi.Common.Sets.{contains}

-- What stands at a path when `f v` was put there for a v, if there is one.
abbrev pub over : {V : Type 0} → (V → V) → Option V → Option V → Option V
over f none before = before
over f (some v) before = some (f v)

pub if_same : {A : Type 0} (b : Bool) (a : A) → (if b then a else a) ≡ a
if_same true a = refl
if_same false a = refl

-- A loop that puts what `d` has at each path, where it has something: one round.
module _ {V : Type 0} (d : Text → Option V) (ps : List Text) (p path : Text) (x : Option V) where
  pub over-missing :
      d p ≡ none
      → (if contains ps path then over (λ v. v) (d path) x else x)
        ≡ (if contains (p ∷ ps) path then over (λ v. v) (d path) x else x)
  unfolding contains
  over-missing missing = elim (Bool-cases (p == path)) [
    | inl same ↦
        let gone : d path ≡ none = subst (λ q. d q ≡ none) ((eq_iff p path).0 same) missing in
        rw (same, gone) (if_same (contains ps path) x)
    | inr unlike ↦ rw unlike refl
  ]

  pub over-present :
      (v : V)
      → d p ≡ some v
      → (if contains ps path
          then over (λ w. w) (d path) (if p == path then some v else x)
          else (if p == path then some v else x))
        ≡ (if contains (p ∷ ps) path then over (λ w. w) (d path) x else x)
  unfolding contains
  over-present v present = elim (Bool-cases (p == path)) [
    | inl same ↦
        let found : d path ≡ some v = subst (λ q. d q ≡ some v) ((eq_iff p path).0 same) present in
        rw (same, found) (if_same (contains ps path) (some v))
    | inr unlike ↦ rw unlike refl
  ]

pub over_id : {V : Type 0} (o : Option V) → over (λ v. v) o none ≡ o
over_id none = refl
over_id (some v) = refl
