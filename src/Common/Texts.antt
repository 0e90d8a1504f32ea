-- ===== src/Common/Texts.antt =====
-- Go strings: lists of bytes, compared byte by byte.
use Prim.Native.Nat.{ℕ}
use Prim.Native.Char.{code}
use Prim.Native.String.{String}
use mathlib.Core.Path.{◌≡◌, refl, sym, ap, ◌∙◌}
use mathlib.Core.Logic.{◌↔◌, ◌≢◌, ◌⊎◌, inl, inr}
use mathlib.Core.Bool.{Bool, true, false, ◌&&◌}
use mathlib.Core.List.{List, [], ◌∷◌, ◌++◌}
use mathlib.Core.Option.{Option, none, some}
use native.Mathlib.Omega.{arith}
use zhi.Common.Tests.{nat_eq, if◌then◌else◌, Bool-cases, Option-cases}

abbrev pub Text : Type 0
Text = List ℕ

-- The bytes of an ASCII literal.
abbrev pub bytes : String → Text
bytes String.[] = []
bytes (String.◌∷◌ c s) = code c ∷ bytes s

infix 50 ◌==◌
unfoldable pub ◌==◌ : Text → Text → Bool
[] == [] = true
(a ∷ s) == (b ∷ t) = nat_eq a b && s == t
_ == _ = false

pub eq_iff : (s t : Text) → ((s == t) ≡ true) ↔ (s ≡ t)
unfolding ◌==◌
eq_iff [] [] = ground arith
eq_iff [] (b ∷ t) = ground arith
eq_iff (a ∷ s) [] = ground arith
eq_iff (a ∷ s) (b ∷ t) = ground (arith, eq_iff s t)

pub eq_refl : (s : Text) → (s == s) ≡ true
eq_refl s = (eq_iff s s).1 refl

pub ne→eq_false : (s t : Text) → s ≢ t → (s == t) ≡ false
ne→eq_false s t h = ground (arith, eq_iff s t)

-- strings.HasPrefix
unfoldable pub has_prefix : Text → Text → Bool
has_prefix s [] = true
has_prefix [] (p ∷ ps) = false
has_prefix (c ∷ s) (p ∷ ps) = nat_eq c p && has_prefix s ps

-- What follows a prefix; `none` where it is no prefix.
unfoldable pub strip_prefix? : Text → Text → Option Text
strip_prefix? s [] = some s
strip_prefix? [] (p ∷ ps) = none
strip_prefix? (c ∷ s) (p ∷ ps) = if nat_eq c p then strip_prefix? s ps else none

-- strings.TrimPrefix
unfoldable pub trim_prefix : Text → Text → Text
unfolding strip_prefix?
trim_prefix s p = elim (strip_prefix? s p) [ none ↦ s | some rest ↦ rest ]

pub has_prefix_split : (s p : Text) → has_prefix s p ≡ true → (rest : Text) × (s ≡ p ++ rest)
unfolding has_prefix
has_prefix_split s [] h = (s, refl)
has_prefix_split [] (p ∷ ps) h = cc
has_prefix_split (c ∷ s) (p ∷ ps) h =
    let (rest, e) = has_prefix_split s ps (ground arith) in (rest, ground arith)

pub has_prefix-append : (p rest : Text) → has_prefix (p ++ rest) p ≡ true
unfolding has_prefix
has_prefix-append [] rest = refl
has_prefix-append (p ∷ ps) rest = ground (arith, has_prefix-append ps rest)

pub strip_prefix?-append : (p rest : Text) → strip_prefix? (p ++ rest) p ≡ some rest
unfolding strip_prefix?
strip_prefix?-append [] rest = refl
strip_prefix?-append (c ∷ p) rest =
    let same : nat_eq c c ≡ true = ground arith in rw same (strip_prefix?-append p rest)

pub trim_prefix-append : (p rest : Text) → trim_prefix (p ++ rest) p ≡ rest
unfolding trim_prefix
trim_prefix-append p rest = rw (strip_prefix?-append p rest, trim_prefix)

-- The text without the prefix, if it starts with it, and the text itself otherwise.
abbrev pub IsTrimmed : Text → Text → Text → Type 0
IsTrimmed p s rest = (s ≡ p ++ rest) ⊎ ((rest ≡ s) × ((r : Text) → s ≢ p ++ r))

strip_prefix?-some : (s p rest : Text) → strip_prefix? s p ≡ some rest → s ≡ p ++ rest
unfolding strip_prefix?
strip_prefix?-some s [] rest h = ground (arith, h)
strip_prefix?-some [] (p ∷ ps) rest h = absurd (cc)
strip_prefix?-some (c ∷ s) (p ∷ ps) rest h = elim (Bool-cases (nat_eq c p)) [
  | inl same ↦
      let later : strip_prefix? s ps ≡ some rest = ground arith in
      let tail = strip_prefix?-some s ps rest later in ground (arith, tail)
  | inr unlike ↦ let bad : strip_prefix? (c ∷ s) (p ∷ ps) ≡ none = rw unlike refl in absurd (cc)
]

pub trim_prefix-IsTrimmed : (s p : Text) → IsTrimmed p s (trim_prefix s p)
unfolding trim_prefix
trim_prefix-IsTrimmed s p = elim (Option-cases (strip_prefix? s p)) [
  | inl missing ↦
      let whole : trim_prefix s p ≡ s = rw (missing, trim_prefix) refl in
      inr (
        whole,
        λ r e.
            let found : strip_prefix? s p ≡ some r =
              ap (λ t. strip_prefix? t p) e ∙ strip_prefix?-append p r in
            absurd (cc),
      )
  | inr (rest, found) ↦
      let trimmed : trim_prefix s p ≡ rest = rw (found, trim_prefix) refl in
      inl (strip_prefix?-some s p rest found ∙ ap (λ t. p ++ t) (sym trimmed))
]

pub IsTrimmed→trim_prefix : (s p rest : Text) → IsTrimmed p s rest → trim_prefix s p ≡ rest
IsTrimmed→trim_prefix s p rest (inl e) = ap (λ t. trim_prefix t p) e ∙ trim_prefix-append p rest
IsTrimmed→trim_prefix s p rest (inr (same, other)) = elim (trim_prefix-IsTrimmed s p) [
  | inl e ↦ absurd (other (trim_prefix s p) e)
  | inr (whole, o) ↦ whole ∙ sym same
]
