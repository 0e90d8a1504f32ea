-- ===== src/Sharing/Cutting.antt =====
-- What `cut` finds.
use zhi.Common.{
  ℕ, Text, false, [], ◌∷◌, ◌++◌, none, some, ◌≡◌, refl, ap, inl, inr, ◌⊎◌, arith, nat_eq,
  Bool-cases,
}
use zhi.Sharing.Reference.{has_char, cut}

pub cut-append : (c : ℕ) (a b : Text) → has_char c a ≡ false → cut c (a ++ (c ∷ b)) ≡ some (a, b)
unfolding cut has_char
cut-append c [] b h = ground arith
cut-append c (x ∷ a) b h = elim (Bool-cases (nat_eq x c)) [
  | inl same ↦ absurd (ground arith)
  | inr unlike ↦
      let rest : has_char c a ≡ false = ground arith in rw (unlike, cut-append c a b rest) refl
]

pub cut-free : (c : ℕ) (s : Text) → has_char c s ≡ false → cut c s ≡ none
unfolding cut has_char
cut-free c [] h = refl
cut-free c (x ∷ s) h = elim (Bool-cases (nat_eq x c)) [
  | inl same ↦ absurd (ground arith)
  | inr unlike ↦
      let rest : has_char c s ≡ false = ground arith in rw (unlike, cut-free c s rest) refl
]

-- Either there is no such character, or the text is cut at the first one.
pub cut-cases :
    (c : ℕ) (s : Text)
    → ((cut c s ≡ none) × (has_char c s ≡ false))
      ⊎ ((a b : Text) × (cut c s ≡ some (a, b)) × (s ≡ a ++ (c ∷ b)) × (has_char c a ≡ false))
unfolding cut has_char
cut-cases c [] = inl (refl, refl)
cut-cases c (x ∷ s) = elim (Bool-cases (nat_eq x c)) [
  | inl same ↦ let e : x ≡ c = ground arith in inr ([], s, rw same refl, ap (λ y. y ∷ s) e, refl)
  | inr unlike ↦ elim (cut-cases c s) [
    | inl (missing, free) ↦ inl (rw (unlike, missing) refl, rw (unlike, free) refl)
    | inr (a, b, found, e, free) ↦
        inr (x ∷ a, b, rw (unlike, found) refl, ap (λ t. x ∷ t) e, rw (unlike, free) refl)
  ]
]
