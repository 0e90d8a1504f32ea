-- ===== src/Component/Paths.antt =====
-- `prefixOverlaps` and `pathHasPrefix` of internal/core/component.go.
use zhi.Common.{
  Text, Bool, true, false, ◌||◌, [], ◌∷◌, ◌++◌, ◌≡◌, ◌≢◌, ◌↔◌, ◌⊎◌, inl, inr, refl, arith, nat_eq,
  ℕ, if◌then◌else◌, ◌==◌, eq_iff, has_prefix, has_prefix_split, has_prefix-append, ap, ◌∙◌,
  append_assoc, subst, Bool-cases,
}

abbrev pub slash : ℕ
slash = b'/'

-- strings.TrimSuffix(s, "/")
unfoldable pub trim_slash : Text → Text
trim_slash [] = []
trim_slash (c ∷ []) = if nat_eq c slash then [] else c ∷ []
trim_slash (c ∷ d ∷ s) = c ∷ trim_slash (d ∷ s)

unfoldable pub path_has_prefix : Text → Text → Bool
path_has_prefix path prefix =
    let trimmed = trim_slash prefix in
    if trimmed == [] then false else (path == trimmed || has_prefix path (trimmed ++ slash ∷ []))

unfoldable pub prefix_overlaps : Text → Text → Bool
prefix_overlaps a b = path_has_prefix a b || path_has_prefix b a

-- A trailing slash is all that the trimming can drop.
pub trim_slash_cases : (s : Text) → (trim_slash s ≡ s) ⊎ (s ≡ trim_slash s ++ slash ∷ [])
unfolding trim_slash
trim_slash_cases [] = inl refl
trim_slash_cases (c ∷ []) = ground arith
trim_slash_cases (c ∷ d ∷ s) = ground (arith, trim_slash_cases (d ∷ s))

-- `path` is `p`, or lies beneath it behind a slash.
abbrev pub Beneath : Text → Text → Type 0
Beneath path p = (path ≡ p) ⊎ ((rest : Text) × (path ≡ p ++ slash ∷ rest))

Beneath-nonempty_iff :
    (path p : Text) → ((path == p || has_prefix path (p ++ slash ∷ [])) ≡ true) ↔ Beneath path p
Beneath-nonempty_iff path p = (to, from)
  where
    to : (path == p || has_prefix path (p ++ slash ∷ [])) ≡ true → Beneath path p
    to h = elim (Bool-cases (path == p)) [
      | inl same ↦ inl ((eq_iff path p).0 same)
      | inr other ↦
          let (rest, e) = has_prefix_split path (p ++ slash ∷ []) (ground arith) in
          inr (rest, e ∙ append_assoc p (slash ∷ []) rest)
    ]

    from : Beneath path p → (path == p || has_prefix path (p ++ slash ∷ [])) ≡ true
    from (inl e) = ground (arith, eq_iff path p)
    from (inr (rest, e)) =
        let extends : has_prefix path (p ++ slash ∷ []) ≡ true =
          rw (e, ← append_assoc p (slash ∷ []) rest) (has_prefix-append (p ++ slash ∷ []) rest) in
        ground arith

-- A path matches a prefix exactly when the prefix, less one trailing slash, is not empty, and the
-- path is that prefix or lies beneath it behind a slash.
path_has_prefix_iff :
    (path prefix : Text)
    → (path_has_prefix path prefix ≡ true)
      ↔ ((trim_slash prefix ≢ []) × Beneath path (trim_slash prefix))
unfolding path_has_prefix
path_has_prefix_iff path prefix =
    let h = Beneath-nonempty_iff path (trim_slash prefix) in
    ground (arith, h, eq_iff (trim_slash prefix) [])

Beneath-tail : {x c : ℕ} {path p : Text} → Beneath (x ∷ path) (c ∷ p) → (x ≡ c) × Beneath path p
Beneath-tail (inl e) = (ground arith, inl (ground arith))
Beneath-tail (inr (rest, e)) = (ground arith, inr (rest, ground arith))

Beneath-cons : {c d : ℕ} (p q : Text) → c ≡ d → Beneath p q → Beneath (c ∷ p) (d ∷ q)
Beneath-cons p q same (inl e) = ground arith
Beneath-cons p q same (inr (rest, e)) = inr (rest, ground arith)

-- Two prefixes of one path lie one beneath the other.
Beneath-comparable : (path p q : Text) → Beneath path p → Beneath path q → Beneath p q ⊎ Beneath q p
Beneath-comparable path [] [] hp hq = inl (inl refl)
Beneath-comparable path [] (d ∷ q) hp hq = ground arith
Beneath-comparable path (c ∷ p) [] hp hq = ground arith
Beneath-comparable [] (c ∷ p) (d ∷ q) hp hq = ground arith
Beneath-comparable (x ∷ path) (c ∷ p) (d ∷ q) hp hq =
    let (xc, hp') = Beneath-tail hp in
    let (xd, hq') = Beneath-tail hq in
    elim (Beneath-comparable path p q hp' hq') [
      | inl h ↦ inl (Beneath-cons p q (ground arith) h)
      | inr h ↦ inr (Beneath-cons q p (ground arith) h)
    ]

-- A text beneath a trimmed prefix stays beneath it when a slash is added at its end.
Beneath-untrimmed : (a p : Text) → Beneath (trim_slash a) p → Beneath a p
Beneath-untrimmed a p h = elim (trim_slash_cases a) [
  | inl same ↦ subst (λ t. Beneath t p) same h
  | inr slashed ↦ elim h [
    | inl e ↦ inr ([], slashed ∙ ap (λ t. t ++ slash ∷ []) e)
    | inr (rest, e) ↦ inr (
      rest ++ slash ∷ [],
      slashed ∙ ap (λ t. t ++ slash ∷ []) e ∙ append_assoc p (slash ∷ rest) (slash ∷ []),
    )
  ]
]

-- Two prefixes that match one path overlap.
pub prefix_overlaps_of_common :
    (path a b : Text)
    → path_has_prefix path a ≡ true
    → path_has_prefix path b ≡ true
    → prefix_overlaps a b ≡ true
unfolding prefix_overlaps
prefix_overlaps_of_common path a b ha hb =
    let (na, ba) = (path_has_prefix_iff path a).0 ha in
    let (nb, bb) = (path_has_prefix_iff path b).0 hb in
    elim (Beneath-comparable path (trim_slash a) (trim_slash b) ba bb) [
      | inl h ↦
          let in_b = (path_has_prefix_iff a b).1 (nb, Beneath-untrimmed a (trim_slash b) h) in
          ground arith
      | inr h ↦
          let in_a = (path_has_prefix_iff b a).1 (na, Beneath-untrimmed b (trim_slash a) h) in
          ground arith
    ]
