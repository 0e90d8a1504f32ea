-- ===== src/Policy/Registries.antt =====
-- Which registries a policy allows.
use zhi.Common.{
  Text, Bool, true, false, List, [], ◌∷◌, ◌++◌, trim_prefix, nat_eq, ◌≡◌, ◌≢◌, ◌↔◌, ◌⊎◌, In, here,
  there, refl, arith, inl, inr, Bool-cases, Option-cases, subst, sym, ap, ◌∙◌, none, some,
  IsTrimmed, trim_prefix-IsTrimmed, IsTrimmed→trim_prefix,
}
use zhi.Component.Paths.{slash}
use zhi.Sharing.Cutting.{cut-cases}
use zhi.Sharing.Reference.{has_char, scheme}
use zhi.Policy.Rules.{
  Policy, before_slash, extract_registry_host, any_registry, is_registry_allowed,
}

-- What stands before the first slash, if that is not empty; a reference without a slash, or that
-- starts with one, is its own host.
abbrev pub IsHost : Text → Text → Type 0
IsHost host raw =
    ((host ≢ []) × (has_char b'/' host ≡ false) × (rest : Text) × (raw ≡ host ++ (b'/' ∷ rest)))
    ⊎ ((host ≡ raw) × ((has_char b'/' raw ≡ false) ⊎ ((rest : Text) × (raw ≡ b'/' ∷ rest))))

before_slash-free : (s : Text) → has_char b'/' s ≡ false → before_slash s ≡ none
unfolding before_slash has_char
before_slash-free [] h = refl
before_slash-free (c ∷ s) h = elim (Bool-cases (nat_eq c slash)) [
  | inl same ↦ absurd (ground arith)
  | inr unlike ↦
      let rest : has_char b'/' s ≡ false = ground arith in
      rw (before_slash-free s rest, unlike) refl
]

before_slash-at : (rest : Text) → before_slash (b'/' ∷ rest) ≡ some []
unfolding before_slash
before_slash-at rest = elim (Option-cases (before_slash rest)) [
  | inl missing ↦ rw (missing) refl
  | inr (h, found) ↦ rw (found) refl
]

before_slash-append :
    (host rest : Text)
    → has_char b'/' host ≡ false
    → before_slash (host ++ (b'/' ∷ rest)) ≡ some host
unfolding has_char before_slash
before_slash-append [] rest h = before_slash-at rest
before_slash-append (c ∷ host) rest h = elim (Bool-cases (nat_eq c slash)) [
  | inl same ↦ absurd (ground arith)
  | inr unlike ↦
      let free : has_char b'/' host ≡ false = ground arith in
      rw (before_slash-append host rest free, unlike) refl
]

before_slash-cases :
    (s : Text)
    → ((before_slash s ≡ none) × (has_char b'/' s ≡ false))
      ⊎ ((a b : Text) × (before_slash s ≡ some a)
          × (s ≡ a ++ (b'/' ∷ b))
          × (has_char b'/' a ≡ false))
before_slash-cases s = elim (cut-cases b'/' s) [
  | inl (missing, free) ↦ inl (before_slash-free s free, free)
  | inr (a, b, found, e, free) ↦
      inr (a, b, ap before_slash e ∙ before_slash-append a b free, e, free)
]

-- The host in what stands behind the scheme.
host_in : Text → Text
unfolding before_slash
host_in raw = elim (before_slash raw) [ none ↦ raw | some [] ↦ raw | some (c ∷ host) ↦ c ∷ host ]

host_in-IsHost : (raw : Text) → IsHost (host_in raw) raw
unfolding host_in
host_in-IsHost raw = elim (before_slash-cases raw) [
  | inl (missing, free) ↦ rw (missing, host_in) (inr (refl, inl free))
  | inr ([], b, found, e, free) ↦ rw (found, host_in) (inr (refl, inr (b, e)))
  | inr (c ∷ a, b, found, e, free) ↦ rw (found, host_in) (inl (λ x. absurd (cc), free, b, e))
]

host_in-given :
    (host : Text) (raw : Text) → host ≢ [] → before_slash raw ≡ some host → host_in raw ≡ host
unfolding host_in
host_in-given [] raw given found = absurd (given refl)
host_in-given (c ∷ host) raw given found = rw (found, host_in) refl

IsHost→host_in : (host raw : Text) → IsHost host raw → host_in raw ≡ host
unfolding host_in
IsHost→host_in host raw (inl (given, free, rest, e)) =
    host_in-given host raw given (ap before_slash e ∙ before_slash-append host rest free)
IsHost→host_in host raw (inr (same, inl free)) = rw (before_slash-free raw free, host_in) (sym same)
IsHost→host_in host raw (inr (same, inr (rest, e))) =
    let at : before_slash raw ≡ some [] = ap before_slash e ∙ before_slash-at rest in
    rw (at, host_in) (sym same)

-- The host of a reference, with or without the scheme in front.
abbrev pub HostOf : Text → Text → Type 0
HostOf host ref = (raw : Text) × IsTrimmed scheme ref raw × IsHost host raw

extract_registry_host-HostOf : (ref : Text) → HostOf (extract_registry_host ref) ref
unfolding extract_registry_host host_in
extract_registry_host-HostOf ref = (
  trim_prefix ref scheme,
  trim_prefix-IsTrimmed ref scheme,
  host_in-IsHost (trim_prefix ref scheme),
)

HostOf→extract_registry_host :
    (host ref : Text) → HostOf host ref → extract_registry_host ref ≡ host
unfolding extract_registry_host host_in
HostOf→extract_registry_host host ref (raw, trimmed, hosted) =
    ap host_in (IsTrimmed→trim_prefix ref scheme raw trimmed) ∙ IsHost→host_in host raw hosted

module _ (equal_fold : Text → Text → Bool) where
  any_registry→In :
      (allowed : List Text) (host : Text)
      → any_registry equal_fold allowed host ≡ true
      → (a : Text) × In a allowed × (equal_fold host a ≡ true)
  unfolding any_registry
  any_registry→In [] host h = absurd (cc)
  any_registry→In (a ∷ rest) host h = elim (Bool-cases (equal_fold host a)) [
    | inl same ↦ (a, here refl, same)
    | inr other ↦
        let (b, m, e) = any_registry→In rest host (ground (arith, h, other)) in (b, there m, e)
  ]

  In→any_registry :
      (allowed : List Text) (host a : Text)
      → In a allowed
      → equal_fold host a ≡ true
      → any_registry equal_fold allowed host ≡ true
  unfolding any_registry
  In→any_registry [] host a m e = elim m [ ]
  In→any_registry (b ∷ rest) host a (here same) e =
      let first = subst (λ x. equal_fold host x ≡ true) (sym same) e in ground (arith, first)
  In→any_registry (b ∷ rest) host a (there m) e =
      let later = In→any_registry rest host a m e in ground (arith, later)

  allowed_cases :
      (allowed : List Text) (ref : Text) (p : Policy)
      → p.allowed_registries ≡ allowed
      → (is_registry_allowed equal_fold p ref ≡ true) ↔ (
          (allowed ≡ [])
          ⊎ ((a : Text) × In a allowed × (equal_fold (extract_registry_host ref) a ≡ true)))
  unfolding is_registry_allowed
  allowed_cases [] ref p e = rw (e, is_registry_allowed) (λ h. inl refl, λ h. refl)
  allowed_cases (b ∷ rest) ref p e =
      rw (e, is_registry_allowed)
        (
          λ h. inr (any_registry→In (b ∷ rest) (extract_registry_host ref) h),
          λ h. elim h [
            | inl empty ↦ absurd (cc)
            | inr (a, m, same) ↦ In→any_registry (b ∷ rest) (extract_registry_host ref) a m same
          ],
        )

  is_registry_allowed_extract :
      (p : Policy) (ref : Text)
      → (is_registry_allowed equal_fold p ref ≡ true) ↔ (
          (p.allowed_registries ≡ [])
          ⊎ ((a : Text) × In a p.allowed_registries
              × (equal_fold (extract_registry_host ref) a ≡ true)))
  is_registry_allowed_extract p ref = allowed_cases p.allowed_registries ref p refl

  -- A reference is allowed exactly if the policy lists no registries, or one that equals its host up
  -- to case: what stands, behind the scheme if there is one, before the first slash if that is not
  -- empty, and all of it if there is no slash or a slash comes first.
  pub is_registry_allowed_iff :
      (p : Policy) (ref : Text)
      → (is_registry_allowed equal_fold p ref ≡ true) ↔ (
          (p.allowed_registries ≡ [])
          ⊎ ((a host : Text) × In a p.allowed_registries
              × HostOf host ref
              × (equal_fold host a ≡ true)))
  is_registry_allowed_iff p ref = (
    λ h. elim ((is_registry_allowed_extract p ref).0 h) [
      | inl empty ↦ inl empty
      | inr (a, m, same) ↦
          inr (a, extract_registry_host ref, m, extract_registry_host-HostOf ref, same)
    ],
    λ h. (is_registry_allowed_extract p ref).1 (elim h [
      | inl empty ↦ inl empty
      | inr (a, host, m, hosted, same) ↦ inr (
        a,
        m,
        subst (λ x. equal_fold x a ≡ true) (sym (HostOf→extract_registry_host host ref hosted))
            same,
      )
    ]),
  )
