-- ===== src/Mirror/Checked.antt =====
-- What the mirror's policy lets through.
use zhi.Common.{
  Text, Bool, true, List, [], ◌∷◌, ◌++◌, ok, err, ◌≡◌, refl, sym, subst, ap, ◌↔◌, ◌⊎◌, inl, inr,
  arith, In, here, there, Bool-cases, has_prefix, has_prefix_split, has_prefix-append, trim_prefix,
  IsTrimmed, trim_prefix-IsTrimmed, IsTrimmed→trim_prefix, ◌∙◌, false,
}
use zhi.Sharing.Reference.{scheme, has_char}
use zhi.Sharing.Cutting.{cut-append, cut-free, cut-cases}
use zhi.Mirror.Rules.{
  Policy, blocked, publisher_not_allowed, contains_text, extract_publisher, contains_any,
  is_artifact_blocked, any_fold, allows, is_publisher_allowed, check_repository,
}

-- The part stands somewhere in the text.
abbrev pub PartOf : Text → Text → Type 0
PartOf part s = (before after : Text) × (s ≡ before ++ (part ++ after))

-- A text that starts with the part contains it.
contains_text-has_prefix : (s part : Text) → has_prefix s part ≡ true → contains_text s part ≡ true
unfolding contains_text
contains_text-has_prefix [] part h = h
contains_text-has_prefix (c ∷ s) part h = rw h refl

placed : (part before after : Text) → contains_text (before ++ (part ++ after)) part ≡ true
unfolding contains_text
placed part [] after = contains_text-has_prefix (part ++ after) part (has_prefix-append part after)
placed part (c ∷ before) after = ground (arith, placed part before after)

contains_text-PartOf : (s part : Text) → contains_text s part ≡ true → PartOf part s
unfolding contains_text
contains_text-PartOf [] part h = let (rest, e) = has_prefix_split [] part h in ([], rest, e)
contains_text-PartOf (c ∷ s) part h = elim (Bool-cases (has_prefix (c ∷ s) part)) [
  | inl starts ↦ let (rest, e) = has_prefix_split (c ∷ s) part starts in ([], rest, e)
  | inr later ↦
      let tail : contains_text s part ≡ true = ground arith in
      let (before, after, e) = contains_text-PartOf s part tail in
      (c ∷ before, after, ap (λ t. c ∷ t) e)
]

-- The loop over the blocked artifacts.
contains_any_iff :
    (ref : Text) (bs : List Text)
    → (contains_any ref bs ≡ true) ↔ ((b : Text) × In b bs × PartOf b ref)
unfolding contains_any
contains_any_iff ref bs =
    (found bs, λ (b, member, (before, after, e)). hit bs b member before after e)
  where
    found : (bs : List Text) → contains_any ref bs ≡ true → (b : Text) × In b bs × PartOf b ref
    found [] h = absurd (cc)
    found (b ∷ bs) h = elim (Bool-cases (contains_text ref b)) [
      | inl inside ↦ (b, here refl, contains_text-PartOf ref b inside)
      | inr outside ↦
          let later : contains_any ref bs ≡ true = ground arith in
          let (x, member, part) = found bs later in (x, there member, part)
    ]

    hit :
        (bs : List Text) (b : Text)
        → In b bs
        → (before after : Text) → ref ≡ before ++ (b ++ after)
        → contains_any ref bs ≡ true
    hit [] b m before after e = elim m [ ]
    hit (x ∷ bs) b (here same) before after e =
        let inside : contains_text ref x ≡ true =
          subst (λ y. contains_text ref y ≡ true) (sym same)
            (subst (λ t. contains_text t b ≡ true) (sym e) (placed b before after)) in
        rw inside refl
    hit (x ∷ bs) b (there m) before after e = ground (arith, hit bs b m before after e)

-- The path up to the first slash, or all of it if it has none.
abbrev pub IsPublisher : Text → Text → Type 0
IsPublisher name repo =
    ((rest : Text) × (repo ≡ name ++ (b'/' ∷ rest)) × (has_char b'/' name ≡ false))
    ⊎ ((repo ≡ name) × (has_char b'/' repo ≡ false))

extract_publisher-IsPublisher : (repo : Text) → IsPublisher (extract_publisher repo) repo
unfolding extract_publisher
extract_publisher-IsPublisher repo = elim (cut-cases b'/' repo) [
  | inl (missing, free) ↦ rw (missing, extract_publisher) (inr (refl, free))
  | inr (a, b, found, e, free) ↦ rw (found, extract_publisher) (inl (b, e, free))
]

IsPublisher→extract_publisher :
    (name repo : Text) → IsPublisher name repo → extract_publisher repo ≡ name
unfolding extract_publisher
IsPublisher→extract_publisher name repo (inl (rest, e, free)) =
    ap extract_publisher e ∙ rw (cut-append b'/' name rest free, extract_publisher) refl
IsPublisher→extract_publisher name repo (inr (e, free)) =
    rw (cut-free b'/' repo free, extract_publisher) e

module _ (equal_fold : Text → Text → Bool) where
  any_fold_iff :
      (as' : List Text) (s : Text)
      → (any_fold equal_fold as' s ≡ true) ↔ ((a : Text) × In a as' × (equal_fold a s ≡ true))
  unfolding any_fold
  any_fold_iff as' s = (found as', λ (a, member, e). hit as' a member e)
    where
      found :
          (as' : List Text)
          → any_fold equal_fold as' s ≡ true
          → (a : Text) × In a as' × (equal_fold a s ≡ true)
      found [] h = absurd (cc)
      found (a ∷ as') h = elim (Bool-cases (equal_fold a s)) [
        | inl equal ↦ (a, here refl, equal)
        | inr unequal ↦
            let later : any_fold equal_fold as' s ≡ true = ground arith in
            let (x, member, e) = found as' later in (x, there member, e)
      ]

      hit :
          (as' : List Text) (a : Text)
          → In a as'
          → equal_fold a s ≡ true
          → any_fold equal_fold as' s ≡ true
      hit [] a m e = elim m [ ]
      hit (x ∷ as') a (here same) e = rw (subst (λ y. equal_fold y s ≡ true) (sym same) e) refl
      hit (x ∷ as') a (there m) e = ground (arith, hit as' a m e)

  allows_iff :
      (as' : List Text) (s : Text)
      → (allows equal_fold as' s ≡ true)
        ↔ ((as' ≡ []) ⊎ ((a : Text) × In a as' × (equal_fold a s ≡ true)))
  unfolding allows
  allows_iff [] s = (λ h. inl refl, λ h. refl)
  allows_iff (a ∷ as') s = (
    λ h. inr ((any_fold_iff (a ∷ as') s).0 h),
    λ h. elim h [ inl e ↦ absurd (cc) | inr found ↦ (any_fold_iff (a ∷ as') s).1 found ],
  )

  check_repository_extract :
      (p : Policy) (repo : Text)
      → (check_repository equal_fold p repo ≡ ok tt) ↔ (
          ((b : Text) → In b p.blocked_artifacts → ¬ PartOf b (trim_prefix repo scheme))
          × ((p.allowed_publishers ≡ [])
              ⊎ ((a : Text) × In a p.allowed_publishers
                  × (equal_fold a (extract_publisher repo) ≡ true))))
  unfolding check_repository is_artifact_blocked is_publisher_allowed
  check_repository_extract p repo = elim (Bool-cases (is_artifact_blocked p repo)) [
    | inl stopped ↦
        let (b, member, part) =
          (contains_any_iff (trim_prefix repo scheme) p.blocked_artifacts).0 stopped in
        (
          λ h.
              let bad : check_repository equal_fold p repo ≡ err (blocked repo) =
                rw (stopped, check_repository) refl in
              absurd (cc),
          λ (clean, publisher). absurd (clean b member part),
        )
    | inr free ↦ elim (Bool-cases (is_publisher_allowed equal_fold p (extract_publisher repo))) [
      | inl allowed ↦ (
        λ h. (
          λ b member part.
              let stopped : is_artifact_blocked p repo ≡ true =
                (contains_any_iff (trim_prefix repo scheme) p.blocked_artifacts).1
                  (b, member, part) in
              absurd (cc),
          (allows_iff p.allowed_publishers (extract_publisher repo)).0 allowed,
        ),
        λ h. rw (free, allowed, check_repository) refl,
      )
      | inr refused ↦ (
        λ h.
            let bad : check_repository equal_fold p repo
                ≡ err (publisher_not_allowed (extract_publisher repo)) =
              rw (free, refused, check_repository) refl in
            absurd (cc),
        λ (clean, publisher).
            let allowed : is_publisher_allowed equal_fold p (extract_publisher repo) ≡ true =
              (allows_iff p.allowed_publishers (extract_publisher repo)).1 publisher in
            absurd (cc),
      )
    ]
  ]

  -- The mirror lets a repository through exactly if no blocked artifact is a part of its path behind
  -- the scheme, and its publisher is allowed: no publishers are listed, or one that equals up to
  -- case the repository up to its first slash, all of it if it has none.
  pub check_repository_iff :
      (p : Policy) (repo : Text)
      → (check_repository equal_fold p repo ≡ ok tt) ↔ (
          ((b raw : Text) → In b p.blocked_artifacts → IsTrimmed scheme repo raw → ¬ PartOf b raw)
          × ((p.allowed_publishers ≡ [])
              ⊎ ((a publisher : Text) × In a p.allowed_publishers
                  × IsPublisher publisher repo
                  × (equal_fold a publisher ≡ true))))
  check_repository_iff p repo = (
    λ h.
        let (clean, allowed) = (check_repository_extract p repo).0 h in
        (
          λ b raw member trimmed part.
              clean b member
                (subst (PartOf b) (sym (IsTrimmed→trim_prefix repo scheme raw trimmed)) part),
          elim allowed [
            | inl empty ↦ inl empty
            | inr (a, member, equal) ↦
                inr (a, extract_publisher repo, member, extract_publisher-IsPublisher repo, equal)
          ],
        ),
    λ (clean, allowed). (check_repository_extract p repo).1 (
      λ b member part.
          clean b (trim_prefix repo scheme) member (trim_prefix-IsTrimmed repo scheme) part,
      elim allowed [
        | inl empty ↦ inl empty
        | inr (a, publisher, member, named, equal) ↦ inr (
          a,
          member,
          subst (λ x. equal_fold a x ≡ true)
              (sym (IsPublisher→extract_publisher publisher repo named)) equal,
        )
      ],
    ),
  )
