-- ===== src/Config/Pattern.antt =====
-- The language of `pathSegment` and of whole paths, against the tests of Path.antt.
use zhi.Common.{
  ℕ, Text, Bool, true, false, List, [], ◌∷◌, ◌++◌, ok, ◌≡◌, ◌↔◌, ◌⊎◌, inl, inr, refl, arith, All,
  ap, ◌∙◌, sym, All-map, split, join, join-split, split-join, split-append, has_byte, ◌==◌, eq_iff,
  split-nonempty,
}
use zhi.Component.Paths.{slash}
use zhi.Config.Path.{
  is_lower, is_alnum, is_inner, ends_alnum, is_path_segment, check_segments, validate_path,
}

-- Regular expressions over bytes: a class of bytes, a sequence, `r?` and `r*`.
pub data Regex : Type 0 where
  class : (ℕ → Bool) → Regex
  seq : Regex → Regex → Regex
  optional : Regex → Regex
  star : Regex → Regex

unfoldable pub concat : List Text → Text
concat [] = []
concat (part ∷ parts) = part ++ concat parts

-- The whole text matches: between `^` and `$`.
unfoldable pub Matches : Regex → Text → Type 0
Matches (class p) s = (c : ℕ) × (s ≡ c ∷ []) × (p c ≡ true)
Matches (seq a b) s = (u v : Text) × (s ≡ u ++ v) × Matches a u × Matches b v
Matches (optional r) s = (s ≡ []) ⊎ Matches r s
Matches (star r) s = (parts : List Text) × (s ≡ concat parts) × All (Matches r) parts

-- ^[a-z](?:[a-z0-9._-]*[a-z0-9])?$
abbrev pub path_segment : Regex
path_segment = seq (class is_lower) (optional (seq (star (class is_inner)) (class is_alnum)))

alnum-inner : (c : ℕ) → is_alnum c ≡ true → is_inner c ≡ true
alnum-inner c h = ground arith

ends_alnum→Matches :
    (s : Text) → ends_alnum s ≡ true → Matches (seq (star (class is_inner)) (class is_alnum)) s
unfolding ends_alnum Matches concat
ends_alnum→Matches [] h = ground arith
ends_alnum→Matches (c ∷ []) h = ([], c ∷ [], refl, ([], refl, tt), (c, refl, h))
ends_alnum→Matches (c ∷ d ∷ s) h =
    let inner : is_inner c ≡ true = ground arith in
    let (u, v, e, (parts, joined, all), last) = ends_alnum→Matches (d ∷ s) (ground arith) in
    (
      c ∷ u,
      v,
      ap (λ r. c ∷ r) e,
      ((c ∷ []) ∷ parts, ap (λ r. c ∷ r) joined, ((c, refl, inner), all)),
      last,
    )

alnum_alone : (c : ℕ) → is_alnum c ≡ true → ends_alnum (c ∷ []) ≡ true
unfolding ends_alnum
alnum_alone c h = h

ends_alnum-cons :
    (c : ℕ) (s : Text) → is_inner c ≡ true → ends_alnum s ≡ true → ends_alnum (c ∷ s) ≡ true
unfolding ends_alnum
ends_alnum-cons c [] i h = ground arith
ends_alnum-cons c (d ∷ s) i h = ground (arith, i, h)

inner_then_alnum :
    (parts : List Text) (c : ℕ)
    → All (Matches (class is_inner)) parts
    → is_alnum c ≡ true
    → ends_alnum (concat parts ++ c ∷ []) ≡ true
unfolding Matches concat
inner_then_alnum [] c all h = alnum_alone c h
inner_then_alnum (part ∷ parts) c ((d, e, i), all) h =
    rw e (ends_alnum-cons d (concat parts ++ c ∷ []) i (inner_then_alnum parts c all h))

Matches→ends_alnum :
    (s : Text) → Matches (seq (star (class is_inner)) (class is_alnum)) s → ends_alnum s ≡ true
unfolding Matches
Matches→ends_alnum s (u, v, e, (parts, joined, all), (c, single, h)) =
    rw (e, joined, single) (inner_then_alnum parts c all h)

is_path_segment→Matches : (s : Text) → is_path_segment s ≡ true → Matches path_segment s
unfolding is_path_segment Matches
is_path_segment→Matches [] h = ground arith
is_path_segment→Matches (c ∷ []) h = (c ∷ [], [], refl, (c, refl, h), inl refl)
is_path_segment→Matches (c ∷ d ∷ s) h =
    (c ∷ [], d ∷ s, refl, (c, refl, ground arith), inr (ends_alnum→Matches (d ∷ s) (ground arith)))

is_path_segment-cons :
    (c : ℕ) (s : Text)
    → is_lower c ≡ true
    → (s ≡ []) ⊎ (ends_alnum s ≡ true)
    → is_path_segment (c ∷ s) ≡ true
unfolding is_path_segment ends_alnum
is_path_segment-cons c [] i h = i
is_path_segment-cons c (d ∷ s) i h = ground (arith, i, h)

Matches→is_path_segment : (s : Text) → Matches path_segment s → is_path_segment s ≡ true
unfolding Matches
Matches→is_path_segment s (u, v, e, (c, single, i), tail) =
    rw (e, single)
      (is_path_segment-cons c v i
        (elim tail [ inl nothing ↦ inl nothing | inr more ↦ inr (Matches→ends_alnum v more) ]))

-- The test for a segment accepts exactly the texts that match the regular expression.
pub is_path_segment_iff : (s : Text) → (is_path_segment s ≡ true) ↔ Matches path_segment s
is_path_segment_iff s = (is_path_segment→Matches s, Matches→is_path_segment s)

-- Segments that pass.
check_segments_iff :
    (segs : List Text)
    → (check_segments segs ≡ ok tt) ↔ All (λ seg. is_path_segment seg ≡ true) segs
unfolding check_segments
check_segments_iff [] = ground arith
check_segments_iff (seg ∷ segs) =
    let no_empty : is_path_segment [] ≡ false = unfold is_path_segment in refl in
    ground (arith, check_segments_iff segs, eq_iff seg [])

inner_no_slash : (s : Text) → ends_alnum s ≡ true → has_byte slash s ≡ false
unfolding ends_alnum has_byte
inner_no_slash [] h = refl
inner_no_slash (c ∷ []) h = ground arith
inner_no_slash (c ∷ d ∷ s) h = let rest = inner_no_slash (d ∷ s) (ground arith) in ground arith

no_slash : (s : Text) → is_path_segment s ≡ true → has_byte slash s ≡ false
unfolding is_path_segment has_byte
no_slash [] h = refl
no_slash (c ∷ []) h = ground arith
no_slash (c ∷ d ∷ s) h = let rest = inner_no_slash (d ∷ s) (ground arith) in ground arith

validate_path-check :
    (path : Text) → (validate_path path ≡ ok tt) ↔ (check_segments (split slash path) ≡ ok tt)
unfolding validate_path check_segments split ◌==◌
validate_path-check [] = ground arith
validate_path-check (c ∷ path) = (λ h. h, λ h. h)

check_segments-append :
    (xs ys : List Text)
    → (check_segments (xs ++ ys) ≡ ok tt)
      ↔ ((check_segments xs ≡ ok tt) × (check_segments ys ≡ ok tt))
unfolding check_segments
check_segments-append [] ys = ground arith
check_segments-append (x ∷ xs) ys = ground (arith, check_segments-append xs ys)

-- Two texts joined by a slash are a valid path exactly when both are.
validate_path-append :
    (a b : Text)
    → (validate_path (a ++ slash ∷ b) ≡ ok tt)
      ↔ ((validate_path a ≡ ok tt) × (validate_path b ≡ ok tt))
validate_path-append a b =
    let both = check_segments-append (split slash a) (split slash b) in
    let whole = validate_path-check (a ++ slash ∷ b) in
    let left = validate_path-check a in
    let right = validate_path-check b in let parts = split-append slash a b in ground arith

abbrev pub Segments : Text → Type 0
Segments path =
    (seg : Text) × (segs : List Text) × (path ≡ join slash (seg ∷ segs))
    × All (Matches path_segment) (seg ∷ segs)

listed_parts :
    (path : Text) (segs : List Text)
    → split slash path ≡ segs
    → All (λ seg. is_path_segment seg ≡ true) segs
    → Segments path
listed_parts path [] e all = absurd (split-nonempty slash path e)
listed_parts path (seg ∷ segs) e all = (
  seg,
  segs,
  sym (join-split slash path) ∙ ap (join slash) e,
  All-map (seg ∷ segs) is_path_segment→Matches all,
)

valid→Segments : (path : Text) → validate_path path ≡ ok tt → Segments path
valid→Segments path h =
    listed_parts path (split slash path) refl
      ((check_segments_iff (split slash path)).0 ((validate_path-check path).0 h))

Segments→valid : (path : Text) → Segments path → validate_path path ≡ ok tt
Segments→valid path (seg, segs, e, all) =
    let tests = All-map (seg ∷ segs) Matches→is_path_segment all in
    let parts = split-join slash seg segs (All-map (seg ∷ segs) no_slash tests) in
    (validate_path-check path).1 (rw (e, parts) ((check_segments_iff (seg ∷ segs)).1 tests))

-- A path is valid exactly when it consists of one or more texts, joined by slashes, that all match
-- the regular expression `^[a-z](?:[a-z0-9._-]*[a-z0-9])?$`.
pub validate_path_iff : (path : Text) → (validate_path path ≡ ok tt) ↔ Segments path
validate_path_iff path = (valid→Segments path, Segments→valid path)
