-- ===== src/Policy/Blocked.antt =====
-- `IsBlocked` and `matchesSegments` of pkg/sharing/verify/policy.go.
use zhi.Common.{
  ℕ, ◌+◌, Text, bytes, Bool, true, false, ◌||◌, ◌&&◌, List, [], ◌∷◌, ◌++◌, Option, none, some,
  nat_eq, ltb, if◌then◌else◌, ◌==◌, eq_iff, trim_prefix, split, take, ◌≡◌, ◌≢◌, ◌↔◌, refl, arith,
  ap, ◌∙◌, subst, sym, Bool-cases, inl, inr,
}
use zhi.Component.Paths.{slash}

-- strings.LastIndex of one byte; `none` is -1.
unfoldable pub last_index : ℕ → Text → Option ℕ
last_index b [] = none
last_index b (c ∷ s) = elim (last_index b s) [
  | some i ↦ some (i + 1)
  | none ↦ if nat_eq c b then some 0 else none
]

-- i > j, where none is -1.
abbrev pub behind : Option ℕ → Option ℕ → Bool
behind none j = false
behind (some i) none = true
behind (some i) (some j) = ltb j i

-- The reference without its digest, and then without its tag.
unfoldable pub without_digest : Text → Text
unfolding last_index take
without_digest ref = elim (last_index b'@' ref) [ none ↦ ref | some i ↦ take i ref ]

unfoldable pub without_tag : Text → Text
unfolding last_index take
without_tag ref = elim (last_index b':' ref) [
  | none ↦ ref
  | some i ↦ if behind (some i) (last_index slash ref) then take i ref else ref
]

-- The inner loop, from one start on.
unfoldable pub matches_here : List Text → List Text → Bool
matches_here segments [] = true
matches_here [] (p ∷ ps) = false
matches_here (s ∷ ss) (p ∷ ps) = s == p && matches_here ss ps

-- The outer loop, over the starts.
unfoldable pub matches_from : List Text → List Text → Bool
unfolding matches_here
matches_from [] pattern = matches_here [] pattern
matches_from (s ∷ ss) pattern = matches_here (s ∷ ss) pattern || matches_from ss pattern

unfoldable pub matches_segments : List Text → List Text → Bool
unfolding matches_from
matches_segments segments [] = false
matches_segments segments (p ∷ ps) = matches_from segments (p ∷ ps)

unfoldable pub any_blocked : List Text → List Text → Bool
unfolding matches_segments split trim_prefix
any_blocked segments [] = false
any_blocked segments (blocked ∷ rest) =
    matches_segments segments (split slash (trim_prefix blocked (bytes "oci://")))
    || any_blocked segments rest

-- `IsBlocked`, over the field BlockedPlugins.
unfoldable pub is_blocked : List Text → Text → Bool
unfolding any_blocked without_digest without_tag
is_blocked blocked_plugins ref =
    any_blocked (split slash (without_tag (without_digest (trim_prefix ref (bytes "oci://")))))
      blocked_plugins

matches_here→run :
    (segments pattern : List Text)
    → matches_here segments pattern ≡ true
    → (after : List Text) × (segments ≡ pattern ++ after)
unfolding matches_here
matches_here→run segments [] h = (segments, refl)
matches_here→run [] (p ∷ ps) h = absurd (cc)
matches_here→run (s ∷ ss) (p ∷ ps) h =
    let (after, e) = matches_here→run ss ps (ground arith) in
    let same = (eq_iff s p).0 (ground arith) in (after, ap (λ x. x ∷ ss) same ∙ ap (λ l. p ∷ l) e)

matches_here-append : (pattern after : List Text) → matches_here (pattern ++ after) pattern ≡ true
unfolding matches_here
matches_here-append [] after = refl
matches_here-append (p ∷ ps) after = ground (arith, matches_here-append ps after, eq_iff p p)

matches_from→run :
    (segments pattern : List Text)
    → matches_from segments pattern ≡ true
    → (before after : List Text) × (segments ≡ before ++ pattern ++ after)
unfolding matches_from
matches_from→run [] pattern h = let (after, e) = matches_here→run [] pattern h in ([], after, e)
matches_from→run (s ∷ ss) pattern h = elim (Bool-cases (matches_here (s ∷ ss) pattern)) [
  | inl here' ↦ let (after, e) = matches_here→run (s ∷ ss) pattern here' in ([], after, e)
  | inr later ↦
      let (before, after, e) = matches_from→run ss pattern (ground (arith, h, later)) in
      (s ∷ before, after, ap (λ l. s ∷ l) e)
]

start_matches :
    (segments pattern : List Text)
    → matches_here segments pattern ≡ true
    → matches_from segments pattern ≡ true
unfolding matches_from
start_matches [] pattern h = h
start_matches (s ∷ ss) pattern h = ground (arith, h)

matches_from-append :
    (before pattern after : List Text) → matches_from (before ++ pattern ++ after) pattern ≡ true
unfolding matches_from
matches_from-append [] pattern after =
    start_matches (pattern ++ after) pattern (matches_here-append pattern after)
matches_from-append (s ∷ before) pattern after =
    ground (arith, matches_from-append before pattern after)

-- A pattern that is not empty matches exactly if its segments stand in a row, whole, somewhere in
-- the segments of the reference.
pub matches_segments_iff :
    (segments pattern : List Text)
    → pattern ≢ []
    → (matches_segments segments pattern ≡ true)
      ↔ ((before after : List Text) × (segments ≡ before ++ pattern ++ after))
unfolding matches_segments
matches_segments_iff segments [] ne = absurd (ne refl)
matches_segments_iff segments (p ∷ ps) ne = (
  matches_from→run segments (p ∷ ps),
  λ (before, after, e).
      subst (λ l. matches_from l (p ∷ ps) ≡ true) (sym e)
        (matches_from-append before (p ∷ ps) after),
)
