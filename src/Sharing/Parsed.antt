-- ===== src/Sharing/Parsed.antt =====
-- A reference that is printed is parsed back.
use zhi.Common.{
  ℕ, Text, true, false, ◌||◌, [], ◌∷◌, ◌++◌, append_assoc, append-nil, none, some, ok, ◌≡◌, ◌≢◌,
  ◌∙◌, refl, ap, sym, subst, inl, inr, ◌⊎◌, arith, nat_eq, ◌==◌, eq_iff, eq_refl, ne→eq_false,
  Bool-cases, trim_prefix,
}
use zhi.Sharing.Cutting.{cut-append, cut-free}
use zhi.Sharing.Reference.{
  ParsedRef, reference, has_char, cut_last, split_digest, split_tag, split_host, parse_rest,
  parse_reference, scheme,
}

cut_last-free : (c : ℕ) (s : Text) → has_char c s ≡ false → cut_last c s ≡ none
unfolding cut_last has_char
cut_last-free c [] h = refl
cut_last-free c (x ∷ s) h = elim (Bool-cases (nat_eq x c)) [
  | inl same ↦ absurd (ground arith)
  | inr unlike ↦
      let rest : has_char c s ≡ false = ground arith in rw (cut_last-free c s rest, unlike) refl
]

cut_last-append :
    (c : ℕ) (a b : Text) → has_char c b ≡ false → cut_last c (a ++ (c ∷ b)) ≡ some (a, b)
unfolding cut_last
cut_last-append c [] b h = rw (cut_last-free c b h) (ground arith)
cut_last-append c (x ∷ a) b h = rw (cut_last-append c a b h) refl

has_char-append : (c : ℕ) (a b : Text) → has_char c (a ++ b) ≡ has_char c a || has_char c b
unfolding has_char
has_char-append c [] b = refl
has_char-append c (x ∷ a) b = ground (arith, has_char-append c a b)

-- A host and a repository, with a tag, a digest or neither, free of the marks that separate them.
pub record IsReference (r : ParsedRef) : Type 0 where
  pub host_given : r.host ≢ []
  pub host_slash : has_char b'/' r.host ≡ false
  pub host_at : has_char b'@' r.host ≡ false
  pub repository_given : r.repository ≢ []
  pub repository_at : has_char b'@' r.repository ≡ false
  pub suffix :
      ((r.digest ≢ []) × (r.tag ≡ []))
      ⊎ ((r.digest ≡ [])
          × (r.tag ≢ [])
          × (has_char b':' r.tag ≡ false)
          × (has_char b'@' r.tag ≡ false))
      ⊎ ((r.digest ≡ []) × (r.tag ≡ []) × (has_char b':' r.repository ≡ false))

module _ (host repository : Text) where
  abbrev path : Text
  path = host ++ (b'/' ∷ repository)

  path_at :
      has_char b'@' host ≡ false → has_char b'@' repository ≡ false → has_char b'@' path ≡ false
  unfolding has_char
  path_at h r = ground (arith, has_char-append b'@' host (b'/' ∷ repository))

  split_host_lem :
      (tag digest : Text)
      → host ≢ []
      → has_char b'/' host ≡ false
      → repository ≢ []
      → split_host path tag digest
        ≡ ok (record { host = host; repository = repository; tag = tag; digest = digest })
  unfolding split_host
  split_host_lem tag digest given slash repo =
      rw
        (
          cut-append b'/' host repository slash,
          ne→eq_false host [] given,
          ne→eq_false repository [] repo,
          split_host,
        )
        refl

  split_tag_lem :
      (tag : Text)
      → has_char b'/' host ≡ false
      → has_char b':' tag ≡ false
      → split_tag (path ++ (b':' ∷ tag)) ≡ ok (path, tag)
  unfolding split_tag
  split_tag_lem tag slash colon =
      rw
        (
          append_assoc host (b'/' ∷ repository) (b':' ∷ tag),
          cut-append b'/' host (repository ++ (b':' ∷ tag)) slash,
          cut_last-append b':' (b'/' ∷ repository) tag colon,
          split_tag,
        )
        refl

  split_tag-untagged :
      has_char b'/' host ≡ false → has_char b':' repository ≡ false → split_tag path ≡ ok (path, [])
  unfolding split_tag has_char
  split_tag-untagged slash colon =
      let whole : has_char b':' (b'/' ∷ repository) ≡ false = ground arith in
      rw
        (
          cut-append b'/' host repository slash,
          cut_last-free b':' (b'/' ∷ repository) whole,
          split_tag,
        )
        refl

  path_given : (rest : Text) → host ≢ [] → ((path ++ rest) == []) ≡ false
  path_given rest given = ne→eq_false _ _ (not_empty host)
    where
      not_empty : (h : Text) → (h ++ (b'/' ∷ repository)) ++ rest ≢ []
      not_empty [] e = absurd (cc)
      not_empty (x ∷ h) e = absurd (cc)

-- The three parts of the parser, one behind the other.
assemble :
    (s raw rest digest : Text)
    → trim_prefix s scheme ≡ raw
    → (raw == []) ≡ false
    → split_digest raw ≡ (rest, digest)
    → parse_reference s ≡ parse_rest rest digest
unfolding parse_reference
assemble s raw rest digest e given split = rw (e, given, split, parse_reference) refl

split_digest-at : (a b : Text) → has_char b'@' a ≡ false → split_digest (a ++ (b'@' ∷ b)) ≡ (a, b)
unfolding split_digest
split_digest-at a b h = rw (cut-append b'@' a b h, split_digest) refl

split_digest-free : (s : Text) → has_char b'@' s ≡ false → split_digest s ≡ (s, [])
unfolding split_digest
split_digest-free s h = rw (cut-free b'@' s h, split_digest) refl

-- A reference with a digest, with a tag, and with neither, is parsed back.
module _ (s : Text) (r : ParsedRef) (h : IsReference r) where
  abbrev whole : Text
  whole = r.host ++ (b'/' ∷ r.repository)

  no_at : has_char b'@' whole ≡ false
  no_at = path_at r.host r.repository h.host_at h.repository_at

  split :
      (tag digest : Text)
      → split_host whole tag digest
        ≡ ok (record { host = r.host; repository = r.repository; tag = tag; digest = digest })
  split tag digest =
      split_host_lem r.host r.repository tag digest h.host_given h.host_slash h.repository_given

  with_digest :
      r.digest ≢ [] → r.tag ≡ [] → trim_prefix s scheme ≡ reference r → parse_reference s ≡ ok r
  unfolding reference parse_rest
  with_digest digested untagged e =
      let given : (r.digest == []) ≡ false = ne→eq_false _ _ digested in
      let printed : reference r ≡ whole ++ (b'@' ∷ r.digest) = rw (given, reference) refl in
      assemble s _ whole r.digest (e ∙ printed) (path_given r.host r.repository _ h.host_given)
        (split_digest-at whole r.digest no_at)
      ∙ rw (given, parse_rest) (split [] r.digest)
      ∙ ap
          (λ t.
            ok (record { host = r.host; repository = r.repository; tag = t; digest = r.digest }))
          (sym untagged)

  with_tag :
      r.digest ≡ []
      → r.tag ≢ []
      → has_char b':' r.tag ≡ false
      → has_char b'@' r.tag ≡ false
      → trim_prefix s scheme ≡ reference r
      → parse_reference s ≡ ok r
  unfolding reference parse_rest has_char
  with_tag undigested tagged colon at e =
      let given : (r.tag == []) ≡ false = ne→eq_false _ _ tagged in
      let none' : (r.digest == []) ≡ true = (eq_iff _ _).1 undigested in
      let printed : reference r ≡ whole ++ (b':' ∷ r.tag) = rw (none', given, reference) refl in
      let free : has_char b'@' (whole ++ (b':' ∷ r.tag)) ≡ false =
        ground (arith, has_char-append b'@' whole (b':' ∷ r.tag), no_at, at) in
      assemble s _ _ [] (e ∙ printed) (path_given r.host r.repository _ h.host_given)
        (split_digest-free _ free)
      ∙ rw (eq_refl [], split_tag_lem r.host r.repository r.tag h.host_slash colon, parse_rest)
          (split r.tag [])
      ∙ ap (λ t. ok (record { host = r.host; repository = r.repository; tag = r.tag; digest = t }))
          (sym undigested)

  with_neither :
      r.digest ≡ []
      → r.tag ≡ []
      → has_char b':' r.repository ≡ false
      → trim_prefix s scheme ≡ reference r
      → parse_reference s ≡ ok r
  unfolding reference parse_rest
  with_neither undigested untagged colon e =
      let none1 : (r.tag == []) ≡ true = (eq_iff _ _).1 untagged in
      let none2 : (r.digest == []) ≡ true = (eq_iff _ _).1 undigested in
      let printed : reference r ≡ whole = rw (none2, none1, reference) refl in
      let given : (whole == []) ≡ false =
        subst (λ x. (x == []) ≡ false) (append-nil whole)
          (path_given r.host r.repository [] h.host_given) in
      assemble s _ _ [] (e ∙ printed) given (split_digest-free _ no_at)
      ∙ rw (eq_refl [], split_tag-untagged r.host r.repository h.host_slash colon, parse_rest)
          (split [] [])
      ∙ ap (λ t. ok (record { host = r.host; repository = r.repository; tag = t; digest = [] }))
          (sym untagged)
      ∙ ap (λ t. ok (record { host = r.host; repository = r.repository; tag = r.tag; digest = t }))
          (sym undigested)

-- Take a reference with a host without a slash or an '@', and a repository without an '@', neither
-- of them empty, and one of these: a digest and no tag; a tag without a colon or an '@', and no
-- digest; no tag, no digest, and no colon in the repository. Its printed form is parsed back to it,
-- if it stands behind the scheme, or without the scheme does not itself start with it.
pub parse_reference-reference :
    (s : Text) (r : ParsedRef)
    → IsReference r
    → trim_prefix s scheme ≡ reference r
    → parse_reference s ≡ ok r
parse_reference-reference s r h e = elim h.suffix [
  | inl (digested, untagged) ↦ with_digest s r h digested untagged e
  | inr (inl (undigested, tagged, colon, at)) ↦ with_tag s r h undigested tagged colon at e
  | inr (inr (undigested, untagged, colon)) ↦ with_neither s r h undigested untagged colon e
]
