-- ===== src/Sharing/Reference.antt =====
-- References to artifacts of a registry: pkg/sharing/client/ref.go.
use zhi.Common.{
  ℕ, Text, bytes, Bool, false, not, ◌||◌, [], ◌∷◌, ◌++◌, Option, none, some, Result, ok, err, ◌>>=◌,
  nat_eq, if◌then◌else◌, ◌==◌, has_prefix, trim_prefix,
}

pub record ParsedRef : Type 0 where
  pub host : Text
  pub repository : Text
  pub tag : Text
  pub digest : Text

-- Errors, without the reference that they quote.
pub data RefError : Type 0 where
  empty_reference : RefError
  missing_repository : RefError
  empty_host : RefError
  empty_repository : RefError

abbrev pub scheme : Text
scheme = bytes "oci://"

unfoldable pub reference : ParsedRef → Text
reference r =
    let ref = r.host ++ (b'/' ∷ r.repository) in
    if not (r.digest == [])
    then ref ++ (b'@' ∷ r.digest)
    else if not (r.tag == [])
    then ref ++ (b':' ∷ r.tag)
    else ref

-- strings.Contains(s, string(c))
unfoldable pub has_char : ℕ → Text → Bool
has_char c [] = false
has_char c (x ∷ s) = nat_eq x c || has_char c s

unfoldable pub is_short_name : Text → Bool
unfolding has_char
is_short_name ref = if has_prefix ref scheme then false else not (has_char b'/' ref)

-- strings.Cut(s, string(c)): what stands before and behind the first c.
unfoldable pub cut : ℕ → Text → Option (Text × Text)
cut c [] = none
cut c (x ∷ s) =
    let rest = cut c s in
    if nat_eq x c then some ([], s) else elim rest [ none ↦ none | some ab ↦ some (x ∷ ab.0, ab.1) ]

-- s[:i] and s[i+1:] for i = strings.LastIndex(s, string(c))
unfoldable pub cut_last : ℕ → Text → Option (Text × Text)
cut_last c [] = none
cut_last c (x ∷ s) = elim (cut_last c s) [
  | some ab ↦ some (x ∷ ab.0, ab.1)
  | none ↦ if nat_eq x c then some ([], s) else none
]

-- The reference up to the digest, and the digest.
unfoldable pub split_digest : Text → Text × Text
unfolding cut
split_digest raw = elim (cut b'@' raw) [ none ↦ (raw, []) | some ab ↦ ab ]

-- The reference up to the tag, and the tag: the last colon behind the first slash.
unfoldable pub split_tag : Text → Result RefError (Text × Text)
unfolding cut cut_last
split_tag raw = elim (cut b'/' raw) [
  | none ↦ err missing_repository
  | some at ↦ elim (cut_last b':' (b'/' ∷ at.1)) [
    | none ↦ ok (raw, [])
    | some ab ↦ ok (at.0 ++ ab.0, ab.1)
  ]
]

unfoldable pub split_host : Text → Text → Text → Result RefError ParsedRef
unfolding cut
split_host raw tag digest = elim (cut b'/' raw) [
  | none ↦ err missing_repository
  | some at ↦
      if at.0 == []
      then err empty_host
      else if at.1 == []
      then err empty_repository
      else ok (record { host = at.0; repository = at.1; tag = tag; digest = digest })
]

-- Behind the split at the digest.
unfoldable pub parse_rest : Text → Text → Result RefError ParsedRef
unfolding split_tag split_host
parse_rest raw digest =
    if digest == []
    then (split_tag raw >>= λ rt. split_host rt.0 rt.1 digest)
    else split_host raw [] digest

unfoldable pub parse_reference : Text → Result RefError ParsedRef
unfolding split_digest parse_rest
parse_reference ref =
    let raw = trim_prefix ref scheme in
    let (rest, digest) = split_digest raw in
    if raw == [] then err empty_reference else parse_rest rest digest
