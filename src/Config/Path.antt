-- ===== src/Config/Path.antt =====
-- `ValidatePath` of pkg/zhiplugin/config/config.go, with its regular expression `pathSegment`.
use zhi.Common.{
  ℕ, Text, Bool, false, ◌&&◌, ◌||◌, List, [], ◌∷◌, Result, ok, err, leb, nat_eq, if◌then◌else◌,
  ◌==◌, split,
}
use zhi.Component.Paths.{slash}

abbrev pub is_lower : ℕ → Bool
is_lower c = leb b'a' c && leb c b'z'

-- [a-z0-9]
abbrev pub is_alnum : ℕ → Bool
is_alnum c = is_lower c || (leb b'0' c && leb c b'9')

-- [a-z0-9._-]
abbrev pub is_inner : ℕ → Bool
is_inner c = is_alnum c || (nat_eq c b'.' || (nat_eq c b'_' || nat_eq c b'-'))

-- [a-z0-9._-]*[a-z0-9]
unfoldable pub ends_alnum : Text → Bool
ends_alnum [] = false
ends_alnum (c ∷ []) = is_alnum c
ends_alnum (c ∷ d ∷ s) = is_inner c && ends_alnum (d ∷ s)

-- ^[a-z](?:[a-z0-9._-]*[a-z0-9])?$
unfoldable pub is_path_segment : Text → Bool
is_path_segment [] = false
is_path_segment (c ∷ []) = is_lower c
is_path_segment (c ∷ d ∷ s) = is_lower c && ends_alnum (d ∷ s)

pub data PathError : Type 0 where
  empty_path : PathError
  empty_segment : PathError
  invalid_segment : Text → PathError

unfoldable pub check_segments : List Text → Result PathError (Unit {0})
unfolding is_path_segment ends_alnum
check_segments [] = ok tt
check_segments (seg ∷ segs) =
    let rest = check_segments segs in
    if seg == []
    then err empty_segment
    else if is_path_segment seg
    then rest
    else err (invalid_segment seg)

unfoldable pub validate_path : Text → Result PathError (Unit {0})
unfolding check_segments split
validate_path path = if path == [] then err empty_path else check_segments (split slash path)
