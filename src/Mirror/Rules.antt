-- ===== src/Mirror/Rules.antt =====
-- The pull policy of cmd/zhi-mirror/server/policy.go. strings.EqualFold is an argument.
use zhi.Common.{
  ℕ, Text, Bool, true, false, ◌||◌, List, [], ◌∷◌, none, some, Result, ok, err, if◌then◌else◌,
  has_prefix, trim_prefix,
}
use zhi.Sharing.Reference.{cut, scheme}

pub record SyncRule : Type 0 where
  pub ref : Text
  pub schedule : Text

pub record RetentionPolicy : Type 0 where
  pub unused_days : ℕ
  pub max_storage : Text

pub record Policy : Type 0 where
  pub allowed_publishers : List Text
  pub blocked_artifacts : List Text
  pub allowed_types : List Text
  pub require_signatures : Bool
  pub sync : List SyncRule
  pub retention : RetentionPolicy

pub data PolicyError : Type 0 where
  blocked : Text → PolicyError
  publisher_not_allowed : Text → PolicyError

abbrev pub default_policy : Policy
default_policy = record {
  allowed_publishers = [];
  blocked_artifacts = [];
  allowed_types = [];
  require_signatures = false;
  sync = [];
  retention = record { unused_days = 0; max_storage = [] };
}

-- strings.Contains(s, sub)
unfoldable pub contains_text : Text → Text → Bool
contains_text [] sub = has_prefix [] sub
contains_text (c ∷ s) sub = has_prefix (c ∷ s) sub || contains_text s sub

-- parts[0] of strings.SplitN(repo, "/", 2)
unfoldable pub extract_publisher : Text → Text
unfolding cut
extract_publisher repo = elim (cut b'/' repo) [ none ↦ repo | some at ↦ at.0 ]

-- The loop of IsArtifactBlocked.
unfoldable pub contains_any : Text → List Text → Bool
unfolding contains_text
contains_any ref [] = false
contains_any ref (b ∷ bs) = contains_text ref b || contains_any ref bs

unfoldable pub is_artifact_blocked : Policy → Text → Bool
unfolding contains_any
is_artifact_blocked p ref = contains_any (trim_prefix ref scheme) p.blocked_artifacts

module _ (equal_fold : Text → Text → Bool) where
  unfoldable pub any_fold : List Text → Text → Bool
  any_fold [] s = false
  any_fold (a ∷ as') s = equal_fold a s || any_fold as' s

  -- An empty list allows all.
  unfoldable pub allows : List Text → Text → Bool
  unfolding any_fold
  allows [] s = true
  allows (a ∷ as') s = any_fold (a ∷ as') s

  unfoldable pub is_publisher_allowed : Policy → Text → Bool
  unfolding allows
  is_publisher_allowed p publisher = allows p.allowed_publishers publisher

  unfoldable pub is_type_allowed : Policy → Text → Bool
  unfolding allows
  is_type_allowed p plugin_type = allows p.allowed_types plugin_type

  unfoldable pub check_repository : Policy → Text → Result PolicyError (Unit {0})
  unfolding is_artifact_blocked is_publisher_allowed extract_publisher
  check_repository p repo =
      if is_artifact_blocked p repo
      then err (blocked repo)
      else if is_publisher_allowed p (extract_publisher repo)
      then ok tt
      else err (publisher_not_allowed (extract_publisher repo))
