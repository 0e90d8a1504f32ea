-- ===== src/Policy/Rules.antt =====
-- `Policy` and its tests of publishers and registries (pkg/sharing/verify/policy.go), with `Level`
-- and `extractRegistryHost` (pkg/sharing/verify/verify.go). strings.EqualFold is an argument.
use zhi.Common.{
  Text, bytes, Bool, true, false, ◌||◌, List, [], ◌∷◌, if◌then◌else◌, trim_prefix, nat_eq, Option,
  none, some,
}
use zhi.Component.Paths.{slash}

pub data Level : Type 0 where
  level_none : Level
  level_signed : Level
  level_verified_publisher : Level
  level_strict : Level

pub record Policy : Type 0 where
  pub require_signatures : Bool
  pub trusted_publishers : List Text
  pub allowed_registries : List Text
  pub blocked_plugins : List Text

abbrev pub default_policy : Policy
default_policy = record {
  require_signatures = false;
  trusted_publishers = [];
  allowed_registries = [];
  blocked_plugins = [];
}

unfoldable pub effective_level : Policy → Level
effective_level p = if p.require_signatures then level_strict else level_signed

-- What stands before the first slash.
unfoldable pub before_slash : Text → Option Text
before_slash [] = none
before_slash (c ∷ s) = elim (before_slash s) [
  | none ↦ if nat_eq c slash then some [] else none
  | some host ↦ if nat_eq c slash then some [] else some (c ∷ host)
]

-- A slash at the start is no end of a host: idx > 0.
unfoldable pub extract_registry_host : Text → Text
unfolding before_slash trim_prefix
extract_registry_host ref =
    let trimmed = trim_prefix ref (bytes "oci://") in
    elim (before_slash trimmed) [ none ↦ trimmed | some [] ↦ trimmed | some (c ∷ host) ↦ c ∷ host ]

module _ (equal_fold : Text → Text → Bool) where
  unfoldable pub any_publisher : List Text → Text → Bool
  any_publisher [] identity = false
  any_publisher (tp ∷ tps) identity = equal_fold tp identity || any_publisher tps identity

  unfoldable pub is_trusted_publisher : Policy → Text → Bool
  unfolding any_publisher
  is_trusted_publisher p identity = any_publisher p.trusted_publishers identity

  unfoldable pub any_registry : List Text → Text → Bool
  any_registry [] host = false
  any_registry (allowed ∷ rest) host = equal_fold host allowed || any_registry rest host

  unfoldable pub is_registry_allowed : Policy → Text → Bool
  unfolding any_registry extract_registry_host
  is_registry_allowed p ref = elim p.allowed_registries [
    | [] ↦ true
    | a ∷ rest ↦ any_registry (a ∷ rest) (extract_registry_host ref)
  ]
