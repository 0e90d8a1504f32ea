-- ===== src/Policy/Examples.antt =====
-- Runs of the block list, and the theorem at one of them.
use zhi.Common.{In, ◌⊎◌, Text, bytes, true, false, List, [], ◌∷◌, ◌++◌, ◌≡◌, ◌≢◌, ◌↔◌, refl, ◌==◌}
use zhi.Policy.Rules.{Policy, default_policy, is_registry_allowed}
use zhi.Policy.Registries.{HostOf, is_registry_allowed_iff}
use zhi.Policy.Blocked.{is_blocked, matches_segments, matches_segments_iff}

abbrev org_plugin : List Text
org_plugin = bytes "org" ∷ bytes "plugin" ∷ []

blocks : is_blocked (bytes "org/plugin" ∷ []) (bytes "oci://ghcr.io/org/plugin:v1") ≡ true
unfolding is_blocked ◌==◌
blocks = refl

lets_fork : is_blocked (bytes "org/plugin" ∷ []) (bytes "ghcr.io/org/plugin-fork@sha256:1") ≡ false
unfolding is_blocked ◌==◌
lets_fork = refl

named : org_plugin ≢ []
named e = cc

matches_segments_iff_example :
    (matches_segments (bytes "ghcr.io" ∷ org_plugin) org_plugin ≡ true)
    ↔ ((before after : List Text) × (bytes "ghcr.io" ∷ org_plugin ≡ before ++ org_plugin ++ after))
matches_segments_iff_example = matches_segments_iff (bytes "ghcr.io" ∷ org_plugin) org_plugin named

abbrev one_registry : Policy
one_registry = record default_policy { allowed_registries = bytes "ghcr.io" ∷ [] }

host_found : is_registry_allowed ◌==◌ one_registry (bytes "oci://ghcr.io/org/plugin") ≡ true
unfolding is_registry_allowed ◌==◌
host_found = refl

is_registry_allowed_iff_example :
    (is_registry_allowed ◌==◌ one_registry (bytes "ghcr.io/a") ≡ true) ↔ (
      (one_registry.allowed_registries ≡ [])
      ⊎ ((a host : Text) × In a one_registry.allowed_registries
          × HostOf host (bytes "ghcr.io/a")
          × ((host == a) ≡ true)))
is_registry_allowed_iff_example = is_registry_allowed_iff ◌==◌ one_registry (bytes "ghcr.io/a")
