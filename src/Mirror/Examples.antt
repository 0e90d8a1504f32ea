-- ===== src/Mirror/Examples.antt =====
-- A policy that blocks one artifact and allows one publisher.
use zhi.Common.{
  Text, bytes, [], ◌∷◌, true, ok, ◌≡◌, ◌↔◌, ◌⊎◌, refl, In, trim_prefix, IsTrimmed, ◌==◌, has_prefix,
}
use zhi.Sharing.Reference.{scheme, cut}
use zhi.Mirror.Rules.{Policy, default_policy, check_repository}
use zhi.Mirror.Checked.{PartOf, IsPublisher, check_repository_iff}

abbrev strict : Policy
strict = record default_policy {
  allowed_publishers = bytes "zhi-project" ∷ [];
  blocked_artifacts = bytes "insecure" ∷ [];
}

abbrev repo : Text
repo = bytes "zhi-project/zhi-config-ansible"

allowed_test : check_repository (λ s t. s == t) strict repo ≡ ok tt
unfolding check_repository ◌==◌ has_prefix trim_prefix cut
allowed_test = refl

check_repository_iff_example : (check_repository (λ s t. s == t) strict repo ≡ ok tt) ↔ (
    ((b raw : Text) → In b strict.blocked_artifacts → IsTrimmed scheme repo raw → ¬ PartOf b raw)
    × ((strict.allowed_publishers ≡ [])
        ⊎ ((a publisher : Text) × In a strict.allowed_publishers
            × IsPublisher publisher repo
            × ((a == publisher) ≡ true))))
check_repository_iff_example = check_repository_iff (λ s t. s == t) strict repo
