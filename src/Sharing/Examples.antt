-- ===== src/Sharing/Examples.antt =====
-- A reference with a tag, at a registry with a port, and a lock file.
use zhi.Common.{
  bytes, true, false, [], ◌∷◌, ok, err, ◌↔◌, All, ◌≡◌, refl, inl, inr, ◌==◌, has_prefix,
  trim_prefix,
}
use zhi.Numeric.Convert.{pos}
use zhi.Sharing.Reference.{ParsedRef, reference, has_char, parse_reference, is_short_name}
use zhi.Sharing.LockFile.{LockFile, digest_required, lock_version, validate_lock}
use zhi.Sharing.Locked.{IsPinned, validate_lock_iff}
use zhi.Sharing.Parsed.{IsReference, parse_reference-reference}

abbrev tagged : ParsedRef
tagged = record {
  host = bytes "localhost:5000";
  repository = bytes "zhi/config";
  tag = bytes "v1.2.0";
  digest = bytes "";
}

tagged-IsReference : IsReference tagged
unfolding has_char
tagged-IsReference = record {
  host_given = λ e. absurd (cc);
  host_slash = refl;
  host_at = refl;
  repository_given = λ e. absurd (cc);
  repository_at = refl;
  suffix = inr (inl (refl, λ e. absurd (cc), refl, refl));
}

short_name_test : is_short_name (bytes "ansible-config@1.2.0") ≡ true
unfolding is_short_name has_prefix
short_name_test = refl

parse_reference-reference_example :
    parse_reference (bytes "oci://localhost:5000/zhi/config:v1.2.0") ≡ ok tagged
unfolding reference trim_prefix ◌==◌
parse_reference-reference_example =
    parse_reference-reference (bytes "oci://localhost:5000/zhi/config:v1.2.0") tagged
      tagged-IsReference refl

abbrev locked : LockFile
locked = record {
  version = pos 1;
  generated_at = bytes "2025-01-01T00:00:00Z";
  zhi_version = bytes "1.0.0";
  plugins =
      record {
        name = bytes "ansible";
        plugin_type = bytes "config";
        ref = bytes "oci://ghcr.io/zhi-project/zhi-config-ansible:v1.2.0";
        digest = bytes "";
        platforms = [];
        signed = false;
        signing_identity = bytes "";
      }
      ∷ [];
}

-- The plugin lacks a digest.
validate_lock_test : validate_lock locked ≡ err (digest_required 0 ∷ [])
unfolding validate_lock ◌==◌
validate_lock_test = refl

validate_lock_iff_example :
    (validate_lock locked ≡ ok tt) ↔ ((locked.version ≡ lock_version) × All IsPinned locked.plugins)
validate_lock_iff_example = validate_lock_iff locked
