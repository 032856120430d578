-- ===== src/Cache/Keys.antt =====
-- The keys of src/runtime/cache/complete_scan_result_cache.cpp. The comparisons of the semantic, the
-- authority and the revision identity are parameters.
use cuac.Common.{Bool, true, false, ◌&&◌, Option, none, some}

-- `CacheCredentialTag`: no identity for the anonymous tag.
abbrev pub CacheCredentialTag : Type 0 → Type 0 → Type 0
CacheCredentialTag A R = Option (A × R)

pub record CacheKey (S A R : Type 0) : Type 0 where
  pub semantic : S
  pub credential : CacheCredentialTag A R

module _ {S A R : Type 0} (same_semantic : S → S → Bool) (same_authority : A → A → Bool)
    (same_revision : R → R → Bool) where
  unfoldable pub same_tag : CacheCredentialTag A R → CacheCredentialTag A R → Bool
  same_tag none none = true
  same_tag none (some other) = false
  same_tag (some identity) none = false
  same_tag (some (a, r)) (some (b, s)) = same_authority a b && same_revision r s

  unfoldable pub same_cache_key : CacheKey S A R → CacheKey S A R → Bool
  same_cache_key key other =
      same_tag key.credential other.credential && same_semantic key.semantic other.semantic
