-- ===== src/Resilience/Coordinator/KeyEquality.antt =====
-- The comparison of keys of src/runtime/resilience/rate_limit_coordinator.cpp is what its table of buckets
-- relies on.
use cuac.Common.{ℕ, ◌≡◌, sym, ◌∙◌, true, List, same_bytes, arith}
use cuac.Resilience.Coordinator.Holds.{IsKeyEquality}
use cuac.Resilience.Coordinator.Keys.{
  CredentialAuthorityRateLimitIdentity, RateLimitPrincipalToken, anonymous, shared,
  opaque_authority, QuotaBucketKey, same_principal, same_quota_key,
}
use cuac.Resilience.Coordinator.SameKeys.{same_bytes_eq, same_bytes_refl, same_identity_lem}

same_bytes_sym : (a b : List ℕ) → same_bytes a b ≡ true → same_bytes b a ≡ true
same_bytes_sym a b e = rw (same_bytes_eq a b e) (same_bytes_refl b)

same_bytes_trans :
    (a b c : List ℕ) → same_bytes a b ≡ true → same_bytes b c ≡ true → same_bytes a c ≡ true
same_bytes_trans a b c e f = rw (same_bytes_eq a b e) f

module _ (pointed : ℕ → CredentialAuthorityRateLimitIdentity) where
  same_principal_sym :
      (a b : RateLimitPrincipalToken)
      → same_principal pointed a b ≡ true
      → same_principal pointed b a ≡ true
  unfolding same_principal
  same_principal_sym anonymous anonymous e = e
  same_principal_sym (shared a) (shared b) e = same_bytes_sym a b e
  same_principal_sym (opaque_authority a) (opaque_authority b) e =
      (same_identity_lem pointed b a).1 (sym ((same_identity_lem pointed a b).0 e))
  same_principal_sym anonymous (shared b) e = e
  same_principal_sym anonymous (opaque_authority b) e = e
  same_principal_sym (shared a) anonymous e = e
  same_principal_sym (shared a) (opaque_authority b) e = e
  same_principal_sym (opaque_authority a) anonymous e = e
  same_principal_sym (opaque_authority a) (shared b) e = e

  same_principal_trans :
      (a b c : RateLimitPrincipalToken)
      → same_principal pointed a b ≡ true
      → same_principal pointed b c ≡ true
      → same_principal pointed a c ≡ true
  unfolding same_principal
  same_principal_trans anonymous anonymous c e f = f
  same_principal_trans (shared a) (shared b) (shared c) e f = same_bytes_trans a b c e f
  same_principal_trans (opaque_authority a) (opaque_authority b) (opaque_authority c) e f =
      (same_identity_lem pointed a c).1
        ((same_identity_lem pointed a b).0 e ∙ (same_identity_lem pointed b c).0 f)
  same_principal_trans a b c e f = ground arith

  same_quota_key_sym :
      (a b : QuotaBucketKey) → same_quota_key pointed a b ≡ true → same_quota_key pointed b a ≡ true
  unfolding same_quota_key
  same_quota_key_sym a b e = ground (
    arith,
    same_bytes_sym a.destination.scheme b.destination.scheme,
    same_bytes_sym a.destination.host b.destination.host,
    same_bytes_sym a.operation.connector_id b.operation.connector_id,
    same_bytes_sym a.operation.operation_family b.operation.operation_family,
    same_principal_sym a.principal b.principal,
    same_bytes_sym a.remote_bucket b.remote_bucket,
  )

  same_quota_key_trans :
      (a b c : QuotaBucketKey)
      → same_quota_key pointed a b ≡ true
      → same_quota_key pointed b c ≡ true
      → same_quota_key pointed a c ≡ true
  unfolding same_quota_key
  same_quota_key_trans a b c e f = ground (
    arith,
    same_bytes_trans a.destination.scheme b.destination.scheme c.destination.scheme,
    same_bytes_trans a.destination.host b.destination.host c.destination.host,
    same_bytes_trans a.operation.connector_id b.operation.connector_id c.operation.connector_id,
    same_bytes_trans a.operation.operation_family b.operation.operation_family
        c.operation.operation_family,
    same_principal_trans a.principal b.principal c.principal,
    same_bytes_trans a.remote_bucket b.remote_bucket c.remote_bucket,
  )

  -- The comparison is what the table of buckets relies on.
  pub same_quota_key-IsKeyEquality : IsKeyEquality (same_quota_key pointed)
  same_quota_key-IsKeyEquality = record {
    symmetric = same_quota_key_sym;
    transitive = same_quota_key_trans;
  }
