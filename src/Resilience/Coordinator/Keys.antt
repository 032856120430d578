-- ===== src/Resilience/Coordinator/Keys.antt =====
-- The keys of src/runtime/resilience/rate_limit_coordinator.cpp and their comparison, with the identities
-- of principals of src/runtime/executor/http_scan_executor.cpp. A token points to its identity: a pointer is
-- a number, and what each points to is a parameter.
use cuac.Common.{
  ℕ, Bool, true, false, not, ◌||◌, ◌&&◌, Option, none, some, List, [], ◌==◌, if◌then◌else◌,
  same_bytes,
}

-- `Anonymous`, `Shared` and `Opaque`: the other members are empty.
pub data RateLimitPrincipalToken : Type 0 where
  anonymous : RateLimitPrincipalToken
  shared : List ℕ → RateLimitPrincipalToken
  opaque_authority : ℕ → RateLimitPrincipalToken

pub record RateLimitDestinationKey : Type 0 where
  pub scheme : List ℕ
  pub host : List ℕ
  pub explicit_port : ℕ

pub record RateLimitOperationKey : Type 0 where
  pub connector_id : List ℕ
  pub package_major : ℕ
  pub operation_family : List ℕ

pub record QuotaBucketKey : Type 0 where
  pub destination : RateLimitDestinationKey
  pub operation : RateLimitOperationKey
  pub principal : RateLimitPrincipalToken
  pub has_remote_bucket : Bool
  pub remote_bucket : List ℕ

abbrev pub is_empty : List ℕ → Bool
is_empty [] = true
is_empty _ = false

-- `Shared`; `none` is std::invalid_argument.
unfoldable pub shared_principal : List ℕ → Option RateLimitPrincipalToken
shared_principal admitted_tag = if is_empty admitted_tag then none else some (shared admitted_tag)

-- The constructor of a key; `none` is std::invalid_argument.
unfoldable pub quota_bucket_key :
    RateLimitDestinationKey
    → RateLimitOperationKey
    → RateLimitPrincipalToken
    → Bool
    → List ℕ
    → Option QuotaBucketKey
quota_bucket_key destination operation principal has_remote_bucket remote_bucket =
    if not has_remote_bucket && not (is_empty remote_bucket)
    then none
    else some (record {
      destination = destination;
      operation = operation;
      principal = principal;
      has_remote_bucket = has_remote_bucket;
      remote_bucket = remote_bucket;
    })

abbrev pub bool_eq : Bool → Bool → Bool
bool_eq true b = b
bool_eq false b = not b

-- The 16 bytes of an authority.
pub record CredentialAuthorityIdentity : Type 0 where
  pub bytes : List ℕ

-- `operator==` of two authorities.
unfoldable pub same_authority : CredentialAuthorityIdentity → CredentialAuthorityIdentity → Bool
same_authority left right = same_bytes left.bytes right.bytes

-- The one class that implements `OpaqueRateLimitPrincipalIdentity`.
pub record CredentialAuthorityRateLimitIdentity : Type 0 where
  pub authority : CredentialAuthorityIdentity

-- `Tag`: the address of a static variable, the same for all objects of the class.
abbrev tag : ℕ
tag = 1

unfoldable pub type_tag : CredentialAuthorityRateLimitIdentity → ℕ
type_tag identity = tag

-- `Equals`.
unfoldable pub identity_equals :
    CredentialAuthorityRateLimitIdentity → CredentialAuthorityRateLimitIdentity → Bool
identity_equals identity other =
    type_tag other == tag && same_authority identity.authority other.authority

module _ (pointed : ℕ → CredentialAuthorityRateLimitIdentity) where
  -- Two pointers to identities: to the same object, or to equal ones of one type.
  unfoldable pub same_identity : ℕ → ℕ → Bool
  same_identity left right =
      left == right
      || type_tag (pointed left) == type_tag (pointed right)
        && identity_equals (pointed left) (pointed right)

  -- `operator==` of two principals.
  unfoldable pub same_principal : RateLimitPrincipalToken → RateLimitPrincipalToken → Bool
  same_principal anonymous anonymous = true
  same_principal (shared a) (shared b) = same_bytes a b
  same_principal (opaque_authority a) (opaque_authority b) = same_identity a b
  same_principal _ _ = false

  -- `operator==` of two keys.
  unfoldable pub same_quota_key : QuotaBucketKey → QuotaBucketKey → Bool
  same_quota_key left right =
      same_bytes left.destination.scheme right.destination.scheme
      && same_bytes left.destination.host right.destination.host
      && left.destination.explicit_port == right.destination.explicit_port
      && same_bytes left.operation.connector_id right.operation.connector_id
      && left.operation.package_major == right.operation.package_major
      && same_bytes left.operation.operation_family right.operation.operation_family
      && same_principal left.principal right.principal
      && bool_eq left.has_remote_bucket right.has_remote_bucket
      && (not left.has_remote_bucket || same_bytes left.remote_bucket right.remote_bucket)
