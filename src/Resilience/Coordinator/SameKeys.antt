-- ===== src/Resilience/Coordinator/SameKeys.antt =====
-- When two keys of src/runtime/resilience/rate_limit_coordinator.cpp are the same.
use cuac.Common.{
  ℕ, ◌≡◌, ◌↔◌, inl, inr, refl, sym, ap, ◌∙◌, Bool, true, false, Bool-cases, some, List, [], ◌∷◌,
  ◌==◌, same_bytes, arith, absurd,
}
use cuac.Resilience.Coordinator.Keys.{
  CredentialAuthorityRateLimitIdentity, RateLimitPrincipalToken, anonymous, shared,
  opaque_authority, RateLimitDestinationKey, RateLimitOperationKey, QuotaBucketKey,
  quota_bucket_key, bool_eq, same_authority, type_tag, identity_equals, same_identity,
  same_principal, same_quota_key,
}

pub same_bytes_eq : (a b : List ℕ) → same_bytes a b ≡ true → a ≡ b
unfolding same_bytes
same_bytes_eq [] [] e = refl
same_bytes_eq [] (d ∷ b) e = ground arith
same_bytes_eq (c ∷ a) [] e = ground arith
same_bytes_eq (c ∷ a) (d ∷ b) e = ground (arith, same_bytes_eq a b)

pub same_bytes_refl : (a : List ℕ) → same_bytes a a ≡ true
unfolding same_bytes
same_bytes_refl [] = refl
same_bytes_refl (c ∷ a) = ground (arith, same_bytes_refl a)

-- Two principals that share a bucket: the same tag, or the same authority.
abbrev pub SamePrincipal :
    (ℕ → CredentialAuthorityRateLimitIdentity)
    → RateLimitPrincipalToken
    → RateLimitPrincipalToken
    → Type 0
SamePrincipal pointed anonymous anonymous = Unit {0}
SamePrincipal pointed (shared a) (shared b) = a ≡ b
SamePrincipal pointed (opaque_authority a) (opaque_authority b) =
    (pointed a).authority.bytes ≡ (pointed b).authority.bytes
SamePrincipal pointed _ _ = ⊥

bool_eq_lem : (a b : Bool) → (bool_eq a b ≡ true) ↔ (a ≡ b)
bool_eq_lem true true = (λ _. refl, λ _. refl)
bool_eq_lem true false = (λ e. sym e, λ e. sym e)
bool_eq_lem false true = (λ e. e, λ e. e)
bool_eq_lem false false = (λ _. refl, λ _. refl)

module _ (pointed : ℕ → CredentialAuthorityRateLimitIdentity) where
  pub same_identity_lem :
      (a b : ℕ)
      → (same_identity pointed a b ≡ true)
        ↔ ((pointed a).authority.bytes ≡ (pointed b).authority.bytes)
  unfolding same_identity identity_equals same_authority type_tag
  same_identity_lem a b = (
    λ e. elim (Bool-cases (a == b)) [
      | inl h ↦ let here : a ≡ b = ground arith in ap (λ n. (pointed n).authority.bytes) here
      | inr h ↦ same_bytes_eq _ _ (ground arith)
    ],
    λ e. let same = same_bytes_refl (pointed b).authority.bytes in rw e (ground arith),
  )

  same_principal_lem :
      (a b : RateLimitPrincipalToken)
      → (same_principal pointed a b ≡ true) ↔ SamePrincipal pointed a b
  unfolding same_principal
  same_principal_lem anonymous anonymous = (λ _. tt, λ _. refl)
  same_principal_lem (shared a) (shared b) = (same_bytes_eq a b, λ e. rw e (same_bytes_refl b))
  same_principal_lem (opaque_authority a) (opaque_authority b) = same_identity_lem a b
  same_principal_lem anonymous (shared b) = (λ e. ground arith, λ h. elim h [ ])
  same_principal_lem anonymous (opaque_authority b) = (λ e. ground arith, λ h. elim h [ ])
  same_principal_lem (shared a) anonymous = (λ e. ground arith, λ h. elim h [ ])
  same_principal_lem (shared a) (opaque_authority b) = (λ e. ground arith, λ h. elim h [ ])
  same_principal_lem (opaque_authority a) anonymous = (λ e. ground arith, λ h. elim h [ ])
  same_principal_lem (opaque_authority a) (shared b) = (λ e. ground arith, λ h. elim h [ ])

same_destination :
    (d e : RateLimitDestinationKey)
    → d.scheme ≡ e.scheme
    → d.host ≡ e.host
    → d.explicit_port ≡ e.explicit_port
    → d ≡ e
same_destination d e s h p = cc

same_operation :
    (o u : RateLimitOperationKey)
    → o.connector_id ≡ u.connector_id
    → o.package_major ≡ u.package_major
    → o.operation_family ≡ u.operation_family
    → o ≡ u
same_operation o u c m f = cc

-- A key has the parts that it is made of, and no bucket that is not declared.
quota_bucket_key-made :
    (d : RateLimitDestinationKey) (o : RateLimitOperationKey) (p : RateLimitPrincipalToken)
    (h : Bool) (r : List ℕ) {a : QuotaBucketKey}
    → quota_bucket_key d o p h r ≡ some a
    → (a ≡ record {
      destination = d;
      operation = o;
      principal = p;
      has_remote_bucket = h;
      remote_bucket = r;
    })
      × (h ≡ false → r ≡ [])
unfolding quota_bucket_key
quota_bucket_key-made d o p h [] e = (ground arith, λ _. refl)
quota_bucket_key-made d o p true (c ∷ r) e = (ground arith, λ g. ground arith)
quota_bucket_key-made d o p false (c ∷ r) e = absurd (ground arith)

module _ (pointed : ℕ → CredentialAuthorityRateLimitIdentity) where
  -- The fields of two keys that count.
  abbrev SameFields : QuotaBucketKey → QuotaBucketKey → Type 0
  SameFields a b =
      (a.destination ≡ b.destination)
      × (a.operation ≡ b.operation)
      × SamePrincipal pointed a.principal b.principal
      × (a.has_remote_bucket ≡ b.has_remote_bucket)
      × (a.has_remote_bucket ≡ true → a.remote_bucket ≡ b.remote_bucket)

  same_quota_key_sound : (a b : QuotaBucketKey) → same_quota_key pointed a b ≡ true → SameFields a b
  unfolding same_quota_key
  same_quota_key_sound a b e = (
    same_destination _ _ (same_bytes_eq _ _ (ground arith)) (same_bytes_eq _ _ (ground arith))
        (ground arith),
    same_operation _ _ (same_bytes_eq _ _ (ground arith)) (ground arith)
        (same_bytes_eq _ _ (ground arith)),
    (same_principal_lem pointed a.principal b.principal).0 (ground arith),
    (bool_eq_lem a.has_remote_bucket b.has_remote_bucket).0 (ground arith),
    λ h. same_bytes_eq _ _ (ground arith),
  )

  same_quota_key_complete :
      (a b : QuotaBucketKey) → SameFields a b → same_quota_key pointed a b ≡ true
  unfolding same_quota_key
  same_quota_key_complete a b (d, o, p, h, r) =
      let principal = (same_principal_lem pointed a.principal b.principal).1 p in
      let present = (bool_eq_lem a.has_remote_bucket b.has_remote_bucket).1 h in
      let scheme = same_bytes_refl b.destination.scheme in
      let host = same_bytes_refl b.destination.host in
      let connector = same_bytes_refl b.operation.connector_id in
      let family = same_bytes_refl b.operation.operation_family in
      rw (d, o)
        (elim (Bool-cases a.has_remote_bucket) [
          | inl e ↦ let bucket = same_bytes_refl b.remote_bucket in rw (r e) (ground arith)
          | inr e ↦ ground arith
        ])

  module _ (d d' : RateLimitDestinationKey) (o o' : RateLimitOperationKey)
      (p p' : RateLimitPrincipalToken) (h h' : Bool) (r r' : List ℕ) where
    -- Two keys that are made of such parts compare as equal exactly if the destinations, the
    -- operations and the remote buckets are the same, both or neither having one, and the principals
    -- are both anonymous, have the same tag, or point to identities of the same authority.
    pub same_quota_key-quota_bucket_key :
        {a b : QuotaBucketKey}
        → quota_bucket_key d o p h r ≡ some a
        → quota_bucket_key d' o' p' h' r' ≡ some b
        → (same_quota_key pointed a b ≡ true)
          ↔ ((d ≡ d') × (o ≡ o') × SamePrincipal pointed p p' × (h ≡ h') × (r ≡ r'))
    same_quota_key-quota_bucket_key {a} {b} e f =
        let (key, empty) = quota_bucket_key-made d o p h r e in
        let (key', empty') = quota_bucket_key-made d' o' p' h' r' f in
        rw (key, key')
          (
            (λ s.
                let (destination, operation, principal, present, bucket) =
                  same_quota_key_sound _ _ s in
                (
                  destination,
                  operation,
                  principal,
                  present,
                  same_bucket empty empty' present bucket,
                )),
            λ (destination, operation, principal, present, bucket).
                same_quota_key_complete _ _
                  (destination, operation, principal, present, λ _. bucket),
          )
      where
        same_bucket :
            (h ≡ false → r ≡ []) → (h' ≡ false → r' ≡ []) → h ≡ h' → (h ≡ true → r ≡ r') → r ≡ r'
        same_bucket empty empty' present bucket = elim (Bool-cases h) [
          | inl g ↦ bucket g
          | inr g ↦ empty g ∙ sym (empty' (sym present ∙ g))
        ]
