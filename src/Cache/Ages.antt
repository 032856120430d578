-- ===== src/Cache/Ages.antt =====
-- How a lookup of src/runtime/cache/complete_scan_result_cache.cpp answers by the age of what it finds.
use cuac.Common.{
  ℕ, ◌+◌, ◌≤◌, ◌<◌, ◌≡◌, ◌↔◌, ◌⊎◌, inl, inr, refl, Bool, true, false, not, ◌||◌, some, arith,
  Bool-cases, absurd,
}
use cuac.Resilience.Coordinator.Buckets.{find}
use cuac.Cache.Policy.{
  CacheMode, off, fresh, stale_if_error, FreshnessPolicy, is_enabled, is_stale_if_error, is_valid,
  is_valid_for,
}
use cuac.Cache.Store.{
  fresh_hit, stale_candidate, CacheEntry, Cache, u64_max, stale_limit, age_at, classify, lookup,
}

stale-mode : (mode : CacheMode) → (is_stale_if_error mode ≡ true) ↔ (mode ≡ stale_if_error)
unfolding is_stale_if_error
stale-mode off = ((λ h. absurd (ground arith)), (λ h. absurd (ground arith)))
stale-mode fresh = ((λ h. absurd (ground arith)), (λ h. absurd (ground arith)))
stale-mode stale_if_error = ((λ h. refl), (λ h. refl))

bounds_of :
    (mode : CacheMode) (f s : ℕ)
    → is_valid_for mode f s ≡ true
    → (f ≤ 86400000) × (is_stale_if_error mode ≡ true → s ≤ 604800000)
unfolding is_valid_for is_stale_if_error
bounds_of off f s h = (ground arith, λ e. ground arith)
bounds_of fresh f s h = (ground arith, λ e. absurd (ground arith))
bounds_of stale_if_error f s h = (ground arith, λ e. ground arith)

-- The windows in which an entry is fresh, and in which it may stand in for an error.
abbrev pub IsFresh : FreshnessPolicy → ℕ → ℕ → Type 0
IsFresh policy stored now = (stored ≤ now) × (now < stored + policy.fresh_milliseconds)

abbrev pub IsStale : FreshnessPolicy → ℕ → ℕ → Type 0
IsStale policy stored now =
    (policy.mode ≡ stale_if_error)
    × (stored + policy.fresh_milliseconds ≤ now)
    × (now < stored + policy.fresh_milliseconds + policy.stale_milliseconds)

module _ {B : Type 0} (policy : FreshnessPolicy) (e : CacheEntry B) (now : ℕ)
    (valid : is_valid policy ≡ true) (clock : now ≤ u64_max) where
  classify-fresh_hit :
      ((classify policy e (age_at now e.stored_at_milliseconds)).result ≡ fresh_hit)
      ↔ IsFresh policy e.stored_at_milliseconds now
  unfolding classify age_at is_valid
  classify-fresh_hit =
      let bound = bounds_of policy.mode policy.fresh_milliseconds policy.stale_milliseconds valid in
      ground arith

  classify-stale :
      ((classify policy e (age_at now e.stored_at_milliseconds)).result ≡ stale_candidate) ↔ (
        (is_stale_if_error policy.mode ≡ true)
        × (e.stored_at_milliseconds + policy.fresh_milliseconds ≤ now)
        × (now < e.stored_at_milliseconds + policy.fresh_milliseconds + policy.stale_milliseconds))
  unfolding classify age_at is_valid stale_limit
  classify-stale =
      let (f, s) =
        bounds_of policy.mode policy.fresh_milliseconds policy.stale_milliseconds valid in
      elim (Bool-cases (is_stale_if_error policy.mode)) [
        | inl on ↦ let small = s on in ground arith
        | inr other ↦ ground arith
      ]

  handed_out :
      (age : ℕ)
      → ((classify policy e age).entry ≡ some e) ↔ (
          ((classify policy e age).result ≡ fresh_hit)
          ⊎ ((classify policy e age).result ≡ stale_candidate))
  unfolding classify
  handed_out age = ground arith

  -- A lookup on an open cache, by a valid policy that is enabled, of a key that has an entry: it is a
  -- fresh hit exactly while the clock has not gone back behind the time of storing and the fresh
  -- window lasts, a stale candidate exactly in the stale window behind it and only in the mode that
  -- allows it, and the entry is handed out in these two cases alone.
  pub lookup_by_age :
      {K : Type 0} (same_key : K → K → Bool) (key : K) (c : Cache K B) (order : ℕ)
      → find same_key key c.entries ≡ some (record { entry = e; insertion_order = order })
      → is_enabled policy ≡ true
      → c.closed ≡ false
      → (((lookup same_key key policy now c).result ≡ fresh_hit)
          ↔ IsFresh policy e.stored_at_milliseconds now)
        × (((lookup same_key key policy now c).result ≡ stale_candidate)
            ↔ IsStale policy e.stored_at_milliseconds now)
        × (((lookup same_key key policy now c).entry ≡ some e) ↔ (
            IsFresh policy e.stored_at_milliseconds now
            ⊎ IsStale policy e.stored_at_milliseconds now))
  unfolding lookup
  lookup_by_age same_key key c order found on live =
      let seen : (not (is_enabled policy) || c.closed) ≡ false = ground arith in
      let age = age_at now e.stored_at_milliseconds in
      let mode = stale-mode policy.mode in
      let stale : ((classify policy e age).result ≡ stale_candidate)
          ↔ IsStale policy e.stored_at_milliseconds now =
        (
          (λ h. let (m, l, u) = classify-stale.0 h in (mode.0 m, l, u)),
          (λ (m, l, u). classify-stale.1 (mode.1 m, l, u)),
        ) in
      let there : (classify policy e age).entry ≡ some e
          → IsFresh policy e.stored_at_milliseconds now
            ⊎ IsStale policy e.stored_at_milliseconds now =
        λ h. elim ((handed_out age).0 h) [
          | inl f ↦ inl (classify-fresh_hit.0 f)
          | inr g ↦ inr (stale.0 g)
        ] in
      let back : IsFresh policy e.stored_at_milliseconds now
            ⊎ IsStale policy e.stored_at_milliseconds now
          → (classify policy e age).entry ≡ some e =
        λ h.
          (handed_out age).1
            (elim h [ inl f ↦ inl (classify-fresh_hit.1 f) | inr g ↦ inr (stale.1 g) ]) in
      rw (lookup, seen, found) (classify-fresh_hit, stale, (there, back))
