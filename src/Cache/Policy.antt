-- ===== src/Cache/Policy.antt =====
-- How old a cached result may be, src/semantics/plan/cache_policy.cpp. `none` stands for the error that
-- a constructor throws.
use cuac.Common.{ℕ, Bool, true, false, ◌&&◌, Option, none, some, ltb, leb, ◌==◌, if◌then◌else◌}

pub data CacheMode : Type 0 where
  off fresh stale_if_error : CacheMode

pub record FreshnessPolicy : Type 0 where
  pub mode : CacheMode
  pub fresh_milliseconds : ℕ
  pub stale_milliseconds : ℕ

-- `MAX_FRESH_MILLISECONDS` and `MAX_STALE_MILLISECONDS`.
abbrev pub max_fresh : ℕ
max_fresh = 86400000

abbrev pub max_stale : ℕ
max_stale = 604800000

abbrev policy_of : CacheMode → ℕ → ℕ → FreshnessPolicy
policy_of mode fresh_milliseconds stale_milliseconds = record {
  mode = mode;
  fresh_milliseconds = fresh_milliseconds;
  stale_milliseconds = stale_milliseconds;
}

unfoldable pub policy_off : FreshnessPolicy
policy_off = policy_of off 0 0

unfoldable pub policy_fresh : ℕ → Option FreshnessPolicy
policy_fresh fresh_milliseconds =
    if fresh_milliseconds == 0
    then none
    else if ltb max_fresh fresh_milliseconds
    then none
    else some (policy_of fresh fresh_milliseconds 0)

unfoldable pub policy_stale_if_error : ℕ → ℕ → Option FreshnessPolicy
policy_stale_if_error fresh_milliseconds stale_milliseconds =
    if fresh_milliseconds == 0
    then none
    else if ltb max_fresh fresh_milliseconds
    then none
    else if stale_milliseconds == 0
    then none
    else if ltb max_stale stale_milliseconds
    then none
    else some (policy_of stale_if_error fresh_milliseconds stale_milliseconds)

unfoldable pub is_enabled : FreshnessPolicy → Bool
is_enabled policy = elim policy.mode [ off ↦ false | _ ↦ true ]

unfoldable pub is_stale_if_error : CacheMode → Bool
is_stale_if_error stale_if_error = true
is_stale_if_error _ = false

unfoldable pub is_valid_for : CacheMode → ℕ → ℕ → Bool
is_valid_for off fresh_milliseconds stale_milliseconds =
    leb fresh_milliseconds max_fresh && leb stale_milliseconds max_stale
is_valid_for fresh fresh_milliseconds stale_milliseconds =
    ltb 0 fresh_milliseconds && leb fresh_milliseconds max_fresh
is_valid_for stale_if_error fresh_milliseconds stale_milliseconds =
    ltb 0 fresh_milliseconds
    && leb fresh_milliseconds max_fresh
    && ltb 0 stale_milliseconds
    && leb stale_milliseconds max_stale

unfoldable pub is_valid : FreshnessPolicy → Bool
is_valid policy = is_valid_for policy.mode policy.fresh_milliseconds policy.stale_milliseconds
