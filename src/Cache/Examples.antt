-- ===== src/Cache/Examples.antt =====
-- A cache of two entries, and the theorems at it.
use cuac.Common.{
  ℕ, ◌≡◌, ◌↔◌, ◌⊎◌, refl, Bool, true, false, ◌==◌, none, some, List, [], ◌∷◌, length, arith,
}
use cuac.Resilience.Coordinator.Buckets.{find, put}
use cuac.Cache.Policy.{stale_if_error, FreshnessPolicy, is_valid, is_valid_for, is_enabled}
use cuac.Cache.Store.{
  fresh_hit, stale_candidate, CacheEntry, Cache, construct, can_fit, take_oldest, is_over, evict,
  evict_if_needed, replaced_bytes, insert, lookup, publish_reserved,
}
use cuac.Cache.Keys.{CacheKey, same_tag, same_cache_key}
use cuac.Cache.Invariant.{IsWithin}
use cuac.Cache.Runs.{Call, publish_call, apply, run, run-IsWithin, lookup-publish_reserved}
use cuac.Cache.Ages.{IsFresh, IsStale, lookup_by_age}

abbrev Key : Type 0
Key = CacheKey ℕ ℕ ℕ

abbrev same : Key → Key → Bool
same = same_cache_key ◌==◌ ◌==◌ ◌==◌

abbrev anonymous : Key
anonymous = record { semantic = 1; credential = none }

abbrev known : Key
known = record { semantic = 1; credential = some (2, 3) }

abbrev opened : Cache Key ℕ
opened = record {
  max_entries = 2;
  max_bytes = 10;
  max_entry_bytes = 8;
  entries = [];
  next_insertion_order = 0;
  resident_bytes = 0;
  closed = false;
}

constructed : construct 2 10 8 ≡ some opened
unfolding construct
constructed = refl

abbrev calls : List (Call Key ℕ)
calls =
    publish_call anonymous 7 6 100 ∷ publish_call known 8 5 101 ∷ publish_call known 9 9 102 ∷ []

-- The second evicts the first, and the third is too large.
evicted : length (run same opened calls).entries ≡ 1
unfolding run apply publish_reserved can_fit insert find put same_cache_key same_tag replaced_bytes
    evict_if_needed evict take_oldest is_over
evicted = refl

run-IsWithin_example : IsWithin (length calls) (run same opened calls)
run-IsWithin_example = run-IsWithin same 2 10 8 opened calls constructed (omega arith)

abbrev policy : FreshnessPolicy
policy = record { mode = stale_if_error; fresh_milliseconds = 10; stale_milliseconds = 5 }

policy-valid : is_valid policy ≡ true
unfolding is_valid is_valid_for
policy-valid = refl

policy_on : is_enabled policy ≡ true
unfolding is_enabled
policy_on = refl

known-same : same known known ≡ true
unfolding same_cache_key same_tag
known-same = refl

opened-IsWithin : IsWithin 0 opened
opened-IsWithin = record {
  counted = refl;
  resident = omega arith;
  count = omega arith;
  hard_entries = (omega arith, omega arith);
  hard_bytes = (omega arith, omega arith);
  hard_entry_bytes = omega arith;
  sizes = tt;
  orders = tt;
  calls = omega arith;
  empty = λ h. refl;
}

lookup-publish_reserved_example :
    lookup same known policy 105 (publish_reserved same known 7 6 100 opened).0 ≡ record {
      result = fresh_hit;
      entry = some (record { batches = 7; stored_at_milliseconds = 100; size_bytes = 6 });
      age_milliseconds = 5;
    }
lookup-publish_reserved_example =
    lookup-publish_reserved same 0 known 7 6 100 105 policy opened opened-IsWithin (omega arith)
      known-same refl (omega arith) (omega arith) policy_on (omega arith) (omega arith)

abbrev stored : CacheEntry ℕ
stored = record { batches = 7; stored_at_milliseconds = 100; size_bytes = 6 }

abbrev holding : Cache Key ℕ
holding = record opened {
  entries = (known, record { entry = stored; insertion_order = 0 }) ∷ [];
  next_insertion_order = 1;
  resident_bytes = 6;
}

known_found :
    find same known holding.entries ≡ some (record { entry = stored; insertion_order = 0 })
unfolding find same_cache_key same_tag
known_found = refl

lookup_by_age_example :
    (((lookup same known policy 112 holding).result ≡ fresh_hit) ↔ IsFresh policy 100 112)
    × (((lookup same known policy 112 holding).result ≡ stale_candidate) ↔ IsStale policy 100 112)
    × (((lookup same known policy 112 holding).entry ≡ some stored)
        ↔ (IsFresh policy 100 112 ⊎ IsStale policy 100 112))
lookup_by_age_example =
    lookup_by_age policy stored 112 policy-valid (omega arith) same known holding 0 known_found
      policy_on refl
