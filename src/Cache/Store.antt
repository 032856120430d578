-- ===== src/Cache/Store.antt =====
-- `CompleteScanResultCache`, src/runtime/cache/complete_scan_result_cache.cpp. The clock's reading is an
-- argument of each method that reads it, and what an entry owns, the batches and the permit, is a
-- parameter. The table is an association list.
use cuac.Common.{
  ℕ, zero, suc, ◌+◌, ◌-◌, Bool, true, false, not, ◌&&◌, ◌||◌, Option, none, some, List, [], ◌∷◌,
  length, ltb, leb, ◌==◌, if◌then◌else◌,
}
use cuac.Resilience.Coordinator.Buckets.{find, put}
use cuac.Cache.Policy.{FreshnessPolicy, is_enabled, is_stale_if_error}
use cuac.Resilience.Coordinator.State.{plus_64, minus_64}

pub data CacheLookupResult : Type 0 where
  miss fresh_hit stale_candidate expired : CacheLookupResult

pub record CacheEntry (B : Type 0) : Type 0 where
  pub batches : B
  pub stored_at_milliseconds : ℕ
  pub size_bytes : ℕ

pub record MapEntry (B : Type 0) : Type 0 where
  pub entry : CacheEntry B
  pub insertion_order : ℕ

pub record Cache (K B : Type 0) : Type 0 where
  pub max_entries : ℕ
  pub max_bytes : ℕ
  pub max_entry_bytes : ℕ
  pub entries : List (K × MapEntry B)
  pub next_insertion_order : ℕ
  pub resident_bytes : ℕ
  pub closed : Bool

-- `std::numeric_limits<std::uint64_t>::max()`.
abbrev pub u64_max : ℕ
u64_max = 18446744073709551615

-- The last of the window in which a stale entry may stand in, in 64 bits.
unfoldable pub stale_limit : FreshnessPolicy → ℕ
stale_limit policy =
    if ltb (u64_max - policy.fresh_milliseconds) policy.stale_milliseconds
    then u64_max
    else policy.fresh_milliseconds + policy.stale_milliseconds

unfoldable pub age_at : ℕ → ℕ → ℕ
age_at now stored_at = if leb stored_at now then now - stored_at else u64_max

-- The result, the entry that is handed out, and the age.
pub record Found (B : Type 0) : Type 0 where
  pub result : CacheLookupResult
  pub entry : Option (CacheEntry B)
  pub age_milliseconds : ℕ

unfoldable pub classify : {B : Type 0} → FreshnessPolicy → CacheEntry B → ℕ → Found B
classify policy entry age =
    if ltb age policy.fresh_milliseconds
    then record { result = fresh_hit; entry = some entry; age_milliseconds = age }
    else if is_stale_if_error policy.mode && ltb age (stale_limit policy)
    then record { result = stale_candidate; entry = some entry; age_milliseconds = age }
    else record { result = expired; entry = none; age_milliseconds = age }

-- What an entry that is replaced frees.
unfoldable pub replaced_bytes : {B : Type 0} → Option (MapEntry B) → ℕ
replaced_bytes none = 0
replaced_bytes (some existing) = existing.entry.size_bytes

module _ {K B : Type 0} where
  -- The constructor, and the errors it throws.
  unfoldable pub construct : ℕ → ℕ → ℕ → Option (Cache K B)
  construct max_entries max_bytes max_entry_bytes =
      if max_entries == 0 || max_bytes == 0 || max_entry_bytes == 0
      then none
      else if ltb 256 max_entries || ltb 67108864 max_bytes || ltb 16777216 max_entry_bytes
      then none
      else some (record {
        max_entries = max_entries;
        max_bytes = max_bytes;
        max_entry_bytes = max_entry_bytes;
        entries = [];
        next_insertion_order = 0;
        resident_bytes = 0;
        closed = false;
      })

  unfoldable pub can_fit : ℕ → Cache K B → Bool
  can_fit entry_bytes c =
      if ltb c.max_entry_bytes entry_bytes
      then false
      else if ltb c.max_bytes entry_bytes
      then false
      else true

  -- The entry inserted first of all, and the others.
  unfoldable pub take_oldest :
      List (K × MapEntry B) → Option ((K × MapEntry B) × List (K × MapEntry B))
  take_oldest [] = none
  take_oldest ((k, e) ∷ es) = elim (take_oldest es) [
    | none ↦ some ((k, e), es)
    | some ((j, f), rest) ↦
        if ltb f.insertion_order e.insertion_order
        then some ((j, f), (k, e) ∷ rest)
        else some ((k, e), es)
  ]

  unfoldable pub is_over : Cache K B → Bool
  is_over c = ltb c.max_entries (length c.entries) || ltb c.max_bytes c.resident_bytes

  -- The loop of `EvictIfNeeded`, which takes one entry with each turn.
  unfoldable pub evict : ℕ → Cache K B → Cache K B
  evict zero c = c
  evict (suc fuel) c = elim (take_oldest c.entries) [
    | none ↦ c
    | some ((k, e), rest) ↦ elim (is_over c) [
      | false ↦ c
      | true ↦ evict fuel (record c {
        entries = rest;
        resident_bytes = minus_64 c.resident_bytes e.entry.size_bytes;
      })
    ]
  ]

  unfoldable pub evict_if_needed : Cache K B → Cache K B
  evict_if_needed c = evict (length c.entries) c

  unfoldable pub close : Cache K B → Cache K B
  close c = record c { closed = true; entries = []; resident_bytes = 0 }

module _ {K B : Type 0} (same_key : K → K → Bool) where
  unfoldable pub lookup : K → FreshnessPolicy → ℕ → Cache K B → Found B
  lookup key policy now c =
      if not (is_enabled policy) || c.closed
      then record { result = miss; entry = none; age_milliseconds = 0 }
      else (elim (find same_key key c.entries) [
        | none ↦ record { result = miss; entry = none; age_milliseconds = 0 }
        | some e ↦ classify policy e.entry (age_at now e.entry.stored_at_milliseconds)
      ])

  -- A candidate in the place of what its key has, before the eviction.
  unfoldable pub insert : K → CacheEntry B → Cache K B → Cache K B
  insert key candidate c =
      let freed = replaced_bytes (find same_key key c.entries) in
      record c {
        entries =
            put same_key key
              (record { entry = candidate; insertion_order = c.next_insertion_order }) c.entries;
        next_insertion_order = plus_64 c.next_insertion_order 1;
        resident_bytes = plus_64 (minus_64 c.resident_bytes freed) candidate.size_bytes;
      }

  -- `PublishReserved`: the entry published, or none where it answers false.
  unfoldable pub publish_reserved : K → B → ℕ → ℕ → Cache K B → Cache K B × Option (CacheEntry B)
  publish_reserved key batches size_bytes now c =
      let candidate : CacheEntry B = record {
        batches = batches;
        stored_at_milliseconds = now;
        size_bytes = size_bytes;
      } in
      if not (can_fit size_bytes c) || c.closed
      then (c, none)
      else (evict_if_needed (insert key candidate c), some candidate)
