-- ===== src/Cache/Runs.antt =====
-- Any calls on src/runtime/cache/complete_scan_result_cache.cpp, and what a lookup finds after them.
use cuac.Common.{
  ℕ, suc, ◌+◌, ◌-◌, ◌≤◌, ◌<◌, ◌≡◌, refl, subst, ◌∙◌, Bool, true, false, not, ◌||◌, some, List, [],
  ◌∷◌, length, ltb, arith,
}
use cuac.Cache.Policy.{FreshnessPolicy, is_enabled}
use cuac.Cache.Store.{
  fresh_hit, CacheEntry, MapEntry, Cache, age_at, classify, construct, can_fit, evict,
  evict_if_needed, close, insert, lookup, publish_reserved,
}
use cuac.Cache.Evict.{evict_same}
use cuac.Cache.Newest.{Newest, Newest-find, put-Newest, evict-Newest}
use cuac.Cache.Invariant.{
  IsWithin, construct-IsWithin, close-IsWithin, insert-IsCounted, IsWithin-more, publish-IsWithin,
}

-- A call of a method that changes the cache; `Lookup` changes nothing.
pub data Call (K B : Type 0) : Type 0 where
  publish_call : K → B → ℕ → ℕ → Call K B
  close_call : Call K B

module _ {K B : Type 0} (same_key : K → K → Bool) where
  unfoldable pub apply : Cache K B → Call K B → Cache K B
  apply c (publish_call key batches size_bytes now) =
      (publish_reserved same_key key batches size_bytes now c).0
  apply c close_call = close c

  unfoldable pub run : Cache K B → List (Call K B) → Cache K B
  run c [] = c
  run c (call ∷ calls) = run (apply c call) calls

  run-IsWithin_from :
      (n : ℕ) (c : Cache K B) (calls : List (Call K B))
      → n + length calls < 18446744073709551616
      → IsWithin n c
      → IsWithin (n + length calls) (run c calls)
  unfolding run apply
  run-IsWithin_from n c [] k i =
      let same : n ≡ n + 0 = omega arith in subst (λ m. IsWithin m c) same i
  run-IsWithin_from n c (publish_call key batches size_bytes now ∷ calls) k i =
      let same : suc n + length calls ≡ n + suc (length calls) = omega arith in
      let next = (publish_reserved same_key key batches size_bytes now c).0 in
      subst (λ m. IsWithin m (run next calls)) same
        (run-IsWithin_from (suc n) next calls (omega (arith, k))
          (publish-IsWithin same_key n key batches size_bytes now c (omega (arith, k)) i))
  run-IsWithin_from n c (close_call ∷ calls) k i =
      let same : suc n + length calls ≡ n + suc (length calls) = omega arith in
      subst (λ m. IsWithin m (run (close c) calls)) same
        (run-IsWithin_from (suc n) (close c) calls (omega (arith, k))
          (IsWithin-more same_key n (close c) (close-IsWithin n c i)))

  -- After any calls, fewer than 2^64, on a new cache: the bytes taken to be resident are the sum of
  -- the sizes of the entries, entries and bytes are within the limits of the cache and of the hard
  -- profile, no entry is larger than one may be, each has an insertion order below the next one, and
  -- a cache that has been closed is empty.
  pub run-IsWithin :
      (max_entries max_bytes max_entry_bytes : ℕ) (c : Cache K B) (calls : List (Call K B))
      → construct max_entries max_bytes max_entry_bytes ≡ some c
      → length calls < 18446744073709551616
      → IsWithin (length calls) (run c calls)
  run-IsWithin max_entries max_bytes max_entry_bytes c calls e k =
      let same : 0 + length calls ≡ length calls = omega arith in
      subst (λ m. IsWithin m (run c calls)) same
        (run-IsWithin_from 0 c calls (omega (arith, k))
          (construct-IsWithin max_entries max_bytes max_entry_bytes c e))

  published-Newest :
      (n : ℕ) (key : K) (candidate : CacheEntry B) (c : Cache K B)
      → IsWithin n c
      → same_key key key ≡ true
      → candidate.size_bytes ≤ 16777216
      → candidate.size_bytes ≤ c.max_bytes
      → Newest same_key key
          (record { entry = candidate; insertion_order = c.next_insertion_order })
          (evict_if_needed (insert same_key key candidate c)).entries
  unfolding evict_if_needed insert
  published-Newest n key candidate c i same small fits =
      let new : MapEntry B = record {
        entry = candidate;
        insertion_order = c.next_insertion_order;
      } in
      let grown = insert same_key key candidate c in
      evict-Newest same_key key new (length grown.entries) grown
        (insert-IsCounted same_key n key candidate c i small) i.hard_entries.0 fits
        (put-Newest same_key key new c.entries same i.orders)

  -- A snapshot that fits an open cache is published, the eviction leaves it in its place, and until
  -- its fresh window ends a lookup of its key with an enabled policy hands out its batches. The cache
  -- is one that fewer than 2^64 calls have led to, and the key equals itself.
  pub lookup-publish_reserved :
      (n : ℕ) (key : K) (batches : B) (size_bytes stored now : ℕ) (policy : FreshnessPolicy)
      (c : Cache K B)
      → IsWithin n c
      → suc n < 18446744073709551616
      → same_key key key ≡ true
      → c.closed ≡ false
      → size_bytes ≤ c.max_entry_bytes
      → size_bytes ≤ c.max_bytes
      → is_enabled policy ≡ true
      → stored ≤ now
      → now - stored < policy.fresh_milliseconds
      → lookup same_key key policy now (publish_reserved same_key key batches size_bytes stored c).0
        ≡ record {
          result = fresh_hit;
          entry = some (record {
            batches = batches;
            stored_at_milliseconds = stored;
            size_bytes = size_bytes;
          });
          age_milliseconds = now - stored;
        }
  unfolding lookup classify
  lookup-publish_reserved n key batches size_bytes stored now policy c i k same live small fits on
        order young =
      let candidate : CacheEntry B = record {
        batches = batches;
        stored_at_milliseconds = stored;
        size_bytes = size_bytes;
      } in
      let new : MapEntry B = record {
        entry = candidate;
        insertion_order = c.next_insertion_order;
      } in
      let grown = insert same_key key candidate c in
      let fuel = length grown.entries in
      let kept =
        published-Newest n key candidate c i same (omega (arith, small, i.hard_entry_bytes)) fits in
      let found = Newest-find same_key key new kept in
      let open_ : (evict fuel grown).closed ≡ false =
        (evict_same fuel grown).4 ∙ unfold insert in live in
      let accepted : (not (can_fit size_bytes c) || c.closed) ≡ false =
        unfold can_fit in ground arith in
      let seen : (not (is_enabled policy) || (evict fuel grown).closed) ≡ false = ground arith in
      let age : age_at now stored ≡ now - stored = unfold age_at in ground arith in
      let fresh_ : ltb (now - stored) policy.fresh_milliseconds ≡ true = ground arith in
      unfold publish_reserved evict_if_needed in
      rw (publish_reserved, accepted, lookup, seen, found, age, classify, fresh_) refl
