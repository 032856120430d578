-- ===== src/Cache/Invariant.antt =====
-- What every call keeps of src/runtime/cache/complete_scan_result_cache.cpp.
use cuac.Common.{
  ℕ, suc, ◌+◌, ◌%◌, ◌≤◌, ◌<◌, ◌≡◌, inl, inr, refl, ap, subst, Bool, true, false, not, ◌||◌, Option,
  none, some, List, [], length, ltb, ◌==◌, arith, Bool-cases, absurd,
}
use cuac.Resilience.Coordinator.Buckets.{
  find, total, AllValues, AllValues-map, AllValues-put, total-put_old, total-put_new, total-erase,
}
use cuac.Cache.Store.{
  CacheEntry, MapEntry, Cache, construct, can_fit, is_over, evict, evict_if_needed, close,
  replaced_bytes, insert, publish_reserved,
}
use cuac.Cache.Evict.{size, IsCounted, evict_within, evict-AllValues, evict_same}

-- After at most `n` calls: the limits are within the hard profile, the entries are counted and within
-- the limits, each was inserted before the next one, and a cache that is closed is empty.
pub record IsWithin {K B : Type 0} (n : ℕ) (c : Cache K B) : Type 0 where
  pub counted : c.resident_bytes ≡ total size c.entries
  pub resident : c.resident_bytes ≤ c.max_bytes
  pub count : length c.entries ≤ c.max_entries
  pub hard_entries : (1 ≤ c.max_entries) × (c.max_entries ≤ 256)
  pub hard_bytes : (1 ≤ c.max_bytes) × (c.max_bytes ≤ 67108864)
  pub hard_entry_bytes : c.max_entry_bytes ≤ 16777216
  pub sizes : AllValues (λ f. size f ≤ c.max_entry_bytes) c.entries
  pub orders : AllValues (λ f. f.insertion_order < c.next_insertion_order) c.entries
  pub calls : c.next_insertion_order ≤ n
  pub empty : c.closed ≡ true → c.entries ≡ []

abbrev opened : {K B : Type 0} → ℕ → ℕ → ℕ → Cache K B
opened max_entries max_bytes max_entry_bytes = record {
  max_entries = max_entries;
  max_bytes = max_bytes;
  max_entry_bytes = max_entry_bytes;
  entries = [];
  next_insertion_order = 0;
  resident_bytes = 0;
  closed = false;
}

some-injective : {A : Type 0} {a b : A} → some a ≡ some b → a ≡ b
some-injective {a = a} e = ap (λ o. elim o [ none ↦ a | some x ↦ x ]) e

pub construct-IsWithin :
    {K B : Type 0} (max_entries max_bytes max_entry_bytes : ℕ) (c : Cache K B)
    → construct max_entries max_bytes max_entry_bytes ≡ some c
    → IsWithin 0 c
unfolding construct
construct-IsWithin max_entries max_bytes max_entry_bytes c e =
    elim (Bool-cases (max_entries == 0 || max_bytes == 0 || max_entry_bytes == 0)) [
      | inl zeros ↦ absurd (ground arith)
      | inr positive ↦
          elim (Bool-cases
            (ltb 256 max_entries || ltb 67108864 max_bytes || ltb 16777216 max_entry_bytes)) [
              | inl wide ↦ absurd (ground arith)
              | inr narrow ↦
                  let same : some (opened max_entries max_bytes max_entry_bytes) ≡ some c =
                    rw (positive, narrow) at e in
                  subst (IsWithin 0) (some-injective same) (record {
                    counted = refl;
                    resident = omega arith;
                    count = omega arith;
                    hard_entries = (ground arith, ground arith);
                    hard_bytes = (ground arith, ground arith);
                    hard_entry_bytes = ground arith;
                    sizes = tt;
                    orders = tt;
                    calls = omega arith;
                    empty = λ h. refl;
                  })
            ]
    ]

module _ {K B : Type 0} where
  pub close-IsWithin : (n : ℕ) (c : Cache K B) → IsWithin n c → IsWithin n (close c)
  unfolding close
  close-IsWithin n c i = record {
    counted = refl;
    resident = omega arith;
    count = omega arith;
    hard_entries = i.hard_entries;
    hard_bytes = i.hard_bytes;
    hard_entry_bytes = i.hard_entry_bytes;
    sizes = tt;
    orders = tt;
    calls = i.calls;
    empty = λ h. refl;
  }

module _ {K B : Type 0} (same_key : K → K → Bool) where
  insert-total :
      (key : K) (candidate : CacheEntry B) (c : Cache K B) (o : Option (MapEntry B))
      → find same_key key c.entries ≡ o
      → total size (insert same_key key candidate c).entries + replaced_bytes o
        ≡ total size c.entries + candidate.size_bytes
  unfolding insert replaced_bytes
  insert-total key candidate c none e =
      let new : MapEntry B = record {
        entry = candidate;
        insertion_order = c.next_insertion_order;
      } in
      let sum = total-put_new same_key size key new c.entries e in omega (arith, sum)
  insert-total key candidate c (some old) e =
      let new : MapEntry B = record {
        entry = candidate;
        insertion_order = c.next_insertion_order;
      } in
      total-put_old same_key size key old new c.entries e

  freed_bound :
      (key : K) (es : List (K × MapEntry B)) (o : Option (MapEntry B))
      → find same_key key es ≡ o
      → replaced_bytes o ≤ total size es
  unfolding replaced_bytes
  freed_bound key es none e = omega arith
  freed_bound key es (some old) e =
      let sum = total-erase same_key size key old es e in omega (arith, sum)

  -- Before the eviction the bytes are counted, whatever the limits.
  pub insert-IsCounted :
      (n : ℕ) (key : K) (candidate : CacheEntry B) (c : Cache K B)
      → IsWithin n c
      → candidate.size_bytes ≤ 16777216
      → IsCounted (insert same_key key candidate c)
  insert-IsCounted n key candidate c i small =
      let sum = insert-total key candidate c (find same_key key c.entries) refl in
      let freed = freed_bound key c.entries (find same_key key c.entries) refl in
      let hard = i.hard_bytes.1 in
      let counted = i.counted in
      let resident = i.resident in
      unfold insert in
      (
        omega (arith, sum, freed, hard, counted, resident, small),
        omega (arith, sum, freed, hard, counted, resident, small),
      )

  -- The candidate stands in the table, and the table is not yet within its limits.
  insert-sizes :
      (key : K) (candidate : CacheEntry B) (c : Cache K B)
      → candidate.size_bytes ≤ c.max_entry_bytes
      → AllValues (λ f. size f ≤ c.max_entry_bytes) c.entries
      → AllValues (λ f. size f ≤ c.max_entry_bytes) (insert same_key key candidate c).entries
  unfolding insert
  insert-sizes key candidate c small h =
      AllValues-put same_key (λ f. size f ≤ c.max_entry_bytes) key
        (record { entry = candidate; insertion_order = c.next_insertion_order }) c.entries h small

  insert-orders :
      (key : K) (candidate : CacheEntry B) (c : Cache K B)
      → suc c.next_insertion_order < 18446744073709551616
      → AllValues (λ f. f.insertion_order < c.next_insertion_order) c.entries
      → AllValues
          (λ f. f.insertion_order < (insert same_key key candidate c).next_insertion_order)
          (insert same_key key candidate c).entries
  unfolding insert
  insert-orders key candidate c k h =
      let next = (c.next_insertion_order + 1) % 18446744073709551616 in
      AllValues-put same_key (λ f. f.insertion_order < next) key
        (record { entry = candidate; insertion_order = c.next_insertion_order }) c.entries
        (AllValues-map (λ f. f.insertion_order < c.next_insertion_order)
          (λ f. f.insertion_order < next) (λ f l. omega (arith, l, k)) c.entries h)
        (omega (arith, k))

  -- The eviction of a cache whose bytes are counted, with its limits those of another.
  evict-IsWithin :
      (n : ℕ) (c : Cache K B)
      → IsCounted c
      → (1 ≤ c.max_entries) × (c.max_entries ≤ 256)
      → (1 ≤ c.max_bytes) × (c.max_bytes ≤ 67108864)
      → c.max_entry_bytes ≤ 16777216
      → AllValues (λ f. size f ≤ c.max_entry_bytes) c.entries
      → AllValues (λ f. f.insertion_order < c.next_insertion_order) c.entries
      → c.next_insertion_order ≤ n
      → c.closed ≡ false
      → IsWithin n (evict_if_needed c)
  unfolding evict_if_needed
  evict-IsWithin n c v he hb hs sizes orders calls open_ =
      let fuel = length c.entries in
      let d = evict fuel c in
      let (counted, fits) = evict_within fuel c v (omega arith) in
      let (e, b, m, o, s) = evict_same fuel c in
      record {
        counted = counted.0;
        resident = unfold is_over in ground arith;
        count = unfold is_over in ground arith;
        hard_entries = (omega (arith, he.0, e), omega (arith, he.1, e));
        hard_bytes = (omega (arith, hb.0, b), omega (arith, hb.1, b));
        hard_entry_bytes = omega (arith, hs, m);
        sizes =
            AllValues-map (λ f. size f ≤ c.max_entry_bytes) (λ f. size f ≤ d.max_entry_bytes)
              (λ f l. omega (arith, l, m)) d.entries
              (evict-AllValues (λ f. size f ≤ c.max_entry_bytes) fuel c sizes);
        orders =
            AllValues-map (λ f. f.insertion_order < c.next_insertion_order)
              (λ f. f.insertion_order < d.next_insertion_order) (λ f l. omega (arith, l, o))
              d.entries
              (evict-AllValues (λ f. f.insertion_order < c.next_insertion_order) fuel c orders);
        calls = omega (arith, calls, o);
        empty = λ h. absurd (ground arith);
      }

  pub IsWithin-more : (n : ℕ) (c : Cache K B) → IsWithin n c → IsWithin (suc n) c
  IsWithin-more n c i = record {
    counted = i.counted;
    resident = i.resident;
    count = i.count;
    hard_entries = i.hard_entries;
    hard_bytes = i.hard_bytes;
    hard_entry_bytes = i.hard_entry_bytes;
    sizes = i.sizes;
    orders = i.orders;
    calls = omega (arith, i.calls);
    empty = i.empty;
  }

  pub publish-IsWithin :
      (n : ℕ) (key : K) (batches : B) (size_bytes now : ℕ) (c : Cache K B)
      → suc n < 18446744073709551616
      → IsWithin n c
      → IsWithin (suc n) (publish_reserved same_key key batches size_bytes now c).0
  unfolding publish_reserved
  publish-IsWithin n key batches size_bytes now c k i =
      elim (Bool-cases (not (can_fit size_bytes c) || c.closed)) [
        | inl refused ↦ rw (publish_reserved, refused) (IsWithin-more n c i)
        | inr accepted ↦
            let candidate : CacheEntry B = record {
              batches = batches;
              stored_at_milliseconds = now;
              size_bytes = size_bytes;
            } in
            let small : size_bytes ≤ c.max_entry_bytes = unfold can_fit in ground arith in
            let live : c.closed ≡ false = ground arith in
            rw (publish_reserved, accepted)
              (unfold insert in
                evict-IsWithin (suc n) (insert same_key key candidate c)
                  (insert-IsCounted n key candidate c i (omega (arith, small, i.hard_entry_bytes)))
                  i.hard_entries i.hard_bytes i.hard_entry_bytes
                  (insert-sizes key candidate c small i.sizes)
                  (insert-orders key candidate c (omega (arith, i.calls, k)) i.orders)
                  (omega (arith, i.calls, k)) live)
      ]
