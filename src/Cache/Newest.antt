-- ===== src/Cache/Newest.antt =====
-- What src/runtime/cache/complete_scan_result_cache.cpp has just published outlives the eviction.
use cuac.Common.{
  ℕ, zero, suc, ◌≤◌, ◌<◌, ◌≡◌, ◌⊎◌, inl, inr, refl, Bool, true, false, some, List, [], ◌∷◌, length,
  arith, Bool-cases, absurd,
}
use cuac.Resilience.Coordinator.Buckets.{find, put, total, AllValues}
use cuac.Cache.Store.{MapEntry, Cache, is_over, evict}
use cuac.Cache.Evict.{
  size, Taken, first, later, take_oldest-cases, Taken-rest, IsCounted, without, without-IsCounted,
}

module _ {K B : Type 0} (same_key : K → K → Bool) (key : K) (v : MapEntry B) where
  -- The key has this value, and every other value was inserted before it.
  pub data Newest : List (K × MapEntry B) → Type 0 where
    here :
        {k : K} {es : List (K × MapEntry B)}
        → same_key k key ≡ true
        → AllValues (λ f. f.insertion_order < v.insertion_order) es
        → Newest ((k, v) ∷ es)
    there :
        {k : K} {e : MapEntry B} {es : List (K × MapEntry B)}
        → same_key k key ≡ false
        → e.insertion_order < v.insertion_order
        → Newest es
        → Newest ((k, e) ∷ es)

  pub Newest-find : {es : List (K × MapEntry B)} → Newest es → find same_key key es ≡ some v
  unfolding find
  Newest-find (here s h) = rw s refl
  Newest-find (there n l r) = rw n (Newest-find r)

  pub put-Newest :
      (es : List (K × MapEntry B))
      → same_key key key ≡ true
      → AllValues (λ f. f.insertion_order < v.insertion_order) es
      → Newest (put same_key key v es)
  unfolding put
  put-Newest [] same h = here same tt
  put-Newest ((j, e) ∷ es) same h = elim (Bool-cases (same_key j key)) [
    | inl s ↦ rw s (here s h.1)
    | inr n ↦ rw n (there n h.0 (put-Newest es same h.1))
  ]

  -- It is the oldest only where it is alone.
  Newest-Taken :
      {es rest : List (K × MapEntry B)} {k : K} {e : MapEntry B}
      → Newest es
      → Taken es k e rest
      → Newest rest
        ⊎ ((e.insertion_order ≡ v.insertion_order) × (length es ≡ 1) × (total size es ≡ size v))
  Newest-Taken (here {es = []} s h) (first g) = inr (refl, refl, omega arith)
  Newest-Taken (here {es = (j, f) ∷ es} s h) (first g) = absurd (omega (arith, h.0, g.0))
  Newest-Taken (here s h) (later l t) = inl (here s (Taken-rest _ t h))
  Newest-Taken (there n l r) (first g) = inl r
  Newest-Taken (there n l r) (later m t) = elim (Newest-Taken r t) [
    | inl q ↦ inl (there n l q)
    | inr (o, one, sum) ↦ absurd (omega (arith, l, m, o))
  ]

  pub evict-Newest :
      (fuel : ℕ) (c : Cache K B)
      → IsCounted c
      → 1 ≤ c.max_entries
      → size v ≤ c.max_bytes
      → Newest c.entries
      → Newest (evict fuel c).entries
  unfolding evict
  evict-Newest zero c i one fits n = n
  evict-Newest (suc fuel) c i one fits n = elim (take_oldest-cases c.entries) [
    | inl (none_left, e) ↦ rw (evict, none_left) n
    | inr (k, e, rest, m, t) ↦ elim (Bool-cases (is_over c)) [
      | inr fit ↦ rw (evict, m, fit) n
      | inl over ↦ elim (Newest-Taken n t) [
        | inl q ↦
            rw (evict, m, over)
              (evict-Newest fuel (without e rest c) (without-IsCounted c i t) one fits q)
        | inr (o, alone, sum) ↦ absurd (within i one fits over alone sum)
      ]
    ]
  ]
    where
      within :
          IsCounted c
          → 1 ≤ c.max_entries
          → size v ≤ c.max_bytes
          → is_over c ≡ true
          → length c.entries ≡ 1
          → total size c.entries ≡ size v
          → ⊥
      within i one fits over alone sum = unfold is_over in ground arith
