-- ===== src/Cache/Evict.antt =====
-- What the eviction of src/runtime/cache/complete_scan_result_cache.cpp takes and leaves.
use cuac.Common.{
  ℕ, zero, suc, ◌+◌, ◌≤◌, ◌<◌, ◌≡◌, ◌⊎◌, inl, inr, refl, ap, false, none, some, List, [], ◌∷◌,
  length, ltb, arith, Bool-cases, absurd,
}
use cuac.Resilience.Coordinator.Buckets.{total, AllValues, AllValues-map}
use cuac.Resilience.Coordinator.State.{minus_64}
use cuac.Cache.Store.{MapEntry, Cache, take_oldest, is_over, evict}

abbrev pub size : {B : Type 0} → MapEntry B → ℕ
size e = e.entry.size_bytes

-- The oldest of some entries, and the others.
pub data Taken {K B : Type 0}
    : List (K × MapEntry B) → K → MapEntry B → List (K × MapEntry B) → Type 0 where
  first :
      {k : K} {e : MapEntry B} {es : List (K × MapEntry B)}
      → AllValues (λ f. e.insertion_order ≤ f.insertion_order) es
      → Taken ((k, e) ∷ es) k e es
  later :
      {j k : K} {e f : MapEntry B} {es rest : List (K × MapEntry B)}
      → f.insertion_order < e.insertion_order
      → Taken es j f rest
      → Taken ((k, e) ∷ es) j f ((k, e) ∷ rest)

module _ {K B : Type 0} where
  Taken-least :
      {es rest : List (K × MapEntry B)} {k : K} {e : MapEntry B}
      → Taken es k e rest
      → AllValues (λ f. e.insertion_order ≤ f.insertion_order) es
  Taken-least (first h) = (omega arith, h)
  Taken-least (later l t) = (omega (arith, l), Taken-least t)

  pub take_oldest-cases :
      (es : List (K × MapEntry B))
      → ((take_oldest es ≡ none) × (es ≡ []))
        ⊎ ((k : K) × (e : MapEntry B) × (rest : List (K × MapEntry B)) × (take_oldest es
              ≡ some ((k, e), rest))
            × Taken es k e rest)
  unfolding take_oldest
  take_oldest-cases [] = inl (refl, refl)
  take_oldest-cases ((k, e) ∷ es) = elim (take_oldest-cases es) [
    | inl (n, m) ↦ inr (k, e, es, rw n refl, rw m (first tt))
    | inr (j, f, rest, h, t) ↦ elim (Bool-cases (ltb f.insertion_order e.insertion_order)) [
      | inl l ↦ inr (j, f, (k, e) ∷ rest, rw (take_oldest, h, l) refl, later (ground arith) t)
      | inr n ↦ inr (
        k,
        e,
        es,
        rw (take_oldest, h, n) refl,
        first (
            AllValues-map (λ g. f.insertion_order ≤ g.insertion_order)
              (λ g. e.insertion_order ≤ g.insertion_order) (λ g l. ground arith) es
              (Taken-least t)),
      )
    ]
  ]

  pub Taken-total :
      {es rest : List (K × MapEntry B)} {k : K} {e : MapEntry B}
      → Taken es k e rest
      → (total size es ≡ size e + total size rest) × (length es ≡ suc (length rest))
  Taken-total (first h) = (refl, refl)
  Taken-total (later l t) = let (s, n) = Taken-total t in (omega (arith, s), omega (arith, n))

  pub Taken-rest :
      (P : MapEntry B → Type 0) {es rest : List (K × MapEntry B)} {k : K} {e : MapEntry B}
      → Taken es k e rest
      → AllValues P es
      → AllValues P rest
  Taken-rest P (first h) a = a.1
  Taken-rest P (later l t) a = (a.0, Taken-rest P t a.1)

-- The sum of the sizes is what the cache takes to be resident, in 64 bits.
abbrev pub IsCounted : {K B : Type 0} → Cache K B → Type 0
IsCounted c = (c.resident_bytes ≡ total size c.entries) × (c.resident_bytes < 18446744073709551616)

abbrev pub without : {K B : Type 0} → MapEntry B → List (K × MapEntry B) → Cache K B → Cache K B
without e rest c = record c {
  entries = rest;
  resident_bytes = minus_64 c.resident_bytes e.entry.size_bytes;
}

module _ {K B : Type 0} where
  empty-over : (c : Cache K B) → IsCounted c → c.entries ≡ [] → is_over c ≡ false
  unfolding is_over
  empty-over c (s, l) e =
      let none_left : total size c.entries ≡ 0 = ap (total size) e in
      let short : length c.entries ≡ 0 = ap length e in ground arith

  pub without-IsCounted :
      (c : Cache K B) {k : K} {e : MapEntry B} {rest : List (K × MapEntry B)}
      → IsCounted c
      → Taken c.entries k e rest
      → IsCounted (without e rest c)
  without-IsCounted c (s, l) t =
      let (sum, n) = Taken-total t in (omega (arith, s, l, sum), omega (arith, s, l, sum))

  -- With a turn for each entry the loop ends within the limits.
  pub evict_within :
      (fuel : ℕ) (c : Cache K B)
      → IsCounted c
      → length c.entries ≤ fuel
      → IsCounted (evict fuel c) × (is_over (evict fuel c) ≡ false)
  unfolding evict
  evict_within zero c v h = elim (take_oldest-cases c.entries) [
    | inl (n, e) ↦ (v, empty-over c v e)
    | inr (k, e, rest, m, t) ↦ let (s, n) = Taken-total t in absurd (omega (arith, h, n))
  ]
  evict_within (suc fuel) c v h = elim (take_oldest-cases c.entries) [
    | inl (n, e) ↦ rw (evict, n) (v, empty-over c v e)
    | inr (k, e, rest, m, t) ↦ elim (Bool-cases (is_over c)) [
      | inr fit ↦ rw (evict, m, fit) (v, fit)
      | inl over ↦
          let (s, n) = Taken-total t in
          rw (evict, m, over)
            (evict_within fuel (without e rest c) (without-IsCounted c v t) (omega (arith, h, n)))
    ]
  ]

  pub evict-AllValues :
      (P : MapEntry B → Type 0) (fuel : ℕ) (c : Cache K B)
      → AllValues P c.entries
      → AllValues P (evict fuel c).entries
  unfolding evict
  evict-AllValues P zero c a = a
  evict-AllValues P (suc fuel) c a = elim (take_oldest-cases c.entries) [
    | inl (n, e) ↦ rw (evict, n) a
    | inr (k, e, rest, m, t) ↦ elim (Bool-cases (is_over c)) [
      | inr fit ↦ rw (evict, m, fit) a
      | inl over ↦
          rw (evict, m, over) (evict-AllValues P fuel (without e rest c) (Taken-rest P t a))
    ]
  ]

  -- The eviction changes the table and the bytes alone.
  pub evict_same :
      (fuel : ℕ) (c : Cache K B)
      → ((evict fuel c).max_entries ≡ c.max_entries)
        × ((evict fuel c).max_bytes ≡ c.max_bytes)
        × ((evict fuel c).max_entry_bytes ≡ c.max_entry_bytes)
        × ((evict fuel c).next_insertion_order ≡ c.next_insertion_order)
        × ((evict fuel c).closed ≡ c.closed)
  unfolding evict
  evict_same zero c = (refl, refl, refl, refl, refl)
  evict_same (suc fuel) c = elim (take_oldest-cases c.entries) [
    | inl (n, e) ↦ rw (evict, n) (refl, refl, refl, refl, refl)
    | inr (k, e, rest, m, t) ↦ elim (Bool-cases (is_over c)) [
      | inr fit ↦ rw (evict, m, fit) (refl, refl, refl, refl, refl)
      | inl over ↦ rw (evict, m, over) (evict_same fuel (without e rest c))
    ]
  ]
