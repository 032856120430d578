-- ===== src/Resilience/Coordinator/Buckets.antt =====
-- The table of buckets, `std::unordered_map` in src/runtime/resilience/rate_limit_coordinator.cpp, as an
-- association list. The comparison of keys is a parameter.
use cuac.Common.{
  ℕ, ◌+◌, ◌≡◌, subst, inl, inr, Bool, Option, none, some, List, [], ◌∷◌, arith, if◌then◌else◌,
  Bool-cases,
}

module _ {K : Type 0} {V : Type 0} where
  -- The sum of a measure over the table.
  abbrev pub total : (V → ℕ) → List (K × V) → ℕ
  total weight [] = 0
  total weight ((j, v) ∷ m) = weight v + total weight m

  abbrev pub AllValues : (V → Type 0) → List (K × V) → Type 0
  AllValues P [] = Unit
  AllValues P ((j, v) ∷ m) = P v × AllValues P m

  pub AllValues-map :
      (P Q : V → Type 0)
      → ((v : V) → P v → Q v)
      → (m : List (K × V)) → AllValues P m
      → AllValues Q m
  AllValues-map P Q f [] h = tt
  AllValues-map P Q f ((j, v) ∷ m) h = (f v h.0, AllValues-map P Q f m h.1)

module _ {K : Type 0} {V : Type 0} (same_key : K → K → Bool) where
  unfoldable pub find : K → List (K × V) → Option V
  find k [] = none
  find k ((j, v) ∷ m) = let rest = find k m in if same_key j k then some v else rest

  -- A new value for the key, which stands last if it is new.
  unfoldable pub put : K → V → List (K × V) → List (K × V)
  put k v [] = (k, v) ∷ []
  put k v ((j, w) ∷ m) = let rest = put k v m in if same_key j k then (j, v) ∷ m else (j, w) ∷ rest

  unfoldable pub erase : K → List (K × V) → List (K × V)
  erase k [] = []
  erase k ((j, w) ∷ m) = let rest = erase k m in if same_key j k then m else (j, w) ∷ rest

  module _ (weight : V → ℕ) where
    pub total-put_old :
        (k : K) (v w : V) (m : List (K × V))
        → find k m ≡ some v
        → total weight (put k w m) + weight v ≡ total weight m + weight w
    unfolding find put
    total-put_old k v w [] e = ground arith
    total-put_old k v w ((j, u) ∷ m) e = ground (arith, total-put_old k v w m)

    pub total-put_new :
        (k : K) (w : V) (m : List (K × V))
        → find k m ≡ none
        → total weight (put k w m) ≡ total weight m + weight w
    unfolding find put
    total-put_new k w [] e = ground arith
    total-put_new k w ((j, u) ∷ m) e = ground (arith, total-put_new k w m)

    pub total-erase :
        (k : K) (v : V) (m : List (K × V))
        → find k m ≡ some v
        → total weight (erase k m) + weight v ≡ total weight m
    unfolding find erase
    total-erase k v [] e = ground arith
    total-erase k v ((j, u) ∷ m) e = ground (arith, total-erase k v m)

  pub find-put_old :
      (k : K) (v w : V) (m : List (K × V)) → find k m ≡ some v → find k (put k w m) ≡ some w
  unfolding find put
  find-put_old k v w [] e = ground arith
  find-put_old k v w ((j, u) ∷ m) e = ground (arith, find-put_old k v w m)

  module _ (P : V → Type 0) where
    pub AllValues-find :
        (k : K) (v : V) (m : List (K × V)) → AllValues P m → find k m ≡ some v → P v
    unfolding find
    AllValues-find k v [] h e = ground arith
    AllValues-find k v ((j, u) ∷ m) h e = elim (Bool-cases (same_key j k)) [
      | inl s ↦ let same : u ≡ v = ground arith in subst P same h.0
      | inr s ↦ AllValues-find k v m h.1 (ground arith)
    ]

    pub AllValues-put :
        (k : K) (w : V) (m : List (K × V)) → AllValues P m → P w → AllValues P (put k w m)
    unfolding put
    AllValues-put k w [] h p = (p, tt)
    AllValues-put k w ((j, u) ∷ m) h p = elim (Bool-cases (same_key j k)) [
      | inl s ↦ rw s (p, h.1)
      | inr s ↦ rw s (h.0, AllValues-put k w m h.1 p)
    ]

    pub AllValues-erase : (k : K) (m : List (K × V)) → AllValues P m → AllValues P (erase k m)
    unfolding erase
    AllValues-erase k [] h = tt
    AllValues-erase k ((j, u) ∷ m) h = elim (Bool-cases (same_key j k)) [
      | inl s ↦ rw s h.1
      | inr s ↦ rw s (h.0, AllValues-erase k m h.1)
    ]
