-- ===== src/Resilience/Coordinator/Holds.antt =====
-- The permit of a key in the table of buckets.
use cuac.Common.{
  ◌≡◌, inl, inr, refl, sym, ap, ◌∙◌, Bool, true, false, Option, none, some, List, [], ◌∷◌,
  if◌then◌else◌, Bool-cases, arith, absurd,
}
use cuac.Resilience.Coordinator.Buckets.{find, put, erase}
use cuac.Resilience.Coordinator.State.{BucketState, cleared}

-- What the table relies on: the comparison of keys is symmetric and transitive.
pub record IsKeyEquality {K : Type 0} (same_key : K → K → Bool) : Type 0 where
  pub symmetric : (a b : K) → same_key a b ≡ true → same_key b a ≡ true
  pub transitive : (a b c : K) → same_key a b ≡ true → same_key b c ≡ true → same_key a c ≡ true

abbrev pub held : Option BucketState → Bool
held none = false
held (some b) = b.permitted

module _ {K : Type 0} (same_key : K → K → Bool) (laws : IsKeyEquality same_key) where
  -- The bucket of the key is in the table, and its permit is held.
  abbrev pub Holds : K → List (K × BucketState) → Type 0
  Holds j m = held (find same_key j m) ≡ true

  pub find_same :
      (k j : K) (m : List (K × BucketState))
      → same_key k j ≡ true
      → find same_key k m ≡ find same_key j m
  unfolding find
  find_same k j [] e = refl
  find_same k j ((i, u) ∷ m) e =
      ground
        (arith, find_same k j m e, laws.transitive i k j, laws.transitive i j k, laws.symmetric k j)

  pub find-put :
      (k j : K) (b : BucketState) (m : List (K × BucketState))
      → find same_key j (put same_key k b m) ≡ (if same_key k j then some b else find same_key j m)
  unfolding find put
  find-put k j b [] = refl
  find-put k j b ((i, u) ∷ m) = ground (
    arith,
    find-put k j b m,
    laws.transitive i k j,
    laws.transitive k i j,
    laws.transitive i j k,
    laws.symmetric i k,
    laws.symmetric k j,
  )

  pub find-erase_other :
      (k j : K) (m : List (K × BucketState))
      → same_key k j ≡ false
      → find same_key j (erase same_key k m) ≡ find same_key j m
  unfolding find erase
  find-erase_other k j [] e = refl
  find-erase_other k j ((i, u) ∷ m) e =
      ground (arith, find-erase_other k j m e, laws.transitive k i j, laws.symmetric i k)

  pub put_old-Holds :
      (k j : K) (b b' : BucketState) (m : List (K × BucketState))
      → find same_key k m ≡ some b
      → (b.permitted ≡ true → b'.permitted ≡ true)
      → Holds j m
      → Holds j (put same_key k b' m)
  put_old-Holds k j b b' m found keep h = elim (Bool-cases (same_key k j)) [
    | inl e ↦
        let same : find same_key j m ≡ some b = sym (find_same k j m e) ∙ found in
        rw (find-put k j b' m, e) (keep (sym (ap held same) ∙ h))
    | inr e ↦ rw (find-put k j b' m, e) h
  ]

  pub put_new-Holds :
      (k j : K) (b' : BucketState) (m : List (K × BucketState))
      → find same_key k m ≡ none
      → Holds j m
      → Holds j (put same_key k b' m)
  put_new-Holds k j b' m missing h = elim (Bool-cases (same_key k j)) [
    | inl e ↦
        let same : find same_key j m ≡ none = sym (find_same k j m e) ∙ missing in
        absurd (ground (arith, ap held same, h))
    | inr e ↦ rw (find-put k j b' m, e) h
  ]

  pub erase-Holds :
      (k j : K) (b : BucketState) (m : List (K × BucketState))
      → find same_key k m ≡ some b
      → b.permitted ≡ false
      → Holds j m
      → Holds j (erase same_key k m)
  erase-Holds k j b m found free h = elim (Bool-cases (same_key k j)) [
    | inl e ↦
        let same : find same_key j m ≡ some b = sym (find_same k j m e) ∙ found in
        absurd (ground (arith, ap held same, h))
    | inr e ↦ rw (find-erase_other k j m e) h
  ]

  pub cleared-Holds : (j : K) (m : List (K × BucketState)) → Holds j m → Holds j (cleared m)
  unfolding find cleared
  cleared-Holds j [] h = h
  cleared-Holds j ((i, u) ∷ m) h = ground (arith, cleared-Holds j m)
