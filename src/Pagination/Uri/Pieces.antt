-- ===== src/Pagination/Uri/Pieces.antt =====
-- How text is put together from the pieces that `find` and the splitting loops of
-- src/runtime/pagination/uri_reference.cpp take it apart into.
use cuac.Common.{
  ℕ, ◌≡◌, ◌⊎◌, inl, inr, refl, Bool, true, false, ◌&&◌, ◌||◌, none, some, List, [], ◌∷◌, ◌++◌, ◌==◌,
  arith, Bool-cases, ==_iff, if◌then◌else◌,
}
use cuac.Pagination.Link.Target.{has_byte}
use cuac.Pagination.Uri.Text.{find, every, split_on}

pub has_byte-append :
    (b : ℕ) (xs ys : List ℕ) → has_byte b (xs ++ ys) ≡ (has_byte b xs || has_byte b ys)
unfolding has_byte
has_byte-append b [] ys = refl
has_byte-append b (x ∷ xs) ys = ground (arith, has_byte-append b xs ys)

pub every-append : (p : ℕ → Bool) (xs ys : List ℕ) → every p (xs ++ ys) ≡ (every p xs && every p ys)
unfolding every
every-append p [] ys = refl
every-append p (x ∷ xs) ys = ground (arith, every-append p xs ys)

-- Text that passes a test has no byte that fails it.
pub every_excludes :
    (p : ℕ → Bool) (b : ℕ) (xs : List ℕ) → p b ≡ false → every p xs ≡ true → has_byte b xs ≡ false
unfolding every has_byte
every_excludes p b [] h e = refl
every_excludes p b (x ∷ xs) h e =
    let rest = every_excludes p b xs h in
    let same = ==_iff x b in
    elim (Bool-cases (x == b)) [
      | inl s ↦ let k : x ≡ b = same.0 s in ground (arith, k)
      | inr n ↦ ground arith
    ]

pub find_after :
    (b : ℕ) (xs ys : List ℕ) → has_byte b xs ≡ false → find b (xs ++ (b ∷ ys)) ≡ some (xs, ys)
unfolding has_byte find
find_after b [] ys h = ground arith
find_after b (x ∷ xs) ys h = let rest = find_after b xs ys in ground arith

pub find-none : (b : ℕ) (xs : List ℕ) → has_byte b xs ≡ false → find b xs ≡ none
unfolding has_byte find
find-none b [] h = refl
find-none b (x ∷ xs) h = let rest = find-none b xs in ground arith

-- What `find` finds in a text.
pub find-cases :
    (b : ℕ) (v : List ℕ)
    → ((find b v ≡ none) × (has_byte b v ≡ false))
      ⊎ ((before after : List ℕ) × (find b v ≡ some (before, after))
          × (v ≡ before ++ (b ∷ after))
          × (has_byte b before ≡ false))
unfolding has_byte find
find-cases b [] = inl (refl, refl)
find-cases b (c ∷ v) = elim (Bool-cases (c == b)) [
  | inl s ↦ let k : c ≡ b = (==_iff c b).0 s in inr ([], v, ground arith, rw k refl, refl)
  | inr n ↦ elim (find-cases b v) [
    | inl (e, h) ↦ inl (ground arith, ground arith)
    | inr (before, after, e, k, h) ↦ inr (c ∷ before, after, ground arith, rw k refl, ground arith)
  ]
]

-- Pieces, each behind its separator.
unfoldable pub joined : ℕ → List (List ℕ) → List ℕ
joined b [] = []
joined b (s ∷ ss) = b ∷ (s ++ joined b ss)

unfoldable pub exclude : ℕ → List (List ℕ) → Bool
exclude b [] = true
exclude b (s ∷ ss) = (if has_byte b s then false else true) && exclude b ss

pub split_on-joined :
    (b : ℕ) (s : List ℕ) (ss : List (List ℕ))
    → has_byte b s ≡ false
    → exclude b ss ≡ true
    → split_on b (s ++ joined b ss) ≡ s ∷ ss
unfolding has_byte split_on joined exclude
split_on-joined b [] [] h e = refl
split_on-joined b [] (t ∷ ts) h e = let rest = split_on-joined b t ts in ground arith
split_on-joined b (x ∷ s) ss h e = let rest = split_on-joined b s ss in ground arith

-- What a text is split into.
pub split_on-cases :
    (b : ℕ) (v : List ℕ)
    → (s : List ℕ) × (ss : List (List ℕ)) × (split_on b v ≡ s ∷ ss)
      × (v ≡ s ++ joined b ss)
      × (exclude b (s ∷ ss) ≡ true)
unfolding has_byte split_on joined exclude
split_on-cases b [] = ([], [], refl, refl, refl)
split_on-cases b (c ∷ v) =
    let (s, ss, e, k, x) = split_on-cases b v in
    elim (Bool-cases (c == b)) [
      | inl h ↦
          let same : c ≡ b = (==_iff c b).0 h in
          ([], s ∷ ss, ground arith, rw (same, k) refl, ground arith)
      | inr n ↦ (c ∷ s, ss, ground arith, rw k refl, ground arith)
    ]

pub every-joined :
    (p : ℕ → Bool) (b : ℕ) (ss : List (List ℕ))
    → p b ≡ true
    → (c : List (List ℕ) → Bool)
    → ((s : List ℕ) (rest : List (List ℕ))
        → c (s ∷ rest) ≡ true
        → (every p s ≡ true) × (c rest ≡ true))
    → c ss ≡ true
    → every p (joined b ss) ≡ true
unfolding every joined
every-joined p b [] h c g e = refl
every-joined p b (s ∷ ss) h c g e =
    let (first, later) = g s ss e in
    let rest = every-joined p b ss h c g later in
    let both = every-append p s (joined b ss) in ground arith
