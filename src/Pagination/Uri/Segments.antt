-- ===== src/Pagination/Uri/Segments.antt =====
-- How the groups of an IPv6 address are split and counted, src/runtime/pagination/uri_reference.cpp
-- against the grammar.
use cuac.Common.{
  ℕ, suc, ◌+◌, ◌≡◌, inl, inr, refl, ap, sym, ◌∙◌, Bool, true, false, not, some, List, [], ◌∷◌, ◌++◌,
  arith, Bool-cases, Option-cases, absurd,
}
use mathlib.Core.List.{append-nil}
use cuac.Pagination.Link.Target.{has_byte, is_empty}
use cuac.Pagination.Uri.Text.{no_pieces, split_on}
use cuac.Pagination.Uri.Address.{is_group, count_units, split_ipv6_side, none_empty}
use cuac.Pagination.Uri.Pieces.{joined, exclude, split_on-joined}
use cuac.Pagination.Uri.Literal.{Groups, group, two_groups, more, Side, nothing, groups}
use cuac.Pagination.Uri.Octets.{Ipv4-validate_ipv4_address, Ipv4-no_colon, Ipv4-dotted}
use cuac.Pagination.Uri.Groups.{group-no_dot, group-no_colon}
use cuac.Pagination.Uri.Compression.{dotted-full, group-full, Groups-begins}

-- The segments of groups.
abbrev Segmented : Bool → ℕ → List ℕ → Type 0
Segmented a n p =
    (s : List ℕ) × (ss : List (List ℕ)) × (p ≡ s ++ joined b':' ss)
    × (has_byte b':' s ≡ false)
    × (exclude b':' ss ≡ true)
    × (none_empty (s ∷ ss) ≡ true)
    × (count_units (not a) (s ∷ ss) ≡ some n)

count_units_more :
    (follows : Bool) (g s : List ℕ) (ss : List (List ℕ)) (n : ℕ)
    → is_group g ≡ true
    → has_byte b'.' g ≡ false
    → count_units follows (s ∷ ss) ≡ some n
    → count_units follows (g ∷ s ∷ ss) ≡ some (suc n)
unfolding count_units
count_units_more follows g s ss n h dots u = ground arith

Groups-Segmented : {a : Bool} {n : ℕ} {p : List ℕ} → Groups a n p → Segmented a n p
unfolding joined exclude count_units
Groups-Segmented {p = p} (group h) =
    let full = group-full p h in
    let dots = group-no_dot p h in
    (p, [], sym (append-nil p), group-no_colon p h, refl, ground arith, ground arith)
Groups-Segmented {a} {p = p} (two_groups e t) =
    let full = dotted-full p (Ipv4-dotted t) in
    let dots = Ipv4-dotted t in
    let valid = Ipv4-validate_ipv4_address t in
    (p, [], sym (append-nil p), Ipv4-no_colon t, refl, ground arith, ground arith)
Groups-Segmented {a} (more {n} g p h t) =
    let (s, ss, k, c, x, f, u) = Groups-Segmented t in
    let full = group-full g h in
    let dots = group-no_dot g h in
    (
      g,
      s ∷ ss,
      rw k refl,
      group-no_colon g h,
      ground arith,
      ground arith,
      count_units_more (not a) g s ss n h dots u,
    )

split_full :
    (v : List ℕ) (s : List ℕ) (ss : List (List ℕ))
    → split_on b':' v ≡ s ∷ ss
    → is_empty v ≡ false
    → none_empty (s ∷ ss) ≡ true
    → split_ipv6_side v ≡ some (s ∷ ss)
unfolding split_ipv6_side
split_full [] s ss e h f = absurd (ground arith)
split_full (c ∷ cs) s ss e h f = rw (split_ipv6_side, e, f) refl

-- How a side is split, and its units counted, where the flag is that of the side, or the side is empty.
pub Side-count_units :
    {a : Bool} {n : ℕ} {p : List ℕ}
    → Side a n p
    → (ss : List (List ℕ)) × (split_ipv6_side p ≡ some ss)
      × (count_units (not a) ss ≡ some n)
      × (count_units (no_pieces ss) ss ≡ count_units (not true) ss)
unfolding count_units
Side-count_units nothing = ([], unfold split_ipv6_side in refl, refl, refl)
Side-count_units {p = p} (groups t) =
    let (s, ss, k, c, x, f, u) = Groups-Segmented t in
    let (full, start) = Groups-begins [] t in
    let split : split_on b':' p ≡ s ∷ ss = ap (split_on b':') k ∙ split_on-joined b':' s ss c x in
    (s ∷ ss, split_full p s ss split (ap is_empty (sym (append-nil p)) ∙ full) f, u, refl)

pub count_units-plus :
    (f : Bool) (left right : List (List ℕ)) (m k : ℕ)
    → count_units true left ≡ some m
    → count_units f right ≡ some k
    → count_units f (left ++ right) ≡ some (m + k)
unfolding count_units
count_units-plus f [] right m k h e = ground arith
count_units-plus f (s ∷ left) right m k h e = elim (Bool-cases (has_byte b'.' s)) [
  | inl dotted ↦ absurd (ground arith)
  | inr plain ↦ elim (Bool-cases (is_group s)) [
    | inr bad ↦ absurd (ground arith)
    | inl valid ↦ elim (Option-cases (count_units true left)) [
      | inl n ↦ absurd (ground arith)
      | inr (i, n) ↦ let rest = count_units-plus f left right i k n e in ground arith
    ]
  ]
]
