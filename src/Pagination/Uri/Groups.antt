-- ===== src/Pagination/Uri/Groups.antt =====
-- The groups of an IPv6 address, src/runtime/pagination/uri_reference.cpp against the grammar.
use cuac.Common.{
  ℕ, suc, ◌+◌, ◌≡◌, inl, inr, refl, ap, sym, subst, ◌∙◌, Bool, true, false, not, some, List, [],
  ◌∷◌, ◌++◌, arith, Bool-cases, Option-cases, absurd,
}
use mathlib.Core.List.{append-nil}
use cuac.Pagination.Link.Target.{has_byte}
use cuac.Pagination.Uri.Text.{is_hex_digit, is_ascii_digit, no_pieces}
use cuac.Pagination.Uri.Address.{is_group, count_units, split_ipv6_side, validate_ipv4_address}
use cuac.Pagination.Uri.Pieces.{every_excludes, joined, split_on-cases}
use cuac.Pagination.Uri.Literal.{Groups, group, two_groups, more, Side, nothing, groups}
use cuac.Pagination.Uri.Octets.{validate_ipv4_address-Ipv4}

group_without :
    (b : ℕ) (g : List ℕ) → is_hex_digit b ≡ false → is_group g ≡ true → has_byte b g ≡ false
unfolding is_group
group_without b g n h = every_excludes is_hex_digit b g n (ground arith)

pub group-no_dot : (g : List ℕ) → is_group g ≡ true → has_byte b'.' g ≡ false
group-no_dot g h = group_without b'.' g (unfold is_hex_digit is_ascii_digit in refl) h

pub group-no_colon : (g : List ℕ) → is_group g ≡ true → has_byte b':' g ≡ false
group-no_colon g h = group_without b':' g (unfold is_hex_digit is_ascii_digit in refl) h

-- The segments counted are groups, with an address for the last two perhaps, if no compression is at
-- the end.
pub count_units-Groups :
    (follows : Bool) (s : List ℕ) (ss : List (List ℕ)) (n : ℕ)
    → count_units follows (s ∷ ss) ≡ some n
    → Groups (not follows) n (s ++ joined b':' ss)
unfolding count_units joined
count_units-Groups follows s [] n h = elim (Bool-cases (has_byte b'.' s)) [
  | inl dotted ↦ elim (Bool-cases (validate_ipv4_address s)) [
    | inl valid ↦
        let two : 2 ≡ n = ground arith in
        rw append-nil (
          subst (λ m. Groups (not follows) m s) two
            (two_groups (ground arith) (validate_ipv4_address-Ipv4 s valid)))
    | inr bad ↦ absurd (ground arith)
  ]
  | inr plain ↦ elim (Bool-cases (is_group s)) [
    | inl valid ↦
        let one : 1 ≡ n = ground arith in
        rw append-nil (subst (λ m. Groups (not follows) m s) one (group valid))
    | inr bad ↦ absurd (ground arith)
  ]
]
count_units-Groups follows s (t ∷ ts) n h = elim (Bool-cases (has_byte b'.' s)) [
  | inl dotted ↦ absurd (ground arith)
  | inr plain ↦ elim (Bool-cases (is_group s)) [
    | inr bad ↦ absurd (ground arith)
    | inl valid ↦ elim (Option-cases (count_units follows (t ∷ ts))) [
      | inl m ↦ absurd (ground arith)
      | inr (k, m) ↦
          let rest = count_units-Groups follows t ts k m in
          let next : suc k ≡ n = ground arith in
          subst (λ i. Groups (not follows) i (s ++ (b':' ∷ (t ++ joined b':' ts)))) next
            (more s (t ++ joined b':' ts) valid rest)
    ]
  ]
]

-- Nothing before a compression, and nothing before the segments behind it, is an address.
pub count_units-append :
    (left right : List (List ℕ)) (n : ℕ)
    → count_units (no_pieces right) (left ++ right) ≡ some n
    → (m k : ℕ) × (count_units true left ≡ some m)
      × (count_units (no_pieces right) right ≡ some k)
      × (n ≡ m + k)
unfolding count_units
count_units-append [] right n h = (0, n, refl, h, omega arith)
count_units-append (s ∷ left) right n h = elim (Bool-cases (has_byte b'.' s)) [
  | inl dotted ↦ absurd (last left right h dotted)
  | inr plain ↦ elim (Bool-cases (is_group s)) [
    | inr bad ↦ absurd (ground arith)
    | inl valid ↦ elim (Option-cases (count_units (no_pieces right) (left ++ right))) [
      | inl e ↦ absurd (ground arith)
      | inr (i, e) ↦
          let (m, k, a, b, c) = count_units-append left right i e in
          (suc m, k, ground arith, b, ground arith)
    ]
  ]
]
  where
    last :
        (left right : List (List ℕ))
        → count_units (no_pieces right) (s ∷ (left ++ right)) ≡ some n
        → has_byte b'.' s ≡ true
        → ⊥
    last [] [] h d = ground arith
    last [] (t ∷ ts) h d = ground arith
    last (l ∷ ls) right h d = ground arith

-- What a side is split into.
pub split_ipv6_side-Side :
    (v : List ℕ) (ss : List (List ℕ)) (follows : Bool) (n : ℕ)
    → split_ipv6_side v ≡ some ss
    → count_units follows ss ≡ some n
    → Side (not follows) n v
unfolding split_ipv6_side
split_ipv6_side-Side [] ss follows n e h =
    let empty : ss ≡ [] = ground arith in
    let zeros : 0 ≡ n = none_counted ss empty h in
    subst (λ i. Side (not follows) i []) zeros nothing
  where
    none_counted : (ss : List (List ℕ)) → ss ≡ [] → count_units follows ss ≡ some n → 0 ≡ n
    none_counted [] e h = unfold count_units in ground arith
    none_counted (s ∷ ss) e h = ground arith
split_ipv6_side-Side (c ∷ cs) ss follows n e h =
    let (s, rest, split, k, x) = split_on-cases b':' (c ∷ cs) in
    let same : ss ≡ s ∷ rest = ground arith in
    let counted : count_units follows (s ∷ rest) ≡ some n =
      ap (count_units follows) (sym same) ∙ h in
    rw k (groups (count_units-Groups follows s rest n counted))
