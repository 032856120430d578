-- ===== src/Pagination/Uri/Hosts.antt =====
-- The literal addresses that src/runtime/pagination/uri_reference.cpp accepts are those of RFC 3986.
use cuac.Common.{
  ℕ, ◌+◌, ◌<◌, ◌≡◌, inl, inr, refl, subst, ◌∙◌, Bool, true, false, not, ◌||◌, some, List, [], ◌∷◌,
  ◌++◌, length, length-append, ltb, ◌==◌, arith, Bool-cases, Option-cases, ==_iff, absurd,
}
use cuac.Pagination.Link.Target.{is_empty}
use cuac.Pagination.Uri.Text.{
  is_ascii_digit, is_hex_digit, is_unreserved, is_sub_delimiter, every, no_pieces,
}
use cuac.Pagination.Uri.Address.{
  find_compression, count_units, split_ipv6_side, validate_ipv6_address, ipv_future_version,
  validate_ipv_future, validate_ip_literal,
}
use cuac.Pagination.Uri.Literals.{find_compression-append}
use cuac.Pagination.Uri.Literal.{
  Side, nothing, groups, Groups, Ipv6, full, compressed, IpvFuture, ipv_future, IpLiteral,
}
use cuac.Pagination.Uri.Groups.{count_units-append, split_ipv6_side-Side}
use cuac.Pagination.Uri.Compression.{Side-find_compression, Side-first_compression}
use cuac.Pagination.Uri.Segments.{Side-count_units, count_units-plus}

Side-Groups : {n : ℕ} {v : List ℕ} → Side true n v → n ≡ 8 → Groups true 8 v
Side-Groups nothing e = absurd (ground arith)
Side-Groups {v = v} (groups t) e = subst (λ m. Groups true m v) e t

-- What stands around a compression.
both_sides :
    (v before after : List ℕ) (left right : List (List ℕ)) (n : ℕ)
    → find_compression v ≡ some (before, after)
    → split_ipv6_side before ≡ some left
    → split_ipv6_side after ≡ some right
    → count_units (no_pieces right) (left ++ right) ≡ some n
    → n < 8
    → Ipv6 v
both_sides v before after left right n e l r u small =
    let (m, k, a, b, sum) = count_units-append left right n u in
    rw (find_compression-append v before after e) (
      compressed before after (split_ipv6_side-Side before left true m l a) (right_side right k r b)
        (omega (arith, small, sum)))
  where
    right_side :
        (ss : List (List ℕ)) (k : ℕ)
        → split_ipv6_side after ≡ some ss
        → count_units (no_pieces ss) ss ≡ some k
        → Side true k after
    right_side [] k e u = split_ipv6_side-Side after [] false k e (unfold count_units in u)
    right_side (s ∷ ss) k e u = split_ipv6_side-Side after (s ∷ ss) false k e u

pub validate_ipv6_address-Ipv6 : (v : List ℕ) → validate_ipv6_address v ≡ true → Ipv6 v
unfolding validate_ipv6_address
validate_ipv6_address-Ipv6 v h = elim (Option-cases (find_compression v)) [
  | inl e ↦ elim (Option-cases (split_ipv6_side v)) [
    | inl m ↦ absurd (ground arith)
    | inr (segments, m) ↦ elim (Option-cases (count_units false segments)) [
      | inl u ↦ absurd (ground arith)
      | inr (n, u) ↦ full (Side-Groups (split_ipv6_side-Side v segments false n m u) (ground arith))
    ]
  ]
  | inr ((before, after), e) ↦ elim (Option-cases (find_compression after)) [
    | inr (x, f) ↦ absurd (ground arith)
    | inl f ↦ elim (Option-cases (split_ipv6_side before)) [
      | inl m ↦ absurd (ground arith)
      | inr (left, l) ↦ elim (Option-cases (split_ipv6_side after)) [
        | inl m ↦ absurd (ground arith)
        | inr (right, r) ↦ elim (Option-cases (count_units (no_pieces right) (left ++ right))) [
          | inl u ↦ absurd (ground arith)
          | inr (n, u) ↦ both_sides v before after left right n e l r u (ground arith)
        ]
      ]
    ]
  ]
]

pub Ipv6-validate_ipv6_address : {v : List ℕ} → Ipv6 v → validate_ipv6_address v ≡ true
unfolding validate_ipv6_address
Ipv6-validate_ipv6_address (full {v} t) =
    let none_found = Side-find_compression (groups t) in
    let (ss, split, u, w) = Side-count_units (groups t) in
    rw (validate_ipv6_address, none_found, split, u) refl
Ipv6-validate_ipv6_address (compressed {m} {n} l r s t small) =
    let first = Side-first_compression r s in
    let second = Side-find_compression t in
    let (left, sl, ul, wl) = Side-count_units s in
    let (right, sr, ur, wr) = Side-count_units t in
    let units = count_units-plus (no_pieces right) left right m n ul (wr ∙ ur) in
    let fits : ltb (m + n) 8 ≡ true = ground arith in
    rw (validate_ipv6_address, first, second, sl, sr, units) fits

version-cases :
    (seen : Bool) (v : List ℕ)
    → ipv_future_version seen v ≡ true
    → (hs : List ℕ) × (c : ℕ) × (cs : List ℕ) × (v ≡ hs ++ (b'.' ∷ c ∷ cs))
      × (every is_hex_digit hs ≡ true)
      × ((seen || not (is_empty hs)) ≡ true)
      × (every (λ b. is_unreserved b || is_sub_delimiter b || b == b':') (c ∷ cs) ≡ true)
unfolding ipv_future_version every
version-cases seen [] h = absurd (ground arith)
version-cases seen (x ∷ v) h = elim (Bool-cases (is_hex_digit x)) [
  | inl hex ↦
      let (hs, c, cs, k, e, s, t) = version-cases true v (ground arith) in
      (x ∷ hs, c, cs, rw k refl, ground arith, ground arith, t)
  | inr other ↦
      let dot : x ≡ b'.' = (==_iff x b'.').0 (ground arith) in
      rw dot (last v (ground arith) (ground arith) (ground arith))
]
  where
    last :
        (v : List ℕ)
        → is_empty v ≡ false
        → every (λ b. is_unreserved b || is_sub_delimiter b || b == b':') v ≡ true
        → seen ≡ true
        → (hs : List ℕ) × (c : ℕ) × (cs : List ℕ) × (b'.' ∷ v ≡ hs ++ (b'.' ∷ c ∷ cs))
          × (every is_hex_digit hs ≡ true)
          × ((seen || not (is_empty hs)) ≡ true)
          × (every (λ b. is_unreserved b || is_sub_delimiter b || b == b':') (c ∷ cs) ≡ true)
    last [] f e s = absurd (ground arith)
    last (c ∷ cs) f e s = ([], c, cs, refl, refl, ground arith, e)

version-valid :
    (seen : Bool) (hs : List ℕ) (c : ℕ) (cs : List ℕ)
    → every is_hex_digit hs ≡ true
    → (seen || not (is_empty hs)) ≡ true
    → every (λ b. is_unreserved b || is_sub_delimiter b || b == b':') (c ∷ cs) ≡ true
    → ipv_future_version seen (hs ++ (b'.' ∷ c ∷ cs)) ≡ true
unfolding ipv_future_version every
version-valid seen [] c cs h s t = unfold is_hex_digit is_ascii_digit in ground arith
version-valid seen (x ∷ hs) c cs h s t =
    let rest = version-valid true hs c cs (ground arith) refl t in ground arith

IpvFuture-valid : {v : List ℕ} → IpvFuture v → validate_ipv_future v ≡ true
unfolding validate_ipv_future
IpvFuture-valid (ipv_future v h hs c cs e x t) =
    let rest = version-valid false (h ∷ hs) c cs x refl t in
    let long = length-append hs (b'.' ∷ c ∷ cs) in
    let enough : ltb (length ((h ∷ hs) ++ (b'.' ∷ c ∷ cs))) 3 ≡ false = ground arith in
    rw (validate_ipv_future, enough, e) rest

validate_ipv_future-IpvFuture : (v : List ℕ) → validate_ipv_future v ≡ true → IpvFuture v
unfolding validate_ipv_future
validate_ipv_future-IpvFuture [] h = absurd (ground arith)
validate_ipv_future-IpvFuture (v ∷ rest) h =
    let (hs, c, cs, k, e, s, t) = version-cases false rest (ground arith) in
    rw k (made hs c cs (ground arith) e s t)
  where
    made :
        (hs : List ℕ) (c : ℕ) (cs : List ℕ)
        → (v == b'v' || v == b'V') ≡ true
        → every is_hex_digit hs ≡ true
        → (false || not (is_empty hs)) ≡ true
        → every (λ b. is_unreserved b || is_sub_delimiter b || b == b':') (c ∷ cs) ≡ true
        → IpvFuture (v ∷ (hs ++ (b'.' ∷ c ∷ cs)))
    made [] c cs n e s t = absurd (ground arith)
    made (x ∷ hs) c cs n e s t = ipv_future v x hs c cs n e t

pub validate_ip_literal-IpLiteral : (l : List ℕ) → validate_ip_literal l ≡ true → IpLiteral l
unfolding validate_ip_literal
validate_ip_literal-IpLiteral l h = elim (Bool-cases (validate_ipv6_address l)) [
  | inl e ↦ inl (validate_ipv6_address-Ipv6 l e)
  | inr other ↦ inr (validate_ipv_future-IpvFuture l (ground arith))
]

pub IpLiteral-validate_ip_literal : {l : List ℕ} → IpLiteral l → validate_ip_literal l ≡ true
unfolding validate_ip_literal
IpLiteral-validate_ip_literal (inl t) = let valid = Ipv6-validate_ipv6_address t in ground arith
IpLiteral-validate_ip_literal (inr t) = let valid = IpvFuture-valid t in ground arith
