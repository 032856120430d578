-- ===== src/Pagination/Uri/Literals.antt =====
-- The characters of a literal address that src/runtime/pagination/uri_reference.cpp accepts.
use cuac.Common.{
  ℕ, ◌≡◌, ◌⊎◌, inl, inr, refl, ap, sym, ◌∙◌, Bool, true, false, ◌&&◌, ◌||◌, none, some, List, [],
  ◌∷◌, ◌++◌, ◌==◌, arith, Bool-cases, absurd, Option-cases,
}
use cuac.Pagination.Link.Target.{has_byte}
use cuac.Pagination.Uri.Text.{
  is_ascii_alpha, is_ascii_digit, is_hex_digit, is_unreserved, is_sub_delimiter, every, split_on,
  no_pieces,
}
use cuac.Pagination.Uri.Address.{
  validate_decimal_octet, all_octets, validate_ipv4_address, split_ipv6_side, find_compression,
  is_group, count_units, validate_ipv6_address, ipv_future_version, validate_ipv_future,
  validate_ip_literal,
}
use cuac.Pagination.Uri.Pieces.{every-append, joined, split_on-cases, every-joined}

unfoldable pub is_literal_character : ℕ → Bool
is_literal_character b = is_unreserved b || is_sub_delimiter b || b == b':'

every_mono :
    (p q : ℕ → Bool) (xs : List ℕ)
    → ((c : ℕ) → p c ≡ true → q c ≡ true)
    → every p xs ≡ true
    → every q xs ≡ true
unfolding every
every_mono p q [] h e = refl
every_mono p q (x ∷ xs) h e =
    let rest = every_mono p q xs h (ground arith) in let here = h x (ground arith) in ground arith

digit_literal : (c : ℕ) → is_ascii_digit c ≡ true → is_literal_character c ≡ true
unfolding is_literal_character is_unreserved
digit_literal c h = ground arith

hex_literal : (c : ℕ) → is_hex_digit c ≡ true → is_literal_character c ≡ true
unfolding is_literal_character is_unreserved is_hex_digit is_ascii_alpha is_ascii_digit
hex_literal c h = ground arith

all_literal : List (List ℕ) → Bool
all_literal [] = true
all_literal (s ∷ ss) = every is_literal_character s && all_literal ss

all_literal-append :
    (xs ys : List (List ℕ)) → all_literal (xs ++ ys) ≡ (all_literal xs && all_literal ys)
unfolding all_literal
all_literal-append [] ys = refl
all_literal-append (x ∷ xs) ys = ground (arith, all_literal-append xs ys)

split_on-every :
    (b : ℕ) (v : List ℕ)
    → is_literal_character b ≡ true
    → all_literal (split_on b v) ≡ true
    → every is_literal_character v ≡ true
unfolding all_literal
split_on-every b v h e =
    let (s, ss, split, k, x) = split_on-cases b v in
    let all : all_literal (s ∷ ss) ≡ true = ap all_literal (sym split) ∙ e in
    let rest =
      every-joined is_literal_character b ss h all_literal (λ t ts a. (ground arith, ground arith))
        (ground arith) in
    ap (every is_literal_character) k
    ∙ every-append is_literal_character s (joined b ss)
    ∙ ground arith

all_octets-all_literal : (os : List (List ℕ)) → all_octets os ≡ true → all_literal os ≡ true
unfolding all_octets validate_decimal_octet all_literal
all_octets-all_literal [] h = refl
all_octets-all_literal (o ∷ os) h =
    let rest = all_octets-all_literal os (ground arith) in
    let here = every_mono is_ascii_digit is_literal_character o digit_literal (ground arith) in
    ground arith

ipv4-every : (v : List ℕ) → validate_ipv4_address v ≡ true → every is_literal_character v ≡ true
unfolding validate_ipv4_address
ipv4-every v h =
    split_on-every b'.' v
      (unfold is_literal_character is_unreserved is_ascii_alpha is_ascii_digit in refl)
      (all_octets-all_literal (split_on b'.' v) (ground arith))

count_units-all_literal :
    (follows : Bool) (ss : List (List ℕ)) (n : ℕ)
    → count_units follows ss ≡ some n
    → all_literal ss ≡ true
unfolding count_units all_literal is_group
count_units-all_literal follows [] n e = refl
count_units-all_literal follows (s ∷ ss) n e = elim (Bool-cases (has_byte b'.' s)) [
  | inl dotted ↦ last ss e dotted
  | inr plain ↦ elim (Option-cases (count_units follows ss)) [
    | inl m ↦ absurd (ground arith)
    | inr (k, m) ↦
        let rest = count_units-all_literal follows ss k m in
        let here = every_mono is_hex_digit is_literal_character s hex_literal (ground arith) in
        ground arith
  ]
]
  where
    last :
        (ts : List (List ℕ))
        → count_units follows (s ∷ ts) ≡ some n
        → has_byte b'.' s ≡ true
        → all_literal (s ∷ ts) ≡ true
    last [] e d = let here = ipv4-every s (ground arith) in ground arith
    last (t ∷ ts) e d = absurd (ground arith)

split_ipv6_side-every :
    (v : List ℕ) (ss : List (List ℕ))
    → split_ipv6_side v ≡ some ss
    → all_literal ss ≡ true
    → every is_literal_character v ≡ true
unfolding split_ipv6_side every is_ascii_alpha is_ascii_digit
split_ipv6_side-every [] ss e h = refl
split_ipv6_side-every (c ∷ cs) ss e h =
    split_on-every b':' (c ∷ cs)
      (unfold is_literal_character is_unreserved is_sub_delimiter in refl) (ground arith)

pub find_compression-append :
    (v before after : List ℕ)
    → find_compression v ≡ some (before, after)
    → v ≡ before ++ (b':' ∷ b':' ∷ after)
unfolding find_compression
find_compression-append [] before after e = absurd (ground arith)
find_compression-append (c ∷ []) before after e = absurd (ground arith)
find_compression-append (c ∷ d ∷ cs) before after e = elim (Bool-cases (c == b':' && d == b':')) [
  | inl h ↦ ground arith
  | inr n ↦ elim (Option-cases (find_compression (d ∷ cs))) [
    | inl m ↦ absurd (ground arith)
    | inr ((x, y), m) ↦ let rest = find_compression-append (d ∷ cs) x y m in ground arith
  ]
]

colons :
    (v : List ℕ)
    → every is_literal_character v ≡ true
    → every is_literal_character (b':' ∷ b':' ∷ v) ≡ true
unfolding every is_literal_character is_unreserved is_sub_delimiter is_ascii_alpha is_ascii_digit
colons v h = ground arith

ipv6-every : (v : List ℕ) → validate_ipv6_address v ≡ true → every is_literal_character v ≡ true
unfolding validate_ipv6_address
ipv6-every v h = elim (Option-cases (find_compression v)) [
  | inl e ↦ elim (Option-cases (split_ipv6_side v)) [
    | inl m ↦ absurd (ground arith)
    | inr (segments, m) ↦ elim (Option-cases (count_units false segments)) [
      | inl u ↦ absurd (ground arith)
      | inr (n, u) ↦ split_ipv6_side-every v segments m (count_units-all_literal false segments n u)
    ]
  ]
  | inr ((before, after), e) ↦ elim (Option-cases (split_ipv6_side before)) [
    | inl m ↦ absurd (sides before after e (inl m))
    | inr (left, l) ↦ elim (Option-cases (split_ipv6_side after)) [
      | inl m ↦ absurd (sides before after e (inr m))
      | inr (right, r) ↦ both before after left right e l r
    ]
  ]
]
  where
    sides :
        (before after : List ℕ)
        → find_compression v ≡ some (before, after)
        → (split_ipv6_side before ≡ none) ⊎ (split_ipv6_side after ≡ none)
        → ⊥
    sides before after e m = elim (Option-cases (find_compression after)) [
      | inr (x, f) ↦ ground arith
      | inl f ↦ elim m [
        | inl k ↦ ground arith
        | inr k ↦ elim (Option-cases (split_ipv6_side before)) [
          | inl g ↦ ground arith
          | inr (y, g) ↦ ground arith
        ]
      ]
    ]

    both :
        (before after : List ℕ) (left right : List (List ℕ))
        → find_compression v ≡ some (before, after)
        → split_ipv6_side before ≡ some left
        → split_ipv6_side after ≡ some right
        → every is_literal_character v ≡ true
    both before after left right e l r = elim (Option-cases (find_compression after)) [
      | inr (x, f) ↦ absurd (ground arith)
      | inl f ↦ elim (Option-cases (count_units (no_pieces right) (left ++ right))) [
        | inl u ↦ absurd (ground arith)
        | inr (n, u) ↦
            let all = count_units-all_literal (no_pieces right) (left ++ right) n u in
            let parts = all_literal-append left right in
            let first = split_ipv6_side-every before left l (ground arith) in
            let second = split_ipv6_side-every after right r (ground arith) in
            ap (every is_literal_character) (find_compression-append v before after e)
            ∙ every-append is_literal_character before (b':' ∷ b':' ∷ after)
            ∙ rw first (colons after second)
      ]
    ]

ipv_future_version-every :
    (seen : Bool) (v : List ℕ)
    → ipv_future_version seen v ≡ true
    → every is_literal_character v ≡ true
unfolding ipv_future_version every
ipv_future_version-every seen [] h = refl
ipv_future_version-every seen (c ∷ cs) h = elim (Bool-cases (is_hex_digit c)) [
  | inl x ↦
      let rest = ipv_future_version-every true cs (ground arith) in
      let here = hex_literal c x in ground arith
  | inr n ↦ unfold is_literal_character is_unreserved in ground arith
]

ipv_future-every : (v : List ℕ) → validate_ipv_future v ≡ true → every is_literal_character v ≡ true
unfolding validate_ipv_future every is_literal_character is_unreserved is_ascii_alpha
ipv_future-every [] h = refl
ipv_future-every (v ∷ rest) h =
    let others = ipv_future_version-every false rest (ground arith) in ground arith

pub ip_literal-every :
    (v : List ℕ) → validate_ip_literal v ≡ true → every is_literal_character v ≡ true
unfolding validate_ip_literal
ip_literal-every v h = elim (Bool-cases (validate_ipv6_address v)) [
  | inl e ↦ ipv6-every v e
  | inr n ↦ ipv_future-every v (ground arith)
]

pub empty_refused : validate_ip_literal [] ≡ false
unfolding validate_ip_literal validate_ipv6_address validate_ipv_future find_compression
    split_ipv6_side count_units
empty_refused = refl
