-- ===== src/Pagination/Uri/Components.antt =====
-- Components and segments: `ValidateComponent` and `ValidatePathCharacters` of
-- src/runtime/pagination/uri_reference.cpp against the grammar.
use cuac.Common.{
  ℕ, ◌≡◌, inl, inr, refl, ap, sym, ◌∙◌, true, false, List, [], ◌∷◌, ◌++◌, ◌==◌, arith, Bool-cases,
  ==_iff,
}
use mathlib.Core.List.{append-nil}
use cuac.Pagination.Link.Target.{has_byte}
use cuac.Pagination.Uri.Text.{
  is_ascii_alpha, is_ascii_digit, is_hex_digit, is_unreserved, is_sub_delimiter, ComponentKind,
  pchar, is_plain_component_character, is_allowed, validate_component,
}
use cuac.Pagination.Uri.Reference.{validate_path_characters, all_segments, first_segment}
use cuac.Pagination.Uri.Pieces.{
  find_after, find-none, joined, exclude, split_on-joined, split_on-cases,
}
use cuac.Pagination.Uri.Grammar.{Chars, done, plain, encoded, Segments, no_segment, segment}

percent : (kind : ComponentKind) → is_plain_component_character kind b'%' ≡ false
unfolding is_plain_component_character is_unreserved is_sub_delimiter is_allowed is_ascii_alpha
    is_ascii_digit
percent ComponentKind.pchar = refl
percent ComponentKind.query_or_fragment = refl
percent ComponentKind.user_info = refl
percent ComponentKind.reg_name = refl

pub validate_component-Chars :
    (kind : ComponentKind) (cs : List ℕ) → validate_component kind cs ≡ true → Chars kind cs
unfolding validate_component
validate_component-Chars kind [] h = done
validate_component-Chars kind (c ∷ []) h = plain (ground arith) done
validate_component-Chars kind (c ∷ d ∷ []) h =
    plain (ground arith) (validate_component-Chars kind (d ∷ []) (ground arith))
validate_component-Chars kind (c ∷ d ∷ e ∷ cs) h = elim (Bool-cases (c == b'%')) [
  | inl s ↦
      let same : c ≡ b'%' = (==_iff c b'%').0 s in
      rw same
        (encoded (ground arith) (ground arith) (validate_component-Chars kind cs (ground arith)))
  | inr n ↦ plain (ground arith) (validate_component-Chars kind (d ∷ e ∷ cs) (ground arith))
]

pub Chars-validate_component :
    {kind : ComponentKind} {cs : List ℕ} → Chars kind cs → validate_component kind cs ≡ true
unfolding validate_component
Chars-validate_component done = refl
Chars-validate_component {kind} (encoded hd he t) =
    let rest = Chars-validate_component t in ground arith
Chars-validate_component {kind} (plain {c} {cs} h t) =
    let rest = Chars-validate_component t in
    let other = percent kind in
    elim (Bool-cases (c == b'%')) [
      | inl s ↦ let same : c ≡ b'%' = (==_iff c b'%').0 s in ground arith
      | inr n ↦ onto cs n rest
    ]
  where
    onto :
        (ds : List ℕ)
        → (c == b'%') ≡ false
        → validate_component kind ds ≡ true
        → validate_component kind (c ∷ ds) ≡ true
    onto [] n r = ground arith
    onto (d ∷ []) n r = ground arith
    onto (d ∷ e ∷ ds) n r = ground arith

-- A byte that a kind does not allow is in no component of that kind.
pub Chars-excludes :
    {kind : ComponentKind} {cs : List ℕ} (b : ℕ)
    → is_plain_component_character kind b ≡ false
    → is_hex_digit b ≡ false
    → (b == b'%') ≡ false
    → Chars kind cs
    → has_byte b cs ≡ false
unfolding has_byte
Chars-excludes b h x n done = refl
Chars-excludes b h x n (plain {c} {cs} p t) =
    let rest = Chars-excludes b h x n t in
    elim (Bool-cases (c == b)) [
      | inl s ↦ let same : c ≡ b = (==_iff c b).0 s in ground arith
      | inr m ↦ ground arith
    ]
Chars-excludes b h x n (encoded {d} {e} {cs} hd he t) =
    let rest = Chars-excludes b h x n t in
    elim (Bool-cases (d == b)) [
      | inl s ↦ let same : d ≡ b = (==_iff d b).0 s in ground arith
      | inr m ↦ elim (Bool-cases (e == b)) [
        | inl s ↦ let same : e ≡ b = (==_iff e b).0 s in ground arith
        | inr k ↦ ground arith
      ]
    ]

pub Chars-no_slash : {s : List ℕ} → Chars pchar s → has_byte b'/' s ≡ false
unfolding is_plain_component_character is_unreserved is_sub_delimiter is_allowed is_ascii_alpha
    is_ascii_digit is_hex_digit
Chars-no_slash t = Chars-excludes b'/' refl refl refl t

joined-Segments : (ss : List (List ℕ)) → all_segments ss ≡ true → Segments (joined b'/' ss)
unfolding joined
joined-Segments [] h = no_segment
joined-Segments (s ∷ ss) h =
    segment s (validate_component-Chars pchar s (ground arith)) (joined-Segments ss (ground arith))

Segments-joined :
    {p : List ℕ}
    → Segments p
    → (ss : List (List ℕ)) × (p ≡ joined b'/' ss)
      × (all_segments ss ≡ true)
      × (exclude b'/' ss ≡ true)
unfolding joined exclude
Segments-joined no_segment = ([], refl, refl, refl)
Segments-joined (segment s {p} t g) =
    let (ss, k, a, x) = Segments-joined g in
    let slash = Chars-no_slash t in
    let valid = Chars-validate_component t in (s ∷ ss, rw k refl, ground arith, ground arith)

-- A path is a first segment and the others, each behind a slash.
abbrev pub PathOf : List ℕ → Type 0
PathOf v = (s p : List ℕ) × (v ≡ s ++ p) × Chars pchar s × Segments p

pub path-PathOf : (v : List ℕ) → validate_path_characters v ≡ true → PathOf v
unfolding validate_path_characters
path-PathOf v h =
    let (s, ss, e, k, x) = split_on-cases b'/' v in
    let all : all_segments (s ∷ ss) ≡ true = ap all_segments (sym e) ∙ h in
    (
      s,
      joined b'/' ss,
      k,
      validate_component-Chars pchar s (ground arith),
      joined-Segments ss (ground arith),
    )

pub PathOf-path :
    (s p : List ℕ) → Chars pchar s → Segments p → validate_path_characters (s ++ p) ≡ true
unfolding validate_path_characters
PathOf-path s p t g =
    let (ss, k, a, x) = Segments-joined g in
    let valid = Chars-validate_component t in
    let split = split_on-joined b'/' s ss (Chars-no_slash t) x in rw (k, split) (ground arith)

pub first_segment-append :
    (s p : List ℕ) → has_byte b'/' s ≡ false → Segments p → first_segment (s ++ p) ≡ s
unfolding first_segment
first_segment-append s _ h no_segment =
    let missing = find-none b'/' s h in rw (append-nil, first_segment, missing) (append-nil s)
first_segment-append s _ h (segment t {p} c g) =
    let found = find_after b'/' s (t ++ p) h in rw (first_segment, found) refl
