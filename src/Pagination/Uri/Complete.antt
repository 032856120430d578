-- ===== src/Pagination/Uri/Complete.antt =====
-- A URI reference of RFC 3986 is accepted by src/runtime/pagination/uri_reference.cpp.
mod Parts
use cuac.Common.{
  ℕ, ◌≡◌, ◌⊎◌, inl, inr, refl, ap, sym, ◌∙◌, Bool, true, false, ◌||◌, none, some, List, [], ◌∷◌,
  ◌++◌, ◌==◌, arith, Bool-cases, ==_iff, absurd,
}
use mathlib.Core.List.{append-nil, append_assoc}
use cuac.Pagination.Link.Target.{has_byte}
use cuac.Pagination.Uri.Text.{
  is_ascii_alpha, is_ascii_digit, is_hex_digit, is_unreserved, is_sub_delimiter, is_allowed,
  is_plain_component_character, pchar, query_or_fragment, find,
}
use cuac.Pagination.Uri.Reference.{
  first_segment, validate_scheme, validate_hierarchy, validate_before_fragment, validate_reference,
}
use cuac.Pagination.Uri.Pieces.{every_excludes, find_after, find-none, find-cases}
use cuac.Pagination.Uri.Grammar.{
  Chars, HierPart, network, root, absolute, no_scheme, no_path, Suffix, no_suffix, suffix, Scheme,
  scheme, IsUri, uri, IsRelativeRef, relative_ref,
}
use cuac.Pagination.Uri.Components.{
  Chars-validate_component, Chars-excludes, Chars-no_slash, first_segment-append,
}
use cuac.Pagination.Uri.Marks.{question, hash, append_excludes, HierPart-excludes}
use cuac.Pagination.Uri.Complete.Parts.{HierPart-valid}

-- A colon before any slash is in the first segment.
first_segment_colon :
    (before after : List ℕ)
    → has_byte b'/' before ≡ false
    → has_byte b':' (first_segment (before ++ (b':' ∷ after))) ≡ true
unfolding first_segment find has_byte
first_segment_colon [] after h = elim (find-cases b'/' after) [
  | inl (e, x) ↦ ground arith
  | inr (b, a, e, k, x) ↦ ground arith
]
first_segment_colon (c ∷ cs) after h =
    let rest = first_segment_colon cs after (ground arith) in
    elim (find-cases b'/' (cs ++ (b':' ∷ after))) [
      | inl (e, x) ↦ ground arith
      | inr (b, a, e, k, x) ↦ ground arith
    ]

scheme_character : ℕ → Bool
scheme_character b = is_ascii_alpha b || is_ascii_digit b || b == b'+' || b == b'-' || b == b'.'

validate_scheme-has_byte :
    (b : ℕ) (v : List ℕ)
    → scheme_character b ≡ false
    → validate_scheme v ≡ true
    → has_byte b v ≡ false
unfolding validate_scheme scheme_character has_byte
validate_scheme-has_byte b [] h e = refl
validate_scheme-has_byte b (c ∷ cs) h e =
    let rest = every_excludes scheme_character b cs h (ground arith) in
    elim (Bool-cases (c == b)) [
      | inl s ↦ let same : c ≡ b = (==_iff c b).0 s in ground arith
      | inr n ↦ ground arith
    ]

scheme_colon : scheme_character b':' ≡ false
unfolding scheme_character is_ascii_alpha is_ascii_digit
scheme_colon = refl

scheme-no_slash : (v : List ℕ) → validate_scheme v ≡ true → has_byte b'/' v ≡ false
unfolding scheme_character is_ascii_alpha is_ascii_digit
scheme-no_slash v e = validate_scheme-has_byte b'/' v refl e

relative-no_scheme :
    {v : List ℕ} (before after : List ℕ)
    → HierPart true v
    → v ≡ before ++ (b':' ∷ after)
    → validate_scheme before ≡ false
unfolding validate_scheme is_ascii_alpha
relative-no_scheme [] after t k = refl
relative-no_scheme (x ∷ xs) after (network a p t g) k = ground arith
relative-no_scheme (x ∷ xs) after root k = ground arith
relative-no_scheme (x ∷ xs) after (absolute c s p t g) k = ground arith
relative-no_scheme (x ∷ xs) after no_path k = ground arith
relative-no_scheme (x ∷ xs) after (no_scheme c s p t n g) k =
    elim (Bool-cases (validate_scheme (x ∷ xs))) [
      | inr e ↦ e
      | inl e ↦
          let free = scheme-no_slash (x ∷ xs) e in
          let first = first_segment-append (c ∷ s) p (Chars-no_slash t) g in
          let colon = first_segment_colon (x ∷ xs) after free in
          absurd (clash (ap first_segment (sym k)) first colon n)
    ]
  where
    clash :
        {v w : List ℕ} {u : List ℕ}
        → v ≡ w
        → w ≡ u
        → has_byte b':' v ≡ true
        → has_byte b':' u ≡ false
        → ⊥
    clash e f h n = ground arith

before_fragment-valid :
    (require_uri : Bool) (v q : List ℕ)
    → validate_hierarchy require_uri v ≡ true
    → has_byte b'?' v ≡ false
    → Suffix b'?' q
    → validate_before_fragment require_uri (v ++ q) ≡ true
unfolding validate_before_fragment
before_fragment-valid require_uri v _ h n no_suffix =
    let missing = find-none b'?' v n in
    ap (validate_before_fragment require_uri) (append-nil v)
    ∙ rw (validate_before_fragment, missing) h
before_fragment-valid require_uri v _ h n (suffix q t) =
    let found = find_after b'?' v q n in
    let valid = Chars-validate_component t in rw (validate_before_fragment, found) (ground arith)

no_hash : {q : List ℕ} → Chars query_or_fragment q → has_byte b'#' q ≡ false
unfolding is_plain_component_character is_unreserved is_sub_delimiter is_allowed is_ascii_alpha
    is_ascii_digit is_hex_digit
no_hash t = Chars-excludes b'#' refl refl refl t

fragment-valid :
    (require_uri : Bool) (v f : List ℕ)
    → validate_before_fragment require_uri v ≡ true
    → has_byte b'#' v ≡ false
    → Suffix b'#' f
    → validate_reference require_uri (v ++ f) ≡ true
unfolding validate_reference
fragment-valid require_uri v _ h n no_suffix =
    let missing = find-none b'#' v n in
    ap (validate_reference require_uri) (append-nil v) ∙ rw (validate_reference, missing) h
fragment-valid require_uri v _ h n (suffix f t) =
    let found = find_after b'#' v f n in
    let valid = Chars-validate_component t in
    let free = no_hash t in rw (validate_reference, found) (ground arith)

query_no_hash : {q : List ℕ} → Suffix b'?' q → has_byte b'#' q ≡ false
unfolding has_byte
query_no_hash no_suffix = refl
query_no_hash (suffix q t) = let free = no_hash t in ground arith

tail-valid :
    (require_uri : Bool) (v q f : List ℕ)
    → validate_hierarchy require_uri v ≡ true
    → has_byte b'?' v ≡ false
    → has_byte b'#' v ≡ false
    → Suffix b'?' q
    → Suffix b'#' f
    → validate_reference require_uri (v ++ (q ++ f)) ≡ true
tail-valid require_uri v q f h n m t u =
    ap (validate_reference require_uri) (sym (append_assoc v q f))
    ∙ fragment-valid require_uri (v ++ q) f (before_fragment-valid require_uri v q h n t)
        (append_excludes b'#' v q m (query_no_hash t)) u

pchar_question : is_plain_component_character pchar b'?' ≡ false
unfolding is_plain_component_character is_unreserved is_sub_delimiter is_allowed is_ascii_alpha
    is_ascii_digit
pchar_question = refl

pchar_hash : is_plain_component_character pchar b'#' ≡ false
unfolding is_plain_component_character is_unreserved is_sub_delimiter is_allowed is_ascii_alpha
    is_ascii_digit
pchar_hash = refl

pub IsRelativeRef-validate_reference :
    {v : List ℕ} → IsRelativeRef v → validate_reference false v ≡ true
IsRelativeRef-validate_reference (relative_ref h q f t x y) =
    tail-valid false h q f (hierarchy-valid (find-cases b':' h))
      (HierPart-excludes question pchar_question refl refl t)
      (HierPart-excludes hash pchar_hash refl refl t) x y
  where
    hierarchy-valid :
        ((find b':' h ≡ none) × (has_byte b':' h ≡ false))
          ⊎ ((before after : List ℕ) × (find b':' h ≡ some (before, after))
              × (h ≡ before ++ (b':' ∷ after))
              × (has_byte b':' before ≡ false))
        → validate_hierarchy false h ≡ true
    hierarchy-valid (inl (e, k)) =
        let valid = HierPart-valid true t in
        unfold validate_hierarchy in rw (validate_hierarchy, e) (ground arith)
    hierarchy-valid (inr (before, after, e, k, n)) =
        let valid = HierPart-valid true t in
        let no = relative-no_scheme before after t k in
        unfold validate_hierarchy in rw (validate_hierarchy, e, no) (ground arith)

Scheme-validate_scheme : {s : List ℕ} → Scheme s → validate_scheme s ≡ true
unfolding validate_scheme
Scheme-validate_scheme (scheme c cs a e) = ground arith

Scheme-validate_hierarchy :
    {s h : List ℕ}
    → Scheme s
    → HierPart false h
    → (require_uri : Bool) → validate_hierarchy require_uri (s ++ (b':' ∷ h)) ≡ true
unfolding validate_hierarchy
Scheme-validate_hierarchy {s} {h} t hier require_uri =
    let valid = Scheme-validate_scheme t in
    let found = find_after b':' s h (validate_scheme-has_byte b':' s scheme_colon valid) in
    let rest = HierPart-valid false hier in rw (validate_hierarchy, found, valid) rest

pub IsUri-validate_reference :
    (require_uri : Bool) {v : List ℕ} → IsUri v → validate_reference require_uri v ≡ true
unfolding has_byte scheme_character is_ascii_alpha is_ascii_digit
IsUri-validate_reference require_uri (uri s h q f t hier x y) =
    let valid = Scheme-validate_scheme t in
    let free = HierPart-excludes question pchar_question refl refl hier in
    let also = HierPart-excludes hash pchar_hash refl refl hier in
    ap (validate_reference require_uri) (sym (append_assoc s (b':' ∷ h) (q ++ f)))
    ∙ tail-valid require_uri (s ++ (b':' ∷ h)) q f (Scheme-validate_hierarchy t hier require_uri)
        (append_excludes b'?' s (b':' ∷ h) (validate_scheme-has_byte b'?' s refl valid)
          (ground arith))
        (append_excludes b'#' s (b':' ∷ h) (validate_scheme-has_byte b'#' s refl valid)
          (ground arith))
        x y
