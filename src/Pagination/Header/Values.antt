-- ===== src/Pagination/Header/Values.antt =====
-- The parameters and relations of a link read back, src/runtime/pagination/link_header.cpp.
use cuac.Common.{
  ℕ, ◌≡◌, inl, inr, refl, ◌∙◌, true, false, ◌||◌, some, List, [], ◌∷◌, ◌++◌, ◌==◌, arith,
  Bool-cases, ltb, absurd, All,
}
use mathlib.Core.List.{append-nil}
use cuac.Pagination.Link.Target.{has_byte, is_empty}
use cuac.Pagination.Uri.Text.{is_ascii_alpha, is_ascii_digit, every, find}
use cuac.Pagination.Uri.Reference.{
  is_valid_uri, starts_with, validate_reference, validate_before_fragment, validate_hierarchy,
}
use cuac.Pagination.Uri.Pieces.{every_excludes, joined, exclude, split_on-joined}
use cuac.Pagination.Uri.Enclosed.{uri-no_blank}
use cuac.Pagination.Header.Scan.{
  is_token_character, span_token, parse_token, push, quoted_characters, is_registered_relation,
  ends_with, relation_tokens, relation_contains_next,
}
use cuac.Pagination.Header.Render.{escape, has_next, is_text_character, IsRelation}

span_token-append :
    (name : List ℕ) (c : ℕ) (rest : List ℕ)
    → every is_token_character name ≡ true
    → is_token_character c ≡ false
    → span_token (name ++ (c ∷ rest)) ≡ (name, c ∷ rest)
unfolding every span_token
span_token-append [] c rest h n = ground arith
span_token-append (x ∷ xs) c rest h n =
    let ih = span_token-append xs c rest (ground arith) n in rw (span_token, ih) (ground arith)

pub parse_token-append :
    (name : List ℕ) (c : ℕ) (rest : List ℕ)
    → every is_token_character name ≡ true
    → is_empty name ≡ false
    → is_token_character c ≡ false
    → parse_token (name ++ (c ∷ rest)) ≡ some (name, c ∷ rest)
unfolding parse_token
parse_token-append name c rest h e n =
    rw (parse_token, span_token-append name c rest h n) (ground arith)

quoted_plain :
    (c d : ℕ) (cs : List ℕ)
    → (c == b'"' || c == b'\\') ≡ false
    → is_text_character c ≡ true
    → quoted_characters (c ∷ d ∷ cs) ≡ push c (quoted_characters (d ∷ cs))
unfolding quoted_characters is_text_character
quoted_plain c d cs n t = ground arith

quoted_escaped :
    (c : ℕ) (cs : List ℕ)
    → (c == b'"' || c == b'\\') ≡ true
    → quoted_characters (b'\\' ∷ c ∷ cs) ≡ push c (quoted_characters cs)
unfolding quoted_characters
quoted_escaped c cs h =
    let low : (ltb c 32 || ltb 126 c) ≡ false = ground arith in rw (quoted_characters, low) refl

quoted_on :
    (c : ℕ) (text result rest : List ℕ)
    → (c == b'"' || c == b'\\') ≡ false
    → is_text_character c ≡ true
    → quoted_characters text ≡ some (result, rest)
    → quoted_characters (c ∷ text) ≡ some (c ∷ result, rest)
unfolding push
quoted_on c [] result rest n t e = absurd (unfold quoted_characters in ground arith)
quoted_on c (d ∷ cs) result rest n t e = quoted_plain c d cs n t ∙ rw e refl

-- What is escaped and quoted is read back.
pub quoted_characters-escape :
    (value rest : List ℕ)
    → every is_text_character value ≡ true
    → quoted_characters (escape value ++ (b'"' ∷ rest)) ≡ some (value, rest)
unfolding escape every push
quoted_characters-escape [] [] h = unfold quoted_characters in refl
quoted_characters-escape [] (c ∷ rest) h = unfold quoted_characters in refl
quoted_characters-escape (c ∷ cs) rest h =
    let ih = quoted_characters-escape cs rest (ground arith) in
    let valid : is_text_character c ≡ true = ground arith in
    elim (Bool-cases (c == b'"' || c == b'\\')) [
      | inl special ↦
          rw (escape, special) (quoted_escaped c (escape cs ++ (b'"' ∷ rest)) special ∙ rw ih refl)
      | inr plain ↦
          rw (escape, plain) (quoted_on c (escape cs ++ (b'"' ∷ rest)) cs rest plain valid ih)
    ]

no_blank : (r : List ℕ) → IsRelation r → has_byte b' ' r ≡ false
unfolding is_registered_relation every has_byte is_ascii_alpha is_ascii_digit
no_blank r h = elim (Bool-cases (is_valid_uri r)) [
  | inl e ↦ uri-no_blank r e
  | inr n ↦ registered r (ground arith)
]
  where
    registered : (r : List ℕ) → is_registered_relation r ≡ true → has_byte b' ' r ≡ false
    registered [] e = refl
    registered (c ∷ cs) e =
        let rest =
          every_excludes (λ b. is_ascii_alpha b || is_ascii_digit b || b == b'.' || b == b'-') b' '
            cs refl (ground arith) in
        ground arith

all_excluded : (rs : List (List ℕ)) → All IsRelation rs → exclude b' ' rs ≡ true
unfolding exclude
all_excluded [] h = refl
all_excluded (r ∷ rs) h =
    let here = no_blank r h.0 in let rest = all_excluded rs h.1 in ground arith

no_uri : is_valid_uri [] ≡ false
unfolding is_valid_uri validate_reference validate_before_fragment validate_hierarchy find
no_uri = refl

nonempty : (r : List ℕ) → IsRelation r → is_empty r ≡ false
nonempty [] h = let refused = no_uri in unfold is_registered_relation in absurd (ground arith)
nonempty (c ∷ cs) h = refl

relation_tokens-has_next :
    (rs : List (List ℕ)) → All IsRelation rs → relation_tokens rs ≡ some (has_next rs)
unfolding relation_tokens has_next
relation_tokens-has_next [] h = refl
relation_tokens-has_next (r ∷ rs) h =
    let rest = relation_tokens-has_next rs h.1 in
    let full = nonempty r h.0 in let valid = h.0 in rw (relation_tokens, rest) (ground arith)

starts_inside :
    (r rest : List ℕ)
    → is_empty r ≡ false
    → has_byte b' ' r ≡ false
    → (is_empty (r ++ rest) || starts_with b' ' (r ++ rest)) ≡ false
unfolding has_byte starts_with
starts_inside [] rest e h = absurd (ground arith)
starts_inside (c ∷ cs) rest e h = ground arith

ends_inside : (r : List ℕ) → has_byte b' ' r ≡ false → ends_with b' ' r ≡ false
unfolding has_byte ends_with
ends_inside [] h = refl
ends_inside (c ∷ []) h = ground arith
ends_inside (c ∷ d ∷ cs) h = let rest = ends_inside (d ∷ cs) in ground arith

ends_with-append :
    (b : ℕ) (xs : List ℕ) (y : ℕ) (ys : List ℕ)
    → ends_with b (xs ++ (y ∷ ys)) ≡ ends_with b (y ∷ ys)
unfolding ends_with
ends_with-append b [] y ys = refl
ends_with-append b (x ∷ []) y ys = refl
ends_with-append b (x ∷ z ∷ xs) y ys = ends_with-append b (z ∷ xs) y ys

ends_with-joined :
    (r : List ℕ) (rs : List (List ℕ))
    → All IsRelation (r ∷ rs)
    → ends_with b' ' (r ++ joined b' ' rs) ≡ false
unfolding joined
ends_with-joined r [] h = rw append-nil (ends_inside r (no_blank r h.0))
ends_with-joined r (s ∷ rs) h =
    ends_with-append b' ' r b' ' (s ++ joined b' ' rs)
    ∙ onto s (nonempty s h.1.0) (ends_with-joined s rs h.1)
  where
    onto :
        (t : List ℕ)
        → is_empty t ≡ false
        → ends_with b' ' (t ++ joined b' ' rs) ≡ false
        → ends_with b' ' (b' ' ∷ (t ++ joined b' ' rs)) ≡ false
    onto [] n e = absurd (ground arith)
    onto (c ∷ cs) n e = unfold ends_with in e

-- The relations of a link, between spaces, are read back.
pub relation_contains_next-joined :
    (r : List ℕ) (rs : List (List ℕ))
    → All IsRelation (r ∷ rs)
    → relation_contains_next (r ++ joined b' ' rs) ≡ some (has_next (r ∷ rs))
unfolding relation_contains_next
relation_contains_next-joined r rs h =
    let start = starts_inside r (joined b' ' rs) (nonempty r h.0) (no_blank r h.0) in
    let end = ends_with-joined r rs h in
    let split = split_on-joined b' ' r rs (no_blank r h.0) (all_excluded rs h.1) in
    let tokens = relation_tokens-has_next (r ∷ rs) h in
    rw (relation_contains_next, start, end, split) tokens
