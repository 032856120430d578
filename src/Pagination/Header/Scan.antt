-- ===== src/Pagination/Header/Scan.antt =====
-- Tokens, quoted strings and relations, src/runtime/pagination/link_header.cpp. `none` stands for a
-- LinkHeaderSyntaxError.
use cuac.Common.{
  ℕ, ◌+◌, ◌-◌, Bool, true, false, not, ◌&&◌, ◌||◌, Option, none, some, List, [], ◌∷◌, ltb, ◌==◌,
  if◌then◌else◌,
}
use cuac.Pagination.Link.Target.{is_empty}
use cuac.Pagination.Uri.Text.{is_ascii_alpha, is_ascii_digit, every, split_on}
use cuac.Pagination.Uri.Reference.{is_valid_uri, starts_with}

infixl 5 ◌>>=◌
abbrev pub ◌>>=◌ : {A B : Type 0} → Option A → (A → Option B) → Option B
some a >>= f = f a
none >>= f = none

unfoldable pub is_ows : ℕ → Bool
is_ows c = c == b' ' || c == b'\t'

unfoldable pub to_ascii_lower : ℕ → ℕ
to_ascii_lower c = if not (ltb c b'A') && not (ltb b'Z' c) then c + (b'a' - b'A') else c

unfoldable pub skip_ows : List ℕ → List ℕ
skip_ows [] = []
skip_ows (c ∷ cs) = let rest = skip_ows cs in if is_ows c then rest else c ∷ cs

unfoldable pub is_token_character : ℕ → Bool
is_token_character c =
    is_ascii_alpha c
    || is_ascii_digit c
    || c == b'!'
    || c == b'#'
    || c == b'$'
    || c == b'%'
    || c == b'&'
    || c == b'\''
    || c == b'*'
    || c == b'+'
    || c == b'-'
    || c == b'.'
    || c == b'^'
    || c == b'_'
    || c == b'`'
    || c == b'|'
    || c == b'~'

-- The token's characters, and what follows them.
unfoldable pub span_token : List ℕ → List ℕ × List ℕ
span_token [] = ([], [])
span_token (c ∷ cs) =
    let (token, rest) = span_token cs in
    if is_token_character c then (c ∷ token, rest) else ([], c ∷ cs)

unfoldable pub parse_token : List ℕ → Option (List ℕ × List ℕ)
parse_token text =
    let (token, rest) = span_token text in if is_empty token then none else some (token, rest)

unfoldable pub push : ℕ → Option (List ℕ × List ℕ) → Option (List ℕ × List ℕ)
push c none = none
push c (some (result, rest)) = some (c ∷ result, rest)

-- The loop of `ParseQuotedString`, behind the quote that opens it.
unfoldable pub quoted_characters : List ℕ → Option (List ℕ × List ℕ)
quoted_characters [] = none
quoted_characters (c ∷ []) = if c == b'"' then some ([], []) else none
quoted_characters (c ∷ d ∷ cs) = elim (c == b'"') [
  | true ↦ some ([], d ∷ cs)
  | false ↦ elim (c == b'\\') [
    | true ↦ elim (ltb d 32 || ltb 126 d) [ true ↦ none | false ↦ push d (quoted_characters cs) ]
    | false ↦ elim (ltb c 32 && not (c == b'\t') || c == 127) [
      | true ↦ none
      | false ↦ push c (quoted_characters (d ∷ cs))
    ]
  ]
]

-- `ParseParameterValue`: a quoted string, or a token.
unfoldable pub parse_parameter_value : List ℕ → Option (List ℕ × List ℕ)
parse_parameter_value [] = parse_token []
parse_parameter_value (c ∷ cs) = elim (c == b'"') [
  | true ↦ quoted_characters cs
  | false ↦ parse_token (c ∷ cs)
]

unfoldable pub equals_ascii_ignore_case : List ℕ → List ℕ → Bool
equals_ascii_ignore_case [] [] = true
equals_ascii_ignore_case (a ∷ c) (b ∷ d) =
    to_ascii_lower a == to_ascii_lower b && equals_ascii_ignore_case c d
equals_ascii_ignore_case _ _ = false

unfoldable pub is_registered_relation : List ℕ → Bool
is_registered_relation [] = false
is_registered_relation (c ∷ cs) =
    is_ascii_alpha c
    && every (λ b. is_ascii_alpha b || is_ascii_digit b || b == b'.' || b == b'-') cs

unfoldable pub ends_with : ℕ → List ℕ → Bool
ends_with b [] = false
ends_with b (c ∷ []) = c == b
ends_with b (c ∷ d ∷ cs) = ends_with b (d ∷ cs)

abbrev pub next_name : List ℕ
next_name = b'n' ∷ b'e' ∷ b'x' ∷ b't' ∷ []

abbrev pub rel_name : List ℕ
rel_name = b'r' ∷ b'e' ∷ b'l' ∷ []

abbrev pub anchor_name : List ℕ
anchor_name = b'a' ∷ b'n' ∷ b'c' ∷ b'h' ∷ b'o' ∷ b'r' ∷ []

-- The loop of `RelationContainsNext`, on the pieces between spaces; a run of spaces leaves empty
-- pieces, which it skips.
unfoldable pub relation_tokens : List (List ℕ) → Option Bool
relation_tokens [] = some false
relation_tokens (token ∷ ts) =
    let rest = relation_tokens ts in
    if is_empty token
    then rest
    else if not (is_registered_relation token) && not (is_valid_uri token)
    then none
    else (do later ← rest; some (equals_ascii_ignore_case token next_name || later))

unfoldable pub relation_contains_next : List ℕ → Option Bool
relation_contains_next relation =
    if is_empty relation || starts_with b' ' relation || ends_with b' ' relation
    then none
    else relation_tokens (split_on b' ' relation)
