-- ===== src/Pagination/Uri/Text.antt =====
-- Characters and pieces of text, src/runtime/pagination/uri_reference.cpp.
use cuac.Common.{
  ℕ, Bool, true, false, not, ◌&&◌, ◌||◌, Option, none, some, List, [], ◌∷◌, ltb, ◌==◌,
  if◌then◌else◌,
}

unfoldable pub is_ascii_alpha : ℕ → Bool
is_ascii_alpha c = not (ltb c b'a') && not (ltb b'z' c) || not (ltb c b'A') && not (ltb b'Z' c)

unfoldable pub is_ascii_digit : ℕ → Bool
is_ascii_digit c = not (ltb c b'0') && not (ltb b'9' c)

unfoldable pub is_hex_digit : ℕ → Bool
is_hex_digit c =
    is_ascii_digit c || not (ltb c b'a') && not (ltb b'f' c) || not (ltb c b'A') && not (ltb b'F' c)

unfoldable pub is_unreserved : ℕ → Bool
is_unreserved c =
    is_ascii_alpha c || is_ascii_digit c || c == b'-' || c == b'.' || c == b'_' || c == b'~'

unfoldable pub is_sub_delimiter : ℕ → Bool
is_sub_delimiter c =
    c == b'!'
    || c == b'$'
    || c == b'&'
    || c == b'\''
    || c == b'('
    || c == b')'
    || c == b'*'
    || c == b'+'
    || c == b','
    || c == b';'
    || c == b'='

pub data ComponentKind : Type 0 where
  pchar query_or_fragment user_info reg_name : ComponentKind

-- What a kind allows beside the unreserved characters and the delimiters.
unfoldable pub is_allowed : ComponentKind → ℕ → Bool
is_allowed pchar c = c == b':' || c == b'@'
is_allowed query_or_fragment c = c == b':' || c == b'@' || c == b'/' || c == b'?'
is_allowed user_info c = c == b':'
is_allowed reg_name c = false

unfoldable pub is_plain_component_character : ComponentKind → ℕ → Bool
is_plain_component_character kind c = is_unreserved c || is_sub_delimiter c || is_allowed kind c

unfoldable pub validate_component : ComponentKind → List ℕ → Bool
validate_component kind [] = true
validate_component kind (c ∷ []) = not (c == b'%') && is_plain_component_character kind c
validate_component kind (c ∷ d ∷ []) =
    not (c == b'%') && is_plain_component_character kind c && validate_component kind (d ∷ [])
validate_component kind (c ∷ d ∷ e ∷ cs) = elim (c == b'%') [
  | true ↦ is_hex_digit d && is_hex_digit e && validate_component kind cs
  | false ↦ is_plain_component_character kind c && validate_component kind (d ∷ e ∷ cs)
]

unfoldable pub every : (ℕ → Bool) → List ℕ → Bool
every p [] = true
every p (c ∷ cs) = p c && every p cs

-- `find` of a byte: what stands before and after the first one.
unfoldable pub find : ℕ → List ℕ → Option (List ℕ × List ℕ)
find b [] = none
find b (c ∷ cs) =
    let found = find b cs in
    if c == b
    then some ([], cs)
    else elim found [ none ↦ none | some (before, after) ↦ some (c ∷ before, after) ]

abbrev onto_first : ℕ → List (List ℕ) → List (List ℕ)
onto_first c [] = (c ∷ []) ∷ []
onto_first c (f ∷ fs) = (c ∷ f) ∷ fs

-- The pieces between the separators, which a loop on `find` comes to one after another.
unfoldable pub split_on : ℕ → List ℕ → List (List ℕ)
split_on b [] = [] ∷ []
split_on b (c ∷ cs) =
    let pieces = split_on b cs in if c == b then [] ∷ pieces else onto_first c pieces

abbrev pub no_pieces : List (List ℕ) → Bool
no_pieces [] = true
no_pieces _ = false
