-- ===== src/Pagination/Uri/Reference.antt =====
-- The parts of a URI reference, src/runtime/pagination/uri_reference.cpp.
use cuac.Common.{
  ℕ, Bool, true, false, not, ◌&&◌, ◌||◌, none, some, List, [], ◌∷◌, ◌==◌, if◌then◌else◌,
}
use cuac.Pagination.Link.Target.{has_byte, is_empty}
use cuac.Pagination.Uri.Text.{
  is_ascii_alpha, is_ascii_digit, pchar, query_or_fragment, user_info, reg_name, validate_component,
  every, find, split_on,
}
use cuac.Pagination.Uri.Address.{validate_ip_literal}

unfoldable pub validate_port : List ℕ → Bool
validate_port = every is_ascii_digit

-- What follows the bracket that ends a literal.
unfoldable pub after_literal : List ℕ → Bool
after_literal [] = true
after_literal (c ∷ cs) = c == b':' && validate_port cs

-- A host that is a name, and its port.
unfoldable pub validate_named_host : List ℕ → Bool
validate_named_host text = not (has_byte b'[' text || has_byte b']' text) && elim (find b':' text) [
  | none ↦ validate_component reg_name text
  | some (host, port) ↦
      not (has_byte b':' port) && validate_component reg_name host && validate_port port
]

unfoldable pub validate_host : List ℕ → Bool
validate_host [] = validate_named_host []
validate_host (c ∷ cs) = elim (c == b'[') [
  | true ↦ elim (find b']' cs) [
    | none ↦ false
    | some (literal, after) ↦
        not (is_empty literal) && validate_ip_literal literal && after_literal after
  ]
  | false ↦ validate_named_host (c ∷ cs)
]

unfoldable pub validate_authority : List ℕ → Bool
validate_authority authority = elim (find b'@' authority) [
  | none ↦ validate_host authority
  | some (user, rest) ↦
      not (has_byte b'@' rest) && validate_component user_info user && validate_host rest
]

abbrev pub all_segments : List (List ℕ) → Bool
all_segments [] = true
all_segments (s ∷ ss) = validate_component pchar s && all_segments ss

unfoldable pub validate_path_characters : List ℕ → Bool
validate_path_characters path = all_segments (split_on b'/' path)

unfoldable pub starts_with : ℕ → List ℕ → Bool
starts_with b [] = false
starts_with b (c ∷ cs) = c == b

unfoldable pub validate_path_abempty : List ℕ → Bool
validate_path_abempty path =
    (is_empty path || starts_with b'/' path) && validate_path_characters path

unfoldable pub validate_path_absolute : List ℕ → Bool
validate_path_absolute [] = false
validate_path_absolute (c ∷ cs) =
    c == b'/' && not (starts_with b'/' cs) && validate_path_characters (c ∷ cs)

unfoldable pub validate_path_rootless : List ℕ → Bool
validate_path_rootless path =
    not (is_empty path) && not (starts_with b'/' path) && validate_path_characters path

-- The first segment, which a colon may not stand in.
unfoldable pub first_segment : List ℕ → List ℕ
first_segment path = elim (find b'/' path) [ none ↦ path | some (segment, _) ↦ segment ]

unfoldable pub validate_path_no_scheme : List ℕ → Bool
validate_path_no_scheme path =
    validate_path_rootless path && not (has_byte b':' (first_segment path))

-- On what follows the two slashes.
unfoldable pub validate_authority_and_path : List ℕ → Bool
validate_authority_and_path text = elim (find b'/' text) [
  | none ↦ validate_authority text && validate_path_abempty []
  | some (authority, path) ↦ validate_authority authority && validate_path_abempty (b'/' ∷ path)
]

unfoldable pub validate_hier_part : List ℕ → Bool → Bool
validate_hier_part [] relative = true
validate_hier_part (c ∷ []) relative =
    if c == b'/'
    then validate_path_absolute (c ∷ [])
    else if relative
    then validate_path_no_scheme (c ∷ [])
    else validate_path_rootless (c ∷ [])
validate_hier_part (c ∷ d ∷ cs) relative =
    if c == b'/' && d == b'/'
    then validate_authority_and_path cs
    else if c == b'/'
    then validate_path_absolute (c ∷ d ∷ cs)
    else if relative
    then validate_path_no_scheme (c ∷ d ∷ cs)
    else validate_path_rootless (c ∷ d ∷ cs)

-- On the text before the first colon.
unfoldable pub validate_scheme : List ℕ → Bool
validate_scheme [] = false
validate_scheme (c ∷ cs) =
    is_ascii_alpha c
    && every (λ b. is_ascii_alpha b || is_ascii_digit b || b == b'+' || b == b'-' || b == b'.') cs

-- The hierarchy, with the scheme before it.
unfoldable pub validate_hierarchy : Bool → List ℕ → Bool
validate_hierarchy require_uri text = elim (find b':' text) [
  | none ↦ not require_uri && validate_hier_part text true
  | some (scheme, rest) ↦
      if validate_scheme scheme
      then validate_hier_part rest false
      else not require_uri && validate_hier_part text true
]

-- The hierarchy and the query, before a fragment.
unfoldable pub validate_before_fragment : Bool → List ℕ → Bool
validate_before_fragment require_uri text = elim (find b'?' text) [
  | none ↦ validate_hierarchy require_uri text
  | some (hierarchy, query) ↦
      validate_component query_or_fragment query && validate_hierarchy require_uri hierarchy
]

unfoldable pub validate_reference : Bool → List ℕ → Bool
validate_reference require_uri value = elim (find b'#' value) [
  | none ↦ validate_before_fragment require_uri value
  | some (reference, fragment) ↦
      not (has_byte b'#' fragment)
      && validate_component query_or_fragment fragment
      && validate_before_fragment require_uri reference
]

unfoldable pub is_valid_uri_reference : List ℕ → Bool
is_valid_uri_reference value = validate_reference false value

unfoldable pub is_valid_uri : List ℕ → Bool
is_valid_uri value = validate_reference true value
