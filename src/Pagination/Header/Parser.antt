-- ===== src/Pagination/Header/Parser.antt =====
-- Link values, and the fields that list them, src/runtime/pagination/link_header.cpp.
use cuac.Common.{
  ℕ, zero, suc, ◌+◌, Bool, true, false, not, ◌&&◌, Option, none, some, List, [], ◌∷◌, ◌++◌, length,
  ltb, ◌==◌, if◌then◌else◌,
}
use cuac.Pagination.Link.State.{LinkValues}
use cuac.Pagination.Uri.Text.{find}
use cuac.Pagination.Uri.Reference.{is_valid_uri_reference}
use cuac.Pagination.Header.Scan.{
  ◌>>=◌, is_ows, skip_ows, parse_token, parse_parameter_value, equals_ascii_ignore_case, rel_name,
  anchor_name, relation_contains_next,
}

-- What the loop on the parameters of a value keeps.
pub record Parameters : Type 0 where
  pub saw_rel : Bool
  pub saw_anchor : Bool
  pub has_next_relation : Bool

-- A parameter without a value.
unfoldable pub take_name : Parameters → List ℕ → Option Parameters
take_name p name =
    if equals_ascii_ignore_case name rel_name
    then (if p.saw_rel then some p else none)
    else if equals_ascii_ignore_case name anchor_name
    then none
    else some p

unfoldable pub take_value : Parameters → List ℕ → List ℕ → Option Parameters
take_value p name value =
    if equals_ascii_ignore_case name rel_name
    then if p.saw_rel then some p else (do
      has_next ← relation_contains_next value
      some (record p { saw_rel = true; has_next_relation = has_next }))
    else if equals_ascii_ignore_case name anchor_name
    then (if is_valid_uri_reference value then some (record p { saw_anchor = true }) else none)
    else some p

-- What stands behind the name of a parameter.
unfoldable pub parameter_tail : Parameters → List ℕ → List ℕ → Option (Parameters × List ℕ)
parameter_tail p name [] = do q ← take_name p name; some (q, [])
parameter_tail p name (c ∷ cs) =
    if not (c == b'=') then (do q ← take_name p name; some (q, c ∷ cs)) else (do
      (value, rest) ← parse_parameter_value (skip_ows cs)
      q ← take_value p name value
      some (q, rest))

unfoldable pub parameter : Parameters → List ℕ → Option (Parameters × List ℕ)
parameter p text = do
  (name, rest) ← parse_token (skip_ows text)
  parameter_tail p name (skip_ows rest)

-- The loop on the parameters, behind white space; each turn reads at least two bytes.
unfoldable pub parameters : ℕ → Parameters → List ℕ → Option (Parameters × List ℕ)
parameters zero p text = none
parameters (suc fuel) p [] = some (p, [])
parameters (suc fuel) p (c ∷ cs) =
    if c == b','
    then some (p, c ∷ cs)
    else if not (c == b';')
    then none
    else (do (q, rest) ← parameter p cs; parameters fuel q (skip_ows rest))

abbrev pub no_parameters : Parameters
no_parameters = record { saw_rel = false; saw_anchor = false; has_next_relation = false }

-- The visit that a value comes to, and what follows the value.
unfoldable pub visit : List ℕ → Parameters × List ℕ → Option ((List ℕ × Bool) × List ℕ)
visit target (p, rest) =
    if not p.saw_rel then none else some ((target, p.has_next_relation && not p.saw_anchor), rest)

-- On a value behind its opening bracket.
unfoldable pub parse_opened_value : List ℕ → Option ((List ℕ × Bool) × List ℕ)
parse_opened_value text = do
  (target, rest) ← find b'>' text
  if not (is_valid_uri_reference target)
      then none
      else (parameters (suc (length rest)) no_parameters (skip_ows rest) >>= visit target)

-- `ParseLinkValue`, behind white space.
unfoldable pub parse_link_value : List ℕ → Option ((List ℕ × Bool) × List ℕ)
parse_link_value [] = none
parse_link_value (c ∷ cs) = if not (c == b'<') then none else parse_opened_value cs

unfoldable pub ignore_empty_element : ℕ → Option ℕ
ignore_empty_element ignored = if ltb 128 (ignored + 1) then none else some (ignored + 1)

-- White space, and the empty elements of a list, which are counted.
unfoldable pub skip_empty_elements : ℕ → List ℕ → Option (ℕ × List ℕ)
skip_empty_elements ignored [] = some (ignored, [])
skip_empty_elements ignored (c ∷ cs) =
    if c == b','
    then (do counted ← ignore_empty_element ignored; skip_empty_elements counted cs)
    else if is_ows c
    then skip_empty_elements ignored cs
    else some (ignored, c ∷ cs)

-- What follows a comma between values.
unfoldable pub after_comma : ℕ → List ℕ → Option (ℕ × List ℕ)
after_comma ignored [] = do counted ← ignore_empty_element ignored; some (counted, [])
after_comma ignored (c ∷ cs) = skip_empty_elements ignored (c ∷ cs)

-- What follows a value.
unfoldable pub after_value : ℕ → List ℕ → Option (ℕ × List ℕ)
after_value ignored [] = some (ignored, [])
after_value ignored (c ∷ cs) = if not (c == b',') then none else after_comma ignored (skip_ows cs)

-- The values visited, and the empty elements ignored unless an error came after them.
abbrev pub Scanned : Type 0
Scanned = List (List ℕ × Bool) × Option ℕ

abbrev pub also : List ℕ × Bool → Scanned → Scanned
also v (visited, end) = (v ∷ visited, end)

-- The loop on a field's values; each turn reads at least one byte.
unfoldable pub parse_elements : ℕ → ℕ → List ℕ → Scanned
parse_elements zero ignored text = ([], none)
parse_elements (suc fuel) ignored [] = ([], some ignored)
parse_elements (suc fuel) ignored (c ∷ cs) = elim (parse_link_value (c ∷ cs)) [
  | none ↦ ([], none)
  | some (v, rest) ↦ elim (after_value ignored (skip_ows rest)) [
    | none ↦ (v ∷ [], none)
    | some (counted, text) ↦ also v (parse_elements fuel counted text)
  ]
]

unfoldable pub parse_field : ℕ → List ℕ → Scanned
parse_field ignored field = elim (skip_empty_elements ignored field) [
  | none ↦ ([], none)
  | some (counted, text) ↦ parse_elements (suc (length text)) counted text
]

-- What the fields behind one come to after it.
abbrev pub and_then : Scanned → (ℕ → Scanned) → Scanned
and_then (visited, none) k = (visited, none)
and_then (visited, some ignored) k = let (later, end) = k ignored in (visited ++ later, end)

unfoldable pub parse_fields : ℕ → List (List ℕ) → Scanned
parse_fields ignored [] = ([], some ignored)
parse_fields ignored (f ∷ fs) =
    and_then (parse_field ignored f) (λ counted. parse_fields counted fs)

abbrev pub link_values : Scanned → LinkValues
link_values (visited, none) = record { visited = visited; well_formed = false }
link_values (visited, some ignored) = record { visited = visited; well_formed = true }

unfoldable pub parse_link_header_fields : List (List ℕ) → LinkValues
parse_link_header_fields fields = link_values (parse_fields 0 fields)
