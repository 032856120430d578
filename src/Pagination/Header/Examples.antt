-- ===== src/Pagination/Header/Examples.antt =====
-- A header of two fields, and the theorems at it.
use cuac.Common.{arith, ℕ, ◌≡◌, refl, true, false, List, [], ◌∷◌, leb, All}
use cuac.Pagination.Link.Target.{has_byte}
use cuac.Pagination.Uri.Text.{
  is_ascii_alpha, is_ascii_digit, is_unreserved, is_plain_component_character, validate_component,
  every, find, split_on,
}
use cuac.Pagination.Uri.Pieces.{joined}
use cuac.Pagination.Uri.Reference.{
  validate_path_characters, starts_with, validate_path_absolute, validate_path_rootless,
  validate_path_no_scheme, first_segment, validate_hier_part, validate_hierarchy,
  validate_before_fragment, validate_reference, is_valid_uri_reference,
}
use cuac.Pagination.Header.Scan.{
  is_token_character, is_ows, equals_ascii_ignore_case, to_ascii_lower, is_registered_relation,
}
use cuac.Pagination.Header.Parser.{
  no_parameters, parameters, parse_elements, parse_link_header_fields,
}
use cuac.Pagination.Header.Render.{
  Link, IsLink, IsField, is_text_character, render_fields, field_meanings, meanings, meaning,
  has_next,
}
use cuac.Pagination.Header.RoundTrip.{parse_link_header_fields-render_fields}
use cuac.Pagination.Header.Empty.{IsEmptyField, all_commas, parse_link_header_fields-all_commas}
use cuac.Pagination.Header.Ends.{ElementsRun, ParametersRun, loops_end}

-- </a>; rel="Next up"; t="q\"" and <b>; rel="next"; anchor="c".
abbrev onward : Link
onward = record {
  target = b'/' ∷ b'a' ∷ [];
  relation = b'N' ∷ b'e' ∷ b'x' ∷ b't' ∷ [];
  relations = (b'u' ∷ b'p' ∷ []) ∷ [];
  extensions = (b't' ∷ [], b'q' ∷ b'"' ∷ []) ∷ [];
  anchors = [];
}

abbrev elsewhere : Link
elsewhere = record {
  target = b'b' ∷ [];
  relation = b'n' ∷ b'e' ∷ b'x' ∷ b't' ∷ [];
  relations = [];
  extensions = [];
  anchors = (b'c' ∷ []) ∷ [];
}

onward-IsLink : IsLink onward
unfolding is_valid_uri_reference validate_reference find validate_before_fragment validate_hierarchy
    validate_hier_part validate_path_absolute starts_with validate_path_characters split_on
    validate_component is_plain_component_character is_unreserved is_ascii_alpha is_ascii_digit
    is_registered_relation every joined is_text_character is_token_character
    equals_ascii_ignore_case to_ascii_lower
onward-IsLink = record {
  target = refl;
  relation = (refl, (refl, tt));
  text = refl;
  extensions = ((refl, refl, refl, refl, refl), tt);
  anchors = tt;
}

elsewhere-IsLink : IsLink elsewhere
unfolding is_valid_uri_reference validate_reference find validate_before_fragment validate_hierarchy
    validate_hier_part validate_path_no_scheme validate_path_rootless first_segment has_byte
    starts_with validate_path_characters split_on validate_component is_plain_component_character
    is_unreserved is_ascii_alpha is_ascii_digit is_registered_relation every joined
    is_text_character is_token_character
elsewhere-IsLink = record {
  target = refl;
  relation = (refl, tt);
  text = refl;
  extensions = tt;
  anchors = ((refl, refl), tt);
}

abbrev fields : List (Link × List Link)
fields = (elsewhere, onward ∷ []) ∷ (elsewhere, []) ∷ []

abbrev fields-IsField : All IsField fields
fields-IsField = ((elsewhere-IsLink, (onward-IsLink, tt)), ((elsewhere-IsLink, tt), tt))

meant :
    field_meanings fields ≡ (b'b' ∷ [], false) ∷ (b'/' ∷ b'a' ∷ [], true) ∷ (b'b' ∷ [], false) ∷ []
unfolding field_meanings meanings meaning has_next equals_ascii_ignore_case to_ascii_lower
meant = refl

parse_link_header_fields-render_fields_example :
    parse_link_header_fields (render_fields fields)
    ≡ record { visited = field_meanings fields; well_formed = true }
parse_link_header_fields-render_fields_example =
    parse_link_header_fields-render_fields fields fields-IsField

abbrev empty_fields : List (List ℕ)
empty_fields = (b',' ∷ b' ' ∷ b',' ∷ []) ∷ (b'\t' ∷ b',' ∷ []) ∷ []

empty_fields-IsEmptyField : All IsEmptyField empty_fields
unfolding every is_ows
empty_fields-IsEmptyField = (refl, (refl, tt))

parse_link_header_fields-all_commas_example :
    parse_link_header_fields empty_fields
    ≡ record { visited = []; well_formed = leb (all_commas empty_fields) 128 }
parse_link_header_fields-all_commas_example =
    parse_link_header_fields-all_commas empty_fields empty_fields-IsEmptyField

abbrev element : List ℕ
element = b'<' ∷ b'b' ∷ b'>' ∷ b';' ∷ b'a' ∷ []

loops_end_example :
    ElementsRun 0 element (parse_elements 6 0 element)
    × ParametersRun no_parameters element (parameters 6 no_parameters element)
loops_end_example = loops_end 6 0 no_parameters element (omega arith)
