-- ===== src/Pagination/Link/Examples.antt =====
-- A traversal of three pages, and the theorems at it.
use cuac.Common.{◌≡◌, ℕ, true, false, List, [], ◌∷◌, ◌++◌, refl, arith, same_bytes}
use cuac.Pagination.Link.Target.{
  ok, Profile, parse_positive_decimal, decimal_digits, strip_prefix, decimal_text, has_byte,
  split_fields, split_equals, is_received, query_field, query_fields, strip_port, expect_prefix,
  check_page, parse_page, validate_next_target,
}
use cuac.Pagination.Link.State.{LinkPaginationState, construct, settle}
use cuac.Pagination.Link.Continuation.{is_parameter_name, page_query, page_url}
use cuac.Pagination.Link.Fields.{
  advance_fields, nexts, continuation, advance_fields-continuation, advance_fields-page_url,
}
use cuac.Pagination.Uri.Text.{
  is_ascii_alpha, is_ascii_digit, is_unreserved, is_sub_delimiter, is_allowed,
  is_plain_component_character, validate_component, every, find, split_on,
}
use cuac.Pagination.Uri.Pieces.{joined}
use cuac.Pagination.Uri.Reference.{
  validate_port, validate_named_host, validate_host, validate_authority, validate_path_characters,
  starts_with, validate_path_abempty, validate_authority_and_path, validate_hier_part,
  validate_scheme, validate_hierarchy, validate_before_fragment, validate_reference,
  is_valid_uri_reference,
}
use cuac.Pagination.Header.Scan.{
  equals_ascii_ignore_case, to_ascii_lower, next_name, is_registered_relation,
}
use cuac.Pagination.Header.Render.{
  Link, IsLink, is_text_character, render_fields, field_meanings, meanings, meaning, has_next,
}
use cuac.Pagination.Link.Progress.{
  Answers, Call, advance_call, advance_body_call, advance_by_count_call, apply, run, IsAt,
  apply-Answers, run-IsAt,
}

-- https://h/p, with the page in `n`.
abbrev profile : Profile
profile = record {
  scheme = b'h' ∷ b't' ∷ b't' ∷ b'p' ∷ b's' ∷ [];
  host = b'h' ∷ [];
  port = 443;
  path = b'/' ∷ b'p' ∷ [];
  page_number_parameter = b'n' ∷ [];
  first_page = 1;
  page_size = 2;
  page_increment = 1;
}

abbrev origin : List ℕ
origin = b'h' ∷ b't' ∷ b't' ∷ b'p' ∷ b's' ∷ b':' ∷ b'/' ∷ b'/' ∷ b'h' ∷ []

abbrev query : List ℕ
query = b'/' ∷ b'p' ∷ b'?' ∷ b'q' ∷ b'=' ∷ b'&' ∷ b'n' ∷ b'=' ∷ b'2' ∷ []

-- https://h/p?q=&n=2, with and without the port.
accepted : validate_next_target profile (origin ++ query) 1 ≡ ok 2
unfolding validate_next_target parse_page check_page expect_prefix strip_port query_fields
    query_field is_received split_equals split_fields has_byte decimal_text strip_prefix
    decimal_digits parse_positive_decimal same_bytes
accepted = refl

accepted_port :
    validate_next_target profile (origin ++ (b':' ∷ b'4' ∷ b'4' ∷ b'3' ∷ query)) 1 ≡ ok 2
unfolding validate_next_target parse_page check_page expect_prefix strip_port query_fields
    query_field is_received split_equals split_fields has_byte decimal_text strip_prefix
    decimal_digits parse_positive_decimal same_bytes
accepted_port = refl

abbrev calls : List Call
calls =
    advance_call (record { visited = (origin ++ query, true) ∷ []; well_formed = true })
    ∷ advance_by_count_call 2
    ∷ advance_body_call []
    ∷ []

run-IsAt_example : IsAt profile (run (construct profile) calls)
run-IsAt_example = run-IsAt profile (omega arith) (omega arith) calls

abbrev second_page : LinkPaginationState
second_page = record {
  profile = profile;
  current_page = 2;
  seen_page_count = 2;
  exhausted = false;
  failed = false;
}

apply-Answers_example : Answers second_page (apply second_page (advance_by_count_call 2))
apply-Answers_example = apply-Answers second_page (advance_by_count_call 2) (omega arith) refl refl

-- A response to the first page whose Link header names the second.
abbrev second : Link
second = record {
  target = page_url profile 2;
  relation = next_name;
  relations = [];
  extensions = [];
  anchors = [];
}

second-IsLink : IsLink second
unfolding page_url page_query decimal_text is_valid_uri_reference validate_reference find
    validate_before_fragment validate_hierarchy validate_hier_part validate_scheme
    validate_authority_and_path validate_authority validate_host validate_named_host has_byte
    validate_port validate_path_abempty starts_with validate_path_characters split_on
    validate_component is_plain_component_character is_unreserved is_sub_delimiter is_allowed
    is_ascii_alpha is_ascii_digit is_registered_relation every joined is_text_character
second-IsLink = record {
  target = refl;
  relation = (refl, tt);
  text = refl;
  extensions = tt;
  anchors = tt;
}

abbrev fields : List (Link × List Link)
fields = (second, []) ∷ []

one_next : nexts (field_meanings fields) ≡ page_url profile 2 ∷ []
unfolding nexts field_meanings meanings meaning has_next equals_ascii_ignore_case to_ascii_lower
one_next = refl

named : is_parameter_name profile.page_number_parameter ≡ true
unfolding is_parameter_name has_byte
named = refl

abbrev first_page : LinkPaginationState
first_page = record {
  profile = profile;
  current_page = 1;
  seen_page_count = 1;
  exhausted = false;
  failed = false;
}

advance_fields-page_url_example :
    advance_fields (render_fields fields) first_page
    ≡ (second_page, ok (record { has_next = true; next_page = 2 }))
advance_fields-page_url_example =
    advance_fields-page_url first_page refl refl fields 2 ((second-IsLink, tt), tt) one_next named
      refl (omega arith) (omega arith)

advance_fields-continuation_example :
    advance_fields (render_fields fields) first_page
    ≡ settle (continuation (nexts (field_meanings fields)) 1 profile) first_page
advance_fields-continuation_example =
    advance_fields-continuation first_page refl refl fields ((second-IsLink, tt), tt)
