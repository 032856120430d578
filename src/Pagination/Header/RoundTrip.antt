-- ===== src/Pagination/Header/RoundTrip.antt =====
-- Link header fields as a server writes them, read by src/runtime/pagination/link_header.cpp.
use cuac.Common.{ℕ, suc, ◌≡◌, refl, ap, ◌∙◌, true, some, List, [], ◌∷◌, arith, All, length}
use cuac.Pagination.Header.Scan.{is_ows, skip_ows}
use cuac.Pagination.Header.Parser.{
  skip_empty_elements, after_comma, after_value, parse_elements, parse_field, parse_fields,
  link_values, parse_link_header_fields,
}
use cuac.Pagination.Header.Fuel.{parse_elements_fuel}
use cuac.Pagination.Header.Render.{
  Link, render_link, render_more, render_field, meanings, field_meanings, IsLink, IsField,
  render_fields,
}
use cuac.Pagination.Header.Parameters.{above, le-above, IsBehind, nothing, comma}
use cuac.Pagination.Header.Links.{parse_link_value-render}

render_more-IsBehind : (ls : List Link) → IsBehind (render_more ls)
unfolding render_more
render_more-IsBehind [] = nothing
render_more-IsBehind (l ∷ ls) = comma

parse_elements-render_with :
    (l : Link) (ls : List Link) (ignored k : ℕ)
    → All IsLink (l ∷ ls)
    → parse_elements (above (l ∷ ls) k) ignored (render_link l (render_more ls))
      ≡ (meanings (l ∷ ls), some ignored)
unfolding parse_elements render_more meanings render_link skip_ows is_ows after_value after_comma
    skip_empty_elements
parse_elements-render_with l [] ignored k h =
    let read = parse_link_value-render l [] h.0 nothing in rw (parse_elements, read) refl
parse_elements-render_with l (m ∷ ls) ignored k h =
    let read = parse_link_value-render l (render_more (m ∷ ls)) h.0 comma in
    let rest = parse_elements-render_with m ls ignored k h.1 in
    rw (parse_elements, read) (rw rest refl)

parse_field-render :
    (ignored : ℕ) (l : Link) (ls : List Link)
    → All IsLink (l ∷ ls)
    → parse_field ignored (render_field (l, ls)) ≡ (meanings (l ∷ ls), some ignored)
unfolding parse_field render_field
parse_field-render ignored l ls h =
    let text = render_link l (render_more ls) in
    let fuel =
      parse_elements_fuel (suc (length text)) (above (l ∷ ls) (length text)) ignored text
        (omega arith) (le-above (l ∷ ls) (length text)) in
    let read = parse_elements-render_with l ls ignored (length text) h in
    let start : skip_empty_elements ignored text ≡ some (ignored, text) =
      unfold skip_empty_elements render_link is_ows in refl in
    rw (parse_field, start) (fuel ∙ read)

parse_fields-render :
    (ignored : ℕ) (fs : List (Link × List Link))
    → All IsField fs
    → parse_fields ignored (render_fields fs) ≡ (field_meanings fs, some ignored)
unfolding parse_fields render_fields field_meanings
parse_fields-render ignored [] h = refl
parse_fields-render ignored ((l, ls) ∷ fs) h =
    let here = parse_field-render ignored l ls h.0 in
    let rest = parse_fields-render ignored fs h.1 in rw (here) (rw rest refl)

-- Fields that list links, each with a target that is a URI reference, with relations that are
-- registered names or URIs, with extension parameters and with anchors, written as RFC 8288 writes
-- them, are read back: every target is visited, in the order of the links, with whether one of its
-- relations is the next one and no anchor takes it away, and there is no error.
pub parse_link_header_fields-render_fields :
    (fields : List (Link × List Link))
    → All IsField fields
    → parse_link_header_fields (render_fields fields)
      ≡ record { visited = field_meanings fields; well_formed = true }
unfolding parse_link_header_fields
parse_link_header_fields-render_fields fields h = ap link_values (parse_fields-render 0 fields h)
