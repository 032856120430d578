-- ===== src/Pagination/Link/Fields.antt =====
-- `Advance` on the Link header fields of a response: src/runtime/pagination/link_pagination.cpp with
-- src/runtime/pagination/link_header.cpp.
use cuac.Common.{
  ℕ, ◌+◌, ◌%◌, ◌≤◌, ◌<◌, ◌≡◌, refl, ap, ◌∙◌, Bool, true, false, ◌||◌, none, some, List, [], ◌∷◌,
  All, arith,
}
use cuac.Pagination.Link.Target.{Result, ok, throw, policy, ◌>>=◌, Profile, u64_max}
use cuac.Pagination.Link.State.{
  LinkPageTransition, LinkPaginationState, M, select_next, next_transition, parse_transition,
  last_page, settle, advance,
}
use cuac.Pagination.Link.Continuation.{is_parameter_name, page_url, validate_next_target-page_url}
use cuac.Pagination.Header.Parser.{parse_link_header_fields}
use cuac.Pagination.Header.Render.{Link, IsField, render_fields, field_meanings}
use cuac.Pagination.Header.RoundTrip.{parse_link_header_fields-render_fields}

unfoldable pub advance_fields : List (List ℕ) → M
advance_fields link_field_values = advance (parse_link_header_fields link_field_values)

-- The targets that go on with the collection.
unfoldable pub nexts : List (List ℕ × Bool) → List (List ℕ)
nexts [] = []
nexts ((target, false) ∷ vs) = nexts vs
nexts ((target, true) ∷ vs) = target ∷ nexts vs

-- What the targets of a response ask for: to end, to go on, or for what no traversal can do.
unfoldable pub continuation : List (List ℕ) → ℕ → Profile → Result LinkPageTransition
continuation [] current_page profile = ok last_page
continuation (target ∷ []) current_page profile = next_transition profile current_page target
continuation (target ∷ other ∷ more) current_page profile = throw policy

select_next-found :
    (vs : List (List ℕ × Bool)) (target : List ℕ)
    → select_next vs (some target)
      ≡ (elim (nexts vs) [ [] ↦ ok (some target) | other ∷ more ↦ throw policy ])
unfolding select_next nexts
select_next-found [] target = refl
select_next-found ((t, false) ∷ vs) target = select_next-found vs target
select_next-found ((t, true) ∷ vs) target = refl

parse_transition-continuation :
    (vs : List (List ℕ × Bool)) (current_page : ℕ) (profile : Profile)
    → parse_transition (record { visited = vs; well_formed = true }) current_page profile
      ≡ continuation (nexts vs) current_page profile
unfolding parse_transition select_next nexts continuation
parse_transition-continuation [] current_page profile = refl
parse_transition-continuation ((t, false) ∷ vs) current_page profile =
    parse_transition-continuation vs current_page profile
parse_transition-continuation ((t, true) ∷ vs) current_page profile =
    rw (select_next-found vs t) (go (nexts vs))
  where
    go :
        (ns : List (List ℕ))
        → ((elim ns [ [] ↦ ok (some t) | other ∷ more ↦ throw policy ]) >>= λ found. elim found [
          | none ↦ ok last_page
          | some target ↦ next_transition profile current_page target
        ])
          ≡ continuation (t ∷ ns) current_page profile
    go [] = refl
    go (n ∷ ns) = refl

module _ (s : LinkPaginationState) (live : s.failed ≡ false) (more : s.exhausted ≡ false) where
  -- A response whose fields list links, as the round trip of the header has them, is answered by its
  -- next links alone, where the traversal has not ended: without one the traversal is exhausted, with
  -- one it goes on to the page that the target names, or fails at it, and with two or more it fails.
  pub advance_fields-continuation :
      (fields : List (Link × List Link))
      → All IsField fields
      → advance_fields (render_fields fields) s
        ≡ settle (continuation (nexts (field_meanings fields)) s.current_page s.profile) s
  unfolding advance_fields advance
  advance_fields-continuation fields h =
      let going : (s.failed || s.exhausted) ≡ false = ground arith in
      rw (parse_link_header_fields-render_fields fields h, going)
        (ap (λ t. settle t s)
          (parse_transition-continuation (field_meanings fields) s.current_page s.profile))

  -- If the links of a response have one next link among them, and its target is the URL of the page
  -- after the current one, written by the server with the port and the page in decimal, then the
  -- traversal goes on to that page, and counts it. The URL has no query field but the page's: none of
  -- the others of the request is asked for. The page is positive and fits 64 bits, the parameter's
  -- name is one that a query can hold, and the traversal has not ended.
  pub advance_fields-page_url :
      (fields : List (Link × List Link)) (page : ℕ)
      → All IsField fields
      → nexts (field_meanings fields) ≡ page_url s.profile page ∷ []
      → is_parameter_name s.profile.page_number_parameter ≡ true
      → page ≡ s.current_page + s.profile.page_increment
      → 0 < page
      → page ≤ u64_max
      → advance_fields (render_fields fields) s ≡ (
        record s {
          current_page = page;
          seen_page_count = (s.seen_page_count + 1) % 18446744073709551616;
        },
        ok (record { has_next = true; next_page = page }),
      )
  unfolding continuation next_transition settle
  advance_fields-page_url fields page h next name e positive k =
      let target = validate_next_target-page_url s.profile s.current_page page name e positive k in
      advance_fields-continuation fields h ∙ rw next (rw target refl)
