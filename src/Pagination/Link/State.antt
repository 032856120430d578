-- ===== src/Pagination/Link/State.antt =====
-- `LinkPaginationState` of src/runtime/pagination/link_pagination.cpp.
use cuac.Common.{
  ℕ, ◌+◌, ◌-◌, ◌%◌, Bool, true, false, not, ◌||◌, Option, none, some, List, [], ◌∷◌, ltb, ◌==◌,
  if◌then◌else◌,
}
use cuac.Pagination.Link.Target.{
  malformed, policy, state, Result, ok, throw, ◌>>=◌, Profile, u64_max, is_empty,
  validate_next_target,
}

-- `LinkPageTransition`.
pub record LinkPageTransition : Type 0 where
  pub has_next : Bool
  pub next_page : ℕ

pub record LinkPaginationState : Type 0 where
  pub profile : Profile
  pub current_page : ℕ
  pub seen_page_count : ℕ
  pub exhausted : Bool
  pub failed : Bool

abbrev pub M : Type 0
M = LinkPaginationState → LinkPaginationState × Result LinkPageTransition

-- What `ParseLinkHeaderFields` visits, the targets with whether they are the next one, and whether
-- it comes to the end without a LinkHeaderSyntaxError.
pub record LinkValues : Type 0 where
  pub visited : List (List ℕ × Bool)
  pub well_formed : Bool

unfoldable pub construct : Profile → LinkPaginationState
construct profile = record {
  profile = profile;
  current_page = profile.first_page;
  seen_page_count = 1;
  exhausted = false;
  failed = false;
}

-- `NextTargetSelector`: the one next target, if any.
unfoldable pub select_next : List (List ℕ × Bool) → Option (List ℕ) → Result (Option (List ℕ))
select_next [] found = ok found
select_next ((target, false) ∷ vs) found = select_next vs found
select_next ((target, true) ∷ vs) none = select_next vs (some target)
select_next ((target, true) ∷ vs) (some earlier) = throw policy

-- The transition to the page of a target that has been checked.
unfoldable pub next_transition : Profile → ℕ → List ℕ → Result LinkPageTransition
next_transition profile current_page target = do
  page ← validate_next_target profile target current_page
  ok (record { has_next = true; next_page = page })

unfoldable pub parse_transition : LinkValues → ℕ → Profile → Result LinkPageTransition
parse_transition values current_page profile = do
  found ← select_next values.visited none
  if not values.well_formed then throw malformed else elim found [
    | none ↦ ok (record { has_next = false; next_page = 0 })
    | some target ↦ next_transition profile current_page target
  ]

abbrev pub last_page : LinkPageTransition
last_page = record { has_next = false; next_page = 0 }

-- The end of a `try` block: the count, of 64 bits, and the page move together, and an error fails
-- the traversal.
unfoldable pub settle : Result LinkPageTransition → M
settle (throw e) s = (record s { failed = true }, throw e)
settle (ok t) s =
    if t.has_next
    then (
      record s {
        seen_page_count = (s.seen_page_count + 1) % 18446744073709551616;
        current_page = t.next_page;
      },
      ok t,
    )
    else (record s { exhausted = true }, ok t)

-- A traversal that has ended cannot advance, and stays as it is.
abbrev live : M → M
live m s = if s.failed || s.exhausted then (s, throw state) else m s

-- `Advance`, on what the parser of the header makes of its argument.
unfoldable pub advance : LinkValues → M
advance values = live (λ s. settle (parse_transition values s.current_page s.profile) s)

unfoldable pub advance_body : List ℕ → M
advance_body next_url = live (λ s.
    if is_empty next_url
    then settle (ok last_page) s
    else settle (next_transition s.profile s.current_page next_url) s)

unfoldable pub advance_by_count : ℕ → M
advance_by_count decoded_row_count = live (λ s.
    if decoded_row_count == 0 || ltb decoded_row_count s.profile.page_size
    then settle (ok last_page) s
    else if ltb (u64_max - s.profile.page_increment) s.current_page
    then settle (throw policy) s
    else settle
        (ok (record { has_next = true; next_page = s.current_page + s.profile.page_increment })) s)
