-- ===== src/Pagination/Link/Progress.antt =====
-- How a traversal by page numbers goes on.
use cuac.Common.{
  ap, sym, subst, ◌∙◌, ℕ, zero, suc, ◌+◌, ◌%◌, ◌≤◌, ◌≡◌, ◌⊎◌, inl, inr, refl, true, false, ◌||◌,
  none, some, List, [], ◌∷◌, Bool-cases, arith,
}
use cuac.Pagination.Link.Target.{
  LinkPaginationErrorKind, state, Result, ok, throw, Profile, u64_max, parse_page, check_page,
  validate_next_target,
}
use cuac.Pagination.Link.State.{
  LinkPageTransition, LinkPaginationState, LinkValues, construct, next_transition, parse_transition,
  last_page, select_next, settle, advance, advance_body, advance_by_count,
}

Result-cases :
    {A : Type 0} (r : Result A)
    → ((a : A) × (r ≡ ok a)) ⊎ ((e : LinkPaginationErrorKind) × (r ≡ throw e))
Result-cases (ok a) = inl (a, refl)
Result-cases (throw e) = inr (e, refl)

-- A target that is accepted names the page after the current one.
IsNext : Profile → ℕ → ℕ → Type 0
IsNext profile current page = (page ≡ current + profile.page_increment) × (page ≤ u64_max)

-- What a transition says of the page.
IsTransition : Profile → ℕ → LinkPageTransition → Type 0
IsTransition profile current t =
    ((t.has_next ≡ true) × IsNext profile current t.next_page)
    ⊎ ((t.has_next ≡ false) × (t.next_page ≡ 0))

module _ (profile : Profile) (small : profile.page_increment ≤ u64_max) where
  check_page-IsNext :
      (current parsed page : ℕ)
      → check_page profile current parsed ≡ ok page
      → IsNext profile current page
  unfolding check_page IsNext
  check_page-IsNext current parsed page e = ground arith

  validate_next_target-IsNext :
      (target : List ℕ) (current page : ℕ)
      → validate_next_target profile target current ≡ ok page
      → IsNext profile current page
  unfolding validate_next_target
  validate_next_target-IsNext target current page e =
      elim (Result-cases (parse_page profile target)) [
        | inl (parsed, h) ↦ check_page-IsNext current parsed page (ground arith)
        | inr (x, h) ↦ ground arith
      ]

  next_transition-IsTransition :
      (target : List ℕ) (current : ℕ) (t : LinkPageTransition)
      → next_transition profile current target ≡ ok t
      → IsTransition profile current t
  unfolding next_transition IsTransition
  next_transition-IsTransition target current t e =
      elim (Result-cases (validate_next_target profile target current)) [
        | inl (page, h) ↦
            let next = validate_next_target-IsNext target current page h in ground arith
        | inr (x, h) ↦ ground arith
      ]

  parse_transition-IsTransition :
      (values : LinkValues) (current : ℕ) (t : LinkPageTransition)
      → parse_transition values current profile ≡ ok t
      → IsTransition profile current t
  unfolding parse_transition IsTransition
  parse_transition-IsTransition values current t e =
      elim (Result-cases (select_next values.visited none)) [
        | inr (x, h) ↦ ground arith
        | inl (none, h) ↦ ground arith
        | inl (some target, h) ↦ next_transition-IsTransition target current t (ground arith)
      ]

-- How a call on a traversal that has not ended is answered.
abbrev pub Answers : LinkPaginationState → LinkPaginationState × Result LinkPageTransition → Type 0
Answers s (t, throw e) = t ≡ record s { failed = true }
Answers s (t, ok r) =
    ((r.has_next ≡ true)
      × (r.next_page ≡ s.current_page + s.profile.page_increment)
      × (r.next_page ≤ u64_max)
      × (t ≡ record s {
        current_page = r.next_page;
        seen_page_count = (s.seen_page_count + 1) % 18446744073709551616;
      }))
    ⊎ ((r.has_next ≡ false) × (t ≡ record s { exhausted = true }))

settle-Answers :
    (r : Result LinkPageTransition) (s : LinkPaginationState)
    → ((t : LinkPageTransition) → r ≡ ok t → IsTransition s.profile s.current_page t)
    → Answers s (settle r s)
unfolding settle IsTransition IsNext
settle-Answers (throw e) s g = refl
settle-Answers (ok t) s g = let i = g t refl in ground arith

pub data Call : Type 0 where
  advance_call : LinkValues → Call
  advance_body_call : List ℕ → Call
  advance_by_count_call : ℕ → Call

unfoldable pub apply : LinkPaginationState → Call → LinkPaginationState × Result LinkPageTransition
apply s (advance_call values) = advance values s
apply s (advance_body_call next_url) = advance_body next_url s
apply s (advance_by_count_call rows) = advance_by_count rows s

advance_by_count-Answers :
    (rows : ℕ) (s : LinkPaginationState)
    → s.profile.page_increment ≤ u64_max
    → s.failed ≡ false
    → s.exhausted ≡ false
    → Answers s (advance_by_count rows s)
unfolding advance_by_count settle
advance_by_count-Answers rows s small live more = ground arith

advance_body-Answers :
    (next_url : List ℕ) (s : LinkPaginationState)
    → s.profile.page_increment ≤ u64_max
    → s.failed ≡ false
    → s.exhausted ≡ false
    → Answers s (advance_body next_url s)
unfolding advance_body IsTransition
advance_body-Answers [] s small live more =
    let going : (s.failed || s.exhausted) ≡ false = ground arith in
    rw going (settle-Answers (ok last_page) s (λ t e. ground arith))
advance_body-Answers (c ∷ cs) s small live more =
    let going : (s.failed || s.exhausted) ≡ false = ground arith in
    rw going (
      settle-Answers (next_transition s.profile s.current_page (c ∷ cs)) s
        (next_transition-IsTransition s.profile small (c ∷ cs) s.current_page))

-- How a call on a traversal that has not ended, and whose increment fits 64 bits, is answered: the next page is the current one and
-- the increment, in 64 bits, and the traversal is then at it with one page more counted; or the
-- traversal is exhausted; or the error fails it. Nothing else changes.
pub apply-Answers :
    (s : LinkPaginationState) (c : Call)
    → s.profile.page_increment ≤ u64_max
    → s.failed ≡ false
    → s.exhausted ≡ false
    → Answers s (apply s c)
unfolding apply advance
apply-Answers s (advance_by_count_call rows) small live more =
    advance_by_count-Answers rows s small live more
apply-Answers s (advance_body_call next_url) small live more =
    advance_body-Answers next_url s small live more
apply-Answers s (advance_call values) small live more =
    let going : (s.failed || s.exhausted) ≡ false = ground arith in
    rw going (
      settle-Answers (parse_transition values s.current_page s.profile) s
        (parse_transition-IsTransition s.profile small values s.current_page))

-- A traversal that has ended answers a call with an error and stays as it is.
apply_ended :
    (s : LinkPaginationState) (c : Call)
    → (s.failed ≡ true) ⊎ (s.exhausted ≡ true)
    → apply s c ≡ (s, throw state)
unfolding apply advance advance_body advance_by_count
apply_ended s (advance_call values) h = ground arith
apply_ended s (advance_body_call next_url) h = ground arith
apply_ended s (advance_by_count_call rows) h = ground arith

unfoldable pub run : LinkPaginationState → List Call → LinkPaginationState
run s [] = s
run s (c ∷ cs) = run (apply s c).0 cs

-- The page after `k` increments.
abbrev pub page_after : Profile → ℕ → ℕ
page_after profile zero = profile.first_page
page_after profile (suc k) = page_after profile k + profile.page_increment

-- That the traversal is at the page after `k` increments, and has counted `k + 1` pages in 64 bits.
abbrev pub IsAt : Profile → LinkPaginationState → Type 0
IsAt profile s =
    (k : ℕ) × (s.profile ≡ profile)
    × (s.current_page ≡ page_after profile k)
    × (s.seen_page_count ≡ (k + 1) % 18446744073709551616)
    × (s.current_page ≤ u64_max)

module _ (profile : Profile) (small : profile.page_increment ≤ u64_max) where
  answered-IsAt :
      (s : LinkPaginationState) (a : LinkPaginationState × Result LinkPageTransition)
      → IsAt profile s
      → Answers s a
      → IsAt profile a.0
  answered-IsAt s (t, throw e) (k, p, q, r, f) h = rw h (k, p, q, r, f)
  answered-IsAt s (t, ok x) (k, p, q, r, f) (inr (_, h)) = rw h (k, p, q, r, f)
  answered-IsAt s (t, ok x) (k, p, q, r, f) (inl (_, n, m, h)) =
      let page : x.next_page ≡ page_after profile k + profile.page_increment =
        n
        ∙ ap (λ a. a + s.profile.page_increment) q
        ∙ ap (λ (a : Profile). page_after profile k + a.page_increment) p in
      rw h (suc k, p, page, omega (arith, r), m)

  apply-IsAt : (s : LinkPaginationState) (c : Call) → IsAt profile s → IsAt profile (apply s c).0
  apply-IsAt s c v = elim (Bool-cases s.failed) [
    | inl h ↦ rw (apply_ended s c (inl h)) v
    | inr live ↦ elim (Bool-cases s.exhausted) [
      | inl h ↦ rw (apply_ended s c (inr h)) v
      | inr more ↦ answered-IsAt s (apply s c) v (
          apply-Answers s c (subst (λ (a : Profile). a.page_increment ≤ u64_max) (sym v.1) small)
            live more)
    ]
  ]

  run-IsAt_from :
      (s : LinkPaginationState) (cs : List Call) → IsAt profile s → IsAt profile (run s cs)
  unfolding run
  run-IsAt_from s [] v = v
  run-IsAt_from s (c ∷ cs) v = run-IsAt_from (apply s c).0 cs (apply-IsAt s c v)

  -- If the first page and the increment fit 64 bits: after any calls on a new traversal the current page is the first page and some number of
  -- increments, it fits 64 bits, and the pages counted are one more than the increments, in 64 bits.
  pub run-IsAt :
      profile.first_page ≤ u64_max → (cs : List Call) → IsAt profile (run (construct profile) cs)
  unfolding construct
  run-IsAt first cs = run-IsAt_from (construct profile) cs (0, refl, refl, refl, first)
