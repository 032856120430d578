-- ===== src/Pagination/Cursor/Invariant.antt =====
-- A traversal under any sequence of calls.
use cuac.Common.{
  same_bytes, ℕ, ◌≤◌, ◌<◌, ◌≡◌, ◌≢◌, ◌⊎◌, Bool, true, false, none, some, List, [], ◌∷◌, length, All,
  refl, arith,
}
use cuac.Pagination.Cursor.{
  Cursor, GraphqlCursorState, Result, done, throw, slots, construct, current_cursor, release, fail,
  mark_request_started, repeated, advance,
}

pub data Call : Type 0 where
  request_call : Call
  advance_call : Bool → Cursor → Call
  fail_call : Call
  release_call : Call

unfoldable pub apply : GraphqlCursorState → Call → GraphqlCursorState × Result
apply s request_call = mark_request_started s
apply s (advance_call has_next end_cursor) = advance has_next end_cursor s
apply s fail_call = (fail s, done)
apply s release_call = (release s, done)

unfoldable pub run : GraphqlCursorState → List Call → GraphqlCursorState
run s [] = s
run s (c ∷ cs) = run (apply s c).0 cs

-- No cursor of the list occurs again behind it.
abbrev pub Distinct : List Cursor → Type 0
Distinct [] = Unit {0}
Distinct (c ∷ cs) = All (λ d. c ≢ d) cs × Distinct cs

-- Nonempty and within the byte budget.
abbrev pub Fits : ℕ → Cursor → Type 0
Fits limit c = (0 < length c) × (length c ≤ limit)

pub record IsBounded (s : GraphqlCursorState) : Type 0 where
  pub pages : s.requested_pages ≤ s.max_pages
  pub few : length s.seen ≤ slots
  pub fits : All (Fits s.max_cursor_bytes) s.seen
  pub distinct : Distinct s.seen
  pub terminal : (s.failed ≡ true) ⊎ (s.exhausted ≡ true) → s.seen ≡ []

same_eq : (c d : Cursor) → c ≡ d → same_bytes d c ≡ true
unfolding same_bytes
same_eq [] [] e = refl
same_eq (a ∷ c) (b ∷ d) e = ground (arith, same_eq c d)
same_eq [] (b ∷ d) e = cc
same_eq (a ∷ c) [] e = cc

not_repeated : (c : Cursor) (ds : List Cursor) → repeated c ds ≡ false → All (λ d. c ≢ d) ds
unfolding repeated
not_repeated c [] h = tt
not_repeated c (d ∷ ds) h = (λ e. ground (arith, same_eq c d e), not_repeated c ds (ground arith))

mark_request_started-IsBounded :
    (s : GraphqlCursorState) → IsBounded s → IsBounded (mark_request_started s).0
unfolding mark_request_started
mark_request_started-IsBounded s v = ground arith

advance-IsBounded :
    (has_next : Bool) (c : Cursor) (s : GraphqlCursorState)
    → IsBounded s
    → IsBounded (advance has_next c s).0
unfolding advance
advance-IsBounded has_next c s v = ground (arith, not_repeated c s.seen)

apply-IsBounded : (s : GraphqlCursorState) (c : Call) → IsBounded s → IsBounded (apply s c).0
unfolding apply
apply-IsBounded s request_call v = mark_request_started-IsBounded s v
apply-IsBounded s (advance_call has_next c) v = advance-IsBounded has_next c s v
apply-IsBounded s fail_call v = ground arith
apply-IsBounded s release_call v = ground arith

run-IsBounded_from : (cs : List Call) (s : GraphqlCursorState) → IsBounded s → IsBounded (run s cs)
unfolding run
run-IsBounded_from [] s v = v
run-IsBounded_from (c ∷ cs) s v = run-IsBounded_from cs (apply s c).0 (apply-IsBounded s c v)

construct-IsBounded :
    (max_pages max_cursor_bytes : ℕ) {s : GraphqlCursorState}
    → construct max_pages max_cursor_bytes ≡ some s
    → IsBounded s
unfolding construct
construct-IsBounded max_pages max_cursor_bytes e = ground arith

-- After any calls on a new state, in any order: no more pages were requested than the profile
-- allows, the cursors that are held are at most 32, nonempty, within the byte budget and pairwise
-- different, and a failed or exhausted traversal holds none.
pub run-IsBounded :
    (max_pages max_cursor_bytes : ℕ) (calls : List Call) {s : GraphqlCursorState}
    → construct max_pages max_cursor_bytes ≡ some s
    → IsBounded (run s calls)
run-IsBounded max_pages max_cursor_bytes calls {s} e =
    run-IsBounded_from calls s (construct-IsBounded max_pages max_cursor_bytes e)

-- What the state and the result of `Advance` are, for the last page and for another.
abbrev pub Answers : Bool → Cursor → GraphqlCursorState → GraphqlCursorState × Result → Type 0
Answers false c s (t, r) =
    (r ≡ done) × (t.exhausted ≡ true) × (t.failed ≡ false) × (current_cursor t ≡ none)
Answers true c s (t, done) =
    Fits s.max_cursor_bytes c
    × All (λ d. c ≢ d) s.seen
    × (length s.seen < slots)
    × (current_cursor t ≡ some c)
    × (t.seen ≡ c ∷ s.seen)
Answers true c s (t, throw e) =
    ((length c ≡ 0)
      ⊎ (s.max_cursor_bytes < length c)
      ⊎ (repeated c s.seen ≡ true)
      ⊎ (slots ≤ length s.seen))
    × (t.failed ≡ true)
    × (current_cursor t ≡ none)

-- How a continuation is answered by a traversal that has requested a page and has not ended: the
-- last page ends it; otherwise the continuation is accepted exactly if it is nonempty, within the
-- byte budget, unlike every cursor held and has a free slot, and is then the current cursor; any
-- other continuation fails the traversal, which then has no cursor.
pub advance-Answers :
    (has_next : Bool) (c : Cursor) (s : GraphqlCursorState)
    → s.failed ≡ false
    → s.exhausted ≡ false
    → 0 < s.requested_pages
    → Answers has_next c s (advance has_next c s)
unfolding advance current_cursor
advance-Answers true [] s live more started = ground arith
advance-Answers true (b ∷ c) s live more started = ground (arith, not_repeated (b ∷ c) s.seen)
advance-Answers false c s live more started = ground arith
