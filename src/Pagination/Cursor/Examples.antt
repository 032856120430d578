-- ===== src/Pagination/Cursor/Examples.antt =====
-- A traversal of two pages, and the theorems at it.
use cuac.Common.{same_bytes, ◌≡◌, true, false, some, List, [], ◌∷◌, refl, arith}
use cuac.Pagination.Cursor.{
  GraphqlCursorState, current_cursor, construct, mark_request_started, advance, repeated,
}
use cuac.Pagination.Cursor.Invariant.{
  Call, request_call, advance_call, apply, run, IsBounded, run-IsBounded, Answers, advance-Answers,
}

abbrev new_state : GraphqlCursorState
new_state = record {
  max_pages = 3;
  max_cursor_bytes = 4;
  requested_pages = 0;
  exhausted = false;
  failed = false;
  seen = [];
}

new_state-construct : construct 3 4 ≡ some new_state
unfolding construct
new_state-construct = refl

abbrev two_pages : List Call
two_pages =
    request_call
    ∷ advance_call true (65 ∷ 66 ∷ [])
    ∷ request_call
    ∷ advance_call true (67 ∷ [])
    ∷ []

second_page : current_cursor (run new_state two_pages) ≡ some (67 ∷ [])
unfolding current_cursor run apply mark_request_started advance repeated same_bytes
second_page = refl

abbrev started : GraphqlCursorState
started = record new_state { requested_pages = 1; seen = (65 ∷ []) ∷ [] }

run-IsBounded_example : IsBounded (run new_state two_pages)
run-IsBounded_example = run-IsBounded 3 4 two_pages new_state-construct

advance-Answers_example : Answers true (66 ∷ []) started (advance true (66 ∷ []) started)
advance-Answers_example = advance-Answers true (66 ∷ []) started refl refl (omega arith)
