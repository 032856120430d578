-- ===== src/Pagination/Cursor.antt =====
-- The cursor of a GraphQL traversal, src/runtime/pagination/graphql_cursor_pagination.cpp. A cursor
-- is its list of bytes. `seen` holds the slots of the source's array that are in use, the last one
-- first.
pub mod Invariant
mod Examples
use cuac.Common.{
  ℕ, ◌+◌, Bool, true, false, not, ◌||◌, ◌&&◌, Option, none, some, List, [], ◌∷◌, String, length,
  same_bytes, ltb, leb, ◌==◌, if◌then◌else◌,
}

abbrev pub Cursor : Type 0
Cursor = List ℕ

pub data GraphqlCursorErrorKind : Type 0 where
  profile resource_budget protocol : GraphqlCursorErrorKind

pub record GraphqlCursorError : Type 0 where
  pub kind : GraphqlCursorErrorKind
  pub field : String
  pub safe_message : String

abbrev error : GraphqlCursorErrorKind → String → GraphqlCursorError
error kind message = record { kind = kind; field = "pagination.cursor"; safe_message = message }

pub record GraphqlCursorState : Type 0 where
  pub max_pages : ℕ
  pub max_cursor_bytes : ℕ
  pub requested_pages : ℕ
  pub exhausted : Bool
  pub failed : Bool
  pub seen : List Cursor

-- What a method leaves: nothing, or the error that it throws.
pub data Result : Type 0 where
  done : Result
  throw : GraphqlCursorError → Result

-- The slots of the array `seen`.
abbrev pub slots : ℕ
slots = 32

-- The constructor; `none` is its throw of the profile error.
pub construct : ℕ → ℕ → Option GraphqlCursorState
construct max_pages max_cursor_bytes =
    if max_pages == 0 || ltb 32 max_pages || max_cursor_bytes == 0 || ltb 512 max_cursor_bytes
    then none
    else some (record {
      max_pages = max_pages;
      max_cursor_bytes = max_cursor_bytes;
      requested_pages = 0;
      exhausted = false;
      failed = false;
      seen = [];
    })

abbrev newest : List Cursor → Option Cursor
newest [] = none
newest (c ∷ cs) = some c

pub current_cursor : GraphqlCursorState → Option Cursor
current_cursor s = if s.exhausted || s.failed then none else newest s.seen

-- `Release` and `Fail`.
abbrev pub release : GraphqlCursorState → GraphqlCursorState
release s = record s { seen = [] }

abbrev pub fail : GraphqlCursorState → GraphqlCursorState
fail s = release (record s { failed = true })

-- `Reject`: terminal, and then thrown.
abbrev reject : GraphqlCursorErrorKind → String → GraphqlCursorState → GraphqlCursorState × Result
reject kind message s = (fail s, throw (error kind message))

pub mark_request_started : GraphqlCursorState → GraphqlCursorState × Result
mark_request_started s =
    if s.failed || s.exhausted || leb s.max_pages s.requested_pages
    then reject resource_budget "GraphQL cursor traversal exceeded its page authority" s
    else (record s { requested_pages = s.requested_pages + 1 }, done)

pub repeated : Cursor → List Cursor → Bool
repeated c [] = false
repeated c (d ∷ ds) = same_bytes d c || repeated c ds

abbrev is_empty : Cursor → Bool
is_empty [] = true
is_empty _ = false

pub advance : Bool → Cursor → GraphqlCursorState → GraphqlCursorState × Result
advance has_next end_cursor s =
    if s.failed || s.exhausted || s.requested_pages == 0
    then reject protocol "GraphQL cursor state cannot advance" s
    else if not has_next
    then (release (record s { exhausted = true }), done)
    else if is_empty end_cursor
    then reject protocol "GraphQL continuation cursor is missing" s
    else if ltb s.max_cursor_bytes (length end_cursor)
    then reject resource_budget "GraphQL continuation cursor exceeded its byte budget" s
    else if repeated end_cursor s.seen
    then reject protocol "GraphQL continuation cursor repeated" s
    else if leb slots (length s.seen)
    then reject resource_budget "GraphQL cursor traversal exceeded its page authority" s
    else (record s { seen = end_cursor ∷ s.seen }, done)
