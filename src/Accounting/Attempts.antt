-- ===== src/Accounting/Attempts.antt =====
-- The methods of `ScanResourceAccounting`, src/runtime/policy/scan_resource_accounting.cpp: the start of a
-- request attempt and the checks before a retry.
use cuac.Common.{ℕ, ◌-◌, min, Bool, true, false, not, ◌||◌, ◌&&◌, ltb, leb, ◌==◌, if◌then◌else◌}
use cuac.Accounting.State.{
  PageResourceAllowance, ScanResourceError, step_active, request_active, ◌is◌, Accounting, ok, M,
  ◌>>=◌, ◌>>◌, error, raise, lift, assign, fail_if, try_or_fail, same_error, remaining, add_checked,
}

-- The limits of the next request: each the smaller of the page's and of what the scan has left.
unfoldable pub next_allowance : M PageResourceAllowance
unfolding remaining
next_allowance s =
    (do
      header ← lift (remaining scan.header_bytes counters.header_bytes)
      wire ← lift (remaining scan.wire_response_bytes counters.wire_response_bytes)
      decompressed ←
          lift (remaining scan.decompressed_response_bytes counters.decompressed_response_bytes)
      records ← lift (remaining scan.decoded_records counters.decoded_records)
      body ← lift (
          if page.serialized_request_body_bytes == 0
          then ok 0
          else remaining scan.serialized_request_body_bytes counters.serialized_request_body_bytes)
      lift (
          ok (record {
            header_bytes = min page.header_bytes header;
            wire_response_bytes = min page.wire_response_bytes wire;
            decompressed_response_bytes = min page.decompressed_response_bytes decompressed;
            decoded_records = min page.decoded_records records;
            decoded_memory_bytes = min page.decoded_memory_bytes scan.retained_decoded_memory_bytes;
            serialized_request_body_bytes = min page.serialized_request_body_bytes body;
            deadline = s.deadline;
          })))
      s
  where
    open s use {counters, profile.{page, scan}}

-- The `try` block of `BeginAttempt`: nothing is assigned before every check has passed.
unfoldable pub reserve_attempt : M PageResourceAllowance
reserve_attempt s =
    (do
      next_step_attempts ← lift (add_checked s.current_step_attempts 1 page.request_attempts)
      next_scan_attempts ← lift (add_checked counters.request_attempts 1 scan.request_attempts)
      next_pages ← lift (
          if s.current_step_page_committed
          then ok counters.pages
          else add_checked counters.pages 1 scan.pages)
      next_active_requests ← lift (add_checked counters.active_requests 1 scan.active_requests)
      allowance ← next_allowance
      assign λ t. record t {
        current_step_attempts = next_step_attempts;
        counters = record counters {
          request_attempts = next_scan_attempts;
          pages = next_pages;
          active_requests = next_active_requests;
        };
        current_step_page_committed = true;
        current_attempt_remote_committed = false;
        active_allowance = allowance;
        state = request_active;
      }
      lift (ok allowance))
      s
  where
    open s use {counters, profile.{page, scan}}

unfoldable pub begin_attempt : ℕ → M PageResourceAllowance
begin_attempt now s =
    (do
      fail_if (not (s.state is step_active))
          (error "resource_state" "scan resource state cannot begin an attempt")
      fail_if (leb s.deadline now) (error "wall_milliseconds" "scan exceeded its wall-time budget")
      fail_if
          (out_of_pages
            || leb page.request_attempts s.current_step_attempts
            || leb scan.request_attempts counters.request_attempts)
          (if out_of_pages
            then error "pages" "scan exhausted its page budget"
            else error "request_attempts" "scan exhausted its request-attempt budget")
      try_or_fail reserve_attempt same_error)
      s
  where
    open s use {counters, profile.{page, scan}}

    out_of_pages : Bool
    out_of_pages = not s.current_step_page_committed && leb scan.pages counters.pages

-- `CanBeginRetryAttempt`.
unfoldable pub can_begin_retry_attempt : Accounting → Bool
can_begin_retry_attempt s =
    s.state is step_active
    && ltb s.current_step_attempts s.profile.page.request_attempts
    && ltb s.counters.request_attempts s.profile.scan.request_attempts

abbrev raise_if : Bool → ScanResourceError → M (Unit {0})
raise_if b e s = if b then raise e s else (s, ok tt)

-- The last checks of `RequireRetryAttemptResources`: the request body.
unfoldable pub require_retry_body : ℕ → M (Unit {0})
require_retry_body bytes s =
    if page.serialized_request_body_bytes == 0
    then raise_if (not (bytes == 0))
        (error "request_body_bytes" "bodyless scan cannot begin a body-bearing retry") s
    else raise_if
        (bytes == 0
          || ltb page.serialized_request_body_bytes bytes
          || ltb scan.serialized_request_body_bytes counters.serialized_request_body_bytes
          || ltb (scan.serialized_request_body_bytes - counters.serialized_request_body_bytes)
              bytes)
        (error "request_body_bytes" "scan exhausted its serialized-request-body budget") s
  where
    open s use {counters, profile.{page, scan}}

-- `RequireRetryAttemptResources`, which throws without leaving the state that it is in.
unfoldable pub require_retry_attempt_resources : ℕ → M (Unit {0})
require_retry_attempt_resources bytes s =
    (do
      raise_if (not (can_begin_retry_attempt s))
          (error "request_attempts" "scan exhausted its request-attempt budget")
      raise_if (leb scan.header_bytes counters.header_bytes)
          (error "header_bytes" "scan exhausted its response-header budget")
      raise_if (leb scan.wire_response_bytes counters.wire_response_bytes)
          (error "response_bytes" "scan exhausted its wire-response budget")
      raise_if (leb scan.decompressed_response_bytes counters.decompressed_response_bytes)
          (error "decompressed_bytes" "scan exhausted its decompressed-response budget")
      require_retry_body bytes)
      s
  where
    open s use {counters, profile.{scan}}
