-- ===== src/Accounting/Steps.antt =====
-- The methods of `ScanResourceAccounting`, src/runtime/policy/scan_resource_accounting.cpp: the start and
-- the end of a traversal step.
use cuac.Common.{ℕ, ◌+◌, ◌-◌, ◌*◌, Bool, true, false, not, ◌&&◌, ltb, leb, ◌==◌, if◌then◌else◌}
use cuac.Accounting.State.{
  Clock, ScanResourceState, ready, step_active, page_decoded, exhausted, ◌is◌, Accounting, ok, M,
  ◌>>◌, error, fail, assign, fail_if,
}

-- The checks of `RequireReadyForNext`, in the source's order.
unfoldable pub require_ready_for_next : ℕ → M (Unit {0})
require_ready_for_next now s =
    (do
      fail_if (s.deadline_started && leb s.deadline now)
          (error "wall_milliseconds" "scan exceeded its wall-time budget")
      fail_if (leb scan.pages counters.pages) (error "pages" "scan exhausted its page budget")
      fail_if (leb scan.request_attempts counters.request_attempts)
          (error "request_attempts" "scan exhausted its request-attempt budget")
      fail_if (leb scan.header_bytes counters.header_bytes)
          (error "header_bytes" "scan exhausted its response-header budget")
      fail_if (leb scan.wire_response_bytes counters.wire_response_bytes)
          (error "response_bytes" "scan exhausted its wire-response budget")
      fail_if (leb scan.decompressed_response_bytes counters.decompressed_response_bytes)
          (error "decompressed_bytes" "scan exhausted its decompressed-response budget")
      fail_if (leb scan.decoded_records counters.decoded_records)
          (error "decoded_records" "scan exhausted its decoded-record budget")
      fail_if
          (not (scan.serialized_request_body_bytes == 0)
            && leb scan.serialized_request_body_bytes counters.serialized_request_body_bytes)
          (error "request_body_bytes" "scan exhausted its serialized-request-body budget"))
      s
  where
    open s use {counters, profile.{scan}}

-- The first step starts the scan's one deadline.
unfoldable pub start_deadline : Clock → ℕ → M (Unit {0})
start_deadline clock now s =
    let wall_time = s.profile.scan.max_wall_milliseconds * clock.ticks_per_millisecond in
    if s.deadline_started
    then (s, ok tt)
    else if ltb (clock.duration_max - wall_time) now
    then fail (error "wall_milliseconds" "scan wall-time budget cannot be represented") s
    else (record s { deadline = now + wall_time; started_at = now; deadline_started = true }, ok tt)

unfoldable pub begin_step : Clock → ℕ → M (Unit {0})
begin_step clock now s =
    (do
      fail_if (not (s.state is ready))
          (error "resource_state" "scan resource state cannot begin a traversal step")
      start_deadline clock now
      require_ready_for_next now
      assign λ t. record t {
        current_step_attempts = 0;
        current_step_page_committed = false;
        state = step_active;
      })
      s

-- The step is over: its attempts and its page are forgotten.
abbrev pub step_over : ScanResourceState → Accounting → Accounting
step_over state s = record s {
  state = state;
  current_step_attempts = 0;
  current_step_page_committed = false;
}

unfoldable pub complete_page : Bool → ℕ → M (Unit {0})
complete_page has_next now s =
    (do
      fail_if (not (s.state is page_decoded))
          (error "resource_state" "scan resource state cannot complete page")
      assign λ t. record t { counters = record (t.counters) { retained_decoded_memory_bytes = 0 } }
      fail_if (leb s.deadline now) (error "wall_milliseconds" "scan exceeded its wall-time budget")
      (if not has_next
          then assign (step_over exhausted)
          else (do assign (step_over ready); require_ready_for_next now)))
      s
