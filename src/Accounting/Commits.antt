-- ===== src/Accounting/Commits.antt =====
-- The methods of `ScanResourceAccounting`, src/runtime/policy/scan_resource_accounting.cpp: what a request
-- has used.
use cuac.Common.{ℕ, max, Bool, true, not, ◌||◌, ◌&&◌, ◌==◌, if◌then◌else◌}
use cuac.Accounting.State.{
  TransportResourceUsage, DecodedPageResourceUsage, ScanResourceState, step_active, request_active,
  request_body_committed, transport_committed, page_decoded, ◌is◌, Accounting, ok, throw, M, ◌>>=◌,
  ◌>>◌, error, lift, assign, fail_if, try_or_fail, same_error, add_checked, require_within,
}

unfoldable pub commit_request_body : ℕ → M (Unit {0})
commit_request_body bytes s =
    (do
      fail_if (not (s.state is request_active) || s.profile.page.serialized_request_body_bytes == 0)
          (error "resource_state" "scan resource state cannot commit a request body")
      try_or_fail
          (do
            lift (
                if bytes == 0
                then throw (error "request_body_bytes" "serialized request body cannot be empty")
                else ok tt)
            lift (
                require_within bytes s.active_allowance.serialized_request_body_bytes
                  "request_body_bytes")
            total ← lift (
                add_checked s.counters.serialized_request_body_bytes bytes
                  s.profile.scan.serialized_request_body_bytes)
            assign λ t. record t {
              counters = record (t.counters) { serialized_request_body_bytes = total };
              state = request_body_committed;
            })
          same_error)
      s

-- `bodyless_ready || body_ready`: the request is complete and its transport not yet committed.
abbrev pub request_ready : Accounting → Bool
request_ready s =
    (s.state is request_active && s.profile.page.serialized_request_body_bytes == 0)
    || (s.state is request_body_committed
        && not (s.profile.page.serialized_request_body_bytes == 0))

unfoldable pub commit_remote_request : M (Unit {0})
commit_remote_request s =
    (do
      fail_if (not (request_ready s) || s.current_attempt_remote_committed)
          (error "resource_state" "scan resource state cannot commit a remote request")
      try_or_fail
          (do
            total ← lift (add_checked s.counters.remote_requests 1 s.profile.scan.request_attempts)
            assign λ t. record t {
              counters = record (t.counters) { remote_requests = total };
              current_attempt_remote_committed = true;
            })
          same_error)
      s

-- The `try` block of `CommitAttemptUsage`: the counters are assigned one by one.
unfoldable pub debit_usage : TransportResourceUsage → ScanResourceState → M (Unit {0})
debit_usage usage next_state s =
    (do
      lift (require_within usage.header_bytes allowance.header_bytes "header_bytes")
      lift (require_within usage.wire_response_bytes allowance.wire_response_bytes "response_bytes")
      lift (
          require_within usage.decompressed_response_bytes allowance.decompressed_response_bytes
            "decompressed_bytes")
      header ← lift (add_checked counters.header_bytes usage.header_bytes scan.header_bytes)
      assign λ t. record t { counters = record (t.counters) { header_bytes = header } }
      wire ← lift (
          add_checked counters.wire_response_bytes usage.wire_response_bytes
            scan.wire_response_bytes)
      assign λ t. record t { counters = record (t.counters) { wire_response_bytes = wire } }
      decompressed ← lift (
          add_checked counters.decompressed_response_bytes usage.decompressed_response_bytes
            scan.decompressed_response_bytes)
      assign λ t. record t {
        counters = record (t.counters) {
          decompressed_response_bytes = decompressed;
          active_requests = 0;
        };
        state = next_state;
      })
      s
  where
    open s use {counters, active_allowance as allowance, profile.{scan}}

unfoldable pub commit_attempt_usage : TransportResourceUsage → ScanResourceState → M (Unit {0})
commit_attempt_usage usage next_state s =
    (do
      fail_if (not (request_ready s))
          (error "resource_state" "scan resource state cannot commit transport")
      try_or_fail (debit_usage usage next_state) same_error)
      s

unfoldable pub commit_attempt_failure : TransportResourceUsage → M (Unit {0})
commit_attempt_failure usage = commit_attempt_usage usage step_active

unfoldable pub commit_transport : TransportResourceUsage → M (Unit {0})
commit_transport usage = commit_attempt_usage usage transport_committed

unfoldable pub commit_decoded_page : DecodedPageResourceUsage → M (Unit {0})
commit_decoded_page usage s =
    (do
      fail_if (not (s.state is transport_committed))
          (error "resource_state" "scan resource state cannot commit decoded page")
      try_or_fail
          (do
            lift (require_within usage.decoded_records allowance.decoded_records "decoded_records")
            lift (
                require_within usage.decoded_memory_bytes allowance.decoded_memory_bytes
                  "decoded_memory_bytes")
            records ← lift (
                add_checked s.counters.decoded_records usage.decoded_records
                  s.profile.scan.decoded_records)
            assign λ t. record t {
              counters = record (t.counters) {
                decoded_records = records;
                retained_decoded_memory_bytes = usage.decoded_memory_bytes;
                peak_decoded_memory_bytes =
                    max t.counters.peak_decoded_memory_bytes usage.decoded_memory_bytes;
              };
              state = page_decoded;
            })
          same_error)
      s
  where
    open s use {active_allowance as allowance}
