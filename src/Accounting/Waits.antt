-- ===== src/Accounting/Waits.antt =====
-- The methods of `ScanResourceAccounting`, src/runtime/policy/scan_resource_accounting.cpp: waiting times,
-- the abandonment of a page and the elapsed time.
use cuac.Common.{ℕ, ◌-◌, ◌/◌, min, not, ◌||◌, ◌&&◌, leb, if◌then◌else◌}
use cuac.Accounting.State.{
  u64_max, Clock, ScanResourceError, step_active, request_active, request_body_committed, ◌is◌,
  Accounting, M, ◌>>=◌, ◌>>◌, error, abandoned, lift, assign, fail_if, try_or_fail, add_checked,
}

abbrev waiting_error : ScanResourceError → ScanResourceError
waiting_error _ =
    error "cumulative_waiting_milliseconds" "scan exceeded its cumulative-waiting budget"

unfoldable pub commit_retry_wait : ℕ → M (Unit {0})
commit_retry_wait milliseconds s =
    (do
      fail_if (not (s.state is step_active))
          (error "resource_state" "scan resource state cannot commit a wait")
      try_or_fail
          (do
            total ← lift (
                add_checked counters.cumulative_waiting_milliseconds milliseconds
                  scan.cumulative_waiting_milliseconds)
            assign λ t. record t {
              counters = record (t.counters) { cumulative_waiting_milliseconds = total };
            }
            retry ← lift (
                add_checked counters.cumulative_retry_waiting_milliseconds milliseconds
                  scan.cumulative_retry_waiting_milliseconds)
            assign λ t. record t {
              counters = record (t.counters) { cumulative_retry_waiting_milliseconds = retry };
            })
          waiting_error)
      s
  where
    open s use {counters, profile.{scan}}

unfoldable pub commit_rate_limit_wait : ℕ → M (Unit {0})
commit_rate_limit_wait milliseconds s =
    (do
      fail_if (not (s.state is step_active))
          (error "resource_state" "scan resource state cannot commit a rate-limit wait")
      try_or_fail
          (do
            total ← lift (
                add_checked counters.cumulative_waiting_milliseconds milliseconds
                  scan.cumulative_waiting_milliseconds)
            assign λ t. record t {
              counters = record (t.counters) { cumulative_waiting_milliseconds = total };
            }
            limited ← lift (
                add_checked counters.cumulative_rate_limit_waiting_milliseconds milliseconds
                  scan.cumulative_rate_limit_waiting_milliseconds)
            assign λ t. record t {
              counters = record (t.counters) {
                cumulative_rate_limit_waiting_milliseconds = limited;
              };
            })
          waiting_error)
      s
  where
    open s use {counters, profile.{scan}}

unfoldable pub commit_admission_wait : ℕ → ℕ → M (Unit {0})
commit_admission_wait milliseconds limit s =
    (do
      fail_if (not (s.state is step_active))
          (error "resource_state" "scan resource state cannot commit admission waiting")
      try_or_fail
          (do
            total ← lift (
                add_checked s.counters.cumulative_admission_waiting_milliseconds milliseconds limit)
            assign λ t. record t {
              counters = record (t.counters) { cumulative_admission_waiting_milliseconds = total };
            })
          λ _.
            error "admission_waiting_milliseconds"
              "scan exceeded its cumulative admission-waiting budget")
      s

unfoldable pub commit_remote_transport_time : ℕ → M (Unit {0})
commit_remote_transport_time milliseconds s =
    (do
      fail_if (not (s.state is request_active) && not (s.state is request_body_committed))
          (error "resource_state" "scan resource state cannot commit remote transport time")
      try_or_fail
          (do
            total ← lift (
                add_checked s.counters.cumulative_remote_transport_milliseconds milliseconds
                  u64_max)
            assign λ t. record t {
              counters = record (t.counters) { cumulative_remote_transport_milliseconds = total };
            })
          λ _. error "wall_milliseconds" "scan remote transport accounting overflowed")
      s

unfoldable pub abort_page : M (Unit {0})
abort_page = assign abandoned

-- `ElapsedMilliseconds`.
unfoldable pub elapsed_milliseconds : Clock → ℕ → Accounting → ℕ
elapsed_milliseconds clock observed_at s =
    if not s.deadline_started || leb observed_at s.started_at
    then 0
    else min ((observed_at - s.started_at) / clock.ticks_per_millisecond)
        s.profile.scan.max_wall_milliseconds
