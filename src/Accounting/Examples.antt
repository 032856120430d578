-- ===== src/Accounting/Examples.antt =====
-- A scan of two pages with one retry, and the theorems at it.
use cuac.Common.{◌≡◌, true, false, List, [], ◌∷◌, refl, inl, arith}
use cuac.Accounting.State.{
  i64_max, Clock, ScanResourceProfile, TransportResourceUsage, DecodedPageResourceUsage, Accounting,
  ok, ready, construct, validate_profile, no_counters, no_allowance, abandoned, add_checked,
  require_within,
}
use cuac.Accounting.Steps.{start_deadline, require_ready_for_next, begin_step, complete_page}
use cuac.Accounting.Attempts.{
  next_allowance, reserve_attempt, begin_attempt, can_begin_retry_attempt, require_retry_body,
  require_retry_attempt_resources,
}
use cuac.Accounting.Commits.{
  commit_request_body, commit_remote_request, commit_attempt_failure, debit_usage,
  commit_attempt_usage, commit_transport, commit_decoded_page,
}
use cuac.Accounting.Waits.{commit_retry_wait}
use cuac.Accounting.Invariant.{IsWithinBudget}
use cuac.Accounting.Growth.{Grows, run-Grows}
use cuac.Accounting.Ended.{run_ended}
use cuac.Accounting.Retry.{Grants, reserved, scan_left, begin_attempt-reserved, retry-Grants}
use cuac.Accounting.Runs.{
  Call, begin_step_call, begin_attempt_call, request_body_call, remote_request_call,
  attempt_failure_call, transport_call, decoded_page_call, complete_page_call, retry_wait_call,
  apply, run, run-IsWithinBudget,
}

abbrev nanoseconds : Clock
nanoseconds = record { ticks_per_millisecond = 1000000; duration_max = i64_max }

abbrev graphql_profile : ScanResourceProfile
graphql_profile = record {
  page = record {
    request_attempts = 3;
    header_bytes = 100;
    wire_response_bytes = 1000;
    decompressed_response_bytes = 2000;
    decoded_records = 10;
    decoded_memory_bytes = 500;
    active_requests = 1;
    serialized_request_body_bytes = 64;
  };
  scan = record {
    request_attempts = 6;
    pages = 2;
    header_bytes = 150;
    wire_response_bytes = 1500;
    decompressed_response_bytes = 3000;
    decoded_records = 15;
    retained_decoded_memory_bytes = 400;
    max_wall_milliseconds = 1000;
    active_requests = 1;
    serialized_request_body_bytes = 200;
    cumulative_waiting_milliseconds = 50;
    cumulative_retry_waiting_milliseconds = 30;
    cumulative_rate_limit_waiting_milliseconds = 50;
    cumulative_remote_transport_milliseconds = 900;
  };
}

abbrev new_scan : Accounting
new_scan = record {
  profile = graphql_profile;
  counters = no_counters;
  state = ready;
  deadline_started = false;
  started_at = 0;
  deadline = 0;
  active_allowance = no_allowance;
  current_step_attempts = 0;
  current_step_page_committed = false;
  current_attempt_remote_committed = false;
}

new_scan-construct : construct nanoseconds graphql_profile ≡ ok new_scan
unfolding construct
new_scan-construct = refl

abbrev small_response : TransportResourceUsage
small_response = record {
  header_bytes = 40;
  wire_response_bytes = 300;
  decompressed_response_bytes = 600;
}

abbrev small_page : DecodedPageResourceUsage
small_page = record { decoded_records = 7; decoded_memory_bytes = 350 }

-- A first attempt that fails, and a wait.
abbrev failed_attempt : List Call
failed_attempt =
    begin_step_call 5
    ∷ begin_attempt_call 6
    ∷ request_body_call 60
    ∷ remote_request_call
    ∷ attempt_failure_call small_response
    ∷ retry_wait_call 20
    ∷ []

abbrev second_attempt : List Call
second_attempt =
    begin_attempt_call 7
    ∷ request_body_call 60
    ∷ remote_request_call
    ∷ transport_call small_response
    ∷ decoded_page_call small_page
    ∷ complete_page_call true 8
    ∷ []

retried : Accounting
unfolding apply run begin_step start_deadline require_ready_for_next begin_attempt reserve_attempt
    next_allowance add_checked require_within commit_request_body commit_remote_request
    commit_attempt_failure commit_attempt_usage debit_usage commit_transport commit_decoded_page
    complete_page commit_retry_wait no_counters
retried = run nanoseconds new_scan failed_attempt

next_page : Accounting
unfolding retried
next_page = run nanoseconds retried second_attempt

next_page_test :
    (next_page.state ≡ ready)
    × (next_page.counters.pages ≡ 1)
    × (next_page.counters.request_attempts ≡ 2)
    × (next_page.deadline ≡ 1000000005)
unfolding next_page
next_page_test = (refl, refl, refl, refl)

run-IsWithinBudget_example : IsWithinBudget (run nanoseconds new_scan failed_attempt)
run-IsWithinBudget_example =
    run-IsWithinBudget nanoseconds graphql_profile failed_attempt new_scan-construct

run-Grows_example : Grows retried (run nanoseconds retried second_attempt)
run-Grows_example = run-Grows nanoseconds retried second_attempt

run_ended_example :
    run nanoseconds (abandoned retried) (begin_step_call 9 ∷ second_attempt)
    ≡ abandoned (abandoned retried)
run_ended_example =
    run_ended nanoseconds (abandoned retried) (begin_step_call 9) second_attempt (inl refl)

retried-IsWithinBudget : IsWithinBudget retried
unfolding retried
retried-IsWithinBudget =
    run-IsWithinBudget nanoseconds graphql_profile failed_attempt new_scan-construct

begin_attempt-reserved_example :
    begin_attempt 7 retried ≡ (reserved retried, ok (scan_left retried))
unfolding retried validate_profile
begin_attempt-reserved_example =
    begin_attempt-reserved nanoseconds 7 retried refl retried-IsWithinBudget refl (inl refl)
      (omega arith) (omega arith) (omega arith)

retry-Grants_example : Grants 60 (begin_attempt 7 retried)
unfolding retried validate_profile require_retry_attempt_resources require_retry_body
    can_begin_retry_attempt
retry-Grants_example =
    retry-Grants nanoseconds 7 60 retried refl retried-IsWithinBudget (omega arith) refl refl
      (omega arith)
