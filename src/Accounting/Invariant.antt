-- ===== src/Accounting/Invariant.antt =====
-- What holds of a scan's accounting between calls, and that every call keeps it.
use cuac.Common.{ℕ, ◌+◌, ◌≤◌, ◌≡◌, inl, inr, Bool-cases, arith, if◌then◌else◌}
use cuac.Accounting.State.{
  u64_max, TransportResourceUsage, DecodedPageResourceUsage, ScanResourceState, request_active,
  request_body_committed, Accounting, PageResourceAllowance, abandoned, try_or_fail, same_error,
  Result, ok, throw, add_checked, require_within,
}
use cuac.Accounting.Attempts.{reserve_attempt, next_allowance, begin_attempt}
use cuac.Accounting.Commits.{
  commit_request_body, commit_remote_request, debit_usage, request_ready, commit_attempt_usage,
  commit_decoded_page,
}
use cuac.Accounting.Waits.{
  commit_retry_wait, commit_rate_limit_wait, commit_admission_wait, commit_remote_transport_time,
}

-- One while a request holds transport authority.
abbrev pub in_flight : ScanResourceState → ℕ
in_flight request_active = 1
in_flight request_body_committed = 1
in_flight _ = 0

-- One while a request is in flight that has not been handed to transport.
abbrev pub unsent : Accounting → ℕ
unsent s = if s.current_attempt_remote_committed then 0 else in_flight s.state

-- The requests of the scan and of its step.
pub record IsRequestBudget (s : Accounting) : Type 0 where
  pub attempts : s.counters.request_attempts ≤ s.profile.scan.request_attempts
  pub remote : s.counters.remote_requests + unsent s ≤ s.counters.request_attempts
  pub pages : s.counters.pages ≤ s.profile.scan.pages
  pub page_attempts : s.counters.pages ≤ s.counters.request_attempts
  pub active : s.counters.active_requests ≡ in_flight s.state
  pub step_attempts : s.current_step_attempts ≤ s.profile.page.request_attempts

-- The bytes and records of the scan's responses and request bodies.
pub record IsByteBudget (s : Accounting) : Type 0 where
  pub header : s.counters.header_bytes ≤ s.profile.scan.header_bytes
  pub wire : s.counters.wire_response_bytes ≤ s.profile.scan.wire_response_bytes
  pub decompressed :
      s.counters.decompressed_response_bytes ≤ s.profile.scan.decompressed_response_bytes
  pub records : s.counters.decoded_records ≤ s.profile.scan.decoded_records
  pub body : s.counters.serialized_request_body_bytes ≤ s.profile.scan.serialized_request_body_bytes
  pub retained : s.counters.retained_decoded_memory_bytes ≤ s.counters.peak_decoded_memory_bytes
  pub peak : s.counters.peak_decoded_memory_bytes ≤ s.profile.scan.retained_decoded_memory_bytes
  pub memory_allowance :
      s.active_allowance.decoded_memory_bytes ≤ s.profile.scan.retained_decoded_memory_bytes

-- The times that the scan has spent waiting, and in transport, which no limit of the profile bounds.
pub record IsTimeBudget (s : Accounting) : Type 0 where
  pub waiting :
      s.counters.cumulative_waiting_milliseconds ≤ s.profile.scan.cumulative_waiting_milliseconds
  pub retry_waiting :
      s.counters.cumulative_retry_waiting_milliseconds
      ≤ s.profile.scan.cumulative_retry_waiting_milliseconds
  pub rate_limit_waiting :
      s.counters.cumulative_rate_limit_waiting_milliseconds
      ≤ s.profile.scan.cumulative_rate_limit_waiting_milliseconds
  pub waiting_parts :
      s.counters.cumulative_retry_waiting_milliseconds
        + s.counters.cumulative_rate_limit_waiting_milliseconds
      ≤ s.counters.cumulative_waiting_milliseconds
  pub transport : s.counters.cumulative_remote_transport_milliseconds ≤ u64_max

-- The budgets together. The wait for admission is in none of them.
pub record IsWithinBudget (s : Accounting) : Type 0 where
  pub requests : IsRequestBudget s
  pub bytes : IsByteBudget s
  pub times : IsTimeBudget s

-- What `add_checked` returns: the sum, if it is within the limit.
abbrev pub Sums : ℕ → ℕ → ℕ → Result ℕ → Type 0
Sums current amount limit (ok total) = (total ≡ current + amount) × (total ≤ limit)
Sums current amount limit (throw e) = Unit

pub add_checked-Sums :
    (current amount limit : ℕ) → Sums current amount limit (add_checked current amount limit)
unfolding add_checked
add_checked-Sums current amount limit = ground arith

pub abandoned-IsWithinBudget : (s : Accounting) → IsWithinBudget s → IsWithinBudget (abandoned s)
abandoned-IsWithinBudget s v = ground arith

pub commit_request_body-IsWithinBudget :
    (bytes : ℕ) (s : Accounting) → IsWithinBudget s → IsWithinBudget (commit_request_body bytes s).0
unfolding commit_request_body add_checked require_within
commit_request_body-IsWithinBudget bytes s v = ground arith

pub commit_remote_request-IsWithinBudget :
    (s : Accounting) → IsWithinBudget s → IsWithinBudget (commit_remote_request s).0
unfolding commit_remote_request add_checked
commit_remote_request-IsWithinBudget s v = ground arith

module _ (usage : TransportResourceUsage) (next : ScanResourceState) (s : Accounting) where
  debit_usage-IsRequestBudget :
      in_flight next ≡ 0
      → IsRequestBudget s
      → IsRequestBudget (try_or_fail (debit_usage usage next) same_error s).0
  unfolding debit_usage add_checked require_within
  debit_usage-IsRequestBudget h v = ground arith

  debit_usage-IsByteBudget :
      IsByteBudget s → IsByteBudget (try_or_fail (debit_usage usage next) same_error s).0
  unfolding debit_usage
  debit_usage-IsByteBudget v = ground (
    arith,
    add_checked-Sums s.counters.header_bytes usage.header_bytes s.profile.scan.header_bytes,
    add_checked-Sums s.counters.wire_response_bytes usage.wire_response_bytes
        s.profile.scan.wire_response_bytes,
    add_checked-Sums s.counters.decompressed_response_bytes usage.decompressed_response_bytes
        s.profile.scan.decompressed_response_bytes,
  )

  debit_usage-IsTimeBudget :
      IsTimeBudget s → IsTimeBudget (try_or_fail (debit_usage usage next) same_error s).0
  unfolding debit_usage add_checked require_within
  debit_usage-IsTimeBudget v = ground arith

  debit_usage-IsWithinBudget :
      in_flight next ≡ 0
      → IsWithinBudget s
      → IsWithinBudget (try_or_fail (debit_usage usage next) same_error s).0
  debit_usage-IsWithinBudget h v = record {
    requests = debit_usage-IsRequestBudget h v.requests;
    bytes = debit_usage-IsByteBudget v.bytes;
    times = debit_usage-IsTimeBudget v.times;
  }

  pub commit_attempt_usage-IsWithinBudget :
      in_flight next ≡ 0 → IsWithinBudget s → IsWithinBudget (commit_attempt_usage usage next s).0
  unfolding commit_attempt_usage
  commit_attempt_usage-IsWithinBudget h v = elim (Bool-cases (request_ready s)) [
    | inl is_ready ↦ rw is_ready (debit_usage-IsWithinBudget h v)
    | inr shut ↦ rw shut (abandoned-IsWithinBudget s v)
  ]

pub commit_decoded_page-IsWithinBudget :
    (usage : DecodedPageResourceUsage) (s : Accounting)
    → IsWithinBudget s
    → IsWithinBudget (commit_decoded_page usage s).0
unfolding commit_decoded_page add_checked require_within
commit_decoded_page-IsWithinBudget usage s v = ground arith

pub commit_retry_wait-IsWithinBudget :
    (milliseconds : ℕ) (s : Accounting)
    → IsWithinBudget s
    → IsWithinBudget (commit_retry_wait milliseconds s).0
unfolding commit_retry_wait add_checked
commit_retry_wait-IsWithinBudget milliseconds s v = ground arith

pub commit_rate_limit_wait-IsWithinBudget :
    (milliseconds : ℕ) (s : Accounting)
    → IsWithinBudget s
    → IsWithinBudget (commit_rate_limit_wait milliseconds s).0
unfolding commit_rate_limit_wait add_checked
commit_rate_limit_wait-IsWithinBudget milliseconds s v = ground arith

pub commit_admission_wait-IsWithinBudget :
    (milliseconds limit : ℕ) (s : Accounting)
    → IsWithinBudget s
    → IsWithinBudget (commit_admission_wait milliseconds limit s).0
unfolding commit_admission_wait add_checked
commit_admission_wait-IsWithinBudget milliseconds limit s v = ground arith

pub commit_remote_transport_time-IsWithinBudget :
    (milliseconds : ℕ) (s : Accounting)
    → IsWithinBudget s
    → IsWithinBudget (commit_remote_transport_time milliseconds s).0
unfolding commit_remote_transport_time add_checked
commit_remote_transport_time-IsWithinBudget milliseconds s v = ground arith

-- What `next_allowance` leaves: the object as it was, and no more memory than the scan may retain.
abbrev pub Allowed : Accounting → Accounting × Result PageResourceAllowance → Type 0
Allowed s (t, ok a) =
    (t ≡ s) × (a.decoded_memory_bytes ≤ s.profile.scan.retained_decoded_memory_bytes)
Allowed s (t, throw e) = t ≡ s

pub next_allowance-Allowed : (s : Accounting) → Allowed s (next_allowance s)
unfolding next_allowance
next_allowance-Allowed s = ground arith

module _ (s : Accounting) (h : in_flight s.state ≡ 0) where
  reserve_attempt-IsRequestBudget :
      IsRequestBudget s → IsRequestBudget (try_or_fail reserve_attempt same_error s).0
  unfolding reserve_attempt
  reserve_attempt-IsRequestBudget v = ground (
    arith,
    next_allowance-Allowed s,
    add_checked-Sums s.current_step_attempts 1 s.profile.page.request_attempts,
    add_checked-Sums s.counters.request_attempts 1 s.profile.scan.request_attempts,
    add_checked-Sums s.counters.pages 1 s.profile.scan.pages,
    add_checked-Sums s.counters.active_requests 1 s.profile.scan.active_requests,
  )

  reserve_attempt-IsByteBudget :
      IsByteBudget s → IsByteBudget (try_or_fail reserve_attempt same_error s).0
  unfolding reserve_attempt
  reserve_attempt-IsByteBudget v = ground (
    arith,
    next_allowance-Allowed s,
    add_checked-Sums s.current_step_attempts 1 s.profile.page.request_attempts,
    add_checked-Sums s.counters.request_attempts 1 s.profile.scan.request_attempts,
    add_checked-Sums s.counters.pages 1 s.profile.scan.pages,
    add_checked-Sums s.counters.active_requests 1 s.profile.scan.active_requests,
  )

  reserve_attempt-IsTimeBudget :
      IsTimeBudget s → IsTimeBudget (try_or_fail reserve_attempt same_error s).0
  unfolding reserve_attempt
  reserve_attempt-IsTimeBudget v = ground (
    arith,
    next_allowance-Allowed s,
    add_checked-Sums s.current_step_attempts 1 s.profile.page.request_attempts,
    add_checked-Sums s.counters.request_attempts 1 s.profile.scan.request_attempts,
    add_checked-Sums s.counters.pages 1 s.profile.scan.pages,
    add_checked-Sums s.counters.active_requests 1 s.profile.scan.active_requests,
  )

reserve_attempt-IsWithinBudget :
    (s : Accounting)
    → in_flight s.state ≡ 0
    → IsWithinBudget s
    → IsWithinBudget (try_or_fail reserve_attempt same_error s).0
reserve_attempt-IsWithinBudget s h v = record {
  requests = reserve_attempt-IsRequestBudget s h v.requests;
  bytes = reserve_attempt-IsByteBudget s h v.bytes;
  times = reserve_attempt-IsTimeBudget s h v.times;
}

pub begin_attempt-IsWithinBudget :
    (now : ℕ) (s : Accounting) → IsWithinBudget s → IsWithinBudget (begin_attempt now s).0
unfolding begin_attempt
begin_attempt-IsWithinBudget now s v = ground (arith, reserve_attempt-IsWithinBudget s)
