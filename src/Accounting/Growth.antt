-- ===== src/Accounting/Growth.antt =====
-- The no-reset rule: nothing that a scan has used is ever given back.
use cuac.Common.{
  ℕ, ◌≤◌, ◌≡◌, Bool, true, false, List, [], ◌∷◌, refl, ◌∙◌, arith, inl, inr, Bool-cases,
}
use cuac.Accounting.State.{
  Clock, TransportResourceUsage, DecodedPageResourceUsage, ScanResourceState, ScanResourceCounters,
  ready, Accounting, abandoned, add_checked, require_within, ◌is◌, try_or_fail, same_error,
}
use cuac.Accounting.Steps.{
  start_deadline, require_ready_for_next, begin_step, complete_page, step_over,
}
use cuac.Accounting.Attempts.{reserve_attempt, begin_attempt}
use cuac.Accounting.Commits.{
  commit_request_body, commit_remote_request, commit_attempt_failure, debit_usage,
  commit_attempt_usage, commit_transport, commit_decoded_page, request_ready,
}
use cuac.Accounting.Waits.{
  commit_retry_wait, commit_rate_limit_wait, commit_admission_wait, commit_remote_transport_time,
  abort_page,
}
use cuac.Accounting.Invariant.{add_checked-Sums, next_allowance-Allowed}
use cuac.Accounting.Runs.{
  Call, begin_step_call, begin_attempt_call, request_body_call, remote_request_call,
  attempt_failure_call, transport_call, decoded_page_call, complete_page_call, retry_wait_call,
  rate_limit_wait_call, admission_wait_call, transport_time_call, abort_page_call, apply, run,
  bind_result-Keeps, released,
}

-- Every cumulative counter of `d` is at least that of `c`.
pub record CountersGrow (c d : ScanResourceCounters) : Type 0 where
  pub attempts : c.request_attempts ≤ d.request_attempts
  pub remote : c.remote_requests ≤ d.remote_requests
  pub pages : c.pages ≤ d.pages
  pub header : c.header_bytes ≤ d.header_bytes
  pub wire : c.wire_response_bytes ≤ d.wire_response_bytes
  pub decompressed : c.decompressed_response_bytes ≤ d.decompressed_response_bytes
  pub records : c.decoded_records ≤ d.decoded_records
  pub peak : c.peak_decoded_memory_bytes ≤ d.peak_decoded_memory_bytes
  pub body : c.serialized_request_body_bytes ≤ d.serialized_request_body_bytes
  pub waiting : c.cumulative_waiting_milliseconds ≤ d.cumulative_waiting_milliseconds
  pub retry_waiting :
      c.cumulative_retry_waiting_milliseconds ≤ d.cumulative_retry_waiting_milliseconds
  pub rate_limit_waiting :
      c.cumulative_rate_limit_waiting_milliseconds ≤ d.cumulative_rate_limit_waiting_milliseconds
  pub transport :
      c.cumulative_remote_transport_milliseconds ≤ d.cumulative_remote_transport_milliseconds
  pub admission_waiting :
      c.cumulative_admission_waiting_milliseconds ≤ d.cumulative_admission_waiting_milliseconds

-- From `s` to `t` no counter falls, the limits stay, and so does a deadline once it has started.
pub record Grows (s t : Accounting) : Type 0 where
  pub counters : CountersGrow s.counters t.counters
  pub profile : t.profile ≡ s.profile
  pub started : s.deadline_started ≡ true → t.deadline_started ≡ true
  pub deadline : s.deadline_started ≡ true → t.deadline ≡ s.deadline
  pub started_at : s.deadline_started ≡ true → t.started_at ≡ s.started_at

CountersGrow-refl : (c : ScanResourceCounters) → CountersGrow c c
CountersGrow-refl c = omega arith

CountersGrow-trans :
    (c d e : ScanResourceCounters) → CountersGrow c d → CountersGrow d e → CountersGrow c e
CountersGrow-trans c d e h k = omega arith

Grows-refl : (s : Accounting) → Grows s s
Grows-refl s = record {
  counters = CountersGrow-refl s.counters;
  profile = refl;
  started = λ h. h;
  deadline = λ _. refl;
  started_at = λ _. refl;
}

Grows-trans : (s t u : Accounting) → Grows s t → Grows t u → Grows s u
Grows-trans s t u h k = record {
  counters = CountersGrow-trans _ _ _ h.counters k.counters;
  profile = k.profile ∙ h.profile;
  started = λ e. k.started (h.started e);
  deadline = λ e. k.deadline (h.started e) ∙ h.deadline e;
  started_at = λ e. k.started_at (h.started e) ∙ h.started_at e;
}

commit_request_body-Grows : (bytes : ℕ) (s : Accounting) → Grows s (commit_request_body bytes s).0
unfolding commit_request_body add_checked require_within
commit_request_body-Grows bytes s = ground arith

commit_remote_request-Grows : (s : Accounting) → Grows s (commit_remote_request s).0
unfolding commit_remote_request add_checked
commit_remote_request-Grows s = ground arith

commit_attempt_usage-Grows :
    (usage : TransportResourceUsage) (next : ScanResourceState) (s : Accounting)
    → Grows s (commit_attempt_usage usage next s).0
unfolding commit_attempt_usage debit_usage add_checked require_within
commit_attempt_usage-Grows usage next s = elim (Bool-cases (request_ready s)) [
  | inl e ↦ rw e (ground arith)
  | inr e ↦ rw e (ground arith)
]

commit_decoded_page-Grows :
    (usage : DecodedPageResourceUsage) (s : Accounting) → Grows s (commit_decoded_page usage s).0
unfolding commit_decoded_page add_checked require_within
commit_decoded_page-Grows usage s = ground arith

commit_retry_wait-Grows : (n : ℕ) (s : Accounting) → Grows s (commit_retry_wait n s).0
unfolding commit_retry_wait add_checked
commit_retry_wait-Grows n s = ground arith

commit_rate_limit_wait-Grows : (n : ℕ) (s : Accounting) → Grows s (commit_rate_limit_wait n s).0
unfolding commit_rate_limit_wait add_checked
commit_rate_limit_wait-Grows n s = ground arith

commit_admission_wait-Grows :
    (n limit : ℕ) (s : Accounting) → Grows s (commit_admission_wait n limit s).0
unfolding commit_admission_wait add_checked
commit_admission_wait-Grows n limit s = ground arith

commit_remote_transport_time-Grows :
    (n : ℕ) (s : Accounting) → Grows s (commit_remote_transport_time n s).0
unfolding commit_remote_transport_time add_checked
commit_remote_transport_time-Grows n s = ground arith

abandoned-Grows : (s : Accounting) → Grows s (abandoned s)
abandoned-Grows s = ground arith

require_ready_for_next-Grows : (now : ℕ) (s : Accounting) → Grows s (require_ready_for_next now s).0
unfolding require_ready_for_next
require_ready_for_next-Grows now s = ground arith

start_deadline-Grows :
    (clock : Clock) (now : ℕ) (s : Accounting) → Grows s (start_deadline clock now s).0
unfolding start_deadline
start_deadline-Grows clock now s = ground arith

reserve_attempt-Grows : (s : Accounting) → Grows s (try_or_fail reserve_attempt same_error s).0
unfolding reserve_attempt
reserve_attempt-Grows s = ground (
  arith,
  next_allowance-Allowed s,
  add_checked-Sums s.current_step_attempts 1 s.profile.page.request_attempts,
  add_checked-Sums s.counters.request_attempts 1 s.profile.scan.request_attempts,
  add_checked-Sums s.counters.pages 1 s.profile.scan.pages,
  add_checked-Sums s.counters.active_requests 1 s.profile.scan.active_requests,
)

begin_attempt-Grows : (now : ℕ) (s : Accounting) → Grows s (begin_attempt now s).0
unfolding begin_attempt
begin_attempt-Grows now s = ground (arith, reserve_attempt-Grows s)

-- Only the growth from a fixed object `s` is kept by a sequence of calls.
begin_step-Grows : (clock : Clock) (now : ℕ) (s : Accounting) → Grows s (begin_step clock now s).0
unfolding begin_step
begin_step-Grows clock now s = elim (Bool-cases (s.state is ready)) [
  | inl e ↦ rw e (
      bind_result-Keeps (Grows s) (start_deadline clock now) _
        (λ t h. Grows-trans s t _ h (start_deadline-Grows clock now t))
        (λ _.
          bind_result-Keeps (Grows s) (require_ready_for_next now) _
            (λ t h. Grows-trans s t _ h (require_ready_for_next-Grows now t))
            (λ _ t h. Grows-trans s t _ h (ground arith)))
        s (Grows-refl s))
  | inr e ↦ rw e (abandoned-Grows s)
]

complete_page-Grows :
    (has_next : Bool) (now : ℕ) (s : Accounting) → Grows s (complete_page has_next now s).0
unfolding complete_page
complete_page-Grows false now s = ground arith
complete_page-Grows true now s =
    ground (arith, require_ready_for_next-Grows now (step_over ready (released s)))

apply-Grows : (clock : Clock) (s : Accounting) (c : Call) → Grows s (apply clock s c)
unfolding apply commit_attempt_failure commit_transport abort_page
apply-Grows clock s (begin_step_call now) = begin_step-Grows clock now s
apply-Grows clock s (begin_attempt_call now) = begin_attempt-Grows now s
apply-Grows clock s (request_body_call bytes) = commit_request_body-Grows bytes s
apply-Grows clock s remote_request_call = commit_remote_request-Grows s
apply-Grows clock s (attempt_failure_call usage) = commit_attempt_usage-Grows usage _ s
apply-Grows clock s (transport_call usage) = commit_attempt_usage-Grows usage _ s
apply-Grows clock s (decoded_page_call usage) = commit_decoded_page-Grows usage s
apply-Grows clock s (complete_page_call has_next now) = complete_page-Grows has_next now s
apply-Grows clock s (retry_wait_call n) = commit_retry_wait-Grows n s
apply-Grows clock s (rate_limit_wait_call n) = commit_rate_limit_wait-Grows n s
apply-Grows clock s (admission_wait_call n limit) = commit_admission_wait-Grows n limit s
apply-Grows clock s (transport_time_call n) = commit_remote_transport_time-Grows n s
apply-Grows clock s abort_page_call = abandoned-Grows s

-- No sequence of calls, failing ones included, lowers a cumulative counter of the scan, changes
-- its limits, or moves the deadline or the start of a scan whose deadline has started.
pub run-Grows : (clock : Clock) (s : Accounting) (cs : List Call) → Grows s (run clock s cs)
unfolding run
run-Grows clock s [] = Grows-refl s
run-Grows clock s (c ∷ cs) =
    Grows-trans s (apply clock s c) _ (apply-Grows clock s c) (run-Grows clock (apply clock s c) cs)
