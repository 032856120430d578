-- ===== src/Accounting/State.antt =====
-- The limits, counters and states of a scan's resource budget, and the way its methods fail:
-- src/include/cuac/internal/runtime/policy/scan_resource_accounting.hpp and the helpers of
-- src/runtime/policy/scan_resource_accounting.cpp.
use cuac.Common.{
  ℕ, ◌+◌, ◌-◌, ◌/◌, ◌^◌, Bool, true, false, not, ◌||◌, ◌&&◌, String, ltb, ◌==◌, if◌then◌else◌,
}

abbrev pub u64_max : ℕ
u64_max = 2 ^ 64 - 1

abbrev pub i64_max : ℕ
i64_max = 2 ^ 63 - 1

-- The steady clock: its ticks in a millisecond and the largest duration that it can express. Time
-- points are ticks since its epoch.
pub record Clock : Type 0 where
  pub ticks_per_millisecond : ℕ
  pub duration_max : ℕ

pub record PageResourceLimits : Type 0 where
  pub request_attempts : ℕ
  pub header_bytes : ℕ
  pub wire_response_bytes : ℕ
  pub decompressed_response_bytes : ℕ
  pub decoded_records : ℕ
  pub decoded_memory_bytes : ℕ
  pub active_requests : ℕ
  pub serialized_request_body_bytes : ℕ

pub record ScanResourceLimits : Type 0 where
  pub request_attempts : ℕ
  pub pages : ℕ
  pub header_bytes : ℕ
  pub wire_response_bytes : ℕ
  pub decompressed_response_bytes : ℕ
  pub decoded_records : ℕ
  pub retained_decoded_memory_bytes : ℕ
  pub max_wall_milliseconds : ℕ
  pub active_requests : ℕ
  pub serialized_request_body_bytes : ℕ
  pub cumulative_waiting_milliseconds : ℕ
  pub cumulative_retry_waiting_milliseconds : ℕ
  pub cumulative_rate_limit_waiting_milliseconds : ℕ
  pub cumulative_remote_transport_milliseconds : ℕ

pub record ScanResourceProfile : Type 0 where
  pub page : PageResourceLimits
  pub scan : ScanResourceLimits

pub record PageResourceAllowance : Type 0 where
  pub header_bytes : ℕ
  pub wire_response_bytes : ℕ
  pub decompressed_response_bytes : ℕ
  pub decoded_records : ℕ
  pub decoded_memory_bytes : ℕ
  pub serialized_request_body_bytes : ℕ
  pub deadline : ℕ

pub record TransportResourceUsage : Type 0 where
  pub header_bytes : ℕ
  pub wire_response_bytes : ℕ
  pub decompressed_response_bytes : ℕ

pub record DecodedPageResourceUsage : Type 0 where
  pub decoded_records : ℕ
  pub decoded_memory_bytes : ℕ

pub record ScanResourceCounters : Type 0 where
  pub request_attempts : ℕ
  pub remote_requests : ℕ
  pub pages : ℕ
  pub header_bytes : ℕ
  pub wire_response_bytes : ℕ
  pub decompressed_response_bytes : ℕ
  pub decoded_records : ℕ
  pub retained_decoded_memory_bytes : ℕ
  pub peak_decoded_memory_bytes : ℕ
  pub active_requests : ℕ
  pub serialized_request_body_bytes : ℕ
  pub cumulative_waiting_milliseconds : ℕ
  pub cumulative_retry_waiting_milliseconds : ℕ
  pub cumulative_rate_limit_waiting_milliseconds : ℕ
  pub cumulative_remote_transport_milliseconds : ℕ
  pub cumulative_admission_waiting_milliseconds : ℕ

pub data ScanResourceState : Type 0 where
  ready step_active request_active request_body_committed : ScanResourceState
  transport_committed page_decoded exhausted failed : ScanResourceState

abbrev state_index : ScanResourceState → ℕ
state_index ready = 0
state_index step_active = 1
state_index request_active = 2
state_index request_body_committed = 3
state_index transport_committed = 4
state_index page_decoded = 5
state_index exhausted = 6
state_index failed = 7

infix 50 ◌is◌
abbrev pub ◌is◌ : ScanResourceState → ScanResourceState → Bool
s is t = state_index s == state_index t

pub record ScanResourceError : Type 0 where
  pub field : String
  pub safe_message : String

pub record Accounting : Type 0 where
  pub profile : ScanResourceProfile
  pub counters : ScanResourceCounters
  pub state : ScanResourceState
  pub deadline_started : Bool
  pub started_at : ℕ
  pub deadline : ℕ
  pub active_allowance : PageResourceAllowance
  pub current_step_attempts : ℕ
  pub current_step_page_committed : Bool
  pub current_attempt_remote_committed : Bool

-- What a call leaves: a value, or the error that it throws.
pub data Result (A : Type 0) : Type 0 where
  ok : A → Result A
  throw : ScanResourceError → Result A

-- A method: the object after the call, and what the call left. A call that throws keeps what it
-- had assigned before.
abbrev pub M : Type 0 → Type 0
M A = Accounting → Accounting × Result A

abbrev pub bind_result : {A B : Type 0} → Accounting → Result A → (A → M B) → Accounting × Result B
bind_result s (ok a) f = f a s
bind_result s (throw e) f = (s, throw e)

infixl 5 ◌>>=◌ ◌>>◌
abbrev pub ◌>>=◌ : {A B : Type 0} → M A → (A → M B) → M B
◌>>=◌ m f s = bind_result (m s).0 (m s).1 f

abbrev pub ◌>>◌ : {B : Type 0} → M (Unit {0}) → M B → M B
m >> k = m >>= λ _. k

abbrev pub error : String → String → ScanResourceError
error field message = record { field = field; safe_message = message }

-- `Fail`: the object enters its terminal state before the throw.
abbrev pub abandoned : Accounting → Accounting
abandoned s = record s {
  counters = record (s.counters) { active_requests = 0; retained_decoded_memory_bytes = 0 };
  state = failed;
}

abbrev pub fail : {A : Type 0} → ScanResourceError → M A
fail e s = (abandoned s, throw e)

-- `throw` outside `Fail`.
abbrev pub raise : {A : Type 0} → ScanResourceError → M A
raise e s = (s, throw e)

abbrev pub lift : {A : Type 0} → Result A → M A
lift r s = (s, r)

abbrev pub assign : (Accounting → Accounting) → M (Unit {0})
assign f s = (f s, ok tt)

abbrev pub fail_if : Bool → ScanResourceError → M (Unit {0})
fail_if b e s = if b then fail e s else (s, ok tt)

abbrev recover :
    {A : Type 0}
    → (ScanResourceError → ScanResourceError)
    → Accounting
    → Result A
    → Accounting × Result A
recover f s (ok a) = (s, ok a)
recover f s (throw e) = fail (f e) s

-- `try { … } catch (const ScanResourceError &error) { Fail(…); }`
abbrev pub try_or_fail : {A : Type 0} → M A → (ScanResourceError → ScanResourceError) → M A
try_or_fail m f s = recover f (m s).0 (m s).1

abbrev pub same_error : ScanResourceError → ScanResourceError
same_error e = e

abbrev profile_error : ScanResourceError
profile_error = error "resource_profile" "scan resource profile is invalid"

unfoldable pub remaining : ℕ → ℕ → Result ℕ
remaining limit used = if ltb limit used then throw profile_error else ok (limit - used)

unfoldable pub add_checked : ℕ → ℕ → ℕ → Result ℕ
add_checked current amount limit =
    if ltb limit current || ltb (limit - current) amount || ltb (u64_max - current) amount
    then throw (error "resource_accounting" "scan resource accounting overflowed")
    else ok (current + amount)

unfoldable pub require_within : ℕ → ℕ → String → Result (Unit {0})
require_within used allowed field =
    if ltb allowed used then throw (error field "page exceeded its resource allowance") else ok tt

abbrev bool_eq : Bool → Bool → Bool
bool_eq true b = b
bool_eq false b = not b

-- `ValidateProfile`, as the test that it passes.
unfoldable pub validate_profile : Clock → ScanResourceProfile → Bool
validate_profile clock profile =
    not (
      page.request_attempts == 0
      || ltb 3 page.request_attempts
      || not (page.active_requests == 1)
      || not (scan.active_requests == 1)
      || ltb scan.request_attempts scan.pages
      || ltb 96 scan.request_attempts
      || page.header_bytes == 0
      || page.wire_response_bytes == 0
      || page.decompressed_response_bytes == 0
      || page.decoded_records == 0
      || page.decoded_memory_bytes == 0
      || scan.request_attempts == 0
      || scan.pages == 0
      || scan.header_bytes == 0
      || scan.wire_response_bytes == 0
      || scan.decompressed_response_bytes == 0
      || scan.decoded_records == 0
      || scan.retained_decoded_memory_bytes == 0
      || scan.max_wall_milliseconds == 0
      || not (
          bool_eq (page.serialized_request_body_bytes == 0)
            (scan.serialized_request_body_bytes == 0))
      || ltb scan.cumulative_waiting_milliseconds scan.cumulative_retry_waiting_milliseconds
      || ltb scan.cumulative_waiting_milliseconds scan.cumulative_rate_limit_waiting_milliseconds)
    && not (
        ltb i64_max scan.max_wall_milliseconds
        || clock_milliseconds == 0
        || ltb clock_milliseconds scan.max_wall_milliseconds)
  where
    open profile use {page, scan}

    clock_milliseconds : ℕ
    clock_milliseconds = clock.duration_max / clock.ticks_per_millisecond

unfoldable pub no_counters : ScanResourceCounters
no_counters = record {
  request_attempts = 0;
  remote_requests = 0;
  pages = 0;
  header_bytes = 0;
  wire_response_bytes = 0;
  decompressed_response_bytes = 0;
  decoded_records = 0;
  retained_decoded_memory_bytes = 0;
  peak_decoded_memory_bytes = 0;
  active_requests = 0;
  serialized_request_body_bytes = 0;
  cumulative_waiting_milliseconds = 0;
  cumulative_retry_waiting_milliseconds = 0;
  cumulative_rate_limit_waiting_milliseconds = 0;
  cumulative_remote_transport_milliseconds = 0;
  cumulative_admission_waiting_milliseconds = 0;
}

abbrev pub no_allowance : PageResourceAllowance
no_allowance = record {
  header_bytes = 0;
  wire_response_bytes = 0;
  decompressed_response_bytes = 0;
  decoded_records = 0;
  decoded_memory_bytes = 0;
  serialized_request_body_bytes = 0;
  deadline = 0;
}

-- The constructor.
unfoldable pub construct : Clock → ScanResourceProfile → Result Accounting
unfolding validate_profile no_counters
construct clock profile =
    if validate_profile clock profile
    then ok (record {
      profile = profile;
      counters = no_counters;
      state = ready;
      deadline_started = false;
      started_at = 0;
      deadline = 0;
      active_allowance = no_allowance;
      current_step_attempts = 0;
      current_step_page_committed = false;
      current_attempt_remote_committed = false;
    })
    else throw profile_error
