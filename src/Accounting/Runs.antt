-- ===== src/Accounting/Runs.antt =====
-- A scan as a sequence of calls, in any order: the budgets of IsWithinBudget hold throughout.
use cuac.Common.{
  ℕ, Bool, true, false, not, List, [], ◌∷◌, ◌≡◌, refl, inl, inr, Bool-cases, arith, if◌then◌else◌,
  leb,
}
use cuac.Accounting.State.{
  Clock, ScanResourceProfile, TransportResourceUsage, DecodedPageResourceUsage, ready, page_decoded,
  exhausted, ScanResourceState, assign, Accounting, Result, ok, throw, M, ◌>>=◌, ◌>>◌, ◌is◌,
  construct, bind_result,
}
use cuac.Accounting.Steps.{
  start_deadline, require_ready_for_next, begin_step, step_over, complete_page,
}
use cuac.Accounting.Attempts.{begin_attempt}
use cuac.Accounting.Commits.{
  commit_request_body, commit_remote_request, commit_attempt_failure, commit_transport,
  commit_decoded_page,
}
use cuac.Accounting.Waits.{
  commit_retry_wait, commit_rate_limit_wait, commit_admission_wait, commit_remote_transport_time,
  abort_page,
}
use cuac.Accounting.Invariant.{
  IsWithinBudget, in_flight, abandoned-IsWithinBudget, begin_attempt-IsWithinBudget,
  commit_request_body-IsWithinBudget, commit_remote_request-IsWithinBudget,
  commit_attempt_usage-IsWithinBudget, commit_decoded_page-IsWithinBudget,
  commit_retry_wait-IsWithinBudget, commit_rate_limit_wait-IsWithinBudget,
  commit_admission_wait-IsWithinBudget, commit_remote_transport_time-IsWithinBudget,
}

-- A predicate that a method keeps, whether it returns or throws.
abbrev pub Keeps : (Accounting → Type 0) → {A : Type 0} → M A → Type 0
Keeps P m = (s : Accounting) → P s → P (m s).0

pub bind_result-Keeps :
    (P : Accounting → Type 0) {A B : Type 0} (m : M A) (f : A → M B)
    → Keeps P m
    → ((a : A) → Keeps P (f a))
    → Keeps P (m >>= f)
bind_result-Keeps P {A} m f hm hf s h = go (m s).0 (m s).1 (hm s h)
  where
    go : (t : Accounting) (r : Result A) → P t → P (bind_result t r f).0
    go t (ok a) k = hf a t k
    go t (throw e) k = k

-- The budgets, with no request in flight.
abbrev IsIdle : Accounting → Type 0
IsIdle s = IsWithinBudget s × (in_flight s.state ≡ 0)

start_deadline-IsIdle : (clock : Clock) (now : ℕ) → Keeps IsIdle (start_deadline clock now)
unfolding start_deadline
start_deadline-IsIdle clock now s h = ground arith

require_ready_for_next-IsIdle : (now : ℕ) → Keeps IsIdle (require_ready_for_next now)
unfolding require_ready_for_next
require_ready_for_next-IsIdle now s h = ground arith

begin_step-IsWithinBudget : (clock : Clock) (now : ℕ) → Keeps IsWithinBudget (begin_step clock now)
unfolding begin_step
begin_step-IsWithinBudget clock now s v = elim (Bool-cases (s.state is ready)) [
  | inl e ↦
      rw e
        (bind_result-Keeps IsIdle (start_deadline clock now) _ (start_deadline-IsIdle clock now)
          (λ _.
            bind_result-Keeps IsIdle (require_ready_for_next now) _
              (require_ready_for_next-IsIdle now) (λ _ t h. ground arith))
          s (v, ground arith)).0
  | inr e ↦ rw e (abandoned-IsWithinBudget s v)
]

-- The object once `CompletePage` has released the page's memory.
abbrev pub released : Accounting → Accounting
released s = record s { counters = record (s.counters) { retained_decoded_memory_bytes = 0 } }

step_over-IsIdle :
    (next : ScanResourceState) (s : Accounting)
    → in_flight next ≡ 0
    → IsIdle s
    → IsIdle (step_over next (released s))
step_over-IsIdle next s h v = ground arith

released-IsWithinBudget : (s : Accounting) → IsWithinBudget s → IsWithinBudget (released s)
released-IsWithinBudget s v = ground arith

complete_page-IsWithinBudget :
    (has_next : Bool) (now : ℕ) → Keeps IsWithinBudget (complete_page has_next now)
unfolding complete_page
complete_page-IsWithinBudget has_next now s v = elim (Bool-cases (s.state is page_decoded)) [
  | inl e ↦ elim (Bool-cases (leb s.deadline now)) [
    | inl late ↦ rw (e, late) (abandoned-IsWithinBudget _ (released-IsWithinBudget s v))
    | inr timely ↦ rw (e, timely) (go has_next (v, ground arith))
  ]
  | inr e ↦ rw e (abandoned-IsWithinBudget s v)
]
  where
    go :
        (b : Bool)
        → IsIdle s
        → IsWithinBudget
            ((if not b
                then assign (step_over exhausted)
                else (do assign (step_over ready); require_ready_for_next now))
              (released s)).0
    go true h = (require_ready_for_next-IsIdle now _ (step_over-IsIdle ready s refl h)).0
    go false h = (step_over-IsIdle exhausted s refl h).0

-- The public methods that change the object.
pub data Call : Type 0 where
  begin_step_call : ℕ → Call
  begin_attempt_call : ℕ → Call
  request_body_call : ℕ → Call
  remote_request_call : Call
  attempt_failure_call : TransportResourceUsage → Call
  transport_call : TransportResourceUsage → Call
  decoded_page_call : DecodedPageResourceUsage → Call
  complete_page_call : Bool → ℕ → Call
  retry_wait_call : ℕ → Call
  rate_limit_wait_call : ℕ → Call
  admission_wait_call : ℕ → ℕ → Call
  transport_time_call : ℕ → Call
  abort_page_call : Call

-- The object after a call; what the call returned or threw is dropped.
unfoldable pub apply : Clock → Accounting → Call → Accounting
apply clock s (begin_step_call now) = (begin_step clock now s).0
apply clock s (begin_attempt_call now) = (begin_attempt now s).0
apply clock s (request_body_call bytes) = (commit_request_body bytes s).0
apply clock s remote_request_call = (commit_remote_request s).0
apply clock s (attempt_failure_call usage) = (commit_attempt_failure usage s).0
apply clock s (transport_call usage) = (commit_transport usage s).0
apply clock s (decoded_page_call usage) = (commit_decoded_page usage s).0
apply clock s (complete_page_call has_next now) = (complete_page has_next now s).0
apply clock s (retry_wait_call milliseconds) = (commit_retry_wait milliseconds s).0
apply clock s (rate_limit_wait_call milliseconds) = (commit_rate_limit_wait milliseconds s).0
apply clock s (admission_wait_call milliseconds limit) =
    (commit_admission_wait milliseconds limit s).0
apply clock s (transport_time_call milliseconds) = (commit_remote_transport_time milliseconds s).0
apply clock s abort_page_call = (abort_page s).0

unfoldable pub run : Clock → Accounting → List Call → Accounting
run clock s [] = s
run clock s (c ∷ cs) = run clock (apply clock s c) cs

apply-IsWithinBudget :
    (clock : Clock) (s : Accounting) (c : Call)
    → IsWithinBudget s
    → IsWithinBudget (apply clock s c)
unfolding apply commit_attempt_failure commit_transport abort_page
apply-IsWithinBudget clock s (begin_step_call now) = begin_step-IsWithinBudget clock now s
apply-IsWithinBudget clock s (begin_attempt_call now) = begin_attempt-IsWithinBudget now s
apply-IsWithinBudget clock s (request_body_call bytes) = commit_request_body-IsWithinBudget bytes s
apply-IsWithinBudget clock s remote_request_call = commit_remote_request-IsWithinBudget s
apply-IsWithinBudget clock s (attempt_failure_call usage) =
    commit_attempt_usage-IsWithinBudget usage _ s refl
apply-IsWithinBudget clock s (transport_call usage) =
    commit_attempt_usage-IsWithinBudget usage _ s refl
apply-IsWithinBudget clock s (decoded_page_call usage) = commit_decoded_page-IsWithinBudget usage s
apply-IsWithinBudget clock s (complete_page_call has_next now) =
    complete_page-IsWithinBudget has_next now s
apply-IsWithinBudget clock s (retry_wait_call n) = commit_retry_wait-IsWithinBudget n s
apply-IsWithinBudget clock s (rate_limit_wait_call n) = commit_rate_limit_wait-IsWithinBudget n s
apply-IsWithinBudget clock s (admission_wait_call n limit) =
    commit_admission_wait-IsWithinBudget n limit s
apply-IsWithinBudget clock s (transport_time_call n) =
    commit_remote_transport_time-IsWithinBudget n s
apply-IsWithinBudget clock s abort_page_call = abandoned-IsWithinBudget s

run-IsWithinBudget_from :
    (clock : Clock) (cs : List Call) (s : Accounting)
    → IsWithinBudget s
    → IsWithinBudget (run clock s cs)
unfolding run
run-IsWithinBudget_from clock [] s v = v
run-IsWithinBudget_from clock (c ∷ cs) s v =
    run-IsWithinBudget_from clock cs (apply clock s c) (apply-IsWithinBudget clock s c v)

construct-IsWithinBudget :
    (clock : Clock) (profile : ScanResourceProfile) {s : Accounting}
    → construct clock profile ≡ ok s
    → IsWithinBudget s
unfolding construct
construct-IsWithinBudget clock profile e = ground arith

-- Whatever calls are made on a new object, in whatever order and with whatever arguments, and
-- whether they return or throw, the attempts, pages, header, wire, decompressed and request body
-- bytes, records, retained memory, and the retry, rate limit and joint waiting times of the scan
-- stay within the profile's scan limits, the step's attempts within the page's, one request at most
-- is active, and no more requests were sent than attempts were debited. The time of remote transport
-- stays within 64 bits only, not within the profile's limit for it, and nothing is said of the wait
-- for admission, whose limit is an argument of the call.
pub run-IsWithinBudget :
    (clock : Clock) (profile : ScanResourceProfile) (calls : List Call) {s : Accounting}
    → construct clock profile ≡ ok s
    → IsWithinBudget (run clock s calls)
run-IsWithinBudget clock profile calls {s} e =
    run-IsWithinBudget_from clock calls s (construct-IsWithinBudget clock profile e)
