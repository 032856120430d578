-- ===== src/Accounting/Retry.antt =====
-- What the checks before an attempt promise about the attempt.
use cuac.Common.{
  ℕ, ◌+◌, ◌-◌, ◌≤◌, ◌<◌, ◌≡◌, ◌⊎◌, min, true, false, not, ◌&&◌, ◌||◌, ◌∙◌, refl, ap, arith, inl,
  inr, Bool-cases, if◌then◌else◌, leb, ◌==◌,
}
use cuac.Accounting.State.{
  u64_max, Clock, ScanResourceProfile, PageResourceAllowance, step_active, request_active,
  Accounting, Result, ok, throw, validate_profile, add_checked, ◌is◌, remaining, require_within,
}
use cuac.Accounting.Attempts.{
  next_allowance, reserve_attempt, begin_attempt, can_begin_retry_attempt, require_retry_body,
  require_retry_attempt_resources,
}
use cuac.Accounting.Commits.{commit_request_body}
use cuac.Accounting.Invariant.{IsWithinBudget, in_flight}

-- The limits that the checks of an attempt rest on.
record IsAdmitted (p : ScanResourceProfile) : Type 0 where
  one_active : p.scan.active_requests ≡ 1
  few_attempts : p.scan.request_attempts ≤ 96
  few_pages : p.scan.pages ≤ p.scan.request_attempts
  header : 0 < p.page.header_bytes
  wire : 0 < p.page.wire_response_bytes
  decompressed : 0 < p.page.decompressed_response_bytes
  few_page_attempts : p.page.request_attempts ≤ 3

validate_profile-IsAdmitted :
    (clock : Clock) (p : ScanResourceProfile) → validate_profile clock p ≡ true → IsAdmitted p
unfolding validate_profile
validate_profile-IsAdmitted clock p h = ground arith

add_checked_fits :
    (current amount limit : ℕ)
    → current + amount ≤ limit
    → limit ≤ u64_max
    → add_checked current amount limit ≡ ok (current + amount)
unfolding add_checked
add_checked_fits current amount limit h k = ground arith

remaining_fits : (limit used : ℕ) → used ≤ limit → remaining limit used ≡ ok (limit - used)
unfolding remaining
remaining_fits limit used h = ground arith

-- The attempt was reserved: its transport limits are not zero, and its body, if it has one, can be
-- debited.
abbrev pub Grants : ℕ → Accounting × Result PageResourceAllowance → Type 0
Grants bytes (t, ok a) =
    (0 < a.header_bytes)
    × (0 < a.wire_response_bytes)
    × (0 < a.decompressed_response_bytes)
    × (0 < bytes → (commit_request_body bytes t).1 ≡ ok tt)
Grants bytes (t, throw e) = ⊥

-- The limits that the scan has left for an attempt.
abbrev pub scan_left : Accounting → PageResourceAllowance
scan_left s = record {
  header_bytes = min page.header_bytes (scan.header_bytes - counters.header_bytes);
  wire_response_bytes =
      min page.wire_response_bytes (scan.wire_response_bytes - counters.wire_response_bytes);
  decompressed_response_bytes =
      min page.decompressed_response_bytes
        (scan.decompressed_response_bytes - counters.decompressed_response_bytes);
  decoded_records = min page.decoded_records (scan.decoded_records - counters.decoded_records);
  decoded_memory_bytes = min page.decoded_memory_bytes scan.retained_decoded_memory_bytes;
  serialized_request_body_bytes = min page.serialized_request_body_bytes (
      if page.serialized_request_body_bytes == 0
      then 0
      else scan.serialized_request_body_bytes - counters.serialized_request_body_bytes);
  deadline = s.deadline;
}
  where
    open s use {counters, profile.{page, scan}}

next_allowance-scan_left :
    (s : Accounting) → IsWithinBudget s → next_allowance s ≡ (s, ok (scan_left s))
unfolding next_allowance
next_allowance-scan_left s v =
    rw
      (
        remaining_fits scan.header_bytes counters.header_bytes v.bytes.header,
        remaining_fits scan.wire_response_bytes counters.wire_response_bytes v.bytes.wire,
        remaining_fits scan.decompressed_response_bytes counters.decompressed_response_bytes
            v.bytes.decompressed,
        remaining_fits scan.decoded_records counters.decoded_records v.bytes.records,
        remaining_fits scan.serialized_request_body_bytes counters.serialized_request_body_bytes
            v.bytes.body,
      )
      (elim (Bool-cases (page.serialized_request_body_bytes == 0)) [ inl e ↦ rw e | inr e ↦ rw e ])
  where
    open s use {counters, profile.{page, scan}}

-- The object after a successful reservation.
abbrev pub reserved : Accounting → Accounting
reserved s = record s {
  current_step_attempts = s.current_step_attempts + 1;
  counters = record (s.counters) {
    request_attempts = s.counters.request_attempts + 1;
    pages = if s.current_step_page_committed then s.counters.pages else s.counters.pages + 1;
    active_requests = s.counters.active_requests + 1;
  };
  current_step_page_committed = true;
  current_attempt_remote_committed = false;
  active_allowance = scan_left s;
  state = request_active;
}

module _ (clock : Clock) (now : ℕ) (s : Accounting)
    (valid : validate_profile clock s.profile ≡ true) (v : IsWithinBudget s)
    (active : s.state ≡ step_active)
    (page_left : (s.current_step_page_committed ≡ true) ⊎ (s.counters.pages < s.profile.scan.pages))
    (step_left : s.current_step_attempts < s.profile.page.request_attempts)
    (attempts_left : s.counters.request_attempts < s.profile.scan.request_attempts) where
  idle : s.counters.active_requests ≡ 0
  idle = v.requests.active ∙ ap in_flight active

  page_fits :
      (if s.current_step_page_committed
        then ok s.counters.pages
        else add_checked s.counters.pages 1 s.profile.scan.pages)
      ≡ ok (if s.current_step_page_committed then s.counters.pages else s.counters.pages + 1)
  page_fits = elim (Bool-cases s.current_step_page_committed) [
    | inl e ↦ rw e
    | inr e ↦
        let admitted = validate_profile-IsAdmitted clock s.profile valid in
        rw e
          (add_checked_fits s.counters.pages 1 s.profile.scan.pages (ground arith) (ground arith))
  ]

  reserve_attempt-reserved : reserve_attempt s ≡ (reserved s, ok (scan_left s))
  unfolding reserve_attempt
  reserve_attempt-reserved =
      let admitted = validate_profile-IsAdmitted clock s.profile valid in
      rw (
        add_checked_fits s.current_step_attempts 1 s.profile.page.request_attempts (omega arith)
            (omega arith),
        add_checked_fits s.counters.request_attempts 1 s.profile.scan.request_attempts (omega arith)
            (omega arith),
        page_fits,
        add_checked_fits s.counters.active_requests 1 s.profile.scan.active_requests
            (omega (arith, idle)) (omega arith),
        next_allowance-scan_left s v,
      )

  -- Of a valid profile, within the budget, in a step, before the deadline, with a page debited or left and with attempts of the step and of
  -- the scan left, an attempt always succeeds: it debits one attempt of the step and one of the scan,
  -- and a page exactly if the step has none yet, and it grants for each resource the smaller of the
  -- page's limit and of what the scan has left.
  pub begin_attempt-reserved :
      now < s.deadline → begin_attempt now s ≡ (reserved s, ok (scan_left s))
  unfolding begin_attempt
  begin_attempt-reserved early =
      let in_step : s.state is step_active ≡ true = ground arith in
      let in_time : leb s.deadline now ≡ false = ground arith in
      let left : (not s.current_step_page_committed && leb s.profile.scan.pages s.counters.pages
            || leb s.profile.page.request_attempts s.current_step_attempts
            || leb s.profile.scan.request_attempts s.counters.request_attempts)
          ≡ false =
        ground arith in
      rw (in_step, in_time, left, reserve_attempt-reserved)

-- What `RequireRetryAttemptResources` has checked once it returns.
record Affords (bytes : ℕ) (s : Accounting) : Type 0 where
  active : s.state ≡ step_active
  step_left : s.current_step_attempts < s.profile.page.request_attempts
  attempts_left : s.counters.request_attempts < s.profile.scan.request_attempts
  header : s.counters.header_bytes < s.profile.scan.header_bytes
  wire : s.counters.wire_response_bytes < s.profile.scan.wire_response_bytes
  decompressed : s.counters.decompressed_response_bytes < s.profile.scan.decompressed_response_bytes
  page_body : bytes ≤ s.profile.page.serialized_request_body_bytes
  scan_body :
      bytes + s.counters.serialized_request_body_bytes
      ≤ s.profile.scan.serialized_request_body_bytes

can_begin_retry_attempt-true :
    (s : Accounting)
    → can_begin_retry_attempt s ≡ true
    → (s.state ≡ step_active)
      × (s.current_step_attempts < s.profile.page.request_attempts)
      × (s.counters.request_attempts < s.profile.scan.request_attempts)
unfolding can_begin_retry_attempt
can_begin_retry_attempt-true s e = ground arith

module _ (bytes : ℕ) (s : Accounting)
    (body : s.counters.serialized_request_body_bytes ≤ s.profile.scan.serialized_request_body_bytes)
    (checked : require_retry_attempt_resources bytes s ≡ (s, ok tt)) where
  checked-can_begin_retry_attempt : can_begin_retry_attempt s ≡ true
  unfolding require_retry_attempt_resources
  checked-can_begin_retry_attempt = ground arith

  checked_responses :
      (s.counters.header_bytes < s.profile.scan.header_bytes)
      × (s.counters.wire_response_bytes < s.profile.scan.wire_response_bytes)
      × (s.counters.decompressed_response_bytes < s.profile.scan.decompressed_response_bytes)
  unfolding require_retry_attempt_resources
  checked_responses = ground arith

  checked-require_retry_body : require_retry_body bytes s ≡ (s, ok tt)
  unfolding require_retry_attempt_resources
  checked-require_retry_body = ground arith

  checked_body :
      (bytes ≤ s.profile.page.serialized_request_body_bytes)
      × (bytes + s.counters.serialized_request_body_bytes
          ≤ s.profile.scan.serialized_request_body_bytes)
  unfolding require_retry_body
  checked_body = let e = checked-require_retry_body in ground arith

  require_retry_attempt_resources-Affords : Affords bytes s
  require_retry_attempt_resources-Affords =
      let (active, step_left, attempts_left) =
        can_begin_retry_attempt-true s checked-can_begin_retry_attempt in
      let (header, wire, decompressed) = checked_responses in
      let (page_body, scan_body) = checked_body in
      record {
        active = active;
        step_left = step_left;
        attempts_left = attempts_left;
        header = header;
        wire = wire;
        decompressed = decompressed;
        page_body = page_body;
        scan_body = scan_body;
      }

commit_request_body_fits :
    (bytes : ℕ) (s : Accounting)
    → s.state ≡ request_active
    → 0 < bytes
    → bytes ≤ s.profile.page.serialized_request_body_bytes
    → bytes ≤ s.active_allowance.serialized_request_body_bytes
    → s.counters.serialized_request_body_bytes + bytes
      ≤ s.profile.scan.serialized_request_body_bytes
    → s.profile.scan.serialized_request_body_bytes ≤ u64_max
    → (commit_request_body bytes s).1 ≡ ok tt
unfolding commit_request_body require_within
commit_request_body_fits bytes s active some_bytes page allowed scan small = ground (
  arith,
  add_checked_fits s.counters.serialized_request_body_bytes bytes
      s.profile.scan.serialized_request_body_bytes,
)

-- Of a valid profile whose limit on request bodies fits 64 bits, and within the budget: a retry whose
-- resources were checked, and whose step has debited its page, is never refused by the attempt that
-- it starts before the deadline. The attempt is granted nonzero header, wire and decompressed limits,
-- and a nonempty request body of the checked size can be debited.
pub retry-Grants :
    (clock : Clock) (now bytes : ℕ) (s : Accounting)
    → validate_profile clock s.profile ≡ true
    → IsWithinBudget s
    → s.profile.scan.serialized_request_body_bytes ≤ u64_max
    → require_retry_attempt_resources bytes s ≡ (s, ok tt)
    → s.current_step_page_committed ≡ true
    → now < s.deadline
    → Grants bytes (begin_attempt now s)
retry-Grants clock now bytes s valid v small checked page_debited early =
    let admitted = validate_profile-IsAdmitted clock s.profile valid in
    let a = require_retry_attempt_resources-Affords bytes s v.bytes.body checked in
    rw
      (begin_attempt-reserved clock now s valid v a.active (inl page_debited) a.step_left
        a.attempts_left early)
      (
        omega (arith, a.header, admitted.header),
        omega (arith, a.wire, admitted.wire),
        omega (arith, a.decompressed, admitted.decompressed),
        λ some_bytes.
            commit_request_body_fits bytes (reserved s) refl some_bytes a.page_body
              (ground (arith, a.page_body, a.scan_body)) (omega (arith, a.scan_body)) small,
      )
