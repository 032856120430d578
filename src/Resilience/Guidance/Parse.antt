-- ===== src/Resilience/Guidance/Parse.antt =====
-- `ParseRateLimitGuidance` of src/runtime/resilience/rate_limit_guidance.cpp. Times are steady or wall
-- milliseconds, `int64_t`, and delays are `uint64_t`.
use cuac.Common.{
  ℕ, ◌*◌, ◌/◌, Bool, true, false, not, ◌||◌, ◌&&◌, Option, none, some, List, [], ◌∷◌, ltb, ◌==◌,
  if◌then◌else◌, same_bytes,
}
use cuac.Common.Int.{ℤ, pos, pos_part, ◌+ℤ◌, ◌-ℤ◌, leb_ℤ, ltb_ℤ}
use cuac.Resilience.Guidance.Dates.{try_parse_decimal}
use cuac.Resilience.Guidance.Forms.{try_parse_http_date, ◌>>=◌}

pub data RateLimitGuidanceFormat : Type 0 where
  retry_after delta_seconds unix_seconds : RateLimitGuidanceFormat

-- `accepted` is NONE.
pub data RateLimitGuidanceReason : Type 0 where
  accepted guidance_missing malformed_guidance guidance_exceeds_policy : RateLimitGuidanceReason

pub record RateLimitGuidanceObservation : Type 0 where
  pub canonical_field_name : List ℕ
  pub format : RateLimitGuidanceFormat
  pub values : List (List ℕ)

pub record RateLimitClockReceipt : Type 0 where
  pub wall_milliseconds : ℤ
  pub steady_milliseconds : ℤ

pub record RateLimitGuidanceInput : Type 0 where
  pub guidance : List RateLimitGuidanceObservation
  pub date_values : List (List ℕ)
  pub receipt : RateLimitClockReceipt
  pub maximum_delay_milliseconds : ℕ

pub record RateLimitGuidanceResult : Type 0 where
  pub reason : RateLimitGuidanceReason
  pub eligible_steady_milliseconds : ℤ
  pub delay_milliseconds : ℕ
  pub immediate : Bool

abbrev pub failure : RateLimitGuidanceReason → RateLimitGuidanceResult
failure reason = record {
  reason = reason;
  eligible_steady_milliseconds = pos 0;
  delay_milliseconds = 0;
  immediate = false;
}

abbrev pub i64_max : ℕ
i64_max = 9223372036854775807

-- The name is one of an earlier observation.
unfoldable pub has_duplicate_field : List (List ℕ) → List ℕ → Bool
has_duplicate_field [] name = false
has_duplicate_field (prior ∷ priors) name = same_bytes prior name || has_duplicate_field priors name

unfoldable pub try_add_delay : ℤ → ℕ → Option ℤ
try_add_delay steady delay =
    if ltb i64_max delay || ltb_ℤ (pos i64_max -ℤ pos delay) steady
    then none
    else some (steady +ℤ pos delay)

unfoldable pub try_absolute_delay : ℤ → ℤ → Option ℕ
try_absolute_delay target reference =
    if leb_ℤ target reference
    then some 0
    else if ltb_ℤ reference (pos 0) && ltb_ℤ (pos i64_max +ℤ reference) target
    then none
    else some (pos_part (target -ℤ reference))

abbrev pub maximum_seconds : ℕ
maximum_seconds = i64_max / 1000

-- The delay of a value that is a date.
unfoldable pub date_delay : RateLimitGuidanceInput → ℤ → List ℕ → Option ℕ
date_delay input date_reference value = do
  target ← try_parse_http_date value input.receipt.wall_milliseconds
  try_absolute_delay target date_reference

abbrev or_date : Option ℕ → Option ℕ → Option ℕ
or_date (some seconds) date = some (seconds * 1000)
or_date none date = date

-- The delay of a value, against the date that the reference is.
unfoldable pub delay_of : RateLimitGuidanceInput → ℤ → RateLimitGuidanceFormat → List ℕ → Option ℕ
delay_of input date_reference retry_after value =
    or_date (try_parse_decimal value maximum_seconds) (date_delay input date_reference value)
delay_of input date_reference delta_seconds value =
    or_date (try_parse_decimal value maximum_seconds) none
delay_of input date_reference unix_seconds value = do
  seconds ← try_parse_decimal value maximum_seconds
  try_absolute_delay (pos (seconds * 1000)) date_reference

-- What the loop has found.
pub record Latest : Type 0 where
  pub found : Bool
  pub latest_delay : ℕ
  pub latest_eligible : ℤ

unfoldable pub take_delay : Latest → ℕ → ℤ → Latest
take_delay latest delay eligible =
    if ltb latest.latest_delay delay
    then record { found = true; latest_delay = delay; latest_eligible = eligible }
    else record latest { found = true }

-- The body of the loop after the tests of the observation, on its values.
unfoldable pub observe_values :
    RateLimitGuidanceInput → ℤ → RateLimitGuidanceFormat → List (List ℕ) → Latest → Option Latest
observe_values input date_reference format [] latest = some latest
observe_values input date_reference format (value ∷ more ∷ values) latest = none
observe_values input date_reference format (value ∷ []) latest = do
  delay ← delay_of input date_reference format value
  eligible ← try_add_delay input.receipt.steady_milliseconds delay
  some (take_delay latest delay eligible)

abbrev pub is_empty : List ℕ → Bool
is_empty [] = true
is_empty _ = false

-- The loop, with the names of the earlier observations.
unfoldable pub observe :
    RateLimitGuidanceInput
    → ℤ
    → List (List ℕ)
    → List RateLimitGuidanceObservation
    → Latest
    → Option Latest
observe input date_reference priors [] latest = some latest
observe input date_reference priors (observation ∷ observations) latest =
    let name = observation.canonical_field_name in
    if is_empty name || has_duplicate_field priors name then none else (do
      next ← observe_values input date_reference observation.format observation.values latest
      observe input date_reference (name ∷ priors) observations next)

-- The reference of dates: the one Date of the response, or the time of its receipt.
unfoldable pub date_reference_of : RateLimitGuidanceInput → Option ℤ
date_reference_of input = elim input.date_values [
  | [] ↦ some input.receipt.wall_milliseconds
  | value ∷ values ↦ elim values [
    | [] ↦ try_parse_http_date value input.receipt.wall_milliseconds
    | _ ∷ _ ↦ none
  ]
]

unfoldable pub conclude_guidance : ℕ → Latest → RateLimitGuidanceResult
conclude_guidance maximum_delay latest =
    if not latest.found
    then failure guidance_missing
    else if ltb maximum_delay latest.latest_delay
    then failure guidance_exceeds_policy
    else record {
      reason = accepted;
      eligible_steady_milliseconds = latest.latest_eligible;
      delay_milliseconds = latest.latest_delay;
      immediate = latest.latest_delay == 0;
    }

abbrev pub or_malformed : Option RateLimitGuidanceResult → RateLimitGuidanceResult
or_malformed none = failure malformed_guidance
or_malformed (some result) = result

abbrev pub nothing_found : RateLimitGuidanceInput → Latest
nothing_found input = record {
  found = false;
  latest_delay = 0;
  latest_eligible = input.receipt.steady_milliseconds;
}

unfoldable pub parse_rate_limit_guidance : RateLimitGuidanceInput → RateLimitGuidanceResult
parse_rate_limit_guidance input = or_malformed (do
  date_reference ← date_reference_of input
  latest ← observe input date_reference [] input.guidance (nothing_found input)
  some (conclude_guidance input.maximum_delay_milliseconds latest))
