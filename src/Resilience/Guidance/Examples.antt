-- ===== src/Resilience/Guidance/Examples.antt =====
-- Dates and guidance of src/runtime/resilience/rate_limit_guidance.cpp, and the theorem at two headers.
use cuac.Common.{◌%◌, ℕ, ◌≡◌, refl, List, [], ◌∷◌, some, none, same_bytes, arith}
use cuac.Common.Int.{ℤ, pos, pos_part, ◌≤ℤ◌, ◌+ℤ◌, ◌-ℤ◌}
use cuac.Resilience.Guidance.Calendar.{
  CivilTime, times, is_leap_year, days_in_month, days_from_civil, split_days,
  try_civil_time_from_milliseconds, is_later_in_year, try_build_http_timestamp,
}
use cuac.Resilience.Guidance.Dates.{
  decimal_loop, try_parse_decimal, try_parse_two_digits, try_parse_four_digits, has_at, index_at,
  month_index, weekday_index,
}
use cuac.Resilience.Guidance.Forms.{
  try_parse_imf_fixdate, prefix_of, long_weekday_index, rolling_year, try_parse_rfc850_date,
  asctime_day, try_parse_asctime_date, try_parse_http_date,
}
use cuac.Resilience.Guidance.Parse.{
  retry_after, unix_seconds, RateLimitGuidanceInput, has_duplicate_field, try_add_delay,
  try_absolute_delay, date_delay, delay_of, take_delay, observe_values, observe, date_reference_of,
  conclude_guidance, parse_rate_limit_guidance,
}
use cuac.Resilience.Guidance.Civil.{try_civil_time_from_milliseconds-days_from_civil}
use cuac.Resilience.Guidance.Decimal.{digits_value, all_digits, try_parse_decimal_lem}
use cuac.Resilience.Guidance.Rolling.{rolling_year_bounds}
use cuac.Resilience.Guidance.Latest.{IsLatest, parse_rate_limit_guidance-IsLatest}

-- The same instant in the three forms, received at the start of 2000.
abbrev imf_fixdate : List ℕ
imf_fixdate =
    b'S' ∷ b'u' ∷ b'n' ∷ b',' ∷ b' ' ∷ b'0' ∷ b'6' ∷ b' ' ∷ b'N' ∷ b'o' ∷ b'v' ∷ b' ' ∷ b'1' ∷ b'9'
    ∷ b'9' ∷ b'4' ∷ b' ' ∷ b'0' ∷ b'8' ∷ b':' ∷ b'4' ∷ b'9' ∷ b':' ∷ b'3' ∷ b'7' ∷ b' ' ∷ b'G'
    ∷ b'M' ∷ b'T' ∷ []

abbrev rfc850_date : List ℕ
rfc850_date =
    b'S' ∷ b'u' ∷ b'n' ∷ b'd' ∷ b'a' ∷ b'y' ∷ b',' ∷ b' ' ∷ b'0' ∷ b'6' ∷ b'-' ∷ b'N' ∷ b'o' ∷ b'v'
    ∷ b'-' ∷ b'9' ∷ b'4' ∷ b' ' ∷ b'0' ∷ b'8' ∷ b':' ∷ b'4' ∷ b'9' ∷ b':' ∷ b'3' ∷ b'7' ∷ b' '
    ∷ b'G' ∷ b'M' ∷ b'T' ∷ []

abbrev asctime_date : List ℕ
asctime_date =
    b'S' ∷ b'u' ∷ b'n' ∷ b' ' ∷ b'N' ∷ b'o' ∷ b'v' ∷ b' ' ∷ b' ' ∷ b'6' ∷ b' ' ∷ b'0' ∷ b'8' ∷ b':'
    ∷ b'4' ∷ b'9' ∷ b':' ∷ b'3' ∷ b'7' ∷ b' ' ∷ b'1' ∷ b'9' ∷ b'9' ∷ b'4' ∷ []

abbrev receipt_wall : ℤ
receipt_wall = pos 946684800000

dates_agree :
    (try_parse_http_date imf_fixdate receipt_wall ≡ some (pos 784111777000))
    × (try_parse_http_date rfc850_date receipt_wall ≡ some (pos 784111777000))
    × (try_parse_http_date asctime_date receipt_wall ≡ some (pos 784111777000))
unfolding try_parse_http_date try_parse_imf_fixdate try_parse_rfc850_date try_parse_asctime_date
    asctime_day prefix_of long_weekday_index rolling_year has_at index_at month_index weekday_index
    try_parse_two_digits try_parse_four_digits is_leap_year days_in_month days_from_civil split_days
    try_civil_time_from_milliseconds is_later_in_year try_build_http_timestamp ◌+ℤ◌ ◌-ℤ◌
dates_agree = (refl, refl, refl)

-- Five seconds, and an instant that is seven seconds after the Date of the response.
abbrev two_headers : RateLimitGuidanceInput
two_headers = record {
  guidance =
      (record { canonical_field_name = b'a' ∷ []; format = retry_after; values = (b'5' ∷ []) ∷ [] })
      ∷ (record {
        canonical_field_name = b'b' ∷ [];
        format = unix_seconds;
        values = (b'7' ∷ b'8' ∷ b'4' ∷ b'1' ∷ b'1' ∷ b'1' ∷ b'7' ∷ b'8' ∷ b'4' ∷ []) ∷ [];
      })
      ∷ [];
  date_values = imf_fixdate ∷ [];
  receipt = record { wall_milliseconds = receipt_wall; steady_milliseconds = pos 1000 };
  maximum_delay_milliseconds = 60000;
}

parse_rate_limit_guidance-IsLatest_example :
    IsLatest two_headers (parse_rate_limit_guidance two_headers)
unfolding parse_rate_limit_guidance conclude_guidance date_reference_of observe observe_values
    take_delay delay_of date_delay try_absolute_delay try_add_delay has_duplicate_field
    try_parse_decimal decimal_loop try_parse_http_date try_parse_imf_fixdate try_parse_rfc850_date
    try_parse_asctime_date asctime_day prefix_of long_weekday_index rolling_year has_at index_at
    month_index weekday_index try_parse_two_digits try_parse_four_digits is_leap_year days_in_month
    days_from_civil split_days try_civil_time_from_milliseconds is_later_in_year
    try_build_http_timestamp ◌+ℤ◌ ◌-ℤ◌ same_bytes
parse_rate_limit_guidance-IsLatest_example = parse_rate_limit_guidance-IsLatest two_headers refl

-- 100 is over a maximum of 99.
try_parse_decimal_lem_example : try_parse_decimal (b'1' ∷ b'0' ∷ b'0' ∷ []) 99 ≡ none
unfolding digits_value all_digits
try_parse_decimal_lem_example =
    try_parse_decimal_lem 99 (omega arith) (omega arith) (b'1' ∷ b'0' ∷ b'0' ∷ [])

-- The last day of February 2000, a second after midnight.
try_civil_time_from_milliseconds-days_from_civil_example :
    try_civil_time_from_milliseconds (times (days_from_civil 2000 2 29) 86400000 +ℤ pos 1000)
    ≡ some (record { year = pos 2000; month = 2; day = 29; hour = 0; minute = 0; second = 1 })
unfolding days_in_month is_leap_year
try_civil_time_from_milliseconds-days_from_civil_example =
    try_civil_time_from_milliseconds-days_from_civil 2000 2 29 1000 (omega arith) (omega arith)
      (omega arith) (omega arith) (omega arith) (omega arith) (omega arith)

-- 94 in 2000 is 1994.
abbrev in_2000 : CivilTime
in_2000 = record { year = pos 2000; month = 1; day = 1; hour = 0; minute = 0; second = 0 }

rolling_year_bounds_example :
    (pos 2000 ≤ℤ rolling_year 94 11 6 8 49 37 in_2000 +ℤ pos 50)
    × (rolling_year 94 11 6 8 49 37 in_2000 ≤ℤ pos 2000 +ℤ pos 50)
    × (pos_part (rolling_year 94 11 6 8 49 37 in_2000 +ℤ pos 100) % 100 ≡ 94)
rolling_year_bounds_example = rolling_year_bounds 94 11 6 8 49 37 2000 in_2000 (omega arith)
