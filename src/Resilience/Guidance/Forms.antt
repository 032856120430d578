-- ===== src/Resilience/Guidance/Forms.antt =====
-- The three forms of an HTTP date, of src/runtime/resilience/rate_limit_guidance.cpp.
use cuac.Common.{
  ℕ, ◌+◌, ◌-◌, not, ◌||◌, ◌&&◌, Option, none, some, List, [], ◌∷◌, length, ltb, ◌==◌, if◌then◌else◌,
}
use cuac.Common.Int.{ℤ, pos, pos_part, ◌+ℤ◌, ◌-ℤ◌, leb_ℤ, ltb_ℤ}
use cuac.Resilience.Guidance.Calendar.{
  nth, quotient, times, CivilTime, days_in_month, try_civil_time_from_milliseconds,
  is_later_in_year, try_build_http_timestamp,
}
use cuac.Resilience.Guidance.Dates.{
  is_digit, try_parse_two_digits, try_parse_four_digits, has_at, long_weekdays, gmt, month_index,
  weekday_index,
}

infixl 5 ◌>>=◌
abbrev pub ◌>>=◌ : {A B : Type 0} → Option A → (A → Option B) → Option B
◌>>=◌ none f = none
◌>>=◌ (some a) f = f a

unfoldable pub try_parse_imf_fixdate : List ℕ → Option ℤ
try_parse_imf_fixdate value =
    if not (length value == 29)
      || not (nth value 3 == b',')
      || not (nth value 4 == b' ')
      || not (nth value 7 == b' ')
      || not (nth value 11 == b' ')
      || not (nth value 16 == b' ')
      || not (nth value 19 == b':')
      || not (nth value 22 == b':')
      || not (nth value 25 == b' ')
      || not (has_at value 26 gmt)
    then none
    else (do
      weekday ← weekday_index value
      month ← month_index value 8
      day ← try_parse_two_digits value 5
      year ← try_parse_four_digits value 12
      hour ← try_parse_two_digits value 17
      minute ← try_parse_two_digits value 20
      second ← try_parse_two_digits value 23
      if year == 0 || day == 0 || ltb (days_in_month year month) day
          then none
          else try_build_http_timestamp weekday year month day hour minute second)

-- The first of some texts that a value begins with, counted from a number, and its length.
unfoldable pub prefix_of : List ℕ → List (List ℕ) → ℕ → Option (ℕ × ℕ)
prefix_of value [] n = none
prefix_of value (t ∷ ts) n =
    let rest = prefix_of value ts (n + 1) in if has_at value 0 t then some (n, length t) else rest

-- `LongWeekdayIndex`; the length is that of the name without its comma.
unfoldable pub long_weekday_index : List ℕ → Option (ℕ × ℕ)
long_weekday_index value = do
  (weekday, with_comma) ← prefix_of value long_weekdays 0
  some (weekday, with_comma - 1)

-- The year of two digits, against the receiver's instant.
unfoldable pub rolling_year : ℕ → ℕ → ℕ → ℕ → ℕ → ℕ → CivilTime → ℤ
rolling_year short_year month day hour minute second receipt =
    let first = times (quotient receipt.year 100) 100 +ℤ pos short_year in
    let year = if ltb_ℤ first (receipt.year -ℤ pos 50) then first +ℤ pos 100 else first in
    let limit = receipt.year +ℤ pos 50 in
    if ltb_ℤ limit year
      || leb_ℤ year limit
        && leb_ℤ limit year
        && is_later_in_year month day hour minute second receipt
    then year -ℤ pos 100
    else year

unfoldable pub try_parse_rfc850_date : List ℕ → ℤ → Option ℤ
try_parse_rfc850_date value receipt_wall_milliseconds = do
  (weekday, n) ← long_weekday_index value
  if not (length value == n + 24)
        || not (nth value (n + 1) == b' ')
        || not (nth value (n + 4) == b'-')
        || not (nth value (n + 8) == b'-')
        || not (nth value (n + 11) == b' ')
        || not (nth value (n + 14) == b':')
        || not (nth value (n + 17) == b':')
        || not (nth value (n + 20) == b' ')
        || not (has_at value (n + 21) gmt)
      then none
      else (do
        month ← month_index value (n + 5)
        day ← try_parse_two_digits value (n + 2)
        short_year ← try_parse_two_digits value (n + 9)
        hour ← try_parse_two_digits value (n + 12)
        minute ← try_parse_two_digits value (n + 15)
        second ← try_parse_two_digits value (n + 18)
        receipt ← try_civil_time_from_milliseconds receipt_wall_milliseconds
        let year = rolling_year short_year month day hour minute second receipt
        if ltb_ℤ year (pos 1) || ltb_ℤ (pos 9999) year
            then none
            else try_build_http_timestamp weekday (pos_part year) month day hour minute second)

-- The day of an asctime date, of one digit after a space or of two.
unfoldable pub asctime_day : List ℕ → Option ℕ
asctime_day value =
    if nth value 8 == b' ' && is_digit (nth value 9)
    then some (nth value 9 - b'0')
    else try_parse_two_digits value 8

unfoldable pub try_parse_asctime_date : List ℕ → Option ℤ
try_parse_asctime_date value =
    if not (length value == 24)
      || not (nth value 3 == b' ')
      || not (nth value 7 == b' ')
      || not (nth value 10 == b' ')
      || not (nth value 13 == b':')
      || not (nth value 16 == b':')
      || not (nth value 19 == b' ')
    then none
    else (do
      day ← asctime_day value
      month ← month_index value 4
      hour ← try_parse_two_digits value 11
      minute ← try_parse_two_digits value 14
      second ← try_parse_two_digits value 17
      year ← try_parse_four_digits value 20
      weekday ← weekday_index value
      try_build_http_timestamp weekday year month day hour minute second)

abbrev pub or_else : {A : Type 0} → Option A → Option A → Option A
or_else none b = b
or_else (some a) b = some a

unfoldable pub try_parse_http_date : List ℕ → ℤ → Option ℤ
try_parse_http_date value receipt_wall_milliseconds =
    or_else (try_parse_imf_fixdate value) (
      or_else (try_parse_rfc850_date value receipt_wall_milliseconds)
        (try_parse_asctime_date value))
