-- ===== src/Resilience/Guidance/Calendar.antt =====
-- The calendar of src/runtime/resilience/rate_limit_guidance.cpp. Quotients of integers round towards
-- zero, as those of the source do.
use cuac.Common.{
  ℕ, zero, suc, ◌+◌, ◌-◌, ◌*◌, ◌/◌, ◌%◌, Bool, not, ◌||◌, ◌&&◌, Option, none, some, List, [], ◌∷◌,
  ltb, leb, ◌==◌, if◌then◌else◌,
}
use cuac.Common.Int.{ℤ, pos, pos_part, negsuc, ◌+ℤ◌, ◌-ℤ◌, leb_ℤ, ltb_ℤ}

unfoldable pub is_leap_year : ℕ → Bool
is_leap_year year = year % 4 == 0 && (not (year % 100 == 0) || year % 400 == 0)

abbrev pub nth : List ℕ → ℕ → ℕ
nth [] n = 0
nth (x ∷ xs) zero = x
nth (x ∷ xs) (suc n) = nth xs n

unfoldable pub days_in_month : ℕ → ℕ → ℕ
days_in_month year month =
    if month == 2 && is_leap_year year
    then 29
    else nth (31 ∷ 28 ∷ 31 ∷ 30 ∷ 31 ∷ 30 ∷ 31 ∷ 31 ∷ 30 ∷ 31 ∷ 30 ∷ 31 ∷ []) (month - 1)

-- `DaysFromCivil` of a year from 1 on, so that the adjusted year is not negative.
unfoldable pub days_from_civil : ℕ → ℕ → ℕ → ℤ
days_from_civil year month day =
    let adjusted_year = year - (if leb month 2 then 1 else 0) in
    let era = adjusted_year / 400 in
    let year_of_era = adjusted_year - era * 400 in
    let adjusted_month = if ltb 2 month then month - 3 else month + 9 in
    let day_of_year = (153 * adjusted_month + 2) / 5 + day - 1 in
    let day_of_era = year_of_era * 365 + year_of_era / 4 - year_of_era / 100 + day_of_year in
    pos (era * 146097 + day_of_era) -ℤ pos 719468

-- The quotient that rounds towards zero, and its remainder, by a positive number.
abbrev pub quotient : ℤ → ℕ → ℤ
quotient (pos n) d = pos (n / d)
quotient (negsuc n) d = pos 0 -ℤ pos (suc n / d)

abbrev pub remainder : ℤ → ℕ → ℤ
remainder (pos n) d = pos (n % d)
remainder (negsuc n) d = pos 0 -ℤ pos (suc n % d)

abbrev pub times : ℤ → ℕ → ℤ
times (pos n) d = pos (n * d)
times (negsuc n) d = pos 0 -ℤ pos (suc n * d)

pub record CivilTime : Type 0 where
  pub year : ℤ
  pub month : ℕ
  pub day : ℕ
  pub hour : ℕ
  pub minute : ℕ
  pub second : ℕ

-- The days and the milliseconds within the day, which are not negative.
unfoldable pub split_days : ℤ → ℤ × ℕ
split_days milliseconds =
    let days = quotient milliseconds 86400000 in
    let within_day = remainder milliseconds 86400000 in
    if ltb_ℤ within_day (pos 0)
    then (days -ℤ pos 1, pos_part (within_day +ℤ pos 86400000))
    else (days, pos_part within_day)

-- `TryCivilTimeFromMilliseconds`.
unfoldable pub try_civil_time_from_milliseconds : ℤ → Option CivilTime
try_civil_time_from_milliseconds milliseconds =
    let (days, within_day) = split_days milliseconds in
    let shifted_days = days +ℤ pos 719468 in
    let era =
      quotient (if leb_ℤ (pos 0) shifted_days then shifted_days else shifted_days -ℤ pos 146096)
        146097 in
    let day_of_era = pos_part (shifted_days -ℤ times era 146097) in
    let year_of_era =
      (day_of_era - day_of_era / 1460 + day_of_era / 36524 - day_of_era / 146096) / 365 in
    let day_of_year = day_of_era - (365 * year_of_era + year_of_era / 4 - year_of_era / 100) in
    let month_prime = (5 * day_of_year + 2) / 153 in
    let month = if ltb month_prime 10 then month_prime + 3 else month_prime - 9 in
    let year = pos year_of_era +ℤ times era 400 +ℤ pos (if leb month 2 then 1 else 0) in
    if ltb_ℤ year (pos 1) || ltb_ℤ (pos 9999) year
    then none
    else some (record {
      year = year;
      month = month;
      day = day_of_year - (153 * month_prime + 2) / 5 + 1;
      hour = within_day / 3600000;
      minute = within_day % 3600000 / 60000;
      second = within_day % 3600000 % 60000 / 1000;
    })

unfoldable pub is_later_in_year : ℕ → ℕ → ℕ → ℕ → ℕ → CivilTime → Bool
is_later_in_year month day hour minute second reference =
    if not (month == reference.month)
    then ltb reference.month month
    else if not (day == reference.day)
    then ltb reference.day day
    else if not (hour == reference.hour)
    then ltb reference.hour hour
    else if not (minute == reference.minute)
    then ltb reference.minute minute
    else ltb reference.second second

-- `TryBuildHttpTimestamp` of a weekday that was found; times are milliseconds.
unfoldable pub try_build_http_timestamp : ℕ → ℕ → ℕ → ℕ → ℕ → ℕ → ℕ → Option ℤ
try_build_http_timestamp weekday year month day hour minute second =
    if year == 0
      || month == 0
      || ltb 12 month
      || day == 0
      || ltb (days_in_month year month) day
      || ltb 23 hour
      || ltb 59 minute
      || ltb 60 second
    then none
    else (let days = days_from_civil year month day in
        let computed_weekday = pos_part (remainder (remainder (days +ℤ pos 4) 7 +ℤ pos 7) 7) in
        if not (computed_weekday == weekday)
        then none
        else some (times (times days 86400 +ℤ pos (hour * 3600 + minute * 60 + second)) 1000))
