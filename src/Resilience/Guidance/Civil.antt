-- ===== src/Resilience/Guidance/Civil.antt =====
-- The civil calendar of src/runtime/resilience/rate_limit_guidance.cpp, there and back.
use cuac.Common.Int.{ℤ, pos, negsuc, pos_part, leb_ℤ, ltb_ℤ, ◌+ℤ◌, ◌-ℤ◌}
use cuac.Resilience.Guidance.Calendar.{
  is_leap_year, days_in_month, days_from_civil, times, CivilTime, split_days,
  try_civil_time_from_milliseconds,
}
use cuac.Common.{
  zero, suc, absurd, false, ◌∙◌, Option, none, some, ltb, leb, true, ◌||◌, if◌then◌else◌, ℕ, ◌+◌,
  ◌-◌, ◌*◌, ◌/◌, ◌%◌, ◌≤◌, ◌<◌, ◌≡◌, refl, ◌⊎◌, arith,
}

month_lem :
    (month_prime day : ℕ)
    → month_prime < 12
    → 0 < day
    → day ≤ (153 * (month_prime + 1) + 2) / 5 - (153 * month_prime + 2) / 5
    → (5 * ((153 * month_prime + 2) / 5 + day - 1) + 2) / 153 ≡ month_prime
month_lem month_prime day h g l = omega arith

-- The years of an era before a day of it.
year_lem :
    (y d c q : ℕ)
    → y < 400
    → d ≤ 365
    → q ≡ y / 4
    → c ≡ y / 100
    → (d ≤ 364) ⊎ (((y + 1) % 4 ≡ 0) × (((y + 1) % 100 ≡ 0) → (y ≡ 399)))
    → let doe = y * 365 + q - c + d in (doe - doe / 1460 + doe / 36524 - doe / 146096) / 365 ≡ y
year_lem y d c q h g e f leap = ground arith

split_days_lem : (d : ℤ) (w : ℕ) → w < 86400000 → split_days (times d 86400000 +ℤ pos w) ≡ (d, w)
unfolding split_days ◌+ℤ◌ ◌-ℤ◌
split_days_lem (pos n) w h = ground arith
split_days_lem (negsuc n) w h = ground arith

shifted_lem : (z : ℕ) → (pos z -ℤ pos 719468) +ℤ pos 719468 ≡ pos z
unfolding ◌+ℤ◌ ◌-ℤ◌
shifted_lem z = ground arith

-- The days before a day of a shifted year that begins in March.
abbrev day_of : ℕ → ℕ → ℕ
day_of m d = (153 * m + 2) / 5 + d - 1

abbrev era_day : ℕ → ℕ → ℕ → ℕ
era_day y m d = y * 365 + y / 4 - y / 100 + day_of m d

abbrev calendar_month : ℕ → ℕ
calendar_month m = if ltb m 10 then m + 3 else m - 9

-- What the source does with the parts of a day.
abbrev civil_of : ℕ → ℕ → ℕ → ℕ → ℕ → Option CivilTime
civil_of era y m d w =
    let year = pos y +ℤ times (pos era) 400 +ℤ pos (if leb (calendar_month m) 2 then 1 else 0) in
    if ltb_ℤ year (pos 1) || ltb_ℤ (pos 9999) year
    then none
    else some (record {
      year = year;
      month = calendar_month m;
      day = d;
      hour = w / 3600000;
      minute = w % 3600000 / 60000;
      second = w % 3600000 % 60000 / 1000;
    })

-- The month has the day, in the shifted year.
abbrev IsDay : ℕ → ℕ → ℕ → Type 0
IsDay y m d =
    (0 < d)
    × (day_of m d ≤ 365)
    × (d ≤ (153 * (m + 1) + 2) / 5 - (153 * m + 2) / 5)
    × ((day_of m d ≤ 364) ⊎ (((y + 1) % 4 ≡ 0) × (((y + 1) % 100 ≡ 0) → (y ≡ 399))))

rest_lem : (a b : ℕ) → pos_part (pos (a + b) -ℤ pos a) ≡ b
unfolding ◌-ℤ◌
rest_lem a b = ground arith

within_era : (a b : ℕ) → b < 146097 → (a * 146097 + b) / 146097 ≡ a
within_era a b h = omega arith

read_back :
    (era y m d w : ℕ)
    → y < 400
    → m < 12
    → w < 86400000
    → IsDay y m d
    → try_civil_time_from_milliseconds
        (times (pos (era * 146097 + era_day y m d) -ℤ pos 719468) 86400000 +ℤ pos w)
      ≡ civil_of era y m d w
unfolding try_civil_time_from_milliseconds
read_back era y m d w hy hm hw (lo, hd, hi, leap) =
    let z = era * 146097 + era_day y m d in
    let natural : leb_ℤ (pos 0) (pos z) ≡ true = ground arith in
    let is_era = within_era era (era_day y m d) (ground arith) in
    let is_doe : pos_part (pos z -ℤ pos (era * 146097)) ≡ era_day y m d =
      rest_lem (era * 146097) (era_day y m d) in
    let is_y = year_lem y (day_of m d) (y / 100) (y / 4) hy hd refl refl leap in
    let is_doy : era_day y m d - (365 * y + y / 4 - y / 100) ≡ day_of m d = ground arith in
    let is_m = month_lem m d hm lo hi in
    let is_d : day_of m d - (153 * m + 2) / 5 + 1 ≡ d = omega arith in
    rw
      (
        split_days_lem (pos z -ℤ pos 719468) w hw,
        shifted_lem z,
        natural,
        is_era,
        is_doe,
        is_y,
        is_doy,
        is_m,
        is_d,
      )
      refl

abbrev shifted_year : ℕ → ℕ → ℕ
shifted_year year month = year - (if leb month 2 then 1 else 0)

abbrev year_of_era : ℕ → ℕ → ℕ
year_of_era year month = shifted_year year month - shifted_year year month / 400 * 400

abbrev shifted_month : ℕ → ℕ
shifted_month month = if ltb 2 month then month - 3 else month + 9

february_lem :
    (year day : ℕ)
    → 0 < year
    → 0 < day
    → day ≤ (if is_leap_year year then 29 else 28)
    → IsDay (year_of_era year 2) 11 day
unfolding is_leap_year
february_lem year day h d l = ground arith

sum_lem : (a b c : ℕ) → pos a +ℤ pos b +ℤ pos c ≡ pos (a + b + c)
unfolding ◌+ℤ◌
sum_lem a b c = ground arith

-- A property of the months, by cases.
month-cases :
    (P : ℕ → Type 0)
    → P 1
    → P 2
    → P 3
    → P 4
    → P 5
    → P 6
    → P 7
    → P 8
    → P 9
    → P 10
    → P 11
    → P 12
    → (month : ℕ) → 0 < month
    → month ≤ 12
    → P month
month-cases P p1 p2 p3 p4 p5 p6 p7 p8 p9 p10 p11 p12 zero a b = absurd (omega arith)
month-cases P p1 p2 p3 p4 p5 p6 p7 p8 p9 p10 p11 p12 (suc zero) a b = p1
month-cases P p1 p2 p3 p4 p5 p6 p7 p8 p9 p10 p11 p12 (suc (suc zero)) a b = p2
month-cases P p1 p2 p3 p4 p5 p6 p7 p8 p9 p10 p11 p12 (suc (suc (suc zero))) a b = p3
month-cases P p1 p2 p3 p4 p5 p6 p7 p8 p9 p10 p11 p12 (suc (suc (suc (suc zero)))) a b = p4
month-cases P p1 p2 p3 p4 p5 p6 p7 p8 p9 p10 p11 p12 (suc (suc (suc (suc (suc zero))))) a b = p5
month-cases P p1 p2 p3 p4 p5 p6 p7 p8 p9 p10 p11 p12 (suc (suc (suc (suc (suc (suc zero)))))) a b =
    p6
month-cases P p1 p2 p3 p4 p5 p6 p7 p8 p9 p10 p11 p12 (suc (suc (suc (suc (suc (suc (suc zero)))))))
      a b =
    p7
month-cases P p1 p2 p3 p4 p5 p6 p7 p8 p9 p10 p11 p12
      (suc (suc (suc (suc (suc (suc (suc (suc zero)))))))) a b =
    p8
month-cases P p1 p2 p3 p4 p5 p6 p7 p8 p9 p10 p11 p12
      (suc (suc (suc (suc (suc (suc (suc (suc (suc zero))))))))) a b =
    p9
month-cases P p1 p2 p3 p4 p5 p6 p7 p8 p9 p10 p11 p12
      (suc (suc (suc (suc (suc (suc (suc (suc (suc (suc zero)))))))))) a b =
    p10
month-cases P p1 p2 p3 p4 p5 p6 p7 p8 p9 p10 p11 p12
      (suc (suc (suc (suc (suc (suc (suc (suc (suc (suc (suc zero))))))))))) a b =
    p11
month-cases P p1 p2 p3 p4 p5 p6 p7 p8 p9 p10 p11 p12
      (suc (suc (suc (suc (suc (suc (suc (suc (suc (suc (suc (suc zero)))))))))))) a b =
    p12
month-cases P p1 p2 p3 p4 p5 p6 p7 p8 p9 p10 p11 p12
      (suc (suc (suc (suc (suc (suc (suc (suc (suc (suc (suc (suc (suc n))))))))))))) a b =
    absurd (omega arith)

march_lem :
    (year month day : ℕ)
    → 0 < year
    → 0 < day
    → 0 < month
    → month ≤ 12
    → day ≤ days_in_month year month
    → IsDay (year_of_era year month) (shifted_month month) day
unfolding days_in_month
march_lem year month day y d a b =
    month-cases
      (λ month.
        day ≤ days_in_month year month → IsDay (year_of_era year month) (shifted_month month) day)
      (λ l. ground arith) (λ l. february_lem year day y d l) (λ l. ground arith) (λ l. ground arith)
      (λ l. ground arith) (λ l. ground arith) (λ l. ground arith) (λ l. ground arith)
      (λ l. ground arith) (λ l. ground arith) (λ l. ground arith) (λ l. ground arith) month a b

civil_lem :
    (year month day w : ℕ)
    → 0 < year
    → year ≤ 9999
    → 0 < month
    → month ≤ 12
    → civil_of (shifted_year year month / 400) (year_of_era year month) (shifted_month month) day w
      ≡ some (record {
        year = pos year;
        month = month;
        day = day;
        hour = w / 3600000;
        minute = w % 3600000 / 60000;
        second = w % 3600000 % 60000 / 1000;
      })
civil_lem year month day w y0 y1 m0 m1 =
    let same_month : calendar_month (shifted_month month) ≡ month = ground arith in
    let same_year : year_of_era year month
          + shifted_year year month / 400 * 400
          + (if leb month 2 then 1 else 0)
        ≡ year =
      ground arith in
    let in_range : (ltb_ℤ (pos year) (pos 1) || ltb_ℤ (pos 9999) (pos year)) ≡ false =
      ground arith in
    rw
      (
        same_month,
        sum_lem (year_of_era year month) (shifted_year year month / 400 * 400)
            (if leb month 2 then 1 else 0),
        same_year,
        in_range,
      )
      refl

-- A date of the calendar is read back from its milliseconds: for a year from 1 to 9999, a month and a
-- day of it, and any time of the day, `TryCivilTimeFromMilliseconds` of what `DaysFromCivil` counts
-- gives the year, the month, the day and the time.
pub try_civil_time_from_milliseconds-days_from_civil :
    (year month day within_day : ℕ)
    → 0 < year
    → year ≤ 9999
    → 0 < month
    → month ≤ 12
    → 0 < day
    → day ≤ days_in_month year month
    → within_day < 86400000
    → try_civil_time_from_milliseconds
        (times (days_from_civil year month day) 86400000 +ℤ pos within_day)
      ≡ some (record {
        year = pos year;
        month = month;
        day = day;
        hour = within_day / 3600000;
        minute = within_day % 3600000 / 60000;
        second = within_day % 3600000 % 60000 / 1000;
      })
unfolding days_from_civil
try_civil_time_from_milliseconds-days_from_civil year month day w y0 y1 m0 m1 d0 d1 hw =
    read_back (shifted_year year month / 400) (year_of_era year month) (shifted_month month) day w
      (omega arith) (ground arith) hw (march_lem year month day y0 d0 m0 m1 d1)
    ∙ civil_lem year month day w y0 y1 m0 m1
