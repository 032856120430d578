-- ===== src/Resilience/Guidance/Dates.antt =====
-- The HTTP dates of src/runtime/resilience/rate_limit_guidance.cpp. A text is a list of bytes; where its
-- length has been tested, a byte of it is `nth`.
use cuac.Common.{
  ℕ, ◌+◌, ◌-◌, ◌*◌, ◌/◌, ◌%◌, Bool, true, not, ◌||◌, ◌&&◌, Option, none, some, List, [], ◌∷◌,
  length, ltb, leb, ◌==◌, if◌then◌else◌,
}
use cuac.Resilience.Guidance.Calendar.{nth}

abbrev pub is_digit : ℕ → Bool
is_digit value = leb b'0' value && leb value b'9'

-- The loop of `TryParseDecimal`, in 64 bits.
unfoldable pub decimal_loop : ℕ → List ℕ → ℕ → Option ℕ
decimal_loop maximum [] parsed = some parsed
decimal_loop maximum (c ∷ cs) parsed =
    let digit = c - b'0' in
    let rest = decimal_loop maximum cs (parsed * 10 + digit) in
    if not (is_digit c)
    then none
    else if ltb ((maximum + 18446744073709551616 - digit) % 18446744073709551616 / 10) parsed
    then none
    else rest

unfoldable pub try_parse_decimal : List ℕ → ℕ → Option ℕ
try_parse_decimal [] maximum = none
try_parse_decimal (c ∷ cs) maximum = decimal_loop maximum (c ∷ cs) 0

unfoldable pub try_parse_two_digits : List ℕ → ℕ → Option ℕ
try_parse_two_digits value offset =
    let a = nth value offset in
    let b = nth value (offset + 1) in
    if ltb (length value) (offset + 2) || not (is_digit a) || not (is_digit b)
    then none
    else some ((a - b'0') * 10 + (b - b'0'))

unfoldable pub try_parse_four_digits : List ℕ → ℕ → Option ℕ
try_parse_four_digits value offset =
    let a = nth value offset in
    let b = nth value (offset + 1) in
    let c = nth value (offset + 2) in
    let d = nth value (offset + 3) in
    if ltb (length value) (offset + 4)
      || not (is_digit a)
      || not (is_digit b)
      || not (is_digit c)
      || not (is_digit d)
    then none
    else some ((((a - b'0') * 10 + (b - b'0')) * 10 + (c - b'0')) * 10 + (d - b'0'))

-- Whether a text has some bytes at an offset.
unfoldable pub has_at : List ℕ → ℕ → List ℕ → Bool
has_at value offset [] = true
has_at value offset (c ∷ cs) =
    ltb offset (length value) && nth value offset == c && has_at value (offset + 1) cs

-- The first of some texts that stands at an offset, counted from a number.
unfoldable pub index_at : List ℕ → ℕ → List (List ℕ) → ℕ → Option ℕ
index_at value offset [] n = none
index_at value offset (t ∷ ts) n =
    let rest = index_at value offset ts (n + 1) in if has_at value offset t then some n else rest

abbrev pub months : List (List ℕ)
months =
    (b'J' ∷ b'a' ∷ b'n' ∷ [])
    ∷ (b'F' ∷ b'e' ∷ b'b' ∷ [])
    ∷ (b'M' ∷ b'a' ∷ b'r' ∷ [])
    ∷ (b'A' ∷ b'p' ∷ b'r' ∷ [])
    ∷ (b'M' ∷ b'a' ∷ b'y' ∷ [])
    ∷ (b'J' ∷ b'u' ∷ b'n' ∷ [])
    ∷ (b'J' ∷ b'u' ∷ b'l' ∷ [])
    ∷ (b'A' ∷ b'u' ∷ b'g' ∷ [])
    ∷ (b'S' ∷ b'e' ∷ b'p' ∷ [])
    ∷ (b'O' ∷ b'c' ∷ b't' ∷ [])
    ∷ (b'N' ∷ b'o' ∷ b'v' ∷ [])
    ∷ (b'D' ∷ b'e' ∷ b'c' ∷ [])
    ∷ []

abbrev pub weekdays : List (List ℕ)
weekdays =
    (b'S' ∷ b'u' ∷ b'n' ∷ [])
    ∷ (b'M' ∷ b'o' ∷ b'n' ∷ [])
    ∷ (b'T' ∷ b'u' ∷ b'e' ∷ [])
    ∷ (b'W' ∷ b'e' ∷ b'd' ∷ [])
    ∷ (b'T' ∷ b'h' ∷ b'u' ∷ [])
    ∷ (b'F' ∷ b'r' ∷ b'i' ∷ [])
    ∷ (b'S' ∷ b'a' ∷ b't' ∷ [])
    ∷ []

-- The long names, each with its comma.
abbrev pub long_weekdays : List (List ℕ)
long_weekdays =
    (b'S' ∷ b'u' ∷ b'n' ∷ b'd' ∷ b'a' ∷ b'y' ∷ b',' ∷ [])
    ∷ (b'M' ∷ b'o' ∷ b'n' ∷ b'd' ∷ b'a' ∷ b'y' ∷ b',' ∷ [])
    ∷ (b'T' ∷ b'u' ∷ b'e' ∷ b's' ∷ b'd' ∷ b'a' ∷ b'y' ∷ b',' ∷ [])
    ∷ (b'W' ∷ b'e' ∷ b'd' ∷ b'n' ∷ b'e' ∷ b's' ∷ b'd' ∷ b'a' ∷ b'y' ∷ b',' ∷ [])
    ∷ (b'T' ∷ b'h' ∷ b'u' ∷ b'r' ∷ b's' ∷ b'd' ∷ b'a' ∷ b'y' ∷ b',' ∷ [])
    ∷ (b'F' ∷ b'r' ∷ b'i' ∷ b'd' ∷ b'a' ∷ b'y' ∷ b',' ∷ [])
    ∷ (b'S' ∷ b'a' ∷ b't' ∷ b'u' ∷ b'r' ∷ b'd' ∷ b'a' ∷ b'y' ∷ b',' ∷ [])
    ∷ []

abbrev pub gmt : List ℕ
gmt = b'G' ∷ b'M' ∷ b'T' ∷ []

-- `MonthIndex`, which is 0 where there is none.
unfoldable pub month_index : List ℕ → ℕ → Option ℕ
month_index value offset = index_at value offset months 1

unfoldable pub weekday_index : List ℕ → Option ℕ
weekday_index value = index_at value 0 weekdays 0
