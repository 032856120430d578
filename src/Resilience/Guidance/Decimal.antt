-- ===== src/Resilience/Guidance/Decimal.antt =====
-- `TryParseDecimal` of src/runtime/resilience/rate_limit_guidance.cpp against the value of a text.
use cuac.Common.{
  ℕ, ◌+◌, ◌-◌, ◌*◌, ◌/◌, ◌%◌, ◌≤◌, ◌<◌, ◌≡◌, inl, inr, refl, Bool, true, false, not, ◌&&◌, none,
  some, List, [], ◌∷◌, ltb, leb, if◌then◌else◌, arith, Bool-cases,
}
use cuac.Resilience.Guidance.Parse.{is_empty}
use cuac.Resilience.Guidance.Dates.{is_digit, decimal_loop, try_parse_decimal}

-- The value of some digits after a number.
unfoldable pub digits_value : ℕ → List ℕ → ℕ
digits_value n [] = n
digits_value n (c ∷ cs) = digits_value (n * 10 + (c - b'0')) cs

unfoldable pub all_digits : List ℕ → Bool
all_digits [] = true
all_digits (c ∷ cs) = is_digit c && all_digits cs

digits_value_mono : (n : ℕ) (cs : List ℕ) → n ≤ digits_value n cs
unfolding digits_value
digits_value_mono n [] = omega arith
digits_value_mono n (c ∷ cs) = omega (arith, digits_value_mono (n * 10 + (c - b'0')) cs)

module _ (maximum : ℕ) (wide : 9 ≤ maximum) (bounded : maximum < 18446744073709551616) where
  decimal_loop_lem :
      (cs : List ℕ) (parsed : ℕ)
      → parsed ≤ maximum
      → decimal_loop maximum cs parsed ≡ (
          if all_digits cs && leb (digits_value parsed cs) maximum
          then some (digits_value parsed cs)
          else none)
  unfolding decimal_loop digits_value all_digits
  decimal_loop_lem [] parsed h = let fits : leb parsed maximum ≡ true = ground arith in rw fits refl
  decimal_loop_lem (c ∷ cs) parsed h = elim (Bool-cases (is_digit c)) [
    | inr e ↦ rw e refl
    | inl e ↦
        elim (Bool-cases (
          ltb ((maximum + 18446744073709551616 - (c - b'0')) % 18446744073709551616 / 10) parsed)) [
            | inl f ↦
                let over : leb (digits_value (parsed * 10 + (c - b'0')) cs) maximum ≡ false =
                  ground (arith, digits_value_mono (parsed * 10 + (c - b'0')) cs) in
                rw (e, f, over) (refused (all_digits cs))
            | inr f ↦ rw (e, f) (decimal_loop_lem cs (parsed * 10 + (c - b'0')) (ground arith))
          ]
  ]
    where
      refused :
          (b : Bool)
          → none ≡ (if b && false then some (digits_value (parsed * 10 + (c - b'0')) cs) else none)
      refused true = refl
      refused false = refl

  -- A text is accepted as a decimal exactly if it has a digit at least, only digits, and a value within
  -- the maximum, whatever its length, and the result is its value; the maximum has 64 bits and is at
  -- least 9.
  pub try_parse_decimal_lem :
      (value : List ℕ)
      → try_parse_decimal value maximum ≡ (
          if not (is_empty value) && (all_digits value && leb (digits_value 0 value) maximum)
          then some (digits_value 0 value)
          else none)
  unfolding try_parse_decimal
  try_parse_decimal_lem [] = refl
  try_parse_decimal_lem (c ∷ cs) = decimal_loop_lem (c ∷ cs) 0 (omega arith)
