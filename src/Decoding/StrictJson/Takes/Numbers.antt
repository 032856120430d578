-- ===== src/Decoding/StrictJson/Takes/Numbers.antt =====
-- The scan of a number, of src/runtime/decoding/strict_json_reader.cpp, returns.
use cuac.Common.{ℕ, Bool, ◌||◌, ◌&&◌, length, leb, ◌==◌, arith}
use cuac.Decoding.StrictJson.Reader.{check, is_digit}
use cuac.Decoding.StrictJson.Numbers.{
  digit_turn, digits, require_digits, integer_part, fraction_part, exponent_part, number, skip_if,
  parse_number_token,
}
use cuac.Decoding.StrictJson.SkipNumbers.{
  skip_digit, skip_some_digits, skip_minus, skip_integer, skip_fraction, skip_sign, skip_exponent,
  skip_scan, skip_number,
}
use cuac.Decoding.StrictJson.Takes.{
  Left, Takes, takes, taken, advances, if-Takes, pure-Takes, bind-Takes, malformed-Takes,
  peek-Takes, skip_byte-Takes, Advances, loop-Takes, bind-Safe,
}

module _ {budget : ℕ} where
  pub digit_turn-Advances : Advances budget digit_turn
  unfolding digit_turn check
  digit_turn-Advances = advances λ n r l. ground arith

  pub digits-Takes : Takes budget 0 digits
  digits-Takes = loop-Takes _ (λ _. digit_turn-Advances) tt

  pub require_digits-Takes : Takes budget 0 require_digits
  unfolding require_digits
  require_digits-Takes =
      bind-Takes 0 0 _ _ peek-Takes
        λ c. if-Takes 0 (is_digit c) _ _ digits-Takes (malformed-Takes _ _)

  pub skip_if-Takes : (test : ℕ → Bool) → Takes budget 0 (skip_if test)
  skip_if-Takes test =
      bind-Takes 0 0 _ _ peek-Takes λ c. if-Takes 0 (test c) _ _ skip_byte-Takes (pure-Takes tt)

  pub integer_part-Takes : Takes budget 0 integer_part
  unfolding integer_part
  integer_part-Takes = bind-Takes 0 0 _ _ peek-Takes λ c.
      if-Takes 0 (c == b'0') _ _
        (bind-Takes 0 0 _ _ skip_byte-Takes λ _.
          bind-Takes 0 0 _ _ peek-Takes
            λ d. if-Takes 0 (is_digit d) _ _ (malformed-Takes _ _) (pure-Takes tt))
        (if-Takes 0 (leb b'1' c && leb c b'9') _ _ digits-Takes (malformed-Takes _ _))

  pub fraction_part-Takes : Takes budget 0 fraction_part
  unfolding fraction_part
  fraction_part-Takes = bind-Takes 0 0 _ _ peek-Takes λ c.
      if-Takes 0 (c == b'.') _ _ (bind-Takes 0 0 _ _ skip_byte-Takes λ _. require_digits-Takes)
        (pure-Takes tt)

  pub exponent_part-Takes : Takes budget 0 exponent_part
  unfolding exponent_part
  exponent_part-Takes = bind-Takes 0 0 _ _ peek-Takes λ c.
      if-Takes 0 (c == b'e' || c == b'E') _ _
        (bind-Takes 0 0 _ _ skip_byte-Takes λ _.
          bind-Takes 0 0 _ _ (skip_if-Takes (λ d. d == b'+' || d == b'-'))
            λ _. require_digits-Takes)
        (pure-Takes tt)

  pub number-Takes : Takes budget 0 number
  unfolding number
  number-Takes = bind-Takes 0 0 _ _ (skip_if-Takes (λ c. c == b'-')) λ _.
      bind-Takes 0 0 _ _ integer_part-Takes
        λ _. bind-Takes 0 0 _ _ fraction_part-Takes λ _. exponent_part-Takes

  skip_digit-Advances : Advances budget skip_digit
  unfolding skip_digit check
  skip_digit-Advances = advances λ n r l. ground arith

  skip_some_digits-Takes : Takes budget 0 skip_some_digits
  unfolding skip_some_digits
  skip_some_digits-Takes = bind-Takes 0 0 _ _ peek-Takes λ c.
      if-Takes 0 (is_digit c) _ _ (loop-Takes _ (λ _. skip_digit-Advances) tt) (malformed-Takes _ _)

  skip_integer-Takes : Takes budget 0 skip_integer
  unfolding skip_integer
  skip_integer-Takes = bind-Takes 0 0 _ _ peek-Takes λ c.
      if-Takes 0 (c == b'0') _ _
        (bind-Takes 0 0 _ _ skip_byte-Takes λ _.
          bind-Takes 0 0 _ _ peek-Takes
            λ d. if-Takes 0 (is_digit d) _ _ (malformed-Takes _ _) (pure-Takes tt))
        (if-Takes 0 (leb b'1' c && leb c b'9') _ _ (loop-Takes _ (λ _. skip_digit-Advances) tt)
          (malformed-Takes _ _))

  skip_fraction-Takes : Takes budget 0 skip_fraction
  unfolding skip_fraction
  skip_fraction-Takes = bind-Takes 0 0 _ _ peek-Takes λ c.
      if-Takes 0 (c == b'.') _ _ (bind-Takes 0 0 _ _ skip_byte-Takes λ _. skip_some_digits-Takes)
        (pure-Takes tt)

  skip_exponent-Takes : Takes budget 0 skip_exponent
  unfolding skip_exponent skip_sign
  skip_exponent-Takes = bind-Takes 0 0 _ _ peek-Takes λ c.
      if-Takes 0 (c == b'e' || c == b'E') _ _
        (bind-Takes 0 0 _ _ skip_byte-Takes λ _.
          bind-Takes 0 0 _ _ (skip_if-Takes (λ d. d == b'+' || d == b'-'))
            λ _. skip_some_digits-Takes)
        (pure-Takes tt)

  skip_scan-Takes : Takes budget 0 skip_scan
  unfolding skip_scan skip_minus
  skip_scan-Takes = bind-Takes 0 0 _ _ (skip_if-Takes (λ c. c == b'-')) λ _.
      bind-Takes 0 0 _ _ skip_integer-Takes
        λ _. bind-Takes 0 0 _ _ skip_fraction-Takes λ _. skip_exponent-Takes

  pub skip_number-Takes : Takes budget 1 skip_number
  unfolding skip_number
  skip_number-Takes = takes λ n r (l, b).
      bind-Safe (Left 0 (length r.rest) budget) (Left 1 n budget) (skip_scan r) _
        (taken skip_scan-Takes (length r.rest) r (omega arith, b)) (λ _ s (m, e). ground arith)

  pub parse_number_token-Takes : (maximum : ℕ) → Takes budget 0 (parse_number_token maximum)
  unfolding parse_number_token
  parse_number_token-Takes maximum = takes λ n r (l, b).
      bind-Safe (Left 0 n budget) (Left 0 n budget) (number r) _ (taken number-Takes n r (l, b))
        (λ _ s (m, e). ground arith)
