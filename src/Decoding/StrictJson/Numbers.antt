-- ===== src/Decoding/StrictJson/Numbers.antt =====
-- `ParseNumberToken` of src/runtime/decoding/strict_json_reader.cpp.
use cuac.Common.{
  ℕ, ◌-◌, Bool, ◌||◌, ◌&&◌, List, [], ◌∷◌, length, ltb, leb, ◌==◌, if◌then◌else◌, zero, suc,
}
use cuac.Decoding.StrictJson.Reader.{
  malformed, over_budget, ok, err, M, bind_result, ◌>>=◌, ◌>>◌, pure, fail, check, peek, skip_byte,
  is_digit, Turn, closed, more, loop,
}

-- The body of the loops over digits.
unfoldable pub digit_turn : M (Turn (Unit {0}))
digit_turn = do
  c ← peek
  if is_digit c then (do check; skip_byte; pure (more tt)) else pure (closed tt)

abbrev pub digits : M (Unit {0})
digits = loop (λ _. digit_turn) tt

-- One digit at least.
unfoldable pub require_digits : M (Unit {0})
require_digits = do c ← peek; if is_digit c then digits else fail malformed

abbrev pub skip_if : (ℕ → Bool) → M (Unit {0})
skip_if test = do c ← peek; if test c then skip_byte else pure tt

unfoldable pub integer_part : M (Unit {0})
integer_part = do
  c ← peek
  if c == b'0'
      then (do skip_byte; d ← peek; if is_digit d then fail malformed else pure tt)
      else if leb b'1' c && leb c b'9'
      then digits
      else fail malformed

unfoldable pub fraction_part : M (Unit {0})
fraction_part = do c ← peek; if c == b'.' then (do skip_byte; require_digits) else pure tt

unfoldable pub exponent_part : M (Unit {0})
exponent_part = do
  c ← peek
  if c == b'e' || c == b'E'
      then (do skip_byte; skip_if (λ d. d == b'+' || d == b'-'); require_digits)
      else pure tt

unfoldable pub number : M (Unit {0})
number = do skip_if (λ c. c == b'-'); integer_part; fraction_part; exponent_part

abbrev pub take : ℕ → List ℕ → List ℕ
take zero cs = []
take (suc n) [] = []
take (suc n) (c ∷ cs) = c ∷ take n cs

unfoldable pub parse_number_token : ℕ → M (List ℕ)
parse_number_token max_token_bytes r = bind_result (number r) (λ _ s.
    let token_bytes = length r.rest - length s.rest in
    if ltb max_token_bytes token_bytes then err over_budget else ok (take token_bytes r.rest) s)
