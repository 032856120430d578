-- ===== src/Decoding/StrictJson/SkipNumbers.antt =====
-- `SkipNumber` of src/runtime/decoding/strict_json_reader.cpp, which has a scan of its own.
use cuac.Common.{◌||◌, ◌&&◌, length, leb, ◌==◌, if◌then◌else◌}
use cuac.Decoding.StrictJson.Reader.{
  malformed, ok, err, M, bind_result, ◌>>=◌, ◌>>◌, pure, fail, check, peek, skip_byte, is_digit,
  Turn, closed, more, loop,
}

-- The body of the loops over digits.
unfoldable pub skip_digit : M (Turn (Unit {0}))
skip_digit = do
  c ← peek
  if leb b'0' c && leb c b'9' then (do check; skip_byte; pure (more tt)) else pure (closed tt)

abbrev pub skip_digits : M (Unit {0})
skip_digits = loop (λ _. skip_digit) tt

unfoldable pub skip_some_digits : M (Unit {0})
skip_some_digits = do c ← peek; if is_digit c then skip_digits else fail malformed

unfoldable pub skip_minus : M (Unit {0})
skip_minus = do c ← peek; if c == b'-' then skip_byte else pure tt

unfoldable pub skip_integer : M (Unit {0})
skip_integer = do
  c ← peek
  if c == b'0'
      then (do skip_byte; d ← peek; if is_digit d then fail malformed else pure tt)
      else if leb b'1' c && leb c b'9'
      then skip_digits
      else fail malformed

unfoldable pub skip_fraction : M (Unit {0})
skip_fraction = do c ← peek; if c == b'.' then (do skip_byte; skip_some_digits) else pure tt

unfoldable pub skip_sign : M (Unit {0})
skip_sign = do c ← peek; if c == b'+' || c == b'-' then skip_byte else pure tt

unfoldable pub skip_exponent : M (Unit {0})
skip_exponent = do
  c ← peek
  if c == b'e' || c == b'E' then (do skip_byte; skip_sign; skip_some_digits) else pure tt

unfoldable pub skip_scan : M (Unit {0})
skip_scan = do skip_minus; skip_integer; skip_fraction; skip_exponent

-- With the last test, that the position has moved.
unfoldable pub skip_number : M (Unit {0})
skip_number r =
    bind_result (skip_scan r)
      (λ _ s. if length s.rest == length r.rest then err malformed else ok tt s)
