-- ===== src/Decoding/StrictJson/Values.antt =====
-- `SkipValue` and `ValidateDocument` of src/runtime/decoding/strict_json_reader.cpp.
use cuac.Common.{ℕ, ◌+◌, ◌||◌, [], ◌∷◌, ltb, ◌==◌, if◌then◌else◌, zero, suc}
use cuac.Decoding.StrictJson.Reader.{
  malformed, json_nesting, out_of_fuel, ok, err, M, ◌>>=◌, ◌>>◌, pure, fail, peek, skip_whitespace,
  expect, require_object_key, separator, literal, is_digit, Turn, closed, more, loop,
}
use cuac.Decoding.StrictJson.Skips.{skip_string}
use cuac.Decoding.StrictJson.SkipNumbers.{skip_number}

-- The parts of a value take the reading of a value one level deeper.
module _ (skip_inner : M (Unit {0})) where
  unfoldable pub array_turn : M (Turn (Unit {0}))
  array_turn = do
    c ← peek
    if c == b']' then pure (closed tt) else (do skip_inner; separator b']'; pure (more tt))

  unfoldable pub object_turn : M (Turn (Unit {0}))
  object_turn = do
    c ← peek
    if c == b'}' then pure (closed tt) else (do
      require_object_key
      skip_string
      skip_whitespace
      expect b':'
      skip_inner
      separator b'}'
      pure (more tt))

  unfoldable pub skip_array : M (Unit {0})
  skip_array = do expect b'['; skip_whitespace; loop (λ _. array_turn) tt; expect b']'

  unfoldable pub skip_object : M (Unit {0})
  skip_object = do expect b'{'; skip_whitespace; loop (λ _. object_turn) tt; expect b'}'

  -- `SkipValue` after its test of the depth, by the first byte.
  unfoldable pub skip_by_first : ℕ → M (Unit {0})
  skip_by_first c =
      if c == b'"'
      then skip_string
      else if c == b'-' || is_digit c
      then skip_number
      else if c == b't'
      then literal (b't' ∷ b'r' ∷ b'u' ∷ b'e' ∷ [])
      else if c == b'f'
      then literal (b'f' ∷ b'a' ∷ b'l' ∷ b's' ∷ b'e' ∷ [])
      else if c == b'n'
      then literal (b'n' ∷ b'u' ∷ b'l' ∷ b'l' ∷ [])
      else if c == b'['
      then skip_array
      else if c == b'{'
      then skip_object
      else fail malformed

unfoldable pub require_depth : ℕ → M (Unit {0})
require_depth depth r = if ltb r.max_json_nesting depth then err json_nesting else ok tt r

-- `SkipValue`, with the levels left that it may go down.
unfoldable pub skip_value : ℕ → ℕ → M (Unit {0})
skip_value zero depth = fail out_of_fuel
skip_value (suc fuel) depth = do
  skip_whitespace
  require_depth depth
  c ← peek
  skip_by_first (skip_value fuel (depth + 1)) c

unfoldable pub require_end : M (Unit {0})
require_end r = elim r.rest [ [] ↦ ok tt r | c ∷ cs ↦ err malformed ]

-- A value deeper than the budget is refused, so a level for each depth up to it, and one, is enough.
unfoldable pub validate_document : M (Unit {0})
validate_document = do
  skip_whitespace
  (λ r. skip_value (r.max_json_nesting + 2) 0 r)
  skip_whitespace
  require_end
