-- ===== src/Decoding/StrictJson/Skips.antt =====
-- `SkipString` and `SkipUtf8` of src/runtime/decoding/strict_json_reader.cpp, which have tests of their own.
use cuac.Common.{
  ℕ, zero, suc, ◌+◌, ◌*◌, ◌/◌, ◌%◌, Bool, not, ◌||◌, ◌&&◌, Option, none, some, ltb, leb, ◌==◌,
  if◌then◌else◌,
}
use cuac.Decoding.StrictJson.Reader.{
  malformed, M, ◌>>=◌, ◌>>◌, pure, fail, check, next_byte, require_more, expect, Turn, closed, more,
  loop,
}
use cuac.Decoding.StrictJson.Strings.{Utf8Lead, parse_escaped_unicode}

-- How many bytes follow the first, its bits, and the least value.
unfoldable pub skip_lead : ℕ → Option Utf8Lead
skip_lead first =
    if first / 32 == 6
    then some (record { count = 1; value = first % 32; minimum = 0x80 })
    else if first / 16 == 14
    then some (record { count = 2; value = first % 16; minimum = 0x800 })
    else if first / 8 == 30
    then some (record { count = 3; value = first % 8; minimum = 0x10000 })
    else none

-- The continuation bytes, with the rounds left: the value.
unfoldable pub skip_tail : ℕ → ℕ → M ℕ
skip_tail zero value = pure value
skip_tail (suc n) value = do
  check
  c ← next_byte
  (if c / 64 == 2 then pure tt else fail malformed)
  skip_tail n (value * 64 + c % 64)

unfoldable pub skip_utf8 : ℕ → M (Unit {0})
skip_utf8 first =
    if ltb first 0x80 then pure tt else elim (skip_lead first) as (λ _. M (Unit {0})) [
      | none ↦ fail malformed
      | some lead ↦ (do
        value ← skip_tail lead.count lead.value
        if ltb value lead.minimum || ltb 0x10ffff value || leb 0xd800 value && leb value 0xdfff
            then fail malformed
            else pure tt)
    ]

-- The escapes of one byte that `SkipString` lets pass.
unfoldable pub is_skipped_escape : ℕ → Bool
is_skipped_escape e =
    e == b'"'
    || e == b'\\'
    || e == b'/'
    || e == b'b'
    || e == b'f'
    || e == b'n'
    || e == b'r'
    || e == b't'

unfoldable pub skip_escape : M (Turn (Unit {0}))
skip_escape = do
  require_more
  e ← next_byte
  if e == b'u'
      then (do value ← parse_escaped_unicode; pure (more tt))
      else if is_skipped_escape e
      then pure (more tt)
      else fail malformed

-- The body of the loop of `SkipString`.
unfoldable pub skip_turn : M (Turn (Unit {0}))
skip_turn = do
  require_more
  check
  c ← next_byte
  if c == b'"'
      then pure (closed tt)
      else if ltb c 0x20
      then fail malformed
      else if not (c == b'\\')
      then (do skip_utf8 c; pure (more tt))
      else skip_escape

unfoldable pub skip_string : M (Unit {0})
skip_string = do expect b'"'; loop (λ _. skip_turn) tt
