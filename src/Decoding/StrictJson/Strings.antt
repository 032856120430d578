-- ===== src/Decoding/StrictJson/Strings.antt =====
-- `ParseString` of src/runtime/decoding/strict_json_reader.cpp. `first & 0xe0` and the like are written as
-- quotients and remainders of a byte. No capacity observer is given, so `ReserveAppend` is
-- `RequireAppend`.
use cuac.Common.{
  ℕ, zero, suc, ◌+◌, ◌-◌, ◌*◌, ◌/◌, ◌%◌, not, ◌||◌, ◌&&◌, Option, none, some, List, [], ◌∷◌, ◌++◌,
  length, ltb, leb, ◌==◌, if◌then◌else◌,
}
use cuac.Decoding.StrictJson.Reader.{
  malformed, over_budget, M, ◌>>=◌, ◌>>◌, pure, fail, check, next_byte, require_more, expect,
  is_digit, Turn, closed, more, loop,
}

unfoldable pub hex_digit : ℕ → Option ℕ
hex_digit c =
    if is_digit c
    then some (c - b'0')
    else if leb b'a' c && leb c b'f'
    then some (c - b'a' + 10)
    else if leb b'A' c && leb c b'F'
    then some (c - b'A' + 10)
    else none

-- The loop of `ParseHexCodeUnit`, with the rounds left.
unfoldable pub hex_digits : ℕ → ℕ → M ℕ
hex_digits zero result = pure result
hex_digits (suc n) result = do
  check
  c ← next_byte
  elim (hex_digit c) as (λ _. M ℕ) [
    | none ↦ fail malformed
    | some d ↦ hex_digits n (result * 16 + d)
  ]

unfoldable pub parse_hex_code_unit : M ℕ
parse_hex_code_unit = hex_digits 4 0

-- A low surrogate after a high one, which is refused at its first byte that is wrong; the source
-- looks at `\u` at once, without a check.
unfoldable pub low_surrogate : ℕ → M ℕ
low_surrogate value = do
  a ← next_byte
  b ← next_byte
  (if a == b'\\' && b == b'u' then pure tt else fail malformed)
  low ← parse_hex_code_unit
  if ltb low 0xdc00 || ltb 0xdfff low
      then fail malformed
      else pure (0x10000 + (value - 0xd800) * 1024 + (low - 0xdc00))

unfoldable pub parse_escaped_unicode : M ℕ
parse_escaped_unicode = do
  value ← parse_hex_code_unit
  if leb 0xd800 value && leb value 0xdbff
      then low_surrogate value
      else if leb 0xdc00 value && leb value 0xdfff
      then fail malformed
      else pure value

-- The bytes that `AppendCodePoint` appends.
unfoldable pub utf8_bytes : ℕ → List ℕ
utf8_bytes value =
    if leb value 0x7f
    then value ∷ []
    else if leb value 0x7ff
    then (0xc0 + value / 64) ∷ (0x80 + value % 64) ∷ []
    else if leb value 0xffff
    then (0xe0 + value / 4096) ∷ (0x80 + value / 64 % 64) ∷ (0x80 + value % 64) ∷ []
    else (0xf0 + value / 262144)
      ∷ (0x80 + value / 4096 % 64)
      ∷ (0x80 + value / 64 % 64)
      ∷ (0x80 + value % 64)
      ∷ []

-- `RequireAppend`.
unfoldable pub require_append : List ℕ → ℕ → ℕ → M (Unit {0})
require_append result additional maximum =
    if ltb maximum additional || ltb (maximum - additional) (length result)
    then fail over_budget
    else pure tt

-- What the first byte of a sequence says: how many follow, its bits, and the least value.
pub record Utf8Lead : Type 0 where
  pub count : ℕ
  pub value : ℕ
  pub minimum : ℕ

unfoldable pub utf8_lead : ℕ → Option Utf8Lead
utf8_lead first =
    if first / 32 == 6
    then some (record { count = 1; value = first % 32; minimum = 0x80 })
    else if first / 16 == 14
    then some (record { count = 2; value = first % 16; minimum = 0x800 })
    else if first / 8 == 30
    then some (record { count = 3; value = first % 8; minimum = 0x10000 })
    else none

-- The continuation bytes, with the rounds left: the value and the bytes.
unfoldable pub utf8_tail : ℕ → ℕ → M (ℕ × List ℕ)
utf8_tail zero value = pure (value, [])
utf8_tail (suc n) value = do
  check
  c ← next_byte
  (if c / 64 == 2 then pure tt else fail malformed)
  (last, cs) ← utf8_tail n (value * 64 + c % 64)
  pure (last, c ∷ cs)

-- The bytes after a first byte that is not ASCII.
unfoldable pub utf8_sequence : ℕ → M (List ℕ)
utf8_sequence first = elim (utf8_lead first) as (λ _. M (List ℕ)) [
  | none ↦ fail malformed
  | some lead ↦ (do
    (value, cs) ← utf8_tail lead.count lead.value
    if ltb value lead.minimum || ltb 0x10ffff value || leb 0xd800 value && leb value 0xdfff
        then fail malformed
        else pure cs)
]

-- `AppendUtf8`.
unfoldable pub append_utf8 : ℕ → ℕ → List ℕ → M (List ℕ)
append_utf8 maximum first result =
    if ltb first 0x80
    then (do require_append result 1 maximum; pure (result ++ (first ∷ [])))
    else (do
      cs ← utf8_sequence first
      require_append result (length cs + 1) maximum
      pure (result ++ (first ∷ cs)))

unfoldable pub append_code_point : ℕ → ℕ → List ℕ → M (List ℕ)
append_code_point maximum value result = do
  require_append result (length (utf8_bytes value)) maximum
  pure (result ++ utf8_bytes value)

-- The byte that a short escape stands for, by the switch of `ParseString`.
unfoldable pub short_escape : ℕ → Option ℕ
short_escape c =
    if c == b'"' || c == b'\\' || c == b'/'
    then some c
    else if c == b'b'
    then some 8
    else if c == b'f'
    then some 12
    else if c == b'n'
    then some 10
    else if c == b'r'
    then some 13
    else if c == b't'
    then some 9
    else none

unfoldable pub parse_escape : ℕ → List ℕ → M (Turn (List ℕ))
parse_escape maximum result = do
  require_more
  e ← next_byte
  elim (short_escape e) as (λ _. M (Turn (List ℕ))) [
    | some b ↦ (do require_append result 1 maximum; pure (more (result ++ (b ∷ []))))
    | none ↦
        if e == b'u'
        then (do
          value ← parse_escaped_unicode
          longer ← append_code_point maximum value result
          pure (more longer))
        else fail malformed
  ]

-- The body of the loop of `ParseString`.
unfoldable pub parse_turn : ℕ → List ℕ → M (Turn (List ℕ))
parse_turn maximum result = do
  require_more
  check
  c ← next_byte
  if c == b'"'
      then pure (closed result)
      else if ltb c 0x20
      then fail malformed
      else if not (c == b'\\')
      then (do longer ← append_utf8 maximum c result; pure (more longer))
      else parse_escape maximum result

unfoldable pub parse_string : ℕ → M (List ℕ)
parse_string maximum = do expect b'"'; loop (parse_turn maximum) []
