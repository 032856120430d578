-- ===== src/Decoding/StrictJson/Keys.antt =====
-- `StrictJsonObjectKey` and `ParseObjectKey` of src/runtime/decoding/strict_json_reader.cpp.
use cuac.Common.{
  ℕ, ◌+◌, ◌-◌, ◌/◌, ◌%◌, Bool, true, false, not, ◌||◌, ◌&&◌, Option, none, some, List, [], ◌∷◌,
  ◌++◌, length, ltb, leb, ◌==◌, if◌then◌else◌, same_bytes,
}
use cuac.Decoding.StrictJson.Reader.{
  malformed, ok, M, bind_result, ◌>>=◌, ◌>>◌, pure, fail, check, next_byte, require_more, expect,
  Turn, closed, more, loop,
}
use cuac.Decoding.StrictJson.Strings.{parse_escaped_unicode}
use cuac.Decoding.StrictJson.Skips.{skip_utf8}
use cuac.Decoding.StrictJson.Numbers.{take}

-- The bytes kept, of an array of 64, and whether one was dropped.
pub record StrictJsonObjectKey : Type 0 where
  pub bytes : List ℕ
  pub overflow : Bool

abbrev pub empty_key : StrictJsonObjectKey
empty_key = record { bytes = []; overflow = false }

-- `Append`.
unfoldable pub append : StrictJsonObjectKey → ℕ → StrictJsonObjectKey
append key value =
    if ltb (length key.bytes) 64
    then record key { bytes = key.bytes ++ (value ∷ []) }
    else record key { overflow = true }

-- `AppendCodePoint` of the key.
unfoldable pub key_append_code_point : StrictJsonObjectKey → ℕ → StrictJsonObjectKey
key_append_code_point key value =
    if leb value 0x7f
    then append key value
    else if leb value 0x7ff
    then append (append key (0xc0 + value / 64)) (0x80 + value % 64)
    else if leb value 0xffff
    then append (append (append key (0xe0 + value / 4096)) (0x80 + value / 64 % 64))
        (0x80 + value % 64)
    else append
        (append (append (append key (0xf0 + value / 262144)) (0x80 + value / 4096 % 64))
          (0x80 + value / 64 % 64))
        (0x80 + value % 64)

-- The loop that appends the bytes of a character.
unfoldable pub append_all : StrictJsonObjectKey → List ℕ → StrictJsonObjectKey
append_all key [] = key
append_all key (c ∷ cs) = append_all (append key c) cs

-- `Equals`.
unfoldable pub key_equals : StrictJsonObjectKey → List ℕ → Bool
key_equals key expected = not key.overflow && same_bytes expected key.bytes

-- The byte that a short escape stands for, by the switch of `ParseObjectKey`.
unfoldable pub key_short_escape : ℕ → Option ℕ
key_short_escape c =
    if c == b'"' || c == b'\\' || c == b'/'
    then some c
    else if c == b'b'
    then some 8
    else if c == b'f'
    then some 12
    else if c == b'n'
    then some 10
    else if c == b'r'
    then some 13
    else if c == b't'
    then some 9
    else none

unfoldable pub key_escape : StrictJsonObjectKey → M (Turn StrictJsonObjectKey)
key_escape key = do
  require_more
  e ← next_byte
  elim (key_short_escape e) as (λ _. M (Turn StrictJsonObjectKey)) [
    | some b ↦ pure (more (append key b))
    | none ↦
        if e == b'u'
        then (do value ← parse_escaped_unicode; pure (more (key_append_code_point key value)))
        else fail malformed
  ]

-- The bytes from the first to the position that `SkipUtf8` leaves.
unfoldable pub key_utf8 : ℕ → M (List ℕ)
key_utf8 first r =
    bind_result (skip_utf8 first r)
      (λ _ s. ok (first ∷ take (length r.rest - length s.rest) r.rest) s)

-- The body of the loop of `ParseObjectKey`.
unfoldable pub key_turn : StrictJsonObjectKey → M (Turn StrictJsonObjectKey)
key_turn key = do
  require_more
  check
  c ← next_byte
  if c == b'"'
      then pure (closed key)
      else if ltb c 0x20
      then fail malformed
      else if not (c == b'\\')
      then (do cs ← key_utf8 c; pure (more (append_all key cs)))
      else key_escape key

unfoldable pub parse_object_key : M StrictJsonObjectKey
parse_object_key = do expect b'"'; loop key_turn empty_key
