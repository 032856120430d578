-- ===== src/Decoding/StrictJson/Examples.antt =====
-- Tests and witnesses of the reader of src/runtime/decoding/strict_json_reader.cpp.
use cuac.Common.{
  some, inl, arith, ℕ, ◌≡◌, ◌≢◌, ◌≤◌, refl, false, ◌&&◌, List, [], ◌∷◌, length, leb, same_bytes,
}
use cuac.Transport.Chunked.Control.{ExecutionControl}
use cuac.Decoding.StrictJson.Reader.{
  Reader, json_nesting, malformed, out_of_fuel, Result, ok, err, skip_whitespace,
  skip_whitespace_loop, check, expect, next_byte, loop, turns, require_more, require_object_key,
  separator, literal,
}
use cuac.Decoding.StrictJson.Strings.{
  parse_string, hex_digit, hex_digits, low_surrogate, parse_escaped_unicode, parse_hex_code_unit,
  short_escape, utf8_lead, utf8_sequence, utf8_tail, parse_turn, parse_escape, append_utf8,
  append_code_point, require_append, utf8_bytes,
}
use cuac.Decoding.StrictJson.Skips.{
  is_skipped_escape, skip_escape, skip_lead, skip_string, skip_tail, skip_turn, skip_utf8,
}
use cuac.Decoding.StrictJson.Keys.{key_equals, parse_object_key}
use cuac.Decoding.StrictJson.Numbers.{parse_number_token}
use cuac.Decoding.StrictJson.SkipNumbers.{
  skip_number, skip_digit, skip_exponent, skip_fraction, skip_integer, skip_minus, skip_scan,
  skip_sign, skip_some_digits,
}
use cuac.Decoding.StrictJson.Values.{
  validate_document, skip_value, require_depth, skip_by_first, skip_array, array_turn, object_turn,
  require_end, skip_object,
}
use cuac.Decoding.StrictJson.Returns.{reader_returns}
use cuac.Decoding.StrictJson.Agree.{Agree}
use cuac.Decoding.StrictJson.Nesting.{
  in_array, in_object, nested, failure_of, reader_at, validate_document-nested,
}
use cuac.Decoding.StrictJson.Tokens.{parse_number_token-skip_number}
use cuac.Decoding.StrictJson.Utf8.{read_of, append_utf8-utf8_bytes}
use cuac.Decoding.StrictJson.Twins.{parse_string-skip_string, parse_string-parse_object_key}

abbrev running : ExecutionControl
running = record { cancelled = λ _. false; late = λ _. false }

abbrev on : List ℕ → Reader
on input = record { rest = input; checks = 0; control = running; max_json_nesting = 2 }

-- [1,{"a":-2.5e3}] fits a budget of 2.
abbrev outcome : {A : Type 0} → Result A → List ℕ
outcome (ok a r) = 0 ∷ r.rest
outcome (err malformed) = 1 ∷ []
outcome (err json_nesting) = 2 ∷ []
outcome (err _) = 3 ∷ []

abbrev document : List ℕ
document =
    b'[' ∷ b'1' ∷ b',' ∷ b'{' ∷ b'"' ∷ b'a' ∷ b'"' ∷ b':' ∷ b'-' ∷ b'2' ∷ b'.' ∷ b'5' ∷ b'e' ∷ b'3'
    ∷ b'}' ∷ b']' ∷ []

-- A string of an escape, a surrogate pair and a plain byte.
abbrev escaped : List ℕ
escaped =
    b'"' ∷ b'\\' ∷ b'n' ∷ b'\\' ∷ b'u' ∷ b'd' ∷ b'8' ∷ b'3' ∷ b'd' ∷ b'\\' ∷ b'u' ∷ b'd' ∷ b'e'
    ∷ b'0' ∷ b'0' ∷ b'x' ∷ b'"' ∷ b'!' ∷ []

abbrev decoded : Result (List ℕ) → List ℕ
decoded (ok text r) = text
decoded (err e) = []

-- The document is accepted, four arrays in one another and a comma before the end are refused, and
-- the string is decoded to a newline, U+1F600 and the byte.
reader_tests :
    (outcome (validate_document (on document)) ≡ 0 ∷ [])
    × (outcome (validate_document (on (b'[' ∷ b'[' ∷ b'[' ∷ b'[' ∷ b']' ∷ b']' ∷ b']' ∷ b']' ∷ [])))
        ≡ 2 ∷ [])
    × (outcome (validate_document (on (b'[' ∷ b'1' ∷ b',' ∷ b']' ∷ []))) ≡ 1 ∷ [])
    × (decoded (parse_string 10 (on escaped)) ≡ 10 ∷ 0xf0 ∷ 0x9f ∷ 0x98 ∷ 0x80 ∷ b'x' ∷ [])
unfolding validate_document skip_whitespace skip_whitespace_loop check skip_value require_depth
    skip_by_first skip_array expect next_byte loop turns array_turn skip_number skip_scan skip_minus
    skip_integer skip_digit skip_exponent skip_fraction skip_some_digits skip_sign require_more
    require_object_key separator hex_digit hex_digits low_surrogate parse_escaped_unicode
    parse_hex_code_unit short_escape skip_escape is_skipped_escape skip_lead skip_tail skip_string
    skip_turn skip_utf8 utf8_lead utf8_sequence utf8_tail object_turn require_end skip_object
    parse_string parse_turn parse_escape append_utf8 append_code_point require_append utf8_bytes
    literal
reader_tests = (refl, refl, refl, refl)

reader_returns_example :
    (validate_document (on escaped) ≢ err out_of_fuel)
    × (parse_string 10 (on escaped) ≢ err out_of_fuel)
    × (parse_object_key (on escaped) ≢ err out_of_fuel)
    × (parse_number_token 10 (on escaped) ≢ err out_of_fuel)
    × (skip_number (on escaped) ≢ err out_of_fuel)
reader_returns_example = reader_returns 10 (on escaped)

parse_string-skip_string_example :
    Agree (λ result _. length result ≤ 10) (parse_string 10 (on escaped)) (skip_string (on escaped))
parse_string-skip_string_example = parse_string-skip_string 10 (on escaped)

parse_string-parse_object_key_example :
    Agree
      (λ text key.
        key_equals key (b'x' ∷ []) ≡ (leb (length text) 64 && same_bytes (b'x' ∷ []) text))
      (parse_string 10 (on escaped))
      (parse_object_key (on escaped))
parse_string-parse_object_key_example = parse_string-parse_object_key 10 (b'x' ∷ []) (on escaped)

validate_document-nested_example :
    failure_of (validate_document (reader_at 1 0 (nested (in_array ∷ in_object ∷ []) [])))
    ≡ some json_nesting
validate_document-nested_example = validate_document-nested 1 (in_array ∷ in_object ∷ [])

-- The euro sign after a byte.
append_utf8-utf8_bytes_example :
    read_of (append_utf8 4 0xe2 (b'x' ∷ []) (reader_at 0 0 (0x82 ∷ 0xac ∷ b'!' ∷ [])))
    ≡ some (b'x' ∷ 0xe2 ∷ 0x82 ∷ 0xac ∷ [], b'!' ∷ [])
unfolding utf8_bytes
append_utf8-utf8_bytes_example =
    append_utf8-utf8_bytes 0 4 0 0x20ac (b'x' ∷ []) (b'!' ∷ []) (inl (omega arith)) (omega arith)

-- -12.5,
abbrev amount : List ℕ
amount = b'-' ∷ b'1' ∷ b'2' ∷ b'.' ∷ b'5' ∷ b',' ∷ []

parse_number_token-skip_number_example :
    Agree (λ token _. length token ≤ 5) (parse_number_token 5 (on amount)) (skip_number (on amount))
parse_number_token-skip_number_example = parse_number_token-skip_number 5 (on amount)
