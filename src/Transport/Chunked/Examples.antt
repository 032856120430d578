-- ===== src/Transport/Chunked/Examples.antt =====
-- Bodies with extensions and trailers, and the theorems at a body of two chunks.
use cuac.Common.{◌≡◌, ◌≤◌, ℕ, true, false, List, [], ◌∷◌, length, refl, arith}
use cuac.Transport.Chunked.Control.{
  ExecutionControl, malformed, Result, ok, err, check_execution_state, checkpoint,
}
use cuac.Transport.Chunked.Line.{
  hex_value, is_token_character, skip_while, skip_ows, parse_token, quoted, expect,
  parse_quoted_string, size_digits, extension_value, extension_name, extension, extensions,
  parse_chunk_size,
}
use cuac.Transport.Chunked.Body.{
  find_crlf, after_crlf, field_value, trailer_field, trailer_fields, validate_trailers, split_at,
  last_chunk, chunk_data, sized_chunk, decode_round, decode_chunks, decode_http_chunked_body,
}
use cuac.Transport.Chunked.Fuel.{Safe}
use cuac.Transport.Chunked.Bounds.{decode_http_chunked_body-Safe}
use cuac.Transport.Chunked.Coding.{Chunk, crlf, encode}
use cuac.Transport.Chunked.RoundTrip.{decode_http_chunked_body-encode}

abbrev quiet : ExecutionControl
quiet = record { cancelled = λ _. false; late = λ _. false }

-- `2;a="x";b` with a trailer field, and two bytes.
abbrev extended : List ℕ
extended =
    b'2'
    ∷ b';'
    ∷ b'a'
    ∷ b'='
    ∷ b'"'
    ∷ b'x'
    ∷ b'"'
    ∷ b';'
    ∷ b'b'
    ∷ crlf (7 ∷ 8 ∷ crlf (b'0' ∷ crlf (b't' ∷ b':' ∷ b'v' ∷ crlf (crlf []))))

decoded : Result (List ℕ)
unfolding check_execution_state checkpoint hex_value is_token_character skip_while skip_ows
    parse_token quoted expect parse_quoted_string size_digits extension_value extension_name
    extension extensions parse_chunk_size find_crlf after_crlf field_value trailer_field
    trailer_fields validate_trailers split_at last_chunk chunk_data sized_chunk decode_round
    decode_chunks decode_http_chunked_body
decoded = decode_http_chunked_body true quiet 100 extended

decoded_test : decoded ≡ ok (7 ∷ 8 ∷ [])
unfolding decoded
decoded_test = refl

-- A bare space behind the size is refused.
spaced_test :
    decode_http_chunked_body true quiet 100 (b'1' ∷ b' ' ∷ crlf (7 ∷ crlf (b'0' ∷ crlf (crlf []))))
    ≡ err malformed
unfolding decoded
spaced_test = refl

abbrev two_chunks : List Chunk
two_chunks =
    record { digits = b'0' ∷ b'2' ∷ []; bytes = 7 ∷ 8 ∷ [] }
    ∷ record { digits = b'1' ∷ []; bytes = 9 ∷ [] }
    ∷ []

decode_http_chunked_body-Safe_example :
    Safe (λ body. length body ≤ 1) (decode_http_chunked_body true quiet 1 (encode two_chunks))
decode_http_chunked_body-Safe_example =
    decode_http_chunked_body-Safe true quiet 1 (encode two_chunks)

decode_http_chunked_body-encode_example :
    decode_http_chunked_body true quiet 100 (encode two_chunks) ≡ ok (7 ∷ 8 ∷ 9 ∷ [])
unfolding hex_value
decode_http_chunked_body-encode_example =
    decode_http_chunked_body-encode quiet (λ n. (refl, refl)) 100 (omega arith) two_chunks
      (
        record { size = refl; some_bytes = omega arith },
        (record { size = refl; some_bytes = omega arith }, tt),
      )
      (omega arith)
