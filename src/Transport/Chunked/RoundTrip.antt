-- ===== src/Transport/Chunked/RoundTrip.antt =====
-- The decoder undoes the chunked coding.
use mathlib.Core.List.{append-nil, append_assoc}
use cuac.Common.{
  ℕ, zero, suc, ◌+◌, ◌-◌, ◌≤◌, ◌<◌, ◌≡◌, true, false, ◌||◌, some, List, [], ◌∷◌, ◌++◌, length,
  length-append, All, refl, sym, ap, ◌∙◌, arith, ltb, ◌==◌,
}
use cuac.Transport.Chunked.Control.{ExecutionControl, ok, IsQuiet}
use cuac.Transport.Chunked.Line.{u64_max, hex_value}
use cuac.Transport.Chunked.Body.{
  after_crlf, validate_trailers, last_chunk, chunk, complete, chunk_data, sized_chunk, decode_round,
  decode_chunks, decode_http_chunked_body,
}
use cuac.Transport.Chunked.Coding.{
  hex_number, Chunk, IsChunk, crlf, encode, content, check_execution_state-quiet,
  parse_chunk_size-digits, find_crlf-digits, split_at-append,
}

digits_nonempty :
    (digits : List ℕ) (r : ℕ) → hex_number 0 digits ≡ some r → 0 < r → 0 < length digits
digits_nonempty [] r e h = ground arith
digits_nonempty (c ∷ cs) r e h = omega arith

module _ (control : ExecutionControl) (quiet : IsQuiet control) (max : ℕ)
    (small : max ≤ u64_max) where
  chunk_data-bytes :
      (bytes rest : List ℕ) (o k : ℕ) (decoded : List ℕ)
      → length decoded + length bytes ≤ max
      → (o' k' : ℕ) × (chunk_data control max (length bytes) (bytes ++ crlf rest) o k decoded
          ≡ ok (chunk rest o' k' (decoded ++ bytes)))
  unfolding chunk_data after_crlf
  chunk_data-bytes bytes rest o k decoded fits =
      let allowed : (ltb (max - length decoded) (length bytes)
            || ltb (length (bytes ++ crlf rest)) (length bytes))
          ≡ false =
        ground (arith, length-append bytes (crlf rest)) in
      (
        o + length bytes + 2,
        k + 1,
        rw (allowed, check_execution_state-quiet control quiet k, split_at-append bytes (crlf rest))
            (simp split_at-append),
      )

  decode_round-chunk :
      (c : Chunk) (rest : List ℕ) (o k : ℕ) (decoded : List ℕ)
      → IsChunk c
      → length decoded + length c.bytes ≤ max
      → (o' k' : ℕ) × (decode_round control max
            (c.digits ++ crlf (c.bytes ++ crlf rest))
            o
            k
            decoded
          ≡ ok (chunk rest o' k' (decoded ++ c.bytes)))
  unfolding decode_round sized_chunk
  decode_round-chunk c rest o k decoded v fits =
      let (k1, h1) =
        parse_chunk_size-digits control quiet c.digits o (k + 1) (length c.bytes) v.size
          (digits_nonempty c.digits (length c.bytes) v.size v.some_bytes) (omega arith) in
      let (o2, k2, h2) = chunk_data-bytes c.bytes rest (o + length c.digits + 2) k1 decoded fits in
      let nonzero : (length c.bytes == 0) ≡ false = ground (arith, v.some_bytes) in
      (
        o2,
        k2,
        rw (
          check_execution_state-quiet control quiet k,
          find_crlf-digits c.digits (c.bytes ++ crlf rest) 0 (length c.bytes) v.size,
          h1,
          nonzero,
          h2,
        ),
      )

  decode_round-last :
      (o k : ℕ) (decoded : List ℕ)
      → decode_round control max (encode []) o k decoded ≡ ok (complete decoded)
  unfolding decode_round sized_chunk last_chunk validate_trailers after_crlf
  decode_round-last o k decoded =
      let (k1, h1) =
        parse_chunk_size-digits control quiet (b'0' ∷ []) o (k + 1) 0 zero_digit (omega arith)
          (omega arith) in
      rw (
        check_execution_state-quiet control quiet k,
        find_crlf-digits (b'0' ∷ []) (crlf []) 0 0 zero_digit,
        h1,
      )
    where
      zero_digit : hex_number 0 (b'0' ∷ []) ≡ some 0
      zero_digit = unfold hex_value in refl

  decode_chunks-encode :
      (cs : List Chunk) (fuel o k : ℕ) (decoded : List ℕ)
      → All IsChunk cs
      → length decoded + length (content cs) ≤ max
      → length cs < fuel
      → decode_chunks fuel control max (encode cs) o k decoded ≡ ok (decoded ++ content cs)
  unfolding decode_chunks
  decode_chunks-encode cs zero o k decoded v fits f = elim f [ ]
  decode_chunks-encode [] (suc fuel) o k decoded v fits f =
      rw (decode_round-last o k decoded) (ap ok (sym (append-nil decoded)))
  decode_chunks-encode (c ∷ cs) (suc fuel) o k decoded v fits f =
      let (o1, k1, h1) =
        decode_round-chunk c (encode cs) o k decoded v.0
          (omega (arith, length-append c.bytes (content cs))) in
      rw h1 (
        decode_chunks-encode cs fuel o1 k1 (decoded ++ c.bytes) v.1
          (omega (arith, length-append c.bytes (content cs), length-append decoded c.bytes))
          (omega arith)
        ∙ ap ok (append_assoc decoded c.bytes (content cs)))

  length-le-encode : (cs : List Chunk) → length cs ≤ length (encode cs)
  length-le-encode [] = omega arith
  length-le-encode (c ∷ cs) = omega (
    arith,
    length-le-encode cs,
    length-append c.digits (crlf (c.bytes ++ crlf (encode cs))),
    length-append c.bytes (crlf (encode cs)),
  )

  -- Whatever the chunks of a body are, and however their sizes are written, with no extensions and
  -- no trailers, the decoder of an uninterrupted execution, whose budget fits 64 bits and whose
  -- buffer was reserved, gives back the body if it is within the budget.
  pub decode_http_chunked_body-encode :
      (cs : List Chunk)
      → All IsChunk cs
      → length (content cs) ≤ max
      → decode_http_chunked_body true control max (encode cs) ≡ ok (content cs)
  unfolding decode_http_chunked_body
  decode_http_chunked_body-encode cs v fits =
      let allowed : ltb u64_max max ≡ false = ground arith in
      rw (check_execution_state-quiet control quiet 0, allowed)
        (decode_chunks-encode cs (suc (length (encode cs))) 0 1 [] v (omega arith)
          (omega (arith, length-le-encode cs)))
