-- ===== src/Transport/Chunked/Body.antt =====
-- The trailers and the chunks of src/runtime/transport/http_chunk_decoder.cpp.
use cuac.Common.{
  ℕ, zero, suc, ◌+◌, ◌-◌, Bool, true, false, not, ◌||◌, ◌&&◌, Option, none, some, List, [], ◌∷◌,
  ◌++◌, length, ltb, ◌==◌, if◌then◌else◌,
}
use cuac.Transport.Chunked.Control.{
  ExecutionControl, malformed, out_of_fuel, decompressed_bytes, Result, ok, err, ◌>>=◌, Scan, scan,
  check_execution_state, checkpoint,
}
use cuac.Transport.Chunked.Line.{u64_max, parse_token, expect, parse_chunk_size}

-- `FindCrlf`: the line before the next CRLF and what follows it.
unfoldable pub find_crlf : List ℕ → Option (List ℕ × List ℕ)
find_crlf [] = none
find_crlf (a ∷ []) = none
find_crlf (a ∷ b ∷ cs) =
    let found = find_crlf (b ∷ cs) in
    if a == b'\r' && b == b'\n'
    then some ([], cs)
    else elim found [ none ↦ none | some (line, after) ↦ some (a ∷ line, after) ]

-- What follows a CRLF at the front.
unfoldable pub after_crlf : List ℕ → Option (List ℕ)
after_crlf (a ∷ b ∷ cs) = if a == b'\r' && b == b'\n' then some cs else none
after_crlf _ = none

-- The value of a trailer field.
unfoldable pub field_value : ExecutionControl → List ℕ → ℕ → ℕ → Result ℕ
field_value control [] o k = ok k
field_value control (c ∷ cs) o k = do
  k' ← checkpoint control o k
  let rest = field_value control cs (o + 1) k'
  if ltb c 0x20 && not (c == b'\t') || c == 0x7f then err malformed else rest

unfoldable pub trailer_field : ExecutionControl → List ℕ → ℕ → ℕ → Result ℕ
trailer_field control line offset k = do
  name ← parse_token control (scan line offset k)
  colon ← expect b':' name
  field_value control colon.rest colon.offset colon.checks

-- The trailer fields up to the empty line.
unfoldable pub trailer_fields : ℕ → ExecutionControl → List ℕ → ℕ → ℕ → Result Scan
trailer_fields zero control rest offset k = err out_of_fuel
trailer_fields (suc fuel) control rest offset k = do
  k ← check_execution_state control k
  elim (find_crlf rest) [
    | none ↦ err malformed
    | some ([], after) ↦ ok (scan after (offset + 2) k)
    | some (c ∷ line, after) ↦ (do
      k ← trailer_field control (c ∷ line) offset k
      trailer_fields fuel control after (offset + length (c ∷ line) + 2) k)
  ]

unfoldable pub validate_trailers : ExecutionControl → List ℕ → ℕ → ℕ → Result Scan
validate_trailers control rest offset k = elim (after_crlf rest) [
  | none ↦ trailer_fields (suc (length rest)) control rest offset k
  | some after ↦ ok (scan after (offset + 2) k)
]

-- The first `n` bytes and the others.
unfoldable pub split_at : ℕ → List ℕ → List ℕ × List ℕ
split_at zero cs = ([], cs)
split_at (suc n) [] = ([], [])
split_at (suc n) (c ∷ cs) = let (a, b) = split_at n cs in (c ∷ a, b)

abbrev is_end : List ℕ → Bool
is_end [] = true
is_end _ = false

-- The end of the body: trailers, and nothing behind them.
unfoldable pub last_chunk : ExecutionControl → List ℕ → ℕ → ℕ → List ℕ → Result (List ℕ)
last_chunk control rest offset k decoded = do
  s ← validate_trailers control rest offset k
  if is_end s.rest then ok decoded else err malformed

-- What a round of the loop leaves: the whole body, or more to read.
pub data BodyRound : Type 0 where
  complete : List ℕ → BodyRound
  chunk : List ℕ → ℕ → ℕ → List ℕ → BodyRound

-- A chunk of `size` bytes, after its line; `max` is `max_body_bytes`.
unfoldable pub chunk_data : ExecutionControl → ℕ → ℕ → List ℕ → ℕ → ℕ → List ℕ → Result BodyRound
chunk_data control max size rest offset k decoded =
    if ltb (max - length decoded) size || ltb (length rest) size then err malformed else (do
      k ← check_execution_state control k
      elim (after_crlf (split_at size rest).1) [
        | none ↦ err malformed
        | some next ↦ ok (chunk next (offset + size + 2) k (decoded ++ (split_at size rest).0))
      ])

-- After the line, on its size.
unfoldable pub sized_chunk : ExecutionControl → ℕ → ℕ → List ℕ → ℕ → ℕ → List ℕ → Result BodyRound
sized_chunk control max size rest offset k decoded =
    if size == 0
    then (do body ← last_chunk control rest offset k decoded; ok (complete body))
    else chunk_data control max size rest offset k decoded

-- The body of the loop of `DecodeHttpChunkedBody`.
unfoldable pub decode_round : ExecutionControl → ℕ → List ℕ → ℕ → ℕ → List ℕ → Result BodyRound
decode_round control max rest offset k decoded = do
  k ← check_execution_state control k
  elim (find_crlf rest) [
    | none ↦ err malformed
    | some (line, after) ↦ (do
      (size, k) ← parse_chunk_size control line offset k
      sized_chunk control max size after (offset + length line + 2) k decoded)
  ]

-- The loop of `DecodeHttpChunkedBody`, one chunk to a round.
unfoldable pub decode_chunks : ℕ → ExecutionControl → ℕ → List ℕ → ℕ → ℕ → List ℕ → Result (List ℕ)
decode_chunks zero control max rest offset k decoded = err out_of_fuel
decode_chunks (suc fuel) control max rest offset k decoded = do
  r ← decode_round control max rest offset k decoded
  elim r [
    | complete body ↦ ok body
    | chunk rest offset k decoded ↦ decode_chunks fuel control max rest offset k decoded
  ]

-- `DecodeHttpChunkedBody`. The flag is the answer of `HasBoundedHttpStringCapacity` for the buffer
-- that was reserved.
unfoldable pub decode_http_chunked_body : Bool → ExecutionControl → ℕ → List ℕ → Result (List ℕ)
decode_http_chunked_body bounded_capacity control max encoded = do
  k ← check_execution_state control 0
  if ltb u64_max max
      then err malformed
      else if not bounded_capacity
      then err decompressed_bytes
      else decode_chunks (suc (length encoded)) control max encoded 0 k []
