-- ===== src/Transport/Chunked/Bounds.antt =====
-- The decoder ends, and stays within its budget.
use cuac.Common.{
  ◌||◌, ℕ, zero, suc, ◌+◌, ◌-◌, ◌≤◌, ◌<◌, ◌≡◌, inl, inr, Bool, false, Option, none, some, List, [],
  ◌∷◌, ◌++◌, length, length-append, ap, arith, Bool-cases, Option-cases, ltb, ◌==◌,
}
use cuac.Transport.Chunked.Control.{
  ExecutionControl, malformed, Result, ok, err, ◌>>=◌, Scan, scan, check_execution_state,
  checkpoint,
}
use cuac.Transport.Chunked.Line.{parse_token, expect, parse_chunk_size}
use cuac.Transport.Chunked.Body.{
  decode_round, sized_chunk, chunk_data, chunk, complete, BodyRound, find_crlf, after_crlf,
  field_value, trailer_field, trailer_fields, validate_trailers, split_at, last_chunk,
  decode_chunks, decode_http_chunked_body,
}
use cuac.Transport.Chunked.Fuel.{
  Safe, Any, bind-Safe, check_execution_state-Safe, checkpoint-Safe, parse_token-Safe, expect-Safe,
  parse_chunk_size-Safe,
}

-- A line and its CRLF are taken off the front.
abbrev Cuts : List ℕ → Option (List ℕ × List ℕ) → Type 0
Cuts cs none = Unit
Cuts cs (some (line, after)) = cs ≡ line ++ b'\r' ∷ b'\n' ∷ after

find_crlf-Cuts : (cs : List ℕ) → Cuts cs (find_crlf cs)
unfolding find_crlf
find_crlf-Cuts [] = tt
find_crlf-Cuts (a ∷ []) = tt
find_crlf-Cuts (a ∷ b ∷ cs) = let ih = find_crlf-Cuts (b ∷ cs) in ground arith

field_value-Safe :
    (control : ExecutionControl) (cs : List ℕ) (o k : ℕ) → Safe Any (field_value control cs o k)
unfolding field_value
field_value-Safe control [] o k = tt
field_value-Safe control (c ∷ cs) o k =
    bind-Safe Any Any (checkpoint control o k) _ (checkpoint-Safe control o k)
      (λ k' _. let ih = field_value-Safe control cs (o + 1) k' in ground arith)

trailer_field-Safe :
    (control : ExecutionControl) (line : List ℕ) (o k : ℕ)
    → Safe Any (trailer_field control line o k)
unfolding trailer_field
trailer_field-Safe control line o k =
    bind-Safe _ Any (parse_token control (scan line o k)) _
      (parse_token-Safe control (scan line o k))
      λ name _.
        bind-Safe _ Any (expect b':' name) _ (expect-Safe b':' name)
          λ colon _. field_value-Safe control colon.rest colon.offset colon.checks

trailer_fields-Safe :
    (fuel : ℕ) (control : ExecutionControl) (cs : List ℕ) (o k : ℕ)
    → length cs < fuel
    → Safe Any (trailer_fields fuel control cs o k)
unfolding trailer_fields
trailer_fields-Safe zero control cs o k h = elim h [ ]
trailer_fields-Safe (suc fuel) control cs o k h =
    bind-Safe Any Any (check_execution_state control k) _ (check_execution_state-Safe control k)
      λ k _.
        go (λ after o k h'. trailer_fields-Safe fuel control after o k h') k (find_crlf cs)
          (find_crlf-Cuts cs)
  where
    go :
        ((after : List ℕ) (o k : ℕ)
          → length after < fuel
          → Safe Any (trailer_fields fuel control after o k))
        → (k : ℕ) (r : Option (List ℕ × List ℕ)) → Cuts cs r
        → Safe Any (elim r as (λ _. Result Scan) [
          | none ↦ err malformed
          | some ([], after) ↦ ok (scan after (o + 2) k)
          | some (c ∷ line, after) ↦ trailer_field control (c ∷ line) o k >>= λ k.
              trailer_fields fuel control after (o + length (c ∷ line) + 2) k
        ])
    go again k none _ = λ e. cc
    go again k (some ([], after)) _ = tt
    go again k (some (c ∷ line, after)) cut =
        bind-Safe Any Any (trailer_field control (c ∷ line) o k) _
          (trailer_field-Safe control (c ∷ line) o k)
          λ k' _.
            again after _ k'
              (omega (arith, ap length cut, length-append line (b'\r' ∷ b'\n' ∷ after)))

validate_trailers-Safe :
    (control : ExecutionControl) (cs : List ℕ) (o k : ℕ)
    → Safe Any (validate_trailers control cs o k)
unfolding validate_trailers
validate_trailers-Safe control cs o k = elim (Option-cases (after_crlf cs)) [
  | inl e ↦
      rw (e, Safe, validate_trailers)
        (trailer_fields-Safe (suc (length cs)) control cs o k (omega arith))
  | inr (after, e) ↦ rw (e, Safe, validate_trailers) tt
]

last_chunk-Safe :
    (control : ExecutionControl) (cs : List ℕ) (o k max : ℕ) (decoded : List ℕ)
    → length decoded ≤ max
    → Safe (λ body. length body ≤ max) (last_chunk control cs o k decoded)
unfolding last_chunk
last_chunk-Safe control cs o k max decoded h =
    bind-Safe Any (λ body. length body ≤ max) (validate_trailers control cs o k) _
      (validate_trailers-Safe control cs o k) (λ s _. ground arith)

length-split_at :
    (n : ℕ) (cs : List ℕ)
    → n ≤ length cs
    → (length (split_at n cs).0 ≡ n) × (length (split_at n cs).1 + n ≡ length cs)
unfolding split_at
length-split_at zero cs h = (omega arith, omega arith)
length-split_at (suc n) [] h = absurd (omega arith)
length-split_at (suc n) (c ∷ cs) h =
    let (a, b) = length-split_at n cs (omega arith) in (omega arith, omega arith)

length-after_crlf :
    (cs : List ℕ) {next : List ℕ} → after_crlf cs ≡ some next → length next < length cs
unfolding after_crlf
length-after_crlf [] e = cc
length-after_crlf (a ∷ []) e = cc
length-after_crlf (a ∷ b ∷ cs) e = ground arith

-- After a round the body is within the budget; unless it is complete, less is left to read.
abbrev Progress : ℕ → List ℕ → BodyRound → Type 0
Progress max cs (complete body) = length body ≤ max
Progress max cs (chunk rest o k decoded) = (length decoded ≤ max) × (length rest < length cs)

module _ (control : ExecutionControl) (max : ℕ) where
  chunk_data-Safe :
      (size : ℕ) (cs : List ℕ) (o k : ℕ) (decoded : List ℕ)
      → length decoded ≤ max
      → Safe (Progress max cs) (chunk_data control max size cs o k decoded)
  unfolding chunk_data
  chunk_data-Safe size cs o k decoded h =
      elim (Bool-cases (ltb (max - length decoded) size || ltb (length cs) size)) [
        | inl e ↦ rw e (λ e. cc)
        | inr e ↦ rw e (
            bind-Safe Any (Progress max cs) (check_execution_state control k) _
              (check_execution_state-Safe control k) (λ k _. split e k))
      ]
    where
      split :
          (ltb (max - length decoded) size || ltb (length cs) size) ≡ false
          → (k : ℕ)
          → Safe
              (Progress max cs)
              (elim (after_crlf (split_at size cs).1) as (λ _. Result BodyRound) [
                | none ↦ err malformed
                | some next ↦ ok (chunk next (o + size + 2) k (decoded ++ (split_at size cs).0))
              ])
      split small k = elim (Option-cases (after_crlf (split_at size cs).1)) [
        | inl e ↦ rw (e, Safe) (λ e. cc)
        | inr (next, e) ↦
            rw (e, Safe)
              (let fits : (size ≤ length cs) × (length decoded + size ≤ max) =
                  (ground arith, ground arith) in
                let (taken, left) = length-split_at size cs fits.0 in
                (
                  omega (arith, length-append decoded (split_at size cs).0, taken),
                  omega (arith, left, length-after_crlf (split_at size cs).1 e),
                ))
      ]

  sized_chunk-Safe :
      (size : ℕ) (cs : List ℕ) (o k : ℕ) (decoded : List ℕ)
      → length decoded ≤ max
      → Safe (Progress max cs) (sized_chunk control max size cs o k decoded)
  unfolding sized_chunk
  sized_chunk-Safe size cs o k decoded h = elim (Bool-cases (size == 0)) [
    | inl e ↦ rw e (
        bind-Safe (λ body. length body ≤ max) (Progress max cs) (last_chunk control cs o k decoded)
          _ (last_chunk-Safe control cs o k max decoded h) (λ body j. j))
    | inr e ↦ rw e (chunk_data-Safe size cs o k decoded h)
  ]

  decode_round-Safe :
      (cs : List ℕ) (o k : ℕ) (decoded : List ℕ)
      → length decoded ≤ max
      → Safe (Progress max cs) (decode_round control max cs o k decoded)
  unfolding decode_round
  decode_round-Safe cs o k decoded h =
      bind-Safe Any (Progress max cs) (check_execution_state control k) _
        (check_execution_state-Safe control k) (λ k _. go k (find_crlf cs) (find_crlf-Cuts cs))
    where
      shorter :
          (line after : List ℕ)
          → cs ≡ line ++ b'\r' ∷ b'\n' ∷ after
          → (r : BodyRound) → Progress max after r
          → Progress max cs r
      shorter line after cut (complete body) j = j
      shorter line after cut (chunk rest o k d) j =
          (j.0, omega (arith, j.1, ap length cut, length-append line (b'\r' ∷ b'\n' ∷ after)))

      widen :
          (line after : List ℕ)
          → cs ≡ line ++ b'\r' ∷ b'\n' ∷ after
          → (m : Result BodyRound) → Safe (Progress max after) m
          → Safe (Progress max cs) m
      widen line after cut (ok r) j = shorter line after cut r j
      widen line after cut (err e) j = j

      go :
          (k : ℕ) (r : Option (List ℕ × List ℕ))
          → Cuts cs r
          → Safe (Progress max cs) (elim r as (λ _. Result BodyRound) [
            | none ↦ err malformed
            | some (line, after) ↦ (do
              (size, k) ← parse_chunk_size control line o k
              sized_chunk control max size after (o + length line + 2) k decoded)
          ])
      go k none _ = λ e. cc
      go k (some (line, after)) cut =
          bind-Safe Any (Progress max cs) (parse_chunk_size control line o k) _
            (parse_chunk_size-Safe control line o k)
            λ (size, k) _.
              widen line after cut _ (sized_chunk-Safe size after (o + length line + 2) k decoded h)

  decode_chunks-Safe :
      (fuel : ℕ) (cs : List ℕ) (o k : ℕ) (decoded : List ℕ)
      → length cs < fuel
      → length decoded ≤ max
      → Safe (λ body. length body ≤ max) (decode_chunks fuel control max cs o k decoded)
  unfolding decode_chunks
  decode_chunks-Safe zero cs o k decoded f h = elim f [ ]
  decode_chunks-Safe (suc fuel) cs o k decoded f h =
      bind-Safe (Progress max cs) (λ body. length body ≤ max)
        (decode_round control max cs o k decoded) _ (decode_round-Safe cs o k decoded h)
        (go (λ rest o k d. decode_chunks-Safe fuel rest o k d))
    where
      go :
          ((rest : List ℕ) (o k : ℕ) (d : List ℕ)
            → length rest < fuel
            → length d ≤ max
            → Safe (λ body. length body ≤ max) (decode_chunks fuel control max rest o k d))
          → (r : BodyRound) → Progress max cs r
          → Safe
              (λ body. length body ≤ max)
              (elim r as (λ _. Result (List ℕ)) [
                | complete body ↦ ok body
                | chunk rest o k d ↦ decode_chunks fuel control max rest o k d
              ])
      go again (complete body) j = j
      go again (chunk rest o k d) j = again rest o k d (omega (arith, j.1)) j.0

-- The decoder always ends, whatever bytes it is given and however its checks answer: it returns a
-- body of no more than `max_body_bytes` bytes or one of the source's failures. The loop's fuel,
-- one more than the number of encoded bytes, never runs out.
pub decode_http_chunked_body-Safe :
    (bounded_capacity : Bool) (control : ExecutionControl) (max : ℕ) (encoded : List ℕ)
    → Safe
        (λ body. length body ≤ max)
        (decode_http_chunked_body bounded_capacity control max encoded)
unfolding decode_http_chunked_body
decode_http_chunked_body-Safe bounded_capacity control max encoded =
    bind-Safe Any (λ body. length body ≤ max) (check_execution_state control 0) _
      (check_execution_state-Safe control 0)
      (λ k _. ground (arith, decode_chunks-Safe control max (suc (length encoded)) encoded 0 k []))
