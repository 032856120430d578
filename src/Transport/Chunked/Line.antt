-- ===== src/Transport/Chunked/Line.antt =====
-- The chunk-size line of src/runtime/transport/http_chunk_decoder.cpp: tokens, quoted strings, the
-- size and its extensions. A line is the list of its bytes, without the CRLF.
use cuac.Common.{
  ℕ, zero, suc, ◌+◌, ◌-◌, ◌*◌, ◌/◌, ◌^◌, Bool, true, false, not, ◌||◌, ◌&&◌, Option, none, some,
  List, [], ◌∷◌, length, ltb, leb, ◌==◌, if◌then◌else◌,
}
use cuac.Transport.Chunked.Control.{
  ExecutionControl, malformed, out_of_fuel, Result, ok, err, ◌>>=◌, Scan, scan, checkpoint,
}

abbrev pub u64_max : ℕ
u64_max = 2 ^ 64 - 1

abbrev pub within : ℕ → ℕ → ℕ → Bool
within lo hi c = leb lo c && leb c hi

unfoldable pub hex_value : ℕ → Option ℕ
hex_value c =
    if within b'0' b'9' c
    then some (c - b'0')
    else if within b'a' b'f' c
    then some (c - b'a' + 10)
    else if within b'A' b'F' c
    then some (c - b'A' + 10)
    else none

abbrev pub is_ows : ℕ → Bool
is_ows c = c == b' ' || c == b'\t'

unfoldable pub is_token_character : ℕ → Bool
is_token_character c =
    within b'a' b'z' c
    || within b'A' b'Z' c
    || within b'0' b'9' c
    || c == b'!'
    || c == b'#'
    || c == b'$'
    || c == b'%'
    || c == b'&'
    || c == 0x27
    || c == b'*'
    || c == b'+'
    || c == b'-'
    || c == b'.'
    || c == b'^'
    || c == b'_'
    || c == b'`'
    || c == b'|'
    || c == b'~'

unfoldable pub skip_while : (ℕ → Bool) → ExecutionControl → List ℕ → ℕ → ℕ → Result Scan
skip_while test control [] o k = ok (scan [] o k)
skip_while test control (c ∷ cs) o k =
    if test c
    then (do k' ← checkpoint control o k; skip_while test control cs (o + 1) k')
    else ok (scan (c ∷ cs) o k)

unfoldable pub skip_ows : ExecutionControl → Scan → Result Scan
skip_ows control s = skip_while is_ows control s.rest s.offset s.checks

unfoldable pub parse_token : ExecutionControl → Scan → Result Scan
parse_token control s = do
  t ← skip_while is_token_character control s.rest s.offset s.checks
  if t.offset == s.offset then err malformed else ok t

-- The bytes behind a backslash, and elsewhere in a quoted string, that are refused.
abbrev bad_escaped : ℕ → Bool
bad_escaped c = not (c == b'\t') && not (c == b' ') && (ltb c 0x21 || c == 0x7f)

abbrev bad_quoted : ℕ → Bool
bad_quoted c =
    not (c == b'\t')
    && not (c == b' ')
    && not (c == 0x21)
    && (ltb c 0x23 || c == b'\\' || c == 0x7f)

-- The loop of `ParseQuotedString`; the flag says that a backslash has just been read.
unfoldable pub quoted : ExecutionControl → Bool → List ℕ → ℕ → ℕ → Result Scan
quoted control escaped [] o k = err malformed
quoted control true (c ∷ cs) o k =
    let again = quoted control false cs (o + 1) k in if bad_escaped c then err malformed else again
quoted control false (c ∷ cs) o k = do
  k' ← checkpoint control o k
  let again = quoted control (c == b'\\') cs (o + 1) k'
  if c == b'"'
      then ok (scan cs (o + 1) k')
      else if not (c == b'\\') && bad_quoted c
      then err malformed
      else again

-- The next byte is the one expected.
unfoldable pub expect : ℕ → Scan → Result Scan
expect b s = elim s.rest [
  | [] ↦ err malformed
  | c ∷ cs ↦ if c == b then ok (scan cs (s.offset + 1) s.checks) else err malformed
]

unfoldable pub parse_quoted_string : ExecutionControl → Scan → Result Scan
parse_quoted_string control s = do t ← expect b'"' s; quoted control false t.rest t.offset t.checks

-- The digits of the size, up to white space, a semicolon or the end: whether there was one, the
-- value and what is left.
unfoldable pub size_digits : ExecutionControl → List ℕ → ℕ → ℕ → Bool → ℕ → Result (Bool × ℕ × Scan)
size_digits control [] o k saw result = ok (saw, result, scan [] o k)
size_digits control (c ∷ cs) o k saw result = do
  k' ← checkpoint control o k
  if is_ows c || c == b';' then ok (saw, result, scan (c ∷ cs) o k') else elim (hex_value c) [
    | none ↦ err malformed
    | some digit ↦
        if ltb ((u64_max - digit) / 16) result
        then err malformed
        else size_digits control cs (o + 1) k' true (result * 16 + digit)
  ]

abbrev pub is_end : List ℕ → Bool
is_end [] = true
is_end _ = false

abbrev pub head_is : ℕ → List ℕ → Bool
head_is b [] = false
head_is b (c ∷ cs) = c == b

-- The value of an extension, if the next byte is `=`.
unfoldable pub extension_value : ExecutionControl → Scan → Result Scan
extension_value control s =
    if head_is b'=' s.rest
    then (do
      t ← expect b'=' s
      u ← skip_ows control t
      if head_is b'"' u.rest then parse_quoted_string control u else parse_token control u)
    else ok s

-- What a round of the loop over the extensions leaves: the end of the line, with the number of
-- checks, or more of it.
pub data Round : Type 0 where
  finished : ℕ → Round
  more : Scan → Round

-- At the end of the line; `start` is the offset before white space was skipped.
abbrev pub end_of_line : ℕ → Scan → Result Round
end_of_line start s = if s.offset == start then ok (finished s.checks) else err malformed

-- The name of an extension and its value, after its semicolon.
unfoldable pub extension_name : ExecutionControl → Scan → Result Round
extension_name control s = do
  u ← skip_ows control s
  name ← parse_token control u
  after ← skip_ows control name
  if is_end after.rest
      then end_of_line name.offset after
      else (do v ← extension_value control after; ok (more v))

-- The body of the loop.
unfoldable pub extension : ExecutionControl → Scan → Result Round
extension control s = do
  t ← skip_ows control s
  if is_end t.rest then end_of_line s.offset t else (do u ← expect b';' t; extension_name control u)

-- The loop over the extensions.
unfoldable pub extensions : ℕ → ExecutionControl → Scan → Result ℕ
extensions zero control s = err out_of_fuel
extensions (suc fuel) control s = if is_end s.rest then ok s.checks else (do
  r ← extension control s
  elim r [ finished k ↦ ok k | more t ↦ extensions fuel control t ])

-- `ParseChunkSize`, with the number of checks after it.
unfoldable pub parse_chunk_size : ExecutionControl → List ℕ → ℕ → ℕ → Result (ℕ × ℕ)
parse_chunk_size control line offset checks = do
  (saw, result, s) ← size_digits control line offset checks false 0
  if not saw
      then err malformed
      else (do k ← extensions (suc (length line)) control s; ok (result, k))
