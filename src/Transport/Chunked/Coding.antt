-- ===== src/Transport/Chunked/Coding.antt =====
-- The chunked coding, and what the decoder does with its lines and bytes.
use cuac.Common.{
  ◌%◌, ℕ, ◌+◌, ◌-◌, ◌*◌, ◌/◌, ◌≤◌, ◌<◌, ◌≡◌, inl, inr, Bool, true, false, not, ◌||◌, Option, none,
  some, List, [], ◌∷◌, ◌++◌, length, refl, sym, ◌∙◌, arith, Bool-cases, Option-cases, ltb, ◌==◌,
}
use cuac.Transport.Chunked.Control.{
  ExecutionControl, ok, scan, check_execution_state, checkpoint, IsQuiet,
}
use cuac.Transport.Chunked.Line.{
  u64_max, hex_value, size_digits, extensions, parse_chunk_size, is_ows, is_end,
}
use cuac.Transport.Chunked.Body.{find_crlf, split_at}

-- The number that hexadecimal digits stand for, after the digits that gave `n`.
abbrev pub hex_number : ℕ → List ℕ → Option ℕ
hex_number n [] = some n
hex_number n (c ∷ cs) = elim (hex_value c) [ none ↦ none | some d ↦ hex_number (n * 16 + d) cs ]

-- A chunk as a sender writes it: the digits of its size, in either case and with any number of
-- leading zeros, and its bytes.
pub record Chunk : Type 0 where
  pub digits : List ℕ
  pub bytes : List ℕ

pub record IsChunk (c : Chunk) : Type 0 where
  pub size : hex_number 0 c.digits ≡ some (length c.bytes)
  pub some_bytes : 0 < length c.bytes

abbrev pub crlf : List ℕ → List ℕ
crlf cs = b'\r' ∷ b'\n' ∷ cs

-- The chunked coding of RFC 9112, section 7.1, with no extensions and no trailers.
abbrev pub encode : List Chunk → List ℕ
encode [] = b'0' ∷ crlf (crlf [])
encode (c ∷ cs) = c.digits ++ crlf (c.bytes ++ crlf (encode cs))

abbrev pub content : List Chunk → List ℕ
content [] = []
content (c ∷ cs) = c.bytes ++ content cs

pub hex_value_facts :
    (c : ℕ) {d : ℕ}
    → hex_value c ≡ some d
    → (d < 16) × ((is_ows c || c == b';') ≡ false) × ((c == b'\r') ≡ false)
unfolding hex_value
hex_value_facts c e = ground arith

hex_number-cons :
    (n c d : ℕ) (cs : List ℕ)
    → hex_value c ≡ some d
    → hex_number n (c ∷ cs) ≡ hex_number (n * 16 + d) cs
hex_number-cons n c d cs h = rw (h, hex_number)

hex_number-le : (cs : List ℕ) (n r : ℕ) → hex_number n cs ≡ some r → n ≤ r
hex_number-le [] n r e = ground arith
hex_number-le (c ∷ cs) n r e = elim (Option-cases (hex_value c)) [
  | inl h ↦ ground arith
  | inr (d, h) ↦
      omega (arith, hex_number-le cs (n * 16 + d) r (sym (hex_number-cons n c d cs h) ∙ e))
]

module _ (control : ExecutionControl) (quiet : IsQuiet control) where
  pub check_execution_state-quiet : (k : ℕ) → check_execution_state control k ≡ ok (k + 1)
  unfolding check_execution_state
  check_execution_state-quiet k = ground (arith, quiet k)

  checkpoint-quiet : (o k : ℕ) → (k' : ℕ) × (checkpoint control o k ≡ ok k')
  unfolding checkpoint
  checkpoint-quiet o k = elim (Bool-cases (o % 1024 == 0)) [
    | inl e ↦ (k + 1, rw e (check_execution_state-quiet k))
    | inr e ↦ (k, rw e)
  ]

  size_digits-hex_number :
      (cs : List ℕ) (o k : ℕ) (saw : Bool) (n r : ℕ)
      → hex_number n cs ≡ some r
      → r ≤ u64_max
      → (o' k' : ℕ) × (size_digits control cs o k saw n
          ≡ ok (saw || not (is_end cs), r, scan [] o' k'))
  unfolding size_digits
  size_digits-hex_number [] o k saw n r e small = (o, k, ground arith)
  size_digits-hex_number (c ∷ cs) o k saw n r e small = elim (Option-cases (hex_value c)) [
    | inl h ↦ absurd (ground arith)
    | inr (d, h) ↦
        let (digit, plain, _) = hex_value_facts c h in
        let e' : hex_number (n * 16 + d) cs ≡ some r = sym (hex_number-cons n c d cs h) ∙ e in
        let (k1, h1) = checkpoint-quiet o k in
        let (o2, k2, h2) = size_digits-hex_number cs (o + 1) k1 true (n * 16 + d) r e' small in
        let fits : ltb ((u64_max - d) / 16) n ≡ false =
          ground (arith, hex_number-le cs (n * 16 + d) r e') in
        (o2, k2, rw (h1, plain, h, fits, h2) (ground arith))
  ]

  pub parse_chunk_size-digits :
      (digits : List ℕ) (o k r : ℕ)
      → hex_number 0 digits ≡ some r
      → 0 < length digits
      → r ≤ u64_max
      → (k' : ℕ) × (parse_chunk_size control digits o k ≡ ok (r, k'))
  unfolding parse_chunk_size extensions
  parse_chunk_size-digits [] o k r e h small = absurd (omega arith)
  parse_chunk_size-digits (c ∷ cs) o k r e h small =
      let (o', k', h') = size_digits-hex_number (c ∷ cs) o k false 0 r e small in (k', rw h')

-- No digit is a CR, so the line ends where the digits do.
pub find_crlf-digits :
    (cs rest : List ℕ) (n r : ℕ)
    → hex_number n cs ≡ some r
    → find_crlf (cs ++ crlf rest) ≡ some (cs, rest)
unfolding find_crlf
find_crlf-digits [] rest n r e = refl
find_crlf-digits (c ∷ cs) rest n r e = elim (Option-cases (hex_value c)) [
  | inl h ↦ absurd (ground arith)
  | inr (d, h) ↦
      let (_, _, plain) = hex_value_facts c h in
      step c cs plain
        (find_crlf-digits cs rest (n * 16 + d) r (sym (hex_number-cons n c d cs h) ∙ e))
]
  where
    step :
        (c : ℕ) (cs : List ℕ)
        → (c == b'\r') ≡ false
        → find_crlf (cs ++ crlf rest) ≡ some (cs, rest)
        → find_crlf (c ∷ (cs ++ crlf rest)) ≡ some (c ∷ cs, rest)
    step c [] plain ih = rw (plain)
    step c (b ∷ cs) plain ih = rw (plain, ih)

pub split_at-append : (cs rest : List ℕ) → split_at (length cs) (cs ++ rest) ≡ (cs, rest)
unfolding split_at
split_at-append [] rest = refl
split_at-append (c ∷ cs) rest = rw (split_at-append cs rest)
