-- ===== src/Decoding/StrictJson/Utf8.antt =====
-- `AppendCodePoint` and `AppendUtf8` of src/runtime/decoding/strict_json_reader.cpp write and read the same
-- encoding.
use cuac.Common.{
  ℕ, suc, ◌+◌, ◌-◌, ◌*◌, ◌/◌, ◌%◌, ◌≤◌, ◌<◌, ◌≡◌, ◌⊎◌, inl, inr, refl, true, false, ◌&&◌, ◌||◌,
  Option, none, some, List, [], ◌∷◌, ◌++◌, length, ltb, leb, ◌==◌, arith, Bool-cases,
}
use cuac.Decoding.StrictJson.Reader.{
  Reader, Result, ok, err, bind_result, check, next_byte, head, tail,
}
use cuac.Decoding.StrictJson.Strings.{
  utf8_bytes, require_append, Utf8Lead, utf8_lead, utf8_tail, utf8_sequence, append_utf8,
}
use cuac.Decoding.StrictJson.Nesting.{reader_at}

-- A Unicode scalar value.
abbrev pub IsScalar : ℕ → Type 0
IsScalar value = (value < 0xd800) ⊎ ((0xdfff < value) × (value ≤ 0x10ffff))

two :
    (value : ℕ)
    → value < 0x800
    → 0x7f < value
    → utf8_lead (0xc0 + value / 64)
      ≡ some (record { count = 1; value = value / 64; minimum = 0x80 })
unfolding utf8_lead
two value h g =
    let high : (0xc0 + value / 64) / 32 ≡ 6 = omega arith in
    let low : (0xc0 + value / 64) % 32 ≡ value / 64 = omega arith in rw (high, low) refl

three :
    (value : ℕ)
    → value < 0x10000
    → utf8_lead (0xe0 + value / 4096)
      ≡ some (record { count = 2; value = value / 4096; minimum = 0x800 })
unfolding utf8_lead
three value h =
    let other : ((0xe0 + value / 4096) / 32 == 6) ≡ false = ground arith in
    let high : (0xe0 + value / 4096) / 16 ≡ 14 = omega arith in
    let low : (0xe0 + value / 4096) % 16 ≡ value / 4096 = omega arith in rw (other, high, low) refl

four :
    (value : ℕ)
    → value < 0x110000
    → utf8_lead (0xf0 + value / 262144)
      ≡ some (record { count = 3; value = value / 262144; minimum = 0x10000 })
unfolding utf8_lead
four value h =
    let other : ((0xf0 + value / 262144) / 32 == 6) ≡ false = ground arith in
    let third : ((0xf0 + value / 262144) / 16 == 14) ≡ false = ground arith in
    let high : (0xf0 + value / 262144) / 8 ≡ 30 = omega arith in
    let low : (0xf0 + value / 262144) % 8 ≡ value / 262144 = omega arith in
    rw (other, third, high, low) refl

-- A continuation byte gives six more bits.
continued :
    (budget k n value bits : ℕ) (cs : List ℕ)
    → bits < 64
    → utf8_tail (suc n) value (reader_at budget k ((0x80 + bits) ∷ cs))
      ≡ bind_result
          (utf8_tail n (value * 64 + bits) (reader_at budget (k + 1) cs))
          (λ (last, ds) r. ok (last, (0x80 + bits) ∷ ds) r)
unfolding utf8_tail check next_byte
continued budget k n value bits cs h =
    let mark : (0x80 + bits) / 64 ≡ 2 = omega arith in
    let low : (0x80 + bits) % 64 ≡ bits = omega arith in rw (mark, low) refl

-- What was read, and the bytes after it.
abbrev pub read_of : {A : Type 0} → Result A → Option (A × List ℕ)
read_of (ok a r) = some (a, r.rest)
read_of (err e) = none

module _ (budget k value a : ℕ) (ha : a < 64) where
  tail_1 :
      (cs : List ℕ)
      → utf8_tail 1 value (reader_at budget k ((0x80 + a) ∷ cs))
        ≡ ok (value * 64 + a, (0x80 + a) ∷ []) (reader_at budget (k + 1) cs)
  unfolding utf8_tail
  tail_1 cs = rw (continued budget k 0 value a cs ha) refl

tail_2 :
    (budget k value a b : ℕ) (cs : List ℕ)
    → a < 64
    → b < 64
    → utf8_tail 2 value (reader_at budget k ((0x80 + a) ∷ (0x80 + b) ∷ cs))
      ≡ ok
          ((value * 64 + a) * 64 + b, (0x80 + a) ∷ (0x80 + b) ∷ [])
          (reader_at budget (k + 1 + 1) cs)
tail_2 budget k value a b cs ha hb =
    rw
      (
        continued budget k 1 value a ((0x80 + b) ∷ cs) ha,
        tail_1 budget (k + 1) (value * 64 + a) b hb cs,
      )
      refl

tail_3 :
    (budget k value a b c : ℕ) (cs : List ℕ)
    → a < 64
    → b < 64
    → c < 64
    → utf8_tail 3 value (reader_at budget k ((0x80 + a) ∷ (0x80 + b) ∷ (0x80 + c) ∷ cs))
      ≡ ok
          (((value * 64 + a) * 64 + b) * 64 + c, (0x80 + a) ∷ (0x80 + b) ∷ (0x80 + c) ∷ [])
          (reader_at budget (k + 1 + 1 + 1) cs)
tail_3 budget k value a b c cs ha hb hc =
    rw
      (
        continued budget k 2 value a ((0x80 + b) ∷ (0x80 + c) ∷ cs) ha,
        tail_2 budget (k + 1) (value * 64 + a) b c cs hb hc,
      )
      refl

-- Why the value of a sequence is not refused.
abbrev Accepted : ℕ → ℕ → Type 0
Accepted minimum value =
    (ltb value minimum || ltb 0x10ffff value || leb 0xd800 value && leb value 0xdfff) ≡ false

sequence_lem :
    (first : ℕ) (lead : Utf8Lead) (value : ℕ) (cs : List ℕ) (r s : Reader)
    → utf8_lead first ≡ some lead
    → utf8_tail lead.count lead.value r ≡ ok (value, cs) s
    → Accepted lead.minimum value
    → utf8_sequence first r ≡ ok cs s
unfolding utf8_sequence
sequence_lem first lead value cs r s e f g = rw (utf8_sequence, e, f, g) refl

append_lem :
    (maximum first : ℕ) (result cs : List ℕ) (r s : Reader)
    → 0x80 ≤ first
    → utf8_sequence first r ≡ ok cs s
    → length result + (length cs + 1) ≤ maximum
    → read_of (append_utf8 maximum first result r) ≡ some (result ++ (first ∷ cs), s.rest)
unfolding append_utf8 require_append
append_lem maximum first result cs r s h e m =
    let large : ltb first 0x80 ≡ false = ground arith in
    let room : (ltb maximum (length cs + 1) || ltb (maximum - (length cs + 1)) (length result))
        ≡ false =
      ground arith in
    rw (large, e, room) refl

module _ (budget maximum k value : ℕ) (result rest : List ℕ) (h : IsScalar value) where
  abbrev Reads : List ℕ → Type 0
  Reads cs =
      length result + length cs ≤ maximum
      → read_of (append_utf8 maximum (head cs) result (reader_at budget k (tail cs ++ rest)))
        ≡ some (result ++ cs, rest)

  Reads-one : value < 0x80 → Reads (value ∷ [])
  unfolding append_utf8 require_append
  Reads-one b m =
      let small : ltb value 0x80 ≡ true = ground arith in
      let room : (ltb maximum 1 || ltb (maximum - 1) (length result)) ≡ false = ground arith in
      rw (small, room) refl

  Reads-two : 0x7f < value → value < 0x800 → Reads ((0xc0 + value / 64) ∷ (0x80 + value % 64) ∷ [])
  Reads-two a b m =
      let whole : value / 64 * 64 + value % 64 ≡ value = omega arith in
      append_lem maximum _ result _ _ _ (omega arith)
        (sequence_lem _ _ _ _ _ _ (two value b a)
          (tail_1 budget k (value / 64) (value % 64) (omega arith) rest) (rw whole (ground arith)))
        m

  Reads-three :
      0x7ff < value
      → value < 0x10000
      → Reads ((0xe0 + value / 4096) ∷ (0x80 + value / 64 % 64) ∷ (0x80 + value % 64) ∷ [])
  Reads-three a b m =
      let whole : (value / 4096 * 64 + value / 64 % 64) * 64 + value % 64 ≡ value = omega arith in
      append_lem maximum _ result _ _ _ (omega arith)
        (sequence_lem _ _ _ _ _ _ (three value b)
          (tail_2 budget k (value / 4096) (value / 64 % 64) (value % 64) rest (omega arith)
            (omega arith))
          (rw whole (ground arith)))
        m

  Reads-four :
      0xffff < value
      → Reads (
          (0xf0 + value / 262144)
          ∷ (0x80 + value / 4096 % 64)
          ∷ (0x80 + value / 64 % 64)
          ∷ (0x80 + value % 64)
          ∷ [])
  Reads-four a m =
      let whole : ((value / 262144 * 64 + value / 4096 % 64) * 64 + value / 64 % 64) * 64
            + value % 64
          ≡ value =
        omega arith in
      append_lem maximum _ result _ _ _ (omega arith)
        (sequence_lem _ _ _ _ _ _ (four value (ground arith))
          (tail_3 budget k (value / 262144) (value / 4096 % 64) (value / 64 % 64) (value % 64) rest
            (omega arith) (omega arith) (omega arith))
          (rw whole (ground arith)))
        m

  -- What the decoding of an escape writes for a scalar value, the reading of plain text reads back: it
  -- takes exactly those bytes, in an execution that is not interrupted and if they fit the budget.
  pub append_utf8-utf8_bytes :
      length result + length (utf8_bytes value) ≤ maximum
      → read_of (
          append_utf8 maximum
            (head (utf8_bytes value))
            result
            (reader_at budget k (tail (utf8_bytes value) ++ rest)))
        ≡ some (result ++ utf8_bytes value, rest)
  unfolding utf8_bytes
  append_utf8-utf8_bytes = elim (Bool-cases (leb value 0x7f)) [
    | inl e ↦ rw e (Reads-one (ground arith))
    | inr e ↦ elim (Bool-cases (leb value 0x7ff)) [
      | inl f ↦ rw (e, f) (Reads-two (ground arith) (ground arith))
      | inr f ↦ elim (Bool-cases (leb value 0xffff)) [
        | inl g ↦ rw (e, f, g) (Reads-three (ground arith) (ground arith))
        | inr g ↦ rw (e, f, g) (Reads-four (ground arith))
      ]
    ]
  ]
