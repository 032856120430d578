-- ===== src/Decoding/StrictJson/Copies.antt =====
-- The code that src/runtime/decoding/strict_json_reader.cpp has more than once: the copies agree.
use cuac.Common.{
  ℕ, zero, suc, ◌+◌, ◌-◌, ◌*◌, ◌/◌, ◌%◌, ◌≡◌, ◌≢◌, inl, inr, refl, sym, ap, Bool, true, false, ◌||◌,
  ◌&&◌, Option, none, some, List, [], ◌∷◌, ◌++◌, length, length-append, ltb, leb, ◌==◌,
  if◌then◌else◌, arith, Bool-cases,
}
use cuac.Decoding.StrictJson.Reader.{
  Reader, Result, ok, err, M, bind_result, ◌>>=◌, pure, fail, malformed, check, next_byte,
}
use cuac.Decoding.StrictJson.Strings.{
  Utf8Lead, utf8_lead, utf8_tail, utf8_sequence, utf8_bytes, short_escape,
}
use cuac.Decoding.StrictJson.Skips.{skip_lead, skip_tail, skip_utf8, is_skipped_escape}
use cuac.Decoding.StrictJson.Keys.{
  StrictJsonObjectKey, append_all, key_append_code_point, key_short_escape, key_utf8,
}
use cuac.Decoding.StrictJson.Numbers.{
  digit_turn, require_digits, integer_part, fraction_part, exponent_part, number, take,
}
use cuac.Decoding.StrictJson.SkipNumbers.{
  skip_digit, skip_some_digits, skip_minus, skip_integer, skip_fraction, skip_sign, skip_exponent,
  skip_scan,
}
use cuac.Decoding.StrictJson.Agree.{
  Agree, Follows, follows, followed, bind-Follows, then-Follows, both-Follows, if-Follows,
  option-Follows, malformed-Follows, pure-Follows,
}
use cuac.Decoding.StrictJson.Takes.{Safe, bind-Safe}

-- The scans of `SkipNumber` and `ParseNumberToken`.
pub skip_scan-number : skip_scan ≡ number
unfolding skip_scan number skip_digit digit_turn skip_some_digits require_digits skip_minus
    skip_integer integer_part skip_fraction fraction_part skip_sign skip_exponent exponent_part
skip_scan-number = refl

pub skip_lead-utf8_lead : (first : ℕ) → skip_lead first ≡ utf8_lead first
unfolding skip_lead utf8_lead
skip_lead-utf8_lead first = refl

pub key_short_escape-short_escape : (e : ℕ) → key_short_escape e ≡ short_escape e
unfolding key_short_escape short_escape
key_short_escape-short_escape e = refl

-- `SkipString` passes the escapes that `ParseString` reads.
pub is_skipped_escape-false : (e : ℕ) → is_skipped_escape e ≡ false → short_escape e ≡ none
unfolding is_skipped_escape short_escape
is_skipped_escape-false e h = ground arith

pub is_skipped_escape-true : (e : ℕ) → is_skipped_escape e ≡ true → short_escape e ≢ none
unfolding is_skipped_escape short_escape
is_skipped_escape-true e h g = ground arith

pub key_append_code_point-utf8_bytes :
    (key : StrictJsonObjectKey) (value : ℕ)
    → key_append_code_point key value ≡ append_all key (utf8_bytes value)
unfolding key_append_code_point append_all utf8_bytes
key_append_code_point-utf8_bytes key value = elim (Bool-cases (leb value 0x7f)) [
  | inl e ↦ rw e refl
  | inr e ↦ elim (Bool-cases (leb value 0x7ff)) [
    | inl f ↦ rw (e, f) refl
    | inr f ↦ elim (Bool-cases (leb value 0xffff)) [
      | inl g ↦ rw (e, f, g) refl
      | inr g ↦ rw (e, f, g) refl
    ]
  ]
]

skip_tail-Follows :
    (n value : ℕ) → Follows (λ t last. t.0 ≡ last) (utf8_tail n value) (skip_tail n value)
unfolding utf8_tail skip_tail
skip_tail-Follows zero value = pure-Follows _ _ _ refl
skip_tail-Follows (suc n) value = both-Follows _ check _ _ λ _. both-Follows _ next_byte _ _ λ c.
    both-Follows _ (if c / 64 == 2 then pure tt else fail malformed) _ _
      λ _. then-Follows _ _ _ _ _ (skip_tail-Follows n _) λ (last, cs) b e. pure-Follows _ _ _ e

pub skip_utf8-ascii : (first : ℕ) → ltb first 0x80 ≡ true → skip_utf8 first ≡ pure tt
unfolding skip_utf8
skip_utf8-ascii first e = rw e refl

-- `SkipUtf8` goes where `AppendUtf8` goes, past a byte that is not ASCII.
pub skip_utf8-Follows :
    (first : ℕ)
    → ltb first 0x80 ≡ false
    → Follows (λ _ _. Unit {0}) (utf8_sequence first) (skip_utf8 first)
unfolding skip_utf8 utf8_sequence
skip_utf8-Follows first e =
    rw (e, skip_lead-utf8_lead first)
      (option-Follows _ (utf8_lead first) _ _ _ _ (malformed-Follows _) λ lead.
        bind-Follows (λ t last. t.0 ≡ last) _ _ _ _ _ (skip_tail-Follows lead.count lead.value)
          λ (value, cs) last g.
            rw (sym g) (if-Follows _ _ _ _ _ _ (malformed-Follows _) (pure-Follows _ _ _ tt)))

check-Safe : (r : Reader) → Safe (λ _ s. s.rest ≡ r.rest) (check r)
unfolding check
check-Safe r = ground arith

next_byte-Safe : (r : Reader) → Safe (λ c s. r.rest ≡ c ∷ s.rest) (next_byte r)
unfolding next_byte
next_byte-Safe r = ground arith

test-Safe :
    (b : Bool) (r : Reader)
    → Safe (λ _ s. s.rest ≡ r.rest) ((if b then pure (tt {0}) else fail malformed) r)
test-Safe true r = refl
test-Safe false r = λ e. cc

-- The bytes that are read are those that the position passes.
utf8_tail-Safe :
    (n value : ℕ) (r : Reader) → Safe (λ t s. r.rest ≡ t.1 ++ s.rest) (utf8_tail n value r)
unfolding utf8_tail
utf8_tail-Safe zero value r = refl
utf8_tail-Safe (suc n) value r =
    bind-Safe (λ _ s. s.rest ≡ r.rest) _ (check r) _ (check-Safe r)
      λ _ s e.
        bind-Safe (λ c t. s.rest ≡ c ∷ t.rest) _ (next_byte s) _ (next_byte-Safe s)
          λ c t f.
            bind-Safe (λ _ u. u.rest ≡ t.rest) _ _ _ (test-Safe (c / 64 == 2) t)
              λ _ u g.
                bind-Safe (λ p v. u.rest ≡ p.1 ++ v.rest) _ (utf8_tail n (value * 64 + c % 64) u) _
                  (utf8_tail-Safe n _ u) λ (last, cs) v h. rw (sym e, f, sym g, h) refl

utf8_sequence-Safe :
    (first : ℕ) (r : Reader) → Safe (λ cs s. r.rest ≡ cs ++ s.rest) (utf8_sequence first r)
unfolding utf8_sequence
utf8_sequence-Safe first r = go (utf8_lead first)
  where
    go :
        (lead : Option Utf8Lead)
        → Safe
            (λ cs s. r.rest ≡ cs ++ s.rest)
            (elim lead as (λ _. M (List ℕ)) [
              | none ↦ fail malformed
              | some lead ↦ (do
                (value, cs) ← utf8_tail lead.count lead.value
                if ltb value lead.minimum
                      || ltb 0x10ffff value
                      || leb 0xd800 value && leb value 0xdfff
                    then fail malformed
                    else pure cs)
            ]
              r)
    go none = λ e. cc
    go (some lead) =
        bind-Safe (λ t s. r.rest ≡ t.1 ++ s.rest) _ (utf8_tail lead.count lead.value r) _
          (utf8_tail-Safe lead.count lead.value r)
          λ (value, cs) s h.
            ended cs s h
              (ltb value lead.minimum || ltb 0x10ffff value || leb 0xd800 value && leb value 0xdfff)
      where
        ended :
            (cs : List ℕ) (s : Reader)
            → r.rest ≡ cs ++ s.rest
            → (b : Bool)
            → Safe (λ cs s. r.rest ≡ cs ++ s.rest) ((if b then fail malformed else pure cs) s)
        ended cs s h true = λ e. cc
        ended cs s h false = h

take-append : (xs ys : List ℕ) → take (length xs) (xs ++ ys) ≡ xs
take-append [] ys = refl
take-append (x ∷ xs) ys = ap (λ zs. x ∷ zs) (take-append xs ys)

take_passed : (xs ys : List ℕ) → take (length (xs ++ ys) - length ys) (xs ++ ys) ≡ xs
take_passed xs ys =
    let passed : length (xs ++ ys) - length ys ≡ length xs = omega (arith, length-append xs ys) in
    rw passed (take-append xs ys)

pub key_utf8-ascii :
    (first : ℕ) (r : Reader) → ltb first 0x80 ≡ true → key_utf8 first r ≡ ok (first ∷ []) r
unfolding key_utf8
key_utf8-ascii first r e =
    let nothing : length r.rest - length r.rest ≡ 0 = omega arith in
    rw (skip_utf8-ascii first e, nothing) refl

-- The bytes of the input that an object key takes past a byte that is not ASCII are those that
-- `AppendUtf8` appends.
pub key_utf8-Follows :
    (first : ℕ)
    → ltb first 0x80 ≡ false
    → Follows (λ cs ds. ds ≡ first ∷ cs) (utf8_sequence first) (key_utf8 first)
unfolding key_utf8
key_utf8-Follows first e = follows λ r.
    go r (utf8_sequence first r) (skip_utf8 first r) (followed (skip_utf8-Follows first e) r)
      (utf8_sequence-Safe first r)
  where
    go :
        (r : Reader) (x : Result (List ℕ)) (y : Result (Unit {0}))
        → Agree (λ _ _. Unit {0}) x y
        → Safe (λ cs s. r.rest ≡ cs ++ s.rest) x
        → Agree
            (λ cs ds. ds ≡ first ∷ cs)
            x
            (bind_result y (λ _ s. ok (first ∷ take (length r.rest - length s.rest) r.rest) s))
    go r (ok cs s) (ok u t) (p, g) h =
        (rw (sym g, h) (ap (λ l. first ∷ l) (take_passed cs s.rest)), g)
    go r (ok cs s) (err f) h k = elim h [ ]
    go r (err f) (ok u t) (inl h) k = inl h
    go r (err f) (ok u t) (inr h) k = elim h [ ]
    go r (err f) (err g) h k = h
