-- ===== src/Decoding/StrictJson/Tokens.antt =====
-- A number of src/runtime/decoding/strict_json_reader.cpp has a byte at least, and `ParseNumberToken` reads what
-- `SkipNumber` skips.
use cuac.Common.{
  ℕ, zero, suc, ◌+◌, ◌-◌, ◌≤◌, ◌≡◌, inl, inr, refl, true, false, ◌&&◌, List, [], ◌∷◌, length, ltb,
  leb, ◌==◌, if◌then◌else◌, arith, Bool-cases, absurd,
}
use cuac.Decoding.StrictJson.Reader.{
  Reader, malformed, over_budget, Result, ok, err, bind_result, check, head, is_digit, turns, loop,
}
use cuac.Decoding.StrictJson.Numbers.{
  digit_turn, digits, integer_part, number, take, parse_number_token,
}
use cuac.Decoding.StrictJson.SkipNumbers.{skip_number}
use cuac.Decoding.StrictJson.Copies.{skip_scan-number}
use cuac.Decoding.StrictJson.Takes.{Safe, Left, Takes, takes, taken, bind-Takes, fewer}
use cuac.Decoding.StrictJson.Takes.Numbers.{
  digits-Takes, skip_if-Takes, fraction_part-Takes, exponent_part-Takes,
}
use cuac.Decoding.StrictJson.Agree.{Agree}

module _ {budget : ℕ} where
  digits_one :
      (cs : List ℕ) (n : ℕ) (r : Reader)
      → length cs ≤ n
      → r.max_json_nesting ≡ budget
      → is_digit (head cs) ≡ true
      → Safe (Left 1 n budget) (digits (record r { rest = cs }))
  unfolding loop turns digit_turn check
  digits_one [] n r l b e = absurd (ground arith)
  digits_one (c ∷ cs) n r l b e = elim (Bool-cases (r.control.cancelled r.checks)) [
    | inl f ↦ rw (e, f) (λ g. cc)
    | inr f ↦ elim (Bool-cases (r.control.late r.checks)) [
      | inl g ↦ rw (e, f, g) (λ g. cc)
      | inr g ↦
          rw (e, f, g)
            (fewer (digits (record r { rest = cs; checks = r.checks + 1 })) 1 0 (n - 1) n budget
              (λ i j. omega arith)
              (taken digits-Takes (n - 1) (record r { rest = cs; checks = r.checks + 1 })
                (omega arith, b)))
    ]
  ]

  integer_one :
      (cs : List ℕ) (n : ℕ) (r : Reader)
      → length cs ≤ n
      → r.max_json_nesting ≡ budget
      → Safe (Left 1 n budget) (integer_part (record r { rest = cs }))
  unfolding integer_part
  integer_one [] n r l b = λ e. cc
  integer_one (c ∷ cs) n r l b = elim (Bool-cases (c == b'0')) [
    | inl e ↦ rw e (ground arith)
    | inr e ↦ elim (Bool-cases (leb b'1' c && leb c b'9')) [
      | inl f ↦ rw (e, f) (digits_one (c ∷ cs) n r l b (ground arith))
      | inr f ↦ rw (e, f) (λ g. cc)
    ]
  ]

  number_one : Takes budget 1 number
  unfolding number
  number_one = bind-Takes 0 1 _ _ (skip_if-Takes (λ c. c == b'-')) λ _.
      bind-Takes 1 0 _ _ integer_part_one
        λ _. bind-Takes 0 0 _ _ fraction_part-Takes λ _. exponent_part-Takes
    where
      integer_part_one : Takes budget 1 integer_part
      integer_part_one = takes λ n r (l, b). integer_one r.rest n r (omega arith) b

length-take : (n : ℕ) (cs : List ℕ) → length (take n cs) ≤ n
length-take zero cs = omega arith
length-take (suc n) [] = omega arith
length-take (suc n) (c ∷ cs) = omega (arith, length-take n cs)

-- Skipping a number accepts what reading it accepts, to the same place and after the same checks, and
-- fails for the same reason, unless the number is longer than the token may be; so the last test of
-- `SkipNumber`, that there was a number, never fails.
pub parse_number_token-skip_number :
    (maximum : ℕ) (r : Reader)
    → Agree (λ token _. length token ≤ maximum) (parse_number_token maximum r) (skip_number r)
unfolding parse_number_token skip_number
parse_number_token-skip_number maximum r =
    rw skip_scan-number (after (number r) (taken number_one (length r.rest) r (omega arith, refl)))
  where
    after :
        (x : Result (Unit {0}))
        → Safe (Left 1 (length r.rest) r.max_json_nesting) x
        → Agree
            (λ token _. length token ≤ maximum)
            (bind_result x (λ _ s.
              let token_bytes = length r.rest - length s.rest in
              if ltb maximum token_bytes then err over_budget else ok (take token_bytes r.rest) s))
            (bind_result x
              (λ _ s. if length s.rest == length r.rest then err malformed else ok tt s))
    after (err e) h = inr refl
    after (ok a s) (l, b) = elim (Bool-cases (ltb maximum (length r.rest - length s.rest))) [
      | inl e ↦ rw e (inl refl)
      | inr e ↦
          let some_bytes : (length s.rest == length r.rest) ≡ false = ground arith in
          rw (e, some_bytes)
            (ground (arith, length-take (length r.rest - length s.rest) r.rest), refl)
    ]
