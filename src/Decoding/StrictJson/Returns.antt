-- ===== src/Decoding/StrictJson/Returns.antt =====
-- The reader of src/runtime/decoding/strict_json_reader.cpp returns on every input.
use cuac.Common.{
  ℕ, zero, suc, ◌+◌, ◌≤◌, ◌<◌, ◌≡◌, ◌≢◌, subst, inl, inr, refl, ◌||◌, length, leb, ◌==◌, arith,
  tests, Bool-cases, absurd,
}
use cuac.Decoding.StrictJson.Reader.{Reader, out_of_fuel, err, M, ◌>>◌, is_digit}
use cuac.Decoding.StrictJson.Strings.{parse_string}
use cuac.Decoding.StrictJson.Keys.{parse_object_key}
use cuac.Decoding.StrictJson.Numbers.{parse_number_token}
use cuac.Decoding.StrictJson.SkipNumbers.{skip_number}
use cuac.Decoding.StrictJson.Values.{
  array_turn, object_turn, skip_array, skip_object, skip_by_first, require_depth, skip_value,
  require_end, validate_document,
}
use cuac.Decoding.StrictJson.Takes.{
  Safe, Left, Takes, takes, taken, weaken-Takes, if-Takes, pure-Takes, bind-Takes, malformed-Takes,
  peek-Takes, skip_whitespace-Takes, expect-Takes, require_object_key-Takes, separator-Takes,
  word-Takes, Advances, loop-Takes, peek-Advances,
}
use cuac.Decoding.StrictJson.Takes.Strings.{
  parse_object_key-Takes, parse_string-Takes, skip_string-Takes,
}
use cuac.Decoding.StrictJson.Takes.Numbers.{parse_number_token-Takes, skip_number-Takes}

module _ {budget : ℕ} where
  module _ (skip_inner : M (Unit {0})) (h : Takes budget 1 skip_inner) where
    array_turn-Advances : Advances budget (array_turn skip_inner)
    unfolding array_turn
    array_turn-Advances =
        peek-Advances (λ c. c == b']') tt _
          (bind-Takes 1 0 _ _ h λ _. bind-Takes 0 0 _ _ (separator-Takes b']') λ _. pure-Takes _)

    object_turn-Advances : Advances budget (object_turn skip_inner)
    unfolding object_turn
    object_turn-Advances =
        peek-Advances (λ c. c == b'}') tt _
          (bind-Takes 0 1 _ _ require_object_key-Takes λ _.
            bind-Takes 1 0 _ _ skip_string-Takes λ _. bind-Takes 0 0 _ _ skip_whitespace-Takes λ _.
              bind-Takes 0 0 _ _ (weaken-Takes _ 1 0 (omega arith) (expect-Takes b':')) λ _.
                bind-Takes 0 0 _ _ (weaken-Takes _ 1 0 (omega arith) h)
                  λ _. bind-Takes 0 0 _ _ (separator-Takes b'}') λ _. pure-Takes _)

    skip_array-Takes : Takes budget 1 (skip_array skip_inner)
    unfolding skip_array
    skip_array-Takes = bind-Takes 1 0 _ _ (expect-Takes b'[') λ _.
        bind-Takes 0 0 _ _ skip_whitespace-Takes λ _.
          bind-Takes 0 0 _ _ (loop-Takes _ (λ _. array_turn-Advances) tt)
            λ _. weaken-Takes _ 1 0 (omega arith) (expect-Takes b']')

    skip_object-Takes : Takes budget 1 (skip_object skip_inner)
    unfolding skip_object
    skip_object-Takes = bind-Takes 1 0 _ _ (expect-Takes b'{') λ _.
        bind-Takes 0 0 _ _ skip_whitespace-Takes λ _.
          bind-Takes 0 0 _ _ (loop-Takes _ (λ _. object_turn-Advances) tt)
            λ _. weaken-Takes _ 1 0 (omega arith) (expect-Takes b'}')

    skip_by_first-Takes : (c : ℕ) → Takes budget 1 (skip_by_first skip_inner c)
    unfolding skip_by_first
    skip_by_first-Takes c = if-Takes 1 (c == b'"') _ _ skip_string-Takes (
        if-Takes 1 (c == b'-' || is_digit c) _ _ skip_number-Takes (
          if-Takes 1 (c == b't') _ _ (word-Takes b't' _) (
            if-Takes 1 (c == b'f') _ _ (word-Takes b'f' _) (
              if-Takes 1 (c == b'n') _ _ (word-Takes b'n' _) (
                if-Takes 1 (c == b'[') _ _ skip_array-Takes
                  (if-Takes 1 (c == b'{') _ _ skip_object-Takes (malformed-Takes _ _)))))))

  require_depth-Takes : (depth : ℕ) → Takes budget 0 (require_depth depth)
  unfolding require_depth
  require_depth-Takes depth = takes λ n r l. ground arith

  -- Past the budget, the depth is refused whatever comes then.
  too_deep-Takes :
      (depth : ℕ) (f : M (Unit {0})) → budget < depth → Takes budget 1 (require_depth depth >> f)
  unfolding require_depth
  too_deep-Takes depth f h = takes λ n r l. ground arith

  skip_value-Takes :
      (fuel depth : ℕ)
      → budget + 1 < depth + fuel
      → depth ≤ budget + 1
      → Takes budget 1 (skip_value fuel depth)
  unfolding skip_value
  skip_value-Takes zero depth h g = absurd (omega arith)
  skip_value-Takes (suc fuel) depth h g = bind-Takes 0 1 _ _ skip_whitespace-Takes λ _.
      elim (Bool-cases (leb depth budget)) [
        | inl e ↦ bind-Takes 0 1 _ _ (require_depth-Takes depth) λ _.
            bind-Takes 0 1 _ _ peek-Takes λ c.
              skip_by_first-Takes (skip_value fuel (depth + 1))
                (skip_value-Takes fuel (depth + 1) (omega arith) (omega tests)) c
        | inr e ↦ too_deep-Takes depth _ (ground arith)
      ]

  require_end-Takes : Takes budget 0 require_end
  unfolding require_end
  require_end-Takes = takes λ n r l. ground arith

  from_top-Takes : Takes budget 1 (λ r. skip_value (r.max_json_nesting + 2) 0 r)
  from_top-Takes = takes λ n r (l, b).
      taken (skip_value-Takes (r.max_json_nesting + 2) 0 (omega arith) (omega arith)) n r (l, b)

  validate_document-Takes : Takes budget 1 validate_document
  unfolding validate_document
  validate_document-Takes = bind-Takes 0 1 _ _ skip_whitespace-Takes λ _.
      bind-Takes 1 0 _ _ from_top-Takes
        λ _. bind-Takes 0 0 _ _ skip_whitespace-Takes λ _. require_end-Takes

Takes-IsReturning :
    {A : Type 0} (budget k : ℕ) (m : M A) (r : Reader)
    → r.max_json_nesting ≡ budget
    → Takes budget k m
    → m r ≢ err out_of_fuel
Takes-IsReturning budget k m r b (takes h) e =
    (subst (Safe (Left k (length r.rest) budget)) e (h (length r.rest) r (omega arith, b))) refl

-- Every reading of the strict JSON reader returns: the check of a document, however deep the input
-- is nested and whatever the nesting budget, a string, an object key and a number, under whatever limits.
pub reader_returns :
    (maximum : ℕ) (r : Reader)
    → (validate_document r ≢ err out_of_fuel)
      × (parse_string maximum r ≢ err out_of_fuel)
      × (parse_object_key r ≢ err out_of_fuel)
      × (parse_number_token maximum r ≢ err out_of_fuel)
      × (skip_number r ≢ err out_of_fuel)
reader_returns maximum r = (
  Takes-IsReturning _ 1 _ r refl validate_document-Takes,
  Takes-IsReturning _ 1 _ r refl (parse_string-Takes maximum),
  Takes-IsReturning _ 1 _ r refl parse_object_key-Takes,
  Takes-IsReturning _ 0 _ r refl (parse_number_token-Takes maximum),
  Takes-IsReturning _ 1 _ r refl skip_number-Takes,
)
