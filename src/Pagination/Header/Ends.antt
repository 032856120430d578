-- ===== src/Pagination/Header/Ends.antt =====
-- The ends of the loops of src/runtime/pagination/link_header.cpp.
use cuac.Common.{
  ℕ, zero, suc, ◌<◌, ◌≡◌, inl, inr, Bool, true, false, Option, none, some, List, [], ◌∷◌, length,
  ◌==◌, arith, Bool-cases, Option-cases, absurd,
}
use cuac.Pagination.Header.Scan.{skip_ows}
use cuac.Pagination.Header.Parser.{
  Parameters, parameter, parameters, parse_link_value, after_value, Scanned, also, parse_elements,
}
use cuac.Pagination.Header.Fuel.{
  Leaves-length, length-skip_ows, parameter-Leaves, parse_link_value-Leaves, after_value-Leaves,
}

-- A run of the loop on the parameters of a value, from a state and a text to what it comes to. The
-- constructors are the loop's own exits and its next turn; none of them counts turns.
pub data ParametersRun : Parameters → List ℕ → Option (Parameters × List ℕ) → Type 0 where
  at_end : {p : Parameters} → ParametersRun p [] (some (p, []))
  at_comma :
      {p : Parameters} {c : ℕ} {cs : List ℕ}
      → (c == b',') ≡ true
      → ParametersRun p (c ∷ cs) (some (p, c ∷ cs))
  at_other :
      {p : Parameters} {c : ℕ} {cs : List ℕ}
      → (c == b',') ≡ false
      → (c == b';') ≡ false
      → ParametersRun p (c ∷ cs) none
  at_bad_parameter :
      {p : Parameters} {c : ℕ} {cs : List ℕ}
      → (c == b';') ≡ true
      → parameter p cs ≡ none
      → ParametersRun p (c ∷ cs) none
  next_parameter :
      {p q : Parameters} {c : ℕ} {cs rest : List ℕ} {result : Option (Parameters × List ℕ)}
      → (c == b';') ≡ true
      → parameter p cs ≡ some (q, rest)
      → ParametersRun q (skip_ows rest) result
      → ParametersRun p (c ∷ cs) result

-- The same for the loop on a field's values.
pub data ElementsRun : ℕ → List ℕ → Scanned → Type 0 where
  no_value : {ignored : ℕ} → ElementsRun ignored [] ([], some ignored)
  at_bad_value :
      {ignored c : ℕ} {cs : List ℕ}
      → parse_link_value (c ∷ cs) ≡ none
      → ElementsRun ignored (c ∷ cs) ([], none)
  at_bad_separator :
      {ignored c : ℕ} {cs rest : List ℕ} {v : List ℕ × Bool}
      → parse_link_value (c ∷ cs) ≡ some (v, rest)
      → after_value ignored (skip_ows rest) ≡ none
      → ElementsRun ignored (c ∷ cs) (v ∷ [], none)
  next_value :
      {ignored counted c : ℕ} {cs rest text : List ℕ} {v : List ℕ × Bool} {scanned : Scanned}
      → parse_link_value (c ∷ cs) ≡ some (v, rest)
      → after_value ignored (skip_ows rest) ≡ some (counted, text)
      → ElementsRun counted text scanned
      → ElementsRun ignored (c ∷ cs) (also v scanned)

parameters-ParametersRun :
    (f : ℕ) (p : Parameters) (text : List ℕ)
    → length text < f
    → ParametersRun p text (parameters f p text)
unfolding parameters
parameters-ParametersRun zero p text h = absurd (omega (arith, h))
parameters-ParametersRun (suc f) p [] h = at_end
parameters-ParametersRun (suc f) p (c ∷ cs) h = elim (Bool-cases (c == b',')) [
  | inl e ↦ rw e (at_comma e)
  | inr e ↦ elim (Bool-cases (c == b';')) [
    | inr g ↦ rw (e, g) (at_other e g)
    | inl g ↦ elim (Option-cases (parameter p cs)) [
      | inl m ↦ rw (e, g, m) (at_bad_parameter g m)
      | inr ((q, rest), m) ↦
          let left = Leaves-length rest (parameter-Leaves p cs) m in
          let short = length-skip_ows rest in
          let ih = parameters-ParametersRun f q (skip_ows rest) (omega (arith, h, left, short)) in
          rw (e, g, m) (next_parameter g m ih)
    ]
  ]
]

parse_elements-ElementsRun :
    (f ignored : ℕ) (text : List ℕ)
    → length text < f
    → ElementsRun ignored text (parse_elements f ignored text)
unfolding parse_elements
parse_elements-ElementsRun zero ignored text h = absurd (omega (arith, h))
parse_elements-ElementsRun (suc f) ignored [] h = no_value
parse_elements-ElementsRun (suc f) ignored (c ∷ cs) h =
    elim (Option-cases (parse_link_value (c ∷ cs))) [
      | inl e ↦ rw (parse_elements, e) (at_bad_value e)
      | inr ((v, rest), e) ↦ elim (Option-cases (after_value ignored (skip_ows rest))) [
        | inl m ↦ rw (parse_elements, e, m) (at_bad_separator e m)
        | inr ((counted, text), m) ↦
            let left = Leaves-length rest (parse_link_value-Leaves c cs) e in
            let short = length-skip_ows rest in
            let further = Leaves-length text (after_value-Leaves ignored (skip_ows rest)) m in
            let ih =
              parse_elements-ElementsRun f counted text (omega (arith, h, left, short, further)) in
            rw (parse_elements, e, m) (next_value e m ih)
      ]
    ]

-- With more turns than the text has bytes, as they are called with, the loop on the values of a
-- field and the loop on the parameters of a value end by their own tests: what they come to is what
-- a finite run of turns comes to, at the end of the text, at a comma, or at the error met, and never
-- the answer that the model gives when its turns are used up.
pub loops_end :
    (turns ignored : ℕ) (p : Parameters) (text : List ℕ)
    → length text < turns
    → ElementsRun ignored text (parse_elements turns ignored text)
      × ParametersRun p text (parameters turns p text)
loops_end turns ignored p text h =
    (parse_elements-ElementsRun turns ignored text h, parameters-ParametersRun turns p text h)
