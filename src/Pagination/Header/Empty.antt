-- ===== src/Pagination/Header/Empty.antt =====
-- The bound on empty list elements, src/runtime/pagination/link_header.cpp.
use cuac.Common.{
  ℕ, suc, ◌+◌, ◌≤◌, ◌≡◌, inl, inr, refl, ap, ◌∙◌, Bool, true, false, ◌||◌, none, some, List, [],
  ◌∷◌, ◌==◌, leb, ltb, arith, Bool-cases, if◌then◌else◌, All,
}
use cuac.Pagination.Uri.Text.{every}
use cuac.Pagination.Header.Scan.{is_ows}
use cuac.Pagination.Header.Parser.{
  ignore_empty_element, skip_empty_elements, parse_elements, parse_field, parse_fields, link_values,
  parse_link_header_fields,
}

-- Commas and white space only.
abbrev pub IsEmptyField : List ℕ → Type 0
IsEmptyField field = every (λ c. c == b',' || is_ows c) field ≡ true

unfoldable pub commas : List ℕ → ℕ
commas [] = 0
commas (c ∷ cs) = let rest = commas cs in if c == b',' then suc rest else rest

unfoldable pub all_commas : List (List ℕ) → ℕ
all_commas [] = 0
all_commas (f ∷ fs) = commas f + all_commas fs

skip_empty_elements-commas :
    (ignored : ℕ) (field : List ℕ)
    → ignored ≤ 128
    → IsEmptyField field
    → skip_empty_elements ignored field
      ≡ (if leb (ignored + commas field) 128 then some (ignored + commas field, []) else none)
unfolding skip_empty_elements commas every ignore_empty_element
skip_empty_elements-commas ignored [] h e = ground arith
skip_empty_elements-commas ignored (c ∷ cs) h e = elim (Bool-cases (c == b',')) [
  | inr n ↦ let rest = skip_empty_elements-commas ignored cs h (ground arith) in ground arith
  | inl s ↦ elim (Bool-cases (ltb 128 (ignored + 1))) [
    | inl over ↦ ground arith
    | inr fits ↦
        let rest = skip_empty_elements-commas (ignored + 1) cs (ground arith) (ground arith) in
        let sum : (ignored + 1) + commas cs ≡ ignored + suc (commas cs) = omega arith in
        ground arith
  ]
]

parse_field-commas :
    (ignored : ℕ) (field : List ℕ)
    → ignored ≤ 128
    → IsEmptyField field
    → parse_field ignored field
      ≡ ([], if leb (ignored + commas field) 128 then some (ignored + commas field) else none)
unfolding parse_field parse_elements
parse_field-commas ignored field h e =
    let read = skip_empty_elements-commas ignored field h e in
    elim (Bool-cases (leb (ignored + commas field) 128)) [
      | inl fits ↦ ground arith
      | inr over ↦ ground arith
    ]

parse_fields-commas :
    (ignored : ℕ) (fields : List (List ℕ))
    → ignored ≤ 128
    → All IsEmptyField fields
    → parse_fields ignored fields ≡ (
      [],
      if leb (ignored + all_commas fields) 128 then some (ignored + all_commas fields) else none,
    )
unfolding parse_fields all_commas
parse_fields-commas ignored [] h e = ground arith
parse_fields-commas ignored (f ∷ fs) h e =
    let read = parse_field-commas ignored f h e.0 in
    elim (Bool-cases (leb (ignored + commas f) 128)) [
      | inl fits ↦
          let rest = parse_fields-commas (ignored + commas f) fs (ground arith) e.1 in
          let sum : (ignored + commas f) + all_commas fs ≡ ignored + (commas f + all_commas fs) =
            omega arith in
          let here : parse_field ignored f ≡ ([], some (ignored + commas f)) = ground arith in
          rw (here) (rest ∙ rw sum refl)
      | inr over ↦
          let here : parse_field ignored f ≡ ([], none) = ground arith in
          let beyond : leb (ignored + (commas f + all_commas fs)) 128 ≡ false = ground arith in
          rw (here, beyond) refl
    ]

-- Fields of commas and white space only are ignored, with no target visited, exactly when there are
-- at most 128 commas in all of them; with one more the header is malformed.
pub parse_link_header_fields-all_commas :
    (fields : List (List ℕ))
    → All IsEmptyField fields
    → parse_link_header_fields fields
      ≡ record { visited = []; well_formed = leb (all_commas fields) 128 }
unfolding parse_link_header_fields
parse_link_header_fields-all_commas fields e =
    let start : 0 + all_commas fields ≡ all_commas fields = omega arith in
    let read : parse_fields 0 fields
        ≡ ([], if leb (all_commas fields) 128 then some (all_commas fields) else none) =
      parse_fields-commas 0 fields (omega arith) e ∙ rw start refl in
    ap link_values read ∙ ended (all_commas fields) (leb (all_commas fields) 128)
  where
    ended :
        (total : ℕ) (b : Bool)
        → link_values ([], if b then some total else none)
          ≡ record { visited = []; well_formed = b }
    ended total true = refl
    ended total false = refl
