-- ===== src/Decoding/StrictJson/Nesting.antt =====
-- The nesting budget of `SkipValue`, src/runtime/decoding/strict_json_reader.cpp.
use cuac.Common.{
  ℕ, zero, suc, ◌+◌, ◌≤◌, ◌<◌, ◌≡◌, inl, inr, refl, Bool, true, false, List, [], ◌∷◌, length, ltb,
  leb, if◌then◌else◌, arith, Bool-cases, absurd, Option, none, some,
}
use cuac.Transport.Chunked.Control.{ExecutionControl}
use cuac.Decoding.StrictJson.Reader.{
  Reader, Failure, json_nesting, Result, ok, err, M, check, next_byte, skip_whitespace,
  skip_whitespace_loop, expect, separator, require_object_key, require_more, turns, loop,
}
use cuac.Decoding.StrictJson.Skips.{skip_string, skip_turn}
use cuac.Decoding.StrictJson.Values.{
  array_turn, skip_array, skip_object, object_turn, skip_by_first, require_depth, skip_value,
  require_end, validate_document,
}

-- An execution that is not cancelled and not late.
abbrev pub uninterrupted : ExecutionControl
uninterrupted = record { cancelled = λ _. false; late = λ _. false }

-- A reader at some bytes after some checks, with a nesting budget.
abbrev pub reader_at : ℕ → ℕ → List ℕ → Reader
reader_at budget checks input = record {
  rest = input;
  checks = checks;
  control = uninterrupted;
  max_json_nesting = budget;
}

abbrev pub failure_of : {A : Type 0} → Result A → Option Failure
failure_of (ok a r) = none
failure_of (err e) = some e

-- A level of a document: an array of one value, or an object of one member with an empty key.
pub data Level : Type 0 where
  in_array in_object : Level

-- An empty array under some levels, from the outermost on: its first byte, and what follows before
-- some other bytes.
abbrev pub first : List Level → ℕ
first [] = b'['
first (in_array ∷ ls) = b'['
first (in_object ∷ ls) = b'{'

abbrev pub inside : List Level → List ℕ → List ℕ
inside [] cs = b']' ∷ cs
inside (in_array ∷ ls) cs = first ls ∷ inside ls (b']' ∷ cs)
inside (in_object ∷ ls) cs = b'"' ∷ b'"' ∷ b':' ∷ first ls ∷ inside ls (b'}' ∷ cs)

abbrev pub nested : List Level → List ℕ → List ℕ
nested ls cs = first ls ∷ inside ls cs

module _ (budget : ℕ) where
  -- What a reading comes to: it skips some bytes, or is over the nesting budget.
  abbrev Comes : Bool → Result (Unit {0}) → List ℕ → Type 0
  Comes true x cs = (k' : ℕ) × (x ≡ ok tt (reader_at budget k' cs))
  Comes false x cs = x ≡ err json_nesting

  module _ (inner : M (Unit {0})) where
    skip_empty :
        (k : ℕ) (cs : List ℕ) → Comes true (skip_array inner (reader_at budget k (nested [] cs))) cs
    unfolding skip_array expect check next_byte skip_whitespace skip_whitespace_loop loop turns
        array_turn
    skip_empty k cs = (_, refl)

    skip_in_array :
        (fits : Bool) (ls : List Level) (k : ℕ) (cs : List ℕ)
        → Comes fits (inner (reader_at budget (k + 1 + 1) (nested ls (b']' ∷ cs)))) (b']' ∷ cs)
        → Comes fits (skip_array inner (reader_at budget k (nested (in_array ∷ ls) cs))) cs
    unfolding skip_array expect check next_byte skip_whitespace skip_whitespace_loop loop turns
        array_turn separator
    skip_in_array true [] k cs (k', e) = (k' + 1 + 1, rw e refl)
    skip_in_array true (in_array ∷ ls) k cs (k', e) = (k' + 1 + 1, rw e refl)
    skip_in_array true (in_object ∷ ls) k cs (k', e) = (k' + 1 + 1, rw e refl)
    skip_in_array false [] k cs e = rw e refl
    skip_in_array false (in_array ∷ ls) k cs e = rw e refl
    skip_in_array false (in_object ∷ ls) k cs e = rw e refl

    skip_in_object :
        (fits : Bool) (ls : List Level) (k : ℕ) (cs : List ℕ)
        → Comes fits
            (inner (reader_at budget (k + 1 + 1 + 1 + 1 + 1 + 1) (nested ls (b'}' ∷ cs))))
            (b'}' ∷ cs)
        → Comes fits (skip_object inner (reader_at budget k (nested (in_object ∷ ls) cs))) cs
    unfolding skip_object expect check next_byte skip_whitespace skip_whitespace_loop loop turns
        object_turn separator require_object_key skip_string skip_turn require_more
    skip_in_object true ls k cs (k', e) = (k' + 1 + 1, rw e refl)
    skip_in_object false ls k cs e = rw e refl

  module _ (fuel depth k : ℕ) where
    below :
        (fits : Bool) (ls : List Level) (cs : List ℕ)
        → ltb budget depth ≡ false
        → Comes fits
            (skip_by_first
              (skip_value fuel (depth + 1))
              (first ls)
              (reader_at budget (k + 1) (nested ls cs)))
            cs
        → Comes fits (skip_value (suc fuel) depth (reader_at budget k (nested ls cs))) cs
    unfolding skip_value skip_whitespace skip_whitespace_loop check require_depth
    below fits [] cs e h = rw e h
    below fits (in_array ∷ ls) cs e h = rw e h
    below fits (in_object ∷ ls) cs e h = rw e h

    too_deep :
        (ls : List Level) (cs : List ℕ)
        → ltb budget depth ≡ true
        → skip_value (suc fuel) depth (reader_at budget k (nested ls cs)) ≡ err json_nesting
    unfolding skip_value skip_whitespace skip_whitespace_loop check require_depth
    too_deep [] cs e = rw e refl
    too_deep (in_array ∷ ls) cs e = rw e refl
    too_deep (in_object ∷ ls) cs e = rw e refl

  skip_nested :
      (ls : List Level) (fuel depth k : ℕ) (cs : List ℕ)
      → depth ≤ budget + 1
      → budget + 1 < depth + fuel
      → Comes
          (leb (depth + length ls) budget)
          (skip_value fuel depth (reader_at budget k (nested ls cs)))
          cs
  unfolding skip_by_first
  skip_nested ls zero depth k cs h f = absurd (omega arith)
  skip_nested ls (suc fuel) depth k cs h f = elim (Bool-cases (ltb budget depth)) [
    | inl e ↦
        let over : leb (depth + length ls) budget ≡ false = ground arith in
        rw over (too_deep fuel depth k ls cs e)
    | inr e ↦
        below fuel depth k (leb (depth + length ls) budget) ls cs e
          (level e ls λ ls k cs. skip_nested ls fuel (depth + 1) k cs (ground arith) (omega arith))
  ]
    where
      level :
          ltb budget depth ≡ false
          → (ls : List Level)
          → ((ls : List Level) (k : ℕ) (cs : List ℕ)
              → Comes
                  (leb (depth + 1 + length ls) budget)
                  (skip_value fuel (depth + 1) (reader_at budget k (nested ls cs)))
                  cs)
          → Comes
              (leb (depth + length ls) budget)
              (skip_by_first
                (skip_value fuel (depth + 1))
                (first ls)
                (reader_at budget (k + 1) (nested ls cs)))
              cs
      level e [] ih =
          let fits : leb (depth + 0) budget ≡ true = ground arith in
          rw fits (skip_empty (skip_value fuel (depth + 1)) (k + 1) cs)
      level e (in_array ∷ ls) ih =
          let same : depth + suc (length ls) ≡ depth + 1 + length ls = omega arith in
          rw same (skip_in_array (skip_value fuel (depth + 1)) _ ls (k + 1) cs (ih ls _ _))
      level e (in_object ∷ ls) ih =
          let same : depth + suc (length ls) ≡ depth + 1 + length ls = omega arith in
          rw same (skip_in_object (skip_value fuel (depth + 1)) _ ls (k + 1) cs (ih ls _ _))

document :
    (budget : ℕ) (fits : Bool) (ls : List Level)
    → Comes budget fits (skip_value (budget + 2) 0 (reader_at budget 1 (nested ls []))) []
    → failure_of (validate_document (reader_at budget 0 (nested ls [])))
      ≡ (if fits then none else some json_nesting)
unfolding validate_document require_end skip_whitespace skip_whitespace_loop check
document budget true [] (k, e) = rw e refl
document budget true (in_array ∷ ls) (k, e) = rw e refl
document budget true (in_object ∷ ls) (k, e) = rw e refl
document budget false [] e = rw e refl
document budget false (in_array ∷ ls) e = rw e refl
document budget false (in_object ∷ ls) e = rw e refl

-- The nesting budget is exact: a document that is an empty array under arrays and objects, one in the
-- other in any order, is accepted by an execution that is not interrupted if the budget is their
-- number at least, and is refused for its nesting if it is less.
pub validate_document-nested :
    (budget : ℕ) (ls : List Level)
    → failure_of (validate_document (reader_at budget 0 (nested ls [])))
      ≡ (if leb (length ls) budget then none else some json_nesting)
validate_document-nested budget ls =
    let none_above : length ls ≡ 0 + length ls = omega arith in
    document budget (leb (length ls) budget) ls
      (rw none_above (skip_nested budget ls (budget + 2) 0 1 [] (omega arith) (omega arith)))
