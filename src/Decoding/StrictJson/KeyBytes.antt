-- ===== src/Decoding/StrictJson/KeyBytes.antt =====
-- The bytes that a key of src/runtime/decoding/strict_json_reader.cpp keeps, and what it equals.
use cuac.Common.{
  ℕ, ◌≤◌, ◌≡◌, inl, inr, refl, sym, true, false, ◌&&◌, List, [], ◌∷◌, ◌++◌, length, length-append,
  ltb, leb, arith, Bool-cases, same_bytes,
}
use mathlib.Core.List.{append-nil, append_assoc}
use cuac.Decoding.StrictJson.Keys.{StrictJsonObjectKey, append, append_all, key_equals}

pub append_all-append :
    (key : StrictJsonObjectKey) (xs ys : List ℕ)
    → append_all (append_all key xs) ys ≡ append_all key (xs ++ ys)
unfolding append_all
append_all-append key [] ys = refl
append_all-append key (x ∷ xs) ys = append_all-append (append key x) xs ys

overflow_lem :
    (text : List ℕ) (key : StrictJsonObjectKey) (expected : List ℕ)
    → key.overflow ≡ true
    → key_equals (append_all key text) expected ≡ false
unfolding append_all append key_equals
overflow_lem [] key expected h = ground arith
overflow_lem (x ∷ xs) key expected h = overflow_lem xs (append key x) expected (ground arith)

append-room :
    (key : StrictJsonObjectKey) (x : ℕ)
    → ltb (length key.bytes) 64 ≡ true
    → append key x ≡ record key { bytes = key.bytes ++ (x ∷ []) }
unfolding append
append-room key x e = rw e refl

append-full :
    (key : StrictJsonObjectKey) (x : ℕ)
    → ltb (length key.bytes) 64 ≡ false
    → append key x ≡ record key { overflow = true }
unfolding append
append-full key x e = rw e refl

no_overflow_lem :
    (key : StrictJsonObjectKey) (expected : List ℕ)
    → key.overflow ≡ false
    → length key.bytes ≤ 64
    → key_equals key expected ≡ (leb (length key.bytes) 64 && same_bytes expected key.bytes)
unfolding key_equals
no_overflow_lem key expected h l =
    let fits : leb (length key.bytes) 64 ≡ true = ground arith in rw (h, fits) refl

pub append_all_lem :
    (text : List ℕ) (key : StrictJsonObjectKey) (expected : List ℕ)
    → key.overflow ≡ false
    → length key.bytes ≤ 64
    → key_equals (append_all key text) expected
      ≡ (leb (length (key.bytes ++ text)) 64 && same_bytes expected (key.bytes ++ text))
unfolding append_all
append_all_lem [] key expected h l = rw (append-nil key.bytes) (no_overflow_lem key expected h l)
append_all_lem (x ∷ xs) key expected h l = elim (Bool-cases (ltb (length key.bytes) 64)) [
  | inl e ↦ rw (append-room key x e) (
      rw (sym (append_assoc key.bytes (x ∷ []) xs)) (
        append_all_lem xs (record key { bytes = key.bytes ++ (x ∷ []) }) expected h
          (ground (arith, length-append key.bytes (x ∷ [])))))
  | inr e ↦
      let long : leb (length (key.bytes ++ (x ∷ xs))) 64 ≡ false =
        ground (arith, length-append key.bytes (x ∷ xs)) in
      rw (append-full key x e, long)
        (overflow_lem xs (record key { overflow = true }) expected refl)
]
