-- ===== src/Pagination/Uri/Address.antt =====
-- The literal addresses of a URI's host, src/runtime/pagination/uri_reference.cpp.
use cuac.Common.{
  ℕ, suc, ◌+◌, ◌-◌, ◌*◌, Bool, true, false, not, ◌&&◌, ◌||◌, Option, none, some, List, [], ◌∷◌,
  ◌++◌, length, ltb, leb, ◌==◌, if◌then◌else◌,
}
use cuac.Pagination.Link.Target.{has_byte, is_empty}
use cuac.Pagination.Uri.Text.{
  is_ascii_digit, is_hex_digit, is_unreserved, is_sub_delimiter, every, split_on, no_pieces,
}

-- The value of the digits, on 3 bytes at most.
unfoldable pub octet_value : List ℕ → ℕ → ℕ
octet_value [] result = result
octet_value (c ∷ cs) result = octet_value cs (result * 10 + (c - b'0'))

unfoldable pub starts_with_zero : List ℕ → Bool
starts_with_zero (c ∷ cs) = c == b'0'
starts_with_zero [] = false

unfoldable pub validate_decimal_octet : List ℕ → Bool
validate_decimal_octet value =
    not (is_empty value || ltb 3 (length value) || ltb 1 (length value) && starts_with_zero value)
    && every is_ascii_digit value
    && leb (octet_value value 0) 255

unfoldable pub all_octets : List (List ℕ) → Bool
all_octets [] = true
all_octets (o ∷ os) = validate_decimal_octet o && all_octets os

unfoldable pub validate_ipv4_address : List ℕ → Bool
validate_ipv4_address value =
    let components = split_on b'.' value in all_octets components && length components == 4

abbrev pub none_empty : List (List ℕ) → Bool
none_empty [] = true
none_empty (s ∷ ss) = not (is_empty s) && none_empty ss

unfoldable pub split_ipv6_side : List ℕ → Option (List (List ℕ))
split_ipv6_side [] = some []
split_ipv6_side (c ∷ cs) =
    let segments = split_on b':' (c ∷ cs) in if none_empty segments then some segments else none

-- `find("::")`: what stands before and after the first compression.
unfoldable pub find_compression : List ℕ → Option (List ℕ × List ℕ)
find_compression [] = none
find_compression (c ∷ []) = none
find_compression (c ∷ d ∷ cs) =
    let found = find_compression (d ∷ cs) in
    if c == b':' && d == b':'
    then some ([], cs)
    else elim found [ none ↦ none | some (before, after) ↦ some (c ∷ before, after) ]

unfoldable pub is_group : List ℕ → Bool
is_group segment = not (is_empty segment || ltb 4 (length segment)) && every is_hex_digit segment

-- The loop on the segments: how many units of 16 bits they stand for. The flag says that the
-- compression is at the end.
unfoldable pub count_units : Bool → List (List ℕ) → Option ℕ
count_units compression_follows [] = some 0
count_units compression_follows (s ∷ ss) =
    let rest = count_units compression_follows ss in
    if has_byte b'.' s
    then if not (no_pieces ss) || compression_follows || not (validate_ipv4_address s)
      then none
      else some 2
    else if is_group s
    then elim rest [ none ↦ none | some units ↦ some (suc units) ]
    else none

unfoldable pub validate_ipv6_address : List ℕ → Bool
validate_ipv6_address value = elim (find_compression value) [
  | none ↦ elim (split_ipv6_side value) [
    | none ↦ false
    | some segments ↦ elim (count_units false segments) [ none ↦ false | some units ↦ units == 8 ]
  ]
  | some (before, after) ↦ elim (find_compression after) [
    | some _ ↦ false
    | none ↦ elim (split_ipv6_side before) [
      | none ↦ false
      | some left ↦ elim (split_ipv6_side after) [
        | none ↦ false
        | some right ↦ elim (count_units (no_pieces right) (left ++ right)) [
          | none ↦ false
          | some units ↦ ltb units 8
        ]
      ]
    ]
  ]
]

-- The version's digits, whether one was there, and what follows them.
unfoldable pub ipv_future_version : Bool → List ℕ → Bool
ipv_future_version seen [] = false
ipv_future_version seen (c ∷ cs) =
    let rest = ipv_future_version true cs in
    if is_hex_digit c
    then rest
    else seen
      && c == b'.'
      && not (is_empty cs)
      && every (λ b. is_unreserved b || is_sub_delimiter b || b == b':') cs

unfoldable pub validate_ipv_future : List ℕ → Bool
validate_ipv_future [] = false
validate_ipv_future (v ∷ rest) =
    not (ltb (length rest) 3) && (v == b'v' || v == b'V') && ipv_future_version false rest

unfoldable pub validate_ip_literal : List ℕ → Bool
validate_ip_literal value = validate_ipv6_address value || validate_ipv_future value
