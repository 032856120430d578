-- ===== src/Pagination/Link/Continuation.antt =====
-- The target that names the next page, written and read, src/runtime/pagination/link_pagination.cpp.
use cuac.Common.{
  ℕ, zero, suc, ◌+◌, ◌-◌, ◌*◌, ◌/◌, ◌%◌, ◌≤◌, ◌<◌, ◌≡◌, inl, inr, refl, ap, sym, ◌∙◌, Bool, true,
  false, not, ◌||◌, some, List, [], ◌∷◌, ◌++◌, ltb, ◌==◌, arith, Bool-cases, absurd, same_bytes,
}
use cuac.Pagination.Link.Target.{
  ok, Profile, u64_max, decimal_digits, parse_positive_decimal, strip_prefix, decimal_text,
  has_byte, is_empty, split_fields, split_equals, is_received, query_field, query_fields,
  strip_port, expect_prefix, check_page, parse_page, validate_next_target,
}
use cuac.Pagination.Uri.Pieces.{has_byte-append}

-- That so many digits are enough for a number.
unfoldable pub fits : ℕ → ℕ → Bool
fits zero n = false
fits (suc fuel) n = ltb n 10 || fits fuel (n / 10)

fits_mono : (fuel n m : ℕ) → n ≤ m → fits fuel m ≡ true → fits fuel n ≡ true
unfolding fits
fits_mono zero n m h e = e
fits_mono (suc fuel) n m h e = elim (Bool-cases (ltb m 10)) [
  | inl small ↦ ground arith
  | inr large ↦
      let rest = fits_mono fuel (n / 10) (m / 10) (ground arith) (ground arith) in ground arith
]

fits_u64 : (n : ℕ) → n ≤ u64_max → fits 20 n ≡ true
fits_u64 n h = fits_mono 20 n u64_max h (unfold fits in refl)

one_digit :
    (d r : ℕ) (after : List ℕ)
    → d ≤ 9
    → r * 10 + d ≤ u64_max
    → decimal_digits ((b'0' + d) ∷ after) r ≡ decimal_digits after (r * 10 + d)
unfolding decimal_digits
one_digit d r after h k =
    let digit : (b'0' + d) - b'0' ≡ d = omega arith in
    let low : (ltb (b'0' + d) b'0' || ltb b'9' (b'0' + d)) ≡ false = ground arith in
    let fit : ltb ((u64_max - d) / 10) r ≡ false = ground arith in
    rw (decimal_digits, digit, low, fit) refl

-- The digits are read back.
decimal_digits-decimal_text :
    (fuel n : ℕ) (after : List ℕ)
    → n ≤ u64_max
    → fits fuel n ≡ true
    → decimal_digits (decimal_text fuel n after) 0 ≡ decimal_digits after n
unfolding decimal_digits decimal_text fits
decimal_digits-decimal_text zero n after h e = ground arith
decimal_digits-decimal_text (suc fuel) n after h e = elim (Bool-cases (ltb n 10)) [
  | inl small ↦
      let whole : 0 * 10 + n ≡ n = omega arith in
      rw (decimal_text, small)
        (one_digit n 0 after (ground arith) (omega (arith, h)) ∙ rw whole refl)
  | inr large ↦
      let rest =
        decimal_digits-decimal_text fuel (n / 10) ((b'0' + n % 10) ∷ after) (ground arith)
          (ground arith) in
      let whole : n / 10 * 10 + n % 10 ≡ n = omega arith in
      rw (decimal_text, large)
        (rest ∙ one_digit (n % 10) (n / 10) after (omega arith) (omega (arith, h)) ∙ rw whole refl)
]

-- The first digit of a positive number is not 0.
first_digit :
    (fuel n : ℕ) (after : List ℕ)
    → 0 < n
    → fits fuel n ≡ true
    → (c : ℕ) × (cs : List ℕ) × (decimal_text fuel n after ≡ c ∷ cs) × (b'1' ≤ c) × (c ≤ b'9')
unfolding decimal_text fits
first_digit zero n after h e = absurd (ground arith)
first_digit (suc fuel) n after h e = elim (Bool-cases (ltb n 10)) [
  | inl small ↦ (b'0' + n, after, ground arith, ground arith, ground arith)
  | inr large ↦
      let (c, cs, k, low, high) =
        first_digit fuel (n / 10) ((b'0' + n % 10) ∷ after) (ground arith) (ground arith) in
      (c, cs, ground arith, low, high)
]

pub parse_positive_decimal-decimal_text :
    (n : ℕ) → 0 < n → n ≤ u64_max → parse_positive_decimal (decimal_text 20 n []) ≡ ok n
unfolding parse_positive_decimal
parse_positive_decimal-decimal_text n h k =
    let enough = fits_u64 n k in
    let (c, cs, e, low, high) = first_digit 20 n [] h enough in
    let read = decimal_digits-decimal_text 20 n [] k enough in
    let low : (ltb c b'1' || ltb b'9' c) ≡ false = ground arith in
    let same : decimal_digits (c ∷ cs) 0 ≡ ok n =
      ap (λ t. decimal_digits t 0) (sym e) ∙ read ∙ unfold decimal_digits in refl in
    rw (e, parse_positive_decimal, low) same

strip_prefix-append : (p text : List ℕ) → strip_prefix p (p ++ text) ≡ some text
unfolding strip_prefix
strip_prefix-append [] text = refl
strip_prefix-append (c ∷ cs) text = ground (arith, strip_prefix-append cs text)

digits_only :
    (b fuel n : ℕ) (after : List ℕ)
    → (ltb b b'0' || ltb b'9' b) ≡ true
    → has_byte b after ≡ false
    → has_byte b (decimal_text fuel n after) ≡ false
unfolding has_byte decimal_text
digits_only b zero n after h e = e
digits_only b (suc fuel) n after h e =
    let rest = digits_only b fuel (n / 10) ((b'0' + n % 10) ∷ after) h (ground arith) in
    ground arith

split_fields_one : (text : List ℕ) → has_byte b'&' text ≡ false → split_fields text ≡ text ∷ []
unfolding has_byte split_fields
split_fields_one [] h = refl
split_fields_one (c ∷ cs) h = let rest = split_fields_one cs in ground arith

split_equals-append :
    (name value : List ℕ)
    → has_byte b'=' name ≡ false
    → split_equals (name ++ (b'=' ∷ value)) ≡ some (name, value)
unfolding has_byte split_equals
split_equals-append [] value h = ground arith
split_equals-append (c ∷ cs) value h = let rest = split_equals-append cs value in ground arith

-- The query that names a page.
unfoldable pub page_query : Profile → ℕ → List ℕ
page_query profile page = profile.page_number_parameter ++ (b'=' ∷ decimal_text 20 page [])

-- The URL of a page, with the port written out.
unfoldable pub page_url : Profile → ℕ → List ℕ
page_url profile page =
    (profile.scheme ++ (b':' ∷ b'/' ∷ b'/' ∷ profile.host))
    ++ ((b':' ∷ decimal_text 5 profile.port [])
        ++ ((profile.path ++ (b'?' ∷ [])) ++ page_query profile page))

-- A parameter's name that a query can hold.
unfoldable pub is_parameter_name : List ℕ → Bool
is_parameter_name name =
    not (is_empty name || has_byte b'=' name || has_byte b'&' name || has_byte b'#' name)

same_bytes_refl : (xs : List ℕ) → same_bytes xs xs ≡ true
unfolding same_bytes
same_bytes_refl [] = refl
same_bytes_refl (x ∷ xs) = let rest = same_bytes_refl xs in ground arith

no_mark :
    (b : ℕ) (profile : Profile) (page : ℕ)
    → (ltb b b'0' || ltb b'9' b) ≡ true
    → has_byte b profile.page_number_parameter ≡ false
    → (b'=' == b) ≡ false
    → has_byte b (page_query profile page) ≡ false
unfolding page_query has_byte
no_mark b profile page low name other =
    let digits = digits_only b 20 page [] low refl in
    let both = has_byte-append b profile.page_number_parameter (b'=' ∷ decimal_text 20 page []) in
    ground arith

query_field-page_query :
    (profile : Profile) (page : ℕ)
    → is_parameter_name profile.page_number_parameter ≡ true
    → 0 < page
    → page ≤ u64_max
    → query_field profile.page_number_parameter [] 0 (page_query profile page)
      ≡ ok (profile.page_number_parameter, page)
unfolding query_field page_query is_parameter_name is_received has_byte
query_field-page_query profile page n h k =
    let name = profile.page_number_parameter in
    let value = decimal_text 20 page [] in
    let split = split_equals-append name value (ground arith) in
    let digits = digits_only b'=' 20 page [] refl refl in
    let same = same_bytes_refl name in
    let read = parse_positive_decimal-decimal_text page h k in
    let full : is_empty name ≡ false = ground arith in
    rw (query_field, split, full, digits, same, read) refl

page_query_full :
    (profile : Profile) (page : ℕ)
    → is_empty profile.page_number_parameter ≡ false
    → is_empty (page_query profile page) ≡ false
unfolding page_query
page_query_full profile page h = go profile.page_number_parameter h
  where
    go :
        (name : List ℕ)
        → is_empty name ≡ false
        → is_empty (name ++ (b'=' ∷ decimal_text 20 page [])) ≡ false
    go [] h = refl
    go (c ∷ cs) h = refl

-- The URL of the page after the current one, written by a server, is what the traversal goes on to.
pub validate_next_target-page_url :
    (profile : Profile) (current_page page : ℕ)
    → is_parameter_name profile.page_number_parameter ≡ true
    → page ≡ current_page + profile.page_increment
    → 0 < page
    → page ≤ u64_max
    → validate_next_target profile (page_url profile page) current_page ≡ ok page
unfolding validate_next_target parse_page expect_prefix strip_port page_url is_parameter_name
    check_page
validate_next_target-page_url profile current_page page n e h k =
    let query = page_query profile page in
    let path = profile.path ++ (b'?' ∷ []) in
    let port = b':' ∷ decimal_text 5 profile.port [] in
    let origin =
      strip_prefix-append (profile.scheme ++ (b':' ∷ b'/' ∷ b'/' ∷ profile.host))
        (port ++ (path ++ query)) in
    let ported = strip_prefix-append port (path ++ query) in
    let rooted = strip_prefix-append path query in
    let hash : has_byte b'#' query ≡ false = no_mark b'#' profile page refl (ground arith) refl in
    let amp : has_byte b'&' query ≡ false = no_mark b'&' profile page refl (ground arith) refl in
    let split = split_fields_one query amp in
    let field = query_field-page_query profile page n h k in
    let read : query_fields profile.page_number_parameter [] 0 (query ∷ []) ≡ ok page =
      unfold query_fields in rw field refl in
    rw (validate_next_target, parse_page, expect_prefix, origin, strip_port, ported, rooted)
      (rw (page_query_full profile page (ground arith), hash, split, read) (ground arith))
