-- ===== src/Pagination/Link/Target.antt =====
-- The check of a continuation's target, src/runtime/pagination/link_pagination.cpp. Text is a list of
-- bytes.
use cuac.Common.{
  ℕ, zero, suc, ◌+◌, ◌-◌, ◌*◌, ◌/◌, ◌%◌, Bool, true, false, not, ◌||◌, Option, none, some, List, [],
  ◌∷◌, ◌++◌, ltb, ◌==◌, if◌then◌else◌, same_bytes,
}

-- `LinkPaginationErrorKind`.
pub data LinkPaginationErrorKind : Type 0 where
  malformed policy state : LinkPaginationErrorKind

pub data Result (A : Type 0) : Type 0 where
  ok : A → Result A
  throw : LinkPaginationErrorKind → Result A

infixl 5 ◌>>=◌
abbrev pub ◌>>=◌ : {A B : Type 0} → Result A → (A → Result B) → Result B
ok a >>= f = f a
throw e >>= f = throw e

-- What the traversal reads of an AdmittedPaginatedRestRequestProfile.
pub record Profile : Type 0 where
  pub scheme : List ℕ
  pub host : List ℕ
  pub port : ℕ
  pub path : List ℕ
  pub page_number_parameter : List ℕ
  pub first_page : ℕ
  pub page_size : ℕ
  pub page_increment : ℕ

-- `std::numeric_limits<uint64_t>::max()`.
abbrev pub u64_max : ℕ
u64_max = 18446744073709551615

-- The loop of `ParsePositiveDecimal`.
unfoldable pub decimal_digits : List ℕ → ℕ → Result ℕ
decimal_digits [] result = ok result
decimal_digits (c ∷ cs) result =
    let digit = c - b'0' in
    let rest = decimal_digits cs (result * 10 + digit) in
    if ltb c b'0' || ltb b'9' c
    then throw policy
    else if ltb ((u64_max - digit) / 10) result
    then throw policy
    else rest

unfoldable pub parse_positive_decimal : List ℕ → Result ℕ
parse_positive_decimal [] = throw policy
parse_positive_decimal (c ∷ cs) =
    if ltb c b'1' || ltb b'9' c then throw policy else decimal_digits (c ∷ cs) 0

-- What follows a prefix.
unfoldable pub strip_prefix : List ℕ → List ℕ → Option (List ℕ)
strip_prefix [] text = some text
strip_prefix (p ∷ ps) [] = none
strip_prefix (p ∷ ps) (c ∷ cs) = let rest = strip_prefix ps cs in if p == c then rest else none

-- `std::to_string`, of a number below 10 ^ fuel, before what follows.
unfoldable pub decimal_text : ℕ → ℕ → List ℕ → List ℕ
decimal_text zero n after = after
decimal_text (suc fuel) n after =
    let earlier = decimal_text fuel (n / 10) ((b'0' + n % 10) ∷ after) in
    if ltb n 10 then (b'0' + n) ∷ after else earlier

unfoldable pub has_byte : ℕ → List ℕ → Bool
has_byte b [] = false
has_byte b (c ∷ cs) = c == b || has_byte b cs

abbrev pub is_empty : List ℕ → Bool
is_empty [] = true
is_empty _ = false

abbrev onto_first : ℕ → List (List ℕ) → List (List ℕ)
onto_first c [] = (c ∷ []) ∷ []
onto_first c (f ∷ fs) = (c ∷ f) ∷ fs

-- The fields between the separators; a separator at the end leaves an empty field behind it.
unfoldable pub split_fields : List ℕ → List (List ℕ)
split_fields [] = [] ∷ []
split_fields (c ∷ cs) = let fs = split_fields cs in if c == b'&' then [] ∷ fs else onto_first c fs

-- What stands before and after the first equals sign.
unfoldable pub split_equals : List ℕ → Option (List ℕ × List ℕ)
split_equals [] = none
split_equals (c ∷ cs) =
    let found = split_equals cs in
    if c == b'='
    then some ([], cs)
    else elim found [ none ↦ none | some (name, value) ↦ some (c ∷ name, value) ]

unfoldable pub is_received : List ℕ → List (List ℕ) → Bool
is_received name [] = false
is_received name (n ∷ ns) = same_bytes n name || is_received name ns

-- One turn of the loop on the query's fields: the name, and the page after it.
unfoldable pub query_field : List ℕ → List (List ℕ) → ℕ → List ℕ → Result (List ℕ × ℕ)
query_field parameter received page field = elim (split_equals field) [
  | none ↦ throw policy
  | some (name, value) ↦
      if is_empty name || has_byte b'=' value || is_received name received
      then throw policy
      else if same_bytes name parameter
      then (do page ← parse_positive_decimal value; ok (name, page))
      else ok (name, page)
]

-- The loop; only the names of the fields received are read again.
unfoldable pub query_fields : List ℕ → List (List ℕ) → ℕ → List (List ℕ) → Result ℕ
query_fields parameter received page [] = ok page
query_fields parameter received page (f ∷ fs) = do
  (name, page) ← query_field parameter received page f
  query_fields parameter (name ∷ received) page fs

-- What follows the origin: the port may be left out where it is the default of https.
unfoldable pub strip_port : Profile → List ℕ → Result (List ℕ)
strip_port profile text = elim (strip_prefix (b':' ∷ decimal_text 5 profile.port []) text) [
  | some rest ↦ ok rest
  | none ↦
      if not (same_bytes profile.scheme (b'h' ∷ b't' ∷ b't' ∷ b'p' ∷ b's' ∷ []))
        || not (profile.port == 443)
      then throw policy
      else ok text
]

unfoldable pub expect_prefix : List ℕ → List ℕ → Result (List ℕ)
expect_prefix prefix text = elim (strip_prefix prefix text) [
  | none ↦ throw policy
  | some rest ↦ ok rest
]

-- The page that a target has to name.
unfoldable pub check_page : Profile → ℕ → ℕ → Result ℕ
check_page profile current_page parsed_page =
    if ltb (u64_max - profile.page_increment) current_page
    then throw policy
    else if not (parsed_page == current_page + profile.page_increment)
    then throw policy
    else ok parsed_page

unfoldable pub parse_page : Profile → List ℕ → Result ℕ
parse_page profile target = do
  rest ← expect_prefix (profile.scheme ++ (b':' ∷ b'/' ∷ b'/' ∷ profile.host)) target
  rest ← strip_port profile rest
  query ← expect_prefix (profile.path ++ (b'?' ∷ [])) rest
  if is_empty query || has_byte b'#' query
      then throw policy
      else query_fields profile.page_number_parameter [] 0 (split_fields query)

unfoldable pub validate_next_target : Profile → List ℕ → ℕ → Result ℕ
validate_next_target profile target current_page = do
  parsed_page ← parse_page profile target
  check_page profile current_page parsed_page
