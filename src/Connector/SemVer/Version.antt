-- ===== src/Connector/SemVer/Version.antt =====
-- `PackageSemVer` of src/connector/model/package_semver.cpp.
use cuac.Common.{
  ℕ, ◌+◌, ◌-◌, ◌*◌, ◌/◌, ◌%◌, Bool, true, false, not, ◌&&◌, ◌||◌, Option, none, some, List, [], ◌∷◌,
  ltb, leb, ◌==◌, if◌then◌else◌,
}
use cuac.Common.Int.{ℤ, pos, negsuc}

-- The two messages of the `std::invalid_argument` that `Parse` throws.
pub data InvalidArgument : Type 0 where
  not_canonical exceeds_uint32 : InvalidArgument

pub data Result (A : Type 0) : Type 0 where
  ok : A → Result A
  throw : InvalidArgument → Result A

infixl 5 ◌>>=◌
abbrev pub ◌>>=◌ : {A B : Type 0} → Result A → (A → Result B) → Result B
ok a >>= f = f a
throw e >>= f = throw e

pub record PackageSemVer : Type 0 where
  pub major : ℕ
  pub minor : ℕ
  pub patch : ℕ
  pub canonical : List ℕ

-- `std::numeric_limits<std::uint32_t>::max()`.
abbrev pub u32_max : ℕ
u32_max = 4294967295

abbrev pub is_ascii_digit : ℕ → Bool
is_ascii_digit c = leb b'0' c && leb c b'9'

-- The loop of `ParseComponent`.
unfoldable pub component_digits : List ℕ → ℕ → Result ℕ
component_digits [] value = ok value
component_digits (c ∷ cs) value =
    let digit = c - b'0' in
    let rest = component_digits cs (value * 10 + digit) in
    if not (is_ascii_digit c)
    then throw not_canonical
    else if ltb ((u32_max - digit) / 10) value
    then throw exceeds_uint32
    else rest

abbrev leading_zero : List ℕ → Bool
leading_zero (c ∷ d ∷ cs) = c == b'0'
leading_zero _ = false

abbrev is_empty : List ℕ → Bool
is_empty [] = true
is_empty _ = false

-- The value is held in 64 bits and returned in 32.
unfoldable pub parse_component : List ℕ → Result ℕ
parse_component component =
    if is_empty component || leading_zero component
    then throw not_canonical
    else (do value ← component_digits component 0; ok (value % 4294967296))

-- What stands before and after the first dot, which is what `value.find('.')` is used for.
unfoldable pub split_dot : List ℕ → Option (List ℕ × List ℕ)
split_dot [] = none
split_dot (c ∷ cs) =
    let found = split_dot cs in
    if c == b'.'
    then some ([], cs)
    else elim found [ none ↦ none | some (before, after) ↦ some (c ∷ before, after) ]

-- The version that `Parse` makes of three components. They are parsed here from left to right; the
-- source leaves the order open, which matters only to the message when several are refused.
unfoldable pub parse_components : List ℕ → List ℕ → List ℕ → List ℕ → Result PackageSemVer
parse_components value first second third = do
  major ← parse_component first
  minor ← parse_component second
  patch ← parse_component third
  ok (record { major = major; minor = minor; patch = patch; canonical = value })

unfoldable pub parse : List ℕ → Result PackageSemVer
parse value = elim (split_dot value) [
  | none ↦ throw not_canonical
  | some (first, after_first) ↦ elim (split_dot after_first) [
    | none ↦ throw not_canonical
    | some (second, third) ↦ elim (split_dot third) [
      | some _ ↦ throw not_canonical
      | none ↦ parse_components value first second third
    ]
  ]
]

unfoldable pub compare_versions : PackageSemVer → PackageSemVer → ℤ
compare_versions v other =
    if not (v.major == other.major)
    then (if ltb v.major other.major then negsuc 0 else pos 1)
    else if not (v.minor == other.minor)
    then (if ltb v.minor other.minor then negsuc 0 else pos 1)
    else if not (v.patch == other.patch)
    then (if ltb v.patch other.patch then negsuc 0 else pos 1)
    else pos 0
