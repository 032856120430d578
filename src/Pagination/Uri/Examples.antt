-- ===== src/Pagination/Uri/Examples.antt =====
-- URI references, and the theorems at them.
use cuac.Common.{ℕ, ◌≡◌, ◌↔◌, refl, true, false, List, [], ◌∷◌}
use cuac.Pagination.Link.Target.{has_byte}
use cuac.Pagination.Uri.Text.{
  is_ascii_alpha, is_ascii_digit, is_hex_digit, is_unreserved, is_sub_delimiter, is_allowed,
  is_plain_component_character, validate_component, every, find, split_on,
}
use cuac.Pagination.Uri.Address.{
  octet_value, starts_with_zero, validate_decimal_octet, all_octets, validate_ipv4_address,
  split_ipv6_side, find_compression, is_group, count_units, validate_ipv6_address,
  validate_ipv_future, validate_ip_literal,
}
use cuac.Pagination.Uri.Reference.{
  validate_port, after_literal, validate_host, validate_authority, validate_path_characters,
  starts_with, validate_path_abempty, validate_hier_part, validate_authority_and_path,
  validate_scheme, validate_hierarchy, validate_before_fragment, validate_reference,
  is_valid_uri_reference, is_valid_uri,
}
use cuac.Pagination.Uri.Grammar.{IsUri, IsUriReference}
use cuac.Pagination.Uri.Equivalence.{validators-IsUriReference}

-- ::ffff:1.2.3.4, seven groups of 16 bits and the compression, and eight of them with it.
abbrev mapped : List ℕ
mapped = b':' ∷ b':' ∷ b'f' ∷ b'f' ∷ b':' ∷ b'1' ∷ b'.' ∷ b'2' ∷ b'.' ∷ b'3' ∷ b'.' ∷ b'4' ∷ []

abbrev seven : List ℕ
seven =
    b'1' ∷ b':' ∷ b'2' ∷ b':' ∷ b'3' ∷ b':' ∷ b'4' ∷ b':' ∷ b'5' ∷ b':' ∷ b'6' ∷ b':' ∷ b'7' ∷ b':'
    ∷ b':' ∷ []

abbrev eight : List ℕ
eight = b'0' ∷ b':' ∷ seven

addresses :
    (validate_ip_literal mapped ≡ true)
    × (validate_ip_literal seven ≡ true)
    × (validate_ip_literal eight ≡ false)
unfolding validate_ip_literal validate_ipv6_address find_compression split_ipv6_side split_on
    count_units has_byte is_group every is_hex_digit is_ascii_digit validate_ipv4_address all_octets
    validate_decimal_octet starts_with_zero octet_value validate_ipv_future
addresses = (refl, refl, refl)

-- a://b@[::1]:8/%41?c#d
abbrev reference : List ℕ
reference =
    b'a' ∷ b':' ∷ b'/' ∷ b'/' ∷ b'b' ∷ b'@' ∷ b'[' ∷ b':' ∷ b':' ∷ b'1' ∷ b']' ∷ b':' ∷ b'8' ∷ b'/'
    ∷ b'%' ∷ b'4' ∷ b'1' ∷ b'?' ∷ b'c' ∷ b'#' ∷ b'd' ∷ []

accepted : is_valid_uri reference ≡ true
unfolding is_valid_uri validate_reference find has_byte validate_component
    is_plain_component_character is_unreserved is_sub_delimiter is_allowed is_ascii_alpha
    is_ascii_digit is_hex_digit validate_before_fragment validate_hierarchy validate_scheme every
    validate_hier_part validate_authority_and_path validate_authority validate_host
    validate_ip_literal validate_ipv6_address find_compression split_ipv6_side split_on count_units
    is_group after_literal validate_port validate_path_abempty starts_with validate_path_characters
accepted = refl

validators-IsUriReference_example :
    ((is_valid_uri_reference reference ≡ true) ↔ IsUriReference reference)
    × ((is_valid_uri reference ≡ true) ↔ IsUri reference)
validators-IsUriReference_example = validators-IsUriReference reference
