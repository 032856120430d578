-- ===== src/Pagination/Uri/Enclosed.antt =====
-- A URI reference that src/runtime/pagination/uri_reference.cpp accepts can stand in brackets, and
-- between spaces.
use cuac.Common.{ℕ, ◌≡◌, inl, inr, refl, Bool, true, false, ◌||◌, List, ◌∷◌, ◌++◌, ◌==◌, arith}
use cuac.Pagination.Link.Target.{has_byte}
use cuac.Pagination.Uri.Text.{
  is_ascii_alpha, is_ascii_digit, is_hex_digit, is_unreserved, is_sub_delimiter, is_allowed,
  is_plain_component_character, pchar, query_or_fragment, every,
}
use cuac.Pagination.Uri.Reference.{is_valid_uri_reference, is_valid_uri}
use cuac.Pagination.Uri.Pieces.{every_excludes}
use cuac.Pagination.Uri.Grammar.{
  HierPart, Suffix, no_suffix, suffix, Scheme, scheme, uri, relative_ref, IsUriReference,
}
use cuac.Pagination.Uri.Components.{Chars-excludes}
use cuac.Pagination.Uri.Marks.{Mark, angle, blank, append_excludes, HierPart-excludes}
use cuac.Pagination.Uri.Equivalence.{validators-IsUriReference}

module _ {b : ℕ} (m : Mark b) (in_path : is_plain_component_character pchar b ≡ false)
    (in_query : is_plain_component_character query_or_fragment b ≡ false)
    (hex : is_hex_digit b ≡ false)
    (other : ((b'/' == b)
        || (b'@' == b)
        || (b'?' == b)
        || (b'#' == b)
        || (b':' == b)
        || (b == b'%'))
      ≡ false)
    (in_scheme : (is_ascii_alpha b || is_ascii_digit b || b == b'+' || b == b'-' || b == b'.')
      ≡ false) where
  Suffix-excludes : {q : List ℕ} (c : ℕ) → (c == b) ≡ false → Suffix c q → has_byte b q ≡ false
  unfolding has_byte
  Suffix-excludes c n no_suffix = refl
  Suffix-excludes c n (suffix q t) =
      let rest = Chars-excludes b in_query hex (ground arith) t in ground arith

  Scheme-excludes : {s : List ℕ} → Scheme s → has_byte b s ≡ false
  unfolding has_byte
  Scheme-excludes (scheme c cs a e) =
      every_excludes
        (λ x. is_ascii_alpha x || is_ascii_digit x || x == b'+' || x == b'-' || x == b'.') b
        (c ∷ cs) in_scheme (unfold every in ground arith)

  tail_excludes :
      {relative : Bool} (h q f : List ℕ)
      → HierPart relative h
      → Suffix b'?' q
      → Suffix b'#' f
      → has_byte b (h ++ (q ++ f)) ≡ false
  tail_excludes h q f t x y =
      append_excludes b h (q ++ f) (HierPart-excludes m in_path (ground arith) (ground arith) t) (
        append_excludes b q f (Suffix-excludes b'?' (ground arith) x)
          (Suffix-excludes b'#' (ground arith) y))

  reference_excludes : {v : List ℕ} → IsUriReference v → has_byte b v ≡ false
  unfolding has_byte
  reference_excludes (inr (relative_ref h q f t x y)) = tail_excludes h q f t x y
  reference_excludes (inl (uri s h q f w t x y)) =
      let rest = tail_excludes h q f t x y in
      append_excludes b s (b':' ∷ (h ++ (q ++ f))) (Scheme-excludes w) (ground arith)

pub uri_reference-no_angle :
    (v : List ℕ) → is_valid_uri_reference v ≡ true → has_byte b'>' v ≡ false
unfolding is_plain_component_character is_unreserved is_sub_delimiter is_allowed is_ascii_alpha
    is_ascii_digit is_hex_digit
uri_reference-no_angle v h =
    reference_excludes angle refl refl refl refl refl ((validators-IsUriReference v).0.0 h)

pub uri-no_blank : (v : List ℕ) → is_valid_uri v ≡ true → has_byte b' ' v ≡ false
unfolding is_plain_component_character is_unreserved is_sub_delimiter is_allowed is_ascii_alpha
    is_ascii_digit is_hex_digit
uri-no_blank v h =
    reference_excludes blank refl refl refl refl refl (inl ((validators-IsUriReference v).1.0 h))
