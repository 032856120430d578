-- ===== src/Pagination/Uri/Marks.antt =====
-- The bytes that end the parts of a reference, or a reference itself, stand in none of the parts before them
-- (src/runtime/pagination/uri_reference.cpp, against the grammar).
use cuac.Common.{ℕ, ◌≡◌, refl, Bool, false, ◌||◌, List, [], ◌∷◌, ◌++◌, ◌==◌, arith}
use cuac.Pagination.Link.Target.{has_byte}
use cuac.Pagination.Uri.Text.{
  is_ascii_alpha, is_ascii_digit, is_hex_digit, is_unreserved, is_sub_delimiter, pchar, user_info,
  reg_name, is_plain_component_character, is_allowed,
}
use cuac.Pagination.Uri.Pieces.{has_byte-append, every_excludes}
use cuac.Pagination.Uri.Grammar.{
  Chars, Segments, no_segment, segment, no_user, user, Host, named, ip_literal, PortPart, no_port,
  port, Authority, authority, HierPart, network, root, absolute, rootless, no_scheme, no_path,
}
use cuac.Pagination.Uri.Components.{Chars-excludes}
use cuac.Pagination.Uri.Hosts.{IpLiteral-validate_ip_literal}
use cuac.Pagination.Uri.Literals.{is_literal_character, ip_literal-every}

pub data Mark : ℕ → Type 0 where
  slash : Mark b'/'
  question : Mark b'?'
  hash : Mark b'#'
  at : Mark b'@'
  angle : Mark b'>'
  blank : Mark b' '

-- What tells a mark from the characters of a host, of a port and of a user.
record Apart (b : ℕ) : Type 0 where
  user_apart : is_plain_component_character user_info b ≡ false
  name_apart : is_plain_component_character reg_name b ≡ false
  literal_apart : is_literal_character b ≡ false
  digit_apart : is_ascii_digit b ≡ false
  hex_apart : is_hex_digit b ≡ false
  percent_apart : (b == b'%') ≡ false
  bracket_apart : ((b'[' == b) || (b']' == b) || (b':' == b)) ≡ false

Mark-Apart : {b : ℕ} → Mark b → Apart b
unfolding is_plain_component_character is_unreserved is_sub_delimiter is_allowed is_ascii_alpha
    is_ascii_digit is_hex_digit is_literal_character
Mark-Apart slash = record {
  user_apart = refl;
  name_apart = refl;
  literal_apart = refl;
  digit_apart = refl;
  hex_apart = refl;
  percent_apart = refl;
  bracket_apart = refl;
}
Mark-Apart question = record {
  user_apart = refl;
  name_apart = refl;
  literal_apart = refl;
  digit_apart = refl;
  hex_apart = refl;
  percent_apart = refl;
  bracket_apart = refl;
}
Mark-Apart hash = record {
  user_apart = refl;
  name_apart = refl;
  literal_apart = refl;
  digit_apart = refl;
  hex_apart = refl;
  percent_apart = refl;
  bracket_apart = refl;
}
Mark-Apart at = record {
  user_apart = refl;
  name_apart = refl;
  literal_apart = refl;
  digit_apart = refl;
  hex_apart = refl;
  percent_apart = refl;
  bracket_apart = refl;
}
Mark-Apart angle = record {
  user_apart = refl;
  name_apart = refl;
  literal_apart = refl;
  digit_apart = refl;
  hex_apart = refl;
  percent_apart = refl;
  bracket_apart = refl;
}
Mark-Apart blank = record {
  user_apart = refl;
  name_apart = refl;
  literal_apart = refl;
  digit_apart = refl;
  hex_apart = refl;
  percent_apart = refl;
  bracket_apart = refl;
}

-- Two parts without the byte make one without it.
pub append_excludes :
    (b : ℕ) (xs ys : List ℕ)
    → has_byte b xs ≡ false
    → has_byte b ys ≡ false
    → has_byte b (xs ++ ys) ≡ false
append_excludes b xs ys hx hy = let both = has_byte-append b xs ys in ground arith

module _ {b : ℕ} (m : Mark b) where
  Host-excludes : {h : List ℕ} → Host h → has_byte b h ≡ false
  unfolding has_byte
  Host-excludes (named h t) =
      let a = Mark-Apart m in Chars-excludes b a.name_apart a.hex_apart a.percent_apart t
  Host-excludes (ip_literal l v) =
      let a = Mark-Apart m in
      let inner =
        every_excludes is_literal_character b l a.literal_apart
          (ip_literal-every l (IpLiteral-validate_ip_literal v)) in
      let apart = a.bracket_apart in
      let closed = append_excludes b l (b']' ∷ []) inner (ground arith) in ground arith

  PortPart-excludes : {p : List ℕ} → PortPart p → has_byte b p ≡ false
  unfolding has_byte
  PortPart-excludes no_port = refl
  PortPart-excludes (port p t) =
      let a = Mark-Apart m in
      let digits = every_excludes is_ascii_digit b p a.digit_apart t in
      let apart = a.bracket_apart in ground arith

  pub Host-PortPart-excludes : {h p : List ℕ} → Host h → PortPart p → has_byte b (h ++ p) ≡ false
  Host-PortPart-excludes {h} {p} t u = append_excludes b h p (Host-excludes t) (PortPart-excludes u)

  pub Chars-user_excludes : {u : List ℕ} → Chars user_info u → has_byte b u ≡ false
  Chars-user_excludes t =
      let a = Mark-Apart m in Chars-excludes b a.user_apart a.hex_apart a.percent_apart t

  pub Authority-excludes : {v : List ℕ} → (b'@' == b) ≡ false → Authority v → has_byte b v ≡ false
  unfolding has_byte
  Authority-excludes n (authority _ h p no_user t w) = Host-PortPart-excludes t w
  Authority-excludes n (authority _ h p (user u s) t w) =
      append_excludes b (u ++ (b'@' ∷ [])) (h ++ p)
        (append_excludes b u (b'@' ∷ []) (Chars-user_excludes s) (ground arith))
        (Host-PortPart-excludes t w)

  module _ (path : is_plain_component_character pchar b ≡ false) where
    Chars-path_excludes : {s : List ℕ} → Chars pchar s → has_byte b s ≡ false
    Chars-path_excludes t =
        let a = Mark-Apart m in Chars-excludes b path a.hex_apart a.percent_apart t

    module _ (n : (b'/' == b) ≡ false) where
      Segments-excludes : {p : List ℕ} → Segments p → has_byte b p ≡ false
      unfolding has_byte
      Segments-excludes no_segment = refl
      Segments-excludes (segment s {p} t g) =
          let rest = append_excludes b s p (Chars-path_excludes t) (Segments-excludes g) in
          ground arith

      path_excludes : (s p : List ℕ) → Chars pchar s → Segments p → has_byte b (s ++ p) ≡ false
      path_excludes s p t g = append_excludes b s p (Chars-path_excludes t) (Segments-excludes g)

      pub HierPart-excludes :
          {relative : Bool} {v : List ℕ}
          → (b'@' == b) ≡ false
          → HierPart relative v
          → has_byte b v ≡ false
      unfolding has_byte
      HierPart-excludes k (network a p t g) =
          let rest = append_excludes b a p (Authority-excludes k t) (Segments-excludes g) in
          ground arith
      HierPart-excludes k root = ground arith
      HierPart-excludes k (absolute c s p t g) =
          let rest = path_excludes (c ∷ s) p t g in ground arith
      HierPart-excludes k (rootless c s p t g) = path_excludes (c ∷ s) p t g
      HierPart-excludes k (no_scheme c s p t x g) = path_excludes (c ∷ s) p t g
      HierPart-excludes k no_path = refl
