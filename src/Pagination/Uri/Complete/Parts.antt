-- ===== src/Pagination/Uri/Complete/Parts.antt =====
-- The authority and the hierarchical part of a URI reference of RFC 3986 are accepted by
-- src/runtime/pagination/uri_reference.cpp.
use cuac.Common.{
  ℕ, ◌≡◌, refl, ap, ◌∙◌, Bool, true, false, some, List, [], ◌∷◌, ◌++◌, ◌==◌, arith, absurd,
  if◌then◌else◌,
}
use mathlib.Core.List.{append-nil, append_assoc}
use cuac.Pagination.Link.Target.{has_byte}
use cuac.Pagination.Uri.Text.{
  is_ascii_alpha, is_ascii_digit, is_hex_digit, is_unreserved, is_sub_delimiter, is_allowed,
  is_plain_component_character, pchar, reg_name, every, find,
}
use cuac.Pagination.Uri.Address.{validate_ip_literal}
use cuac.Pagination.Uri.Reference.{
  validate_port, after_literal, validate_named_host, validate_host, validate_authority, starts_with,
  validate_path_abempty, validate_path_absolute, validate_path_rootless, validate_path_no_scheme,
  validate_authority_and_path, validate_hier_part,
}
use cuac.Pagination.Uri.Pieces.{every_excludes, find_after, find-none}
use cuac.Pagination.Uri.Grammar.{
  Chars, done, Segments, no_segment, segment, no_user, user, Host, named, ip_literal, PortPart,
  no_port, port, Authority, authority, HierPart, network, root, absolute, rootless, no_scheme,
  no_path,
}
use cuac.Pagination.Uri.Hosts.{IpLiteral-validate_ip_literal}
use cuac.Pagination.Uri.Components.{
  Chars-validate_component, Chars-excludes, Chars-no_slash, PathOf-path, first_segment-append,
}
use cuac.Pagination.Uri.Literals.{is_literal_character, ip_literal-every, empty_refused}
use cuac.Pagination.Uri.Marks.{
  slash, at, append_excludes, Host-PortPart-excludes, Chars-user_excludes, Authority-excludes,
}

named_host_open : (v : List ℕ) → has_byte b'[' v ≡ false → validate_host v ≡ validate_named_host v
unfolding validate_host has_byte
named_host_open [] h = refl
named_host_open (c ∷ cs) h = ground arith

digits_exclude :
    (b : ℕ) (p : List ℕ)
    → is_ascii_digit b ≡ false
    → every is_ascii_digit p ≡ true
    → has_byte b p ≡ false
digits_exclude b p h e = every_excludes is_ascii_digit b p h e

named-validate_host : (h p : List ℕ) → Chars reg_name h → PortPart p → validate_host (h ++ p) ≡ true
unfolding validate_named_host validate_port has_byte is_plain_component_character is_unreserved
    is_sub_delimiter is_allowed is_ascii_alpha is_ascii_digit is_hex_digit
named-validate_host h _ t no_port =
    let opened = Chars-excludes b'[' refl refl refl t in
    let closed = Chars-excludes b']' refl refl refl t in
    let missing = find-none b':' h (Chars-excludes b':' refl refl refl t) in
    let valid = Chars-validate_component t in
    rw (append-nil) (named_host_open h opened ∙ rw missing (ground arith))
named-validate_host h _ t (port p d) =
    let opened = Chars-excludes b'[' refl refl refl t in
    let closed = Chars-excludes b']' refl refl refl t in
    let found = find_after b':' h p (Chars-excludes b':' refl refl refl t) in
    let valid = Chars-validate_component t in
    let no_colon = digits_exclude b':' p refl d in
    let o = append_excludes b'[' h (b':' ∷ p) opened (digits_exclude b'[' p refl d) in
    let c = append_excludes b']' h (b':' ∷ p) closed (digits_exclude b']' p refl d) in
    named_host_open (h ++ (b':' ∷ p)) o ∙ rw (found) (ground arith)

literal-validate_host :
    (l p : List ℕ)
    → validate_ip_literal l ≡ true
    → PortPart p
    → validate_host (b'[' ∷ (l ++ (b']' ∷ p))) ≡ true
unfolding validate_host after_literal validate_port
literal-validate_host l p v t =
    let apart =
      every_excludes is_literal_character b']' l
        (unfold is_literal_character is_unreserved is_sub_delimiter is_ascii_alpha is_ascii_digit in
          refl)
        (ip_literal-every l v) in
    let found = find_after b']' l p apart in go l p v t found
  where
    go :
        (l p : List ℕ)
        → validate_ip_literal l ≡ true
        → PortPart p
        → find b']' (l ++ (b']' ∷ p)) ≡ some (l, p)
        → validate_host (b'[' ∷ (l ++ (b']' ∷ p))) ≡ true
    go [] p v t e = let refused = empty_refused in absurd (ground arith)
    go (c ∷ l) _ v no_port e = rw (validate_host, e) (ground arith)
    go (c ∷ l) _ v (port p d) e = rw (validate_host, e) (ground arith)

Host-validate_host : {h p : List ℕ} → Host h → PortPart p → validate_host (h ++ p) ≡ true
Host-validate_host {p = p} (named h t) u = named-validate_host h p t u
Host-validate_host {p = p} (ip_literal l v) u =
    rw append_assoc (literal-validate_host l p (IpLiteral-validate_ip_literal v) u)

Authority-validate_authority : {v : List ℕ} → Authority v → validate_authority v ≡ true
unfolding validate_authority
Authority-validate_authority (authority _ h p no_user t w) =
    let missing = find-none b'@' (h ++ p) (Host-PortPart-excludes at t w) in
    let valid = Host-validate_host t w in rw (validate_authority, missing) valid
Authority-validate_authority (authority _ h p (user u s) t w) =
    let found = find_after b'@' u (h ++ p) (Chars-user_excludes at s) in
    let free = Host-PortPart-excludes at t w in
    let name = Chars-validate_component s in
    let valid = Host-validate_host t w in
    rw (append_assoc, validate_authority, found) (ground arith)

path_abempty-valid : {p : List ℕ} → Segments p → validate_path_abempty p ≡ true
unfolding validate_path_abempty starts_with
path_abempty-valid no_segment = PathOf-path [] [] done no_segment
path_abempty-valid (segment s {p} t g) = PathOf-path [] (b'/' ∷ (s ++ p)) done (segment s t g)

network-valid :
    {a p : List ℕ} → Authority a → Segments p → validate_authority_and_path (a ++ p) ≡ true
unfolding validate_authority_and_path
network-valid {a} t no_segment =
    let missing = find-none b'/' a (Authority-excludes slash refl t) in
    let valid = Authority-validate_authority t in
    let empty = path_abempty-valid no_segment in
    ap validate_authority_and_path (append-nil a)
    ∙ rw (validate_authority_and_path, missing) (ground arith)
network-valid {a} t (segment s {p} c g) =
    let found = find_after b'/' a (s ++ p) (Authority-excludes slash refl t) in
    let valid = Authority-validate_authority t in
    let path = path_abempty-valid (segment s c g) in
    rw (validate_authority_and_path, found) (ground arith)

not_slash : {c : ℕ} {s : List ℕ} → Chars pchar (c ∷ s) → (c == b'/') ≡ false
unfolding has_byte
not_slash t = let free = Chars-no_slash t in ground arith

rootless-valid :
    (c : ℕ) (s p : List ℕ)
    → Chars pchar (c ∷ s)
    → Segments p
    → validate_path_rootless (c ∷ (s ++ p)) ≡ true
unfolding validate_path_rootless starts_with
rootless-valid c s p t g =
    let path = PathOf-path (c ∷ s) p t g in let other = not_slash t in ground arith

absolute-valid :
    (c : ℕ) (s p : List ℕ)
    → Chars pchar (c ∷ s)
    → Segments p
    → validate_path_absolute (b'/' ∷ c ∷ (s ++ p)) ≡ true
unfolding validate_path_absolute starts_with
absolute-valid c s p t g =
    let path = PathOf-path [] (b'/' ∷ c ∷ (s ++ p)) done (segment (c ∷ s) t g) in
    let other = not_slash t in ground arith

other-valid :
    (relative : Bool) (c : ℕ) (v : List ℕ)
    → (c == b'/') ≡ false
    → (if relative then validate_path_no_scheme (c ∷ v) else validate_path_rootless (c ∷ v)) ≡ true
    → validate_hier_part (c ∷ v) relative ≡ true
unfolding validate_hier_part
other-valid relative c [] h e = ground arith
other-valid relative c (d ∷ v) h e = ground arith

pub HierPart-valid :
    (relative : Bool) {v : List ℕ} → HierPart relative v → validate_hier_part v relative ≡ true
unfolding validate_hier_part validate_path_no_scheme
HierPart-valid relative no_path = refl
HierPart-valid relative (network a p t g) = network-valid t g
HierPart-valid relative root =
    unfold validate_path_absolute starts_with in
    PathOf-path [] (b'/' ∷ []) done (segment [] done no_segment)
HierPart-valid relative (absolute c s p t g) =
    let path = absolute-valid c s p t g in let other = not_slash t in ground arith
HierPart-valid relative (rootless c s p t g) =
    other-valid false c (s ++ p) (not_slash t) (rootless-valid c s p t g)
HierPart-valid relative (no_scheme c s p t x g) =
    let path = rootless-valid c s p t g in
    let first = first_segment-append (c ∷ s) p (Chars-no_slash t) g in
    other-valid true c (s ++ p) (not_slash t) (rw first (ground arith))
