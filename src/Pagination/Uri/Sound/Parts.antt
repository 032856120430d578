-- ===== src/Pagination/Uri/Sound/Parts.antt =====
-- The authority and the paths that src/runtime/pagination/uri_reference.cpp accepts are those of
-- RFC 3986.
use cuac.Common.{
  ℕ, ◌≡◌, inl, inr, refl, ap, sym, ◌∙◌, Bool, true, false, ◌||◌, List, [], ◌∷◌, ◌++◌, ◌==◌, arith,
  Bool-cases, ==_iff, absurd,
}
use mathlib.Core.List.{append-nil, append_assoc}
use cuac.Pagination.Link.Target.{has_byte, is_empty}
use cuac.Pagination.Uri.Text.{pchar, user_info, reg_name}
use cuac.Pagination.Uri.Reference.{
  validate_port, after_literal, validate_named_host, validate_host, validate_authority, starts_with,
  validate_path_abempty, validate_path_absolute, validate_path_rootless, first_segment,
  validate_path_no_scheme, validate_authority_and_path,
}
use cuac.Pagination.Uri.Pieces.{find-cases}
use cuac.Pagination.Uri.Grammar.{
  Chars, Segments, no_segment, segment, no_user, user, Host, named, ip_literal, PortPart, no_port,
  port, Authority, authority, HierPart, network, root, absolute, no_scheme,
}
use cuac.Pagination.Uri.Hosts.{validate_ip_literal-IpLiteral}
use cuac.Pagination.Uri.Components.{
  validate_component-Chars, Chars-no_slash, PathOf, path-PathOf, first_segment-append,
}

HostAndPort : List ℕ → Type 0
HostAndPort v = (h p : List ℕ) × (v ≡ h ++ p) × Host h × PortPart p

named_host-Host : (v : List ℕ) → validate_named_host v ≡ true → HostAndPort v
unfolding validate_named_host validate_port HostAndPort
named_host-Host v h = elim (find-cases b':' v) [
  | inl (e, x) ↦ (
    v,
    [],
    sym (append-nil v),
    named v (validate_component-Chars reg_name v (ground arith)),
    no_port,
  )
  | inr (before, after, e, k, x) ↦ (
    before,
    b':' ∷ after,
    k,
    named before (validate_component-Chars reg_name before (ground arith)),
    port after (ground arith),
  )
]

after_literal-PortPart : (v : List ℕ) → after_literal v ≡ true → PortPart v
unfolding after_literal validate_port
after_literal-PortPart [] h = no_port
after_literal-PortPart (c ∷ cs) h =
    let same : c ≡ b':' = (==_iff c b':').0 (ground arith) in rw same (port cs (ground arith))

host-Host : (v : List ℕ) → validate_host v ≡ true → HostAndPort v
unfolding validate_host HostAndPort
host-Host [] h = named_host-Host [] h
host-Host (c ∷ cs) h = elim (Bool-cases (c == b'[')) [
  | inr n ↦ named_host-Host (c ∷ cs) (ground arith)
  | inl s ↦ elim (find-cases b']' cs) [
    | inl (e, x) ↦ ground arith
    | inr (before, after, e, k, x) ↦
        let same : c ≡ b'[' = (==_iff c b'[').0 s in
        (
          b'[' ∷ (before ++ (b']' ∷ [])),
          after,
          rw (same, k, append_assoc) refl,
          ip_literal before (validate_ip_literal-IpLiteral before (ground arith)),
          after_literal-PortPart after (ground arith),
        )
  ]
]

validate_authority-Authority : (v : List ℕ) → validate_authority v ≡ true → Authority v
unfolding validate_authority HostAndPort
validate_authority-Authority v h = elim (find-cases b'@' v) [
  | inl (e, x) ↦
      let (host, after, k, a, b) = host-Host v (ground arith) in
      rw k (authority [] host after no_user a b)
  | inr (before, rest, e, k, x) ↦
      let (host, after, l, a, b) = host-Host rest (ground arith) in
      let whole : v ≡ (before ++ (b'@' ∷ [])) ++ (host ++ after) = rw (k, l, append_assoc) refl in
      rw whole (
        authority (before ++ (b'@' ∷ [])) host after
          (user before (validate_component-Chars user_info before (ground arith))) a b)
]

path_abempty-Segments : (v : List ℕ) → validate_path_abempty v ≡ true → Segments v
unfolding validate_path_abempty starts_with has_byte
path_abempty-Segments v h = go v (path-PathOf v (ground arith)) (ground arith)
  where
    go : (v : List ℕ) → PathOf v → (is_empty v || starts_with b'/' v) ≡ true → Segments v
    go v ([], p, k, c, g) h = rw k g
    go [] (x ∷ s, p, k, c, g) h = no_segment
    go (y ∷ v) (x ∷ s, p, k, c, g) h = let free = Chars-no_slash c in absurd (ground arith)

-- The path from a first character that is not a slash.
abbrev pub Rootless : List ℕ → Type 0
Rootless v = (c : ℕ) × (s p : List ℕ) × (v ≡ c ∷ (s ++ p)) × Chars pchar (c ∷ s) × Segments p

pub validate_path_rootless-Rootless : (v : List ℕ) → validate_path_rootless v ≡ true → Rootless v
unfolding validate_path_rootless starts_with
validate_path_rootless-Rootless v h =
    go v (path-PathOf v (ground arith)) (ground arith) (ground arith)
  where
    go : (v : List ℕ) → PathOf v → is_empty v ≡ false → starts_with b'/' v ≡ false → Rootless v
    go v (c ∷ s, p, k, t, g) h n = (c, s, p, k, t, g)
    go v ([], _, k, t, no_segment) h n = absurd (ground arith)
    go v ([], _, k, t, segment s x g) h n = absurd (ground arith)

pub path_no_scheme-HierPart : (v : List ℕ) → validate_path_no_scheme v ≡ true → HierPart true v
unfolding validate_path_no_scheme
path_no_scheme-HierPart v h =
    let (c, s, p, k, t, g) = validate_path_rootless-Rootless v (ground arith) in
    let first : first_segment v ≡ c ∷ s =
      ap first_segment k ∙ first_segment-append (c ∷ s) p (Chars-no_slash t) g in
    rw k (no_scheme c s p t (ground arith) g)

pub path_absolute-HierPart :
    {relative : Bool} (cs : List ℕ)
    → validate_path_absolute (b'/' ∷ cs) ≡ true
    → HierPart relative (b'/' ∷ cs)
unfolding validate_path_absolute starts_with has_byte
path_absolute-HierPart {relative} cs h =
    go cs (path-PathOf (b'/' ∷ cs) (ground arith)) (ground arith)
  where
    below :
        (cs s p : List ℕ)
        → cs ≡ s ++ p
        → starts_with b'/' cs ≡ false
        → Chars pchar s
        → Segments p
        → HierPart relative (b'/' ∷ cs)
    below cs (c ∷ s) p k n t g = rw k (absolute c s p t g)
    below cs [] _ k n t no_segment = rw k root
    below cs [] _ k n t (segment s x g) = absurd (ground arith)

    go :
        (cs : List ℕ)
        → PathOf (b'/' ∷ cs)
        → starts_with b'/' cs ≡ false
        → HierPart relative (b'/' ∷ cs)
    go cs (c ∷ s, p, k, t, g) n = let free = Chars-no_slash t in absurd (ground arith)
    go cs ([], _, k, t, no_segment) n = absurd (ground arith)
    go cs ([], _, k, t, segment s {p} x g) n = below cs s p (ground arith) n x g

pub network-HierPart :
    {relative : Bool} (v : List ℕ)
    → validate_authority_and_path v ≡ true
    → HierPart relative (b'/' ∷ b'/' ∷ v)
unfolding validate_authority_and_path
network-HierPart v h = elim (find-cases b'/' v) [
  | inl (e, x) ↦
      let whole : v ≡ v ++ [] = sym (append-nil v) in
      rw whole (network v [] (validate_authority-Authority v (ground arith)) no_segment)
  | inr (before, after, e, k, x) ↦ rw k (
      network before (b'/' ∷ after) (validate_authority-Authority before (ground arith))
        (path_abempty-Segments (b'/' ∷ after) (ground arith)))
]
