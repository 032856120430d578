-- ===== src/Pagination/Uri/Grammar.antt =====
-- URI references as RFC 3986 writes them, rule by rule, for src/runtime/pagination/uri_reference.cpp.
use cuac.Common.{ℕ, ◌≡◌, ◌⊎◌, Bool, true, false, ◌||◌, List, [], ◌∷◌, ◌++◌, ◌==◌}
use cuac.Pagination.Link.Target.{has_byte}
use cuac.Pagination.Uri.Text.{
  is_ascii_alpha, is_ascii_digit, is_hex_digit, ComponentKind, pchar, query_or_fragment, user_info,
  reg_name, is_plain_component_character, every,
}
use cuac.Pagination.Uri.Literal.{IpLiteral}

-- `*( plain / pct-encoded )`.
pub data Chars (kind : ComponentKind) : List ℕ → Type 0 where
  done : Chars kind []
  plain :
      {c : ℕ} {cs : List ℕ}
      → is_plain_component_character kind c ≡ true
      → Chars kind cs
      → Chars kind (c ∷ cs)
  encoded :
      {d e : ℕ} {cs : List ℕ}
      → is_hex_digit d ≡ true
      → is_hex_digit e ≡ true
      → Chars kind cs
      → Chars kind (b'%' ∷ d ∷ e ∷ cs)

-- `path-abempty`: `*( "/" segment )`.
pub data Segments : List ℕ → Type 0 where
  no_segment : Segments []
  segment : (s : List ℕ) {p : List ℕ} → Chars pchar s → Segments p → Segments (b'/' ∷ (s ++ p))

-- `[ userinfo "@" ]`.
pub data UserPart : List ℕ → Type 0 where
  no_user : UserPart []
  user : (u : List ℕ) → Chars user_info u → UserPart (u ++ (b'@' ∷ []))

-- `host`: a reg-name, which an IPv4 address is too, or a literal in brackets.
pub data Host : List ℕ → Type 0 where
  named : (h : List ℕ) → Chars reg_name h → Host h
  ip_literal : (l : List ℕ) → IpLiteral l → Host (b'[' ∷ (l ++ (b']' ∷ [])))

-- `[ ":" port ]`.
pub data PortPart : List ℕ → Type 0 where
  no_port : PortPart []
  port : (p : List ℕ) → every is_ascii_digit p ≡ true → PortPart (b':' ∷ p)

pub data Authority : List ℕ → Type 0 where
  authority : (u h p : List ℕ) → UserPart u → Host h → PortPart p → Authority (u ++ (h ++ p))

-- `hier-part`, or `relative-part` where the flag is set.
pub data HierPart : Bool → List ℕ → Type 0 where
  network :
      {relative : Bool} (a p : List ℕ)
      → Authority a
      → Segments p
      → HierPart relative (b'/' ∷ b'/' ∷ (a ++ p))
  root : {relative : Bool} → HierPart relative (b'/' ∷ [])
  absolute :
      {relative : Bool} (c : ℕ) (s p : List ℕ)
      → Chars pchar (c ∷ s)
      → Segments p
      → HierPart relative (b'/' ∷ c ∷ (s ++ p))
  rootless :
      (c : ℕ) (s p : List ℕ) → Chars pchar (c ∷ s) → Segments p → HierPart false (c ∷ (s ++ p))
  no_scheme :
      (c : ℕ) (s p : List ℕ)
      → Chars pchar (c ∷ s)
      → has_byte b':' (c ∷ s) ≡ false
      → Segments p
      → HierPart true (c ∷ (s ++ p))
  no_path : {relative : Bool} → HierPart relative []

-- `[ "?" query ]` and `[ "#" fragment ]`.
pub data Suffix (mark : ℕ) : List ℕ → Type 0 where
  no_suffix : Suffix mark []
  suffix : (q : List ℕ) → Chars query_or_fragment q → Suffix mark (mark ∷ q)

pub data Scheme : List ℕ → Type 0 where
  scheme :
      (c : ℕ) (cs : List ℕ)
      → is_ascii_alpha c ≡ true
      → every (λ b. is_ascii_alpha b || is_ascii_digit b || b == b'+' || b == b'-' || b == b'.') cs
        ≡ true
      → Scheme (c ∷ cs)

pub data IsUri : List ℕ → Type 0 where
  uri :
      (s h q f : List ℕ)
      → Scheme s
      → HierPart false h
      → Suffix b'?' q
      → Suffix b'#' f
      → IsUri (s ++ (b':' ∷ (h ++ (q ++ f))))

pub data IsRelativeRef : List ℕ → Type 0 where
  relative_ref :
      (h q f : List ℕ)
      → HierPart true h
      → Suffix b'?' q
      → Suffix b'#' f
      → IsRelativeRef (h ++ (q ++ f))

abbrev pub IsUriReference : List ℕ → Type 0
IsUriReference v = IsUri v ⊎ IsRelativeRef v
