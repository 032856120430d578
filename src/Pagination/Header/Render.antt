-- ===== src/Pagination/Header/Render.antt =====
-- Link header fields as a server writes them, for src/runtime/pagination/link_header.cpp: the text that
-- RFC 8288 gives a list of links, and what a client has to make of it.
use cuac.Common.{
  ℕ, ◌≡◌, Bool, true, false, not, ◌&&◌, ◌||◌, List, [], ◌∷◌, ◌++◌, ltb, ◌==◌, if◌then◌else◌, All,
}
use cuac.Pagination.Link.Target.{is_empty}
use cuac.Pagination.Uri.Text.{every}
use cuac.Pagination.Uri.Reference.{is_valid_uri_reference, is_valid_uri}
use cuac.Pagination.Uri.Pieces.{joined}
use cuac.Pagination.Header.Scan.{
  is_token_character, equals_ascii_ignore_case, next_name, rel_name, anchor_name,
  is_registered_relation,
}

-- A link: its relations, of which there is one, the other parameters, and the anchors.
pub record Link : Type 0 where
  pub target : List ℕ
  pub relation : List ℕ
  pub relations : List (List ℕ)
  pub extensions : List (List ℕ × List ℕ)
  pub anchors : List (List ℕ)

unfoldable pub escape : List ℕ → List ℕ
escape [] = []
escape (c ∷ cs) = if c == b'"' || c == b'\\' then b'\\' ∷ c ∷ escape cs else c ∷ escape cs

-- A parameter, before what follows it.
unfoldable pub render_parameter : List ℕ × List ℕ → List ℕ → List ℕ
render_parameter (name, value) rest =
    b';' ∷ b' ' ∷ (name ++ (b'=' ∷ b'"' ∷ (escape value ++ (b'"' ∷ rest))))

unfoldable pub render_parameters : List (List ℕ × List ℕ) → List ℕ → List ℕ
render_parameters [] rest = rest
render_parameters (p ∷ ps) rest = render_parameter p (render_parameters ps rest)

unfoldable pub anchor_parameters : List (List ℕ) → List (List ℕ × List ℕ)
anchor_parameters [] = []
anchor_parameters (a ∷ as_) = (anchor_name, a) ∷ anchor_parameters as_

unfoldable pub link_parameters : Link → List (List ℕ × List ℕ)
link_parameters l =
    (rel_name, l.relation ++ joined b' ' l.relations)
    ∷ (l.extensions ++ anchor_parameters l.anchors)

unfoldable pub render_link : Link → List ℕ → List ℕ
render_link l rest = b'<' ∷ (l.target ++ (b'>' ∷ render_parameters (link_parameters l) rest))

-- The links behind the first one.
unfoldable pub render_more : List Link → List ℕ
render_more [] = []
render_more (l ∷ ls) = b',' ∷ b' ' ∷ render_link l (render_more ls)

-- A field lists a link, and others.
unfoldable pub render_field : Link × List Link → List ℕ
render_field (l, ls) = render_link l (render_more ls)

unfoldable pub render_fields : List (Link × List Link) → List (List ℕ)
render_fields [] = []
render_fields (f ∷ fs) = render_field f ∷ render_fields fs

unfoldable pub has_next : List (List ℕ) → Bool
has_next [] = false
has_next (r ∷ rs) = equals_ascii_ignore_case r next_name || has_next rs

abbrev pub no_anchor : List (List ℕ) → Bool
no_anchor [] = true
no_anchor (a ∷ rest) = false

-- The target of a link, and whether it is where the collection goes on.
unfoldable pub meaning : Link → List ℕ × Bool
meaning l = (l.target, has_next (l.relation ∷ l.relations) && no_anchor l.anchors)

unfoldable pub meanings : List Link → List (List ℕ × Bool)
meanings [] = []
meanings (l ∷ ls) = meaning l ∷ meanings ls

unfoldable pub field_meanings : List (Link × List Link) → List (List ℕ × Bool)
field_meanings [] = []
field_meanings ((l, ls) ∷ fs) = meanings (l ∷ ls) ++ field_meanings fs

unfoldable pub is_text_character : ℕ → Bool
is_text_character c = not (ltb c 32 && not (c == b'\t') || c == 127)

-- A registered name or a URI.
abbrev pub IsRelation : List ℕ → Type 0
IsRelation r = (is_registered_relation r || is_valid_uri r) ≡ true

-- A name that is a token and has no meaning of its own, and a value that can be quoted.
abbrev pub IsExtension : List ℕ × List ℕ → Type 0
IsExtension (name, value) =
    (every is_token_character name ≡ true)
    × (is_empty name ≡ false)
    × (equals_ascii_ignore_case name rel_name ≡ false)
    × (equals_ascii_ignore_case name anchor_name ≡ false)
    × (every is_text_character value ≡ true)

abbrev pub IsAnchor : List ℕ → Type 0
IsAnchor a = (is_valid_uri_reference a ≡ true) × (every is_text_character a ≡ true)

pub record IsLink (l : Link) : Type 0 where
  pub target : is_valid_uri_reference l.target ≡ true
  pub relation : All IsRelation (l.relation ∷ l.relations)
  pub text : every is_text_character (l.relation ++ joined b' ' l.relations) ≡ true
  pub extensions : All IsExtension l.extensions
  pub anchors : All IsAnchor l.anchors

abbrev pub IsField : Link × List Link → Type 0
IsField (l, ls) = All IsLink (l ∷ ls)
