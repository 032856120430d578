-- ===== src/Pagination/Uri/Compression.antt =====
-- The compression of an IPv6 address, src/runtime/pagination/uri_reference.cpp against the grammar.
use cuac.Common.{
  ℕ, ◌≡◌, inl, inr, refl, ap, sym, ◌∙◌, Bool, true, false, Option, none, some, List, [], ◌∷◌, ◌++◌,
  ◌==◌, arith, Option-cases, absurd,
}
use mathlib.Core.List.{append-nil, append_assoc}
use cuac.Pagination.Link.Target.{has_byte, is_empty}
use cuac.Pagination.Uri.Reference.{starts_with}
use cuac.Pagination.Uri.Address.{find_compression, is_group}
use cuac.Pagination.Uri.Literal.{Groups, group, two_groups, more, Side, nothing, groups}
use cuac.Pagination.Uri.Octets.{Ipv4-no_colon, Ipv4-dotted}
use cuac.Pagination.Uri.Groups.{group-no_colon}

-- A byte, or text, in front of what a search finds.
onto : ℕ → Option (List ℕ × List ℕ) → Option (List ℕ × List ℕ)
onto c none = none
onto c (some (before, after)) = some (c ∷ before, after)

in_front : List ℕ → Option (List ℕ × List ℕ) → Option (List ℕ × List ℕ)
in_front text none = none
in_front text (some (before, after)) = some (text ++ before, after)

onto-in_front :
    (c : ℕ) (text : List ℕ) (o : Option (List ℕ × List ℕ))
    → onto c (in_front text o) ≡ in_front (c ∷ text) o
unfolding onto in_front
onto-in_front c text none = refl
onto-in_front c text (some (before, after)) = refl

find_compression-onto :
    (c : ℕ) (text : List ℕ)
    → (c == b':') ≡ false
    → find_compression (c ∷ text) ≡ onto c (find_compression text)
unfolding find_compression onto
find_compression-onto c [] h = refl
find_compression-onto c (d ∷ text) h = elim (Option-cases (find_compression (d ∷ text))) [
  | inl e ↦ ground arith
  | inr ((before, after), e) ↦ ground arith
]

-- One colon alone is no compression.
find_compression_colon :
    (text : List ℕ)
    → is_empty text ≡ false
    → starts_with b':' text ≡ false
    → find_compression (b':' ∷ text) ≡ onto b':' (find_compression text)
unfolding find_compression onto starts_with
find_compression_colon [] h s = absurd (ground arith)
find_compression_colon (c ∷ text) h s = elim (Option-cases (find_compression (c ∷ text))) [
  | inl e ↦ ground arith
  | inr ((before, after), e) ↦ ground arith
]

find_compression_group :
    (g text : List ℕ)
    → has_byte b':' g ≡ false
    → is_empty text ≡ false
    → starts_with b':' text ≡ false
    → find_compression (g ++ (b':' ∷ text)) ≡ in_front (g ++ (b':' ∷ [])) (find_compression text)
unfolding has_byte
find_compression_group [] text h e s =
    find_compression_colon text e s ∙ single (find_compression text)
  where
    single : (o : Option (List ℕ × List ℕ)) → onto b':' o ≡ in_front (b':' ∷ []) o
    single none = unfold onto in_front in refl
    single (some (before, after)) = unfold onto in_front in refl
find_compression_group (c ∷ g) text h e s =
    find_compression-onto c (g ++ (b':' ∷ text)) (ground arith)
    ∙ ap (onto c) (find_compression_group g text (ground arith) e s)
    ∙ onto-in_front c (g ++ (b':' ∷ [])) (find_compression text)

find_compression-none : (g : List ℕ) → has_byte b':' g ≡ false → find_compression g ≡ none
unfolding has_byte onto
find_compression-none [] h = unfold find_compression in refl
find_compression-none (c ∷ g) h =
    find_compression-onto c g (ground arith) ∙ ap (onto c) (find_compression-none g (ground arith))

find_compression_first :
    (g r : List ℕ)
    → has_byte b':' g ≡ false
    → find_compression (g ++ (b':' ∷ b':' ∷ r)) ≡ some (g, r)
unfolding has_byte onto
find_compression_first [] r h = unfold find_compression in refl
find_compression_first (c ∷ g) r h =
    find_compression-onto c (g ++ (b':' ∷ b':' ∷ r)) (ground arith)
    ∙ ap (onto c) (find_compression_first g r (ground arith))

-- Groups begin with a character, and not with a colon.
begins :
    (g rest : List ℕ)
    → is_empty g ≡ false
    → has_byte b':' g ≡ false
    → (is_empty (g ++ rest) ≡ false) × (starts_with b':' (g ++ rest) ≡ false)
unfolding has_byte starts_with
begins [] rest e h = absurd (ground arith)
begins (c ∷ g) rest e h = (refl, ground arith)

pub dotted-full : (v : List ℕ) → has_byte b'.' v ≡ true → is_empty v ≡ false
unfolding has_byte
dotted-full [] h = absurd (ground arith)
dotted-full (c ∷ v) h = refl

pub group-full : (g : List ℕ) → is_group g ≡ true → is_empty g ≡ false
unfolding is_group
group-full g h = ground arith

pub Groups-begins :
    {a : Bool} {n : ℕ} {p : List ℕ} (rest : List ℕ)
    → Groups a n p
    → (is_empty (p ++ rest) ≡ false) × (starts_with b':' (p ++ rest) ≡ false)
Groups-begins {p = p} rest (group h) = begins p rest (group-full p h) (group-no_colon p h)
Groups-begins {p = p} rest (two_groups s t) =
    begins p rest (dotted-full p (Ipv4-dotted t)) (Ipv4-no_colon t)
Groups-begins rest (more g p h t) =
    rw append_assoc (begins g (b':' ∷ (p ++ rest)) (group-full g h) (group-no_colon g h))

Groups-find_compression : {a : Bool} {n : ℕ} {p : List ℕ} → Groups a n p → find_compression p ≡ none
unfolding in_front
Groups-find_compression {p = p} (group h) = find_compression-none p (group-no_colon p h)
Groups-find_compression {p = p} (two_groups s t) = find_compression-none p (Ipv4-no_colon t)
Groups-find_compression (more g p h t) =
    let (full, start) = Groups-begins [] t in
    let rest = Groups-find_compression t in
    find_compression_group g p (group-no_colon g h) (ap is_empty (sym (append-nil p)) ∙ full)
      (ap (starts_with b':') (sym (append-nil p)) ∙ start)
    ∙ ap (in_front (g ++ (b':' ∷ []))) rest

Groups-first_compression :
    {a : Bool} {n : ℕ} {p : List ℕ} (r : List ℕ)
    → Groups a n p
    → find_compression (p ++ (b':' ∷ b':' ∷ r)) ≡ some (p, r)
unfolding in_front
Groups-first_compression {p = p} r (group h) = find_compression_first p r (group-no_colon p h)
Groups-first_compression {p = p} r (two_groups s t) = find_compression_first p r (Ipv4-no_colon t)
Groups-first_compression r (more g p h t) =
    let (full, start) = Groups-begins (b':' ∷ b':' ∷ r) t in
    let rest = Groups-first_compression r t in
    let whole : (g ++ (b':' ∷ p)) ++ (b':' ∷ b':' ∷ r) ≡ g ++ (b':' ∷ (p ++ (b':' ∷ b':' ∷ r))) =
      append_assoc g (b':' ∷ p) (b':' ∷ b':' ∷ r) in
    ap find_compression whole
    ∙ find_compression_group g (p ++ (b':' ∷ b':' ∷ r)) (group-no_colon g h) full start
    ∙ ap (in_front (g ++ (b':' ∷ []))) rest
    ∙ ap (λ t. some (t, r)) (append_assoc g (b':' ∷ []) p)

pub Side-find_compression : {a : Bool} {n : ℕ} {p : List ℕ} → Side a n p → find_compression p ≡ none
Side-find_compression nothing = unfold find_compression in refl
Side-find_compression (groups t) = Groups-find_compression t

pub Side-first_compression :
    {a : Bool} {n : ℕ} {p : List ℕ} (r : List ℕ)
    → Side a n p
    → find_compression (p ++ (b':' ∷ b':' ∷ r)) ≡ some (p, r)
Side-first_compression r nothing = unfold find_compression in refl
Side-first_compression r (groups t) = Groups-first_compression r t
