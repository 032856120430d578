-- ===== src/Pagination/Header/Links.antt =====
-- A link and what its parameters come to, written and read by src/runtime/pagination/link_header.cpp.
use cuac.Common.{
  ℕ, ◌≡◌, refl, ◌∙◌, true, false, ◌&&◌, Option, none, some, List, [], ◌∷◌, ◌++◌, All, All-append,
}
use cuac.Pagination.Uri.Text.{is_ascii_alpha, is_ascii_digit, every}
use cuac.Pagination.Uri.Pieces.{joined, find_after}
use cuac.Pagination.Uri.Enclosed.{uri_reference-no_angle}
use cuac.Pagination.Header.Scan.{
  ◌>>=◌, is_token_character, equals_ascii_ignore_case, to_ascii_lower, rel_name, anchor_name,
}
use cuac.Pagination.Header.Parser.{
  Parameters, take_value, no_parameters, visit, parse_opened_value, parse_link_value,
}
use cuac.Pagination.Header.Values.{relation_contains_next-joined}
use cuac.Pagination.Header.Render.{
  Link, render_parameters, anchor_parameters, link_parameters, render_link, has_next, no_anchor,
  meaning, IsExtension, IsAnchor, IsLink,
}
use cuac.Pagination.Header.Parameters.{IsParameter, take_all, parameters-render, IsBehind}

-- The parameters of a link.
rel-IsParameter :
    {l : Link} → IsLink l → IsParameter (rel_name, l.relation ++ joined b' ' l.relations)
unfolding every is_token_character is_ascii_alpha is_ascii_digit
rel-IsParameter i = (refl, refl, i.text)

extension-parameters : (es : List (List ℕ × List ℕ)) → All IsExtension es → All IsParameter es
extension-parameters [] h = h
extension-parameters ((name, value) ∷ es) ((t, n, _, _, v), h) =
    ((t, n, v), extension-parameters es h)

anchor-IsParameters :
    (as_ : List (List ℕ)) → All IsAnchor as_ → All IsParameter (anchor_parameters as_)
unfolding anchor_parameters every is_token_character is_ascii_alpha is_ascii_digit
anchor-IsParameters [] h = h
anchor-IsParameters (a ∷ as_) (i, h) = ((refl, refl, i.1), anchor-IsParameters as_ h)

link-IsParameters : (l : Link) → IsLink l → All IsParameter (link_parameters l)
unfolding link_parameters
link-IsParameters l i = (
  rel-IsParameter i,
  All-append IsParameter l.extensions (anchor_parameters l.anchors)
      (extension-parameters l.extensions i.extensions) (anchor-IsParameters l.anchors i.anchors),
)

take_all-append :
    (p : Parameters) (xs ys : List (List ℕ × List ℕ))
    → take_all p (xs ++ ys) ≡ (take_all p xs >>= λ q. take_all q ys)
unfolding take_all
take_all-append p [] ys = refl
take_all-append p ((name, value) ∷ xs) ys =
    next (take_value p name value) (λ q. take_all-append q xs ys)
  where
    next :
        (o : Option Parameters)
        → ((q : Parameters) → take_all q (xs ++ ys) ≡ (take_all q xs >>= λ r. take_all r ys))
        → (o >>= λ q. take_all q (xs ++ ys)) ≡ ((o >>= λ q. take_all q xs) >>= λ r. take_all r ys)
    next none f = refl
    next (some q) f = f q

take_all-extensions :
    (p : Parameters) (es : List (List ℕ × List ℕ)) → All IsExtension es → take_all p es ≡ some p
unfolding take_all take_value
take_all-extensions p [] h = refl
take_all-extensions p ((name, value) ∷ es) ((t, n, r, a, v), h) =
    rw (take_value, r, a) (take_all-extensions p es h)

abbrev anchored : List (List ℕ) → Parameters → Parameters
anchored [] p = p
anchored (a ∷ as_) p = record p { saw_anchor = true }

anchor_not_rel : equals_ascii_ignore_case anchor_name rel_name ≡ false
unfolding equals_ascii_ignore_case to_ascii_lower
anchor_not_rel = refl

anchor_is_anchor : equals_ascii_ignore_case anchor_name anchor_name ≡ true
unfolding equals_ascii_ignore_case to_ascii_lower
anchor_is_anchor = refl

rel_is_rel : equals_ascii_ignore_case rel_name rel_name ≡ true
unfolding equals_ascii_ignore_case to_ascii_lower
rel_is_rel = refl

take_all-anchors :
    (p : Parameters) (as_ : List (List ℕ))
    → All IsAnchor as_
    → take_all p (anchor_parameters as_) ≡ some (anchored as_ p)
unfolding take_all anchor_parameters
take_all-anchors p [] h = refl
take_all-anchors p (a ∷ as_) (i, h) =
    let one : take_value p anchor_name a ≡ some (record p { saw_anchor = true }) =
      unfold take_value in rw (take_value, anchor_not_rel, anchor_is_anchor, i.0) refl in
    rw one (take_all-anchors (record p { saw_anchor = true }) as_ h ∙ again as_)
  where
    again :
        (bs : List (List ℕ))
        → some (anchored bs (record p { saw_anchor = true }))
          ≡ some (record p { saw_anchor = true })
    again [] = refl
    again (b ∷ bs) = refl

abbrev after_rel : Link → Parameters
after_rel l = record {
  saw_rel = true;
  saw_anchor = false;
  has_next_relation = has_next (l.relation ∷ l.relations);
}

-- What the parameters of a link come to.
link_state : Link → Parameters
link_state l = anchored l.anchors (after_rel l)

take_all-link :
    (l : Link) → IsLink l → take_all no_parameters (link_parameters l) ≡ some (link_state l)
unfolding link_parameters take_all link_state
take_all-link l i =
    let relations = relation_contains_next-joined l.relation l.relations i.relation in
    let after = after_rel l in
    let first : take_value no_parameters rel_name (l.relation ++ joined b' ' l.relations)
        ≡ some after =
      unfold take_value in rw (take_value, rel_is_rel, relations) refl in
    rw first (
      take_all-append after l.extensions (anchor_parameters l.anchors)
      ∙ rw (take_all-extensions after l.extensions i.extensions)
          (take_all-anchors after l.anchors i.anchors))

link_state-visit :
    (l : Link) (rest : List ℕ) → visit l.target (link_state l, rest) ≡ some (meaning l, rest)
unfolding visit link_state meaning
link_state-visit l rest = go l.anchors
  where
    go :
        (as_ : List (List ℕ))
        → visit l.target (anchored as_ (after_rel l), rest)
          ≡ some ((l.target, has_next (l.relation ∷ l.relations) && no_anchor as_), rest)
    go [] = refl
    go (a ∷ as_) = refl

-- One link, written and read.
pub parse_link_value-render :
    (l : Link) (rest : List ℕ)
    → IsLink l
    → IsBehind rest
    → parse_link_value (render_link l rest) ≡ some (meaning l, rest)
unfolding parse_link_value render_link
parse_link_value-render l rest i b =
    let text = render_parameters (link_parameters l) rest in
    let found = find_after b'>' l.target text (uri_reference-no_angle l.target i.target) in
    let valid = i.target in
    let read = parameters-render (link_parameters l) no_parameters rest (link-IsParameters l i) b in
    let state = take_all-link l i in
    unfold parse_opened_value in
    rw (parse_opened_value, found, valid, read, state) (link_state-visit l rest)
