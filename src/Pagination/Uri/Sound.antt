-- ===== src/Pagination/Uri/Sound.antt =====
-- Text that src/runtime/pagination/uri_reference.cpp accepts is a URI reference of RFC 3986.
mod Parts
use cuac.Common.{
  ℕ, ◌≡◌, ◌⊎◌, inl, inr, refl, sym, Bool, true, false, List, [], ◌∷◌, ◌++◌, ◌==◌, arith, Bool-cases,
  ==_iff, absurd, if◌then◌else◌,
}
use mathlib.Core.List.{append-nil, append_assoc}
use cuac.Pagination.Uri.Text.{query_or_fragment}
use cuac.Pagination.Uri.Reference.{
  validate_path_rootless, validate_path_no_scheme, validate_hier_part, validate_scheme,
  validate_hierarchy, validate_before_fragment, validate_reference,
}
use cuac.Pagination.Uri.Pieces.{find-cases}
use cuac.Pagination.Uri.Grammar.{
  HierPart, rootless, no_path, Suffix, no_suffix, suffix, Scheme, scheme, IsUri, uri, IsRelativeRef,
  relative_ref,
}
use cuac.Pagination.Uri.Components.{validate_component-Chars}
use cuac.Pagination.Uri.Sound.Parts.{
  network-HierPart, path_absolute-HierPart, path_no_scheme-HierPart,
  validate_path_rootless-Rootless,
}

other-HierPart :
    (relative : Bool) (v : List ℕ)
    → (if relative then validate_path_no_scheme v else validate_path_rootless v) ≡ true
    → HierPart relative v
other-HierPart true v h = path_no_scheme-HierPart v h
other-HierPart false v h =
    let (c, s, p, k, t, g) = validate_path_rootless-Rootless v h in rw k (rootless c s p t g)

validate_hier_part-HierPart :
    (relative : Bool) (v : List ℕ) → validate_hier_part v relative ≡ true → HierPart relative v
unfolding validate_hier_part
validate_hier_part-HierPart relative [] h = no_path
validate_hier_part-HierPart relative (c ∷ []) h = elim (Bool-cases (c == b'/')) [
  | inl s ↦
      let same : c ≡ b'/' = (==_iff c b'/').0 s in
      rw same (path_absolute-HierPart [] (ground arith))
  | inr n ↦ other-HierPart relative (c ∷ []) (ground arith)
]
validate_hier_part-HierPart relative (c ∷ d ∷ cs) h = elim (Bool-cases (c == b'/')) [
  | inr n ↦ other-HierPart relative (c ∷ d ∷ cs) (ground arith)
  | inl s ↦
      let same : c ≡ b'/' = (==_iff c b'/').0 s in
      elim (Bool-cases (d == b'/')) [
        | inr m ↦ rw same (path_absolute-HierPart (d ∷ cs) (ground arith))
        | inl t ↦
            let also : d ≡ b'/' = (==_iff d b'/').0 t in
            rw (same, also) (network-HierPart cs (ground arith))
      ]
]

validate_scheme-Scheme : (v : List ℕ) → validate_scheme v ≡ true → Scheme v
unfolding validate_scheme
validate_scheme-Scheme [] h = absurd (ground arith)
validate_scheme-Scheme (c ∷ cs) h = scheme c cs (ground arith) (ground arith)

-- What is accepted, with the query and the fragment behind it.
hierarchy-IsUriReference :
    (require_uri : Bool) (v q f : List ℕ)
    → validate_hierarchy require_uri v ≡ true
    → Suffix b'?' q
    → Suffix b'#' f
    → IsUri (v ++ (q ++ f)) ⊎ ((require_uri ≡ false) × IsRelativeRef (v ++ (q ++ f)))
unfolding validate_hierarchy
hierarchy-IsUriReference require_uri v q f h qs fs = elim (find-cases b':' v) [
  | inl (e, x) ↦
      inr
        (ground arith, relative_ref v q f (validate_hier_part-HierPart true v (ground arith)) qs fs)
  | inr (before, after, e, k, x) ↦ elim (Bool-cases (validate_scheme before)) [
    | inl valid ↦
        let hier = validate_hier_part-HierPart false after (ground arith) in
        let whole : v ++ (q ++ f) ≡ before ++ (b':' ∷ (after ++ (q ++ f))) =
          rw (k, append_assoc) refl in
        inl (rw whole (uri before after q f (validate_scheme-Scheme before valid) hier qs fs))
    | inr n ↦
        inr (
          ground arith,
          relative_ref v q f (validate_hier_part-HierPart true v (ground arith)) qs fs,
        )
  ]
]

before_fragment-IsUriReference :
    (require_uri : Bool) (v f : List ℕ)
    → validate_before_fragment require_uri v ≡ true
    → Suffix b'#' f
    → IsUri (v ++ f) ⊎ ((require_uri ≡ false) × IsRelativeRef (v ++ f))
unfolding validate_before_fragment
before_fragment-IsUriReference require_uri v f h fs = elim (find-cases b'?' v) [
  | inl (e, x) ↦ hierarchy-IsUriReference require_uri v [] f (ground arith) no_suffix fs
  | inr (before, after, e, k, x) ↦
      let valid = validate_component-Chars query_or_fragment after (ground arith) in
      let whole : v ++ f ≡ before ++ ((b'?' ∷ after) ++ f) = rw (k, append_assoc) refl in
      rw whole (
        hierarchy-IsUriReference require_uri before (b'?' ∷ after) f (ground arith)
          (suffix after valid) fs)
]

pub reference-IsUriReference :
    (require_uri : Bool) (v : List ℕ)
    → validate_reference require_uri v ≡ true
    → IsUri v ⊎ ((require_uri ≡ false) × IsRelativeRef v)
unfolding validate_reference
reference-IsUriReference require_uri v h = elim (find-cases b'#' v) [
  | inl (e, x) ↦
      let whole : v ≡ v ++ [] = sym (append-nil v) in
      rw whole (before_fragment-IsUriReference require_uri v [] (ground arith) no_suffix)
  | inr (before, after, e, k, x) ↦
      let valid = validate_component-Chars query_or_fragment after (ground arith) in
      rw k (
        before_fragment-IsUriReference require_uri before (b'#' ∷ after) (ground arith)
          (suffix after valid))
]
