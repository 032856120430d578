-- ===== src/Pagination/Uri/Equivalence.antt =====
-- The validators of src/runtime/pagination/uri_reference.cpp and the grammar of RFC 3986.
use cuac.Common.{ℕ, ◌≡◌, ◌↔◌, ◌⊎◌, inl, inr, true, false, List, absurd, arith}
use cuac.Pagination.Uri.Reference.{is_valid_uri_reference, is_valid_uri}
use cuac.Pagination.Uri.Grammar.{IsUri, IsRelativeRef, IsUriReference}
use cuac.Pagination.Uri.Sound.{reference-IsUriReference}
use cuac.Pagination.Uri.Complete.{IsRelativeRef-validate_reference, IsUri-validate_reference}

forget : {v : List ℕ} {P : Type 0} → IsUri v ⊎ (P × IsRelativeRef v) → IsUriReference v
forget (inl u) = inl u
forget (inr (p, r)) = inr r

IsUri-only : {v : List ℕ} → IsUri v ⊎ ((true ≡ false) × IsRelativeRef v) → IsUri v
IsUri-only (inl u) = u
IsUri-only (inr (p, r)) = absurd (ground arith)

-- A text is accepted as a URI reference exactly when the grammar of RFC 3986 derives it as a URI or
-- as a relative reference, and it is accepted as a URI exactly when the grammar derives it as one.
pub validators-IsUriReference :
    (v : List ℕ)
    → ((is_valid_uri_reference v ≡ true) ↔ IsUriReference v) × ((is_valid_uri v ≡ true) ↔ IsUri v)
unfolding is_valid_uri_reference is_valid_uri
validators-IsUriReference v = (
  (λ h. forget (reference-IsUriReference false v h), accepted),
  (λ h. IsUri-only (reference-IsUriReference true v h), IsUri-validate_reference true),
)
  where
    accepted : IsUriReference v → is_valid_uri_reference v ≡ true
    accepted (inl u) = IsUri-validate_reference false u
    accepted (inr r) = IsRelativeRef-validate_reference r
