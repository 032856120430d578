-- ===== src/Connector/SemVer/Order.antt =====
-- `Parse` against the grammar, and the order of versions.
use cuac.Common.{ℕ, subst, ◌<◌, ◌≡◌, ◌↔◌, sym, ap, ◌∙◌, ◌⊎◌, List, arith}
use cuac.Common.Int.{pos, negsuc}
use cuac.Connector.SemVer.Numeral.{IsNumeral, numeral_unique}
use cuac.Connector.SemVer.Version.{ok, PackageSemVer, parse, compare_versions}
use cuac.Connector.SemVer.Grammar.{IsVersion, parse_sound, parse_complete}

-- A text is accepted exactly if it is three decimal numerals between dots, with no superfluous zero,
-- no other byte and no value above 32 bits, and the version then has their values and the text.
pub parse-IsVersion : (text : List ℕ) (v : PackageSemVer) → (parse text ≡ ok v) ↔ IsVersion text v
parse-IsVersion text v = (parse_sound text v, parse_complete text v)

same_numbers :
    (v w : PackageSemVer)
    → compare_versions v w ≡ pos 0
    → (v.major ≡ w.major) × (v.minor ≡ w.minor) × (v.patch ≡ w.patch)
unfolding compare_versions
same_numbers v w e = ground arith

compare_same : (v : PackageSemVer) → compare_versions v v ≡ pos 0
unfolding compare_versions
compare_same v = ground arith

same_text :
    (s t : List ℕ) (v w : PackageSemVer)
    → IsVersion s v
    → IsVersion t w
    → compare_versions v w ≡ pos 0
    → s ≡ t
same_text s t v w i j e =
    let (a, b, c) = same_numbers v w e in
    let first =
      numeral_unique w.major i.first j.first (subst (λ n. IsNumeral i.first n) a i.major) j.major in
    let second =
      numeral_unique w.minor i.second j.second (subst (λ n. IsNumeral i.second n) b i.minor)
        j.minor in
    let third =
      numeral_unique w.patch i.third j.third (subst (λ n. IsNumeral i.third n) c i.patch) j.patch in
    cc (i.joined, j.joined, first, second, third)

-- Two parsed versions compare as equal exactly if their texts are the same.
pub compare_versions-parse :
    (s t : List ℕ) (v w : PackageSemVer)
    → parse s ≡ ok v
    → parse t ≡ ok w
    → (compare_versions v w ≡ pos 0) ↔ (s ≡ t)
compare_versions-parse s t v w p q = (
  same_text s t v w (parse_sound s v p) (parse_sound t w q),
  λ e. let same : v ≡ w = cc (p, q, e) in ap (compare_versions v) (sym same) ∙ compare_same v,
)

-- The order of versions: by the first number that differs, the major one before the others.
abbrev pub Precedes : PackageSemVer → PackageSemVer → Type 0
Precedes v w =
    (v.major < w.major)
    ⊎ ((v.major ≡ w.major) × ((v.minor < w.minor) ⊎ ((v.minor ≡ w.minor) × (v.patch < w.patch))))

abbrev pub SameNumbers : PackageSemVer → PackageSemVer → Type 0
SameNumbers v w = (v.major ≡ w.major) × (v.minor ≡ w.minor) × (v.patch ≡ w.patch)

earlier_lem : (v w : PackageSemVer) → (compare_versions v w ≡ negsuc 0) ↔ Precedes v w
unfolding compare_versions
earlier_lem v w = (λ e. ground arith, λ h. ground arith)

later_lem : (v w : PackageSemVer) → (compare_versions v w ≡ pos 1) ↔ Precedes w v
unfolding compare_versions
later_lem v w = (λ e. ground arith, λ h. ground arith)

equal_numbers : (v w : PackageSemVer) → SameNumbers v w → compare_versions v w ≡ pos 0
unfolding compare_versions
equal_numbers v w h = ground arith

-- Two versions compare as -1 exactly if the first has the smaller number at the first of major, minor
-- and patch where they differ, as 1 exactly if the second has, and as 0 exactly if all three numbers
-- are the same.
pub compare_versions-Precedes :
    (v w : PackageSemVer)
    → ((compare_versions v w ≡ negsuc 0) ↔ Precedes v w)
      × ((compare_versions v w ≡ pos 1) ↔ Precedes w v)
      × ((compare_versions v w ≡ pos 0) ↔ SameNumbers v w)
compare_versions-Precedes v w =
    (earlier_lem v w, later_lem v w, (same_numbers v w, equal_numbers v w))
