-- ===== src/Connector/SemVer/Examples.antt =====
-- Versions at concrete texts, and the theorems at them.
use cuac.Common.{◌≡◌, ◌↔◌, List, [], ◌∷◌, refl, ℕ}
use cuac.Common.Int.{pos, negsuc}
use cuac.Connector.SemVer.Version.{
  ok, throw, not_canonical, PackageSemVer, component_digits, parse_component, split_dot,
  parse_components, parse, compare_versions,
}
use cuac.Connector.SemVer.Grammar.{IsVersion}
use cuac.Connector.SemVer.Order.{
  Precedes, SameNumbers, parse-IsVersion, compare_versions-parse, compare_versions-Precedes,
}

-- "1.20.3" and "1.4.0".
abbrev newer_text : List ℕ
newer_text = b'1' ∷ b'.' ∷ b'2' ∷ b'0' ∷ b'.' ∷ b'3' ∷ []

abbrev older_text : List ℕ
older_text = b'1' ∷ b'.' ∷ b'4' ∷ b'.' ∷ b'0' ∷ []

abbrev newer : PackageSemVer
newer = record { major = 1; minor = 20; patch = 3; canonical = newer_text }

abbrev older : PackageSemVer
older = record { major = 1; minor = 4; patch = 0; canonical = older_text }

newer-parse : parse newer_text ≡ ok newer
unfolding component_digits parse_component split_dot parse_components parse
newer-parse = refl

older-parse : parse older_text ≡ ok older
unfolding component_digits parse_component split_dot parse_components parse
older-parse = refl

-- "01.4.0" is refused.
zero_refused : parse (b'0' ∷ older_text) ≡ throw not_canonical
unfolding component_digits parse_component split_dot parse_components parse
zero_refused = refl

parse-IsVersion_example : (parse newer_text ≡ ok newer) ↔ IsVersion newer_text newer
parse-IsVersion_example = parse-IsVersion newer_text newer

compare_versions-parse_example : (compare_versions newer older ≡ pos 0) ↔ (newer_text ≡ older_text)
compare_versions-parse_example =
    compare_versions-parse newer_text older_text newer older newer-parse older-parse

-- The minor number decides, though "4" is the greater text.
older_first : compare_versions older newer ≡ negsuc 0
unfolding compare_versions
older_first = refl

compare_versions-Precedes_example :
    ((compare_versions older newer ≡ negsuc 0) ↔ Precedes older newer)
    × ((compare_versions older newer ≡ pos 1) ↔ Precedes newer older)
    × ((compare_versions older newer ≡ pos 0) ↔ SameNumbers older newer)
compare_versions-Precedes_example = compare_versions-Precedes older newer
