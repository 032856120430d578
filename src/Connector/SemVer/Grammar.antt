-- ===== src/Connector/SemVer/Grammar.antt =====
-- The grammar of a version, and that `Parse` accepts it exactly.
use cuac.Common.{
  ℕ, ◌+◌, ◌-◌, ◌*◌, ◌/◌, ◌%◌, ◌≤◌, ◌≡◌, refl, sym, ap, subst, ◌∙◌, absurd, ◌⊎◌, inl, inr, true,
  false, none, some, List, [], ◌∷◌, ◌++◌, All, arith, ltb, ◌==◌, Bool-cases, Option-cases,
}
use cuac.Connector.SemVer.Numeral.{decimal, IsDigit, IsMinimal, IsNumeral, le-decimal}
use cuac.Connector.SemVer.Version.{
  Result, ok, throw, ◌>>=◌, PackageSemVer, u32_max, is_ascii_digit, component_digits,
  parse_component, split_dot, parse_components, parse, InvalidArgument,
}

-- Three numerals of 32 bits between dots.
pub record IsVersion (text : List ℕ) (v : PackageSemVer) : Type 0 where
  pub first : List ℕ
  pub second : List ℕ
  pub third : List ℕ
  pub major : IsNumeral first v.major
  pub minor : IsNumeral second v.minor
  pub patch : IsNumeral third v.patch
  pub major_fits : v.major ≤ u32_max
  pub minor_fits : v.minor ≤ u32_max
  pub patch_fits : v.patch ≤ u32_max
  pub joined : text ≡ first ++ (b'.' ∷ (second ++ (b'.' ∷ third)))
  pub canonical : v.canonical ≡ text

component_digits_sound :
    (cs : List ℕ) (n v : ℕ)
    → n ≤ u32_max
    → component_digits cs n ≡ ok v
    → All IsDigit cs × (decimal n cs ≡ v) × (v ≤ u32_max)
unfolding component_digits
component_digits_sound [] n v fits e = ground arith
component_digits_sound (c ∷ cs) n v fits e = elim (Bool-cases (is_ascii_digit c)) [
  | inr h ↦ ground arith
  | inl h ↦ elim (Bool-cases (ltb ((u32_max - (c - b'0')) / 10) n)) [
    | inl g ↦ ground arith
    | inr g ↦
        let small : n * 10 + (c - b'0') ≤ u32_max = ground arith in
        let rest : component_digits cs (n * 10 + (c - b'0')) ≡ ok v = ground arith in
        let (ds, d, f) = component_digits_sound cs (n * 10 + (c - b'0')) v small rest in
        ((ground arith, ds), d, f)
  ]
]

component_digits_complete :
    (cs : List ℕ) (n : ℕ)
    → All IsDigit cs
    → decimal n cs ≤ u32_max
    → component_digits cs n ≡ ok (decimal n cs)
unfolding component_digits
component_digits_complete [] n ds fits = refl
component_digits_complete (c ∷ cs) n ds fits =
    let small = le-decimal (n * 10 + (c - b'0')) cs in
    let digit : is_ascii_digit c ≡ true = ground arith in
    let room : ltb ((u32_max - (c - b'0')) / 10) n ≡ false = ground arith in
    rw (digit, room) (component_digits_complete cs (n * 10 + (c - b'0')) ds.1 fits)

-- The conversion to 32 bits keeps a number that fits.
narrow :
    (r : Result ℕ) (v : ℕ)
    → ((w : ℕ) → r ≡ ok w → w ≤ u32_max)
    → (r >>= λ value. ok (value % 4294967296)) ≡ ok v
    → r ≡ ok v
narrow (throw e) v fits h = ground arith
narrow (ok w) v fits h =
    let small = fits w refl in
    let same : w % 4294967296 ≡ v = ground arith in ap ok (omega (arith, small, same))

component_sound :
    (cs : List ℕ) (v : ℕ)
    → (All IsDigit cs → IsMinimal cs)
    → (component_digits cs 0 >>= λ value. ok (value % 4294967296)) ≡ ok v
    → IsNumeral cs v × (v ≤ u32_max)
component_sound cs v minimal e =
    let (ds, d, f) =
      component_digits_sound cs 0 v (omega arith) (narrow (component_digits cs 0) v fits e) in
    ((ds, minimal ds, d), f)
  where
    fits : (w : ℕ) → component_digits cs 0 ≡ ok w → w ≤ u32_max
    fits w h = (component_digits_sound cs 0 w (omega arith) h).2

parse_component_sound :
    (cs : List ℕ) (v : ℕ) → parse_component cs ≡ ok v → IsNumeral cs v × (v ≤ u32_max)
unfolding parse_component
parse_component_sound [] v e = ground arith
parse_component_sound (c ∷ []) v e = component_sound (c ∷ []) v (λ _. tt) e
parse_component_sound (c ∷ d ∷ cs) v e = elim (Bool-cases (c == b'0')) [
  | inl h ↦ ground arith
  | inr h ↦ component_sound (c ∷ d ∷ cs) v (λ ds. ground arith) (ground arith)
]

parse_component_complete :
    (cs : List ℕ) (v : ℕ) → IsNumeral cs v → v ≤ u32_max → parse_component cs ≡ ok v
unfolding parse_component
parse_component_complete [] v n fits = absurd n.1
parse_component_complete (c ∷ []) v n fits =
    rw (component_digits_complete (c ∷ []) 0 n.0 (omega (arith, n.2, fits)))
      (ap ok (omega (arith, n.2, fits)))
parse_component_complete (c ∷ d ∷ cs) v n fits =
    let zero : (c == b'0') ≡ false = ground arith in
    rw (zero, component_digits_complete (c ∷ d ∷ cs) 0 n.0 (omega (arith, n.2, fits)))
      (ap ok (omega (arith, n.2, fits)))

split_dot_sound : (cs : List ℕ) (a b : List ℕ) → split_dot cs ≡ some (a, b) → cs ≡ a ++ (b'.' ∷ b)
unfolding split_dot
split_dot_sound [] a b e = ground arith
split_dot_sound (c ∷ cs) a b e = elim (Bool-cases (c == b'.')) [
  | inl h ↦ let dot : c ≡ b'.' = ground arith in cc (e, dot)
  | inr h ↦ elim (Option-cases (split_dot cs)) [
    | inl n ↦ ground arith
    | inr ((x, y), s) ↦ let earlier = split_dot_sound cs x y s in cc (e, h, s, earlier)
  ]
]

split_dot-digits : (a b : List ℕ) → All IsDigit a → split_dot (a ++ (b'.' ∷ b)) ≡ some (a, b)
unfolding split_dot
split_dot-digits [] b ds = refl
split_dot-digits (c ∷ a) b ds =
    let other : (c == b'.') ≡ false = ground arith in rw (other, split_dot-digits a b ds.1) refl

split_dot-none : (a : List ℕ) → All IsDigit a → split_dot a ≡ none
unfolding split_dot
split_dot-none [] ds = refl
split_dot-none (c ∷ a) ds =
    let other : (c == b'.') ≡ false = ground arith in rw (other, split_dot-none a ds.1) refl

component-cases : (r : Result ℕ) → ((n : ℕ) × (r ≡ ok n)) ⊎ ((e : InvalidArgument) × (r ≡ throw e))
component-cases (ok n) = inl (n, refl)
component-cases (throw e) = inr (e, refl)

parse_components_sound :
    (text first second third : List ℕ) (v : PackageSemVer)
    → text ≡ first ++ (b'.' ∷ (second ++ (b'.' ∷ third)))
    → parse_components text first second third ≡ ok v
    → IsVersion text v
unfolding parse_components
parse_components_sound text first second third v joined e =
    elim (component-cases (parse_component first)) [
      | inr (x, h) ↦ ground arith
      | inl (major, h) ↦ elim (component-cases (parse_component second)) [
        | inr (x, h') ↦ ground arith
        | inl (minor, h') ↦ elim (component-cases (parse_component third)) [
          | inr (x, h'') ↦ ground arith
          | inl (patch, h'') ↦
              let same : ok
                    (record { major = major; minor = minor; patch = patch; canonical = text })
                  ≡ ok v =
                ground arith in
              let (n, small) = parse_component_sound first major h in
              let (n', small') = parse_component_sound second minor h' in
              let (n'', small'') = parse_component_sound third patch h'' in
              subst (λ w. IsVersion text w) (cc same)
                (record {
                  first = first;
                  second = second;
                  third = third;
                  major = n;
                  minor = n';
                  patch = n'';
                  major_fits = small;
                  minor_fits = small';
                  patch_fits = small'';
                  joined = joined;
                  canonical = refl;
                })
        ]
      ]
    ]

pub parse_sound : (text : List ℕ) (v : PackageSemVer) → parse text ≡ ok v → IsVersion text v
unfolding parse
parse_sound text v e = elim (Option-cases (split_dot text)) [
  | inl h ↦ ground arith
  | inr ((first, after), h) ↦ elim (Option-cases (split_dot after)) [
    | inl g ↦ ground arith
    | inr ((second, third), g) ↦ elim (Option-cases (split_dot third)) [
      | inr (_, f) ↦ ground arith
      | inl f ↦
          parse_components_sound text first second third v
            (split_dot_sound text first after h
              ∙ ap (λ (a : List ℕ). first ++ (b'.' ∷ a)) (split_dot_sound after second third g))
            (ground arith)
    ]
  ]
]

parse_components_complete :
    (text : List ℕ) (v : PackageSemVer) (i : IsVersion text v)
    → parse_components text i.first i.second i.third ≡ ok v
unfolding parse_components
parse_components_complete text v i =
    rw
      (
        parse_component_complete i.first v.major i.major i.major_fits,
        parse_component_complete i.second v.minor i.minor i.minor_fits,
        parse_component_complete i.third v.patch i.patch i.patch_fits,
      )
      (ap (λ (c : List ℕ). ok (record v { canonical = c })) (sym i.canonical))

pub parse_complete : (text : List ℕ) (v : PackageSemVer) → IsVersion text v → parse text ≡ ok v
unfolding parse
parse_complete text v i =
    let h =
      ap split_dot i.joined ∙ split_dot-digits i.first (i.second ++ (b'.' ∷ i.third)) i.major.0 in
    rw (h, split_dot-digits i.second i.third i.minor.0, split_dot-none i.third i.patch.0, parse)
      (parse_components_complete text v i)
