-- ===== src/Connector/SemVer/Numeral.antt =====
-- Decimal numerals without superfluous zeros, as the grammar of versions has them, and that a number
-- has one only.
use cuac.Common.{
  ℕ, ◌+◌, ◌-◌, ◌*◌, ◌≤◌, ◌<◌, ◌≡◌, ◌⊎◌, inl, inr, refl, sym, absurd, ◌∙◌, List, [], ◌∷◌, length,
  All, arith, Bool-cases, leb,
}

-- The number that decimal digits stand for, after the digits that gave `n`.
abbrev pub decimal : ℕ → List ℕ → ℕ
decimal n [] = n
decimal n (c ∷ cs) = decimal (n * 10 + (c - b'0')) cs

abbrev pub IsDigit : ℕ → Type 0
IsDigit c = (b'0' ≤ c) × (c ≤ b'9')

-- At least one digit, and no zero before another.
abbrev pub IsMinimal : List ℕ → Type 0
IsMinimal [] = ⊥
IsMinimal (c ∷ []) = Unit
IsMinimal (c ∷ d ∷ cs) = b'0' < c

abbrev pub IsNumeral : List ℕ → ℕ → Type 0
IsNumeral cs n = All IsDigit cs × IsMinimal cs × (decimal 0 cs ≡ n)

pub le-decimal : (n : ℕ) (cs : List ℕ) → n ≤ decimal n cs
le-decimal n [] = omega arith
le-decimal n (c ∷ cs) = omega (arith, le-decimal (n * 10 + (c - b'0')) cs)

lt_or_le : (a b : ℕ) → (a < b) ⊎ (b ≤ a)
lt_or_le a b = ground arith

-- Digits as many as others that give the same number are the same.
same_length :
    (n m : ℕ) (cs ds : List ℕ)
    → All IsDigit cs
    → All IsDigit ds
    → length cs ≡ length ds
    → decimal n cs ≡ decimal m ds
    → (n ≡ m) × (cs ≡ ds)
same_length n m [] [] v w l e = (e, refl)
same_length n m [] (d ∷ ds) v w l e = absurd (omega (arith, l))
same_length n m (c ∷ cs) [] v w l e = absurd (omega (arith, l))
same_length n m (c ∷ cs) (d ∷ ds) v w l e =
    let (h, t) =
      same_length (n * 10 + (c - b'0')) (m * 10 + (d - b'0')) cs ds v.1 w.1 (omega (arith, l)) e in
    let same : c ≡ d = omega (arith, h, v.0.0, v.0.1, w.0.0, w.0.1) in
    (omega (arith, h, v.0.0, v.0.1, w.0.0, w.0.1), rw (same, t) refl)

-- A numeral that has begun with a nonzero digit is no number of fewer digits.
longer :
    (m : ℕ) (cs ds : List ℕ)
    → All IsDigit cs
    → All IsDigit ds
    → length cs ≤ length ds
    → 0 < m
    → decimal 0 cs ≡ decimal m ds
    → ⊥
longer m [] [] v w l positive e = omega (arith, e, positive)
longer m (c ∷ cs) [] v w l positive e = omega (arith, l)
longer m cs (d ∷ ds) v w l positive e = elim (Bool-cases (leb (length cs) (length ds))) [
  | inl h ↦ longer (m * 10 + (d - b'0')) cs ds v w.1 (ground arith) (omega arith) e
  | inr h ↦
      let (z, _) = same_length 0 m cs (d ∷ ds) v w (ground arith) e in omega (arith, z, positive)
]

not_shorter :
    (cs ds : List ℕ)
    → All IsDigit cs
    → All IsDigit ds
    → IsMinimal ds
    → 0 < length cs
    → length cs < length ds
    → decimal 0 cs ≡ decimal 0 ds
    → ⊥
not_shorter cs [] v w minimal some_digit l e = omega (arith, l)
not_shorter cs (d ∷ []) v w minimal some_digit l e = omega (arith, l, some_digit)
not_shorter cs (d ∷ d' ∷ ds) v w minimal some_digit l e =
    longer (0 + (d - b'0')) cs (d' ∷ ds) v w.1 (omega (arith, l)) (omega (arith, minimal)) e

some_digit : (cs : List ℕ) → IsMinimal cs → 0 < length cs
some_digit [] minimal = elim minimal [ ]
some_digit (c ∷ cs) minimal = omega arith

pub numeral_unique : (n : ℕ) (cs ds : List ℕ) → IsNumeral cs n → IsNumeral ds n → cs ≡ ds
numeral_unique n cs ds (v, minimal, e) (w, minimal', e') = elim (lt_or_le (length cs) (length ds)) [
  | inl h ↦ absurd (not_shorter cs ds v w minimal' (some_digit cs minimal) h (e ∙ sym e'))
  | inr h ↦ elim (lt_or_le (length ds) (length cs)) [
    | inl h' ↦ absurd (not_shorter ds cs w v minimal (some_digit ds minimal') h' (e' ∙ sym e))
    | inr h' ↦ (same_length 0 0 cs ds v w (omega (arith, h, h')) (e ∙ sym e')).1
  ]
]
