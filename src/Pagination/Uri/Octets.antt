-- ===== src/Pagination/Uri/Octets.antt =====
-- The addresses of four octets that src/runtime/pagination/uri_reference.cpp accepts.
use cuac.Common.{
  ℕ, ◌≡◌, inl, inr, refl, ap, sym, ◌∙◌, true, false, ◌&&◌, List, [], ◌∷◌, ◌++◌, length, ◌==◌, arith,
  Bool-cases, ==_iff, absurd,
}
use mathlib.Core.List.{append-nil}
use cuac.Pagination.Link.Target.{has_byte}
use cuac.Pagination.Uri.Text.{is_ascii_digit, every, split_on}
use cuac.Pagination.Uri.Address.{
  octet_value, starts_with_zero, validate_decimal_octet, all_octets, validate_ipv4_address,
}
use cuac.Pagination.Uri.Pieces.{
  has_byte-append, every_excludes, joined, exclude, split_on-joined, split_on-cases,
}
use cuac.Pagination.Uri.Literal.{
  DecOctet, ones, tens, hundreds, two_hundreds, last_hundred, Ipv4, ipv4,
}

pub DecOctet-validate_decimal_octet : {o : List ℕ} → DecOctet o → validate_decimal_octet o ≡ true
unfolding validate_decimal_octet starts_with_zero every is_ascii_digit octet_value
DecOctet-validate_decimal_octet (ones h) = ground arith
DecOctet-validate_decimal_octet (tens l u h) = ground arith
DecOctet-validate_decimal_octet (hundreds h k) = ground arith
DecOctet-validate_decimal_octet (two_hundreds l u h) = ground arith
DecOctet-validate_decimal_octet (last_hundred l u) = ground arith

three_digits :
    (a b c : ℕ) → validate_decimal_octet (a ∷ b ∷ c ∷ []) ≡ true → DecOctet (a ∷ b ∷ c ∷ [])
unfolding validate_decimal_octet starts_with_zero every is_ascii_digit octet_value
three_digits a b c h = elim (Bool-cases (a == b'1')) [
  | inl one ↦
      let same : a ≡ b'1' = (==_iff a b'1').0 one in
      rw same (hundreds (ground arith) (ground arith))
  | inr other ↦
      let same : a ≡ b'2' = ground arith in
      elim (Bool-cases (b == b'5')) [
        | inl five ↦
            let also : b ≡ b'5' = (==_iff b b'5').0 five in
            rw (same, also) (last_hundred (ground arith) (ground arith))
        | inr less ↦ rw same (two_hundreds (ground arith) (ground arith) (ground arith))
      ]
]

pub validate_decimal_octet-DecOctet : (o : List ℕ) → validate_decimal_octet o ≡ true → DecOctet o
unfolding validate_decimal_octet starts_with_zero every is_ascii_digit
validate_decimal_octet-DecOctet [] h = absurd (ground arith)
validate_decimal_octet-DecOctet (a ∷ []) h = ones (ground arith)
validate_decimal_octet-DecOctet (a ∷ b ∷ []) h = tens (ground arith) (ground arith) (ground arith)
validate_decimal_octet-DecOctet (a ∷ b ∷ c ∷ []) h = three_digits a b c h
validate_decimal_octet-DecOctet (a ∷ b ∷ c ∷ d ∷ o) h = absurd (ground arith)

octet_without :
    (b : ℕ) (o : List ℕ)
    → is_ascii_digit b ≡ false
    → validate_decimal_octet o ≡ true
    → has_byte b o ≡ false
unfolding validate_decimal_octet
octet_without b o n h = every_excludes is_ascii_digit b o n (ground arith)

no_dot : (o : List ℕ) → validate_decimal_octet o ≡ true → has_byte b'.' o ≡ false
no_dot o h = octet_without b'.' o (unfold is_ascii_digit in refl) h

pub Ipv4-validate_ipv4_address : {v : List ℕ} → Ipv4 v → validate_ipv4_address v ≡ true
unfolding validate_ipv4_address joined exclude
Ipv4-validate_ipv4_address (ipv4 a b c d ha hb hc hd) =
    let va = DecOctet-validate_decimal_octet ha in
    let vb = DecOctet-validate_decimal_octet hb in
    let vc = DecOctet-validate_decimal_octet hc in
    let vd = DecOctet-validate_decimal_octet hd in
    let na = no_dot a va in
    let nb = no_dot b vb in
    let nc = no_dot c vc in
    let nd = no_dot d vd in
    let others : exclude b'.' (b ∷ c ∷ d ∷ []) ≡ true = ground arith in
    let split = split_on-joined b'.' a (b ∷ c ∷ d ∷ []) na others in
    let text : a ++ (b'.' ∷ (b ++ (b'.' ∷ (c ++ (b'.' ∷ d))))) ≡ a ++ joined b'.' (b ∷ c ∷ d ∷ []) =
      ap (λ t. a ++ (b'.' ∷ (b ++ (b'.' ∷ (c ++ (b'.' ∷ t)))))) (sym (append-nil d)) in
    ap validate_ipv4_address text
    ∙ onto (split_on b'.' (a ++ joined b'.' (b ∷ c ∷ d ∷ []))) split va vb vc vd
  where
    onto :
        (parts : List (List ℕ))
        → parts ≡ a ∷ b ∷ c ∷ d ∷ []
        → validate_decimal_octet a ≡ true
        → validate_decimal_octet b ≡ true
        → validate_decimal_octet c ≡ true
        → validate_decimal_octet d ≡ true
        → (all_octets parts && length parts == 4) ≡ true
    onto parts e va vb vc vd = rw e (unfold all_octets in ground arith)

pub validate_ipv4_address-Ipv4 : (v : List ℕ) → validate_ipv4_address v ≡ true → Ipv4 v
unfolding validate_ipv4_address joined all_octets
validate_ipv4_address-Ipv4 v h =
    let (s, ss, e, k, x) = split_on-cases b'.' v in
    let good : (all_octets (s ∷ ss) && length (s ∷ ss) == 4) ≡ true =
      ap (λ (p : List (List ℕ)). all_octets p && length p == 4) (sym e) ∙ h in
    rw k (four s ss good)
  where
    four :
        (s : List ℕ) (ss : List (List ℕ))
        → (all_octets (s ∷ ss) && length (s ∷ ss) == 4) ≡ true
        → Ipv4 (s ++ joined b'.' ss)
    four a [] g = absurd (ground arith)
    four a (b ∷ []) g = absurd (ground arith)
    four a (b ∷ c ∷ []) g = absurd (ground arith)
    four a (b ∷ c ∷ d ∷ []) g = rw append-nil (
        ipv4 a b c d (validate_decimal_octet-DecOctet a (ground arith))
          (validate_decimal_octet-DecOctet b (ground arith))
          (validate_decimal_octet-DecOctet c (ground arith))
          (validate_decimal_octet-DecOctet d (ground arith)))
    four a (b ∷ c ∷ d ∷ e ∷ rest) g = absurd (ground arith)

-- An address has dots and no colons.
pub Ipv4-no_colon : {v : List ℕ} → Ipv4 v → has_byte b':' v ≡ false
unfolding has_byte is_ascii_digit
Ipv4-no_colon (ipv4 a b c d ha hb hc hd) =
    let na = octet_without b':' a refl (DecOctet-validate_decimal_octet ha) in
    let nb = octet_without b':' b refl (DecOctet-validate_decimal_octet hb) in
    let nc = octet_without b':' c refl (DecOctet-validate_decimal_octet hc) in
    let nd = octet_without b':' d refl (DecOctet-validate_decimal_octet hd) in
    let three = has_byte-append b':' c (b'.' ∷ d) in
    let two = has_byte-append b':' b (b'.' ∷ (c ++ (b'.' ∷ d))) in
    let one = has_byte-append b':' a (b'.' ∷ (b ++ (b'.' ∷ (c ++ (b'.' ∷ d))))) in ground arith

pub Ipv4-dotted : {v : List ℕ} → Ipv4 v → has_byte b'.' v ≡ true
unfolding has_byte
Ipv4-dotted (ipv4 a b c d ha hb hc hd) =
    let one = has_byte-append b'.' a (b'.' ∷ (b ++ (b'.' ∷ (c ++ (b'.' ∷ d))))) in ground arith
