-- ===== src/Decoding/StrictJson/Twins.antt =====
-- `ParseString`, `SkipString` and `ParseObjectKey` of src/runtime/decoding/strict_json_reader.cpp read a
-- string three times over.
use cuac.Common.{
  ℕ, ◌+◌, ◌≤◌, ◌≡◌, ◌≢◌, inl, inr, refl, sym, ap, absurd, true, not, ◌&&◌, Option, none, some, List,
  [], ◌∷◌, ◌++◌, length, length-append, ltb, leb, ◌==◌, if◌then◌else◌, arith, Bool-cases,
  same_bytes,
}
use cuac.Decoding.StrictJson.Reader.{
  Reader, malformed, M, ◌>>=◌, ◌>>◌, pure, fail, Turn, closed, more, loop, expect, check, next_byte,
  require_more,
}
use cuac.Decoding.StrictJson.Strings.{
  parse_escaped_unicode, utf8_bytes, append_utf8, append_code_point, short_escape, parse_escape,
  parse_turn, parse_string, require_append,
}
use cuac.Decoding.StrictJson.Skips.{
  skip_utf8, is_skipped_escape, skip_escape, skip_turn, skip_string,
}
use cuac.Decoding.StrictJson.Copies.{
  is_skipped_escape-false, is_skipped_escape-true, key_append_code_point-utf8_bytes,
  key_short_escape-short_escape, skip_utf8-ascii, skip_utf8-Follows, key_utf8-ascii,
  key_utf8-Follows,
}
use cuac.Decoding.StrictJson.Keys.{
  StrictJsonObjectKey, empty_key, append, append_all, key_equals, key_append_code_point, key_escape,
  key_utf8, key_turn, parse_object_key,
}
use cuac.Decoding.StrictJson.KeyBytes.{append_all-append, append_all_lem}
use cuac.Decoding.StrictJson.Agree.{
  Agree, Follows, follows, followed, weaken-Follows, bind-Follows, then-Follows, both-Follows,
  if-Follows, option-Follows, malformed-Follows, pure-Follows, budget-Follows, Same, loop-Follows,
}

-- The shape of a turn of the loops, for two of them.
string_turn-Follows :
    {A B : Type 0} (P : A → B → Type 0) (a : A) (b : B) (utf8 : ℕ → M (Turn A))
    (utf8' : ℕ → M (Turn B)) (escape : M (Turn A)) (escape' : M (Turn B))
    → P a b
    → ((c : ℕ) → Follows (Same P) (utf8 c) (utf8' c))
    → Follows (Same P) escape escape'
    → Follows
        (Same P)
        (do
          require_more
          check
          c ← next_byte
          if c == b'"'
              then pure (closed a)
              else if ltb c 0x20
              then fail malformed
              else if not (c == b'\\')
              then utf8 c
              else escape)
        (do
          require_more
          check
          c ← next_byte
          if c == b'"'
              then pure (closed b)
              else if ltb c 0x20
              then fail malformed
              else if not (c == b'\\')
              then utf8' c
              else escape')
string_turn-Follows P a b utf8 utf8' escape escape' p h k = both-Follows _ require_more _ _ λ _.
    both-Follows _ check _ _ λ _. both-Follows _ next_byte _ _ λ c.
      if-Follows _ (c == b'"') _ _ _ _ (pure-Follows _ _ _ p) (
        if-Follows _ (ltb c 0x20) _ _ _ _ (malformed-Follows _)
          (if-Follows _ (not (c == b'\\')) _ _ _ _ (h c) k))

-- What has been read fits the budget.
abbrev Fits : ℕ → List ℕ → Unit {0} → Type 0
Fits maximum result _ = length result ≤ maximum

longer_lem :
    (maximum : ℕ) (result cs : List ℕ) (k : ℕ)
    → length cs ≡ k
    → length result + k ≤ maximum
    → length (result ++ cs) ≤ maximum
longer_lem maximum result cs k e h = omega (arith, length-append result cs)

append_utf8-Follows :
    (maximum c : ℕ) (result : List ℕ)
    → Follows (Fits maximum) (append_utf8 maximum c result) (skip_utf8 c)
unfolding append_utf8
append_utf8-Follows maximum c result = elim (Bool-cases (ltb c 0x80)) [
  | inl e ↦
      rw (skip_utf8-ascii c e, e)
        (budget-Follows _ result 1 maximum _ _
          λ h. pure-Follows _ _ _ (longer_lem maximum result _ 1 refl h))
  | inr e ↦ rw e (
      then-Follows _ _ _ _ _ (skip_utf8-Follows c e) λ cs u _.
        budget-Follows _ result (length cs + 1) maximum _ _
          λ h. pure-Follows _ _ _ (longer_lem maximum result (c ∷ cs) _ (omega arith) h))
]

append_code_point-Follows :
    (maximum value : ℕ) (result : List ℕ)
    → Follows (Fits maximum) (append_code_point maximum value result) (pure tt)
unfolding append_code_point
append_code_point-Follows maximum value result =
    budget-Follows _ result (length (utf8_bytes value)) maximum _ _
      λ h. pure-Follows _ _ _ (longer_lem maximum result _ _ refl h)

short_escape-none : (e : ℕ) → (e == b'u') ≡ true → short_escape e ≡ none
unfolding short_escape
short_escape-none e h = ground arith

skip_escape-Follows :
    (maximum : ℕ) (result : List ℕ)
    → Follows (Same (Fits maximum)) (parse_escape maximum result) skip_escape
unfolding parse_escape skip_escape
skip_escape-Follows maximum result = both-Follows _ require_more _ _ λ _.
    both-Follows _ next_byte _ _ λ e. elim (Bool-cases (e == b'u')) [
      | inl h ↦
          rw (short_escape-none e h, h)
            (both-Follows _ parse_escaped_unicode _ _ λ value.
              bind-Follows (Fits maximum) _ _ (pure tt) _ (λ _. pure (more tt))
                (append_code_point-Follows maximum value result) (λ a b p. pure-Follows _ _ _ p))
      | inr h ↦ elim (Bool-cases (is_skipped_escape e)) [
        | inl g ↦ rw (h, g) (passed _ (short_escape e) (is_skipped_escape-true e g))
        | inr g ↦ rw (h, g, is_skipped_escape-false e g) (rw h (malformed-Follows _))
      ]
    ]
  where
    passed :
        (other : M (Turn (List ℕ))) (o : Option ℕ)
        → o ≢ none
        → Follows
            (Same (Fits maximum))
            (elim o as (λ _. M (Turn (List ℕ))) [
              | some b ↦ (do require_append result 1 maximum; pure (more (result ++ (b ∷ []))))
              | none ↦ other
            ])
            (pure (more tt))
    passed other none h = absurd (h refl)
    passed other (some b) _ =
        budget-Follows _ result 1 maximum _ _
          λ h. pure-Follows _ _ _ (longer_lem maximum result _ 1 refl h)

skip_turn-Follows :
    (maximum : ℕ) (result : List ℕ) (u : Unit {0})
    → Fits maximum result u
    → Follows (Same (Fits maximum)) (parse_turn maximum result) skip_turn
unfolding parse_turn skip_turn
skip_turn-Follows maximum result u p =
    string_turn-Follows (Fits maximum) result tt _ _ _ _ p
      (λ c.
        bind-Follows (Fits maximum) _ _ _ _ _ (append_utf8-Follows maximum c result)
          λ a b p. pure-Follows _ _ _ p)
      (skip_escape-Follows maximum result)

-- Skipping a string accepts what reading it accepts, leaves the same bytes after the same checks and
-- fails for the same reason, unless the reading is over its budget first; and what is read is no
-- longer than the budget.
pub parse_string-skip_string :
    (maximum : ℕ) (r : Reader)
    → Agree (λ result _. length result ≤ maximum) (parse_string maximum r) (skip_string r)
unfolding parse_string skip_string
parse_string-skip_string maximum r =
    followed
      (both-Follows (Fits maximum) (expect b'"') (λ _. loop (parse_turn maximum) [])
        (λ _. loop (λ _. skip_turn) tt)
        λ _.
          loop-Follows (Fits maximum) (parse_turn maximum) (λ _. skip_turn)
            (skip_turn-Follows maximum) [] tt (omega arith))
      r

-- The key that the bytes of a text make.
abbrev IsKeyOf : List ℕ → StrictJsonObjectKey → Type 0
IsKeyOf text key = key ≡ append_all empty_key text

more-IsKeyOf :
    (text cs : List ℕ) (key : StrictJsonObjectKey)
    → IsKeyOf text key
    → IsKeyOf (text ++ cs) (append_all key cs)
more-IsKeyOf text cs key p = rw p (append_all-append empty_key text cs)

append_utf8-key_utf8 :
    (maximum c : ℕ) (text : List ℕ)
    → Follows (λ longer cs. longer ≡ text ++ cs) (append_utf8 maximum c text) (key_utf8 c)
unfolding append_utf8
append_utf8-key_utf8 maximum c text = elim (Bool-cases (ltb c 0x80)) [
  | inl e ↦ rw e (
      budget-Follows _ text 1 maximum _ (key_utf8 c)
        λ _. follows λ r. rw (key_utf8-ascii c r e) (refl, refl))
  | inr e ↦ rw e (
      then-Follows _ _ _ _ _ (key_utf8-Follows c e) λ cs ds g.
        budget-Follows _ text (length cs + 1) maximum _ _
          λ _. pure-Follows _ _ _ (ap (λ l. text ++ l) (sym g)))
]

key_code_point-Follows :
    (maximum value : ℕ) (text : List ℕ)
    → Follows
        (λ longer _. longer ≡ text ++ utf8_bytes value)
        (append_code_point maximum value text)
        (pure (tt {0}))
unfolding append_code_point
key_code_point-Follows maximum value text =
    budget-Follows _ text (length (utf8_bytes value)) maximum _ _ λ _. pure-Follows _ _ _ refl

key_escape-Follows :
    (maximum : ℕ) (text : List ℕ) (key : StrictJsonObjectKey)
    → IsKeyOf text key
    → Follows (Same IsKeyOf) (parse_escape maximum text) (key_escape key)
unfolding parse_escape key_escape append append_all
key_escape-Follows maximum text key p = both-Follows _ require_more _ _ λ _.
    both-Follows _ next_byte _ _ λ e. rw (key_short_escape-short_escape e) (
      option-Follows _ (short_escape e) _ _ _ _
        (if-Follows _ (e == b'u') _ _ _ _
          (both-Follows _ parse_escaped_unicode _ _ λ value.
            bind-Follows _ _ _ (pure tt) _ (λ _. pure (more (key_append_code_point key value)))
              (key_code_point-Follows maximum value text)
              λ longer _ e. pure-Follows _ _ _ (
                rw (e, key_append_code_point-utf8_bytes key value)
                  (more-IsKeyOf text (utf8_bytes value) key p)))
          (malformed-Follows _))
        (λ b.
          budget-Follows _ text 1 maximum _ _
            λ _. pure-Follows _ _ _ (more-IsKeyOf text (b ∷ []) key p)))

key_turn-Follows :
    (maximum : ℕ) (text : List ℕ) (key : StrictJsonObjectKey)
    → IsKeyOf text key
    → Follows (Same IsKeyOf) (parse_turn maximum text) (key_turn key)
unfolding parse_turn key_turn
key_turn-Follows maximum text key p =
    string_turn-Follows IsKeyOf text key _ _ _ _ p
      (λ c.
        bind-Follows (λ longer cs. longer ≡ text ++ cs) _ _ _ _ _
          (append_utf8-key_utf8 maximum c text)
          λ longer cs e. pure-Follows _ _ _ (rw e (more-IsKeyOf text cs key p)))
      (key_escape-Follows maximum text key p)

-- The key of an object that is read is compared as its text: wherever the text can be read, the key
-- is read to the same place, and equals an expected text just when the two have the same bytes and
-- there are at most 64.
pub parse_string-parse_object_key :
    (maximum : ℕ) (expected : List ℕ) (r : Reader)
    → Agree
        (λ text key. key_equals key expected ≡ (leb (length text) 64 && same_bytes expected text))
        (parse_string maximum r)
        (parse_object_key r)
unfolding parse_string parse_object_key append_all
parse_string-parse_object_key maximum expected r =
    followed
      (both-Follows _ (expect b'"') (λ _. loop (parse_turn maximum) [])
        (λ _. loop key_turn empty_key)
        λ _.
          weaken-Follows IsKeyOf _ _ _
            (λ text key p. rw p (append_all_lem text empty_key expected refl (omega arith)))
            (loop-Follows IsKeyOf (parse_turn maximum) key_turn (key_turn-Follows maximum) []
              empty_key refl))
      r
