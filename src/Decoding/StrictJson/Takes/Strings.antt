-- ===== src/Decoding/StrictJson/Takes/Strings.antt =====
-- The passes over a string, of src/runtime/decoding/strict_json_reader.cpp, return and take a byte.
use cuac.Common.{
  ℕ, zero, suc, ◌-◌, ◌/◌, not, ◌||◌, ◌&&◌, List, [], length, ltb, leb, ◌==◌, if◌then◌else◌, arith,
}
use cuac.Decoding.StrictJson.Reader.{
  malformed, M, ◌>>=◌, ◌>>◌, pure, fail, check, next_byte, require_more, Turn,
}
use cuac.Decoding.StrictJson.Strings.{
  hex_digit, hex_digits, parse_hex_code_unit, low_surrogate, parse_escaped_unicode, require_append,
  utf8_lead, utf8_tail, utf8_sequence, append_utf8, append_code_point, short_escape, parse_escape,
  parse_turn, parse_string,
}
use cuac.Decoding.StrictJson.Skips.{
  skip_lead, skip_tail, skip_utf8, is_skipped_escape, skip_escape, skip_turn, skip_string,
}
use cuac.Decoding.StrictJson.Keys.{
  StrictJsonObjectKey, empty_key, key_short_escape, key_escape, key_utf8, key_turn,
  parse_object_key,
}
use cuac.Decoding.StrictJson.Takes.{
  Left, Takes, takes, taken, bind-Safe, weaken-Takes, if-Takes, option-Takes, pure-Takes,
  bind-Takes, malformed-Takes, over_budget-Takes, check-Takes, next_byte-Takes, require_more-Takes,
  expect-Takes, Takes→Advances, loop-Takes,
}

module _ {budget : ℕ} where
  pub hex_digits-Takes : (n result : ℕ) → Takes budget 0 (hex_digits n result)
  unfolding hex_digits
  hex_digits-Takes zero result = pure-Takes result
  hex_digits-Takes (suc n) result = bind-Takes 0 0 _ _ check-Takes λ _.
      bind-Takes 0 0 _ _ (weaken-Takes _ 1 0 (omega arith) next_byte-Takes)
        λ c. option-Takes 0 (hex_digit c) _ _ (malformed-Takes _ _) λ d. hex_digits-Takes n _

  pub low_surrogate-Takes : (value : ℕ) → Takes budget 0 (low_surrogate value)
  unfolding low_surrogate parse_hex_code_unit
  low_surrogate-Takes value =
      bind-Takes 0 0 _ _ (weaken-Takes _ 1 0 (omega arith) next_byte-Takes) λ a.
        bind-Takes 0 0 _ _ (weaken-Takes _ 1 0 (omega arith) next_byte-Takes) λ b.
          bind-Takes 0 0 _ _
            (if-Takes 0 (a == b'\\' && b == b'u') _ _ (pure-Takes tt) (malformed-Takes _ _))
            λ _. bind-Takes 0 0 _ _ (hex_digits-Takes 4 0) λ low.
              if-Takes 0 (ltb low 0xdc00 || ltb 0xdfff low) _ _ (malformed-Takes _ _) (pure-Takes _)

  pub parse_escaped_unicode-Takes : Takes budget 0 parse_escaped_unicode
  unfolding parse_escaped_unicode parse_hex_code_unit
  parse_escaped_unicode-Takes = bind-Takes 0 0 _ _ (hex_digits-Takes 4 0) λ value.
      if-Takes 0 (leb 0xd800 value && leb value 0xdbff) _ _ (low_surrogate-Takes value) (
        if-Takes 0 (leb 0xdc00 value && leb value 0xdfff) _ _ (malformed-Takes _ _)
          (pure-Takes value))

  pub utf8_tail-Takes : (n value : ℕ) → Takes budget 0 (utf8_tail n value)
  unfolding utf8_tail
  utf8_tail-Takes zero value = pure-Takes _
  utf8_tail-Takes (suc n) value = bind-Takes 0 0 _ _ check-Takes λ _.
      bind-Takes 0 0 _ _ (weaken-Takes _ 1 0 (omega arith) next_byte-Takes) λ c.
        bind-Takes 0 0 _ _ (if-Takes 0 (c / 64 == 2) _ _ (pure-Takes tt) (malformed-Takes _ _))
          λ _. bind-Takes 0 0 _ _ (utf8_tail-Takes n _) λ (last, cs). pure-Takes _

  pub utf8_sequence-Takes : (first : ℕ) → Takes budget 0 (utf8_sequence first)
  unfolding utf8_sequence
  utf8_sequence-Takes first = option-Takes 0 (utf8_lead first) _ _ (malformed-Takes _ _) λ lead.
      bind-Takes 0 0 _ _ (utf8_tail-Takes lead.count lead.value)
        λ t. if-Takes 0 _ _ _ (malformed-Takes _ _) (pure-Takes t.1)

  skip_tail-Takes : (n value : ℕ) → Takes budget 0 (skip_tail n value)
  unfolding skip_tail
  skip_tail-Takes zero value = pure-Takes _
  skip_tail-Takes (suc n) value = bind-Takes 0 0 _ _ check-Takes λ _.
      bind-Takes 0 0 _ _ (weaken-Takes _ 1 0 (omega arith) next_byte-Takes) λ c.
        bind-Takes 0 0 _ _ (if-Takes 0 (c / 64 == 2) _ _ (pure-Takes tt) (malformed-Takes _ _))
          λ _. skip_tail-Takes n _

  pub skip_utf8-Takes : (first : ℕ) → Takes budget 0 (skip_utf8 first)
  unfolding skip_utf8
  skip_utf8-Takes first = if-Takes 0 (ltb first 0x80) _ _ (pure-Takes tt) (
      option-Takes 0 (skip_lead first) _ _ (malformed-Takes _ _) λ lead.
        bind-Takes 0 0 _ _ (skip_tail-Takes lead.count lead.value)
          λ t. if-Takes 0 _ _ _ (malformed-Takes _ _) (pure-Takes tt))

  pub skip_escape-Takes : Takes budget 1 skip_escape
  unfolding skip_escape
  skip_escape-Takes = bind-Takes 0 1 _ _ require_more-Takes λ _.
      bind-Takes 1 0 _ _ next_byte-Takes λ e.
        if-Takes 0 (e == b'u') _ _
          (bind-Takes 0 0 _ _ parse_escaped_unicode-Takes λ _. pure-Takes _)
          (if-Takes 0 (is_skipped_escape e) _ _ (pure-Takes _) (malformed-Takes _ _))

  -- The shape of a turn of the three loops on a string.
  pub string_turn-Takes :
      {A : Type 0} (end : Turn A) (utf8 : ℕ → M (Turn A)) (escape : M (Turn A))
      → ((c : ℕ) → Takes budget 0 (utf8 c))
      → Takes budget 1 escape
      → Takes budget 1 (do
        require_more
        check
        c ← next_byte
        if c == b'"'
            then pure end
            else if ltb c 0x20
            then fail malformed
            else if not (c == b'\\')
            then utf8 c
            else escape)
  string_turn-Takes end utf8 escape h g = bind-Takes 0 1 _ _ require_more-Takes λ _.
      bind-Takes 0 1 _ _ check-Takes λ _. bind-Takes 1 0 _ _ next_byte-Takes λ c.
        if-Takes 0 (c == b'"') _ _ (pure-Takes _) (
          if-Takes 0 (ltb c 0x20) _ _ (malformed-Takes _ _)
            (if-Takes 0 (not (c == b'\\')) _ _ (h c) (weaken-Takes _ 1 0 (omega arith) g)))

  pub skip_turn-Takes : Takes budget 1 skip_turn
  unfolding skip_turn
  skip_turn-Takes =
      string_turn-Takes _ _ _ (λ c. bind-Takes 0 0 _ _ (skip_utf8-Takes c) λ _. pure-Takes _)
        skip_escape-Takes

  pub skip_string-Takes : Takes budget 1 skip_string
  unfolding skip_string
  skip_string-Takes =
      bind-Takes 1 0 _ _ (expect-Takes b'"')
        λ _. loop-Takes _ (λ _. Takes→Advances _ skip_turn-Takes) tt

  pub require_append-Takes :
      (result : List ℕ) (additional maximum : ℕ)
      → Takes budget 0 (require_append result additional maximum)
  unfolding require_append
  require_append-Takes result additional maximum =
      if-Takes 0 (ltb maximum additional || ltb (maximum - additional) (length result)) _ _
        (over_budget-Takes _ _) (pure-Takes tt)

  pub append_utf8-Takes :
      (maximum first : ℕ) (result : List ℕ) → Takes budget 0 (append_utf8 maximum first result)
  unfolding append_utf8
  append_utf8-Takes maximum first result =
      if-Takes 0 (ltb first 0x80) _ _
        (bind-Takes 0 0 _ _ (require_append-Takes result 1 maximum) λ _. pure-Takes _)
        (bind-Takes 0 0 _ _ (utf8_sequence-Takes first)
          λ cs. bind-Takes 0 0 _ _ (require_append-Takes result _ maximum) λ _. pure-Takes _)

  pub parse_escape-Takes :
      (maximum : ℕ) (result : List ℕ) → Takes budget 1 (parse_escape maximum result)
  unfolding parse_escape append_code_point
  parse_escape-Takes maximum result = bind-Takes 0 1 _ _ require_more-Takes λ _.
      bind-Takes 1 0 _ _ next_byte-Takes λ e.
        option-Takes 0 (short_escape e) _ _
          (if-Takes 0 (e == b'u') _ _
            (bind-Takes 0 0 _ _ parse_escaped_unicode-Takes λ value.
              bind-Takes 0 0 _ _
                (bind-Takes 0 0 _ _ (require_append-Takes result _ maximum) λ _. pure-Takes _)
                λ longer. pure-Takes _)
            (malformed-Takes _ _))
          (λ b. bind-Takes 0 0 _ _ (require_append-Takes result 1 maximum) λ _. pure-Takes _)

  pub parse_turn-Takes :
      (maximum : ℕ) (result : List ℕ) → Takes budget 1 (parse_turn maximum result)
  unfolding parse_turn
  parse_turn-Takes maximum result =
      string_turn-Takes _ _ _
        (λ c. bind-Takes 0 0 _ _ (append_utf8-Takes maximum c result) λ _. pure-Takes _)
        (parse_escape-Takes maximum result)

  pub parse_string-Takes : (maximum : ℕ) → Takes budget 1 (parse_string maximum)
  unfolding parse_string
  parse_string-Takes maximum =
      bind-Takes 1 0 _ _ (expect-Takes b'"')
        λ _. loop-Takes _ (λ result. Takes→Advances _ (parse_turn-Takes maximum result)) []

  pub key_escape-Takes : (key : StrictJsonObjectKey) → Takes budget 1 (key_escape key)
  unfolding key_escape
  key_escape-Takes key = bind-Takes 0 1 _ _ require_more-Takes λ _.
      bind-Takes 1 0 _ _ next_byte-Takes λ e.
        option-Takes 0 (key_short_escape e) _ _
          (if-Takes 0 (e == b'u') _ _
            (bind-Takes 0 0 _ _ parse_escaped_unicode-Takes λ value. pure-Takes _)
            (malformed-Takes _ _))
          (λ b. pure-Takes _)

  pub key_utf8-Takes : (first : ℕ) → Takes budget 0 (key_utf8 first)
  unfolding key_utf8
  key_utf8-Takes first = takes λ n r l.
      bind-Safe (Left 0 n budget) (Left 0 n budget) (skip_utf8 first r) _
        (taken (skip_utf8-Takes first) n r l) (λ _ s m. m)

  pub key_turn-Takes : (key : StrictJsonObjectKey) → Takes budget 1 (key_turn key)
  unfolding key_turn
  key_turn-Takes key =
      string_turn-Takes _ _ _ (λ c. bind-Takes 0 0 _ _ (key_utf8-Takes c) λ _. pure-Takes _)
        (key_escape-Takes key)

  pub parse_object_key-Takes : Takes budget 1 parse_object_key
  unfolding parse_object_key
  parse_object_key-Takes =
      bind-Takes 1 0 _ _ (expect-Takes b'"')
        λ _. loop-Takes _ (λ key. Takes→Advances _ (key_turn-Takes key)) empty_key
