-- ===== src/Pagination/Header/Fuel.antt =====
-- The loops of src/runtime/pagination/link_header.cpp end.
use cuac.Common.{
  ℕ, zero, suc, ◌+◌, ◌≤◌, ◌<◌, ◌≡◌, inl, inr, refl, Bool, true, false, Option, none, some, List, [],
  ◌∷◌, length, ◌==◌, arith, Option-cases, absurd, ltb, not, ◌&&◌, ◌||◌, if◌then◌else◌,
}
use cuac.Pagination.Uri.Text.{find}
use cuac.Pagination.Header.Scan.{
  ◌>>=◌, skip_ows, span_token, parse_token, push, quoted_characters, parse_parameter_value,
}
use cuac.Pagination.Header.Parser.{
  Parameters, take_name, take_value, parameter_tail, parameter, parameters, no_parameters, visit,
  parse_opened_value, parse_link_value, ignore_empty_element, skip_empty_elements, after_comma,
  after_value, parse_elements,
}

pub length-skip_ows : (text : List ℕ) → length (skip_ows text) ≤ length text
unfolding skip_ows
length-skip_ows [] = omega arith
length-skip_ows (c ∷ cs) = let rest = length-skip_ows cs in ground arith

length-span_token : (text : List ℕ) → length (span_token text).1 ≤ length text
unfolding span_token
length-span_token [] = omega arith
length-span_token (c ∷ cs) = let rest = length-span_token cs in ground arith

-- A result that leaves at most so many bytes.
pub data Leaves {A : Type 0} (n : ℕ) : Option (A × List ℕ) → Type 0 where
  failed : Leaves n none
  leaves : {a : A} {rest : List ℕ} → length rest ≤ n → Leaves n (some (a, rest))

Leaves-mono : {A : Type 0} {n m : ℕ} {r : Option (A × List ℕ)} → n ≤ m → Leaves n r → Leaves m r
Leaves-mono h failed = failed
Leaves-mono h (leaves k) = leaves (omega (arith, h, k))

Leaves-bind :
    {A B : Type 0} {n k : ℕ} {r : Option (A × List ℕ)} (f : A × List ℕ → Option (B × List ℕ))
    → Leaves n r
    → ((a : A) (rest : List ℕ) → length rest ≤ n → Leaves k (f (a, rest)))
    → Leaves k (r >>= f)
Leaves-bind f failed g = failed
Leaves-bind f (leaves {a} {rest} h) g = g a rest h

Leaves-with :
    {A B : Type 0} {n : ℕ} (rest : List ℕ) (o : Option A) (g : A → B)
    → length rest ≤ n
    → Leaves n (o >>= λ a. some (g a, rest))
Leaves-with rest none g h = failed
Leaves-with rest (some a) g h = leaves h

Leaves-if :
    {A : Type 0} {n : ℕ} {r s : Option (A × List ℕ)} (b : Bool)
    → Leaves n r
    → Leaves n s
    → Leaves n (if b then r else s)
Leaves-if true x y = x
Leaves-if false x y = y

parse_token-Leaves : (text : List ℕ) → Leaves (length text) (parse_token text)
unfolding parse_token
parse_token-Leaves text = Leaves-if _ failed (leaves (length-span_token text))

push-Leaves : {n : ℕ} {r : Option (List ℕ × List ℕ)} (c : ℕ) → Leaves n r → Leaves n (push c r)
unfolding push
push-Leaves c failed = failed
push-Leaves c (leaves h) = leaves h

quoted_characters-Leaves : (text : List ℕ) → Leaves (length text) (quoted_characters text)
unfolding quoted_characters
quoted_characters-Leaves [] = failed
quoted_characters-Leaves (c ∷ []) = Leaves-if _ (leaves (omega arith)) failed
quoted_characters-Leaves (c ∷ d ∷ cs) =
    choose (Leaves-mono (omega arith) (push-Leaves d (quoted_characters-Leaves cs)))
      (Leaves-mono (omega arith) (push-Leaves c (quoted_characters-Leaves (d ∷ cs)))) (c == b'"')
      (c == b'\\') (ltb d 32 || ltb 126 d) (ltb c 32 && not (c == b'\t') || c == 127)
  where
    choose :
        Leaves (length (c ∷ d ∷ cs)) (push d (quoted_characters cs))
        → Leaves (length (c ∷ d ∷ cs)) (push c (quoted_characters (d ∷ cs)))
        → (q s x y : Bool)
        → Leaves (length (c ∷ d ∷ cs)) (elim q [
          | true ↦ some ([], d ∷ cs)
          | false ↦ elim s [
            | true ↦ elim x [ true ↦ none | false ↦ push d (quoted_characters cs) ]
            | false ↦ elim y [ true ↦ none | false ↦ push c (quoted_characters (d ∷ cs)) ]
          ]
        ])
    choose short long true s x y = leaves (omega arith)
    choose short long false true true y = failed
    choose short long false true false y = short
    choose short long false false x true = failed
    choose short long false false x false = long

parse_parameter_value-Leaves : (text : List ℕ) → Leaves (length text) (parse_parameter_value text)
unfolding parse_parameter_value
parse_parameter_value-Leaves [] = parse_token-Leaves []
parse_parameter_value-Leaves (c ∷ cs) =
    choose (Leaves-mono (omega arith) (quoted_characters-Leaves cs)) (parse_token-Leaves (c ∷ cs))
      (c == b'"')
  where
    choose :
        Leaves (length (c ∷ cs)) (quoted_characters cs)
        → Leaves (length (c ∷ cs)) (parse_token (c ∷ cs))
        → (q : Bool)
        → Leaves
            (length (c ∷ cs))
            (elim q [ true ↦ quoted_characters cs | false ↦ parse_token (c ∷ cs) ])
    choose quote token true = quote
    choose quote token false = token

parameter_tail-Leaves :
    (p : Parameters) (name text : List ℕ) → Leaves (length text) (parameter_tail p name text)
unfolding parameter_tail
parameter_tail-Leaves p name [] = Leaves-with [] (take_name p name) (λ q. q) (omega arith)
parameter_tail-Leaves p name (c ∷ cs) =
    Leaves-if _ (Leaves-with (c ∷ cs) (take_name p name) (λ q. q) (omega arith)) (
      Leaves-bind _ (parse_parameter_value-Leaves (skip_ows cs)) (λ value rest h.
        Leaves-with rest (take_value p name value) (λ q. q) (omega (arith, length-skip_ows cs, h))))

pub parameter-Leaves : (p : Parameters) (text : List ℕ) → Leaves (length text) (parameter p text)
unfolding parameter
parameter-Leaves p text = Leaves-bind _ (parse_token-Leaves (skip_ows text)) (λ name rest h.
    Leaves-mono (omega (arith, length-skip_ows text, length-skip_ows rest, h))
      (parameter_tail-Leaves p name (skip_ows rest)))

pub Leaves-length :
    {A : Type 0} {n : ℕ} {r : Option (A × List ℕ)} {a : A} (tail : List ℕ)
    → Leaves n r
    → r ≡ some (a, tail)
    → length tail ≤ n
Leaves-length tail failed e = absurd (ground arith)
Leaves-length tail (leaves {rest = text} h) e =
    let same : text ≡ tail = ground arith in ground arith

pub parameters_fuel :
    (f g : ℕ) (p : Parameters) (text : List ℕ)
    → length text < f
    → length text < g
    → parameters f p text ≡ parameters g p text
unfolding parameters
parameters_fuel zero g p text h k = absurd (omega (arith, h))
parameters_fuel (suc f) zero p text h k = absurd (omega (arith, k))
parameters_fuel (suc f) (suc g) p [] h k = refl
parameters_fuel (suc f) (suc g) p (c ∷ cs) h k = elim (Option-cases (parameter p cs)) [
  | inl e ↦ ground arith
  | inr ((q, rest), e) ↦
      let left = Leaves-length rest (parameter-Leaves p cs) e in
      let short = length-skip_ows rest in
      let ih =
        parameters_fuel f g q (skip_ows rest) (omega (arith, h, left, short))
          (omega (arith, k, left, short)) in
      ground arith
]

parameters-Leaves :
    (f : ℕ) (p : Parameters) (text : List ℕ) → Leaves (length text) (parameters f p text)
unfolding parameters
parameters-Leaves zero p text = failed
parameters-Leaves (suc f) p [] = leaves (omega arith)
parameters-Leaves (suc f) p (c ∷ cs) = Leaves-if _ (leaves (omega arith)) (
    Leaves-if _ failed (
      Leaves-bind _ (parameter-Leaves p cs) (λ q rest h.
        Leaves-mono (omega (arith, length-skip_ows rest, h))
          (parameters-Leaves f q (skip_ows rest)))))

find-Leaves : (b : ℕ) (text : List ℕ) → Leaves (length text) (find b text)
unfolding find
find-Leaves b [] = failed
find-Leaves b (c ∷ cs) = Leaves-if _ (leaves (omega arith)) (onto (find b cs) (find-Leaves b cs))
  where
    onto :
        (found : Option (List ℕ × List ℕ))
        → Leaves (length cs) found
        → Leaves
            (length (c ∷ cs))
            (elim found [ none ↦ none | some (before, after) ↦ some (c ∷ before, after) ])
    onto _ failed = failed
    onto _ (leaves h) = leaves (omega (arith, h))

visit-Leaves :
    (target : List ℕ) (p : Parameters) (rest : List ℕ)
    → Leaves (length rest) (visit target (p, rest))
unfolding visit
visit-Leaves target p rest = Leaves-if _ failed (leaves (omega arith))

parse_opened_value-Leaves : (text : List ℕ) → Leaves (length text) (parse_opened_value text)
unfolding parse_opened_value
parse_opened_value-Leaves text = Leaves-bind _ (find-Leaves b'>' text) (λ target rest h.
    Leaves-if _ failed (
      Leaves-bind _ (parameters-Leaves _ no_parameters (skip_ows rest)) (λ p left k.
        Leaves-mono (omega (arith, h, k, length-skip_ows rest)) (visit-Leaves target p left))))

pub parse_link_value-Leaves : (c : ℕ) (cs : List ℕ) → Leaves (length cs) (parse_link_value (c ∷ cs))
unfolding parse_link_value
parse_link_value-Leaves c cs = Leaves-if _ failed (parse_opened_value-Leaves cs)

skip_empty_elements-Leaves :
    (ignored : ℕ) (text : List ℕ) → Leaves (length text) (skip_empty_elements ignored text)
unfolding skip_empty_elements ignore_empty_element
skip_empty_elements-Leaves ignored [] = leaves (omega arith)
skip_empty_elements-Leaves ignored (c ∷ cs) =
    Leaves-if _ (counting (ltb 128 (ignored + 1)) (skip_empty_elements-Leaves (ignored + 1) cs)) (
      Leaves-if _ (Leaves-mono (omega arith) (skip_empty_elements-Leaves ignored cs))
        (leaves (omega arith)))
  where
    counting :
        (over : Bool)
        → Leaves (length cs) (skip_empty_elements (ignored + 1) cs)
        → Leaves
            (length (c ∷ cs))
            ((if over then none else some (ignored + 1)) >>= λ n. skip_empty_elements n cs)
    counting true h = failed
    counting false h = Leaves-mono (omega arith) h

after_comma-Leaves : (ignored : ℕ) (text : List ℕ) → Leaves (length text) (after_comma ignored text)
unfolding after_comma
after_comma-Leaves ignored [] = Leaves-with [] (ignore_empty_element ignored) (λ n. n) (omega arith)
after_comma-Leaves ignored (c ∷ cs) = skip_empty_elements-Leaves ignored (c ∷ cs)

pub after_value-Leaves :
    (ignored : ℕ) (text : List ℕ) → Leaves (length text) (after_value ignored text)
unfolding after_value
after_value-Leaves ignored [] = leaves (omega arith)
after_value-Leaves ignored (c ∷ cs) =
    Leaves-if _ failed
      (Leaves-mono (omega (arith, length-skip_ows cs)) (after_comma-Leaves ignored (skip_ows cs)))

-- The loop on a field's values comes to the same with any number of turns above the length of the
-- text: it ends before it runs out of them.
pub parse_elements_fuel :
    (f g ignored : ℕ) (text : List ℕ)
    → length text < f
    → length text < g
    → parse_elements f ignored text ≡ parse_elements g ignored text
unfolding parse_elements
parse_elements_fuel zero g ignored text h k = absurd (omega (arith, h))
parse_elements_fuel (suc f) zero ignored text h k = absurd (omega (arith, k))
parse_elements_fuel (suc f) (suc g) ignored [] h k = refl
parse_elements_fuel (suc f) (suc g) ignored (c ∷ cs) h k =
    elim (Option-cases (parse_link_value (c ∷ cs))) [
      | inl e ↦ rw (parse_elements, e) refl
      | inr ((v, rest), e) ↦ elim (Option-cases (after_value ignored (skip_ows rest))) [
        | inl m ↦ rw (parse_elements, e, m) refl
        | inr ((counted, text), m) ↦
            let left = Leaves-length rest (parse_link_value-Leaves c cs) e in
            let short = length-skip_ows rest in
            let further = Leaves-length text (after_value-Leaves ignored (skip_ows rest)) m in
            let ih =
              parse_elements_fuel f g counted text (omega (arith, h, left, short, further))
                (omega (arith, k, left, short, further)) in
            rw (parse_elements, e, m, ih) refl
      ]
    ]
