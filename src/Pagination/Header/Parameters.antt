-- ===== src/Pagination/Header/Parameters.antt =====
-- A link and its parameters, written and read by src/runtime/pagination/link_header.cpp.
use cuac.Common.{
  ℕ, suc, ◌<◌, ◌≡◌, refl, ◌∙◌, true, false, Option, none, some, List, [], ◌∷◌, ◌++◌, arith, absurd,
  All, length,
}
use cuac.Pagination.Link.Target.{is_empty}
use cuac.Pagination.Uri.Text.{is_ascii_alpha, is_ascii_digit, every}
use cuac.Pagination.Header.Scan.{
  ◌>>=◌, is_ows, skip_ows, is_token_character, parse_parameter_value, quoted_characters,
}
use cuac.Pagination.Header.Parser.{Parameters, take_value, parameter_tail, parameter, parameters}
use cuac.Pagination.Header.Fuel.{parameters_fuel}
use cuac.Pagination.Header.Values.{parse_token-append, quoted_characters-escape}
use cuac.Pagination.Header.Render.{escape, render_parameter, render_parameters, is_text_character}

-- A parameter that can be written: its name is a token, and its value can be quoted.
abbrev pub IsParameter : List ℕ × List ℕ → Type 0
IsParameter (name, value) =
    (every is_token_character name ≡ true)
    × (is_empty name ≡ false)
    × (every is_text_character value ≡ true)

equals_token : is_token_character b'=' ≡ false
unfolding is_token_character is_ascii_alpha is_ascii_digit
equals_token = refl

token-skip_ows :
    (name rest : List ℕ)
    → every is_token_character name ≡ true
    → is_empty name ≡ false
    → skip_ows (b' ' ∷ (name ++ rest)) ≡ name ++ rest
unfolding skip_ows is_ows every is_token_character is_ascii_alpha is_ascii_digit
token-skip_ows [] rest h e = absurd (ground arith)
token-skip_ows (c ∷ cs) rest h e = ground arith

-- One parameter, written and read.
parameter-render :
    (p : Parameters) (name value rest : List ℕ)
    → IsParameter (name, value)
    → parameter p (b' ' ∷ (name ++ (b'=' ∷ b'"' ∷ (escape value ++ (b'"' ∷ rest)))))
      ≡ (take_value p name value >>= λ q. some (q, rest))
unfolding parameter
parameter-render p name value rest (t, n, v) =
    let text = b'"' ∷ (escape value ++ (b'"' ∷ rest)) in
    rw
      (
        parameter,
        token-skip_ows name (b'=' ∷ text) t n,
        parse_token-append name b'=' text t n equals_token,
      )
      (behind (quoted_characters-escape value rest v))
  where
    behind :
        quoted_characters (escape value ++ (b'"' ∷ rest)) ≡ some (value, rest)
        → parameter_tail p name (skip_ows (b'=' ∷ b'"' ∷ (escape value ++ (b'"' ∷ rest))))
          ≡ (take_value p name value >>= λ q. some (q, rest))
    behind e = unfold parameter_tail skip_ows is_ows parse_parameter_value in rw e refl

-- What a value's parameters come to, one after another.
unfoldable pub take_all : Parameters → List (List ℕ × List ℕ) → Option Parameters
take_all p [] = some p
take_all p ((name, value) ∷ ps) = take_value p name value >>= λ q. take_all q ps

-- What can stand behind the parameters of a link: nothing, or the comma before the next one.
pub data IsBehind : List ℕ → Type 0 where
  nothing : IsBehind []
  comma : {cs : List ℕ} → IsBehind (b',' ∷ cs)

skip_ows-parameters :
    (ps : List (List ℕ × List ℕ)) (rest : List ℕ)
    → IsBehind rest
    → skip_ows (render_parameters ps rest) ≡ render_parameters ps rest
unfolding skip_ows is_ows render_parameters render_parameter
skip_ows-parameters [] _ nothing = refl
skip_ows-parameters [] _ comma = refl
skip_ows-parameters (p ∷ ps) rest b = refl

-- A turn for each, and more.
abbrev pub above : {A : Type 0} → List A → ℕ → ℕ
above [] k = suc k
above (x ∷ xs) k = suc (above xs k)

pub le-above : {A : Type 0} (xs : List A) (k : ℕ) → k < above xs k
le-above [] k = omega arith
le-above (x ∷ xs) k = omega (arith, le-above xs k)

parameters-render_with :
    (ps : List (List ℕ × List ℕ)) (p : Parameters) (rest : List ℕ) (k : ℕ)
    → All IsParameter ps
    → IsBehind rest
    → parameters (above ps k) p (render_parameters ps rest)
      ≡ (take_all p ps >>= λ q. some (q, rest))
unfolding parameters render_parameters take_all render_parameter take_value
parameters-render_with [] p _ k h nothing = refl
parameters-render_with [] p _ k h comma = refl
parameters-render_with ((name, value) ∷ ps) p rest k h b =
    rw (parameter-render p name value (render_parameters ps rest) h.0)
      (next (take_value p name value) (λ q. parameters-render_with ps q rest k h.1 b))
  where
    next :
        (o : Option Parameters)
        → ((q : Parameters)
            → parameters (above ps k) q (render_parameters ps rest)
              ≡ (take_all q ps >>= λ r. some (r, rest)))
        → (◌>>=◌ {B = Parameters × List ℕ} o (λ q. some (q, render_parameters ps rest)) >>= λ qr.
            parameters (above ps k) qr.0 (skip_ows qr.1))
          ≡ ((o >>= λ q. take_all q ps) >>= λ r. some (r, rest))
    next none f = refl
    next (some q) f = rw (skip_ows-parameters ps rest b) (f q)

pub parameters-render :
    (ps : List (List ℕ × List ℕ)) (p : Parameters) (rest : List ℕ)
    → All IsParameter ps
    → IsBehind rest
    → parameters (suc (length (render_parameters ps rest))) p (skip_ows (render_parameters ps rest))
      ≡ (take_all p ps >>= λ q. some (q, rest))
parameters-render ps p rest h b =
    let text = render_parameters ps rest in
    rw (skip_ows-parameters ps rest b) (
      parameters_fuel (suc (length text)) (above ps (length text)) p text (omega arith)
        (le-above ps (length text))
      ∙ parameters-render_with ps p rest (length text) h b)
