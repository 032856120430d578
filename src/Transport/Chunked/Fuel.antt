-- ===== src/Transport/Chunked/Fuel.antt =====
-- The loops of a chunk-size line end: a rule for the fuel, and the parts of the line.
use cuac.Common.{
  ◌*◌, ◌||◌, ℕ, zero, suc, ◌+◌, ◌≤◌, ◌<◌, ◌≢◌, inl, inr, Bool, true, false, List, [], ◌∷◌, length,
  arith, Bool-cases, Option-cases, ◌==◌,
}
use cuac.Transport.Chunked.Control.{
  ExecutionControl, out_of_fuel, Result, ok, err, ◌>>=◌, Scan, check_execution_state, checkpoint,
}
use cuac.Transport.Chunked.Line.{
  hex_value, head_is, is_end, Round, finished, more, end_of_line, extension_name, extension,
  skip_while, skip_ows, parse_token, quoted, parse_quoted_string, size_digits, extension_value,
  extensions, expect, parse_chunk_size, is_ows, is_token_character,
}

-- A result that is no lack of fuel, and a value with a property.
abbrev pub Safe : {A : Type 0} → (A → Type 0) → Result A → Type 0
Safe P (ok a) = P a
Safe P (err e) = e ≢ out_of_fuel

abbrev pub Any : {A : Type 0} → A → Type 0
Any _ = Unit

pub bind-Safe :
    {A B : Type 0} (P : A → Type 0) (Q : B → Type 0) (m : Result A) (f : A → Result B)
    → Safe P m
    → ((a : A) → P a → Safe Q (f a))
    → Safe Q (m >>= f)
bind-Safe P Q (ok a) f h k = k a h
bind-Safe P Q (err e) f h k = h

-- At most `n` bytes are left.
abbrev pub Left : ℕ → Scan → Type 0
Left n s = length s.rest ≤ n

pub check_execution_state-Safe :
    (control : ExecutionControl) (k : ℕ) → Safe Any (check_execution_state control k)
unfolding check_execution_state
check_execution_state-Safe control k = ground arith

pub checkpoint-Safe : (control : ExecutionControl) (o k : ℕ) → Safe Any (checkpoint control o k)
unfolding checkpoint
checkpoint-Safe control o k = ground (arith, check_execution_state-Safe control k)

skip_while-Safe :
    (test : ℕ → Bool) (control : ExecutionControl) (cs : List ℕ) (o k : ℕ)
    → Safe (Left (length cs)) (skip_while test control cs o k)
unfolding skip_while
skip_while-Safe test control [] o k = omega arith
skip_while-Safe test control (c ∷ cs) o k = elim (Bool-cases (test c)) [
  | inl e ↦ rw e (
      bind-Safe Any (Left (suc (length cs))) (checkpoint control o k) _
        (checkpoint-Safe control o k)
        (λ k' _. weaken _ (skip_while-Safe test control cs (o + 1) k')))
  | inr e ↦ rw e (omega arith)
]
  where
    weaken : (r : Result Scan) → Safe (Left (length cs)) r → Safe (Left (suc (length cs))) r
    weaken (ok t) h = omega arith
    weaken (err e) h = h

weaken : (m n : ℕ) (r : Result Scan) → m ≤ n → Safe (Left m) r → Safe (Left n) r
weaken m n (ok t) h k = omega arith
weaken m n (err e) h k = k

skip_ows-Safe :
    (control : ExecutionControl) (s : Scan) → Safe (Left (length s.rest)) (skip_ows control s)
unfolding skip_ows
skip_ows-Safe control s = skip_while-Safe is_ows control s.rest s.offset s.checks

pub parse_token-Safe :
    (control : ExecutionControl) (s : Scan) → Safe (Left (length s.rest)) (parse_token control s)
unfolding parse_token
parse_token-Safe control s =
    bind-Safe (Left (length s.rest)) (Left (length s.rest)) _ _
      (skip_while-Safe is_token_character control s.rest s.offset s.checks) (λ t h. ground arith)

quoted-Safe :
    (control : ExecutionControl) (escaped : Bool) (cs : List ℕ) (o k : ℕ)
    → Safe (Left (length cs)) (quoted control escaped cs o k)
unfolding quoted
quoted-Safe control true [] o k = λ e. cc
quoted-Safe control false [] o k = λ e. cc
quoted-Safe control true (c ∷ cs) o k =
    let ih = quoted-Safe control false cs (o + 1) k in ground arith
quoted-Safe control false (c ∷ cs) o k =
    bind-Safe Any (Left (suc (length cs))) (checkpoint control o k) _ (checkpoint-Safe control o k)
      (λ k' _. let ih = quoted-Safe control (c == b'\\') cs (o + 1) k' in ground arith)

pub expect-Safe : (b : ℕ) (s : Scan) → Safe (λ t. length t.rest < length s.rest) (expect b s)
unfolding expect
expect-Safe b s = ground arith

parse_quoted_string-Safe :
    (control : ExecutionControl) (s : Scan)
    → Safe (Left (length s.rest)) (parse_quoted_string control s)
unfolding parse_quoted_string
parse_quoted_string-Safe control s =
    bind-Safe _ (Left (length s.rest)) (expect b'"' s) _ (expect-Safe b'"' s) (λ t h.
      weaken (length t.rest) _ _ (omega arith) (quoted-Safe control false t.rest t.offset t.checks))

-- The digits and what they leave.
abbrev LeftDigits : ℕ → Bool × ℕ × Scan → Type 0
LeftDigits n (saw, result, s) = length s.rest ≤ n

size_digits-Safe :
    (control : ExecutionControl) (cs : List ℕ) (o k : ℕ) (saw : Bool) (result : ℕ)
    → Safe (LeftDigits (length cs)) (size_digits control cs o k saw result)
unfolding size_digits
size_digits-Safe control [] o k saw result = omega arith
size_digits-Safe control (c ∷ cs) o k saw result =
    bind-Safe Any (LeftDigits (suc (length cs))) (checkpoint control o k) _
      (checkpoint-Safe control o k)
      (λ k' _. elim (Bool-cases (is_ows c || c == b';')) [
        | inl e ↦ rw e (omega arith)
        | inr e ↦ rw e (elim (Option-cases (hex_value c)) [
          | inl h ↦ rw h (λ e. cc)
          | inr (d, h) ↦ rw h (
              let ih = size_digits-Safe control cs (o + 1) k' true (result * 16 + d) in
              ground arith)
        ])
      ])

extension_value-Safe :
    (control : ExecutionControl) (s : Scan)
    → Safe (Left (length s.rest)) (extension_value control s)
unfolding extension_value
extension_value-Safe control s = elim (Bool-cases (head_is b'=' s.rest)) [
  | inl e ↦ rw e (
      bind-Safe _ (Left (length s.rest)) (expect b'=' s) _ (expect-Safe b'=' s) (λ t h.
        bind-Safe (Left (length t.rest)) (Left (length s.rest)) (skip_ows control t) _
          (skip_ows-Safe control t)
          (λ u j. elim (Bool-cases (head_is b'"' u.rest)) [
            | inl q ↦
                rw q (weaken (length u.rest) _ _ (omega arith) (parse_quoted_string-Safe control u))
            | inr q ↦ rw q (weaken (length u.rest) _ _ (omega arith) (parse_token-Safe control u))
          ])))
  | inr e ↦ rw e (omega arith)
]

-- Every round of the loop reads a semicolon.
abbrev Reads : ℕ → Round → Type 0
Reads n (finished k) = Unit
Reads n (more t) = length t.rest < n

end_of_line-Safe : (n start : ℕ) (s : Scan) → Safe (Reads n) (end_of_line start s)
end_of_line-Safe n start s = ground arith

extension_name-Safe :
    (n : ℕ) (control : ExecutionControl) (s : Scan)
    → length s.rest < n
    → Safe (Reads n) (extension_name control s)
unfolding extension_name
extension_name-Safe n control s h =
    bind-Safe _ (Reads n) (skip_ows control s) _ (skip_ows-Safe control s) λ u hu.
      bind-Safe _ (Reads n) (parse_token control u) _ (parse_token-Safe control u) λ name hn.
        bind-Safe _ (Reads n) (skip_ows control name) _ (skip_ows-Safe control name) λ after ha.
          elim (Bool-cases (is_end after.rest)) [
            | inl e ↦ rw e (end_of_line-Safe n name.offset after)
            | inr e ↦ rw e (
                bind-Safe _ (Reads n) (extension_value control after) _
                  (extension_value-Safe control after) λ v hv. omega arith)
          ]

extension-Safe :
    (control : ExecutionControl) (s : Scan) → Safe (Reads (length s.rest)) (extension control s)
unfolding extension
extension-Safe control s =
    bind-Safe _ (Reads (length s.rest)) (skip_ows control s) _ (skip_ows-Safe control s) λ t ht.
      elim (Bool-cases (is_end t.rest)) [
        | inl e ↦ rw e (end_of_line-Safe (length s.rest) s.offset t)
        | inr e ↦ rw e (
            bind-Safe _ (Reads (length s.rest)) (expect b';' t) _ (expect-Safe b';' t)
              λ u hu. extension_name-Safe (length s.rest) control u (omega arith))
      ]

extensions-Safe :
    (fuel : ℕ) (control : ExecutionControl) (s : Scan)
    → length s.rest < fuel
    → Safe Any (extensions fuel control s)
unfolding extensions
extensions-Safe zero control s h = elim h [ ]
extensions-Safe (suc fuel) control s h = elim (Bool-cases (is_end s.rest)) [
  | inl e ↦ rw e tt
  | inr e ↦ rw e (
      bind-Safe (Reads (length s.rest)) Any (extension control s) _ (extension-Safe control s)
        (go (λ t g. extensions-Safe fuel control t g)))
]
  where
    go :
        ((t : Scan) → length t.rest < fuel → Safe Any (extensions fuel control t))
        → (r : Round) → Reads (length s.rest) r
        → Safe Any
            (elim r as (λ r. Result ℕ) [ finished k ↦ ok k | more t ↦ extensions fuel control t ])
    go again (finished k) _ = tt
    go again (more t) g = again t (omega arith)

pub parse_chunk_size-Safe :
    (control : ExecutionControl) (line : List ℕ) (o k : ℕ)
    → Safe Any (parse_chunk_size control line o k)
unfolding parse_chunk_size
parse_chunk_size-Safe control line o k =
    bind-Safe _ Any (size_digits control line o k false 0) _
      (size_digits-Safe control line o k false 0)
      λ (saw, result, s) h. elim (Bool-cases saw) [
        | inl e ↦ rw e (
            bind-Safe Any Any (extensions (suc (length line)) control s) _
              (extensions-Safe (suc (length line)) control s (omega arith)) (λ _ _. tt))
        | inr e ↦ rw e (λ e. cc)
      ]
