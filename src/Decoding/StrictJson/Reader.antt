-- ===== src/Decoding/StrictJson/Reader.antt =====
-- `StrictJsonReader` of src/runtime/decoding/strict_json_reader.cpp: its state and its small methods.
use cuac.Common.{
  ℕ, ◌+◌, Bool, ◌||◌, ◌&&◌, List, [], ◌∷◌, leb, ◌==◌, if◌then◌else◌, zero, suc, length,
}
use cuac.Transport.Chunked.Control.{ExecutionControl}

-- The bytes from the position on, the number of calls of `Check` so far, and what the reader was
-- made with: the answers to its checks and its nesting budget.
pub record Reader : Type 0 where
  pub rest : List ℕ
  pub checks : ℕ
  pub control : ExecutionControl
  pub max_json_nesting : ℕ

-- `malformed` is `Malformed()`; `cancelled` is ExecutionCancelled; the next three are errors of the
-- resource stage, the last of them in the caller's budget field. `out_of_fuel` is the model's own.
pub data Failure : Type 0 where
  malformed cancelled wall_milliseconds json_nesting over_budget out_of_fuel : Failure

pub data Result (A : Type 0) : Type 0 where
  ok : A → Reader → Result A
  err : Failure → Result A

abbrev pub M : Type 0 → Type 0
M A = Reader → Result A

abbrev pub bind_result : {A B : Type 0} → Result A → (A → M B) → Result B
bind_result (ok a r) f = f a r
bind_result (err e) f = err e

infixl 5 ◌>>=◌ ◌>>◌
abbrev pub ◌>>=◌ : {A B : Type 0} → M A → (A → M B) → M B
◌>>=◌ m f r = bind_result (m r) f

abbrev pub ◌>>◌ : {B : Type 0} → M (Unit {0}) → M B → M B
◌>>◌ m k r = bind_result (m r) (λ _. k)

abbrev pub pure : {A : Type 0} → A → M A
pure a r = ok a r

abbrev pub fail : {A : Type 0} → Failure → M A
fail e r = err e

-- The bytes after the first.
abbrev pub tail : List ℕ → List ℕ
tail [] = []
tail (c ∷ cs) = cs

abbrev pub head : List ℕ → ℕ
head [] = 0
head (c ∷ cs) = c

unfoldable pub check : M (Unit {0})
check r =
    if r.control.cancelled r.checks
    then err cancelled
    else if r.control.late r.checks
    then err wall_milliseconds
    else ok tt (record r { checks = r.checks + 1 })

-- `Peek`, which is NUL at the end.
abbrev pub peek : M ℕ
peek r = ok (head r.rest) r

-- `position++`.
abbrev pub skip_byte : M (Unit {0})
skip_byte r = ok tt (record r { rest = tail r.rest })

-- `input[position++]`, after the test that there is one.
unfoldable pub next_byte : M ℕ
next_byte r = elim r.rest [ [] ↦ err malformed | c ∷ cs ↦ ok c (record r { rest = cs }) ]

-- The test of a loop that goes on to the end of the input, and fails there.
unfoldable pub require_more : M (Unit {0})
require_more r = elim r.rest [ [] ↦ err malformed | c ∷ cs ↦ ok tt r ]

abbrev pub is_whitespace : ℕ → Bool
is_whitespace c = c == b' ' || c == b'\n' || c == b'\r' || c == b'\t'

abbrev pub is_digit : ℕ → Bool
is_digit c = leb b'0' c && leb c b'9'

-- The loop of `SkipWhitespace`, on the bytes that are left.
unfoldable pub skip_whitespace_loop : List ℕ → Reader → Result (Unit {0})
skip_whitespace_loop [] r = ok tt (record r { rest = [] })
skip_whitespace_loop (c ∷ cs) r = bind_result (check r) (λ _ r.
    let rest = skip_whitespace_loop cs r in
    if is_whitespace c then rest else ok tt (record r { rest = c ∷ cs }))

unfoldable pub skip_whitespace : M (Unit {0})
skip_whitespace r = skip_whitespace_loop r.rest r

unfoldable pub expect : ℕ → M (Unit {0})
expect expected = do check; c ← next_byte; if c == expected then pure tt else fail malformed

unfoldable pub require_object_key : M (Unit {0})
require_object_key = do c ← peek; if c == b'"' then pure tt else fail malformed

-- `ObjectSeparator` and `ArraySeparator`, which differ in the closing byte.
unfoldable pub separator : ℕ → M (Unit {0})
separator closing = do
  skip_whitespace
  c ← peek
  if c == b','
      then (do
        skip_byte
        skip_whitespace
        d ← peek
        if d == closing then fail malformed else pure tt)
      else if c == closing
      then pure tt
      else fail malformed

-- `Literal`.
unfoldable pub literal : List ℕ → M (Unit {0})
literal [] = pure tt
literal (c ∷ cs) = do expect c; literal cs

-- A turn of a loop: the loop has met its end, or goes on with what it has made.
pub data Turn (A : Type 0) : Type 0 where
  closed more : A → Turn A

abbrev pub again : {A : Type 0} → (A → M A) → Turn A → M A
again repeat (closed a) = pure a
again repeat (more a) = repeat a

-- A loop with the turns left.
unfoldable pub turns : {A : Type 0} → (A → M (Turn A)) → ℕ → A → M A
turns body zero a = fail out_of_fuel
turns body (suc fuel) a = do t ← body a; again (turns body fuel) t

-- A turn that goes on takes a byte at least, so a turn for each byte, and one to end, is enough.
unfoldable pub loop : {A : Type 0} → (A → M (Turn A)) → A → M A
loop body a r = turns body (suc (length r.rest)) a r
