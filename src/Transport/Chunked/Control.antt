-- ===== src/Transport/Chunked/Control.antt =====
-- How the decoder of src/runtime/transport/http_chunk_decoder.cpp is interrupted and how it fails.
use cuac.Common.{ℕ, ◌+◌, ◌%◌, ◌≡◌, Bool, false, List, ◌==◌, if◌then◌else◌}

-- The answers of `ExecutionControl::IsCancellationRequested` and of the comparison of the steady
-- clock with the deadline, at the n-th call of `CheckExecutionState`.
pub record ExecutionControl : Type 0 where
  pub cancelled : ℕ → Bool
  pub late : ℕ → Bool

-- `malformed` is HttpChunkDecodeError, `cancelled` ExecutionCancelled, and the next two are the
-- fields of an ExecutionError of the resource stage. `out_of_fuel` is the model's own.
pub data Failure : Type 0 where
  malformed cancelled wall_milliseconds decompressed_bytes out_of_fuel : Failure

pub data Result {ℓ} (A : Type ℓ) : Type ℓ where
  ok : A → Result A
  err : Failure → Result A

infixl 5 ◌>>=◌
abbrev pub ◌>>=◌ {ℓ κ} : {A : Type ℓ} {B : Type κ} → Result A → (A → Result B) → Result B
ok a >>= f = f a
err e >>= f = err e

-- The bytes from `offset` on, up to the end of the part that is being read, and the number of
-- calls of `CheckExecutionState` so far.
pub record Scan : Type 0 where
  pub rest : List ℕ
  pub offset : ℕ
  pub checks : ℕ

abbrev pub scan : List ℕ → ℕ → ℕ → Scan
scan rest offset checks = record { rest = rest; offset = offset; checks = checks }

-- `CheckExecutionState`, with the number of checks after it.
unfoldable pub check_execution_state : ExecutionControl → ℕ → Result ℕ
check_execution_state control checks =
    if control.cancelled checks
    then err cancelled
    else if control.late checks
    then err wall_milliseconds
    else ok (checks + 1)

-- `offset & 1023` is the remainder by 1024.
unfoldable pub checkpoint : ExecutionControl → ℕ → ℕ → Result ℕ
checkpoint control offset checks =
    if offset % 1024 == 0 then check_execution_state control checks else ok checks

-- An execution that is neither cancelled nor late.
abbrev pub IsQuiet : ExecutionControl → Type 0
IsQuiet control = (n : ℕ) → (control.cancelled n ≡ false) × (control.late n ≡ false)
