-- ===== src/Accounting/Ended.antt =====
-- The two terminal states.
use cuac.Common.{◌≡◌, ◌⊎◌, List, [], ◌∷◌, refl, ◌∙◌, ap, arith, inl}
use cuac.Accounting.State.{Clock, failed, exhausted, Accounting, abandoned}
use cuac.Accounting.Steps.{begin_step, complete_page}
use cuac.Accounting.Attempts.{begin_attempt}
use cuac.Accounting.Commits.{
  commit_request_body, commit_remote_request, commit_attempt_failure, commit_attempt_usage,
  commit_transport, commit_decoded_page,
}
use cuac.Accounting.Waits.{
  commit_retry_wait, commit_rate_limit_wait, commit_admission_wait, commit_remote_transport_time,
  abort_page,
}
use cuac.Accounting.Runs.{Call, begin_step_call, apply, run}

-- A scan that has ended answers every call by `Fail`, whichever call it is.
apply_ended :
    (clock : Clock) (s : Accounting) (c : Call)
    → (s.state ≡ failed) ⊎ (s.state ≡ exhausted)
    → apply clock s c ≡ abandoned s
unfolding apply begin_step begin_attempt commit_request_body commit_remote_request
    commit_attempt_failure commit_transport commit_attempt_usage commit_decoded_page complete_page
    commit_retry_wait commit_rate_limit_wait commit_admission_wait commit_remote_transport_time
    abort_page
apply_ended clock s (begin_step_call now) h = ground arith
apply_ended clock s _ h = ground arith

run-abandoned :
    (clock : Clock) (s : Accounting) (cs : List Call) → run clock (abandoned s) cs ≡ abandoned s
unfolding run
run-abandoned clock s [] = refl
run-abandoned clock s (c ∷ cs) =
    ap (λ t. run clock t cs) (apply_ended clock (abandoned s) c (inl refl))
    ∙ run-abandoned clock s cs

-- Exhaustion and failure are terminal: once a scan is exhausted or has failed, the first further
-- call leaves it failed, with no active request and no retained memory and with everything else as
-- it was, and no later sequence of calls changes it again.
pub run_ended :
    (clock : Clock) (s : Accounting) (c : Call) (cs : List Call)
    → (s.state ≡ failed) ⊎ (s.state ≡ exhausted)
    → run clock s (c ∷ cs) ≡ abandoned s
unfolding run
run_ended clock s c cs h =
    ap (λ t. run clock t cs) (apply_ended clock s c h) ∙ run-abandoned clock s cs
