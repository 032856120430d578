-- ===== src/Resilience/Coordinator/Examples.antt =====
-- A coordinator with two callers of one key, and the theorems at it. A key is a number here, but for
-- the last theorem.
use cuac.Common.{
  ℕ, zero, suc, ◌≡◌, ◌≢◌, ◌↔◌, ◌≤◌, ◌<◌, refl, Bool, true, false, List, [], ◌∷◌, some, arith, ◌==◌,
  inl, inr,
}
use cuac.Common.Int.{pos, ◌+ℤ◌, ◌-ℤ◌, ◌≤ℤ◌}
use cuac.Resilience.Coordinator.Buckets.{find, put}
use cuac.Resilience.Coordinator.State.{
  acquired, RateLimitCoordinatorLimits, SharedState, hard_limits, construct, is_queued, unqueued,
  erase_ticket_locked, deadline_reached,
}
use cuac.Resilience.Coordinator.Calls.{
  wait_slice, extend_found, enqueue, admit, begin_acquire, turn_at, turn, Call, acquire_call,
  turn_call, complete_call, extend_call, apply, run, returned, wait,
}
use cuac.Resilience.Coordinator.Invariant.{IsSound}
use cuac.Resilience.Coordinator.Sound.{run-IsSound}
use cuac.Resilience.Coordinator.Holds.{IsKeyEquality}
use cuac.Resilience.Coordinator.Grants.{IsGrant, turn-IsGrant, turn-Exclusive}
use cuac.Resilience.Coordinator.Waits.{
  Round, still, ended, wait_slice_bounds, wait_for_ticket, wait_for_ticket-IsPast,
}
use cuac.Resilience.Coordinator.Keys.{
  RateLimitDestinationKey, RateLimitOperationKey, QuotaBucketKey, opaque_authority,
  CredentialAuthorityRateLimitIdentity, quota_bucket_key, same_quota_key,
}
use cuac.Resilience.Coordinator.KeyEquality.{same_quota_key-IsKeyEquality}
use cuac.Resilience.Coordinator.SameKeys.{SamePrincipal, same_quota_key-quota_bucket_key}

abbrev same_number : ℕ → ℕ → Bool
same_number a b = a == b

same_number-IsKeyEquality : IsKeyEquality same_number
same_number-IsKeyEquality = record {
  symmetric = λ a b e. ground arith;
  transitive = λ a b c e f. ground arith;
}

abbrev limits : RateLimitCoordinatorLimits
limits = record { waiters_per_key = 2; total_waiters = 3; interrupt_slice_milliseconds = 5 }

abbrev new_state : SharedState ℕ
new_state = record {
  terminal_status = acquired;
  next_ticket = 1;
  total_waiters = 0;
  limits = limits;
  buckets = [];
}

new_state-construct : construct limits 1 ≡ some new_state
unfolding construct hard_limits
new_state-construct = refl

-- Two callers queue, for keys 7 and 7, from time 10 on; the third finds the queue full.
abbrev arrivals : List (Call ℕ)
arrivals =
    acquire_call 7 (pos 10) false
    ∷ acquire_call 7 (pos 10) false
    ∷ acquire_call 7 (pos 10) false
    ∷ []

abbrev two_waiting : SharedState ℕ
two_waiting = record {
  terminal_status = acquired;
  next_ticket = 3;
  total_waiters = 2;
  limits = limits;
  buckets =
      (7, record { eligible_steady_milliseconds = pos 10; permitted = false; tickets = 1 ∷ 2 ∷ [] })
      ∷ [];
}

two_waiting-run : run same_number new_state arrivals ≡ two_waiting
unfolding run apply begin_acquire admit enqueue extend_found find put
two_waiting-run = refl

two_waiting-IsSound : IsSound two_waiting
two_waiting-IsSound =
    rw (← two_waiting-run)
      (run-IsSound same_number limits 1 (omega arith) new_state-construct arrivals)

run-IsSound_example : IsSound (run same_number new_state arrivals)
run-IsSound_example = run-IsSound same_number limits 1 (omega arith) new_state-construct arrivals

-- The second caller waits, the first gets the permit.
second_waits : (turn same_number 7 2 (pos 100) (pos 10) false two_waiting).1 ≡ wait 5
unfolding turn turn_at wait_slice find ◌+ℤ◌ ◌-ℤ◌
second_waits = refl

first_granted : (turn same_number 7 1 (pos 100) (pos 10) false two_waiting).1 ≡ returned acquired
unfolding turn turn_at find
first_granted = refl

turn-IsGrant_example :
    ((turn same_number 7 1 (pos 100) (pos 10) false two_waiting).1 ≡ returned acquired)
    ↔ (IsGrant same_number 7 1 (pos 100) (pos 10) two_waiting × (false ≡ false))
turn-IsGrant_example =
    turn-IsGrant same_number 7 1 (pos 100) (pos 10) false two_waiting two_waiting-IsSound

abbrev meanwhile : List (Call ℕ)
meanwhile = acquire_call 8 (pos 0) false ∷ extend_call 7 (pos 20) ∷ complete_call 8 ∷ []

turn-Exclusive_example :
    (turn same_number 7 2
      (pos 100)
      (pos 50)
      false
      (run same_number (turn same_number 7 1 (pos 100) (pos 10) false two_waiting).0 meanwhile)).1
    ≢ returned acquired
turn-Exclusive_example =
    turn-Exclusive same_number same_number-IsKeyEquality 7 7 1 2 (pos 100) (pos 10) (pos 100)
      (pos 50) false false two_waiting two_waiting-IsSound first_granted refl meanwhile
      (tt, (tt, (refl, tt)))

wait_slice_bounds_example :
    (0 < wait_slice (pos 10) (pos 12) 5)
    × (wait_slice (pos 10) (pos 12) 5 ≤ 5)
    × (pos 10 +ℤ pos (wait_slice (pos 10) (pos 12) 5) ≤ℤ pos 12)
wait_slice_bounds_example = wait_slice_bounds (pos 10) (pos 12) 5 (omega arith) (omega arith) refl

-- The second caller looks at times 10 and 100; the first completes in between, too late.
abbrev rounds : List (Round ℕ)
rounds =
    record {
      now = pos 10;
      is_cancelled = false;
      wait_throws = false;
      others = turn_call 7 1 (pos 100) (pos 10) false ∷ [];
    }
    ∷ record {
      now = pos 101;
      is_cancelled = false;
      wait_throws = false;
      others = complete_call 7 ∷ [];
    }
    ∷ []

second_times_out :
    (wait_for_ticket same_number 7 2 (pos 100) rounds two_waiting).1 ≡ ended deadline_reached
unfolding wait_for_ticket turn turn_at erase_ticket_locked is_queued unqueued wait_slice run apply
    find put ◌+ℤ◌ ◌-ℤ◌
second_times_out = refl

wait_for_ticket-IsPast_example :
    (wait_for_ticket same_number 7 2 (pos 100) rounds two_waiting).1 ≢ still
wait_for_ticket-IsPast_example =
    wait_for_ticket-IsPast same_number 7 2 (pos 100) rounds two_waiting (inr (inl (omega arith)))

-- The first object has one authority, and all others another.
abbrev identities : ℕ → CredentialAuthorityRateLimitIdentity
identities zero = record { authority = record { bytes = 7 ∷ [] } }
identities (suc n) = record { authority = record { bytes = 8 ∷ [] } }

-- The keys of the source are keys as `turn-Exclusive` asks for.
identities-IsKeyEquality : IsKeyEquality (same_quota_key identities)
identities-IsKeyEquality = same_quota_key-IsKeyEquality identities

abbrev host_and_port : RateLimitDestinationKey
host_and_port = record { scheme = b'h' ∷ []; host = b'a' ∷ []; explicit_port = 443 }

abbrev family : RateLimitOperationKey
family = record { connector_id = b'c' ∷ []; package_major = 1; operation_family = b'f' ∷ [] }

abbrev remote : List ℕ
remote = b'r' ∷ []

-- A key of an identity, with a remote bucket.
abbrev key_of : ℕ → QuotaBucketKey
key_of pointer = record {
  destination = host_and_port;
  operation = family;
  principal = opaque_authority pointer;
  has_remote_bucket = true;
  remote_bucket = remote;
}

key_of-quota_bucket_key :
    (pointer : ℕ)
    → quota_bucket_key host_and_port family (opaque_authority pointer) true remote
      ≡ some (key_of pointer)
unfolding quota_bucket_key
key_of-quota_bucket_key pointer = refl

same_quota_key-quota_bucket_key_example :
    (same_quota_key identities (key_of 1) (key_of 2) ≡ true) ↔ (
      (host_and_port ≡ host_and_port)
      × (family ≡ family)
      × SamePrincipal identities (opaque_authority 1) (opaque_authority 2)
      × (true ≡ true)
      × (remote ≡ remote))
same_quota_key-quota_bucket_key_example =
    same_quota_key-quota_bucket_key identities host_and_port host_and_port family family
      (opaque_authority 1) (opaque_authority 2) true true remote remote (key_of-quota_bucket_key 1)
      (key_of-quota_bucket_key 2)
