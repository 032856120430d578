-- ===== src/Resilience/Coordinator/State.antt =====
-- The shared state of `RateLimitCoordinator`, src/runtime/resilience/rate_limit_coordinator.cpp, and
-- what is done under its mutex. Times are steady milliseconds, `int64_t`.
use cuac.Common.{
  ℕ, ◌+◌, ◌-◌, ◌%◌, Bool, true, false, not, ◌||◌, ◌&&◌, Option, none, some, List, [], ◌∷◌, length,
  ltb, ◌==◌, if◌then◌else◌,
}
use cuac.Common.Int.{ℤ}
use cuac.Resilience.Coordinator.Buckets.{find, put, erase, total}

pub data RateLimitAcquireStatus : Type 0 where
  acquired queue_saturated scheduler_closed cancelled deadline_reached ticket_exhausted :
      RateLimitAcquireStatus

abbrev pub is_acquired : RateLimitAcquireStatus → Bool
is_acquired acquired = true
is_acquired _ = false

pub record RateLimitCoordinatorLimits : Type 0 where
  pub waiters_per_key : ℕ
  pub total_waiters : ℕ
  pub interrupt_slice_milliseconds : ℕ

-- The first ticket stands first in the queue.
pub record BucketState : Type 0 where
  pub eligible_steady_milliseconds : ℤ
  pub permitted : Bool
  pub tickets : List ℕ

-- `terminal_status` is `acquired` until the coordinator ends.
pub record SharedState (K : Type 0) : Type 0 where
  pub terminal_status : RateLimitAcquireStatus
  pub next_ticket : ℕ
  pub total_waiters : ℕ
  pub limits : RateLimitCoordinatorLimits
  pub buckets : List (K × BucketState)

abbrev pub u64_max : ℕ
u64_max = 18446744073709551615

-- Sums and differences of `uint64_t`.
abbrev pub plus_64 : ℕ → ℕ → ℕ
plus_64 a b = (a + b) % 18446744073709551616

abbrev pub minus_64 : ℕ → ℕ → ℕ
minus_64 a b = (a + 18446744073709551616 - b) % 18446744073709551616

unfoldable pub hard_limits : RateLimitCoordinatorLimits
hard_limits = record {
  waiters_per_key = 64;
  total_waiters = 4096;
  interrupt_slice_milliseconds = 5;
}

-- The constructor; `none` is the std::invalid_argument that it throws.
unfoldable pub construct : {K : Type 0} → RateLimitCoordinatorLimits → ℕ → Option (SharedState K)
unfolding hard_limits
construct limits initial_ticket =
    if initial_ticket == 0
      || ltb hard_limits.waiters_per_key limits.waiters_per_key
      || ltb hard_limits.total_waiters limits.total_waiters
      || limits.interrupt_slice_milliseconds == 0
      || ltb hard_limits.interrupt_slice_milliseconds limits.interrupt_slice_milliseconds
    then none
    else some (record {
      terminal_status = acquired;
      next_ticket = initial_ticket;
      total_waiters = 0;
      limits = limits;
      buckets = [];
    })

abbrev pub is_empty : List ℕ → Bool
is_empty [] = true
is_empty _ = false

unfoldable pub is_queued : ℕ → List ℕ → Bool
is_queued t [] = false
is_queued t (u ∷ us) = u == t || is_queued t us

-- The queue without the first occurrence of a ticket.
unfoldable pub unqueued : ℕ → List ℕ → List ℕ
unqueued t [] = []
unqueued t (u ∷ us) = let rest = unqueued t us in if u == t then us else u ∷ rest

abbrev pub waiting_in : BucketState → ℕ
waiting_in b = length b.tickets

-- The loop of `EnterTerminalLocked` on the buckets.
unfoldable pub cleared : {K : Type 0} → List (K × BucketState) → List (K × BucketState)
cleared [] = []
cleared ((k, b) ∷ m) =
    let rest = cleared m in if b.permitted then (k, record b { tickets = [] }) ∷ rest else rest

unfoldable pub enter_terminal_locked :
    {K : Type 0} → RateLimitAcquireStatus → SharedState K → SharedState K
enter_terminal_locked status s = if not (is_acquired s.terminal_status) then s else record s {
  terminal_status = status;
  total_waiters = minus_64 s.total_waiters (total waiting_in s.buckets);
  buckets = cleared s.buckets;
}

module _ {K : Type 0} (same_key : K → K → Bool) where
  -- A bucket's queue without a ticket; the bucket goes when nobody holds or awaits its permit.
  unfoldable pub erase_ticket_locked : K → BucketState → ℕ → SharedState K → SharedState K
  erase_ticket_locked key bucket ticket s =
      let kept = unqueued ticket bucket.tickets in
      record s {
        total_waiters =
            if is_queued ticket bucket.tickets then minus_64 s.total_waiters 1 else s.total_waiters;
        buckets =
            if not bucket.permitted && is_empty kept
            then erase same_key key s.buckets
            else put same_key key (record bucket { tickets = kept }) s.buckets;
      }

  -- `Permit::Complete` of a permit that is held for the key.
  unfoldable pub complete : K → SharedState K → SharedState K
  complete key s = elim (find same_key key s.buckets) [
    | none ↦ s
    | some bucket ↦
        if bucket.permitted
        then record s {
          total_waiters = minus_64 s.total_waiters 1;
          buckets =
              if is_empty bucket.tickets
              then erase same_key key s.buckets
              else put same_key key (record bucket { permitted = false }) s.buckets;
        }
        else s
  ]

unfoldable pub close : {K : Type 0} → SharedState K → SharedState K
close s = enter_terminal_locked scheduler_closed s
