-- ===== src/Resilience/Coordinator/Calls.antt =====
-- The calls of src/runtime/resilience/rate_limit_coordinator.cpp, cut where the mutex is given up: a
-- caller queues itself, and then looks again after each wait.
use cuac.Common.{
  ℕ, ◌+◌, Bool, true, false, not, ◌||◌, ◌&&◌, Option, none, some, List, [], ◌∷◌, ◌++◌, length, leb,
  ◌==◌, if◌then◌else◌,
}
use cuac.Common.Int.{ℤ, pos, pos_part, ◌+ℤ◌, ◌-ℤ◌, ltb_ℤ, leb_ℤ, max_ℤ, min_ℤ}
use cuac.Resilience.Coordinator.Buckets.{find, put}
use cuac.Resilience.Coordinator.State.{
  RateLimitAcquireStatus, acquired, queue_saturated, scheduler_closed, cancelled, deadline_reached,
  ticket_exhausted, is_acquired, BucketState, SharedState, u64_max, plus_64, enter_terminal_locked,
  erase_ticket_locked, complete, close,
}

abbrev pub i64_max : ℤ
i64_max = pos 9223372036854775807

-- `WaitSlice`; the last difference is positive.
unfoldable pub wait_slice : ℤ → ℤ → ℕ → ℕ
wait_slice now target maximum_slice =
    if leb_ℤ target now
    then 0
    else if leb_ℤ now (i64_max -ℤ pos maximum_slice) && ltb_ℤ (now +ℤ pos maximum_slice) target
    then maximum_slice
    else pos_part (target -ℤ now)

-- A call that wants a permit is refused, or stands in the queue with its ticket. `completing` is a
-- refusal before which the caller, without the mutex, completes the permit that it has.
-- `lost` is the std::logic_error of `Requeue`.
pub data Begun : Type 0 where
  refused completing : RateLimitAcquireStatus → Begun
  queued : ℕ → Begun
  lost : Begun

-- A turn of the loop of `WaitForTicket`: the loop returns, or waits for as long as the slice says.
pub data Turn : Type 0 where
  returned : RateLimitAcquireStatus → Turn
  wait : ℕ → Turn

abbrev pub is_front : ℕ → List ℕ → Bool
is_front t [] = false
is_front t (u ∷ us) = u == t

abbrev pub tail : List ℕ → List ℕ
tail [] = []
tail (t ∷ ts) = ts

abbrev pub waiters : BucketState → ℕ
waiters b = length b.tickets + (if b.permitted then 1 else 0)

abbrev pub key_waiters : Option BucketState → ℕ
key_waiters none = 0
key_waiters (some b) = waiters b

abbrev pub extended : ℤ → BucketState → BucketState
extended eligible b = record b {
  eligible_steady_milliseconds = max_ℤ b.eligible_steady_milliseconds eligible;
}

abbrev pub new_bucket : ℤ → BucketState
new_bucket eligible = record {
  eligible_steady_milliseconds = eligible;
  permitted = false;
  tickets = [];
}

abbrev pub or_new : ℤ → Option BucketState → BucketState
or_new eligible none = new_bucket eligible
or_new eligible (some b) = b

-- What a thread can do while it has the mutex.
pub data Call (K : Type 0) : Type 0 where
  acquire_call : K → ℤ → Bool → Call K
  turn_call : K → ℕ → ℤ → ℤ → Bool → Call K
  abandon_call : K → ℕ → Call K
  extend_call : K → ℤ → Call K
  requeue_call : K → ℤ → Bool → Call K
  complete_call : K → Call K
  close_call : Call K

-- The ticket is the first in the queue, nobody has the permit, and its time has come.
abbrev pub may_grant : BucketState → ℕ → ℤ → ℤ → Bool
may_grant b ticket deadline now =
    not b.permitted
    && is_front ticket b.tickets
    && leb_ℤ b.eligible_steady_milliseconds now
    && leb_ℤ now deadline

-- The bucket whose first ticket has got the permit.
abbrev pub granted : BucketState → BucketState
granted b = record b { permitted = true; tickets = tail b.tickets }

module _ {K : Type 0} (same_key : K → K → Bool) where
  -- The bucket that a caller finds gets the later of the two eligible times.
  unfoldable pub extend_found : K → ℤ → SharedState K → SharedState K
  extend_found key eligible s = elim (find same_key key s.buckets) [
    | none ↦ s
    | some bucket ↦ record s { buckets = put same_key key (extended eligible bucket) s.buckets }
  ]

  -- The end of `Acquire`: a new ticket at the end of the key's queue.
  unfoldable pub enqueue : K → ℤ → SharedState K → SharedState K
  enqueue key eligible s =
      let bucket = or_new eligible (find same_key key s.buckets) in
      record s {
        next_ticket = plus_64 s.next_ticket 1;
        total_waiters = plus_64 s.total_waiters 1;
        buckets =
            put same_key key (record bucket { tickets = bucket.tickets ++ (s.next_ticket ∷ []) })
              s.buckets;
      }

  -- `Acquire` after the eligible time is extended.
  unfoldable pub admit : K → ℤ → SharedState K → SharedState K × Begun
  admit key eligible s =
      if leb s.limits.waiters_per_key (key_waiters (find same_key key s.buckets))
        || leb s.limits.total_waiters s.total_waiters
      then (s, refused queue_saturated)
      else if s.next_ticket == u64_max
      then (enter_terminal_locked ticket_exhausted s, refused ticket_exhausted)
      else (enqueue key eligible s, queued s.next_ticket)

  -- `Acquire` up to its loop.
  unfoldable pub begin_acquire : K → ℤ → Bool → SharedState K → SharedState K × Begun
  begin_acquire key eligible is_cancelled s =
      if not (is_acquired s.terminal_status)
      then (s, refused s.terminal_status)
      else if is_cancelled
      then (s, refused cancelled)
      else admit key eligible (extend_found key eligible s)

  -- A turn of `WaitForTicket`, on the bucket that was found.
  unfoldable pub turn_at : K → BucketState → ℕ → ℤ → ℤ → Bool → SharedState K → SharedState K × Turn
  turn_at key bucket ticket deadline now is_cancelled s =
      let eligible = bucket.eligible_steady_milliseconds in
      if is_cancelled
      then (erase_ticket_locked same_key key bucket ticket s, returned cancelled)
      else if may_grant bucket ticket deadline now
      then (record s { buckets = put same_key key (granted bucket) s.buckets }, returned acquired)
      else if leb_ℤ deadline now || ltb_ℤ deadline eligible
      then (erase_ticket_locked same_key key bucket ticket s, returned deadline_reached)
      else (
        s,
        wait (
            wait_slice now (if ltb_ℤ now eligible then min_ℤ eligible deadline else deadline)
              s.limits.interrupt_slice_milliseconds),
      )

  unfoldable pub turn : K → ℕ → ℤ → ℤ → Bool → SharedState K → SharedState K × Turn
  turn key ticket deadline now is_cancelled s =
      if not (is_acquired s.terminal_status)
      then (s, returned s.terminal_status)
      else elim (find same_key key s.buckets) [
        | none ↦ (s, returned scheduler_closed)
        | some bucket ↦ turn_at key bucket ticket deadline now is_cancelled s
      ]

  -- The `catch` block of `WaitForTicket`.
  unfoldable pub abandon : K → ℕ → SharedState K → SharedState K
  abandon key ticket s = elim (find same_key key s.buckets) [
    | none ↦ s
    | some bucket ↦ erase_ticket_locked same_key key bucket ticket s
  ]

  -- `Permit::ExtendEligibleTime` of a permit that is held for the key.
  unfoldable pub extend_eligible_time : K → ℤ → SharedState K → SharedState K × Bool
  extend_eligible_time key eligible s =
      if not (is_acquired s.terminal_status)
      then (s, false)
      else elim (find same_key key s.buckets) [
        | none ↦ (s, false)
        | some bucket ↦
            if bucket.permitted
            then (
              record s { buckets = put same_key key (extended eligible bucket) s.buckets },
              true,
            )
            else (s, false)
      ]

  -- `Requeue` of a permit that is held for the key, on its bucket.
  unfoldable pub requeue_at : K → BucketState → SharedState K → SharedState K × Begun
  requeue_at key bucket s =
      if s.next_ticket == u64_max
      then (enter_terminal_locked ticket_exhausted s, completing ticket_exhausted)
      else (
        record s {
          next_ticket = plus_64 s.next_ticket 1;
          buckets =
              put same_key key
                (record bucket {
                  permitted = false;
                  tickets = bucket.tickets ++ (s.next_ticket ∷ []);
                })
                s.buckets;
        },
        queued s.next_ticket,
      )

  -- `Requeue` up to its loop. The bucket gets the later eligible time before the ticket is drawn.
  unfoldable pub begin_requeue : K → ℤ → Bool → SharedState K → SharedState K × Begun
  begin_requeue key eligible is_cancelled s =
      if not (is_acquired s.terminal_status)
      then (s, completing s.terminal_status)
      else if is_cancelled
      then (s, completing cancelled)
      else elim (find same_key key s.buckets) [
        | none ↦ (s, lost)
        | some bucket ↦
            if bucket.permitted
            then requeue_at key (extended eligible bucket) (extend_found key eligible s)
            else (s, lost)
      ]

  unfoldable pub apply : SharedState K → Call K → SharedState K
  apply s (acquire_call key eligible stop) = (begin_acquire key eligible stop s).0
  apply s (turn_call key ticket deadline now stop) = (turn key ticket deadline now stop s).0
  apply s (abandon_call key ticket) = abandon key ticket s
  apply s (extend_call key eligible) = (extend_eligible_time key eligible s).0
  apply s (requeue_call key eligible stop) = (begin_requeue key eligible stop s).0
  apply s (complete_call key) = complete same_key key s
  apply s close_call = close s

  unfoldable pub run : SharedState K → List (Call K) → SharedState K
  run s [] = s
  run s (c ∷ cs) = run (apply s c) cs
