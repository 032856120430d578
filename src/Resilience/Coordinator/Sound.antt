-- ===== src/Resilience/Coordinator/Sound.antt =====
-- Every call keeps the coordinator's invariant.
use cuac.Common.{
  ℕ, ◌≤◌, ◌<◌, ◌≡◌, inl, inr, refl, ◌∙◌, ap, Bool, true, false, ◌||◌, some, List, [], ◌∷◌, ◌++◌,
  length-append, leb, ◌==◌, if◌then◌else◌, Bool-cases, Option-cases, arith,
}
use cuac.Common.Int.{ℤ}
use cuac.Resilience.Coordinator.Buckets.{find, put, find-put_old}
use cuac.Resilience.Coordinator.State.{
  scheduler_closed, ticket_exhausted, is_acquired, RateLimitCoordinatorLimits, BucketState,
  SharedState, u64_max, plus_64, complete, close, construct,
}
use cuac.Resilience.Coordinator.Calls.{
  extend_found, enqueue, admit, begin_acquire, turn, abandon, extend_eligible_time, requeue_at,
  begin_requeue, Call, acquire_call, turn_call, abandon_call, extend_call, requeue_call,
  complete_call, close_call, apply, run, key_waiters, extended,
}
use cuac.Resilience.Coordinator.Invariant.{IsSound, put_new-IsSound}
use cuac.Resilience.Coordinator.Kept.{
  construct-IsSound, enter_terminal_locked-IsSound, complete-IsSound_found,
  erase_ticket_locked-IsSound, later_eligible-IsSound, turn_at-IsSound, queued-IsSound,
  requeue_at-IsSound,
}

module _ {K : Type 0} (same_key : K → K → Bool) where
  extend_found-IsSound :
      (key : K) (eligible : ℤ) (s : SharedState K)
      → IsSound s
      → IsSound (extend_found same_key key eligible s)
  unfolding extend_found
  extend_found-IsSound key eligible s v = elim (Option-cases (find same_key key s.buckets)) [
    | inl e ↦ rw (e, extend_found) v
    | inr (b, e) ↦ rw (e, extend_found) (later_eligible-IsSound same_key s v key b e _)
  ]

  extend_found-terminal :
      (key : K) (eligible : ℤ) (s : SharedState K)
      → is_acquired (extend_found same_key key eligible s).terminal_status
        ≡ is_acquired s.terminal_status
  unfolding extend_found
  extend_found-terminal key eligible s = elim (Option-cases (find same_key key s.buckets)) [
    | inl e ↦ rw (e, extend_found) refl
    | inr (b, e) ↦ rw (e, extend_found) refl
  ]

  enqueue-IsSound :
      (key : K) (eligible : ℤ) (s : SharedState K)
      → IsSound s
      → key_waiters (find same_key key s.buckets) < s.limits.waiters_per_key
      → s.total_waiters < s.limits.total_waiters
      → s.next_ticket < u64_max
      → is_acquired s.terminal_status ≡ true
      → IsSound (enqueue same_key key eligible s)
  unfolding enqueue
  enqueue-IsSound key eligible s v few room fits open_ =
      elim (Option-cases (find same_key key s.buckets)) [
        | inl e ↦
            rw (e, enqueue)
              (put_new-IsSound same_key s v key
                (record {
                  eligible_steady_milliseconds = eligible;
                  permitted = false;
                  tickets = s.next_ticket ∷ [];
                })
                (plus_64 s.total_waiters 1) (plus_64 s.next_ticket 1) e
                (record {
                  few = ground (arith, few, ap key_waiters e);
                  kept = omega arith;
                  rising = (omega arith, omega arith);
                })
                (omega arith) (omega arith) (omega (arith, v.room, v.hard))
                (omega (arith, v.room, v.hard)) open_)
        | inr (b, e) ↦
            let n = length-append b.tickets (s.next_ticket ∷ []) in
            rw (e, enqueue)
              (queued-IsSound same_key s v key b e
                (record b { tickets = b.tickets ++ (s.next_ticket ∷ []) })
                (plus_64 s.total_waiters 1) refl fits (ground (arith, n, few, ap key_waiters e))
                (ground (arith, n, v.room, v.hard)) (omega (arith, v.room, v.hard)) open_)
      ]

  admit-IsSound :
      (key : K) (eligible : ℤ) (s : SharedState K)
      → IsSound s
      → is_acquired s.terminal_status ≡ true
      → IsSound (admit same_key key eligible s).0
  unfolding admit
  admit-IsSound key eligible s v open_ =
      elim (Bool-cases (
        leb s.limits.waiters_per_key (key_waiters (find same_key key s.buckets))
        || leb s.limits.total_waiters s.total_waiters)) [
          | inl e ↦ rw e v
          | inr e ↦ elim (Bool-cases (s.next_ticket == u64_max)) [
            | inl f ↦ rw (e, f) (enter_terminal_locked-IsSound ticket_exhausted s v)
            | inr f ↦
                rw (e, f)
                  (enqueue-IsSound key eligible s v (ground arith) (ground arith)
                    (ground (arith, v.small)) open_)
          ]
        ]

  begin_acquire-IsSound :
      (key : K) (eligible : ℤ) (stop : Bool) (s : SharedState K)
      → IsSound s
      → IsSound (begin_acquire same_key key eligible stop s).0
  unfolding begin_acquire
  begin_acquire-IsSound key eligible stop s v = elim (Bool-cases (is_acquired s.terminal_status)) [
    | inr e ↦ rw e v
    | inl e ↦ elim (Bool-cases stop) [
      | inl f ↦ rw (e, f) v
      | inr f ↦
          rw (e, f)
            (admit-IsSound key eligible (extend_found same_key key eligible s)
              (extend_found-IsSound key eligible s v) (extend_found-terminal key eligible s ∙ e))
    ]
  ]

  turn-IsSound :
      (key : K) (ticket : ℕ) (deadline now : ℤ) (stop : Bool) (s : SharedState K)
      → IsSound s
      → IsSound (turn same_key key ticket deadline now stop s).0
  unfolding turn
  turn-IsSound key ticket deadline now stop s v =
      elim (Bool-cases (is_acquired s.terminal_status)) [
        | inr e ↦ rw e v
        | inl e ↦ elim (Option-cases (find same_key key s.buckets)) [
          | inl f ↦ rw (e, f, turn) v
          | inr (b, f) ↦
              rw (e, f, turn) (turn_at-IsSound same_key s v key b f ticket deadline now stop)
        ]
      ]

  abandon-IsSound :
      (key : K) (ticket : ℕ) (s : SharedState K)
      → IsSound s
      → IsSound (abandon same_key key ticket s)
  unfolding abandon
  abandon-IsSound key ticket s v = elim (Option-cases (find same_key key s.buckets)) [
    | inl f ↦ rw (f, abandon) v
    | inr (b, f) ↦ rw (f, abandon) (erase_ticket_locked-IsSound same_key s v key b f ticket)
  ]

  extend_eligible_time-IsSound :
      (key : K) (eligible : ℤ) (s : SharedState K)
      → IsSound s
      → IsSound (extend_eligible_time same_key key eligible s).0
  unfolding extend_eligible_time
  extend_eligible_time-IsSound key eligible s v =
      elim (Bool-cases (is_acquired s.terminal_status)) [
        | inr e ↦ rw e v
        | inl e ↦ elim (Option-cases (find same_key key s.buckets)) [
          | inl f ↦ rw (e, f, extend_eligible_time) v
          | inr (b, f) ↦ rw (e, f, extend_eligible_time) (either b f b.permitted)
        ]
      ]
    where
      either :
          (b : BucketState)
          → find same_key key s.buckets ≡ some b
          → (p : Bool)
          → IsSound
              (if◌then◌else◌ {A = SharedState K × Bool} p
                (record s { buckets = put same_key key (extended eligible b) s.buckets }, true)
                (s, false)).0
      either b f true = later_eligible-IsSound same_key s v key b f _
      either b f false = v

  complete-IsSound : (key : K) (s : SharedState K) → IsSound s → IsSound (complete same_key key s)
  unfolding complete
  complete-IsSound key s v = elim (Option-cases (find same_key key s.buckets)) [
    | inl f ↦ rw (f, complete) v
    | inr (b, f) ↦ complete-IsSound_found same_key s v key b f
  ]

  found_again :
      (key : K) (eligible : ℤ) (s : SharedState K) (b : BucketState)
      → find same_key key s.buckets ≡ some b
      → find same_key key (extend_found same_key key eligible s).buckets
        ≡ some (extended eligible b)
  unfolding extend_found
  found_again key eligible s b g =
      rw (g, extend_found) (find-put_old same_key key b (extended eligible b) s.buckets g)

  -- A permit that is held is given up for a ticket.
  begin_requeue_permitted :
      (key : K) (eligible : ℤ) (s : SharedState K) (b : BucketState)
      → is_acquired s.terminal_status ≡ true
      → find same_key key s.buckets ≡ some b
      → b.permitted ≡ true
      → begin_requeue same_key key eligible false s
        ≡ requeue_at same_key key (extended eligible b) (extend_found same_key key eligible s)
  unfolding begin_requeue
  begin_requeue_permitted key eligible s b e g h = ground arith

  requeued-IsSound :
      (key : K) (eligible : ℤ) (s : SharedState K)
      → IsSound s
      → (b : BucketState) → is_acquired s.terminal_status ≡ true
      → find same_key key s.buckets ≡ some b
      → b.permitted ≡ true
      → IsSound
          (requeue_at same_key key (extended eligible b) (extend_found same_key key eligible s)).0
  requeued-IsSound key eligible s v b e g h =
      requeue_at-IsSound same_key (extend_found same_key key eligible s)
        (extend_found-IsSound key eligible s v) key (extended eligible b)
        (found_again key eligible s b g) h (extend_found-terminal key eligible s ∙ e)

  begin_requeue-IsSound :
      (key : K) (eligible : ℤ) (stop : Bool) (s : SharedState K)
      → IsSound s
      → IsSound (begin_requeue same_key key eligible stop s).0
  unfolding begin_requeue
  begin_requeue-IsSound key eligible stop s v = elim (Bool-cases (is_acquired s.terminal_status)) [
    | inr e ↦ rw e v
    | inl e ↦ elim (Bool-cases stop) [
      | inl f ↦ rw (e, f) v
      | inr f ↦ elim (Option-cases (find same_key key s.buckets)) [
        | inl g ↦ rw (e, f, g, begin_requeue) v
        | inr (b, g) ↦ elim (Bool-cases b.permitted) [
          | inr h ↦ rw (e, f, g, h, begin_requeue) v
          | inl h ↦
              let same = begin_requeue_permitted key eligible s b e g h in
              rw (f, same) (requeued-IsSound key eligible s v b e g h)
        ]
      ]
    ]
  ]

  pub apply-IsSound : (s : SharedState K) (c : Call K) → IsSound s → IsSound (apply same_key s c)
  unfolding apply close
  apply-IsSound s (acquire_call key eligible stop) v = begin_acquire-IsSound key eligible stop s v
  apply-IsSound s (turn_call key ticket deadline now stop) v =
      turn-IsSound key ticket deadline now stop s v
  apply-IsSound s (abandon_call key ticket) v = abandon-IsSound key ticket s v
  apply-IsSound s (extend_call key eligible) v = extend_eligible_time-IsSound key eligible s v
  apply-IsSound s (requeue_call key eligible stop) v = begin_requeue-IsSound key eligible stop s v
  apply-IsSound s (complete_call key) v = complete-IsSound key s v
  apply-IsSound s close_call v = enter_terminal_locked-IsSound scheduler_closed s v

  pub run-IsSound_from :
      (s : SharedState K) (cs : List (Call K)) → IsSound s → IsSound (run same_key s cs)
  unfolding run
  run-IsSound_from s [] v = v
  run-IsSound_from s (c ∷ cs) v = run-IsSound_from (apply same_key s c) cs (apply-IsSound s c v)

  -- After any calls on a new coordinator, in any order and interleaving: the callers counted are
  -- those that hold or await a permit, they are within the limit of each key and of all, every
  -- bucket kept is held or awaited, the tickets of each queue rise, and once the coordinator has
  -- ended nobody waits.
  pub run-IsSound :
      (limits : RateLimitCoordinatorLimits) (initial_ticket : ℕ) {s : SharedState K}
      → initial_ticket ≤ u64_max
      → construct limits initial_ticket ≡ some s
      → (calls : List (Call K)) → IsSound (run same_key s calls)
  run-IsSound limits initial_ticket {s} fits e calls =
      run-IsSound_from s calls (construct-IsSound limits initial_ticket s fits e)
