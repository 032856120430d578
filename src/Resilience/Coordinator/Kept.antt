-- ===== src/Resilience/Coordinator/Kept.antt =====
-- The coordinator's invariant under each change of one bucket.
use cuac.Common.{
  ℕ, ◌+◌, ◌≤◌, ◌<◌, ◌≡◌, ◌⊎◌, inl, inr, refl, ap, Bool, true, false, not, ◌||◌, ◌&&◌, some, List,
  [], ◌∷◌, ◌++◌, length, length-append, ◌==◌, if◌then◌else◌, Bool-cases, arith,
}
use cuac.Common.Int.{ℤ, leb_ℤ, ltb_ℤ}
use cuac.Resilience.Coordinator.Buckets.{
  find, put, erase, total, AllValues, AllValues-find, total-erase,
}
use cuac.Resilience.Coordinator.State.{
  RateLimitAcquireStatus, ticket_exhausted, is_acquired, RateLimitCoordinatorLimits, BucketState,
  SharedState, u64_max, plus_64, minus_64, is_empty, unqueued, waiting_in, cleared,
  enter_terminal_locked, erase_ticket_locked, complete, construct,
}
use cuac.Resilience.Coordinator.Calls.{
  waiters, turn_at, requeue_at, tail, granted, may_grant, is_front,
}
use cuac.Resilience.Coordinator.Invariant.{
  Rising, Rising-push, Rising-wider, Rising-unqueued, length-unqueued, IsBucket, IsIdle, IsSound,
  put_old-IsSound, erase-IsSound,
}

pub construct-IsSound :
    {K : Type 0} (limits : RateLimitCoordinatorLimits) (initial_ticket : ℕ) (s : SharedState K)
    → initial_ticket ≤ u64_max
    → construct limits initial_ticket ≡ some s
    → IsSound s
unfolding construct
construct-IsSound limits initial_ticket s fits e = ground arith

total-cleared :
    {K : Type 0} (m : List (K × BucketState))
    → total waiters (cleared m) + total waiting_in m ≡ total waiters m
unfolding cleared
total-cleared [] = refl
total-cleared ((k, b) ∷ m) = ground (arith, total-cleared m)

cleared-IsIdle : {K : Type 0} (m : List (K × BucketState)) → AllValues IsIdle (cleared m)
unfolding cleared
cleared-IsIdle [] = tt
cleared-IsIdle ((k, b) ∷ m) = elim (Bool-cases b.permitted) [
  | inl e ↦ rw e (refl, cleared-IsIdle m)
  | inr e ↦ rw e (cleared-IsIdle m)
]

cleared-IsBucket :
    {K : Type 0} (per next : ℕ) (m : List (K × BucketState))
    → AllValues (IsBucket per next) m
    → AllValues (IsBucket per next) (cleared m)
unfolding cleared
cleared-IsBucket per next [] v = tt
cleared-IsBucket per next ((k, b) ∷ m) v = elim (Bool-cases b.permitted) [
  | inl e ↦ rw e (
    record { few = ground (arith, v.0.few); kept = omega arith; rising = omega arith },
    cleared-IsBucket per next m v.1,
  )
  | inr e ↦ rw e (cleared-IsBucket per next m v.1)
]

pub enter_terminal_locked-IsSound :
    {K : Type 0} (status : RateLimitAcquireStatus) (s : SharedState K)
    → IsSound s
    → IsSound (enter_terminal_locked status s)
unfolding enter_terminal_locked
enter_terminal_locked-IsSound status s v = elim (Bool-cases (is_acquired s.terminal_status)) [
  | inr e ↦ rw e v
  | inl e ↦
      let balance = total-cleared s.buckets in
      rw e (record {
        counted = omega (arith, balance, v.counted, v.room, v.hard);
        room = omega (arith, balance, v.counted, v.room, v.hard);
        hard = v.hard;
        each = cleared-IsBucket s.limits.waiters_per_key s.next_ticket s.buckets v.each;
        ended = inr (cleared-IsIdle s.buckets);
        small = v.small;
      })
]

length-tail : (ts : List ℕ) → 0 < length ts → length (tail ts) + 1 ≡ length ts
length-tail [] h = omega arith
length-tail (t ∷ ts) h = omega arith

Rising-tail : (lo hi : ℕ) (ts : List ℕ) → Rising lo ts hi → Rising lo (tail ts) hi
Rising-tail lo hi [] r = r
Rising-tail lo hi (t ∷ ts) r =
    Rising-wider (t + 1) lo hi hi ts (omega (arith, r.0)) (omega arith) r.1

queued_first : (ts : List ℕ) (t : ℕ) → is_front t ts ≡ true → 0 < length ts
queued_first [] t h = ground arith
queued_first (u ∷ us) t h = omega arith

module _ {K : Type 0} (same_key : K → K → Bool) (s : SharedState K) (v : IsSound s) (key : K)
    (b : BucketState) (found : find same_key key s.buckets ≡ some b) where
  pub here : IsBucket s.limits.waiters_per_key s.next_ticket b
  here =
      AllValues-find same_key (IsBucket s.limits.waiters_per_key s.next_ticket) key b s.buckets
        v.each found

  IsIdle-or_open : (is_acquired s.terminal_status ≡ true) ⊎ IsIdle b
  IsIdle-or_open = still v.ended
    where
      still :
          (is_acquired s.terminal_status ≡ true) ⊎ AllValues IsIdle s.buckets
          → (is_acquired s.terminal_status ≡ true) ⊎ IsIdle b
      still (inl e) = inl e
      still (inr a) = inr (AllValues-find same_key IsIdle key b s.buckets a found)

  -- The callers of one bucket are among all.
  waiters-le : waiters b ≤ s.total_waiters
  waiters-le = omega (arith, total-erase same_key waiters key b s.buckets found, v.counted)

  -- The bucket changes, and `waiting` callers are left.
  change-IsSound :
      (b' : BucketState) (waiting : ℕ)
      → IsBucket s.limits.waiters_per_key s.next_ticket b'
      → waiting + waiters b ≡ s.total_waiters + waiters b'
      → waiters b' ≤ waiters b
      → (IsIdle b → IsIdle b')
      → IsSound (record s { total_waiters = waiting; buckets = put same_key key b' s.buckets })
  change-IsSound b' waiting good balance fewer idle =
      put_old-IsSound same_key s v key b b' waiting s.next_ticket found good (omega arith) v.small
        balance (omega (arith, v.room)) (still IsIdle-or_open)
    where
      still :
          (is_acquired s.terminal_status ≡ true) ⊎ IsIdle b
          → (is_acquired s.terminal_status ≡ true) ⊎ IsIdle b'
      still (inl e) = inl e
      still (inr h) = inr (idle h)

  completed-IsSound :
      b.permitted ≡ true
      → IsSound (record s {
        total_waiters = minus_64 s.total_waiters 1;
        buckets =
            if is_empty b.tickets
            then erase same_key key s.buckets
            else put same_key key (record b { permitted = false }) s.buckets;
      })
  completed-IsSound p = elim (Bool-cases (is_empty b.tickets)) [
    | inl e ↦ rw e (
        erase-IsSound same_key s v key b (minus_64 s.total_waiters 1) found
          (ground (arith, waiters-le, v.room, v.hard)))
    | inr e ↦ rw e (
        change-IsSound (record b { permitted = false }) (minus_64 s.total_waiters 1)
          (record { few = ground (arith, here.few); kept = ground arith; rising = here.rising })
          (ground (arith, waiters-le, v.room, v.hard)) (ground arith) (λ h. h))
  ]

  pub complete-IsSound_found : IsSound (complete same_key key s)
  unfolding complete
  complete-IsSound_found = elim (Bool-cases b.permitted) [
    | inl p ↦ rw (found, p, complete) (completed-IsSound p)
    | inr p ↦ rw (found, p, complete) v
  ]

  unqueued-IsIdle : (ticket : ℕ) → IsIdle b → unqueued ticket b.tickets ≡ []
  unfolding unqueued
  unqueued-IsIdle ticket h = rw h refl

  pub erase_ticket_locked-IsSound :
      (ticket : ℕ) → IsSound (erase_ticket_locked same_key key b ticket s)
  unfolding erase_ticket_locked
  erase_ticket_locked-IsSound ticket =
      let balance = length-unqueued ticket b.tickets in
      elim (Bool-cases (not b.permitted && is_empty (unqueued ticket b.tickets))) [
        | inl e ↦ rw e (
            erase-IsSound same_key s v key b _ found
              (ground (arith, balance, waiters-le, v.room, v.hard, here.kept)))
        | inr e ↦ rw e (
            change-IsSound (record b { tickets = unqueued ticket b.tickets }) _
              (record {
                few = ground (arith, balance, here.few);
                kept = ground (arith, balance, here.kept);
                rising = Rising-unqueued ticket 0 s.next_ticket b.tickets here.rising;
              })
              (ground (arith, balance, waiters-le, v.room, v.hard)) (ground (arith, balance))
              (unqueued-IsIdle ticket))
      ]

  pub later_eligible-IsSound :
      (e : ℤ)
      → IsSound (record s {
        buckets = put same_key key (record b { eligible_steady_milliseconds = e }) s.buckets;
      })
  later_eligible-IsSound e =
      change-IsSound (record b { eligible_steady_milliseconds = e }) s.total_waiters
        (record { few = here.few; kept = here.kept; rising = here.rising }) refl (omega arith)
        (λ h. h)

  granted-IsSound :
      b.permitted ≡ false
      → 0 < length b.tickets
      → IsSound (record s { buckets = put same_key key (granted b) s.buckets })
  granted-IsSound free h =
      let rest = length-tail b.tickets h in
      change-IsSound (granted b) s.total_waiters
        (record {
          few = ground (arith, here.few);
          kept = omega arith;
          rising = Rising-tail 0 s.next_ticket b.tickets here.rising;
        })
        (ground arith) (ground arith) (λ e. rw e refl)

  pub turn_at-IsSound :
      (ticket : ℕ) (deadline now : ℤ) (stop : Bool)
      → IsSound (turn_at same_key key b ticket deadline now stop s).0
  unfolding turn_at
  turn_at-IsSound ticket deadline now true = erase_ticket_locked-IsSound ticket
  turn_at-IsSound ticket deadline now false = elim (Bool-cases (may_grant b ticket deadline now)) [
    | inl e ↦ rw e (granted-IsSound (ground arith) (queued_first b.tickets ticket (ground arith)))
    | inr e ↦
        elim (Bool-cases (leb_ℤ deadline now || ltb_ℤ deadline b.eligible_steady_milliseconds)) [
          | inl f ↦ rw (e, f) (erase_ticket_locked-IsSound ticket)
          | inr f ↦ rw (e, f) v
        ]
  ]

  -- A ticket more at the end of the queue; the permit may be given up with it.
  pub queued-IsSound :
      (b' : BucketState) (waiting : ℕ)
      → b'.tickets ≡ b.tickets ++ (s.next_ticket ∷ [])
      → s.next_ticket < u64_max
      → waiters b' ≤ s.limits.waiters_per_key
      → waiting + waiters b ≡ s.total_waiters + waiters b'
      → waiting ≤ s.limits.total_waiters
      → is_acquired s.terminal_status ≡ true
      → IsSound (record s {
        next_ticket = plus_64 s.next_ticket 1;
        total_waiters = waiting;
        buckets = put same_key key b' s.buckets;
      })
  queued-IsSound b' waiting e fits few balance room open_ =
      let no_wrap : s.next_ticket + 1 ≡ plus_64 s.next_ticket 1 = omega arith in
      put_old-IsSound same_key s v key b b' waiting (plus_64 s.next_ticket 1) found
        (record {
          few = few;
          kept = ground (arith, ap length e, length-append b.tickets (s.next_ticket ∷ []));
          rising = rw (e, ← no_wrap) (Rising-push 0 s.next_ticket b.tickets here.rising);
        })
        (omega arith) (omega arith) balance room (inl open_)

  pub requeue_at-IsSound :
      b.permitted ≡ true
      → is_acquired s.terminal_status ≡ true
      → IsSound (requeue_at same_key key b s).0
  unfolding requeue_at
  requeue_at-IsSound p open_ = elim (Bool-cases (s.next_ticket == u64_max)) [
    | inl e ↦ rw e (enter_terminal_locked-IsSound ticket_exhausted s v)
    | inr e ↦
        let n = length-append b.tickets (s.next_ticket ∷ []) in
        rw e (
          queued-IsSound
            (record b { permitted = false; tickets = b.tickets ++ (s.next_ticket ∷ []) })
            s.total_waiters refl (ground (arith, v.small)) (ground (arith, n, here.few))
            (ground (arith, n)) v.room open_)
  ]
