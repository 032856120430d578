-- ===== src/Resilience/Coordinator/Exclusive.antt =====
-- One permit to a key at a time.
use cuac.Common.{
  ℕ, ◌≡◌, ◌≢◌, inl, inr, refl, sym, ap, ◌∙◌, Bool, true, false, not, ◌&&◌, some, List, [], ◌∷◌,
  ◌++◌, Bool-cases, Option-cases, arith, All,
}
use cuac.Common.Int.{ℤ, max_ℤ}
use cuac.Resilience.Coordinator.Buckets.{find, put, erase}
use cuac.Resilience.Coordinator.Holds.{
  IsKeyEquality, held, Holds, find_same, find-put, find-erase_other, put_old-Holds, put_new-Holds,
  erase-Holds, cleared-Holds,
}
use cuac.Resilience.Coordinator.State.{
  RateLimitAcquireStatus, acquired, scheduler_closed, ticket_exhausted, is_acquired, BucketState,
  SharedState, is_empty, unqueued, enter_terminal_locked, erase_ticket_locked, complete, close,
}
use cuac.Resilience.Coordinator.Calls.{
  extended, extend_found, enqueue, admit, begin_acquire, turn_at, turn, abandon,
  extend_eligible_time, requeue_at, begin_requeue, Call, acquire_call, turn_call, abandon_call,
  extend_call, requeue_call, complete_call, close_call, apply, run, granted, returned,
}

module _ {K : Type 0} (same_key : K → K → Bool) (laws : IsKeyEquality same_key) (j : K) where
  erase_ticket_locked-Holds :
      (k : K) (b : BucketState) (ticket : ℕ) (s : SharedState K)
      → find same_key k s.buckets ≡ some b
      → Holds same_key laws j s.buckets
      → Holds same_key laws j (erase_ticket_locked same_key k b ticket s).buckets
  unfolding erase_ticket_locked
  erase_ticket_locked-Holds k b ticket s found h =
      elim (Bool-cases (not b.permitted && is_empty (unqueued ticket b.tickets))) [
        | inl e ↦ rw e (erase-Holds same_key laws k j b s.buckets found (ground arith) h)
        | inr e ↦ rw e (put_old-Holds same_key laws k j b _ s.buckets found (λ p. p) h)
      ]

  enter_terminal_locked-Holds :
      (status : RateLimitAcquireStatus) (s : SharedState K)
      → Holds same_key laws j s.buckets
      → Holds same_key laws j (enter_terminal_locked status s).buckets
  unfolding enter_terminal_locked
  enter_terminal_locked-Holds status s h = elim (Bool-cases (is_acquired s.terminal_status)) [
    | inl e ↦ rw e (cleared-Holds same_key laws j s.buckets h)
    | inr e ↦ rw e h
  ]

  extend_found-Holds :
      (k : K) (eligible : ℤ) (s : SharedState K)
      → Holds same_key laws j s.buckets
      → Holds same_key laws j (extend_found same_key k eligible s).buckets
  unfolding extend_found
  extend_found-Holds k eligible s h = elim (Option-cases (find same_key k s.buckets)) [
    | inl e ↦ rw (e, extend_found) h
    | inr (b, e) ↦
        rw (e, extend_found)
          (put_old-Holds same_key laws k j b (extended eligible b) s.buckets e (λ p. p) h)
  ]

  enqueue-Holds :
      (k : K) (eligible : ℤ) (s : SharedState K)
      → Holds same_key laws j s.buckets
      → Holds same_key laws j (enqueue same_key k eligible s).buckets
  unfolding enqueue
  enqueue-Holds k eligible s h = elim (Option-cases (find same_key k s.buckets)) [
    | inl e ↦ rw (e, enqueue) (put_new-Holds same_key laws k j _ s.buckets e h)
    | inr (b, e) ↦ rw (e, enqueue) (put_old-Holds same_key laws k j b _ s.buckets e (λ p. p) h)
  ]

  begin_acquire-Holds :
      (k : K) (eligible : ℤ) (stop : Bool) (s : SharedState K)
      → Holds same_key laws j s.buckets
      → Holds same_key laws j (begin_acquire same_key k eligible stop s).0.buckets
  unfolding begin_acquire admit
  begin_acquire-Holds k eligible stop s h =
      let t = extend_found same_key k eligible s in
      let x = extend_found-Holds k eligible s h in
      ground (arith, enter_terminal_locked-Holds ticket_exhausted t x, enqueue-Holds k eligible t x)

  turn_at-Holds :
      (k : K) (b : BucketState) (ticket : ℕ) (deadline now : ℤ) (stop : Bool) (s : SharedState K)
      → find same_key k s.buckets ≡ some b
      → Holds same_key laws j s.buckets
      → Holds same_key laws j (turn_at same_key k b ticket deadline now stop s).0.buckets
  unfolding turn_at
  turn_at-Holds k b ticket deadline now stop s found h = ground (
    arith,
    erase_ticket_locked-Holds k b ticket s found h,
    put_old-Holds same_key laws k j b (granted b) s.buckets found (λ p. refl) h,
  )

  turn-Holds :
      (k : K) (ticket : ℕ) (deadline now : ℤ) (stop : Bool) (s : SharedState K)
      → Holds same_key laws j s.buckets
      → Holds same_key laws j (turn same_key k ticket deadline now stop s).0.buckets
  unfolding turn
  turn-Holds k ticket deadline now stop s h = elim (Bool-cases (is_acquired s.terminal_status)) [
    | inr e ↦ rw e h
    | inl e ↦ elim (Option-cases (find same_key k s.buckets)) [
      | inl f ↦ rw (e, f, turn) h
      | inr (b, f) ↦ rw (e, f, turn) (turn_at-Holds k b ticket deadline now stop s f h)
    ]
  ]

  abandon-Holds :
      (k : K) (ticket : ℕ) (s : SharedState K)
      → Holds same_key laws j s.buckets
      → Holds same_key laws j (abandon same_key k ticket s).buckets
  unfolding abandon
  abandon-Holds k ticket s h = elim (Option-cases (find same_key k s.buckets)) [
    | inl f ↦ rw (f, abandon) h
    | inr (b, f) ↦ rw (f, abandon) (erase_ticket_locked-Holds k b ticket s f h)
  ]

  extend_eligible_time-Holds :
      (k : K) (eligible : ℤ) (s : SharedState K)
      → Holds same_key laws j s.buckets
      → Holds same_key laws j (extend_eligible_time same_key k eligible s).0.buckets
  unfolding extend_eligible_time
  extend_eligible_time-Holds k eligible s h = elim (Option-cases (find same_key k s.buckets)) [
    | inl f ↦ ground arith
    | inr (b, f) ↦
        let x = put_old-Holds same_key laws k j b (extended eligible b) s.buckets f (λ p. p) h in
        ground arith
  ]

  -- A change of another key's bucket.
  put_other-Holds :
      (k : K) (b : BucketState) (m : List (K × BucketState))
      → same_key k j ≡ false
      → Holds same_key laws j m
      → Holds same_key laws j (put same_key k b m)
  put_other-Holds k b m e h = rw (find-put same_key laws k j b m, e) h

  complete-Holds :
      (k : K) (s : SharedState K)
      → same_key k j ≡ false
      → Holds same_key laws j s.buckets
      → Holds same_key laws j (complete same_key k s).buckets
  unfolding complete
  complete-Holds k s e h = elim (Option-cases (find same_key k s.buckets)) [
    | inl f ↦ ground arith
    | inr (b, f) ↦
        let x = put_other-Holds k (record b { permitted = false }) s.buckets e h in
        let y : Holds same_key laws j (erase same_key k s.buckets) =
          rw (find-erase_other same_key laws k j s.buckets e) h in
        ground arith
  ]

  begin_requeue-Holds :
      (k : K) (eligible : ℤ) (stop : Bool) (s : SharedState K)
      → same_key k j ≡ false
      → Holds same_key laws j s.buckets
      → Holds same_key laws j (begin_requeue same_key k eligible stop s).0.buckets
  unfolding begin_requeue requeue_at
  begin_requeue-Holds k eligible stop s e h =
      let t = extend_found same_key k eligible s in
      let x = extend_found-Holds k eligible s h in
      elim (Option-cases (find same_key k s.buckets)) [
        | inl f ↦ ground arith
        | inr (b, f) ↦
            let y =
              put_other-Holds k
                (record b {
                  eligible_steady_milliseconds = max_ℤ b.eligible_steady_milliseconds eligible;
                  permitted = false;
                  tickets = b.tickets ++ (t.next_ticket ∷ []);
                })
                t.buckets e x in
            ground (arith, enter_terminal_locked-Holds ticket_exhausted t x)
      ]

  -- A call that does not give up the permit of the key.
  abbrev pub Keeps : Call K → Type 0
  Keeps (complete_call k) = same_key k j ≡ false
  Keeps (requeue_call k eligible stop) = same_key k j ≡ false
  Keeps _ = Unit {0}

  apply-Holds :
      (s : SharedState K) (c : Call K)
      → Keeps c
      → Holds same_key laws j s.buckets
      → Holds same_key laws j (apply same_key s c).buckets
  unfolding apply close
  apply-Holds s (acquire_call k eligible stop) keeps h = begin_acquire-Holds k eligible stop s h
  apply-Holds s (turn_call k ticket deadline now stop) keeps h =
      turn-Holds k ticket deadline now stop s h
  apply-Holds s (abandon_call k ticket) keeps h = abandon-Holds k ticket s h
  apply-Holds s (extend_call k eligible) keeps h = extend_eligible_time-Holds k eligible s h
  apply-Holds s (requeue_call k eligible stop) keeps h =
      begin_requeue-Holds k eligible stop s keeps h
  apply-Holds s (complete_call k) keeps h = complete-Holds k s keeps h
  apply-Holds s close_call keeps h = enter_terminal_locked-Holds scheduler_closed s h

  pub run-Holds :
      (s : SharedState K) (cs : List (Call K))
      → All Keeps cs
      → Holds same_key laws j s.buckets
      → Holds same_key laws j (run same_key s cs).buckets
  unfolding run
  run-Holds s [] keeps h = h
  run-Holds s (c ∷ cs) keeps h =
      run-Holds (apply same_key s c) cs keeps.1 (apply-Holds s c keeps.0 h)

  -- While the permit is held no turn grants another.
  pub turn_refuses :
      (k : K) (ticket : ℕ) (deadline now : ℤ) (stop : Bool) (s : SharedState K)
      → same_key k j ≡ true
      → Holds same_key laws j s.buckets
      → (turn same_key k ticket deadline now stop s).1 ≢ returned acquired
  unfolding turn turn_at
  turn_refuses k ticket deadline now stop s e h =
      let same = find_same same_key laws k j s.buckets e in
      elim (Option-cases (find same_key k s.buckets)) [
        | inl f ↦ λ g. ground (arith, sym same ∙ f)
        | inr (b, f) ↦
            λ g. let p : b.permitted ≡ true = sym (ap held f) ∙ ap held same ∙ h in ground arith
      ]
