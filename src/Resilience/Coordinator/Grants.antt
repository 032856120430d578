-- ===== src/Resilience/Coordinator/Grants.antt =====
-- To whom a turn gives the permit.
use cuac.Common.{
  ℕ, ◌+◌, ◌<◌, ◌≡◌, ◌≢◌, ◌↔◌, inl, inr, refl, ap, Bool, true, false, some, List, [], ◌∷◌,
  Option-cases, arith, absurd, All,
}
use cuac.Common.Int.{ℤ, ◌≤ℤ◌}
use cuac.Resilience.Coordinator.Buckets.{find, put, find-put_old, AllValues-find}
use cuac.Resilience.Coordinator.State.{acquired, is_acquired, BucketState, SharedState}
use cuac.Resilience.Coordinator.Calls.{
  turn_at, turn, Call, run, granted, may_grant, is_front, returned,
}
use cuac.Resilience.Coordinator.Invariant.{Rising, IsBucket, IsSound}
use cuac.Resilience.Coordinator.Holds.{IsKeyEquality, Holds}
use cuac.Resilience.Coordinator.Exclusive.{Keeps, run-Holds, turn_refuses}

-- The permit of the bucket is free, its time has come and the deadline has not, and the ticket is
-- first in its queue, with none but later tickets behind it.
pub record IsNext (b : BucketState) (ticket : ℕ) (deadline now : ℤ) : Type 0 where
  pub free : b.permitted ≡ false
  pub behind : List ℕ
  pub queue : b.tickets ≡ ticket ∷ behind
  pub later : All (λ t. ticket < t) behind
  pub eligible : b.eligible_steady_milliseconds ≤ℤ now
  pub in_time : now ≤ℤ deadline

Rising-All : (t lo hi : ℕ) (ts : List ℕ) → t < lo → Rising lo ts hi → All (λ u. t < u) ts
Rising-All t lo hi [] l r = tt
Rising-All t lo hi (u ∷ us) l r =
    (omega (arith, r.0), Rising-All t (u + 1) hi us (omega (arith, r.0)) r.1)

front-behind :
    (t hi : ℕ) (ts : List ℕ)
    → is_front t ts ≡ true
    → Rising 0 ts hi
    → (us : List ℕ) × (ts ≡ t ∷ us) × All (λ u. t < u) us
front-behind t hi [] h r = ground arith
front-behind t hi (u ∷ us) h r =
    let same : u ≡ t = ground arith in
    (us, rw same refl, Rising-All t (u + 1) hi us (omega (arith, same)) r.1)

module _ {K : Type 0} (same_key : K → K → Bool) where
  -- The bucket that a turn of the key looks at.
  pub record IsGrant (key : K) (ticket : ℕ) (deadline now : ℤ) (s : SharedState K) : Type 0 where
    pub bucket : BucketState
    pub found : find same_key key s.buckets ≡ some bucket
    pub next : IsNext bucket ticket deadline now
    pub live : is_acquired s.terminal_status ≡ true

  turn_grants :
      (key : K) (ticket : ℕ) (deadline now : ℤ) (stop : Bool) (s : SharedState K)
      → IsSound s
      → (turn same_key key ticket deadline now stop s).1 ≡ returned acquired
      → IsGrant key ticket deadline now s × (stop ≡ false)
  unfolding turn turn_at
  turn_grants key ticket deadline now stop s v g =
      elim (Option-cases (find same_key key s.buckets)) [
        | inl f ↦ absurd (ground arith)
        | inr (b, f) ↦
            let may : may_grant b ticket deadline now ≡ true = ground arith in
            let good =
              AllValues-find same_key (IsBucket s.limits.waiters_per_key s.next_ticket) key b
                s.buckets v.each f in
            let (us, q, l) =
              front-behind ticket s.next_ticket b.tickets (ground arith) good.rising in
            (
              record {
                bucket = b;
                found = f;
                next = record {
                  free = ground arith;
                  behind = us;
                  queue = q;
                  later = l;
                  eligible = ground arith;
                  in_time = ground arith;
                };
                live = ground arith;
              },
              ground arith,
            )
      ]

  grant_turns :
      (key : K) (ticket : ℕ) (deadline now : ℤ) (s : SharedState K)
      (g : IsGrant key ticket deadline now s)
      → turn same_key key ticket deadline now false s
        ≡ (record s { buckets = put same_key key (granted g.bucket) s.buckets }, returned acquired)
  unfolding turn turn_at
  grant_turns key ticket deadline now s g =
      let may : may_grant g.bucket ticket deadline now ≡ true = ground (arith, g.next) in
      ground (arith, g.found, g.live)

  grant-Holds :
      (laws : IsKeyEquality same_key) (key : K) (ticket : ℕ) (deadline now : ℤ) (s : SharedState K)
      → IsGrant key ticket deadline now s
      → Holds same_key laws key (turn same_key key ticket deadline now false s).0.buckets
  grant-Holds laws key ticket deadline now s g =
      rw
        (
          grant_turns key ticket deadline now s g,
          find-put_old same_key key g.bucket (granted g.bucket) s.buckets g.found,
        )
        refl

  -- A turn gives its caller the permit exactly if the caller is not cancelled, the coordinator has
  -- not ended, and the bucket of the key is there with its permit free, its time come, the caller's
  -- deadline not past and the caller's ticket before every other ticket of the queue.
  pub turn-IsGrant :
      (key : K) (ticket : ℕ) (deadline now : ℤ) (stop : Bool) (s : SharedState K)
      → IsSound s
      → ((turn same_key key ticket deadline now stop s).1 ≡ returned acquired)
        ↔ (IsGrant key ticket deadline now s × (stop ≡ false))
  turn-IsGrant key ticket deadline now stop s v = (
    turn_grants key ticket deadline now stop s v,
    λ (g, e). rw e (ap (λ r. r.1) (grant_turns key ticket deadline now s g)),
  )

  -- One permit to a key at a time: after a turn that granted it, through any calls of other threads
  -- and of the holder none of which completes or requeues a permit of the key, no turn of an equal
  -- key is granted.
  pub turn-Exclusive :
      (laws : IsKeyEquality same_key) (key k : K) (ticket t : ℕ) (deadline now d n : ℤ)
      (stop c : Bool) (s : SharedState K)
      → IsSound s
      → (turn same_key key ticket deadline now stop s).1 ≡ returned acquired
      → same_key k key ≡ true
      → (calls : List (Call K)) → All (Keeps same_key laws key) calls
      → (turn same_key k t d n c
          (run same_key (turn same_key key ticket deadline now stop s).0 calls)).1
        ≢ returned acquired
  turn-Exclusive laws key k ticket t deadline now d n stop c s v granted_ e calls keeps =
      let (g, live) = turn_grants key ticket deadline now stop s v granted_ in
      let holds : Holds same_key laws key (turn same_key key ticket deadline now stop s).0.buckets =
        rw live (grant-Holds laws key ticket deadline now s g) in
      turn_refuses same_key laws key k t d n c _ e (
        run-Holds same_key laws key (turn same_key key ticket deadline now stop s).0 calls keeps
          holds)
