-- ===== src/Resilience/Coordinator/Invariant.antt =====
-- What holds of the coordinator's shared state whenever the mutex is free.
use cuac.Common.{
  ℕ, ◌+◌, ◌≤◌, ◌<◌, ◌≡◌, ◌⊎◌, inl, inr, refl, Bool, true, none, some, List, [], ◌∷◌, ◌++◌, length,
  ◌==◌, if◌then◌else◌, Bool-cases, arith,
}
use cuac.Resilience.Coordinator.Buckets.{
  find, put, erase, total, AllValues, total-put_old, total-put_new, total-erase, AllValues-put,
  AllValues-erase, AllValues-map,
}
use cuac.Resilience.Coordinator.State.{
  is_acquired, BucketState, SharedState, u64_max, is_queued, unqueued,
}
use cuac.Resilience.Coordinator.Calls.{waiters}

-- Tickets from `lo` on and below `hi`, each greater than the one before.
abbrev pub Rising : ℕ → List ℕ → ℕ → Type 0
Rising lo [] hi = lo ≤ hi
Rising lo (t ∷ ts) hi = (lo ≤ t) × Rising (t + 1) ts hi

pub Rising-wider :
    (lo lo' hi hi' : ℕ) (ts : List ℕ) → lo' ≤ lo → hi ≤ hi' → Rising lo ts hi → Rising lo' ts hi'
Rising-wider lo lo' hi hi' [] p q r = omega arith
Rising-wider lo lo' hi hi' (t ∷ ts) p q r =
    (omega (arith, r.0), Rising-wider (t + 1) (t + 1) hi hi' ts (omega arith) q r.1)

pub Rising-push : (lo hi : ℕ) (ts : List ℕ) → Rising lo ts hi → Rising lo (ts ++ (hi ∷ [])) (hi + 1)
Rising-push lo hi [] r = (r, omega arith)
Rising-push lo hi (t ∷ ts) r = (r.0, Rising-push (t + 1) hi ts r.1)

pub Rising-unqueued : (t lo hi : ℕ) (ts : List ℕ) → Rising lo ts hi → Rising lo (unqueued t ts) hi
unfolding unqueued
Rising-unqueued t lo hi [] r = r
Rising-unqueued t lo hi (u ∷ us) r = elim (Bool-cases (u == t)) [
  | inl e ↦ rw e (Rising-wider (u + 1) lo hi hi us (omega (arith, r.0)) (omega arith) r.1)
  | inr e ↦ rw e (r.0, Rising-unqueued t (u + 1) hi us r.1)
]

pub length-unqueued :
    (t : ℕ) (ts : List ℕ) → length (unqueued t ts) + (if is_queued t ts then 1 else 0) ≡ length ts
unfolding unqueued is_queued
length-unqueued t [] = refl
length-unqueued t (u ∷ us) = ground (arith, length-unqueued t us)

pub record IsBucket (per_key next : ℕ) (b : BucketState) : Type 0 where
  pub few : waiters b ≤ per_key
  pub kept : 0 < waiters b
  pub rising : Rising 0 b.tickets next

abbrev pub IsIdle : BucketState → Type 0
IsIdle b = b.tickets ≡ []

-- The callers counted are those that hold or await a permit; they are within both limits; no bucket
-- is left behind that nobody holds or awaits; the tickets of a queue rise; and when the coordinator
-- has ended nobody waits.
pub record IsSound {K : Type 0} (s : SharedState K) : Type 0 where
  pub counted : s.total_waiters ≡ total waiters s.buckets
  pub room : s.total_waiters ≤ s.limits.total_waiters
  pub hard : s.limits.total_waiters ≤ 4096
  pub each : AllValues (IsBucket s.limits.waiters_per_key s.next_ticket) s.buckets
  pub ended : (is_acquired s.terminal_status ≡ true) ⊎ AllValues IsIdle s.buckets
  pub small : s.next_ticket ≤ u64_max

IsBucket-later :
    {K : Type 0} (per n n' : ℕ) (m : List (K × BucketState))
    → n ≤ n'
    → AllValues (IsBucket per n) m
    → AllValues (IsBucket per n') m
IsBucket-later per n n' m p =
    AllValues-map (IsBucket per n) (IsBucket per n')
      (λ b v. record {
        few = v.few;
        kept = v.kept;
        rising = Rising-wider 0 0 n n' b.tickets (omega arith) p v.rising;
      })
      m

module _ {K : Type 0} (same_key : K → K → Bool) (s : SharedState K) (v : IsSound s) (key : K) where
  -- A bucket that changes.
  pub put_old-IsSound :
      (b b' : BucketState) (waiting next : ℕ)
      → find same_key key s.buckets ≡ some b
      → IsBucket s.limits.waiters_per_key next b'
      → s.next_ticket ≤ next
      → next ≤ u64_max
      → waiting + waiters b ≡ s.total_waiters + waiters b'
      → waiting ≤ s.limits.total_waiters
      → (is_acquired s.terminal_status ≡ true) ⊎ IsIdle b'
      → IsSound (record s {
        next_ticket = next;
        total_waiters = waiting;
        buckets = put same_key key b' s.buckets;
      })
  put_old-IsSound b b' waiting next found good later fits balance room idle = record {
    counted = omega (arith, total-put_old same_key waiters key b b' s.buckets found, v.counted);
    room = room;
    hard = v.hard;
    each =
        AllValues-put same_key (IsBucket s.limits.waiters_per_key next) key b' s.buckets
          (IsBucket-later s.limits.waiters_per_key s.next_ticket next s.buckets later v.each) good;
    ended = still v.ended idle;
    small = fits;
  }
    where
      still :
          (is_acquired s.terminal_status ≡ true) ⊎ AllValues IsIdle s.buckets
          → (is_acquired s.terminal_status ≡ true) ⊎ IsIdle b'
          → (is_acquired s.terminal_status ≡ true)
            ⊎ AllValues IsIdle (put same_key key b' s.buckets)
      still (inl e) h = inl e
      still (inr a) (inl e) = inl e
      still (inr a) (inr h) = inr (AllValues-put same_key IsIdle key b' s.buckets a h)

  -- A bucket that is new.
  pub put_new-IsSound :
      (b' : BucketState) (waiting next : ℕ)
      → find same_key key s.buckets ≡ none
      → IsBucket s.limits.waiters_per_key next b'
      → s.next_ticket ≤ next
      → next ≤ u64_max
      → waiting ≡ s.total_waiters + waiters b'
      → waiting ≤ s.limits.total_waiters
      → is_acquired s.terminal_status ≡ true
      → IsSound (record s {
        next_ticket = next;
        total_waiters = waiting;
        buckets = put same_key key b' s.buckets;
      })
  put_new-IsSound b' waiting next missing good later fits balance room open_ = record {
    counted = omega (arith, total-put_new same_key waiters key b' s.buckets missing, v.counted);
    room = room;
    hard = v.hard;
    each =
        AllValues-put same_key (IsBucket s.limits.waiters_per_key next) key b' s.buckets
          (IsBucket-later s.limits.waiters_per_key s.next_ticket next s.buckets later v.each) good;
    ended = inl open_;
    small = fits;
  }

  -- A bucket that goes.
  pub erase-IsSound :
      (b : BucketState) (waiting : ℕ)
      → find same_key key s.buckets ≡ some b
      → waiting + waiters b ≡ s.total_waiters
      → IsSound (record s { total_waiters = waiting; buckets = erase same_key key s.buckets })
  erase-IsSound b waiting found balance = record {
    counted = omega (arith, total-erase same_key waiters key b s.buckets found, v.counted);
    room = omega (arith, v.room);
    hard = v.hard;
    each =
        AllValues-erase same_key (IsBucket s.limits.waiters_per_key s.next_ticket) key s.buckets
          v.each;
    ended = still v.ended;
    small = v.small;
  }
    where
      still :
          (is_acquired s.terminal_status ≡ true) ⊎ AllValues IsIdle s.buckets
          → (is_acquired s.terminal_status ≡ true) ⊎ AllValues IsIdle (erase same_key key s.buckets)
      still (inl e) = inl e
      still (inr a) = inr (AllValues-erase same_key IsIdle key s.buckets a)
