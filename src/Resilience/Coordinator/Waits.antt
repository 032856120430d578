-- ===== src/Resilience/Coordinator/Waits.antt =====
-- The loop of `WaitForTicket`, with what happens while its caller waits.
use cuac.Common.{
  ℕ, ◌≤◌, ◌<◌, ◌≡◌, ◌≢◌, ◌⊎◌, inl, inr, refl, Bool, true, false, ◌&&◌, List, [], ◌∷◌, Bool-cases,
  arith, absurd,
}
use cuac.Common.Int.{ℤ, pos, pos_part, leb_ℤ, ltb_ℤ, ◌≤ℤ◌, ◌+ℤ◌, ◌-ℤ◌, +ℤ_parts, -ℤ_parts}
use cuac.Resilience.Coordinator.State.{RateLimitAcquireStatus, SharedState}
use cuac.Resilience.Coordinator.Calls.{
  i64_max, wait_slice, Turn, returned, wait, turn_at, turn, abandon, Call, run,
}

-- A turn and the wait after it: the clock's answer, whether the caller is cancelled, whether the wait
-- throws, and the calls of other threads meanwhile.
pub record Round (K : Type 0) : Type 0 where
  pub now : ℤ
  pub is_cancelled : Bool
  pub wait_throws : Bool
  pub others : List (Call K)

-- `still` says that the rounds are over and the caller waits.
pub data Waited : Type 0 where
  ended : RateLimitAcquireStatus → Waited
  threw still : Waited

-- A slice is positive, at most the maximum, and does not go past the target.
pub wait_slice_bounds :
    (now target : ℤ) (maximum : ℕ)
    → 0 < maximum
    → target ≤ℤ i64_max
    → ltb_ℤ now target ≡ true
    → (0 < wait_slice now target maximum)
      × (wait_slice now target maximum ≤ maximum)
      × (now +ℤ pos (wait_slice now target maximum) ≤ℤ target)
unfolding wait_slice
wait_slice_bounds now target maximum h small before =
    elim (Bool-cases (leb_ℤ now (i64_max -ℤ pos maximum) && ltb_ℤ (now +ℤ pos maximum) target)) [
      | inl e ↦
          let same : wait_slice now target maximum ≡ maximum = ground arith in
          rw same (ground (arith, +ℤ_parts now (pos maximum)))
      | inr e ↦
          let same : wait_slice now target maximum ≡ pos_part (target -ℤ now) = ground arith in
          rw same (
            ground (
              arith,
              -ℤ_parts target now,
              -ℤ_parts i64_max (pos maximum),
              +ℤ_parts now (pos maximum),
              +ℤ_parts now (pos (pos_part (target -ℤ now))),
            ))
    ]

Turn-cases :
    (t : Turn)
    → ((status : RateLimitAcquireStatus) × (t ≡ returned status)) ⊎ ((slice : ℕ) × (t ≡ wait slice))
Turn-cases (returned status) = inl (status, refl)
Turn-cases (wait slice) = inr (slice, refl)

module _ {K : Type 0} (same_key : K → K → Bool) (key : K) (ticket : ℕ) (deadline : ℤ) where
  unfoldable pub wait_for_ticket : List (Round K) → SharedState K → SharedState K × Waited
  wait_for_ticket [] s = (s, still)
  wait_for_ticket (r ∷ rs) s =
      let (t, result) = turn same_key key ticket deadline r.now r.is_cancelled s in
      elim result [
        | returned status ↦ (t, ended status)
        | wait slice ↦ elim r.wait_throws [
          | true ↦ (abandon same_key key ticket t, threw)
          | false ↦ wait_for_ticket rs (run same_key t r.others)
        ]
      ]

  turn_late :
      (now : ℤ) (stop : Bool) (s : SharedState K) (slice : ℕ)
      → deadline ≤ℤ now
      → (turn same_key key ticket deadline now stop s).1 ≢ wait slice
  unfolding turn turn_at
  turn_late now stop s slice late = λ e. ground arith

  -- That the clock comes to the deadline.
  abbrev pub IsPast : List (Round K) → Type 0
  IsPast [] = ⊥
  IsPast (r ∷ rs) = (deadline ≤ℤ r.now) ⊎ IsPast rs

  -- A caller waits no longer than its deadline, whatever other threads do: by the first turn at
  -- which the clock has come to the deadline the loop has returned or thrown.
  pub wait_for_ticket-IsPast :
      (rounds : List (Round K)) (s : SharedState K)
      → IsPast rounds
      → (wait_for_ticket rounds s).1 ≢ still
  unfolding wait_for_ticket
  wait_for_ticket-IsPast [] s past = absurd past
  wait_for_ticket-IsPast (r ∷ rs) s past =
      elim (Turn-cases (turn same_key key ticket deadline r.now r.is_cancelled s).1) [
        | inl (status, e) ↦ rw (e, wait_for_ticket) (λ g. cc)
        | inr (slice, e) ↦ elim past [
          | inl late ↦ absurd (turn_late r.now r.is_cancelled s slice late e)
          | inr later ↦ elim (Bool-cases r.wait_throws) [
            | inl f ↦ λ g. ground arith
            | inr f ↦ rw (e, f, wait_for_ticket) (wait_for_ticket-IsPast rs _ later)
          ]
        ]
      ]
