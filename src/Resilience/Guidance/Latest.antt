-- ===== src/Resilience/Guidance/Latest.antt =====
-- What `ParseRateLimitGuidance` of src/runtime/resilience/rate_limit_guidance.cpp chooses.
use cuac.Common.{
  ℕ, ◌≤◌, ◌≡◌, ◌⊎◌, inl, inr, refl, sym, subst, ◌∙◌, Bool, true, false, ◌||◌, Option, none, some,
  List, [], ◌∷◌, ltb, if◌then◌else◌, arith, Bool-cases, All, absurd,
}
use cuac.Common.Int.{ℤ, pos, negsuc, ◌+ℤ◌}
use cuac.Resilience.Guidance.Forms.{◌>>=◌}
use cuac.Resilience.Guidance.Parse.{
  RateLimitGuidanceFormat, RateLimitGuidanceObservation, RateLimitGuidanceInput,
  RateLimitGuidanceResult, accepted, try_add_delay, delay_of, Latest, take_delay, observe_values,
  observe, date_reference_of, conclude_guidance, nothing_found, parse_rate_limit_guidance,
  or_malformed, is_empty, has_duplicate_field,
}

module _ (input : RateLimitGuidanceInput) (reference : ℤ) where
  -- Every value of an observation has a delay, of at most some milliseconds.
  abbrev pub IsCovered : ℕ → RateLimitGuidanceFormat → List (List ℕ) → Type 0
  IsCovered delay format values =
      All (λ value. (d : ℕ) × (delay_of input reference format value ≡ some d) × (d ≤ delay)) values

  -- An observation has one value, of just this delay.
  abbrev pub HasDelay : ℕ → RateLimitGuidanceFormat → List (List ℕ) → Type 0
  HasDelay delay format [] = ⊥
  HasDelay delay format (value ∷ []) = delay_of input reference format value ≡ some delay
  HasDelay delay format (value ∷ more ∷ values) = ⊥

  abbrev pub AnyHasDelay : ℕ → List RateLimitGuidanceObservation → Type 0
  AnyHasDelay delay [] = ⊥
  AnyHasDelay delay (o ∷ os) = HasDelay delay o.format o.values ⊎ AnyHasDelay delay os

  -- The time of the delay, and no delay before anything is found.
  abbrev IsTimed : Latest → Type 0
  IsTimed l =
      (l.latest_eligible ≡ input.receipt.steady_milliseconds +ℤ pos l.latest_delay)
      × ((l.found ≡ true) ⊎ (l.latest_delay ≡ 0))

  abbrev Same : Latest → Latest → Type 0
  Same l m = (m.latest_delay ≡ l.latest_delay) × (m.found ≡ l.found)

  take_delay_lem :
      (l : Latest) (delay : ℕ) (eligible : ℤ)
      → IsTimed l
      → eligible ≡ input.receipt.steady_milliseconds +ℤ pos delay
      → IsTimed (take_delay l delay eligible)
        × (l.latest_delay ≤ (take_delay l delay eligible).latest_delay)
        × (delay ≤ (take_delay l delay eligible).latest_delay)
        × (Same l (take_delay l delay eligible)
            ⊎ ((take_delay l delay eligible).latest_delay ≡ delay))
  unfolding take_delay
  take_delay_lem l delay eligible (t, z) e = elim (Bool-cases (ltb l.latest_delay delay)) [
    | inl g ↦ rw g ((e, inl refl), ground arith, omega arith, inr refl)
    | inr g ↦ rw g (
      (t, inl refl),
      omega arith,
      ground arith,
      elim z [ inl f ↦ inl (refl, sym f) | inr zero_yet ↦ inr (ground arith) ],
    )
  ]

  -- What the values of one observation do to what was found.
  abbrev Observes : RateLimitGuidanceFormat → List (List ℕ) → Latest → Latest → Type 0
  Observes format values l m =
      IsTimed m
      × (l.latest_delay ≤ m.latest_delay)
      × IsCovered m.latest_delay format values
      × (Same l m ⊎ HasDelay m.latest_delay format values)

  try_add_delay_lem :
      (steady eligible : ℤ) (delay : ℕ)
      → try_add_delay steady delay ≡ some eligible
      → eligible ≡ steady +ℤ pos delay
  unfolding try_add_delay
  try_add_delay_lem steady eligible delay e = ground arith

  observe_values_lem :
      (format : RateLimitGuidanceFormat) (values : List (List ℕ)) (l m : Latest)
      → IsTimed l
      → observe_values input reference format values l ≡ some m
      → Observes format values l m
  unfolding observe_values
  observe_values_lem format [] l m t e =
      let same : l ≡ m = ground arith in
      subst (Observes format [] l) same (t, omega arith, tt, inl (refl, refl))
  observe_values_lem format (value ∷ more ∷ values) l m t e = absurd (ground arith)
  observe_values_lem format (value ∷ []) l m t e =
      delayed (delay_of input reference format value) refl e
    where
      added :
          (d : ℕ)
          → delay_of input reference format value ≡ some d
          → (x : Option ℤ) → try_add_delay input.receipt.steady_milliseconds d ≡ x
          → (x >>= λ eligible. some (take_delay l d eligible)) ≡ some m
          → Observes format (value ∷ []) l m
      added d f none g e = absurd (ground arith)
      added d f (some eligible) g e =
          let (timed, longer, covers, last) =
            take_delay_lem l d eligible t
              (try_add_delay_lem input.receipt.steady_milliseconds eligible d g) in
          let same : take_delay l d eligible ≡ m = ground arith in
          subst (Observes format (value ∷ []) l) same (
            timed,
            longer,
            ((d, f, covers), tt),
            elim last [ inl unchanged ↦ inl unchanged | inr it ↦ inr (rw it f) ],
          )

      delayed :
          (x : Option ℕ)
          → delay_of input reference format value ≡ x
          → (x >>= λ delay. try_add_delay input.receipt.steady_milliseconds delay >>= λ eligible.
              some (take_delay l delay eligible))
            ≡ some m
          → Observes format (value ∷ []) l m
      delayed none f e = absurd (ground arith)
      delayed (some d) f e = added d f (try_add_delay input.receipt.steady_milliseconds d) refl e

  IsCovered-mono :
      (format : RateLimitGuidanceFormat) (values : List (List ℕ)) (m n : ℕ)
      → m ≤ n
      → IsCovered m format values
      → IsCovered n format values
  IsCovered-mono format [] m n h c = tt
  IsCovered-mono format (v ∷ vs) m n h ((d, e, b), c) =
      ((d, e, omega arith), IsCovered-mono format vs m n h c)

  All-IsCovered :
      (os : List RateLimitGuidanceObservation) (m n : ℕ)
      → m ≤ n
      → All (λ o. IsCovered m o.format o.values) os
      → All (λ o. IsCovered n o.format o.values) os
  All-IsCovered [] m n h c = tt
  All-IsCovered (o ∷ os) m n h (c, cs) =
      (IsCovered-mono o.format o.values m n h c, All-IsCovered os m n h cs)

  -- What some observations do to what was found.
  abbrev Observed : List RateLimitGuidanceObservation → Latest → Latest → Type 0
  Observed os l m =
      IsTimed m
      × (l.latest_delay ≤ m.latest_delay)
      × All (λ o. IsCovered m.latest_delay o.format o.values) os
      × (Same l m ⊎ AnyHasDelay m.latest_delay os)

  Observed-first :
      (o : RateLimitGuidanceObservation) (os : List RateLimitGuidanceObservation) (l n m : Latest)
      → Observes o.format o.values l n
      → Observed os n m
      → Observed (o ∷ os) l m
  Observed-first o os l n m (timed, longer, covers, last) (timed', longer', covers', last') = (
    timed',
    omega arith,
    (IsCovered-mono o.format o.values n.latest_delay m.latest_delay longer' covers, covers'),
    elim last' [
      | inr later ↦ inr (inr later)
      | inl (d, f) ↦ elim last [
        | inl (d', f') ↦ inl (d ∙ d', f ∙ f')
        | inr here ↦ inr (inl (rw d here))
      ]
    ],
  )

  unguarded :
      (b : Bool) (x : Option Latest) (m : Latest) → (if b then none else x) ≡ some m → x ≡ some m
  unguarded true x m e = absurd (ground arith)
  unguarded false x m e = e

  observe_lem :
      (priors : List (List ℕ)) (os : List RateLimitGuidanceObservation) (l m : Latest)
      → IsTimed l
      → observe input reference priors os l ≡ some m
      → Observed os l m
  unfolding observe
  observe_lem priors [] l m t e =
      let same : l ≡ m = ground arith in
      subst (Observed [] l) same (t, omega arith, tt, inl (refl, refl))
  observe_lem priors (o ∷ os) l m t e =
      rest (observe_values input reference o.format o.values l) refl
        (unguarded
          (is_empty o.canonical_field_name || has_duplicate_field priors o.canonical_field_name) _ m
          e)
        (λ n t f. observe_lem (o.canonical_field_name ∷ priors) os n m t f)
    where
      rest :
          (x : Option Latest)
          → observe_values input reference o.format o.values l ≡ x
          → (x >>= λ n. observe input reference (o.canonical_field_name ∷ priors) os n) ≡ some m
          → ((n : Latest)
              → IsTimed n
              → observe input reference (o.canonical_field_name ∷ priors) os n ≡ some m
              → Observed os n m)
          → Observed (o ∷ os) l m
      rest none f e ih = absurd (ground arith)
      rest (some n) f e ih =
          let here = observe_values_lem o.format o.values l n t f in
          Observed-first o os l n m here (ih n here.0 e)

-- The result waits for the latest of the delays: it is the delay of an observation, every other value
-- that was observed has a delay that is no longer, and the eligible time is the receipt's and the delay.
abbrev pub IsLatest : RateLimitGuidanceInput → RateLimitGuidanceResult → Type 0
IsLatest input result =
    (reference : ℤ) × (date_reference_of input ≡ some reference)
    × All (λ o. IsCovered input reference result.delay_milliseconds o.format o.values)
        input.guidance
    × AnyHasDelay input reference result.delay_milliseconds input.guidance
    × (result.eligible_steady_milliseconds
        ≡ input.receipt.steady_milliseconds +ℤ pos result.delay_milliseconds)
    × (result.delay_milliseconds ≤ input.maximum_delay_milliseconds)

zero_later : (a : ℤ) → a ≡ a +ℤ pos 0
unfolding ◌+ℤ◌
zero_later (pos n) = ground arith
zero_later (negsuc n) = ground arith

concluded :
    (input : RateLimitGuidanceInput) (reference : ℤ) (m : Latest)
    → date_reference_of input ≡ some reference
    → Observed input reference input.guidance (nothing_found input) m
    → (conclude_guidance input.maximum_delay_milliseconds m).reason ≡ accepted
    → IsLatest input (conclude_guidance input.maximum_delay_milliseconds m)
unfolding conclude_guidance
concluded input reference m d (timed, longer, covers, last) e = elim (Bool-cases m.found) [
  | inr f ↦ absurd (ground arith)
  | inl f ↦ elim (Bool-cases (ltb input.maximum_delay_milliseconds m.latest_delay)) [
    | inl g ↦ absurd (ground arith)
    | inr g ↦ rw (f, g) (reference, d, covers, found_one f last, timed.0, ground arith)
  ]
]
  where
    found_one :
        m.found ≡ true
        → (m.latest_delay ≡ 0) × (m.found ≡ false)
          ⊎ AnyHasDelay input reference m.latest_delay input.guidance
        → AnyHasDelay input reference m.latest_delay input.guidance
    found_one f (inl (_, g)) = absurd (ground arith)
    found_one f (inr any) = any

-- Guidance that is accepted waits for exactly the latest of the observed delays: every value that was
-- observed has a delay, one of them has the delay of the result and none a longer one, the eligible
-- time is the time of receipt and that delay, and the delay is within the policy's maximum.
pub parse_rate_limit_guidance-IsLatest :
    (input : RateLimitGuidanceInput)
    → (parse_rate_limit_guidance input).reason ≡ accepted
    → IsLatest input (parse_rate_limit_guidance input)
unfolding parse_rate_limit_guidance
parse_rate_limit_guidance-IsLatest input e = referred (date_reference_of input) refl e
  where
    observed :
        (reference : ℤ)
        → date_reference_of input ≡ some reference
        → (x : Option Latest) → observe input reference [] input.guidance (nothing_found input) ≡ x
        → (or_malformed
            (x >>= λ m. some (conclude_guidance input.maximum_delay_milliseconds m))).reason
          ≡ accepted
        → IsLatest input
            (or_malformed (x >>= λ m. some (conclude_guidance input.maximum_delay_milliseconds m)))
    observed reference d none f e = absurd (ground arith)
    observed reference d (some m) f e =
        concluded input reference m d
          (observe_lem input reference [] input.guidance (nothing_found input) m
            (zero_later input.receipt.steady_milliseconds, inr refl) f)
          e

    referred :
        (x : Option ℤ)
        → date_reference_of input ≡ x
        → (or_malformed (
            x >>= λ reference.
            observe input reference [] input.guidance (nothing_found input) >>= λ m.
            some (conclude_guidance input.maximum_delay_milliseconds m))).reason
          ≡ accepted
        → IsLatest input (
            or_malformed (
              x >>= λ reference.
              observe input reference [] input.guidance (nothing_found input) >>= λ m.
              some (conclude_guidance input.maximum_delay_milliseconds m)))
    referred none d e = absurd (ground arith)
    referred (some reference) d e =
        observed reference d (observe input reference [] input.guidance (nothing_found input)) refl
          e
