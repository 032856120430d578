-- ===== src/Planner/Selection/Choice.antt =====
-- What the loop of `SelectOperation` knows after each operation.
use cuac.Common.{
  ℕ, ◌≤◌, ◌<◌, ◌≡◌, ◌⊎◌, inl, inr, refl, sym, ◌∙◌, subst, Bool, true, false, not, ◌&&◌, Option,
  none, some, List, ◌∷◌, length, ltb, ◌==◌, Bool-cases, arith, count, count_mono, IsIn,
}
use cuac.Planner.Selection.Select.{
  CompiledOperation, ResolvedRelationInput, CandidateInputBindings, PlanningError,
  multiple_fallbacks, Result, ok, throw, EligibleOperation, nobody, all_satisfied, evaluate_v1,
  Selection, challenge, evaluate, consider,
}

abbrev pub rank : CompiledOperation → ℕ
rank o = length o.selector

abbrev pub eligible : CompiledOperation → EligibleOperation
eligible o = record { operation = some o; specificity = rank o; priority = 0 }

-- One operation of the rank or several of it.
abbrev pub IsTie : Bool → ℕ → Type 0
IsTie true n = 2 ≤ n
IsTie false n = n ≡ 1

compare_cases : (a b : ℕ) → (a < b) ⊎ (b ≡ a) ⊎ (b < a)
compare_cases a b = ground arith

evaluate_v1-cases :
    (o : CompiledOperation) (inputs : List ResolvedRelationInput) (b : CandidateInputBindings)
    → (evaluate_v1 o inputs b ≡ nobody) ⊎ (evaluate_v1 o inputs b ≡ eligible o)
unfolding evaluate_v1
evaluate_v1-cases o inputs b = ground arith

abbrev won : EligibleOperation → Selection → Selection
won winner s = record s { winner = winner; winner_is_tied = false }

challenge_first :
    (o : CompiledOperation) (s : Selection)
    → s.winner ≡ nobody
    → challenge (eligible o) s ≡ won (eligible o) s
unfolding challenge
challenge_first o s e = ground arith

challenge_higher :
    (o w : CompiledOperation) (s : Selection)
    → s.winner ≡ eligible w
    → rank w < rank o
    → challenge (eligible o) s ≡ won (eligible o) s
unfolding challenge
challenge_higher o w s e h = ground arith

challenge_level :
    (o w : CompiledOperation) (s : Selection)
    → s.winner ≡ eligible w
    → rank o ≡ rank w
    → challenge (eligible o) s ≡ record s { winner_is_tied = true }
unfolding challenge
challenge_level o w s e h = ground arith

challenge_lower :
    (o w : CompiledOperation) (s : Selection)
    → s.winner ≡ eligible w
    → rank o < rank w
    → challenge (eligible o) s ≡ s
unfolding challenge
challenge_lower o w s e h = ground arith

challenge-nobody : (s : Selection) → challenge nobody s ≡ s
unfolding challenge
challenge-nobody s = refl

challenge_fallback : (c : EligibleOperation) (s : Selection) → (challenge c s).fallback ≡ s.fallback
unfolding challenge
challenge_fallback c s = ground arith

module _ (resolve : CompiledOperation → Result CandidateInputBindings)
    (inputs : List ResolvedRelationInput) where
  -- That the operation's inputs are resolved and satisfied.
  abbrev pub is_eligible : CompiledOperation → Bool
  is_eligible o = elim (resolve o) [
    | throw e ↦ false
    | ok bindings ↦ not bindings.conflicting && all_satisfied o.selector inputs bindings
  ]

  -- The operations that compete, and those of a higher rank than `w` or of its rank.
  abbrev pub is_candidate : CompiledOperation → Bool
  is_candidate o = not o.fallback && is_eligible o

  abbrev pub outranks : CompiledOperation → CompiledOperation → Bool
  outranks w o = is_candidate o && ltb (rank w) (rank o)

  abbrev pub equals : CompiledOperation → CompiledOperation → Bool
  equals w o = is_candidate o && rank o == rank w

  pub evaluate-cases :
      (o : CompiledOperation)
      → ((e : PlanningError) × (resolve o ≡ throw e) × (evaluate resolve inputs o ≡ throw e))
        ⊎ ((evaluate resolve inputs o ≡ ok nobody) × (is_eligible o ≡ false))
        ⊎ ((evaluate resolve inputs o ≡ ok (eligible o)) × (is_eligible o ≡ true))
  unfolding evaluate evaluate_v1
  evaluate-cases o = ground arith

  -- What is known of the winner among the operations `done`.
  abbrev pub IsWinner : List CompiledOperation → EligibleOperation → Bool → Type 0
  IsWinner done winner tied =
      ((winner ≡ nobody) × (tied ≡ false) × (count is_candidate done ≡ 0))
      ⊎ ((w : CompiledOperation) × (winner ≡ eligible w)
          × IsIn w done
          × (is_candidate w ≡ true)
          × (count (outranks w) done ≡ 0)
          × IsTie tied (count (equals w) done))

  -- What is known of the fallback.
  abbrev pub IsFallback : List CompiledOperation → Option CompiledOperation → Type 0
  IsFallback done fallback =
      ((count (λ o. o.fallback) done ≡ 0) × (fallback ≡ none))
      ⊎ ((f : CompiledOperation) × (fallback ≡ some f)
          × IsIn f done
          × (f.fallback ≡ true)
          × (count (λ o. o.fallback) done ≡ 1))

  pub record IsChoice (done : List CompiledOperation) (s : Selection) : Type 0 where
    pub winner : IsWinner done s.winner s.winner_is_tied
    pub fallback : IsFallback done s.fallback

  IsFallback-skip :
      (o : CompiledOperation) (done : List CompiledOperation) (fallback : Option CompiledOperation)
      → o.fallback ≡ false
      → IsFallback done fallback
      → IsFallback (o ∷ done) fallback
  IsFallback-skip o done fallback f (inl (n, z)) = inl (rw f n, z)
  IsFallback-skip o done fallback f (inr (g, h, i, k, n)) = inr (g, h, inr i, k, rw f n)

  -- An operation that does not compete changes nothing of the winner.
  IsWinner-skip :
      (o : CompiledOperation) (done : List CompiledOperation) (winner : EligibleOperation)
      (tied : Bool)
      → is_candidate o ≡ false
      → IsWinner done winner tied
      → IsWinner (o ∷ done) winner tied
  IsWinner-skip o done winner tied idle (inl (a, b, c)) = inl (a, b, rw idle c)
  IsWinner-skip o done winner tied idle (inr (w, a, i, b, c, d)) =
      inr (w, a, inr i, b, rw idle c, rw idle d)

  -- An operation that competes when none has, and one that outranks every other so far.
  outranks_none :
      (o : CompiledOperation) (done : List CompiledOperation)
      → count (outranks o) done ≡ 0
      → count (equals o) done ≡ 0
      → is_candidate o ≡ true
      → IsWinner (o ∷ done) (eligible o) false
  outranks_none o done higher level competes =
      inr (o, refl, inl refl, competes, ground (arith, higher), ground (arith, level, competes))

  first_candidate :
      (o : CompiledOperation) (done : List CompiledOperation)
      → count is_candidate done ≡ 0
      → is_candidate o ≡ true
      → IsWinner (o ∷ done) (eligible o) false
  first_candidate o done none_yet competes =
      outranks_none o done
        (omega (arith, none_yet, count_mono (outranks o) is_candidate done (λ x h. ground arith)))
        (omega (arith, none_yet, count_mono (equals o) is_candidate done (λ x h. ground arith)))
        competes

  higher_candidate :
      (o w : CompiledOperation) (done : List CompiledOperation)
      → count (outranks w) done ≡ 0
      → rank w < rank o
      → is_candidate o ≡ true
      → IsWinner (o ∷ done) (eligible o) false
  higher_candidate o w done top higher competes =
      outranks_none o done
        (omega (arith, top, count_mono (outranks o) (outranks w) done (λ x h. ground arith)))
        (omega (arith, top, count_mono (equals o) (outranks w) done (λ x h. ground arith))) competes

  IsWinner-challenge :
      (o : CompiledOperation) (done : List CompiledOperation) (s : Selection)
      → is_candidate o ≡ true
      → IsWinner done s.winner s.winner_is_tied
      → IsWinner
          (o ∷ done)
          (challenge (eligible o) s).winner
          (challenge (eligible o) s).winner_is_tied
  IsWinner-challenge o done s competes (inl (a, b, c)) =
      rw (challenge_first o s a) (first_candidate o done c competes)
  IsWinner-challenge o done s competes (inr (w, a, i, b, c, d)) =
      elim (compare_cases (rank w) (rank o)) [
        | inl higher ↦
            rw (challenge_higher o w s a higher) (higher_candidate o w done c higher competes)
        | inr (inl level) ↦
            rw (challenge_level o w s a level) (inr (w, a, inr i, b, ground arith, ground arith))
        | inr (inr lower) ↦ rw (challenge_lower o w s a lower) (
            let below : equals w o ≡ false = ground arith in
            inr (w, a, inr i, b, ground arith, rw below d))
      ]

  consider_fallback :
      (o : CompiledOperation) (done : List CompiledOperation) (s t : Selection)
      → o.fallback ≡ true
      → IsChoice done s
      → consider resolve inputs o s ≡ ok t
      → IsChoice (o ∷ done) t
  unfolding consider
  consider_fallback o done s t f v e = elim v.fallback [
    | inr (g, h, i, k, n) ↦ ground arith
    | inl (n, z) ↦
        let same : record s { fallback = some o } ≡ t = ground arith in
        subst (λ u. IsChoice (o ∷ done) u) same
          (record {
            winner = IsWinner-skip o done s.winner s.winner_is_tied (ground arith) v.winner;
            fallback = inr (o, refl, inl refl, f, ground arith);
          })
  ]

  pub consider-IsChoice :
      (o : CompiledOperation) (done : List CompiledOperation) (s t : Selection)
      → IsChoice done s
      → consider resolve inputs o s ≡ ok t
      → IsChoice (o ∷ done) t
  unfolding consider
  consider-IsChoice o done s t v e = elim (Bool-cases o.fallback) [
    | inl f ↦ consider_fallback o done s t f v e
    | inr f ↦ elim (evaluate-cases o) [
      | inl (x, _, h) ↦ ground arith
      | inr (inl (h, idle)) ↦
          let same : challenge nobody s ≡ t = ground arith in
          subst (λ u. IsChoice (o ∷ done) u) (sym (challenge-nobody s) ∙ same)
            (record {
              winner = IsWinner-skip o done s.winner s.winner_is_tied (ground arith) v.winner;
              fallback = IsFallback-skip o done s.fallback f v.fallback;
            })
      | inr (inr (h, competes)) ↦
          let same : challenge (eligible o) s ≡ t = ground arith in
          subst (λ u. IsChoice (o ∷ done) u) same
            (record {
              winner = IsWinner-challenge o done s (ground arith) v.winner;
              fallback =
                  rw (challenge_fallback (eligible o) s)
                    (IsFallback-skip o done s.fallback f v.fallback);
            })
    ]
  ]

  -- An operation that stops the loop: a second fallback, or one that cannot be resolved.
  pub consider_error :
      (o : CompiledOperation) (done : List CompiledOperation) (s : Selection) (x : PlanningError)
      → IsChoice done s
      → consider resolve inputs o s ≡ throw x
      → ((x ≡ multiple_fallbacks) × (2 ≤ count (λ p. p.fallback) (o ∷ done)))
        ⊎ (resolve o ≡ throw x)
  unfolding consider
  consider_error o done s x v e = elim (Bool-cases o.fallback) [
    | inl f ↦ elim v.fallback [
      | inl (n, z) ↦ ground arith
      | inr (g, h, i, k, n) ↦ inl (ground arith, ground arith)
    ]
    | inr f ↦ elim (evaluate-cases o) [
      | inl (y, r, h) ↦ ground arith
      | inr (inl (h, idle)) ↦ ground arith
      | inr (inr (h, competes)) ↦ ground arith
    ]
  ]
