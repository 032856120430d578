-- ===== src/Planner/Selection/Outcome.antt =====
-- What `SelectOperation` returns or throws.
use cuac.Common.{
  ◌≤◌, ◌≡◌, ◌⊎◌, inl, inr, refl, sym, subst, Bool, true, false, none, List, [], ◌∷◌, Bool-cases,
  arith, count, IsIn, reverse_onto, count-reverse_onto, IsIn-reverse_onto,
}
use cuac.Planner.Selection.Select.{
  CompiledOperation, ResolvedRelationInput, CandidateInputBindings, PlanningError,
  multiple_fallbacks, equally_ranked, no_eligible, unresolved, Result, ok, throw, ◌>>=◌, nobody,
  Selection, consider, consider_all, conclude, select_operation,
}
use cuac.Planner.Selection.Choice.{
  is_eligible, is_candidate, outranks, equals, IsChoice, evaluate-cases, consider-IsChoice,
  consider_error,
}

abbrev pub is_fallback : CompiledOperation → Bool
is_fallback o = o.fallback

module _ (resolve : CompiledOperation → Result CandidateInputBindings)
    (inputs : List ResolvedRelationInput) where
  -- Why a scan has no operation.
  abbrev pub Refused : List CompiledOperation → PlanningError → Type 0
  Refused operations multiple_fallbacks = 2 ≤ count is_fallback operations
  Refused operations equally_ranked =
      (w : CompiledOperation) × IsIn w operations
      × (is_candidate resolve inputs w ≡ true)
      × (count (outranks resolve inputs w) operations ≡ 0)
      × (2 ≤ count (equals resolve inputs w) operations)
  Refused operations no_eligible =
      (count (is_candidate resolve inputs) operations ≡ 0)
      × ((count is_fallback operations ≡ 0)
          ⊎ ((f : CompiledOperation) × IsIn f operations
              × (f.fallback ≡ true)
              × (is_eligible resolve inputs f ≡ false)
              × (count is_fallback operations ≡ 1)))
  Refused operations unresolved = ⊥

  -- An operation is chosen that competes and is the only one of the highest rank, or the one
  -- fallback, if none competes; an error is one of the above, or that of an operation's resolution.
  abbrev pub Selects : List CompiledOperation → Result CompiledOperation → Type 0
  Selects operations (ok o) =
      IsIn o operations
      × (is_eligible resolve inputs o ≡ true)
      × (((o.fallback ≡ false)
            × (count (outranks resolve inputs o) operations ≡ 0)
            × (count (equals resolve inputs o) operations ≡ 1))
          ⊎ ((o.fallback ≡ true)
              × (count (is_candidate resolve inputs) operations ≡ 0)
              × (count is_fallback operations ≡ 1)))
  Selects operations (throw e) =
      ((o : CompiledOperation) × IsIn o operations × (resolve o ≡ throw e)) ⊎ Refused operations e

  conclude-Selects :
      (done : List CompiledOperation) (s : Selection)
      → IsChoice resolve inputs done s
      → Selects done (conclude resolve inputs s)
  unfolding conclude
  conclude-Selects done s v = elim v.winner [
    | inr (w, e, i, c, top, tie) ↦ elim (Bool-cases s.winner_is_tied) [
      | inl tied ↦
          let same : conclude resolve inputs s ≡ throw equally_ranked = ground arith in
          rw same (inr (w, i, c, top, ground arith))
      | inr tied ↦
          let same : conclude resolve inputs s ≡ ok w = ground arith in
          rw same (i, ground arith, inl (ground arith, top, ground arith))
    ]
    | inl (e, tied, nothing) ↦ elim v.fallback [
      | inl (n, z) ↦
          let same : conclude resolve inputs s ≡ throw no_eligible = ground arith in
          rw same (inr (nothing, inl n))
      | inr (f, z, i, is_f, n) ↦ elim (evaluate-cases resolve inputs f) [
        | inl (x, r, h) ↦
            let same : conclude resolve inputs s ≡ throw x = ground arith in rw same (inl (f, i, r))
        | inr (inl (h, idle)) ↦
            let same : conclude resolve inputs s ≡ throw no_eligible = ground arith in
            rw same (inr (nothing, inr (f, i, is_f, idle, n)))
        | inr (inr (h, fits)) ↦
            let same : conclude resolve inputs s ≡ ok f = ground arith in
            rw same (i, fits, inr (is_f, nothing, n))
      ]
    ]
  ]

  -- What the loop leaves: a choice among all operations, or an error.
  abbrev Looped : List CompiledOperation → List CompiledOperation → Result Selection → Type 0
  Looped os done (ok t) = IsChoice resolve inputs (reverse_onto os done) t
  Looped os done (throw x) =
      ((o : CompiledOperation) × IsIn o os × (resolve o ≡ throw x))
      ⊎ ((x ≡ multiple_fallbacks) × (2 ≤ count is_fallback (reverse_onto os done)))

  consider-cases :
      (r : Result Selection)
      → ((t : Selection) × (r ≡ ok t)) ⊎ ((x : PlanningError) × (r ≡ throw x))
  consider-cases (ok t) = inl (t, refl)
  consider-cases (throw x) = inr (x, refl)

  Looped-later :
      (o : CompiledOperation) (os done : List CompiledOperation) (r : Result Selection)
      → Looped os (o ∷ done) r
      → Looped (o ∷ os) done r
  Looped-later o os done (ok t) h = h
  Looped-later o os done (throw x) (inl (p, i, e)) = inl (p, inr i, e)
  Looped-later o os done (throw x) (inr h) = inr h

  consider_all-Looped :
      (os done : List CompiledOperation) (s : Selection)
      → IsChoice resolve inputs done s
      → Looped os done (consider_all resolve inputs os s)
  unfolding consider_all
  consider_all-Looped [] done s v = v
  consider_all-Looped (o ∷ os) done s v = elim (consider-cases (consider resolve inputs o s)) [
    | inl (t, e) ↦ rw e (
        Looped-later o os done (consider_all resolve inputs os t)
          (consider_all-Looped os (o ∷ done) t (consider-IsChoice resolve inputs o done s t v e)))
    | inr (x, e) ↦ rw e (elim (consider_error resolve inputs o done s x v e) [
      | inl (m, n) ↦ inr (m, ground (arith, n, count-reverse_onto is_fallback os (o ∷ done)))
      | inr r ↦ inl (o, inl refl, r)
    ])
  ]

  count_reversed :
      (p : CompiledOperation → Bool) (os : List CompiledOperation)
      → count p (reverse_onto os []) ≡ count p os
  count_reversed p os = omega (arith, count-reverse_onto p os [])

  IsIn-reversed :
      (o : CompiledOperation) (os : List CompiledOperation)
      → IsIn o (reverse_onto os [])
      → IsIn o os
  IsIn-reversed o os i = elim (IsIn-reverse_onto o os [] i) [ inl h ↦ h | inr h ↦ elim h [ ] ]

  Refused-reversed :
      (os : List CompiledOperation) (e : PlanningError)
      → Refused (reverse_onto os []) e
      → Refused os e
  Refused-reversed os multiple_fallbacks h = simp count_reversed at h
  Refused-reversed os equally_ranked (w, i, c, top, tie) =
      (w, IsIn-reversed w os i, c, simp count_reversed at top, simp count_reversed at tie)
  Refused-reversed os no_eligible (n, inl h) =
      (simp count_reversed at n, inl (simp count_reversed at h))
  Refused-reversed os no_eligible (n, inr (f, i, a, b, h)) =
      (simp count_reversed at n, inr (f, IsIn-reversed f os i, a, b, simp count_reversed at h))
  Refused-reversed os unresolved h = h

  Selects-reversed :
      (os : List CompiledOperation) (r : Result CompiledOperation)
      → Selects (reverse_onto os []) r
      → Selects os r
  Selects-reversed os (ok o) (i, e, inl (f, top, one)) =
      (IsIn-reversed o os i, e, inl (f, simp count_reversed at top, simp count_reversed at one))
  Selects-reversed os (ok o) (i, e, inr (f, nothing, one)) =
      (IsIn-reversed o os i, e, inr (f, simp count_reversed at nothing, simp count_reversed at one))
  Selects-reversed os (throw x) (inl (o, i, r)) = inl (o, IsIn-reversed o os i, r)
  Selects-reversed os (throw x) (inr h) = inr (Refused-reversed os x h)

  start-IsChoice :
      IsChoice resolve inputs []
        (record { winner = nobody; winner_is_tied = false; fallback = none })
  start-IsChoice = record { winner = inl (refl, refl, refl); fallback = inl (refl, refl) }

  finish :
      (operations : List CompiledOperation) (r : Result Selection)
      → Looped operations [] r
      → Selects operations (r >>= λ s. conclude resolve inputs s)
  finish operations (ok t) v =
      Selects-reversed operations (conclude resolve inputs t)
        (conclude-Selects (reverse_onto operations []) t v)
  finish operations (throw x) (inl h) = inl h
  finish operations (throw x) (inr (m, n)) =
      inr (subst (Refused operations) (sym m) (simp count_reversed at n))

  -- The choice of an operation returns or throws what the rank of the operations asks for: the
  -- operation returned is one of those given, its inputs are satisfied, and it is either no fallback
  -- and the only one of the highest rank among those that compete, or the one fallback, and then
  -- none competes. An error is that of the resolution of some operation's inputs, or says truly that
  -- there are two fallbacks, that two of the highest rank compete, or that neither a competing
  -- operation nor a satisfied fallback is there.
  pub select_operation-Selects :
      (operations : List CompiledOperation)
      → Selects operations (select_operation resolve inputs operations)
  unfolding select_operation
  select_operation-Selects operations =
      finish operations (consider_all resolve inputs operations _)
        (consider_all-Looped operations [] _ start-IsChoice)
