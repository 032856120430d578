-- ===== src/Planner/Selection/Select.antt =====
-- `SelectOperation` of src/semantics/planner/operation_selection.cpp.
use cuac.Common.{
  ℕ, Bool, true, false, not, ◌&&◌, ◌||◌, Option, none, some, List, [], ◌∷◌, length, ltb, ◌==◌,
  if◌then◌else◌, same_bytes,
}

pub data CompiledRequiredInputKind : Type 0 where
  relation_input conditional_input : CompiledRequiredInputKind

pub record CompiledRequiredInputReference : Type 0 where
  pub kind : CompiledRequiredInputKind
  pub id : List ℕ

-- The members of an operation that the choice reads: its name, whether it is the fallback, and the
-- `RequiredInputReferences` of its selector.
pub record CompiledOperation : Type 0 where
  pub name : List ℕ
  pub fallback : Bool
  pub selector : List CompiledRequiredInputReference

pub data ResolvedInputState : Type 0 where
  unbound bound_null bound_value : ResolvedInputState

-- An input's name and state; its type, source and values are not read here.
pub record ResolvedRelationInput : Type 0 where
  pub name : List ℕ
  pub state : ResolvedInputState

pub record CandidateInputBinding : Type 0 where
  pub name : List ℕ
  pub encoded_value : List ℕ

pub record CandidateInputBindings : Type 0 where
  pub values : List CandidateInputBinding
  pub conflicting : Bool

-- The three messages of this file's PlanningError, and any other error, which the resolution of the
-- candidate bindings threw. The error for an unknown kind of input does not arise: the two kinds are
-- all there are.
pub data PlanningError : Type 0 where
  multiple_fallbacks equally_ranked no_eligible unresolved : PlanningError

pub data Result (A : Type 0) : Type 0 where
  ok : A → Result A
  throw : PlanningError → Result A

infixl 5 ◌>>=◌
abbrev pub ◌>>=◌ : {A B : Type 0} → Result A → (A → Result B) → Result B
ok a >>= f = f a
throw e >>= f = throw e

-- `operation` is a pointer that may be null. The priority is 0 wherever it is set.
pub record EligibleOperation : Type 0 where
  pub operation : Option CompiledOperation
  pub specificity : ℕ
  pub priority : ℕ

abbrev pub nobody : EligibleOperation
nobody = record { operation = none; specificity = 0; priority = 0 }

unfoldable pub has_conditional_binding : List CandidateInputBinding → List ℕ → Bool
has_conditional_binding [] id = false
has_conditional_binding (b ∷ bs) id = same_bytes b.name id || has_conditional_binding bs id

-- `ResolvedRelationInputs::Find`, src/semantics/planner/input_resolution.cpp.
unfoldable pub find_input : List ResolvedRelationInput → List ℕ → Option ResolvedRelationInput
find_input [] id = none
find_input (i ∷ is) id =
    let rest = find_input is id in if same_bytes i.name id then some i else rest

abbrev is_bound_value : Option ResolvedRelationInput → Bool
is_bound_value none = false
is_bound_value (some i) = elim i.state [ bound_value ↦ true | _ ↦ false ]

unfoldable pub required_input_is_satisfied :
    CompiledRequiredInputReference → List ResolvedRelationInput → CandidateInputBindings → Bool
required_input_is_satisfied r inputs bindings = elim r.kind [
  | relation_input ↦ is_bound_value (find_input inputs r.id)
  | conditional_input ↦ not bindings.conflicting && has_conditional_binding bindings.values r.id
]

unfoldable pub all_satisfied :
    List CompiledRequiredInputReference → List ResolvedRelationInput → CandidateInputBindings → Bool
all_satisfied [] inputs bindings = true
all_satisfied (r ∷ rs) inputs bindings =
    required_input_is_satisfied r inputs bindings && all_satisfied rs inputs bindings

unfoldable pub evaluate_v1 :
    CompiledOperation → List ResolvedRelationInput → CandidateInputBindings → EligibleOperation
evaluate_v1 operation inputs bindings =
    if bindings.conflicting
    then nobody
    else if not (all_satisfied operation.selector inputs bindings)
    then nobody
    else record {
      operation = some operation;
      specificity = length operation.selector;
      priority = 0;
    }

abbrev pub has_higher_rank : EligibleOperation → EligibleOperation → Bool
has_higher_rank left right =
    ltb right.specificity left.specificity
    || left.specificity == right.specificity && ltb right.priority left.priority

abbrev pub has_equal_rank : EligibleOperation → EligibleOperation → Bool
has_equal_rank left right = left.specificity == right.specificity && left.priority == right.priority

-- The variables of the loop.
pub record Selection : Type 0 where
  pub winner : EligibleOperation
  pub winner_is_tied : Bool
  pub fallback : Option CompiledOperation

-- An eligible candidate against the winner so far.
unfoldable pub challenge : EligibleOperation → Selection → Selection
challenge candidate s = elim candidate.operation [
  | none ↦ s
  | some _ ↦ elim s.winner.operation [
    | none ↦ record s { winner = candidate; winner_is_tied = false }
    | some _ ↦
        if has_higher_rank candidate s.winner
        then record s { winner = candidate; winner_is_tied = false }
        else if has_equal_rank candidate s.winner
        then record s { winner_is_tied = true }
        else s
  ]
]

-- `resolve` stands for `ResolveCandidateInputBindings` at the relation and the request of the call.
module _ (resolve : CompiledOperation → Result CandidateInputBindings)
    (inputs : List ResolvedRelationInput) where
  unfoldable pub evaluate : CompiledOperation → Result EligibleOperation
  evaluate operation = do bindings ← resolve operation; ok (evaluate_v1 operation inputs bindings)

  -- The loop's body.
  unfoldable pub consider : CompiledOperation → Selection → Result Selection
  consider operation s =
      if operation.fallback
      then elim s.fallback [
        | some _ ↦ throw multiple_fallbacks
        | none ↦ ok (record s { fallback = some operation })
      ]
      else (do candidate ← evaluate operation; ok (challenge candidate s))

  unfoldable pub consider_all : List CompiledOperation → Selection → Result Selection
  consider_all [] s = ok s
  consider_all (o ∷ os) s = do s ← consider o s; consider_all os s

  -- After the loop.
  unfoldable pub conclude : Selection → Result CompiledOperation
  conclude s = if s.winner_is_tied then throw equally_ranked else (do
    winner ← elim s.winner.operation [
      | some _ ↦ ok s.winner
      | none ↦ elim s.fallback [ none ↦ ok s.winner | some f ↦ evaluate f ]
    ]
    elim winner.operation [ none ↦ throw no_eligible | some o ↦ ok o ])

  unfoldable pub select_operation : List CompiledOperation → Result CompiledOperation
  select_operation operations = do
    s ←
        consider_all operations
          (record { winner = nobody; winner_is_tied = false; fallback = none })
    conclude s
