-- ===== src/Planner/Selection/Examples.antt =====
-- A relation with a lookup by identifier, a search and a fallback, and the theorem at it.
use cuac.Common.{◌≡◌, true, false, List, [], ◌∷◌, refl, same_bytes}
use cuac.Planner.Selection.Select.{
  CompiledOperation, relation_input, conditional_input, ResolvedRelationInput, bound_value, unbound,
  CandidateInputBindings, Result, ok, throw, equally_ranked, has_conditional_binding, find_input,
  required_input_is_satisfied, all_satisfied, evaluate_v1, challenge, evaluate, consider,
  consider_all, conclude, select_operation,
}
use cuac.Planner.Selection.Outcome.{Selects, select_operation-Selects}

abbrev by_id : CompiledOperation
by_id = record {
  name = 1 ∷ [];
  fallback = false;
  selector =
      record { kind = relation_input; id = 7 ∷ [] }
      ∷ record { kind = conditional_input; id = 8 ∷ [] }
      ∷ [];
}

abbrev search_by_owner : CompiledOperation
search_by_owner = record {
  name = 2 ∷ [];
  fallback = false;
  selector = record { kind = relation_input; id = 7 ∷ [] } ∷ [];
}

abbrev list_all : CompiledOperation
list_all = record { name = 3 ∷ []; fallback = true; selector = [] }

abbrev operations : List CompiledOperation
operations = list_all ∷ search_by_owner ∷ by_id ∷ []

abbrev resolve : CompiledOperation → Result CandidateInputBindings
resolve o =
    ok (record { values = record { name = 8 ∷ []; encoded_value = [] } ∷ []; conflicting = false })

abbrev bound : List ResolvedRelationInput
bound = record { name = 7 ∷ []; state = bound_value } ∷ []

abbrev omitted : List ResolvedRelationInput
omitted = record { name = 7 ∷ []; state = unbound } ∷ []

most_specific : select_operation resolve bound operations ≡ ok by_id
unfolding select_operation conclude consider_all consider evaluate challenge evaluate_v1
    all_satisfied required_input_is_satisfied find_input has_conditional_binding same_bytes
most_specific = refl

fallback_chosen : select_operation resolve omitted operations ≡ ok list_all
unfolding select_operation conclude consider_all consider evaluate challenge evaluate_v1
    all_satisfied required_input_is_satisfied find_input has_conditional_binding same_bytes
fallback_chosen = refl

tie_refused :
    select_operation resolve bound (by_id ∷ search_by_owner ∷ by_id ∷ []) ≡ throw equally_ranked
unfolding select_operation conclude consider_all consider evaluate challenge evaluate_v1
    all_satisfied required_input_is_satisfied find_input has_conditional_binding same_bytes
tie_refused = refl

select_operation-Selects_example :
    Selects resolve bound operations (select_operation resolve bound operations)
select_operation-Selects_example = select_operation-Selects resolve bound operations
