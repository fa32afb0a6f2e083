-- ===== src/Plan/Graph.antt =====
-- src/shadowops/agent/validator.py: the dictionaries of a plan's steps and the two searches along
-- `depends_on`.
use shadowops.Prelude.{
  ℕ, zero, suc, ◌+◌, String, Bool, true, false, Option, none, some, List, [], ◌∷◌, map, length,
  str_eq, if◌then◌else◌, find_where, any_where,
}
use shadowops.Search.{Visit, visit_any, text_in}
use shadowops.Plan.{PlanStep, CapabilityName, capability_eq}

module _ (same : PlanStep → PlanStep → Bool) where
  -- `d[key] = step`: a key that is there keeps its place and gets the new value.
  unfoldable pub put : PlanStep → List PlanStep → List PlanStep
  put step [] = step ∷ []
  put step (other ∷ rest) =
      let further = put step rest in if same other step then step ∷ rest else other ∷ further

  unfoldable pub put_all : List PlanStep → List PlanStep → List PlanStep
  unfolding put
  put_all d [] = d
  put_all d (step ∷ steps) = put_all (put step d) steps

abbrev pub same_id : PlanStep → PlanStep → Bool
same_id a b = str_eq a.id b.id

abbrev pub same_capability : PlanStep → PlanStep → Bool
same_capability a b = capability_eq a.capability b.capability

-- `{step.id: step for step in plan.steps}`
unfoldable pub by_id : List PlanStep → List PlanStep
unfolding put_all
by_id steps = put_all same_id [] steps

-- `{step.capability: step for step in plan.steps}`
unfoldable pub by_capability : List PlanStep → List PlanStep
unfolding put_all
by_capability steps = put_all same_capability [] steps

-- `by_id.get(step_id)`
abbrev pub lookup : List PlanStep → String → Option PlanStep
lookup d step_id = find_where (λ s. str_eq s.id step_id) d

module _ (d : List PlanStep) where
  -- Behind the tests on the two sets: `visiting` is an argument, since every call leaves it as it
  -- was, and `visited` is handed on.
  unfoldable pub visit_step :
      Visit → List String → String → Option PlanStep → Option (Bool × List String)
  unfolding visit_any
  visit_step go visited step_id none = some (false, visited)
  visit_step go visited step_id (some step) = elim (visit_any go visited step.depends_on) [
    | none ↦ none
    | some (cyclic, visited') ↦ some (cyclic, step_id ∷ visited')
  ]

  unfoldable pub visit : ℕ → List String → Visit
  unfolding visit_step
  visit zero visiting visited step_id = none
  visit (suc fuel) visiting visited step_id = elim (text_in step_id visiting) [
    | true ↦ some (true, visited)
    | false ↦ elim (text_in step_id visited) [
      | true ↦ some (false, visited)
      | false ↦ visit_step (visit fuel (step_id ∷ visiting)) visited step_id (lookup d step_id)
    ]
  ]

  -- `_has_cycle`. No path is longer than the dictionary.
  unfoldable pub has_cycle : Option (Bool × List String)
  unfolding visit_any visit
  has_cycle = visit_any (visit (length d + 1) []) [] (map (λ s. s.id) d)

  abbrev pub Collect : Type 0
  Collect = List String → List CapabilityName → Option (List CapabilityName)

  abbrev pub capability_in : CapabilityName → List CapabilityName → Bool
  capability_in c names = any_where (λ n. capability_eq n c) names

  -- `pending.extend(items)`, for a stack whose top is first.
  unfoldable pub extend : List String → List String → List String
  extend [] pending = pending
  extend (item ∷ items) pending = extend items (item ∷ pending)

  -- The loop over `pending`, a stack whose top is first, up to the next capability that is new.
  unfoldable pub collect_from : Collect → Collect
  unfolding extend
  collect_from go [] result = some result
  collect_from go (dependency ∷ pending) result = elim (lookup d dependency) [
    | none ↦ collect_from go pending result
    | some step ↦ elim (capability_in step.capability result) [
      | true ↦ collect_from go pending result
      | false ↦ go (extend step.depends_on pending) (step.capability ∷ result)
    ]
  ]

  -- The fuel bounds the steps that are new.
  unfoldable pub collect : ℕ → Collect
  unfolding collect_from
  collect zero = collect_from (λ _ _. none)
  collect (suc fuel) = collect_from (collect fuel)

  -- `by_id[step_id].depends_on`; the code asks for steps of the dictionary only.
  unfoldable pub dependencies_of : Option PlanStep → List String
  dependencies_of none = []
  dependencies_of (some step) = step.depends_on

  -- `_ancestor_capabilities`. There are eight capabilities.
  unfoldable pub ancestor_capabilities : String → Option (List CapabilityName)
  unfolding collect dependencies_of
  ancestor_capabilities step_id = collect 8 (extend (dependencies_of (lookup d step_id)) []) []
