-- ===== src/Plan/Validator.antt =====
-- src/shadowops/agent/validator.py: `PlanValidator.validate`. The errors are the texts of the code.
use shadowops.Prelude.{
  String, Bool, true, false, not, ◌||◌, Option, none, some, List, [], ◌∷◌, ◌++◌, length, str_eq,
  ltb, ◌==◌, if◌then◌else◌, find_where, any_where, sort_by,
}
use Prim.Native.String.{compare}
use Prim.Native.String
use text.Mathlib.Text.{starts_with, is_le}
use shadowops.Plan.{
  PlanStep, AuditPlan, CapabilityName, CapabilitySpec, capability_eq, capability_value,
  capability_catalog, specification_of,
}
use shadowops.Search.{text_in}
use shadowops.Plan.Graph.{by_id, by_capability, has_cycle, ancestor_capabilities}

abbrev pub joined : String → String → String
joined a b = String.◌++◌ a b

-- `if test: errors.append(text)`
unfoldable pub note_if : Bool → String → List String
note_if true text = text ∷ []
note_if false text = []

abbrev evidence_prefixes : List String
evidence_prefixes = "evidence:" ∷ "revision:" ∷ "finding:" ∷ "static-report:" ∷ []

-- `ref.startswith(_EVIDENCE_PREFIXES)`
unfoldable pub is_evidence : String → Bool
is_evidence ref = any_where (λ prefix. starts_with ref prefix) evidence_prefixes

unfoldable pub step_errors : CapabilitySpec → PlanStep → List String
unfolding is_evidence note_if
step_errors specification step =
    note_if (not step.required) (joined "MANDATORY_STEP_NOT_REQUIRED:" step.id)
    ++ note_if (ltb specification.max_timeout_seconds step.timeout_seconds)
        (joined "TIMEOUT_EXCEEDS_CAPABILITY_LIMIT:" step.id)
    ++ note_if (any_where (λ ref. not (is_evidence ref)) step.evidence_refs)
        (joined "EVIDENCE_REF_INVALID:" step.id)

-- One round of the loop over the catalog.
unfoldable pub specification_errors : CapabilitySpec → Option PlanStep → List String
unfolding step_errors capability_value note_if
specification_errors specification none =
    note_if specification.mandatory
      (joined "MANDATORY_CAPABILITY_MISSING:" (capability_value specification.name))
specification_errors specification (some step) = step_errors specification step

abbrev pub step_for : List PlanStep → CapabilityName → Option PlanStep
step_for d name = find_where (λ s. capability_eq s.capability name) d

unfoldable pub catalog_errors : List PlanStep → List CapabilitySpec → List String
unfolding specification_errors
catalog_errors d [] = []
catalog_errors d (specification ∷ rest) =
    specification_errors specification (step_for d specification.name) ++ catalog_errors d rest

-- `item not in by_id`
abbrev pub is_unknown : List PlanStep → String → Bool
is_unknown d item = not (any_where (λ s. str_eq s.id item) d)

unfoldable pub dependency_errors : List PlanStep → List PlanStep → List String
unfolding note_if
dependency_errors d [] = []
dependency_errors d (step ∷ steps) =
    note_if (text_in step.id step.depends_on || any_where (is_unknown d) step.depends_on)
      (joined "DEPENDENCY_INVALID:" step.id)
    ++ dependency_errors d steps

unfoldable pub missing_prerequisites :
    CapabilityName → List CapabilityName → List CapabilityName → List String
unfolding capability_value note_if
missing_prerequisites capability ancestors [] = []
missing_prerequisites capability ancestors (prerequisite ∷ rest) =
    note_if (not (any_where (λ n. capability_eq n prerequisite) ancestors)) (
      joined "CAPABILITY_PREREQUISITE_MISSING:"
        (joined (capability_value capability) (joined ":" (capability_value prerequisite))))
    ++ missing_prerequisites capability ancestors rest

-- The loop over `by_capability`; `none` when a search runs out of fuel.
unfoldable pub prerequisite_errors : List PlanStep → List PlanStep → Option (List String)
unfolding missing_prerequisites ancestor_capabilities specification_of
prerequisite_errors d [] = some []
prerequisite_errors d (step ∷ steps) = elim (ancestor_capabilities d step.id) [
  | none ↦ none
  | some ancestors ↦ elim (prerequisite_errors d steps) [
    | none ↦ none
    | some errors ↦ some (
        missing_prerequisites step.capability ancestors
          (specification_of step.capability).prerequisites
        ++ errors)
  ]
]

-- `tuple(sorted(set(errors)))`
unfoldable pub without_repeats : List String → List String
without_repeats [] = []
without_repeats (text ∷ texts) =
    let rest = without_repeats texts in if text_in text texts then rest else text ∷ rest

unfoldable pub sorted_set : List String → List String
unfolding without_repeats
sorted_set errors = sort_by (λ a b. is_le (compare a b)) (without_repeats errors)

pub data Verdict : Type 0 where
  accepted : AuditPlan → Verdict
  refused : List String → Verdict

-- `if errors: raise`
unfoldable pub verdict : AuditPlan → List String → Verdict
unfolding sorted_set
verdict plan [] = accepted plan
verdict plan (e ∷ errors) = refused (sorted_set (e ∷ errors))

-- The errors that the two searches do not concern.
unfoldable pub local_errors : AuditPlan → List String
unfolding by_id by_capability catalog_errors dependency_errors capability_catalog
local_errors plan =
    note_if (not (length (by_id plan.steps) == length plan.steps)) "DUPLICATE_STEP_ID"
    ++ note_if (not (length (by_capability plan.steps) == length plan.steps)) "DUPLICATE_CAPABILITY"
    ++ catalog_errors (by_capability plan.steps) capability_catalog
    ++ dependency_errors (by_id plan.steps) plan.steps

unfoldable pub validate : AuditPlan → Option Verdict
unfolding verdict local_errors has_cycle prerequisite_errors
validate plan = elim (has_cycle (by_id plan.steps)) [
  | none ↦ none
  | some (cyclic, visited) ↦
      elim (prerequisite_errors (by_id plan.steps) (by_capability plan.steps)) [
        | none ↦ none
        | some missing ↦
            some (verdict plan (local_errors plan ++ note_if cyclic "PLAN_CYCLE" ++ missing))
      ]
]
