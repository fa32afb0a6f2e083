-- ===== src/Plan/Sound.antt =====
-- The verdict of the validator.
use shadowops.Prelude.{
  ◌≡◌, refl, sym, ap, subst, ◌∙◌, ◌⊎◌, inl, inr, String, Bool, true, false, not, some, List, [],
  ◌∷◌, ◌++◌, Memᴰ, All, ◌==◌, length, arith,
}
use shadowops.Plan.{
  PlanStep, AuditPlan, CapabilitySpec, CapabilityName, capability_catalog, specification_of,
}
use shadowops.Plan.Graph.{by_id, by_capability, has_cycle}
use shadowops.Plan.Acyclic.{Grounded, has_cycle_lem}
use shadowops.Plan.Ancestors.{Brings}
use shadowops.Plan.Dictionary.{put_all_whole}
use shadowops.Plan.Validator.{
  validate, accepted, refused, verdict, local_errors, prerequisite_errors, catalog_errors,
  dependency_errors, note_if,
}
use shadowops.Plan.Accepted.{
  none_left, not_noted, Covers, all_covered, Resolved, resolved, prerequisites,
  prerequisites_answers,
}
use mathlib.Core.Bool.{true≢false}

-- What makes a plan safe to run.
pub record IsSafe (plan : AuditPlan) : Type 0 where
  -- no two steps have one id, and no two have one capability
  pub ids : by_id plan.steps ≡ plan.steps
  pub capabilities : by_capability plan.steps ≡ plan.steps
  pub covered : (s : CapabilitySpec) → Memᴰ s capability_catalog → Covers plan.steps s
  pub dependencies :
      (step : PlanStep) (item : String)
      → Memᴰ step plan.steps
      → Memᴰ item step.depends_on
      → Resolved plan.steps step item
  pub acyclic : (k : String) → Grounded plan.steps k
  pub ordered :
      (step : PlanStep) (p : CapabilityName)
      → Memᴰ step plan.steps
      → Memᴰ p (specification_of step.capability).prerequisites
      → Brings plan.steps step.id p

all_mandatory : All (λ (s : CapabilitySpec). s.mandatory ≡ true) capability_catalog
unfolding capability_catalog
all_mandatory = (refl, (refl, (refl, (refl, (refl, (refl, (refl, (refl, tt))))))))

dictionaries :
    (plan : AuditPlan)
    → local_errors plan ≡ []
    → (by_id plan.steps ≡ plan.steps)
      × (by_capability plan.steps ≡ plan.steps)
      × (catalog_errors (by_capability plan.steps) capability_catalog ≡ [])
      × (dependency_errors (by_id plan.steps) plan.steps ≡ [])
unfolding local_errors by_id by_capability
dictionaries plan h =
    let a = note_if (not (length (by_id plan.steps) == length plan.steps)) "DUPLICATE_STEP_ID" in
    let b =
      note_if (not (length (by_capability plan.steps) == length plan.steps))
        "DUPLICATE_CAPABILITY" in
    let c = catalog_errors (by_capability plan.steps) capability_catalog in
    let (g1, h4) = none_left (a ++ b ++ c) (dependency_errors (by_id plan.steps) plan.steps) h in
    let (g2, h3) = none_left (a ++ b) c g1 in
    let (h1, h2) = none_left a b g2 in
    (
      put_all_whole _ [] plan.steps (ground (arith, not_noted _ _ h1)),
      put_all_whole _ [] plan.steps (ground (arith, not_noted _ _ h2)),
      h3,
      h4,
    )

safe :
    (plan : AuditPlan)
    → local_errors plan ≡ []
    → ((k : String) → Grounded (by_id plan.steps) k)
    → prerequisite_errors (by_id plan.steps) (by_capability plan.steps) ≡ some []
    → IsSafe plan
safe plan h grounded q =
    let (ids, capabilities, catalog, dependencies) = dictionaries plan h in
    record {
      ids = ids;
      capabilities = capabilities;
      covered = λ s m. all_covered plan capability_catalog s all_mandatory catalog m;
      dependencies = λ step item m i. resolved plan plan.steps step item dependencies m i;
      acyclic = λ k. subst (λ d. Grounded d k) ids (grounded k);
      ordered = λ step p m r.
          subst (λ d. Brings d step.id p) ids
            (prerequisites (by_id plan.steps) (by_capability plan.steps) step p q
              (subst (λ l. Memᴰ step l) (sym capabilities) m) r);
    }

verdict_cases :
    (plan : AuditPlan) (errors : List String)
    → ((l : List String) × (verdict plan errors ≡ refused l))
      ⊎ ((errors ≡ []) × (verdict plan errors ≡ accepted plan))
unfolding verdict
verdict_cases plan [] = inr (refl, refl)
verdict_cases plan (e ∷ errors) = inl (_, refl)

validated :
    (plan : AuditPlan) (cyclic : Bool) (v missing : List String)
    → has_cycle (by_id plan.steps) ≡ some (cyclic, v)
    → prerequisite_errors (by_id plan.steps) (by_capability plan.steps) ≡ some missing
    → validate plan
      ≡ some (verdict plan (local_errors plan ++ note_if cyclic "PLAN_CYCLE" ++ missing))
unfolding validate
validated plan cyclic v missing h q = rw (validate, h, q)

refused_for :
    (plan : AuditPlan) (v missing : List String)
    → has_cycle (by_id plan.steps) ≡ some (true, v)
    → prerequisite_errors (by_id plan.steps) (by_capability plan.steps) ≡ some missing
    → (errors : List String) × (validate plan ≡ some (refused errors))
refused_for plan v missing h q =
    elim (verdict_cases plan (local_errors plan ++ note_if true "PLAN_CYCLE" ++ missing)) [
      | inl (l, r) ↦ (l, validated plan true v missing h q ∙ ap some r)
      | inr (none', r) ↦
          let (g, m) = none_left (local_errors plan ++ note_if true "PLAN_CYCLE") missing none' in
          let (local, c) = none_left (local_errors plan) (note_if true "PLAN_CYCLE") g in
          absurd (true≢false (not_noted true "PLAN_CYCLE" c))
    ]

-- The validator answers for every plan. It accepts only a plan, unchanged, in which every capability
-- of the catalog has exactly one step, required and within its time limit, every dependency is the
-- id of another step, no way along the dependencies is without end, and each prerequisite of a
-- step's capability is the capability of a step that it depends on, directly or not.
pub validate_lem :
    (plan : AuditPlan)
    → ((errors : List String) × (validate plan ≡ some (refused errors)))
      ⊎ ((validate plan ≡ some (accepted plan)) × IsSafe plan)
validate_lem plan =
    let (v, found) = has_cycle_lem (by_id plan.steps) in
    let (missing, q) = prerequisites_answers (by_id plan.steps) (by_capability plan.steps) in
    elim found [
      | inl (e, x, loop) ↦ inl (refused_for plan v missing e q)
      | inr (e, grounded) ↦
          let total = local_errors plan ++ note_if false "PLAN_CYCLE" ++ missing in
          elim (verdict_cases plan total) [
            | inl (l, r) ↦ inl (l, validated plan false v missing e q ∙ ap some r)
            | inr (none', r) ↦
                let (g, m) =
                  none_left (local_errors plan ++ note_if false "PLAN_CYCLE") missing none' in
                let (local, c) = none_left (local_errors plan) (note_if false "PLAN_CYCLE") g in
                inr (
                  validated plan false v missing e q ∙ ap some r,
                  safe plan local grounded (q ∙ ap some m),
                )
          ]
    ]
