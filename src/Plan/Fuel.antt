-- ===== src/Plan/Fuel.antt =====
-- The cycle search of src/shadowops/agent/validator.py does not run out of fuel.
use shadowops.Prelude.{
  ℕ, zero, suc, ◌<◌, ◌≡◌, ◌≢◌, refl, inl, inr, String, Bool, Option, none, some, List, ◌∷◌,
  count_where, Bool-cases, arith,
}
use shadowops.Plan.{PlanStep}
use shadowops.Search.{Visit, visit_any, text_in, outcome_cases, Answers, any-Answers, fresh, fewer}
use shadowops.Plan.Graph.{visit_step, visit, lookup}

module _ (d : List PlanStep) where
  step-Answers :
      (go : Visit) (visited : List String) (k : String) (o : Option PlanStep)
      → ((s : PlanStep) → o ≡ some s → Answers go)
      → visit_step d go visited k o ≢ none
  unfolding visit_step
  step-Answers go visited k none answers h = ground arith
  step-Answers go visited k (some step) answers h =
      elim (outcome_cases (visit_any go visited step.depends_on)) [
        | inl e ↦ any-Answers go (answers step refl) visited step.depends_on e
        | inr (inl (v, e)) ↦ absurd (ground (arith, (rw (visit_step, e) at h)))
        | inr (inr (v, e)) ↦ absurd (ground (arith, (rw (visit_step, e) at h)))
      ]

  abbrev pub unmet : List String → PlanStep → Bool
  unmet = fresh (λ (s : PlanStep). s.id)

  pub visit-Answers :
      (fuel : ℕ) (visiting : List String)
      → count_where (unmet visiting) d < fuel
      → Answers (visit d fuel visiting)
  unfolding visit
  visit-Answers zero visiting enough visited k h = omega (arith, enough)
  visit-Answers (suc fuel) visiting enough visited k h = elim (Bool-cases (text_in k visiting)) [
    | inl e ↦ absurd (ground (arith, rw (visit, e) at h))
    | inr e ↦ elim (Bool-cases (text_in k visited)) [
      | inl e' ↦ absurd (ground (arith, rw (visit, e, e') at h))
      | inr e' ↦
          step-Answers (visit d fuel (k ∷ visiting)) visited k (lookup d k)
            (λ s found.
              visit-Answers fuel (k ∷ visiting)
                (omega (arith, enough, fewer (λ (x : PlanStep). x.id) d k visiting found e)))
            (rw (visit, e, e') at h)
    ]
  ]
