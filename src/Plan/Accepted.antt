-- ===== src/Plan/Accepted.antt =====
-- What the validator has checked of a plan that it accepts.
use shadowops.Prelude.{
  All, ◌≤◌, ◌≡◌, ◌≢◌, refl, sym, ap, subst, ◌∙◌, inl, inr, String, Bool, true, false, not, Option,
  none, some, List, [], ◌∷◌, ◌++◌, Memᴰ, str_eq, str_eq_iff, find_where-mem, any_where,
  any_where-mem, mem-any_where, Bool-cases, Option-cases, arith,
}
use mathlib.Core.Bool.{false≢true}
use shadowops.Plan.{
  PlanStep, AuditPlan, CapabilitySpec, CapabilityName, capability_eq_iff, specification_of,
}
use shadowops.Plan.Dictionary.{by_id-mem, by_capability-mem}
use shadowops.Search.{text_in}
use shadowops.Plan.Graph.{by_id, by_capability, capability_in, ancestor_capabilities}
use shadowops.Plan.Ancestors.{Brings, ancestor_capabilities_answers, ancestor_capabilities_honest}
use shadowops.Plan.Validator.{
  prerequisite_errors, catalog_errors, specification_errors, step_errors, dependency_errors,
  missing_prerequisites, note_if, is_unknown, step_for,
}

-- Errors that were put together and are none at all.
pub none_left : (a b : List String) → a ++ b ≡ [] → (a ≡ []) × (b ≡ [])
none_left [] b h = (refl, h)
none_left (x ∷ a) b h = absurd (cc)

pub not_noted : (test : Bool) (text : String) → note_if test text ≡ [] → test ≡ false
unfolding note_if
not_noted true text h = absurd (cc)
not_noted false text h = refl

-- What the plan has for a capability of the catalog.
pub record Covers (steps : List PlanStep) (s : CapabilitySpec) : Type 0 where
  pub step : PlanStep
  pub listed : Memᴰ step steps
  pub capability : step.capability ≡ s.name
  pub required : step.required ≡ true
  pub timeout : step.timeout_seconds ≤ s.max_timeout_seconds

step_fine :
    (s : CapabilitySpec) (step : PlanStep)
    → step_errors s step ≡ []
    → (step.required ≡ true) × (step.timeout_seconds ≤ s.max_timeout_seconds)
unfolding step_errors note_if
step_fine s step h = (ground (arith, h), ground (arith, h))

covers :
    (plan : AuditPlan) (s : CapabilitySpec) (o : Option PlanStep)
    → s.mandatory ≡ true
    → step_for (by_capability plan.steps) s.name ≡ o
    → specification_errors s o ≡ []
    → Covers plan.steps s
unfolding specification_errors note_if
covers plan s none must e h = absurd (ground (arith, must, h))
covers plan s (some step) must e h =
    let (m, q) = find_where-mem _ (by_capability plan.steps) e in
    let (required, timeout) = step_fine s step h in
    record {
      step = step;
      listed = by_capability-mem step plan.steps m;
      capability = (capability_eq_iff _ _).0 q;
      required = required;
      timeout = timeout;
    }

pub all_covered :
    (plan : AuditPlan) (catalog : List CapabilitySpec) (s : CapabilitySpec)
    → All (λ x. x.mandatory ≡ true) catalog
    → catalog_errors (by_capability plan.steps) catalog ≡ []
    → Memᴰ s catalog
    → Covers plan.steps s
unfolding catalog_errors
all_covered plan [] s must h m = elim m [ ]
all_covered plan (x ∷ xs) s must h (Memᴰ.head e) =
    subst (Covers plan.steps) (sym e) (covers plan x _ must.0 refl (none_left _ _ h).0)
all_covered plan (x ∷ xs) s must h (Memᴰ.tail m) =
    all_covered plan xs s must.1 (none_left _ _ h).1 m

-- A dependency of a step is the id of another step of the plan.
pub record Resolved (steps : List PlanStep) (step : PlanStep) (item : String) : Type 0 where
  pub target : PlanStep
  pub listed : Memᴰ target steps
  pub id : target.id ≡ item
  pub another : item ≢ step.id

dependency_fine :
    (d steps : List PlanStep) (x : PlanStep)
    → dependency_errors d (x ∷ steps) ≡ []
    → (text_in x.id x.depends_on ≡ false)
      × (any_where (is_unknown d) x.depends_on ≡ false)
      × (dependency_errors d steps ≡ [])
unfolding dependency_errors note_if
dependency_fine d steps x h = (ground (arith, h), ground (arith, h), ground (arith, h))

head-Resolved :
    (plan : AuditPlan) (x : PlanStep) (item : String)
    → text_in x.id x.depends_on ≡ false
    → any_where (is_unknown (by_id plan.steps)) x.depends_on ≡ false
    → Memᴰ item x.depends_on
    → Resolved plan.steps x item
head-Resolved plan x item alone known m =
    elim (Bool-cases (any_where (λ s. str_eq s.id item) (by_id plan.steps))) [
      | inl e ↦
          let (t, mt, q) = any_where-mem _ (by_id plan.steps) e in
          record {
            target = t;
            listed = by_id-mem t plan.steps mt;
            id = (str_eq_iff _ _).0 q;
            another = λ same. false≢true (
                sym alone
                ∙ mem-any_where (λ t. str_eq t x.id) x.depends_on m ((str_eq_iff _ _).1 same));
          }
      | inr e ↦ absurd (
          false≢true
            (sym known ∙ mem-any_where (is_unknown (by_id plan.steps)) x.depends_on m (ap not e)))
    ]

pub resolved :
    (plan : AuditPlan) (steps : List PlanStep) (step : PlanStep) (item : String)
    → dependency_errors (by_id plan.steps) steps ≡ []
    → Memᴰ step steps
    → Memᴰ item step.depends_on
    → Resolved plan.steps step item
resolved plan [] step item h m i = elim m [ ]
resolved plan (x ∷ xs) step item h (Memᴰ.head e) i =
    let (alone, known, rest) = dependency_fine (by_id plan.steps) xs x h in
    subst (λ s. Resolved plan.steps s item) (sym e)
      (head-Resolved plan x item alone known (subst (λ (s : PlanStep). Memᴰ item s.depends_on) e i))
resolved plan (x ∷ xs) step item h (Memᴰ.tail m) i =
    let (alone, known, rest) = dependency_fine (by_id plan.steps) xs x h in
    resolved plan xs step item rest m i

none_missing :
    (d : List PlanStep) (c : CapabilityName) (names ps : List CapabilityName) (p : CapabilityName)
    → missing_prerequisites c names ps ≡ []
    → Memᴰ p ps
    → capability_in d p names ≡ true
unfolding missing_prerequisites note_if
none_missing d c names [] p h m = elim m [ ]
none_missing d c names (x ∷ ps) p h (Memᴰ.head e) = rw e (ground (arith, h))
none_missing d c names (x ∷ ps) p h (Memᴰ.tail m) =
    none_missing d c names ps p (ground (arith, h)) m

first_prerequisites :
    (d steps : List PlanStep) (x : PlanStep)
    → prerequisite_errors d (x ∷ steps) ≡ some []
    → (names : List CapabilityName) × (ancestor_capabilities d x.id ≡ some names)
      × (missing_prerequisites x.capability names (specification_of x.capability).prerequisites
          ≡ [])
      × (prerequisite_errors d steps ≡ some [])
unfolding prerequisite_errors
first_prerequisites d steps x h =
    let (names, e) = ancestor_capabilities_answers d x.id in
    elim (Option-cases (prerequisite_errors d steps)) [
      | inl n ↦ absurd (ground (arith, rw (prerequisite_errors, e, n) at h))
      | inr (errors, n) ↦
          let both =
            none_left
              (missing_prerequisites x.capability names
                (specification_of x.capability).prerequisites)
              errors (ground (arith, rw (prerequisite_errors, e, n) at h)) in
          (names, e, both.0, n ∙ ap some both.1)
    ]

pub prerequisites :
    (d steps : List PlanStep) (s : PlanStep) (p : CapabilityName)
    → prerequisite_errors d steps ≡ some []
    → Memᴰ s steps
    → Memᴰ p (specification_of s.capability).prerequisites
    → Brings d s.id p
prerequisites d [] s p h m q = elim m [ ]
prerequisites d (x ∷ xs) s p h (Memᴰ.head same) q =
    let (names, e, fine, rest) = first_prerequisites d xs x h in
    let at_x : Brings d x.id p = ancestor_capabilities_honest d x.id names p e (
      none_missing d x.capability names (specification_of x.capability).prerequisites p fine
        (subst (λ (y : PlanStep). Memᴰ p (specification_of y.capability).prerequisites) same q)) in
    subst (λ (y : PlanStep). Brings d y.id p) (sym same) at_x
prerequisites d (x ∷ xs) s p h (Memᴰ.tail m) q =
    let (names, e, fine, rest) = first_prerequisites d xs x h in prerequisites d xs s p rest m q

pub prerequisites_answers :
    (d steps : List PlanStep) → (errors : List String) × (prerequisite_errors d steps ≡ some errors)
unfolding prerequisite_errors
prerequisites_answers d [] = ([], refl)
prerequisites_answers d (x ∷ xs) =
    let (names, e) = ancestor_capabilities_answers d x.id in
    let (errors, n) = prerequisites_answers d xs in
    (
      missing_prerequisites x.capability names (specification_of x.capability).prerequisites
          ++ errors,
      rw (prerequisite_errors, e, n),
    )
