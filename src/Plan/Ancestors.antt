-- ===== src/Plan/Ancestors.antt =====
-- The search for the capabilities of a step's ancestors answers, and names only capabilities of them.
use shadowops.Prelude.{
  ℕ, zero, suc, ◌≤◌, ◌<◌, ◌≡◌, ◌≢◌, refl, ap, subst, ◌⊎◌, inl, inr, String, Bool, true, false, not,
  Option, none, some, List, [], ◌∷◌, Memᴰ, any_where, count_where, count_where_less,
  count_where-length, Bool-cases, Option-cases, arith,
}
use mathlib.Core.List.Memᴰ
use shadowops.Plan.{PlanStep, CapabilityName, capability_eq, capability_eq_iff, all_names, listed}
use shadowops.Plan.Graph.{
  Collect, extend, collect_from, collect, capability_in, dependencies_of, ancestor_capabilities,
  lookup,
}
use shadowops.Plan.Acyclic.{Reaches, once, further}

module _ (d : List PlanStep) where
  -- A capability that is not there yet.
  abbrev wanted : List CapabilityName → CapabilityName → Bool
  wanted result c = not (capability_in d c result)

  fewer :
      (c : CapabilityName) (result : List CapabilityName)
      → capability_in d c result ≡ false
      → count_where (wanted (c ∷ result)) all_names < count_where (wanted result) all_names
  unfolding any_where
  fewer c result new =
      count_where_less (wanted (c ∷ result)) (wanted result) all_names (λ x _ h. ground (arith, h))
        (listed c) (rw ((capability_eq_iff c c).1 refl)) (ap not new)

  collect_from_answers :
      (go : Collect d) (pending : List String) (result : List CapabilityName)
      → ((c : CapabilityName) (p : List String)
          → capability_in d c result ≡ false
          → go p (c ∷ result) ≢ none)
      → collect_from d go pending result ≢ none
  unfolding collect_from
  collect_from_answers go [] result answers h = ground arith
  collect_from_answers go (x ∷ pending) result answers h = elim (Option-cases (lookup d x)) [
    | inl e ↦ collect_from_answers go pending result answers (rw (collect_from, e) at h)
    | inr (s, e) ↦ elim (Bool-cases (capability_in d s.capability result)) [
      | inl t ↦ collect_from_answers go pending result answers (rw (collect_from, e, t) at h)
      | inr t ↦
          answers s.capability (extend d s.depends_on pending) t (rw (collect_from, e, t) at h)
    ]
  ]

  collect_answers :
      (fuel : ℕ) (pending : List String) (result : List CapabilityName)
      → count_where (wanted result) all_names ≤ fuel
      → collect d fuel pending result ≢ none
  unfolding collect
  collect_answers zero pending result enough h =
      collect_from_answers (λ _ _. none) pending result
        (λ c p new _. omega (arith, enough, fewer c result new)) h
  collect_answers (suc fuel) pending result enough h =
      collect_from_answers (collect d fuel) pending result
        (λ c p new. collect_answers fuel p (c ∷ result) (omega (arith, enough, fewer c result new)))
        h

  -- The search for the ancestors always answers.
  pub ancestor_capabilities_answers :
      (k : String) → (names : List CapabilityName) × (ancestor_capabilities d k ≡ some names)
  unfolding ancestor_capabilities all_names
  ancestor_capabilities_answers k =
      let pending = extend d (dependencies_of d (lookup d k)) [] in
      elim (Option-cases (collect d 8 pending [])) [
        | inl e ↦ absurd (collect_answers 8 pending [] (count_where-length _ all_names) e)
        | inr (names, e) ↦ (names, e)
      ]

  -- A step of the capability lies behind `k`.
  pub record Brings (k : String) (c : CapabilityName) : Type 0 where
    pub item : String
    pub way : Reaches d k item
    pub step : PlanStep
    pub found : lookup d item ≡ some step
    pub capability : step.capability ≡ c

  module _ (k : String) where
    abbrev Behind : List String → Type 0
    Behind pending = (i : String) → Memᴰ i pending → Reaches d k i

    abbrev Brought : List CapabilityName → Type 0
    Brought result = (c : CapabilityName) → capability_in d c result ≡ true → Brings k c

    extend-mem :
        (i : String) (items pending : List String)
        → Memᴰ i (extend d items pending)
        → Memᴰ i items ⊎ Memᴰ i pending
    unfolding extend
    extend-mem i [] pending m = inr m
    extend-mem i (x ∷ items) pending m = elim (extend-mem i items (x ∷ pending) m) [
      | inl q ↦ inl (Memᴰ.tail q)
      | inr q ↦ elim (Memᴰ.cases_cons q) [ inl e ↦ inl (Memᴰ.head e) | inr r ↦ inr r ]
    ]

    one_more :
        (i : String) (s : PlanStep) (result : List CapabilityName)
        → Reaches d k i
        → lookup d i ≡ some s
        → Brought result
        → Brought (s.capability ∷ result)
    unfolding any_where
    one_more i s result way found b c h = elim (Bool-cases (capability_eq s.capability c)) [
      | inl e ↦ record {
        item = i;
        way = way;
        step = s;
        found = found;
        capability = (capability_eq_iff _ _).0 e;
      }
      | inr e ↦ b c (rw e at h)
    ]

    abbrev Honest : Collect d → Type 0
    Honest go =
        (pending : List String) (result names : List CapabilityName)
        → Behind pending
        → Brought result
        → go pending result ≡ some names
        → Brought names

    collect_from-Honest : (go : Collect d) → Honest go → Honest (collect_from d go)
    unfolding collect_from
    collect_from-Honest go honest [] result names p b h = subst Brought (ground arith) b
    collect_from-Honest go honest (x ∷ pending) result names p b h =
        let behind : Behind pending = λ i m. p i (Memᴰ.tail m) in
        elim (Option-cases (lookup d x)) [
          | inl e ↦
              collect_from-Honest go honest pending result names behind b
                (rw (collect_from, e) at h)
          | inr (s, e) ↦ elim (Bool-cases (capability_in d s.capability result)) [
            | inl t ↦
                collect_from-Honest go honest pending result names behind b
                  (rw (collect_from, e, t) at h)
            | inr t ↦
                let way = p x (Memᴰ.head refl) in
                honest (extend d s.depends_on pending) (s.capability ∷ result) names
                  (λ i m. elim (extend-mem i s.depends_on pending m) [
                    | inl q ↦ further way (record { step = s; found = e; listed = q })
                    | inr q ↦ behind i q
                  ])
                  (one_more x s result way e b) (rw (collect_from, e, t) at h)
          ]
        ]

    collect-Honest : (fuel : ℕ) → Honest (collect d fuel)
    unfolding collect
    collect-Honest zero = collect_from-Honest (λ _ _. none) (λ p r n x y h. absurd (cc))
    collect-Honest (suc fuel) = collect_from-Honest (collect d fuel) (collect-Honest fuel)

    first_Behind :
        (o : Option PlanStep) → lookup d k ≡ o → Behind (extend d (dependencies_of d o) [])
    unfolding dependencies_of extend
    first_Behind none e i m = elim m [ ]
    first_Behind (some s) e i m = elim (extend-mem i s.depends_on [] m) [
      | inl q ↦ once (record { step = s; found = e; listed = q })
      | inr q ↦ elim q [ ]
    ]

    nothing : (c : CapabilityName) → capability_in d c [] ≢ true
    unfolding any_where
    nothing c h = absurd (ground arith)

    -- Each capability that the search names is that of a step behind `k`.
    pub ancestor_capabilities_honest :
        (names : List CapabilityName) (c : CapabilityName)
        → ancestor_capabilities d k ≡ some names
        → capability_in d c names ≡ true
        → Brings k c
    unfolding ancestor_capabilities
    ancestor_capabilities_honest names c h =
        collect-Honest 8 _ [] names (first_Behind (lookup d k) refl) (λ x e. absurd (nothing x e)) h
          c
