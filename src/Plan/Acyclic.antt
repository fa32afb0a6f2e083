-- ===== src/Plan/Acyclic.antt =====
-- The cycle search of the validator decides whether `depends_on` has a cycle.
use shadowops.Prelude.{
  ℕ, zero, suc, ◌+◌, ◌≡◌, ◌≢◌, refl, sym, ap, subst, ◌⊎◌, inl, inr, String, true, false, Option,
  none, some, List, [], ◌∷◌, map, Memᴰ, length, All, str_eq, str_eq_iff, find_where-mem, any_where,
  count_where-length, Bool-cases, arith,
}
use shadowops.Plan.{PlanStep}
use shadowops.Search.{Visit, visit_any, text_in, outcome_cases, any_false, any_true, any-Answers}
use shadowops.Plan.Fuel.{unmet, visit-Answers}
use shadowops.Plan.Graph.{visit_step, visit, has_cycle, lookup}

module _ (d : List PlanStep) (go : Visit) (visited visited' : List String) (k : String)
    (step : PlanStep) where
  step_false :
      visit_step d go visited k (some step) ≡ some (false, visited')
      → (v : List String) × (visit_any go visited step.depends_on ≡ some (false, v))
        × (visited' ≡ k ∷ v)
  unfolding visit_step
  step_false h = elim (outcome_cases (visit_any go visited step.depends_on)) [
    | inl e ↦ absurd (ground (arith, (rw (visit_step, e) at h)))
    | inr (inl (v, e)) ↦ absurd (ground (arith, (rw (visit_step, e) at h)))
    | inr (inr (v, e)) ↦ (v, e, ground (arith, (rw (visit_step, e) at h)))
  ]

  step_true :
      visit_step d go visited k (some step) ≡ some (true, visited')
      → (v : List String) × (visit_any go visited step.depends_on ≡ some (true, v))
  unfolding visit_step
  step_true h = elim (outcome_cases (visit_any go visited step.depends_on)) [
    | inl e ↦ absurd (ground (arith, (rw (visit_step, e) at h)))
    | inr (inl (v, e)) ↦ (v, e)
    | inr (inr (v, e)) ↦ absurd (ground (arith, (rw (visit_step, e) at h)))
  ]

module _ (d : List PlanStep) where
  -- One step along `depends_on`, and one or more of them.
  pub record Depends (k item : String) : Type 0 where
    pub step : PlanStep
    pub found : lookup d k ≡ some step
    pub listed : Memᴰ item step.depends_on

  pub data Reaches (k : String) : String → Type 0 where
    once : {item : String} → Depends k item → Reaches k item
    further : {mid item : String} → Reaches k mid → Depends mid item → Reaches k item

  -- Every way along `depends_on` from here ends.
  pub data Grounded : String → Type 0 where
    ground_at : {k : String} → ((item : String) → Depends k item → Grounded item) → Grounded k

  text_in-All : (x : String) (l : List String) → All Grounded l → text_in x l ≡ true → Grounded x
  unfolding any_where
  text_in-All x [] a h = absurd (ground arith)
  text_in-All x (y ∷ ys) a h = elim (Bool-cases (str_eq y x)) [
    | inl e ↦ subst Grounded ((str_eq_iff _ _).0 e) a.0
    | inr e ↦ text_in-All x ys a.1 (rw e at h)
  ]

  All-mem : (x : String) (l : List String) → All Grounded l → Memᴰ x l → Grounded x
  All-mem x [] a m = elim m [ ]
  All-mem x (y ∷ ys) a (Memᴰ.head e) = subst Grounded (sym e) a.0
  All-mem x (y ∷ ys) a (Memᴰ.tail m) = All-mem x ys a.1 m

  -- A search that finds no cycle has grounded what it was asked for, and all it went through.
  abbrev Sound : Visit → Type 0
  Sound go =
      (visited visited' : List String) (k : String)
      → All Grounded visited
      → go visited k ≡ some (false, visited')
      → Grounded k × All Grounded visited'

  any-Sound :
      (go : Visit)
      → Sound go
      → (visited visited' items : List String) → All Grounded visited
      → visit_any go visited items ≡ some (false, visited')
      → All Grounded items × All Grounded visited'
  unfolding visit_any
  any-Sound go sound visited visited' [] a h = (tt, subst (All Grounded) (ground arith) a)
  any-Sound go sound visited visited' (item ∷ items) a h =
      let (v, e, q) = any_false go visited visited' item items h in
      let (g, a') = sound visited v item a e in
      let (gs, a'') = any-Sound go sound v visited' items a' q in ((g, gs), a'')

  visit_step_grounds :
      (go : Visit)
      → Sound go
      → (visited visited' : List String) (k : String) (o : Option PlanStep) → lookup d k ≡ o
      → All Grounded visited
      → visit_step d go visited k o ≡ some (false, visited')
      → Grounded k × All Grounded visited'
  unfolding visit_step
  visit_step_grounds go sound visited visited' k none e a h = (
    ground_at (λ item q. absurd (ground (arith, e, q.found))),
    subst (All Grounded) (ground arith) a,
  )
  visit_step_grounds go sound visited visited' k (some step) e a h =
      let (v, q, r) = step_false d go visited visited' k step h in
      let (gs, a') = any-Sound go sound visited v step.depends_on a q in
      let g : Grounded k = ground_at λ item w. All-mem item step.depends_on gs (
        let same : w.step ≡ step = ground (arith, e, w.found) in
        subst (λ (s : PlanStep). Memᴰ item s.depends_on) same w.listed) in
      (g, subst (All Grounded) (sym r) (g, a'))

  visit-Sound : (fuel : ℕ) (visiting : List String) → Sound (visit d fuel visiting)
  unfolding visit
  visit-Sound zero visiting visited visited' k a h = absurd (cc)
  visit-Sound (suc fuel) visiting visited visited' k a h = elim (Bool-cases (text_in k visiting)) [
    | inl e ↦ absurd (ground (arith, rw (visit, e) at h))
    | inr e ↦ elim (Bool-cases (text_in k visited)) [
      | inl e' ↦ (
        text_in-All k visited a e',
        subst (All Grounded) (ground (arith, rw (visit, e, e') at h)) a,
      )
      | inr e' ↦
          visit_step_grounds _ (visit-Sound fuel (k ∷ visiting)) visited visited' k (lookup d k)
            refl a (rw (visit, e, e') at h)
    ]
  ]

  -- A search that finds a cycle has followed one: all of `visiting` leads to where it stands.
  abbrev Leads : List String → String → Type 0
  Leads visiting k = (x : String) → text_in x visiting ≡ true → Reaches x k

  abbrev Finds : Visit → (String → Type 0) → Type 0
  Finds go P =
      (visited visited' : List String) (k : String)
      → P k
      → go visited k ≡ some (true, visited')
      → (x : String) × Reaches x x

  any_finds :
      (go : Visit) (P : String → Type 0)
      → Finds go P
      → (visited visited' items : List String) → ((item : String) → Memᴰ item items → P item)
      → visit_any go visited items ≡ some (true, visited')
      → (x : String) × Reaches x x
  unfolding visit_any
  any_finds go P finds visited visited' [] from h = absurd (ground arith)
  any_finds go P finds visited visited' (item ∷ items) from h =
      elim (any_true go visited visited' item items h) [
        | inl e ↦ finds visited visited' item (from item (Memᴰ.head refl)) e
        | inr (v, e) ↦ any_finds go P finds v visited' items (λ i m. from i (Memᴰ.tail m)) e
      ]

  edge_on :
      (k item x : String) (visiting : List String)
      → Leads visiting k
      → Depends k item
      → text_in x (k ∷ visiting) ≡ true
      → Reaches x item
  unfolding any_where
  edge_on k item x visiting leads q h = elim (Bool-cases (str_eq k x)) [
    | inl e ↦ subst (λ y. Reaches y item) ((str_eq_iff _ _).0 e) (once q)
    | inr e ↦ further (leads x (rw e at h)) q
  ]

  step_finds :
      (fuel : ℕ) (visiting visited visited' : List String) (k : String) (o : Option PlanStep)
      → Finds (visit d fuel (k ∷ visiting)) (Leads (k ∷ visiting))
      → lookup d k ≡ o
      → Leads visiting k
      → visit_step d (visit d fuel (k ∷ visiting)) visited k o ≡ some (true, visited')
      → (x : String) × Reaches x x
  unfolding visit_step
  step_finds fuel visiting visited visited' k none finds e leads h = absurd (ground arith)
  step_finds fuel visiting visited visited' k (some step) finds e leads h =
      let go = visit d fuel (k ∷ visiting) in
      let (v, q) = step_true d go visited visited' k step h in
      any_finds go (Leads (k ∷ visiting)) finds visited v step.depends_on
        (λ item m x t.
          edge_on k item x visiting leads (record { step = step; found = e; listed = m }) t)
        q

  visit_finds : (fuel : ℕ) (visiting : List String) → Finds (visit d fuel visiting) (Leads visiting)
  unfolding visit
  visit_finds zero visiting visited visited' k leads h = absurd (cc)
  visit_finds (suc fuel) visiting visited visited' k leads h =
      elim (Bool-cases (text_in k visiting)) [
        | inl e ↦ (k, leads k e)
        | inr e ↦ elim (Bool-cases (text_in k visited)) [
          | inl e' ↦ absurd (ground (arith, rw (visit, e, e') at h))
          | inr e' ↦
              step_finds fuel visiting visited visited' k (lookup d k)
                (visit_finds fuel (k ∷ visiting)) refl leads (rw (visit, e, e') at h)
        ]
      ]

  keys_mem : (s : PlanStep) (l : List PlanStep) → Memᴰ s l → Memᴰ s.id (map (λ x. x.id) l)
  keys_mem s [] m = elim m [ ]
  keys_mem s (x ∷ xs) (Memᴰ.head e) = Memᴰ.head (ap (λ y. y.id) e)
  keys_mem s (x ∷ xs) (Memᴰ.tail m) = Memᴰ.tail (keys_mem s xs m)

  below : {k : String} → Grounded k → (item : String) → Depends k item → Grounded item
  below (ground_at rest) item w = rest item w

  everywhere :
      (keys : List String)
      → All Grounded keys
      → ((s : PlanStep) → Memᴰ s d → Memᴰ s.id keys)
      → (k : String) → Grounded k
  everywhere keys gs covers k = ground_at λ item w.
      let (m, e) = find_where-mem _ d w.found in
      below (subst Grounded ((str_eq_iff _ _).0 e) (All-mem w.step.id keys gs (covers w.step m)))
        item w

  nowhere : (x : String) → text_in x [] ≢ true
  unfolding any_where
  nowhere x h = absurd (ground arith)

  -- The search always answers. It says that there is a cycle when a step depends on itself through
  -- one or more others, and that there is none when every way along `depends_on`,
  -- from any id, ends.
  pub has_cycle_lem :
      (v : List String) × (((has_cycle d ≡ some (true, v)) × (x : String) × Reaches x x)
        ⊎ ((has_cycle d ≡ some (false, v)) × ((k : String) → Grounded k)))
  unfolding has_cycle
  has_cycle_lem =
      let go = visit d (length d + 1) [] in
      let keys : List String = map (λ s. s.id) d in
      elim (outcome_cases (visit_any go [] keys)) [
        | inl e ↦ absurd (
            any-Answers go
              (visit-Answers d (length d + 1) [] (omega (arith, count_where-length (unmet d []) d)))
              [] keys e)
        | inr (inl (v, e)) ↦
            let (x, r) =
              any_finds go (Leads []) (visit_finds (length d + 1) []) [] v keys
                (λ i m x t. absurd (nowhere x t)) e in
            (v, inl (e, x, r))
        | inr (inr (v, e)) ↦
            let (gs, a) = any-Sound go (visit-Sound (length d + 1) []) [] v keys tt e in
            (v, inr (e, λ k. everywhere keys gs (λ s m. keys_mem s d m) k))
      ]
