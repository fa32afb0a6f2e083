-- ===== src/Plan/Dictionary.antt =====
-- The dictionaries of src/shadowops/agent/validator.py hold steps of the plan, and all of them when
-- no key is taken twice.
use shadowops.Prelude.{
  ◌≤◌, ◌≡◌, refl, sym, ap, ◌∙◌, ◌⊎◌, inl, inr, Bool, List, [], ◌∷◌, ◌++◌, Memᴰ, Bool-cases, arith,
  length, ◌+◌, length-append,
}
use mathlib.Core.List.Memᴰ
use mathlib.Core.List.{append-nil, append_assoc}
use shadowops.Plan.{PlanStep}
use shadowops.Plan.Graph.{by_id, by_capability, put, put_all, same_id, same_capability}

-- A dictionary holds steps of the plan, and has a key for each.
module _ (same : PlanStep → PlanStep → Bool) where
  put-mem : (s t : PlanStep) (d : List PlanStep) → Memᴰ t (put same s d) → (t ≡ s) ⊎ Memᴰ t d
  unfolding put
  put-mem s t [] (Memᴰ.head e) = inl e
  put-mem s t [] (Memᴰ.tail m) = inr m
  put-mem s t (x ∷ xs) m = elim (Bool-cases (same x s)) [
    | inl e ↦ elim (Memᴰ.cases_cons (rw e at m)) [ inl q ↦ inl q | inr q ↦ inr (Memᴰ.tail q) ]
    | inr e ↦ elim (Memᴰ.cases_cons (rw e at m)) [
      | inl q ↦ inr (Memᴰ.head q)
      | inr q ↦ elim (put-mem s t xs q) [ inl r ↦ inl r | inr r ↦ inr (Memᴰ.tail r) ]
    ]
  ]

  put_all-mem :
      (t : PlanStep) (d steps : List PlanStep)
      → Memᴰ t (put_all same d steps)
      → Memᴰ t d ⊎ Memᴰ t steps
  unfolding put_all
  put_all-mem t d [] m = inl m
  put_all-mem t d (s ∷ steps) m = elim (put_all-mem t (put same s d) steps m) [
    | inl q ↦ elim (put-mem s t d q) [ inl e ↦ inr (Memᴰ.head e) | inr r ↦ inl r ]
    | inr q ↦ inr (Memᴰ.tail q)
  ]

pub by_id-mem : (t : PlanStep) (steps : List PlanStep) → Memᴰ t (by_id steps) → Memᴰ t steps
unfolding by_id
by_id-mem t steps m = elim (put_all-mem same_id t [] steps m) [ inl q ↦ elim q [ ] | inr q ↦ q ]

pub by_capability-mem :
    (t : PlanStep) (steps : List PlanStep) → Memᴰ t (by_capability steps) → Memᴰ t steps
unfolding by_capability
by_capability-mem t steps m = elim (put_all-mem same_capability t [] steps m) [
  | inl q ↦ elim q [ ]
  | inr q ↦ q
]

-- A dictionary that is as long as the list it was made of is that list.
module _ (same : PlanStep → PlanStep → Bool) where
  put-length :
      (s : PlanStep) (d : List PlanStep)
      → (length (put same s d) ≤ length d) ⊎ (put same s d ≡ d ++ (s ∷ []))
  unfolding put
  put-length s [] = inr refl
  put-length s (x ∷ xs) = elim (Bool-cases (same x s)) [
    | inl e ↦ inl (rw e (omega arith))
    | inr e ↦ elim (put-length s xs) [
      | inl le ↦ inl (rw e (omega (arith, le)))
      | inr q ↦ inr (rw (e, q))
    ]
  ]

  put_all-length :
      (d steps : List PlanStep) → length (put_all same d steps) ≤ length d + length steps
  unfolding put_all
  put_all-length d [] = omega arith
  put_all-length d (s ∷ steps) = elim (put-length s d) [
    | inl le ↦ omega (arith, le, put_all-length (put same s d) steps)
    | inr e ↦
        omega (arith, put_all-length (put same s d) steps, ap length e, length-append d (s ∷ []))
  ]

  pub put_all_whole :
      (d steps : List PlanStep)
      → length (put_all same d steps) ≡ length d + length steps
      → put_all same d steps ≡ d ++ steps
  unfolding put_all
  put_all_whole d [] h = sym (append-nil d)
  put_all_whole d (s ∷ steps) h = elim (put-length s d) [
    | inl le ↦ absurd (omega (arith, h, le, put_all-length (put same s d) steps))
    | inr e ↦
        put_all_whole (put same s d) steps (omega (arith, h, ap length e, length-append d (s ∷ [])))
        ∙ ap (λ l. l ++ steps) e
        ∙ append_assoc d (s ∷ []) steps
  ]
