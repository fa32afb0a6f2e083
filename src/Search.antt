-- ===== src/Search.antt =====
-- The depth-first searches of the validator and of the revision graph share their shape: `any` over
-- the items of a node, with the set of visited keys handed on, and a set of keys on the path.
use shadowops.Prelude.{
  ◌+◌, ◌<◌, ◌≡◌, ◌≢◌, refl, sym, ap, subst, ◌⊎◌, inl, inr, String, Bool, true, false, not, Option,
  none, some, List, [], ◌∷◌, str_eq, str_eq_iff, find_where, find_where-mem, any_where, count_where,
  count_where_less, count_where_split, mem-count_where, ◌≤◌, ◌∙◌, Bool-cases, arith,
}
use mathlib.Core.Bool.{false≢true}

abbrev pub text_in : String → List String → Bool
text_in text texts = any_where (λ t. str_eq t text) texts

-- What a call of `visit` makes of `visited`; `none` when the fuel is used up.
abbrev pub Visit : Type 0
Visit = List String → String → Option (Bool × List String)

-- `any(visit(item) for item in items)`
unfoldable pub visit_any : Visit → List String → List String → Option (Bool × List String)
visit_any go visited [] = some (false, visited)
visit_any go visited (item ∷ items) = elim (go visited item) [
  | none ↦ none
  | some (true, visited') ↦ some (true, visited')
  | some (false, visited') ↦ visit_any go visited' items
]

pub outcome_cases :
    (o : Option (Bool × List String))
    → (o ≡ none)
      ⊎ (((v : List String) × (o ≡ some (true, v))) ⊎ ((v : List String) × (o ≡ some (false, v))))
outcome_cases none = inl refl
outcome_cases (some (true, v)) = inr (inl (v, refl))
outcome_cases (some (false, v)) = inr (inr (v, refl))

-- How a search over several items goes on behind the first.
module _ (go : Visit) (visited visited' : List String) (item : String) (items : List String) where
  pub any_false :
      visit_any go visited (item ∷ items) ≡ some (false, visited')
      → (v : List String) × (go visited item ≡ some (false, v))
        × (visit_any go v items ≡ some (false, visited'))
  unfolding visit_any
  any_false h = elim (outcome_cases (go visited item)) [
    | inl e ↦ absurd (ground (arith, (rw (visit_any, e) at h)))
    | inr (inl (v, e)) ↦ absurd (ground (arith, (rw (visit_any, e) at h)))
    | inr (inr (v, e)) ↦ (v, e, rw (visit_any, e) at h)
  ]

  pub any_true :
      visit_any go visited (item ∷ items) ≡ some (true, visited')
      → (go visited item ≡ some (true, visited'))
        ⊎ ((v : List String) × (visit_any go v items ≡ some (true, visited')))
  unfolding visit_any
  any_true h = elim (outcome_cases (go visited item)) [
    | inl e ↦ absurd (ground (arith, (rw (visit_any, e) at h)))
    | inr (inl (v, e)) ↦ inl (e ∙ (rw (visit_any, e) at h))
    | inr (inr (v, e)) ↦ inr (v, rw (visit_any, e) at h)
  ]

-- A search that always answers.
abbrev pub Answers : Visit → Type 0
Answers go = (visited : List String) (k : String) → go visited k ≢ none

pub any-Answers :
    (go : Visit) → Answers go → (visited items : List String) → visit_any go visited items ≢ none
unfolding visit_any
any-Answers go answers visited [] h = ground arith
any-Answers go answers visited (item ∷ items) h = elim (outcome_cases (go visited item)) [
  | inl e ↦ answers visited item e
  | inr (inl (v, e)) ↦ absurd (ground (arith, (rw (visit_any, e) at h)))
  | inr (inr (v, e)) ↦ any-Answers go answers v items (rw (visit_any, e) at h)
]

differ : (a b : String) → str_eq b a ≡ false → str_eq a b ≡ false
differ a b h = elim (Bool-cases (str_eq a b)) [
  | inl e ↦ absurd (false≢true (sym h ∙ (str_eq_iff b a).1 (sym ((str_eq_iff a b).0 e))))
  | inr e ↦ e
]

-- A table under text keys, and the rows whose key is not on a path.
module _ {A : Type 0} (key : A → String) where
  abbrev pub fresh : List String → A → Bool
  fresh path x = not (text_in (key x) path)

  -- A step to a key of the table that is not on the path leaves fewer of them.
  pub fewer :
      (d : List A) (k : String) (path : List String) {x : A}
      → find_where (λ y. str_eq (key y) k) d ≡ some x
      → text_in k path ≡ false
      → count_where (fresh (k ∷ path)) d < count_where (fresh path) d
  unfolding any_where
  fewer d k path {x} found new =
      let (m, e) = find_where-mem _ d found in
      let same : key x ≡ k = (str_eq_iff _ _).0 e in
      count_where_less (fresh (k ∷ path)) (fresh path) d (λ y _ h. ground (arith, h)) m
        (subst (λ i. not (text_in i (k ∷ path)) ≡ false) (sym same) (rw ((str_eq_iff k k).1 refl)))
        (subst (λ i. not (text_in i path) ≡ true) (sym same) (ap not new))

  -- Where no two rows share the key, it leaves one fewer.
  pub one_fewer :
      (d : List A) (k : String) (path : List String) {x : A}
      → count_where (λ y. str_eq (key y) k) d ≤ 1
      → find_where (λ y. str_eq (key y) k) d ≡ some x
      → text_in k path ≡ false
      → count_where (fresh path) d ≡ count_where (fresh (k ∷ path)) d + 1
  unfolding any_where
  one_fewer d k path {x} once found new =
      let at_k : A → Bool = λ y. str_eq (key y) k in
      let (m, e) = find_where-mem at_k d found in
      let single : count_where at_k d ≡ 1 = omega (arith, once, mem-count_where at_k d m e) in
      let split = count_where_split (fresh path) (fresh (k ∷ path)) at_k d λ y _. (
        λ q.
            let same : key y ≡ k = (str_eq_iff _ _).0 q in
            (
              subst (λ i. not (text_in i path) ≡ true) (sym same) (ap not new),
              subst (λ i. not (text_in i (k ∷ path)) ≡ false) (sym same)
                  (rw ((str_eq_iff k k).1 refl)),
            ),
        λ q. ground (arith, differ k (key y) q),
      ) in
      omega (arith, split, single)
