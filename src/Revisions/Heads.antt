-- ===== src/Revisions/Heads.antt =====
-- The cycle search of `_build_graph`, and why revisions without a cycle have a head.
use shadowops.Prelude.{
  ℕ, zero, suc, ◌+◌, ◌≤◌, ◌≡◌, ◌≢◌, refl, sym, ap, subst, ◌∙◌, ◌⊎◌, inl, inr, String, Bool, true,
  false, not, some, List, [], ◌∷◌, length, Memᴰ, str_eq, str_eq_iff, find_where-mem, mem-find_where,
  mem-any_where, any_where-mem, any_where, count_where, count_where-select, mem-count_where,
  length_split, select, mem-select, select-mem, sort_by_none, Bool-cases, Option-cases, arith,
  length-append, length-map, List-cases, if◌then◌else◌,
}
use mathlib.Core.List.Memᴰ
use mathlib.Core.Bool.{false≢true}
use shadowops.Search.{Visit, visit_any, text_in, any_false}
use shadowops.Revisions.{
  RevisionNode, node_at, is_known, visit, has_cycle, revisions_of, heads_of, all_parents,
  occurrences,
}
use shadowops.Revisions.Build.{is_none_left}
use shadowops.Revisions.Reasons.{Rooted, revision-mem}

module _ (d : List RevisionNode) where
  -- Every way from a revision to its parents, and on, ends.
  pub data Grounded : String → Type 0 where
    ground_at :
        {k : String}
        → ((n : RevisionNode)
            → node_at d k ≡ some n
            → (p : String) → Memᴰ p n.parent_ids
            → is_known d p ≡ true
            → Grounded p)
        → Grounded k

  -- What was visited is grounded, but for what is still on the path.
  abbrev Settled : List String → List String → Type 0
  Settled active visited =
      (x : String) → text_in x visited ≡ true → Grounded x ⊎ (text_in x active ≡ true)

  abbrev Sound : List String → Visit → Type 0
  Sound active go =
      (visited visited' : List String) (k : String)
      → Settled active visited
      → go visited k ≡ some (false, visited')
      → Grounded k × Settled active visited'

  any-Sound :
      (active : List String) (go : Visit)
      → Sound active go
      → (visited visited' items : List String) → Settled active visited
      → visit_any go visited items ≡ some (false, visited')
      → ((p : String) → Memᴰ p items → Grounded p) × Settled active visited'
  unfolding visit_any
  any-Sound active go sound visited visited' [] s h =
      (λ p m. elim m [ ], subst (Settled active) (ground (arith, h)) s)
  any-Sound active go sound visited visited' (item ∷ items) s h =
      let (v, e, q) = any_false go visited visited' item items h in
      let (g, s') = sound visited v item s e in
      let (gs, s'') = any-Sound active go sound v visited' items s' q in
      (
        λ p m. elim (Memᴰ.cases_cons m) [
          | inl same ↦ subst Grounded (sym same) g
          | inr rest ↦ gs p rest
        ],
        s'',
      )

  text_in_cons :
      (k x : String) (l : List String) → text_in x (k ∷ l) ≡ true → (k ≡ x) ⊎ (text_in x l ≡ true)
  unfolding any_where
  text_in_cons k x l h = elim (Bool-cases (str_eq k x)) [
    | inl e ↦ inl ((str_eq_iff _ _).0 e)
    | inr e ↦ inr (rw e at h)
  ]

  cons_text_in : (k x : String) (l : List String) → text_in x l ≡ true → text_in x (k ∷ l) ≡ true
  unfolding any_where
  cons_text_in k x l h = ground (arith, h)

  here_text_in : (k x : String) (l : List String) → k ≡ x → text_in x (k ∷ l) ≡ true
  unfolding any_where
  here_text_in k x l h = rw ((str_eq_iff k x).1 h)

  -- Entering a node puts it among the visited and on the path.
  entered-Settled :
      (k : String) (active visited : List String)
      → Settled active visited
      → Settled (k ∷ active) (k ∷ visited)
  entered-Settled k active visited s x h = elim (text_in_cons k x visited h) [
    | inl e ↦ inr (here_text_in k x active e)
    | inr m ↦ elim (s x m) [ inl g ↦ inl g | inr a ↦ inr (cons_text_in k x active a) ]
  ]

  left-Settled :
      (k : String) (active visited : List String)
      → Grounded k
      → Settled (k ∷ active) visited
      → Settled active visited
  left-Settled k active visited g s x h = elim (s x h) [
    | inl g' ↦ inl g'
    | inr a ↦ elim (text_in_cons k x active a) [
      | inl e ↦ inl (subst Grounded e g)
      | inr a' ↦ inr a'
    ]
  ]

  visit-Sound : (fuel : ℕ) (active : List String) → Sound active (visit d fuel active)
  unfolding visit
  visit-Sound zero active visited visited' k s h = absurd (cc)
  visit-Sound (suc fuel) active visited visited' k s h = elim (Bool-cases (text_in k active)) [
    | inl e ↦ absurd (ground (arith, rw (visit, e) at h))
    | inr e ↦ elim (Bool-cases (text_in k visited)) [
      | inl e' ↦ (
        elim (s k e') [ inl g ↦ g | inr a ↦ absurd (false≢true (sym e ∙ a)) ],
        subst (Settled active) (ground (arith, rw (visit, e, e') at h)) s,
      )
      | inr e' ↦ elim (Option-cases (node_at d k)) [
        | inl n ↦
            let g : Grounded k = ground_at (λ m f p _ _. absurd (ground (arith, n, f))) in
            (
              g,
              subst (Settled active) (ground (arith, rw (visit, e, e', n) at h))
                  (left-Settled k active (k ∷ visited) g (entered-Settled k active visited s)),
            )
        | inr (node, n) ↦
            let (gs, s') =
              any-Sound (k ∷ active) (visit d fuel (k ∷ active)) (visit-Sound fuel (k ∷ active))
                (k ∷ visited) visited' (select (λ p. is_known d p) node.parent_ids)
                (entered-Settled k active visited s) (rw (visit, e, e', n) at h) in
            let g : Grounded k = ground_at λ m f p l known. gs p (
              mem-select (λ p. is_known d p) node.parent_ids
                (let same : m ≡ node = ground (arith, n, f) in
                  subst (λ (y : RevisionNode). Memᴰ p y.parent_ids) same l)
                known) in
            (g, left-Settled k active visited' g s')
      ]
    ]
  ]

  -- Where the search finds no cycle, every revision is grounded.
  pub all_grounded :
      (depth : ℕ) (visited : List String)
      → has_cycle d depth ≡ some (false, visited)
      → (r : String) → Memᴰ r (revisions_of d)
      → Grounded r
  unfolding has_cycle any_where
  all_grounded depth visited h =
      (any-Sound [] _ (visit-Sound depth []) [] visited (revisions_of d)
        (λ x e. absurd (ground (arith, e))) h).0

-- Texts without repeats that all occur in a list are no more than the list's.
no_more :
    (xs ys : List String)
    → ((r : String) → count_where (λ x. str_eq x r) xs ≤ 1)
    → ((r : String) → Memᴰ r xs → Memᴰ r ys)
    → length xs ≤ length ys
no_more [] ys once within = omega arith
no_more (x ∷ xs) [] once within = elim (within x (Memᴰ.head refl)) [ ]
no_more (x ∷ xs) (y ∷ ys) once within =
    let others : String → Bool = λ z. not (str_eq z y) in
    let rest = select others (x ∷ xs) in
    let parts =
      length_split (λ z. str_eq z y) others (x ∷ xs) (λ z _. (λ e. ap not e, λ e. ap not e)) in
    let fewer =
      no_more rest ys
        (λ r. omega (arith, once r, count_where-select (λ z. str_eq z r) others (x ∷ xs)))
        (λ r m.
          let (old, e) = select-mem others (x ∷ xs) m in
          elim (Memᴰ.cases_cons (within r old)) [
            | inl same ↦ absurd (false≢true (ap not (sym ((str_eq_iff r y).1 same)) ∙ e))
            | inr m' ↦ m'
          ]) in
    omega (arith, once y, parts, fewer)

count_revisions :
    (r : String) (l : List RevisionNode)
    → count_where (λ x. str_eq x r) (revisions_of l) ≡ occurrences l r
unfolding count_where
count_revisions r [] = refl
count_revisions r (n ∷ l) = ground (arith, count_revisions r l)

abbrev is_root : RevisionNode → Bool
is_root n = is_none_left n.parent_ids

few_parents :
    (n : RevisionNode) (l : List String)
    → length l ≤ 1
    → (if is_none_left l then 1 else 0) + length l ≡ 1
few_parents n [] h = refl
few_parents n (x ∷ []) h = refl
few_parents n (x ∷ y ∷ l) h = omega (arith, h)

-- Of revisions with one parent at most, the parents and the roots are as many.
count_parents :
    (d l : List RevisionNode)
    → ((n : RevisionNode) → Memᴰ n l → Rooted d n)
    → count_where is_root l + length (all_parents l) ≡ length l
unfolding count_where all_parents
count_parents d [] rooted = refl
count_parents d (n ∷ l) rooted =
    let rest = count_parents d l (λ x m. rooted x (Memᴰ.tail m)) in
    let here = few_parents n n.parent_ids (rooted n (Memᴰ.head refl)).single in
    ground (arith, rest, here, length-append n.parent_ids (all_parents l))

module _ (d : List RevisionNode) (rooted : (n : RevisionNode) → Memᴰ n d → Rooted d n) where
  -- No revision is grounded where none is a root.
  rootless : count_where is_root d ≡ 0 → (r : String) → is_known d r ≡ true → Grounded d r → ⊥
  rootless rootless' r known (ground_at f) =
      let (m, l, e) = any_where-mem (λ n. str_eq n.revision r) d known in
      let (n, found) = mem-find_where (λ n. str_eq n.revision r) d l e in
      let (here, _) = find_where-mem (λ n. str_eq n.revision r) d found in
      elim (List-cases n.parent_ids) [
        | inl none' ↦
            omega (arith, rootless', mem-count_where is_root d here (ap is_none_left none'))
        | inr (p, rest, parents) ↦
            let listed : Memᴰ p n.parent_ids =
              subst (λ l. Memᴰ p l) (sym parents) (Memᴰ.head refl) in
            let known' = (rooted n here).known p listed in
            rootless rootless' p known' (f n found p listed known')
      ]

  parent-mem : heads_of d ≡ [] → (r : String) → Memᴰ r (revisions_of d) → Memᴰ r (all_parents d)
  unfolding heads_of
  parent-mem headless r m = elim (Bool-cases (text_in r (all_parents d))) [
    | inl e ↦
        let (x, l, same) = any_where-mem (λ t. str_eq t r) (all_parents d) e in
        subst (λ t. Memᴰ t (all_parents d)) ((str_eq_iff _ _).0 same) l
    | inr e ↦
        let none' =
          sort_by_none _ (select (λ r. not (text_in r (all_parents d))) (revisions_of d))
            headless in
        elim (subst (λ l. Memᴰ r l) none'
          (mem-select (λ r. not (text_in r (all_parents d))) (revisions_of d) m (ap not e))) [ ]
  ]

  -- Revisions without a cycle, each with one parent of the graph at most, have a head.
  pub heads_some :
      (depth : ℕ) (visited : List String) (n : RevisionNode)
      → ((r : String) → occurrences d r ≤ 1)
      → has_cycle d depth ≡ some (false, visited)
      → Memᴰ n d
      → heads_of d ≢ []
  heads_some depth visited n once acyclic m headless =
      let as_many =
        no_more (revisions_of d) (all_parents d)
          (λ r. subst (λ c. c ≤ 1) (sym (count_revisions r d)) (once r)) (parent-mem headless) in
      let none' : count_where is_root d ≡ 0 = omega (
        arith,
        as_many,
        count_parents d d rooted,
        length-map (λ (x : RevisionNode). x.revision) d,
      ) in
      rootless none' n.revision (mem-any_where _ d m ((str_eq_iff _ _).1 refl))
        (all_grounded d depth visited acyclic n.revision (revision-mem n d m))
