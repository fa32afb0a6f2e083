-- ===== src/Revisions/Reasons.antt =====
-- A graph without reasons against it: what each kind of reason stands for does not hold.
use shadowops.Prelude.{
  ◌≤◌, ◌≡◌, refl, sym, ap, subst, inl, inr, String, Bool, true, false, Option, List, [], ◌∷◌, ◌++◌,
  length, Memᴰ, ltb, str_eq, str_eq_iff, any_where, any_where-mem, mem-select, select_all,
  sort_by_none, mem-count_where, ==_iff, count_where_none, Bool-cases, ◌==◌, arith,
}
use shadowops.Search.{text_in}
use shadowops.Plan.Validator.{sorted_set, without_repeats}
use shadowops.Revisions.{
  RevisionNode, UnsupportedReason, reason_if, is_known, merge_reasons, node_reasons, parent_reasons,
  duplicates, duplicate_reasons, single_nodes, occurrences, revisions_of,
}
use shadowops.Revisions.Build.{unique_reasons}

pub none_left : (a b : List UnsupportedReason) → a ++ b ≡ [] → (a ≡ []) × (b ≡ [])
none_left [] b h = (refl, h)
none_left (x ∷ a) b h = absurd (cc)

pub reason_if-none :
    (test : Bool) (code detail : String) (path : Option String)
    → reason_if test code detail path ≡ []
    → test ≡ false
reason_if-none true code detail path h = absurd (cc)
reason_if-none false code detail path h = refl

-- Dropping repeated reasons leaves none only of none.
pub unique_reasons-none :
    (reasons : List UnsupportedReason) → unique_reasons [] reasons ≡ [] → reasons ≡ []
unfolding unique_reasons any_where
unique_reasons-none [] h = refl
unique_reasons-none (r ∷ reasons) h = absurd (ground (arith, h))

-- Every revision has at most one parent, and its parents are revisions of the graph.
pub record Rooted (d : List RevisionNode) (node : RevisionNode) : Type 0 where
  pub single : length node.parent_ids ≤ 1
  pub known : (p : String) → Memᴰ p node.parent_ids → is_known d p ≡ true

parents_known :
    (d : List RevisionNode) (node : RevisionNode) (parents : List String) (p : String)
    → parent_reasons d node parents ≡ []
    → Memᴰ p parents
    → is_known d p ≡ true
unfolding parent_reasons
parents_known d node [] p h m = elim m [ ]
parents_known d node (x ∷ xs) p h (Memᴰ.head e) =
    subst (λ y. is_known d y ≡ true) (sym e) (ground (arith, h))
parents_known d node (x ∷ xs) p h (Memᴰ.tail m) = parents_known d node xs p (ground (arith, h)) m

not_merged : (x : RevisionNode) → merge_reasons x ≡ [] → length x.parent_ids ≤ 1
unfolding merge_reasons
not_merged x h = ground (arith, reason_if-none _ _ _ _ h)

first_Rooted :
    (d : List RevisionNode) (x : RevisionNode) (nodes : List RevisionNode)
    → node_reasons d (x ∷ nodes) ≡ []
    → (length x.parent_ids ≤ 1)
      × (parent_reasons d x x.parent_ids ≡ [])
      × (node_reasons d nodes ≡ [])
unfolding node_reasons
first_Rooted d x nodes h =
    let (g, rest) =
      none_left (merge_reasons x ++ parent_reasons d x x.parent_ids) (node_reasons d nodes) h in
    let (merge, known) = none_left (merge_reasons x) (parent_reasons d x x.parent_ids) g in
    (not_merged x merge, known, rest)

pub all_Rooted :
    (d nodes : List RevisionNode) (node : RevisionNode)
    → node_reasons d nodes ≡ []
    → Memᴰ node nodes
    → Rooted d node
all_Rooted d [] node h m = elim m [ ]
all_Rooted d (x ∷ nodes) node h (Memᴰ.head e) =
    let (single, known, rest) = first_Rooted d x nodes h in
    subst (Rooted d) (sym e)
      (record { single = single; known = λ p m. parents_known d x x.parent_ids p known m })
all_Rooted d (x ∷ nodes) node h (Memᴰ.tail m) =
    let (single, known, rest) = first_Rooted d x nodes h in all_Rooted d nodes node rest m

-- No revision occurs twice: the dictionary of the revisions holds them all.
no_repeats_none : (l : List String) → without_repeats l ≡ [] → l ≡ []
unfolding without_repeats any_where
no_repeats_none [] h = refl
no_repeats_none (x ∷ xs) h = elim (Bool-cases (text_in x xs)) [
  | inl e ↦
      let none' : xs ≡ [] = no_repeats_none xs (rw (without_repeats, e) at h) in
      absurd (ground (arith, none', e))
  | inr e ↦ absurd (ground (arith, rw (without_repeats, e) at h))
]

duplicate_reasons-none : (l : List String) → duplicate_reasons l ≡ [] → l ≡ []
unfolding duplicate_reasons
duplicate_reasons-none [] h = refl
duplicate_reasons-none (x ∷ xs) h = absurd (ground (arith, h))

no_duplicates :
    (nodes : List RevisionNode)
    → duplicates nodes ≡ []
    → (r : String) → Memᴰ r (revisions_of nodes)
    → occurrences nodes r ≤ 1
unfolding duplicates sorted_set
no_duplicates nodes h r m = elim (Bool-cases (ltb 1 (occurrences nodes r))) [
  | inl e ↦
      let many = mem-select (λ r. ltb 1 (occurrences nodes r)) (revisions_of nodes) m e in
      let none' = no_repeats_none _ (sort_by_none _ _ h) in
      elim (subst (λ l. Memᴰ r l) none' many) [ ]
  | inr e ↦ ground arith
]

pub revision-mem :
    (n : RevisionNode) (nodes : List RevisionNode)
    → Memᴰ n nodes
    → Memᴰ n.revision (revisions_of nodes)
revision-mem n [] m = elim m [ ]
revision-mem n (x ∷ xs) (Memᴰ.head e) = Memᴰ.head (ap (λ y. y.revision) e)
revision-mem n (x ∷ xs) (Memᴰ.tail m) = Memᴰ.tail (revision-mem n xs m)

pub once :
    (nodes : List RevisionNode)
    → duplicate_reasons (duplicates nodes) ≡ []
    → (n : RevisionNode) → Memᴰ n nodes
    → occurrences nodes n.revision ≡ 1
once nodes h n m =
    let some' =
      mem-count_where (λ x. str_eq x.revision n.revision) nodes m ((str_eq_iff _ _).1 refl) in
    let few =
      no_duplicates nodes (duplicate_reasons-none _ h) n.revision (revision-mem n nodes m) in
    omega (arith, some', few)

pub once_at :
    (nodes : List RevisionNode)
    → duplicate_reasons (duplicates nodes) ≡ []
    → (r : String) → occurrences nodes r ≤ 1
once_at nodes h r = elim (Bool-cases (any_where (λ n. str_eq n.revision r) nodes)) [
  | inl e ↦
      let (n, m, q) = any_where-mem (λ n. str_eq n.revision r) nodes e in
      let one = once nodes h n m in
      subst (λ k. occurrences nodes k ≤ 1) ((str_eq_iff _ _).0 q) (omega (arith, one))
  | inr e ↦ omega (arith, count_where_none (λ n. str_eq n.revision r) nodes e)
]

pub single_nodes_whole :
    (nodes : List RevisionNode)
    → duplicate_reasons (duplicates nodes) ≡ []
    → single_nodes nodes ≡ nodes
unfolding single_nodes
single_nodes_whole nodes h =
    select_all (λ n. occurrences nodes n.revision == 1) nodes
      (λ n m. (==_iff _ _).1 (once nodes h n m))
