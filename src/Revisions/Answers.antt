-- ===== src/Revisions/Answers.antt =====
-- The two searches of `_build_graph` end.
use shadowops.Prelude.{
  ℕ, zero, suc, ◌+◌, ◌<◌, ◌≤◌, ◌==◌, ◌≡◌, ◌≢◌, refl, inl, inr, String, Bool, true, false, Option,
  none, some, List, [], ◌∷◌, ◌++◌, length, select, count_where, count_where-length, Bool-cases,
  Option-cases, arith,
}
use shadowops.Search.{visit_any, text_in, outcome_cases, Answers, any-Answers, fresh, fewer}
use shadowops.Revisions.{
  RevisionNode, Snapshot, RevisionGraph, UnsupportedReason, node_at, is_known, visit, has_cycle,
  walk, only_parent, chain_from, walk_reasons, revisions_of, single_nodes, heads_of, occurrences,
}
use shadowops.Revisions.Build.{build_graph, graph_of, first_reasons}

module _ (d : List RevisionNode) where
  abbrev pub unmet : List String → RevisionNode → Bool
  unmet = fresh (λ (n : RevisionNode). n.revision)

  visit-Answers :
      (fuel : ℕ) (active : List String)
      → count_where (unmet active) d < fuel
      → Answers (visit d fuel active)
  unfolding visit
  visit-Answers zero active enough visited k h = omega (arith, enough)
  visit-Answers (suc fuel) active enough visited k h = elim (Bool-cases (text_in k active)) [
    | inl e ↦ absurd (ground (arith, rw (visit, e) at h))
    | inr e ↦ elim (Bool-cases (text_in k visited)) [
      | inl e' ↦ absurd (ground (arith, rw (visit, e, e') at h))
      | inr e' ↦ elim (Option-cases (node_at d k)) [
        | inl n ↦ absurd (ground (arith, rw (visit, e, e', n) at h))
        | inr (node, n) ↦
            any-Answers (visit d fuel (k ∷ active))
              (visit-Answers fuel (k ∷ active)
                (omega (arith, enough, fewer (λ (x : RevisionNode). x.revision) d k active n e)))
              (k ∷ visited) (select (λ p. is_known d p) node.parent_ids) (rw (visit, e, e', n) at h)
      ]
    ]
  ]

  pub walk_answers :
      (fuel : ℕ) (current : Option String) (seen : List String)
      → count_where (unmet seen) d < fuel
      → walk d fuel current seen ≢ none
  unfolding walk
  walk_answers zero current seen enough h = omega (arith, enough)
  walk_answers (suc fuel) none seen enough h = ground arith
  walk_answers (suc fuel) (some k) seen enough h = elim (Option-cases (node_at d k)) [
    | inl n ↦ absurd (ground (arith, rw (walk, n) at h))
    | inr (node, n) ↦ elim (Bool-cases (text_in k seen)) [
      | inl e ↦ absurd (ground (arith, rw (walk, n, e) at h))
      | inr e ↦
          walk_answers fuel (only_parent d node.parent_ids) (k ∷ seen)
            (omega (arith, enough, fewer (λ (x : RevisionNode). x.revision) d k seen n e))
            (rw (walk, n, e) at h)
    ]
  ]

  pub has_cycle_answers :
      (depth : ℕ)
      → length d < depth
      → (b : Bool) × (v : List String) × (has_cycle d depth ≡ some (b, v))
  unfolding has_cycle
  has_cycle_answers depth room =
      let go = visit d depth [] in
      elim (outcome_cases (visit_any go [] (revisions_of d))) [
        | inl e ↦ absurd (
            any-Answers go
              (visit-Answers depth [] (omega (arith, room, count_where-length (unmet []) d))) []
              (revisions_of d) e)
        | inr (inl (v, e)) ↦ (true, v, e)
        | inr (inr (v, e)) ↦ (false, v, e)
      ]

  pub chain_answers :
      (heads : List String)
      → (chain : List String) × (reasons : List UnsupportedReason) × (chain_from d heads
          ≡ some (chain, reasons))
  unfolding chain_from
  chain_answers [] = ([], [], refl)
  chain_answers (a ∷ b ∷ rest) = ([], [], refl)
  chain_answers (head ∷ []) = elim (Option-cases (walk d (length d + 2) (some head) [])) [
    | inl e ↦ absurd (
        walk_answers (length d + 2) (some head) [] (omega (arith, count_where-length (unmet []) d))
          e)
    | inr ((seen, back), e) ↦ (seen, walk_reasons d seen back, rw (chain_from, e))
  ]

length-select : {A : Type 0} (p : A → Bool) (l : List A) → length (select p l) ≤ length l
unfolding select
length-select p [] = omega arith
length-select p (x ∷ xs) = elim (Bool-cases (p x)) [
  | inl e ↦ rw e (omega (arith, length-select p xs))
  | inr e ↦ rw e (omega (arith, length-select p xs))
]

length-single_nodes : (nodes : List RevisionNode) → length (single_nodes nodes) ≤ length nodes
unfolding single_nodes
length-single_nodes nodes = length-select (λ n. occurrences nodes n.revision == 1) nodes

-- Where the interpreter's stack has room for more nested calls of `visit` than there are revisions,
-- `_build_graph` returns a graph for any revisions and reasons: the cycle search nests no deeper, and
-- the walk from the head ends.
pub build_graph_answers :
    (depth graph_id now : ℕ) (snapshot : Snapshot) (nodes : List RevisionNode)
    (reasons : List UnsupportedReason)
    → length nodes < depth
    → (graph : RevisionGraph) × (build_graph depth graph_id now snapshot nodes reasons ≡ some graph)
unfolding build_graph
build_graph_answers depth graph_id now snapshot nodes reasons room =
    let (cyclic, visited, e) =
      has_cycle_answers (single_nodes nodes) depth
        (omega (arith, room, length-single_nodes nodes)) in
    let (chain, walked, q) = chain_answers (single_nodes nodes) (heads_of nodes) in
    (
      graph_of graph_id now snapshot nodes chain (first_reasons reasons nodes cyclic ++ walked),
      rw (build_graph, e, q),
    )
