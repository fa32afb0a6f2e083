-- ===== src/Revisions/Linear.antt =====
-- A graph that `_build_graph` calls supported.
use shadowops.Prelude.{
  ℕ, ◌+◌, ◌≤◌, ◌≡◌, refl, sym, ap, subst, ◌∙◌, inl, inr, String, Bool, true, false, not, some, List,
  [], ◌∷◌, ◌++◌, length, Memᴰ, str_eq_iff, count_where, find_where-mem, mem-count_where, Bool-cases,
  arith, Option-cases, List-cases,
}
use mathlib.Core.Bool.{false≢true}
use shadowops.Search.{text_in}
use shadowops.Revisions.{
  RevisionNode, Snapshot, RevisionGraph, UnsupportedReason, single_nodes, heads_of, walk_reasons,
  occurrences, loop_reasons, gap_reasons, walk, chain_from, has_cycle,
}
use shadowops.Revisions.Build.{
  build_graph, graph_of, first_reasons, cycle_reasons, head_reasons, is_none_left,
}
use shadowops.Revisions.Answers.{unmet, chain_answers}
use shadowops.Revisions.Reasons.{none_left, reason_if-none, all_Rooted, once_at, single_nodes_whole}
use shadowops.Revisions.Heads.{heads_some}
use shadowops.Revisions.Chain.{Linked, EndsWith, Ended, walk-Ended}
use shadowops.Revisions.Clean.{Clean, clean}

-- The revisions form one line, from a root to the head.
pub record IsLinear (nodes : List RevisionNode) (graph : RevisionGraph) : Type 0 where
  pub head : String
  pub only_head : graph.heads ≡ head ∷ []
  pub once : (r : String) → occurrences nodes r ≤ 1
  pub as_long : length graph.target_chain ≡ length nodes
  pub covers : (n : RevisionNode) → Memᴰ n nodes → text_in n.revision graph.target_chain ≡ true
  pub linked : Linked nodes graph.target_chain
  pub ends : EndsWith nodes head graph.target_chain
  pub root : RevisionNode
  pub rest : List String
  pub begins : graph.target_chain ≡ root.revision ∷ rest
  pub no_parent : root.parent_ids ≡ []

chain_single :
    (d : List RevisionNode) (head : String) (chain : List String) (walked : List UnsupportedReason)
    → chain_from d (head ∷ []) ≡ some (chain, walked)
    → (back : Bool) × (walk d (length d + 2) (some head) [] ≡ some (chain, back))
      × (walked ≡ loop_reasons d back ++ gap_reasons d chain)
unfolding chain_from walk_reasons
chain_single d head chain walked h = elim (Option-cases (walk d (length d + 2) (some head) [])) [
  | inl e ↦ absurd (ground (arith, rw (chain_from, e) at h))
  | inr ((seen, back), e) ↦
      let same : chain ≡ seen = ground (arith, rw (chain_from, e) at h) in
      (
        back,
        subst (λ c. walk d (length d + 2) (some head) [] ≡ some (c, back)) (sym same) e,
        subst (λ c. walked ≡ loop_reasons d back ++ gap_reasons d c) (sym same)
            (ground (arith, rw (chain_from, e) at h)),
      )
]

parts_none :
    (d : List RevisionNode) (chain : List String) (back : Bool)
    → loop_reasons d back ++ gap_reasons d chain ≡ []
    → (back ≡ false) × (length chain ≡ length d)
unfolding loop_reasons gap_reasons
parts_none d chain back h =
    let (loop, gap) = none_left (loop_reasons d back) (gap_reasons d chain) h in
    (reason_if-none _ _ _ _ loop, ground (arith, reason_if-none _ _ _ _ gap))

-- The walk from the one head of clean revisions.
module _ (nodes : List RevisionNode) (cyclic : Bool) (chain : List String)
    (reasons : List UnsupportedReason) where
  one_head :
      (depth : ℕ) (visited : List String)
      → Clean nodes cyclic chain reasons []
      → has_cycle nodes depth ≡ some (cyclic, visited)
      → (head : String) × (heads_of nodes ≡ head ∷ [])
  unfolding cycle_reasons head_reasons
  one_head depth visited c e =
      let none' : single_nodes nodes ≡ nodes = single_nodes_whole nodes c.duplicates in
      let rooted = λ (n : RevisionNode) (m : Memᴰ n nodes).
        all_Rooted nodes nodes n (rw none' at c.rooted) m in
      let few : length (heads_of nodes) ≤ 1 = ground (arith, reason_if-none _ _ _ _ c.headed) in
      elim (List-cases nodes) [
        | inl empty ↦ absurd (false≢true (sym c.present ∙ ap is_none_left empty))
        | inr (n, rest, q) ↦
            let acyclic : cyclic ≡ false =
              ground (arith, reason_if-none _ _ _ _ c.acyclic, c.present) in
            elim (List-cases (heads_of nodes)) [
              | inl headless ↦ absurd (
                  heads_some nodes rooted depth visited n (once_at nodes c.duplicates)
                    (e ∙ ap (λ b. some (b, visited)) acyclic)
                    (subst (λ l. Memᴰ n l) (sym q) (Memᴰ.head refl)) headless)
              | inr (h, [], s) ↦ (h, s)
              | inr (h, x ∷ l, s) ↦ absurd (ground (arith, few, s))
            ]
      ]

  walked_line :
      (head : String)
      → Clean nodes cyclic chain reasons []
      → chain_from nodes (head ∷ []) ≡ some (chain, [])
      → (length chain ≡ length nodes) × Ended nodes head chain
  walked_line head c h =
      let (back, w, behind) = chain_single nodes head chain [] h in
      let (never, long) = parts_none nodes chain back (sym behind) in
      (
        long,
        walk-Ended nodes head (once_at nodes c.duplicates) (length nodes + 2) chain
            (λ e. elim (List-cases nodes) [
              | inl empty ↦ false≢true (sym c.present ∙ ap is_none_left empty)
              | inr (n, rest, q) ↦ ground (arith, long, e, q)
            ])
            (w ∙ ap (λ b. some (chain, b)) never),
      )

  line :
      (graph : RevisionGraph) (head : String)
      → graph.target_chain ≡ chain
      → graph.heads ≡ head ∷ []
      → Clean nodes cyclic chain reasons []
      → (length chain ≡ length nodes)
      → Ended nodes head chain
      → IsLinear nodes graph
  line graph head is_chain only c long w =
      let b = w.begins in
      let rooted =
        all_Rooted nodes nodes b.node (rw (single_nodes_whole nodes c.duplicates) at c.rooted)
          (find_where-mem _ nodes b.found).0 in
      record {
        head = head;
        only_head = only;
        once = once_at nodes c.duplicates;
        as_long = ap length is_chain ∙ long;
        covers = λ n m.
            subst (λ l. text_in n.revision l ≡ true) (sym is_chain)
              (all_met n m (omega (arith, w.counted, long)));
        linked = subst (Linked nodes) (sym is_chain) w.linked;
        ends = subst (EndsWith nodes head) (sym is_chain) w.ends;
        root = b.node;
        rest = b.rest;
        begins =
            is_chain
            ∙ b.is_first
            ∙ ap (λ r. r ∷ b.rest) (sym ((str_eq_iff _ _).0 (find_where-mem _ nodes b.found).1));
        no_parent = elim (List-cases b.node.parent_ids) [
          | inl none' ↦ none'
          | inr (p, [], e) ↦ absurd (
              false≢true (
                sym (b.stops p e)
                ∙ rooted.known p (subst (λ l. Memᴰ p l) (sym e) (Memᴰ.head refl))))
          | inr (p, q ∷ l, e) ↦ absurd (omega (arith, rooted.single, ap length e))
        ];
      }
    where
      all_met :
          (n : RevisionNode)
          → Memᴰ n nodes
          → count_where (unmet nodes chain) nodes ≡ 0
          → text_in n.revision chain ≡ true
      all_met n m none' = elim (Bool-cases (text_in n.revision chain)) [
        | inl e ↦ e
        | inr e ↦
            absurd (omega (arith, none', mem-count_where (unmet nodes chain) nodes m (ap not e)))
      ]

-- The search behind a graph has answered.
searched :
    (depth graph_id now : ℕ) (snapshot : Snapshot) (nodes : List RevisionNode)
    (reasons : List UnsupportedReason) (graph : RevisionGraph)
    → build_graph depth graph_id now snapshot nodes reasons ≡ some graph
    → (cyclic : Bool) × (visited : List String) × (has_cycle (single_nodes nodes) depth
        ≡ some (cyclic, visited))
unfolding build_graph
searched depth graph_id now snapshot nodes reasons graph h =
    elim (Option-cases (has_cycle (single_nodes nodes) depth)) [
      | inl e ↦ absurd (ground (arith, rw (build_graph, e) at h))
      | inr ((cyclic, visited), e) ↦ (cyclic, visited, e)
    ]

-- A graph that `_build_graph` calls supported is one line of revisions: each occurs once, there is
-- one head, and `target_chain` leads from a revision without parents to it, each revision the only
-- parent of the next, and holds every revision.
pub build_graph-IsLinear :
    (depth graph_id now : ℕ) (snapshot : Snapshot) (nodes : List RevisionNode)
    (reasons : List UnsupportedReason) (graph : RevisionGraph)
    → build_graph depth graph_id now snapshot nodes reasons ≡ some graph
    → graph.supported ≡ true
    → IsLinear nodes graph
unfolding build_graph graph_of
build_graph-IsLinear depth graph_id now snapshot nodes reasons graph h supported =
    let (cyclic, visited, e) = searched depth graph_id now snapshot nodes reasons graph h in
    let (chain, walked, q) = chain_answers (single_nodes nodes) (heads_of nodes) in
    let same : graph_of graph_id now snapshot nodes chain
          (first_reasons reasons nodes cyclic ++ walked)
        ≡ graph =
      ground (arith, rw (build_graph, e, q) at h) in
    let c =
      clean graph_id now snapshot nodes cyclic chain reasons walked
        (ap (λ g. g.supported) same ∙ supported) in
    let c' : Clean nodes cyclic chain reasons [] =
      subst (Clean nodes cyclic chain reasons) c.walked c in
    let whole = single_nodes_whole nodes c.duplicates in
    let (head, only) =
      one_head nodes cyclic chain reasons depth visited c'
        (subst (λ l. has_cycle l depth ≡ some (cyclic, visited)) whole e) in
    let (long, ended) = walked_line nodes cyclic chain reasons head c' (
      subst (λ w. chain_from nodes (head ∷ []) ≡ some (chain, w)) c.walked
        (subst (λ hs. chain_from nodes hs ≡ some (chain, walked)) only
          (subst (λ l. chain_from l (heads_of nodes) ≡ some (chain, walked)) whole q))) in
    line nodes cyclic chain reasons graph head (sym (ap (λ g. g.target_chain) same))
      (sym (ap (λ g. g.heads) same) ∙ only) c' long ended
