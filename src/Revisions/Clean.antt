-- ===== src/Revisions/Clean.antt =====
-- A graph that `_build_graph` calls supported has no reason against it.
use shadowops.Prelude.{
  ℕ, ◌≡◌, refl, String, Bool, true, false, not, ◌&&◌, List, [], ◌∷◌, ◌++◌, select,
}
use shadowops.Search.{text_in}
use shadowops.Revisions.{
  RevisionNode, Snapshot, UnsupportedReason, node_reasons, duplicates, duplicate_reasons,
  single_nodes, heads_of,
}
use shadowops.Revisions.Build.{
  graph_of, all_reasons, absence_reasons, first_reasons, cycle_reasons, head_reasons,
  linear_reasons, changed_of, is_none_left,
}
use shadowops.Revisions.Reasons.{none_left, unique_reasons-none}

-- What no reason leaves.
pub record Clean (nodes : List RevisionNode) (cyclic : Bool) (chain : List String)
    (reasons behind : List UnsupportedReason) : Type 0 where
  pub given : reasons ≡ []
  pub duplicates : duplicate_reasons (duplicates nodes) ≡ []
  pub rooted : node_reasons (single_nodes nodes) nodes ≡ []
  pub acyclic : cycle_reasons nodes cyclic ≡ []
  pub headed : head_reasons (heads_of nodes) ≡ []
  pub walked : behind ≡ []
  pub linear :
      linear_reasons chain (changed_of nodes) (select (λ r. text_in r (changed_of nodes)) chain)
      ≡ []
  pub present : is_none_left nodes ≡ false

pub clean :
    (graph_id now : ℕ) (snapshot : Snapshot) (nodes : List RevisionNode) (cyclic : Bool)
    (chain : List String) (reasons walked : List UnsupportedReason)
    → (graph_of graph_id now snapshot nodes chain
        (first_reasons reasons nodes cyclic ++ walked)).supported
      ≡ true
    → Clean nodes cyclic chain reasons walked
unfolding graph_of first_reasons all_reasons
clean graph_id now snapshot nodes cyclic chain reasons walked h =
    let linear =
      linear_reasons chain (changed_of nodes) (select (λ r. text_in r (changed_of nodes)) chain) in
    let total = first_reasons reasons nodes cyclic ++ walked ++ linear in
    let (none', present) = both (all_reasons nodes total) nodes h in
    let (g1, _) = none_left total (absence_reasons nodes total) (unique_reasons-none _ none') in
    let (g2, h_linear) = none_left (first_reasons reasons nodes cyclic ++ walked) linear g1 in
    let (g3, h_walked) = none_left (first_reasons reasons nodes cyclic) walked g2 in
    let a = reasons in
    let b = duplicate_reasons (duplicates nodes) in
    let c = node_reasons (single_nodes nodes) nodes in
    let d = cycle_reasons nodes cyclic in
    let (g4, h_heads) = none_left (a ++ b ++ c ++ d) (head_reasons (heads_of nodes)) g3 in
    let (g5, h_cycle) = none_left (a ++ b ++ c) d g4 in
    let (g6, h_nodes) = none_left (a ++ b) c g5 in
    let (h_given, h_duplicates) = none_left a b g6 in
    record {
      given = h_given;
      duplicates = h_duplicates;
      rooted = h_nodes;
      acyclic = h_cycle;
      headed = h_heads;
      walked = h_walked;
      linear = h_linear;
      present = present;
    }
  where
    both :
        (u : List UnsupportedReason) (l : List RevisionNode)
        → (is_none_left u && not (is_none_left l)) ≡ true
        → (u ≡ []) × (is_none_left l ≡ false)
    both [] [] e = absurd (cc)
    both [] (x ∷ l) e = (refl, refl)
    both (x ∷ u) l e = absurd (cc)
