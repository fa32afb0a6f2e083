-- ===== src/Revisions/Build.antt =====
-- src/shadowops/repository/alembic.py: `_build_graph`, from the changed revisions on, and the whole.
use shadowops.Prelude.{
  ℕ, suc, String, Bool, true, false, ◌&&◌, ◌||◌, not, Option, none, some, List, [], ◌∷◌, ◌++◌, map,
  length, str_eq, ltb, ◌==◌, if◌then◌else◌, select, any_where, sort_by,
}
use Prim.Native.String.{compare}
use text.Mathlib.Text.{is_le, is_lt}
use shadowops.Search.{text_in}
use shadowops.Revisions.{
  ChangeKind, unchanged, UnsupportedReason, RevisionNode, Snapshot, RevisionGraph, revisions_of,
  reason_if, duplicate_reasons, duplicates, single_nodes, node_at, node_reasons, heads_of,
  has_cycle, only_parent, chain_from,
}

-- `node.change_kind != "UNCHANGED"`
unfoldable pub is_changed : ChangeKind → Bool
is_changed unchanged = false
is_changed _ = true

unfoldable pub changed_of : List RevisionNode → List String
unfolding is_changed
changed_of nodes = revisions_of (select (λ n. is_changed n.change_kind) nodes)

-- `chain.index(revision)`, of a member of the chain.
unfoldable pub index_in : List String → String → ℕ
index_in [] revision = 0
index_in (x ∷ xs) revision =
    let further = index_in xs revision in if str_eq x revision then 0 else suc further

-- `positions == list(range(start, start + len(positions)))`
unfoldable pub counts_up : ℕ → List ℕ → Bool
counts_up start [] = true
counts_up start (p ∷ positions) = p == start && counts_up (suc start) positions

unfoldable pub is_contiguous : List ℕ → Bool
unfolding counts_up
is_contiguous [] = true
is_contiguous (p ∷ positions) = counts_up p (p ∷ positions)

-- `set(a) != set(b)`
abbrev pub differ : List String → List String → Bool
differ a b = any_where (λ x. not (text_in x b)) a || any_where (λ x. not (text_in x a)) b

abbrev pub is_none_left {ℓ} : {A : Type ℓ} → List A → Bool
is_none_left [] = true
is_none_left (_ ∷ _) = false

unfoldable pub linear_reasons : List String → List String → List String → List UnsupportedReason
unfolding index_in is_contiguous
linear_reasons chain changed ordered =
    reason_if
      (not (is_none_left changed)
        && (differ ordered changed || not (is_contiguous (map (index_in chain) ordered))))
      "CHANGED_REVISIONS_NOT_LINEAR" "Changed revisions do not form one target chain" none

unfoldable pub parent_of : List RevisionNode → Option RevisionNode → Option String
unfolding only_parent
parent_of by_id none = none
parent_of by_id (some node) = only_parent by_id node.parent_ids

unfoldable pub baseline_of : List RevisionNode → List String → Option String
unfolding parent_of
baseline_of by_id [] = none
baseline_of by_id (first ∷ _) = parent_of by_id (node_at by_id first)

unfoldable pub same_path : Option String → Option String → Bool
same_path none none = true
same_path (some a) (some b) = str_eq a b
same_path _ _ = false

abbrev same_reason : UnsupportedReason → UnsupportedReason → Bool
same_reason a b =
    str_eq a.code b.code && str_eq a.detail b.detail && same_path a.relative_path b.relative_path

-- The values of the dictionary of the reasons under their three fields, in the order of the keys'
-- first places; `kept` are those behind, the latest first.
unfoldable pub unique_reasons :
    List UnsupportedReason → List UnsupportedReason → List UnsupportedReason
unfolding same_path
unique_reasons kept [] = []
unique_reasons kept (r ∷ reasons) = elim (any_where (λ k. same_reason k r) kept) [
  | true ↦ unique_reasons kept reasons
  | false ↦ r ∷ unique_reasons (r ∷ kept) reasons
]

-- The order of `(node.relative_path, node.revision)`.
abbrev node_before : RevisionNode → RevisionNode → Bool
node_before a b =
    is_lt (compare a.relative_path b.relative_path)
    || (str_eq a.relative_path b.relative_path && is_le (compare a.revision b.revision))

unfoldable pub cycle_reasons : List RevisionNode → Bool → List UnsupportedReason
cycle_reasons nodes cyclic =
    reason_if (not (is_none_left nodes) && cyclic) "REVISION_CYCLE"
      "Alembic revision graph contains a cycle" none

unfoldable pub head_reasons : List String → List UnsupportedReason
head_reasons heads =
    reason_if (ltb 1 (length heads)) "MULTIPLE_REVISION_HEADS"
      "Multiple Alembic revision heads are unsupported" none

-- The reasons up to the heads, in their order, by what the cycle search said.
unfoldable pub first_reasons :
    List UnsupportedReason → List RevisionNode → Bool → List UnsupportedReason
unfolding duplicate_reasons duplicates single_nodes node_reasons heads_of cycle_reasons head_reasons
first_reasons reasons nodes cyclic =
    reasons
    ++ duplicate_reasons (duplicates nodes)
    ++ node_reasons (single_nodes nodes) nodes
    ++ cycle_reasons nodes cyclic
    ++ head_reasons (heads_of nodes)

unfoldable pub absence_reasons : List RevisionNode → List UnsupportedReason → List UnsupportedReason
absence_reasons nodes reasons =
    reason_if (is_none_left nodes && is_none_left reasons) "NO_REVISIONS_FOUND"
      "No Alembic revisions were found" none

-- All reasons, the repeated ones dropped.
unfoldable pub all_reasons : List RevisionNode → List UnsupportedReason → List UnsupportedReason
unfolding unique_reasons absence_reasons
all_reasons nodes reasons = unique_reasons [] (reasons ++ absence_reasons nodes reasons)

-- What is put together at the end.
unfoldable pub graph_of :
    ℕ → ℕ → Snapshot → List RevisionNode → List String → List UnsupportedReason → RevisionGraph
unfolding changed_of linear_reasons baseline_of single_nodes heads_of all_reasons
graph_of graph_id now snapshot nodes chain reasons =
    let changed = changed_of nodes in
    let ordered = select (λ r. text_in r changed) chain in
    let unique = all_reasons nodes (reasons ++ linear_reasons chain changed ordered) in
    record {
      id = graph_id;
      snapshot = snapshot;
      nodes = sort_by node_before nodes;
      heads = heads_of nodes;
      baseline_revision = baseline_of (single_nodes nodes) ordered;
      target_chain = chain;
      changed_revisions = ordered;
      supported = is_none_left unique && not (is_none_left nodes);
      unsupported_reasons = unique;
      created_at = now;
    }

-- `_build_graph`, where the stack has room for `depth` nested calls of `visit`; `none` is the
-- `RecursionError` of `_has_cycle`, or the end of the fuel of the walk, which is never met.
unfoldable pub build_graph :
    ℕ → ℕ → ℕ → Snapshot → List RevisionNode → List UnsupportedReason → Option RevisionGraph
unfolding first_reasons graph_of has_cycle chain_from
build_graph depth graph_id now snapshot nodes reasons =
    elim (has_cycle (single_nodes nodes) depth) [
      | none ↦ none
      | some (cyclic, visited) ↦ elim (chain_from (single_nodes nodes) (heads_of nodes)) [
        | none ↦ none
        | some (chain, walked) ↦ some (
            graph_of graph_id now snapshot nodes chain
              (first_reasons reasons nodes cyclic ++ walked))
      ]
    ]
