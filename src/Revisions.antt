-- ===== src/Revisions.antt =====
-- src/shadowops/repository/alembic.py: the revision graph of a repository, from the revisions that
-- were parsed and the reasons against it that parsing gave. The contracts are those of contracts.py.
pub mod Build
pub mod Answers
pub mod Reasons
pub mod Chain
pub mod Heads
pub mod Clean
pub mod Linear
use shadowops.Prelude.{
  ℕ, zero, suc, ◌+◌, String, Bool, true, false, ◌&&◌, ◌||◌, not, Option, none, some, List, [], ◌∷◌,
  ◌++◌, map, reverse, length, str_eq, ltb, ◌==◌, if◌then◌else◌, find_where, select, count_where,
  any_where, sort_by,
}
use Prim.Native.String.{compare}
use Prim.Native.String
use text.Mathlib.Text.{is_le, is_eq}
use shadowops.Search.{visit_any, text_in}
use shadowops.Plan.Validator.{joined, sorted_set}

pub data ChangeKind : Type 0 where
  unchanged new_revision modified : ChangeKind

pub record UnsupportedReason : Type 0 where
  pub code : String
  pub detail : String
  pub relative_path : Option String

pub record RevisionNode : Type 0 where
  pub revision : String
  pub parent_ids : List String
  pub relative_path : String
  pub change_kind : ChangeKind
  pub has_upgrade : Bool
  pub has_downgrade : Bool
  pub content_hash : String
  pub evidence_id : String

-- The fields of the snapshot that a graph carries on.
pub record Snapshot : Type 0 where
  pub id : ℕ
  pub run_id : ℕ
  pub diff_mode : String
  pub base_commit : Option String
  pub head_commit : String

pub record RevisionGraph : Type 0 where
  pub id : ℕ
  pub snapshot : Snapshot
  pub nodes : List RevisionNode
  pub heads : List String
  pub baseline_revision : Option String
  pub target_chain : List String
  pub changed_revisions : List String
  pub supported : Bool
  pub unsupported_reasons : List UnsupportedReason
  pub created_at : ℕ

abbrev pub sorted : List String → List String
sorted texts = sort_by (λ a b. is_le (compare a b)) texts

abbrev pub revisions_of : List RevisionNode → List String
revisions_of nodes = map (λ n. n.revision) nodes

abbrev occurrences : List RevisionNode → String → ℕ
occurrences nodes revision = count_where (λ n. str_eq n.revision revision) nodes

-- `if test: reasons.append(…)`
abbrev pub reason_if : Bool → String → String → Option String → List UnsupportedReason
reason_if true code detail path = record { code = code; detail = detail; relative_path = path } ∷ []
reason_if false code detail path = []

unfoldable pub duplicate_reasons : List String → List UnsupportedReason
duplicate_reasons [] = []
duplicate_reasons (revision ∷ rest) =
    record {
      code = "DUPLICATE_REVISION_ID";
      detail = joined "Duplicate revision ID: " revision;
      relative_path = none;
    }
    ∷ duplicate_reasons rest

unfoldable pub duplicates : List RevisionNode → List String
unfolding sorted_set
duplicates nodes = sorted_set (select (λ r. ltb 1 (occurrences nodes r)) (revisions_of nodes))

-- The revisions that occur once.
unfoldable pub single_nodes : List RevisionNode → List RevisionNode
single_nodes nodes = select (λ n. occurrences nodes n.revision == 1) nodes

abbrev pub node_at : List RevisionNode → String → Option RevisionNode
node_at by_id revision = find_where (λ n. str_eq n.revision revision) by_id

abbrev pub is_known : List RevisionNode → String → Bool
is_known by_id revision = any_where (λ n. str_eq n.revision revision) by_id

unfoldable pub parent_reasons :
    List RevisionNode → RevisionNode → List String → List UnsupportedReason
parent_reasons by_id node [] = []
parent_reasons by_id node (parent ∷ parents) =
    reason_if (not (is_known by_id parent)) "MISSING_REVISION_PARENT"
      (joined "Revision parent is missing: " parent) (some node.relative_path)
    ++ parent_reasons by_id node parents

unfoldable pub merge_reasons : RevisionNode → List UnsupportedReason
merge_reasons node =
    reason_if (ltb 1 (length node.parent_ids)) "MERGE_REVISION_UNSUPPORTED"
      (joined "Merge revision is unsupported: " node.revision) (some node.relative_path)

unfoldable pub node_reasons : List RevisionNode → List RevisionNode → List UnsupportedReason
unfolding parent_reasons merge_reasons
node_reasons by_id [] = []
node_reasons by_id (node ∷ nodes) =
    merge_reasons node ++ parent_reasons by_id node node.parent_ids ++ node_reasons by_id nodes

unfoldable pub all_parents : List RevisionNode → List String
all_parents [] = []
all_parents (node ∷ nodes) = node.parent_ids ++ all_parents nodes

unfoldable pub heads_of : List RevisionNode → List String
unfolding all_parents
heads_of nodes = sorted (select (λ r. not (text_in r (all_parents nodes))) (revisions_of nodes))

module _ (by_id : List RevisionNode) where
  -- `visit`, with `active` as an argument and the number of nested calls that the interpreter's stack
  -- has room for; `none` is a `RecursionError`.
  unfoldable pub visit : ℕ → List String → List String → String → Option (Bool × List String)
  unfolding visit_any
  visit zero active visited revision = none
  visit (suc depth) active visited revision = elim (text_in revision active) [
    | true ↦ some (true, visited)
    | false ↦ elim (text_in revision visited) [
      | true ↦ some (false, visited)
      | false ↦ elim (node_at by_id revision) [
        | none ↦ some (false, revision ∷ visited)
        | some node ↦
            visit_any (visit depth (revision ∷ active)) (revision ∷ visited)
              (select (λ p. is_known by_id p) node.parent_ids)
      ]
    ]
  ]

  -- `_has_cycle`
  unfoldable pub has_cycle : ℕ → Option (Bool × List String)
  unfolding visit_any visit
  has_cycle depth = visit_any (visit depth []) [] (revisions_of by_id)

  -- `parent_ids[0] if len(parent_ids) == 1 else None`
  unfoldable pub only_parent : List String → Option String
  only_parent (parent ∷ []) = some parent
  only_parent _ = none

  -- The walk from the head down: `reverse_chain`, the last first, and whether it came back.
  unfoldable pub walk : ℕ → Option String → List String → Option (List String × Bool)
  unfolding only_parent
  walk zero current seen = none
  walk (suc fuel) none seen = some (seen, false)
  walk (suc fuel) (some revision) seen = elim (node_at by_id revision) [
    | none ↦ some (seen, false)
    | some node ↦ elim (text_in revision seen) [
      | true ↦ some (seen, true)
      | false ↦ walk fuel (only_parent node.parent_ids) (revision ∷ seen)
    ]
  ]

  -- The reasons that a walk gives.
  unfoldable pub loop_reasons : Bool → List UnsupportedReason
  loop_reasons came_back =
      reason_if came_back "REVISION_CYCLE" "Alembic revision graph contains a cycle" none

  unfoldable pub gap_reasons : List String → List UnsupportedReason
  gap_reasons seen =
      reason_if (not (length seen == length by_id)) "DISCONNECTED_REVISION_GRAPH"
        "Alembic revisions do not form one connected chain" none

  unfoldable pub walk_reasons : List String → Bool → List UnsupportedReason
  unfolding loop_reasons gap_reasons
  walk_reasons seen came_back = loop_reasons came_back ++ gap_reasons seen

  -- The chain, in the order of the migrations, with those reasons.
  unfoldable pub chain_from : List String → Option (List String × List UnsupportedReason)
  unfolding walk walk_reasons
  chain_from (head ∷ []) = elim (walk (length by_id + 2) (some head) []) [
    | none ↦ none
    | some (seen, came_back) ↦ some (seen, walk_reasons seen came_back)
  ]
  chain_from _ = some ([], [])
