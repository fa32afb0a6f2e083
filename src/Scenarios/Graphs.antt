-- ===== src/Scenarios/Graphs.antt =====
-- Three revisions on one line, of which the last two are new.
use shadowops.Prelude.{
  arith, ℕ, ◌≡◌, refl, String, Bool, true, false, Option, none, some, List, [], ◌∷◌,
}
use shadowops.Revisions.{ChangeKind, unchanged, new_revision, RevisionNode, Snapshot, RevisionGraph}
use shadowops.Revisions.Build.{build_graph}
use shadowops.Revisions.Answers.{build_graph_answers}
use shadowops.Revisions.Linear.{build_graph-IsLinear, IsLinear}

abbrev pub node : String → List String → ChangeKind → RevisionNode
node revision parent_ids change_kind = record {
  revision = revision;
  parent_ids = parent_ids;
  relative_path = revision;
  change_kind = change_kind;
  has_upgrade = true;
  has_downgrade = true;
  content_hash = "0f";
  evidence_id = "e1";
}

abbrev nodes : List RevisionNode
nodes =
    node "a3" ("a2" ∷ []) new_revision
    ∷ node "a1" [] unchanged
    ∷ node "a2" ("a1" ∷ []) new_revision
    ∷ []

abbrev pub snapshot : Snapshot
snapshot = record {
  id = 7;
  run_id = 3;
  diff_mode = "BASE";
  base_commit = some "c0";
  head_commit = "c1";
}

abbrev pub graph : RevisionGraph
graph = record {
  id = 9;
  snapshot = snapshot;
  nodes =
      node "a1" [] unchanged
      ∷ node "a2" ("a1" ∷ []) new_revision
      ∷ node "a3" ("a2" ∷ []) new_revision
      ∷ [];
  heads = "a3" ∷ [];
  baseline_revision = some "a1";
  target_chain = "a1" ∷ "a2" ∷ "a3" ∷ [];
  changed_revisions = "a2" ∷ "a3" ∷ [];
  supported = true;
  unsupported_reasons = [];
  created_at = 100;
}

built : build_graph 10 9 100 snapshot nodes [] ≡ some graph
unfolding build_graph shadowops.Prelude.select shadowops.Prelude.count_where
    shadowops.Prelude.any_where shadowops.Prelude.find_where shadowops.Prelude.sort_by
built = refl

build_graph_answers_example :
    (graph : RevisionGraph) × (build_graph 10 9 100 snapshot nodes [] ≡ some graph)
build_graph_answers_example = build_graph_answers 10 9 100 snapshot nodes [] (omega arith)

build_graph-IsLinear_example : IsLinear nodes graph
build_graph-IsLinear_example = build_graph-IsLinear 10 9 100 snapshot nodes [] graph built refl
