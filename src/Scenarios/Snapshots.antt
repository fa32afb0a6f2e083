-- ===== src/Scenarios/Snapshots.antt =====
-- Two snapshots of one run.
use shadowops.Prelude.{ℕ, none, []}
use shadowops.Store.Results.Snapshots.{SnapshotContent, RepoSnapshot}

abbrev files : ℕ → SnapshotContent
files file_count = record {
  run_id = 1;
  source_path_hash = "5a";
  diff_mode = "WORKING_TREE";
  base_commit = none;
  head_commit = "c1";
  dirty_diff_hash = none;
  content_hash = "0f";
  artifact_uri = "snapshots/1";
  file_count = file_count;
  total_bytes = 400;
  changed_paths = [];
}

abbrev first_snapshot : RepoSnapshot
first_snapshot = record { id = 30; content = files 12; created_at = 100 }

abbrev later_snapshot : RepoSnapshot
later_snapshot = record { id = 31; content = files 13; created_at = 110 }
