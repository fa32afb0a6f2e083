-- ===== src/Stages/Stored.antt =====
-- src/shadowops/application/static_analysis.py and discovery.py: the stages that store one result of a
-- run, and the query of the static report. The services that compute a snapshot and a graph are
-- arguments.
use shadowops.Prelude.{ℕ, Bool, Option, none, some, List, if◌then◌else◌}
use shadowops.Domain.Errors.{
  Result, ok, err, repository_input_error, run_not_found_error, static_report_not_ready_error,
}
use shadowops.Worker.{failure, Outcome, returned, raised}
use shadowops.Store.Results.{get_for_run, create_or_get_graph, create_or_get_report}
use shadowops.Store.Results.Snapshots.{
  RepoSnapshot, snapshot_id, snapshot_run, same_snapshot, create_or_get_snapshot,
}
use shadowops.Rules.Service.{StaticReport}

abbrev pub report_id : StaticReport → ℕ
report_id r = r.id

abbrev pub report_run : StaticReport → ℕ
report_run r = r.run_id

-- The unit of work around `create_or_get`: with an exception nothing is written.
unfoldable pub stored {ℓ} :
    {A : Type ℓ} → List A → Result (A × List A) → Outcome (Unit {0}) × List A
stored rows (ok (_, rows')) = (returned tt, rows')
stored rows (err e) = (raised (failure e), rows)

-- The tables of static reports, and how two reports compare without `id` and `created_at`.
module _ (same_report : StaticReport → StaticReport → Bool) where
  -- `StaticAnalysisStageHandler.execute`. `found` is the ID of the snapshot of the run, `analyzed` what
  -- the audit service makes of it, `checked` how the checkpoint ends, and `others` what the
  -- other processes store between the two units of work.
  unfoldable pub static_stage :
      ℕ
      → Option ℕ
      → (ℕ → Result StaticReport)
      → Outcome (Unit {0})
      → (List StaticReport → List StaticReport)
      → List StaticReport
      → Outcome (Unit {0}) × List StaticReport
  unfolding get_for_run create_or_get_report stored
  static_stage run_id found analyzed checked others rows =
      elim (get_for_run report_id report_run same_report rows run_id) [
        | some report ↦ (returned tt, rows)
        | none ↦ elim found [
          | none ↦ (
            raised (
                failure (
                  repository_input_error "SNAPSHOT_INTEGRITY_FAILED"
                    "Static analysis snapshot was not found")),
            rows,
          )
          | some snapshot_id ↦ elim (analyzed snapshot_id) [
            | err e ↦ (raised (failure e), rows)
            | ok report ↦ elim checked [
              | raised e ↦ (raised e, others rows)
              | returned u ↦
                  stored (others rows)
                    (create_or_get_report report_id report_run same_report (others rows) report)
            ]
          ]
        ]
      ]

  -- `StaticReportQueryService.get`
  unfoldable pub query_report : ℕ → Bool → List StaticReport → Result StaticReport
  unfolding get_for_run
  query_report run_id known rows =
      if known
      then elim (get_for_run report_id report_run same_report rows run_id) [
        | none ↦ err (static_report_not_ready_error run_id)
        | some report ↦ ok report
      ]
      else err (run_not_found_error run_id)

-- `DiscoveryStageHandler.execute`, over the tables of snapshots and of graphs.
module _ {G : Type 0} (graph_id graph_run : G → ℕ) (same_graph : G → G → Bool) where
  -- From the snapshot on.
  unfoldable pub graph_stage :
      ℕ → Result G → Outcome (Unit {0}) → Outcome (Unit {0}) → List G → Outcome (Unit {0}) × List G
  unfolding get_for_run create_or_get_graph stored
  graph_stage run_id discovered first second graphs = elim first [
    | raised e ↦ (raised e, graphs)
    | returned u ↦ elim (get_for_run graph_id graph_run same_graph graphs run_id) [
      | some graph ↦ (returned tt, graphs)
      | none ↦ elim discovered [
        | err e ↦ (raised (failure e), graphs)
        | ok graph ↦ elim second [
          | raised e ↦ (raised e, graphs)
          | returned v ↦
              stored graphs (create_or_get_graph graph_id graph_run same_graph graphs graph)
        ]
      ]
    ]
  ]

  -- `captured` is the snapshot that the snapshot service makes, `discovered` the graph of a snapshot
  -- with that ID, and `first` and `second` how the two checkpoints end.
  unfoldable pub discovery_stage :
      ℕ
      → Outcome RepoSnapshot
      → (ℕ → Result G)
      → Outcome (Unit {0})
      → Outcome (Unit {0})
      → List RepoSnapshot
      → List G
      → Outcome (Unit {0}) × (List RepoSnapshot × List G)
  unfolding get_for_run create_or_get_snapshot graph_stage
  discovery_stage run_id captured discovered first second snapshots graphs =
      elim (get_for_run snapshot_id snapshot_run same_snapshot snapshots run_id) [
        | some snapshot ↦
            let (o, graphs') = graph_stage run_id (discovered snapshot.id) first second graphs in
            (o, (snapshots, graphs'))
        | none ↦ elim captured [
          | raised e ↦ (raised e, (snapshots, graphs))
          | returned candidate ↦ elim (create_or_get_snapshot snapshots candidate) [
            | err e ↦ (raised (failure e), (snapshots, graphs))
            | ok (snapshot, snapshots') ↦
                let (o, graphs') =
                  graph_stage run_id (discovered snapshot.id) first second graphs in
                (o, (snapshots', graphs'))
          ]
        ]
      ]
