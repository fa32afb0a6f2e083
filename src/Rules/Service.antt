-- ===== src/Rules/Service.antt =====
-- src/shadowops/rules/service.py: `StaticAuditService`. The lookups of the snapshot and of the
-- graph, the reader of the files, the clock and the new UUID are arguments.
use shadowops.Prelude.{
  ℕ, String, Bool, ◌&&◌, ◌||◌, Option, none, some, List, [], ◌∷◌, ◌++◌, str_eq, ◌==◌, ltb,
  if◌then◌else◌, sort_by,
}
use Prim.Native.String.{compare}
use text.Mathlib.Text.{is_le, is_lt}
use shadowops.Domain.Errors.{Result, ok, err, repository_input_error}
use shadowops.Plan.Validator.{joined}
use shadowops.Search.{text_in}
use shadowops.Revisions.{UnsupportedReason, RevisionNode, Snapshot, RevisionGraph}
use shadowops.Rules.{Severity, info, high, StaticFinding, severity_order}
use shadowops.Rules.Syntax.{Nodes}
use shadowops.Rules.Engine.{evaluate}

-- A stored snapshot, with the hash of what it holds.
pub record StoredSnapshot : Type 0 where
  pub snapshot : Snapshot
  pub content_hash : String

pub record RevisionGraphSummary : Type 0 where
  pub supported : Bool
  pub heads : List String
  pub baseline_revision : Option String
  pub target_chain : List String
  pub changed_revisions : List String

pub record StaticReport : Type 0 where
  pub id : ℕ
  pub run_id : ℕ
  pub snapshot_id : ℕ
  pub snapshot_hash : String
  pub diff_mode : String
  pub base_commit : Option String
  pub head_commit : String
  pub revision_graph : RevisionGraphSummary
  pub findings : List StaticFinding
  pub unsupported_reasons : List UnsupportedReason
  pub risk_level : Severity
  pub created_at : ℕ

-- `relative_path or ""`
unfoldable pub shown_path : Option String → String
shown_path none = ""
shown_path (some path) = path

-- The order of two numbers, and what decides where they are equal.
abbrev pub then_by : ℕ → ℕ → Bool → Bool
then_by a b later = ltb a b || (a == b && later)

-- The sort key: the gravest first, then the path, the line, the column and the rule.
unfoldable pub listed_before : StaticFinding → StaticFinding → Bool
unfolding severity_order shown_path
listed_before a b = then_by (severity_order b.severity) (severity_order a.severity) (
    is_lt (compare (shown_path a.relative_path) (shown_path b.relative_path))
    || (str_eq (shown_path a.relative_path) (shown_path b.relative_path)
        && then_by a.line b.line (then_by a.column b.column (is_le (compare a.rule_id b.rule_id)))))

-- `max(…, key=…)`: the first of the gravest.
unfoldable pub worst : Severity → List StaticFinding → Severity
unfolding severity_order
worst severity [] = severity
worst severity (f ∷ fs) =
    worst
      (if ltb (severity_order severity) (severity_order f.severity) then f.severity else severity)
      fs

unfoldable pub risk_of : List StaticFinding → Severity
unfolding worst
risk_of [] = info
risk_of (f ∷ fs) = worst f.severity fs

module _ (parse : String → Option Nodes) (drop_sql : String → Option String)
    (evidence_of : String → String → ℕ → ℕ → String → String) where
  unfoldable pub structural_finding : String → UnsupportedReason → StaticFinding
  unfolding shown_path
  structural_finding snapshot_hash reason = record {
    rule_id = "STRUCTURE";
    rule_version = "1.0";
    severity = high;
    confidence = 100;
    relative_path = reason.relative_path;
    line = 1;
    column = 0;
    message = joined "Repository structure is unsupported: " reason.detail;
    remediation = "Resolve the revision graph ambiguity before relying on dynamic audit.";
    evidence_ids =
        evidence_of snapshot_hash (shown_path reason.relative_path) 1 0
          (joined "STRUCTURE:" reason.code)
        ∷ [];
    unknowns = "No migration execution plan can be trusted for this structure." ∷ [];
  }

  -- `_structural_findings`
  unfoldable pub structural_findings : String → List UnsupportedReason → List StaticFinding
  unfolding structural_finding
  structural_findings snapshot_hash [] = []
  structural_findings snapshot_hash (reason ∷ reasons) =
      structural_finding snapshot_hash reason ∷ structural_findings snapshot_hash reasons

  -- The findings in the sources of the changed revisions, one file after the other.
  unfoldable pub source_findings :
      (String → Result String)
      → String
      → List String
      → List RevisionNode
      → Result (List StaticFinding)
  unfolding evaluate
  source_findings read_text snapshot_hash changed [] = ok []
  source_findings read_text snapshot_hash changed (node ∷ nodes) =
      let further = source_findings read_text snapshot_hash changed nodes in
      if text_in node.revision changed
      then elim (read_text node.relative_path) [
        | err e ↦ err e
        | ok source ↦ elim further [
          | err e ↦ err e
          | ok rest ↦ ok (evaluate drop_sql evidence_of snapshot_hash node (parse source) ++ rest)
        ]
      ]
      else further

  unfoldable pub report_of :
      ℕ → ℕ → ℕ → ℕ → StoredSnapshot → RevisionGraph → List StaticFinding → StaticReport
  unfolding listed_before risk_of
  report_of report_id now run_id snapshot_id stored graph findings =
      let sorted = sort_by listed_before findings in
      record {
        id = report_id;
        run_id = run_id;
        snapshot_id = snapshot_id;
        snapshot_hash = stored.content_hash;
        diff_mode = stored.snapshot.diff_mode;
        base_commit = stored.snapshot.base_commit;
        head_commit = stored.snapshot.head_commit;
        revision_graph = record {
          supported = graph.supported;
          heads = graph.heads;
          baseline_revision = graph.baseline_revision;
          target_chain = graph.target_chain;
          changed_revisions = graph.changed_revisions;
        };
        findings = sorted;
        unsupported_reasons = graph.unsupported_reasons;
        risk_level = risk_of sorted;
        created_at = now;
      }

  -- What is done with inputs that belong together.
  unfoldable pub analyze_inputs :
      ℕ
      → ℕ
      → ℕ
      → ℕ
      → (String → Result String)
      → StoredSnapshot
      → RevisionGraph
      → Result StaticReport
  unfolding source_findings structural_findings report_of
  analyze_inputs report_id now run_id snapshot_id read_text stored graph =
      elim (source_findings read_text stored.content_hash graph.changed_revisions graph.nodes) [
        | err e ↦ err e
        | ok findings ↦ ok (
            report_of report_id now run_id snapshot_id stored graph
              (findings ++ structural_findings stored.content_hash graph.unsupported_reasons))
      ]

  -- `snapshot.run_id != run_id or graph.snapshot_id != snapshot_id`, the other way round.
  unfoldable pub belong : ℕ → ℕ → StoredSnapshot → RevisionGraph → Bool
  belong run_id snapshot_id stored graph =
      stored.snapshot.run_id == run_id && graph.snapshot.id == snapshot_id

  -- `analyze`. The lookup of the snapshot is by its ID, the lookup of the graph by the run.
  unfoldable pub analyze :
      (ℕ → Option StoredSnapshot)
      → (ℕ → Option RevisionGraph)
      → (ℕ → String → Result String)
      → ℕ
      → ℕ
      → ℕ
      → ℕ
      → Result StaticReport
  unfolding analyze_inputs belong
  analyze snapshot_lookup graph_lookup read_text report_id now run_id snapshot_id =
      let refused = err (
        repository_input_error "SNAPSHOT_INTEGRITY_FAILED"
          "Static analysis inputs are incomplete") in
      elim (snapshot_lookup snapshot_id) [
        | none ↦ refused
        | some stored ↦ elim (graph_lookup run_id) [
          | none ↦ refused
          | some graph ↦
              if belong run_id snapshot_id stored graph
              then analyze_inputs report_id now run_id snapshot_id (read_text snapshot_id) stored
                  graph
              else refused
        ]
      ]
