-- ===== src/Rules/Report.antt =====
-- What a static report tells of the sources and of the graph.
use shadowops.Prelude.{
  ℕ, ◌≤◌, ◌≡◌, refl, sym, ap, subst, ◌∙◌, inl, inr, String, true, Option, some, List, ◌++◌, Memᴰ,
  sort_by, mem-sort_by, Bool-cases, Option-cases, arith,
}
use mathlib.Core.List.Memᴰ
use shadowops.Domain.Errors.{Result, ok, Result-cases}
use shadowops.Search.{text_in}
use shadowops.Revisions.{UnsupportedReason, RevisionNode, RevisionGraph}
use shadowops.Rules.{high, StaticFinding, severity_order}
use shadowops.Rules.Syntax.{Node, Nodes, Within}
use shadowops.Rules.Calls.{op_call, is_destructive, function_named}
use shadowops.Rules.Engine.{destructive_finding, evaluate}
use shadowops.Rules.Service.{
  StoredSnapshot, StaticReport, listed_before, structural_finding, structural_findings,
  source_findings, report_of, analyze_inputs, belong, analyze,
}
use shadowops.Rules.Risk.{IsRisk, risk_of-IsRisk, gravest}
use shadowops.Rules.Flags.{evaluate-found, source_findings-mem, mem-structural_findings}

module _ (parse : String → Option Nodes) (drop_sql : String → Option String)
    (evidence_of : String → String → ℕ → ℕ → String → String)
    (snapshot_lookup : ℕ → Option StoredSnapshot) (graph_lookup : ℕ → Option RevisionGraph)
    (read_text : ℕ → String → Result String) (report_id now run_id snapshot_id : ℕ) where
  -- What an analysis that returned went by.
  record Analysis (report : StaticReport) : Type 0 where
    stored : StoredSnapshot
    graph : RevisionGraph
    findings : List StaticFinding
    at_snapshot : snapshot_lookup snapshot_id ≡ some stored
    at_graph : graph_lookup run_id ≡ some graph
    sources :
        source_findings parse drop_sql evidence_of
          (read_text snapshot_id)
          stored.content_hash
          graph.changed_revisions
          graph.nodes
        ≡ ok findings
    made :
        report
        ≡ report_of parse drop_sql evidence_of report_id now run_id snapshot_id stored graph (
            findings
            ++ structural_findings parse drop_sql evidence_of stored.content_hash
                graph.unsupported_reasons)

  analysis :
      {report : StaticReport}
      → analyze parse drop_sql evidence_of snapshot_lookup graph_lookup read_text report_id now
          run_id snapshot_id
        ≡ ok report
      → Analysis report
  unfolding analyze analyze_inputs
  analysis h = elim (Option-cases (snapshot_lookup snapshot_id)) [
    | inl e ↦ absurd (ground (arith, rw (analyze, e) at h))
    | inr (stored, e) ↦ elim (Option-cases (graph_lookup run_id)) [
      | inl q ↦ absurd (ground (arith, rw (analyze, e, q) at h))
      | inr (graph, q) ↦
          elim (Bool-cases (belong parse drop_sql evidence_of run_id snapshot_id stored graph)) [
            | inr b ↦ absurd (ground (arith, rw (analyze, e, q, b) at h))
            | inl b ↦
                elim (Result-cases (
                  source_findings parse drop_sql evidence_of (read_text snapshot_id)
                    stored.content_hash graph.changed_revisions graph.nodes)) [
                      | inr (f, r) ↦
                          absurd (ground (arith, rw (analyze, e, q, b, analyze_inputs, r) at h))
                      | inl (fs, r) ↦ record {
                        stored = stored;
                        graph = graph;
                        findings = fs;
                        at_snapshot = e;
                        at_graph = q;
                        sources = r;
                        made = ground (arith, rw (analyze, e, q, b, analyze_inputs, r) at h);
                      }
                    ]
          ]
    ]
  ]

  report-IsRisk :
      {report : StaticReport} → Analysis report → IsRisk report.risk_level report.findings
  unfolding report_of
  report-IsRisk a =
      subst (λ (r : StaticReport). IsRisk r.risk_level r.findings) (sym a.made)
        (risk_of-IsRisk (sort_by listed_before _))

  mem-report :
      {report : StaticReport} (a : Analysis report) (f : StaticFinding)
      → Memᴰ f (
          a.findings
          ++ structural_findings parse drop_sql evidence_of a.stored.content_hash
              a.graph.unsupported_reasons)
      → Memᴰ f report.findings
  unfolding report_of
  mem-report a f m =
      subst (λ (r : StaticReport). Memᴰ f r.findings) (sym a.made) (mem-sort_by listed_before _ m)

  high_risk :
      {report : StaticReport} (a : Analysis report) (f : StaticFinding)
      → Memᴰ f report.findings
      → f.severity ≡ high
      → report.risk_level ≡ high
  unfolding severity_order
  high_risk {report} a f m e = gravest report.risk_level (
      subst (λ s. severity_order s ≤ severity_order report.risk_level) e
        ((report-IsRisk a).bound f m))

  same_graph :
      {report : StaticReport} {graph : RevisionGraph} (a : Analysis report)
      → graph_lookup run_id ≡ some graph
      → a.graph ≡ graph
  same_graph a e = ground (arith, a.at_graph, e)

pub analyze_run :
    (parse : String → Option Nodes) (drop_sql : String → Option String)
    (evidence_of : String → String → ℕ → ℕ → String → String)
    (snapshot_lookup : ℕ → Option StoredSnapshot) (graph_lookup : ℕ → Option RevisionGraph)
    (read_text : ℕ → String → Result String) (report_id now run_id snapshot_id : ℕ)
    (report : StaticReport)
    → analyze parse drop_sql evidence_of snapshot_lookup graph_lookup read_text report_id now run_id
        snapshot_id
      ≡ ok report
    → report.run_id ≡ run_id
unfolding report_of
analyze_run parse drop_sql evidence_of snapshot_lookup graph_lookup read_text report_id now run_id
      snapshot_id report h =
    let a =
      analysis parse drop_sql evidence_of snapshot_lookup graph_lookup read_text report_id now
        run_id snapshot_id h in
    ap (λ (r : StaticReport). r.run_id) a.made

-- The risk level of a report is as grave as any of its findings, and as one of them; without
-- findings it is INFO.
pub analyze-IsRisk :
    (parse : String → Option Nodes) (drop_sql : String → Option String)
    (evidence_of : String → String → ℕ → ℕ → String → String)
    (snapshot_lookup : ℕ → Option StoredSnapshot) (graph_lookup : ℕ → Option RevisionGraph)
    (read_text : ℕ → String → Result String) (report_id now run_id snapshot_id : ℕ)
    (report : StaticReport)
    → analyze parse drop_sql evidence_of snapshot_lookup graph_lookup read_text report_id now run_id
        snapshot_id
      ≡ ok report
    → IsRisk report.risk_level report.findings
analyze-IsRisk parse drop_sql evidence_of snapshot_lookup graph_lookup read_text report_id now
      run_id snapshot_id report h =
    report-IsRisk parse drop_sql evidence_of snapshot_lookup graph_lookup read_text report_id now
      run_id snapshot_id
      (analysis parse drop_sql evidence_of snapshot_lookup graph_lookup read_text report_id now
        run_id snapshot_id h)

-- A call of `op.drop_table`, `op.drop_column` or `op.drop_index` anywhere in the upgrade function of
-- a changed revision, however deep, is reported: the report of the run has a finding of SOPS001 for
-- that file, and its risk level is HIGH.
pub analyze_flags :
    (parse : String → Option Nodes) (drop_sql : String → Option String)
    (evidence_of : String → String → ℕ → ℕ → String → String)
    (snapshot_lookup : ℕ → Option StoredSnapshot) (graph_lookup : ℕ → Option RevisionGraph)
    (read_text : ℕ → String → Result String) (report_id now run_id snapshot_id : ℕ)
    (report : StaticReport) (graph : RevisionGraph) (node : RevisionNode) (source : String)
    (body : Nodes) (upgrade x : Node) (operation : String)
    → analyze parse drop_sql evidence_of snapshot_lookup graph_lookup read_text report_id now run_id
        snapshot_id
      ≡ ok report
    → graph_lookup run_id ≡ some graph
    → Memᴰ node graph.nodes
    → text_in node.revision graph.changed_revisions ≡ true
    → read_text snapshot_id node.relative_path ≡ ok source
    → parse source ≡ some body
    → function_named "upgrade" body ≡ some upgrade
    → Within x upgrade
    → op_call x ≡ some operation
    → is_destructive operation ≡ true
    → ((f : StaticFinding) × Memᴰ f report.findings
        × (f.rule_id ≡ "SOPS001")
        × (f.severity ≡ high)
        × (f.relative_path ≡ some node.relative_path))
      × (report.risk_level ≡ high)
unfolding destructive_finding
analyze_flags parse drop_sql evidence_of snapshot_lookup graph_lookup read_text report_id now run_id
      snapshot_id report graph node source body upgrade x operation h at listed changed read parsed
      up within call destructive =
    let a =
      analysis parse drop_sql evidence_of snapshot_lookup graph_lookup read_text report_id now
        run_id snapshot_id h in
    let same =
      same_graph parse drop_sql evidence_of snapshot_lookup graph_lookup read_text report_id now
        run_id snapshot_id a at in
    let (text, was_read, found) =
      source_findings-mem parse drop_sql evidence_of (read_text snapshot_id) a.stored.content_hash
        a.graph.changed_revisions a.graph.nodes node a.sources
        (subst (λ (g : RevisionGraph). Memᴰ node g.nodes) (sym same) listed)
        (subst (λ (g : RevisionGraph). text_in node.revision g.changed_revisions ≡ true) (sym same)
          changed) in
    let same_text : text ≡ source = ground (arith, was_read, read) in
    let f =
      destructive_finding drop_sql evidence_of a.stored.content_hash node x (operation, 100) in
    let there = found f (
      subst (λ o. Memᴰ f (evaluate drop_sql evidence_of a.stored.content_hash node o))
        (sym (ap parse same_text ∙ parsed))
        (evaluate-found parse drop_sql evidence_of a.stored.content_hash node body upgrade x up
          within call destructive)) in
    let shown =
      mem-report parse drop_sql evidence_of snapshot_lookup graph_lookup read_text report_id now
        run_id snapshot_id a f
        (Memᴰ.append_left
          (structural_findings parse drop_sql evidence_of a.stored.content_hash
            a.graph.unsupported_reasons)
          there) in
    (
      (f, shown, refl, refl, refl),
      high_risk parse drop_sql evidence_of snapshot_lookup graph_lookup read_text report_id now
          run_id snapshot_id a f shown refl,
    )

-- Every reason for which the revision graph is not supported is reported, and makes the risk HIGH.
pub analyze_structure :
    (parse : String → Option Nodes) (drop_sql : String → Option String)
    (evidence_of : String → String → ℕ → ℕ → String → String)
    (snapshot_lookup : ℕ → Option StoredSnapshot) (graph_lookup : ℕ → Option RevisionGraph)
    (read_text : ℕ → String → Result String) (report_id now run_id snapshot_id : ℕ)
    (report : StaticReport) (graph : RevisionGraph) (reason : UnsupportedReason)
    → analyze parse drop_sql evidence_of snapshot_lookup graph_lookup read_text report_id now run_id
        snapshot_id
      ≡ ok report
    → graph_lookup run_id ≡ some graph
    → Memᴰ reason graph.unsupported_reasons
    → ((f : StaticFinding) × Memᴰ f report.findings
        × (f.rule_id ≡ "STRUCTURE")
        × (f.relative_path ≡ reason.relative_path))
      × (report.risk_level ≡ high)
unfolding structural_finding
analyze_structure parse drop_sql evidence_of snapshot_lookup graph_lookup read_text report_id now
      run_id snapshot_id report graph reason h at listed =
    let a =
      analysis parse drop_sql evidence_of snapshot_lookup graph_lookup read_text report_id now
        run_id snapshot_id h in
    let same =
      same_graph parse drop_sql evidence_of snapshot_lookup graph_lookup read_text report_id now
        run_id snapshot_id a at in
    let f = structural_finding parse drop_sql evidence_of a.stored.content_hash reason in
    let shown =
      mem-report parse drop_sql evidence_of snapshot_lookup graph_lookup read_text report_id now
        run_id snapshot_id a f
        (Memᴰ.append_right a.findings (
          mem-structural_findings parse drop_sql evidence_of a.stored.content_hash
            a.graph.unsupported_reasons reason
            (subst (λ (g : RevisionGraph). Memᴰ reason g.unsupported_reasons) (sym same)
              listed))) in
    (
      (f, shown, refl, refl),
      high_risk parse drop_sql evidence_of snapshot_lookup graph_lookup read_text report_id now
          run_id snapshot_id a f shown refl,
    )
