-- ===== src/Scenarios/Audit.antt =====
-- The static audit of a revision that drops a table inside an `if`, and of a graph with no head.
use shadowops.Prelude.{
  Bool, true, find_where, ℕ, ◌≡◌, refl, String, false, Option, none, some, List, [], ◌∷◌, ◌++◌, inl,
  inr, Memᴰ, any_where,
}
use shadowops.Domain.Errors.{Result, ok, err}
use shadowops.Search.{text_in}
use shadowops.Revisions.{new_revision, UnsupportedReason, RevisionGraph}
use shadowops.Worker.{Outcome, returned}
use shadowops.Stages.Stored.{static_stage, query_report}
use shadowops.Stages.Kept.{static_stage_kept}
use shadowops.Rules.{high, StaticFinding}
use shadowops.Rules.Syntax.{
  Node, Nodes, text, name, attribute, call, constant, expression_statement, another_node,
  function_definition, end, ◌⨾◌, Within,
}
use shadowops.Rules.Calls.{op_call, function_named, is_destructive}
use shadowops.Rules.Service.{
  StoredSnapshot, StaticReport, analyze, report_of, source_findings, structural_findings,
}
use shadowops.Rules.Risk.{IsRisk}
use shadowops.Rules.Report.{analyze-IsRisk, analyze_flags, analyze_structure}
use shadowops.Scenarios.Graphs.{node, graph, snapshot}

abbrev drop : Node
drop =
    call 4 8 (attribute 4 8 (name 4 8 "op") "drop_table") (constant 4 22 (text "orders") ⨾ end) end

-- `if …: op.drop_table("orders")` in the upgrade.
abbrev upgrade : Node
upgrade =
    function_definition 2 0 "upgrade" (another_node 0 0 end)
      (another_node 3 4 (expression_statement 4 8 drop ⨾ end) ⨾ end) end

abbrev body : Nodes
body = upgrade ⨾ end

abbrev parse : String → Option Nodes
parse source = some body

abbrev drop_sql : String → Option String
drop_sql sql = none

abbrev evidence_of : String → String → ℕ → ℕ → String → String
evidence_of hash path line column rule = "evidence:0f"

abbrev stored : StoredSnapshot
stored = record { snapshot = snapshot; content_hash = "0f" }

abbrev snapshots : ℕ → Option StoredSnapshot
snapshots id = some stored

abbrev reason : UnsupportedReason
reason = record { code = "NO_HEAD"; detail = "no head"; relative_path = none }

-- The graph of the three revisions, under a reason against it.
abbrev refused : RevisionGraph
refused = record graph { supported = false; unsupported_reasons = reason ∷ [] }

abbrev graphs : ℕ → Option RevisionGraph
graphs run_id = some refused

abbrev files : ℕ → String → Result String
files snapshot_id path = ok "source"

abbrev in_sources : List StaticFinding
in_sources =
    elim (source_findings parse drop_sql evidence_of (files 7) "0f" refused.changed_revisions
      refused.nodes) [ ok fs ↦ fs | err e ↦ [] ]

abbrev report : StaticReport
report =
    report_of parse drop_sql evidence_of 5 100 3 7 stored refused (
      in_sources ++ structural_findings parse drop_sql evidence_of "0f" refused.unsupported_reasons)

analyzed : analyze parse drop_sql evidence_of snapshots graphs files 5 100 3 7 ≡ ok report
unfolding analyze any_where
analyzed = refl

drop-Within : Within drop upgrade
unfolding Within
drop-Within = inr (inr (inl (inl (inr (inl (inr (inl refl)))))))

drop_call : op_call drop ≡ some "drop_table"
unfolding op_call
drop_call = refl

found_upgrade : function_named "upgrade" body ≡ some upgrade
unfolding function_named
found_upgrade = refl

drops : is_destructive "drop_table" ≡ true
unfolding is_destructive
drops = refl

changed : text_in "a2" refused.changed_revisions ≡ true
unfolding any_where
changed = refl

analyze-IsRisk_example : IsRisk report.risk_level report.findings
analyze-IsRisk_example =
    analyze-IsRisk parse drop_sql evidence_of snapshots graphs files 5 100 3 7 report analyzed

analyze_flags_example :
    ((f : StaticFinding) × Memᴰ f report.findings
      × (f.rule_id ≡ "SOPS001")
      × (f.severity ≡ high)
      × (f.relative_path ≡ some "a2"))
    × (report.risk_level ≡ high)
analyze_flags_example =
    analyze_flags parse drop_sql evidence_of snapshots graphs files 5 100 3 7 report refused
      (node "a2" ("a1" ∷ []) new_revision) "source" body upgrade drop "drop_table" analyzed refl
      (Memᴰ.tail (Memᴰ.head refl)) changed refl refl found_upgrade drop-Within drop_call drops

analyze_structure_example :
    ((f : StaticFinding) × Memᴰ f report.findings
      × (f.rule_id ≡ "STRUCTURE")
      × (f.relative_path ≡ none))
    × (report.risk_level ≡ high)
analyze_structure_example =
    analyze_structure parse drop_sql evidence_of snapshots graphs files 5 100 3 7 report refused
      reason analyzed refl (Memᴰ.head refl)

-- The stage of the static analysis, of a run without a report.
abbrev alike : StaticReport → StaticReport → Bool
alike a b = true

analysis_stored :
    static_stage alike 3
      (some 7)
      (analyze parse drop_sql evidence_of snapshots graphs files 5 100 3)
      (returned tt)
      (λ rows. rows)
      []
    ≡ (returned tt, report ∷ [])
unfolding static_stage analyze any_where find_where
analysis_stored = refl

static_stage_kept_example :
    ((r : StaticReport) × (query_report alike 3 true (report ∷ []) ≡ ok r) × (r.run_id ≡ 3))
    × ((found' : Option ℕ) (analyzed : ℕ → Result StaticReport) (checked' : Outcome (Unit {0}))
          (others' : List StaticReport → List StaticReport)
        → static_stage alike 3 found' analyzed checked' others' (report ∷ [])
          ≡ (returned tt, report ∷ []))
static_stage_kept_example =
    static_stage_kept alike parse drop_sql evidence_of snapshots graphs files 5 100 3 (some 7)
      (returned tt) (λ rows. rows) [] (report ∷ []) analysis_stored
