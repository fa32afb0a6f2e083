-- ===== src/Rules/Engine.antt =====
-- src/shadowops/rules/engine.py: `StaticRuleEngine`. The parser of Python, the search for a literal
-- DROP in a text, and the evidence ID, a hash of its five parts, are arguments.
use shadowops.Prelude.{
  ℕ, String, Bool, ◌&&◌, Option, none, some, List, [], ◌∷◌, ◌++◌, str_eq, ◌==◌, if◌then◌else◌,
  find_where,
}
use shadowops.Plan.Validator.{joined}
use shadowops.Revisions.{RevisionNode}
use shadowops.Rules.{Severity, medium, high, StaticFinding}
use shadowops.Rules.Syntax.{text, Node, Nodes, constant, function_definition, ◌⨾◌, walk}
use shadowops.Rules.Calls.{
  function_named, op_call, is_call_of, keyword_value, keywords_of, arguments_of, is_destructive,
  line_of, column_of, gather, statements_of, only_pass, gives_up, is_false, has_default,
  not_concurrent, column_argument,
}

module _ (drop_sql : String → Option String)
    (evidence_of : String → String → ℕ → ℕ → String → String) where
  -- `_finding`, at a line and a column.
  unfoldable pub finding_at :
      ℕ
      → ℕ
      → String
      → RevisionNode
      → String
      → Severity
      → ℕ
      → String
      → String
      → String
      → StaticFinding
  finding_at l column snapshot_hash node rule_id severity confidence message remediation unknown =
      let line = if l == 0 then 1 else l in
      record {
        rule_id = rule_id;
        rule_version = "1.0";
        severity = severity;
        confidence = confidence;
        relative_path = some node.relative_path;
        line = line;
        column = column;
        message = message;
        remediation = remediation;
        evidence_ids = evidence_of snapshot_hash node.relative_path line column rule_id ∷ [];
        unknowns = unknown ∷ [];
      }

  -- The SQL of `op.execute`, where it is a text.
  unfoldable pub literal_sql : Nodes → Option (String × ℕ)
  literal_sql (constant _ _ (text sql) ⨾ _) = elim (drop_sql sql) [
    | none ↦ none
    | some kind ↦ some (joined "literal DROP " (joined kind " SQL"), 95)
  ]
  literal_sql _ = none

  -- The destructive operation of a call, with the confidence.
  unfoldable pub operation_of : Node → Option (String × ℕ)
  unfolding op_call is_destructive literal_sql arguments_of
  operation_of node = elim (op_call node) [
    | none ↦ none
    | some o ↦
        if is_destructive o
        then some (o, 100)
        else if str_eq o "execute"
        then literal_sql (arguments_of node)
        else none
  ]

  unfoldable pub destructive_finding : String → RevisionNode → Node → String × ℕ → StaticFinding
  unfolding finding_at line_of column_of
  destructive_finding snapshot_hash node expression (operation, confidence) =
      finding_at (line_of expression) (column_of expression) snapshot_hash node "SOPS001" high
        confidence (joined "Upgrade performs destructive operation: " operation)
        "Use an expand/migrate/contract rollout and retain compatibility until dependent code and data have been migrated."
        "Production dependencies and retained data are unknown."

  -- `_destructive_ddl`, at one node.
  unfoldable pub destructive_at : String → RevisionNode → Node → Option StaticFinding
  unfolding operation_of destructive_finding
  destructive_at snapshot_hash node expression = elim (operation_of expression) [
    | none ↦ none
    | some found ↦ some (destructive_finding snapshot_hash node expression found)
  ]

  unfoldable pub not_null_finding : String → RevisionNode → Node → Bool → StaticFinding
  unfolding finding_at line_of column_of
  not_null_finding snapshot_hash node expression has_non_null_default =
      finding_at (line_of expression) (column_of expression) snapshot_hash node "SOPS002"
        (if has_non_null_default then medium else high) 100
        (if has_non_null_default
          then "Upgrade directly adds a NOT NULL column with a server default."
          else "Upgrade directly adds a NOT NULL column without a server default.")
        "Add the column as nullable, backfill in bounded batches, then enforce NOT NULL in a later migration."
        "Production table size, PostgreSQL rewrite behavior, and lock duration are unknown."

  -- `_direct_not_null`, at one node.
  unfoldable pub not_null_at : String → RevisionNode → Node → Option StaticFinding
  unfolding is_call_of column_argument is_false has_default keyword_value keywords_of
      not_null_finding
  not_null_at snapshot_hash node expression =
      if is_call_of "add_column" expression
      then elim (column_argument expression) [
        | none ↦ none
        | some column ↦
            if is_false (keyword_value "nullable" (keywords_of column))
            then some (
                not_null_finding snapshot_hash node expression
                  (has_default (keyword_value "server_default" (keywords_of column))))
            else none
      ]
      else none

  -- `_non_concurrent_index`, at one node.
  unfoldable pub index_at : String → RevisionNode → Node → Option StaticFinding
  unfolding is_call_of not_concurrent keyword_value keywords_of finding_at line_of column_of
  index_at snapshot_hash node expression =
      if is_call_of "create_index" expression
        && not_concurrent (keyword_value "postgresql_concurrently" (keywords_of expression))
      then some (
          finding_at (line_of expression) (column_of expression) snapshot_hash node "SOPS003" medium
            100 "Upgrade creates a PostgreSQL index without concurrent mode."
            "Use PostgreSQL concurrent index creation with the required Alembic autocommit handling."
            "Production table size and write-blocking duration are unknown.")
      else none

  unfoldable pub irreversible_finding : String → RevisionNode → ℕ → ℕ → String → StaticFinding
  unfolding finding_at
  irreversible_finding snapshot_hash node l c message =
      finding_at l c snapshot_hash node "SOPS004" high 100 message
        "Implement and test a deterministic downgrade for this revision."
        "Rollback behavior has not been dynamically executed."

  unfoldable pub raising_finding : String → RevisionNode → Option Node → Option StaticFinding
  unfolding irreversible_finding line_of column_of
  raising_finding snapshot_hash node none = none
  raising_finding snapshot_hash node (some raising) = some (
      irreversible_finding snapshot_hash node (line_of raising) (column_of raising)
        "Revision downgrade explicitly raises NotImplementedError.")

  -- `_irreversible_downgrade`; what is not a function definition does not come here.
  unfoldable pub irreversible_downgrade : String → RevisionNode → Option Node → Option StaticFinding
  unfolding irreversible_finding raising_finding statements_of only_pass gives_up walk
  irreversible_downgrade snapshot_hash node none =
      some (irreversible_finding snapshot_hash node 1 0 "Revision has no downgrade function.")
  irreversible_downgrade snapshot_hash node
        (some (function_definition l c id arguments body others)) =
      if only_pass (statements_of body)
      then some
          (irreversible_finding snapshot_hash node l c "Revision downgrade contains only pass.")
      else raising_finding snapshot_hash node
          (find_where gives_up (walk (function_definition l c id arguments body others)))
  irreversible_downgrade snapshot_hash node (some _) = none

  unfoldable pub upgrade_findings : String → RevisionNode → Option Node → List StaticFinding
  unfolding gather destructive_at not_null_at index_at walk
  upgrade_findings snapshot_hash node none = []
  upgrade_findings snapshot_hash node (some upgrade) =
      gather (destructive_at snapshot_hash node) (walk upgrade)
      ++ gather (not_null_at snapshot_hash node) (walk upgrade)
      ++ gather (index_at snapshot_hash node) (walk upgrade)

  unfoldable pub if_found : Option StaticFinding → List StaticFinding
  if_found none = []
  if_found (some f) = f ∷ []

  -- `evaluate`; `none` stands for a SyntaxError of the parser.
  unfoldable pub evaluate : String → RevisionNode → Option Nodes → List StaticFinding
  unfolding upgrade_findings irreversible_downgrade if_found function_named
  evaluate snapshot_hash node none = []
  evaluate snapshot_hash node (some module_body) =
      upgrade_findings snapshot_hash node (function_named "upgrade" module_body)
      ++ if_found
          (irreversible_downgrade snapshot_hash node (function_named "downgrade" module_body))
