-- ===== src/Scenarios/Planning.antt =====
-- A provider whose first text is no plan and whose second text is the plan of the scenarios, and a
-- gateway that tells of two changed revisions.
use shadowops.Prelude.{str_eq, ℕ, Option, String, Bool, true, false, some, [], ◌∷◌}
use shadowops.Planner.{Planning, PlannerRequest, Parsed, Reply, gives, invalid, parsed}
use shadowops.Planner.Context.{
  ReadOnlyToolName, Arguments, Changed, items, text_item, other_item, ToolObservation,
}
use shadowops.Scenarios.{plan}

abbrev planning : Planning
planning = record {
  run_id = 1;
  invocation_id = 20;
  plan_id = 21;
  input_hash = "9f";
  provider = "gateway";
  model = "planner";
  tool_schema_version = "m3.tools.v1";
  started_at = 100;
  completed_at = 104;
  created_at = 103;
}

abbrev provider : PlannerRequest String → Reply String
provider asked = elim asked.repair_errors [ [] ↦ gives "hello" | e ∷ errors ↦ gives "{}" ]

abbrev parser : String → Parsed
parser text = elim (str_eq text "{}") [ true ↦ parsed plan | false ↦ invalid ("JSON_INVALID" ∷ []) ]

abbrev too_long : String → Bool
too_long text = false

abbrev same : String → String
same text = text

abbrev changed : Changed
changed = items (text_item "b2" ∷ other_item ∷ text_item "a1" ∷ [])

abbrev gateway : ℕ → ReadOnlyToolName → Arguments → Option ToolObservation
gateway sequence tool given =
    some
      (record { tool_name = tool; tool_version = "1"; changed_revisions = changed; content = "" })

abbrev elapsed : ℕ → ℕ
elapsed sequence = 5

abbrev hash_arguments : Arguments → String
hash_arguments given = "1a"

abbrev hash_result : ToolObservation → String
hash_result o = o.content

abbrev call_id : ℕ → ℕ → ReadOnlyToolName → String → String
call_id run_id sequence tool hash = hash
