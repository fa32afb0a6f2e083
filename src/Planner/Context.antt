-- ===== src/Planner/Context.antt =====
-- src/shadowops/agent/runtime.py: `AgentPlanner._gather_context`, the calls of the read-only tools
-- that the observations of a planning come from. The gateway, the measured times, the hashes and the
-- IDs are arguments; the sequence number of a call tells its answer from that of another. Without an
-- answer, the exception of the gateway ends the gathering.
use shadowops.Prelude.{
  ℕ, suc, String, Option, none, some, List, [], ◌∷◌, ◌++◌, length, take, sort_by,
}
use text.Mathlib.Text.{is_le}
use Prim.Native.String.{compare}

pub data ReadOnlyToolName : Type 0 where
  discover_migrations read_revision get_static_findings describe_shadow_capabilities
        get_test_data_profile :
      ReadOnlyToolName

-- The arguments of a tool: none, the run, or the run and a revision of it.
pub data Arguments : Type 0 where
  no_arguments : Arguments
  of_run : ℕ → Arguments
  of_revision : ℕ → String → Arguments

-- `data.get("changed_revisions", [])`: a list, of which an item is a text or something else, or no list.
pub data Item : Type 0 where
  text_item : String → Item
  other_item : Item

pub data Changed : Type 0 where
  items : List Item → Changed
  no_list : Changed

-- The answer of a tool, with all of its data that the planner looks at.
pub record ToolObservation : Type 0 where
  pub tool_name : ReadOnlyToolName
  pub tool_version : String
  pub changed_revisions : Changed
  pub content : String

pub record ToolCall : Type 0 where
  pub id : String
  pub invocation_id : ℕ
  pub run_id : ℕ
  pub sequence : ℕ
  pub tool_name : ReadOnlyToolName
  pub tool_version : String
  pub arguments_hash : String
  pub result_hash : String
  pub duration_ms : ℕ
  pub correlation_id : ℕ
  pub observation : ToolObservation

-- The two lists of the planner.
pub record Context : Type 0 where
  pub calls : List ToolCall
  pub observations : List ToolObservation

-- What comes after a call, unless the call raised.
unfoldable pub after : Option Context → (Context → Option Context) → Option Context
after none next = none
after (some context) next = next context

unfoldable pub texts : List Item → List String
texts [] = []
texts (text_item t ∷ rest) = t ∷ texts rest
texts (other_item ∷ rest) = texts rest

unfoldable pub revisions_of : Changed → List String
unfolding texts
revisions_of (items l) = sort_by (λ a b. is_le (compare a b)) (texts l)
revisions_of no_list = []

module _ (gateway : ℕ → ReadOnlyToolName → Arguments → Option ToolObservation) (elapsed : ℕ → ℕ)
    (hash_arguments : Arguments → String) (hash_result : ToolObservation → String)
    (call_id : ℕ → ℕ → ReadOnlyToolName → String → String) (run_id : ℕ) where
  -- `call`, which appends to both lists.
  unfoldable pub call : ReadOnlyToolName → Arguments → Context → Option Context
  call tool arguments context =
      let sequence = suc (length context.calls) in
      elim (gateway sequence tool arguments) [
        | none ↦ none
        | some observation ↦ some (record {
          calls =
              context.calls
              ++ (record {
                id = call_id run_id sequence tool (hash_arguments arguments);
                invocation_id = 0;
                run_id = run_id;
                sequence = sequence;
                tool_name = tool;
                tool_version = observation.tool_version;
                arguments_hash = hash_arguments arguments;
                result_hash = hash_result observation;
                duration_ms = elapsed sequence;
                correlation_id = run_id;
                observation = observation;
              }
                  ∷ []);
          observations = context.observations ++ (observation ∷ []);
        })
      ]

  unfoldable pub read_revisions : List String → Context → Option Context
  unfolding call after
  read_revisions [] context = some context
  read_revisions (revision ∷ rest) context =
      after (call read_revision (of_revision run_id revision) context)
        (λ context'. read_revisions rest context')

  -- The revisions that the first observation tells of.
  unfoldable pub changed_in : Context → List String
  unfolding revisions_of
  changed_in context = elim context.observations [
    | [] ↦ []
    | discovery ∷ rest ↦ revisions_of discovery.changed_revisions
  ]

  unfoldable pub gather_context : ℕ → Option Context
  unfolding call read_revisions changed_in after
  gather_context max_revision_reads =
      after (call discover_migrations (of_run run_id) (record { calls = []; observations = [] }))
        (λ discovered. after (call get_static_findings (of_run run_id) discovered) (λ found.
          after (call describe_shadow_capabilities no_arguments found) (λ described.
            after (call get_test_data_profile (of_run run_id) described) (λ profiled.
              read_revisions (take max_revision_reads (changed_in discovered)) profiled))))
