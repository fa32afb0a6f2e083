-- ===== src/Planner.antt =====
-- src/shadowops/agent/runtime.py: `AgentPlanner.plan`, which asks a provider for a plan and, when the
-- validator refuses it, once more for a repair. The provider, the parser of its text, which says by
-- safe errors what is wrong with it, the hash and the two limits are arguments.
pub mod Bounded
pub mod Context
pub mod Gathered
use shadowops.Prelude.{
  ℕ, zero, suc, String, Bool, true, false, Option, none, some, List, [], ◌∷◌, ◌==◌, if◌then◌else◌,
}
use shadowops.Plan.{AuditPlan}
use shadowops.Plan.Validator.{joined, Verdict, accepted, refused, validate}

-- What one planning goes by: its IDs, the hash of the observations, the names that the provider and
-- the gateway give, and the readings of the clock.
pub record Planning : Type 0 where
  pub run_id : ℕ
  pub invocation_id : ℕ
  pub plan_id : ℕ
  pub input_hash : String
  pub provider : String
  pub model : String
  pub tool_schema_version : String
  pub started_at : ℕ
  pub completed_at : ℕ
  pub created_at : ℕ

pub record PlannerRequest (O : Type 0) : Type 0 where
  pub run_id : ℕ
  pub prompt_version : String
  pub tool_schema_version : String
  pub input_hash : String
  pub observations : List O
  pub repair_errors : List String
  pub prior_output_hash : Option String
  pub prior_output : Option String

pub data InvocationStatus : Type 0 where
  succeeded failed : InvocationStatus

pub record AgentInvocation : Type 0 where
  pub id : ℕ
  pub run_id : ℕ
  pub provider : String
  pub model : String
  pub prompt_version : String
  pub tool_schema_version : String
  pub input_hash : String
  pub output_hash : Option String
  pub status : InvocationStatus
  pub repair_attempts : ℕ
  pub error_code : Option String
  pub error_detail : Option String
  pub started_at : ℕ
  pub completed_at : ℕ

pub record AuditPlanRecord : Type 0 where
  pub id : ℕ
  pub run_id : ℕ
  pub invocation_id : ℕ
  pub input_hash : String
  pub plan : AuditPlan
  pub created_at : ℕ

pub record PlanningResult (T : Type 0) : Type 0 where
  pub invocation : AgentInvocation
  pub tool_calls : List T
  pub plan : Option AuditPlanRecord

-- What the parser makes of a text: the safe errors of an exception that the `except` clause names, a
-- plan, or an exception that no clause names, as the `ValueError` of `json.loads` for a number with
-- too many digits, or its `RecursionError`.
pub data Parsed : Type 0 where
  invalid : List String → Parsed
  parsed : AuditPlan → Parsed
  escapes : String → Parsed

-- What a call gives, or the exception that it raises.
pub data Reply {ℓ} (A : Type ℓ) : Type ℓ where
  gives : A → Reply A
  raises : String → Reply A

-- `";".join(errors)`
unfoldable pub join_errors : List String → String
join_errors [] = ""
join_errors (e ∷ []) = e
join_errors (e ∷ f ∷ errors) = joined e (joined ";" (join_errors (f ∷ errors)))

unfoldable pub invocation_of :
    Planning → String → InvocationStatus → ℕ → Option String → Option String → AgentInvocation
invocation_of p output_hash status repairs error_code error_detail = record {
  id = p.invocation_id;
  run_id = p.run_id;
  provider = p.provider;
  model = p.model;
  prompt_version = "m3.planner.v1";
  tool_schema_version = p.tool_schema_version;
  input_hash = p.input_hash;
  output_hash = some output_hash;
  status = status;
  repair_attempts = repairs;
  error_code = error_code;
  error_detail = error_detail;
  started_at = p.started_at;
  completed_at = p.completed_at;
}

unfoldable pub request_of :
    {O : Type 0}
    → Planning
    → List O
    → List String
    → Option String
    → Option String
    → PlannerRequest O
request_of p observations errors prior_hash prior = record {
  run_id = p.run_id;
  prompt_version = "m3.planner.v1";
  tool_schema_version = p.tool_schema_version;
  input_hash = p.input_hash;
  observations = observations;
  repair_errors = errors;
  prior_output_hash = prior_hash;
  prior_output = prior;
}

module _ (parse : String → Parsed) (too_large : String → Bool) where
  -- What the `try` makes of a response. The last case is the end of the validator's fuel, which is
  -- never met.
  unfoldable pub judge : String → Reply Verdict
  unfolding validate
  judge response =
      if too_large response
      then gives (refused ("OUTPUT_TOO_LARGE" ∷ []))
      else elim (parse response) [
        | invalid errors ↦ gives (refused errors)
        | escapes error ↦ raises error
        | parsed plan ↦ elim (validate plan) [
          | none ↦ raises "RecursionError"
          | some verdict ↦ gives verdict
        ]
      ]

module _ {O : Type 0} (invoke : PlannerRequest O → Reply String) (parse : String → Parsed)
    (too_large : String → Bool) where
  -- The response to a request, and what the `try` makes of it.
  unfoldable pub tried : PlannerRequest O → Reply (String × Verdict)
  unfolding judge
  tried request = elim (invoke request) [
    | raises error ↦ raises error
    | gives response ↦ elim (judge parse too_large response) [
      | raises error ↦ raises error
      | gives verdict ↦ gives (response, verdict)
    ]
  ]

module _ {O T : Type 0} (invoke : PlannerRequest O → Reply String) (parse : String → Parsed)
    (too_large : String → Bool) (hash bounded : String → String) where
  unfoldable pub planned : Planning → List T → String → ℕ → AuditPlan → PlanningResult T
  unfolding invocation_of
  planned p calls response attempt plan = record {
    invocation = invocation_of p (hash response) succeeded attempt none none;
    tool_calls = calls;
    plan = some (record {
      id = p.plan_id;
      run_id = p.run_id;
      invocation_id = p.invocation_id;
      input_hash = p.input_hash;
      plan = plan;
      created_at = p.created_at;
    });
  }

  unfoldable pub given_up : Planning → List T → String → List String → PlanningResult T
  unfolding invocation_of join_errors
  given_up p calls response errors = record {
    invocation =
        invocation_of p (hash response) failed 1 (some "PLAN_INVALID") (some (join_errors errors));
    tool_calls = calls;
    plan = none;
  }

  -- The loop, with the attempts that are left of `range(2)`.
  unfoldable pub attempts :
      ℕ
      → Planning
      → List O
      → List T
      → ℕ
      → List String
      → Option String
      → Option String
      → Reply (PlanningResult T)
  unfolding tried planned given_up request_of
  attempts zero p observations calls attempt errors prior_hash prior = raises "AssertionError"
  attempts (suc left) p observations calls attempt errors prior_hash prior =
      elim (tried invoke parse too_large (request_of p observations errors prior_hash prior)) [
        | raises error ↦ raises error
        | gives (response, accepted plan) ↦ gives (planned p calls response attempt plan)
        | gives (response, refused errors') ↦ elim (attempt == 0) [
          | true ↦
              attempts left p observations calls (suc attempt) errors' (some (hash response))
                (some (bounded response))
          | false ↦ gives (given_up p calls response errors')
        ]
      ]

  unfoldable pub plan_run : Planning → List O → List T → Reply (PlanningResult T)
  unfolding attempts
  plan_run p observations calls = attempts 2 p observations calls 0 [] none none
