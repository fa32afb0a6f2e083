-- ===== src/Domain/Rows.antt =====
-- src/shadowops/domain/runs.py: the run aggregate, a step of it, and an outbox event.
-- UUIDs are numbers and times are microseconds.
use shadowops.Prelude.{ℕ, String, Option}
use shadowops.Domain.Lifecycle.{RunState, StepStatus, CleanupStatus}

pub record AuditRun : Type 0 where
  pub id : ℕ
  pub state : RunState
  pub version : ℕ
  pub updated_at : ℕ
  pub created_at : Option ℕ
  pub completed_at : Option ℕ
  pub cancel_requested_at : Option ℕ
  pub repository_path : String
  pub diff_mode : String
  pub base_ref : Option String
  pub head_ref : Option String
  pub idempotency_key : String
  pub request_fingerprint : String
  pub cleanup_status : CleanupStatus
  pub heartbeat_at : Option ℕ
  pub failure_code : Option String
  pub failure_detail : Option String

-- The two formats of `step_key`: `f"{run.id}:{target.value}:1"` of a stage and
-- `f"{run.id}:FAILED:recovery:{version}"` of a recovery. The parts are kept, since a UUID, a state
-- and a version have no colon, and so two keys are the same text exactly when their parts agree.
pub data StepKey : Type 0 where
  stage : ℕ → RunState → StepKey
  recovery : ℕ → ℕ → StepKey

pub record RunStep : Type 0 where
  pub id : ℕ
  pub run_id : ℕ
  pub step_key : StepKey
  pub from_state : RunState
  pub to_state : RunState
  pub generation : ℕ
  pub attempt : ℕ
  pub status : StepStatus
  pub expected_run_version : ℕ
  pub handler_version : String
  pub started_at : ℕ
  pub resulting_run_version : Option ℕ
  pub worker_id : Option String
  pub claim_token : Option ℕ
  pub heartbeat_at : Option ℕ
  pub lease_expires_at : Option ℕ
  pub finished_at : Option ℕ
  pub error_code : Option String
  pub error_detail : Option String

-- The payload that the code writes; `RunState(str(...))` and `int(str(...))` read back what
-- `state.value` and `version` wrote.
pub record Payload : Type 0 where
  pub run_id : ℕ
  pub expected_state : RunState
  pub expected_version : ℕ

pub record OutboxEvent : Type 0 where
  pub id : ℕ
  pub aggregate_id : ℕ
  pub aggregate_version : ℕ
  pub topic : String
  pub payload : Payload
  pub available_at : ℕ
  pub created_at : ℕ
  pub published_at : Option ℕ
  pub publish_attempts : ℕ
  pub last_error : Option String
