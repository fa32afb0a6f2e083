-- ===== src/Scenarios.antt =====
-- Concrete runs of the control plane, at which the theorems are used.
mod Graphs
mod Tasks
mod Audit
mod Dynamic
mod Planning
mod Snapshots
use shadowops.Prelude.{
  ℕ, ◌+◌, ◌≤◌, ◌≡◌, ◌≢◌, ◌⊎◌, refl, String, Bool, true, false, Option, none, some, List, [], ◌∷◌,
  ◌++◌, ◌==◌, if◌then◌else◌, find_where, any_where, sort_by, select, count_where, update_where,
  arith, Memᴰ,
}
use shadowops.Domain.Lifecycle.{
  RunState, StepStatus, CleanupStatus, is_terminal, is_running, state_eq,
}
use shadowops.Domain.Errors.{
  ok, err, claim_lost_error, idempotency_conflict_error, runtime_error, invalid_state_transition,
}
use shadowops.Domain.Rows.{AuditRun, RunStep, OutboxEvent, stage}
use shadowops.Store.Database.{Db, with_uow, ◌>>=◌, ◌>>◌, exit_uow}
use shadowops.Execution
use shadowops.Execution.{ClaimInput, final_state_of}
use shadowops.Execution.Fencing.{fenced_once, stale_claim}
use shadowops.Domain.Run.{is_allowed, transition, request_cancel}
use shadowops.Domain.Run.Edges.{◌⟶◌, progress}
use shadowops.Domain.Run.Laws.{
  advanced, transition_lem, transition_all, transition_all_bounded, transition_all_terminal,
  request_cancel_idem,
}
use shadowops.Dispatcher.{RetryPolicy, dispatch_batch}
use shadowops.Dispatcher.Poison.{dispatch_batch_poisoned}
use shadowops.RunService.Replay.{create_replay}
use shadowops.Store.Steps.{held_by}
use shadowops.Store.Outbox
use shadowops.RunService
use shadowops.RunService.{CreateRequest}
use shadowops.Workflow.Change.{here}
use shadowops.Workflow.Invariant.{IsConsistent, Held}
use shadowops.Workflow.History.{Descends}
use shadowops.Plan.{
  capability_eq, PlanStep, AuditPlan, CapabilityName, provision_shadow_db, upgrade_baseline,
  apply_target_migrations, load_test_data, run_smoke_checks, verify_rollback_roundtrip,
  collect_evidence, cleanup_shadow_environment,
}
use shadowops.Plan.Graph.{has_cycle}
use shadowops.Plan.Acyclic.{Reaches, Grounded, has_cycle_lem}
use shadowops.Plan.Validator.{validate, accepted, refused}
use shadowops.Plan.Sound.{IsSafe, validate_lem}
use shadowops.Domain.Errors.{immutable_result_conflict}
use shadowops.Workflow.World.{
  World, Call, create, cancel, claim, heartbeat, finalize, perform_all, start,
  perform_all-IsConsistent, perform_all-Descends,
}

abbrev request : CreateRequest
request = record {
  repository_path = "repositories/shop";
  diff_mode = "WORKING_TREE";
  base_ref = none;
  head_ref = none;
}

-- A fingerprint of its own kind.
abbrev path_of : CreateRequest → String
path_of r = r.repository_path

abbrev worker : ClaimInput
worker = record {
  worker_id = "worker-1";
  now = 110;
  step_id = 7;
  claim_token = 8;
  lease_duration = 30;
}

abbrev opening : List Call
opening = create request "first" 1 10 100 ∷ claim 10 worker ∷ []

abbrev ending : List Call
ending = heartbeat 0 115 30 ∷ cancel 1 1 118 ∷ finalize 0 11 120 ∷ []

abbrev created : AuditRun
created = record {
  id = 1;
  state = RunState.queued;
  version = 1;
  updated_at = 100;
  created_at = some 100;
  completed_at = none;
  cancel_requested_at = none;
  repository_path = "repositories/shop";
  diff_mode = "WORKING_TREE";
  base_ref = none;
  head_ref = none;
  idempotency_key = "first";
  request_fingerprint = "repositories/shop";
  cleanup_status = CleanupStatus.not_required;
  heartbeat_at = none;
  failure_code = none;
  failure_detail = none;
}

abbrev claimed : World
claimed = perform_all path_of opening start

abbrev held : RunStep
held = record {
  id = 7;
  run_id = 1;
  step_key = stage 1 RunState.discovering;
  from_state = RunState.queued;
  to_state = RunState.discovering;
  generation = 1;
  attempt = 1;
  status = StepStatus.running;
  expected_run_version = 1;
  handler_version = "m2.discovery.v1";
  started_at = 110;
  resulting_run_version = none;
  worker_id = some "worker-1";
  claim_token = some 8;
  heartbeat_at = some 110;
  lease_expires_at = some 140;
  finished_at = none;
  error_code = none;
  error_detail = none;
}

created_found : Memᴰ created claimed.db.runs
unfolding perform_all RunService.create Execution.claim RunService.create_body Execution.claim_body
    with_uow ◌>>=◌ ◌>>◌ exit_uow find_where any_where is_terminal sort_by select
created_found = Memᴰ.head refl

held_found : Memᴰ held claimed.db.steps
unfolding perform_all RunService.create Execution.claim RunService.create_body Execution.claim_body
    with_uow ◌>>=◌ ◌>>◌ exit_uow find_where any_where is_terminal sort_by select
held_found = Memᴰ.head refl

claimed-IsConsistent : IsConsistent claimed.db
claimed-IsConsistent = perform_all-IsConsistent path_of opening

held_on_record : Held held claimed.db
held_on_record = record { row = held; found = held_found; id = refl; run_id = refl }

abbrev discovered : AuditRun
discovered = record created { state = RunState.discovering; version = 2; updated_at = 120 }

abbrev finished : Db
finished = (Execution.finalize held 11 120 claimed.db).1

finishes : Execution.finalize held 11 120 claimed.db ≡ (ok discovered, finished)
unfolding perform_all RunService.create Execution.claim RunService.create_body Execution.claim_body
    with_uow ◌>>=◌ ◌>>◌ exit_uow find_where any_where is_terminal sort_by select Execution.finalize
    Execution.finalize_token Execution.finalize_body Execution.fenced_run count_where update_where
    held_by is_running is_allowed
finishes = refl

perform_all-IsConsistent_example : IsConsistent (perform_all path_of (opening ++ ending) start).db
perform_all-IsConsistent_example = perform_all-IsConsistent path_of (opening ++ ending)

perform_all-Descends_example :
    (r' : AuditRun) × Memᴰ r' (perform_all path_of ending claimed).db.runs × Descends created r'
perform_all-Descends_example = perform_all-Descends path_of opening ending created created_found

fenced_once_example :
    (Execution.finalize held 12 130 finished ≡ (err (claim_lost_error 7), finished))
    × (Execution.fail held 130 "INTERNAL" "late" finished ≡ (err (claim_lost_error 7), finished))
    × (Execution.get_run_for_claim held finished ≡ (err (claim_lost_error 7), finished))
fenced_once_example =
    fenced_once held 11 120 claimed.db finished finished claimed-IsConsistent held_on_record
      finishes here held 12 130 "INTERNAL" "late" refl refl

-- A claim for a version that the run has not reached.
abbrev foreign : RunStep
foreign = record held { expected_run_version = 2 }

stale_claim_example :
    (Execution.finalize foreign 12 130 claimed.db ≡ (err (claim_lost_error 7), claimed.db))
    × (Execution.fail foreign 130 "INTERNAL" "late" claimed.db
        ≡ (err (claim_lost_error 7), claimed.db))
    × (Execution.get_run_for_claim foreign claimed.db ≡ (err (claim_lost_error 7), claimed.db))
stale_claim_example =
    stale_claim foreign claimed.db created 12 130 "INTERNAL" "late" claimed-IsConsistent
      created_found refl (λ e. omega (arith, e))

create_replay_example :
    (run' : AuditRun) × Memᴰ run' claimed.db.runs
    × Descends created run'
    × (created.request_fingerprint ≡ path_of request
        → RunService.create path_of request "first" 2 20 200 claimed.db ≡ (ok run', claimed.db))
    × (created.request_fingerprint ≢ path_of request
        → RunService.create path_of request "first" 2 20 200 claimed.db
          ≡ (err (idempotency_conflict_error "first"), claimed.db))
create_replay_example =
    create_replay path_of request 2 20 200 claimed.db claimed.db created claimed-IsConsistent
      created_found here

-- An event that has failed to be published 1024 times, beside one that is published.
abbrev fresh_event : OutboxEvent
fresh_event = record {
  id = 10;
  aggregate_id = 1;
  aggregate_version = 1;
  topic = "run.advance.requested.v1";
  payload = record { run_id = 1; expected_state = RunState.queued; expected_version = 1 };
  available_at = 100;
  created_at = 100;
  published_at = none;
  publish_attempts = 0;
  last_error = none;
}

abbrev poison : OutboxEvent
poison = record fresh_event { id = 9; created_at = 90; publish_attempts = 1024 }

abbrev queue : Db
queue = record { runs = []; steps = []; outbox = fresh_event ∷ poison ∷ [] }

abbrev broker : OutboxEvent → Option String
broker event = if event.id == 9 then some "connection refused" else none

abbrev default_policy : RetryPolicy
default_policy = record { retry_base = 1000000; retry_max = 30000000 }

queue_locked : Outbox.lock_unpublished 200 50 queue ≡ ok (poison ∷ fresh_event ∷ [], queue)
unfolding Outbox.lock_unpublished sort_by select
queue_locked = refl

dispatch_batch_poisoned_example :
    dispatch_batch broker default_policy 200 50 queue ≡ (err (runtime_error "OverflowError"), queue)
dispatch_batch_poisoned_example =
    dispatch_batch_poisoned broker default_policy 200 50 queue (poison ∷ fresh_event ∷ []) poison
      "connection refused" queue_locked (Memᴰ.head refl) refl (omega arith)

transition_lem_example :
    (RunState.queued ⟶ RunState.failed
      → transition created RunState.failed 130 ≡ ok (advanced created RunState.failed 130))
    × (¬ (RunState.queued ⟶ RunState.failed)
        → transition created RunState.failed 130
          ≡ err (invalid_state_transition RunState.queued RunState.failed))
transition_lem_example = transition_lem created RunState.failed 130

abbrev requests : List (RunState × ℕ)
requests =
    (RunState.discovering, 120)
    ∷ (RunState.completed, 121)
    ∷ (RunState.cancelled, 122)
    ∷ (RunState.failed, 123)
    ∷ []

transition_all_bounded_example :
    (transition_all created requests).version + progress RunState.queued ≤ 13
transition_all_bounded_example = transition_all_bounded created requests

abbrev rejected : AuditRun
rejected = record created { state = RunState.rejected; version = 13 }

transition_all_terminal_example : transition_all rejected requests ≡ rejected
unfolding is_terminal
transition_all_terminal_example = transition_all_terminal rejected requests refl

abbrev cancelling : AuditRun
cancelling = record created { cancel_requested_at = some 118; updated_at = 118 }

cancels : request_cancel created 1 118 ≡ ok cancelling
unfolding request_cancel state_eq is_terminal
cancels = refl

request_cancel_idem_example :
    (cancelling.state ≡ created.state)
    × (cancelling.version ≡ created.version)
    × (request_cancel cancelling 5 150 ≡ ok cancelling)
request_cancel_idem_example = request_cancel_idem created cancelling 1 118 5 150 cancels

abbrev plan_step : String → CapabilityName → List String → PlanStep
plan_step name capability depends_on = record {
  id = name;
  capability = capability;
  depends_on = depends_on;
  timeout_seconds = 60;
  required = true;
  reason = "each audit runs every capability";
  evidence_refs = "revision:head" ∷ [];
}

abbrev plan : AuditPlan
plan = record {
  objective = "audit the pending revisions";
  steps =
      plan_step "cleanup" cleanup_shadow_environment ("evidence" ∷ [])
      ∷ plan_step "provision" provision_shadow_db []
      ∷ plan_step "baseline" upgrade_baseline ("provision" ∷ [])
      ∷ plan_step "apply" apply_target_migrations ("baseline" ∷ "provision" ∷ [])
      ∷ plan_step "seed" load_test_data ("apply" ∷ [])
      ∷ plan_step "smoke" run_smoke_checks ("seed" ∷ [])
      ∷ plan_step "rollback" verify_rollback_roundtrip ("smoke" ∷ [])
      ∷ plan_step "evidence" collect_evidence ("rollback" ∷ [])
      ∷ [];
  coverage_gaps = [];
  assumptions = [];
}

plan_accepted : validate plan ≡ some (accepted plan)
unfolding validate any_where find_where capability_eq
plan_accepted = refl

validate_lem_example :
    ((errors : List String) × (validate plan ≡ some (refused errors)))
    ⊎ ((validate plan ≡ some (accepted plan)) × IsSafe plan)
validate_lem_example = validate_lem plan

-- Two steps that wait for each other.
abbrev knot : List PlanStep
knot =
    plan_step "baseline" upgrade_baseline ("apply" ∷ [])
    ∷ plan_step "apply" apply_target_migrations ("baseline" ∷ [])
    ∷ []

knot_found : has_cycle knot ≡ some (true, "baseline" ∷ "apply" ∷ [])
unfolding has_cycle any_where find_where
knot_found = refl

has_cycle_lem_example :
    (v : List String) × (((has_cycle knot ≡ some (true, v)) × (x : String) × Reaches knot x x)
      ⊎ ((has_cycle knot ≡ some (false, v)) × ((k : String) → Grounded knot k)))
has_cycle_lem_example = has_cycle_lem knot
