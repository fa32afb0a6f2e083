-- ===== src/Execution.antt =====
-- src/shadowops/application/run_execution.py: `RunExecutionService`. A clock reading, a new UUID
-- and the lease duration are arguments.
pub mod Inversion
pub mod Closing
pub mod Advances
pub mod Claims
pub mod Given
pub mod Finished
pub mod Fencing
pub mod Record
pub mod Progress
use shadowops.Prelude.{
  ℕ, ◌+◌, String, Bool, true, false, ◌&&◌, ◌||◌, not, Option, none, some, ◌==◌, str_eq,
  if◌then◌else◌,
}
use shadowops.Domain.Lifecycle.{
  RunState, StepStatus, queued, discovering, static_analysis, planning, provisioning,
  baseline_ready, applying, seeding, smoke_testing, rollback_verifying, reporting, is_terminal,
  state_eq, next_main_state,
}
use shadowops.Domain.Errors.{Result, ok, err, claim_lost_error}
use shadowops.Domain.Rows.{AuditRun, RunStep, OutboxEvent, stage}
use shadowops.Domain.Run.{transition, is_some}
use shadowops.Store.Database.{
  Db, Tx, ◌>>=◌, ◌>>◌, pure, raise, lift, Ending, commit, rollback, with_uow,
}
use shadowops.Store.Runs
use shadowops.Store.Steps
use shadowops.Store.Outbox
use shadowops.Store.Outbox.{advance_topic, leased}

unfoldable pub handler_version : RunState → String
handler_version discovering = "m2.discovery.v1"
handler_version static_analysis = "m2.static-analysis.v1"
handler_version planning = "m3.planning.v1"
handler_version provisioning = "m4.provision-shadow.v1"
handler_version baseline_ready = "m4.baseline-upgrade.v1"
handler_version applying = "m4.apply-target.v1"
handler_version seeding = "m5.seed-data.v1"
handler_version smoke_testing = "m5.smoke-checks.v1"
handler_version rollback_verifying = "m5.rollback-roundtrip.v1"
handler_version reporting = "m5.collect-evidence.v1"
handler_version _ = "m1.noop.v1"

-- What a claim draws from its surroundings.
pub record ClaimInput : Type 0 where
  pub worker_id : String
  pub now : ℕ
  pub step_id : ℕ
  pub claim_token : ℕ
  pub lease_duration : ℕ

-- `run.state is expected_state and run.version == expected_version`
unfoldable pub is_expected : AuditRun → OutboxEvent → Bool
is_expected run event =
    state_eq run.state event.payload.expected_state && run.version == event.payload.expected_version

-- A cancelled run whose step is still leased is left to the worker that holds the step.
unfoldable pub in_flight : AuditRun → Option RunStep → ℕ → Bool
unfolding leased is_some
in_flight run none now = false
in_flight run (some current) now =
    is_some run.cancel_requested_at
    && current.expected_run_version == run.version
    && leased current.lease_expires_at now

unfoldable pub claim_target : AuditRun → Option RunState
unfolding is_some next_main_state
claim_target run =
    if is_some run.cancel_requested_at then some RunState.cancelled else next_main_state run.state

unfoldable pub candidate_for : ClaimInput → AuditRun → RunState → RunStep
unfolding handler_version
candidate_for input run target = record {
  id = input.step_id;
  run_id = run.id;
  step_key = stage run.id target;
  from_state = run.state;
  to_state = target;
  generation = 1;
  attempt = 1;
  status = StepStatus.running;
  expected_run_version = run.version;
  handler_version = handler_version target;
  started_at = input.now;
  resulting_run_version = none;
  worker_id = some input.worker_id;
  claim_token = some input.claim_token;
  heartbeat_at = some input.now;
  lease_expires_at = some (input.now + input.lease_duration);
  finished_at = none;
  error_code = none;
  error_detail = none;
}

-- `if claim is not None: uow.commit()`
unfoldable pub ending_of : Option RunStep → Ending (Option RunStep)
ending_of none = rollback none
ending_of (some step) = commit (some step)

abbrev pub skip : Tx (Ending (Option RunStep))
skip = pure (rollback none)

-- From the target on.
unfoldable pub claim_stage : ClaimInput → AuditRun → Option RunState → Tx (Ending (Option RunStep))
unfolding candidate_for ending_of Steps.claim
claim_stage input run none = skip
claim_stage input run (some target) = do
  claimed ← Steps.claim (candidate_for input run target)
  pure (ending_of claimed)

-- From the run on.
unfoldable pub claim_run : ClaimInput → OutboxEvent → Option AuditRun → Tx (Ending (Option RunStep))
unfolding claim_stage is_expected in_flight claim_target Steps.get_current
claim_run input event none = skip
claim_run input event (some run) =
    if is_terminal run.state then skip else if not (is_expected run event) then skip else (do
      current ← Steps.get_current run.id
      if in_flight run current input.now then skip else claim_stage input run (claim_target run))

unfoldable pub claim_event : ClaimInput → Option OutboxEvent → Tx (Ending (Option RunStep))
unfolding claim_run Runs.get
claim_event input none = skip
claim_event input (some event) =
    if str_eq event.topic advance_topic
    then (do run ← Runs.get event.aggregate_id; claim_run input event run)
    else skip

unfoldable pub claim_body : ℕ → ClaimInput → Tx (Ending (Option RunStep))
unfolding claim_event Outbox.get
claim_body event_id input = do event ← Outbox.get event_id; claim_event input event

unfoldable pub claim : ℕ → ClaimInput → Db → Result (Option RunStep) × Db
claim event_id input = with_uow (claim_body event_id input)

-- `run is None or run.version != claim.expected_run_version`
unfoldable pub require_run : RunStep → Option AuditRun → Result AuditRun
require_run held none = err (claim_lost_error held.id)
require_run held (some run) =
    if run.version == held.expected_run_version then ok run else err (claim_lost_error held.id)

-- The two lookups that open every later use case of a claim.
unfoldable pub fenced_run : RunStep → Tx AuditRun
unfolding require_run Runs.get
fenced_run held = do found ← Runs.get held.run_id; lift (require_run held found)

unfoldable pub get_run_for_claim : RunStep → Db → Result AuditRun × Db
get_run_for_claim held = with_uow (do run ← fenced_run held; pure (rollback run))

unfoldable pub heartbeat_body : RunStep → ℕ → ℕ → ℕ → Tx (Ending Bool)
unfolding Steps.heartbeat
heartbeat_body held now lease_duration token = do
  renewed ← Steps.heartbeat held.id token now (now + lease_duration)
  pure (if renewed then commit true else rollback false)

unfoldable pub heartbeat_token : RunStep → ℕ → ℕ → Option ℕ → Db → Result Bool × Db
heartbeat_token held now lease_duration none db = (ok false, db)
heartbeat_token held now lease_duration (some token) db =
    with_uow (heartbeat_body held now lease_duration token) db

unfoldable pub heartbeat : RunStep → ℕ → ℕ → Db → Result Bool × Db
unfolding heartbeat_token
heartbeat held now lease_duration = heartbeat_token held now lease_duration held.claim_token

-- `_next_event`
unfoldable pub next_event : AuditRun → ℕ → ℕ → OutboxEvent
next_event run event_id now = record {
  id = event_id;
  aggregate_id = run.id;
  aggregate_version = run.version;
  topic = advance_topic;
  payload = record { run_id = run.id; expected_state = run.state; expected_version = run.version };
  available_at = now;
  created_at = now;
  published_at = none;
  publish_attempts = 0;
  last_error = none;
}

-- `if not uow.steps.complete(…): raise ClaimLostError`
unfoldable pub require_row : RunStep → Bool → Tx (Unit {0})
require_row held true = pure tt
require_row held false = raise (claim_lost_error held.id)

unfoldable pub final_state_of : RunStep → AuditRun → RunState
unfolding is_some
final_state_of held run =
    if is_some run.cancel_requested_at then RunState.cancelled else held.to_state

-- `if run.state not in TERMINAL_STATES: uow.outbox.add(…)`
unfoldable pub announce : AuditRun → ℕ → ℕ → Tx (Unit {0})
unfolding next_event Outbox.add
announce run event_id now =
    if is_terminal run.state then pure tt else Outbox.add (next_event run event_id now)

unfoldable pub finalize_run : RunStep → ℕ → ℕ → ℕ → AuditRun → Tx (Ending AuditRun)
unfolding require_row announce final_state_of transition Steps.complete Runs.save
finalize_run held token event_id now run = do
  let final_state = final_state_of held run
  done ← Steps.complete held.id token (run.version + 1) now final_state
  require_row held done
  moved ← lift (transition run final_state now)
  Runs.save moved run.version
  announce moved event_id now
  pure (commit moved)

unfoldable pub finalize_body : RunStep → ℕ → ℕ → ℕ → Tx (Ending AuditRun)
unfolding finalize_run
finalize_body held event_id now token = do
  run ← fenced_run held
  finalize_run held token event_id now run

unfoldable pub finalize_token : RunStep → ℕ → ℕ → Option ℕ → Db → Result AuditRun × Db
finalize_token held event_id now none db = (err (claim_lost_error held.id), db)
finalize_token held event_id now (some token) db =
    with_uow (finalize_body held event_id now token) db

unfoldable pub finalize : RunStep → ℕ → ℕ → Db → Result AuditRun × Db
unfolding finalize_token
finalize held event_id now = finalize_token held event_id now held.claim_token

unfoldable pub fail_run : RunStep → ℕ → ℕ → String → String → AuditRun → Tx (Ending AuditRun)
unfolding require_row transition Steps.fail Runs.save
fail_run held token now error_code error_detail run = do
  done ← Steps.fail held.id token (run.version + 1) now error_code error_detail
  require_row held done
  let noted = record run { failure_code = some error_code; failure_detail = some error_detail }
  moved ← lift (transition noted RunState.failed now)
  Runs.save moved run.version
  pure (commit moved)

unfoldable pub fail_body : RunStep → ℕ → String → String → ℕ → Tx (Ending AuditRun)
unfolding fail_run
fail_body held now error_code error_detail token = do
  run ← fenced_run held
  fail_run held token now error_code error_detail run

unfoldable pub fail_token : RunStep → ℕ → String → String → Option ℕ → Db → Result AuditRun × Db
fail_token held now error_code error_detail none db = (err (claim_lost_error held.id), db)
fail_token held now error_code error_detail (some token) db =
    with_uow (fail_body held now error_code error_detail token) db

unfoldable pub fail : RunStep → ℕ → String → String → Db → Result AuditRun × Db
unfolding fail_token
fail held now error_code error_detail = fail_token held now error_code error_detail held.claim_token
