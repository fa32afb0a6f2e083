-- ===== src/Reconciler.antt =====
-- src/shadowops/worker/reconciler.py: `RunReconciler`. The UUIDs of the steps that it adds come
-- from a supply, the n-th event of the batch taking the n-th.
pub mod Changes
use shadowops.Prelude.{
  ℕ, suc, ◌+◌, ◌-◌, String, Bool, true, false, not, Option, none, some, List, [], ◌∷◌, ◌==◌, leb,
  if◌then◌else◌,
}
use shadowops.Domain.Lifecycle.{RunState, StepStatus}
use shadowops.Domain.Errors.{Result, ok, err}
use shadowops.Domain.Rows.{AuditRun, RunStep, OutboxEvent, recovery}
use shadowops.Domain.Run.{transition}
use shadowops.Store.Database.{Db, Tx, ◌>>=◌, ◌>>◌, pure, lift, Ending, commit, with_uow}
use shadowops.Store.Runs
use shadowops.Store.Steps
use shadowops.Store.Outbox

pub record ReconcileResult : Type 0 where
  pub reopened : ℕ
  pub failed : ℕ

abbrev pub recovery_detail : String
recovery_detail = "Stale delivery exceeded the configured recovery budget"

-- The step that records an exhausted recovery; `run` is the run before the transition.
unfoldable pub recovery_step : ℕ → AuditRun → OutboxEvent → ℕ → RunStep
recovery_step step_id run event now = record {
  id = step_id;
  run_id = run.id;
  step_key = recovery run.id run.version;
  from_state = run.state;
  to_state = RunState.failed;
  generation = 1;
  attempt = event.publish_attempts;
  status = StepStatus.failed;
  expected_run_version = run.version;
  handler_version = "m1.reconciler.v1";
  started_at = now;
  resulting_run_version = some (run.version + 1);
  worker_id = none;
  claim_token = none;
  heartbeat_at = none;
  lease_expires_at = none;
  finished_at = some now;
  error_code = some "RECOVERY_EXHAUSTED";
  error_detail = some recovery_detail;
}

-- The run with its failure noted, before the transition.
unfoldable pub exhausted : AuditRun → AuditRun
exhausted run = record run {
  failure_code = some "RECOVERY_EXHAUSTED";
  failure_detail = some recovery_detail;
}

unfoldable pub give_up : ℕ → AuditRun → OutboxEvent → ℕ → Tx (Unit {0})
unfolding recovery_step exhausted transition Steps.add Runs.save
give_up step_id run event now = do
  moved ← lift (transition (exhausted run) RunState.failed now)
  Steps.add (recovery_step step_id run event now)
  Runs.save moved run.version

module _ (max_attempts : ℕ) (step_ids : ℕ → ℕ) where
  reconcile_run : ℕ → ℕ → ReconcileResult → OutboxEvent → Option AuditRun → Tx ReconcileResult
  unfolding give_up Outbox.reopen
  reconcile_run now n counts event none = pure counts
  reconcile_run now n counts event (some run) =
      if not (run.version == event.aggregate_version)
      then pure counts
      else if leb max_attempts event.publish_attempts
      then (do
        give_up (step_ids n) run event now
        pure (record counts { failed = counts.failed + 1 }))
      else (do
        done ← Outbox.reopen event.id now "RECOVERED_STALE_DELIVERY"
        pure (if done then record counts { reopened = counts.reopened + 1 } else counts))

  unfoldable pub reconcile_event : ℕ → ℕ → ReconcileResult → OutboxEvent → Tx ReconcileResult
  unfolding reconcile_run Runs.get
  reconcile_event now n counts event = do
    run ← Runs.get event.aggregate_id
    reconcile_run now n counts event run

  unfoldable pub reconcile_all : ℕ → ℕ → ReconcileResult → List OutboxEvent → Tx ReconcileResult
  unfolding reconcile_event
  reconcile_all now n counts [] = pure counts
  reconcile_all now n counts (event ∷ rest) = do
    counted ← reconcile_event now n counts event
    reconcile_all now (suc n) counted rest

  unfoldable pub reconcile_body : ℕ → ℕ → ℕ → Tx (Ending ReconcileResult)
  unfolding reconcile_all Outbox.lock_stale_deliveries
  reconcile_body now stale_after limit = do
    events ← Outbox.lock_stale_deliveries now (now - stale_after) limit
    counts ← reconcile_all now 0 (record { reopened = 0; failed = 0 }) events
    pure (commit counts)

  unfoldable pub reconcile_batch : ℕ → ℕ → ℕ → Db → Result ReconcileResult × Db
  reconcile_batch now stale_after limit = with_uow (reconcile_body now stale_after limit)
