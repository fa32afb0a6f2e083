-- ===== src/RunService.antt =====
-- src/shadowops/application/runs.py: `RunService`. The fingerprint of a request, a SHA-256 of its
-- canonical JSON, is a parameter, since `hashlib` and `json` are not the program's own.
pub mod Changes
pub mod Replay
use shadowops.Prelude.{
  ℕ, ◌+◌, String, Bool, true, false, ◌&&◌, ◌||◌, not, Option, none, some, str_eq, if◌then◌else◌,
}
use shadowops.Domain.Lifecycle.{RunState, CleanupStatus, queued, state_eq}
use shadowops.Domain.Errors.{
  Result, ok, err, idempotency_conflict_error, run_not_found_error, runtime_error,
}
use shadowops.Domain.Rows.{AuditRun}
use shadowops.Domain.Run.{request_cancel, is_some}
use shadowops.Store.Database.{
  Db, Tx, ◌>>=◌, ◌>>◌, pure, raise, lift, Ending, commit, rollback, with_uow,
}
use shadowops.Store.Runs
use shadowops.Store.Outbox
use shadowops.Execution.{next_event}

-- src/shadowops/api/schemas/runs.py: a validated request.
pub record CreateRequest : Type 0 where
  pub repository_path : String
  pub diff_mode : String
  pub base_ref : Option String
  pub head_ref : Option String

-- `_resolve_replay`
unfoldable pub resolve_replay : AuditRun → String → String → Result AuditRun
resolve_replay run fingerprint key =
    if str_eq run.request_fingerprint fingerprint
    then ok run
    else err (idempotency_conflict_error key)

unfoldable pub replay_concurrent : Option AuditRun → String → String → Result AuditRun
unfolding resolve_replay
replay_concurrent none fingerprint key =
    err (runtime_error "Idempotency conflict did not expose the existing run")
replay_concurrent (some run) fingerprint key = resolve_replay run fingerprint key

-- `run.cancel_requested_at or self._clock()`
unfoldable pub or_now : Option ℕ → ℕ → ℕ
or_now none now = now
or_now (some at) now = at

-- `run is None`
unfoldable pub known : ℕ → Option AuditRun → Result AuditRun
known run_id none = err (run_not_found_error run_id)
known run_id (some run) = ok run

unfoldable pub known_run : ℕ → Tx AuditRun
unfolding known Runs.get
known_run run_id = do found ← Runs.get run_id; lift (known run_id found)

unfoldable pub get : ℕ → Db → Result AuditRun × Db
unfolding known_run
get run_id = with_uow (do run ← known_run run_id; pure (rollback run))

unfoldable pub store_cancelled : AuditRun → ℕ → ℕ → Tx (Ending AuditRun)
unfolding or_now Runs.save Outbox.wake_current
store_cancelled run expected_version now = do
  Runs.save run expected_version
  Outbox.wake_current run.id run.version (or_now run.cancel_requested_at now)
  pure (commit run)

unfoldable pub cancel_run : AuditRun → ℕ → ℕ → Tx (Ending AuditRun)
unfolding request_cancel is_some store_cancelled
cancel_run run expected_version now = do
  cancelled ← lift (request_cancel run expected_version now)
  if is_some run.cancel_requested_at || state_eq cancelled.state RunState.cancelled
      then pure (rollback cancelled)
      else store_cancelled cancelled expected_version now

unfoldable pub cancel_body : ℕ → ℕ → ℕ → Tx (Ending AuditRun)
unfolding known_run cancel_run
cancel_body run_id expected_version now = do
  run ← known_run run_id
  cancel_run run expected_version now

unfoldable pub cancel : ℕ → ℕ → ℕ → Db → Result AuditRun × Db
cancel run_id expected_version now = with_uow (cancel_body run_id expected_version now)

module _ (fingerprint_of : CreateRequest → String) where
  unfoldable pub new_run : CreateRequest → String → ℕ → ℕ → AuditRun
  new_run request key run_id now = record {
    id = run_id;
    state = queued;
    version = 1;
    updated_at = now;
    created_at = some now;
    completed_at = none;
    cancel_requested_at = none;
    repository_path = request.repository_path;
    diff_mode = request.diff_mode;
    base_ref = request.base_ref;
    head_ref = request.head_ref;
    idempotency_key = key;
    request_fingerprint = fingerprint_of request;
    cleanup_status = CleanupStatus.not_required;
    heartbeat_at = none;
    failure_code = none;
    failure_detail = none;
  }

  -- `if not uow.runs.add_if_idempotency_absent(run)`, by what the insert returned.
  unfoldable pub finish_insert :
      CreateRequest → String → ℕ → ℕ → AuditRun → Bool → Tx (Ending AuditRun)
  unfolding next_event replay_concurrent Runs.get_by_idempotency_key Outbox.add
  finish_insert request key event_id now run true = do
    Outbox.add (next_event run event_id now)
    pure (commit run)
  finish_insert request key event_id now run false = do
    concurrent ← Runs.get_by_idempotency_key key
    replayed ← lift (replay_concurrent concurrent (fingerprint_of request) key)
    pure (rollback replayed)

  -- The part behind the first lookup.
  unfoldable pub insert_run : CreateRequest → String → ℕ → ℕ → ℕ → Tx (Ending AuditRun)
  unfolding new_run finish_insert Runs.add_if_idempotency_absent
  insert_run request key run_id event_id now = do
    let run = new_run request key run_id now
    inserted ← Runs.add_if_idempotency_absent run
    finish_insert request key event_id now run inserted

  unfoldable pub create_unless :
      CreateRequest → String → ℕ → ℕ → ℕ → Option AuditRun → Tx (Ending AuditRun)
  unfolding insert_run resolve_replay
  create_unless request key run_id event_id now none = insert_run request key run_id event_id now
  create_unless request key run_id event_id now (some existing) = do
    replayed ← lift (resolve_replay existing (fingerprint_of request) key)
    pure (rollback replayed)

  unfoldable pub create_body : CreateRequest → String → ℕ → ℕ → ℕ → Tx (Ending AuditRun)
  unfolding create_unless Runs.get_by_idempotency_key
  create_body request key run_id event_id now = do
    existing ← Runs.get_by_idempotency_key key
    create_unless request key run_id event_id now existing

  unfoldable pub create : CreateRequest → String → ℕ → ℕ → ℕ → Db → Result AuditRun × Db
  create request key run_id event_id now = with_uow (create_body request key run_id event_id now)
