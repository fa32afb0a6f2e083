-- ===== src/Store/Steps.antt =====
-- src/shadowops/persistence/repositories.py: `SqlAlchemyRunStepRepository`.
use shadowops.Prelude.{
  ℕ, ◌+◌, String, Bool, true, false, ◌&&◌, ◌||◌, not, Option, none, some, List, ◌∷◌, ◌==◌, leb, ltb,
  if◌then◌else◌, find_where, select, count_where, any_where, update_where, sort_by,
}
use mathlib.Core.List.{head?}
use mathlib.Core.Option
use shadowops.Domain.Lifecycle.{RunState, StepStatus, is_running, state_eq}
use shadowops.Domain.Errors.{ok, err, integrity_error}
use shadowops.Domain.Rows.{StepKey, stage, recovery, RunStep, AuditRun}
use shadowops.Store.Database.{Db, Tx}

unfoldable pub key_eq : StepKey → StepKey → Bool
key_eq (stage i s) (stage j t) = i == j && state_eq s t
key_eq (recovery i v) (recovery j w) = i == j && v == w
key_eq _ _ = false

-- `uq_run_steps_run_step_key`
unfoldable pub same_key : RunStep → RunStep → Bool
unfolding key_eq
same_key a b = a.run_id == b.run_id && key_eq a.step_key b.step_key

-- What a new row must satisfy beside its keys: the run exists, and the two counts are positive.
unfoldable pub insertable : RunStep → Db → Bool
insertable step db =
    any_where (λ (r : AuditRun). r.id == step.run_id) db.runs
    && not (step.generation == 0)
    && not (step.attempt == 0)

unfoldable pub add : RunStep → Tx (Unit {0})
unfolding insertable
add step db =
    if any_where (λ s. s.id == step.id || same_key s step) db.steps
    then err integrity_error
    else if insertable step db
    then ok (tt, record db { steps = step ∷ db.steps })
    else err integrity_error

-- resulting_run_version ASC NULLS LAST, then started_at, then id
unfoldable pub listed_before : RunStep → RunStep → Bool
listed_before a b = versions a.resulting_run_version b.resulting_run_version
  where
    older : Bool
    older = ltb a.started_at b.started_at || (a.started_at == b.started_at && leb a.id b.id)

    versions : Option ℕ → Option ℕ → Bool
    versions none none = older
    versions none (some w) = false
    versions (some v) none = true
    versions (some v) (some w) = ltb v w || (v == w && older)

unfoldable pub list_for_run : ℕ → Tx (List RunStep)
unfolding listed_before
list_for_run run_id db = ok (sort_by listed_before (select (λ s. s.run_id == run_id) db.steps), db)

-- started_at DESC, id DESC
unfoldable pub newest_first : RunStep → RunStep → Bool
newest_first a b = ltb b.started_at a.started_at || (a.started_at == b.started_at && leb b.id a.id)

abbrev pub running_of : ℕ → RunStep → Bool
running_of run_id step = step.run_id == run_id && is_running step.status

unfoldable pub get_current : ℕ → Tx (Option RunStep)
unfolding newest_first
get_current run_id db = ok (head? (sort_by newest_first (select (running_of run_id) db.steps)), db)

-- lease_expires_at IS NULL OR lease_expires_at <= now
unfoldable pub lapsed : Option ℕ → ℕ → Bool
lapsed none now = true
lapsed (some expiry) now = leb expiry now

-- The columns that the conflict branch of `claim` sets.
unfoldable pub reclaimed : RunStep → RunStep → RunStep
reclaimed candidate row = record row {
  attempt = row.attempt + 1;
  status = StepStatus.running;
  worker_id = candidate.worker_id;
  claim_token = candidate.claim_token;
  heartbeat_at = candidate.heartbeat_at;
  lease_expires_at = candidate.lease_expires_at;
}

-- The rows that the conflict branch may take over.
unfoldable pub claimable : RunStep → RunStep → Bool
unfolding same_key lapsed
claimable candidate row =
    same_key row candidate
    && is_running row.status
    && lapsed row.lease_expires_at candidate.started_at

-- INSERT … ON CONFLICT (run_id, step_key) DO UPDATE … WHERE … RETURNING.
unfoldable pub claim : RunStep → Tx (Option RunStep)
unfolding same_key claimable reclaimed insertable
claim candidate db =
    if any_where (λ s. same_key s candidate) db.steps
    then ok (
      Option.map (reclaimed candidate) (find_where (claimable candidate) db.steps),
      record db { steps = update_where (claimable candidate) (reclaimed candidate) db.steps },
    )
    else if any_where (λ s. s.id == candidate.id) db.steps
    then err integrity_error
    else if insertable candidate db
    then ok (some candidate, record db { steps = candidate ∷ db.steps })
    else err integrity_error

-- `claim_token = …` in SQL: NULL equals nothing.
unfoldable pub token_is : Option ℕ → ℕ → Bool
token_is none token = false
token_is (some t) token = t == token

-- id = … AND claim_token = … AND status = 'RUNNING', the fence of every later statement
unfoldable pub held_by : ℕ → ℕ → RunStep → Bool
unfolding token_is
held_by step_id token row =
    row.id == step_id && token_is row.claim_token token && is_running row.status

-- An UPDATE behind the fence, with the test on the row count.
unfoldable pub fenced_update : ℕ → ℕ → (RunStep → RunStep) → Tx Bool
fenced_update step_id token f db = ok (
  count_where (held_by step_id token) db.steps == 1,
  record db { steps = update_where (held_by step_id token) f db.steps },
)

unfoldable pub heartbeat : ℕ → ℕ → ℕ → ℕ → Tx Bool
unfolding fenced_update
heartbeat step_id token now expiry =
    fenced_update step_id token
      (λ row. record row { heartbeat_at = some now; lease_expires_at = some expiry })

unfoldable pub completed_row : ℕ → ℕ → RunState → RunStep → RunStep
completed_row resulting now final_state row = record row {
  status =
      if state_eq final_state RunState.cancelled
      then StepStatus.cancelled
      else StepStatus.succeeded;
  to_state = final_state;
  resulting_run_version = some resulting;
  finished_at = some now;
  lease_expires_at = none;
}

unfoldable pub complete : ℕ → ℕ → ℕ → ℕ → RunState → Tx Bool
unfolding fenced_update completed_row
complete step_id token resulting now final_state =
    fenced_update step_id token (completed_row resulting now final_state)

unfoldable pub failed_row : ℕ → ℕ → String → String → RunStep → RunStep
failed_row resulting now error_code error_detail row = record row {
  status = StepStatus.failed;
  to_state = RunState.failed;
  resulting_run_version = some resulting;
  finished_at = some now;
  lease_expires_at = none;
  error_code = some error_code;
  error_detail = some error_detail;
}

unfoldable pub fail : ℕ → ℕ → ℕ → ℕ → String → String → Tx Bool
unfolding fenced_update failed_row
fail step_id token resulting now error_code error_detail =
    fenced_update step_id token (failed_row resulting now error_code error_detail)
