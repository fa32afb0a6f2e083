-- ===== src/Timeline.antt =====
-- src/shadowops/application/run_timeline.py: the timeline that the API shows.
pub mod Versions
use shadowops.Prelude.{
  ℕ, String, Bool, Option, none, some, List, [], ◌∷◌, ◌++◌, leb, ltb, sort_by, select,
  if◌then◌else◌,
}
use shadowops.Domain.Lifecycle.{RunState, StepStatus, queued, is_terminal}
use shadowops.Domain.Errors.{Result, run_not_found_error}
use shadowops.Domain.Rows.{AuditRun, RunStep, StepKey}
use shadowops.Domain.Run.{is_some}
use shadowops.Store.Database.{Db, Tx, ◌>>=◌, pure, raise, Ending, rollback, with_uow}
use shadowops.Store.Runs
use shadowops.Store.Steps

pub record TimelineEvent : Type 0 where
  pub version : ℕ
  pub state : RunState
  pub at : ℕ
  pub step_key : Option StepKey
  pub attempt : Option ℕ
  pub status : Option StepStatus
  pub handler_version : Option String
  pub error_code : Option String

pub record RunTimeline : Type 0 where
  pub run_id : ℕ
  pub run_version : ℕ
  pub terminal : Bool
  pub events : List TimelineEvent
  pub current_step : Option RunStep

-- `a or b`
or_else : Option ℕ → ℕ → ℕ
or_else none b = b
or_else (some a) b = a

unfoldable pub initial_event : AuditRun → TimelineEvent
unfolding or_else
initial_event run = record {
  version = 1;
  state = queued;
  at = or_else run.created_at run.updated_at;
  step_key = none;
  attempt = none;
  status = none;
  handler_version = none;
  error_code = none;
}

unfoldable pub step_event : AuditRun → RunStep → ℕ → TimelineEvent
unfolding or_else
step_event run step version = record {
  version = version;
  state = step.to_state;
  at = or_else step.finished_at run.updated_at;
  step_key = some step.step_key;
  attempt = some step.attempt;
  status = some step.status;
  handler_version = some step.handler_version;
  error_code = step.error_code;
}

-- The sort key `step.resulting_run_version or 0`.
unfoldable pub key_before : RunStep → RunStep → Bool
unfolding or_else
key_before a b = leb (or_else a.resulting_run_version 0) (or_else b.resulting_run_version 0)

-- The events of the finished steps behind `after_version`.
events_of : AuditRun → ℕ → List RunStep → List TimelineEvent
unfolding step_event
events_of run after_version [] = []
events_of run after_version (step ∷ steps) =
    event_or_skip step.resulting_run_version (events_of run after_version steps)
  where
    event_or_skip : Option ℕ → List TimelineEvent → List TimelineEvent
    event_or_skip none rest = rest
    event_or_skip (some v) rest = if ltb after_version v then step_event run step v ∷ rest else rest

-- What is built behind the transaction.
unfoldable pub build_timeline : ℕ → AuditRun → List RunStep → Option RunStep → RunTimeline
unfolding initial_event key_before events_of is_some
build_timeline after_version run steps current = record {
  run_id = run.id;
  run_version = run.version;
  terminal = is_terminal run.state;
  events =
      (if ltb after_version 1 then initial_event run ∷ [] else [])
      ++ events_of run after_version
          (sort_by key_before (select (λ s. is_some s.resulting_run_version) steps));
  current_step = current;
}

unfoldable pub current_of : AuditRun → Tx (Option RunStep)
unfolding Steps.get_current
current_of run = if is_terminal run.state then pure none else Steps.get_current run.id

unfoldable pub timeline_of : ℕ → Option AuditRun → ℕ → Tx (Ending RunTimeline)
unfolding build_timeline current_of Steps.list_for_run
timeline_of run_id none after_version = raise (run_not_found_error run_id)
timeline_of run_id (some run) after_version = do
  steps ← Steps.list_for_run run_id
  current ← current_of run
  pure (rollback (build_timeline after_version run steps current))

unfoldable pub get_body : ℕ → ℕ → Tx (Ending RunTimeline)
unfolding timeline_of Runs.get
get_body run_id after_version = do run ← Runs.get run_id; timeline_of run_id run after_version

unfoldable pub get : ℕ → ℕ → Db → Result RunTimeline × Db
get run_id after_version = with_uow (get_body run_id after_version)
