-- ===== src/Scenarios/Tasks.antt =====
-- A run that was just created: its timeline, and the task of its first stage.
use shadowops.Prelude.{ℕ, ◌≡◌, Option, none, [], ◌∷◌, ◌-◌, map, up_from}
use shadowops.Domain.Lifecycle.{RunState}
use shadowops.Domain.Errors.{Failure, ok}
use shadowops.Domain.Rows.{AuditRun}
use shadowops.Store.Database
use shadowops.Execution
use shadowops.RunService
use shadowops.Workflow.World.{perform_all, start, create}
use shadowops.Worker.{Turn, Process, Stage, returns, checks, process_run_event}
use shadowops.Timeline.{RunTimeline, get}
use shadowops.Timeline.Versions.{get_versions}
use shadowops.Scenarios.{path_of, request, created, created_found, claimed, claimed-IsConsistent}

get_versions_example :
    (timeline : RunTimeline) × (get created.id 0 claimed.db ≡ (ok timeline, claimed.db))
    × (timeline.run_version ≡ created.version)
    × (map (λ e. e.version) timeline.events ≡ up_from 1 (created.version - 0))
get_versions_example = get_versions created claimed.db 0 claimed-IsConsistent created_found

-- Nobody interferes.
abbrev alone : ℕ → Turn
alone n = record { others = λ db. db; now = 120; step_id = 7; claim_token = 8; event_id = 11 }

-- A stage that calls its checkpoint once.
abbrev handlers : RunState → AuditRun → Stage
handlers state run = checks returns

abbrev sandbox : ℕ → Option Failure
sandbox run_id = none

-- The tables behind the first call, and the task of the event that it added.
abbrev before : Process
before = record {
  db = (perform_all path_of (create request "first" 1 10 100 ∷ []) start).db;
  turn = 0;
  effects = [];
}

abbrev after : Process
after = (process_run_event alone handlers sandbox 30 10 "worker-1" before).1
