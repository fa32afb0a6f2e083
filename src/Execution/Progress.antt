-- ===== src/Execution/Progress.antt =====
-- A claim that is still good can be finished.
use shadowops.Prelude.{ℕ, ◌+◌, ◌≡◌, true, false, some, List, Memᴰ, ◌==◌, any_where, update_where}
use shadowops.Domain.Rows.{AuditRun, RunStep}
use shadowops.Domain.Run.Laws.{advanced}
use shadowops.Domain.Run.Edges.{◌⟶◌}
use shadowops.Store.Database.{Db}
use shadowops.Store.Runs
use shadowops.Store.Runs.{at_version, saved_over}
use shadowops.Store.Steps
use shadowops.Store.Steps.{held_by, completed_row}
use shadowops.Store.Outbox
use shadowops.Workflow.Invariant.{IsConsistent}
use shadowops.Execution.{final_state_of}

-- The claim is still good: its run stands at the version of the claim, its step still runs under the
-- token, the way to the final state is open, and the new event's ID is unused.
pub record IsGood (held : RunStep) (token event_id : ℕ) (run : AuditRun) (db : Db) : Type 0 where
  pub has_token : held.claim_token ≡ some token
  pub on_record : Memᴰ run db.runs
  pub same : run.id ≡ held.run_id
  pub version : run.version ≡ held.expected_run_version
  pub row : RunStep
  pub step : Memᴰ row db.steps
  pub runs_on : held_by held.id token row ≡ true
  pub edge : run.state ⟶ final_state_of held run
  pub unused : any_where (λ e. e.id == event_id) db.outbox ≡ false

module _ (held : RunStep) (token event_id now : ℕ) (run : AuditRun) (db : Db) (c : IsConsistent db)
    (g : IsGood held token event_id run db) where
  abbrev moved : AuditRun
  moved = advanced run (final_state_of held run) now

  abbrev runs_after : List AuditRun
  runs_after = update_where (at_version run.id run.version) (saved_over moved) db.runs

  abbrev stepped : Db
  stepped = record db {
    steps =
        update_where (held_by held.id token)
          (completed_row (run.version + 1) now (final_state_of held run)) db.steps;
  }

  abbrev saved : Db
  saved = record stepped { runs = runs_after }
