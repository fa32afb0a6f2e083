-- ===== src/Worker/Meaning.antt =====
-- What the answers of a task mean.
use shadowops.Prelude.{ℕ, ◌≡◌, true, false, Option, none, some, String, Memᴰ}
use shadowops.Domain.Lifecycle.{RunState}
use shadowops.Domain.Errors.{Failure}
use shadowops.Domain.Rows.{AuditRun, RunStep}
use shadowops.Store.Database.{Db}
use shadowops.Execution
use shadowops.Execution.Finished.{Finishes}
use shadowops.Execution.Record.{Closed}
use shadowops.Worker.{
  Raised, failure, returned, raised, collect, Turn, Process, Stage, Answer, ignored, completed,
  failed, is_claim_lost, is_dynamic, input_error, call, claim_input, heartbeat_of, finalized,
  failed_with, guarded,
}
use shadowops.Worker.Inversion.{Over}

-- The claim was finished at this turn, by a transaction that found the tables as `db`: its run was at
-- the version of the claim, and the tables that the task leaves show what became of it.
pub record Finalizes (held : RunStep) (turn : Turn) (db : Db) (done : AuditRun) (db' : Db)
    : Type 0 where
  pub run : AuditRun
  pub found : Memᴰ run db.runs
  pub same : run.id ≡ held.run_id
  pub version : run.version ≡ held.expected_run_version
  pub finishes : Finishes held turn.event_id turn.now run done db db'

module _ (turns : ℕ → Turn) (handlers : RunState → AuditRun → Stage) (sandbox : ℕ → Option Failure)
    (lease_duration : ℕ) where
  -- Some call of the task was refused because the claim is lost.
  pub data Loses (held : RunStep) (begun : Process) : Type 0 where
    at_work :
        (e : Raised) (left : Process)
        → guarded turns handlers sandbox lease_duration held begun ≡ (raised e, left)
        → is_claim_lost e ≡ true
        → Loses held begun
    at_finalize :
        (e : Raised) (w left : Process)
        → finalized turns handlers sandbox lease_duration held w ≡ (raised e, left)
        → is_claim_lost e ≡ true
        → Loses held begun
    at_fail :
        (e : Raised) (w left : Process) (code detail : String)
        → failed_with turns handlers sandbox lease_duration held code detail w ≡ (raised e, left)
        → is_claim_lost e ≡ true
        → Loses held begun

  -- What an answer of a claim says, where the task began its work in `begun` and left `w'`.
  pub data Reports (held : RunStep) (begun w' : Process) : Answer → Type 0 where
    lost : Loses held begun → Reports held begun w' ignored
    done :
        (run : AuditRun) (end : Process)
        → Over turns handlers sandbox lease_duration held begun end
        → finalized turns handlers sandbox lease_duration held end ≡ (returned run, w')
        → Finalizes held (turns end.turn) ((turns end.turn).others end.db) run w'.db
        → Reports held begun w' (completed run)
    gave_up :
        (run : AuditRun) (code detail : String) (e : Failure) (left end : Process)
        → guarded turns handlers sandbox lease_duration held begun ≡ (raised (failure e), left)
        → input_error e ≡ some (code, detail)
        → (is_dynamic held.to_state ≡ true → Memᴰ (collect held.run_id) end.effects)
        → failed_with turns handlers sandbox lease_duration held code detail end
          ≡ (returned run, w')
        → Closed held run w'.db
        → run.state ≡ RunState.failed
        → run.failure_code ≡ some code
        → Reports held begun w' (failed run code)

  -- The claim of the task, and the heartbeat that renewed it.
  pub record Taken (event_id : ℕ) (worker_id : String) (held : RunStep) (w begun : Process)
      : Type 0 where
    pub mid : Process
    pub claimed :
        call turns handlers sandbox lease_duration
          (λ t.
            Execution.claim event_id
              (claim_input turns handlers sandbox lease_duration worker_id t))
          w
        ≡ (returned (some held), mid)
    pub renewed :
        heartbeat_of turns handlers sandbox lease_duration held mid ≡ (returned true, begun)

  -- What an answer of the task says.
  pub data Answers (event_id : ℕ) (worker_id : String) (w w' : Process) : Answer → Type 0 where
    unclaimed :
        call turns handlers sandbox lease_duration
            (λ t.
              Execution.claim event_id
                (claim_input turns handlers sandbox lease_duration worker_id t))
            w
          ≡ (returned none, w')
        → Answers event_id worker_id w w' ignored
    unrenewed :
        (held : RunStep) (mid : Process)
        → call turns handlers sandbox lease_duration
            (λ t.
              Execution.claim event_id
                (claim_input turns handlers sandbox lease_duration worker_id t))
            w
          ≡ (returned (some held), mid)
        → heartbeat_of turns handlers sandbox lease_duration held mid ≡ (returned false, w')
        → Answers event_id worker_id w w' ignored
    reports :
        (held : RunStep) (begun : Process) (answer : Answer)
        → Taken event_id worker_id held w begun
        → Reports held begun w' answer
        → Answers event_id worker_id w w' answer
