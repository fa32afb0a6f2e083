-- ===== src/Worker/Reports.antt =====
-- What a task reports has happened.
use shadowops.Prelude.{ℕ, ◌≡◌, Bool, Option, String, arith}
use shadowops.Domain.Lifecycle.{RunState}
use shadowops.Domain.Errors.{Failure}
use shadowops.Domain.Rows.{AuditRun, RunStep}
use shadowops.Execution
use shadowops.Worker.{
  Outcome, returned, Turn, Process, Task, Stage, Answer, completed, failed, ◌>>=◌, ◌>>◌, attempt,
  unless_lost, stage_of, finalized, failed_with,
}

module _ (turns : ℕ → Turn) (handlers : RunState → AuditRun → Stage) (sandbox : ℕ → Option Failure)
    (lease_duration : ℕ) where
  module _ (held : RunStep) where
    abbrev rest : AuditRun → Task AuditRun
    rest run =
        stage_of turns handlers sandbox lease_duration held run
        >> finalized turns handlers sandbox lease_duration held

    tried :
        {A : Type 0} (m : Task A) (w mid : Process) {o : Outcome A}
        → attempt m w ≡ (returned o, mid)
        → m w ≡ (o, mid)
    unfolding attempt
    tried m w mid h = ground (arith, h)

    -- The two ways on behind the evidence.
    abbrev finish_again : Task Answer
    finish_again =
        attempt (finalized turns handlers sandbox lease_duration held)
        >>= (λ o. unless_lost completed o)

    abbrev fail_with : String → String → Task Answer
    fail_with code detail =
        attempt (failed_with turns handlers sandbox lease_duration held code detail)
        >>= (λ o. unless_lost (λ run. failed run code) o)
