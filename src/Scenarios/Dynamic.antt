-- ===== src/Scenarios/Dynamic.antt =====
-- The stage that applies the target, with a runner that answers and with one that fails.
use shadowops.Prelude.{◌≡◌, refl, String, Bool, true, none, some, [], ◌∷◌}
use shadowops.Domain.Lifecycle.{RunState}
use shadowops.Domain.Errors.{repository_input_error}
use shadowops.Workflow.History.{empty}
use shadowops.Worker.{Process, Task, returned, raised, failure, Raised, finalize_run, pure, effect}
use shadowops.Stages.{
  RunnerRequest, RunnerResult, succeeded, failed, apply_target, apply_migrations, dynamic_handler,
  last_of,
}
use shadowops.Stages.Cleanup.{dynamic-CleanedUp, CleanedUp}
use shadowops.Stages.Done.{dynamic-CarriedOut, CarriedOut, action_of}
use shadowops.Scenarios.Graphs.{graph}

abbrev idle : Process
idle = record { db = empty; turn = 0; effects = [] }

abbrev any_name : String → Bool
any_name revision = true

abbrev done : Task (Unit {0})
done = pure tt

abbrev answers : RunnerRequest → Task RunnerResult
answers request = pure (record { status = succeeded; error_code = none; error_detail = none })

abbrev fails : RunnerRequest → Task RunnerResult
fails request = pure (record { status = failed; error_code = none; error_detail = none })

abbrev gives_up : Task (Unit {0})
gives_up = effect (finalize_run 3)

abbrev after_failure : Process
after_failure = record idle { effects = finalize_run 3 ∷ [] }

abbrev failure_said : Raised
failure_said = failure (repository_input_error "MIGRATION_FAILED" "Target migration failed")

has_target : last_of graph.target_chain ≡ some "a3"
unfolding last_of
has_target = refl

fails_there :
    apply_migrations any_name done fails gives_up done done (some graph) idle
    ≡ (raised failure_said, after_failure)
unfolding apply_migrations effect
fails_there = refl

answers_there :
    apply_migrations any_name done answers gives_up done done (some graph) idle
    ≡ (returned tt, idle)
unfolding apply_migrations effect
answers_there = refl

dynamic-CleanedUp_example : CleanedUp gives_up after_failure
unfolding dynamic_handler
dynamic-CleanedUp_example =
    dynamic-CleanedUp any_name done fails gives_up done done graph "a3" RunState.applying
      (apply_migrations any_name done fails gives_up done done (some graph)) idle after_failure
      failure_said refl refl has_target fails_there

dynamic-CarriedOut_example : CarriedOut answers apply_target idle
unfolding dynamic_handler action_of
dynamic-CarriedOut_example =
    dynamic-CarriedOut any_name done answers gives_up done done true graph "a3" RunState.applying
      apply_target (apply_migrations any_name done answers gives_up done done (some graph)) idle
      idle tt refl refl has_target answers_there
