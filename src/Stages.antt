-- ===== src/Stages.antt =====
-- src/shadowops/application/dynamic_audit.py: the handlers of the dynamic stages, and the requests of
-- sandbox/contracts.py that they make. What the sandbox manager and the evidence collector do is
-- a parameter, and so are the checkpoint and the test on the name of a revision, its length and
-- pattern.
pub mod Cleanup
pub mod Done
pub mod Stored
pub mod Kept
use shadowops.Prelude.{
  ℕ, String, Bool, true, false, ◌&&◌, not, Option, none, some, List, [], ◌∷◌, str_eq, if◌then◌else◌,
}
use shadowops.Domain.Lifecycle.{
  RunState, provisioning, baseline_ready, applying, seeding, smoke_testing, rollback_verifying,
  reporting,
}
use shadowops.Domain.Errors.{Failure, repository_input_error, runtime_error}
use shadowops.Domain.Run.{is_some}
use shadowops.Revisions.{RevisionGraph}
use shadowops.Worker.{
  Outcome, returned, raised, failure, Raised, Task, ◌>>=◌, ◌>>◌, pure, raise, attempt,
}

pub data RunnerAction : Type 0 where
  upgrade_baseline apply_target load_test_data run_smoke_checks verify_rollback_roundtrip :
      RunnerAction

pub data RunnerStatus : Type 0 where
  succeeded failed : RunnerStatus

pub record RunnerRequest : Type 0 where
  pub action : RunnerAction
  pub revision : String
  pub baseline_revision : Option String
  pub statement_timeout_ms : ℕ
  pub output_limit_bytes : ℕ

-- The part of a result that the stages look at.
pub record RunnerResult : Type 0 where
  pub status : RunnerStatus
  pub error_code : Option String
  pub error_detail : Option String

unfoldable pub has_failed : RunnerStatus → Bool
has_failed failed = true
has_failed succeeded = false

-- `text or default`
unfoldable pub or_text : Option String → String → String
or_text none default = default
or_text (some t) default = if str_eq t "" then default else t

unfoldable pub last_of : List String → Option String
last_of [] = none
last_of (x ∷ []) = some x
last_of (x ∷ y ∷ rest) = last_of (y ∷ rest)

unfoldable pub takes_baseline : RunnerAction → Bool
takes_baseline load_test_data = true
takes_baseline verify_rollback_roundtrip = true
takes_baseline _ = false

-- `validate_action_fields`
unfoldable pub has_fields : RunnerRequest → Bool
unfolding takes_baseline is_some
has_fields request =
    if takes_baseline request.action
    then is_some request.baseline_revision
    else not (is_some request.baseline_revision)

-- A request as the handlers make it, with their timeout and their limit.
unfoldable pub request_for : RunnerAction → String → Option String → RunnerRequest
request_for action revision baseline = record {
  action = action;
  revision = revision;
  baseline_revision = baseline;
  statement_timeout_ms = 30000;
  output_limit_bytes = 65536;
}

module _ (is_name : String → Bool) where
  unfoldable pub names_fit : RunnerRequest → Bool
  names_fit request =
      is_name request.revision
      && (elim request.baseline_revision [ none ↦ true | some b ↦ is_name b ])

  -- A request that the contract refuses is a ValidationError.
  unfoldable pub validated : RunnerRequest → Task RunnerRequest
  unfolding names_fit has_fields
  validated request =
      if names_fit request && has_fields request
      then pure request
      else raise (failure (runtime_error "ValidationError"))

-- `except BaseException: finalize; raise`; an exception of the clean-up takes the place of the first.
unfoldable pub with_cleanup : Task (Unit {0}) → Task (Unit {0}) → Task (Unit {0})
unfolding ◌>>=◌ ◌>>◌ attempt
with_cleanup body cleanup = do
  o ← attempt body
  elim o [ returned u ↦ pure u | raised e ↦ cleanup >> raise e ]

-- `finally: finalize`
unfoldable pub finally : Task (Unit {0}) → Task (Unit {0}) → Task (Unit {0})
unfolding ◌>>=◌ ◌>>◌ attempt
finally body cleanup = do
  o ← attempt body
  elim o [ returned u ↦ cleanup | raised e ↦ cleanup >> raise e ]

unsupported : String → Task (Unit {0})
unsupported detail = raise (failure (repository_input_error "UNSUPPORTED_REPOSITORY" detail))

-- `graph is None or not graph.target_chain`, and the last revision of the chain.
unfoldable pub with_target :
    Option RevisionGraph → String → (RevisionGraph → String → Task (Unit {0})) → Task (Unit {0})
unfolding unsupported last_of
with_target none detail stage = unsupported detail
with_target (some graph) detail stage = elim (last_of graph.target_chain) [
  | none ↦ unsupported detail
  | some target ↦ stage graph target
]

-- The manager's operations for one run.
module _ (is_name : String → Bool) (provision : Task (Unit {0}))
    (execute : RunnerRequest → Task RunnerResult)
    (cleanup collect checkpoint : Task (Unit {0})) where
  -- `if execution.result.status is RunnerStatus.FAILED: raise …`
  unfoldable pub require_success : String → String → RunnerResult → Task (Unit {0})
  unfolding has_failed or_text
  require_success code detail result =
      if has_failed result.status
      then raise (
          failure (
            repository_input_error (or_text result.error_code code)
              (or_text result.error_detail detail)))
      else pure tt

  -- The request is made and sent, and its failure raised.
  unfoldable pub action_body : RunnerRequest → String → String → Task (Unit {0})
  unfolding ◌>>=◌ validated require_success
  action_body request code detail = do
    made ← validated is_name request
    result ← execute made
    require_success code detail result

  -- The same, with the clean-up behind any exception.
  unfoldable pub run_action : RunnerRequest → String → String → Task (Unit {0})
  unfolding with_cleanup action_body
  run_action request code detail = with_cleanup (action_body request code detail) cleanup

  unfoldable pub provision_shadow : Bool → Option RevisionGraph → Task (Unit {0})
  unfolding ◌>>◌ with_cleanup with_target unsupported
  provision_shadow has_snapshot none =
      unsupported "Dynamic audit requires a supported immutable revision graph"
  provision_shadow has_snapshot (some graph) =
      if has_snapshot && graph.supported
      then with_target (some graph) "Dynamic audit requires baseline and target revisions"
          (λ graph target. with_cleanup (provision >> checkpoint) cleanup)
      else unsupported "Dynamic audit requires a supported immutable revision graph"

  unfoldable pub baseline_upgrade : Option RevisionGraph → Task (Unit {0})
  unfolding with_target run_action request_for or_text
  baseline_upgrade found = with_target found "Baseline revision is unavailable" λ graph target.
      run_action (request_for upgrade_baseline (or_text graph.baseline_revision "base") none)
        "MIGRATION_FAILED" "Baseline migration failed"

  unfoldable pub apply_migrations : Option RevisionGraph → Task (Unit {0})
  unfolding with_target run_action request_for
  apply_migrations found = with_target found "Target revision is unavailable" λ graph target.
      run_action (request_for apply_target target none) "MIGRATION_FAILED" "Target migration failed"

  unfoldable pub seed_data : Option RevisionGraph → Task (Unit {0})
  unfolding with_target run_action request_for or_text
  seed_data found = with_target found "Target revision is unavailable" λ graph target.
      run_action (request_for load_test_data target (some (or_text graph.baseline_revision "base")))
        "SEED_FAILED" "Deterministic seed failed"

  unfoldable pub smoke_checks : Option RevisionGraph → Task (Unit {0})
  unfolding with_target run_action request_for
  smoke_checks found = with_target found "Target revision is unavailable" λ graph target.
      run_action (request_for run_smoke_checks target none) "SMOKE_CHECK_FAILED"
        "Smoke checks failed"

  unfoldable pub rollback_roundtrip : Option RevisionGraph → Task (Unit {0})
  unfolding with_target run_action request_for or_text
  rollback_roundtrip found = with_target found "Target revision is unavailable" λ graph target.
      run_action
        (request_for verify_rollback_roundtrip target
          (some (or_text graph.baseline_revision "base")))
        "ROLLBACK_FAILED" "Rollback roundtrip failed"

  unfoldable pub collecting : Task (Unit {0})
  unfolding ◌>>=◌ attempt
  collecting = do
    o ← attempt collect
    elim o [
      | returned u ↦ pure u
      | raised e ↦ raise (
          failure (
            repository_input_error "EVIDENCE_COLLECTION_FAILED"
              "Dynamic evidence could not be committed to the artifact store"))
    ]

  unfoldable pub collect_stage : Task (Unit {0})
  unfolding ◌>>◌ finally collecting
  collect_stage = finally (checkpoint >> collecting) cleanup

  -- The handler of a dynamic stage, as `get_stage_handlers` of worker/runtime.py gives it.
  unfoldable pub dynamic_handler : Bool → Option RevisionGraph → RunState → Option (Task (Unit {0}))
  unfolding provision_shadow baseline_upgrade apply_migrations seed_data smoke_checks
      rollback_roundtrip collect_stage
  dynamic_handler has_snapshot found provisioning = some (provision_shadow has_snapshot found)
  dynamic_handler has_snapshot found baseline_ready = some (baseline_upgrade found)
  dynamic_handler has_snapshot found applying = some (apply_migrations found)
  dynamic_handler has_snapshot found seeding = some (seed_data found)
  dynamic_handler has_snapshot found smoke_testing = some (smoke_checks found)
  dynamic_handler has_snapshot found rollback_verifying = some (rollback_roundtrip found)
  dynamic_handler has_snapshot found reporting = some collect_stage
  dynamic_handler has_snapshot found _ = none
