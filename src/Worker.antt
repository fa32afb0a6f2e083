-- ===== src/Worker.antt =====
-- src/shadowops/worker/tasks.py: `process_run_event`, the task that runs one stage of a run. Its
-- calls of the execution service are separate transactions, and before each of them the other
-- processes have had their turn.
pub mod Sequence
pub mod Inversion
pub mod Meaning
pub mod Reports
use shadowops.Prelude.{
  ℕ, suc, String, Bool, true, false, Option, none, some, List, [], ◌∷◌, if◌then◌else◌,
}
use shadowops.Domain.Lifecycle.{
  RunState, applying, seeding, smoke_testing, rollback_verifying, reporting,
}
use shadowops.Domain.Errors.{
  Failure, repository_input_error, immutable_result_conflict, claim_lost_error, Result, ok, err,
}
use shadowops.Domain.Rows.{AuditRun, RunStep}
use shadowops.Domain.Run.{is_some}
use shadowops.Plan.Validator.{joined}
use shadowops.Store.Database.{Db}
use shadowops.Execution
use shadowops.Execution.{ClaimInput}

-- What an exception is: the control signal of a checkpoint, or a failure.
pub data Raised : Type 0 where
  run_cancellation_requested : Raised
  failure : Failure → Raised

pub data Outcome {ℓ} (A : Type ℓ) : Type ℓ where
  returned : A → Outcome A
  raised : Raised → Outcome A

-- What the task asks of the sandbox manager and the evidence collector.
pub data Effect : Type 0 where
  finalize_run : ℕ → Effect
  collect : ℕ → Effect

-- What happens at a transaction of the task: what the others did before it, the clock, and the
-- new UUIDs.
pub record Turn : Type 0 where
  pub others : Db → Db
  pub now : ℕ
  pub step_id : ℕ
  pub claim_token : ℕ
  pub event_id : ℕ

-- The database, the number of transactions so far, and the effects, the latest first.
pub record Process : Type 0 where
  pub db : Db
  pub turn : ℕ
  pub effects : List Effect

abbrev pub Task {ℓ} : Type ℓ → Type ℓ
Task A = Process → Outcome A × Process

-- One run of a stage handler, as the task sees it: it calls its checkpoint some times, whose
-- exceptions it passes on, and returns or raises.
pub data Stage : Type 0 where
  returns : Stage
  raises : Failure → Stage
  checks : Stage → Stage

pub data Answer : Type 0 where
  ignored : Answer
  completed : AuditRun → Answer
  failed : AuditRun → String → Answer

infixl 5 ◌>>=◌ ◌>>◌
unfoldable pub ◌>>=◌ {ℓ κ} : {A : Type ℓ} {B : Type κ} → Task A → (A → Task B) → Task B
◌>>=◌ m f w = let (o, w') = m w in elim o [ returned a ↦ f a w' | raised e ↦ (raised e, w') ]

unfoldable pub ◌>>◌ {ℓ κ} : {A : Type ℓ} {B : Type κ} → Task A → Task B → Task B
unfolding ◌>>=◌
m >> k = m >>= (λ _. k)

abbrev pub pure {ℓ} : {A : Type ℓ} → A → Task A
pure a w = (returned a, w)

abbrev pub raise {ℓ} : {A : Type ℓ} → Raised → Task A
raise e w = (raised e, w)

-- The body of a `try`.
unfoldable pub attempt {ℓ} : {A : Type ℓ} → Task A → Task (Outcome A)
attempt m w = let (o, w') = m w in (returned o, w')

abbrev pub outcome_of {ℓ} : {A : Type ℓ} → Result A → Outcome A
outcome_of (ok a) = returned a
outcome_of (err e) = raised (failure e)

-- The code and the text of a `RepositoryInputError`.
unfoldable pub input_error : Failure → Option (String × String)
input_error (repository_input_error code detail) = some (code, detail)
input_error (immutable_result_conflict result) = some (
  "SNAPSHOT_INTEGRITY_FAILED",
  joined "Existing " (joined result " does not match the computed immutable result"),
)
input_error _ = none

unfoldable pub is_claim_lost : Raised → Bool
is_claim_lost (failure (claim_lost_error _)) = true
is_claim_lost _ = false

-- `_DYNAMIC_EVIDENCE_STATES`
unfoldable pub is_dynamic : RunState → Bool
is_dynamic applying = true
is_dynamic seeding = true
is_dynamic smoke_testing = true
is_dynamic rollback_verifying = true
is_dynamic reporting = true
is_dynamic _ = false

unfoldable pub effect : Effect → Task (Unit {0})
effect e w = (returned tt, record w { effects = e ∷ w.effects })

unfoldable pub run_stage : Task (Unit {0}) → Stage → Task (Unit {0})
unfolding ◌>>◌
run_stage checkpoint returns = pure tt
run_stage checkpoint (raises e) = raise (failure e)
run_stage checkpoint (checks rest) = checkpoint >> run_stage checkpoint rest

-- `except ClaimLostError: return {"status": "ignored", …}`
unfoldable pub unless_lost : (AuditRun → Answer) → Outcome AuditRun → Task Answer
unfolding is_claim_lost
unless_lost answer (returned run) = pure (answer run)
unless_lost answer (raised e) = if is_claim_lost e then pure ignored else raise e

-- What the task has from its surroundings: the turns, the handlers, the exceptions with which the
-- sandbox manager finalizes a run, and the lease duration.
module _ (turns : ℕ → Turn) (handlers : RunState → AuditRun → Stage) (sandbox : ℕ → Option Failure)
    (lease_duration : ℕ) where
  unfoldable pub call : {A : Type 0} → (Turn → Db → Result A × Db) → Task A
  call service w =
      let turn = turns w.turn in
      let (r, db') = service turn (turn.others w.db) in
      (outcome_of r, record w { db = db'; turn = suc w.turn })

  unfoldable pub heartbeat_of : RunStep → Task Bool
  unfolding call
  heartbeat_of held = call (λ t. Execution.heartbeat held t.now lease_duration)

  unfoldable pub current_run : RunStep → Task AuditRun
  unfolding call
  current_run held = call (λ t. Execution.get_run_for_claim held)

  unfoldable pub finalized : RunStep → Task AuditRun
  unfolding call
  finalized held = call (λ t. Execution.finalize held t.event_id t.now)

  unfoldable pub failed_with : RunStep → String → String → Task AuditRun
  unfolding call
  failed_with held code detail = call (λ t. Execution.fail held t.now code detail)

  unfoldable pub checkpoint : RunStep → Task (Unit {0})
  unfolding ◌>>=◌ heartbeat_of current_run is_some
  checkpoint held = do
    renewed ← heartbeat_of held
    if renewed
        then (do
          run ← current_run held
          if is_some run.cancel_requested_at then raise run_cancellation_requested else pure tt)
        else raise (failure (claim_lost_error held.id))

  -- `get_sandbox_manager().finalize_run(run.id)`
  unfoldable pub clean_up : ℕ → Task (Unit {0})
  unfolding ◌>>◌ effect
  clean_up run_id =
      effect (finalize_run run_id)
      >> (elim (sandbox run_id) [ none ↦ pure tt | some e ↦ raise (failure e) ])

  unfoldable pub stage_of : RunStep → AuditRun → Task (Unit {0})
  unfolding ◌>>◌ run_stage checkpoint clean_up is_some
  stage_of held run =
      if is_some run.cancel_requested_at
      then clean_up run.id
      else (run_stage (checkpoint held) (handlers held.to_state run) >> checkpoint held)

  -- What the `try` holds.
  unfoldable pub guarded : RunStep → Task AuditRun
  unfolding ◌>>=◌ ◌>>◌ current_run stage_of finalized
  guarded held = do run ← current_run held; stage_of held run; finalized held

  unfoldable pub collect_evidence : RunStep → Task (Unit {0})
  unfolding effect is_dynamic
  collect_evidence held = if is_dynamic held.to_state then effect (collect held.run_id) else pure tt

  unfoldable pub on_failure : RunStep → Failure → Option (String × String) → Task Answer
  unfolding ◌>>=◌ ◌>>◌ attempt collect_evidence failed_with unless_lost is_claim_lost
  on_failure held e (some (code, detail)) = do
    collect_evidence held
    o ← attempt (failed_with held code detail)
    unless_lost (λ run. failed run code) o
  on_failure held e none = if is_claim_lost (failure e) then pure ignored else raise (failure e)

  -- The `except` clauses and the last `return`.
  unfoldable pub handle : RunStep → Outcome AuditRun → Task Answer
  unfolding ◌>>=◌ ◌>>◌ attempt collect_evidence finalized unless_lost on_failure input_error
  handle held (returned run) = pure (completed run)
  handle held (raised run_cancellation_requested) = do
    collect_evidence held
    o ← attempt (finalized held)
    unless_lost completed o
  handle held (raised (failure e)) = on_failure held e (input_error e)

  unfoldable pub process_claim : Option RunStep → Task Answer
  unfolding ◌>>=◌ heartbeat_of attempt guarded handle
  process_claim none = pure ignored
  process_claim (some held) = do
    renewed ← heartbeat_of held
    if renewed then (do o ← attempt (guarded held); handle held o) else pure ignored

  unfoldable pub claim_input : String → Turn → ClaimInput
  claim_input worker_id t = record {
    worker_id = worker_id;
    now = t.now;
    step_id = t.step_id;
    claim_token = t.claim_token;
    lease_duration = lease_duration;
  }

  unfoldable pub process_run_event : ℕ → String → Task Answer
  unfolding ◌>>=◌ call process_claim claim_input
  process_run_event event_id worker_id = do
    claimed ← call (λ t. Execution.claim event_id (claim_input worker_id t))
    process_claim claimed
