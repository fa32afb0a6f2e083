-- ===== src/Domain/Run.antt =====
-- src/shadowops/domain/runs.py: the methods of `AuditRun`. A method that changes the run returns
-- the new run.
pub mod Edges
pub mod Laws
use shadowops.Prelude.{
  ℕ, ◌+◌, Bool, true, false, ◌||◌, Option, none, some, List, [], ◌∷◌, ◌++◌, ◌==◌, not,
  if◌then◌else◌,
}
use shadowops.Domain.Lifecycle.{
  RunState, failed, cancelled, is_terminal, contains_state, normal_transitions, state_eq,
}
use shadowops.Domain.Errors.{
  Result, ok, err, invalid_state_transition, terminal_run_error, optimistic_concurrency_error,
}
use shadowops.Domain.Rows.{AuditRun}

unfoldable pub is_some {ℓ} : {A : Type ℓ} → Option A → Bool
is_some none = false
is_some (some _) = true

-- The local variable `allowed`.
unfoldable pub allowed_targets : RunState → List RunState
unfolding normal_transitions is_terminal
allowed_targets s =
    normal_transitions s
    ++ (if is_terminal s then [] else RunState.failed ∷ RunState.cancelled ∷ [])

-- `target in allowed`
unfoldable pub is_allowed : RunState → RunState → Bool
unfolding contains_state allowed_targets
is_allowed s target = contains_state target (allowed_targets s)

unfoldable pub transition : AuditRun → RunState → ℕ → Result AuditRun
transition run target now =
    if is_allowed run.state target
    then ok (record run {
      state = target;
      version = run.version + 1;
      updated_at = now;
      completed_at = if is_terminal target then some now else run.completed_at;
    })
    else err (invalid_state_transition run.state target)

unfoldable pub request_cancel : AuditRun → ℕ → ℕ → Result AuditRun
unfolding is_some
request_cancel run expected_version now =
    if state_eq run.state RunState.cancelled || is_some run.cancel_requested_at
    then ok run
    else if is_terminal run.state
    then err (terminal_run_error run.id run.state)
    else if not (run.version == expected_version)
    then err (optimistic_concurrency_error run.id expected_version)
    else ok (record run { cancel_requested_at = some now; updated_at = now })
