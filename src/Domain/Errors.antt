-- ===== src/Domain/Errors.antt =====
-- src/shadowops/domain/errors.py, with the two failures that the control database and the code
-- itself can raise beside them.
use shadowops.Prelude.{ℕ, String, ◌≡◌, refl, ◌⊎◌, inl, inr}
use shadowops.Domain.Lifecycle.{RunState}

pub data Failure : Type 0 where
  repository_input_error : String → String → Failure
  invalid_state_transition : RunState → RunState → Failure
  optimistic_concurrency_error : ℕ → ℕ → Failure
  idempotency_conflict_error : String → Failure
  run_not_found_error : ℕ → Failure
  claim_lost_error : ℕ → Failure
  terminal_run_error : ℕ → RunState → Failure
  immutable_result_conflict : String → Failure
  static_report_not_ready_error : ℕ → Failure
  audit_plan_not_ready_error : ℕ → Failure
  dynamic_audit_not_ready_error : ℕ → Failure
  integrity_error : Failure
  runtime_error : String → Failure

-- A computation that returns a value or raises.
pub data Result {ℓ} (A : Type ℓ) : Type ℓ where
  ok : A → Result A
  err : Failure → Result A

pub Result-cases {ℓ} :
    {A : Type ℓ} (r : Result A) → ((a : A) × (r ≡ ok a)) ⊎ ((e : Failure) × (r ≡ err e))
Result-cases (ok a) = inl (a, refl)
Result-cases (err e) = inr (e, refl)
