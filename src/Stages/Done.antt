-- ===== src/Stages/Done.antt =====
-- A dynamic stage that returns has had its action carried out.
use shadowops.Prelude.{
  ◌≡◌, refl, sym, ap, subst, ◌∙◌, inl, inr, String, Bool, true, false, ◌&&◌, Option, none, some,
  Bool-cases, arith,
}
use mathlib.Core.Option.{some-injective}
use shadowops.Domain.Lifecycle.{
  RunState, baseline_ready, applying, seeding, smoke_testing, rollback_verifying,
}
use shadowops.Revisions.{RevisionGraph}
use shadowops.Worker.{Outcome, returned, Process, Task, ◌>>=◌}
use shadowops.Worker.Sequence.{>>=-returned}
use shadowops.Stages.{
  RunnerAction, upgrade_baseline, apply_target, load_test_data, run_smoke_checks,
  verify_rollback_roundtrip, or_text, RunnerRequest, RunnerResult, RunnerStatus, succeeded,
  has_failed, has_fields, names_fit, action_body, require_success, last_of, with_target, run_action,
  validated, request_for, baseline_upgrade, apply_migrations, seed_data, smoke_checks,
  rollback_roundtrip, dynamic_handler,
}
use shadowops.Stages.Cleanup.{with_cleanup-returned, target_runs}

-- The action that a stage stands for.
unfoldable pub action_of : RunState → Option RunnerAction
action_of baseline_ready = some upgrade_baseline
action_of applying = some apply_target
action_of seeding = some load_test_data
action_of smoke_testing = some run_smoke_checks
action_of rollback_verifying = some verify_rollback_roundtrip
action_of _ = none

-- The last thing that was done is that the runner answered a request for the action, which has the
-- fields of the action, with success.
pub record CarriedOut (execute : RunnerRequest → Task RunnerResult) (action : RunnerAction)
    (w' : Process) : Type 0 where
  pub request : RunnerRequest
  pub result : RunnerResult
  pub before : Process
  pub answered : execute request before ≡ (returned result, w')
  pub asked : request.action ≡ action
  pub complete : has_fields request ≡ true
  pub success : result.status ≡ succeeded

not_failed : (s : RunnerStatus) → has_failed s ≡ false → s ≡ succeeded
unfolding has_failed
not_failed succeeded h = refl
not_failed RunnerStatus.failed h = absurd (ground (arith, h))

validated-ok :
    (is_name : String → Bool) (request made : RunnerRequest) (w mid : Process)
    → validated is_name request w ≡ (returned made, mid)
    → (has_fields request ≡ true) × (made ≡ request)
unfolding validated
validated-ok is_name request made w mid h =
    elim (Bool-cases (names_fit is_name request && has_fields request)) [
      | inl e ↦ (ground (arith, e), ground (arith, rw (validated, e) at h))
      | inr e ↦ absurd (ground (arith, rw (validated, e) at h))
    ]

module _ (is_name : String → Bool) (provision : Task (Unit {0}))
    (execute : RunnerRequest → Task RunnerResult) (cleanup collect checkpoint : Task (Unit {0}))
    (graph : RevisionGraph) (target : String) (last : last_of graph.target_chain ≡ some target)
    (w w' : Process) where
  body-CarriedOut :
      (request : RunnerRequest) (code detail : String) (u : Unit {0})
      → action_body is_name provision execute cleanup collect checkpoint request code detail w
        ≡ (returned u, w')
      → CarriedOut execute request.action w'
  unfolding action_body require_success
  body-CarriedOut request code detail u h =
      let (made, m1, e1, h1) =
        >>=-returned (validated is_name request)
          (λ made. execute made >>= (λ r.
            require_success is_name provision execute cleanup collect checkpoint code detail r))
          w h in
      let (complete, same) = validated-ok is_name request made w m1 e1 in
      let (result, m2, e2, h2) =
        >>=-returned (execute made)
          (λ r. require_success is_name provision execute cleanup collect checkpoint code detail r)
          m1 h1 in
      let answered : execute request m1 ≡ (returned result, m2) =
        ap (λ r. execute r m1) (sym same) ∙ e2 in
      elim (Bool-cases (has_failed result.status)) [
        | inl t ↦ absurd (ground (arith, rw (require_success, t) at h2))
        | inr t ↦
            let at : m2 ≡ w' = ground (arith, rw (require_success, t) at h2) in
            record {
              request = request;
              result = result;
              before = m1;
              answered = answered ∙ ap (λ m. (returned result, m)) at;
              asked = refl;
              complete = complete;
              success = not_failed result.status t;
            }
      ]

  action-CarriedOut :
      (request : RevisionGraph → String → RunnerRequest) (code detail absent : String)
      (handler : Task (Unit {0})) (u : Unit {0})
      → some (
          with_target (some graph) absent (λ g t.
            run_action is_name provision execute cleanup collect checkpoint
              (request g t)
              code
              detail))
        ≡ some handler
      → handler w ≡ (returned u, w')
      → CarriedOut execute (request graph target).action w'
  unfolding run_action
  action-CarriedOut request code detail absent handler u q h =
      let stage = λ (g : RevisionGraph) (t : String).
        run_action is_name provision execute cleanup collect checkpoint (request g t) code detail in
      let here =
        subst (λ k. ◌≡◌ {A = Outcome (Unit {0}) × Process} (k w) (returned u, w'))
          (sym (some-injective (with_target (some graph) absent stage) handler q)) h in
      body-CarriedOut (request graph target) code detail u (
        with_cleanup-returned
          (action_body is_name provision execute cleanup collect checkpoint (request graph target)
            code detail)
          cleanup w w' u
          (target_runs cleanup cleanup w w' graph target absent stage (returned u) last here))

-- Where a dynamic stage that stands for an action, with a graph that has a target, returns, the
-- last thing done is that the runner answered a request for this action with success.
pub dynamic-CarriedOut :
    (is_name : String → Bool) (provision : Task (Unit {0}))
    (execute : RunnerRequest → Task RunnerResult) (cleanup collect checkpoint : Task (Unit {0}))
    (has_snapshot : Bool) (graph : RevisionGraph) (target : String) (state : RunState)
    (action : RunnerAction) (handler : Task (Unit {0})) (w w' : Process) (u : Unit {0})
    → action_of state ≡ some action
    → dynamic_handler is_name provision execute cleanup collect checkpoint has_snapshot
        (some graph)
        state
      ≡ some handler
    → last_of graph.target_chain ≡ some target
    → handler w ≡ (returned u, w')
    → CarriedOut execute action w'
unfolding dynamic_handler baseline_upgrade apply_migrations seed_data smoke_checks
    rollback_roundtrip action_of request_for
dynamic-CarriedOut is_name provision execute cleanup collect checkpoint has_snapshot graph target
      state action handler w w' u is_action at last h =
    go state is_action at
  where
    go :
        (s : RunState)
        → action_of s ≡ some action
        → dynamic_handler is_name provision execute cleanup collect checkpoint has_snapshot
            (some graph)
            s
          ≡ some handler
        → CarriedOut execute action w'
    go baseline_ready a q =
        subst (λ x. CarriedOut execute x w') (some-injective upgrade_baseline action a)
          (action-CarriedOut is_name provision execute cleanup collect checkpoint graph target last
            w w' (λ g t. request_for upgrade_baseline (or_text g.baseline_revision "base") none)
            "MIGRATION_FAILED" "Baseline migration failed" "Baseline revision is unavailable"
            handler u q h)
    go applying a q =
        subst (λ x. CarriedOut execute x w') (some-injective apply_target action a)
          (action-CarriedOut is_name provision execute cleanup collect checkpoint graph target last
            w w' (λ g t. request_for apply_target t none) "MIGRATION_FAILED"
            "Target migration failed" "Target revision is unavailable" handler u q h)
    go seeding a q =
        subst (λ x. CarriedOut execute x w') (some-injective load_test_data action a)
          (action-CarriedOut is_name provision execute cleanup collect checkpoint graph target last
            w w' (λ g t. request_for load_test_data t (some (or_text g.baseline_revision "base")))
            "SEED_FAILED" "Deterministic seed failed" "Target revision is unavailable" handler u q
            h)
    go smoke_testing a q =
        subst (λ x. CarriedOut execute x w') (some-injective run_smoke_checks action a)
          (action-CarriedOut is_name provision execute cleanup collect checkpoint graph target last
            w w' (λ g t. request_for run_smoke_checks t none) "SMOKE_CHECK_FAILED"
            "Smoke checks failed" "Target revision is unavailable" handler u q h)
    go rollback_verifying a q =
        subst (λ x. CarriedOut execute x w') (some-injective verify_rollback_roundtrip action a)
          (action-CarriedOut is_name provision execute cleanup collect checkpoint graph target last
            w w'
            (λ g t.
              request_for verify_rollback_roundtrip t (some (or_text g.baseline_revision "base")))
            "ROLLBACK_FAILED" "Rollback roundtrip failed" "Target revision is unavailable" handler u
            q h)
    go _ a q = absurd (ground (arith, a))
