-- ===== src/Stages/Cleanup.antt =====
-- The sandbox is given up where a dynamic stage does not return.
use shadowops.Prelude.{◌≡◌, refl, sym, ap, subst, ◌∙◌, String, Bool, true, none, some, arith}
use mathlib.Core.Option.{some-injective}
use shadowops.Domain.Lifecycle.{
  RunState, provisioning, baseline_ready, applying, seeding, smoke_testing, rollback_verifying,
  reporting,
}
use shadowops.Revisions.{RevisionGraph}
use shadowops.Worker.{
  Raised, Outcome, returned, raised, Process, Task, ◌>>=◌, ◌>>◌, pure, raise, attempt,
}
use shadowops.Worker.Sequence.{>>=-returned}
use shadowops.Stages.{
  upgrade_baseline, apply_target, load_test_data, run_smoke_checks, verify_rollback_roundtrip,
  or_text, collecting, RunnerRequest, RunnerResult, action_body, last_of, with_cleanup, finally,
  with_target, run_action, request_for, provision_shadow, baseline_upgrade, apply_migrations,
  seed_data, smoke_checks, rollback_roundtrip, collect_stage, dynamic_handler,
}

-- The last thing that was done is the clean-up.
abbrev pub CleanedUp : Task (Unit {0}) → Process → Type 0
CleanedUp cleanup w' = (mid : Process) × ((cleanup mid).1 ≡ w')

module _ (body cleanup : Task (Unit {0})) (w w' : Process) where
  -- A clean-up that an exception is raised behind.
  then_raise :
      (e : Raised) (o : Outcome (Unit {0})) (mid : Process)
      → ◌≡◌ {A = Outcome (Unit {0}) × Process} ((cleanup >> raise e) mid) (o, w')
      → CleanedUp cleanup w'
  unfolding ◌>>◌ ◌>>=◌
  then_raise e o mid h = go (cleanup mid) refl h
    where
      go :
          (c : Outcome (Unit {0}) × Process)
          → cleanup mid ≡ c
          → ◌≡◌ {A = Outcome (Unit {0}) × Process}
              (elim c.0 as (λ _. Outcome (Unit {0}) × Process) [
                | returned u ↦ (raised e, c.1)
                | raised x ↦ (raised x, c.1)
              ])
              (o, w')
          → CleanedUp cleanup w'
      go (returned u, last) q r = (mid, ap (λ p. p.1) q ∙ ap (λ p. p.1) r)
      go (raised x, last) q r = (mid, ap (λ p. p.1) q ∙ ap (λ p. p.1) r)

  never_returns :
      (e : Raised) (u : Unit {0}) (mid : Process)
      → ◌≡◌ {A = Outcome (Unit {0}) × Process} ((cleanup >> raise e) mid) (returned u, w')
      → ⊥
  unfolding ◌>>◌
  never_returns e u mid h =
      let (v, last, _, q) = >>=-returned cleanup (λ _. raise e) mid h in absurd (ground (arith, q))

  abbrev Ends : Outcome (Unit {0}) → Type 0
  Ends o = ◌≡◌ {A = Outcome (Unit {0}) × Process} (with_cleanup body cleanup w) (o, w')

  with_cleanup-raised : (e : Raised) → Ends (raised e) → CleanedUp cleanup w'
  unfolding with_cleanup ◌>>=◌ attempt
  with_cleanup-raised e h = go (body w) refl h
    where
      go :
          (c : Outcome (Unit {0}) × Process)
          → body w ≡ c
          → ◌≡◌ {A = Outcome (Unit {0}) × Process}
              ((elim c.0 as (λ _. Task (Unit {0})) [
                | returned u ↦ pure u
                | raised x ↦ cleanup >> raise x
              ])
                c.1)
              (raised e, w')
          → CleanedUp cleanup w'
      go (returned u, mid) q r = absurd (ground (arith, r))
      go (raised x, mid) q r = then_raise x (raised e) mid r

  pub with_cleanup-returned : (u : Unit {0}) → Ends (returned u) → body w ≡ (returned u, w')
  unfolding with_cleanup ◌>>=◌ attempt
  with_cleanup-returned u h = go (body w) refl h
    where
      go :
          (c : Outcome (Unit {0}) × Process)
          → body w ≡ c
          → ◌≡◌ {A = Outcome (Unit {0}) × Process}
              ((elim c.0 as (λ _. Task (Unit {0})) [
                | returned u ↦ pure u
                | raised x ↦ cleanup >> raise x
              ])
                c.1)
              (returned u, w')
          → body w ≡ (returned u, w')
      go (returned v, mid) q r = q ∙ r
      go (raised x, mid) q r = absurd (never_returns x u mid r)

  finally-CleanedUp :
      (o : Outcome (Unit {0}))
      → ◌≡◌ {A = Outcome (Unit {0}) × Process} (finally body cleanup w) (o, w')
      → CleanedUp cleanup w'
  unfolding finally ◌>>=◌ attempt
  finally-CleanedUp o h = go (body w) refl h
    where
      go :
          (c : Outcome (Unit {0}) × Process)
          → body w ≡ c
          → ◌≡◌ {A = Outcome (Unit {0}) × Process}
              ((elim c.0 as (λ _. Task (Unit {0})) [
                | returned u ↦ cleanup
                | raised x ↦ cleanup >> raise x
              ])
                c.1)
              (o, w')
          → CleanedUp cleanup w'
      go (returned u, mid) q r = (mid, ap (λ p. p.1) r)
      go (raised x, mid) q r = then_raise x o mid r

  pub target_runs :
      (graph : RevisionGraph) (target detail : String)
      (stage : RevisionGraph → String → Task (Unit {0})) (o : Outcome (Unit {0}))
      → last_of graph.target_chain ≡ some target
      → ◌≡◌ {A = Outcome (Unit {0}) × Process} (with_target (some graph) detail stage w) (o, w')
      → ◌≡◌ {A = Outcome (Unit {0}) × Process} (stage graph target w) (o, w')
  unfolding with_target
  target_runs graph target detail stage o l h = rw (with_target, l) at h

module _ (is_name : String → Bool) (provision : Task (Unit {0}))
    (execute : RunnerRequest → Task RunnerResult) (cleanup collect checkpoint : Task (Unit {0}))
    (graph : RevisionGraph) (target : String) (supported : graph.supported ≡ true)
    (last : last_of graph.target_chain ≡ some target) (w w' : Process) where
  abbrev Raises : Task (Unit {0}) → Type 0
  Raises m =
      (e : Raised)
      → ◌≡◌ {A = Outcome (Unit {0}) × Process} (m w) (raised e, w')
      → CleanedUp cleanup w'

  action_cleaned :
      (request : RevisionGraph → String → RunnerRequest) (code detail absent : String)
      → Raises (
          with_target (some graph) absent (λ g t.
            run_action is_name provision execute cleanup collect checkpoint
              (request g t)
              code
              detail))
  unfolding run_action
  action_cleaned request code detail absent e h =
      with_cleanup-raised
        (action_body is_name provision execute cleanup collect checkpoint (request graph target)
          code detail)
        cleanup w w' e
        (target_runs cleanup cleanup w w' graph target absent
          (λ g t.
            run_action is_name provision execute cleanup collect checkpoint (request g t) code
              detail)
          (raised e) last h)

  provision_cleaned :
      Raises
        (provision_shadow is_name provision execute cleanup collect checkpoint true (some graph))
  unfolding provision_shadow
  provision_cleaned e h = with_cleanup-raised (provision >> checkpoint) cleanup w w' e (
      target_runs cleanup cleanup w w' graph target
        "Dynamic audit requires baseline and target revisions"
        (λ g t. with_cleanup (provision >> checkpoint) cleanup) (raised e) last
        (rw (provision_shadow, supported) at h))

  same_handler : (m h : Task (Unit {0})) → some m ≡ some h → Raises m → Raises h
  same_handler m h q cleaned e r = cleaned e (
      subst (λ k. ◌≡◌ {A = Outcome (Unit {0}) × Process} (k w) (raised e, w'))
        (sym (some-injective m h q)) r)

-- Where a dynamic stage, with a snapshot, a supported graph and a target, ends with an exception,
-- whatever it is and wherever it comes from, the clean-up of the sandbox is the last thing done.
pub dynamic-CleanedUp :
    (is_name : String → Bool) (provision : Task (Unit {0}))
    (execute : RunnerRequest → Task RunnerResult) (cleanup collect checkpoint : Task (Unit {0}))
    (graph : RevisionGraph) (target : String) (state : RunState) (handler : Task (Unit {0}))
    (w w' : Process) (e : Raised)
    → dynamic_handler is_name provision execute cleanup collect checkpoint true (some graph) state
      ≡ some handler
    → graph.supported ≡ true
    → last_of graph.target_chain ≡ some target
    → handler w ≡ (raised e, w')
    → CleanedUp cleanup w'
unfolding dynamic_handler baseline_upgrade apply_migrations seed_data smoke_checks
    rollback_roundtrip collect_stage
dynamic-CleanedUp is_name provision execute cleanup collect checkpoint graph target state handler w
      w' e at supported last h =
    go state at
  where
    go :
        (s : RunState)
        → dynamic_handler is_name provision execute cleanup collect checkpoint true (some graph) s
          ≡ some handler
        → CleanedUp cleanup w'
    go provisioning q =
        same_handler is_name provision execute cleanup collect checkpoint graph target supported
          last w w'
          (provision_shadow is_name provision execute cleanup collect checkpoint true (some graph))
          handler q
          (provision_cleaned is_name provision execute cleanup collect checkpoint graph target
            supported last w w')
          e h
    go baseline_ready q =
        same_handler is_name provision execute cleanup collect checkpoint graph target supported
          last w w'
          (baseline_upgrade is_name provision execute cleanup collect checkpoint (some graph))
          handler q
          (action_cleaned is_name provision execute cleanup collect checkpoint graph target
            supported last w w'
            (λ g t. request_for upgrade_baseline (or_text g.baseline_revision "base") none)
            "MIGRATION_FAILED" "Baseline migration failed" "Baseline revision is unavailable")
          e h
    go applying q =
        same_handler is_name provision execute cleanup collect checkpoint graph target supported
          last w w'
          (apply_migrations is_name provision execute cleanup collect checkpoint (some graph))
          handler q
          (action_cleaned is_name provision execute cleanup collect checkpoint graph target
            supported last w w' (λ g t. request_for apply_target t none) "MIGRATION_FAILED"
            "Target migration failed" "Target revision is unavailable")
          e h
    go seeding q =
        same_handler is_name provision execute cleanup collect checkpoint graph target supported
          last w w' (seed_data is_name provision execute cleanup collect checkpoint (some graph))
          handler q
          (action_cleaned is_name provision execute cleanup collect checkpoint graph target
            supported last w w'
            (λ g t. request_for load_test_data t (some (or_text g.baseline_revision "base")))
            "SEED_FAILED" "Deterministic seed failed" "Target revision is unavailable")
          e h
    go smoke_testing q =
        same_handler is_name provision execute cleanup collect checkpoint graph target supported
          last w w' (smoke_checks is_name provision execute cleanup collect checkpoint (some graph))
          handler q
          (action_cleaned is_name provision execute cleanup collect checkpoint graph target
            supported last w w' (λ g t. request_for run_smoke_checks t none) "SMOKE_CHECK_FAILED"
            "Smoke checks failed" "Target revision is unavailable")
          e h
    go rollback_verifying q =
        same_handler is_name provision execute cleanup collect checkpoint graph target supported
          last w w'
          (rollback_roundtrip is_name provision execute cleanup collect checkpoint (some graph))
          handler q
          (action_cleaned is_name provision execute cleanup collect checkpoint graph target
            supported last w w'
            (λ g t.
              request_for verify_rollback_roundtrip t (some (or_text g.baseline_revision "base")))
            "ROLLBACK_FAILED" "Rollback roundtrip failed" "Target revision is unavailable")
          e h
    go reporting q =
        same_handler is_name provision execute cleanup collect checkpoint graph target supported
          last w w' (collect_stage is_name provision execute cleanup collect checkpoint) handler q
          (λ e r.
            finally-CleanedUp
              (checkpoint >> collecting is_name provision execute cleanup collect checkpoint)
              cleanup w w' (raised e) r)
          e h
    go _ q = absurd (ground (arith, q))
