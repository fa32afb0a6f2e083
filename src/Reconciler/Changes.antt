-- ===== src/Reconciler/Changes.antt =====
-- Reconciling reopens events and gives up runs, each as one change.
use shadowops.Prelude.{
  ℕ, suc, ◌+◌, ◌≡◌, refl, sym, subst, inl, inr, String, Bool, true, false, ◌&&◌, ◌||◌, not, Option,
  none, some, List, [], ◌∷◌, arith, update_where, count_where, Memᴰ, find_where, find_where-mem,
  any_where, any_where-mem, any_where_left, ==_iff, ◌==◌, leb, if◌then◌else◌, Bool-cases,
}
use shadowops.Domain.Lifecycle.{RunState, is_terminal, is_running}
use shadowops.Domain.Errors.{ok}
use shadowops.Domain.Rows.{AuditRun, RunStep, OutboxEvent}
use shadowops.Domain.Run.{is_some}
use shadowops.Domain.Run.Laws.{advanced, transition-ok}
use shadowops.Store.Database.{Db, ◌>>=◌, >>=-ok, >>-ok, lift-ok, with_uow-result, commit}
use shadowops.Store.Runs
use shadowops.Store.Steps
use shadowops.Store.Outbox
use shadowops.Workflow.Change.{
  reached, is_step, IsSound, Advance, advance, quiet, Changes, here, next, join,
}
use shadowops.Workflow.Rows.{requeue-Quiet}
use shadowops.Execution.Claims.{added-IsSound, added_count}
use shadowops.Reconciler.{
  ReconcileResult, recovery_step, exhausted, give_up, reconcile_run, reconcile_event, reconcile_all,
  reconcile_body, reconcile_batch,
}

-- A row that was added had a new identifier and an existing run.
add_step-ok :
    (step : RunStep) (db : Db) {u : Unit {0}} {mid : Db}
    → Steps.add step db ≡ ok (u, mid)
    → (any_where (λ s. s.id == step.id || Steps.same_key s step) db.steps ≡ false)
      × (Steps.insertable step db ≡ true)
      × (mid ≡ record db { steps = step ∷ db.steps })
unfolding Steps.add
add_step-ok step db h = (ground arith, ground arith, ground arith)

give_up_writes :
    (step : RunStep) (run moved dead : AuditRun) (db db' m1 m2 : Db)
    → moved ≡ dead
    → m1 ≡ db
    → m2 ≡ record m1 { steps = step ∷ m1.steps }
    → db' ≡ record m2 {
      runs = update_where (Runs.at_version moved.id run.version) (Runs.saved_over moved) m2.runs;
    }
    → (db'.runs ≡ update_where (Runs.at_version dead.id run.version) (Runs.saved_over dead) db.runs)
      × (db'.steps ≡ step ∷ db.steps)
      × (db'.outbox ≡ db.outbox)
give_up_writes step run moved dead db db' m1 m2 e1 e2 e3 e4 = ground arith

module _ (step_id : ℕ) (run : AuditRun) (event : OutboxEvent) (now : ℕ) (db : Db) where
  abbrev step : RunStep
  step = recovery_step step_id run event now

  step-IsSound : Steps.insertable step db ≡ true → IsSound db.runs step
  unfolding Steps.insertable recovery_step is_running
  step-IsSound fits =
      let (r, m, e) = any_where-mem (λ (r : AuditRun). r.id == run.id) db.runs (ground arith) in
      record { open_ended = λ live. absurd (cc); owner = (r, m, (==_iff _ _).0 e) }

  step-reached :
      (i v : ℕ)
      → count_where (reached i v) (step ∷ db.steps)
        ≡ count_where (reached i v) db.steps
          + (if run.id == i && (run.version + 1) == v then 1 else 0)
  unfolding count_where reached recovery_step
  step-reached i v = ground arith

  give_up-Advance :
      (db' : Db) {u : Unit {0}}
      → Memᴰ run db.runs
      → give_up step_id run event now db ≡ ok (u, db')
      → Advance db db'
  unfolding give_up exhausted is_some is_terminal
  give_up-Advance db' m h =
      let (moved, m1, e1, h1) = >>=-ok _ _ db h in
      let (u2, m2, e2, h2) = >>-ok _ _ m1 h1 in
      let (legal, is_moved) =
        transition-ok (exhausted run) RunState.failed now (lift-ok _ db e1).0 in
      let is_m1 : m1 ≡ db = (lift-ok _ db e1).1 in
      let (new, fits, is_m2) = add_step-ok step m1 e2 in
      let (runs, steps, outbox) =
        give_up_writes step run moved (advanced (exhausted run) RunState.failed now) db db' m1 m2
          is_moved is_m1 is_m2 (Runs.save-ok moved run.version m2 h2) in
      let free : any_where (is_step step.id) db.steps ≡ false =
        any_where_left _ (λ s. Steps.same_key s step) db.steps
          (subst (λ d. any_where (λ s. s.id == step.id || Steps.same_key s step) d.steps ≡ false)
            is_m1 new) in
      let fine = step-IsSound (subst (λ d. Steps.insertable step d ≡ true) is_m1 fits) in
      record {
        run = run;
        run' = advanced (exhausted run) RunState.failed now;
        found = m;
        edge = legal;
        identity = record { id = refl; idempotency_key = refl; request_fingerprint = refl };
        version = refl;
        completed_at = λ before. refl;
        runs = runs;
        events_from = λ e me. inl (subst (λ l. Memᴰ e l) outbox me);
        events_to = λ e me. subst (λ l. Memᴰ e l) (sym outbox) me;
        announced = λ live. absurd (cc);
        steps_to = λ s ms. (s, subst (λ l. Memᴰ s l) (sym steps) (Memᴰ.tail ms), refl, refl);
        step_count = λ i few. rw steps (added_count step db.steps i free few);
        steps_sound = λ sound s ms.
            added-IsSound step db.steps db.runs fine sound s (subst (λ l. Memᴰ s l) steps ms);
        reached_count = λ sound i v. rw steps (step-reached i v);
      }

reopen-Changes :
    (event_id at : ℕ) (reason : String) (db db' : Db) {b : Bool}
    → Outbox.reopen event_id at reason db ≡ ok (b, db')
    → Changes db db'
unfolding Outbox.reopen
reopen-Changes event_id at reason db db' h =
    subst (λ d. Changes db d) (ground arith)
      (next here (
        quiet (
          requeue-Quiet db (λ e. e.id == event_id) (Outbox.reopened at reason)
            λ e. record {
              aggregate_id = refl;
              aggregate_version = refl;
              topic = refl;
              payload = refl;
            })))

module _ (max_attempts : ℕ) (step_ids : ℕ → ℕ) where
  reconcile_run-Changes :
      (now n : ℕ) (counts : ReconcileResult) (event : OutboxEvent) (found : Option AuditRun)
      (db db' : Db) {r : ReconcileResult}
      → found ≡ find_where (λ r. r.id == event.aggregate_id) db.runs
      → reconcile_run max_attempts step_ids now n counts event found db ≡ ok (r, db')
      → Changes db db'
  unfolding reconcile_run
  reconcile_run-Changes now n counts event none db db' f h =
      subst (λ d. Changes db d) (ground arith) here
  reconcile_run-Changes now n counts event (some run) db db' {r} f h =
      elim (Bool-cases (not (run.version == event.aggregate_version))) [
        | inl stale ↦ subst (λ d. Changes db d) (ground arith) here
        | inr live ↦ elim (Bool-cases (leb max_attempts event.publish_attempts)) [
          | inl spent ↦
              let (u, m1, e1, h1) =
                >>-ok (give_up (step_ids n) run event now) _ db {r = (r, db')}
                  (rw (live, spent) at h) in
              next here (
                advance (
                  give_up-Advance (step_ids n) run event now db db'
                    (find_where-mem _ db.runs (sym f)).0
                    (subst (λ d. give_up (step_ids n) run event now db ≡ ok (u, d)) (ground arith)
                      e1)))
          | inr left ↦
              let (b, m1, e1, h1) =
                >>=-ok (Outbox.reopen event.id now "RECOVERED_STALE_DELIVERY") _ db {r = (r, db')}
                  (rw (live, left) at h) in
              subst (λ d. Changes db d) (ground arith) (reopen-Changes event.id now _ db m1 e1)
        ]
      ]

  reconcile_event-Changes :
      (now n : ℕ) (counts : ReconcileResult) (event : OutboxEvent) (db db' : Db)
      {r : ReconcileResult}
      → reconcile_event max_attempts step_ids now n counts event db ≡ ok (r, db')
      → Changes db db'
  unfolding reconcile_event Runs.get ◌>>=◌
  reconcile_event-Changes now n counts event db db' h =
      reconcile_run-Changes now n counts event _ db db' refl h

  reconcile_all-Changes :
      (now n : ℕ) (counts : ReconcileResult) (events : List OutboxEvent) (db db' : Db)
      {r : ReconcileResult}
      → reconcile_all max_attempts step_ids now n counts events db ≡ ok (r, db')
      → Changes db db'
  unfolding reconcile_all
  reconcile_all-Changes now n counts [] db db' h = subst (λ d. Changes db d) (ground arith) here
  reconcile_all-Changes now n counts (event ∷ rest) db db' h =
      let (counted, m1, e1, h1) = >>=-ok _ _ db h in
      join (reconcile_event-Changes now n counts event db m1 e1)
        (reconcile_all-Changes now (suc n) counted rest m1 db' h1)

  reconcile_body-Changes :
      (now stale_after limit : ℕ) (db db' : Db) {r : ReconcileResult}
      → reconcile_body max_attempts step_ids now stale_after limit db ≡ ok (commit r, db')
      → Changes db db'
  unfolding reconcile_body Outbox.lock_stale_deliveries
  reconcile_body-Changes now stale_after limit db db' h =
      let (events, m1, e1, h1) = >>=-ok _ _ db h in
      let (k, m2, e2, h2) = >>=-ok _ _ m1 h1 in
      subst (λ d. Changes d db') (ground arith)
        (subst (λ d. Changes m1 d) (ground arith)
          (reconcile_all-Changes now 0 (record { reopened = 0; failed = 0 }) events m1 m2 e2))

  pub reconcile_batch-Changes :
      (now stale_after limit : ℕ) (db : Db)
      → Changes db (reconcile_batch max_attempts step_ids now stale_after limit db).1
  unfolding reconcile_batch
  reconcile_batch-Changes now stale_after limit db =
      with_uow-result (Changes db) (reconcile_body max_attempts step_ids now stale_after limit) db
        here λ a db' h. reconcile_body-Changes now stale_after limit db db' h
