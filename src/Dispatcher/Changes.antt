-- ===== src/Dispatcher/Changes.antt =====
-- Dispatching moves no run.
use shadowops.Prelude.{ℕ, ◌≡◌, refl, subst, String, Bool, Option, none, some, List, [], ◌∷◌, arith}
use shadowops.Domain.Errors.{ok}
use shadowops.Domain.Rows.{OutboxEvent}
use shadowops.Store.Database.{Db, >>=-ok, >>-ok, lift-ok, with_uow-result, commit}
use shadowops.Store.Outbox
use shadowops.Workflow.Change.{quiet, Changes, here, next, join}
use shadowops.Workflow.Rows.{requeue-Quiet}
use shadowops.Dispatcher.{RetryPolicy, dispatch_event, dispatch_all, dispatch_body, dispatch_batch}

mark_failed-Changes :
    (event_id : ℕ) (error : String) (at : ℕ) (db db' : Db) {b : Bool}
    → Outbox.mark_failed event_id error at db ≡ ok (b, db')
    → Changes db db'
unfolding Outbox.mark_failed
mark_failed-Changes event_id error at db db' h =
    subst (λ d. Changes db d) (ground arith)
      (next here (
        quiet (
          requeue-Quiet db (Outbox.unpublished_at event_id) (Outbox.postponed error at) λ e.
            record {
              aggregate_id = refl;
              aggregate_version = refl;
              topic = refl;
              payload = refl;
            })))

mark_published-Changes :
    (event_id now : ℕ) (db db' : Db) {b : Bool}
    → Outbox.mark_published event_id now db ≡ ok (b, db')
    → Changes db db'
unfolding Outbox.mark_published
mark_published-Changes event_id now db db' h =
    subst (λ d. Changes db d) (ground arith)
      (next here (
        quiet (
          requeue-Quiet db (Outbox.unpublished_at event_id) (Outbox.delivered now) λ e. record {
            aggregate_id = refl;
            aggregate_version = refl;
            topic = refl;
            payload = refl;
          })))

module _ (publish : OutboxEvent → Option String) (policy : RetryPolicy) where
  dispatch_event-Changes :
      (now n : ℕ) (event : OutboxEvent) (outcome : Option String) (db db' : Db) {k : ℕ}
      → dispatch_event publish policy now n event outcome db ≡ ok (k, db')
      → Changes db db'
  unfolding dispatch_event
  dispatch_event-Changes now n event (some error) db db' h =
      let (delay, m1, e1, h1) = >>=-ok _ _ db h in
      let (b, m2, e2, h2) = >>-ok _ _ m1 h1 in
      subst (λ d. Changes d db') (lift-ok _ db e1).1
        (subst (λ d. Changes m1 d) (ground arith) (mark_failed-Changes event.id _ _ m1 m2 e2))
  dispatch_event-Changes now n event none db db' h =
      let (b, m1, e1, h1) = >>=-ok _ _ db h in
      subst (λ d. Changes db d) (ground arith) (mark_published-Changes event.id now db m1 e1)

  dispatch_all-Changes :
      (now n : ℕ) (events : List OutboxEvent) (db db' : Db) {k : ℕ}
      → dispatch_all publish policy now n events db ≡ ok (k, db')
      → Changes db db'
  unfolding dispatch_all
  dispatch_all-Changes now n [] db db' h = subst (λ d. Changes db d) (ground arith) here
  dispatch_all-Changes now n (event ∷ rest) db db' h =
      let (counted, m1, e1, h1) = >>=-ok _ _ db h in
      join (dispatch_event-Changes now n event (publish event) db m1 e1)
        (dispatch_all-Changes now counted rest m1 db' h1)

  dispatch_body-Changes :
      (now limit : ℕ) (db db' : Db) {a : ℕ}
      → dispatch_body publish policy now limit db ≡ ok (commit a, db')
      → Changes db db'
  unfolding dispatch_body Outbox.lock_unpublished
  dispatch_body-Changes now limit db db' h =
      let (events, m1, e1, h1) = >>=-ok _ _ db h in
      let (k, m2, e2, h2) = >>=-ok _ _ m1 h1 in
      subst (λ d. Changes d db') (ground arith)
        (subst (λ d. Changes m1 d) (ground arith) (dispatch_all-Changes now 0 events m1 m2 e2))

  pub dispatch_batch-Changes :
      (now limit : ℕ) (db : Db) → Changes db (dispatch_batch publish policy now limit db).1
  unfolding dispatch_batch
  dispatch_batch-Changes now limit db =
      with_uow-result (Changes db) (dispatch_body publish policy now limit) db here
        λ a db' h. dispatch_body-Changes now limit db db' h
