-- ===== src/RunService/Changes.antt =====
-- `create` adds one run or nothing, and `cancel` moves none.
use shadowops.Prelude.{
  ℕ, ◌≡◌, refl, sym, subst, ◌∙◌, String, Bool, true, false, ◌||◌, Option, none, some, arith, Memᴰ,
  find_where, find_where-mem, count_where_none, update_where, ==_iff, ◌==◌,
}
use shadowops.Domain.Lifecycle.{RunState, state_eq}
use shadowops.Domain.Errors.{ok}
use shadowops.Domain.Rows.{AuditRun, OutboxEvent}
use shadowops.Domain.Run.{request_cancel, is_some}
use shadowops.Store.Database.{
  Db, ◌>>=◌, >>=-ok, >>-ok, lift-ok, with_uow-result, not_rolled_back, commit,
}
use shadowops.Store.Runs
use shadowops.Store.Runs.{at_version, saved_over, save-ok}
use shadowops.Store.Outbox
use shadowops.Store.Outbox.{advances, advance_topic, woken}
use shadowops.Workflow.Change.{
  SameRun, SameSubject, Creation, quiet, create as creation, Changes, here, next,
}
use shadowops.Workflow.Invariant.{IsConsistent}
use shadowops.Workflow.Rows.{requeue-Quiet, save-Quiet}
use shadowops.Execution.{next_event}
use shadowops.Execution.Advances.{next_event-Announces}
use shadowops.RunService.{
  CreateRequest, store_cancelled, cancel_run, cancel_body, cancel, known_run, or_now, insert_run,
  finish_insert, create_unless, create_body, create, new_run,
}

-- An accepted cancellation keeps what a quiet change must keep.
request_cancel-SameRun :
    (run : AuditRun) (v now : ℕ) {run' : AuditRun}
    → request_cancel run v now ≡ ok run'
    → SameRun run run'
unfolding request_cancel
request_cancel-SameRun run v now h = record {
  identity = record {
    id = ground arith;
    idempotency_key = ground arith;
    request_fingerprint = ground arith;
  };
  state = ground arith;
  version = ground arith;
  completed_at = ground arith;
}

-- A cancellation that is new was asked for at the run's own version.
request_cancel-version :
    (run : AuditRun) (v now : ℕ) {run' : AuditRun}
    → request_cancel run v now ≡ ok run'
    → (is_some run.cancel_requested_at || state_eq run'.state RunState.cancelled) ≡ false
    → run.version ≡ v
unfolding request_cancel
request_cancel-version run v now h q = ground arith

module _ {db : Db} (c : IsConsistent db) (run : AuditRun) (found : Memᴰ run db.runs)
    (v now : ℕ) where
  woken-same : (at : ℕ) (e : OutboxEvent) → SameSubject e (woken at e)
  woken-same at e = record {
    aggregate_id = refl;
    aggregate_version = refl;
    topic = refl;
    payload = refl;
  }

  cancel_writes :
      (run' : AuditRun) (mid db' : Db) (at : ℕ) {u : Unit {0}} {b : Bool}
      → SameRun run run'
      → run.version ≡ v
      → Runs.save run' v db ≡ ok (u, mid)
      → Outbox.wake_current run'.id run'.version at mid ≡ ok (b, db')
      → Changes db db'
  unfolding Outbox.wake_current
  cancel_writes run' mid db' at same fresh h h' =
      let saved : Db = record db {
        runs = update_where (at_version run.id run.version) (saved_over run') db.runs;
      } in
      let is_saved : mid ≡ saved = save-ok run' v db h ∙ (λ i. record db {
        runs =
            update_where (at_version (same.identity.id i) (sym fresh i)) (saved_over run') db.runs;
      }) in
      let is_woken : db' ≡ record saved {
        outbox = update_where (advances run'.id run'.version) (woken at) saved.outbox;
      } =
        subst
          (λ d. db' ≡ record d {
            outbox = update_where (advances run'.id run'.version) (woken at) d.outbox;
          })
          is_saved (ground arith) in
      subst (λ d. Changes db d) (sym is_woken)
        (next (next here (quiet (save-Quiet c run run' found same)))
          (quiet (requeue-Quiet saved (advances run'.id run'.version) (woken at) (woken-same at))))

  store_cancelled-Changes :
      (run' : AuditRun) (db' : Db) {a : AuditRun}
      → SameRun run run'
      → run.version ≡ v
      → store_cancelled run' v now db ≡ ok (commit a, db')
      → Changes db db'
  unfolding store_cancelled
  store_cancelled-Changes run' db' same fresh h =
      let (u, m1, e1, h1) = >>-ok _ _ db h in
      let (b, m2, e2, h2) = >>-ok _ _ m1 h1 in
      subst (λ d. Changes db d) (ground arith)
        (cancel_writes run' m1 m2 (or_now run'.cancel_requested_at now) same fresh e1 e2)

  cancel_run-Changes :
      (db' : Db) {a : AuditRun} → cancel_run run v now db ≡ ok (commit a, db') → Changes db db'
  unfolding cancel_run
  cancel_run-Changes db' {a} h =
      let (run', mid, e1, h1) = >>=-ok _ _ db h in
      let (asked, same_db) = lift-ok _ db e1 in
      let (stored, new) =
        not_rolled_back (is_some run.cancel_requested_at || state_eq run'.state RunState.cancelled)
          run' _ mid db' {a = a} h1 in
      store_cancelled-Changes run' db' {a = a} (request_cancel-SameRun run v now asked)
        (request_cancel-version run v now asked new)
        (subst (λ d. store_cancelled run' v now d ≡ ok (commit a, db')) same_db stored)

known_run-ok :
    (run_id : ℕ) (db : Db) {run : AuditRun} {mid : Db}
    → known_run run_id db ≡ ok (run, mid)
    → Memᴰ run db.runs × (run.id ≡ run_id) × (mid ≡ db)
unfolding known_run ◌>>=◌
known_run-ok run_id db {run} h =
    let found : find_where (λ r. r.id == run_id) db.runs ≡ some run = ground arith in
    let (m, e) = find_where-mem _ db.runs found in (m, (==_iff _ _).0 e, ground arith)

cancel_body-Changes :
    {db : Db} (run_id v now : ℕ) (db' : Db) {a : AuditRun}
    → IsConsistent db
    → cancel_body run_id v now db ≡ ok (commit a, db')
    → Changes db db'
unfolding cancel_body
cancel_body-Changes {db} run_id v now db' {a} c h =
    let (run, mid, e1, h1) = >>=-ok _ _ db h in
    let (m, _, same_db) = known_run-ok run_id db e1 in
    cancel_run-Changes c run m v now db'
      (subst (λ d. cancel_run run v now d ≡ ok (commit a, db')) same_db h1)

pub cancel-Changes :
    {db : Db} (run_id v now : ℕ) → IsConsistent db → Changes db (cancel run_id v now db).1
unfolding cancel
cancel-Changes {db} run_id v now c =
    with_uow-result (Changes db) (cancel_body run_id v now) db here
      λ a db' h. cancel_body-Changes run_id v now db' c h

module _ (fingerprint_of : CreateRequest → String) (request : CreateRequest) (key : String)
    (run_id event_id now : ℕ) where
  abbrev fresh_run : AuditRun
  fresh_run = new_run fingerprint_of request key run_id now

  insert-Creation :
      (db db' : Db) {a : AuditRun}
      → insert_run fingerprint_of request key run_id event_id now db ≡ ok (commit a, db')
      → Creation db db'
  unfolding insert_run
  insert-Creation db db' {a} h =
      let (inserted, mid, e1, h1) = >>=-ok _ _ db h in finished inserted mid e1 h1
    where
      finished :
          (inserted : Bool) (mid : Db)
          → Runs.add_if_idempotency_absent fresh_run db ≡ ok (inserted, mid)
          → finish_insert fingerprint_of request key event_id now fresh_run inserted mid
            ≡ ok (commit a, db')
          → Creation db db'
      finished false mid e1 h1 =
          let (x, m2, e2, h2) = >>=-ok _ _ mid h1 in
          let (r, m3, e3, h3) = >>=-ok _ _ m2 h2 in absurd (ground arith)
      finished true mid e1 h1 =
          let (u, m2, e2, h2) = >>-ok _ _ mid h1 in
          let (no_key, no_id, is_mid) = Runs.add_if_idempotency_absent-ok fresh_run db e1 in
          let is_m2 = Outbox.add-ok (next_event fresh_run event_id now) mid e2 in
          record {
            run = fresh_run;
            event = next_event fresh_run event_id now;
            new_id = count_where_none _ db.runs no_id;
            new_key = count_where_none _ db.runs no_key;
            state = refl;
            version = refl;
            completed_at = refl;
            announces = next_event-Announces fresh_run event_id now;
            runs = ground arith;
            outbox = ground arith;
            steps = ground arith;
          }

  create_unless-Change :
      (existing : Option AuditRun) (db db' : Db) {a : AuditRun}
      → create_unless fingerprint_of request key run_id event_id now existing db
        ≡ ok (commit a, db')
      → Creation db db'
  unfolding create_unless new_run
  create_unless-Change (some r) db db' h = absurd (rolled_back h)
    where
      rolled_back :
          {a : AuditRun}
          → create_unless fingerprint_of request key run_id event_id now (some r) db
            ≡ ok (commit a, db')
          → ⊥
      rolled_back h' = let (x, mid, e1, h1) = >>=-ok _ _ db h' in ground arith
  create_unless-Change none db db' h = insert-Creation db db' h

  create_body-Creation :
      (db db' : Db) {a : AuditRun}
      → create_body fingerprint_of request key run_id event_id now db ≡ ok (commit a, db')
      → Creation db db'
  unfolding create_body
  create_body-Creation db db' {a} h =
      let (existing, mid, e1, h1) = >>=-ok _ _ db h in
      create_unless-Change existing db db' {a = a} (
        subst
          (λ d.
            create_unless fingerprint_of request key run_id event_id now existing d
            ≡ ok (commit a, db'))
          (unfold Runs.get_by_idempotency_key in ground arith) h1)

  pub create-Changes :
      (db : Db) → Changes db (create fingerprint_of request key run_id event_id now db).1
  unfolding create
  create-Changes db =
      with_uow-result (Changes db) (create_body fingerprint_of request key run_id event_id now) db
        here λ a db' h. next here (creation (create_body-Creation db db' h))
