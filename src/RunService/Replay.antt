-- ===== src/RunService/Replay.antt =====
-- Idempotency: what `create` does when its key is already taken.
use shadowops.Prelude.{
  ℕ, String, ◌≡◌, ◌≢◌, refl, sym, ap, ◌∙◌, inl, inr, true, some, Memᴰ, count_where_unique,
  find_where, find_where-mem, mem-find_where, str_eq, str_eq_iff, Bool-cases,
}
use shadowops.Domain.Errors.{Result, ok, err, idempotency_conflict_error}
use shadowops.Domain.Rows.{AuditRun}
use shadowops.Store.Database.{Db, ◌>>=◌, with_uow, exit_uow}
use shadowops.Store.Runs
use shadowops.Workflow.Change.{Changes, has_key}
use shadowops.Workflow.Invariant.{IsConsistent}
use shadowops.Workflow.History.{Descends, run-Descends, Changes-IsConsistent}
use shadowops.RunService.{CreateRequest, create, create_body, create_unless, resolve_replay}

-- The run under a key, as the first lookup finds it.
key_found :
    (db : Db) (run : AuditRun)
    → IsConsistent db
    → Memᴰ run db.runs
    → find_where (has_key run.idempotency_key) db.runs ≡ some run
key_found db run c m =
    let p = has_key run.idempotency_key in
    let mine : p run ≡ true = (str_eq_iff _ _).1 refl in
    let (r, q) = mem-find_where p db.runs m mine in
    let (mr, pr) = find_where-mem p db.runs q in
    q ∙ ap some (count_where_unique p db.runs (c.one_key run.idempotency_key) mr m pr mine)

module _ (fingerprint_of : CreateRequest → String) (request : CreateRequest)
    (run_id event_id now : ℕ) (db : Db) (run : AuditRun) where
  replayed :
      find_where (has_key run.idempotency_key) db.runs ≡ some run
      → run.request_fingerprint ≡ fingerprint_of request
      → create fingerprint_of request run.idempotency_key run_id event_id now db ≡ (ok run, db)
  unfolding create create_body create_unless resolve_replay Runs.get_by_idempotency_key with_uow
      exit_uow ◌>>=◌
  replayed found same = rw (found, (str_eq_iff _ _).1 same)

  refused :
      find_where (has_key run.idempotency_key) db.runs ≡ some run
      → run.request_fingerprint ≢ fingerprint_of request
      → create fingerprint_of request run.idempotency_key run_id event_id now db
        ≡ (err (idempotency_conflict_error run.idempotency_key), db)
  unfolding create create_body create_unless resolve_replay Runs.get_by_idempotency_key with_uow
      exit_uow ◌>>=◌
  refused found differs =
      elim (Bool-cases (str_eq run.request_fingerprint (fingerprint_of request))) [
        | inl yes' ↦ absurd (differs ((str_eq_iff _ _).0 yes'))
        | inr no' ↦ rw (found, no')
      ]

-- Once a run is on record under an idempotency key, then, whatever changes were made since, a request
-- with that key creates nothing and writes nothing: it is answered with that run, as it has become
-- since, when its fingerprint is the run's, and is refused with an idempotency conflict otherwise.
pub create_replay :
    (fingerprint_of : CreateRequest → String) (request : CreateRequest) (run_id event_id now : ℕ)
    (db later : Db) (run : AuditRun)
    → IsConsistent db
    → Memᴰ run db.runs
    → Changes db later
    → (run' : AuditRun) × Memᴰ run' later.runs
      × Descends run run'
      × (run.request_fingerprint ≡ fingerprint_of request
          → create fingerprint_of request run.idempotency_key run_id event_id now later
            ≡ (ok run', later))
      × (run.request_fingerprint ≢ fingerprint_of request
          → create fingerprint_of request run.idempotency_key run_id event_id now later
            ≡ (err (idempotency_conflict_error run.idempotency_key), later))
create_replay fingerprint_of request run_id event_id now db later run c m changes =
    let (run', m', d) = run-Descends run c m changes in
    let found = key_found later run' (Changes-IsConsistent c changes) m' in
    let answer : String → Result AuditRun × Db =
      λ k. create fingerprint_of request k run_id event_id now later in
    (
      run',
      m',
      d,
      λ e.
          ap answer (sym d.identity.idempotency_key)
          ∙ replayed fingerprint_of request run_id event_id now later run' found
              (d.identity.request_fingerprint ∙ e),
      λ n.
          ap answer (sym d.identity.idempotency_key)
          ∙ refused fingerprint_of request run_id event_id now later run' found
              (λ e. n (sym d.identity.request_fingerprint ∙ e))
          ∙ ap (λ k. (err (idempotency_conflict_error k), later)) d.identity.idempotency_key,
    )
