-- ===== src/Store/Runs.antt =====
-- src/shadowops/persistence/repositories.py: `SqlAlchemyRunRepository`.
use shadowops.Prelude.{
  ◌≡◌, arith, ℕ, String, Bool, true, false, ◌&&◌, Option, none, some, ◌∷◌, ◌==◌, str_eq,
  if◌then◌else◌, find_where, count_where, any_where, update_where,
}
use shadowops.Domain.Errors.{ok, err, integrity_error, optimistic_concurrency_error}
use shadowops.Domain.Rows.{AuditRun}
use shadowops.Store.Database.{Db, Tx}

-- `run.created_at or run.updated_at`
unfoldable pub or_updated : Option ℕ → ℕ → ℕ
or_updated none updated = updated
or_updated (some created) updated = created

abbrev pub inserted_row : AuditRun → AuditRun
inserted_row run = record run { created_at = some (or_updated run.created_at run.updated_at) }

-- INSERT … ON CONFLICT (idempotency_key) DO NOTHING RETURNING id. A conflict on the primary key is
-- an `IntegrityError`, and so is a version below 1.
unfoldable pub add_if_idempotency_absent : AuditRun → Tx Bool
unfolding or_updated
add_if_idempotency_absent run db =
    if any_where (λ r. str_eq r.idempotency_key run.idempotency_key) db.runs
    then ok (false, db)
    else if any_where (λ r. r.id == run.id) db.runs
    then err integrity_error
    else if run.version == 0
    then err integrity_error
    else ok (
      true,
      record db {
        runs =
            record run { created_at = some (or_updated run.created_at run.updated_at) } ∷ db.runs;
      },
    )

unfoldable pub get : ℕ → Tx (Option AuditRun)
get run_id db = ok (find_where (λ r. r.id == run_id) db.runs, db)

unfoldable pub get_by_idempotency_key : String → Tx (Option AuditRun)
get_by_idempotency_key key db = ok (find_where (λ r. str_eq r.idempotency_key key) db.runs, db)

-- The columns that `save` writes.
unfoldable pub saved_over : AuditRun → AuditRun → AuditRun
saved_over run row = record row {
  state = run.state;
  version = run.version;
  cleanup_status = run.cleanup_status;
  heartbeat_at = run.heartbeat_at;
  cancel_requested_at = run.cancel_requested_at;
  failure_code = run.failure_code;
  failure_detail = run.failure_detail;
  updated_at = run.updated_at;
  completed_at = run.completed_at;
}

abbrev pub at_version : ℕ → ℕ → AuditRun → Bool
at_version run_id expected_version row = row.id == run_id && row.version == expected_version

-- UPDATE … WHERE id = … AND version = …, with the test on the row count.
unfoldable pub save : AuditRun → ℕ → Tx (Unit {0})
unfolding saved_over
save run expected_version db =
    if count_where (at_version run.id expected_version) db.runs == 1
    then ok (
      tt,
      record db {
        runs = update_where (at_version run.id expected_version) (saved_over run) db.runs;
      },
    )
    else err (optimistic_concurrency_error run.id expected_version)

pub save-ok :
    (run : AuditRun) (version : ℕ) (db : Db) {u : Unit {0}} {mid : Db}
    → save run version db ≡ ok (u, mid)
    → mid ≡ record db { runs = update_where (at_version run.id version) (saved_over run) db.runs }
unfolding save
save-ok run version db h = ground arith

pub add_if_idempotency_absent-ok :
    (run : AuditRun) (db : Db) {mid : Db}
    → add_if_idempotency_absent run db ≡ ok (true, mid)
    → (any_where (λ r. str_eq r.idempotency_key run.idempotency_key) db.runs ≡ false)
      × (any_where (λ r. r.id == run.id) db.runs ≡ false)
      × (mid ≡ record db { runs = inserted_row run ∷ db.runs })
unfolding add_if_idempotency_absent
add_if_idempotency_absent-ok run db h = (ground arith, ground arith, ground arith)
