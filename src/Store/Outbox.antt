-- ===== src/Store/Outbox.antt =====
-- src/shadowops/persistence/repositories.py: `SqlAlchemyOutboxRepository`. Row locks are not
-- modelled: a transaction runs alone.
use shadowops.Prelude.{
  ◌≡◌, arith, ℕ, ◌+◌, String, Bool, true, false, ◌&&◌, ◌||◌, not, Option, none, some, List, ◌∷◌,
  ◌==◌, leb, ltb, str_eq, take, if◌then◌else◌, find_where, select, count_where, any_where,
  update_where, sort_by,
}
use shadowops.Domain.Lifecycle.{is_running, is_terminal}
use shadowops.Domain.Errors.{ok, err, integrity_error}
use shadowops.Domain.Rows.{AuditRun, RunStep, OutboxEvent}
use shadowops.Store.Database.{Db, Tx}

-- `uq_outbox_aggregate_version_topic`
abbrev pub same_subject : OutboxEvent → OutboxEvent → Bool
same_subject a b =
    a.aggregate_id == b.aggregate_id
    && a.aggregate_version == b.aggregate_version
    && str_eq a.topic b.topic

unfoldable pub add : OutboxEvent → Tx (Unit {0})
add event db =
    if any_where (λ e. e.id == event.id || same_subject e event) db.outbox
    then err integrity_error
    else if any_where (λ (r : AuditRun). r.id == event.aggregate_id) db.runs
    then ok (tt, record db { outbox = event ∷ db.outbox })
    else err integrity_error

unfoldable pub get : ℕ → Tx (Option OutboxEvent)
get event_id db = ok (find_where (λ e. e.id == event_id) db.outbox, db)

-- published_at IS NULL
unfoldable pub is_null {ℓ} : {A : Type ℓ} → Option A → Bool
is_null none = true
is_null (some _) = false

-- published_at IS NOT NULL AND published_at <= t
unfoldable pub no_later : Option ℕ → ℕ → Bool
no_later none t = false
no_later (some p) t = leb p t

unfoldable pub created_before : OutboxEvent → OutboxEvent → Bool
created_before a b =
    ltb a.created_at b.created_at || (a.created_at == b.created_at && leb a.id b.id)

unfoldable pub lock_unpublished : ℕ → ℕ → Tx (List OutboxEvent)
unfolding is_null created_before
lock_unpublished now limit db = ok (
  take limit (
      sort_by created_before
        (select (λ e. is_null e.published_at && leb e.available_at now) db.outbox)),
  db,
)

abbrev pub unpublished_at : ℕ → OutboxEvent → Bool
unpublished_at event_id e = e.id == event_id && is_null e.published_at

abbrev pub delivered : ℕ → OutboxEvent → OutboxEvent
delivered now e = record e {
  published_at = some now;
  publish_attempts = e.publish_attempts + 1;
  last_error = none;
}

unfoldable pub mark_published : ℕ → ℕ → Tx Bool
unfolding is_null
mark_published event_id now db = ok (
  count_where (unpublished_at event_id) db.outbox == 1,
  record db { outbox = update_where (unpublished_at event_id) (delivered now) db.outbox },
)

abbrev pub postponed : String → ℕ → OutboxEvent → OutboxEvent
postponed error available_at e = record e {
  available_at = available_at;
  publish_attempts = e.publish_attempts + 1;
  last_error = some error;
}

unfoldable pub mark_failed : ℕ → String → ℕ → Tx Bool
unfolding is_null
mark_failed event_id error available_at db = ok (
  count_where (unpublished_at event_id) db.outbox == 1,
  record db {
    outbox = update_where (unpublished_at event_id) (postponed error available_at) db.outbox;
  },
)

-- lease_expires_at > now; NULL is not later than anything
unfoldable pub leased : Option ℕ → ℕ → Bool
leased none now = false
leased (some expiry) now = ltb now expiry

-- The subquery `active_step`.
unfoldable pub has_active_step : Db → OutboxEvent → ℕ → Bool
unfolding leased
has_active_step db e now =
    any_where
      (λ (s : RunStep).
        s.run_id == e.aggregate_id
        && s.expected_run_version == e.aggregate_version
        && is_running s.status
        && leased s.lease_expires_at now)
      db.steps

-- The joined run has the event's version and is not terminal.
unfoldable pub is_live_subject : Db → OutboxEvent → Bool
is_live_subject db e =
    any_where
      (λ (r : AuditRun).
        r.id == e.aggregate_id && r.version == e.aggregate_version && not (is_terminal r.state))
      db.runs

unfoldable pub published_before : OutboxEvent → OutboxEvent → Bool
published_before a b = times a.published_at b.published_at
  where
    times : Option ℕ → Option ℕ → Bool
    times none none = leb a.id b.id
    times none (some q) = false
    times (some p) none = true
    times (some p) (some q) = ltb p q || (p == q && leb a.id b.id)

unfoldable pub lock_stale_deliveries : ℕ → ℕ → ℕ → Tx (List OutboxEvent)
unfolding no_later has_active_step is_live_subject published_before
lock_stale_deliveries now stale_before limit db = ok (
  take limit (
      sort_by published_before (
        select
          (λ e.
            no_later e.published_at stale_before
            && is_live_subject db e
            && not (has_active_step db e now))
          db.outbox)),
  db,
)

abbrev pub reopened : ℕ → String → OutboxEvent → OutboxEvent
reopened available_at reason e = record e {
  published_at = none;
  available_at = available_at;
  last_error = some reason;
}

unfoldable pub reopen : ℕ → ℕ → String → Tx Bool
reopen event_id available_at reason db = ok (
  count_where (λ e. e.id == event_id) db.outbox == 1,
  record db {
    outbox = update_where (λ e. e.id == event_id) (reopened available_at reason) db.outbox;
  },
)

abbrev pub advance_topic : String
advance_topic = "run.advance.requested.v1"

abbrev pub advances : ℕ → ℕ → OutboxEvent → Bool
advances run_id version e =
    e.aggregate_id == run_id && e.aggregate_version == version && str_eq e.topic advance_topic

abbrev pub woken : ℕ → OutboxEvent → OutboxEvent
woken available_at e = record e {
  published_at = none;
  available_at = available_at;
  last_error = some "WOKEN_FOR_CANCELLATION";
}

unfoldable pub wake_current : ℕ → ℕ → ℕ → Tx Bool
wake_current run_id version available_at db = ok (
  count_where (advances run_id version) db.outbox == 1,
  record db { outbox = update_where (advances run_id version) (woken available_at) db.outbox },
)

pub add-ok :
    (event : OutboxEvent) (db : Db) {u : Unit {0}} {mid : Db}
    → add event db ≡ ok (u, mid)
    → mid ≡ record db { outbox = event ∷ db.outbox }
unfolding add
add-ok event db h = ground arith
