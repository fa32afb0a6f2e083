-- ===== src/Workflow/Rows.antt =====
-- Quiet changes of the run and outbox tables.
use shadowops.Prelude.{
  ◌≡◌, refl, sym, ap, subst, ◌∙◌, inl, inr, Bool, true, arith, Memᴰ, if◌then◌else◌,
  count_where-update_same, update_where, update_where-mem, mem-update_where, Bool-cases,
}
use shadowops.Domain.Rows.{AuditRun, OutboxEvent}
use shadowops.Store.Database.{Db}
use shadowops.Store.Runs.{at_version, saved_over}
use shadowops.Workflow.Change.{has_id, has_key, SameRun, SameSubject, Quiet}
use shadowops.Workflow.Invariant.{IsConsistent, only_run}

pub SameRun-refl : (r : AuditRun) → SameRun r r
SameRun-refl r = record {
  identity = record { id = refl; idempotency_key = refl; request_fingerprint = refl };
  state = refl;
  version = refl;
  completed_at = refl;
}

pub SameSubject-refl : (e : OutboxEvent) → SameSubject e e
SameSubject-refl e = record {
  aggregate_id = refl;
  aggregate_version = refl;
  topic = refl;
  payload = refl;
}

-- Bookkeeping on events keeps their subjects.
module _ (db : Db) (p : OutboxEvent → Bool) (f : OutboxEvent → OutboxEvent)
    (same : (e : OutboxEvent) → SameSubject e (f e)) where
  requeued_from :
      (e' : OutboxEvent)
      → Memᴰ e' (update_where p f db.outbox)
      → (e : OutboxEvent) × Memᴰ e db.outbox × SameSubject e e'
  requeued_from e' m =
      let (x, mx, cases) = update_where-mem p f db.outbox m in
      elim cases [
        | inl (_, e) ↦ (x, mx, subst (λ y. SameSubject x y) (sym e) (SameSubject-refl x))
        | inr (_, e) ↦ (x, mx, subst (λ y. SameSubject x y) (sym e) (same x))
      ]

  requeued : (e : OutboxEvent) → SameSubject e (if p e then f e else e)
  requeued e = elim (Bool-cases (p e)) [ inl q ↦ rw q (same e) | inr q ↦ rw q (SameSubject-refl e) ]

  pub requeue-Quiet : Quiet db (record db { outbox = update_where p f db.outbox })
  requeue-Quiet = record {
    runs_from = λ r m. (r, m, SameRun-refl r);
    runs_to = λ r m. (r, m, SameRun-refl r);
    id_count = λ i. refl;
    key_count = λ k. refl;
    events_from = requeued_from;
    events_to = λ e m. (_, mem-update_where p f db.outbox m, requeued e);
    steps_to = λ s m. (s, m, refl, refl);
    step_count = λ i h. h;
    steps_sound = λ sound. sound;
    reached_count = λ sound i v. refl;
  }

-- A saved run that moved nowhere.
module _ {db : Db} (c : IsConsistent db) (run run' : AuditRun) (found : Memᴰ run db.runs)
    (same : SameRun run run') where
  abbrev hit : AuditRun → Bool
  hit = at_version run.id run.version

  saved_same : (x : AuditRun) → Memᴰ x db.runs → hit x ≡ true → SameRun x (saved_over run' x)
  unfolding saved_over
  saved_same x m q =
      let is_run : x ≡ run = only_run c m found (ground arith) in
      record {
        identity = record { id = refl; idempotency_key = refl; request_fingerprint = refl };
        state = same.state ∙ ap (λ y. y.state) (sym is_run);
        version = same.version ∙ ap (λ y. y.version) (sym is_run);
        completed_at = same.completed_at ∙ ap (λ y. y.completed_at) (sym is_run);
      }

  saved_from :
      (r' : AuditRun)
      → Memᴰ r' (update_where hit (saved_over run') db.runs)
      → (r : AuditRun) × Memᴰ r db.runs × SameRun r r'
  saved_from r' m =
      let (x, mx, cases) = update_where-mem hit (saved_over run') db.runs m in
      elim cases [
        | inl (_, e) ↦ (x, mx, subst (λ y. SameRun x y) (sym e) (SameRun-refl x))
        | inr (q, e) ↦ (x, mx, subst (λ y. SameRun x y) (sym e) (saved_same x mx q))
      ]

  saved_to : (x : AuditRun) → Memᴰ x db.runs → SameRun x (if hit x then saved_over run' x else x)
  saved_to x m = elim (Bool-cases (hit x)) [
    | inl q ↦ rw q (saved_same x m q)
    | inr q ↦ rw q (SameRun-refl x)
  ]

  pub save-Quiet : Quiet db (record db { runs = update_where hit (saved_over run') db.runs })
  unfolding saved_over
  save-Quiet = record {
    runs_from = saved_from;
    runs_to = λ r m. (_, mem-update_where hit (saved_over run') db.runs m, saved_to r m);
    id_count =
        λ i. count_where-update_same (has_id i) hit (saved_over run') db.runs (λ x m q. refl);
    key_count =
        λ k. count_where-update_same (has_key k) hit (saved_over run') db.runs (λ x m q. refl);
    events_from = λ e m. (e, m, SameSubject-refl e);
    events_to = λ e m. (e, m, SameSubject-refl e);
    steps_to = λ s m. (s, m, refl, refl);
    step_count = λ i h. h;
    steps_sound = λ sound. sound;
    reached_count = λ sound i v. refl;
  }
