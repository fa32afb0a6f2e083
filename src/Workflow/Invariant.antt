-- ===== src/Workflow/Invariant.antt =====
-- The invariant of the control database.
use shadowops.Prelude.{
  ap, ℕ, ◌+◌, ◌≤◌, ◌<◌, ◌≡◌, refl, ◌∙◌, String, false, List, Memᴰ, ==_iff, count_where,
  count_where_unique,
}
use shadowops.Domain.Lifecycle.{is_terminal}
use shadowops.Domain.Rows.{AuditRun, RunStep, OutboxEvent}
use shadowops.Domain.Run.{is_some}
use shadowops.Domain.Run.Edges.{progress}
use shadowops.Store.Database.{Db}
use shadowops.Workflow.Change.{has_id, has_key, is_step, reached, Announces, IsSound}

pub record IsConsistent (db : Db) : Type 0 where
  pub one_id : (i : ℕ) → count_where (has_id i) db.runs ≤ 1
  pub one_key : (k : String) → count_where (has_key k) db.runs ≤ 1
  pub one_step : (i : ℕ) → count_where (is_step i) db.steps ≤ 1
  pub announced :
      (r : AuditRun)
      → Memᴰ r db.runs
      → is_terminal r.state ≡ false
      → (e : OutboxEvent) × Memᴰ e db.outbox × Announces e r
  pub not_ahead :
      (e : OutboxEvent) (r : AuditRun)
      → Memᴰ e db.outbox
      → Memᴰ r db.runs
      → e.aggregate_id ≡ r.id
      → e.aggregate_version ≤ r.version
  pub owned :
      (e : OutboxEvent)
      → Memᴰ e db.outbox
      → (r : AuditRun) × Memᴰ r db.runs × (r.id ≡ e.aggregate_id)
  pub sound : (s : RunStep) → Memᴰ s db.steps → IsSound db.runs s
  pub recorded :
      (r : AuditRun) (v : ℕ)
      → Memᴰ r db.runs
      → 2 ≤ v
      → v ≤ r.version
      → count_where (reached r.id v) db.steps ≡ 1
  pub unrecorded :
      (r : AuditRun) (v : ℕ)
      → Memᴰ r db.runs
      → r.version < v
      → count_where (reached r.id v) db.steps ≡ 0
  pub early : (i v : ℕ) → v ≤ 1 → count_where (reached i v) db.steps ≡ 0
  pub versions :
      (r : AuditRun) → Memᴰ r db.runs → (1 ≤ r.version) × (r.version ≤ 1 + progress r.state)
  pub completion : (r : AuditRun) → Memᴰ r db.runs → is_some r.completed_at ≡ is_terminal r.state

pub only_run :
    {db : Db} {r s : AuditRun}
    → IsConsistent db
    → Memᴰ r db.runs
    → Memᴰ s db.runs
    → r.id ≡ s.id
    → r ≡ s
only_run {db} {r} {s} c mr ms e =
    count_where_unique (has_id s.id) db.runs (c.one_id s.id) mr ms ((==_iff _ _).1 e)
      ((==_iff _ _).1 refl)

pub IsSound-owner :
    {runs runs' : List AuditRun} {s : RunStep}
    → ((r : AuditRun) → Memᴰ r runs → (r' : AuditRun) × Memᴰ r' runs' × (r'.id ≡ r.id))
    → IsSound runs s
    → IsSound runs' s
IsSound-owner carried h =
    let (r, m, e) = h.owner in
    let (r', m', e') = carried r m in record { open_ended = h.open_ended; owner = (r', m', e' ∙ e) }

-- A claim that the database gave out: its row is there.
pub record Held (held : RunStep) (db : Db) : Type 0 where
  pub row : RunStep
  pub found : Memᴰ row db.steps
  pub id : row.id ≡ held.id
  pub run_id : row.run_id ≡ held.run_id

pub held_row :
    {held : RunStep} {db : Db} (s : RunStep)
    → IsConsistent db
    → Held held db
    → Memᴰ s db.steps
    → s.id ≡ held.id
    → s.run_id ≡ held.run_id
held_row {held} {db} s c h m e =
    ap (λ x. x.run_id)
      (count_where_unique (is_step held.id) db.steps (c.one_step held.id) m h.found
        ((==_iff _ _).1 e) ((==_iff _ _).1 h.id))
    ∙ h.run_id
