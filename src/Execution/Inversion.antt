-- ===== src/Execution/Inversion.antt =====
-- What a committed transaction of `RunExecutionService` wrote.
use shadowops.Prelude.{
  ℕ, ◌+◌, String, ◌≡◌, Bool, some, ◌∷◌, arith, if◌then◌else◌, count_where, update_where,
}
use shadowops.Domain.Lifecycle.{RunState, is_terminal}
use shadowops.Domain.Errors.{ok}
use shadowops.Domain.Rows.{AuditRun, RunStep}
use shadowops.Domain.Run.Laws.{advanced, transition-ok}
use shadowops.Domain.Run.Edges.{◌⟶◌}
use shadowops.Store.Database.{Db, >>=-ok, >>-ok, lift-ok, pure, Ending, commit}
use shadowops.Store.Runs.{at_version, saved_over, save-ok}
use shadowops.Store.Steps.{held_by, completed_row, failed_row, fenced_update}
use shadowops.Execution.{next_event, final_state_of, finalize_run, fail_run, require_row, announce}

-- The rows behind an advance of `run` to `moved`, recorded by the step that `token` holds.
pub record Wrote (held : RunStep) (token : ℕ) (row : RunStep → RunStep) (run moved : AuditRun)
    (db db' : Db) : Type 0 where
  pub held_once : count_where (held_by held.id token) db.steps ≡ 1
  pub runs : db'.runs ≡ update_where (at_version run.id run.version) (saved_over moved) db.runs
  pub steps : db'.steps ≡ update_where (held_by held.id token) row db.steps

abbrev pub after_step : RunStep → ℕ → (RunStep → RunStep) → Db → Db
after_step held token row db = record db {
  steps = update_where (held_by held.id token) row db.steps;
}

fence-ok :
    (held : RunStep) (token : ℕ) (row : RunStep → RunStep) (db : Db) {done : Bool} {u : Unit {0}}
    {mid mid' : Db}
    → fenced_update held.id token row db ≡ ok (done, mid)
    → require_row held done mid ≡ ok (u, mid')
    → (count_where (held_by held.id token) db.steps ≡ 1) × (mid' ≡ after_step held token row db)
unfolding fenced_update require_row
fence-ok held token row db h h' = (ground arith, ground arith)

announce-ok :
    (run : AuditRun) (event_id now : ℕ) (db : Db) {u : Unit {0}} {mid : Db}
    → announce run event_id now db ≡ ok (u, mid)
    → mid ≡ (
        if is_terminal run.state
        then db
        else record db { outbox = next_event run event_id now ∷ db.outbox })
unfolding announce
announce-ok run event_id now db h = ground arith

module _ (held : RunStep) (token event_id now : ℕ) (run : AuditRun) (db db' : Db) where
  abbrev moved : AuditRun
  moved = advanced run (final_state_of held run) now

  abbrev final_row : RunStep → RunStep
  final_row = completed_row (run.version + 1) now (final_state_of held run)

  -- The five statements put together.
  collect :
      {ending : Ending AuditRun} {r : AuditRun} {m2 m3 m4 m5 : Db}
      → m2 ≡ after_step held token final_row db
      → r ≡ moved
      → m3 ≡ m2
      → m4 ≡ record m3 { runs = update_where (at_version r.id run.version) (saved_over r) m3.runs }
      → m5 ≡ (
          if is_terminal r.state
          then m4
          else record m4 { outbox = next_event r event_id now ∷ m4.outbox })
      → pure (commit r) m5 ≡ ok (ending, db')
      → (ending ≡ commit moved)
        × (db'.runs ≡ update_where (at_version run.id run.version) (saved_over moved) db.runs)
        × (db'.steps ≡ update_where (held_by held.id token) final_row db.steps)
        × (db'.outbox ≡ (
            if is_terminal (final_state_of held run)
            then db.outbox
            else next_event moved event_id now ∷ db.outbox))
  collect e2 er e3 e4 e5 h = ground arith

  pub finalize_run-ok :
      {ending : Ending AuditRun}
      → finalize_run held token event_id now run db ≡ ok (ending, db')
      → (run.state ⟶ final_state_of held run)
        × (ending ≡ commit moved)
        × Wrote held token final_row run moved db db'
        × (db'.outbox ≡ (
            if is_terminal (final_state_of held run)
            then db.outbox
            else next_event moved event_id now ∷ db.outbox))
  unfolding finalize_run
  finalize_run-ok h =
      let (done, m1, e1, h1) = >>=-ok _ _ db h in
      let (u2, m2, e2, h2) = >>-ok _ _ m1 h1 in
      let (r, m3, e3, h3) = >>=-ok _ _ m2 h2 in
      let (u4, m4, e4, h4) = >>-ok _ _ m3 h3 in
      let (u5, m5, e5, h5) = >>-ok _ _ m4 h4 in
      let (legal, e6) = transition-ok run (final_state_of held run) now (lift-ok _ m2 e3).0 in
      let (once, e7) = fence-ok held token final_row db e1 e2 in
      let (said, runs, steps, outbox) =
        collect e7 e6 (lift-ok _ m2 e3).1 (save-ok r run.version m3 e4)
          (announce-ok r event_id now m4 e5) h5 in
      (legal, said, record { held_once = once; runs = runs; steps = steps }, outbox)

module _ (held : RunStep) (token now : ℕ) (code detail : String) (run : AuditRun)
    (db db' : Db) where
  abbrev pub noted : AuditRun
  noted = record run { failure_code = some code; failure_detail = some detail }

  abbrev pub dead : AuditRun
  dead = advanced noted RunState.failed now

  abbrev dead_row : RunStep → RunStep
  dead_row = failed_row (run.version + 1) now code detail

  gather :
      {ending : Ending AuditRun} {r : AuditRun} {m2 m3 m4 : Db}
      → m2 ≡ after_step held token dead_row db
      → r ≡ dead
      → m3 ≡ m2
      → m4 ≡ record m3 { runs = update_where (at_version r.id run.version) (saved_over r) m3.runs }
      → pure (commit r) m4 ≡ ok (ending, db')
      → (ending ≡ commit dead)
        × (db'.runs ≡ update_where (at_version run.id run.version) (saved_over dead) db.runs)
        × (db'.steps ≡ update_where (held_by held.id token) dead_row db.steps)
        × (db'.outbox ≡ db.outbox)
  gather e2 er e3 e4 h = ground arith

  pub fail_run-ok :
      {ending : Ending AuditRun}
      → fail_run held token now code detail run db ≡ ok (ending, db')
      → (run.state ⟶ RunState.failed)
        × (ending ≡ commit dead)
        × Wrote held token dead_row run dead db db'
        × (db'.outbox ≡ db.outbox)
  unfolding fail_run
  fail_run-ok h =
      let (done, m1, e1, h1) = >>=-ok _ _ db h in
      let (u2, m2, e2, h2) = >>-ok _ _ m1 h1 in
      let (r, m3, e3, h3) = >>=-ok _ _ m2 h2 in
      let (u4, m4, e4, h4) = >>-ok _ _ m3 h3 in
      let (legal, e6) = transition-ok noted RunState.failed now (lift-ok _ m2 e3).0 in
      let (once, e7) = fence-ok held token dead_row db e1 e2 in
      let (said, runs, steps, outbox) =
        gather e7 e6 (lift-ok _ m2 e3).1 (save-ok r run.version m3 e4) h4 in
      (legal, said, record { held_once = once; runs = runs; steps = steps }, outbox)
