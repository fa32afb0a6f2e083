-- ===== src/Execution/Advances.antt =====
-- `finalize` and `fail` move one run along one edge, or leave the database as it was.
use shadowops.Prelude.{
  ℕ, ◌+◌, String, ◌≡◌, refl, sym, subst, ◌∙◌, inl, inr, true, Option, none, some, arith, Memᴰ,
  find_where, find_where-mem, grown_to, grown_from, grown_new, ==_iff, ◌==◌,
}
use shadowops.Domain.Lifecycle.{is_terminal}
use shadowops.Domain.Errors.{ok}
use shadowops.Domain.Rows.{AuditRun, RunStep}
use shadowops.Domain.Run.{is_some}
use shadowops.Domain.Run.Laws.{advanced}
use shadowops.Domain.Run.Edges.{terminal_no_edge}
use shadowops.Store.Database.{Db, ◌>>=◌, >>=-ok, with_uow-result, Ending}
use shadowops.Store.Steps.{held_by}
use shadowops.Workflow.Change.{Announces, Advance, advance, Changes, here, next}
use shadowops.Workflow.Invariant.{IsConsistent, Held, held_row}
use shadowops.Execution.{
  next_event, final_state_of, finalize_run, finalize_token, finalize_body, fenced_run, fail_body,
  finalize, fail_run, fail_token, fail,
}
use shadowops.Execution.Inversion.{dead, finalize_run-ok, fail_run-ok}
use shadowops.Execution.Closing.{
  completed_row-Closes, failed_row-Closes, steps-IsSound, reached_count, steps_to, step_count,
}

pub next_event-Announces :
    (run : AuditRun) (event_id now : ℕ) → Announces (next_event run event_id now) run
unfolding next_event
next_event-Announces run event_id now = record {
  aggregate_id = refl;
  aggregate_version = refl;
  topic = refl;
  expected_state = refl;
  expected_version = refl;
}

module _ {db : Db} (held : RunStep) (token : ℕ) (c : IsConsistent db) (h : Held held db) where
  mine :
      (run : AuditRun)
      → run.id ≡ held.run_id
      → (s : RunStep) → Memᴰ s db.steps
      → held_by held.id token s ≡ true
      → s.run_id ≡ run.id
  unfolding held_by
  mine run e s m q = held_row s c h m (ground arith) ∙ sym e

  finalize_run-Advance :
      (event_id now : ℕ) (run : AuditRun) (db' : Db) {ending : Ending AuditRun}
      → Memᴰ run db.runs
      → run.id ≡ held.run_id
      → finalize_run held token event_id now run db ≡ ok (ending, db')
      → Advance db db'
  unfolding is_some
  finalize_run-Advance event_id now run db' m e q =
      let final = final_state_of held run in
      let (edge, said, w, outbox) = finalize_run-ok held token event_id now run db db' q in
      let closes = completed_row-Closes (run.version + 1) now final in
      let moved = advanced run final now in
      let event = next_event moved event_id now in
      let announces = next_event-Announces moved event_id now in
      record {
        run = run;
        run' = moved;
        found = m;
        edge = edge;
        identity = record { id = refl; idempotency_key = refl; request_fingerprint = refl };
        version = refl;
        completed_at = λ before. ground (arith, terminal_no_edge edge);
        runs = w.runs;
        events_from = λ e me.
            elim (grown_from event db.outbox db'.outbox (is_terminal final) outbox e me) [
              | inl old ↦ inl old
              | inr new ↦ inr (subst (λ x. Announces x moved) (sym new) announces)
            ];
        events_to = grown_to event db.outbox db'.outbox (is_terminal final) outbox;
        announced = λ live.
            (_, grown_new event db.outbox db'.outbox (is_terminal final) outbox live, announces);
        steps_to = steps_to closes w (mine run e);
        step_count = step_count closes w (mine run e);
        steps_sound = steps-IsSound closes w (mine run e);
        reached_count = reached_count closes w (mine run e);
      }

  fail_run-Advance :
      (now : ℕ) (code detail : String) (run : AuditRun) (db' : Db) {ending : Ending AuditRun}
      → Memᴰ run db.runs
      → run.id ≡ held.run_id
      → fail_run held token now code detail run db ≡ ok (ending, db')
      → Advance db db'
  unfolding is_some is_terminal
  fail_run-Advance now code detail run db' m e q =
      let (edge, said, w, outbox) = fail_run-ok held token now code detail run db db' q in
      let closes = failed_row-Closes (run.version + 1) now code detail in
      record {
        run = run;
        run' = dead held token now code detail run db db';
        found = m;
        edge = edge;
        identity = record { id = refl; idempotency_key = refl; request_fingerprint = refl };
        version = refl;
        completed_at = λ before. refl;
        runs = w.runs;
        events_from = λ e me. inl (subst (λ l. Memᴰ e l) outbox me);
        events_to = λ e me. subst (λ l. Memᴰ e l) (sym outbox) me;
        announced = λ live. absurd (cc);
        steps_to = steps_to closes w (mine run e);
        step_count = step_count closes w (mine run e);
        steps_sound = steps-IsSound closes w (mine run e);
        reached_count = reached_count closes w (mine run e);
      }

-- The run that a claim is fenced to, as `finalize` and `fail` first look it up.
pub fenced_run-ok :
    (held : RunStep) (db : Db) {run : AuditRun} {mid : Db}
    → fenced_run held db ≡ ok (run, mid)
    → Memᴰ run db.runs
      × (run.id ≡ held.run_id)
      × (run.version ≡ held.expected_run_version)
      × (mid ≡ db)
unfolding fenced_run ◌>>=◌
fenced_run-ok held db {run} h =
    let found : find_where (λ r. r.id == held.run_id) db.runs ≡ some run = ground arith in
    let (m, e) = find_where-mem _ db.runs found in (m, (==_iff _ _).0 e, ground arith, ground arith)

-- Whatever a claim does at its end, the database goes on by changes.
module _ {db : Db} (held : RunStep) (c : IsConsistent db) (h : Held held db) where
  finalize_body-Advance :
      (event_id now token : ℕ) (db' : Db) {ending : Ending AuditRun}
      → finalize_body held event_id now token db ≡ ok (ending, db')
      → Advance db db'
  unfolding finalize_body
  finalize_body-Advance event_id now token db' {ending} q =
      let (run, mid, e1, h1) = >>=-ok _ _ db q in
      let (m, same, fresh, e2) = fenced_run-ok held db e1 in
      finalize_run-Advance held token c h event_id now run db' m same
        (subst (λ d. finalize_run held token event_id now run d ≡ ok (ending, db')) e2 h1)

  fail_body-Advance :
      (now token : ℕ) (code detail : String) (db' : Db) {ending : Ending AuditRun}
      → fail_body held now code detail token db ≡ ok (ending, db')
      → Advance db db'
  unfolding fail_body
  fail_body-Advance now token code detail db' {ending} q =
      let (run, mid, e1, h1) = >>=-ok _ _ db q in
      let (m, same, fresh, e2) = fenced_run-ok held db e1 in
      fail_run-Advance held token c h now code detail run db' m same
        (subst (λ d. fail_run held token now code detail run d ≡ ok (ending, db')) e2 h1)

  finalize_token-Changes :
      (event_id now : ℕ) (token : Option ℕ)
      → Changes db (finalize_token held event_id now token db).1
  unfolding finalize_token
  finalize_token-Changes event_id now none = here
  finalize_token-Changes event_id now (some token) =
      with_uow-result (Changes db) (finalize_body held event_id now token) db here
        λ a db' q. next here (advance (finalize_body-Advance event_id now token db' q))

  pub finalize-Changes : (event_id now : ℕ) → Changes db (finalize held event_id now db).1
  unfolding finalize
  finalize-Changes event_id now = finalize_token-Changes event_id now held.claim_token

  fail_token-Changes :
      (now : ℕ) (code detail : String) (token : Option ℕ)
      → Changes db (fail_token held now code detail token db).1
  unfolding fail_token
  fail_token-Changes now code detail none = here
  fail_token-Changes now code detail (some token) =
      with_uow-result (Changes db) (fail_body held now code detail token) db here
        λ a db' q. next here (advance (fail_body-Advance now token code detail db' q))

  pub fail-Changes : (now : ℕ) (code detail : String) → Changes db (fail held now code detail db).1
  unfolding fail
  fail-Changes now code detail = fail_token-Changes now code detail held.claim_token
