-- ===== src/Execution/Record.antt =====
-- The run that `fail` returns is the one that is on record then.
use shadowops.Prelude.{
  ℕ, ◌+◌, ◌≡◌, refl, sym, ap, subst, ◌∙◌, inl, inr, String, Option, none, some, arith, Memᴰ,
  if◌then◌else◌, update_where, mem-update_where,
}
use shadowops.Domain.Lifecycle.{RunState}
use shadowops.Domain.Errors.{ok}
use shadowops.Domain.Rows.{AuditRun, RunStep}
use shadowops.Domain.Run.Edges.{◌⟶◌}
use shadowops.Store.Database.{Db, >>=-ok, with_uow-ok, Ending, commit}
use shadowops.Store.Runs.{at_version, saved_over}
use shadowops.Execution.{fail, fail_token, fail_body, fail_run}
use shadowops.Execution.Advances.{fenced_run-ok}
use shadowops.Execution.Inversion.{fail_run-ok, dead}

-- The run is on record, one version behind where the claim stood, and there by an edge of the
-- lifecycle graph.
pub record Closed (held : RunStep) (done : AuditRun) (db : Db) : Type 0 where
  pub id : done.id ≡ held.run_id
  pub version : done.version ≡ held.expected_run_version + 1
  pub before : RunState
  pub edge : before ⟶ done.state
  pub row : AuditRun
  pub found : Memᴰ row db.runs
  pub row_id : row.id ≡ done.id
  pub row_version : row.version ≡ done.version
  pub row_state : row.state ≡ done.state
  pub row_code : row.failure_code ≡ done.failure_code

closed :
    (held : RunStep) (run moved : AuditRun) (db db' : Db)
    → Memᴰ run db.runs
    → run.id ≡ held.run_id
    → run.version ≡ held.expected_run_version
    → run.state ⟶ moved.state
    → moved.id ≡ run.id
    → moved.version ≡ run.version + 1
    → db'.runs ≡ update_where (at_version run.id run.version) (saved_over moved) db.runs
    → Closed held moved db'
unfolding saved_over
closed held run moved db db' m same fresh edge kept next runs =
    let row = if at_version run.id run.version run then saved_over moved run else run in
    record {
      id = kept ∙ same;
      version = next ∙ ap (λ n. n + 1) fresh;
      before = run.state;
      edge = edge;
      row = row;
      found = subst (λ l. Memᴰ row l) (sym runs) (mem-update_where _ _ db.runs m);
      row_id = ground (arith, kept);
      row_version = ground (arith, next);
      row_state = ground arith;
      row_code = ground arith;
    }

module _ (held : RunStep) (now : ℕ) (code detail : String) (db : Db) where
  abbrev Failed : AuditRun → Db → Type 0
  Failed done db' =
      Closed held done db' × (done.state ≡ RunState.failed) × (done.failure_code ≡ some code)

  fail_body-Closed :
      (token : ℕ) (db' : Db) {ending : Ending AuditRun}
      → fail_body held now code detail token db ≡ ok (ending, db')
      → (done : AuditRun) × (ending ≡ commit done) × Failed done db'
  unfolding fail_body
  fail_body-Closed token db' {ending} q =
      let (run, mid, e1, h1) = >>=-ok _ _ db q in
      let (m, same, fresh, e2) = fenced_run-ok held db e1 in
      let h2 = subst (λ d. fail_run held token now code detail run d ≡ ok (ending, db')) e2 h1 in
      let (edge, said, w, outbox) = fail_run-ok held token now code detail run db db' h2 in
      let done = dead held token now code detail run db db' in
      (done, said, (closed held run done db db' m same fresh edge refl refl w.runs, refl, refl))

  fail_token-Closed :
      (t : Option ℕ) (db' : Db) {done : AuditRun}
      → fail_token held now code detail t db ≡ (ok done, db')
      → Failed done db'
  unfolding fail_token
  fail_token-Closed none db' q = absurd (cc)
  fail_token-Closed (some token) db' {done} q =
      let (mid, how) = with_uow-ok (fail_body held now code detail token) db db' q in
      elim how [
        | inl (e, at) ↦
            let (run, said, c) = fail_body-Closed token mid e in
            let same : run ≡ done = ground (arith, said) in
            subst (λ d. Failed done d) (sym at) (subst (λ r. Failed r mid) same c)
        | inr (e, at) ↦
            let (run, said, c) = fail_body-Closed token mid e in absurd (ground (arith, said))
      ]

  pub fail-Closed :
      (db' : Db) {done : AuditRun} → fail held now code detail db ≡ (ok done, db') → Failed done db'
  unfolding fail
  fail-Closed db' h = fail_token-Closed held.claim_token db' h
