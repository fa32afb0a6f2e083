-- ===== src/Execution/Fencing.antt =====
-- The fence around a claim: its run must still be at the version that the claim was made for.
use shadowops.Prelude.{
  ℕ, ◌+◌, ◌≡◌, ◌≢◌, refl, sym, ap, subst, ◌∙◌, inl, inr, String, Option, none, some, List, arith,
  Memᴰ, if◌then◌else◌, find_where, find_where-mem, mem-find_where, mem-update_where, update_where,
  ==_iff, ◌==◌,
}
use shadowops.Domain.Errors.{ok, err, claim_lost_error}
use shadowops.Domain.Rows.{AuditRun, RunStep}
use shadowops.Store.Database.{Db, ◌>>=◌, >>=-ok, >>=-err, with_uow-err, with_uow-ok, Ending, commit}
use shadowops.Store.Runs
use shadowops.Store.Runs.{saved_over, at_version}
use shadowops.Workflow.Change.{Changes}
use shadowops.Workflow.Invariant.{IsConsistent, Held, only_run}
use shadowops.Workflow.History.{run-Descends, Changes-IsConsistent}
use shadowops.Execution.{
  fenced_run, final_state_of, finalize_run, require_run, finalize, finalize_token, finalize_body,
  fail, fail_token, fail_body, get_run_for_claim,
}
use shadowops.Execution.Advances.{fenced_run-ok, finalize-Changes}
use shadowops.Execution.Inversion.{finalize_run-ok}
use shadowops.Execution.Finished.{Finishes, Wrote-Finishes}
use shadowops.Domain.Run.Laws.{advanced}

module _ (held : RunStep) (db : Db) (run : AuditRun) (c : IsConsistent db) (m : Memᴰ run db.runs)
    (same : run.id ≡ held.run_id) where
  pub found : find_where (λ r. r.id == held.run_id) db.runs ≡ some run
  found =
      let (r, q) = mem-find_where (λ x. x.id == held.run_id) db.runs m ((==_iff _ _).1 same) in
      let (mr, e) = find_where-mem (λ x. x.id == held.run_id) db.runs q in
      q ∙ ap some (only_run c mr m ((==_iff _ _).0 e ∙ sym same))

  fenced_out :
      run.version ≢ held.expected_run_version → fenced_run held db ≡ err (claim_lost_error held.id)
  unfolding fenced_run require_run Runs.get ◌>>=◌
  fenced_out stale = ground (arith, found)

module _ (held : RunStep) (db : Db)
    (out : fenced_run held db ≡ err (claim_lost_error held.id)) where
  finalized :
      (event_id now : ℕ) (t : Option ℕ)
      → finalize_token held event_id now t db ≡ (err (claim_lost_error held.id), db)
  unfolding finalize_token finalize_body
  finalized event_id now none = refl
  finalized event_id now (some k) = with_uow-err _ db (>>=-err (fenced_run held) _ db out)

  failed :
      (now : ℕ) (code detail : String) (t : Option ℕ)
      → fail_token held now code detail t db ≡ (err (claim_lost_error held.id), db)
  unfolding fail_token fail_body
  failed now code detail none = refl
  failed now code detail (some k) = with_uow-err _ db (>>=-err (fenced_run held) _ db out)

-- A claim whose run is at another version than the claim was made for is refused by every use
-- case, with `ClaimLostError`, and nothing is written.
pub stale_claim :
    (held : RunStep) (db : Db) (run : AuditRun) (event_id now : ℕ) (code detail : String)
    → IsConsistent db
    → Memᴰ run db.runs
    → run.id ≡ held.run_id
    → run.version ≢ held.expected_run_version
    → (finalize held event_id now db ≡ (err (claim_lost_error held.id), db))
      × (fail held now code detail db ≡ (err (claim_lost_error held.id), db))
      × (get_run_for_claim held db ≡ (err (claim_lost_error held.id), db))
unfolding finalize fail get_run_for_claim
stale_claim held db run event_id now code detail c m same stale =
    let out = fenced_out held db run c m same stale in
    (
      finalized held db out event_id now held.claim_token,
      failed held db out now code detail held.claim_token,
      with_uow-err _ db (>>=-err (fenced_run held) _ db out),
    )

module _ (held : RunStep) (event_id now : ℕ) (db : Db) where
  -- The run that a claim was finished for, and what became of it.
  record Finished (ending : Ending AuditRun) (db' : Db) : Type 0 where
    run : AuditRun
    found : Memᴰ run db.runs
    same : run.id ≡ held.run_id
    fresh : run.version ≡ held.expected_run_version
    said : ending ≡ commit (advanced run (final_state_of held run) now)
    finishes : Finishes held event_id now run (advanced run (final_state_of held run) now) db db'
    behind :
        (r : AuditRun) × Memᴰ r db'.runs
        × (r.id ≡ held.run_id)
        × (r.version ≡ held.expected_run_version + 1)

  moved_row :
      (run moved : AuditRun) (runs runs' : List AuditRun)
      → Memᴰ run runs
      → runs' ≡ update_where (at_version run.id run.version) (saved_over moved) runs
      → moved.version ≡ run.version + 1
      → (r : AuditRun) × Memᴰ r runs' × (r.id ≡ run.id) × (r.version ≡ run.version + 1)
  unfolding saved_over
  moved_row run moved runs runs' m e v =
      let r = if at_version run.id run.version run then saved_over moved run else run in
      (r, subst (λ l. Memᴰ r l) (sym e) (mem-update_where _ _ runs m), ground arith, ground arith)

  body-Finished :
      (token : ℕ) (db' : Db) {ending : Ending AuditRun}
      → finalize_body held event_id now token db ≡ ok (ending, db')
      → Finished ending db'
  unfolding finalize_body
  body-Finished token db' {ending} q =
      let (run, mid, e1, h1) = >>=-ok _ _ db q in
      let (m, same, fresh, e2) = fenced_run-ok held db e1 in
      let h2 = subst (λ d. finalize_run held token event_id now run d ≡ ok (ending, db')) e2 h1 in
      let (edge, said, w, outbox) = finalize_run-ok held token event_id now run db db' h2 in
      let (r, mr, i, v) =
        moved_row run (advanced run (final_state_of held run) now) db.runs db'.runs m w.runs refl in
      record {
        run = run;
        found = m;
        same = same;
        fresh = fresh;
        said = said;
        finishes = Wrote-Finishes held token event_id now run db db' m edge w outbox;
        behind = (r, mr, i ∙ same, v ∙ ap (λ n. n + 1) fresh);
      }

  token-Finished :
      (t : Option ℕ) (db' : Db) {done : AuditRun}
      → finalize_token held event_id now t db ≡ (ok done, db')
      → Finished (commit done) db'
  unfolding finalize_token
  token-Finished none db' q = absurd (cc)
  token-Finished (some token) db' {done} q =
      let (mid, how) = with_uow-ok (finalize_body held event_id now token) db db' q in
      elim how [
        | inl (e, at) ↦ subst (λ d. Finished (commit done) d) (sym at) (body-Finished token mid e)
        | inr (e, at) ↦ absurd (ground (arith, (body-Finished token mid e).said))
      ]

-- A claim is finished once: after `finalize` returned a run, and whatever changes were made since,
-- any claim for the same run at the same version is refused with `ClaimLostError` by each use case,
-- and nothing is written.
pub fenced_once :
    (held : RunStep) (event_id now : ℕ) (db db' later : Db) {done : AuditRun}
    → IsConsistent db
    → Held held db
    → finalize held event_id now db ≡ (ok done, db')
    → Changes db' later
    → (other : RunStep) (event_id' now' : ℕ) (code detail : String) → other.run_id ≡ held.run_id
    → other.expected_run_version ≡ held.expected_run_version
    → (finalize other event_id' now' later ≡ (err (claim_lost_error other.id), later))
      × (fail other now' code detail later ≡ (err (claim_lost_error other.id), later))
      × (get_run_for_claim other later ≡ (err (claim_lost_error other.id), later))
unfolding finalize
fenced_once held event_id now db db' later c on_record h changes other event_id' now' code detail
      same version =
    let f = token-Finished held event_id now db held.claim_token db' h in
    let (r, m, i, v) = f.behind in
    let c' = Changes-IsConsistent c (
      subst (λ d. Changes db d) (ap (λ p. p.1) h)
        (finalize-Changes held c on_record event_id now)) in
    let (r', m', d) = run-Descends r c' m changes in
    stale_claim other later r' event_id' now' code detail (Changes-IsConsistent c' changes) m'
      (d.identity.id ∙ i ∙ sym same) (λ e. omega (arith, e, d.version, v, version))
