-- ===== src/Execution/Given.antt =====
-- A claim that `claim` gives out is on record.
use shadowops.Prelude.{
  ℕ, ◌≡◌, refl, sym, ap, ◌∙◌, subst, inl, inr, Bool, true, false, not, Option, none, some, ◌∷◌,
  arith, Memᴰ, if◌then◌else◌, find_where, find_where-mem, any_where, update_where, mem-update_where,
  sort_by, select, ◌==◌, Bool-cases, Option-cases,
}
use mathlib.Core.List.{head?}
use shadowops.Domain.Lifecycle.{RunState, is_terminal}
use shadowops.Domain.Errors.{ok}
use shadowops.Domain.Rows.{AuditRun, RunStep, OutboxEvent}
use shadowops.Store.Database.{Db, Tx, ◌>>=◌, >>=-ok, with_uow-ok, Ending, commit, rollback}
use shadowops.Store.Runs
use shadowops.Store.Steps
use shadowops.Store.Outbox
use shadowops.Store.Steps.{claimable, reclaimed, insertable}
use shadowops.Workflow.Change.{is_step}
use shadowops.Workflow.Invariant.{Held}
use shadowops.Execution.{
  ClaimInput, candidate_for, claim, claim_body, claim_event, claim_run, claim_stage, ending_of,
  skip, is_expected, in_flight, claim_target,
}

claim_row-Held :
    (candidate : RunStep) (db db' : Db) {step : RunStep}
    → Steps.claim candidate db ≡ ok (some step, db')
    → Held step db'
unfolding Steps.claim reclaimed
claim_row-Held candidate db db' {step} h =
    elim (Bool-cases (any_where (λ s. Steps.same_key s candidate) db.steps)) [
      | inl known ↦ elim (Option-cases (find_where (claimable candidate) db.steps)) [
        | inl missing ↦ absurd (ground arith)
        | inr (row, found) ↦
            let (m, p) = find_where-mem (claimable candidate) db.steps found in
            let is_step : step ≡ reclaimed candidate row = ground arith in
            let is_db : db'.steps
                ≡ update_where (claimable candidate) (reclaimed candidate) db.steps =
              ground arith in
            record {
              row = reclaimed candidate row;
              found =
                  subst (λ l. Memᴰ (reclaimed candidate row) l) (sym is_db)
                    (rw p at
                      (mem-update_where (claimable candidate) (reclaimed candidate) db.steps m));
              id = ground arith;
              run_id = ground arith;
            }
      ]
      | inr unknown ↦ elim (Bool-cases (any_where (is_step candidate.id) db.steps)) [
        | inl clash ↦ absurd (ground arith)
        | inr free ↦ elim (Bool-cases (insertable candidate db)) [
          | inl fits ↦
              let is_db : db'.steps ≡ candidate ∷ db.steps = ground arith in
              let is_step : step ≡ candidate = ground arith in
              record {
                row = candidate;
                found = subst (λ l. Memᴰ candidate l) (sym is_db) (Memᴰ.head refl);
                id = ground arith;
                run_id = ground arith;
              }
          | inr refused ↦ absurd (ground arith)
        ]
      ]
    ]

value : Ending (Option RunStep) → Option RunStep
value (commit a) = a
value (rollback a) = a

abbrev Gives : RunStep → Ending (Option RunStep) → Db → Type 0
Gives step ending db = Held step db × (ending ≡ commit (some step))

module _ (input : ClaimInput) (db db' : Db) {step : RunStep} {ending : Ending (Option RunStep)}
    (gave : value ending ≡ some step) where
  not_skipped :
      (b : Bool) (m : Tx (Ending (Option RunStep)))
      → (if b then skip else m) db ≡ ok (ending, db')
      → m db ≡ ok (ending, db')
  unfolding value
  not_skipped true m h = absurd (ground arith)
  not_skipped false m h = h

  claim_stage-Held :
      (run : AuditRun) (target : Option RunState)
      → claim_stage input run target db ≡ ok (ending, db')
      → Gives step ending db'
  unfolding claim_stage value
  claim_stage-Held run none h = absurd (ground arith)
  claim_stage-Held run (some target) h =
      let (claimed, mid, e1, h1) = >>=-ok _ _ db h in
      let same_db : mid ≡ db' = ground arith in
      let said : ending_of claimed ≡ ending = ground arith in
      let same : claimed ≡ some step = ended claimed said in
      (
        claim_row-Held (candidate_for input run target) db db' (
            subst (λ c. Steps.claim (candidate_for input run target) db ≡ ok (c, db')) same
              (subst (λ d. Steps.claim (candidate_for input run target) db ≡ ok (claimed, d))
                same_db e1)),
        sym said ∙ ap ending_of same,
      )
    where
      ended : (o : Option RunStep) → ending_of o ≡ ending → o ≡ some step
      ended none e = ground arith
      ended (some s) e = ground arith

  claim_run-Held :
      (event : OutboxEvent) (found : Option AuditRun)
      → claim_run input event found db ≡ ok (ending, db')
      → Gives step ending db'
  unfolding claim_run ◌>>=◌ Steps.get_current value
  claim_run-Held event none h = absurd (ground arith)
  claim_run-Held event (some run) h =
      let fresh = not_skipped (is_terminal run.state) _ h in
      let expected = not_skipped (not (is_expected run event)) _ fresh in
      let current =
        head? (sort_by Steps.newest_first (select (Steps.running_of run.id) db.steps)) in
      claim_stage-Held run (claim_target run)
        (not_skipped (in_flight run current input.now) _ expected)

  claim_event-Held :
      (found : Option OutboxEvent)
      → claim_event input found db ≡ ok (ending, db')
      → Gives step ending db'
  unfolding claim_event ◌>>=◌ Runs.get value
  claim_event-Held none h = absurd (ground arith)
  claim_event-Held (some event) h =
      claim_run-Held event (find_where (λ r. r.id == event.aggregate_id) db.runs) (ground arith)

  claim_body-Held :
      (event_id : ℕ) → claim_body event_id input db ≡ ok (ending, db') → Gives step ending db'
  unfolding claim_body ◌>>=◌ Outbox.get
  claim_body-Held event_id h = claim_event-Held (find_where (λ e. e.id == event_id) db.outbox) h

pub claim-Held :
    (event_id : ℕ) (input : ClaimInput) (db db' : Db) {step : RunStep}
    → claim event_id input db ≡ (ok (some step), db')
    → Held step db'
unfolding claim value
claim-Held event_id input db db' {step} h =
    let (mid, cases) = with_uow-ok (claim_body event_id input) db db' h in
    elim cases [
      | inl (e, same) ↦
          subst (λ d. Held step d) (sym same)
            (claim_body-Held input db mid {ending = commit (some step)} refl event_id e).0
      | inr (e, same) ↦
          absurd (
            rolled (claim_body-Held input db mid {ending = rollback (some step)} refl event_id e).1)
    ]
  where
    rolled : rollback (some step) ≡ commit (some step) → ⊥
    rolled q = cc
