-- ===== src/Execution/Claims.antt =====
-- `claim` and `heartbeat` move no run.
use shadowops.Prelude.{
  ℕ, ◌+◌, ◌≤◌, ◌≡◌, refl, sym, ap, subst, ◌∙◌, inl, inr, Bool, true, false, not, sort_by, select,
  Option, none, some, List, ◌∷◌, arith, Memᴰ, count_where, update_where, update_where-mem,
  mem-update_where, count_where-update_same, find_where, any_where, any_where-mem, count_where_none,
  ==_iff, ◌==◌, Bool-cases,
}
use mathlib.Core.List.{head?}
use shadowops.Domain.Lifecycle.{RunState, is_terminal, is_running}
use shadowops.Domain.Errors.{ok}
use shadowops.Domain.Rows.{AuditRun, RunStep, OutboxEvent}
use shadowops.Store.Database.{Db, ◌>>=◌, >>=-ok, with_uow-result, not_rolled_back, commit}
use shadowops.Store.Runs
use shadowops.Store.Steps
use shadowops.Store.Outbox
use shadowops.Store.Steps.{held_by, claimable, reclaimed, insertable}
use shadowops.Workflow.Change.{reached, is_step, IsSound, Quiet, quiet, Changes, here, next}
use shadowops.Workflow.Rows.{SameRun-refl, SameSubject-refl}
use shadowops.Execution.{
  ClaimInput, candidate_for, claim, claim_body, claim_event, claim_run, claim_stage, is_expected,
  in_flight, claim_target, heartbeat, heartbeat_body, heartbeat_token,
}

-- What a step statement must respect to be quiet.
pub record Tends (steps steps' : List RunStep) (runs : List AuditRun) : Type 0 where
  pub steps_to :
      (s : RunStep)
      → Memᴰ s steps
      → (s' : RunStep) × Memᴰ s' steps' × (s'.id ≡ s.id) × (s'.run_id ≡ s.run_id)
  pub step_count : (i : ℕ) → count_where (is_step i) steps ≤ 1 → count_where (is_step i) steps' ≤ 1
  pub steps_sound :
      ((s : RunStep) → Memᴰ s steps → IsSound runs s)
      → (s' : RunStep) → Memᴰ s' steps'
      → IsSound runs s'
  pub reached_count :
      ((s : RunStep) → Memᴰ s steps → IsSound runs s)
      → (i v : ℕ) → count_where (reached i v) steps' ≡ count_where (reached i v) steps

pub Tends-Quiet :
    (db : Db) (steps' : List RunStep)
    → Tends db.steps steps' db.runs
    → Quiet db (record db { steps = steps' })
Tends-Quiet db steps' t = record {
  runs_from = λ r m. (r, m, SameRun-refl r);
  runs_to = λ r m. (r, m, SameRun-refl r);
  id_count = λ i. refl;
  key_count = λ k. refl;
  events_from = λ e m. (e, m, SameSubject-refl e);
  events_to = λ e m. (e, m, SameSubject-refl e);
  steps_to = t.steps_to;
  step_count = t.step_count;
  steps_sound = t.steps_sound;
  reached_count = t.reached_count;
}

-- An update of running rows that keeps them running and keeps what they are known by.
pub record Renews (p : RunStep → Bool) (f : RunStep → RunStep) : Type 0 where
  pub was_running : (s : RunStep) → p s ≡ true → is_running s.status ≡ true
  pub id : (s : RunStep) → (f s).id ≡ s.id
  pub run_id : (s : RunStep) → (f s).run_id ≡ s.run_id
  pub resulting : (s : RunStep) → (f s).resulting_run_version ≡ s.resulting_run_version

module _ {p : RunStep → Bool} {f : RunStep → RunStep} (n : Renews p f) (steps : List RunStep)
    (runs : List AuditRun) where
  renewed-IsSound :
      ((s : RunStep) → Memᴰ s steps → IsSound runs s)
      → (s' : RunStep) → Memᴰ s' (update_where p f steps)
      → IsSound runs s'
  renewed-IsSound sound s' m =
      let (x, mx, cases) = update_where-mem p f steps m in
      elim cases [
        | inl (_, e) ↦ subst (λ s. IsSound runs s) (sym e) (sound x mx)
        | inr (q, e) ↦
            let (r, mr, h) = (sound x mx).owner in
            record {
              open_ended = λ live.
                  ap (λ s. s.resulting_run_version) e
                  ∙ n.resulting x
                  ∙ (sound x mx).open_ended (n.was_running x q);
              owner = (r, mr, h ∙ sym (n.run_id x) ∙ ap (λ s. s.run_id) (sym e));
            }
      ]

  pub Renews-Tends : Tends steps (update_where p f steps) runs
  unfolding reached
  Renews-Tends = record {
    steps_to = λ s m.
        (_, mem-update_where p f steps m, ground (arith, n.id s), ground (arith, n.run_id s));
    step_count = λ i h.
        rw (count_where-update_same (is_step i) p f steps λ x m q. ap (λ k. k == i) (n.id x)) h;
    steps_sound = renewed-IsSound;
    reached_count = λ sound i v.
        count_where-update_same (reached i v) p f steps
          λ x m q. ground (arith, n.run_id x, n.resulting x);
  }

pub added-IsSound :
    (step : RunStep) (steps : List RunStep) (runs : List AuditRun)
    → IsSound runs step
    → ((s : RunStep) → Memᴰ s steps → IsSound runs s)
    → (s' : RunStep) → Memᴰ s' (step ∷ steps)
    → IsSound runs s'
added-IsSound step steps runs fine sound s' (Memᴰ.head e) = subst (λ s. IsSound runs s) (sym e) fine
added-IsSound step steps runs fine sound s' (Memᴰ.tail m) = sound s' m

pub added_count :
    (step : RunStep) (steps : List RunStep) (i : ℕ)
    → any_where (is_step step.id) steps ≡ false
    → count_where (is_step i) steps ≤ 1
    → count_where (is_step i) (step ∷ steps) ≤ 1
unfolding count_where
added_count step steps i new few = ground (arith, count_where_none (is_step step.id) steps new)

-- A new row, whose identifier no row had, that records no version.
pub added-Tends :
    (step : RunStep) (steps : List RunStep) (runs : List AuditRun)
    → any_where (is_step step.id) steps ≡ false
    → IsSound runs step
    → step.resulting_run_version ≡ none
    → Tends steps (step ∷ steps) runs
unfolding count_where reached
added-Tends step steps runs new fine open' = record {
  steps_to = λ s m. (s, Memᴰ.tail m, refl, refl);
  step_count = λ i few. added_count step steps i new few;
  steps_sound = added-IsSound step steps runs fine;
  reached_count = λ sound i v. ground arith;
}

reclaimed-Renews : (candidate : RunStep) → Renews (claimable candidate) (reclaimed candidate)
unfolding claimable reclaimed
reclaimed-Renews candidate = record {
  was_running = λ s h. ground arith;
  id = λ s. refl;
  run_id = λ s. refl;
  resulting = λ s. refl;
}

insertable-owner :
    (step : RunStep) (db : Db)
    → insertable step db ≡ true
    → (r : AuditRun) × Memᴰ r db.runs × (r.id ≡ step.run_id)
unfolding insertable
insertable-owner step db h =
    let (r, m, e) = any_where-mem (λ (r : AuditRun). r.id == step.run_id) db.runs (ground arith) in
    (r, m, (==_iff _ _).0 e)

claim-Quiet :
    (candidate : RunStep) (db db' : Db) {claimed : Option RunStep}
    → candidate.resulting_run_version ≡ none
    → Steps.claim candidate db ≡ ok (claimed, db')
    → Quiet db db'
unfolding Steps.claim
claim-Quiet candidate db db' open' h =
    elim (Bool-cases (any_where (λ s. Steps.same_key s candidate) db.steps)) [
      | inl known ↦
          subst (λ d. Quiet db d) (ground arith)
            (Tends-Quiet db (update_where (claimable candidate) (reclaimed candidate) db.steps)
              (Renews-Tends (reclaimed-Renews candidate) db.steps db.runs))
      | inr unknown ↦ elim (Bool-cases (any_where (is_step candidate.id) db.steps)) [
        | inl clash ↦ absurd (ground arith)
        | inr free ↦ elim (Bool-cases (insertable candidate db)) [
          | inl fits ↦
              subst (λ d. Quiet db d) (ground arith)
                (Tends-Quiet db (candidate ∷ db.steps) (
                  added-Tends candidate db.steps db.runs free
                    (record {
                      open_ended = λ live. open';
                      owner = insertable-owner candidate db fits;
                    })
                    open'))
          | inr refused ↦ absurd (ground arith)
        ]
      ]
    ]

claim_stage-Quiet :
    (input : ClaimInput) (run : AuditRun) (target : Option RunState) (db db' : Db)
    {a : Option RunStep}
    → claim_stage input run target db ≡ ok (commit a, db')
    → Quiet db db'
unfolding claim_stage
claim_stage-Quiet input run none db db' h = absurd (ground arith)
claim_stage-Quiet input run (some target) db db' h =
    let (claimed, mid, e1, h1) = >>=-ok _ _ db h in
    subst (λ d. Quiet db d) (ground arith)
      (claim-Quiet (candidate_for input run target) db mid refl e1)

claim_run-Quiet :
    (input : ClaimInput) (event : OutboxEvent) (found : Option AuditRun) (db db' : Db)
    {a : Option RunStep}
    → claim_run input event found db ≡ ok (commit a, db')
    → Quiet db db'
unfolding claim_run ◌>>=◌ Steps.get_current
claim_run-Quiet input event none db db' h = absurd (ground arith)
claim_run-Quiet input event (some run) db db' {a} h =
    let fresh = (not_rolled_back (is_terminal run.state) none _ db db' {a = a} h).0 in
    let expected = (not_rolled_back (not (is_expected run event)) none _ db db' {a = a} fresh).0 in
    let current = head? (sort_by Steps.newest_first (select (Steps.running_of run.id) db.steps)) in
    claim_stage-Quiet input run (claim_target run) db db' {a = a}
      (not_rolled_back (in_flight run current input.now) none _ db db' {a = a} expected).0

claim_event-Quiet :
    (input : ClaimInput) (found : Option OutboxEvent) (db db' : Db) {a : Option RunStep}
    → claim_event input found db ≡ ok (commit a, db')
    → Quiet db db'
unfolding claim_event ◌>>=◌ Runs.get
claim_event-Quiet input none db db' h = absurd (ground arith)
claim_event-Quiet input (some event) db db' {a} h =
    claim_run-Quiet input event (find_where (λ r. r.id == event.aggregate_id) db.runs) db db'
      {a = a} (ground arith)

claim_body-Quiet :
    (event_id : ℕ) (input : ClaimInput) (db db' : Db) {a : Option RunStep}
    → claim_body event_id input db ≡ ok (commit a, db')
    → Quiet db db'
unfolding claim_body ◌>>=◌ Outbox.get
claim_body-Quiet event_id input db db' {a} h =
    claim_event-Quiet input (find_where (λ e. e.id == event_id) db.outbox) db db' {a = a} h

pub claim-Changes :
    (event_id : ℕ) (input : ClaimInput) (db : Db) → Changes db (claim event_id input db).1
unfolding claim
claim-Changes event_id input db =
    with_uow-result (Changes db) (claim_body event_id input) db here
      λ a db' h. next here (quiet (claim_body-Quiet event_id input db db' h))

heartbeat_row-Renews :
    (step_id token now expiry : ℕ)
    → Renews
        (held_by step_id token)
        (λ row. record row { heartbeat_at = some now; lease_expires_at = some expiry })
unfolding held_by
heartbeat_row-Renews step_id token now expiry = record {
  was_running = λ s h. ground arith;
  id = λ s. refl;
  run_id = λ s. refl;
  resulting = λ s. refl;
}

heartbeat_body-Quiet :
    (held : RunStep) (now lease_duration token : ℕ) (db db' : Db) {a : Bool}
    → heartbeat_body held now lease_duration token db ≡ ok (commit a, db')
    → Quiet db db'
unfolding heartbeat_body Steps.heartbeat ◌>>=◌
heartbeat_body-Quiet held now lease_duration token db db' h =
    subst (λ d. Quiet db d) (ground arith)
      (Tends-Quiet db _ (
        Renews-Tends (heartbeat_row-Renews held.id token now (now + lease_duration)) db.steps
          db.runs))

heartbeat_token-Changes :
    (held : RunStep) (now lease_duration : ℕ) (token : Option ℕ) (db : Db)
    → Changes db (heartbeat_token held now lease_duration token db).1
unfolding heartbeat_token
heartbeat_token-Changes held now lease_duration none db = here
heartbeat_token-Changes held now lease_duration (some token) db =
    with_uow-result (Changes db) (heartbeat_body held now lease_duration token) db here
      λ a db' h. next here (quiet (heartbeat_body-Quiet held now lease_duration token db db' h))

pub heartbeat-Changes :
    (held : RunStep) (now lease_duration : ℕ) (db : Db)
    → Changes db (heartbeat held now lease_duration db).1
unfolding heartbeat
heartbeat-Changes held now lease_duration db =
    heartbeat_token-Changes held now lease_duration held.claim_token db
