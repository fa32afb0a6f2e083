-- ===== src/Workflow/World.antt =====
-- The control plane as a whole: the database and the claims that workers hold, under any requests
-- in any order. The worker that finishes or renews a claim names it by its place among the claims
-- that were given out, the latest first.
use shadowops.Prelude.{
  ℕ, String, ◌≡◌, refl, Option, none, some, List, [], ◌∷◌, Memᴰ, All, All-at, All-map, get_elem?,
}
use shadowops.Domain.Errors.{Result, ok, err}
use shadowops.Domain.Rows.{AuditRun, RunStep, OutboxEvent}
use shadowops.Store.Database.{Db}
use shadowops.Workflow.Change.{Changes, here, join}
use shadowops.Workflow.Invariant.{IsConsistent, Held}
use shadowops.Workflow.History.{
  empty, empty-IsConsistent, Changes-IsConsistent, Held-Changes, Descends, run-Descends,
}
use shadowops.Execution
use shadowops.Execution.{ClaimInput}
use shadowops.Execution.Claims.{claim-Changes, heartbeat-Changes}
use shadowops.Execution.Advances.{finalize-Changes, fail-Changes}
use shadowops.Execution.Given.{claim-Held}
use shadowops.RunService
use shadowops.RunService.{CreateRequest}
use shadowops.RunService.Changes.{create-Changes, cancel-Changes}
use shadowops.Dispatcher
use shadowops.Dispatcher.{RetryPolicy}
use shadowops.Dispatcher.Changes.{dispatch_batch-Changes}
use shadowops.Reconciler
use shadowops.Reconciler.Changes.{reconcile_batch-Changes}

pub record World : Type 0 where
  pub db : Db
  pub claims : List RunStep

-- A call of a use case, with what it draws from the clock, the UUID factory and the broker.
pub data Call : Type 0 where
  create : CreateRequest → String → ℕ → ℕ → ℕ → Call
  cancel : ℕ → ℕ → ℕ → Call
  claim : ℕ → ClaimInput → Call
  heartbeat : ℕ → ℕ → ℕ → Call
  finalize : ℕ → ℕ → ℕ → Call
  fail : ℕ → ℕ → String → String → Call
  dispatch : (OutboxEvent → Option String) → RetryPolicy → ℕ → ℕ → Call
  reconcile : ℕ → (ℕ → ℕ) → ℕ → ℕ → ℕ → Call

-- A claim that was returned is held by the worker that asked for it.
unfoldable pub note_claim : Result (Option RunStep) → List RunStep → List RunStep
note_claim (ok (some step)) claims = step ∷ claims
note_claim (ok none) claims = claims
note_claim (err e) claims = claims

-- What a worker does with a claim, if there is one at the place.
unfoldable pub with_claim : Option RunStep → (RunStep → Db → Db) → Db → Db
with_claim none act db = db
with_claim (some held) act db = act held db

-- The tables are consistent, and every claim that a worker holds is on record.
pub record IsSettled (w : World) : Type 0 where
  pub consistent : IsConsistent w.db
  pub held : All (λ s. Held s w.db) w.claims

module _ (fingerprint_of : CreateRequest → String) where
  unfoldable pub perform : Call → World → World
  unfolding note_claim with_claim
  perform (create request key run_id event_id now) w = record w {
    db = (RunService.create fingerprint_of request key run_id event_id now w.db).1;
  }
  perform (cancel run_id version now) w = record w {
    db = (RunService.cancel run_id version now w.db).1;
  }
  perform (claim event_id input) w =
      let (claimed, db') = Execution.claim event_id input w.db in
      record { db = db'; claims = note_claim claimed w.claims }
  perform (heartbeat place now lease) w = record w {
    db =
        with_claim (get_elem? w.claims place) (λ held db. (Execution.heartbeat held now lease db).1)
          w.db;
  }
  perform (finalize place event_id now) w = record w {
    db =
        with_claim (get_elem? w.claims place)
          (λ held db. (Execution.finalize held event_id now db).1) w.db;
  }
  perform (fail place now code detail) w = record w {
    db =
        with_claim (get_elem? w.claims place)
          (λ held db. (Execution.fail held now code detail db).1) w.db;
  }
  perform (dispatch publish policy now limit) w = record w {
    db = (Dispatcher.dispatch_batch publish policy now limit w.db).1;
  }
  perform (reconcile max_attempts step_ids now stale_after limit) w = record w {
    db = (Reconciler.reconcile_batch max_attempts step_ids now stale_after limit w.db).1;
  }

  unfoldable pub perform_all : List Call → World → World
  unfolding perform
  perform_all [] w = w
  perform_all (call ∷ calls) w = perform_all calls (perform call w)

  place_Changes :
      (w : World) (found : Option RunStep) (act : RunStep → Db → Db)
      → ((s : RunStep) → found ≡ some s → Changes w.db (act s w.db))
      → Changes w.db (with_claim found act w.db)
  unfolding with_claim
  place_Changes w none act made = here
  place_Changes w (some s) act made = made s refl

  -- Every call goes on from settled tables by changes.
  pub perform-Changes : (call : Call) (w : World) → IsSettled w → Changes w.db (perform call w).db
  unfolding perform
  perform-Changes (create request key run_id event_id now) w s =
      create-Changes fingerprint_of request key run_id event_id now w.db
  perform-Changes (cancel run_id version now) w s = cancel-Changes run_id version now s.consistent
  perform-Changes (claim event_id input) w s = claim-Changes event_id input w.db
  perform-Changes (heartbeat place now lease) w s =
      place_Changes w (get_elem? w.claims place) _ λ held e. heartbeat-Changes held now lease w.db
  perform-Changes (finalize place event_id now) w s =
      place_Changes w (get_elem? w.claims place) _
        λ held e. finalize-Changes held s.consistent (All-at _ w.claims place s.held e) event_id now
  perform-Changes (fail place now code detail) w s =
      place_Changes w (get_elem? w.claims place) _
        λ held e. fail-Changes held s.consistent (All-at _ w.claims place s.held e) now code detail
  perform-Changes (dispatch publish policy now limit) w s =
      dispatch_batch-Changes publish policy now limit w.db
  perform-Changes (reconcile max_attempts step_ids now stale_after limit) w s =
      reconcile_batch-Changes max_attempts step_ids now stale_after limit w.db

  note_claim-Held :
      (event_id : ℕ) (input : ClaimInput) (db db' : Db) (r : Result (Option RunStep))
      (claims : List RunStep)
      → Execution.claim event_id input db ≡ (r, db')
      → All (λ s. Held s db') claims
      → All (λ s. Held s db') (note_claim r claims)
  unfolding note_claim
  note_claim-Held event_id input db db' (ok (some step)) claims e h =
      (claim-Held event_id input db db' e, h)
  note_claim-Held event_id input db db' (ok none) claims e h = h
  note_claim-Held event_id input db db' (err f) claims e h = h

  perform_held :
      (call : Call) (w : World)
      → All (λ h. Held h (perform call w).db) w.claims
      → All (λ h. Held h (perform call w).db) (perform call w).claims
  unfolding perform
  perform_held (claim event_id input) w kept =
      note_claim-Held event_id input w.db (Execution.claim event_id input w.db).1
        (Execution.claim event_id input w.db).0 w.claims refl kept
  perform_held _ w kept = kept

  -- A call keeps the tables settled.
  pub perform-IsSettled : (call : Call) (w : World) → IsSettled w → IsSettled (perform call w)
  perform-IsSettled call w s =
      let changes = perform-Changes call w s in
      record {
        consistent = Changes-IsConsistent s.consistent changes;
        held =
            perform_held call w
              (All-map _ _ w.claims (λ h on_record. Held-Changes on_record changes) s.held);
      }

  pub perform_all-IsSettled :
      (calls : List Call) (w : World) → IsSettled w → IsSettled (perform_all calls w)
  unfolding perform_all
  perform_all-IsSettled [] w s = s
  perform_all-IsSettled (call ∷ calls) w s =
      perform_all-IsSettled calls (perform call w) (perform-IsSettled call w s)

  pub perform_all-Changes :
      (calls : List Call) (w : World) → IsSettled w → Changes w.db (perform_all calls w).db
  unfolding perform_all
  perform_all-Changes [] w s = here
  perform_all-Changes (call ∷ calls) w s =
      join (perform-Changes call w s)
        (perform_all-Changes calls (perform call w) (perform-IsSettled call w s))

abbrev pub start : World
start = record { db = empty; claims = [] }

-- Any calls at all, in any order and by any workers, leave consistent tables: among other things
-- every run that is not terminal has the outbox event that asks for its next stage, and each
-- version of a run from 2 on was reached by exactly one step.
pub perform_all-IsConsistent :
    (fingerprint_of : CreateRequest → String) (calls : List Call)
    → IsConsistent (perform_all fingerprint_of calls start).db
perform_all-IsConsistent fingerprint_of calls =
    (perform_all-IsSettled fingerprint_of calls start
      (record { consistent = empty-IsConsistent; held = tt })).consistent

-- Between any two moments, whatever calls are made, a run keeps its identity and its state moves
-- only along edges of the lifecycle graph, one version for each.
pub perform_all-Descends :
    (fingerprint_of : CreateRequest → String) (before after : List Call) (r : AuditRun)
    → Memᴰ r (perform_all fingerprint_of before start).db.runs
    → let w = perform_all fingerprint_of before start in
      (r' : AuditRun) × Memᴰ r' (perform_all fingerprint_of after w).db.runs × Descends r r'
perform_all-Descends fingerprint_of before after r m =
    let settled =
      perform_all-IsSettled fingerprint_of before start
        (record { consistent = empty-IsConsistent; held = tt }) in
    run-Descends r settled.consistent m
      (perform_all-Changes fingerprint_of after (perform_all fingerprint_of before start) settled)
