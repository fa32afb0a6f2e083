-- ===== src/Execution/Finished.antt =====
-- What a claim that was finished has left in the tables.
use shadowops.Prelude.{
  ℕ, ◌+◌, ◌≡◌, refl, sym, subst, inl, inr, Bool, true, false, Option, none, some, List, [], ◌∷◌,
  arith, Memᴰ, if◌then◌else◌, count_where, update_where, mem-update_where, Bool-cases,
}
use shadowops.Domain.Lifecycle.{RunState, is_terminal}
use shadowops.Domain.Rows.{AuditRun, RunStep, OutboxEvent}
use shadowops.Domain.Run.Laws.{advanced}
use shadowops.Domain.Run.Edges.{◌⟶◌}
use shadowops.Store.Database.{Db}
use shadowops.Store.Outbox.{advance_topic}
use shadowops.Store.Runs.{at_version, saved_over}
use shadowops.Store.Steps.{held_by, completed_row}
use shadowops.Execution.{final_state_of, next_event}
use shadowops.Execution.Inversion.{Wrote}

-- The state that a finished claim moves its run to: CANCELLED where that was requested, and the
-- target of the claim otherwise.
pub data EndsIn (held : RunStep) (run : AuditRun) (final : RunState) : Type 0 where
  on_target : run.cancel_requested_at ≡ none → final ≡ held.to_state → EndsIn held run final
  on_request :
      (at : ℕ)
      → run.cancel_requested_at ≡ some at
      → final ≡ RunState.cancelled
      → EndsIn held run final

-- The step of the claim is closed with the version that the run reached.
pub record StepClosed (held : RunStep) (run : AuditRun) (now : ℕ) (final : RunState) (db' : Db)
    : Type 0 where
  pub step : RunStep
  pub found : Memᴰ step db'.steps
  pub id : step.id ≡ held.id
  pub to_state : step.to_state ≡ final
  pub reached : step.resulting_run_version ≡ some (run.version + 1)
  pub finished : step.finished_at ≡ some now
  pub lease : step.lease_expires_at ≡ none

-- The event that asks for the next stage is in the outbox, or there is no next stage.
pub data Asked (event_id now : ℕ) (done : AuditRun) (db db' : Db) : Type 0 where
  at_end : is_terminal done.state ≡ true → db'.outbox ≡ db.outbox → Asked event_id now done db db'
  goes_on :
      (event : OutboxEvent)
      → is_terminal done.state ≡ false
      → db'.outbox ≡ event ∷ db.outbox
      → event.id ≡ event_id
      → event.topic ≡ advance_topic
      → event.aggregate_id ≡ done.id
      → event.payload.expected_state ≡ done.state
      → event.payload.expected_version ≡ done.version
      → event.published_at ≡ none
      → event.available_at ≡ now
      → Asked event_id now done db db'

pub record Finishes (held : RunStep) (event_id now : ℕ) (run done : AuditRun) (db db' : Db)
    : Type 0 where
  pub id : done.id ≡ run.id
  pub version : done.version ≡ run.version + 1
  pub edge : run.state ⟶ done.state
  pub ends : EndsIn held run done.state
  pub row : AuditRun
  pub found : Memᴰ row db'.runs
  pub row_id : row.id ≡ run.id
  pub row_version : row.version ≡ run.version + 1
  pub row_state : row.state ≡ done.state
  pub closed : StepClosed held run now done.state db'
  pub asked : Asked event_id now done db db'

final_state_of-EndsIn :
    (held : RunStep) (run : AuditRun) → EndsIn held run (final_state_of held run)
unfolding final_state_of
final_state_of-EndsIn held run = of_request run.cancel_requested_at refl
  where
    of_request :
        (o : Option ℕ) → run.cancel_requested_at ≡ o → EndsIn held run (final_state_of held run)
    of_request none e = on_target e (ground (arith, e))
    of_request (some at) e = on_request at e (ground (arith, e))

counted_one :
    {A : Type 0} (p : A → Bool) (l : List A)
    → count_where p l ≡ 1
    → (x : A) × Memᴰ x l × (p x ≡ true)
unfolding count_where
counted_one p [] h = absurd (omega (arith, h))
counted_one p (x ∷ xs) h = elim (Bool-cases (p x)) [
  | inl e ↦ (x, Memᴰ.head refl, e)
  | inr e ↦ let (y, m, q) = counted_one p xs (rw e at h) in (y, Memᴰ.tail m, q)
]

module _ (held : RunStep) (token event_id now : ℕ) (run : AuditRun) (db db' : Db) where
  step-StepClosed :
      (final : RunState)
      → count_where (held_by held.id token) db.steps ≡ 1
      → db'.steps
        ≡ update_where (held_by held.id token) (completed_row (run.version + 1) now final) db.steps
      → StepClosed held run now final db'
  unfolding completed_row held_by
  step-StepClosed final once steps =
      let row = completed_row (run.version + 1) now final in
      let (x, m, e) = counted_one (held_by held.id token) db.steps once in
      let step = if held_by held.id token x then row x else x in
      record {
        step = step;
        found = subst (λ l. Memᴰ step l) (sym steps) (mem-update_where _ row db.steps m);
        id = ground (arith, e);
        to_state = ground (arith, e);
        reached = ground (arith, e);
        finished = ground (arith, e);
        lease = ground (arith, e);
      }

  outbox-Asked :
      (done : AuditRun)
      → db'.outbox
        ≡ (if is_terminal done.state then db.outbox else next_event done event_id now ∷ db.outbox)
      → Asked event_id now done db db'
  unfolding next_event
  outbox-Asked done h = elim (Bool-cases (is_terminal done.state)) [
    | inl e ↦ at_end e (rw e at h)
    | inr e ↦
        goes_on (next_event done event_id now) e (rw e at h) refl refl refl refl refl refl refl
  ]

  pub Wrote-Finishes :
      Memᴰ run db.runs
      → run.state ⟶ final_state_of held run
      → Wrote held token
          (completed_row (run.version + 1) now (final_state_of held run))
          run
          (advanced run (final_state_of held run) now)
          db
          db'
      → db'.outbox ≡ (
          if is_terminal (final_state_of held run)
          then db.outbox
          else next_event (advanced run (final_state_of held run) now) event_id now ∷ db.outbox)
      → Finishes held event_id now run (advanced run (final_state_of held run) now) db db'
  unfolding saved_over
  Wrote-Finishes m edge w outbox =
      let moved = advanced run (final_state_of held run) now in
      let row = if at_version run.id run.version run then saved_over moved run else run in
      record {
        id = refl;
        version = refl;
        edge = edge;
        ends = final_state_of-EndsIn held run;
        row = row;
        found = subst (λ l. Memᴰ row l) (sym w.runs) (mem-update_where _ _ db.runs m);
        row_id = ground arith;
        row_version = ground arith;
        row_state = ground arith;
        closed = step-StepClosed (final_state_of held run) w.held_once w.steps;
        asked = outbox-Asked moved outbox;
      }
