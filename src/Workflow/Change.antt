-- ===== src/Workflow/Change.antt =====
-- The three kinds of change that a committed use case makes.
use shadowops.Prelude.{
  ℕ, ◌+◌, ◌≤◌, ◌≡◌, String, ◌⊎◌, Bool, true, false, ◌&&◌, Option, none, some, List, ◌∷◌, Memᴰ, ◌==◌,
  str_eq, if◌then◌else◌, count_where, update_where,
}
use shadowops.Domain.Lifecycle.{RunState, is_terminal, is_running}
use shadowops.Domain.Rows.{AuditRun, RunStep, OutboxEvent}
use shadowops.Domain.Run.{is_some}
use shadowops.Domain.Run.Edges.{◌⟶◌}
use shadowops.Store.Database.{Db}
use shadowops.Store.Runs.{at_version, saved_over}
use shadowops.Store.Outbox.{advance_topic}

abbrev pub has_id : ℕ → AuditRun → Bool
has_id i r = r.id == i

abbrev pub has_key : String → AuditRun → Bool
has_key k r = str_eq r.idempotency_key k

abbrev pub recorded_as : Option ℕ → ℕ → Bool
recorded_as none v = false
recorded_as (some w) v = w == v

abbrev pub is_step : ℕ → RunStep → Bool
is_step i s = s.id == i

-- The step that took run `i` to version `v`.
unfoldable pub reached : ℕ → ℕ → RunStep → Bool
reached i v s = s.run_id == i && recorded_as s.resulting_run_version v

-- What no change ever alters.
pub record SameIdentity (r r' : AuditRun) : Type 0 where
  pub id : r'.id ≡ r.id
  pub idempotency_key : r'.idempotency_key ≡ r.idempotency_key
  pub request_fingerprint : r'.request_fingerprint ≡ r.request_fingerprint

pub record SameRun (r r' : AuditRun) : Type 0 where
  pub identity : SameIdentity r r'
  pub state : r'.state ≡ r.state
  pub version : r'.version ≡ r.version
  pub completed_at : r'.completed_at ≡ r.completed_at

pub record SameSubject (e e' : OutboxEvent) : Type 0 where
  pub aggregate_id : e'.aggregate_id ≡ e.aggregate_id
  pub aggregate_version : e'.aggregate_version ≡ e.aggregate_version
  pub topic : e'.topic ≡ e.topic
  pub payload : e'.payload ≡ e.payload

-- The event asks for the next stage of the run as it is now.
pub record Announces (e : OutboxEvent) (r : AuditRun) : Type 0 where
  pub aggregate_id : e.aggregate_id ≡ r.id
  pub aggregate_version : e.aggregate_version ≡ r.version
  pub topic : e.topic ≡ advance_topic
  pub expected_state : e.payload.expected_state ≡ r.state
  pub expected_version : e.payload.expected_version ≡ r.version

-- A step that still runs has no resulting version, and its run exists.
pub record IsSound (runs : List AuditRun) (s : RunStep) : Type 0 where
  pub open_ended : is_running s.status ≡ true → s.resulting_run_version ≡ none
  pub owner : (r : AuditRun) × Memᴰ r runs × (r.id ≡ s.run_id)

-- No run moves, and no event changes its subject.
pub record Quiet (db db' : Db) : Type 0 where
  pub runs_from :
      (r' : AuditRun) → Memᴰ r' db'.runs → (r : AuditRun) × Memᴰ r db.runs × SameRun r r'
  pub runs_to : (r : AuditRun) → Memᴰ r db.runs → (r' : AuditRun) × Memᴰ r' db'.runs × SameRun r r'
  pub id_count : (i : ℕ) → count_where (has_id i) db'.runs ≡ count_where (has_id i) db.runs
  pub key_count : (k : String) → count_where (has_key k) db'.runs ≡ count_where (has_key k) db.runs
  pub events_from :
      (e' : OutboxEvent)
      → Memᴰ e' db'.outbox
      → (e : OutboxEvent) × Memᴰ e db.outbox × SameSubject e e'
  pub events_to :
      (e : OutboxEvent)
      → Memᴰ e db.outbox
      → (e' : OutboxEvent) × Memᴰ e' db'.outbox × SameSubject e e'
  pub steps_sound :
      ((s : RunStep) → Memᴰ s db.steps → IsSound db.runs s)
      → (s' : RunStep) → Memᴰ s' db'.steps
      → IsSound db.runs s'
  pub steps_to :
      (s : RunStep)
      → Memᴰ s db.steps
      → (s' : RunStep) × Memᴰ s' db'.steps × (s'.id ≡ s.id) × (s'.run_id ≡ s.run_id)
  pub step_count :
      (i : ℕ) → count_where (is_step i) db.steps ≤ 1 → count_where (is_step i) db'.steps ≤ 1
  pub reached_count :
      ((s : RunStep) → Memᴰ s db.steps → IsSound db.runs s)
      → (i v : ℕ) → count_where (reached i v) db'.steps ≡ count_where (reached i v) db.steps

-- One run, `run`, moves along an edge to become `run'`, which one step records; if the run is not
-- yet at its end, one event announces its next stage.
pub record Advance (db db' : Db) : Type 0 where
  pub run : AuditRun
  pub run' : AuditRun
  pub found : Memᴰ run db.runs
  pub edge : run.state ⟶ run'.state
  pub identity : SameIdentity run run'
  pub version : run'.version ≡ run.version + 1
  pub completed_at :
      is_some run.completed_at ≡ is_terminal run.state
      → is_some run'.completed_at ≡ is_terminal run'.state
  pub runs : db'.runs ≡ update_where (at_version run.id run.version) (saved_over run') db.runs
  pub events_from : (e : OutboxEvent) → Memᴰ e db'.outbox → Memᴰ e db.outbox ⊎ Announces e run'
  pub events_to : (e : OutboxEvent) → Memᴰ e db.outbox → Memᴰ e db'.outbox
  pub announced :
      is_terminal run'.state ≡ false → (e : OutboxEvent) × Memᴰ e db'.outbox × Announces e run'
  pub steps_sound :
      ((s : RunStep) → Memᴰ s db.steps → IsSound db.runs s)
      → (s' : RunStep) → Memᴰ s' db'.steps
      → IsSound db.runs s'
  pub steps_to :
      (s : RunStep)
      → Memᴰ s db.steps
      → (s' : RunStep) × Memᴰ s' db'.steps × (s'.id ≡ s.id) × (s'.run_id ≡ s.run_id)
  pub step_count :
      (i : ℕ) → count_where (is_step i) db.steps ≤ 1 → count_where (is_step i) db'.steps ≤ 1
  pub reached_count :
      ((s : RunStep) → Memᴰ s db.steps → IsSound db.runs s)
      → (i v : ℕ)
      → count_where (reached i v) db'.steps
        ≡ count_where (reached i v) db.steps
          + (if run.id == i && (run.version + 1) == v then 1 else 0)

-- A new run, whose id and key no run had, with the event that announces its first stage.
pub record Creation (db db' : Db) : Type 0 where
  pub run : AuditRun
  pub event : OutboxEvent
  pub new_id : count_where (has_id run.id) db.runs ≡ 0
  pub new_key : count_where (has_key run.idempotency_key) db.runs ≡ 0
  pub state : run.state ≡ RunState.queued
  pub version : run.version ≡ 1
  pub completed_at : run.completed_at ≡ none
  pub announces : Announces event run
  pub runs : db'.runs ≡ run ∷ db.runs
  pub outbox : db'.outbox ≡ event ∷ db.outbox
  pub steps : db'.steps ≡ db.steps

pub data Change (db db' : Db) : Type 0 where
  quiet : Quiet db db' → Change db db'
  advance : Advance db db' → Change db db'
  create : Creation db db' → Change db db'

pub data Changes (db : Db) : Db → Type 0 where
  here : Changes db db
  next : {mid db' : Db} → Changes db mid → Change mid db' → Changes db db'

pub join : {a b c : Db} → Changes a b → Changes b c → Changes a c
join p here = p
join p (next q c) = next (join p q) c
