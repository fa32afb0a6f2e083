-- ===== src/Workflow/History.antt =====
-- What holds across any sequence of changes.
use shadowops.Prelude.{
  ℕ, suc, ◌+◌, ◌≡◌, refl, sym, subst, ◌∙◌, inl, inr, [], arith, Memᴰ, count_where,
}
use native.Mathlib.Nat.{add-zero, add-suc}
use shadowops.Domain.Lifecycle.{RunState}
use shadowops.Domain.Rows.{AuditRun, RunStep}
use shadowops.Domain.Run.Edges.{◌⟶◌}
use shadowops.Store.Database.{Db}
use shadowops.Workflow.Change.{SameIdentity, Change, quiet, advance, create, Changes, here, next}
use shadowops.Workflow.Invariant.{IsConsistent, Held}
use shadowops.Workflow.Quiet.{Quiet-IsConsistent}
use shadowops.Workflow.Advance.{advance-IsConsistent}
use shadowops.Workflow.Advance
use shadowops.Workflow.Creation.{creation-IsConsistent, carried_over}

abbrev pub empty : Db
empty = record { runs = []; steps = []; outbox = [] }

pub empty-IsConsistent : IsConsistent empty
unfolding count_where
empty-IsConsistent = record {
  one_id = λ i. omega arith;
  one_key = λ k. omega arith;
  one_step = λ i. omega arith;
  announced = λ r m. elim m [ ];
  not_ahead = λ e r m. elim m [ ];
  owned = λ e m. elim m [ ];
  sound = λ s m. elim m [ ];
  recorded = λ r v m. elim m [ ];
  unrecorded = λ r v m. elim m [ ];
  early = λ i v h. refl;
  versions = λ r m. elim m [ ];
  completion = λ r m. elim m [ ];
}

pub Change-IsConsistent : {db db' : Db} → Change db db' → IsConsistent db → IsConsistent db'
Change-IsConsistent (quiet q) c = Quiet-IsConsistent q c
Change-IsConsistent (advance a) c = advance-IsConsistent a c
Change-IsConsistent (create n) c = creation-IsConsistent n c

-- A sequence of changes keeps the invariant.
pub Changes-IsConsistent : {db db' : Db} → IsConsistent db → Changes db db' → IsConsistent db'
Changes-IsConsistent c here = c
Changes-IsConsistent c (next p q) = Change-IsConsistent q (Changes-IsConsistent c p)

Held-Change : {db db' : Db} {held : RunStep} → Change db db' → Held held db → Held held db'
Held-Change (quiet q) h =
    let (s, m, e, e') = q.steps_to h.row h.found in
    record { row = s; found = m; id = e ∙ h.id; run_id = e' ∙ h.run_id }
Held-Change (advance a) h =
    let (s, m, e, e') = a.steps_to h.row h.found in
    record { row = s; found = m; id = e ∙ h.id; run_id = e' ∙ h.run_id }
Held-Change {held = held} (create n) h = record {
  row = h.row;
  found = subst (λ l. Memᴰ h.row l) (sym n.steps) h.found;
  id = h.id;
  run_id = h.run_id;
}

-- A claim stays on record.
pub Held-Changes : {db db' : Db} {held : RunStep} → Held held db → Changes db db' → Held held db'
Held-Changes h here = h
Held-Changes h (next p q) = Held-Change q (Held-Changes h p)

-- `n` edges of the lifecycle graph lead from one state to the other.
pub data Walk (s : RunState) : RunState → ℕ → Type 0 where
  stay : Walk s s 0
  move : {t u : RunState} {n : ℕ} → Walk s t n → t ⟶ u → Walk s u (suc n)

-- What became of a run: the same identity, as many versions later as edges were followed.
pub record Descends (r r' : AuditRun) : Type 0 where
  pub identity : SameIdentity r r'
  pub steps : ℕ
  pub walk : Walk r.state r'.state steps
  pub version : r'.version ≡ r.version + steps

Walk-join : {s t u : RunState} {m n : ℕ} → Walk s t m → Walk t u n → Walk s u (m + n)
Walk-join {s} {t} {m = m} p stay = subst (λ k. Walk s t k) (sym (add-zero m)) p
Walk-join {s} {u = u} {m = m} p (move {n = k} q e) =
    subst (λ j. Walk s u j) (sym (add-suc m k)) (move (Walk-join p q) e)

Descends-refl : (r : AuditRun) → Descends r r
Descends-refl r = record {
  identity = record { id = refl; idempotency_key = refl; request_fingerprint = refl };
  steps = 0;
  walk = stay;
  version = omega arith;
}

Descends-join : {r s t : AuditRun} → Descends r s → Descends s t → Descends r t
Descends-join p q = record {
  identity = record {
    id = q.identity.id ∙ p.identity.id;
    idempotency_key = q.identity.idempotency_key ∙ p.identity.idempotency_key;
    request_fingerprint = q.identity.request_fingerprint ∙ p.identity.request_fingerprint;
  };
  steps = p.steps + q.steps;
  walk = Walk-join p.walk q.walk;
  version = omega (arith, p.version, q.version);
}

Descends-Change :
    {db db' : Db} (r : AuditRun)
    → IsConsistent db
    → Memᴰ r db.runs
    → Change db db'
    → (r' : AuditRun) × Memᴰ r' db'.runs × Descends r r'
Descends-Change r c m (quiet q) =
    let (r', m', same) = q.runs_to r m in
    (
      r',
      m',
      record {
        identity = same.identity;
        steps = 0;
        walk = subst (λ s. Walk r.state s 0) (sym same.state) stay;
        version = omega (arith, same.version);
      },
    )
Descends-Change r c m (create n) = (r, carried_over n c r m, Descends-refl r)
Descends-Change r c m (advance a) =
    let (r', m', kind) = Advance.moved_or_kept a c r m in
    elim kind [
      | inl kept ↦ (r', m', subst (λ x. Descends r x) (sym kept) (Descends-refl r))
      | inr (same, edge, version) ↦
          (r', m', record { identity = same; steps = 1; walk = move stay edge; version = version })
    ]

-- Whatever is done, a run stays on record under its identity, and its state moves only along edges
-- of the lifecycle graph, one version each.
pub run-Descends :
    {db db' : Db} (r : AuditRun)
    → IsConsistent db
    → Memᴰ r db.runs
    → Changes db db'
    → (r' : AuditRun) × Memᴰ r' db'.runs × Descends r r'
run-Descends r c m here = (r, m, Descends-refl r)
run-Descends r c m (next p q) =
    let (s, ms, d) = run-Descends r c m p in
    let (t, mt, e) = Descends-Change s (Changes-IsConsistent c p) ms q in (t, mt, Descends-join d e)
