-- ===== src/Workflow/Advance.antt =====
-- A change that moves one run keeps the invariant.
use shadowops.Prelude.{
  ℕ, ◌+◌, ◌≤◌, ◌<◌, ◌≡◌, ◌≢◌, refl, sym, ap, subst, ◌∙◌, String, ◌⊎◌, inl, inr, false, arith, Memᴰ,
  ◌==◌, ==_iff, if◌then◌else◌, count_where, count_where-update_same, update_where, update_where-mem,
  mem-update_where, Bool-cases,
}
use shadowops.Domain.Lifecycle.{is_terminal}
use shadowops.Domain.Rows.{AuditRun, OutboxEvent}
use shadowops.Domain.Run.{is_some}
use shadowops.Domain.Run.Edges.{◌⟶◌, progress, progress_grows}
use shadowops.Store.Database.{Db}
use shadowops.Store.Runs.{at_version, saved_over}
use shadowops.Workflow.Change.{has_id, has_key, reached, SameIdentity, Announces, Advance}
use shadowops.Workflow.Invariant.{IsConsistent, only_run, IsSound-owner}

module _ {db db' : Db} (a : Advance db db') (c : IsConsistent db) where
  open a use {run, run'}

  -- A row behind an advance: an untouched run, which is another one, or the moved run.
  pub row_of :
      (r : AuditRun)
      → Memᴰ r db'.runs
      → (Memᴰ r db.runs × (r.id ≢ run.id))
        ⊎ (SameIdentity run r
            × (r.state ≡ run'.state)
            × (r.version ≡ run'.version)
            × (r.completed_at ≡ run'.completed_at))
  unfolding saved_over
  row_of r m =
      let m' : Memᴰ r (update_where (at_version run.id run.version) (saved_over run') db.runs) =
        subst (λ l. Memᴰ r l) a.runs m in
      let (x, mx, cases) = update_where-mem _ _ db.runs m' in
      elim cases [
        | inl (fails, e) ↦ inl (
          subst (λ y. Memᴰ y db.runs) (sym e) mx,
          λ h.
              let same : x ≡ run = only_run c mx a.found (ap (λ y. y.id) (sym e) ∙ h) in
              absurd (ground (arith, ap (λ y. y.id) same, ap (λ y. y.version) same)),
        )
        | inr (passes, e) ↦
            let same : x ≡ run = only_run c mx a.found (ground arith) in
            inr (
              record {
                id = ap (λ y. y.id) e ∙ ap (λ y. y.id) same;
                idempotency_key = ap (λ y. y.idempotency_key) e ∙ ap (λ y. y.idempotency_key) same;
                request_fingerprint =
                    ap (λ y. y.request_fingerprint) e ∙ ap (λ y. y.request_fingerprint) same;
              },
              ap (λ y. y.state) e,
              ap (λ y. y.version) e,
              ap (λ y. y.completed_at) e,
            )
      ]

  -- Every run is still there, under its identity.
  pub carried :
      (r : AuditRun) → Memᴰ r db.runs → (r' : AuditRun) × Memᴰ r' db'.runs × SameIdentity r r'
  unfolding saved_over
  carried r m =
      let moved = if at_version run.id run.version r then saved_over run' r else r in
      (moved, subst (λ l. Memᴰ moved l) (sym a.runs) (mem-update_where _ _ db.runs m), ground arith)

  -- What became of a run: it is as it was, or it is the moved run.
  pub moved_or_kept :
      (r : AuditRun)
      → Memᴰ r db.runs
      → (r' : AuditRun) × Memᴰ r' db'.runs
        × ((r' ≡ r) ⊎ (SameIdentity r r' × (r.state ⟶ r'.state) × (r'.version ≡ r.version + 1)))
  unfolding saved_over
  moved_or_kept r m =
      let hit = at_version run.id run.version r in
      let r' = if hit then saved_over run' r else r in
      (
        r',
        subst (λ l. Memᴰ r' l) (sym a.runs) (mem-update_where _ _ db.runs m),
        elim (Bool-cases hit) [
          | inl q ↦
              let same : r ≡ run = only_run c m a.found (ground arith) in
              inr (
                record {
                  id = ground arith;
                  idempotency_key = ground arith;
                  request_fingerprint = ground arith;
                },
                rw (q, same) a.edge,
                rw (q, same) a.version,
              )
          | inr q ↦ inl (rw q)
        ],
      )

  id_count : (i : ℕ) → count_where (has_id i) db'.runs ≡ count_where (has_id i) db.runs
  unfolding saved_over
  id_count i =
      ap (count_where (has_id i)) a.runs
      ∙ count_where-update_same (has_id i) _ (saved_over run') db.runs (λ x m h. refl)

  key_count : (k : String) → count_where (has_key k) db'.runs ≡ count_where (has_key k) db.runs
  unfolding saved_over
  key_count k =
      ap (count_where (has_key k)) a.runs
      ∙ count_where-update_same (has_key k) _ (saved_over run') db.runs (λ x m h. refl)

  advance_announced :
      (r : AuditRun)
      → Memᴰ r db'.runs
      → is_terminal r.state ≡ false
      → (e : OutboxEvent) × Memᴰ e db'.outbox × Announces e r
  advance_announced r m live = elim (row_of r m) [
    | inl (m', _) ↦ let (e, me, an) = c.announced r m' live in (e, a.events_to e me, an)
    | inr (same, state, version, _) ↦
        let (e, me, an) = a.announced (ap is_terminal (sym state) ∙ live) in
        (
          e,
          me,
          record {
            aggregate_id = an.aggregate_id ∙ a.identity.id ∙ sym same.id;
            aggregate_version = an.aggregate_version ∙ sym version;
            topic = an.topic;
            expected_state = an.expected_state ∙ sym state;
            expected_version = an.expected_version ∙ sym version;
          },
        )
  ]

  advance_not_ahead :
      (e : OutboxEvent) (r : AuditRun)
      → Memᴰ e db'.outbox
      → Memᴰ r db'.runs
      → e.aggregate_id ≡ r.id
      → e.aggregate_version ≤ r.version
  advance_not_ahead e r me mr h = elim (row_of r mr) [
    | inl (m, other) ↦ elim (a.events_from e me) [
      | inl old ↦ c.not_ahead e r old m h
      | inr an ↦ absurd (other (sym h ∙ an.aggregate_id ∙ a.identity.id))
    ]
    | inr (same, _, version, _) ↦ elim (a.events_from e me) [
      | inl old ↦ omega (arith, c.not_ahead e run old a.found (h ∙ same.id), version, a.version)
      | inr an ↦ omega (arith, an.aggregate_version, version)
    ]
  ]

  advance_recorded :
      (r : AuditRun) (v : ℕ)
      → Memᴰ r db'.runs
      → 2 ≤ v
      → v ≤ r.version
      → count_where (reached r.id v) db'.steps ≡ 1
  advance_recorded r v m h h' = elim (row_of r m) [
    | inl (m', other) ↦
        ground (arith, a.reached_count c.sound r.id v, c.recorded r v m' h h', other)
    | inr (same, _, version, _) ↦ rw same.id (elim (Bool-cases ((run.version + 1) == v)) [
      | inl now ↦ ground (
        arith,
        a.reached_count c.sound run.id v,
        c.unrecorded run v a.found (omega (arith, (==_iff _ _).0 now)),
      )
      | inr before ↦ ground (
        arith,
        a.reached_count c.sound run.id v,
        c.recorded run v a.found h (ground (arith, version, a.version)),
      )
    ])
  ]

  advance_unrecorded :
      (r : AuditRun) (v : ℕ)
      → Memᴰ r db'.runs
      → r.version < v
      → count_where (reached r.id v) db'.steps ≡ 0
  advance_unrecorded r v m h = elim (row_of r m) [
    | inl (m', other) ↦ ground (arith, a.reached_count c.sound r.id v, c.unrecorded r v m' h, other)
    | inr (same, _, version, _) ↦ rw same.id (
        ground (
          arith,
          a.reached_count c.sound run.id v,
          version,
          a.version,
          c.unrecorded run v a.found (omega (arith, version, a.version)),
        ))
  ]

  advance_early : (i v : ℕ) → v ≤ 1 → count_where (reached i v) db'.steps ≡ 0
  advance_early i v h =
      ground (arith, a.reached_count c.sound i v, c.early i v h, c.versions run a.found, a.version)

  advance_versions :
      (r : AuditRun) → Memᴰ r db'.runs → (1 ≤ r.version) × (r.version ≤ 1 + progress r.state)
  advance_versions r m = elim (row_of r m) [
    | inl (m', _) ↦ c.versions r m'
    | inr (_, state, version, _) ↦
        rw (version, state)
          (omega (arith, c.versions run a.found, a.version, progress_grows a.edge))
  ]

  advance_completion :
      (r : AuditRun) → Memᴰ r db'.runs → is_some r.completed_at ≡ is_terminal r.state
  advance_completion r m = elim (row_of r m) [
    | inl (m', _) ↦ c.completion r m'
    | inr (_, state, _, done) ↦ rw (done, state) (a.completed_at (c.completion run a.found))
  ]

  advance_owner :
      (e : OutboxEvent)
      → Memᴰ e db'.outbox
      → (r : AuditRun) × Memᴰ r db.runs × (r.id ≡ e.aggregate_id)
  advance_owner e me = elim (a.events_from e me) [
    | inl old ↦ c.owned e old
    | inr an ↦ (run, a.found, sym a.identity.id ∙ sym an.aggregate_id)
  ]

  pub advance-IsConsistent : IsConsistent db'
  advance-IsConsistent = record {
    one_id = λ i. rw (id_count i) (c.one_id i);
    one_key = λ k. rw (key_count k) (c.one_key k);
    announced = advance_announced;
    not_ahead = advance_not_ahead;
    owned = λ e me.
        let (r, m, h) = advance_owner e me in
        let (r', m', same) = carried r m in (r', m', same.id ∙ h);
    sound = λ s' m.
        IsSound-owner (λ r mr. let (r', m', same) = carried r mr in (r', m', same.id))
          (a.steps_sound c.sound s' m);
    one_step = λ i. a.step_count i (c.one_step i);
    recorded = advance_recorded;
    unrecorded = advance_unrecorded;
    early = advance_early;
    versions = advance_versions;
    completion = advance_completion;
  }
