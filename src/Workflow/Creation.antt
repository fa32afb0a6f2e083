-- ===== src/Workflow/Creation.antt =====
-- A new run keeps the invariant.
use shadowops.Prelude.{
  ℕ, ◌+◌, ◌≤◌, ◌<◌, ◌≡◌, ◌≢◌, refl, sym, ap, subst, ◌∙◌, ◌⊎◌, inl, inr, false, arith, Memᴰ, ==_iff,
  str_eq_iff, count_where, count_where-zero, mem-count_where,
}
use mathlib.Core.List.Memᴰ
use shadowops.Domain.Lifecycle.{is_terminal}
use shadowops.Domain.Rows.{AuditRun, OutboxEvent}
use shadowops.Domain.Run.{is_some}
use shadowops.Domain.Run.Edges.{progress}
use shadowops.Store.Database.{Db}
use shadowops.Workflow.Change.{has_id, reached, Announces, Creation}
use shadowops.Workflow.Invariant.{IsConsistent, IsSound-owner}

module _ {db db' : Db} (n : Creation db db') (c : IsConsistent db) where
  open n use {run, event}

  row_of : (r : AuditRun) → Memᴰ r db'.runs → (r ≡ run) ⊎ (Memᴰ r db.runs × (r.id ≢ run.id))
  row_of r m = elim (Memᴰ.cases_cons (subst (λ l. Memᴰ r l) n.runs m)) [
    | inl e ↦ inl e
    | inr old ↦ inr (
      old,
      λ h.
          absurd (
            omega
              (arith, mem-count_where (has_id run.id) db.runs old ((==_iff _ _).1 h), n.new_id)),
    )
  ]

  pub carried_over : (r : AuditRun) → Memᴰ r db.runs → Memᴰ r db'.runs
  carried_over r m = subst (λ l. Memᴰ r l) (sym n.runs) (Memᴰ.tail m)

  event_of : (e : OutboxEvent) → Memᴰ e db'.outbox → (e ≡ event) ⊎ Memᴰ e db.outbox
  event_of e m = Memᴰ.cases_cons (subst (λ l. Memᴰ e l) n.outbox m)

  event_kept : (e : OutboxEvent) → Memᴰ e db.outbox → Memᴰ e db'.outbox
  event_kept e m = subst (λ l. Memᴰ e l) (sym n.outbox) (Memᴰ.tail m)

  is_new : (r : AuditRun) → Memᴰ r db.runs → r.id ≢ run.id
  is_new r m h =
      omega (arith, mem-count_where (has_id run.id) db.runs m ((==_iff _ _).1 h), n.new_id)

  -- No step belongs to the new run.
  no_steps : (v : ℕ) → count_where (reached run.id v) db'.steps ≡ 0
  unfolding reached
  no_steps v = rw n.steps (
      count_where-zero (reached run.id v) db.steps
        λ s m. let (r, mr, h) = (c.sound s m).owner in ground (arith, is_new r mr))

  creation_announced :
      (r : AuditRun)
      → Memᴰ r db'.runs
      → is_terminal r.state ≡ false
      → (e : OutboxEvent) × Memᴰ e db'.outbox × Announces e r
  creation_announced r m live = elim (row_of r m) [
    | inl same ↦ (
      event,
      subst (λ l. Memᴰ event l) (sym n.outbox) (Memᴰ.head refl),
      subst (λ x. Announces event x) (sym same) n.announces,
    )
    | inr (old, _) ↦ let (e, me, an) = c.announced r old live in (e, event_kept e me, an)
  ]

  creation_not_ahead :
      (e : OutboxEvent) (r : AuditRun)
      → Memᴰ e db'.outbox
      → Memᴰ r db'.runs
      → e.aggregate_id ≡ r.id
      → e.aggregate_version ≤ r.version
  creation_not_ahead e r me mr h = elim (event_of e me) [
    | inl new ↦ elim (row_of r mr) [
      | inl same ↦ rw (new, same) (omega (arith, n.announces.aggregate_version))
      | inr (old, other) ↦
          absurd (other (sym h ∙ ap (λ x. x.aggregate_id) new ∙ n.announces.aggregate_id))
    ]
    | inr kept ↦ elim (row_of r mr) [
      | inl same ↦
          let (r', m', h') = c.owned e kept in absurd (is_new r' m' (h' ∙ h ∙ ap (λ x. x.id) same))
      | inr (old, _) ↦ c.not_ahead e r kept old h
    ]
  ]

  creation_owned :
      (e : OutboxEvent)
      → Memᴰ e db'.outbox
      → (r : AuditRun) × Memᴰ r db'.runs × (r.id ≡ e.aggregate_id)
  creation_owned e me = elim (event_of e me) [
    | inl new ↦ (
      run,
      subst (λ l. Memᴰ run l) (sym n.runs) (Memᴰ.head refl),
      sym (ap (λ x. x.aggregate_id) new ∙ n.announces.aggregate_id),
    )
    | inr kept ↦ let (r, m, h) = c.owned e kept in (r, carried_over r m, h)
  ]

  creation_recorded :
      (r : AuditRun) (v : ℕ)
      → Memᴰ r db'.runs
      → 2 ≤ v
      → v ≤ r.version
      → count_where (reached r.id v) db'.steps ≡ 1
  creation_recorded r v m h h' = elim (row_of r m) [
    | inl same ↦ absurd (omega (arith, ap (λ x. x.version) same, n.version))
    | inr (old, _) ↦ rw n.steps (c.recorded r v old h h')
  ]

  creation_unrecorded :
      (r : AuditRun) (v : ℕ)
      → Memᴰ r db'.runs
      → r.version < v
      → count_where (reached r.id v) db'.steps ≡ 0
  creation_unrecorded r v m h = elim (row_of r m) [
    | inl same ↦ rw same (no_steps v)
    | inr (old, _) ↦ rw n.steps (c.unrecorded r v old h)
  ]

  creation_versions :
      (r : AuditRun) → Memᴰ r db'.runs → (1 ≤ r.version) × (r.version ≤ 1 + progress r.state)
  creation_versions r m = elim (row_of r m) [
    | inl same ↦ rw same (omega (arith, n.version))
    | inr (old, _) ↦ c.versions r old
  ]

  creation_completion :
      (r : AuditRun) → Memᴰ r db'.runs → is_some r.completed_at ≡ is_terminal r.state
  unfolding is_some is_terminal
  creation_completion r m = elim (row_of r m) [
    | inl same ↦ rw same (rw (n.completed_at, n.state))
    | inr (old, _) ↦ c.completion r old
  ]

  pub creation-IsConsistent : IsConsistent db'
  unfolding count_where
  creation-IsConsistent = record {
    one_id = λ i. rw n.runs (ground (arith, c.one_id i, n.new_id));
    one_key =
        λ k. rw n.runs (ground (arith, c.one_key k, n.new_key, str_eq_iff run.idempotency_key k));
    announced = creation_announced;
    not_ahead = creation_not_ahead;
    owned = creation_owned;
    sound = λ s m.
        IsSound-owner (λ r mr. (r, carried_over r mr, refl))
          (c.sound s (subst (λ l. Memᴰ s l) n.steps m));
    one_step = λ i. rw n.steps (c.one_step i);
    recorded = creation_recorded;
    unrecorded = creation_unrecorded;
    early = λ i v h. rw n.steps (c.early i v h);
    versions = creation_versions;
    completion = creation_completion;
  }
