-- ===== src/Workflow/Quiet.antt =====
-- A change that moves no run keeps the invariant.
use shadowops.Prelude.{sym, ap, ◌∙◌}
use shadowops.Domain.Rows.{AuditRun, OutboxEvent}
use shadowops.Store.Database.{Db}
use shadowops.Workflow.Change.{SameRun, SameSubject, Announces, Quiet}
use shadowops.Workflow.Invariant.{IsConsistent, IsSound-owner}

Announces-same :
    {e e' : OutboxEvent} {r r' : AuditRun}
    → SameSubject e e'
    → SameRun r r'
    → Announces e r
    → Announces e' r'
Announces-same {e} {e'} {r} {r'} se sr a = record {
  aggregate_id = cc (se.aggregate_id, a.aggregate_id, sr.identity.id);
  aggregate_version = cc (se.aggregate_version, a.aggregate_version, sr.version);
  topic = cc (se.topic, a.topic);
  expected_state = ap (λ p. p.expected_state) se.payload ∙ a.expected_state ∙ sym sr.state;
  expected_version = ap (λ p. p.expected_version) se.payload ∙ a.expected_version ∙ sym sr.version;
}

pub Quiet-IsConsistent : {db db' : Db} → Quiet db db' → IsConsistent db → IsConsistent db'
Quiet-IsConsistent {db} {db'} q c = record {
  one_id = λ i. rw (q.id_count i) (c.one_id i);
  one_key = λ k. rw (q.key_count k) (c.one_key k);
  announced = λ r' m live.
      let (r, mr, same) = q.runs_from r' m in
      let (e, me, a) = c.announced r mr (rw (← same.state) live) in
      let (e', me', sub) = q.events_to e me in (e', me', Announces-same sub same a);
  not_ahead = λ e' r' me mr h.
      let (r, m, same) = q.runs_from r' mr in
      let (e, n, sub) = q.events_from e' me in
      rw (sub.aggregate_version, same.version)
        (c.not_ahead e r n m (sym sub.aggregate_id ∙ h ∙ same.identity.id));
  owned = λ e' me.
      let (e, n, sub) = q.events_from e' me in
      let (r, m, h) = c.owned e n in
      let (r', m', same) = q.runs_to r m in (r', m', same.identity.id ∙ h ∙ sym sub.aggregate_id);
  sound = λ s' m.
      IsSound-owner (λ r mr. let (r', m', same) = q.runs_to r mr in (r', m', same.identity.id))
        (q.steps_sound c.sound s' m);
  one_step = λ i. q.step_count i (c.one_step i);
  recorded = λ r' v mr h h'.
      let (r, m, same) = q.runs_from r' mr in
      q.reached_count c.sound r'.id v
      ∙ rw same.identity.id (c.recorded r v m h (rw same.version at h'));
  unrecorded = λ r' v mr h.
      let (r, m, same) = q.runs_from r' mr in
      q.reached_count c.sound r'.id v
      ∙ rw same.identity.id (c.unrecorded r v m (rw same.version at h));
  early = λ i v h. q.reached_count c.sound i v ∙ c.early i v h;
  versions = λ r' mr.
      let (r, m, same) = q.runs_from r' mr in rw (same.version, same.state) (c.versions r m);
  completion = λ r' mr.
      let (r, m, same) = q.runs_from r' mr in rw (same.completed_at, same.state) (c.completion r m);
}
