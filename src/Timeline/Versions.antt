-- ===== src/Timeline/Versions.antt =====
-- The versions that a timeline shows.
use shadowops.Prelude.{
  ℕ, zero, suc, ◌-◌, ◌≡◌, refl, ap, ◌∙◌, inl, inr, Bool, true, false, ◌&&◌, Option, none, some,
  List, [], ◌∷◌, map, Memᴰ, All, ltb, leb, ◌==◌, ==_iff, select, count_where, sort_by, find_where,
  find_where-mem, mem-find_where, Bool-cases, arith, count_where-sort_by, count_where_both,
  count_where_same, count_keys, sort_by-Ascending, sort_by-All, all_above, Option-cases,
  Ascending-range, select_above, up_from,
}
use mathlib.Core.List.{head?}
use shadowops.Domain.Errors.{ok}
use shadowops.Domain.Lifecycle.{is_terminal}
use shadowops.Domain.Rows.{AuditRun, RunStep}
use shadowops.Domain.Run.{is_some}
use shadowops.Store.Database.{Db, ◌>>=◌, with_uow, exit_uow}
use shadowops.Store.Runs
use shadowops.Store.Steps
use shadowops.Workflow.Change.{reached, recorded_as}
use shadowops.Workflow.Invariant.{IsConsistent, only_run}
use shadowops.Timeline.{
  TimelineEvent, RunTimeline, or_else, initial_event, step_event, key_before, events_of,
  build_timeline, current_of, timeline_of, get_body, get,
}

abbrev key : RunStep → ℕ
unfolding or_else
key s = or_else s.resulting_run_version 0

abbrev is_done : RunStep → Bool
is_done s = is_some s.resulting_run_version

abbrev version_of : TimelineEvent → ℕ
version_of e = e.version

-- The events of finished steps are those of the versions behind `after_version`.
events_versions :
    (run : AuditRun) (after : ℕ) (steps : List RunStep)
    → All (λ s. is_done s ≡ true) steps
    → map version_of (events_of run after steps) ≡ select (ltb after) (map key steps)
unfolding events_of step_event select or_else is_some
events_versions run after [] a = refl
events_versions run after (step ∷ steps) a =
    let rest = events_versions run after steps a.1 in
    elim (Option-cases step.resulting_run_version) [
      | inl e ↦ absurd (ground (arith, a.0, e))
      | inr (v, e) ↦ elim (Bool-cases (ltb after v)) [
        | inl t ↦ rw (e, t) (ap (λ l. v ∷ l) rest)
        | inr t ↦ rw (e, t) rest
      ]
    ]

done_only : (l : List RunStep) → All (λ s. is_done s ≡ true) (select is_done l)
unfolding select
done_only [] = tt
done_only (s ∷ l) = elim (Bool-cases (is_done s)) [
  | inl e ↦ rw e (e, done_only l)
  | inr e ↦ rw e (done_only l)
]

module _ (run : AuditRun) (db : Db) (c : IsConsistent db) (m : Memᴰ run db.runs) where
  abbrev mine : List RunStep
  mine = sort_by Steps.listed_before (select (λ s. s.run_id == run.id) db.steps)

  abbrev finished : List RunStep
  finished = sort_by key_before (select is_done mine)

  -- How often a version is among the finished steps.
  key_count :
      (v : ℕ)
      → count_where (λ k. k == v) (map key finished) ≡ count_where (reached run.id v) db.steps
  unfolding reached is_some or_else key_before
  key_count v =
      count_keys key v finished
      ∙ count_where-sort_by (λ s. key s == v) key_before (select is_done mine)
      ∙ count_where_both (λ s. key s == v) is_done mine
      ∙ count_where-sort_by (λ s. is_done s && key s == v) Steps.listed_before
          (select (λ s. s.run_id == run.id) db.steps)
      ∙ count_where_both (λ s. is_done s && key s == v) (λ s. s.run_id == run.id) db.steps
      ∙ count_where_same (λ s. s.run_id == run.id && (is_done s && key s == v)) (reached run.id v)
          db.steps (λ s. same s.run_id s.resulting_run_version)
    where
      same :
          (i : ℕ) (o : Option ℕ)
          → (i == run.id && (is_some o && or_else o 0 == v)) ≡ (i == run.id && recorded_as o v)
      same i none = refl
      same i (some w) = refl

  keys : map key finished ≡ up_from 2 (run.version - 1)
  unfolding key_before
  keys =
      let (least, _) = c.versions run m in
      Ascending-range (map key finished) 2 (run.version - 1)
        (sort_by-Ascending key key_before (λ a b. refl) (select is_done mine))
        (λ v. elim (Bool-cases (leb 2 v)) [
          | inr small ↦ ground (arith, key_count v, c.early run.id v (ground (arith, small)), small)
          | inl large ↦ elim (Bool-cases (leb v run.version)) [
            | inl some' ↦ ground (
              arith,
              key_count v,
              c.recorded run v m (ground (arith, large)) (ground (arith, some')),
              large,
              some',
              least,
            )
            | inr behind ↦ ground (
              arith,
              key_count v,
              c.unrecorded run v m (ground (arith, behind)),
              large,
              behind,
              least,
            )
          ]
        ])

  events_shown :
      (after : ℕ)
      → map version_of (events_of run after finished)
        ≡ select (ltb after) (up_from 2 (run.version - 1))
  unfolding key_before
  events_shown after =
      events_versions run after finished
        (sort_by-All (λ s. is_done s ≡ true) key_before (select is_done mine) (done_only mine))
      ∙ ap (select (ltb after)) keys

  shown :
      (after : ℕ) (current : Option RunStep)
      → map version_of (build_timeline after run mine current).events
        ≡ up_from (suc after) (run.version - after)
  unfolding build_timeline initial_event
  shown zero current =
      let (least, _) = c.versions run m in
      let long : run.version - 0 ≡ suc (run.version - 1) = omega (arith, least) in
      rw long (ap (λ l. 1 ∷ l) (events_shown 0 ∙ all_above 0 2 (run.version - 1) (omega arith)))
  shown (suc after) current =
      let skip : ltb (suc after) 1 ≡ false = ground arith in
      rw skip (
        events_shown (suc after)
        ∙ select_above (suc after) 2 (run.version - 1) (run.version - suc after) (omega arith)
            (omega (arith, c.versions run m))
            (elim (Bool-cases (leb run.version (suc after))) [
              | inl e ↦ inl (ground (arith, e))
              | inr e ↦ inr (ground (arith, e))
            ]))

  found_run : find_where (λ r. r.id == run.id) db.runs ≡ some run
  found_run =
      let (r, e) = mem-find_where (λ r. r.id == run.id) db.runs m ((==_iff _ _).1 refl) in
      let (mr, same) = find_where-mem (λ r. r.id == run.id) db.runs e in
      e ∙ ap some (only_run c mr m ((==_iff _ _).0 same))

-- In a consistent database the timeline of a run is returned, nothing is written, and its events
-- are those of the versions after `after_version`, each once and in order, up to the run's own.
pub get_versions :
    (run : AuditRun) (db : Db) (after_version : ℕ)
    → IsConsistent db
    → Memᴰ run db.runs
    → (timeline : RunTimeline) × (get run.id after_version db ≡ (ok timeline, db))
      × (timeline.run_version ≡ run.version)
      × (map (λ e. e.version) timeline.events
          ≡ up_from (suc after_version) (run.version - after_version))
unfolding get get_body timeline_of current_of Runs.get Steps.list_for_run Steps.get_current ◌>>=◌
    with_uow exit_uow build_timeline
get_versions run db after_version c m = elim (Bool-cases (is_terminal run.state)) [
  | inl e ↦ (
    build_timeline after_version run (mine run db c m) none,
    rw (found_run run db c m, e) refl,
    refl,
    shown run db c m after_version none,
  )
  | inr e ↦
      let current =
        head? (sort_by Steps.newest_first (select (Steps.running_of run.id) db.steps)) in
      (
        build_timeline after_version run (mine run db c m) current,
        rw (found_run run db c m, e) refl,
        refl,
        shown run db c m after_version current,
      )
]
