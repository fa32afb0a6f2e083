-- ===== src/Stages/Kept.antt =====
-- A static analysis is stored once and read back.
use shadowops.Prelude.{
  ℕ, ◌≡◌, refl, subst, inl, inr, String, Bool, true, Option, some, List, ◌==◌, find_where-mem,
  Option-cases, arith,
}
use shadowops.Domain.Errors.{Result, ok, Result-cases}
use shadowops.Worker.{Outcome, returned, raised}
use shadowops.Store.Results.{get_for_run, insert_absent, compared, create_or_get_report}
use shadowops.Revisions.{RevisionGraph}
use shadowops.Rules.Syntax.{Nodes}
use shadowops.Rules.Service.{StoredSnapshot, StaticReport, analyze}
use shadowops.Rules.Report.{analyze_run}
use shadowops.Stages.Stored.{report_id, report_run, stored, static_stage, query_report}

module _ (same_report : StaticReport → StaticReport → Bool) where
  abbrev IsStored : ℕ → List StaticReport → Type 0
  IsStored run_id rows =
      (r : StaticReport) × (get_for_run report_id report_run same_report rows run_id ≡ some r)

  report_kept :
      (rows rows' : List StaticReport) (result existing : StaticReport)
      → create_or_get_report report_id report_run same_report rows result ≡ ok (existing, rows')
      → get_for_run report_id report_run same_report rows' result.run_id ≡ some existing
  unfolding create_or_get_report insert_absent compared get_for_run
  report_kept rows rows' result existing h = ground (arith, h)

  module _ (run_id : ℕ) (found : Option ℕ) (analyzed : ℕ → Result StaticReport)
      (others : List StaticReport → List StaticReport) (rows rows' : List StaticReport)
      (mine : (s : ℕ) (r : StaticReport) → analyzed s ≡ ok r → r.run_id ≡ run_id) where
    stored_there :
        (at : List StaticReport) (report : StaticReport)
        → report.run_id ≡ run_id
        → stored at (create_or_get_report report_id report_run same_report at report)
          ≡ (returned tt, rows')
        → IsStored run_id rows'
    unfolding stored
    stored_there at report same h =
        elim (Result-cases (create_or_get_report report_id report_run same_report at report)) [
          | inr (e, q) ↦ absurd (ground (arith, rw (stored, q) at h))
          | inl ((existing, after), q) ↦
              let there : after ≡ rows' = ground (arith, rw (stored, q) at h) in
              (
                existing,
                subst (λ k. get_for_run report_id report_run same_report rows' k ≡ some existing)
                    same
                    (subst
                      (λ l.
                        get_for_run report_id report_run same_report l report.run_id
                        ≡ some existing)
                      there (report_kept at after report existing q)),
              )
        ]

    stage-IsStored :
        (checked : Outcome (Unit {0}))
        → static_stage same_report run_id found analyzed checked others rows ≡ (returned tt, rows')
        → IsStored run_id rows'
    unfolding static_stage
    stage-IsStored checked h =
        elim (Option-cases (get_for_run report_id report_run same_report rows run_id)) [
          | inr (r, e) ↦
              let there : rows ≡ rows' = ground (arith, rw (static_stage, e) at h) in
              (
                r,
                subst (λ l. get_for_run report_id report_run same_report l run_id ≡ some r) there e,
              )
          | inl e ↦ elim (Option-cases found) [
            | inl f ↦ absurd (ground (arith, rw (static_stage, e, f) at h))
            | inr (snapshot_id, f) ↦ elim (Result-cases (analyzed snapshot_id)) [
              | inr (x, g) ↦ absurd (ground (arith, rw (static_stage, e, f, g) at h))
              | inl (report, g) ↦
                  ended checked snapshot_id report g (rw (static_stage, e, f, g) at h)
            ]
          ]
        ]
      where
        ended :
            (c : Outcome (Unit {0})) (snapshot_id : ℕ) (report : StaticReport)
            → analyzed snapshot_id ≡ ok report
            → ◌≡◌ {A = Outcome (Unit {0}) × List StaticReport}
                (elim c [
                  | raised e ↦ (raised e, others rows)
                  | returned u ↦
                      stored
                        (others rows)
                        (create_or_get_report report_id report_run same_report (others rows) report)
                ])
                (returned tt, rows')
            → IsStored run_id rows'
        ended (raised x) snapshot_id report g q = absurd (ground (arith, q))
        ended (returned u) snapshot_id report g q =
            stored_there (others rows) report (mine snapshot_id report g) q

-- Where the stage of the static analysis returns, the query of the report finds one for the run, and
-- the stage may run again, whatever a new analysis would say: it returns and stores nothing.
pub static_stage_kept :
    (same_report : StaticReport → StaticReport → Bool) (parse : String → Option Nodes)
    (drop_sql : String → Option String) (evidence_of : String → String → ℕ → ℕ → String → String)
    (snapshot_lookup : ℕ → Option StoredSnapshot) (graph_lookup : ℕ → Option RevisionGraph)
    (read_text : ℕ → String → Result String) (new_id now run_id : ℕ) (found : Option ℕ)
    (checked : Outcome (Unit {0})) (others : List StaticReport → List StaticReport)
    (rows rows' : List StaticReport)
    → static_stage same_report run_id found
        (analyze parse drop_sql evidence_of snapshot_lookup graph_lookup read_text new_id now
          run_id)
        checked
        others
        rows
      ≡ (returned tt, rows')
    → ((report : StaticReport) × (query_report same_report run_id true rows' ≡ ok report)
        × (report.run_id ≡ run_id))
      × ((found' : Option ℕ) (analyzed : ℕ → Result StaticReport) (checked' : Outcome (Unit {0}))
            (others' : List StaticReport → List StaticReport)
          → static_stage same_report run_id found' analyzed checked' others' rows'
            ≡ (returned tt, rows'))
unfolding static_stage query_report get_for_run
static_stage_kept same_report parse drop_sql evidence_of snapshot_lookup graph_lookup read_text
      new_id now run_id found checked others rows rows' h =
    let (report, e) =
      stage-IsStored same_report run_id found
        (analyze parse drop_sql evidence_of snapshot_lookup graph_lookup read_text new_id now
          run_id)
        others rows rows'
        (λ s r q.
          analyze_run parse drop_sql evidence_of snapshot_lookup graph_lookup read_text new_id now
            run_id s r q)
        checked h in
    let (m, same) = find_where-mem (λ (r : StaticReport). r.run_id == run_id) rows' e in
    (
      (report, rw (query_report, get_for_run, e) refl, ground (arith, same)),
      λ found' analyzed checked' others'. rw (static_stage, get_for_run, e) refl,
    )
