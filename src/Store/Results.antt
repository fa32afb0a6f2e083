-- ===== src/Store/Results.antt =====
-- src/shadowops/persistence/repositories.py: the results that are stored once for a run, the
-- repository snapshot (Snapshots), the revision graph and the static report. A result is a value of
-- any type with an id and a run; `same_content` compares two of them without `id` and `created_at`.
pub mod Snapshots
pub mod Once
use shadowops.Prelude.{
  ℕ, String, Bool, Option, none, some, List, ◌∷◌, ◌==◌, if◌then◌else◌, find_where, any_where,
}
use shadowops.Domain.Errors.{
  Result, ok, err, integrity_error, runtime_error, immutable_result_conflict,
}

module _ {A : Type 0} (id_of run_of : A → ℕ) (same_content : A → A → Bool) where
  unfoldable pub get_for_run : List A → ℕ → Option A
  get_for_run rows run_id = find_where (λ r. run_of r == run_id) rows

  -- INSERT … ON CONFLICT (run_id) DO NOTHING; a conflict on the primary key is an `IntegrityError`.
  unfoldable pub insert_absent : List A → A → Result (List A)
  insert_absent rows result =
      if any_where (λ r. run_of r == run_of result) rows
      then ok rows
      else if any_where (λ r. id_of r == id_of result) rows
      then err integrity_error
      else ok (result ∷ rows)

  -- What is returned of the row that is there.
  unfoldable pub compared : String → String → A → Option A → List A → Result (A × List A)
  compared what absent result none rows = err (runtime_error absent)
  compared what absent result (some existing) rows =
      if same_content existing result
      then ok (existing, rows)
      else err (immutable_result_conflict what)

  abbrev pub create_or_get : String → String → List A → A → Result (A × List A)
  create_or_get what absent rows result = elim (insert_absent rows result) [
    | err e ↦ err e
    | ok stored ↦ compared what absent result (get_for_run stored (run_of result)) stored
  ]

  unfoldable pub create_or_get_graph : List A → A → Result (A × List A)
  unfolding insert_absent compared get_for_run
  create_or_get_graph rows graph =
      create_or_get "revision graph" "Revision graph upsert did not expose a durable result" rows
        graph

  unfoldable pub create_or_get_report : List A → A → Result (A × List A)
  unfolding insert_absent compared get_for_run
  create_or_get_report rows report =
      create_or_get "static report" "Static report upsert did not expose a durable result" rows
        report
