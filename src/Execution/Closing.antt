-- ===== src/Execution/Closing.antt =====
-- The step rows that `complete` and `fail` close.
use shadowops.Prelude.{
  ℕ, ◌+◌, ◌≤◌, String, ◌≡◌, refl, sym, ap, subst, ◌∙◌, inl, inr, true, false, ◌&&◌, some, arith,
  Memᴰ, if◌then◌else◌, count_where, update_where-mem, mem-update_where, count_where-update_gain,
  count_where-update_same, ◌==◌, Bool-cases,
}
use native.Mathlib.Nat.{add-zero}
use shadowops.Domain.Lifecycle.{RunState, is_running}
use shadowops.Domain.Rows.{AuditRun, RunStep}
use shadowops.Store.Database.{Db}
use shadowops.Store.Steps.{held_by, completed_row, failed_row}
use shadowops.Workflow.Change.{reached, is_step, IsSound}
use shadowops.Execution.Inversion.{Wrote}

-- A row that a fenced statement closed at `version`.
pub record Closes (row : RunStep → RunStep) (version : ℕ) : Type 0 where
  pub id : (s : RunStep) → (row s).id ≡ s.id
  pub run_id : (s : RunStep) → (row s).run_id ≡ s.run_id
  pub closed : (s : RunStep) → is_running (row s).status ≡ false
  pub resulting : (s : RunStep) → (row s).resulting_run_version ≡ some version

pub completed_row-Closes : (v now : ℕ) (final : RunState) → Closes (completed_row v now final) v
unfolding completed_row is_running
completed_row-Closes v now final = record {
  id = λ s. refl;
  run_id = λ s. refl;
  closed = λ s. ground arith;
  resulting = λ s. refl;
}

pub failed_row-Closes : (v now : ℕ) (code detail : String) → Closes (failed_row v now code detail) v
unfolding failed_row is_running
failed_row-Closes v now code detail = record {
  id = λ s. refl;
  run_id = λ s. refl;
  closed = λ s. refl;
  resulting = λ s. refl;
}

module _ {held : RunStep} {token v : ℕ} {row : RunStep → RunStep} {run moved : AuditRun}
    {db db' : Db} (closes : Closes row v) (w : Wrote held token row run moved db db')
    (mine : (s : RunStep)
      → Memᴰ s db.steps
      → held_by held.id token s ≡ true
      → s.run_id ≡ run.id) where
  pub steps-IsSound :
      ((s : RunStep) → Memᴰ s db.steps → IsSound db.runs s)
      → (s' : RunStep) → Memᴰ s' db'.steps
      → IsSound db.runs s'
  steps-IsSound sound s' m =
      let (x, mx, cases) = update_where-mem _ _ db.steps (subst (λ l. Memᴰ s' l) w.steps m) in
      elim cases [
        | inl (_, e) ↦ subst (λ s. IsSound db.runs s) (sym e) (sound x mx)
        | inr (_, e) ↦
            let (r, mr, h) = (sound x mx).owner in
            record {
              open_ended = λ live. absurd (ground (arith, closes.closed x, ap (λ s. s.status) e));
              owner = (r, mr, h ∙ sym (closes.run_id x) ∙ ap (λ s. s.run_id) (sym e));
            }
      ]

  gains :
      (i u : ℕ)
      → ((s : RunStep) → Memᴰ s db.steps → IsSound db.runs s)
      → (run.id == i && v == u) ≡ true
      → (s : RunStep) → Memᴰ s db.steps
      → held_by held.id token s ≡ true
      → (reached i u s ≡ false) × (reached i u (row s) ≡ true)
  unfolding reached held_by
  gains i u sound now s m q = (
    ground (arith, (sound s m).open_ended),
    ground (arith, mine s m q, closes.run_id s, closes.resulting s),
  )

  keeps :
      (i u : ℕ)
      → ((s : RunStep) → Memᴰ s db.steps → IsSound db.runs s)
      → (run.id == i && v == u) ≡ false
      → (s : RunStep) → Memᴰ s db.steps
      → held_by held.id token s ≡ true
      → reached i u (row s) ≡ reached i u s
  unfolding reached held_by
  keeps i u sound other s m q =
      ground (arith, (sound s m).open_ended, mine s m q, closes.run_id s, closes.resulting s)

  pub steps_to :
      (s : RunStep)
      → Memᴰ s db.steps
      → (s' : RunStep) × Memᴰ s' db'.steps × (s'.id ≡ s.id) × (s'.run_id ≡ s.run_id)
  steps_to s m =
      let s' = if held_by held.id token s then row s else s in
      (
        s',
        subst (λ l. Memᴰ s' l) (sym w.steps) (mem-update_where _ _ db.steps m),
        ground (arith, closes.id s),
        ground (arith, closes.run_id s),
      )

  pub step_count :
      (i : ℕ) → count_where (is_step i) db.steps ≤ 1 → count_where (is_step i) db'.steps ≤ 1
  step_count i h = rw w.steps (
      rw
        (count_where-update_same (is_step i) _ row db.steps λ x m q. ap (λ n. n == i) (closes.id x))
        h)

  pub reached_count :
      ((s : RunStep) → Memᴰ s db.steps → IsSound db.runs s)
      → (i u : ℕ)
      → count_where (reached i u) db'.steps
        ≡ count_where (reached i u) db.steps + (if run.id == i && v == u then 1 else 0)
  reached_count sound i u = elim (Bool-cases (run.id == i && v == u)) [
    | inl now ↦
        rw (now, w.steps)
          (count_where-update_gain (reached i u) _ row db.steps (gains i u sound now)
            ∙ ap (λ n. count_where (reached i u) db.steps + n) w.held_once)
    | inr other ↦
        rw (other, w.steps)
          (count_where-update_same (reached i u) _ row db.steps (keeps i u sound other)
            ∙ sym (add-zero _))
  ]
