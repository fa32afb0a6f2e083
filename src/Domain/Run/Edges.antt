-- ===== src/Domain/Run/Edges.antt =====
-- The lifecycle graph as a relation, and what its shape guarantees.
use shadowops.Prelude.{
  ℕ, ◌<◌, ◌≤◌, some, ◌≡◌, refl, sym, subst, inl, inr, true, false, List, [], ◌∷◌, arith, All,
  Bool-cases, if◌then◌else◌,
}
use shadowops.Domain.Lifecycle.{
  RunState, queued, discovering, static_analysis, planning, provisioning, baseline_ready, applying,
  seeding, smoke_testing, rollback_verifying, reporting, awaiting_approval, completed, approved,
  rejected, is_terminal, contains_state, next_main_state, state_eq, state_eq_iff, ordinal,
}
use mathlib.Core.Option.{some-injective, none-ne-some}
use shadowops.Domain.Run.{is_allowed, allowed_targets}

infix 40 ◌⟶◌
pub data ◌⟶◌ : RunState → RunState → Type 0 where
  discover : queued ⟶ discovering
  analyze : discovering ⟶ static_analysis
  plan : static_analysis ⟶ planning
  provision : planning ⟶ provisioning
  baseline : provisioning ⟶ baseline_ready
  apply : baseline_ready ⟶ applying
  seed : applying ⟶ seeding
  smoke : seeding ⟶ smoke_testing
  rollback : smoke_testing ⟶ rollback_verifying
  report : rollback_verifying ⟶ reporting
  complete : reporting ⟶ completed
  await : reporting ⟶ awaiting_approval
  approve : awaiting_approval ⟶ approved
  reject : awaiting_approval ⟶ rejected
  fail : {s : RunState} → is_terminal s ≡ false → s ⟶ RunState.failed
  cancel : {s : RunState} → is_terminal s ≡ false → s ⟶ RunState.cancelled

pub ruleset edges = (
  discover, analyze, plan, provision, baseline, apply, seed, smoke, rollback, report, complete,
  await, approve, reject, fail, cancel,
)

contains_state-All :
    (P : RunState → Type 0) (t : RunState) (ts : List RunState)
    → contains_state t ts ≡ true
    → All P ts
    → P t
unfolding contains_state
contains_state-All P t [] h a = cc
contains_state-All P t (u ∷ ts) h (p, a) = elim (Bool-cases (state_eq t u)) [
  | inl same ↦ subst P (sym ((state_eq_iff t u).0 same)) p
  | inr differ ↦ contains_state-All P t ts (rw differ at h) a
]

allowed_targets-⟶ : (s : RunState) → All (λ t. s ⟶ t) (allowed_targets s)
unfolding allowed_targets
allowed_targets-⟶ queued = search (edges, tt)
allowed_targets-⟶ _ = search (edges, tt)

-- the test that `transition` makes
pub is_allowed-⟶ : (s t : RunState) → is_allowed s t ≡ true → s ⟶ t
unfolding is_allowed
is_allowed-⟶ s t h = contains_state-All (λ u. s ⟶ u) t (allowed_targets s) h (allowed_targets-⟶ s)

is_allowed_failed : (s : RunState) → is_terminal s ≡ false → is_allowed s RunState.failed ≡ true
unfolding is_allowed ordinal state_eq
is_allowed_failed completed h = cc
is_allowed_failed _ h = first_of (cc, ground arith)

is_allowed_cancelled :
    (s : RunState) → is_terminal s ≡ false → is_allowed s RunState.cancelled ≡ true
unfolding is_allowed ordinal state_eq
is_allowed_cancelled completed h = cc
is_allowed_cancelled _ h = first_of (cc, ground arith)

pub ⟶-is_allowed : {s t : RunState} → s ⟶ t → is_allowed s t ≡ true
unfolding is_allowed ordinal state_eq
⟶-is_allowed (fail {s} h) = is_allowed_failed s h
⟶-is_allowed (cancel {s} h) = is_allowed_cancelled s h
⟶-is_allowed _ = refl

-- no edge leaves a terminal state
pub terminal_no_edge : {s t : RunState} → s ⟶ t → is_terminal s ≡ false
unfolding is_terminal
terminal_no_edge (fail h) = h
terminal_no_edge (cancel h) = h
terminal_no_edge _ = refl

-- how far along the graph a state stands; every edge raises it
pub progress : RunState → ℕ
unfolding ordinal
progress s = if is_terminal s then 12 else ordinal s

progress_failed : (s : RunState) → is_terminal s ≡ false → progress s < 12
unfolding progress is_terminal
progress_failed completed h = cc
progress_failed _ h = first_of (cc, omega arith)

pub progress_grows : {s t : RunState} → s ⟶ t → progress s < progress t
unfolding progress is_terminal
progress_grows (fail {s} h) = progress_failed s h
progress_grows (cancel {s} h) = progress_failed s h
progress_grows _ = omega arith

pub progress_le : (s : RunState) → progress s ≤ 12
unfolding progress is_terminal
progress_le queued = omega arith
progress_le _ = omega arith

-- the successor on the main path is reached by an edge
pub next_main_state-⟶ : (s : RunState) {t : RunState} → next_main_state s ≡ some t → s ⟶ t
unfolding next_main_state ordinal state_eq
next_main_state-⟶ queued h = subst (λ t. queued ⟶ t) (some-injective _ _ h) discover
next_main_state-⟶ discovering h = subst (λ t. discovering ⟶ t) (some-injective _ _ h) analyze
next_main_state-⟶ static_analysis h = subst (λ t. static_analysis ⟶ t) (some-injective _ _ h) plan
next_main_state-⟶ planning h = subst (λ t. planning ⟶ t) (some-injective _ _ h) provision
next_main_state-⟶ provisioning h = subst (λ t. provisioning ⟶ t) (some-injective _ _ h) baseline
next_main_state-⟶ baseline_ready h = subst (λ t. baseline_ready ⟶ t) (some-injective _ _ h) apply
next_main_state-⟶ applying h = subst (λ t. applying ⟶ t) (some-injective _ _ h) seed
next_main_state-⟶ seeding h = subst (λ t. seeding ⟶ t) (some-injective _ _ h) smoke
next_main_state-⟶ smoke_testing h = subst (λ t. smoke_testing ⟶ t) (some-injective _ _ h) rollback
next_main_state-⟶ rollback_verifying h =
    subst (λ t. rollback_verifying ⟶ t) (some-injective _ _ h) report
next_main_state-⟶ reporting h = subst (λ t. reporting ⟶ t) (some-injective _ _ h) complete
next_main_state-⟶ _ h = absurd (none-ne-some _ h)
