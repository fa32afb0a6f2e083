-- ===== src/Domain/Run/Laws.antt =====
-- What `transition` and `request_cancel` do, on every branch.
use shadowops.Prelude.{
  ℕ, ◌+◌, ◌≤◌, ◌≡◌, refl, sym, inl, inr, ◌∙◌, true, some, List, [], ◌∷◌, arith, Bool-cases,
  if◌then◌else◌,
}
use mathlib.Core.Bool.{false≢true}
use shadowops.Domain.Lifecycle.{RunState, is_terminal}
use shadowops.Domain.Errors.{Result, ok, err, Result-cases, invalid_state_transition}
use shadowops.Domain.Rows.{AuditRun}
use shadowops.Domain.Run.{is_allowed, transition, request_cancel}
use shadowops.Domain.Run.Edges.{
  ◌⟶◌, is_allowed-⟶, ⟶-is_allowed, progress, progress_grows, progress_le, terminal_no_edge,
}

-- The run behind an accepted transition.
abbrev pub advanced : AuditRun → RunState → ℕ → AuditRun
advanced run target now = record run {
  state = target;
  version = run.version + 1;
  updated_at = now;
  completed_at = if is_terminal target then some now else run.completed_at;
}

-- A transition along an edge of the lifecycle graph yields the advanced run, and any other
-- transition is refused with the two states.
pub transition_lem :
    (run : AuditRun) (target : RunState) (now : ℕ)
    → (run.state ⟶ target → transition run target now ≡ ok (advanced run target now))
      × (¬ (run.state ⟶ target)
          → transition run target now ≡ err (invalid_state_transition run.state target))
unfolding transition
transition_lem run target now = (
  λ e. rw (⟶-is_allowed e),
  λ n. elim (Bool-cases (is_allowed run.state target)) [
    | inl yes' ↦ absurd (n (is_allowed-⟶ _ _ yes'))
    | inr no' ↦ rw no'
  ],
)

pub transition-ok :
    (run : AuditRun) (target : RunState) (now : ℕ) {run' : AuditRun}
    → transition run target now ≡ ok run'
    → (run.state ⟶ target) × (run' ≡ advanced run target now)
unfolding transition
transition-ok run target now h = elim (Bool-cases (is_allowed run.state target)) [
  | inl yes' ↦ (is_allowed-⟶ _ _ yes', ground arith)
  | inr no' ↦ absurd (ground arith)
]

-- A refused request leaves the run as it was.
abbrev pub or_keep : AuditRun → Result AuditRun → AuditRun
or_keep run (ok run') = run'
or_keep run (err _) = run

-- The requests of any callers, made one after the other; a refused one changes nothing.
unfoldable pub transition_all : AuditRun → List (RunState × ℕ) → AuditRun
transition_all run [] = run
transition_all run ((target, now) ∷ rest) =
    transition_all (or_keep run (transition run target now)) rest

transition_all_grows :
    (run : AuditRun) (requests : List (RunState × ℕ))
    → (transition_all run requests).version + progress run.state
      ≤ run.version + progress (transition_all run requests).state
unfolding transition_all
transition_all_grows run [] = omega arith
transition_all_grows run ((target, now) ∷ rest) = elim (Result-cases (transition run target now)) [
  | inl (run', e) ↦
      let (edge, same) = transition-ok run target now e in
      rw (e, transition_all, or_keep)
        (rw same
          (omega (arith, progress_grows edge, transition_all_grows (advanced run target now) rest)))
  | inr (f, e) ↦ rw (e, transition_all) (transition_all_grows run rest)
]

-- However many transitions are requested, at most twelve are accepted from the first state on: the
-- version grows by no more than the way that is left on the graph.
pub transition_all_bounded :
    (run : AuditRun) (requests : List (RunState × ℕ))
    → (transition_all run requests).version + progress run.state ≤ run.version + 12
unfolding transition_all
transition_all_bounded run requests =
    omega
      (arith, transition_all_grows run requests, progress_le (transition_all run requests).state)

-- A terminal run stays as it is, whatever transitions are requested.
pub transition_all_terminal :
    (run : AuditRun) (requests : List (RunState × ℕ))
    → is_terminal run.state ≡ true
    → transition_all run requests ≡ run
unfolding transition_all
transition_all_terminal run [] h = refl
transition_all_terminal run ((target, now) ∷ rest) h =
    rw ((transition_lem run target now).1 (λ e. false≢true (sym (terminal_no_edge e) ∙ h)))
      (transition_all_terminal run rest h)

-- A cancellation request never moves the run: the state and the version stay, and a second request
-- changes nothing, whatever version and time it carries.
pub request_cancel_idem :
    (run run' : AuditRun) (v now v' now' : ℕ)
    → request_cancel run v now ≡ ok run'
    → (run'.state ≡ run.state)
      × (run'.version ≡ run.version)
      × (request_cancel run' v' now' ≡ ok run')
unfolding request_cancel
request_cancel_idem run run' v now v' now' h = ground arith
