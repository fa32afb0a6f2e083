-- ===== src/Domain/Lifecycle.antt =====
-- src/shadowops/domain/runs.py: the states of a run and the declared lifecycle graph.
use shadowops.Prelude.{
  ℕ, zero, suc, ◌≡◌, refl, sym, ap, ◌∙◌, ◌↔◌, Bool, true, false, ◌||◌, Option, none, some, List, [],
  ◌∷◌, ◌==◌, ==_iff, if◌then◌else◌,
}

pub data RunState : Type 0 where
  queued discovering static_analysis planning provisioning baseline_ready applying : RunState
  seeding smoke_testing rollback_verifying reporting awaiting_approval completed : RunState
  approved rejected failed cancelled : RunState

pub data StepStatus : Type 0 where
  pending running succeeded failed cancelled : StepStatus

pub data CleanupStatus : Type 0 where
  not_required pending running succeeded failed : CleanupStatus

-- The position of a state in the declaration of the enum, and back.
unfoldable pub ordinal : RunState → ℕ
ordinal queued = 0
ordinal discovering = 1
ordinal static_analysis = 2
ordinal planning = 3
ordinal provisioning = 4
ordinal baseline_ready = 5
ordinal applying = 6
ordinal seeding = 7
ordinal smoke_testing = 8
ordinal rollback_verifying = 9
ordinal reporting = 10
ordinal awaiting_approval = 11
ordinal completed = 12
ordinal approved = 13
ordinal rejected = 14
ordinal RunState.failed = 15
ordinal RunState.cancelled = 16

of_ordinal : ℕ → RunState
of_ordinal zero = queued
of_ordinal (suc zero) = discovering
of_ordinal (suc (suc zero)) = static_analysis
of_ordinal (suc (suc (suc zero))) = planning
of_ordinal (suc (suc (suc (suc zero)))) = provisioning
of_ordinal (suc (suc (suc (suc (suc zero))))) = baseline_ready
of_ordinal (suc (suc (suc (suc (suc (suc zero)))))) = applying
of_ordinal (suc (suc (suc (suc (suc (suc (suc zero))))))) = seeding
of_ordinal (suc (suc (suc (suc (suc (suc (suc (suc zero)))))))) = smoke_testing
of_ordinal (suc (suc (suc (suc (suc (suc (suc (suc (suc zero))))))))) = rollback_verifying
of_ordinal (suc (suc (suc (suc (suc (suc (suc (suc (suc (suc zero)))))))))) = reporting
of_ordinal (suc (suc (suc (suc (suc (suc (suc (suc (suc (suc (suc zero))))))))))) =
    awaiting_approval
of_ordinal (suc (suc (suc (suc (suc (suc (suc (suc (suc (suc (suc (suc zero)))))))))))) = completed
of_ordinal (suc (suc (suc (suc (suc (suc (suc (suc (suc (suc (suc (suc (suc zero))))))))))))) =
    approved
of_ordinal
      (suc (suc (suc (suc (suc (suc (suc (suc (suc (suc (suc (suc (suc (suc zero)))))))))))))) =
    rejected
of_ordinal
      (suc
        (suc (suc (suc (suc (suc (suc (suc (suc (suc (suc (suc (suc (suc (suc zero))))))))))))))) =
    RunState.failed
of_ordinal _ = RunState.cancelled

of_ordinal-ordinal : (s : RunState) → of_ordinal (ordinal s) ≡ s
unfolding ordinal of_ordinal
of_ordinal-ordinal queued = refl
of_ordinal-ordinal discovering = refl
of_ordinal-ordinal static_analysis = refl
of_ordinal-ordinal planning = refl
of_ordinal-ordinal provisioning = refl
of_ordinal-ordinal baseline_ready = refl
of_ordinal-ordinal applying = refl
of_ordinal-ordinal seeding = refl
of_ordinal-ordinal smoke_testing = refl
of_ordinal-ordinal rollback_verifying = refl
of_ordinal-ordinal reporting = refl
of_ordinal-ordinal awaiting_approval = refl
of_ordinal-ordinal completed = refl
of_ordinal-ordinal approved = refl
of_ordinal-ordinal rejected = refl
of_ordinal-ordinal RunState.failed = refl
of_ordinal-ordinal RunState.cancelled = refl

-- `a is b` on the members of `RunState`.
unfoldable pub state_eq : RunState → RunState → Bool
unfolding ordinal
state_eq a b = ordinal a == ordinal b

-- The test on states decides their equality.
pub state_eq_iff : (a b : RunState) → (state_eq a b ≡ true) ↔ (a ≡ b)
unfolding state_eq
state_eq_iff a b = (
  λ h. sym (of_ordinal-ordinal a) ∙ ap of_ordinal ((==_iff _ _).0 h) ∙ of_ordinal-ordinal b,
  λ p. (==_iff _ _).1 (ap ordinal p),
)

-- `status == StepStatus.RUNNING`, the one test on statuses in the queries.
unfoldable pub is_running : StepStatus → Bool
is_running StepStatus.running = true
is_running _ = false

abbrev pub main_state_path : List RunState
main_state_path =
    queued ∷ discovering ∷ static_analysis ∷ planning ∷ provisioning ∷ baseline_ready ∷ applying
    ∷ seeding ∷ smoke_testing ∷ rollback_verifying ∷ reporting ∷ completed ∷ []

-- `state in TERMINAL_STATES`
unfoldable pub is_terminal : RunState → Bool
is_terminal completed = true
is_terminal approved = true
is_terminal rejected = true
is_terminal RunState.failed = true
is_terminal RunState.cancelled = true
is_terminal _ = false

-- `s in states`
unfoldable pub contains_state : RunState → List RunState → Bool
unfolding state_eq
contains_state s [] = false
contains_state s (t ∷ ts) = state_eq s t || contains_state s ts

-- The element behind the first occurrence of `s`: `MAIN_STATE_PATH[position + 1]`.
unfoldable pub successor_in : RunState → List RunState → Option RunState
unfolding state_eq
successor_in s [] = none
successor_in s (t ∷ []) = none
successor_in s (t ∷ u ∷ ts) = if state_eq s t then some u else successor_in s (u ∷ ts)

-- None for a state that is not on the main path, and for its last one.
unfoldable pub next_main_state : RunState → Option RunState
unfolding successor_in
next_main_state s = successor_in s main_state_path

-- `_NORMAL_TRANSITIONS.get(state, ())`: the pairs of the main path, with the two entries that are
-- set afterwards.
unfoldable pub normal_transitions : RunState → List RunState
unfolding successor_in
normal_transitions reporting = completed ∷ awaiting_approval ∷ []
normal_transitions awaiting_approval = approved ∷ rejected ∷ []
normal_transitions s = elim (successor_in s main_state_path) [ none ↦ [] | some t ↦ t ∷ [] ]
