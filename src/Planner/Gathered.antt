-- ===== src/Planner/Gathered.antt =====
-- The calls of a gathering are numbered and belong to their observations, and they are few.
use shadowops.Prelude.{ℕ, suc, ◌≤◌, ◌≡◌, String, Option, none, some, List, [], ◌∷◌, ◌++◌, length}
use shadowops.Planner.Context.{ReadOnlyToolName, Arguments, ToolObservation, ToolCall, Context}

-- The calls of a run with their observations: each call has the next number, from 1 on, and its
-- observation.
pub data Logged (run_id : ℕ) : List ToolCall → List ToolObservation → Type 0 where
  begun : Logged run_id [] []
  logged :
      (calls : List ToolCall) (observations : List ToolObservation) (last : ToolCall)
      → Logged run_id calls observations
      → last.run_id ≡ run_id
      → last.sequence ≡ suc (length calls)
      → Logged run_id (calls ++ (last ∷ [])) (observations ++ (last.observation ∷ []))

module _ (gateway : ℕ → ReadOnlyToolName → Arguments → Option ToolObservation) (elapsed : ℕ → ℕ)
    (hash_arguments : Arguments → String) (hash_result : ToolObservation → String)
    (call_id : ℕ → ℕ → ReadOnlyToolName → String → String) (run_id : ℕ) where
  -- How a gathering of so many calls at most ends.
  pub data Gathers (most : ℕ) (outcome : Option Context) : Type 0 where
    answered :
        (context : Context)
        → outcome ≡ some context
        → Logged run_id context.calls context.observations
        → length context.calls ≤ most
        → Gathers most outcome
    unanswered :
        outcome ≡ none
        → (sequence : ℕ) (tool : ReadOnlyToolName) (arguments : Arguments)
        → gateway sequence tool arguments ≡ none
        → Gathers most outcome
