-- ===== src/Planner/Bounded.antt =====
-- A planning comes to its end, with a safe plan or without one.
use shadowops.Prelude.{◌≤◌, ◌≡◌, String, Bool, false, none, some, List}
use shadowops.Plan.{AuditPlan}
use shadowops.Plan.Validator.{accepted, refused}
use shadowops.Plan.Sound.{IsSafe}
use shadowops.Planner.{
  Planning, PlannerRequest, succeeded, failed, AuditPlanRecord, PlanningResult, Parsed, tried,
  Reply, gives, raises, escapes,
}

-- The end of a planning: a safe plan of the run, or the failure that is on the invocation.
pub data Ends {T : Type 0} (p : Planning) (result : PlanningResult T) : Type 0 where
  with_plan :
      (kept : AuditPlanRecord)
      → result.plan ≡ some kept
      → IsSafe kept.plan
      → kept.run_id ≡ p.run_id
      → kept.invocation_id ≡ result.invocation.id
      → result.invocation.status ≡ succeeded
      → Ends p result
  without_plan :
      result.plan ≡ none
      → result.invocation.status ≡ failed
      → result.invocation.error_code ≡ some "PLAN_INVALID"
      → Ends p result

module _ {O : Type 0} (invoke : PlannerRequest O → Reply String) (parse : String → Parsed)
    (too_large : String → Bool) where
  -- An exception that the provider raises, or one of the parser that no `except` clause names.
  pub data Escapes (error : String) : Type 0 where
    of_provider : (request : PlannerRequest O) → invoke request ≡ raises error → Escapes error
    of_parser :
        (request : PlannerRequest O) (text : String)
        → invoke request ≡ gives text
        → too_large text ≡ false
        → parse text ≡ escapes error
        → Escapes error

  -- What may come of one attempt.
  data Tries (request : PlannerRequest O) : Type 0 where
    escaped :
        (error : String)
        → tried invoke parse too_large request ≡ raises error
        → Escapes error
        → Tries request
    was_refused :
        (response : String) (errors : List String)
        → tried invoke parse too_large request ≡ gives (response, refused errors)
        → Tries request
    was_accepted :
        (response : String) (plan : AuditPlan)
        → tried invoke parse too_large request ≡ gives (response, accepted plan)
        → IsSafe plan
        → Tries request

module _ {O T : Type 0} (invoke : PlannerRequest O → Reply String) (parse : String → Parsed)
    (too_large : String → Bool) (hash bounded : String → String) where
  -- How a planning ends: with a result and one repair at most, or with the exception that escaped.
  pub data Comes (p : Planning) (reply : Reply (PlanningResult T)) : Type 0 where
    returns :
        (result : PlanningResult T)
        → reply ≡ gives result
        → result.invocation.repair_attempts ≤ 1
        → Ends p result
        → Comes p reply
    interrupted :
        (error : String)
        → reply ≡ raises error
        → Escapes invoke parse too_large error
        → Comes p reply
