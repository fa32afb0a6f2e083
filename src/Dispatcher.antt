-- ===== src/Dispatcher.antt =====
-- src/shadowops/worker/outbox.py: `OutboxDispatcher`. The broker is a parameter: what `publish`
-- does with an event, `none` when it returns and the text of the exception when it raises.
pub mod Changes
pub mod Poison
use shadowops.Prelude.{
  ℕ, zero, suc, ◌+◌, ◌*◌, ◌^◌, String, Bool, true, false, Option, none, some, List, [], ◌∷◌, ltb,
  if◌then◌else◌,
}
use Prim.Native.Nat.{min}
use Prim.Native.String
use shadowops.Domain.Errors.{Result, ok, err, runtime_error}
use shadowops.Domain.Rows.{OutboxEvent}
use shadowops.Store.Database.{Db, Tx, ◌>>=◌, ◌>>◌, pure, lift, Ending, commit, with_uow}
use shadowops.Store.Outbox

-- `text[:n]`
unfoldable pub first_chars : ℕ → String → String
first_chars zero text = String.[]
first_chars (suc n) String.[] = String.[]
first_chars (suc n) (String.◌∷◌ c text) = String.◌∷◌ c (first_chars n text)

pub record RetryPolicy : Type 0 where
  pub retry_base : ℕ
  pub retry_max : ℕ

-- In microseconds. `retry_base.total_seconds() * (2**prior_attempts)` first makes a float of the
-- power, which raises from 2 ** 1024 on; a product that is too large is `inf`, and `min` drops it.
unfoldable pub retry_delay : RetryPolicy → ℕ → Result ℕ
retry_delay policy prior_attempts =
    if ltb prior_attempts 1024
    then ok (min policy.retry_max (policy.retry_base * 2 ^ prior_attempts))
    else err (runtime_error "OverflowError")

module _ (publish : OutboxEvent → Option String) (policy : RetryPolicy) where
  -- One round of the loop: the new count of published events.
  unfoldable pub dispatch_event : ℕ → ℕ → OutboxEvent → Option String → Tx ℕ
  unfolding retry_delay first_chars Outbox.mark_failed Outbox.mark_published
  dispatch_event now published event (some error) = do
    delay ← lift (retry_delay policy event.publish_attempts)
    Outbox.mark_failed event.id (first_chars 1000 error) (now + delay)
    pure published
  dispatch_event now published event none = do
    marked ← Outbox.mark_published event.id now
    pure (if marked then published + 1 else published)

  unfoldable pub dispatch_all : ℕ → ℕ → List OutboxEvent → Tx ℕ
  unfolding dispatch_event
  dispatch_all now published [] = pure published
  dispatch_all now published (event ∷ rest) = do
    counted ← dispatch_event now published event (publish event)
    dispatch_all now counted rest

  unfoldable pub dispatch_body : ℕ → ℕ → Tx (Ending ℕ)
  unfolding dispatch_all Outbox.lock_unpublished
  dispatch_body now limit = do
    events ← Outbox.lock_unpublished now limit
    published ← dispatch_all now 0 events
    pure (commit published)

  unfoldable pub dispatch_batch : ℕ → ℕ → Db → Result ℕ × Db
  dispatch_batch now limit = with_uow (dispatch_body now limit)
