-- ===== src/Dispatcher/Poison.antt =====
-- The retry delay, and what a batch does when it cannot be computed.
use shadowops.Prelude.{
  ℕ, ◌+◌, ◌*◌, ◌^◌, ◌≤◌, ◌≡◌, refl, ◌⊎◌, ◌<◌, sym, ap, subst, ◌∙◌, inl, inr, String, Option, none,
  some, List, [], ◌∷◌, arith, Memᴰ, Bool-cases, ltb,
}
use Prim.Native.Nat.{min}
use shadowops.Domain.Errors.{ok, err, runtime_error, Failure}
use shadowops.Domain.Rows.{OutboxEvent}
use shadowops.Store.Database.{Db, ◌>>=◌, ◌>>◌, >>=-next, >>=-err, with_uow-err, lift, pure}
use shadowops.Store.Outbox
use shadowops.Dispatcher.{
  RetryPolicy, first_chars, retry_delay, dispatch_event, dispatch_all, dispatch_body,
  dispatch_batch,
}

overflow : Failure
overflow = runtime_error "OverflowError"

too_many : (policy : RetryPolicy) (n : ℕ) → 1024 ≤ n → retry_delay policy n ≡ err overflow
unfolding retry_delay overflow
too_many policy n h = ground arith

in_range :
    (policy : RetryPolicy) (n : ℕ)
    → n < 1024
    → retry_delay policy n ≡ ok (min policy.retry_max (policy.retry_base * 2 ^ n))
unfolding retry_delay
in_range policy n h = ground arith

module _ (publish : OutboxEvent → Option String) (policy : RetryPolicy) where
  event_poisoned :
      (now n : ℕ) (event : OutboxEvent) (error : String) (db : Db)
      → 1024 ≤ event.publish_attempts
      → dispatch_event publish policy now n event (some error) db ≡ err overflow
  unfolding dispatch_event
  event_poisoned now n event error db h =
      >>=-err _ _ db (ap (λ r. lift r db) (too_many policy event.publish_attempts h))

  postponed-ok :
      (now n delay : ℕ) (event : OutboxEvent) (error : String) (db : Db)
      → (db' : Db) × ((do
        Outbox.mark_failed event.id (first_chars 1000 error) (now + delay)
        pure n)
            db
          ≡ ok (n, db'))
  unfolding Outbox.mark_failed ◌>>◌
  postponed-ok now n delay event error db = (_, refl)

  marked-ok :
      (now n : ℕ) (event : OutboxEvent) (db : Db)
      → (k : ℕ) × (db' : Db) × (dispatch_event publish policy now n event none db ≡ ok (k, db'))
  unfolding dispatch_event Outbox.mark_published ◌>>=◌
  marked-ok now n event db = (_, _, refl)

  outcome_cases :
      (now n : ℕ) (event : OutboxEvent) (outcome : Option String) (db : Db)
      → ((k : ℕ) × (db' : Db) × (dispatch_event publish policy now n event outcome db
            ≡ ok (k, db')))
        ⊎ (dispatch_event publish policy now n event outcome db ≡ err overflow)
  unfolding dispatch_event
  outcome_cases now n event none db = let (k, db', q) = marked-ok now n event db in inl (k, db', q)
  outcome_cases now n event (some error) db = elim (Bool-cases (ltb event.publish_attempts 1024)) [
    | inl e ↦
        let (db', q) =
          postponed-ok now n (min policy.retry_max (policy.retry_base * 2 ^ event.publish_attempts))
            event error db in
        inl (
          n,
          db',
          >>=-next _ _ db
                (ap (λ r. lift r db) (in_range policy event.publish_attempts (ground arith)))
              ∙ q,
        )
    | inr e ↦ inr (event_poisoned now n event error db (ground arith))
  ]

  all_poisoned :
      (now n : ℕ) (events : List OutboxEvent) (event : OutboxEvent) (error : String) (db : Db)
      → Memᴰ event events
      → publish event ≡ some error
      → 1024 ≤ event.publish_attempts
      → dispatch_all publish policy now n events db ≡ err overflow
  unfolding dispatch_all
  all_poisoned now n [] event error db m e h = elim m [ ]
  all_poisoned now n (first ∷ rest) event error db (Memᴰ.head same) e h = >>=-err _ _ db (
      subst (λ o. dispatch_event publish policy now n first o db ≡ err overflow)
        (sym (ap publish (sym same) ∙ e))
        (event_poisoned now n first error db (subst (λ x. 1024 ≤ x.publish_attempts) same h)))
  all_poisoned now n (first ∷ rest) event error db (Memᴰ.tail m) e h =
      elim (outcome_cases now n first (publish first) db) [
        | inl (k, db', q) ↦ >>=-next _ _ db q ∙ all_poisoned now k rest event error db' m e h
        | inr q ↦ >>=-err _ _ db q
      ]

-- One event of the batch that cannot be published and has failed 1024 times or more makes the whole
-- batch raise: whatever else the batch holds, nothing of what it did is written.
pub dispatch_batch_poisoned :
    (publish : OutboxEvent → Option String) (policy : RetryPolicy) (now limit : ℕ) (db : Db)
    (events : List OutboxEvent) (event : OutboxEvent) (error : String)
    → Outbox.lock_unpublished now limit db ≡ ok (events, db)
    → Memᴰ event events
    → publish event ≡ some error
    → 1024 ≤ event.publish_attempts
    → dispatch_batch publish policy now limit db ≡ (err (runtime_error "OverflowError"), db)
unfolding dispatch_batch dispatch_body overflow
dispatch_batch_poisoned publish policy now limit db events event error locked m e h =
    with_uow-err (dispatch_body publish policy now limit) db (
      >>=-next _ _ db locked
      ∙ >>=-err _ _ db (all_poisoned publish policy now 0 events event error db m e h))
