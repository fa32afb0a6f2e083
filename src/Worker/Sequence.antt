-- ===== src/Worker/Sequence.antt =====
-- What a sequence of calls of a task had done when it returned or raised.
use shadowops.Prelude.{◌≡◌, refl, ◌⊎◌, inl, inr, arith}
use shadowops.Domain.Errors.{Result, ok, err}
use shadowops.Store.Database.{Db}
use shadowops.Worker.{
  Raised, run_cancellation_requested, Outcome, returned, raised, outcome_of, Process, Task, ◌>>=◌,
}

module _ {A B : Type 0} (m : Task A) (f : A → Task B) (w : Process) {w' : Process} where
  pub >>=-returned :
      {b : B}
      → (m >>= f) w ≡ (returned b, w')
      → (a : A) × (mid : Process) × (m w ≡ (returned a, mid)) × (f a mid ≡ (returned b, w'))
  unfolding ◌>>=◌
  >>=-returned {b} h = go (m w) refl h
    where
      go :
          (o : Outcome A × Process)
          → m w ≡ o
          → elim o.0 [ returned a ↦ f a o.1 | raised e ↦ (raised e, o.1) ] ≡ (returned b, w')
          → (a : A) × (mid : Process) × (m w ≡ (returned a, mid)) × (f a mid ≡ (returned b, w'))
      go (returned a, mid) e q = (a, mid, e, q)
      go (raised x, mid) e q = absurd (ground (arith, q))

  pub >>=-raised :
      {x : Raised}
      → (m >>= f) w ≡ (raised x, w')
      → (m w ≡ (raised x, w'))
        ⊎ ((a : A) × (mid : Process) × (m w ≡ (returned a, mid)) × (f a mid ≡ (raised x, w')))
  unfolding ◌>>=◌
  >>=-raised {x} h = go (m w) refl h
    where
      go :
          (o : Outcome A × Process)
          → m w ≡ o
          → elim o.0 [ returned a ↦ f a o.1 | raised e ↦ (raised e, o.1) ] ≡ (raised x, w')
          → (m w ≡ (raised x, w'))
            ⊎ ((a : A) × (mid : Process) × (m w ≡ (returned a, mid)) × (f a mid ≡ (raised x, w')))
      go (returned a, mid) e q = inr (a, mid, e, q)
      go (raised y, mid) e q = inl (ground (arith, e, q))

pub returned_ok :
    {A : Type 0} (r : Result A) (db : Db) (w w' : Process) {a : A}
    → ◌≡◌ {A = Outcome A × Process} (outcome_of r, w) (returned a, w')
    → w.db ≡ db
    → ◌≡◌ {A = Result A × Db} (r, db) (ok a, w'.db)
returned_ok (ok b) db w w' h e = ground (arith, h, e)
returned_ok (err f) db w w' h e = absurd (ground (arith, h))

-- A transaction does not ask for a cancellation.
pub not_cancelled :
    {A : Type 0} (r : Result A) (w w' : Process)
    → ◌≡◌ {A = Outcome A × Process} (outcome_of r, w) (raised run_cancellation_requested, w')
    → ⊥
not_cancelled (ok b) w w' h = ground (arith, h)
not_cancelled (err f) w w' h = ground (arith, h)
