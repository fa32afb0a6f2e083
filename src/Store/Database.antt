-- ===== src/Store/Database.antt =====
-- src/shadowops/persistence/database.py and uow.py: the three tables of a run, and the unit of
-- work around the statements of one use case.
use shadowops.Prelude.{Bool, true, false, if◌then◌else◌, List, ◌≡◌, refl, ap, ◌⊎◌, inl, inr, arith}
use shadowops.Domain.Errors.{Failure, Result, ok, err}
use shadowops.Domain.Rows.{AuditRun, RunStep, OutboxEvent}

pub record Db : Type 0 where
  pub runs : List AuditRun
  pub steps : List RunStep
  pub outbox : List OutboxEvent

-- A statement, or a sequence of them, inside a transaction.
abbrev pub Tx {ℓ} : Type ℓ → Type ℓ
Tx A = Db → Result (A × Db)

infixl 5 ◌>>=◌ ◌>>◌
unfoldable pub ◌>>=◌ {ℓ κ} : {A : Type ℓ} {B : Type κ} → Tx A → (A → Tx B) → Tx B
◌>>=◌ m f db = elim (m db) [ ok (a, db') ↦ f a db' | err e ↦ err e ]

unfoldable pub ◌>>◌ {ℓ κ} : {A : Type ℓ} {B : Type κ} → Tx A → Tx B → Tx B
◌>>◌ m k db = elim (m db) [ ok (_, db') ↦ k db' | err e ↦ err e ]

abbrev pub pure {ℓ} : {A : Type ℓ} → A → Tx A
pure a db = ok (a, db)

abbrev pub raise {ℓ} : {A : Type ℓ} → Failure → Tx A
raise e db = err e

-- A call of the domain model, whose exceptions pass through.
abbrev pub lift {ℓ} : {A : Type ℓ} → Result A → Tx A
lift r db = elim r [ ok a ↦ ok (a, db) | err e ↦ err e ]

-- How the block under `with uow` ends: with `uow.commit()` before it, or without.
pub data Ending {ℓ} (A : Type ℓ) : Type ℓ where
  commit : A → Ending A
  rollback : A → Ending A

-- `__exit__`: what was not committed is rolled back, and so is everything when the block raised.
unfoldable pub exit_uow : {A : Type 0} → Db → Result (Ending A × Db) → Result A × Db
exit_uow before (ok (commit a, after)) = (ok a, after)
exit_uow before (ok (rollback a, after)) = (ok a, before)
exit_uow before (err e) = (err e, before)

-- `__enter__`, the block, and `__exit__`.
unfoldable pub with_uow : {A : Type 0} → Tx (Ending A) → Db → Result A × Db
unfolding exit_uow
with_uow body db = exit_uow db (body db)

-- Inversion of a sequence that did not raise.
pub >>=-ok {ℓ κ} :
    {A : Type ℓ} {B : Type κ} (m : Tx A) (f : A → Tx B) (db : Db) {r : B × Db}
    → (m >>= f) db ≡ ok r
    → (a : A) × (mid : Db) × (m db ≡ ok (a, mid)) × (f a mid ≡ ok r)
unfolding ◌>>=◌
>>=-ok {A} {B} m f db {r} h = go (m db) refl h
  where
    go :
        (o : Result (A × Db))
        → m db ≡ o
        → elim o [ ok (a, db') ↦ f a db' | err e ↦ err e ] ≡ ok r
        → (a : A) × (mid : Db) × (m db ≡ ok (a, mid)) × (f a mid ≡ ok r)
    go (ok (a, mid)) e h' = (a, mid, e, h')
    go (err e') e h' = cc

pub >>-ok {ℓ κ} :
    {A : Type ℓ} {B : Type κ} (m : Tx A) (k : Tx B) (db : Db) {r : B × Db}
    → (m >> k) db ≡ ok r
    → (a : A) × (mid : Db) × (m db ≡ ok (a, mid)) × (k mid ≡ ok r)
unfolding ◌>>◌ ◌>>=◌
>>-ok m k db h = >>=-ok m (λ _. k) db h

-- An exception passes through what follows it, and leaves a unit of work with nothing written.
pub >>=-err {ℓ κ} :
    {A : Type ℓ} {B : Type κ} (m : Tx A) (f : A → Tx B) (db : Db) {e : Failure}
    → m db ≡ err e
    → (m >>= f) db ≡ err e
unfolding ◌>>=◌
>>=-err {A} {B} m f db {e} h = go (m db) h
  where
    go :
        (o : Result (A × Db)) → o ≡ err e → elim o [ ok (a, db') ↦ f a db' | err e ↦ err e ] ≡ err e
    go (ok r) q = absurd (cc)
    go (err e') q = ground arith

pub >>=-next {ℓ κ} :
    {A : Type ℓ} {B : Type κ} (m : Tx A) (f : A → Tx B) (db : Db) {a : A} {mid : Db}
    → m db ≡ ok (a, mid)
    → (m >>= f) db ≡ f a mid
unfolding ◌>>=◌
>>=-next {A} {B} m f db {a} {mid} h = go (m db) h
  where
    go :
        (o : Result (A × Db))
        → o ≡ ok (a, mid)
        → elim o [ ok (b, db') ↦ f b db' | err e ↦ err e ] ≡ f a mid
    go (ok r) q = ground arith
    go (err e) q = absurd (cc)

pub >>-next {ℓ κ} :
    {A : Type ℓ} {B : Type κ} (m : Tx A) (k : Tx B) (db : Db) {a : A} {mid : Db}
    → m db ≡ ok (a, mid)
    → (m >> k) db ≡ k mid
unfolding ◌>>◌ ◌>>=◌
>>-next m k db h = >>=-next m (λ _. k) db h

pub with_uow-err :
    {A : Type 0} (body : Tx (Ending A)) (db : Db) {e : Failure}
    → body db ≡ err e
    → with_uow body db ≡ (err e, db)
unfolding with_uow exit_uow
with_uow-err body db h = ap (exit_uow db) h

pub lift-ok {ℓ} :
    {A : Type ℓ} (r : Result A) (db : Db) {a : A} {mid : Db}
    → lift r db ≡ ok (a, mid)
    → (r ≡ ok a) × (mid ≡ db)
lift-ok (ok a) db h = (ground arith, ground arith)
lift-ok (err e) db h = (cc, cc)

-- A unit of work changes the database only by a block that ends with `commit`.
pub with_uow-result :
    {A : Type 0} (P : Db → Type 0) (body : Tx (Ending A)) (db : Db)
    → P db
    → ((a : A) (db' : Db) → body db ≡ ok (commit a, db') → P db')
    → P (with_uow body db).1
unfolding with_uow
with_uow-result {A} P body db keep made = go (body db) refl
  where
    go : (o : Result (Ending A × Db)) → body db ≡ o → P (exit_uow db o).1
    go (ok (commit a, db')) e = made a db' e
    go (ok (rollback a, db')) e = keep
    go (err e') e = keep

-- What a unit of work that returned had done.
pub with_uow-ok :
    {A : Type 0} (body : Tx (Ending A)) (db db' : Db) {a : A}
    → with_uow body db ≡ (ok a, db')
    → (mid : Db) × (((body db ≡ ok (commit a, mid)) × (db' ≡ mid))
        ⊎ ((body db ≡ ok (rollback a, mid)) × (db' ≡ db)))
unfolding with_uow
with_uow-ok {A} body db db' {a} h = go (body db) refl h
  where
    go :
        (o : Result (Ending A × Db))
        → body db ≡ o
        → exit_uow db o ≡ (ok a, db')
        → (mid : Db) × (((body db ≡ ok (commit a, mid)) × (db' ≡ mid))
            ⊎ ((body db ≡ ok (rollback a, mid)) × (db' ≡ db)))
    go (ok (commit b, mid)) e q = (mid, inl (ground arith, ground arith))
    go (ok (rollback b, mid)) e q = (mid, inr (ground arith, ground arith))
    go (err f) e q = absurd (ground arith)

-- What commits did not take the early return.
pub not_rolled_back :
    {A : Type 0} (b : Bool) (early : A) (m : Tx (Ending A)) (db db' : Db) {a : A}
    → (if b then pure (rollback early) else m) db ≡ ok (commit a, db')
    → (m db ≡ ok (commit a, db')) × (b ≡ false)
not_rolled_back true early m db db' h = absurd (ground arith)
not_rolled_back false early m db db' h = (h, refl)
