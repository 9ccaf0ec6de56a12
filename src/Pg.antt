-- ===== src/Pg.antt =====
-- postgres/client.ts: statements on the connection of the running transaction (`dbQuery` with
-- `currentPool` set), and `withTransaction`. PostgreSQL is not part of the repository; what its
-- documentation says of a transaction is written out here: a statement that fails changes nothing
-- and puts the transaction in the failed state, in which every later statement fails until its
-- end; the COMMIT of a failed transaction is a ROLLBACK, and reports no error.
pub mod Laws
use ixo_blocksync.Base.{Bool, true, false, String, Option, none, some, List, [], ◌∷◌, if◌then◌else◌}

pub data Error : Type 0 where
  constraint_violation : Error
  in_failed_transaction : Error
  thrown : String → Error

pub data Result {ℓ} (A : Type ℓ) : Type ℓ where
  ok : A → Result A
  err : Error → Result A

-- The database as the transaction sees it, and whether a statement has failed.
pub record Tx {ℓ} (S : Type ℓ) : Type ℓ where
  pub db : S
  pub failed : Bool

-- a transaction in which no statement has failed
abbrev pub running {ℓ} : {S : Type ℓ} → S → Tx S
running db = record { db = db; failed = false }

-- An async function that runs statements and may throw. What was written before a throw stays
-- written in the transaction, so the state comes back beside the error too.
abbrev pub Exec {ℓ} : Type ℓ → Type ℓ → Type ℓ
Exec S A = Tx S → Result A × Tx S

module _ {ℓ} {S A : Type ℓ} where
  unfoldable pub pure : A → Exec S A
  pure a tx = (ok a, tx)

  unfoldable pub throw : Error → Exec S A
  throw e tx = (err e, tx)

  -- `none` where the database refuses the statement, by a key or a foreign key
  unfoldable pub statement : (S → Option (A × S)) → Exec S A
  statement run tx = if tx.failed then (err in_failed_transaction, tx) else elim (run tx.db) [
    | none ↦ (err constraint_violation, record tx { failed = true })
    | some (a, db) ↦ (ok a, record tx { db = db })
  ]

  -- a statement that the database does not refuse
  unfoldable pub query : (S → A × S) → Exec S A
  query run tx =
      if tx.failed
      then (err in_failed_transaction, tx)
      else let (a, db) = run tx.db in (ok a, record tx { db = db })

module _ {ℓ} {S A B : Type ℓ} where
  abbrev pub continue : Result A → (A → Exec S B) → Exec S B
  continue (ok a) f tx = f a tx
  continue (err e) f tx = (err e, tx)

  infixl 10 ◌>>=◌ ◌>>◌
  unfoldable pub ◌>>=◌ : Exec S A → (A → Exec S B) → Exec S B
  unfolding pure throw
  ◌>>=◌ m f tx = let (r, tx') = m tx in continue r f tx'

  abbrev pub ◌>>◌ : Exec S A → Exec S B → Exec S B
  m >> n = m >>= λ _. n

-- a function whose value nobody reads
abbrev pub Action {ℓ} : Type ℓ → Type ℓ
Action S = Exec S (Unit {ℓ})

-- `await Promise.all([m, n, …])` as the caller sees it, with the calls in the order of the array:
-- the first rejection ends the wait. Where an error ends the transaction, what the others wrote in it
-- by then is rolled back; what they write after its end is `left_over` of Sync.Interface.
unfoldable pub promise_all {ℓ} : {S : Type ℓ} → List (Action S) → Tx S → Result (Unit {ℓ}) × Tx S
unfolding ◌>>=◌
promise_all [] = pure tt
promise_all (m ∷ ms) = m >> promise_all ms

-- `withTransaction`: the outcome of the function, and the database that others see afterwards.
unfoldable pub with_transaction {ℓ} : {S A : Type ℓ} → Exec S A → S → Result A × S
with_transaction fn db =
    let (r, tx) = fn (running db) in
    (r, elim r [ ok _ ↦ (if tx.failed then db else tx.db) | err _ ↦ db ])
