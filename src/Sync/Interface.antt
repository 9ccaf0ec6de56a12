-- ===== src/Sync/Interface.antt =====
-- The data that sync/sync_blocks.ts passes on, and what it asks of the handlers of a block.
use ixo_blocksync.Base.{ℕ, false, String, ◌≡◌, List}
use ixo_blocksync.Base.Table.{Table}
use ixo_blocksync.Transactions.{TransactionCore}
use ixo_blocksync.Pg.{Result, ok, Tx, Action}

pub record Attribute : Type 0 where
  pub key : String
  pub value : String

pub record EventCore : Type 0 where
  pub type : String
  pub attributes : List Attribute
  pub transaction_hash : String

-- `BlockCore`, with the part of it that the loop and the event handlers read; `time` in
-- milliseconds since the epoch
pub record BlockCore : Type 0 where
  pub height : ℕ
  pub time : ℕ
  pub transactions : List TransactionCore
  pub events : List EventCore

-- The database: the "Chain" table, and all the others.
pub record World (R : Type 0) : Type 0 where
  pub chain : Table String ℕ
  pub rest : R

pub record Handlers (R : Type 0) : Type 0 where
  pub sync_events : BlockCore → Action (World R)
  pub sync_transactions : BlockCore → Action (World R)
  pub delete_expired_authz_grants : BlockCore → Action (World R)
  pub ensure_daodao_snapshot : ℕ → World R → Result (Unit {0}) × World R
  pub ensure_v7_snapshot : ℕ → World R → Result (Unit {0}) × World R
  -- What the calls of `Promise.all` that a rejection leaves running still write through the pool,
  -- once the transaction has ended and `currentPool` is unset; as it was where there are none.
  pub left_over : BlockCore → World R → World R

-- `Chain` is written by sync_blocks.ts and sync_chain.ts alone, and the expiry sweep,
-- a statement, succeeds only where no statement has failed. `updateChain` sends its query at its
-- call, on the connection of the transaction, so it is not among the calls left over.
pub record HandlerLaws {R : Type 0} (h : Handlers R) : Type 0 where
  pub events_chain :
      (b : BlockCore) (tx : Tx (World R)) → (h.sync_events b tx).1.db.chain ≡ tx.db.chain
  pub transactions_chain :
      (b : BlockCore) (tx : Tx (World R)) → (h.sync_transactions b tx).1.db.chain ≡ tx.db.chain
  pub expiry_chain :
      (b : BlockCore) (tx : Tx (World R))
      → (h.delete_expired_authz_grants b tx).1.db.chain ≡ tx.db.chain
  pub expiry_ok :
      (b : BlockCore) (tx : Tx (World R))
      → (h.delete_expired_authz_grants b tx).0 ≡ ok tt
      → (tx.failed ≡ false) × ((h.delete_expired_authz_grants b tx).1.failed ≡ false)
  pub daodao_chain : (n : ℕ) (w : World R) → (h.ensure_daodao_snapshot n w).1.chain ≡ w.chain
  pub v7_chain : (n : ℕ) (w : World R) → (h.ensure_v7_snapshot n w).1.chain ≡ w.chain
  pub left_over_chain : (b : BlockCore) (w : World R) → (h.left_over b w).chain ≡ w.chain
