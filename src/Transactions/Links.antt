-- ===== src/Transactions/Links.antt =====
-- Which transaction the messages and signers of a block are linked to (postgres/transaction.ts).
use ixo_blocksync.Base.{◌≡◌, true, ℕ, suc, ◌+◌, some, List, [], ◌∷◌, ◌++◌, map, length, nat_eq}
use ixo_blocksync.Base.Table.{Table}
use ixo_blocksync.Pg.{Result, ok, Tx, running}
use ixo_blocksync.Transactions.{
  Block, Message, TransactionSigner, Row, TxDb, TransactionCore, numbered, messages_of, signers_of,
  takes_transactions, takes_messages, takes_signers, transactions_from,
}

-- The rows of the transactions' contents, those of the k-th transaction with the id `next + k`.
pub linked : {A : Type 0} → (TransactionCore → List A) → ℕ → List TransactionCore → List (Row A)
linked f next [] = []
linked f next (t ∷ ts) =
    map (λ c. record { content = c; transaction_id = some next }) (f t) ++ linked f (suc next) ts

-- The database with the rows of a block's transactions, messages and signers.
abbrev pub with_block : ℕ → ℕ → List TransactionCore → TxDb → TxDb
with_block height time ts s = record {
  next_id = s.next_id + length ts;
  transactions = s.transactions ++ numbered time height s.next_id (transactions_from 0 ts);
  messages = s.messages ++ linked (λ t. messages_of t.messages) s.next_id ts;
  signers = s.signers ++ linked (λ t. signers_of t t.messages) s.next_id ts;
  authenticators = s.authenticators;
}

abbrev stored :
    ℕ
    → ℕ
    → List TransactionCore
    → TxDb
    → ℕ
    → List (Row Message)
    → List (Row TransactionSigner)
    → Result (Unit {0}) × Tx TxDb
stored height time ts s n m g = (
  ok tt,
  running (record {
    next_id = s.next_id + n;
    transactions = s.transactions ++ numbered time height s.next_id (transactions_from 0 ts);
    messages = s.messages ++ m;
    signers = s.signers ++ g;
    authenticators = s.authenticators;
  }),
)

-- What the columns and the foreign key ask of a block and of the database: the numbers of the block
-- and the ids to come are of INTEGER's range, and every authenticator that signed has a row.
pub record IsTaken (b : Block) (s : TxDb) : Type 0 where
  pub transactions : takes_transactions b s ≡ true
  pub messages : takes_messages b.messages ≡ true
  pub signers : takes_signers b.signers s.authenticators ≡ true
