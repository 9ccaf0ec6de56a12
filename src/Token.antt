-- ===== src/Token.antt =====
-- postgres/token.ts: the ledger of token transactions and the running balances; Classes has the
-- classes and the tokens with their checks on indexed entities.
pub mod Spec
pub mod Sums
pub mod Volume
pub mod Balances
pub mod Classes
pub mod Entities
use ixo_blocksync.Base.{
  Bool, true, false, String, Option, none, some, List, [], ◌∷◌, ◌++◌, ◌&&◌, ◌==◌, string_eq,
  pair_eq, if◌then◌else◌,
}
use ixo_blocksync.Base.Int.{ℤ, pos, ◌+ℤ◌, neg, is_zero, is_bigint}
use ixo_blocksync.Base.Table.{Table, lookup, upsert, delete, upserted}
use ixo_blocksync.Pg.{Exec, Action, pure, statement, query, ◌>>=◌, ◌>>◌}

pub record TokenTransaction : Type 0 where
  pub sender : String
  pub to : String
  pub amount : ℤ
  pub token_id : String

-- a row of "TokenBalance" beside its key (address, tokenId)
pub record Balance : Type 0 where
  pub amount : ℤ
  pub minted : ℤ
  pub retired : ℤ

-- The tables that a token transaction reads and writes: "Token" by its ids, "TokenTransaction" in
-- the order of insertion, "TokenBalance".
pub record Ledger : Type 0 where
  pub tokens : Table String (Unit {0})
  pub transactions : List TokenTransaction
  pub balances : Table (String × String) Balance

unfoldable pub add : Balance → Balance → Balance
add a b = record {
  amount = a.amount +ℤ b.amount;
  minted = a.minted +ℤ b.minted;
  retired = a.retired +ℤ b.retired;
}

-- `BigInt(row.amount) === 0n && BigInt(row.minted) === 0n && BigInt(row.retired) === 0n`
abbrev pub is_trivial : Balance → Bool
is_trivial b = is_zero b.amount && is_zero b.minted && is_zero b.retired

-- the foreign key "tokenId" → "Token"
abbrev pub if_token {ℓ} : {A : Type ℓ} → Ledger → String → A → Option A
if_token s token_id a = elim (lookup token_id s.tokens) [ none ↦ none | some _ ↦ some a ]

-- the three BIGINT columns of a balance
abbrev pub is_in_range : Balance → Bool
is_in_range b = is_bigint b.amount && is_bigint b.minted && is_bigint b.retired

-- createTokenTransactionSql; its "amount" is a BIGINT
unfoldable pub insert_token_transaction : TokenTransaction → Ledger → Option (Unit {0} × Ledger)
insert_token_transaction t s =
    if is_bigint t.amount
    then if_token s t.token_id (tt, record s { transactions = s.transactions ++ t ∷ [] })
    else none

-- upsertTokenBalanceSql, with the row of its RETURNING; the delta and the row must be in range
unfoldable pub upsert_token_balance : String → String → Balance → Ledger → Option (Balance × Ledger)
upsert_token_balance address token_id delta s =
    let row = upserted delta (λ old. add old delta) (lookup (address, token_id) s.balances) in
    if is_in_range delta && is_in_range row
    then if_token s token_id (
      row,
      record s { balances = upsert (address, token_id) delta (λ old. add old delta) s.balances },
    )
    else none

-- deleteTokenBalanceSql
unfoldable pub delete_token_balance : String → String → Ledger → Unit {0} × Ledger
delete_token_balance address token_id s =
    (tt, record s { balances = delete (address, token_id) s.balances })

pub apply_token_balance_delta : String → String → Balance → Action Ledger
apply_token_balance_delta address token_id delta = do
  row ← statement (upsert_token_balance address token_id delta)
  if is_trivial row then query (delete_token_balance address token_id) else pure tt

-- the first `if` of `createTokenTransaction`; an empty `from` makes the credit a mint
pub credit_recipient : TokenTransaction → Action Ledger
credit_recipient t =
    if t.to == ""
    then pure tt
    else apply_token_balance_delta t.to t.token_id (record {
      amount = t.amount;
      minted = if t.sender == "" then t.amount else pos 0;
      retired = pos 0;
    })

-- the second `if`; an empty `to` makes the debit a retirement
pub debit_sender : TokenTransaction → Action Ledger
debit_sender t =
    if t.sender == ""
    then pure tt
    else apply_token_balance_delta t.sender t.token_id (record {
      amount = neg t.amount;
      minted = pos 0;
      retired = if t.to == "" then t.amount else pos 0;
    })

pub create_token_transaction : TokenTransaction → Action Ledger
create_token_transaction t = do
  statement (insert_token_transaction t)
  credit_recipient t
  debit_sender t
