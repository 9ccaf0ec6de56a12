-- ===== src/LiquidStake.antt =====
-- postgres/liquidstake.ts and the liquid staking cases of sync_handlers/event_data_sync.ts. JSON columns are
-- texts, and the attributes of an event come read by `safeGet`. The BIGSERIAL id of a transaction,
-- which nothing reads, is left out.
use ixo_blocksync.Base.{
  ℕ, ◌+◌, Bool, true, String, Option, none, some, List, [], ◌∷◌, ◌++◌, ◌==◌, ◌&&◌, ◌||◌, not,
  string_eq, ltb, if◌then◌else◌,
}
use ixo_blocksync.Base.Table.{Table, upsert}
use ixo_blocksync.Pg.{Exec, Action, query, statement}

pub record LiquidStakePool : Type 0 where
  pub liquid_bond_denom : String
  pub proxy_account_address : String
  pub whitelisted_validators : String
  pub unstake_fee_rate : String
  pub fee_account_address : String
  pub autocompound_fee_rate : String
  pub whitelist_admin_address : String
  pub paused : Bool
  pub weighted_rewards_receivers : String
  pub created_at_height : Option ℕ
  pub updated_at_height : Option ℕ
  pub updated_at : Option ℕ

pub record ModuleParams : Type 0 where
  pub min_liquid_stake_amount : String
  pub module_paused : Bool
  pub updated_at_height : Option ℕ
  pub updated_at : Option ℕ

pub record LiquidStakeTx : Type 0 where
  pub kind : String
  pub pool_id : String
  pub delegator : Option String
  pub payload : String
  pub transaction_hash : Option String
  pub height : ℕ
  pub timestamp : ℕ

pub record LiquidStakeDb : Type 0 where
  pub pools : Table String LiquidStakePool
  pub params : Option ModuleParams
  pub txs : List LiquidStakeTx

-- the unique index of "liquidBondDenom": no other pool has the denom
abbrev pub is_denom_free : String → String → Table String LiquidStakePool → Bool
is_denom_free id denom [] = true
is_denom_free id denom ((i, row) ∷ t) =
    (i == id || not (row.liquid_bond_denom == denom)) && is_denom_free id denom t

-- ON CONFLICT DO UPDATE of `upsertLiquidStakePoolSql`: all but the height of the creation
abbrev pub repooled : LiquidStakePool → LiquidStakePool → LiquidStakePool
repooled new old = record new { created_at_height = old.created_at_height }

unfoldable pub upsert_liquid_stake_pool : String → LiquidStakePool → Action LiquidStakeDb
upsert_liquid_stake_pool id row = statement (λ s.
    if is_denom_free id row.liquid_bond_denom s.pools
    then some (tt, record s { pools = upsert id row (repooled row) s.pools })
    else none)

unfoldable pub upsert_liquid_stake_module_params : ModuleParams → Action LiquidStakeDb
upsert_liquid_stake_module_params row = query (λ s. (tt, record s { params = some row }))

unfoldable pub insert_liquid_stake_tx : LiquidStakeTx → Action LiquidStakeDb
insert_liquid_stake_tx row = query (λ s. (tt, record s { txs = s.txs ++ row ∷ [] }))

-- the WHERE of `relinkLegacyLiquidStakeTxPoolId`
abbrev pub is_legacy : ℕ → LiquidStakeTx → Bool
is_legacy before row = row.pool_id == "" && ltb row.height before

unfoldable pub relink : String → ℕ → List LiquidStakeTx → List LiquidStakeTx
relink pool before [] = []
relink pool before (row ∷ rows) =
    (if is_legacy before row then record row { pool_id = pool } else row) ∷ relink pool before rows

unfoldable pub legacy_tx_count : ℕ → List LiquidStakeTx → ℕ
legacy_tx_count before [] = 0
legacy_tx_count before (row ∷ rows) =
    let rest = legacy_tx_count before rows in if is_legacy before row then 1 + rest else rest

-- `relinkLegacyLiquidStakeTxPoolId`, with the number of rows
unfoldable pub relink_legacy_liquid_stake_tx_pool_id : String → ℕ → Exec LiquidStakeDb ℕ
unfolding relink legacy_tx_count
relink_legacy_liquid_stake_tx_pool_id pool before =
    query (λ s. (legacy_tx_count before s.txs, record s { txs = relink pool before s.txs }))

-- the types of `liquidStakeEventKind`
pub data TxType : Type 0 where
  ls_stake : TxType
  ls_unstake : TxType
  ls_auto_compound : TxType
  ls_rebalanced : TxType
  ls_add_liquid_validator : TxType

unfoldable pub liquid_stake_event_kind : TxType → String
liquid_stake_event_kind ls_stake = "stake"
liquid_stake_event_kind ls_unstake = "unstake"
liquid_stake_event_kind ls_auto_compound = "autocompound"
liquid_stake_event_kind ls_rebalanced = "rebalance"
liquid_stake_event_kind ls_add_liquid_validator = "addValidator"

-- The events; a pool comes as its row without heights and time, a transaction with its pool id,
-- delegator, validator, payload and hash.
pub data LiquidStakeEvent : Type 0 where
  module_params_updated : String → Bool → LiquidStakeEvent
  pool_created : String → LiquidStakePool → LiquidStakeEvent
  pool_updated : String → LiquidStakePool → LiquidStakeEvent
  tx_event : TxType → String → String → String → String → Option String → LiquidStakeEvent

-- `delegator || undefined`, after `safeGet(delegator) || safeGet(validator)`
abbrev pub delegator_or : String → String → Option String
delegator_or delegator validator =
    if delegator == "" then (if validator == "" then none else some validator) else some delegator

abbrev pub at_height : LiquidStakePool → Option ℕ → ℕ → ℕ → LiquidStakePool
at_height row created height time = record row {
  created_at_height = created;
  updated_at_height = some height;
  updated_at = some time;
}

-- The liquid staking cases of `syncEventData`, in a block of this height and time.
unfoldable pub sync_liquid_stake_event : ℕ → ℕ → LiquidStakeEvent → Action LiquidStakeDb
unfolding upsert_liquid_stake_pool upsert_liquid_stake_module_params insert_liquid_stake_tx
    liquid_stake_event_kind
sync_liquid_stake_event height time (module_params_updated amount paused) =
    upsert_liquid_stake_module_params (record {
      min_liquid_stake_amount = amount;
      module_paused = paused;
      updated_at_height = some height;
      updated_at = some time;
    })
sync_liquid_stake_event height time (pool_created id row) =
    upsert_liquid_stake_pool id (at_height row (some height) height time)
sync_liquid_stake_event height time (pool_updated id row) =
    upsert_liquid_stake_pool id (at_height row none height time)
sync_liquid_stake_event height time (tx_event type pool delegator validator payload hash) =
    insert_liquid_stake_tx (record {
      kind = liquid_stake_event_kind type;
      pool_id = pool;
      delegator = delegator_or delegator validator;
      payload = payload;
      transaction_hash = hash;
      height = height;
      timestamp = time;
    })
