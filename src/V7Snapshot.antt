-- ===== src/V7Snapshot.antt =====
-- sync/v7_snapshot.ts and postgres/v7_snapshot.ts: the snapshot of what the v7 upgrade of the chain wrote, taken
-- once, of the state at the height of the upgrade. The comparison of the dismissed disputes with the
-- chain's only writes to the log, and is left out with its query.
pub mod Cleaning
pub mod Legacy
use ixo_blocksync.Base.{
  ℕ, ◌+◌, Bool, true, false, String, Option, none, some, List, [], ◌∷◌, ◌==◌, nat_eq, ltb,
  if◌then◌else◌,
}
use ixo_blocksync.Pg.{
  Result, ok, err, Tx, Exec, Action, pure, throw, query, with_transaction, ◌>>=◌, ◌>>◌,
}
use ixo_blocksync.Sync.Assembly.{zoom}
use ixo_blocksync.Claims.{ClaimDb, dismiss_legacy_disputes}
use ixo_blocksync.Claims.Collection.{CollectionDoc, ClaimCollection}
use ixo_blocksync.Claims.Collections.{upsert_claim_collection, list_all_collection_ids}
use ixo_blocksync.LiquidStake.{
  LiquidStakePool, ModuleParams, LiquidStakeDb, upsert_liquid_stake_pool,
  upsert_liquid_stake_module_params, relink_legacy_liquid_stake_tx_pool_id, at_height,
}

pub record Counts : Type 0 where
  pub pools_count : ℕ
  pub module_params_written : Bool
  pub legacy_ls_tx_relinked : ℕ
  pub legacy_disputes_dismissed : ℕ
  pub collections_refreshed : ℕ

-- the row of v7_snapshot_state
pub record SnapshotState : Type 0 where
  pub network : String
  pub upgrade_height : ℕ
  pub snapshot_height : ℕ
  pub started_at : ℕ
  pub completed_at : Option ℕ
  pub counts : Option Counts

pub record V7Db : Type 0 where
  pub state : Option SnapshotState
  pub liquid : LiquidStakeDb
  pub claims : ClaimDb

-- The network, its upgrade height, the clock, and what the archive node answers at that height; a
-- pool comes as its row, and a collection, by its id, as the row of its document.
pub record Setting : Type 0 where
  pub network : String
  pub upgrade_height : ℕ
  pub now : ℕ
  pub module_params : Result (Option (String × Bool))
  pub pools : Result (List (String × LiquidStakePool))
  pub collection : String → Result (Option (String × ClaimCollection))

-- V7_LEGACY_POOL_ID
abbrev pub v7_legacy_pool_id : String
v7_legacy_pool_id = "zero"

abbrev counts_of : Option SnapshotState → Option Counts
counts_of none = none
counts_of (some row) = row.counts

-- `startV7Snapshot`
unfoldable pub start_v7_snapshot : Setting → Action V7Db
start_v7_snapshot set = query (λ s. (
  tt,
  record s {
    state = some (record {
      network = set.network;
      upgrade_height = set.upgrade_height;
      snapshot_height = set.upgrade_height;
      started_at = set.now;
      completed_at = none;
      counts = counts_of s.state;
    });
  },
))

abbrev finished : ℕ → Counts → Option SnapshotState → Option SnapshotState
finished now counts none = none
finished now counts (some row) = some (record row { completed_at = some now; counts = some counts })

-- `finishV7Snapshot`
unfoldable pub finish_v7_snapshot : Setting → Counts → Action V7Db
finish_v7_snapshot set counts =
    query (λ s. (tt, record s { state = finished set.now counts s.state }))

-- `state?.completed_at`
abbrev pub is_completed : Option SnapshotState → Bool
is_completed none = false
is_completed (some row) = elim (row.completed_at) [ none ↦ false | some _ ↦ true ]

abbrev pub on_liquid : {A : Type 0} → Exec LiquidStakeDb A → Exec V7Db A
unfolding zoom
on_liquid = zoom (λ s. s.liquid) (λ t s. record s { liquid = t })

abbrev pub on_claims : {A : Type 0} → Exec ClaimDb A → Exec V7Db A
unfolding zoom
on_claims = zoom (λ s. s.claims) (λ t s. record s { claims = t })

-- `await` of a query
abbrev pub ask : {S A : Type 0} → Result A → Exec S A
unfolding pure throw
ask (ok a) = pure a
ask (err e) = throw e

-- the module parameters, and whether they were written
unfoldable pub write_params : Setting → Option (String × Bool) → Exec LiquidStakeDb Bool
unfolding pure ◌>>=◌ upsert_liquid_stake_module_params
write_params set none = pure false
write_params set (some (amount, paused)) =
    upsert_liquid_stake_module_params (record {
      min_liquid_stake_amount = amount;
      module_paused = paused;
      updated_at_height = some set.upgrade_height;
      updated_at = some set.now;
    })
    >> pure true

-- the loop over the pools
unfoldable pub write_pools : Setting → List (String × LiquidStakePool) → ℕ → Exec LiquidStakeDb ℕ
unfolding pure ◌>>=◌ upsert_liquid_stake_pool
write_pools set [] n = pure n
write_pools set ((id, row) ∷ pools) n =
    upsert_liquid_stake_pool id (at_height row (some set.upgrade_height) set.upgrade_height set.now)
    >> write_pools set pools (n + 1)

abbrev pub write_collection : ℕ → Option (String × ClaimCollection) → Exec ClaimDb ℕ
unfolding pure ◌>>=◌ upsert_claim_collection
write_collection n none = pure n
write_collection n (some c) = upsert_claim_collection c >> pure (n + 1)

-- the body of the `try` on a collection, with the count after it
unfoldable pub refresh_collection : Setting → String → ℕ → Exec ClaimDb ℕ
unfolding pure throw ◌>>=◌ upsert_claim_collection
refresh_collection set id n = ask (set.collection id) >>= write_collection n

-- its `catch`, which goes on with the count
unfoldable pub caught : ℕ → Result ℕ × Tx ClaimDb → Result ℕ × Tx ClaimDb
caught n (ok m, tx) = (ok m, tx)
caught n (err e, tx) = (ok n, tx)

unfoldable pub refresh_collections : Setting → List String → ℕ → Exec ClaimDb ℕ
unfolding pure ◌>>=◌ caught refresh_collection
refresh_collections set [] n = pure n
refresh_collections set (id ∷ ids) n =
    (λ tx. caught n (refresh_collection set id n tx)) >>= refresh_collections set ids

-- `runSnapshot`
unfoldable pub run_snapshot : Setting → Exec V7Db Counts
unfolding pure throw zoom write_params write_pools refresh_collections dismiss_legacy_disputes
    relink_legacy_liquid_stake_tx_pool_id list_all_collection_ids
run_snapshot set = do
  params ← ask set.module_params
  written ← on_liquid (write_params set params)
  pools ← ask set.pools
  pools_count ← on_liquid (write_pools set pools 0)
  relinked ← on_liquid (relink_legacy_liquid_stake_tx_pool_id v7_legacy_pool_id set.upgrade_height)
  dismissed ← on_claims dismiss_legacy_disputes
  ids ← on_claims list_all_collection_ids
  refreshed ← on_claims (refresh_collections set ids 0)
  pure (record {
    pools_count = pools_count;
    module_params_written = written;
    legacy_ls_tx_relinked = relinked;
    legacy_disputes_dismissed = dismissed;
    collections_refreshed = refreshed;
  })

unfoldable pub take_snapshot : Setting → Action V7Db
unfolding start_v7_snapshot finish_v7_snapshot run_snapshot ◌>>=◌
take_snapshot set = do
  start_v7_snapshot set
  counts ← run_snapshot set
  finish_v7_snapshot set counts

-- `ensureV7Snapshot`; the state is read before the transaction, by the pool
unfoldable pub ensure_v7_snapshot : Setting → ℕ → V7Db → Result (Unit {0}) × V7Db
unfolding take_snapshot with_transaction
ensure_v7_snapshot set current_block db =
    if set.upgrade_height == 0
    then (ok tt, db)
    else if ltb current_block set.upgrade_height
    then (ok tt, db)
    else if is_completed db.state
    then (ok tt, db)
    else with_transaction (take_snapshot set) db
