-- ===== src/Sync.antt =====
-- sync/sync_blocks.ts: the loop that indexes one block after another, each in one database
-- transaction; postgres/chain.ts and `getCoreBlock` of postgres/blocksync_core/block.ts, which it
-- reads its place and its blocks by. The handlers of a block are an interface, which the modules
-- of the handlers fill. Logging, timing and sleeping are left out.
pub mod Interface
pub mod Commit
pub mod Progress
pub mod Restart
pub mod Patience
pub mod Assembly
use ixo_blocksync.Base.{
  ℕ, suc, ◌+◌, Bool, true, false, String, Option, none, some, List, [], ◌∷◌, ltb, find, ◌==◌,
  nat_eq, string_eq, nat_beq, if◌then◌else◌,
}
use ixo_blocksync.Base.Table.{Table, lookup, update}
use ixo_blocksync.Pg.{
  Error, thrown, Result, ok, err, Tx, Action, query, ◌>>=◌, ◌>>◌, promise_all, with_transaction,
}
use Interface.{BlockCore, World, Handlers, HandlerLaws}

-- getChainSql: the `blockHeight` of the chain's row
unfoldable pub get_chain : {R : Type 0} → String → World R → Option ℕ
get_chain chain_id w = lookup chain_id w.chain

-- updateChainSql
unfoldable pub update_chain : {R : Type 0} → String → ℕ → Action (World R)
update_chain chain_id height =
    query (λ w. (tt, record w { chain = update chain_id (λ _. height) w.chain }))

-- What an iteration can see of the core database: no connection, or its block rows.
pub data Core : Type 0 where
  unreachable : Core
  rows : List BlockCore → Core

-- `getCoreBlock`: null where no row has the height
unfoldable pub get_core_block : ℕ → List BlockCore → Option BlockCore
get_core_block height blocks = find (λ b. nat_beq b.height height) blocks

-- The variables of `startSync`.
pub record Loop : Type 0 where
  pub current_block : ℕ
  pub count : ℕ
  pub error_count : ℕ

-- How an iteration ends: at the loop's next test, or by the error that ends `startSync`.
pub data Next (R : Type 0) : Type 0 where
  again : Loop → World R → Next R
  exit : Error → World R → Next R

-- `(await getChain(chainId))?.blockHeight || 1`, then one more unless it is 1
unfoldable pub start_block : Option ℕ → ℕ
start_block none = 1
start_block (some h) = let at = if nat_beq h 0 then 1 else h in if nat_beq at 1 then 1 else at + 1

unfoldable pub start_loop : {R : Type 0} → String → World R → Loop
unfolding start_block get_chain
start_loop chain_id w = record {
  current_block = start_block (get_chain chain_id w);
  count = 0;
  error_count = 0;
}

-- the `catch` of an iteration
unfoldable pub recover : {R : Type 0} → Error → Loop → World R → Next R
recover e l w =
    if ltb 3 (l.error_count + 1)
    then exit e w
    else again (record l { count = 0; error_count = l.error_count + 1 }) w

-- the branch of a missing block
unfoldable pub wait_for_block : {R : Type 0} → Loop → World R → Next R
unfolding recover
wait_for_block l w =
    if ltb 25 (l.count + 1)
    then recover (thrown "More than 25 attempts in a row, erroring...") l w
    else again (record l { count = l.count + 1 }) w

module _ {R : Type 0} (handlers : Handlers R) (chain_id : String) where
  open handlers use {
    sync_events, sync_transactions, delete_expired_authz_grants, ensure_daodao_snapshot,
    ensure_v7_snapshot, left_over,
  }

  -- the function that `startSync` hands to `withTransaction`
  unfoldable pub sync_block : BlockCore → Action (World R)
  unfolding ◌>>=◌
  sync_block block = do
    promise_all
        (sync_events block ∷ sync_transactions block ∷ update_chain chain_id block.height ∷ [])
    delete_expired_authz_grants block

  -- The block's transaction, and after an error what it left running: the transaction has been
  -- rolled back then, and what is left over writes to the database that others see.
  unfoldable pub sync_in_transaction : BlockCore → World R → Result (Unit {0}) × World R
  sync_in_transaction block w =
      let (r, w') = with_transaction (sync_block block) w in
      (r, elim r [ ok _ ↦ w' | err _ ↦ left_over block w' ])

  -- the branch of a fetched block: the two snapshots, then the block's transaction
  unfoldable pub index_block : BlockCore → World R → Result (Unit {0}) × World R
  index_block block w =
      let (daodao, w₁) = ensure_daodao_snapshot block.height w in
      elim daodao [
        | err e ↦ (err e, w₁)
        | ok _ ↦
            let (v7, w₂) = ensure_v7_snapshot block.height w₁ in
            elim v7 [ err e ↦ (err e, w₂) | ok _ ↦ sync_in_transaction block w₂ ]
      ]

  abbrev advance : Loop → Result (Unit {0}) × World R → Next R
  advance l (ok _, w) =
      again (record l { current_block = l.current_block + 1; count = 0; error_count = 0 }) w
  advance l (err e, w) = recover e l w

  -- one round of the `while`
  unfoldable pub iteration : Core → Loop → World R → Next R
  iteration unreachable l w = recover (thrown "connection") l w
  iteration (rows blocks) l w = elim (get_core_block l.current_block blocks) [
    | some block ↦ advance l (index_block block w)
    | none ↦ wait_for_block l w
  ]

  -- `startSync` over what its iterations see of the core database
  unfoldable pub run : List Core → Loop → World R → Next R
  run [] l w = again l w
  run (seen ∷ rest) l w = elim (iteration seen l w) [
    | again l' w' ↦ run rest l' w'
    | exit e w' ↦ exit e w'
  ]
