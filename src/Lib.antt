-- ===== src/Lib.antt =====
-- ixo-blocksync: an indexer of the ixo chain. It reads blocks, one after the other, from a core
-- database, and writes what they did into a PostgreSQL database, each block in one transaction.
-- This library models the loop and the parts of the indexing that it calls, and states what makes
-- them correct.
--
-- The parts and their files (paths of the repository):
-- Base: equality, tables with upsert, update and delete by key, lists, integers.
-- Pg: src/postgres/client.ts. An `Exec` is an async function on the database of the running
--   transaction; `dbQuery` is `statement` or `query`, `withTransaction` is `with_transaction`, and
--   the errors are values. What PostgreSQL does with a failed transaction is written out there.
-- Sync: src/sync/sync_blocks.ts, src/postgres/chain.ts and `getCoreBlock` of
--   src/postgres/blocksync_core/block.ts. `startSync` is `start_loop` and `run`, whose `iteration`s
--   are over what the process sees of the core database, one view for each round. The handlers of
--   a block are the record `Handlers` of Sync.Interface, with the laws `HandlerLaws`;
--   Sync.Assembly puts the modelled handlers together. What the calls of `Promise.all` that an
--   error left running still write through the pool is `left_over` of the handlers.
-- Events: src/sync_handlers/event_sync.ts, `syncEvents` with its delayed function, over any
--   handler of an event.
-- Attributes: src/util/helpers.ts, the reading and splitting of attributes, and `chunkArray`.
-- Token: src/postgres/token.ts, the ledger of token transactions and the running balances.
--   Token.Spec is the SELECT by which the migration 20260618000000000 rebuilds the balances.
--   Token.Volume bounds the balances by the sizes of the transactions. Token.Classes has the class and token tables and the token cases of
--   src/sync_handlers/event_data_sync.ts; Token.Entities is a proof about them.
-- Names: src/postgres/names.ts and the names cases of src/sync_handlers/event_data_sync.ts.
-- Authz: src/postgres/authz.ts, src/util/authz.ts, and the authz cases and
--   `refreshConsumedGrant` of src/sync_handlers/event_data_sync.ts. Order and Records are proofs.
-- IxoSwap: src/postgres/ixo_swap.ts, src/sync_handlers/event_data_sync_wasm_ixoswap.ts and the
--   branch of src/sync_handlers/event_data_sync_wasm.ts that calls it.
-- Transactions: src/postgres/transaction.ts and src/sync_handlers/transaction_sync.ts. Of the smart
--   account tables it has the ids of the authenticators, which the signers refer to.
-- TokenEvents: the token branch of src/sync_handlers/event_data_sync_wasm.ts, from the attributes of
--   an event to the ledger.
-- Numbers: JavaScript's Number where the DAO handlers add amounts.
-- Dao: src/postgres/dao.ts and src/sync_handlers/event_data_sync_wasm_dao.ts. Dao itself has the
--   rows and the form of a statement, with its foreign keys; CoreSql, ProposalSql, PreProposeSql,
--   VotingSql, StakerSql and ClaimSql the statements; Archive what the handlers ask of the
--   contracts; CoreEvents, ProposalEvents, PreProposeEvents, VotingEvents and StakeEvents the
--   handler of each kind of contract, and Dispatch `processDaoEvent` and
--   `processDaodaoInstantiateEvent`. The others are proofs.
-- Wasm: src/sync_handlers/event_data_sync_wasm.ts, src/postgres/wasm.ts, src/util/local-cache.ts: the
--   cosmwasm events and the tables that each reaches. `token_classes` of its `Setting` is the
--   committed table that the pool reads during a block. The cache is a part of the state here,
--   and a rollback of the code does not restore it: it only ever holds committed classes.
-- Claims: src/postgres/claim.ts and the claim cases of src/sync_handlers/event_data_sync.ts;
--   Claims.Collection has the row of a collection and `collectionFromSdk`, Claims.Collections the
--   statements on collections, the budgets of members and the deposits of agents.
-- Epochs: src/postgres/epoch.ts and the epoch cases of src/sync_handlers/event_data_sync.ts.
-- LiquidStake: src/postgres/liquidstake.ts and the liquid staking cases of
--   src/sync_handlers/event_data_sync.ts.
-- ArchiveApi: src/util/archive-api.ts, `queryArchiveApi` with its retries and its cache, over the
--   outcomes of the attempts. ArchiveApi.Pages has the queries of src/util/archive-queries.ts that
--   read page after page, ArchiveApi.Grants its `authzGrantsQuery`. The others are proofs.
-- WasmCodeIds: src/constants/wasm_code_ids.ts.
-- DaoSnapshot: src/sync/daodao_snapshot.ts and its statements of src/postgres/dao.ts.
--   `ensureDaodaoSnapshot` runs `run_snapshot` of DaoSnapshot.Passes in one transaction;
--   DaoSnapshot.Steps has what the passes ask and write of one contract. The others are proofs.
-- V7Snapshot: src/sync/v7_snapshot.ts and src/postgres/v7_snapshot.ts, over the tables of LiquidStake
--   and Claims; Cleaning and Legacy are proofs.
-- Tests: the theorems with hypotheses at concrete data.
--
-- Parameters: the archive node (`authz_grants_query`, the smart queries of the DAO contracts, an
-- `Archive`, `epochsQuery`, an `EpochsQuery`, and the `Queries` and the `Setting` of the
-- snapshots), what `fetch` brings at each attempt (`Attempt`), the database's order of texts,
-- JavaScript's `Number` on a text (`parse_number`), `BigInt` (`big_int`), `Decimal`
-- (`Decimals`), the addition of Numbers (`Arithmetic`, exact on safe integers by `IsExact`), the
-- handlers of a block and of an event. Documents, dates and protobuf payloads come decoded, and
-- texts are without the character NUL, which PostgreSQL does not store.
--
-- Bounds: the loops that read page after page have fuel: `list_after` needs one round more than
-- there are entries, since each round but the last brings one, and `follow_keys` a round for
-- each page. Every other loop recurs on a list. The loop waits 26 looks for a block before it
-- counts an error, and ends at the fourth error in a row, so at the 104th look. The statements on
-- token transactions, balances, classes, retired and cancelled tokens and on the reserves of a pool
-- refuse a number out of BIGINT's range, those on transactions, messages, signers, code ids and the
-- weights of members one out of INTEGER's; in the other tables numbers have no bound.
--
-- Not modelled: `Promise.all` is taken as running its calls in their order, and what an error leaves
-- running as over before the next attempt; connections, timeouts, logging and sleeping;
-- the bonds, entity and smart account tables with their event cases, the queries that only the
-- resolvers call, scheduled jobs and start-up. `Sync` takes the two snapshots by their interface.
pub mod Base
pub mod Pg
pub mod Sync
pub mod Events
pub mod Attributes
pub mod Token
pub mod Names
pub mod Authz
pub mod IxoSwap
pub mod Transactions
pub mod TokenEvents
pub mod Numbers
pub mod Dao
pub mod Wasm
pub mod Claims
pub mod Epochs
pub mod ArchiveApi
pub mod WasmCodeIds
pub mod DaoSnapshot
pub mod LiquidStake
pub mod V7Snapshot
pub mod Tests
