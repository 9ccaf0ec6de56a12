-- ===== src/DaoSnapshot.antt =====
-- sync/daodao_snapshot.ts, and the state of the snapshot and the list of contracts of postgres/dao.ts: the
-- snapshot of the DAO contracts, taken once. NOW() and `new Date()` are given; the count of each
-- kind is the value of its pass.
pub mod Steps
pub mod Passes
pub mod Once
pub mod Backfill
pub mod Stakers
pub mod Faults
use ixo_blocksync.Base.{
  ℕ, Bool, true, false, String, Option, none, some, List, [], ◌∷◌, ◌==◌, ◌&&◌, ◌||◌, nat_eq,
  string_eq, ltb, if◌then◌else◌,
}
use ixo_blocksync.Base.Table.{Table, lookup}
use ixo_blocksync.Pg.{Result, ok, err, Tx, Exec, Action, query, with_transaction, ◌>>=◌, ◌>>◌}
use ixo_blocksync.Dao.{DaoDb}
use ixo_blocksync.Wasm.{WasmInstantiate}

pub record Counts : Type 0 where
  pub dao_core_count : ℕ
  pub voting_module_count : ℕ
  pub proposal_module_count : ℕ
  pub proposals_count : ℕ

-- the row of daodao_snapshot_state
pub record SnapshotState : Type 0 where
  pub network : String
  pub cutoff_height : ℕ
  pub snapshot_height : ℕ
  pub started_at : ℕ
  pub completed_at : Option ℕ
  pub counts : Option Counts

pub record SnapshotDb : Type 0 where
  pub state : Option SnapshotState
  pub contracts : Table String WasmInstantiate
  pub dao : DaoDb

-- the network, its cutoff height, and the two clocks
pub record Setting : Type 0 where
  pub network : String
  pub cutoff_height : ℕ
  pub now : ℕ

abbrev counts_of : Option SnapshotState → Option Counts
counts_of none = none
counts_of (some row) = row.counts

-- `startDaodaoSnapshot`: a new row, or the old one without its completion
unfoldable pub start_daodao_snapshot : Setting → ℕ → Action SnapshotDb
start_daodao_snapshot set height = query (λ s. (
  tt,
  record s {
    state = some (record {
      network = set.network;
      cutoff_height = set.cutoff_height;
      snapshot_height = height;
      started_at = set.now;
      completed_at = none;
      counts = counts_of s.state;
    });
  },
))

abbrev finished : ℕ → Counts → Option SnapshotState → Option SnapshotState
finished now counts none = none
finished now counts (some row) = some (record row { completed_at = some now; counts = some counts })

-- `finishDaodaoSnapshot`
unfoldable pub finish_daodao_snapshot : Setting → Counts → Action SnapshotDb
finish_daodao_snapshot set counts =
    query (λ s. (tt, record s { state = finished set.now counts s.state }))

-- `state?.completed_at`
abbrev pub is_completed : Option SnapshotState → Bool
is_completed none = false
is_completed (some row) = elim (row.completed_at) [ none ↦ false | some _ ↦ true ]

-- The transaction of the snapshot at a height, around the passes.
unfoldable pub take_snapshot : Setting → (ℕ → Exec SnapshotDb Counts) → ℕ → Action SnapshotDb
unfolding start_daodao_snapshot finish_daodao_snapshot ◌>>=◌
take_snapshot set run_snapshot height = do
  start_daodao_snapshot set height
  counts ← run_snapshot height
  finish_daodao_snapshot set counts

-- `ensureDaodaoSnapshot`; the state is read before the transaction, by the pool
unfoldable pub ensure_daodao_snapshot :
    Setting → (ℕ → Exec SnapshotDb Counts) → ℕ → SnapshotDb → Result (Unit {0}) × SnapshotDb
unfolding take_snapshot with_transaction
ensure_daodao_snapshot set run_snapshot current_block db =
    if set.cutoff_height == 0
    then (ok tt, db)
    else if ltb current_block set.cutoff_height
    then (ok tt, db)
    else if is_completed db.state
    then (ok tt, db)
    else with_transaction (take_snapshot set run_snapshot current_block) db

-- a contract of `listDaodaoContractsByType`
pub record Contract : Type 0 where
  pub address : String
  pub code_id : ℕ
  pub contract_type : String
  pub block_height : ℕ

-- ORDER BY block_height, address; `le` is the database's order of texts
abbrev pub is_before : (String → String → Bool) → Contract → Contract → Bool
is_before le a b =
    if a.block_height == b.block_height
    then le a.address b.address
    else ltb a.block_height b.block_height

unfoldable pub insert_contract : (String → String → Bool) → Contract → List Contract → List Contract
insert_contract le c [] = c ∷ []
insert_contract le c (d ∷ ds) =
    let rest = insert_contract le c ds in if is_before le c d then c ∷ d ∷ ds else d ∷ rest

abbrev pub with_contract :
    (String → String → Bool)
    → String
    → WasmInstantiate
    → Option String
    → List Contract
    → List Contract
with_contract le address row none rest = rest
with_contract le address row (some type) rest =
    insert_contract le
      (record {
        address = address;
        code_id = row.code_id;
        contract_type = type;
        block_height = row.block_height;
      })
      rest

-- `listDaodaoContractsByType`: the contracts whose code id has a type
unfoldable pub list_daodao_contracts :
    (String → String → Bool) → Table ℕ String → Table String WasmInstantiate → List Contract
unfolding insert_contract
list_daodao_contracts le types [] = []
list_daodao_contracts le types ((address, row) ∷ rows) =
    with_contract le address row (lookup row.code_id types) (list_daodao_contracts le types rows)

-- `byType.get(type) ?? []`
unfoldable pub of_type : String → List Contract → List String
of_type type [] = []
of_type type (c ∷ cs) =
    let rest = of_type type cs in if c.contract_type == type then c.address ∷ rest else rest
