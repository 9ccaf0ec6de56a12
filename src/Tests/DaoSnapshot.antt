-- ===== src/Tests/DaoSnapshot.antt =====
-- The snapshot of the DAOs at concrete data.
use ixo_blocksync.Base.{
  ◌≡◌, refl, ℕ, ◌+◌, ◌⊎◌, true, String, none, some, [], ◌∷◌, string_eq, pair_eq, nat_eq, arith,
  length,
}
use ixo_blocksync.Base.Int.{pos}
use ixo_blocksync.Base.Table.{Table, lookup}
use ixo_blocksync.Numbers.{integer}
use ixo_blocksync.Pg.{Error, constraint_violation, ok, err, thrown, running}
use ixo_blocksync.Dao.{DaoProposal, DaoDb}
use ixo_blocksync.Dao.Archive.{CreationPolicy, ProposalInfo}
use ixo_blocksync.Dao.StakerSql.{sum_staked}
use ixo_blocksync.Dao.Weights.{IsSettled}
use ixo_blocksync.Dao.ProposalSql.{text_status}
use ixo_blocksync.Wasm.{WasmInstantiate}
use ixo_blocksync.DaoSnapshot.{SnapshotDb, Setting, ensure_daodao_snapshot}
use ixo_blocksync.DaoSnapshot.Steps.{Dump, Queries, Context, backfill}
use ixo_blocksync.DaoSnapshot.Passes.{snapshot_cw20_stakers, snapshot_dao_core, run_snapshot}
use ixo_blocksync.DaoSnapshot.Once.{ensure_daodao_snapshot-once}
use ixo_blocksync.DaoSnapshot.Backfill.{KeepsRows, AllThere, backfill_run}
use ixo_blocksync.DaoSnapshot.Stakers.{listed_or, snapshot_cw20_stakers-IsSettled}
use ixo_blocksync.DaoSnapshot.Faults.{snapshot_dao_core-unlinked}
use ixo_blocksync.Tests.DaoStakes.{exact_js, exact_js-IsExact, empty_db, staked_db}
use ixo_blocksync.Tests.DaoModules.{db}

abbrev unread : Error
unread = thrown "unreadable"

abbrev dump : Dump
dump = record {
  state = record {
    config = record {
      name = some "dao";
      description = none;
      image_url = none;
      automatically_add_cw20s = none;
      automatically_add_cw721s = none;
      dao_uri = none;
    };
    admin = none;
    proposal_modules = [];
    at_time = none;
  };
  voting_module = some "v";
}

abbrev no_policy : CreationPolicy
no_policy = record { text = none; module_address = none }

-- a node that knows the DAO, and the stakers and proposals of any contract
abbrev node : Queries
node = record {
  dump_state = λ n a. ok (some dump);
  list_sub_daos = λ n a. err unread;
  proposal_module_config = λ n a. ok none;
  creation_policy = λ n a. ok no_policy;
  pre_propose_config = λ n a. err unread;
  active_threshold = λ n a. err unread;
  cw721_config = λ n a. err unread;
  native_config = λ n a. err unread;
  cw20_config = λ n a. err unread;
  group_contract = λ n a. ok none;
  staking_contract = λ n a. ok none;
  cw4_members = λ n a. ok [];
  list_stakers = λ n a. ok (("cat", 3) ∷ ("dan", 4) ∷ []);
  list_proposals = λ n a. ok [];
}

abbrev contract_row : WasmInstantiate
contract_row = record { code_id = 3; created_at = 1; block_height = 2; msg_index = none }

abbrev ctx : Context
ctx = record { height = 7; timestamp = 9 }

abbrev set : Setting
set = record { network = "mainnet"; cutoff_height = 5; now = 9 }

abbrev tables : SnapshotDb
tables = record { state = none; contracts = ("dao", contract_row) ∷ []; dao = db }

ensure_daodao_snapshot-once_example :
    ((db' : SnapshotDb) × (ensure_daodao_snapshot set
          (run_snapshot exact_js node (λ a b. true) ((3, "dao_core") ∷ []) 9)
          7
          tables
        ≡ (ok tt, db'))
      × (ensure_daodao_snapshot set
            (run_snapshot exact_js node (λ a b. true) ((3, "dao_core") ∷ []) 9)
            8
            db'
          ≡ (ok tt, db')))
    ⊎ ((e : Error) × (ensure_daodao_snapshot set
            (run_snapshot exact_js node (λ a b. true) ((3, "dao_core") ∷ []) 9)
            7
            tables
          ≡ (err e, tables)))
ensure_daodao_snapshot-once_example =
    ensure_daodao_snapshot-once set set exact_js node node (λ a b. true) ((3, "dao_core") ∷ [])
      ((3, "dao_core") ∷ []) 7 8 tables (λ h. absurd (cc h)) (omega arith)

abbrev info : ProposalInfo
info = record {
  title = some "a proposal";
  description = none;
  proposer = none;
  start_height = none;
  min_voting_period = none;
  expiration = none;
  threshold = none;
  total_power = none;
  allow_revoting = none;
  msgs = none;
  status = text_status "open";
  votes = none;
}

-- the stored proposal 1 and a new one of the module "m"
backfill_run_example :
    (t : Table (String × String) DaoProposal) × (n : ℕ) × (backfill ctx "m"
        (("1", info) ∷ ("2", info) ∷ [])
        0
        (running db)
      ≡ (ok n, running (record db { proposals = t })))
    × KeepsRows db.proposals t
    × AllThere "m" (("1", info) ∷ ("2", info) ∷ []) t
    × (length db.proposals + n ≡ length t + 0)
unfolding lookup
backfill_run_example = backfill_run ctx "m" (("1", info) ∷ ("2", info) ∷ []) 0 db refl

-- the contract "s" before its stakers are known
abbrev unstaked_db : DaoDb
unstaked_db = record staked_db { cw20_stakers = [] }

snapshot_cw20_stakers-IsSettled_example :
    (db' : DaoDb) × (snapshot_cw20_stakers exact_js node ctx "s" (running unstaked_db)
      ≡ (ok tt, running db'))
    × ((k : String × String)
        → lookup k db'.cw20_stakers
          ≡ listed_or "s" (("cat", 3) ∷ ("dan", 4) ∷ []) k (lookup k unstaked_db.cw20_stakers))
    × IsSettled "s" db'
    × (sum_staked "s" db'.cw20_stakers ≡ integer (pos 7))
unfolding lookup sum_staked
snapshot_cw20_stakers-IsSettled_example =
    snapshot_cw20_stakers-IsSettled exact_js node ctx "s" ("cat", 3) (("dan", 4) ∷ []) unstaked_db
      exact_js-IsExact refl refl ((refl, tt), (tt, tt)) (refl, (refl, tt)) refl (omega arith)

snapshot_dao_core-unlinked_example :
    ((snapshot_dao_core exact_js node ctx "dao" (running empty_db)).0 ≡ err constraint_violation)
    × ((snapshot_dao_core exact_js node ctx "dao" (running empty_db)).1.failed ≡ true)
unfolding lookup
snapshot_dao_core-unlinked_example =
    snapshot_dao_core-unlinked exact_js node ctx "dao" "v" dump empty_db refl refl refl
