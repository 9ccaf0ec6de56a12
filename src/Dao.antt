-- ===== src/Dao.antt =====
-- The DAO tables of postgres/dao.ts: their rows, and the form of the statements on them. The columns
-- that hold JSON are the texts that `JSON.stringify` gave, a BIGINT id is its text, and a date is
-- its milliseconds.
pub mod CoreSql
pub mod ProposalSql
pub mod PreProposeSql
pub mod VotingSql
pub mod StakerSql
pub mod ClaimSql
pub mod Archive
pub mod CoreEvents
pub mod ProposalEvents
pub mod PreProposeEvents
pub mod VotingEvents
pub mod StakeEvents
pub mod Dispatch
pub mod Sums
pub mod Weights
pub mod Cw20Stake
pub mod Members
pub mod ClaimMarks
pub mod Modules
pub mod Guards
pub mod Wiring
pub mod NativeStake
use ixo_blocksync.Base.{
  ℕ, Bool, true, false, String, Option, none, some, List, string_eq, if◌then◌else◌, ◌==◌, Eq,
}
use ixo_blocksync.Base.Table.{Table, lookup}
use ixo_blocksync.Numbers.{Number}
use ixo_blocksync.Pg.{Exec, Action, statement, query}

pub record DaoCore : Type 0 where
  pub name : Option String
  pub description : Option String
  pub image_url : Option String
  pub automatically_add_cw20s : Option Bool
  pub automatically_add_cw721s : Option Bool
  pub dao_uri : Option String
  pub admin_address : Option String
  pub created_at : ℕ
  pub block_height : ℕ
  pub voting_module : Option String
  pub paused_until : Option ℕ

pub record DaoCoreItem : Type 0 where
  pub value : String
  pub updated_at : ℕ
  pub block_height : ℕ

pub record SubDao : Type 0 where
  pub charter : Option String
  pub updated_at : ℕ
  pub block_height : ℕ

pub record DaoProposalModule : Type 0 where
  pub dao_address : Option String
  pub module_type : Option String
  pub prefix : Option String
  pub status : Option String
  pub created_at : ℕ
  pub block_height : ℕ
  pub pre_propose_module : Option String
  pub proposal_creation_policy : Option String
  pub config : Option String

pub record DaoProposal : Type 0 where
  pub title : Option String
  pub description : Option String
  pub proposer : Option String
  pub start_height : Option ℕ
  pub min_voting_period : Option String
  pub expiration : Option String
  pub threshold : Option String
  pub total_power : Option String
  pub allow_revoting : Option Bool
  pub msgs : Option String
  pub status : Option String
  pub votes : Option String
  pub created_at : ℕ
  pub block_height : ℕ

pub record DaoVote : Type 0 where
  pub vote : Option String
  pub power : Option String
  pub rationale : Option String
  pub voted_at : ℕ
  pub block_height : ℕ

pub record Hook : Type 0 where
  pub created_at : ℕ
  pub block_height : ℕ

pub record DaoPreProposeModule : Type 0 where
  pub proposal_module : Option String
  pub deposit_info : Option String
  pub open_proposal_submission : Bool
  pub submission_policy : Option String
  pub created_at : ℕ
  pub block_height : ℕ

pub record Approval : Type 0 where
  pub proposer : String
  pub status : String
  pub proposal_id : Option String
  pub submitted_at : ℕ
  pub submitted_at_height : ℕ
  pub resolved_at : Option ℕ
  pub resolved_at_height : Option ℕ

pub record DaoVotingModule : Type 0 where
  pub module_type : String
  pub token_address : Option String
  pub staking_contract : Option String
  pub group_contract_address : Option String
  pub nft_contract : Option String
  pub native_denom : Option String
  pub total_weight : Option Number
  pub active_threshold : Option String
  pub unstaking_duration : Option String
  pub created_at : ℕ
  pub block_height : ℕ

pub data ClaimKind : Type 0 where
  cw20 : ClaimKind
  native : ClaimKind
  cw721 : ClaimKind

pub record StakingClaim : Type 0 where
  pub kind : ClaimKind
  pub staking_contract : String
  pub staker_address : String
  pub amount : Option String
  pub token_id : Option String
  pub release_at : Option ℕ
  pub unstaked_at_height : ℕ
  pub claimed_at : Option ℕ
  pub claimed_at_height : Option ℕ

pub record DaoDb : Type 0 where
  pub core : Table String DaoCore
  pub items : Table (String × String) DaoCoreItem
  pub sub_daos : Table (String × String) SubDao
  pub proposal_modules : Table String DaoProposalModule
  pub proposals : Table (String × String) DaoProposal
  pub votes : Table (String × (String × String)) DaoVote
  pub proposal_hooks : Table (String × String) Hook
  pub vote_hooks : Table (String × String) Hook
  pub pre_propose_modules : Table String DaoPreProposeModule
  pub approvals : Table (String × String) Approval
  pub voting_modules : Table String DaoVotingModule
  pub cw4_group_contracts : Table String (Unit {0})
  pub cw20_staking_contracts : Table String (Unit {0})
  pub cw4_members : Table (String × String) ℕ
  pub cw20_stakers : Table (String × String) Number
  pub native_stakers : Table (String × String) Number
  pub cw721_stakers : Table (String × (String × String)) (Unit {0})
  pub claims : List StakingClaim

-- A statement that the database does not refuse, one that it refuses unless a test holds, and a
-- SELECT.
unfoldable pub write : (DaoDb → DaoDb) → Action DaoDb
write f = query (λ db. (tt, f db))

unfoldable pub write_if : (DaoDb → Bool) → (DaoDb → DaoDb) → Action DaoDb
write_if allowed f = statement (λ db. if allowed db then some (tt, f db) else none)

unfoldable pub select : {A : Type 0} → (DaoDb → A) → Exec DaoDb A
select f = query (λ db. (f db, db))

abbrev pub is_some {ℓ} : {A : Type ℓ} → Option A → Bool
is_some none = false
is_some (some _) = true

-- a row with this key
abbrev pub has_row : {K V : Type 0} → ⦃e : Eq K⦄ → K → Table K V → Bool
has_row k t = is_some (lookup k t)

-- A foreign key: NULL, or the key of a row.
abbrev pub refers : {V : Type 0} → Option String → Table String V → Bool
refers none t = true
refers (some k) t = has_row k t

-- WHERE column = value; NULL is equal to nothing
abbrev pub is_value : Option String → String → Bool
is_value none v = false
is_value (some w) v = w == v
