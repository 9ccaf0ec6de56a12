-- ===== src/Dao/Archive.antt =====
-- What the DAO handlers ask of the contracts through the archive node (util/archive-queries.ts), the
-- event they handle, and the helpers they share. The node is not part of the repository: each
-- query is a field, a function of the height and the contract that answers or throws.
use ixo_blocksync.Base.{ℕ, Bool, String, Option, none, some, List, ◌==◌, ◌||◌, nat_eq, leb}
use ixo_blocksync.Numbers.{Number, Arithmetic}
use ixo_blocksync.Pg.{Result, ok, err, Exec, Action, pure, throw}
use ixo_blocksync.Sync.Interface.{Attribute}
use ixo_blocksync.Dao.{DaoDb}
use ixo_blocksync.Dao.CoreSql.{DaoConfig}
use ixo_blocksync.Dao.ProposalSql.{ProposalStatus, ListedModule}
use ixo_blocksync.Dao.PreProposeSql.{PreProposeConfig}
use ixo_blocksync.Dao.StakerSql.{Member}

-- the answer to `dump_state`; `at_time` is that of the expiration of a pause, where it has one
pub record DumpState : Type 0 where
  pub config : DaoConfig
  pub admin : Option String
  pub proposal_modules : List ListedModule
  pub at_time : Option String

-- a `proposal_creation_policy`: its text, and the address under `module`
pub record CreationPolicy : Type 0 where
  pub text : Option String
  pub module_address : Option String

pub record ProposalInfo : Type 0 where
  pub title : Option String
  pub description : Option String
  pub proposer : Option String
  pub start_height : Option ℕ
  pub min_voting_period : Option String
  pub expiration : Option String
  pub threshold : Option String
  pub total_power : Option String
  pub allow_revoting : Option Bool
  pub msgs : Option String
  pub status : ProposalStatus
  pub votes : Option String

-- `vote`: a text, or an object with an `option_id`, `none` where that is missing
pub data VoteValue : Type 0 where
  no_vote : VoteValue
  text_vote : String → VoteValue
  option_vote : Option String → VoteValue

pub record VoteInfo : Type 0 where
  pub voter : Option String
  pub vote : VoteValue
  pub rationale : Option String
  pub power : Option String

pub record StakeConfig : Type 0 where
  pub denom : Option String
  pub unstaking_duration : Option String

-- a claim of cw-controllers; an NFT's has a token and no amount
pub record QueuedClaim : Type 0 where
  pub amount : Option String
  pub token_id : Option String
  pub release_at : Option String

pub record Archive : Type 0 where
  pub dump_state : ℕ → String → Result DumpState
  pub list_sub_daos : ℕ → String → Result (List (String × Option String))
  pub proposal_module_config : ℕ → String → Result (Option String)
  pub creation_policy : ℕ → String → Result CreationPolicy
  pub proposal_info : ℕ → String → Number → Result ProposalInfo
  pub vote_info : ℕ → String → Number → Option String → Result VoteInfo
  pub pre_propose_config : ℕ → String → Result PreProposeConfig
  -- the proposer of a pending approval
  pub pending_proposer : ℕ → String → Number → Result (Option String)
  pub active_threshold : ℕ → String → Result (Option String)
  pub cw721_config : ℕ → String → Result StakeConfig
  pub native_config : ℕ → String → Result StakeConfig
  pub cw20_config : ℕ → String → Result StakeConfig
  pub staked_nfts : ℕ → String → Option String → Result (List String)
  pub staking_claims : ℕ → String → Option String → Result (List QueuedClaim)
  pub nft_claims : ℕ → String → Option String → Result (List QueuedClaim)
  pub cw4_members : ℕ → String → Result (List Member)

-- `ProcessDaoEventParams`
pub record DaoEvent : Type 0 where
  pub attributes : List Attribute
  pub timestamp : ℕ
  pub contract_type : String
  pub block_height : ℕ
  pub action : String

-- `await` of a query
unfoldable pub ask : {A : Type 0} → Result A → Exec DaoDb A
unfolding pure throw
ask (ok a) = pure a
ask (err e) = throw e

-- `if (value) …` on an attribute
unfoldable pub when_some : Option String → (String → Action DaoDb) → Action DaoDb
unfolding pure
when_some none f = pure tt
when_some (some v) f = f v

-- `releaseAtToDate`; `release_at` has the text of `at_time`, `none` without one
unfoldable pub release_at_to_date : Arithmetic → Option String → Option ℕ
release_at_to_date js none = none
release_at_to_date js (some at_time) = some (js.floor_div at_time 1000000)

-- `isDaodaoIndexable` for the cutoff height of the network
unfoldable pub is_daodao_indexable : ℕ → ℕ → Bool
is_daodao_indexable cutoff height = cutoff == 0 || leb cutoff height
