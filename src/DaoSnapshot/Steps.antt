-- ===== src/DaoSnapshot/Steps.antt =====
-- sync/daodao_snapshot.ts: the snapshot of one contract of each type. The queries are a record, as for the
-- event handlers; a balance is the integer that its text stands for, and `p.id` its text.
use ixo_blocksync.Base.{
  ℕ, ◌+◌, Bool, String, Option, none, some, List, [], ◌∷◌, ◌==◌, string_eq, pair_eq, find,
  if◌then◌else◌,
}
use ixo_blocksync.Base.Int.{pos}
use ixo_blocksync.Numbers.{Number, integer, Arithmetic, js_plus}
use ixo_blocksync.Pg.{Result, ok, err, Exec, Action, pure, ◌>>=◌, ◌>>◌}
use ixo_blocksync.Dao.{DaoProposal, DaoVotingModule, DaoDb, has_row, select}
use ixo_blocksync.Dao.ProposalSql.{ListedModule, create_dao_proposal, normalize_proposal_status}
use ixo_blocksync.Dao.PreProposeSql.{PreProposeConfig}
use ixo_blocksync.Dao.StakerSql.{Member}
use ixo_blocksync.Dao.Archive.{DumpState, CreationPolicy, ProposalInfo, StakeConfig}

-- the answer to `dump_state` with its voting module
pub record Dump : Type 0 where
  pub state : DumpState
  pub voting_module : Option String

-- the answer to `config` of a proposal module: its text and its `dao`
pub record ModuleConfig : Type 0 where
  pub text : String
  pub dao : Option String

-- What the snapshot asks; `none` where the answer has no data.
pub record Queries : Type 0 where
  pub dump_state : ℕ → String → Result (Option Dump)
  pub list_sub_daos : ℕ → String → Result (List (String × Option String))
  pub proposal_module_config : ℕ → String → Result (Option ModuleConfig)
  pub creation_policy : ℕ → String → Result CreationPolicy
  pub pre_propose_config : ℕ → String → Result (Option PreProposeConfig)
  pub active_threshold : ℕ → String → Result (Option String)
  pub cw721_config : ℕ → String → Result StakeConfig
  pub native_config : ℕ → String → Result StakeConfig
  pub cw20_config : ℕ → String → Result StakeConfig
  pub group_contract : ℕ → String → Result (Option String)
  pub staking_contract : ℕ → String → Result (Option String)
  pub cw4_members : ℕ → String → Result (List Member)
  pub list_stakers : ℕ → String → Result (List (String × ℕ))
  pub list_proposals : ℕ → String → Result (List (String × ProposalInfo))

-- `BaseCtx`
pub record Context : Type 0 where
  pub height : ℕ
  pub timestamp : ℕ

-- `try { … } catch {}` around an action
unfoldable pub swallowed : Action DaoDb → Action DaoDb
swallowed m tx = (ok tt, (m tx).1)

-- a query whose error counts as this answer
abbrev pub or_answer : {A : Type 0} → A → Result A → A
or_answer a (ok b) = b
or_answer a (err e) = a

abbrev pub when_given : Option String → (String → Action DaoDb) → Action DaoDb
when_given none f = pure tt
when_given (some v) f = f v

abbrev pub module_row :
    String → Context → Option String → StakeConfig → Option String → Option String → DaoVotingModule
module_row type ctx threshold conf group staking = record {
  module_type = type;
  token_address = none;
  staking_contract = staking;
  group_contract_address = group;
  nft_contract = none;
  native_denom = conf.denom;
  total_weight = some (integer (pos 0));
  active_threshold = threshold;
  unstaking_duration = conf.unstaking_duration;
  created_at = ctx.timestamp;
  block_height = ctx.height;
}

abbrev pub no_stake_config : StakeConfig
no_stake_config = record { denom = none; unstaking_duration = none }

-- the prefix and the status of the module in the dump of its DAO
abbrev pub listed_in : String → Option Dump → Option ListedModule
listed_in address none = none
listed_in address (some dump) = find (λ m. m.address == address) dump.state.proposal_modules

abbrev pub prefix_of : Option ListedModule → Option String
prefix_of none = none
prefix_of (some m) = m.prefix

abbrev pub status_of : Option ListedModule → Option String
status_of none = none
status_of (some m) = m.status

abbrev pub text_of : Option ModuleConfig → String
text_of none = "{}"
text_of (some config) = config.text

abbrev pub dao_of : Option ModuleConfig → Option String
dao_of none = none
dao_of (some config) = config.dao

abbrev pub proposal_row : ProposalInfo → Context → DaoProposal
proposal_row p ctx = record {
  title = p.title;
  description = p.description;
  proposer = p.proposer;
  start_height = p.start_height;
  min_voting_period = p.min_voting_period;
  expiration = p.expiration;
  threshold = p.threshold;
  total_power = p.total_power;
  allow_revoting = p.allow_revoting;
  msgs = p.msgs;
  status = normalize_proposal_status p.status;
  votes = p.votes;
  created_at = ctx.timestamp;
  block_height = ctx.height;
}

-- `hasDaoProposal`
unfoldable pub has_dao_proposal : String → String → Exec DaoDb Bool
unfolding select
has_dao_proposal proposal_module id = select (λ db. has_row (proposal_module, id) db.proposals)

-- the loop over the listed proposals, with the number of those created so far
unfoldable pub backfill : Context → String → List (String × ProposalInfo) → ℕ → Exec DaoDb ℕ
unfolding has_dao_proposal create_dao_proposal pure ◌>>=◌
backfill ctx proposal_module [] created = pure created
backfill ctx proposal_module ((id, p) ∷ ps) created = do
  is_there ← has_dao_proposal proposal_module id
  next ←
      (if is_there
        then pure created
        else (create_dao_proposal (some id) proposal_module (proposal_row p ctx)
            >> pure (created + 1)))
  backfill ctx proposal_module ps next

-- `parseInt(s.balance, 10) || 0`
abbrev pub balance_number : Arithmetic → ℕ → Number
balance_number js balance = integer (js.nearest (pos balance))

-- the sum of the loops over the stakers
unfoldable pub staked_total : Arithmetic → List (String × ℕ) → Number → Number
staked_total js [] total = total
staked_total js ((address, balance) ∷ ss) total =
    staked_total js ss (js_plus js total (balance_number js balance))

unfoldable pub write_stakers :
    (String → Option String → Number → Action DaoDb) → String → List (String × ℕ) → Action DaoDb
unfolding pure ◌>>=◌
write_stakers upsert_staker contract [] = pure tt
write_stakers upsert_staker contract ((address, balance) ∷ ss) =
    upsert_staker contract (some address) (integer (pos balance))
    >> write_stakers upsert_staker contract ss
