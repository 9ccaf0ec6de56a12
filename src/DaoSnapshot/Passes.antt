-- ===== src/DaoSnapshot/Passes.antt =====
-- sync/daodao_snapshot.ts: the contracts of each type, and the passes over all of them in the order of the
-- foreign keys.
use ixo_blocksync.Base.{
  ℕ, ◌+◌, Bool, String, Option, none, some, List, [], ◌∷◌, ◌==◌, string_eq, if◌then◌else◌, length,
}
use ixo_blocksync.Base.Int.{pos}
use ixo_blocksync.Base.Table.{Table}
use ixo_blocksync.Numbers.{integer, Arithmetic}
use ixo_blocksync.Pg.{Exec, Action, pure, query, ◌>>=◌, ◌>>◌}
use ixo_blocksync.Sync.Assembly.{zoom}
use ixo_blocksync.Dao.{DaoDb}
use ixo_blocksync.Dao.CoreSql.{
  create_dao_core, update_dao_core_voting_module, update_dao_core_paused_until,
  replace_dao_sub_daos,
}
use ixo_blocksync.Dao.ProposalSql.{
  create_dao_proposal_module, update_dao_proposal_module_pre_propose_module,
}
use ixo_blocksync.Dao.PreProposeSql.{PreProposeConfig, create_dao_pre_propose_module}
use ixo_blocksync.Dao.VotingSql.{
  create_dao_voting_module, ensure_dao_cw4_group_contract, ensure_dao_cw20_staking_contract,
  update_dao_voting_module_total_weight,
  update_dao_all_voting_modules_total_weight_for_cw20_contract,
  update_dao_all_voting_modules_total_weight_for_group_contract,
}
use ixo_blocksync.Dao.StakerSql.{
  Member, batch_update_dao_cw4_members, upsert_dao_cw20_staker, upsert_dao_native_staker,
}
use ixo_blocksync.Dao.Archive.{ask, release_at_to_date}
use ixo_blocksync.Dao.CoreEvents.{core_row}
use ixo_blocksync.Dao.StakeEvents.{total_weight}
use ixo_blocksync.Dao.Dispatch.{pre_propose_types, proposal_types}
use ixo_blocksync.DaoSnapshot.{Counts, SnapshotDb, Contract, list_daodao_contracts, of_type}
use ixo_blocksync.DaoSnapshot.Steps.{
  Dump, Queries, Context, swallowed, or_answer, when_given, module_row, no_stake_config, listed_in,
  prefix_of, status_of, text_of, dao_of, backfill, staked_total, write_stakers,
}

-- `for (const a of addresses) await f(a)`
unfoldable pub for_each : (String → Action DaoDb) → List String → Action DaoDb
unfolding pure ◌>>=◌
for_each f [] = pure tt
for_each f (a ∷ as') = f a >> for_each f as'

-- the same with a count that each call returns
unfoldable pub for_sum : (String → Exec DaoDb ℕ) → List String → ℕ → Exec DaoDb ℕ
unfolding pure ◌>>=◌
for_sum f [] n = pure n
for_sum f (a ∷ as') n = do m ← f a; for_sum f as' (n + m)

-- the same for the contracts of one type after another, with their type
abbrev pub for_types : (String → String → Action DaoDb) → List String → List Contract → Action DaoDb
unfolding for_each pure ◌>>=◌ of_type
for_types f [] cs = pure tt
for_types f (t ∷ ts) cs = for_each (λ a. f a t) (of_type t cs) >> for_types f ts cs

abbrev pub sum_types :
    (String → String → Exec DaoDb ℕ) → List String → List Contract → ℕ → Exec DaoDb ℕ
unfolding for_sum pure ◌>>=◌ of_type
sum_types f [] cs n = pure n
sum_types f (t ∷ ts) cs n = do m ← for_sum (λ a. f a t) (of_type t cs) n; sum_types f ts cs m

abbrev pub count_of_types : List String → List Contract → ℕ
unfolding of_type
count_of_types [] cs = 0
count_of_types (t ∷ ts) cs = length (of_type t cs) + count_of_types ts cs

abbrev pub snapshot_voting_types : List String
snapshot_voting_types =
    "dao_voting_cw4" ∷ "dao_voting_cw20_staked" ∷ "dao_voting_cw721_staked"
    ∷ "dao_voting_native_staked" ∷ []

module _ (js : Arithmetic) (q : Queries) (ctx : Context) where
  -- `snapshotVotingModule`
  unfoldable pub snapshot_voting_module : String → String → Action DaoDb
  unfolding ask pure ◌>>=◌ create_dao_voting_module ensure_dao_cw4_group_contract
      ensure_dao_cw20_staking_contract
  snapshot_voting_module address type =
      if type == "dao_voting_cw20_staked"
      then (do
        threshold ← ask (q.active_threshold ctx.height address)
        staking ← ask (q.staking_contract ctx.height address)
        when_given staking ensure_dao_cw20_staking_contract
        create_dao_voting_module address
            (module_row type ctx threshold no_stake_config none staking))
      else if type == "dao_voting_cw721_staked"
      then (do
        conf ← ask (q.cw721_config ctx.height address)
        create_dao_voting_module address
            (module_row type ctx none (record conf { denom = none }) none none))
      else if type == "dao_voting_native_staked"
      then (do
        conf ← ask (q.native_config ctx.height address)
        create_dao_voting_module address (module_row type ctx none conf none none))
      else if type == "dao_voting_cw4"
      then (do
        group ← ask (q.group_contract ctx.height address)
        when_given group ensure_dao_cw4_group_contract
        create_dao_voting_module address (module_row type ctx none no_stake_config group none))
      else create_dao_voting_module address (module_row type ctx none no_stake_config none none)

  -- `snapshotPreProposeModule`, with the answer
  abbrev pub write_pre_propose : String → Option PreProposeConfig → Action DaoDb
  unfolding pure create_dao_pre_propose_module
  write_pre_propose address none = pure tt
  write_pre_propose address (some conf) =
      create_dao_pre_propose_module address none conf ctx.timestamp ctx.height

  unfoldable pub snapshot_pre_propose_module : String → Action DaoDb
  unfolding ask pure ◌>>=◌ create_dao_pre_propose_module
  snapshot_pre_propose_module address =
      ask (q.pre_propose_config ctx.height address) >>= write_pre_propose address

  abbrev pub write_sub_daos : String → List (String × Option String) → Action DaoDb
  unfolding pure replace_dao_sub_daos
  write_sub_daos address [] = pure tt
  write_sub_daos address (sub ∷ subs) =
      replace_dao_sub_daos address (sub ∷ subs) ctx.timestamp ctx.height

  -- the `try` of the sub-DAOs, whose `catch` is empty
  unfoldable pub snapshot_sub_daos : String → Action DaoDb
  unfolding ask pure ◌>>=◌ swallowed replace_dao_sub_daos
  snapshot_sub_daos address =
      swallowed (ask (q.list_sub_daos ctx.height address) >>= write_sub_daos address)

  -- `snapshotDaoCore`, with the dump
  unfoldable pub write_dao_core : String → Option Dump → Action DaoDb
  unfolding pure ◌>>=◌ create_dao_core update_dao_core_voting_module update_dao_core_paused_until
      snapshot_sub_daos release_at_to_date
  write_dao_core address none = pure tt
  write_dao_core address (some dump) = do
    create_dao_core address (core_row dump.state ctx.timestamp ctx.height)
    when_given dump.voting_module (update_dao_core_voting_module address)
    when_given dump.state.at_time
        (λ at_time. update_dao_core_paused_until address (release_at_to_date js (some at_time)))
    snapshot_sub_daos address

  unfoldable pub snapshot_dao_core : String → Action DaoDb
  unfolding ask ◌>>=◌ write_dao_core
  snapshot_dao_core address = ask (q.dump_state ctx.height address) >>= write_dao_core address

  -- the dump of the parent, whose error is no error
  abbrev pub parent_dump : Option String → Option Dump
  parent_dump none = none
  parent_dump (some dao) = or_answer none (q.dump_state ctx.height dao)

  -- `snapshotProposalModule`
  unfoldable pub snapshot_proposal_module : String → String → Action DaoDb
  unfolding ask ◌>>=◌ create_dao_proposal_module update_dao_proposal_module_pre_propose_module
  snapshot_proposal_module address type = do
    config ← ask (q.proposal_module_config ctx.height address)
    policy ← ask (q.creation_policy ctx.height address)
    let listed = listed_in address (parent_dump (dao_of config))
    create_dao_proposal_module address (record {
      dao_address = dao_of config;
      module_type = some type;
      prefix = prefix_of listed;
      status = status_of listed;
      created_at = ctx.timestamp;
      block_height = ctx.height;
      pre_propose_module = none;
      proposal_creation_policy = policy.text;
      config = some (text_of config);
    })
    update_dao_proposal_module_pre_propose_module address policy.module_address

  -- `snapshotProposalsForModule`
  unfoldable pub snapshot_proposals_for_module : String → Exec DaoDb ℕ
  unfolding backfill
  snapshot_proposals_for_module proposal_module =
      backfill ctx proposal_module (or_answer [] (q.list_proposals ctx.height proposal_module)) 0

  -- the two calls of the loop of the fifth pass
  unfoldable pub snapshot_module_and_proposals : String → String → Exec DaoDb ℕ
  unfolding ◌>>=◌ snapshot_proposal_module snapshot_proposals_for_module
  snapshot_module_and_proposals address type =
      snapshot_proposal_module address type >> snapshot_proposals_for_module address

  abbrev pub write_members : String → List Member → Action DaoDb
  unfolding pure ◌>>=◌ batch_update_dao_cw4_members total_weight
      update_dao_all_voting_modules_total_weight_for_group_contract
  write_members group [] = pure tt
  write_members group (m ∷ ms) =
      batch_update_dao_cw4_members group (m ∷ ms)
      >> update_dao_all_voting_modules_total_weight_for_group_contract group
          (integer (pos (total_weight (m ∷ ms))))

  -- `snapshotCw4Members`
  unfoldable pub snapshot_cw4_members : String → Action DaoDb
  unfolding ask pure ◌>>=◌
  snapshot_cw4_members group = ask (q.cw4_members ctx.height group) >>= write_members group

  -- `snapshotCw20Stakers` on its answer; the last query, of the config, changes nothing
  unfoldable pub write_cw20_stakers : String → List (String × ℕ) → Action DaoDb
  unfolding pure ◌>>=◌ write_stakers staked_total upsert_dao_cw20_staker
      update_dao_all_voting_modules_total_weight_for_cw20_contract
  write_cw20_stakers contract [] = pure tt
  write_cw20_stakers contract (s ∷ ss) =
      write_stakers upsert_dao_cw20_staker contract (s ∷ ss)
      >> update_dao_all_voting_modules_total_weight_for_cw20_contract contract
          (staked_total js (s ∷ ss) (integer (pos 0)))

  unfoldable pub snapshot_cw20_stakers : String → Action DaoDb
  unfolding ask ◌>>=◌ write_cw20_stakers
  snapshot_cw20_stakers contract =
      ask (q.list_stakers ctx.height contract) >>= write_cw20_stakers contract

  -- `snapshotNativeStakers` on its answer
  unfoldable pub write_native_stakers : String → List (String × ℕ) → Action DaoDb
  unfolding pure ◌>>=◌ write_stakers staked_total upsert_dao_native_staker
      update_dao_voting_module_total_weight
  write_native_stakers module_address [] = pure tt
  write_native_stakers module_address (s ∷ ss) =
      write_stakers upsert_dao_native_staker module_address (s ∷ ss)
      >> update_dao_voting_module_total_weight module_address
          (staked_total js (s ∷ ss) (integer (pos 0)))

  unfoldable pub snapshot_native_stakers : String → Action DaoDb
  unfolding ask ◌>>=◌ write_native_stakers
  snapshot_native_stakers module_address =
      ask (q.list_stakers ctx.height module_address) >>= write_native_stakers module_address

  -- the seven passes of `runSnapshot` over the contracts
  unfoldable pub run_passes : List Contract → Exec DaoDb Counts
  unfolding pure ◌>>=◌ for_each of_type snapshot_voting_module snapshot_pre_propose_module
      snapshot_dao_core snapshot_module_and_proposals snapshot_cw4_members snapshot_cw20_stakers
      snapshot_native_stakers for_sum ensure_dao_cw4_group_contract ensure_dao_cw20_staking_contract
  run_passes cs = do
    for_each ensure_dao_cw4_group_contract (of_type "cw4_group" cs)
    for_each ensure_dao_cw20_staking_contract (of_type "cw20_stake" cs)
    for_types snapshot_voting_module snapshot_voting_types cs
    for_types (λ a t. snapshot_pre_propose_module a) pre_propose_types cs
    for_each snapshot_dao_core (of_type "dao_core" cs)
    created ← sum_types snapshot_module_and_proposals proposal_types cs 0
    for_each snapshot_cw4_members (of_type "cw4_group" cs)
    for_each snapshot_cw20_stakers (of_type "cw20_stake" cs)
    for_each snapshot_native_stakers (of_type "dao_voting_native_staked" cs)
    pure (record {
      dao_core_count = length (of_type "dao_core" cs);
      voting_module_count = count_of_types snapshot_voting_types cs;
      proposal_module_count = count_of_types proposal_types cs;
      proposals_count = created;
    })

-- `runSnapshot`: no contracts, no passes
abbrev pub run_on : Arithmetic → Queries → Context → List Contract → Exec DaoDb Counts
unfolding pure run_passes
run_on js q ctx [] = pure (record {
  dao_core_count = 0;
  voting_module_count = 0;
  proposal_module_count = 0;
  proposals_count = 0;
})
run_on js q ctx (c ∷ cs) = run_passes js q ctx (c ∷ cs)

unfoldable pub run_snapshot :
    Arithmetic
    → Queries
    → (String → String → Bool)
    → Table ℕ String
    → ℕ
    → ℕ
    → Exec SnapshotDb Counts
unfolding zoom pure ◌>>=◌ run_passes list_daodao_contracts
run_snapshot js q le types now height =
    query (λ s. (list_daodao_contracts le types s.contracts, s)) >>= λ cs.
    zoom (λ s. s.dao) (λ d s. record s { dao = d })
      (run_on js q (record { height = height; timestamp = now }) cs)
