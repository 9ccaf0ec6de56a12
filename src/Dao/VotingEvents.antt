-- ===== src/Dao/VotingEvents.antt =====
-- `processDaoVotingEvent` of sync_handlers/event_data_sync_wasm_dao.ts.
use ixo_blocksync.Base.{
  ℕ, Bool, true, false, String, Option, none, some, List, [], ◌∷◌, ◌==◌, string_eq, if◌then◌else◌,
}
use ixo_blocksync.Base.Int.{pos}
use ixo_blocksync.Numbers.{Number, integer, Arithmetic, is_falsy, parse_attr, js_plus, js_minus}
use ixo_blocksync.Pg.{Action, pure, ◌>>=◌, ◌>>◌}
use ixo_blocksync.Attributes.{get_wasm_attr, get_wasm_attr?}
use ixo_blocksync.Dao.{ClaimKind, native, cw721, DaoVotingModule, DaoDb}
use ixo_blocksync.Dao.VotingSql.{
  create_dao_voting_module, update_dao_voting_module_group_contract_address,
  update_dao_voting_module_token_contract_address,
  update_dao_voting_module_token_staking_contract_address, update_dao_voting_module_total_weight,
  get_dao_voting_module_total_weight, update_dao_all_voting_modules_total_weight_for_cw20_contract,
  update_dao_voting_module_unstaking_duration, update_dao_voting_module_threshold,
  update_dao_all_voting_modules_unstaking_duration_for_cw20_contract,
  ensure_dao_cw20_staking_contract,
}
use ixo_blocksync.Dao.StakerSql.{
  get_dao_cw4_sum_weight_for_group_contract, get_dao_cw20_stakers_sum_staked_for_contract,
  batch_insert_dao_cw721_stakers, get_dao_cw721_stake_count, upsert_dao_native_staker,
  delete_dao_native_staker, get_dao_native_staker_staked_amount,
}
use ixo_blocksync.Dao.ClaimSql.{insert_dao_staking_claim, mark_dao_staking_claims_claimed}
use ixo_blocksync.Dao.Archive.{Archive, QueuedClaim, DaoEvent, ask, when_some, release_at_to_date}
use ixo_blocksync.Dao.StakeEvents.{is_queueing, queue_claim}

-- the row of the case "instantiate"
abbrev pub voting_row : DaoEvent → Option String → Option String → Option String → DaoVotingModule
voting_row ev threshold denom duration = record {
  module_type = ev.contract_type;
  token_address = none;
  staking_contract = none;
  group_contract_address = none;
  nft_contract = get_wasm_attr? ev.attributes "nft_contract";
  native_denom = denom;
  total_weight = some (integer (pos 0));
  active_threshold = threshold;
  unstaking_duration = duration;
  created_at = ev.timestamp;
  block_height = ev.block_height;
}

abbrev pub is_cw20 : DaoEvent → Bool
is_cw20 ev = ev.contract_type == "dao_voting_cw20_staked"

abbrev pub is_cw721 : DaoEvent → Bool
is_cw721 ev = ev.contract_type == "dao_voting_cw721_staked"

abbrev pub is_native : DaoEvent → Bool
is_native ev = ev.contract_type == "dao_voting_native_staked"

-- `if (!newStakedAmount)` and its two branches
unfoldable pub set_native_staker : String → Option String → Number → Action DaoDb
set_native_staker address staker left =
    if is_falsy left
    then delete_dao_native_staker address staker
    else upsert_dao_native_staker address staker left

module _ (js : Arithmetic) (archive : Archive) where
  unfoldable pub instantiate_voting_module : DaoEvent → String → Action DaoDb
  unfolding ask ◌>>=◌
  instantiate_voting_module ev address =
      if is_cw20 ev
      then (do
        threshold ← ask (archive.active_threshold ev.block_height address)
        create_dao_voting_module address (voting_row ev threshold none none))
      else if is_cw721 ev
      then (do
        conf ← ask (archive.cw721_config ev.block_height address)
        create_dao_voting_module address (voting_row ev none none conf.unstaking_duration))
      else if is_native ev
      then (do
        conf ← ask (archive.native_config ev.block_height address)
        create_dao_voting_module address (voting_row ev none conf.denom conf.unstaking_duration))
      else create_dao_voting_module address (voting_row ev none none none)

  -- the case "update_config"
  unfoldable pub update_voting_config : DaoEvent → String → Action DaoDb
  unfolding ask pure ◌>>=◌
  update_voting_config ev address =
      if is_cw721 ev
      then (do
        conf ← ask (archive.cw721_config ev.block_height address)
        update_dao_voting_module_unstaking_duration address conf.unstaking_duration)
      else if is_native ev
      then (do
        conf ← ask (archive.native_config ev.block_height address)
        update_dao_voting_module_unstaking_duration address conf.unstaking_duration)
      else pure tt

  -- the stored NFTs and their count, of a stake and of an unstake
  unfoldable pub refresh_nfts : DaoEvent → String → Bool → Action DaoDb
  unfolding ask ◌>>=◌
  refresh_nfts ev address delete_first = do
    let from = get_wasm_attr? ev.attributes "from"
    nfts ← ask (archive.staked_nfts ev.block_height address from)
    batch_insert_dao_cw721_stakers address from nfts delete_first
    count ← get_dao_cw721_stake_count address
    update_dao_voting_module_total_weight address count

  -- the loop over the NFT claims
  unfoldable pub insert_nft_claims : String → Option String → ℕ → List QueuedClaim → Action DaoDb
  unfolding release_at_to_date pure ◌>>=◌
  insert_nft_claims address staker height [] = pure tt
  insert_nft_claims address staker height (c ∷ cs) =
      insert_dao_staking_claim cw721 address staker none c.token_id
        (release_at_to_date js c.release_at) height
      >> insert_nft_claims address staker height cs

  unfoldable pub queue_nft_claims : DaoEvent → String → Action DaoDb
  unfolding ask insert_nft_claims pure ◌>>=◌
  queue_nft_claims ev address =
      let from = get_wasm_attr? ev.attributes "from" in
      if is_queueing (get_wasm_attr? ev.attributes "claim_duration")
      then (do
        claims ← ask (archive.nft_claims ev.block_height address from)
        insert_nft_claims address from ev.block_height claims)
      else pure tt

  unfoldable pub stake_native : DaoEvent → String → Action DaoDb
  unfolding ◌>>=◌
  stake_native ev address = do
    let staker = get_wasm_attr? ev.attributes "from"
    let amount = parse_attr js (get_wasm_attr? ev.attributes "amount")
    old ← get_dao_native_staker_staked_amount js address staker
    upsert_dao_native_staker address staker (js_plus js old amount)
    total ← get_dao_voting_module_total_weight js address
    update_dao_voting_module_total_weight address (js_plus js total amount)

  -- an unstake of native tokens up to its claims
  unfoldable pub unstake_native : DaoEvent → String → Action DaoDb
  unfolding ◌>>=◌
  unstake_native ev address = do
    let staker = get_wasm_attr? ev.attributes "from"
    let amount = parse_attr js (get_wasm_attr? ev.attributes "amount")
    old ← get_dao_native_staker_staked_amount js address staker
    let left = js_minus js old amount
    set_native_staker address staker left
    total ← get_dao_voting_module_total_weight js address
    update_dao_voting_module_total_weight address (js_minus js total amount)

  -- the switch on the action
  unfoldable pub voting_action : DaoEvent → String → Action DaoDb
  unfolding ask when_some pure ◌>>=◌
  voting_action ev address =
      let from = get_wasm_attr? ev.attributes "from" in
      let claimed = λ (kind : ClaimKind). when_some from (λ staker.
        mark_dao_staking_claims_claimed kind address staker ev.timestamp ev.block_height) in
      if ev.action == "instantiate"
      then instantiate_voting_module ev address
      else if ev.action == "update_active_threshold"
      then if is_cw20 ev
        then (do
          threshold ← ask (archive.active_threshold ev.block_height address)
          update_dao_voting_module_threshold address threshold)
        else pure tt
      else if ev.action == "update_config"
      then update_voting_config ev address
      else if ev.action == "stake"
      then if is_cw721 ev
        then refresh_nfts ev address false
        else if is_native ev
        then stake_native ev address
        else pure tt
      else if ev.action == "unstake"
      then if is_cw721 ev
        then (refresh_nfts ev address true >> queue_nft_claims ev address)
        else if is_native ev
        then (unstake_native ev address >> queue_claim js archive native ev address from)
        else pure tt
      else if ev.action == "claim"
      then if is_native ev then claimed native else pure tt
      else if ev.action == "claim_nfts"
      then if is_cw721 ev then claimed cw721 else pure tt
      else pure tt

  -- the three updates without an action
  unfoldable pub link_group : String → String → Action DaoDb
  unfolding ◌>>=◌
  link_group address group = do
    weight ← get_dao_cw4_sum_weight_for_group_contract js group
    update_dao_voting_module_total_weight address weight
    update_dao_voting_module_group_contract_address address group

  unfoldable pub link_staking : ℕ → String → String → Action DaoDb
  unfolding ask ◌>>=◌
  link_staking height address staking = do
    ensure_dao_cw20_staking_contract staking
    update_dao_voting_module_token_staking_contract_address address staking
    conf ← ask (archive.cw20_config height staking)
    update_dao_all_voting_modules_unstaking_duration_for_cw20_contract staking
        conf.unstaking_duration
    weight ← get_dao_cw20_stakers_sum_staked_for_contract js staking
    update_dao_all_voting_modules_total_weight_for_cw20_contract staking weight

  unfoldable pub process_dao_voting_event : DaoEvent → Action DaoDb
  unfolding when_some ◌>>=◌
  process_dao_voting_event ev =
      let address = get_wasm_attr ev.attributes "_contract_address" in
      voting_action ev address
      >> when_some (get_wasm_attr? ev.attributes "group_contract_address") (link_group address)
      >> when_some (get_wasm_attr? ev.attributes "token_address")
          (update_dao_voting_module_token_contract_address address)
      >> when_some (get_wasm_attr? ev.attributes "staking_contract")
          (link_staking ev.block_height address)
