-- ===== src/Dao/StakeEvents.antt =====
-- `processCw20StakeEvent` and `processCw4GroupEvent` of
-- sync_handlers/event_data_sync_wasm_dao.ts, and the claims that an unstake queues.
use ixo_blocksync.Base.{
  ℕ, ◌+◌, Bool, true, false, String, Option, none, some, List, [], ◌∷◌, ◌==◌, string_eq,
  if◌then◌else◌,
}
use ixo_blocksync.Base.Int.{pos}
use ixo_blocksync.Numbers.{Number, integer, Arithmetic, is_falsy, parse_attr, js_plus, js_minus}
use ixo_blocksync.Pg.{Action, pure, ◌>>=◌, ◌>>◌}
use ixo_blocksync.Attributes.{get_wasm_attr, get_wasm_attr?}
use ixo_blocksync.Dao.{ClaimKind, cw20, DaoDb}
use ixo_blocksync.Dao.VotingSql.{
  update_dao_all_voting_modules_total_weight_for_cw20_contract,
  update_dao_all_voting_modules_total_weight_for_group_contract,
  update_dao_all_voting_modules_unstaking_duration_for_cw20_contract,
}
use ixo_blocksync.Dao.StakerSql.{
  Member, batch_update_dao_cw4_members, upsert_dao_cw20_staker, delete_dao_cw20_staker,
  get_dao_cw20_staker_staked_amount, get_dao_cw20_stakers_sum_staked_for_contract,
}
use ixo_blocksync.Dao.ClaimSql.{insert_dao_staking_claim, mark_dao_staking_claims_claimed}
use ixo_blocksync.Dao.Archive.{Archive, QueuedClaim, DaoEvent, ask, when_some, release_at_to_date}

-- `claimDuration && claimDuration !== "None"`
abbrev pub is_queueing : Option String → Bool
is_queueing none = false
is_queueing (some duration) = if duration == "None" then false else true

-- `claims[claims.length - 1]`
unfoldable pub newest : List QueuedClaim → Option QueuedClaim
newest [] = none
newest (c ∷ []) = some c
newest (c ∷ d ∷ cs) = newest (d ∷ cs)

-- `membersData.reduce(…)`
unfoldable pub total_weight : List Member → ℕ
total_weight [] = 0
total_weight ((addr, weight) ∷ ms) = weight + total_weight ms

-- `if (membersData?.length > 0)`
unfoldable pub refresh_members : String → List Member → Action DaoDb
unfolding pure
refresh_members group [] = pure tt
refresh_members group (m ∷ ms) = batch_update_dao_cw4_members group (m ∷ ms)

-- `if (!newStakedAmount)` and its two branches
unfoldable pub set_cw20_staker : String → Option String → Number → Action DaoDb
set_cw20_staker address staker left =
    if is_falsy left
    then delete_dao_cw20_staker address staker
    else upsert_dao_cw20_staker address staker left

module _ (js : Arithmetic) (archive : Archive) where
  unfoldable pub insert_newest :
      ClaimKind → String → Option String → ℕ → Option QueuedClaim → Action DaoDb
  unfolding pure release_at_to_date
  insert_newest kind address staker height none = pure tt
  insert_newest kind address staker height (some c) =
      insert_dao_staking_claim kind address staker c.amount none
        (release_at_to_date js c.release_at) height

  -- the end of an unstake of a cw20 or a native token
  unfoldable pub queue_claim : ClaimKind → DaoEvent → String → Option String → Action DaoDb
  unfolding ask pure ◌>>=◌
  queue_claim kind ev address staker =
      if is_queueing (get_wasm_attr? ev.attributes "claim_duration")
      then (do
        claims ← ask (archive.staking_claims ev.block_height address staker)
        insert_newest kind address staker ev.block_height (newest claims))
      else pure tt

  -- the case "stake"
  unfoldable pub stake_cw20 : DaoEvent → String → Action DaoDb
  unfolding ◌>>=◌
  stake_cw20 ev address = do
    let amount = parse_attr js (get_wasm_attr? ev.attributes "amount")
    let staker = get_wasm_attr? ev.attributes "from"
    old ← get_dao_cw20_staker_staked_amount js address staker
    total ← get_dao_cw20_stakers_sum_staked_for_contract js address
    upsert_dao_cw20_staker address staker (js_plus js old amount)
    update_dao_all_voting_modules_total_weight_for_cw20_contract address (js_plus js total amount)

  -- the case "unstake" up to its claims
  unfoldable pub unstake_cw20 : DaoEvent → String → Action DaoDb
  unfolding ◌>>=◌
  unstake_cw20 ev address = do
    let amount = parse_attr js (get_wasm_attr? ev.attributes "amount")
    let staker = get_wasm_attr? ev.attributes "from"
    old ← get_dao_cw20_staker_staked_amount js address staker
    let left = js_minus js old amount
    total ← get_dao_cw20_stakers_sum_staked_for_contract js address
    set_cw20_staker address staker left
    update_dao_all_voting_modules_total_weight_for_cw20_contract address (js_minus js total amount)

  unfoldable pub process_cw20_stake_event : DaoEvent → Action DaoDb
  unfolding ask when_some pure ◌>>=◌
  process_cw20_stake_event ev =
      let address = get_wasm_attr ev.attributes "_contract_address" in
      let staker = get_wasm_attr? ev.attributes "from" in
      if ev.action == "stake"
      then stake_cw20 ev address
      else if ev.action == "unstake"
      then unstake_cw20 ev address >> queue_claim cw20 ev address staker
      else if ev.action == "update_config"
      then (do
        conf ← ask (archive.cw20_config ev.block_height address)
        update_dao_all_voting_modules_unstaking_duration_for_cw20_contract address
            conf.unstaking_duration)
      else if ev.action == "claim"
      then when_some staker
          (λ from. mark_dao_staking_claims_claimed cw20 address from ev.timestamp ev.block_height)
      else pure tt

  unfoldable pub process_cw4_group_event : DaoEvent → Action DaoDb
  unfolding ask refresh_members total_weight pure ◌>>=◌
  process_cw4_group_event ev =
      let address = get_wasm_attr ev.attributes "_contract_address" in
      if ev.action == "update_members"
      then (do
        members ← ask (archive.cw4_members ev.block_height address)
        refresh_members address members
        update_dao_all_voting_modules_total_weight_for_group_contract address
            (integer (pos (total_weight members))))
      else pure tt
