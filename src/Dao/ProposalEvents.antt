-- ===== src/Dao/ProposalEvents.antt =====
-- `processDaoProposalEvent` of sync_handlers/event_data_sync_wasm_dao.ts.
use ixo_blocksync.Base.{
  ℕ, Bool, true, false, String, Option, none, some, ◌==◌, ◌||◌, string_eq, find, if◌then◌else◌,
}
use ixo_blocksync.Numbers.{Arithmetic, parse_attr}
use ixo_blocksync.Pg.{Result, ok, err, Action, pure, ◌>>=◌, ◌>>◌}
use ixo_blocksync.Attributes.{get_wasm_attr, get_wasm_attr?}
use ixo_blocksync.Dao.{DaoProposal, DaoVote, Hook, DaoDb}
use ixo_blocksync.Dao.ProposalSql.{
  ListedModule, create_dao_proposal_module, update_dao_proposal_module_pre_propose_module,
  has_dao_pre_propose_module, update_dao_proposal_module_proposal_creation_policy,
  update_dao_proposal_module_config, create_dao_proposal, update_dao_proposal_status,
  update_dao_proposal_status_and_votes, create_dao_vote, add_dao_proposal_hook,
  remove_dao_proposal_hook, add_dao_vote_hook, remove_dao_vote_hook, normalize_proposal_status,
}
use ixo_blocksync.Dao.Archive.{
  Archive, DumpState, ProposalInfo, VoteInfo, VoteValue, no_vote, text_vote, option_vote, DaoEvent,
  ask, when_some,
}

-- the entry of a module in the dump of its DAO; a lookup that fails leaves the columns null
abbrev pub listed_in : String → Result DumpState → Option ListedModule
listed_in address (err e) = none
listed_in address (ok dump) = find (λ m. m.address == address) dump.proposal_modules

abbrev pub listed : Archive → ℕ → String → Option String → Option ListedModule
listed archive height address none = none
listed archive height address (some dao) = listed_in address (archive.dump_state height dao)

abbrev pub prefix_of : Option ListedModule → Option String
prefix_of none = none
prefix_of (some m) = m.prefix

abbrev pub status_of : Option ListedModule → Option String
status_of none = none
status_of (some m) = m.status

-- `voteValue`
unfoldable pub vote_value : VoteValue → Option String
vote_value no_vote = none
vote_value (text_vote text) = some text
vote_value (option_vote none) = some ""
vote_value (option_vote (some option_id)) = some option_id

abbrev pub vote_row : VoteInfo → ℕ → ℕ → DaoVote
unfolding vote_value
vote_row vote timestamp height = record {
  vote = vote_value vote.vote;
  power = vote.power;
  rationale = vote.rationale;
  voted_at = timestamp;
  block_height = height;
}

abbrev pub proposal_row : ProposalInfo → ℕ → ℕ → DaoProposal
unfolding normalize_proposal_status
proposal_row prop timestamp height = record {
  title = prop.title;
  description = prop.description;
  proposer = prop.proposer;
  start_height = prop.start_height;
  min_voting_period = prop.min_voting_period;
  expiration = prop.expiration;
  threshold = prop.threshold;
  total_power = prop.total_power;
  allow_revoting = prop.allow_revoting;
  msgs = prop.msgs;
  status = normalize_proposal_status prop.status;
  votes = prop.votes;
  created_at = timestamp;
  block_height = height;
}

-- `newPreProposeAddr` where its row is there, and where it is not
unfoldable pub write_pre_propose_module : Bool → String → String → Action DaoDb
unfolding pure
write_pre_propose_module false address pre_propose = pure tt
write_pre_propose_module true address pre_propose =
    update_dao_proposal_module_pre_propose_module address (some pre_propose)

-- the end of `update_proposal_creation_policy`: the column stays where the new module has no row;
-- an empty address is falsy and written without a look
unfoldable pub sync_pre_propose_module : String → Option String → Action DaoDb
unfolding write_pre_propose_module ◌>>=◌
sync_pre_propose_module address none = update_dao_proposal_module_pre_propose_module address none
sync_pre_propose_module address (some pre_propose) =
    if pre_propose == ""
    then update_dao_proposal_module_pre_propose_module address (some pre_propose)
    else has_dao_pre_propose_module pre_propose >>= λ is_there.
        write_pre_propose_module is_there address pre_propose

module _ (js : Arithmetic) (archive : Archive) where
  -- the case "instantiate"
  unfoldable pub instantiate_proposal_module : DaoEvent → String → Action DaoDb
  unfolding ask ◌>>=◌
  instantiate_proposal_module ev address = do
    config ← ask (archive.proposal_module_config ev.block_height address)
    policy ← ask (archive.creation_policy ev.block_height address)
    let dao = get_wasm_attr? ev.attributes "dao"
    let entry = listed archive ev.block_height address dao
    create_dao_proposal_module address (record {
      dao_address = dao;
      module_type = some ev.contract_type;
      prefix = prefix_of entry;
      status = status_of entry;
      created_at = ev.timestamp;
      block_height = ev.block_height;
      pre_propose_module = none;
      proposal_creation_policy = policy.text;
      config = config;
    })

  -- the case "update_proposal_creation_policy"
  unfoldable pub update_creation_policy : DaoEvent → String → Action DaoDb
  unfolding ask ◌>>=◌
  update_creation_policy ev address = do
    policy ← ask (archive.creation_policy ev.block_height address)
    update_dao_proposal_module_proposal_creation_policy address policy.text
    sync_pre_propose_module address policy.module_address

  -- the case "propose"
  unfoldable pub propose : DaoEvent → String → Action DaoDb
  unfolding ask ◌>>=◌
  propose ev address = do
    let id = get_wasm_attr? ev.attributes "proposal_id"
    prop ← ask (archive.proposal_info ev.block_height address (parse_attr js id))
    create_dao_proposal id address (proposal_row prop ev.timestamp ev.block_height)

  -- the cases "vote" and "update_rationale"
  unfoldable pub vote : DaoEvent → String → Action DaoDb
  unfolding ask pure ◌>>=◌
  vote ev address = do
    let id = get_wasm_attr? ev.attributes "proposal_id"
    let sender = get_wasm_attr? ev.attributes "sender"
    info ← ask (archive.vote_info ev.block_height address (parse_attr js id) sender)
    create_dao_vote address id info.voter (vote_row info ev.timestamp ev.block_height)
    if ev.action == "update_rationale" then pure tt else do
      prop ← ask (archive.proposal_info ev.block_height address (parse_attr js id))
      update_dao_proposal_status_and_votes address id prop.status prop.votes

  -- the cases "execute", "close" and "veto"
  unfoldable pub refresh_status : DaoEvent → String → Action DaoDb
  unfolding ask ◌>>=◌
  refresh_status ev address = do
    let id = get_wasm_attr? ev.attributes "proposal_id"
    prop ← ask (archive.proposal_info ev.block_height address (parse_attr js id))
    update_dao_proposal_status address id prop.status

  -- the switch on the action
  unfoldable pub proposal_action : DaoEvent → String → Action DaoDb
  unfolding ask when_some pure ◌>>=◌
  proposal_action ev address =
      let hook = get_wasm_attr? ev.attributes "address" in
      let stamp : Hook = record { created_at = ev.timestamp; block_height = ev.block_height } in
      if ev.action == "instantiate"
      then instantiate_proposal_module ev address
      else if ev.action == "update_config"
      then (do
        config ← ask (archive.proposal_module_config ev.block_height address)
        update_dao_proposal_module_config address config)
      else if ev.action == "update_proposal_creation_policy"
      then update_creation_policy ev address
      else if ev.action == "propose"
      then propose ev address
      else if ev.action == "vote" || ev.action == "update_rationale"
      then vote ev address
      else if ev.action == "execute" || (ev.action == "close" || ev.action == "veto")
      then refresh_status ev address
      else if ev.action == "add_proposal_hook"
      then when_some hook (λ h. add_dao_proposal_hook address h stamp)
      else if ev.action == "remove_proposal_hook"
      then when_some hook (λ h. remove_dao_proposal_hook address h)
      else if ev.action == "add_vote_hook"
      then when_some hook (λ h. add_dao_vote_hook address h stamp)
      else if ev.action == "remove_vote_hook"
      then when_some hook (λ h. remove_dao_vote_hook address h)
      else pure tt

  -- the update without an action
  unfoldable pub update_pre_propose : DaoEvent → String → String → Action DaoDb
  unfolding ask ◌>>=◌
  update_pre_propose ev address pre_propose = do
    policy ← ask (archive.creation_policy ev.block_height address)
    update_dao_proposal_module_proposal_creation_policy address policy.text
    update_dao_proposal_module_pre_propose_module address (some pre_propose)

  unfoldable pub process_dao_proposal_event : DaoEvent → Action DaoDb
  unfolding proposal_action when_some ◌>>=◌
  process_dao_proposal_event ev =
      let address = get_wasm_attr ev.attributes "_contract_address" in
      proposal_action ev address
      >> when_some (get_wasm_attr? ev.attributes "update_pre_propose_module")
          (update_pre_propose ev address)
