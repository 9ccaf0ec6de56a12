-- ===== src/Dao/PreProposeEvents.antt =====
-- `processDaoPreProposeEvent` of sync_handlers/event_data_sync_wasm_dao.ts.
use ixo_blocksync.Base.{Bool, String, Option, none, some, ◌==◌, ◌||◌, string_eq, if◌then◌else◌}
use ixo_blocksync.Numbers.{Arithmetic}
use ixo_blocksync.Pg.{Action, pure, ◌>>=◌, ◌>>◌}
use ixo_blocksync.Attributes.{get_wasm_attr, get_wasm_attr?}
use ixo_blocksync.Dao.{DaoDb}
use ixo_blocksync.Dao.PreProposeSql.{
  create_dao_pre_propose_module, update_dao_pre_propose_module, create_dao_pre_propse_approval,
  resolve_dao_pre_propse_approval,
}
use ixo_blocksync.Dao.Archive.{Archive, DaoEvent, ask, when_some}

unfoldable pub is_approval : String → Bool
is_approval type =
    type == "dao_pre_propose_approval_single" || type == "dao_pre_propose_approval_multiple"

module _ (js : Arithmetic) (archive : Archive) where
  -- the switch on the action
  unfoldable pub pre_propose_action : DaoEvent → String → Action DaoDb
  unfolding ask pure ◌>>=◌
  pre_propose_action ev address =
      if ev.action == "instantiate"
      then (do
        conf ← ask (archive.pre_propose_config ev.block_height address)
        create_dao_pre_propose_module address (get_wasm_attr? ev.attributes "proposal_module") conf
            ev.timestamp ev.block_height)
      else if ev.action == "update_config"
      then (do
        conf ← ask (archive.pre_propose_config ev.block_height address)
        update_dao_pre_propose_module address conf)
      else pure tt

  -- the method "pre-propose", with its id
  unfoldable pub submit : DaoEvent → String → String → Action DaoDb
  unfolding ask when_some ◌>>=◌
  submit ev address id = do
    pending ← ask (archive.pending_proposer ev.block_height address (js.parse_int id))
    when_some pending (λ proposer.
        create_dao_pre_propse_approval address id proposer ev.timestamp ev.block_height)

  -- the switch on the method
  unfoldable pub approval_method : DaoEvent → String → Option String → Action DaoDb
  unfolding when_some pure
  approval_method ev address none = pure tt
  approval_method ev address (some method) =
      if method == "pre-propose"
      then when_some (get_wasm_attr? ev.attributes "id") (submit ev address)
      else if method == "proposal_approved"
      then when_some (get_wasm_attr? ev.attributes "approval_id") (λ id.
        resolve_dao_pre_propse_approval address id "approved"
          (get_wasm_attr? ev.attributes "proposal_id") ev.timestamp ev.block_height)
      else if method == "proposal_rejected"
      then when_some (get_wasm_attr? ev.attributes "proposal") (λ id.
        resolve_dao_pre_propse_approval address id "rejected" none ev.timestamp ev.block_height)
      else pure tt

  unfoldable pub process_dao_pre_propose_event : DaoEvent → Action DaoDb
  unfolding pre_propose_action approval_method is_approval pure ◌>>=◌
  process_dao_pre_propose_event ev =
      let address = get_wasm_attr ev.attributes "_contract_address" in
      pre_propose_action ev address
      >> (if is_approval ev.contract_type
          then approval_method ev address (get_wasm_attr? ev.attributes "method")
          else pure tt)
