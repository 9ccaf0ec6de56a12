-- ===== src/Dao/CoreEvents.antt =====
-- `processDaoCoreEvent` of sync_handlers/event_data_sync_wasm_dao.ts.
use ixo_blocksync.Base.{ℕ, String, Option, none, some, ◌==◌, string_eq, if◌then◌else◌}
use ixo_blocksync.Numbers.{Arithmetic}
use ixo_blocksync.Pg.{Action, pure, ◌>>=◌, ◌>>◌}
use ixo_blocksync.Attributes.{get_wasm_attr, get_wasm_attr?}
use ixo_blocksync.Dao.{DaoCore, DaoDb}
use ixo_blocksync.Dao.CoreSql.{
  create_dao_core, update_dao_core, update_dao_core_admin_address, update_dao_core_voting_module,
  update_dao_core_paused_until, upsert_dao_core_item, delete_dao_core_item, replace_dao_sub_daos,
}
use ixo_blocksync.Dao.ProposalSql.{refresh_dao_proposal_modules_from_dump_state}
use ixo_blocksync.Dao.Archive.{Archive, DumpState, DaoEvent, ask, when_some, release_at_to_date}

abbrev pub core_row : DumpState → ℕ → ℕ → DaoCore
core_row dump timestamp height = record {
  name = dump.config.name;
  description = dump.config.description;
  image_url = dump.config.image_url;
  automatically_add_cw20s = dump.config.automatically_add_cw20s;
  automatically_add_cw721s = dump.config.automatically_add_cw721s;
  dao_uri = dump.config.dao_uri;
  admin_address = dump.admin;
  created_at = timestamp;
  block_height = height;
  voting_module = none;
  paused_until = none;
}

-- `value ?? ""`
abbrev pub or_empty : Option String → String
or_empty none = ""
or_empty (some v) = v

module _ (js : Arithmetic) (archive : Archive) where
  -- the switch on the action
  unfoldable pub core_action : DaoEvent → String → Action DaoDb
  unfolding ask when_some pure ◌>>=◌
  core_action ev address =
      if ev.action == "instantiate"
      then (do
        dump ← ask (archive.dump_state ev.block_height address)
        create_dao_core address (core_row dump ev.timestamp ev.block_height))
      else if ev.action == "execute_update_config"
      then (do
        dump ← ask (archive.dump_state ev.block_height address)
        update_dao_core address dump.config)
      else if ev.action == "execute_accept_admin_nomination"
      then update_dao_core_admin_address address (get_wasm_attr? ev.attributes "new_admin")
      else if ev.action == "execute_set_item"
      then when_some (get_wasm_attr? ev.attributes "key") (λ key.
        upsert_dao_core_item address key (record {
          value = or_empty (get_wasm_attr? ev.attributes "addr");
          updated_at = ev.timestamp;
          block_height = ev.block_height;
        }))
      else if ev.action == "execute_remove_item"
      then when_some (get_wasm_attr? ev.attributes "key") (delete_dao_core_item address)
      else if ev.action == "execute_update_proposal_modules"
      then (do
        dump ← ask (archive.dump_state ev.block_height address)
        refresh_dao_proposal_modules_from_dump_state dump.proposal_modules address ev.timestamp
            ev.block_height)
      else if ev.action == "execute_pause"
      then (do
        dump ← ask (archive.dump_state ev.block_height address)
        update_dao_core_paused_until address (release_at_to_date js dump.at_time))
      else if ev.action == "execute_update_sub_daos_list"
      then (do
        subs ← ask (archive.list_sub_daos ev.block_height address)
        replace_dao_sub_daos address subs ev.timestamp ev.block_height)
      else pure tt

  unfoldable pub process_dao_core_event : DaoEvent → Action DaoDb
  unfolding core_action when_some ◌>>=◌
  process_dao_core_event ev =
      let address = get_wasm_attr ev.attributes "_contract_address" in
      core_action ev address
      >> when_some (get_wasm_attr? ev.attributes "voting_module")
          (update_dao_core_voting_module address)
