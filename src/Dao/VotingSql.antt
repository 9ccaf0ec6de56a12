-- ===== src/Dao/VotingSql.antt =====
-- postgres/dao.ts: the statements on voting modules and the two registries of contracts.
use ixo_blocksync.Base.{String, Option, none, some, ◌&&◌, ◌||◌, not, string_eq}
use ixo_blocksync.Base.Table.{lookup, upsert, update, update_where}
use ixo_blocksync.Numbers.{Number, Arithmetic, parse_numeric}
use ixo_blocksync.Pg.{Exec, Action}
use ixo_blocksync.Dao.{DaoVotingModule, DaoDb, write, write_if, select, has_row, refers, is_value}

-- `createDaoVotingModule`; the two foreign keys count where the row is a new one
unfoldable pub create_dao_voting_module : String → DaoVotingModule → Action DaoDb
unfolding write_if
create_dao_voting_module address row =
    write_if
      (λ db.
        refers row.group_contract_address db.cw4_group_contracts
          && refers row.staking_contract db.cw20_staking_contracts
        || has_row address db.voting_modules)
      (λ db. record db { voting_modules = upsert address row (λ old. old) db.voting_modules })

unfoldable pub update_voting_module : String → (DaoVotingModule → DaoVotingModule) → Action DaoDb
unfolding write
update_voting_module address f =
    write (λ db. record db { voting_modules = update address f db.voting_modules })

unfoldable pub update_dao_voting_module_group_contract_address : String → String → Action DaoDb
unfolding write_if
update_dao_voting_module_group_contract_address address group =
    write_if (λ db. not (has_row address db.voting_modules) || has_row group db.cw4_group_contracts)
      (λ db. record db {
        voting_modules =
            update address (λ row. record row { group_contract_address = some group })
              db.voting_modules;
      })

unfoldable pub update_dao_voting_module_token_contract_address : String → String → Action DaoDb
unfolding update_voting_module
update_dao_voting_module_token_contract_address address token =
    update_voting_module address (λ row. record row { token_address = some token })

unfoldable pub update_dao_voting_module_token_staking_contract_address :
    String → String → Action DaoDb
unfolding write_if
update_dao_voting_module_token_staking_contract_address address staking =
    write_if
      (λ db. not (has_row address db.voting_modules) || has_row staking db.cw20_staking_contracts)
      (λ db. record db {
        voting_modules =
            update address (λ row. record row { staking_contract = some staking })
              db.voting_modules;
      })

unfoldable pub update_dao_voting_module_total_weight : String → Number → Action DaoDb
unfolding update_voting_module
update_dao_voting_module_total_weight address weight =
    update_voting_module address (λ row. record row { total_weight = some weight })

abbrev pub weight_of : Option DaoVotingModule → Option Number
weight_of none = none
weight_of (some row) = row.total_weight

unfoldable pub get_dao_voting_module_total_weight : Arithmetic → String → Exec DaoDb Number
unfolding select
get_dao_voting_module_total_weight js address =
    select (λ db. parse_numeric js (weight_of (lookup address db.voting_modules)))

unfoldable pub update_dao_all_voting_modules_total_weight_for_cw20_contract :
    String → Number → Action DaoDb
unfolding write
update_dao_all_voting_modules_total_weight_for_cw20_contract staking weight = write (λ db.
    record db {
      voting_modules =
          update_where (λ row. is_value row.staking_contract staking)
            (λ row. record row { total_weight = some weight }) db.voting_modules;
    })

unfoldable pub update_dao_all_voting_modules_total_weight_for_group_contract :
    String → Number → Action DaoDb
unfolding write
update_dao_all_voting_modules_total_weight_for_group_contract group weight = write (λ db.
    record db {
      voting_modules =
          update_where (λ row. is_value row.group_contract_address group)
            (λ row. record row { total_weight = some weight }) db.voting_modules;
    })

unfoldable pub update_dao_voting_module_unstaking_duration : String → Option String → Action DaoDb
unfolding update_voting_module
update_dao_voting_module_unstaking_duration address duration =
    update_voting_module address (λ row. record row { unstaking_duration = duration })

unfoldable pub update_dao_voting_module_threshold : String → Option String → Action DaoDb
unfolding update_voting_module
update_dao_voting_module_threshold address threshold =
    update_voting_module address (λ row. record row { active_threshold = threshold })

unfoldable pub update_dao_all_voting_modules_unstaking_duration_for_cw20_contract :
    String → Option String → Action DaoDb
unfolding write
update_dao_all_voting_modules_unstaking_duration_for_cw20_contract staking duration = write (λ db.
    record db {
      voting_modules =
          update_where (λ row. is_value row.staking_contract staking)
            (λ row. record row { unstaking_duration = duration }) db.voting_modules;
    })

unfoldable pub ensure_dao_cw4_group_contract : String → Action DaoDb
unfolding write
ensure_dao_cw4_group_contract address = write (λ db. record db {
  cw4_group_contracts = upsert address tt (λ old. old) db.cw4_group_contracts;
})

unfoldable pub ensure_dao_cw20_staking_contract : String → Action DaoDb
unfolding write
ensure_dao_cw20_staking_contract address = write (λ db. record db {
  cw20_staking_contracts = upsert address tt (λ old. old) db.cw20_staking_contracts;
})
