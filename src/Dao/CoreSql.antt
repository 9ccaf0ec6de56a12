-- ===== src/Dao/CoreSql.antt =====
-- postgres/dao.ts: the statements on dao_core, dao_core_item and dao_sub_dao.
use ixo_blocksync.Base.{
  ℕ, Bool, String, Option, some, List, [], ◌∷◌, ◌&&◌, ◌||◌, not, ◌==◌, string_eq, pair_eq,
}
use ixo_blocksync.Base.Table.{upsert, update, delete, delete_keys}
use ixo_blocksync.Pg.{Action, pure, ◌>>=◌, ◌>>◌}
use ixo_blocksync.Dao.{DaoCore, DaoCoreItem, SubDao, DaoDb, write, write_if, has_row}

-- `config` of the dump of a DAO's state
pub record DaoConfig : Type 0 where
  pub name : Option String
  pub description : Option String
  pub image_url : Option String
  pub automatically_add_cw20s : Option Bool
  pub automatically_add_cw721s : Option Bool
  pub dao_uri : Option String

-- `createDaoCore`: a row that is there stays (ON CONFLICT DO NOTHING)
unfoldable pub create_dao_core : String → DaoCore → Action DaoDb
unfolding write
create_dao_core address row =
    write (λ db. record db { core = upsert address row (λ old. old) db.core })

abbrev pub configured : DaoConfig → DaoCore → DaoCore
configured conf row = record row {
  name = conf.name;
  description = conf.description;
  image_url = conf.image_url;
  automatically_add_cw20s = conf.automatically_add_cw20s;
  automatically_add_cw721s = conf.automatically_add_cw721s;
  dao_uri = conf.dao_uri;
}

unfoldable pub update_dao_core : String → DaoConfig → Action DaoDb
unfolding write
update_dao_core address conf =
    write (λ db. record db { core = update address (configured conf) db.core })

unfoldable pub update_dao_core_admin_address : String → Option String → Action DaoDb
unfolding write
update_dao_core_admin_address address admin = write (λ db. record db {
  core = update address (λ row. record row { admin_address = admin }) db.core;
})

-- The foreign key counts where there is a row to update.
unfoldable pub update_dao_core_voting_module : String → String → Action DaoDb
unfolding write_if
update_dao_core_voting_module address voting_module =
    write_if (λ db. not (has_row address db.core) || has_row voting_module db.voting_modules)
      (λ db. record db {
        core = update address (λ row. record row { voting_module = some voting_module }) db.core;
      })

unfoldable pub update_dao_core_paused_until : String → Option ℕ → Action DaoDb
unfolding write
update_dao_core_paused_until address until =
    write (λ db. record db {
      core = update address (λ row. record row { paused_until = until }) db.core;
    })

unfoldable pub upsert_dao_core_item : String → String → DaoCoreItem → Action DaoDb
unfolding write_if
upsert_dao_core_item dao key item =
    write_if (λ db. has_row dao db.core)
      (λ db. record db { items = upsert (dao, key) item (λ old. item) db.items })

unfoldable pub delete_dao_core_item : String → String → Action DaoDb
unfolding write
delete_dao_core_item dao key = write (λ db. record db { items = delete (dao, key) db.items })

-- the DELETE of `replaceDaoSubDaos`
unfoldable pub delete_sub_daos : String → Action DaoDb
unfolding write
delete_sub_daos dao =
    write (λ db. record db { sub_daos = delete_keys (λ k. k.0 == dao) db.sub_daos })

-- the INSERT of its loop, refused where the key is taken or the DAO has no row
unfoldable pub insert_sub_dao : String → String → SubDao → Action DaoDb
unfolding write_if
insert_sub_dao dao sub row =
    write_if (λ db. has_row dao db.core && not (has_row (dao, sub) db.sub_daos))
      (λ db. record db { sub_daos = upsert (dao, sub) row (λ old. old) db.sub_daos })

unfoldable pub insert_sub_daos : String → List (String × Option String) → ℕ → ℕ → Action DaoDb
unfolding insert_sub_dao pure ◌>>=◌
insert_sub_daos dao [] updated_at height = pure tt
insert_sub_daos dao ((sub, charter) ∷ subs) updated_at height =
    insert_sub_dao dao sub
      (record { charter = charter; updated_at = updated_at; block_height = height })
    >> insert_sub_daos dao subs updated_at height

unfoldable pub replace_dao_sub_daos : String → List (String × Option String) → ℕ → ℕ → Action DaoDb
unfolding delete_sub_daos insert_sub_daos ◌>>=◌
replace_dao_sub_daos dao subs updated_at height =
    delete_sub_daos dao >> insert_sub_daos dao subs updated_at height
