-- ===== src/Dao/ProposalSql.antt =====
-- postgres/dao.ts: the statements on proposal modules, proposals, votes and hooks. Payloads arrive
-- as the texts of `JSON.stringify`, `none` where the source writes null.
use ixo_blocksync.Base.{
  ℕ, Bool, false, String, Option, none, some, List, [], ◌∷◌, ◌||◌, not, string_eq, pair_eq,
}
use ixo_blocksync.Base.Table.{upsert, update, delete}
use ixo_blocksync.Pg.{Exec, Action, pure, ◌>>=◌, ◌>>◌}
use ixo_blocksync.Dao.{
  DaoProposalModule, DaoProposal, DaoVote, Hook, DaoDb, write, write_if, select, has_row, refers,
}

-- A status as the chain gives it: an object has its keys in order.
pub data ProposalStatus : Type 0 where
  no_status : ProposalStatus
  text_status : String → ProposalStatus
  object_status : List String → ProposalStatus

unfoldable pub normalize_proposal_status : ProposalStatus → Option String
normalize_proposal_status no_status = none
normalize_proposal_status (text_status text) = some text
normalize_proposal_status (object_status []) = none
normalize_proposal_status (object_status (key ∷ keys)) = some key

-- an entry of `proposal_modules` in the dump of a DAO's state
pub record ListedModule : Type 0 where
  pub address : String
  pub prefix : Option String
  pub status : Option String

-- the statement of the loop of `refreshDaoProposalModulesFromDumpState`
unfoldable pub refresh_proposal_module : ListedModule → String → ℕ → ℕ → Action DaoDb
unfolding write_if
refresh_proposal_module m dao created_at height =
    write_if (λ db. has_row dao db.core)
      (λ db. record db {
        proposal_modules =
            upsert m.address
              (record {
                dao_address = some dao;
                module_type = none;
                prefix = m.prefix;
                status = m.status;
                created_at = created_at;
                block_height = height;
                pre_propose_module = none;
                proposal_creation_policy = none;
                config = none;
              })
              (λ old. record old { prefix = m.prefix; status = m.status; dao_address = some dao })
              db.proposal_modules;
      })

unfoldable pub refresh_dao_proposal_modules_from_dump_state :
    List ListedModule → String → ℕ → ℕ → Action DaoDb
unfolding refresh_proposal_module pure ◌>>=◌
refresh_dao_proposal_modules_from_dump_state [] dao created_at height = pure tt
refresh_dao_proposal_modules_from_dump_state (m ∷ ms) dao created_at height =
    refresh_proposal_module m dao created_at height
    >> refresh_dao_proposal_modules_from_dump_state ms dao created_at height

abbrev pub coalesce : Option String → Option String → Option String
coalesce none old = old
coalesce (some new) old = some new

-- ON CONFLICT DO UPDATE of `createDaoProposalModuleSql`
abbrev pub coalesced : DaoProposalModule → DaoProposalModule → DaoProposalModule
coalesced new old = record old {
  dao_address = coalesce new.dao_address old.dao_address;
  module_type = coalesce new.module_type old.module_type;
  prefix = coalesce new.prefix old.prefix;
  status = coalesce new.status old.status;
  proposal_creation_policy = coalesce new.proposal_creation_policy old.proposal_creation_policy;
  config = coalesce new.config old.config;
}

-- `createDaoProposalModule`; the row comes without a pre-propose module
unfoldable pub create_dao_proposal_module : String → DaoProposalModule → Action DaoDb
unfolding write_if
create_dao_proposal_module address row =
    write_if (λ db. refers row.dao_address db.core)
      (λ db. record db {
        proposal_modules = upsert address row (coalesced row) db.proposal_modules;
      })

unfoldable pub update_dao_proposal_module_pre_propose_module : String → Option String → Action DaoDb
unfolding write_if
update_dao_proposal_module_pre_propose_module address pre_propose =
    write_if
      (λ db. not (has_row address db.proposal_modules) || refers pre_propose db.pre_propose_modules)
      (λ db. record db {
        proposal_modules =
            update address (λ row. record row { pre_propose_module = pre_propose })
              db.proposal_modules;
      })

unfoldable pub has_dao_pre_propose_module : String → Exec DaoDb Bool
unfolding select
has_dao_pre_propose_module address = select (λ db. has_row address db.pre_propose_modules)

unfoldable pub update_dao_proposal_module_proposal_creation_policy :
    String → Option String → Action DaoDb
unfolding write
update_dao_proposal_module_proposal_creation_policy address policy = write (λ db. record db {
  proposal_modules =
      update address (λ row. record row { proposal_creation_policy = policy }) db.proposal_modules;
})

unfoldable pub update_dao_proposal_module_config : String → Option String → Action DaoDb
unfolding write
update_dao_proposal_module_config address config = write (λ db. record db {
  proposal_modules = update address (λ row. record row { config = config }) db.proposal_modules;
})

-- `createDaoProposal`: a row that is there stays; without an id, the primary key refuses it
unfoldable pub create_dao_proposal : Option String → String → DaoProposal → Action DaoDb
unfolding write_if
create_dao_proposal none proposal_module row = write_if (λ db. false) (λ db. db)
create_dao_proposal (some id) proposal_module row =
    write_if (λ db. has_row proposal_module db.proposal_modules)
      (λ db. record db { proposals = upsert (proposal_module, id) row (λ old. old) db.proposals })

-- an UPDATE of a proposal; `id = NULL` holds of no row
abbrev update_proposal : Option String → String → (DaoProposal → DaoProposal) → DaoDb → DaoDb
update_proposal none proposal_module f db = db
update_proposal (some id) proposal_module f db = record db {
  proposals = update (proposal_module, id) f db.proposals;
}

unfoldable pub update_dao_proposal_status : String → Option String → ProposalStatus → Action DaoDb
unfolding write normalize_proposal_status
update_dao_proposal_status proposal_module id status = write (
    update_proposal id proposal_module
      (λ row. record row { status = normalize_proposal_status status }))

unfoldable pub update_dao_proposal_status_and_votes :
    String → Option String → ProposalStatus → Option String → Action DaoDb
unfolding write normalize_proposal_status
update_dao_proposal_status_and_votes proposal_module id status votes = write (
    update_proposal id proposal_module
      (λ row. record row { status = normalize_proposal_status status; votes = votes }))

-- `createDaoVote`: a vote again overwrites the row
unfoldable pub create_dao_vote : String → Option String → Option String → DaoVote → Action DaoDb
unfolding write_if
create_dao_vote proposal_module none voter row = write_if (λ db. false) (λ db. db)
create_dao_vote proposal_module (some id) none row = write_if (λ db. false) (λ db. db)
create_dao_vote proposal_module (some id) (some voter) row =
    write_if (λ db. has_row (proposal_module, id) db.proposals)
      (λ db. record db { votes = upsert (proposal_module, (id, voter)) row (λ old. row) db.votes })

unfoldable pub add_dao_proposal_hook : String → String → Hook → Action DaoDb
unfolding write_if
add_dao_proposal_hook proposal_module hook row =
    write_if (λ db. has_row proposal_module db.proposal_modules)
      (λ db. record db {
        proposal_hooks = upsert (proposal_module, hook) row (λ old. old) db.proposal_hooks;
      })

unfoldable pub remove_dao_proposal_hook : String → String → Action DaoDb
unfolding write
remove_dao_proposal_hook proposal_module hook =
    write (λ db. record db { proposal_hooks = delete (proposal_module, hook) db.proposal_hooks })

unfoldable pub add_dao_vote_hook : String → String → Hook → Action DaoDb
unfolding write_if
add_dao_vote_hook proposal_module hook row =
    write_if (λ db. has_row proposal_module db.proposal_modules)
      (λ db. record db {
        vote_hooks = upsert (proposal_module, hook) row (λ old. old) db.vote_hooks;
      })

unfoldable pub remove_dao_vote_hook : String → String → Action DaoDb
unfolding write
remove_dao_vote_hook proposal_module hook =
    write (λ db. record db { vote_hooks = delete (proposal_module, hook) db.vote_hooks })
