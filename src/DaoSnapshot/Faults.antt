-- ===== src/DaoSnapshot/Faults.antt =====
-- The faults that the snapshot of a DAO survives, and those that it does not (sync/daodao_snapshot.ts).
use ixo_blocksync.Base.{
  ◌≡◌, refl, ◌∙◌, Bool, true, false, String, Option, none, some, ◌||◌, not, string_eq, pair_eq,
  arith,
}
use ixo_blocksync.Base.Table.{Table, lookup, upsert, update, lookup-upsert_self, lookup-update_self}
use ixo_blocksync.Numbers.{Arithmetic}
use ixo_blocksync.Pg.{
  Error, constraint_violation, ok, err, Tx, running, query, statement, pure, throw, ◌>>=◌,
}
use ixo_blocksync.Dao.{DaoDb, DaoProposalModule, has_row, write, write_if}
use ixo_blocksync.Dao.CoreSql.{create_dao_core, update_dao_core_voting_module}
use ixo_blocksync.Dao.ProposalSql.{
  create_dao_proposal_module, update_dao_proposal_module_pre_propose_module, coalesce, coalesced,
}
use ixo_blocksync.Dao.Archive.{ask, CreationPolicy}
use ixo_blocksync.Dao.CoreEvents.{core_row}
use ixo_blocksync.DaoSnapshot.Steps.{Dump, Queries, Context, swallowed}
use ixo_blocksync.DaoSnapshot.Passes.{
  snapshot_sub_daos, write_dao_core, snapshot_dao_core, snapshot_proposal_module,
}

-- A list of sub-DAOs that cannot be read changes nothing and throws nothing.
snapshot_sub_daos-unread :
    (js : Arithmetic) (q : Queries) (ctx : Context) (address : String) (e : Error) (tx : Tx DaoDb)
    → q.list_sub_daos ctx.height address ≡ err e
    → snapshot_sub_daos js q ctx address tx ≡ (ok tt, tx)
unfolding snapshot_sub_daos swallowed ask throw ◌>>=◌
snapshot_sub_daos-unread js q ctx address e tx unread = rw unread refl

-- A DAO whose voting module has no row, as one of a code id that is not in the list, ends the
-- snapshot of the DAO with the error of the database, whatever else the node answers: the
-- transaction of the whole snapshot has failed.
pub snapshot_dao_core-unlinked :
    (js : Arithmetic) (q : Queries) (ctx : Context) (address voting_module : String) (dump : Dump)
    (db : DaoDb)
    → q.dump_state ctx.height address ≡ ok (some dump)
    → dump.voting_module ≡ some voting_module
    → has_row voting_module db.voting_modules ≡ false
    → ((snapshot_dao_core js q ctx address (running db)).0 ≡ err constraint_violation)
      × ((snapshot_dao_core js q ctx address (running db)).1.failed ≡ true)
unfolding snapshot_dao_core write_dao_core create_dao_core update_dao_core_voting_module write
    write_if query statement ask pure ◌>>=◌
snapshot_dao_core-unlinked js q ctx address voting_module dump db answer linked missing =
    rw (answer, linked, there, missing) (refl, refl)
  where
    there :
        has_row address
          (upsert address (core_row dump.state ctx.timestamp ctx.height) (λ old. old) db.core)
        ≡ true
    there = rw (lookup-upsert_self address _ (λ old. old) db.core) refl

-- The row that the snapshot leaves of a module, where the archive node has no configuration of it.
abbrev without_config : String → Option String → DaoProposalModule → DaoProposalModule
without_config type policy old = record old {
  module_type = some type;
  proposal_creation_policy = coalesce policy old.proposal_creation_policy;
  config = some "{}";
  pre_propose_module = none;
}

-- Where the archive node has no configuration of a proposal module, nor a pre-propose module in its
-- policy, the snapshot of it succeeds, and replaces the configuration that was stored by the text
-- of an empty object; of the other columns it keeps those that the answers lack, but for the pointer
-- to the pre-propose module.
snapshot_proposal_module-no_config :
    (js : Arithmetic) (q : Queries) (ctx : Context) (address type : String)
    (policy : CreationPolicy) (old : DaoProposalModule) (db : DaoDb)
    → q.proposal_module_config ctx.height address ≡ ok none
    → q.creation_policy ctx.height address ≡ ok policy
    → policy.module_address ≡ none
    → lookup address db.proposal_modules ≡ some old
    → (db' : DaoDb) × (snapshot_proposal_module js q ctx address type (running db)
        ≡ (ok tt, running db'))
      × (lookup address db'.proposal_modules ≡ some (without_config type policy.text old))
unfolding snapshot_proposal_module create_dao_proposal_module write_if statement ask pure ◌>>=◌
    update_dao_proposal_module_pre_propose_module
snapshot_proposal_module-no_config js q ctx address type policy old db no_config answer no_module
      there =
    (
      record db {
        proposal_modules = update address (λ row. record row { pre_propose_module = none }) stored;
      },
      rw (no_config, answer, no_module, or_true (not (has_row address stored))) refl,
      lookup-update_self address (λ row. record row { pre_propose_module = none }) stored
          (coalesced new old)
          (lookup-upsert_self address new (coalesced new) db.proposal_modules ∙ rw there),
    )
  where
    new : DaoProposalModule
    new = record {
      dao_address = none;
      module_type = some type;
      prefix = none;
      status = none;
      created_at = ctx.timestamp;
      block_height = ctx.height;
      pre_propose_module = none;
      proposal_creation_policy = policy.text;
      config = some "{}";
    }

    stored : Table String DaoProposalModule
    stored = upsert address new (coalesced new) db.proposal_modules

    or_true : (b : Bool) → (b || true) ≡ true
    or_true b = ground arith
