-- ===== src/Dao/Modules.antt =====
-- The proposal modules of a DAO: the stub that `execute_update_proposal_modules` writes and the
-- instantiation that fills it, and the pointer to the pre-propose module.
use ixo_blocksync.Base.{
  ◌≡◌, refl, ◌∙◌, ap, Bool, true, false, String, Option, none, some, arith, string_eq, Bool-cases,
  inl, inr, ◌==◌, if◌then◌else◌,
}
use ixo_blocksync.Base.Table.{
  Table, lookup, upsert, update, upserted, lookup-upsert, change, lookup-update,
}
use ixo_blocksync.Numbers.{Arithmetic}
use ixo_blocksync.Pg.{ok, running, query, statement, pure, ◌>>=◌, ◌>>◌}
use ixo_blocksync.Attributes.{get_wasm_attr, get_wasm_attr?}
use ixo_blocksync.Dao.{DaoProposalModule, DaoDb, has_row, refers, write, write_if, select}
use ixo_blocksync.Dao.ProposalSql.{
  coalesced, create_dao_proposal_module, update_dao_proposal_module_pre_propose_module,
  has_dao_pre_propose_module, update_dao_proposal_module_proposal_creation_policy,
}
use ixo_blocksync.Dao.Archive.{Archive, CreationPolicy, DaoEvent, ask, when_some}
use ixo_blocksync.Dao.ProposalEvents.{
  prefix_of, status_of, listed, instantiate_proposal_module, update_creation_policy,
  sync_pre_propose_module, write_pre_propose_module, process_dao_proposal_event, proposal_action,
}

-- The row that an instantiation of the module writes.
abbrev pub instantiated :
    Archive → DaoEvent → String → Option String → Option String → DaoProposalModule
instantiated archive ev address policy config =
    let dao = get_wasm_attr? ev.attributes "dao" in
    let entry = listed archive ev.block_height address dao in
    record {
      dao_address = dao;
      module_type = some ev.contract_type;
      prefix = prefix_of entry;
      status = status_of entry;
      created_at = ev.timestamp;
      block_height = ev.block_height;
      pre_propose_module = none;
      proposal_creation_policy = policy;
      config = config;
    }

abbrev NoUpdate : DaoEvent → Type 0
NoUpdate ev = get_wasm_attr? ev.attributes "update_pre_propose_module" ≡ none

instantiate_case :
    (js : Arithmetic) (archive : Archive) (ev : DaoEvent) (address : String)
    → ev.action ≡ "instantiate"
    → get_wasm_attr ev.attributes "_contract_address" ≡ address
    → NoUpdate ev
    → process_dao_proposal_event js archive ev
      ≡ (instantiate_proposal_module js archive ev address >> pure tt)
unfolding process_dao_proposal_event proposal_action when_some
instantiate_case js archive ev address e h n = simp (e, h, n)

-- An instantiation whose DAO has a row, or that names none, fills the row that may be there, be it a
-- stub or a module indexed before: what the event and the queries know replaces what is stored, what
-- they do not know stays, and so do the stamps and the pre-propose module, and every other module.
process_dao_proposal_event-instantiate :
    (js : Arithmetic) (archive : Archive) (ev : DaoEvent) (db : DaoDb) (address : String)
    (config : Option String) (policy : CreationPolicy)
    → ev.action ≡ "instantiate"
    → get_wasm_attr ev.attributes "_contract_address" ≡ address
    → get_wasm_attr? ev.attributes "update_pre_propose_module" ≡ none
    → archive.proposal_module_config ev.block_height address ≡ ok config
    → archive.creation_policy ev.block_height address ≡ ok policy
    → refers (get_wasm_attr? ev.attributes "dao") db.core ≡ true
    → (db' : DaoDb) × (process_dao_proposal_event js archive ev (running db) ≡ (ok tt, running db'))
      × ((other : String)
          → lookup other db'.proposal_modules ≡ (
              if address == other
              then some (
                  upserted
                    (instantiated archive ev address policy.text config)
                    (coalesced (instantiated archive ev address policy.text config))
                    (lookup address db.proposal_modules))
              else lookup other db.proposal_modules))
unfolding instantiate_proposal_module create_dao_proposal_module ask write_if statement pure ◌>>=◌
process_dao_proposal_event-instantiate js archive ev db address config policy e h n hc hp hd =
    let row = instantiated archive ev address policy.text config in
    (
      record db { proposal_modules = upsert address row (coalesced row) db.proposal_modules },
      ap (λ m. m (running db)) (instantiate_case js archive ev address e h n) ∙ rw (hc, hp, hd),
      λ other. lookup-upsert address other row (coalesced row) db.proposal_modules,
    )

policy_case :
    (js : Arithmetic) (archive : Archive) (ev : DaoEvent) (address : String)
    → ev.action ≡ "update_proposal_creation_policy"
    → get_wasm_attr ev.attributes "_contract_address" ≡ address
    → NoUpdate ev
    → process_dao_proposal_event js archive ev
      ≡ (update_creation_policy js archive ev address >> pure tt)
unfolding process_dao_proposal_event proposal_action when_some
policy_case js archive ev address e h n = simp (e, h, n)

-- The pointer to the pre-propose module that a new policy leaves.
abbrev pub pointed : Option String → Bool → DaoProposalModule → Option String
pointed none is_there row = none
pointed (some p) true row = some p
pointed (some p) false row = row.pre_propose_module

abbrev pub is_indexed : Option String → DaoDb → Bool
is_indexed none db = false
is_indexed (some p) db = has_row p db.pre_propose_modules

-- An empty address is the one that the code does not look for.
abbrev pub is_empty : Option String → Bool
is_empty none = false
is_empty (some p) = p == ""

abbrev with_policy : Option String → DaoProposalModule → DaoProposalModule
with_policy text row = record row { proposal_creation_policy = text }

abbrev with_pointer : Option String → DaoProposalModule → DaoProposalModule
with_pointer p row = record row { pre_propose_module = p }

abbrev set_pointer : String → Option String → DaoDb → DaoDb
set_pointer address p db = record db {
  proposal_modules = update address (with_pointer p) db.proposal_modules;
}

abbrev pointed_db : String → Option String → DaoDb → DaoDb
pointed_db address none db = set_pointer address none db
pointed_db address (some p) db =
    if has_row p db.pre_propose_modules then set_pointer address (some p) db else db

pub set_pointer_run :
    (address : String) (p : Option String) (db : DaoDb)
    → refers p db.pre_propose_modules ≡ true
    → update_dao_proposal_module_pre_propose_module address p (running db)
      ≡ (ok tt, running (set_pointer address p db))
unfolding update_dao_proposal_module_pre_propose_module write_if statement
set_pointer_run address p db h = elim (Bool-cases (has_row address db.proposal_modules)) [
  | inl e ↦ rw (e, h)
  | inr e ↦ rw e
]

sync_pre_propose_module_run :
    (address : String) (p : Option String) (db : DaoDb)
    → is_empty p ≡ false
    → sync_pre_propose_module address p (running db) ≡ (ok tt, running (pointed_db address p db))
unfolding sync_pre_propose_module has_dao_pre_propose_module write_pre_propose_module select query
    pure ◌>>=◌
sync_pre_propose_module_run address none db named = set_pointer_run address none db refl
sync_pre_propose_module_run address (some p) db named =
    elim (Bool-cases (has_row p db.pre_propose_modules)) [
      | inl e ↦ rw (named, e) (set_pointer_run address (some p) db e)
      | inr e ↦ rw (named, e)
    ]

change_twice :
    {V : Type 0} → (f g : V → V) (o : Option V) → change f (change g o) ≡ change (λ v. f (g v)) o
change_twice f g none = refl
change_twice f g (some v) = refl

lookup-update_twice :
    (a other : String) (f g : DaoProposalModule → DaoProposalModule)
    (t : Table String DaoProposalModule)
    → lookup other (update a f (update a g t))
      ≡ (if a == other then change (λ v. f (g v)) (lookup a t) else lookup other t)
lookup-update_twice a other f g t = ground (
  arith,
  string_eq.beq_iff a a,
  string_eq.beq_iff a other,
  lookup-update a other f (update a g t),
  lookup-update a a g t,
  lookup-update a other g t,
  change_twice f g (lookup a t),
)

lookup-pointed :
    (address other : String) (text p : Option String) (db : DaoDb)
    → lookup other
        (pointed_db address p (record db {
          proposal_modules = update address (with_policy text) db.proposal_modules;
        })).proposal_modules
      ≡ (if address == other
          then change
              (λ row. record row {
                proposal_creation_policy = text;
                pre_propose_module = pointed p (is_indexed p db) row;
              })
              (lookup address db.proposal_modules)
          else lookup other db.proposal_modules)
lookup-pointed address other text none db =
    lookup-update_twice address other (with_pointer none) (with_policy text) db.proposal_modules
lookup-pointed address other text (some p) db =
    elim (Bool-cases (has_row p db.pre_propose_modules)) [
      | inl e ↦ rw e (
          lookup-update_twice address other (with_pointer (some p)) (with_policy text)
            db.proposal_modules)
      | inr e ↦ rw e (lookup-update address other (with_policy text) db.proposal_modules)
    ]

-- An event that changes the creation policy to one that does not name the empty address never fails
-- on the foreign key: it stores the policy, clears the pointer where the policy names no module, sets
-- it where the named module has a row, and leaves it where that has none yet. Every other proposal
-- module stays.
pub process_dao_proposal_event-policy :
    (js : Arithmetic) (archive : Archive) (ev : DaoEvent) (db : DaoDb) (address : String)
    (policy : CreationPolicy)
    → ev.action ≡ "update_proposal_creation_policy"
    → get_wasm_attr ev.attributes "_contract_address" ≡ address
    → get_wasm_attr? ev.attributes "update_pre_propose_module" ≡ none
    → archive.creation_policy ev.block_height address ≡ ok policy
    → is_empty policy.module_address ≡ false
    → (db' : DaoDb) × (process_dao_proposal_event js archive ev (running db) ≡ (ok tt, running db'))
      × ((other : String)
          → lookup other db'.proposal_modules ≡ (
              if address == other
              then change
                  (λ row. record row {
                    proposal_creation_policy = policy.text;
                    pre_propose_module =
                        pointed policy.module_address (is_indexed policy.module_address db) row;
                  })
                  (lookup address db.proposal_modules)
              else lookup other db.proposal_modules))
unfolding update_creation_policy ask update_dao_proposal_module_proposal_creation_policy write query
    pure ◌>>=◌
process_dao_proposal_event-policy js archive ev db address policy e h n hp named =
    let stored = update address (with_policy policy.text) db.proposal_modules in
    let db₁ = record db { proposal_modules = stored } in
    (
      pointed_db address policy.module_address db₁,
      ap (λ m. m (running db)) (policy_case js archive ev address e h n)
          ∙ rw (hp, sync_pre_propose_module_run address policy.module_address db₁ named),
      λ other. lookup-pointed address other policy.text policy.module_address db,
    )
