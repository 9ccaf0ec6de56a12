-- ===== src/Dao/Wiring.antt =====
-- The events of a transaction that replaces the pre-propose module of a proposal module, in their
-- order on the chain: the policy, the instantiation of the new module, the pointer.
use ixo_blocksync.Base.{◌≡◌, ◌∙◌, ap, true, false, String, none, some, string_eq, beq_refl, ◌==◌}
use ixo_blocksync.Base.Table.{Table, lookup, upsert, update, lookup-upsert_self, lookup-update_self}
use ixo_blocksync.Numbers.{Arithmetic}
use ixo_blocksync.Pg.{ok, running, query, pure, ◌>>=◌, ◌>>◌}
use ixo_blocksync.Attributes.{get_wasm_attr, get_wasm_attr?}
use ixo_blocksync.Dao.{DaoProposalModule, DaoPreProposeModule, DaoDb, has_row, write}
use ixo_blocksync.Dao.ProposalSql.{update_dao_proposal_module_proposal_creation_policy}
use ixo_blocksync.Dao.PreProposeSql.{PreProposeConfig, create_dao_pre_propose_module}
use ixo_blocksync.Dao.Archive.{Archive, CreationPolicy, DaoEvent, ask, when_some}
use ixo_blocksync.Dao.ProposalEvents.{
  process_dao_proposal_event, proposal_action, update_pre_propose,
}
use ixo_blocksync.Dao.PreProposeEvents.{
  process_dao_pre_propose_event, pre_propose_action, is_approval,
}
use ixo_blocksync.Dao.Modules.{process_dao_proposal_event-policy, set_pointer_run}

-- The first event: the policy of the proposal module `address` names `p`, which is not empty.
pub record IsPolicyEvent (archive : Archive) (ev : DaoEvent) (address p : String) : Type 0 where
  pub policy : CreationPolicy
  pub action : ev.action ≡ "update_proposal_creation_policy"
  pub contract : get_wasm_attr ev.attributes "_contract_address" ≡ address
  pub no_update : get_wasm_attr? ev.attributes "update_pre_propose_module" ≡ none
  pub answer : archive.creation_policy ev.block_height address ≡ ok policy
  pub names : policy.module_address ≡ some p
  pub named : (p == "") ≡ false

-- The second event: `p` is instantiated.
pub record IsInstantiation (archive : Archive) (ev : DaoEvent) (p : String) : Type 0 where
  pub conf : PreProposeConfig
  pub action : ev.action ≡ "instantiate"
  pub contract : get_wasm_attr ev.attributes "_contract_address" ≡ p
  pub no_approval : is_approval ev.contract_type ≡ false
  pub answer : archive.pre_propose_config ev.block_height p ≡ ok conf

-- The third event: `update_pre_propose_module` is `p`, and there is no action that has a case.
pub record IsPointerEvent (archive : Archive) (ev : DaoEvent) (address p : String) : Type 0 where
  pub policy : CreationPolicy
  pub action : ev.action ≡ ""
  pub contract : get_wasm_attr ev.attributes "_contract_address" ≡ address
  pub update : get_wasm_attr? ev.attributes "update_pre_propose_module" ≡ some p
  pub answer : archive.creation_policy ev.block_height address ≡ ok policy

module _ (js : Arithmetic) (archive : Archive) where
  instantiation_case :
      (ev : DaoEvent) (p : String)
      → ev.action ≡ "instantiate"
      → get_wasm_attr ev.attributes "_contract_address" ≡ p
      → is_approval ev.contract_type ≡ false
      → process_dao_pre_propose_event js archive ev
        ≡ (pre_propose_action js archive ev p >> pure tt)
  unfolding process_dao_pre_propose_event
  instantiation_case ev p e h a = simp (h, a)

  pointer_case :
      (ev : DaoEvent) (address p : String)
      → ev.action ≡ ""
      → get_wasm_attr ev.attributes "_contract_address" ≡ address
      → get_wasm_attr? ev.attributes "update_pre_propose_module" ≡ some p
      → process_dao_proposal_event js archive ev
        ≡ (pure tt >> update_pre_propose js archive ev address p)
  unfolding process_dao_proposal_event proposal_action when_some
  pointer_case ev address p e h u = simp (e, h, u)

  instantiation_run :
      (ev : DaoEvent) (p : String) (db : DaoDb)
      → IsInstantiation archive ev p
      → (mods : Table String DaoPreProposeModule) × (process_dao_pre_propose_event js archive ev
            (running db)
          ≡ (ok tt, running (record db { pre_propose_modules = mods })))
        × (has_row p mods ≡ true)
  unfolding pre_propose_action create_dao_pre_propose_module ask write query pure ◌>>=◌
  instantiation_run ev p db h = (
    _,
    ap (λ m. m (running db)) (instantiation_case ev p h.action h.contract h.no_approval)
        ∙ ap (λ m. (m >> pure tt) (running db)) (created ev p h.conf h.action h.answer),
    row_there p _ db.pre_propose_modules,
  )
    where
      created :
          (ev : DaoEvent) (p : String) (conf : PreProposeConfig)
          → ev.action ≡ "instantiate"
          → archive.pre_propose_config ev.block_height p ≡ ok conf
          → pre_propose_action js archive ev p
            ≡ create_dao_pre_propose_module p
                (get_wasm_attr? ev.attributes "proposal_module")
                conf
                ev.timestamp
                ev.block_height
      created ev p conf e a = simp (e, a)

      row_there :
          (p : String) (row : DaoPreProposeModule) (t : Table String DaoPreProposeModule)
          → has_row p (upsert p row (λ old. old) t) ≡ true
      row_there p row t = rw (lookup-upsert_self p row (λ old. old) t)

  pointer_run :
      (ev : DaoEvent) (address p : String) (db : DaoDb) (row : DaoProposalModule)
      (h : IsPointerEvent archive ev address p)
      → has_row p db.pre_propose_modules ≡ true
      → lookup address db.proposal_modules ≡ some row
      → (db' : DaoDb) × (process_dao_proposal_event js archive ev (running db)
          ≡ (ok tt, running db'))
        × (lookup address db'.proposal_modules
            ≡ some (record row {
              pre_propose_module = some p;
              proposal_creation_policy = h.policy.text;
            }))
  unfolding update_pre_propose update_dao_proposal_module_proposal_creation_policy ask write query
      pure ◌>>=◌
  pointer_run ev address p db row h there stored =
      let with_policy : Table String DaoProposalModule =
        update address (λ r. record r { proposal_creation_policy = h.policy.text })
          db.proposal_modules in
      (
        record db {
          proposal_modules =
              update address (λ r. record r { pre_propose_module = some p }) with_policy;
        },
        ap (λ m. m (running db)) (pointer_case ev address p h.action h.contract h.update)
            ∙ rw h.answer (
                set_pointer_run address (some p) (record db { proposal_modules = with_policy })
                  there),
        lookup-update_self address (λ r. record r { pre_propose_module = some p }) with_policy _
            (lookup-update_self address _ db.proposal_modules row stored),
      )

  -- The proposal module `address` has a row. Its new policy names a pre-propose module `p` that has
  -- none yet; then `p` is instantiated; then the proposal module reports `p`. The three events
  -- succeed in this order, whatever the answers of the queries beside the name, and the proposal
  -- module ends with the pointer to `p` and the policy of the last answer.
  pub process_dao_proposal_event-wired :
      (ev₁ ev₂ ev₃ : DaoEvent) (address p : String) (db : DaoDb) (row : DaoProposalModule)
      (h₁ : IsPolicyEvent archive ev₁ address p) (h₂ : IsInstantiation archive ev₂ p)
      (h₃ : IsPointerEvent archive ev₃ address p)
      → has_row p db.pre_propose_modules ≡ false
      → lookup address db.proposal_modules ≡ some row
      → (db' : DaoDb) × ((process_dao_proposal_event js archive ev₁
              >> process_dao_pre_propose_event js archive ev₂
              >> process_dao_proposal_event js archive ev₃)
            (running db)
          ≡ (ok tt, running db'))
        × (lookup address db'.proposal_modules
            ≡ some (record row {
              pre_propose_module = some p;
              proposal_creation_policy = h₃.policy.text;
            }))
  unfolding ◌>>=◌
  process_dao_proposal_event-wired ev₁ ev₂ ev₃ address p db row h₁ h₂ h₃ absent stored =
      let (db₁, run₁, rows₁) =
        process_dao_proposal_event-policy js archive ev₁ db address h₁.policy h₁.action h₁.contract
          h₁.no_update h₁.answer (rw h₁.names h₁.named) in
      let (mods, run₂, there) = instantiation_run ev₂ p db₁ h₂ in
      let stored₁ : lookup address db₁.proposal_modules
          ≡ some (record row { proposal_creation_policy = h₁.policy.text }) =
        rows₁ address ∙ rw (beq_refl address, stored, h₁.names, absent) in
      let (db', run₃, wired) =
        pointer_run ev₃ address p (record db₁ { pre_propose_modules = mods }) _ h₃ there stored₁ in
      (db', rw (run₁, run₂) run₃, wired)
