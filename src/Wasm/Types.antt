-- ===== src/Wasm/Types.antt =====
-- The type by which a contract's events are handled: the code id that its instantiation or its last
-- migration stored.
use ixo_blocksync.Base.{
  ◌≡◌, refl, ◌∙◌, ap, ℕ, ◌<◌, true, false, String, none, some, arith, string_eq, ◌==◌, ltb, inl,
  inr, Bool-cases, if◌then◌else◌,
}
use ixo_blocksync.Base.Int.{pos}
use ixo_blocksync.Base.Table.{Table, lookup, update, lookup-update}
use ixo_blocksync.Numbers.{integer}
use ixo_blocksync.Pg.{ok, running, query, pure, ◌>>=◌}
use ixo_blocksync.Sync.Interface.{EventCore, BlockCore}
use ixo_blocksync.Attributes.{get_wasm_attr, get_wasm_attr?}
use ixo_blocksync.Sync.Assembly.{zoom}
use ixo_blocksync.IxoSwap.{get_ixo_swap_reserves}
use ixo_blocksync.Wasm.{
  get_cached_token_class, sync_class_event, sync_pool_event, sync_dao_event, WasmInstantiate,
  WasmDb, Setting, or_zero_text, type_of_row, update_wasm_contract_code_id, get_dao_contract_info,
  migrate_contract, sync_wasm_event_data,
}

module _ {P : Type 0} (set : Setting P) where
  migrate_case :
      (event : EventCore) (block : BlockCore)
      → event.type ≡ "migrate"
      → sync_wasm_event_data set event block
        ≡ migrate_contract set event (get_wasm_attr event.attributes "_contract_address")
  unfolding sync_wasm_event_data
  migrate_case event block e = simp e

  -- An event that none of the branches before "DAO DAO Contracts" takes.
  pub record IsOfDao (s : WasmDb P) (event : EventCore) (address : String) : Type 0 where
    pub contract : get_wasm_attr event.attributes "_contract_address" ≡ address
    pub no_instantiate : (event.type == "instantiate") ≡ false
    pub no_migrate : (event.type == "migrate") ≡ false
    pub no_entity : (address == set.entity_contract) ≡ false
    pub not_cached : lookup address s.token_class_cache ≡ none
    pub no_class : lookup address set.token_classes ≡ none
    pub no_pool : lookup address s.swaps.swaps ≡ none
    pub no_new_pool : (get_wasm_attr event.attributes "action" == "instantiate-ixo-swap") ≡ false

  -- such an event is handled by the type of the stored code id
  sync_wasm_event_data-typed :
      (event : EventCore) (block : BlockCore) (s : WasmDb P) (address : String)
      → IsOfDao s event address
      → sync_wasm_event_data set event block (running s)
        ≡ sync_dao_event set event block
            (get_wasm_attr event.attributes "action")
            (type_of_row set.contract_type (lookup address s.contracts))
            (running s)
  unfolding sync_wasm_event_data sync_class_event sync_pool_event get_cached_token_class
      get_dao_contract_info get_ixo_swap_reserves zoom query pure ◌>>=◌ lookup sync_dao_event
  sync_wasm_event_data-typed event block s address h =
      rw
        (
          h.no_instantiate, h.no_migrate, h.contract, h.no_entity, h.not_cached, h.no_class,
          h.no_pool, h.no_new_pool,
        )
        refl

  typed :
      (address other : String) (code : ℕ) (row : WasmInstantiate) (t : Table String WasmInstantiate)
      → lookup address t ≡ some row
      → type_of_row set.contract_type
          (lookup other (update address (λ r. record r { code_id = code }) t))
        ≡ (if address == other
            then set.contract_type code
            else type_of_row set.contract_type (lookup other t))
  typed address other code row t there =
      rw (lookup-update address other (λ r. record r { code_id = code }) t)
        (elim (Bool-cases (address == other)) [ inl e ↦ rw (e, there) | inr e ↦ rw e ])

  above : (n : ℕ) → 0 < n → ltb 0 n ≡ true
  above n p = ground (arith, p)

  below : (n : ℕ) → n < 2147483648 → ltb n 2147483648 ≡ true
  below n p = ground (arith, p)

  -- A migration of an indexed contract to a code id from 1 to 2 ^ 31 - 1 succeeds. The event right
  -- after it, of the same contract or of another one, that is none of an instantiation, a
  -- migration, the entity contract, a token class or a pool, is handled as one of a DAO contract: of
  -- the type of the new code where the contract is the migrated one, and of the type that it had
  -- before where it is another.
  pub sync_wasm_event_data-migrate :
      (event next : EventCore) (block block' : BlockCore) (s : WasmDb P) (address other : String)
      (code : ℕ) (row : WasmInstantiate)
      → event.type ≡ "migrate"
      → get_wasm_attr event.attributes "_contract_address" ≡ address
      → (address == "") ≡ false
      → set.js.parse_int (or_zero_text (get_wasm_attr? event.attributes "code_id"))
        ≡ integer (pos code)
      → 0 < code
      → code < 2147483648
      → lookup address s.contracts ≡ some row
      → IsOfDao s next other
      → (s' : WasmDb P) × (sync_wasm_event_data set event block (running s) ≡ (ok none, running s'))
        × (sync_wasm_event_data set next block' (running s')
            ≡ sync_dao_event set next block'
                (get_wasm_attr next.attributes "action")
                (if address == other
                  then set.contract_type code
                  else type_of_row set.contract_type (lookup other s.contracts))
                (running s'))
  unfolding migrate_contract update_wasm_contract_code_id query pure ◌>>=◌
  sync_wasm_event_data-migrate event next block block' s address other code row e h named hc
        positive small there dao =
      let s' = record s {
        contracts = update address (λ r. record r { code_id = code }) s.contracts;
      } in
      (
        s',
        ap (λ m. m (running s)) (migrate_case event block e)
            ∙ rw (h, named, hc, above code positive, below code small),
        sync_wasm_event_data-typed next block' s' other (record {
          contract = dao.contract;
          no_instantiate = dao.no_instantiate;
          no_migrate = dao.no_migrate;
          no_entity = dao.no_entity;
          not_cached = dao.not_cached;
          no_class = dao.no_class;
          no_pool = dao.no_pool;
          no_new_pool = dao.no_new_pool;
        })
            ∙ ap
                (λ type.
                  sync_dao_event set next block' (get_wasm_attr next.attributes "action") type
                    (running s'))
                (typed address other code row s.contracts there),
      )
