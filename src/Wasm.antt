-- ===== src/Wasm.antt =====
-- sync_handlers/event_data_sync_wasm.ts: the cosmwasm events and the handler each goes to, with
-- postgres/wasm.ts, the contract's type of postgres/dao.ts, the owner of an entity
-- (postgres/entity.ts), and the cache of token classes of util/local-cache.ts.
pub mod Cache
pub mod Types
pub mod Owners
use ixo_blocksync.Base.{
  ℕ, ◌<◌, Bool, true, false, String, Option, none, some, List, ◌==◌, ◌&&◌, not, string_eq, ltb,
  if◌then◌else◌,
}
use ixo_blocksync.Base.Int.{ℤ, pos, negsuc}
use ixo_blocksync.Base.Table.{Table, lookup, upsert, update}
use ixo_blocksync.Numbers.{Number, nan, integer, Arithmetic}
use ixo_blocksync.Pg.{ok, Exec, Action, pure, query, statement, ◌>>=◌, ◌>>◌}
use ixo_blocksync.Sync.Interface.{EventCore, BlockCore}
use ixo_blocksync.Sync.Assembly.{zoom}
use ixo_blocksync.Attributes.{get_wasm_attr, get_wasm_attr?}
use ixo_blocksync.Events.{DelayedFunction}
use ixo_blocksync.Token.{Ledger}
use ixo_blocksync.TokenEvents.{sync_token_event}
use ixo_blocksync.IxoSwap.{
  Decimals, SwapDb, get_ixo_swap_reserves, process_ixo_swap_event, process_ixo_swap_instantiate,
}
use ixo_blocksync.Dao.{DaoDb}
use ixo_blocksync.Dao.Archive.{Archive}
use ixo_blocksync.Dao.Dispatch.{process_dao_event, process_daodao_instantiate_event}

-- a row of wasm_instantiate beside its address
pub record WasmInstantiate : Type 0 where
  pub code_id : ℕ
  pub created_at : ℕ
  pub block_height : ℕ
  pub msg_index : Option ℕ

-- the tables of the handlers, the owners of the entities, and the cache
pub record WasmDb (P : Type 0) : Type 0 where
  pub ledger : Ledger
  pub swaps : SwapDb P
  pub dao : DaoDb
  pub contracts : Table String WasmInstantiate
  pub owners : Table String (Option String)
  pub token_class_cache : Table String String

-- What comes from outside: the language, the archive node, the configuration; `contract_type` is
-- DAODAO_CONTRACT_CODE_IDS, and `token_classes` the committed table "TokenClass", which the pool
-- reads and the transaction of the block does not change for it.
pub record Setting (P : Type 0) : Type 0 where
  pub js : Arithmetic
  pub big_int : String → Option ℤ
  pub decimals : Decimals P
  pub archive : Archive
  pub includes : String → String → Bool
  pub contract_type : ℕ → Option String
  pub cutoff_height : ℕ
  pub entity_contract : String
  pub token_classes : Table String String

-- `getWasmAttr(…) || "0"`
abbrev pub or_zero_text : Option String → String
or_zero_text none = "0"
or_zero_text (some text) = text

-- a Number that an INTEGER column takes; ids and indices are never negative
abbrev pub integer_column : Number → Option ℕ
integer_column nan = none
integer_column (integer (negsuc n)) = none
integer_column (integer (pos n)) = if ltb n 2147483648 then some n else none

-- `DAODAO_CONTRACT_CODE_IDS.get(codeId) || ""`
abbrev pub type_of_code : (ℕ → Option String) → Number → String
type_of_code types nan = ""
type_of_code types (integer (negsuc n)) = ""
type_of_code types (integer (pos n)) = elim (types n) [ none ↦ "" | some t ↦ t ]

-- `codeId > 0`
abbrev pub is_positive : Number → Bool
is_positive nan = false
is_positive (integer (negsuc n)) = false
is_positive (integer (pos n)) = ltb 0 n

-- `msgIndex ? parseInt(msgIndex) : null`, `none` where the column refuses it
abbrev pub optional_column : Arithmetic → Option String → Option (Option ℕ)
optional_column js none = some none
optional_column js (some text) = elim (integer_column (js.parse_int text)) [
  | none ↦ none
  | some n ↦ some (some n)
]

abbrev pub type_of_row : (ℕ → Option String) → Option WasmInstantiate → Option String
type_of_row types none = none
type_of_row types (some row) = types row.code_id

module _ {P : Type 0} where
  -- `createWasmInstantiate`, refused where a column does not take its value
  unfoldable pub create_wasm_instantiate :
      String → Option ℕ → Option (Option ℕ) → ℕ → ℕ → Action (WasmDb P)
  create_wasm_instantiate address none index created_at height = statement (λ s. none)
  create_wasm_instantiate address (some code) none created_at height = statement (λ s. none)
  create_wasm_instantiate address (some code) (some index) created_at height = query (λ s. (
    tt,
    record s {
      contracts =
          upsert address
            (record {
              code_id = code;
              created_at = created_at;
              block_height = height;
              msg_index = index;
            })
            (λ old. old) s.contracts;
    },
  ))

  unfoldable pub update_wasm_contract_code_id : String → Option ℕ → Action (WasmDb P)
  update_wasm_contract_code_id address none = statement (λ s. none)
  update_wasm_contract_code_id address (some code) = query (λ s. (
    tt,
    record s { contracts = update address (λ row. record row { code_id = code }) s.contracts },
  ))

  unfoldable pub update_entity_owner : String → String → Action (WasmDb P)
  update_entity_owner id owner =
      query (λ s. (tt, record s { owners = update id (λ old. some owner) s.owners }))

  abbrev pub with_cached : String → String → WasmDb P → WasmDb P
  with_cached address found s = record s {
    token_class_cache = upsert address found (λ old. found) s.token_class_cache;
  }

  -- `getCachedTokenClassContractAddress` of an address, over the committed classes, which it asks the
  -- pool for, so that it answers in a failed transaction too
  unfoldable pub get_cached_token_class :
      Table String String → String → Exec (WasmDb P) (Option String)
  get_cached_token_class classes address tx = elim (lookup address tx.db.token_class_cache) [
    | some hit ↦ (ok (some hit), tx)
    | none ↦ elim (lookup address classes) [
      | none ↦ (ok none, tx)
      | some found ↦ (ok (some found), record tx { db = with_cached address found tx.db })
    ]
  ]

  -- `getDaoContractInfo`
  unfoldable pub get_dao_contract_info :
      (ℕ → Option String) → String → Exec (WasmDb P) (Option String)
  get_dao_contract_info types address =
      query (λ s. (type_of_row types (lookup address s.contracts), s))

  abbrev pub on_ledger : {A : Type 0} → Exec Ledger A → Exec (WasmDb P) A
  unfolding zoom
  on_ledger = zoom (λ s. s.ledger) (λ t s. record s { ledger = t })

  abbrev pub on_swaps : {A : Type 0} → Exec (SwapDb P) A → Exec (WasmDb P) A
  unfolding zoom
  on_swaps = zoom (λ s. s.swaps) (λ t s. record s { swaps = t })

  abbrev pub on_dao : {A : Type 0} → Exec DaoDb A → Exec (WasmDb P) A
  unfolding zoom
  on_dao = zoom (λ s. s.dao) (λ t s. record s { dao = t })

  -- a delayed function of the ledger
  abbrev pub delayed_on_ledger :
      Option (DelayedFunction Ledger) → Option (DelayedFunction (WasmDb P))
  delayed_on_ledger none = none
  delayed_on_ledger (some d) = some (record { skip = d.skip; func = on_ledger d.func })

module _ {P : Type 0} (set : Setting P) where
  abbrev pub Handler : Type 0
  Handler = Exec (WasmDb P) (Option (DelayedFunction (WasmDb P)))

  -- the branch "Wasm Instantiate"
  unfoldable pub instantiate_contract : EventCore → BlockCore → String → Handler
  unfolding pure ◌>>=◌
  instantiate_contract event block address = do
    let code = set.js.parse_int (or_zero_text (get_wasm_attr? event.attributes "code_id"))
    create_wasm_instantiate address (integer_column code)
        (optional_column set.js (get_wasm_attr? event.attributes "msg_index")) block.time
        block.height
    on_dao (
        process_daodao_instantiate_event set.js set.archive set.cutoff_height address
          (type_of_code set.contract_type code) block.height)
    pure none

  -- the branch "Wasm Migrate"
  unfoldable pub migrate_contract : EventCore → String → Handler
  unfolding pure ◌>>=◌
  migrate_contract event address =
      let code = set.js.parse_int (or_zero_text (get_wasm_attr? event.attributes "code_id")) in
      if not (address == "") && is_positive code
      then (update_wasm_contract_code_id address (integer_column code) >> pure none)
      else pure none

  -- the branch "Entity Module"
  unfoldable pub sync_entity_event : EventCore → String → Handler
  unfolding pure ◌>>=◌
  sync_entity_event event action =
      let attr = get_wasm_attr event.attributes in
      if action == "mint"
      then pure
          (some (record { skip = 2; func = update_entity_owner (attr "token_id") (attr "owner") }))
      else if action == "transfer_nft"
      then (update_entity_owner (attr "token_id") (attr "recipient") >> pure none)
      else pure none

  -- the branch "DAO DAO Contracts", with the type that `getDaoContractInfo` found
  unfoldable pub sync_dao_event : EventCore → BlockCore → String → Option String → Handler
  unfolding pure ◌>>=◌
  sync_dao_event event block action none = pure none
  sync_dao_event event block action (some type) =
      on_dao (
        process_dao_event set.js set.archive set.cutoff_height set.includes (record {
          attributes = event.attributes;
          timestamp = block.time;
          contract_type = type;
          block_height = block.height;
          action = if action == "" then get_wasm_attr event.attributes "method" else action;
        }))
      >> pure none

  -- the branches after the pool's reserves
  unfoldable pub sync_pool_event :
      EventCore → BlockCore → String → String → Option (ℕ × ℕ) → Handler
  unfolding pure ◌>>=◌
  sync_pool_event event block address action (some reserves) =
      on_swaps (process_ixo_swap_event set.decimals event action address block.time reserves)
      >> pure none
  sync_pool_event event block address action none =
      let code = set.js.parse_int (or_zero_text (get_wasm_attr? event.attributes "code_id")) in
      let index = set.js.parse_int (or_zero_text (get_wasm_attr? event.attributes "msg_index")) in
      if action == "instantiate-ixo-swap"
      then (on_swaps (process_ixo_swap_instantiate set.decimals event address)
          >> create_wasm_instantiate address (integer_column code)
              (elim (integer_column index) [ none ↦ none | some n ↦ some (some n) ]) block.time
              block.height
          >> pure none)
      else (get_dao_contract_info set.contract_type address >>= sync_dao_event event block action)

  -- the branches after the token class
  unfoldable pub sync_class_event :
      EventCore → BlockCore → String → String → Option String → Handler
  unfolding pure ◌>>=◌
  sync_class_event event block address action (some class) = do
    delayed ← on_ledger (sync_token_event set.big_int event.attributes)
    pure (delayed_on_ledger delayed)
  sync_class_event event block address action none = do
    reserves ← on_swaps (get_ixo_swap_reserves set.decimals address)
    sync_pool_event event block address action reserves

  -- `syncWasmEventData`
  unfoldable pub sync_wasm_event_data : EventCore → BlockCore → Handler
  unfolding ◌>>=◌
  sync_wasm_event_data event block =
      let address = get_wasm_attr event.attributes "_contract_address" in
      let action = get_wasm_attr event.attributes "action" in
      let class_branches =
        get_cached_token_class set.token_classes address
        >>= sync_class_event event block address action in
      if event.type == "instantiate"
      then instantiate_contract event block address
      else if event.type == "migrate"
      then migrate_contract event address
      else if address == set.entity_contract
      then sync_entity_event event action
      else class_branches
