-- ===== src/Tests/Wasm.antt =====
-- The cosmwasm events at concrete data.
use ixo_blocksync.Base.{
  ◌≡◌, refl, ℕ, ◌<◌, false, String, none, some, [], ◌∷◌, ◌==◌, arith, string_eq, inl, if◌then◌else◌,
}
use ixo_blocksync.Base.Table.{Table, lookup}
use ixo_blocksync.Pg.{ok, running, Action, pure, ◌>>=◌, ◌>>◌}
use ixo_blocksync.Sync.Interface.{EventCore, BlockCore}
use ixo_blocksync.Attributes.{get_wasm_attr, get_wasm_attr?}
use ixo_blocksync.Events.{sync_events, sync_events_from}
use ixo_blocksync.Wasm.{
  WasmInstantiate, WasmDb, Setting, type_of_row, update_entity_owner, get_cached_token_class,
  sync_dao_event, sync_wasm_event_data,
}
use ixo_blocksync.Wasm.Cache.{IsCoherent, get_cached_token_class-IsCoherent}
use ixo_blocksync.Wasm.Types.{IsOfDao, sync_wasm_event_data-migrate}
use ixo_blocksync.Wasm.Owners.{handle, sync_events-mint}
use ixo_blocksync.Tests.DaoStakes.{exact_js, silent, empty_db}

abbrev setting : Setting ℕ
setting = record {
  js = exact_js;
  big_int = λ text. none;
  decimals = record { parse = λ text. none; zero_price = 0; div = λ a b. 0 };
  archive = silent;
  includes = λ m part. false;
  contract_type = λ n. some "dao_core";
  cutoff_height = 0;
  entity_contract = "e";
  token_classes = ("c", "c") ∷ [];
}

abbrev contract : WasmInstantiate
contract = record { code_id = 1; created_at = 1; block_height = 1; msg_index = none }

abbrev wasm_db : WasmDb ℕ
wasm_db = record {
  ledger = record { tokens = []; transactions = []; balances = [] };
  swaps = record { swaps = []; history = [] };
  dao = empty_db;
  contracts = ("d", contract) ∷ [];
  owners = ("t", none) ∷ [];
  token_class_cache = [];
}

abbrev block : BlockCore
block = record { height = 3; time = 9; transactions = []; events = [] }

empty_cache : IsCoherent wasm_db.token_class_cache setting.token_classes
unfolding lookup
empty_cache k = inl refl

get_cached_token_class-IsCoherent_example :
    (cache : Table String String) × (get_cached_token_class setting.token_classes "c"
        (running wasm_db)
      ≡ (
        ok (lookup "c" setting.token_classes),
        running (record wasm_db { token_class_cache = cache }),
      ))
    × IsCoherent cache setting.token_classes
get_cached_token_class-IsCoherent_example =
    get_cached_token_class-IsCoherent setting.token_classes "c" wasm_db empty_cache

abbrev migrated : String
migrated = "d"

abbrev migration : EventCore
migration = record {
  type = "migrate";
  attributes =
      record { key = "_contract_address"; value = "d" }
      ∷ record { key = "code_id"; value = "5" }
      ∷ [];
  transaction_hash = "h";
}

zero_below : 0 < 5
zero_below = omega arith

five_below : 5 < 2147483648
five_below = omega arith

abbrev proposing : EventCore
proposing = record {
  type = "wasm";
  attributes =
      record { key = "_contract_address"; value = "d" }
      ∷ record { key = "action"; value = "execute_proposal_hook" }
      ∷ [];
  transaction_hash = "h";
}

is_of_dao : IsOfDao setting wasm_db proposing migrated
unfolding get_wasm_attr lookup
is_of_dao = record {
  contract = refl;
  no_instantiate = refl;
  no_migrate = refl;
  no_entity = refl;
  not_cached = refl;
  no_class = refl;
  no_pool = refl;
  no_new_pool = refl;
}

sync_wasm_event_data-migrate_example :
    (s' : WasmDb ℕ) × (sync_wasm_event_data setting migration block (running wasm_db)
      ≡ (ok none, running s'))
    × (sync_wasm_event_data setting proposing block (running s')
        ≡ sync_dao_event setting proposing block
            (get_wasm_attr proposing.attributes "action")
            (if migrated == migrated
              then setting.contract_type 5
              else type_of_row setting.contract_type (lookup migrated wasm_db.contracts))
            (running s'))
unfolding get_wasm_attr get_wasm_attr? lookup
sync_wasm_event_data-migrate_example =
    sync_wasm_event_data-migrate setting migration proposing block block wasm_db migrated migrated 5
      contract refl refl refl refl zero_below five_below refl is_of_dao

abbrev mint : EventCore
mint = record {
  type = "wasm";
  attributes =
      record { key = "_contract_address"; value = "e" }
      ∷ record { key = "action"; value = "mint" }
      ∷ record { key = "owner"; value = "ann" }
      ∷ record { key = "token_id"; value = "t" }
      ∷ [];
  transaction_hash = "h";
}

abbrev created : String → EventCore
created type = record { type = type; attributes = []; transaction_hash = "h" }

abbrev ignore : EventCore → Action (WasmDb ℕ)
unfolding pure
ignore event = pure tt

sync_events-mint_example :
    sync_events
      (handle setting block ignore)
      (mint ∷ created "iid" ∷ created "entity" ∷ [])
      (running wasm_db)
    ≡ (handle setting block ignore (created "iid")
          >> pure tt
          >> (handle setting block ignore (created "entity") >>= λ res.
              update_entity_owner
                (get_wasm_attr mint.attributes "token_id")
                (get_wasm_attr mint.attributes "owner")
              >> sync_events_from (handle setting block ignore) res []))
        (running wasm_db)
unfolding get_wasm_attr get_wasm_attr?
sync_events-mint_example =
    sync_events-mint setting block ignore mint (created "iid") (created "entity") []
      (running wasm_db) refl refl refl
