-- ===== src/IxoSwap.antt =====
-- postgres/ixo_swap.ts and sync_handlers/event_data_sync_wasm_ixoswap.ts: the swap pools and the
-- history of their prices. `Decimal` is third-party: what is used of it, the reading of a text and
-- the quotient, are parameters; reserves are whole numbers.
pub mod History
pub mod Isolation
use ixo_blocksync.Base.{
  ℕ, zero, suc, ◌+◌, ◌-◌, Bool, true, false, String, Option, none, some, List, [], ◌∷◌, ◌||◌, ◌==◌,
  nat_beq, nat_eq, string_eq, ltb, ◌&&◌, pair_eq, if◌then◌else◌,
}
use ixo_blocksync.Base.Table.{Table, lookup, upsert, update}
use ixo_blocksync.Pg.{Error, thrown, Exec, Action, pure, throw, query, statement, ◌>>=◌, ◌>>◌}
use ixo_blocksync.Sync.Interface.{Attribute, EventCore}
use ixo_blocksync.Attributes.{get_wasm_attr}

-- a row of ixo_swap beside its address
pub record IxoSwap : Type 0 where
  pub lp_address : String
  pub token_1155_denom : String
  pub token_1155_reserve : ℕ
  pub token_2_denom : String
  pub token_2_reserve : ℕ
  pub protocol_fee_recipient : String
  pub protocol_fee_percent : String
  pub lp_fee_percent : String
  pub max_slippage_percent : String
  pub frozen : Bool
  pub owner : String
  pub pending_owner : Option String

-- a row of ixo_swap_price_history beside its key (timestamp, address)
pub record PriceHistory (P : Type 0) : Type 0 where
  pub token_1155_price : P
  pub token_2_price : P
  pub token_1155_volume : ℕ
  pub token_2_volume : ℕ

pub record SwapDb (P : Type 0) : Type 0 where
  pub swaps : Table String IxoSwap
  pub history : Table (ℕ × String) (PriceHistory P)

-- `a.minus(b).abs()`
abbrev pub distance : ℕ → ℕ → ℕ
distance a b = (a - b) + (b - a)

-- What the model uses of `Decimal`: `new Decimal(text)`, `none` where it throws, 0 and `div`. A
-- contract gives its reserves as the digits of a natural number, which BIGINT reads as Decimal does.
pub record Decimals (P : Type 0) : Type 0 where
  pub parse : String → Option ℕ
  pub zero_price : P
  pub div : ℕ → ℕ → P

module _ {P : Type 0} (d : Decimals P) where
  -- createIxoSwapSql, refused where the address is there
  unfoldable pub create_ixo_swap : String → IxoSwap → Action (SwapDb P)
  create_ixo_swap address t = statement (λ s. elim (lookup address s.swaps) [
    | none ↦ some (tt, record s { swaps = upsert address t (λ old. t) s.swaps })
    | some _ ↦ none
  ])

  -- UPDATE ixo_swap SET … WHERE address = $1, as all of the updates of a text or a Boolean are
  unfoldable pub update_ixo_swap : String → (IxoSwap → IxoSwap) → Action (SwapDb P)
  update_ixo_swap address f = query (λ s. (tt, record s { swaps = update address f s.swaps }))

  -- DO UPDATE of insertIxoSwapPriceHistorySql
  abbrev pub add_volumes : PriceHistory P → PriceHistory P → PriceHistory P
  add_volumes new old = record new {
    token_1155_volume = old.token_1155_volume + new.token_1155_volume;
    token_2_volume = old.token_2_volume + new.token_2_volume;
  }

  -- insertIxoSwapPriceHistorySql, refused by the foreign key "address"
  unfoldable pub insert_price_row : ℕ → String → PriceHistory P → Action (SwapDb P)
  insert_price_row timestamp address p = statement (λ s. elim (lookup address s.swaps) [
    | none ↦ none
    | some _ ↦
        some (tt, record s { history = upsert (timestamp, address) p (add_volumes p) s.history })
  ])

  -- the row that the reserves give; `old` where the old reserves are given, which node-postgres
  -- hands over as texts, so that a "0" is given too
  abbrev pub price_row : ℕ → ℕ → Option (ℕ × ℕ) → PriceHistory P
  price_row reserve_1155 reserve_2 old = record {
    token_1155_price =
        if nat_beq reserve_1155 0 || nat_beq reserve_2 0
        then d.zero_price
        else d.div reserve_2 reserve_1155;
    token_2_price =
        if nat_beq reserve_1155 0 || nat_beq reserve_2 0
        then d.zero_price
        else d.div reserve_1155 reserve_2;
    token_1155_volume = elim old [ none ↦ 0 | some o ↦ distance o.0 reserve_1155 ];
    token_2_volume = elim old [ none ↦ 0 | some o ↦ distance o.1 reserve_2 ];
  }

  -- SET of updateIxoSwapReservesSql
  abbrev pub set_reserves : ℕ → ℕ → IxoSwap → IxoSwap
  set_reserves reserve_1155 reserve_2 t = record t {
    token_1155_reserve = reserve_1155;
    token_2_reserve = reserve_2;
  }

  -- updateIxoSwapReservesSql, refused where a BIGINT column does not take its reserve
  unfoldable pub update_ixo_swap_reserves : String → ℕ → ℕ → Action (SwapDb P)
  unfolding update_ixo_swap
  update_ixo_swap_reserves address reserve_1155 reserve_2 =
      if ltb reserve_1155 9223372036854775808 && ltb reserve_2 9223372036854775808
      then update_ixo_swap address (set_reserves reserve_1155 reserve_2)
      else statement (λ s. none)

  -- `insertIxoSwapPriceHistory` from its queries on
  unfoldable pub record_reserves : String → ℕ → ℕ → ℕ → Option (ℕ × ℕ) → Action (SwapDb P)
  record_reserves address timestamp reserve_1155 reserve_2 old = do
    insert_price_row timestamp address (price_row reserve_1155 reserve_2 old)
    update_ixo_swap_reserves address reserve_1155 reserve_2

  -- `insertIxoSwapPriceHistory`
  unfoldable pub insert_ixo_swap_price_history :
      String → ℕ → String → String → Option (ℕ × ℕ) → Action (SwapDb P)
  insert_ixo_swap_price_history address timestamp reserve_1155 reserve_2 old =
      elim (d.parse reserve_1155) [
        | none ↦ throw (thrown "DecimalError")
        | some r ↦ elim (d.parse reserve_2) [
          | none ↦ throw (thrown "DecimalError")
          | some s ↦ record_reserves address timestamp r s old
        ]
      ]

  -- `processIxoSwapEvent`; of `ixoSwap` it reads the reserves
  unfoldable pub process_ixo_swap_event :
      EventCore → String → String → ℕ → ℕ × ℕ → Action (SwapDb P)
  process_ixo_swap_event event action address timestamp reserves =
      let attr = get_wasm_attr event.attributes in
      if action == "instantiate-lp-token"
      then update_ixo_swap address
          (λ t. record t { lp_address = attr "liquidity_pool_token_address" })
      else if action == "freeze-deposits"
      then update_ixo_swap address (λ t. record t { frozen = attr "frozen" == "true" })
      else if action == "transfer-ownership"
      then update_ixo_swap address (λ t. record t { pending_owner = some (attr "pending_owner") })
      else if action == "claim-ownership"
      then update_ixo_swap address (λ t. record t { owner = attr "owner"; pending_owner = none })
      else if action == "update-slippage"
      then update_ixo_swap address
          (λ t. record t { max_slippage_percent = attr "max_slippage_percent" })
      else if action == "update-fee"
      then update_ixo_swap address (λ t. record t {
        lp_fee_percent = attr "lp_fee_percent";
        protocol_fee_percent = attr "protocol_fee_percent";
        protocol_fee_recipient = attr "protocol_fee_recipient";
      })
      else if action == "add-liquidity" || action == "remove-liquidity"
      then insert_ixo_swap_price_history address timestamp (attr "token1155_reserve")
          (attr "token2_reserve") none
      else if action == "cross-contract-swap" || action == "swap"
      then insert_ixo_swap_price_history address timestamp (attr "token1155_reserve")
          (attr "token2_reserve") (some reserves)
      else throw (thrown "Unknown action for ixo-swap")

  -- `processIxoSwapInstantiate`
  unfoldable pub process_ixo_swap_instantiate : EventCore → String → Action (SwapDb P)
  process_ixo_swap_instantiate event address =
      let attr = get_wasm_attr event.attributes in
      create_ixo_swap address (record {
        lp_address = "";
        token_1155_denom = attr "token_1155_denom";
        token_1155_reserve = 0;
        token_2_denom = attr "token_2_denom";
        token_2_reserve = 0;
        protocol_fee_recipient = attr "protocol_fee_recipient";
        protocol_fee_percent = attr "protocol_fee_percent";
        lp_fee_percent = attr "lp_fee_percent";
        max_slippage_percent = attr "max_slippage_percent";
        frozen = false;
        owner = attr "owner";
        pending_owner = none;
      })

  -- getIxoSwapReservesSql
  unfoldable pub get_ixo_swap_reserves : String → Exec (SwapDb P) (Option (ℕ × ℕ))
  get_ixo_swap_reserves address = query (λ s. (
    elim (lookup address s.swaps) [
      | none ↦ none
      | some t ↦ some (t.token_1155_reserve, t.token_2_reserve)
    ],
    s,
  ))

  -- the ixo-swap part of `syncWasmEventData`: a contract that is no swap pool is left to the rest
  abbrev pub process_where_pool :
      EventCore → String → String → ℕ → Option (ℕ × ℕ) → Action (SwapDb P)
  process_where_pool event action address timestamp none = pure tt
  process_where_pool event action address timestamp (some reserves) =
      process_ixo_swap_event event action address timestamp reserves

  unfoldable pub sync_ixo_swap : EventCore → String → String → ℕ → Action (SwapDb P)
  sync_ixo_swap event action address timestamp =
      get_ixo_swap_reserves address >>= process_where_pool event action address timestamp
