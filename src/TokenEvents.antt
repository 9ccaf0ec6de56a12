-- ===== src/TokenEvents.antt =====
-- The token branch of sync_handlers/event_data_sync_wasm.ts: the messages of an event of a token
-- class contract, posted or left to run after the next event. `big_int` is JavaScript's `BigInt`
-- on a text, `none` where it throws.
pub mod Transfers
use ixo_blocksync.Base.{
  Bool, String, Option, none, some, List, [], ◌∷◌, ◌&&◌, ◌||◌, ◌==◌, string_eq, if◌then◌else◌,
}
use ixo_blocksync.Base.Int.{ℤ}
use ixo_blocksync.Pg.{thrown, Exec, pure, throw, ◌>>=◌}
use ixo_blocksync.Sync.Interface.{Attribute}
use ixo_blocksync.Attributes.{get_wasm_attr, split_attributes_by_key_value}
use ixo_blocksync.Events.{DelayedFunction}
use ixo_blocksync.Token.{TokenTransaction, Ledger, create_token_transaction}

-- the two tests with `continue`
unfoldable pub is_unrelated : List Attribute → Bool
is_unrelated message =
    let sender = get_wasm_attr message "from" in
    let to = get_wasm_attr message "to" in (sender == "" && to == "") || sender == to

module _ (big_int : String → Option ℤ) where
  -- `tokenTransaction`; `getWasmAttr` gives "" and not undefined, so that `?? 0` has no effect
  unfoldable pub transaction_of : List Attribute → Option TokenTransaction
  transaction_of message = elim (big_int (get_wasm_attr message "amount")) [
    | none ↦ none
    | some amount ↦ some (record {
      sender = get_wasm_attr message "from";
      to = get_wasm_attr message "to";
      amount = amount;
      token_id = get_wasm_attr message "token_id";
    })
  ]

  -- the end of the loop's body; a mint returns from the handler
  unfoldable pub post_message :
      Option TokenTransaction
      → Exec Ledger (Option (DelayedFunction Ledger))
      → Exec Ledger (Option (DelayedFunction Ledger))
  post_message none rest = throw (thrown "SyntaxError")
  post_message (some t) rest =
      if t.sender == ""
      then pure (some (record { skip = 1; func = create_token_transaction t }))
      else create_token_transaction t >>= λ _. rest

  -- the loop over the messages
  unfoldable pub sync_token_messages :
      List (List Attribute) → Exec Ledger (Option (DelayedFunction Ledger))
  sync_token_messages [] = pure none
  sync_token_messages (message ∷ messages) =
      let rest = sync_token_messages messages in
      if is_unrelated message then rest else post_message (transaction_of message) rest

  -- the branch of a contract that is a token class
  unfoldable pub sync_token_event : List Attribute → Exec Ledger (Option (DelayedFunction Ledger))
  sync_token_event attributes = elim (split_attributes_by_key_value attributes) [
    | none ↦ throw (thrown "TypeError")
    | some messages ↦ sync_token_messages messages
  ]
