-- ===== src/Tests/TokenEvents.antt =====
-- The theorem on the token branch at one transfer.
use ixo_blocksync.Base.{
  ◌≡◌, refl, String, Option, none, some, List, [], ◌∷◌, ◌++◌, ◌==◌, ◌+◌, ◌<◌, Bool, true, false,
  arith, string_eq, pair_eq, if◌then◌else◌,
}
use ixo_blocksync.Base.Int.{ℤ, pos}
use ixo_blocksync.Base.Table.{lookup}
use ixo_blocksync.Pg.{ok, running}
use ixo_blocksync.Sync.Interface.{Attribute}
use ixo_blocksync.Attributes.{get_wasm_attr, split_attributes_by_key_value}
use ixo_blocksync.Token.{TokenTransaction, Ledger}
use ixo_blocksync.Token.Spec.{holdings, having}
use ixo_blocksync.Token.Volume.{volume}
use ixo_blocksync.Token.Balances.{IsSynced}
use ixo_blocksync.TokenEvents.{is_unrelated, transaction_of, sync_token_event}
use ixo_blocksync.TokenEvents.Transfers.{Reading, transactions_of, sync_token_event-IsSynced}

abbrev five : String → Option ℤ
five s = if s == "5" then some (pos 5) else none

abbrev attribute : String → String → Attribute
attribute key value = record { key = key; value = value }

abbrev transfer_message : List Attribute
transfer_message =
    attribute "action" "transfer"
    ∷ attribute "amount" "5"
    ∷ attribute "from" "a"
    ∷ attribute "to" "b"
    ∷ attribute "token_id" "t1"
    ∷ []

abbrev transfer : TokenTransaction
transfer = record { sender = "a"; to = "b"; amount = pos 5; token_id = "t1" }

abbrev readings : List Reading
readings = (transfer_message, some transfer) ∷ []

abbrev new_ledger : Ledger
new_ledger = record { tokens = ("t1", tt) ∷ []; transactions = []; balances = [] }

new_ledger-IsSynced : IsSynced new_ledger
unfolding lookup holdings having
new_ledger-IsSynced = record { unique = tt; agrees = λ a k. refl }

transfer_is_small : (k : String) → volume k (transactions_of readings) < 9223372036854775808
unfolding volume
transfer_is_small k = small ("t1" == k)
  where
    small : (b : Bool) → (if b then 5 + 0 + 0 else 0) < 9223372036854775808
    small true = omega arith
    small false = omega arith

sync_token_event-IsSynced_example :
    (s' : Ledger) × (sync_token_event five
        (attribute "_contract_address" "c" ∷ transfer_message)
        (running new_ledger)
      ≡ (ok none, running s'))
    × (s'.transactions ≡ [] ++ transactions_of readings)
    × IsSynced s'
unfolding lookup is_unrelated transaction_of get_wasm_attr split_attributes_by_key_value
sync_token_event-IsSynced_example =
    sync_token_event-IsSynced five (attribute "_contract_address" "c" ∷ transfer_message) readings
      new_ledger refl new_ledger-IsSynced ((refl, refl, refl, refl), tt) transfer_is_small
