-- ===== src/Tests/Events.antt =====
-- The theorems on sync_handlers/event_sync.ts and util/helpers.ts at small inputs.
use ixo_blocksync.Base.{
  ◌≡◌, refl, String, Option, none, some, List, [], ◌∷◌, ◌++◌, All, replicate, nat_eq, string_eq,
}
use ixo_blocksync.Pg.{running, Exec, Action, query, ◌>>=◌, ◌>>◌}
use ixo_blocksync.Sync.Interface.{Attribute, EventCore}
use ixo_blocksync.Events.{DelayedFunction, sync_events_from}
use ixo_blocksync.Events.Delays.{waiting, handle_all, sync_events_from_due}
use ixo_blocksync.Attributes.{split_attributes_by_key_value}
use ixo_blocksync.Attributes.Sequential.{IsMessage, split_attributes_by_key_value_sequential}
use ixo_blocksync.Attributes.Alphabetical.{messages, split_attributes_by_key_value_alphabetical}
use mathlib.Core.List.{flatten}

abbrev event : String → EventCore
event type = record { type = type; attributes = []; transaction_hash = "" }

-- a handler that records the types of the events
abbrev record_type : EventCore → Exec (List String) (Option (DelayedFunction (List String)))
record_type e = query (λ s. (none, s ++ e.type ∷ []))

abbrev record_late : Action (List String)
record_late = query (λ s. (tt, s ++ "late" ∷ []))

sync_events_from_due_example :
    sync_events_from record_type
      (waiting 2 record_late)
      (event "a" ∷ event "b" ∷ event "c" ∷ [])
      (running [])
    ≡ (handle_all record_type (event "a" ∷ [])
          >> (record_type (event "b") >>= λ res.
              record_late >> sync_events_from record_type res (event "c" ∷ [])))
        (running [])
sync_events_from_due_example =
    sync_events_from_due record_type (event "a" ∷ []) (event "c" ∷ []) (event "b") record_late
      (running [])

abbrev attr : String → String → Attribute
attr key value = record { key = key; value = value }

split_attributes_by_key_value_sequential_example :
    (groups : List (List Attribute)) × (split_attributes_by_key_value (
        attr "_contract_address" "c"
        ∷ attr "action" "mint"
        ∷ attr "to" "x"
        ∷ attr "action" "burn"
        ∷ attr "from" "x"
        ∷ [])
      ≡ some groups)
    × (flatten groups
        ≡ attr "action" "mint" ∷ attr "to" "x" ∷ attr "action" "burn" ∷ attr "from" "x" ∷ [])
    × All IsMessage groups
split_attributes_by_key_value_sequential_example =
    split_attributes_by_key_value_sequential (attr "_contract_address" "c") (attr "action" "mint")
      (attr "to" "x") (attr "action" "burn" ∷ attr "from" "x" ∷ []) refl refl

split_attributes_by_key_value_alphabetical_example :
    split_attributes_by_key_value (
      attr "_contract_address" "c"
      ∷ flatten (
          (attr "action" "send" ∷ attr "action" "burn" ∷ [])
          ∷ (attr "to" "x" ∷ attr "to" "y" ∷ [])
          ∷ []))
    ≡ some (
        messages (replicate 2 []) (
          (attr "action" "send" ∷ attr "action" "burn" ∷ [])
          ∷ (attr "to" "x" ∷ attr "to" "y" ∷ [])
          ∷ []))
split_attributes_by_key_value_alphabetical_example =
    split_attributes_by_key_value_alphabetical (attr "_contract_address" "c") (attr "action" "send")
      (attr "action" "burn") [] ((attr "to" "x" ∷ attr "to" "y" ∷ []) ∷ []) (refl, (refl, tt))
      ((refl, (refl, tt)), tt) (refl, tt)
