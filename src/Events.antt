-- ===== src/Events.antt =====
-- sync_handlers/event_sync.ts: the events of a block in order, and the function that one event's
-- handler may leave to be run after a later event.
pub mod Delays
use ixo_blocksync.Base.{
  ℕ, zero, suc, ◌-◌, Bool, true, false, String, Option, none, some, List, [], ◌∷◌, ◌||◌, ◌==◌,
  nat_eq, string_eq, if◌then◌else◌,
}
use ixo_blocksync.Pg.{Exec, Action, pure, ◌>>=◌, ◌>>◌}
use ixo_blocksync.Sync.Interface.{EventCore}

pub record DelayedFunction (S : Type 0) : Type 0 where
  pub skip : ℕ
  pub func : Action S

-- the test on `event.type`; what `syncEventData` returns is not kept
unfoldable pub handle_event :
    {S : Type 0}
    → (EventCore → Exec S (Option (DelayedFunction S)))
    → (EventCore → Action S)
    → EventCore
    → Exec S (Option (DelayedFunction S))
unfolding pure ◌>>=◌
handle_event sync_wasm_event_data sync_event_data event =
    if event.type == "wasm" || event.type == "instantiate" || event.type == "migrate"
    then sync_wasm_event_data event
    else (sync_event_data event >> pure none)

module _ {S : Type 0} (handle : EventCore → Exec S (Option (DelayedFunction S))) where
  -- `delayedFunction && delayedFunction.skip === 1`
  abbrev pub run_due : Option (DelayedFunction S) → Action S
  run_due none = pure tt
  run_due (some d) = if d.skip == 1 then d.func else pure tt

  -- the `finally`: count down, or take what the event's handler returned
  abbrev pub next_delayed :
      Option (DelayedFunction S) → Option (DelayedFunction S) → Option (DelayedFunction S)
  next_delayed none res = res
  next_delayed (some d) res = if d.skip == 1 then res else some (record d { skip = d.skip - 1 })

  unfoldable pub sync_events_from : Option (DelayedFunction S) → List EventCore → Action S
  unfolding pure ◌>>=◌
  sync_events_from delayed [] = pure tt
  sync_events_from delayed (event ∷ events) = do
    res ← handle event
    run_due delayed
    sync_events_from (next_delayed delayed res) events

  -- `syncEvents`
  unfoldable pub sync_events : List EventCore → Action S
  unfolding sync_events_from
  sync_events events = sync_events_from none events
