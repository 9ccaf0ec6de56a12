-- ===== src/Events/Delays.antt =====
-- When the delayed function of an event runs (sync_handlers/event_sync.ts).
use ixo_blocksync.Base.{
  ◌≡◌, refl, sym, ◌∙◌, ℕ, zero, suc, ◌-◌, ◌≤◌, false, nat_beq, Option, some, List, [], ◌∷◌, ◌++◌,
  arith, length,
}
use ixo_blocksync.Pg.{Tx, Exec, Action, pure, ◌>>=◌, ◌>>◌}
use ixo_blocksync.Pg.Laws.{bind_congr, bind_assoc}
use ixo_blocksync.Sync.Interface.{EventCore}
use ixo_blocksync.Events.{DelayedFunction, sync_events_from}

-- A function that waits for the n-th event from now.
abbrev pub waiting : {S : Type 0} → ℕ → Action S → Option (DelayedFunction S)
waiting n func = some (record { skip = n; func = func })

later : (n : ℕ) → nat_beq (suc (suc n)) 1 ≡ false
later n = ground arith

pred_later : (n : ℕ) → suc (suc n) - 1 ≡ suc n
pred_later n = omega arith

module _ {S : Type 0} (handle : EventCore → Exec S (Option (DelayedFunction S))) where
  -- The events in order, with what their handlers return dropped.
  unfoldable pub handle_all : List EventCore → Action S
  handle_all [] = pure tt
  handle_all (event ∷ events) = handle event >> handle_all events

  not_due :
      (n : ℕ) (func : Action S) (event : EventCore) (events : List EventCore) (tx : Tx S)
      → sync_events_from handle (waiting (suc (suc n)) func) (event ∷ events) tx
        ≡ (handle event >> sync_events_from handle (waiting (suc n) func) events) tx
  unfolding sync_events_from pure ◌>>=◌
  not_due n func event events tx =
      bind_congr (handle event) _ _ tx (λ res tx'. rw (later n, pred_later n) refl)

  -- A function left with skip n runs right after the n-th event that follows, and once: the events
  -- before that one are handled and what they leave is dropped, and the rest of the block goes on
  -- with what that event's handler left.
  pub sync_events_from_due :
      (mid rest : List EventCore) (event : EventCore) (func : Action S) (tx : Tx S)
      → sync_events_from handle (waiting (suc (length mid)) func) (mid ++ event ∷ rest) tx
        ≡ (handle_all mid >> (handle event >>= λ res. func >> sync_events_from handle res rest)) tx
  unfolding sync_events_from handle_all ◌>>=◌
  sync_events_from_due [] rest event func tx = refl
  sync_events_from_due (e ∷ mid) rest event func tx =
      not_due (length mid) func e (mid ++ event ∷ rest) tx
      ∙ bind_congr (handle e) _ _ tx (λ _. sync_events_from_due mid rest event func)
      ∙ sym (bind_assoc (handle e) (λ _. handle_all mid) _ tx)

  -- Where the block has no n-th event after it, the function never runs: the events are handled as
  -- if it had not been left.
  pub sync_events_from_lost :
      (events : List EventCore) (n : ℕ) (func : Action S) (tx : Tx S)
      → length events ≤ n
      → sync_events_from handle (waiting (suc n) func) events tx ≡ handle_all events tx
  unfolding sync_events_from handle_all
  sync_events_from_lost [] n func tx h = refl
  sync_events_from_lost (e ∷ events) zero func tx h = absurd (omega arith)
  sync_events_from_lost (e ∷ events) (suc n) func tx h =
      not_due n func e events tx
      ∙ bind_congr (handle e) _ _ tx
          (λ _ tx'. sync_events_from_lost events n func tx' (omega arith))
