-- ===== src/Wasm/Owners.antt =====
-- The owner of an entity that is minted: the event comes before the entity's row, so that its owner is
-- written by a delayed function.
use ixo_blocksync.Base.{◌≡◌, ◌∙◌, ap, Option, some, List, [], ◌∷◌, string_eq, beq_refl}
use ixo_blocksync.Pg.{Tx, Exec, Action, pure, ◌>>=◌, ◌>>◌}
use ixo_blocksync.Sync.Interface.{EventCore, BlockCore}
use ixo_blocksync.Attributes.{get_wasm_attr}
use ixo_blocksync.Events.{DelayedFunction, handle_event, sync_events, sync_events_from}
use ixo_blocksync.Events.Delays.{handle_all, sync_events_from_due}
use ixo_blocksync.Wasm.{
  WasmDb, Setting, update_entity_owner, sync_entity_event, sync_wasm_event_data,
}

module _ {P : Type 0} (set : Setting P) (block : BlockCore)
    (sync_event_data : EventCore → Action (WasmDb P)) where
  -- the handler of an event in a block
  abbrev pub handle : EventCore → Exec (WasmDb P) (Option (DelayedFunction (WasmDb P)))
  unfolding handle_event
  handle = handle_event (λ e. sync_wasm_event_data set e block) sync_event_data

  mint_case :
      (mint : EventCore)
      → mint.type ≡ "wasm"
      → get_wasm_attr mint.attributes "_contract_address" ≡ set.entity_contract
      → get_wasm_attr mint.attributes "action" ≡ "mint"
      → handle mint
        ≡ pure (
            some (record {
              skip = 2;
              func =
                  update_entity_owner
                    (get_wasm_attr mint.attributes "token_id")
                    (get_wasm_attr mint.attributes "owner");
            }))
  unfolding handle handle_event sync_wasm_event_data sync_entity_event
  mint_case mint t h a = simp (t, h, a, beq_refl set.entity_contract)

  -- A mint on the entity contract writes nothing at its place: the owner of the token is written
  -- right after the second event that follows in the block, and the rest of the block goes on from
  -- there.
  pub sync_events-mint :
      (mint e₁ e₂ : EventCore) (rest : List EventCore) (tx : Tx (WasmDb P))
      → mint.type ≡ "wasm"
      → get_wasm_attr mint.attributes "_contract_address" ≡ set.entity_contract
      → get_wasm_attr mint.attributes "action" ≡ "mint"
      → sync_events handle (mint ∷ e₁ ∷ e₂ ∷ rest) tx
        ≡ (handle e₁
              >> pure tt
              >> (handle e₂ >>= λ res.
                  update_entity_owner
                    (get_wasm_attr mint.attributes "token_id")
                    (get_wasm_attr mint.attributes "owner")
                  >> sync_events_from handle res rest))
            tx
  unfolding sync_events sync_events_from handle_all pure ◌>>=◌
  sync_events-mint mint e₁ e₂ rest tx t h a =
      ap (λ m. (m >>= λ res. sync_events_from handle res (e₁ ∷ e₂ ∷ rest)) tx)
        (mint_case mint t h a)
      ∙ sync_events_from_due handle (e₁ ∷ []) rest e₂ _ tx
