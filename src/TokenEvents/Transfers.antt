-- ===== src/TokenEvents/Transfers.antt =====
-- The transfers and retirements of one event reach the ledger (event_data_sync_wasm.ts).
use ixo_blocksync.Base.{
  ◌≡◌, refl, sym, ◌∙◌, true, false, String, Option, none, some, List, [], ◌∷◌, ◌++◌, All, ◌==◌, ◌<◌,
  arith, beq_refl, subst, string_eq,
}
use mathlib.Core.List.{append_assoc, append-nil}
use ixo_blocksync.Base.Int.{ℤ}
use ixo_blocksync.Base.Table.{Table, lookup}
use ixo_blocksync.Pg.{ok, running, pure, ◌>>=◌}
use ixo_blocksync.Sync.Interface.{Attribute}
use ixo_blocksync.Attributes.{split_attributes_by_key_value}
use ixo_blocksync.Token.{TokenTransaction, Ledger}
use ixo_blocksync.Token.Balances.{IsSynced, posted, posted-IsSynced}
use ixo_blocksync.Token.Balances.Posting.{IsSmall, create_token_transaction_run}
use ixo_blocksync.Token.Volume.{volume, volume-prefix}
use ixo_blocksync.TokenEvents.{
  is_unrelated, transaction_of, post_message, sync_token_messages, sync_token_event,
}

-- A message of an event with the transaction that it makes, none for an unrelated one.
abbrev pub Reading : Type 0
Reading = List Attribute × Option TokenTransaction

abbrev pub attributes_of : List Reading → List (List Attribute)
attributes_of [] = []
attributes_of (m ∷ ms) = m.0 ∷ attributes_of ms

abbrev pub transactions_of : List Reading → List TokenTransaction
transactions_of [] = []
transactions_of ((m, none) ∷ ms) = transactions_of ms
transactions_of ((m, some t) ∷ ms) = t ∷ transactions_of ms

module _ (big_int : String → Option ℤ) where
  -- The message is unrelated, or it makes the transaction, which has a sender and an indexed token.
  abbrev pub IsTransfer : Table String (Unit {0}) → Reading → Type 0
  IsTransfer tokens (m, none) = is_unrelated m ≡ true
  IsTransfer tokens (m, some t) =
      (is_unrelated m ≡ false)
      × (transaction_of big_int m ≡ some t)
      × ((t.sender == "") ≡ false)
      × (lookup t.token_id tokens ≡ some tt)

  -- For each token, the sizes of its amounts in the ledger and in the messages add up to less
  -- than 2 ^ 63.
  abbrev pub AreSmall : Ledger → List Reading → Type 0
  AreSmall s ms =
      (k : String) → volume k (s.transactions ++ transactions_of ms) < 9223372036854775808

  first-IsSmall :
      (m : List Attribute) (t : TokenTransaction) (ms : List Reading) (s : Ledger)
      → AreSmall s ((m, some t) ∷ ms)
      → IsSmall t s
  first-IsSmall m t ms s small = omega (
    arith,
    small t.token_id,
    volume-prefix t.token_id s.transactions t (transactions_of ms) (beq_refl t.token_id),
  )

  rest-AreSmall :
      (m : List Attribute) (t : TokenTransaction) (ms : List Reading) (s : Ledger)
      → AreSmall s ((m, some t) ∷ ms)
      → AreSmall (posted t s) ms
  unfolding posted
  rest-AreSmall m t ms s small k =
      subst (λ ts. volume k ts < 9223372036854775808)
        (sym (append_assoc s.transactions (t ∷ []) (transactions_of ms))) (small k)

  sync_token_messages-IsSynced :
      (ms : List Reading) (s : Ledger)
      → IsSynced s
      → All (IsTransfer s.tokens) ms
      → AreSmall s ms
      → (s' : Ledger) × (sync_token_messages big_int (attributes_of ms) (running s)
          ≡ (ok none, running s'))
        × (s'.transactions ≡ s.transactions ++ transactions_of ms)
        × IsSynced s'
  unfolding sync_token_messages pure post_message posted ◌>>=◌
  sync_token_messages-IsSynced [] s synced h small =
      (s, refl, sym (append-nil s.transactions), synced)
  sync_token_messages-IsSynced ((m, none) ∷ ms) s synced (unrelated, h) small =
      let (s', ran, wrote, synced') = sync_token_messages-IsSynced ms s synced h small in
      (s', rw unrelated ran, wrote, synced')
  sync_token_messages-IsSynced ((m, some t) ∷ ms) s synced ((related, made, named, known), h)
        small =
      let (s', ran, wrote, synced') =
        sync_token_messages-IsSynced ms (posted t s) (posted-IsSynced t s synced) h
          (rest-AreSmall m t ms s small) in
      (
        s',
        rw (related, made)
            (rw named (
              rw (create_token_transaction_run t s synced (first-IsSmall m t ms s small) known)
                ran)),
        wrote ∙ append_assoc s.transactions (t ∷ []) (transactions_of ms),
        synced',
      )

  -- An event of a token class whose attributes are split into messages, each unrelated or a transfer
  -- or a retirement of an indexed token with an amount that can be read, where the sizes of each
  -- token's amounts, those of the ledger included, add up to less than 2 ^ 63: the handler leaves no
  -- delayed function, the transactions of the messages are at the end of the ledger in their order,
  -- and the balances are those of the ledger, as they were before.
  pub sync_token_event-IsSynced :
      (attributes : List Attribute) (ms : List Reading) (s : Ledger)
      → split_attributes_by_key_value attributes ≡ some (attributes_of ms)
      → IsSynced s
      → All (IsTransfer s.tokens) ms
      → AreSmall s ms
      → (s' : Ledger) × (sync_token_event big_int attributes (running s) ≡ (ok none, running s'))
        × (s'.transactions ≡ s.transactions ++ transactions_of ms)
        × IsSynced s'
  unfolding sync_token_event
  sync_token_event-IsSynced attributes ms s e synced h small =
      rw (e, sync_token_event) (sync_token_messages-IsSynced ms s synced h small)
