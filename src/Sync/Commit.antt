-- ===== src/Sync/Commit.antt =====
-- The transaction of a block (sync/sync_blocks.ts with postgres/client.ts): all or nothing.
use ixo_blocksync.Base.{◌≡◌, sym, ◌∙◌, ap, ℕ, false, String, [], ◌∷◌, string_eq, arith, ◌⊎◌}
use ixo_blocksync.Base.Table.{update}
use ixo_blocksync.Pg.{
  Error, ok, err, Tx, running, Exec, query, pure, ◌>>=◌, ◌>>◌, promise_all, with_transaction,
}
use ixo_blocksync.Pg.Laws.{>>=-eq-ok}
use ixo_blocksync.Sync.{update_chain, sync_block, sync_in_transaction, index_block}
use ixo_blocksync.Sync.Interface.{BlockCore, World, Handlers, HandlerLaws}

-- A transaction whose function throws leaves the database as it was.
pub with_transaction_err {ℓ} :
    {S A : Type ℓ} (fn : Exec S A) (db : S) (e : Error) {db' : S}
    → with_transaction fn db ≡ (err e, db')
    → db' ≡ db
unfolding with_transaction
with_transaction_err fn db e h = ground arith

-- One whose function returned, with no statement failed in it, leaves what the function wrote.
with_transaction_ok {ℓ} :
    {S A : Type ℓ} (fn : Exec S A) (db : S) {a : A} {db' : S}
    → with_transaction fn db ≡ (ok a, db')
    → (fn (running db)).1.failed ≡ false
    → fn (running db) ≡ (ok a, running db')
unfolding with_transaction
with_transaction_ok fn db h k = ground arith

ok_of_with_transaction {ℓ} :
    {S A : Type ℓ} (fn : Exec S A) (db : S) {a : A} {db' : S}
    → with_transaction fn db ≡ (ok a, db')
    → (tx : Tx S) × (fn (running db) ≡ (ok a, tx))
unfolding with_transaction
ok_of_with_transaction fn db h = ((fn (running db)).1, ground arith)

update_chain_ok :
    {R : Type 0} (chain_id : String) (height : ℕ) (tx tx' : Tx (World R))
    → (update_chain chain_id height >> pure tt) tx ≡ (ok tt, tx')
    → tx'.db.chain ≡ update chain_id (λ _. height) tx.db.chain
unfolding update_chain query ◌>>=◌
update_chain_ok chain_id height tx tx' e = ground arith

module _ {R : Type 0} (h : Handlers R) (laws : HandlerLaws h) (chain_id : String)
    (b : BlockCore) where
  -- If the transaction of a block returns, every statement of it has succeeded, also those whose
  -- errors a handler swallowed, and everything that was written is committed.
  pub sync_block-ok :
      (w w' : World R)
      → with_transaction (sync_block h chain_id b) w ≡ (ok tt, w')
      → sync_block h chain_id b (running w) ≡ (ok tt, running w')
  unfolding sync_block
  sync_block-ok w w' returned =
      let (tx, e) = ok_of_with_transaction (sync_block h chain_id b) w returned in
      let (_, tx₁, e₁, e₂) =
        >>=-eq-ok (promise_all _) (λ _. h.delete_expired_authz_grants b) (running w) e in
      let (_, sound) = laws.expiry_ok b tx₁ (ap (λ p. p.0) e₂) in
      with_transaction_ok (sync_block h chain_id b) w returned
        (ap (λ p. p.1.failed) (e ∙ sym e₂) ∙ sound)

  -- The row of the chain after the three handlers of `Promise.all`.
  handlers_chain :
      (w : World R) (tx : Tx (World R))
      → promise_all
          (h.sync_events b ∷ h.sync_transactions b ∷ update_chain chain_id b.height ∷ [])
          (running w)
        ≡ (ok tt, tx)
      → tx.db.chain ≡ update chain_id (λ _. b.height) w.chain
  unfolding promise_all
  handlers_chain w tx e =
      let (_, tx₁, e₁, k₁) = >>=-eq-ok (h.sync_events b) _ (running w) e in
      let (_, tx₂, e₂, k₂) = >>=-eq-ok (h.sync_transactions b) _ tx₁ k₁ in
      let c₁ : tx₁.db.chain ≡ w.chain =
        ap (λ p. p.1.db.chain) (sym e₁) ∙ laws.events_chain b (running w) in
      let c₂ : tx₂.db.chain ≡ tx₁.db.chain =
        ap (λ p. p.1.db.chain) (sym e₂) ∙ laws.transactions_chain b tx₁ in
      update_chain_ok chain_id b.height tx₂ tx k₂ ∙ ap (update chain_id (λ _. b.height)) (c₂ ∙ c₁)

  pub sync_block-chain :
      (w w' : World R)
      → with_transaction (sync_block h chain_id b) w ≡ (ok tt, w')
      → w'.chain ≡ update chain_id (λ _. b.height) w.chain
  unfolding sync_block
  sync_block-chain w w' returned =
      let e = sync_block-ok w w' returned in
      let (_, tx₁, e₁, e₂) =
        >>=-eq-ok (promise_all _) (λ _. h.delete_expired_authz_grants b) (running w) e in
      ap (λ p. p.1.db.chain) (sym e₂) ∙ laws.expiry_chain b tx₁ ∙ handlers_chain w tx₁ e₁

  -- An attempt at a block that throws, at whatever point, leaves what the snapshots did, which keep
  -- their own accounts, or that with what the calls that the transaction left running write after
  -- its end: nothing that was written in the block's transaction, and not the chain's height.
  pub index_block_err :
      (w : World R) (e : Error)
      → (index_block h chain_id b w).0 ≡ err e
      → let w₁ = (h.ensure_daodao_snapshot b.height w).1 in
        let w₂ = (h.ensure_v7_snapshot b.height w₁).1 in
        let w' = (index_block h chain_id b w).1 in
        ((w' ≡ w₁) ⊎ ((w' ≡ w₂) ⊎ (w' ≡ h.left_over b w₂))) × (w'.chain ≡ w.chain)
  unfolding index_block sync_in_transaction with_transaction
  index_block_err w e failed = ground (
    arith,
    laws.daodao_chain b.height w,
    laws.v7_chain b.height (h.ensure_daodao_snapshot b.height w).1,
    laws.left_over_chain b
        (h.ensure_v7_snapshot b.height (h.ensure_daodao_snapshot b.height w).1).1,
  )

  -- An attempt that returns has set the chain's height to the block's.
  pub index_block-chain :
      (w w' : World R)
      → index_block h chain_id b w ≡ (ok tt, w')
      → w'.chain ≡ update chain_id (λ _. b.height) w.chain
  unfolding index_block sync_in_transaction
  index_block-chain w w' done =
      let w₁ = (h.ensure_daodao_snapshot b.height w).1 in
      let w₂ = (h.ensure_v7_snapshot b.height w₁).1 in
      ground
        (arith, sync_block-chain w₂ w', laws.daodao_chain b.height w, laws.v7_chain b.height w₁)
