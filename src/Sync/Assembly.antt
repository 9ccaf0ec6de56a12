-- ===== src/Sync/Assembly.antt =====
-- The handlers of a block put together (sync/sync_blocks.ts): the events by `sync_events` over a
-- handler of single events, the transactions and the expiry sweep as they are, each on its tables.
use ixo_blocksync.Base.{
  ◌≡◌, refl, sym, ap, ◌∙◌, ℕ, false, String, Option, some, arith, string_eq, pair_eq,
}
use ixo_blocksync.Base.Table.{lookup, delete_where, lookup-delete_where-some}
use ixo_blocksync.Pg.{
  Result, ok, Tx, running, Exec, Action, pure, query, promise_all, with_transaction, ◌>>=◌, ◌>>◌,
}
use ixo_blocksync.Pg.Laws.{>>=-eq-ok}
use ixo_blocksync.Sync.{sync_block}
use ixo_blocksync.Sync.Interface.{EventCore, BlockCore, World, Handlers, HandlerLaws}
use ixo_blocksync.Sync.Commit.{sync_block-ok}
use ixo_blocksync.Events.{DelayedFunction, sync_events}
use ixo_blocksync.Transactions.{TxDb, sync_transactions}
use ixo_blocksync.Authz.{GrantKey, Grant, AuthzDb, is_expired, delete_expired_authz_grants}

-- An action on a part of a database.
unfoldable pub zoom : {S T A : Type 0} → (S → T) → (T → S → S) → Exec T A → Exec S A
zoom get set m tx =
    let (r, tx') = m (record { db = get tx.db; failed = tx.failed }) in
    (r, record { db = set tx'.db tx.db; failed = tx'.failed })

-- The tables beside "Chain": those of the transactions, the authz index, and all the others.
pub record Rest (O : Type 0) : Type 0 where
  pub transactions : TxDb
  pub authz : AuthzDb
  pub others : O

module _ {O : Type 0} where
  unfoldable pub on_rest : {A : Type 0} → Exec (Rest O) A → Exec (World (Rest O)) A
  on_rest m = zoom (λ w. w.rest) (λ r w. record w { rest = r }) m

  -- the expiry sweep as a handler, its count dropped
  unfoldable pub sweep : BlockCore → Action (World (Rest O))
  sweep b =
      on_rest
        (zoom (λ r. r.authz) (λ t r. record r { authz = t }) (delete_expired_authz_grants b.time))
      >> pure tt

module _ {O : Type 0}
    (sync_event : BlockCore → EventCore → Exec (Rest O) (Option (DelayedFunction (Rest O))))
    (daodao v7 : ℕ → Rest O → Result (Unit {0}) × Rest O)
    (left_over : BlockCore → Rest O → Rest O) where
  abbrev snapshot :
      (ℕ → Rest O → Result (Unit {0}) × Rest O)
      → ℕ
      → World (Rest O)
      → Result (Unit {0}) × World (Rest O)
  snapshot f n w = let (r, rest) = f n w.rest in (r, record w { rest = rest })

  abbrev pub assembled : Handlers (Rest O)
  assembled = record {
    sync_events = λ b. on_rest (sync_events (sync_event b) b.events);
    sync_transactions = λ b. on_rest (
        zoom (λ r. r.transactions) (λ t r. record r { transactions = t })
          (sync_transactions b.height b.time b.transactions));
    delete_expired_authz_grants = sweep;
    ensure_daodao_snapshot = snapshot daodao;
    ensure_v7_snapshot = snapshot v7;
    left_over = λ b w. record w { rest = left_over b w.rest };
  }

  -- The modelled handlers keep what the loop asks of its handlers, whatever the handler of single
  -- events and the snapshots do with their own tables.
  assembled-HandlerLaws : HandlerLaws assembled
  unfolding on_rest zoom sweep delete_expired_authz_grants query pure ◌>>=◌
  assembled-HandlerLaws = record {
    events_chain = λ b tx. refl;
    transactions_chain = λ b tx. refl;
    expiry_chain = λ b tx. ground arith;
    expiry_ok = λ b tx e. ground arith;
    daodao_chain = λ n w. refl;
    v7_chain = λ n w. refl;
    left_over_chain = λ b w. refl;
  }

  -- The sweep succeeds where no statement has failed, with the index that the sweep leaves.
  sweep_ok :
      (b : BlockCore) (tx tx' : Tx (World (Rest O)))
      → sweep b tx ≡ (ok tt, tx')
      → tx'.db.rest.authz ≡ delete_where (is_expired b.time) tx.db.rest.authz
  unfolding on_rest zoom sweep delete_expired_authz_grants query pure ◌>>=◌
  sweep_ok b tx tx' e = ground arith

  -- If the transaction of a block returns, no grant in the committed index has expired at the time
  -- of the block, whatever the events of the block wrote.
  pub sync_block-is_expired :
      (chain_id : String) (b : BlockCore) (w w' : World (Rest O)) (key : GrantKey) (g : Grant)
      → with_transaction (sync_block assembled chain_id b) w ≡ (ok tt, w')
      → lookup key w'.rest.authz ≡ some g
      → is_expired b.time g ≡ false
  unfolding sync_block
  sync_block-is_expired chain_id b w w' key g returned found =
      let e = sync_block-ok assembled assembled-HandlerLaws chain_id b w w' returned in
      let (_, tx, _, swept) = >>=-eq-ok (promise_all _) (λ _. sweep b) (running w) e in
      lookup-delete_where-some (is_expired b.time) key tx.db.rest.authz g
        (ap (lookup key) (sym (sweep_ok b tx (running w') swept)) ∙ found)
