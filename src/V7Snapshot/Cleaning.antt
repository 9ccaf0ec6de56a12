-- ===== src/V7Snapshot/Cleaning.antt =====
-- What each step of the snapshot of the v7 upgrade does to the transactions of liquid staking and to
-- the disputes (sync/v7_snapshot.ts).
use ixo_blocksync.Base.{
  ◌≡◌, refl, sym, ap, ◌∙◌, inl, inr, ℕ, ◌+◌, false, String, Option, none, some, List, [], ◌∷◌, ◌==◌,
  ◌&&◌, arith, nat_eq, string_eq, All, Bool-cases,
}
use ixo_blocksync.Pg.{Result, ok, err, Tx, pure, throw, query}
use ixo_blocksync.Pg.Laws.{Keeps, bind-Keeps, pure-Keeps}
use ixo_blocksync.Sync.Assembly.{zoom}
use ixo_blocksync.Claims.{ClaimDb, Dispute, dismiss, dismiss_legacy_disputes}
use ixo_blocksync.Claims.Collection.{ClaimCollection}
use ixo_blocksync.Claims.Collections.{upsert_claim_collection, list_all_collection_ids}
use ixo_blocksync.LiquidStake.{
  LiquidStakeTx, is_legacy, relink, relink_legacy_liquid_stake_tx_pool_id,
}
use ixo_blocksync.V7Snapshot.{
  V7Db, Setting, v7_legacy_pool_id, on_liquid, on_claims, ask, refresh_collection, write_collection,
  caught, refresh_collections,
}

-- No transaction from before the height is without a pool.
abbrev pub AllRelinked : ℕ → List LiquidStakeTx → Type 0
AllRelinked before rows = All (λ row. is_legacy before row ≡ false) rows

-- No dispute without a target role is open.
abbrev pub AllDismissed : List (ℕ × Dispute) → Type 0
AllDismissed ds = All (λ d. (d.1.status == 0 && d.1.target_role == 0) ≡ false) ds

pub relink-AllRelinked :
    (before : ℕ) (rows : List LiquidStakeTx)
    → AllRelinked before (relink v7_legacy_pool_id before rows)
unfolding relink
relink-AllRelinked before [] = tt
relink-AllRelinked before (row ∷ rows) = elim (Bool-cases (is_legacy before row)) [
  | inl e ↦ (rw e refl, relink-AllRelinked before rows)
  | inr e ↦ (rw e e, relink-AllRelinked before rows)
]

pub dismiss-AllDismissed : (ds : List (ℕ × Dispute)) → AllDismissed (dismiss ds)
unfolding dismiss
dismiss-AllDismissed [] = tt
dismiss-AllDismissed ((i, d) ∷ ds) = elim (Bool-cases (d.status == 0 && d.target_role == 0)) [
  | inl e ↦ (rw e refl, dismiss-AllDismissed ds)
  | inr e ↦ (rw e e, dismiss-AllDismissed ds)
]

upsert-Keeps : (c : String × ClaimCollection) → Keeps (λ s. s.disputes) (upsert_claim_collection c)
unfolding upsert_claim_collection query
upsert-Keeps c tx = ground arith

refresh_collection-Keeps :
    (set : Setting) (id : String) (n : ℕ) → Keeps (λ s. s.disputes) (refresh_collection set id n)
unfolding refresh_collection throw pure
refresh_collection-Keeps set id n =
    bind-Keeps (λ s. s.disputes) (ask (set.collection id)) (write_collection n)
      (λ tx. asked (set.collection id) tx) write
  where
    asked :
        (r : Result (Option (String × ClaimCollection)))
        → Keeps (λ (s : ClaimDb). s.disputes) (ask r)
    asked (ok a) tx = refl
    asked (err e) tx = refl

    write :
        (answer : Option (String × ClaimCollection))
        → Keeps (λ s. s.disputes) (write_collection n answer)
    write none = pure-Keeps (λ s. s.disputes) n
    write (some c) =
        bind-Keeps (λ s. s.disputes) (upsert_claim_collection c) (λ _. pure (n + 1))
          (upsert-Keeps c) (λ _. pure-Keeps (λ s. s.disputes) (n + 1))

-- the loop over the collections
refresh_collections-Keeps :
    (set : Setting) (ids : List String) (n : ℕ)
    → Keeps (λ s. s.disputes) (refresh_collections set ids n)
unfolding refresh_collections
refresh_collections-Keeps set [] n = pure-Keeps (λ s. s.disputes) n
refresh_collections-Keeps set (id ∷ ids) n =
    bind-Keeps (λ s. s.disputes) (λ tx. caught n (refresh_collection set id n tx))
      (refresh_collections set ids)
      (λ tx. kept (refresh_collection set id n tx) ∙ refresh_collection-Keeps set id n tx)
      (refresh_collections-Keeps set ids)
  where
    kept : (p : Result ℕ × Tx ClaimDb) → (caught n p).1.db.disputes ≡ p.1.db.disputes
    kept (ok m, tx) = unfold caught in refl
    kept (err e, tx) = unfold caught in refl

pub relinked_lem :
    (pool : String) (before n : ℕ) (tx tx' : Tx V7Db)
    → on_liquid (relink_legacy_liquid_stake_tx_pool_id pool before) tx ≡ (ok n, tx')
    → tx'.db.liquid.txs ≡ relink pool before tx.db.liquid.txs
unfolding relink_legacy_liquid_stake_tx_pool_id query zoom
relinked_lem pool before n tx tx' h = ground (arith, h)

pub dismissed_lem :
    (n : ℕ) (tx tx' : Tx V7Db)
    → on_claims dismiss_legacy_disputes tx ≡ (ok n, tx')
    → (tx'.db.claims.disputes ≡ dismiss tx.db.claims.disputes)
      × (tx'.db.liquid.txs ≡ tx.db.liquid.txs)
unfolding dismiss_legacy_disputes query zoom
dismissed_lem n tx tx' h = (ground (arith, h), ground (arith, h))

pub listed_lem :
    (ids : List String) (tx tx' : Tx V7Db)
    → on_claims list_all_collection_ids tx ≡ (ok ids, tx')
    → (tx'.db.claims.disputes ≡ tx.db.claims.disputes) × (tx'.db.liquid.txs ≡ tx.db.liquid.txs)
unfolding list_all_collection_ids query zoom
listed_lem ids tx tx' h = (ground (arith, h), ground (arith, h))

pub refreshed_lem :
    (set : Setting) (ids : List String) (n : ℕ) (tx tx' : Tx V7Db)
    → on_claims (refresh_collections set ids 0) tx ≡ (ok n, tx')
    → (tx'.db.claims.disputes ≡ tx.db.claims.disputes) × (tx'.db.liquid.txs ≡ tx.db.liquid.txs)
unfolding zoom
refreshed_lem set ids n tx tx' h =
    let at : ◌≡◌ {A = Tx V7Db} (on_claims (refresh_collections set ids 0) tx).1 tx' =
      ap (λ (p : Result ℕ × Tx V7Db). p.1) h in
    (
      ap (λ (t : Tx V7Db). t.db.claims.disputes) (sym at)
          ∙ refresh_collections-Keeps set ids 0 (record { db = tx.db.claims; failed = tx.failed }),
      ap (λ (t : Tx V7Db). t.db.liquid.txs) (sym at),
    )
