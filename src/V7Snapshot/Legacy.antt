-- ===== src/V7Snapshot/Legacy.antt =====
-- What the snapshot of the v7 upgrade leaves of the time before it (sync/v7_snapshot.ts).
use ixo_blocksync.Base.{
  ◌≡◌, refl, sym, subst, ap, ◌∙◌, ◌⊎◌, inl, inr, ◌≢◌, ℕ, ◌≤◌, Bool, false, String, Option, List,
  ◌==◌, arith, nat_eq, string_eq, ltb, if◌then◌else◌,
}
use ixo_blocksync.Pg.{
  Error, Result, ok, err, Tx, running, Exec, pure, query, with_transaction, ◌>>=◌,
}
use ixo_blocksync.Pg.Laws.{>>=-eq-ok}
use ixo_blocksync.Claims.{dismiss_legacy_disputes}
use ixo_blocksync.Claims.Collections.{list_all_collection_ids}
use ixo_blocksync.LiquidStake.{LiquidStakePool, relink_legacy_liquid_stake_tx_pool_id}
use ixo_blocksync.V7Snapshot.{
  Counts, V7Db, Setting, v7_legacy_pool_id, start_v7_snapshot, finish_v7_snapshot, is_completed,
  on_liquid, on_claims, ask, write_params, write_pools, refresh_collections, run_snapshot,
  take_snapshot, ensure_v7_snapshot,
}
use ixo_blocksync.V7Snapshot.Cleaning.{
  AllRelinked, AllDismissed, relink-AllRelinked, dismiss-AllDismissed, relinked_lem, dismissed_lem,
  listed_lem, refreshed_lem,
}

abbrev IsClean : ℕ → V7Db → Type 0
IsClean upgrade db = AllRelinked upgrade db.liquid.txs × AllDismissed db.claims.disputes

-- The four steps that leave the tables clean.
steps-IsClean :
    (set : Setting) (r d f : ℕ) (ids : List String) (t₄ t₅ t₆ t₇ t₈ : Tx V7Db)
    → on_liquid (relink_legacy_liquid_stake_tx_pool_id v7_legacy_pool_id set.upgrade_height) t₄
      ≡ (ok r, t₅)
    → on_claims dismiss_legacy_disputes t₅ ≡ (ok d, t₆)
    → on_claims list_all_collection_ids t₆ ≡ (ok ids, t₇)
    → on_claims (refresh_collections set ids 0) t₇ ≡ (ok f, t₈)
    → IsClean set.upgrade_height t₈.db
steps-IsClean set r d f ids t₄ t₅ t₆ t₇ t₈ e₅ e₆ e₇ e₈ =
    let (gone₆, kept₆) = dismissed_lem d t₅ t₆ e₆ in
    let (gone₇, kept₇) = listed_lem ids t₆ t₇ e₇ in
    let (gone₈, kept₈) = refreshed_lem set ids f t₇ t₈ e₈ in
    (
      subst (AllRelinked set.upgrade_height)
          (sym
            (kept₈ ∙ kept₇ ∙ kept₆ ∙ relinked_lem v7_legacy_pool_id set.upgrade_height r t₄ t₅ e₅))
          (relink-AllRelinked set.upgrade_height t₄.db.liquid.txs),
      subst AllDismissed (sym (gone₈ ∙ gone₇ ∙ gone₆)) (dismiss-AllDismissed t₅.db.claims.disputes),
    )

-- A run that returns has relinked and dismissed all that is from before the upgrade.
run_snapshot-IsClean :
    (set : Setting) (counts : Counts) (tx tx' : Tx V7Db)
    → run_snapshot set tx ≡ (ok counts, tx')
    → IsClean set.upgrade_height tx'.db
unfolding run_snapshot pure
run_snapshot-IsClean set counts tx tx' h =
    let (params, t₁, e₁, h₁) = >>=-eq-ok (ask set.module_params) after_params tx h in
    let (w, t₂, e₂, h₂) = >>=-eq-ok (on_liquid (write_params set params)) with_params t₁ h₁ in
    let (pools, t₃, e₃, h₃) = >>=-eq-ok (ask set.pools) (after_pools w) t₂ h₂ in
    let (c, t₄, e₄, h₄) = >>=-eq-ok (on_liquid (write_pools set pools 0)) (with_pools w) t₃ h₃ in
    let (r, t₅, e₅, h₅) = >>=-eq-ok relinking (relinked w c) t₄ h₄ in
    let (d, t₆, e₆, h₆) = >>=-eq-ok (on_claims dismiss_legacy_disputes) (dismissed w c r) t₅ h₅ in
    let (ids, t₇, e₇, h₇) = >>=-eq-ok (on_claims list_all_collection_ids) (listed w c r d) t₆ h₆ in
    let (f, t₈, e₈, h₈) =
      >>=-eq-ok (on_claims (refresh_collections set ids 0)) (refreshed w c r d) t₇ h₇ in
    let same : t₈ ≡ tx' = ap (λ (p : Result Counts × Tx V7Db). p.1) h₈ in
    subst (λ (t : Tx V7Db). IsClean set.upgrade_height t.db) same
      (steps-IsClean set r d f ids t₄ t₅ t₆ t₇ t₈ e₅ e₆ e₇ e₈)
  where
    relinking : Exec V7Db ℕ
    relinking =
        on_liquid (relink_legacy_liquid_stake_tx_pool_id v7_legacy_pool_id set.upgrade_height)

    refreshed : Bool → ℕ → ℕ → ℕ → ℕ → Exec V7Db Counts
    refreshed w c r d f = pure (record {
      pools_count = c;
      module_params_written = w;
      legacy_ls_tx_relinked = r;
      legacy_disputes_dismissed = d;
      collections_refreshed = f;
    })

    listed : Bool → ℕ → ℕ → ℕ → List String → Exec V7Db Counts
    listed w c r d ids = on_claims (refresh_collections set ids 0) >>= refreshed w c r d

    dismissed : Bool → ℕ → ℕ → ℕ → Exec V7Db Counts
    dismissed w c r d = on_claims list_all_collection_ids >>= listed w c r d

    relinked : Bool → ℕ → ℕ → Exec V7Db Counts
    relinked w c r = on_claims dismiss_legacy_disputes >>= dismissed w c r

    with_pools : Bool → ℕ → Exec V7Db Counts
    with_pools w c = relinking >>= relinked w c

    after_pools : Bool → List (String × LiquidStakePool) → Exec V7Db Counts
    after_pools w pools = on_liquid (write_pools set pools 0) >>= with_pools w

    with_params : Bool → Exec V7Db Counts
    with_params w = ask set.pools >>= after_pools w

    after_params : Option (String × Bool) → Exec V7Db Counts
    after_params params = on_liquid (write_params set params) >>= with_params

finish_v7_snapshot_lem :
    (set : Setting) (counts : Counts) (tx tx' : Tx V7Db)
    → finish_v7_snapshot set counts tx ≡ (ok tt, tx')
    → IsClean set.upgrade_height tx.db
    → (tx'.failed ≡ false) × IsClean set.upgrade_height tx'.db
unfolding finish_v7_snapshot query
finish_v7_snapshot_lem set counts tx tx' h clean = (
  ground (arith, h),
  (
    subst (AllRelinked set.upgrade_height) (ground (arith, h)) clean.0,
    subst AllDismissed (ground (arith, h)) clean.1,
  ),
)

take_snapshot-IsClean :
    (set : Setting) (db : V7Db) (tx : Tx V7Db)
    → take_snapshot set (running db) ≡ (ok tt, tx)
    → (tx.failed ≡ false) × IsClean set.upgrade_height tx.db
unfolding take_snapshot
take_snapshot-IsClean set db tx h =
    let (a, tx₁, started, h₁) =
      >>=-eq-ok (start_v7_snapshot set) (λ _. run_snapshot set >>= finish_v7_snapshot set)
        (running db) h in
    let (counts, tx₂, ran, finished) =
      >>=-eq-ok (run_snapshot set) (finish_v7_snapshot set) tx₁ h₁ in
    finish_v7_snapshot_lem set counts tx₂ tx finished (run_snapshot-IsClean set counts tx₁ tx₂ ran)

-- From the height of the upgrade on, while the snapshot is not complete, `ensureV7Snapshot` throws
-- and leaves the database as it was, or it returns and leaves one in which every transaction of
-- liquid staking from before the upgrade has its pool, and no dispute without a target role is
-- open, whatever the archive node answers.
pub ensure_v7_snapshot-IsClean :
    (set : Setting) (block : ℕ) (db : V7Db)
    → set.upgrade_height ≢ 0
    → set.upgrade_height ≤ block
    → is_completed db.state ≡ false
    → ((db' : V7Db) × (ensure_v7_snapshot set block db ≡ (ok tt, db'))
        × AllRelinked set.upgrade_height db'.liquid.txs
        × AllDismissed db'.claims.disputes)
      ⊎ ((e : Error) × (ensure_v7_snapshot set block db ≡ (err e, db)))
unfolding ensure_v7_snapshot with_transaction
ensure_v7_snapshot-IsClean set block db some_upgrade late incomplete =
    let set_upgrade : (set.upgrade_height == 0) ≡ false = ground (arith, some_upgrade) in
    let not_before : ltb block set.upgrade_height ≡ false = ground (arith, late) in
    rw (set_upgrade, not_before, incomplete) (split (take_snapshot set (running db)) refl)
  where
    committed : Result (Unit {0}) × Tx V7Db → Result (Unit {0}) × V7Db
    committed (r, tx) = (r, elim r [ ok _ ↦ (if tx.failed then db else tx.db) | err _ ↦ db ])

    split :
        (p : Result (Unit {0}) × Tx V7Db)
        → take_snapshot set (running db) ≡ p
        → ((db' : V7Db) × (committed p ≡ (ok tt, db'))
            × AllRelinked set.upgrade_height db'.liquid.txs
            × AllDismissed db'.claims.disputes)
          ⊎ ((e : Error) × (committed p ≡ (err e, db)))
    split (err x, tx) h = inr (x, refl)
    split (ok a, tx) h =
        let (no_failure, clean) = take_snapshot-IsClean set db tx h in
        inl (tx.db, rw no_failure refl, clean.0, clean.1)
