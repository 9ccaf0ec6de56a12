-- ===== src/DaoSnapshot/Once.antt =====
-- How often the snapshot is taken, and what an attempt that fails leaves (sync/daodao_snapshot.ts).
use ixo_blocksync.Base.{
  ◌≡◌, refl, sym, ap, ◌∙◌, ◌⊎◌, inl, inr, ℕ, ◌≤◌, Bool, true, false, String, some, arith, nat_eq,
  ltb, Bool-cases, Option-cases, if◌then◌else◌, ◌==◌, ◌≢◌,
}
use ixo_blocksync.Base.Table.{Table}
use ixo_blocksync.Numbers.{Arithmetic}
use ixo_blocksync.Pg.{Error, Result, ok, err, Tx, running, Exec, query, with_transaction, ◌>>=◌}
use ixo_blocksync.Pg.Laws.{>>=-eq-ok}
use ixo_blocksync.Sync.Assembly.{zoom}
use ixo_blocksync.DaoSnapshot.{
  Counts, SnapshotState, SnapshotDb, Setting, start_daodao_snapshot, finish_daodao_snapshot,
  is_completed, take_snapshot, ensure_daodao_snapshot,
}
use ixo_blocksync.DaoSnapshot.Steps.{Queries}
use ixo_blocksync.DaoSnapshot.Passes.{run_snapshot}

-- a run that leaves the row of the state as it is
abbrev KeepsState : Exec SnapshotDb Counts → Type 0
KeepsState m = (tx : Tx SnapshotDb) → (m tx).1.db.state ≡ tx.db.state

run_snapshot-KeepsState :
    (js : Arithmetic) (q : Queries) (le : String → String → Bool) (types : Table ℕ String)
    (now height : ℕ)
    → KeepsState (run_snapshot js q le types now height)
unfolding run_snapshot zoom ◌>>=◌ query
run_snapshot-KeepsState js q le types now height tx = elim (Bool-cases tx.failed) [
  | inl e ↦ rw e refl
  | inr e ↦ rw e refl
]

finish_completes :
    (set : Setting) (counts : Counts) (tx tx' : Tx SnapshotDb) (row : SnapshotState)
    → tx.db.state ≡ some row
    → finish_daodao_snapshot set counts tx ≡ (ok tt, tx')
    → (tx'.failed ≡ false) × (is_completed tx'.db.state ≡ true)
unfolding finish_daodao_snapshot query
finish_completes set counts tx tx' row there h =
    (ground (arith, there, h), ground (arith, there, h))

start_lem :
    (set : Setting) (height : ℕ) (tx tx' : Tx SnapshotDb)
    → start_daodao_snapshot set height tx ≡ (ok tt, tx')
    → (row : SnapshotState) × (tx'.db.state ≡ some row)
unfolding start_daodao_snapshot query
start_lem set height tx tx' h = elim (Option-cases tx'.db.state) [
  | inl e ↦ absurd (ground (arith, h, e))
  | inr there ↦ there
]

-- The transaction of an attempt that returns has no failed statement and completes the state.
take_snapshot-ok :
    (set : Setting) (run : ℕ → Exec SnapshotDb Counts) (height : ℕ) (db : SnapshotDb)
    (tx : Tx SnapshotDb)
    → KeepsState (run height)
    → take_snapshot set run height (running db) ≡ (ok tt, tx)
    → (tx.failed ≡ false) × (is_completed tx.db.state ≡ true)
unfolding take_snapshot
take_snapshot-ok set run height db tx keeps h =
    let (a, tx₁, started, h₁) =
      >>=-eq-ok (start_daodao_snapshot set height) (λ _. run height >>= finish_daodao_snapshot set)
        (running db) h in
    let (counts, tx₂, ran, finished) = >>=-eq-ok (run height) (finish_daodao_snapshot set) tx₁ h₁ in
    let (row, there) = start_lem set height (running db) tx₁ started in
    finish_completes set counts tx₂ tx row
      (ap (λ (p : Result Counts × Tx SnapshotDb). p.1.db.state) (sym ran) ∙ keeps tx₁ ∙ there)
      finished

-- A later attempt does nothing where the snapshot is complete.
completed_stays :
    (set : Setting) (run : ℕ → Exec SnapshotDb Counts) (block : ℕ) (db : SnapshotDb)
    → is_completed db.state ≡ true
    → ensure_daodao_snapshot set run block db ≡ (ok tt, db)
unfolding ensure_daodao_snapshot
completed_stays set run block db h = ground (arith, h)

abbrev committed : SnapshotDb → Result (Unit {0}) × Tx SnapshotDb → Result (Unit {0}) × SnapshotDb
committed db (r, tx) = (r, elim r [ ok _ ↦ (if tx.failed then db else tx.db) | err _ ↦ db ])

-- From the cutoff height on, `ensureDaodaoSnapshot` throws and leaves the database as it was, or it
-- returns and leaves one in which no later call does anything, at whatever block, with whatever
-- configuration and answers of the archive node.
pub ensure_daodao_snapshot-once :
    (set set' : Setting) (js : Arithmetic) (q q' : Queries) (le : String → String → Bool)
    (types types' : Table ℕ String) (block block' : ℕ) (db : SnapshotDb)
    → set.cutoff_height ≢ 0
    → set.cutoff_height ≤ block
    → ((db' : SnapshotDb) × (ensure_daodao_snapshot set
            (run_snapshot js q le types set.now)
            block
            db
          ≡ (ok tt, db'))
        × (ensure_daodao_snapshot set' (run_snapshot js q' le types' set'.now) block' db'
            ≡ (ok tt, db')))
      ⊎ ((e : Error) × (ensure_daodao_snapshot set (run_snapshot js q le types set.now) block db
            ≡ (err e, db)))
unfolding ensure_daodao_snapshot with_transaction
ensure_daodao_snapshot-once set set' js q q' le types types' block block' db some_cutoff late =
    elim (Bool-cases (is_completed db.state)) [
      | inl e ↦ inl (
        db,
        completed_stays set (run_snapshot js q le types set.now) block db e,
        completed_stays set' (run_snapshot js q' le types' set'.now) block' db e,
      )
      | inr e ↦
          let set_cutoff : (set.cutoff_height == 0) ≡ false = ground (arith, some_cutoff) in
          let not_before : ltb block set.cutoff_height ≡ false = ground (arith, late) in
          rw (set_cutoff, not_before, e) (split (take_snapshot set run block (running db)) refl)
    ]
  where
    run : ℕ → Exec SnapshotDb Counts
    run = run_snapshot js q le types set.now

    split :
        (p : Result (Unit {0}) × Tx SnapshotDb)
        → take_snapshot set run block (running db) ≡ p
        → ((db' : SnapshotDb) × (committed db p ≡ (ok tt, db'))
            × (ensure_daodao_snapshot set' (run_snapshot js q' le types' set'.now) block' db'
                ≡ (ok tt, db')))
          ⊎ ((e : Error) × (committed db p ≡ (err e, db)))
    split (err x, tx) h = inr (x, refl)
    split (ok a, tx) h =
        let (no_failure, complete) =
          take_snapshot-ok set run block db tx (run_snapshot-KeepsState js q le types set.now block)
            h in
        inl (
          tx.db,
          rw no_failure refl,
          completed_stays set' (run_snapshot js q' le types' set'.now) block' tx.db complete,
        )
