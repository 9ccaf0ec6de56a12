-- ===== src/Tests/Loop.antt =====
-- The theorems on sync/sync_blocks.ts at a small chain.
use ixo_blocksync.Base.{
  ◌≡◌, refl, ℕ, zero, suc, ◌*◌, ◌⊎◌, List, [], ◌∷◌, ◌++◌, arith, All, replicate, ◌==◌, nat_eq,
  string_eq, if◌then◌else◌,
}
use ixo_blocksync.Base.Table.{lookup, update}
use ixo_blocksync.Pg.{thrown, ok, running, pure, throw, query, promise_all, with_transaction, ◌>>=◌}
use ixo_blocksync.Sync.{
  get_chain, update_chain, Core, rows, get_core_block, exit, start_block, start_loop,
  wait_for_block, sync_block, sync_in_transaction, index_block, iteration, run,
}
use ixo_blocksync.Sync.Interface.{BlockCore, World, Handlers, HandlerLaws}
use ixo_blocksync.Sync.Commit.{sync_block-ok, index_block_err}
use ixo_blocksync.Sync.Progress.{History, run-History}
use ixo_blocksync.Sync.Restart.{start_loop-run}
use ixo_blocksync.Sync.Patience.{gave_up, IsMissing, fresh, run_gives_up}

-- handlers that record the heights of the blocks, and throw at height 7
abbrev recording : Handlers (List ℕ)
recording = record {
  sync_events = λ b.
      if b.height == 7
      then throw (thrown "bad event")
      else query (λ w. (tt, record w { rest = w.rest ++ b.height ∷ [] }));
  sync_transactions = λ b. pure tt;
  delete_expired_authz_grants = λ b. query (λ w. (tt, w));
  ensure_daodao_snapshot = λ n w. (ok tt, w);
  ensure_v7_snapshot = λ n w. (ok tt, record w { rest = w.rest ++ 0 ∷ [] });
  left_over = λ b w. record w { rest = w.rest ++ 1 ∷ [] };
}

recording-HandlerLaws : HandlerLaws recording
unfolding query throw pure
recording-HandlerLaws = record {
  events_chain = λ b tx. ground arith;
  transactions_chain = λ b tx. refl;
  expiry_chain = λ b tx. ground arith;
  expiry_ok = λ b tx e. ground arith;
  daodao_chain = λ n w. refl;
  v7_chain = λ n w. refl;
  left_over_chain = λ b w. refl;
}

abbrev block_at : ℕ → BlockCore
block_at n = record { height = n; time = 1000 * n; transactions = []; events = [] }

abbrev world : ℕ → List ℕ → World (List ℕ)
world height rest = record { chain = ("impacthub", height) ∷ []; rest = rest }

sync_block-ok_example :
    sync_block recording "impacthub" (block_at 4) (running (world 3 []))
    ≡ (ok tt, running (world 4 (4 ∷ [])))
unfolding with_transaction sync_block promise_all update_chain update query pure ◌>>=◌
sync_block-ok_example =
    sync_block-ok recording recording-HandlerLaws "impacthub" (block_at 4) (world 3 [])
      (world 4 (4 ∷ [])) refl

index_block_err_example :
    ((index_block recording "impacthub" (block_at 7) (world 6 [])).1 ≡ world 6 []
      ⊎ ((index_block recording "impacthub" (block_at 7) (world 6 [])).1 ≡ world 6 (0 ∷ [])
          ⊎ (index_block recording "impacthub" (block_at 7) (world 6 [])).1 ≡ world 6 (0 ∷ 1 ∷ [])))
    × ((index_block recording "impacthub" (block_at 7) (world 6 [])).1.chain ≡ (world 6 []).chain)
unfolding index_block sync_in_transaction with_transaction sync_block promise_all throw ◌>>=◌
index_block_err_example =
    index_block_err recording recording-HandlerLaws "impacthub" (block_at 7) (world 6 [])
      (thrown "bad event") refl

abbrev seen : List Core
seen = rows [] ∷ rows (block_at 4 ∷ []) ∷ []

run-History_example : History recording "impacthub" 4 (world 3 []) 5 (world 4 (0 ∷ 4 ∷ []))
unfolding run iteration get_core_block wait_for_block index_block sync_in_transaction
    with_transaction sync_block promise_all update_chain update query pure ◌>>=◌
run-History_example =
    run-History recording "impacthub" seen (fresh 4) (fresh 5) (world 3 []) (world 4 (0 ∷ 4 ∷ []))
      refl

start_loop-run_example : (start_loop "impacthub" (world 4 (0 ∷ 4 ∷ []))).current_block ≡ 5
unfolding start_loop start_block get_chain lookup run iteration get_core_block wait_for_block
    index_block sync_in_transaction with_transaction sync_block promise_all update_chain update
    query pure ◌>>=◌
start_loop-run_example =
    start_loop-run recording recording-HandlerLaws "impacthub" seen (world 3 [])
      (world 4 (0 ∷ 4 ∷ [])) (fresh 5) 3 4 refl refl refl (ground arith)

All-replicate : (n : ℕ) (s : Core) → IsMissing 4 s → All (IsMissing 4) (replicate n s)
All-replicate zero s h = tt
All-replicate (suc n) s h = (h, All-replicate n s h)

run_gives_up_example :
    run recording "impacthub" (replicate 104 (rows [])) (fresh 4) (world 3 [])
    ≡ exit gave_up (world 3 [])
unfolding get_core_block
run_gives_up_example =
    run_gives_up recording "impacthub" (world 3 []) (replicate 104 (rows [])) 4
      (All-replicate 104 (rows []) refl) (omega arith)
