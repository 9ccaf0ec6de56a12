-- ===== src/Sync/Patience.antt =====
-- How long the loop of sync/sync_blocks.ts waits for a block that does not come.
use ixo_blocksync.Base.{
  ◌≡◌, refl, sym, subst, ◌∙◌, ℕ, ◌+◌, ◌*◌, ◌<◌, ◌≤◌, String, none, List, [], ◌∷◌, arith, dec_lt,
  All, length, ltb, if◌then◌else◌,
}
use ixo_blocksync.Pg.{Error, thrown}
use ixo_blocksync.Sync.{
  Core, unreachable, rows, get_core_block, Loop, again, exit, recover, wait_for_block, iteration,
  run,
}
use ixo_blocksync.Sync.Interface.{World, Handlers}

abbrev pub gave_up : Error
gave_up = thrown "More than 25 attempts in a row, erroring..."

-- The core database answers, and has no row of this height.
abbrev pub IsMissing : ℕ → Core → Type 0
IsMissing n unreachable = ⊥
IsMissing n (rows blocks) = get_core_block n blocks ≡ none

-- The counters of `startSync` as the number of looks since the last block.
abbrev looks : Loop → ℕ
looks l = l.error_count * 26 + l.count

record IsWaiting (l : Loop) : Type 0 where
  count_below : l.count < 26
  errors_below : l.error_count < 4

-- One more look in vain.
waited : Loop → Loop
waited l =
    if ltb 25 (l.count + 1)
    then record l { count = 0; error_count = l.error_count + 1 }
    else record l { count = l.count + 1 }

module _ {R : Type 0} (w : World R) where
  wait_for_block_again :
      (l : Loop) → IsWaiting l → looks l + 1 < 104 → wait_for_block l w ≡ again (waited l) w
  unfolding wait_for_block recover waited
  wait_for_block_again l ok few = ground arith

  wait_for_block_exit :
      (l : Loop) → IsWaiting l → 104 ≤ looks l + 1 → wait_for_block l w ≡ exit gave_up w
  unfolding wait_for_block recover
  wait_for_block_exit l ok many = ground arith

waited-IsWaiting :
    (l : Loop)
    → IsWaiting l
    → looks l + 1 < 104
    → IsWaiting (waited l)
      × (looks (waited l) ≡ looks l + 1)
      × ((waited l).current_block ≡ l.current_block)
unfolding waited
waited-IsWaiting l ok few = ground arith

module _ {R : Type 0} (h : Handlers R) (chain_id : String) (w : World R) where
  iteration_missing :
      (s : Core) (l : Loop)
      → IsMissing l.current_block s
      → iteration h chain_id s l w ≡ wait_for_block l w
  unfolding iteration
  iteration_missing unreachable l m = absurd m
  iteration_missing (rows blocks) l m = rw (m, iteration)

  run_missing_again :
      (seen : List Core) (l : Loop)
      → IsWaiting l
      → All (IsMissing l.current_block) seen
      → looks l + length seen < 104
      → (l' : Loop) × (run h chain_id seen l w ≡ again l' w) × (l'.current_block ≡ l.current_block)
  unfolding run
  run_missing_again [] l ok m few = (l, refl, refl)
  run_missing_again (s ∷ seen) l ok (m, ms) few =
      let (ok', n, same) = waited-IsWaiting l ok (omega arith) in
      let (l', e, here) =
        run_missing_again seen (waited l) ok' (subst (λ b. All (IsMissing b) seen) (sym same) ms)
          (omega arith) in
      (
        l',
        rw (iteration_missing s l m, wait_for_block_again w l ok (omega arith), run) e,
        here ∙ same,
      )

  run_missing_exit :
      (seen : List Core) (l : Loop)
      → IsWaiting l
      → All (IsMissing l.current_block) seen
      → looks l < 104
      → 104 ≤ looks l + length seen
      → run h chain_id seen l w ≡ exit gave_up w
  unfolding run
  run_missing_exit [] l ok m few many = absurd (omega arith)
  run_missing_exit (s ∷ seen) l ok (m, ms) few many = elim (dec_lt (looks l + 1) 104) [
    | yes more ↦
        let (ok', n, same) = waited-IsWaiting l ok more in
        rw (iteration_missing s l m, wait_for_block_again w l ok more, run)
          (run_missing_exit seen (waited l) ok' (subst (λ b. All (IsMissing b) seen) (sym same) ms)
            (omega arith) (omega arith))
    | no last ↦ rw (iteration_missing s l m, wait_for_block_exit w l ok (omega arith), run) refl
  ]

-- A loop that has just started, or just indexed a block.
abbrev pub fresh : ℕ → Loop
fresh n = record { current_block = n; count = 0; error_count = 0 }

fresh-IsWaiting : (n : ℕ) → IsWaiting (fresh n)
fresh-IsWaiting n = record { count_below = omega arith; errors_below = omega arith }

-- From a loop that has just started, or just indexed a block: while the core database answers and
-- does not have the next block, for up to 103 looks, the loop stays at that block with the database
-- unchanged.
pub run_waits :
    {R : Type 0} (h : Handlers R) (chain_id : String) (w : World R) (seen : List Core) (n : ℕ)
    → All (IsMissing n) seen
    → length seen < 104
    → (l' : Loop) × (run h chain_id seen (fresh n) w ≡ again l' w) × (l'.current_block ≡ n)
run_waits h chain_id w seen n missing few =
    run_missing_again h chain_id w seen (fresh n) (fresh-IsWaiting n) missing (omega arith)

-- From a loop that has just started, or just indexed a block: if the core database answers and does
-- not have the next block in 104 looks or more, the loop has ended with the error "More than 25
-- attempts in a row" and the database unchanged.
pub run_gives_up :
    {R : Type 0} (h : Handlers R) (chain_id : String) (w : World R) (seen : List Core) (n : ℕ)
    → All (IsMissing n) seen
    → 104 ≤ length seen
    → run h chain_id seen (fresh n) w ≡ exit gave_up w
run_gives_up h chain_id w seen n missing many =
    run_missing_exit h chain_id w seen (fresh n) (fresh-IsWaiting n) missing (omega arith)
      (omega arith)
