-- ===== src/Sync/Progress.antt =====
-- What the loop of sync/sync_blocks.ts does over many iterations: every height once and in order,
-- a height in the database that says where to go on, and an end to vain attempts.
use ixo_blocksync.Base.{
  ◌≡◌, refl, subst, ℕ, suc, String, some, List, [], ◌∷◌, string_eq, arith, Option-cases, inl, inr,
}
use ixo_blocksync.Pg.{Error, Result, ok, err}
use ixo_blocksync.Sync.{
  Core, unreachable, rows, get_core_block, Loop, Next, again, exit, recover, wait_for_block,
  index_block, advance, iteration, run,
}
use ixo_blocksync.Sync.Interface.{BlockCore, World, Handlers}

-- A block that is found has the height that was asked for.
pub height-get_core_block :
    (n : ℕ) (blocks : List BlockCore) (b : BlockCore)
    → get_core_block n blocks ≡ some b
    → b.height ≡ n
unfolding get_core_block
height-get_core_block n [] b e = cc
height-get_core_block n (x ∷ blocks) b e = ground (arith, height-get_core_block n blocks b)

module _ {R : Type 0} (h : Handlers R) (chain_id : String) where
  -- From block `n` and the world `w`, the blocks up to the one before the index have been indexed,
  -- each once, in the order of their heights; between them lie attempts that failed.
  pub data History (n : ℕ) (w : World R) : ℕ → World R → Type 0 where
    begin : History n w n w
    failed :
        {m : ℕ} {v v' : World R} (b : BlockCore) (e : Error)
        → History n w m v
        → b.height ≡ m
        → index_block h chain_id b v ≡ (err e, v')
        → History n w m v'
    indexed :
        {m : ℕ} {v v' : World R} (b : BlockCore)
        → History n w m v
        → b.height ≡ m
        → index_block h chain_id b v ≡ (ok tt, v')
        → History n w (suc m) v'

  module _ (n : ℕ) (w : World R) where
    abbrev Leads : Next R → Type 0
    Leads (again l v) = History n w l.current_block v
    Leads (exit e v) = Unit

    recover-Leads :
        (e : Error) (l : Loop) (v : World R) → History n w l.current_block v → Leads (recover e l v)
    unfolding recover
    recover-Leads e l v past = ground arith

    wait-Leads :
        (l : Loop) (v : World R) → History n w l.current_block v → Leads (wait_for_block l v)
    unfolding wait_for_block recover
    wait-Leads l v past = ground arith

    advance-Leads :
        (l : Loop) (v : World R) (b : BlockCore) (r : Result (Unit {0}) × World R)
        → History n w l.current_block v
        → b.height ≡ l.current_block
        → index_block h chain_id b v ≡ r
        → Leads (advance h chain_id l r)
    advance-Leads l v b (ok _, v') past at e =
        subst (λ m. History n w m v') (omega arith) (indexed b past at e)
    advance-Leads l v b (err x, v') past at e = recover-Leads x l v' (failed b x past at e)

    iteration-Leads :
        (seen : Core) (l : Loop) (v : World R)
        → History n w l.current_block v
        → Leads (iteration h chain_id seen l v)
    unfolding iteration
    iteration-Leads unreachable l v past = recover-Leads _ l v past
    iteration-Leads (rows blocks) l v past =
        elim (Option-cases (get_core_block l.current_block blocks)) [
          | inl e ↦ rw (e, Leads) (wait-Leads l v past)
          | inr (b, e) ↦
              rw (e, Leads)
                (advance-Leads l v b _ past (height-get_core_block l.current_block blocks b e) refl)
        ]

    resume-Leads :
        (s : Core) (seen : List Core) (l : Loop) (v : World R) (r : Next R)
        → ((l' : Loop) (v' : World R)
            → History n w l'.current_block v'
            → Leads (run h chain_id seen l' v'))
        → Leads r
        → iteration h chain_id s l v ≡ r
        → Leads (run h chain_id (s ∷ seen) l v)
    unfolding run
    resume-Leads s seen l v (again l' v') next past e = rw (e, Leads) (next l' v' past)
    resume-Leads s seen l v (exit x v') next past e = rw (e, Leads) tt

    run-Leads :
        (seen : List Core) (l : Loop) (v : World R)
        → History n w l.current_block v
        → Leads (run h chain_id seen l v)
    unfolding run
    run-Leads [] l v past = past
    run-Leads (s ∷ seen) l v past =
        resume-Leads s seen l v (iteration h chain_id s l v) (run-Leads seen)
          (iteration-Leads s l v past) refl

  -- Whatever the iterations see of the core database and whatever fails in them, while the loop has
  -- not ended: every height from the one where it started up to the one before its current block has
  -- been indexed, exactly once and in order, by a block of that height whose transaction returned.
  pub run-History :
      (seen : List Core) (l l' : Loop) (w w' : World R)
      → run h chain_id seen l w ≡ again l' w'
      → History l.current_block w l'.current_block w'
  run-History seen l l' w w' e = rw e at (run-Leads l.current_block w seen l w begin)
