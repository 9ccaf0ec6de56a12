-- ===== src/Sync/Restart.antt =====
-- The height in "Chain" against the place of the loop (sync/sync_blocks.ts): where a restart goes on.
use ixo_blocksync.Base.{
  ◌≡◌, sym, ◌∙◌, ap, ℕ, ◌+◌, ◌≢◌, String, some, List, string_eq, arith, inl, ◌⊎◌,
}
use ixo_blocksync.Base.Table.{lookup, lookup-update_self}
use ixo_blocksync.Sync.{get_chain, Core, Loop, again, start_block, start_loop, run}
use ixo_blocksync.Sync.Interface.{World, Handlers, HandlerLaws}
use ixo_blocksync.Sync.Commit.{index_block_err, index_block-chain}
use ixo_blocksync.Sync.Progress.{History, begin, failed, indexed, run-History}

-- The stored height is that of the last block indexed. A fresh chain row says 1 while block 1 is
-- still to come.
abbrev pub IsAligned : {R : Type 0} → String → ℕ → World R → Type 0
IsAligned chain_id next w =
    (height : ℕ) × (get_chain chain_id w ≡ some height)
    × ((next ≡ height + 1) ⊎ ((next ≡ 1) × (height ≡ 1)))

start_block-IsAligned :
    {R : Type 0} (chain_id : String) (w : World R) (height : ℕ)
    → get_chain chain_id w ≡ some height
    → IsAligned chain_id (start_loop chain_id w).current_block w
unfolding start_loop start_block
start_block-IsAligned chain_id w height e = (height, e, ground arith)

start_block-of_place :
    {R : Type 0} (chain_id : String) (height stored next : ℕ) (w : World R)
    → get_chain chain_id w ≡ some stored
    → ((next ≡ stored + 1) ⊎ ((next ≡ 1) × (stored ≡ 1)))
    → get_chain chain_id w ≡ some height
    → height ≢ 1
    → (start_loop chain_id w).current_block ≡ next
unfolding start_loop start_block
start_block-of_place chain_id height stored next w found place e big = ground arith

module _ {R : Type 0} (h : Handlers R) (laws : HandlerLaws h) (chain_id : String) where
  chain-IsAligned :
      (next : ℕ) (v v' : World R)
      → v'.chain ≡ v.chain
      → IsAligned chain_id next v
      → IsAligned chain_id next v'
  unfolding get_chain
  chain-IsAligned next v v' same (height, e, place) = (height, rw same e, place)

  History-IsAligned :
      (n : ℕ) (w : World R) {m : ℕ} {v : World R}
      → History h chain_id n w m v
      → IsAligned chain_id n w
      → IsAligned chain_id m v
  unfolding get_chain
  History-IsAligned n w begin a = a
  History-IsAligned n w (failed {m = m} {v = v} {v' = v'} b x past at e) a =
      let (_, same) = index_block_err h laws chain_id b v x (ap (λ r. r.0) e) in
      chain-IsAligned m v v' (ap (λ r. r.1.chain) (sym e) ∙ same) (History-IsAligned n w past a)
  History-IsAligned n w (indexed {m = m} {v = v} {v' = v'} b past at e) a =
      let (height, stored, _) = History-IsAligned n w past a in
      let written : lookup chain_id v'.chain ≡ some b.height =
        ap (lookup chain_id) (index_block-chain h laws chain_id b v v' e)
        ∙ lookup-update_self chain_id (λ _. b.height) v.chain height stored in
      (b.height, written, inl (omega (arith, at)))

  -- However the loop has run, and wherever in it the process stops: a restart goes on at the block
  -- at which the loop stood, unless the stored height is 1.
  pub start_loop-run :
      (seen : List Core) (w w' : World R) (l' : Loop) (first height : ℕ)
      → get_chain chain_id w ≡ some first
      → run h chain_id seen (start_loop chain_id w) w ≡ again l' w'
      → get_chain chain_id w' ≡ some height
      → height ≢ 1
      → (start_loop chain_id w').current_block ≡ l'.current_block
  start_loop-run seen w w' l' first height e ran e' big =
      let past = run-History h chain_id seen (start_loop chain_id w) l' w w' ran in
      let (stored, found, place) =
        History-IsAligned (start_loop chain_id w).current_block w past
          (start_block-IsAligned chain_id w first e) in
      start_block-of_place chain_id height stored l'.current_block w' found place e' big

-- A database whose stored height is 1 makes a restart index block 1, also where block 1 has been
-- indexed and the loop stood at block 2.
pub start_loop_at_one :
    {R : Type 0} (chain_id : String) (w : World R)
    → get_chain chain_id w ≡ some 1
    → (start_loop chain_id w).current_block ≡ 1
unfolding start_loop start_block
start_loop_at_one chain_id w e = ground arith
