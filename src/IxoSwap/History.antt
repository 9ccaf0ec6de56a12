-- ===== src/IxoSwap/History.antt =====
-- The volumes that swaps leave in the price history (postgres/ixo_swap.ts).
use ixo_blocksync.Base.{
  ◌≡◌, refl, ◌∙◌, ℕ, ◌+◌, ◌<◌, ltb, true, String, Option, none, some, List, [], ◌∷◌, arith, All,
  nat_eq, string_eq, pair_eq,
}
use ixo_blocksync.Base.Table.{
  upserted, lookup, upsert, update, lookup-update_self, lookup-upsert_self,
}
use ixo_blocksync.Pg.{ok, Tx, running, Action, pure, query, statement, ◌>>=◌, ◌>>◌}
use ixo_blocksync.Sync.Interface.{EventCore}
use ixo_blocksync.Attributes.{get_wasm_attr}
use ixo_blocksync.IxoSwap.{
  IxoSwap, PriceHistory, SwapDb, Decimals, distance, add_volumes, price_row, set_reserves,
  insert_price_row, update_ixo_swap, update_ixo_swap_reserves, record_reserves,
  insert_ixo_swap_price_history, process_ixo_swap_event, get_ixo_swap_reserves, sync_ixo_swap,
}

-- A swap event with the reserves that its attributes hold.
abbrev pub Swap : Type 0
Swap = EventCore × (ℕ × ℕ)

-- the sum of the steps from one reserve to the next
abbrev pub traded : ℕ → List ℕ → ℕ
traded r [] = 0
traded r (next ∷ rest) = distance r next + traded next rest

abbrev pub last : ℕ → List ℕ → ℕ
last r [] = r
last r (next ∷ rest) = last next rest

abbrev pub firsts : List Swap → List ℕ
firsts [] = []
firsts (m ∷ rest) = m.1.0 ∷ firsts rest

abbrev pub seconds : List Swap → List ℕ
seconds [] = []
seconds (m ∷ rest) = m.1.1 ∷ seconds rest

module _ {P : Type 0} (d : Decimals P) (address : String) (timestamp : ℕ) where
  abbrev pub Reads : Swap → Type 0
  Reads m =
      (d.parse (get_wasm_attr m.0.attributes "token1155_reserve") ≡ some m.1.0)
      × (d.parse (get_wasm_attr m.0.attributes "token2_reserve") ≡ some m.1.1)

  -- Both reserves are numbers that a BIGINT column takes.
  abbrev pub Fits : ℕ × ℕ → Type 0
  Fits to = (to.0 < 9223372036854775808) × (to.1 < 9223372036854775808)

  -- the swaps of one pool in a block
  unfoldable pub run_swaps : List Swap → Action (SwapDb P)
  run_swaps [] = pure tt
  run_swaps (m ∷ rest) = sync_ixo_swap d m.0 "swap" address timestamp >> run_swaps rest

  abbrev pub volume_1155 : Option (PriceHistory P) → ℕ
  volume_1155 none = 0
  volume_1155 (some p) = p.token_1155_volume

  abbrev pub volume_2 : Option (PriceHistory P) → ℕ
  volume_2 none = 0
  volume_2 (some p) = p.token_2_volume

  -- the state after one swap
  abbrev pub swapped : IxoSwap → ℕ × ℕ → SwapDb P → SwapDb P
  swapped t to s =
      let row = price_row d to.0 to.1 (some (t.token_1155_reserve, t.token_2_reserve)) in
      record {
        swaps = update address (set_reserves d to.0 to.1) s.swaps;
        history = upsert (timestamp, address) row (add_volumes d row) s.history;
      }

  record_reserves-swapped :
      (t : IxoSwap) (to : ℕ × ℕ) (s : SwapDb P)
      → Fits to
      → lookup address s.swaps ≡ some t
      → record_reserves d address timestamp to.0 to.1
          (some (t.token_1155_reserve, t.token_2_reserve))
          (running s)
        ≡ (ok tt, running (swapped t to s))
  unfolding record_reserves insert_price_row update_ixo_swap_reserves update_ixo_swap statement
      query ◌>>=◌
  record_reserves-swapped t to s (fits₁, fits₂) h =
      let below₁ : ltb to.0 9223372036854775808 ≡ true = ground (arith, fits₁) in
      let below₂ : ltb to.1 9223372036854775808 ≡ true = ground (arith, fits₂) in
      rw (h, below₁, below₂) refl

  process-swap :
      (e : EventCore) (reserves : ℕ × ℕ) (tx : Tx (SwapDb P))
      → process_ixo_swap_event d e "swap" address timestamp reserves tx
        ≡ insert_ixo_swap_price_history d address timestamp
            (get_wasm_attr e.attributes "token1155_reserve")
            (get_wasm_attr e.attributes "token2_reserve")
            (some reserves)
            tx
  unfolding process_ixo_swap_event
  process-swap e reserves tx = refl

  insert-swapped :
      (m : Swap) (t : IxoSwap) (s : SwapDb P)
      → Reads m
      → Fits m.1
      → lookup address s.swaps ≡ some t
      → insert_ixo_swap_price_history d address timestamp
          (get_wasm_attr m.0.attributes "token1155_reserve")
          (get_wasm_attr m.0.attributes "token2_reserve")
          (some (t.token_1155_reserve, t.token_2_reserve))
          (running s)
        ≡ (ok tt, running (swapped t m.1 s))
  unfolding insert_ixo_swap_price_history
  insert-swapped m t s (r1, r2) fits h =
      rw (r1, insert_ixo_swap_price_history) (rw r2 (record_reserves-swapped t m.1 s fits h))

  sync_ixo_swap-swapped :
      (m : Swap) (t : IxoSwap) (s : SwapDb P)
      → Reads m
      → Fits m.1
      → lookup address s.swaps ≡ some t
      → sync_ixo_swap d m.0 "swap" address timestamp (running s)
        ≡ (ok tt, running (swapped t m.1 s))
  unfolding sync_ixo_swap get_ixo_swap_reserves query ◌>>=◌
  sync_ixo_swap-swapped m t s r fits h = rw h (
      process-swap m.0 (t.token_1155_reserve, t.token_2_reserve) (running s)
      ∙ insert-swapped m t s r fits h)

  volume_1155-swapped :
      (t : IxoSwap) (to : ℕ × ℕ) (s : SwapDb P)
      → volume_1155 (lookup (timestamp, address) (swapped t to s).history)
        ≡ volume_1155 (lookup (timestamp, address) s.history) + distance t.token_1155_reserve to.0
  volume_1155-swapped t to s = rw lookup-upsert_self (added (lookup (timestamp, address) s.history))
    where
      added :
          (o : Option (PriceHistory P))
          → (upserted
              (price_row d to.0 to.1 (some (t.token_1155_reserve, t.token_2_reserve)))
              (add_volumes d
                (price_row d to.0 to.1 (some (t.token_1155_reserve, t.token_2_reserve))))
              o).token_1155_volume
            ≡ volume_1155 o + distance t.token_1155_reserve to.0
      added none = ground arith
      added (some p) = refl

  volume_2-swapped :
      (t : IxoSwap) (to : ℕ × ℕ) (s : SwapDb P)
      → volume_2 (lookup (timestamp, address) (swapped t to s).history)
        ≡ volume_2 (lookup (timestamp, address) s.history) + distance t.token_2_reserve to.1
  volume_2-swapped t to s = rw lookup-upsert_self (added (lookup (timestamp, address) s.history))
    where
      added :
          (o : Option (PriceHistory P))
          → (upserted
              (price_row d to.0 to.1 (some (t.token_1155_reserve, t.token_2_reserve)))
              (add_volumes d
                (price_row d to.0 to.1 (some (t.token_1155_reserve, t.token_2_reserve))))
              o).token_2_volume
            ≡ volume_2 o + distance t.token_2_reserve to.1
      added none = ground arith
      added (some p) = refl

  -- What the swaps of a pool leave: the volumes of the row of the time and pool grow by the
  -- sums, and the pool holds the last reserves.
  abbrev pub Traded : List Swap → IxoSwap → SwapDb P → SwapDb P → Type 0
  Traded ms t s s' =
      (volume_1155 (lookup (timestamp, address) s'.history)
        ≡ volume_1155 (lookup (timestamp, address) s.history)
          + traded t.token_1155_reserve (firsts ms))
      × (volume_2 (lookup (timestamp, address) s'.history)
          ≡ volume_2 (lookup (timestamp, address) s.history)
            + traded t.token_2_reserve (seconds ms))
      × (lookup address s'.swaps
          ≡ some (
              set_reserves d (last t.token_1155_reserve (firsts ms))
                (last t.token_2_reserve (seconds ms)) t))

  -- Swaps of a known pool at one time, whose reserves can be read and are below 2 ^ 63, as the
  -- columns need them, all succeed; the volumes of the
  -- row of that time and pool grow by the sum of the steps of each reserve from one swap to the
  -- next, and the pool ends with the last reserves and is otherwise as it was.
  pub run_swaps-Traded :
      (ms : List Swap) (t : IxoSwap) (s : SwapDb P)
      → All Reads ms
      → All (λ m. Fits m.1) ms
      → lookup address s.swaps ≡ some t
      → (s' : SwapDb P) × (run_swaps ms (running s) ≡ (ok tt, running s')) × Traded ms t s s'
  unfolding run_swaps pure ◌>>=◌
  run_swaps-Traded [] t s r fits h = (s, refl, (ground arith, ground arith, h))
  run_swaps-Traded (m ∷ rest) t s (r, rs) (fit, fits) h =
      let t' = set_reserves d m.1.0 m.1.1 t in
      let s1 = swapped t m.1 s in
      let (s', ran, (v1, v2, held)) =
        run_swaps-Traded rest t' s1 rs fits
          (lookup-update_self address (set_reserves d m.1.0 m.1.1) s.swaps t h) in
      (
        s',
        rw (sync_ixo_swap-swapped m t s r fit h) ran,
        (
          ground (arith, v1, volume_1155-swapped t m.1 s),
          ground (arith, v2, volume_2-swapped t m.1 s),
          held,
        ),
      )
