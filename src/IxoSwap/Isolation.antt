-- ===== src/IxoSwap/Isolation.antt =====
-- An event of one swap pool leaves the other pools alone (event_data_sync_wasm_ixoswap.ts).
use ixo_blocksync.Base.{
  ◌≡◌, ◌≢◌, refl, ◌∙◌, ℕ, Bool, true, false, String, Option, none, some, arith, ◌||◌, ◌==◌, nat_eq,
  string_eq, pair_eq, pair_beq_iff, if◌then◌else◌,
}
use ixo_blocksync.Base.Table.{lookup, lookup-update, lookup-upsert}
use ixo_blocksync.Pg.{
  continue, Error, Result, ok, err, Tx, Action, throw, query, statement, ◌>>=◌, ◌>>◌,
}
use ixo_blocksync.Sync.Interface.{EventCore}
use ixo_blocksync.IxoSwap.{
  IxoSwap, PriceHistory, SwapDb, Decimals, insert_price_row, update_ixo_swap,
  update_ixo_swap_reserves, record_reserves, insert_ixo_swap_price_history, process_ixo_swap_event,
}

module _ {P : Type 0} (d : Decimals P) (address : String) where
  -- The rows of every other pool, and their prices, are as they were.
  pub record SameElsewhere (s s' : SwapDb P) : Type 0 where
    pub swaps : (k : String) → k ≢ address → lookup k s'.swaps ≡ lookup k s.swaps
    pub history :
        (time : ℕ) (k : String)
        → k ≢ address
        → lookup (time, k) s'.history ≡ lookup (time, k) s.history

  Elsewhere-refl : (s : SwapDb P) → SameElsewhere s s
  Elsewhere-refl s = record { swaps = λ k ne. refl; history = λ time k ne. refl }

  Elsewhere-trans :
      (s1 s2 s3 : SwapDb P) → SameElsewhere s1 s2 → SameElsewhere s2 s3 → SameElsewhere s1 s3
  Elsewhere-trans s1 s2 s3 a b = record {
    swaps = λ k ne. b.swaps k ne ∙ a.swaps k ne;
    history = λ time k ne. b.history time k ne ∙ a.history time k ne;
  }

  pub record IsLocal (m : Action (SwapDb P)) : Type 0 where
    pub keeps :
        (s : SwapDb P) (failed : Bool)
        → SameElsewhere s (m (record { db = s; failed = failed })).1.db

  throw-IsLocal : (e : Error) → IsLocal (throw e)
  unfolding throw
  throw-IsLocal e = record { keeps = λ s failed. Elsewhere-refl s }

  update_ixo_swap-IsLocal : (f : IxoSwap → IxoSwap) → IsLocal (update_ixo_swap d address f)
  unfolding update_ixo_swap query
  update_ixo_swap-IsLocal f = record { keeps = go }
    where
      go :
          (s : SwapDb P) (failed : Bool)
          → SameElsewhere s (update_ixo_swap d address f (record { db = s; failed = failed })).1.db
      go s true = Elsewhere-refl s
      go s false = record {
        swaps = λ k ne. rw lookup-update (ground (arith, string_eq.beq_iff address k));
        history = λ time k ne. refl;
      }

  insert_price_row-IsLocal :
      (timestamp : ℕ) (p : PriceHistory P) → IsLocal (insert_price_row d timestamp address p)
  unfolding insert_price_row statement
  insert_price_row-IsLocal timestamp p = record {
    keeps = λ s failed. go s failed (lookup address s.swaps) refl;
  }
    where
      go :
          (s : SwapDb P) (failed : Bool) (found : Option IxoSwap)
          → lookup address s.swaps ≡ found
          → SameElsewhere s
              (insert_price_row d timestamp address p (record { db = s; failed = failed })).1.db
      go s true found h = Elsewhere-refl s
      go s false none h = rw h (Elsewhere-refl s)
      go s false (some t) h = rw h (record {
        swaps = λ k ne. refl;
        history = λ time k ne.
            rw lookup-upsert (ground (arith, pair_beq_iff (timestamp, address) (time, k)));
      })

  >>-IsLocal : (m n : Action (SwapDb P)) → IsLocal m → IsLocal n → IsLocal (m >> n)
  unfolding ◌>>=◌
  >>-IsLocal m n hm hn = record {
    keeps = λ s failed. go s (m (record { db = s; failed = failed })) (hm.keeps s failed);
  }
    where
      go :
          (s : SwapDb P) (r : Result (Unit {0}) × Tx (SwapDb P))
          → SameElsewhere s r.1.db
          → SameElsewhere s (continue r.0 (λ _. n) r.1).1.db
      go s (ok a, tx) h = Elsewhere-trans s tx.db (n tx).1.db h (hn.keeps tx.db tx.failed)
      go s (err e, tx) h = h

  if-IsLocal :
      (b : Bool) (m n : Action (SwapDb P)) → IsLocal m → IsLocal n → IsLocal (if b then m else n)
  if-IsLocal false m n hm hn = hn
  if-IsLocal true m n hm hn = hm

  refused-IsLocal : IsLocal (statement (λ s. none))
  unfolding statement
  refused-IsLocal = record { keeps = go }
    where
      go :
          (s : SwapDb P) (failed : Bool)
          → SameElsewhere s
              (statement {A = Unit {0}}
                (λ (x : SwapDb P). none)
                (record { db = s; failed = failed })).1.db
      go s true = Elsewhere-refl s
      go s false = Elsewhere-refl s

  update_ixo_swap_reserves-IsLocal : (r s : ℕ) → IsLocal (update_ixo_swap_reserves d address r s)
  unfolding update_ixo_swap_reserves
  update_ixo_swap_reserves-IsLocal r s =
      if-IsLocal _ _ _ (update_ixo_swap-IsLocal _) refused-IsLocal

  insert_ixo_swap_price_history-IsLocal :
      (timestamp : ℕ) (a b : String) (old : Option (ℕ × ℕ))
      → IsLocal (insert_ixo_swap_price_history d address timestamp a b old)
  unfolding insert_ixo_swap_price_history record_reserves
  insert_ixo_swap_price_history-IsLocal timestamp a b old = go (d.parse a) (d.parse b) refl refl
    where
      go :
          (r s : Option ℕ)
          → d.parse a ≡ r
          → d.parse b ≡ s
          → IsLocal (insert_ixo_swap_price_history d address timestamp a b old)
      go none s ha hb = rw (ha, insert_ixo_swap_price_history) (throw-IsLocal _)
      go (some r) none ha hb = rw (ha, insert_ixo_swap_price_history) (rw hb (throw-IsLocal _))
      go (some r) (some s) ha hb =
          rw (ha, insert_ixo_swap_price_history)
            (rw hb (
              >>-IsLocal _ _ (insert_price_row-IsLocal timestamp _)
                (update_ixo_swap_reserves-IsLocal r s)))

  process_ixo_swap_event-IsLocal :
      (event : EventCore) (action : String) (timestamp : ℕ) (reserves : ℕ × ℕ)
      → IsLocal (process_ixo_swap_event d event action address timestamp reserves)
  unfolding process_ixo_swap_event
  process_ixo_swap_event-IsLocal event action timestamp reserves =
      let set = update_ixo_swap-IsLocal in
      let prices = insert_ixo_swap_price_history-IsLocal timestamp in
      if-IsLocal (action == "instantiate-lp-token") _ _ (set _) (
        if-IsLocal (action == "freeze-deposits") _ _ (set _) (
          if-IsLocal (action == "transfer-ownership") _ _ (set _) (
            if-IsLocal (action == "claim-ownership") _ _ (set _) (
              if-IsLocal (action == "update-slippage") _ _ (set _) (
                if-IsLocal (action == "update-fee") _ _ (set _) (
                  if-IsLocal (action == "add-liquidity" || action == "remove-liquidity") _ _
                    (prices _ _ _)
                    (if-IsLocal (action == "cross-contract-swap" || action == "swap") _ _
                      (prices _ _ _) (throw-IsLocal _))))))))

  -- Whatever its action, and whether it succeeds, is refused or is unknown, an event of a pool leaves
  -- the row of any other pool, and its price history at any time, as they were.
  process_ixo_swap_event_elsewhere :
      (event : EventCore) (action : String) (timestamp : ℕ) (reserves : ℕ × ℕ) (tx : Tx (SwapDb P))
      (other : String) (time : ℕ)
      → other ≢ address
      → let tx' = (process_ixo_swap_event d event action address timestamp reserves tx).1 in
        (lookup other tx'.db.swaps ≡ lookup other tx.db.swaps)
        × (lookup (time, other) tx'.db.history ≡ lookup (time, other) tx.db.history)
  process_ixo_swap_event_elsewhere event action timestamp reserves tx other time ne =
      let kept =
        (process_ixo_swap_event-IsLocal event action timestamp reserves).keeps tx.db tx.failed in
      (kept.swaps other ne, kept.history time other ne)
